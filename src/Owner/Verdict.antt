-- ===== src/Owner/Verdict.antt =====
-- wg-kotlin-daemon-rust/daemon/src/owner.rs on Linux: what `OwnerProcess::open` answers.
use wg_kotlin.Base.{
  ℕ, ◌≤◌, ◌<◌, ◌≡◌, refl, inl, inr, Bool, true, false, arith, leb, ◌==◌, if◌then◌else◌, Bool-cases,
  Result, ok, err,
}
use wg_kotlin.Base.Int.{is_zero}
use wg_kotlin.Base.Eff.{continue, ◌>>◌, pure}
use wg_kotlin.Text.{Str, codes}
use wg_kotlin.Owner.{OwnerError, time_mismatch, exited, ensure, i32_max}
use wg_kotlin.Owner.Proc.{ShowsUid, ShowsStart, real_uid_lem, start_ticks_lem}
use wg_kotlin.Owner.Linux.{
  ProcessApi, OwnerProcess, held, proc_path, is_alive, ensure_alive, identify, open_owner,
}

-- What `open` gives when the handle opens and both files are readable.
abbrev pub verdict :
    {W H : Type 0}
    → ProcessApi W H
    → OwnerProcess H
    → Bool
    → W
    → Result OwnerError (OwnerProcess H) × W
verdict system owner true w =
    let (ready, w') = system.poll owner.process w in
    (if is_zero ready then ok owner else err exited, w')
verdict system owner false w = (err time_mismatch, w)

module _ {W H : Type 0} (system : ProcessApi W H) where
  verdict_run :
      (pid uid : ℕ) (h : H) (same : Bool) (w : W)
      → continue
          (ensure same time_mismatch, w)
          (λ _. ensure_alive system (held pid uid h) >> pure (held pid uid h))
        ≡ verdict system (held pid uid h) same w
  unfolding ensure_alive is_alive
  verdict_run pid uid h false w = refl
  verdict_run pid uid h true w = elim (Bool-cases (is_zero (system.poll h w).0)) [
    | inl idle ↦ rw idle refl
    | inr ready ↦ rw ready refl
  ]

  -- A number from 1 to the largest signed 32-bit number whose handle opens, with files that show a
  -- user and a start time: the outcome is the owner with that number, user and handle if the start
  -- time is the one that was asked for and the handle is not readable, and an error otherwise.
  pub open_owner-verdict :
      (pid start_time uid started : ℕ) (h : H) (status stat : Str) (w w₁ w₂ w₃ : W)
      → 0 < pid
      → pid ≤ i32_max
      → system.pidfd_open pid w ≡ (ok h, w₁)
      → system.read_to_string (proc_path pid (codes "status")) w₁ ≡ (ok status, w₂)
      → system.read_to_string (proc_path pid (codes "stat")) w₂ ≡ (ok stat, w₃)
      → ShowsUid uid status
      → ShowsStart started stat
      → open_owner system pid start_time w
        ≡ verdict system (held pid uid h) (started == start_time) w₃
  unfolding open_owner identify
  open_owner-verdict pid start_time uid started h status stat w w₁ w₂ w₃ positive bounded handle
        status_read stat_read shown timed =
      let nonzero : (pid == 0) ≡ false = ground arith in
      let small : leb pid i32_max ≡ true = ground arith in
      rw
        (
          nonzero,
          small,
          handle,
          status_read,
          real_uid_lem uid status shown,
          stat_read,
          start_ticks_lem started stat timed,
        )
        (verdict_run pid uid h (started == start_time) w₃)
