-- ===== src/Owner/Identity.antt =====
-- wg-kotlin-daemon-rust/daemon/src/owner.rs on Linux: which process the owner is.
use wg_kotlin.Base.{
  ℕ, zero, suc, ◌≤◌, ◌<◌, ◌≡◌, refl, sym, ap, ◌∙◌, subst, not, arith, leb, ◌==◌, ==_iff, Result, ok,
  ok-injective,
}
use wg_kotlin.Base.Int.{ℤ, pos, negsuc, is_zero}
use wg_kotlin.Base.Eff.{map_fail, continued, continued_lift, map_fail_ok}
use wg_kotlin.Text.{Str, codes}
use wg_kotlin.Frame.{IoError}
use wg_kotlin.Owner.{
  OwnerError, invalid_pid, pidfd_failed, io, time_mismatch, exited, ensure, ensured, i32_max,
}
use wg_kotlin.Owner.Proc.{
  real_uid, start_ticks, ShowsUid, ShowsStart, real_uid_lem, start_ticks_lem,
}
use wg_kotlin.Owner.Linux.{
  ProcessApi, OwnerProcess, held, proc_path, is_alive, ensure_alive, identify, open_owner,
}

-- What the system promises of process instances `I`, of which one has a number, a start time and, at
-- each time, a real user. A handle stands for one instance, which exists from then on. Reading a file
-- or asking a handle does not make a process live again. The handle of an instance that runs is not
-- readable, and as long as it runs, the files under its number are about it.
pub record ProcessLaws {W H : Type 0} (system : ProcessApi W H) (I : Type 0)
    (Exists Alive : W → I → Type 0) : Type 0 where
  pub instance_of : H → I
  pub number : I → ℕ
  pub started : I → ℕ
  pub user : W → I → ℕ
  pub opened :
      (pid : ℕ) (h : H) (w w' : W)
      → system.pidfd_open pid w ≡ (ok h, w')
      → (number (instance_of h) ≡ pid) × Exists w' (instance_of h)
  pub read_keeps :
      (path : Str) (i : I) (w : W)
      → Exists w i
      → Exists (system.read_to_string path w).1 i
        × (Alive (system.read_to_string path w).1 i → Alive w i)
  pub polled :
      (h : H) (w w' : W)
      → Exists w (instance_of h)
      → system.poll h w ≡ (pos 0, w')
      → Alive w (instance_of h) × Alive w' (instance_of h)
  pub status_shows :
      (i : I) (text : Str) (w w' : W)
      → Exists w i
      → Alive w' i
      → system.read_to_string (proc_path (number i) (codes "status")) w ≡ (ok text, w')
      → ShowsUid (user w i) text
  pub stat_shows :
      (i : I) (text : Str) (w w' : W)
      → Exists w i
      → Alive w' i
      → system.read_to_string (proc_path (number i) (codes "stat")) w ≡ (ok text, w')
      → ShowsStart (started i) text

module _ {W H I : Type 0} (system : ProcessApi W H) (Exists Alive : W → I → Type 0)
    (laws : ProcessLaws system I Exists Alive) where
  -- The owner is the process instance with the number and the start time that were asked for, it runs
  -- when the owner is given, and the user is its real user.
  pub record IsOwner (pid start_time : ℕ) (owner : OwnerProcess H) (w w' : W) : Type 0 where
    pub pid_kept : owner.pid ≡ pid
    pub number : laws.number (laws.instance_of owner.process) ≡ pid
    pub started : laws.started (laws.instance_of owner.process) ≡ start_time
    pub alive : Alive w' (laws.instance_of owner.process)
    pub user : owner.uid ≡ laws.user w (laws.instance_of owner.process)

  alive-Alive :
      (owner : OwnerProcess H) (w w' : W)
      → Exists w (laws.instance_of owner.process)
      → ensure_alive system owner w ≡ (ok tt, w')
      → Alive w (laws.instance_of owner.process) × Alive w' (laws.instance_of owner.process)
  unfolding ensure_alive is_alive
  alive-Alive owner w w' exists h = go (system.poll owner.process w) refl h
    where
      go :
          (p : ℤ × W)
          → p ≡ system.poll owner.process w
          → ◌≡◌ {A = Result OwnerError (Unit {0}) × W}
              (ensure (is_zero p.0) exited, p.1)
              (ok tt, w')
          → Alive w (laws.instance_of owner.process) × Alive w' (laws.instance_of owner.process)
      go (pos zero, v) e h = laws.polled owner.process w w' exists cc
      go (pos (suc n), v) e h = ground (arith, h)
      go (negsuc n, v) e h = ground (arith, h)

  kept :
      (path : Str) (i : I) (text : Str) (w w' : W)
      → Exists w i
      → system.read_to_string path w ≡ (ok text, w')
      → Exists w' i × (Alive w' i → Alive w i)
  kept path i text w w' exists e =
      subst (λ v. Exists v i × (Alive v i → Alive w i)) (ap (λ (p : Result IoError Str × W). p.1) e)
        (laws.read_keeps path i w exists)

  identify-IsOwner :
      (pid start_time : ℕ) (h : H) (w w' : W) (owner : OwnerProcess H)
      → laws.number (laws.instance_of h) ≡ pid
      → Exists w (laws.instance_of h)
      → identify system pid start_time h w ≡ (ok owner, w')
      → IsOwner pid start_time owner w w' × (owner.process ≡ h)
  unfolding identify
  identify-IsOwner pid start_time h w w' owner numbered exists run =
      let i = laws.instance_of h in
      let status_path = proc_path pid (codes "status") in
      let stat_path = proc_path pid (codes "stat") in
      let (status, w₁, status_run, run₁) =
        continued (map_fail io (system.read_to_string status_path) w) run in
      let (uid, uid_parsed, run₂) = continued_lift (real_uid status) w₁ _ run₁ in
      let (stat, w₂, stat_run, run₃) =
        continued (map_fail io (system.read_to_string stat_path) w₁) run₂ in
      let (ticks, ticks_parsed, run₄) = continued_lift (start_ticks stat) w₂ _ run₃ in
      let (_, same, run₅) = continued_lift (ensure (ticks == start_time) time_mismatch) w₂ _ run₄ in
      let (_, w₃, lives, run₆) = continued (ensure_alive system (held pid uid h) w₂) run₅ in
      let status_read = map_fail_ok io (system.read_to_string status_path) w status_run in
      let stat_read = map_fail_ok io (system.read_to_string stat_path) w₁ stat_run in
      let (exists₁, back₁) = kept status_path i status w w₁ exists status_read in
      let (exists₂, back₂) = kept stat_path i stat w₁ w₂ exists₁ stat_read in
      let (alive₂, alive₃) = alive-Alive (held pid uid h) w₂ w₃ exists₂ lives in
      let shown =
        real_uid_lem (laws.user w i) status
          (laws.status_shows i status w w₁ exists (back₂ alive₂) (rw numbered status_read)) in
      let timed =
        start_ticks_lem (laws.started i) stat
          (laws.stat_shows i stat w₁ w₂ exists₁ alive₂ (rw numbered stat_read)) in
      let uids : uid ≡ laws.user w i = ok-injective (sym uid_parsed ∙ shown) in
      let times : ticks ≡ laws.started i = ok-injective (sym ticks_parsed ∙ timed) in
      let asked : ticks ≡ start_time =
        (==_iff ticks start_time).0 (ensured (ticks == start_time) time_mismatch same) in
      let given : held pid uid h ≡ owner =
        ok-injective (ap (λ (p : Result OwnerError (OwnerProcess H) × W). p.0) run₆) in
      let at_end : w₃ ≡ w' = ap (λ (p : Result OwnerError (OwnerProcess H) × W). p.1) run₆ in
      subst (λ o. IsOwner pid start_time o w w' × (o.process ≡ h)) given
        (
          record {
            pid_kept = refl;
            number = numbered;
            started = sym times ∙ asked;
            alive = subst (λ v. Alive v i) at_end alive₃;
            user = uids;
          },
          refl,
        )

  -- An opened owner is one that the system knows by the number, which is positive and at most the
  -- largest signed 32-bit number. It is the process instance with the start time that was asked for and not
  -- another one that took its number, it runs at the end, and the user is its real user at the time
  -- at which its handle was opened; all this by what the system promises of processes.
  pub open_owner-IsOwner :
      (pid start_time : ℕ) (w w' : W) (owner : OwnerProcess H)
      → open_owner system pid start_time w ≡ (ok owner, w')
      → (0 < pid)
        × (pid ≤ i32_max)
        × ((w₁ : W) × (system.pidfd_open pid w ≡ (ok owner.process, w₁))
            × IsOwner pid start_time owner w₁ w')
  unfolding open_owner
  open_owner-IsOwner pid start_time w w' owner run =
      let (_, positive, run₁) = continued_lift (ensure (not (pid == 0)) invalid_pid) w _ run in
      let (_, bounded, run₂) = continued_lift (ensure (leb pid i32_max) invalid_pid) w _ run₁ in
      let (h, w₁, handle, run₃) =
        continued (map_fail pidfd_failed (system.pidfd_open pid) w) run₂ in
      let handle_open = map_fail_ok pidfd_failed (system.pidfd_open pid) w handle in
      let (numbered, exists) = laws.opened pid h w w₁ handle_open in
      let (is_owner, same) = identify-IsOwner pid start_time h w₁ w' owner numbered exists run₃ in
      (
        ground (arith, ensured (not (pid == 0)) invalid_pid positive),
        ground (arith, ensured (leb pid i32_max) invalid_pid bounded),
        (w₁, handle_open ∙ ap {B = Result IoError H × W} (λ k. (ok k, w₁)) (sym same), is_owner),
      )
