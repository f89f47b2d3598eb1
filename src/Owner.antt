-- ===== src/Owner.antt =====
-- wg-kotlin-daemon-rust/daemon/src/owner.rs: the process that owns the daemon.
pub mod Proc
pub mod Linux
pub mod Identity
pub mod Verdict
pub mod Mac
pub mod Windows
use wg_kotlin.Base.{
  ℕ, zero, suc, ◌+◌, ◌-◌, ◌*◌, ◌/◌, ◌%◌, ◌^◌, ◌≤◌, ◌<◌, min, max, String, ◌≡◌, refl, sym, ap, ◌∙◌,
  subst, ◌≢◌, ◌↔◌, ◌⊎◌, inl, inr, Bool, true, false, not, ◌&&◌, ◌||◌, Option, none, some, List, [],
  ◌∷◌, ◌++◌, map, reverse, append-nil, append_assoc, reverse-append, reverse-reverse, arith, ltb,
  leb, ◌==◌, if◌then◌else◌, ltb→lt, lt→ltb, leb→le, ==_iff, tests, Bool-cases, Option-cases,
  and_iff, length, take, drop, replicate, all, any, keep, is_empty, is_empty_iff, length-append,
  length-take, length-drop, length-keep-le, take-append-drop, take-append, drop-append, All,
  All-append, All-left, All-right, All-reverse, All-unreverse, All-map, all_iff, Result, ok, err,
  ok_or, map_err, Result-cases, bound, ok-injective, unguarded,
}
use wg_kotlin.Base.Int.{ℤ, is_zero}
use wg_kotlin.Base.Eff.{Eff, ◌>>=◌, ◌>>◌, pure, lift, map_fail}
use wg_kotlin.Frame.{IoError}

-- The messages, by the text around the values that they show.
pub data OwnerError : Type 0 where
  invalid_pid missing_uid missing_real_uid bad_number invalid_stat missing_start_time : OwnerError
  time_mismatch exited unidentified invalid_uids : OwnerError
  io pidfd_failed signals_failed : IoError → OwnerError

-- `anyhow::ensure!`
abbrev pub ensure : Bool → OwnerError → Result OwnerError (Unit {0})
ensure c e = if c then ok tt else err e

pub ensured : (c : Bool) (e : OwnerError) → ensure c e ≡ ok tt → c ≡ true
ensured true e h = refl
ensured false e h = cc

abbrev pub i32_max : ℕ
i32_max = 2 ^ 31 - 1

-- `setreuid`, where the second argument is the effective user, and the users of the process.
pub record Credentials (W : Type 0) : Type 0 where
  pub setreuid : ℕ → ℕ → W → ℤ × W
  pub last_os_error : W → IoError
  pub getuid : W → ℕ
  pub geteuid : W → ℕ

module _ {W : Type 0} (credentials : Credentials W) where
  unfoldable pub allow_owner_signals : ℕ → Eff W OwnerError (Unit {0})
  allow_owner_signals owner_uid w =
      let (returned, w') = credentials.setreuid owner_uid 0 w in
      if not (is_zero returned)
      then (err (signals_failed (credentials.last_os_error w')), w')
      else (
        ensure (credentials.getuid w' == owner_uid && credentials.geteuid w' == 0) invalid_uids,
        w',
      )
