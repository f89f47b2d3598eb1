-- ===== src/Owner/Linux.antt =====
-- wg-kotlin-daemon-rust/daemon/src/owner.rs on Linux: `OwnerProcess`, whose handle is a pidfd.
use wg_kotlin.Base.{ℕ, Bool, not, ◌∷◌, ◌++◌, leb, ◌==◌}
use wg_kotlin.Base.Int.{ℤ, is_zero}
use wg_kotlin.Base.Eff.{Eff, ◌>>=◌, ◌>>◌, pure, lift, map_fail}
use wg_kotlin.Text.{Str, codes}
use wg_kotlin.Text.Decimal.{decimal}
use wg_kotlin.Frame.{IoError}
use wg_kotlin.Owner.{
  OwnerError, invalid_pid, pidfd_failed, io, time_mismatch, exited, ensure, i32_max,
}
use wg_kotlin.Owner.Proc.{real_uid, start_ticks}

-- The system calls, with handles `H`. `poll` is asked about `POLLIN` and does not wait.
pub record ProcessApi (W H : Type 0) : Type 0 where
  pub pidfd_open : ℕ → Eff W IoError H
  pub read_to_string : Str → Eff W IoError Str
  pub poll : H → W → ℤ × W

pub record OwnerProcess (H : Type 0) : Type 0 where
  pub pid : ℕ
  pub uid : ℕ
  pub process : H

abbrev pub held : {H : Type 0} → (pid uid : ℕ) → H → OwnerProcess H
held pid uid process = record { pid = pid; uid = uid; process = process }

-- `/proc/{pid}/{name}`
abbrev pub proc_path : ℕ → Str → Str
proc_path pid name = codes "/proc/" ++ (decimal pid ++ b'/' ∷ name)

module _ {W H : Type 0} (system : ProcessApi W H) where
  unfoldable pub is_alive : OwnerProcess H → W → Bool × W
  is_alive owner w = let (ready, w') = system.poll owner.process w in (is_zero ready, w')

  unfoldable pub ensure_alive : OwnerProcess H → Eff W OwnerError (Unit {0})
  unfolding is_alive
  ensure_alive owner w = let (alive, w') = is_alive owner w in (ensure alive exited, w')

  -- The part that runs once the process is held by its handle.
  unfoldable pub identify : ℕ → ℕ → H → Eff W OwnerError (OwnerProcess H)
  unfolding ensure_alive
  identify pid start_time process = do
    status ← map_fail io (system.read_to_string (proc_path pid (codes "status")))
    uid ← lift (real_uid status)
    stat ← map_fail io (system.read_to_string (proc_path pid (codes "stat")))
    ticks ← lift (start_ticks stat)
    lift (ensure (ticks == start_time) time_mismatch)
    ensure_alive (held pid uid process)
    pure (held pid uid process)

  unfoldable pub open_owner : ℕ → ℕ → Eff W OwnerError (OwnerProcess H)
  unfolding identify
  open_owner pid start_time = do
    lift (ensure (not (pid == 0)) invalid_pid)
    lift (ensure (leb pid i32_max) invalid_pid)
    process ← map_fail pidfd_failed (system.pidfd_open pid)
    identify pid start_time process
