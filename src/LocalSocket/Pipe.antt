-- ===== src/LocalSocket/Pipe.antt =====
-- wg-kotlin-daemon-rust/daemon/src/ipc/windows.rs
pub mod Held
use wg_kotlin.Base.{
  ℕ, zero, suc, ◌+◌, ◌-◌, ◌*◌, ◌/◌, ◌%◌, ◌^◌, ◌≤◌, ◌<◌, min, max, String, ◌≡◌, refl, sym, ap, ◌∙◌,
  subst, ◌≢◌, ◌↔◌, ◌⊎◌, inl, inr, Bool, true, false, not, ◌&&◌, ◌||◌, Option, none, some, List, [],
  ◌∷◌, ◌++◌, map, reverse, append-nil, append_assoc, reverse-append, reverse-reverse, arith, ltb,
  leb, ◌==◌, if◌then◌else◌, ltb→lt, lt→ltb, leb→le, ==_iff, tests, Bool-cases, Option-cases,
  and_iff, length, take, drop, replicate, all, any, keep, is_empty, is_empty_iff, length-append,
  length-take, length-drop, length-keep-le, take-append-drop, take-append, drop-append, All,
  All-append, All-left, All-right, All-reverse, All-unreverse, All-map, all_iff, Result, ok, err,
  ok_or, map_err, Result-cases, bound, ok-injective, unguarded,
}
use wg_kotlin.Base.Eff.{Eff}
use wg_kotlin.Text.{Str, codes, strip_prefix}
use wg_kotlin.Frame.{IoError}

-- The system calls, with pipe servers `P` and security descriptors `X`. `drop_pipe` ends a server.
pub record PipeApi (W P X : Type 0) : Type 0 where
  pub descriptor : Str → Eff W IoError X
  pub create_server : (endpoint : Str) (first : Bool) → X → Eff W IoError P
  pub free : X → W → W
  pub connect : P → Eff W IoError (Unit {0})
  pub drop_pipe : P → W → W
  pub raw_os_error : IoError → Option ℕ
  pub client_process : P → Eff W IoError ℕ
  pub invalid_endpoint : IoError

pub record PipeListener (P : Type 0) : Type 0 where
  pub endpoint : Str
  pub sid : Str
  pub pending : P

-- Full access for the system and for administrators, reading and writing for the owner, and writing
-- from medium integrity on.
abbrev pub sddl : Str → Str
sddl sid = codes "D:P(A;;GA;;;SY)(A;;GA;;;BA)(A;;GRGW;;;" ++ (sid ++ codes ")S:(ML;;NW;;;ME)")

abbrev pub pipe_prefix : Str
pipe_prefix = codes "\\\\.\\pipe\\wg-kotlin-"

-- The errors of a client that went away before it was accepted.
abbrev pub is_gone : Option ℕ → Bool
is_gone none = false
is_gone (some code) = code == 109 || code == 232 || code == 233

module _ {W P X : Type 0} (system : PipeApi W P X) where
  abbrev pub created_with : Str → Bool → Result IoError X × W → Result IoError P × W
  created_with endpoint first (err e, w) = (err e, w)
  created_with endpoint first (ok x, w) =
      let (r, w') = system.create_server endpoint first x w in (r, system.free x w')

  unfoldable pub create : (endpoint sid : Str) → Bool → Eff W IoError P
  create endpoint sid first w = created_with endpoint first (system.descriptor (sddl sid) w)

  abbrev listening : Str → Str → Result IoError P × W → Result IoError (PipeListener P) × W
  listening endpoint sid (err e, w) = (err e, w)
  listening endpoint sid (ok p, w) =
      (ok (record { endpoint = endpoint; sid = sid; pending = p }), w)

  abbrev checked : Str → Str → Option Str → Eff W IoError (PipeListener P)
  checked endpoint sid none w = (err system.invalid_endpoint, w)
  checked endpoint sid (some rest) w = listening endpoint sid (create endpoint sid true w)

  unfoldable pub bind : (endpoint sid : Str) → Eff W IoError (PipeListener P)
  unfolding create
  bind endpoint sid w = checked endpoint sid (strip_prefix pipe_prefix endpoint) w

  abbrev pub with_pending : PipeListener P → P → PipeListener P
  with_pending l p = record l { pending = p }

  -- An outcome, none while it waits, with the listener, which is changed in place, and the state.
  abbrev pub Accepting : Type 0
  Accepting = Option (Result IoError (P × ℕ)) × PipeListener P × W

  abbrev pub known : Result IoError ℕ → ℕ
  known (err e) = 0
  known (ok pid) = pid

  abbrev pub handed_out : PipeListener P → Result IoError P × W → Accepting
  handed_out l (err e, w) = (some (err e), l, w)
  handed_out l (ok next, w) =
      let (pid, w') = system.client_process l.pending w in
      (some (ok (l.pending, known pid)), with_pending l next, w')

  abbrev pub retried :
      PipeListener P → (PipeListener P → W → Accepting) → Result IoError P × W → Accepting
  retried l again (err e, w) = (some (err e), l, w)
  retried l again (ok p, w) = again (with_pending l p) (system.drop_pipe l.pending w)

  abbrev pub connected :
      PipeListener P → (PipeListener P → W → Accepting) → Result IoError (Unit {0}) × W → Accepting
  connected l again (ok u, w) = handed_out l (create l.endpoint l.sid false w)
  connected l again (err e, w) =
      if is_gone (system.raw_os_error e)
      then retried l again (create l.endpoint l.sid false w)
      else (some (err e), l, w)

  -- On fuel: the number of waits for a connection.
  unfoldable pub accept : ℕ → PipeListener P → W → Accepting
  accept zero l w = (none, l, w)
  accept (suc fuel) l w = connected l (accept fuel) (system.connect l.pending w)
