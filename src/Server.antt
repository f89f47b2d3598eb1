-- ===== src/Server.antt =====
-- wg-kotlin-daemon-rust/daemon/src/server.rs: the admission of sessions, the loop that serves one,
-- and the report of its end.
pub mod Admission
pub mod Registry
pub mod Loop
pub mod Reports
pub mod Reading
pub mod Serving
pub mod Connection
use wg_kotlin.Base.{
  ℕ, zero, suc, ◌+◌, ◌-◌, ◌*◌, ◌/◌, ◌%◌, ◌^◌, ◌≤◌, ◌<◌, min, max, String, ◌≡◌, refl, sym, ap, ◌∙◌,
  subst, ◌≢◌, ◌↔◌, ◌⊎◌, inl, inr, Bool, true, false, not, ◌&&◌, ◌||◌, Option, none, some, List, [],
  ◌∷◌, ◌++◌, map, reverse, append-nil, append_assoc, reverse-append, reverse-reverse, arith, ltb,
  leb, ◌==◌, if◌then◌else◌, ltb→lt, lt→ltb, leb→le, ==_iff, tests, Bool-cases, Option-cases,
  and_iff, length, take, drop, replicate, all, any, keep, is_empty, is_empty_iff, length-append,
  length-take, length-keep-le, take-append-drop, take-append, drop-append, All, All-append,
  All-left, All-right, All-reverse, All-unreverse, All-map, all_iff, Result, ok, err, ok_or,
  map_err, Result-cases,
}
use wg_kotlin.Base.Eff.{Eff, ◌>>=◌, ◌>>◌, pure, fail, lift}
use wg_kotlin.Text.{Str, codes, trim_start_matches, str_eq}
use wg_kotlin.Protocol.{TunSessionConfig}
use wg_kotlin.Frame.{IoError}
use wg_kotlin.Validation.{Os, linux, macos, windows, Rejection, validate_config}
use wg_kotlin.Platform.Host.{PlatformError}
use wg_kotlin.Platform.Commands.{contains}
use wg_kotlin.Session.{StartError}

pub data Code : Type 0 where
  invalid_argument failed_precondition resource_exhausted unavailable internal : Code

-- The message texts, by the values that they show.
pub data Reason : Type 0 where
  stopping not_config payload_missing config_twice shutdown_inside session_limit bad_frame : Reason
  rejected : Rejection → Reason
  already_active : Str → Reason
  reading writing : IoError → Reason
  closing : PlatformError → Reason
  start_failed : StartError → Reason

pub record Status : Type 0 where
  pub code : Code
  pub message : Reason

abbrev pub status : Code → Reason → Status
status code reason = record { code = code; message = reason }

-- `client_message::Payload`
pub data ClientPayload : Type 0 where
  config_message : TunSessionConfig → ClientPayload
  outgoing_packet : List ℕ → ClientPayload
  shutdown : Bool → ClientPayload

-- `server_message::Payload`
pub data ServerPayload : Type 0 where
  started : Str → ServerPayload
  incoming_packet : List ℕ → ServerPayload
  error : Code → Reason → ServerPayload

abbrev pub max_packet_frame_size : ℕ
max_packet_frame_size = 65535

abbrev pub max_active_sessions : ℕ
max_active_sessions = 16

abbrev pub packet_channel_capacity : ℕ
packet_channel_capacity = 64

abbrev pub extract_config : Option ClientPayload → Result Status TunSessionConfig
extract_config (some (config_message config)) = ok config
extract_config (some (outgoing_packet packet)) = err (status invalid_argument not_config)
extract_config (some (shutdown b)) = err (status invalid_argument not_config)
extract_config none = err (status invalid_argument payload_missing)

abbrev pub error_message : Status → ServerPayload
error_message s = error s.code s.message

-- `incoming.recv().await.transpose()?.ok_or_else(…)?`
abbrev pub received :
    Option (Result Status (Option ClientPayload)) → Result Status (Option ClientPayload)
received none = err (status invalid_argument not_config)
received (some message) = message

-- On macOS an index loses its leading zeros, as in the device's own name.
abbrev pub canonical : Os → Str → Str
canonical macos interface_name =
    let index = trim_start_matches b'0' (drop 4 interface_name) in
    codes "utun" ++ (if is_empty index then codes "0" else index)
canonical linux interface_name = interface_name
canonical windows interface_name = interface_name

abbrev pub normalized : Os → TunSessionConfig → TunSessionConfig
normalized os config = record {
  interface_name = canonical os config.interface_name;
  mtu = config.mtu;
  addresses = config.addresses;
  peer_allowed_ips = config.peer_allowed_ips;
  peer_endpoints = config.peer_endpoints;
  dns = config.dns;
}

-- The block that holds the lock on the set, and the two refusals that follow it.
unfoldable pub reserve : Str → Eff (List Str) Status (Unit {0})
reserve interface_name sessions =
    if contains sessions interface_name
    then (err (status failed_precondition (already_active interface_name)), sessions)
    else if leb max_active_sessions (length sessions)
    then (err (status resource_exhausted session_limit), sessions)
    else (ok tt, interface_name ∷ sessions)

-- What `session` does before it spawns the task, to which it hands this configuration. The state is
-- the set `active_sessions`, without duplicates.
unfoldable pub session :
    Os
    → (shutting_down : Bool) → Option (Result Status (Option ClientPayload))
    → Eff (List Str) Status TunSessionConfig
session os shutting_down first = if shutting_down then fail (status unavailable stopping) else (do
  first_message ← lift (received first)
  config ← lift (extract_config first_message)
  lift (map_err (λ r. status invalid_argument (rejected r)) (validate_config os config))
  reserve (canonical os config.interface_name)
  pure (normalized os config))

-- `active_sessions.remove(&interface_name)`
unfoldable pub remove : Str → List Str → List Str
remove interface_name sessions = keep (λ s. not (str_eq s interface_name)) sessions

-- What the reader's task reports when it ends; `dropped` if it ends without a report.
pub data ReadDone : Type 0 where
  failed : IoError → ReadDone
  finished dropped : ReadDone

-- One wake-up of the loop's `select!`: which of its futures are ready, and with what.
pub record Poll : Type 0 where
  pub stopped : Bool
  pub disconnected : Bool
  pub read_done : Option ReadDone
  pub incoming : Option (Option (Result Status (Option ClientPayload)))

-- How the loop goes on: it returns, or handles a message.
pub data Next : Type 0 where
  returns : Result Status (Unit {0}) → Next
  message : Option ClientPayload → Next

abbrev next_incoming : Option (Option (Result Status (Option ClientPayload))) → Option Next
next_incoming none = none
next_incoming (some none) = some (returns (ok tt))
next_incoming (some (some (err s))) = some (returns (err s))
next_incoming (some (some (ok payload))) = some (message payload)

abbrev next_read : Option ReadDone → Option Next → Option Next
next_read none other = other
next_read (some (failed e)) other = some (returns (err (status internal (reading e))))
next_read (some finished) other = some (returns (ok tt))
next_read (some dropped) other = some (returns (ok tt))

-- `biased`: the first branch that is ready wins; `none` if none is.
unfoldable pub select : Poll → Option Next
select poll =
    if poll.stopped || poll.disconnected
    then some (returns (ok tt))
    else next_read poll.read_done (next_incoming poll.incoming)

abbrev pub is_sendable : List ℕ → Bool
is_sendable packet = not (ltb max_packet_frame_size (length packet) || is_empty packet)

module _ {W : Type 0} (write_packet : List ℕ → Eff W IoError (Unit {0})) where
  abbrev pub Run : Type 0
  Run = W → Option (Result Status (Unit {0})) × W

  abbrev wrote : Result IoError (Unit {0}) × W → Run → Option (Result Status (Unit {0})) × W
  wrote (ok u, w) rest = rest w
  wrote (err e, w) rest = (some (err (status internal (writing e))), w)

  abbrev handle : Option Next → Run → Run
  handle none rest w = rest w
  handle (some (returns result)) rest w = (some result, w)
  handle (some (message none)) rest w = rest w
  handle (some (message (some (outgoing_packet packet)))) rest w =
      if is_sendable packet then wrote (write_packet packet w) rest else rest w
  handle (some (message (some (config_message config)))) rest w =
      (some (err (status invalid_argument config_twice)), w)
  handle (some (message (some (shutdown b)))) rest w =
      (some (err (status invalid_argument shutdown_inside)), w)

  -- The loop that writes the client's packets, over its wake-ups; `none` while it has not returned.
  unfoldable pub run_session_loop : List Poll → Run
  unfolding select
  run_session_loop [] w = (none, w)
  run_session_loop (poll ∷ polls) w = handle (select poll) (run_session_loop polls) w

-- A bounded channel of responses; `closed` when its receiver is dropped.
pub record Channel : Type 0 where
  pub queue : List ServerPayload
  pub closed : Bool

unfoldable pub try_send : ServerPayload → Channel → Channel
try_send payload tx =
    if tx.closed || leb packet_channel_capacity (length tx.queue)
    then tx
    else record { queue = tx.queue ++ payload ∷ []; closed = tx.closed }

abbrev pub report_write : Result Status (Unit {0}) → Channel → Channel
report_write (ok u) tx = tx
report_write (err s) tx = try_send (error_message s) tx

abbrev pub report_close : Result PlatformError (Unit {0}) → Channel → Channel
report_close (ok u) tx = tx
report_close (err e) tx = try_send (error_message (status internal (closing e))) tx

-- The end of `run_session_loop`: the errors are reported without waiting, and the name is released.
unfoldable pub finish :
    Str
    → Result Status (Unit {0})
    → Result PlatformError (Unit {0})
    → Channel
    → List Str
    → Channel × List Str
unfolding try_send remove
finish interface_name write_result close_result tx sessions =
    (report_close close_result (report_write write_result tx), remove interface_name sessions)
