-- ===== src/Tests/Servers.antt =====
-- Sessions of a daemon.
use wg_kotlin.Base.{
  ℕ, ◌≤◌, ◌≡◌, refl, Bool, true, false, none, some, List, [], ◌∷◌, length, All, Result, ok, err,
}
use wg_kotlin.Text.{Str, codes}
use wg_kotlin.Frame.{IoError}
use wg_kotlin.Validation.{linux}
use wg_kotlin.Server.{
  Status, status, internal, stopping, ClientPayload, config_message, outgoing_packet, session,
  Channel, ServerPayload, incoming_packet, Poll, is_sendable, run_session_loop, finish,
}
use wg_kotlin.Server.Registry.{
  Daemon, daemon, initializing, Reaches, Inv, Reaches-Inv, new, step, admitted,
}
use wg_kotlin.Server.Loop.{run_session_loop_keeps, run_session_loop-stopped, or_returns}
use wg_kotlin.Server.Reading.{Turn, stop}
use wg_kotlin.Frame.{interrupted}
use wg_kotlin.Server.Connection.{Writing}
use wg_kotlin.Server.Serving.{Shared, serve, Left, serve-Left}
use wg_kotlin.Daemon.{Wake, accepted, tick, accept_loop, Serves, accept_loop-Serves}
use wg_kotlin.Tests.Configs.{home, home-accepted}
use wg_kotlin.Platform.Commands.{contains}
use wg_kotlin.Tests.Systems.{host, api, tun}

abbrev one_task : Daemon
one_task = daemon (codes "utun7" ∷ []) (initializing (codes "utun7") ∷ [])

admits :
    session linux false (some (ok (some (config_message home)))) [] ≡ (ok home, codes "utun7" ∷ [])
unfolding session wg_kotlin.Server.reserve contains
admits = rw home-accepted refl

abbrev same_name : Str → Str
same_name name = name

Reaches-one : Reaches linux same_name one_task
Reaches-one =
    step new (
      admitted false (some (ok (some (config_message home)))) home [] (codes "utun7" ∷ []) []
        admits)

Reaches-Inv_example : Inv one_task
Reaches-Inv_example = Reaches-Inv linux same_name (λ n. refl) one_task Reaches-one

-- The device is the list of the packets written to it.
abbrev logged : List ℕ → List (List ℕ) → Result IoError (Unit {0}) × List (List ℕ)
logged packet w = (ok tt, packet ∷ w)

abbrev sends : Poll
sends = record {
  stopped = false;
  disconnected = false;
  read_done = none;
  incoming = some (some (ok (some (outgoing_packet (7 ∷ [])))));
}

abbrev stopped_poll : Poll
stopped_poll = record {
  stopped = true;
  disconnected = false;
  read_done = none;
  incoming = some (some (ok (some (outgoing_packet (8 ∷ [])))));
}

abbrev Sent : List (List ℕ) → Type 0
Sent w = All (λ packet. length packet ≤ 65535) w

run_session_loop_keeps_example : Sent (run_session_loop logged (sends ∷ sends ∷ []) []).1
run_session_loop_keeps_example =
    run_session_loop_keeps logged Sent (λ packet some_byte small w sent. (small, sent))
      (sends ∷ sends ∷ []) [] tt

run_session_loop-stopped_example :
    run_session_loop logged (sends ∷ stopped_poll ∷ sends ∷ []) []
    ≡ or_returns logged (run_session_loop logged (sends ∷ []) [])
run_session_loop-stopped_example =
    run_session_loop-stopped logged (sends ∷ []) (sends ∷ []) stopped_poll [] refl

abbrev both_failed : Result Status (Unit {0})
both_failed = err (status internal stopping)

abbrev channel : Channel
channel = record { queue = []; closed = false }

abbrev stopped_turn : Turn
stopped_turn = record { packet = ok (7 ∷ []); sending = stop }

abbrev shared : Shared Bool
shared = record { system = false; active_sessions = codes "utun7" ∷ []; tx = channel }

serve-Left_example :
    Left host api tun
      (codes "utun7")
      (codes "utun7" ∷ [])
      (serve host api tun false home (stopped_poll ∷ []) shared)
serve-Left_example =
    serve-Left host api tun (λ name calls d w w' built v. refl) false home (stopped_poll ∷ [])
      shared

abbrev wakes : List Wake
wakes =
    record { event = accepted 41; owner_alive = true }
    ∷ record { event = accepted 42; owner_alive = true }
    ∷ []

accept_loop-Serves_example :
    (pids : List ℕ) × Serves 42 wakes pids × ((accept_loop 42 wakes []).1 ≡ pids)
accept_loop-Serves_example = accept_loop-Serves 42 wakes []

abbrev orphaned : Wake
orphaned = record { event = tick; owner_alive = false }

abbrev refused_writing : Writing
refused_writing = record { stopped = false; result = err interrupted }
