-- ===== src/Daemon/Run.antt =====
-- wg-kotlin-daemon-rust/daemon/src/main.rs: `run` around its loop, and `main`, on Linux.
use wg_kotlin.Base.{ℕ, Bool, true, false, Option, none, some, List, [], Result, ok, err, map_err}
use wg_kotlin.Base.Eff.{Eff}
use wg_kotlin.Text.{Str}
use wg_kotlin.Frame.{IoError}
use wg_kotlin.Platform.Host.{Host, PlatformError}
use wg_kotlin.Platform.Commands.{required_binaries, ensure_required_binaries}
use wg_kotlin.Validation.{linux}
use wg_kotlin.Owner.{Credentials}
use wg_kotlin.Owner.Linux.{ProcessApi, OwnerProcess}
use wg_kotlin.LocalSocket.Unix.{SocketApi, BindError, LocalListener, bind, drop_listener}
use wg_kotlin.Daemon.{accept_loop}
use wg_kotlin.Daemon.Draining.{Course, drains}
use wg_kotlin.Daemon.Start.{Cli, StartError, prepare_owner}

-- What ends a run: the messages by where they come from.
pub data RunError : Type 0 where
  start : StartError → RunError
  binaries : PlatformError → RunError
  binding : BindError → RunError
  listener : IoError → RunError
  runtime : IoError → RunError

-- The lines that are logged.
pub data LogMessage : Type 0 where
  daemon_started : (endpoint : Str) (owner_pid : ℕ) → LogMessage
  listener_failed : IoError → LogMessage
  daemon_stopped : (sessions_drained : Bool) → LogMessage
  cannot_open_log : IoError → LogMessage
  daemon_failed : RunError → LogMessage

-- What the daemon calls: the system, with pidfds `H`, sockets `L`, routes `R` and endpoint routes `E`,
-- the logger, with loggers `G`, and tokio's runtime and watch channel. `serving` is what the
-- connections of these processes do while the loop runs, and `draining` what the connections and
-- the sessions do while the daemon waits for them.
pub record DaemonApi (W H L G R E : Type 0) : Type 0 where
  pub credentials : Credentials W
  pub processes : ProcessApi W H
  pub host : Host W R E
  pub sockets : SocketApi W L
  pub new_logger : Option Str → Eff W IoError G
  pub log : G → LogMessage → W → W
  pub flush : G → W → W
  pub build_runtime : Eff W IoError (Unit {0})
  pub serving : List ℕ → W → W
  pub send_shutdown : W → W
  pub draining : W → W

-- Still running, returned, or left by `exit(1)`.
pub data Ending : Type 0 where
  running : Ending
  returned : Result RunError (Unit {0}) → Ending
  exited : Ending

module _ {W H L G R E : Type 0} (api : DaemonApi W H L G R E) where
  abbrev pub logged_failure : G → Result IoError (Unit {0}) → W → W
  logged_failure logger (ok u) w = w
  logged_failure logger (err e) w = api.log logger (listener_failed e) w

  abbrev pub unless_drained : G → Bool → Result IoError (Unit {0}) → W → Ending × W
  unless_drained logger true result w = (returned (map_err listener result), w)
  unless_drained logger false result w = (exited, api.flush logger w)

  -- From the end of the loop.
  unfoldable pub shut_down :
      G → LocalListener L → Course → Result IoError (Unit {0}) → W → Ending × W
  shut_down logger local course result w =
      let w₁ = api.send_shutdown w in
      let w₂ = drop_listener api.sockets local (logged_failure logger result w₁) in
      let w₃ = api.log logger (daemon_stopped (drains course)) (api.draining w₂) in
      unless_drained logger (drains course) result w₃

  abbrev pub left :
      G → LocalListener L → Course → Option (Result IoError (Unit {0})) × List ℕ → W → Ending × W
  left logger local course (none, served) w = (running, api.serving served w)
  left logger local course (some result, served) w =
      shut_down logger local course result (api.serving served w)

  abbrev pub bound_run :
      Cli → OwnerProcess H → G → Course → Result BindError (LocalListener L) × W → Ending × W
  bound_run cli owner logger course (err e, w) = (returned (err (binding e)), w)
  bound_run cli owner logger course (ok local, w) =
      left logger local course (accept_loop owner.pid course.wakes [])
        (api.log logger (daemon_started cli.endpoint owner.pid) w)

  abbrev pub checked_run :
      Cli → OwnerProcess H → G → Course → Result PlatformError (Unit {0}) × W → Ending × W
  checked_run cli owner logger course (err e, w) = (returned (err (binaries e)), w)
  checked_run cli owner logger course (ok u, w) =
      bound_run cli owner logger course (bind api.sockets cli.endpoint owner.uid w)

  unfoldable pub run : Cli → OwnerProcess H → G → Course → W → Ending × W
  run cli owner logger course w =
      checked_run cli owner logger course
        (ensure_required_binaries api.host (required_binaries linux) w)

  -- `ExitCode::SUCCESS`, `ExitCode::FAILURE`, or none yet.
  abbrev pub concluded : G → Ending × W → Option Bool × W
  concluded logger (running, w) = (none, w)
  concluded logger (exited, w) = (some false, w)
  concluded logger (returned (ok u), w) = (some true, api.flush logger w)
  concluded logger (returned (err e), w) =
      (some false, api.flush logger (api.log logger (daemon_failed e) w))

  abbrev pub on_runtime :
      Cli → OwnerProcess H → G → Course → Result IoError (Unit {0}) × W → Ending × W
  on_runtime cli owner logger course (err e, w) = (returned (err (runtime e)), w)
  on_runtime cli owner logger course (ok u, w) = run cli owner logger course w

  abbrev pub owned : Cli → Result StartError (OwnerProcess H) → G → Course → W → Ending × W
  owned cli (err e) logger course w = (returned (err (start e)), w)
  owned cli (ok owner) logger course w = on_runtime cli owner logger course (api.build_runtime w)

  abbrev pub complained : IoError → Result IoError G × W → W
  complained e (err f, w) = w
  complained e (ok logger, w) = api.flush logger (api.log logger (cannot_open_log e) w)

  abbrev pub logging :
      Cli → Result StartError (OwnerProcess H) → Course → Result IoError G × W → Option Bool × W
  logging cli owner course (err e, w) = (some false, complained e (api.new_logger none w))
  logging cli owner course (ok logger, w) = concluded logger (owned cli owner logger course w)

  unfoldable pub main : Cli → Course → W → Option Bool × W
  main cli course w =
      let (owner, w') = prepare_owner api.credentials api.processes cli w in
      logging cli owner course (api.new_logger cli.log_path w')
