-- ===== src/Tests/Daemons.antt =====
-- The daemon as a whole, and its endpoint.
use wg_kotlin.Base.{ℕ, ◌≡◌, refl, Bool, true, false, none, some, [], ◌∷◌, ok}
use wg_kotlin.Base.Int.{pos}
use wg_kotlin.Text.{codes}
use wg_kotlin.Frame.{interrupted}
use wg_kotlin.Protocol.{IpAddr}
use wg_kotlin.Text.{strip_prefix}
use wg_kotlin.Platform.Commands.{required_binaries, ensure_required_binaries}
use wg_kotlin.Owner.Linux.{held}
use wg_kotlin.Tests.Systems.{Route, host}
use wg_kotlin.Tests.Owners.{credentials, processes, cli, prepares}
use wg_kotlin.Daemon.{Wake, signalled, accepted, accept_loop, EndsDaemon}
use wg_kotlin.Daemon.Draining.{Course, drains, joined_all, wait_for_sessions}
use wg_kotlin.Daemon.Start.{prepare_owner}
use wg_kotlin.Daemon.Run.{DaemonApi, main, run, shut_down}
use wg_kotlin.Daemon.Ending.{EndLaws, Served, main-Served}
use wg_kotlin.Daemon.Exiting.{Concludes, main-EndsDaemon}
use wg_kotlin.LocalSocket.Paths.{PathBuf, path_from, parent, file_name, path_eq}
use wg_kotlin.LocalSocket.Unix.{
  SocketApi, LocalListener, bind, drop_listener, socket_directory, permit, give,
}
use wg_kotlin.LocalSocket.Settled.{Settled}

-- A system on which all calls succeed, of which the state is whether the clients were told.
abbrev calm : SocketApi Bool (Unit {0})
calm = record {
  create_dir = λ mode d w. (ok tt, w);
  remove_dir = λ d w. (ok tt, w);
  remove_file = λ p w. (ok tt, w);
  bind = λ p w. (ok tt, w);
  close = λ l w. w;
  set_permissions = λ p mode w. (ok tt, w);
  geteuid = λ w. 0;
  c_string = λ s. ok tt;
  chown = λ s uid gid w. (pos 0, w);
  last_os_error = λ w. interrupted;
}

abbrev daemon_api : DaemonApi Bool ℕ (Unit {0}) (Unit {0}) Route IpAddr
daemon_api = record {
  credentials = credentials;
  processes = processes;
  host = host;
  sockets = calm;
  new_logger = λ path w. (ok tt, w);
  log = λ logger message w. w;
  flush = λ logger w. w;
  build_runtime = λ w. (ok tt, w);
  serving = λ pids w. w;
  send_shutdown = λ w. true;
  draining = λ w. w;
}

abbrev IsTold : Bool → Type 0
IsTold w = w ≡ true

end_laws : EndLaws daemon_api IsTold
end_laws = record {
  send_told = λ w. refl;
  log_told = λ g m w h. h;
  flush_told = λ g w h. h;
  draining_told = λ w h. h;
  remove_file_told = λ p w h. h;
  close_told = λ l w h. h;
  remove_dir_told = λ d w h. h;
}

abbrev connected : Wake
connected = record { event = accepted 41; owner_alive = true }

abbrev interrupt : Wake
interrupt = record { event = signalled; owner_alive = true }

abbrev course : Course
course = record {
  wakes = connected ∷ interrupt ∷ connected ∷ [];
  connections_end = some 10 ∷ [];
  sessions_end = some 20 ∷ [];
}

abbrev bound : LocalListener (Unit {0})
bound = record {
  listener = tt;
  path = path_from (codes "/tmp/wg-kotlin-1/s");
  directory = record { absolute = true; components = codes "tmp" ∷ codes "wg-kotlin-1" ∷ [] };
}

binds : bind calm (codes "/tmp/wg-kotlin-1/s") 1000 false ≡ (ok bound, false)
unfolding bind socket_directory permit give path_from parent file_name path_eq strip_prefix
    wg_kotlin.LocalSocket.Paths.drop_last wg_kotlin.LocalSocket.Paths.last
    wg_kotlin.LocalSocket.Paths.components_eq wg_kotlin.Text.split wg_kotlin.Text.str_eq
binds = refl

still_runs : (accept_loop 41 (connected ∷ []) []).0 ≡ none
unfolding accept_loop wg_kotlin.Daemon.authorizes
still_runs = refl

main-EndsDaemon_example :
    Concludes daemon_api cli (held 41 1000 41) course false (main daemon_api cli course false).0
main-EndsDaemon_example =
    main-EndsDaemon daemon_api cli (held 41 1000 41) course (connected ∷ []) (connected ∷ [])
      interrupt false false (prepares false) refl still_runs tt

succeeds : main daemon_api cli course false ≡ (some true, true)
unfolding main run shut_down drains accept_loop wg_kotlin.Daemon.authorizes drop_listener
    ensure_required_binaries required_binaries joined_all wait_for_sessions
succeeds = rw (prepares false, binds) refl

main-Served_example :
    Served daemon_api IsTold end_laws (prepare_owner credentials processes cli false).0 course true
main-Served_example = main-Served daemon_api IsTold end_laws cli course false true succeeds

-- A system of which the state is whether it holds a socket, and a directory.
abbrev State : Type 0
State = Bool × Bool

abbrev fresh : State
fresh = (false, false)

abbrev sockets : SocketApi State (Unit {0})
sockets = record {
  create_dir = λ mode d w. (ok tt, (false, true));
  remove_dir = λ d w. (ok tt, (w.0, false));
  remove_file = λ p w. (ok tt, (false, w.1));
  bind = λ p w. (ok tt, (true, w.1));
  close = λ l w. w;
  set_permissions = λ p mode w. (ok tt, w);
  geteuid = λ w. 0;
  c_string = λ s. ok tt;
  chown = λ s uid gid w. (pos 0, w);
  last_os_error = λ w. interrupted;
}

abbrev NoSocket : State → PathBuf → Type 0
NoSocket w p = w.0 ≡ false

abbrev NoDirectory : State → PathBuf → Type 0
NoDirectory w d = w.1 ≡ false
