-- ===== src/Daemon/Ending.antt =====
-- wg-kotlin-daemon-rust/daemon/src/main.rs: how the daemon ends.
use wg_kotlin.Base.{
  ℕ, ◌≡◌, refl, ap, ◌∙◌, subst, Bool, true, false, Option, none, some, List, [], Result, ok, err,
}
use wg_kotlin.Frame.{IoError}
use wg_kotlin.Platform.Host.{PlatformError}
use wg_kotlin.Platform.Commands.{required_binaries, ensure_required_binaries}
use wg_kotlin.Validation.{linux}
use wg_kotlin.Owner.Linux.{OwnerProcess}
use wg_kotlin.LocalSocket.Paths.{PathBuf}
use wg_kotlin.LocalSocket.Unix.{BindError, LocalListener, bind, drop_listener}
use wg_kotlin.Daemon.{accept_loop}
use wg_kotlin.Daemon.Draining.{Course, drains, Drained, drains_iff}
use wg_kotlin.Daemon.Start.{Cli, StartError, prepare_owner}
use wg_kotlin.Daemon.Run.{
  LogMessage, DaemonApi, Ending, running, returned, exited, unless_drained, shut_down, left,
  bound_run, checked_run, run, concluded, on_runtime, owned, logging, main, daemon_started,
  daemon_stopped, logged_failure, listener_failed,
}

-- Once the daemon sent that it shuts down every client was told, and no call takes it back.
pub record EndLaws {W H L G R E : Type 0} (api : DaemonApi W H L G R E) (Told : W → Type 0)
    : Type 0 where
  pub send_told : (w : W) → Told (api.send_shutdown w)
  pub log_told : (g : G) (m : LogMessage) (w : W) → Told w → Told (api.log g m w)
  pub flush_told : (g : G) (w : W) → Told w → Told (api.flush g w)
  pub draining_told : (w : W) → Told w → Told (api.draining w)
  pub remove_file_told : (p : PathBuf) (w : W) → Told w → Told (api.sockets.remove_file p w).1
  pub close_told : (l : L) (w : W) → Told w → Told (api.sockets.close l w)
  pub remove_dir_told : (d : PathBuf) (w : W) → Told w → Told (api.sockets.remove_dir d w).1

module _ {W H L G R E : Type 0} (api : DaemonApi W H L G R E) (Told : W → Type 0)
    (laws : EndLaws api Told) where
  failure_told :
      (g : G) (result : Result IoError (Unit {0})) (w : W)
      → Told w
      → Told (logged_failure api g result w)
  failure_told g (ok u) w h = h
  failure_told g (err e) w h = laws.log_told g (listener_failed e) w h

  drop_told : (l : LocalListener L) (w : W) → Told w → Told (drop_listener api.sockets l w)
  unfolding drop_listener
  drop_told l w h =
      let w₁ = (api.sockets.remove_file l.path w).1 in
      laws.remove_dir_told l.directory (api.sockets.close l.listener w₁)
        (laws.close_told l.listener w₁ (laws.remove_file_told l.path w h))

  unless_drained_told :
      (g : G) (drained : Bool) (result : Result IoError (Unit {0})) (w : W)
      → Told w
      → Told (unless_drained api g drained result w).1
  unless_drained_told g true result w h = h
  unless_drained_told g false result w h = laws.flush_told g w h

  shut_down_told :
      (g : G) (l : LocalListener L) (course : Course) (result : Result IoError (Unit {0})) (w : W)
      → Told (shut_down api g l course result w).1
  unfolding shut_down
  shut_down_told g l course result w =
      let w₁ = logged_failure api g result (api.send_shutdown w) in
      let w₂ = api.draining (drop_listener api.sockets l w₁) in
      unless_drained_told g (drains course) result (api.log g (daemon_stopped (drains course)) w₂) (
        laws.log_told g (daemon_stopped (drains course)) w₂ (
          laws.draining_told (drop_listener api.sockets l w₁)
            (drop_told l w₁ (failure_told g result (api.send_shutdown w) (laws.send_told w)))))

  unless_drained-success :
      (g : G) (drained : Bool) (result : Result IoError (Unit {0})) (w v : W)
      → unless_drained api g drained result w ≡ (returned (ok tt), v)
      → (drained ≡ true) × (result ≡ ok tt)
  unless_drained-success g true (ok u) w v h = (refl, refl)
  unless_drained-success g true (err e) w v h = cc
  unless_drained-success g false result w v h = cc

  -- What a run that returned without an error has been through.
  abbrev pub Completed : ℕ → Course → W → Type 0
  Completed pid course w =
      ((accept_loop pid course.wakes []).0 ≡ some (ok tt)) × Drained course × Told w

  left-Completed :
      (g : G) (l : LocalListener L) (pid : ℕ) (course : Course)
      (p : Option (Result IoError (Unit {0})) × List ℕ) (w v : W)
      → accept_loop pid course.wakes [] ≡ p
      → left api g l course p w ≡ (returned (ok tt), v)
      → Completed pid course v
  unfolding shut_down
  left-Completed g l pid course (none, served) w v looped h = cc
  left-Completed g l pid course (some result, served) w v looped h =
      let w₁ = api.serving served w in
      let w₂ = logged_failure api g result (api.send_shutdown w₁) in
      let (drained, fine) =
        unless_drained-success g (drains course) result
          (api.log g (daemon_stopped (drains course))
            (api.draining (drop_listener api.sockets l w₂)))
          v h in
      (
        ap (λ (p : Option (Result IoError (Unit {0})) × List ℕ). p.0) looped ∙ ap some fine,
        (drains_iff course).0 drained,
        subst Told (ap (λ (p : Ending × W). p.1) h) (shut_down_told g l course result w₁),
      )

  bound-Completed :
      (cli : Cli) (owner : OwnerProcess H) (g : G) (course : Course)
      (p : Result BindError (LocalListener L) × W) (v : W)
      → bound_run api cli owner g course p ≡ (returned (ok tt), v)
      → Completed owner.pid course v
  bound-Completed cli owner g course (err e, w) v h = cc
  bound-Completed cli owner g course (ok l, w) v h =
      left-Completed g l owner.pid course (accept_loop owner.pid course.wakes [])
        (api.log g (daemon_started cli.endpoint owner.pid) w) v refl h

  checked-Completed :
      (cli : Cli) (owner : OwnerProcess H) (g : G) (course : Course)
      (p : Result PlatformError (Unit {0}) × W) (v : W)
      → checked_run api cli owner g course p ≡ (returned (ok tt), v)
      → Completed owner.pid course v
  checked-Completed cli owner g course (err e, w) v h = cc
  checked-Completed cli owner g course (ok u, w) v h =
      bound-Completed cli owner g course (bind api.sockets cli.endpoint owner.uid w) v h

  runtime-Completed :
      (cli : Cli) (owner : OwnerProcess H) (g : G) (course : Course)
      (p : Result IoError (Unit {0}) × W) (v : W)
      → on_runtime api cli owner g course p ≡ (returned (ok tt), v)
      → Completed owner.pid course v
  unfolding run
  runtime-Completed cli owner g course (err e, w) v h = cc
  runtime-Completed cli owner g course (ok u, w) v h =
      checked-Completed cli owner g course
        (ensure_required_binaries api.host (required_binaries linux) w) v h

  -- An owner that was prepared, and a run that completed for it.
  abbrev pub Served : Result StartError (OwnerProcess H) → Course → W → Type 0
  Served owner course w = (o : OwnerProcess H) × (owner ≡ ok o) × Completed o.pid course w

  owned-Served :
      (cli : Cli) (owner : Result StartError (OwnerProcess H)) (g : G) (course : Course) (w v : W)
      → owned api cli owner g course w ≡ (returned (ok tt), v)
      → Served owner course v
  owned-Served cli (err e) g course w v h = cc
  owned-Served cli (ok o) g course w v h =
      (o, refl, runtime-Completed cli o g course (api.build_runtime w) v h)

  concluded-success :
      (g : G) (p : Ending × W) (v : W)
      → concluded api g p ≡ (some true, v)
      → (u : W) × (p ≡ (returned (ok tt), u)) × (api.flush g u ≡ v)
  concluded-success g (running, w) v h = cc
  concluded-success g (exited, w) v h = cc
  concluded-success g (returned (ok t), w) v h = (w, refl, cc)
  concluded-success g (returned (err e), w) v h = cc

  logging-Served :
      (cli : Cli) (owner : Result StartError (OwnerProcess H)) (course : Course)
      (p : Result IoError G × W) (v : W)
      → logging api cli owner course p ≡ (some true, v)
      → Served owner course v
  logging-Served cli owner course (err e, w) v h = cc
  logging-Served cli owner course (ok g, w) v h =
      let (u, run_ok, flushed) = concluded-success g (owned api cli owner g course w) v h in
      let (o, prepared, (looped, drained, told)) = owned-Served cli owner g course w u run_ok in
      (o, prepared, (looped, drained, subst Told flushed (laws.flush_told g u told)))

  -- If nothing takes back that the clients were told to stop, the daemon exits with success only if
  -- its owner was prepared, the loop was left without an error, every client was told to stop by then,
  -- and all connections ended and, by a look at the sessions each 10 ms after the last of them, all
  -- sessions, within 4 s.
  pub main-Served :
      (cli : Cli) (course : Course) (w w' : W)
      → main api cli course w ≡ (some true, w')
      → Served (prepare_owner api.credentials api.processes cli w).0 course w'
  unfolding main
  main-Served cli course w w' h =
      let (owner, w₁) = prepare_owner api.credentials api.processes cli w in
      logging-Served cli owner course (api.new_logger cli.log_path w₁) w' h
