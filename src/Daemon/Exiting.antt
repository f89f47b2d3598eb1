-- ===== src/Daemon/Exiting.antt =====
-- wg-kotlin-daemon-rust/daemon/src/main.rs: with which code the daemon exits once its loop is left.
use wg_kotlin.Base.{
  ℕ, ◌≡◌, refl, sym, ap, ◌∙◌, ◌⊎◌, inl, inr, Bool, true, false, Option, none, some, List, [], ◌∷◌,
  ◌++◌, Bool-cases, Result, ok, err,
}
use wg_kotlin.Base.Eff.{Eff}
use wg_kotlin.Frame.{IoError}
use wg_kotlin.Platform.Host.{PlatformError}
use wg_kotlin.Platform.Commands.{required_binaries, ensure_required_binaries}
use wg_kotlin.Validation.{linux}
use wg_kotlin.Owner.Linux.{OwnerProcess}
use wg_kotlin.LocalSocket.Unix.{BindError, LocalListener, bind}
use wg_kotlin.Daemon.{Wake, accept_loop, EndsDaemon, or_left, accept_loop-EndsDaemon}
use wg_kotlin.Daemon.Draining.{Course, drains, Drained, drains_iff}
use wg_kotlin.Daemon.Start.{Cli, prepare_owner}
use wg_kotlin.Daemon.Run.{
  DaemonApi, shut_down, bound_run, checked_run, run, concluded, on_runtime, logging, main,
}

-- A call made twice from the same state ends in the same state, and does not fail once.
module _ {W F A : Type 0} (call : Eff W F A) {u u' : W} (same : u ≡ u') where
  next_state : {a b : A} {v v' : W} → call u ≡ (ok a, v) → call u' ≡ (ok b, v') → v ≡ v'
  next_state first second = ap (λ (p : Result F A × W). p.1) (sym first ∙ ap call same ∙ second)

  not_both : {e : F} {b : A} {v v' : W} → call u ≡ (err e, v) → call u' ≡ (ok b, v') → ⊥
  not_both {e = e} {b = b} {v = v} {v' = v'} first second =
      let clash : ◌≡◌ {A = Result F A × W} (err e, v) (ok b, v') =
        sym first ∙ ap call same ∙ second in
      cc

module _ {W H L G R E : Type 0} (api : DaemonApi W H L G R E) where
  -- A start of the daemon in which nothing fails: the states on the way to the bound endpoint.
  pub record Starts (cli : Cli) (owner : OwnerProcess H) (w : W) : Type 0 where
    pub g : G
    pub l : LocalListener L
    pub w₁ : W
    pub w₂ : W
    pub w₃ : W
    pub w₄ : W
    pub w₅ : W
    pub prepared : prepare_owner api.credentials api.processes cli w ≡ (ok owner, w₁)
    pub logs : api.new_logger cli.log_path w₁ ≡ (ok g, w₂)
    pub builds : api.build_runtime w₂ ≡ (ok tt, w₃)
    pub finds : ensure_required_binaries api.host (required_binaries linux) w₃ ≡ (ok tt, w₄)
    pub binds : bind api.sockets cli.endpoint owner.uid w₄ ≡ (ok l, w₅)

  -- How a daemon exits once its loop was left without an error: with success exactly if it drains.
  abbrev pub Exits : Course → Option Bool → Type 0
  Exits course code =
      ((code ≡ some true) × Drained course) ⊎ ((code ≡ some false) × ¬ Drained course)

  -- Either nothing failed up to the bound endpoint, and the daemon exits as it drains, or something did,
  -- and it exits with a failure.
  abbrev pub Concludes : Cli → OwnerProcess H → Course → W → Option Bool → Type 0
  Concludes cli owner course w code =
      (Starts cli owner w × Exits course code) ⊎ ((code ≡ some false) × ¬ Starts cli owner w)

  module _ (cli : Cli) (owner : OwnerProcess H) (course : Course) (w w₁ : W) (served : List ℕ)
      (prepared : prepare_owner api.credentials api.processes cli w ≡ (ok owner, w₁))
      (looped : accept_loop owner.pid course.wakes [] ≡ (some (ok tt), served)) where
    -- The states of any successful start are these.
    prepared_state : (s : Starts cli owner w) → w₁ ≡ s.w₁
    prepared_state s =
        next_state (prepare_owner api.credentials api.processes cli) refl prepared s.prepared

    logged_state :
        (g : G) (w₂ : W)
        → api.new_logger cli.log_path w₁ ≡ (ok g, w₂)
        → (s : Starts cli owner w) → w₂ ≡ s.w₂
    logged_state g w₂ logs s =
        next_state (api.new_logger cli.log_path) (prepared_state s) logs s.logs

    built_state :
        (g : G) (w₂ w₃ : W)
        → api.new_logger cli.log_path w₁ ≡ (ok g, w₂)
        → api.build_runtime w₂ ≡ (ok tt, w₃)
        → (s : Starts cli owner w) → w₃ ≡ s.w₃
    built_state g w₂ w₃ logs builds s =
        next_state api.build_runtime (logged_state g w₂ logs s) builds s.builds

    bound-Concludes :
        (g : G) (w₂ w₃ w₄ : W) (p : Result BindError (LocalListener L) × W)
        → api.new_logger cli.log_path w₁ ≡ (ok g, w₂)
        → api.build_runtime w₂ ≡ (ok tt, w₃)
        → ensure_required_binaries api.host (required_binaries linux) w₃ ≡ (ok tt, w₄)
        → bind api.sockets cli.endpoint owner.uid w₄ ≡ p
        → Concludes cli owner course w (concluded api g (bound_run api cli owner g course p)).0
    unfolding shut_down
    bound-Concludes g w₂ w₃ w₄ (err e, w₅) logs builds finds binds = inr (
      refl,
      λ s.
          not_both (bind api.sockets cli.endpoint owner.uid)
            (next_state (ensure_required_binaries api.host (required_binaries linux))
              (built_state g w₂ w₃ logs builds s) finds s.finds)
            binds s.binds,
    )
    bound-Concludes g w₂ w₃ w₄ (ok l, w₅) logs builds finds binds = inl (
      record {
        g = g;
        l = l;
        w₁ = w₁;
        w₂ = w₂;
        w₃ = w₃;
        w₄ = w₄;
        w₅ = w₅;
        prepared = prepared;
        logs = logs;
        builds = builds;
        finds = finds;
        binds = binds;
      },
      rw looped (elim (Bool-cases (drains course)) [
        | inl drained ↦ rw drained (inl (refl, (drains_iff course).0 drained))
        | inr late ↦ rw late (inr (refl, λ d. absurd (cc (sym late ∙ (drains_iff course).1 d))))
      ]),
    )

    checked-Concludes :
        (g : G) (w₂ w₃ : W) (p : Result PlatformError (Unit {0}) × W)
        → api.new_logger cli.log_path w₁ ≡ (ok g, w₂)
        → api.build_runtime w₂ ≡ (ok tt, w₃)
        → ensure_required_binaries api.host (required_binaries linux) w₃ ≡ p
        → Concludes cli owner course w (concluded api g (checked_run api cli owner g course p)).0
    checked-Concludes g w₂ w₃ (err e, w₄) logs builds finds = inr (
      refl,
      λ s.
          not_both (ensure_required_binaries api.host (required_binaries linux))
            (built_state g w₂ w₃ logs builds s) finds s.finds,
    )
    checked-Concludes g w₂ w₃ (ok tt, w₄) logs builds finds =
        bound-Concludes g w₂ w₃ w₄ (bind api.sockets cli.endpoint owner.uid w₄) logs builds finds
          refl

    runtime-Concludes :
        (g : G) (w₂ : W) (p : Result IoError (Unit {0}) × W)
        → api.new_logger cli.log_path w₁ ≡ (ok g, w₂)
        → api.build_runtime w₂ ≡ p
        → Concludes cli owner course w (concluded api g (on_runtime api cli owner g course p)).0
    unfolding run
    runtime-Concludes g w₂ (err e, w₃) logs builds =
        inr (refl, λ s. not_both api.build_runtime (logged_state g w₂ logs s) builds s.builds)
    runtime-Concludes g w₂ (ok tt, w₃) logs builds =
        checked-Concludes g w₂ w₃ (ensure_required_binaries api.host (required_binaries linux) w₃)
          logs builds refl

    logging-Concludes :
        (p : Result IoError G × W)
        → api.new_logger cli.log_path w₁ ≡ p
        → Concludes cli owner course w (logging api cli (ok owner) course p).0
    logging-Concludes (err e, w₂) logs =
        inr (refl, λ s. not_both (api.new_logger cli.log_path) (prepared_state s) logs s.logs)
    logging-Concludes (ok g, w₂) logs = runtime-Concludes g w₂ (api.build_runtime w₂) logs refl

    main-Concludes : Concludes cli owner course w (main api cli course w).0
    unfolding main
    main-Concludes = rw prepared (logging-Concludes (api.new_logger cli.log_path w₁) refl)

  or_left_ok :
      (pid : ℕ) (p : Option (Result IoError (Unit {0})) × List ℕ)
      → p.0 ≡ none
      → or_left pid p ≡ (some (ok tt), p.1)
  or_left_ok pid (none, served) h = refl
  or_left_ok pid (some result, served) h = cc

  -- A daemon of which the owner was prepared, and the loop of which would still run when a signal or a
  -- request to shut down arrives, or when the monitor finds the owner gone, exits. If the log, the
  -- runtime, the required binaries and the endpoint are all there, it is with success if all connections
  -- end and, by a look at the sessions each 10 ms after the last of them, all sessions, within 4 s, and
  -- with a failure otherwise. If one of them fails, it is with a failure.
  pub main-EndsDaemon :
      (cli : Cli) (owner : OwnerProcess H) (course : Course) (before after : List Wake)
      (wake : Wake) (w w₁ : W)
      → prepare_owner api.credentials api.processes cli w ≡ (ok owner, w₁)
      → course.wakes ≡ before ++ wake ∷ after
      → (accept_loop owner.pid before []).0 ≡ none
      → EndsDaemon owner.pid wake.event wake.owner_alive
      → Concludes cli owner course w (main api cli course w).0
  main-EndsDaemon cli owner course before after wake w w₁ prepared shape still ends =
      let pid = owner.pid in
      main-Concludes cli owner course w w₁ (accept_loop pid before []).1 prepared (
        ap (λ wakes. accept_loop pid wakes []) shape
        ∙ accept_loop-EndsDaemon pid before after wake [] ends
        ∙ or_left_ok pid (accept_loop pid before []) still)
