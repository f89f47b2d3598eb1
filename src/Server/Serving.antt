-- ===== src/Server/Serving.antt =====
-- wg-kotlin-daemon-rust/daemon/src/server.rs: the task that `session` spawns, from the start of the
-- session to the release of its name.
use wg_kotlin.Base.{
  ◌≡◌, refl, sym, ap, ◌∙◌, subst, inl, inr, Bool, true, false, Option, none, some, List, [], ◌∷◌,
  ◌++◌, if◌then◌else◌, Bool-cases, Result, ok, err, map_err,
}
use wg_kotlin.Text.{Str}
use wg_kotlin.Protocol.{TunSessionConfig}
use wg_kotlin.Validation.{linux, validate_interface_name}
use wg_kotlin.Platform.Routes.{resolve_endpoint_routes}
use wg_kotlin.Platform.Host.{Host, RouteApi, PlatformError}
use wg_kotlin.Base.Eff.{continued, continued_lift, map_fail, map_fail_ok}
use wg_kotlin.Session.{
  Tun, TunSession, StartError, start, close, write_packet, BuilderCall, named, name_or, creating,
  builder_calls, address_calls, mtu_calls, assembled, unwrapped, rejected, routes_unresolved,
  non_blocking, interrupt, configured,
}
use wg_kotlin.Server.{
  Status, ServerPayload, Channel, Poll, started, try_send, remove, finish, run_session_loop,
  start_failed, failed_precondition, status, error_message,
}

-- What the task shares with the rest of the daemon.
pub record Shared (W : Type 0) : Type 0 where
  pub system : W
  pub active_sessions : List Str
  pub tx : Channel

-- How a task ended; the last has the session as it was left.
pub data Ending (S : Type 0) : Type 0 where
  cancelled not_started : Ending S
  closed : S → Ending S

-- `tx.send(message).await` on a channel that has room.
abbrev send : ServerPayload → Channel → Channel
send payload tx =
    if tx.closed then tx else record { queue = tx.queue ++ payload ∷ []; closed = tx.closed }

module _ {W R E D : Type 0} (host : Host W R E) (api : RouteApi R) (tun : Tun W D) where
  abbrev pub Task : Type 0
  Task = Option (Ending (TunSession W D)) × Shared W

  abbrev torn_down :
      Str
      → Result Status (Unit {0})
      → Result PlatformError (Unit {0}) × TunSession W D × W
      → Channel
      → List Str
      → Task
  torn_down interface_name result (close_result, session, w) tx active =
      let (tx', active') = finish interface_name result close_result tx active in
      (some (closed session), record { system = w; active_sessions = active'; tx = tx' })

  -- What follows the loop, once it has returned.
  abbrev looped : TunSession W D → Option (Result Status (Unit {0})) × W → Channel → List Str → Task
  looped session (none, w) tx active =
      (none, record { system = w; active_sessions = active; tx = tx })
  looped session (some result, w) tx active =
      torn_down session.interface_name result (close host api tun session w) tx active

  abbrev started_task :
      Str → List Poll → Result StartError (TunSession W D) × W → Channel → List Str → Task
  started_task interface_name polls (err e, w) tx active = (
    some not_started,
    record {
      system = w;
      active_sessions = remove interface_name active;
      tx = try_send (error_message (status failed_precondition (start_failed e))) tx;
    },
  )
  started_task interface_name polls (ok session, w) tx active =
      looped session (run_session_loop (write_packet host api tun session) polls w)
        (send (started session.interface_name) tx) active

  -- `stopped`: at its start the client is gone or the daemon is shutting down. `none` while the loop
  -- has not returned.
  unfoldable pub serve : (stopped : Bool) → TunSessionConfig → List Poll → Shared W → Task
  unfolding finish run_session_loop
  serve stopped config polls shared =
      if stopped
      then (
        some cancelled,
        record {
          system = shared.system;
          active_sessions = remove config.interface_name shared.active_sessions;
          tx = shared.tx;
        },
      )
      else started_task config.interface_name polls (start host api tun config shared.system)
          shared.tx shared.active_sessions

  -- The names that are active after, by how the task has ended, if it has.
  abbrev pub Left : Str → List Str → Task → Type 0
  Left name active (none, after) = after.active_sessions ≡ active
  Left name active (some cancelled, after) = after.active_sessions ≡ remove name active
  Left name active (some not_started, after) = after.active_sessions ≡ remove name active
  Left name active (some (closed session), after) =
      (after.active_sessions ≡ remove name active) × (session.closed ≡ true)

  close-closed :
      (session : TunSession W D) (w : W)
      → (((close host api tun session w).1).closed ≡ true)
        × (((close host api tun session w).1).interface_name ≡ session.interface_name)
  unfolding close
  close-closed session w = elim (Bool-cases session.closed) [
    | inl ended ↦ rw ended (refl, refl)
    | inr e ↦ rw e (refl, refl)
  ]

  -- A device that was built with a name has that name whenever it is asked, or gives none.
  abbrev pub KeepsName : Type 0
  KeepsName =
      (name : Str) (calls : List BuilderCall) (d : D) (w w' : W)
      → tun.build_sync (named name ∷ calls) w ≡ (ok d, w')
      → (v : W) → name_or name (tun.device_name d v) ≡ name

  builder_calls-named :
      (config : TunSessionConfig) (calls : List BuilderCall)
      → builder_calls config ≡ some calls
      → (rest : List BuilderCall) × (calls ≡ named config.interface_name ∷ rest)
  unfolding builder_calls
  builder_calls-named config calls h = go (address_calls config.addresses) h
    where
      go :
          (addresses : Option (List BuilderCall))
          → assembled config.interface_name addresses (mtu_calls config.mtu) ≡ some calls
          → (rest : List BuilderCall) × (calls ≡ named config.interface_name ∷ rest)
      go none h = cc
      go (some first) h = (first ++ mtu_calls config.mtu, cc)

  unwrapped_ok :
      {A : Type 0} (a : Option A) (w : W) {b : A} {w' : W} → unwrapped a w ≡ (ok b, w') → a ≡ some b
  unwrapped_ok none w h = cc
  unwrapped_ok (some a) w h = cc

  name_of : Str → Result StartError (TunSession W D) → Str
  name_of other (ok session) = session.interface_name
  name_of other (err e) = other

  -- A session that has started has the name of its configuration.
  start-interface_name :
      KeepsName
      → (config : TunSessionConfig) (session : TunSession W D) (w w' : W)
      → start host api tun config w ≡ (ok session, w')
      → session.interface_name ≡ config.interface_name
  unfolding start name_of
  start-interface_name keeps config session w w' h =
      let name = config.interface_name in
      let (_, _, h₁) =
        continued_lift (map_err rejected (validate_interface_name linux name)) w _ h in
      let (routes, w₁, _, h₂) =
        continued (map_fail routes_unresolved (resolve_endpoint_routes host config) w) h₁ in
      let (calls, w₂, unwraps, h₃) = continued (unwrapped (builder_calls config) w₁) h₂ in
      let (d, w₃, builds, h₄) = continued (map_fail creating (tun.build_sync calls) w₂) h₃ in
      let (_, w₄, _, h₅) = continued (map_fail non_blocking (tun.set_nonblocking d) w₃) h₄ in
      let (_, w₅, _, h₆) = continued (map_fail interrupt tun.new_interrupt w₄) h₅ in
      let current = name_or name (tun.device_name d w₄) in
      let (_, w₆, _, h₇) = continued (configured host api tun config current routes d w₅) h₆ in
      let (rest, shape) =
        builder_calls-named config calls (unwrapped_ok (builder_calls config) w₁ unwraps) in
      let built = map_fail_ok creating (tun.build_sync calls) w₂ builds in
      sym (ap (λ (p : Result StartError (TunSession W D) × W). name_of name p.0) h₇)
      ∙ keeps name rest d w₂ w₃ (subst (λ c. tun.build_sync c w₂ ≡ (ok d, w₃)) shape built) w₄

  looped-Left :
      (name : Str) (active : List Str) (session : TunSession W D)
      (out : Option (Result Status (Unit {0})) × W) (tx : Channel)
      → session.interface_name ≡ name
      → Left name active (looped session out tx active)
  unfolding finish
  looped-Left name active session (none, w) tx same = refl
  looped-Left name active session (some result, w) tx same =
      (ap (λ n. remove n active) same, (close-closed session w).0)

  started_task-Left :
      (name : Str) (polls : List Poll) (out : Result StartError (TunSession W D) × W) (tx : Channel)
      (active : List Str)
      → ((session : TunSession W D) (w : W) → out ≡ (ok session, w) → session.interface_name ≡ name)
      → Left name active (started_task name polls out tx active)
  unfolding finish run_session_loop
  started_task-Left name polls (err e, w) tx active same = refl
  started_task-Left name polls (ok session, w) tx active same =
      looped-Left name active session (run_session_loop (write_packet host api tun session) polls w)
        (send (started session.interface_name) tx) (same session w refl)

  -- If a device keeps the name that it was built with, every way in which the task ends releases the
  -- name that was reserved for it, and only it: cancelled before its start, after a start that failed,
  -- and after the loop, when the session is closed as well. While the loop runs the active sessions
  -- stay as they are.
  pub serve-Left :
      KeepsName
      → (stopped : Bool) (config : TunSessionConfig) (polls : List Poll) (shared : Shared W)
      → Left config.interface_name shared.active_sessions (serve stopped config polls shared)
  unfolding serve
  serve-Left keeps true config polls shared = refl
  serve-Left keeps false config polls shared =
      started_task-Left config.interface_name polls (start host api tun config shared.system)
        shared.tx shared.active_sessions
        (λ session w. start-interface_name keeps config session shared.system w)
