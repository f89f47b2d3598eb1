-- ===== src/Session/Closing.antt =====
-- The end of a session.
use wg_kotlin.Base.{
  ◌≡◌, refl, sym, ap, subst, ◌≢◌, inl, inr, false, some, List, arith, Bool-cases, Result, ok, err,
  map_err,
}
use wg_kotlin.Base.Eff.{Eff, continue, map_fail, lift}
use wg_kotlin.Text.{Str}
use wg_kotlin.Protocol.{TunSessionConfig}
use wg_kotlin.Validation.{dns_or_default, validate_interface_name, linux}
use wg_kotlin.Validation.Dns.{IsDns}
use wg_kotlin.Platform.Host.{Host, RouteApi, PlatformError}
use wg_kotlin.Platform.Routes.{filtered_routes, resolve_endpoint_routes}
use wg_kotlin.Platform.Cleanup.{CleanupHook}
use wg_kotlin.Platform.Linux.{configure_session, revert_dns}
use wg_kotlin.Platform.Teardown.{Clears, Cleared, Settled, configure_session-Settled}
use wg_kotlin.Platform.Routes.{build_and_filter_routes}
use wg_kotlin.Frame.{IoError}
use wg_kotlin.Session.{
  TunSession, Tun, StartError, start, close, interrupted, configured, name_or, unwrapped,
  builder_calls, rejected, routes_unresolved, creating, non_blocking, interrupt,
}

value_or : {E A : Type 0} → A → Result E A → A
value_or other (ok a) = a
value_or other (err e) = other

succeeded :
    {E A S : Type 0} {a b : A} {s s' : S} → ◌≡◌ {A = Result E A × S} (ok a, s) (ok b, s') → a ≡ b
unfolding value_or
succeeded {E} {A} {S} {a} h = ap (λ (p : Result E A × S). value_or a p.0) h

-- A chain that succeeds takes apart into its first step and the rest.
after :
    {S F A B C : Type 0} (p : Result F A × S) (f : A → Eff S F B) {b : B} {s' : S}
    → continue p f ≡ (ok b, s')
    → ((a : A) (s : S) → p ≡ (ok a, s) → f a s ≡ (ok b, s') → C)
    → C
after (ok a, s) f h use_steps = use_steps a s refl h
after (err e, s) f h use_steps = cc

module _ {W R E D : Type 0} (host : Host W R E) (api : RouteApi R) (tun : Tun W D) where
  -- Closing twice is closing once: the second call succeeds, and changes neither the session nor the
  -- system.
  pub close-close :
      (session : TunSession W D) (w u : W)
      → let closed = (close host api tun session w).1 in
        close host api tun closed u ≡ (ok tt, closed, u)
  unfolding close
  close-close session w u = elim (Bool-cases session.closed) [
    | inl ended ↦ rw ended refl
    | inr unclosed ↦ rw unclosed refl
  ]

module _ {W R E D : Type 0} (host : Host W R E) (api : RouteApi R) (tun : Tun W D)
    (Gone : W → R → Type 0) (GoneEndpoint : W → E → Type 0) (Reverted : Str → W → Type 0)
    (laws : (name : Str)
      → Clears host (revert_dns host api name) Gone GoneEndpoint (Reverted name)) where
  unopened :
      (config : TunSessionConfig) (name : Str) (endpoints : List E) (hook : CleanupHook W)
      (w w' : W) (f : IoError) (w₁ : W)
      → host.open_manager w ≡ (err f, w₁)
      → configure_session host api config name endpoints w ≢ (ok hook, w')
  unfolding configure_session build_and_filter_routes
  unopened config name endpoints hook w w' f w₁ o e = ground (arith, e, o)

  configure_session_hook :
      (config : TunSessionConfig) (name : Str) (endpoints : List E) (hook : CleanupHook W)
      (w w' u u' : W)
      → IsDns (dns_or_default config.dns)
      → configure_session host api config name endpoints w ≡ (ok hook, w')
      → hook u ≡ (ok tt, u')
      → Cleared host
          (revert_dns host api name)
          Gone
          GoneEndpoint
          (Reverted name)
          (laws name)
          (filtered_routes api config name)
          endpoints
          u'
  configure_session_hook config name endpoints hook w w' u u' dns e h =
      go (host.open_manager w) refl
    where
      go :
          (p : Result IoError (Unit {0}) × W)
          → host.open_manager w ≡ p
          → Cleared host
              (revert_dns host api name)
              Gone
              GoneEndpoint
              (Reverted name)
              (laws name)
              (filtered_routes api config name)
              endpoints
              u'
      go (ok opened, w₁) o =
          let settled =
            configure_session-Settled host api name Gone GoneEndpoint (Reverted name) (laws name)
              config endpoints w w₁ dns o in
          subst
            (Settled host (revert_dns host api name) Gone GoneEndpoint (Reverted name) (laws name)
              (filtered_routes api config name) endpoints)
            e settled u u' h
      go (err f, w₁) o = absurd (unopened config name endpoints hook w w' f w₁ o e)

  uninterrupted :
      (device : D) (p : Result PlatformError (CleanupHook W) × W) (hook : CleanupHook W) (v : W)
      → interrupted host api tun device p ≡ (ok hook, v)
      → p ≡ (ok hook, v)
  uninterrupted device (ok other, w) hook v h =
      let same = succeeded h in
      let there : w ≡ v = ap (λ (q : Result StartError (CleanupHook W) × W). q.1) h in
      rw (same, there) refl
  uninterrupted device (err e, w) hook v h = cc

  unchanged :
      {A : Type 0} {r r' : Result StartError A} {v v' : W}
      → ◌≡◌ {A = Result StartError A × W} (r, v) (r', v')
      → v ≡ v'
  unchanged {A} h = ap (λ (p : Result StartError A × W). p.1) h

  unmapped :
      (p : Result PlatformError (List E) × W) (endpoints : List E) (v : W)
      → map_fail routes_unresolved (λ _. p) v ≡ (ok endpoints, v)
      → p ≡ (ok endpoints, v)
  unmapped (ok other, w) endpoints v h =
      let same = succeeded h in let there : w ≡ v = unchanged h in rw (same, there) refl
  unmapped (err e, w) endpoints v h = cc

  start-steps :
      (config : TunSessionConfig) (session : TunSession W D) (w w' : W)
      → start host api tun config w ≡ (ok session, w')
      → (endpoints : List E) × (hook : CleanupHook W) × (v v' : W) × (configure_session host api
            config session.interface_name endpoints v
          ≡ (ok hook, v'))
        × (session.closed ≡ false)
        × (session.cleanup_hook ≡ some hook)
        × ((v₂ : W) × (resolve_endpoint_routes host config w ≡ (ok endpoints, v₂)))
  unfolding start
  start-steps config session w w' h =
      after (lift (map_err rejected (validate_interface_name linux config.interface_name)) w) _ h
        λ _ w₁ e₁ h₁.
          after (map_fail routes_unresolved (resolve_endpoint_routes host config) w₁) _ h₁
            λ endpoints w₂ e₂ h₂. after (unwrapped (builder_calls config) w₂) _ h₂ λ calls w₃ _ h₃.
              after (map_fail creating (tun.build_sync calls) w₃) _ h₃ λ device w₄ _ h₄.
                after (map_fail non_blocking (tun.set_nonblocking device) w₄) _ h₄ λ _ w₅ _ h₅.
                  let name = name_or config.interface_name (tun.device_name device w₅) in
                  after (map_fail interrupt tun.new_interrupt w₅) _ h₅ λ _ w₇ _ h₇.
                    after (configured host api tun config name endpoints device w₇) _ h₇
                      λ hook w₈ e h₈.
                        let same = succeeded h₈ in
                        (
                          endpoints,
                          hook,
                          w₇,
                          w₈,
                          subst
                              (λ (s : TunSession W D).
                                configure_session host api config s.interface_name endpoints w₇
                                ≡ (ok hook, w₈))
                              same
                              (uninterrupted device
                                (configure_session host api config name endpoints w₇) hook w₈ e),
                          sym (ap (λ (s : TunSession W D). s.closed) same),
                          sym (ap (λ (s : TunSession W D). s.cleanup_hook) same),
                          (
                            w₂,
                            subst
                                (λ (u : W).
                                  resolve_endpoint_routes host config u ≡ (ok endpoints, w₂))
                                (sym (unchanged e₁))
                                (unmapped (resolve_endpoint_routes host config w₁) endpoints w₂ e₂),
                          ),
                        )

  -- A deletion and a DNS teardown that succeed remove what they name, and no other step of a clean-up
  -- brings it back. Then for a session that was started with DNS settings the validator accepts,
  -- closed in whatever state the system is by then: if the call reports no error, the routes of its
  -- configuration, the endpoint routes that were resolved for it and its DNS settings are all gone.
  pub close-start-Cleared :
      (config : TunSessionConfig) (session : TunSession W D) (w w' : W)
      → IsDns (dns_or_default config.dns)
      → start host api tun config w ≡ (ok session, w')
      → (endpoints : List E) × (v : W) × (resolve_endpoint_routes host config w ≡ (ok endpoints, v))
        × ((u u' : W) (closed : TunSession W D)
            → close host api tun session u ≡ (ok tt, closed, u')
            → Cleared host
                (revert_dns host api session.interface_name)
                Gone
                GoneEndpoint
                (Reverted session.interface_name)
                (laws session.interface_name)
                (filtered_routes api config session.interface_name)
                endpoints
                u')
  unfolding close
  close-start-Cleared config session w w' dns h =
      let (endpoints, hook, v, v', e, unclosed, hooked, (v₂, resolved)) =
        start-steps config session w w' h in
      (
        endpoints,
        v₂,
        resolved,
        λ u u' closed c.
            configure_session_hook config session.interface_name endpoints hook v v'
              (tun.trigger session.device u) u' dns e ground (arith, c, unclosed, hooked),
      )
