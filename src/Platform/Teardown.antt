-- ===== src/Platform/Teardown.antt =====
-- What a session's clean-up leaves, whether it is run at the end or after a failed setup.
use wg_kotlin.Base.{
  ◌≡◌, refl, ap, subst, ◌≢◌, Option, none, some, List, [], ◌∷◌, map, reverse, All, All-unreverse,
  All-map, Result, ok, err, map_err,
}
use wg_kotlin.Base.Eff.{Eff, map_fail}
use wg_kotlin.Validation.{dns_or_default}
use wg_kotlin.Validation.Dns.{IsDns}
use wg_kotlin.Platform.Commands.{normalize_domains}
use wg_kotlin.Platform.Arguments.{ips_to_args_lem}
use wg_kotlin.Frame.{IoError}
use wg_kotlin.Text.{Str}
use wg_kotlin.Protocol.{TunSessionConfig}
use wg_kotlin.Platform.Host.{Host, RouteApi, PlatformError, plain, cleanup_failed}
use wg_kotlin.Platform.Routes.{filtered_routes, build_and_filter_routes}
use wg_kotlin.Platform.Cleanup.{
  reported, capture, conclude, managed, delete_each, cleanup_routes, into_cleanup_hook, CleanupHook,
}
use wg_kotlin.Platform.Linux.{revert_dns, configure_session, setup}

-- `Gone w r`: the system holds no such route; `Reverted w`: it holds none of the session's DNS
-- settings. A deletion or a teardown that succeeds sees to it, and no other step of a clean-up
-- brings back what is gone.
pub record Clears {W R E : Type 0} (host : Host W R E) (teardown : Eff W PlatformError (Unit {0}))
    (Gone : W → R → Type 0) (GoneEndpoint : W → E → Type 0) (Reverted : W → Type 0) : Type 0 where
  pub delete_gone : (r : R) (w w' : W) → host.delete r w ≡ (ok tt, w') → Gone w' r
  pub delete_keeps : (r s : R) (w : W) → Gone w s → Gone (host.delete r w).1 s
  pub endpoint_gone :
      (e : E) (w w' : W) → host.delete_endpoint e w ≡ (ok tt, w') → GoneEndpoint w' e
  pub endpoint_keeps :
      (e f : E) (w : W) → GoneEndpoint w f → GoneEndpoint (host.delete_endpoint e w).1 f
  pub endpoint_keeps_routes :
      (e : E) (s : R) (w : W) → Gone w s → Gone (host.delete_endpoint e w).1 s
  pub teardown_reverts : (w w' : W) → teardown w ≡ (ok tt, w') → Reverted w'
  pub teardown_keeps_routes : (s : R) (w : W) → Gone w s → Gone (teardown w).1 s
  pub teardown_keeps_endpoints : (f : E) (w : W) → GoneEndpoint w f → GoneEndpoint (teardown w).1 f

module _ {W R E : Type 0} (host : Host W R E) (teardown : Eff W PlatformError (Unit {0}))
    (Gone : W → R → Type 0) (GoneEndpoint : W → E → Type 0) (Reverted : W → Type 0)
    (laws : Clears host teardown Gone GoneEndpoint Reverted) where
  -- Nothing of the session is left.
  abbrev pub Cleared : List R → List E → W → Type 0
  Cleared filtered endpoints w = All (Gone w) filtered × All (GoneEndpoint w) endpoints × Reverted w

  captured_none :
      (error : Option PlatformError) (r : Result PlatformError (Unit {0}))
      → capture error r ≡ none
      → (error ≡ none) × (r ≡ ok tt)
  captured_none none (ok u) h = (refl, refl)
  captured_none (some e) (ok u) h = cc
  captured_none none (err x) h = cc
  captured_none (some e) (err x) h = cc

  plain_ok : (r : Result IoError (Unit {0})) → map_err plain r ≡ ok tt → r ≡ ok tt
  plain_ok (ok u) h = refl
  plain_ok (err e) h = cc

  -- What a single deletion keeps, the loop keeps.
  each_keeps :
      {A : Type 0} (delete : A → Eff W IoError (Unit {0})) (Q : W → Type 0)
      → ((a : A) (w : W) → Q w → Q (delete a w).1)
      → (error : Option PlatformError) (items : List A) (w : W) → Q w
      → Q (delete_each delete error items w).1
  unfolding delete_each
  each_keeps delete Q keeps error [] w h = h
  each_keeps delete Q keeps error (item ∷ items) w h =
      each_keeps delete Q keeps (capture error (map_err plain (delete item w).0)) items
        (delete item w).1 (keeps item w h)

  -- If the loop adds no error, all its items are gone, and there was no error before.
  each_clears :
      {A : Type 0} (delete : A → Eff W IoError (Unit {0})) (P : W → A → Type 0)
      → ((a : A) (w w' : W) → delete a w ≡ (ok tt, w') → P w' a)
      → ((a b : A) (w : W) → P w b → P (delete a w).1 b)
      → (error : Option PlatformError) (items : List A) (w : W)
      → (delete_each delete error items w).0 ≡ none
      → (error ≡ none) × All (P (delete_each delete error items w).1) items
  unfolding delete_each
  each_clears delete P gone keeps error [] w h = (h, tt)
  each_clears delete P gone keeps error (item ∷ items) w h =
      let (r, w₁) = delete item w in
      let error₁ : Option PlatformError = capture error (map_err plain r) in
      let (none_left, rest) = each_clears delete P gone keeps error₁ items w₁ h in
      let (none_before, fine) = captured_none error (map_err plain r) none_left in
      let deleted : delete item w ≡ (ok tt, w₁) =
        ap {B = Result IoError (Unit {0}) × W} (λ x. (x, w₁)) (plain_ok r fine) in
      (
        none_before,
        (
          each_keeps delete (λ u. P u item) (λ a u. keeps a item u) error₁ items w₁
              (gone item w w₁ deleted),
          rest,
        ),
      )

  concluded_none : (error : Option PlatformError) → conclude error ≡ ok tt → error ≡ none
  concluded_none none h = refl
  concluded_none (some e) h = cc

  managed_clears :
      (filtered : List R) (p : Result PlatformError (Unit {0}) × W)
      → (managed host filtered p).0 ≡ none
      → All (Gone (managed host filtered p).1) filtered
  managed_clears filtered (ok u, w) h =
      let (_, gone) =
        each_clears host.delete Gone laws.delete_gone laws.delete_keeps none (reverse filtered) w
          h in
      All-unreverse (Gone (delete_each host.delete none (reverse filtered) w).1) filtered gone
  managed_clears filtered (err e, w) h = cc

  -- A clean-up that reports no error leaves nothing of the session.
  pub cleanup_routes-Cleared :
      (filtered : List R) (endpoints : List E) (w w' : W)
      → cleanup_routes host filtered endpoints teardown w ≡ (ok tt, w')
      → Cleared filtered endpoints w'
  unfolding cleanup_routes
  cleanup_routes-Cleared filtered endpoints w w' h =
      let (e₁, w₁) = managed host filtered (map_fail plain host.open_manager w) in
      let (e₂, w₂) = delete_each host.delete_endpoint e₁ (reverse endpoints) w₁ in
      let (r, w₃) = teardown w₂ in
      let (none₂, fine) =
        captured_none e₂ r (
          concluded_none (capture e₂ r)
            (ap (λ (p : Result PlatformError (Unit {0}) × W). p.0) h)) in
      let (none₁, endpoints_gone) =
        each_clears host.delete_endpoint GoneEndpoint laws.endpoint_gone laws.endpoint_keeps e₁
          (reverse endpoints) w₁ none₂ in
      let gone = managed_clears filtered (map_fail plain host.open_manager w) none₁ in
      let at_end : w₃ ≡ w' = ap (λ (p : Result PlatformError (Unit {0}) × W). p.1) h in
      let reverted : teardown w₂ ≡ (ok tt, w₃) =
        ap {B = Result PlatformError (Unit {0}) × W} (λ x. (x, w₃)) fine in
      subst (Cleared filtered endpoints) at_end (
        All-map (Gone w₁) (Gone w₃)
            (λ s g. laws.teardown_keeps_routes s w₂ (
              each_keeps host.delete_endpoint (λ u. Gone u s)
                (λ a u. laws.endpoint_keeps_routes a s u) e₁ (reverse endpoints) w₁ g))
            filtered gone,
        All-map (GoneEndpoint w₂) (GoneEndpoint w₃) (λ f g. laws.teardown_keeps_endpoints f w₂ g)
            endpoints (All-unreverse (GoneEndpoint w₂) endpoints endpoints_gone),
        laws.teardown_reverts w₂ w₃ reverted,
      )

  -- After a failed setup nothing of the session is left, unless the clean-up failed too; and if the
  -- setup succeeded, nothing is left once the hook has run without an error.
  abbrev pub Settled : List R → List E → Result PlatformError (CleanupHook W) × W → Type 0
  Settled filtered endpoints (ok hook, w) =
      (u u' : W) → hook u ≡ (ok tt, u') → Cleared filtered endpoints u'
  Settled filtered endpoints (err e, w) =
      ((setup cleanup : PlatformError) → e ≢ cleanup_failed setup cleanup)
      → Cleared filtered endpoints w

  pub into_cleanup_hook-Settled :
      (result : Result PlatformError (Unit {0})) (filtered : List R) (endpoints : List E) (w : W)
      → Settled filtered endpoints (into_cleanup_hook host result filtered endpoints teardown w)
  unfolding into_cleanup_hook
  into_cleanup_hook-Settled (ok u) filtered endpoints w =
      λ v v' h. cleanup_routes-Cleared filtered endpoints v v' h
  into_cleanup_hook-Settled (err setup) filtered endpoints w =
      go (cleanup_routes host filtered endpoints teardown w) refl
    where
      go :
          (p : Result PlatformError (Unit {0}) × W)
          → cleanup_routes host filtered endpoints teardown w ≡ p
          → Settled filtered endpoints (err (reported host setup p.0), p.1)
      go (ok u, w') e = λ _. cleanup_routes-Cleared filtered endpoints w w' e
      go (err c, w') e = λ other. absurd (other setup c refl)

-- On Linux.
module _ {W R E : Type 0} (host : Host W R E) (api : RouteApi R) (name : Str)
    (Gone : W → R → Type 0) (GoneEndpoint : W → E → Type 0) (Reverted : W → Type 0)
    (laws : Clears host (revert_dns host api name) Gone GoneEndpoint Reverted) where
  -- A deletion and a DNS teardown that succeed remove what they name, and no other step of a clean-up
  -- brings it back. Then with DNS settings that the validator accepts: if the route manager opens, the session's routes,
  -- endpoint routes and DNS settings are all gone after a setup that fails, unless the error reports
  -- a failed clean-up, and after the hook of one that succeeds has run without an error.
  pub configure_session-Settled :
      (config : TunSessionConfig) (endpoint_routes : List E) (w w₁ : W)
      → IsDns (dns_or_default config.dns)
      → host.open_manager w ≡ (ok tt, w₁)
      → Settled host
          (revert_dns host api name)
          Gone
          GoneEndpoint
          Reverted
          laws
          (filtered_routes api config name)
          endpoint_routes
          (configure_session host api config name endpoint_routes w)
  unfolding configure_session build_and_filter_routes
  configure_session-Settled config endpoint_routes w w₁ dns opened =
      let (servers, shown, _, _) =
        ips_to_args_lem host.display_ip (dns_or_default config.dns).servers dns.servers in
      let domains =
        map (λ (domain : Str). b'~' ∷ domain)
          (normalize_domains (dns_or_default config.dns).search_domains) in
      let (result, w₂) =
        setup host api name (filtered_routes api config name) endpoint_routes servers domains w₁ in
      rw (opened, shown)
        (into_cleanup_hook-Settled host (revert_dns host api name) Gone GoneEndpoint Reverted laws
          result (filtered_routes api config name) endpoint_routes w₂)
