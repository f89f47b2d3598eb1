-- ===== src/EndpointWindows/Attributes.antt =====
-- wg-kotlin-daemon-rust/daemon/src/platform/endpoint_windows.rs: the attributes of an endpoint's
-- route.
use wg_kotlin.Base.{
  ℕ, ◌≡◌, refl, ap, ◌∙◌, subst, Option, none, some, if◌then◌else◌, Result, ok, ok-injective,
}
use wg_kotlin.Base.Eff.{continued}
use wg_kotlin.Text.{Str}
use wg_kotlin.Protocol.{IpAddr, is_ipv4}
use wg_kotlin.Frame.{IoError}
use wg_kotlin.EndpointWindows.{RouteBuilder, Manager, set, from_route, found_route, lookup}

-- A route as its attributes.
pub record Attributes : Type 0 where
  pub destination : IpAddr
  pub prefix : ℕ
  pub gateway : Option IpAddr
  pub if_name : Option Str
  pub if_index : Option ℕ
  pub metric : Option ℕ
  pub luid : Option ℕ

abbrev pub attributes : {R : Type 0} → RouteBuilder R → R → Attributes
attributes api r = record {
  destination = api.destination r;
  prefix = api.prefix r;
  gateway = api.gateway r;
  if_name = api.if_name r;
  if_index = api.if_index r;
  metric = api.metric r;
  luid = api.luid r;
}

-- A new route has a destination and no attribute, and a builder method sets the attribute of its name.
pub record BuilderLaws {R : Type 0} (api : RouteBuilder R) : Type 0 where
  pub new_route :
      (ip : IpAddr) (n : ℕ)
      → attributes api (api.new ip n) ≡ record {
        destination = ip;
        prefix = n;
        gateway = none;
        if_name = none;
        if_index = none;
        metric = none;
        luid = none;
      }
  pub sets_gateway :
      (v : IpAddr) (r : R)
      → attributes api (api.with_gateway v r) ≡ record (attributes api r) { gateway = some v }
  pub sets_if_name :
      (v : Str) (r : R)
      → attributes api (api.with_if_name v r) ≡ record (attributes api r) { if_name = some v }
  pub sets_if_index :
      (v : ℕ) (r : R)
      → attributes api (api.with_if_index v r) ≡ record (attributes api r) { if_index = some v }
  pub sets_metric :
      (v : ℕ) (r : R)
      → attributes api (api.with_metric v r) ≡ record (attributes api r) { metric = some v }
  pub sets_luid :
      (v : ℕ) (r : R)
      → attributes api (api.with_luid v r) ≡ record (attributes api r) { luid = some v }

abbrev of : IpAddr → ℕ → Option IpAddr → Option Str → Option ℕ → Option ℕ → Option ℕ → Attributes
of ip n gateway name index metric luid = record {
  destination = ip;
  prefix = n;
  gateway = gateway;
  if_name = name;
  if_index = index;
  metric = metric;
  luid = luid;
}

-- The methods on attributes.
abbrev to_gateway : IpAddr → Attributes → Attributes
to_gateway v a = record a { gateway = some v }

abbrev to_if_name : Str → Attributes → Attributes
to_if_name v a = record a { if_name = some v }

abbrev to_if_index : ℕ → Attributes → Attributes
to_if_index v a = record a { if_index = some v }

abbrev to_metric : ℕ → Attributes → Attributes
to_metric v a = record a { metric = some v }

abbrev to_luid : ℕ → Attributes → Attributes
to_luid v a = record a { luid = some v }

module _ (ip : IpAddr) (n : ℕ) where
  gateway_set :
      (o : Option IpAddr)
      → set to_gateway o (of ip n none none none none none) ≡ of ip n o none none none none
  gateway_set none = refl
  gateway_set (some v) = refl

  if_name_set :
      (g : Option IpAddr) (o : Option Str)
      → set to_if_name o (of ip n g none none none none) ≡ of ip n g o none none none
  if_name_set g none = refl
  if_name_set g (some v) = refl

  if_index_set :
      (g : Option IpAddr) (s : Option Str) (o : Option ℕ)
      → set to_if_index o (of ip n g s none none none) ≡ of ip n g s o none none
  if_index_set g s none = refl
  if_index_set g s (some v) = refl

  metric_set :
      (g : Option IpAddr) (s : Option Str) (i o : Option ℕ)
      → set to_metric o (of ip n g s i none none) ≡ of ip n g s i o none
  metric_set g s i none = refl
  metric_set g s i (some v) = refl

  luid_set :
      (g : Option IpAddr) (s : Option Str) (i m o : Option ℕ)
      → set to_luid o (of ip n g s i m none) ≡ of ip n g s i m o
  luid_set g s i m none = refl
  luid_set g s i m (some v) = refl

-- A method that acts on the attributes acts on them if there is a value.
attributes-set :
    {A R : Type 0} (api : RouteBuilder R) (with : A → R → R) (to : A → Attributes → Attributes)
    → ((v : A) (r : R) → attributes api (with v r) ≡ to v (attributes api r))
    → (o : Option A) (r : R) (a : Attributes) → attributes api r ≡ a
    → attributes api (set with o r) ≡ set to o a
attributes-set api with to law none r a e = e
attributes-set api with to law (some v) r a e = law v r ∙ ap (to v) e

module _ {R : Type 0} (api : RouteBuilder R) (laws : BuilderLaws api) where
  -- By what a route's builder methods do: the route to an endpoint has the endpoint as its destination,
  -- with all of its bits, and the gateway, the interface by its name and its index, the metric and the LUID of
  -- the route that was found, each if that one has it.
  pub attributes-from_route :
      (ip : IpAddr) (found : R)
      → attributes api (from_route api ip found) ≡ record (attributes api found) {
        destination = ip;
        prefix = if is_ipv4 ip then 32 else 128;
      }
  unfolding from_route
  attributes-from_route ip found =
      let n = if is_ipv4 ip then 32 else 128 in
      let g = api.gateway found in
      let s = api.if_name found in
      let i = api.if_index found in
      let m = api.metric found in
      let l = api.luid found in
      let r₁ = set api.with_gateway g (api.new ip n) in
      let r₂ = set api.with_if_name s r₁ in
      let r₃ = set api.with_if_index i r₂ in
      let r₄ = set api.with_metric m r₃ in
      let e₁ =
        attributes-set api api.with_gateway to_gateway laws.sets_gateway g (api.new ip n)
          (of ip n none none none none none) (laws.new_route ip n)
        ∙ gateway_set ip n g in
      let e₂ =
        attributes-set api api.with_if_name to_if_name laws.sets_if_name s r₁
          (of ip n g none none none none) e₁
        ∙ if_name_set ip n g s in
      let e₃ =
        attributes-set api api.with_if_index to_if_index laws.sets_if_index i r₂
          (of ip n g s none none none) e₂
        ∙ if_index_set ip n g s i in
      let e₄ =
        attributes-set api api.with_metric to_metric laws.sets_metric m r₃ (of ip n g s i none none)
          e₃
        ∙ metric_set ip n g s i m in
      attributes-set api api.with_luid to_luid laws.sets_luid l r₄ (of ip n g s i m none) e₄
      ∙ luid_set ip n g s i m l

module _ {W M R : Type 0} (api : RouteBuilder R) (manager : Manager W M R)
    (laws : BuilderLaws api) where
  found-route :
      (o : Option R) (w w' : W) (r : R) → found_route api manager o w ≡ (ok r, w') → o ≡ some r
  found-route none w w' r h = cc
  found-route (some x) w w' r h = cc

  -- By what a route's builder methods do: a lookup that succeeds gives, for a route that the manager
  -- found, one to the endpoint alone with the same gateway, interface name and index, metric and
  -- LUID.
  pub lookup-attributes :
      (ip : IpAddr) (route : R) (w w' : W)
      → lookup api manager ip w ≡ (ok route, w')
      → (m : M) × (found : R) × (w₁ w₂ : W) × (manager.new w ≡ (ok m, w₁))
        × (manager.find_route m ip w₁ ≡ (ok (some found), w₂))
        × (attributes api route ≡ record (attributes api found) {
          destination = ip;
          prefix = if is_ipv4 ip then 32 else 128;
        })
  unfolding lookup
  lookup-attributes ip route w w' run =
      let (m, w₁, opened, run₁) = continued (manager.new w) run in
      let (o, w₂, searched, run₂) = continued (manager.find_route m ip w₁) run₁ in
      let (found, w₃, one, run₃) = continued (found_route api manager o w₂) run₂ in
      let same : from_route api ip found ≡ route =
        ok-injective (ap (λ (p : Result IoError R × W). p.0) run₃) in
      (
        m,
        found,
        w₁,
        w₂,
        opened,
        searched
            ∙ ap {B = Result IoError (Option R) × W} (λ x. (ok x, w₂))
                (found-route o w₂ w₃ found one),
        subst
            (λ r. attributes api r ≡ record (attributes api found) {
              destination = ip;
              prefix = if is_ipv4 ip then 32 else 128;
            })
            same (attributes-from_route api laws ip found),
      )
