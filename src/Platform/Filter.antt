-- ===== src/Platform/Filter.antt =====
-- Which routes a session installs.
use wg_kotlin.Base.{
  ℕ, ◌≡◌, refl, ap, ◌↔◌, ◌⊎◌, inl, inr, true, false, Option, none, some, List, [], ◌∷◌, map, arith,
  Bool-cases, any, keep, All,
}
use wg_kotlin.Text.{Str}
use wg_kotlin.Protocol.{
  Cidr, IpAddr, TunSessionConfig, parse_proto_cidr, parse_proto_cidr-Reads, Reads, IsCidr,
  host_prefix,
}
use wg_kotlin.Platform.Host.{RouteApi, RouteLaws}
use wg_kotlin.Platform.Routes.{
  ip_eq, octets_eq, endpoint_ips, u8_try_from, route_of, cons_route, tunnel_routes, is_kept,
  filtered_routes,
}

pub octets_eq_iff : (a b : List ℕ) → (octets_eq a b ≡ true) ↔ (a ≡ b)
octets_eq_iff [] [] = (λ _. refl, λ _. refl)
octets_eq_iff [] (b ∷ bs) = (λ e. cc, λ e. cc)
octets_eq_iff (a ∷ xs) [] = (λ e. cc, λ e. cc)
octets_eq_iff (a ∷ xs) (b ∷ bs) =
    (λ e. ground (arith, (octets_eq_iff xs bs).0), λ e. ground (arith, (octets_eq_iff xs bs).1))

ip_eq_iff : (a b : IpAddr) → (ip_eq a b ≡ true) ↔ (a ≡ b)
ip_eq_iff (IpAddr.v4 a) (IpAddr.v4 b) =
    (λ e. ap IpAddr.v4 ((octets_eq_iff a b).0 e), λ e. ground (arith, (octets_eq_iff a b).1))
ip_eq_iff (IpAddr.v6 a) (IpAddr.v6 b) =
    (λ e. ap IpAddr.v6 ((octets_eq_iff a b).0 e), λ e. ground (arith, (octets_eq_iff a b).1))
ip_eq_iff (IpAddr.v4 a) (IpAddr.v6 b) = (λ e. cc, λ e. cc)
ip_eq_iff (IpAddr.v6 a) (IpAddr.v4 b) = (λ e. cc, λ e. cc)

-- One of the addresses.
abbrev pub Among : IpAddr → List IpAddr → Type 0
Among ip [] = ⊥
Among ip (x ∷ xs) = (x ≡ ip) ⊎ Among ip xs

any_iff : (ip : IpAddr) (xs : List IpAddr) → (any (λ x. ip_eq x ip) xs ≡ true) ↔ Among ip xs
any_iff ip [] = (λ e. cc, λ h. absurd h)
any_iff ip (x ∷ xs) = (
  λ e. ground (arith, (ip_eq_iff x ip).0, (any_iff ip xs).0),
  λ h. ground (arith, (ip_eq_iff x ip).1, (any_iff ip xs).1),
)

-- The networks that parse, in order.
abbrev cons_network : Option (IpAddr × ℕ) → List (IpAddr × ℕ) → List (IpAddr × ℕ)
cons_network none ns = ns
cons_network (some n) ns = n ∷ ns

abbrev pub networks : List Cidr → List (IpAddr × ℕ)
networks [] = []
networks (addr ∷ values) = cons_network (parse_proto_cidr addr) (networks values)

-- The network is an endpoint alone.
abbrev pub IsEndpoint : List IpAddr → IpAddr × ℕ → Type 0
IsEndpoint endpoints (ip, n) = (n ≡ host_prefix ip) × Among ip endpoints

-- `Passes P ns kept`: `kept` is what remains of `ns` when the entries with `P` are left out.
pub data Passes {A : Type 0} (P : A → Type 0) : List A → List A → Type 0 where
  done : Passes P [] []
  kept : {x : A} {xs ys : List A} → ¬ P x → Passes P xs ys → Passes P (x ∷ xs) (x ∷ ys)
  dropped : {x : A} {xs ys : List A} → P x → Passes P xs ys → Passes P (x ∷ xs) ys

module _ {R : Type 0} (api : RouteApi R) (laws : RouteLaws api) (name : Str) where
  abbrev pub route : IpAddr × ℕ → R
  route (ip, n) = api.with_if_name name (api.new ip n)

  is_kept_route :
      (endpoints : List IpAddr) (ip : IpAddr) (n : ℕ)
      → (is_kept api endpoints (route (ip, n)) ≡ false) ↔ IsEndpoint endpoints (ip, n)
  unfolding is_kept
  is_kept_route endpoints ip n =
      rw (laws.destination-new ip n name, laws.prefix-new ip n name)
        (
          λ e. ground (arith, (any_iff ip endpoints).0),
          λ h. ground (arith, (any_iff ip endpoints).1 h.1),
        )

  tunnel_routes-networks :
      (values : List Cidr)
      → All IsCidr values
      → tunnel_routes api name values ≡ map route (networks values)
  unfolding tunnel_routes
  tunnel_routes-networks [] h = refl
  tunnel_routes-networks (addr ∷ values) h =
      go (parse_proto_cidr addr) (parse_proto_cidr-Reads addr) (tunnel_routes-networks values h.1)
    where
      go :
          (o : Option (IpAddr × ℕ))
          → Reads o (IsCidr addr)
          → tunnel_routes api name values ≡ map route (networks values)
          → cons_route api (route_of api name o) (tunnel_routes api name values)
            ≡ map route (cons_network o (networks values))
      go none bad ih = absurd (bad h.0)
      go (some (ip, n)) fits ih =
          let le = fits.1 h.0 in
          let small : u8_try_from n ≡ some n = ground arith in ground (arith, small, ih)

  -- For routes that the validator accepts, the session installs one route to each network, in
  -- order and on the session's interface, but for those that are an endpoint alone; no other route.
  pub filtered_routes_lem :
      (config : TunSessionConfig)
      → All IsCidr config.peer_allowed_ips
      → (kept_networks : List (IpAddr × ℕ)) × Passes
          (IsEndpoint (endpoint_ips config.peer_endpoints))
          (networks config.peer_allowed_ips)
          kept_networks
        × (filtered_routes api config name ≡ map route kept_networks)
  unfolding filtered_routes
  filtered_routes_lem config h =
      rw (tunnel_routes-networks config.peer_allowed_ips h) (go (networks config.peer_allowed_ips))
    where
      endpoints : List IpAddr
      endpoints = endpoint_ips config.peer_endpoints

      go :
          (ns : List (IpAddr × ℕ))
          → (ks : List (IpAddr × ℕ)) × Passes (IsEndpoint endpoints) ns ks
            × (keep (is_kept api endpoints) (map route ns) ≡ map route ks)
      go [] = ([], done, refl)
      go ((ip, n) ∷ ns) =
          let (ks, p, e) = go ns in
          elim (Bool-cases (is_kept api endpoints (route (ip, n)))) [
            | inl good ↦ (
              (ip, n) ∷ ks,
              kept (λ bad. ground (arith, (is_kept_route endpoints ip n).1 bad)) p,
              rw good (ap (◌∷◌ (route (ip, n))) e),
            )
            | inr bad ↦ (ks, dropped ((is_kept_route endpoints ip n).0 bad) p, rw bad e)
          ]
