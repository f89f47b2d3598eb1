-- ===== src/Platform/Routes.antt =====
-- The routes of a session: `resolve_endpoint_routes`, `build_and_filter_routes` and
-- `add_routes_with_predelete`.
use wg_kotlin.Base.{
  ℕ, Bool, true, false, not, ◌&&◌, ◌||◌, Option, none, some, List, [], ◌∷◌, ltb, ◌==◌,
  if◌then◌else◌, any, keep, err,
}
use wg_kotlin.Base.Eff.{Eff, ◌>>=◌, ◌>>◌, pure, map_fail, ignore}
use wg_kotlin.Text.{Str}
use wg_kotlin.Protocol.{
  Ip, Cidr, IpAddr, TunSessionConfig, parse_proto_ip, parse_proto_cidr, is_ipv4,
}
use wg_kotlin.Platform.Host.{
  Host, RouteApi, PlatformError, manager_failed, add_failed, add_endpoint_failed, invalid_endpoint,
  lookup_failed,
}

-- `==` on addresses
abbrev pub octets_eq : List ℕ → List ℕ → Bool
octets_eq [] [] = true
octets_eq (a ∷ as') (b ∷ bs) = a == b && octets_eq as' bs
octets_eq _ _ = false

abbrev pub ip_eq : IpAddr → IpAddr → Bool
ip_eq (IpAddr.v4 a) (IpAddr.v4 b) = octets_eq a b
ip_eq (IpAddr.v6 a) (IpAddr.v6 b) = octets_eq a b
ip_eq _ _ = false

abbrev consed : Option IpAddr → List IpAddr → List IpAddr
consed none ips = ips
consed (some ip) ips = ip ∷ ips

-- `peer_endpoints.iter().filter_map(parse_proto_ip).collect()`
unfoldable pub endpoint_ips : List Ip → List IpAddr
endpoint_ips [] = []
endpoint_ips (addr ∷ endpoints) = consed (parse_proto_ip addr) (endpoint_ips endpoints)

-- `u8::try_from(prefix).ok()`
abbrev pub u8_try_from : ℕ → Option ℕ
u8_try_from n = if ltb n 256 then some n else none

module _ {W R E : Type 0} (host : Host W R E) where
  abbrev resolved : Option IpAddr → Eff W PlatformError E
  resolved none w = (err invalid_endpoint, w)
  resolved (some ip) w = map_fail (lookup_failed ip) (host.lookup ip) w

  unfoldable pub resolve_from : List Ip → Eff W PlatformError (List E)
  resolve_from [] = pure []
  resolve_from (addr ∷ endpoints) = do
    route ← resolved (parse_proto_ip addr)
    routes ← resolve_from endpoints
    pure (route ∷ routes)

  -- The iterator stops at the first endpoint that fails.
  unfoldable pub resolve_endpoint_routes : TunSessionConfig → Eff W PlatformError (List E)
  unfolding resolve_from
  resolve_endpoint_routes config = resolve_from config.peer_endpoints

module _ {R : Type 0} (api : RouteApi R) where
  abbrev pub route_of : Str → Option (IpAddr × ℕ) → Option R
  route_of name none = none
  route_of name (some (ip, prefix)) = elim (u8_try_from prefix) [
    | none ↦ none
    | some n ↦ some (api.with_if_name name (api.new ip n))
  ]

  abbrev pub cons_route : Option R → List R → List R
  cons_route none routes = routes
  cons_route (some route) routes = route ∷ routes

  unfoldable pub tunnel_routes : Str → List Cidr → List R
  tunnel_routes name [] = []
  tunnel_routes name (addr ∷ values) =
      cons_route (route_of name (parse_proto_cidr addr)) (tunnel_routes name values)

  -- Not the route to an endpoint alone.
  unfoldable pub is_kept : List IpAddr → R → Bool
  is_kept endpoints route =
      not (api.prefix route == (if is_ipv4 (api.destination route) then 32 else 128))
      || not (any (λ ip. ip_eq ip (api.destination route)) endpoints)

  unfoldable pub filtered_routes : TunSessionConfig → Str → List R
  unfolding tunnel_routes is_kept endpoint_ips
  filtered_routes config name =
      keep (is_kept (endpoint_ips config.peer_endpoints))
        (tunnel_routes name config.peer_allowed_ips)

  -- The manager, the routes to install, and the endpoint routes as they were given.
  unfoldable pub build_and_filter_routes :
      {W E : Type 0}
      → Host W R E
      → TunSessionConfig
      → Str
      → List E
      → Eff W PlatformError (List R × List E)
  unfolding filtered_routes
  build_and_filter_routes host config name endpoint_routes = do
    map_fail manager_failed host.open_manager
    pure (filtered_routes config name, endpoint_routes)

module _ {W R E : Type 0} (host : Host W R E) where
  unfoldable pub add_endpoint_routes : List E → Eff W PlatformError (Unit {0})
  add_endpoint_routes [] = pure tt
  add_endpoint_routes (route ∷ routes) = do
    map_fail add_endpoint_failed (host.replace_endpoint route)
    add_endpoint_routes routes

  unfoldable pub add_tunnel_routes : List R → Eff W PlatformError (Unit {0})
  add_tunnel_routes [] = pure tt
  add_tunnel_routes (route ∷ routes) = do
    ignore (host.delete route)
    map_fail add_failed (host.add route)
    add_tunnel_routes routes

  unfoldable pub add_routes_with_predelete : List R → List E → Eff W PlatformError (Unit {0})
  unfolding add_endpoint_routes add_tunnel_routes
  add_routes_with_predelete filtered endpoint_routes = do
    add_endpoint_routes endpoint_routes
    add_tunnel_routes filtered
