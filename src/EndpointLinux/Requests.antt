-- ===== src/EndpointLinux/Requests.antt =====
-- wg-kotlin-daemon-rust/daemon/src/platform/endpoint_linux.rs: the requests of `lookup`, `replace` and
-- `delete`, and the socket over which `transact` sends them.
use wg_kotlin.Base.{
  ℕ, ◌+◌, ◌≡◌, ap, Bool, true, false, not, Option, none, some, List, [], ◌∷◌, if◌then◌else◌, Result,
  ok, err, map_err,
}
use wg_kotlin.Base.Int.{ℤ, is_zero}
use wg_kotlin.Base.Eff.{Eff, ◌>>=◌, ◌>>◌, pure}
use wg_kotlin.Frame.{IoError}
use wg_kotlin.Protocol.{IpAddr, is_ipv4}
use wg_kotlin.EndpointLinux.{
  RouteMessage, destination, status, other, uid, LookupError, host_length, from_route,
}
use wg_kotlin.EndpointLinux.Netlink.{Reply, NetlinkError, io, Datagram, Verdict, receive}

pub data Request (X : Type 0) : Type 0 where
  get_route new_route_request del_route : RouteMessage X → Request X

-- The netlink crates and the socket `S`: the default message, what the opaque parts hold, the bytes of a
-- request, and the datagrams that come for it.
pub record NetlinkApi (W S X : Type 0) : Type 0 where
  pub default_message : RouteMessage X
  pub family_fields : (ipv4 : Bool) → X
  pub getuid : W → ℕ
  pub uid_value : ℕ → X
  pub ip_proto_udp : X
  pub new_socket : Eff W IoError S
  pub bind_auto : S → Eff W IoError ℕ
  pub connect_kernel : S → Eff W IoError (Unit {0})
  pub set_timeout : S → (option : ℕ) → W → ℤ × W
  pub last_os_error : W → IoError
  pub serialize : (flags sequence port : ℕ) → Request X → List ℕ
  pub send : S → List ℕ → Eff W IoError (Unit {0})
  pub incoming : S → W → List (Result IoError Datagram)
  pub deserialize : List ℕ → Option (Reply X)

abbrev pub nlm_f_request : ℕ
nlm_f_request = 1

abbrev pub nlm_f_ack : ℕ
nlm_f_ack = 4

abbrev pub nlm_f_replace : ℕ
nlm_f_replace = 0x100

abbrev pub nlm_f_create : ℕ
nlm_f_create = 0x400

-- `SO_RCVTIMEO` and `SO_SNDTIMEO`
abbrev pub timeout_options : List ℕ
timeout_options = 20 ∷ 21 ∷ []

-- `RouteFlags::FibMatch | RouteFlags::LookupTable`
abbrev pub query_flags : ℕ
query_flags = 0x2000 + 0x1000

abbrev pub is_lookup : {X : Type 0} → Request X → Bool
is_lookup (get_route message) = true
is_lookup (new_route_request message) = false
is_lookup (del_route message) = false

pub data EndpointError : Type 0 where
  netlink : NetlinkError → EndpointError
  no_route : EndpointError
  unusable : LookupError → EndpointError

module _ {W S X : Type 0} (api : NetlinkApi W S X) where
  unfoldable pub set_timeouts : S → List ℕ → Eff W IoError (Unit {0})
  set_timeouts socket [] w = (ok tt, w)
  set_timeouts socket (option ∷ options) w =
      let (returned, w') = api.set_timeout socket option w in
      let rest = set_timeouts socket options w' in
      if not (is_zero returned) then (err (api.last_os_error w'), w') else rest

  -- `transact` up to its loop.
  unfoldable pub send_request : Request X → ℕ → Eff W IoError S
  unfolding set_timeouts
  send_request request flags = do
    socket ← api.new_socket
    port ← api.bind_auto socket
    api.connect_kernel socket
    set_timeouts socket timeout_options
    api.send socket (api.serialize flags 1 port request)
    pure socket

  abbrev pub answered : Bool → Result IoError S × W → Verdict X × W
  answered lookup (err e, w) = (some (err (io e)), w)
  answered lookup (ok socket, w) = (receive api.deserialize lookup (api.incoming socket w), w)

  -- None while it waits.
  unfoldable pub transact : Request X → ℕ → W → Verdict X × W
  unfolding send_request
  transact request flags w = answered (is_lookup request) (send_request request flags w)

  unfoldable pub query : IpAddr → W → RouteMessage X
  query ip w = record api.default_message {
    fields = api.family_fields (is_ipv4 ip);
    prefix_length = host_length ip;
    flags = query_flags;
    attributes =
        destination ip ∷ status uid (api.uid_value (api.getuid w)) ∷ other api.ip_proto_udp ∷ [];
  }

  abbrev pub usable : Result LookupError (RouteMessage X) → Result EndpointError (RouteMessage X)
  usable r = map_err unusable r

  abbrev pub looked_up : IpAddr → Verdict X × W → Option (Result EndpointError (RouteMessage X)) × W
  looked_up ip (none, w) = (none, w)
  looked_up ip (some (err e), w) = (some (err (netlink e)), w)
  looked_up ip (some (ok none), w) = (some (err no_route), w)
  looked_up ip (some (ok (some found)), w) = (some (usable (from_route ip found)), w)

  unfoldable pub lookup : IpAddr → W → Option (Result EndpointError (RouteMessage X)) × W
  unfolding transact query
  lookup ip w = looked_up ip (transact (get_route (query ip w)) nlm_f_request w)

  abbrev pub acknowledged : Verdict X × W → Option (Result NetlinkError (Unit {0})) × W
  acknowledged (none, w) = (none, w)
  acknowledged (some (err e), w) = (some (err e), w)
  acknowledged (some (ok found), w) = (some (ok tt), w)

  unfoldable pub replace : RouteMessage X → W → Option (Result NetlinkError (Unit {0})) × W
  unfolding transact
  replace route w = acknowledged (
      transact (new_route_request route) (nlm_f_request + nlm_f_ack + nlm_f_create + nlm_f_replace)
        w)

  unfoldable pub delete : RouteMessage X → W → Option (Result NetlinkError (Unit {0})) × W
  unfolding transact
  delete route w = acknowledged (transact (del_route route) (nlm_f_request + nlm_f_ack) w)

  usable_ok :
      (r : Result LookupError (RouteMessage X)) (route : RouteMessage X)
      → ◌≡◌ {A = Option (Result EndpointError (RouteMessage X))} (some (usable r)) (some (ok route))
      → r ≡ ok route
  usable_ok (ok found) route h = cc
  usable_ok (err e) route h = cc

  looked_up-found :
      (ip : IpAddr) (p : Verdict X × W) (route : RouteMessage X) (w' : W)
      → looked_up ip p ≡ (some (ok route), w')
      → (found : RouteMessage X) × (p ≡ (some (ok (some found)), w'))
        × (from_route ip found ≡ ok route)
  looked_up-found ip (none, w) route w' h = cc
  looked_up-found ip (some (err e), w) route w' h = cc
  looked_up-found ip (some (ok none), w) route w' h = cc
  looked_up-found ip (some (ok (some found)), w) route w' h =
      let at_end = ap (λ (p : Option (Result EndpointError (RouteMessage X)) × W). p.1) h in
      let outcome = ap (λ (p : Option (Result EndpointError (RouteMessage X)) × W). p.0) h in
      (
        found,
        ap {B = Verdict X × W} (λ v. (some (ok (some found)), v)) at_end,
        usable_ok (from_route ip found) route outcome,
      )

  -- A lookup that succeeds gives the route made from one that the kernel answered with.
  pub lookup-found :
      (ip : IpAddr) (route : RouteMessage X) (w w' : W)
      → lookup ip w ≡ (some (ok route), w')
      → (found : RouteMessage X) × (transact (get_route (query ip w)) nlm_f_request w
          ≡ (some (ok (some found)), w'))
        × (from_route ip found ≡ ok route)
  unfolding lookup
  lookup-found ip route w w' h =
      looked_up-found ip (transact (get_route (query ip w)) nlm_f_request w) route w' h
