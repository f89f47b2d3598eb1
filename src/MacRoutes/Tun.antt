-- ===== src/MacRoutes/Tun.antt =====
-- The routes of a tunnel as routing messages: `tun_route` of
-- wg-kotlin-daemon-rust/daemon/src/platform/routes_macos.rs.
use wg_kotlin.Base.{
  ℕ, suc, ◌+◌, ◌^◌, ◌<◌, ◌≡◌, refl, sym, ap, ◌∙◌, subst, Bool, true, false, Option, none, some,
  List, [], ◌∷◌, ◌++◌, append-nil, append_assoc, arith, leb, ◌==◌, if◌then◌else◌, length, replicate,
  All, Result, ok, err, ◌>>=◌, ok_or, map_err, bound, ok-injective, unguarded,
}
use wg_kotlin.Frame.{IoError}
use wg_kotlin.Text.{Str}
use wg_kotlin.Protocol.{IpAddr, is_ipv4}
use wg_kotlin.RoutingMessage.{
  RouteError, io, Header, InRange, Layout, IsLayout, rtm_version, af_inet, af_inet6, ip_address,
  link_address, append, header, addresses, no_tun_interface, index_too_large, family_mismatch,
  message_too_long,
}
use wg_kotlin.RoutingMessage.Addresses.{IsSlot, appended, header-write, addresses-write}
use wg_kotlin.RoutingMessage.Endpoint.{family_of, zero_header}
use wg_kotlin.RoutingMessage.Replies.{IsIp, IsAddress-ip_address}
use wg_kotlin.MacRoutes.Address.{address_bytes, padded, without_zone}
use wg_kotlin.MacRoutes.Snapshot.{RouteKey, key, key_of, masked}

-- Of route_manager: what is read from a route.
pub record RouteView (R : Type 0) : Type 0 where
  pub if_name : R → Option Str
  pub destination : R → IpAddr
  pub mask : R → IpAddr
  pub prefix : R → ℕ

-- The conjunction of the two numbers, octet by octet
abbrev pub masked_ip : IpAddr → IpAddr → Result RouteError IpAddr
masked_ip (IpAddr.v4 octets) (IpAddr.v4 mask) = ok (IpAddr.v4 (masked octets mask))
masked_ip (IpAddr.v6 octets) (IpAddr.v6 mask) = ok (IpAddr.v6 (masked octets mask))
masked_ip _ _ = err family_mismatch

abbrev pub is_host : ℕ → IpAddr → Bool
is_host prefix destination = prefix == (if is_ipv4 destination then 32 else 128)

abbrev pub tun_payload : IpAddr → IpAddr → ℕ → List ℕ
tun_payload destination mask index =
    append (append (append [] (ip_address destination)) (link_address index)) (ip_address mask)

module _ {Rest : Type 0} (layout : Layout Rest) where
  -- RTA_DST, RTA_GATEWAY and RTA_NETMASK; RTF_UP and RTF_STATIC, and RTF_HOST for a host
  abbrev pub tun_header : ℕ → ℕ → Bool → Header Rest
  tun_header index size host = record (zero_header layout) {
    msglen = size;
    version = rtm_version;
    index = index;
    addrs = 2 ^ 0 + 2 ^ 1 + 2 ^ 2;
    flags = 2 ^ 0 + 2 ^ 11 + (if host then 2 ^ 2 else 0);
  }

module _ {R Rest : Type 0} (layout : Layout Rest) (view : RouteView R) where
  -- `index_of` is libc's `if_nametoindex` on the name as a C string, where 0 is an error.
  unfoldable pub tun_route : (Str → Result IoError ℕ) → R → Result RouteError (List ℕ)
  tun_route index_of route = do
    name ← ok_or (view.if_name route) no_tun_interface
    index ← map_err io (index_of name)
    (if leb (2 ^ 16) index then err index_too_large else do
      destination ← masked_ip (view.destination route) (view.mask route)
      (let payload = tun_payload destination (view.mask route) index in
          let size = layout.size + length payload in
          if leb (2 ^ 16) size
          then err message_too_long
          else ok (
              layout.write (tun_header layout index size (is_host (view.prefix route) destination))
              ++ payload)))

-- The octets that two addresses are compared by.
abbrev pub octets : IpAddr → List ℕ
octets (IpAddr.v4 bytes) = bytes
octets (IpAddr.v6 bytes) = without_zone bytes

abbrev pub family : IpAddr → ℕ
family (IpAddr.v4 bytes) = af_inet
family (IpAddr.v6 bytes) = af_inet6

padded_append : (bytes rest : List ℕ) → padded (length bytes) (bytes ++ rest) ≡ bytes
padded_append [] rest = refl
padded_append (b ∷ bytes) rest = ap (◌∷◌ b) (padded_append bytes rest)

address_bytes-ip_address :
    (ip : IpAddr) → IsIp ip → address_bytes (ip_address ip) (family ip) ≡ ok (octets ip)
unfolding address_bytes ip_address
address_bytes-ip_address (IpAddr.v4 bytes) size = ap ok (
    subst (λ (n : ℕ). padded n (bytes ++ replicate 8 0) ≡ bytes) size
      (padded_append bytes (replicate 8 0)))
address_bytes-ip_address (IpAddr.v6 bytes) size =
    ap (λ (x : List ℕ). ok (without_zone x))
      (subst (λ (n : ℕ). padded n (bytes ++ replicate 4 0) ≡ bytes) size
        (padded_append bytes (replicate 4 0)))

family_of-ip_address : (ip : IpAddr) → family_of (ip_address ip) ≡ some (family ip)
unfolding ip_address
family_of-ip_address (IpAddr.v4 bytes) = refl
family_of-ip_address (IpAddr.v6 bytes) = refl

length-masked : (bytes mask : List ℕ) → length (masked bytes mask) ≡ length bytes
length-masked [] mask = refl
length-masked (b ∷ bytes) [] = refl
length-masked (b ∷ bytes) (m ∷ mask) = ap suc (length-masked bytes mask)

masked_ip_family :
    (ip mask d : IpAddr) → IsIp ip → masked_ip ip mask ≡ ok d → IsIp d × (family mask ≡ family d)
masked_ip_family (IpAddr.v4 a) (IpAddr.v4 m) d size e =
    subst (λ (d : IpAddr). IsIp d × (af_inet ≡ family d)) (ok-injective e)
      (length-masked a m ∙ size, refl)
masked_ip_family (IpAddr.v6 a) (IpAddr.v6 m) d size e =
    subst (λ (d : IpAddr). IsIp d × (af_inet6 ≡ family d)) (ok-injective e)
      (length-masked a m ∙ size, refl)
masked_ip_family (IpAddr.v4 a) (IpAddr.v6 m) d size e = cc
masked_ip_family (IpAddr.v6 a) (IpAddr.v4 m) d size e = cc

tun_slots : IpAddr → IpAddr → ℕ → List (Option (List ℕ))
tun_slots destination mask index =
    some (ip_address destination)
    ∷ some (link_address index)
    ∷ some (ip_address mask)
    ∷ none
    ∷ none
    ∷ none
    ∷ none
    ∷ none
    ∷ []

tun_slots-IsSlot :
    (d mask : IpAddr) (index : ℕ) → IsIp d → IsIp mask → All IsSlot (tun_slots d mask index)
unfolding tun_slots link_address
tun_slots-IsSlot d mask index one two = (
  IsAddress-ip_address d one,
  (refl, (IsAddress-ip_address mask two, (tt, (tt, (tt, (tt, (tt, tt))))))),
)

tun_payload-appended :
    (d mask : IpAddr) (index : ℕ) → tun_payload d mask index ≡ appended (tun_slots d mask index)
unfolding tun_slots append
tun_payload-appended d mask index = simp (append_assoc, append-nil)

-- The key of a tunnel's route: the destination is masked, and a host has no other mask than its own.
abbrev pub tun_key : IpAddr → IpAddr → Bool → RouteKey
tun_key d mask host =
    let bits : List ℕ = if host then replicate (length (octets d)) 255 else octets mask in
    record {
      family = family d;
      destination = masked (octets d) bits;
      mask = bits;
      host = host;
      scope = 0;
    }

module _ {Rest R : Type 0} (layout : Layout Rest) (libc : IsLayout layout)
    (view : RouteView R) where
  tun_header-InRange :
      (index size : ℕ) (host : Bool)
      → index < 2 ^ 16
      → size < 2 ^ 16
      → InRange (tun_header layout index size host)
  tun_header-InRange index size host i s = record {
    msglen = s;
    version = omega arith;
    kind = omega arith;
    index = i;
    flags = ground arith;
    addrs = omega arith;
    pid = omega arith;
    seq = omega arith;
    errno = omega arith;
    inits = omega arith;
    mtu = omega arith;
    hopcount = omega arith;
  }

  tun_key_of :
      (d mask : IpAddr) (index size : ℕ) (host : Bool)
      → IsIp d
      → IsIp mask
      → family mask ≡ family d
      → key_of layout (tun_header layout index size host) (tun_slots d mask index)
        ≡ ok (tun_key d mask host)
  unfolding tun_slots
  tun_key_of d mask index size true one two same =
      rw (family_of-ip_address d, address_bytes-ip_address d one) refl
  tun_key_of d mask index size false one two same =
      rw
        (
          family_of-ip_address d,
          address_bytes-ip_address d one,
          ← same,
          address_bytes-ip_address mask two,
        )
        refl

  -- For a destination and a mask of 4 or 16 octets, the route of a tunnel that is requested has the
  -- key of the masked destination: its addresses are read back from the message, a prefix of all bits
  -- makes it a host, and it has no scope.
  pub tun_route-key :
      (index_of : Str → Result IoError ℕ) (route : R) (bytes : List ℕ)
      → IsIp (view.destination route)
      → IsIp (view.mask route)
      → tun_route layout view index_of route ≡ ok bytes
      → (d : IpAddr) × (masked_ip (view.destination route) (view.mask route) ≡ ok d)
        × (key layout bytes ≡ ok (tun_key d (view.mask route) (is_host (view.prefix route) d)))
  unfolding tun_route key tun_slots
  tun_route-key index_of route bytes ip ip' made =
      let (name, named, e₁) = bound (ok_or (view.if_name route) no_tun_interface) made in
      let (index, known, e₂) = bound (map_err io (index_of name)) e₁ in
      let (narrow, e₃) = unguarded (leb (2 ^ 16) index) _ e₂ in
      let mask : IpAddr = view.mask route in
      let (d, masks, e₄) = bound (masked_ip (view.destination route) mask) e₃ in
      let payload : List ℕ = tun_payload d mask index in
      let size : ℕ = layout.size + length payload in
      let host : Bool = is_host (view.prefix route) d in
      let h : Header Rest = tun_header layout index size host in
      let (small, e₅) = unguarded (leb (2 ^ 16) size) _ e₄ in
      let (one, same) = masked_ip_family (view.destination route) mask d ip masks in
      let range : InRange h =
        tun_header-InRange index size host (ground (arith, narrow)) (ground (arith, small)) in
      let head : header layout (layout.write h ++ payload) ≡ ok h =
        header-write layout libc h payload range in
      let read : addresses layout (layout.write h ++ payload) h ≡ ok (tun_slots d mask index) =
        ap (λ (bytes : List ℕ). addresses layout (layout.write h ++ bytes) h)
          (tun_payload-appended d mask index ∙ sym (append-nil (appended (tun_slots d mask index))))
        ∙ addresses-write layout libc h (tun_slots d mask index) []
            (tun_slots-IsSlot d mask index one ip') refl refl in
      (
        d,
        masks,
        subst (λ (bytes : List ℕ). key layout bytes ≡ ok (tun_key d mask host)) (ok-injective e₅)
            (rw (head, read) (tun_key_of d mask index size host one ip' same)),
      )
