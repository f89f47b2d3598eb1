-- ===== src/RoutingMessage/Replies.antt =====
-- What is read from the messages of an endpoint's route.
use wg_kotlin.Base.{
  ℕ, zero, suc, ◌+◌, ◌-◌, ◌^◌, ◌<◌, ◌≡◌, refl, sym, ap, ◌∙◌, subst, ◌⊎◌, inl, inr, Bool, true,
  false, ◌||◌, Option, none, some, List, [], ◌∷◌, ◌++◌, append-nil, append_assoc, arith, leb, ◌==◌,
  if◌then◌else◌, Bool-cases, length, replicate, length-append, All, ok, bound, ok-injective,
  unguarded,
}
use wg_kotlin.Protocol.{IpAddr}
use wg_kotlin.RoutingMessage.{
  Header, InRange, Layout, IsLayout, bit, add_code, ip_address, link_address, append, block, header,
  addresses, padded_size,
}
use wg_kotlin.RoutingMessage.Addresses.{
  IsAddress, IsSlot, slot_bits, appended, header-write, addresses-write, header-InRange,
  addresses-IsSlot,
}
use wg_kotlin.RoutingMessage.Endpoint.{
  EndpointRoute, slot, family_of, is_ip_family, host_mask, message, from_reply, header_of,
  payload_of, gateway_or_link, addrs_of, flags_of,
}

-- An IPv4 address has 4 octets, an IPv6 address 16.
abbrev pub IsIp : IpAddr → Type 0
IsIp (IpAddr.v4 octets) = length octets ≡ 4
IsIp (IpAddr.v6 octets) = length octets ≡ 16

-- A route as a lookup returns it: through an interface, to an IP gateway or to the interface itself.
pub record IsEndpoint (route : EndpointRoute) : Type 0 where
  pub destination : IsIp route.destination
  pub interface_min : 0 < route.interface
  pub interface_max : route.interface < 2 ^ 16
  pub gateway : IsAddress route.gateway
  pub next_hop :
      (is_ip_family (family_of route.gateway) ≡ true)
      ⊎ (route.gateway ≡ link_address route.interface)
  pub source : IsSlot route.source
  pub mtu : route.mtu < 2 ^ 32
  pub hopcount : route.hopcount < 2 ^ 32

slots_of : EndpointRoute → List (Option (List ℕ))
slots_of route =
    some (ip_address route.destination)
    ∷ some route.gateway
    ∷ some (ip_address (host_mask route.destination))
    ∷ none
    ∷ some (link_address route.interface)
    ∷ route.source
    ∷ none
    ∷ none
    ∷ []

pub IsAddress-ip_address : (ip : IpAddr) → IsIp ip → IsAddress (ip_address ip)
unfolding ip_address
IsAddress-ip_address (IpAddr.v4 octets) size = omega (arith, length-append octets (replicate 8 0))
IsAddress-ip_address (IpAddr.v6 octets) size = omega (arith, length-append octets (replicate 4 0))

pub block-ip_address : (ip : IpAddr) → IsIp ip → block (ip_address ip) ≡ ip_address ip
unfolding ip_address
block-ip_address ip size =
    ap (λ (n : ℕ). ip_address ip ++ replicate n 0) (unpadded ip size) ∙ append-nil (ip_address ip)
  where
    unpadded :
        (ip : IpAddr) → IsIp ip → padded_size (length (ip_address ip)) - length (ip_address ip) ≡ 0
    unpadded (IpAddr.v4 octets) size = omega (arith, length-append octets (replicate 8 0))
    unpadded (IpAddr.v6 octets) size = omega (arith, length-append octets (replicate 4 0))

host_mask-IsIp : (ip : IpAddr) → IsIp (host_mask ip)
host_mask-IsIp (IpAddr.v4 octets) = refl
host_mask-IsIp (IpAddr.v6 octets) = refl

payload_of-appended :
    (route : EndpointRoute)
    → IsEndpoint route
    → payload_of route add_code ≡ appended (slots_of route)
unfolding append slots_of
payload_of-appended route good =
    rw (block-ip_address route.destination good.destination) (grouped route.source)
  where
    grouped :
        (source : Option (List ℕ))
        → payload_of (record route { source = source }) add_code
          ≡ ip_address route.destination
            ++ (block route.gateway
                ++ (block (ip_address (host_mask route.destination))
                    ++ (block (link_address route.interface)
                        ++ appended (source ∷ none ∷ none ∷ []))))
    grouped none = simp (append_assoc, append-nil)
    grouped (some source) = simp (append_assoc, append-nil)

slots_of-IsSlot : (route : EndpointRoute) → IsEndpoint route → All IsSlot (slots_of route)
unfolding slots_of link_address
slots_of-IsSlot route good =
    let mask : IsAddress (ip_address (host_mask route.destination)) =
      IsAddress-ip_address (host_mask route.destination) (host_mask-IsIp route.destination) in
    let destination = IsAddress-ip_address route.destination good.destination in
    (destination, (good.gateway, (mask, (tt, (refl, (good.source, (tt, (tt, tt))))))))

addrs_of-slot_bits :
    (route : EndpointRoute)
    → (addrs_of route add_code ≡ slot_bits (slots_of route)) × (addrs_of route add_code < 2 ^ 32)
unfolding slots_of
addrs_of-slot_bits route = bits route.source
  where
    bits :
        (source : Option (List ℕ))
        → let addrs = addrs_of (record route { source = source }) add_code in
          (addrs ≡ slot_bits (slots_of (record route { source = source }))) × (addrs < 2 ^ 32)
    bits none = (refl, omega arith)
    bits (some source) = (refl, omega arith)

flags_of-bits :
    (route : EndpointRoute)
    → (bit 1 (flags_of route add_code) ≡ route.via_gateway)
      × ((bit 3 (flags_of route add_code) || bit 12 (flags_of route add_code)) ≡ false)
      × (flags_of route add_code < 2 ^ 32)
flags_of-bits route = bits route.via_gateway
  where
    bits :
        (via : Bool)
        → let flags = flags_of (record route { via_gateway = via }) add_code in
          (bit 1 flags ≡ via) × ((bit 3 flags || bit 12 flags) ≡ false) × (flags < 2 ^ 32)
    bits true = (refl, refl, omega arith)
    bits false = (refl, refl, omega arith)

-- A metric that is left out is 0.
metric : (n : ℕ) → (if n == 0 then 0 else n) ≡ n
metric n = ground arith

gateway_kept :
    (route : EndpointRoute)
    → IsEndpoint route
    → gateway_or_link (some route.gateway) route.interface ≡ route.gateway
gateway_kept route good = elim (Bool-cases (is_ip_family (family_of route.gateway))) [
  | inl ip ↦ rw ip refl
  | inr other ↦ rw other (elim good.next_hop [ inl e ↦ cc | inr e ↦ sym e ])
]

positive : (n : ℕ) (b : Bool) → (n == 0 || b) ≡ false → 0 < n
positive n b h = ground arith

slot-IsSlot : (n : ℕ) (slots : List (Option (List ℕ))) → All IsSlot slots → IsSlot (slot n slots)
slot-IsSlot n [] good = tt
slot-IsSlot zero (value ∷ slots) good = good.0
slot-IsSlot (suc n) (value ∷ slots) good = slot-IsSlot n slots good.1

-- The gateway of a reply, where it has one.
Gateway : ℕ → List ℕ → Type 0
Gateway index gateway =
    IsAddress gateway × ((is_ip_family (family_of gateway) ≡ true) ⊎ (gateway ≡ link_address index))

gateway_or_link-Gateway :
    (value : Option (List ℕ)) (index : ℕ)
    → IsSlot value
    → Gateway index (gateway_or_link value index)
unfolding Gateway link_address
gateway_or_link-Gateway none index good = (refl, inr refl)
gateway_or_link-Gateway (some gateway) index good =
    elim (Bool-cases (is_ip_family (family_of gateway))) [
      | inl ip ↦ rw ip (good, inl ip)
      | inr other ↦ rw other (refl, inr refl)
    ]

module _ {Rest : Type 0} (layout : Layout Rest) (libc : IsLayout layout) where
  header_of-InRange :
      (route : EndpointRoute) (size : ℕ)
      → IsEndpoint route
      → size < 2 ^ 16
      → InRange (header_of layout route add_code size)
  header_of-InRange route size good small = record {
    msglen = small;
    version = omega arith;
    kind = omega arith;
    index = good.interface_max;
    flags = (flags_of-bits route).2;
    addrs = (addrs_of-slot_bits route).1;
    pid = omega arith;
    seq = omega arith;
    errno = omega arith;
    inits = ground arith;
    mtu = rw (metric route.mtu) good.mtu;
    hopcount = rw (metric route.hopcount) good.hopcount;
  }

  -- The reply that echoes the message of a route is read as that route.
  from_reply-sent :
      (route : EndpointRoute) (bytes : List ℕ)
      → IsEndpoint route
      → message layout route add_code ≡ ok bytes
      → from_reply layout route.destination bytes ≡ ok route
  unfolding message from_reply slots_of
  from_reply-sent route bytes good sent =
      let payload : List ℕ = payload_of route add_code in
      let size : ℕ = layout.size + length payload in
      let h : Header Rest = header_of layout route add_code size in
      let (small, written) = unguarded (leb (2 ^ 16) size) _ sent in
      let range : InRange h = header_of-InRange route size good (ground (arith, small)) in
      let head : header layout (layout.write h ++ payload) ≡ ok h =
        header-write layout libc h payload range in
      let read : addresses layout (layout.write h ++ payload) h ≡ ok (slots_of route) =
        ap (λ (bytes : List ℕ). addresses layout (layout.write h ++ bytes) h)
          (payload_of-appended route good ∙ sym (append-nil (appended (slots_of route))))
        ∙ addresses-write layout libc h (slots_of route) [] (slots_of-IsSlot route good) refl
            (addrs_of-slot_bits route).0 in
      let found : (route.interface == 0) ≡ false = ground (arith, good.interface_min) in
      subst (λ (bytes : List ℕ). from_reply layout route.destination bytes ≡ ok route)
        (ok-injective written)
        (rw (head, found, (flags_of-bits route).1, read)
          (rw
            (
              gateway_kept route good,
              (flags_of-bits route).0,
              metric route.mtu,
              metric route.hopcount,
            )
            refl))

  -- What a lookup returns can be sent.
  pub from_reply-IsEndpoint :
      (destination : IpAddr) (reply : List ℕ) (route : EndpointRoute)
      → IsIp destination
      → from_reply layout destination reply ≡ ok route
      → IsEndpoint route × (route.destination ≡ destination)
  unfolding from_reply Gateway
  from_reply-IsEndpoint destination reply route ip looked =
      let (h, head, e) = bound (header layout reply) looked in
      let (reachable, e') = unguarded (h.index == 0 || (bit 3 h.flags || bit 12 h.flags)) _ e in
      let (slots, read, e'') = bound (addresses layout reply h) e' in
      let good : All IsSlot slots = (addresses-IsSlot layout libc reply h slots read).0 in
      let range : InRange h = header-InRange layout libc reply h head in
      let hop : Gateway h.index (gateway_or_link (slot 1 slots) h.index) =
        gateway_or_link-Gateway (slot 1 slots) h.index (slot-IsSlot 1 slots good) in
      subst (λ (r : EndpointRoute). IsEndpoint r × (r.destination ≡ destination)) (ok-injective e'')
        (
          record {
            destination = ip;
            interface_min = positive h.index _ reachable;
            interface_max = range.index;
            gateway = hop.0;
            next_hop = hop.1;
            source = slot-IsSlot 5 slots good;
            mtu = range.mtu;
            hopcount = range.hopcount;
          },
          refl,
        )

  -- For an address of 4 or 16 octets, a route that a lookup returned is read again from the message
  -- that adds it: the interface, the gateway and its flag, the source and the metrics are all in the
  -- message.
  pub from_reply-message :
      (destination : IpAddr) (reply bytes : List ℕ) (route : EndpointRoute)
      → IsIp destination
      → from_reply layout destination reply ≡ ok route
      → message layout route add_code ≡ ok bytes
      → from_reply layout destination bytes ≡ ok route
  from_reply-message destination reply bytes route ip looked sent =
      let (good, same) = from_reply-IsEndpoint destination reply route ip looked in
      subst (λ (ip : IpAddr). from_reply layout ip bytes ≡ ok route) same
        (from_reply-sent route bytes good sent)
