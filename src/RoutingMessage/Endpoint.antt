-- ===== src/RoutingMessage/Endpoint.antt =====
-- The route to an endpoint on macOS: `EndpointRoute` of
-- wg-kotlin-daemon-rust/daemon/src/platform/endpoint_macos.rs, what `lookup` takes from a reply and
-- the messages that ask for it, add it and delete it.
use wg_kotlin.Base.{
  ℕ, zero, suc, ◌+◌, ◌%◌, ◌^◌, Bool, false, ◌||◌, Option, none, some, List, [], ◌∷◌, ◌++◌, leb,
  ◌==◌, if◌then◌else◌, length, replicate, Result, ok, err, ◌>>=◌,
}
use wg_kotlin.Protocol.{IpAddr}
use wg_kotlin.RoutingMessage.{
  RouteError, Header, Layout, bit, add_code, get_code, rtm_version, af_inet, af_inet6, ip_address,
  link_address, append, header, addresses, not_reachable, message_too_long,
}

pub record EndpointRoute : Type 0 where
  pub destination : IpAddr
  pub interface : ℕ
  pub gateway : List ℕ
  pub via_gateway : Bool
  pub source : Option (List ℕ)
  pub mtu : ℕ
  pub hopcount : ℕ

-- `addresses[index].clone()`
abbrev pub slot : ℕ → List (Option (List ℕ)) → Option (List ℕ)
slot n [] = none
slot zero (value ∷ slots) = value
slot (suc n) (value ∷ slots) = slot n slots

-- `address.get(1)`
abbrev pub family_of : List ℕ → Option ℕ
family_of (a ∷ b ∷ bytes) = some b
family_of _ = none

-- `matches!(family, Some(libc::AF_INET | libc::AF_INET6))`
abbrev pub is_ip_family : Option ℕ → Bool
is_ip_family none = false
is_ip_family (some family) = family == af_inet || family == af_inet6

-- An IP gateway is kept, any other is the interface.
abbrev pub gateway_or_link : Option (List ℕ) → ℕ → List ℕ
gateway_or_link none index = link_address index
gateway_or_link (some gateway) index =
    if is_ip_family (family_of gateway) then gateway else link_address index

-- The mask of a host: `Ipv4Addr::BROADCAST`, or all bits of an IPv6 address.
abbrev pub host_mask : IpAddr → IpAddr
host_mask (IpAddr.v4 octets) = IpAddr.v4 (replicate 4 255)
host_mask (IpAddr.v6 octets) = IpAddr.v6 (replicate 16 255)

abbrev append_source : List ℕ → Option (List ℕ) → List ℕ
append_source payload none = payload
append_source payload (some source) = append payload source

-- The addresses of a message, and their bits in `rtm_addrs`.
abbrev pub payload_of : EndpointRoute → ℕ → List ℕ
payload_of route operation =
    let payload = ip_address route.destination in
    if operation == get_code
    then append payload (link_address 0)
    else let payload = append payload route.gateway in
      let payload = append payload (ip_address (host_mask route.destination)) in
      append_source (append payload (link_address route.interface)) route.source

abbrev ifa_bit : Option (List ℕ) → ℕ
ifa_bit none = 0
ifa_bit (some source) = 2 ^ 5

abbrev pub addrs_of : EndpointRoute → ℕ → ℕ
addrs_of route operation =
    if operation == get_code
    then 2 ^ 0 + 2 ^ 4
    else 2 ^ 0 + 2 ^ 1 + 2 ^ 2 + 2 ^ 4 + ifa_bit route.source

-- RTF_UP, RTF_HOST and RTF_STATIC, and RTF_GATEWAY where the route has it
abbrev pub flags_of : EndpointRoute → ℕ → ℕ
flags_of route operation =
    2 ^ 0
    + 2 ^ 2
    + 2 ^ 11
    + (if operation == get_code then 0 else if route.via_gateway then 2 ^ 1 else 0)

module _ {Rest : Type 0} (layout : Layout Rest) where
  abbrev pub zero_header : Header Rest
  zero_header = record {
    msglen = 0;
    version = 0;
    kind = 0;
    index = 0;
    flags = 0;
    addrs = 0;
    pid = 0;
    seq = 0;
    errno = 0;
    inits = 0;
    mtu = 0;
    hopcount = 0;
    others = layout.zeroed;
  }

  -- The loop over the two metrics: a metric that is not 0 is set, and announced by its bit.
  abbrev with_mtu : ℕ → Header Rest → Header Rest
  with_mtu value h = record h {
    mtu = if value == 0 then h.mtu else value;
    inits = if value == 0 then h.inits else h.inits + 2 ^ 0;
  }

  abbrev with_hopcount : ℕ → Header Rest → Header Rest
  with_hopcount value h = record h {
    hopcount = if value == 0 then h.hopcount else value;
    inits = if value == 0 then h.inits else h.inits + 2 ^ 1;
  }

  abbrev with_metrics : EndpointRoute → ℕ → Header Rest → Header Rest
  with_metrics route operation h =
      if operation == add_code then with_hopcount route.hopcount (with_mtu route.mtu h) else h

  abbrev pub header_of : EndpointRoute → ℕ → ℕ → Header Rest
  header_of route operation size = with_metrics route operation (record zero_header {
    msglen = size;
    version = rtm_version;
    kind = operation % 2 ^ 8;
    index = route.interface;
    flags = flags_of route operation;
    addrs = addrs_of route operation;
  })

  -- `EndpointRoute::message`
  unfoldable pub message : EndpointRoute → ℕ → Result RouteError (List ℕ)
  message route operation =
      let payload = payload_of route operation in
      let size = layout.size + length payload in
      if leb (2 ^ 16) size
      then err message_too_long
      else ok (layout.write (header_of route operation size) ++ payload)

  -- `lookup` after `exchange`
  unfoldable pub from_reply : IpAddr → List ℕ → Result RouteError EndpointRoute
  unfolding header addresses
  from_reply destination reply = do
    h ← header layout reply
    (if h.index == 0 || (bit 3 h.flags || bit 12 h.flags) then err not_reachable else do
      slots ← addresses layout reply h
      ok (record {
        destination = destination;
        interface = h.index;
        gateway = gateway_or_link (slot 1 slots) h.index;
        via_gateway = bit 1 h.flags;
        source = slot 5 slots;
        mtu = h.mtu;
        hopcount = h.hopcount;
      }))
