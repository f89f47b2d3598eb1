-- ===== src/Protocol.antt =====
-- The messages of daemon-protocol/*.proto as prost generates them, and
-- wg-kotlin-daemon-rust/daemon/src/ip_util.rs, which reads their addresses.
use wg_kotlin.Base.{
  ℕ, ◌≤◌, ◌≡◌, ◌↔◌, inl, inr, Bool, true, false, not, Option, none, some, List, arith, ◌==◌,
  if◌then◌else◌, ==_iff, Bool-cases, length,
}
use wg_kotlin.Base.Int.{ℤ}
use wg_kotlin.Text.{Str}

-- `oneof value` of `Ip`, with its byte strings.
pub data IpValue : Type 0 where
  v4 : List ℕ → IpValue
  v6 : List ℕ → IpValue

pub record Ip : Type 0 where
  pub value : Option IpValue

pub record Cidr : Type 0 where
  pub ip : Option Ip
  pub prefix : ℕ

pub record DnsConfig : Type 0 where
  pub servers : List Ip
  pub search_domains : List Str

pub record TunSessionConfig : Type 0 where
  pub interface_name : Str
  pub mtu : ℤ
  pub addresses : List Cidr
  pub peer_allowed_ips : List Cidr
  pub peer_endpoints : List Ip
  pub dns : Option DnsConfig

-- `std::net::IpAddr`, by its octets.
pub data IpAddr : Type 0 where
  v4 : List ℕ → IpAddr
  v6 : List ℕ → IpAddr

abbrev pub is_ipv4 : IpAddr → Bool
is_ipv4 (IpAddr.v4 octets) = true
is_ipv4 (IpAddr.v6 octets) = false

abbrev pub is_ipv6 : IpAddr → Bool
is_ipv6 ip = not (is_ipv4 ip)

-- The bits of an address: the prefix of a route to this host alone.
abbrev pub host_prefix : IpAddr → ℕ
host_prefix ip = if is_ipv4 ip then 32 else 128

abbrev pub parse_value : Option IpValue → Option IpAddr
parse_value none = none
parse_value (some (IpValue.v4 bytes)) = if length bytes == 4 then some (IpAddr.v4 bytes) else none
parse_value (some (IpValue.v6 bytes)) = if length bytes == 16 then some (IpAddr.v6 bytes) else none

unfoldable pub parse_proto_ip : Ip → Option IpAddr
parse_proto_ip addr = parse_value addr.value

abbrev pub parse_cidr_ip : Option Ip → ℕ → Option (IpAddr × ℕ)
parse_cidr_ip none prefix = none
parse_cidr_ip (some ip) prefix = elim (parse_proto_ip ip) [
  | none ↦ none
  | some addr ↦ some (addr, prefix)
]

unfoldable pub parse_proto_cidr : Cidr → Option (IpAddr × ℕ)
unfolding parse_proto_ip
parse_proto_cidr addr = parse_cidr_ip addr.ip addr.prefix

-- What the wire form of an address must be, by its shape.
abbrev pub IsIpValue : Option IpValue → Type 0
IsIpValue none = ⊥
IsIpValue (some (IpValue.v4 bytes)) = length bytes ≡ 4
IsIpValue (some (IpValue.v6 bytes)) = length bytes ≡ 16

abbrev pub IsIp : Ip → Type 0
IsIp addr = IsIpValue addr.value

abbrev pub FitsPrefix : Option IpValue → ℕ → Type 0
FitsPrefix none prefix = ⊥
FitsPrefix (some (IpValue.v4 bytes)) prefix = prefix ≤ 32
FitsPrefix (some (IpValue.v6 bytes)) prefix = prefix ≤ 128

abbrev pub IsCidrOf : Option Ip → ℕ → Type 0
IsCidrOf none prefix = ⊥
IsCidrOf (some ip) prefix = IsIp ip × FitsPrefix ip.value prefix

-- A network: an address of its family's length, with a prefix that fits it.
abbrev pub IsCidr : Cidr → Type 0
IsCidr addr = IsCidrOf addr.ip addr.prefix

value_parses : (v : Option IpValue) → IsIpValue v → (ip : IpAddr) × (parse_value v ≡ some ip)
value_parses none h = absurd h
value_parses (some (IpValue.v4 bytes)) h = (IpAddr.v4 bytes, ground arith)
value_parses (some (IpValue.v6 bytes)) h = (IpAddr.v6 bytes, ground arith)

parsed_value : (v : Option IpValue) (ip : IpAddr) → parse_value v ≡ some ip → IsIpValue v
parsed_value none ip h = cc
parsed_value (some (IpValue.v4 bytes)) ip h = ground arith
parsed_value (some (IpValue.v6 bytes)) ip h = ground arith

-- The parser accepts the well-formed addresses, and no others.
pub parse_proto_ip_iff : (addr : Ip) → ((ip : IpAddr) × (parse_proto_ip addr ≡ some ip)) ↔ IsIp addr
unfolding parse_proto_ip
parse_proto_ip_iff addr = (λ (ip, h). parsed_value addr.value ip h, value_parses addr.value)

abbrev pub Reads : Option (IpAddr × ℕ) → Type 0 → Type 0
Reads none W = ¬ W
Reads (some (ip, prefix)) W = (prefix ≤ host_prefix ip) ↔ W

value-Reads :
    (v : Option IpValue) (prefix : ℕ)
    → Reads
        (elim (parse_value v) [ none ↦ none | some ip ↦ some (ip, prefix) ])
        (IsIpValue v × FitsPrefix v prefix)
value-Reads none prefix = λ h. h.0
value-Reads (some (IpValue.v4 bytes)) prefix = elim (Bool-cases (length bytes == 4)) [
  | inl e ↦ rw e (λ h. ((==_iff _ _).0 e, h), λ h. h.1)
  | inr e ↦ rw e (λ h. ground arith)
]
value-Reads (some (IpValue.v6 bytes)) prefix = elim (Bool-cases (length bytes == 16)) [
  | inl e ↦ rw e (λ h. ((==_iff _ _).0 e, h), λ h. h.1)
  | inr e ↦ rw e (λ h. ground arith)
]

cidr-Reads : (o : Option Ip) (prefix : ℕ) → Reads (parse_cidr_ip o prefix) (IsCidrOf o prefix)
unfolding parse_proto_ip
cidr-Reads none prefix = λ h. h
cidr-Reads (some ip) prefix = value-Reads ip.value prefix

-- A CIDR that does not parse is no network; one that does is a network exactly if its prefix is in the family's range.
pub parse_proto_cidr-Reads : (addr : Cidr) → Reads (parse_proto_cidr addr) (IsCidr addr)
unfolding parse_proto_cidr
parse_proto_cidr-Reads addr = cidr-Reads addr.ip addr.prefix
