-- ===== src/Validation.antt =====
-- wg-kotlin-daemon-rust/daemon/src/validation.rs: the checks of a session's configuration, in the
-- order in which they run. A message text is a constructor with the values that the text shows.
pub mod Name
pub mod Hostname
pub mod Networks
pub mod Dns
pub mod Config
use wg_kotlin.Base.{
  ℕ, zero, suc, ◌+◌, ◌-◌, ◌*◌, ◌/◌, ◌%◌, ◌^◌, ◌≤◌, ◌<◌, min, max, String, ◌≡◌, refl, sym, ap, ◌∙◌,
  subst, ◌≢◌, ◌↔◌, ◌⊎◌, inl, inr, Bool, true, false, not, ◌&&◌, ◌||◌, Option, none, some, List, [],
  ◌∷◌, ◌++◌, map, reverse, append-nil, append_assoc, reverse-append, reverse-reverse, arith, ltb,
  leb, ◌==◌, if◌then◌else◌, ltb→lt, lt→ltb, leb→le, ==_iff, tests, Bool-cases, Option-cases,
  and_iff, length, take, drop, replicate, all, any, keep, is_empty, length-append, length-take,
  length-keep-le, take-append, drop-append, All, All-append, All-left, All-right, All-reverse,
  all_iff, Result, ok, err, ◌>>=◌, ◌>>◌, ok_or, map_err, Result-cases,
}
use wg_kotlin.Base.Int.{ℤ, at_least, at_most, is_zero}
use wg_kotlin.Text.{
  Str, codes, len, as_bytes, strip_prefix, trim, trim_start_matches, split, is_ascii_digit,
  is_ascii_alphanumeric, parse_u32, u32_max,
}
use wg_kotlin.Protocol.{
  Ip, Cidr, DnsConfig, TunSessionConfig, IpAddr, is_ipv4, is_ipv6, parse_proto_ip, parse_proto_cidr,
}

-- `target_os`: the code compiles differently on each.
pub data Os : Type 0 where
  linux macos windows : Os

abbrev pub min_mtu : ℕ
min_mtu = 576

abbrev pub min_ipv6_mtu : ℕ
min_ipv6_mtu = 1280

abbrev pub max_mtu : ℕ
max_mtu = 65535

abbrev pub max_dns_servers : ℕ
max_dns_servers = 64

abbrev pub max_dns_domains : ℕ
max_dns_domains = 64

abbrev pub max_addresses : ℕ
max_addresses = 64

abbrev pub max_routes : ℕ
max_routes = 256

abbrev pub max_interface_name_length : ℕ
max_interface_name_length = 15

abbrev pub max_domain_length : ℕ
max_domain_length = 253

-- The `field_name` of a message.
pub data Field : Type 0 where
  addresses peer_allowed_ips dns_servers dns_search_domains : Field

pub data Rejection : Type 0 where
  name_form name_index mtu_range mtu_ipv6 dns_pairing : Rejection
  empty_list : Field → Rejection
  too_many : Field → (max count : ℕ) → Rejection
  bad_ip : Field → (index : ℕ) → Rejection
  bad_prefix : Field → (index max : ℕ) → Rejection
  domain_too_long bad_domain bad_server : (index : ℕ) → Rejection

abbrev pub Check : Type 0
Check = Result Rejection (Unit {0})

abbrev pub utun : Str
utun = codes "utun"

-- The index that macOS stores one up in 32 bits.
abbrev pub index_check : Option ℕ → Check
index_check none = err name_index
index_check (some index) = if ltb index u32_max then ok tt else err name_index

abbrev suffix_check : Os → Str → Check
suffix_check macos suffix = index_check (parse_u32 suffix)
suffix_check linux suffix = ok tt
suffix_check windows suffix = ok tt

abbrev named_check : Os → Option Str → Check
named_check os none = err name_form
named_check os (some suffix) =
    if is_empty suffix || not (all is_ascii_digit suffix)
    then err name_form
    else suffix_check os suffix

unfoldable pub validate_interface_name : Os → Str → Check
validate_interface_name os interface_name =
    if ltb max_interface_name_length (len interface_name)
    then err name_form
    else named_check os (strip_prefix utun interface_name)

unfoldable pub validate_non_empty : Field → List Cidr → Check
validate_non_empty field values = if is_empty values then err (empty_list field) else ok tt

unfoldable pub validate_max_count : Field → ℕ → ℕ → Check
validate_max_count field count max = if ltb max count then err (too_many field max count) else ok tt

abbrev max_prefix : IpAddr → ℕ
max_prefix ip = if is_ipv4 ip then 32 else 128

abbrev cidr_check : Field → ℕ → Option (IpAddr × ℕ) → Check
cidr_check field idx none = err (bad_ip field idx)
cidr_check field idx (some (ip, prefix)) =
    if ltb (max_prefix ip) prefix then err (bad_prefix field idx (max_prefix ip)) else ok tt

-- The loop over `values.iter().enumerate()` from an index on.
unfoldable pub validate_cidrs_from : Field → ℕ → List Cidr → Check
validate_cidrs_from field idx [] = ok tt
validate_cidrs_from field idx (addr ∷ values) =
    cidr_check field idx (parse_proto_cidr addr) >> validate_cidrs_from field (suc idx) values

unfoldable pub validate_cidr_list : Field → List Cidr → Check
unfolding validate_cidrs_from
validate_cidr_list field values = validate_cidrs_from field 0 values

abbrev pub is_v6_cidr : Cidr → Bool
is_v6_cidr addr = elim (parse_proto_cidr addr) [ none ↦ false | some (ip, prefix) ↦ is_ipv6 ip ]

unfoldable pub validate_mtu_for_addresses : ℤ → List Cidr → Check
validate_mtu_for_addresses mtu networks =
    if not (at_least min_mtu mtu && at_most max_mtu mtu)
    then err mtu_range
    else if any is_v6_cidr networks && not (at_least min_ipv6_mtu mtu)
    then err mtu_ipv6
    else ok tt

abbrev pub hyphen : ℕ
hyphen = b'-'

abbrev pub first_is : ℕ → List ℕ → Bool
first_is d [] = false
first_is d (b ∷ bytes) = b == d

abbrev pub last_is : ℕ → List ℕ → Bool
last_is d [] = false
last_is d (b ∷ []) = b == d
last_is d (b ∷ c ∷ bytes) = last_is d (c ∷ bytes)

-- The body of the loop over the labels.
abbrev pub is_valid_label : Str → Bool
is_valid_label label =
    not (is_empty label || ltb 63 (len label))
    && not (first_is hyphen (as_bytes label) || last_is hyphen (as_bytes label))
    && all (λ b. is_ascii_alphanumeric b || b == hyphen) (as_bytes label)

unfoldable pub is_valid_hostname : Str → Bool
is_valid_hostname domain =
    if is_empty domain || ltb max_domain_length (len domain)
    then false
    else all is_valid_label (split b'.' domain)

unfoldable pub validate_max_length : ℕ → Str → ℕ → Check
validate_max_length idx value max = if ltb max (len value) then err (domain_too_long idx) else ok tt

-- `domain.trim().trim_start_matches('.')`
abbrev pub trimmed_domain : Str → Str
trimmed_domain domain = trim_start_matches b'.' (trim domain)

unfoldable pub validate_domains_from : ℕ → List Str → Check
validate_domains_from idx [] = ok tt
validate_domains_from idx (domain ∷ domains) =
    validate_max_length idx domain max_domain_length
    >> (if is_empty (trimmed_domain domain) || not (is_valid_hostname (trimmed_domain domain))
        then err (bad_domain idx)
        else ok tt)
    >> validate_domains_from (suc idx) domains

abbrev server_check : ℕ → Option IpAddr → Check
server_check idx none = err (bad_server idx)
server_check idx (some ip) = ok tt

unfoldable pub validate_servers_from : ℕ → List Ip → Check
validate_servers_from idx [] = ok tt
validate_servers_from idx (server ∷ servers) =
    server_check idx (parse_proto_ip server) >> validate_servers_from (suc idx) servers

unfoldable pub validate_dns : DnsConfig → Check
unfolding validate_domains_from validate_servers_from validate_max_count
validate_dns dns =
    validate_max_count dns_servers (length dns.servers) max_dns_servers
    >> validate_max_count dns_search_domains (length dns.search_domains) max_dns_domains
    >> (if (is_empty dns.search_domains && not (is_empty dns.servers))
          || (not (is_empty dns.search_domains) && is_empty dns.servers)
        then err dns_pairing
        else ok tt)
    >> validate_domains_from 0 dns.search_domains
    >> validate_servers_from 0 dns.servers

-- `config.dns.as_ref().unwrap_or(&DnsConfig::default())`
abbrev pub dns_or_default : Option DnsConfig → DnsConfig
dns_or_default none = record { servers = []; search_domains = [] }
dns_or_default (some dns) = dns

unfoldable pub validate_config : Os → TunSessionConfig → Check
validate_config os config =
    validate_interface_name os config.interface_name
    >> validate_non_empty addresses config.addresses
    >> validate_cidr_list addresses config.addresses
    >> validate_max_count addresses (length config.addresses) max_addresses
    >> validate_cidr_list peer_allowed_ips config.peer_allowed_ips
    >> validate_max_count peer_allowed_ips (length config.peer_allowed_ips) max_routes
    >> (if is_zero config.mtu
        then ok tt
        else validate_mtu_for_addresses config.mtu config.addresses)
    >> validate_dns (dns_or_default config.dns)
