-- ===== src/Tests/Configs.antt =====
-- Configurations.
use wg_kotlin.Base.{ℕ, ◌≡◌, refl, ◌↔◌, some, List, [], ◌∷◌, ok}
use wg_kotlin.Base.Int.{pos}
use wg_kotlin.Text.{Str, codes, strip_prefix, trim, split, as_bytes, len}
use wg_kotlin.Protocol.{
  Ip, IpValue, IpAddr, Cidr, DnsConfig, TunSessionConfig, parse_proto_ip, parse_proto_cidr,
}
use wg_kotlin.Validation.{
  linux, validate_config, validate_interface_name, validate_non_empty, validate_max_count,
  validate_cidr_list, validate_cidrs_from, validate_mtu_for_addresses, validate_dns,
  validate_domains_from, validate_servers_from, validate_max_length, is_valid_hostname,
}
use wg_kotlin.Validation.Config.{IsConfig, validate_config_iff}

abbrev ip : (a b c d : ℕ) → Ip
ip a b c d = record { value = some (IpValue.v4 (a ∷ b ∷ c ∷ d ∷ [])) }

abbrev cidr : (a b c d prefix : ℕ) → Cidr
cidr a b c d prefix = record { ip = some (ip a b c d); prefix = prefix }

abbrev home_dns : DnsConfig
home_dns = record {
  servers = ip 10 0 0 1 ∷ ip 10 0 0 1 ∷ [];
  search_domains = codes ".corp.example" ∷ codes "corp.example" ∷ [];
}

abbrev pub home : TunSessionConfig
home = record {
  interface_name = codes "utun7";
  mtu = pos 1420;
  addresses = cidr 10 0 0 2 24 ∷ [];
  peer_allowed_ips = cidr 0 0 0 0 0 ∷ cidr 192 0 2 1 32 ∷ [];
  peer_endpoints = ip 192 0 2 1 ∷ [];
  dns = some home_dns;
}

pub home-accepted : validate_config linux home ≡ ok tt
unfolding validate_config validate_interface_name validate_non_empty validate_max_count
    validate_cidr_list validate_cidrs_from validate_mtu_for_addresses validate_dns
    validate_domains_from validate_servers_from validate_max_length is_valid_hostname parse_proto_ip
    parse_proto_cidr strip_prefix trim split len as_bytes
home-accepted = refl

pub home-IsConfig : IsConfig linux home
home-IsConfig = (validate_config_iff linux home).0 home-accepted

validate_config_iff_example : (validate_config linux home ≡ ok tt) ↔ IsConfig linux home
validate_config_iff_example = validate_config_iff linux home

abbrev bad_cidrs : List Cidr
bad_cidrs = cidr 10 0 0 2 24 ∷ cidr 10 0 0 3 33 ∷ []

abbrev pub show_ip : IpAddr → Str
show_ip (IpAddr.v4 octets) = octets
show_ip (IpAddr.v6 octets) = octets
