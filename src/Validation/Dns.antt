-- ===== src/Validation/Dns.antt =====
-- What the check of the DNS settings accepts.
use wg_kotlin.Base.{
  ℕ, suc, ◌≤◌, ◌≡◌, refl, ◌↔◌, inl, inr, true, false, List, [], ◌∷◌, arith, Option-cases, length,
  is_empty, is_empty_iff, All, ok,
}
use wg_kotlin.Text.{Str, len}
use wg_kotlin.Protocol.{Ip, IsIp, DnsConfig, parse_proto_ip, parse_proto_ip_iff}
use wg_kotlin.Validation.{
  trimmed_domain, validate_domains_from, validate_servers_from, validate_max_length, server_check,
  validate_dns, is_valid_hostname,
}
use wg_kotlin.Validation.Hostname.{IsHostname, is_valid_hostname_iff}

-- At most 253 bytes, and a host name once white space at both ends and then leading dots are gone.
abbrev pub IsSearchDomain : Str → Type 0
IsSearchDomain domain = (len domain ≤ 253) × IsHostname (trimmed_domain domain)

-- At most 64 search domains and at most 64 servers, both given or neither.
pub record IsDns (dns : DnsConfig) : Type 0 where
  pub server_count : length dns.servers ≤ 64
  pub domain_count : length dns.search_domains ≤ 64
  pub paired : (dns.servers ≡ []) ↔ (dns.search_domains ≡ [])
  pub domains : All IsSearchDomain dns.search_domains
  pub servers : All IsIp dns.servers

nonempty_hostname : (d : Str) → is_valid_hostname d ≡ true → is_empty d ≡ false
unfolding is_valid_hostname
nonempty_hostname [] e = cc
nonempty_hostname (c ∷ s) e = refl

domains_iff :
    (idx : ℕ) (domains : List Str)
    → (validate_domains_from idx domains ≡ ok tt) ↔ All IsSearchDomain domains
unfolding validate_domains_from validate_max_length
domains_iff idx [] = (λ e. tt, λ h. refl)
domains_iff idx (domain ∷ domains) = (
  λ e.
      ground (
        arith,
        (is_valid_hostname_iff (trimmed_domain domain)).0,
        (domains_iff (suc idx) domains).0,
      ),
  λ h.
      let valid = (is_valid_hostname_iff (trimmed_domain domain)).1 h.0.1 in
      ground (
        arith,
        nonempty_hostname (trimmed_domain domain) valid,
        (domains_iff (suc idx) domains).1 h.1,
      ),
)

server_iff :
    (idx : ℕ) (server : Ip) → (server_check idx (parse_proto_ip server) ≡ ok tt) ↔ IsIp server
server_iff idx server = elim (Option-cases (parse_proto_ip server)) [
  | inl e ↦ rw e (λ h. cc, λ h. let found = (parse_proto_ip_iff server).1 h in cc (found.1))
  | inr (ip, e) ↦ rw e (λ h. (parse_proto_ip_iff server).0 (ip, e), λ h. refl)
]

servers_iff :
    (idx : ℕ) (servers : List Ip) → (validate_servers_from idx servers ≡ ok tt) ↔ All IsIp servers
unfolding validate_servers_from
servers_iff idx [] = (λ e. tt, λ h. refl)
servers_iff idx (server ∷ servers) = (
  λ e. ground (arith, (server_iff idx server).0, (servers_iff (suc idx) servers).0),
  λ h. ground (arith, (server_iff idx server).1 h.0, (servers_iff (suc idx) servers).1 h.1),
)

-- The check passes exactly the settings with at most 64 servers, all well-formed addresses, and at
-- most 64 search domains, all host names once trimmed, either both given or neither.
pub validate_dns_iff : (dns : DnsConfig) → (validate_dns dns ≡ ok tt) ↔ IsDns dns
unfolding validate_dns
validate_dns_iff dns = (
  λ e. record {
    server_count = ground arith;
    domain_count = ground arith;
    paired = (
      λ n. ground (arith, (is_empty_iff dns.servers).1, (is_empty_iff dns.search_domains).0),
      λ n. ground (arith, (is_empty_iff dns.servers).0, (is_empty_iff dns.search_domains).1),
    );
    domains = (domains_iff 0 dns.search_domains).0 (ground arith);
    servers = (servers_iff 0 dns.servers).0 (ground arith);
  },
  λ h. complete h,
)
  where
    complete : IsDns dns → validate_dns dns ≡ ok tt
    complete h = ground (
      arith,
      (domains_iff 0 dns.search_domains).1 h.domains,
      (servers_iff 0 dns.servers).1 h.servers,
      (is_empty_iff dns.servers).0,
      (is_empty_iff dns.search_domains).0,
      (is_empty_iff dns.servers).1,
      (is_empty_iff dns.search_domains).1,
      h.paired.0,
      h.paired.1,
      h.server_count,
      h.domain_count,
    )
