-- ===== src/Validation/Config.antt =====
-- What the check of a whole configuration accepts.
use wg_kotlin.Base.{
  ◌≤◌, ◌≡◌, refl, ap, ◌≢◌, ◌↔◌, ◌⊎◌, inl, inr, true, false, List, [], arith, if◌then◌else◌,
  Bool-cases, length, is_empty, is_empty_iff, All, ok,
}
use wg_kotlin.Base.Int.{ℤ, pos, negsuc, is_zero}
use wg_kotlin.Protocol.{Cidr, IsCidr, TunSessionConfig}
use wg_kotlin.Validation.{
  Os, Field, dns_or_default, validate_config, validate_non_empty, validate_max_count,
  validate_mtu_for_addresses, Check,
}
use wg_kotlin.Validation.Name.{IsInterfaceName, validate_interface_name_iff}
use wg_kotlin.Validation.Networks.{FitsMtu, validate_cidr_list_iff, validate_mtu_for_addresses_iff}
use wg_kotlin.Validation.Dns.{IsDns, validate_dns_iff}

-- A configuration that the daemon serves. An MTU of 0 leaves the choice to the system.
pub record IsConfig (os : Os) (config : TunSessionConfig) : Type 0 where
  pub name : IsInterfaceName os config.interface_name
  pub some_address : config.addresses ≢ []
  pub addresses : All IsCidr config.addresses
  pub address_count : length config.addresses ≤ 64
  pub routes : All IsCidr config.peer_allowed_ips
  pub route_count : length config.peer_allowed_ips ≤ 256
  pub mtu : (config.mtu ≡ pos 0) ⊎ FitsMtu config.mtu config.addresses
  pub dns : IsDns (dns_or_default config.dns)

mtu_check : ℤ → List Cidr → Check
mtu_check mtu networks = if is_zero mtu then ok tt else validate_mtu_for_addresses mtu networks

mtu_iff :
    (mtu : ℤ) (networks : List Cidr)
    → (mtu_check mtu networks ≡ ok tt) ↔ ((mtu ≡ pos 0) ⊎ FitsMtu mtu networks)
unfolding mtu_check
mtu_iff mtu networks = elim (Bool-cases (is_zero mtu)) [
  | inl z ↦ rw z (λ e. inl (zero_mtu mtu z), λ h. refl)
  | inr n ↦ rw n (λ e. inr ((validate_mtu_for_addresses_iff mtu networks).0 e), λ h. nonzero h n)
]
  where
    zero_mtu : (m : ℤ) → is_zero m ≡ true → m ≡ pos 0
    zero_mtu (pos z) e = ground arith
    zero_mtu (negsuc z) e = cc

    nonzero :
        ((mtu ≡ pos 0) ⊎ FitsMtu mtu networks)
        → is_zero mtu ≡ false
        → validate_mtu_for_addresses mtu networks ≡ ok tt
    nonzero (inl e) n = absurd (ground (arith, ap is_zero e))
    nonzero (inr h) n = (validate_mtu_for_addresses_iff mtu networks).1 h

-- The validator accepts exactly these configurations: a well-formed interface name; at least one
-- address; addresses and routes that are networks, at most 64 and 256 of them; an MTU of 0, or one
-- of 576 to 65535 that is at least 1280 beside an IPv6 address; and well-formed DNS settings.
pub validate_config_iff :
    (os : Os) (config : TunSessionConfig) → (validate_config os config ≡ ok tt) ↔ IsConfig os config
unfolding validate_config validate_non_empty validate_max_count mtu_check
validate_config_iff os config = (
  λ e. record {
    name = (validate_interface_name_iff os config.interface_name).0 (ground arith);
    some_address = λ n. ground (arith, (is_empty_iff config.addresses).1 n);
    addresses = (validate_cidr_list_iff Field.addresses config.addresses).0 (ground arith);
    address_count = ground arith;
    routes =
        (validate_cidr_list_iff Field.peer_allowed_ips config.peer_allowed_ips).0 (ground arith);
    route_count = ground arith;
    mtu = (mtu_iff config.mtu config.addresses).0 (ground arith);
    dns = (validate_dns_iff (dns_or_default config.dns)).0 (ground arith);
  },
  λ h. ground (
    arith,
    (validate_interface_name_iff os config.interface_name).1 h.name,
    λ (e : is_empty config.addresses ≡ true). h.some_address ((is_empty_iff config.addresses).0 e),
    (validate_cidr_list_iff Field.addresses config.addresses).1 h.addresses,
    h.address_count,
    (validate_cidr_list_iff Field.peer_allowed_ips config.peer_allowed_ips).1 h.routes,
    h.route_count,
    (mtu_iff config.mtu config.addresses).1 h.mtu,
    (validate_dns_iff (dns_or_default config.dns)).1 h.dns,
  ),
)
