-- ===== src/Validation/Networks.antt =====
-- What the checks of the address lists and of the MTU accept, and which entry they blame.
use wg_kotlin.Base.{
  ℕ, suc, ◌≤◌, ◌≡◌, refl, ◌↔◌, ◌⊎◌, inl, inr, Bool, true, false, Option, none, some, List, [], ◌∷◌,
  arith, leb, leb→le, Bool-cases, length, any, All, ok, err,
}
use wg_kotlin.Base.Int.{ℤ, pos, negsuc}
use wg_kotlin.Protocol.{
  is_ipv6, Ip, IpValue, v4, v6, parse_value, parse_cidr_ip, parse_proto_ip, Cidr, IpAddr,
  host_prefix, parse_proto_cidr, parse_proto_cidr-Reads, IsCidr, Reads,
}
use wg_kotlin.Validation.{
  Field, Rejection, bad_ip, bad_prefix, cidr_check, validate_cidrs_from, validate_cidr_list,
  validate_mtu_for_addresses, is_v6_cidr,
}

-- The position of the first entry that is no network, and that entry.
abbrev pub FirstBad : ℕ → List Cidr → ℕ → Type 0
FirstBad idx [] n = ⊥
FirstBad idx (addr ∷ values) n =
    ((n ≡ idx) × (¬ IsCidr addr)) ⊎ (IsCidr addr × FirstBad (suc idx) values n)

abbrev pub Blames : Field → Rejection → ℕ → Type 0
Blames field r n = (r ≡ bad_ip field n) ⊎ ((m : ℕ) × (r ≡ bad_prefix field n m))

entry :
    (field : Field) (idx : ℕ) (addr : Cidr)
    → ((cidr_check field idx (parse_proto_cidr addr) ≡ ok tt) × IsCidr addr)
      ⊎ ((r : Rejection) × (cidr_check field idx (parse_proto_cidr addr) ≡ err r)
          × Blames field r idx
          × (¬ IsCidr addr))
entry field idx addr = go (parse_proto_cidr addr) (parse_proto_cidr-Reads addr)
  where
    go :
        (o : Option (IpAddr × ℕ))
        → Reads o (IsCidr addr)
        → ((cidr_check field idx o ≡ ok tt) × IsCidr addr)
          ⊎ ((r : Rejection) × (cidr_check field idx o ≡ err r)
              × Blames field r idx
              × (¬ IsCidr addr))
    go none no_ip = inr (bad_ip field idx, refl, inl refl, no_ip)
    go (some (ip, prefix)) fits = elim (Bool-cases (leb prefix (host_prefix ip))) [
      | inl e ↦ inl (ground arith, fits.0 (leb→le _ _ e))
      | inr e ↦ inr (
        bad_prefix field idx (host_prefix ip),
        ground arith,
        inr (host_prefix ip, refl),
        λ h. let le = fits.1 h in ground arith,
      )
    ]

-- The two outcomes of the list check: every entry is a network, or the first that is none is blamed.
pub validate_cidrs_from_lem :
    (field : Field) (idx : ℕ) (values : List Cidr)
    → ((validate_cidrs_from field idx values ≡ ok tt) × All IsCidr values)
      ⊎ ((r : Rejection) × (n : ℕ) × (validate_cidrs_from field idx values ≡ err r)
          × Blames field r n
          × FirstBad idx values n)
unfolding validate_cidrs_from
validate_cidrs_from_lem field idx [] = inl (refl, tt)
validate_cidrs_from_lem field idx (addr ∷ values) = elim (entry field idx addr) [
  | inr (r, e, blames, bad) ↦ inr (r, idx, rw e, blames, inl (refl, bad))
  | inl (e, good) ↦ elim (validate_cidrs_from_lem field (suc idx) values) [
    | inl (e', rest) ↦ inl (rw e e', (good, rest))
    | inr (r, n, e', blames, first) ↦ inr (r, n, rw e e', blames, inr (good, first))
  ]
]

FirstBad-not_All :
    (idx : ℕ) (values : List Cidr) (n : ℕ) → FirstBad idx values n → ¬ All IsCidr values
FirstBad-not_All idx [] n bad h = bad
FirstBad-not_All idx (addr ∷ values) n (inl b) h = b.1 h.0
FirstBad-not_All idx (addr ∷ values) n (inr b) h = FirstBad-not_All (suc idx) values n b.1 h.1

pub validate_cidr_list_iff :
    (field : Field) (values : List Cidr)
    → (validate_cidr_list field values ≡ ok tt) ↔ All IsCidr values
unfolding validate_cidr_list
validate_cidr_list_iff field values = elim (validate_cidrs_from_lem field 0 values) [
  | inl (e, good) ↦ (λ _. good, λ _. e)
  | inr (r, n, e, blames, first) ↦ (λ e'. cc, λ h. absurd (FirstBad-not_All 0 values n first h))
]

-- The networks with a 16-byte address.
abbrev IsV6Value : Option IpValue → Type 0
IsV6Value (some (v6 bytes)) = length bytes ≡ 16
IsV6Value _ = ⊥

abbrev IsV6Of : Option Ip → Type 0
IsV6Of none = ⊥
IsV6Of (some ip) = IsV6Value ip.value

abbrev pub HasV6 : List Cidr → Type 0
HasV6 [] = ⊥
HasV6 (addr ∷ values) = IsV6Of addr.ip ⊎ HasV6 values

abbrev found_v6 : Option (IpAddr × ℕ) → Bool
found_v6 o = elim o [ none ↦ false | some (ip, prefix) ↦ is_ipv6 ip ]

v6_value :
    (v : Option IpValue) (n : ℕ)
    → (found_v6 (elim (parse_value v) [ none ↦ none | some ip ↦ some (ip, n) ]) ≡ true)
      ↔ IsV6Value v
v6_value none n = (λ e. cc, λ h. absurd h)
v6_value (some (v4 bytes)) n = (λ e. ground arith, λ h. absurd h)
v6_value (some (v6 bytes)) n = (λ e. ground arith, λ h. ground arith)

v6_cidr : (o : Option Ip) (n : ℕ) → (found_v6 (parse_cidr_ip o n) ≡ true) ↔ IsV6Of o
unfolding parse_proto_ip
v6_cidr none n = (λ e. cc, λ h. absurd h)
v6_cidr (some ip) n = v6_value ip.value n

any_v6 : (values : List Cidr) → (any is_v6_cidr values ≡ true) ↔ HasV6 values
unfolding parse_proto_cidr
any_v6 [] = (λ e. cc, λ h. absurd h)
any_v6 (addr ∷ values) = (
  λ e. ground (arith, (v6_cidr addr.ip addr.prefix).0, (any_v6 values).0),
  λ h. ground (arith, (v6_cidr addr.ip addr.prefix).1, (any_v6 values).1),
)

-- An MTU of 576 to 65535, and of at least 1280 beside an IPv6 address.
abbrev pub FitsMtu : ℤ → List Cidr → Type 0
FitsMtu (negsuc z) networks = ⊥
FitsMtu (pos z) networks = (576 ≤ z) × (z ≤ 65535) × (HasV6 networks → 1280 ≤ z)

pub validate_mtu_for_addresses_iff :
    (mtu : ℤ) (networks : List Cidr)
    → (validate_mtu_for_addresses mtu networks ≡ ok tt) ↔ FitsMtu mtu networks
unfolding validate_mtu_for_addresses
validate_mtu_for_addresses_iff (negsuc z) networks = (λ e. cc, λ h. absurd h)
validate_mtu_for_addresses_iff (pos z) networks = elim (Bool-cases (any is_v6_cidr networks)) [
  | inl some_v6 ↦ rw some_v6 (
    λ e. (ground arith, ground arith, λ _. ground arith),
    λ h. let six = h.2 ((any_v6 networks).0 some_v6) in ground arith,
  )
  | inr no_v6 ↦ rw no_v6 (
    λ e. (ground arith, ground arith, λ v. ground (arith, (any_v6 networks).1 v)),
    λ h. ground arith,
  )
]
