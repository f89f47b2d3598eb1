-- ===== src/MacRoutes/Address.antt =====
-- The addresses of a routing message in wg-kotlin-daemon-rust/daemon/src/platform/routes_macos.rs:
-- what makes two of them the same.
use wg_kotlin.Base.{
  ℕ, zero, suc, ◌/◌, ◌≤◌, ◌<◌, ◌≡◌, refl, ap, ◌∙◌, ◌≢◌, ◌⊎◌, inl, inr, Bool, true, false, ◌&&◌,
  Option, some, List, [], ◌∷◌, arith, ◌==◌, if◌then◌else◌, ==_iff, Bool-cases, length, drop, Result,
  ok, err, ◌>>=◌,
}
use wg_kotlin.RoutingMessage.{RouteError, af_inet, af_inet6, unsupported_family}
use wg_kotlin.RoutingMessage.Endpoint.{family_of}
use wg_kotlin.Platform.Routes.{octets_eq}
use wg_kotlin.Platform.Filter.{octets_eq_iff}

-- The first so many bytes, with zeros after the end of the list.
abbrev pub padded : ℕ → List ℕ → List ℕ
padded zero bytes = []
padded (suc n) [] = 0 ∷ padded n []
padded (suc n) (b ∷ bytes) = b ∷ padded n bytes

-- The zone that a link-local address may hold is set to 0. `b & 0xc0 == 0x80` is written for a byte.
abbrev pub without_zone : List ℕ → List ℕ
without_zone (a ∷ b ∷ c ∷ d ∷ bytes) =
    if a == 0xfe && b / 64 == 2 then a ∷ b ∷ 0 ∷ 0 ∷ bytes else a ∷ b ∷ c ∷ d ∷ bytes
without_zone bytes = bytes

unfoldable pub address_bytes : List ℕ → ℕ → Result RouteError (List ℕ)
address_bytes address family =
    if family == af_inet
    then ok (padded 4 (drop 4 address))
    else if family == af_inet6
    then ok (without_zone (padded 16 (drop 8 address)))
    else err unsupported_family

abbrev same_bytes : Result RouteError (List ℕ) → Result RouteError (List ℕ) → Result RouteError Bool
same_bytes left right = do a ← left; b ← right; ok (octets_eq a b)

abbrev same_families : List ℕ → List ℕ → Option ℕ → Option ℕ → Result RouteError Bool
unfolding address_bytes
same_families a b (some f) (some g) =
    if f == g then same_bytes (address_bytes a f) (address_bytes b g) else ok false
same_families a b _ _ = ok false

unfoldable pub same_address : List ℕ → List ℕ → Result RouteError Bool
unfolding same_families
same_address a b = same_families a b (family_of a) (family_of b)

-- An IPv6 socket address with a link-local address, by its length, port and flow bytes, second byte,
-- zone and remaining bytes.
abbrev pub link_local : (size p q r s t u b y z : ℕ) → List ℕ → List ℕ
link_local size p q r s t u b y z rest =
    size ∷ af_inet6 ∷ p ∷ q ∷ r ∷ s ∷ t ∷ u ∷ 0xfe ∷ b ∷ y ∷ z ∷ rest

octets_eq_refl : (bytes : List ℕ) → octets_eq bytes bytes ≡ true
octets_eq_refl bytes = (octets_eq_iff bytes bytes).1 refl

-- Two link-local addresses that differ in their zones, ports and flow bytes only are the same.
pub same_address-link_local :
    (size p q r s t u size' p' q' r' s' t' u' b y z y' z' : ℕ) (rest : List ℕ)
    → 128 ≤ b
    → b < 192
    → same_address
        (link_local size p q r s t u b y z rest)
        (link_local size' p' q' r' s' t' u' b y' z' rest)
      ≡ ok true
unfolding same_address same_families address_bytes
same_address-link_local size p q r s t u size' p' q' r' s' t' u' b y z y' z' rest lo hi =
    let local : b / 64 ≡ 2 = omega (arith, lo, hi) in
    rw local (ap ok (octets_eq_refl (0xfe ∷ b ∷ 0 ∷ 0 ∷ padded 12 rest)))

length-without_zone : (bytes : List ℕ) → length (without_zone bytes) ≡ length bytes
length-without_zone [] = refl
length-without_zone (a ∷ []) = refl
length-without_zone (a ∷ b ∷ []) = refl
length-without_zone (a ∷ b ∷ c ∷ []) = refl
length-without_zone (a ∷ b ∷ c ∷ d ∷ bytes) = elim (Bool-cases (a == 0xfe && b / 64 == 2)) [
  | inl e ↦ rw e refl
  | inr e ↦ rw e refl
]

pub length-padded : (n : ℕ) (bytes : List ℕ) → length (padded n bytes) ≡ n
length-padded zero bytes = refl
length-padded (suc n) [] = ap suc (length-padded n [])
length-padded (suc n) (b ∷ bytes) = ap suc (length-padded n bytes)

-- An address has 4 bytes for IPv4 and 16 for IPv6, however short its socket address is, and only
-- these families have one.
pub address_bytes_lem :
    (address : List ℕ) (family : ℕ)
    → ((bytes : List ℕ) × (address_bytes address family ≡ ok bytes)
        × (((family ≡ 2) × (length bytes ≡ 4)) ⊎ ((family ≡ 30) × (length bytes ≡ 16))))
      ⊎ ((address_bytes address family ≡ err unsupported_family) × (family ≢ 2) × (family ≢ 30))
unfolding address_bytes
address_bytes_lem address family = elim (Bool-cases (family == 2)) [
  | inl e ↦ rw e (
      inl (
        padded 4 (drop 4 address),
        refl,
        inl ((==_iff family 2).0 e, length-padded 4 (drop 4 address)),
      ))
  | inr n ↦ elim (Bool-cases (family == 30)) [
    | inl e ↦
        let bytes : List ℕ = padded 16 (drop 8 address) in
        rw (n, e)
          (inl (
            without_zone bytes,
            refl,
            inr (
              (==_iff family 30).0 e,
              length-without_zone bytes ∙ length-padded 16 (drop 8 address),
            ),
          ))
    | inr m ↦ rw (n, m) (inr (refl, (λ e. ground (arith, n, e)), (λ e. ground (arith, m, e))))
  ]
]
