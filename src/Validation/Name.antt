-- ===== src/Validation/Name.antt =====
-- Which interface names pass.
use wg_kotlin.Base.{
  ℕ, ◌≤◌, ◌<◌, ◌≡◌, refl, ◌≢◌, ◌↔◌, inl, inr, true, some, [], ◌∷◌, ◌++◌, arith, Option-cases, all,
  all_iff, ok,
}
use wg_kotlin.Text.{Str, len, strip_prefix, is_ascii_digit, u32_max}
use wg_kotlin.Text.Laws.{strip_prefix_iff}
use wg_kotlin.Text.Decimal.{Digits, value, parse_u32-value}
use wg_kotlin.Validation.{
  Os, linux, macos, windows, utun, named_check, suffix_check, validate_interface_name,
}

-- `utun` and a number, in at most 15 bytes. macOS needs the number below 2^32 - 1.
pub record IsInterfaceName (os : Os) (name : Str) : Type 0 where
  pub short : len name ≤ 15
  pub suffix : Str
  pub shape : name ≡ utun ++ suffix
  pub some_digit : suffix ≢ []
  pub digits : Digits suffix
  pub index : os ≡ macos → value suffix < u32_max

Digits-iff : (s : Str) → (all is_ascii_digit s ≡ true) ↔ Digits s
Digits-iff s = all_iff (λ c. is_ascii_digit c ≡ true) is_ascii_digit (λ c. (λ e. e, λ e. e)) s

suffix_iff :
    (os : Os) (c : ℕ) (s : Str)
    → Digits (c ∷ s)
    → (suffix_check os (c ∷ s) ≡ ok tt) ↔ (os ≡ macos → value (c ∷ s) < u32_max)
suffix_iff linux c s ds = (λ e. λ h. cc, λ h. refl)
suffix_iff windows c s ds = (λ e. λ h. cc, λ h. refl)
suffix_iff macos c s ds = (
  λ e h. ground (arith, parse_u32-value c s ds),
  λ h. ground (arith, parse_u32-value c s ds, h refl),
)

named_iff :
    (os : Os) (suffix : Str)
    → (named_check os (some suffix) ≡ ok tt)
      ↔ ((suffix ≢ []) × Digits suffix × (os ≡ macos → value suffix < u32_max))
named_iff os [] = (λ e. cc, λ h. absurd (h.0 refl))
named_iff os (c ∷ s) = (
  λ e. (λ h. cc, digits e, (suffix_iff os c s (digits e)).0 (ground arith)),
  λ (n, ds, h). ground (arith, (Digits-iff (c ∷ s)).1 ds, (suffix_iff os c s ds).1 h),
)
  where
    digits : named_check os (some (c ∷ s)) ≡ ok tt → Digits (c ∷ s)
    digits e = (Digits-iff (c ∷ s)).0 (ground arith)

accepted :
    (os : Os) (name : Str) → validate_interface_name os name ≡ ok tt → IsInterfaceName os name
unfolding validate_interface_name
accepted os name e = elim (Option-cases (strip_prefix utun name)) [
  | inl missing ↦ ground arith
  | inr (suffix, found) ↦
      let parts = (named_iff os suffix).0 (ground arith) in
      record {
        short = ground arith;
        suffix = suffix;
        shape = (strip_prefix_iff utun name suffix).0 found;
        some_digit = parts.0;
        digits = parts.1;
        index = parts.2;
      }
]

-- A name passes the check exactly if it is `utun` and at least one digit in at most 15 bytes and,
-- on macOS, its number is below 2^32 - 1.
pub validate_interface_name_iff :
    (os : Os) (name : Str) → (validate_interface_name os name ≡ ok tt) ↔ IsInterfaceName os name
unfolding validate_interface_name
validate_interface_name_iff os name = (
  accepted os name,
  λ h.
      let found = (strip_prefix_iff utun name h.suffix).1 h.shape in
      let passed = (named_iff os h.suffix).1 (h.some_digit, h.digits, h.index) in
      rw (found, validate_interface_name) (ground (arith, h.short)),
)
