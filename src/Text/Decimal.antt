-- ===== src/Text/Decimal.antt =====
-- `parse::<u32>()` against the value of a digit string.
use wg_kotlin.Base.{
  ℕ, zero, suc, ◌+◌, ◌-◌, ◌*◌, ◌/◌, ◌%◌, ◌^◌, ◌≤◌, ◌<◌, ◌≡◌, refl, sym, ap, ◌∙◌, subst, inl, inr,
  true, none, some, [], ◌∷◌, arith, ltb, leb, if◌then◌else◌, Bool-cases, All,
}
use wg_kotlin.Text.{Str, is_ascii_digit, parse_digits, parse_number, parse_u32, u32_max}

-- The number that the digits stand for, behind those of `acc`.
abbrev pub value_from : ℕ → Str → ℕ
value_from acc [] = acc
value_from acc (c ∷ s) = value_from (acc * 10 + (c - b'0')) s

abbrev pub value : Str → ℕ
value = value_from 0

abbrev pub Digits : Str → Type 0
Digits = All (λ c. is_ascii_digit c ≡ true)

value_from-ge : (acc : ℕ) (s : Str) → acc ≤ value_from acc s
value_from-ge acc [] = omega arith
value_from-ge acc (c ∷ s) = omega (arith, value_from-ge (acc * 10 + (c - b'0')) s)

parse_digits_lem :
    (largest acc : ℕ) (s : Str)
    → acc ≤ largest
    → Digits s
    → parse_digits largest acc s
      ≡ (if leb (value_from acc s) largest then some (value_from acc s) else none)
unfolding parse_digits
parse_digits_lem largest acc [] h ds = ground arith
parse_digits_lem largest acc (c ∷ s) h ds = ground (
  arith,
  value_from-ge (acc * 10 + (c - b'0')) s,
  parse_digits_lem largest (acc * 10 + (c - b'0')) s,
)

-- A non-empty digit string parses to its value if that fits the type, and to nothing otherwise.
pub parse_number-value :
    (largest c : ℕ) (s : Str)
    → Digits (c ∷ s)
    → parse_number largest (c ∷ s)
      ≡ (if leb (value (c ∷ s)) largest then some (value (c ∷ s)) else none)
unfolding parse_number
parse_number-value largest c s ds = ground (arith, parse_digits_lem largest 0 (c ∷ s))

pub parse_u32-value :
    (c : ℕ) (s : Str)
    → Digits (c ∷ s)
    → parse_u32 (c ∷ s) ≡ (if leb (value (c ∷ s)) u32_max then some (value (c ∷ s)) else none)
parse_u32-value c s ds = parse_number-value u32_max c s ds

-- `{n}` for a number: its decimal digits. With 20 of them every `u64` is written.
unfoldable pub digits_from : (fuel : ℕ) → Str → ℕ → Str
digits_from zero acc n = acc
digits_from (suc fuel) acc n =
    let rest = digits_from fuel ((b'0' + n % 10) ∷ acc) (n / 10) in
    if ltb n 10 then (b'0' + n) ∷ acc else rest

unfoldable pub decimal : ℕ → Str
unfolding digits_from
decimal n = digits_from 20 [] n

-- The digits that are written before those of `acc` stand for the number.
digits_from_lem :
    (fuel : ℕ) (acc : Str) (n : ℕ)
    → n < 10 ^ fuel
    → value_from 0 (digits_from fuel acc n) ≡ value_from n acc
unfolding digits_from
digits_from_lem zero acc n h = let e : n ≡ 0 = omega arith in rw e refl
digits_from_lem (suc fuel) acc n h = elim (Bool-cases (ltb n 10)) [
  | inl small ↦ rw small (ap (λ k. value_from k acc) (omega arith))
  | inr large ↦ rw large (
      digits_from_lem fuel ((b'0' + n % 10) ∷ acc) (n / 10) (omega arith)
      ∙ ap (λ k. value_from k acc) (omega arith))
]

-- A `u64` is the value of the digits with which it is written.
pub value-decimal : (n : ℕ) → n < 2 ^ 64 → value (decimal n) ≡ n
unfolding decimal
value-decimal n h = digits_from_lem 20 [] n (omega arith)

digits_from-Digits : (fuel : ℕ) (acc : Str) (n : ℕ) → Digits acc → Digits (digits_from fuel acc n)
unfolding digits_from
digits_from-Digits zero acc n ds = ds
digits_from-Digits (suc fuel) acc n ds = elim (Bool-cases (ltb n 10)) [
  | inl small ↦ rw small (ground (arith, small), ds)
  | inr large ↦
      rw large (digits_from-Digits fuel ((b'0' + n % 10) ∷ acc) (n / 10) (ground arith, ds))
]

pub decimal-Digits : (n : ℕ) → Digits (decimal n)
unfolding decimal
decimal-Digits n = digits_from-Digits 20 [] n tt

pub decimal-injective : (m n : ℕ) → m < 2 ^ 64 → n < 2 ^ 64 → decimal m ≡ decimal n → m ≡ n
decimal-injective m n hm hn e = sym (value-decimal m hm) ∙ ap value e ∙ value-decimal n hn

digits_from-cons :
    (fuel d : ℕ) (acc : Str) (n : ℕ) → (c : ℕ) × (s : Str) × (digits_from fuel (d ∷ acc) n ≡ c ∷ s)
unfolding digits_from
digits_from-cons zero d acc n = (d, acc, refl)
digits_from-cons (suc fuel) d acc n = elim (Bool-cases (ltb n 10)) [
  | inl small ↦ (b'0' + n, d ∷ acc, rw small refl)
  | inr large ↦
      let (c, s, e) = digits_from-cons fuel (b'0' + n % 10) (d ∷ acc) (n / 10) in
      (c, s, rw (large, e) refl)
]

pub decimal-cons : (n : ℕ) → (c : ℕ) × (s : Str) × (decimal n ≡ c ∷ s)
unfolding decimal digits_from
decimal-cons n = elim (Bool-cases (ltb n 10)) [
  | inl small ↦ (b'0' + n, [], rw small refl)
  | inr large ↦
      let (c, s, e) = digits_from-cons 19 (b'0' + n % 10) [] (n / 10) in (c, s, rw (large, e) refl)
]

-- A number that fits the type is read back from its digits.
pub parse_number-decimal :
    (largest n : ℕ) → n ≤ largest → n < 2 ^ 64 → parse_number largest (decimal n) ≡ some n
parse_number-decimal largest n small h =
    let (c, s, e) = decimal-cons n in
    let v : value (c ∷ s) ≡ n = ap value (sym e) ∙ value-decimal n h in
    rw e (
      parse_number-value largest c s (subst Digits e (decimal-Digits n)) ∙ ground (arith, v, small))
