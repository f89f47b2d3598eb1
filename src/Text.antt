-- ===== src/Text.antt =====
-- Rust's `str` as far as the daemon reads it: a list of Unicode scalar values, with the methods
-- `len`, `as_bytes`, `strip_prefix`, `trim`, `trim_start_matches`, `split` and `parse::<u32>()`.
pub mod Laws
pub mod Decimal
pub mod Lines
use Prim.Native.Char.{code}
use wg_kotlin.Base.{
  ℕ, ◌+◌, ◌-◌, ◌*◌, ◌/◌, ◌%◌, ◌^◌, String, Bool, true, false, ◌&&◌, ◌||◌, Option, none, some, List,
  [], ◌∷◌, ◌++◌, reverse, ltb, leb, ◌==◌, if◌then◌else◌, is_empty,
}

abbrev pub Str : Type 0
Str = List ℕ

-- A literal of the source.
abbrev pub codes : String → Str
codes String.[] = []
codes (String.◌∷◌ c s) = code c ∷ codes s

-- The UTF-8 form of a scalar value.
abbrev pub encode_char : ℕ → List ℕ
encode_char c =
    if ltb c 0x80
    then c ∷ []
    else if ltb c 0x800
    then (0xc0 + c / 64) ∷ (0x80 + c % 64) ∷ []
    else if ltb c 0x1_0000
    then (0xe0 + c / 4096) ∷ (0x80 + c / 64 % 64) ∷ (0x80 + c % 64) ∷ []
    else (0xf0 + c / 262144) ∷ (0x80 + c / 4096 % 64) ∷ (0x80 + c / 64 % 64) ∷ (0x80 + c % 64) ∷ []

unfoldable pub as_bytes : Str → List ℕ
as_bytes [] = []
as_bytes (c ∷ s) = encode_char c ++ as_bytes s

-- `str::len` counts bytes.
unfoldable pub len : Str → ℕ
len [] = 0
len (c ∷ s) =
    (if ltb c 0x80 then 1 else if ltb c 0x800 then 2 else if ltb c 0x1_0000 then 3 else 4) + len s

unfoldable pub str_eq : Str → Str → Bool
str_eq [] [] = true
str_eq (c ∷ s) (d ∷ t) = c == d && str_eq s t
str_eq _ _ = false

unfoldable pub strip_prefix : Str → Str → Option Str
strip_prefix [] s = some s
strip_prefix (p ∷ ps) [] = none
strip_prefix (p ∷ ps) (c ∷ s) = if p == c then strip_prefix ps s else none

-- Unicode's White_Space, which `trim` removes at both ends.
abbrev pub is_whitespace : ℕ → Bool
is_whitespace c =
    (leb 9 c && leb c 13)
    || c == 32
    || c == 0x85
    || c == 0xa0
    || c == 0x1680
    || (leb 0x2000 c && leb c 0x200a)
    || c == 0x2028
    || c == 0x2029
    || c == 0x202f
    || c == 0x205f
    || c == 0x3000

unfoldable pub trim_start_by : (ℕ → Bool) → Str → Str
trim_start_by p [] = []
trim_start_by p (c ∷ s) = if p c then trim_start_by p s else c ∷ s

unfoldable pub trim : Str → Str
unfolding trim_start_by
trim s = reverse (trim_start_by is_whitespace (reverse (trim_start_by is_whitespace s)))

abbrev pub trim_start_matches : ℕ → Str → Str
trim_start_matches d = trim_start_by (λ c. c == d)

push_head : ℕ → List Str → List Str
push_head c [] = (c ∷ []) ∷ []
push_head c (piece ∷ pieces) = (c ∷ piece) ∷ pieces

-- `split(separator)`: at least one piece, empty ones included.
unfoldable pub split : ℕ → Str → List Str
unfolding push_head
split d [] = [] ∷ []
split d (c ∷ s) = let pieces = split d s in if c == d then [] ∷ pieces else push_head c pieces

abbrev pub is_ascii_digit : ℕ → Bool
is_ascii_digit c = leb b'0' c && leb c b'9'

abbrev pub is_ascii_alphanumeric : ℕ → Bool
is_ascii_alphanumeric c =
    is_ascii_digit c || (leb b'A' c && leb c b'Z') || (leb b'a' c && leb c b'z')

abbrev pub u32_max : ℕ
u32_max = 2 ^ 32 - 1

abbrev pub u64_max : ℕ
u64_max = 2 ^ 64 - 1

-- The digit loop of `parse`, for the unsigned type with this maximum: checked multiplication, then
-- checked addition.
unfoldable pub parse_digits : (largest : ℕ) → ℕ → Str → Option ℕ
parse_digits largest acc [] = some acc
parse_digits largest acc (c ∷ s) =
    let rest = parse_digits largest (acc * 10 + (c - b'0')) s in
    if is_ascii_digit c && leb (acc * 10 + (c - b'0')) largest then rest else none

unfoldable pub parse_number : (largest : ℕ) → Str → Option ℕ
unfolding parse_digits
parse_number largest [] = none
parse_number largest (c ∷ s) =
    if c == b'+'
    then (if is_empty s then none else parse_digits largest 0 s)
    else parse_digits largest 0 (c ∷ s)

abbrev pub parse_u32 : Str → Option ℕ
parse_u32 = parse_number u32_max
