-- ===== src/Text/Laws.antt =====
-- What the methods of `Text` do, apart from numbers.
use wg_kotlin.Base.{
  ℕ, ◌≡◌, refl, ap, ◌∙◌, ◌↔◌, true, some, List, [], ◌∷◌, ◌++◌, arith, length, All, ◌<◌, ◌≢◌,
}
use wg_kotlin.Text.{Str, len, as_bytes, str_eq, strip_prefix, split, push_head}

-- `len` is the number of UTF-8 bytes.
pub length-as_bytes : (s : Str) → length (as_bytes s) ≡ len s
unfolding as_bytes len
length-as_bytes [] = refl
length-as_bytes (c ∷ s) = ground (arith, length-as_bytes s)

pub str_eq_iff : (s t : Str) → (str_eq s t ≡ true) ↔ (s ≡ t)
unfolding str_eq
str_eq_iff [] [] = (λ _. refl, λ _. refl)
str_eq_iff [] (d ∷ t) = (λ e. cc, λ e. cc)
str_eq_iff (c ∷ s) [] = (λ e. cc, λ e. cc)
str_eq_iff (c ∷ s) (d ∷ t) =
    (λ e. ground (arith, (str_eq_iff s t).0), λ e. ground (arith, (str_eq_iff s t).1))

pub strip_prefix_iff : (p s t : Str) → (strip_prefix p s ≡ some t) ↔ (s ≡ p ++ t)
unfolding strip_prefix
strip_prefix_iff [] s t = (λ e. ground arith, λ e. ground arith)
strip_prefix_iff (p ∷ ps) [] t = (λ e. cc, λ e. cc)
strip_prefix_iff (p ∷ ps) (c ∷ s) t = (
  λ e. ground (arith, (strip_prefix_iff ps s t).0),
  λ e. ground (arith, (strip_prefix_iff ps s t).1),
)

-- The pieces with the separator between them.
abbrev pub join : ℕ → List Str → Str
join d [] = []
join d (piece ∷ []) = piece
join d (piece ∷ next ∷ pieces) = piece ++ d ∷ join d (next ∷ pieces)

-- `piece` does not hold the separator.
abbrev pub Without : ℕ → Str → Type 0
Without d = All (λ c. c ≢ d)

pub split-ne-nil : (d : ℕ) (s : Str) → split d s ≢ []
unfolding split push_head
split-ne-nil d [] = λ e. cc
split-ne-nil d (c ∷ s) = ground (arith, split-ne-nil d s)

join-cons_nil : (d : ℕ) (pieces : List Str) → pieces ≢ [] → join d ([] ∷ pieces) ≡ d ∷ join d pieces
join-cons_nil d [] h = absurd (h refl)
join-cons_nil d (p ∷ ps) h = refl

join-push_head : (c d : ℕ) (pieces : List Str) → join d (push_head c pieces) ≡ c ∷ join d pieces
unfolding push_head
join-push_head c d [] = refl
join-push_head c d (p ∷ []) = refl
join-push_head c d (p ∷ q ∷ ps) = refl

pub join-split : (d : ℕ) (s : Str) → join d (split d s) ≡ s
unfolding split
join-split d [] = refl
join-split d (c ∷ s) = ground (
  arith,
  join-split d s,
  split-ne-nil d s,
  join-cons_nil d (split d s),
  join-push_head c d (split d s),
)

pub split-append : (d : ℕ) (p s : Str) → Without d p → split d (p ++ d ∷ s) ≡ p ∷ split d s
unfolding split push_head
split-append d [] s h = ground arith
split-append d (c ∷ p) s h = ground (arith, split-append d p s h.1)

split_single : (d : ℕ) (p : Str) → Without d p → split d p ≡ p ∷ []
unfolding split push_head
split_single d [] h = refl
split_single d (c ∷ p) h = ground (arith, split_single d p h.1)

-- Pieces without the separator come back from their join.
pub split-join :
    (d : ℕ) (piece : Str) (pieces : List Str)
    → All (Without d) (piece ∷ pieces)
    → split d (join d (piece ∷ pieces)) ≡ piece ∷ pieces
split-join d piece [] h = split_single d piece h.0
split-join d piece (next ∷ pieces) h =
    split-append d piece (join d (next ∷ pieces)) h.0
    ∙ ap (◌∷◌ piece) (split-join d next pieces h.1)

-- An ASCII text is its bytes.
abbrev pub IsAscii : Str → Type 0
IsAscii = All (λ c. c < 128)

pub as_bytes_ascii : (s : Str) → IsAscii s → as_bytes s ≡ s
unfolding as_bytes
as_bytes_ascii [] h = refl
as_bytes_ascii (c ∷ s) h = ground (arith, as_bytes_ascii s h.1)

-- What is before the first separator, and what is after it.
pub append-Without :
    (d : ℕ) (p q s t : Str)
    → Without d p
    → Without d q
    → p ++ d ∷ s ≡ q ++ d ∷ t
    → (p ≡ q) × (s ≡ t)
append-Without d [] [] s t hp hq e = (refl, cc)
append-Without d [] (c ∷ q) s t hp hq e = absurd (hq.0 cc)
append-Without d (c ∷ p) [] s t hp hq e = absurd (hp.0 cc)
append-Without d (c ∷ p) (b ∷ q) s t hp hq e =
    let (same, rest) = append-Without d p q s t hp.1 hq.1 cc in
    let first : c ≡ b = cc in (ground (arith, same, first), rest)

pub append-injective : (p s t : Str) → p ++ s ≡ p ++ t → s ≡ t
append-injective [] s t e = e
append-injective (c ∷ p) s t e = append-injective p s t cc
