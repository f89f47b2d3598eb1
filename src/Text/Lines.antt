-- ===== src/Text/Lines.antt =====
-- Texts as the daemon reads them from files of the system: `lines`, `split_whitespace` and
-- `rsplit_once`.
use wg_kotlin.Base.{
  ℕ, zero, suc, ◌≡◌, refl, ap, ◌∙◌, ◌≢◌, Bool, true, false, not, Option, none, some, List, [], ◌∷◌,
  ◌++◌, append_assoc, arith, ◌==◌, if◌then◌else◌, keep, is_empty, All, All-map,
}
use wg_kotlin.Text.{Str, is_whitespace, split, push_head}
use wg_kotlin.Text.Laws.{Without, join, split-append}

-- Without the carriage return at the end, if there is one.
abbrev strip_return : Str → Str
strip_return [] = []
strip_return (c ∷ []) = if c == 13 then [] else c ∷ []
strip_return (c ∷ d ∷ s) = c ∷ strip_return (d ∷ s)

-- The text behind the last line break is a line only if it is not empty.
abbrev ended_lines : List Str → List Str
ended_lines [] = []
ended_lines (last ∷ []) = if is_empty last then [] else last ∷ []
ended_lines (piece ∷ next ∷ pieces) = strip_return piece ∷ ended_lines (next ∷ pieces)

unfoldable pub lines : Str → List Str
lines s = ended_lines (split 10 s)

unfoldable pub split_by : (ℕ → Bool) → Str → List Str
unfolding push_head
split_by p [] = [] ∷ []
split_by p (c ∷ s) = let pieces = split_by p s in if p c then [] ∷ pieces else push_head c pieces

unfoldable pub split_whitespace : Str → List Str
unfolding split_by
split_whitespace s = keep (λ word. not (is_empty word)) (split_by is_whitespace s)

-- The text before the last separator, and the one after it.
unfoldable pub rsplit_once : ℕ → Str → Option (Str × Str)
rsplit_once d [] = none
rsplit_once d (c ∷ s) = elim (rsplit_once d s) [
  | some (before, after) ↦ some (c ∷ before, after)
  | none ↦ if c == d then some ([], s) else none
]

-- `list.get(index)`
unfoldable pub get {ℓ} : {A : Type ℓ} → List A → ℕ → Option A
get [] i = none
get (x ∷ xs) zero = some x
get (x ∷ xs) (suc i) = get xs i

rsplit_once-none : (d : ℕ) (s : Str) → Without d s → rsplit_once d s ≡ none
unfolding rsplit_once
rsplit_once-none d [] h = refl
rsplit_once-none d (c ∷ s) h = ground (arith, rsplit_once-none d s h.1)

pub rsplit_once-append :
    (d : ℕ) (before after : Str)
    → Without d after
    → rsplit_once d (before ++ d ∷ after) ≡ some (before, after)
unfolding rsplit_once
rsplit_once-append d [] after h = ground (arith, rsplit_once-none d after h)
rsplit_once-append d (c ∷ before) after h = rw (rsplit_once-append d before after h) refl

-- A word: some characters, and no white space.
pub record IsWord (word : Str) : Type 0 where
  pub some_char : word ≢ []
  pub solid : All (λ c. is_whitespace c ≡ false) word

split_by-append :
    (p : ℕ → Bool) (word : Str) (c : ℕ) (s : Str)
    → All (λ d. p d ≡ false) word
    → p c ≡ true
    → split_by p (word ++ c ∷ s) ≡ word ∷ split_by p s
unfolding split_by push_head
split_by-append p [] c s h sep = rw sep refl
split_by-append p (d ∷ word) c s h sep = rw (h.0, split_by-append p word c s h.1 sep) refl

-- The first word, when something follows it.
pub split_whitespace-cons :
    (word : Str) (c : ℕ) (s : Str)
    → IsWord word
    → is_whitespace c ≡ true
    → split_whitespace (word ++ c ∷ s) ≡ word ∷ split_whitespace s
unfolding split_whitespace
split_whitespace-cons word c s h sep =
    rw (split_by-append is_whitespace word c s h.solid sep) (kept word h.some_char)
  where
    kept :
        (word : Str)
        → word ≢ []
        → keep (λ w. not (is_empty w)) (word ∷ split_by is_whitespace s)
          ≡ word ∷ keep (λ w. not (is_empty w)) (split_by is_whitespace s)
    kept [] h = absurd (h refl)
    kept (d ∷ word) h = refl

pub split_whitespace-space :
    (c : ℕ) (s : Str) → is_whitespace c ≡ true → split_whitespace (c ∷ s) ≡ split_whitespace s
unfolding split_whitespace split_by push_head
split_whitespace-space c s sep = rw sep refl

split_whitespace-nil : split_whitespace [] ≡ []
unfolding split_whitespace split_by
split_whitespace-nil = refl

-- Words with one space between them, and a line break at the end.
pub split_whitespace-join :
    (words : List Str) → All IsWord words → split_whitespace (join b' ' words ++ 10 ∷ []) ≡ words
split_whitespace-join [] h = split_whitespace-space 10 [] refl ∙ split_whitespace-nil
split_whitespace-join (word ∷ []) h =
    split_whitespace-cons word 10 [] h.0 refl ∙ ap (◌∷◌ word) split_whitespace-nil
split_whitespace-join (word ∷ next ∷ words) h =
    rw (append_assoc word (b' ' ∷ join b' ' (next ∷ words)) (10 ∷ [])) (
      split_whitespace-cons word b' ' (join b' ' (next ∷ words) ++ 10 ∷ []) h.0 refl
      ∙ ap (◌∷◌ word) (split_whitespace-join (next ∷ words) h.1))

-- A line without line breaks or carriage returns.
abbrev pub IsLine : Str → Type 0
IsLine = All (λ c. (c ≢ 13) × (c ≢ 10))

strip_return_lem : (line : Str) → IsLine line → strip_return line ≡ line
strip_return_lem [] h = refl
strip_return_lem (c ∷ []) h = ground (arith, (h.0).0)
strip_return_lem (c ∷ d ∷ s) h = ap (◌∷◌ c) (strip_return_lem (d ∷ s) h.1)

-- The lines of a text in which each line ends with a line break.
abbrev pub text_of : List Str → Str
text_of [] = []
text_of (line ∷ rest) = line ++ 10 ∷ text_of rest

split-text_of : (ls : List Str) → All IsLine ls → split 10 (text_of ls) ≡ ls ++ [] ∷ []
unfolding split
split-text_of [] h = refl
split-text_of (line ∷ ls) h =
    split-append 10 line (text_of ls)
      (All-map (λ c. (c ≢ 13) × (c ≢ 10)) (λ c. c ≢ 10) (λ c p. p.1) line h.0)
    ∙ ap (◌∷◌ line) (split-text_of ls h.1)

ended_lines_lem : (ls : List Str) → All IsLine ls → ended_lines (ls ++ [] ∷ []) ≡ ls
ended_lines_lem [] h = refl
ended_lines_lem (line ∷ []) h = rw (strip_return_lem line h.0) refl
ended_lines_lem (line ∷ next ∷ ls) h =
    rw (strip_return_lem line h.0) (ap (◌∷◌ line) (ended_lines_lem (next ∷ ls) h.1))

pub lines-text_of : (ls : List Str) → All IsLine ls → lines (text_of ls) ≡ ls
unfolding lines
lines-text_of ls h = rw (split-text_of ls h) (ended_lines_lem ls h)
