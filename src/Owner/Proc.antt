-- ===== src/Owner/Proc.antt =====
-- wg-kotlin-daemon-rust/daemon/src/owner.rs: what `OwnerProcess::open` reads in the files of
-- `/proc`.
use wg_kotlin.Base.{
  ℕ, ◌^◌, ◌<◌, ◌≡◌, refl, ◌≢◌, true, false, Option, none, some, List, [], ◌∷◌, ◌++◌, arith, All,
  All-append, All-map, Result, ok, ◌>>=◌, ok_or,
}
use wg_kotlin.Text.{
  Str, codes, strip_prefix, parse_number, u32_max, u64_max, is_whitespace, is_ascii_digit,
}
use wg_kotlin.Text.Laws.{Without, join, strip_prefix_iff}
use wg_kotlin.Text.Decimal.{decimal, decimal-Digits, decimal-cons, parse_number-decimal}
use wg_kotlin.Text.Lines.{
  lines, split_whitespace, rsplit_once, get, IsWord, IsLine, text_of, lines-text_of,
  rsplit_once-append, split_whitespace-cons, split_whitespace-space, split_whitespace-join,
}
use wg_kotlin.Owner.{
  OwnerError, missing_uid, missing_real_uid, bad_number, invalid_stat, missing_start_time,
}

-- `iter.find_map(f)`
unfoldable pub find_map : {A B : Type 0} → (A → Option B) → List A → Option B
find_map f [] = none
find_map f (x ∷ xs) = elim (f x) [ some y ↦ some y | none ↦ find_map f xs ]

abbrev pub uid_label : Str
uid_label = codes "Uid:"

unfoldable pub real_uid : Str → Result OwnerError ℕ
unfolding find_map
real_uid status = do
  line ← ok_or (find_map (strip_prefix uid_label) (lines status)) missing_uid
  word ← ok_or (get (split_whitespace line) 0) missing_real_uid
  ok_or (parse_number u32_max word) bad_number

unfoldable pub start_ticks : Str → Result OwnerError ℕ
start_ticks stat = do
  parts ← ok_or (rsplit_once b')' stat) invalid_stat
  field ← ok_or (get (split_whitespace parts.1) 19) missing_start_time
  ok_or (parse_number u64_max field) bad_number

-- A `status` file with this real user: lines of which the first one with the label has the real user
-- behind a tab, and other users after another one.
abbrev pub ShowsUid : ℕ → Str → Type 0
ShowsUid uid text =
    (before after : List Str) × (rest : Str) × (text
      ≡ text_of (before ++ (uid_label ++ 9 ∷ (decimal uid ++ 9 ∷ rest)) ∷ after))
    × All IsLine (before ++ (uid_label ++ 9 ∷ (decimal uid ++ 9 ∷ rest)) ∷ after)
    × All (λ line. strip_prefix uid_label line ≡ none) before
    × (uid < 2 ^ 32)

-- A `stat` file with this start time: the number and the name, which may hold anything, before the
-- last closing parenthesis, and then fields of which the twentieth is the start time.
abbrev pub ShowsStart : ℕ → Str → Type 0
ShowsStart start text =
    (name : Str) × (fields : List Str) × (text
      ≡ name ++ b')' ∷ (b' ' ∷ (join b' ' fields ++ 10 ∷ [])))
    × All IsWord fields
    × Without b')' (join b' ' fields)
    × (get fields 19 ≡ some (decimal start))
    × (start < 2 ^ 64)

pub decimal-IsWord : (n : ℕ) → IsWord (decimal n)
decimal-IsWord n =
    let (c, s, e) = decimal-cons n in
    record {
      some_char = λ h. cc;
      solid =
          All-map (λ c. is_ascii_digit c ≡ true) (λ c. is_whitespace c ≡ false)
            (λ c d. ground arith) (decimal n) (decimal-Digits n);
    }

find_map-skips :
    {A B : Type 0} (f : A → Option B) (before : List A) (x : A) (after : List A) (y : B)
    → All (λ a. f a ≡ none) before
    → f x ≡ some y
    → find_map f (before ++ x ∷ after) ≡ some y
unfolding find_map
find_map-skips f [] x after y h e = rw e refl
find_map-skips f (a ∷ before) x after y h e = rw (h.0) (find_map-skips f before x after y h.1 e)

pub real_uid_lem : (uid : ℕ) (text : Str) → ShowsUid uid text → real_uid text ≡ ok uid
unfolding real_uid get
real_uid_lem uid text (before, after, rest, shape, plain, others, small) =
    let line : Str = 9 ∷ (decimal uid ++ 9 ∷ rest) in
    rw
      (
        shape,
        lines-text_of (before ++ (uid_label ++ line) ∷ after) plain,
        find_map-skips (strip_prefix uid_label) before (uid_label ++ line) after line others
            ((strip_prefix_iff uid_label (uid_label ++ line) line).1 refl),
        split_whitespace-space 9 (decimal uid ++ 9 ∷ rest) refl,
        split_whitespace-cons (decimal uid) 9 rest (decimal-IsWord uid) refl,
        parse_number-decimal u32_max uid (omega arith) (omega arith),
      )
      refl

-- No name that a process gives itself changes the start time that is read.
pub start_ticks_lem : (start : ℕ) (text : Str) → ShowsStart start text → start_ticks text ≡ ok start
unfolding start_ticks
start_ticks_lem start text (name, fields, shape, words, closed, field, small) =
    rw
      (
        shape,
        rsplit_once-append b')' name (b' ' ∷ (join b' ' fields ++ 10 ∷ [])) (
          ground arith,
          All-append (λ c. c ≢ b')') (join b' ' fields) (10 ∷ []) closed (ground arith, tt),
        ),
        split_whitespace-space b' ' (join b' ' fields ++ 10 ∷ []) refl,
        split_whitespace-join fields words,
        field,
        parse_number-decimal u64_max start (omega arith) small,
      )
      refl
