-- ===== src/Logging.antt =====
-- wg-kotlin-daemon-rust/daemon/src/logging.rs: the line that `Logger::log` sends.
pub mod Writer
use wg_kotlin.Base.{
  ℕ, ◌≢◌, inl, inr, [], ◌∷◌, ◌++◌, arith, ◌==◌, if◌then◌else◌, Bool-cases, All, All-append,
}
use wg_kotlin.Text.{Str, codes}

-- `text.replace(c, with)` for a character
unfoldable pub replace : ℕ → Str → Str → Str
replace c with [] = []
replace c with (d ∷ text) = if d == c then with ++ replace c with text else d ∷ replace c with text

abbrev pub carriage_return : ℕ
carriage_return = 13

abbrev pub newline : ℕ
newline = 10

-- The message with its line breaks written out, after the prefix with the time and the process.
unfoldable pub log_line : (prefix message : Str) → Str
unfolding replace
log_line prefix message =
    prefix ++ replace newline (codes "\\n") (replace carriage_return (codes "\\r") message)

abbrev pub IsPlain : ℕ → Type 0
IsPlain c = (c ≢ 13) × (c ≢ 10)

replaced_gone :
    (c : ℕ) (with text : Str) → All (λ d. d ≢ c) with → All (λ d. d ≢ c) (replace c with text)
unfolding replace
replaced_gone c with [] w = tt
replaced_gone c with (d ∷ text) w = elim (Bool-cases (d == c)) [
  | inl e ↦
      rw e (All-append (λ d. d ≢ c) with (replace c with text) w (replaced_gone c with text w))
  | inr e ↦ rw e (λ same. ground (arith, e, same), replaced_gone c with text w)
]

replaced_keeps :
    (P : ℕ → Type 0) (c : ℕ) (with text : Str)
    → All P with
    → All P text
    → All P (replace c with text)
unfolding replace
replaced_keeps P c with [] w h = tt
replaced_keeps P c with (d ∷ text) w (p, h) = elim (Bool-cases (d == c)) [
  | inl e ↦ rw e (All-append P with (replace c with text) w (replaced_keeps P c with text w h))
  | inr e ↦ rw e (p, replaced_keeps P c with text w h)
]

both : (text : Str) → All (λ d. d ≢ 13) text → All (λ d. d ≢ 10) text → All IsPlain text
both [] h k = tt
both (d ∷ text) (p, h) (q, k) = ((p, q), both text h k)

-- A message is one line of the log, whatever it holds: the line has no carriage return and no
-- newline, if the prefix has none.
pub log_line-IsPlain :
    (prefix message : Str) → All IsPlain prefix → All IsPlain (log_line prefix message)
unfolding log_line
log_line-IsPlain prefix message h =
    let inner = replace carriage_return (codes "\\r") message in
    let no_return =
      replaced_gone carriage_return (codes "\\r") message (ground arith, (ground arith, tt)) in
    All-append IsPlain prefix (replace newline (codes "\\n") inner) h (
      both (replace newline (codes "\\n") inner)
        (replaced_keeps (λ d. d ≢ 13) newline (codes "\\n") inner (ground arith, (ground arith, tt))
          no_return)
        (replaced_gone newline (codes "\\n") inner (ground arith, (ground arith, tt))))
