-- ===== src/Validation/Hostname.antt =====
-- Which domains pass as host names.
use wg_kotlin.Base.{
  ℕ, ◌≤◌, ◌≡◌, refl, sym, ap, ◌∙◌, ◌≢◌, ◌↔◌, Bool, true, false, ◌||◌, List, [], ◌∷◌, arith, ◌==◌,
  ==_iff, length, all, is_empty, All, all_iff,
}
use wg_kotlin.Text.{Str, len, as_bytes, split, is_ascii_alphanumeric}
use wg_kotlin.Text.Laws.{
  IsAscii, as_bytes_ascii, length-as_bytes, join, Without, join-split, split-join, split-ne-nil,
}
use wg_kotlin.Validation.{is_valid_label, is_valid_hostname, hyphen, first_is, last_is}

abbrev pub is_ldh : ℕ → Bool
is_ldh c = is_ascii_alphanumeric c || c == hyphen

abbrev StartsWith : ℕ → Str → Type 0
StartsWith d [] = ⊥
StartsWith d (c ∷ s) = c ≡ d

abbrev EndsWith : ℕ → Str → Type 0
EndsWith d [] = ⊥
EndsWith d (c ∷ []) = c ≡ d
EndsWith d (c ∷ e ∷ s) = EndsWith d (e ∷ s)

-- One to 63 ASCII letters, digits and hyphens, with no hyphen at either end.
pub record IsLabel (label : Str) : Type 0 where
  pub some_char : label ≢ []
  pub short : length label ≤ 63
  pub chars : All (λ c. is_ldh c ≡ true) label
  pub starts : ¬ StartsWith hyphen label
  pub ends : ¬ EndsWith hyphen label

-- Labels with dots between them, in at most 253 bytes.
pub record IsHostname (domain : Str) : Type 0 where
  pub first : Str
  pub rest : List Str
  pub shape : domain ≡ join b'.' (first ∷ rest)
  pub labels : All IsLabel (first ∷ rest)
  pub short : len domain ≤ 253

byte_char : (s : Str) → all is_ldh (as_bytes s) ≡ true → All (λ c. is_ldh c ≡ true) s × IsAscii s
unfolding as_bytes
byte_char [] h = (tt, tt)
byte_char (c ∷ s) h = ground (arith, byte_char s)

ldh-IsAscii : (s : Str) → All (λ c. is_ldh c ≡ true) s → IsAscii s
ldh-IsAscii [] h = tt
ldh-IsAscii (c ∷ s) h = ground (arith, ldh-IsAscii s h.1)

first_iff : (d : ℕ) (s : Str) → (first_is d s ≡ true) ↔ StartsWith d s
first_iff d [] = (λ e. cc, λ h. absurd h)
first_iff d (c ∷ s) = ==_iff c d

last_iff : (d : ℕ) (s : Str) → (last_is d s ≡ true) ↔ EndsWith d s
last_iff d [] = (λ e. cc, λ h. absurd h)
last_iff d (c ∷ []) = ==_iff c d
last_iff d (c ∷ e ∷ s) = last_iff d (e ∷ s)

ldh_iff : (s : Str) → (all is_ldh s ≡ true) ↔ All (λ c. is_ldh c ≡ true) s
ldh_iff s = all_iff (λ c. is_ldh c ≡ true) is_ldh (λ c. (λ e. e, λ e. e)) s

nonempty_label : (label : Str) → is_valid_label label ≡ true → label ≢ []
nonempty_label [] e = cc
nonempty_label (c ∷ s) e = λ h. cc

nonempty_test : (label : Str) → label ≢ [] → is_empty label ≡ false
nonempty_test [] h = absurd (h refl)
nonempty_test (c ∷ s) h = refl

IsLabel-sound : (label : Str) → is_valid_label label ≡ true → IsLabel label
IsLabel-sound label e =
    let ascii = byte_char label (ground arith) in
    let same = as_bytes_ascii label ascii.1 in
    record {
      some_char = nonempty_label label e;
      short = ground (arith, length-as_bytes label, ap (length {A = ℕ}) same);
      chars = ascii.0;
      starts = λ h. ground (arith, same, (first_iff hyphen label).1 h);
      ends = λ h. ground (arith, same, (last_iff hyphen label).1 h);
    }

label_complete : (label : Str) → IsLabel label → is_valid_label label ≡ true
label_complete label h =
    let same = as_bytes_ascii label (ldh-IsAscii label h.chars) in
    ground (
      arith,
      same,
      length-as_bytes label,
      ap (length {A = ℕ}) same,
      nonempty_test label h.some_char,
      (ldh_iff label).1 h.chars,
      (first_iff hyphen label).0,
      (last_iff hyphen label).0,
    )

pub is_valid_label_iff : (label : Str) → (is_valid_label label ≡ true) ↔ IsLabel label
is_valid_label_iff label = (IsLabel-sound label, label_complete label)

ldh_Without : (s : Str) → All (λ c. is_ldh c ≡ true) s → Without b'.' s
ldh_Without [] h = tt
ldh_Without (c ∷ s) h = (λ e. ground arith, ldh_Without s h.1)

labels_Without : (labels : List Str) → All IsLabel labels → All (Without b'.') labels
labels_Without [] h = tt
labels_Without (label ∷ labels) h = (ldh_Without label h.0.chars, labels_Without labels h.1)

labels_iff : (labels : List Str) → (all is_valid_label labels ≡ true) ↔ All IsLabel labels
labels_iff = all_iff IsLabel is_valid_label is_valid_label_iff

IsHostname-of :
    (domain : Str) (labels : List Str)
    → join b'.' labels ≡ domain
    → labels ≢ []
    → All IsLabel labels
    → len domain ≤ 253
    → IsHostname domain
IsHostname-of domain [] e occupied h short = absurd (occupied refl)
IsHostname-of domain (first ∷ rest) e occupied h short = record {
  first = first;
  rest = rest;
  shape = sym e;
  labels = h;
  short = short;
}

join-ne-nil : (first : Str) (rest : List Str) → first ≢ [] → join b'.' (first ∷ rest) ≢ []
join-ne-nil [] rest h = absurd (h refl)
join-ne-nil (c ∷ s) [] h = λ e. cc
join-ne-nil (c ∷ s) (next ∷ rest) h = λ e. cc

-- A domain passes the check exactly if it is labels with dots between them, in at most 253 bytes;
-- a label is one to 63 ASCII letters, digits and hyphens with no hyphen at either end.
pub is_valid_hostname_iff : (domain : Str) → (is_valid_hostname domain ≡ true) ↔ IsHostname domain
unfolding is_valid_hostname
is_valid_hostname_iff domain = (
  λ e.
      IsHostname-of domain (split b'.' domain) (join-split b'.' domain) (split-ne-nil b'.' domain)
        ((labels_iff (split b'.' domain)).0 (ground arith)) (ground arith),
  λ h.
      let pieces = split-join b'.' h.first h.rest (labels_Without (h.first ∷ h.rest) h.labels) in
      let occupied =
        nonempty_test domain
          (λ e. join-ne-nil h.first h.rest h.labels.0.some_char (sym h.shape ∙ e)) in
      ground (
        arith,
        h.short,
        h.shape,
        pieces,
        ap (split b'.') h.shape,
        (labels_iff (h.first ∷ h.rest)).1 h.labels,
        occupied,
      ),
)
