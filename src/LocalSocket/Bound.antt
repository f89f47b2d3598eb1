-- ===== src/LocalSocket/Bound.antt =====
-- wg-kotlin-daemon-rust/daemon/src/ipc/unix.rs: which endpoints are bound, and what a failed or a
-- dropped listener leaves.
use wg_kotlin.Base.{
  ◌≡◌, refl, sym, ap, ◌∙◌, subst, inl, inr, Bool, true, false, not, ◌&&◌, ◌||◌, some, List, [], ◌∷◌,
  ◌++◌, arith, Bool-cases, Option-cases, and_iff, ok, ok-injective, unguarded,
}
use wg_kotlin.Text.{Str, codes, strip_prefix, str_eq}
use wg_kotlin.Text.Laws.{strip_prefix_iff, str_eq_iff}
use wg_kotlin.LocalSocket.Paths.{
  PathBuf, path_from, parent, file_name, path_eq, drop_last, last, components_eq, bool_eq, named,
}
use wg_kotlin.LocalSocket.Unix.{
  tmp, directory_prefix, socket_directory, wrong_directory, is_some, is_tmp, name_or_empty,
  checked_parent,
}

-- `/tmp/wg-kotlin-{name}`, and an entry of it.
abbrev pub session_directory : Str → PathBuf
session_directory name = record {
  absolute = true;
  components = codes "tmp" ∷ (directory_prefix ++ name) ∷ [];
}

abbrev pub session_socket : Str → Str → PathBuf
session_socket name socket = record {
  absolute = true;
  components = codes "tmp" ∷ (directory_prefix ++ name) ∷ socket ∷ [];
}

drop_last_inverse :
    (cs : List Str) (a : Str) (as' : List Str)
    → drop_last cs ≡ a ∷ as'
    → (y : Str) × (cs ≡ (a ∷ as') ++ y ∷ [])
unfolding drop_last
drop_last_inverse [] a as' h = cc
drop_last_inverse (c ∷ []) a as' h = cc
drop_last_inverse (c ∷ d ∷ []) a [] h = (d, cc)
drop_last_inverse (c ∷ d ∷ []) a (b ∷ bs) h = cc
drop_last_inverse (c ∷ d ∷ e ∷ cs) a [] h = cc
drop_last_inverse (c ∷ d ∷ e ∷ cs) a (b ∷ bs) h =
    let (y, rest) = drop_last_inverse (d ∷ e ∷ cs) b bs cc in
    let first : c ≡ a = cc in (y, ap (λ (x : Str). x ∷ d ∷ e ∷ cs) first ∙ ap (◌∷◌ a) rest)

single_eq : (cs : List Str) (d : Str) → components_eq cs (d ∷ []) ≡ true → cs ≡ d ∷ []
unfolding components_eq
single_eq [] d h = cc
single_eq (c ∷ []) d h = ap (λ e. e ∷ []) ((str_eq_iff c d).0 ((and_iff (str_eq c d) true).0 h).0)
single_eq (c ∷ e ∷ cs) d h = ground (arith, h)

tmp_eq :
    (p : PathBuf) → path_eq p tmp ≡ true → (p.absolute ≡ true) × (p.components ≡ codes "tmp" ∷ [])
unfolding path_eq
tmp_eq p h = go p.absolute h
  where
    go :
        (b : Bool)
        → (bool_eq b true && components_eq p.components (codes "tmp" ∷ [])) ≡ true
        → (b ≡ true) × (p.components ≡ codes "tmp" ∷ [])
    go true h = (refl, single_eq p.components (codes "tmp") h)
    go false h = cc

some_prefix :
    (s : Str)
    → is_some (strip_prefix directory_prefix s) ≡ true
    → (rest : Str) × (s ≡ directory_prefix ++ rest)
some_prefix s h = elim (Option-cases (strip_prefix directory_prefix s)) [
  | inl missing ↦ let no : false ≡ true = subst (λ o. is_some o ≡ true) missing h in cc
  | inr (rest, found) ↦ (rest, (strip_prefix_iff directory_prefix s rest).0 found)
]

name_prefix :
    (name : Str)
    → is_some (strip_prefix directory_prefix (name_or_empty (named (some name)))) ≡ true
    → (rest : Str) × (name ≡ directory_prefix ++ rest)
unfolding strip_prefix
name_prefix name h = elim (Bool-cases (str_eq name (codes "..") || str_eq name (codes "."))) [
  | inl dots ↦ let no = rw dots at h in cc
  | inr other ↦ let found = rw other at h in some_prefix name found
]

directory_lem :
    (absolute : Bool) (ds : List Str)
    → is_tmp (parent (record { absolute = absolute; components = ds })) ≡ true
    → is_some (
        strip_prefix directory_prefix
          (name_or_empty (file_name (record { absolute = absolute; components = ds }))))
      ≡ true
    → (rest : Str) × (absolute ≡ true) × (ds ≡ codes "tmp" ∷ (directory_prefix ++ rest) ∷ [])
unfolding parent file_name last
directory_lem absolute [] h k = cc
directory_lem absolute (d ∷ ds) h k =
    let (rooted, one) =
      tmp_eq (record { absolute = absolute; components = drop_last (d ∷ ds) }) h in
    let (x, shape) = drop_last_inverse (d ∷ ds) (codes "tmp") [] one in
    let (rest, named_x) = name_prefix x (
      subst (λ cs. is_some (strip_prefix directory_prefix (name_or_empty (named (last cs)))) ≡ true)
        shape k) in
    (rest, rooted, shape ∙ ap (λ n. codes "tmp" ∷ n ∷ []) named_x)

socket_lem :
    (absolute : Bool) (cs : List Str) (directory : PathBuf)
    → checked_parent (parent (record { absolute = absolute; components = cs })) ≡ ok directory
    → (name socket : Str) × (directory ≡ session_directory name)
      × (◌≡◌ {A = PathBuf}
          (record { absolute = absolute; components = cs })
          (session_socket name socket))
unfolding parent
socket_lem absolute [] directory h = cc
socket_lem absolute (c ∷ cs) directory h =
    let d : PathBuf = record { absolute = absolute; components = drop_last (c ∷ cs) } in
    let a = is_tmp (parent d) in
    let b = is_some (strip_prefix directory_prefix (name_or_empty (file_name d))) in
    let (passed, same) = unguarded (not a || not b) wrong_directory h in
    let inside : a ≡ true = ground (arith, passed) in
    let prefixed : b ≡ true = ground (arith, passed) in
    let (rest, rooted, shape) = directory_lem absolute (drop_last (c ∷ cs)) inside prefixed in
    let (socket, whole) =
      drop_last_inverse (c ∷ cs) (codes "tmp") ((directory_prefix ++ rest) ∷ []) shape in
    (
      rest,
      socket,
      sym (ok-injective same)
          ∙ ap (λ n. record { absolute = n; components = drop_last (c ∷ cs) }) rooted
          ∙ ap (λ n. record { absolute = true; components = n }) shape,
      ap (λ n. record { absolute = n; components = c ∷ cs }) rooted
          ∙ ap (λ n. record { absolute = true; components = n }) whole,
    )

-- The directory of an endpoint that passes is a `/tmp/wg-kotlin-*`, and the endpoint an entry of it.
pub socket_directory_lem :
    (endpoint : Str) (directory : PathBuf)
    → socket_directory endpoint ≡ ok directory
    → (name socket : Str) × (directory ≡ session_directory name)
      × (path_from endpoint ≡ session_socket name socket)
unfolding socket_directory
socket_directory_lem endpoint directory h =
    socket_lem (path_from endpoint).absolute (path_from endpoint).components directory h
