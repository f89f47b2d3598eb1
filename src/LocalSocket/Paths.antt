-- ===== src/LocalSocket/Paths.antt =====
-- Rust's `Path` on Unix: whether it starts at the root, and its components.
use wg_kotlin.Base.{
  Bool, true, false, not, ◌&&◌, ◌||◌, Option, none, some, List, [], ◌∷◌, if◌then◌else◌, keep,
  is_empty,
}
use wg_kotlin.Text.{Str, codes, split, str_eq}

pub record PathBuf : Type 0 where
  pub absolute : Bool
  pub components : List Str

abbrev pub is_component : Str → Bool
is_component piece = not (is_empty piece) && not (str_eq piece (codes "."))

-- Empty pieces and the ones that are a single dot are dropped, but for a dot that a relative path
-- begins with.
abbrev pub from_pieces : List Str → PathBuf
from_pieces [] = record { absolute = false; components = [] }
from_pieces ([] ∷ []) = record { absolute = false; components = [] }
from_pieces ([] ∷ piece ∷ pieces) = record {
  absolute = true;
  components = keep is_component (piece ∷ pieces);
}
from_pieces ((c ∷ first) ∷ pieces) = record {
  absolute = false;
  components = (c ∷ first) ∷ keep is_component pieces;
}

unfoldable pub path_from : Str → PathBuf
path_from s = from_pieces (split b'/' s)

unfoldable pub drop_last : List Str → List Str
drop_last [] = []
drop_last (c ∷ []) = []
drop_last (c ∷ d ∷ cs) = c ∷ drop_last (d ∷ cs)

unfoldable pub last : List Str → Option Str
last [] = none
last (c ∷ []) = some c
last (c ∷ d ∷ cs) = last (d ∷ cs)

abbrev pub parent_of : Bool → List Str → Option PathBuf
parent_of absolute [] = none
parent_of absolute (c ∷ cs) = some (record { absolute = absolute; components = drop_last (c ∷ cs) })

unfoldable pub parent : PathBuf → Option PathBuf
unfolding drop_last
parent p = parent_of p.absolute p.components

-- The last component, if it is a name.
abbrev pub named : Option Str → Option Str
named none = none
named (some c) = if str_eq c (codes "..") || str_eq c (codes ".") then none else some c

unfoldable pub file_name : PathBuf → Option Str
unfolding last
file_name p = named (last p.components)

unfoldable pub components_eq : List Str → List Str → Bool
components_eq [] [] = true
components_eq (c ∷ cs) (d ∷ ds) = str_eq c d && components_eq cs ds
components_eq _ _ = false

abbrev pub bool_eq : Bool → Bool → Bool
bool_eq true b = b
bool_eq false b = not b

-- `==` on paths compares the components.
unfoldable pub path_eq : PathBuf → PathBuf → Bool
unfolding components_eq
path_eq p q = bool_eq p.absolute q.absolute && components_eq p.components q.components
