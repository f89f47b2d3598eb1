-- ===== src/Tests/Libraries.antt =====
-- The library that is extracted on Windows.
use wg_kotlin.Base.{
  ℕ, suc, ◌-◌, ◌≡◌, refl, sym, ap, ◌∙◌, Bool, true, false, some, List, [], ◌∷◌, arith, ◌==◌,
  if◌then◌else◌, length, Result, ok,
}
use wg_kotlin.Frame.{IoError}
use wg_kotlin.Wintun.{FileApi, extract}
use wg_kotlin.Wintun.Released.{FileLaws, Kept, extract-Kept}

-- How many files are open, and what is there.
pub record Files : Type 0 where
  pub opened : ℕ
  pub file : Bool
  pub directory : Bool

abbrev opening : {E : Type 0} → Files → Result E (Unit {0}) × Files
opening w = (ok tt, record w { opened = suc w.opened })

-- A file that is open is not removed.
abbrev files : FileApi Files Bool (Unit {0}) (Unit {0})
files = record {
  program_files = λ w. (ok false, w);
  instance_name = λ w. (ok [], w);
  join = λ p name. true;
  parent = λ p. some false;
  is_unicode = λ p. true;
  descriptor = λ s w. (ok tt, w);
  free = λ x w. w;
  create_directory = λ p x w. (ok tt, record { opened = 0; file = false; directory = true });
  open_directory = λ p. opening;
  file_attributes = λ f w. (ok 16, w);
  volume_features = λ f w. (ok 8, w);
  create_file = λ p x w. (ok tt, record w { opened = suc w.opened; file = true });
  write_all = λ f bytes w. (ok tt, w);
  sync_all = λ f w. (ok tt, w);
  open_file = λ p. opening;
  close = λ f w. record w { opened = w.opened - 1 };
  remove_file = λ p w. (ok tt, record w { file = if w.opened == 0 then false else w.file });
  remove_dir = λ p w. (ok tt, record w { directory = false });
  attribute_reparse_point = 1024;
  persistent_acls = 8;
  dll_bytes = 77 ∷ 90 ∷ [];
}

abbrev HasOpened : Files → List (Unit {0}) → Type 0
HasOpened w fs = w.opened ≡ length fs

abbrev NoFile : Files → Type 0
NoFile w = w.file ≡ false

abbrev NoDirectory : Files → Type 0
NoDirectory w = w.directory ≡ false

file_laws : FileLaws files false HasOpened NoFile NoDirectory
file_laws = record {
  parent_join = refl;
  directory_created =
      λ x w w' e. sym (ap (λ (p : Result IoError (Unit {0}) × Files). (p.1).opened) e);
  directory_opened = λ f fs w w' h e.
      sym (ap (λ (p : Result IoError (Unit {0}) × Files). (p.1).opened) e) ∙ ap suc h;
  open_directory_fails = λ e fs w w' h r. cc;
  attributes_keep = λ f fs w h. h;
  features_keep = λ f fs w h. h;
  file_created = λ p x f fs w w' h e.
      sym (ap (λ (p : Result IoError (Unit {0}) × Files). (p.1).opened) e) ∙ ap suc h;
  create_fails = λ p x e fs w w' h r. cc;
  write_keeps = λ f bytes fs w h. h;
  sync_keeps = λ f fs w h. h;
  file_opened = λ p f fs w w' h e.
      sym (ap (λ (p : Result IoError (Unit {0}) × Files). (p.1).opened) e) ∙ ap suc h;
  open_fails = λ p e fs w w' h r. cc;
  closes = λ f fs w h. omega (arith, h);
  file_removed = λ w h. (h, rw h refl);
  directory_removed = λ w h gone. (gone, refl);
}

abbrev empty : Files
empty = record { opened = 0; file = false; directory = false }

extract-Kept_example :
    Kept files false HasOpened NoFile NoDirectory file_laws tt empty (extract files false tt empty)
extract-Kept_example = extract-Kept files false HasOpened NoFile NoDirectory file_laws tt empty
