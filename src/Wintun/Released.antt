-- ===== src/Wintun/Released.antt =====
-- wg-kotlin-daemon-rust/daemon/src/wintun.rs: what is left of the extracted library.
use wg_kotlin.Base.{
  bit_and, ℕ, ◌≡◌, refl, ◌⊎◌, inl, inr, not, Option, none, some, List, [], ◌∷◌, ◌==◌, Bool-cases,
  Result, ok, err, map_err,
}
use wg_kotlin.Base.Eff.{Eff, map_fail, continue}
use wg_kotlin.Text.{codes}
use wg_kotlin.Frame.{IoError}
use wg_kotlin.Wintun.{
  FileApi, DllError, WintunDll, dll_at, io, create_directory_failed, lock_directory_failed,
  create_failed, extract_failed, lock_failed, reparse_point, refuse, drop_dll, close_held,
  closing_failed, guarded, check_directory, lock_directory, fill, closed_writer, write_dll, locked,
  written, directory_held, directory_made, extract,
}

-- `Opened w fs`: of the library's file and directory, the process has opened these, the last one
-- first. A directory that was just created holds no file, files can be removed when nothing is open, and a
-- directory when its file is gone as well.
pub record FileLaws {W P F X : Type 0} (system : FileApi W P F X) (directory : P)
    (Opened : W → List F → Type 0) (NoFile NoDirectory : W → Type 0) : Type 0 where
  pub parent_join : system.parent (system.join directory (codes "wintun.dll")) ≡ some directory
  pub directory_created :
      (x : X) (w w' : W) → system.create_directory directory x w ≡ (ok tt, w') → Opened w' []
  pub directory_opened :
      (f : F) (fs : List F) (w w' : W)
      → Opened w fs
      → system.open_directory directory w ≡ (ok f, w')
      → Opened w' (f ∷ fs)
  pub open_directory_fails :
      (e : IoError) (fs : List F) (w w' : W)
      → Opened w fs
      → system.open_directory directory w ≡ (err e, w')
      → Opened w' fs
  pub attributes_keep :
      (f : F) (fs : List F) (w : W) → Opened w fs → Opened (system.file_attributes f w).1 fs
  pub features_keep :
      (f : F) (fs : List F) (w : W) → Opened w fs → Opened (system.volume_features f w).1 fs
  pub file_created :
      (p : P) (x : X) (f : F) (fs : List F) (w w' : W)
      → Opened w fs
      → system.create_file p x w ≡ (ok f, w')
      → Opened w' (f ∷ fs)
  pub create_fails :
      (p : P) (x : X) (e : IoError) (fs : List F) (w w' : W)
      → Opened w fs
      → system.create_file p x w ≡ (err e, w')
      → Opened w' fs
  pub write_keeps :
      (f : F) (bytes : List ℕ) (fs : List F) (w : W)
      → Opened w fs
      → Opened (system.write_all f bytes w).1 fs
  pub sync_keeps : (f : F) (fs : List F) (w : W) → Opened w fs → Opened (system.sync_all f w).1 fs
  pub file_opened :
      (p : P) (f : F) (fs : List F) (w w' : W)
      → Opened w fs
      → system.open_file p w ≡ (ok f, w')
      → Opened w' (f ∷ fs)
  pub open_fails :
      (p : P) (e : IoError) (fs : List F) (w w' : W)
      → Opened w fs
      → system.open_file p w ≡ (err e, w')
      → Opened w' fs
  pub closes : (f : F) (fs : List F) (w : W) → Opened w (f ∷ fs) → Opened (system.close f w) fs
  pub file_removed :
      (w : W)
      → Opened w []
      → Opened (system.remove_file (system.join directory (codes "wintun.dll")) w).1 []
        × NoFile (system.remove_file (system.join directory (codes "wintun.dll")) w).1
  pub directory_removed :
      (w : W)
      → Opened w []
      → NoFile w
      → NoFile (system.remove_dir directory w).1 × NoDirectory (system.remove_dir directory w).1

module _ {W P F X : Type 0} (system : FileApi W P F X) (directory : P)
    (Opened : W → List F → Type 0) (NoFile NoDirectory : W → Type 0)
    (laws : FileLaws system directory Opened NoFile NoDirectory) where
  abbrev path : P
  path = system.join directory (codes "wintun.dll")

  -- Neither the file nor its directory is there.
  abbrev pub Released : W → Type 0
  Released w = NoFile w × NoDirectory w

  abbrev held : Option F → List F → List F
  held none fs = fs
  held (some f) fs = f ∷ fs

  closed_held :
      (o : Option F) (fs : List F) (w : W)
      → Opened w (held o fs)
      → Opened (close_held system o w) fs
  closed_held none fs w h = h
  closed_held (some f) fs w h = laws.closes f fs w h

  drop-Released :
      (file lock : Option F) (w : W)
      → Opened w (held file (held lock []))
      → Released (drop_dll system (dll_at path file lock) w)
  unfolding drop_dll
  drop-Released file lock w h =
      let w₁ = close_held system lock (close_held system file w) in
      let (idle, gone) =
        laws.file_removed w₁
          (closed_held lock [] (close_held system file w) (closed_held file (held lock []) w h)) in
      let w₂ = (system.remove_file path w₁).1 in
      rw laws.parent_join (laws.directory_removed w₂ idle gone)

  -- With one more open file after a success, and with as many as before after a failure.
  abbrev Keeps : List F → Result DllError F × W → Type 0
  Keeps fs (ok f, w) = Opened w (f ∷ fs)
  Keeps fs (err e, w) = Opened w fs

  closing-Keeps :
      (f : F) (fs : List F) (p : Result DllError (Unit {0}) × W)
      → Opened p.1 (f ∷ fs)
      → Keeps fs (closing_failed system f p)
  closing-Keeps f fs (ok u, w) h = h
  closing-Keeps f fs (err e, w) h = laws.closes f fs w h

  guarded-Keeps :
      (check : F → Eff W DllError (Unit {0})) (fs : List F)
      → ((f : F) (w : W) → Opened w (f ∷ fs) → Opened (check f w).1 (f ∷ fs))
      → (p : Result DllError F × W) → Keeps fs p
      → Keeps fs (guarded system check p)
  guarded-Keeps check fs keeps (ok f, w) h = closing-Keeps f fs (check f w) (keeps f w h)
  guarded-Keeps check fs keeps (err e, w) h = h

  -- What a step and the rest keep, the chain keeps.
  chain_keeps :
      {A B : Type 0} (Q : W → Type 0) (p : Result DllError A × W) (f : A → Eff W DllError B)
      → Q p.1
      → ((a : A) (w : W) → Q w → Q (f a w).1)
      → Q (continue p f).1
  chain_keeps Q (ok a, w) f h keeps = keeps a w h
  chain_keeps Q (err e, w) f h keeps = h

  check-keeps :
      (fs : List F) (f : F) (w : W)
      → Opened w (f ∷ fs)
      → Opened (check_directory system f w).1 (f ∷ fs)
  unfolding check_directory
  check-keeps fs f w h =
      let Q : W → Type 0 = λ u. Opened u (f ∷ fs) in
      chain_keeps Q (map_fail io (system.file_attributes f) w) _
        (laws.attributes_keep f (f ∷ fs) w h)
        (λ attributes u k.
          chain_keeps Q
            (
              refuse system (not (bit_and attributes system.attribute_reparse_point == 0))
                  reparse_point,
              u,
            )
            _ k
            (λ _ v k'.
              chain_keeps Q (map_fail io (system.volume_features f) v) _
                (laws.features_keep f (f ∷ fs) v k') (λ features x k''. k'')))

  fill-keeps :
      (fs : List F) (f : F) (w : W) → Opened w (f ∷ fs) → Opened (fill system f w).1 (f ∷ fs)
  unfolding fill
  fill-keeps fs f w h =
      chain_keeps (λ u. Opened u (f ∷ fs))
        (map_fail extract_failed (system.write_all f system.dll_bytes) w) _
        (laws.write_keeps f system.dll_bytes (f ∷ fs) w h) (λ a u k. laws.sync_keeps f (f ∷ fs) u k)

  mapped-Keeps :
      (g : IoError → DllError) (fs : List F) (p : Result IoError F × W)
      → ((f : F) (w : W) → p ≡ (ok f, w) → Opened w (f ∷ fs))
      → ((e : IoError) (w : W) → p ≡ (err e, w) → Opened w fs)
      → Keeps fs (map_err g p.0, p.1)
  mapped-Keeps g fs (ok f, w) succeeds fails = succeeds f w refl
  mapped-Keeps g fs (err e, w) succeeds fails = fails e w refl

  lock-Keeps : (w : W) → Opened w [] → Keeps [] (lock_directory system directory w)
  unfolding lock_directory
  lock-Keeps w h =
      guarded-Keeps (check_directory system) [] (check-keeps [])
        (map_fail lock_directory_failed (system.open_directory directory) w)
        (mapped-Keeps lock_directory_failed [] (system.open_directory directory w)
          (λ f u e. laws.directory_opened f [] w u h e)
          (λ f u e. laws.open_directory_fails f [] w u h e))

  closed-writer :
      (fs : List F) (p : Result DllError F × W) → Keeps fs p → Opened (closed_writer system p).1 fs
  closed-writer fs (ok f, w) h = laws.closes f fs w h
  closed-writer fs (err e, w) h = h

  write-keeps :
      (x : X) (lock : F) (w : W)
      → Opened w (lock ∷ [])
      → Opened (write_dll system path x w).1 (lock ∷ [])
  unfolding write_dll
  write-keeps x lock w h =
      closed-writer (lock ∷ [])
        (guarded system (fill system) (map_fail create_failed (system.create_file path x) w))
        (guarded-Keeps (fill system) (lock ∷ []) (fill-keeps (lock ∷ []))
          (map_fail create_failed (system.create_file path x) w)
          (mapped-Keeps create_failed (lock ∷ []) (system.create_file path x w)
            (λ f u e. laws.file_created path x f (lock ∷ []) w u h e)
            (λ f u e. laws.create_fails path x f (lock ∷ []) w u h e)))

  -- A library that is given away has both locks, and takes its file and its directory with it when it is
  -- dropped while they are all that is open. After a failure neither is there, unless the directory could
  -- not be created, as when it was there already, and then nothing is removed.
  abbrev pub Kept : X → W → Result DllError (WintunDll P F) × W → Type 0
  Kept x w (ok dll, w') =
      (file : F) × (lock : F) × (dll ≡ dll_at path (some file) (some lock))
      × Opened w' (file ∷ lock ∷ [])
      × ((u : W) → Opened u (file ∷ lock ∷ []) → Released (drop_dll system dll u))
  Kept x w (err e, w') =
      Released w' ⊎ ((f : IoError) × (system.create_directory directory x w ≡ (err f, w')))

  locked-Kept :
      (x : X) (v : W) (lock : F) (p : Result DllError F × W)
      → Keeps (lock ∷ []) p
      → Kept x v (locked system path lock p)
  locked-Kept x v lock (ok file, w) h =
      (file, lock, refl, h, λ u k. drop-Released (some file) (some lock) u k)
  locked-Kept x v lock (err e, w) h = inl (drop-Released none (some lock) w h)

  written-Kept :
      (x : X) (v : W) (lock : F) (p : Result DllError (Unit {0}) × W)
      → Opened p.1 (lock ∷ [])
      → Kept x v (written system path lock p)
  written-Kept x v lock (ok u, w) h =
      locked-Kept x v lock (map_fail lock_failed (system.open_file path) w) (
        mapped-Keeps lock_failed (lock ∷ []) (system.open_file path w)
          (λ f u e. laws.file_opened path f (lock ∷ []) w u h e)
          (λ f u e. laws.open_fails path f (lock ∷ []) w u h e))
  written-Kept x v lock (err e, w) h = inl (drop-Released none (some lock) w h)

  directory_held-Kept :
      (x : X) (v : W) (p : Result DllError F × W)
      → Keeps [] p
      → Kept x v (directory_held system path x p)
  directory_held-Kept x v (ok lock, w) h =
      written-Kept x v lock (write_dll system path x w) (write-keeps x lock w h)
  directory_held-Kept x v (err e, w) h = inl (drop-Released none none w h)

  directory_made-Kept :
      (x : X) (v : W) (p : Result IoError (Unit {0}) × W)
      → system.create_directory directory x v ≡ p
      → Kept x v (directory_made system directory x (map_err create_directory_failed p.0, p.1))
  directory_made-Kept x v (ok u, w) run =
      let idle = laws.directory_created x v w run in
      elim (Bool-cases (system.is_unicode path)) [
        | inl unicode ↦
            rw unicode
              (directory_held-Kept x v (lock_directory system directory w) (lock-Keeps w idle))
        | inr other ↦ rw other (inl (drop-Released none none w idle))
      ]
  directory_made-Kept x v (err e, w) run = inr (e, run)

  -- By what the system promises of files: an extraction into a new directory that fails leaves neither the
  -- file nor the directory, and one that succeeds has both open; dropped, it leaves neither. Everything
  -- is closed before it is removed, on each way out. A directory that cannot be created is not touched.
  pub extract-Kept : (x : X) (w : W) → Kept x w (extract system directory x w)
  unfolding extract
  extract-Kept x w = directory_made-Kept x w (system.create_directory directory x w) refl
