-- ===== src/Wintun.antt =====
-- wg-kotlin-daemon-rust/daemon/src/wintun.rs: the library that is extracted for the sessions.
pub mod Released
use wg_kotlin.Base.{
  ℕ, zero, suc, ◌+◌, ◌-◌, ◌*◌, ◌/◌, ◌%◌, ◌^◌, ◌≤◌, ◌<◌, min, max, String, ◌≡◌, refl, sym, ap, ◌∙◌,
  subst, ◌≢◌, ◌↔◌, ◌⊎◌, inl, inr, Bool, true, false, not, ◌&&◌, ◌||◌, Option, none, some, List, [],
  ◌∷◌, ◌++◌, map, reverse, append-nil, append_assoc, reverse-append, reverse-reverse, arith, ltb,
  leb, ◌==◌, if◌then◌else◌, ltb→lt, lt→ltb, leb→le, ==_iff, tests, Bool-cases, Option-cases,
  and_iff, length, take, drop, replicate, all, any, keep, is_empty, is_empty_iff, length-append,
  length-take, length-drop, length-keep-le, take-append-drop, take-append, drop-append, All,
  All-append, All-left, All-right, All-reverse, All-unreverse, All-map, all_iff, Result, ok, err,
  ok_or, map_err, Result-cases, bound, ok-injective, unguarded, bit_and,
}
use wg_kotlin.Base.Eff.{Eff, ◌>>=◌, ◌>>◌, pure, lift, map_fail}
use wg_kotlin.Text.{Str, codes}
use wg_kotlin.Frame.{IoError}

-- The messages, by the text around the error.
pub data DllError : Type 0 where
  io create_directory_failed lock_directory_failed create_failed : IoError → DllError
  extract_failed flush_failed lock_failed : IoError → DllError
  not_unicode reparse_point no_acl : DllError

-- The system calls, with paths `P`, open files `F` and security descriptors `X`. `open_directory` and
-- `open_file` share reading, the first one writing too; `create_file` shares nothing. `program_files`
-- is the known folder as a path, with the memory of its text freed.
pub record FileApi (W P F X : Type 0) : Type 0 where
  pub program_files : Eff W IoError P
  pub instance_name : Eff W IoError Str
  pub join : P → Str → P
  pub parent : P → Option P
  pub is_unicode : P → Bool
  pub descriptor : Str → Eff W IoError X
  pub free : X → W → W
  pub create_directory : P → X → Eff W IoError (Unit {0})
  pub open_directory : P → Eff W IoError F
  pub file_attributes : F → Eff W IoError ℕ
  pub volume_features : F → Eff W IoError ℕ
  pub create_file : P → X → Eff W IoError F
  pub write_all : F → List ℕ → Eff W IoError (Unit {0})
  pub sync_all : F → Eff W IoError (Unit {0})
  pub open_file : P → Eff W IoError F
  pub close : F → W → W
  pub remove_file : P → Eff W IoError (Unit {0})
  pub remove_dir : P → Eff W IoError (Unit {0})
  pub attribute_reparse_point : ℕ
  pub persistent_acls : ℕ
  pub dll_bytes : List ℕ

pub record WintunDll (P F : Type 0) : Type 0 where
  pub path : P
  pub file : Option F
  pub directory : Option F

abbrev pub dll_at : {P F : Type 0} → P → Option F → Option F → WintunDll P F
dll_at path file directory = record { path = path; file = file; directory = directory }

-- Full access for the system and for administrators, who own it, and for nobody else.
abbrev pub private_sddl : Str
private_sddl = codes "O:BAG:BAD:P(A;OICI;FA;;;SY)(A;OICI;FA;;;BA)"

module _ {W P F X : Type 0} (system : FileApi W P F X) where
  abbrev pub close_held : Option F → W → W
  close_held none w = w
  close_held (some f) w = system.close f w

  abbrev pub remove_parent : Option P → W → W
  remove_parent none w = w
  remove_parent (some directory) w = (system.remove_dir directory w).1

  -- `Drop`: the locks, then the file and its directory.
  unfoldable pub drop_dll : WintunDll P F → W → W
  drop_dll dll w =
      let w₁ = close_held dll.directory (close_held dll.file w) in
      let w₂ = (system.remove_file dll.path w₁).1 in remove_parent (system.parent dll.path) w₂

  -- A file that is closed if what is done with it fails.
  abbrev pub closing_failed : F → Result DllError (Unit {0}) × W → Result DllError F × W
  closing_failed f (ok u, w) = (ok f, w)
  closing_failed f (err e, w) = (err e, system.close f w)

  abbrev pub guarded :
      (F → Eff W DllError (Unit {0})) → Result DllError F × W → Result DllError F × W
  guarded check (err e, w) = (err e, w)
  guarded check (ok f, w) = closing_failed f (check f w)

  abbrev pub refuse : Bool → DllError → Result DllError (Unit {0})
  refuse c e = if c then err e else ok tt

  unfoldable pub check_directory : F → Eff W DllError (Unit {0})
  check_directory lock = do
    attributes ← map_fail io (system.file_attributes lock)
    lift (refuse (not (bit_and attributes system.attribute_reparse_point == 0)) reparse_point)
    features ← map_fail io (system.volume_features lock)
    lift (refuse (bit_and features system.persistent_acls == 0) no_acl)

  -- `directory_lock`, until the library keeps it.
  unfoldable pub lock_directory : P → Eff W DllError F
  unfolding check_directory
  lock_directory directory w =
      guarded check_directory (map_fail lock_directory_failed (system.open_directory directory) w)

  unfoldable pub fill : F → Eff W DllError (Unit {0})
  fill writer = do
    map_fail extract_failed (system.write_all writer system.dll_bytes)
    map_fail flush_failed (system.sync_all writer)

  abbrev pub closed_writer : Result DllError F × W → Result DllError (Unit {0}) × W
  closed_writer (err e, w) = (err e, w)
  closed_writer (ok writer, w) = (ok tt, system.close writer w)

  -- `writer`, from its creation to `drop(writer)`.
  unfoldable pub write_dll : P → X → Eff W DllError (Unit {0})
  unfolding fill
  write_dll path x w =
      closed_writer (guarded fill (map_fail create_failed (system.create_file path x) w))

  -- A failure drops the library with the locks that it keeps by then.
  abbrev pub dropping : WintunDll P F → DllError → W → Result DllError (WintunDll P F) × W
  dropping dll e w = (err e, drop_dll dll w)

  abbrev pub locked : P → F → Result DllError F × W → Result DllError (WintunDll P F) × W
  locked path lock (err e, w) = dropping (dll_at path none (some lock)) e w
  locked path lock (ok file, w) = (ok (dll_at path (some file) (some lock)), w)

  abbrev pub written : P → F → Result DllError (Unit {0}) × W → Result DllError (WintunDll P F) × W
  written path lock (err e, w) = dropping (dll_at path none (some lock)) e w
  written path lock (ok u, w) = locked path lock (map_fail lock_failed (system.open_file path) w)

  abbrev pub directory_held : P → X → Result DllError F × W → Result DllError (WintunDll P F) × W
  directory_held path x (err e, w) = dropping (dll_at path none none) e w
  directory_held path x (ok lock, w) = written path lock (write_dll path x w)

  abbrev pub directory_made :
      P → X → Result DllError (Unit {0}) × W → Result DllError (WintunDll P F) × W
  directory_made directory x (err e, w) = (err e, w)
  directory_made directory x (ok u, w) =
      let path = system.join directory (codes "wintun.dll") in
      if not (system.is_unicode path)
      then dropping (dll_at path none none) not_unicode w
      else directory_held path x (lock_directory directory w)

  -- The closure whose outcome is `result`.
  unfoldable pub extract : P → X → Eff W DllError (WintunDll P F)
  unfolding drop_dll lock_directory write_dll
  extract directory x w =
      directory_made directory x
        (map_fail create_directory_failed (system.create_directory directory x) w)

  abbrev pub described : P → Result DllError X × W → Result DllError (WintunDll P F) × W
  described directory (err e, w) = (err e, w)
  described directory (ok x, w) =
      let (result, w') = extract directory x w in (result, system.free x w')

  unfoldable pub extract_at : P → Eff W DllError (WintunDll P F)
  unfolding extract
  extract_at directory w = described directory (map_fail io (system.descriptor private_sddl) w)

  unfoldable pub prepare : Eff W DllError (WintunDll P F)
  unfolding extract_at
  prepare = do
    root ← map_fail io system.program_files
    name ← map_fail io system.instance_name
    extract_at (system.join root (codes "wg-kotlin-wintun-" ++ name))
