-- ===== src/LocalSocket/Unix.antt =====
-- wg-kotlin-daemon-rust/daemon/src/ipc/unix.rs
use wg_kotlin.Base.{
  ℕ, ◌-◌, ◌^◌, Bool, true, false, not, ◌&&◌, ◌||◌, Option, none, some, [], ◌∷◌, ◌==◌, if◌then◌else◌,
  Result, ok, err,
}
use wg_kotlin.Base.Int.{ℤ, pos, negsuc, is_zero}
use wg_kotlin.Base.Eff.{Eff}
use wg_kotlin.Text.{Str, codes, strip_prefix}
use wg_kotlin.Frame.{IoError}
use wg_kotlin.LocalSocket.Paths.{PathBuf, path_from, parent, file_name, path_eq}

pub data BindError : Type 0 where
  missing_directory wrong_directory : BindError
  io : IoError → BindError

-- The system calls, with listeners `L`; `close` is the end of a listener.
pub record SocketApi (W L : Type 0) : Type 0 where
  pub create_dir : (mode : ℕ) → PathBuf → Eff W IoError (Unit {0})
  pub remove_dir : PathBuf → Eff W IoError (Unit {0})
  pub remove_file : PathBuf → Eff W IoError (Unit {0})
  pub bind : PathBuf → Eff W IoError L
  pub close : L → W → W
  pub set_permissions : PathBuf → (mode : ℕ) → Eff W IoError (Unit {0})
  pub geteuid : W → ℕ
  pub c_string : Str → Result IoError (Unit {0})
  pub chown : Str → (uid gid : ℕ) → W → ℤ × W
  pub last_os_error : W → IoError

-- `PathBuf::from("/tmp")`
abbrev pub tmp : PathBuf
tmp = record { absolute = true; components = codes "tmp" ∷ [] }

abbrev pub directory_prefix : Str
directory_prefix = codes "wg-kotlin-"

abbrev pub is_some : {A : Type 0} → Option A → Bool
is_some none = false
is_some (some a) = true

abbrev pub is_tmp : Option PathBuf → Bool
is_tmp none = false
is_tmp (some p) = path_eq p tmp

abbrev pub name_or_empty : Option Str → Str
name_or_empty none = []
name_or_empty (some s) = s

-- The directory of the socket, if the endpoint is one that the daemon may bind.
abbrev pub checked_parent : Option PathBuf → Result BindError PathBuf
checked_parent none = err missing_directory
checked_parent (some directory) =
    if not (is_tmp (parent directory))
      || not (is_some (strip_prefix directory_prefix (name_or_empty (file_name directory))))
    then err wrong_directory
    else ok directory

unfoldable pub socket_directory : Str → Result BindError PathBuf
socket_directory endpoint = checked_parent (parent (path_from endpoint))

pub record LocalListener (L : Type 0) : Type 0 where
  pub listener : L
  pub path : PathBuf
  pub directory : PathBuf

module _ {W L : Type 0} (system : SocketApi W L) where
  -- `Drop` of the listener: the file, the fields in their order, and the directory at last.
  unfoldable pub drop_listener : LocalListener L → W → W
  drop_listener l w =
      let (_, w₁) = system.remove_file l.path w in
      let w₂ = system.close l.listener w₁ in (system.remove_dir l.directory w₂).1

  -- `libc::chown` for root, where the group `u32::MAX` keeps the group.
  abbrev pub chowned : Str → ℕ → Result IoError (Unit {0}) → Eff W IoError (Unit {0})
  chowned endpoint uid (err e) w = (err e, w)
  chowned endpoint uid (ok u) w =
      let (returned, w') = system.chown endpoint uid (2 ^ 32 - 1) w in
      (if not (is_zero returned) then err (system.last_os_error w') else ok tt, w')

  unfoldable pub give : Str → ℕ → Eff W IoError (Unit {0})
  give endpoint uid w =
      if system.geteuid w == 0
      then chowned endpoint uid (system.c_string endpoint) w
      else (ok tt, w)

  -- The steps once the listener is there, from the socket's permissions to the directory's.
  abbrev opened_up : PathBuf → Result IoError (Unit {0}) × W → Result IoError (Unit {0}) × W
  opened_up directory (err e, w) = (err e, w)
  opened_up directory (ok u, w) = system.set_permissions directory 0o711 w

  abbrev given : Str → ℕ → PathBuf → Result IoError (Unit {0}) × W → Result IoError (Unit {0}) × W
  unfolding give opened_up
  given endpoint uid directory (err e, w) = (err e, w)
  given endpoint uid directory (ok u, w) = opened_up directory (give endpoint uid w)

  unfoldable pub permit : Str → ℕ → LocalListener L → Eff W IoError (Unit {0})
  unfolding given
  permit endpoint uid l w = given endpoint uid l.directory (system.set_permissions l.path 0o600 w)

  -- A failure drops what was bound.
  abbrev pub permitted :
      LocalListener L → Result IoError (Unit {0}) × W → Result BindError (LocalListener L) × W
  permitted l (ok u, w) = (ok l, w)
  permitted l (err e, w) = (err (io e), drop_listener l w)

  abbrev pub listening :
      Str → ℕ → PathBuf → Result IoError L × W → Result BindError (LocalListener L) × W
  listening endpoint uid directory (err e, w) = (err (io e), (system.remove_dir directory w).1)
  listening endpoint uid directory (ok listener, w) =
      let l : LocalListener L = record {
        listener = listener;
        path = path_from endpoint;
        directory = directory;
      } in
      permitted l (permit endpoint uid l w)

  abbrev pub created :
      Str → ℕ → PathBuf → Result IoError (Unit {0}) × W → Result BindError (LocalListener L) × W
  created endpoint uid directory (err e, w) = (err (io e), w)
  created endpoint uid directory (ok u, w) =
      listening endpoint uid directory (system.bind (path_from endpoint) w)

  abbrev pub bind_in : Str → ℕ → Result BindError PathBuf → Eff W BindError (LocalListener L)
  bind_in endpoint uid (err e) w = (err e, w)
  bind_in endpoint uid (ok directory) w =
      created endpoint uid directory (system.create_dir 0o700 directory w)

  unfoldable pub bind : Str → ℕ → Eff W BindError (LocalListener L)
  bind endpoint uid w = bind_in endpoint uid (socket_directory endpoint) w

-- The peer's process by its credentials: 0, which owns no daemon, when they are not known.
abbrev positive : ℤ → ℕ
positive (pos n) = n
positive (negsuc n) = 0

unfoldable pub peer_pid : Result IoError (Option ℤ) → ℕ
unfolding positive
peer_pid (err e) = 0
peer_pid (ok none) = 0
peer_pid (ok (some pid)) = positive pid

-- On macOS, `getsockopt`: what it returned, the number it wrote and its size.
unfoldable pub peer_pid_macos : (returned pid : ℤ) (size : ℕ) → ℕ
unfolding positive
peer_pid_macos returned pid size = if is_zero returned && size == 4 then positive pid else 0
