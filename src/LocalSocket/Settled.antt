-- ===== src/LocalSocket/Settled.antt =====
-- wg-kotlin-daemon-rust/daemon/src/ipc/unix.rs: what a failed bind and a dropped listener leave.
use wg_kotlin.Base.{ℕ, ◌≡◌, ◌⊎◌, some, Result, ok, err}
use wg_kotlin.Text.{Str}
use wg_kotlin.Frame.{IoError}
use wg_kotlin.LocalSocket.Paths.{PathBuf, path_from, parent}
use wg_kotlin.LocalSocket.Unix.{SocketApi, BindError, LocalListener, drop_listener, bind}
use wg_kotlin.LocalSocket.Bound.{session_directory, session_socket}

-- A directory that was just created is empty, a bind that fails leaves no socket, and what was removed
-- without an error is gone. Closing a listener creates no file, nor does removing a directory.
-- `NoSocket w p`: there is nothing at `p`; `NoDirectory w d`: there is no directory `d`.
pub record SocketLaws {W L : Type 0} (system : SocketApi W L)
    (NoSocket NoDirectory : W → PathBuf → Type 0) : Type 0 where
  pub created_empty :
      (mode : ℕ) (d p : PathBuf) (w w' : W)
      → parent p ≡ some d
      → system.create_dir mode d w ≡ (ok tt, w')
      → NoSocket w' p
  pub bind_fails :
      (p : PathBuf) (e : IoError) (w w' : W)
      → NoSocket w p
      → system.bind p w ≡ (err e, w')
      → NoSocket w' p
  pub file_removed : (p : PathBuf) (w w' : W) → system.remove_file p w ≡ (ok tt, w') → NoSocket w' p
  pub close_keeps : (l : L) (p : PathBuf) (w : W) → NoSocket w p → NoSocket (system.close l w) p
  pub directory_removed :
      (d : PathBuf) (w w' : W) → system.remove_dir d w ≡ (ok tt, w') → NoDirectory w' d
  pub remove_keeps : (d p : PathBuf) (w : W) → NoSocket w p → NoSocket (system.remove_dir d w).1 p

module _ {W L : Type 0} (system : SocketApi W L) (NoSocket NoDirectory : W → PathBuf → Type 0)
    (laws : SocketLaws system NoSocket NoDirectory) where
  abbrev pub listener_at : Str → Str → L → LocalListener L
  listener_at name socket l = record {
    listener = l;
    path = session_socket name socket;
    directory = session_directory name;
  }

  -- The state at which a drop, having removed the socket, closes the listener.
  abbrev pub closing : Str → Str → W → W
  closing name socket w = (system.remove_file (session_socket name socket) w).1

  -- A drop removes the socket and its directory, if the two removals succeed: it reports no error.
  abbrev pub Drops : Str → Str → L → W → W → Type 0
  Drops name socket l w w' =
      (w' ≡ (system.remove_dir (session_directory name) (system.close l (closing name socket w))).1)
      × ((system.remove_file (session_socket name socket) w).0 ≡ ok tt
          → NoSocket w' (session_socket name socket))
      × ((system.remove_dir (session_directory name) (system.close l (closing name socket w))).0
            ≡ ok tt
          → NoDirectory w' (session_directory name))

  -- How an endpoint is left. A listener that is given away listens at the socket in its directory, and
  -- removes both when it is dropped. After a failure: the endpoint was refused and nothing changed; the
  -- directory could not be created, as when it was there already, and nothing is removed; the socket
  -- could not be bound, there is none, and the directory is gone if its removal succeeds; or the
  -- permissions could not be set, and the listener was dropped.
  abbrev pub Settled : Str → W → Result BindError (LocalListener L) × W → Type 0
  Settled endpoint w (ok l, w') =
      (name socket : Str) × (path_from endpoint ≡ session_socket name socket)
      × (l ≡ listener_at name socket l.listener)
      × ((u : W) → Drops name socket l.listener u (drop_listener system l u))
  Settled endpoint w (err e, w') =
      (w' ≡ w)
      ⊎ ((name : Str) × (f : IoError) × (system.create_dir 0o700 (session_directory name) w
            ≡ (err f, w')))
      ⊎ ((name socket : Str) × (u : W) × (path_from endpoint ≡ session_socket name socket)
          × (w' ≡ (system.remove_dir (session_directory name) u).1)
          × NoSocket w' (session_socket name socket)
          × ((system.remove_dir (session_directory name) u).0 ≡ ok tt
              → NoDirectory w' (session_directory name)))
      ⊎ ((name socket : Str) × (l : L) × (u : W) × (path_from endpoint ≡ session_socket name socket)
          × Drops name socket l u w')
