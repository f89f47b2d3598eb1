-- ===== src/LocalSocket/Pipe/Held.antt =====
-- wg-kotlin-daemon-rust/daemon/src/ipc/windows.rs: the name of the pipe stays taken.
use wg_kotlin.Base.{
  ℕ, zero, suc, ◌≡◌, refl, ap, subst, ◌≢◌, inl, inr, Bool, false, none, some, Bool-cases, Result,
  ok, err,
}
use wg_kotlin.Text.{Str}
use wg_kotlin.Frame.{IoError}
use wg_kotlin.LocalSocket.Pipe.{
  PipeApi, PipeListener, created_with, create, sddl, Accepting, with_pending, handed_out, retried,
  connected, accept, is_gone,
}

-- `Serves w p`: the server `p` takes part in the pipe. It does from when it was created until it is
-- dropped; no other call and no end of another server changes that.
pub record PipeLaws {W P X : Type 0} (system : PipeApi W P X) (Serves : W → P → Type 0)
    : Type 0 where
  pub descriptor_keeps : (s : Str) (p : P) (w : W) → Serves w p → Serves (system.descriptor s w).1 p
  pub free_keeps : (x : X) (p : P) (w : W) → Serves w p → Serves (system.free x w) p
  pub connect_keeps : (q p : P) (w : W) → Serves w p → Serves (system.connect q w).1 p
  pub client_keeps : (q p : P) (w : W) → Serves w p → Serves (system.client_process q w).1 p
  pub server_keeps :
      (endpoint : Str) (first : Bool) (x : X) (p : P) (w : W)
      → Serves w p
      → Serves (system.create_server endpoint first x w).1 p
  pub server_creates :
      (endpoint : Str) (first : Bool) (x : X) (p : P) (w w' : W)
      → system.create_server endpoint first x w ≡ (ok p, w')
      → Serves w' p × ((q : P) → Serves w q → q ≢ p)
  pub drop_keeps : (q p : P) (w : W) → q ≢ p → Serves w p → Serves (system.drop_pipe q w) p

module _ {W P X : Type 0} (system : PipeApi W P X) (Serves : W → P → Type 0)
    (laws : PipeLaws system Serves) where
  -- A server that takes part still does after `create`, and so does the new one, which is another.
  abbrev Joined : P → Result IoError P × W → Type 0
  Joined q (ok p, w) = Serves w q × Serves w p × (q ≢ p)
  Joined q (err e, w) = Serves w q

  served-Joined :
      (endpoint : Str) (first : Bool) (x : X) (q : P) (w : W) (c : Result IoError P × W)
      → Serves w q
      → system.create_server endpoint first x w ≡ c
      → Joined q (c.0, system.free x c.1)
  served-Joined endpoint first x q w (ok p, v) h e =
      let (new, other) = laws.server_creates endpoint first x p w v e in
      let kept =
        subst (λ u. Serves u q) (ap (λ (c : Result IoError P × W). c.1) e)
          (laws.server_keeps endpoint first x q w h) in
      (laws.free_keeps x q v kept, laws.free_keeps x p v new, other q h)
  served-Joined endpoint first x q w (err f, v) h e = laws.free_keeps x q v (
      subst (λ u. Serves u q) (ap (λ (c : Result IoError P × W). c.1) e)
        (laws.server_keeps endpoint first x q w h))

  created-Joined :
      (endpoint : Str) (first : Bool) (q : P) (d : Result IoError X × W)
      → Serves d.1 q
      → Joined q (created_with system endpoint first d)
  created-Joined endpoint first q (ok x, w) h =
      served-Joined endpoint first x q w (system.create_server endpoint first x w) h refl
  created-Joined endpoint first q (err e, w) h = h

  create-Joined :
      (endpoint sid : Str) (first : Bool) (q : P) (w : W)
      → Serves w q
      → Joined q (create system endpoint sid first w)
  unfolding create
  create-Joined endpoint sid first q w h =
      created-Joined endpoint first q (system.descriptor (sddl sid) w)
        (laws.descriptor_keeps (sddl sid) q w h)

  -- The listener's server takes part in the pipe, and so does one that was given away, which is
  -- another one.
  abbrev pub Holds : Accepting system → Type 0
  Holds (some (ok (stream, pid)), l, w) =
      Serves w l.pending × Serves w stream × (stream ≢ l.pending)
  Holds (some (err e), l, w) = Serves w l.pending
  Holds (none, l, w) = Serves w l.pending

  handed_out-Holds :
      (l : PipeListener P) (c : Result IoError P × W)
      → Joined l.pending c
      → Holds (handed_out system l c)
  handed_out-Holds l (err e, w) h = h
  handed_out-Holds l (ok next, w) (old, new, other) =
      (laws.client_keeps l.pending next w new, laws.client_keeps l.pending l.pending w old, other)

  retried-Holds :
      (l : PipeListener P) (again : PipeListener P → W → Accepting system)
      → ((m : PipeListener P) (u : W) → Serves u m.pending → Holds (again m u))
      → (c : Result IoError P × W) → Joined l.pending c
      → Holds (retried system l again c)
  retried-Holds l again keeps (err e, w) h = h
  retried-Holds l again keeps (ok p, w) (old, new, other) =
      keeps (with_pending system l p) (system.drop_pipe l.pending w)
        (laws.drop_keeps l.pending p w other new)

  connected-Holds :
      (l : PipeListener P) (again : PipeListener P → W → Accepting system)
      → ((m : PipeListener P) (u : W) → Serves u m.pending → Holds (again m u))
      → (c : Result IoError (Unit {0}) × W) → Serves c.1 l.pending
      → Holds (connected system l again c)
  connected-Holds l again keeps (ok u, w) h =
      handed_out-Holds l (create system l.endpoint l.sid false w)
        (create-Joined l.endpoint l.sid false l.pending w h)
  connected-Holds l again keeps (err e, w) h = elim (Bool-cases (is_gone (system.raw_os_error e))) [
    | inl gone ↦ rw gone (
        retried-Holds l again keeps (create system l.endpoint l.sid false w)
          (create-Joined l.endpoint l.sid false l.pending w h))
    | inr other ↦ rw other h
  ]

  -- The name of the pipe is never free: by what the system promises of its servers, the listener has one that takes part
  -- in the pipe after every wait for connections if it had one before, however the wait ends and while it
  -- goes on, and a connection that is given away has a server of its own.
  pub accept-Holds :
      (fuel : ℕ) (l : PipeListener P) (w : W) → Serves w l.pending → Holds (accept system fuel l w)
  unfolding accept
  accept-Holds zero l w h = h
  accept-Holds (suc fuel) l w h =
      connected-Holds l (accept system fuel) (accept-Holds fuel) (system.connect l.pending w)
        (laws.connect_keeps l.pending l.pending w h)
