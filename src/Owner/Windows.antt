-- ===== src/Owner/Windows.antt =====
-- wg-kotlin-daemon-rust/daemon/src/owner.rs on Windows: `OwnerProcess`, whose handle keeps the number
-- from being used again.
use wg_kotlin.Base.{
  ℕ, ◌+◌, ◌-◌, ◌*◌, ◌/◌, ◌%◌, ◌^◌, ◌<◌, ◌≡◌, refl, sym, ap, subst, Bool, not, arith, ◌==◌,
  if◌then◌else◌, ==_iff, Result, ok, ok-injective,
}
use wg_kotlin.Base.Eff.{
  Eff, ◌>>=◌, ◌>>◌, pure, lift, map_fail, continued, continued_lift, map_fail_ok,
}
use wg_kotlin.Text.{Str}
use wg_kotlin.Frame.{IoError}
use wg_kotlin.Platform.Windows.{FileTime, ticks}
use wg_kotlin.Owner.{OwnerError, invalid_pid, io, time_mismatch, exited, ensure, ensured}

-- The system calls, with process handles `H`, tokens `T`, the user record `U` of a token and texts `X`
-- that the system allocates. `token_size` is the first `GetTokenInformation`, whose outcome is
-- dropped, and `token_user` the second one, with the bytes of the buffer and the size it is told.
pub record HandleApi (W H T U X : Type 0) : Type 0 where
  pub usize_bytes : ℕ
  pub wait_timeout : ℕ
  pub open_process : ℕ → Eff W IoError H
  pub process_times : H → Eff W IoError FileTime
  pub open_token : H → Eff W IoError T
  pub token_size : T → W → ℕ × W
  pub token_user : T → (capacity size : ℕ) → Eff W IoError U
  pub sid_text : U → Eff W IoError X
  pub to_string : X → Result IoError Str
  pub local_free : X → W → W
  pub wait : H → (millis : ℕ) → W → ℕ × W

pub record OwnerProcess (H : Type 0) : Type 0 where
  pub pid : ℕ
  pub process : H
  pub sid : Str

abbrev pub held : {H : Type 0} → ℕ → H → Str → OwnerProcess H
held pid process sid = record { pid = pid; process = process; sid = sid }

abbrev pub div_ceil : ℕ → ℕ → ℕ
div_ceil n d = if n % d == 0 then n / d else n / d + 1

-- Milliseconds from 1601 to 1970.
abbrev pub unix_epoch_millis : ℕ
unix_epoch_millis = 11_644_473_600_000

-- `ticks / 10_000 - 11_644_473_600_000` in `u64` arithmetic.
abbrev pub unix_millis : ℕ → ℕ
unix_millis t = (t / 10_000 + 2 ^ 64 - unix_epoch_millis) % 2 ^ 64

module _ {W H T U X : Type 0} (system : HandleApi W H T U X) where
  abbrev pub buffer_bytes : ℕ → ℕ
  buffer_bytes size = div_ceil size system.usize_bytes * system.usize_bytes

  -- The text is freed whether it could be read or not.
  abbrev pub freed : X → Eff W IoError Str
  freed text w = (system.to_string text, system.local_free text w)

  abbrev pub user_of : T → Eff W IoError U
  user_of token w =
      let (size, w') = system.token_size token w in
      system.token_user token (buffer_bytes size) size w'

  unfoldable pub windows_sid : H → Eff W IoError Str
  windows_sid process = do
    token ← system.open_token process
    user ← user_of token
    text ← system.sid_text user
    freed text

  unfoldable pub is_alive : OwnerProcess H → W → Bool × W
  is_alive owner w =
      let (waited, w') = system.wait owner.process 0 w in (waited == system.wait_timeout, w')

  unfoldable pub ensure_alive : OwnerProcess H → Eff W OwnerError (Unit {0})
  unfolding is_alive
  ensure_alive owner w = let (alive, w') = is_alive owner w in (ensure alive exited, w')

  unfoldable pub open_owner : ℕ → ℕ → Eff W OwnerError (OwnerProcess H)
  unfolding windows_sid ensure_alive
  open_owner pid start_time = do
    lift (ensure (not (pid == 0)) invalid_pid)
    process ← map_fail io (system.open_process pid)
    creation ← map_fail io (system.process_times process)
    lift (ensure (unix_millis (ticks creation) == start_time) time_mismatch)
    sid ← map_fail io (windows_sid process)
    ensure_alive (held pid process sid)
    pure (held pid process sid)

-- What the system promises of process instances `I`: a handle stands for the instance that has the
-- number when it is opened, its times are those of the instance, and waiting for it times out only
-- while the instance runs.
pub record HandleLaws {W H T U X : Type 0} (system : HandleApi W H T U X) (I : Type 0)
    (Alive : W → I → Type 0) : Type 0 where
  pub instance_of : H → I
  pub number : I → ℕ
  pub created : I → ℕ
  pub opened :
      (pid : ℕ) (h : H) (w w' : W)
      → system.open_process pid w ≡ (ok h, w')
      → number (instance_of h) ≡ pid
  pub timed :
      (h : H) (t : FileTime) (w w' : W)
      → system.process_times h w ≡ (ok t, w')
      → (created (instance_of h) ≡ ticks t) × (ticks t < 2 ^ 64)
  pub waits :
      (h : H) (w w' : W) → system.wait h 0 w ≡ (system.wait_timeout, w') → Alive w' (instance_of h)

since_epoch :
    (t start_time : ℕ)
    → t < 2 ^ 64
    → start_time < 2 ^ 63
    → unix_millis t ≡ start_time
    → t / 10_000 ≡ start_time + unix_epoch_millis
since_epoch t start_time small early e = omega arith

module _ {W H T U X I : Type 0} (system : HandleApi W H T U X) (Alive : W → I → Type 0)
    (laws : HandleLaws system I Alive) where
  waited :
      (h : H) (w w' : W)
      → ◌≡◌ {A = Result OwnerError (Unit {0}) × W}
          (ensure ((system.wait h 0 w).0 == system.wait_timeout) exited, (system.wait h 0 w).1)
          (ok tt, w')
      → Alive w' (laws.instance_of h)
  waited h w w' e =
      let timeout = (==_iff (system.wait h 0 w).0 system.wait_timeout).0 (
        ensured ((system.wait h 0 w).0 == system.wait_timeout) exited
          (ap (λ (p : Result OwnerError (Unit {0}) × W). p.0) e)) in
      let at_end = ap (λ (p : Result OwnerError (Unit {0}) × W). p.1) e in
      laws.waits h w w' (rw (sym timeout, sym at_end) refl)

  -- By what Windows promises of processes: an opened owner has the number that was asked for, which is
  -- not 0, it was created in the millisecond that was asked for, counted from 1970, and it
  -- runs at the end; the subtraction of the years before 1970 does not wrap around then, if the
  -- start time fits a signed 64-bit number.
  pub open_owner-created :
      (pid start_time : ℕ) (w w' : W) (owner : OwnerProcess H)
      → start_time < 2 ^ 63
      → open_owner system pid start_time w ≡ (ok owner, w')
      → (0 < pid)
        × (owner.pid ≡ pid)
        × (laws.number (laws.instance_of owner.process) ≡ pid)
        × (laws.created (laws.instance_of owner.process) / 10_000 ≡ start_time + unix_epoch_millis)
        × Alive w' (laws.instance_of owner.process)
  unfolding open_owner ensure_alive is_alive
  open_owner-created pid start_time w w' owner early run =
      let (_, positive, run₁) = continued_lift (ensure (not (pid == 0)) invalid_pid) w _ run in
      let (h, w₁, opening, run₂) = continued (map_fail io (system.open_process pid) w) run₁ in
      let (creation, w₂, timing, run₃) = continued (map_fail io (system.process_times h) w₁) run₂ in
      let (_, same, run₄) =
        continued_lift (ensure (unix_millis (ticks creation) == start_time) time_mismatch) w₂ _
          run₃ in
      let (sid, w₃, named, run₅) = continued (map_fail io (windows_sid system h) w₂) run₄ in
      let (_, w₄, lives, run₆) = continued (ensure_alive system (held pid h sid) w₃) run₅ in
      let handle_open = map_fail_ok io (system.open_process pid) w opening in
      let read = map_fail_ok io (system.process_times h) w₁ timing in
      let (created, small) = laws.timed h creation w₁ w₂ read in
      let asked =
        (==_iff (unix_millis (ticks creation)) start_time).0
          (ensured (unix_millis (ticks creation) == start_time) time_mismatch same) in
      let given : held pid h sid ≡ owner =
        ok-injective (ap (λ (p : Result OwnerError (OwnerProcess H) × W). p.0) run₆) in
      let at_end : w₄ ≡ w' = ap (λ (p : Result OwnerError (OwnerProcess H) × W). p.1) run₆ in
      subst
        (λ o.
          (0 < pid)
          × (o.pid ≡ pid)
          × (laws.number (laws.instance_of o.process) ≡ pid)
          × (laws.created (laws.instance_of o.process) / 10_000 ≡ start_time + unix_epoch_millis)
          × Alive w' (laws.instance_of o.process))
        given
        (
          ground (arith, ensured (not (pid == 0)) invalid_pid positive),
          refl,
          laws.opened pid h w w₁ handle_open,
          rw created (since_epoch (ticks creation) start_time small early asked),
          subst (λ v. Alive v (laws.instance_of h)) at_end (waited h w₃ w₄ lives),
        )
