-- ===== src/Daemon/Start.antt =====
-- wg-kotlin-daemon-rust/daemon/src/main.rs: `prepare_owner` on Linux, before any other thread runs.
use wg_kotlin.Base.{
  ℕ, ◌<◌, ◌≡◌, sym, ap, ◌∙◌, subst, inl, inr, not, ◌&&◌, Option, arith, ◌==◌, if◌then◌else◌, ==_iff,
  Bool-cases, and_iff, Result, ok, err, ok-injective,
}
use wg_kotlin.Base.Int.{ℤ, is_zero}
use wg_kotlin.Base.Eff.{Eff, ◌>>=◌, ◌>>◌, pure, lift, map_fail, continued, map_fail_ok}
use wg_kotlin.Text.{Str}
use wg_kotlin.Frame.{IoError}
use wg_kotlin.Owner.{
  OwnerError, Credentials, allow_owner_signals, ensure, ensured, signals_failed, invalid_uids,
}
use wg_kotlin.Owner.Linux.{ProcessApi, OwnerProcess, open_owner}
use wg_kotlin.Owner.Identity.{ProcessLaws, IsOwner, open_owner-IsOwner}

pub record Cli : Type 0 where
  pub endpoint : Str
  pub owner_pid : ℕ
  pub owner_start_time : ℕ
  pub log_path : Option Str

pub data StartError : Type 0 where
  needs_root : (effective_uid : ℕ) → StartError
  refused : OwnerError → StartError
  windows_call : IoError → StartError
  needs_administrator : StartError

module _ {W : Type 0} (credentials : Credentials W) where
  unfoldable pub ensure_root : Eff W StartError (Unit {0})
  ensure_root w =
      if not (credentials.geteuid w == 0)
      then (err (needs_root (credentials.geteuid w)), w)
      else (ok tt, w)

  root_held : (w w' : W) → ensure_root w ≡ (ok tt, w') → (credentials.geteuid w ≡ 0) × (w ≡ w')
  unfolding ensure_root
  root_held w w' h = elim (Bool-cases (credentials.geteuid w == 0)) [
    | inl root ↦ ground (arith, h, root)
    | inr other ↦ ground (arith, h, other)
  ]

  allowed :
      (uid : ℕ) (w w' : W)
      → allow_owner_signals credentials uid w ≡ (ok tt, w')
      → (credentials.getuid w' ≡ uid) × (credentials.geteuid w' ≡ 0)
  unfolding allow_owner_signals
  allowed uid w w' h = go (credentials.setreuid uid 0 w) h
    where
      go :
          (p : ℤ × W)
          → ◌≡◌ {A = Result OwnerError (Unit {0}) × W}
              (if not (is_zero p.0)
                then (err (signals_failed (credentials.last_os_error p.1)), p.1)
                else (
                  ensure
                      (credentials.getuid p.1 == uid && credentials.geteuid p.1 == 0)
                      invalid_uids,
                  p.1,
                ))
              (ok tt, w')
          → (credentials.getuid w' ≡ uid) × (credentials.geteuid w' ≡ 0)
      go (returned, v) e = elim (Bool-cases (is_zero returned)) [
        | inl succeeded ↦
            let run = rw succeeded at e in
            let passed =
              ensured (credentials.getuid v == uid && credentials.geteuid v == 0) invalid_uids
                (ap (λ (p : Result OwnerError (Unit {0}) × W). p.0) run) in
            let at_end = ap (λ (p : Result OwnerError (Unit {0}) × W). p.1) run in
            let (real, effective) =
              (and_iff (credentials.getuid v == uid) (credentials.geteuid v == 0)).0 passed in
            rw (sym at_end) (
              (==_iff (credentials.getuid v) uid).0 real,
              (==_iff (credentials.geteuid v) 0).0 effective,
            )
        | inr failed ↦ let run = rw failed at e in cc
      ]

-- The calls for the token of the process, with tokens `T`.
pub record TokenApi (W T : Type 0) : Type 0 where
  pub open_process_token : Eff W IoError T
  pub token_is_elevated : T → Eff W IoError ℕ
  pub close_handle : T → Eff W IoError (Unit {0})

-- `ensure_root` on Windows.
module _ {W T : Type 0} (tokens : TokenApi W T) where
  unfoldable pub ensure_elevated : Eff W StartError (Unit {0})
  ensure_elevated = do
    token ← map_fail windows_call tokens.open_process_token
    elevated ← map_fail windows_call (tokens.token_is_elevated token)
    map_fail windows_call (tokens.close_handle token)
    lift (if not (elevated == 0) then ok tt else err needs_administrator)

  -- A start that is let through read an elevated token, and closed it.
  pub ensure_elevated_lem :
      (w w' : W)
      → ensure_elevated w ≡ (ok tt, w')
      → (token : T) × (n : ℕ) × (w₁ w₂ : W) × (tokens.token_is_elevated token w₁ ≡ (ok n, w₂))
        × (0 < n)
        × (tokens.close_handle token w₂ ≡ (ok tt, w'))
  unfolding ensure_elevated
  ensure_elevated_lem w w' run =
      let (token, w₁, opened, run₁) =
        continued (map_fail windows_call tokens.open_process_token w) run in
      let (n, w₂, read, run₂) =
        continued (map_fail windows_call (tokens.token_is_elevated token) w₁) run₁ in
      let (_, w₃, closed, run₃) =
        continued (map_fail windows_call (tokens.close_handle token) w₂) run₂ in
      let elevated = ap (λ (p : Result StartError (Unit {0}) × W). p.0) run₃ in
      let at_end : w₃ ≡ w' = ap (λ (p : Result StartError (Unit {0}) × W). p.1) run₃ in
      (
        token,
        n,
        w₁,
        w₂,
        map_fail_ok windows_call (tokens.token_is_elevated token) w₁ read,
        ground (arith, elevated),
        map_fail_ok windows_call (tokens.close_handle token) w₂ closed
            ∙ ap {B = Result IoError (Unit {0}) × W} (λ v. (ok tt, v)) at_end,
      )

module _ {W H : Type 0} (credentials : Credentials W) (system : ProcessApi W H) where
  unfoldable pub prepare_owner : Cli → Eff W StartError (OwnerProcess H)
  prepare_owner cli = do
    ensure_root credentials
    owner ← map_fail refused (open_owner system cli.owner_pid cli.owner_start_time)
    map_fail refused (allow_owner_signals credentials owner.uid)
    pure owner

module _ {W H I : Type 0} (credentials : Credentials W) (system : ProcessApi W H)
    (Exists Alive : W → I → Type 0) (laws : ProcessLaws system I Exists Alive) where
  -- By what the system promises of processes: an owner is prepared only by root, and for the process
  -- instance with the number and the start time of the arguments. The daemon then has that owner's
  -- user as its real user, so that it may be signalled by it, and root as its effective one.
  pub prepare_owner-IsOwner :
      (cli : Cli) (w w' : W) (owner : OwnerProcess H)
      → prepare_owner credentials system cli w ≡ (ok owner, w')
      → (credentials.geteuid w ≡ 0)
        × ((w₁ w₂ : W) × (system.pidfd_open cli.owner_pid w ≡ (ok owner.process, w₁))
            × IsOwner system Exists Alive laws cli.owner_pid cli.owner_start_time owner w₁ w₂)
        × (credentials.getuid w' ≡ owner.uid)
        × (credentials.geteuid w' ≡ 0)
  unfolding prepare_owner
  prepare_owner-IsOwner cli w w' owner run =
      let (_, w₁, root, run₁) = continued (ensure_root credentials w) run in
      let (found, w₂, opening, run₂) =
        continued (map_fail refused (open_owner system cli.owner_pid cli.owner_start_time) w₁)
          run₁ in
      let (_, w₃, allowing, run₃) =
        continued (map_fail refused (allow_owner_signals credentials found.uid) w₂) run₂ in
      let (effective, unchanged) = root_held credentials w w₁ root in
      let opened =
        map_fail_ok refused (open_owner system cli.owner_pid cli.owner_start_time) w₁ opening in
      let (_, _, (w₄, handle, identified)) =
        open_owner-IsOwner system Exists Alive laws cli.owner_pid cli.owner_start_time w₁ w₂ found
          opened in
      let allowing_run =
        map_fail_ok refused (allow_owner_signals credentials found.uid) w₂ allowing in
      let given : found ≡ owner =
        ok-injective (ap (λ (p : Result StartError (OwnerProcess H) × W). p.0) run₃) in
      let at_end : w₃ ≡ w' = ap (λ (p : Result StartError (OwnerProcess H) × W). p.1) run₃ in
      let (real, still) = allowed credentials found.uid w₂ w₃ allowing_run in
      subst
        (λ o.
          (credentials.geteuid w ≡ 0)
          × ((v₁ v₂ : W) × (system.pidfd_open cli.owner_pid w ≡ (ok o.process, v₁))
              × IsOwner system Exists Alive laws cli.owner_pid cli.owner_start_time o v₁ v₂)
          × (credentials.getuid w' ≡ o.uid)
          × (credentials.geteuid w' ≡ 0))
        given
        (
          effective,
          (
            w₄,
            w₂,
            subst (λ v. system.pidfd_open cli.owner_pid v ≡ (ok found.process, w₄)) (sym unchanged)
                handle,
            identified,
          ),
          subst (λ v. credentials.getuid v ≡ found.uid) at_end real,
          subst (λ v. credentials.geteuid v ≡ 0) at_end still,
        )
