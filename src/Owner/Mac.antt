-- ===== src/Owner/Mac.antt =====
-- wg-kotlin-daemon-rust/daemon/src/owner.rs on macOS: a process is its number and its birth time.
use wg_kotlin.Base.{
  ℕ, ◌+◌, ◌*◌, ◌/◌, ◌%◌, ◌^◌, ◌≡◌, refl, sym, ap, ◌∙◌, subst, ◌≢◌, inl, inr, Bool, true, false, not,
  ◌&&◌, Option, none, some, arith, leb, ◌==◌, if◌then◌else◌, ==_iff, Option-cases, and_iff, Result,
  ok, ok_or, ok-injective,
}
use wg_kotlin.Base.Int.{ℤ, pos, negsuc, is_value}
use wg_kotlin.Base.Eff.{Eff, ◌>>=◌, ◌>>◌, pure, lift, continued, continued_lift}
use wg_kotlin.Owner.{OwnerError, invalid_pid, unidentified, time_mismatch, ensure, i32_max}

-- `proc_bsdinfo`, as far as it is read.
pub record BsdInfo : Type 0 where
  pub pbi_status : ℕ
  pub pbi_ruid : ℕ
  pub pbi_start_tvsec : ℕ
  pub pbi_start_tvusec : ℕ

-- `proc_pidinfo` with `PROC_PIDTBSDINFO`: what it returns and what it wrote, and the record's size.
pub record InfoApi (W : Type 0) : Type 0 where
  pub size : ℕ
  pub proc_pidinfo : ℕ → W → (ℤ × BsdInfo) × W

pub record OwnerProcess : Type 0 where
  pub pid : ℕ
  pub uid : ℕ
  pub birth : ℕ × ℕ

abbrev pub birth_of : BsdInfo → ℕ × ℕ
birth_of info = (info.pbi_start_tvsec, info.pbi_start_tvusec)

-- Milliseconds, in `u64` arithmetic.
abbrev pub start_millis : BsdInfo → ℕ
start_millis info = (info.pbi_start_tvsec * 1000 % 2 ^ 64 + info.pbi_start_tvusec / 1000) % 2 ^ 64

abbrev pub same_birth : ℕ × ℕ → ℕ × ℕ → Bool
same_birth (a, b) (c, d) = a == c && b == d

abbrev pub born : OwnerProcess → Option BsdInfo → Bool
born owner none = false
born owner (some info) = same_birth (birth_of info) owner.birth

abbrev pub identified : {W : Type 0} → Option BsdInfo × W → Result OwnerError BsdInfo × W
identified (info, w) = (ok_or info unidentified, w)

module _ {W : Type 0} (system : InfoApi W) where
  unfoldable pub macos_info : ℕ → W → Option BsdInfo × W
  macos_info pid w =
      let ((read, info), w') = system.proc_pidinfo pid w in
      (if is_value system.size read && not (info.pbi_status == 5) then some info else none, w')

  unfoldable pub open_owner : ℕ → ℕ → Eff W OwnerError OwnerProcess
  unfolding macos_info
  open_owner pid start_time = do
    lift (ensure (not (pid == 0)) invalid_pid)
    lift (ensure (leb pid i32_max) invalid_pid)
    info ← λ w. identified (macos_info pid w)
    lift (ensure (start_millis info == start_time) time_mismatch)
    pure (record { pid = pid; uid = info.pbi_ruid; birth = birth_of info })

  unfoldable pub is_alive : OwnerProcess → W → Bool × W
  unfolding macos_info
  is_alive owner w = let (info, w') = macos_info owner.pid w in (born owner info, w')

-- What the system promises of process instances `I`: the record that is written in full is the one of
-- the instance with the number, and two instances with the same number were not born at the
-- same microsecond.
pub record InfoLaws {W : Type 0} (system : InfoApi W) (I : Type 0) : Type 0 where
  pub current : W → ℕ → Option I
  pub number : I → ℕ
  pub birth : I → ℕ × ℕ
  pub shown :
      (pid : ℕ) (info : BsdInfo) (w w' : W)
      → system.proc_pidinfo pid w ≡ ((pos system.size, info), w')
      → (i : I) × (current w pid ≡ some i) × (number i ≡ pid) × (birth i ≡ birth_of info)
  pub unique : (i j : I) → number i ≡ number j → birth i ≡ birth j → i ≡ j

taken :
    {A : Type 0} (c : Bool) (x y : A) → (if c then some x else none) ≡ some y → (c ≡ true) × (x ≡ y)
taken true x y h = (refl, cc)
taken false x y h = cc

identified-some :
    {W : Type 0} (p : Option BsdInfo × W) (info : BsdInfo) (w : W)
    → identified p ≡ (ok info, w)
    → p.0 ≡ some info
identified-some (none, v) info w h = cc
identified-some (some found, v) info w h = cc

pair_eq : (p q : ℕ × ℕ) → same_birth p q ≡ true → p ≡ q
pair_eq (a, b) (c, d) h =
    let (first, second) = (and_iff (a == c) (b == d)).0 h in
    rw ((==_iff a c).0 first, (==_iff b d).0 second) refl

module _ {W I : Type 0} (system : InfoApi W) (laws : InfoLaws system I) where
  info-current :
      (pid : ℕ) (info : BsdInfo) (w : W)
      → (macos_info system pid w).0 ≡ some info
      → (i : I) × (laws.current w pid ≡ some i)
        × (laws.number i ≡ pid)
        × (laws.birth i ≡ birth_of info)
        × (info.pbi_status ≢ 5)
  unfolding macos_info
  info-current pid info w e = go (system.proc_pidinfo pid w) refl e
    where
      go :
          (p : (ℤ × BsdInfo) × W)
          → p ≡ system.proc_pidinfo pid w
          → (if is_value system.size (p.0).0 && not (((p.0).1).pbi_status == 5)
              then some ((p.0).1)
              else none)
            ≡ some info
          → (i : I) × (laws.current w pid ≡ some i)
            × (laws.number i ≡ pid)
            × (laws.birth i ≡ birth_of info)
            × (info.pbi_status ≢ 5)
      go ((pos read, found), v) at h =
          let (full, same) =
            taken (read == system.size && not (found.pbi_status == 5)) found info h in
          let (sized, running) =
            (and_iff (read == system.size) (not (found.pbi_status == 5))).0 full in
          let whole : read ≡ system.size = (==_iff read system.size).0 sized in
          let written : system.proc_pidinfo pid w ≡ ((pos system.size, found), v) =
            sym at ∙ ap {B = (ℤ × BsdInfo) × W} (λ n. ((pos n, found), v)) whole in
          let (i, here, numbered, birth) = laws.shown pid found w v written in
          (
            i,
            here,
            numbered,
            birth ∙ ap birth_of same,
            subst (λ f. f.pbi_status ≢ 5) same (ground (arith, running)),
          )
      go ((negsuc read, found), v) at h = cc

  alive-current :
      (owner : OwnerProcess) (w : W)
      → (is_alive system owner w).0 ≡ true
      → (i : I) × (laws.current w owner.pid ≡ some i)
        × (laws.number i ≡ owner.pid)
        × (laws.birth i ≡ owner.birth)
  unfolding is_alive
  alive-current owner w h = elim (Option-cases (macos_info system owner.pid w).0) [
    | inl missing ↦ let no : false ≡ true = subst (λ o. born owner o ≡ true) missing h in cc
    | inr (info, found) ↦
        let (i, here, numbered, birth, _) = info-current owner.pid info w found in
        let same = pair_eq (birth_of info) owner.birth (subst (λ o. born owner o ≡ true) found h) in
        (i, here, numbered, birth ∙ same)
  ]

  -- By what macOS promises of processes: an opened owner is the process that has the number then, and
  -- whenever the owner is said to live later, the process with the number is still that one. A
  -- process that takes over the number of the owner is not taken for it.
  pub open_owner-current :
      (pid start_time : ℕ) (w w' : W) (owner : OwnerProcess)
      → open_owner system pid start_time w ≡ (ok owner, w')
      → (owner.pid ≡ pid)
        × ((i : I) × (laws.current w pid ≡ some i)
            × ((u : W) → (is_alive system owner u).0 ≡ true → laws.current u pid ≡ some i))
  unfolding open_owner
  open_owner-current pid start_time w w' owner run =
      let (_, positive, run₁) = continued_lift (ensure (not (pid == 0)) invalid_pid) w _ run in
      let (_, bounded, run₂) = continued_lift (ensure (leb pid i32_max) invalid_pid) w _ run₁ in
      let (info, w₁, found, run₃) = continued (identified (macos_info system pid w)) run₂ in
      let (_, same, run₄) =
        continued_lift (ensure (start_millis info == start_time) time_mismatch) w₁ _ run₃ in
      let (i, here, numbered, birth, _) =
        info-current pid info w (identified-some (macos_info system pid w) info w₁ found) in
      let given : record { pid = pid; uid = info.pbi_ruid; birth = birth_of info } ≡ owner =
        ok-injective (ap (λ (p : Result OwnerError OwnerProcess × W). p.0) run₄) in
      let pid_kept : owner.pid ≡ pid = sym (ap (λ (o : OwnerProcess). o.pid) given) in
      let birth_kept : owner.birth ≡ birth_of info =
        sym (ap (λ (o : OwnerProcess). o.birth) given) in
      (
        pid_kept,
        (
          i,
          here,
          λ u lives.
              let (j, there, numbered_j, birth_j) = alive-current owner u lives in
              let one : j ≡ i =
                laws.unique j i (numbered_j ∙ pid_kept ∙ sym numbered)
                  (birth_j ∙ birth_kept ∙ sym birth) in
              subst (λ n. laws.current u n ≡ some i) pid_kept (there ∙ ap some one),
        ),
      )
