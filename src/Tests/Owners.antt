-- ===== src/Tests/Owners.antt =====
-- Processes that own a daemon, on each system.
use wg_kotlin.Base.{
  ℕ, zero, suc, ◌≤◌, ◌<◌, ◌≡◌, refl, sym, ap, ◌∙◌, subst, inl, inr, Bool, true, none, List, [], ◌∷◌,
  ◌++◌, arith, ◌==◌, if◌then◌else◌, ==_iff, Bool-cases, replicate, All, All-append, Result, ok, err,
  ok-injective,
}
use wg_kotlin.Base.Int.{pos}
use wg_kotlin.Text.{Str, codes, str_eq, strip_prefix}
use wg_kotlin.Text.Laws.{join}
use wg_kotlin.Text.Decimal.{decimal, digits_from}
use wg_kotlin.Text.Lines.{IsWord, get, text_of}
use wg_kotlin.Frame.{IoError, interrupted}
use wg_kotlin.Owner.{OwnerError, Credentials, allow_owner_signals, i32_max}
use wg_kotlin.Owner.Proc.{decimal-IsWord, ShowsUid, ShowsStart, uid_label}
use wg_kotlin.Owner.Linux.{
  ProcessApi, held, proc_path, open_owner, identify, ensure_alive, is_alive,
}
use wg_kotlin.Owner.Identity.{ProcessLaws, IsOwner, open_owner-IsOwner}
use wg_kotlin.Owner.Verdict.{verdict, open_owner-verdict}
use wg_kotlin.Daemon.Start.{Cli, prepare_owner, ensure_root}

abbrev status_lines : List Str
status_lines = (uid_label ++ 9 ∷ (decimal 1000 ++ 9 ∷ [])) ∷ codes "Gid:" ∷ []

abbrev status_text : Str
status_text = text_of (codes "Name: app" ∷ status_lines)

abbrev fields : List Str
fields = replicate 19 (codes "S") ++ decimal 77 ∷ []

-- The process is called "a) 9".
abbrev stat_text : Str
stat_text = codes "41 (a) 9" ++ b')' ∷ (b' ' ∷ (join b' ' fields ++ 10 ∷ []))

shows_uid : ShowsUid 1000 status_text
unfolding decimal digits_from strip_prefix
shows_uid =
    (codes "Name: app" ∷ [], codes "Gid:" ∷ [], [], refl, ground arith, ground arith, ground arith)

letter-IsWord : IsWord (codes "S")
letter-IsWord = record { some_char = λ e. cc; solid = ground arith }

letters : (n : ℕ) → All IsWord (replicate n (codes "S"))
letters zero = tt
letters (suc n) = (letter-IsWord, letters n)

shows_start : ShowsStart 77 stat_text
unfolding decimal digits_from get
shows_start = (
  codes "41 (a) 9",
  fields,
  refl,
  All-append IsWord (replicate 19 (codes "S")) (decimal 77 ∷ []) (letters 19)
      (decimal-IsWord 77, tt),
  ground arith,
  refl,
  ground arith,
)

-- One process, with the number 41.
abbrev pub processes : ProcessApi Bool ℕ
processes = record {
  pidfd_open = λ pid w. (if pid == 41 then ok 41 else err interrupted, w);
  read_to_string = λ path w.
      (ok (if str_eq path (proc_path 41 (codes "status")) then status_text else stat_text), w);
  poll = λ h w. (pos 0, w);
}

abbrev Is41 : Bool → ℕ → Type 0
Is41 w i = i ≡ 41

abbrev Runs : Bool → ℕ → Type 0
Runs w i = Unit

opened_41 :
    (pid h : ℕ) (w w' : Bool) → processes.pidfd_open pid w ≡ (ok h, w') → (h ≡ pid) × (h ≡ 41)
opened_41 pid h w w' e = elim (Bool-cases (pid == 41)) [
  | inl same ↦
      let run = rw same at e in
      let one : h ≡ 41 = sym (ok-injective (ap (λ (p : Result IoError ℕ × Bool). p.0) run)) in
      (one ∙ sym ((==_iff pid 41).0 same), one)
  | inr other ↦ let run = rw other at e in cc
]

read_status :
    (text : Str) (w w' : Bool)
    → processes.read_to_string (proc_path 41 (codes "status")) w ≡ (ok text, w')
    → status_text ≡ text
unfolding str_eq decimal digits_from
read_status text w w' e = ok-injective (ap (λ (p : Result IoError Str × Bool). p.0) e)

read_stat :
    (text : Str) (w w' : Bool)
    → processes.read_to_string (proc_path 41 (codes "stat")) w ≡ (ok text, w')
    → stat_text ≡ text
unfolding str_eq decimal digits_from
read_stat text w w' e = ok-injective (ap (λ (p : Result IoError Str × Bool). p.0) e)

process_laws : ProcessLaws processes ℕ Is41 Runs
process_laws = record {
  instance_of = λ h. h;
  number = λ i. i;
  started = λ i. 77;
  user = λ w i. 1000;
  opened = opened_41;
  read_keeps = λ path i w h. (h, λ a. a);
  polled = λ h w w' e p. (tt, tt);
  status_shows = λ i text w w' e a r.
      subst (ShowsUid 1000)
        (read_status text w w' (
          subst (λ n. processes.read_to_string (proc_path n (codes "status")) w ≡ (ok text, w')) e
            r))
        shows_uid;
  stat_shows = λ i text w w' e a r.
      subst (ShowsStart 77)
        (read_stat text w w' (
          subst (λ n. processes.read_to_string (proc_path n (codes "stat")) w ≡ (ok text, w')) e r))
        shows_start;
}

reads_status :
    processes.read_to_string (proc_path 41 (codes "status")) true ≡ (ok status_text, true)
unfolding str_eq decimal digits_from
reads_status = refl

reads_stat : processes.read_to_string (proc_path 41 (codes "stat")) true ≡ (ok stat_text, true)
unfolding str_eq decimal digits_from
reads_stat = refl

opens : (w : Bool) → open_owner processes 41 77 w ≡ (ok (held 41 1000 41), w)
unfolding open_owner identify ensure_alive is_alive wg_kotlin.Owner.Proc.real_uid
    wg_kotlin.Owner.Proc.start_ticks wg_kotlin.Owner.Proc.find_map wg_kotlin.Text.Lines.lines
    wg_kotlin.Text.Lines.split_whitespace wg_kotlin.Text.Lines.split_by
    wg_kotlin.Text.Lines.rsplit_once get wg_kotlin.Text.parse_number wg_kotlin.Text.parse_digits
    wg_kotlin.Text.split strip_prefix str_eq decimal digits_from
opens w = refl

open_owner-IsOwner_example :
    (0 < 41)
    × (41 ≤ i32_max)
    × ((w₁ : Bool) × (processes.pidfd_open 41 true ≡ (ok 41, w₁))
        × IsOwner processes Is41 Runs process_laws 41 77 (held 41 1000 41) w₁ true)
open_owner-IsOwner_example =
    open_owner-IsOwner processes Is41 Runs process_laws 41 77 true true (held 41 1000 41)
      (opens true)

open_owner-verdict_example :
    open_owner processes 41 78 true ≡ verdict processes (held 41 1000 41) (77 == 78) true
open_owner-verdict_example =
    open_owner-verdict processes 41 78 1000 77 41 status_text stat_text true true true true
      (omega arith) (omega arith) refl reads_status reads_stat shows_uid shows_start

-- Root, and a change of user that always succeeds.
abbrev pub credentials : Credentials Bool
credentials = record {
  setreuid = λ real effective w. (pos 0, w);
  last_os_error = λ w. interrupted;
  getuid = λ w. 1000;
  geteuid = λ w. 0;
}

abbrev pub cli : Cli
cli = record {
  endpoint = codes "/tmp/wg-kotlin-1/s";
  owner_pid = 41;
  owner_start_time = 77;
  log_path = none;
}

pub prepares : (w : Bool) → prepare_owner credentials processes cli w ≡ (ok (held 41 1000 41), w)
unfolding prepare_owner ensure_root allow_owner_signals
prepares w = rw (opens w) refl
