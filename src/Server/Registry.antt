-- ===== src/Server/Registry.antt =====
-- The set of active sessions beside the tasks that serve them.
use wg_kotlin.Base.{
  ◌≤◌, ◌≡◌, refl, sym, ap, ◌∙◌, subst, inl, inr, Bool, false, not, Option, List, [], ◌∷◌, ◌++◌, map,
  arith, Bool-cases, length, length-keep-le, Result, ok, err,
}
use wg_kotlin.Text.{Str, str_eq}
use wg_kotlin.Text.Laws.{str_eq_iff}
use wg_kotlin.Protocol.{TunSessionConfig}
use wg_kotlin.Validation.{Os}
use wg_kotlin.Platform.Commands.{contains}
use wg_kotlin.Server.{Status, ClientPayload, session, remove, canonical}
use wg_kotlin.Server.Admission.{session-Outcome, Admitted, Outcome}

-- A task that `session` spawned: it first configures the system, for the name that was reserved, and
-- then serves a device, which has its own name.
pub data Task : Type 0 where
  initializing : Str → Task
  serving : Str → Task

-- The name that the task removes when it ends.
abbrev pub task_name : Task → Str
task_name (initializing interface_name) = interface_name
task_name (serving interface_name) = interface_name

pub record Daemon : Type 0 where
  pub active_sessions : List Str
  pub tasks : List Task

abbrev pub daemon : List Str → List Task → Daemon
daemon active tasks = record { active_sessions = active; tasks = tasks }

-- Each step holds the lock on the set at most once. `device_name` is the name that the device gets.
pub data Step (os : Os) (device_name : Str → Str) : Daemon → Daemon → Type 0 where
  admitted :
      (shutting_down : Bool) (first : Option (Result Status (Option ClientPayload)))
      (config : TunSessionConfig) (active after : List Str) (tasks : List Task)
      → session os shutting_down first active ≡ (ok config, after)
      → Step os device_name
          (daemon active tasks)
          (daemon after (initializing config.interface_name ∷ tasks))
  refused :
      (shutting_down : Bool) (first : Option (Result Status (Option ClientPayload))) (s : Status)
      (active after : List Str) (tasks : List Task)
      → session os shutting_down first active ≡ (err s, after)
      → Step os device_name (daemon active tasks) (daemon after tasks)
  started :
      (name : Str) (active : List Str) (before after : List Task)
      → Step os device_name
          (daemon active (before ++ initializing name ∷ after))
          (daemon active (before ++ serving (device_name name) ∷ after))
  ended :
      (task : Task) (active : List Str) (before after : List Task)
      → Step os device_name
          (daemon active (before ++ task ∷ after))
          (daemon (remove (task_name task) active) (before ++ after))

pub data Reaches (os : Os) (device_name : Str → Str) : Daemon → Type 0 where
  new : Reaches os device_name (daemon [] [])
  step :
      {d e : Daemon} → Reaches os device_name d → Step os device_name d e → Reaches os device_name e

abbrev pub NoDup : List Str → Type 0
NoDup [] = Unit
NoDup (s ∷ ss) = (contains ss s ≡ false) × NoDup ss

-- The set holds the names of the tasks, each once, and at most 16 of them.
pub record Inv (d : Daemon) : Type 0 where
  pub names : d.active_sessions ≡ map task_name d.tasks
  pub distinct : NoDup d.active_sessions
  pub bounded : length d.active_sessions ≤ 16

remove_fresh : (s : Str) (ss : List Str) → contains ss s ≡ false → remove s ss ≡ ss
unfolding contains remove
remove_fresh s [] h = refl
remove_fresh s (t ∷ ss) h = elim (Bool-cases (str_eq t s)) [
  | inl e ↦ absurd (ground (arith, e, h))
  | inr e ↦
      let rest : contains ss s ≡ false = ground (arith, e, h) in
      rw e (ap (λ r. t ∷ r) (remove_fresh s ss rest))
]

map-append : {A B : Type 0} (f : A → B) (xs ys : List A) → map f (xs ++ ys) ≡ map f xs ++ map f ys
map-append f [] ys = refl
map-append f (x ∷ xs) ys = ap (λ r. f x ∷ r) (map-append f xs ys)

contains-middle :
    (xs ys : List Str) (n s : Str)
    → contains (xs ++ n ∷ ys) s ≡ false
    → (str_eq n s ≡ false) × (contains (xs ++ ys) s ≡ false)
unfolding contains
contains-middle [] ys n s h = (ground (arith, h), ground (arith, h))
contains-middle (x ∷ xs) ys n s h = elim (Bool-cases (str_eq x s)) [
  | inl e ↦ absurd (ground (arith, e, h))
  | inr e ↦
      let (other, rest) = contains-middle xs ys n s (ground (arith, e, h)) in
      (other, rw (e, rest) refl)
]

differ_sym : (s t : Str) → str_eq s t ≡ false → str_eq t s ≡ false
differ_sym s t h = elim (Bool-cases (str_eq t s)) [
  | inl e ↦ absurd (ground (arith, h, (str_eq_iff s t).1 (sym ((str_eq_iff t s).0 e))))
  | inr e ↦ e
]

NoDup-middle :
    (xs ys : List Str) (n : Str)
    → NoDup (xs ++ n ∷ ys)
    → (remove n (xs ++ n ∷ ys) ≡ xs ++ ys) × NoDup (xs ++ ys)
unfolding remove
NoDup-middle [] ys n (fresh, h) = (rw ((str_eq_iff n n).1 refl) (remove_fresh n ys fresh), h)
NoDup-middle (x ∷ xs) ys n (fresh, h) =
    let (other, rest) = contains-middle xs ys n x fresh in
    let (same, distinct) = NoDup-middle xs ys n h in
    let differ : str_eq x n ≡ false = differ_sym n x other in
    (rw (differ, same) refl, (rest, distinct))

length_removed : (n : Str) (ss : List Str) → length ss ≤ 16 → length (remove n ss) ≤ 16
unfolding remove
length_removed n ss h = omega (arith, length-keep-le (λ s. not (str_eq s n)) ss, h)

module _ (os : Os) (device_name : Str → Str) (named : (n : Str) → device_name n ≡ n) where
  Admitted-Inv :
      (shutting_down : Bool) (first : Option (Result Status (Option ClientPayload)))
      (config : TunSessionConfig) (active after : List Str) (tasks : List Task)
      → Inv (daemon active tasks)
      → Admitted os shutting_down first active config after
      → Inv (daemon after (initializing config.interface_name ∷ tasks))
  Admitted-Inv shutting_down first config active after tasks i h =
      let same : config.interface_name ≡ canonical os h.config.interface_name =
        ap (λ (c : TunSessionConfig). c.interface_name) h.hands_on in
      let grown : after ≡ config.interface_name ∷ active = rw same h.reserves in
      record {
        names = grown ∙ ap (λ r. config.interface_name ∷ r) i.names;
        distinct = subst NoDup (sym grown) (rw same h.fresh, i.distinct);
        bounded = rw grown (ground (arith, h.room));
      }

  started_names :
      (name : Str) (before after : List Task)
      → map task_name (before ++ serving (device_name name) ∷ after)
        ≡ map task_name (before ++ initializing name ∷ after)
  started_names name [] after = ap (λ n. n ∷ map task_name after) (named name)
  started_names name (task ∷ before) after =
      ap (λ r. task_name task ∷ r) (started_names name before after)

  ended_Inv :
      (task : Task) (active : List Str) (before after : List Task)
      → Inv (daemon active (before ++ task ∷ after))
      → Inv (daemon (remove (task_name task) active) (before ++ after))
  ended_Inv task active before after i =
      let listed : active ≡ map task_name before ++ task_name task ∷ map task_name after =
        i.names ∙ map-append task_name before (task ∷ after) in
      let (left, distinct) =
        NoDup-middle (map task_name before) (map task_name after) (task_name task)
          (subst NoDup listed i.distinct) in
      let now : remove (task_name task) active ≡ map task_name before ++ map task_name after =
        rw listed left in
      record {
        names = now ∙ sym (map-append task_name before after);
        distinct = subst NoDup (sym now) distinct;
        bounded = length_removed (task_name task) active i.bounded;
      }

  Step-keeps : {d e : Daemon} → Step os device_name d e → Inv d → Inv e
  Step-keeps (admitted shutting_down first config active after tasks h) i =
      Admitted-Inv shutting_down first config active after tasks i (
        subst (Outcome os shutting_down first active) h
          (session-Outcome os shutting_down first active))
  Step-keeps (refused shutting_down first s active after tasks h) i =
      let (same, _) =
        subst (Outcome os shutting_down first active) h
          (session-Outcome os shutting_down first active) in
      subst (λ ss. Inv (daemon ss tasks)) (sym same) i
  Step-keeps (started name active before after) i = record {
    names = i.names ∙ sym (started_names name before after);
    distinct = i.distinct;
    bounded = i.bounded;
  }
  Step-keeps (ended task active before after) i = ended_Inv task active before after i

  -- If the system names a device as it was asked to, then however sessions are asked for, refused,
  -- started and ended, the set holds exactly the names of the tasks that have not ended, no name
  -- twice, and at most 16.
  pub Reaches-Inv : (d : Daemon) → Reaches os device_name d → Inv d
  Reaches-Inv d new = record { names = refl; distinct = tt; bounded = ground arith }
  Reaches-Inv d (step before s) = Step-keeps s (Reaches-Inv _ before)
