-- ===== src/Daemon.antt =====
-- wg-kotlin-daemon-rust/daemon/src/main.rs: the loop of `run`, and `OwnerProcess::authorizes` of
-- wg-kotlin-daemon-rust/daemon/src/owner.rs.
pub mod Start
pub mod Draining
pub mod Run
pub mod Ending
pub mod Exiting
use wg_kotlin.Base.{
  ℕ, ◌≡◌, refl, inl, inr, Bool, true, false, not, ◌&&◌, Option, none, some, List, [], ◌∷◌, ◌++◌,
  arith, ◌==◌, ==_iff, append-nil, append_assoc, sym, ap, ◌∙◌, subst, if◌then◌else◌, Bool-cases,
  Result, ok, err,
}
use wg_kotlin.Frame.{IoError}

-- A wake-up of the loop's `select!`, with whether the owner is alive at that time.
pub data Event : Type 0 where
  signalled shutdown_requested tick joined : Event
  accepted : (peer_pid : ℕ) → Event
  accept_failed : IoError → Event

pub record Wake : Type 0 where
  pub event : Event
  pub owner_alive : Bool

unfoldable pub authorizes : (owner_pid : ℕ) (alive : Bool) (peer_pid : ℕ) → Bool
authorizes owner_pid alive peer_pid = peer_pid == owner_pid && alive

abbrev pub Accepting : Type 0
Accepting = List ℕ → Option (Result IoError (Unit {0})) × List ℕ

module _ (owner_pid : ℕ) where
  abbrev on_event : Event → Bool → Accepting → Accepting
  unfolding authorizes
  on_event signalled alive rest served = (some (ok tt), served)
  on_event shutdown_requested alive rest served = (some (ok tt), served)
  on_event tick alive rest served = if alive then rest served else (some (ok tt), served)
  on_event joined alive rest served = rest served
  on_event (accept_failed e) alive rest served = (some (err e), served)
  on_event (accepted peer_pid) alive rest served =
      if not (authorizes owner_pid alive peer_pid)
      then rest served
      else rest (served ++ peer_pid ∷ [])

  -- The result with which the loop is left, `none` while it runs, and the processes whose
  -- connections were served.
  unfoldable pub accept_loop : List Wake → Accepting
  unfolding on_event
  accept_loop [] served = (none, served)
  accept_loop (wake ∷ wakes) served =
      on_event wake.event wake.owner_alive (accept_loop wakes) served

  -- A signal, a request to shut down, or the monitor when the owner is gone.
  abbrev pub EndsDaemon : Event → Bool → Type 0
  EndsDaemon signalled alive = Unit
  EndsDaemon shutdown_requested alive = Unit
  EndsDaemon tick alive = alive ≡ false
  EndsDaemon joined alive = ⊥
  EndsDaemon (accept_failed e) alive = ⊥
  EndsDaemon (accepted peer_pid) alive = ⊥

  -- Which connections are to be served, in their order: each accepted from the owner's process number
  -- while the owner is alive, and no other, up to the wake-up that ends the loop.
  pub data Serves : List Wake → List ℕ → Type 0 where
    at_end : Serves [] []
    ends :
        (event : Event) (alive : Bool) (wakes : List Wake)
        → EndsDaemon event alive
        → Serves (record { event = event; owner_alive = alive } ∷ wakes) []
    fails :
        (e : IoError) (alive : Bool) (wakes : List Wake)
        → Serves (record { event = accept_failed e; owner_alive = alive } ∷ wakes) []
    watches :
        (wakes : List Wake) (pids : List ℕ)
        → Serves wakes pids
        → Serves (record { event = tick; owner_alive = true } ∷ wakes) pids
    joins :
        (alive : Bool) (wakes : List Wake) (pids : List ℕ)
        → Serves wakes pids
        → Serves (record { event = joined; owner_alive = alive } ∷ wakes) pids
    serves :
        (wakes : List Wake) (pids : List ℕ)
        → Serves wakes pids
        → Serves
            (record { event = accepted owner_pid; owner_alive = true } ∷ wakes)
            (owner_pid ∷ pids)
    refuses :
        (peer_pid : ℕ) (alive : Bool) (wakes : List Wake) (pids : List ℕ)
        → ¬ ((peer_pid ≡ owner_pid) × (alive ≡ true))
        → Serves wakes pids
        → Serves (record { event = accepted peer_pid; owner_alive = alive } ∷ wakes) pids

  -- The processes that were served before, and then those that are to be.
  abbrev pub ServesAfter : List Wake → List ℕ → List ℕ → Type 0
  ServesAfter wakes served all_served =
      (pids : List ℕ) × Serves wakes pids × (all_served ≡ served ++ pids)

  event_served :
      (event : Event) (alive : Bool) (wakes : List Wake) (rest : Accepting) (served : List ℕ)
      → ((before : List ℕ) → ServesAfter wakes before (rest before).1)
      → ServesAfter
          (record { event = event; owner_alive = alive } ∷ wakes)
          served
          (on_event event alive rest served).1
  unfolding on_event authorizes
  event_served signalled alive wakes rest served keeps =
      ([], ends signalled alive wakes tt, sym (append-nil served))
  event_served shutdown_requested alive wakes rest served keeps =
      ([], ends shutdown_requested alive wakes tt, sym (append-nil served))
  event_served tick true wakes rest served keeps =
      let (pids, h, e) = keeps served in (pids, watches wakes pids h, e)
  event_served tick false wakes rest served keeps =
      ([], ends tick false wakes refl, sym (append-nil served))
  event_served joined alive wakes rest served keeps =
      let (pids, h, e) = keeps served in (pids, joins alive wakes pids h, e)
  event_served (accept_failed e) alive wakes rest served keeps =
      ([], fails e alive wakes, sym (append-nil served))
  event_served (accepted peer_pid) true wakes rest served keeps =
      elim (Bool-cases (peer_pid == owner_pid)) [
        | inl same ↦
            let (pids, h, e) = keeps (served ++ peer_pid ∷ []) in
            let owner : owner_pid ≡ peer_pid = sym ((==_iff peer_pid owner_pid).0 same) in
            rw same (
              owner_pid ∷ pids,
              subst
                  (λ n.
                    Serves (record { event = accepted n; owner_alive = true } ∷ wakes)
                      (owner_pid ∷ pids))
                  owner (serves wakes pids h),
              e
                  ∙ append_assoc served (peer_pid ∷ []) pids
                  ∙ ap (λ n. served ++ n ∷ pids) (sym owner),
            )
        | inr foreign ↦
            let (pids, h, e) = keeps served in
            rw foreign (
              pids,
              refuses peer_pid true wakes pids
                  (λ p. absurd (cc (sym foreign ∙ (==_iff peer_pid owner_pid).1 p.0))) h,
              e,
            )
      ]
  event_served (accepted peer_pid) false wakes rest served keeps =
      elim (Bool-cases (peer_pid == owner_pid)) [
        | inl same ↦
            let (pids, h, e) = keeps served in
            rw same (pids, refuses peer_pid false wakes pids (λ p. cc (p.1)) h, e)
        | inr foreign ↦
            let (pids, h, e) = keeps served in
            rw foreign (pids, refuses peer_pid false wakes pids (λ p. cc (p.1)) h, e)
      ]

  -- The connections that are served, in their order, are those accepted from the owner's process
  -- number while the owner is alive, and no other, up to the wake-up that ends the loop: a signal, a
  -- request to shut down, a tick of the monitor without a living owner, or a failed accept.
  pub accept_loop-Serves :
      (wakes : List Wake) (served : List ℕ)
      → (pids : List ℕ) × Serves wakes pids × ((accept_loop wakes served).1 ≡ served ++ pids)
  unfolding accept_loop
  accept_loop-Serves [] served = ([], at_end, sym (append-nil served))
  accept_loop-Serves (wake ∷ wakes) served =
      event_served wake.event wake.owner_alive wakes (accept_loop wakes) served
        (accept_loop-Serves wakes)

  abbrev pub or_left :
      Option (Result IoError (Unit {0})) × List ℕ → Option (Result IoError (Unit {0})) × List ℕ
  or_left (none, served) = (some (ok tt), served)
  or_left (some result, served) = (some result, served)

  event_ends :
      (event : Event) (alive : Bool) (rest : Accepting) (served : List ℕ)
      → EndsDaemon event alive
      → on_event event alive rest served ≡ (some (ok tt), served)
  unfolding on_event
  event_ends signalled alive rest served h = refl
  event_ends shutdown_requested alive rest served h = refl
  event_ends tick alive rest served h = rw h refl
  event_ends joined alive rest served h = absurd h
  event_ends (accept_failed e) alive rest served h = absurd h
  event_ends (accepted peer_pid) alive rest served h = absurd h

  event_left :
      (event : Event) (alive : Bool) (long short : Accepting) (served : List ℕ)
      → ((pids : List ℕ) → long pids ≡ or_left (short pids))
      → on_event event alive long served ≡ or_left (on_event event alive short served)
  unfolding on_event authorizes
  event_left signalled alive long short served same = refl
  event_left shutdown_requested alive long short served same = refl
  event_left tick true long short served same = same served
  event_left tick false long short served same = refl
  event_left joined alive long short served same = same served
  event_left (accept_failed e) alive long short served same = refl
  event_left (accepted peer_pid) alive long short served same =
      elim (Bool-cases (authorizes owner_pid alive peer_pid)) [
        | inl e ↦ rw e (same (served ++ peer_pid ∷ []))
        | inr e ↦ rw e (same served)
      ]

  -- A signal, a request to shut down, or a tick of the monitor without a living owner leaves the
  -- loop without an error, if it was not left before: no later connection is served.
  pub accept_loop-EndsDaemon :
      (before after : List Wake) (wake : Wake) (served : List ℕ)
      → EndsDaemon wake.event wake.owner_alive
      → accept_loop (before ++ wake ∷ after) served ≡ or_left (accept_loop before served)
  unfolding accept_loop
  accept_loop-EndsDaemon [] after wake served h =
      event_ends wake.event wake.owner_alive (accept_loop after) served h
  accept_loop-EndsDaemon (first ∷ before) after wake served h =
      event_left first.event first.owner_alive (accept_loop (before ++ wake ∷ after))
        (accept_loop before) served (λ pids. accept_loop-EndsDaemon before after wake pids h)
