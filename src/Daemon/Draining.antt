-- ===== src/Daemon/Draining.antt =====
-- The end of `run` in wg-kotlin-daemon-rust/daemon/src/main.rs: how long it waits for the connections
-- and, by `wait_for_sessions` of wg-kotlin-daemon-rust/daemon/src/server.rs, for the sessions.
use wg_kotlin.Base.{
  ℕ, zero, suc, ◌+◌, ◌*◌, ◌≤◌, ◌<◌, max, ◌≡◌, refl, sym, ap, ◌∙◌, subst, ◌↔◌, inl, inr, Bool, true,
  false, not, Option, none, some, List, [], ◌∷◌, arith, leb, leb→le, if◌then◌else◌, Bool-cases, any,
  All,
}
use wg_kotlin.Daemon.{Wake}

-- What happens from outside: the wake-ups of the loop, and how many milliseconds after it each
-- connection and each session ends, if it does. No session begins after the last connection's end.
pub record Course : Type 0 where
  pub wakes : List Wake
  pub connections_end : List (Option ℕ)
  pub sessions_end : List (Option ℕ)

abbrev pub within : ℕ → Option ℕ → Bool
within millis none = false
within millis (some t) = leb t millis

-- `active_sessions` is not empty at a time.
abbrev pub active : List (Option ℕ) → ℕ → Bool
active sessions_end now = any (λ t. not (within now t)) sessions_end

-- `while connections.join_next().await.is_some() {}`: when the last connection has been joined.
abbrev later : ℕ → Option ℕ → Option ℕ
later t none = none
later t (some u) = some (max t u)

unfoldable pub joined_all : List (Option ℕ) → Option ℕ
joined_all [] = some 0
joined_all (none ∷ ends) = none
joined_all (some t ∷ ends) = later t (joined_all ends)

-- The time at which the set is seen to be empty, with the number of looks at it left; a look at each
-- 10 milliseconds.
unfoldable pub wait_for_sessions : ℕ → (ℕ → Bool) → ℕ → Option ℕ
wait_for_sessions zero busy now = none
wait_for_sessions (suc looks) busy now =
    let rest = wait_for_sessions looks busy (now + 10) in if busy now then rest else some now

-- The looks that can be within 4 s, the first at 0 included.
abbrev pub looks_in_time : ℕ
looks_in_time = 401

abbrev drained_from : List (Option ℕ) → Option ℕ → Bool
drained_from sessions_end none = false
drained_from sessions_end (some now) =
    within 4000 (wait_for_sessions looks_in_time (active sessions_end) now)

-- The future inside `timeout(Duration::from_secs(4), …)` completes in time.
unfoldable pub drains : Course → Bool
unfolding joined_all
drains course = drained_from course.sessions_end (joined_all course.connections_end)

-- It ended at a time, or before.
abbrev pub EndsBy : ℕ → Option ℕ → Type 0
EndsBy now none = ⊥
EndsBy now (some t) = t ≤ now

-- All have ended at that time, and not all before it.
abbrev pub LastEnd : List (Option ℕ) → ℕ → Type 0
LastEnd ends now = All (EndsBy now) ends × ((t : ℕ) → All (EndsBy t) ends → now ≤ t)

-- All connections have ended at some time, and all sessions at it or some steps of 10 ms later, which
-- is within 4 s.
abbrev pub Drained : Course → Type 0
Drained course =
    (last steps : ℕ) × LastEnd course.connections_end last
    × All (EndsBy (last + 10 * steps)) course.sessions_end
    × (last + 10 * steps ≤ 4000)

some-injective : {a b : ℕ} → some a ≡ some b → a ≡ b
some-injective h = cc

le→leb : (a b : ℕ) → a ≤ b → leb a b ≡ true
le→leb a b h = ground (arith, h)

EndsBy-later :
    (s t : ℕ) (ends : List (Option ℕ)) → s ≤ t → All (EndsBy s) ends → All (EndsBy t) ends
EndsBy-later s t [] h ended = tt
EndsBy-later s t (none ∷ ends) h ended = absurd ended.0
EndsBy-later s t (some u ∷ ends) h (first, ended) = (omega arith, EndsBy-later s t ends h ended)

joined_all-LastEnd :
    (ends : List (Option ℕ)) (now : ℕ) → joined_all ends ≡ some now → LastEnd ends now
unfolding joined_all
joined_all-LastEnd [] now h = (tt, λ t ended. ground (arith, h))
joined_all-LastEnd (none ∷ ends) now h = cc
joined_all-LastEnd (some t ∷ ends) now h = go (joined_all ends) (joined_all-LastEnd ends) h
  where
    go :
        (rest : Option ℕ)
        → ((u : ℕ) → rest ≡ some u → LastEnd ends u)
        → later t rest ≡ some now
        → LastEnd (some t ∷ ends) now
    go none ends_at h = cc
    go (some u) ends_at h =
        let (ended, least) = ends_at u refl in
        let at : max t u ≡ now = some-injective h in
        (
          (omega arith, EndsBy-later u now ends (omega arith) ended),
          λ v (first, others). let bound = least v others in omega arith,
        )

LastEnd-joined_all :
    (ends : List (Option ℕ)) (t : ℕ)
    → All (EndsBy t) ends
    → (now : ℕ) × (joined_all ends ≡ some now)
unfolding joined_all
LastEnd-joined_all [] t ended = (0, refl)
LastEnd-joined_all (none ∷ ends) t ended = absurd ended.0
LastEnd-joined_all (some u ∷ ends) t (first, ended) =
    let (now, e) = LastEnd-joined_all ends t ended in (max u now, rw e refl)

active_iff : (ends : List (Option ℕ)) (now : ℕ) → (active ends now ≡ false) ↔ All (EndsBy now) ends
active_iff [] now = (λ e. tt, λ e. refl)
active_iff (none ∷ ends) now = (λ e. cc, λ e. absurd e.0)
active_iff (some t ∷ ends) now = elim (Bool-cases (leb t now)) [
  | inl ended ↦
      let (there, back) = active_iff ends now in
      (λ e. (leb→le t now ended, there (rw ended at e)), λ e. rw ended (back (e.1)))
  | inr late ↦ (λ e. absurd (cc (rw late at e)), λ e. absurd (cc (sym late ∙ le→leb t now e.0)))
]

-- The set is seen to be empty only at a step of 10 ms, when it is.
wait_for_sessions-empty :
    (looks : ℕ) (busy : ℕ → Bool) (now seen : ℕ)
    → wait_for_sessions looks busy now ≡ some seen
    → (steps : ℕ) × (seen ≡ now + 10 * steps) × (busy seen ≡ false)
unfolding wait_for_sessions
wait_for_sessions-empty zero busy now seen h = cc
wait_for_sessions-empty (suc looks) busy now seen h = elim (Bool-cases (busy now)) [
  | inr empty ↦
      let at : now ≡ seen = some-injective (rw empty at h) in
      (0, omega arith, ap busy (sym at) ∙ empty)
  | inl full ↦
      let (steps, at, empty) = wait_for_sessions-empty looks busy (now + 10) seen (rw full at h) in
      (suc steps, omega arith, empty)
]

-- With enough looks it is seen to be empty no later than at any step at which it is.
wait_for_sessions-sees :
    (looks steps : ℕ) (busy : ℕ → Bool) (now : ℕ)
    → steps < looks
    → busy (now + 10 * steps) ≡ false
    → (seen : ℕ) × (wait_for_sessions looks busy now ≡ some seen) × (seen ≤ now + 10 * steps)
unfolding wait_for_sessions
wait_for_sessions-sees zero steps busy now h empty = absurd (omega arith)
wait_for_sessions-sees (suc looks) zero busy now h empty =
    rw (subst (λ t. busy t ≡ false) zero_steps empty) (now, refl, omega arith)
  where
    zero_steps : now + 10 * 0 ≡ now
    zero_steps = omega arith
wait_for_sessions-sees (suc looks) (suc steps) busy now h empty = elim (Bool-cases (busy now)) [
  | inr e ↦ rw e (now, refl, omega arith)
  | inl full ↦
      let at : now + 10 * suc steps ≡ now + 10 + 10 * steps = omega arith in
      let (seen, e, bound) =
        wait_for_sessions-sees looks steps busy (now + 10) (omega arith)
          (subst (λ t. busy t ≡ false) at empty) in
      rw full (seen, e, omega arith)
]

-- The wait succeeds exactly if all connections end, and after the last all sessions have ended at a
-- look within 4 s, a look at each 10 ms.
pub drains_iff : (course : Course) → (drains course ≡ true) ↔ Drained course
unfolding drains
drains_iff course = (there (joined_all ends) refl, back)
  where
    ends : List (Option ℕ)
    ends = course.connections_end

    seen_in_time : (r : Option ℕ) → within 4000 r ≡ true → (t : ℕ) × (r ≡ some t) × (t ≤ 4000)
    seen_in_time none h = cc
    seen_in_time (some t) h = (t, refl, leb→le t 4000 h)

    there :
        (r : Option ℕ)
        → joined_all ends ≡ r
        → drained_from course.sessions_end r ≡ true
        → Drained course
    there none e h = cc
    there (some last) e h =
        let (seen, found, soon) = seen_in_time _ h in
        let (steps, at, empty) =
          wait_for_sessions-empty looks_in_time (active course.sessions_end) last seen found in
        (
          last,
          steps,
          joined_all-LastEnd ends last e,
          (active_iff course.sessions_end (last + 10 * steps)).0
              (ap (active course.sessions_end) (sym at) ∙ empty),
          omega arith,
        )

    back : Drained course → drained_from course.sessions_end (joined_all ends) ≡ true
    back (last, steps, (ended, least), over, soon) =
        let (now, e) = LastEnd-joined_all ends last ended in
        let (ended', least') = joined_all-LastEnd ends now e in
        let same : now ≡ last =
          let low = least now ended' in let high = least' last ended in omega arith in
        let (seen, found, bound) =
          wait_for_sessions-sees looks_in_time steps (active course.sessions_end) now (omega arith)
            ((active_iff course.sessions_end (now + 10 * steps)).1
              (subst (λ t. All (EndsBy (t + 10 * steps)) course.sessions_end) (sym same) over)) in
        let soon' : leb seen 4000 ≡ true = ground arith in rw (e, found) soon'
