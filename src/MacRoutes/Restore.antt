-- ===== src/MacRoutes/Restore.antt =====
-- `restore_with` undoes what `install` did.
use wg_kotlin.Base.{
  ◌≡◌, refl, sym, ◌∙◌, subst, ◌⊎◌, inl, inr, true, false, Option, none, some, List, [], ◌∷◌, arith,
  Bool-cases, All, Result, ok,
}
use wg_kotlin.MacRoutes.{
  Snapshots, RouteTable, RouteChange, Changes, noted, rtm_add, rtm_delete, put_back, restore_found,
  restore_change, restore_all, restore_with, install,
}
use wg_kotlin.RoutingMessage.{RouteError}
use wg_kotlin.MacRoutes.Table.{IsFiled, Elsewhere, Elsewhere-trans, MayFail, Works}
use wg_kotlin.MacRoutes.Install.{
  Pending, Holds, Distinct, recorded, All-Pending-move, install_keeps,
}

module _ {W K S : Type 0} (snapshots : Snapshots K S) (lookup : W → K → Option S)
    (filed : IsFiled snapshots lookup) (w₀ : W) (table : RouteTable W K S)
    (works : Works snapshots lookup table) where
  open snapshots use {key, same_path, key_eq}

  -- The same entry, or another snapshot of a route that takes the same path.
  abbrev pub Same : Option S → Option S → Type 0
  Same o o₀ = (o ≡ o₀) ⊎ ((s s₀ : S) × (o ≡ some s) × (o₀ ≡ some s₀) × (same_path s s₀ ≡ ok true))

  -- The call succeeds, changes nothing but at `k`, and leaves there what was there at first.
  abbrev Restores : K → W → Result RouteError (Unit {0}) × W → Type 0
  Restores k w p =
      (p.0 ≡ ok tt) × Elsewhere snapshots lookup k w p.1 × Same (lookup p.1 k) (lookup w₀ k)

  put_back-Restores :
      (k : K) (previous : Option S) (w w₁ : W)
      → previous ≡ lookup w₀ k
      → Elsewhere snapshots lookup k w w₁
      → lookup w₁ k ≡ none
      → Restores k w (put_back snapshots table previous w₁)
  unfolding put_back
  put_back-Restores k none w w₁ backup same absent = (refl, same, inl (absent ∙ backup))
  put_back-Restores k (some p) w w₁ backup same absent =
      let (w', e, done) = works.requests k p rtm_add w₁ (filed.filed w₀ k p (sym backup)) absent in
      let (rest, added) = done in
      let (s', here, path) = added in
      rw e (
        refl,
        Elsewhere-trans snapshots lookup k w w₁ w' same rest,
        inr (s', p, here, sym backup, path),
      )

  -- Where the table still holds the session's own route.
  remove-Restores :
      (c : RouteChange K S) (s : S) (w w₁ : W)
      → c.previous ≡ lookup w₀ c.key
      → Elsewhere snapshots lookup c.key w w₁
      → lookup w₁ c.key ≡ some s
      → c.add_attempted ≡ true
      → same_path s c.route ≡ ok true
      → Restores c.key w (restore_found snapshots table c (some s) w₁)
  unfolding restore_found
  remove-Restores c s w w₁ backup same here attempted path =
      let (w', e, done) =
        works.requests c.key s rtm_delete w₁ (filed.filed w₁ c.key s here) (s, here) in
      let (rest, gone) = done in
      rw (attempted, path, e)
        (put_back-Restores c.key c.previous w w' backup
          (Elsewhere-trans snapshots lookup c.key w w₁ w' same rest) gone)

  restore_found-Restores :
      (c : RouteChange K S) (o : Option S) (w w₁ : W)
      → c.previous ≡ lookup w₀ c.key
      → Elsewhere snapshots lookup c.key w w₁
      → lookup w₁ c.key ≡ o
      → Holds snapshots lookup filed w₀ c o
      → Restores c.key w (restore_found snapshots table c o w₁)
  unfolding restore_found
  restore_found-Restores c o w w₁ backup same now (inl absent) =
      rw absent (put_back-Restores c.key c.previous w w₁ backup same (now ∙ absent))
  restore_found-Restores c o w w₁ backup same now (inr (inl (early, old, (s, here)))) =
      rw (here, restore_found, early) (refl, same, inl (now ∙ old ∙ backup))
  restore_found-Restores c o w w₁ backup same now (inr (inr (attempted, (s, here, path)))) =
      rw here (remove-Restores c s w w₁ backup same (now ∙ here) attempted path)

  restore_change-Restores :
      (c : RouteChange K S) (w : W)
      → Pending snapshots lookup filed w₀ w c
      → Restores c.key w (restore_change snapshots table c w)
  unfolding restore_change
  restore_change-Restores c w p =
      let (w₁, e, untouched) = works.finds c.key w in
      rw e (
        restore_found-Restores c (lookup w c.key) w w₁ p.backup (λ j _. untouched j)
          (untouched c.key) p.holds)

  -- Every change that is still to be undone is pending, and the other keys are as they were.
  restore_all-Same :
      (changes : Changes K S) (w : W)
      → All (Pending snapshots lookup filed w₀ w) changes
      → Distinct snapshots lookup filed w₀ changes
      → ((k : K)
          → recorded snapshots lookup filed w₀ k changes ≡ false
          → Same (lookup w k) (lookup w₀ k))
      → let (errors, w') = restore_all snapshots table changes [] w in
        (errors ≡ []) × ((k : K) → Same (lookup w' k) (lookup w₀ k))
  unfolding restore_all
  restore_all-Same [] w h d outside = (refl, λ k. outside k refl)
  restore_all-Same (c ∷ changes) w h d outside =
      go (restore_change snapshots table c w) (restore_change-Restores c w h.0)
        (restore_all-Same changes)
    where
      go :
          (q : Result RouteError (Unit {0}) × W)
          → Restores c.key w q
          → ((u : W)
              → All (Pending snapshots lookup filed w₀ u) changes
              → Distinct snapshots lookup filed w₀ changes
              → ((k : K)
                  → recorded snapshots lookup filed w₀ k changes ≡ false
                  → Same (lookup u k) (lookup w₀ k))
              → let (errors, w') = restore_all snapshots table changes [] u in
                (errors ≡ []) × ((k : K) → Same (lookup w' k) (lookup w₀ k)))
          → let (errors, w') = restore_all snapshots table changes (noted q.0 []) q.1 in
            (errors ≡ []) × ((k : K) → Same (lookup w' k) (lookup w₀ k))
      go (r, u) (e, same, back) rest = rw e (
          rest u (All-Pending-move snapshots lookup filed w₀ c.key w u changes d.0 same h.1) d.1
            here)
        where
          here :
              (k : K)
              → recorded snapshots lookup filed w₀ k changes ≡ false
              → Same (lookup u k) (lookup w₀ k)
          here k fresh = elim (Bool-cases (key_eq c.key k)) [
            | inl hit ↦
                subst (λ j. Same (lookup u j) (lookup w₀ j)) ((filed.key_eq_iff c.key k).0 hit) back
            | inr miss ↦
                subst (λ o. Same o (lookup w₀ k)) (sym (same k miss)) (outside k (ground arith))
          ]

  -- Whatever routes were requested, and whichever calls of `install` failed, carried out or not,
  -- restoring over a table that works succeeds, leaves no change recorded, and leaves at every key
  -- what the table held before `install`: the same entry, or one that takes the same path.
  pub restore_with-install :
      (faulty : RouteTable W K S)
      → MayFail snapshots lookup faulty
      → (requests : List (Result RouteError S))
      → let (r, after) = install snapshots faulty requests ([], w₀) in
        let (r', (changes', w')) = restore_with snapshots table after in
        (r' ≡ ok tt) × (changes' ≡ []) × ((k : K) → Same (lookup w' k) (lookup w₀ k))
  unfolding restore_with
  restore_with-install faulty faults requests =
      let inv = install_keeps snapshots lookup filed w₀ faulty faults requests in
      let after = (install snapshots faulty requests ([], w₀)).1 in
      let (none_left, same) =
        restore_all-Same after.0 after.1 inv.pending inv.distinct (λ k e. inl (inv.outside k e)) in
      rw none_left (refl, refl, same)
