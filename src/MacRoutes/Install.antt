-- ===== src/MacRoutes/Install.antt =====
-- The invariant of the recorded changes, and that `install` keeps it whatever fails.
use wg_kotlin.Base.{
  ◌≡◌, refl, sym, ◌∙◌, subst, ◌⊎◌, inl, inr, Bool, true, false, Option, none, some, List, [], ◌∷◌,
  arith, Bool-cases, any, All, Result, ok, err,
}
use wg_kotlin.Base.Eff.{continue}
use wg_kotlin.MacRoutes.{
  Snapshots, RouteTable, RouteChange, Changes, rtm_add, rtm_delete, attempt_add, after_delete,
  keyed, found, checked, replace, add, install, backup_check,
}
use wg_kotlin.RoutingMessage.{RouteError}
use wg_kotlin.MacRoutes.Table.{
  IsFiled, Untouched, Elsewhere, Outcome, Finds, Elsewhere-trans, MayFail,
}

module _ {W K S : Type 0} (snapshots : Snapshots K S) (lookup : W → K → Option S)
    (filed : IsFiled snapshots lookup) (w₀ : W) where
  open snapshots use {key, same_path, key_eq}

  -- A change is recorded for this key.
  abbrev pub recorded : K → Changes K S → Bool
  recorded k = any (λ c. key_eq c.key k)

  -- What the table may hold at the key of a recorded change: nothing; before the new route was
  -- requested, the previous one; or else the new one.
  abbrev pub Holds : RouteChange K S → Option S → Type 0
  Holds c o =
      (o ≡ none)
      ⊎ (((c.add_attempted ≡ false) × (o ≡ c.previous) × ((s : S) × (o ≡ some s)))
          ⊎ ((c.add_attempted ≡ true) × ((s : S) × (o ≡ some s) × (same_path s c.route ≡ ok true))))

  pub record Pending (w : W) (c : RouteChange K S) : Type 0 where
    pub keyed : key c.route ≡ ok c.key
    pub backup : c.previous ≡ lookup w₀ c.key
    pub holds : Holds c (lookup w c.key)

  abbrev pub Distinct : Changes K S → Type 0
  Distinct [] = Unit
  Distinct (c ∷ changes) = (recorded c.key changes ≡ false) × Distinct changes

  -- Every change keeps what the table held at first, and the rest of the table is as it was.
  pub record Inv (changes : Changes K S) (w : W) : Type 0 where
    pub pending : All (Pending w) changes
    pub distinct : Distinct changes
    pub outside : (k : K) → recorded k changes ≡ false → lookup w k ≡ lookup w₀ k

  pub key_ne : (j k : K) → key_eq j k ≡ false → key_eq k j ≡ false
  key_ne j k e =
      ground (arith, (filed.key_eq_iff j k).1, (filed.key_eq_iff k j).0, Bool-cases (key_eq k j))

  pub Pending-move :
      (w w' : W) (c : RouteChange K S)
      → lookup w' c.key ≡ lookup w c.key
      → Pending w c
      → Pending w' c
  Pending-move w w' c same p = record {
    keyed = p.keyed;
    backup = p.backup;
    holds = subst (Holds c) (sym same) p.holds;
  }

  pub All-Pending-move :
      (k : K) (w w' : W) (changes : Changes K S)
      → recorded k changes ≡ false
      → Elsewhere snapshots lookup k w w'
      → All (Pending w) changes
      → All (Pending w') changes
  All-Pending-move k w w' [] fresh same h = tt
  All-Pending-move k w w' (c ∷ changes) fresh same h = (
    Pending-move w w' c (same c.key (key_ne c.key k (ground arith))) h.0,
    All-Pending-move k w w' changes (ground arith) same h.1,
  )

  Inv-Untouched :
      (changes : Changes K S) (w w' : W)
      → Untouched snapshots lookup w w'
      → Inv changes w
      → Inv changes w'
  Inv-Untouched changes w w' same v = record {
    pending = move changes v.pending;
    distinct = v.distinct;
    outside = λ k e. same k ∙ v.outside k e;
  }
    where
      move : (cs : Changes K S) → All (Pending w) cs → All (Pending w') cs
      move [] h = tt
      move (c ∷ cs) h = (Pending-move w w' c (same c.key) h.0, move cs h.1)

  Inv-push :
      (c : RouteChange K S) (changes : Changes K S) (w w' : W)
      → recorded c.key changes ≡ false
      → Elsewhere snapshots lookup c.key w w'
      → Pending w' c
      → Inv changes w
      → Inv (c ∷ changes) w'
  Inv-push c changes w w' fresh same p v = record {
    pending = (p, All-Pending-move c.key w w' changes fresh same v.pending);
    distinct = (fresh, v.distinct);
    outside = λ j e. same j (ground arith) ∙ v.outside j (ground arith);
  }

  module _ (table : RouteTable W K S) (faults : MayFail snapshots lookup table) where
    -- From a table in which only the change's own key may differ, and is free.
    attempt_add-Inv :
        (c : RouteChange K S) (changes : Changes K S) (w w₁ : W)
        → recorded c.key changes ≡ false
        → key c.route ≡ ok c.key
        → Elsewhere snapshots lookup c.key w w₁
        → lookup w₁ c.key ≡ none
        → c.previous ≡ lookup w₀ c.key
        → Inv changes w
        → let (r, (changes', w')) = attempt_add snapshots table c changes w₁ in Inv changes' w'
    unfolding attempt_add
    attempt_add-Inv c changes w w₁ fresh keyed same absent backup v =
        go (table.request c.route rtm_add w₁)
          (faults.requests c.key c.route rtm_add w₁ keyed absent)
      where
        attempted : RouteChange K S
        attempted = record c { add_attempted = true }

        push :
            (w' : W)
            → Elsewhere snapshots lookup c.key w₁ w'
            → Holds attempted (lookup w' c.key)
            → Inv (attempted ∷ changes) w'
        push w' rest h =
            Inv-push attempted changes w w' fresh
              (Elsewhere-trans snapshots lookup c.key w w₁ w' same rest)
              (record { keyed = keyed; backup = backup; holds = h }) v

        go :
            (p : Result RouteError (Unit {0}) × W)
            → Outcome snapshots lookup c.key c.route rtm_add w₁ p
            → Inv (attempted ∷ changes) p.1
        go (ok u, w') (rest, added) = push w' rest (inr (inr (refl, added)))
        go (err e, w') (inl untouched) =
            push w' (λ j _. untouched j) (inl (untouched c.key ∙ absent))
        go (err e, w') (inr (rest, added)) = push w' rest (inr (inr (refl, added)))

    replace-Inv :
        (k : K) (route : S) (previous : Option S) (changes : Changes K S) (w : W)
        → recorded k changes ≡ false
        → key route ≡ ok k
        → previous ≡ lookup w k
        → Inv changes w
        → let (r, (changes', w')) = replace snapshots table k route previous changes w in
          Inv changes' w'
    unfolding replace
    replace-Inv k route none changes w fresh keyed old v =
        attempt_add-Inv (record { key = k; route = route; previous = none; add_attempted = false })
          changes w w fresh keyed (λ j _. refl) (sym old) (old ∙ v.outside k fresh) v
    replace-Inv k route (some p) changes w fresh keyed old v =
        go (table.request p rtm_delete w)
          (faults.requests k p rtm_delete w (filed.filed w k p (sym old)) (p, sym old))
      where
        change : RouteChange K S
        change = record { key = k; route = route; previous = some p; add_attempted = false }

        push :
            (w' : W)
            → Elsewhere snapshots lookup k w w'
            → Holds change (lookup w' k)
            → Inv (change ∷ changes) w'
        push w' rest h =
            Inv-push change changes w w' fresh rest
              (record { keyed = keyed; backup = old ∙ v.outside k fresh; holds = h }) v

        go :
            (q : Result RouteError (Unit {0}) × W)
            → Outcome snapshots lookup k p rtm_delete w q
            → let (r, (changes', w')) = after_delete snapshots table change changes q in
              Inv changes' w'
        go (ok u, w') (rest, gone) =
            attempt_add-Inv change changes w w' fresh keyed rest gone (old ∙ v.outside k fresh) v
        go (err e, w') (inl untouched) =
            push w' (λ j _. untouched j)
              (inr (inl (refl, untouched k ∙ sym old, (p, untouched k ∙ sym old))))
        go (err e, w') (inr (rest, gone)) = push w' rest (inl gone)

    abbrev pub InvAfter : Result RouteError (Unit {0}) × (Changes K S × W) → Type 0
    InvAfter p = Inv p.1.0 p.1.1

    checked-Inv :
        (k : K) (route : S) (previous : Option S) (r : Result RouteError (Unit {0}))
        (changes : Changes K S) (w : W)
        → recorded k changes ≡ false
        → key route ≡ ok k
        → previous ≡ lookup w k
        → Inv changes w
        → InvAfter (checked snapshots table k route previous r changes w)
    checked-Inv k route previous (ok u) changes w fresh keyed old v =
        replace-Inv k route previous changes w fresh keyed old v
    checked-Inv k route previous (err e) changes w fresh keyed old v = v

    found-Inv :
        (k : K) (route : S) (changes : Changes K S) (w : W) (q : Result RouteError (Option S) × W)
        → recorded k changes ≡ false
        → key route ≡ ok k
        → Finds snapshots lookup k w q
        → Inv changes w
        → InvAfter (found snapshots table k route changes q)
    found-Inv k route changes w (ok previous, w') fresh keyed (old, untouched) v =
        checked-Inv k route previous (backup_check snapshots table previous) changes w' fresh keyed
          (old ∙ sym (untouched k)) (Inv-Untouched changes w w' untouched v)
    found-Inv k route changes w (err e, w') fresh keyed untouched v =
        Inv-Untouched changes w w' untouched v

    keyed-Inv :
        (r : Result RouteError K) (route : S) (changes : Changes K S) (w : W)
        → key route ≡ r
        → Inv changes w
        → InvAfter (keyed snapshots table r route changes w)
    keyed-Inv (err e) route changes w h v = v
    keyed-Inv (ok k) route changes w h v = elim (Bool-cases (recorded k changes)) [
      | inl old ↦ rw old v
      | inr fresh ↦
          rw fresh (found-Inv k route changes w (table.find k w) fresh h (faults.finds k w) v)
    ]

    add-Inv :
        (route : S) (changes : Changes K S) (w : W)
        → Inv changes w
        → InvAfter (add snapshots table route (changes, w))
    unfolding add
    add-Inv route changes w v = keyed-Inv (key route) route changes w refl v

    install-Inv :
        (requests : List (Result RouteError S)) (changes : Changes K S) (w : W)
        → Inv changes w
        → InvAfter (install snapshots table requests (changes, w))
    unfolding install
    install-Inv [] changes w v = v
    install-Inv (err e ∷ requests) changes w v = v
    install-Inv (ok route ∷ requests) changes w v =
        go (add snapshots table route (changes, w)) (add-Inv route changes w v)
          (install-Inv requests)
      where
        go :
            (p : Result RouteError (Unit {0}) × (Changes K S × W))
            → InvAfter p
            → ((cs : Changes K S) (u : W)
                → Inv cs u
                → InvAfter (install snapshots table requests (cs, u)))
            → InvAfter (continue p (λ _. install snapshots table requests))
        go (ok u, (cs, w')) h rest = rest cs w' h
        go (err e, (cs, w')) h rest = h

    -- Whatever routes are requested and whatever fails, the changes that `install` leaves recorded
    -- keep what the table held at first, and the rest of the table is as it was.
    pub install_keeps :
        (requests : List (Result RouteError S))
        → InvAfter (install snapshots table requests ([], w₀))
    install_keeps requests =
        install-Inv requests [] w₀ (record { pending = tt; distinct = tt; outside = λ k e. refl })
