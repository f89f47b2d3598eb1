-- ===== src/MacRoutes/Search.antt =====
-- What a search in the operating system's table comes to: `find_in` and `find` of `SystemRoutes` in
-- wg-kotlin-daemon-rust/daemon/src/platform/routes_macos.rs.
use wg_kotlin.Base.{
  ℕ, ◌≡◌, refl, sym, ap, ◌∙◌, inl, inr, Option, none, some, List, [], ◌∷◌, ◌++◌, All, Bool-cases,
  Result, ok, err, Result-cases,
}
use wg_kotlin.Base.Eff.{continue, lift}
use wg_kotlin.RoutingMessage.{RouteError, Layout}
use wg_kotlin.RoutingMessage.Exchange.{RouteSocket}
use wg_kotlin.MacRoutes.Snapshot.{RouteKey, key, key_eq}
use wg_kotlin.MacRoutes.System.{Sysctl, key_eq_iff, find_in, dump_routes, find}

module _ {Rest : Type 0} (layout : Layout Rest) where
  -- A route that can be read, with another key.
  abbrev pub HasOtherKey : RouteKey → List ℕ → Type 0
  HasOtherKey k route = (k' : RouteKey) × (key layout route ≡ ok k') × ¬ (k' ≡ k)

  -- Where a search of the table ends: at the first route with the asked key, at its end if all routes
  -- have other keys, or at the first route whose key is refused, if no route before it has the key.
  abbrev pub Found : RouteKey → List (List ℕ) → Result RouteError (Option (List ℕ)) → Type 0
  Found k routes (ok none) = All (HasOtherKey k) routes
  Found k routes (ok (some route)) =
      (before after : List (List ℕ)) × (routes ≡ before ++ route ∷ after)
      × (key layout route ≡ ok k)
      × All (HasOtherKey k) before
  Found k routes (err e) =
      (before after : List (List ℕ)) × (route : List ℕ) × (routes ≡ before ++ route ∷ after)
      × (key layout route ≡ err e)
      × All (HasOtherKey k) before

  Found-skip :
      (k : RouteKey) (first : List ℕ) (routes : List (List ℕ))
      (r : Result RouteError (Option (List ℕ)))
      → HasOtherKey k first
      → Found k routes r
      → Found k (first ∷ routes) r
  Found-skip k first routes (ok none) differs h = (differs, h)
  Found-skip k first routes (ok (some route)) differs (before, after, at, read, others) =
      (first ∷ before, after, ap (◌∷◌ first) at, read, (differs, others))
  Found-skip k first routes (err e) differs (before, after, route, at, read, others) =
      (first ∷ before, after, route, ap (◌∷◌ first) at, read, (differs, others))

  find_in-Found : (k : RouteKey) (routes : List (List ℕ)) → Found k routes (find_in layout k routes)
  unfolding find_in
  find_in-Found k [] = tt
  find_in-Found k (first ∷ routes) = elim (Result-cases (key layout first)) [
    | inr (f, refused) ↦ rw refused ([], routes, first, refl, refused, tt)
    | inl (k', read) ↦ elim (Bool-cases (key_eq k' k)) [
      | inl same ↦ rw (read, same) ([], routes, refl, read ∙ ap ok ((key_eq_iff k' k).0 same), tt)
      | inr other ↦
          rw (read, other)
            (Found-skip k first routes (find_in layout k routes)
              (k', read, λ e. absurd (cc (sym other ∙ (key_eq_iff k' k).1 e)))
              (find_in-Found k routes))
    ]
  ]

  module _ {W : Type 0} (sysctl : Sysctl (ℕ × W)) (socket : RouteSocket W) (reads : ℕ) where
    -- What a search in the system's table comes to: the failure of the dump, or a search of the routes
    -- that the dump gives.
    abbrev pub Searched :
        RouteKey
        → Result RouteError (List (List ℕ)) × (ℕ × W)
        → Result RouteError (Option (List ℕ)) × (ℕ × W)
        → Type 0
    Searched k (err e, w) out = out ≡ (err e, w)
    Searched k (ok routes, w) (r, w') = Found k routes r × (w' ≡ w)

    -- A search of the system's table dumps it once. If that fails it fails in the same way, and
    -- otherwise it ends at the first route of the dump that has the asked key or of which the key is
    -- refused: with that route, or with that error. It finds no route only if
    -- all have other keys.
    pub find-Searched :
        (k : RouteKey) (w : ℕ × W)
        → Searched k (dump_routes layout sysctl w) (find layout sysctl socket reads k w)
    unfolding find
    find-Searched k w = go (dump_routes layout sysctl w)
      where
        go :
            (p : Result RouteError (List (List ℕ)) × (ℕ × W))
            → Searched k p (continue p (λ routes. lift (find_in layout k routes)))
        go (err e, v) = refl
        go (ok routes, v) = (find_in-Found k routes, refl)
