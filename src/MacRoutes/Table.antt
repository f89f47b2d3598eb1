-- ===== src/MacRoutes/Table.antt =====
-- What the transaction relies on: a routing table that holds at most one route for each key, and
-- requests that fail, if they do, either untouched or carried out.
use wg_kotlin.Base.{◌≡◌, ◌∙◌, ◌↔◌, ◌⊎◌, true, false, Option, none, some, Result, ok, err}
use wg_kotlin.MacRoutes.{Snapshots, RouteTable, Operation, rtm_add, rtm_delete}
use wg_kotlin.RoutingMessage.{RouteError}

module _ {W K S : Type 0} (snapshots : Snapshots K S) (lookup : W → K → Option S) where
  open snapshots use {key, same_path, key_eq}

  -- A table files a route under its key, and keys are compared by value.
  pub record IsFiled : Type 0 where
    pub filed : (w : W) (k : K) (s : S) → lookup w k ≡ some s → key s ≡ ok k
    pub key_eq_iff : (j k : K) → (key_eq j k ≡ true) ↔ (j ≡ k)

  -- Nothing is different.
  abbrev pub Untouched : W → W → Type 0
  Untouched w w' = (k : K) → lookup w' k ≡ lookup w k

  -- Nothing is different but at `k`.
  abbrev pub Elsewhere : K → W → W → Type 0
  Elsewhere k w w' = (j : K) → key_eq k j ≡ false → lookup w' j ≡ lookup w j

  -- A request carried out. An added route takes the same path as the one requested.
  abbrev pub Done : K → S → Operation → W → W → Type 0
  Done k s rtm_delete w w' = Elsewhere k w w' × (lookup w' k ≡ none)
  Done k s rtm_add w w' =
      Elsewhere k w w' × ((s' : S) × (lookup w' k ≡ some s') × (same_path s' s ≡ ok true))

  -- A route can be deleted where there is one, and added where there is none.
  abbrev pub Ready : K → Operation → W → Type 0
  Ready k rtm_delete w = (s : S) × (lookup w k ≡ some s)
  Ready k rtm_add w = lookup w k ≡ none

  abbrev pub Outcome : K → S → Operation → W → Result RouteError (Unit {0}) × W → Type 0
  Outcome k s op w (ok u, w') = Done k s op w w'
  Outcome k s op w (err e, w') = Untouched w w' ⊎ Done k s op w w'

  abbrev pub Finds : K → W → Result RouteError (Option S) × W → Type 0
  Finds k w (ok found, w') = (found ≡ lookup w k) × Untouched w w'
  Finds k w (err e, w') = Untouched w w'

  -- Any call may fail, and a request that fails may still have been carried out.
  pub record MayFail (table : RouteTable W K S) : Type 0 where
    pub finds : (k : K) (w : W) → Finds k w (table.find k w)
    pub requests :
        (k : K) (s : S) (op : Operation) (w : W)
        → key s ≡ ok k
        → Ready k op w
        → Outcome k s op w (table.request s op w)

  -- No call fails.
  pub record Works (table : RouteTable W K S) : Type 0 where
    pub finds :
        (k : K) (w : W) → (w' : W) × (table.find k w ≡ (ok (lookup w k), w')) × Untouched w w'
    pub requests :
        (k : K) (s : S) (op : Operation) (w : W)
        → key s ≡ ok k
        → Ready k op w
        → (w' : W) × (table.request s op w ≡ (ok tt, w')) × Done k s op w w'

  pub Elsewhere-trans : (k : K) (u v w : W) → Elsewhere k u v → Elsewhere k v w → Elsewhere k u w
  Elsewhere-trans k u v w p q j e = q j e ∙ p j e
