-- ===== src/EndpointLinux/Hosts.antt =====
-- Which route a lookup on Linux returns for a host.
use wg_kotlin.Base.{
  ℕ, ◌/◌, ◌%◌, ◌^◌, ◌<◌, ◌≡◌, refl, ap, ◌∙◌, inl, inr, Bool, true, false, not, ◌||◌, List, [], ◌∷◌,
  ◌++◌, map, arith, ◌==◌, Bool-cases, any, keep, is_empty, All, Result, ok, err, ◌>>=◌,
}
use wg_kotlin.Protocol.{IpAddr}
use wg_kotlin.EndpointLinux.{
  RouteMessage, Attribute, NextHop, destination, multi_path, status, other, LookupError,
  unreachable, no_live_hop, static_protocol, flag, creation_flags, is_reachable, is_live,
  without_hop_status, live_attributes, is_kept, host_length, from_route,
}

-- Of these three flags, RTNH_F_PERVASIVE and RTNH_F_ONLINK can be set by who creates a route.
abbrev pub IsCreation : ℕ → Type 0
IsCreation flags = (flag 0 flags ≡ false) × (flags < 2 ^ 3)

creation_flags-IsCreation : (flags : ℕ) → IsCreation (creation_flags flags)
creation_flags-IsCreation flags = (ground arith, omega arith)

creation_bits :
    (flags : ℕ)
    → (creation_flags flags / 2 ^ 1 % 2 ≡ flags / 2 ^ 1 % 2)
      × (creation_flags flags / 2 ^ 2 % 2 ≡ flags / 2 ^ 2 % 2)
creation_bits flags = (omega arith, omega arith)

or_true : (b : Bool) → (b || true) ≡ true
or_true true = refl
or_true false = refl

module _ {X : Type 0} where
  abbrev pub is_other : Attribute X → Bool
  is_other (other x) = true
  is_other _ = false

  abbrev pub is_destination : Attribute X → Bool
  is_destination (destination ip) = true
  is_destination _ = false

  -- The next hops of all multipath attributes, and the live ones among them.
  abbrev pub hops_of : List (Attribute X) → List (NextHop X)
  hops_of [] = []
  hops_of (multi_path hops ∷ attrs) = hops ++ hops_of attrs
  hops_of (attr ∷ attrs) = hops_of attrs

  abbrev pub live_hops_of : List (Attribute X) → List (NextHop X)
  live_hops_of [] = []
  live_hops_of (multi_path hops ∷ attrs) =
      map without_hop_status (keep is_live hops) ++ live_hops_of attrs
  live_hops_of (attr ∷ attrs) = live_hops_of attrs

  -- All hops of the attribute are dead, or there are none.
  abbrev pub is_dead : Attribute X → Bool
  is_dead (multi_path hops) = not (any is_live hops)
  is_dead _ = false

  -- What a route may be created with: hops without status, and at least one.
  abbrev pub Replayable : Attribute X → Type 0
  Replayable (destination ip) = Unit
  Replayable (other x) = Unit
  Replayable (multi_path hops) =
      (is_empty hops ≡ false) × All (λ (hop : NextHop X). IsCreation hop.flags) hops
  Replayable (status s x) = ¬ (Unit {0})

  -- The host's route: one destination, the live hops, and what else the route has, in its order.
  pub record IsHostRoute (ip : IpAddr) (found route : RouteMessage X) : Type 0 where
    pub prefix_length : route.prefix_length ≡ host_length ip
    pub protocol : route.protocol ≡ static_protocol
    pub kind : route.kind ≡ found.kind
    pub fields : route.fields ≡ found.fields
    pub flags : IsCreation route.flags
    pub pervasive : flag 1 route.flags ≡ flag 1 found.flags
    pub onlink : flag 2 route.flags ≡ flag 2 found.flags
    pub replayable : All Replayable route.attributes
    pub one_destination : keep is_destination route.attributes ≡ destination ip ∷ []
    pub hops : hops_of route.attributes ≡ live_hops_of found.attributes
    pub others : keep is_other route.attributes ≡ keep is_other found.attributes

  -- What comes of a lookup: a route is returned only if each of its multipath attributes has a live
  -- hop.
  abbrev pub Outcome : IpAddr → RouteMessage X → Result LookupError (RouteMessage X) → Type 0
  Outcome ip found (ok route) =
      (is_reachable found.kind ≡ true)
      × (any is_dead found.attributes ≡ false)
      × IsHostRoute ip found route
  Outcome ip found (err unreachable) = is_reachable found.kind ≡ false
  Outcome ip found (err no_live_hop) =
      (is_reachable found.kind ≡ true) × (any is_dead found.attributes ≡ true)

  -- An attribute after the first loop.
  Live : Attribute X → Type 0
  Live (multi_path hops) = Replayable (multi_path hops)
  Live _ = Unit

  LiveOutcome : List (Attribute X) → Result LookupError (List (Attribute X)) → Type 0
  unfolding Live
  LiveOutcome attrs (ok attrs') =
      (any is_dead attrs ≡ false)
      × All Live attrs'
      × (hops_of attrs' ≡ live_hops_of attrs)
      × (keep is_other attrs' ≡ keep is_other attrs)
  LiveOutcome attrs (err e) = (e ≡ no_live_hop) × (any is_dead attrs ≡ true)

  is_empty-map : (hops : List (NextHop X)) → is_empty (map without_hop_status hops) ≡ is_empty hops
  is_empty-map [] = refl
  is_empty-map (hop ∷ hops) = refl

  keep-dead : (hops : List (NextHop X)) → any is_live hops ≡ not (is_empty (keep is_live hops))
  keep-dead [] = refl
  keep-dead (hop ∷ hops) = elim (Bool-cases (is_live hop)) [
    | inl live ↦ rw live refl
    | inr dead ↦ rw dead (keep-dead hops)
  ]

  hops-IsCreation :
      (hops : List (NextHop X))
      → All (λ (hop : NextHop X). IsCreation hop.flags) (map without_hop_status hops)
  hops-IsCreation [] = tt
  hops-IsCreation (hop ∷ hops) = (creation_flags-IsCreation hop.flags, hops-IsCreation hops)

  live_attributes-LiveOutcome :
      (attrs : List (Attribute X)) → LiveOutcome attrs (live_attributes attrs)
  unfolding LiveOutcome live_attributes Live
  live_attributes-LiveOutcome [] = (refl, tt, refl, refl)
  live_attributes-LiveOutcome (multi_path hops ∷ attrs) =
      elim (Bool-cases (is_empty (keep is_live hops))) [
        | inl none_live ↦ rw none_live (refl, rw (keep-dead hops, none_live) refl)
        | inr some_live ↦
            rw some_live (go (live_attributes attrs) (live_attributes-LiveOutcome attrs) some_live)
      ]
    where
      go :
          (r : Result LookupError (List (Attribute X)))
          → LiveOutcome attrs r
          → is_empty (keep is_live hops) ≡ false
          → LiveOutcome
              (multi_path hops ∷ attrs)
              (r >>= λ rest. ok (multi_path (map without_hop_status (keep is_live hops)) ∷ rest))
      go (ok rest) (alive, live, kept, others) some_live = (
        rw (keep-dead hops, some_live) alive,
        ((is_empty-map (keep is_live hops) ∙ some_live, hops-IsCreation (keep is_live hops)), live),
        ap (λ (l : List (NextHop X)). map without_hop_status (keep is_live hops) ++ l) kept,
        others,
      )
      go (err e) (same, dead) some_live = (same, rw dead (or_true (not (any is_live hops))))
  live_attributes-LiveOutcome (destination ip ∷ attrs) =
      go (live_attributes attrs) (live_attributes-LiveOutcome attrs)
    where
      go :
          (r : Result LookupError (List (Attribute X)))
          → LiveOutcome attrs r
          → LiveOutcome (destination ip ∷ attrs) (r >>= λ rest. ok (destination ip ∷ rest))
      go (ok rest) (alive, live, kept, others) = (alive, (tt, live), kept, others)
      go (err e) dead = dead
  live_attributes-LiveOutcome (status s x ∷ attrs) =
      go (live_attributes attrs) (live_attributes-LiveOutcome attrs)
    where
      go :
          (r : Result LookupError (List (Attribute X)))
          → LiveOutcome attrs r
          → LiveOutcome (status s x ∷ attrs) (r >>= λ rest. ok (status s x ∷ rest))
      go (ok rest) (alive, live, kept, others) = (alive, (tt, live), kept, others)
      go (err e) dead = dead
  live_attributes-LiveOutcome (other x ∷ attrs) =
      go (live_attributes attrs) (live_attributes-LiveOutcome attrs)
    where
      go :
          (r : Result LookupError (List (Attribute X)))
          → LiveOutcome attrs r
          → LiveOutcome (other x ∷ attrs) (r >>= λ rest. ok (other x ∷ rest))
      go (ok rest) (alive, live, kept, others) =
          (alive, (tt, live), kept, ap (◌∷◌ (other x)) others)
      go (err e) dead = dead

  -- The attributes of the new route: those that are kept, and the host as the destination.
  host_attributes : IpAddr → List (Attribute X) → List (Attribute X)
  host_attributes ip attrs = keep is_kept attrs ++ destination ip ∷ []

  host_attributes-Replayable :
      (ip : IpAddr) (attrs : List (Attribute X))
      → All Live attrs
      → All Replayable (host_attributes ip attrs)
  unfolding Live host_attributes
  host_attributes-Replayable ip [] live = (tt, tt)
  host_attributes-Replayable ip (destination d ∷ attrs) live =
      host_attributes-Replayable ip attrs live.1
  host_attributes-Replayable ip (multi_path hops ∷ attrs) live =
      (live.0, host_attributes-Replayable ip attrs live.1)
  host_attributes-Replayable ip (status s x ∷ attrs) live =
      host_attributes-Replayable ip attrs live.1
  host_attributes-Replayable ip (other x ∷ attrs) live =
      (tt, host_attributes-Replayable ip attrs live.1)

  host_attributes_lem :
      (ip : IpAddr) (attrs : List (Attribute X))
      → (keep is_destination (host_attributes ip attrs) ≡ destination ip ∷ [])
        × (hops_of (host_attributes ip attrs) ≡ hops_of attrs)
        × (keep is_other (host_attributes ip attrs) ≡ keep is_other attrs)
  unfolding host_attributes
  host_attributes_lem ip [] = (refl, refl, refl)
  host_attributes_lem ip (destination d ∷ attrs) = host_attributes_lem ip attrs
  host_attributes_lem ip (multi_path hops ∷ attrs) =
      let (a, b, c) = host_attributes_lem ip attrs in
      (a, ap (λ (l : List (NextHop X)). hops ++ l) b, c)
  host_attributes_lem ip (status s x ∷ attrs) = host_attributes_lem ip attrs
  host_attributes_lem ip (other x ∷ attrs) =
      let (a, b, c) = host_attributes_lem ip attrs in (a, b, ap (◌∷◌ (other x)) c)

  -- A lookup refuses a route of another kind than unicast or local, and one with a multipath attribute
  -- of which all hops are dead. For any other route it returns the route of the host, and for none of
  -- these.
  pub from_route-Outcome :
      (ip : IpAddr) (found : RouteMessage X) → Outcome ip found (from_route ip found)
  unfolding from_route LiveOutcome host_attributes
  from_route-Outcome ip found = elim (Bool-cases (is_reachable found.kind)) [
    | inr wrong ↦ rw wrong wrong
    | inl reachable ↦ rw reachable (
        go reachable (live_attributes found.attributes)
          (live_attributes-LiveOutcome found.attributes))
  ]
    where
      go :
          is_reachable found.kind ≡ true
          → (r : Result LookupError (List (Attribute X))) → LiveOutcome found.attributes r
          → Outcome ip found (
              r >>= λ attrs. ok (record found {
                prefix_length = host_length ip;
                protocol = static_protocol;
                flags = creation_flags found.flags;
                attributes = keep is_kept attrs ++ destination ip ∷ [];
              }))
      go reachable (err unreachable) (same, dead) = cc
      go reachable (err no_live_hop) (same, dead) = (reachable, dead)
      go reachable (ok attrs) (alive, live, kept, others) =
          let (one, hops, rest) = host_attributes_lem ip attrs in
          (
            reachable,
            alive,
            record {
              prefix_length = refl;
              protocol = refl;
              kind = refl;
              fields = refl;
              flags = creation_flags-IsCreation found.flags;
              pervasive = ap (λ (n : ℕ). n == 1) (creation_bits found.flags).0;
              onlink = ap (λ (n : ℕ). n == 1) (creation_bits found.flags).1;
              replayable = host_attributes-Replayable ip attrs live;
              one_destination = one;
              hops = hops ∙ kept;
              others = rest ∙ others;
            },
          )
