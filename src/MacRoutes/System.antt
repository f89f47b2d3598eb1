-- ===== src/MacRoutes/System.antt =====
-- `SystemRoutes`, the table of the operating system, in
-- wg-kotlin-daemon-rust/daemon/src/platform/routes_macos.rs: its dump, the search of a route in it,
-- and the requests that change it. sysctl and the routing socket are arguments.
use wg_kotlin.Base.{
  ℕ, zero, suc, ◌≡◌, refl, sym, ap, ◌∙◌, subst, ◌↔◌, inl, inr, Bool, true, false, Option, none,
  some, List, [], ◌∷◌, ◌==◌, if◌then◌else◌, ==_iff, Bool-cases, and_iff, Result, ok, err,
  Result-cases, ok-injective,
}
use wg_kotlin.Base.Eff.{Eff, ◌>>=◌, ◌>>◌, lift}
use wg_kotlin.Frame.{IoError, os_error}
use wg_kotlin.Platform.Filter.{octets_eq_iff}
use wg_kotlin.Platform.Routes.{octets_eq}
use wg_kotlin.RoutingMessage.{RouteError, io, Layout, invalid_dump, table_changing}
use wg_kotlin.RoutingMessage.Exchange.{RouteSocket, exchange}
use wg_kotlin.MacRoutes.{Snapshots, RouteTable, Operation}
use wg_kotlin.MacRoutes.Dump.{Routes, dump}
use wg_kotlin.MacRoutes.Snapshot.{RouteKey, key, key_eq, message, same_path, bool_eq}
use wg_kotlin.MacRoutes.Table.{IsFiled}

-- Of libc: the two calls of `sysctl`, for the size of the table and for its bytes, cut to the size
-- that the second returns.
pub record Sysctl (W : Type 0) : Type 0 where
  pub size : Eff W IoError ℕ
  pub table : ℕ → Eff W IoError (List ℕ)

-- `libc::ENOMEM`: the table has grown since its size was asked for.
abbrev pub enomem : ℕ
enomem = 12

abbrev is_enomem : IoError → Bool
is_enomem (os_error code) = code == enomem
is_enomem _ = false

bool_eq_iff : (a b : Bool) → (bool_eq a b ≡ true) ↔ (a ≡ b)
bool_eq_iff true b = (λ e. sym e, λ e. sym e)
bool_eq_iff false true = (λ e. cc, λ e. cc)
bool_eq_iff false false = (λ e. refl, λ e. refl)

-- Keys are equal in the code exactly when they are the same key.
pub key_eq_iff : (j k : RouteKey) → (key_eq j k ≡ true) ↔ (j ≡ k)
unfolding key_eq
key_eq_iff j k = (
  λ e.
      let (a, e₁) = (and_iff (j.family == k.family) _).0 e in
      let (b, e₂) = (and_iff (octets_eq j.destination k.destination) _).0 e₁ in
      let (c, e₃) = (and_iff (octets_eq j.mask k.mask) _).0 e₂ in
      let (d, e₄) = (and_iff (bool_eq j.host k.host) (j.scope == k.scope)).0 e₃ in
      fields ((==_iff j.family k.family).0 a) ((octets_eq_iff j.destination k.destination).0 b)
        ((octets_eq_iff j.mask k.mask).0 c) ((bool_eq_iff j.host k.host).0 d)
        ((==_iff j.scope k.scope).0 e₄),
  λ e. subst (λ (k : RouteKey). key_eq j k ≡ true) e same,
)
  where
    fields :
        j.family ≡ k.family
        → j.destination ≡ k.destination
        → j.mask ≡ k.mask
        → j.host ≡ k.host
        → j.scope ≡ k.scope
        → j ≡ k
    fields a b c d e =
        λ i. record { family = a i; destination = b i; mask = c i; host = d i; scope = e i }

    same : key_eq j j ≡ true
    same =
        rw
          (
            (==_iff j.family j.family).1 refl,
            (octets_eq_iff j.destination j.destination).1 refl,
            (octets_eq_iff j.mask j.mask).1 refl,
            (bool_eq_iff j.host j.host).1 refl,
            (==_iff j.scope j.scope).1 refl,
          )
          refl

module _ {Rest : Type 0} (layout : Layout Rest) where
  abbrev keyed :
      RouteKey
      → List ℕ
      → Result RouteError RouteKey
      → Result RouteError (Option (List ℕ))
      → Result RouteError (Option (List ℕ))
  keyed k route (err e) rest = err e
  keyed k route (ok k') rest = if key_eq k' k then ok (some route) else rest

  -- The loop of `find`; a route whose key cannot be read ends it.
  unfoldable pub find_in : RouteKey → List (List ℕ) → Result RouteError (Option (List ℕ))
  find_in k [] = ok none
  find_in k (route ∷ routes) = keyed k route (key layout route) (find_in k routes)

  -- The loop over the dump ends, so that there is always an outcome.
  abbrev parsed : Routes → Result RouteError (List (List ℕ))
  parsed none = err invalid_dump
  parsed (some r) = r

  module _ {W : Type 0} (sysctl : Sysctl W) where
    abbrev dumped :
        Eff W RouteError (List (List ℕ))
        → Result IoError (List ℕ) × W
        → Result RouteError (List (List ℕ)) × W
    dumped again (ok bytes, w) = (parsed (dump layout bytes), w)
    dumped again (err e, w) = if is_enomem e then again w else (err (io e), w)

    abbrev sized :
        Eff W RouteError (List (List ℕ))
        → Result IoError ℕ × W
        → Result RouteError (List (List ℕ)) × W
    sized again (ok size, w) = dumped again (sysctl.table size w)
    sized again (err e, w) = (err (io e), w)

    -- `for _ in 0..3`, with the rounds left
    unfoldable pub dump_attempts : ℕ → Eff W RouteError (List (List ℕ))
    dump_attempts zero w = (err table_changing, w)
    dump_attempts (suc n) w = sized (dump_attempts n) (sysctl.size w)

    unfoldable pub dump_routes : Eff W RouteError (List (List ℕ))
    unfolding dump_attempts
    dump_routes = dump_attempts 3

  module _ {W : Type 0} (sysctl : Sysctl (ℕ × W)) (socket : RouteSocket W) (reads : ℕ) where
    unfoldable pub find : RouteKey → Eff (ℕ × W) RouteError (Option (List ℕ))
    unfolding dump_routes find_in
    find k = do routes ← dump_routes sysctl; lift (find_in k routes)

    unfoldable pub request : List ℕ → Operation → Eff (ℕ × W) RouteError (Unit {0})
    request route operation = do
      bytes ← lift (message layout route operation)
      exchange layout socket reads bytes
      lift (ok tt)

    abbrev pub system_routes : RouteTable (ℕ × W) RouteKey (List ℕ)
    unfolding find request
    system_routes = record { find = find; request = request }

  abbrev pub system_snapshots : Snapshots RouteKey (List ℕ)
  system_snapshots = record {
    key = key layout;
    message = message layout;
    same_path = same_path layout;
    key_eq = key_eq;
  }

  -- The first route of the table with the asked key; none if a key cannot be read.
  abbrev pub found : RouteKey → List (List ℕ) → Option (List ℕ)
  found k routes = elim (find_in k routes) [ ok route ↦ route | err e ↦ none ]

  some-injective : {a b : List ℕ} → some a ≡ some b → a ≡ b
  some-injective h = cc

  find_in-key :
      (k : RouteKey) (routes : List (List ℕ)) (route : List ℕ)
      → find_in k routes ≡ ok (some route)
      → key layout route ≡ ok k
  unfolding find_in
  find_in-key k [] route e = cc
  find_in-key k (first ∷ routes) route e = elim (Result-cases (key layout first)) [
    | inr (f, refused) ↦
        let e' : ◌≡◌ {A = Result RouteError (Option (List ℕ))} (err f) (ok (some route)) =
          rw refused at e in
        cc
    | inl (k', read) ↦ elim (Bool-cases (key_eq k' k)) [
      | inl same ↦
          let here : first ≡ route = some-injective (ok-injective (rw (read, same) at e)) in
          subst (λ (r : List ℕ). key layout r ≡ ok k) here (read ∙ ap ok ((key_eq_iff k' k).0 same))
      | inr other ↦ find_in-key k routes route (rw (read, other) at e)
    ]
  ]

  -- A route that is found among the routes of a state has the key that was asked for, and keys are
  -- compared by value.
  pub system_snapshots-IsFiled :
      {W : Type 0} (routes : W → List (List ℕ))
      → IsFiled system_snapshots (λ w k. found k (routes w))
  system_snapshots-IsFiled routes = record {
    filed = λ w k route e. find_in-key k (routes w) route (unfound (find_in k (routes w)) e);
    key_eq_iff = key_eq_iff;
  }
    where
      unfound :
          {route : List ℕ} (r : Result RouteError (Option (List ℕ)))
          → (elim r [ ok route ↦ route | err e ↦ none ]) ≡ some route
          → r ≡ ok (some route)
      unfound (ok none) e = cc
      unfound (ok (some route')) e = ap ok e
      unfound (err f) e = cc
