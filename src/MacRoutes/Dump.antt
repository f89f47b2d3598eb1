-- ===== src/MacRoutes/Dump.antt =====
-- The loop of `dump_routes` in wg-kotlin-daemon-rust/daemon/src/platform/routes_macos.rs, over the
-- bytes of the routing table that sysctl returned.
use wg_kotlin.Base.{
  ℕ, zero, suc, ◌+◌, ◌-◌, ◌≤◌, ◌<◌, min, ◌≡◌, refl, sym, ap, ◌∙◌, subst, inl, inr, Bool, true,
  false, not, ◌||◌, Option, none, some, List, [], ◌∷◌, ◌++◌, map, append_assoc, arith, ltb, ◌==◌,
  if◌then◌else◌, length, take, drop, keep, length-append, length-drop, take-append, drop-append,
  All, Result, ok, err, ◌>>=◌, Result-cases, bound, ok-injective, unguarded,
}
use wg_kotlin.RoutingMessage.{
  RouteError, Header, InRange, Layout, IsLayout, header, addresses, rtm_version, invalid_dump,
  unexpected_version,
}
use wg_kotlin.RoutingMessage.Addresses.{header-write}
use wg_kotlin.RoutingMessage.Endpoint.{slot, family_of, is_ip_family}

-- Whether the destination is an IP address
abbrev pub is_ip_slot : Option (List ℕ) → Bool
is_ip_slot none = false
is_ip_slot (some address) = is_ip_family (family_of address)

-- `none` stands for a loop that has not ended.
abbrev pub Routes : Type 0
Routes = Option (Result RouteError (List (List ℕ)))

abbrev pub push_route : Bool → List ℕ → Routes → Routes
push_route true message (some (ok routes)) = some (ok (message ∷ routes))
push_route _ message rest = rest

module _ {Rest : Type 0} (layout : Layout Rest) where
  -- One round of the loop: whether the next message is a route to an IP address, the message, and
  -- the bytes after it.
  abbrev pub next_route : List ℕ → Result RouteError (Bool × List ℕ × List ℕ)
  next_route bytes = do
    h ← header layout bytes
    (if ltb h.msglen layout.size || ltb (length bytes) h.msglen
        then err invalid_dump
        else if not (h.version == rtm_version)
        then err unexpected_version
        else do
          attrs ← addresses layout (take h.msglen bytes) h
          ok (is_ip_slot (slot 0 attrs), take h.msglen bytes, drop h.msglen bytes))

  abbrev after_route : (List ℕ → Routes) → Result RouteError (Bool × List ℕ × List ℕ) → Routes
  after_route go (err e) = some (err e)
  after_route go (ok (is_ip, message, rest)) = push_route is_ip message (go rest)

  -- `while offset < bytes.len()`, with a bound on the rounds
  unfoldable pub dump_from : ℕ → List ℕ → Routes
  dump_from fuel [] = some (ok [])
  dump_from zero (b ∷ bytes) = none
  dump_from (suc fuel) (b ∷ bytes) = after_route (dump_from fuel) (next_route (b ∷ bytes))

  -- Every round takes a whole header off, so that there are no more rounds than bytes.
  unfoldable pub dump : List ℕ → Routes
  unfolding dump_from
  dump bytes = dump_from (length bytes) bytes

  -- A message of the table, by its header and its addresses.
  pub record Dumped : Type 0 where
    pub head : Header Rest
    pub payload : List ℕ
    pub slots : List (Option (List ℕ))

  abbrev pub bytes_of : Dumped → List ℕ
  bytes_of m = layout.write m.head ++ m.payload

  abbrev pub is_ip : Dumped → Bool
  is_ip m = is_ip_slot (slot 0 m.slots)

  pub record IsDumped (m : Dumped) : Type 0 where
    pub range : InRange m.head
    pub size : m.head.msglen ≡ length (bytes_of m)
    pub version : m.head.version ≡ rtm_version
    pub read : addresses layout (bytes_of m) m.head ≡ ok m.slots

  abbrev pub table_of : List Dumped → List ℕ
  table_of [] = []
  table_of (m ∷ table) = bytes_of m ++ table_of table

  module _ (libc : IsLayout layout) where
    next_route-shorter :
        (bytes message rest : List ℕ) (ip : Bool)
        → next_route bytes ≡ ok (ip, message, rest)
        → length rest < length bytes
    next_route-shorter bytes message rest ip e =
        let (h, head, e₁) = bound (header layout bytes) e in
        let (sized, e₂) =
          unguarded (ltb h.msglen layout.size || ltb (length bytes) h.msglen) _ e₁ in
        let (known, e₃) = unguarded (not (h.version == rtm_version)) _ e₂ in
        let (attrs, read, e₄) = bound (addresses layout (take h.msglen bytes) h) e₃ in
        let cut : drop h.msglen bytes ≡ rest =
          ap (λ (p : Bool × List ℕ × List ℕ). p.2) (ok-injective e₄) in
        subst (λ (rest : List ℕ). length rest < length bytes) cut
          (shorter h.msglen layout.size (length bytes) (length (drop h.msglen bytes)) sized
            libc.size_min (length-drop h.msglen bytes))
      where
        shorter :
            (n size whole left : ℕ)
            → (ltb n size || ltb whole n) ≡ false
            → 4 ≤ size
            → left ≡ whole - n
            → left < whole
        shorter n size whole left sized min cut = ground arith

    dump_from-cons :
        (fuel : ℕ) (bytes : List ℕ)
        → 0 < length bytes
        → dump_from (suc fuel) bytes ≡ after_route (dump_from fuel) (next_route bytes)
    unfolding dump_from
    dump_from-cons fuel [] h = absurd (omega arith)
    dump_from-cons fuel (b ∷ bytes) h = refl

    -- The loop ends on all bytes, within as many rounds as there are bytes.
    pub dump_from-ends :
        (fuel : ℕ) (bytes : List ℕ)
        → length bytes ≤ fuel
        → (r : Result RouteError (List (List ℕ))) × (dump_from fuel bytes ≡ some r)
    unfolding dump_from
    dump_from-ends fuel [] le = (ok [], refl)
    dump_from-ends zero (b ∷ bytes) le = absurd (omega arith)
    dump_from-ends (suc fuel) (b ∷ bytes) le = elim (Result-cases (next_route (b ∷ bytes))) [
      | inl ((ip, message, rest), e) ↦
          let small : length rest < length (b ∷ bytes) =
            next_route-shorter (b ∷ bytes) message rest ip e in
          let (r, ends) = dump_from-ends fuel rest (omega (arith, small, le)) in
          let (r', pushes) = pushed ip message r in
          (r', ap (after_route (dump_from fuel)) e ∙ ap (push_route ip message) ends ∙ pushes)
      | inr (e, refused) ↦ (err e, ap (after_route (dump_from fuel)) refused)
    ]
      where
        pushed :
            (ip : Bool) (message : List ℕ) (r : Result RouteError (List (List ℕ)))
            → (r' : Result RouteError (List (List ℕ))) × (push_route ip message (some r) ≡ some r')
        pushed true message (ok routes) = (ok (message ∷ routes), refl)
        pushed true message (err e) = (err e, refl)
        pushed false message r = (r, refl)

    length-bytes_of : (m : Dumped) → length (bytes_of m) ≡ layout.size + length m.payload
    length-bytes_of m =
        omega (arith, length-append (layout.write m.head) m.payload, libc.sized m.head)

    next_route-bytes_of :
        (m : Dumped) (rest : List ℕ)
        → IsDumped m
        → next_route (bytes_of m ++ rest) ≡ ok (is_ip m, bytes_of m, rest)
    next_route-bytes_of m rest good =
        let whole : List ℕ = bytes_of m ++ rest in
        let n : ℕ = m.head.msglen in
        let head : header layout whole ≡ ok m.head =
          ap (header layout) (append_assoc (layout.write m.head) m.payload rest)
          ∙ header-write layout libc m.head (m.payload ++ rest) good.range in
        let sized : (ltb n layout.size || ltb (length whole) n) ≡ false =
          fits n layout.size (length whole) (omega (arith, length-bytes_of m, good.size))
            (omega (arith, length-append (bytes_of m) rest, good.size)) in
        let known : not (m.head.version == rtm_version) ≡ false = ground (arith, good.version) in
        let taken : take n whole ≡ bytes_of m =
          subst (λ (k : ℕ). take k whole ≡ bytes_of m) (sym good.size)
            (take-append (bytes_of m) rest) in
        let left : drop n whole ≡ rest =
          subst (λ (k : ℕ). drop k whole ≡ rest) (sym good.size) (drop-append (bytes_of m) rest) in
        rw (head, sized, known, taken, left, good.read) refl
      where
        fits : (n size whole : ℕ) → size ≤ n → n ≤ whole → (ltb n size || ltb whole n) ≡ false
        fits n size whole a b = ground arith

    long :
        (m : Dumped) (table : List Dumped) → length (table_of table) < length (table_of (m ∷ table))
    long m table =
        omega (arith, length-bytes_of m, length-append (bytes_of m) (table_of table), libc.size_min)

    dump_from-table_of :
        (table : List Dumped) (fuel : ℕ)
        → All IsDumped table
        → length (table_of table) ≤ fuel
        → dump_from fuel (table_of table) ≡ some (ok (map bytes_of (keep is_ip table)))
    unfolding dump_from
    dump_from-table_of [] fuel good le = refl
    dump_from-table_of (m ∷ table) zero good le = absurd (omega (arith, long m table))
    dump_from-table_of (m ∷ table) (suc fuel) good le =
        dump_from-cons fuel (bytes_of m ++ table_of table) (omega (arith, long m table))
        ∙ ap (after_route (dump_from fuel)) (next_route-bytes_of m (table_of table) good.0)
        ∙ ap (push_route (is_ip m) (bytes_of m))
            (dump_from-table_of table fuel good.1 (omega (arith, long m table, le)))
        ∙ pushed (is_ip m)
      where
        pushed :
            (ip : Bool)
            → push_route ip (bytes_of m) (some (ok (map bytes_of (keep is_ip table))))
              ≡ some (ok (map bytes_of (if ip then m ∷ keep is_ip table else keep is_ip table)))
        pushed true = refl
        pushed false = refl

    -- Of a table of whole messages, exactly those to IP addresses are returned, in their order.
    pub dump-table_of :
        (table : List Dumped)
        → All IsDumped table
        → dump (table_of table) ≡ some (ok (map bytes_of (keep is_ip table)))
    unfolding dump
    dump-table_of table good = dump_from-table_of table (length (table_of table)) good (omega arith)
