-- ===== src/RoutingMessage/Answers.antt =====
-- Which message is found as the reply.
use wg_kotlin.Base.{
  ℕ, zero, suc, ◌+◌, ◌*◌, ◌/◌, ◌%◌, ◌≤◌, ◌<◌, ◌≡◌, refl, sym, ap, ◌∙◌, subst, ◌≢◌, ◌⊎◌, Bool, true,
  false, not, ◌&&◌, ◌||◌, some, List, [], ◌∷◌, ◌++◌, append_assoc, arith, ltb, ◌==◌, if◌then◌else◌,
  length, take, drop, length-append, take-append, drop-append, All, ok, err, ◌>>=◌,
}
use wg_kotlin.Frame.{os_error}
use wg_kotlin.RoutingMessage.{io, Header, InRange, Layout, IsLayout, header, rtm_version}
use wg_kotlin.RoutingMessage.Addresses.{header-write}
use wg_kotlin.RoutingMessage.Scan.{
  reply, skipped, is_reply, read_reply, next_message, after_message, scan_from, scan,
}

module _ {Rest : Type 0} (layout : Layout Rest) (operation pid sequence : ℕ) where
  -- What else a routing socket brings: notifications, and replies to others.
  pub data Traffic : Type 0 where
    notice : (a b c d : ℕ) → List ℕ → Traffic
    foreign : Header Rest → List ℕ → Traffic

  abbrev pub traffic_bytes : Traffic → List ℕ
  traffic_bytes (notice a b c d bytes) = a ∷ b ∷ c ∷ d ∷ bytes
  traffic_bytes (foreign h payload) = layout.write h ++ payload

  abbrev pub IsOther : Traffic → Type 0
  IsOther (notice a b c d bytes) =
      (a + 256 * b ≡ length (a ∷ b ∷ c ∷ d ∷ bytes)) × ((c ≢ rtm_version) ⊎ (d ≢ operation))
  IsOther (foreign h payload) =
      InRange h
      × (h.msglen ≡ length (layout.write h ++ payload))
      × ((h.pid ≢ pid) ⊎ (h.seq ≢ sequence))

  abbrev pub traffic_of : List Traffic → List ℕ
  traffic_of [] = []
  traffic_of (t ∷ traffic) = traffic_bytes t ++ traffic_of traffic

  -- The reply to the request.
  pub record IsReply (h : Header Rest) (payload : List ℕ) : Type 0 where
    pub range : InRange h
    pub size : h.msglen ≡ length (layout.write h ++ payload)
    pub version : h.version ≡ rtm_version
    pub kind : h.kind ≡ operation
    pub of_process : h.pid ≡ pid
    pub of_request : h.seq ≡ sequence

  module _ (libc : IsLayout layout) where
    -- A whole message of at least four bytes in front is read up to its end.
    next_message-cons :
        (a b c d : ℕ) (bytes rest : List ℕ)
        → a + 256 * b ≡ length (a ∷ b ∷ c ∷ d ∷ bytes)
        → next_message layout operation pid sequence (a ∷ b ∷ c ∷ d ∷ (bytes ++ rest)) ≡ (
            if not (c == rtm_version) || not (d == operation)
            then ok (skipped rest)
            else header layout (a ∷ b ∷ c ∷ d ∷ bytes)
              >>= read_reply layout operation pid sequence (a ∷ b ∷ c ∷ d ∷ bytes) rest)
    next_message-cons a b c d bytes rest size =
        let message : List ℕ = a ∷ b ∷ c ∷ d ∷ bytes in
        let n : ℕ = a + 256 * b in
        let sized : (ltb n 4 || ltb (length (message ++ rest)) n) ≡ false =
          fits n (length (message ++ rest)) (omega (arith, size))
            (omega (arith, length-append message rest, size)) in
        let taken : take n (message ++ rest) ≡ message =
          subst (λ (k : ℕ). take k (message ++ rest) ≡ message) (sym size)
            (take-append message rest) in
        let left : drop n (message ++ rest) ≡ rest =
          subst (λ (k : ℕ). drop k (message ++ rest) ≡ rest) (sym size)
            (drop-append message rest) in
        rw (sized, taken, left) refl
      where
        fits : (n whole : ℕ) → 4 ≤ n → n ≤ whole → (ltb n 4 || ltb whole n) ≡ false
        fits n whole a b = ground arith

    next_message-written :
        (h : Header Rest) (payload rest : List ℕ)
        → InRange h
        → h.msglen ≡ length (layout.write h ++ payload)
        → next_message layout operation pid sequence ((layout.write h ++ payload) ++ rest) ≡ (
            if not (h.version == rtm_version) || not (h.kind == operation)
            then ok (skipped rest)
            else read_reply layout operation pid sequence (layout.write h ++ payload) rest h)
    next_message-written h payload rest range size =
        let a : ℕ = h.msglen % 256 in
        let b : ℕ = h.msglen / 256 in
        let (tail, e) = libc.prefixed h range in
        let m : List ℕ = a ∷ b ∷ h.version ∷ h.kind ∷ (tail ++ payload) in
        let whole : layout.write h ++ payload ≡ m = ap (λ (w : List ℕ). w ++ payload) e in
        let sized : a + 256 * b ≡ length m =
          subst (λ (w : List ℕ). a + 256 * b ≡ length w) whole (omega (arith, size)) in
        let head : header layout m ≡ ok h =
          subst (λ (w : List ℕ). header layout w ≡ ok h) whole
            (header-write layout libc h payload range) in
        subst
          (λ (w : List ℕ). next_message layout operation pid sequence (w ++ rest) ≡ (
            if not (h.version == rtm_version) || not (h.kind == operation)
            then ok (skipped rest)
            else read_reply layout operation pid sequence w rest h))
          (sym whole)
          (next_message-cons a b h.version h.kind (tail ++ payload) rest sized ∙ rw head refl)

    next_message-other :
        (t : Traffic) (rest : List ℕ)
        → IsOther t
        → next_message layout operation pid sequence (traffic_bytes t ++ rest) ≡ ok (skipped rest)
    next_message-other (notice a b c d bytes) rest other =
        next_message-cons a b c d bytes rest other.0 ∙ rw (differs c d other.1) refl
      where
        differs :
            (c d : ℕ)
            → (c ≢ rtm_version) ⊎ (d ≢ operation)
            → (not (c == rtm_version) || not (d == operation)) ≡ true
        differs c d h = ground arith
    next_message-other (foreign h payload) rest other =
        next_message-written h payload rest other.0 other.1
        ∙ rw (stranger h.pid h.seq (h.version == rtm_version) other.2) (same _)
      where
        stranger :
            (p s : ℕ) (known : Bool)
            → (p ≢ pid) ⊎ (s ≢ sequence)
            → (known && (p == pid && s == sequence)) ≡ false
        stranger p s known h = ground arith

        same : {A : Type 0} {x : A} (c : Bool) → (if c then x else x) ≡ x
        same true = refl
        same false = refl

    next_message-reply :
        (h : Header Rest) (payload rest : List ℕ)
        → IsReply h payload
        → next_message layout operation pid sequence ((layout.write h ++ payload) ++ rest) ≡ (
            if h.errno == 0
            then ok (reply (layout.write h ++ payload))
            else err (io (os_error h.errno)))
    next_message-reply h payload rest r =
        let ours : (not (h.version == rtm_version) || not (h.kind == operation)) ≡ false =
          ground (arith, r.version, r.kind) in
        let meant : is_reply layout operation pid sequence h ≡ true =
          ground (arith, r.version, r.of_process, r.of_request) in
        next_message-written h payload rest r.range r.size ∙ rw (ours, meant) refl

    scan_from-cons :
        (fuel : ℕ) (bytes : List ℕ)
        → 0 < length bytes
        → scan_from layout operation pid sequence (suc fuel) bytes
          ≡ after_message
              (scan_from layout operation pid sequence fuel)
              (next_message layout operation pid sequence bytes)
    unfolding scan_from
    scan_from-cons fuel [] h = absurd (omega arith)
    scan_from-cons fuel (b ∷ bytes) h = refl

    traffic_bytes-long : (t : Traffic) → 0 < length (traffic_bytes t)
    traffic_bytes-long (notice a b c d bytes) = omega arith
    traffic_bytes-long (foreign h payload) =
        omega (arith, length-append (layout.write h) payload, libc.sized h, libc.size_min)

    pub written-long :
        (h : Header Rest) (payload rest : List ℕ) → 0 < length ((layout.write h ++ payload) ++ rest)
    written-long h payload rest = omega (
      arith,
      length-append (layout.write h ++ payload) rest,
      length-append (layout.write h) payload,
      libc.sized h,
      libc.size_min,
    )

    scan_from-traffic_of :
        (traffic : List Traffic) (h : Header Rest) (payload rest : List ℕ) (fuel : ℕ)
        → All IsOther traffic
        → IsReply h payload
        → length (traffic_of traffic ++ ((layout.write h ++ payload) ++ rest)) ≤ fuel
        → scan_from layout operation pid sequence fuel
            (traffic_of traffic ++ ((layout.write h ++ payload) ++ rest))
          ≡ (if h.errno == 0
              then some (ok (some (layout.write h ++ payload)))
              else some (err (io (os_error h.errno))))
    scan_from-traffic_of traffic h payload rest zero others r le = absurd (
        omega (
          arith,
          length-append (traffic_of traffic) ((layout.write h ++ payload) ++ rest),
          written-long h payload rest,
          le,
        ))
    scan_from-traffic_of [] h payload rest (suc fuel) others r le =
        scan_from-cons fuel ((layout.write h ++ payload) ++ rest) (written-long h payload rest)
        ∙ ap (after_message (scan_from layout operation pid sequence fuel))
            (next_message-reply h payload rest r)
        ∙ found (h.errno == 0)
      where
        found :
            (fine : Bool)
            → after_message (scan_from layout operation pid sequence fuel) (
                if fine
                then ok (reply (layout.write h ++ payload))
                else err (io (os_error h.errno)))
              ≡ (if fine
                  then some (ok (some (layout.write h ++ payload)))
                  else some (err (io (os_error h.errno))))
        found true = refl
        found false = refl
    scan_from-traffic_of (t ∷ traffic) h payload rest (suc fuel) others r le =
        let tail : List ℕ = (layout.write h ++ payload) ++ rest in
        let after : List ℕ = traffic_of traffic ++ tail in
        let whole : (traffic_bytes t ++ traffic_of traffic) ++ tail ≡ traffic_bytes t ++ after =
          append_assoc (traffic_bytes t) (traffic_of traffic) tail in
        let long : length (traffic_bytes t ++ after) ≤ suc fuel =
          subst (λ (w : List ℕ). length w ≤ suc fuel) whole le in
        let sum : length (traffic_bytes t ++ after) ≡ length (traffic_bytes t) + length after =
          length-append (traffic_bytes t) after in
        ap (scan_from layout operation pid sequence (suc fuel)) whole
        ∙ scan_from-cons fuel (traffic_bytes t ++ after) (omega (arith, sum, traffic_bytes-long t))
        ∙ ap (after_message (scan_from layout operation pid sequence fuel))
            (next_message-other t after others.0)
        ∙ scan_from-traffic_of traffic h payload rest fuel others.1 r
            (omega (arith, sum, long, traffic_bytes-long t))

    -- All other messages are passed over, and the first reply is what the search returns, as bytes or
    -- as the error that it carries; what follows it is not read.
    pub scan-traffic_of :
        (traffic : List Traffic) (h : Header Rest) (payload rest : List ℕ)
        → All IsOther traffic
        → IsReply h payload
        → scan layout operation pid sequence
            (traffic_of traffic ++ ((layout.write h ++ payload) ++ rest))
          ≡ (if h.errno == 0
              then some (ok (some (layout.write h ++ payload)))
              else some (err (io (os_error h.errno))))
    unfolding scan
    scan-traffic_of traffic h payload rest others r =
        scan_from-traffic_of traffic h payload rest
          (length (traffic_of traffic ++ ((layout.write h ++ payload) ++ rest))) others r
          (omega arith)
