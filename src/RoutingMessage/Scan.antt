-- ===== src/RoutingMessage/Scan.antt =====
-- The search of a reply in what was read from a routing socket, the inner loop of `exchange` in
-- wg-kotlin-daemon-rust/daemon/src/platform/endpoint_macos.rs.
use wg_kotlin.Base.{
  ℕ, zero, suc, ◌+◌, ◌-◌, ◌*◌, ◌≤◌, ◌<◌, ◌≡◌, refl, subst, Bool, true, false, not, ◌&&◌, ◌||◌,
  Option, none, some, List, [], ◌∷◌, arith, ltb, ◌==◌, if◌then◌else◌, length, take, drop,
  length-drop, Result, ok, err, ◌>>=◌, bound, unguarded,
}
use wg_kotlin.Frame.{os_error}
use wg_kotlin.RoutingMessage.{
  RouteError, io, Header, Layout, header, rtm_version, truncated_prefix, invalid_length,
}

-- What a message is: the reply, or another one, with the bytes after it.
pub data Seen : Type 0 where
  reply : List ℕ → Seen
  skipped : List ℕ → Seen

-- `none` stands for a loop that has not ended, `some (ok none)` for bytes that hold no reply.
abbrev pub Scan : Type 0
Scan = Option (Result RouteError (Option (List ℕ)))

abbrev pub after_message : (List ℕ → Scan) → Result RouteError Seen → Scan
after_message go (err e) = some (err e)
after_message go (ok (reply message)) = some (ok (some message))
after_message go (ok (skipped rest)) = go rest

module _ {Rest : Type 0} (layout : Layout Rest) (operation pid sequence : ℕ) where
  abbrev pub is_reply : Header Rest → Bool
  is_reply h = h.version == rtm_version && (h.pid == pid && h.seq == sequence)

  abbrev pub read_reply : List ℕ → List ℕ → Header Rest → Result RouteError Seen
  read_reply message rest h =
      if is_reply h
      then (if h.errno == 0 then ok (reply message) else err (io (os_error h.errno)))
      else ok (skipped rest)

  -- One round of the loop. Notifications have other headers, and are passed over by their type.
  abbrev pub next_message : List ℕ → Result RouteError Seen
  next_message (a ∷ b ∷ c ∷ d ∷ bytes) =
      let all_bytes : List ℕ = a ∷ b ∷ c ∷ d ∷ bytes in
      let size : ℕ = a + 256 * b in
      if ltb size 4 || ltb (length all_bytes) size
      then err invalid_length
      else if not (c == rtm_version) || not (d == operation)
      then ok (skipped (drop size all_bytes))
      else do
        h ← header layout (take size all_bytes)
        read_reply (take size all_bytes) (drop size all_bytes) h
  next_message _ = err truncated_prefix

  -- `while offset < count`, with a bound on the rounds
  unfoldable pub scan_from : ℕ → List ℕ → Scan
  scan_from fuel [] = some (ok none)
  scan_from zero (b ∷ bytes) = none
  scan_from (suc fuel) (b ∷ bytes) = after_message (scan_from fuel) (next_message (b ∷ bytes))

  -- Every round takes four bytes or more off.
  unfoldable pub scan : List ℕ → Scan
  unfolding scan_from
  scan bytes = scan_from (length bytes) bytes

  read_reply_rest :
      (message rest rest' : List ℕ) (h : Header Rest)
      → read_reply message rest h ≡ ok (skipped rest')
      → rest ≡ rest'
  read_reply_rest message rest rest' h e = go (is_reply h) (h.errno == 0) e
    where
      go :
          (ours fine : Bool)
          → (if ours
              then (if fine then ok (reply message) else err (io (os_error h.errno)))
              else ok (skipped rest))
            ≡ ok (skipped rest')
          → rest ≡ rest'
      go true true e = cc
      go true false e = cc
      go false fine e = cc

  next_message-shorter :
      (bytes rest : List ℕ) → next_message bytes ≡ ok (skipped rest) → length rest < length bytes
  next_message-shorter [] rest e = cc
  next_message-shorter (a ∷ []) rest e = cc
  next_message-shorter (a ∷ b ∷ []) rest e = cc
  next_message-shorter (a ∷ b ∷ c ∷ []) rest e = cc
  next_message-shorter (a ∷ b ∷ c ∷ d ∷ bytes) rest e =
      let whole : List ℕ = a ∷ b ∷ c ∷ d ∷ bytes in
      let n : ℕ = a + 256 * b in
      let (fits, e₁) = unguarded (ltb n 4 || ltb (length whole) n) _ e in
      let same : drop n whole ≡ rest =
        go (not (c == rtm_version) || not (d == operation)) (take n whole) (drop n whole) e₁ in
      subst (λ (l : List ℕ). length l < length whole) same
        (shorter n (length whole) (length (drop n whole)) fits (length-drop n whole))
    where
      shorter :
          (n whole left : ℕ) → (ltb n 4 || ltb whole n) ≡ false → left ≡ whole - n → left < whole
      shorter n whole left fits cut = ground arith

      go :
          (other : Bool) (message left : List ℕ)
          → (if other
              then ok (skipped left)
              else header layout message >>= λ h. read_reply message left h)
            ≡ ok (skipped rest)
          → left ≡ rest
      go true message left e = cc
      go false message left e =
          let (h, head, e') = bound (header layout message) e in
          read_reply_rest message left rest h e'

  -- Within as many rounds as there are bytes, the loop over the messages ends.
  scan_from-ends :
      (fuel : ℕ) (bytes : List ℕ)
      → length bytes ≤ fuel
      → (r : Result RouteError (Option (List ℕ))) × (scan_from fuel bytes ≡ some r)
  unfolding scan_from
  scan_from-ends fuel [] le = (ok none, refl)
  scan_from-ends zero (b ∷ bytes) le = absurd (omega arith)
  scan_from-ends (suc fuel) (b ∷ bytes) le =
      go (scan_from-ends fuel) (next_message (b ∷ bytes)) refl
    where
      go :
          ((rest : List ℕ)
            → length rest ≤ fuel
            → (r : Result RouteError (Option (List ℕ))) × (scan_from fuel rest ≡ some r))
          → (s : Result RouteError Seen) → next_message (b ∷ bytes) ≡ s
          → (r : Result RouteError (Option (List ℕ))) × (after_message (scan_from fuel) s ≡ some r)
      go ends (err e) found = (err e, refl)
      go ends (ok (reply message)) found = (ok (some message), refl)
      go ends (ok (skipped rest)) found =
          let small : length rest < length (b ∷ bytes) =
            next_message-shorter (b ∷ bytes) rest found in
          ends rest (omega (arith, small, le))
