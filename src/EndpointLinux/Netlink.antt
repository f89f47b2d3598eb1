-- ===== src/EndpointLinux/Netlink.antt =====
-- The replies that `transact` of wg-kotlin-daemon-rust/daemon/src/platform/endpoint_linux.rs waits
-- for. The reader of netlink messages is an argument, and the datagrams that come are a list.
use wg_kotlin.Base.{
  ℕ, zero, suc, ◌+◌, ◌-◌, ◌*◌, ◌/◌, ◌≤◌, ◌<◌, ◌≡◌, refl, ap, subst, inl, inr, Bool, true, false,
  not, ◌||◌, Option, none, some, List, [], ◌∷◌, arith, ltb, ◌==◌, if◌then◌else◌, Bool-cases, length,
  drop, keep, length-drop, Result, ok, err,
}
use wg_kotlin.Frame.{IoError}
use wg_kotlin.EndpointLinux.{RouteMessage}

pub data Payload (X : Type 0) : Type 0 where
  new_route : RouteMessage X → Payload X
  error : Option ℕ → Payload X
  done : Payload X
  other_payload : Payload X

pub record Reply (X : Type 0) : Type 0 where
  pub size : ℕ
  pub sequence : ℕ
  pub payload : Payload X

pub data NetlinkError : Type 0 where
  io : IoError → NetlinkError
  unreadable invalid_reply : NetlinkError
  refused : ℕ → NetlinkError

-- A datagram, by the port of its sender; the kernel's is 0.
pub record Datagram : Type 0 where
  pub port : ℕ
  pub bytes : List ℕ

-- An error of the socket, or a datagram of the kernel
abbrev pub is_heard : Result IoError Datagram → Bool
is_heard (err e) = true
is_heard (ok datagram) = datagram.port == 0

-- `some (ok none)`: the request is done, and there is no route.
abbrev pub Verdict : Type 0 → Type 0
Verdict X = Option (Result NetlinkError (Option (RouteMessage X)))

-- What one round of the inner loop comes to.
pub data Round (X : Type 0) : Type 0 where
  returned : Result NetlinkError (Option (RouteMessage X)) → Round X
  passed : List ℕ → Round X

module _ {X : Type 0} (lookup : Bool) where
  abbrev pub verdict : List ℕ → Payload X → Round X
  verdict rest (new_route route) = if lookup then returned (ok (some route)) else passed rest
  verdict rest (error (some code)) = returned (err (refused code))
  verdict rest (error none) = returned (ok none)
  verdict rest done = returned (ok none)
  verdict rest other_payload = passed rest

  -- Messages are aligned to 4 bytes; the alignment of the last one may go past the end.
  abbrev pub judged : List ℕ → Option (Reply X) → Round X
  judged bytes none = returned (err unreadable)
  judged bytes (some reply) =
      if ltb reply.size 16 || ltb (length bytes) reply.size
      then returned (err invalid_reply)
      else (let rest = drop ((reply.size + 3) / 4 * 4) bytes in
          if reply.sequence == 1 then verdict rest reply.payload else passed rest)

  verdict_rest :
      (rest rest' : List ℕ) (payload : Payload X)
      → verdict rest payload ≡ passed rest'
      → rest ≡ rest'
  verdict_rest rest rest' (new_route route) e = go lookup e
    where
      go :
          (asked : Bool)
          → (if asked then returned (ok (some route)) else passed rest) ≡ passed rest'
          → rest ≡ rest'
      go true e = cc
      go false e = cc
  verdict_rest rest rest' (error (some code)) e = cc
  verdict_rest rest rest' (error none) e = cc
  verdict_rest rest rest' done e = cc
  verdict_rest rest rest' other_payload e = cc

  judged-shorter :
      (bytes rest : List ℕ) (reply : Option (Reply X))
      → judged bytes reply ≡ passed rest
      → length rest < length bytes
  judged-shorter bytes rest none e = cc
  judged-shorter bytes rest (some reply) e =
      elim (Bool-cases (ltb reply.size 16 || ltb (length bytes) reply.size)) [
        | inl bad ↦ no_step (rw bad at e)
        | inr fits ↦
            let left : List ℕ = drop ((reply.size + 3) / 4 * 4) bytes in
            let same : left ≡ rest = go left (reply.sequence == 1) (rw fits at e) in
            subst (λ (l : List ℕ). length l < length bytes) same
              (shorter reply.size (length bytes) (length left) fits
                (length-drop ((reply.size + 3) / 4 * 4) bytes))
      ]
    where
      no_step :
          ◌≡◌ {A = Round X} (returned (err invalid_reply)) (passed rest)
          → length rest < length bytes
      no_step e = cc

      shorter :
          (n whole left : ℕ)
          → (ltb n 16 || ltb whole n) ≡ false
          → left ≡ whole - (n + 3) / 4 * 4
          → left < whole
      shorter n whole left fits cut = ground arith

      go :
          (left : List ℕ) (ours : Bool)
          → (if ours then verdict left reply.payload else passed left) ≡ passed rest
          → left ≡ rest
      go left true e = verdict_rest left rest reply.payload e
      go left false e = cc

module _ {X : Type 0} (deserialize : List ℕ → Option (Reply X)) (lookup : Bool) where
  abbrev after_round : (List ℕ → Option (Verdict X)) → Round X → Option (Verdict X)
  after_round go (returned r) = some (some r)
  after_round go (passed rest) = go rest

  abbrev pub next_round : List ℕ → Round X
  next_round bytes = judged lookup bytes (deserialize bytes)

  -- `while offset < bytes.len()`, with a bound on the rounds; `none` is a loop that has not ended,
  -- and `some none` one that found no answer.
  unfoldable pub read_replies : ℕ → List ℕ → Option (Verdict X)
  read_replies fuel [] = some none
  read_replies zero (b ∷ bytes) = none
  read_replies (suc fuel) (b ∷ bytes) = after_round (read_replies fuel) (next_round (b ∷ bytes))

  abbrev answer : Option (Verdict X) → Verdict X → Verdict X
  answer (some (some r)) later = some r
  answer _ later = later

  -- The outer loop over what `recv_from_full` returns; `none` says that it still waits.
  unfoldable pub receive : List (Result IoError Datagram) → Verdict X
  unfolding read_replies
  receive [] = none
  receive (err e ∷ datagrams) = some (err (io e))
  receive (ok datagram ∷ datagrams) =
      let later = receive datagrams in
      if not (datagram.port == 0)
      then later
      else answer (read_replies (length datagram.bytes) datagram.bytes) later

  -- Within as many rounds as a datagram has bytes, the loop over its messages ends.
  read_replies-ends :
      (fuel : ℕ) (bytes : List ℕ)
      → length bytes ≤ fuel
      → (v : Verdict X) × (read_replies fuel bytes ≡ some v)
  unfolding read_replies
  read_replies-ends fuel [] le = (none, refl)
  read_replies-ends zero (b ∷ bytes) le = absurd (omega arith)
  read_replies-ends (suc fuel) (b ∷ bytes) le =
      go (read_replies-ends fuel) (next_round (b ∷ bytes)) refl
    where
      go :
          ((rest : List ℕ)
            → length rest ≤ fuel
            → (v : Verdict X) × (read_replies fuel rest ≡ some v))
          → (r : Round X) → next_round (b ∷ bytes) ≡ r
          → (v : Verdict X) × (after_round (read_replies fuel) r ≡ some v)
      go ends (returned r) e = (some r, refl)
      go ends (passed rest) e =
          let small : length rest < length (b ∷ bytes) =
            judged-shorter lookup (b ∷ bytes) rest (deserialize (b ∷ bytes)) e in
          ends rest (omega (arith, small, le))

  -- What other processes send has no influence on the answer.
  pub receive-heard :
      (datagrams : List (Result IoError Datagram))
      → receive datagrams ≡ receive (keep is_heard datagrams)
  unfolding receive
  receive-heard [] = refl
  receive-heard (err e ∷ datagrams) = refl
  receive-heard (ok datagram ∷ datagrams) = elim (Bool-cases (datagram.port == 0)) [
    | inl kernel ↦ rw kernel (
        rw kernel (
          ap (answer (read_replies (length datagram.bytes) datagram.bytes))
            (receive-heard datagrams)))
    | inr stranger ↦ rw stranger (receive-heard datagrams)
  ]
