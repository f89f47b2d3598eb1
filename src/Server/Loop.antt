-- ===== src/Server/Loop.antt =====
-- What the loop of a session does to the device, and what makes it return.
use wg_kotlin.Base.{
  ℕ, ◌≤◌, ◌≡◌, refl, ◌⊎◌, inl, inr, true, false, ◌||◌, Option, none, some, List, [], ◌∷◌, ◌++◌,
  arith, Bool-cases, length, Result, ok, err,
}
use wg_kotlin.Base.Eff.{Eff}
use wg_kotlin.Frame.{IoError}
use wg_kotlin.Server.{
  Status, config_message, outgoing_packet, shutdown, Poll, Next, returns, message, select, handle,
  wrote, is_sendable, run_session_loop, Run,
}

module _ {W : Type 0} (write_packet : List ℕ → Eff W IoError (Unit {0})) where
  wrote_keeps :
      (Q : W → Type 0) (p : Result IoError (Unit {0}) × W) (rest : Run write_packet)
      → Q p.1
      → ((w : W) → Q w → Q (rest w).1)
      → Q (wrote write_packet p rest).1
  wrote_keeps Q (ok u, w) rest q keeps = keeps w q
  wrote_keeps Q (err e, w) rest q keeps = q

  handle_keeps :
      (Q : W → Type 0)
      → ((packet : List ℕ)
          → 1 ≤ length packet
          → length packet ≤ 65535
          → (w : W) → Q w
          → Q (write_packet packet w).1)
      → (next : Option Next) (rest : Run write_packet) → ((w : W) → Q w → Q (rest w).1)
      → (w : W) → Q w
      → Q (handle write_packet next rest w).1
  handle_keeps Q writes none rest keeps w q = keeps w q
  handle_keeps Q writes (some (returns result)) rest keeps w q = q
  handle_keeps Q writes (some (message none)) rest keeps w q = keeps w q
  handle_keeps Q writes (some (message (some (config_message config)))) rest keeps w q = q
  handle_keeps Q writes (some (message (some (shutdown b)))) rest keeps w q = q
  handle_keeps Q writes (some (message (some (outgoing_packet packet)))) rest keeps w q =
      go (Bool-cases (is_sendable packet))
    where
      go :
          (is_sendable packet ≡ true) ⊎ (is_sendable packet ≡ false)
          → Q (handle write_packet (some (message (some (outgoing_packet packet)))) rest w).1
      go (inl e) = rw e (
          wrote_keeps Q (write_packet packet w) rest
            (writes packet (long packet e) (ground arith) w q) keeps)
        where
          long : (packet : List ℕ) → is_sendable packet ≡ true → 1 ≤ length packet
          long [] e = cc
          long (b ∷ bytes) e = ground arith
      go (inr e) = rw e (keeps w q)

  -- Whatever a write of a packet of 1 to 65535 bytes keeps of the device, the loop keeps: it does
  -- nothing else to the device, however its wake-ups come.
  pub run_session_loop_keeps :
      (Q : W → Type 0)
      → ((packet : List ℕ)
          → 1 ≤ length packet
          → length packet ≤ 65535
          → (w : W) → Q w
          → Q (write_packet packet w).1)
      → (polls : List Poll) (w : W) → Q w
      → Q (run_session_loop write_packet polls w).1
  unfolding run_session_loop
  run_session_loop_keeps Q writes [] w q = q
  run_session_loop_keeps Q writes (poll ∷ polls) w q =
      handle_keeps Q writes (select poll) (run_session_loop write_packet polls)
        (λ v. run_session_loop_keeps Q writes polls v) w q

  abbrev pub or_returns :
      Option (Result Status (Unit {0})) × W → Option (Result Status (Unit {0})) × W
  or_returns (none, w) = (some (ok tt), w)
  or_returns (some result, w) = (some result, w)

  wrote_stops :
      (p : Result IoError (Unit {0}) × W) (long short : Run write_packet)
      → ((w : W) → long w ≡ or_returns (short w))
      → wrote write_packet p long ≡ or_returns (wrote write_packet p short)
  wrote_stops (ok u, w) long short same = same w
  wrote_stops (err e, w) long short same = refl

  handle_stops :
      (next : Option Next) (long short : Run write_packet)
      → ((w : W) → long w ≡ or_returns (short w))
      → (w : W) → handle write_packet next long w ≡ or_returns (handle write_packet next short w)
  handle_stops none long short same w = same w
  handle_stops (some (returns result)) long short same w = refl
  handle_stops (some (message none)) long short same w = same w
  handle_stops (some (message (some (config_message config)))) long short same w = refl
  handle_stops (some (message (some (shutdown b)))) long short same w = refl
  handle_stops (some (message (some (outgoing_packet packet)))) long short same w =
      elim (Bool-cases (is_sendable packet)) [
        | inl e ↦ rw e (wrote_stops (write_packet packet w) long short same)
        | inr e ↦ rw e (same w)
      ]

  stop_returns :
      (poll : Poll)
      → (poll.stopped || poll.disconnected) ≡ true
      → select poll ≡ some (returns (ok tt))
  unfolding select
  stop_returns poll h = rw h refl

  -- A wake-up at which the daemon is stopping or the client is gone ends the loop without an error,
  -- if it has not ended before: what else is ready then and after, a message to write or a reader's
  -- failure, has no effect.
  pub run_session_loop-stopped :
      (before after : List Poll) (poll : Poll) (w : W)
      → (poll.stopped || poll.disconnected) ≡ true
      → run_session_loop write_packet (before ++ poll ∷ after) w
        ≡ or_returns (run_session_loop write_packet before w)
  unfolding run_session_loop
  run_session_loop-stopped [] after poll w h = rw (stop_returns poll h) refl
  run_session_loop-stopped (first ∷ before) after poll w h =
      handle_stops (select first) (run_session_loop write_packet (before ++ poll ∷ after))
        (run_session_loop write_packet before) (λ v. run_session_loop-stopped before after poll v h)
        w
