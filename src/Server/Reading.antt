-- ===== src/Server/Reading.antt =====
-- wg-kotlin-daemon-rust/daemon/src/server.rs: the task that reads a session's device, and
-- `send_response`, by which it answers the client.
use wg_kotlin.Base.{
  ℕ, ◌≡◌, refl, sym, ap, ◌∙◌, ◌≢◌, inl, inr, Bool, true, false, not, Option, none, some, List, [],
  ◌∷◌, ◌++◌, map, append-nil, append_assoc, if◌then◌else◌, Bool-cases, keep, All, Result, ok, err,
}
use wg_kotlin.Frame.{IoError}
use wg_kotlin.Server.{ServerPayload, incoming_packet, error, internal, reading, is_sendable}

-- How the wait for room in the channel ends.
pub data Sending : Type 0 where
  stop receiver_gone room : Sending

-- `biased`: a stop wins over the room.
unfoldable pub send_response :
    Sending → ServerPayload → List ServerPayload → Bool × List ServerPayload
send_response stop payload responses = (false, responses)
send_response receiver_gone payload responses = (false, responses)
send_response room payload responses = (true, responses ++ payload ∷ [])

pub data ReadError : Type 0 where
  interrupted : ReadError
  other : IoError → ReadError

-- What a read of the device gives, and how an answer would be sent then.
pub record Turn : Type 0 where
  pub packet : Result ReadError (List ℕ)
  pub sending : Sending

abbrev pub Reading : Type 0
Reading = List ServerPayload → Option (Option IoError) × List ServerPayload

abbrev forwarded :
    Bool × List ServerPayload → Reading → Option (Option IoError) × List ServerPayload
forwarded (true, responses) rest = rest responses
forwarded (false, responses) rest = (some none, responses)

abbrev read_turn : Result ReadError (List ℕ) → Sending → Reading → Reading
unfolding send_response
read_turn (ok packet) sending rest responses =
    if not (is_sendable packet)
    then rest responses
    else forwarded (send_response sending (incoming_packet packet) responses) rest
read_turn (err interrupted) sending rest responses = (some none, responses)
read_turn (err (other e)) sending rest responses =
    (some (some e), (send_response sending (error internal (reading e)) responses).1)

-- The reader's loop: `none` while it has not ended, then the error that it reports, if any.
unfoldable pub read_loop : List Turn → Reading
unfolding read_turn
read_loop [] responses = (none, responses)
read_loop (turn ∷ turns) responses = read_turn turn.packet turn.sending (read_loop turns) responses

abbrev pub received_turn : List ℕ → Turn
received_turn packet = record { packet = ok packet; sending = room }

-- While reads succeed and there is room, the client gets the device's packets in their order, each
-- once, but for those that are empty or of more than 65535 bytes.
pub read_loop-received :
    (packets : List (List ℕ)) (turns : List Turn) (responses : List ServerPayload)
    → read_loop (map received_turn packets ++ turns) responses
      ≡ read_loop turns (responses ++ map incoming_packet (keep is_sendable packets))
unfolding read_loop read_turn send_response
read_loop-received [] turns responses = ap (read_loop turns) (sym (append-nil responses))
read_loop-received (packet ∷ packets) turns responses = elim (Bool-cases (is_sendable packet)) [
  | inl e ↦ rw e (
      read_loop-received packets turns (responses ++ incoming_packet packet ∷ [])
      ∙ ap (read_loop turns) (
          append_assoc responses (incoming_packet packet ∷ [])
            (map incoming_packet (keep is_sendable packets))))
  | inr e ↦ rw e (read_loop-received packets turns responses)
]

abbrev pub Stops : Turn → Type 0
Stops turn = turn.sending ≢ room

kept_responses :
    (sending : Sending) (payload : ServerPayload) (responses : List ServerPayload)
    → sending ≢ room
    → send_response sending payload responses ≡ (false, responses)
unfolding send_response
kept_responses stop payload responses h = refl
kept_responses receiver_gone payload responses h = refl
kept_responses room payload responses h = absurd (h refl)

-- From a stop on, or once the client is gone, no response is sent any more, whatever is read.
pub read_loop-Stops :
    (turns : List Turn) (responses : List ServerPayload)
    → All Stops turns
    → (read_loop turns responses).1 ≡ responses
unfolding read_loop read_turn
read_loop-Stops [] responses h = refl
read_loop-Stops (turn ∷ turns) responses (s, h) = go turn.packet (read_loop-Stops turns responses h)
  where
    go :
        (packet : Result ReadError (List ℕ))
        → (read_loop turns responses).1 ≡ responses
        → (read_turn packet turn.sending (read_loop turns) responses).1 ≡ responses
    go (err interrupted) later = refl
    go (err (other e)) later =
        rw (kept_responses turn.sending (error internal (reading e)) responses s) refl
    go (ok packet) later = elim (Bool-cases (is_sendable packet)) [
      | inl e ↦ rw (e, kept_responses turn.sending (incoming_packet packet) responses s) refl
      | inr e ↦ rw e later
    ]
