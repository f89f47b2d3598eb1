-- ===== src/Server/Connection.antt =====
-- wg-kotlin-daemon-rust/daemon/src/server.rs: `serve_connection`, the first exchange with a client
-- and the two relays between its socket and its session.
use wg_kotlin.Base.{
  ◌≡◌, refl, sym, ap, ◌∙◌, Bool, true, false, Option, none, some, List, [], ◌∷◌, ◌++◌, map,
  append-nil, append_assoc, arith, if◌then◌else◌, All, Result, ok, err,
}
use wg_kotlin.Frame.{IoError}
use wg_kotlin.Server.{
  Status, status, invalid_argument, bad_frame, ClientPayload, config_message, outgoing_packet,
  shutdown, ServerPayload, error_message,
}

-- What a frame read from the client gives; the outer `none` is the end of the stream.
abbrev pub Frame : Type 0
Frame = Result IoError (Option (Option ClientPayload))

-- What becomes of a connection: it is over, it stops the daemon, or its first message goes to a
-- session.
pub data Contact : Type 0 where
  over : Result IoError (Unit {0}) → Contact
  stops_daemon : Contact
  serves : Option ClientPayload → Contact

abbrev opened : Option ClientPayload → Contact
opened none = serves none
opened (some (config_message config)) = serves (some (config_message config))
opened (some (outgoing_packet packet)) = serves (some (outgoing_packet packet))
opened (some (shutdown false)) = serves (some (shutdown false))
opened (some (shutdown true)) = stops_daemon

-- The ready message is written, then the first message read, unless the daemon stops before.
unfoldable pub contact : (stopped : Bool) → Result IoError (Unit {0}) → Frame → Contact
contact true ready first = over (ok tt)
contact false (err e) first = over (err e)
contact false (ok u) (err e) = over (err e)
contact false (ok u) (ok none) = over (ok tt)
contact false (ok u) (ok (some message)) = opened message

-- A wake-up of the reading side.
pub record Arrival : Type 0 where
  pub stopped : Bool
  pub receiver_gone : Bool
  pub frame : Frame

abbrev pub Relay : Type 0
Relay =
    List (Result Status (Option ClientPayload))
    → Option (Result IoError (Unit {0})) × List (Result Status (Option ClientPayload))

abbrev relay_frame : Frame → Bool → Relay → Relay
relay_frame (ok (some message)) gone rest sent =
    if gone then (some (ok tt), sent) else rest (sent ++ ok message ∷ [])
relay_frame (ok none) gone rest sent = (some (ok tt), sent)
relay_frame (err e) gone rest sent =
    (some (err e), if gone then sent else sent ++ err (status invalid_argument bad_frame) ∷ [])

-- The loop of `read`: what the session gets, after what it got before.
unfoldable pub relay : List Arrival → Relay
relay [] sent = (none, sent)
relay (arrival ∷ arrivals) sent =
    let rest = relay arrivals in
    if arrival.stopped
    then (some (ok tt), sent)
    else relay_frame arrival.frame arrival.receiver_gone rest sent

-- `message.unwrap_or_else(|status| error_message(&status))`
abbrev pub unwrapped_response : Result Status ServerPayload → ServerPayload
unwrapped_response (ok payload) = payload
unwrapped_response (err s) = error_message s

-- What `write` has to write: the refusal of the session, or its responses.
abbrev pub answers : Result Status (List (Result Status ServerPayload)) → List ServerPayload
answers (err s) = error_message s ∷ []
answers (ok responses) = map unwrapped_response responses

-- A write of the writing side: whether the daemon stops before it is done, and how it ends.
pub record Writing : Type 0 where
  pub stopped : Bool
  pub result : Result IoError (Unit {0})

abbrev pub Written : Type 0
Written = Option (Result IoError (Unit {0})) × List ServerPayload

abbrev write_step : (stopped : Bool) → Result IoError (Unit {0}) → ServerPayload → Written → Written
write_step true result payload rest = (some (ok tt), [])
write_step false (err e) payload rest = (some (err e), [])
write_step false (ok u) payload (end, written) = (end, payload ∷ written)

-- The frames that are written, `none` while a response is still to be written.
unfoldable pub respond : List Writing → List ServerPayload → Written
respond writings [] = (some (ok tt), [])
respond [] (payload ∷ payloads) = (none, [])
respond (writing ∷ writings) (payload ∷ payloads) =
    write_step writing.stopped writing.result payload (respond writings payloads)

abbrev pub arrived : Option ClientPayload → Arrival
arrived message = record { stopped = false; receiver_gone = false; frame = ok (some message) }

-- While frames are read, the session takes them and the daemon does not stop, the session gets the
-- client's messages in their order, each once, before whatever comes then.
pub relay-arrived :
    (messages : List (Option ClientPayload)) (arrivals : List Arrival)
    (sent : List (Result Status (Option ClientPayload)))
    → relay (map arrived messages ++ arrivals) sent
      ≡ relay arrivals (sent ++ map (λ message. ok message) messages)
unfolding relay
relay-arrived [] arrivals sent = ap (relay arrivals) (sym (append-nil sent))
relay-arrived (message ∷ messages) arrivals sent =
    relay-arrived messages arrivals (sent ++ ok message ∷ [])
    ∙ ap (relay arrivals) (append_assoc sent (ok message ∷ []) (map (λ m. ok m) messages))

write_step_lem :
    (S : Type 0) (stopped : Bool) (result : Result IoError (Unit {0})) (payload : ServerPayload)
    (payloads : List ServerPayload) (p : Written)
    → ((rest : List ServerPayload) × (payloads ≡ p.1 ++ rest)
        × (S → p.0 ≡ some (ok tt) → rest ≡ []))
    → let (end, written) = write_step stopped result payload p in
      (rest : List ServerPayload) × (payload ∷ payloads ≡ written ++ rest)
      × ((stopped ≡ false) × S → end ≡ some (ok tt) → rest ≡ [])
write_step_lem S true result payload payloads p h =
    (payload ∷ payloads, refl, λ s e. absurd (ground (arith, s.0)))
write_step_lem S false (err f) payload payloads p h =
    (payload ∷ payloads, refl, λ s e. absurd (ground (arith, e)))
write_step_lem S false (ok u) payload payloads (end, written) (rest, split, all_written) =
    (rest, ap (λ r. payload ∷ r) split, λ s e. all_written s.1 e)

-- The frames written are a first part of the answers, in their order, and all of them if the writing
-- side ends without an error and the daemon does not stop.
pub respond-answers :
    (writings : List Writing) (payloads : List ServerPayload)
    → let (end, written) = respond writings payloads in
      (rest : List ServerPayload) × (payloads ≡ written ++ rest)
      × (All (λ (w : Writing). w.stopped ≡ false) writings → end ≡ some (ok tt) → rest ≡ [])
unfolding respond
respond-answers writings [] = ([], refl, λ s e. refl)
respond-answers [] (payload ∷ payloads) = (payload ∷ payloads, refl, λ s e. cc)
respond-answers (writing ∷ writings) (payload ∷ payloads) =
    write_step_lem (All (λ (w : Writing). w.stopped ≡ false) writings) writing.stopped
      writing.result payload payloads (respond writings payloads)
      (respond-answers writings payloads)
