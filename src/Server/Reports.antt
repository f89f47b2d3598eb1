-- ===== src/Server/Reports.antt =====
-- The report of a session's end.
use wg_kotlin.Base.{
  ℕ, zero, suc, ◌-◌, ◌≤◌, ◌<◌, ◌≡◌, refl, sym, ap, ◌∙◌, Bool, true, false, List, [], ◌∷◌, ◌++◌,
  append-nil, append_assoc, arith, leb, if◌then◌else◌, length, take, length-append, Result, ok, err,
}
use wg_kotlin.Text.{Str}
use wg_kotlin.Platform.Host.{PlatformError}
use wg_kotlin.Server.{
  Status, status, internal, closing, error_message, ServerPayload, Channel, try_send, finish,
}

-- The errors to report, in their order.
abbrev pub write_errors : Result Status (Unit {0}) → List ServerPayload
write_errors (ok u) = []
write_errors (err s) = error_message s ∷ []

abbrev pub close_errors : Result PlatformError (Unit {0}) → List ServerPayload
close_errors (ok u) = []
close_errors (err e) = error_message (status internal (closing e)) ∷ []

-- The channel after as many of these as there was room for.
abbrev pub filled : List ServerPayload → Channel → List ServerPayload
filled errors tx = if tx.closed then tx.queue else tx.queue ++ take (64 - length tx.queue) errors

abbrev opened : List ServerPayload → Channel
opened queue = record { queue = queue; closed = false }

take_nil : (n : ℕ) → take {A = ServerPayload} n [] ≡ []
take_nil zero = refl
take_nil (suc n) = refl

none_sent :
    (queue : List ServerPayload) → opened queue ≡ opened (queue ++ take (64 - length queue) [])
none_sent queue = rw (take_nil (64 - length queue), append-nil queue) refl

full_lem :
    (m : ServerPayload) (queue : List ServerPayload)
    → 64 ≤ length queue
    → try_send m (opened queue) ≡ opened queue
unfolding try_send
full_lem m queue h = let full : leb 64 (length queue) ≡ true = ground (arith, h) in rw full refl

room_lem :
    (m : ServerPayload) (queue : List ServerPayload)
    → length queue < 64
    → try_send m (opened queue) ≡ opened (queue ++ m ∷ [])
unfolding try_send
room_lem m queue h = let room : leb 64 (length queue) ≡ false = ground (arith, h) in rw room refl

closed_lem :
    (m : ServerPayload) (queue : List ServerPayload)
    → try_send m (record { queue = queue; closed = true }) ≡ record { queue = queue; closed = true }
unfolding try_send
closed_lem m queue = refl

one_sent :
    (a : ServerPayload) (queue : List ServerPayload)
    → try_send a (opened queue) ≡ opened (queue ++ take (64 - length queue) (a ∷ []))
one_sent a queue = go (64 - length queue) refl
  where
    go :
        (n : ℕ)
        → 64 - length queue ≡ n
        → try_send a (opened queue) ≡ opened (queue ++ take (64 - length queue) (a ∷ []))
    go zero e = rw e (full_lem a queue (omega (arith, e)) ∙ ap opened (sym (append-nil queue)))
    go (suc zero) e = rw e (room_lem a queue (omega (arith, e)))
    go (suc (suc n)) e = rw e (room_lem a queue (omega (arith, e)))

two_sent :
    (a b : ServerPayload) (queue : List ServerPayload)
    → try_send b (try_send a (opened queue))
      ≡ opened (queue ++ take (64 - length queue) (a ∷ b ∷ []))
two_sent a b queue = go (64 - length queue) refl
  where
    go :
        (n : ℕ)
        → 64 - length queue ≡ n
        → try_send b (try_send a (opened queue))
          ≡ opened (queue ++ take (64 - length queue) (a ∷ b ∷ []))
    go zero e =
        rw (e, full_lem a queue (omega (arith, e)), full_lem b queue (omega (arith, e)))
          (ap opened (sym (append-nil queue)))
    go (suc zero) e =
        rw (e, room_lem a queue (omega (arith, e)))
          (full_lem b (queue ++ a ∷ []) (rw (length-append queue (a ∷ [])) (omega (arith, e))))
    go (suc (suc n)) e =
        rw (e, take_nil n, room_lem a queue (omega (arith, e)))
          (room_lem b (queue ++ a ∷ []) (rw (length-append queue (a ∷ [])) (omega (arith, e)))
            ∙ ap opened (append_assoc queue (a ∷ []) (b ∷ [])))

-- However full the channel is, the end of a session is reported without waiting: what is sent is as
-- much of the two errors, the loop's and then the clean-up's, as there is room for below 64
-- responses, and nothing to a client that is gone.
pub finish-filled :
    (interface_name : Str) (write_result : Result Status (Unit {0}))
    (close_result : Result PlatformError (Unit {0})) (queue : List ServerPayload) (closed : Bool)
    (sessions : List Str)
    → let tx : Channel = record { queue = queue; closed = closed } in
      ((finish interface_name write_result close_result tx sessions).0).queue
      ≡ filled (write_errors write_result ++ close_errors close_result) tx
unfolding finish
finish-filled name (ok u) (ok v) queue true sessions = refl
finish-filled name (err s) (ok v) queue true sessions = refl
finish-filled name (ok u) (err e) queue true sessions = refl
finish-filled name (err s) (err e) queue true sessions = refl
finish-filled name (ok u) (ok v) queue false sessions = ap (λ tx. tx.queue) (none_sent queue)
finish-filled name (err s) (ok v) queue false sessions =
    ap (λ tx. tx.queue) (one_sent (error_message s) queue)
finish-filled name (ok u) (err e) queue false sessions =
    ap (λ tx. tx.queue) (one_sent (error_message (status internal (closing e))) queue)
finish-filled name (err s) (err e) queue false sessions =
    ap (λ tx. tx.queue)
      (two_sent (error_message s) (error_message (status internal (closing e))) queue)
