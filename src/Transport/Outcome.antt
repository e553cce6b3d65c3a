-- ===== src/Transport/Outcome.antt =====
-- sdk/ts/src/transport.ts: how the promise of `connect` is settled.
use skyext.Prelude.{
  ◌≡◌, refl, Bool, true, false, Option, none, some, List, [], ◌∷◌, Bool-cases, inl, inr,
}
use skyext.Transport.{
  Socket, Event, open_event, error_event, close_event, frame, call_send, call_close,
  register_message, register_closed, Action, resolved, rejected, Endpoint, fresh_socket, step, run,
  live,
}

-- A promise is settled by the first call of `resolve` (true) or `reject`.
unfoldable pub settled : List Action → Option Bool
settled [] = none
settled (resolved ∷ as_) = some true
settled (rejected ∷ as_) = some false
settled (_ ∷ as_) = settled as_

-- The specification: whether the socket opens before it fails or closes, if it does either.
unfoldable pub opens : List Event → Option Bool
opens [] = none
opens (open_event ∷ es) = some true
opens (error_event ∷ es) = some false
opens (close_event ∷ es) = some false
opens (_ ∷ es) = opens es

run-opens : (es : List Event) (s : Socket) → s.opened ≡ false → settled (run es s).1 ≡ opens es
unfolding run step settled opens
run-opens [] s shut = refl
run-opens (open_event ∷ es) s shut = refl
run-opens (error_event ∷ es) s shut = rw shut
run-opens (close_event ∷ es) s shut = rw shut
run-opens (frame none ∷ es) s shut = run-opens es s shut
run-opens (frame (some m) ∷ es) s shut = elim (Bool-cases s.has_message_cb) [
  | inl registered ↦ rw registered (run-opens es (record s { has_message_cb = true }) shut)
  | inr missing ↦ rw missing (run-opens es (record s { has_message_cb = false }) shut)
]
run-opens (call_send b ∷ es) s shut = run-opens es s shut
run-opens (call_close ∷ es) s shut = run-opens es s shut
run-opens (register_message ∷ es) s shut = run-opens es (record s { has_message_cb = true }) shut
run-opens (register_closed ∷ es) s shut =
    let s' : Socket = record s { has_closed_cb = true } in
    elim (Bool-cases s.closed_notified) [
      | inl late ↦ rw late (run-opens es (record s' { closed_notified = true }) shut)
      | inr early ↦ rw early (run-opens es (record s' { closed_notified = false }) shut)
    ]

-- The promise of `connect` is resolved if the socket opens before it fails or closes, rejected if it
-- fails or closes before it opens, and waits as long as it does neither; what comes later changes
-- nothing.
pub live-opens : (endpoint : Endpoint) (es : List Event) → settled (live endpoint es) ≡ opens es
unfolding live settled
live-opens endpoint es = run-opens es fresh_socket refl
