-- ===== src/Tests/Transport.antt =====
-- sdk/ts/src/transport.ts: a run of a socket.
use skyext.Prelude.{false, ◌≤◌, ◌≡◌, none, some, List, [], ◌∷◌}
use skyext.Transport.Callbacks.{closings, registrations, delivered, received, run-callbacks}
use skyext.Transport.Outcome.{settled, opens, live-opens}
use skyext.Transport.{
  live, Event, open_event, close_event, frame, call_close, register_message, register_closed,
  fresh_socket, run,
}

-- A frame comes too early, the socket closes twice, and the closed callback is registered late.
abbrev busy_socket : List Event
busy_socket =
    open_event
    ∷ frame (some (1 ∷ []))
    ∷ register_message
    ∷ frame (some (2 ∷ []))
    ∷ frame none
    ∷ close_event
    ∷ frame (some (3 ∷ []))
    ∷ call_close
    ∷ close_event
    ∷ register_closed
    ∷ []

run-callbacks_example :
    (closings (run busy_socket fresh_socket).1 ≤ 1)
    × (delivered (run busy_socket fresh_socket).1 ≡ (2 ∷ []) ∷ (3 ∷ []) ∷ [])
unfolding registrations received
run-callbacks_example = run-callbacks busy_socket

-- A failed handshake is followed by a late `open`.
live-opens_example :
    settled (live (record { url = "ws://gate:9948" }) (call_close ∷ close_event ∷ open_event ∷ []))
    ≡ some false
unfolding opens
live-opens_example =
    live-opens (record { url = "ws://gate:9948" }) (call_close ∷ close_event ∷ open_event ∷ [])
