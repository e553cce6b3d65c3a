-- ===== src/Transport.antt =====
-- sdk/ts/src/transport.ts: the WebSocket transport, one socket from its creation on. The socket's
-- events, and the calls of the session on its connection, come in any order.
pub mod Callbacks
pub mod Outcome
use skyext.Prelude.{
  ℕ, Bool, true, false, Option, none, some, List, [], ◌∷◌, ◌++◌, if◌then◌else◌, String,
}

-- Whether the promise of `connect` was resolved, and the variables of its closure; of a callback it
-- matters whether it is there.
pub record Socket : Type 0 where
  pub opened : Bool
  pub closed_notified : Bool
  pub has_message_cb : Bool
  pub has_closed_cb : Bool

-- `frame none` is a message whose data is no ArrayBuffer.
pub data Event : Type 0 where
  open_event error_event close_event : Event
  frame : Option (List ℕ) → Event
  call_send : List ℕ → Event
  call_close register_message register_closed : Event

-- What the code does: it settles the promise (the first time counts), calls back, uses the socket.
pub data Action : Type 0 where
  create_socket : String → Action
  resolved rejected : Action
  deliver : List ℕ → Action
  notify_closed close_socket : Action
  send_frame : List ℕ → Action

-- The closure's variables at the start.
abbrev pub fresh_socket : Socket
fresh_socket = record {
  opened = false;
  closed_notified = false;
  has_message_cb = false;
  has_closed_cb = false;
}

-- `onmessage`
abbrev pub on_frame : Socket → Option (List ℕ) → List Action
on_frame s none = []
on_frame s (some bytes) = if s.has_message_cb then deliver bytes ∷ [] else []

-- `notifyClosed`
unfoldable pub notify_once : Socket → Socket × List Action
notify_once s =
    if s.closed_notified
    then (s, [])
    else (record s { closed_notified = true }, if s.has_closed_cb then notify_closed ∷ [] else [])

pub record Endpoint : Type 0 where
  pub url : String

-- A connection and a transport, over the state of a socket.
pub record TransportConn (S : Type 0) : Type 0 where
  pub send : List ℕ → S → S × List Action
  pub close : S → S × List Action
  pub on_message : S → S × List Action
  pub on_closed : S → S × List Action

pub record Transport (S : Type 0) : Type 0 where
  pub connect : Endpoint → S × List Action
  pub conn : TransportConn S

abbrev pub ws_conn : TransportConn Socket
ws_conn = record {
  send = λ bytes s. (s, send_frame bytes ∷ []);
  close = λ s. (s, close_socket ∷ []);
  on_message = λ s. (record s { has_message_cb = true }, []);
  on_closed = λ s.
      (record s { has_closed_cb = true }, if s.closed_notified then notify_closed ∷ [] else []);
}

-- `wsTransport`; the promise of `connect` gives the connection.
abbrev pub ws_transport : Transport Socket
ws_transport = record {
  connect = λ endpoint. (fresh_socket, create_socket endpoint.url ∷ []);
  conn = ws_conn;
}

unfoldable pub step : Event → Socket → Socket × List Action
unfolding notify_once
step open_event s = (record s { opened = true }, resolved ∷ [])
step error_event s = (s, if s.opened then [] else rejected ∷ [])
step close_event s = if s.opened then notify_once s else (s, rejected ∷ [])
step (frame m) s = (s, on_frame s m)
step (call_send bytes) s = ws_transport.conn.send bytes s
step call_close s = ws_transport.conn.close s
step register_message s = ws_transport.conn.on_message s
step register_closed s = ws_transport.conn.on_closed s

unfoldable pub run : List Event → Socket → Socket × List Action
unfolding step
run [] s = (s, [])
run (e ∷ es) s = let (s', out) = step e s in let (s'', rest) = run es s' in (s'', out ++ rest)

-- `connect` and then the events.
unfoldable pub live : Endpoint → List Event → List Action
unfolding run
live endpoint es = let (s, out) = ws_transport.connect endpoint in out ++ (run es s).1
