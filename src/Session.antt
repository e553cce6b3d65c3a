-- ===== src/Session.antt =====
-- sdk/ts/src/session.ts: the synchronous methods of `SessionClient`. A method returns the new fields and,
-- in order, what it does to the outside. A callback of the application (`onPush`, `onState`) is such an
-- effect; it is the last thing that its method does, so the calls it makes are later events. What a
-- throwing callback or connection throws is caught and ignored by the code.
pub mod State
pub mod Tasks
pub mod System
pub mod Accounts
pub mod Conservation
pub mod Counting
pub mod Observed
pub mod Resume
pub mod Shutdown
pub mod Failing
pub mod Liveness
pub mod Sound
pub mod Away
pub mod Closed
pub mod Restart
pub mod Exchange
use skyext.Codec.{CodecResult, CodecResponse, request, response}
use skyext.ErrCode
use skyext.Prelude.{
  ℕ, ◌+◌, String, Bool, true, false, ◌||◌, Option, none, some, List, [], ◌∷◌, ◌++◌, str_eq,
  if◌then◌else◌, ◌==◌, insert, erase, lookup,
}
use skyext.Value.{ℤ, pos, negsuc, Value, null, Fields, get, is_number, SessionState, offline}
use skyext.Session.State.{
  Options, Settings, or_default, LoginParam, Pending, Session, Effect, dial, transmit, close_conn,
  resolve, push, notify, set_timer, wake, settings, initial,
}

-- The getters.
unfoldable pub get_online : Session → Bool
get_online s = s.is_online

unfoldable pub get_recv : Session → ℕ
get_recv s = s.recv

unfoldable pub get_nonce : Session → Value
get_nonce s = s.nonce

unfoldable pub get_rid : Session → Value
get_rid s = s.rid

unfoldable pub uncounted : String → Bool
uncounted name =
    str_eq name "login.login" || (str_eq name "login.resume" || str_eq name "login.ping")

-- `resp.code === ErrCode.OK`
abbrev pub is_ok : Fields → Bool
is_ok resp = is_number (get "code" resp) ErrCode.ok

unfoldable pub invalidate_nonce : Session → Session
invalidate_nonce s = record s { nonce = null }

-- `if (this.conn !== conn) return` on two references.
abbrev pub is_current : Option ℕ → ℕ → Bool
is_current none c = false
is_current (some d) c = d == c

unfoldable pub drop : Option ℕ → Session → Session × List Effect
drop none s = (s, [])
drop (some c) s =
    if is_current s.conn c
    then (record s { conn = none; is_online = false }, close_conn c ∷ notify offline ∷ [])
    else (s, [])

unfoldable pub reconnect : Session → Session × List Effect
unfolding drop
reconnect s = drop s.conn s

-- `for (const p of this.pending.values()) p.resolve(null)`
unfoldable pub resolve_all : List (ℕ × Pending) → List Effect
resolve_all [] = []
resolve_all ((req, p) ∷ m) = resolve req none ∷ resolve_all m

unfoldable pub fail_pending : Session → Session × List Effect
unfolding resolve_all
fail_pending s = (record s { pending = [] }, resolve_all s.pending)

unfoldable pub wake_all : List ℕ → List Effect
wake_all [] = []
wake_all (w ∷ ws) = wake w ∷ wake_all ws

unfoldable pub close_current : Option ℕ → List Effect
close_current none = []
close_current (some c) = close_conn c ∷ []

unfoldable pub close : Session → Session × List Effect
unfolding resolve_all wake_all close_current
close s = (
  record s {
    closed = true;
    conn = none;
    is_online = false;
    loops_started = false;
    pending = [];
    wakers = [];
  },
  resolve_all s.pending ++ (close_current s.conn ++ wake_all s.wakers),
)

-- `handle` of a response, at the pending request of its id.
unfoldable pub handle_response :
    ℕ → Option Fields → Option Pending → Session → Session × List Effect
handle_response req args none s = (record s { recv = s.recv + 1 }, [])
handle_response req args (some p) s = (
  record s {
    pending = erase req s.pending;
    recv = if uncounted p.name then s.recv else s.recv + 1;
  },
  resolve req args ∷ [],
)

-- An id below zero is that of no request.
unfoldable pub handle_id : ℤ → Option Fields → Session → Session × List Effect
unfolding handle_response
handle_id (pos req) args s = handle_response req args (lookup req s.pending) s
handle_id (negsuc n) args s = (record s { recv = s.recv + 1 }, [])

-- `handle(bytes)`; its argument is what `codec.dispatch(bytes)` returned.
unfoldable pub handle : Option CodecResult → Session → Session × List Effect
unfolding handle_id
handle none s = (record s { recv = s.recv + 1 }, [])
handle (some (request r)) s = (record s { recv = s.recv + 1 }, push r.name r.args ∷ [])
handle (some (response r)) s = handle_id r.session r.args s

-- The message callback of connection `c`; `none` stands for an exception of `codec.dispatch`.
unfoldable pub on_message : ℕ → Option (Option CodecResult) → Session → Session × List Effect
unfolding handle
on_message c none s = (s, [])
on_message c (some r) s = if is_current s.conn c then handle r s else (s, [])

unfoldable pub on_closed : ℕ → Session → Session × List Effect
unfolding drop
on_closed c s = drop (some c) s

-- `sleep(ms)`: the number of the sleep is its `finish`.
unfoldable pub sleep : ℕ → Session → Session × ℕ × List Effect
sleep ms s = (
  record s { wakers = s.wakers ++ s.sleeps ∷ []; sleeps = s.sleeps + 1 },
  s.sleeps,
  set_timer ms ∷ [],
)

unfoldable pub remove : ℕ → List ℕ → List ℕ
remove n [] = []
remove n (x ∷ xs) = if n == x then xs else x ∷ remove n xs

unfoldable pub contains : List ℕ → ℕ → Bool
contains [] n = false
contains (x ∷ xs) n = n == x || contains xs n

-- `finish`, called by the timer: a second call does nothing.
unfoldable pub finish : ℕ → Session → Session × List Effect
unfolding remove contains
finish w s =
    if contains s.wakers w then (record s { wakers = remove w s.wakers }, wake w ∷ []) else (s, [])

unfoldable pub timeout_timer : Option ℕ → List Effect
timeout_timer none = []
timeout_timer (some ms) = set_timer ms ∷ []

-- `codec.pack`: `none` stands for an exception.
module _ (pack : String → Option Fields → ℕ → Option (List ℕ)) where
  -- What `send` hands to the connection. No caller reads its result.
  unfoldable pub send : Option ℕ → ℕ → Pending → List Effect
  send none req p = []
  send (some c) req p = elim (pack p.name p.param req) [
    | none ↦ []
    | some bytes ↦ transmit c bytes ∷ []
  ]

  -- `request`, up to the wait for its promise: the id under which it waits.
  unfoldable pub issue : String → Option Fields → Option ℕ → Session → Session × ℕ × List Effect
  unfolding send timeout_timer
  issue name param timeout_ms s =
      let req = s.next_req_id + 1 in
      let p : Pending = record { name = name; param = param } in
      (
        record s { next_req_id = req; pending = insert req p s.pending },
        req,
        send s.conn req p ++ timeout_timer timeout_ms,
      )

  unfoldable pub call : String → Option Fields → Session → Session × ℕ × List Effect
  unfolding issue
  call name param s = issue name param none s

  -- The loop of `resendPending`: the entries that stay, and the effects.
  unfoldable pub resend : Option ℕ → List (ℕ × Pending) → List (ℕ × Pending) × List Effect
  unfolding send uncounted
  resend conn [] = ([], [])
  resend conn ((req, p) ∷ m) =
      let rest = resend conn m in
      if uncounted p.name
      then (rest.0, resolve req none ∷ rest.1)
      else ((req, p) ∷ rest.0, send conn req p ++ rest.1)

  unfoldable pub resend_pending : Session → Session × List Effect
  unfolding resend
  resend_pending s = let r = resend s.conn s.pending in (record s { pending = r.0 }, r.1)
