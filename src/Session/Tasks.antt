-- ===== src/Session/Tasks.antt =====
-- sdk/ts/src/session.ts: the asynchronous methods. A call of `start`, the supervisor loop and the
-- heartbeat loop are tasks; a task is the place where such a call waits. What a task waits for is
-- an input that the environment chooses, and a step runs the task up to its next wait. What happens
-- in between (messages, lost connections, calls of the application, timers) are events of their own.
-- Where an asynchronous method awaits another one of these, both are one step.
use skyext.Prelude.{
  ℕ, ◌+◌, String, Bool, true, false, not, ◌||◌, Option, none, some, List, [], ◌∷◌, ◌++◌,
  if◌then◌else◌, ◌==◌, leb,
}
use skyext.Session.State.{Session, Settings, Effect, LoginParam, dial, close_conn, resolve, notify}
use skyext.Session.{
  is_ok, invalidate_nonce, drop, fail_pending, sleep, contains, issue, resend_pending,
}
use skyext.Value.{
  number, pos, Fields, no_fields, entry, get, is_nullish, is_number, or_null, online, relogin,
}

-- Where `establish` waits: for `resolveEndpoints`, for `connect` with the endpoints that are left,
-- for the response of `login.resume`, for `loginParam`, for the response of `login.login`.
pub data Stage : Type 0 where
  resolving : Stage
  connecting : List String → Stage
  resuming : ℕ → ℕ → Stage
  asking : ℕ → Stage
  logging_in : ℕ → ℕ → Stage

pub data Progress : Type 0 where
  waiting : Stage → Progress
  done : Bool → Progress

pub data Task : Type 0 where
  starting : Stage → Task
  supervising : Stage → Task
  supervisor_sleep : ℕ → Task
  heartbeat_sleep : ℕ → ℕ → Task
  heartbeat_ping : ℕ → Option ℕ → ℕ → Task
  finished : Task

-- What ends a wait; `none` is an exception or a rejected promise, and for `login_param` also null.
pub data Input : Type 0 where
  endpoints : Option (List String) → Input
  connected : Option ℕ → Input
  login_param : Option LoginParam → Input
  answered timed_out woke : Input

pub record System : Type 0 where
  pub session : Session
  pub tasks : List Task
  pub trace : List Effect

-- The value that the promise of a request was resolved with, if it was.
unfoldable pub settled : ℕ → List Effect → Option (Option Fields)
settled req [] = none
settled req (resolve r v ∷ es) = if req == r then some v else settled req es
settled req (_ ∷ es) = settled req es

-- `Promise.race` of the promise and the timer: the timer counts only if it comes first.
unfoldable pub reply : Input → ℕ → List Effect → Option (Option Fields)
unfolding settled
reply answered req trace = settled req trace
reply timed_out req trace = elim (settled req trace) [ none ↦ some none | some v ↦ some v ]
reply _ req trace = none

-- What a step of a task leaves: the session, the rest of the call, and the effects.
abbrev pub Ran : Type 0
Ran = Session × Progress × List Effect

-- The loop over the endpoints, up to its next `connect`.
unfoldable pub connect_next : List String → Session → Ran
connect_next [] s = (s, done false, [])
connect_next (url ∷ rest) s = (s, waiting (connecting rest), dial url ∷ [])

-- `doLogin`: it first asks for its parameter.
abbrev pub start_login : ℕ → Session → List Effect → Ran
start_login c s es = (s, waiting (asking c), es ++ notify relogin ∷ [])

-- The end of `establish` after a failed login.
unfoldable pub give_up : ℕ → Session → Ran
give_up c s = let (s', es) = drop (some c) s in (s', done false, es)

-- The assignments of a successful `doLogin`, and of a successful `tryResume`.
abbrev pub logged_in_base : Fields → Session → Session
logged_in_base resp s = record s {
  rid = or_null (get "rid" resp);
  nonce = or_null (get "nonce" resp);
  recv = 0;
  is_online = true;
}

abbrev pub resumed_base : Fields → Session → Session
resumed_base resp s = record s { nonce = get "nonce" resp; is_online = true }

-- The end of a successful `doLogin`.
unfoldable pub logged_in : Fields → Session → Ran
logged_in resp s =
    let (s', es) = fail_pending (logged_in_base resp s) in (s', done true, es ++ notify online ∷ [])

unfoldable pub finish_login : ℕ → Option Fields → Session → Ran
unfolding give_up logged_in
finish_login c none s = give_up c s
finish_login c (some resp) s = if is_ok resp then logged_in resp s else give_up c s

-- An input that the stage does not wait for, or a response that is not there, changes nothing.
abbrev pub on_reply :
    Stage → Option (Option Fields) → (Option Fields → Session → Ran) → Session → Ran
on_reply stage none k s = (s, waiting stage, [])
on_reply stage (some v) k s = k v s

-- A step of a task: the session, the tasks in its place, the effects.
abbrev pub Stepped : Type 0
Stepped = Session × List Task × List Effect

module _ (pack : String → Option Fields → ℕ → Option (List ℕ)) (o : Settings) where
  unfoldable pub try_resume : ℕ → Session → Ran
  try_resume c s =
      let param =
        entry "rid" s.rid (entry "nonce" s.nonce (entry "recv" (number (pos s.recv)) no_fields)) in
      let (s', req, es) = issue pack "login.resume" (some param) (some o.handshake_timeout_ms) s in
      if is_nullish s.nonce || is_nullish s.rid
      then start_login c s []
      else (s', waiting (resuming c req), es)

  -- The part of `establish` between `connect` and `tryResume`.
  unfoldable pub adopt : ℕ → Session → Ran
  unfolding try_resume
  adopt c s =
      if s.closed
      then (s, done false, close_conn c ∷ [])
      else try_resume c (record s { conn = some c })

  -- The end of a successful `tryResume`.
  unfoldable pub resumed : Fields → Session → Ran
  resumed resp s =
      let (s', es) =
        resend_pending pack (record s { nonce = get "nonce" resp; is_online = true }) in
      (s', done true, es ++ notify online ∷ [])

  unfoldable pub finish_resume : ℕ → Option Fields → Session → Ran
  unfolding resumed
  finish_resume c none s = start_login c s []
  finish_resume c (some resp) s = if is_ok resp then resumed resp s else start_login c s []

  unfoldable pub send_login : ℕ → Option LoginParam → Session → Ran
  unfolding give_up
  send_login c none s = give_up c s
  send_login c (some param) s =
      let (s', req, es) = issue pack "login.login" (some param) (some o.handshake_timeout_ms) s in
      (s', waiting (logging_in c req), es)

  unfoldable pub establish : Stage → Input → List Effect → Session → Ran
  unfolding connect_next adopt finish_resume send_login finish_login reply
  establish resolving (endpoints none) trace s = (s, done false, [])
  establish resolving (endpoints (some urls)) trace s = connect_next urls s
  establish (connecting rest) (connected none) trace s = connect_next rest s
  establish (connecting rest) (connected (some c)) trace s = adopt c s
  establish (resuming c req) input trace s =
      on_reply (resuming c req) (reply input req trace) (finish_resume c) s
  establish (asking c) (login_param param) trace s = send_login c param s
  establish (logging_in c req) input trace s =
      on_reply (logging_in c req) (reply input req trace) (finish_login c) s
  establish stage _ trace s = (s, waiting stage, [])

  unfoldable pub supervisor_pause : Session → List Effect → Stepped
  supervisor_pause s es =
      let (s', w, es') = sleep o.reconnect_delay_ms s in (s', supervisor_sleep w ∷ [], es ++ es')

  -- The head of the supervisor's loop, at `this.closed` and `this.conn`.
  unfoldable pub supervise_on : Bool → Option ℕ → Session → Stepped
  unfolding supervisor_pause
  supervise_on true conn s = (s, finished ∷ [], [])
  supervise_on false none s = (s, supervising resolving ∷ [], [])
  supervise_on false (some c) s = supervisor_pause s []

  unfoldable pub supervise : Session → Stepped
  unfolding supervise_on
  supervise s = supervise_on s.closed s.conn s

  -- The head of the heartbeat's loop.
  unfoldable pub beat : ℕ → Session → List Effect → Stepped
  beat misses s es =
      let (s', w, es') = sleep o.ping_interval_ms s in
      if s.closed then (s, finished ∷ [], es) else (s', heartbeat_sleep misses w ∷ [], es ++ es')

  unfoldable pub ping : ℕ → Session → Stepped
  unfolding beat
  ping misses s =
      let (s', req, es) =
        issue pack "login.ping" (some (entry "recv" (number (pos s.recv)) no_fields))
          (some o.ping_interval_ms) s in
      if s.closed || not s.is_online
      then beat misses s []
      else (s', heartbeat_ping misses s.conn req ∷ [], es)

  unfoldable pub pong : ℕ → Option ℕ → Option Fields → Session → Stepped
  unfolding beat invalidate_nonce
  pong misses conn (some resp) s =
      let (s', es) = drop conn (invalidate_nonce s) in
      if is_number (get "sent" resp) s.recv then beat 0 s [] else beat 0 s' es
  pong misses conn none s =
      let (s', es) = drop conn s in
      if leb o.ping_tolerance (misses + 1) then beat 0 s' es else beat (misses + 1) s []

  -- The end of `start`: the loops are launched once.
  unfoldable pub launch : Session → List Effect → Stepped
  unfolding supervise beat
  launch s es =
      let (s', ts, es') = supervise (record s { loops_started = true }) in
      let (s'', ts', es'') = beat 0 s' [] in
      if s.loops_started
      then (s, finished ∷ [], es)
      else (s'', finished ∷ (ts ++ ts'), es ++ (es' ++ es''))

  abbrev pub after_start : Ran → Stepped
  after_start (s, waiting stage, es) = (s, starting stage ∷ [], es)
  after_start (s, done b, es) = launch s es

  abbrev pub after_supervise : Ran → Stepped
  after_supervise (s, waiting stage, es) = (s, supervising stage ∷ [], es)
  after_supervise (s, done b, es) = supervisor_pause s es

  unfoldable pub pong_reply : ℕ → Option ℕ → ℕ → Option (Option Fields) → Session → Stepped
  unfolding pong
  pong_reply misses conn req none s = (s, heartbeat_ping misses conn req ∷ [], [])
  pong_reply misses conn req (some v) s = pong misses conn v s

  unfoldable pub step_task : Task → Input → List Effect → Session → Stepped
  unfolding establish supervise ping pong_reply launch
  step_task (starting stage) input trace s = after_start (establish stage input trace s)
  step_task (supervising stage) input trace s = after_supervise (establish stage input trace s)
  step_task (supervisor_sleep w) woke trace s =
      if contains s.wakers w then (s, supervisor_sleep w ∷ [], []) else supervise s
  step_task (heartbeat_sleep misses w) woke trace s =
      if contains s.wakers w then (s, heartbeat_sleep misses w ∷ [], []) else ping misses s
  step_task (heartbeat_ping misses conn req) input trace s =
      pong_reply misses conn req (reply input req trace) s
  step_task task _ trace s = (s, task ∷ [], [])
