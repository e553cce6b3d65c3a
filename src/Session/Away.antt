-- ===== src/Session/Away.antt =====
-- sdk/ts/src/session.ts: a connection that the session does not hold.
use skyext.Codec.{CodecResult, request, response}
use skyext.Prelude.{
  ℕ, ◌+◌, ◌≡◌, ◌≢◌, refl, String, Bool, true, false, Option, none, some, List, [], ◌∷◌, arith, All,
  Option-cases, inl, inr, lookup,
}
use skyext.Session.System.{
  Event, call_start, call_reconnect, call_invalidate, call_close, call_request, message, lost,
  timer, run, start, task_at, run_task, step, run_all,
}
use skyext.Session.Tasks.{
  Stage, Task, Input, System, Ran, starting, supervising, supervisor_sleep, heartbeat_sleep,
  heartbeat_ping, waiting, done, resolving, connecting, resuming, asking, logging_in, endpoints,
  connected, login_param, woke, reply, on_reply, connect_next, give_up, finish_login, adopt,
  finish_resume, send_login, establish, supervisor_pause, supervise, supervise_on, beat, ping, pong,
  pong_reply, launch, after_start, after_supervise, step_task,
}
use skyext.Session.State.{Session, Settings, Effect}
use skyext.Session.{
  drop, close, on_message, on_closed, issue, fail_pending, resend_pending, invalidate_nonce, handle,
  handle_id, handle_response, finish, sleep, reconnect, is_current,
}
use skyext.Value.{ℤ, pos, negsuc, Fields}

-- The session does not hold connection `k`.
abbrev pub Away : ℕ → Session → Type 0
Away k s = s.conn ≢ some k

-- An input that does not make it the session's again.
abbrev pub Spares : ℕ → Input → Type 0
Spares k (connected (some c)) = c ≢ k
Spares k _ = Unit {0}

abbrev pub Avoids : ℕ → Event → Type 0
Avoids k (run i input) = Spares k input
Avoids k _ = Unit {0}

module _ (pack : String → Option Fields → ℕ → Option (List ℕ)) (o : Settings) (k : ℕ) where
  drop-Away : (c : Option ℕ) (s : Session) → Away k s → Away k (drop c s).0
  unfolding drop
  drop-Away none s h = h
  drop-Away (some c) s h = ground arith

  sleep-Away : (ms : ℕ) (s : Session) → Away k s → Away k (sleep ms s).0
  unfolding sleep
  sleep-Away ms s h = h

  handle_id-Away :
      (req : ℤ) (args : Option Fields) (s : Session) → Away k s → Away k (handle_id req args s).0
  unfolding handle_id
  handle_id-Away (pos n) args s h = elim (Option-cases (lookup n s.pending)) [
    | inl missing ↦ rw (missing, handle_response) h
    | inr (p, there) ↦ rw (there, handle_response) h
  ]
  handle_id-Away (negsuc n) args s h = h

  handle-Away : (r : Option CodecResult) (s : Session) → Away k s → Away k (handle r s).0
  unfolding handle
  handle-Away none s h = h
  handle-Away (some (request r)) s h = h
  handle-Away (some (response r)) s h = handle_id-Away r.session r.args s h

  on_message-Away :
      (c : ℕ) (r : Option (Option CodecResult)) (s : Session)
      → Away k s
      → Away k (on_message c r s).0
  unfolding on_message
  on_message-Away c none s h = h
  on_message-Away c (some r) s h = ground (arith, handle-Away r s h)

  finish-Away : (w : ℕ) (s : Session) → Away k s → Away k (finish w s).0
  unfolding finish
  finish-Away w s h = ground arith

  adopt-Away : (c : ℕ) (s : Session) → c ≢ k → Away k s → Away k (adopt pack o c s).0
  unfolding adopt issue
  adopt-Away c s other h = ground arith

  give_up-Away : (c : ℕ) (s : Session) → Away k s → Away k (give_up c s).0
  unfolding give_up
  give_up-Away c s h = drop-Away (some c) s h

  finish_login-Away :
      (c : ℕ) (v : Option Fields) (s : Session) → Away k s → Away k (finish_login c v s).0
  unfolding finish_login fail_pending
  finish_login-Away c none s h = give_up-Away c s h
  finish_login-Away c (some resp) s h = ground (arith, give_up-Away c s h)

  finish_resume-Away :
      (c : ℕ) (v : Option Fields) (s : Session) → Away k s → Away k (finish_resume pack o c v s).0
  unfolding finish_resume resend_pending
  finish_resume-Away c none s h = h
  finish_resume-Away c (some resp) s h = ground arith

  send_login-Away :
      (c : ℕ) (p : Option Fields) (s : Session) → Away k s → Away k (send_login pack o c p s).0
  unfolding send_login issue
  send_login-Away c none s h = give_up-Away c s h
  send_login-Away c (some p) s h = h

  on_reply-Away :
      (stage : Stage) (r : Option (Option Fields)) (next : Option Fields → Session → Ran)
      (s : Session)
      → ((v : Option Fields) → Away k (next v s).0)
      → Away k s
      → Away k (on_reply stage r next s).0
  on_reply-Away stage none next s f h = h
  on_reply-Away stage (some v) next s f h = f v

  connect_next-Away : (urls : List String) (s : Session) → Away k s → Away k (connect_next urls s).0
  unfolding connect_next
  connect_next-Away [] s h = h
  connect_next-Away (url ∷ urls) s h = h

  establish-Away :
      (stage : Stage) (input : Input) (trace : List Effect) (s : Session)
      → Spares k input
      → Away k s
      → Away k (establish pack o stage input trace s).0
  unfolding establish
  establish-Away resolving (endpoints none) trace s a h = h
  establish-Away resolving (endpoints (some urls)) trace s a h = connect_next-Away urls s h
  establish-Away (connecting rest) (connected none) trace s a h = connect_next-Away rest s h
  establish-Away (connecting rest) (connected (some c)) trace s a h = adopt-Away c s a h
  establish-Away (resuming c req) input trace s a h =
      on_reply-Away (resuming c req) (reply input req trace) (finish_resume pack o c) s
        (λ v. finish_resume-Away c v s h) h
  establish-Away (asking c) (login_param param) trace s a h = send_login-Away c param s h
  establish-Away (logging_in c req) input trace s a h =
      on_reply-Away (logging_in c req) (reply input req trace) (finish_login c) s
        (λ v. finish_login-Away c v s h) h
  establish-Away _ _ trace s a h = h

  beat-Away :
      (misses : ℕ) (s : Session) (es : List Effect) → Away k s → Away k (beat pack o misses s es).0
  unfolding beat
  beat-Away misses s es h = ground (arith, sleep-Away o.ping_interval_ms s h)

  supervise_on-Away :
      (b : Bool) (c : Option ℕ) (s : Session) → Away k s → Away k (supervise_on pack o b c s).0
  unfolding supervise_on
  supervise_on-Away true c s h = h
  supervise_on-Away false none s h = h
  supervise_on-Away false (some c) s h = sleep-Away o.reconnect_delay_ms s h

  launch-Away : (s : Session) (es : List Effect) → Away k s → Away k (launch pack o s es).0
  unfolding launch
  launch-Away s es h =
      let s1 : Session = record s { loops_started = true } in
      let h1 = supervise_on-Away s1.closed s1.conn s1 h in
      ground (arith, beat-Away 0 (supervise pack o s1).0 [] h1)

  ping-Away : (misses : ℕ) (s : Session) → Away k s → Away k (ping pack o misses s).0
  unfolding ping issue
  ping-Away misses s h = ground (arith, beat-Away misses s [] h)

  pong-Away :
      (misses : ℕ) (c : Option ℕ) (v : Option Fields) (s : Session)
      → Away k s
      → Away k (pong pack o misses c v s).0
  unfolding pong invalidate_nonce
  pong-Away misses c none s h = ground (
    arith,
    beat-Away 0 (drop c s).0 (drop c s).1 (drop-Away c s h),
    beat-Away (misses + 1) s [] h,
  )
  pong-Away misses c (some resp) s h =
      let s' = invalidate_nonce s in
      ground (arith, beat-Away 0 (drop c s').0 (drop c s').1 (drop-Away c s' h), beat-Away 0 s [] h)

  pong_reply-Away :
      (misses : ℕ) (c : Option ℕ) (req : ℕ) (r : Option (Option Fields)) (s : Session)
      → Away k s
      → Away k (pong_reply pack o misses c req r s).0
  unfolding pong_reply
  pong_reply-Away misses c req none s h = h
  pong_reply-Away misses c req (some v) s h = pong-Away misses c v s h

  after_start-Away : (w : Ran) → Away k w.0 → Away k (after_start pack o w).0
  after_start-Away (s, waiting stage, es) h = h
  after_start-Away (s, done b, es) h = launch-Away s es h

  after_supervise-Away : (w : Ran) → Away k w.0 → Away k (after_supervise pack o w).0
  unfolding supervisor_pause
  after_supervise-Away (s, waiting stage, es) h = h
  after_supervise-Away (s, done b, es) h = sleep-Away o.reconnect_delay_ms s h

  step_task-Away :
      (t : Task) (input : Input) (trace : List Effect) (s : Session)
      → Spares k input
      → Away k s
      → Away k (step_task pack o t input trace s).0
  unfolding step_task
  step_task-Away (starting stage) input trace s a h =
      after_start-Away (establish pack o stage input trace s)
        (establish-Away stage input trace s a h)
  step_task-Away (supervising stage) input trace s a h =
      after_supervise-Away (establish pack o stage input trace s)
        (establish-Away stage input trace s a h)
  step_task-Away (supervisor_sleep w) woke trace s a h =
      ground (arith, supervise_on-Away s.closed s.conn s h)
  step_task-Away (heartbeat_sleep misses w) woke trace s a h = ground (arith, ping-Away misses s h)
  step_task-Away (heartbeat_ping misses c req) input trace s a h =
      pong_reply-Away misses c req (reply input req trace) s h
  step_task-Away _ _ trace s a h = h

  run_task-Away :
      (i : ℕ) (input : Input) (t : Option Task) (y : System)
      → Spares k input
      → Away k y.session
      → Away k (run_task pack o i input t y).session
  unfolding run_task
  run_task-Away i input none y a h = h
  run_task-Away i input (some t) y a h = step_task-Away t input y.trace y.session a h

  step-Away :
      (e : Event) (y : System) → Avoids k e → Away k y.session → Away k (step pack o e y).session
  unfolding step start reconnect invalidate_nonce on_closed close issue
  step-Away call_start y a h = h
  step-Away call_reconnect y a h = drop-Away y.session.conn y.session h
  step-Away call_invalidate y a h = h
  step-Away call_close y a h = λ e. cc
  step-Away (call_request name param timeout_ms) y a h = h
  step-Away (message c r) y a h = on_message-Away c r y.session h
  step-Away (lost c) y a h = drop-Away (some c) y.session h
  step-Away (timer w) y a h = finish-Away w y.session h
  step-Away (run i input) y a h = run_task-Away i input (task_at y.tasks i) y a h

  pub run_all-Away :
      (es : List Event) (y : System)
      → All (Avoids k) es
      → Away k y.session
      → Away k (run_all pack o es y).session
  unfolding run_all
  run_all-Away [] y a h = h
  run_all-Away (e ∷ es) y a h = run_all-Away es (step pack o e y) a.1 (step-Away e y a.0 h)

Away-is_current : (k : ℕ) (s : Session) → Away k s → is_current s.conn k ≡ false
Away-is_current k s h = elim (Option-cases s.conn) [
  | inl none_ ↦ rw none_
  | inr (d, held) ↦ let e : d ≢ k = λ e. h (cc (held, e)) in rw held (ground arith)
]

-- Its messages and its loss do nothing.
pub Away-mute :
    (k : ℕ) (r : Option (Option CodecResult)) (s : Session)
    → Away k s
    → (on_message k r s ≡ (s, [])) × (on_closed k s ≡ (s, []))
unfolding on_message on_closed drop
Away-mute k none s h = (refl, rw (Away-is_current k s h))
Away-mute k (some r) s h = (rw (Away-is_current k s h), rw (Away-is_current k s h))
