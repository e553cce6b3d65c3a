-- ===== src/Session/Closed.antt =====
-- sdk/ts/src/session.ts: a closed client and its connection.
use skyext.Codec.{CodecResult}
use skyext.Prelude.{
  ℕ, ◌+◌, ◌≡◌, refl, ap, String, Bool, true, false, Option, none, some, List, [], ◌∷◌, arith,
}
use skyext.Session.System.{
  Event, call_start, call_reconnect, call_invalidate, call_close, call_request, message, lost,
  timer, run, start_system, start, task_at, run_task, step, run_all,
}
use skyext.Session.Tasks.{
  Stage, Task, Input, System, Ran, starting, supervising, supervisor_sleep, heartbeat_sleep,
  heartbeat_ping, waiting, done, resolving, connecting, resuming, asking, logging_in, endpoints,
  connected, login_param, woke, reply, on_reply, connect_next, give_up, finish_login, adopt,
  finish_resume, send_login, establish, supervisor_pause, supervise, supervise_on, beat, ping, pong,
  pong_reply, launch, after_start, after_supervise, step_task,
}
use skyext.Session.State.{Session, Settings, Effect, Pending}
use skyext.Session.{
  drop, close, on_message, on_closed, issue, fail_pending, resend_pending, invalidate_nonce,
  reconnect, is_current, send,
}
use skyext.Value.{Fields}
use skyext.Session.Sound.{Sound, sleep-Sound, drop-Sound, on_message-Sound, finish-Sound}

on_message_none :
    (c : ℕ) (r : Option (Option CodecResult)) (s : Session)
    → s.conn ≡ none
    → on_message c r s ≡ (s, [])
unfolding on_message
on_message_none c none s h = refl
on_message_none c (some r) s h =
    let e : is_current s.conn c ≡ false = ap (λ d. is_current d c) h in rw e

module _ (pack : String → Option Fields → ℕ → Option (List ℕ)) (o : Settings) where
  adopt-Sound : (c : ℕ) (s : Session) → Sound s → Sound (adopt pack o c s).0
  unfolding adopt issue
  adopt-Sound c s h = ground arith

  give_up-Sound : (c : ℕ) (s : Session) → Sound s → Sound (give_up c s).0
  unfolding give_up
  give_up-Sound c s h = drop-Sound (some c) s h

  finish_login-Sound :
      (c : ℕ) (v : Option Fields) (s : Session) → Sound s → Sound (finish_login c v s).0
  unfolding finish_login fail_pending
  finish_login-Sound c none s h = give_up-Sound c s h
  finish_login-Sound c (some resp) s h = ground (arith, give_up-Sound c s h)

  finish_resume-Sound :
      (c : ℕ) (v : Option Fields) (s : Session) → Sound s → Sound (finish_resume pack o c v s).0
  unfolding finish_resume resend_pending
  finish_resume-Sound c none s h = h
  finish_resume-Sound c (some resp) s h = ground arith

  send_login-Sound :
      (c : ℕ) (p : Option Fields) (s : Session) → Sound s → Sound (send_login pack o c p s).0
  unfolding send_login issue
  send_login-Sound c none s h = give_up-Sound c s h
  send_login-Sound c (some p) s h = h

  on_reply-Sound :
      (stage : Stage) (r : Option (Option Fields)) (k : Option Fields → Session → Ran) (s : Session)
      → ((v : Option Fields) → Sound (k v s).0)
      → Sound s
      → Sound (on_reply stage r k s).0
  on_reply-Sound stage none k s f h = h
  on_reply-Sound stage (some v) k s f h = f v

  connect_next-Sound : (urls : List String) (s : Session) → Sound s → Sound (connect_next urls s).0
  unfolding connect_next
  connect_next-Sound [] s h = h
  connect_next-Sound (url ∷ urls) s h = h

  establish-Sound :
      (stage : Stage) (input : Input) (trace : List Effect) (s : Session)
      → Sound s
      → Sound (establish pack o stage input trace s).0
  unfolding establish
  establish-Sound resolving (endpoints none) trace s h = h
  establish-Sound resolving (endpoints (some urls)) trace s h = connect_next-Sound urls s h
  establish-Sound (connecting rest) (connected none) trace s h = connect_next-Sound rest s h
  establish-Sound (connecting rest) (connected (some c)) trace s h = adopt-Sound c s h
  establish-Sound (resuming c req) input trace s h =
      on_reply-Sound (resuming c req) (reply input req trace) (finish_resume pack o c) s
        (λ v. finish_resume-Sound c v s h) h
  establish-Sound (asking c) (login_param param) trace s h = send_login-Sound c param s h
  establish-Sound (logging_in c req) input trace s h =
      on_reply-Sound (logging_in c req) (reply input req trace) (finish_login c) s
        (λ v. finish_login-Sound c v s h) h
  establish-Sound _ _ trace s h = h

  beat-Sound :
      (misses : ℕ) (s : Session) (es : List Effect) → Sound s → Sound (beat pack o misses s es).0
  unfolding beat
  beat-Sound misses s es h = ground (arith, sleep-Sound o.ping_interval_ms s h)

  supervise_on-Sound :
      (b : Bool) (c : Option ℕ) (s : Session) → Sound s → Sound (supervise_on pack o b c s).0
  unfolding supervise_on
  supervise_on-Sound true c s h = h
  supervise_on-Sound false none s h = h
  supervise_on-Sound false (some c) s h = sleep-Sound o.reconnect_delay_ms s h

  launch-Sound : (s : Session) (es : List Effect) → Sound s → Sound (launch pack o s es).0
  unfolding launch
  launch-Sound s es h =
      let s1 : Session = record s { loops_started = true } in
      let h1 = supervise_on-Sound s1.closed s1.conn s1 h in
      ground (arith, beat-Sound 0 (supervise pack o s1).0 [] h1)

  ping-Sound : (misses : ℕ) (s : Session) → Sound s → Sound (ping pack o misses s).0
  unfolding ping issue
  ping-Sound misses s h = ground (arith, beat-Sound misses s [] h)

  pong-Sound :
      (misses : ℕ) (c : Option ℕ) (v : Option Fields) (s : Session)
      → Sound s
      → Sound (pong pack o misses c v s).0
  unfolding pong invalidate_nonce
  pong-Sound misses c none s h = ground (
    arith,
    beat-Sound 0 (drop c s).0 (drop c s).1 (drop-Sound c s h),
    beat-Sound (misses + 1) s [] h,
  )
  pong-Sound misses c (some resp) s h =
      let s' = invalidate_nonce s in
      ground
        (arith, beat-Sound 0 (drop c s').0 (drop c s').1 (drop-Sound c s' h), beat-Sound 0 s [] h)

  pong_reply-Sound :
      (misses : ℕ) (c : Option ℕ) (req : ℕ) (r : Option (Option Fields)) (s : Session)
      → Sound s
      → Sound (pong_reply pack o misses c req r s).0
  unfolding pong_reply
  pong_reply-Sound misses c req none s h = h
  pong_reply-Sound misses c req (some v) s h = pong-Sound misses c v s h

  after_start-Sound : (w : Ran) → Sound w.0 → Sound (after_start pack o w).0
  after_start-Sound (s, waiting stage, es) h = h
  after_start-Sound (s, done b, es) h = launch-Sound s es h

  after_supervise-Sound : (w : Ran) → Sound w.0 → Sound (after_supervise pack o w).0
  unfolding supervisor_pause
  after_supervise-Sound (s, waiting stage, es) h = h
  after_supervise-Sound (s, done b, es) h = sleep-Sound o.reconnect_delay_ms s h

  step_task-Sound :
      (t : Task) (input : Input) (trace : List Effect) (s : Session)
      → Sound s
      → Sound (step_task pack o t input trace s).0
  unfolding step_task
  step_task-Sound (starting stage) input trace s h =
      after_start-Sound (establish pack o stage input trace s)
        (establish-Sound stage input trace s h)
  step_task-Sound (supervising stage) input trace s h =
      after_supervise-Sound (establish pack o stage input trace s)
        (establish-Sound stage input trace s h)
  step_task-Sound (supervisor_sleep w) woke trace s h =
      ground (arith, supervise_on-Sound s.closed s.conn s h)
  step_task-Sound (heartbeat_sleep misses w) woke trace s h = ground (arith, ping-Sound misses s h)
  step_task-Sound (heartbeat_ping misses c req) input trace s h =
      pong_reply-Sound misses c req (reply input req trace) s h
  step_task-Sound _ _ trace s h = h

  run_task-Sound :
      (i : ℕ) (input : Input) (t : Option Task) (y : System)
      → Sound y.session
      → Sound (run_task pack o i input t y).session
  unfolding run_task
  run_task-Sound i input none y h = h
  run_task-Sound i input (some t) y h = step_task-Sound t input y.trace y.session h

  step-Sound : (e : Event) (y : System) → Sound y.session → Sound (step pack o e y).session
  unfolding step start reconnect invalidate_nonce on_closed close issue
  step-Sound call_start y h = (λ shut. cc, h.1)
  step-Sound call_reconnect y h = drop-Sound y.session.conn y.session h
  step-Sound call_invalidate y h = h
  step-Sound call_close y h = (λ shut. refl, tt)
  step-Sound (call_request name param timeout_ms) y h = h
  step-Sound (message c r) y h = on_message-Sound c r y.session h
  step-Sound (lost c) y h = drop-Sound (some c) y.session h
  step-Sound (timer w) y h = finish-Sound w y.session h
  step-Sound (run i input) y h = run_task-Sound i input (task_at y.tasks i) y h

  pub run_all-Sound :
      (es : List Event) (y : System) → Sound y.session → Sound (run_all pack o es y).session
  unfolding run_all
  run_all-Sound [] y h = h
  run_all-Sound (e ∷ es) y h = run_all-Sound es (step pack o e y) (step-Sound e y h)

  -- After any events a client that is closed holds no connection, whatever was under way when it was
  -- closed: it takes no message and sends nothing.
  pub closed_alone :
      (es : List Event)
      → let s = (run_all pack o es start_system).session in
        s.closed ≡ true
        → (s.conn ≡ none)
          × ((c : ℕ) (r : Option (Option CodecResult)) → on_message c r s ≡ (s, []))
          × ((req : ℕ) (p : Pending) → send pack s.conn req p ≡ [])
  unfolding on_message send
  closed_alone es shut =
      let e = (run_all-Sound es start_system (λ h. refl, tt)).0 shut in
      (e, λ c r. on_message_none c r _ e, λ req p. rw e)
