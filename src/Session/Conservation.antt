-- ===== src/Session/Conservation.antt =====
-- sdk/ts/src/session.ts: no event loses a request or answers one twice.
pub mod Loops
pub mod Events
use skyext.Prelude.{
  ℕ, zero, suc, ◌+◌, ◌≤◌, ◌≡◌, refl, sym, String, Bool, true, false, ◌&&◌, ◌||◌, not, Option, none,
  some, List, [], ◌∷◌, ◌++◌, arith, if◌then◌else◌, ◌==◌, leb, count, keys, Option-cases, Bool-cases,
  inl, inr,
}
use skyext.Session.Accounts.{
  Accounts, more, made, Settles, resolves, resolves-append, drop-Settles, fail_pending-Settles,
  close-Settles, finish-Settles, on_message-Settles, Accounts-Settles, resend_pending-Settles,
  issue-Accounts,
}
use skyext.Session.System.{
  Event, call_start, call_reconnect, call_invalidate, call_close, call_request, message, lost,
  timer, run, start_system, start, run_task, step, run_all, task_at,
}
use skyext.Session.Tasks.{
  Stage, resolving, connecting, resuming, asking, logging_in, Progress, waiting, done, Task,
  starting, supervising, supervisor_sleep, heartbeat_sleep, heartbeat_ping, finished, Input,
  endpoints, connected, login_param, answered, timed_out, woke, System, reply, Ran, Stepped,
  connect_next, start_login, try_resume, adopt, resumed, finish_resume, give_up, send_login,
  logged_in, logged_in_base, resumed_base, finish_login, on_reply, establish, supervisor_pause,
  supervise, beat, ping, pong, pong_reply, launch, after_start, after_supervise, step_task,
}
use skyext.Session.State.{Session, Settings, Effect, dial, notify, set_timer, close_conn, initial}
use skyext.Session.{
  is_ok, invalidate_nonce, drop, reconnect, close, fail_pending, on_message, on_closed, sleep,
  finish, contains, issue, resend_pending,
}
use skyext.Value.{
  Fields, SessionState, number, pos, entry, no_fields, get, is_nullish, is_number, or_null, online,
  relogin,
}

-- What a step of a call or a task leaves keeps the accounts.
pub record Fair {X : Type 0} (r : ℕ → ℕ) (w : Session × X × List Effect) : Type 0 where
  pub balance : (n : ℕ) → count n (keys (w.0).pending) + (r n + resolves n w.2) ≡ made n w.0

pub Fair-if :
    {X : Type 0} {r : ℕ → ℕ} (b : Bool) (x y : Session × X × List Effect)
    → Fair r x
    → Fair r y
    → Fair r (if b then x else y)
Fair-if true x y f g = f
Fair-if false x y f g = g

-- A step that does one thing to the session `s`, and then what resolves nothing.
module _ {X : Type 0} {r : ℕ → ℕ} (s : Session) (x : X) (a : Accounts r s) where
  pub Fair-quiet : (es : List Effect) → ((n : ℕ) → resolves n es ≡ 0) → Fair r (s, x, es)
  Fair-quiet es quiet = record { balance = λ n. ground (arith, a.balance n, quiet n) }

  pub Fair-settled : (w : Session × List Effect) → Settles s w → Fair r (w.0, x, w.1)
  Fair-settled w h = record { balance = λ n. ground (arith, h.0, h.1 n, a.balance n) }

  Fair-settled_then :
      (w : Session × List Effect) (fs : List Effect)
      → Settles s w
      → ((n : ℕ) → resolves n fs ≡ 0)
      → Fair r (w.0, x, w.1 ++ fs)
  Fair-settled_then w fs h quiet = record {
    balance = λ n. ground (arith, h.0, h.1 n, a.balance n, quiet n, resolves-append n w.1 fs);
  }

give_up-Fair : {r : ℕ → ℕ} (c : ℕ) (s : Session) → Accounts r s → Fair r (give_up c s)
unfolding give_up
give_up-Fair c s a = Fair-settled s (done false) a (drop (some c) s) (drop-Settles (some c) s)

quiet-notify : (v : SessionState) (n : ℕ) → resolves n (notify v ∷ []) ≡ 0
unfolding resolves
quiet-notify v n = refl

logged_in-Fair :
    {r : ℕ → ℕ} (resp : Fields) (s : Session) → Accounts r s → Fair r (logged_in resp s)
unfolding logged_in
logged_in-Fair resp s a =
    let s' = logged_in_base resp s in
    Fair-settled_then s' (done true) (record { balance = a.balance }) (fail_pending s')
      (notify online ∷ []) (fail_pending-Settles s') (quiet-notify online)

start_login-Fair : {r : ℕ → ℕ} (c : ℕ) (s : Session) → Accounts r s → Fair r (start_login c s [])
start_login-Fair c s a =
    Fair-quiet s (waiting (asking c)) a (notify relogin ∷ []) (quiet-notify relogin)

finish_login-Fair :
    {r : ℕ → ℕ} (c : ℕ) (v : Option Fields) (s : Session)
    → Accounts r s
    → Fair r (finish_login c v s)
unfolding finish_login
finish_login-Fair c none s a = give_up-Fair c s a
finish_login-Fair c (some resp) s a =
    Fair-if (is_ok resp) (logged_in resp s) (give_up c s) (logged_in-Fair resp s a)
      (give_up-Fair c s a)

connect_next-Fair :
    {r : ℕ → ℕ} (urls : List String) (s : Session) → Accounts r s → Fair r (connect_next urls s)
unfolding connect_next resolves
connect_next-Fair [] s a = Fair-quiet s (done false) a [] (λ n. refl)
connect_next-Fair (url ∷ rest) s a =
    Fair-quiet s (waiting (connecting rest)) a (dial url ∷ []) (λ n. refl)

on_reply-Fair :
    {r : ℕ → ℕ} (stage : Stage) (v : Option (Option Fields)) (k : Option Fields → Session → Ran)
    (s : Session)
    → ((w : Option Fields) → Fair r (k w s))
    → Accounts r s
    → Fair r (on_reply stage v k s)
unfolding resolves
on_reply-Fair stage none k s h a = Fair-quiet s (waiting stage) a [] (λ n. refl)
on_reply-Fair stage (some w) k s h a = h w

module _ (pack : String → Option Fields → ℕ → Option (List ℕ)) (o : Settings) where
  pub issue-Fair :
      {X : Type 0} {r : ℕ → ℕ} (x : ℕ → X) (name : String) (param : Option Fields)
      (timeout_ms : Option ℕ) (s : Session)
      → Accounts r s
      → Fair r (
        (issue pack name param timeout_ms s).0,
        x ((issue pack name param timeout_ms s).1),
        (issue pack name param timeout_ms s).2,
      )
  issue-Fair x name param timeout_ms s a = record {
    balance = (issue-Accounts pack name param timeout_ms a).balance;
  }

  try_resume-Fair :
      {r : ℕ → ℕ} (c : ℕ) (s : Session) → Accounts r s → Fair r (try_resume pack o c s)
  unfolding try_resume
  try_resume-Fair c s a =
      let param =
        entry "rid" s.rid (entry "nonce" s.nonce (entry "recv" (number (pos s.recv)) no_fields)) in
      let w = issue pack "login.resume" (some param) (some o.handshake_timeout_ms) s in
      Fair-if (is_nullish s.nonce || is_nullish s.rid) (start_login c s [])
        (w.0, waiting (resuming c w.1), w.2) (start_login-Fair c s a)
        (issue-Fair (λ req. waiting (resuming c req)) "login.resume" (some param)
          (some o.handshake_timeout_ms) s a)

  adopt-Fair : {r : ℕ → ℕ} (c : ℕ) (s : Session) → Accounts r s → Fair r (adopt pack o c s)
  unfolding adopt resolves
  adopt-Fair c s a =
      let s' : Session = record s { conn = some c } in
      Fair-if s.closed (s, done false, close_conn c ∷ []) (try_resume pack o c s')
        (Fair-quiet s (done false) a (close_conn c ∷ []) (λ n. refl))
        (try_resume-Fair c s' (record { balance = a.balance }))

  resumed-Fair :
      {r : ℕ → ℕ} (resp : Fields) (s : Session) → Accounts r s → Fair r (resumed pack o resp s)
  unfolding resumed
  resumed-Fair resp s a =
      let s' = resumed_base resp s in
      Fair-settled_then s' (done true) (record { balance = a.balance }) (resend_pending pack s')
        (notify online ∷ []) (resend_pending-Settles pack s') (quiet-notify online)

  finish_resume-Fair :
      {r : ℕ → ℕ} (c : ℕ) (v : Option Fields) (s : Session)
      → Accounts r s
      → Fair r (finish_resume pack o c v s)
  unfolding finish_resume
  finish_resume-Fair c none s a = start_login-Fair c s a
  finish_resume-Fair c (some resp) s a =
      Fair-if (is_ok resp) (resumed pack o resp s) (start_login c s []) (resumed-Fair resp s a)
        (start_login-Fair c s a)

  send_login-Fair :
      {r : ℕ → ℕ} (c : ℕ) (v : Option Fields) (s : Session)
      → Accounts r s
      → Fair r (send_login pack o c v s)
  unfolding send_login
  send_login-Fair c none s a = give_up-Fair c s a
  send_login-Fair c (some param) s a =
      issue-Fair (λ req. waiting (logging_in c req)) "login.login" (some param)
        (some o.handshake_timeout_ms) s a

  pub establish-Fair :
      {r : ℕ → ℕ} (stage : Stage) (input : Input) (trace : List Effect) (s : Session)
      → Accounts r s
      → Fair r (establish pack o stage input trace s)
  unfolding establish resolves
  establish-Fair resolving (endpoints none) trace s a = Fair-quiet s (done false) a [] (λ n. refl)
  establish-Fair resolving (endpoints (some urls)) trace s a = connect_next-Fair urls s a
  establish-Fair (connecting rest) (connected none) trace s a = connect_next-Fair rest s a
  establish-Fair (connecting rest) (connected (some c)) trace s a = adopt-Fair c s a
  establish-Fair (resuming c req) input trace s a =
      on_reply-Fair (resuming c req) (reply input req trace) (finish_resume pack o c) s
        (λ v. finish_resume-Fair c v s a) a
  establish-Fair (asking c) (login_param param) trace s a = send_login-Fair c param s a
  establish-Fair (logging_in c req) input trace s a =
      on_reply-Fair (logging_in c req) (reply input req trace) (finish_login c) s
        (λ v. finish_login-Fair c v s a) a
  establish-Fair stage _ trace s a = Fair-quiet s (waiting stage) a [] (λ n. refl)
