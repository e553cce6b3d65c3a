-- ===== src/Session/Conservation/Events.antt =====
-- sdk/ts/src/session.ts: events, and runs of them, keep the accounts of requests.
use skyext.Prelude.{
  ℕ, ◌+◌, ◌≡◌, String, ◌&&◌, Option, none, some, List, [], ◌∷◌, ◌++◌, arith, if◌then◌else◌, leb,
  count, keys,
}
use skyext.Session.Accounts.{
  Accounts, Settles, resolves, resolves-append, drop-Settles, close-Settles, finish-Settles,
  on_message-Settles,
}
use skyext.Session.Conservation.{Fair, issue-Fair}
use skyext.Session.Conservation.Loops.{step_task-Fair}
use skyext.Session.System.{
  commit, splice, Event, call_start, call_reconnect, call_invalidate, call_close, call_request,
  message, lost, timer, run, start_system, start, run_task, step, run_all, task_at,
}
use skyext.Session.Tasks.{Task, Input, System, step_task}
use skyext.Session.State.{Session, Settings, Effect}
use skyext.Session.{invalidate_nonce, reconnect, on_closed, issue}
use skyext.Value.{Fields}

module _ (pack : String → Option Fields → ℕ → Option (List ℕ)) (o : Settings) where
  abbrev pub Balanced : System → Type 0
  Balanced y = Accounts (λ n. resolves n y.trace) y.session

  Settles-Balanced :
      (y : System) (w : Session × List Effect)
      → Settles y.session w
      → Balanced y
      → Balanced (commit y w)
  Settles-Balanced y w h a = record {
    balance = λ n. ground (arith, h.0, h.1 n, a.balance n, resolves-append n y.trace w.1);
  }

  Fair-Balanced :
      {X : Type 0} (y : System) (ts : List Task) (w : Session × X × List Effect)
      → Fair (λ n. resolves n y.trace) w
      → Balanced (record { session = w.0; tasks = ts; trace = y.trace ++ w.2 })
  Fair-Balanced y ts w f = record {
    balance = λ n. ground (arith, f.balance n, resolves-append n y.trace w.2);
  }

  run_task-Balanced :
      (i : ℕ) (input : Input) (t : Option Task) (y : System)
      → Balanced y
      → Balanced (run_task pack o i input t y)
  unfolding run_task
  run_task-Balanced i input none y a = a
  run_task-Balanced i input (some t) y a =
      let w = step_task pack o t input y.trace y.session in
      Fair-Balanced y (splice y.tasks i w.1) w (step_task-Fair pack o t input y.trace y.session a)

  pub step-Balanced : (e : Event) (y : System) → Balanced y → Balanced (step pack o e y)
  unfolding step start reconnect invalidate_nonce on_closed
  step-Balanced call_start y a = record { balance = a.balance }
  step-Balanced call_reconnect y a = Settles-Balanced y _ (drop-Settles y.session.conn y.session) a
  step-Balanced call_invalidate y a = record { balance = a.balance }
  step-Balanced call_close y a = Settles-Balanced y _ (close-Settles y.session) a
  step-Balanced (call_request name param timeout_ms) y a =
      Fair-Balanced y y.tasks (issue pack name param timeout_ms y.session)
        (issue-Fair pack o (λ req. req) name param timeout_ms y.session a)
  step-Balanced (message c r) y a = Settles-Balanced y _ (on_message-Settles c r y.session) a
  step-Balanced (lost c) y a = Settles-Balanced y _ (drop-Settles (some c) y.session) a
  step-Balanced (timer w) y a = Settles-Balanced y _ (finish-Settles w y.session) a
  step-Balanced (run i input) y a = run_task-Balanced i input (task_at y.tasks i) y a

  pub run_all-Balanced :
      (es : List Event) (y : System) → Balanced y → Balanced (run_all pack o es y)
  unfolding run_all
  run_all-Balanced [] y a = a
  run_all-Balanced (e ∷ es) y a = run_all-Balanced es (step pack o e y) (step-Balanced e y a)

  pub start-Balanced : Balanced start_system
  unfolding keys count resolves
  start-Balanced = record { balance = λ n. ground arith }

  -- After any events from the start, an id that was given out to a request is either still pending,
  -- once, or its promise was resolved exactly once; no other id is pending or was resolved.
  pub answered_once :
      (es : List Event) (n : ℕ)
      → let y = run_all pack o es start_system in
        count n (keys y.session.pending) + resolves n y.trace
        ≡ (if leb 1 n && leb n y.session.next_req_id then 1 else 0)
  answered_once es n = (run_all-Balanced es start_system start-Balanced).balance n
