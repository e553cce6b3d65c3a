-- ===== src/Session/System.antt =====
-- sdk/ts/src/session.ts: a session client with its calls and loops, and everything that can happen
-- to it, one event at a time. The trace holds the effects, oldest first.
use skyext.Codec.{CodecResult}
use skyext.Prelude.{ℕ, zero, suc, String, false, Option, none, some, List, [], ◌∷◌, ◌++◌}
use skyext.Session.Tasks.{Task, starting, resolving, Input, System, step_task}
use skyext.Session.State.{Session, Settings, Effect, initial}
use skyext.Session.{invalidate_nonce, reconnect, close, on_message, on_closed, finish, issue}
use skyext.Value.{Fields}

-- A call of the application, a message of a connection (`none`: its dispatch throws), the loss of
-- a connection, a timer that goes off, or the next step of a task.
pub data Event : Type 0 where
  call_start call_reconnect call_invalidate call_close : Event
  call_request : String → Option Fields → Option ℕ → Event
  message : ℕ → Option (Option CodecResult) → Event
  lost : ℕ → Event
  timer : ℕ → Event
  run : ℕ → Input → Event

abbrev pub start_system : System
start_system = record { session = initial; tasks = []; trace = [] }

unfoldable pub task_at : List Task → ℕ → Option Task
task_at [] i = none
task_at (t ∷ ts) zero = some t
task_at (t ∷ ts) (suc i) = task_at ts i

-- The tasks with those of a step in the place of the one that made it.
unfoldable pub splice : List Task → ℕ → List Task → List Task
splice [] i new = []
splice (t ∷ ts) zero new = new ++ ts
splice (t ∷ ts) (suc i) new = t ∷ splice ts i new

abbrev pub commit : System → Session × List Effect → System
commit y (s, es) = record y { session = s; trace = y.trace ++ es }

-- `start()`, up to its first wait.
unfoldable pub start : System → System
start y = record y {
  session = record (y.session) { closed = false };
  tasks = y.tasks ++ starting resolving ∷ [];
}

module _ (pack : String → Option Fields → ℕ → Option (List ℕ)) (o : Settings) where
  unfoldable pub run_task : ℕ → Input → Option Task → System → System
  unfolding splice
  run_task i input none y = y
  run_task i input (some t) y =
      let (s, ts, es) = step_task pack o t input y.trace y.session in
      record { session = s; tasks = splice y.tasks i ts; trace = y.trace ++ es }

  unfoldable pub step : Event → System → System
  unfolding start run_task task_at
  step call_start y = start y
  step call_reconnect y = commit y (reconnect y.session)
  step call_invalidate y = record y { session = invalidate_nonce y.session }
  step call_close y = commit y (close y.session)
  step (call_request name param timeout_ms) y =
      let (s, req, es) = issue pack name param timeout_ms y.session in commit y (s, es)
  step (message c r) y = commit y (on_message c r y.session)
  step (lost c) y = commit y (on_closed c y.session)
  step (timer w) y = commit y (finish w y.session)
  step (run i input) y = run_task i input (task_at y.tasks i) y

  unfoldable pub run_all : List Event → System → System
  unfolding step
  run_all [] y = y
  run_all (e ∷ es) y = run_all es (step e y)
