-- ===== src/Session/Liveness.antt =====
-- sdk/ts/src/session.ts: from a lost connection to a resumed session, event by event. `i` is the place
-- of the task of the supervisor, `req` the id of its `login.resume`.
pub mod Resuming
pub mod Recovery
pub mod Relogin
pub mod Start
pub mod Silence
pub mod Harmless
pub mod Calm
pub mod Beating
pub mod Unanswered
pub mod Interleaved
pub mod Heartbeat
use skyext.Codec.{CodecResult}
use skyext.Prelude.{
  ℕ, zero, suc, ◌+◌, ◌≤◌, ◌<◌, ◌≡◌, refl, sym, subst, ap, ◌∙◌, String, Bool, true, false, ◌||◌,
  Option, none, some, List, [], ◌∷◌, ◌++◌, arith, if◌then◌else◌, ◌==◌, length, drop, count, keys,
  lookup, insert, erase,
}
use skyext.Session.Accounts.{resolves, resolves-append}
use skyext.Session.System.{Event, run, message, splice, task_at, run_task, step, run_all}
use skyext.Session.Tasks.{
  Task, Input, System, step_task, settled, Stage, starting, supervising, connecting, connected,
}
use skyext.Session.State.{Session, Settings, Pending, Effect, dial, resolve}
use skyext.Session.{on_message}
use skyext.Value.{Fields}

pub task_at-splice :
    (ts : List Task) (i : ℕ) (t u : Task)
    → task_at ts i ≡ some t
    → task_at (splice ts i (u ∷ [])) i ≡ some u
unfolding task_at splice
task_at-splice [] i t u h = cc
task_at-splice (x ∷ ts) zero t u h = refl
task_at-splice (x ∷ ts) (suc i) t u h = task_at-splice ts i t u h

pub task_at-splice_other :
    (ts : List Task) (j i : ℕ) (u : Task)
    → i == j ≡ false
    → task_at (splice ts j (u ∷ [])) i ≡ task_at ts i
unfolding task_at splice
task_at-splice_other [] j i u h = refl
task_at-splice_other (x ∷ ts) zero zero u h = absurd (ground arith)
task_at-splice_other (x ∷ ts) zero (suc i) u h = refl
task_at-splice_other (x ∷ ts) (suc j) zero u h = refl
task_at-splice_other (x ∷ ts) (suc j) (suc i) u h = task_at-splice_other ts j i u (ground arith)

pub task_at_last : (ts : List Task) (t : Task) → task_at (ts ++ t ∷ []) (length ts) ≡ some t
unfolding task_at
task_at_last [] t = refl
task_at_last (x ∷ ts) t = task_at_last ts t

pub lookup-insert :
    (k : ℕ) (p : Pending) (m : List (ℕ × Pending))
    → count k (keys m) ≡ 0
    → lookup k (insert k p m) ≡ some p
unfolding lookup insert count keys
lookup-insert k p [] h = ground arith
lookup-insert k p ((j, q) ∷ m) h = ground (arith, lookup-insert k p m)

pub erase-insert :
    (k : ℕ) (p : Pending) (m : List (ℕ × Pending))
    → count k (keys m) ≡ 0
    → erase k (insert k p m) ≡ m
unfolding erase insert count keys
erase-insert k p [] h = ground arith
erase-insert k p ((j, q) ∷ m) h = ground (arith, erase-insert k p m)

-- A promise that was not resolved, and then is.
pub settled-append :
    (req : ℕ) (v : Option Fields) (es : List Effect)
    → resolves req es ≡ 0
    → settled req (es ++ resolve req v ∷ []) ≡ some v
unfolding settled resolves
settled-append req v [] h = ground arith
settled-append req v (resolve r x ∷ es) h = ground (arith, settled-append req v es)
settled-append req v (e ∷ es) h = settled-append req v es h

-- The task at place `i`, the session, and that `req` is not resolved.
pub record At (i req : ℕ) (t : Task) (s : Session) (y : System) : Type 0 where
  pub task : task_at y.tasks i ≡ some t
  pub session : y.session ≡ s
  pub unresolved : resolves req y.trace ≡ 0

-- `establish` as `start` calls it, or the supervisor.
abbrev pub within : Bool → Stage → Task
within true = starting
within false = supervising

-- Failing dials: each takes one endpoint.
unfoldable pub failures : ℕ → ℕ → List Event
failures i zero = []
failures i (suc n) = run i (connected none) ∷ failures i n

module _ (pack : String → Option Fields → ℕ → Option (List ℕ)) (o : Settings) where
  -- A step of the task.
  pub run-At :
      (i req : ℕ) (input : Input) (t u : Task) (s s' : Session) (es : List Effect) (y : System)
      → At i req t s y
      → step_task pack o t input y.trace s ≡ (s', u ∷ [], es)
      → resolves req es ≡ 0
      → At i req u s' (step pack o (run i input) y)
  unfolding step run_task
  run-At i req input t u s s' es y a e quiet =
      let e' : step_task pack o t input y.trace y.session ≡ (s', u ∷ [], es) =
        ap (step_task pack o t input y.trace) a.session ∙ e in
      subst (λ q. At i req u s' (run_task pack o i input q y)) (sym a.task)
        (record {
          task =
              ap (λ w. task_at (splice y.tasks i w.1) i) e' ∙ task_at-splice y.tasks i t u a.task;
          session = ap (λ w. w.0) e';
          unresolved =
              ap (λ w. resolves req (y.trace ++ w.2)) e'
              ∙ omega (arith, resolves-append req y.trace es, a.unresolved, quiet);
        })

  next_dial :
      (b : Bool) (url : String) (urls : List String) (trace : List Effect) (s : Session)
      → step_task pack o (within b (connecting (url ∷ urls))) (connected none) trace s
        ≡ (s, within b (connecting urls) ∷ [], dial url ∷ [])
  unfolding step_task
  next_dial true url urls trace s = refl
  next_dial false url urls trace s = refl

  pub failures-At :
      (b : Bool) (i req n : ℕ) (urls : List String) (s : Session) (y : System)
      → n ≤ length urls
      → At i req (within b (connecting urls)) s y
      → At i req (within b (connecting (drop n urls))) s (run_all pack o (failures i n) y)
  unfolding failures run_all resolves
  failures-At b i req zero urls s y h a = a
  failures-At b i req (suc n) [] s y h a = absurd (omega arith)
  failures-At b i req (suc n) (url ∷ urls) s y h a =
      failures-At b i req n urls s (step pack o (run i (connected none)) y) (omega arith) (
        run-At i req (connected none) _ _ s s (dial url ∷ []) y a (next_dial b url urls y.trace s)
          refl)

  -- A message of the connection, which resolves `req`.
  pub message-At :
      (i req c : ℕ) (r : Option (Option CodecResult)) (v : Option Fields) (t : Task)
      (s s' : Session) (y : System)
      → At i req t s y
      → on_message c r s ≡ (s', resolve req v ∷ [])
      → let y' = step pack o (message c r) y in
        (task_at y'.tasks i ≡ some t) × (y'.session ≡ s') × (settled req y'.trace ≡ some v)
  unfolding step
  message-At i req c r v t s s' y a e =
      let e' : on_message c r y.session ≡ (s', resolve req v ∷ []) =
        ap (on_message c r) a.session ∙ e in
      (
        a.task,
        ap (λ w. w.0) e',
        ap (λ w. settled req (y.trace ++ w.1)) e' ∙ settled-append req v y.trace a.unresolved,
      )

  -- The same message, where it does not resolve `q`.
  pub message_other :
      (i req q c : ℕ) (r : Option (Option CodecResult)) (v : Option Fields) (t : Task)
      (s s' : Session) (y : System)
      → At i q t s y
      → on_message c r s ≡ (s', resolve req v ∷ [])
      → q == req ≡ false
      → At i q t s' (step pack o (message c r) y)
  unfolding step resolves
  message_other i req q c r v t s s' y a e other =
      let e' : on_message c r y.session ≡ (s', resolve req v ∷ []) =
        ap (on_message c r) a.session ∙ e in
      let none_ : resolves q (resolve req v ∷ []) ≡ 0 = ground arith in
      record {
        task = a.task;
        session = ap (λ w. w.0) e';
        unresolved =
            ap (λ w. resolves q (y.trace ++ w.1)) e'
            ∙ omega (arith, resolves-append q y.trace (resolve req v ∷ []), a.unresolved, none_);
      }

  -- The session after a step of the task.
  pub run-session :
      (i : ℕ) (input : Input) (t : Task) (s : Session) (y : System)
      → task_at y.tasks i ≡ some t
      → y.session ≡ s
      → (step pack o (run i input) y).session ≡ (step_task pack o t input y.trace s).0
  unfolding step run_task
  run-session i input t s y task held =
      subst (λ q. (run_task pack o i input q y).session ≡ (step_task pack o t input y.trace s).0)
        (sym task) (ap (λ z. (step_task pack o t input y.trace z).0) held)
