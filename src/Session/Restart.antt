-- ===== src/Session/Restart.antt =====
-- sdk/ts/src/session.ts: `start` right after `close`.
use skyext.Prelude.{
  ℕ, zero, suc, ◌+◌, ◌≡◌, refl, sym, subst, ap, ap₂, ◌∙◌, String, false, Option, none, some, List,
  [], ◌∷◌, ◌++◌, arith, length, append-nil,
}
use skyext.Session.Liveness.{run-session, task_at_last}
use skyext.Session.System.{call_start, call_close, run, task_at, splice, run_task, step, run_all}
use skyext.Session.Tasks.{
  Task, Input, System, starting, supervising, supervisor_sleep, resolving, endpoints, woke,
  step_task,
}
use skyext.Session.State.{Session, Settings, Effect}
use skyext.Session.{close, sleep, contains}
use skyext.Value.{Fields}

-- The loops of supervisors among the tasks.
unfoldable pub supervisors : List Task → ℕ
supervisors [] = 0
supervisors (supervising stage ∷ ts) = suc (supervisors ts)
supervisors (supervisor_sleep w ∷ ts) = suc (supervisors ts)
supervisors (_ ∷ ts) = supervisors ts

supervisors-append : (ts us : List Task) → supervisors (ts ++ us) ≡ supervisors ts + supervisors us
unfolding supervisors
supervisors-append [] us = omega arith
supervisors-append (supervising stage ∷ ts) us = omega (arith, supervisors-append ts us)
supervisors-append (supervisor_sleep w ∷ ts) us = omega (arith, supervisors-append ts us)
supervisors-append (t ∷ ts) us = supervisors-append ts us

-- The task of a sleeping supervisor goes on as a supervisor.
supervisors-splice :
    (ts : List Task) (i w : ℕ)
    → task_at ts i ≡ some (supervisor_sleep w)
    → supervisors (splice ts i (supervising resolving ∷ [])) ≡ supervisors ts
unfolding task_at splice supervisors
supervisors-splice [] i w h = cc
supervisors-splice (supervisor_sleep v ∷ ts) zero w h = refl
supervisors-splice (supervising stage ∷ ts) zero w h = refl
supervisors-splice (t ∷ ts) zero w h = cc
supervisors-splice (supervisor_sleep v ∷ ts) (suc i) w h = ap suc (supervisors-splice ts i w h)
supervisors-splice (supervising stage ∷ ts) (suc i) w h = ap suc (supervisors-splice ts i w h)
supervisors-splice (t ∷ ts) (suc i) w h = supervisors-splice ts i w h

task_at-append :
    (ts us : List Task) (i : ℕ) (t : Task) → task_at ts i ≡ some t → task_at (ts ++ us) i ≡ some t
unfolding task_at
task_at-append [] us i t h = cc
task_at-append (x ∷ ts) us zero t h = h
task_at-append (x ∷ ts) us (suc i) t h = task_at-append ts us i t h

splice-append :
    (ts us : List Task) (i : ℕ) (t u : Task)
    → task_at ts i ≡ some t
    → splice (ts ++ us) i (u ∷ []) ≡ splice ts i (u ∷ []) ++ us
unfolding task_at splice
splice-append [] us i t u h = cc
splice-append (x ∷ ts) us zero t u h = refl
splice-append (x ∷ ts) us (suc i) t u h = ap (◌∷◌ x) (splice-append ts us i t u h)

length-splice :
    (ts : List Task) (i : ℕ) (t u : Task)
    → task_at ts i ≡ some t
    → length (splice ts i (u ∷ [])) ≡ length ts
unfolding task_at splice
length-splice [] i t u h = cc
length-splice (x ∷ ts) zero t u h = refl
length-splice (x ∷ ts) (suc i) t u h = ap suc (length-splice ts i t u h)

splice_last : (ts new : List Task) (t : Task) → splice (ts ++ t ∷ []) (length ts) new ≡ ts ++ new
unfolding splice
splice_last [] new t = append-nil new
splice_last (x ∷ ts) new t = ap (◌∷◌ x) (splice_last ts new t)

module _ (pack : String → Option Fields → ℕ → Option (List ℕ)) (o : Settings) where
  -- The tasks after a step of the task at place `i`.
  run-tasks :
      (i : ℕ) (input : Input) (t : Task) (s : Session) (y : System)
      → task_at y.tasks i ≡ some t
      → y.session ≡ s
      → (step pack o (run i input) y).tasks
        ≡ splice y.tasks i ((step_task pack o t input y.trace s).1)
  unfolding step run_task
  run-tasks i input t s y task held =
      subst
        (λ q.
          (run_task pack o i input q y).tasks
          ≡ splice y.tasks i ((step_task pack o t input y.trace s).1))
        (sym task) (ap (λ z. splice y.tasks i ((step_task pack o t input y.trace z).1)) held)

  -- What `start` leaves of a client that was just closed.
  abbrev restarted : Session → Session
  restarted s = record ((close s).0) { closed = false }

  awake_lem :
      (w : ℕ) (trace : List Effect) (s : Session)
      → step_task pack o (supervisor_sleep w) woke trace (restarted s)
        ≡ (restarted s, supervising resolving ∷ [], [])
  unfolding step_task contains close
  awake_lem w trace s = refl

  launched_lem :
      (trace : List Effect) (s : Session) (ts : List Task)
      → let w = step_task pack o (starting resolving) (endpoints none) trace (restarted s) in
        (supervisors (ts ++ w.1) ≡ supervisors ts + 1) × ((w.0).closed ≡ false)
  unfolding step_task sleep supervisors close
  launched_lem trace s ts = (supervisors-append ts _, refl)

  -- Where a supervisor sleeps, `close` and a `start` before its next step leave it running, and the
  -- `start` begins another one when its first attempt is over: the client then has one more than before.
  pub restart_lem :
      (y : System) (i w : ℕ)
      → task_at y.tasks i ≡ some (supervisor_sleep w)
      → let y' =
          run_all pack o
            (call_close ∷ call_start ∷ run i woke ∷ run (length y.tasks) (endpoints none) ∷ [])
            y in
        (supervisors y'.tasks ≡ supervisors y.tasks + 1) × (y'.session.closed ≡ false)
  unfolding run_all step step_task contains close
  restart_lem y i w h =
      let s = restarted y.session in
      let ts = splice y.tasks i (supervising resolving ∷ []) in
      let y1 = step pack o call_start (step pack o call_close y) in
      let y2 = step pack o (run i woke) y1 in
      let here = task_at-append y.tasks (starting resolving ∷ []) i _ h in
      let tasks : y2.tasks ≡ ts ++ starting resolving ∷ [] =
        run-tasks i woke _ s y1 here refl ∙ splice-append y.tasks _ i _ _ h in
      let held : y2.session ≡ s = run-session pack o i woke _ s y1 here refl in
      let n = length-splice y.tasks i _ (supervising resolving) h in
      let last : task_at y2.tasks (length y.tasks) ≡ some (starting resolving) =
        ap₂ task_at tasks (sym n) ∙ task_at_last ts (starting resolving) in
      let (more, open_) = launched_lem y2.trace y.session ts in
      let e =
        run-tasks (length y.tasks) (endpoints none) _ s y2 last held
        ∙ (ap₂
              (λ us k.
                splice us k ((step_task pack o (starting resolving) (endpoints none) y2.trace s).1))
              tasks (sym n)
            ∙ splice_last ts _ (starting resolving)) in
      (
        ap supervisors e ∙ (more ∙ ap (λ k. k + 1) (supervisors-splice y.tasks i w h)),
        ap (λ z. z.closed) (run-session pack o (length y.tasks) (endpoints none) _ s y2 last held)
            ∙ open_,
      )
