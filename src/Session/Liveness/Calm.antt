-- ===== src/Session/Liveness/Calm.antt =====
-- sdk/ts/src/session.ts: events that leave a task, the connection and what is pending as they are.
use skyext.Prelude.{
  ℕ, ◌+◌, ◌≡◌, refl, sym, subst, ap, ◌∙◌, String, false, Option, none, some, List, [], ◌∷◌, ◌++◌,
  arith, ◌==◌, count, keys,
}
use skyext.Session.Accounts.{resolves, resolves-append}
use skyext.Session.Conservation.Events.{Balanced}
use skyext.Session.Liveness.Harmless.{Kept, Kept-refl, finish-Harmless, issue-Harmless, woke-Single}
use skyext.Session.Liveness.{task_at-splice, task_at-splice_other}
use skyext.Session.System.{call_request, timer, task_at, splice, run_task, step}
use skyext.Session.Tasks.{Task, System, Input, step_task, woke}
use skyext.Session.State.{Session, Settings, Effect}
use skyext.Session.{issue, finish}
use skyext.Value.{Fields}

module _ (pack : String → Option Fields → ℕ → Option (List ℕ)) (o : Settings) where
  -- The task at `i` stays, and so do the connection and what is pending.
  abbrev pub Calm : ℕ → System → System → Type 0
  Calm i y y' =
      (task_at y'.tasks i ≡ task_at y.tasks i)
      × (y'.session.conn ≡ y.session.conn)
      × (y'.session.is_online ≡ y.session.is_online)
      × Kept y.session y'.session
      × ((req : ℕ) → resolves req y'.trace ≡ resolves req y.trace)

  silent_trace :
      (req : ℕ) (trace es : List Effect)
      → resolves req es ≡ 0
      → resolves req (trace ++ es) ≡ resolves req trace
  silent_trace req trace es none_ = omega (arith, resolves-append req trace es, none_)

  pub unused_id :
      (y : System)
      → Balanced pack o y
      → count (y.session.next_req_id + 1) (keys y.session.pending) ≡ 0
  unused_id y a = let e = a.balance (y.session.next_req_id + 1) in ground (arith, e)

  same-Calm : (i : ℕ) (y : System) → Calm i y y
  same-Calm i y = (refl, refl, refl, (refl, refl, refl, refl, λ req p h. h), λ req. refl)

  pub other-Calm :
      (i j : ℕ) (t : Option Task) (y : System)
      → Balanced pack o y
      → i == j ≡ false
      → Calm i y (run_task pack o j woke t y)
  unfolding run_task
  other-Calm i j none y a other = same-Calm i y
  other-Calm i j (some t) y a other =
      let w = step_task pack o t woke y.trace y.session in
      let ((conn, on, kept, none_), u, one) =
        woke-Single pack o t y.trace y.session (unused_id y a) in
      (
        ap (λ ts. task_at (splice y.tasks j ts) i) one ∙ task_at-splice_other y.tasks j i u other,
        conn,
        on,
        kept,
        λ req. silent_trace req y.trace w.2 (none_ req),
      )

  pub own_step :
      (i : ℕ) (input : Input) (t u : Task) (s' : Session) (es : List Effect) (y : System)
      → task_at y.tasks i ≡ some t
      → step_task pack o t input y.trace y.session ≡ (s', u ∷ [], es)
      → let y' = run_task pack o i input (task_at y.tasks i) y in
        (task_at y'.tasks i ≡ some u) × (y'.session ≡ s') × (y'.trace ≡ y.trace ++ es)
  unfolding run_task
  own_step i input t u s' es y there e =
      subst
        (λ q.
          let y' = run_task pack o i input q y in
          (task_at y'.tasks i ≡ some u) × (y'.session ≡ s') × (y'.trace ≡ y.trace ++ es))
        (sym there)
        (
          ap (λ w. task_at (splice y.tasks i w.1) i) e ∙ task_at-splice y.tasks i t u there,
          ap (λ w. w.0) e,
          ap (λ w. y.trace ++ w.2) e,
        )

  -- A step that changes nothing.
  pub idle-Calm :
      (i : ℕ) (input : Input) (t : Task) (y : System)
      → task_at y.tasks i ≡ some t
      → step_task pack o t input y.trace y.session ≡ (y.session, t ∷ [], [])
      → Calm i y (run_task pack o i input (task_at y.tasks i) y)
  unfolding resolves
  idle-Calm i input t y at e =
      let (at', same, trace) = own_step i input t t y.session [] y at e in
      (
        at' ∙ sym at,
        ap (λ z. z.conn) same,
        ap (λ z. z.is_online) same,
        subst (Kept y.session) (sym same) (Kept-refl y.session),
        λ req. ap (resolves req) trace ∙ silent_trace req y.trace [] refl,
      )

  pub woke-Kept :
      (i : ℕ) (t : Option Task) (y : System)
      → Balanced pack o y
      → let y' = run_task pack o i woke t y in
        Kept y.session y'.session × ((req : ℕ) → resolves req y'.trace ≡ resolves req y.trace)
  unfolding run_task
  woke-Kept i none y a = (Kept-refl y.session, λ req. refl)
  woke-Kept i (some t) y a =
      let w = step_task pack o t woke y.trace y.session in
      let ((_, _, kept, none_), _, _) = woke-Single pack o t y.trace y.session (unused_id y a) in
      (kept, λ req. silent_trace req y.trace w.2 (none_ req))

  pub request-Calm :
      (i : ℕ) (name : String) (param : Option Fields) (timeout_ms : Option ℕ) (y : System)
      → Balanced pack o y
      → Calm i y (step pack o (call_request name param timeout_ms) y)
  unfolding step
  request-Calm i name param timeout_ms y a =
      let w = issue pack name param timeout_ms y.session in
      let (conn, on, kept, none_) =
        issue-Harmless pack o name param timeout_ms y.session (unused_id y a) in
      (refl, conn, on, kept, λ req. silent_trace req y.trace w.2 (none_ req))

  pub timer-Calm : (i w : ℕ) (y : System) → Calm i y (step pack o (timer w) y)
  unfolding step
  timer-Calm i w y =
      let (conn, on, kept, none_) = finish-Harmless w y.session in
      (refl, conn, on, kept, λ req. silent_trace req y.trace (finish w y.session).1 (none_ req))
