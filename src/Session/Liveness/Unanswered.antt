-- ===== src/Session/Liveness/Unanswered.antt =====
-- sdk/ts/src/session.ts: the heartbeat over one event, while nothing comes from the server.
use skyext.Prelude.{
  ℕ, zero, ◌+◌, ◌≤◌, ◌<◌, ◌≡◌, refl, sym, subst, ap, ◌∙◌, ◌⊎◌, inl, inr, String, Bool-cases, Option,
  some, List, arith, ◌==◌, leb,
}
use skyext.Session.Accounts.{resolves}
use skyext.Session.Conservation.Events.{Balanced}
use skyext.Session.Liveness.Harmless.{Kept, Kept-refl}
use skyext.Session.Liveness.Silence.{settled-none, missed_lem, dropped_lem}
use skyext.Session.System.{Event, call_request, timer, run, task_at, run_task, step}
use skyext.Session.Tasks.{Task, System, step_task, heartbeat_ping, woke, timed_out}
use skyext.Session.State.{Settings}
use skyext.Value.{Fields}
use skyext.Session.Liveness.Calm.{
  Calm, other-Calm, own_step, idle-Calm, woke-Kept, request-Calm, timer-Calm,
}
use skyext.Session.Liveness.Beating.{
  Online, Offline, Calm-Online, Calm-Offline, woke-Online, woke-Offline,
}

-- A request, a timer, the end of any sleep, or the end of the time that task `i` gives a ping.
pub data Silent (i : ℕ) : Event → Type 0 where
  requested :
      (name : String) (param : Option Fields) (timeout_ms : Option ℕ)
      → Silent i (call_request name param timeout_ms)
  elapsed : (w : ℕ) → Silent i (timer w)
  ended : (j : ℕ) → Silent i (run j woke)
  expired : Silent i (run i timed_out)

abbrev pub miss : ℕ → Event → Option Task → ℕ
miss i (run j timed_out) (some (heartbeat_ping m conn req)) = 1
miss i _ _ = 0

module _ (pack : String → Option Fields → ℕ → Option (List ℕ)) (o : Settings) where
  -- One event, which was counted or not.
  abbrev Next : ℕ → ℕ → ℕ → ℕ → System → Type 0
  Next i m c k y =
      ((k ≡ 0) × Online pack o i m c y)
      ⊎ ((k ≡ 1) × (m + 1 < o.ping_tolerance) × Online pack o i (m + 1) c y)
      ⊎ ((k ≡ 1) × (o.ping_tolerance ≤ m + 1) × Offline pack o i y)

  -- The time of a ping is over.
  timed_out-Next :
      (i m c req : ℕ) (y : System)
      → Online pack o i m c y
      → task_at y.tasks i ≡ some (heartbeat_ping m (some c) req)
      → resolves req y.trace ≡ 0
      → let y' = run_task pack o i timed_out (task_at y.tasks i) y in
        Kept y.session y'.session × Next i m c 1 y'
  timed_out-Next i m c req y (open_, on, held, _) at none_ =
      let silent_ = settled-none req y.trace none_ in
      let s = y.session in
      elim (Bool-cases (leb o.ping_tolerance (m + 1))) [
        | inl many ↦
            let (at', e, _) =
              own_step pack o i timed_out _ _ _ _ y at
                (dropped_lem pack o m c req y.trace s silent_ open_ held many) in
            (
              subst (Kept s) (sym e) (Kept-refl s),
              inr (
                  inr (
                    refl,
                    ground arith,
                    (
                      ap (λ z. z.closed) e ∙ open_,
                      ap (λ z. z.is_online) e,
                      ap (λ z. z.conn) e,
                      (_, _, at'),
                    ),
                  )),
            )
        | inr few ↦
            let (at', e, _) =
              own_step pack o i timed_out _ _ _ _ y at
                (missed_lem pack o m c req y.trace s silent_ open_ few) in
            (
              subst (Kept s) (sym e) (Kept-refl s),
              inr (
                  inl (
                    refl,
                    ground arith,
                    (
                      ap (λ z. z.closed) e ∙ open_,
                      ap (λ z. z.is_online) e ∙ on,
                      ap (λ z. z.conn) e ∙ held,
                      inl (_, at'),
                    ),
                  )),
            )
      ]

  Calm-Next :
      (i m c : ℕ) (y y' : System)
      → Calm pack o i y y'
      → Online pack o i m c y
      → Kept y.session y'.session × Next i m c 0 y'
  Calm-Next i m c y y' calm online = (calm.3, inl (refl, Calm-Online pack o i m c y y' calm online))

  own_timed_out :
      (i m c : ℕ) (y : System)
      → Online pack o i m c y
      → let y' = run_task pack o i timed_out (task_at y.tasks i) y in
        Kept y.session y'.session × Next i m c (miss i (run i timed_out) (task_at y.tasks i)) y'
  unfolding step_task
  own_timed_out i m c y (open_, on, held, inl (w, at)) =
      let y' = run_task pack o i timed_out (task_at y.tasks i) y in
      subst (λ q. Kept y.session y'.session × Next i m c (miss i (run i timed_out) q) y') (sym at)
        (Calm-Next i m c y y' (idle-Calm pack o i timed_out _ y at refl)
          (open_, on, held, inl (w, at)))
  own_timed_out i m c y (open_, on, held, inr (req, at, none_)) =
      let y' = run_task pack o i timed_out (task_at y.tasks i) y in
      subst (λ q. Kept y.session y'.session × Next i m c (miss i (run i timed_out) q) y') (sym at)
        (timed_out-Next i m c req y (open_, on, held, inr (req, at, none_)) at none_)

  pub step-Next :
      {e : Event} (i m c : ℕ) (y : System)
      → Silent i e
      → Balanced pack o y
      → Online pack o i m c y
      → let y' = step pack o e y in
        Kept y.session y'.session × Next i m c (miss i e (task_at y.tasks i)) y'
  unfolding step
  step-Next i m c y (requested name param timeout_ms) a online =
      Calm-Next i m c y (step pack o (call_request name param timeout_ms) y)
        (request-Calm pack o i name param timeout_ms y a) online
  step-Next i m c y (elapsed w) a online =
      Calm-Next i m c y (step pack o (timer w) y) (timer-Calm pack o i w y) online
  step-Next i m c y (ended j) a online = elim (Bool-cases (i == j)) [
    | inl own ↦
        let e : i ≡ j = ground arith in
        subst
          (λ j.
            let y' = run_task pack o j woke (task_at y.tasks j) y in
            Kept y.session y'.session × Next i m c 0 y')
          e
          (
            (woke-Kept pack o i (task_at y.tasks i) y a).0,
            inl (refl, woke-Online pack o i m c y a online),
          )
    | inr other ↦
        Calm-Next i m c y (run_task pack o j woke (task_at y.tasks j) y)
          (other-Calm pack o i j (task_at y.tasks j) y a other) online
  ]
  step-Next i m c y expired a online = own_timed_out i m c y online

  pub step-Offline :
      {e : Event} (i : ℕ) (y : System)
      → Silent i e
      → Balanced pack o y
      → Offline pack o i y
      → let y' = step pack o e y in
        Kept y.session y'.session × (miss i e (task_at y.tasks i) ≡ 0) × Offline pack o i y'
  unfolding step step_task
  step-Offline i y (requested name param timeout_ms) a off =
      let calm = request-Calm pack o i name param timeout_ms y a in
      (
        calm.3,
        refl,
        Calm-Offline pack o i y (step pack o (call_request name param timeout_ms) y) calm off,
      )
  step-Offline i y (elapsed w) a off =
      let calm = timer-Calm pack o i w y in
      (calm.3, refl, Calm-Offline pack o i y (step pack o (timer w) y) calm off)
  step-Offline i y (ended j) a off = elim (Bool-cases (i == j)) [
    | inl own ↦
        let e : i ≡ j = ground arith in
        subst
          (λ j.
            let y' = run_task pack o j woke (task_at y.tasks j) y in
            Kept y.session y'.session × (zero ≡ 0) × Offline pack o i y')
          e ((woke-Kept pack o i (task_at y.tasks i) y a).0, refl, woke-Offline pack o i y off)
    | inr other ↦
        let calm = other-Calm pack o i j (task_at y.tasks j) y a other in
        (
          calm.3,
          refl,
          Calm-Offline pack o i y (run_task pack o j woke (task_at y.tasks j) y) calm off,
        )
  ]
  step-Offline i y expired a (open_, away, lost_, (m, w, at)) =
      let y' = run_task pack o i timed_out (task_at y.tasks i) y in
      let calm = idle-Calm pack o i timed_out _ y at refl in
      (
        calm.3,
        ap (miss i (run i timed_out)) at,
        Calm-Offline pack o i y y' calm (open_, away, lost_, (m, w, at)),
      )
