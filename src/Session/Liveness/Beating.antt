-- ===== src/Session/Liveness/Beating.antt =====
-- sdk/ts/src/session.ts: the heartbeat online and offline, and its sleep.
use skyext.Prelude.{
  ℕ, ◌+◌, ◌≡◌, refl, ap, ◌∙◌, ◌⊎◌, inl, inr, String, true, false, Bool-cases, Option, none, some,
  List, [], ◌∷◌, arith,
}
use skyext.Session.Accounts.{resolves}
use skyext.Session.Conservation.Events.{Balanced}
use skyext.Session.Liveness.Silence.{sleeping, ping_lem}
use skyext.Session.System.{task_at, run_task}
use skyext.Session.Tasks.{System, step_task, heartbeat_sleep, heartbeat_ping, woke}
use skyext.Session.State.{Settings, set_timer}
use skyext.Session.{contains, sleep}
use skyext.Value.{Fields}
use skyext.Session.Liveness.Calm.{Calm, own_step, idle-Calm, woke-Kept}

module _ (pack : String → Option Fields → ℕ → Option (List ℕ)) (o : Settings) where
  -- The heartbeat with `m` misses sleeps, or waits for a response on `c` that is not there.
  abbrev pub Beats : ℕ → ℕ → ℕ → System → Type 0
  Beats i m c y =
      ((w : ℕ) × (task_at y.tasks i ≡ some (heartbeat_sleep m w)))
      ⊎ ((req : ℕ) × (task_at y.tasks i ≡ some (heartbeat_ping m (some c) req))
          × (resolves req y.trace ≡ 0))

  abbrev pub Online : ℕ → ℕ → ℕ → System → Type 0
  Online i m c y =
      (y.session.closed ≡ false)
      × (y.session.is_online ≡ true)
      × (y.session.conn ≡ some c)
      × Beats i m c y

  abbrev pub Offline : ℕ → System → Type 0
  Offline i y =
      (y.session.closed ≡ false)
      × (y.session.is_online ≡ false)
      × (y.session.conn ≡ none)
      × ((m w : ℕ) × (task_at y.tasks i ≡ some (heartbeat_sleep m w)))

  pub Calm-Online :
      (i m c : ℕ) (y y' : System) → Calm pack o i y y' → Online i m c y → Online i m c y'
  Calm-Online i m c y y' (task, conn, on, kept, quiet) (open_, here, held, inl (w, at)) =
      (kept.0 ∙ open_, on ∙ here, conn ∙ held, inl (w, task ∙ at))
  Calm-Online i m c y y' (task, conn, on, kept, quiet) (open_, here, held, inr (req, at, none_)) =
      (kept.0 ∙ open_, on ∙ here, conn ∙ held, inr (req, task ∙ at, quiet req ∙ none_))

  pub Calm-Offline : (i : ℕ) (y y' : System) → Calm pack o i y y' → Offline i y → Offline i y'
  Calm-Offline i y y' (task, conn, on, kept, quiet) (open_, away, lost_, (m, w, at)) =
      (kept.0 ∙ open_, on ∙ away, conn ∙ lost_, (m, w, task ∙ at))

  pub woke-Online :
      (i m c : ℕ) (y : System)
      → Balanced pack o y
      → Online i m c y
      → Online i m c (run_task pack o i woke (task_at y.tasks i) y)
  unfolding step_task
  woke-Online i m c y a (open_, on, held, inr (req, at, none_)) =
      let y' = run_task pack o i woke (task_at y.tasks i) y in
      Calm-Online i m c y y' (idle-Calm pack o i woke _ y at refl)
        (open_, on, held, inr (req, at, none_))
  woke-Online i m c y a (open_, on, held, inl (w, at)) =
      let y' = run_task pack o i woke (task_at y.tasks i) y in
      elim (Bool-cases (contains y.session.wakers w)) [
        | inl asleep ↦
            Calm-Online i m c y y' (idle-Calm pack o i woke _ y at (rw asleep))
              (open_, on, held, inl (w, at))
        | inr over ↦
            let req = y.session.next_req_id + 1 in
            let (at', e, _) =
              own_step pack o i woke _ _ _ _ y at
                (ping_lem pack o m w c y.trace y.session over open_ on held) in
            let given : resolves req y.trace ≡ 0 = let b = a.balance req in ground (arith, b) in
            (
              ap (λ z. z.closed) e ∙ open_,
              ap (λ z. z.is_online) e ∙ on,
              ap (λ z. z.conn) e ∙ held,
              inr (req, at', (woke-Kept pack o i (task_at y.tasks i) y a).1 req ∙ given),
            )
      ]

  -- Offline the heartbeat goes on sleeping.
  pub woke-Offline :
      (i : ℕ) (y : System) → Offline i y → Offline i (run_task pack o i woke (task_at y.tasks i) y)
  unfolding step_task sleep
  woke-Offline i y (open_, away, lost_, (m, w, at)) =
      let y' = run_task pack o i woke (task_at y.tasks i) y in
      elim (Bool-cases (contains y.session.wakers w)) [
        | inl asleep ↦
            Calm-Offline i y y' (idle-Calm pack o i woke _ y at (rw asleep))
              (open_, away, lost_, (m, w, at))
        | inr over ↦
            let (at', e, _) =
              own_step pack o i woke _ (heartbeat_sleep m y.session.sleeps)
                (sleeping pack o y.session) (set_timer o.ping_interval_ms ∷ []) y at
                (rw (over, open_, away)) in
            (
              ap (λ z. z.closed) e ∙ open_,
              ap (λ z. z.is_online) e ∙ away,
              ap (λ z. z.conn) e ∙ lost_,
              (_, _, at'),
            )
      ]
