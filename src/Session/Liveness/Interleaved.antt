-- ===== src/Session/Liveness/Interleaved.antt =====
-- sdk/ts/src/session.ts: the heartbeat among requests, timers and the other loops, in any order, while
-- nothing comes from the server.
use skyext.Prelude.{
  ℕ, ◌+◌, ◌<◌, ◌≡◌, refl, subst, ◌⊎◌, inl, inr, String, true, false, Option, some, List, [], ◌∷◌,
  arith, All,
}
use skyext.Session.Conservation.Events.{Balanced, step-Balanced, run_all-Balanced, start-Balanced}
use skyext.Session.Liveness.Harmless.{Kept, Kept-refl, Kept-trans}
use skyext.Session.System.{Event, start_system, task_at, step, run_all}
use skyext.Session.Tasks.{System, heartbeat_sleep}
use skyext.Session.State.{Settings}
use skyext.Value.{Fields}
use skyext.Session.Liveness.Beating.{Online, Offline}
use skyext.Session.Liveness.Unanswered.{Silent, miss, step-Next, step-Offline}

module _ (pack : String → Option Fields → ℕ → Option (List ℕ)) (o : Settings) where
  -- How many pings of task `i` ran out of time in a run of such events.
  unfoldable pub ran_out : ℕ → List Event → System → ℕ
  ran_out i [] y = 0
  ran_out i (e ∷ es) y = miss i e (task_at y.tasks i) + ran_out i es (step pack o e y)

  run_all-Offline :
      (i : ℕ) (es : List Event) (y : System)
      → All (Silent i) es
      → Balanced pack o y
      → Offline pack o i y
      → let y' = run_all pack o es y in
        Kept y.session y'.session × (ran_out i es y ≡ 0) × Offline pack o i y'
  unfolding run_all ran_out
  run_all-Offline i [] y h a off = (Kept-refl y.session, refl, off)
  run_all-Offline i (e ∷ es) y h a off =
      let z = step pack o e y in
      let (kept, none_, off') = step-Offline pack o i y h.0 a off in
      let (kept', none_', off'') = run_all-Offline i es z h.1 (step-Balanced pack o e y a) off' in
      (
        Kept-trans y.session z.session (run_all pack o es z).session kept kept',
        omega (arith, none_, none_'),
        off'',
      )

  -- After such events: below the tolerance, or at it.
  abbrev pub Tolerant : ℕ → ℕ → ℕ → System → Type 0
  Tolerant i k c y =
      ((k < o.ping_tolerance) × Online pack o i k c y)
      ⊎ ((k ≡ o.ping_tolerance) × Offline pack o i y)

  run_all-Online :
      (i m c : ℕ) (es : List Event) (y : System)
      → All (Silent i) es
      → Balanced pack o y
      → m < o.ping_tolerance
      → Online pack o i m c y
      → let y' = run_all pack o es y in
        Kept y.session y'.session × Tolerant i (m + ran_out i es y) c y'
  unfolding run_all ran_out
  run_all-Online i m c [] y h a few online = (
    Kept-refl y.session,
    inl (omega arith, subst (λ k. Online pack o i k c y) (omega arith) online),
  )
  run_all-Online i m c (e ∷ es) y h a few online =
      let z = step pack o e y in
      let y' = run_all pack o es z in
      let b = step-Balanced pack o e y a in
      let (kept, next) = step-Next pack o i m c y h.0 a online in
      let all_kept = Kept-trans y.session z.session y'.session kept in
      let k = miss i e (task_at y.tasks i) in
      elim next [
        | inl (zero_, there) ↦
            let (kept', rest) = run_all-Online i m c es z h.1 b few there in
            (
              all_kept kept',
              subst (λ n. Tolerant i n c y')
                  (let t : m + ran_out i es z ≡ m + (k + ran_out i es z) = omega (arith, zero_) in
                    t)
                  rest,
            )
        | inr (inl (one, still, there)) ↦
            let (kept', rest) = run_all-Online i (m + 1) c es z h.1 b still there in
            (
              all_kept kept',
              subst (λ n. Tolerant i n c y')
                  (let t : m + 1 + ran_out i es z ≡ m + (k + ran_out i es z) = omega (arith, one) in
                    t)
                  rest,
            )
        | inr (inr (one, over, off)) ↦
            let (kept', none_, off') = run_all-Offline i es z h.1 b off in
            (all_kept kept', inr (omega (arith, one, over, few, none_), off'))
      ]

  -- In every state that any events lead to: where the client is open and online on `c`, and the heartbeat
  -- of task `i` sleeps with `m` misses, fewer than the tolerance, then after any requests, timers, ends of
  -- sleeps and pings of task `i` that run out of time, in any order, the misses and the pings that ran out
  -- are together below the tolerance, and the client is online on `c`, or they are the tolerance, and the
  -- client is offline without a connection; its credential, its count and all that was pending are kept.
  pub tolerates :
      (es ds : List Event) (i m w c : ℕ)
      → let y = run_all pack o es start_system in
        task_at y.tasks i ≡ some (heartbeat_sleep m w)
        → y.session.closed ≡ false
        → y.session.is_online ≡ true
        → y.session.conn ≡ some c
        → m < o.ping_tolerance
        → All (Silent i) ds
        → let y' = run_all pack o ds y in
          Kept y.session y'.session × Tolerant i (m + ran_out i ds y) c y'
  tolerates es ds i m w c at open_ on conn few h =
      let y = run_all pack o es start_system in
      run_all-Online i m c ds y h (run_all-Balanced pack o es start_system (start-Balanced pack o))
        few (open_, on, conn, inl (w, at))
