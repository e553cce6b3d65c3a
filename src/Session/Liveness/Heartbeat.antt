-- ===== src/Session/Liveness/Heartbeat.antt =====
-- sdk/ts/src/session.ts: the heartbeat of a connection on which nothing answers.
use skyext.Prelude.{
  ℕ, zero, suc, ◌+◌, ◌<◌, ◌≡◌, refl, sym, subst, ap, ◌∙◌, String, true, false, Option, none, some,
  List, [], ◌∷◌, ◌++◌, arith, leb, count, keys, count-append, keys-append, insert_new,
}
use skyext.Session.Accounts.{resolves, resolves-append, resolves-send, resolves-timeout_timer}
use skyext.Session.Closed.{run_all-Sound}
use skyext.Session.Sound.{Below, Below-mono}
use skyext.Session.Conservation.Events.{answered_once}
use skyext.Session.Liveness.{At, run-At}
use skyext.Session.Resume.{business, business_last}
use skyext.Session.System.{Event, run, timer, start_system, task_at, step, run_all}
use skyext.Session.Tasks.{Task, System, heartbeat_sleep, heartbeat_ping, woke, timed_out}
use skyext.Session.State.{Session, Settings, set_timer, wake}
use skyext.Session.{uncounted, send, timeout_timer, contains, finish}
use skyext.Value.{Fields}
use skyext.Session.Liveness.Silence.{
  settled-none, contains-Below, ping_call, pinging, sleeping, ping_lem, missed_lem, dropped_lem,
  finish_lem,
}

-- A ping that nothing answers: the sleep is over, the ping's time is, and then that of the next sleep,
-- which has the number `next`.
unfoldable pub unanswered : ℕ → ℕ → ℕ → List Event
unanswered i next zero = []
unanswered i next (suc n) = run i woke ∷ run i timed_out ∷ timer next ∷ unanswered i (next + 1) n

-- Offline, with the credential.
abbrev pub Dropped : Session → Session → Type 0
Dropped s s' =
    (s'.conn ≡ none)
    × (s'.is_online ≡ false)
    × (s'.closed ≡ false)
    × (s'.nonce ≡ s.nonce)
    × (s'.rid ≡ s.rid)
    × (s'.recv ≡ s.recv)
    × (business s'.pending ≡ business s.pending)

module _ (pack : String → Option Fields → ℕ → Option (List ℕ)) (o : Settings) where
  -- The session after a ping that nothing answered.
  abbrev missed : Session → Session
  missed s = record (pinging pack o s) { sleeps = s.sleeps + 1 }

  -- No id that was not given out is pending.
  abbrev Unused : Session → Type 0
  Unused s = (q : ℕ) → s.next_req_id < q → count q (keys s.pending) ≡ 0

  missed-pending :
      (s : Session)
      → Unused s
      → (missed s).pending ≡ s.pending ++ (s.next_req_id + 1, ping_call pack o s) ∷ []
  missed-pending s new =
      insert_new (s.next_req_id + 1) (ping_call pack o s) s.pending
        (new (s.next_req_id + 1) (omega arith))

  missed-Unused : (s : Session) → Unused s → Unused (missed s)
  unfolding keys count
  missed-Unused s new q later =
      ap (λ m. count q (keys m)) (missed-pending s new)
      ∙ (ap (count q) (keys-append s.pending ((s.next_req_id + 1, ping_call pack o s) ∷ []))
          ∙ (count-append q (keys s.pending) ((s.next_req_id + 1) ∷ [])
              ∙ ground (arith, new q (omega arith))))

  missed-business : (s : Session) → Unused s → business (missed s).pending ≡ business s.pending
  unfolding uncounted
  missed-business s new =
      ap business (missed-pending s new)
      ∙ business_last (s.next_req_id + 1) (ping_call pack o s) s.pending refl

  missed-Dropped : (s s' : Session) → Unused s → Dropped (missed s) s' → Dropped s s'
  missed-Dropped s s' new (conn, online, shut, nonce, rid, recv, pending) =
      (conn, online, shut, nonce, rid, recv, pending ∙ missed-business s new)

  quiet_call :
      (q c : ℕ) (s : Session)
      → resolves q (
          send pack (some c) (s.next_req_id + 1) (ping_call pack o s)
          ++ timeout_timer (some o.ping_interval_ms))
        ≡ 0
  quiet_call q c s =
      resolves-append q (send pack (some c) (s.next_req_id + 1) (ping_call pack o s)) _
      ∙ omega (
        arith,
        resolves-send pack q (some c) (s.next_req_id + 1) (ping_call pack o s),
        resolves-timeout_timer q (some o.ping_interval_ms),
      )

  -- The timer of the last sleep.
  timer-At :
      (i q : ℕ) (t : Task) (s : Session) (y : System)
      → Below s.sleeps s.wakers
      → At i q t (sleeping pack o s) y
      → At i q t (record s { sleeps = s.sleeps + 1 }) (step pack o (timer s.sleeps) y)
  unfolding step resolves
  timer-At i q t s y below a =
      let e : finish s.sleeps y.session ≡ (record s { sleeps = s.sleeps + 1 }, wake s.sleeps ∷ []) =
        ap (finish s.sleeps) a.session ∙ finish_lem pack o s below in
      record {
        task = a.task;
        session = ap (λ r. r.0) e;
        unresolved =
            ap (λ r. resolves q (y.trace ++ r.1)) e
            ∙ omega (arith, resolves-append q y.trace (wake s.sleeps ∷ []), a.unresolved);
      }

  -- An open client that is online on `c`, and a heartbeat whose sleep is over.
  abbrev Online : ℕ → ℕ → Session → Type 0
  Online w c s =
      (contains s.wakers w ≡ false)
      × (s.closed ≡ false)
      × (s.is_online ≡ true)
      × (s.conn ≡ some c)
      × Below s.sleeps s.wakers

  -- No id that was not given out is resolved.
  abbrev Waiting : ℕ → Task → Session → System → Type 0
  Waiting i t s y = (q : ℕ) → s.next_req_id < q → At i q t s y

  ping-At :
      (i q m w c : ℕ) (s : Session) (y : System)
      → Online w c s
      → At i q (heartbeat_sleep m w) s y
      → At i q
          (heartbeat_ping m (some c) (s.next_req_id + 1))
          (pinging pack o s)
          (step pack o (run i woke) y)
  ping-At i q m w c s y (over, open_, on, conn, below) a =
      run-At pack o i q woke _ _ s (pinging pack o s) _ y a
        (ping_lem pack o m w c y.trace s over open_ on conn) (quiet_call q c s)

  missed-Waiting :
      (i m w c : ℕ) (s : Session) (y : System)
      → Online w c s
      → leb o.ping_tolerance (m + 1) ≡ false
      → Waiting i (heartbeat_sleep m w) s y
      → Waiting i (heartbeat_sleep (m + 1) s.sleeps) (missed s) (
          step pack o (timer s.sleeps) (step pack o (run i timed_out) (step pack o (run i woke) y)))
  unfolding resolves
  missed-Waiting i m w c s y online few a q later =
      let y1 = step pack o (run i woke) y in
      let req = s.next_req_id + 1 in
      let own = ping-At i req m w c s y online (a req (omega arith)) in
      timer-At i q _ (pinging pack o s) (step pack o (run i timed_out) y1) online.4 (
        run-At pack o i q timed_out _ _ (pinging pack o s) (sleeping pack o (pinging pack o s))
          (set_timer o.ping_interval_ms ∷ []) y1 (ping-At i q m w c s y online (a q (omega arith)))
          (missed_lem pack o m c req y1.trace (pinging pack o s)
            (settled-none req y1.trace own.unresolved) online.1 few)
          refl)

  dropped-At :
      (i m w c : ℕ) (s : Session) (y : System)
      → Online w c s
      → leb o.ping_tolerance (m + 1) ≡ true
      → Waiting i (heartbeat_sleep m w) s y
      → At i
          (s.next_req_id + 1)
          (heartbeat_sleep 0 s.sleeps)
          (record (missed s) { conn = none; is_online = false })
          (step pack o
            (timer s.sleeps)
            (step pack o (run i timed_out) (step pack o (run i woke) y)))
  unfolding resolves
  dropped-At i m w c s y online many a =
      let y1 = step pack o (run i woke) y in
      let req = s.next_req_id + 1 in
      let own = ping-At i req m w c s y online (a req (omega arith)) in
      timer-At i req _ (record (pinging pack o s) { conn = none; is_online = false })
        (step pack o (run i timed_out) y1) online.4
        (run-At pack o i req timed_out _ _ (pinging pack o s) _ _ y1 own
          (dropped_lem pack o m c req y1.trace (pinging pack o s)
            (settled-none req y1.trace own.unresolved) online.1 online.3 many)
          refl)

  unanswered-Dropped :
      (i n m w c : ℕ) (s : Session) (y : System)
      → m + suc n ≡ o.ping_tolerance
      → Online w c s
      → Unused s
      → Waiting i (heartbeat_sleep m w) s y
      → ((run_all pack o (unanswered i s.sleeps n) y).session.conn ≡ some c)
        × Dropped s (run_all pack o (unanswered i s.sleeps (suc n)) y).session
  unfolding run_all unanswered
  unanswered-Dropped i zero m w c s y e online new a =
      let many : leb o.ping_tolerance (m + 1) ≡ true = ground arith in
      let h = (dropped-At i m w c s y online many a).session in
      (
        ap (λ z. z.conn) (a (s.next_req_id + 1) (omega arith)).session ∙ online.3,
        subst (Dropped s) (sym h) (refl, refl, online.1, refl, refl, refl, missed-business s new),
      )
  unanswered-Dropped i (suc n) m w c s y e online new a =
      let few : leb o.ping_tolerance (m + 1) ≡ false = ground arith in
      let over = contains-Below s.wakers s.sleeps online.4 in
      let (held, dropped) =
        unanswered-Dropped i n (m + 1) s.sleeps c (missed s) _ (omega arith)
          (over, online.1, online.2, online.3, Below-mono s.sleeps s.wakers online.4)
          (missed-Unused s new) (missed-Waiting i m w c s y online few a) in
      (
        held,
        missed-Dropped s (run_all pack o (unanswered i s.sleeps (suc (suc n))) y).session new
            dropped,
      )

  -- In every state that any events lead to: where the client is open and online on `c`, and the heartbeat
  -- with `m` misses has slept, then after `n` pings that nothing answers, which leave the misses one
  -- below the tolerance, the client still holds the connection, and after one more it is offline without
  -- a connection, with its credential, its count and the pending business requests as they were, if nothing
  -- else happens meanwhile.
  pub detects :
      (es : List Event) (i n m w c : ℕ)
      → let y = run_all pack o es start_system in
        let s = y.session in
        task_at y.tasks i ≡ some (heartbeat_sleep m w)
        → contains s.wakers w ≡ false
        → s.closed ≡ false
        → s.is_online ≡ true
        → s.conn ≡ some c
        → m + suc n ≡ o.ping_tolerance
        → ((run_all pack o (unanswered i s.sleeps n) y).session.conn ≡ some c)
          × Dropped s (run_all pack o (unanswered i s.sleeps (suc n)) y).session
  detects es i n m w c task over open_ on conn e =
      let y = run_all pack o es start_system in
      let below = (run_all-Sound pack o es start_system (λ h. refl, tt)).1 in
      unanswered-Dropped i n m w c y.session y e (over, open_, on, conn, below)
        (λ q later. let once = answered_once pack o es q in ground (arith, once))
        (λ q later.
          let once = answered_once pack o es q in
          record { task = task; session = refl; unresolved = ground (arith, once) })
