-- ===== src/Session/Conservation/Loops.antt =====
-- sdk/ts/src/session.ts: the loops, the events, and runs of them keep the accounts of requests.
use skyext.Prelude.{
  ℕ, ◌+◌, refl, String, Bool, true, false, ◌||◌, not, Option, none, some, List, [], ◌∷◌, ◌++◌,
  arith, leb,
}
use skyext.Session.Accounts.{Accounts, more, resolves, resolves-append, drop-Settles}
use skyext.Session.Conservation.{
  Fair, Fair-if, Fair-quiet, Fair-settled, issue-Fair, establish-Fair,
}
use skyext.Session.Tasks.{
  resolving, waiting, done, Task, starting, supervising, supervisor_sleep, heartbeat_sleep,
  heartbeat_ping, finished, Input, woke, reply, Ran, supervisor_pause, supervise, supervise_on,
  beat, ping, pong, pong_reply, launch, after_start, after_supervise, supervise_on, step_task,
}
use skyext.Session.State.{Session, Settings, Effect}
use skyext.Session.{invalidate_nonce, drop, sleep, contains, issue}
use skyext.Value.{Fields, null, number, pos, entry, no_fields, get, is_number}

Fair-then :
    {X Y : Type 0} {r : ℕ → ℕ} (w : Session × X × List Effect) (v : Session × Y × List Effect)
    → (Accounts (more r w.2) w.0 → Fair (more r w.2) v)
    → Fair r w
    → Fair r (v.0, v.1, w.2 ++ v.2)
Fair-then w v k f =
    let g = k (record { balance = f.balance }) in
    record { balance = λ n. ground (arith, g.balance n, resolves-append n w.2 v.2) }

Fair-sleep :
    {r : ℕ → ℕ} (ms : ℕ) (ts : ℕ → List Task) (s : Session)
    → Accounts r s
    → Fair r ((sleep ms s).0, ts ((sleep ms s).1), (sleep ms s).2)
unfolding sleep resolves
Fair-sleep ms ts s a = record { balance = λ n. ground (arith, a.balance n) }

module _ (pack : String → Option Fields → ℕ → Option (List ℕ)) (o : Settings) where
  supervisor_pause-Fair :
      {X : Type 0} {r : ℕ → ℕ} (x : X) (s : Session) (es : List Effect)
      → Fair r (s, x, es)
      → Fair r (supervisor_pause pack o s es)
  unfolding supervisor_pause
  supervisor_pause-Fair x s es f =
      let w = sleep o.reconnect_delay_ms s in
      Fair-then (s, x, es) (w.0, supervisor_sleep w.1 ∷ [], w.2)
        (Fair-sleep o.reconnect_delay_ms (λ n. supervisor_sleep n ∷ []) s) f

  supervise_on-Fair :
      {r : ℕ → ℕ} (b : Bool) (c : Option ℕ) (s : Session)
      → Accounts r s
      → Fair r (supervise_on pack o b c s)
  unfolding supervise_on resolves
  supervise_on-Fair true c s a = Fair-quiet s (finished ∷ []) a [] (λ n. refl)
  supervise_on-Fair false none s a = Fair-quiet s (supervising resolving ∷ []) a [] (λ n. refl)
  supervise_on-Fair false (some c) s a =
      supervisor_pause-Fair tt s [] (Fair-quiet s tt a [] (λ n. refl))

  supervise-Fair : {r : ℕ → ℕ} (s : Session) → Accounts r s → Fair r (supervise pack o s)
  unfolding supervise
  supervise-Fair s a = supervise_on-Fair s.closed s.conn s a

  beat-Fair :
      {X : Type 0} {r : ℕ → ℕ} (x : X) (misses : ℕ) (s : Session) (es : List Effect)
      → Fair r (s, x, es)
      → Fair r (beat pack o misses s es)
  unfolding beat
  beat-Fair x misses s es f =
      let w = sleep o.ping_interval_ms s in
      Fair-if s.closed (s, finished ∷ [], es) (w.0, heartbeat_sleep misses w.1 ∷ [], es ++ w.2)
        (record { balance = f.balance })
        (Fair-then (s, x, es) (w.0, heartbeat_sleep misses w.1 ∷ [], w.2)
          (Fair-sleep o.ping_interval_ms (λ n. heartbeat_sleep misses n ∷ []) s) f)

  quiet_start : {r : ℕ → ℕ} (s : Session) → Accounts r s → Fair r (s, tt {0}, [])
  unfolding resolves
  quiet_start s a = Fair-quiet s tt a [] (λ n. refl)

  ping-Fair : {r : ℕ → ℕ} (misses : ℕ) (s : Session) → Accounts r s → Fair r (ping pack o misses s)
  unfolding ping
  ping-Fair misses s a =
      let param = entry "recv" (number (pos s.recv)) no_fields in
      let w = issue pack "login.ping" (some param) (some o.ping_interval_ms) s in
      Fair-if (s.closed || not s.is_online) (beat pack o misses s [])
        (w.0, heartbeat_ping misses s.conn w.1 ∷ [], w.2)
        (beat-Fair tt misses s [] (quiet_start s a))
        (issue-Fair pack o (λ req. heartbeat_ping misses s.conn req ∷ []) "login.ping" (some param)
          (some o.ping_interval_ms) s a)

  beat-drop-Fair :
      {r : ℕ → ℕ} (conn : Option ℕ) (s : Session)
      → Accounts r s
      → Fair r (beat pack o 0 (drop conn s).0 (drop conn s).1)
  beat-drop-Fair conn s a =
      beat-Fair tt 0 (drop conn s).0 (drop conn s).1
        (Fair-settled s tt a (drop conn s) (drop-Settles conn s))

  pong-Fair :
      {r : ℕ → ℕ} (misses : ℕ) (conn : Option ℕ) (v : Option Fields) (s : Session)
      → Accounts r s
      → Fair r (pong pack o misses conn v s)
  unfolding pong invalidate_nonce
  pong-Fair misses conn (some resp) s a =
      let s' : Session = record s { nonce = null } in
      Fair-if (is_number (get "sent" resp) s.recv) (beat pack o 0 s [])
        (beat pack o 0 (drop conn s').0 (drop conn s').1) (beat-Fair tt 0 s [] (quiet_start s a))
        (beat-drop-Fair conn s' (record { balance = a.balance }))
  pong-Fair misses conn none s a =
      Fair-if (leb o.ping_tolerance (misses + 1)) (beat pack o 0 (drop conn s).0 (drop conn s).1)
        (beat pack o (misses + 1) s []) (beat-drop-Fair conn s a)
        (beat-Fair tt (misses + 1) s [] (quiet_start s a))

  pong_reply-Fair :
      {r : ℕ → ℕ} (misses : ℕ) (conn : Option ℕ) (req : ℕ) (v : Option (Option Fields))
      (s : Session)
      → Accounts r s
      → Fair r (pong_reply pack o misses conn req v s)
  unfolding pong_reply resolves
  pong_reply-Fair misses conn req none s a =
      Fair-quiet s (heartbeat_ping misses conn req ∷ []) a [] (λ n. refl)
  pong_reply-Fair misses conn req (some v) s a = pong-Fair misses conn v s a

  launch-Fair :
      {X : Type 0} {r : ℕ → ℕ} (x : X) (s : Session) (es : List Effect)
      → Fair r (s, x, es)
      → Fair r (launch pack o s es)
  unfolding launch
  launch-Fair x s es f =
      let s' : Session = record s { loops_started = true } in
      let w = supervise pack o s' in
      let v = beat pack o 0 w.0 [] in
      Fair-if s.loops_started (s, finished ∷ [], es)
        (v.0, finished ∷ (w.1 ++ v.1), es ++ (w.2 ++ v.2)) (record { balance = f.balance })
        (Fair-then (s', x, es) (v.0, finished ∷ (w.1 ++ v.1), w.2 ++ v.2)
          (λ a. record {
            balance =
                (Fair-then w v (λ a'. beat-Fair tt 0 w.0 [] (quiet_start w.0 a'))
                  (supervise-Fair s' a)).balance;
          })
          (record { balance = f.balance }))

  after_start-Fair : {r : ℕ → ℕ} (w : Ran) → Fair r w → Fair r (after_start pack o w)
  after_start-Fair (s, waiting stage, es) f = record { balance = f.balance }
  after_start-Fair (s, done b, es) f = launch-Fair (done b) s es f

  after_supervise-Fair : {r : ℕ → ℕ} (w : Ran) → Fair r w → Fair r (after_supervise pack o w)
  after_supervise-Fair (s, waiting stage, es) f = record { balance = f.balance }
  after_supervise-Fair (s, done b, es) f = supervisor_pause-Fair (done b) s es f

  pub step_task-Fair :
      {r : ℕ → ℕ} (t : Task) (input : Input) (trace : List Effect) (s : Session)
      → Accounts r s
      → Fair r (step_task pack o t input trace s)
  unfolding step_task resolves
  step_task-Fair (starting stage) input trace s a =
      after_start-Fair _ (establish-Fair pack o stage input trace s a)
  step_task-Fair (supervising stage) input trace s a =
      after_supervise-Fair _ (establish-Fair pack o stage input trace s a)
  step_task-Fair (supervisor_sleep w) woke trace s a =
      Fair-if (contains s.wakers w) (s, supervisor_sleep w ∷ [], []) (supervise pack o s)
        (Fair-quiet s (supervisor_sleep w ∷ []) a [] (λ n. refl)) (supervise-Fair s a)
  step_task-Fair (heartbeat_sleep misses w) woke trace s a =
      Fair-if (contains s.wakers w) (s, heartbeat_sleep misses w ∷ [], []) (ping pack o misses s)
        (Fair-quiet s (heartbeat_sleep misses w ∷ []) a [] (λ n. refl)) (ping-Fair misses s a)
  step_task-Fair (heartbeat_ping misses conn req) input trace s a =
      pong_reply-Fair misses conn req (reply input req trace) s a
  step_task-Fair task _ trace s a = Fair-quiet s (task ∷ []) a [] (λ n. refl)
