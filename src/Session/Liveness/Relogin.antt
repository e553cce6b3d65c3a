-- ===== src/Session/Liveness/Relogin.antt =====
-- sdk/ts/src/session.ts: the supervisor's login where the server does not resume the session.
use skyext.Codec.{response}
use skyext.Prelude.{
  ℕ, ◌+◌, ◌≤◌, ◌≡◌, refl, sym, subst, ap, ◌∙◌, String, Bool, true, false, inl, inr, Bool-cases,
  ◌||◌, Option, none, some, List, [], ◌∷◌, ◌++◌, arith, ◌==◌, length, count, keys, insert,
}
use skyext.Session.Accounts.{resolves, resolves-append, resolves-send, resolves-timeout_timer}
use skyext.Session.Conservation.Events.{answered_once}
use skyext.Session.Liveness.Recovery.{recovery, recovery-At, run_all-append, next_id_unused}
use skyext.Session.Liveness.Resuming.{asked, uncounted_lem, message_lem}
use skyext.Session.Liveness.{At, within, run-At, message-At, message_other, run-session, failures}
use skyext.Session.System.{Event, run, message, start_system, task_at, step, run_all}
use skyext.Session.Tasks.{
  System, launch, step_task, settled, supervisor_sleep, supervising, resuming, asking, logging_in,
  endpoints, connected, login_param, answered, woke,
}
use skyext.Session.State.{Session, Settings, Pending, Effect, notify}
use skyext.Session.{uncounted, issue, send, timeout_timer, is_ok, contains, fail_pending, sleep}
use skyext.Value.{Fields, pos, get, or_null, is_nullish, relogin}

-- What happens after the server refused the session: the application gives the parameter of a login,
-- and the server accepts it.
abbrev pub login_events : ℕ → ℕ → ℕ → Fields → Fields → List Event
login_events i c req param resp =
    run i (login_param (some param))
    ∷ message c (some (some (response (record { session = pos req; args = some resp }))))
    ∷ run i answered
    ∷ []

-- Online with the server's new session, and nothing pending.
abbrev pub LoggedIn : ℕ → Fields → Session → Type 0
LoggedIn c resp s' =
    (s'.is_online ≡ true)
    × (s'.conn ≡ some c)
    × (s'.closed ≡ false)
    × (s'.rid ≡ or_null (get "rid" resp))
    × (s'.nonce ≡ or_null (get "nonce" resp))
    × (s'.recv ≡ 0)
    × (s'.pending ≡ [])

module _ (pack : String → Option Fields → ℕ → Option (List ℕ)) (o : Settings) where
  abbrev login_call : Fields → Pending
  login_call param = record { name = "login.login"; param = some param }

  -- The session with the request of the login, given the id before it.
  abbrev offering : ℕ → Fields → Session → Session
  offering c param s = record s {
    conn = some c;
    next_req_id = s.next_req_id + 1;
    pending = insert (s.next_req_id + 1) (login_call param) s.pending;
  }

  refused_lem :
      (c req : ℕ) (refused : Fields) (trace : List Effect) (s : Session)
      → settled req trace ≡ some (some refused)
      → is_ok refused ≡ false
      → step_task pack o (supervising (resuming c req)) answered trace s
        ≡ (s, supervising (asking c) ∷ [], notify relogin ∷ [])
  unfolding step_task
  refused_lem c req refused trace s there bad = rw (there, bad)

  offer_lem :
      (b : Bool) (c : ℕ) (param : Fields) (trace : List Effect) (s : Session)
      → s.conn ≡ some c
      → step_task pack o (within b (asking c)) (login_param (some param)) trace s ≡ (
        record s {
          next_req_id = s.next_req_id + 1;
          pending = insert (s.next_req_id + 1) (login_call param) s.pending;
        },
        within b (logging_in c (s.next_req_id + 1)) ∷ [],
        send pack (some c) (s.next_req_id + 1) (login_call param)
            ++ timeout_timer (some o.handshake_timeout_ms),
      )
  unfolding step_task issue
  offer_lem true c param trace s conn = rw conn
  offer_lem false c param trace s conn = rw conn

  -- The end of `start`, whether it launches the loops or not.
  launch-LoggedIn :
      (c : ℕ) (resp : Fields) (es : List Effect) (s : Session)
      → LoggedIn c resp s
      → LoggedIn c resp (launch pack o s es).0
  unfolding launch sleep
  launch-LoggedIn c resp es s h = elim (Bool-cases s.loops_started) [
    | inl launched ↦ rw launched h
    | inr first ↦ rw (first, h.2, h.1) (h.0, refl, refl, h.3, h.4, h.5, h.6)
  ]

  login_step :
      (b : Bool) (c req : ℕ) (resp : Fields) (trace : List Effect) (s : Session)
      → settled req trace ≡ some (some resp)
      → is_ok resp ≡ true
      → s.conn ≡ some c
      → s.closed ≡ false
      → LoggedIn c resp (step_task pack o (within b (logging_in c req)) answered trace s).0
  unfolding step_task sleep fail_pending
  login_step true c req resp trace s there ok conn open_ =
      rw (there, ok) (launch-LoggedIn c resp _ _ (refl, conn, open_, refl, refl, refl, refl))
  login_step false c req resp trace s there ok conn open_ =
      rw (there, ok) (refl, conn, open_, refl, refl, refl, refl)

  -- The login, from where the client has asked for its parameter.
  pub login-LoggedIn :
      (b : Bool) (i c : ℕ) (param resp : Fields) (s : Session) (y : System)
      → let z : Session = record s { conn = some c } in
        let req = s.next_req_id + 1 in
        At i req (within b (asking c)) z y
        → count req (keys s.pending) ≡ 0
        → s.closed ≡ false
        → is_ok resp ≡ true
        → LoggedIn c resp (run_all pack o (login_events i c req param resp) y).session
  unfolding run_all uncounted
  login-LoggedIn b i c param resp s y a new open_ ok =
      let z : Session = record s { conn = some c } in
      let req = s.next_req_id + 1 in
      let p = login_call param in
      let r = some (some (response (record { session = pos req; args = some resp }))) in
      let y1 = step pack o (run i (login_param (some param))) y in
      let quiet =
        resolves-append req (send pack (some c) req p) (timeout_timer (some o.handshake_timeout_ms))
        ∙ omega (
          arith,
          resolves-send pack req (some c) req p,
          resolves-timeout_timer req (some o.handshake_timeout_ms),
        ) in
      let z1 = offering c param s in
      let a1 : At i req (within b (logging_in c req)) z1 y1 =
        run-At pack o i req (login_param (some param)) _ _ z z1 _ y a
          (offer_lem b c param y.trace z refl) quiet in
      let z2 : Session = record s { conn = some c; next_req_id = req } in
      let y2 = step pack o (message c r) y1 in
      let (task2, held2, there) =
        message-At pack o i req c r (some resp) _ z1 z2 y1 a1
          (uncounted_lem c req p resp (record s { next_req_id = req }) refl new) in
      subst (LoggedIn c resp)
        (sym (run-session pack o i answered (within b (logging_in c req)) z2 y2 task2 held2))
        (login_step b c req resp y2.trace z2 there ok refl open_)

  -- The refusal, and the login.
  relogin-LoggedIn :
      (i w n c : ℕ) (first : String) (others : List String) (refused param resp : Fields)
      (s : Session) (y : System)
      → let req = s.next_req_id + 1 in
        At i req (supervisor_sleep w) s y
        → At i (req + 1) (supervisor_sleep w) s y
        → count req (keys s.pending) ≡ 0
        → count (req + 1) (keys s.pending) ≡ 0
        → contains s.wakers w ≡ false
        → s.closed ≡ false
        → s.conn ≡ none
        → is_nullish s.nonce || is_nullish s.rid ≡ false
        → n ≤ length others
        → is_ok refused ≡ false
        → is_ok resp ≡ true
        → LoggedIn c resp
            (run_all pack o
              (recovery i n (first ∷ others) c req refused ++ login_events i c (req + 1) param resp)
              y).session
  unfolding run_all resolves
  relogin-LoggedIn i w n c first others refused param resp s y a b new newer over open_ lost_ known
        few bad ok =
      let req = s.next_req_id + 1 in
      let r = some (some (response (record { session = pos req; args = some refused }))) in
      let other : req + 1 == req ≡ false = ground arith in
      let tail = run i (connected (some c)) ∷ message c r ∷ run i answered ∷ [] in
      let login = login_events i c (req + 1) param resp in
      let y2 =
        step pack o (run i (endpoints (some (first ∷ others)))) (step pack o (run i woke) y) in
      let y4 = step pack o (run i (connected (some c))) (run_all pack o (failures i n) y2) in
      let y5 = step pack o (message c r) y4 in
      let s5 : Session = record s { conn = some c; next_req_id = req } in
      let m = message_lem pack o c refused s new in
      let a4 = recovery-At pack o i req w n c first others s y a over open_ lost_ known few in
      let b4 = recovery-At pack o i (req + 1) w n c first others s y b over open_ lost_ known few in
      let (task5, held5, there) =
        message-At pack o i req c r (some refused) _ (asked pack o c s) s5 y4 a4 m in
      let b5 =
        message_other pack o i req (req + 1) c r (some refused) _ (asked pack o c s) s5 y4 b4 m
          other in
      let b6 =
        run-At pack o i (req + 1) answered _ _ s5 s5 (notify relogin ∷ []) y5 b5
          (refused_lem c req refused y5.trace s5 there bad) refl in
      subst (λ z. LoggedIn c resp z.session)
        (sym (
          run_all-append pack o (recovery i n (first ∷ others) c req refused) login y
          ∙ ap (run_all pack o login) (run_all-append pack o (failures i n) tail y2)))
        (login-LoggedIn false i c param resp (record s { next_req_id = req }) _ b6 newer open_ ok)

  -- In every state that any events lead to: where the supervisor's sleep is over, the client is open, has
  -- lost its connection and holds a credential, then after some endpoints that cannot be reached and one
  -- that can, where the server refuses to resume the session and then accepts the login for which the
  -- application gives the parameter, the client is online with the server's new credential, with a
  -- count of zero and nothing pending.
  pub relogs :
      (es : List Event) (i w n c : ℕ) (first : String) (others : List String)
      (refused param resp : Fields)
      → let y = run_all pack o es start_system in
        let s = y.session in
        let req = s.next_req_id + 1 in
        task_at y.tasks i ≡ some (supervisor_sleep w)
        → contains s.wakers w ≡ false
        → s.closed ≡ false
        → s.conn ≡ none
        → is_nullish s.nonce || is_nullish s.rid ≡ false
        → n ≤ length others
        → is_ok refused ≡ false
        → is_ok resp ≡ true
        → LoggedIn c resp
            (run_all pack o
              (recovery i n (first ∷ others) c req refused ++ login_events i c (req + 1) param resp)
              y).session
  relogs es i w n c first others refused param resp task over open_ lost_ known few bad ok =
      let y = run_all pack o es start_system in
      let req = y.session.next_req_id + 1 in
      let (unused, unresolved) = next_id_unused pack o es in
      let e = answered_once pack o es (req + 1) in
      relogin-LoggedIn i w n c first others refused param resp y.session y
        (record { task = task; session = refl; unresolved = unresolved })
        (record { task = task; session = refl; unresolved = ground (arith, e) }) unused
        (ground (arith, e)) over open_ lost_ known few bad ok
