-- ===== src/Session/Liveness/Recovery.antt =====
-- sdk/ts/src/session.ts: the supervisor's recovery from a lost connection.
use skyext.Codec.{response}
use skyext.Prelude.{
  ℕ, ◌+◌, ◌≤◌, ◌≡◌, refl, sym, subst, ap, ◌∙◌, String, true, false, ◌||◌, Option, none, some, List,
  [], ◌∷◌, ◌++◌, arith, length, drop, count, keys,
}
use skyext.Session.Accounts.{resolves, resolves-append, resolves-send, resolves-timeout_timer}
use skyext.Session.Conservation.Events.{answered_once}
use skyext.Session.Liveness.{At, run-At, failures, failures-At, message-At, run-session}
use skyext.Session.Resume.{business}
use skyext.Session.System.{Event, run, message, start_system, task_at, step, run_all}
use skyext.Session.Tasks.{
  System, supervisor_sleep, supervising, resolving, connecting, resuming, endpoints, connected,
  answered, woke,
}
use skyext.Session.State.{Session, Settings, dial}
use skyext.Session.{send, is_ok, contains}
use skyext.Value.{Fields, pos, get, is_nullish}
use skyext.Session.Liveness.Resuming.{
  resume_call, asked, adopt_lem, message_lem, wake_lem, dial_lem, resume_step,
}

-- What happens: the sleep ends, the endpoints come, `n` of them cannot be reached, the next one is,
-- the server resumes the session.
abbrev pub recovery : ℕ → ℕ → List String → ℕ → ℕ → Fields → List Event
recovery i n urls c req resp =
    run i woke ∷ run i (endpoints (some urls)) ∷ failures i n
    ++ run i (connected (some c))
      ∷ message c (some (some (response (record { session = pos req; args = some resp }))))
      ∷ run i answered
      ∷ []

-- Online again, with what was pending.
abbrev pub Recovered : ℕ → Fields → Session → Session → Type 0
Recovered c resp s s' =
    (s'.is_online ≡ true)
    × (s'.conn ≡ some c)
    × (s'.closed ≡ false)
    × (s'.nonce ≡ get "nonce" resp)
    × (s'.recv ≡ s.recv)
    × (s'.pending ≡ business s.pending)

module _ (pack : String → Option Fields → ℕ → Option (List ℕ)) (o : Settings) where
  pub run_all-append :
      (es fs : List Event) (y : System)
      → run_all pack o (es ++ fs) y ≡ run_all pack o fs (run_all pack o es y)
  unfolding run_all
  run_all-append [] fs y = refl
  run_all-append (e ∷ es) fs y = run_all-append es fs (step pack o e y)

  -- An id that was not given out is not pending, and was not resolved.
  pub next_id_unused :
      (es : List Event)
      → let y = run_all pack o es start_system in
        let req = y.session.next_req_id + 1 in
        (count req (keys y.session.pending) ≡ 0) × (resolves req y.trace ≡ 0)
  next_id_unused es =
      let y = run_all pack o es start_system in
      let req = y.session.next_req_id + 1 in
      let e = answered_once pack o es req in (ground (arith, e), ground (arith, e))

  -- The steps up to the response, which do not resolve `q`.
  pub recovery-At :
      (i q w n c : ℕ) (first : String) (others : List String) (s : Session) (y : System)
      → At i q (supervisor_sleep w) s y
      → contains s.wakers w ≡ false
      → s.closed ≡ false
      → s.conn ≡ none
      → is_nullish s.nonce || is_nullish s.rid ≡ false
      → n ≤ length others
      → At i q (supervising (resuming c (s.next_req_id + 1))) (asked pack o c s) (
          step pack o (run i (connected (some c))) (
            run_all pack o (failures i n) (
              step pack o
                (run i (endpoints (some (first ∷ others))))
                (step pack o (run i woke) y))))
  unfolding resolves
  recovery-At i q w n c first others s y a over open_ lost_ known few =
      let req = s.next_req_id + 1 in
      let y1 = step pack o (run i woke) y in
      let a1 : At i q (supervising resolving) s y1 =
        run-At pack o i q woke _ _ s s [] y a (wake_lem pack o w y.trace s over open_ lost_) refl in
      let y2 = step pack o (run i (endpoints (some (first ∷ others)))) y1 in
      let a2 : At i q (supervising (connecting others)) s y2 =
        run-At pack o i q (endpoints (some (first ∷ others))) _ _ s s (dial first ∷ []) y1 a1
          (dial_lem pack o first others y1.trace s) refl in
      let y3 = run_all pack o (failures i n) y2 in
      let a3 = failures-At pack o false i q n others s y2 few a2 in
      run-At pack o i q (connected (some c)) _ _ s (asked pack o c s) _ y3 a3
        (adopt_lem pack o c (drop n others) y3.trace s open_ known)
        (resolves-append q (send pack (some c) req (resume_call pack o s)) _
          ∙ omega (
            arith,
            resolves-send pack q (some c) req (resume_call pack o s),
            resolves-timeout_timer q (some o.handshake_timeout_ms),
          ))

  recovery-Recovered :
      (i w n c : ℕ) (first : String) (others : List String) (resp : Fields) (s : Session)
      (y : System)
      → At i (s.next_req_id + 1) (supervisor_sleep w) s y
      → count (s.next_req_id + 1) (keys s.pending) ≡ 0
      → contains s.wakers w ≡ false
      → s.closed ≡ false
      → s.conn ≡ none
      → is_nullish s.nonce || is_nullish s.rid ≡ false
      → n ≤ length others
      → is_ok resp ≡ true
      → Recovered c resp s
          (run_all pack o (recovery i n (first ∷ others) c (s.next_req_id + 1) resp) y).session
  unfolding run_all
  recovery-Recovered i w n c first others resp s y a new over open_ lost_ known few ok =
      let req = s.next_req_id + 1 in
      let r = some (some (response (record { session = pos req; args = some resp }))) in
      let tail = run i (connected (some c)) ∷ message c r ∷ run i answered ∷ [] in
      let y2 =
        step pack o (run i (endpoints (some (first ∷ others)))) (step pack o (run i woke) y) in
      let y4 = step pack o (run i (connected (some c))) (run_all pack o (failures i n) y2) in
      let y5 = step pack o (message c r) y4 in
      let s5 : Session = record s { conn = some c; next_req_id = req } in
      let a4 = recovery-At i req w n c first others s y a over open_ lost_ known few in
      let (task5, held5, there) =
        message-At pack o i req c r (some resp) _ (asked pack o c s) s5 y4 a4
          (message_lem pack o c resp s new) in
      let (on, conn, shut, nonce, recv, pending) =
        resume_step pack o c req resp y5.trace s5 there ok in
      subst (Recovered c resp s)
        (sym (
          ap (λ z. z.session) (run_all-append (failures i n) tail y2)
          ∙ run-session pack o i answered (supervising (resuming c req)) s5 y5 task5 held5))
        (on, conn, shut ∙ open_, nonce, recv, pending)

  -- In every state that any events lead to: where the supervisor's sleep is over, the client is open, has
  -- lost its connection and holds a credential, then whatever endpoints come, and however many of them
  -- cannot be reached, the client is online again once one can be reached and the server resumes the
  -- session; it holds the new nonce, its count goes on, and the business requests that were pending are
  -- still pending.
  pub recovers :
      (es : List Event) (i w n c : ℕ) (first : String) (others : List String) (resp : Fields)
      → let y = run_all pack o es start_system in
        let s = y.session in
        task_at y.tasks i ≡ some (supervisor_sleep w)
        → contains s.wakers w ≡ false
        → s.closed ≡ false
        → s.conn ≡ none
        → is_nullish s.nonce || is_nullish s.rid ≡ false
        → n ≤ length others
        → is_ok resp ≡ true
        → Recovered c resp s
            (run_all pack o (recovery i n (first ∷ others) c (s.next_req_id + 1) resp) y).session
  recovers es i w n c first others resp task over open_ lost_ known few ok =
      let y = run_all pack o es start_system in
      let (unused, unresolved) = next_id_unused es in
      recovery-Recovered i w n c first others resp y.session y
        (record { task = task; session = refl; unresolved = unresolved }) unused over open_ lost_
        known few ok
