-- ===== src/Session/Liveness/Start.antt =====
-- sdk/ts/src/session.ts: `start` of a client without a credential.
use skyext.Prelude.{
  ℕ, ◌+◌, ◌≤◌, ◌≡◌, refl, sym, subst, String, true, false, ◌||◌, Option, some, List, [], ◌∷◌, ◌++◌,
  length, drop,
}
use skyext.Session.Accounts.{resolves}
use skyext.Session.Liveness.Recovery.{run_all-append, next_id_unused}
use skyext.Session.Liveness.Relogin.{login_events, LoggedIn, login-LoggedIn}
use skyext.Session.Liveness.{At, run-At, failures, failures-At, task_at_last}
use skyext.Session.System.{Event, call_start, run, start_system, step, run_all}
use skyext.Session.Tasks.{step_task, starting, resolving, connecting, asking, endpoints, connected}
use skyext.Session.State.{Session, Settings, Effect, dial, notify}
use skyext.Session.{is_ok}
use skyext.Value.{Fields, is_nullish, relogin}

-- What happens: `start`, the endpoints, `n` of them that cannot be reached, one that can, the login.
abbrev pub start_events : ℕ → ℕ → List String → ℕ → ℕ → Fields → Fields → List Event
start_events i n urls c req param resp =
    call_start ∷ run i (endpoints (some urls)) ∷ failures i n
    ++ run i (connected (some c)) ∷ login_events i c req param resp

module _ (pack : String → Option Fields → ℕ → Option (List ℕ)) (o : Settings) where
  first_dial :
      (first : String) (others : List String) (trace : List Effect) (s : Session)
      → step_task pack o (starting resolving) (endpoints (some (first ∷ others))) trace s
        ≡ (s, starting (connecting others) ∷ [], dial first ∷ [])
  unfolding step_task
  first_dial first others trace s = refl

  ask_lem :
      (c : ℕ) (urls : List String) (trace : List Effect) (s : Session)
      → s.closed ≡ false
      → is_nullish s.nonce || is_nullish s.rid ≡ true
      → step_task pack o (starting (connecting urls)) (connected (some c)) trace s
        ≡ (record s { conn = some c }, starting (asking c) ∷ [], notify relogin ∷ [])
  unfolding step_task
  ask_lem c urls trace s open_ unknown = rw (open_, unknown)

  -- After any events, `start` of a client without a credential brings it online: after some endpoints
  -- that cannot be reached and one that can, where the application gives the parameter of a login and the
  -- server accepts it, the client has the server's credential, a count of zero and nothing pending.
  pub starts :
      (es : List Event) (n c : ℕ) (first : String) (others : List String) (param resp : Fields)
      → let y = run_all pack o es start_system in
        let s = y.session in
        is_nullish s.nonce || is_nullish s.rid ≡ true
        → n ≤ length others
        → is_ok resp ≡ true
        → LoggedIn c resp
            (run_all pack o
              (start_events (length y.tasks) n (first ∷ others) c (s.next_req_id + 1) param resp)
              y).session
  unfolding run_all step resolves
  starts es n c first others param resp unknown few ok =
      let y = run_all pack o es start_system in
      let i = length y.tasks in
      let req = y.session.next_req_id + 1 in
      let (unused, unresolved) = next_id_unused pack o es in
      let s : Session = record (y.session) { closed = false } in
      let y1 = step pack o call_start y in
      let a1 : At i req (starting resolving) s y1 = record {
        task = task_at_last y.tasks (starting resolving);
        session = refl;
        unresolved = unresolved;
      } in
      let y2 = step pack o (run i (endpoints (some (first ∷ others)))) y1 in
      let a2 : At i req (starting (connecting others)) s y2 =
        run-At pack o i req (endpoints (some (first ∷ others))) _ _ s s (dial first ∷ []) y1 a1
          (first_dial first others y1.trace s) refl in
      let y3 = run_all pack o (failures i n) y2 in
      let a3 = failures-At pack o true i req n others s y2 few a2 in
      let a4 =
        run-At pack o i req (connected (some c)) _ _ s (record s { conn = some c })
          (notify relogin ∷ []) y3 a3 (ask_lem c (drop n others) y3.trace s refl unknown) refl in
      subst (λ z. LoggedIn c resp z.session)
        (sym (
          run_all-append pack o (failures i n)
            (run i (connected (some c)) ∷ login_events i c req param resp) y2))
        (login-LoggedIn pack o true i c param resp s _ a4 unused refl ok)
