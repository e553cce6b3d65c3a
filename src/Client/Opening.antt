-- ===== src/Client/Opening.antt =====
-- sdk/ts/src/session.ts: the first session of a client, event by event, with all its effects.
use skyext.Codec.{response}
use skyext.Prelude.{
  ℕ, zero, suc, ◌≤◌, ◌≡◌, refl, sym, ap, ◌∙◌, String, true, false, Option, some, List, [], ◌∷◌,
  ◌++◌, arith, ◌==◌, length, drop, take, map, append-nil, append_assoc, insert, lookup, erase,
}
use skyext.Session.Accounts.{resolves, resolves-append}
use skyext.Session.Liveness.{failures, settled-append}
use skyext.Session.Liveness.Recovery.{run_all-append}
use skyext.Session.Liveness.Relogin.{login_events}
use skyext.Session.System.{Event, run, message, step, run_all}
use skyext.Session.Tasks.{
  Task, System, settled, step_task, finish_login, logged_in, after_start, launch, on_reply, Stepped,
  starting, connecting, asking, logging_in, finished, supervisor_sleep, heartbeat_sleep, resolving,
  endpoints, connected, login_param, answered,
}
use skyext.Session.State.{
  Session, Settings, Effect, initial, dial, transmit, resolve, notify, set_timer,
}
use skyext.Session.{uncounted, is_ok, issue, on_message, fail_pending, sleep}
use skyext.Value.{Fields, get, pos, or_null, online, relogin}

-- A client that has only been started.
abbrev pub fresh : Session
fresh = record initial { closed = false }

abbrev pub held : ℕ → Session
held c = record fresh { conn = some c }

abbrev pub asked : ℕ → Fields → Session
asked c param = record (held c) {
  next_req_id = 1;
  pending = (1, record { name = "login.login"; param = some param }) ∷ [];
}

abbrev pub told : ℕ → Session
told c = record (held c) { next_req_id = 1 }

abbrev pub entered : ℕ → Fields → Session
entered c resp = record (told c) {
  rid = or_null (get "rid" resp);
  nonce = or_null (get "nonce" resp);
  is_online = true;
  loops_started = true;
  wakers = 0 ∷ 1 ∷ [];
  sleeps = 2;
}

abbrev pub one_task : Session → Task → List Effect → System
one_task s t trace = record { session = s; tasks = t ∷ []; trace = trace }

-- What happens after `start`: the endpoints come, `n` of them cannot be reached, the next one is, the
-- application gives the parameter of the login, and the server accepts it.
abbrev pub opening : ℕ → List String → ℕ → Fields → Fields → List Event
opening n urls c param resp =
    run 0 (endpoints (some urls)) ∷ failures 0 n
    ++ run 0 (connected (some c)) ∷ login_events 0 c 1 param resp

module _ (pack : String → Option Fields → ℕ → Option (List ℕ)) (o : Settings) where
  failures_lem :
      (n : ℕ) (urls : List String) (s : Session) (trace : List Effect)
      → n ≤ length urls
      → run_all pack o (failures 0 n) (one_task s (starting (connecting urls)) trace)
        ≡ one_task s (starting (connecting (drop n urls))) (trace ++ map dial (take n urls))
  unfolding failures run_all step step_task
  failures_lem zero urls s trace h =
      ap (one_task s (starting (connecting urls))) (sym (append-nil trace))
  failures_lem (suc n) [] s trace h = absurd (omega arith)
  failures_lem (suc n) (url ∷ urls) s trace h =
      failures_lem n urls s (trace ++ dial url ∷ []) (omega arith)
      ∙ ap (one_task s (starting (connecting (drop n urls))))
          (append_assoc trace (dial url ∷ []) (map dial (take n urls)))

  connected_lem :
      (c : ℕ) (urls : List String) (trace : List Effect)
      → step pack o (run 0 (connected (some c))) (one_task fresh (starting (connecting urls)) trace)
        ≡ one_task (held c) (starting (asking c)) (trace ++ notify relogin ∷ [])
  unfolding step step_task
  connected_lem c urls trace = refl

  param_lem :
      (c : ℕ) (param : Fields) (bytes : List ℕ) (trace : List Effect)
      → pack "login.login" (some param) 1 ≡ some bytes
      → step pack o
          (run 0 (login_param (some param)))
          (one_task (held c) (starting (asking c)) trace)
        ≡ one_task
            (asked c param)
            (starting (logging_in c 1))
            (trace ++ transmit c bytes ∷ set_timer o.handshake_timeout_ms ∷ [])
  unfolding step step_task issue insert
  param_lem c param bytes trace packed = rw packed refl

  message_lem :
      (c : ℕ) (param resp : Fields) (t : Task) (trace : List Effect)
      → step pack o
          (message c (some (some (response (record { session = pos 1; args = some resp })))))
          (one_task (asked c param) t trace)
        ≡ one_task (told c) t (trace ++ resolve 1 (some resp) ∷ [])
  unfolding step on_message lookup erase uncounted
  message_lem c param resp t trace = let same : (c == c) ≡ true = ground arith in rw same refl

  accepted_lem :
      (c : ℕ) (resp : Fields)
      → is_ok resp ≡ true
      → finish_login c (some resp) (told c) ≡ logged_in resp (told c)
  unfolding finish_login
  accepted_lem c resp ok = rw ok

  launch_lem :
      (c : ℕ) (resp : Fields)
      → after_start pack o (logged_in resp (told c)) ≡ (
        entered c resp,
        finished ∷ supervisor_sleep 0 ∷ heartbeat_sleep 0 1 ∷ [],
        notify online ∷ set_timer o.reconnect_delay_ms ∷ set_timer o.ping_interval_ms ∷ [],
      )
  unfolding logged_in launch fail_pending sleep
  launch_lem c resp = refl

  answered_lem :
      (c : ℕ) (resp : Fields) (trace : List Effect)
      → settled 1 trace ≡ some (some resp)
      → is_ok resp ≡ true
      → step pack o (run 0 answered) (one_task (told c) (starting (logging_in c 1)) trace)
        ≡ record {
          session = entered c resp;
          tasks = finished ∷ supervisor_sleep 0 ∷ heartbeat_sleep 0 1 ∷ [];
          trace =
              trace
              ++ notify online ∷ set_timer o.reconnect_delay_ms ∷ set_timer o.ping_interval_ms ∷ [];
        }
  unfolding step step_task
  answered_lem c resp trace there ok =
      let ran : Option (Option Fields) → Stepped =
        λ r. after_start pack o (on_reply (logging_in c 1) r (finish_login c) (told c)) in
      ap
        (λ (w : Stepped).
          let y : System = record { session = w.0; tasks = w.1 ++ []; trace = trace ++ w.2 } in y)
        (ap ran there ∙ (ap (after_start pack o) (accepted_lem c resp ok) ∙ launch_lem c resp))

  -- What is seen of it, after the dials.
  abbrev pub handshake : ℕ → List ℕ → Fields → List Effect
  handshake c bytes resp =
      notify relogin
      ∷ transmit c bytes
      ∷ set_timer o.handshake_timeout_ms
      ∷ resolve 1 (some resp)
      ∷ notify online
      ∷ set_timer o.reconnect_delay_ms
      ∷ set_timer o.ping_interval_ms
      ∷ []

  resolves-dials : (urls : List String) → resolves 1 (map dial urls) ≡ 0
  unfolding resolves
  resolves-dials [] = refl
  resolves-dials (url ∷ urls) = resolves-dials urls

  unresolved :
      (c : ℕ) (bytes : List ℕ) (es : List Effect)
      → resolves 1 es ≡ 0
      → resolves 1
          (es ++ notify relogin ∷ [] ++ transmit c bytes ∷ set_timer o.handshake_timeout_ms ∷ [])
        ≡ 0
  unfolding resolves
  unresolved c bytes es none_ = omega (
    arith,
    none_,
    resolves-append 1 es (notify relogin ∷ []),
    resolves-append 1 (es ++ notify relogin ∷ [])
        (transmit c bytes ∷ set_timer o.handshake_timeout_ms ∷ []),
  )

  handshake_lem :
      (c : ℕ) (bytes : List ℕ) (resp : Fields) (es : List Effect)
      → es
          ++ notify relogin ∷ []
          ++ transmit c bytes ∷ set_timer o.handshake_timeout_ms ∷ []
          ++ resolve 1 (some resp) ∷ []
          ++ notify online ∷ set_timer o.reconnect_delay_ms ∷ set_timer o.ping_interval_ms ∷ []
        ≡ es ++ handshake c bytes resp
  handshake_lem c bytes resp [] = refl
  handshake_lem c bytes resp (e ∷ es) = ap (◌∷◌ e) (handshake_lem c bytes resp es)

  -- From the start to the first session, with `n` endpoints that cannot be reached.
  pub opening_lem :
      (n c : ℕ) (first : String) (others : List String) (param resp : Fields) (bytes : List ℕ)
      → n ≤ length others
      → pack "login.login" (some param) 1 ≡ some bytes
      → is_ok resp ≡ true
      → run_all pack o
          (opening n (first ∷ others) c param resp)
          (one_task fresh (starting resolving) [])
        ≡ record {
          session = entered c resp;
          tasks = finished ∷ supervisor_sleep 0 ∷ heartbeat_sleep 0 1 ∷ [];
          trace = map dial (first ∷ take n others) ++ handshake c bytes resp;
        }
  unfolding run_all step step_task
  opening_lem n c first others param resp bytes few packed ok =
      let r = some (some (response (record { session = pos 1; args = some resp }))) in
      let tail = run 0 (connected (some c)) ∷ login_events 0 c 1 param resp in
      let y1 = one_task fresh (starting (connecting others)) (dial first ∷ []) in
      let dials = dial first ∷ map dial (take n others) in
      let t1 = dials ++ notify relogin ∷ [] in
      let t2 = t1 ++ transmit c bytes ∷ set_timer o.handshake_timeout_ms ∷ [] in
      let t3 = t2 ++ resolve 1 (some resp) ∷ [] in
      let accept = step pack o (run 0 answered) in
      let tell = step pack o (message c r) in
      let ask = step pack o (run 0 (login_param (some param))) in
      let there : settled 1 t3 ≡ some (some resp) =
        settled-append 1 (some resp) t2
          (unresolved c bytes dials (resolves-dials (first ∷ take n others))) in
      run_all-append pack o (failures 0 n) tail y1
      ∙ (ap (run_all pack o tail) (failures_lem n others fresh (dial first ∷ []) few)
          ∙ (ap (λ y. accept (tell (ask y))) (connected_lem c (drop n others) dials)
              ∙ (ap (λ y. accept (tell y)) (param_lem c param bytes t1 packed)
                  ∙ (ap accept (message_lem c param resp (starting (logging_in c 1)) t2)
                      ∙ (answered_lem c resp t3 there ok
                          ∙ ap
                              (λ (t : List Effect).
                                let y : System = record {
                                  session = entered c resp;
                                  tasks = finished ∷ supervisor_sleep 0 ∷ heartbeat_sleep 0 1 ∷ [];
                                  trace = t;
                                } in
                                y)
                              (handshake_lem c bytes resp dials))))))
