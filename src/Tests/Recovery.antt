-- ===== src/Tests/Recovery.antt =====
-- sdk/ts/src/session.ts: a client that loses its connection, one that is closed, and one that is
-- closed and started at once.
use skyext.Codec.{CodecResult, response}
use skyext.Prelude.{
  ℕ, ◌+◌, ◌≡◌, refl, String, false, Option, none, some, List, [], ◌∷◌, ◌++◌, arith, lookup, insert,
  erase, keys, length,
}
use skyext.Session.Closed.{closed_alone}
use skyext.Session.Liveness.Heartbeat.{detects, unanswered, Dropped}
use skyext.Session.Liveness.Unanswered.{requested, elapsed, ended, expired}
use skyext.Session.Liveness.Harmless.{Kept}
use skyext.Session.Liveness.Interleaved.{tolerates, Tolerant, ran_out}
use skyext.Session.Liveness.Recovery.{recovery, recovers, Recovered}
use skyext.Session.Liveness.Relogin.{login_events, relogs, LoggedIn}
use skyext.Session.Liveness.Start.{start_events, starts}
use skyext.Session.Restart.{restart_lem, supervisors}
use skyext.Session.System.{
  Event, call_start, call_close, call_request, message, lost, timer, run, start_system, run_all,
  task_at,
}
use skyext.Session.Tasks.{
  System, endpoints, connected, login_param, answered, woke, timed_out, step_task,
}
use skyext.Session.State.{Settings, Pending, Session}
use skyext.Session.{issue, sleep, fail_pending, on_message, on_closed, close, send, finish}
use skyext.Value.{number, bytes, pos, Fields, no_fields, entry, get}

-- The packet of request `req` is the one byte `req`.
abbrev pack : String → Option Fields → ℕ → Option (List ℕ)
pack name param req = some (req ∷ [])

abbrev defaults : Settings
defaults = record {
  ping_interval_ms = 15000;
  ping_tolerance = 2;
  reconnect_delay_ms = 1000;
  handshake_timeout_ms = 5000;
}

abbrev login_resp : Fields
login_resp =
    entry "code" (number (pos 0))
      (entry "rid" (number (pos 7)) (entry "nonce" (bytes (5 ∷ [])) no_fields))

abbrev resume_resp : Fields
resume_resp = entry "code" (number (pos 0)) (entry "nonce" (bytes (9 ∷ [])) no_fields)

-- Logged in on connection 1, with a business request under way.
abbrev logged_in : List Event
logged_in =
    call_start
    ∷ run 0 (endpoints (some ("ws://a" ∷ [])))
    ∷ run 0 (connected (some 1))
    ∷ run 0 (login_param (some no_fields))
    ∷ message 1 (some (some (response (record { session = pos 1; args = some login_resp }))))
    ∷ run 0 answered
    ∷ call_request "mail.list" none none
    ∷ []

-- The connection is lost, and the sleep of the supervisor over.
abbrev lost_run : List Event
lost_run = logged_in ++ (lost 1 ∷ timer 0 ∷ [])

abbrev lost_session : Session
lost_session = (run_all pack defaults lost_run start_system).session

recovers_example :
    Recovered 2 resume_resp lost_session
      (run_all pack defaults
        (recovery 1 1 ("ws://a" ∷ "ws://b" ∷ []) 2 (lost_session.next_req_id + 1) resume_resp)
        (run_all pack defaults lost_run start_system)).session
unfolding run_all get insert lookup erase keys issue step_task on_message fail_pending sleep
    on_closed finish task_at
recovers_example =
    recovers pack defaults lost_run 1 0 1 2 "ws://a" ("ws://b" ∷ []) resume_resp refl refl refl refl
      refl (ground arith) refl

abbrev refused : Fields
refused = entry "code" (number (pos 24)) no_fields

relogs_example :
    LoggedIn 2 login_resp
      (run_all pack defaults
        (recovery 1 1 ("ws://a" ∷ "ws://b" ∷ []) 2 (lost_session.next_req_id + 1) refused
          ++ login_events 1 2 (lost_session.next_req_id + 1 + 1) no_fields login_resp)
        (run_all pack defaults lost_run start_system)).session
unfolding run_all get insert lookup erase keys issue step_task on_message fail_pending sleep
    on_closed finish task_at
relogs_example =
    relogs pack defaults lost_run 1 0 1 2 "ws://a" ("ws://b" ∷ []) refused no_fields login_resp refl
      refl refl refl refl (ground arith) refl refl

starts_example :
    LoggedIn 1 login_resp
      (run_all pack defaults
        (start_events 0 1 ("ws://a" ∷ "ws://b" ∷ []) 1 1 no_fields login_resp)
        start_system).session
unfolding get run_all
starts_example =
    starts pack defaults [] 1 1 "ws://a" ("ws://b" ∷ []) no_fields login_resp refl (ground arith)
      refl

-- The first sleep of the heartbeat is over.
abbrev quiet_run : List Event
quiet_run = logged_in ++ (timer 1 ∷ [])

abbrev quiet : System
quiet = run_all pack defaults quiet_run start_system

detects_example :
    ((run_all pack defaults (unanswered 2 2 1) quiet).session.conn ≡ some 1)
    × Dropped quiet.session (run_all pack defaults (unanswered 2 2 2) quiet).session
unfolding run_all get insert lookup erase keys issue step_task on_message fail_pending sleep finish
    task_at
detects_example = detects pack defaults quiet_run 2 1 0 1 1 refl refl refl refl refl refl

-- Two pings that run out of time, among a request and a round of the supervisor.
abbrev silence : List Event
silence =
    run 2 woke
    ∷ call_request "mail.read" none none
    ∷ run 2 timed_out
    ∷ timer 0
    ∷ run 1 woke
    ∷ timer 2
    ∷ run 2 woke
    ∷ run 2 timed_out
    ∷ run 1 woke
    ∷ []

tolerates_example :
    let y = run_all pack defaults silence quiet in
    Kept quiet.session y.session × Tolerant pack defaults 2 2 1 y
unfolding run_all get insert lookup erase keys issue step_task on_message fail_pending sleep finish
    task_at ran_out
tolerates_example =
    tolerates pack defaults quiet_run silence 2 0 1 1 refl refl refl refl (omega arith) (
      ended 2,
      (
        requested "mail.read" none none,
        (expired, (elapsed 0, (ended 1, (elapsed 2, (ended 2, (expired, (ended 1, tt))))))),
      ),
    )

abbrev closed_session : Session
closed_session = (run_all pack defaults (logged_in ++ (call_close ∷ [])) start_system).session

closed_alone_example :
    (closed_session.conn ≡ none)
    × ((c : ℕ) (r : Option (Option CodecResult))
        → on_message c r closed_session ≡ (closed_session, []))
    × ((req : ℕ) (p : Pending) → send pack closed_session.conn req p ≡ [])
unfolding run_all get insert lookup erase keys issue step_task on_message fail_pending sleep close
closed_alone_example = closed_alone pack defaults (logged_in ++ (call_close ∷ [])) refl

restart_lem_example :
    let y = run_all pack defaults logged_in start_system in
    let y' =
      run_all pack defaults
        (call_close ∷ call_start ∷ run 1 woke ∷ run (length y.tasks) (endpoints none) ∷ [])
        y in
    (supervisors y'.tasks ≡ supervisors y.tasks + 1) × (y'.session.closed ≡ false)
unfolding run_all get insert lookup erase keys issue step_task on_message fail_pending sleep task_at
restart_lem_example =
    restart_lem pack defaults (run_all pack defaults logged_in start_system) 1 0 refl
