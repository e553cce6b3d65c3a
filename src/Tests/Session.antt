-- ===== src/Tests/Session.antt =====
-- sdk/ts/src/session.ts: runs of the model of the session, and its theorems at concrete inputs.
use skyext.Codec.{CodecResponse, response}
use skyext.Prelude.{
  ℕ, ◌+◌, ◌≡◌, refl, String, true, false, ◌&&◌, Option, none, some, List, [], ◌∷◌, arith,
  if◌then◌else◌, leb, count, keys, lookup, insert, erase,
}
use skyext.Session.Accounts.{resolves}
use skyext.Session.Conservation.Events.{answered_once}
use skyext.Session.Counting.{handshake, sent, Downstream, garbled, answer, receive, recv-receive}
use skyext.Session.Observed.{transmissions, answers}
use skyext.Session.Resume.{
  packets, business, resume_lem, Resumes, resume_retried, login_lem, late_response_counted,
}
use skyext.Session.Shutdown.{close_lem, dropped_mute}
use skyext.Session.System.{
  Event, call_start, call_reconnect, call_request, message, lost, run, start_system, step, run_all,
}
use skyext.Session.Tasks.{
  System, supervising, connecting, send_login, done, endpoints, connected, login_param, answered,
  woke, finished, supervisor_sleep, heartbeat_sleep, finish_resume, finish_login, step_task,
}
use skyext.Session.State.{Session, Settings, Pending, initial}
use skyext.Session.{issue, fail_pending, sleep, close, on_message, on_closed, uncounted}
use skyext.Value.{number, bytes, pos, Fields, no_fields, entry, get}

-- The packet of request `req` is the one byte `req`.
abbrev pack : String → Option Fields → ℕ → Option (List ℕ)
pack name param req = some (req ∷ [])

abbrev defaults : Settings
defaults = record {
  ping_interval_ms = 15000;
  ping_tolerance = 2;
  reconnect_delay_ms = 1000;
  handshake_timeout_ms = 5000;
}

abbrev ok_resp : Fields
ok_resp = entry "code" (number (pos 0)) (
    entry "rid" (number (pos 7))
      (entry "nonce" (bytes (9 ∷ [])) (entry "sent" (number (pos 0)) no_fields)))

abbrev refused : Fields
refused = entry "code" (number (pos 24)) no_fields

abbrev business_call : Pending
business_call = record { name = "mail.send"; param = none }

abbrev ping_call : Pending
ping_call = record { name = "login.ping"; param = none }

-- Online on connection 4, with a business request and a ping under way.
abbrev busy : Session
busy = record initial {
  conn = some 4;
  is_online = true;
  closed = false;
  rid = number (pos 7);
  nonce = bytes (5 ∷ []);
  recv = 3;
  next_req_id = 2;
  pending = (1, business_call) ∷ (2, ping_call) ∷ [];
}

abbrev late : CodecResponse
late = record { session = pos 2; args = some ok_resp }

abbrev login_run : List Event
login_run =
    call_start
    ∷ run 0 (endpoints (some ("ws://a" ∷ [])))
    ∷ run 0 (connected (some 4))
    ∷ run 0 (login_param (some no_fields))
    ∷ message 4 (some (some (response (record { session = pos 1; args = some ok_resp }))))
    ∷ run 0 answered
    ∷ call_request "mail.send" none none
    ∷ []

answered_once_example :
    let y = run_all pack defaults login_run start_system in
    count 2 (keys y.session.pending) + resolves 2 y.trace
    ≡ (if leb 1 2 && leb 2 y.session.next_req_id then 1 else 0)
answered_once_example = answered_once pack defaults login_run 2

login_run_online : (run_all pack defaults login_run start_system).session.is_online ≡ true
unfolding run_all get insert lookup erase issue step_task on_message fail_pending sleep
login_run_online = refl

login_run_pending : keys (run_all pack defaults login_run start_system).session.pending ≡ 2 ∷ []
unfolding run_all get insert lookup erase keys issue step_task on_message fail_pending sleep
login_run_pending = refl

abbrev stream : List Downstream
stream = garbled ∷ answer "login.ping" 2 (some ok_resp) ∷ answer "mail.send" 1 none ∷ []

recv-receive_example : (receive stream busy).recv ≡ 5
unfolding lookup handshake count keys sent
recv-receive_example =
    recv-receive busy stream (λ n. ground arith)
      (
        (λ p f. ground arith, λ t f. cc),
        (λ t e. cc, tt),
        ((λ p f. ground arith, λ t f. cc), tt, tt),
      )

resume_lem_example :
    let w = finish_resume pack defaults 4 (some ok_resp) busy in
    (w.1 ≡ done true)
    × (transmissions w.2 ≡ (4, 1 ∷ []) ∷ [])
    × ((w.0).pending ≡ (1, business_call) ∷ [])
    × ((w.0).nonce ≡ bytes (9 ∷ []))
    × ((w.0).recv ≡ 3)
    × ((w.0).next_req_id ≡ 2)
    × ((w.0).is_online ≡ true)
unfolding get business packets uncounted
resume_lem_example = resume_lem pack defaults 4 ok_resp busy refl refl

resume_retried_example :
    let s1 = (finish_resume pack defaults 4 (some refused) busy).0 in
    let sent_ = (send_login pack defaults 4 (some ok_resp) s1).0 in
    Resumes pack defaults 6 4 busy (finish_login 4 none sent_).0
    × Resumes pack defaults 6 3 busy (send_login pack defaults 4 none s1).0
unfolding get
resume_retried_example =
    resume_retried pack defaults 4 6 (some refused) none ok_resp busy refl refl refl refl

login_lem_example :
    let w = finish_login 4 (some ok_resp) busy in
    (w.1 ≡ done true)
    × (answers w.2 ≡ (1, none) ∷ (2, none) ∷ [])
    × ((w.0).pending ≡ [])
    × ((w.0).recv ≡ 0)
    × ((w.0).rid ≡ number (pos 7))
    × ((w.0).nonce ≡ bytes (9 ∷ []))
    × ((w.0).next_req_id ≡ 2)
unfolding get
login_lem_example = login_lem 4 ok_resp busy refl

late_response_counted_example :
    (on_message 4 (some (some (response late))) (finish_login 4 (some ok_resp) busy).0).0.recv ≡ 1
unfolding get
late_response_counted_example = late_response_counted 4 ok_resp late busy refl refl

close_lem_example :
    let s' = (close busy).0 in
    (answers (close busy).1 ≡ (1, none) ∷ (2, none) ∷ [])
    × (s'.pending ≡ [])
    × (s'.conn ≡ none)
    × (step_task pack defaults (supervisor_sleep 1) woke [] s' ≡ (s', finished ∷ [], []))
    × (step_task pack defaults (heartbeat_sleep 1 1) woke [] s' ≡ (s', finished ∷ [], []))
close_lem_example = close_lem pack defaults busy 1 1 []

-- The supervisor is dialling; after the reconnect it gets connection 6, which the session then holds.
abbrev dialling : System
dialling = record { session = busy; tasks = supervising (connecting []) ∷ []; trace = [] }

abbrev next_connection : List Event
next_connection = run 0 (connected (some 6)) ∷ call_request "mail.list" none none ∷ []

dropped_mute_example :
    let z = step pack defaults call_reconnect dialling in
    let s = (run_all pack defaults next_connection z).session in
    (z.session ≡ (step pack defaults (lost 4) dialling).session)
    × (on_message 4 (some none) s ≡ (s, []))
    × (on_closed 4 s ≡ (s, []))
dropped_mute_example =
    dropped_mute pack defaults dialling 4 next_connection (some none) refl
      ((λ e. ground arith), (tt, tt))
