-- ===== src/Tests/Exchange.antt =====
-- sdk/ts/src/session.ts and codec.ts: a request and its response over a host of one protocol.
use skyext.Bytes.{IsByte}
use skyext.Codec.Dispatch.{HostResult, pack, dispatch, respond_with}
use skyext.Codec.Values.{plain_fields, FieldTexts}
use skyext.Codec.{response, encode_fields}
use skyext.Prelude.{
  ℕ, zero, suc, ◌+◌, ◌≡◌, refl, ap, String, true, false, Option, none, some, List, [], ◌∷◌, All,
  arith, if◌then◌else◌, length, lookup, insert, erase,
}
use skyext.Session.Exchange.{Hosts, issue-response, packer, received}
use skyext.Session.System.{Event, call_start, message, run, start_system, run_all}
use skyext.Session.Tasks.{endpoints, connected, login_param, answered, step_task}
use skyext.Session.State.{Settings, transmit, resolve}
use skyext.Session.{contains, issue, on_message, fail_pending, sleep, uncounted, timeout_timer}
use skyext.Value.{number, pos, Fields, no_fields, entry, get}

ones : ℕ → List ℕ
ones zero = []
ones (suc k) = 1 ∷ ones k

length-ones : (k : ℕ) → length (ones k) ≡ k
unfolding ones
length-ones zero = refl
length-ones (suc k) = ap suc (length-ones k)

ones-IsByte : (k : ℕ) → All IsByte (ones k)
unfolding ones
ones-IsByte zero = tt
ones-IsByte (suc k) = (omega arith, ones-IsByte k)

contains_head : (k : ℕ) (h : List ℕ) → contains (k ∷ h) k ≡ true
unfolding contains
contains_head k h = ground arith

abbrev done_resp : Fields
done_resp = entry "code" (number (pos 0)) no_fields

abbrev ascii : List ℕ → List ℕ
ascii s = s

-- A host of the protocol "mail.list": the packet of a request is its id in ones, that of a response has
-- a zero before it. The state of the client's host is the ids that it packed.
abbrev answer_of : List ℕ → List ℕ → Option HostResult
answer_of b h =
    if contains h (length b)
    then some (record {
      is_request = false;
      pname = none;
      result = some done_resp;
      response_func = none;
      session = number (pos (length b));
    })
    else none

abbrev client_dispatch : List ℕ → List ℕ → Option HostResult × List ℕ
client_dispatch [] h = (none, h)
client_dispatch (b ∷ bs) h = (answer_of bs h, h)

abbrev pack_fn : String → Option Fields → Option ℕ → List ℕ → Option (List ℕ) × List ℕ
pack_fn name args none h = (some [], h)
pack_fn name args (some k) h = (some (ones k), k ∷ h)

abbrev mail_hosts : Hosts (List ℕ) ℕ
mail_hosts = record {
  pack_fn = pack_fn;
  client_dispatch = client_dispatch;
  peer_dispatch = λ b g. (
    some (record {
      is_request = true;
      pname = some "mail.list";
      result = none;
      response_func = some (λ r. 0 ∷ ones (length b));
      session = number (pos (length b));
    }),
    g,
  );
  Request = λ name args. (name ≡ "mail.list") × (args ≡ none);
  Response = λ name resp. resp ≡ done_resp;
  Expects = λ name k h. contains h k ≡ true;
  request_bytes = λ name args k. ones k;
  response_bytes = λ name k r. 0 ∷ ones k;
  packs = λ name args k h valid. (refl, ones-IsByte k, contains_head k h);
  receives = λ name args k g valid positive. rw (valid.0, valid.1, length-ones k);
  answers = λ name resp k h valid expects.
      ((omega arith, ones-IsByte k), rw (length-ones k, expects, valid));
}

abbrev header : List ℕ → Option (Option Fields)
header b = none

abbrev defaults : Settings
defaults = record {
  ping_interval_ms = 15000;
  ping_tolerance = 2;
  reconnect_delay_ms = 1000;
  handshake_timeout_ms = 5000;
}

abbrev login_run : List Event
login_run =
    call_start
    ∷ run 0 (endpoints (some ("ws://a" ∷ [])))
    ∷ run 0 (connected (some 4))
    ∷ run 0 (login_param (some no_fields))
    ∷ message 4 (some (some (response (record { session = pos 1; args = some done_resp }))))
    ∷ run 0 answered
    ∷ []

issue-response_example :
    let s =
      (run_all
        (packer ascii ascii mail_hosts header header [])
        defaults
        login_run
        start_system).session in
    let (s', req, sent) =
      issue (packer ascii ascii mail_hosts header header []) "mail.list" none none s in
    let h' = (pack ascii ascii pack_fn "mail.list" none (some req) []).1 in
    let answer = respond_with ascii ascii (λ r. 0 ∷ ones req) (some done_resp) in
    (sent ≡ transmit 4 (ones req) ∷ timeout_timer none)
    × ((dispatch ascii ascii mail_hosts.peer_dispatch header (ones req) 0).0
        ≡ some (received ascii ascii "mail.list" none req (λ r. 0 ∷ ones req)))
    × (on_message 4 (some (dispatch ascii ascii client_dispatch header answer h').0) s' ≡ (
      record s { next_req_id = req; recv = if uncounted "mail.list" then s.recv else s.recv + 1 },
      resolve req (some (plain_fields done_resp)) ∷ [],
    ))
unfolding run_all get insert lookup erase issue step_task on_message fail_pending sleep FieldTexts
    encode_fields pack
issue-response_example =
    issue-response ascii ascii mail_hosts header header defaults login_run 4 "mail.list" none
      done_resp none [] 0 refl (refl, refl) refl tt (tt, tt)
