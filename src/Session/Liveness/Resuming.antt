-- ===== src/Session/Liveness/Resuming.antt =====
-- sdk/ts/src/session.ts: the steps of the supervisor that resume a session.
use skyext.Codec.{response}
use skyext.Prelude.{
  ℕ, ◌+◌, ◌≡◌, refl, ap₂, String, true, false, ◌||◌, Option, none, some, List, [], ◌∷◌, ◌++◌, arith,
  ◌==◌, count, keys, insert,
}
use skyext.Session.Liveness.{lookup-insert, erase-insert}
use skyext.Session.Resume.{business, resend-pending}
use skyext.Session.Tasks.{
  step_task, settled, supervisor_sleep, supervising, resolving, connecting, resuming, endpoints,
  connected, answered, woke, supervise_on,
}
use skyext.Session.State.{Session, Settings, Pending, Effect, dial, resolve}
use skyext.Session.{
  uncounted, issue, handle_response, send, timeout_timer, is_ok, contains, resend_pending,
  on_message, sleep,
}
use skyext.Value.{Fields, no_fields, entry, number, pos, get, is_nullish}

-- The response to a pending call of the session's own.
pub uncounted_lem :
    (c k : ℕ) (p : Pending) (resp : Fields) (s : Session)
    → uncounted p.name ≡ true
    → count k (keys s.pending) ≡ 0
    → on_message c
        (some (some (response (record { session = pos k; args = some resp }))))
        (record s { conn = some c; pending = insert k p s.pending })
      ≡ (record s { conn = some c }, resolve k (some resp) ∷ [])
unfolding on_message
uncounted_lem c k p resp s own new =
    let same : (c == c) ≡ true = ground arith in
    rw (same, lookup-insert k p s.pending new, handle_response, own, erase-insert k p s.pending new)

module _ (pack : String → Option Fields → ℕ → Option (List ℕ)) (o : Settings) where
  -- The parameter and the session of the request.
  abbrev pub resume_call : Session → Pending
  resume_call s = record {
    name = "login.resume";
    param =
        some (
          entry "rid" s.rid (entry "nonce" s.nonce (entry "recv" (number (pos s.recv)) no_fields)));
  }

  abbrev pub asked : ℕ → Session → Session
  asked c s = record s {
    conn = some c;
    next_req_id = s.next_req_id + 1;
    pending = insert (s.next_req_id + 1) (resume_call s) s.pending;
  }

  pub adopt_lem :
      (c : ℕ) (urls : List String) (trace : List Effect) (s : Session)
      → s.closed ≡ false
      → is_nullish s.nonce || is_nullish s.rid ≡ false
      → step_task pack o (supervising (connecting urls)) (connected (some c)) trace s ≡ (
        asked c s,
        supervising (resuming c (s.next_req_id + 1)) ∷ [],
        send pack (some c) (s.next_req_id + 1) (resume_call s)
            ++ timeout_timer (some o.handshake_timeout_ms),
      )
  unfolding step_task issue
  adopt_lem c urls trace s open_ known = rw (open_, known)

  pub message_lem :
      (c : ℕ) (resp : Fields) (s : Session)
      → count (s.next_req_id + 1) (keys s.pending) ≡ 0
      → on_message c
          (some (some (response (record { session = pos (s.next_req_id + 1); args = some resp }))))
          (asked c s)
        ≡ (
          record s { conn = some c; next_req_id = s.next_req_id + 1 },
          resolve (s.next_req_id + 1) (some resp) ∷ [],
        )
  unfolding uncounted
  message_lem c resp s new =
      uncounted_lem c (s.next_req_id + 1) (resume_call s) resp
        (record s { conn = some c; next_req_id = s.next_req_id + 1 }) refl new

  pub wake_lem :
      (w : ℕ) (trace : List Effect) (s : Session)
      → contains s.wakers w ≡ false
      → s.closed ≡ false
      → s.conn ≡ none
      → step_task pack o (supervisor_sleep w) woke trace s ≡ (s, supervising resolving ∷ [], [])
  unfolding step_task
  wake_lem w trace s over open_ lost_ =
      rw over (ap₂ (λ b conn. supervise_on pack o b conn s) open_ lost_)

  pub dial_lem :
      (first : String) (others : List String) (trace : List Effect) (s : Session)
      → step_task pack o (supervising resolving) (endpoints (some (first ∷ others))) trace s
        ≡ (s, supervising (connecting others) ∷ [], dial first ∷ [])
  unfolding step_task
  dial_lem first others trace s = refl

  pub resume_step :
      (c req : ℕ) (resp : Fields) (trace : List Effect) (s : Session)
      → settled req trace ≡ some (some resp)
      → is_ok resp ≡ true
      → let s' = (step_task pack o (supervising (resuming c req)) answered trace s).0 in
        (s'.is_online ≡ true)
        × (s'.conn ≡ s.conn)
        × (s'.closed ≡ s.closed)
        × (s'.nonce ≡ get "nonce" resp)
        × (s'.recv ≡ s.recv)
        × (s'.pending ≡ business s.pending)
  unfolding step_task resend_pending sleep
  resume_step c req resp trace s there ok =
      rw (there, ok) (refl, refl, refl, refl, refl, resend-pending pack o s.conn s.pending)
