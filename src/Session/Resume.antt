-- ===== src/Session/Resume.antt =====
-- sdk/ts/src/session.ts: what a resumed session sends again, and what a new login gives up.
use skyext.Codec.{CodecResponse, response}
use skyext.Prelude.{
  ℕ, ◌+◌, ◌≡◌, refl, String, Bool, true, false, Option, none, some, List, [], ◌∷◌, ◌++◌, arith,
  if◌then◌else◌, lookup, insert, subst, Option-cases, inl, inr, ◌∙◌, append-nil, not, ◌||◌,
}
use skyext.Session.Observed.{
  transmissions, transmissions-append, answers, answers-append, answers-resolve_all, nulls,
}
use skyext.Session.Tasks.{done, waiting, resuming, finish_resume, adopt, send_login, finish_login}
use skyext.Session.State.{Session, Settings, Pending, notify}
use skyext.Session.{
  resolve_all, send, issue, resend, resend_pending, fail_pending, timeout_timer, on_message,
  uncounted, is_ok, drop,
}
use skyext.Value.{Fields, no_fields, entry, number, pos, get, or_null, online, is_nullish}

-- The pending requests that are no handshake.
unfoldable pub business : List (ℕ × Pending) → List (ℕ × Pending)
business [] = []
business ((req, p) ∷ m) = if uncounted p.name then business m else (req, p) ∷ business m

pub business_last :
    (req : ℕ) (p : Pending) (m : List (ℕ × Pending))
    → uncounted p.name ≡ true
    → business (m ++ (req, p) ∷ []) ≡ business m
unfolding business
business_last req p [] own = rw own refl
business_last req p (x ∷ m) own = ground (arith, business_last req p m own)

-- What goes out on connection `c` for a list of requests: each is packed under its own id.
unfoldable pub packets :
    (String → Option Fields → ℕ → Option (List ℕ)) → ℕ → List (ℕ × Pending) → List (ℕ × List ℕ)
packets pack c [] = []
packets pack c ((req, p) ∷ m) = elim (pack p.name p.param req) [
  | none ↦ packets pack c m
  | some bytes ↦ (c, bytes) ∷ packets pack c m
]

module _ (pack : String → Option Fields → ℕ → Option (List ℕ)) (o : Settings) where
  pub resend-pending : (c : Option ℕ) (m : List (ℕ × Pending)) → (resend pack c m).0 ≡ business m
  unfolding resend business
  resend-pending c [] = refl
  resend-pending c ((req, p) ∷ m) = ground (arith, resend-pending c m)

  transmissions-resend :
      (c : ℕ) (m : List (ℕ × Pending))
      → transmissions (resend pack (some c) m).1 ≡ packets pack c (business m)
  unfolding resend business transmissions send packets
  transmissions-resend c [] = refl
  transmissions-resend c ((req, p) ∷ m) = ground (
    arith,
    transmissions-resend c m,
    transmissions-append (send pack (some c) req p) (resend pack (some c) m).1,
  )

  -- A successful resume on the connection that the session holds: the pending business requests stay
  -- pending and are sent again in their order, each under its own id, and nothing else is sent;
  -- the new nonce is kept, the count and the request ids go on.
  pub resume_lem :
      (c : ℕ) (resp : Fields) (s : Session)
      → s.conn ≡ some c
      → is_ok resp ≡ true
      → let w = finish_resume pack o c (some resp) s in
        (w.1 ≡ done true)
        × (transmissions w.2 ≡ packets pack c (business s.pending))
        × ((w.0).pending ≡ business s.pending)
        × ((w.0).nonce ≡ get "nonce" resp)
        × ((w.0).recv ≡ s.recv)
        × ((w.0).next_req_id ≡ s.next_req_id)
        × ((w.0).is_online ≡ true)
  unfolding finish_resume resend_pending transmissions
  resume_lem c resp s held ok =
      rw (ok, held)
        (
          refl,
          transmissions-append (resend pack (some c) s.pending).1 (notify online ∷ [])
              ∙ (append-nil _ ∙ transmissions-resend c s.pending),
          resend-pending (some c) s.pending,
          refl,
          refl,
          refl,
          refl,
        )

  -- A response that is none, or that has another code than OK.
  abbrev pub fails : Option Fields → Bool
  fails none = true
  fails (some resp) = not (is_ok resp)

  -- The request that resumes the session of `s`.
  abbrev pub resumption : Session → Pending
  resumption s = record {
    name = "login.resume";
    param =
        some (
          entry "rid" s.rid (entry "nonce" s.nonce (entry "recv" (number (pos s.recv)) no_fields)));
  }

  -- On connection `d`, the session `s'` sends the request that resumes `s`, and waits for its response.
  abbrev pub Resumes : ℕ → ℕ → Session → Session → Type 0
  Resumes d req s s' =
      ((adopt pack o d s').1 ≡ waiting (resuming d req))
      × (transmissions (adopt pack o d s').2 ≡ packets pack d ((req, resumption s) ∷ []))
      × (lookup req ((adopt pack o d s').0).pending ≡ some (resumption s))

  transmissions-send :
      (d req ms : ℕ) (p : Pending)
      → transmissions (send pack (some d) req p ++ timeout_timer (some ms))
        ≡ packets pack d ((req, p) ∷ [])
  unfolding transmissions timeout_timer send packets
  transmissions-send d req ms p = elim (Option-cases (pack p.name p.param req)) [
    | inl thrown ↦ rw (send, packets, thrown)
    | inr (bytes, packed) ↦ rw (send, packets, packed)
  ]

  lookup-insert_self :
      (req : ℕ) (p : Pending) (m : List (ℕ × Pending)) → lookup req (insert req p m) ≡ some p
  unfolding lookup insert
  lookup-insert_self req p [] = ground arith
  lookup-insert_self req p ((j, q) ∷ m) = ground (arith, lookup-insert_self req p m)

  adopt-Resumes :
      (d req : ℕ) (s s' : Session)
      → s'.closed ≡ false
      → s'.nonce ≡ s.nonce
      → s'.rid ≡ s.rid
      → s'.recv ≡ s.recv
      → s'.next_req_id + 1 ≡ req
      → is_nullish s.nonce || is_nullish s.rid ≡ false
      → Resumes d req s s'
  unfolding adopt issue
  adopt-Resumes d req s s' open_ nonce rid recv e known =
      rw (open_, nonce, rid, known, recv, e)
        (
          refl,
          transmissions-send d req o.handshake_timeout_ms (resumption s),
          lookup-insert_self req (resumption s) s'.pending,
        )

  -- What a failed resume, and a login after it, leave as it was: the ids are `n` further.
  abbrev Unchanged : ℕ → Session → Session → Type 0
  Unchanged n s s' =
      (s'.closed ≡ s.closed)
      × (s'.nonce ≡ s.nonce)
      × (s'.rid ≡ s.rid)
      × (s'.recv ≡ s.recv)
      × (s'.next_req_id ≡ s.next_req_id + n)

  Unchanged-Resumes :
      (d n : ℕ) (s s' : Session)
      → Unchanged n s s'
      → s.closed ≡ false
      → is_nullish s.nonce || is_nullish s.rid ≡ false
      → Resumes d (s.next_req_id + n + 1) s s'
  Unchanged-Resumes d n s s' (closed, nonce, rid, recv, ids) open_ known =
      adopt-Resumes d (s.next_req_id + n + 1) s s' (closed ∙ open_) nonce rid recv
        (omega (arith, ids)) known

  finish_resume-fails :
      (c : ℕ) (v : Option Fields) (s : Session)
      → fails v ≡ true
      → (finish_resume pack o c v s).0 ≡ s
  unfolding finish_resume
  finish_resume-fails c none s h = refl
  finish_resume-fails c (some v) s h = ground arith

  finish_login-Unchanged :
      (c : ℕ) (w : Option Fields) (s : Session)
      → fails w ≡ true
      → Unchanged 0 s (finish_login c w s).0
  unfolding finish_login drop
  finish_login-Unchanged c none s h = ground arith
  finish_login-Unchanged c (some w) s h = ground arith

  send_login-Unchanged :
      (c : ℕ) (param : Fields) (s : Session) → Unchanged 1 s (send_login pack o c (some param) s).0
  unfolding send_login issue
  send_login-Unchanged c param s = (refl, refl, refl, refl, refl)

  no_login-Unchanged : (c : ℕ) (s : Session) → Unchanged 0 s (send_login pack o c none s).0
  unfolding send_login drop
  no_login-Unchanged c s = ground arith

  Unchanged-trans :
      (m n : ℕ) (r s t : Session) → Unchanged m r s → Unchanged n s t → Unchanged (m + n) r t
  Unchanged-trans m n r s t (a, b, c, d, e) (a', b', c', d', e') =
      (a' ∙ a, b' ∙ b, c' ∙ c, d' ∙ d, omega (arith, e, e'))

  -- Where a resume fails, and the login after it fails too, because it is refused, is not answered in
  -- time, or has no parameter, then on the next connection the client sends `login.resume` again, under
  -- the next id, with the role, the nonce that the server has refused, and the count, and waits for
  -- the response.
  pub resume_retried :
      (c d : ℕ) (v w : Option Fields) (param : Fields) (s : Session)
      → fails v ≡ true
      → fails w ≡ true
      → s.closed ≡ false
      → is_nullish s.nonce || is_nullish s.rid ≡ false
      → let s1 = (finish_resume pack o c v s).0 in
        let sent = (send_login pack o c (some param) s1).0 in
        Resumes d (s.next_req_id + 2) s (finish_login c w sent).0
        × Resumes d (s.next_req_id + 1) s (send_login pack o c none s1).0
  resume_retried c d v w param s h k open_ known =
      let sent = (send_login pack o c (some param) s).0 in
      let two : s.next_req_id + 1 + 1 ≡ s.next_req_id + 2 = omega arith in
      let one : s.next_req_id + 0 + 1 ≡ s.next_req_id + 1 = omega arith in
      rw (finish_resume-fails c v s h) (
        subst (λ req. Resumes d req s (finish_login c w sent).0) two
            (Unchanged-Resumes d 1 s (finish_login c w sent).0
              (Unchanged-trans 1 0 s sent (finish_login c w sent).0 (send_login-Unchanged c param s)
                (finish_login-Unchanged c w sent k))
              open_ known),
        subst (λ req. Resumes d req s (send_login pack o c none s).0) one
            (Unchanged-Resumes d 0 s (send_login pack o c none s).0 (no_login-Unchanged c s) open_
              known),
      )

-- A successful login starts the count anew, answers every pending request with null, and lets the
-- request ids go on.
pub login_lem :
    (c : ℕ) (resp : Fields) (s : Session)
    → is_ok resp ≡ true
    → let w = finish_login c (some resp) s in
      (w.1 ≡ done true)
      × (answers w.2 ≡ nulls s.pending)
      × ((w.0).pending ≡ [])
      × ((w.0).recv ≡ 0)
      × ((w.0).rid ≡ or_null (get "rid" resp))
      × ((w.0).nonce ≡ or_null (get "nonce" resp))
      × ((w.0).next_req_id ≡ s.next_req_id)
unfolding finish_login fail_pending answers
login_lem c resp s ok = rw ok (
  refl,
  answers-append (resolve_all s.pending) (notify online ∷ [])
      ∙ (append-nil _ ∙ answers-resolve_all s.pending),
  refl,
  refl,
  refl,
  refl,
  refl,
)

-- After a successful login any response to an earlier request is counted when it arrives on the
-- same connection, a late response of `login.resume` too, which the server does not count.
pub late_response_counted :
    (c : ℕ) (resp : Fields) (r : CodecResponse) (s : Session)
    → s.conn ≡ some c
    → is_ok resp ≡ true
    → (on_message c (some (some (response r))) (finish_login c (some resp) s).0).0.recv ≡ 1
unfolding on_message finish_login fail_pending lookup
late_response_counted c resp r s held ok = rw (ok, held) (ground arith)
