-- ===== src/Session/Liveness/Harmless.antt =====
-- sdk/ts/src/session.ts: what leaves the connection and the pending requests as they are: a request, the
-- end of a sleep, and the loops where nothing answers.
use skyext.Prelude.{
  ℕ, ◌+◌, ◌≡◌, refl, ◌∙◌, String, Bool, true, false, ◌||◌, not, Option, none, some, List, [], ◌∷◌,
  ◌++◌, arith, lookup, insert, count, keys, insert_new, if◌then◌else◌, Bool-cases, inl, inr,
}
use skyext.Session.Accounts.{resolves, resolves-append, resolves-send, resolves-timeout_timer}
use skyext.Session.Tasks.{
  Task, step_task, supervise_on, ping, beat, supervising, starting, supervisor_sleep,
  heartbeat_sleep, heartbeat_ping, finished, resolving, connecting, resuming, asking, logging_in,
  woke,
}
use skyext.Session.State.{Session, Settings, Pending, Effect}
use skyext.Session.{issue, send, finish, contains, sleep}
use skyext.Value.{Fields, no_fields, entry, number, pos}

-- What is pending stays pending.
abbrev pub Keeps : List (ℕ × Pending) → List (ℕ × Pending) → Type 0
Keeps m m' = (req : ℕ) (p : Pending) → lookup req m ≡ some p → lookup req m' ≡ some p

-- The credential, the count and the pending requests.
abbrev pub Kept : Session → Session → Type 0
Kept s s' =
    (s'.closed ≡ s.closed)
    × (s'.nonce ≡ s.nonce)
    × (s'.rid ≡ s.rid)
    × (s'.recv ≡ s.recv)
    × Keeps s.pending s'.pending

pub Kept-refl : (s : Session) → Kept s s
Kept-refl s = (refl, refl, refl, refl, λ req p h. h)

pub Kept-trans : (r s t : Session) → Kept r s → Kept s t → Kept r t
Kept-trans r s t (a, b, c, d, e) (a', b', c', d', e') =
    (a' ∙ a, b' ∙ b, c' ∙ c, d' ∙ d, λ req p h. e' req p (e req p h))

-- The connection too, and no promise is resolved.
abbrev pub Harmless : Session → Session × List Effect → Type 0
Harmless s (s', es) =
    (s'.conn ≡ s.conn)
    × (s'.is_online ≡ s.is_online)
    × Kept s s'
    × ((req : ℕ) → resolves req es ≡ 0)

same-Harmless : (s : Session) → Harmless s (s, [])
unfolding resolves
same-Harmless s = (refl, refl, Kept-refl s, λ req. refl)

append-Keeps : (m n : List (ℕ × Pending)) → Keeps m (m ++ n)
unfolding lookup
append-Keeps [] n req p h = cc
append-Keeps ((j, w) ∷ m) n req p h =
    let rest : lookup req m ≡ some p → lookup req (m ++ n) ≡ some p = append-Keeps m n req p in
    ground (arith, rest)

insert-Keeps :
    (k : ℕ) (v : Pending) (m : List (ℕ × Pending)) → count k (keys m) ≡ 0 → Keeps m (insert k v m)
insert-Keeps k v m new = rw (insert_new k v m new) (append-Keeps m ((k, v) ∷ []))

pub finish-Harmless : (w : ℕ) (s : Session) → Harmless s (finish w s)
unfolding finish resolves
finish-Harmless w s = elim (Bool-cases (contains s.wakers w)) [
  | inl there ↦ rw there (refl, refl, Kept-refl s, λ req. refl)
  | inr gone ↦ rw gone (same-Harmless s)
]

-- A step that leaves one task.
abbrev pub Single : Session → Session × List Task × List Effect → Type 0
Single s w = Harmless s (w.0, w.2) × (u : Task) × (w.1 ≡ u ∷ [])

Single-if :
    (b : Bool) (s : Session) (w x : Session × List Task × List Effect)
    → Single s w
    → Single s x
    → Single s (if b then w else x)
Single-if true s w x h k = h
Single-if false s w x h k = k

module _ (pack : String → Option Fields → ℕ → Option (List ℕ)) (o : Settings) where
  pub issue-Harmless :
      (name : String) (param : Option Fields) (timeout_ms : Option ℕ) (s : Session)
      → count (s.next_req_id + 1) (keys s.pending) ≡ 0
      → let w = issue pack name param timeout_ms s in Harmless s (w.0, w.2)
  unfolding issue
  issue-Harmless name param timeout_ms s new =
      let req = s.next_req_id + 1 in
      let p : Pending = record { name = name; param = param } in
      (
        refl,
        refl,
        (refl, refl, refl, refl, insert-Keeps req p s.pending new),
        λ q.
            resolves-append q (send pack s.conn req p) _
            ∙ omega (arith, resolves-send pack q s.conn req p, resolves-timeout_timer q timeout_ms),
      )

  sleep-Harmless : (ms : ℕ) (s : Session) → let w = sleep ms s in Harmless s (w.0, w.2)
  unfolding sleep resolves
  sleep-Harmless ms s = (refl, refl, Kept-refl s, λ req. refl)

  beat-Single : (m : ℕ) (s : Session) → Single s (beat pack o m s [])
  unfolding beat
  beat-Single m s =
      Single-if s.closed s _ _ (same-Harmless s, _, refl)
        (sleep-Harmless o.ping_interval_ms s, _, refl)

  ping-Single :
      (m : ℕ) (s : Session)
      → count (s.next_req_id + 1) (keys s.pending) ≡ 0
      → Single s (ping pack o m s)
  unfolding ping
  ping-Single m s new = Single-if (s.closed || not s.is_online) s _ _ (beat-Single m s) (
    issue-Harmless "login.ping" (some (entry "recv" (number (pos s.recv)) no_fields))
        (some o.ping_interval_ms) s new,
    _,
    refl,
  )

  supervise_on-Single :
      (b : Bool) (c : Option ℕ) (s : Session) → Single s (supervise_on pack o b c s)
  unfolding supervise_on
  supervise_on-Single true c s = (same-Harmless s, _, refl)
  supervise_on-Single false none s = (same-Harmless s, _, refl)
  supervise_on-Single false (some c) s = (sleep-Harmless o.reconnect_delay_ms s, _, refl)

  -- A sleep that is over, in any task.
  pub woke-Single :
      (t : Task) (trace : List Effect) (s : Session)
      → count (s.next_req_id + 1) (keys s.pending) ≡ 0
      → Single s (step_task pack o t woke trace s)
  unfolding step_task
  woke-Single (starting resolving) trace s new = (same-Harmless s, _, refl)
  woke-Single (starting (connecting urls)) trace s new = (same-Harmless s, _, refl)
  woke-Single (starting (resuming c req)) trace s new = (same-Harmless s, _, refl)
  woke-Single (starting (asking c)) trace s new = (same-Harmless s, _, refl)
  woke-Single (starting (logging_in c req)) trace s new = (same-Harmless s, _, refl)
  woke-Single (supervising resolving) trace s new = (same-Harmless s, _, refl)
  woke-Single (supervising (connecting urls)) trace s new = (same-Harmless s, _, refl)
  woke-Single (supervising (resuming c req)) trace s new = (same-Harmless s, _, refl)
  woke-Single (supervising (asking c)) trace s new = (same-Harmless s, _, refl)
  woke-Single (supervising (logging_in c req)) trace s new = (same-Harmless s, _, refl)
  woke-Single (supervisor_sleep w) trace s new =
      Single-if (contains s.wakers w) s _ _ (same-Harmless s, _, refl)
        (supervise_on-Single s.closed s.conn s)
  woke-Single (heartbeat_sleep m w) trace s new =
      Single-if (contains s.wakers w) s _ _ (same-Harmless s, _, refl) (ping-Single m s new)
  woke-Single (heartbeat_ping m c req) trace s new = (same-Harmless s, _, refl)
  woke-Single finished trace s new = (same-Harmless s, _, refl)
