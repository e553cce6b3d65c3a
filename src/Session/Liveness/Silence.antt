-- ===== src/Session/Liveness/Silence.antt =====
-- sdk/ts/src/session.ts: the steps of the heartbeat where nothing answers the ping.
use skyext.Prelude.{
  ℕ, ◌+◌, ◌≡◌, refl, ap, ◌∙◌, String, true, false, Option, none, some, List, [], ◌∷◌, ◌++◌, arith,
  ◌==◌, leb, insert,
}
use skyext.Session.Accounts.{resolves}
use skyext.Session.Sound.{Below}
use skyext.Session.Tasks.{
  step_task, settled, reply, pong_reply, heartbeat_sleep, heartbeat_ping, woke, timed_out,
}
use skyext.Session.State.{Session, Settings, Pending, Effect, set_timer, wake, close_conn, notify}
use skyext.Session.{drop, issue, send, timeout_timer, contains, remove, finish, sleep}
use skyext.Value.{Fields, no_fields, entry, number, pos, offline}

pub settled-none : (req : ℕ) (es : List Effect) → resolves req es ≡ 0 → settled req es ≡ none
unfolding resolves settled
settled-none req [] h = refl
settled-none req (Effect.resolve r v ∷ es) h = ground (arith, settled-none req es)
settled-none req (e ∷ es) h = settled-none req es h

reply-none :
    (req : ℕ) (trace : List Effect)
    → settled req trace ≡ none
    → reply timed_out req trace ≡ some none
unfolding reply
reply-none req trace h = rw (reply, h)

contains_last : (ws : List ℕ) (w : ℕ) → contains (ws ++ w ∷ []) w ≡ true
unfolding contains
contains_last [] w = ground arith
contains_last (x ∷ ws) w = ground (arith, contains_last ws w)

pub contains-Below : (ws : List ℕ) (w : ℕ) → Below w ws → contains ws w ≡ false
unfolding contains
contains-Below [] w h = refl
contains-Below (x ∷ ws) w h = ground (arith, contains-Below ws w h.1)

remove_last : (ws : List ℕ) (w : ℕ) → Below w ws → remove w (ws ++ w ∷ []) ≡ ws
unfolding remove
remove_last [] w h = ground arith
remove_last (x ∷ ws) w h =
    let other : (w == x) ≡ false = ground arith in rw (other, remove_last ws w h.1)

module _ (pack : String → Option Fields → ℕ → Option (List ℕ)) (o : Settings) where
  abbrev pub ping_call : Session → Pending
  ping_call s = record {
    name = "login.ping";
    param = some (entry "recv" (number (pos s.recv)) no_fields);
  }

  abbrev pub pinging : Session → Session
  pinging s = record s {
    next_req_id = s.next_req_id + 1;
    pending = insert (s.next_req_id + 1) (ping_call s) s.pending;
  }

  abbrev pub sleeping : Session → Session
  sleeping s = record s { wakers = s.wakers ++ s.sleeps ∷ []; sleeps = s.sleeps + 1 }

  pub ping_lem :
      (m w c : ℕ) (trace : List Effect) (s : Session)
      → contains s.wakers w ≡ false
      → s.closed ≡ false
      → s.is_online ≡ true
      → s.conn ≡ some c
      → step_task pack o (heartbeat_sleep m w) woke trace s ≡ (
        pinging s,
        heartbeat_ping m (some c) (s.next_req_id + 1) ∷ [],
        send pack (some c) (s.next_req_id + 1) (ping_call s)
            ++ timeout_timer (some o.ping_interval_ms),
      )
  unfolding step_task issue
  ping_lem m w c trace s over open_ on conn = rw (over, open_, on, conn)

  pub missed_lem :
      (m c req : ℕ) (trace : List Effect) (s : Session)
      → settled req trace ≡ none
      → s.closed ≡ false
      → leb o.ping_tolerance (m + 1) ≡ false
      → step_task pack o (heartbeat_ping m (some c) req) timed_out trace s
        ≡ (sleeping s, heartbeat_sleep (m + 1) s.sleeps ∷ [], set_timer o.ping_interval_ms ∷ [])
  unfolding step_task sleep
  missed_lem m c req trace s silent open_ few =
      ap (λ r. pong_reply pack o m (some c) req r s) (reply-none req trace silent) ∙ rw (few, open_)

  pub dropped_lem :
      (m c req : ℕ) (trace : List Effect) (s : Session)
      → settled req trace ≡ none
      → s.closed ≡ false
      → s.conn ≡ some c
      → leb o.ping_tolerance (m + 1) ≡ true
      → step_task pack o (heartbeat_ping m (some c) req) timed_out trace s ≡ (
        sleeping (record s { conn = none; is_online = false }),
        heartbeat_sleep 0 s.sleeps ∷ [],
        close_conn c ∷ notify offline ∷ set_timer o.ping_interval_ms ∷ [],
      )
  unfolding step_task sleep drop
  dropped_lem m c req trace s silent open_ conn many =
      let same : (c == c) ≡ true = ground arith in
      ap (λ r. pong_reply pack o m (some c) req r s) (reply-none req trace silent)
      ∙ rw (many, conn, same, open_)

  pub finish_lem :
      (s : Session)
      → Below s.sleeps s.wakers
      → finish s.sleeps (sleeping s) ≡ (record s { sleeps = s.sleeps + 1 }, wake s.sleeps ∷ [])
  unfolding finish
  finish_lem s below = rw (contains_last s.wakers s.sleeps, remove_last s.wakers s.sleeps below)
