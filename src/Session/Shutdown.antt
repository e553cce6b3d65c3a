-- ===== src/Session/Shutdown.antt =====
-- sdk/ts/src/session.ts: `close`, and connections that the session no longer holds.
use skyext.Codec.{CodecResult}
use skyext.Prelude.{
  ℕ, ◌≡◌, refl, String, Option, none, some, List, [], ◌∷◌, ◌++◌, arith, ◌∙◌, append-nil, ap, All,
}
use skyext.Session.Observed.{answers, answers-append, answers-resolve_all, nulls}
use skyext.Session.Tasks.{
  System, supervisor_sleep, heartbeat_sleep, finished, woke, step_task, ping,
}
use skyext.Session.Away.{Away, Avoids, Away-mute, run_all-Away}
use skyext.Session.State.{Session, Settings, Effect}
use skyext.Session.System.{Event, call_reconnect, lost, step, run_all}
use skyext.Session.{
  resolve_all, wake_all, close_current, close, drop, reconnect, on_message, on_closed, contains,
}
use skyext.Value.{Fields}

answers-wake_all : (ws : List ℕ) → answers (wake_all ws) ≡ []
unfolding answers wake_all
answers-wake_all [] = refl
answers-wake_all (w ∷ ws) = answers-wake_all ws

answers-close_current : (c : Option ℕ) (ws : List ℕ) → answers (close_current c ++ wake_all ws) ≡ []
unfolding answers close_current
answers-close_current none ws = answers-wake_all ws
answers-close_current (some c) ws = answers-wake_all ws

reconnect-on_closed : (c : ℕ) (s : Session) → s.conn ≡ some c → reconnect s ≡ on_closed c s
unfolding reconnect on_closed
reconnect-on_closed c s held = ap (λ d. drop d s) held

reconnect-Away : (c : ℕ) (s : Session) → s.conn ≡ some c → Away c (reconnect s).0
unfolding reconnect drop
reconnect-Away c s held = rw held (ground arith)

module _ (pack : String → Option Fields → ℕ → Option (List ℕ)) (o : Settings) where
  -- `close` answers every pending request with null and gives up the connection; each loop that
  -- sleeps ends at its next step, does nothing more and starts no new timer.
  pub close_lem :
      (s : Session) (misses w : ℕ) (trace : List Effect)
      → let s' = (close s).0 in
        (answers (close s).1 ≡ nulls s.pending)
        × (s'.pending ≡ [])
        × (s'.conn ≡ none)
        × (step_task pack o (supervisor_sleep w) woke trace s' ≡ (s', finished ∷ [], []))
        × (step_task pack o (heartbeat_sleep misses w) woke trace s' ≡ (s', finished ∷ [], []))
  unfolding close step_task contains ping
  close_lem s misses w trace = (
    answers-append (resolve_all s.pending) (close_current s.conn ++ wake_all s.wakers)
        ∙ (ap (◌++◌ (answers (resolve_all s.pending))) (answers-close_current s.conn s.wakers)
            ∙ (append-nil _ ∙ answers-resolve_all s.pending)),
    refl,
    refl,
    refl,
    refl,
  )

  -- `reconnect` leaves the session as the loss of its connection `c` does. After that, whatever happens
  -- except that a dial gives `c` itself again, no message of `c` and no loss of `c` does anything: not
  -- while there is no connection, and not when the session holds another one.
  pub dropped_mute :
      (y : System) (c : ℕ) (es : List Event) (r : Option (Option CodecResult))
      → y.session.conn ≡ some c
      → All (Avoids c) es
      → let z = step pack o call_reconnect y in
        let s = (run_all pack o es z).session in
        (z.session ≡ (step pack o (lost c) y).session)
        × (on_message c r s ≡ (s, []))
        × (on_closed c s ≡ (s, []))
  unfolding step
  dropped_mute y c es r held avoids =
      let z = step pack o call_reconnect y in
      let away : Away c z.session = reconnect-Away c y.session held in
      let (silent, kept) =
        Away-mute c r (run_all pack o es z).session (run_all-Away pack o c es z avoids away) in
      (ap (λ w. w.0) (reconnect-on_closed c y.session held), silent, kept)
