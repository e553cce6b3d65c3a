-- ===== src/Transport/Callbacks.antt =====
-- sdk/ts/src/transport.ts: how often the connection calls back, and with what.
use skyext.Prelude.{
  ℕ, suc, ◌+◌, ◌≤◌, ◌≡◌, refl, Bool, true, false, none, some, List, [], ◌∷◌, ◌++◌, arith,
  if◌then◌else◌, ap, ◌∙◌,
}
use skyext.Transport.{
  Socket, Event, open_event, error_event, close_event, frame, call_send, call_close,
  register_message, register_closed, Action, deliver, notify_closed, fresh_socket, step, run,
}

-- How often the closed callback is called.
unfoldable pub closings : List Action → ℕ
closings [] = 0
closings (notify_closed ∷ as_) = suc (closings as_)
closings (_ ∷ as_) = closings as_

closings-append : (xs ys : List Action) → closings (xs ++ ys) ≡ closings xs + closings ys
unfolding closings
closings-append [] ys = omega arith
closings-append (notify_closed ∷ xs) ys = omega (arith, closings-append xs ys)
closings-append (x ∷ xs) ys = closings-append xs ys

-- How often a closed callback is registered.
unfoldable pub registrations : List Event → ℕ
registrations [] = 0
registrations (register_closed ∷ es) = suc (registrations es)
registrations (_ ∷ es) = registrations es

-- A callback that is registered and was not called yet.
abbrev pub owed : Socket → ℕ
owed s = if s.closed_notified then 0 else if s.has_closed_cb then 1 else 0

step-owed :
    (e : Event) (s : Socket)
    → closings (step e s).1 + owed (step e s).0 ≤ owed s + registrations (e ∷ [])
unfolding step closings registrations
step-owed open_event s = ground arith
step-owed error_event s = ground arith
step-owed close_event s = ground arith
step-owed (frame none) s = ground arith
step-owed (frame (some m)) s = ground arith
step-owed (call_send bytes) s = ground arith
step-owed call_close s = ground arith
step-owed register_message s = ground arith
step-owed register_closed s = ground arith

registrations-cons :
    (e : Event) (es : List Event)
    → registrations (e ∷ es) ≡ registrations (e ∷ []) + registrations es
unfolding registrations
registrations-cons register_closed es = omega arith
registrations-cons e es = omega arith

run-owed :
    (es : List Event) (s : Socket)
    → closings (run es s).1 + owed (run es s).0 ≤ owed s + registrations es
unfolding run closings registrations
run-owed [] s = omega arith
run-owed (e ∷ es) s = omega (
  arith,
  step-owed e s,
  run-owed es (step e s).0,
  registrations-cons e es,
  closings-append (step e s).1 (run es (step e s).0).1,
)

-- The frames that the message callback gets: every binary frame from its registration on.
unfoldable pub received : Bool → List Event → List (List ℕ)
received cb [] = []
received cb (register_message ∷ es) = received true es
received cb (frame (some bytes) ∷ es) =
    let rest = received cb es in if cb then bytes ∷ rest else rest
received cb (_ ∷ es) = received cb es

unfoldable pub delivered : List Action → List (List ℕ)
delivered [] = []
delivered (deliver bytes ∷ as_) = bytes ∷ delivered as_
delivered (_ ∷ as_) = delivered as_

delivered-append : (xs ys : List Action) → delivered (xs ++ ys) ≡ delivered xs ++ delivered ys
unfolding delivered
delivered-append [] ys = refl
delivered-append (deliver b ∷ xs) ys = ap (◌∷◌ b) (delivered-append xs ys)
delivered-append (x ∷ xs) ys = delivered-append xs ys

step-delivered :
    (e : Event) (es : List Event) (s : Socket)
    → delivered (step e s).1 ++ received ((step e s).0).has_message_cb es
      ≡ received s.has_message_cb (e ∷ es)
unfolding step delivered received
step-delivered open_event es s = refl
step-delivered error_event es s = ground arith
step-delivered close_event es s = ground arith
step-delivered (frame none) es s = refl
step-delivered (frame (some m)) es s = ground arith
step-delivered (call_send bytes) es s = refl
step-delivered call_close es s = refl
step-delivered register_message es s = refl
step-delivered register_closed es s = ground arith

run-delivered :
    (es : List Event) (s : Socket) → delivered (run es s).1 ≡ received s.has_message_cb es
unfolding run delivered received
run-delivered [] s = refl
run-delivered (e ∷ es) s =
    delivered-append (step e s).1 (run es (step e s).0).1
    ∙ (ap (◌++◌ (delivered (step e s).1)) (run-delivered es (step e s).0) ∙ step-delivered e es s)

-- Over any events of a new socket, the closed callback is called at most as often as one was
-- registered, and the message callback gets exactly the binary frames that arrive after it was
-- registered, in their order.
pub run-callbacks :
    (es : List Event)
    → (closings (run es fresh_socket).1 ≤ registrations es)
      × (delivered (run es fresh_socket).1 ≡ received false es)
run-callbacks es = (omega (arith, run-owed es fresh_socket), run-delivered es fresh_socket)
