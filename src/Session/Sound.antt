-- ===== src/Session/Sound.antt =====
-- sdk/ts/src/session.ts: the connection of a closed client and the numbers of the sleeps, over the
-- synchronous methods.
use skyext.Codec.{CodecResult, request, response}
use skyext.Prelude.{
  ℕ, ◌+◌, ◌≡◌, true, Option, none, some, List, [], ◌∷◌, arith, All, All-snoc, ◌<◌, Option-cases,
  inl, inr, lookup,
}
use skyext.Session.State.{Session}
use skyext.Session.{drop, handle, handle_id, handle_response, on_message, finish, remove, sleep}
use skyext.Value.{ℤ, pos, negsuc, Fields}

-- The numbers of sleeps below `n`.
abbrev pub Below : ℕ → List ℕ → Type 0
Below n = All (λ w. w < n)

-- A closed client has no connection, and a sleep has a number of its own.
abbrev pub Sound : Session → Type 0
Sound s = (s.closed ≡ true → s.conn ≡ none) × Below s.sleeps s.wakers

pub Below-mono : (n : ℕ) (ws : List ℕ) → Below n ws → Below (n + 1) ws
Below-mono n [] h = tt
Below-mono n (w ∷ ws) h = (omega arith, Below-mono n ws h.1)

remove-Below : (n w : ℕ) (ws : List ℕ) → Below n ws → Below n (remove w ws)
unfolding remove
remove-Below n w [] h = tt
remove-Below n w (x ∷ ws) h = ground (arith, remove-Below n w ws)

pub sleep-Sound : (ms : ℕ) (s : Session) → Sound s → Sound (sleep ms s).0
unfolding sleep
sleep-Sound ms s h = (
  h.0,
  All-snoc (λ w. w < s.sleeps + 1) s.wakers s.sleeps (Below-mono s.sleeps s.wakers h.1)
      (omega arith),
)

pub drop-Sound : (c : Option ℕ) (s : Session) → Sound s → Sound (drop c s).0
unfolding drop
drop-Sound none s h = h
drop-Sound (some c) s h = ground arith

handle_id-Sound :
    (k : ℤ) (args : Option Fields) (s : Session) → Sound s → Sound (handle_id k args s).0
unfolding handle_id
handle_id-Sound (pos n) args s h = elim (Option-cases (lookup n s.pending)) [
  | inl missing ↦ rw (missing, handle_response) h
  | inr (p, there) ↦ rw (there, handle_response) h
]
handle_id-Sound (negsuc n) args s h = h

handle-Sound : (r : Option CodecResult) (s : Session) → Sound s → Sound (handle r s).0
unfolding handle
handle-Sound none s h = h
handle-Sound (some (request r)) s h = h
handle-Sound (some (response r)) s h = handle_id-Sound r.session r.args s h

pub on_message-Sound :
    (c : ℕ) (r : Option (Option CodecResult)) (s : Session) → Sound s → Sound (on_message c r s).0
unfolding on_message
on_message-Sound c none s h = h
on_message-Sound c (some r) s h = ground (arith, handle-Sound r s h)

pub finish-Sound : (w : ℕ) (s : Session) → Sound s → Sound (finish w s).0
unfolding finish
finish-Sound w s h = ground (arith, remove-Below s.sleeps w s.wakers h.1)
