-- ===== src/Session/Counting.antt =====
-- sdk/ts/src/session.ts: the count of downstream packets, against the server's. The session layer of the
-- server (lualib/skyext/entity/session.lua) counts every packet it sends, but for the responses to
-- the two requests of its table; the login service answers `login.login` without it.
use skyext.Codec.{CodecResult, CodecRequest, request, response}
use skyext.Prelude.{
  ℕ, Bool, ◌||◌, str_eq, ◌+◌, ◌≤◌, ◌≡◌, ◌≢◌, refl, String, true, Option, none, some, List, [], ◌∷◌,
  arith, if◌then◌else◌, count, keys, lookup, erase, lookup-erase_ne, lookup-erase_self,
  count-keys-erase-le, erase_absent, ℕ_discrete, Bool-cases, inl, inr,
}
use skyext.Value.{pos, Fields}
use skyext.Session.State.{Session, Pending}
use skyext.Session.{handle_response, handle, uncounted}

-- A packet as the server sent it: bytes that the client cannot decode, a push, or the response to
-- a request of the given name.
pub data Downstream : Type 0 where
  garbled : Downstream
  pushed : CodecRequest → Downstream
  answer : String → ℕ → Option Fields → Downstream

-- What `codec.dispatch` makes of it.
abbrev pub decoded : Downstream → Option CodecResult
decoded garbled = none
decoded (pushed r) = some (request r)
decoded (answer name req args) = some (response (record { session = pos req; args = args }))

-- The specification: the server's table `UNCOUNTED_RESPONSE`, and the request that is answered before
-- there is a session.
abbrev pub server_table : String → Bool
server_table name = str_eq name "login.resume" || str_eq name "login.ping"

unfoldable pub handshake : String → Bool
handshake name = str_eq name "login.login" || server_table name

abbrev pub server_count : Downstream → ℕ
server_count (answer name req args) = if handshake name then 0 else 1
server_count _ = 1

unfoldable pub sent : List Downstream → ℕ
sent [] = 0
sent (d ∷ ds) = server_count d + sent ds

-- The packets of one connection, in their order.
unfoldable pub receive : List Downstream → Session → Session
unfolding handle
receive [] s = s
receive (d ∷ ds) s = receive ds (handle (decoded d) s).0

-- A response belongs to the pending request of its id, if there is one; the request that a
-- handshake response belongs to is still pending.
abbrev pub Fits : List (ℕ × Pending) → Downstream → Type 0
Fits m (answer name req args) =
    ((p : Pending) → lookup req m ≡ some p → p.name ≡ name)
    × (handshake name ≡ true → lookup req m ≢ none)
Fits m _ = Unit {0}

-- The request of id `i` gets no handshake response.
abbrev pub Spares : ℕ → List Downstream → Type 0
Spares i [] = Unit {0}
Spares i (answer name req args ∷ ds) = (handshake name ≡ true → req ≢ i) × Spares i ds
Spares i (_ ∷ ds) = Spares i ds

-- Every packet fits, and a handshake request is answered once.
abbrev pub Consistent : List (ℕ × Pending) → List Downstream → Type 0
Consistent m [] = Unit {0}
Consistent m (answer name req args ∷ ds) =
    Fits m (answer name req args) × Spares req ds × Consistent m ds
Consistent m (d ∷ ds) = Consistent m ds

abbrev pub Distinct : List (ℕ × Pending) → Type 0
Distinct m = (n : ℕ) → count n (keys m) ≤ 1

Consistent-erase :
    (k : ℕ) (m : List (ℕ × Pending)) (ds : List Downstream)
    → Distinct m
    → Spares k ds
    → Consistent m ds
    → Consistent (erase k m) ds
Consistent-erase k m [] u h c = tt
Consistent-erase k m (garbled ∷ ds) u h c = Consistent-erase k m ds u h c
Consistent-erase k m (pushed r ∷ ds) u h c = Consistent-erase k m ds u h c
Consistent-erase k m (answer name req args ∷ ds) u h c = elim (ℕ_discrete req k) [
  | yes e ↦ (
    (λ p f. absurd (cc (f, lookup-erase_self k m (u k), e)), λ t. absurd (h.0 t e)),
    c.1,
    Consistent-erase k m ds u h.1 c.2,
  )
  | no e ↦ (
    (
      λ p f. (c.0).0 p (cc (f, lookup-erase_ne req k m e)),
      λ t f. (c.0).1 t (cc (f, lookup-erase_ne req k m e)),
    ),
    c.1,
    Consistent-erase k m ds u h.1 c.2,
  )
]

-- The client's list is the server's table with the login.
uncounted-handshake : (name : String) → uncounted name ≡ handshake name
unfolding uncounted handshake
uncounted-handshake name = ground arith

-- One response: the count and the pending requests after it.
handle-answer :
    (name : String) (req : ℕ) (args : Option Fields) (s : Session) (p : Option Pending)
    → lookup req s.pending ≡ p
    → Fits s.pending (answer name req args)
    → ((handle_response req args p s).0.recv ≡ s.recv + server_count (answer name req args))
      × ((handle_response req args p s).0.pending ≡ erase req s.pending)
unfolding handle_response
handle-answer name req args s none e f = elim (Bool-cases (handshake name)) [
  | inl h ↦ absurd (f.1 h e)
  | inr h ↦ rw h (omega arith, cc (erase_absent req s.pending e))
]
handle-answer name req args s (some p) e f =
    rw (f.0 p e, uncounted-handshake name) (ground arith, refl)

Distinct-erase : (k : ℕ) (m : List (ℕ × Pending)) → Distinct m → Distinct (erase k m)
Distinct-erase k m u n = omega (arith, u n, count-keys-erase-le n k m)

-- Where every pending id is pending once and the packets are consistent with the pending requests,
-- the client's count grows over any sequence of packets by exactly what the server's grows by: by one
-- for every packet but the responses to `login.login`, `login.resume` and `login.ping`.
pub recv-receive :
    (s : Session) (ds : List Downstream)
    → Distinct s.pending
    → Consistent s.pending ds
    → (receive ds s).recv ≡ s.recv + sent ds
unfolding receive handle sent
recv-receive s [] u c = omega arith
recv-receive s (garbled ∷ ds) u c =
    omega (arith, recv-receive (record s { recv = s.recv + 1 }) ds u c)
recv-receive s (pushed r ∷ ds) u c =
    omega (arith, recv-receive (record s { recv = s.recv + 1 }) ds u c)
recv-receive s (answer name req args ∷ ds) u c =
    let s' = (handle_response req args (lookup req s.pending) s).0 in
    let h = handle-answer name req args s (lookup req s.pending) refl c.0 in
    let rest =
      recv-receive s' ds (rw h.1 (Distinct-erase req s.pending u))
        (rw h.1 (Consistent-erase req s.pending ds u c.1 c.2)) in
    omega (arith, h.0, rest)
