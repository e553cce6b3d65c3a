-- ===== src/Session/Accounts.antt =====
-- sdk/ts/src/session.ts: what becomes of a request. Every id that was given out is either pending or
-- was resolved exactly once.
use skyext.Codec.{CodecResult, request, response}
use skyext.Prelude.{
  ℕ, ◌+◌, ◌≡◌, refl, String, ◌&&◌, Option, none, some, List, [], ◌∷◌, ◌++◌, arith, if◌then◌else◌,
  ◌==◌, leb, count, count-append, keys, lookup, insert, count-keys-erase, insert_new, keys-append,
  Bool-cases, inl, inr,
}
use skyext.Session.State.{Session, Pending, Effect, resolve}
use skyext.Session.{
  resolve_all, wake_all, close_current, drop, close, fail_pending, handle_response, handle_id,
  handle, is_current, on_message, finish, send, timeout_timer, issue, resend, resend_pending,
  uncounted,
}
use skyext.Value.{ℤ, pos, negsuc, Fields}

-- How often the effects resolve the promise of request `n`.
unfoldable pub resolves : ℕ → List Effect → ℕ
resolves n [] = 0
resolves n (resolve r v ∷ es) = (if n == r then 1 else 0) + resolves n es
resolves n (_ ∷ es) = resolves n es

pub resolves-append :
    (n : ℕ) (es fs : List Effect) → resolves n (es ++ fs) ≡ resolves n es + resolves n fs
unfolding resolves
resolves-append n [] fs = omega arith
resolves-append n (resolve r v ∷ es) fs = omega (arith, resolves-append n es fs)
resolves-append n (e ∷ es) fs = resolves-append n es fs

-- Whether the id `n` was given out.
abbrev pub made : ℕ → Session → ℕ
made n s = if leb 1 n && leb n s.next_req_id then 1 else 0

-- The requests that wait and those that were resolved before, `r`, are the ones given out.
pub record Accounts (r : ℕ → ℕ) (s : Session) : Type 0 where
  pub balance : (n : ℕ) → count n (keys s.pending) + r n ≡ made n s

abbrev pub more : (ℕ → ℕ) → List Effect → ℕ → ℕ
more r es n = r n + resolves n es

-- An operation that gives out no id.
abbrev pub Settles : Session → Session × List Effect → Type 0
Settles s (s', es) =
    (s'.next_req_id ≡ s.next_req_id)
    × ((n : ℕ) → count n (keys s'.pending) + resolves n es ≡ count n (keys s.pending))

resolves-resolve_all :
    (n : ℕ) (m : List (ℕ × Pending)) → resolves n (resolve_all m) ≡ count n (keys m)
unfolding resolves resolve_all count keys
resolves-resolve_all n [] = refl
resolves-resolve_all n ((k, p) ∷ m) = omega (arith, resolves-resolve_all n m)

resolves-wake_all : (n : ℕ) (ws : List ℕ) → resolves n (wake_all ws) ≡ 0
unfolding resolves wake_all
resolves-wake_all n [] = refl
resolves-wake_all n (w ∷ ws) = resolves-wake_all n ws

resolves-close_current : (n : ℕ) (c : Option ℕ) → resolves n (close_current c) ≡ 0
unfolding resolves close_current
resolves-close_current n none = refl
resolves-close_current n (some c) = refl

pub resolves-timeout_timer : (n : ℕ) (t : Option ℕ) → resolves n (timeout_timer t) ≡ 0
unfolding resolves timeout_timer
resolves-timeout_timer n none = refl
resolves-timeout_timer n (some ms) = refl

pub drop-Settles : (c : Option ℕ) (s : Session) → Settles s (drop c s)
unfolding drop resolves
drop-Settles none s = (refl, λ n. omega arith)
drop-Settles (some c) s = (ground arith, λ n. ground arith)

pub fail_pending-Settles : (s : Session) → Settles s (fail_pending s)
unfolding fail_pending count keys
fail_pending-Settles s = (refl, λ n. omega (arith, resolves-resolve_all n s.pending))

pub close-Settles : (s : Session) → Settles s (close s)
unfolding close count keys
close-Settles s = (
  refl,
  λ n. omega (
    arith,
    resolves-append n (resolve_all s.pending) (close_current s.conn ++ wake_all s.wakers),
    resolves-append n (close_current s.conn) (wake_all s.wakers),
    resolves-resolve_all n s.pending,
    resolves-close_current n s.conn,
    resolves-wake_all n s.wakers,
  ),
)

pub finish-Settles : (w : ℕ) (s : Session) → Settles s (finish w s)
unfolding finish resolves
finish-Settles w s = (ground arith, λ n. ground arith)

handle_response-Settles :
    (req : ℕ) (args : Option Fields) (p : Option Pending) (s : Session)
    → lookup req s.pending ≡ p
    → Settles s (handle_response req args p s)
unfolding handle_response resolves
handle_response-Settles req args none s e = (refl, λ n. omega arith)
handle_response-Settles req args (some p) s e =
    (refl, λ n. omega (arith, count-keys-erase n req s.pending p e))

handle_id-Settles : (k : ℤ) (args : Option Fields) (s : Session) → Settles s (handle_id k args s)
unfolding handle_id resolves
handle_id-Settles (pos req) args s = handle_response-Settles req args _ s refl
handle_id-Settles (negsuc n) args s = (refl, λ m. omega arith)

pub handle-Settles : (r : Option CodecResult) (s : Session) → Settles s (handle r s)
unfolding handle resolves
handle-Settles none s = (refl, λ n. omega arith)
handle-Settles (some (request r)) s = (refl, λ n. omega arith)
handle-Settles (some (response r)) s = handle_id-Settles r.session r.args s

pub on_message-Settles :
    (c : ℕ) (r : Option (Option CodecResult)) (s : Session) → Settles s (on_message c r s)
unfolding on_message resolves
on_message-Settles c none s = (refl, λ n. omega arith)
on_message-Settles c (some r) s = elim (Bool-cases (is_current s.conn c)) [
  | inl now ↦ rw now (handle-Settles r s)
  | inr old ↦ rw old (refl, λ n. omega arith)
]

-- The accounts after an operation that gives out no id.
pub Accounts-Settles :
    {r : ℕ → ℕ} {s : Session} (w : Session × List Effect)
    → Settles s w
    → Accounts r s
    → Accounts (more r w.1) w.0
Accounts-Settles {r} {s} (s', es) h a = record {
  balance = λ n. ground (arith, h.0, h.1 n, a.balance n);
}

module _ (pack : String → Option Fields → ℕ → Option (List ℕ)) where
  pub resolves-send :
      (n : ℕ) (c : Option ℕ) (req : ℕ) (p : Pending) → resolves n (send pack c req p) ≡ 0
  unfolding send resolves
  resolves-send n none req p = refl
  resolves-send n (some c) req p = ground arith

  resend-count :
      (c : Option ℕ) (m : List (ℕ × Pending)) (n : ℕ)
      → count n (keys (resend pack c m).0) + resolves n (resend pack c m).1 ≡ count n (keys m)
  unfolding resend count keys resolves
  resend-count c [] n = refl
  resend-count c ((k, p) ∷ m) n = elim (Bool-cases (uncounted p.name)) [
    | inl h ↦ rw h (omega (arith, resend-count c m n))
    | inr h ↦ rw h (
        omega (
          arith,
          resend-count c m n,
          resolves-send n c k p,
          resolves-append n (send pack c k p) (resend pack c m).1,
        ))
  ]

  pub resend_pending-Settles : (s : Session) → Settles s (resend_pending pack s)
  unfolding resend_pending
  resend_pending-Settles s = (refl, resend-count s.conn s.pending)

  -- A request is given the next id.
  pub issue-Accounts :
      {r : ℕ → ℕ} {s : Session} (name : String) (param : Option Fields) (timeout_ms : Option ℕ)
      → Accounts r s
      → Accounts
          (more r (issue pack name param timeout_ms s).2)
          (issue pack name param timeout_ms s).0
  unfolding issue count keys
  issue-Accounts {r} {s} name param timeout_ms a = record { balance = balance' }
    where
      req : ℕ
      req = s.next_req_id + 1

      p : Pending
      p = record { name = name; param = param }

      fresh : count req (keys s.pending) ≡ 0
      fresh = ground (arith, a.balance req)

      added :
          (n : ℕ)
          → count n (keys (insert req p s.pending)) ≡ count n (keys s.pending) + count n (req ∷ [])
      added n = rw (insert_new req p s.pending fresh, keys-append, count-append, keys)

      balance' :
          (n : ℕ)
          → count n (keys (insert req p s.pending))
              + (r n + resolves n (send pack s.conn req p ++ timeout_timer timeout_ms))
            ≡ (if leb 1 n && leb n req then 1 else 0)
      balance' n =
          rw (added n, resolves-append n (send pack s.conn req p), resolves-send n s.conn req p)
            (ground (arith, a.balance n, resolves-timeout_timer n timeout_ms))
