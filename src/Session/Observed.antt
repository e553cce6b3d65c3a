-- ===== src/Session/Observed.antt =====
-- sdk/ts/src/session.ts: what can be seen of a session's effects: packets on the wire and answers.
use skyext.Prelude.{ℕ, ◌≡◌, refl, ap₂, Option, none, List, [], ◌∷◌, ◌++◌, map}
use skyext.Session.State.{Pending, Effect, transmit, resolve}
use skyext.Session.{resolve_all}
use skyext.Value.{Fields}

-- What the effects put on the wire.
unfoldable pub transmissions : List Effect → List (ℕ × List ℕ)
transmissions [] = []
transmissions (transmit c bytes ∷ es) = (c, bytes) ∷ transmissions es
transmissions (_ ∷ es) = transmissions es

pub transmissions-append :
    (es fs : List Effect) → transmissions (es ++ fs) ≡ transmissions es ++ transmissions fs
unfolding transmissions
transmissions-append [] fs = refl
transmissions-append (transmit c bytes ∷ es) fs = ap₂ ◌∷◌ refl (transmissions-append es fs)
transmissions-append (e ∷ es) fs = transmissions-append es fs

-- The promises that the effects resolve.
unfoldable pub answers : List Effect → List (ℕ × Option Fields)
answers [] = []
answers (resolve req v ∷ es) = (req, v) ∷ answers es
answers (_ ∷ es) = answers es

pub answers-append : (es fs : List Effect) → answers (es ++ fs) ≡ answers es ++ answers fs
unfolding answers
answers-append [] fs = refl
answers-append (resolve req v ∷ es) fs = ap₂ ◌∷◌ refl (answers-append es fs)
answers-append (e ∷ es) fs = answers-append es fs

-- Each of the requests with the answer null.
abbrev pub nulls : List (ℕ × Pending) → List (ℕ × Option Fields)
nulls = map (λ e. (e.0, none))

pub answers-resolve_all : (m : List (ℕ × Pending)) → answers (resolve_all m) ≡ nulls m
unfolding answers resolve_all
answers-resolve_all [] = refl
answers-resolve_all ((req, p) ∷ m) = ap₂ ◌∷◌ refl (answers-resolve_all m)
