-- ===== src/Session/Failing.antt =====
-- sdk/ts/src/codec.ts and session.ts: packets on which the vendored library throws.
use skyext.Bytes.{to_number_array}
use skyext.Codec.Dispatch.{HostResult, recover_dispatch, dispatch}
use skyext.Codec.{CodecResult, request, response}
use skyext.Prelude.{ℕ, ◌+◌, ◌≡◌, refl, Option, none, some, List, [], lookup}
use skyext.Session.State.{Session, Pending}
use skyext.Session.{handle, handle_id, handle_response}
use skyext.Value.{ℤ, pos, negsuc, Fields}

-- The pending request of an id.
abbrev pub pending_of : ℤ → Session → Option Pending
pending_of (pos req) s = lookup req s.pending
pending_of (negsuc n) s = none

-- No request waits for the packet.
abbrev pub Unclaimed : Option CodecResult → Session → Type 0
Unclaimed none s = Unit {0}
Unclaimed (some (request r)) s = ⊥
Unclaimed (some (response r)) s = pending_of r.session s ≡ none

handle_id-Unclaimed :
    (k : ℤ) (args : Option Fields) (s : Session)
    → pending_of k s ≡ none
    → handle_id k args s ≡ (record s { recv = s.recv + 1 }, [])
unfolding handle_id
handle_id-Unclaimed (pos req) args s h = rw (h, handle_response)
handle_id-Unclaimed (negsuc n) args s h = refl

handle-Unclaimed :
    (r : Option CodecResult) (s : Session)
    → Unclaimed r s
    → handle r s ≡ (record s { recv = s.recv + 1 }, [])
unfolding handle
handle-Unclaimed none s h = refl
handle-Unclaimed (some (request r)) s h = absurd h
handle-Unclaimed (some (response r)) s h = handle_id-Unclaimed r.session r.args s h

module _ (encode decode : List ℕ → List ℕ) {H : Type 0}
    (host_dispatch : List ℕ → H → Option HostResult × H)
    (read_header : List ℕ → Option (Option Fields)) where
  -- A packet on which the library throws is counted once, calls nothing back and changes nothing else,
  -- if no request waits for the session that its header, where it can be read, names.
  pub handle-dispatch :
      (b : List ℕ) (h : H) (s : Session)
      → (host_dispatch b h).0 ≡ none
      → Unclaimed (recover_dispatch (read_header b)) s
      → handle (dispatch encode decode host_dispatch read_header b h).0 s
        ≡ (record s { recv = s.recv + 1 }, [])
  unfolding dispatch to_number_array
  handle-dispatch b h s throws unclaimed =
      rw throws (handle-Unclaimed (recover_dispatch (read_header b)) s unclaimed)
