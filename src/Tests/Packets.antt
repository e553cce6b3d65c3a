-- ===== src/Tests/Packets.antt =====
-- sdk/ts/src/bin.ts and codec.ts: bytes, values and packets that cannot be read.
use skyext.Bytes.{to_bytes, from_bytes, to_number_array, from_number_array, to_bytes-from_bytes}
use skyext.Codec.Dispatch.{HostResult, recover_dispatch, dispatch}
use skyext.Codec.Values.{plain, Texts, decode_deep-encode_deep}
use skyext.Codec.{encode_deep, decode_deep, numbers}
use skyext.Prelude.{ℕ, ◌≡◌, refl, arith, lookup, false, Option, none, some, List, [], ◌∷◌}
use skyext.Session.Failing.{handle-dispatch}
use skyext.Session.State.{Session, initial}
use skyext.Session.{handle}
use skyext.Value.{number, pos, text, bytes, arr, obj, no_items, item, Fields, no_fields, entry, get}

to_bytes-from_bytes_example :
    (to_bytes (from_bytes (0 ∷ 255 ∷ 16 ∷ [])) ≡ 0 ∷ 255 ∷ 16 ∷ [])
    × (from_bytes (to_bytes (0 ∷ 255 ∷ 16 ∷ [])) ≡ 0 ∷ 255 ∷ 16 ∷ [])
    × (from_number_array (to_number_array (0 ∷ 255 ∷ 16 ∷ [])) ≡ 0 ∷ 255 ∷ 16 ∷ [])
to_bytes-from_bytes_example =
    to_bytes-from_bytes (0 ∷ 255 ∷ 16 ∷ []) (omega arith, (omega arith, (omega arith, tt)))

-- UTF-8 keeps a text below 128 as it is.
abbrev ascii : List ℕ → List ℕ
ascii s = s

decode_deep-encode_deep_example :
    decode_deep ascii (
      encode_deep ascii (
        obj (
          entry "nonce"
            (bytes (1 ∷ 2 ∷ []))
            (entry "names" (arr (item (text (97 ∷ [])) no_items)) no_fields))))
    ≡ obj (
        entry "nonce"
          (arr (item (number (pos 1)) (item (number (pos 2)) no_items)))
          (entry "names" (arr (item (text (97 ∷ [])) no_items)) no_fields))
unfolding plain Texts numbers
decode_deep-encode_deep_example =
    decode_deep-encode_deep ascii ascii
      (obj (
        entry "nonce" (bytes (1 ∷ 2 ∷ []))
          (entry "names" (arr (item (text (97 ∷ [])) no_items)) no_fields)))
      (tt, ((((omega arith, tt), refl), tt), tt))

-- A host that knows no packet.
abbrev unknown : List ℕ → ℕ → Option HostResult × ℕ
unknown b h = (none, h)

-- The header of a response to request 9.
abbrev header : List ℕ → Option (Option Fields)
header b = some (some (entry "session" (number (pos 9)) no_fields))

abbrev waits_for_3 : Session
waits_for_3 = record initial {
  conn = some 1;
  closed = false;
  next_req_id = 3;
  pending = (3, record { name = "mail.list"; param = none }) ∷ [];
}

handle-dispatch_example :
    handle (dispatch ascii ascii unknown header (1 ∷ []) 0).0 waits_for_3
    ≡ (record waits_for_3 { recv = 1 }, [])
unfolding get recover_dispatch lookup
handle-dispatch_example =
    handle-dispatch ascii ascii unknown header (1 ∷ []) 0 waits_for_3 refl refl
