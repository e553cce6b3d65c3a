-- ===== src/Codec/Dispatch.antt =====
-- sdk/ts/src/codec.ts: `loadCodec`. Of the vendored sproto library it uses `createNew`, the host's
-- `dispatch` and the packing function of `attach`, and `unpack` and `decode` for a packet's header.
use skyext.Codec.{CodecResult, request, response, encode_fields, decode_fields}
use skyext.Md5.{md5_hex, sine_table}
use skyext.Prelude.{ℕ, String, Bool, false, Option, none, some, List, if◌then◌else◌}
use skyext.Bytes.{from_number_array, to_number_array}
use skyext.Value.{ℤ, Value, undefined, number, Fields, no_fields, get, is_truthy}

-- What `host.dispatch` returns; `is_request` is `r.type === "REQUEST"`.
pub record HostResult : Type 0 where
  pub is_request : Bool
  pub pname : Option String
  pub result : Option Fields
  pub response_func : Option (Option Fields → List ℕ)
  pub session : Value

-- `r.pname ?? ""`
abbrev pub name_of : Option String → String
name_of none = ""
name_of (some name) = name

-- `typeof session === "number"`: the library's integers are never doubles.
abbrev pub number_of : Value → Option ℤ
number_of (number n) = some n
number_of _ = none

abbrev pub map_fields : (Fields → Fields) → Option Fields → Option Fields
map_fields f none = none
map_fields f (some fs) = some (f fs)

-- A response with the session of a header; a header with a type is that of a request.
abbrev pub header_response : Bool → Option ℤ → Option CodecResult
header_response false (some n) = some (response (record { session = n; args = none }))
header_response _ _ = none

-- `recoverDispatch`, at the header that the library reads: `none` for an exception, or null.
unfoldable pub recover_dispatch : Option (Option Fields) → Option CodecResult
recover_dispatch none = none
recover_dispatch (some none) = none
recover_dispatch (some (some header)) =
    header_response (is_truthy (get "type" header)) (number_of (get "session" header))

module _ (encode decode : List ℕ → List ℕ) where
  -- `(a) => Uint8Array.from(respond(a ? encodeDeep(a) : {}))`
  abbrev pub respond_with : (Option Fields → List ℕ) → Option Fields → List ℕ
  respond_with f none = from_number_array (f (some no_fields))
  respond_with f (some a) = from_number_array (f (some (encode_fields encode a)))

  abbrev pub map_respond : Option (Option Fields → List ℕ) → Option (Option Fields → List ℕ)
  map_respond none = none
  map_respond (some f) = some (respond_with f)

  abbrev pub some_session : Value → Option Value
  some_session undefined = none
  some_session v = some v

  -- The response with a session that is a number; any other is a packet that cannot be decoded.
  abbrev pub response_of : Option ℤ → Option Fields → Option CodecResult
  response_of none result = none
  response_of (some n) result =
      some (response (record { session = n; args = map_fields (decode_fields decode) result }))

  unfoldable pub convert : HostResult → Option CodecResult
  convert r =
      if r.is_request
      then some (
          request (record {
            name = name_of r.pname;
            args = map_fields (decode_fields decode) r.result;
            session = some_session r.session;
            respond = map_respond r.response_func;
          }))
      else response_of (number_of r.session) r.result

  -- `pack`, over the library's packing function; `none` is its exception. The host notes the session.
  abbrev pub packed : Option (List ℕ) → Option (List ℕ)
  packed none = none
  packed (some b) = some (from_number_array b)

  unfoldable pub pack :
      {H : Type 0}
      → (String → Option Fields → Option ℕ → H → Option (List ℕ) × H)
      → String
      → Option Fields
      → Option ℕ
      → H
      → Option (List ℕ) × H
  unfolding from_number_array
  pack pack_fn name args session h =
      let (b, h') = pack_fn name (map_fields (encode_fields encode) args) session h in
      (packed b, h')

  -- The library's host has a state of its own; its `dispatch` may throw (`none`).
  module _ {H : Type 0} (host_dispatch : List ℕ → H → Option HostResult × H)
      (read_header : List ℕ → Option (Option Fields)) where
    abbrev pub dispatched : Option HostResult → List ℕ → Option CodecResult
    dispatched none b = recover_dispatch (read_header b)
    dispatched (some r) b = convert r

    unfoldable pub dispatch : List ℕ → H → Option CodecResult × H
    unfolding convert recover_dispatch to_number_array
    dispatch b h =
        let (r, h') = host_dispatch (to_number_array b) h in (dispatched r (to_number_array b), h')

-- `Codec`
pub record Codec (H : Type 0) : Type 0 where
  pub pack : String → Option Fields → Option ℕ → H → Option (List ℕ) × H
  pub dispatch : List ℕ → H → Option CodecResult × H
  pub checksum : List ℕ

-- What `loadCodec` uses of the vendored library: `createNew`, `host`, the host's `attach` and
-- `dispatch`, and the header of a packet. `none` is an exception, or null for `createNew`.
pub record Library (S H : Type 0) : Type 0 where
  pub create_new : List ℕ → Option S
  pub host : S → String → H
  pub attach : S → String → Option Fields → Option ℕ → H → Option (List ℕ) × H
  pub host_dispatch : List ℕ → H → Option HostResult × H
  pub read_header : S → List ℕ → Option (Option Fields)

abbrev pub package_name : String
package_name = "base.package"

module _ {S H : Type 0} (lib : Library S H) (encode decode : List ℕ → List ℕ)
    (scaled_sine : ℕ → ℕ) where
  abbrev pub codec_of : S → List ℕ → Codec H
  codec_of sp checksum = record {
    pack = pack encode decode (lib.attach sp);
    dispatch = dispatch encode decode lib.host_dispatch (lib.read_header sp);
    checksum = checksum;
  }

  abbrev pub loaded : Option S → Option (List ℕ) → Option (Codec H × H)
  loaded none checksum = none
  loaded (some sp) none = none
  loaded (some sp) (some checksum) = some (codec_of sp checksum, lib.host sp package_name)

  -- `loadCodec`: the codec and the state of its host; `none` is an exception.
  unfoldable pub load_codec : List ℕ → Option (Codec H × H)
  load_codec spb =
      loaded (lib.create_new (to_number_array spb)) (md5_hex (sine_table 64 0 scaled_sine) spb)
