-- ===== src/Codec.antt =====
-- sdk/ts/src/codec.ts: the codec's results, and the conversion between the values of the API and those
-- of the wire. The vendored sproto library is a parameter (Codec/Dispatch.antt).
pub mod Values
pub mod Dispatch
use skyext.Bytes.{text_to_byte_string, byte_string_to_text, to_number_array}
use skyext.Prelude.{ℕ, String, Option, List, [], ◌∷◌}
use skyext.Value.{
  ℤ, pos, Value, undefined, null, boolean, number, double, bigint, text, bytes, arr, obj, Items,
  no_items, item, Fields, no_fields, entry,
}

pub record CodecRequest : Type 0 where
  pub name : String
  pub args : Option Fields
  pub session : Option Value
  pub respond : Option (Option Fields → List ℕ)

pub record CodecResponse : Type 0 where
  pub session : ℤ
  pub args : Option Fields

pub data CodecResult : Type 0 where
  request : CodecRequest → CodecResult
  response : CodecResponse → CodecResult

-- A `number[]` as an array of numbers.
unfoldable pub numbers : List ℕ → Items
numbers [] = no_items
numbers (b ∷ bs) = item (number (pos b)) (numbers bs)

-- `TextEncoder.encode`
module _ (encode : List ℕ → List ℕ) where
  unfoldable mutual
    pub encode_deep : Value → Value
    encode_deep (text s) = text (text_to_byte_string encode s)
    encode_deep (bytes b) = arr (numbers (to_number_array b))
    encode_deep (arr xs) = arr (encode_items xs)
    encode_deep (obj fs) = obj (encode_fields fs)
    encode_deep v = v

    pub encode_items : Items → Items
    encode_items no_items = no_items
    encode_items (item x xs) = item (encode_deep x) (encode_items xs)

    pub encode_fields : Fields → Fields
    encode_fields no_fields = no_fields
    encode_fields (entry k v fs) = entry k (encode_deep v) (encode_fields fs)

-- `TextDecoder.decode`
module _ (decode : List ℕ → List ℕ) where
  unfoldable mutual
    pub decode_deep : Value → Value
    decode_deep (text s) = text (byte_string_to_text decode s)
    decode_deep (arr xs) = arr (decode_items xs)
    decode_deep (obj fs) = obj (decode_fields fs)
    decode_deep v = v

    pub decode_items : Items → Items
    decode_items no_items = no_items
    decode_items (item x xs) = item (decode_deep x) (decode_items xs)

    pub decode_fields : Fields → Fields
    decode_fields no_fields = no_fields
    decode_fields (entry k v fs) = entry k (decode_deep v) (decode_fields fs)
