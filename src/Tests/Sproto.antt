-- ===== src/Tests/Sproto.antt =====
-- sdk/ts/src/sproto/sproto.ts: integers and byte strings over the wire.
use skyext.Prelude.{◌≡◌, refl, arith, none, some, List, [], ◌∷◌, ℕ}
use skyext.Bytes.{byte_string_to_text, text_to_byte_string}
use skyext.Sproto.Integers.{decode_field-encode_target, encode_field-IsBounded, IsBounded}
use skyext.Sproto.Strings.{bytes_to_string-string_to_bytes}
use skyext.Sproto.{
  num, big, in_tag, in_data, encode_target, encode_field, decode_field, string_to_bytes,
  bytes_to_string,
}
use skyext.Value.{pos, negsuc}

small_tag : encode_field (encode_target none (big (pos 3))) ≡ in_tag 8
unfolding encode_target encode_field
small_tag = refl

minus_five :
    encode_field (encode_target none (num (negsuc 4)))
    ≡ in_data (4 ∷ 0 ∷ 0 ∷ 0 ∷ 251 ∷ 255 ∷ 255 ∷ 255 ∷ [])
unfolding encode_target encode_field
minus_five = refl

-- -3000000000 goes out as a number and comes back as a bigint.
decode_field-encode_target_example :
    decode_field (encode_field (encode_target none (num (negsuc 2999999999))))
    ≡ some (big (negsuc 2999999999))
decode_field-encode_target_example =
    decode_field-encode_target (num (negsuc 2999999999)) (omega arith)

encode_field-IsBounded_example :
    IsBounded (encode_field (encode_target none (big (pos 70067467908940524))))
encode_field-IsBounded_example = encode_field-IsBounded (big (pos 70067467908940524)) (omega arith)

abbrev ascii : List ℕ → List ℕ
ascii s = s

bytes_to_string-string_to_bytes_example :
    (byte_string_to_text ascii
        (bytes_to_string (string_to_bytes (text_to_byte_string ascii (97 ∷ 98 ∷ []))))
      ≡ 97 ∷ 98 ∷ [])
    × (bytes_to_string (string_to_bytes (255 ∷ 0 ∷ 128 ∷ [])) ≡ 255 ∷ 0 ∷ 128 ∷ [])
bytes_to_string-string_to_bytes_example =
    bytes_to_string-string_to_bytes ascii ascii (97 ∷ 98 ∷ []) (255 ∷ 0 ∷ 128 ∷ [])
      ((omega arith, (omega arith, tt)), refl) (omega arith, (omega arith, (omega arith, tt)))
