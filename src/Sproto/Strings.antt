-- ===== src/Sproto/Strings.antt =====
-- sdk/ts/src/sproto/sproto.ts, bin.ts and codec.ts: a text on its way over the wire.
use skyext.Bytes.{
  IsByte, from_bytes-map, low_byte, text_to_byte_string, byte_string_to_text, to_bytes,
}
use skyext.Codec.Values.{Kept}
use skyext.Prelude.{ℕ, ◌%◌, ◌≡◌, refl, ap₂, List, [], ◌∷◌, map, All, arith}
use skyext.Sproto.{string_to_bytes, bytes_to_string}

map-IsByte : (s : List ℕ) → All IsByte (map low_byte s)
map-IsByte [] = tt
map-IsByte (c ∷ s) = (omega arith, map-IsByte s)

map-low_byte : (s : List ℕ) → All IsByte s → map low_byte s ≡ s
map-low_byte [] h = refl
map-low_byte (c ∷ s) h = let e : c % 256 ≡ c = grind arith in ap₂ ◌∷◌ e (map-low_byte s h.1)

-- A text that UTF-8 keeps is the same after the codec's encoding, the wire's bytes and the codec's
-- decoding; and any bytes at all, valid UTF-8 or not, are the same after the wire.
pub bytes_to_string-string_to_bytes :
    (encode decode : List ℕ → List ℕ) (s b : List ℕ)
    → Kept encode decode s
    → All IsByte b
    → (byte_string_to_text decode (bytes_to_string (string_to_bytes (text_to_byte_string encode s)))
        ≡ s)
      × (bytes_to_string (string_to_bytes b) ≡ b)
unfolding bytes_to_string string_to_bytes byte_string_to_text text_to_byte_string to_bytes
bytes_to_string-string_to_bytes encode decode s b h k =
    let e = map-low_byte (encode s) h.0 in
    let f = map-low_byte b k in (rw (from_bytes-map (encode s), e, e, e, e) h.1, rw (f, f))
