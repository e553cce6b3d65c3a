-- ===== src/Sproto/Integers.antt =====
-- sdk/ts/src/sproto/sproto.ts: an integer from the SDK to the wire and back.
use skyext.Sproto.Words.{
  value_of, IsInt64, word_bytes, word, wide, uint64_bytes-word_bytes, decode_field-encode_uint64,
  decode_field-word32,
}
use skyext.Prelude.{
  ℕ, ◌%◌, ◌≤◌, ◌<◌, ◌≡◌, sym, All, length, refl, ap, ◌∙◌, true, false, none, some, ◌++◌, arith, not,
  if◌then◌else◌, ltb, leb, inl, inr, Bool-cases,
}
use skyext.Sproto.{
  Integer, num, big, wrap, uint64_rshift, Sized, word32, word64, is_sign, exceeds_int32,
  encode_target, fill_size, encode_uint64, Field, in_tag, in_data, encode_field, decode_field,
}
use skyext.Value.{ℤ, pos, negsuc}

-- The specification: what comes out for an integer, whichever form it had.
abbrev pub canonical : ℤ → Integer
canonical (pos n) = if leb n 9007199254740991 then num (pos n) else big (pos n)
canonical (negsuc n) = if ltb n 0x80000000 then num (negsuc n) else big (negsuc n)

canonical-num : (v : ℤ) → exceeds_int32 v ≡ false → canonical v ≡ num v
canonical-num (pos n) h = let e : leb n 9007199254740991 ≡ true = ground arith in rw e
canonical-num (negsuc n) h = let e : ltb n 0x80000000 ≡ true = ground arith in rw e

canonical-wide : (v : ℤ) → exceeds_int32 v ≡ true → canonical v ≡ wide v
canonical-wide (pos n) h = refl
canonical-wide (negsuc n) h = let e : ltb n 0x80000000 ≡ false = ground arith in rw e

-- The two tests for 32 bits agree.
sign-exceeds_int32 : (v : ℤ) → is_sign (uint64_rshift v 31) ≡ not (exceeds_int32 v)
unfolding uint64_rshift
sign-exceeds_int32 (pos n) = ground arith
sign-exceeds_int32 (negsuc n) = ground arith

unfoldable pub sized : Integer → Sized
sized t = if exceeds_int32 (value_of t) then word64 t else word32 (wrap 0x100000000 (value_of t))

pub encode_target-sized : (t : Integer) → encode_target none t ≡ sized t
unfolding encode_target sized
encode_target-sized (num v) = elim (Bool-cases (exceeds_int32 v)) [
  | inl wide_ ↦ rw (sign-exceeds_int32 v, wide_)
  | inr narrow ↦ rw (sign-exceeds_int32 v, narrow)
]
encode_target-sized (big v) = refl

-- An integer of 64 bits, a number or a bigint, comes back from the wire with its value: as a number
-- from -2^31 to 2^53 - 1, and as a bigint elsewhere, also between -2^53 and -2^31.
pub decode_field-encode_target :
    (t : Integer)
    → IsInt64 (value_of t)
    → decode_field (encode_field (encode_target none t)) ≡ some (canonical (value_of t))
unfolding encode_field sized
decode_field-encode_target t h = elim (Bool-cases (exceeds_int32 (value_of t))) [
  | inl wide_ ↦
      let e : sized t ≡ word64 t = rw wide_ in
      ap (λ z. decode_field (encode_field z)) (encode_target-sized t ∙ e)
      ∙ (decode_field-encode_uint64 t h ∙ ap some (sym (canonical-wide (value_of t) wide_)))
  | inr narrow ↦
      let e : sized t ≡ word32 (wrap 0x100000000 (value_of t)) = rw narrow in
      ap (λ z. decode_field (encode_field z)) (encode_target-sized t ∙ e)
      ∙ (decode_field-word32 (value_of t) narrow
          ∙ ap some (sym (canonical-num (value_of t) narrow)))
]

-- What a field on the wire may be: an even tag of 16 bits that is not zero, or bytes.
abbrev pub IsBounded : Field → Type 0
IsBounded (in_tag t) = (0 < t) × (t < 65536) × (t % 2 ≡ 0)
IsBounded (in_data bytes) = All (λ b. b < 256) bytes × (length bytes ≤ 12)

low : (v : ℕ) → v % 256 < 256
low v = omega arith

-- A size, and the bytes of a word.
sized_bytes : (u : ℕ) → IsBounded (in_data (fill_size 8 ++ word_bytes u))
unfolding fill_size
sized_bytes u = (
  (
    omega arith,
    (
      omega arith,
      (
        omega arith,
        (omega arith, (low _, (low _, (low _, (low _, (low _, (low _, (low _, (low _, tt))))))))),
      ),
    ),
  ),
  omega arith,
)

encode_uint64-IsBounded :
    (t : Integer) → IsInt64 (value_of t) → IsBounded (in_data (encode_uint64 t))
unfolding encode_uint64
encode_uint64-IsBounded t h = rw (uint64_bytes-word_bytes t h) (sized_bytes (word (value_of t)))

encode_word-IsBounded : (w : ℕ) → IsBounded (encode_field (word32 w))
unfolding encode_field
encode_word-IsBounded w = elim (Bool-cases (ltb w 0x7fff)) [
  | inl short ↦ rw short (omega arith, ground arith, omega arith)
  | inr long ↦ rw long (
    (
      omega arith,
      (omega arith, (omega arith, (omega arith, (low w, (low _, (low _, (low _, tt))))))),
    ),
    omega arith,
  )
]

-- Every integer of 64 bits is written as an even tag of 16 bits that is not zero, or as at most
-- twelve bytes, each below 256.
pub encode_field-IsBounded :
    (t : Integer) → IsInt64 (value_of t) → IsBounded (encode_field (encode_target none t))
unfolding encode_field sized
encode_field-IsBounded t h =
    rw (encode_target-sized t) (elim (Bool-cases (exceeds_int32 (value_of t))) [
      | inl wide_ ↦ rw wide_ (encode_uint64-IsBounded t h)
      | inr narrow ↦ rw narrow (encode_word-IsBounded (wrap 0x100000000 (value_of t)))
    ])
