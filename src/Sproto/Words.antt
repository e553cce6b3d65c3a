-- ===== src/Sproto/Words.antt =====
-- sdk/ts/src/sproto/sproto.ts: integers over the wire.
use skyext.Prelude.{
  ℕ, ◌+◌, ◌-◌, ◌*◌, ◌/◌, ◌%◌, ◌^◌, ◌<◌, ◌≡◌, refl, ap, ◌∙◌, true, false, some, List, [], ◌∷◌, arith,
  if◌then◌else◌, ltb, leb, drop, inl, inr, Bool-cases,
}
use skyext.Sproto.{
  Integer, num, big, wrap, to_dword, expand64, int64, word32, exceeds_int32, big_bytes,
  uint64_bytes, encode_uint64, in_data, encode_field, decode_field,
}
use skyext.Value.{ℤ, pos, negsuc}

abbrev pub value_of : Integer → ℤ
value_of (num v) = v
value_of (big v) = v

-- From -2^63 to 2^63 - 1.
abbrev pub IsInt64 : ℤ → Type 0
IsInt64 (pos n) = n < 2 ^ 63
IsInt64 (negsuc n) = n < 2 ^ 63

-- The eight bytes of a word.
abbrev pub word_bytes : ℕ → List ℕ
word_bytes u =
    u % 256
    ∷ u / 0x100 % 256
    ∷ u / 0x10000 % 256
    ∷ u / 0x1000000 % 256
    ∷ u / 0x100000000 % 256
    ∷ u / 0x10000000000 % 256
    ∷ u / 0x1000000000000 % 256
    ∷ u / 0x100000000000000 % 256
    ∷ []

-- Two's complement in 64 bits.
abbrev pub word : ℤ → ℕ
word (pos n) = n
word (negsuc n) = 2 ^ 64 - 1 - n

pub word-IsInt64 : (v : ℤ) → IsInt64 v → word v < 2 ^ 64
word-IsInt64 (pos n) h = omega arith
word-IsInt64 (negsuc n) h = omega arith

div_twice : (u : ℕ) → u / 256 / 256 ≡ u / 0x10000
div_twice u = omega arith

div_three : (u : ℕ) → u / 256 / 256 / 256 ≡ u / 0x1000000
div_three u = omega arith

div_four : (u : ℕ) → u / 256 / 256 / 256 / 256 ≡ u / 0x100000000
div_four u = omega arith

div_five : (u : ℕ) → u / 256 / 256 / 256 / 256 / 256 ≡ u / 0x10000000000
div_five u = omega arith

div_six : (u : ℕ) → u / 256 / 256 / 256 / 256 / 256 / 256 ≡ u / 0x1000000000000
div_six u = omega arith

div_seven : (u : ℕ) → u / 256 / 256 / 256 / 256 / 256 / 256 / 256 ≡ u / 0x100000000000000
div_seven u = omega arith

complement_byte0 : (n : ℕ) → n < 2 ^ 63 → 255 - n % 256 ≡ (2 ^ 64 - 1 - n) % 256
complement_byte0 n h = omega arith

complement_byte1 : (n : ℕ) → n < 2 ^ 63 → 255 - n / 0x100 % 256 ≡ (2 ^ 64 - 1 - n) / 0x100 % 256
complement_byte1 n h = omega arith

complement_byte2 : (n : ℕ) → n < 2 ^ 63 → 255 - n / 0x10000 % 256 ≡ (2 ^ 64 - 1 - n) / 0x10000 % 256
complement_byte2 n h = omega arith

complement_byte3 :
    (n : ℕ) → n < 2 ^ 63 → 255 - n / 0x1000000 % 256 ≡ (2 ^ 64 - 1 - n) / 0x1000000 % 256
complement_byte3 n h = omega arith

complement_byte4 :
    (n : ℕ) → n < 2 ^ 63 → 255 - n / 0x100000000 % 256 ≡ (2 ^ 64 - 1 - n) / 0x100000000 % 256
complement_byte4 n h = omega arith

complement_byte5 :
    (n : ℕ) → n < 2 ^ 63 → 255 - n / 0x10000000000 % 256 ≡ (2 ^ 64 - 1 - n) / 0x10000000000 % 256
complement_byte5 n h = omega arith

complement_byte6 :
    (n : ℕ)
    → n < 2 ^ 63
    → 255 - n / 0x1000000000000 % 256 ≡ (2 ^ 64 - 1 - n) / 0x1000000000000 % 256
complement_byte6 n h = omega arith

complement_byte7 :
    (n : ℕ)
    → n < 2 ^ 63
    → 255 - n / 0x100000000000000 % 256 ≡ (2 ^ 64 - 1 - n) / 0x100000000000000 % 256
complement_byte7 n h = omega arith

big_bytes-word_bytes : (u : ℕ) → big_bytes 8 (pos u) ≡ word_bytes u
unfolding big_bytes
big_bytes-word_bytes u =
    rw (div_seven u, div_six u, div_five u, div_four u, div_three u, div_twice u)

pub uint64_bytes-word_bytes :
    (t : Integer) → IsInt64 (value_of t) → uint64_bytes t ≡ word_bytes (word (value_of t))
unfolding uint64_bytes
uint64_bytes-word_bytes (num (pos n)) h = refl
uint64_bytes-word_bytes (num (negsuc n)) h = rw (
  complement_byte0 n h,
  complement_byte1 n h,
  complement_byte2 n h,
  complement_byte3 n h,
  complement_byte4 n h,
  complement_byte5 n h,
  complement_byte6 n h,
  complement_byte7 n h,
)
uint64_bytes-word_bytes (big (pos n)) h = big_bytes-word_bytes n
uint64_bytes-word_bytes (big (negsuc n)) h =
    let e : ltb n 0x10000000000000000 ≡ true = ground arith in
    rw e (big_bytes-word_bytes (2 ^ 64 - 1 - n))

to_dword-low : (u : ℕ) → to_dword (word_bytes u) ≡ u % 0x100000000
unfolding to_dword
to_dword-low u = omega arith

to_dword-high : (u : ℕ) → u < 2 ^ 64 → to_dword (drop 4 (word_bytes u)) ≡ u / 0x100000000
unfolding to_dword
to_dword-high u h = omega arith

-- The integers that take 64 bits.
abbrev pub wide : ℤ → Integer
wide (pos n) = if leb n 9007199254740991 then num (pos n) else big (pos n)
wide (negsuc n) = big (negsuc n)

int64-word : (v : ℤ) → IsInt64 v → int64 (word v % 0x100000000) (word v / 0x100000000) ≡ wide v
unfolding int64
int64-word (pos n) h =
    let small : leb 0x80000000 (n / 0x100000000) ≡ false = ground arith in
    let u : n / 0x100000000 * 0x100000000 + n % 0x100000000 ≡ n = omega arith in rw (small, u)
int64-word (negsuc n) h =
    let w = 2 ^ 64 - 1 - n in
    let large : leb 0x80000000 (w / 0x100000000) ≡ true = ground arith in
    let u : 0xffffffffffffffff - (w / 0x100000000 * 0x100000000 + w % 0x100000000) ≡ n =
      omega arith in
    rw (large, u)

pub int64-uint64_bytes :
    (t : Integer)
    → IsInt64 (value_of t)
    → int64 (to_dword (uint64_bytes t)) (to_dword (drop 4 (uint64_bytes t))) ≡ wide (value_of t)
int64-uint64_bytes t h =
    let w = word (value_of t) in
    rw (
      uint64_bytes-word_bytes t h,
      to_dword-low w,
      to_dword-high w (word-IsInt64 (value_of t) h),
      int64-word (value_of t) h,
    )

pub decode_field-encode_uint64 :
    (t : Integer)
    → IsInt64 (value_of t)
    → decode_field (in_data (encode_uint64 t)) ≡ some (wide (value_of t))
unfolding decode_field encode_uint64
decode_field-encode_uint64 t h = ap some (int64-uint64_bytes t h)

pub four_bytes :
    (w : ℕ)
    → w < 0x100000000
    → w % 256 % 256
        + w / 0x100 % 256 % 256 * 0x100
        + w / 0x10000 % 256 % 256 * 0x10000
        + w / 0x1000000 % 256 % 256 * 0x1000000
      ≡ w
four_bytes w h = omega arith

-- A word, in the tag or in four bytes.
decode_field-encode_field :
    (w : ℕ) → w < 0x100000000 → decode_field (encode_field (word32 w)) ≡ some (num (expand64 w))
unfolding decode_field encode_field
decode_field-encode_field w h = elim (Bool-cases (ltb w 0x7fff)) [
  | inl short ↦
      let small : ltb w 0x80000000 ≡ true = ground arith in
      let v : (w + 1) * 2 / 2 - 1 ≡ w = omega arith in rw (short, small, v)
  | inr long ↦ rw (long, four_bytes w h)
]

pub decode_field-word32 :
    (v : ℤ)
    → exceeds_int32 v ≡ false
    → decode_field (encode_field (word32 (wrap 0x100000000 v))) ≡ some (num v)
unfolding expand64
decode_field-word32 (pos n) h =
    decode_field-encode_field (n % 0x100000000) (omega arith)
    ∙ (let same : n % 0x100000000 ≡ n = ground arith in
        let below : ltb n 0x80000000 ≡ true = ground arith in rw (same, below))
decode_field-word32 (negsuc n) h =
    decode_field-encode_field (0xffffffff - n % 0x100000000) (omega arith)
    ∙ (let small : n < 0x80000000 = ground arith in
        let same : n % 0x100000000 ≡ n = omega arith in
        let above : ltb (0xffffffff - n) 0x80000000 ≡ false = ground arith in
        let back : 0xffffffff - (0xffffffff - n) ≡ n = omega arith in rw (same, above, back))
