-- ===== src/Sproto.antt =====
-- sdk/ts/src/sproto/sproto.ts: what the SDK changed in its copy of sproto-js, as the head of that file
-- says: integers of 64 bits and byte strings. A JavaScript integer is a `num` (a number) or a `big`
-- (a bigint).
pub mod Words
pub mod Integers
pub mod Strings
pub mod Arrays
use skyext.Prelude.{
  ℕ, zero, suc, ◌+◌, ◌-◌, ◌*◌, ◌/◌, ◌%◌, ◌^◌, Bool, true, false, ◌||◌, Option, none, some, List, [],
  ◌∷◌, ◌++◌, map, if◌then◌else◌, ◌==◌, ltb, leb, get_or, drop,
}
use skyext.Value.{ℤ, pos, negsuc}

pub data Integer : Type 0 where
  num big : ℤ → Integer

-- `v` modulo `m`, as `v & 0xff` and `v >>> 0` take it.
abbrev pub wrap : ℕ → ℤ → ℕ
wrap m (pos n) = n % m
wrap m (negsuc n) = m - 1 - n % m

-- `Math.floor(v / m)`, and `v >> k` of a bigint.
abbrev pub floor_div : ℤ → ℕ → ℤ
floor_div (pos n) m = pos (n / m)
floor_div (negsuc n) m = negsuc (n / m)

-- `v + n`
abbrev pub add_nat : ℤ → ℕ → ℤ
add_nat (pos k) n = pos (k + n)
add_nat (negsuc k) n = if ltb k n then pos (n - 1 - k) else negsuc (k - n)

abbrev pub byte_at : List ℕ → ℕ → ℕ
byte_at stream i = get_or stream i 0 % 256

-- `utils`
unfoldable pub to_dword : List ℕ → ℕ
to_dword stream =
    byte_at stream 0
    + byte_at stream 1 * 0x100
    + byte_at stream 2 * 0x10000
    + byte_at stream 3 * 0x1000000

-- `v | 0`, of a word.
unfoldable pub expand64 : ℕ → ℤ
expand64 v = if ltb v 0x80000000 then pos v else negsuc (0xffffffff - v)

unfoldable pub int64 : ℕ → ℕ → Integer
int64 low hi =
    let u = hi * 0x100000000 + low in
    if leb 0x80000000 hi
    then big (negsuc (0xffffffffffffffff - u))
    else if leb u 9007199254740991
    then num (pos u)
    else big (pos u)

unfoldable pub uint64_rshift : ℤ → ℕ → ℤ
uint64_rshift v offset = floor_div v (2 ^ offset)

unfoldable pub string_to_bytes : List ℕ → List ℕ
string_to_bytes = map (λ c. c % 256)

unfoldable pub bytes_to_string : List ℕ → List ℕ
bytes_to_string = map (λ c. c % 256)

-- What `encode` leaves in `args.value` for an integer, with the size that it returns.
pub data Sized : Type 0 where
  word32 : ℕ → Sized
  word64 : Integer → Sized

-- `vh === 0 || vh === -1`
abbrev pub is_sign : ℤ → Bool
is_sign (pos n) = n == 0
is_sign (negsuc n) = n == 0

-- The bounds of an `int32`.
abbrev pub exceeds_int32 : ℤ → Bool
exceeds_int32 (pos n) = ltb 0x7fffffff n
exceeds_int32 (negsuc n) = leb 0x80000000 n

unfoldable pub encode_number : ℤ → Sized
unfolding uint64_rshift
encode_number v =
    if is_sign (uint64_rshift v 31) then word32 (wrap 0x100000000 v) else word64 (num v)

-- The case of an integer; `scaled` is `Math.floor(target * extra + 0.5)` where `extra` is above zero.
unfoldable pub encode_target : Option ℤ → Integer → Sized
unfolding encode_number
encode_target (some v) target = encode_number v
encode_target none (num v) = encode_number v
encode_target none (big v) = if exceeds_int32 v then word64 (big v) else word32 (wrap 0x100000000 v)

-- `fillSize`
unfoldable pub fill_size : ℕ → List ℕ
fill_size sz = sz % 256 ∷ sz / 0x100 % 256 ∷ sz / 0x10000 % 256 ∷ sz / 0x1000000 % 256 ∷ []

unfoldable pub encode_integer : ℕ → List ℕ
unfolding fill_size
encode_integer v =
    fill_size 4 ++ v % 256 ∷ v / 0x100 % 256 ∷ v / 0x10000 % 256 ∷ v / 0x1000000 % 256 ∷ []

-- The loop over a bigint's bytes.
unfoldable pub big_bytes : ℕ → ℤ → List ℕ
big_bytes zero u = []
big_bytes (suc k) u = wrap 256 u ∷ big_bytes k (floor_div u 256)

abbrev pub complement : ℤ → ℤ
complement (pos n) = pos n
complement (negsuc n) = add_nat (negsuc n) 0x10000000000000000

-- The eight bytes of a number or a bigint.
unfoldable pub uint64_bytes : Integer → List ℕ
unfolding big_bytes uint64_rshift
uint64_bytes (big v) = big_bytes 8 (complement v)
uint64_bytes (num v) =
    wrap 256 v
    ∷ wrap 256 (uint64_rshift v 8)
    ∷ wrap 256 (uint64_rshift v 16)
    ∷ wrap 256 (uint64_rshift v 24)
    ∷ wrap 256 (uint64_rshift v 32)
    ∷ wrap 256 (uint64_rshift v 40)
    ∷ wrap 256 (uint64_rshift v 48)
    ∷ wrap 256 (uint64_rshift v 56)
    ∷ []

unfoldable pub encode_uint64 : Integer → List ℕ
unfolding fill_size uint64_bytes
encode_uint64 v = fill_size 8 ++ uint64_bytes v

-- A field on the wire: in its tag, or as data.
pub data Field : Type 0 where
  in_tag : ℕ → Field
  in_data : List ℕ → Field

-- `sprotoEncode` at an integer's size and value.
unfoldable pub encode_field : Sized → Field
unfolding encode_integer encode_uint64
encode_field (word32 v) = if ltb v 0x7fff then in_tag ((v + 1) * 2) else in_data (encode_integer v)
encode_field (word64 v) = in_data (encode_uint64 v)

-- `sprotoDecode` at an integer of size `sz`; `none` is its error.
unfoldable pub decode_data : ℕ → List ℕ → Option Integer
unfolding to_dword expand64 int64
decode_data sz data_ =
    if sz == 4
    then some (num (expand64 (to_dword (drop 4 data_))))
    else if sz == 8
    then some (int64 (to_dword (drop 4 data_)) (to_dword (drop 8 data_)))
    else none

-- A tag that holds a value is even and not zero.
unfoldable pub decode_field : Field → Option Integer
unfolding decode_data
decode_field (in_tag t) = some (num (pos (t / 2 - 1)))
decode_field (in_data data_) = decode_data (to_dword data_) data_
