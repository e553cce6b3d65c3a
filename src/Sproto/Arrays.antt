-- ===== src/Sproto/Arrays.antt =====
-- sdk/ts/src/sproto/sproto.ts: arrays of integers, which are written into a buffer in place. The
-- elements take four bytes until one takes eight; then all that were written are widened.
pub mod InPlace
pub mod Widening
pub mod Written
pub mod Elements
pub mod RoundTrip
pub mod Values
use skyext.Prelude.{
  ℕ, zero, suc, ◌+◌, ◌-◌, ◌*◌, ◌/◌, ◌%◌, Option, none, some, List, [], ◌∷◌, Bool, true, false,
  if◌then◌else◌, ◌==◌, leb, get_or, drop,
}
use skyext.Sproto.Arrays.InPlace.{Buffer, put, write_bytes}
use skyext.Sproto.{
  Integer, num, Sized, word32, word64, to_dword, expand64, int64, encode_target, uint64_bytes,
  fill_size,
}

-- `encode` at the elements one by one: null or undefined ends the array.
unfoldable pub targets : List (Option Integer) → List Sized
unfolding encode_target
targets [] = []
targets (none ∷ ts) = []
targets (some t ∷ ts) = encode_target none t ∷ targets ts

unfoldable pub uint32_to_uint64 : Bool → ℕ → Buffer → Buffer
unfolding write_bytes
uint32_to_uint64 true i = write_bytes (0xff ∷ 0xff ∷ 0xff ∷ 0xff ∷ []) (i + 4)
uint32_to_uint64 false i = write_bytes (0 ∷ 0 ∷ 0 ∷ 0 ∷ []) (i + 4)

-- The loop over `j`: `n` bytes from `j` on are those that stand `back` before.
unfoldable pub move : ℕ → ℕ → ℕ → Buffer → Buffer
unfolding put
move zero back j buf = buf
move (suc n) back j buf = move n back (j + 1) (put j (buf (j - back)) buf)

-- The body of the loop over `i`; `base` is the place of the first element.
unfoldable pub widen_element : ℕ → ℕ → Buffer → Buffer
unfolding move uint32_to_uint64
widen_element base i buf =
    let moved = move 4 (i * 4) (base + i * 8) buf in
    uint32_to_uint64 (leb 0x80 (moved (base + i * 8 + 3) % 256)) (base + i * 8) moved

-- The loop over `i`, from the last element down.
unfoldable pub widen : ℕ → ℕ → Buffer → Buffer
unfolding widen_element
widen base zero buf = buf
widen base (suc i) buf = widen base i (widen_element base i buf)

-- The variables of `encodeIntegerArray`.
pub record Writing : Type 0 where
  pub buffer : Buffer
  pub place : ℕ
  pub intlen : ℕ
  pub index : ℕ

unfoldable pub dword_bytes : ℕ → List ℕ
dword_bytes v = v % 256 ∷ v / 0x100 % 256 ∷ v / 0x10000 % 256 ∷ v / 0x1000000 % 256 ∷ []

-- An element of four bytes.
unfoldable pub write_word : ℕ → Writing → Writing
unfolding write_bytes uint32_to_uint64 dword_bytes
write_word v w =
    let buf = write_bytes (dword_bytes v) w.place w.buffer in
    record w {
      buffer = if w.intlen == 8 then uint32_to_uint64 (leb 0x80000000 v) w.place buf else buf;
    }

-- The widening before an element of eight bytes.
unfoldable pub make_long : ℕ → Writing → Writing
unfolding widen
make_long base w =
    if w.intlen == 4
    then record w {
      buffer = widen base (w.index - 1) w.buffer;
      place = w.place + (w.index - 1) * 4;
      intlen = 8;
    }
    else w

unfoldable pub write_long : Integer → Writing → Writing
unfolding write_bytes uint64_bytes
write_long t w = record w { buffer = write_bytes (uint64_bytes t) w.place w.buffer }

abbrev pub advance : Writing → Writing
advance w = record w { place = w.place + w.intlen; index = w.index + 1 }

-- The body of the loop over the elements.
unfoldable pub write_element : ℕ → Sized → Writing → Writing
unfolding write_word make_long write_long
write_element base (word32 v) w = advance (write_word v w)
write_element base (word64 t) w = advance (write_long t (make_long base w))

unfoldable pub write_elements : ℕ → List Sized → Writing → Writing
unfolding write_element
write_elements base [] w = w
write_elements base (s ∷ ss) w = write_elements base ss (write_element base s w)

-- `encodeIntegerArray`, at the header's place: the buffer, and the place after the array.
unfoldable pub encode_integer_array : ℕ → List Sized → Buffer → Buffer × ℕ
unfolding write_elements put
encode_integer_array header ss buf =
    let w =
      write_elements (header + 1) ss
        (record { buffer = buf; place = header + 1; intlen = 4; index = 1 }) in
    if w.place == header + 1
    then (w.buffer, header)
    else (put header (w.intlen % 256) w.buffer, w.place)

-- `encodeArray` of integers: the buffer, and the size of what was written.
unfoldable pub encode_array : ℕ → List Sized → Buffer → Buffer × ℕ
unfolding encode_integer_array write_bytes fill_size
encode_array at ss buf =
    let (buf', end) = encode_integer_array (at + 4) ss buf in
    let sz = end - (at + 4) in (write_bytes (fill_size sz) at buf', sz + 4)

unfoldable pub decode_words : ℕ → ℕ → List ℕ → List Integer
unfolding expand64 to_dword
decode_words zero i stream = []
decode_words (suc n) i stream =
    num (expand64 (to_dword (drop (i * 4) stream))) ∷ decode_words n (i + 1) stream

unfoldable pub decode_longs : ℕ → ℕ → List ℕ → List Integer
unfolding int64 to_dword
decode_longs zero i stream = []
decode_longs (suc n) i stream =
    int64 (to_dword (drop (i * 8) stream)) (to_dword (drop (i * 8 + 4) stream))
    ∷ decode_longs n (i + 1) stream

-- The case of integers, at the byte that gives their length; `none` is the error.
unfoldable pub decode_integers : ℕ → ℕ → List ℕ → Option (List Integer)
unfolding decode_words decode_longs
decode_integers len size stream =
    if len == 4
    then (if size % 4 == 0 then some (decode_words (size / 4) 0 stream) else none)
    else if len == 8
    then (if size % 8 == 0 then some (decode_longs (size / 8) 0 stream) else none)
    else none

-- `decodeArray` of integers, at the size that its first four bytes say.
unfoldable pub decode_sized : ℕ → List ℕ → Option (List Integer)
unfolding decode_integers
decode_sized sz stream =
    if sz == 0
    then some []
    else decode_integers (get_or (drop 4 stream) 0 0) (sz - 1) (drop 1 (drop 4 stream))

unfoldable pub decode_array : List ℕ → Option (List Integer)
unfolding decode_sized to_dword
decode_array stream = decode_sized (to_dword stream) stream
