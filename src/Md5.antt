-- ===== src/Md5.antt =====
-- sdk/ts/src/md5.ts: MD5 in hexadecimal. A 32-bit integer is its value from 0 to 2^32 - 1, and the
-- source's `| 0` is the remainder by 2^32. What `Math.sin` gives for the table `K` is a parameter.
pub mod Padding
pub mod Rounds
pub mod Hexadecimal
use Prim.Native.Nat.{bit_and, bit_or, bit_xor}
use skyext.Prelude.{
  ℕ, zero, suc, ◌+◌, ◌-◌, ◌*◌, ◌/◌, ◌%◌, ◌^◌, ◌&&◌, Option, none, some, List, [], ◌∷◌, ◌++◌,
  if◌then◌else◌, ◌==◌, ltb, leb, length, get_or,
}

abbrev pub word : ℕ → ℕ
word n = n % 0x100000000

-- `S`
abbrev pub shifts : List ℕ
shifts =
    7 ∷ 12 ∷ 17 ∷ 22 ∷ 7 ∷ 12 ∷ 17 ∷ 22 ∷ 7 ∷ 12 ∷ 17 ∷ 22 ∷ 7 ∷ 12 ∷ 17 ∷ 22 ∷ 5 ∷ 9 ∷ 14 ∷ 20 ∷ 5
    ∷ 9 ∷ 14 ∷ 20 ∷ 5 ∷ 9 ∷ 14 ∷ 20 ∷ 5 ∷ 9 ∷ 14 ∷ 20 ∷ 4 ∷ 11 ∷ 16 ∷ 23 ∷ 4 ∷ 11 ∷ 16 ∷ 23 ∷ 4 ∷ 11
    ∷ 16 ∷ 23 ∷ 4 ∷ 11 ∷ 16 ∷ 23 ∷ 6 ∷ 10 ∷ 15 ∷ 21 ∷ 6 ∷ 10 ∷ 15 ∷ 21 ∷ 6 ∷ 10 ∷ 15 ∷ 21 ∷ 6 ∷ 10
    ∷ 15 ∷ 21 ∷ []

-- `paddedLen`. It is an `Int32`; `none` stands for the RangeError of a negative length, or of data that
-- do not fit.
unfoldable pub padded_length : ℕ → Option ℕ
padded_length n =
    let p = word ((word (n + 8) / 64 + 1) * 64) in
    if ltb p 0x80000000 && leb n p then some p else none

-- Writes to an array: past its end nothing is written.
unfoldable pub set_at : ℕ → ℕ → List ℕ → List ℕ
set_at i v [] = []
set_at zero v (x ∷ xs) = v ∷ xs
set_at (suc i) v (x ∷ xs) = x ∷ set_at i v xs

unfoldable pub zeros : ℕ → List ℕ
zeros zero = []
zeros (suc n) = 0 ∷ zeros n

-- `setUint32`, little endian.
unfoldable pub set_word : ℕ → ℕ → List ℕ → List ℕ
unfolding set_at
set_word i v m =
    set_at (i + 3) (v / 0x1000000 % 256)
      (set_at (i + 2) (v / 0x10000 % 256) (set_at (i + 1) (v / 0x100 % 256) (set_at i (v % 256) m)))

-- The padded message.
unfoldable pub pad_to : ℕ → List ℕ → List ℕ
unfolding set_word zeros
pad_to p data_ =
    let n = length data_ in
    set_word (p - 4) (n / 0x20000000)
      (set_word (p - 8) (n * 8) (set_at n 0x80 (data_ ++ zeros (p - n))))

-- `getInt32`, little endian.
unfoldable pub word_at : List ℕ → ℕ → ℕ
word_at m j =
    get_or m j 0
    + get_or m (j + 1) 0 * 0x100
    + get_or m (j + 2) 0 * 0x10000
    + get_or m (j + 3) 0 * 0x1000000

pub record State : Type 0 where
  pub a : ℕ
  pub b : ℕ
  pub c : ℕ
  pub d : ℕ

-- `~x`
abbrev pub word_not : ℕ → ℕ
word_not x = 0xffffffff - x

-- `f` and `g` of a round.
unfoldable pub mixed : ℕ → ℕ → ℕ → ℕ → ℕ
mixed i b c d =
    if ltb i 16
    then bit_or (bit_and b c) (bit_and (word_not b) d)
    else if ltb i 32
    then bit_or (bit_and d b) (bit_and (word_not d) c)
    else if ltb i 48
    then bit_xor (bit_xor b c) d
    else bit_xor c (bit_or b (word_not d))

unfoldable pub word_index : ℕ → ℕ
word_index i =
    if ltb i 16
    then i
    else if ltb i 32
    then (5 * i + 1) % 16
    else if ltb i 48
    then (3 * i + 5) % 16
    else 7 * i % 16

-- `(f << s) | (f >>> (32 - s))`
abbrev pub rotate_left : ℕ → ℕ → ℕ
rotate_left f s = bit_or (word (f * 2 ^ s)) (f / 2 ^ (32 - s))

unfoldable pub hex_digit : ℕ → ℕ
hex_digit n = if ltb n 10 then 48 + n else 87 + n

-- `s += digest[i].toString(16).padStart(2, "0")`
unfoldable pub hex : List ℕ → List ℕ
unfolding hex_digit
hex [] = []
hex (x ∷ xs) = hex_digit (x / 16) ∷ hex_digit (x % 16) ∷ hex xs

abbrev pub start_state : State
start_state = record { a = 0x67452301; b = 0xefcdab89; c = 0x98badcfe; d = 0x10325476 }

-- `K` from its `i`-th constant on; `scaled_sine i` is `Math.floor(Math.abs(Math.sin(i + 1)) * 0x100000000)`.
unfoldable pub sine_table : ℕ → ℕ → (ℕ → ℕ) → List ℕ
sine_table zero i scaled_sine = []
sine_table (suc k) i scaled_sine = word (scaled_sine i) ∷ sine_table k (suc i) scaled_sine

-- The parameter is the table `K`.
module _ (sines : List ℕ) where
  unfoldable pub round : List ℕ → ℕ → ℕ → State → State
  round m off i s =
      let f = word (
        mixed i s.b s.c s.d + s.a + word (get_or sines i 0) + word_at m (off + word_index i * 4)) in
      record { a = s.d; b = word (s.b + rotate_left f (get_or shifts i 0)); c = s.b; d = s.c }

  -- The inner loop: `k` rounds from the `i`-th.
  unfoldable pub rounds : ℕ → List ℕ → ℕ → ℕ → State → State
  unfolding round
  rounds zero m off i s = s
  rounds (suc k) m off i s = rounds k m off (suc i) (round m off i s)

  abbrev pub add_state : State → State → State
  add_state s t = record {
    a = word (s.a + t.a);
    b = word (s.b + t.b);
    c = word (s.c + t.c);
    d = word (s.d + t.d);
  }

  -- The outer loop: `k` blocks from `off` on.
  unfoldable pub blocks : ℕ → List ℕ → ℕ → State → State
  unfolding rounds
  blocks zero m off s = s
  blocks (suc k) m off s = blocks k m (off + 64) (add_state s (rounds 64 m off 0 s))

  unfoldable pub digest : State → List ℕ
  unfolding set_word zeros
  digest s = set_word 12 s.d (set_word 8 s.c (set_word 4 s.b (set_word 0 s.a (zeros 16))))

  abbrev pub digested : List ℕ → Option ℕ → Option (List ℕ)
  digested data_ none = none
  digested data_ (some p) = some (digest (blocks (p / 64) (pad_to p data_) 0 start_state))

  unfoldable pub md5 : List ℕ → Option (List ℕ)
  md5 data_ = digested data_ (padded_length (length data_))

  abbrev pub hexed : Option (List ℕ) → Option (List ℕ)
  hexed none = none
  hexed (some bytes) = some (hex bytes)

  unfoldable pub md5_hex : List ℕ → Option (List ℕ)
  md5_hex data_ = hexed (md5 data_)
