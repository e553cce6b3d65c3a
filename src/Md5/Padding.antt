-- ===== src/Md5/Padding.antt =====
-- sdk/ts/src/md5.ts: the padded message, and that of RFC 1321.
use native.Mathlib.Nat.{zero-add, suc-add}
use skyext.Md5.{word, padded_length, set_at, zeros, set_word, pad_to}
use skyext.Prelude.{
  ℕ, zero, suc, ◌+◌, ◌-◌, ◌*◌, ◌/◌, ◌%◌, ◌<◌, ◌≡◌, refl, sym, ap, ◌∙◌, some, List, [], ◌∷◌, ◌++◌,
  ltb, leb, true, length, length-append, append_assoc, arith,
}

-- The specification: a number's lowest bytes, the lowest first, and the message of the RFC.
unfoldable pub little_endian : ℕ → ℕ → List ℕ
little_endian zero v = []
little_endian (suc k) v = v % 256 ∷ little_endian k (v / 256)

abbrev pub padded_message : ℕ → List ℕ → List ℕ
padded_message z data_ = data_ ++ (0x80 ∷ zeros z ++ little_endian 8 (length data_ * 8))

set_at-append :
    (i v : ℕ) (xs ys : List ℕ) → set_at (length xs + i) v (xs ++ ys) ≡ xs ++ set_at i v ys
unfolding set_at
set_at-append i v [] ys = rw zero-add
set_at-append i v (x ∷ xs) ys = rw suc-add (ap (◌∷◌ x) (set_at-append i v xs ys))

set_at-append_at :
    (j i v : ℕ) (xs ys : List ℕ) → j ≡ length xs + i → set_at j v (xs ++ ys) ≡ xs ++ set_at i v ys
set_at-append_at j i v xs ys e = ap (λ k. set_at k v (xs ++ ys)) e ∙ set_at-append i v xs ys

set_word-append :
    (j i v : ℕ) (xs ys : List ℕ)
    → j ≡ length xs + i
    → set_word j v (xs ++ ys) ≡ xs ++ set_word i v ys
unfolding set_word
set_word-append j i v xs ys e = rw (
  set_at-append_at j i (v % 256) xs ys e,
  set_at-append_at (j + 1) (i + 1) (v / 0x100 % 256) xs _ (omega arith),
  set_at-append_at (j + 2) (i + 2) (v / 0x10000 % 256) xs _ (omega arith),
  set_at-append_at (j + 3) (i + 3) (v / 0x1000000 % 256) xs _ (omega arith),
)

zeros-append : (m n : ℕ) → zeros (m + n) ≡ zeros m ++ zeros n
unfolding zeros
zeros-append zero n = rw zero-add
zeros-append (suc m) n = rw suc-add (ap (◌∷◌ 0) (zeros-append m n))

length-zeros : (n : ℕ) → length (zeros n) ≡ n
unfolding zeros
length-zeros zero = refl
length-zeros (suc n) = ap suc (length-zeros n)

div_twice : (v : ℕ) → v / 256 / 256 ≡ v / 0x10000
div_twice v = omega arith

div_thrice : (v : ℕ) → v / 256 / 256 / 256 ≡ v / 0x1000000
div_thrice v = omega arith

high_word : (n : ℕ) → n * 8 / 256 / 256 / 256 / 256 ≡ n / 0x20000000
high_word n = omega arith

-- The two words of the length are its eight bytes.
length_words :
    (n : ℕ) → set_word 4 (n / 0x20000000) (set_word 0 (n * 8) (zeros 8)) ≡ little_endian 8 (n * 8)
unfolding set_word set_at zeros little_endian
length_words n = rw (
  high_word n,
  div_thrice (n * 8),
  div_twice (n * 8),
  div_thrice (n / 0x20000000),
  div_twice (n / 0x20000000),
)

-- The message with its mark and zeros, before the length is written.
marked :
    (p z : ℕ) (data_ : List ℕ)
    → p ≡ length data_ + (suc z + 8)
    → set_at (length data_) 0x80 (data_ ++ zeros (p - length data_))
      ≡ (data_ ++ (0x80 ∷ zeros z)) ++ zeros 8
unfolding set_at zeros
marked p z data_ e =
    let rest : p - length data_ ≡ suc (z + 8) = omega arith in
    ap (λ k. set_at (length data_) 0x80 (data_ ++ zeros k)) rest
    ∙ (set_at-append_at (length data_) 0 0x80 data_ (zeros (suc (z + 8))) (omega arith)
        ∙ (ap (λ t. data_ ++ (0x80 ∷ t)) (zeros-append z 8)
            ∙ sym (append_assoc data_ (0x80 ∷ zeros z) (zeros 8))))

pad_to-padded_message :
    (p z : ℕ) (data_ : List ℕ)
    → p ≡ length data_ + (suc z + 8)
    → pad_to p data_ ≡ padded_message z data_
unfolding pad_to
pad_to-padded_message p z data_ e =
    let n = length data_ in
    let front = data_ ++ (0x80 ∷ zeros z) in
    let len : length front ≡ n + suc z =
      omega (arith, length-append data_ (0x80 ∷ zeros z), length-zeros z) in
    ap (λ m. set_word (p - 4) (n / 0x20000000) (set_word (p - 8) (n * 8) m)) (marked p z data_ e)
    ∙ (ap (set_word (p - 4) (n / 0x20000000))
          (set_word-append (p - 8) 0 (n * 8) front (zeros 8) (omega arith))
        ∙ (set_word-append (p - 4) 4 (n / 0x20000000) front _ (omega arith)
            ∙ (ap (◌++◌ front) (length_words n)
                ∙ append_assoc data_ (0x80 ∷ zeros z) (little_endian 8 (n * 8)))))

pub fits : (n : ℕ) → n < 0x7fffffb8 → padded_length n ≡ some (((n + 8) / 64 + 1) * 64)
unfolding padded_length
fits n h =
    let p = ((n + 8) / 64 + 1) * 64 in
    let e : word ((word (n + 8) / 64 + 1) * 64) ≡ p = grind arith in
    let positive : ltb p 0x80000000 ≡ true = ground arith in
    let large : leb n p ≡ true = ground arith in rw (e, positive, large)

-- Data of less than 2^31 - 72 bytes are padded as RFC 1321 says: by 0x80, by zeros up to 56 modulo
-- 64, and by the length in bits as 64 bits, little endian.
pub padded_length-padded_message :
    (data_ : List ℕ)
    → length data_ < 0x7fffffb8
    → (p : ℕ) × (z : ℕ) × (padded_length (length data_) ≡ some p)
      × (pad_to p data_ ≡ padded_message z data_)
      × ((length data_ + suc z) % 64 ≡ 56)
      × (z < 64)
      × (p % 64 ≡ 0)
unfolding padded_length
padded_length-padded_message data_ h =
    let n = length data_ in
    let p = ((n + 8) / 64 + 1) * 64 in
    let z = p - (n + 9) in
    (
      p,
      z,
      fits n (omega arith),
      pad_to-padded_message p z data_ (grind arith),
      grind arith,
      grind arith,
      grind arith,
    )
