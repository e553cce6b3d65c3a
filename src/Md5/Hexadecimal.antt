-- ===== src/Md5/Hexadecimal.antt =====
-- sdk/ts/src/md5.ts: the form of the digest.
use skyext.Md5.Padding.{fits}
use skyext.Md5.{
  State, set_at, set_word, zeros, pad_to, blocks, digest, hex_digit, hex, md5, md5_hex, start_state,
  digested, hexed,
}
use skyext.Prelude.{
  ℕ, ◌+◌, ◌*◌, ◌/◌, ◌%◌, ◌≤◌, ◌<◌, ◌≡◌, ◌⊎◌, true, false, refl, some, List, [], ◌∷◌, length, All,
  arith, inl, inr, dec_lt, ap, ltb,
}

-- A digit or a letter from `a` to `f`.
abbrev pub IsHex : ℕ → Type 0
IsHex c = ((48 ≤ c) × (c ≤ 57)) ⊎ ((97 ≤ c) × (c ≤ 102))

hex_digit-IsHex : (n : ℕ) → n < 16 → IsHex (hex_digit n)
unfolding hex_digit
hex_digit-IsHex n h = elim (dec_lt n 10) [
  | yes small ↦ let e : ltb n 10 ≡ true = ground arith in rw e (inl (omega arith, omega arith))
  | no large ↦ let e : ltb n 10 ≡ false = ground arith in rw e (inr (omega arith, omega arith))
]

hex-IsHex : (xs : List ℕ) → All (λ x. x < 256) xs → All IsHex (hex xs)
unfolding hex
hex-IsHex [] h = tt
hex-IsHex (x ∷ xs) h = (
  hex_digit-IsHex (x / 16) (grind arith),
  (hex_digit-IsHex (x % 16) (grind arith), hex-IsHex xs h.1),
)

length-hex : (xs : List ℕ) → length (hex xs) ≡ 2 * length xs
unfolding hex
length-hex [] = refl
length-hex (x ∷ xs) = omega (arith, length-hex xs)

module _ (sines : List ℕ) where
  length-digest : (s : State) → length (digest sines s) ≡ 16
  unfolding digest set_word set_at zeros
  length-digest s = refl

  byte_lem : (v : ℕ) → v % 256 < 256
  byte_lem v = omega arith

  digest_bytes : (s : State) → All (λ x. x < 256) (digest sines s)
  unfolding digest set_word set_at zeros
  digest_bytes s =
      let b = byte_lem in
      (
        b _,
        (
          b _,
          (
            b _,
            (
              b _,
              (
                b _,
                (b _, (b _, (b _, (b _, (b _, (b _, (b _, (b _, (b _, (b _, (b _, tt))))))))))),
              ),
            ),
          ),
        ),
      )

  -- For data of less than 2^31 - 72 bytes there is a checksum: 32 hexadecimal digits in lower case.
  pub md5_hex-IsHex :
      (data_ : List ℕ)
      → length data_ < 0x7fffffb8
      → (t : List ℕ) × (md5_hex sines data_ ≡ some t) × (length t ≡ 32) × All IsHex t
  unfolding md5_hex md5
  md5_hex-IsHex data_ h =
      let p = ((length data_ + 8) / 64 + 1) * 64 in
      let d = digest sines (blocks sines (p / 64) (pad_to p data_) 0 start_state) in
      (
        hex d,
        ap (λ q. hexed sines (digested sines data_ q)) (fits (length data_) h),
        omega (
          arith,
          length-hex d,
          length-digest (blocks sines (p / 64) (pad_to p data_) 0 start_state),
        ),
        hex-IsHex d (digest_bytes (blocks sines (p / 64) (pad_to p data_) 0 start_state)),
      )
