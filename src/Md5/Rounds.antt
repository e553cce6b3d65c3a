-- ===== src/Md5/Rounds.antt =====
-- sdk/ts/src/md5.ts: the rounds, and those of RFC 1321.
use skyext.Md5.{word, shifts, word_at, State, mixed, word_index, rotate_left, round, rounds}
use Prim.Native.Nat.{bit_and, bit_or, bit_xor}
use skyext.Prelude.{
  ℕ, zero, suc, ◌+◌, ◌-◌, ◌^◌, ◌*◌, ◌%◌, ◌/◌, ◌≤◌, ◌<◌, ◌≡◌, refl, ap, ◌∙◌, Bool, true, false, ◌&&◌,
  List, [], ◌∷◌, ltb, ◌==◌, ==_iff, dec_lt, subst, get_or, arith,
}

-- The specification: the word that each of the 64 operations takes, as the RFC lists them.
abbrev pub rfc_words : List ℕ
rfc_words =
    0 ∷ 1 ∷ 2 ∷ 3 ∷ 4 ∷ 5 ∷ 6 ∷ 7 ∷ 8 ∷ 9 ∷ 10 ∷ 11 ∷ 12 ∷ 13 ∷ 14 ∷ 15 ∷ 1 ∷ 6 ∷ 11 ∷ 0 ∷ 5 ∷ 10
    ∷ 15 ∷ 4 ∷ 9 ∷ 14 ∷ 3 ∷ 8 ∷ 13 ∷ 2 ∷ 7 ∷ 12 ∷ 5 ∷ 8 ∷ 11 ∷ 14 ∷ 1 ∷ 4 ∷ 7 ∷ 10 ∷ 13 ∷ 0 ∷ 3 ∷ 6
    ∷ 9 ∷ 12 ∷ 15 ∷ 2 ∷ 0 ∷ 7 ∷ 14 ∷ 5 ∷ 12 ∷ 3 ∷ 10 ∷ 1 ∷ 8 ∷ 15 ∷ 6 ∷ 13 ∷ 4 ∷ 11 ∷ 2 ∷ 9 ∷ []

-- The shifts of the four operations of a row, in each of the four rounds.
abbrev pub rfc_row : ℕ → List ℕ
rfc_row zero = 7 ∷ 12 ∷ 17 ∷ 22 ∷ []
rfc_row (suc zero) = 5 ∷ 9 ∷ 14 ∷ 20 ∷ []
rfc_row (suc (suc zero)) = 4 ∷ 11 ∷ 16 ∷ 23 ∷ []
rfc_row _ = 6 ∷ 10 ∷ 15 ∷ 21 ∷ []

abbrev pub rfc_shift : ℕ → ℕ
rfc_shift i = get_or (rfc_row (i / 16)) (i % 4) 0

-- The functions F, G, H and I of the RFC, on words.
abbrev pub rfc_not : ℕ → ℕ
rfc_not x = 0xffffffff - x

-- `F(X,Y,Z) = XY v not(X) Z`
abbrev pub rfc_f : ℕ → ℕ → ℕ → ℕ
rfc_f x y z = bit_or (bit_and x y) (bit_and (rfc_not x) z)

-- `G(X,Y,Z) = XZ v Y not(Z)`
abbrev pub rfc_g : ℕ → ℕ → ℕ → ℕ
rfc_g x y z = bit_or (bit_and z x) (bit_and (rfc_not z) y)

-- `H(X,Y,Z) = X xor Y xor Z`
abbrev pub rfc_h : ℕ → ℕ → ℕ → ℕ
rfc_h x y z = bit_xor (bit_xor x y) z

-- `I(X,Y,Z) = Y xor (X v not(Z))`
abbrev pub rfc_i : ℕ → ℕ → ℕ → ℕ
rfc_i x y z = bit_xor y (bit_or x (rfc_not z))

-- The function of each of the four rounds.
abbrev pub rfc_function : ℕ → ℕ → ℕ → ℕ → ℕ
rfc_function zero = rfc_f
rfc_function (suc zero) = rfc_g
rfc_function (suc (suc zero)) = rfc_h
rfc_function _ = rfc_i

-- `X <<< s` on words.
abbrev pub rfc_rotate : ℕ → ℕ → ℕ
rfc_rotate x s = bit_or (x * 2 ^ s % 2 ^ 32) (x / 2 ^ (32 - s))

mixed-rfc_function : (i b c d : ℕ) → i < 64 → mixed i b c d ≡ rfc_function (i / 16) b c d
unfolding mixed
mixed-rfc_function i b c d h = elim (dec_lt i 16) [
  | yes first ↦
      let e : i / 16 ≡ 0 = omega arith in let t : ltb i 16 ≡ true = ground arith in rw (e, t)
  | no later ↦ elim (dec_lt i 32) [
    | yes second ↦
        let e : i / 16 ≡ 1 = omega arith in
        let f : ltb i 16 ≡ false = ground arith in
        let t : ltb i 32 ≡ true = ground arith in rw (e, f, t)
    | no after ↦ elim (dec_lt i 48) [
      | yes third ↦
          let e : i / 16 ≡ 2 = omega arith in
          let f : ltb i 16 ≡ false = ground arith in
          let g : ltb i 32 ≡ false = ground arith in
          let t : ltb i 48 ≡ true = ground arith in rw (e, f, g, t)
      | no last ↦
          let e : i / 16 ≡ 3 = omega arith in
          let f : ltb i 16 ≡ false = ground arith in
          let g : ltb i 32 ≡ false = ground arith in
          let k : ltb i 48 ≡ false = ground arith in rw (e, f, g, k)
    ]
  ]
]

and_left : (a b : Bool) → a && b ≡ true → a ≡ true
and_left true b h = refl
and_left false b h = h

and_right : (a b : Bool) → a && b ≡ true → b ≡ true
and_right true b h = h
and_right false b h = cc

module _ (sines : List ℕ) (m : List ℕ) (off : ℕ) where
  -- `[abcd k s i]`: the new value of the register that stands first.
  unfoldable pub operation : ℕ → ℕ → ℕ → ℕ → ℕ → ℕ
  operation i a b c d = word (
      b
      + rfc_rotate
          (word (
            a
            + rfc_function (i / 16) b c d
            + word_at m (off + get_or rfc_words i 0 * 4)
            + word (get_or sines i 0)))
          (rfc_shift i))

  -- A row: `[ABCD]  [DABC]  [CDAB]  [BCDA]`, each register set in its place.
  unfoldable pub row : ℕ → State → State
  row i s =
      let a = operation i s.a s.b s.c s.d in
      let d = operation (suc i) s.d a s.b s.c in
      let c = operation (suc (suc i)) s.c d a s.b in
      let b = operation (suc (suc (suc i))) s.b c d a in record { a = a; b = b; c = c; d = d }

  unfoldable pub rows : ℕ → ℕ → State → State
  rows zero i s = s
  rows (suc k) i s = rows k (suc (suc (suc (suc i)))) (row i s)

  -- The code's tables, at a round.
  Same : ℕ → Type 0
  Same i = (word_index i ≡ get_or rfc_words i 0) × (get_or shifts i 0 ≡ rfc_shift i)

  same_test : ℕ → Bool
  same_test i = word_index i == get_or rfc_words i 0 && get_or shifts i 0 == rfc_shift i

  all_from : ℕ → ℕ → (ℕ → Bool) → Bool
  all_from zero i p = true
  all_from (suc k) i p = p i && all_from k (suc i) p

  same_table : all_from 64 0 same_test ≡ true
  unfolding all_from same_test word_index
  same_table = refl

  -- The registers after a round of the code.
  abbrev moved : ℕ → State → State
  moved i s = record { a = s.d; b = operation i s.a s.b s.c s.d; c = s.b; d = s.c }

  summed :
      (i : ℕ) (s : State)
      → i < 64
      → Same i
      → mixed i s.b s.c s.d + s.a + word (get_or sines i 0) + word_at m (off + word_index i * 4)
        ≡ s.a
          + rfc_function (i / 16) s.b s.c s.d
          + word_at m (off + get_or rfc_words i 0 * 4)
          + word (get_or sines i 0)
  unfolding Same
  summed i s h same = rw same.0 (omega (arith, mixed-rfc_function i s.b s.c s.d h))

  round-operation : (i : ℕ) (s : State) → i < 64 → Same i → round sines m off i s ≡ moved i s
  unfolding round operation Same
  round-operation i s h same =
      ap
        (λ f.
          let t : State = record {
            a = s.d;
            b = word (s.b + rotate_left (word f) (get_or shifts i 0));
            c = s.b;
            d = s.c;
          } in
          t)
        (summed i s h same)
      ∙ rw same.1

  round-row :
      (i : ℕ) (s : State)
      → i + 4 ≤ 64
      → Same i
      → Same (suc i)
      → Same (suc (suc i))
      → Same (suc (suc (suc i)))
      → round sines m off
          (suc (suc (suc i)))
          (round sines m off (suc (suc i)) (round sines m off (suc i) (round sines m off i s)))
        ≡ row i s
  unfolding row
  round-row i s h h0 h1 h2 h3 =
      let s1 = moved i s in
      let s2 = moved (suc i) s1 in
      let s3 = moved (suc (suc i)) s2 in
      let go = round sines m off in
      ap (λ t. go (suc (suc (suc i))) (go (suc (suc i)) (go (suc i) t)))
        (round-operation i s (omega arith) h0)
      ∙ (ap (λ t. go (suc (suc (suc i))) (go (suc (suc i)) t))
            (round-operation (suc i) s1 (omega arith) h1)
          ∙ (ap (go (suc (suc (suc i)))) (round-operation (suc (suc i)) s2 (omega arith) h2)
              ∙ round-operation (suc (suc (suc i))) s3 (omega arith) h3))

  all_from-Same : (k i j : ℕ) → all_from k i same_test ≡ true → i ≤ j → j < i + k → Same j
  unfolding all_from same_test Same
  all_from-Same zero i j h lo hi = absurd (omega arith)
  all_from-Same (suc k) i j h lo hi = elim (dec_lt i j) [
    | yes later ↦
        all_from-Same k (suc i) j (and_right (same_test i) _ h) (omega arith) (omega arith)
    | no now ↦
        let e : i ≡ j = omega arith in
        subst (λ x. Same x) e
          (
            (==_iff _ _).0 (and_left _ _ (and_left (same_test i) _ h)),
            (==_iff _ _).0 (and_right _ _ (and_left (same_test i) _ h)),
          )
  ]

  rounds-rows : (k i : ℕ) (s : State) → i + k * 4 ≤ 64 → rounds sines (k * 4) m off i s ≡ rows k i s
  unfolding rounds rows
  rounds-rows zero i s h = refl
  rounds-rows (suc k) i s h =
      let e : suc k * 4 ≡ suc (suc (suc (suc (k * 4)))) = omega arith in
      let same =
        λ (j : ℕ) (lt : j < 64). all_from-Same 64 0 j same_table (omega arith) (omega arith) in
      ap (λ n. rounds sines n m off i s) e
      ∙ (ap (rounds sines (k * 4) m off (suc (suc (suc (suc i))))) (
            round-row i s (omega arith) (same i (omega arith)) (same (suc i) (omega arith))
              (same (suc (suc i)) (omega arith)) (same (suc (suc (suc i))) (omega arith)))
          ∙ rounds-rows k (suc (suc (suc (suc i)))) (row i s) (omega arith))

  -- The 64 rounds, which move the registers round one place each, are the 64 operations of RFC 1321,
  -- which set the four registers in turn, with the words, the shifts and the functions F, G, H and I
  -- of the RFC, over any values of the sines.
  pub rounds-rfc : (s : State) → rounds sines 64 m off 0 s ≡ rows 16 0 s
  rounds-rfc s = rounds-rows 16 0 s (omega arith)
