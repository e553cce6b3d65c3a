-- ===== src/Sproto/Arrays/Widening.antt =====
-- sdk/ts/src/sproto/sproto.ts: the elements of four bytes, widened in place.
use skyext.Prelude.{
  ℕ, zero, suc, ◌+◌, ◌-◌, ◌*◌, ◌%◌, ◌≤◌, ◌<◌, ◌≡◌, refl, sym, subst, ap, ap₂, ◌∙◌, ◌⊎◌, inl, inr,
  Bool, true, false, List, [], ◌∷◌, ◌++◌, arith, leb, get_or, dec_lt,
}
use skyext.Sproto.Arrays.InPlace.{
  Buffer, put, write_bytes, read, read-put, read-write_bytes_other, read-write_bytes, read-append,
}
use skyext.Sproto.Arrays.{uint32_to_uint64, move, widen_element, widen}

-- The specification: four bytes, and four of their sign.
abbrev pub signs : Bool → List ℕ
signs true = 0xff ∷ 0xff ∷ 0xff ∷ 0xff ∷ []
signs false = 0 ∷ 0 ∷ 0 ∷ 0 ∷ []

abbrev pub extend : List ℕ → List ℕ
extend bs = bs ++ signs (leb 0x80 (get_or bs 3 0 % 256))

pub uint32_to_uint64-signs :
    (b : Bool) (i : ℕ) (buf : Buffer) → uint32_to_uint64 b i buf ≡ write_bytes (signs b) (i + 4) buf
unfolding uint32_to_uint64
uint32_to_uint64-signs true i buf = refl
uint32_to_uint64-signs false i buf = refl

-- A word and its sign, written one after the other.
pub read-signs :
    (b : Bool) (i : ℕ) (buf : Buffer)
    → read i 8 (uint32_to_uint64 b i buf) ≡ read i 4 buf ++ signs b
read-signs b i buf =
    ap (read i 8) (uint32_to_uint64-signs b i buf)
    ∙ (read-append i 4 4 (write_bytes (signs b) (i + 4) buf)
        ∙ ap₂ ◌++◌ (read-write_bytes_other i 4 (signs b) (i + 4) buf (inr (omega arith)))
            (written b))
  where
    written : (c : Bool) → read (i + 4) 4 (write_bytes (signs c) (i + 4) buf) ≡ signs c
    written true = read-write_bytes (signs true) (i + 4) buf
    written false = read-write_bytes (signs false) (i + 4) buf

pub read-signs_other :
    (a m : ℕ) (b : Bool) (i : ℕ) (buf : Buffer)
    → (i + 8 ≤ a) ⊎ (a + m ≤ i + 4)
    → read a m (uint32_to_uint64 b i buf) ≡ read a m buf
unfolding uint32_to_uint64
read-signs_other a m true i buf h =
    read-write_bytes_other a m (signs true) (i + 4) buf (ground arith)
read-signs_other a m false i buf h =
    read-write_bytes_other a m (signs false) (i + 4) buf (ground arith)

read-move_other :
    (a m n back j : ℕ) (buf : Buffer)
    → (j + n ≤ a) ⊎ (a + m ≤ j)
    → read a m (move n back j buf) ≡ read a m buf
unfolding move
read-move_other a m zero back j buf h = refl
read-move_other a m (suc n) back j buf h =
    read-move_other a m n back (j + 1) (put j (buf (j - back)) buf) (ground arith)
    ∙ read-put a m j (buf (j - back)) buf (ground arith)

move_below : (a n back j : ℕ) (buf : Buffer) → a < j → move n back j buf a ≡ buf a
unfolding move put
move_below a zero back j buf h = refl
move_below a (suc n) back j buf h =
    move_below a n back (j + 1) (put j (buf (j - back)) buf) (omega arith) ∙ ground arith

read-move :
    (n back j : ℕ) (buf : Buffer)
    → (back ≡ 0) ⊎ (n ≤ back)
    → back ≤ j
    → read j n (move n back j buf) ≡ read (j - back) n buf
unfolding move read put
read-move zero back j buf h k = refl
read-move (suc n) back j buf h k =
    let buf' = put j (buf (j - back)) buf in
    let next : j + 1 - back ≡ j - back + 1 = omega arith in
    ap₂ ◌∷◌ (move_below j n back (j + 1) buf' (omega arith) ∙ ground arith) (
      read-move n back (j + 1) buf' (ground arith) (omega arith)
      ∙ (ap (λ a. read a n buf') next
          ∙ read-put (j - back + 1) n j (buf (j - back)) buf (ground arith)))

fourth : (i : ℕ) (buf : Buffer) → get_or (read i 4 buf) 3 0 ≡ buf (i + 3)
unfolding read
fourth i buf = ap buf (omega arith)

read-widen_element :
    (base i : ℕ) (buf : Buffer)
    → read (base + i * 8) 8 (widen_element base i buf) ≡ extend (read (base + i * 4) 4 buf)
unfolding widen_element
read-widen_element base i buf =
    let at = base + i * 8 in
    let moved = move 4 (i * 4) at buf in
    let from : at - i * 4 ≡ base + i * 4 = omega arith in
    let e : read at 4 moved ≡ read (base + i * 4) 4 buf =
      read-move 4 (i * 4) at buf (ground arith) (omega arith) ∙ ap (λ a. read a 4 buf) from in
    read-signs (leb 0x80 (moved (at + 3) % 256)) at moved
    ∙ ap₂ (λ bs v. bs ++ signs (leb 0x80 (v % 256))) e
        (sym (fourth at moved) ∙ ap (λ bs. get_or bs 3 0) e)

pub read-widen_element_other :
    (a m base i : ℕ) (buf : Buffer)
    → (base + i * 8 + 8 ≤ a) ⊎ (a + m ≤ base + i * 8)
    → read a m (widen_element base i buf) ≡ read a m buf
unfolding widen_element
read-widen_element_other a m base i buf h =
    let at = base + i * 8 in
    let moved = move 4 (i * 4) at buf in
    read-signs_other a m (leb 0x80 (moved (at + 3) % 256)) at moved (ground arith)
    ∙ read-move_other a m 4 (i * 4) at buf (ground arith)

pub read-widen_other :
    (a m base n : ℕ) (buf : Buffer) → base + n * 8 ≤ a → read a m (widen base n buf) ≡ read a m buf
unfolding widen
read-widen_other a m base zero buf h = refl
read-widen_other a m base (suc n) buf h =
    read-widen_other a m base n (widen_element base n buf) (omega arith)
    ∙ read-widen_element_other a m base n buf (inl (omega arith))

pub read-widen :
    (base n i : ℕ) (buf : Buffer)
    → i < n
    → read (base + i * 8) 8 (widen base n buf) ≡ extend (read (base + i * 4) 4 buf)
unfolding widen
read-widen base zero i buf h = absurd (omega arith)
read-widen base (suc n) i buf h = elim (dec_lt i n) [
  | yes below ↦
      read-widen base n i (widen_element base n buf) below
      ∙ ap extend (read-widen_element_other (base + i * 4) 4 base n buf (inr (omega arith)))
  | no above ↦
      let last : n ≡ i = omega arith in
      subst
        (λ k.
          read (base + k * 8) 8 (widen base n (widen_element base n buf))
          ≡ extend (read (base + k * 4) 4 buf))
        last
        (read-widen_other (base + n * 8) 8 base n (widen_element base n buf) (omega arith)
          ∙ read-widen_element base n buf)
]
