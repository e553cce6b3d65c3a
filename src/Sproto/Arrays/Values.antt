-- ===== src/Sproto/Arrays/Values.antt =====
-- sdk/ts/src/sproto/sproto.ts: an array of integers over the wire.
use skyext.Prelude.{
  ℕ, suc, ◌+◌, ◌-◌, ◌*◌, ◌%◌, ◌^◌, ◌<◌, ◌≡◌, refl, sym, subst, ap, ap₂, ◌∙◌, ◌⊎◌, inl, inr, Bool,
  true, false, ◌||◌, Bool-cases, Option, none, List, [], ◌∷◌, ◌++◌, map, append-nil, some, arith,
  if◌then◌else◌, ltb, leb, length, drop, All,
}
use skyext.Sproto.Arrays.InPlace.{Buffer, read}
use skyext.Sproto.Arrays.Elements.{element}
use skyext.Sproto.Arrays.RoundTrip.{decode_array-encode_array}
use skyext.Sproto.Arrays.Widening.{signs}
use skyext.Sproto.Arrays.Written.{element_bytes, any_long, Fits}
use skyext.Sproto.Arrays.{dword_bytes, targets, encode_array, decode_array}
use skyext.Sproto.Integers.{sized, encode_target-sized}
use skyext.Sproto.Words.{value_of, IsInt64, wide, int64-uint64_bytes, four_bytes}
use skyext.Sproto.{
  Integer, num, Sized, word32, word64, wrap, to_dword, expand64, int64, exceeds_int32,
}
use skyext.Value.{ℤ, pos, negsuc}

-- The elements that are written: those before the first null.
unfoldable pub present : List (Option Integer) → List ℤ
present [] = []
present (none ∷ ts) = []
present (some t ∷ ts) = value_of t ∷ present ts

unfoldable pub any_exceeds : List ℤ → Bool
any_exceeds [] = false
any_exceeds (v ∷ vs) = exceeds_int32 v || any_exceeds vs

-- What comes out for an element, in an array of eight bytes each or of four.
abbrev pub decoded : Bool → ℤ → Integer
decoded true = wide
decoded false = num

to_dword-dword_bytes :
    (v : ℕ) (rest : List ℕ) → v < 0x100000000 → to_dword (dword_bytes v ++ rest) ≡ v
unfolding to_dword dword_bytes
to_dword-dword_bytes v rest h = four_bytes v h

wrap_bounds : (v : ℤ) → wrap 0x100000000 v < 0x100000000
wrap_bounds (pos n) = omega arith
wrap_bounds (negsuc n) = omega arith

expand64-wrap : (v : ℤ) → exceeds_int32 v ≡ false → expand64 (wrap 0x100000000 v) ≡ v
unfolding expand64
expand64-wrap (pos n) h =
    let same : n % 0x100000000 ≡ n = ground arith in
    let below : ltb n 0x80000000 ≡ true = ground arith in rw (same, below)
expand64-wrap (negsuc n) h =
    let small : n < 0x80000000 = ground arith in
    let same : n % 0x100000000 ≡ n = omega arith in
    let above : ltb (0xffffffff - n) 0x80000000 ≡ false = ground arith in
    let back : 0xffffffff - (0xffffffff - n) ≡ n = omega arith in rw (same, above, back)

to_dword-signs : (b : Bool) → to_dword (signs b) ≡ (if b then 0xffffffff else 0)
unfolding to_dword
to_dword-signs true = refl
to_dword-signs false = refl

drop-dword_bytes : (v : ℕ) (rest : List ℕ) → drop 4 (dword_bytes v ++ rest) ≡ rest
unfolding dword_bytes
drop-dword_bytes v rest = refl

int64-wrap :
    (v : ℤ)
    → exceeds_int32 v ≡ false
    → let w = wrap 0x100000000 v in int64 w (if leb 0x80000000 w then 0xffffffff else 0) ≡ wide v
unfolding int64
int64-wrap (pos n) h =
    let same : n % 0x100000000 ≡ n = ground arith in
    let below : leb 0x80000000 n ≡ false = ground arith in
    let small : leb n 9007199254740991 ≡ true = ground arith in
    let u : 0 * 0x100000000 + n ≡ n = omega arith in rw (same, below, u, small)
int64-wrap (negsuc n) h =
    let small : n < 0x80000000 = ground arith in
    let same : n % 0x100000000 ≡ n = omega arith in
    let above : leb 0x80000000 (0xffffffff - n) ≡ true = ground arith in
    let u : 0xffffffffffffffff - (0xffffffff * 0x100000000 + (0xffffffff - n)) ≡ n = omega arith in
    rw (same, above, u)

-- A word among elements of eight bytes, and among elements of four.
element-word32 :
    (v : ℤ)
    → exceeds_int32 v ≡ false
    → (b : Bool) → element b (element_bytes b (word32 (wrap 0x100000000 v))) ≡ decoded b v
element-word32 v h true =
    let w = wrap 0x100000000 v in
    ap₂ int64 (to_dword-dword_bytes w (signs (leb 0x80000000 w)) (wrap_bounds v)) (
      ap to_dword (drop-dword_bytes w (signs (leb 0x80000000 w)))
      ∙ to_dword-signs (leb 0x80000000 w))
    ∙ int64-wrap v h
element-word32 v h false =
    let w = wrap 0x100000000 v in
    ap (λ k. num (expand64 k))
      (ap to_dword (sym (append-nil (dword_bytes w))) ∙ to_dword-dword_bytes w [] (wrap_bounds v))
    ∙ ap num (expand64-wrap v h)

long_cases :
    (t : Integer)
    → (sized t ≡ word64 t) × (exceeds_int32 (value_of t) ≡ true)
      ⊎ ((sized t ≡ word32 (wrap 0x100000000 (value_of t))) × (exceeds_int32 (value_of t) ≡ false))
unfolding sized
long_cases t = elim (Bool-cases (exceeds_int32 (value_of t))) [
  | inl long ↦ inl (rw long, long)
  | inr short ↦ inr (rw short, short)
]

-- An element of either length, in an array of eight bytes each.
element-sized :
    (t : Integer)
    → IsInt64 (value_of t)
    → element true (element_bytes true (sized t)) ≡ wide (value_of t)
element-sized t h = elim (long_cases t) [
  | inl (e, long) ↦ ap (λ s. element true (element_bytes true s)) e ∙ int64-uint64_bytes t h
  | inr (e, short) ↦
      ap (λ s. element true (element_bytes true s)) e ∙ element-word32 (value_of t) short true
]

element-sized_short :
    (t : Integer)
    → exceeds_int32 (value_of t) ≡ false
    → element false (element_bytes false (sized t)) ≡ num (value_of t)
unfolding sized
element-sized_short t h = rw h (element-word32 (value_of t) h false)

sized-Fits : (t : Integer) → Fits (sized t)
sized-Fits t = elim (long_cases t) [
  | inl (e, long) ↦ subst Fits (sym e) tt
  | inr (e, short) ↦ subst Fits (sym e) (wrap_bounds (value_of t))
]

targets-Fits : (ts : List (Option Integer)) → All Fits (targets ts)
unfolding targets
targets-Fits [] = tt
targets-Fits (none ∷ ts) = tt
targets-Fits (some t ∷ ts) =
    (subst Fits (sym (encode_target-sized t)) (sized-Fits t), targets-Fits ts)

length-targets : (ts : List (Option Integer)) → length (targets ts) ≡ length (present ts)
unfolding targets present
length-targets [] = refl
length-targets (none ∷ ts) = refl
length-targets (some t ∷ ts) = ap suc (length-targets ts)

any_long-sized :
    (t : Integer) (ss : List Sized)
    → any_long (sized t ∷ ss) ≡ exceeds_int32 (value_of t) || any_long ss
unfolding any_long
any_long-sized t ss = elim (long_cases t) [
  | inl (e, long) ↦ rw (e, long)
  | inr (e, short) ↦ rw (e, short)
]

any_long-targets : (ts : List (Option Integer)) → any_long (targets ts) ≡ any_exceeds (present ts)
unfolding targets present any_long any_exceeds
any_long-targets [] = refl
any_long-targets (none ∷ ts) = refl
any_long-targets (some t ∷ ts) =
    ap (λ s. any_long (s ∷ targets ts)) (encode_target-sized t)
    ∙ (any_long-sized t (targets ts)
        ∙ ap (λ b. exceeds_int32 (value_of t) || b) (any_long-targets ts))

targets_long :
    (ts : List (Option Integer))
    → All IsInt64 (present ts)
    → map (λ s. element true (element_bytes true s)) (targets ts) ≡ map wide (present ts)
unfolding targets present
targets_long [] h = refl
targets_long (none ∷ ts) h = refl
targets_long (some t ∷ ts) h =
    ap₂ ◌∷◌
      (ap (λ s. element true (element_bytes true s)) (encode_target-sized t) ∙ element-sized t h.0)
      (targets_long ts h.1)

targets_short :
    (ts : List (Option Integer))
    → any_exceeds (present ts) ≡ false
    → map (λ s. element false (element_bytes false s)) (targets ts) ≡ map num (present ts)
unfolding targets present any_exceeds
targets_short [] h = refl
targets_short (none ∷ ts) h = refl
targets_short (some t ∷ ts) h =
    let here : exceeds_int32 (value_of t) ≡ false = ground arith in
    let later : any_exceeds (present ts) ≡ false = ground arith in
    ap₂ ◌∷◌
      (ap (λ s. element false (element_bytes false s)) (encode_target-sized t)
        ∙ element-sized_short t here)
      (targets_short ts later)

targets-decoded :
    (ts : List (Option Integer)) (b : Bool)
    → any_exceeds (present ts) ≡ b
    → All IsInt64 (present ts)
    → map (λ s. element b (element_bytes b s)) (targets ts) ≡ map (decoded b) (present ts)
targets-decoded ts true e h = targets_long ts h
targets-decoded ts false e h = targets_short ts e

-- Integers of 64 bits, numbers or bigints, fewer than 2^28 of them, that are written at any place of any
-- buffer come back in their order with their values, up to the first null. Where all of them are int32,
-- all come back as numbers; else those from 0 to 2^53 - 1 do, and the others, every negative one among
-- them, come back as bigints.
pub decode_array-targets :
    (ts : List (Option Integer)) (at : ℕ) (buf : Buffer)
    → All IsInt64 (present ts)
    → length (present ts) < 2 ^ 28
    → let w = encode_array at (targets ts) buf in
      decode_array (read at w.1 w.0) ≡ some (map (decoded (any_exceeds (present ts))) (present ts))
decode_array-targets ts at buf h few =
    let b = any_exceeds (present ts) in
    decode_array-encode_array at (targets ts) buf (targets-Fits ts)
      (omega (arith, length-targets ts))
    ∙ ap some (
        ap (λ c. map (λ s. element c (element_bytes c s)) (targets ts)) (any_long-targets ts)
        ∙ targets-decoded ts b refl h)
