-- ===== src/Sproto/Arrays/Elements.antt =====
-- sdk/ts/src/sproto/sproto.ts: the elements of an array, read from the buffer.
use skyext.Prelude.{
  ℕ, suc, ◌+◌, ◌-◌, ◌*◌, ◌/◌, ◌%◌, ◌≤◌, ◌≡◌, refl, sym, ap, ap₂, ◌∙◌, Bool, true, false, List, [],
  ◌∷◌, map, some, arith, ◌==◌, length, drop, get_elem?,
}
use skyext.Sproto.Arrays.InPlace.{Buffer, read, drop-read}
use skyext.Sproto.Arrays.Written.{element_bytes, width}
use skyext.Sproto.Arrays.{decode_words, decode_longs, decode_integers}
use skyext.Sproto.{Integer, num, Sized, to_dword, expand64, int64}

-- What the bytes of an element say.
abbrev pub element : Bool → List ℕ → Integer
element false bs = num (expand64 (to_dword bs))
element true bs = int64 (to_dword bs) (to_dword (drop 4 bs))

to_dword-read :
    (i r : ℕ) (buf : Buffer)
    → to_dword (read i (suc (suc (suc (suc r)))) buf) ≡ to_dword (read i 4 buf)
unfolding to_dword read
to_dword-read i r buf = refl

-- A word at a place of the stream.
dword_at :
    (base j total : ℕ) (buf : Buffer)
    → j + 4 ≤ total
    → to_dword (drop j (read base total buf)) ≡ to_dword (read (base + j) 4 buf)
dword_at base j total buf h =
    let e : total ≡ j + suc (suc (suc (suc (total - j - 4)))) = omega arith in
    ap (λ k. to_dword (drop j (read base k buf))) e
    ∙ (ap to_dword (drop-read j base _ buf) ∙ to_dword-read (base + j) (total - j - 4) buf)

long_at :
    (i : ℕ) (buf : Buffer)
    → element true (read i 8 buf) ≡ int64 (to_dword (read i 4 buf)) (to_dword (read (i + 4) 4 buf))
long_at i buf = ap₂ int64 (to_dword-read i 4 buf) (ap to_dword (drop-read 4 i 4 buf))

-- From the `i`-th element on.
decode_words-read :
    (base i : ℕ) (ss : List Sized) (total : ℕ) (buf : Buffer)
    → total ≡ (i + length ss) * 4
    → ((k : ℕ) (s : Sized)
        → get_elem? ss k ≡ some s
        → read (base + (i + k) * 4) 4 buf ≡ element_bytes false s)
    → decode_words (length ss) i (read base total buf)
      ≡ map (λ s. element false (element_bytes false s)) ss
unfolding decode_words
decode_words-read base i [] total buf e h = refl
decode_words-read base i (s ∷ ss) total buf e h =
    let here : base + (i + 0) * 4 ≡ base + i * 4 = omega arith in
    ap₂ ◌∷◌
      (ap (λ v. num (expand64 v))
        (dword_at base (i * 4) total buf (omega arith)
          ∙ ap to_dword (ap (λ a. read a 4 buf) (sym here) ∙ h 0 s refl)))
      (decode_words-read base (i + 1) ss total buf (omega arith) (λ k x there.
        let next : base + (i + 1 + k) * 4 ≡ base + (i + suc k) * 4 = omega arith in
        ap (λ a. read a 4 buf) next ∙ h (suc k) x there))

decode_longs-read :
    (base i : ℕ) (ss : List Sized) (total : ℕ) (buf : Buffer)
    → total ≡ (i + length ss) * 8
    → ((k : ℕ) (s : Sized)
        → get_elem? ss k ≡ some s
        → read (base + (i + k) * 8) 8 buf ≡ element_bytes true s)
    → decode_longs (length ss) i (read base total buf)
      ≡ map (λ s. element true (element_bytes true s)) ss
unfolding decode_longs
decode_longs-read base i [] total buf e h = refl
decode_longs-read base i (s ∷ ss) total buf e h =
    let here : base + (i + 0) * 8 ≡ base + i * 8 = omega arith in
    let high : base + (i * 8 + 4) ≡ base + i * 8 + 4 = omega arith in
    ap₂ ◌∷◌
      (ap₂ int64 (dword_at base (i * 8) total buf (omega arith)) (
          dword_at base (i * 8 + 4) total buf (omega arith)
          ∙ ap (λ a. to_dword (read a 4 buf)) high)
        ∙ (sym (long_at (base + i * 8) buf)
            ∙ ap (element true) (ap (λ a. read a 8 buf) (sym here) ∙ h 0 s refl)))
      (decode_longs-read base (i + 1) ss total buf (omega arith) (λ k x there.
        let next : base + (i + 1 + k) * 8 ≡ base + (i + suc k) * 8 = omega arith in
        ap (λ a. read a 8 buf) next ∙ h (suc k) x there))

pub decode_integers-read :
    (b : Bool) (base : ℕ) (ss : List Sized) (buf : Buffer)
    → ((k : ℕ) (s : Sized)
        → get_elem? ss k ≡ some s
        → read (base + k * width b) (width b) buf ≡ element_bytes b s)
    → decode_integers (width b) (length ss * width b) (read base (length ss * width b) buf)
      ≡ some (map (λ s. element b (element_bytes b s)) ss)
unfolding decode_integers
decode_integers-read false base ss buf h =
    let rest : (length ss * 4 % 4 == 0) ≡ true = ground arith in
    let n : length ss * 4 / 4 ≡ length ss = omega arith in
    rw rest (
      ap some (
        ap (λ k. decode_words k 0 (read base (length ss * 4) buf)) n
        ∙ decode_words-read base 0 ss (length ss * 4) buf (omega arith) (λ k x there.
          let at : base + (0 + k) * 4 ≡ base + k * 4 = omega arith in
          ap (λ a. read a 4 buf) at ∙ h k x there)))
decode_integers-read true base ss buf h =
    let rest : (length ss * 8 % 8 == 0) ≡ true = ground arith in
    let n : length ss * 8 / 8 ≡ length ss = omega arith in
    rw rest (
      ap some (
        ap (λ k. decode_longs k 0 (read base (length ss * 8) buf)) n
        ∙ decode_longs-read base 0 ss (length ss * 8) buf (omega arith) (λ k x there.
          let at : base + (0 + k) * 8 ≡ base + k * 8 = omega arith in
          ap (λ a. read a 8 buf) at ∙ h k x there)))
