-- ===== src/Bytes.antt =====
-- sdk/ts/src/bin.ts: byte strings and texts. A JavaScript string is the list of its UTF-16 code
-- units, a `Uint8Array` or `number[]` the list of its numbers; `TextEncoder` and `TextDecoder` are
-- parameters.
use skyext.Prelude.{
  ℕ, zero, suc, ◌+◌, ◌-◌, ◌%◌, ◌≤◌, ◌<◌, ◌≡◌, refl, ◌∙◌, ap, ap₂, sym, List, [], ◌∷◌, ◌++◌, map,
  length, append_assoc, append-nil, take, drop, length-drop, drop_all, All, arith, map-append,
  dec_lt, ltb, true, false, if◌then◌else◌,
}
use Prim.Native.Nat.{min}
use native.Mathlib.Nat.{zero-add, suc-add}

-- `x & 0xff` of a number that is not negative.
abbrev pub low_byte : ℕ → ℕ
low_byte x = x % 256

unfoldable pub to_bytes : List ℕ → List ℕ
to_bytes = map low_byte

abbrev pub chunk : ℕ
chunk = 0x8000

-- The loop of `fromBytes` from `i` on, `c` numbers a round, with fuel.
unfoldable pub append_chunks : ℕ → ℕ → ℕ → List ℕ → List ℕ → List ℕ
append_chunks c zero i b s = s
append_chunks c (suc f) i b s =
    let part = map low_byte (take (min (i + c) (length b) - i) (drop i b)) in
    let rest = append_chunks c f (i + c) b (s ++ part) in if ltb i (length b) then rest else s

-- A round takes a number at least, so the length is enough fuel.
unfoldable pub from_bytes : List ℕ → List ℕ
unfolding append_chunks
from_bytes b = append_chunks chunk (length b) 0 b []

unfoldable pub to_number_array : List ℕ → List ℕ
to_number_array b = b

-- `Uint8Array.from`
unfoldable pub from_number_array : List ℕ → List ℕ
from_number_array = map low_byte

take-append-drop : (n : ℕ) (xs : List ℕ) → take n xs ++ drop n xs ≡ xs
take-append-drop zero xs = refl
take-append-drop (suc n) [] = refl
take-append-drop (suc n) (x ∷ xs) = ap (◌∷◌ x) (take-append-drop n xs)

-- As many as `c`, and then those from the `c`-th on.
take-append-drop-min : (c k : ℕ) (xs : List ℕ) → k ≡ min c (length xs) → take k xs ++ drop c xs ≡ xs
take-append-drop-min c k xs e = elim (dec_lt (length xs) c) [
  | yes over ↦
      rw (drop_all c xs (omega arith), ← drop_all k xs (omega arith)) (take-append-drop k xs)
  | no within ↦ let e' : k ≡ c = omega arith in rw e' (take-append-drop c xs)
]

drop_nil : (n : ℕ) → drop {A = ℕ} n [] ≡ []
drop_nil zero = refl
drop_nil (suc n) = refl

drop-drop : (i c : ℕ) (b : List ℕ) → drop (i + c) b ≡ drop c (drop i b)
drop-drop i c [] = rw (drop_nil i, drop_nil c, drop_nil)
drop-drop zero c (x ∷ b) = rw zero-add
drop-drop (suc i) c (x ∷ b) = rw suc-add (drop-drop i c b)

append_chunks-map :
    (c f i : ℕ) (b s : List ℕ)
    → 0 < c
    → length b ≤ f + i
    → append_chunks c f i b s ≡ s ++ map low_byte (drop i b)
unfolding append_chunks
append_chunks-map c zero i b s pos_c h = rw (drop_all i b (omega arith), append-nil s)
append_chunks-map c (suc f) i b s pos_c h = elim (dec_lt i (length b)) [
  | yes more ↦
      let k = min (i + c) (length b) - i in
      let part = map low_byte (take k (drop i b)) in
      let e : k ≡ min c (length (drop i b)) = omega (arith, length-drop i b) in
      let t : ltb i (length b) ≡ true = ground arith in
      rw t (
        append_chunks-map c f (i + c) b (s ++ part) pos_c (omega arith)
        ∙ (append_assoc s part (map low_byte (drop (i + c) b))
            ∙ ap (◌++◌ s) (
                sym (map-append low_byte (take k (drop i b)) (drop (i + c) b))
                ∙ ap (map low_byte) (
                    ap (◌++◌ (take k (drop i b))) (drop-drop i c b)
                    ∙ take-append-drop-min c k (drop i b) e))))
  | no done ↦
      let t : ltb i (length b) ≡ false = ground arith in
      rw (t, drop_all i b (omega arith), append-nil s)
]

-- However the numbers fall into chunks, `fromBytes` takes the low byte of each.
pub from_bytes-map : (b : List ℕ) → from_bytes b ≡ map low_byte b
unfolding from_bytes
from_bytes-map b = append_chunks-map chunk (length b) 0 b [] (omega arith) (omega arith)

abbrev pub IsByte : ℕ → Type 0
IsByte x = x < 256

map-low_byte : (b : List ℕ) → All IsByte b → map low_byte b ≡ b
map-low_byte [] h = refl
map-low_byte (x ∷ b) h = let e : x % 256 ≡ x = grind arith in ap₂ ◌∷◌ e (map-low_byte b h.1)

-- Bytes, as a byte string or as a `Uint8Array`, come back from the other form as they were.
pub to_bytes-from_bytes :
    (b : List ℕ)
    → All IsByte b
    → (to_bytes (from_bytes b) ≡ b)
      × (from_bytes (to_bytes b) ≡ b)
      × (from_number_array (to_number_array b) ≡ b)
unfolding to_bytes from_number_array to_number_array
to_bytes-from_bytes b h =
    let e = map-low_byte b h in (rw (from_bytes-map b, e, e), rw (e, from_bytes-map b, e), e)

-- The parameters are `TextEncoder.encode` and `TextDecoder.decode`.
unfoldable pub text_to_byte_string : (List ℕ → List ℕ) → List ℕ → List ℕ
text_to_byte_string encode s = from_bytes (encode s)

unfoldable pub byte_string_to_text : (List ℕ → List ℕ) → List ℕ → List ℕ
byte_string_to_text decode s = decode (to_bytes s)

pub byte_string_to_text-text_to_byte_string :
    (encode decode : List ℕ → List ℕ) (s : List ℕ)
    → All IsByte (encode s)
    → byte_string_to_text decode (text_to_byte_string encode s) ≡ decode (encode s)
unfolding text_to_byte_string byte_string_to_text
byte_string_to_text-text_to_byte_string encode decode s h = rw (to_bytes-from_bytes (encode s) h).0
