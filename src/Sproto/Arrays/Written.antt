-- ===== src/Sproto/Arrays/Written.antt =====
-- sdk/ts/src/sproto/sproto.ts: what stands in the buffer after the loop over the elements.
use skyext.Prelude.{
  ℕ, ◌+◌, ◌-◌, ◌*◌, ◌≤◌, ◌<◌, ◌≡◌, refl, sym, subst, ap, ◌∙◌, inl, inr, Bool, true, false, ◌||◌,
  List, [], ◌∷◌, ◌++◌, append-nil, append_assoc, some, arith, ◌==◌, leb, length, length-append,
  get_elem?, get_elem?-some-lt, get_elem?-snoc, All, All-get_elem?, All-snoc,
}
use skyext.Sproto.Arrays.InPlace.{
  Buffer, write_bytes, read, read-write_bytes_other, read-write_bytes,
}
use skyext.Sproto.Arrays.Widening.{signs, extend, read-signs, read-signs_other, read-widen}
use skyext.Sproto.Arrays.{
  Writing, dword_bytes, advance, make_long, write_long, write_word, uint32_to_uint64, write_element,
  write_elements,
}
use skyext.Sproto.{Integer, num, big, Sized, word32, word64, uint64_bytes, big_bytes}

-- The bytes of an element, in an array of eight bytes each or of four.
abbrev pub element_bytes : Bool → Sized → List ℕ
element_bytes false (word32 v) = dword_bytes v
element_bytes true (word32 v) = dword_bytes v ++ signs (leb 0x80000000 v)
element_bytes b (word64 t) = uint64_bytes t

abbrev pub width : Bool → ℕ
width true = 8
width false = 4

unfoldable pub any_long : List Sized → Bool
any_long [] = false
any_long (word32 v ∷ ss) = any_long ss
any_long (word64 t ∷ ss) = true

-- An element of four bytes.
abbrev pub Short : Sized → Type 0
Short (word32 v) = v < 0x100000000
Short (word64 t) = ⊥

-- An element that may be written.
abbrev pub Fits : Sized → Type 0
Fits (word32 v) = v < 0x100000000
Fits (word64 t) = Unit {0}

-- The loop after the elements `past`, each in its place.
pub record Written (base : ℕ) (past : List Sized) (b : Bool) (w : Writing) : Type 0 where
  pub place : w.place ≡ base + length past * width b
  pub intlen : w.intlen ≡ width b
  pub index : w.index ≡ length past + 1
  pub chunks :
      (i : ℕ) (s : Sized)
      → get_elem? past i ≡ some s
      → read (base + i * width b) (width b) w.buffer ≡ element_bytes b s

place-snoc :
    (b : Bool) (base n p k m : ℕ)
    → p ≡ base + n * width b
    → k ≡ width b
    → m ≡ n + 1
    → p + k ≡ base + m * width b
place-snoc true base n p k m h e f = omega arith
place-snoc false base n p k m h e f = omega arith

earlier_place :
    (b : Bool) (base i n p : ℕ) → i < n → p ≡ base + n * width b → base + i * width b + width b ≤ p
earlier_place true base i n p h e = omega arith
earlier_place false base i n p h e = omega arith

-- One more element, where the write keeps what stands before it.
Written-snoc :
    (base : ℕ) (past : List Sized) (b : Bool) (w : Writing) (s : Sized) (buf : Buffer)
    → Written base past b w
    → read w.place (width b) buf ≡ element_bytes b s
    → ((a m : ℕ) → a + m ≤ w.place → read a m buf ≡ read a m w.buffer)
    → Written base (past ++ s ∷ []) b (advance (record w { buffer = buf }))
Written-snoc base past b w s buf h here keeps = record {
  place =
      place-snoc b base (length past) w.place w.intlen _ h.place h.intlen
        (length-append past (s ∷ []));
  intlen = h.intlen;
  index = omega (arith, h.index, length-append past (s ∷ []));
  chunks = λ i x e. elim (get_elem?-snoc past s i x e) [
    | inl there ↦
        keeps _ _
          (earlier_place b base i (length past) w.place (get_elem?-some-lt past i x there) h.place)
        ∙ h.chunks i x there
    | inr (last, same) ↦
        ap (λ a. read a (width b) buf) (ap (λ k. base + k * width b) last ∙ sym h.place)
        ∙ (here ∙ ap (element_bytes b) same)
  ];
}

length-uint64_bytes : (t : Integer) → length (uint64_bytes t) ≡ 8
unfolding uint64_bytes big_bytes
length-uint64_bytes (num v) = refl
length-uint64_bytes (big v) = refl

read-uint64_bytes :
    (t : Integer) (i : ℕ) (buf : Buffer)
    → read i 8 (write_bytes (uint64_bytes t) i buf) ≡ uint64_bytes t
read-uint64_bytes t i buf =
    ap (λ n. read i n (write_bytes (uint64_bytes t) i buf)) (sym (length-uint64_bytes t))
    ∙ read-write_bytes (uint64_bytes t) i buf

read-dword_bytes :
    (v i : ℕ) (buf : Buffer) → read i 4 (write_bytes (dword_bytes v) i buf) ≡ dword_bytes v
unfolding dword_bytes
read-dword_bytes v i buf = read-write_bytes (dword_bytes v) i buf

-- The buffer after a word, in either length.
worded : Bool → ℕ → Writing → Buffer
worded true v w =
    uint32_to_uint64 (leb 0x80000000 v) w.place (write_bytes (dword_bytes v) w.place w.buffer)
worded false v w = write_bytes (dword_bytes v) w.place w.buffer

write_word-worded :
    (b : Bool) (v : ℕ) (w : Writing)
    → w.intlen ≡ width b
    → write_word v w ≡ record w { buffer = worded b v w }
unfolding write_word worded
write_word-worded true v w h = let long : (w.intlen == 8) ≡ true = ground (arith, h) in rw long
write_word-worded false v w h = let short : (w.intlen == 8) ≡ false = ground (arith, h) in rw short

read-worded :
    (b : Bool) (v : ℕ) (w : Writing)
    → read w.place (width b) (worded b v w) ≡ element_bytes b (word32 v)
unfolding worded
read-worded true v w =
    read-signs (leb 0x80000000 v) w.place (write_bytes (dword_bytes v) w.place w.buffer)
    ∙ ap (λ bs. bs ++ signs (leb 0x80000000 v)) (read-dword_bytes v w.place w.buffer)
read-worded false v w = read-dword_bytes v w.place w.buffer

read-worded_other :
    (b : Bool) (v : ℕ) (w : Writing) (a m : ℕ)
    → a + m ≤ w.place
    → read a m (worded b v w) ≡ read a m w.buffer
unfolding worded
read-worded_other true v w a m h =
    read-signs_other a m (leb 0x80000000 v) w.place (write_bytes (dword_bytes v) w.place w.buffer)
      (inr (omega arith))
    ∙ read-write_bytes_other a m (dword_bytes v) w.place w.buffer (inr h)
read-worded_other false v w a m h =
    read-write_bytes_other a m (dword_bytes v) w.place w.buffer (inr h)

write_word-Written :
    (base : ℕ) (past : List Sized) (b : Bool) (v : ℕ) (w : Writing)
    → Written base past b w
    → Written base (past ++ word32 v ∷ []) b (write_element base (word32 v) w)
unfolding write_element
write_word-Written base past b v w h =
    subst (λ z. Written base (past ++ word32 v ∷ []) b (advance z))
      (sym (write_word-worded b v w h.intlen))
      (Written-snoc base past b w (word32 v) (worded b v w) h (read-worded b v w)
        (read-worded_other b v w))

write_long-Written :
    (base : ℕ) (past : List Sized) (t : Integer) (w : Writing)
    → Written base past true w
    → Written base (past ++ word64 t ∷ []) true (advance (write_long t w))
unfolding write_long
write_long-Written base past t w h =
    Written-snoc base past true w (word64 t) (write_bytes (uint64_bytes t) w.place w.buffer) h
      (read-uint64_bytes t w.place w.buffer)
      (λ a m e. read-write_bytes_other a m (uint64_bytes t) w.place w.buffer (inr e))

-- Four bytes are extended by their sign.
extend-element_bytes : (s : Sized) → Short s → extend (element_bytes false s) ≡ element_bytes true s
unfolding dword_bytes
extend-element_bytes (word32 v) h = ap (λ c. dword_bytes v ++ signs c) (ground arith)
extend-element_bytes (word64 t) h = absurd h

-- The widening takes the elements so far to eight bytes each.
make_long-Written :
    (base : ℕ) (past : List Sized) (w : Writing)
    → All Short past
    → Written base past false w
    → Written base past true (make_long base w)
unfolding make_long
make_long-Written base past w short h =
    let four : (w.intlen == 4) ≡ true = ground (arith, h.intlen) in
    rw four (record {
      place = omega (arith, h.place, h.index);
      intlen = refl;
      index = h.index;
      chunks = λ i s e.
          read-widen base (w.index - 1) i w.buffer
            (omega (arith, h.index, get_elem?-some-lt past i s e))
          ∙ (ap extend (h.chunks i s e)
              ∙ extend-element_bytes s (All-get_elem? Short past i s short e));
    })

make_long_again :
    (base : ℕ) (past : List Sized) (w : Writing)
    → Written base past true w
    → Written base past true (make_long base w)
unfolding make_long
make_long_again base past w h =
    let eight : (w.intlen == 4) ≡ false = ground (arith, h.intlen) in rw eight h

-- In an array of four bytes each, every element so far is short.
abbrev pub AllShort : Bool → List Sized → Type 0
AllShort true past = Unit {0}
AllShort false past = All Short past

snoc-append :
    (past : List Sized) (s : Sized) (ss : List Sized) → (past ++ s ∷ []) ++ ss ≡ past ++ s ∷ ss
snoc-append past s ss = append_assoc past (s ∷ []) ss

-- The loop over the elements.
pub write_elements-Written :
    (base : ℕ) (past : List Sized) (b : Bool) (ss : List Sized) (w : Writing)
    → AllShort b past
    → All Fits ss
    → Written base past b w
    → Written base (past ++ ss) (b || any_long ss) (write_elements base ss w)
unfolding write_elements any_long
write_elements-Written base past true [] w a f h = rw (append-nil past) h
write_elements-Written base past false [] w a f h = rw (append-nil past) h
write_elements-Written base past true (word32 v ∷ ss) w a f h =
    rw (← snoc-append past (word32 v) ss) (
      write_elements-Written base (past ++ word32 v ∷ []) true ss (write_element base (word32 v) w)
        tt f.1 (write_word-Written base past true v w h))
write_elements-Written base past false (word32 v ∷ ss) w a f h =
    rw (← snoc-append past (word32 v) ss) (
      write_elements-Written base (past ++ word32 v ∷ []) false ss (write_element base (word32 v) w)
        (All-snoc Short past (word32 v) a f.0) f.1 (write_word-Written base past false v w h))
write_elements-Written base past true (word64 t ∷ ss) w a f h =
    rw (← snoc-append past (word64 t) ss) (
      write_elements-Written base (past ++ word64 t ∷ []) true ss (write_element base (word64 t) w)
        tt f.1 (write_long-Written base past t (make_long base w) (make_long_again base past w h)))
write_elements-Written base past false (word64 t ∷ ss) w a f h =
    rw (← snoc-append past (word64 t) ss) (
      write_elements-Written base (past ++ word64 t ∷ []) true ss (write_element base (word64 t) w)
        tt f.1
        (write_long-Written base past t (make_long base w) (make_long-Written base past w a h)))
