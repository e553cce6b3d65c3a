-- ===== src/Sproto/Arrays/RoundTrip.antt =====
-- sdk/ts/src/sproto/sproto.ts: an array of integers, from the buffer and back.
use skyext.Prelude.{
  ℕ, suc, ◌+◌, ◌-◌, ◌*◌, ◌%◌, ◌^◌, ◌<◌, ◌≡◌, refl, ap, ap₂, ◌∙◌, inl, Bool, true, false, List, [],
  ◌∷◌, ◌++◌, map, some, arith, ◌==◌, length, All,
}
use skyext.Sproto.Arrays.InPlace.{
  Buffer, put, write_bytes, read, read-put, read-write_bytes_other, read-write_bytes, read-append,
}
use skyext.Sproto.Arrays.Written.{
  element_bytes, width, any_long, Fits, Written, write_elements-Written,
}
use skyext.Sproto.Arrays.{
  Writing, write_elements, encode_integer_array, encode_array, decode_sized, decode_integers,
  decode_array,
}
use skyext.Sproto.Words.{four_bytes}
use skyext.Sproto.{Sized, to_dword, fill_size}
use skyext.Sproto.Arrays.Elements.{element, decode_integers-read}

to_dword-fill_size : (z : ℕ) (rest : List ℕ) → z < 0x100000000 → to_dword (fill_size z ++ rest) ≡ z
unfolding to_dword fill_size
to_dword-fill_size z rest h = four_bytes z h

sized_body :
    (z len m : ℕ) (body : List ℕ)
    → decode_sized (m + 1) (fill_size z ++ len ∷ body) ≡ decode_integers len m body
unfolding decode_sized fill_size
sized_body z len m body =
    let some_ : (m + 1 == 0) ≡ false = ground arith in
    let m' : m + 1 - 1 ≡ m = omega arith in rw some_ (ap (λ k. decode_integers len k body) m')

-- The size, the length of the elements, and the elements.
decode_array-framed :
    (len m : ℕ) (body : List ℕ)
    → m + 1 < 0x100000000
    → decode_array (fill_size (m + 1) ++ len ∷ body) ≡ decode_integers len m body
unfolding decode_array
decode_array-framed len m body h =
    ap (λ k. decode_sized k (fill_size (m + 1) ++ len ∷ body))
      (to_dword-fill_size (m + 1) (len ∷ body) h)
    ∙ sized_body (m + 1) len m body

length-fill_size : (z : ℕ) → length (fill_size z) ≡ 4
unfolding fill_size
length-fill_size z = refl

-- The size before what was written.
read-sized :
    (at z : ℕ) (buf : Buffer)
    → read at (z + 4) (write_bytes (fill_size z) at buf) ≡ fill_size z ++ read (at + 4) z buf
unfolding fill_size
read-sized at z buf =
    let e : z + 4 ≡ 4 + z = omega arith in
    ap (λ k. read at k (write_bytes (fill_size z) at buf)) e
    ∙ (read-append at 4 z (write_bytes (fill_size z) at buf)
        ∙ ap₂ ◌++◌ (read-write_bytes (fill_size z) at buf)
            (read-write_bytes_other (at + 4) z (fill_size z) at buf (inl (omega arith))))

-- The length before the elements.
read-header :
    (header len m : ℕ) (buf : Buffer)
    → read header (m + 1) (put header len buf) ≡ len ∷ read (header + 1) m buf
unfolding read put
read-header header len m buf =
    let e : m + 1 ≡ suc m = omega arith in
    ap (λ k. read header k (put header len buf)) e
    ∙ ap₂ ◌∷◌ (ground arith) (read-put (header + 1) m header len buf (inl (omega arith)))

-- An array that is not empty.
encode_integer_array-Written :
    (header : ℕ) (ss : List Sized) (buf : Buffer) (b : Bool)
    → 0 < length ss
    → let w =
        write_elements
          (header + 1)
          ss
          (record { buffer = buf; place = header + 1; intlen = 4; index = 1 }) in
      Written (header + 1) ss b w
      → encode_integer_array header ss buf
        ≡ (put header (width b) w.buffer, header + (length ss * width b + 1))
unfolding encode_integer_array
encode_integer_array-Written header ss buf true some_ h =
    let w =
      write_elements (header + 1) ss
        (record { buffer = buf; place = header + 1; intlen = 4; index = 1 }) in
    let longer : (w.place == header + 1) ≡ false = ground (arith, h.place) in
    let len : w.intlen % 256 ≡ 8 = omega (arith, h.intlen) in
    let end : w.place ≡ header + (length ss * 8 + 1) = omega (arith, h.place) in
    rw longer (ap₂ (λ l e. (put header l w.buffer, e)) len end)
encode_integer_array-Written header ss buf false some_ h =
    let w =
      write_elements (header + 1) ss
        (record { buffer = buf; place = header + 1; intlen = 4; index = 1 }) in
    let longer : (w.place == header + 1) ≡ false = ground (arith, h.place) in
    let len : w.intlen % 256 ≡ 4 = omega (arith, h.intlen) in
    let end : w.place ≡ header + (length ss * 4 + 1) = omega (arith, h.place) in
    rw longer (ap₂ (λ l e. (put header l w.buffer, e)) len end)

decode_array_empty : (buf : Buffer) (i : ℕ) → decode_array (fill_size 0 ++ read i 0 buf) ≡ some []
unfolding decode_array fill_size read
decode_array_empty buf i = refl

-- The stream of an array that was written up to a place.
read-encode_array :
    (at z : ℕ) (ss : List Sized) (buf buf' : Buffer)
    → encode_integer_array (at + 4) ss buf ≡ (buf', at + 4 + z)
    → (let w = encode_array at ss buf in read at w.1 w.0) ≡ fill_size z ++ read (at + 4) z buf'
unfolding encode_array
read-encode_array at z ss buf buf' h =
    let size : at + 4 + z - (at + 4) ≡ z = omega arith in
    ap
      (λ (r : Buffer × ℕ).
        read at (r.1 - (at + 4) + 4) (write_bytes (fill_size (r.1 - (at + 4))) at r.0))
      h
    ∙ (ap (λ k. read at (k + 4) (write_bytes (fill_size k) at buf')) size ∙ read-sized at z buf')

encode_integer_array_empty :
    (header : ℕ) (buf : Buffer) → encode_integer_array header [] buf ≡ (buf, header + 0)
unfolding encode_integer_array
encode_integer_array_empty header buf =
    let none_ : (header + 1 == header + 1) ≡ true = ground arith in
    let end : header ≡ header + 0 = omega arith in rw none_ (ap (λ e. (buf, e)) end)

small_size : (b : Bool) (n : ℕ) → n < 2 ^ 28 → n * width b + 1 < 0x100000000
small_size true n h = omega arith
small_size false n h = omega arith

-- What is decoded of what is encoded, element by element.
pub decode_array-encode_array :
    (at : ℕ) (ss : List Sized) (buf : Buffer)
    → All Fits ss
    → length ss < 2 ^ 28
    → let b = any_long ss in
      let w = encode_array at ss buf in
      decode_array (read at w.1 w.0) ≡ some (map (λ s. element b (element_bytes b s)) ss)
unfolding any_long
decode_array-encode_array at [] buf fits few =
    ap decode_array (read-encode_array at 0 [] buf buf (encode_integer_array_empty (at + 4) buf))
    ∙ decode_array_empty buf (at + 4)
decode_array-encode_array at (s ∷ ss) buf fits few =
    let b = any_long (s ∷ ss) in
    let m = length (s ∷ ss) * width b in
    let base = at + 4 + 1 in
    let w0 : Writing = record { buffer = buf; place = base; intlen = 4; index = 1 } in
    let w = write_elements base (s ∷ ss) w0 in
    let h : Written base (s ∷ ss) b w =
      write_elements-Written base [] false (s ∷ ss) w0 tt fits (record {
        place = omega arith;
        intlen = refl;
        index = omega arith;
        chunks = λ i x e. cc;
      }) in
    let written : encode_integer_array (at + 4) (s ∷ ss) buf
        ≡ (put (at + 4) (width b) w.buffer, at + 4 + (m + 1)) =
      encode_integer_array-Written (at + 4) (s ∷ ss) buf b (omega arith) h in
    ap decode_array (
      read-encode_array at (m + 1) (s ∷ ss) buf (put (at + 4) (width b) w.buffer) written
      ∙ ap (◌++◌ (fill_size (m + 1))) (read-header (at + 4) (width b) m w.buffer))
    ∙ (decode_array-framed (width b) m (read base m w.buffer) (small_size b (length (s ∷ ss)) few)
        ∙ decode_integers-read b base (s ∷ ss) w.buffer h.chunks)
