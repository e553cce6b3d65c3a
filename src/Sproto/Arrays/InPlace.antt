-- ===== src/Sproto/Arrays/InPlace.antt =====
-- A JavaScript array of bytes that is written in place. An element that was not written is not read.
use skyext.Prelude.{
  ℕ, zero, suc, ◌+◌, ◌≤◌, ◌<◌, ◌≡◌, refl, ap, ap₂, ◌∙◌, ◌⊎◌, List, [], ◌∷◌, ◌++◌, arith,
  if◌then◌else◌, ◌==◌, length, drop,
}

abbrev pub Buffer : Type 0
Buffer = ℕ → ℕ

unfoldable pub put : ℕ → ℕ → Buffer → Buffer
put i v buf j = if j == i then v else buf j

unfoldable pub write_bytes : List ℕ → ℕ → Buffer → Buffer
unfolding put
write_bytes [] i buf = buf
write_bytes (b ∷ bs) i buf = write_bytes bs (i + 1) (put i b buf)

-- `n` bytes from place `i` on.
unfoldable pub read : ℕ → ℕ → Buffer → List ℕ
read i zero buf = []
read i (suc n) buf = buf i ∷ read (i + 1) n buf

pub read-put :
    (i n j v : ℕ) (buf : Buffer) → j < i ⊎ i + n ≤ j → read i n (put j v buf) ≡ read i n buf
unfolding read put
read-put i zero j v buf h = refl
read-put i (suc n) j v buf h = ap₂ ◌∷◌ (ground arith) (read-put (i + 1) n j v buf (ground arith))

pub read-write_bytes_other :
    (i n : ℕ) (bs : List ℕ) (j : ℕ) (buf : Buffer)
    → (j + length bs ≤ i) ⊎ (i + n ≤ j)
    → read i n (write_bytes bs j buf) ≡ read i n buf
unfolding write_bytes
read-write_bytes_other i n [] j buf h = refl
read-write_bytes_other i n (b ∷ bs) j buf h =
    read-write_bytes_other i n bs (j + 1) (put j b buf) (ground arith)
    ∙ read-put i n j b buf (ground arith)

write_bytes_below : (bs : List ℕ) (i j : ℕ) (buf : Buffer) → i < j → write_bytes bs j buf i ≡ buf i
unfolding write_bytes put
write_bytes_below [] i j buf h = refl
write_bytes_below (b ∷ bs) i j buf h =
    write_bytes_below bs i (j + 1) (put j b buf) (omega arith) ∙ ground arith

pub read-write_bytes :
    (bs : List ℕ) (i : ℕ) (buf : Buffer) → read i (length bs) (write_bytes bs i buf) ≡ bs
unfolding write_bytes read put
read-write_bytes [] i buf = refl
read-write_bytes (b ∷ bs) i buf =
    ap₂ ◌∷◌ (write_bytes_below bs i (i + 1) (put i b buf) (omega arith) ∙ ground arith)
      (read-write_bytes bs (i + 1) (put i b buf))

pub read-append :
    (i m n : ℕ) (buf : Buffer) → read i (m + n) buf ≡ read i m buf ++ read (i + m) n buf
unfolding read
read-append i zero n buf = ap₂ (λ a k. read a k buf) (omega arith) (omega arith)
read-append i (suc m) n buf =
    let e : suc m + n ≡ suc (m + n) = omega arith in
    let i' : i + 1 + m ≡ i + suc m = omega arith in
    ap (λ k. read i k buf) e
    ∙ ap (◌∷◌ (buf i))
        (read-append (i + 1) m n buf ∙ ap (λ a. read (i + 1) m buf ++ read a n buf) i')

pub drop-read : (j i n : ℕ) (buf : Buffer) → drop j (read i (j + n) buf) ≡ read (i + j) n buf
unfolding read
drop-read zero i n buf = ap₂ (λ a k. read a k buf) (omega arith) (omega arith)
drop-read (suc j) i n buf =
    let e : suc j + n ≡ suc (j + n) = omega arith in
    let i' : i + 1 + j ≡ i + suc j = omega arith in
    ap (λ k. drop (suc j) (read i k buf)) e
    ∙ (drop-read j (i + 1) n buf ∙ ap (λ a. read a n buf) i')
