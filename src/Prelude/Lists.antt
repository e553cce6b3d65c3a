-- ===== src/Prelude/Lists.antt =====
-- Lists measured and counted by native numbers, and maps kept in insertion order.
use Prim.Native.Nat.{ℕ, zero, suc, ◌+◌, ◌-◌, ◌≤◌, ◌<◌}
use mathlib.Core.List.{List, [], ◌∷◌, ◌++◌}
use mathlib.Core.Logic.{◌≢◌, ◌⊎◌, inl, inr}
use mathlib.Core.Option.{Option, none, some}
use mathlib.Core.Path.{◌≡◌, refl, ap, subst}
use native.Mathlib.Nat.{zero-add, suc-add}
use native.Mathlib.Omega.{arith}
use skyext.Prelude.Tests.{◌==◌, if◌then◌else◌}

module _ {ℓ} {A : Type ℓ} where
  abbrev pub length : List A → ℕ
  length [] = 0
  length (x ∷ xs) = suc (length xs)

  pub length-append : (xs ys : List A) → length (xs ++ ys) ≡ length xs + length ys
  length-append [] ys = omega arith
  length-append (x ∷ xs) ys = omega (arith, length-append xs ys)

module _ {ℓ} {A : Type ℓ} where
  abbrev pub get_or : List A → ℕ → A → A
  get_or [] i d = d
  get_or (x ∷ xs) zero d = x
  get_or (x ∷ xs) (suc i) d = get_or xs i d

  abbrev pub take : ℕ → List A → List A
  take zero xs = []
  take (suc n) [] = []
  take (suc n) (x ∷ xs) = x ∷ take n xs

  abbrev pub drop : ℕ → List A → List A
  drop zero xs = xs
  drop (suc n) [] = []
  drop (suc n) (x ∷ xs) = drop n xs

  pub get_or-drop-append :
      (s i : ℕ) (xs ys : List A) (d : A)
      → s + i < length xs
      → get_or (drop s xs ++ ys) i d ≡ get_or xs (s + i) d
  get_or-drop-append s i [] ys d h = absurd (omega arith)
  get_or-drop-append zero zero (x ∷ xs) ys d h = refl
  get_or-drop-append zero (suc i) (x ∷ xs) ys d h =
      rw (zero-add, get_or-drop-append zero i xs ys d (omega arith), zero-add)
  get_or-drop-append (suc s) i (x ∷ xs) ys d h =
      rw (suc-add, get_or-drop-append s i xs ys d (omega arith))

  pub get_or-take :
      (n i : ℕ) (xs : List A) (d : A)
      → i < n
      → n ≤ length xs
      → get_or (take n xs) i d ≡ get_or xs i d
  get_or-take zero i xs d h k = absurd (omega arith)
  get_or-take (suc n) i [] d h k = absurd (omega arith)
  get_or-take (suc n) zero (x ∷ xs) d h k = refl
  get_or-take (suc n) (suc i) (x ∷ xs) d h k = get_or-take n i xs d (omega arith) (omega arith)

  pub get_or-append_right :
      (xs ys : List A) (i : ℕ) (d : A) → get_or (xs ++ ys) (length xs + i) d ≡ get_or ys i d
  get_or-append_right [] ys i d = rw zero-add
  get_or-append_right (x ∷ xs) ys i d = rw suc-add (get_or-append_right xs ys i d)

  pub length-drop : (n : ℕ) (xs : List A) → length (drop n xs) ≡ length xs - n
  length-drop zero xs = omega arith
  length-drop (suc n) [] = omega arith
  length-drop (suc n) (x ∷ xs) = omega (arith, length-drop n xs)

  pub length-take_of_le : (n : ℕ) (xs : List A) → n ≤ length xs → length (take n xs) ≡ n
  length-take_of_le zero xs h = refl
  length-take_of_le (suc n) [] h = absurd (omega arith)
  length-take_of_le (suc n) (x ∷ xs) h = omega (arith, length-take_of_le n xs (omega arith))

  pub drop-get_or :
      (i : ℕ) (xs : List A) (d : A) → i < length xs → drop i xs ≡ get_or xs i d ∷ drop (suc i) xs
  drop-get_or i [] d h = absurd (omega arith)
  drop-get_or zero (x ∷ xs) d h = refl
  drop-get_or (suc i) (x ∷ xs) d h = drop-get_or i xs d (omega arith)

  pub drop_all : (i : ℕ) (xs : List A) → length xs ≤ i → drop i xs ≡ []
  drop_all zero [] h = refl
  drop_all (suc i) [] h = refl
  drop_all zero (x ∷ xs) h = absurd (omega arith)
  drop_all (suc i) (x ∷ xs) h = drop_all i xs (omega arith)

module _ {ℓ} {A : Type ℓ} where
  abbrev pub get_elem? : List A → ℕ → Option A
  get_elem? [] i = none
  get_elem? (x ∷ xs) zero = some x
  get_elem? (x ∷ xs) (suc i) = get_elem? xs i

  pub get_elem?-some-lt : (xs : List A) (i : ℕ) (x : A) → get_elem? xs i ≡ some x → i < length xs
  get_elem?-some-lt [] i x h = cc
  get_elem?-some-lt (y ∷ xs) zero x h = omega arith
  get_elem?-some-lt (y ∷ xs) (suc i) x h = omega (arith, get_elem?-some-lt xs i x h)

  -- An element of a list with one more at its end.
  pub get_elem?-snoc :
      (xs : List A) (y : A) (i : ℕ) (x : A)
      → get_elem? (xs ++ y ∷ []) i ≡ some x
      → (get_elem? xs i ≡ some x) ⊎ ((i ≡ length xs) × (y ≡ x))
  get_elem?-snoc [] y zero x h = inr (refl, cc)
  get_elem?-snoc [] y (suc i) x h = cc
  get_elem?-snoc (z ∷ xs) y zero x h = inl h
  get_elem?-snoc (z ∷ xs) y (suc i) x h = elim (get_elem?-snoc xs y i x h) [
    | inl there ↦ inl there
    | inr (e, same) ↦ inr (ap suc e, same)
  ]

-- A predicate of every element.
abbrev pub All {ℓ κ} : {A : Type ℓ} → (A → Type κ) → List A → Type κ
All P [] = Unit
All P (x ∷ xs) = P x × All P xs

pub All-get_elem? {ℓ κ} :
    {A : Type ℓ} (P : A → Type κ) (xs : List A) (i : ℕ) (x : A)
    → All P xs
    → get_elem? xs i ≡ some x
    → P x
All-get_elem? P [] i x h e = cc
All-get_elem? P (y ∷ xs) zero x h e = subst P (cc) h.0
All-get_elem? P (y ∷ xs) (suc i) x h e = All-get_elem? P xs i x h.1 e

pub All-snoc {ℓ κ} :
    {A : Type ℓ} (P : A → Type κ) (xs : List A) (x : A) → All P xs → P x → All P (xs ++ x ∷ [])
All-snoc P [] x h p = (p, tt)
All-snoc P (y ∷ xs) x h p = (h.0, All-snoc P xs x h.1 p)

pub All-map {ℓ κ μ} :
    {A : Type ℓ} {P : A → Type κ} {Q : A → Type μ} (xs : List A)
    → ((x : A) → P x → Q x)
    → All P xs
    → All Q xs
All-map [] f h = tt
All-map (x ∷ xs) f h = (f x h.0, All-map xs f h.1)

-- How often a number occurs in a list.
unfoldable pub count : ℕ → List ℕ → ℕ
count n [] = 0
count n (x ∷ xs) = (if n == x then 1 else 0) + count n xs

pub count-append : (n : ℕ) (xs ys : List ℕ) → count n (xs ++ ys) ≡ count n xs + count n ys
unfolding count
count-append n [] ys = omega arith
count-append n (x ∷ xs) ys = ground (arith, count-append n xs ys)

-- A `Map` with numeric keys: its entries in insertion order.
module _ {ℓ} {V : Type ℓ} where
  unfoldable pub keys : List (ℕ × V) → List ℕ
  keys [] = []
  keys ((k, v) ∷ m) = k ∷ keys m

  unfoldable pub lookup : ℕ → List (ℕ × V) → Option V
  lookup k [] = none
  lookup k ((j, v) ∷ m) = if k == j then some v else lookup k m

  -- `map.set(k, v)`: a key that is there keeps its place.
  unfoldable pub insert : ℕ → V → List (ℕ × V) → List (ℕ × V)
  insert k v [] = (k, v) ∷ []
  insert k v ((j, w) ∷ m) = if k == j then (j, v) ∷ m else (j, w) ∷ insert k v m

  -- `map.delete(k)`
  unfoldable pub erase : ℕ → List (ℕ × V) → List (ℕ × V)
  erase k [] = []
  erase k ((j, w) ∷ m) = if k == j then m else (j, w) ∷ erase k m

  pub count-keys-erase :
      (n k : ℕ) (m : List (ℕ × V)) (v : V)
      → lookup k m ≡ some v
      → count n (keys (erase k m)) + (if n == k then 1 else 0) ≡ count n (keys m)
  unfolding count keys lookup erase
  count-keys-erase n k [] v h = absurd (cc)
  count-keys-erase n k ((j, w) ∷ m) v h = ground (arith, count-keys-erase n k m v)

  -- A key that does not occur is added at the end.
  pub insert_new :
      (k : ℕ) (v : V) (m : List (ℕ × V)) → count k (keys m) ≡ 0 → insert k v m ≡ m ++ (k, v) ∷ []
  unfolding count keys insert
  insert_new k v [] h = refl
  insert_new k v ((j, w) ∷ m) h = ground (arith, insert_new k v m)

  pub keys-append : (m n : List (ℕ × V)) → keys (m ++ n) ≡ keys m ++ keys n
  unfolding keys
  keys-append [] n = refl
  keys-append ((j, w) ∷ m) n = ground (arith, keys-append m n)

  pub lookup-erase_ne : (i k : ℕ) (m : List (ℕ × V)) → i ≢ k → lookup i (erase k m) ≡ lookup i m
  unfolding lookup erase
  lookup-erase_ne i k [] h = refl
  lookup-erase_ne i k ((j, w) ∷ m) h = ground (arith, lookup-erase_ne i k m)

  pub lookup_absent : (k : ℕ) (m : List (ℕ × V)) → count k (keys m) ≡ 0 → lookup k m ≡ none
  unfolding lookup count keys
  lookup_absent k [] h = refl
  lookup_absent k ((j, w) ∷ m) h = ground (arith, lookup_absent k m)

  -- Where a key occurs once at most, nothing is found after it was deleted.
  pub lookup-erase_self :
      (k : ℕ) (m : List (ℕ × V)) → count k (keys m) ≤ 1 → lookup k (erase k m) ≡ none
  unfolding lookup erase count keys
  lookup-erase_self k [] h = refl
  lookup-erase_self k ((j, w) ∷ m) h = ground (arith, lookup-erase_self k m, lookup_absent k m)

  pub count-keys-erase-le :
      (n k : ℕ) (m : List (ℕ × V)) → count n (keys (erase k m)) ≤ count n (keys m)
  unfolding count keys erase
  count-keys-erase-le n k [] = omega arith
  count-keys-erase-le n k ((j, w) ∷ m) = ground (arith, count-keys-erase-le n k m)

  pub erase_absent : (k : ℕ) (m : List (ℕ × V)) → lookup k m ≡ none → erase k m ≡ m
  unfolding lookup erase
  erase_absent k [] h = refl
  erase_absent k ((j, w) ∷ m) h = ground (arith, erase_absent k m)
