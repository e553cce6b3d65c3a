-- ===== src/Codec/Values.antt =====
-- sdk/ts/src/codec.ts: what comes back of a value that was encoded and decoded.
use skyext.Bytes.{IsByte, to_number_array, byte_string_to_text-text_to_byte_string}
use skyext.Codec.{
  numbers, encode_deep, encode_items, encode_fields, decode_deep, decode_items, decode_fields,
}
use skyext.Prelude.{ℕ, ◌≡◌, refl, ap, ap₂, ◌∙◌, List, [], ◌∷◌, All}
use skyext.Value.{
  pos, Value, undefined, null, boolean, number, double, bigint, text, bytes, arr, obj, Items,
  no_items, item, Fields, no_fields, entry,
}

-- A value in which every `Uint8Array` is an array of numbers.
unfoldable mutual
  pub plain : Value → Value
  plain (bytes b) = arr (numbers b)
  plain (arr xs) = arr (plain_items xs)
  plain (obj fs) = obj (plain_fields fs)
  plain v = v

  pub plain_items : Items → Items
  plain_items no_items = no_items
  plain_items (item x xs) = item (plain x) (plain_items xs)

  pub plain_fields : Fields → Fields
  plain_fields no_fields = no_fields
  plain_fields (entry k v fs) = entry k (plain v) (plain_fields fs)

-- Every text in the value meets `P`.
unfoldable mutual
  pub Texts : (List ℕ → Type 0) → Value → Type 0
  Texts P (text s) = P s
  Texts P (arr xs) = ItemTexts P xs
  Texts P (obj fs) = FieldTexts P fs
  Texts P v = Unit {0}

  pub ItemTexts : (List ℕ → Type 0) → Items → Type 0
  ItemTexts P no_items = Unit {0}
  ItemTexts P (item x xs) = Texts P x × ItemTexts P xs

  pub FieldTexts : (List ℕ → Type 0) → Fields → Type 0
  FieldTexts P no_fields = Unit {0}
  FieldTexts P (entry k v fs) = Texts P v × FieldTexts P fs

module _ (encode decode : List ℕ → List ℕ) where
  decode_items-numbers : (b : List ℕ) → decode_items decode (numbers b) ≡ numbers b
  unfolding decode_deep numbers
  decode_items-numbers [] = refl
  decode_items-numbers (x ∷ b) = ap (item (number (pos x))) (decode_items-numbers b)

  -- A text that UTF-8 keeps.
  abbrev pub Kept : List ℕ → Type 0
  Kept s = All IsByte (encode s) × (decode (encode s) ≡ s)

  mutual
    unfolding encode_deep decode_deep plain Texts to_number_array

    deep : (v : Value) → Texts Kept v → decode_deep decode (encode_deep encode v) ≡ plain v
    deep undefined h = refl
    deep null h = refl
    deep (boolean b) h = refl
    deep (double d) h = refl
    deep (number n) h = refl
    deep (bigint n) h = refl
    deep (text s) h = ap text (byte_string_to_text-text_to_byte_string encode decode s h.0 ∙ h.1)
    deep (bytes b) h = ap arr (decode_items-numbers b)
    deep (arr xs) h = ap arr (deep_items xs h)
    deep (obj fs) h = ap obj (decode_fields-encode_fields fs h)

    deep_items :
        (xs : Items)
        → ItemTexts Kept xs
        → decode_items decode (encode_items encode xs) ≡ plain_items xs
    deep_items no_items h = refl
    deep_items (item x xs) h = ap₂ item (deep x h.0) (deep_items xs h.1)

    pub decode_fields-encode_fields :
        (fs : Fields)
        → FieldTexts Kept fs
        → decode_fields decode (encode_fields encode fs) ≡ plain_fields fs
    decode_fields-encode_fields no_fields h = refl
    decode_fields-encode_fields (entry k v fs) h =
        ap₂ (entry k) (deep v h.0) (decode_fields-encode_fields fs h.1)

  -- A value whose texts UTF-8 keeps comes back from the wire's form as it was, at any depth, but for
  -- its `Uint8Array`s, which come back as arrays of the same numbers.
  pub decode_deep-encode_deep :
      (v : Value) → Texts Kept v → decode_deep decode (encode_deep encode v) ≡ plain v
  decode_deep-encode_deep v h = deep v h
