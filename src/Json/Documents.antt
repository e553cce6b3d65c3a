-- ===== src/Json/Documents.antt =====
-- sdk/ts/src/json.ts: whole documents, of null, booleans, integers, strings, arrays and objects.
pub mod Printed
pub mod Marked
pub mod Exact
use skyext.Json.LargeIntegers.{IsVerbatim, integer_of, revive-token}
use skyext.Json.Scanner.{quote_unsafe_integers-print}
use skyext.Json.Tokens.{
  Token, literal, numeral, other, no_fraction, no_exponent, print, print_minus, rewrite_numeral,
  IsDigit, Escaped, Stops, WellFormed, rewritten,
}
use skyext.Json.{
  Text, quote_unit, backslash, sentinel, digits_from, max_safe, quote_unsafe_integers,
  sentinel_match, revive, revive_items, revive_fields, revived, parse_json,
}
use skyext.Prelude.{
  ℕ, ◌≡◌, ◌≢◌, refl, ap, ap₂, ◌∙◌, Bool, true, false, ◌&&◌, Option, none, some, List, [], ◌∷◌, ◌++◌,
  String, codes, ◌==◌, ltb, All, arith, append_assoc,
}
use skyext.Value.{
  Value, null, boolean, number, bigint, text, arr, obj, Items, no_items, item, Fields, no_fields,
  entry,
}

mutual
  -- An integer has a minus or none, a first digit and the others; a string has its characters.
  pub data Document : Type 0 where
    null_ : Document
    bool : Bool → Document
    integer : Bool → ℕ → Text → Document
    string : Text → Document
    array : Elements → Document
    object : Members → Document

  pub data Elements : Type 0 where
    no_elements : Elements
    element : Document → Elements → Elements

  pub data Members : Type 0 where
    no_members : Members
    member : String → Document → Members → Members

-- Characters outside strings and numbers, before other tokens.
abbrev pub plain_onto : Text → List Token → List Token
plain_onto [] ts = ts
plain_onto (c ∷ cs) ts = other c ∷ plain_onto cs ts

-- A comma, but not before the first.
abbrev pub comma : Bool → List Token → List Token
comma true ts = other 44 ∷ ts
comma false ts = ts

-- The tokens of a document, before others; the flag is false at the first element.
unfoldable mutual
  pub tokens : Document → List Token → List Token
  tokens null_ ts = plain_onto (110 ∷ 117 ∷ 108 ∷ 108 ∷ []) ts
  tokens (bool true) ts = plain_onto (116 ∷ 114 ∷ 117 ∷ 101 ∷ []) ts
  tokens (bool false) ts = plain_onto (102 ∷ 97 ∷ 108 ∷ 115 ∷ 101 ∷ []) ts
  tokens (integer neg d ds) ts = numeral neg d ds no_fraction no_exponent ∷ ts
  tokens (string s) ts = literal s ∷ ts
  tokens (array es) ts = other 91 ∷ element_tokens false es (other 93 ∷ ts)
  tokens (object ms) ts = other 123 ∷ member_tokens false ms (other 125 ∷ ts)

  pub element_tokens : Bool → Elements → List Token → List Token
  element_tokens b no_elements ts = ts
  element_tokens b (element d es) ts = comma b (tokens d (element_tokens true es ts))

  pub member_tokens : Bool → Members → List Token → List Token
  member_tokens b no_members ts = ts
  member_tokens b (member k d ms) ts =
      comma b (literal (codes k) ∷ other 58 ∷ tokens d (member_tokens true ms ts))

-- The text of a document.
abbrev pub print_document : Document → Text
print_document d = print (tokens d [])

-- What the integer is in a text for `JSON.parse`: between sentinels, if a double does not hold it.
abbrev pub marked_integer : Bool → Bool → ℕ → Text → Document
marked_integer true neg d ds = string (sentinel ∷ (print_minus neg ++ (d ∷ ds)) ++ sentinel ∷ [])
marked_integer false neg d ds = integer neg d ds

abbrev pub is_beyond : ℕ → Text → Bool
is_beyond d ds = ltb max_safe (digits_from 0 (d ∷ ds))

unfoldable mutual
  pub marked : Document → Document
  marked (integer neg d ds) = marked_integer (is_beyond d ds) neg d ds
  marked (array es) = array (marked_elements es)
  marked (object ms) = object (marked_members ms)
  marked d = d

  pub marked_elements : Elements → Elements
  marked_elements no_elements = no_elements
  marked_elements (element d es) = element (marked d) (marked_elements es)

  pub marked_members : Members → Members
  marked_members no_members = no_members
  marked_members (member k d ms) = member k (marked d) (marked_members ms)

-- The value of a document, with a number for every integer or with bigints beyond 2^53 - 1.
abbrev pub integer_value : Bool → Bool → ℕ → Text → Value
integer_value true neg d ds = bigint (integer_of neg (digits_from 0 (d ∷ ds)))
integer_value false neg d ds = number (integer_of neg (digits_from 0 (d ∷ ds)))

unfoldable mutual
  pub value : Bool → Document → Value
  value exact null_ = null
  value exact (bool b) = boolean b
  value exact (integer neg d ds) = integer_value (exact && is_beyond d ds) neg d ds
  value exact (string s) = text s
  value exact (array es) = arr (element_values exact es)
  value exact (object ms) = obj (member_values exact ms)

  pub element_values : Bool → Elements → Items
  element_values exact no_elements = no_items
  element_values exact (element d es) = item (value exact d) (element_values exact es)

  pub member_values : Bool → Members → Fields
  member_values exact no_members = no_fields
  member_values exact (member k d ms) = entry k (value exact d) (member_values exact ms)

-- A string without escapes, which the sentinels do not make look like an integer.
abbrev pub IsOrdinary : Text → Type 0
IsOrdinary s = All IsVerbatim s × (sentinel_match s ≡ none)

unfoldable mutual
  pub IsDocument : Document → Type 0
  IsDocument (integer neg d ds) = IsDigit d × All IsDigit ds
  IsDocument (string s) = IsOrdinary s
  IsDocument (array es) = AreDocuments es
  IsDocument (object ms) = AreMembers ms
  IsDocument d = Unit {0}

  pub AreDocuments : Elements → Type 0
  AreDocuments no_elements = Unit {0}
  AreDocuments (element d es) = IsDocument d × AreDocuments es

  pub AreMembers : Members → Type 0
  AreMembers no_members = Unit {0}
  AreMembers (member k d ms) = All IsVerbatim (codes k) × IsDocument d × AreMembers ms
