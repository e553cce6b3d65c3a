-- ===== src/Json/Documents/Exact.antt =====
-- sdk/ts/src/json.ts: the value of a document.
use skyext.Json.Documents.{
  Document, null_, bool, integer, string, array, object, Elements, no_elements, element, Members,
  no_members, member, tokens, print_document, marked_integer, is_beyond, marked, marked_elements,
  marked_members, integer_value, value, element_values, member_values, IsDocument, AreDocuments,
  AreMembers,
}
use skyext.Json.Documents.Printed.{tokens-WellFormed}
use skyext.Json.Documents.Marked.{tokens-marked}
use skyext.Json.LargeIntegers.{revive-token}
use skyext.Json.Scanner.{quote_unsafe_integers-print}
use skyext.Json.Tokens.{print, IsDigit, WellFormed, rewritten}
use skyext.Json.{
  Text, quote_unsafe_integers, revive, revive_items, revive_fields, revived, parse_json,
}
use skyext.Prelude.{ℕ, ◌≡◌, refl, ap, ap₂, ◌∙◌, Bool, true, false, Option, some, [], All}
use skyext.Value.{Value, arr, obj, item, entry}

revive-marked_integer :
    (b neg : Bool) (d : ℕ) (ds : Text)
    → IsDigit d
    → All IsDigit ds
    → revive (value false (marked_integer b neg d ds)) ≡ integer_value b neg d ds
unfolding value revive
revive-marked_integer true neg d ds h hs = revive-token neg d ds h hs
revive-marked_integer false neg d ds h hs = refl

-- The reviver takes the marked document to the exact value.
mutual
  unfolding value marked revive IsDocument

  revive-marked : (d : Document) → IsDocument d → revive (value false (marked d)) ≡ value true d
  revive-marked null_ h = refl
  revive-marked (bool b) h = refl
  revive-marked (integer neg d ds) h = revive-marked_integer (is_beyond d ds) neg d ds h.0 h.1
  revive-marked (string s) h = rw h.1
  revive-marked (array es) h = ap arr (revive-marked_elements es h)
  revive-marked (object ms) h = ap obj (revive-marked_members ms h)

  revive-marked_elements :
      (es : Elements)
      → AreDocuments es
      → revive_items (element_values false (marked_elements es)) ≡ element_values true es
  revive-marked_elements no_elements h = refl
  revive-marked_elements (element d es) h =
      ap₂ item (revive-marked d h.0) (revive-marked_elements es h.1)

  revive-marked_members :
      (ms : Members)
      → AreMembers ms
      → revive_fields (member_values false (marked_members ms)) ≡ member_values true ms
  revive-marked_members no_members h = refl
  revive-marked_members (member k d ms) h =
      ap₂ (entry k) (revive-marked d h.1) (revive-marked_members ms h.2)

quote_unsafe_integers-document :
    (d : Document)
    → IsDocument d
    → quote_unsafe_integers (print_document d) ≡ print_document (marked d)
unfolding WellFormed print rewritten
quote_unsafe_integers-document d h =
    quote_unsafe_integers-print (tokens d []) (tokens-WellFormed d [] h (tt, tt))
    ∙ tokens-marked d [] [] refl

-- A document comes out exactly, at any depth: every integer within 2^53 - 1 as a number and every other
-- as a bigint, with all digits, and all else as it is; where `JSON.parse` gives the document's value, with
-- a number for each integer, of the text in which the integers beyond are strings between sentinels.
pub parse_json-document :
    (json_parse : Text → Option Value) (d : Document)
    → IsDocument d
    → json_parse (print_document (marked d)) ≡ some (value false (marked d))
    → parse_json json_parse (print_document d) ≡ some (value true d)
unfolding parse_json
parse_json-document json_parse d h parses =
    ap (λ t. revived (json_parse t)) (quote_unsafe_integers-document d h)
    ∙ (ap revived parses ∙ ap some (revive-marked d h))
