-- ===== src/Tests/Json.antt =====
-- sdk/ts/src/json.ts: a text with a string, a large integer and a fraction, and a large integer alone.
use skyext.Json.Documents.Exact.{parse_json-document}
use skyext.Json.Documents.{
  Document, tokens as document_tokens, object, member, integer, array, element, bool, no_elements,
  no_members, print_document, marked, value, IsDocument,
}
use skyext.Json.LargeIntegers.{Documented, big_int-integer_of, integer_of, parse_json-integer_of}
use skyext.Json.Scanner.{quote_unsafe_integers-print}
use skyext.Json.Tokens.{
  Token, literal, numeral, other, no_fraction, fraction, no_exponent, exponent, print, print_minus,
  IsDigit, WellFormed, Escaped, rewritten, digit_lem,
}
use skyext.Json.{Text, quote_unit, digits_from, big_int, parse_json, quote_unsafe_integers}
use skyext.Prelude.{
  ℕ, ◌≡◌, refl, ap, Bool, true, false, Option, none, some, List, [], ◌∷◌, ◌++◌, if◌then◌else◌, ◌==◌,
  All, arith, ◌&&◌,
}
use skyext.Value.{
  Value, bigint, negsuc, pos, number, boolean, arr, obj, text, no_items, item, no_fields, entry,
}

-- 9007199254740993
abbrev large : Text
large = 48 ∷ 48 ∷ 55 ∷ 49 ∷ 57 ∷ 57 ∷ 50 ∷ 53 ∷ 52 ∷ 55 ∷ 52 ∷ 48 ∷ 57 ∷ 57 ∷ 51 ∷ []

-- The string "\"9", a large integer, a number with an exponent, and -1.5, between commas.
abbrev tokens : List Token
tokens =
    literal (92 ∷ 34 ∷ 57 ∷ [])
    ∷ other 44
    ∷ numeral false 57 large no_fraction no_exponent
    ∷ other 44
    ∷ numeral false 57 large no_fraction (exponent true none 57 [])
    ∷ other 44
    ∷ numeral true 49 [] (fraction (53 ∷ [])) no_exponent
    ∷ []

large_lem : All IsDigit large
large_lem = (
  refl,
  (
    refl,
    (
      refl,
      (
        refl,
        (refl, (refl, (refl, (refl, (refl, (refl, (refl, (refl, (refl, (refl, (refl, tt))))))))))),
      ),
    ),
  ),
)

abbrev stop : (false ≡ false) × (false ≡ false) × (false ≡ false)
stop = (refl, refl, refl)

well_formed : WellFormed tokens
unfolding WellFormed Escaped print
well_formed = (
  (refl, (refl, (refl, refl))),
  (
    (refl, refl),
    (
      (refl, large_lem, tt, tt, stop),
      (
        (refl, refl),
        (
          (refl, large_lem, tt, (refl, tt), stop),
          ((refl, refl), ((refl, tt, (refl, tt), tt, tt), tt)),
        ),
      ),
    ),
  ),
)

quote_unsafe_integers-print_example :
    quote_unsafe_integers (print tokens)
    ≡ 34 ∷ 92 ∷ 34 ∷ 57 ∷ 34 ∷ 44 ∷ 34 ∷ 57344 ∷ 57 ∷ large
      ++ 57344 ∷ 34 ∷ 44 ∷ 57 ∷ large
      ++ 69 ∷ 57 ∷ 44 ∷ 45 ∷ 49 ∷ 46 ∷ 53 ∷ []
unfolding rewritten digits_from print
quote_unsafe_integers-print_example = quote_unsafe_integers-print tokens well_formed

abbrev without_last : Text → Text
without_last [] = []
without_last (c ∷ []) = []
without_last (c ∷ d ∷ cs) = c ∷ without_last (d ∷ cs)

without_last-append : (s : Text) (c : ℕ) → without_last (s ++ c ∷ []) ≡ s
without_last-append [] c = refl
without_last-append (a ∷ []) c = refl
without_last-append (a ∷ b ∷ s) c = ap (◌∷◌ a) (without_last-append (b ∷ s) c)

-- A parser of strings without escapes and of integers.
abbrev small_parser : Text → Option Value
small_parser [] = none
small_parser (c ∷ cs) =
    if c == quote_unit then some (text (without_last cs)) else some (number (big_int (c ∷ cs)))

small_parser-integer :
    (neg : Bool) (d : ℕ) (ds : Text)
    → IsDigit d
    → small_parser (print_minus neg ++ (d ∷ ds))
      ≡ some (number (integer_of neg (digits_from 0 (d ∷ ds))))
small_parser-integer true d ds h = ap (λ n. some (number n)) (big_int-integer_of true d ds h)
small_parser-integer false d ds h =
    rw (digit_lem d h).2 (ap (λ n. some (number n)) (big_int-integer_of false d ds h))

small_parser-Documented : Documented small_parser
small_parser-Documented = record {
  on_string = λ s h. ap (λ t. some (text t)) (without_last-append s quote_unit);
  on_integer = λ neg d ds nonzero h hs safe. small_parser-integer neg d ds h;
}

parse_json-integer_of_example :
    parse_json small_parser (45 ∷ 57 ∷ large) ≡ some (bigint (negsuc 9007199254740992))
unfolding digits_from
parse_json-integer_of_example =
    parse_json-integer_of small_parser small_parser-Documented true 57 large (omega arith) refl
      large_lem

-- {"rid":-9007199254740993,"n":[7,true]}
abbrev role_document : Document
role_document = object (
    member "rid" (integer true 57 large) (
      member "n" (array (element (integer false 55 []) (element (bool true) no_elements)))
        no_members))

abbrev text_eq : Text → Text → Bool
text_eq [] [] = true
text_eq (c ∷ cs) (d ∷ ds) = c == d && text_eq cs ds
text_eq cs ds = false

-- `JSON.parse`, at the text that it is given.
abbrev document_parser : Text → Option Value
document_parser t =
    if text_eq t (print_document (marked role_document))
    then some (value false (marked role_document))
    else none

parse_json-document_example :
    parse_json document_parser (print_document role_document)
    ≡ some (
        obj (
          entry "rid"
            (bigint (negsuc 9007199254740992))
            (entry "n" (arr (item (number (pos 7)) (item (boolean true) no_items))) no_fields)))
unfolding digits_from print document_tokens marked value IsDocument
parse_json-document_example =
    parse_json-document document_parser role_document
      (ground arith, (refl, large_lem), (ground arith, ((refl, tt), (tt, tt)), tt)) refl
