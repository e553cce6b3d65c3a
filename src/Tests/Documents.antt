-- ===== src/Tests/Documents.antt =====
-- sdk/ts/src/account.ts and json.ts: a list of roles with a large id.
use skyext.Account.Documents.{roles_document, roles-document}
use skyext.Account.{Account, HttpRequest, Fetched, responded, roles}
use skyext.Json.Documents.{
  Elements, element, no_elements, object, member, integer, no_members, print_document, tokens,
  marked, value, IsDocument,
}
use skyext.Json.Tokens.{print, IsDigit}
use skyext.Json.{Text, parse_json, digits_from}
use skyext.Prelude.{
  ◌≡◌, refl, Bool, true, false, ◌&&◌, Option, none, some, List, [], ◌∷◌, ◌==◌, if◌then◌else◌, All,
  arith,
}
use skyext.Value.{Value, pos, bigint, obj, item, no_items, entry, no_fields}

-- 70067467908940524
abbrev rid_digits : Text
rid_digits = 48 ∷ 48 ∷ 54 ∷ 55 ∷ 52 ∷ 54 ∷ 55 ∷ 57 ∷ 48 ∷ 56 ∷ 57 ∷ 52 ∷ 48 ∷ 53 ∷ 50 ∷ 52 ∷ []

rid_digits_lem : All IsDigit rid_digits
rid_digits_lem = (
  refl,
  (
    refl,
    (
      refl,
      (
        refl,
        (
          refl,
          (
            refl,
            (refl, (refl, (refl, (refl, (refl, (refl, (refl, (refl, (refl, (refl, tt)))))))))),
          ),
        ),
      ),
    ),
  ),
)

abbrev role_list : Elements
role_list = element (object (member "rid" (integer false 55 rid_digits) no_members)) no_elements

abbrev text_eq : Text → Text → Bool
text_eq [] [] = true
text_eq (c ∷ cs) (d ∷ ds) = c == d && text_eq cs ds
text_eq cs ds = false

-- `JSON.parse`, at the text that it is given.
abbrev list_parser : Text → Option Value
list_parser t =
    if text_eq t (print_document (marked (roles_document role_list)))
    then some (value false (marked (roles_document role_list)))
    else none

abbrev host_answer : List HttpRequest → HttpRequest → Fetched
host_answer history r = responded 200 (some (print_document (roles_document role_list)))

abbrev one_host : Account
one_host = record { hosts = (104 ∷ []) ∷ []; cursor = 0; history = [] }

roles-document_example :
    (roles host_answer (parse_json list_parser) (λ t. t) (116 ∷ []) none one_host).1
    ≡ some (item (obj (entry "rid" (bigint (pos 70067467908940524)) no_fields)) no_items)
unfolding digits_from print tokens marked value IsDocument
roles-document_example =
    roles-document host_answer list_parser (λ t. t) (116 ∷ []) none one_host role_list (omega arith)
      (
        ground arith,
        (refl, tt),
        (ground arith, ((ground arith, (refl, rid_digits_lem), tt), tt), tt),
      )
      refl refl
