-- ===== src/Account/Documents.antt =====
-- sdk/ts/src/account.ts and json.ts: a response, from its text to what a method returns.
use skyext.Account.{
  Account, HttpRequest, Fetched, responded, build, request, roles, roles_path, list_of, try_hosts,
  usable, is_failure, as_array,
}
use skyext.Json.Documents.Exact.{parse_json-document}
use skyext.Json.Documents.{
  Document, Elements, object, member, integer, array, no_members, print_document, marked, value,
  element_values, IsDocument,
}
use skyext.Json.{Text, parse_json, digits_from}
use skyext.Prelude.{
  ℕ, suc, ◌+◌, ◌-◌, ◌%◌, ◌<◌, ◌≡◌, refl, ap, ◌∙◌, String, true, false, Option, none, some, List, [],
  arith, length, get_or,
}
use skyext.Value.{Value, text, Fields, get, prop}

-- {"code":0,"roles":[...]}
abbrev pub roles_document : Elements → Document
roles_document es =
    object (member "code" (integer false 48 []) (member "roles" (array es) no_members))

module _ (fetch : List HttpRequest → HttpRequest → Fetched) (json_parse : Text → Option Value)
    (encode_uri : Text → Text) where
  usable-document :
      (d : Document) (answer : Fetched)
      → IsDocument d
      → json_parse (print_document (marked d)) ≡ some (value false (marked d))
      → answer ≡ responded 200 (some (print_document d))
      → usable (parse_json json_parse) answer ≡ some (value true d)
  unfolding usable
  usable-document d answer h parses answers =
      ap (usable (parse_json json_parse)) answers
      ∙ ap (λ o. some (elim o [ none ↦ text (print_document d) | some v ↦ v ]))
          (parse_json-document json_parse d h parses)

  -- The first round of the loop, where its host gives a usable answer.
  try_hosts_first :
      (k start : ℕ) (make : Text → HttpRequest) (a : Account) (v : Value)
      → usable
          (parse_json json_parse)
          (fetch a.history (make (get_or a.hosts ((start + 0) % length a.hosts) [])))
        ≡ some v
      → (try_hosts fetch (parse_json json_parse) encode_uri (suc k) 0 start make a).1 ≡ some v
  unfolding try_hosts
  try_hosts_first k start make a v h = rw (try_hosts, h)

  request-document :
      (method : String) (path : Text) (token : Option Text) (body : Option Fields) (a : Account)
      (d : Document)
      → let r =
          build method path token body (get_or a.hosts ((a.cursor + 0) % length a.hosts) []) in
        0 < length a.hosts
        → IsDocument d
        → json_parse (print_document (marked d)) ≡ some (value false (marked d))
        → fetch a.history r ≡ responded 200 (some (print_document d))
        → (request fetch (parse_json json_parse) encode_uri method path token body a).1
          ≡ some (value true d)
  unfolding request
  request-document method path token body a d some_ h parses answers =
      let b : Account = record a { cursor = (a.cursor + 1) % length a.hosts } in
      let make = build method path token body in
      let n : length a.hosts ≡ suc (length a.hosts - 1) = omega arith in
      ap (λ k. (try_hosts fetch (parse_json json_parse) encode_uri k 0 a.cursor make b).1) n
      ∙ try_hosts_first (length a.hosts - 1) a.cursor make b (value true d)
          (usable-document d _ h parses answers)

  list_of-roles_document :
      (es : Elements)
      → list_of fetch
          (parse_json json_parse)
          encode_uri
          "roles"
          (some (value true (roles_document es)))
        ≡ some (element_values true es)
  unfolding is_failure as_array value get prop digits_from
  list_of-roles_document es = refl

  -- From the first host's text to the roles: where it answers with a document of the code OK and a list
  -- of roles, and `JSON.parse` reads what it is given of that, `roles` returns the roles of the
  -- document exactly, every integer beyond 2^53 - 1 in them as a bigint with all its digits.
  pub roles-document :
      (token : Text) (server : Option Text) (a : Account) (es : Elements)
      → let d = roles_document es in
        let r =
          build "GET"
            (roles_path encode_uri server)
            (some token)
            none
            (get_or a.hosts ((a.cursor + 0) % length a.hosts) []) in
        0 < length a.hosts
        → IsDocument d
        → json_parse (print_document (marked d)) ≡ some (value false (marked d))
        → fetch a.history r ≡ responded 200 (some (print_document d))
        → (roles fetch (parse_json json_parse) encode_uri token server a).1
          ≡ some (element_values true es)
  unfolding roles
  roles-document token server a es some_ h parses answers =
      ap (list_of fetch (parse_json json_parse) encode_uri "roles") (
        request-document "GET" (roles_path encode_uri server) (some token) none a
          (roles_document es) some_ h parses answers)
      ∙ list_of-roles_document es
