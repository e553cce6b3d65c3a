-- ===== src/Account/Unreachable.antt =====
-- sdk/ts/src/account.ts: no host gives a usable answer.
use skyext.Account.{
  Account, Text, HttpRequest, Fetched, usable, build, roles_path, request, is_failure, dev_login,
  servers, roles, create_role, ensure_role, ensure_role_of, gates, pick_recommended_server, list_of,
  response_field, pick,
}
use skyext.Account.Rotation.{ask, rotate, request-ask}
use skyext.Prelude.{
  ◌+◌, ◌%◌, ◌<◌, ◌≡◌, ◌∙◌, refl, ap, String, Option, none, some, List, [], ◌∷◌, length, codes, not,
  ◌||◌, if◌then◌else◌,
}
use skyext.Value.{Value, null, Fields, Items, is_truthy, text, entry, no_fields}

-- The history after every host of a list was asked once, in turn.
unfoldable pub asked_all : (Text → HttpRequest) → List Text → List HttpRequest → List HttpRequest
asked_all make [] history = history
asked_all make (host ∷ hosts) history = asked_all make hosts (make host ∷ history)

-- A client that has asked all its hosts, from the cursor on.
abbrev pub round_of : (Text → HttpRequest) → Account → Account
round_of make a = record a {
  cursor = (a.cursor + 1) % length a.hosts;
  history = asked_all make (rotate a.cursor a.hosts) a.history;
}

module _ (fetch : List HttpRequest → HttpRequest → Fetched) (parse_json : Text → Option Value)
    (encode_uri : Text → Text) where
  -- Neither of the answers is one with status 200 whose body can be read.
  abbrev pub Unreachable : Type 0
  Unreachable =
      (history : List HttpRequest) (r : HttpRequest) → usable parse_json (fetch history r) ≡ none

  ask-Unreachable :
      Unreachable
      → (make : Text → HttpRequest) (hosts : List Text) (history : List HttpRequest)
      → ask fetch parse_json encode_uri make hosts history ≡ (asked_all make hosts history, none)
  unfolding ask asked_all
  ask-Unreachable fails make [] history = refl
  ask-Unreachable fails make (host ∷ hosts) history =
      rw (fails history (make host), ask) (ask-Unreachable fails make hosts (make host ∷ history))

  request-Unreachable :
      Unreachable
      → (method : String) (path : Text) (token : Option Text) (body : Option Fields) (a : Account)
      → a.cursor < length a.hosts
      → request fetch parse_json encode_uri method path token body a
        ≡ (round_of (build method path token body) a, none)
  request-Unreachable fails method path token body a place =
      let make = build method path token body in
      (request-ask fetch parse_json encode_uri method path token body a place).0
      ∙ ap
          (λ (w : List HttpRequest × Option Value).
            let b : Account = record a {
              cursor = (a.cursor + 1) % length a.hosts;
              history = w.0;
            } in
            (b, w.1))
          (ask-Unreachable fails make (rotate a.cursor a.hosts) a.history)

  abbrev value_of : String → Option Value → Option Value
  value_of k res =
      if is_failure res || not (is_truthy (response_field k res))
      then none
      else some (response_field k res)

  abbrev picked : Option Items → Option Value
  picked found = elim found [ none ↦ some null | some list ↦ pick list ]

  -- Where no host gives a usable answer and the cursor is one of the hosts' places, each method asks
  -- every host once, in turn from the cursor on, wrapping round, with its own request; it moves the
  -- cursor on by one place and returns null, `pick_recommended_server` too.
  pub unreachable :
      Unreachable
      → (account token name server : Text) (at : Option Text) (a : Account)
      → a.cursor < length a.hosts
      → let after = λ (method : String) (path : Text) (token : Option Text) (body : Option Fields).
        round_of (build method path token body) a in
        (dev_login fetch parse_json encode_uri account a ≡ (
          after "POST" (codes "/dev_login") none (some (entry "account" (text account) no_fields)),
          none,
        ))
        × (servers fetch parse_json encode_uri a ≡ (after "GET" (codes "/servers") none none, none))
        × (pick_recommended_server fetch parse_json encode_uri a
            ≡ (after "GET" (codes "/servers") none none, some null))
        × (roles fetch parse_json encode_uri token at a
            ≡ (after "GET" (roles_path encode_uri at) (some token) none, none))
        × (create_role fetch parse_json encode_uri token server name a ≡ (
          after "POST"
              (codes "/create_role")
              (some token)
              (some (entry "server" (text server) (entry "name" (text name) no_fields))),
          none,
        ))
        × (ensure_role fetch parse_json encode_uri token name server a
            ≡ (after "GET" (codes "/roles") (some token) none, none))
        × (gates fetch parse_json encode_uri a ≡ (after "GET" (codes "/gates") none none, none))
  unfolding dev_login servers pick_recommended_server roles create_role ensure_role gates is_failure
      ensure_role_of roles_path
  unreachable fails account token name server at a place =
      let ask_ = λ (method : String) (path : Text) (token : Option Text) (body : Option Fields).
        request-Unreachable fails method path token body a place in
      let list = λ (k : String) (w : Account × Option Value).
        let r : Account × Option Items = (w.0, list_of fetch parse_json encode_uri k w.1) in r in
      let value = λ (k : String) (w : Account × Option Value).
        let r : Account × Option Value = (w.0, value_of k w.1) in r in
      let no_servers = ap (list "servers") (ask_ "GET" (codes "/servers") none none) in
      (
        ap (value "token") (
            ask_ "POST" (codes "/dev_login") none
              (some (entry "account" (text account) no_fields))),
        no_servers,
        ap (λ (w : Account × Option Items). let r : Account × Option Value = (w.0, picked w.1) in r)
            no_servers,
        ap (list "roles") (ask_ "GET" (roles_path encode_uri at) (some token) none),
        ap (value "role") (
            ask_ "POST" (codes "/create_role") (some token)
              (some (entry "server" (text server) (entry "name" (text name) no_fields)))),
        ap
            (λ (w : Account × Option Items).
              ensure_role_of fetch parse_json encode_uri token name server w.1 w.0)
            (ap (list "roles") (ask_ "GET" (codes "/roles") (some token) none)),
        ap (list "gates") (ask_ "GET" (codes "/gates") none none),
      )
