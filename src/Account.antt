-- ===== src/Account.antt =====
-- sdk/ts/src/account.ts: the HTTP client of the account service. A text is the list of its UTF-16
-- code units. What `fetch` answers is a parameter: it may depend on all requests made before. So are
-- `parseJson` (Json.antt; `none`: it throws) and `encodeURIComponent`, here on texts without a lone
-- surrogate, on which it does not throw. `JSON.stringify` of a body is left out: a request holds the
-- body itself.
pub mod Rotation
pub mod Answers
pub mod Responses
pub mod Unreachable
pub mod Documents
use skyext.ErrCode
use skyext.Prelude.{
  ℕ, zero, suc, ◌+◌, ◌%◌, String, Bool, true, false, not, ◌||◌, Option, none, some, List, [], ◌∷◌,
  ◌++◌, if◌then◌else◌, ◌==◌, length, get_or, codes,
}
use skyext.Value.{
  Value, undefined, null, text, arr, obj, Items, no_items, item, Fields, no_fields, entry, prop,
  is_truthy, is_nullish, is_number, or_null,
}

abbrev pub Text : Type 0
Text = List ℕ

pub record HttpRequest : Type 0 where
  pub method : String
  pub url : Text
  pub headers : List (String × Text)
  pub body : Option Fields

-- An answer of the network: none, or a status and a body whose reading may fail.
pub data Fetched : Type 0 where
  failed : Fetched
  responded : ℕ → Option Text → Fetched

-- The history is the requests made so far, newest first.
pub record Account : Type 0 where
  pub hosts : List Text
  pub cursor : ℕ
  pub history : List HttpRequest

-- An answer may depend on all the requests made before.
abbrev pub Fetch : Type 0
Fetch = List HttpRequest → HttpRequest → Fetched

pub record AccountOptions : Type 0 where
  pub hosts : List Text
  pub fetch_impl : Option Fetch

abbrev pub create_at : List Text → ℕ → Option Account
create_at [] random = none
create_at (host ∷ hosts) random =
    some (record { hosts = host ∷ hosts; cursor = random; history = [] })

-- The constructor; `random` is `Math.floor(Math.random() * hosts.length)`.
unfoldable pub create : AccountOptions → ℕ → Option Account
create o random = create_at o.hosts random

-- `opts.fetchImpl ?? globalThis.fetch`, the `fetch` of the methods below.
unfoldable pub fetch_of : AccountOptions → Fetch → Fetch
fetch_of o global_fetch = elim o.fetch_impl [ none ↦ global_fetch | some f ↦ f ]

-- `if (token)` and `if (server)` on an optional text.
abbrev pub is_given : Option Text → Bool
is_given (some (c ∷ cs)) = true
is_given _ = false

abbrev pub given_text : Option Text → Text
given_text none = []
given_text (some t) = t

unfoldable pub headers : Option Text → Option Fields → List (String × Text)
headers token body =
    (if is_given token then ("authorization", codes "Bearer " ++ given_text token) ∷ [] else [])
    ++ elim body [ none ↦ [] | some _ ↦ ("content-type", codes "application/json") ∷ [] ]

unfoldable pub build : String → Text → Option Text → Option Fields → Text → HttpRequest
unfolding headers
build method path token body host = record {
  method = method;
  url = host ++ path;
  headers = headers token body;
  body = body;
}

-- `Array.isArray(v)`, or an object with no keys.
unfoldable pub as_array : Value → Option Items
as_array (arr xs) = some xs
as_array (obj no_fields) = some no_items
as_array _ = none

-- `!res || res.code !== ErrCode.OK`, of what `request` returned.
unfoldable pub is_failure : Option Value → Bool
is_failure none = true
is_failure (some res) = not (is_truthy res) || not (is_number (prop "code" res) ErrCode.ok)

-- A field of a response that did not fail.
abbrev pub response_field : String → Option Value → Value
response_field k none = undefined
response_field k (some res) = prop k res

-- The loop of `pickRecommendedServer`; `none` is the exception of a field of null.
unfoldable pub recommended_of : Items → Option (Option Value)
recommended_of no_items = some none
recommended_of (item e es) =
    let rest = recommended_of es in
    if is_nullish e
    then none
    else if is_truthy (prop "recommended" e)
    then some (some (prop "server" e))
    else rest

-- `servers[0]?.server ?? null`
abbrev pub first_server : Items → Value
first_server no_items = null
first_server (item e es) = if is_nullish e then null else or_null (prop "server" e)

unfoldable pub pick : Items → Option Value
unfolding recommended_of
pick servers = elim (recommended_of servers) [
  | none ↦ none
  | some none ↦ some (first_server servers)
  | some (some server) ↦ some server
]

-- The response of a fetch that `request` returns; a body that is no JSON is returned as text.
unfoldable pub usable : (Text → Option Value) → Fetched → Option Value
usable parse_json failed = none
usable parse_json (responded status none) = none
usable parse_json (responded status (some body)) =
    if status == 200 then some (elim (parse_json body) [ none ↦ text body | some v ↦ v ]) else none

unfoldable pub roles_path : (Text → Text) → Option Text → Text
roles_path encode_uri server =
    if is_given server
    then codes "/roles?server=" ++ encode_uri (given_text server)
    else codes "/roles"

module _ (fetch : List HttpRequest → HttpRequest → Fetched) (parse_json : Text → Option Value)
    (encode_uri : Text → Text) where
  -- The loop of `request`: `k` rounds from the `i`-th.
  unfoldable pub try_hosts : ℕ → ℕ → ℕ → (Text → HttpRequest) → Account → Account × Option Value
  unfolding usable
  try_hosts zero i start make a = (a, none)
  try_hosts (suc k) i start make a =
      let r = make (get_or a.hosts ((start + i) % length a.hosts) []) in
      let a' : Account = record a { history = r ∷ a.history } in
      elim (usable parse_json (fetch a.history r)) [
        | none ↦ try_hosts k (suc i) start make a'
        | some v ↦ (a', some v)
      ]

  unfoldable pub request :
      String → Text → Option Text → Option Fields → Account → Account × Option Value
  unfolding try_hosts build
  request method path token body a =
      try_hosts (length a.hosts) 0 a.cursor (build method path token body)
        (record a { cursor = (a.cursor + 1) % length a.hosts })

  unfoldable pub dev_login : Text → Account → Account × Option Value
  unfolding request is_failure
  dev_login account a =
      let (a', res) =
        request "POST" (codes "/dev_login") none (some (entry "account" (text account) no_fields))
          a in
      (
        a',
        if is_failure res || not (is_truthy (response_field "token" res))
            then none
            else some (response_field "token" res),
      )

  -- A list of the response, if it did not fail.
  abbrev pub list_of : String → Option Value → Option Items
  list_of k res = if is_failure res then none else as_array (response_field k res)

  unfoldable pub servers : Account → Account × Option Items
  unfolding request is_failure as_array
  servers a =
      let (a', res) = request "GET" (codes "/servers") none none a in (a', list_of "servers" res)

  -- `none` is an exception.
  unfoldable pub pick_recommended_server : Account → Account × Option Value
  unfolding servers pick
  pick_recommended_server a =
      let (a', found) = servers a in (a', elim found [ none ↦ some null | some list ↦ pick list ])

  unfoldable pub roles : Text → Option Text → Account → Account × Option Items
  unfolding request is_failure as_array roles_path
  roles token server a =
      let (a', res) = request "GET" (roles_path encode_uri server) (some token) none a in
      (a', list_of "roles" res)

  unfoldable pub create_role : Text → Text → Text → Account → Account × Option Value
  unfolding request is_failure
  create_role token server name a =
      let body = entry "server" (text server) (entry "name" (text name) no_fields) in
      let (a', res) = request "POST" (codes "/create_role") (some token) (some body) a in
      (
        a',
        if is_failure res || not (is_truthy (response_field "role" res))
            then none
            else some (response_field "role" res),
      )

  abbrev pub first_item : Items → Value
  first_item no_items = undefined
  first_item (item e es) = e

  unfoldable pub ensure_role_of :
      Text → Text → Text → Option Items → Account → Account × Option Value
  unfolding create_role
  ensure_role_of token name server none a = (a, none)
  ensure_role_of token name server (some list) a =
      if is_truthy (first_item list)
      then (a, some (first_item list))
      else create_role token server name a

  unfoldable pub ensure_role : Text → Text → Text → Account → Account × Option Value
  unfolding roles ensure_role_of
  ensure_role token name server a =
      let (a', found) = roles token none a in ensure_role_of token name server found a'

  unfoldable pub gates : Account → Account × Option Items
  unfolding request is_failure as_array
  gates a = let (a', res) = request "GET" (codes "/gates") none none a in (a', list_of "gates" res)
