-- ===== src/Account/Answers.antt =====
-- sdk/ts/src/account.ts: what the methods send and what they make of the answers.
use skyext.Account.{
  Account, Text, HttpRequest, Fetched, build, headers, usable, try_hosts, request, roles_path,
  roles, ensure_role, ensure_role_of, pick, recommended_of, first_server,
}
use skyext.Prelude.{
  ℕ, zero, suc, ◌+◌, ◌%◌, ◌<◌, ◌≡◌, ◌≢◌, refl, String, true, false, Option, none, some, List, [],
  ◌∷◌, ◌++◌, arith, length, get_or, All, All-map, codes, Option-cases, inl, inr,
}
use skyext.Value.{Value, Fields, Items, no_items, item, prop, is_truthy, is_nullish}

-- The request is the one that `make` builds for one of the hosts.
abbrev pub MadeFor : List Text → (Text → HttpRequest) → HttpRequest → Type 0
MadeFor hosts make r = (i : ℕ) × (i < length hosts) × (r ≡ make (get_or hosts i []))

module _ (fetch : List HttpRequest → HttpRequest → Fetched) (parse_json : Text → Option Value)
    (encode_uri : Text → Text) where
  try_hosts-MadeFor :
      (k i start : ℕ) (make : Text → HttpRequest) (a : Account)
      → 0 < length a.hosts
      → All (MadeFor a.hosts make) a.history
      → let w = try_hosts fetch parse_json encode_uri k i start make a in
        All (MadeFor a.hosts make) (w.0).history
  unfolding try_hosts
  try_hosts-MadeFor zero i start make a h p = p
  try_hosts-MadeFor (suc k) i start make a h p =
      let r = make (get_or a.hosts ((start + i) % length a.hosts) []) in
      elim (Option-cases (usable parse_json (fetch a.history r))) [
        | inl none_yet ↦
            rw (none_yet, try_hosts)
              (try_hosts-MadeFor k (suc i) start make (record a { history = r ∷ a.history }) h
                (((start + i) % length a.hosts, grind arith, refl), p))
        | inr (v, found) ↦
            rw (found, try_hosts) (((start + i) % length a.hosts, grind arith, refl), p)
      ]

  request-MadeFor :
      (method : String) (path : Text) (token : Option Text) (body : Option Fields) (a : Account)
      → 0 < length a.hosts
      → a.history ≡ []
      → All
          (MadeFor a.hosts (build method path token body))
          ((request fetch parse_json encode_uri method path token body a).0).history
  unfolding request
  request-MadeFor method path token body a h fresh =
      try_hosts-MadeFor (length a.hosts) 0 a.cursor (build method path token body)
        (record a { cursor = (a.cursor + 1) % length a.hosts }) h (rw fresh tt)

  -- From a client that has made no request, every request that `roles` makes goes to one of the
  -- hosts, with the path for the server and nothing else in its URL, and carries the token in its
  -- authorization header alone.
  pub roles-headers :
      (token : Text) (server : Option Text) (a : Account)
      → 0 < length a.hosts
      → a.history ≡ []
      → token ≢ []
      → All
          (λ r.
            (i : ℕ) × (i < length a.hosts)
            × (r.url ≡ get_or a.hosts i [] ++ roles_path encode_uri server)
            × (r.headers ≡ ("authorization", codes "Bearer " ++ token) ∷ [])
            × (r.body ≡ none))
          ((roles fetch parse_json encode_uri token server a).0).history
  unfolding roles build headers
  roles-headers [] server a h fresh given = absurd (given refl)
  roles-headers (c ∷ cs) server a h fresh given =
      All-map _ (λ r (i, lt, e). (i, lt, rw e, rw e, rw e))
        (request-MadeFor "GET" (roles_path encode_uri server) (some (c ∷ cs)) none a h fresh)

  roles-method :
      (token : Text) (server : Option Text) (a : Account)
      → 0 < length a.hosts
      → a.history ≡ []
      → All (λ r. r.method ≡ "GET") ((roles fetch parse_json encode_uri token server a).0).history
  unfolding roles build
  roles-method token server a h fresh =
      All-map _ (λ r (i, lt, e). rw e)
        (request-MadeFor "GET" (roles_path encode_uri server) (some token) none a h fresh)

  -- From a client that has made no request, where the account has roles, `ensure_role` returns the
  -- first of them and creates none: all the requests that it makes are for reading.
  ensure_role-first :
      (token name server : Text) (a : Account) (role : Value) (rest : Items)
      → 0 < length a.hosts
      → a.history ≡ []
      → (roles fetch parse_json encode_uri token none a).1 ≡ some (item role rest)
      → is_truthy role ≡ true
      → let w = ensure_role fetch parse_json encode_uri token name server a in
        (w.1 ≡ some role) × All (λ r. r.method ≡ "GET") (w.0).history
  unfolding ensure_role
  ensure_role-first token name server a role rest h fresh found real =
      rw (found, ensure_role_of, real) (refl, roles-method token none a h fresh)

-- The items of a list that are objects or other values with fields.
abbrev pub AllReal : Items → Type 0
AllReal no_items = Unit {0}
AllReal (item e es) = (is_nullish e ≡ false) × AllReal es

abbrev pub NoneRecommended : Items → Type 0
NoneRecommended no_items = Unit {0}
NoneRecommended (item e es) = (is_truthy (prop "recommended" e) ≡ false) × NoneRecommended es

abbrev pub append_items : Items → Items → Items
append_items no_items ys = ys
append_items (item x xs) ys = item x (append_items xs ys)

recommended_of-first :
    (before : Items) (e : Value) (after : Items)
    → AllReal before
    → NoneRecommended before
    → is_nullish e ≡ false
    → is_truthy (prop "recommended" e) ≡ true
    → recommended_of (append_items before (item e after)) ≡ some (some (prop "server" e))
unfolding recommended_of
recommended_of-first no_items e after r n real yes_ = rw (real, yes_)
recommended_of-first (item x xs) e after r n real yes_ =
    rw (r.0, n.0) (recommended_of-first xs e after r.1 n.1 real yes_)

recommended_of-none :
    (list : Items) → AllReal list → NoneRecommended list → recommended_of list ≡ some none
unfolding recommended_of
recommended_of-none no_items r n = refl
recommended_of-none (item x xs) r n = rw (r.0, n.0) (recommended_of-none xs r.1 n.1)

-- Of a list of servers without null entries, the first recommended one is picked, wherever it stands,
-- and the first server if none is recommended.
pick-recommended :
    (before after : Items) (e : Value)
    → AllReal before
    → NoneRecommended before
    → is_nullish e ≡ false
    → is_truthy (prop "recommended" e) ≡ true
    → (pick (append_items before (item e after)) ≡ some (prop "server" e))
      × (pick before ≡ some (first_server before))
unfolding pick
pick-recommended before after e r n real yes_ = (
  rw (recommended_of-first before e after r n real yes_, pick),
  rw (recommended_of-none before r n, pick),
)
