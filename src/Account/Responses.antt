-- ===== src/Account/Responses.antt =====
-- sdk/ts/src/account.ts: the responses that the account service sends, and what the methods make of
-- them.
use skyext.Account.{
  Account, Text, HttpRequest, Fetched, request, is_failure, as_array, list_of, response_field,
  servers, roles, roles_path, create_role, ensure_role, ensure_role_of, gates,
}
use skyext.ErrCode
use skyext.Prelude.{
  ℕ, ◌≡◌, refl, ◌∙◌, ap, String, true, false, Option, none, some, List, [], ◌∷◌, codes, arith,
  if◌then◌else◌, ◌==◌, ◌||◌, not, leb, str_eq, Bool-cases, inl, inr,
}
use skyext.Value.{
  ℤ, pos, negsuc, Value, number, boolean, bigint, text, arr, obj, Items, no_items, item, Fields,
  no_fields, entry, get, prop, is_truthy, GateInfo, ServerInfo, RoleInfo,
}

pub record DevLoginResponse : Type 0 where
  pub code : ℕ
  pub token : Option Text

pub record ServersResponse : Type 0 where
  pub code : ℕ
  pub servers : Option (List ServerInfo)

pub record RolesResponse : Type 0 where
  pub code : ℕ
  pub roles : Option (List RoleInfo)

pub record CreateRoleResponse : Type 0 where
  pub code : ℕ
  pub role : Option RoleInfo

pub record GatesResponse : Type 0 where
  pub code : ℕ
  pub gates : Option (List GateInfo)

-- An integer as `parseJson` gives it.
abbrev pub integer : ℤ → Value
integer (pos n) = if leb n 9007199254740991 then number (pos n) else bigint (pos n)
integer (negsuc n) = if leb n 9007199254740990 then number (negsuc n) else bigint (negsuc n)

abbrev pub role_value : RoleInfo → Value
role_value r = obj (
    entry "rid" (integer r.rid)
      (entry "server" (text (codes r.server)) (entry "name" (text (codes r.name)) no_fields)))

-- A field that may be missing.
abbrev pub field {ℓ} : {A : Type ℓ} → String → (A → Value) → Option A → Fields → Fields
field k f none fs = fs
field k f (some a) fs = entry k (f a) fs

abbrev pub server_value : ServerInfo → Value
server_value s = obj (
    entry "server" (text (codes s.server)) (
      entry "name" (text (codes s.name)) (
        field "tag" (λ t. text (codes t)) s.tag
          (entry "status" (text (codes s.status)) (
            field "open_time" (λ t. number (pos t)) s.open_time
              (entry "recommended" (boolean s.recommended) no_fields))))))

abbrev pub gate_value : GateInfo → Value
gate_value g = obj (
    entry "node" (text (codes g.node)) (
      entry "tcp_addr" (text (codes g.tcp_addr)) (
        field "ws_url" (λ u. text (codes u)) g.ws_url
          (entry "weight" (number (pos g.weight)) no_fields))))

unfoldable pub items {ℓ} : {A : Type ℓ} → (A → Value) → List A → Items
items f [] = no_items
items f (x ∷ xs) = item (f x) (items f xs)

-- The service encodes an empty list as `{}`.
abbrev pub list_value {ℓ} : {A : Type ℓ} → (A → Value) → List A → Value
list_value f [] = obj no_fields
list_value f (x ∷ xs) = arr (items f (x ∷ xs))

-- A response with a code and what else it has.
abbrev pub response_value {ℓ} : {A : Type ℓ} → ℕ → String → (A → Value) → Option A → Value
response_value code k f a = obj (entry "code" (number (pos code)) (field k f a no_fields))

-- The list of a response that did not fail, null for any other.
abbrev pub answered {ℓ} : {A : Type ℓ} → ℕ → (A → Value) → Option (List A) → Option Items
answered code f none = none
answered code f (some xs) = if code == ErrCode.ok then some (items f xs) else none

as_array-list_value {ℓ} :
    {A : Type ℓ} (f : A → Value) (xs : List A) → as_array (list_value f xs) ≡ some (items f xs)
unfolding as_array items
as_array-list_value f [] = refl
as_array-list_value f (x ∷ xs) = refl

module _ (fetch : List HttpRequest → HttpRequest → Fetched) (parse_json : Text → Option Value)
    (encode_uri : Text → Text) where
  list_of-answered {ℓ} :
      {A : Type ℓ} (k : String) (code : ℕ) (f : A → Value) (xs : Option (List A))
      → str_eq "code" k ≡ false
      → str_eq k k ≡ true
      → list_of fetch parse_json encode_uri k (some (response_value code k (list_value f) xs))
        ≡ answered code f xs
  unfolding is_failure get prop as_array
  list_of-answered k code f none other same = rw other (ground arith)
  list_of-answered k code f (some xs) other same = elim (Bool-cases (code == ErrCode.ok)) [
    | inl ok ↦ rw (ok, other, same) (as_array-list_value f xs)
    | inr failed ↦ rw failed
  ]

  pub gates-answered :
      (a b : Account) (g : GatesResponse)
      → request fetch parse_json encode_uri "GET" (codes "/gates") none none a
        ≡ (b, some (response_value g.code "gates" (list_value gate_value) g.gates))
      → gates fetch parse_json encode_uri a ≡ (b, answered g.code gate_value g.gates)
  unfolding gates
  gates-answered a b g h =
      rw h (ap (λ x. (b, x)) (list_of-answered "gates" g.code gate_value g.gates refl refl))

  roles-answered :
      (token : Text) (server : Option Text) (a b : Account) (r : RolesResponse)
      → request fetch parse_json encode_uri "GET" (roles_path encode_uri server) (some token) none a
        ≡ (b, some (response_value r.code "roles" (list_value role_value) r.roles))
      → roles fetch parse_json encode_uri token server a ≡ (b, answered r.code role_value r.roles)
  unfolding roles
  roles-answered token server a b r h =
      rw h (ap (λ x. (b, x)) (list_of-answered "roles" r.code role_value r.roles refl refl))

  -- The three lists, where the request gets a response of the service: its list if the code is OK,
  -- an empty one too, and null for any other code and for a response without the list.
  pub lists-response :
      (token : Text) (server : Option Text) (a b c d : Account) (s : ServersResponse)
      (r : RolesResponse) (g : GatesResponse)
      → request fetch parse_json encode_uri "GET" (codes "/servers") none none a
        ≡ (b, some (response_value s.code "servers" (list_value server_value) s.servers))
      → request fetch parse_json encode_uri "GET" (roles_path encode_uri server) (some token) none a
        ≡ (c, some (response_value r.code "roles" (list_value role_value) r.roles))
      → request fetch parse_json encode_uri "GET" (codes "/gates") none none a
        ≡ (d, some (response_value g.code "gates" (list_value gate_value) g.gates))
      → (servers fetch parse_json encode_uri a ≡ (b, answered s.code server_value s.servers))
        × (roles fetch parse_json encode_uri token server a
            ≡ (c, answered r.code role_value r.roles))
        × (gates fetch parse_json encode_uri a ≡ (d, answered g.code gate_value g.gates))
  unfolding servers
  lists-response token server a b c d s r g hs hr hg = (
    rw hs (ap (λ x. (b, x)) (list_of-answered "servers" s.code server_value s.servers refl refl)),
    roles-answered token server a c r hr,
    gates-answered a d g hg,
  )

  -- A value of a response whose code is OK.
  abbrev pub answered_value {ℓ} : {A : Type ℓ} → ℕ → (A → Value) → Option A → Option Value
  answered_value code f none = none
  answered_value code f (some x) = if code == ErrCode.ok then some (f x) else none

  -- What `ensure_role` returns, from its two responses, and the client that it leaves: `b` has asked for
  -- the roles, and `c` for a new one after that.
  abbrev pub of_roles :
      Option (List RoleInfo) → CreateRoleResponse → Account → Account → Account × Option Value
  of_roles none m b c = (b, none)
  of_roles (some []) m b c = (c, answered_value m.code role_value m.role)
  of_roles (some (x ∷ xs)) m b c = (b, some (role_value x))

  abbrev pub ensured :
      RolesResponse → CreateRoleResponse → Account → Account → Account × Option Value
  ensured r m b c = if r.code == ErrCode.ok then of_roles r.roles m b c else (b, none)

  -- A response's value, as `create_role` and `dev_login` read it.
  abbrev value_of : String → Option Value → Option Value
  value_of k res =
      if is_failure res || not (is_truthy (response_field k res))
      then none
      else some (response_field k res)

  value_of-answered {ℓ} :
      {A : Type ℓ} (k : String) (code : ℕ) (f : A → Value) (x : Option A)
      → str_eq "code" k ≡ false
      → str_eq k k ≡ true
      → ((a : A) → is_truthy (f a) ≡ true)
      → value_of k (some (response_value code k f x)) ≡ answered_value code f x
  unfolding is_failure get prop
  value_of-answered k code f none other same real = rw other (ground arith)
  value_of-answered k code f (some x) other same real = elim (Bool-cases (code == ErrCode.ok)) [
    | inl ok ↦ rw (ok, other, same, real x)
    | inr failed ↦ rw failed
  ]

  create_role-answered :
      (token server name : Text) (a b : Account) (m : CreateRoleResponse)
      → request fetch parse_json encode_uri "POST"
          (codes "/create_role")
          (some token)
          (some (entry "server" (text server) (entry "name" (text name) no_fields)))
          a
        ≡ (b, some (response_value m.code "role" role_value m.role))
      → create_role fetch parse_json encode_uri token server name a
        ≡ (b, answered_value m.code role_value m.role)
  unfolding create_role
  create_role-answered token server name a b m h =
      rw h
        (ap (λ x. (b, x)) (value_of-answered "role" m.code role_value m.role refl refl (λ r. refl)))

  ensure_role_of-answered :
      (token name server : Text) (b c : Account) (code : ℕ) (rs : Option (List RoleInfo))
      (m : CreateRoleResponse)
      → create_role fetch parse_json encode_uri token server name b
        ≡ (c, answered_value m.code role_value m.role)
      → (ensure_role_of fetch parse_json encode_uri token name server
          (answered code role_value rs)
          b)
        ≡ (if code == ErrCode.ok then of_roles rs m b c else (b, none))
  unfolding ensure_role_of items
  ensure_role_of-answered token name server b c code none m made = ground arith
  ensure_role_of-answered token name server b c code (some []) m made =
      elim (Bool-cases (code == ErrCode.ok)) [ inl ok ↦ rw ok made | inr failed ↦ rw failed ]
  ensure_role_of-answered token name server b c code (some (x ∷ xs)) m made = ground arith

  -- Where both of its requests get a response of the service, `ensure_role` returns the first role, or
  -- the new role if there is none, and null if the code of a response that it needs is not OK or the
  -- list or the role is missing; it asks for a new role only if the list is there and empty.
  pub ensure_role-response :
      (token name server : Text) (a b c : Account) (r : RolesResponse) (m : CreateRoleResponse)
      → request fetch parse_json encode_uri "GET" (roles_path encode_uri none) (some token) none a
        ≡ (b, some (response_value r.code "roles" (list_value role_value) r.roles))
      → request fetch parse_json encode_uri "POST"
          (codes "/create_role")
          (some token)
          (some (entry "server" (text server) (entry "name" (text name) no_fields)))
          b
        ≡ (c, some (response_value m.code "role" role_value m.role))
      → ensure_role fetch parse_json encode_uri token name server a ≡ ensured r m b c
  unfolding ensure_role
  ensure_role-response token name server a b c r m hr hm =
      ap (λ w. ensure_role_of fetch parse_json encode_uri token name server w.1 w.0)
        (roles-answered token none a b r hr)
      ∙ (ensure_role_of-answered token name server b c r.code r.roles m
          (create_role-answered token server name b c m hm))
