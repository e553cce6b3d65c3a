-- ===== src/Tests/Account.antt =====
-- sdk/ts/src/account.ts: requests over two hosts of which the first one that is asked fails.
use skyext.Account.Answers.{roles-headers}
use skyext.Account.Rotation.{ask, request-ask}
use skyext.Account.Unreachable.{asked_all, unreachable}
use skyext.Account.Responses.{
  ServersResponse, RolesResponse, CreateRoleResponse, GatesResponse, response_value, list_value,
  server_value, role_value, gate_value, items, lists-response, ensure_role-response,
}
use skyext.Account.{
  dev_login, servers, create_role, gates, pick_recommended_server, Account, Text, HttpRequest,
  Fetched, failed, responded, build, usable, request, roles, roles_path, ensure_role, pick,
}
use skyext.Prelude.{
  String, false, ◌==◌, if◌then◌else◌, ℕ, ◌<◌, ◌≡◌, ◌++◌, refl, arith, true, codes, Option, none,
  some, List, [], ◌∷◌, All, get_or,
}
use skyext.Value.{
  null, ServerInfo, RoleInfo, Value, boolean, number, pos, text, obj, arr, no_items, item, Fields,
  no_fields, entry, get, prop,
}

-- The first request fails, the second one is answered.
abbrev fetch : List HttpRequest → HttpRequest → Fetched
fetch [] r = failed
fetch (_ ∷ _) r = responded 200 (some [])

abbrev role : Value
role = obj (entry "rid" (number (pos 7)) no_fields)

abbrev answer : Value
answer = obj (entry "code" (number (pos 0)) (entry "roles" (arr (item role no_items)) no_fields))

abbrev parse_json : Text → Option Value
parse_json t = some answer

abbrev encode_uri : Text → Text
encode_uri t = t

abbrev two_hosts : Account
two_hosts = record { hosts = (10 ∷ []) ∷ (20 ∷ []) ∷ []; cursor = 1; history = [] }

abbrev asked_of : ℕ → HttpRequest
asked_of host = build "GET" (codes "/servers") none none (host ∷ [])

request-ask_example :
    (request fetch parse_json encode_uri "GET" (codes "/servers") none none two_hosts
      ≡ (record two_hosts { cursor = 0; history = asked_of 10 ∷ asked_of 20 ∷ [] }, some answer))
    × (0 < 2)
unfolding ask usable
request-ask_example =
    request-ask fetch parse_json encode_uri "GET" (codes "/servers") none none two_hosts
      (omega arith)

roles-headers_example :
    All
      (λ r.
        (i : ℕ) × (i < 2)
        × (r.url ≡ get_or two_hosts.hosts i [] ++ roles_path encode_uri none)
        × (r.headers ≡ ("authorization", codes "Bearer " ++ 3 ∷ []) ∷ [])
        × (r.body ≡ none))
      ((roles fetch parse_json encode_uri (3 ∷ []) none two_hosts).0).history
roles-headers_example =
    roles-headers fetch parse_json encode_uri (3 ∷ []) none two_hosts (omega arith) refl (λ e. cc)

abbrev full : Value
full = obj (entry "server" (text (1 ∷ [])) (entry "recommended" (boolean true) no_fields))

abbrev fresh : Value
fresh = obj (entry "server" (text (2 ∷ [])) no_fields)

picked :
    (pick (item fresh (item full (item fresh no_items))) ≡ some (text (1 ∷ [])))
    × (pick (item fresh no_items) ≡ some (text (2 ∷ [])))
unfolding pick get prop
picked = (refl, refl)

-- Every host refuses.
abbrev refuse : List HttpRequest → HttpRequest → Fetched
refuse history r = responded 500 (some [])

abbrev after_all : String → String → Option Text → Option Fields → Account
after_all method path token body = record two_hosts {
  cursor = 0;
  history =
      build method (codes path) token body (get_or two_hosts.hosts 0 [])
      ∷ build method (codes path) token body (get_or two_hosts.hosts 1 [])
      ∷ [];
}

unreachable_example :
    (dev_login refuse parse_json encode_uri (4 ∷ []) two_hosts ≡ (
      after_all "POST" "/dev_login" none (some (entry "account" (text (4 ∷ [])) no_fields)),
      none,
    ))
    × (servers refuse parse_json encode_uri two_hosts
        ≡ (after_all "GET" "/servers" none none, none))
    × (pick_recommended_server refuse parse_json encode_uri two_hosts
        ≡ (after_all "GET" "/servers" none none, some null))
    × (roles refuse parse_json encode_uri (3 ∷ []) none two_hosts
        ≡ (after_all "GET" "/roles" (some (3 ∷ [])) none, none))
    × (create_role refuse parse_json encode_uri (3 ∷ []) (6 ∷ []) (5 ∷ []) two_hosts ≡ (
      after_all "POST" "/create_role"
          (some (3 ∷ []))
          (some (entry "server" (text (6 ∷ [])) (entry "name" (text (5 ∷ [])) no_fields))),
      none,
    ))
    × (ensure_role refuse parse_json encode_uri (3 ∷ []) (5 ∷ []) (6 ∷ []) two_hosts
        ≡ (after_all "GET" "/roles" (some (3 ∷ [])) none, none))
    × (gates refuse parse_json encode_uri two_hosts ≡ (after_all "GET" "/gates" none none, none))
unfolding usable roles_path asked_all
unreachable_example =
    unreachable refuse parse_json encode_uri (λ history r. refl) (4 ∷ []) (3 ∷ []) (5 ∷ []) (6 ∷ [])
      none two_hosts (omega arith)

-- A service with a server, no role yet, and a failing list of gateways. It knows what it is asked by
-- the body or the path's second character.
abbrev only_server : ServerInfo
only_server = record {
  server = "s1";
  name = "one";
  tag = none;
  status = "full";
  open_time = none;
  recommended = false;
}

abbrev new_role : RoleInfo
new_role = record { rid = pos 70067467908940524; server = "s1"; name = "hero" }

abbrev servers_response : ServersResponse
servers_response = record { code = 0; servers = some (only_server ∷ []) }

abbrev roles_response : RolesResponse
roles_response = record { code = 0; roles = some [] }

abbrev create_role_response : CreateRoleResponse
create_role_response = record { code = 0; role = some new_role }

abbrev gates_response : GatesResponse
gates_response = record { code = 3; gates = none }

-- The answer is the second character of the path.
abbrev path_letter : HttpRequest → Option Text
path_letter r = some (get_or r.url 2 0 ∷ [])

abbrev service : List HttpRequest → HttpRequest → Fetched
service history r = responded 200 (path_letter r)

abbrev response_for : ℕ → Value
response_for c =
    if c == 115
    then response_value servers_response.code "servers" (list_value server_value)
        servers_response.servers
    else if c == 114
    then response_value roles_response.code "roles" (list_value role_value) roles_response.roles
    else if c == 99
    then response_value create_role_response.code "role" role_value create_role_response.role
    else response_value gates_response.code "gates" (list_value gate_value) gates_response.gates

abbrev read_letter : Text → Option Value
read_letter t = some (response_for (get_or t 0 0))

abbrev one_host : Account
one_host = record { hosts = (10 ∷ []) ∷ []; cursor = 0; history = [] }

abbrev after_get : String → Option Text → Account
after_get path token = record one_host {
  history = build "GET" (codes path) token none (10 ∷ []) ∷ [];
}

lists-response_example :
    (servers service read_letter encode_uri one_host
      ≡ (after_get "/servers" none, some (item (server_value only_server) no_items)))
    × (roles service read_letter encode_uri (3 ∷ []) none one_host
        ≡ (after_get "/roles" (some (3 ∷ [])), some no_items))
    × (gates service read_letter encode_uri one_host ≡ (after_get "/gates" none, none))
unfolding request usable items roles_path
lists-response_example =
    lists-response service read_letter encode_uri (3 ∷ []) none one_host (after_get "/servers" none)
      (after_get "/roles" (some (3 ∷ []))) (after_get "/gates" none) servers_response roles_response
      gates_response refl refl refl

-- The client after both requests.
abbrev after_create : Account
after_create =
    (request service read_letter encode_uri "POST" (codes "/create_role") (some (3 ∷ []))
      (some (entry "server" (text (codes "s1")) (entry "name" (text (codes "hero")) no_fields)))
      (after_get "/roles" (some (3 ∷ [])))).0

ensure_role-response_example :
    ensure_role service read_letter encode_uri (3 ∷ []) (codes "hero") (codes "s1") one_host
    ≡ (after_create, some (role_value new_role))
unfolding request usable items roles_path
ensure_role-response_example =
    ensure_role-response service read_letter encode_uri (3 ∷ []) (codes "hero") (codes "s1")
      one_host (after_get "/roles" (some (3 ∷ []))) after_create roles_response create_role_response
      refl refl
