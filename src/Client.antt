-- ===== src/Client.antt =====
-- sdk/ts/src/client.ts: the facade over the account client, the codec and the session. Of the account
-- it uses the answers of `gates`, of the codec the checksum; its session is the system of session.ts.
pub mod Gateways
pub mod Lifecycle
pub mod Opening
pub mod Entering
use skyext.Account.{Account, Fetch, Text, create as create_account}
use skyext.Prelude.{Bool, true, false, Option, none, some, List, [], ◌∷◌, if◌then◌else◌, String, ℕ}
use skyext.Session.System.{call_request, call_reconnect, call_close, start, start_system, step}
use skyext.Session.Tasks.{System}
use skyext.Session.State.{Options, Settings, settings}
use skyext.Session.{get_online, get_nonce, get_recv}
use skyext.Value.{
  Value, null, number, pos, text, Items, no_items, item, Fields, no_fields, entry, prop, is_truthy,
  is_nullish,
}

-- `SkyextClientOptions`, as far as it is data.
pub record ClientOptions : Type 0 where
  pub account_hosts : List Text
  pub fetch_impl : Option Fetch
  pub session : Options

pub record EnterGameOptions : Type 0 where
  pub rid : Value
  pub server : Value

-- `checksum` is that of the codec; `cached` belongs to `enterGame`'s closure. A session that was
-- closed is forgotten.
pub record Client : Type 0 where
  pub account : Account
  pub checksum : List ℕ
  pub options : ClientOptions
  pub session : Option System
  pub login_rid : Value
  pub login_server : Value
  pub cached : List Value

-- The constructor, with the account client and the checksum of the codec (`none`: `loadCodec` throws).
unfoldable pub create_with : ClientOptions → Option Account → Option (List ℕ) → Option Client
create_with o none codec = none
create_with o (some account) none = none
create_with o (some account) (some checksum) = some (record {
  account = account;
  checksum = checksum;
  options = o;
  session = none;
  login_rid = number (pos 0);
  login_server = text [];
  cached = [];
})

unfoldable pub create : ClientOptions → ℕ → Option (List ℕ) → Option Client
unfolding create_with create_account
create o random codec =
    create_with o
      (create_account (record { hosts = o.account_hosts; fetch_impl = o.fetch_impl }) random) codec

-- `.filter((g) => g.ws_url)` and `.map(...)` for one gateway.
abbrev pub keep_url : Value → List Value → List Value
keep_url url urls = if is_truthy url then url ∷ urls else urls

abbrev pub fresh_item : Value → Option (List Value) → Option (List Value)
fresh_item g none = none
fresh_item g (some urls) = if is_nullish g then none else some (keep_url (prop "ws_url" g) urls)

-- The addresses of the gateways; `none` is the exception of a field of null.
unfoldable pub fresh_urls : Items → Option (List Value)
fresh_urls no_items = some []
fresh_urls (item g gs) = fresh_item g (fresh_urls gs)

-- `gates ?? []`
abbrev pub gate_list : Option Items → Items
gate_list none = no_items
gate_list (some gs) = gs

-- The end of `resolveEndpoints`: the result (`none`: it throws), and the cache.
unfoldable pub choose : Option (List Value) → List Value → Option (List Value) × List Value
choose none cached = (none, cached)
choose (some (u ∷ us)) cached = (some (u ∷ us), u ∷ us)
choose (some []) [] = (none, [])
choose (some []) (u ∷ us) = (some (u ∷ us), u ∷ us)

-- `resolveEndpoints`, at what `gates` returned.
unfoldable pub resolve_endpoints : Option Items → List Value → Option (List Value) × List Value
unfolding choose fresh_urls
resolve_endpoints gates cached = choose (fresh_urls (gate_list gates)) cached

-- `loginParam`, at the provider's token; `none` is its exception.
unfoldable pub login_param : Client → Option Value → Option Fields
login_param c none = none
login_param c (some token) = some (
    entry "token" token (
      entry "rid" c.login_rid
        (entry "proto_checksum" (text c.checksum) (entry "server" c.login_server no_fields))))

-- `enterGame`, up to the first wait of `start`; `none` is its exception.
abbrev pub enter_on : Option System → EnterGameOptions → Client → Option Client
enter_on (some y) o c = none
enter_on none o c = some (record c {
  login_rid = o.rid;
  login_server = o.server;
  cached = [];
  session = some (start start_system);
})

unfoldable pub enter_game : EnterGameOptions → Client → Option Client
enter_game o c = enter_on c.session o c

unfoldable pub is_online : Client → Bool
is_online c = elim c.session [ none ↦ false | some y ↦ get_online y.session ]

unfoldable pub nonce : Client → Value
nonce c = elim c.session [ none ↦ null | some y ↦ get_nonce y.session ]

unfoldable pub recv : Client → ℕ
recv c = elim c.session [ none ↦ 0 | some y ↦ get_recv y.session ]

module _ (pack : String → Option Fields → ℕ → Option (List ℕ)) where
  -- What the calls do to the session; a request without one resolves to null at once.
  unfoldable pub request : String → Option Fields → Client → Client
  request name param c = elim c.session [
    | none ↦ c
    | some y ↦ record c {
      session = some (step pack (settings c.options.session) (call_request name param none) y);
    }
  ]

  unfoldable pub reconnect : Client → Client
  reconnect c = elim c.session [
    | none ↦ c
    | some y ↦ record c { session = some (step pack (settings c.options.session) call_reconnect y) }
  ]

-- `close`: the client, and the session that it closed.
unfoldable pub close :
    (String → Option Fields → ℕ → Option (List ℕ)) → Client → Client × Option System
close pack c = (
  record c { session = none },
  elim c.session [
    | none ↦ none
    | some y ↦ some (step pack (settings c.options.session) call_close y)
  ],
)
