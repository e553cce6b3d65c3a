-- ===== src/Tests/Client.antt =====
-- sdk/ts/src/client.ts: entering and leaving, and the gateways over four cycles.
use skyext.Client.Gateways.{Serves, cache_after, last_known, resolve_endpoints-last_known}
use skyext.Client.Entering.{in_lobby}
use skyext.Client.Lifecycle.{requested, reconnected, happened, Use, use_all, enter_game-close}
use skyext.Client.{
  Client, ClientOptions, EnterGameOptions, create, enter_game, is_online, nonce, recv, request,
  close, resolve_endpoints, fresh_urls,
}
use skyext.Prelude.{ℕ, ◌≡◌, refl, String, false, Option, none, some, List, [], ◌∷◌}
use skyext.Session.System.{run}
use skyext.Session.Tasks.{endpoints}
use skyext.Value.{
  Value, null, number, pos, text, obj, no_items, item, Fields, no_fields, entry, prop, get,
}

abbrev pack : String → Option Fields → ℕ → Option (List ℕ)
pack name param req = some (req ∷ [])

abbrev game : ClientOptions
game = record {
  account_hosts = (10 ∷ []) ∷ [];
  fetch_impl = none;
  session = record {
    ping_interval_ms = none;
    ping_tolerance = none;
    reconnect_delay_ms = none;
    handshake_timeout_ms = none;
  };
}

abbrev lobby : Client
lobby = record {
  account = record { hosts = (10 ∷ []) ∷ []; cursor = 0; history = [] };
  checksum = 77 ∷ [];
  options = game;
  session = none;
  login_rid = number (pos 0);
  login_server = text [];
  cached = [];
}

created : create game 0 (some (77 ∷ [])) ≡ some lobby
unfolding create
created = refl

abbrev hero : EnterGameOptions
hero = record { rid = number (pos 7); server = text (1 ∷ []) }

abbrev other : EnterGameOptions
other = record { rid = number (pos 8); server = text (1 ∷ []) }

abbrev entered : Option Client
entered = enter_game hero lobby

abbrev in_game : Client → Option Client → Client
in_game c none = c
in_game c (some d) = d

-- A request, the gateways, and a reconnect.
abbrev played : List Use
played =
    requested "mail.list" none
    ∷ happened (run 0 (endpoints (some ("ws://a" ∷ []))))
    ∷ reconnected
    ∷ []

enter_game-close_example :
    let e = use_all pack played (in_game lobby entered) in
    let f = (close pack e).0 in
    (enter_game other e ≡ none)
    × (is_online f ≡ false)
    × (nonce f ≡ null)
    × (recv f ≡ 0)
    × (request pack "mail.list" none f ≡ f)
    × (enter_game other f ≡ some (in_lobby other f))
unfolding enter_game
enter_game-close_example =
    enter_game-close pack hero other played "mail.list" none lobby (in_game lobby entered) refl

abbrev gate : ℕ → Value
gate n = obj (entry "ws_url" (text (n ∷ [])) no_fields)

-- A gateway without a WebSocket address.
abbrev tcp_gate : Value
tcp_gate = obj (entry "node" (text (1 ∷ [])) no_fields)

-- The account answers with gateways, fails, and answers with gateways of no use: the first answer's
-- addresses are given again.
resolve_endpoints-last_known_example :
    Serves
      (resolve_endpoints none (
        cache_after
          (some (item (gate 5) (item tcp_gate (item (gate 6) no_items)))
            ∷ none
            ∷ some (item tcp_gate no_items)
            ∷ [])
          [])).0
      (text (5 ∷ []) ∷ text (6 ∷ []) ∷ [])
unfolding fresh_urls last_known prop get
resolve_endpoints-last_known_example =
    resolve_endpoints-last_known
      (some (item (gate 5) (item tcp_gate (item (gate 6) no_items)))
        ∷ none
        ∷ some (item tcp_gate no_items)
        ∷ [])
      none [] refl
