-- ===== src/Tests/Entering.antt =====
-- sdk/ts/src/client.ts: a client enters the game over the second of two gateways.
use skyext.Account.Responses.{response_value, list_value, gate_value, items}
use skyext.Account.{Text, HttpRequest, Fetched, responded, request, usable}
use skyext.Client.Entering.{Entered, enters, ws_urls, credentials, in_lobby}
use skyext.Client.{Client, EnterGameOptions, enter_game}
use skyext.Prelude.{ℕ, refl, arith, String, Option, none, some, List, [], ◌∷◌}
use skyext.Value.{Value, number, bytes, pos, text, Fields, no_fields, entry, get, GateInfo}

abbrev gate : Option String → GateInfo
gate url = record { node = "g"; tcp_addr = "a:1"; ws_url = url; weight = 1 }

-- One gateway has no WebSocket address, one an empty address.
abbrev gate_infos : List GateInfo
gate_infos = gate none ∷ gate (some "ws://a") ∷ gate (some "") ∷ gate (some "ws://b") ∷ []

abbrev fetch : List HttpRequest → HttpRequest → Fetched
fetch history r = responded 200 (some [])

abbrev parse_json : Text → Option Value
parse_json t = some (response_value 0 "gates" (list_value gate_value) (some gate_infos))

abbrev encode_uri : Text → Text
encode_uri t = t

abbrev pack : String → Option Fields → ℕ → Option (List ℕ)
pack name param req = some (req ∷ [])

abbrev lobby : Client
lobby = record {
  account = record { hosts = (10 ∷ []) ∷ []; cursor = 0; history = [] };
  checksum = 77 ∷ [];
  options = record {
    account_hosts = (10 ∷ []) ∷ [];
    fetch_impl = none;
    session = record {
      ping_interval_ms = none;
      ping_tolerance = none;
      reconnect_delay_ms = none;
      handshake_timeout_ms = none;
    };
  };
  session = none;
  login_rid = number (pos 0);
  login_server = text [];
  cached = [];
}

abbrev hero : EnterGameOptions
hero = record { rid = number (pos 7); server = text (1 ∷ []) }

abbrev token : Value
token = text (3 ∷ [])

abbrev login_resp : Fields
login_resp =
    entry "code" (number (pos 0))
      (entry "rid" (number (pos 7)) (entry "nonce" (bytes (5 ∷ [])) no_fields))

enters_example :
    Entered fetch parse_json encode_uri pack
      (in_lobby hero lobby)
      1
      5
      ("ws://a" ∷ "ws://b" ∷ [])
      token
      (credentials hero lobby token)
      login_resp
      (1 ∷ [])
unfolding enter_game request usable items ws_urls get
enters_example =
    enters fetch parse_json encode_uri pack hero lobby (in_lobby hero lobby) _ gate_infos 1 5
      "ws://a" ("ws://b" ∷ []) token login_resp (1 ∷ []) refl refl refl (omega arith) refl refl
