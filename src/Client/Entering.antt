-- ===== src/Client/Entering.antt =====
-- sdk/ts/src/client.ts: `enterGame`, from the gateways of the account to the session that is online.
use skyext.Account.{Account, Text, HttpRequest, Fetched, request as account_request, gates}
use skyext.Account.Responses.{response_value, list_value, gate_value, items, gates-answered}
use skyext.Client.Opening.{opening, opening_lem, handshake}
use skyext.Client.{
  Client, EnterGameOptions, enter_game, login_param, resolve_endpoints, choose, fresh_urls,
  fresh_item, keep_url, is_online, nonce, recv,
}
use skyext.ErrCode
use skyext.Prelude.{
  ℕ, suc, ◌≤◌, ◌≡◌, refl, subst, ap, ◌∙◌, String, true, Option, none, some, List, [], ◌∷◌, ◌++◌,
  arith, length, take, map, codes, Option-cases, inl, inr,
}
use skyext.Session.System.{run_all, start, start_system}
use skyext.Session.Tasks.{finished, supervisor_sleep, heartbeat_sleep}
use skyext.Session.State.{settings, dial}
use skyext.Session.{is_ok, get_online, get_nonce, get_recv}
use skyext.Value.{Value, Items, Fields, no_fields, entry, text, get, prop, or_null, GateInfo}

-- The specification: the addresses of the gateways that have one.
abbrev pub add_url : Text → String → List String → List String
add_url [] u urls = urls
add_url (x ∷ xs) u urls = u ∷ urls

abbrev pub add_gate : Option String → List String → List String
add_gate none urls = urls
add_gate (some u) urls = add_url (codes u) u urls

unfoldable pub ws_urls : List GateInfo → List String
ws_urls [] = []
ws_urls (g ∷ gs) = add_gate g.ws_url (ws_urls gs)

abbrev pub url_value : String → Value
url_value u = text (codes u)

keep_url-add_url :
    (t : Text) (u : String) (urls : List String)
    → t ≡ codes u
    → keep_url (text t) (map url_value urls) ≡ map url_value (add_url t u urls)
keep_url-add_url [] u urls e = refl
keep_url-add_url (x ∷ xs) u urls e = ap (λ t. text t ∷ map url_value urls) e

keep_url-add_gate :
    (g : GateInfo) (urls : List String)
    → keep_url (prop "ws_url" (gate_value g)) (map url_value urls)
      ≡ map url_value (add_gate g.ws_url urls)
unfolding prop get
keep_url-add_gate g urls = elim (Option-cases g.ws_url) [
  | inl missing ↦ rw missing refl
  | inr (u, there) ↦ rw there (keep_url-add_url (codes u) u urls refl)
]

fresh_urls-items :
    (gs : List GateInfo) → fresh_urls (items gate_value gs) ≡ some (map url_value (ws_urls gs))
unfolding fresh_urls items ws_urls
fresh_urls-items [] = refl
fresh_urls-items (g ∷ gs) =
    ap (fresh_item (gate_value g)) (fresh_urls-items gs)
    ∙ ap some (keep_url-add_gate g (ws_urls gs))

-- What a login says of the client.
abbrev pub credentials : EnterGameOptions → Client → Value → Fields
credentials o client token = entry "token" token (
    entry "rid" o.rid
      (entry "proto_checksum" (text client.checksum) (entry "server" o.server no_fields)))

abbrev pub in_lobby : EnterGameOptions → Client → Client
in_lobby o client = record client {
  login_rid = o.rid;
  login_server = o.server;
  cached = [];
  session = some (start start_system);
}

pub enter_game_lem :
    (o : EnterGameOptions) (client d : Client)
    → enter_game o client ≡ some d
    → in_lobby o client ≡ d
unfolding enter_game
enter_game_lem o client d h = ground arith

-- The first cycle of the endpoints.
resolve_endpoints_first :
    (gs : List GateInfo) (first : String) (others : List String)
    → ws_urls gs ≡ first ∷ others
    → (resolve_endpoints (some (items gate_value gs)) []).0 ≡ some (map url_value (first ∷ others))
unfolding resolve_endpoints choose
resolve_endpoints_first gs first others e =
    ap (λ f. (choose f []).0) (fresh_urls-items gs ∙ ap (λ us. some (map url_value us)) e)

module _ (fetch : List HttpRequest → HttpRequest → Fetched) (parse_json : Text → Option Value)
    (encode_uri : Text → Text) (pack : String → Option Fields → ℕ → Option (List ℕ)) where
  -- The session of `d` after it was opened, with `n` addresses that could not be reached.
  abbrev pub Entered : Client → ℕ → ℕ → List String → Value → Fields → Fields → List ℕ → Type 0
  Entered d n c urls token param resp bytes =
      let s = settings d.options.session in
      let y = run_all pack s (opening n urls c param resp) (start start_system) in
      let e : Client = record d { session = some y } in
      ((resolve_endpoints (gates fetch parse_json encode_uri d.account).1 d.cached).0
        ≡ some (map url_value urls))
      × (login_param d (some token) ≡ some param)
      × (d.session ≡ some (start start_system))
      × (y.trace ≡ map dial (take (suc n) urls) ++ handshake pack s c bytes resp)
      × (y.tasks ≡ finished ∷ supervisor_sleep 0 ∷ heartbeat_sleep 0 1 ∷ [])
      × (is_online e ≡ true)
      × (nonce e ≡ or_null (get "nonce" resp))
      × (recv e ≡ 0)

  -- Entering with no session open, where the account answers with gateways: the session is given the
  -- addresses of those that have one, in their order, and the login says the token, the role, its server
  -- and the codec's checksum. Where the first `n` of the addresses cannot be reached and the next one is,
  -- and the server accepts the login, the client dials these `n + 1` alone, sends the login alone, is
  -- online with the server's nonce and a count of zero, and has one supervisor and one heartbeat.
  pub enters :
      (o : EnterGameOptions) (client d : Client) (b : Account) (gs : List GateInfo) (n c : ℕ)
      (first : String) (others : List String) (token : Value) (resp : Fields) (bytes : List ℕ)
      → enter_game o client ≡ some d
      → account_request fetch parse_json encode_uri "GET" (codes "/gates") none none client.account
        ≡ (b, some (response_value ErrCode.ok "gates" (list_value gate_value) (some gs)))
      → ws_urls gs ≡ first ∷ others
      → n ≤ length others
      → pack "login.login" (some (credentials o client token)) 1 ≡ some bytes
      → is_ok resp ≡ true
      → Entered d n c (first ∷ others) token (credentials o client token) resp bytes
  unfolding login_param is_online nonce recv start get_online get_nonce get_recv
  enters o client d b gs n c first others token resp bytes h got e few packed ok =
      let s = settings client.options.session in
      let param = credentials o client token in
      let run_ = opening_lem pack s n c first others param resp bytes few packed ok in
      let found =
        gates-answered fetch parse_json encode_uri client.account b
          (record { code = ErrCode.ok; gates = some gs }) got in
      subst (λ d. Entered d n c (first ∷ others) token param resp bytes)
        (enter_game_lem o client d h)
        (
          ap (λ (w : Account × Option Items). (resolve_endpoints w.1 []).0) found
              ∙ resolve_endpoints_first gs first others e,
          refl,
          refl,
          ap (λ z. z.trace) run_,
          ap (λ z. z.tasks) run_,
          ap (λ z. get_online z.session) run_,
          ap (λ z. get_nonce z.session) run_,
          ap (λ z. get_recv z.session) run_,
        )
