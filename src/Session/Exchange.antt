-- ===== src/Session/Exchange.antt =====
-- sdk/ts/src/session.ts and codec.ts: a request of the session that goes through the codec of both
-- ends. The peer's end is the same codec, as the mock server of the tests has it.
use skyext.Bytes.{IsByte, to_bytes-from_bytes, to_number_array, from_number_array}
use skyext.Codec.Dispatch.{HostResult, map_fields, respond_with, pack, dispatch, convert}
use skyext.Codec.Values.{plain_fields, FieldTexts, Kept, decode_fields-encode_fields}
use skyext.Codec.{CodecResult, request, response, encode_fields, decode_fields}
use skyext.Prelude.{
  ℕ, ◌+◌, ◌<◌, ◌≡◌, refl, ap, String, true, false, Option, none, some, List, [], ◌∷◌, All, arith,
  if◌then◌else◌, ◌==◌,
}
use skyext.Session.Liveness.Recovery.{next_id_unused}
use skyext.Session.Liveness.{lookup-insert, erase-insert}
use skyext.Session.System.{Event, start_system, run_all}
use skyext.Session.State.{Settings, Pending, transmit, resolve}
use skyext.Session.{uncounted, timeout_timer, send, handle_response, issue, on_message}
use skyext.Value.{pos, number, Fields}

-- What the library documents of two hosts of one schema: the client's, with states `H`, and the
-- peer's, with states `G`. `Request` and `Response` are the fields that the schema allows, and a state
-- `Expects` the response to a request that it packed.
pub record Hosts (H G : Type 0) : Type 1 where
  pub pack_fn : String → Option Fields → Option ℕ → H → Option (List ℕ) × H
  pub client_dispatch : List ℕ → H → Option HostResult × H
  pub peer_dispatch : List ℕ → G → Option HostResult × G
  pub Request : String → Option Fields → Type 0
  pub Response : String → Fields → Type 0
  pub Expects : String → ℕ → H → Type 0
  pub request_bytes : String → Option Fields → ℕ → List ℕ
  pub response_bytes : String → ℕ → Option Fields → List ℕ
  pub packs :
      (name : String) (args : Option Fields) (k : ℕ) (h : H)
      → Request name args
      → ((pack_fn name args (some k) h).0 ≡ some (request_bytes name args k))
        × All IsByte (request_bytes name args k)
        × Expects name k (pack_fn name args (some k) h).1
  pub receives :
      (name : String) (args : Option Fields) (k : ℕ) (g : G)
      → Request name args
      → 0 < k
      → (peer_dispatch (request_bytes name args k) g).0
        ≡ some (record {
          is_request = true;
          pname = some name;
          result = args;
          response_func = some (response_bytes name k);
          session = number (pos k);
        })
  pub answers :
      (name : String) (resp : Fields) (k : ℕ) (h : H)
      → Response name resp
      → Expects name k h
      → All IsByte (response_bytes name k (some resp))
        × ((client_dispatch (response_bytes name k (some resp)) h).0
            ≡ some (record {
              is_request = false;
              pname = none;
              result = some resp;
              response_func = none;
              session = number (pos k);
            }))

send_lem :
    (pack_call : String → Option Fields → ℕ → Option (List ℕ)) (c : ℕ) (name : String)
    (args : Option Fields) (req : ℕ) (b : List ℕ)
    → pack_call name args req ≡ some b
    → send pack_call (some c) req (record { name = name; param = args }) ≡ transmit c b ∷ []
unfolding send
send_lem pack_call c name args req b e = rw (send, e)

module _ (encode decode : List ℕ → List ℕ) where
  -- UTF-8 keeps the texts of the fields.
  abbrev pub ArgTexts : Option Fields → Type 0
  ArgTexts none = Unit {0}
  ArgTexts (some fs) = FieldTexts (Kept encode decode) fs

  args_lem :
      (args : Option Fields)
      → ArgTexts args
      → map_fields (decode_fields decode) (map_fields (encode_fields encode) args)
        ≡ map_fields plain_fields args
  args_lem none h = refl
  args_lem (some fs) h = ap some (decode_fields-encode_fields encode decode fs h)

  -- What the peer's codec makes of a request.
  abbrev pub received : String → Option Fields → ℕ → (Option Fields → List ℕ) → CodecResult
  received name args req f = request (record {
    name = name;
    args = map_fields plain_fields args;
    session = some (number (pos req));
    respond = some (respond_with encode decode f);
  })

module _ (encode decode : List ℕ → List ℕ) {H G : Type 0} (hosts : Hosts H G)
    (client_header peer_header : List ℕ → Option (Option Fields)) where
  abbrev pub packer : H → String → Option Fields → ℕ → Option (List ℕ)
  packer h name args req = (pack encode decode hosts.pack_fn name args (some req) h).0

  abbrev pub wire : String → Option Fields → ℕ → List ℕ
  wire name args req = hosts.request_bytes name (map_fields (encode_fields encode) args) req

  packer-wire :
      (name : String) (args : Option Fields) (req : ℕ) (h : H)
      → hosts.Request name (map_fields (encode_fields encode) args)
      → packer h name args req ≡ some (wire name args req)
  unfolding pack to_number_array
  packer-wire name args req h valid =
      let (e, byte, _) = hosts.packs name (map_fields (encode_fields encode) args) req h valid in
      let kept : from_number_array (wire name args req) ≡ wire name args req =
        (to_bytes-from_bytes (wire name args req) byte).2 in
      rw e (ap some kept)

  send-wire :
      (c : ℕ) (name : String) (args : Option Fields) (req : ℕ) (h : H)
      → hosts.Request name (map_fields (encode_fields encode) args)
      → send (packer h) (some c) req (record { name = name; param = args })
        ≡ transmit c (wire name args req) ∷ []
  send-wire c name args req h valid =
      send_lem (packer h) c name args req (wire name args req) (packer-wire name args req h valid)

  peer-wire :
      (name : String) (args : Option Fields) (req : ℕ) (g : G)
      → hosts.Request name (map_fields (encode_fields encode) args)
      → ArgTexts encode decode args
      → 0 < req
      → (dispatch encode decode hosts.peer_dispatch peer_header (wire name args req) g).0
        ≡ some (received encode decode name args req (hosts.response_bytes name req))
  unfolding dispatch convert to_number_array
  peer-wire name args req g valid texts positive = rw (
    hosts.receives name (map_fields (encode_fields encode) args) req g valid positive,
    args_lem encode decode args texts,
  )

  client-respond :
      (name : String) (resp : Fields) (req : ℕ) (h : H)
      → hosts.Response name (encode_fields encode resp)
      → FieldTexts (Kept encode decode) resp
      → hosts.Expects name req h
      → (dispatch encode decode hosts.client_dispatch client_header
          (respond_with encode decode (hosts.response_bytes name req) (some resp))
          h).0
        ≡ some (response (record { session = pos req; args = some (plain_fields resp) }))
  unfolding dispatch convert to_number_array
  client-respond name resp req h valid texts expects =
      let (byte, e) = hosts.answers name (encode_fields encode resp) req h valid expects in
      rw (
        (to_bytes-from_bytes (hosts.response_bytes name req (some (encode_fields encode resp)))
            byte).2,
        e,
        decode_fields-encode_fields encode decode resp texts,
      )

  -- At any time while the client is connected, a request and its response go through the codecs of both
  -- ends: the peer gets the name and the parameter, and the promise of the request, and no other, is
  -- resolved with what the peer answered. The counts go on, and the request is no longer pending.
  pub issue-response :
      (o : Settings) (es : List Event) (c : ℕ) (name : String) (args : Option Fields)
      (resp : Fields) (timeout_ms : Option ℕ) (h : H) (g : G)
      → let s = (run_all (packer h) o es start_system).session in
        s.conn ≡ some c
        → hosts.Request name (map_fields (encode_fields encode) args)
        → hosts.Response name (encode_fields encode resp)
        → ArgTexts encode decode args
        → FieldTexts (Kept encode decode) resp
        → let (s', req, sent) = issue (packer h) name args timeout_ms s in
          let h' = (pack encode decode hosts.pack_fn name args (some req) h).1 in
          let answer = respond_with encode decode (hosts.response_bytes name req) (some resp) in
          (sent ≡ transmit c (wire name args req) ∷ timeout_timer timeout_ms)
          × ((dispatch encode decode hosts.peer_dispatch peer_header (wire name args req) g).0
              ≡ some (received encode decode name args req (hosts.response_bytes name req)))
          × (on_message c
                (some (dispatch encode decode hosts.client_dispatch client_header answer h').0)
                s'
              ≡ (
                record s {
                  next_req_id = req;
                  recv = if uncounted name then s.recv else s.recv + 1;
                },
                resolve req (some (plain_fields resp)) ∷ [],
              ))
  unfolding issue on_message pack
  issue-response o es c name args resp timeout_ms h g conn valid allowed texts answer_texts =
      let s = (run_all (packer h) o es start_system).session in
      let req = s.next_req_id + 1 in
      let p : Pending = record { name = name; param = args } in
      let (unused, _) = next_id_unused (packer h) o es in
      let (_, _, expects) = hosts.packs name (map_fields (encode_fields encode) args) req h valid in
      let same : (c == c) ≡ true = ground arith in
      (
        rw (conn, send-wire c name args req h valid),
        peer-wire name args req g valid texts (omega arith),
        rw (
          conn,
          same,
          client-respond name resp req _ allowed answer_texts expects,
          lookup-insert req p s.pending unused,
          handle_response,
          erase-insert req p s.pending unused,
        ),
      )
