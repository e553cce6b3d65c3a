-- ===== src/Lib.antt =====
-- The TypeScript client SDK of skyext (sdk/ts/src): an account client over HTTP, a WebSocket
-- transport, a codec over the vendored sproto library, a session that stays logged in over lost
-- connections, and a facade that ties them together.
--
-- Files, and the code that each one models:
-- - Prelude, Prelude/Tests, Prelude/Lists: tests, lists and association lists over the native ℕ.
-- - Value: types.ts, and JavaScript values as far as messages hold them. ErrCode: errcode.ts.
-- - Bytes: bin.ts. `from_bytes` is `fromBytes`, its loop `append_chunks` runs on fuel; a round takes
--   a number at least, so the number of the bytes is enough.
-- - Codec, Codec/Dispatch: codec.ts. `encode_deep` and `decode_deep` are the conversions, `pack` and
--   `dispatch` the codec's methods. Codec/Values: a value on its way out and back.
-- - Session/State: session.ts, the fields of `SessionClient` (a record). Session: its synchronous methods,
--   one function each, with the effects (packets, callbacks, resolved promises, timers) in order.
--   Session/Tasks: the asynchronous methods `establish`, `tryResume`, `doLogin`, `supervisor` and
--   `heartbeat`. Each wait for a promise is a stage of a task, and a step runs a task from one wait
--   to the next. Session/System: the events (calls, packets, lost connections, timers, steps of
--   tasks), in any order.
--   Session/Accounts, Session/Conservation: what becomes of every request id. Session/Counting: the
--   server's count of packets and the client's. Session/Resume: logging in and resuming.
--   Session/Away, Session/Shutdown: connections that the session has given up, and closing. Session/Failing: packets that cannot be decoded.
--   Session/Liveness, its Resuming, Recovery and Relogin: from a lost connection to a resumed session
--   or a new one. Session/Liveness/Start: the first login.
--   Session/Liveness/Silence, Session/Liveness/Heartbeat: pings that nothing answers.
--   Session/Liveness/Harmless, Calm, Beating, Unanswered and Interleaved: the same among other events,
--   in any order.
--   Session/Sound, Session/Closed: a closed client. Session/Restart: `start` right after `close`.
--   Session/Exchange: a request and its response through the codecs of both ends.
-- - Json: json.ts. The scanner's loops over an index are functions of the rest of the text; the outer
--   loop runs on fuel, a round takes a code unit at least. Json/Tokens: the specification, over the
--   tokens of a text. Json/Scanner: the scanner on such a text. Json/LargeIntegers: integers.
--   Json/Documents: whole documents; its Printed, Marked and Exact: their tokens, what the scanner
--   makes of them, and their values.
-- - Md5: md5.ts, on words of 32 bits; its loops run for their fixed numbers of rounds. Md5/Padding,
--   Md5/Rounds and Md5/Hexadecimal: what is hashed, the rounds, and the form of the digest. Tests/Md5
--   has digests of RFC 1321.
-- - Sproto: the two changes of the SDK to its copy of sproto-js (sdk/ts/src/sproto/sproto.ts): integers
--   of 64 bits (Sproto/Words, Sproto/Integers) and byte strings (Sproto/Strings). Sproto/Arrays: arrays of
--   integers, written in place into a buffer (Sproto/Arrays/InPlace); Sproto/Arrays/Widening, Written,
--   Elements and RoundTrip: its bytes; Sproto/Arrays/Values: its integers.
-- - Account: account.ts. Account/Rotation: the order of the hosts. Account/Answers and
--   Account/Responses: roles and servers. Account/Unreachable: hosts without a usable answer.
--   Account/Documents: from the text of a response to the roles.
-- - Transport: transport.ts, a socket with its events and calls in any order. Transport/Callbacks: what
--   the callbacks get. Transport/Outcome: the promise of `connect`.
-- - Client: client.ts. Client/Gateways: the addresses of its reconnect cycles. Client/Lifecycle: one
--   session at a time. Client/Opening and Client/Entering: from `enterGame` to the first session.
-- - Tests: runs of the model, and the theorems at concrete inputs.
--
-- How they interact: the session takes the codec's `pack` as a parameter and its `dispatch` at the
-- packets that come in (Session/Failing and Session/Exchange compose the two); the client runs the
-- session's system and gives it the addresses of the account's gateways (Client/Entering
-- composes the account, the client and the session); the codec's checksum is that of Md5. The
-- account client takes any `parse_json`; Account/Documents gives it that of Json.
--
-- Parameters: the vendored sproto library (sdk/ts/src/sproto), `fetch`, `JSON.parse`,
-- `encodeURIComponent`, `Math.sin`, `TextEncoder` and `TextDecoder`. `fetch` may answer by all requests
-- made before. A connection's `send` and `close` that throw are caught by the code, and so ignored here.
--
-- Not modelled: of sproto, all but the two changes and the arrays of integers around them; the time that
-- passes between two events; the microtasks between an async method and the caller that awaits its result,
-- which are one step; a callback of the application that calls `close` before `start` goes on; a text that
-- `encodeURIComponent` rejects; a WebSocket constructor that throws; the text of exceptions; index.ts, which only re-exports; the server, the Lua
-- client, the C extensions, the scripts and the example game.
pub mod Prelude
pub mod Value
pub mod ErrCode
pub mod Bytes
pub mod Codec
pub mod Md5
pub mod Session
pub mod Account
pub mod Client
pub mod Transport
pub mod Json
pub mod Sproto
pub mod Tests
