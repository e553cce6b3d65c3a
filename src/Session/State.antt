-- ===== src/Session/State.antt =====
-- sdk/ts/src/session.ts: the fields of `SessionClient`, its settings, and what it does to the outside.
use skyext.Prelude.{ℕ, String, Bool, true, false, Option, none, some, List, []}
use skyext.Value.{Value, null, Fields, SessionState}

-- `SessionOptions`: the settings that may be left out.
pub record Options : Type 0 where
  pub ping_interval_ms : Option ℕ
  pub ping_tolerance : Option ℕ
  pub reconnect_delay_ms : Option ℕ
  pub handshake_timeout_ms : Option ℕ

pub record Settings : Type 0 where
  pub ping_interval_ms : ℕ
  pub ping_tolerance : ℕ
  pub reconnect_delay_ms : ℕ
  pub handshake_timeout_ms : ℕ

abbrev pub or_default : Option ℕ → ℕ → ℕ
or_default none d = d
or_default (some n) d = n

abbrev pub LoginParam : Type 0
LoginParam = Fields

pub record Pending : Type 0 where
  pub name : String
  pub param : Option Fields

-- The promise of a request has the request's id for its name, a connection and a sleeping loop a
-- number of their own; `sleeps` numbers the loops' sleeps.
pub record Session : Type 0 where
  pub conn : Option ℕ
  pub is_online : Bool
  pub closed : Bool
  pub loops_started : Bool
  pub rid : Value
  pub nonce : Value
  pub recv : ℕ
  pub next_req_id : ℕ
  pub pending : List (ℕ × Pending)
  pub wakers : List ℕ
  pub sleeps : ℕ

pub data Effect : Type 0 where
  dial : String → Effect
  transmit : ℕ → List ℕ → Effect
  close_conn : ℕ → Effect
  resolve : ℕ → Option Fields → Effect
  push : String → Option Fields → Effect
  notify : SessionState → Effect
  set_timer : ℕ → Effect
  wake : ℕ → Effect

-- The constructor: the settings with their defaults, and the initial fields.
unfoldable pub settings : Options → Settings
settings o = record {
  ping_interval_ms = or_default o.ping_interval_ms 15000;
  ping_tolerance = or_default o.ping_tolerance 2;
  reconnect_delay_ms = or_default o.reconnect_delay_ms 1000;
  handshake_timeout_ms = or_default o.handshake_timeout_ms 5000;
}

abbrev pub initial : Session
initial = record {
  conn = none;
  is_online = false;
  closed = true;
  loops_started = false;
  rid = null;
  nonce = null;
  recv = 0;
  next_req_id = 0;
  pending = [];
  wakers = [];
  sleeps = 0;
}
