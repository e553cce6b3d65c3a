-- ===== src/Value.antt =====
-- sdk/ts/src/types.ts: the values that protocol messages are made of, and the account's records.
-- A JavaScript `number` with an integral value is `number`, any other is `double` (its 64 bits);
-- a JavaScript string is the list of its UTF-16 code units.
use skyext.Prelude.{
  ℕ, zero, [], String, Bool, true, false, Option, List, str_eq, if◌then◌else◌, ◌==◌,
}

-- `negsuc n` is -(n + 1).
pub data ℤ : Type 0 where
  pos : ℕ → ℤ
  negsuc : ℕ → ℤ

mutual
  -- `ProtoArgs`: the own keys of a plain object, in their order.
  pub data Fields : Type 0 where
    no_fields : Fields
    entry : String → Value → Fields → Fields

  pub data Items : Type 0 where
    no_items : Items
    item : Value → Items → Items

  pub data Value : Type 0 where
    undefined null : Value
    boolean : Bool → Value
    double : ℕ → Value
    number bigint : ℤ → Value
    text bytes : List ℕ → Value
    arr : Items → Value
    obj : Fields → Value

-- `args[key]`
unfoldable pub get : String → Fields → Value
get k no_fields = undefined
get k (entry j v fs) = if str_eq j k then v else get k fs

-- `v == null`
abbrev pub is_nullish : Value → Bool
is_nullish null = true
is_nullish undefined = true
is_nullish _ = false

-- `v.key` of a value that is not null: of our values objects alone have named fields.
unfoldable pub prop : String → Value → Value
prop k (obj fs) = get k fs
prop k _ = undefined

-- `Boolean(v)`; the doubles of zero and NaN are not numbers of this model.
abbrev pub is_truthy : Value → Bool
is_truthy undefined = false
is_truthy null = false
is_truthy (boolean b) = b
is_truthy (number (pos zero)) = false
is_truthy (bigint (pos zero)) = false
is_truthy (text []) = false
is_truthy _ = true

-- `v ?? null`
abbrev pub or_null : Value → Value
or_null undefined = null
or_null v = v

-- `v === n`, for a number `n` that is not negative.
abbrev pub is_number : Value → ℕ → Bool
is_number (number (pos k)) n = k == n
is_number _ n = false

pub data SessionState : Type 0 where
  online offline relogin : SessionState

pub record GateInfo : Type 0 where
  pub node : String
  pub tcp_addr : String
  pub ws_url : Option String
  pub weight : ℕ

pub record ServerInfo : Type 0 where
  pub server : String
  pub name : String
  pub tag : Option String
  pub status : String
  pub open_time : Option ℕ
  pub recommended : Bool

pub record RoleInfo : Type 0 where
  pub rid : ℤ
  pub server : String
  pub name : String
