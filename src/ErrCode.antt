-- ===== src/ErrCode.antt =====
-- sdk/ts/src/errcode.ts: the error codes that a client may receive.
use skyext.Prelude.{ℕ}

abbrev pub ok : ℕ
ok = 0

abbrev pub in_other_node : ℕ
in_other_node = 2

abbrev pub lock_failed : ℕ
lock_failed = 4

abbrev pub db_error : ℕ
db_error = 6

abbrev pub param_error : ℕ
param_error = 10

abbrev pub auth_failed : ℕ
auth_failed = 11

abbrev pub entity_not_found : ℕ
entity_not_found = 20

abbrev pub entity_lock_failed : ℕ
entity_lock_failed = 21

abbrev pub entity_load_failed : ℕ
entity_load_failed = 22

abbrev pub session_closed : ℕ
session_closed = 23

abbrev pub resume_unavailable : ℕ
resume_unavailable = 24

abbrev pub request_expired : ℕ
request_expired = 25

abbrev pub request_conflict : ℕ
request_conflict = 26
