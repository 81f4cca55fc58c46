-- ===== src/Pairing/Handlers.antt =====
-- server/src/device_auth.rs, cli_auth.rs and tokens.rs: the state that the pairing handlers share
-- and the shapes of their answers. `down n` tells whether a handler's n-th statement fails, and the
-- random texts, the time and the environment are arguments.
use Prim.Native.String.{slice, ◌++◌ as append}
use shellfleet.Common.{ℕ, String, Option, none, some}
use shellfleet.Throttle.Lockout.{Throttle}
use shellfleet.Pairing.Rows.{Db}

-- The fields of `AppState` that pairing reads and writes.
pub record PairingState : Type 0 where
  pub db : Db
  pub device_approve_throttle : Throttle

abbrev pub with_db : Db → PairingState → PairingState
with_db db state = record { db = db; device_approve_throttle = state.device_approve_throttle }

abbrev pub with_throttle : Throttle → PairingState → PairingState
with_throttle throttle state = record { db = state.db; device_approve_throttle = throttle }

-- An answer with a status, a `Retry-After` header and a text.
pub record Reply : Type 0 where
  pub status : ℕ
  pub retry_after : Option ℕ
  pub body : String

abbrev pub reply : ℕ → String → Reply
reply status body = record { status = status; retry_after = none; body = body }

-- `format!("{}-{}", &raw[0..4], &raw[4..8]).to_uppercase()`
abbrev pub user_code_of : (String → String) → String → String
user_code_of to_uppercase raw = to_uppercase (append (slice raw 0 4) (append "-" (slice raw 4 8)))

abbrev pub default_ui_url : String
default_ui_url = "https://dashboard.example.com/"

abbrev pub ui_url : Option String → String
ui_url none = default_ui_url
ui_url (some url) = url
