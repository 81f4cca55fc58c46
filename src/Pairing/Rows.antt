-- ===== src/Pairing/Rows.antt =====
-- server/src/db.rs: the tables `tokens`, `pending_devices` and `audit`. Times are Unix seconds,
-- never negative, and a 0 or 1 column is a number as in the source.
use shellfleet.Common.{ℕ, Bool, String, Option, List, if◌then◌else◌}
use shellfleet.Common.Result.{Result, err}
use shellfleet.Accounts.Audit.{AuditRow, logged}
use shellfleet.Accounts.{DbError, unavailable}

-- A row of the table `tokens`.
pub record TokenRow : Type 0 where
  pub token : String
  pub hostname : Option String
  pub created_at : ℕ
  pub last_seen : ℕ
  pub expires_at : ℕ
  pub refresh_token : Option String
  pub refresh_expires_at : ℕ
  pub revoked : ℕ

pub record PendingDeviceRow : Type 0 where
  pub device_code : String
  pub user_code : String
  pub expires_at : ℕ
  pub approved : ℕ
  pub purpose : String
  pub approved_by : Option String

pub record Db : Type 0 where
  pub tokens : List TokenRow
  pub pending_devices : List PendingDeviceRow
  pub audit : List AuditRow

-- What a call of the database answers, and what it leaves.
abbrev pub Answer : Type 0 → Type 0
Answer A = Result DbError A × Db

-- A call fails and changes nothing while the database is down.
abbrev pub unless : {A : Type 0} → Bool → Db → Answer A → Answer A
unless down db answer = if down then (err unavailable, db) else answer

abbrev pub with_tokens : List TokenRow → Db → Db
with_tokens rows db = record {
  tokens = rows;
  pending_devices = db.pending_devices;
  audit = db.audit;
}

abbrev pub with_pending : List PendingDeviceRow → Db → Db
with_pending rows db = record { tokens = db.tokens; pending_devices = rows; audit = db.audit }

unfoldable pub record_audit :
    Bool → ℕ → Option String → Option String → String → Bool → Option String → Db → Db
record_audit down ts actor agent_id kind succeeded detail db = record {
  tokens = db.tokens;
  pending_devices = db.pending_devices;
  audit = logged down ts actor agent_id kind succeeded detail db.audit;
}
