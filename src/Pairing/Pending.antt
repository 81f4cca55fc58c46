-- ===== src/Pairing/Pending.antt =====
-- server/src/db.rs: the statements on the table `pending_devices`, whose primary key is the device
-- code and whose user codes are unique. The first argument tells whether the database is down.
use shellfleet.Common.{
  ℕ, Bool, ◌&&◌, ◌||◌, String, Option, none, some, ◌∷◌, ◌==◌, nat_eq, string_eq, if◌then◌else◌, ltb,
  leb, any, count_where,
}
use shellfleet.Common.Result.{ok, err}
use shellfleet.Common.Table.{delete_where, update_where, first_where}
use shellfleet.Accounts.{unavailable}
use shellfleet.Pairing.Rows.{PendingDeviceRow, Db, Answer, unless, with_tokens, with_pending}
use shellfleet.Pairing.Tokens.{issued_row, is_some_text}

abbrev pub clashes : String → String → PendingDeviceRow → Bool
clashes device_code user_code r = r.device_code == device_code || r.user_code == user_code

unfoldable pub insert_pending_device_for_purpose :
    Bool → String → String → ℕ → String → Db → Answer (Unit {0})
insert_pending_device_for_purpose down device_code user_code expires_at purpose db =
    unless down db (
      if any (clashes device_code user_code) db.pending_devices then (err unavailable, db) else (
        ok tt,
        with_pending
            (record {
              device_code = device_code;
              user_code = user_code;
              expires_at = expires_at;
              approved = 0;
              purpose = purpose;
              approved_by = none;
            }
              ∷ db.pending_devices)
            db,
      ))

unfoldable pub insert_pending_device : Bool → String → String → ℕ → Db → Answer (Unit {0})
unfolding insert_pending_device_for_purpose
insert_pending_device down device_code user_code expires_at db =
    insert_pending_device_for_purpose down device_code user_code expires_at "agent" db

unfoldable pub pending_device : Bool → String → Db → Answer (Option PendingDeviceRow)
pending_device down device_code db =
    unless down db (ok (first_where (λ r. r.device_code == device_code) db.pending_devices), db)

abbrev pub approvable : String → ℕ → PendingDeviceRow → Bool
approvable user_code now r = r.user_code == user_code && leb now r.expires_at && r.approved == 0

abbrev pub approved_row : String → PendingDeviceRow → PendingDeviceRow
approved_row actor r = record {
  device_code = r.device_code;
  user_code = r.user_code;
  expires_at = r.expires_at;
  approved = 1;
  purpose = r.purpose;
  approved_by = some actor;
}

unfoldable pub approve_user_code : Bool → String → String → ℕ → Db → Answer Bool
approve_user_code down user_code actor now db = unless down db (
  ok (any (approvable user_code now) db.pending_devices),
  with_pending (update_where (approvable user_code now) (approved_row actor) db.pending_devices) db,
)

unfoldable pub delete_pending_device : Bool → String → Db → Answer (Unit {0})
delete_pending_device down device_code db =
    unless down db
      (ok tt, with_pending (delete_where (λ r. r.device_code == device_code) db.pending_devices) db)

-- An approved request for this purpose that has not expired.
abbrev pub is_ready : String → String → ℕ → PendingDeviceRow → Bool
is_ready device_code purpose now r =
    r.device_code == device_code && r.purpose == purpose && r.approved == 1 && leb now r.expires_at

-- The deletion and the insertion are one transaction: an access token that is taken rolls the
-- deletion back.
unfoldable pub consume_pending_agent_and_insert_token :
    Bool → String → String → ℕ → String → ℕ → ℕ → Db → Answer (Option PendingDeviceRow)
consume_pending_agent_and_insert_token down device_code token expires_at refresh_token
      refresh_expires_at now db =
    unless down db (elim (first_where (is_ready device_code "agent" now) db.pending_devices) [
      | none ↦ (ok none, db)
      | some row ↦ if any (λ r. r.token == token) db.tokens then (err unavailable, db) else (
        ok (some row),
        with_tokens
            (issued_row none token refresh_token expires_at refresh_expires_at now ∷ db.tokens)
            (with_pending (delete_where (is_ready device_code "agent" now) db.pending_devices) db),
      )
    ])

abbrev pub is_ready_for : String → String → ℕ → PendingDeviceRow → Bool
is_ready_for device_code approved_by now r =
    is_ready device_code "cli" now r && is_some_text approved_by r.approved_by

unfoldable pub consume_pending_cli_device : Bool → String → String → ℕ → Db → Answer Bool
consume_pending_cli_device down device_code approved_by now db = unless down db (
  ok (count_where (is_ready_for device_code approved_by now) db.pending_devices == 1),
  with_pending (delete_where (is_ready_for device_code approved_by now) db.pending_devices) db,
)

unfoldable pub purge_expired_devices : Bool → ℕ → Db → Answer ℕ
purge_expired_devices down now db = unless down db (
  ok (count_where (λ r. ltb r.expires_at now) db.pending_devices),
  with_pending (delete_where (λ r. ltb r.expires_at now) db.pending_devices) db,
)
