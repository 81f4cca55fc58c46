-- ===== src/Pairing/Counts.antt =====
-- server/src/db.rs: how many pending requests with a given mark each statement leaves.
use shellfleet.Common.{
  bit, ℕ, ◌+◌, ◌≤◌, ◌≡◌, Bool, true, false, ◌&&◌, String, Option, none, some, List, arith, ◌==◌,
  string_eq, nat_eq, ltb, count_where, Bool-cases, Option-cases, inl, inr,
}
use shellfleet.Common.Result.{Result, ok, err}
use shellfleet.Common.Table.{count-delete, count-first, count_le, first_where, delete_where}
use shellfleet.Accounts.{DbError}
use shellfleet.Pairing.Rows.{PendingDeviceRow, Db}
use shellfleet.Pairing.Pending.{
  insert_pending_device_for_purpose, delete_pending_device, consume_pending_agent_and_insert_token,
  consume_pending_cli_device, purge_expired_devices, is_ready, is_ready_for,
}

abbrev pub new_request : String → String → ℕ → String → PendingDeviceRow
new_request device_code user_code expires_at purpose = record {
  device_code = device_code;
  user_code = user_code;
  expires_at = expires_at;
  approved = 0;
  purpose = purpose;
  approved_by = none;
}

delete_le :
    {A : Type 0} (p q : A → Bool) (rows : List A)
    → count_where p (delete_where q rows) ≤ count_where p rows
delete_le p q rows = omega (arith, count-delete p q rows)

-- A deletion of rows with the mark, one of which there is, lowers their number.
pub delete_marked :
    {A : Type 0} (p q : A → Bool) (rows : List A)
    → ((r : A) → q r ≡ true → p r ≡ true)
    → 1 ≤ count_where q rows
    → count_where p (delete_where q rows) + 1 ≤ count_where p rows
delete_marked p q rows marked some_row = omega (
  arith,
  count-delete p q rows,
  count_le q (λ r. p r && q r) rows (λ r h. ground (arith, marked r h)),
)

abbrev pub is_consumed : {A : Type 0} → Result DbError (Option A) → Bool
is_consumed (err e) = false
is_consumed (ok none) = false
is_consumed (ok (some a)) = true

abbrev pub is_true : Result DbError Bool → Bool
is_true (err e) = false
is_true (ok b) = b

abbrev pub marked_in : (PendingDeviceRow → Bool) → Db → ℕ
marked_in p db = count_where p db.pending_devices

module _ (p : PendingDeviceRow → Bool) where
  pub insert-marked :
      (down : Bool) (device_code user_code purpose : String) (expires_at : ℕ) (db : Db)
      → marked_in p
          (insert_pending_device_for_purpose down device_code user_code expires_at purpose db).1
        ≤ marked_in p db + bit (p (new_request device_code user_code expires_at purpose))
  unfolding insert_pending_device_for_purpose
  insert-marked down device_code user_code purpose expires_at db = ground arith

  pub delete-marked :
      (down : Bool) (device_code : String) (db : Db)
      → marked_in p (delete_pending_device down device_code db).1 ≤ marked_in p db
  unfolding delete_pending_device
  delete-marked down device_code db =
      ground (arith, delete_le p (λ r. r.device_code == device_code) db.pending_devices)

  pub purge-marked :
      (down : Bool) (now : ℕ) (db : Db)
      → marked_in p (purge_expired_devices down now db).1 ≤ marked_in p db
  unfolding purge_expired_devices
  purge-marked down now db =
      ground (arith, delete_le p (λ r. ltb r.expires_at now) db.pending_devices)

module _ (p : PendingDeviceRow → Bool) (counted : Bool) where
  -- A consumption that is answered takes a row with the mark, if it is counted.
  pub consume-marked :
      (down : Bool) (device_code token refresh : String) (expires_at refresh_expires_at now : ℕ)
      (db : Db)
      → (counted ≡ true
          → (r : PendingDeviceRow) → is_ready device_code "agent" now r ≡ true
          → p r ≡ true)
      → let done =
          consume_pending_agent_and_insert_token down device_code token expires_at refresh
            refresh_expires_at now db in
        marked_in p done.1 + bit (counted && is_consumed done.0) ≤ marked_in p db
  unfolding consume_pending_agent_and_insert_token
  consume-marked down device_code token refresh expires_at refresh_expires_at now db marked =
      let ready : PendingDeviceRow → Bool = is_ready device_code "agent" now in
      let no_more = delete_le p ready db.pending_devices in
      elim (Option-cases (first_where ready db.pending_devices)) [
        | inl nothing ↦ ground arith
        | inr (row, found) ↦
            let here = (count-first ready db.pending_devices row found).0 in
            elim (Bool-cases counted) [
              | inl counts ↦
                  let fewer = delete_marked p ready db.pending_devices (marked counts) here in
                  ground arith
              | inr free ↦ ground arith
            ]
      ]

  pub consume_cli-marked :
      (down : Bool) (device_code actor : String) (now : ℕ) (db : Db)
      → (counted ≡ true
          → (r : PendingDeviceRow) → is_ready device_code "cli" now r ≡ true
          → p r ≡ true)
      → let done = consume_pending_cli_device down device_code actor now db in
        marked_in p done.1 + bit (counted && is_true done.0) ≤ marked_in p db
  unfolding consume_pending_cli_device
  consume_cli-marked down device_code actor now db marked =
      let ready : PendingDeviceRow → Bool = is_ready_for device_code actor now in
      let no_more = delete_le p ready db.pending_devices in
      elim (Bool-cases (counted && count_where ready db.pending_devices == 1)) [
        | inl one ↦
            let fewer =
              delete_marked p ready db.pending_devices
                (λ r h. marked (ground arith) r (ground arith)) (ground arith) in
            ground arith
        | inr other ↦ ground arith
      ]
