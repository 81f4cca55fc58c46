-- ===== src/Pairing/Polls.antt =====
-- server/src/device_auth.rs and cli_auth.rs: how many pending requests with a given mark each
-- handler leaves, and what it has answered.
use shellfleet.Common.{
  bit, ℕ, ◌+◌, ◌≤◌, ◌≡◌, refl, ap, subst, Bool, true, false, ◌&&◌, String, Option, none, some, List,
  arith, ◌==◌, string_eq, nat_eq, eq_iff, count_where, Option-cases, inl, inr,
}
use shellfleet.Common.Result.{ok, err, Result}
use shellfleet.Common.Table.{first_where, count-first}
use shellfleet.Accounts.{Role, UserAnswer, parse}
use shellfleet.Pairing.Rows.{PendingDeviceRow, Db, Answer, record_audit}
use shellfleet.Pairing.Pending.{
  pending_device, is_ready, consume_pending_agent_and_insert_token, consume_pending_cli_device,
}
use shellfleet.Pairing.Handlers.{PairingState}
use shellfleet.Pairing.Device.{
  DeviceTokenResponse, token, error, exchanged, polled, poll_device_token, access_token_ttl_secs,
  refresh_token_ttl_secs,
}
use shellfleet.Pairing.Cli.{
  CliAuthTokenResponse, consumed, authorized, authorized_by, polled as cli_polled, poll_cli_token,
}
use shellfleet.Pairing.Counts.{
  is_consumed, is_true, marked_in, consume-marked, consume_cli-marked, delete-marked,
}

abbrev pub is_token : DeviceTokenResponse → Bool
is_token (token access refresh kind expires refresh_expires) = true
is_token (error e) = false

abbrev pub is_session : CliAuthTokenResponse → Bool
is_session (CliAuthTokenResponse.token access kind expires) = true
is_session (CliAuthTokenResponse.error e) = false

pub audit-pending :
    (down : Bool) (ts : ℕ) (actor agent_id : Option String) (kind : String) (succeeded : Bool)
    (detail : Option String) (db : Db)
    → (record_audit down ts actor agent_id kind succeeded detail db).pending_devices
      ≡ db.pending_devices
unfolding record_audit
audit-pending down ts actor agent_id kind succeeded detail db = ground arith

pub audit-tokens :
    (down : Bool) (ts : ℕ) (actor agent_id : Option String) (kind : String) (succeeded : Bool)
    (detail : Option String) (db : Db)
    → (record_audit down ts actor agent_id kind succeeded detail db).tokens ≡ db.tokens
unfolding record_audit
audit-tokens down ts actor agent_id kind succeeded detail db = ground arith

-- The row that is found has the device code that was asked for.
pub found_code :
    (device_code : String) (rows : List PendingDeviceRow) (row : PendingDeviceRow)
    → first_where (λ r. r.device_code == device_code) rows ≡ some row
    → row.device_code ≡ device_code
found_code device_code rows row found =
    (eq_iff row.device_code device_code).0
      (count-first (λ r. r.device_code == device_code) rows row found).1

module _ (p : PendingDeviceRow → Bool) (counted : Bool) (down : ℕ → Bool) where
  exchanged-marked :
      (access refresh : String) (now : ℕ) (answer : Answer (Option PendingDeviceRow))
      → let done = exchanged down access refresh now answer in
        (is_token done.0 ≡ is_consumed answer.0) × (marked_in p done.1 ≡ marked_in p answer.1)
  unfolding exchanged
  exchanged-marked access refresh now (err e, db) = (refl, refl)
  exchanged-marked access refresh now (ok none, db) = (refl, refl)
  exchanged-marked access refresh now (ok (some row), db) =
      (refl, ap (count_where p) (audit-pending _ _ _ _ _ _ _ db))

  polled-marked :
      (access refresh : String) (now : ℕ) (found : Option PendingDeviceRow) (db : Db)
      → (counted ≡ true
          → (row r : PendingDeviceRow) → found ≡ some row
          → is_ready row.device_code "agent" now r ≡ true
          → p r ≡ true)
      → let done = polled down access refresh now found db in
        marked_in p done.1 + bit (counted && is_token done.0) ≤ marked_in p db
  unfolding polled
  polled-marked access refresh now none db marked = ground arith
  polled-marked access refresh now (some row) db marked =
      let taken : Answer (Option PendingDeviceRow) =
        consume_pending_agent_and_insert_token (down 1) row.device_code access
          (now + access_token_ttl_secs) refresh (now + refresh_token_ttl_secs) now db in
      let same = exchanged-marked access refresh now taken in
      let fewer =
        consume-marked p counted (down 1) row.device_code access refresh
          (now + access_token_ttl_secs) (now + refresh_token_ttl_secs) now db
          (λ c r h. marked c row r refl h) in
      let no_more = delete-marked p (down 1) row.device_code db in ground arith

  pub poll_device-marked :
      (access refresh device_code : String) (now : ℕ) (state : PairingState)
      → (counted ≡ true
          → (r : PendingDeviceRow) → is_ready device_code "agent" now r ≡ true
          → p r ≡ true)
      → let done = poll_device_token down access refresh device_code now state in
        marked_in p done.1.db + bit (counted && is_token done.0) ≤ marked_in p state.db
  unfolding poll_device_token pending_device
  poll_device-marked access refresh device_code now state marked =
      let inner =
        polled-marked access refresh now
          (first_where (λ r. r.device_code == device_code) state.db.pending_devices) state.db
          (λ count row r found h. marked count r (
            subst (λ c. is_ready c "agent" now r ≡ true)
              (found_code device_code state.db.pending_devices row found) h)) in
      ground arith

  consumed-marked :
      (issue_cli_jwt : String → Role → ℕ → Result String String) (actor : String) (role : Role)
      (now : ℕ) (answer : Answer Bool)
      → let done = consumed down issue_cli_jwt actor role now answer in
        (bit (is_session done.0) ≤ bit (is_true answer.0))
        × (marked_in p done.1 ≡ marked_in p answer.1)
  unfolding consumed
  consumed-marked issue_cli_jwt actor role now (err e, db) = (ground arith, refl)
  consumed-marked issue_cli_jwt actor role now (ok false, db) = (ground arith, refl)
  consumed-marked issue_cli_jwt actor role now (ok true, db) =
      let same =
        audit-pending (down 2) now (some actor) none "cli.device.token.issued" true none db in
      ground arith

  authorized-marked :
      (issue_cli_jwt : String → Role → ℕ → Result String String) (device_code actor : String)
      (now : ℕ) (user : UserAnswer) (db : Db)
      → (counted ≡ true
          → (r : PendingDeviceRow) → is_ready device_code "cli" now r ≡ true
          → p r ≡ true)
      → let done = authorized down issue_cli_jwt device_code actor now user db in
        marked_in p done.1 + bit (counted && is_session done.0) ≤ marked_in p db
  unfolding authorized
  authorized-marked issue_cli_jwt device_code actor now (err e) db marked = ground arith
  authorized-marked issue_cli_jwt device_code actor now (ok none) db marked = ground arith
  authorized-marked issue_cli_jwt device_code actor now (ok (some user)) db marked =
      let taken : Answer Bool = consume_pending_cli_device (down 1) device_code actor now db in
      let same = consumed-marked issue_cli_jwt actor (parse user.role) now taken in
      let fewer = consume_cli-marked p counted (down 1) device_code actor now db marked in
      ground arith

  cli_polled-marked :
      (get_user : String → UserAnswer) (issue_cli_jwt : String → Role → ℕ → Result String String)
      (now : ℕ) (found : Option PendingDeviceRow) (db : Db)
      → (counted ≡ true
          → (row r : PendingDeviceRow) → found ≡ some row
          → is_ready row.device_code "cli" now r ≡ true
          → p r ≡ true)
      → let done = cli_polled down get_user issue_cli_jwt now found db in
        marked_in p done.1 + bit (counted && is_session done.0) ≤ marked_in p db
  unfolding cli_polled authorized_by
  cli_polled-marked get_user issue_cli_jwt now none db marked = ground arith
  cli_polled-marked get_user issue_cli_jwt now (some row) db marked =
      let no_more = delete-marked p (down 1) row.device_code db in
      elim (Option-cases row.approved_by) [
        | inl nobody ↦ ground arith
        | inr (actor, by) ↦
            let inner =
              authorized-marked issue_cli_jwt row.device_code actor now (get_user actor) db
                (λ c r h. marked c row r refl h) in
            ground arith
      ]

  pub poll_cli-marked :
      (get_user : String → UserAnswer) (issue_cli_jwt : String → Role → ℕ → Result String String)
      (device_code : String) (now : ℕ) (state : PairingState)
      → (counted ≡ true
          → (r : PendingDeviceRow) → is_ready device_code "cli" now r ≡ true
          → p r ≡ true)
      → let done = poll_cli_token down get_user issue_cli_jwt device_code now state in
        marked_in p done.1.db + bit (counted && is_session done.0) ≤ marked_in p state.db
  unfolding poll_cli_token pending_device
  poll_cli-marked get_user issue_cli_jwt device_code now state marked =
      let inner =
        cli_polled-marked get_user issue_cli_jwt now
          (first_where (λ r. r.device_code == device_code) state.db.pending_devices) state.db
          (λ count row r found h. marked count r (
            subst (λ c. is_ready c "cli" now r ≡ true)
              (found_code device_code state.db.pending_devices row found) h)) in
      ground arith
