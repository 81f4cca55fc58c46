-- ===== src/Pairing/Approvals.antt =====
-- server/src/device_auth.rs, `approve_device`, and the two requests for a code: what they add to
-- the pending requests with a given mark.
use shellfleet.Common.{
  bit, ℕ, ◌+◌, ◌≤◌, ◌≡◌, refl, ap, Bool, true, false, String, Option, arith, ◌==◌, string_eq,
  nat_eq, count_where,
}
use shellfleet.Common.Result.{ok, err, Result}
use shellfleet.Common.Table.{count-update, count-update_same, count-any, count_le}
use shellfleet.Throttle.Lockout.{check}
use shellfleet.Pairing.Rows.{PendingDeviceRow, Db, Answer}
use shellfleet.Pairing.Pending.{
  approve_user_code, approvable, approved_row, insert_pending_device,
  insert_pending_device_for_purpose,
}
use shellfleet.Pairing.Handlers.{PairingState, with_throttle, Reply, user_code_of}
use shellfleet.Pairing.Device.{judged, approve_device, request_device_auth}
use shellfleet.Pairing.Cli.{UrlCrate, request_cli_auth, request_ttl_secs}
use shellfleet.Pairing.Counts.{is_true, marked_in, insert-marked, delete-marked, new_request}
use shellfleet.Pairing.Polls.{audit-pending}

-- The approval is answered with 200.
abbrev pub is_approved : Reply → Bool
is_approved r = r.status == 200

approve_code-same :
    (p : PendingDeviceRow → Bool) (down : Bool) (user_code actor : String) (now : ℕ) (db : Db)
    → ((r : PendingDeviceRow) → p (approved_row actor r) ≡ p r)
    → marked_in p (approve_user_code down user_code actor now db).1 ≡ marked_in p db
unfolding approve_user_code
approve_code-same p down user_code actor now db same = ground (
  arith,
  count-update_same p (approvable user_code now) (approved_row actor) db.pending_devices same,
)

-- Where a user code is of one request at most, an approval marks one more at most.
approve_code-one :
    (p : PendingDeviceRow → Bool) (down : Bool) (user_code actor : String) (now : ℕ) (db : Db)
    → count_where (λ r. r.user_code == user_code) db.pending_devices ≤ 1
    → marked_in p (approve_user_code down user_code actor now db).1
      ≤ marked_in p db + bit (is_true (approve_user_code down user_code actor now db).0)
unfolding approve_user_code
approve_code-one p down user_code actor now db one =
    let few =
      count_le (approvable user_code now) (λ r. r.user_code == user_code) db.pending_devices
        (λ r h. ground arith) in
    let more = count-update p (approvable user_code now) (approved_row actor) db.pending_devices in
    let none_then = count-any (approvable user_code now) db.pending_devices in ground arith

module _ (p : PendingDeviceRow → Bool) (down : ℕ → Bool) where
  judged-marked :
      (actor user_code : String) (now : ℕ) (answer : Answer Bool) (state : PairingState)
      → let done = judged down actor user_code now answer state in
        (is_approved done.0 ≡ is_true answer.0) × (marked_in p done.1.db ≡ marked_in p answer.1)
  unfolding judged
  judged-marked actor user_code now (err e, db) state = (refl, refl)
  judged-marked actor user_code now (ok true, db) state =
      (refl, ap (count_where p) (audit-pending _ _ _ _ _ _ _ db))
  judged-marked actor user_code now (ok false, db) state =
      (refl, ap (count_where p) (audit-pending _ _ _ _ _ _ _ db))

  pub approve-same :
      (to_uppercase : String → String) (user : Result Reply String) (code : String) (now : ℕ)
      (state : PairingState)
      → ((actor : String) (r : PendingDeviceRow) → p (approved_row actor r) ≡ p r)
      → marked_in p (approve_device down to_uppercase user code now state).1.db
        ≡ marked_in p state.db
  unfolding approve_device
  approve-same to_uppercase (err refusal) code now state same = refl
  approve-same to_uppercase (ok actor) code now state same =
      let (throttle, verdict) = check state.device_approve_throttle actor now in
      let (alike, kept) =
        judged-marked actor (to_uppercase code) now
          (approve_user_code (down 0) (to_uppercase code) actor now state.db)
          (with_throttle (check state.device_approve_throttle actor now).0 state) in
      let still =
        approve_code-same p (down 0) (to_uppercase code) actor now state.db (same actor) in
      ground arith

  pub approve-one :
      (to_uppercase : String → String) (user : Result Reply String) (code : String) (now : ℕ)
      (state : PairingState)
      → ((user_code : String)
          → count_where (λ r. r.user_code == user_code) state.db.pending_devices ≤ 1)
      → let done = approve_device down to_uppercase user code now state in
        marked_in p done.1.db ≤ marked_in p state.db + bit (is_approved done.0)
  unfolding approve_device
  approve-one to_uppercase (err refusal) code now state unique = ground arith
  approve-one to_uppercase (ok actor) code now state unique =
      let (alike, kept) =
        judged-marked actor (to_uppercase code) now
          (approve_user_code (down 0) (to_uppercase code) actor now state.db)
          (with_throttle (check state.device_approve_throttle actor now).0 state) in
      let more =
        approve_code-one p (down 0) (to_uppercase code) actor now state.db
          (unique (to_uppercase code)) in
      ground arith

  pub request_device-marked :
      (to_uppercase : String → String) (url : Option String) (device_code raw : String) (now : ℕ)
      (state : PairingState)
      → marked_in p (request_device_auth down to_uppercase url device_code raw now state).1.db
        ≤ marked_in p state.db
          + bit (p (new_request device_code (user_code_of to_uppercase raw) (now + 300) "agent"))
  unfolding request_device_auth insert_pending_device
  request_device-marked to_uppercase url device_code raw now state =
      let added =
        insert-marked p (down 0) device_code (user_code_of to_uppercase raw) "agent" (now + 300)
          state.db in
      ground arith

  pub request_cli-marked :
      (to_uppercase trim_slashes : String → String) (crate : UrlCrate) (url : Option String)
      (device_code raw : String) (now : ℕ) (state : PairingState)
      → marked_in p
          (request_cli_auth down to_uppercase trim_slashes crate url device_code raw now state).1.db
        ≤ marked_in p state.db
          + bit (
              p (
                new_request device_code
                  (user_code_of to_uppercase raw)
                  (now + request_ttl_secs)
                  "cli"))
  unfolding request_cli_auth
  request_cli-marked to_uppercase trim_slashes crate url device_code raw now state =
      let asked : Answer (Unit {0}) =
        insert_pending_device_for_purpose (down 0) device_code (user_code_of to_uppercase raw)
          (now + request_ttl_secs) "cli" state.db in
      let added =
        insert-marked p (down 0) device_code (user_code_of to_uppercase raw) "cli"
          (now + request_ttl_secs) state.db in
      let fewer = delete-marked p (down 1) device_code asked.1 in ground arith
