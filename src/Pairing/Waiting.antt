-- ===== src/Pairing/Waiting.antt =====
-- server/src/db.rs, device_auth.rs and cli_auth.rs: a request that waits in `pending_devices` while
-- the server answers calls about others.
use shellfleet.Common.{
  ℕ, ◌≡◌, refl, ap, ◌∙◌, Bool, true, false, not, String, Option, some, arith, ◌==◌, string_eq,
  nat_eq, eq_iff, leb, ltb, Option-cases, inl, inr,
}
use shellfleet.Common.Table.{first_where, first-delete, first-update}
use shellfleet.Pairing.Rows.{PendingDeviceRow, Db, record_audit}
use shellfleet.Pairing.Pending.{
  insert_pending_device_for_purpose, approve_user_code, approvable, approved_row,
  delete_pending_device, is_ready, is_ready_for, consume_pending_agent_and_insert_token,
  consume_pending_cli_device, purge_expired_devices,
}
use shellfleet.Pairing.Calls.{Env, Call}
use shellfleet.Pairing.Polls.{audit-pending}

abbrev pub has_device : String → PendingDeviceRow → Bool
has_device code r = r.device_code == code

-- A call that is about no such request: under no such device code, of no such user code, and no
-- purge after its end.
abbrev pub leaves_pending : Env → PendingDeviceRow → Call → Bool
leaves_pending env row (Call.request_device down c raw now) = not (row.device_code == c)
leaves_pending env row (Call.request_cli down c raw now) = not (row.device_code == c)
leaves_pending env row (Call.approve down user typed now) =
    not (row.user_code == env.to_uppercase typed)
leaves_pending env row (Call.poll_device down access refresh c now) = not (row.device_code == c)
leaves_pending env row (Call.poll_cli down get_user issue c now) = not (row.device_code == c)
leaves_pending env row (Call.rotate down access refresh presented now) = true
leaves_pending env row (Call.register down token hostname now) = true
leaves_pending env row (Call.revoke down actor t h now) = true
leaves_pending env row (Call.purge down now) = leb now row.expires_at

-- The row is the one that a poll under the code finds.
abbrev pub IsPending : String → PendingDeviceRow → Db → Type 0
IsPending code row db = first_where (has_device code) db.pending_devices ≡ some row

module _ (code : String) (row : PendingDeviceRow) (same : row.device_code ≡ code) where
  abbrev pub IsWaiting : Db → Type 0
  IsWaiting db = IsPending code row db

  pub insert-IsWaiting :
      (down : Bool) (c user_code purpose : String) (expires_at : ℕ) (db : Db)
      → (row.device_code == c) ≡ false
      → IsWaiting db
      → IsWaiting (insert_pending_device_for_purpose down c user_code expires_at purpose db).1
  unfolding insert_pending_device_for_purpose
  insert-IsWaiting down c user_code purpose expires_at db apart h =
      let one = eq_iff c code in let two = eq_iff row.device_code c in ground arith

  pub delete-IsWaiting :
      (down : Bool) (c : String) (db : Db)
      → (row.device_code == c) ≡ false
      → IsWaiting db
      → IsWaiting (delete_pending_device down c db).1
  unfolding delete_pending_device
  delete-IsWaiting down c db apart h =
      let left =
        first-delete (has_device code) (λ r. r.device_code == c) db.pending_devices row h apart in
      ground arith

  pub consume-IsWaiting :
      (down : Bool) (c access refresh : String) (e re now : ℕ) (db : Db)
      → (row.device_code == c) ≡ false
      → IsWaiting db
      → IsWaiting (consume_pending_agent_and_insert_token down c access e refresh re now db).1
  unfolding consume_pending_agent_and_insert_token
  consume-IsWaiting down c access refresh e re now db apart h =
      let left =
        first-delete (has_device code) (is_ready c "agent" now) db.pending_devices row h
          (ground arith) in
      elim (Option-cases (first_where (is_ready c "agent" now) db.pending_devices)) [
        | inl nothing ↦ ground arith
        | inr (taken, found) ↦ ground arith
      ]

  pub consume_cli-IsWaiting :
      (down : Bool) (c actor : String) (now : ℕ) (db : Db)
      → (row.device_code == c) ≡ false
      → IsWaiting db
      → IsWaiting (consume_pending_cli_device down c actor now db).1
  unfolding consume_pending_cli_device
  consume_cli-IsWaiting down c actor now db apart h =
      let left =
        first-delete (has_device code) (is_ready_for c actor now) db.pending_devices row h
          (ground arith) in
      ground arith

  pub purge-IsWaiting :
      (down : Bool) (now : ℕ) (db : Db)
      → leb now row.expires_at ≡ true
      → IsWaiting db
      → IsWaiting (purge_expired_devices down now db).1
  unfolding purge_expired_devices
  purge-IsWaiting down now db in_time h =
      let left =
        first-delete (has_device code) (λ r. ltb r.expires_at now) db.pending_devices row h
          (ground arith) in
      ground arith

  pub approve_code-IsWaiting :
      (down : Bool) (user_code actor : String) (now : ℕ) (db : Db)
      → (row.user_code == user_code) ≡ false
      → IsWaiting db
      → IsWaiting (approve_user_code down user_code actor now db).1
  unfolding approve_user_code
  approve_code-IsWaiting down user_code actor now db apart h =
      let left =
        first-update (has_device code) (approvable user_code now) (approved_row actor)
          db.pending_devices row (λ r. refl) h in
      ground arith

  -- An entry of the audit log does not count.
  pub audited :
      (down : Bool) (ts : ℕ) (actor agent_id : Option String) (kind : String) (succeeded : Bool)
      (detail : Option String) (db : Db)
      → IsWaiting db
      → IsWaiting (record_audit down ts actor agent_id kind succeeded detail db)
  audited down ts actor agent_id kind succeeded detail db h =
      ap (first_where (has_device code))
        (audit-pending down ts actor agent_id kind succeeded detail db)
      ∙ h
