-- ===== src/Pairing/TokensKept.antt =====
-- server/src/device_auth.rs and cli_auth.rs: the handlers that leave the table `tokens` alone.
use shellfleet.Common.{
  ℕ, ◌+◌, ◌≡◌, refl, ◌∙◌, Bool, true, false, String, Option, none, some, arith, ◌==◌, string_eq,
  nat_eq, Option-cases, inl, inr,
}
use shellfleet.Common.Result.{ok, err, Result}
use shellfleet.Common.Table.{first_where}
use shellfleet.Throttle.Lockout.{check}
use shellfleet.Accounts.{Role, UserAnswer, parse}
use shellfleet.Pairing.Rows.{PendingDeviceRow, Db, Answer}
use shellfleet.Pairing.Pending.{
  insert_pending_device, insert_pending_device_for_purpose, approve_user_code,
  delete_pending_device, consume_pending_cli_device, purge_expired_devices, pending_device,
}
use shellfleet.Pairing.Handlers.{PairingState, with_throttle, Reply, user_code_of}
use shellfleet.Pairing.Device.{request_device_auth, judged, approve_device}
use shellfleet.Pairing.Cli.{
  UrlCrate, request_cli_auth, request_ttl_secs, consumed, authorized, authorized_by, polled,
  poll_cli_token,
}
use shellfleet.Pairing.Polls.{audit-tokens}

insert_for-kept :
    (down : Bool) (code user_code purpose : String) (expires_at : ℕ) (db : Db)
    → (insert_pending_device_for_purpose down code user_code expires_at purpose db).1.tokens
      ≡ db.tokens
unfolding insert_pending_device_for_purpose
insert_for-kept down code user_code purpose expires_at db = ground arith

pub request_device-kept :
    (down : ℕ → Bool) (to_uppercase : String → String) (url : Option String) (code raw : String)
    (now : ℕ) (state : PairingState)
    → (request_device_auth down to_uppercase url code raw now state).1.db.tokens ≡ state.db.tokens
unfolding request_device_auth insert_pending_device
request_device-kept down to_uppercase url code raw now state =
    let same =
      insert_for-kept (down 0) code (user_code_of to_uppercase raw) "agent" (now + 300) state.db in
    ground arith

pub delete-kept :
    (down : Bool) (code : String) (db : Db)
    → (delete_pending_device down code db).1.tokens ≡ db.tokens
unfolding delete_pending_device
delete-kept down code db = ground arith

pub purge-kept :
    (down : Bool) (now : ℕ) (db : Db) → (purge_expired_devices down now db).1.tokens ≡ db.tokens
unfolding purge_expired_devices
purge-kept down now db = ground arith

pub request_cli-kept :
    (down : ℕ → Bool) (to_uppercase trim_slashes : String → String) (crate : UrlCrate)
    (url : Option String) (code raw : String) (now : ℕ) (state : PairingState)
    → (request_cli_auth down to_uppercase trim_slashes crate url code raw now state).1.db.tokens
      ≡ state.db.tokens
unfolding request_cli_auth
request_cli-kept down to_uppercase trim_slashes crate url code raw now state =
    let asked : Answer (Unit {0}) =
      insert_pending_device_for_purpose (down 0) code (user_code_of to_uppercase raw)
        (now + request_ttl_secs) "cli" state.db in
    let same =
      insert_for-kept (down 0) code (user_code_of to_uppercase raw) "cli" (now + request_ttl_secs)
        state.db in
    let still = delete-kept (down 1) code asked.1 in ground arith

approve_code-kept :
    (down : Bool) (user_code actor : String) (now : ℕ) (db : Db)
    → (approve_user_code down user_code actor now db).1.tokens ≡ db.tokens
unfolding approve_user_code
approve_code-kept down user_code actor now db = ground arith

judged-kept :
    (down : ℕ → Bool) (actor user_code : String) (now : ℕ) (answer : Answer Bool)
    (state : PairingState)
    → (judged down actor user_code now answer state).1.db.tokens ≡ answer.1.tokens
unfolding judged
judged-kept down actor user_code now (err e, db) state = refl
judged-kept down actor user_code now (ok true, db) state = audit-tokens _ _ _ _ _ _ _ db
judged-kept down actor user_code now (ok false, db) state = audit-tokens _ _ _ _ _ _ _ db

pub approve-kept :
    (down : ℕ → Bool) (to_uppercase : String → String) (user : Result Reply String) (code : String)
    (now : ℕ) (state : PairingState)
    → (approve_device down to_uppercase user code now state).1.db.tokens ≡ state.db.tokens
unfolding approve_device
approve-kept down to_uppercase (err refusal) code now state = refl
approve-kept down to_uppercase (ok actor) code now state =
    let same =
      judged-kept down actor (to_uppercase code) now
        (approve_user_code (down 0) (to_uppercase code) actor now state.db)
        (with_throttle (check state.device_approve_throttle actor now).0 state) in
    let still = approve_code-kept (down 0) (to_uppercase code) actor now state.db in ground arith

consume_cli-kept :
    (down : Bool) (code actor : String) (now : ℕ) (db : Db)
    → (consume_pending_cli_device down code actor now db).1.tokens ≡ db.tokens
unfolding consume_pending_cli_device
consume_cli-kept down code actor now db = ground arith

consumed-kept :
    (down : ℕ → Bool) (issue_cli_jwt : String → Role → ℕ → Result String String) (actor : String)
    (role : Role) (now : ℕ) (answer : Answer Bool)
    → (consumed down issue_cli_jwt actor role now answer).1.tokens ≡ answer.1.tokens
unfolding consumed
consumed-kept down issue_cli_jwt actor role now (err e, db) = refl
consumed-kept down issue_cli_jwt actor role now (ok false, db) = refl
consumed-kept down issue_cli_jwt actor role now (ok true, db) =
    let same = audit-tokens (down 2) now (some actor) none "cli.device.token.issued" true none db in
    ground arith

authorized-kept :
    (down : ℕ → Bool) (issue_cli_jwt : String → Role → ℕ → Result String String)
    (code actor : String) (now : ℕ) (user : UserAnswer) (db : Db)
    → (authorized down issue_cli_jwt code actor now user db).1.tokens ≡ db.tokens
unfolding authorized
authorized-kept down issue_cli_jwt code actor now (err e) db = refl
authorized-kept down issue_cli_jwt code actor now (ok none) db = refl
authorized-kept down issue_cli_jwt code actor now (ok (some user)) db =
    consumed-kept down issue_cli_jwt actor (parse user.role) now
      (consume_pending_cli_device (down 1) code actor now db)
    ∙ consume_cli-kept (down 1) code actor now db

polled-kept :
    (down : ℕ → Bool) (get_user : String → UserAnswer)
    (issue_cli_jwt : String → Role → ℕ → Result String String) (now : ℕ)
    (found : Option PendingDeviceRow) (db : Db)
    → (polled down get_user issue_cli_jwt now found db).1.tokens ≡ db.tokens
unfolding polled authorized_by
polled-kept down get_user issue_cli_jwt now none db = refl
polled-kept down get_user issue_cli_jwt now (some row) db =
    let still = delete-kept (down 1) row.device_code db in
    elim (Option-cases row.approved_by) [
      | inl nobody ↦ ground arith
      | inr (actor, by) ↦
          let left =
            authorized-kept down issue_cli_jwt row.device_code actor now (get_user actor) db in
          ground arith
    ]

pub poll_cli-kept :
    (down : ℕ → Bool) (get_user : String → UserAnswer)
    (issue_cli_jwt : String → Role → ℕ → Result String String) (code : String) (now : ℕ)
    (state : PairingState)
    → (poll_cli_token down get_user issue_cli_jwt code now state).1.db.tokens ≡ state.db.tokens
unfolding poll_cli_token pending_device
poll_cli-kept down get_user issue_cli_jwt code now state =
    let inner =
      polled-kept down get_user issue_cli_jwt now
        (first_where (λ r. r.device_code == code) state.db.pending_devices) state.db in
    ground arith
