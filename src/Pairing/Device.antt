-- ===== src/Pairing/Device.antt =====
-- server/src/device_auth.rs: an agent asks for a code, a user approves it, and the agent polls for
-- its tokens and rotates them.
use Prim.Native.String.{◌++◌ as append}
use shellfleet.Common.{
  ℕ, ◌+◌, ◌*◌, Bool, true, false, not, String, Option, none, some, ◌==◌, string_eq, nat_eq,
  if◌then◌else◌, ltb,
}
use shellfleet.Common.Result.{Result, ok, err}
use shellfleet.Throttle.Lockout.{locked, clear, check, record_success, record_failure}
use shellfleet.Pairing.Rows.{PendingDeviceRow, Db, Answer, record_audit}
use shellfleet.Pairing.Tokens.{replace_token_on_refresh}
use shellfleet.Pairing.Pending.{
  insert_pending_device, pending_device, approve_user_code, delete_pending_device,
  consume_pending_agent_and_insert_token,
}
use shellfleet.Pairing.Handlers.{
  PairingState, with_db, with_throttle, Reply, reply, user_code_of, ui_url,
}

abbrev pub access_token_ttl_secs : ℕ
access_token_ttl_secs = 3600

abbrev pub refresh_token_ttl_secs : ℕ
refresh_token_ttl_secs = 30 * 86400

pub record DeviceAuthResponse : Type 0 where
  pub device_code : String
  pub user_code : String
  pub verification_uri : String
  pub expires_in : ℕ
  pub interval : ℕ

pub data DeviceTokenResponse : Type 0 where
  token :
      (access_token refresh_token token_type : String)
      → (expires_in refresh_expires_in : ℕ) → DeviceTokenResponse
  error : (error : String) → DeviceTokenResponse

abbrev bearer : String → String → DeviceTokenResponse
bearer access refresh = token access refresh "bearer" access_token_ttl_secs refresh_token_ttl_secs

unfoldable pub request_device_auth :
    (ℕ → Bool)
    → (String → String)
    → Option String
    → String
    → String
    → ℕ
    → PairingState
    → Result Reply DeviceAuthResponse × PairingState
request_device_auth down to_uppercase url device_code raw_user_code now state =
    let user_code : String = user_code_of to_uppercase raw_user_code in
    let (inserted, db) =
      insert_pending_device (down 0) device_code user_code (now + 300) state.db in
    elim inserted [
      | err e ↦ (err (reply 500 "db error"), with_db db state)
      | ok done ↦ (
        ok (record {
          device_code = device_code;
          user_code = user_code;
          verification_uri = append (ui_url url) "device";
          expires_in = 300;
          interval = 5;
        }),
        with_db db state,
      )
    ]

-- The exchange of an approved request, and what is answered of it.
unfoldable pub exchanged :
    (ℕ → Bool) → String → String → ℕ → Answer (Option PendingDeviceRow) → DeviceTokenResponse × Db
exchanged down access refresh now (err e, db) = (error "server_error", db)
exchanged down access refresh now (ok none, db) = (error "invalid_grant", db)
exchanged down access refresh now (ok (some consumed), db) = (
  bearer access refresh,
  record_audit (down 2) now none none "device.token.issued" true
      (some (append "user_code=" consumed.user_code)) db,
)

-- What becomes of the request that was found.
unfoldable pub polled :
    (ℕ → Bool) → String → String → ℕ → Option PendingDeviceRow → Db → DeviceTokenResponse × Db
unfolding exchanged
polled down access refresh now none db = (error "invalid_grant", db)
polled down access refresh now (some row) db =
    if not (row.purpose == "agent")
    then (error "invalid_grant", db)
    else (if ltb row.expires_at now
        then (error "expired_token", (delete_pending_device (down 1) row.device_code db).1)
        else (if row.approved == 0
            then (error "authorization_pending", db)
            else exchanged down access refresh now (
                consume_pending_agent_and_insert_token (down 1) row.device_code access
                  (now + access_token_ttl_secs) refresh (now + refresh_token_ttl_secs) now db)))

unfoldable pub poll_device_token :
    (ℕ → Bool) → String → String → String → ℕ → PairingState → DeviceTokenResponse × PairingState
unfolding polled
poll_device_token down access refresh device_code now state =
    let (row, db) = pending_device (down 0) device_code state.db in
    elim row [
      | err e ↦ (error "server_error", with_db db state)
      | ok found ↦ (
        (polled down access refresh now found db).0,
        with_db (polled down access refresh now found db).1 state,
      )
    ]

unfoldable pub rotated :
    (ℕ → Bool) → String → String → ℕ → Answer (Option String) → DeviceTokenResponse × Db
rotated down access refresh now (err e, db) = (error "server_error", db)
rotated down access refresh now (ok none, db) = (error "invalid_grant", db)
rotated down access refresh now (ok (some hostname), db) = (
  bearer access refresh,
  record_audit (down 1) now none none "device.token.refreshed" true none db,
)

unfoldable pub refresh_device_token :
    (ℕ → Bool) → String → String → String → ℕ → PairingState → DeviceTokenResponse × PairingState
unfolding rotated
refresh_device_token down access refresh presented now state =
    let (answer, db) = rotated down access refresh now (
      replace_token_on_refresh (down 0) presented access refresh (now + access_token_ttl_secs)
        (now + refresh_token_ttl_secs) now state.db) in
    (answer, with_db db state)

-- What the approval of a code answers and writes.
unfoldable pub judged :
    (ℕ → Bool) → String → String → ℕ → Answer Bool → PairingState → Reply × PairingState
judged down actor user_code now (err e, db) state = (reply 500 "db error", with_db db state)
judged down actor user_code now (ok true, db) state = (
  reply 200 "Approved",
  record {
    db =
        record_audit (down 1) now (some actor) none "device.approve" true
          (some (append "user_code=" user_code)) db;
    device_approve_throttle = record_success state.device_approve_throttle actor;
  },
)
judged down actor user_code now (ok false, db) state = (
  reply 400 "Invalid or expired code",
  record {
    db = record_audit (down 1) now (some actor) none "device.approve.fail" false none db;
    device_approve_throttle = record_failure state.device_approve_throttle actor now;
  },
)

-- The user is `auth::current_user`'s answer.
unfoldable pub approve_device :
    (ℕ → Bool)
    → (String → String)
    → Result Reply String
    → String
    → ℕ
    → PairingState
    → Reply × PairingState
unfolding judged
approve_device down to_uppercase (err refusal) code now state = (refusal, state)
approve_device down to_uppercase (ok actor) code now state =
    let (throttle, verdict) = check state.device_approve_throttle actor now in
    elim verdict [
      | locked retry_after_secs ↦ (
        record {
          status = 429;
          retry_after = some retry_after_secs;
          body = "too many failed attempts; try again later";
        },
        with_throttle throttle state,
      )
      | clear ↦
          judged down actor (to_uppercase code) now
            (approve_user_code (down 0) (to_uppercase code) actor now state.db)
            (with_throttle throttle state)
    ]
