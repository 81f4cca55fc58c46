-- ===== src/Pairing/Tests.antt =====
-- Pairings, rotations and revocations at concrete values.
use shellfleet.Common.{
  ltb, ◌&&◌, ◌≤◌, ◌≡◌, refl, true, false, String, none, some, List, [], ◌∷◌, arith, count_where,
  string_eq, nat_eq, ltb, ◌==◌, ◌&&◌,
}
use shellfleet.Common.Result.{ok}
use shellfleet.Accounts.{UserRow}
use shellfleet.Throttle.Lockout.{record_success, new, check, verdict}
use shellfleet.Common.Dict.{erase, lookup, retain}
use shellfleet.Pairing.Rows.{Db, record_audit}
use shellfleet.Pairing.Tokens.{
  revoke_token as delete_token, replace_token_on_refresh, token_exists, upsert_token_seen,
  issued_row,
}
use shellfleet.Pairing.Handlers.{PairingState}
use shellfleet.Pairing.Device.{
  approve_device, poll_device_token, request_device_auth, token, refresh_device_token,
}
use shellfleet.Pairing.Cli.{UrlCrate}
use shellfleet.Pairing.Revoke.{revoke_token}
use shellfleet.Pairing.Pending.{
  insert_pending_device, pending_device, approve_user_code, purge_expired_devices,
  consume_pending_agent_and_insert_token,
}
use shellfleet.Pairing.Calls.{Env, Call, run}
use shellfleet.Pairing.Budget.{
  redeems, requests, hands_out, approves, redeemed_once, approval_needed,
}
use shellfleet.Pairing.Rotation.{rotates, issues, rotated_once, tokens_approved}
use shellfleet.Pairing.Revocation.{revocation_lasts}
use shellfleet.Pairing.Completes.{up, approval, poll, pairing_completes}

abbrev no_rows : Db
no_rows = record { tokens = []; pending_devices = []; audit = [] }

abbrev fresh : PairingState
fresh = record { db = no_rows; device_approve_throttle = new }

abbrev texts : UrlCrate
texts = record {
  Url = String;
  parse_url = λ s. ok s;
  scheme = λ s. "https";
  set_scheme = λ scheme s. some s;
  set_path = λ path s. s;
  clear_query = λ s. s;
  clear_fragment = λ s. s;
  to_string = λ s. s;
}

abbrev env : Env
env = record { to_uppercase = λ s. s; trim_slashes = λ s. s; crate = texts; url = none }

abbrev ana : UserRow
ana = record {
  login = "ana";
  role = "admin";
  totp_enabled = 0;
  totp_secret = none;
  totp_recovery_hashes = "";
  created_at = 1;
  last_login_at = 1;
  session_epoch = 0;
}

-- Two pairings, one of them of a command line, each polled twice, and a rotation that is replayed.
abbrev calls : List Call
calls =
    Call.request_device up "code" "ABCDEFGH" 100
    ∷ Call.request_cli up "other" "IJKLMNOP" 100
    ∷ Call.poll_device up "early" "early" "code" 105
    ∷ Call.approve up (ok "ana") "ABCD-EFGH" 110
    ∷ Call.approve up (ok "ana") "IJKL-MNOP" 111
    ∷ Call.poll_device up "access" "refresh" "code" 115
    ∷ Call.poll_device up "access2" "refresh2" "code" 116
    ∷ Call.poll_cli up (λ login. ok (some ana)) (λ login role ttl. ok "jwt") "other" 117
    ∷ Call.poll_cli up (λ login. ok (some ana)) (λ login role ttl. ok "jwt") "other" 118
    ∷ Call.rotate up "access3" "refresh3" "refresh" 120
    ∷ Call.rotate up "access4" "refresh4" "refresh" 121
    ∷ Call.register up "access3" "host" 122
    ∷ []

redeemed_once_example :
    count_where (redeems "code") (run env calls fresh).0
    ≤ count_where (requests "code") (run env calls fresh).0
redeemed_once_example = redeemed_once env "code" calls fresh refl

approval_needed_example :
    count_where hands_out (run env calls fresh).0 ≤ count_where approves (run env calls fresh).0
approval_needed_example = approval_needed env calls fresh refl

rotated_once_example :
    count_where (rotates (λ presented. presented == "refresh")) (run env calls fresh).0
    ≤ count_where (issues (λ access issued. issued == "refresh")) (run env calls fresh).0
rotated_once_example = rotated_once env "refresh" calls fresh refl

tokens_approved_example :
    count_where (λ r. r.revoked == 0 && ltb 200 r.expires_at) (run env calls fresh).1.db.tokens
    ≤ count_where approves (run env calls fresh).0
tokens_approved_example = tokens_approved env calls fresh 200 refl refl

abbrev held : Db
held = record {
  tokens = issued_row (some "host") "access" "refresh" 3700 9000 100 ∷ [];
  pending_devices = [];
  audit = [];
}

abbrev paired : PairingState
paired = record { db = held; device_approve_throttle = new }

abbrev after_revocation : List Call
after_revocation =
    Call.register up "access" "host" 205 ∷ Call.rotate up "access3" "refresh3" "refresh" 210 ∷ []

revocation_lasts_example :
    token_exists false "access" 300
      (run env after_revocation
        (revoke_token up (some "ana") (some "access") none 200 paired).1).1.db
    ≡ false
unfolding revoke_token delete_token run refresh_device_token replace_token_on_refresh
    upsert_token_seen record_audit
revocation_lasts_example =
    revocation_lasts env up "ana" "access" none 200 paired after_revocation 300 refl refl

abbrev before : List Call
before = Call.request_device up "code2" "IJKLMNOP" 101 ∷ Call.purge up 120 ∷ []

abbrev between : List Call
between =
    Call.approve up (ok "bob") "IJKL-MNOP" 160
    ∷ Call.poll_device up "access2" "refresh2" "code2" 170
    ∷ []

abbrev after : List Call
after =
    Call.rotate up "access3" "refresh3" "refresh2" 210
    ∷ Call.revoke up (some "bob") (some "access3") none 220
    ∷ Call.register up "access" "host" 230
    ∷ []

pairing_completes_example :
    ((approval env fresh "code" "ABCDEFGH" "ana" "ABCD-EFGH" "access" "refresh" before between after
        100 150 200).0.status
      ≡ 200)
    × ((poll env fresh "code" "ABCDEFGH" "ana" "ABCD-EFGH" "access" "refresh" before between after
          100 150 200).0
        ≡ token "access" "refresh" "bearer" 3600 2592000)
    × (token_exists false "access" 1000
          (run env after
            (poll env fresh "code" "ABCDEFGH" "ana" "ABCD-EFGH" "access" "refresh" before between
              after 100 150 200).1).1.db
        ≡ true)
unfolding check verdict lookup retain run request_device_auth poll_device_token
    insert_pending_device pending_device approve_device approve_user_code purge_expired_devices
    record_success erase record_audit consume_pending_agent_and_insert_token
pairing_completes_example =
    pairing_completes env fresh "code" "ABCDEFGH" "ana" "ABCD-EFGH" "access" "refresh" before
      between after 100 150 200 refl refl refl refl refl refl refl (omega arith) (omega arith) 1000
      (omega arith)
