-- ===== src/Accounts/Enrollment.antt =====
-- server/src/mfa.rs: the enrollment of a second factor, and its removal. `down n` tells whether a
-- handler's n-th statement fails.
use shellfleet.Common.{
  ℕ, Bool, true, not, String, Option, none, some, List, ◌==◌, string_eq, nat_eq, if◌then◌else◌,
  length, map,
}
use shellfleet.Common.Result.{ok, err}
use shellfleet.Throttle.Lockout.{locked, clear, check, record_failure, record_success}
use shellfleet.Accounts.{UserRow, UserAnswer}
use shellfleet.Accounts.Session.{AuthEnv, Refusal, refusal, current_user}
use shellfleet.Accounts.Users.{
  record_audit, get_user, set_user_totp, clear_user_totp, bump_session_epoch,
}
use shellfleet.Accounts.Totp.{Primitives, verify_totp, hash_recovery}
use shellfleet.Accounts.Mfa.{
  recovery_code_count, Vault, MfaState, with_db, with_disable_throttle, opened,
}

-- The enrollment, with the secret and the recovery codes that the request brings along.
unfoldable pub confirmed :
    (ℕ → Bool)
    → AuthEnv
    → Primitives
    → Vault
    → String
    → String
    → String
    → List String
    → MfaState
    → Refusal × MfaState
confirmed down env prims vault login secret entered recovery_codes state =
    if not (verify_totp prims secret entered env.now)
    then (refusal 400 "invalid code", state)
    else (if not (length recovery_codes == recovery_code_count)
        then (refusal 400 "wrong recovery code count", state)
        else elim (vault.encrypt secret) [
          | err e ↦ (refusal 500 "credential encryption unavailable", state)
          | ok sealed ↦
              elim (vault.encrypt (vault.to_json (map (hash_recovery prims) recovery_codes))) [
                | err e ↦ (refusal 500 "credential encryption unavailable", state)
                | ok hashes ↦
                    let (answer, db) = set_user_totp (down 1) login sealed hashes state.db in
                    elim answer [
                      | err e ↦ (refusal 500 "db error", with_db db state)
                      | ok done ↦ (
                        refusal 200 "ok",
                        with_db
                            (record_audit (down 2) env.now (some login) "auth.mfa.enabled" true none
                              db)
                            state,
                      )
                    ]
              ]
        ])

unfoldable pub confirm_handler :
    (ℕ → Bool)
    → AuthEnv
    → Primitives
    → Vault
    → Option String
    → String
    → String
    → List String
    → MfaState
    → Refusal × MfaState
unfolding confirmed
confirm_handler down env prims vault cookie secret entered recovery_codes state =
    elim (current_user env cookie (λ login. get_user (down 0) login state.db)) [
      | err answer ↦ (answer, state)
      | ok claims ↦ confirmed down env prims vault claims.sub secret entered recovery_codes state
    ]

-- The removal of the second factor by a user whose code was right, which ends the user's sessions.
unfoldable pub disabled : (ℕ → Bool) → AuthEnv → String → MfaState → Refusal × MfaState
disabled down env login state =
    let cleared : MfaState =
      with_disable_throttle (record_success state.mfa_disable_throttle login) state in
    let (answer, db) = clear_user_totp (down 2) login state.db in
    elim answer [
      | err e ↦ (refusal 500 "db error", with_db db cleared)
      | ok done ↦ (
        refusal 200 "ok",
        with_db
            (record_audit (down 4) env.now (some login) "auth.mfa.disabled" true none
              (bump_session_epoch (down 3) login env.now db).1)
            cleared,
      )
    ]

unfoldable pub disable_asked :
    (ℕ → Bool)
    → AuthEnv
    → Primitives
    → Vault
    → UserRow
    → String
    → String
    → MfaState
    → Refusal × MfaState
unfolding disabled
disable_asked down env prims vault row login entered state =
    let (throttle, verdict) = check state.mfa_disable_throttle login env.now in
    let checked : MfaState = with_disable_throttle throttle state in
    elim verdict [
      | locked secs ↦ (refusal 429 "too many failed attempts; try again later", checked)
      | clear ↦ elim (opened vault row.totp_secret) [
        | none ↦ (refusal 400 "totp not enabled", checked)
        | some secret ↦
            if verify_totp prims secret entered env.now then disabled down env login checked else (
              refusal 401 "invalid code",
              with_disable_throttle (record_failure checked.mfa_disable_throttle login env.now)
                  checked,
            )
      ]
    ]

abbrev row_of : UserAnswer → Option UserRow
row_of (err e) = none
row_of (ok found) = found

unfoldable pub disable_handler :
    (ℕ → Bool)
    → AuthEnv
    → Primitives
    → Vault
    → Option String
    → String
    → MfaState
    → Refusal × MfaState
unfolding disable_asked
disable_handler down env prims vault cookie entered state =
    elim (current_user env cookie (λ login. get_user (down 0) login state.db)) [
      | err answer ↦ (answer, state)
      | ok claims ↦ elim (row_of (get_user (down 1) claims.sub state.db)) [
        | none ↦ (refusal 404 "no such user", state)
        | some row ↦
            if row.totp_enabled == 0
            then (refusal 200 "already disabled", state)
            else disable_asked down env prims vault row claims.sub entered state
      ]
    ]
