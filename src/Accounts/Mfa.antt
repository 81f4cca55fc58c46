-- ===== src/Accounts/Mfa.antt =====
-- server/src/mfa.rs: the question for a second factor. `down n` tells whether a handler's n-th
-- statement fails.
use shellfleet.Common.{
  ℕ, ◌*◌, Bool, true, false, String, Option, none, some, List, [], ◌∷◌, ◌==◌, string_eq, nat_eq,
  if◌then◌else◌, any,
}
use shellfleet.Common.Result.{Result, ok, err}
use shellfleet.Throttle.Lockout.{Throttle, locked, clear, check, record_failure, record_success}
use shellfleet.Accounts.{parse, UserRow, UserAnswer}
use shellfleet.Accounts.Session.{
  AuthEnv, Claims, Refusal, refusal, pending_mfa_user, issue_jwt, dev_mode,
}
use shellfleet.Accounts.Users.{AccountsDb, record_audit, get_user, update_user_recovery_hashes}
use shellfleet.Accounts.Totp.{Primitives, verify_totp, hash_recovery}

abbrev pub recovery_code_count : ℕ
recovery_code_count = 10

-- `crate::crypto`, and `serde_json` on lists of texts.
pub record Vault : Type 0 where
  pub encrypt : String → Result String String
  pub decrypt : String → Option String
  pub to_json : List String → String
  pub from_json : String → Option (List String)

pub record MfaState : Type 0 where
  pub db : AccountsDb
  pub mfa_throttle : Throttle
  pub mfa_disable_throttle : Throttle

abbrev pub with_db : AccountsDb → MfaState → MfaState
with_db db s = record {
  db = db;
  mfa_throttle = s.mfa_throttle;
  mfa_disable_throttle = s.mfa_disable_throttle;
}

abbrev with_mfa_throttle : Throttle → MfaState → MfaState
with_mfa_throttle t s = record {
  db = s.db;
  mfa_throttle = t;
  mfa_disable_throttle = s.mfa_disable_throttle;
}

abbrev pub with_disable_throttle : Throttle → MfaState → MfaState
with_disable_throttle t s = record {
  db = s.db;
  mfa_throttle = s.mfa_throttle;
  mfa_disable_throttle = t;
}

-- `unwrap_or_default()` of the stored list.
unfoldable pub stored_hashes : Vault → String → List String
stored_hashes vault ciphertext = elim (vault.decrypt ciphertext) [
  | none ↦ elim (vault.from_json "") [ none ↦ [] | some hashes ↦ hashes ]
  | some text ↦ elim (vault.from_json text) [ none ↦ [] | some hashes ↦ hashes ]
]

-- The list without the first hash that is the target.
unfoldable pub without_first : String → List String → List String
without_first target [] = []
without_first target (h ∷ hashes) = if h == target then hashes else h ∷ without_first target hashes

-- What goes wrong in burning a code is only logged.
unfoldable pub burn : Bool → Vault → String → List String → AccountsDb → AccountsDb
burn down vault login hashes db = elim (vault.encrypt (vault.to_json hashes)) [
  | err e ↦ db
  | ok ciphertext ↦ (update_user_recovery_hashes down login ciphertext db).1
]

pub data Verification : Type 0 where
  refused : (answer : Refusal) → Verification
  verified : (token : String) (used_recovery : Bool) → Verification
  development : Verification

-- The session of a user whose code was right.
unfoldable pub admitted :
    (ℕ → Bool) → AuthEnv → String → UserRow → Bool → MfaState → Verification × MfaState
admitted down env login row used_recovery state =
    let cleared : MfaState = with_mfa_throttle (record_success state.mfa_throttle login) state in
    elim (issue_jwt env login (parse row.role) true (24 * 3600)) [
      | err e ↦ (refused (refusal 500 "jwt error"), cleared)
      | ok token ↦ (
        verified token used_recovery,
        with_db
            (record_audit (down 3) env.now (some login)
              (if used_recovery then "auth.mfa.recovery" else "auth.mfa.ok") true none cleared.db)
            cleared,
      )
    ]

-- The code against the row's secret, and else against its recovery codes.
unfoldable pub judged :
    (ℕ → Bool)
    → AuthEnv
    → Primitives
    → Vault
    → String
    → String
    → UserRow
    → String
    → MfaState
    → Verification × MfaState
unfolding stored_hashes without_first burn admitted
judged down env prims vault login entered row secret state =
    let hashes : List String = stored_hashes vault row.totp_recovery_hashes in
    let target : String = hash_recovery prims entered in
    if verify_totp prims secret entered env.now
    then admitted down env login row false state
    else (if any (λ h. h == target) hashes
        then admitted down env login row true
            (with_db (burn (down 2) vault login (without_first target hashes) state.db) state)
        else (
          refused (refusal 401 "invalid code"),
          record {
            db = record_audit (down 3) env.now (some login) "auth.mfa.fail" false none state.db;
            mfa_throttle = record_failure state.mfa_throttle login env.now;
            mfa_disable_throttle = state.mfa_disable_throttle;
          },
        ))

abbrev pub opened : Vault → Option String → Option String
opened vault none = none
opened vault (some ciphertext) = vault.decrypt ciphertext

-- The row of a user who has enabled the second factor, with the secret that it holds.
unfoldable pub enrolled : Vault → UserAnswer → Option (UserRow × String)
enrolled vault (err e) = none
enrolled vault (ok none) = none
enrolled vault (ok (some row)) =
    if row.totp_enabled == 0
    then none
    else elim (opened vault row.totp_secret) [ none ↦ none | some secret ↦ some (row, secret) ]

unfoldable pub challenged :
    (ℕ → Bool)
    → AuthEnv
    → Primitives
    → Vault
    → String
    → String
    → Option (UserRow × String)
    → MfaState
    → Verification × MfaState
unfolding judged
challenged down env prims vault login entered none state =
    (refused (refusal 400 "totp not enabled"), state)
challenged down env prims vault login entered (some (row, secret)) state =
    judged down env prims vault login entered row secret state

-- The pending session is `auth::pending_mfa_user`'s answer. The text of the audit row of a lock is
-- an argument.
unfoldable pub verify_pending :
    (ℕ → Bool)
    → AuthEnv
    → Primitives
    → Vault
    → (ℕ → String)
    → Result Refusal Claims
    → String
    → MfaState
    → Verification × MfaState
unfolding challenged enrolled
verify_pending down env prims vault lock_text (err answer) entered state = (refused answer, state)
verify_pending down env prims vault lock_text (ok pending) entered state =
    let (throttle, verdict) = check state.mfa_throttle pending.sub env.now in
    let checked : MfaState = with_mfa_throttle throttle state in
    elim verdict [
      | locked secs ↦ (
        refused (refusal 429 "too many failed attempts; try again later"),
        with_db
            (record_audit (down 3) env.now (some pending.sub) "auth.mfa.locked" false
              (some (lock_text secs)) checked.db)
            checked,
      )
      | clear ↦
          challenged down env prims vault pending.sub entered
            (enrolled vault (get_user (down 1) pending.sub state.db)) checked
    ]

unfoldable pub verify_handler :
    (ℕ → Bool)
    → AuthEnv
    → Primitives
    → Vault
    → (ℕ → String)
    → Option String
    → String
    → MfaState
    → Verification × MfaState
unfolding verify_pending
verify_handler down env prims vault lock_text cookie entered state =
    if dev_mode env
    then (development, state)
    else verify_pending down env prims vault lock_text
        (pending_mfa_user env cookie (λ login. get_user (down 0) login state.db)) entered state
