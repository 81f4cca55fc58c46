-- ===== src/Accounts/Recovery.antt =====
-- server/src/mfa.rs: what becomes of a recovery code that is used.
use shellfleet.Common.{
  bit, ℕ, ◌+◌, ◌*◌, ◌≡◌, refl, Bool, true, false, String, Option, none, some, List, [], ◌∷◌, arith,
  ◌==◌, string_eq, nat_eq, any, Bool-cases, inl, inr, count_where,
}
use shellfleet.Common.Result.{ok}
use shellfleet.Common.Table.{first_where, update_where}
use shellfleet.Accounts.{parse, UserRow}
use shellfleet.Accounts.Session.{AuthEnv, issue_jwt}
use shellfleet.Accounts.Users.{
  AccountsDb, is_login, record_audit, update_user_recovery_hashes, with_hashes,
}
use shellfleet.Accounts.Totp.{Primitives, verify_totp, hash_recovery}
use shellfleet.Accounts.Mfa.{
  Vault, MfaState, with_db, stored_hashes, without_first, burn, Verification, refused, verified,
  admitted, judged,
}

count-without :
    (target : String) (hashes : List String)
    → count_where (λ h. h == target) (without_first target hashes)
        + bit (any (λ h. h == target) hashes)
      ≡ count_where (λ h. h == target) hashes
unfolding without_first
count-without target [] = refl
count-without target (h ∷ hashes) = ground (arith, count-without target hashes)

-- The recovery codes of a user that a code is one of, as the row holds them.
abbrev pub uses_left : Primitives → Vault → String → Option UserRow → ℕ
uses_left prims vault entered none = 0
uses_left prims vault entered (some row) =
    count_where (λ h. h == hash_recovery prims entered)
      (stored_hashes vault row.totp_recovery_hashes)

abbrev pub row_of : String → AccountsDb → Option UserRow
row_of login db = first_where (is_login login) db.users

abbrev pub is_verified : Verification → Bool
is_verified (refused answer) = false
is_verified (verified token used) = true
is_verified Verification.development = false

first-update :
    (login hashes : String) (rows : List UserRow) (row : UserRow)
    → first_where (is_login login) rows ≡ some row
    → first_where (is_login login) (update_where (is_login login) (with_hashes hashes) rows)
      ≡ some (with_hashes hashes row)
first-update login hashes [] row found = cc
first-update login hashes (r ∷ rows) row found = elim (Bool-cases (is_login login r)) [
  | inl here ↦ ground arith
  | inr away ↦ ground (arith, first-update login hashes rows row)
]

admitted-users :
    (down : ℕ → Bool) (env : AuthEnv) (login : String) (row : UserRow) (used : Bool)
    (state : MfaState)
    → (admitted down env login row used state).1.db.users ≡ state.db.users
unfolding admitted record_audit
admitted-users down env login row used state = ground arith

-- The codes that are left of a row's, and their text.
abbrev pub left_of : Primitives → Vault → String → UserRow → List String
left_of prims vault entered row =
    without_first (hash_recovery prims entered) (stored_hashes vault row.totp_recovery_hashes)

burned :
    (prims : Primitives) (vault : Vault) (login entered sealed : String) (row : UserRow)
    (db : AccountsDb)
    → vault.encrypt (vault.to_json (left_of prims vault entered row)) ≡ ok sealed
    → vault.decrypt sealed ≡ some (vault.to_json (left_of prims vault entered row))
    → vault.from_json (vault.to_json (left_of prims vault entered row))
      ≡ some (left_of prims vault entered row)
    → row_of login db ≡ some row
    → any (λ h. h == hash_recovery prims entered) (stored_hashes vault row.totp_recovery_hashes)
      ≡ true
    → uses_left prims vault entered
          (row_of login (burn false vault login (left_of prims vault entered row) db))
        + 1
      ≡ uses_left prims vault entered (some row)
unfolding burn update_user_recovery_hashes stored_hashes
burned prims vault login entered sealed row db encrypted decrypted printed found there =
    let target : String = hash_recovery prims entered in
    let fewer = count-without target (stored_hashes vault row.totp_recovery_hashes) in
    let updated = first-update login sealed db.users row found in ground arith

-- A recovery code that lets a user in, where the row it is checked against is the user's and the codes
-- that are left can be encrypted and read back, is spent: while the statement that burns it works, it is
-- among the user's codes once less.
pub recovery_code_spent :
    (down : ℕ → Bool) (env : AuthEnv) (prims : Primitives) (vault : Vault) (login entered : String)
    (row : UserRow) (secret sealed : String) (state : MfaState)
    → vault.encrypt (vault.to_json (left_of prims vault entered row)) ≡ ok sealed
    → vault.decrypt sealed ≡ some (vault.to_json (left_of prims vault entered row))
    → vault.from_json (vault.to_json (left_of prims vault entered row))
      ≡ some (left_of prims vault entered row)
    → down 2 ≡ false
    → row_of login state.db ≡ some row
    → verify_totp prims secret entered env.now ≡ false
    → is_verified (judged down env prims vault login entered row secret state).0 ≡ true
    → uses_left prims vault entered
          (row_of login (judged down env prims vault login entered row secret state).1.db)
        + 1
      ≡ uses_left prims vault entered (some row)
unfolding judged
recovery_code_spent down env prims vault login entered row secret sealed state encrypted decrypted
      printed writes found other done =
    let there : any (λ h. h == hash_recovery prims entered)
          (stored_hashes vault row.totp_recovery_hashes)
        ≡ true =
      ground arith in
    let after : MfaState =
      with_db
        (burn (down 2) vault login
          (without_first (hash_recovery prims entered)
            (stored_hashes vault row.totp_recovery_hashes))
          state.db)
        state in
    let same = admitted-users down env login row true after in
    let spent =
      burned prims vault login entered sealed row state.db encrypted decrypted printed found
        there in
    ground arith

-- A recovery code that is right lets the user in even where the statement that burns it fails; it
-- then stays among the user's codes, to be used again.
recovery_code_kept :
    (down : ℕ → Bool) (env : AuthEnv) (prims : Primitives) (vault : Vault) (login entered : String)
    (row : UserRow) (secret token : String) (state : MfaState)
    → down 2 ≡ true
    → verify_totp prims secret entered env.now ≡ false
    → any (λ h. h == hash_recovery prims entered) (stored_hashes vault row.totp_recovery_hashes)
      ≡ true
    → issue_jwt env login (parse row.role) true (24 * 3600) ≡ ok token
    → ((judged down env prims vault login entered row secret state).0 ≡ verified token true)
      × ((judged down env prims vault login entered row secret state).1.db.users ≡ state.db.users)
unfolding judged burn update_user_recovery_hashes admitted record_audit
recovery_code_kept down env prims vault login entered row secret token state fails other there
      issued =
    (ground arith, ground arith)
