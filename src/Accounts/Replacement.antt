-- ===== src/Accounts/Replacement.antt =====
-- server/src/mfa.rs: when an enrollment goes through, and what it replaces.
use shellfleet.Common.{
  ℕ, ◌≡◌, ap, ◌∙◌, ◌↔◌, ◌⊎◌, Bool, false, String, Option, none, some, List, [], ◌∷◌, arith, ◌==◌,
  string_eq, nat_eq, eq_iff, length, map, if◌then◌else◌, Bool-cases, inl, inr,
}
use shellfleet.Common.Result.{ok, Result-cases}
use shellfleet.Common.Table.{first_where, update_where}
use shellfleet.Accounts.{UserRow}
use shellfleet.Accounts.Session.{AuthEnv}
use shellfleet.Accounts.Users.{is_login, with_totp, set_user_totp, record_audit}
use shellfleet.Accounts.Totp.{Primitives, verify_totp, hash_recovery}
use shellfleet.Accounts.Mfa.{Vault, MfaState, recovery_code_count}
use shellfleet.Accounts.Enrollment.{confirmed}
use shellfleet.Accounts.SecondFactor.{IsCode, verify_totp_iff}
use shellfleet.Accounts.Recovery.{row_of}

abbrev pub enrolled_row : String → String → Option UserRow → Option UserRow
enrolled_row secret hashes none = none
enrolled_row secret hashes (some row) = some (with_totp 1 (some secret) hashes row)

first-totp :
    (login other secret hashes : String) (rows : List UserRow)
    → first_where
        (is_login other)
        (update_where (is_login login) (with_totp 1 (some secret) hashes) rows)
      ≡ (if login == other
          then enrolled_row secret hashes (first_where (is_login other) rows)
          else first_where (is_login other) rows)
first-totp login other secret hashes [] = ground arith
first-totp login other secret hashes (r ∷ rows) =
    let rest = first-totp login other secret hashes rows in
    let here = eq_iff r.login login in
    let there = eq_iff r.login other in let one = eq_iff login other in ground arith

-- What an enrollment that goes through has shown, and the stored forms of the secret and the codes.
pub record IsEnrolled (down : ℕ → Bool) (env : AuthEnv) (prims : Primitives) (vault : Vault)
    (secret entered : String) (recovery_codes : List String) : Type 0 where
  pub sealed : String
  pub sealed_hashes : String
  pub fits : IsCode prims secret entered env.now
  pub ten : length recovery_codes ≡ 10
  pub kept : vault.encrypt secret ≡ ok sealed
  pub kept_hashes :
      vault.encrypt (vault.to_json (map (hash_recovery prims) recovery_codes)) ≡ ok sealed_hashes
  pub written : down 1 ≡ false

module _ (down : ℕ → Bool) (env : AuthEnv) (prims : Primitives) (vault : Vault)
    (login secret entered : String) (recovery_codes : List String) (state : MfaState) where
  abbrev pub done : MfaState
  done = (confirmed down env prims vault login secret entered recovery_codes state).1

  abbrev pub status : ℕ
  status = (confirmed down env prims vault login secret entered recovery_codes state).0.status

  confirmed_complete :
      (e : IsEnrolled down env prims vault secret entered recovery_codes)
      → (status ≡ 200)
        × (done.db.users
            ≡ update_where
                (is_login login)
                (with_totp 1 (some e.sealed) e.sealed_hashes)
                state.db.users)
  unfolding confirmed set_user_totp record_audit
  confirmed_complete e =
      let fits = (verify_totp_iff prims secret entered env.now).1 e.fits in
      let ten = e.ten in
      let kept = e.kept in
      let kept_hashes = e.kept_hashes in let written = e.written in (ground arith, ground arith)

  confirmed_sound :
      IsEnrolled down env prims vault secret entered recovery_codes
      ⊎ (((status == 200) ≡ false) × (done.db.users ≡ state.db.users))
  unfolding confirmed set_user_totp record_audit
  confirmed_sound = elim (Bool-cases (verify_totp prims secret entered env.now)) [
    | inr unfit ↦ inr (ground arith)
    | inl fits ↦ elim (Bool-cases (length recovery_codes == recovery_code_count)) [
      | inr other ↦ inr (ground arith)
      | inl ten ↦ elim (Result-cases (vault.encrypt secret)) [
        | inr (e, failed) ↦ inr (ground arith)
        | inl (sealed, kept) ↦
            elim (Result-cases
              (vault.encrypt (vault.to_json (map (hash_recovery prims) recovery_codes)))) [
                | inr (e, failed) ↦ inr (ground arith)
                | inl (hashes, kept_hashes) ↦ elim (Bool-cases (down 1)) [
                  | inl fails ↦ inr (ground arith)
                  | inr written ↦ inl (record {
                    sealed = sealed;
                    sealed_hashes = hashes;
                    fits = (verify_totp_iff prims secret entered env.now).0 fits;
                    ten = ground arith;
                    kept = kept;
                    kept_hashes = kept_hashes;
                    written = written;
                  })
                ]
              ]
      ]
    ]
  ]

  -- A signed-in user's enrollment is answered with 200 exactly if the code fits the secret that the
  -- same request brings, there are ten recovery codes, both the secret and the codes' hashes can be
  -- encrypted, and the statement works; the row of the user, whatever second factor it had, then has
  -- this secret and these codes, enabled, and every other login's row is as before. Answered
  -- otherwise, it changes no row of a user.
  pub enrollment_replaces :
      ((status ≡ 200) ↔ (
        (e : IsEnrolled down env prims vault secret entered recovery_codes) × ((other : String)
          → row_of other done.db ≡ (
              if login == other
              then enrolled_row e.sealed e.sealed_hashes (row_of other state.db)
              else row_of other state.db))))
      × ((status ≡ 200) ⊎ (done.db.users ≡ state.db.users))
  enrollment_replaces = elim confirmed_sound [
    | inl e ↦
        let (answered, users) = confirmed_complete e in
        (
          (
            λ h. (
              e,
              λ other.
                  ap (first_where (is_login other)) users
                  ∙ first-totp login other e.sealed e.sealed_hashes state.db.users,
            ),
            λ x. answered,
          ),
          inl answered,
        )
    | inr (refused, same) ↦ ((λ h. ground arith, λ (e, effect). (confirmed_complete e).0), inr same)
  ]
