-- ===== src/Accounts/Tests.antt =====
-- Sessions, seats, admins and second factors at concrete values.
use shellfleet.Common.{
  ◌⊎◌, suc, ℕ, ◌+◌, ◌≤◌, ◌≡◌, ◌↔◌, max, refl, Bool, true, false, String, none, some, List, [], ◌∷◌,
  arith, length, string_eq, nat_eq, if◌then◌else◌, suc, zero, eq_iff, Bool-cases, inl, inr, ◌==◌,
}
use shellfleet.Common.Result.{ok}
use shellfleet.Throttle.Lockout.{new}
use shellfleet.Accounts.{UserRow, UserAnswer, parse}
use shellfleet.Accounts.Session.{
  issue_jwt, is_user_allowed, AuthEnv, Claims, current_user, dev_mode, with_role,
}
use shellfleet.Accounts.SessionKinds.{IsCurrent, current_user_iff, kinds, one_kind, is_ok}
use shellfleet.Accounts.Users.{upsert_login_with_seat_check, AccountsDb}
use shellfleet.Accounts.LastAdmin.{
  IsGoverned, AdminCall, set_role, remove, administer, administer-IsGoverned,
}
use shellfleet.Accounts.Login.{SignedIn, sign_in}
use shellfleet.Accounts.Seats.{sign_in-seats, second_factor_needed}
use shellfleet.Accounts.Totp.{hash_recovery, Primitives, verify_totp}
use shellfleet.Accounts.Mfa.{without_first, stored_hashes, Vault, MfaState, judged}
use shellfleet.Accounts.SecondFactor.{IsCode, verify_totp_iff}
use shellfleet.Accounts.Recovery.{uses_left, row_of, recovery_code_spent}
use shellfleet.Accounts.Replacement.{IsEnrolled, done, status, enrolled_row, enrollment_replaces}

abbrev up : ℕ → Bool
up n = false

abbrev browser_claims : Claims
browser_claims = record {
  sub = "ana";
  exp = 9000;
  iat = 100;
  role = "admin";
  mfa = true;
  cli = false;
}

abbrev waiting : Claims
waiting = record { sub = "ana"; exp = 800; iat = 200; role = "viewer"; mfa = false; cli = false }

abbrev env : AuthEnv
env = record {
  jwt_secret = "0123456789abcdef0123456789abcdef";
  dev_flag = "";
  allowed_users = "ana" ∷ "bob" ∷ [];
  now = 200;
  encode = λ c. ok "pending";
  decode = λ t. if t == "full" then some browser_claims else some waiting;
}

abbrev ana : UserRow
ana = record {
  login = "ana";
  role = "viewer";
  totp_enabled = 1;
  totp_secret = some "SECRET";
  totp_recovery_hashes = "hash";
  created_at = 1;
  last_login_at = 1;
  session_epoch = 50;
}

abbrev people : String → UserAnswer
people login = ok (some ana)

current_user_iff_example :
    (current_user env (some "full") people ≡ ok (with_role "viewer" browser_claims))
    ↔ IsCurrent env (some "full") people (with_role "viewer" browser_claims)
unfolding dev_mode
current_user_iff_example =
    current_user_iff env (some "full") people (with_role "viewer" browser_claims) refl

one_kind_example : kinds env "full" people people people ≤ 1
unfolding dev_mode
one_kind_example = one_kind env "full" people people people refl

abbrev bob : UserRow
bob = record {
  login = "bob";
  role = "admin";
  totp_enabled = 0;
  totp_secret = none;
  totp_recovery_hashes = "[]";
  created_at = 1;
  last_login_at = 1;
  session_epoch = 0;
}

abbrev table : AccountsDb
table = record { users = ana ∷ bob ∷ []; invites = []; audit = [] }

table-IsGoverned : IsGoverned table
table-IsGoverned = record {
  governed = omega arith;
  unique = λ login. elim (Bool-cases ("ana" == login)) [
    | inl here ↦
        let same : "ana" ≡ login = (eq_iff "ana" login).0 here in
        let away : ("bob" == login) ≡ false = rw⁻¹ same refl in ground arith
    | inr away ↦ ground arith
  ];
}

abbrev changes : List AdminCall
changes =
    set_role up (ok browser_claims) "ana" "admin" 300
    ∷ set_role up (ok browser_claims) "bob" "viewer" 301
    ∷ remove up (ok browser_claims) "ana" 302
    ∷ []

administer-IsGoverned_example : IsGoverned (administer changes table)
administer-IsGoverned_example =
    administer-IsGoverned changes table table-IsGoverned (refl, (refl, (refl, tt)))

sign_in-seats_example : length (sign_in up env none 3 "3" none "ana" table).1.users ≤ max 2 3
sign_in-seats_example = sign_in-seats up env none 3 "3" none "ana" table

abbrev pending : SignedIn
pending = record { token = "pending"; redirect_path = "mfa" }

second_factor_needed_example : is_ok (current_user env (some "pending") people) ≡ false
unfolding dev_mode sign_in parse is_user_allowed upsert_login_with_seat_check issue_jwt
second_factor_needed_example =
    second_factor_needed up env none 3 "3" none "ana" table ana pending people
      (λ t h. let same : "pending" ≡ t = ground arith in rw⁻¹ same refl) refl refl refl refl

abbrev blind : ℕ → Bool
blind zero = true
blind (suc n) = false

abbrev only_bob : AccountsDb
only_bob = record { users = bob ∷ []; invites = []; audit = [] }

-- A mock of the libraries that gives the code 000000 at every step.
abbrev mock : Primitives
mock = record {
  base32_decode = λ codes. some codes;
  hmac_sha1 = λ key message. [];
  sha256_hex = λ codes. "hash";
}

verify_totp_iff_example :
    (verify_totp mock "SECRET" " 000000 " 200 ≡ true) ↔ IsCode mock "SECRET" " 000000 " 200
verify_totp_iff_example = verify_totp_iff mock "SECRET" " 000000 " 200

abbrev one_code : List String → String
one_code [] = "none"
one_code (h ∷ hashes) = "hash"

abbrev vault : Vault
vault = record {
  encrypt = λ text. ok text;
  decrypt = λ text. some text;
  to_json = one_code;
  from_json = λ text. if text == "hash" then some ("hash" ∷ []) else some [];
}

abbrev state : MfaState
state = record { db = table; mfa_throttle = new; mfa_disable_throttle = new }

recovery_code_spent_example :
    uses_left mock vault "ABCD-EFGH"
        (row_of "ana" (judged up env mock vault "ana" "ABCD-EFGH" ana "SECRET" state).1.db)
      + 1
    ≡ uses_left mock vault "ABCD-EFGH" (some ana)
unfolding without_first stored_hashes hash_recovery verify_totp judged issue_jwt
recovery_code_spent_example =
    recovery_code_spent up env mock vault "ana" "ABCD-EFGH" ana "SECRET" "none" state refl refl refl
      refl refl refl refl

abbrev ten : List String
ten = "a" ∷ "b" ∷ "c" ∷ "d" ∷ "e" ∷ "f" ∷ "g" ∷ "h" ∷ "i" ∷ "j" ∷ []

enrollment_replaces_example :
    ((status up env mock vault "ana" "OTHER" "000000" ten state ≡ 200) ↔ (
      (e : IsEnrolled up env mock vault "OTHER" "000000" ten) × ((other : String)
        → row_of other (done up env mock vault "ana" "OTHER" "000000" ten state).db ≡ (
            if "ana" == other
            then enrolled_row e.sealed e.sealed_hashes (row_of other table)
            else row_of other table))))
    × ((status up env mock vault "ana" "OTHER" "000000" ten state ≡ 200)
        ⊎ ((done up env mock vault "ana" "OTHER" "000000" ten state).db.users ≡ table.users))
enrollment_replaces_example = enrollment_replaces up env mock vault "ana" "OTHER" "000000" ten state
