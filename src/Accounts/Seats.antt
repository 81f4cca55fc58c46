-- ===== src/Accounts/Seats.antt =====
-- server/src/auth.rs and db.rs: the seats that sign-ins take, the roles they give, and the second
-- factor that they leave to be asked for.
use shellfleet.Common.{
  ℕ, ◌+◌, ◌≤◌, ◌≡◌, max, refl, ap, Bool, false, String, Option, none, some, arith, ◌==◌, string_eq,
  nat_eq, length, Option-cases, inl, inr,
}
use shellfleet.Common.Result.{ok, err, Result-cases}
use shellfleet.Common.Table.{first_where, length-update}
use shellfleet.Accounts.{parse, as_str, UserRow, UserAnswer}
use shellfleet.Accounts.Session.{
  AuthEnv, Claims, issue_jwt, issue_jwt_with_kind, dev_mode, claims_from_token, current_user,
  live_user, mfa_pending_ttl_secs,
}
use shellfleet.Accounts.SessionKinds.{is_ok, live_current}
use shellfleet.Accounts.Users.{
  AccountsDb, Stored, record_audit, is_login, SeatedUpsert, existing, created, seat_cap_reached,
  with_login, count_users, redeem_invite, upsert_login_with_seat_check,
}
use shellfleet.Accounts.Login.{
  SignedIn, default_role, invite_role, redeemed, signed_in, seated, sign_in,
}

redeemed-users :
    (down : ℕ → Bool) (code : Option String) (login : String) (now : ℕ) (db : AccountsDb)
    → (redeemed down code login now db).users ≡ db.users
unfolding redeemed redeem_invite record_audit
redeemed-users down none login now db = refl
redeemed-users down (some code) login now db = ground arith

signed_in-users :
    (down : ℕ → Bool) (env : AuthEnv) (code : Option String) (login : String) (row : UserRow)
    (db : AccountsDb)
    → (signed_in down env code login row db).1.users ≡ db.users
unfolding signed_in record_audit
signed_in-users down env code login row db =
    let same = redeemed-users down code login env.now db in ground arith

seated-users :
    (down : ℕ → Bool) (env : AuthEnv) (limit : String) (code : Option String) (login : String)
    (answer : Stored SeatedUpsert)
    → (seated down env limit code login answer).1.users ≡ answer.1.users
unfolding seated record_audit
seated-users down env limit code login (err e, db) = refl
seated-users down env limit code login (ok (existing row), db) =
    signed_in-users down env code login row db
seated-users down env limit code login (ok (created row), db) =
    signed_in-users down env code login row db
seated-users down env limit code login (ok seat_cap_reached, db) = refl

upsert-seats :
    (down : Bool) (login role : String) (now cap : ℕ) (db : AccountsDb)
    → length (upsert_login_with_seat_check down login role now cap db).1.users
      ≤ max (length db.users) cap
unfolding upsert_login_with_seat_check
upsert-seats down login role now cap db =
    let same = length-update (is_login login) (with_login now) db.users in
    elim (Option-cases (first_where (is_login login) db.users)) [
      | inl nothing ↦ ground arith
      | inr (row, found) ↦ ground arith
    ]

-- A sign-in never takes the number of users above the seat cap, or above what it was where the cap
-- has been lowered since, whichever of its statements fail.
pub sign_in-seats :
    (down : ℕ → Bool) (env : AuthEnv) (bootstrap : Option String) (cap : ℕ) (limit : String)
    (code : Option String) (login : String) (db : AccountsDb)
    → length (sign_in down env bootstrap cap limit code login db).1.users
      ≤ max (length db.users) cap
unfolding sign_in
sign_in-seats down env bootstrap cap limit code login db =
    let role : String =
      default_role (count_users (down 0) db) bootstrap (invite_role (down 1) code env.now db)
        login in
    let answer : Stored SeatedUpsert =
      upsert_login_with_seat_check (down 2) login role env.now cap db in
    let same = ap length (seated-users down env limit code login answer) in
    let few = upsert-seats (down 2) login role env.now cap db in ground arith

-- The claims of a session that waits for the second factor.
abbrev pub pending_claims : AuthEnv → String → UserRow → Claims
pending_claims env login row = record {
  sub = login;
  exp = env.now + mfa_pending_ttl_secs;
  iat = env.now;
  role = as_str (parse row.role);
  mfa = false;
  cli = false;
}

-- The claims of the token that a sign-in issues.
signed_in-pending :
    (down : ℕ → Bool) (env : AuthEnv) (code : Option String) (login : String) (row : UserRow)
    (db : AccountsDb) (done : SignedIn)
    → ((t : String)
        → env.encode (pending_claims env login row) ≡ ok t
        → env.decode t ≡ some (pending_claims env login row))
    → (row.totp_enabled == 0) ≡ false
    → (signed_in down env code login row db).0 ≡ ok done
    → (c : Claims) × (env.decode done.token ≡ some c) × (c.mfa ≡ false)
unfolding signed_in issue_jwt issue_jwt_with_kind
signed_in-pending down env code login row db done law enabled h =
    let c : Claims = pending_claims env login row in
    elim (Result-cases (env.encode c)) [
      | inl (t, issued) ↦
          let same : t ≡ done.token = ground arith in (c, rw⁻¹ same (law t issued), refl)
      | inr (e, failed) ↦ ground arith
    ]

pending_refused :
    (env : AuthEnv) (token : String) (c : Claims) (users : String → UserAnswer)
    → dev_mode env ≡ false
    → env.decode token ≡ some c
    → c.mfa ≡ false
    → is_ok (current_user env (some token) users) ≡ false
unfolding live_user claims_from_token
pending_refused env token c users live decoded pending =
    let browser = live_current env (some token) users live in ground arith

existing_seated :
    (down : ℕ → Bool) (env : AuthEnv) (limit role : String) (cap : ℕ) (code : Option String)
    (login : String) (db : AccountsDb) (row : UserRow) (done : SignedIn)
    → first_where (is_login login) db.users ≡ some row
    → (seated down env limit code login
        (upsert_login_with_seat_check (down 2) login role env.now cap db)).0
      ≡ ok done
    → (signed_in down env code login
        (with_login env.now row)
        (upsert_login_with_seat_check (down 2) login role env.now cap db).1).0
      ≡ ok done
unfolding seated upsert_login_with_seat_check
existing_seated down env limit role cap code login db row done found h = ground arith

-- Outside of development, the token that the sign-in of a user with a second factor leads to is no
-- session, whatever the database answers when it is used, where `jsonwebtoken` decodes the claims
-- that it has encoded: the second factor has to be asked for.
pub second_factor_needed :
    (down : ℕ → Bool) (env : AuthEnv) (bootstrap : Option String) (cap : ℕ) (limit : String)
    (code : Option String) (login : String) (db : AccountsDb) (row : UserRow) (done : SignedIn)
    (users : String → UserAnswer)
    → ((t : String)
        → env.encode (pending_claims env login row) ≡ ok t
        → env.decode t ≡ some (pending_claims env login row))
    → dev_mode env ≡ false
    → first_where (is_login login) db.users ≡ some row
    → (row.totp_enabled == 0) ≡ false
    → (sign_in down env bootstrap cap limit code login db).0 ≡ ok done
    → is_ok (current_user env (some done.token) users) ≡ false
unfolding sign_in
second_factor_needed down env bootstrap cap limit code login db row done users law live found
      enabled h =
    let role : String =
      default_role (count_users (down 0) db) bootstrap (invite_role (down 1) code env.now db)
        login in
    let entered : (seated down env limit code login
          (upsert_login_with_seat_check (down 2) login role env.now cap db)).0
        ≡ ok done =
      ground arith in
    let (c, decoded, pending) =
      signed_in-pending down env code login (with_login env.now row) _ done law enabled
        (existing_seated down env limit role cap code login db row done found entered) in
    pending_refused env done.token c users live decoded pending
