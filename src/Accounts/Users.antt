-- ===== src/Accounts/Users.antt =====
-- server/src/db.rs: the statements on the tables `users`, whose primary key is the login, and
-- `invites`. The first argument tells whether the database is down.
use shellfleet.Common.{
  ℕ, Bool, false, String, Option, none, some, List, ◌∷◌, ◌==◌, string_eq, nat_eq, if◌then◌else◌,
  leb, any, length,
}
use shellfleet.Common.Result.{Result, ok, err}
use shellfleet.Common.Table.{delete_where, update_where, first_where}
use shellfleet.Accounts.{UserRow, UserAnswer, DbError, unavailable}
use shellfleet.Accounts.Audit.{AuditRow, logged}

pub record InviteRow : Type 0 where
  pub code : String
  pub role : String
  pub created_by : String
  pub created_at : ℕ
  pub expires_at : ℕ
  pub used_by : Option String
  pub used_at : Option ℕ

pub record AccountsDb : Type 0 where
  pub users : List UserRow
  pub invites : List InviteRow
  pub audit : List AuditRow

abbrev pub Stored : Type 0 → Type 0
Stored A = Result DbError A × AccountsDb

abbrev pub unless : {A : Type 0} → Bool → AccountsDb → Stored A → Stored A
unless down db answer = if down then (err unavailable, db) else answer

abbrev pub with_users : List UserRow → AccountsDb → AccountsDb
with_users rows db = record { users = rows; invites = db.invites; audit = db.audit }

abbrev pub with_invites : List InviteRow → AccountsDb → AccountsDb
with_invites rows db = record { users = db.users; invites = rows; audit = db.audit }

unfoldable pub record_audit :
    Bool → ℕ → Option String → String → Bool → Option String → AccountsDb → AccountsDb
record_audit down ts actor kind succeeded detail db = record {
  users = db.users;
  invites = db.invites;
  audit = logged down ts actor none kind succeeded detail db.audit;
}

abbrev pub is_login : String → UserRow → Bool
is_login login r = r.login == login

unfoldable pub get_user : Bool → String → AccountsDb → UserAnswer
get_user down login db =
    if down then err unavailable else ok (first_where (is_login login) db.users)

unfoldable pub count_users : Bool → AccountsDb → Result DbError ℕ
count_users down db = if down then err unavailable else ok (length db.users)

-- A row with new values of the columns that the statements set.
abbrev pub set_row : String → ℕ → Option String → String → ℕ → ℕ → UserRow → UserRow
set_row role totp_enabled totp_secret hashes last_login_at session_epoch r = record {
  login = r.login;
  role = role;
  totp_enabled = totp_enabled;
  totp_secret = totp_secret;
  totp_recovery_hashes = hashes;
  created_at = r.created_at;
  last_login_at = last_login_at;
  session_epoch = session_epoch;
}

abbrev pub with_epoch : ℕ → UserRow → UserRow
with_epoch now r =
    set_row r.role r.totp_enabled r.totp_secret r.totp_recovery_hashes r.last_login_at now r

abbrev pub with_role : String → UserRow → UserRow
with_role role r =
    set_row role r.totp_enabled r.totp_secret r.totp_recovery_hashes r.last_login_at r.session_epoch
      r

abbrev pub with_totp : ℕ → Option String → String → UserRow → UserRow
with_totp enabled secret hashes r =
    set_row r.role enabled secret hashes r.last_login_at r.session_epoch r

abbrev pub with_login : ℕ → UserRow → UserRow
with_login now r =
    set_row r.role r.totp_enabled r.totp_secret r.totp_recovery_hashes now r.session_epoch r

unfoldable pub bump_session_epoch : Bool → String → ℕ → AccountsDb → Stored (Unit {0})
bump_session_epoch down login now db =
    unless down db (ok tt, with_users (update_where (is_login login) (with_epoch now) db.users) db)

unfoldable pub set_user_role : Bool → String → String → AccountsDb → Stored Bool
set_user_role down login role db = unless down db (
  ok (any (is_login login) db.users),
  with_users (update_where (is_login login) (with_role role) db.users) db,
)

unfoldable pub set_user_totp : Bool → String → String → String → AccountsDb → Stored (Unit {0})
set_user_totp down login secret hashes db = unless down db (
  ok tt,
  with_users (update_where (is_login login) (with_totp 1 (some secret) hashes) db.users) db,
)

unfoldable pub clear_user_totp : Bool → String → AccountsDb → Stored (Unit {0})
clear_user_totp down login db =
    unless down db
      (ok tt, with_users (update_where (is_login login) (with_totp 0 none "[]") db.users) db)

abbrev pub with_hashes : String → UserRow → UserRow
with_hashes hashes r =
    set_row r.role r.totp_enabled r.totp_secret hashes r.last_login_at r.session_epoch r

unfoldable pub update_user_recovery_hashes : Bool → String → String → AccountsDb → Stored (Unit {0})
update_user_recovery_hashes down login hashes db =
    unless down db
      (ok tt, with_users (update_where (is_login login) (with_hashes hashes) db.users) db)

-- `DELETE FROM users`, with whether a row was there.
unfoldable pub delete_user : Bool → String → AccountsDb → Stored Bool
delete_user down login db =
    unless down db
      (ok (any (is_login login) db.users), with_users (delete_where (is_login login) db.users) db)

pub data SeatedUpsert : Type 0 where
  existing created : (row : UserRow) → SeatedUpsert
  seat_cap_reached : SeatedUpsert

-- The columns that the insertion does not name take their defaults.
abbrev pub new_user : String → String → ℕ → UserRow
new_user login role now = record {
  login = login;
  role = role;
  totp_enabled = 0;
  totp_secret = none;
  totp_recovery_hashes = "[]";
  created_at = now;
  last_login_at = now;
  session_epoch = 0;
}

-- One transaction, which is rolled back where the cap is reached.
unfoldable pub upsert_login_with_seat_check :
    Bool → String → String → ℕ → ℕ → AccountsDb → Stored SeatedUpsert
upsert_login_with_seat_check down login default_role now seat_limit db =
    unless down db (elim (first_where (is_login login) db.users) [
      | some row ↦ (
        ok (existing (with_login now row)),
        with_users (update_where (is_login login) (with_login now) db.users) db,
      )
      | none ↦ if leb seat_limit (length db.users) then (ok seat_cap_reached, db) else (
        ok (created (new_user login default_role now)),
        with_users (new_user login default_role now ∷ db.users) db,
      )
    ])

unfoldable pub get_invite : Bool → String → AccountsDb → Result DbError (Option InviteRow)
get_invite down code db =
    if down then err unavailable else ok (first_where (λ i. i.code == code) db.invites)

abbrev pub is_open : String → InviteRow → Bool
is_open code i = elim i.used_by [ none ↦ i.code == code | some login ↦ false ]

abbrev pub used : String → ℕ → InviteRow → InviteRow
used login now i = record {
  code = i.code;
  role = i.role;
  created_by = i.created_by;
  created_at = i.created_at;
  expires_at = i.expires_at;
  used_by = some login;
  used_at = some now;
}

unfoldable pub redeem_invite : Bool → String → String → ℕ → AccountsDb → Stored Bool
redeem_invite down code login now db = unless down db (
  ok (any (is_open code) db.invites),
  with_invites (update_where (is_open code) (used login now) db.invites) db,
)
