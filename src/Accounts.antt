-- ===== src/Accounts.antt =====
-- server/src/auth.rs and server/src/db.rs: roles and the rows of the users table. Times are Unix
-- seconds, never negative.
pub mod Session
pub mod SessionKinds
pub mod Audit
pub mod Users
pub mod Admin
pub mod LastAdmin
pub mod Login
pub mod Seats
pub mod Totp
pub mod Mfa
pub mod Enrollment
pub mod SecondFactor
pub mod Recovery
pub mod Replacement
mod Tests
use shellfleet.Common.{ℕ, Bool, true, false, String, Option, ◌==◌, nat_eq, string_eq, if◌then◌else◌}
use shellfleet.Common.Result.{Result}

pub data Role : Type 0 where
  admin viewer : Role

abbrev pub as_str : Role → String
as_str admin = "admin"
as_str viewer = "viewer"

unfoldable pub parse : String → Role
parse s = if s == "admin" then admin else viewer

abbrev pub is_admin : Role → Bool
is_admin admin = true
is_admin viewer = false

pub record UserRow : Type 0 where
  pub login : String
  pub role : String
  pub totp_enabled : ℕ
  pub totp_secret : Option String
  pub totp_recovery_hashes : String
  pub created_at : ℕ
  pub last_login_at : ℕ
  pub session_epoch : ℕ

pub data DbError : Type 0 where
  unavailable : DbError

-- What `db::get_user` answers.
abbrev pub UserAnswer : Type 0
UserAnswer = Result DbError (Option UserRow)
