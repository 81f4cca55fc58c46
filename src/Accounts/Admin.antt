-- ===== src/Accounts/Admin.antt =====
-- server/src/users.rs: an admin sets the role of a user, or removes one. `down n` tells whether the
-- handler's n-th statement fails; the admin who asks is `auth::require_admin`'s answer.
use Prim.Native.String.{◌++◌ as append}
use shellfleet.Common.{
  ℕ, Bool, true, false, not, ◌&&◌, ◌||◌, String, none, some, ◌==◌, string_eq, nat_eq, if◌then◌else◌,
  leb, count_where,
}
use shellfleet.Common.Result.{Result, ok, err}
use shellfleet.Accounts.{UserRow, UserAnswer, DbError, unavailable}
use shellfleet.Accounts.Session.{Claims, Refusal, refusal}
use shellfleet.Accounts.Users.{
  AccountsDb, Stored, record_audit, get_user, bump_session_epoch, set_user_role, delete_user,
}

abbrev pub has_admin_role : UserRow → Bool
has_admin_role r = r.role == "admin"

-- The admins among the rows of `db::list_users`.
unfoldable pub count_admins : Bool → AccountsDb → Result DbError ℕ
count_admins down db = if down then err unavailable else ok (count_where has_admin_role db.users)

-- `matches!(.., Ok(Some(r)) if r.role == "admin")`
unfoldable pub answers_admin : UserAnswer → Bool
answers_admin (err e) = false
answers_admin (ok none) = false
answers_admin (ok (some r)) = has_admin_role r

-- What is answered of the change of a role, the other sessions of the user being ended.
unfoldable pub role_set :
    (ℕ → Bool) → String → String → String → ℕ → Stored Bool → Refusal × AccountsDb
role_set down actor login role now (err e, db) = (refusal 500 "db error", db)
role_set down actor login role now (ok false, db) = (refusal 404 "no such user", db)
role_set down actor login role now (ok true, db) = (
  refusal 200 "ok",
  record_audit (down 4) now (some actor) "users.set_role" true
      (some (append "login=" (append login (append " role=" role))))
      (bump_session_epoch (down 3) login now db).1,
)

-- Whether a demotion may go on.
unfoldable pub demotable : (ℕ → Bool) → String → AccountsDb → Result Refusal (Unit {0})
unfolding answers_admin count_admins
demotable down login db = elim (count_admins (down 0) db) [
  | err e ↦ err (refusal 500 "db error")
  | ok admins ↦
      if answers_admin (get_user (down 1) login db) && leb admins 1
      then err (refusal 409 "cannot demote the last admin — promote someone else first")
      else ok tt
]

-- What is asked before a role is set.
unfoldable pub may_set_role : (ℕ → Bool) → String → String → AccountsDb → Result Refusal (Unit {0})
unfolding demotable
may_set_role down login role db =
    if not (role == "admin" || role == "viewer")
    then err (refusal 400 "role must be admin or viewer")
    else (if role == "viewer" then demotable down login db else ok tt)

-- A refusal is answered and changes nothing.
unfoldable pub permitted :
    Result Refusal (Unit {0}) → AccountsDb → Refusal × AccountsDb → Refusal × AccountsDb
permitted (err refused) db done = (refused, db)
permitted (ok allowed) db done = done

unfoldable pub set_role_handler :
    (ℕ → Bool) → Result Refusal Claims → String → String → ℕ → AccountsDb → Refusal × AccountsDb
unfolding role_set may_set_role permitted
set_role_handler down (err refused) login role now db = (refused, db)
set_role_handler down (ok actor) login role now db =
    permitted (may_set_role down login role db) db
      (role_set down actor.sub login role now (set_user_role (down 2) login role db))

unfoldable pub user_deleted : (ℕ → Bool) → String → String → ℕ → Stored Bool → Refusal × AccountsDb
user_deleted down actor login now (err e, db) = (refusal 500 "db error", db)
user_deleted down actor login now (ok false, db) = (refusal 404 "no such user", db)
user_deleted down actor login now (ok true, db) = (
  refusal 200 "ok",
  record_audit (down 3) now (some actor) "users.delete" true (some (append "login=" login)) db,
)

-- What is asked before a user is removed, by the login of the admin.
unfoldable pub removable : (ℕ → Bool) → String → String → AccountsDb → Result Refusal (Unit {0})
unfolding answers_admin count_admins
removable down actor login db =
    if actor == login
    then err (refusal 409 "cannot remove your own seat")
    else (if answers_admin (get_user (down 0) login db)
        then elim (count_admins (down 1) db) [
          | err e ↦ err (refusal 500 "db error")
          | ok admins ↦
              if leb admins 1
              then err (refusal 409 "cannot remove the last admin — promote someone else first")
              else ok tt
        ]
        else ok tt)

unfoldable pub delete_handler :
    (ℕ → Bool) → Result Refusal Claims → String → ℕ → AccountsDb → Refusal × AccountsDb
unfolding user_deleted removable permitted
delete_handler down (err refused) login now db = (refused, db)
delete_handler down (ok actor) login now db =
    permitted (removable down actor.sub login db) db
      (user_deleted down actor.sub login now (delete_user (down 2) login db))
