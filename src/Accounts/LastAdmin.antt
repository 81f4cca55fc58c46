-- ===== src/Accounts/LastAdmin.antt =====
-- server/src/users.rs: the admins that are left after any changes of roles and removals.
use shellfleet.Common.{
  bit, ℕ, ◌≤◌, ◌≡◌, refl, ap, Bool, true, false, ◌&&◌, String, List, [], ◌∷◌, All, arith, ◌==◌,
  string_eq, nat_eq, count_where, any, Bool-cases, Option-cases, inl, inr,
}
use shellfleet.Common.Result.{Result, ok, err}
use shellfleet.Common.Table.{
  update_where, first_where, count-delete, count-update_same, count-update_unmark,
  count-update_mark, count_none, count_only, count-update_none,
}
use shellfleet.Accounts.Session.{Claims, Refusal}
use shellfleet.Accounts.Users.{
  AccountsDb, Stored, record_audit, is_login, get_user, bump_session_epoch, set_user_role,
  delete_user, with_role, with_epoch,
}
use shellfleet.Accounts.Admin.{
  has_admin_role, count_admins, answers_admin, role_set, demotable, may_set_role, permitted,
  set_role_handler, user_deleted, removable, delete_handler,
}

abbrev pub admins : AccountsDb → ℕ
admins db = count_where has_admin_role db.users

-- There is an admin, and no login has two rows.
pub record IsGoverned (db : AccountsDb) : Type 0 where
  pub governed : 1 ≤ admins db
  pub unique : (login : String) → count_where (is_login login) db.users ≤ 1

-- The admin rows among those of a login, where the table can be read.
admin_rows :
    (login : String) (db : AccountsDb)
    → IsGoverned db
    → count_where (λ r. has_admin_role r && is_login login r) db.users
      ≡ bit (answers_admin (get_user false login db))
unfolding answers_admin get_user
admin_rows login db g = elim (Option-cases (first_where (is_login login) db.users)) [
  | inl nothing ↦
      let zero_rows = count_none has_admin_role (is_login login) db.users nothing in ground arith
  | inr (row, found) ↦
      let only = count_only has_admin_role (is_login login) db.users row (g.unique login) found in
      ground arith
]

bump-IsGoverned :
    (down : Bool) (login : String) (now : ℕ) (db : AccountsDb)
    → IsGoverned db
    → IsGoverned (bump_session_epoch down login now db).1
unfolding bump_session_epoch
bump-IsGoverned down login now db g =
    let same =
      count-update_same has_admin_role (is_login login) (with_epoch now) db.users (λ r. refl) in
    record {
      governed = let before = g.governed in ground arith;
      unique = λ u.
          let alike =
            count-update_same (is_login u) (is_login login) (with_epoch now) db.users (λ r. refl) in
          let before = g.unique u in ground arith;
    }

-- The change of a role that leaves an admin.
set_role-IsGoverned :
    (down : Bool) (login role : String) (db : AccountsDb)
    → IsGoverned db
    → 1 ≤ count_where has_admin_role (update_where (is_login login) (with_role role) db.users)
    → IsGoverned (set_user_role down login role db).1
unfolding set_user_role
set_role-IsGoverned down login role db g left = record {
  governed = let before = g.governed in ground arith;
  unique = λ u.
      let alike =
        count-update_same (is_login u) (is_login login) (with_role role) db.users (λ r. refl) in
      let before = g.unique u in ground arith;
}

role_set-IsGoverned :
    (down : ℕ → Bool) (actor login role : String) (now : ℕ) (answer : Stored Bool)
    → IsGoverned answer.1
    → IsGoverned (role_set down actor login role now answer).1
unfolding role_set record_audit
role_set-IsGoverned down actor login role now (err e, db) g = g
role_set-IsGoverned down actor login role now (ok false, db) g = g
role_set-IsGoverned down actor login role now (ok true, db) g =
    let after = bump-IsGoverned (down 3) login now db g in
    record { governed = after.governed; unique = after.unique }

-- A change to a role other than an admin's, that the guard lets through.
demoted_left :
    (down : ℕ → Bool) (login role : String) (db : AccountsDb)
    → IsGoverned db
    → down 1 ≡ false
    → (role == "admin") ≡ false
    → demotable down login db ≡ ok tt
    → 1 ≤ count_where has_admin_role (update_where (is_login login) (with_role role) db.users)
unfolding demotable count_admins
demoted_left down login role db g reads other passes =
    let gone =
      count-update_unmark has_admin_role (is_login login) (with_role role) db.users (λ r. other) in
    let rows = admin_rows login db g in
    let before = g.governed in
    let asked : get_user (down 1) login db ≡ get_user false login db = rw reads refl in
    let told : answers_admin (get_user (down 1) login db)
        ≡ answers_admin (get_user false login db) =
      ap answers_admin asked in
    ground arith

promoted_left :
    (login role : String) (db : AccountsDb)
    → IsGoverned db
    → (role == "admin") ≡ true
    → 1 ≤ count_where has_admin_role (update_where (is_login login) (with_role role) db.users)
promoted_left login role db g same =
    let more =
      count-update_mark has_admin_role (is_login login) (with_role role) db.users (λ r h. same) in
    let before = g.governed in omega arith

permitted-IsGoverned :
    (verdict : Result Refusal (Unit {0})) (db : AccountsDb) (done : Refusal × AccountsDb)
    → IsGoverned db
    → (verdict ≡ ok tt → IsGoverned done.1)
    → IsGoverned (permitted verdict db done).1
unfolding permitted
permitted-IsGoverned (err refused) db done g after = g
permitted-IsGoverned (ok allowed) db done g after = after refl

set_role_handler-IsGoverned :
    (down : ℕ → Bool) (actor : Result Refusal Claims) (login role : String) (now : ℕ)
    (db : AccountsDb)
    → IsGoverned db
    → down 1 ≡ false
    → IsGoverned (set_role_handler down actor login role now db).1
unfolding set_role_handler may_set_role
set_role_handler-IsGoverned down (err refused) login role now db g reads = g
set_role_handler-IsGoverned down (ok actor) login role now db g reads =
    permitted-IsGoverned (may_set_role down login role db) db _ g (λ allowed.
      role_set-IsGoverned down actor.sub login role now (set_user_role (down 2) login role db) (
        set_role-IsGoverned (down 2) login role db g (elim (Bool-cases (role == "admin")) [
          | inl promoted ↦ promoted_left login role db g promoted
          | inr other ↦ demoted_left down login role db g reads other (ground arith)
        ])))

delete-IsGoverned :
    (down : ℕ → Bool) (actor login : String) (db : AccountsDb)
    → IsGoverned db
    → down 0 ≡ false
    → removable down actor login db ≡ ok tt
    → IsGoverned (delete_user (down 2) login db).1
unfolding removable count_admins delete_user
delete-IsGoverned down actor login db g reads passes =
    let left = count-delete has_admin_role (is_login login) db.users in
    let rows = admin_rows login db g in
    let before = g.governed in
    let asked : get_user (down 0) login db ≡ get_user false login db = rw reads refl in
    let told : answers_admin (get_user (down 0) login db)
        ≡ answers_admin (get_user false login db) =
      ap answers_admin asked in
    record {
      governed = ground arith;
      unique = λ u.
          let fewer = count-delete (is_login u) (is_login login) db.users in
          let one = g.unique u in ground arith;
    }

user_deleted-IsGoverned :
    (down : ℕ → Bool) (actor login : String) (now : ℕ) (answer : Stored Bool)
    → IsGoverned answer.1
    → IsGoverned (user_deleted down actor login now answer).1
unfolding user_deleted record_audit
user_deleted-IsGoverned down actor login now (err e, db) g = g
user_deleted-IsGoverned down actor login now (ok false, db) g = g
user_deleted-IsGoverned down actor login now (ok true, db) g = record {
  governed = g.governed;
  unique = g.unique;
}

-- A request to change a role or to remove a user.
pub data AdminCall : Type 0 where
  set_role :
      (down : ℕ → Bool) (actor : Result Refusal Claims) (login role : String) (now : ℕ) → AdminCall
  remove : (down : ℕ → Bool) (actor : Result Refusal Claims) (login : String) (now : ℕ) → AdminCall

-- The database answers the handler's question for the user.
abbrev pub Reads : AdminCall → Type 0
Reads (set_role down actor login role now) = down 1 ≡ false
Reads (remove down actor login now) = down 0 ≡ false

unfoldable pub administer : List AdminCall → AccountsDb → AccountsDb
administer [] db = db
administer (set_role down actor login role now ∷ calls) db =
    administer calls (set_role_handler down actor login role now db).1
administer (remove down actor login now ∷ calls) db =
    administer calls (delete_handler down actor login now db).1

-- Whatever roles are changed and whatever users are removed, one request after another, an admin
-- remains and no login has two rows, if it was so before and the database answers each request's
-- question for its user, whichever other statements fail.
pub administer-IsGoverned :
    (calls : List AdminCall) (db : AccountsDb)
    → IsGoverned db
    → All Reads calls
    → IsGoverned (administer calls db)
unfolding administer delete_handler
administer-IsGoverned [] db g reads = g
administer-IsGoverned (set_role down actor login role now ∷ calls) db g (answered, reads) =
    administer-IsGoverned calls (set_role_handler down actor login role now db).1
      (set_role_handler-IsGoverned down actor login role now db g answered) reads
administer-IsGoverned (remove down (err refused) login now ∷ calls) db g (answered, reads) =
    administer-IsGoverned calls db g reads
administer-IsGoverned (remove down (ok actor) login now ∷ calls) db g (answered, reads) =
    administer-IsGoverned calls (delete_handler down (ok actor) login now db).1
      (permitted-IsGoverned (removable down actor.sub login db) db _ g (λ allowed.
        user_deleted-IsGoverned down actor.sub login now (delete_user (down 2) login db)
          (delete-IsGoverned down actor.sub login db g answered allowed)))
      reads

-- A demotion whose question for its user the database does not answer, the other statements
-- working, is done all the same, whoever remains an admin: the last admin of all can be demoted.
demotion_unguarded :
    (down : ℕ → Bool) (actor : Claims) (login : String) (now : ℕ) (db : AccountsDb)
    → down 0 ≡ false
    → down 1 ≡ true
    → down 2 ≡ false
    → any (is_login login) db.users ≡ true
    → ((set_role_handler down (ok actor) login "viewer" now db).0.status ≡ 200)
      × (count_where
            (λ r. has_admin_role r && is_login login r)
            (set_role_handler down (ok actor) login "viewer" now db).1.users
          ≡ 0)
unfolding set_role_handler may_set_role demotable count_admins answers_admin get_user permitted
    role_set set_user_role bump_session_epoch record_audit
demotion_unguarded down actor login now db lists unread sets there =
    let none_left =
      count-update_none (λ r. has_admin_role r && is_login login r) (is_login login)
        (with_role "viewer") db.users (λ r h. refl) (λ r h. ground arith) in
    let kept =
      count-update_same (λ r. has_admin_role r && is_login login r) (is_login login)
        (with_epoch now) (update_where (is_login login) (with_role "viewer") db.users)
        (λ r. refl) in
    (ground arith, ground arith)
