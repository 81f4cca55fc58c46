-- ===== src/Accounts/Login.antt =====
-- server/src/auth.rs, `callback_handler` from the answer of GitHub on: who gets a seat, with which
-- role, and which token. `down n` tells whether the handler's n-th statement fails.
use Prim.Native.String.{◌++◌ as append}
use shellfleet.Common.{
  ℕ, Bool, true, false, not, ◌||◌, String, Option, none, some, ◌==◌, string_eq, nat_eq,
  if◌then◌else◌, leb,
}
use shellfleet.Common.Result.{Result, ok, err}
use shellfleet.Accounts.{parse, as_str, UserRow, DbError}
use shellfleet.Accounts.Session.{
  AuthEnv, Refusal, refusal, issue_jwt, is_user_allowed, mfa_pending_ttl_secs,
  full_session_ttl_secs,
}
use shellfleet.Accounts.Users.{
  AccountsDb, Stored, record_audit, InviteRow, SeatedUpsert, existing, created, seat_cap_reached,
  count_users, get_invite, redeem_invite, upsert_login_with_seat_check,
}

-- `unwrap_or(0)`
abbrev pub or_zero : Result DbError ℕ → ℕ
or_zero (err e) = 0
or_zero (ok n) = n

abbrev unused : ℕ → InviteRow → Option String
unused now i = elim i.used_by [
  | none ↦ if leb now i.expires_at then some i.role else none
  | some login ↦ none
]

abbrev offered : ℕ → Result DbError (Option InviteRow) → Option String
offered now (err e) = none
offered now (ok none) = none
offered now (ok (some i)) = unused now i

-- The role of the invite that the sign-in carries, if it is good.
unfoldable pub invite_role : Bool → Option String → ℕ → AccountsDb → Option String
invite_role down none now db = none
invite_role down (some code) now db = offered now (get_invite down code db)

abbrev is_bootstrap : Option String → String → Bool
is_bootstrap none login = false
is_bootstrap (some admin) login = admin == login

abbrev or_viewer : Option String → String
or_viewer none = "viewer"
or_viewer (some role) = role

-- The role of a user who is new.
unfoldable pub default_role : Result DbError ℕ → Option String → Option String → String → String
default_role user_count bootstrap_admin invited login =
    if or_zero user_count == 0 || is_bootstrap bootstrap_admin login
    then "admin"
    else or_viewer invited

-- The token and the page that a sign-in leads to.
pub record SignedIn : Type 0 where
  pub token : String
  pub redirect_path : String

-- The use of the invite, and the last audit row.
unfoldable pub redeemed : (ℕ → Bool) → Option String → String → ℕ → AccountsDb → AccountsDb
redeemed down none login now db = db
redeemed down (some code) login now db =
    let (answer, after) = redeem_invite (down 3) code login now db in
    elim answer [
      | err e ↦ after
      | ok done ↦
          if done
          then record_audit (down 4) now (some login) "invite.redeemed" true none after
          else after
    ]

unfoldable pub signed_in :
    (ℕ → Bool)
    → AuthEnv
    → Option String
    → String
    → UserRow
    → AccountsDb
    → Result Refusal SignedIn × AccountsDb
unfolding redeemed
signed_in down env invite_code login row db =
    let pending : Bool = not (row.totp_enabled == 0) in
    elim (issue_jwt env login (parse row.role) (not pending)
      (if pending then mfa_pending_ttl_secs else full_session_ttl_secs)) [
        | err e ↦ (err (refusal 500 "Failed to issue session token"), db)
        | ok token ↦ (
          ok (record { token = token; redirect_path = if pending then "mfa" else "" }),
          record_audit (down 5) env.now (some login)
              (if pending then "auth.login.pending_mfa" else "auth.login") true
              (some (append "role=" (as_str (parse row.role))))
              (redeemed down invite_code login env.now db),
        )
      ]

abbrev cap_text : String → String
cap_text limit = append "This ShellFleet instance is at its " (
    append limit
      "-user seat cap. Ask an existing admin to remove a seat at /admin, or upgrade to EE.")

-- What becomes of the seat. The decimal text of the cap is an argument.
unfoldable pub seated :
    (ℕ → Bool)
    → AuthEnv
    → String
    → Option String
    → String
    → Stored SeatedUpsert
    → Result Refusal SignedIn × AccountsDb
unfolding signed_in
seated down env limit invite_code login (err e, db) = (err (refusal 500 "user lookup failed"), db)
seated down env limit invite_code login (ok (existing row), db) =
    signed_in down env invite_code login row db
seated down env limit invite_code login (ok (created row), db) =
    signed_in down env invite_code login row db
seated down env limit invite_code login (ok seat_cap_reached, db) = (
  err (refusal 403 (cap_text limit)),
  record_audit (down 5) env.now (some login) "auth.login.seat_cap_reached" false
      (some (append "limit=" limit)) db,
)

-- `seat_limit`, with the license's seats if the question for them is answered.
unfoldable pub seat_limit : Result DbError (Option ℕ) → ℕ → ℕ
seat_limit (err e) ce_user_limit = ce_user_limit
seat_limit (ok none) ce_user_limit = ce_user_limit
seat_limit (ok (some seats)) ce_user_limit = seats

-- The login is what GitHub answers for the code.
unfoldable pub sign_in :
    (ℕ → Bool)
    → AuthEnv
    → Option String
    → ℕ
    → String
    → Option String
    → String
    → AccountsDb
    → Result Refusal SignedIn × AccountsDb
unfolding seated
sign_in down env bootstrap_admin seat_cap limit invite_code login db =
    if not (is_user_allowed env login)
    then (err (refusal 401 "Unauthorized user. Your GitHub account is not on the allowlist."), db)
    else seated down env limit invite_code login (
        upsert_login_with_seat_check (down 2) login
          (default_role (count_users (down 0) db) bootstrap_admin
            (invite_role (down 1) invite_code env.now db) login)
          env.now seat_cap db)

-- The answer of GitHub is taken only where the state cookie is that of the request.
unfoldable pub callback_handler :
    (ℕ → Bool)
    → AuthEnv
    → Option String
    → ℕ
    → String
    → Option String
    → Option String
    → String
    → Result Refusal String
    → AccountsDb
    → Result Refusal SignedIn × AccountsDb
unfolding sign_in
callback_handler down env bootstrap_admin seat_cap limit invite_code none state github db =
    (err (refusal 403 "OAuth state mismatch — start the sign-in flow over."), db)
callback_handler down env bootstrap_admin seat_cap limit invite_code (some cookie) state
      (err refused) db =
    if cookie == state
    then (err refused, db)
    else (err (refusal 403 "OAuth state mismatch — start the sign-in flow over."), db)
callback_handler down env bootstrap_admin seat_cap limit invite_code (some cookie) state (ok login)
      db =
    if cookie == state
    then sign_in down env bootstrap_admin seat_cap limit invite_code login db
    else (err (refusal 403 "OAuth state mismatch — start the sign-in flow over."), db)
