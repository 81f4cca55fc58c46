-- ===== src/Accounts/Session.antt =====
-- server/src/auth.rs: what a session token is, who issues it, and for whom a request is made. The
-- environment, the clock and what `users` answers are arguments.
use shellfleet.Common.{
  [], ◌∷◌, ℕ, ◌+◌, ◌*◌, Bool, true, false, not, ◌&&◌, String, Option, none, some, List, ◌==◌,
  string_eq, nat_eq, if◌then◌else◌, ltb, leb, any,
}
use shellfleet.Common.Result.{Result, ok, err, ok_or, guard, ◌>>=◌, ◌>>◌}
use shellfleet.Trusted.Text.{len}
use shellfleet.Accounts.{Role, as_str, parse, is_admin, UserAnswer}

abbrev pub mfa_pending_ttl_secs : ℕ
mfa_pending_ttl_secs = 600

abbrev pub full_session_ttl_secs : ℕ
full_session_ttl_secs = 24 * 3600

pub record Claims : Type 0 where
  pub sub : String
  pub exp : ℕ
  pub iat : ℕ
  pub role : String
  pub mfa : Bool
  pub cli : Bool

-- A status and a reason.
pub record Refusal : Type 0 where
  pub status : ℕ
  pub reason : String

abbrev pub refusal : ℕ → String → Refusal
refusal status reason = record { status = status; reason = reason }

-- What the functions read of their surroundings: `JWT_SECRET` and `SHELLFLEET_DEV`, the second in
-- lower case and trimmed; `ALLOWED_GITHUB_USERS` as a list; the clock; and the crate `jsonwebtoken`,
-- whose `decode` checks the signature and the expiry at the current time.
pub record AuthEnv : Type 0 where
  pub jwt_secret : String
  pub dev_flag : String
  pub allowed_users : List String
  pub now : ℕ
  pub encode : Claims → Result String String
  pub decode : String → Option Claims

unfoldable pub dev_flag_set : AuthEnv → Bool
dev_flag_set env = any (λ on. env.dev_flag == on) ("1" ∷ "true" ∷ "yes" ∷ "on" ∷ [])

unfoldable pub dev_mode : AuthEnv → Bool
unfolding dev_flag_set
dev_mode env = env.jwt_secret == "dev" && dev_flag_set env

-- The start of the server: `err` where the process exits.
unfoldable pub assert_jwt_secret_present : AuthEnv → Result String (Unit {0})
unfolding dev_flag_set
assert_jwt_secret_present env =
    if env.jwt_secret == ""
    then err "JWT_SECRET is not set"
    else (if env.jwt_secret == "dev"
        then (if dev_flag_set env then ok tt else err "JWT_SECRET=dev without SHELLFLEET_DEV")
        else (if ltb (len env.jwt_secret) 32
            then err "JWT_SECRET is too short"
            else (if env.jwt_secret == "supersecretkey"
                then err "JWT_SECRET is the historical placeholder"
                else ok tt)))

unfoldable pub is_user_allowed : AuthEnv → String → Bool
is_user_allowed env login = any (λ u. u == login) env.allowed_users

unfoldable pub issue_jwt_with_kind :
    AuthEnv → String → Role → Bool → ℕ → Bool → Result String String
issue_jwt_with_kind env sub role mfa ttl_secs cli = env.encode (record {
  sub = sub;
  exp = env.now + ttl_secs;
  iat = env.now;
  role = as_str role;
  mfa = mfa;
  cli = cli;
})

unfoldable pub issue_jwt : AuthEnv → String → Role → Bool → ℕ → Result String String
unfolding issue_jwt_with_kind
issue_jwt env sub role mfa ttl_secs = issue_jwt_with_kind env sub role mfa ttl_secs false

unfoldable pub issue_cli_jwt : AuthEnv → String → Role → ℕ → Result String String
unfolding issue_jwt_with_kind
issue_cli_jwt env sub role ttl_secs = issue_jwt_with_kind env sub role true ttl_secs true

abbrev filter_claims : (Claims → Bool) → Option Claims → Option Claims
filter_claims test none = none
filter_claims test (some c) = if test c then some c else none

unfoldable pub claims_from_token : AuthEnv → String → Option Claims
unfolding is_user_allowed
claims_from_token env token = filter_claims (λ c. is_user_allowed env c.sub) (env.decode token)

unfoldable pub dev_claims : AuthEnv → Claims
dev_claims env = record {
  sub = "dev";
  exp = env.now + 24 * 3600;
  iat = env.now;
  role = "admin";
  mfa = true;
  cli = false;
}

abbrev pub with_role : String → Claims → Claims
with_role role c = record {
  sub = c.sub;
  exp = c.exp;
  iat = c.iat;
  role = role;
  mfa = c.mfa;
  cli = c.cli;
}

-- The role of the row that the user has now, unless the session is older than its epoch.
unfoldable pub resolve : Claims → UserAnswer → Result Refusal Claims
resolve c (err e) = err (refusal 503 "session verification unavailable")
resolve c (ok none) = err (refusal 401 "Unauthorized")
resolve c (ok (some row)) =
    if leb row.session_epoch c.iat
    then ok (with_role row.role c)
    else err (refusal 401 "session revoked — please sign in again")

-- The first argument after the environment is the value of the session cookie.
-- `current_user` outside of development.
unfoldable pub live_user : AuthEnv → Option String → (String → UserAnswer) → Result Refusal Claims
live_user env cookie users = do
  value ← ok_or cookie (refusal 401 "Unauthorized")
  c ← ok_or (claims_from_token env value) (refusal 401 "Unauthorized")
  guard c.mfa (refusal 403 "MFA required")
  guard (not c.cli) (refusal 403 "CLI session is only valid for fleet reads")
  resolve c (users c.sub)

unfoldable pub current_user :
    AuthEnv → Option String → (String → UserAnswer) → Result Refusal Claims
unfolding live_user
current_user env cookie users =
    if dev_mode env then ok (dev_claims env) else live_user env cookie users

unfoldable pub current_cli_user : AuthEnv → String → (String → UserAnswer) → Result Refusal Claims
current_cli_user env token users = do
  c ← ok_or (claims_from_token env token) (refusal 401 "Unauthorized")
  guard c.mfa (refusal 403 "MFA required")
  guard c.cli (refusal 403 "not a CLI session")
  resolve c (users c.sub)

unfoldable pub require_admin :
    AuthEnv → Option String → (String → UserAnswer) → Result Refusal Claims
require_admin env cookie users = do
  c ← current_user env cookie users
  guard (is_admin (parse c.role)) (refusal 403 "viewer role: read-only")
  ok c

unfoldable pub pending_mfa_user :
    AuthEnv → Option String → (String → UserAnswer) → Result Refusal Claims
pending_mfa_user env cookie users = do
  value ← ok_or cookie (refusal 401 "no pending mfa")
  c ← ok_or (claims_from_token env value) (refusal 401 "no pending mfa")
  guard (not c.mfa) (refusal 401 "no pending mfa")
  resolve c (users c.sub)
