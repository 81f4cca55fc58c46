-- ===== src/Web/Rbac.antt =====
-- server/src/rbac.rs: which requests to `/api` reach their handlers.
use shellfleet.Common.{
  Bool, false, not, ◌&&◌, ◌||◌, String, Option, none, some, [], ◌∷◌, ◌==◌, string_eq, nat_eq,
  if◌then◌else◌, any,
}
use shellfleet.Common.Result.{ok, err}
use shellfleet.Common.Texts.{strip_prefix, begins_with, trim}
use shellfleet.Accounts.{parse, is_admin, UserAnswer}
use shellfleet.Accounts.Session.{
  AuthEnv, Claims, refusal, dev_mode, claims_from_token, current_user, current_cli_user,
}
use shellfleet.Web.Request.{
  Method, Request, Verdict, pass, refuse, header, is_mutating, is_get, map_some, bind_some,
}

unfoldable pub is_api_keys_path : String → Bool
is_api_keys_path path = path == "/ee/keys" || begins_with "/ee/keys/" path

unfoldable pub is_ui_transport_path : String → Bool
is_ui_transport_path path =
    any (λ p. path == p) ("/ui/connect" ∷ "/ui/disconnect" ∷ "/ui/poll" ∷ "/ui/send" ∷ [])

unfoldable pub is_cli_read : Method → String → Bool
is_cli_read method path = is_get method && (path == "/core/v1/fleet" || path == "/core/v1/events")

-- The paths that authenticate themselves.
unfoldable pub is_open_path : String → Bool
is_open_path path =
    path == "/me"
    || begins_with "/auth/mfa/" path
    || begins_with "/auth/passkey/" path
    || path == "/device/request"
    || path == "/device/token"
    || path == "/device/refresh"
    || path == "/cli-auth/request"
    || path == "/cli-auth/token"

abbrev pub unless_key : String → Option String
unless_key token =
    if not (token == "") && not (begins_with "sf_live_" token) then some token else none

-- The bearer token, if it is no API key.
unfoldable pub bearer_token : Request → Option String
unfolding header
bearer_token req =
    bind_some (header "authorization" req)
      (λ value. bind_some (map_some trim (strip_prefix "Bearer " value)) unless_key)

abbrev pub is_cli : Option Claims → Bool
is_cli none = false
is_cli (some c) = c.cli

abbrev pub cli_claims : AuthEnv → Option String → Bool
cli_claims env none = false
cli_claims env (some token) = is_cli (claims_from_token env token)

-- The refusals of a command line's token keep their status.
unfoldable pub cli_request : AuthEnv → Request → String → (String → UserAnswer) → Verdict
cli_request env req token users =
    if not (is_cli_read req.method req.path)
    then refuse (refusal 403 "CLI session is not valid for this API route")
    else elim (current_cli_user env token users) [ ok claims ↦ pass | err answer ↦ refuse answer ]

-- What is asked of the role.
unfoldable pub role_verdict : Request → Claims → Verdict
role_verdict req claims =
    if is_mutating req.method
      && not (is_api_keys_path req.path)
      && not (is_ui_transport_path req.path)
      && not (is_admin (parse claims.role))
    then refuse (refusal 403 "viewer role: read-only")
    else pass

-- A refusal other than 403 is answered with 401.
unfoldable pub user_request : AuthEnv → Request → Option String → (String → UserAnswer) → Verdict
unfolding role_verdict
user_request env req cookie users = elim (current_user env cookie users) [
  | ok claims ↦ role_verdict req claims
  | err answer ↦ if answer.status == 403 then refuse answer else refuse (refusal 401 answer.reason)
]

unfoldable pub browser_request : AuthEnv → Request → Option String → (String → UserAnswer) → Verdict
unfolding user_request
browser_request env req cookie users =
    if cli_claims env cookie
    then refuse (refusal 403 "CLI session is only valid for fleet reads")
    else (if is_open_path req.path then pass else user_request env req cookie users)

-- The cookie is the session cookie's value.
unfoldable pub middleware : AuthEnv → Request → Option String → (String → UserAnswer) → Verdict
unfolding cli_request browser_request
middleware env req cookie users = if dev_mode env then pass else elim (bearer_token req) [
  | none ↦ browser_request env req cookie users
  | some token ↦
      if is_cli (claims_from_token env token)
      then cli_request env req token users
      else browser_request env req cookie users
]
