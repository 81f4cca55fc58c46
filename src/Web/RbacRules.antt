-- ===== src/Web/RbacRules.antt =====
-- server/src/rbac.rs: what a request that reaches its handler has shown.
use shellfleet.Common.{
  ◌≡◌, refl, true, false, String, Option, some, arith, string_eq, nat_eq, Bool-cases, Option-cases,
  inl, inr,
}
use shellfleet.Common.Result.{ok, Result-cases}
use shellfleet.Accounts.{Role, admin, viewer, parse, is_admin, UserAnswer}
use shellfleet.Accounts.Session.{
  AuthEnv, Claims, dev_mode, claims_from_token, current_user, current_cli_user,
}
use shellfleet.Accounts.SessionKinds.{IsCurrent, current_user_iff}
use shellfleet.Web.Request.{Method, Request, pass, is_mutating, is_get}
use shellfleet.Web.Rbac.{
  is_api_keys_path, is_ui_transport_path, is_cli_read, is_open_path, bearer_token, is_cli,
  cli_request, role_verdict, user_request, browser_request, middleware,
}

admin_only : (r : Role) → is_admin r ≡ true → r ≡ admin
admin_only admin h = refl
admin_only viewer h = cc

user_request_pass :
    (env : AuthEnv) (req : Request) (cookie : Option String) (users : String → UserAnswer)
    → user_request env req cookie users ≡ pass
    → (claims : Claims) × (current_user env cookie users ≡ ok claims)
      × (role_verdict req claims ≡ pass)
unfolding user_request
user_request_pass env req cookie users h = elim (Result-cases (current_user env cookie users)) [
  | inl (claims, known) ↦ (claims, known, ground arith)
  | inr (answer, failed) ↦ ground arith
]

browser_pass :
    (env : AuthEnv) (req : Request) (cookie : Option String) (users : String → UserAnswer)
    → is_open_path req.path ≡ false
    → browser_request env req cookie users ≡ pass
    → user_request env req cookie users ≡ pass
unfolding browser_request
browser_pass env req cookie users shut h = ground arith

cli_pass :
    (env : AuthEnv) (req : Request) (token : String) (users : String → UserAnswer)
    → cli_request env req token users ≡ pass
    → (is_cli_read req.method req.path ≡ true)
      × ((claims : Claims) × (current_cli_user env token users ≡ ok claims))
unfolding cli_request
cli_pass env req token users h = elim (Result-cases (current_cli_user env token users)) [
  | inl (claims, known) ↦ (ground arith, (claims, known))
  | inr (answer, failed) ↦ ground arith
]

-- The way by which a request has come through.
pub data Passed (env : AuthEnv) (req : Request) (cookie : Option String)
    (users : String → UserAnswer) : Type 0 where
  as_cli :
      (token : String) (claims : Claims)
      → bearer_token req ≡ some token
      → is_cli_read req.method req.path ≡ true
      → current_cli_user env token users ≡ ok claims
      → Passed env req cookie users
  as_user :
      (claims : Claims)
      → IsCurrent env cookie users claims
      → role_verdict req claims ≡ pass
      → Passed env req cookie users

by_user :
    (env : AuthEnv) (req : Request) (cookie : Option String) (users : String → UserAnswer)
    → dev_mode env ≡ false
    → is_open_path req.path ≡ false
    → browser_request env req cookie users ≡ pass
    → Passed env req cookie users
by_user env req cookie users live shut h =
    let (claims, known, enough) =
      user_request_pass env req cookie users (browser_pass env req cookie users shut h) in
    as_user claims ((current_user_iff env cookie users claims live).0 known) enough

-- Outside of development, a request that reaches a handler which does not authenticate itself is
-- one of the two reads of a command line with a current token of its own, or it is made in the
-- current browser session of a user whose role, as the database has it now, suffices.
pass_sound :
    (env : AuthEnv) (req : Request) (cookie : Option String) (users : String → UserAnswer)
    → dev_mode env ≡ false
    → is_open_path req.path ≡ false
    → middleware env req cookie users ≡ pass
    → Passed env req cookie users
unfolding middleware
pass_sound env req cookie users live shut h = elim (Option-cases (bearer_token req)) [
  | inl nothing ↦ by_user env req cookie users live shut (ground arith)
  | inr (token, borne) ↦ elim (Bool-cases (is_cli (claims_from_token env token))) [
    | inl command ↦
        let (read, (claims, known)) = cli_pass env req token users (ground arith) in
        as_cli token claims borne read known
    | inr other ↦ by_user env req cookie users live shut (ground arith)
  ]
]

mutation_role :
    (req : Request) (claims : Claims)
    → is_mutating req.method ≡ true
    → is_api_keys_path req.path ≡ false
    → is_ui_transport_path req.path ≡ false
    → role_verdict req claims ≡ pass
    → parse claims.role ≡ admin
unfolding role_verdict
mutation_role req claims mutates keys tunnel h = admin_only (parse claims.role) (ground arith)

get_only : (m : Method) → is_get m ≡ true → is_mutating m ≡ false
get_only Method.get h = refl
get_only Method.head h = refl
get_only Method.options h = refl
get_only Method.post h = cc
get_only Method.put h = cc
get_only Method.delete h = cc
get_only Method.patch h = cc

cli_read_only :
    (method : Method) (path : String) → is_cli_read method path ≡ true → is_mutating method ≡ false
unfolding is_cli_read
cli_read_only method path h = get_only method (ground arith)

-- Outside of development, a request that would change something, and that reaches its handler, is
-- made in the current browser session of a user who is an admin now, except on the paths that
-- authenticate themselves, on a user's own API keys, and in the tunnel, which asks for each message.
pub mutation_needs_admin :
    (env : AuthEnv) (req : Request) (cookie : Option String) (users : String → UserAnswer)
    → dev_mode env ≡ false
    → is_open_path req.path ≡ false
    → is_api_keys_path req.path ≡ false
    → is_ui_transport_path req.path ≡ false
    → is_mutating req.method ≡ true
    → middleware env req cookie users ≡ pass
    → (claims : Claims) × IsCurrent env cookie users claims × (parse claims.role ≡ admin)
mutation_needs_admin env req cookie users live shut keys tunnel mutates h =
    elim (pass_sound env req cookie users live shut h) [
      | as_user claims current enough ↦
          (claims, current, mutation_role req claims mutates keys tunnel enough)
      | as_cli token claims borne read known ↦
          let reads = cli_read_only req.method req.path read in ground arith
    ]
