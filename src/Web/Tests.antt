-- ===== src/Web/Tests.antt =====
-- Requests at concrete values.
use shellfleet.Common.{
  ◌+◌, ◌-◌, ◌*◌, ◌≤◌, ◌≡◌, ◌⊎◌, ◌↔◌, refl, true, false, String, Option, none, some, List, [], ◌∷◌,
  arith, all, any, string_eq, nat_eq, ◌==◌, ◌&&◌, if◌then◌else◌,
}
use shellfleet.Common.Result.{ok}
use shellfleet.Common.Dict.{lookup, erase, insert}
use shellfleet.Throttle.Bucket.{no_buckets}
use shellfleet.Throttle.Rate.{finish}
use shellfleet.Accounts.{UserRow, UserAnswer, admin, parse}
use shellfleet.Accounts.Session.{
  AuthEnv, Claims, dev_mode, claims_from_token, resolve, current_user,
}
use shellfleet.Accounts.SessionKinds.{IsCurrent, is_ok}
use shellfleet.Web.Request.{Method, Request, pass}
use shellfleet.Web.Rbac.{
  is_open_path, is_api_keys_path, is_ui_transport_path, bearer_token, middleware,
}
use shellfleet.Web.RbacRules.{mutation_needs_admin}
use shellfleet.Web.Csrf.{
  middleware as csrf_middleware, middleware_iff, IsEchoed, cookie_value, session_cookie_name,
}
use shellfleet.Web.ApiKeys.{
  IamStatement, KeyRow, ApiKey, require_key_action, middleware as key_middleware,
}
use shellfleet.Web.Policies.{
  is_clean, grants, require_key_action_exact, SpeaksFor, known_key_needed,
}
use shellfleet.Web.Client.{Net, is_limited_path}
use shellfleet.Web.Flood.{Visit, come_through, log, flood_bounded}

abbrev browser_claims : Claims
browser_claims = record {
  sub = "ana";
  exp = 9000;
  iat = 100;
  role = "viewer";
  mfa = true;
  cli = false;
}

abbrev env : AuthEnv
env = record {
  jwt_secret = "0123456789abcdef0123456789abcdef";
  dev_flag = "";
  allowed_users = "ana" ∷ [];
  now = 200;
  encode = λ c. ok "token";
  decode = λ t. some browser_claims;
}

abbrev ana : UserRow
ana = record {
  login = "ana";
  role = "admin";
  totp_enabled = 0;
  totp_secret = none;
  totp_recovery_hashes = "[]";
  created_at = 1;
  last_login_at = 1;
  session_epoch = 50;
}

abbrev people : String → UserAnswer
people login = ok (some ana)

abbrev change : Request
change = record {
  method = Method.put;
  path = "/users/bob";
  headers = ("cookie", some "csrf=xyz; auth_token=t") ∷ ("x-csrf", some "xyz") ∷ [];
}

mutation_needs_admin_example :
    (claims : Claims) × IsCurrent env (some "token") people claims × (parse claims.role ≡ admin)
unfolding dev_mode is_open_path is_api_keys_path is_ui_transport_path middleware bearer_token lookup
    claims_from_token current_user resolve parse
mutation_needs_admin_example =
    mutation_needs_admin env change (some "token") people refl refl refl refl refl refl

middleware_iff_example : ((csrf_middleware false change).0 ≡ pass) ↔ (
    (cookie_value (session_cookie_name false) change ≡ none)
    ⊎ ((true ≡ false) ⊎ IsEchoed false change))
middleware_iff_example = middleware_iff false change

abbrev parsed : String → Option (List String)
parsed text =
    if text == "all"
    then some ("*" ∷ [])
    else (if text == "agent" then some ("agent:*" ∷ []) else none)

abbrev statements : List IamStatement
statements =
    record { effect = "Allow"; actions = "all"; resources = "all" }
    ∷ record { effect = "Deny"; actions = "agent"; resources = "all" }
    ∷ []

require_key_action_exact_example :
    is_ok (require_key_action parsed (some (ok statements)) "agent:View")
    ≡ (all (is_clean parsed "agent:View") statements && any (grants parsed "agent:View") statements)
require_key_action_exact_example = require_key_action_exact parsed "agent:View" statements

abbrev key : KeyRow
key = record { id = 7; login = "ana"; policy_id = none; expires_at = some 900 }

-- A key that is revoked, and the one in use.
abbrev keys : List ApiKey
keys =
    record { key_hash = "hash"; revoked = 1; last_used_at = none; selected = record key { id = 6 } }
    ∷ record { key_hash = "hash"; revoked = 0; last_used_at = none; selected = key }
    ∷ []

abbrev keyed : Request
keyed = record {
  method = Method.get;
  path = "/agents";
  headers = ("authorization", some "Bearer sf_live_1") ∷ ("x-api-key-login", some "root") ∷ [];
}

known_key_needed_example : SpeaksFor (λ token. "hash") keys 200 keyed (some "ana")
unfolding key_middleware lookup erase insert
known_key_needed_example =
    known_key_needed (λ value. true) (λ n. "7") (λ token. "hash") (λ n. false) people 200 keyed keys
      (some "ana") refl

-- Addresses are their own texts, and no network has any.
abbrev net : Net
net = record {
  Ip = String;
  IpNet = String;
  parse_ip = λ text. some text;
  parse_net = λ text. some text;
  same_ip = λ a b. a == b;
  contains = λ network ip. false;
  text = λ ip. ip;
}

abbrev probe : Request
probe = record {
  method = Method.post;
  path = "/auth/login";
  headers = ("cf-connecting-ip", some "8.8.8.8") ∷ [];
}

abbrev visits : List (Visit net 1 env none)
visits = (probe, "1.2.3.4", 5) ∷ (probe, "1.2.3.4", 9) ∷ []

flood_bounded_example :
    come_through net 1 env none "1.2.3.4" no_buckets visits * (2 * 1)
    ≤ 30 * (2 * 1) + (finish 1 0 (log net 1 env none visits) - 0)
unfolding dev_mode is_limited_path
flood_bounded_example =
    flood_bounded net 1 env none refl "1.2.3.4" no_buckets 0 visits tt
      (omega arith, (omega arith, tt)) (refl, (refl, tt))
