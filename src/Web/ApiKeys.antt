-- ===== src/Web/ApiKeys.antt =====
-- server/src/api_auth.rs: the API keys of the public interface, and the policy that a key is bound
-- to. JSON, SHA-256 and the two tables of the Enterprise edition are arguments.
use shellfleet.Common.{
  ℕ, Bool, true, false, not, ◌&&◌, String, Option, none, some, List, [], ◌∷◌, ◌==◌, string_eq,
  nat_eq, if◌then◌else◌, ltb, any,
}
use Prim.Native.Char.{code}
use Prim.Native.String.{◌++◌ as append}
use shellfleet.Common.Dict.{erase, insert}
use shellfleet.Common.Result.{Result, ok, err, ◌>>=◌, ◌>>◌, guard, ok_or}
use shellfleet.Common.Table.{first_where, update_where}
use shellfleet.Common.Texts.{strip_prefix, begins_with, trim}
use shellfleet.Accounts.{UserAnswer, DbError}
use shellfleet.Accounts.Session.{Refusal, refusal}
use shellfleet.Web.Request.{Request, header, with_headers, map_some, bind_some}

-- The pattern without its star, if it ends with `:*`.
unfoldable pub star_prefix : String → Option String
star_prefix String.[] = none
star_prefix (String.◌∷◌ c s) =
    if code c == b':' && s == "*" then some ":" else map_some (λ p. String.◌∷◌ c p) (star_prefix s)

unfoldable pub matches_action : String → String → Bool
unfolding star_prefix
matches_action pattern action = if pattern == "*" then true else elim (star_prefix pattern) [
  | some prefix ↦ begins_with prefix action
  | none ↦ pattern == action
]

-- The actions and the resources are JSON texts.
pub record IamStatement : Type 0 where
  pub effect : String
  pub actions : String
  pub resources : String

pub record KeyRow : Type 0 where
  pub id : ℕ
  pub login : String
  pub policy_id : Option ℕ
  pub expires_at : Option ℕ

-- A row of `ee_api_keys`, with the columns that the query selects in `selected`.
pub record ApiKey : Type 0 where
  pub key_hash : String
  pub revoked : ℕ
  pub last_used_at : Option ℕ
  pub selected : KeyRow

-- The `WHERE` of the query.
abbrev pub is_key : String → ApiKey → Bool
is_key hash r = r.key_hash == hash && r.revoked == 0

-- A query that fails finds no row.
unfoldable pub select_key : Bool → String → List ApiKey → Option ApiKey
select_key down hash rows = if down then none else first_where (is_key hash) rows

abbrev used_at : ℕ → ApiKey → ApiKey
used_at now r = record r { last_used_at = some now }

-- That this statement fails is ignored.
unfoldable pub note_use : Bool → ℕ → ℕ → List ApiKey → List ApiKey
note_use down id now rows =
    if down then rows else update_where (λ r. r.selected.id == id) (used_at now) rows

abbrev pub login_header : String
login_header = "x-api-key-login"

abbrev pub role_header : String
role_header = "x-api-key-role"

abbrev pub policy_header : String
policy_header = "x-api-key-policy-id"

unfoldable pub strip_headers : Request → Request
strip_headers req =
    with_headers (erase policy_header (erase role_header (erase login_header req.headers))) req

unfoldable pub api_token : Request → Option String
unfolding header
api_token req =
    bind_some (header "authorization" req) (λ value. map_some trim (strip_prefix "Bearer " value))

-- A value that is no header value is left out.
unfoldable pub set_header : (String → Bool) → String → String → Request → Request
set_header is_value name value req =
    if is_value value then with_headers (insert name (some value) req.headers) req else req

abbrev role_of : UserAnswer → String
role_of (err e) = "viewer"
role_of (ok none) = "viewer"
role_of (ok (some user)) = user.role

unfoldable pub set_policy : (String → Bool) → (ℕ → String) → Option ℕ → Request → Request
unfolding set_header
set_policy is_value to_text none req = req
set_policy is_value to_text (some id) req = set_header is_value policy_header (to_text id) req

unfoldable pub with_key :
    (String → Bool) → (ℕ → String) → (String → UserAnswer) → KeyRow → Request → Request
unfolding set_header set_policy
with_key is_value to_text users row req = set_policy is_value to_text row.policy_id (
    set_header is_value role_header (role_of (users row.login))
      (set_header is_value login_header row.login req))

abbrev pub is_past : ℕ → Option ℕ → Bool
is_past now none = false
is_past now (some expires) = ltb expires now

-- The request that is passed on, or the refusal, and the table. `down n` tells whether the n-th
-- statement on the table fails.
unfoldable pub middleware :
    (String → Bool)
    → (ℕ → String)
    → (String → String)
    → (ℕ → Bool)
    → (String → UserAnswer)
    → ℕ
    → Request
    → List ApiKey
    → Result Refusal Request × List ApiKey
unfolding strip_headers api_token select_key note_use with_key
middleware is_value to_text sha256_hex down users now req rows =
    let stripped : Request = strip_headers req in
    elim (api_token stripped) [
      | none ↦ (ok stripped, rows)
      | some token ↦
          if not (begins_with "sf_live_" token)
          then (ok stripped, rows)
          else elim (select_key (down 0) (sha256_hex token) rows) [
            | none ↦ (err (refusal 401 "invalid API key"), rows)
            | some row ↦
                if is_past now row.selected.expires_at
                then (err (refusal 401 "API key expired"), rows)
                else (
                  ok (with_key is_value to_text users row.selected stripped),
                  note_use (down 1) row.selected.id now rows,
                )
          ]
    ]

abbrev pub scope_text : String → String → String
scope_text required rest = append "API key scope '" (append required rest)

module _ (from_json : String → Option (List String)) where
  abbrev is_star : List String → Bool
  is_star [] = false
  is_star (r ∷ []) = r == "*"
  is_star (r ∷ s ∷ rest) = false

  -- The first loop: each statement's resources are exactly `["*"]`.
  unfoldable pub check_resources : List IamStatement → Result Refusal (Unit {0})
  check_resources [] = ok tt
  check_resources (row ∷ rows) = do
    resources ← ok_or (from_json row.resources) (refusal 500 "malformed policy resources")
    guard (is_star resources) (refusal 500 "resource-constrained policies cannot bind to API keys")
    check_resources rows

  -- The second loop: what is allowed so far, or the refusal.
  unfoldable pub check_actions : String → Bool → List IamStatement → Result Refusal Bool
  check_actions required allowed [] = ok allowed
  check_actions required allowed (row ∷ rows) = do
    actions ← ok_or (from_json row.actions) (refusal 500 "malformed policy actions")
    seen ←
        (if any (λ a. matches_action a required) actions
          then (if row.effect == "Deny"
              then err (refusal 403 (scope_text required "' is denied by its bound policy"))
              else (if row.effect == "Allow"
                  then ok true
                  else err (refusal 500 "unknown policy effect")))
          else ok allowed)
    check_actions required seen rows

  -- `statements` are the rows of the policy that the header names, if it names one.
  unfoldable pub require_key_action :
      Option (Result DbError (List IamStatement)) → String → Result Refusal (Unit {0})
  unfolding check_resources check_actions
  require_key_action none required = ok tt
  require_key_action (some (err e)) required = err (refusal 500 "failed to load policy statements")
  require_key_action (some (ok rows)) required = do
    check_resources rows
    allowed ← check_actions required false rows
    guard allowed (refusal 403 (scope_text required "' is not permitted by its bound policy"))
