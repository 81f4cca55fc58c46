-- ===== src/Web/Policies.antt =====
-- server/src/api_auth.rs: what a key's policy permits, and what the headers of a key are worth.
use shellfleet.Common.{
  ℕ, ◌≤◌, ◌⊎◌, ◌≡◌, refl, Bool, true, false, not, ◌&&◌, ◌||◌, String, Option, none, some, List, [],
  ◌∷◌, arith, ◌==◌, string_eq, nat_eq, eq_iff, any, all, Bool-cases, Option-cases, inl, inr,
}
use mathlib.Core.List.{Mem}
use shellfleet.Common.Result.{Result-cases, Result, ok, err}
use shellfleet.Common.Texts.{begins_with}
use shellfleet.Accounts.{UserAnswer}
use shellfleet.Accounts.Session.{Refusal}
use shellfleet.Accounts.SessionKinds.{is_ok}
use shellfleet.Web.Request.{Request}
use shellfleet.Web.KeyHeaders.{value_of, stripped_login, keyed_login, first-Mem}
use shellfleet.Web.ApiKeys.{
  IamStatement, ApiKey, is_key, select_key, matches_action, check_resources, check_actions,
  require_key_action, login_header, strip_headers, api_token, is_past, middleware,
}

module _ (from_json : String → Option (List String)) (required : String) where
  abbrev is_one_star : Option (List String) → Bool
  is_one_star none = false
  is_one_star (some []) = false
  is_one_star (some (r ∷ [])) = r == "*"
  is_one_star (some (r ∷ s ∷ rest)) = false

  abbrev names : Option (List String) → Bool
  names none = false
  names (some actions) = any (λ a. matches_action a required) actions

  abbrev is_list : Option (List String) → Bool
  is_list none = false
  is_list (some actions) = true

  -- A statement that grants the action.
  abbrev pub grants : IamStatement → Bool
  grants row = names (from_json row.actions) && row.effect == "Allow"

  abbrev is_sane : IamStatement → Bool
  is_sane row =
      is_list (from_json row.actions)
      && (not (names (from_json row.actions)) || row.effect == "Allow")

  abbrev is_unbounded : IamStatement → Bool
  is_unbounded row = is_one_star (from_json row.resources)

  -- A statement that stands in no action's way: on all resources, well formed, and if it is about
  -- the action then it allows it.
  abbrev pub is_clean : IamStatement → Bool
  is_clean row = is_unbounded row && is_sane row

  abbrev allows : Result Refusal Bool → Bool
  allows (err e) = false
  allows (ok allowed) = allowed

  all_both :
      (rows : List IamStatement) → all is_clean rows ≡ (all is_unbounded rows && all is_sane rows)
  all_both [] = refl
  all_both (row ∷ rows) = ground (arith, all_both rows)

  resources_ok :
      (rows : List IamStatement) → is_ok (check_resources from_json rows) ≡ all is_unbounded rows
  unfolding check_resources
  resources_ok [] = refl
  resources_ok (row ∷ rows) = elim (Option-cases (from_json row.resources)) [
    | inl nothing ↦ ground arith
    | inr ([], parsed) ↦ ground arith
    | inr (r ∷ [], parsed) ↦ ground (arith, resources_ok rows)
    | inr (r ∷ s ∷ rest, parsed) ↦ ground arith
  ]

  actions_allow :
      (allowed : Bool) (rows : List IamStatement)
      → allows (check_actions from_json required allowed rows)
        ≡ (all is_sane rows && (allowed || any grants rows))
  unfolding check_actions
  actions_allow allowed [] = ground arith
  actions_allow allowed (row ∷ rows) =
      let rest = actions_allow allowed rows in
      let granted = actions_allow true rows in
      let other = eq_iff row.effect "Deny" in
      let same = eq_iff row.effect "Allow" in
      elim (Option-cases (from_json row.actions)) [
        | inl nothing ↦ ground arith
        | inr (actions, parsed) ↦ elim (Bool-cases (any (λ a. matches_action a required) actions)) [
          | inl about ↦ elim (Bool-cases (row.effect == "Deny")) [
            | inl denied ↦
                let is_deny : row.effect ≡ "Deny" = other.0 denied in
                let no_allow : (row.effect == "Allow") ≡ false = rw is_deny refl in ground arith
            | inr spared ↦ ground arith
          ]
          | inr not_about ↦ ground arith
        ]
      ]

  -- A key that is bound to a policy may do what is asked exactly if every statement of the policy is
  -- on all resources and well formed, none of them that is about the action has an effect other than
  -- to allow it, and one does allow it: a denial prevails in whatever order they stand.
  pub require_key_action_exact :
      (rows : List IamStatement)
      → is_ok (require_key_action from_json (some (ok rows)) required)
        ≡ (all is_clean rows && any grants rows)
  unfolding require_key_action
  require_key_action_exact rows =
      let resources = resources_ok rows in
      let actions = actions_allow false rows in
      let together = all_both rows in
      elim (Result-cases (check_resources from_json rows)) [
        | inr (e, failed) ↦ ground arith
        | inl (done, passed) ↦ elim (Result-cases (check_actions from_json required false rows)) [
          | inr (e, failed) ↦ ground arith
          | inl (allowed, checked) ↦ ground arith
        ]
      ]

-- The key of the table by which a request speaks for a user at a time.
pub record SpeaksFor (sha256_hex : String → String) (rows : List ApiKey) (now : ℕ) (req : Request)
    (login : Option String) : Type 0 where
  pub token : String
  pub row : ApiKey
  pub sent : api_token (strip_headers req) ≡ some token
  pub is_live_key : begins_with "sf_live_" token ≡ true
  pub known : Mem row rows
  pub hash : row.key_hash ≡ sha256_hex token
  pub not_revoked : row.revoked ≡ 0
  pub in_time :
      (row.selected.expires_at ≡ none)
      ⊎ ((expires : ℕ) × (row.selected.expires_at ≡ some expires) × (now ≤ expires))
  pub owner : login ≡ some row.selected.login

not_past :
    (now : ℕ) (expires : Option ℕ)
    → is_past now expires ≡ false
    → (expires ≡ none) ⊎ ((e : ℕ) × (expires ≡ some e) × (now ≤ e))
not_past now none h = inl refl
not_past now (some e) h = inr (e, refl, ground arith)

select_key_lem :
    (down : Bool) (hash : String) (rows : List ApiKey) (row : ApiKey)
    → select_key down hash rows ≡ some row
    → Mem row rows × (row.key_hash ≡ hash) × (row.revoked ≡ 0)
unfolding select_key
select_key_lem down hash rows row found =
    let (known, good) = first-Mem (is_key hash) rows row (ground arith) in
    (known, (eq_iff row.key_hash hash).0 (ground arith), ground arith)

-- Whatever a client sends and whichever statements fail, a request reaches its handler with the
-- header that names the user of an API key only if it carries a token whose hash is that of a key in
-- the table, which is not revoked and has no end or has not reached it, and the header names that
-- key's user.
pub known_key_needed :
    (is_value : String → Bool) (to_text : ℕ → String) (sha256_hex : String → String)
    (down : ℕ → Bool) (users : String → UserAnswer) (now : ℕ) (req : Request) (rows : List ApiKey)
    (login : Option String)
    → value_of login_header (middleware is_value to_text sha256_hex down users now req rows).0
      ≡ some login
    → SpeaksFor sha256_hex rows now req login
unfolding middleware
known_key_needed is_value to_text sha256_hex down users now req rows login named =
    let absent = stripped_login req in
    elim (Option-cases (api_token (strip_headers req))) [
      | inl nothing ↦ ground arith
      | inr (token, sent) ↦ elim (Bool-cases (begins_with "sf_live_" token)) [
        | inr other ↦ ground arith
        | inl live ↦ elim (Option-cases (select_key (down 0) (sha256_hex token) rows)) [
          | inl unknown ↦ ground arith
          | inr (row, found) ↦
              let keyed =
                keyed_login is_value to_text users row.selected (strip_headers req) absent in
              let (known, hash, live_row) =
                select_key_lem (down 0) (sha256_hex token) rows row found in
              record {
                token = token;
                row = row;
                sent = sent;
                is_live_key = live;
                known = known;
                hash = hash;
                not_revoked = live_row;
                in_time = not_past now row.selected.expires_at (ground arith);
                owner = ground arith;
              }
        ]
      ]
    ]
