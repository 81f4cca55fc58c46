-- ===== src/Web/KeyHeaders.antt =====
-- server/src/api_auth.rs: the headers that the API middleware takes off and sets.
use shellfleet.Common.{
  ℕ, ap, sym, subst, ◌≡◌, refl, ◌∙◌, Bool, true, false, String, Option, none, some, List, [], ◌∷◌,
  arith, ◌==◌, string_eq, nat_eq, eq_refl, if◌then◌else◌, Bool-cases, inl, inr,
}
use mathlib.Core.List.{Mem, mem-cons_self, mem-cons_of_mem}
use shellfleet.Common.Table.{first_where}
use shellfleet.Common.Dict.{lookup, erase, lookup-erase, lookup-insert}
use shellfleet.Common.Result.{Result, ok, err}
use shellfleet.Accounts.{UserAnswer}
use shellfleet.Accounts.Session.{Refusal}
use shellfleet.Web.Request.{Request}
use shellfleet.Web.ApiKeys.{
  KeyRow, login_header, role_header, policy_header, strip_headers, set_header, with_key, set_policy,
}

-- What the first value of a header is, in a list of headers.
abbrev pub value_of : String → Result Refusal Request → Option (Option String)
value_of name (err e) = none
value_of name (ok req) = lookup name req.headers

pub stripped_login : (req : Request) → lookup login_header (strip_headers req).headers ≡ none
unfolding strip_headers
stripped_login req =
    lookup-erase policy_header login_header (erase role_header (erase login_header req.headers))
    ∙ lookup-erase role_header login_header (erase login_header req.headers)
    ∙ lookup-erase login_header login_header req.headers

set_other :
    (is_value : String → Bool) (name other value : String) (req : Request)
    → (other == name) ≡ false
    → lookup name (set_header is_value other value req).headers ≡ lookup name req.headers
unfolding set_header
set_other is_value name other value req apart =
    let found = lookup-insert other name (some value) req.headers in ground arith

set_same :
    (is_value : String → Bool) (name value : String) (req : Request)
    → lookup name req.headers ≡ none
    → lookup name (set_header is_value name value req).headers
      ≡ (if is_value value then some (some value) else none)
unfolding set_header
set_same is_value name value req absent =
    let found = lookup-insert name name (some value) req.headers in
    let same = eq_refl name in ground arith

policy_other :
    (is_value : String → Bool) (to_text : ℕ → String) (id : Option ℕ) (req : Request)
    → lookup login_header (set_policy is_value to_text id req).headers
      ≡ lookup login_header req.headers
unfolding set_policy
policy_other is_value to_text none req = refl
policy_other is_value to_text (some id) req =
    set_other is_value login_header policy_header (to_text id) req refl

pub keyed_login :
    (is_value : String → Bool) (to_text : ℕ → String) (users : String → UserAnswer) (row : KeyRow)
    (req : Request)
    → lookup login_header req.headers ≡ none
    → lookup login_header (with_key is_value to_text users row req).headers
      ≡ (if is_value row.login then some (some row.login) else none)
unfolding with_key
keyed_login is_value to_text users row req absent =
    policy_other is_value to_text row.policy_id _
    ∙ set_other is_value login_header role_header _ _ refl
    ∙ set_same is_value login_header row.login req absent

pub first-Mem :
    {A : Type 0} (p : A → Bool) (rows : List A) (row : A)
    → first_where p rows ≡ some row
    → Mem row rows × (p row ≡ true)
first-Mem p [] row found = cc
first-Mem p (r ∷ rows) row found = elim (Bool-cases (p r)) [
  | inl here ↦
      let one : r ≡ row = ground arith in
      (subst (λ x. Mem x (r ∷ rows)) one mem-cons_self, ap p (sym one) ∙ here)
  | inr away ↦
      let (later, good) = first-Mem p rows row (ground arith) in (mem-cons_of_mem r later, good)
]
