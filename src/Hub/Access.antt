-- ===== src/Hub/Access.antt =====
-- server/src/main.rs: which agents a dashboard may see, and what the Enterprise sidecar decides.
-- The sidecar is not part of the repository: its replies are arguments.
use shellfleet.Common.{
  Bool, true, false, ◌||◌, String, Option, none, some, List, [], ◌∷◌, ◌==◌, nat_eq, string_eq,
  if◌then◌else◌,
}
use shellfleet.Common.Int.{ℤ, pos}
use shellfleet.Common.Result.{Result, ok, err}
use shellfleet.Accounts.{UserAnswer}

-- `HashSet::contains`, `insert` and `remove`.
unfoldable pub contains : List String → String → Bool
contains [] s = false
contains (x ∷ xs) s = x == s || contains xs s

unfoldable pub add : String → List String → List String
unfolding contains
add s xs = if contains xs s then xs else s ∷ xs

unfoldable pub remove : String → List String → List String
remove s [] = []
remove s (x ∷ xs) = if x == s then remove s xs else x ∷ remove s xs

pub data AgentAccess : Type 0 where
  unrestricted : AgentAccess
  restricted : (allowed_agents : List String) → AgentAccess

unfoldable pub agent_allowed_by_access : String → AgentAccess → Bool
unfolding contains
agent_allowed_by_access agent unrestricted = true
agent_allowed_by_access agent (restricted allowed_agents) = contains allowed_agents agent

merge_allowed : AgentAccess → String → Bool → AgentAccess
unfolding add remove
merge_allowed unrestricted agent allowed = restricted (if allowed then agent ∷ [] else [])
merge_allowed (restricted allowed_agents) agent allowed =
    restricted (if allowed then add agent allowed_agents else remove agent allowed_agents)

unfoldable pub merge_exact_agent_access : AgentAccess → String → AgentAccess → AgentAccess
unfolding merge_allowed contains
merge_exact_agent_access cached agent unrestricted = unrestricted
merge_exact_agent_access cached agent (restricted allowed_agents) =
    merge_allowed cached agent (contains allowed_agents agent)

module _ (agent_access : AgentAccess) where
  unfoldable pub allowed_names : List String → List String
  allowed_names [] = []
  allowed_names (a ∷ agents) =
      if agent_allowed_by_access a agent_access
      then a ∷ allowed_names agents
      else allowed_names agents

  unfoldable pub allowed_entries : List (String × List String) → List (String × List String)
  allowed_entries [] = []
  allowed_entries ((a, caps) ∷ rest) =
      if agent_allowed_by_access a agent_access
      then (a, caps) ∷ allowed_entries rest
      else allowed_entries rest

unfoldable pub ee_filter_agent_list :
    List String
    → List (String × List String)
    → AgentAccess
    → List String × List (String × List String)
unfolding allowed_names allowed_entries
ee_filter_agent_list agents capabilities unrestricted = (agents, capabilities)
ee_filter_agent_list agents capabilities (restricted s) =
    (allowed_names (restricted s) agents, allowed_entries (restricted s) capabilities)

-- A reply of the sidecar: no answer or no success status; a success whose body does not have the
-- expected form; or the expected value.
pub data EeReply (A : Type 0) : Type 0 where
  failed garbled : EeReply A
  reply : A → EeReply A

-- The two fields that the approval check reads; either may be missing.
pub record ApprovalBody : Type 0 where
  pub requires_approval : Option Bool
  pub request_id : Option ℤ

fetched : EeReply AgentAccess → AgentAccess
fetched failed = restricted []
fetched garbled = restricted []
fetched (reply access) = access

unfoldable pub ee_fetch_agent_access : Option String → EeReply AgentAccess → AgentAccess
unfolding fetched
ee_fetch_agent_access none r = unrestricted
ee_fetch_agent_access (some url) r = fetched r

-- `matches!(get_user(..), Ok(Some(row)) if row.role == "admin")`
unfoldable pub is_admin_row : UserAnswer → Bool
is_admin_row (ok (some row)) = row.role == "admin"
is_admin_row (ok none) = false
is_admin_row (err e) = false

unfoldable pub ui_agent_access : Option String → UserAnswer → EeReply AgentAccess → AgentAccess
unfolding is_admin_row ee_fetch_agent_access
ui_agent_access ee_url user r =
    if is_admin_row user then unrestricted else ee_fetch_agent_access ee_url r

permitted : EeReply Bool → Bool
permitted failed = false
permitted garbled = false
permitted (reply allowed) = allowed

unfoldable pub ee_check_permission : Option String → EeReply Bool → Bool
unfolding permitted
ee_check_permission none r = true
ee_check_permission (some url) r = permitted r

request_number : Option ℤ → ℤ
request_number none = pos 0
request_number (some n) = n

held : ApprovalBody → Option ℤ
unfolding request_number
held b = elim b.requires_approval [
  | some true ↦ some (request_number b.request_id)
  | some false ↦ none
  | none ↦ none
]

-- A body of another form reads as one without the two fields.
approval : EeReply ApprovalBody → Result (Unit {0}) (Option ℤ)
unfolding held
approval failed = err tt
approval garbled = ok none
approval (reply b) = ok (held b)

unfoldable pub ee_check_approval :
    Option String → EeReply ApprovalBody → Result (Unit {0}) (Option ℤ)
unfolding approval
ee_check_approval none r = ok none
ee_check_approval (some url) r = approval r
