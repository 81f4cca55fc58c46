-- ===== src/Hub/FailClosed.antt =====
-- server/src/main.rs: the access of a dashboard against the replies of the sidecar.
use shellfleet.Common.{
  ◌≡◌, refl, ◌⊎◌, inl, inr, ◌≢◌, ◌↔◌, Bool, true, false, not, ◌&&◌, ◌||◌, String, none, some, List,
  [], ◌∷◌, arith, ◌==◌, nat_eq, string_eq, eq_iff, Bool-cases,
}
use shellfleet.Common.Result.{ok, err}
use shellfleet.Accounts.{UserAnswer}
use shellfleet.Hub.Access.{
  contains, add, remove, AgentAccess, unrestricted, restricted, agent_allowed_by_access,
  merge_exact_agent_access, allowed_names, ee_filter_agent_list, EeReply, failed, garbled, reply,
  ApprovalBody, ui_agent_access, is_admin_row, ee_check_permission, ee_check_approval,
}

contains-add : (s b : String) (xs : List String) → contains (add s xs) b ≡ (s == b || contains xs b)
unfolding add contains
contains-add s b xs = elim (Bool-cases (contains xs s)) [
  | inl present ↦ rw present (ground (arith, eq_iff s b))
  | inr missing ↦ rw missing
]

contains-remove :
    (s b : String) (xs : List String) → contains (remove s xs) b ≡ (not (s == b) && contains xs b)
unfolding remove contains
contains-remove s b [] = ground arith
contains-remove s b (x ∷ xs) =
    ground (arith, contains-remove s b xs, eq_iff x s, eq_iff s b, eq_iff x b)

-- What a cache says of another agent after a merge.
abbrev pub after_merge : AgentAccess → AgentAccess → String → Bool
after_merge cached unrestricted other = true
after_merge unrestricted (restricted s) other = false
after_merge (restricted t) (restricted s) other = contains t other

-- Once an agent's exact access is merged into the cache, the cache answers for that agent what the
-- exact access says. An unrestricted one opens every agent; a restricted one leaves what a
-- restricted cache says of the other agents, and closes them if the cache was unrestricted.
allowed-merge_exact :
    (cached exact : AgentAccess) (agent other : String)
    → (agent_allowed_by_access agent (merge_exact_agent_access cached agent exact)
        ≡ agent_allowed_by_access agent exact)
      × ((other ≡ agent)
          ⊎ (agent_allowed_by_access other (merge_exact_agent_access cached agent exact)
              ≡ after_merge cached exact other))
unfolding merge_exact_agent_access agent_allowed_by_access contains
allowed-merge_exact cached unrestricted agent other = (refl, inr refl)
allowed-merge_exact unrestricted (restricted s) agent other =
    ground (arith, eq_iff agent agent, eq_iff agent other)
allowed-merge_exact (restricted t) (restricted s) agent other = ground (
  arith,
  contains-add agent agent t,
  contains-add agent other t,
  contains-remove agent agent t,
  contains-remove agent other t,
  eq_iff agent agent,
  eq_iff agent other,
)

allowed_names-contains :
    (access : AgentAccess) (agents : List String) (a : String)
    → contains (allowed_names access agents) a
      ≡ (contains agents a && agent_allowed_by_access a access)
unfolding allowed_names contains
allowed_names-contains access [] a = refl
allowed_names-contains access (x ∷ agents) a =
    ground (arith, allowed_names-contains access agents a, eq_iff x a)

-- The agent list that a dashboard is sent names exactly the live agents that its access allows.
ee_filter_agent_list-names :
    (agents : List String) (capabilities : List (String × List String)) (access : AgentAccess)
    (a : String)
    → contains (ee_filter_agent_list agents capabilities access).0 a
      ≡ (contains agents a && agent_allowed_by_access a access)
unfolding ee_filter_agent_list
ee_filter_agent_list-names agents capabilities unrestricted a =
    unfold agent_allowed_by_access in ground arith
ee_filter_agent_list-names agents capabilities (restricted s) a =
    allowed_names-contains (restricted s) agents a

-- A reply that lets the user see the agent: one of the expected form, unrestricted or naming it.
abbrev pub Grants : String → EeReply AgentAccess → Type 0
Grants agent failed = ⊥
Grants agent garbled = ⊥
Grants agent (reply unrestricted) = Unit
Grants agent (reply (restricted s)) = contains s agent ≡ true

-- With a sidecar configured, a user who is not known as an admin sees an agent exactly by a reply
-- that grants it, and may do an action exactly by the reply that allows it. Without a reply of the
-- expected form nothing is allowed.
pub access_fail_closed :
    (url agent : String) (user : UserAnswer) (access : EeReply AgentAccess) (may : EeReply Bool)
    → is_admin_row user ≡ false
    → ((agent_allowed_by_access agent (ui_agent_access (some url) user access) ≡ true)
        ↔ Grants agent access)
      × ((ee_check_permission (some url) may ≡ true) ↔ (may ≡ reply true))
unfolding agent_allowed_by_access ui_agent_access ee_check_permission contains
access_fail_closed url agent user access may h = (grants access, allows may)
  where
    grants :
        (r : EeReply AgentAccess)
        → (agent_allowed_by_access agent (ui_agent_access (some url) user r) ≡ true)
          ↔ Grants agent r
    grants failed = ground arith
    grants garbled = ground arith
    grants (reply unrestricted) = ground arith
    grants (reply (restricted s)) = ground arith

    allows : (r : EeReply Bool) → (ee_check_permission (some url) r ≡ true) ↔ (r ≡ reply true)
    allows failed = ground arith
    allows garbled = ground arith
    allows (reply b) = ground arith

-- A reply that does not ask for approval. A success reply of another form is one.
abbrev pub AsksNoApproval : EeReply ApprovalBody → Type 0
AsksNoApproval failed = ⊥
AsksNoApproval garbled = Unit
AsksNoApproval (reply b) = b.requires_approval ≢ some true

-- With a sidecar configured, an action that may be held runs at once exactly if the sidecar's
-- reply does not ask for approval, which a success reply of an unexpected form never does; it is
-- refused for want of an answer exactly if there is no success reply.
pub ee_check_approval_iff :
    (url : String) (r : EeReply ApprovalBody)
    → ((ee_check_approval (some url) r ≡ ok none) ↔ AsksNoApproval r)
      × ((ee_check_approval (some url) r ≡ err tt) ↔ (r ≡ failed))
unfolding ee_check_approval
ee_check_approval_iff url failed = ground arith
ee_check_approval_iff url garbled = ground arith
ee_check_approval_iff url (reply b) = ground arith
