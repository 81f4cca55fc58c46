-- ===== src/Routing/Streams.antt =====
-- How the routing table of server/src/operation_routing.rs and the security table of
-- shared/src/security.rs fit together.
use shellfleet.Common.{
  ◌≡◌, ◌⊎◌, ◌≢◌, ◌↔◌, true, false, String, none, some, arith, nat_eq, string_eq, eq_iff,
}
use shellfleet.Common.Result.{Result, ok, err}
use shellfleet.Protocol.Wire.{
  Message, register, system_stats_request, start_terminal_request, stop_terminal_request,
}
use shellfleet.Protocol.Security.{
  UiRequestSecurity, UiRequestError, not_ui_request, requires_approval, ui_request_security,
  service_action,
}
use shellfleet.Routing.Key.{OperationKey}
use shellfleet.Routing.Classify.{
  UiOperation, AgentOperation, start, use_existing, stop, ui_operation, agent_operation,
}

-- What the hub needs of a message that it lets through: the request is allowed, and it is never
-- held for approval.
abbrev pub IsStreamable : Result UiRequestError UiRequestSecurity → Type 0
IsStreamable (ok s) = requires_approval s.class ≡ false
IsStreamable (err e) = ⊥

-- A message that starts, uses or stops an operation is an allowed request, and is never held for
-- approval.
ui_operation-IsStreamable :
    (m : Message) (op : UiOperation)
    → ui_operation m ≡ some op
    → IsStreamable (ui_request_security m)
unfolding ui_operation ui_request_security
ui_operation-IsStreamable (register _ _ _ _) op h = ground arith
ui_operation-IsStreamable _ op h = ground arith

-- Every request that may be held for approval names the action to approve.
requires_approval-action :
    (m : Message) (s : UiRequestSecurity)
    → ui_request_security m ≡ ok s
    → requires_approval s.class ≡ true
    → s.action ≢ none
unfolding ui_request_security service_action
requires_approval-action (register _ _ _ _) s h q = ground arith
requires_approval-action _ s h q = ground arith

-- The only request without an action is the one for system statistics, which everyone may read:
-- all others are subject to the access rules.
action-eq-none :
    (m : Message) (s : UiRequestSecurity)
    → ui_request_security m ≡ ok s
    → s.action ≡ none
    → m ≡ system_stats_request
unfolding ui_request_security service_action
action-eq-none (register _ _ _ _) s h q = ground arith
action-eq-none _ s h q = ground arith

-- An agent's answer to an operation is no request that a dashboard may send, but for terminal
-- data, which travels both ways.
agent_operation-refused :
    (m : Message) (op : AgentOperation)
    → agent_operation m ≡ some op
    → (ui_request_security m ≡ err not_ui_request) ⊎ (ui_operation m ≡ some (use_existing op.key))
unfolding agent_operation ui_operation ui_request_security
agent_operation-refused (register _ _ _ _) op h = ground arith
agent_operation-refused _ op h = ground arith

-- A service can be asked to start, stop or restart and nothing else, and each of the three has
-- its own action.
pub service_action_iff :
    (word action : String)
    → (service_action word ≡ some action) ↔ (
        ((word ≡ "start") × (action ≡ "service:Start"))
        ⊎ ((word ≡ "stop") × (action ≡ "service:Stop"))
        ⊎ ((word ≡ "restart") × (action ≡ "service:Restart")))
unfolding service_action
service_action_iff word action = ground (
  arith,
  eq_iff word "start",
  eq_iff word "stop",
  eq_iff word "restart",
  eq_iff "start" "stop",
  eq_iff "start" "restart",
  eq_iff "stop" "restart",
)

-- What starting a terminal claims is what stopping it releases exactly if the session id is not
-- empty: with the empty id the two concern different operations.
terminal_start_stop :
    (session_id : String) (k l : OperationKey)
    → ui_operation (start_terminal_request session_id) ≡ some (start k)
    → ui_operation (stop_terminal_request session_id) ≡ some (stop l)
    → (k ≡ l) ↔ (session_id ≢ "")
unfolding ui_operation
terminal_start_stop session_id k l p q = ground (arith, eq_iff session_id "")
