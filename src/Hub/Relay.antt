-- ===== src/Hub/Relay.antt =====
-- server/src/main.rs, `handle_agent_socket`: how a message of an agent reaches the dashboards.
-- Whether a dashboard's channel still takes messages is an argument.
use shellfleet.Common.{
  ℕ, Bool, true, ◌&&◌, String, Option, none, some, List, [], ◌∷◌, ◌++◌, nat_eq, string_eq,
  if◌then◌else◌,
}
use shellfleet.Common.Dict.{lookup, erase, retain}
use shellfleet.Protocol.Wire.{Message, UiMessage, terminal_data}
use shellfleet.Routing.Owners.{OperationOwners, owner, release_agent_operation}
use shellfleet.Routing.Classify.{AgentOperation, agent_operation}
use shellfleet.Hub.Access.{agent_allowed_by_access}
use shellfleet.Hub.State.{AppState, UiClient, Effect, to_ui, record_frame}

-- The recording tap.
abbrev pub output_tap : Message → List Effect
output_tap (terminal_data session_id bytes) = record_frame session_id "o" bytes ∷ []
output_tap _ = []

module _ (open_tx : ℕ → Bool) (agent_id : String) (ui_msg : UiMessage) where
  -- To the owner alone; an owner whose channel is closed is removed.
  unfoldable pub to_client : AppState → ℕ → Option UiClient → AppState × List Effect
  to_client state client_id none = (state, [])
  to_client state client_id (some ctx) =
      if agent_allowed_by_access agent_id ctx.agent_access
      then (if open_tx ctx.tx
          then (state, to_ui ctx.tx ui_msg ∷ [])
          else (record state { ui_clients = erase client_id state.ui_clients }, []))
      else (state, [])

  unfoldable pub to_owner : AppState → Option ℕ → AppState × List Effect
  unfolding to_client
  to_owner state none = (state, [])
  to_owner state (some client_id) = to_client state client_id (lookup client_id state.ui_clients)

  -- `clients.retain`: a client that may see the agent stays if its channel takes the message.
  unfoldable pub stays : ℕ → UiClient → Bool
  stays client_id ctx =
      if agent_allowed_by_access agent_id ctx.agent_access then open_tx ctx.tx else true

  unfoldable pub broadcast_to : List (ℕ × UiClient) → List Effect
  broadcast_to [] = []
  broadcast_to ((client_id, ctx) ∷ clients) =
      if agent_allowed_by_access agent_id ctx.agent_access && open_tx ctx.tx
      then to_ui ctx.tx ui_msg ∷ broadcast_to clients
      else broadcast_to clients

  unfoldable pub broadcast : AppState → AppState × List Effect
  unfolding stays broadcast_to
  broadcast state =
      (record state { ui_clients = retain stays state.ui_clients }, broadcast_to state.ui_clients)

unfoldable pub ended : String → AgentOperation → OperationOwners → OperationOwners
ended agent_id operation owners =
    if operation.ends then release_agent_operation owners agent_id operation.key else owners

-- The owner is read before an operation that ends is released.
unfoldable pub routed :
    (ℕ → Bool) → String → UiMessage → AppState → Option AgentOperation → AppState × List Effect
unfolding broadcast to_owner ended
routed open_tx agent_id ui_msg state none = broadcast open_tx agent_id ui_msg state
routed open_tx agent_id ui_msg state (some operation) =
    to_owner open_tx agent_id ui_msg
      (record state { operation_owners = ended agent_id operation state.operation_owners })
      (owner state.operation_owners agent_id operation.key)

unfoldable pub relay : (ℕ → Bool) → String → Message → AppState → AppState × List Effect
unfolding routed
relay open_tx agent_id other state =
    let (after, sent) =
      routed open_tx agent_id (UiMessage.agent_message agent_id other) state
        (agent_operation other) in
    (after, output_tap other ++ sent)
