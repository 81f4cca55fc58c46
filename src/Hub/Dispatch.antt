-- ===== src/Hub/Dispatch.antt =====
-- server/src/main.rs, `process_ui_messages`: one message of a dashboard, the loop over all of them
-- and the cleanup after it.
use shellfleet.Common.{
  ℕ, Bool, true, false, not, String, Option, none, some, List, [], ◌∷◌, ◌++◌, map, nat_eq,
  string_eq, if◌then◌else◌,
}
use shellfleet.Common.Dict.{lookup, erase}
use shellfleet.Common.Result.{ok, err}
use shellfleet.Protocol.Wire.{
  Message, UiMessage, start_terminal_request, terminal_data, stop_terminal_request,
}
use shellfleet.Routing.Owners.{OperationOwners, owner, claim, owned_by, release, release_client}
use shellfleet.Routing.Classify.{UiOperation, start, use_existing, stop, ui_operation}
use shellfleet.Hub.Access.{
  add, remove, merge_exact_agent_access, ui_agent_access, ee_filter_agent_list,
}
use shellfleet.Hub.State.{
  AppState, AgentEntry, Effect, to_ui, to_agent, audit, record_start, record_frame, record_stop,
  Config, Session, Answers, update_access,
}
use shellfleet.Hub.Gates.{Refusal, Gate, gates, denied}
use shellfleet.Protocol.Security.{UiRequestSecurity}

-- The loop's variables: the shared state and the terminals that this client opened; what was
-- emitted; and whether the loop goes on.
pub record Loop : Type 0 where
  pub state : AppState
  pub rec_sessions : List String
  pub effects : List Effect
  pub running : Bool

denial : Session → String → String → String → Effect
denial ses agent_id variant_type reason =
    to_ui ses.tx (UiMessage.permission_denied agent_id variant_type reason)

unfoldable pub refuse : Session → String → AppState → List String → Refusal → Loop
unfolding denial
refuse ses agent_id state rec r = record {
  state = state;
  rec_sessions = rec;
  effects = map audit r.audits ++ (denial ses agent_id r.variant_type r.reason ∷ []);
  running = not r.closes;
}

-- The ownership test of an operation's message.
unfoldable pub own : OperationOwners → String → ℕ → Option UiOperation → OperationOwners × Bool
own o agent_id client_id none = (o, true)
own o agent_id client_id (some (start key)) = claim o agent_id key client_id
own o agent_id client_id (some (use_existing key)) = (o, owned_by (owner o agent_id key) client_id)
own o agent_id client_id (some (stop key)) = release o agent_id key client_id

-- The recording tap.
unfoldable pub tap : Session → String → Message → List Effect
tap ses agent_id (start_terminal_request session_id) =
    record_start session_id agent_id ses.login "host" ∷ []
tap ses agent_id (terminal_data session_id bytes) = record_frame session_id "i" bytes ∷ []
tap ses agent_id (stop_terminal_request session_id) = record_stop session_id ∷ []
tap ses agent_id _ = []

unfoldable pub tapped : Message → List String → List String
unfolding add remove
tapped (start_terminal_request session_id) rec = add session_id rec
tapped (stop_terminal_request session_id) rec = remove session_id rec
tapped _ rec = rec

unfoldable pub forward : Option AgentEntry → Message → List Effect
forward none m = []
forward (some entry) m = to_agent entry.tx m ∷ []

unfoldable pub deliver : Session → String → Message → AppState → List String → Loop
unfolding tap tapped forward
deliver ses agent_id m state rec = record {
  state = state;
  rec_sessions = tapped m rec;
  effects = tap ses agent_id m ++ forward (lookup agent_id state.agents) m;
  running = true;
}

unfoldable pub owned :
    Config → Session → String → Message → AppState → List String → OperationOwners × Bool → Loop
owned cfg ses agent_id m state rec (owners, true) =
    deliver ses agent_id m (record state { operation_owners = owners }) rec
owned cfg ses agent_id m state rec (owners, false) =
    refuse ses agent_id (record state { operation_owners = owners }) rec
      (denied (cfg.type_tag m) "operation is owned by another client")

-- The target's access is cached before any gate.
unfoldable pub cache_access : Config → Session → Answers → String → AppState → AppState
cache_access cfg ses ans agent_id state =
    update_access
      (λ cached.
        merge_exact_agent_access cached agent_id
          (ui_agent_access cfg.ee_sidecar_url ans.access_user ans.access_reply))
      ses.client_id state

-- What follows the gates.
unfoldable pub decided :
    Config → Session → String → Message → AppState → List String → Gate UiRequestSecurity → Loop
decided cfg ses agent_id m state rec (err r) = refuse ses agent_id state rec r
decided cfg ses agent_id m state rec (ok security) =
    owned cfg ses agent_id m state rec
      (own state.operation_owners agent_id ses.client_id (ui_operation m))

unfoldable pub send_to_agent :
    Config → Session → Answers → AppState → List String → String → Message → Loop
send_to_agent cfg ses ans state rec agent_id m =
    decided cfg ses agent_id m (cache_access cfg ses ans agent_id state) rec
      (gates cfg ses ans agent_id m)

abbrev pub agent_names : List (String × AgentEntry) → List String
agent_names agents = map (λ e. e.0) agents

abbrev pub agent_capabilities : List (String × AgentEntry) → List (String × List String)
agent_capabilities agents = map (λ e. (e.0, e.1.capabilities)) agents

unfoldable pub list_agents : Config → Session → Answers → AppState → List String → Loop
list_agents cfg ses ans state rec =
    let access = ui_agent_access cfg.ee_sidecar_url ans.access_user ans.access_reply in
    let (agents, capabilities) =
      ee_filter_agent_list (agent_names state.agents) (agent_capabilities state.agents) access in
    record {
      state = update_access (λ cached. access) ses.client_id state;
      rec_sessions = rec;
      effects = to_ui ses.tx (UiMessage.list_agents_response agents capabilities) ∷ [];
      running = true;
    }

-- One round of the loop.
unfoldable pub process_ui_message :
    Config → Session → Answers → AppState → List String → UiMessage → Loop
process_ui_message cfg ses ans state rec UiMessage.list_agents_request =
    list_agents cfg ses ans state rec
process_ui_message cfg ses ans state rec (UiMessage.send_to_agent agent_id m) =
    send_to_agent cfg ses ans state rec agent_id m
process_ui_message cfg ses ans state rec _ = record {
  state = state;
  rec_sessions = rec;
  effects = [];
  running = true;
}

-- After the loop, whichever way it ended. The recordings stop in the list's order; the code's set
-- has none.
unfoldable pub cleanup : Session → AppState → List String → AppState × List Effect
cleanup ses state rec = (
  record state {
    ui_clients = erase ses.client_id state.ui_clients;
    operation_owners = release_client state.operation_owners ses.client_id;
  },
  map record_stop rec,
)

-- The loop on the messages that arrive before the command channel closes. What other tasks do to
-- the shared state between two messages is the function that comes with each.
unfoldable pub process_ui_messages :
    Config
    → Session
    → List ((AppState → AppState) × Answers × UiMessage)
    → AppState
    → List String
    → AppState × List Effect
process_ui_messages cfg ses [] state rec = cleanup ses state rec
process_ui_messages cfg ses ((others, ans, m) ∷ rest) state rec =
    let round = process_ui_message cfg ses ans (others state) rec m in
    let later = process_ui_messages cfg ses rest round.state round.rec_sessions in
    if round.running
    then (later.0, round.effects ++ later.1)
    else (let (end, stops) = cleanup ses round.state round.rec_sessions in
        (end, round.effects ++ stops))
