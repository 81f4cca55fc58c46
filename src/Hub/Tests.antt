-- ===== src/Hub/Tests.antt =====
-- The control hub at concrete values: one agent, and the dashboard of an admin.
use shellfleet.Common.{
  inl, ℕ, ◌≡◌, refl, ◌∙◌, ap, ◌⊎◌, ◌≢◌, ◌↔◌, Bool, true, false, String, none, some, [], ◌∷◌, nat_eq,
  string_eq, eq_iff, All,
}
use shellfleet.Common.Dict.{lookup}
use shellfleet.Common.Result.{ok, err}
use shellfleet.Protocol.Wire
use shellfleet.Protocol.Wire.{Message, UiMessage}
use shellfleet.Protocol.Security.{UiRequestSecurity, interactive, ui_request_security}
use shellfleet.Routing.Key.{OperationKey, terminal, map_key_beq}
use shellfleet.Routing.Owners.{owner}
use shellfleet.Routing.Classify.{ui_operation, terminal_key, AgentOperation, agent_operation}
use shellfleet.Accounts.{UserAnswer, parse}
use shellfleet.Hub.Access.{
  AgentAccess, unrestricted, restricted, EeReply, failed, reply, ApprovalBody,
  agent_allowed_by_access, ui_agent_access, is_admin_row, ee_check_permission, ee_check_approval,
}
use shellfleet.Hub.FailClosed.{access_fail_closed, Grants, AsksNoApproval, ee_check_approval_iff}
use shellfleet.Hub.State.{AppState, AgentEntry, UiClient, Config, Session, Answers}
use shellfleet.Hub.Gates.{
  gates, check_access, check_session, session_reason, classify, check_permission, check_role,
  role_str, check_approval,
}
use shellfleet.Hub.Dispatch.{send_to_agent, process_ui_messages}
use shellfleet.Hub.Relay.{relay}
use shellfleet.Hub.Authority.{IsAuthorized, IsLive, IsAdmin, gates_iff}
use shellfleet.Hub.Rights.{MayUse, owner_after}
use shellfleet.Hub.Delivery.{agent_sends, ui_sends, reaches_only, reaches}
use shellfleet.Hub.Lifetime.{running_iff}
use shellfleet.Hub.Recording.{is_open, recordings_closed}
use shellfleet.Hub.Sessions.{Log, session_over, IsReading, session_reads}
use shellfleet.Hub.Isolation.{output_private}

abbrev cfg : Config
cfg = record { dev_mode = false; ee_sidecar_url = none; type_tag = λ m. "message"; show = λ n. "0" }

abbrev ses : Session
ses = record { login = "ana"; token_iat = 10; client_ip = "10.0.0.1"; tx = 7; client_id = 1 }

abbrev known : String → UserAnswer
known role = ok (
    some (record {
      login = "ana";
      role = role;
      totp_enabled = 0;
      totp_secret = none;
      totp_recovery_hashes = "";
      created_at = 1;
      last_login_at = 4;
      session_epoch = 5;
    }))

abbrev answers : String → Answers
answers role = record {
  access_user = known role;
  access_reply = failed;
  session_user = known role;
  acl_user = known role;
  permission_reply = λ action. failed;
  role_user = known role;
  approval_reply = failed;
}

abbrev dashboard : UiClient
dashboard = record {
  tx = 7;
  command_tx = 8;
  login = "ana";
  client_ip = "10.0.0.1";
  agent_access = unrestricted;
  http_receiver = none;
  http_token = none;
  last_seen = 0;
}

abbrev host : AgentEntry
host = record { tx = 3; capabilities = [] }

abbrev state : AppState
state = record {
  agents = ("a1", host) ∷ [];
  ui_clients = (1, dashboard) ∷ [];
  operation_owners = record { owners = (("a1", terminal "s0"), 1) ∷ [] };
  ui_id_counter = 2;
}

abbrev opening : Message
opening = Wire.start_terminal_request "s1"

abbrev security : UiRequestSecurity
security = record { action = some "agent:Terminal"; class = interactive }

gates_iff_example :
    (gates cfg ses (answers "admin") "a1" opening ≡ ok security)
    ↔ IsAuthorized cfg ses (answers "admin") "a1" opening security
gates_iff_example = gates_iff cfg ses (answers "admin") "a1" opening security

authorized : IsAuthorized cfg ses (answers "admin") "a1" opening security
unfolding gates check_access agent_allowed_by_access ui_agent_access is_admin_row check_session
    session_reason classify ui_request_security check_permission check_role role_str parse
    check_approval
authorized = gates_iff_example.0 refl

reaches_only_example :
    (agent_sends (send_to_agent cfg ses (answers "admin") state [] "a1" opening).effects ≡ [])
    ⊎ ((s : UiRequestSecurity) × (entry : AgentEntry) × IsAuthorized cfg ses
          (answers "admin")
          "a1"
          opening
          s
        × (lookup "a1" state.agents ≡ some entry)
        × MayUse state.operation_owners "a1" 1 (ui_operation opening)
        × (agent_sends (send_to_agent cfg ses (answers "admin") state [] "a1" opening).effects
            ≡ (entry.tx, opening) ∷ []))
reaches_only_example = reaches_only cfg ses (answers "admin") state [] "a1" opening

reaches_example :
    (agent_sends (send_to_agent cfg ses (answers "admin") state [] "a1" opening).effects
      ≡ (3, opening) ∷ [])
    × ((other : String) (key : OperationKey)
        → owner
            (send_to_agent cfg ses (answers "admin") state [] "a1" opening).state.operation_owners
            other
            key
          ≡ owner_after state.operation_owners "a1" 1 (ui_operation opening) other key)
    × ((send_to_agent cfg ses (answers "admin") state [] "a1" opening).running ≡ true)
unfolding lookup owner ui_operation map_key_beq
reaches_example =
    reaches cfg ses (answers "admin") state [] "a1" opening security host authorized refl (inl refl)

abbrev revoked : Answers
revoked = record (answers "admin") { session_user = ok none }

running_iff_example : ((send_to_agent cfg ses revoked state [] "a1" opening).running ≡ false) ↔ (
    (agent_allowed_by_access "a1" (ui_agent_access none (known "admin") failed) ≡ true)
    × (false ≡ false)
    × ¬ IsLive ses (ok none))
running_iff_example = running_iff cfg ses revoked state [] "a1" opening

abbrev log : Log
log =
    (λ st. st, answers "viewer", UiMessage.send_to_agent "a1" opening)
    ∷ (λ st. st, answers "viewer", UiMessage.list_agents_request)
    ∷ []

recordings_closed_example : is_open "s1" (process_ui_messages cfg ses log state []).1 false ≡ false
recordings_closed_example = recordings_closed cfg ses log state "s1"

session_over_example :
    (lookup 1 (process_ui_messages cfg ses log state []).0.ui_clients ≡ none)
    × (owner (process_ui_messages cfg ses log state []).0.operation_owners "a1" (terminal "s0")
        ≢ some 1)
session_over_example = session_over cfg ses log state [] "a1" (terminal "s0")

viewer_no-IsAdmin : ¬ IsAdmin (known "viewer")
viewer_no-IsAdmin (row, e, boss) =
    let viewer_row : "viewer" ≡ row.role = ap role_of e in
    cc ((eq_iff "viewer" "admin").1 (viewer_row ∙ boss))
  where
    role_of : UserAnswer → String
    role_of (ok (some r)) = r.role
    role_of (ok none) = "viewer"
    role_of (err d) = "viewer"

session_reads_example : All IsReading (agent_sends (process_ui_messages cfg ses log state []).1)
session_reads_example =
    session_reads cfg ses log state [] refl (viewer_no-IsAdmin, (viewer_no-IsAdmin, tt))

abbrev all_open : ℕ → Bool
all_open tx = true

abbrev output : Message
output = Wire.terminal_data "s0" (104 ∷ [])

abbrev output_op : AgentOperation
output_op = record { key = terminal "s0"; ends = false }

abbrev output_frame : UiMessage
output_frame = UiMessage.agent_message "a1" output

output_private_example :
    (ui_sends (relay all_open "a1" output state).1 ≡ [])
    ⊎ ((client_id : ℕ) × (ctx : UiClient) × (owner state.operation_owners "a1" (terminal "s0")
          ≡ some client_id)
        × (lookup client_id state.ui_clients ≡ some ctx)
        × (agent_allowed_by_access "a1" ctx.agent_access ≡ true)
        × (ui_sends (relay all_open "a1" output state).1 ≡ (ctx.tx, output_frame) ∷ []))
unfolding agent_operation terminal_key
output_private_example = output_private all_open "a1" output state output_op refl

abbrev only_a1 : AgentAccess
only_a1 = restricted ("a1" ∷ [])

abbrev agent : String
agent = "a1"

access_fail_closed_example :
    ((agent_allowed_by_access "a1"
          (ui_agent_access (some "http://ee") (known "viewer") (reply only_a1))
        ≡ true)
      ↔ Grants "a1" (reply only_a1))
    × ((ee_check_permission (some "http://ee") (reply true) ≡ true) ↔ (reply true ≡ reply true))
unfolding is_admin_row
access_fail_closed_example =
    access_fail_closed "http://ee" "a1" (known "viewer") (reply only_a1) (reply true) refl

abbrev no_answer : EeReply ApprovalBody
no_answer = failed

ee_check_approval_iff_example :
    ((ee_check_approval (some "http://ee") no_answer ≡ ok none) ↔ AsksNoApproval no_answer)
    × ((ee_check_approval (some "http://ee") no_answer ≡ err tt) ↔ (no_answer ≡ failed))
ee_check_approval_iff_example = ee_check_approval_iff "http://ee" no_answer
