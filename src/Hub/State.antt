-- ===== src/Hub/State.antt =====
-- server/src/main.rs: the part of `AppState` that the control hub reads and writes, and what its
-- handlers emit. A channel's sending half is its number; what is sent is an effect, in order.
use shellfleet.Common.{ℕ, Bool, true, false, String, Option, none, some, List, nat_eq, string_eq}
use shellfleet.Common.Int.{ℤ}
use shellfleet.Common.Dict.{lookup, insert}
use shellfleet.Protocol.Wire.{Message, UiMessage}
use shellfleet.Routing.Owners.{OperationOwners}
use shellfleet.Accounts.{UserAnswer}
use shellfleet.Hub.Access.{AgentAccess, EeReply, ApprovalBody}

pub record UiClient : Type 0 where
  pub tx : ℕ
  pub command_tx : ℕ
  pub login : String
  pub client_ip : String
  pub agent_access : AgentAccess
  pub http_receiver : Option ℕ
  pub http_token : Option String
  pub last_seen : ℕ

pub record AgentEntry : Type 0 where
  pub tx : ℕ
  pub capabilities : List String

pub record AppState : Type 0 where
  pub agents : List (String × AgentEntry)
  pub ui_clients : List (ℕ × UiClient)
  pub operation_owners : OperationOwners
  pub ui_id_counter : ℕ

pub record AuditEntry : Type 0 where
  pub actor : Option String
  pub agent_id : Option String
  pub action : String
  pub ok : Bool
  pub detail : Option String

pub data Effect : Type 0 where
  to_ui : (tx : ℕ) → UiMessage → Effect
  to_agent : (tx : ℕ) → Message → Effect
  audit : AuditEntry → Effect
  record_start : (session_id agent_id login session_type : String) → Effect
  record_frame : (session_id direction : String) (bytes : List ℕ) → Effect
  record_stop : (session_id : String) → Effect

-- The environment: `auth::is_dev_mode`, `ee::ee_sidecar_url`, the `type` tag that serde writes for
-- a message, and the decimal form of a number.
pub record Config : Type 0 where
  pub dev_mode : Bool
  pub ee_sidecar_url : Option String
  pub type_tag : Message → String
  pub show : ℤ → String

abbrev pub is_some {ℓ} : {A : Type ℓ} → Option A → Bool
is_some none = false
is_some (some a) = true

abbrev pub ee_active : Config → Bool
ee_active c = is_some c.ee_sidecar_url

-- The arguments of `process_ui_messages` that stay the same through its loop.
pub record Session : Type 0 where
  pub login : String
  pub token_iat : ℕ
  pub client_ip : String
  pub tx : ℕ
  pub client_id : ℕ

-- What the database and the sidecar answer while one message is handled, in the order of asking.
-- The role is asked for again at each gate, and may have changed in between.
pub record Answers : Type 0 where
  pub access_user : UserAnswer
  pub access_reply : EeReply AgentAccess
  pub session_user : UserAnswer
  pub acl_user : UserAnswer
  pub permission_reply : String → EeReply Bool
  pub role_user : UserAnswer
  pub approval_reply : EeReply ApprovalBody

-- `clients.get_mut(&id)`, where the caller changes the cached access.
unfoldable pub update_access : (AgentAccess → AgentAccess) → ℕ → AppState → AppState
update_access f client_id state = elim (lookup client_id state.ui_clients) [
  | none ↦ state
  | some client ↦ record state {
    ui_clients =
        insert client_id (record client { agent_access = f client.agent_access }) state.ui_clients;
  }
]
