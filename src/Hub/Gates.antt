-- ===== src/Hub/Gates.antt =====
-- server/src/main.rs, `process_ui_messages`: the gates that a `SendToAgent` message passes, each
-- from the code's condition and early exit.
use shellfleet.Common.{
  ℕ, Bool, true, false, not, ◌&&◌, String, Option, none, some, List, [], ◌∷◌, nat_eq, string_eq,
  if◌then◌else◌, leb,
}
use Prim.Native.String
use shellfleet.Common.Int.{ℤ}
use shellfleet.Common.Result.{Result, ok, err, ◌>>=◌, ◌>>◌, guard}
use shellfleet.Protocol.Wire.{Message}
use shellfleet.Protocol.Security.{
  UiRequestSecurity, UiRequestError, requires_admin, requires_approval, ui_request_security,
}
use shellfleet.Accounts.{UserAnswer, parse, is_admin}
use shellfleet.Hub.Access.{
  AgentAccess, agent_allowed_by_access, ui_agent_access, is_admin_row, ee_check_permission,
  ee_check_approval,
}
use shellfleet.Hub.State.{AuditEntry, Config, ee_active, Session, Answers}

-- An early exit: the denial that the dashboard is told, the audit row written before it, and
-- whether the loop ends (`break`) or goes on (`continue`).
pub record Refusal : Type 0 where
  pub variant_type : String
  pub reason : String
  pub audits : List AuditEntry
  pub closes : Bool

abbrev pub Gate : Type 0 → Type 0
Gate A = Result Refusal A

abbrev pub denied : String → String → Refusal
denied variant_type reason = record {
  variant_type = variant_type;
  reason = reason;
  audits = [];
  closes = false;
}

infixr 65 ◌then_text◌
abbrev ◌then_text◌ : String → String → String
a then_text b = String.◌++◌ a b

audit_row : Session → String → String → Bool → String → AuditEntry
audit_row ses agent_id action done detail = record {
  actor = some ses.login;
  agent_id = some agent_id;
  action = action;
  ok = done;
  detail = some detail;
}

unfoldable pub check_access : String → AgentAccess → Gate (Unit {0})
check_access agent_id target_access =
    guard (agent_allowed_by_access agent_id target_access)
      (denied "agent_access" "not in your allowed agents")

-- Why the session no longer counts, if it does not.
unfoldable pub session_reason : ℕ → UserAnswer → Option String
session_reason token_iat (ok (some row)) =
    if leb row.session_epoch token_iat then none else some "session revoked — please sign in again"
session_reason token_iat (ok none) = some "session no longer exists"
session_reason token_iat (err e) = some "session verification unavailable"

revoked : Option String → Gate (Unit {0})
revoked none = ok tt
revoked (some reason) =
    err (record { variant_type = "session_revoked"; reason = reason; audits = []; closes = true })

unfoldable pub check_session : Config → Session → Answers → Gate (Unit {0})
unfolding revoked session_reason
check_session cfg ses ans =
    if cfg.dev_mode then ok tt else revoked (session_reason ses.token_iat ans.session_user)

classified : Config → Message → Result UiRequestError UiRequestSecurity → Gate UiRequestSecurity
classified cfg m (ok security) = ok security
classified cfg m (err e) = err (denied (cfg.type_tag m) "message is not an allowed UI request")

unfoldable pub classify : Config → Message → Gate UiRequestSecurity
unfolding classified
classify cfg m = classified cfg m (ui_request_security m)

permission : Config → Answers → Option String → Gate (Unit {0})
permission cfg ans none = ok tt
permission cfg ans (some action) =
    guard (ee_check_permission cfg.ee_sidecar_url (ans.permission_reply action))
      (denied action ("denied: " then_text action))

unfoldable pub check_permission : Config → Answers → UiRequestSecurity → Gate (Unit {0})
unfolding permission
check_permission cfg ans security =
    if ee_active cfg && not cfg.dev_mode
    then (if is_admin_row ans.acl_user then ok tt else permission cfg ans security.action)
    else ok tt

-- `Ok(Some(row)) => row.role, _ => "viewer"`
unfoldable pub role_str : UserAnswer → String
role_str (ok (some row)) = row.role
role_str (ok none) = "viewer"
role_str (err e) = "viewer"

not_admin : Config → Session → String → Message → String → Refusal
unfolding audit_row
not_admin cfg ses agent_id m role = record {
  variant_type = cfg.type_tag m;
  reason = "admin only";
  audits =
      audit_row ses agent_id "ws.send_to_agent.denied" false
        ("role=" then_text role then_text " variant=" then_text cfg.type_tag m)
      ∷ [];
  closes = false;
}

unfoldable pub check_role :
    Config → Session → Answers → String → Message → UiRequestSecurity → Gate (Unit {0})
unfolding not_admin role_str
check_role cfg ses ans agent_id m security =
    if not cfg.dev_mode && requires_admin security.class
    then guard (is_admin (parse (role_str ans.role_user)))
        (not_admin cfg ses agent_id m (role_str ans.role_user))
    else ok tt

held_refusal : Config → Session → String → String → ℤ → Refusal
unfolding audit_row
held_refusal cfg ses agent_id action req_id = record {
  variant_type = "approval_pending";
  reason =
      "held for approval — request #"
      then_text cfg.show req_id
      then_text "; a second admin must approve it in the Approvals tab";
  audits =
      audit_row ses agent_id "ws.approval.held" true
        ("action=" then_text action then_text " request=" then_text cfg.show req_id)
      ∷ [];
  closes = false;
}

approved : Config → Session → String → String → Result (Unit {0}) (Option ℤ) → Gate (Unit {0})
unfolding held_refusal
approved cfg ses agent_id action (ok none) = ok tt
approved cfg ses agent_id action (ok (some req_id)) =
    err (held_refusal cfg ses agent_id action req_id)
approved cfg ses agent_id action (err e) =
    err (denied "approval_unavailable" "approval system unavailable — action blocked (fail-closed)")

approval_of : Config → Session → Answers → String → Message → Option String → Gate (Unit {0})
unfolding approved
approval_of cfg ses ans agent_id m none =
    err (denied (cfg.type_tag m) "request has no approval action mapping")
approval_of cfg ses ans agent_id m (some action) =
    approved cfg ses agent_id action (ee_check_approval cfg.ee_sidecar_url ans.approval_reply)

unfoldable pub check_approval :
    Config → Session → Answers → String → Message → UiRequestSecurity → Gate (Unit {0})
unfolding approval_of
check_approval cfg ses ans agent_id m security =
    if (ee_active cfg && not cfg.dev_mode) && requires_approval security.class
    then approval_of cfg ses ans agent_id m security.action
    else ok tt

-- All gates, in the order of the code.
unfoldable pub gates : Config → Session → Answers → String → Message → Gate UiRequestSecurity
gates cfg ses ans agent_id m = do
  check_access agent_id (ui_agent_access cfg.ee_sidecar_url ans.access_user ans.access_reply)
  check_session cfg ses ans
  security ← classify cfg m
  check_permission cfg ans security
  check_role cfg ses ans agent_id m security
  check_approval cfg ses ans agent_id m security
  ok security
