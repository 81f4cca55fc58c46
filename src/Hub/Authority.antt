-- ===== src/Hub/Authority.antt =====
-- server/src/main.rs, `process_ui_messages`: what the gates ask of a message, stated without them.
use shellfleet.Common.{
  ◌≤◌, ◌≡◌, refl, subst, ◌⊎◌, inl, inr, ◌≢◌, ◌↔◌, true, false, String, none, some, arith, nat_eq,
  string_eq, eq_iff, Option-cases, Bool-cases,
}
use shellfleet.Common.Result.{ok, err, >>=-eq-ok}
use shellfleet.Protocol.Wire.{Message}
use shellfleet.Protocol.Security.{
  UiRequestSecurity, requires_admin, requires_approval, ui_request_security,
}
use shellfleet.Accounts.{UserAnswer, UserRow, parse, is_admin}
use shellfleet.Hub.Access.{
  AgentAccess, agent_allowed_by_access, ui_agent_access, is_admin_row, ee_check_permission,
  ee_check_approval,
}
use shellfleet.Hub.State.{Config, ee_active, Session, Answers}
use shellfleet.Hub.Gates.{
  check_access, check_session, session_reason, classify, check_permission, role_str, check_role,
  check_approval, gates,
}

-- The database knows the user, and the session began no earlier than the user's epoch.
abbrev pub IsLive : Session → UserAnswer → Type 0
IsLive ses user = (row : UserRow) × (user ≡ ok (some row)) × (row.session_epoch ≤ ses.token_iat)

-- The database knows the user as an admin.
abbrev pub IsAdmin : UserAnswer → Type 0
IsAdmin user = (row : UserRow) × (user ≡ ok (some row)) × (row.role ≡ "admin")

module _ (cfg : Config) (ses : Session) (ans : Answers) (agent_id : String) where
  -- The access rules of the sidecar allow the action, or they do not apply.
  abbrev pub IsPermitted : UiRequestSecurity → Type 0
  IsPermitted s =
      (ee_active cfg ≡ false)
      ⊎ IsAdmin ans.acl_user
      ⊎ (s.action ≡ none)
      ⊎ ((a : String) × (s.action ≡ some a)
          × (ee_check_permission cfg.ee_sidecar_url (ans.permission_reply a) ≡ true))

  -- Nobody else has to approve the message.
  abbrev pub IsApproved : UiRequestSecurity → Type 0
  IsApproved s =
      (ee_active cfg ≡ false)
      ⊎ (requires_approval s.class ≡ false)
      ⊎ ((s.action ≢ none) × (ee_check_approval cfg.ee_sidecar_url ans.approval_reply ≡ ok none))

  -- All that the hub promises of a message that it forwards.
  pub record IsAuthorized (m : Message) (s : UiRequestSecurity) : Type 0 where
    pub visible :
        agent_allowed_by_access agent_id
          (ui_agent_access cfg.ee_sidecar_url ans.access_user ans.access_reply)
        ≡ true
    pub live : (cfg.dev_mode ≡ true) ⊎ IsLive ses ans.session_user
    pub request : ui_request_security m ≡ ok s
    pub permitted : (cfg.dev_mode ≡ true) ⊎ IsPermitted s
    pub role : (cfg.dev_mode ≡ true) ⊎ (requires_admin s.class ≡ false) ⊎ IsAdmin ans.role_user
    pub approved : (cfg.dev_mode ≡ true) ⊎ IsApproved s

  pub session_reason_iff :
      (user : UserAnswer) → (session_reason ses.token_iat user ≡ none) ↔ IsLive ses user
  unfolding session_reason
  session_reason_iff (ok none) = ground arith
  session_reason_iff (err e) = ground arith
  session_reason_iff (ok (some row)) = (λ h. (row, refl, ground arith), λ (r, e, le). ground arith)

  pub check_session_iff :
      (check_session cfg ses ans ≡ ok tt) ↔ ((cfg.dev_mode ≡ true) ⊎ IsLive ses ans.session_user)
  unfolding check_session
  check_session_iff = (
    λ h. elim (Bool-cases cfg.dev_mode) [
      | inl dev ↦ inl dev
      | inr no_dev ↦ inr ((session_reason_iff ans.session_user).0 (ground arith))
    ],
    λ h. ground (arith, (session_reason_iff ans.session_user).1),
  )

  classify_iff :
      (m : Message) (s : UiRequestSecurity)
      → (classify cfg m ≡ ok s) ↔ (ui_request_security m ≡ ok s)
  unfolding classify
  classify_iff m s = ground arith

  IsAdmin-is_admin_row : (user : UserAnswer) → (is_admin_row user ≡ true) ↔ IsAdmin user
  unfolding is_admin_row
  IsAdmin-is_admin_row (ok none) = ground arith
  IsAdmin-is_admin_row (err e) = ground arith
  IsAdmin-is_admin_row (ok (some row)) =
      (λ h. (row, refl, (eq_iff _ _).0 h), λ (r, e, same). ground (arith, eq_iff row.role "admin"))

  IsAdmin-role_str : (user : UserAnswer) → (is_admin (parse (role_str user)) ≡ true) ↔ IsAdmin user
  unfolding role_str parse
  IsAdmin-role_str (ok none) = ground arith
  IsAdmin-role_str (err e) = ground arith
  IsAdmin-role_str (ok (some row)) = (
    λ h. (row, refl, ground (arith, eq_iff row.role "admin")),
    λ (r, e, same). ground (arith, eq_iff row.role "admin"),
  )

  check_permission_iff :
      (s : UiRequestSecurity)
      → (check_permission cfg ans s ≡ ok tt) ↔ ((cfg.dev_mode ≡ true) ⊎ IsPermitted s)
  unfolding check_permission
  check_permission_iff s = (
    λ h. elim (Bool-cases cfg.dev_mode) [
      | inl dev ↦ inl dev
      | inr no_dev ↦ inr (elim (Bool-cases (ee_active cfg)) [
        | inr off ↦ inl off
        | inl on ↦ elim (Bool-cases (is_admin_row ans.acl_user)) [
          | inl boss ↦ inr (inl ((IsAdmin-is_admin_row ans.acl_user).0 boss))
          | inr other ↦ elim (Option-cases s.action) [
            | inl free ↦ inr (inr (inl free))
            | inr (a, e) ↦ inr (inr (inr (a, e, ground arith)))
          ]
        ]
      ])
    ],
    λ h. ground (arith, IsAdmin-is_admin_row ans.acl_user),
  )

  check_role_iff :
      (m : Message) (s : UiRequestSecurity)
      → (check_role cfg ses ans agent_id m s ≡ ok tt)
        ↔ ((cfg.dev_mode ≡ true) ⊎ (requires_admin s.class ≡ false) ⊎ IsAdmin ans.role_user)
  unfolding check_role
  check_role_iff m s = (
    λ h. elim (Bool-cases cfg.dev_mode) [
      | inl dev ↦ inl dev
      | inr no_dev ↦ inr (elim (Bool-cases (requires_admin s.class)) [
        | inr anyone ↦ inl anyone
        | inl admins ↦ inr ((IsAdmin-role_str ans.role_user).0 (ground arith))
      ])
    ],
    λ h. ground (arith, IsAdmin-role_str ans.role_user),
  )

  check_approval_iff :
      (m : Message) (s : UiRequestSecurity)
      → (check_approval cfg ses ans agent_id m s ≡ ok tt) ↔ ((cfg.dev_mode ≡ true) ⊎ IsApproved s)
  unfolding check_approval
  check_approval_iff m s = (
    λ h. elim (Bool-cases cfg.dev_mode) [
      | inl dev ↦ inl dev
      | inr no_dev ↦ inr (elim (Bool-cases (ee_active cfg)) [
        | inr off ↦ inl off
        | inl on ↦ elim (Bool-cases (requires_approval s.class)) [
          | inr free ↦ inr (inl free)
          | inl held ↦ inr (inr (ground arith, ground arith))
        ]
      ])
    ],
    λ h. ground arith,
  )

  pub check_access_iff :
      (access : AgentAccess)
      → (check_access agent_id access ≡ ok tt) ↔ (agent_allowed_by_access agent_id access ≡ true)
  unfolding check_access
  check_access_iff access = ground arith

  gates_sound :
      (m : Message) (s : UiRequestSecurity) → gates cfg ses ans agent_id m ≡ ok s → IsAuthorized m s
  unfolding gates
  gates_sound m s h =
      let access = ui_agent_access cfg.ee_sidecar_url ans.access_user ans.access_reply in
      let (_, seen, h) = >>=-eq-ok (check_access agent_id access) _ h in
      let (_, lives, h) = >>=-eq-ok (check_session cfg ses ans) _ h in
      let (t, known, h) = >>=-eq-ok (classify cfg m) _ h in
      let (_, may, h) = >>=-eq-ok (check_permission cfg ans t) _ h in
      let (_, acts, h) = >>=-eq-ok (check_role cfg ses ans agent_id m t) _ h in
      let (_, agreed, h) = >>=-eq-ok (check_approval cfg ses ans agent_id m t) _ h in
      let same : t ≡ s = cc in
      subst (IsAuthorized m) same (record {
        visible = (check_access_iff access).0 seen;
        live = check_session_iff.0 lives;
        request = (classify_iff m t).0 known;
        permitted = (check_permission_iff t).0 may;
        role = (check_role_iff m t).0 acts;
        approved = (check_approval_iff m t).0 agreed;
      })

  gates_complete :
      (m : Message) (s : UiRequestSecurity) → IsAuthorized m s → gates cfg ses ans agent_id m ≡ ok s
  unfolding gates
  gates_complete m s a =
      let access = ui_agent_access cfg.ee_sidecar_url ans.access_user ans.access_reply in
      rw (
        (check_access_iff access).1 a.visible,
        check_session_iff.1 a.live,
        (classify_iff m s).1 a.request,
        (check_permission_iff s).1 a.permitted,
        (check_role_iff m s).1 a.role,
        (check_approval_iff m s).1 a.approved,
      )

-- The gates let a message through, with its classification, exactly if the target is visible to
-- the user, the session is live, the message is a request, the access rules permit its action, the
-- user is an admin where the class asks for one, and nobody else has to approve it; in development
-- mode only the first and the third are asked.
pub gates_iff :
    (cfg : Config) (ses : Session) (ans : Answers) (agent_id : String) (m : Message)
    (s : UiRequestSecurity)
    → (gates cfg ses ans agent_id m ≡ ok s) ↔ IsAuthorized cfg ses ans agent_id m s
gates_iff cfg ses ans agent_id m s =
    (gates_sound cfg ses ans agent_id m s, gates_complete cfg ses ans agent_id m s)
