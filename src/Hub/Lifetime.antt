-- ===== src/Hub/Lifetime.antt =====
-- server/src/main.rs, `process_ui_messages`: when a message ends the control session.
use shellfleet.Common.{
  ◌≡◌, inl, inr, ◌↔◌, Bool, true, false, String, List, arith, nat_eq, string_eq, Bool-cases,
}
use shellfleet.Common.Result.{err, Result-cases, >>=-eq-err}
use shellfleet.Protocol.Wire.{Message}
use shellfleet.Protocol.Security.{UiRequestSecurity}
use shellfleet.Hub.Access.{AgentAccess, agent_allowed_by_access, ui_agent_access}
use shellfleet.Hub.State.{AppState, Config, Session, Answers}
use shellfleet.Hub.Gates.{
  Refusal, gates, check_access, check_session, classify, check_permission, check_role,
  check_approval,
}
use shellfleet.Hub.Dispatch.{send_to_agent}
use shellfleet.Hub.Authority.{
  check_session_iff, IsLive, gates_iff, session_reason_iff, check_access_iff,
}
use shellfleet.Hub.Delivery.{decided_ok, refused}

module _ (cfg : Config) (ses : Session) (ans : Answers) (agent_id : String) where
  abbrev sees : Bool
  sees =
      agent_allowed_by_access agent_id
        (ui_agent_access cfg.ee_sidecar_url ans.access_user ans.access_reply)

  access_stays :
      (access : AgentAccess) (r : Refusal) → check_access agent_id access ≡ err r → r.closes ≡ false
  unfolding check_access
  access_stays access r h = ground arith

  classify_stays : (m : Message) (r : Refusal) → classify cfg m ≡ err r → r.closes ≡ false
  unfolding classify
  classify_stays m r h = ground arith

  permission_stays :
      (s : UiRequestSecurity) (r : Refusal) → check_permission cfg ans s ≡ err r → r.closes ≡ false
  unfolding check_permission
  permission_stays s r h = ground arith

  role_stays :
      (m : Message) (s : UiRequestSecurity) (r : Refusal)
      → check_role cfg ses ans agent_id m s ≡ err r
      → r.closes ≡ false
  unfolding check_role
  role_stays m s r h = ground arith

  approval_stays :
      (m : Message) (s : UiRequestSecurity) (r : Refusal)
      → check_approval cfg ses ans agent_id m s ≡ err r
      → r.closes ≡ false
  unfolding check_approval
  approval_stays m s r h = ground arith

  session_closes :
      (r : Refusal)
      → check_session cfg ses ans ≡ err r
      → (r.closes ≡ true) × (cfg.dev_mode ≡ false) × ¬ IsLive ses ans.session_user
  unfolding check_session
  session_closes r h =
      let alive = session_reason_iff cfg ses ans agent_id ans.session_user in
      elim (Bool-cases cfg.dev_mode) [
        | inl dev ↦ ground arith
        | inr on ↦ (ground arith, on, λ live. ground (arith, alive.1 live))
      ]

  session_fails :
      cfg.dev_mode ≡ false
      → ¬ IsLive ses ans.session_user
      → (r : Refusal) × (check_session cfg ses ans ≡ err r)
  session_fails on dead = elim (Result-cases (check_session cfg ses ans)) [
    | inr failed ↦ failed
    | inl (done, e) ↦ elim ((check_session_iff cfg ses ans agent_id).0 e) [
      | inl dev ↦ cc
      | inr live ↦ elim (dead live) [ ]
    ]
  ]

  -- The only gate whose refusal closes the control session is the session's own.
  gates_close :
      (m : Message) (r : Refusal)
      → gates cfg ses ans agent_id m ≡ err r
      → r.closes ≡ true
      → (sees ≡ true) × (cfg.dev_mode ≡ false) × ¬ IsLive ses ans.session_user
  unfolding gates
  gates_close m r h closing =
      let access = ui_agent_access cfg.ee_sidecar_url ans.access_user ans.access_reply in
      elim (>>=-eq-err (check_access agent_id access) _ h) [
        | inl e ↦ ground (arith, access_stays access r e)
        | inr (_, seen, h) ↦ elim (>>=-eq-err (check_session cfg ses ans) _ h) [
          | inl e ↦
              let (closes, on, dead) = session_closes r e in
              ((check_access_iff cfg ses ans agent_id access).0 seen, on, dead)
          | inr (_, lives, h) ↦ elim (>>=-eq-err (classify cfg m) _ h) [
            | inl e ↦ ground (arith, classify_stays m r e)
            | inr (s, known, h) ↦ elim (>>=-eq-err (check_permission cfg ans s) _ h) [
              | inl e ↦ ground (arith, permission_stays s r e)
              | inr (_, may, h) ↦ elim (>>=-eq-err (check_role cfg ses ans agent_id m s) _ h) [
                | inl e ↦ ground (arith, role_stays m s r e)
                | inr (_, acts, h) ↦
                    elim (>>=-eq-err (check_approval cfg ses ans agent_id m s) _ h) [
                      | inl e ↦ ground (arith, approval_stays m s r e)
                      | inr (_, agreed, h) ↦ cc
                    ]
              ]
            ]
          ]
        ]
      ]

  gates_closed :
      (m : Message)
      → sees ≡ true
      → cfg.dev_mode ≡ false
      → ¬ IsLive ses ans.session_user
      → (r : Refusal) × (gates cfg ses ans agent_id m ≡ err r) × (r.closes ≡ true)
  unfolding gates
  gates_closed m seen on dead =
      let access = ui_agent_access cfg.ee_sidecar_url ans.access_user ans.access_reply in
      let (r, e) = session_fails on dead in
      (r, rw ((check_access_iff cfg ses ans agent_id access).1 seen, e), (session_closes r e).0)

-- A message that names an agent ends the control session exactly if the user may see the agent,
-- the hub is not in development mode, and the session is no longer live: no other refusal ends it.
pub running_iff :
    (cfg : Config) (ses : Session) (ans : Answers) (state : AppState) (rec : List String)
    (agent_id : String) (m : Message)
    → ((send_to_agent cfg ses ans state rec agent_id m).running ≡ false) ↔ (
        (agent_allowed_by_access agent_id
            (ui_agent_access cfg.ee_sidecar_url ans.access_user ans.access_reply)
          ≡ true)
        × (cfg.dev_mode ≡ false)
        × ¬ IsLive ses ans.session_user)
running_iff cfg ses ans state rec agent_id m = (
  λ off. elim (Result-cases (gates cfg ses ans agent_id m)) [
    | inr (r, e) ↦
        let (same, same_rec, sent, told, on) = refused cfg ses ans state rec agent_id m r e in
        gates_close cfg ses ans agent_id m r e (ground arith)
    | inl (s, e) ↦
        let allowed = (gates_iff cfg ses ans agent_id m s).0 e in
        let (same, sent, on) = decided_ok cfg ses ans state rec agent_id m s allowed in ground arith
  ],
  λ (seen, on, dead).
      let (r, e, closing) = gates_closed cfg ses ans agent_id m seen on dead in
      let (same, same_rec, sent, told, off) = refused cfg ses ans state rec agent_id m r e in
      ground arith,
)
