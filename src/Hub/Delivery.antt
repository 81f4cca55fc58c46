-- ===== src/Hub/Delivery.antt =====
-- server/src/main.rs, `process_ui_messages`: what one message of a dashboard makes the hub send.
use shellfleet.Common.{
  ℕ, ◌≡◌, refl, ◌∙◌, ap, ◌⊎◌, inl, inr, Bool, true, false, not, String, Option, none, some, List,
  [], ◌∷◌, ◌++◌, map, arith, nat_eq, string_eq, if◌then◌else◌, Option-cases, Bool-cases,
}
use shellfleet.Common.Dict.{lookup}
use shellfleet.Common.Result.{Result-cases, ok, err}
use shellfleet.Protocol.Wire
use shellfleet.Protocol.Wire.{Message, UiMessage}
use shellfleet.Protocol.Security.{UiRequestSecurity}
use shellfleet.Routing.Owners.{OperationOwners, owner}
use shellfleet.Routing.Key.{OperationKey}
use shellfleet.Routing.Classify.{ui_operation}
use shellfleet.Hub.Access.{AgentAccess}
use shellfleet.Hub.State.{
  AppState, AgentEntry, AuditEntry, Effect, to_ui, to_agent, audit, Config, Session, Answers,
  update_access,
}
use shellfleet.Hub.Gates.{Refusal, gates}
use shellfleet.Hub.Dispatch.{
  decided, cache_access, refuse, owned, deliver, forward, tap, Loop, own, send_to_agent,
}
use shellfleet.Hub.Rights.{MayUse, owner_after, own_iff, own_after}
use shellfleet.Hub.Authority.{IsAuthorized, gates_iff}

-- What is sent to agents, and what to dashboards, in order.
abbrev pub agent_sends : List Effect → List (ℕ × Message)
agent_sends [] = []
agent_sends (to_agent tx m ∷ es) = (tx, m) ∷ agent_sends es
agent_sends (_ ∷ es) = agent_sends es

abbrev pub ui_sends : List Effect → List (ℕ × UiMessage)
ui_sends [] = []
ui_sends (to_ui tx m ∷ es) = (tx, m) ∷ ui_sends es
ui_sends (_ ∷ es) = ui_sends es

pub agent_sends-append :
    (xs ys : List Effect) → agent_sends (xs ++ ys) ≡ agent_sends xs ++ agent_sends ys
agent_sends-append [] ys = refl
agent_sends-append (to_agent tx m ∷ xs) ys = rw (agent_sends-append xs ys)
agent_sends-append (_ ∷ xs) ys = agent_sends-append xs ys

pub ui_sends-append : (xs ys : List Effect) → ui_sends (xs ++ ys) ≡ ui_sends xs ++ ui_sends ys
ui_sends-append [] ys = refl
ui_sends-append (to_ui tx m ∷ xs) ys = rw (ui_sends-append xs ys)
ui_sends-append (_ ∷ xs) ys = ui_sends-append xs ys

agent_sends-audit : (rows : List AuditEntry) → agent_sends (map audit rows) ≡ []
agent_sends-audit [] = refl
agent_sends-audit (r ∷ rows) = agent_sends-audit rows

ui_sends-audit : (rows : List AuditEntry) → ui_sends (map audit rows) ≡ []
ui_sends-audit [] = refl
ui_sends-audit (r ∷ rows) = ui_sends-audit rows

-- Caching a client's access changes nothing else.
pub update_access_frame :
    (f : AgentAccess → AgentAccess) (c : ℕ) (state : AppState)
    → ((update_access f c state).agents ≡ state.agents)
      × ((update_access f c state).operation_owners ≡ state.operation_owners)
      × ((update_access f c state).ui_id_counter ≡ state.ui_id_counter)
unfolding update_access
update_access_frame f c state = ground arith

agent_sends-tap :
    (ses : Session) (agent_id : String) (m : Message) (es : List Effect)
    → agent_sends (tap ses agent_id m ++ es) ≡ agent_sends es
unfolding tap
agent_sends-tap ses agent_id (Wire.start_terminal_request session_id) es = refl
agent_sends-tap ses agent_id (Wire.terminal_data session_id bytes) es = refl
agent_sends-tap ses agent_id (Wire.stop_terminal_request session_id) es = refl
agent_sends-tap ses agent_id _ es = refl

ui_sends-tap :
    (ses : Session) (agent_id : String) (m : Message) (es : List Effect)
    → ui_sends (tap ses agent_id m ++ es) ≡ ui_sends es
unfolding tap
ui_sends-tap ses agent_id (Wire.start_terminal_request session_id) es = refl
ui_sends-tap ses agent_id (Wire.terminal_data session_id bytes) es = refl
ui_sends-tap ses agent_id (Wire.stop_terminal_request session_id) es = refl
ui_sends-tap ses agent_id _ es = refl

ui_sends-forward : (entry : Option AgentEntry) (m : Message) → ui_sends (forward entry m) ≡ []
unfolding forward
ui_sends-forward none m = refl
ui_sends-forward (some entry) m = refl

module _ (cfg : Config) (ses : Session) (ans : Answers) (state : AppState) (rec : List String)
    (agent_id : String) (m : Message) where
  abbrev after : Loop
  after = send_to_agent cfg ses ans state rec agent_id m

  abbrev claimed : OperationOwners × Bool
  claimed = own state.operation_owners agent_id ses.client_id (ui_operation m)

  abbrev cached : AppState
  cached = cache_access cfg ses ans agent_id state

  cached_frame :
      (cached.agents ≡ state.agents)
      × (cached.operation_owners ≡ state.operation_owners)
      × (cached.ui_id_counter ≡ state.ui_id_counter)
  unfolding cache_access
  cached_frame = update_access_frame _ ses.client_id state

  refuse_lem :
      (st : AppState) (r : Refusal)
      → ((refuse ses agent_id st rec r).state ≡ st)
        × ((refuse ses agent_id st rec r).rec_sessions ≡ rec)
        × (agent_sends (refuse ses agent_id st rec r).effects ≡ [])
        × (ui_sends (refuse ses agent_id st rec r).effects
            ≡ (ses.tx, UiMessage.permission_denied agent_id r.variant_type r.reason) ∷ [])
        × ((refuse ses agent_id st rec r).running ≡ not r.closes)
  unfolding refuse
  refuse_lem st r = (
    refl,
    refl,
    rw (agent_sends-append (map audit r.audits)) (rw (agent_sends-audit r.audits)),
    rw (ui_sends-append (map audit r.audits)) (rw (ui_sends-audit r.audits)),
    refl,
  )

  deliver_lem :
      (st : AppState)
      → ((deliver ses agent_id m st rec).state ≡ st)
        × (agent_sends (deliver ses agent_id m st rec).effects
            ≡ agent_sends (forward (lookup agent_id st.agents) m))
        × (ui_sends (deliver ses agent_id m st rec).effects ≡ [])
        × ((deliver ses agent_id m st rec).running ≡ true)
  unfolding deliver
  deliver_lem st = (
    refl,
    agent_sends-tap ses agent_id m _,
    ui_sends-tap ses agent_id m _ ∙ ui_sends-forward _ m,
    refl,
  )

  pub after-err :
      (r : Refusal)
      → gates cfg ses ans agent_id m ≡ err r
      → after ≡ refuse ses agent_id cached rec r
  unfolding send_to_agent decided
  after-err r e = ap (decided cfg ses agent_id m cached rec) e

  pub after-ok :
      (s : UiRequestSecurity)
      → gates cfg ses ans agent_id m ≡ ok s
      → after ≡ owned cfg ses agent_id m cached rec claimed
  unfolding send_to_agent decided
  after-ok s e = ap (decided cfg ses agent_id m cached rec) e ∙ rw (cached_frame.1)

  pub owned_lem :
      (st : AppState) (c : OperationOwners × Bool)
      → ((owned cfg ses agent_id m st rec c).state ≡ record st { operation_owners = c.0 })
        × (agent_sends (owned cfg ses agent_id m st rec c).effects
            ≡ (if c.1 then agent_sends (forward (lookup agent_id st.agents) m) else []))
        × ((owned cfg ses agent_id m st rec c).running ≡ true)
  unfolding owned
  owned_lem st (o, true) =
      let (same, sent, quiet, on) = deliver_lem (record st { operation_owners = o }) in
      (same, sent, on)
  owned_lem st (o, false) =
      let (same, kept_rec, sent, told, on) = refuse_lem (record st { operation_owners = o }) _ in
      (same, sent, on)

  pub decided_ok :
      (s : UiRequestSecurity)
      → IsAuthorized cfg ses ans agent_id m s
      → (after.state.operation_owners ≡ claimed.0)
        × (agent_sends after.effects
            ≡ (if claimed.1 then agent_sends (forward (lookup agent_id state.agents) m) else []))
        × (after.running ≡ true)
  decided_ok s h =
      let e : gates cfg ses ans agent_id m ≡ ok s = (gates_iff cfg ses ans agent_id m s).1 h in
      let (same, sent, on) = owned_lem cached claimed in
      (
        ap (λ l. l.state.operation_owners) (after-ok s e) ∙ ap (λ st. st.operation_owners) same,
        ap (λ l. agent_sends l.effects) (after-ok s e)
            ∙ sent
            ∙ ap
                (λ agents.
                  if claimed.1 then agent_sends (forward (lookup agent_id agents) m) else [])
                cached_frame.0,
        ap (λ l. l.running) (after-ok s e) ∙ on,
      )

  -- A refused message changes no ownership and no recording, reaches no agent, and is answered by
  -- the one denial that says why; it ends the control session exactly if the refusal closes it.
  pub refused :
      (r : Refusal)
      → gates cfg ses ans agent_id m ≡ err r
      → (after.state.operation_owners ≡ state.operation_owners)
        × (after.rec_sessions ≡ rec)
        × (agent_sends after.effects ≡ [])
        × (ui_sends after.effects
            ≡ (ses.tx, UiMessage.permission_denied agent_id r.variant_type r.reason) ∷ [])
        × (after.running ≡ not r.closes)
  refused r e =
      let (same, same_rec, sent, told, on) = refuse_lem cached r in
      rw (after-err r e)
        (ap (λ st. st.operation_owners) same ∙ cached_frame.1, same_rec, sent, told, on)

  -- A message reaches at most the agent that it names, that agent's channel once, and only if it
  -- is authorized, the agent is connected, and the operation, if it is about one, is this client's
  -- or, where the message starts it, nobody's.
  pub reaches_only :
      (agent_sends after.effects ≡ [])
      ⊎ ((s : UiRequestSecurity) × (entry : AgentEntry) × IsAuthorized cfg ses ans agent_id m s
          × (lookup agent_id state.agents ≡ some entry)
          × MayUse state.operation_owners agent_id ses.client_id (ui_operation m)
          × (agent_sends after.effects ≡ (entry.tx, m) ∷ []))
  unfolding forward
  reaches_only = elim (Result-cases (gates cfg ses ans agent_id m)) [
    | inr (r, e) ↦ inl ((refused r e).2)
    | inl (s, e) ↦
        let allowed = (gates_iff cfg ses ans agent_id m s).0 e in
        let (same, sent, on) = decided_ok s allowed in
        elim (Bool-cases claimed.1) [
          | inr foreign ↦ inl (ground arith)
          | inl mine ↦ elim (Option-cases (lookup agent_id state.agents)) [
            | inl gone ↦ inl (ground arith)
            | inr (entry, found) ↦ inr (
              s,
              entry,
              allowed,
              found,
              (own_iff state.operation_owners agent_id ses.client_id (ui_operation m)).0 mine,
              ground arith,
            )
          ]
        ]
  ]

  -- An authorized message whose agent is connected reaches that agent exactly once, where it is about
  -- no operation, starts one that is nobody's or this client's, or uses or stops one that is this
  -- client's. A started operation is then the client's, a stopped one nobody's, and every other stays
  -- whose it was; and the control session goes on.
  pub reaches :
      (s : UiRequestSecurity) (entry : AgentEntry)
      → IsAuthorized cfg ses ans agent_id m s
      → lookup agent_id state.agents ≡ some entry
      → MayUse state.operation_owners agent_id ses.client_id (ui_operation m)
      → (agent_sends after.effects ≡ (entry.tx, m) ∷ [])
        × ((other : String) (key : OperationKey)
            → owner after.state.operation_owners other key
              ≡ owner_after state.operation_owners agent_id ses.client_id
                  (ui_operation m)
                  other
                  key)
        × (after.running ≡ true)
  unfolding forward
  reaches s entry allowed found may =
      let mine = (own_iff state.operation_owners agent_id ses.client_id (ui_operation m)).1 may in
      let (same, sent, on) = decided_ok s allowed in
      (
        ground arith,
        λ other key.
            ap (λ o. owner o other key) same
            ∙ own_after state.operation_owners agent_id ses.client_id (ui_operation m) other key
                may,
        on,
      )
