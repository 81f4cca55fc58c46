-- ===== src/Hub/Isolation.antt =====
-- server/src/main.rs, `handle_agent_socket`: who sees what an agent sends.
use shellfleet.Common.{
  when, ℕ, ◌≡◌, refl, ◌∙◌, ◌⊎◌, inl, inr, Bool, true, false, ◌&&◌, String, Option, none, some, List,
  [], ◌∷◌, ◌++◌, map, arith, nat_eq, string_eq, if◌then◌else◌, Option-cases, Bool-cases, keep,
}
use shellfleet.Common.Dict.{
  lookup-retain, kept, lookup, IsDict, erase-IsDict, retain-IsDict, lookup-erase,
}
use shellfleet.Protocol.Wire
use shellfleet.Protocol.Wire.{Message, UiMessage}
use shellfleet.Routing.Key.{OperationKey, map_key_eq, map_key_beq}
use shellfleet.Routing.Owners.{OperationOwners, owner, release_agent_operation}
use shellfleet.Routing.Classify.{AgentOperation, agent_operation}
use shellfleet.Routing.Ownership.{IsValid, call, call-IsValid, ends}
use shellfleet.Hub.Access.{agent_allowed_by_access}
use shellfleet.Hub.State.{AppState, UiClient, Effect}
use shellfleet.Hub.Relay.{
  output_tap, to_client, to_owner, stays, broadcast_to, broadcast, ended, routed, relay,
}
use shellfleet.Hub.Delivery.{ui_sends}
use shellfleet.Hub.Sessions.{IsWellFormed}

ui_sends-output_tap : (m : Message) (es : List Effect) → ui_sends (output_tap m ++ es) ≡ ui_sends es
ui_sends-output_tap (Wire.terminal_data s bytes) es = refl
ui_sends-output_tap _ es = refl

module _ (open_tx : ℕ → Bool) (agent_id : String) (m : Message) (state : AppState) where
  abbrev frame : UiMessage
  frame = UiMessage.agent_message agent_id m

  abbrev relayed : AppState × List Effect
  relayed = relay open_tx agent_id m state

  sent_lem :
      ui_sends relayed.1 ≡ ui_sends (routed open_tx agent_id frame state (agent_operation m)).1
  unfolding relay
  sent_lem = ui_sends-output_tap m _

  -- Whether the message ends this operation.
  abbrev freed_by : Option AgentOperation → String → OperationKey → Bool
  freed_by none agent key = false
  freed_by (some op) agent key = op.ends && map_key_beq (agent_id, op.key) (agent, key)

  abbrev pub freed : String → OperationKey → Bool
  freed agent key = freed_by (agent_operation m) agent key

  -- Whether a dashboard is to be sent the agent's messages, and takes them.
  abbrev pub reachable : UiClient → Bool
  reachable ctx = agent_allowed_by_access agent_id ctx.agent_access && open_tx ctx.tx

  to_client_lem :
      (st : AppState) (client_id : ℕ) (ctx : UiClient)
      → ui_sends (to_client open_tx agent_id frame st client_id (some ctx)).1
        ≡ (if reachable ctx then (ctx.tx, frame) ∷ [] else [])
  unfolding to_client
  to_client_lem st client_id ctx = ground arith

  routed_lem :
      (op : AgentOperation)
      → agent_operation m ≡ some op
      → ui_sends relayed.1
        ≡ ui_sends
            (to_owner open_tx agent_id frame
              (record state { operation_owners = ended agent_id op state.operation_owners })
              (owner state.operation_owners agent_id op.key)).1
  unfolding routed
  routed_lem op e = sent_lem ∙ rw e refl

  -- The output of an operation is sent to no dashboard but the one registered under the client
  -- that owns the operation, once, and only if that dashboard may see the agent.
  pub output_private :
      (op : AgentOperation)
      → agent_operation m ≡ some op
      → (ui_sends relayed.1 ≡ [])
        ⊎ ((client_id : ℕ) × (ctx : UiClient) × (owner state.operation_owners agent_id op.key
              ≡ some client_id)
            × (lookup client_id state.ui_clients ≡ some ctx)
            × (agent_allowed_by_access agent_id ctx.agent_access ≡ true)
            × (ui_sends relayed.1 ≡ (ctx.tx, frame) ∷ []))
  unfolding to_owner to_client
  output_private op e = elim (Option-cases (owner state.operation_owners agent_id op.key)) [
    | inl free ↦ inl (routed_lem op e ∙ rw free refl)
    | inr (client_id, held) ↦ elim (Option-cases (lookup client_id state.ui_clients)) [
      | inl gone ↦ inl (routed_lem op e ∙ rw held (rw gone refl))
      | inr (ctx, found) ↦
          let sent : ui_sends relayed.1 ≡ (if reachable ctx then (ctx.tx, frame) ∷ [] else []) =
            routed_lem op e ∙ rw held (rw found (to_client_lem _ client_id ctx)) in
          elim (Bool-cases (reachable ctx)) [
            | inl takes ↦ inr (client_id, ctx, held, found, ground arith, sent ∙ rw takes refl)
            | inr shut ↦ inl (sent ∙ rw shut refl)
          ]
    ]
  ]

  -- The output of an operation does reach its owner, if the owner is registered, may see the agent
  -- and takes messages.
  output_delivered :
      (op : AgentOperation) (client_id : ℕ) (ctx : UiClient)
      → agent_operation m ≡ some op
      → owner state.operation_owners agent_id op.key ≡ some client_id
      → lookup client_id state.ui_clients ≡ some ctx
      → reachable ctx ≡ true
      → ui_sends relayed.1 ≡ (ctx.tx, frame) ∷ []
  unfolding to_owner
  output_delivered op client_id ctx e held found takes =
      routed_lem op e ∙ rw held (rw found (to_client_lem _ client_id ctx ∙ when _ _ takes))

  broadcast_lem :
      (clients : List (ℕ × UiClient))
      → ui_sends (broadcast_to open_tx agent_id frame clients)
        ≡ map (λ c. (c.1.tx, frame)) (keep (λ c. reachable c.1) clients)
  unfolding broadcast_to
  broadcast_lem [] = refl
  broadcast_lem ((client_id, ctx) ∷ clients) = ground (arith, broadcast_lem clients)

  -- Where each client has one entry, a message that belongs to no operation is sent once to each
  -- registered dashboard that may see the agent and takes messages, and to no other; a dashboard
  -- that may see the agent and takes none is removed, and no other dashboard is; no ownership
  -- changes.
  broadcast_exact :
      agent_operation m ≡ none
      → IsDict state.ui_clients
      → (ui_sends relayed.1
          ≡ map (λ c. (c.1.tx, frame)) (keep (λ c. reachable c.1) state.ui_clients))
        × ((client_id : ℕ)
            → lookup client_id relayed.0.ui_clients
              ≡ kept (stays open_tx agent_id frame) client_id (lookup client_id state.ui_clients))
        × (relayed.0.operation_owners ≡ state.operation_owners)
  unfolding relay routed broadcast
  broadcast_exact e h = rw e (
    ui_sends-output_tap m _ ∙ broadcast_lem state.ui_clients,
    λ client_id. lookup-retain (stays open_tx agent_id frame) client_id state.ui_clients h,
    refl,
  )

  to_owner_owners :
      (st : AppState) (o : Option ℕ)
      → (to_owner open_tx agent_id frame st o).0.operation_owners ≡ st.operation_owners
  unfolding to_owner to_client
  to_owner_owners st none = refl
  to_owner_owners st (some client_id) = elim (Option-cases (lookup client_id st.ui_clients)) [
    | inl gone ↦ rw gone refl
    | inr (ctx, found) ↦ rw found (ground arith)
  ]

  routed_owners :
      (op : Option AgentOperation) (agent : String) (key : OperationKey)
      → owner (routed open_tx agent_id frame state op).0.operation_owners agent key
        ≡ (if freed_by op agent key then none else owner state.operation_owners agent key)
  unfolding routed owner ended release_agent_operation broadcast
  routed_owners none agent key = refl
  routed_owners (some op) agent key =
      rw (to_owner_owners _ (owner state.operation_owners agent_id op.key))
        (ground (arith, lookup-erase (agent_id, op.key) (agent, key) state.operation_owners.owners))

  -- An answer that ends an operation leaves it without an owner and every other operation as it
  -- was; any other message of an agent changes no ownership.
  relay_owners :
      (agent : String) (key : OperationKey)
      → owner relayed.0.operation_owners agent key
        ≡ (if freed agent key then none else owner state.operation_owners agent key)
  unfolding relay
  relay_owners agent key = routed_owners (agent_operation m) agent key

  to_client-IsWellFormed :
      (st : AppState) (client_id : ℕ) (o : Option UiClient)
      → IsWellFormed st
      → IsWellFormed (to_client open_tx agent_id frame st client_id o).0
  unfolding to_client
  to_client-IsWellFormed st client_id none h = h
  to_client-IsWellFormed st client_id (some ctx) h =
      elim (Bool-cases (agent_allowed_by_access agent_id ctx.agent_access)) [
        | inr hidden ↦ rw hidden h
        | inl seen ↦ elim (Bool-cases (open_tx ctx.tx)) [
          | inl takes ↦ rw (seen, takes) h
          | inr shut ↦
              rw (seen, shut)
                (record {
                  agents_dict = h.agents_dict;
                  clients_dict = erase-IsDict client_id st.ui_clients h.clients_dict;
                  owners_valid = h.owners_valid;
                })
        ]
      ]

  to_owner-IsWellFormed :
      (st : AppState) (o : Option ℕ)
      → IsWellFormed st
      → IsWellFormed (to_owner open_tx agent_id frame st o).0
  unfolding to_owner
  to_owner-IsWellFormed st none h = h
  to_owner-IsWellFormed st (some client_id) h =
      to_client-IsWellFormed st client_id (lookup client_id st.ui_clients) h

  ended-IsValid :
      (op : AgentOperation) (o : OperationOwners) → IsValid o → IsValid (ended agent_id op o)
  unfolding ended call
  ended-IsValid op o h = elim (Bool-cases op.ends) [
    | inl over ↦ rw over (call-IsValid o (ends agent_id op.key) h)
    | inr on ↦ rw on h
  ]

  routed-IsWellFormed :
      (op : Option AgentOperation)
      → IsWellFormed state
      → IsWellFormed (routed open_tx agent_id frame state op).0
  unfolding routed broadcast
  routed-IsWellFormed none h = record {
    agents_dict = h.agents_dict;
    clients_dict = retain-IsDict _ state.ui_clients h.clients_dict;
    owners_valid = h.owners_valid;
  }
  routed-IsWellFormed (some op) h =
      to_owner-IsWellFormed _ (owner state.operation_owners agent_id op.key) (record {
        agents_dict = h.agents_dict;
        clients_dict = h.clients_dict;
        owners_valid = ended-IsValid op state.operation_owners h.owners_valid;
      })

  -- If each of the hub's maps has one entry for each key, then it has after the relay of a
  -- message.
  relay-IsWellFormed : IsWellFormed state → IsWellFormed relayed.0
  unfolding relay
  relay-IsWellFormed h = routed-IsWellFormed (agent_operation m) h
