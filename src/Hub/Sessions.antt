-- ===== src/Hub/Sessions.antt =====
-- server/src/main.rs, `process_ui_messages`: whole control sessions.
use shellfleet.Common.{
  ℕ, ◌≡◌, refl, sym, subst, ◌⊎◌, inl, inr, ◌≢◌, Bool, true, false, String, Option, none, some, List,
  [], ◌∷◌, ◌++◌, map, arith, nat_eq, string_eq, Option-cases, Bool-cases, All,
}
use shellfleet.Common.Dict.{
  lookup, IsDict, insert-IsDict, erase-IsDict, lookup-erase, lookup-retain_only,
}
use shellfleet.Common.Result.{ok, err}
use shellfleet.Protocol.Wire.{Message, UiMessage}
use shellfleet.Protocol.Security.{UiRequestSecurity, requires_admin, ui_request_security}
use shellfleet.Routing.Key.{OperationKey, map_key_eq}
use shellfleet.Routing.Owners.{OperationOwners, owner, release_client}
use shellfleet.Routing.Classify.{UiOperation, start, use_existing, stop, ui_operation}
use shellfleet.Routing.Ownership.{IsValid, call, call-IsValid, claims, releases, client_gone}
use shellfleet.Hub.Access.{AgentAccess}
use shellfleet.Hub.State.{AppState, record_stop, Config, Session, Answers, update_access}
use shellfleet.Hub.Gates.{Gate, gates}
use shellfleet.Hub.Dispatch.{
  own, deliver, owned, refuse, decided, cache_access, send_to_agent, list_agents,
  process_ui_message, process_ui_messages, cleanup,
}
use shellfleet.Hub.Authority.{IsAdmin}
use shellfleet.Hub.Delivery.{agent_sends, agent_sends-append, reaches_only}

-- Each of the hub's maps has one entry for each key.
pub record IsWellFormed (state : AppState) : Type 0 where
  pub agents_dict : IsDict state.agents
  pub clients_dict : IsDict state.ui_clients
  pub owners_valid : IsValid state.operation_owners

own-IsValid :
    (o : OperationOwners) (agent_id : String) (client_id : ℕ) (op : Option UiOperation)
    → IsValid o
    → IsValid (own o agent_id client_id op).0
unfolding own call
own-IsValid o a c none h = h
own-IsValid o a c (some (start key)) h = call-IsValid o (claims a key c) h
own-IsValid o a c (some (use_existing key)) h = h
own-IsValid o a c (some (stop key)) h = call-IsValid o (releases a key c) h

update_access-IsWellFormed :
    (f : AgentAccess → AgentAccess) (c : ℕ) (state : AppState)
    → IsWellFormed state
    → IsWellFormed (update_access f c state)
unfolding update_access
update_access-IsWellFormed f c state h = elim (Option-cases (lookup c state.ui_clients)) [
  | inl gone ↦ rw (gone, update_access) h
  | inr (client, found) ↦
      rw (found, update_access)
        (record {
          agents_dict = h.agents_dict;
          clients_dict = insert-IsDict c _ state.ui_clients h.clients_dict;
          owners_valid = h.owners_valid;
        })
]

owned-IsWellFormed :
    (cfg : Config) (ses : Session) (agent_id : String) (m : Message) (state : AppState)
    (rec : List String) (c : OperationOwners × Bool)
    → IsWellFormed state
    → IsValid c.0
    → IsWellFormed (owned cfg ses agent_id m state rec c).state
unfolding owned deliver refuse
owned-IsWellFormed cfg ses agent_id m state rec (o, true) h valid = record {
  agents_dict = h.agents_dict;
  clients_dict = h.clients_dict;
  owners_valid = valid;
}
owned-IsWellFormed cfg ses agent_id m state rec (o, false) h valid = record {
  agents_dict = h.agents_dict;
  clients_dict = h.clients_dict;
  owners_valid = valid;
}

decided-IsWellFormed :
    (cfg : Config) (ses : Session) (agent_id : String) (m : Message) (state : AppState)
    (rec : List String) (g : Gate UiRequestSecurity)
    → IsWellFormed state
    → IsWellFormed (decided cfg ses agent_id m state rec g).state
unfolding decided refuse
decided-IsWellFormed cfg ses agent_id m state rec (err r) h = h
decided-IsWellFormed cfg ses agent_id m state rec (ok s) h =
    owned-IsWellFormed cfg ses agent_id m state rec _ h
      (own-IsValid state.operation_owners agent_id ses.client_id (ui_operation m) h.owners_valid)

round-IsWellFormed :
    (cfg : Config) (ses : Session) (ans : Answers) (state : AppState) (rec : List String)
    (m : UiMessage)
    → IsWellFormed state
    → IsWellFormed (process_ui_message cfg ses ans state rec m).state
unfolding process_ui_message send_to_agent list_agents cache_access
round-IsWellFormed cfg ses ans state rec UiMessage.list_agents_request h =
    update_access-IsWellFormed _ ses.client_id state h
round-IsWellFormed cfg ses ans state rec (UiMessage.send_to_agent agent_id m) h =
    decided-IsWellFormed cfg ses agent_id m _ rec (gates cfg ses ans agent_id m)
      (update_access-IsWellFormed _ ses.client_id state h)
round-IsWellFormed cfg ses ans state rec _ h = h

cleanup-IsWellFormed :
    (ses : Session) (state : AppState) (rec : List String)
    → IsWellFormed state
    → IsWellFormed (cleanup ses state rec).0
unfolding cleanup call
cleanup-IsWellFormed ses state rec h = record {
  agents_dict = h.agents_dict;
  clients_dict = erase-IsDict ses.client_id state.ui_clients h.clients_dict;
  owners_valid = call-IsValid state.operation_owners (client_gone ses.client_id) h.owners_valid;
}

-- The rounds of a control session, each with what other tasks do before it.
abbrev pub Log : Type 0
Log = List ((AppState → AppState) × Answers × UiMessage)

-- If each of the hub's maps has one entry for each key at the beginning, and the other tasks keep
-- it so, then a control session does.
process_ui_messages-IsWellFormed :
    (cfg : Config) (ses : Session) (log : Log) (state : AppState) (rec : List String)
    → IsWellFormed state
    → All (λ round. (st : AppState) → IsWellFormed st → IsWellFormed (round.0 st)) log
    → IsWellFormed (process_ui_messages cfg ses log state rec).0
unfolding process_ui_messages
process_ui_messages-IsWellFormed cfg ses [] state rec h others_keep =
    cleanup-IsWellFormed ses state rec h
process_ui_messages-IsWellFormed cfg ses ((others, ans, m) ∷ log) state rec h (keeps, others_keep) =
    let round = process_ui_message cfg ses ans (others state) rec m in
    let good = round-IsWellFormed cfg ses ans (others state) rec m (keeps state h) in
    elim (Bool-cases round.running) [
      | inl on ↦ rw on (
          process_ui_messages-IsWellFormed cfg ses log round.state round.rec_sessions good
            others_keep)
      | inr off ↦ rw off (cleanup-IsWellFormed ses round.state round.rec_sessions good)
    ]

cleaned :
    (ses : Session) (state : AppState) (rec : List String) (agent_id : String) (key : OperationKey)
    → (lookup ses.client_id (cleanup ses state rec).0.ui_clients ≡ none)
      × (owner (cleanup ses state rec).0.operation_owners agent_id key ≢ some ses.client_id)
unfolding cleanup owner release_client
cleaned ses state rec agent_id key = (
  ground (arith, lookup-erase ses.client_id ses.client_id state.ui_clients),
  λ found.
      let other =
        lookup-retain_only _ (agent_id, key) ses.client_id state.operation_owners.owners found in
      ground arith,
)

agent_sends-stops : (rec : List String) → agent_sends (map record_stop rec) ≡ []
agent_sends-stops [] = refl
agent_sends-stops (s ∷ rec) = agent_sends-stops rec

-- When a control session has ended, however it ended, its dashboard is no longer registered and
-- owns no operation, in any state and whatever other tasks do before.
pub session_over :
    (cfg : Config) (ses : Session) (log : Log) (state : AppState) (rec : List String)
    (agent_id : String) (key : OperationKey)
    → (lookup ses.client_id (process_ui_messages cfg ses log state rec).0.ui_clients ≡ none)
      × (owner (process_ui_messages cfg ses log state rec).0.operation_owners agent_id key
          ≢ some ses.client_id)
unfolding process_ui_messages
session_over cfg ses [] state rec agent_id key = cleaned ses state rec agent_id key
session_over cfg ses ((others, ans, m) ∷ log) state rec agent_id key =
    let round = process_ui_message cfg ses ans (others state) rec m in
    elim (Bool-cases round.running) [
      | inl on ↦ rw on (session_over cfg ses log round.state round.rec_sessions agent_id key)
      | inr off ↦ rw off (cleaned ses round.state round.rec_sessions agent_id key)
    ]

-- What may be sent on behalf of a user who is no admin.
abbrev pub IsReading : ℕ × Message → Type 0
IsReading (tx, m) =
    (s : UiRequestSecurity) × (ui_request_security m ≡ ok s) × (requires_admin s.class ≡ false)

reading :
    (cfg : Config) (ans : Answers) (s : UiRequestSecurity)
    → cfg.dev_mode ≡ false
    → ¬ IsAdmin ans.role_user
    → (cfg.dev_mode ≡ true) ⊎ (requires_admin s.class ≡ false) ⊎ IsAdmin ans.role_user
    → requires_admin s.class ≡ false
reading cfg ans s on lowly (inl dev) = cc
reading cfg ans s on lowly (inr (inl free)) = free
reading cfg ans s on lowly (inr (inr boss)) = elim (lowly boss) [ ]

round_reads :
    (cfg : Config) (ses : Session) (ans : Answers) (state : AppState) (rec : List String)
    (m : UiMessage)
    → cfg.dev_mode ≡ false
    → ¬ IsAdmin ans.role_user
    → All IsReading (agent_sends (process_ui_message cfg ses ans state rec m).effects)
unfolding process_ui_message list_agents
round_reads cfg ses ans state rec UiMessage.list_agents_request on lowly = tt
round_reads cfg ses ans state rec (UiMessage.send_to_agent agent_id m) on lowly =
    elim (reaches_only cfg ses ans state rec agent_id m) [
      | inl nothing ↦ subst (All IsReading) (sym nothing) tt
      | inr (s, entry, allowed, found, mine, sent) ↦
          subst (All IsReading) (sym sent)
            ((s, allowed.request, reading cfg ans s on lowly allowed.role), tt)
    ]
round_reads cfg ses ans state rec _ on lowly = tt

All-append : {A : Type 0} (P : A → Type 0) (xs ys : List A) → All P xs → All P ys → All P (xs ++ ys)
All-append P [] ys h k = k
All-append P (x ∷ xs) ys (p, h) k = (p, All-append P xs ys h k)

-- Outside development mode, if the database does not know the user as an admin at any round, then
-- all that a whole control session sends to agents is of a class that needs no admin.
pub session_reads :
    (cfg : Config) (ses : Session) (log : Log) (state : AppState) (rec : List String)
    → cfg.dev_mode ≡ false
    → All (λ round. ¬ IsAdmin round.1.role_user) log
    → All IsReading (agent_sends (process_ui_messages cfg ses log state rec).1)
unfolding process_ui_messages cleanup
session_reads cfg ses [] state rec on lowly = subst (All IsReading) (sym (agent_sends-stops rec)) tt
session_reads cfg ses ((others, ans, m) ∷ log) state rec on (lowly, all_lowly) =
    let round = process_ui_message cfg ses ans (others state) rec m in
    let reads = round_reads cfg ses ans (others state) rec m on lowly in
    elim (Bool-cases round.running) [
      | inl going ↦ rw going (
          subst (All IsReading) (sym (agent_sends-append round.effects _)) (
            All-append IsReading (agent_sends round.effects) _ reads
              (session_reads cfg ses log round.state round.rec_sessions on all_lowly)))
      | inr ended ↦ rw ended (
          subst (All IsReading) (sym (agent_sends-append round.effects _)) (
            All-append IsReading (agent_sends round.effects) _ reads
              (subst (All IsReading) (sym (agent_sends-stops round.rec_sessions)) tt)))
    ]
