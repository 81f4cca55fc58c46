-- ===== src/Hub/Recording.antt =====
-- server/src/main.rs, `process_ui_messages`: the recordings of terminals in a control session.
use shellfleet.Common.{
  ◌≡◌, refl, sym, ◌∙◌, subst, inl, inr, Bool, true, false, ◌||◌, String, Option, none, some, List,
  [], ◌∷◌, ◌++◌, map, arith, ◌==◌, nat_eq, string_eq, eq_iff, if◌then◌else◌, Bool-cases,
}
use shellfleet.Protocol.Wire
use shellfleet.Protocol.Wire.{Message, UiMessage}
use shellfleet.Protocol.Security.{UiRequestSecurity}
use shellfleet.Routing.Owners.{OperationOwners}
use shellfleet.Hub.Access.{contains, add, remove}
use shellfleet.Hub.State.{
  AppState, AgentEntry, AuditEntry, Effect, audit, record_start, record_stop, Config, Session,
  Answers,
}
use shellfleet.Hub.Gates.{Gate, Refusal, gates}
use shellfleet.Common.Result.{ok, err}
use shellfleet.Hub.Dispatch.{
  cache_access, Loop, tap, tapped, forward, deliver, owned, refuse, decided, send_to_agent,
  list_agents, process_ui_message, process_ui_messages, cleanup,
}

-- Whether a recording is open after some effects, given whether it was before them.
abbrev pub is_open : String → List Effect → Bool → Bool
is_open id [] before = before
is_open id (record_start session_id a l t ∷ es) before =
    is_open id es (if session_id == id then true else before)
is_open id (record_stop session_id ∷ es) before =
    is_open id es (if session_id == id then false else before)
is_open id (_ ∷ es) before = is_open id es before

is_open-append :
    (id : String) (xs ys : List Effect) (before : Bool)
    → is_open id (xs ++ ys) before ≡ is_open id ys (is_open id xs before)
is_open-append id [] ys before = refl
is_open-append id (record_start s a l t ∷ xs) ys before = is_open-append id xs ys _
is_open-append id (record_stop s ∷ xs) ys before = is_open-append id xs ys _
is_open-append id (_ ∷ xs) ys before = is_open-append id xs ys before

contains-add :
    (s id : String) (xs : List String) → contains (add s xs) id ≡ (s == id || contains xs id)
unfolding contains add
contains-add s id xs = elim (Bool-cases (contains xs s)) [
  | inl known ↦ elim (Bool-cases (s == id)) [
    | inl same ↦ rw (known, same) (subst (λ t. contains xs t ≡ true) ((eq_iff s id).0 same) known)
    | inr other ↦ ground arith
  ]
  | inr fresh ↦ ground arith
]

contains-remove :
    (s id : String) (xs : List String)
    → contains (remove s xs) id ≡ (if s == id then false else contains xs id)
unfolding contains remove
contains-remove s id [] = ground arith
contains-remove s id (x ∷ xs) =
    ground (arith, contains-remove s id xs, eq_iff s id, eq_iff x s, eq_iff x id)

is_open-audit :
    (id : String) (rows : List AuditEntry) (es : List Effect) (before : Bool)
    → is_open id (map audit rows ++ es) before ≡ is_open id es before
is_open-audit id [] es before = refl
is_open-audit id (r ∷ rows) es before = is_open-audit id rows es before

is_open-forward :
    (id : String) (entry : Option AgentEntry) (m : Message) (before : Bool)
    → is_open id (forward entry m) before ≡ before
unfolding forward
is_open-forward id none m before = refl
is_open-forward id (some e) m before = refl

tap-Covers :
    (ses : Session) (agent_id : String) (m : Message) (rec : List String) (id : String)
    (entry : Option AgentEntry) (before : Bool)
    → (before ≡ true → contains rec id ≡ true)
    → is_open id (tap ses agent_id m ++ forward entry m) before ≡ true
    → contains (tapped m rec) id ≡ true
unfolding tap tapped
tap-Covers ses agent_id (Wire.start_terminal_request s) rec id entry before h e =
    let shut =
      is_open-forward id entry (Wire.start_terminal_request s) (if s == id then true else before) in
    ground (arith, contains-add s id rec)
tap-Covers ses agent_id (Wire.stop_terminal_request s) rec id entry before h e =
    let shut =
      is_open-forward id entry (Wire.stop_terminal_request s) (if s == id then false else before) in
    ground (arith, contains-remove s id rec)
tap-Covers ses agent_id (Wire.terminal_data s bytes) rec id entry before h e =
    h (sym (is_open-forward id entry (Wire.terminal_data s bytes) before) ∙ e)
tap-Covers ses agent_id _ rec id entry before h e = h (sym (is_open-forward id entry _ before) ∙ e)

-- A round of the loop leaves every recording that is open in the client's list, if that is so
-- before it.
abbrev Tracks : List String → Loop → Type 0
Tracks rec l =
    (id : String) (before : Bool)
    → (before ≡ true → contains rec id ≡ true)
    → is_open id l.effects before ≡ true
    → contains l.rec_sessions id ≡ true

module _ (cfg : Config) (ses : Session) (agent_id : String) (m : Message) (rec : List String) where
  refuse-Tracks : (state : AppState) (r : Refusal) → Tracks rec (refuse ses agent_id state rec r)
  unfolding refuse
  refuse-Tracks state r id before h e = h (sym (is_open-audit id r.audits _ before) ∙ e)

  deliver-Tracks : (state : AppState) → Tracks rec (deliver ses agent_id m state rec)
  unfolding deliver
  deliver-Tracks state id before h e = tap-Covers ses agent_id m rec id _ before h e

  owned-Tracks :
      (state : AppState) (c : OperationOwners × Bool)
      → Tracks rec (owned cfg ses agent_id m state rec c)
  unfolding owned
  owned-Tracks state (o, true) = deliver-Tracks (record state { operation_owners = o })
  owned-Tracks state (o, false) = refuse-Tracks (record state { operation_owners = o }) _

  decided-Tracks :
      (state : AppState) (g : Gate UiRequestSecurity)
      → Tracks rec (decided cfg ses agent_id m state rec g)
  unfolding decided
  decided-Tracks state (ok s) = owned-Tracks state _
  decided-Tracks state (err r) = refuse-Tracks state r

round-Tracks :
    (cfg : Config) (ses : Session) (ans : Answers) (state : AppState) (rec : List String)
    (m : UiMessage)
    → Tracks rec (process_ui_message cfg ses ans state rec m)
unfolding process_ui_message send_to_agent list_agents
round-Tracks cfg ses ans state rec UiMessage.list_agents_request id before h e = h e
round-Tracks cfg ses ans state rec (UiMessage.send_to_agent agent_id m) id before h e =
    decided-Tracks cfg ses agent_id m rec (cache_access cfg ses ans agent_id state)
      (gates cfg ses ans agent_id m) id before h e
round-Tracks cfg ses ans state rec _ id before h e = h e

is_open-stops :
    (id : String) (rec : List String) (before : Bool)
    → (before ≡ true → contains rec id ≡ true)
    → is_open id (map record_stop rec) before ≡ false
unfolding contains
is_open-stops id [] before h = ground arith
is_open-stops id (s ∷ rec) before h =
    is_open-stops id rec (if s == id then false else before) (λ e. ground arith)

closes_lem :
    (cfg : Config) (ses : Session) (log : List ((AppState → AppState) × Answers × UiMessage))
    (state : AppState) (rec : List String) (id : String) (before : Bool)
    → (before ≡ true → contains rec id ≡ true)
    → is_open id (process_ui_messages cfg ses log state rec).1 before ≡ false
unfolding process_ui_messages cleanup
closes_lem cfg ses [] state rec id before h = is_open-stops id rec before h
closes_lem cfg ses ((others, ans, m) ∷ log) state rec id before h =
    let round = process_ui_message cfg ses ans (others state) rec m in
    let opened = is_open id round.effects before in
    let tracked = round-Tracks cfg ses ans (others state) rec m id before h in
    elim (Bool-cases round.running) [
      | inl on ↦
          rw on (is_open-append id round.effects _ before)
          ∙ closes_lem cfg ses log round.state round.rec_sessions id opened tracked
      | inr off ↦
          rw off (is_open-append id round.effects _ before)
          ∙ is_open-stops id round.rec_sessions opened tracked
    ]

-- Whatever messages a dashboard sends, whatever the gates answer and whatever other tasks do to
-- the shared state in between, no recording of a terminal is open when its control session has
-- ended, however it ends.
pub recordings_closed :
    (cfg : Config) (ses : Session) (log : List ((AppState → AppState) × Answers × UiMessage))
    (state : AppState) (id : String)
    → is_open id (process_ui_messages cfg ses log state []).1 false ≡ false
recordings_closed cfg ses log state id = closes_lem cfg ses log state [] id false (λ e. cc)
