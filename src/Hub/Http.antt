-- ===== src/Hub/Http.antt =====
-- server/src/main.rs: the control sessions of dashboards over HTTP: their registration, with a
-- bound for each user, the authentication of each request, the batches of messages, and the
-- removal of idle sessions. The new channels of a session, and which commands' channel is closed,
-- are arguments.
use shellfleet.Common.{
  count_where, ℕ, ◌+◌, ◌-◌, Bool, true, false, not, ◌&&◌, ◌||◌, String, Option, none, some, List,
  [], ◌∷◌, map, ◌==◌, nat_eq, string_eq, if◌then◌else◌, ltb, leb, length, any,
}
use shellfleet.Common.Dict.{lookup, insert, erase}
use shellfleet.Common.Result.{Result, ok, err, ◌>>=◌, ◌>>◌, guard, ok_or}
use shellfleet.Protocol.Wire.{UiMessage}
use shellfleet.Accounts.{Role, is_admin}
use shellfleet.Hub.Access.{
  AgentAccess, unrestricted, EeReply, ee_fetch_agent_access, ee_filter_agent_list,
}
use shellfleet.Hub.State.{AppState, UiClient, Effect, to_ui, Config, is_some}
use shellfleet.Hub.Dispatch.{agent_names, agent_capabilities}

abbrev pub ui_http_idle_ttl_secs : ℕ
ui_http_idle_ttl_secs = 90

abbrev pub ui_http_max_batch : ℕ
ui_http_max_batch = 128

abbrev pub ui_http_max_sessions_per_user : ℕ
ui_http_max_sessions_per_user = 8

-- The two ends that are opened for a session, by their numbers.
pub record Channels : Type 0 where
  pub tx : ℕ
  pub command_tx : ℕ
  pub outbound_rx : ℕ

abbrev pub is_http_session_of : String → UiClient → Bool
is_http_session_of login client = client.login == login && is_some client.http_token

-- How many HTTP sessions a user has.
unfoldable pub http_sessions : String → List (ℕ × UiClient) → ℕ
http_sessions login clients = count_where (λ entry. is_http_session_of login entry.1) clients

unfoldable pub initial_access : Config → Role → EeReply AgentAccess → AgentAccess
initial_access cfg role r =
    if is_admin role then unrestricted else ee_fetch_agent_access cfg.ee_sidecar_url r

-- The state afterwards, and the session's id with what it is sent, unless it is refused.
unfoldable pub register_ui_client :
    Config
    → EeReply AgentAccess
    → String
    → Role
    → String
    → Option String
    → Channels
    → ℕ
    → AppState
    → AppState × Option (ℕ × List Effect)
register_ui_client cfg r login role client_ip http_token channels now state =
    let agent_access = initial_access cfg role r in
    let counted : AppState = record state { ui_id_counter = state.ui_id_counter + 1 } in
    let (agents, capabilities) =
      ee_filter_agent_list (agent_names state.agents) (agent_capabilities state.agents)
        agent_access in
    if is_some http_token
      && leb ui_http_max_sessions_per_user (http_sessions login state.ui_clients)
    then (counted, none)
    else (
      record counted {
        ui_clients =
            insert state.ui_id_counter
              (record {
                tx = channels.tx;
                command_tx = channels.command_tx;
                login = login;
                client_ip = client_ip;
                agent_access = agent_access;
                http_receiver = if is_some http_token then some channels.outbound_rx else none;
                http_token = http_token;
                last_seen = now;
              })
              state.ui_clients;
      },
      some (
        state.ui_id_counter,
        to_ui channels.tx (UiMessage.list_agents_response agents capabilities) ∷ [],
      ),
    )

-- A refused request.
pub record HttpError : Type 0 where
  pub status : ℕ
  pub reason : String

abbrev http_error : ℕ → String → HttpError
http_error status reason = record { status = status; reason = reason }

-- `last_seen.store`
abbrev pub touch : ℕ → ℕ → UiClient → AppState → AppState
touch client_id now client state = record state {
  ui_clients = insert client_id (record client { last_seen = now }) state.ui_clients;
}

-- The commands' channel and the receiver of the session. Who asks is what `auth::current_user`
-- answers.
unfoldable pub authenticate_http_ui_client :
    Result HttpError String → ℕ → String → ℕ → AppState → Result HttpError ((ℕ × ℕ) × AppState)
authenticate_http_ui_client claims client_id client_token now state = do
  sub ← claims
  client ← ok_or (lookup client_id state.ui_clients) (http_error 410 "control session expired")
  expected ← ok_or client.http_token (http_error 410 "not an HTTP control session")
  guard (client.login == sub && expected == client_token)
      (http_error 403 "control session mismatch")
  receiver ← ok_or client.http_receiver (http_error 410 "control session unavailable")
  ok ((client.command_tx, receiver), touch client_id now client state)

-- `ui_http_disconnect_handler`
unfoldable pub ui_http_disconnect :
    Result HttpError String → ℕ → String → ℕ → AppState → Result HttpError AppState
ui_http_disconnect claims client_id client_token now state = do
  (channels, seen) ← authenticate_http_ui_client claims client_id client_token now state
  ok (record seen { ui_clients = erase client_id seen.ui_clients })

unfoldable pub is_http_client_message : UiMessage → Bool
is_http_client_message UiMessage.list_agents_request = true
is_http_client_message (UiMessage.send_to_agent agent_id m) = true
is_http_client_message _ = false

unfoldable pub sent :
    (ℕ → Bool)
    → List UiMessage
    → Result HttpError ((ℕ × ℕ) × AppState)
    → AppState
    → Result HttpError (List (ℕ × UiMessage)) × AppState
sent open_tx messages (err e) state = (err e, state)
sent open_tx messages (ok (channels, seen)) state =
    if open_tx channels.0
    then (ok (map (λ m. (channels.0, m)) messages), seen)
    else (err (http_error 410 "control session closed"), seen)

-- `ui_http_send_handler`: the messages go to the commands' channel, in order.
unfoldable pub ui_http_send :
    (ℕ → Bool)
    → Result HttpError String
    → ℕ
    → String
    → List UiMessage
    → ℕ
    → AppState
    → Result HttpError (List (ℕ × UiMessage)) × AppState
unfolding sent
ui_http_send open_tx claims client_id client_token messages now state =
    if length messages == 0 || ltb ui_http_max_batch (length messages)
    then (err (http_error 400 "invalid control message batch"), state)
    else (if any (λ m. not (is_http_client_message m)) messages
        then (err (http_error 400 "invalid client UI message"), state)
        else sent open_tx messages
            (authenticate_http_ui_client claims client_id client_token now state) state)

-- One tick of the task that waits for a session to idle.
unfoldable pub reap : ℕ → ℕ → AppState → AppState
reap client_id now state = elim (lookup client_id state.ui_clients) [
  | none ↦ state
  | some client ↦
      if leb (now - client.last_seen) ui_http_idle_ttl_secs
      then state
      else record state { ui_clients = erase client_id state.ui_clients }
]
