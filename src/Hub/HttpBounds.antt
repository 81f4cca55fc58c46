-- ===== src/Hub/HttpBounds.antt =====
-- server/src/main.rs, `register_ui_client`: how many HTTP control sessions there are.
use shellfleet.Common.{
  count_where, ℕ, ◌+◌, ◌≤◌, ◌<◌, ◌≡◌, sym, ap, subst, ◌⊎◌, inl, inr, Bool, false, ◌&&◌, String,
  Option, none, some, List, [], ◌∷◌, arith, ◌==◌, nat_eq, string_eq, eq_iff, if◌then◌else◌,
  Bool-cases, leb,
}
use shellfleet.Common.Dict.{lookup, insert, erase}
use shellfleet.Common.Result.{Result, ok, err, Result-cases}
use shellfleet.Accounts.{Role}
use shellfleet.Hub.Access.{AgentAccess, EeReply}
use shellfleet.Hub.State.{AppState, UiClient, Config, is_some}
use shellfleet.Hub.Http.{
  ui_http_max_sessions_per_user, Channels, is_http_session_of, http_sessions, register_ui_client,
  HttpError, touch, authenticate_http_ui_client, ui_http_disconnect, reap,
}
use shellfleet.Hub.HttpAuth.{authenticate_iff}

-- How much an entry counts.
abbrev counted_as : (UiClient → Bool) → Option UiClient → ℕ
counted_as p none = 0
counted_as p (some client) = if p client then 1 else 0

count_where-erase :
    (p : UiClient → Bool) (k : ℕ) (m : List (ℕ × UiClient))
    → count_where (λ e. p e.1) (erase k m) + counted_as p (lookup k m) ≤ count_where (λ e. p e.1) m
unfolding erase lookup
count_where-erase p k [] = ground arith
count_where-erase p k ((j, client) ∷ m) =
    let rest = count_where-erase p k m in
    elim (Bool-cases (j == k)) [
      | inl here ↦ rw here (ground arith)
      | inr apart ↦ rw apart (ground arith)
    ]

count_where-insert :
    (p : UiClient → Bool) (k : ℕ) (client : UiClient) (m : List (ℕ × UiClient))
    → count_where (λ e. p e.1) (insert k client m) + counted_as p (lookup k m)
      ≤ count_where (λ e. p e.1) m + counted_as p (some client)
unfolding insert
count_where-insert p k client m = ground (arith, count_where-erase p k m)

-- Calls that change the registered sessions: a connection, over HTTP or not; a request that polls
-- or sends; a request that disconnects; the tick of a reaper; and the end of a session's loop.
pub data HttpCall : Type 0 where
  connects :
      Config
      → EeReply AgentAccess
      → (login : String) → Role
      → (client_ip : String) (http_token : Option String) → Channels
      → (now : ℕ) → HttpCall
  requests : Result HttpError String → (client_id : ℕ) (client_token : String) (now : ℕ) → HttpCall
  disconnects :
      Result HttpError String → (client_id : ℕ) (client_token : String) (now : ℕ) → HttpCall
  ticks : (client_id now : ℕ) → HttpCall
  finishes : (client_id : ℕ) → HttpCall

abbrev authenticated : AppState → Result HttpError ((ℕ × ℕ) × AppState) → AppState
authenticated state (ok (channels, after)) = after
authenticated state (err e) = state

abbrev disconnected : AppState → Result HttpError AppState → AppState
disconnected state (ok after) = after
disconnected state (err e) = state

unfoldable pub http_call : AppState → HttpCall → AppState
http_call state (connects cfg r login role client_ip http_token channels now) =
    (register_ui_client cfg r login role client_ip http_token channels now state).0
http_call state (requests claims client_id client_token now) =
    authenticated state (authenticate_http_ui_client claims client_id client_token now state)
http_call state (disconnects claims client_id client_token now) =
    disconnected state (ui_http_disconnect claims client_id client_token now state)
http_call state (ticks client_id now) = reap client_id now state
http_call state (finishes client_id) = record state {
  ui_clients = erase client_id state.ui_clients;
}

abbrev pub IsBounded : AppState → Type 0
IsBounded state =
    (login : String) → http_sessions login state.ui_clients ≤ ui_http_max_sessions_per_user

module _ (state : AppState) (bounded : IsBounded state) where
  erase-IsBounded : (k : ℕ) → IsBounded (record state { ui_clients = erase k state.ui_clients })
  unfolding http_sessions
  erase-IsBounded k login =
      let less = count_where-erase (is_http_session_of login) k state.ui_clients in
      let small = bounded login in omega arith

  touch-IsBounded :
      (k now : ℕ) (client : UiClient)
      → lookup k state.ui_clients ≡ some client
      → IsBounded (touch k now client state)
  unfolding http_sessions
  touch-IsBounded k now client found login =
      let same =
        count_where-insert (is_http_session_of login) k (record client { last_seen = now })
          state.ui_clients in
      let counts = ap (counted_as (is_http_session_of login)) found in
      let small = bounded login in ground arith

  insert-IsBounded :
      (k : ℕ) (client : UiClient)
      → (is_some client.http_token ≡ false)
        ⊎ (http_sessions client.login state.ui_clients < ui_http_max_sessions_per_user)
      → IsBounded (record state { ui_clients = insert k client state.ui_clients })
  unfolding http_sessions
  insert-IsBounded k client room login =
      let more = count_where-insert (is_http_session_of login) k client state.ui_clients in
      let small = bounded login in
      elim (Bool-cases (is_http_session_of login client)) [
        | inr other ↦ ground arith
        | inl mine ↦ elim room [
          | inl plain ↦ ground arith
          | inr left ↦
              let same : client.login ≡ login = (eq_iff client.login login).0 (ground arith) in
              let free : http_sessions login state.ui_clients < ui_http_max_sessions_per_user =
                subst (λ who. http_sessions who state.ui_clients < ui_http_max_sessions_per_user)
                  same left in
              ground arith
        ]
      ]

  register-IsBounded :
      (cfg : Config) (r : EeReply AgentAccess) (login : String) (role : Role) (client_ip : String)
      (http_token : Option String) (channels : Channels) (now : ℕ)
      → IsBounded (register_ui_client cfg r login role client_ip http_token channels now state).0
  unfolding register_ui_client
  register-IsBounded cfg r login role client_ip http_token channels now =
      elim (Bool-cases (
        is_some http_token
        && leb ui_http_max_sessions_per_user (http_sessions login state.ui_clients))) [
          | inl full ↦ rw full bounded
          | inr room ↦ rw room (insert-IsBounded state.ui_id_counter _ (ground arith))
        ]

  reap-eq :
      (k now : ℕ)
      → (reap k now state ≡ state)
        ⊎ (reap k now state ≡ record state { ui_clients = erase k state.ui_clients })
  unfolding reap
  reap-eq k now = ground arith

  reap-IsBounded : (k now : ℕ) → IsBounded (reap k now state)
  reap-IsBounded k now = elim (reap-eq k now) [
    | inl kept_all ↦ subst IsBounded (sym kept_all) bounded
    | inr removed ↦ subst IsBounded (sym removed) (erase-IsBounded k)
  ]

  authenticated-IsBounded :
      (claims : Result HttpError String) (client_id : ℕ) (client_token : String) (now : ℕ)
      (channels : ℕ × ℕ) (after : AppState)
      → authenticate_http_ui_client claims client_id client_token now state ≡ ok (channels, after)
      → IsBounded after
  authenticated-IsBounded claims client_id client_token now channels after h =
      let (a, same, left) =
        (authenticate_iff claims client_id client_token now state channels after).0 h in
      subst IsBounded (sym left) (touch-IsBounded client_id now a.client a.registered)

http_call-IsBounded :
    (state : AppState) (c : HttpCall) → IsBounded state → IsBounded (http_call state c)
unfolding http_call ui_http_disconnect
http_call-IsBounded state (connects cfg r login role client_ip http_token channels now) h =
    register-IsBounded state h cfg r login role client_ip http_token channels now
http_call-IsBounded state (requests claims client_id client_token now) h =
    elim (Result-cases (authenticate_http_ui_client claims client_id client_token now state)) [
      | inr (e, failed) ↦ rw failed h
      | inl ((channels, after), passed) ↦
          rw passed (
            authenticated-IsBounded state h claims client_id client_token now channels after passed)
    ]
http_call-IsBounded state (disconnects claims client_id client_token now) h =
    elim (Result-cases (authenticate_http_ui_client claims client_id client_token now state)) [
      | inr (e, failed) ↦ rw failed h
      | inl ((channels, after), passed) ↦ rw passed (
          erase-IsBounded after
            (authenticated-IsBounded state h claims client_id client_token now channels after
              passed)
            client_id)
    ]
http_call-IsBounded state (ticks client_id now) h = reap-IsBounded state h client_id now
http_call-IsBounded state (finishes client_id) h = erase-IsBounded state h client_id

unfoldable pub http_calls : AppState → List HttpCall → AppState
http_calls state [] = state
http_calls state (c ∷ calls) = http_calls (http_call state c) calls

-- Through any sequence of connections, requests, disconnections, ticks of the reapers and ends of
-- sessions, no user has more than eight HTTP control sessions, if none has at the beginning.
pub sessions_bounded :
    (state : AppState) (calls : List HttpCall) (login : String)
    → IsBounded state
    → http_sessions login (http_calls state calls).ui_clients ≤ ui_http_max_sessions_per_user
unfolding http_calls
sessions_bounded state [] login h = h login
sessions_bounded state (c ∷ calls) login h =
    sessions_bounded (http_call state c) calls login (http_call-IsBounded state c h)
