-- ===== src/Hub/HttpTests.antt =====
-- HTTP control sessions at concrete values.
use shellfleet.Common.{
  ℕ, ◌≤◌, ◌≡◌, ◌↔◌, false, String, none, some, List, [], ◌∷◌, arith, nat_eq, string_eq,
}
use shellfleet.Common.Result.{Result, ok}
use shellfleet.Accounts.{admin}
use shellfleet.Hub.Access.{unrestricted, failed}
use shellfleet.Hub.State.{AppState, UiClient, Config}
use shellfleet.Hub.Http.{
  ui_http_max_sessions_per_user, http_sessions, HttpError, touch, authenticate_http_ui_client,
}
use shellfleet.Hub.HttpAuth.{IsAuthentic, authenticate_iff}
use shellfleet.Hub.HttpBounds.{
  HttpCall, connects, requests, ticks, finishes, IsBounded, http_calls, sessions_bounded,
}

abbrev tunnel : UiClient
tunnel = record {
  tx = 7;
  command_tx = 8;
  login = "ana";
  client_ip = "10.0.0.1";
  agent_access = unrestricted;
  http_receiver = some 9;
  http_token = some "secret";
  last_seen = 0;
}

abbrev one_session : AppState
one_session = record {
  agents = [];
  ui_clients = (1, tunnel) ∷ [];
  operation_owners = record { owners = [] };
  ui_id_counter = 2;
}

abbrev ana : Result HttpError String
ana = ok "ana"

abbrev own_channels : ℕ × ℕ
own_channels = (8, 9)

authenticate_iff_example :
    (authenticate_http_ui_client ana 1 "secret" 50 one_session
      ≡ ok (own_channels, touch 1 50 tunnel one_session))
    ↔ ((a : IsAuthentic ana 1 "secret" one_session) × (own_channels
          ≡ (a.client.command_tx, a.receiver))
        × (touch 1 50 tunnel one_session ≡ touch 1 50 a.client one_session))
authenticate_iff_example =
    authenticate_iff ana 1 "secret" 50 one_session own_channels (touch 1 50 tunnel one_session)

abbrev cfg : Config
cfg = record { dev_mode = false; ee_sidecar_url = none; type_tag = λ m. "message"; show = λ n. "0" }

abbrev calls : List HttpCall
calls =
    connects cfg failed "ana" admin "10.0.0.1" (some "other")
      (record { tx = 10; command_tx = 11; outbound_rx = 12 }) 60
    ∷ requests ana 1 "secret" 61
    ∷ ticks 1 200
    ∷ finishes 1
    ∷ []

one_session-IsBounded : IsBounded one_session
unfolding http_sessions
one_session-IsBounded login = ground arith

sessions_bounded_example :
    http_sessions "ana" (http_calls one_session calls).ui_clients ≤ ui_http_max_sessions_per_user
sessions_bounded_example = sessions_bounded one_session calls "ana" one_session-IsBounded
