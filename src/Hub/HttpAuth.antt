-- ===== src/Hub/HttpAuth.antt =====
-- server/src/main.rs, `authenticate_http_ui_client`: who may use an HTTP control session.
use shellfleet.Common.{
  [], inr, ◌∷◌, inl, All, ltb, ◌||◌, Bool-cases, not, map, length, ◌≤◌, any, List, ℕ, ◌≡◌, refl,
  sym, ◌∙◌, ap, ◌↔◌, Bool, true, false, ◌&&◌, String, some, arith, ◌==◌, nat_eq, string_eq, eq_iff,
  eq_refl,
}
use shellfleet.Common.Dict.{lookup}
use shellfleet.Common.Result.{Result-cases, guard_ok, ok_or_ok, Result, ok, guard, ok_or, >>=-eq-ok}
use shellfleet.Protocol.Wire.{UiMessage}
use shellfleet.Hub.State.{AppState, UiClient}
use shellfleet.Hub.Http.{
  is_http_client_message, ui_http_max_batch, sent, ui_http_send, HttpError, touch,
  authenticate_http_ui_client,
}

-- What a request with this token has been checked for.
pub record IsAuthentic (claims : Result HttpError String) (client_id : ℕ) (client_token : String)
    (state : AppState) : Type 0 where
  pub client : UiClient
  pub receiver : ℕ
  pub known : claims ≡ ok client.login
  pub registered : lookup client_id state.ui_clients ≡ some client
  pub token : client.http_token ≡ some client_token
  pub channel : client.http_receiver ≡ some receiver

module _ (claims : Result HttpError String) (client_id : ℕ) (client_token : String) (now : ℕ)
    (state : AppState) where
  authenticate_sound :
      (channels : ℕ × ℕ) (after : AppState)
      → authenticate_http_ui_client claims client_id client_token now state ≡ ok (channels, after)
      → (a : IsAuthentic claims client_id client_token state) × (channels
          ≡ (a.client.command_tx, a.receiver))
        × (after ≡ touch client_id now a.client state)
  unfolding authenticate_http_ui_client
  authenticate_sound channels after h =
      let (sub, known, h) = >>=-eq-ok claims _ h in
      let (client, found, h) = >>=-eq-ok (ok_or (lookup client_id state.ui_clients) _) _ h in
      let (expected, has_token, h) = >>=-eq-ok (ok_or client.http_token _) _ h in
      let (_, matches, h) =
        >>=-eq-ok (guard (client.login == sub && expected == client_token) _) _ h in
      let (receiver, has_channel, h) = >>=-eq-ok (ok_or client.http_receiver _) _ h in
      let both : (client.login == sub && expected == client_token) ≡ true = guard_ok _ _ matches in
      let same_login : client.login ≡ sub = (eq_iff client.login sub).0 (ground arith) in
      let same_token : expected ≡ client_token = (eq_iff expected client_token).0 (ground arith) in
      (
        record {
          client = client;
          receiver = receiver;
          known = known ∙ ap ok (sym same_login);
          registered = ok_or_ok _ _ found;
          token = ok_or_ok _ _ has_token ∙ ap some same_token;
          channel = ok_or_ok _ _ has_channel;
        },
        cc,
        cc,
      )

  authenticate_complete :
      (a : IsAuthentic claims client_id client_token state)
      → authenticate_http_ui_client claims client_id client_token now state
        ≡ ok ((a.client.command_tx, a.receiver), touch client_id now a.client state)
  unfolding authenticate_http_ui_client
  authenticate_complete a =
      rw (a.known, a.registered, a.token, eq_refl a.client.login, eq_refl client_token, a.channel)
        refl

-- A request is let through exactly if the user who makes it is known and is the one for whom the
-- session was registered, and it carries the token of that HTTP session; it is then given that
-- session's own channels, and nothing but the time it was last seen changes.
pub authenticate_iff :
    (claims : Result HttpError String) (client_id : ℕ) (client_token : String) (now : ℕ)
    (state : AppState) (channels : ℕ × ℕ) (after : AppState)
    → (authenticate_http_ui_client claims client_id client_token now state ≡ ok (channels, after))
      ↔ ((a : IsAuthentic claims client_id client_token state) × (channels
            ≡ (a.client.command_tx, a.receiver))
          × (after ≡ touch client_id now a.client state))
authenticate_iff claims client_id client_token now state channels after = (
  authenticate_sound claims client_id client_token now state channels after,
  λ (a, same, left).
      authenticate_complete claims client_id client_token now state a
      ∙ ap ok (λ i. (sym same i, sym left i)),
)

size_fits : {n : ℕ} → 1 ≤ n → n ≤ ui_http_max_batch → (n == 0 || ltb ui_http_max_batch n) ≡ false
size_fits h k = ground arith

client_messages_iff :
    (messages : List UiMessage)
    → (any (λ m. not (is_http_client_message m)) messages ≡ false)
      ↔ All (λ m. is_http_client_message m ≡ true) messages
client_messages_iff [] = (λ h. tt, λ h. refl)
client_messages_iff (m ∷ messages) = (
  λ h. (ground arith, (client_messages_iff messages).0 (ground arith)),
  λ (h, rest). ground (arith, (client_messages_iff messages).1 rest),
)

module _ (open_tx : ℕ → Bool) (claims : Result HttpError String) (client_id : ℕ)
    (client_token : String) (messages : List UiMessage) (now : ℕ) (state : AppState)
    (out : List (ℕ × UiMessage)) where
  -- A batch that the handler takes, and what becomes of it.
  pub record IsAccepted : Type 0 where
    pub some_messages : 1 ≤ length messages
    pub few_messages : length messages ≤ ui_http_max_batch
    pub from_client : All (λ m. is_http_client_message m ≡ true) messages
    pub session : IsAuthentic claims client_id client_token state
    pub takes : open_tx session.client.command_tx ≡ true
    pub delivered : out ≡ map (λ m. (session.client.command_tx, m)) messages

  abbrev answered : Result HttpError (List (ℕ × UiMessage)) × AppState
  answered = ui_http_send open_tx claims client_id client_token messages now state

  abbrev asked : Result HttpError ((ℕ × ℕ) × AppState)
  asked = authenticate_http_ui_client claims client_id client_token now state

  passed_on :
      (length messages == 0 || ltb ui_http_max_batch (length messages)) ≡ false
      → any (λ m. not (is_http_client_message m)) messages ≡ false
      → answered ≡ sent open_tx messages asked state
  unfolding ui_http_send
  passed_on h k = rw (h, k) refl

  answered_open :
      (channels : ℕ × ℕ) (seen : AppState)
      → asked ≡ ok (channels, seen)
      → open_tx channels.0 ≡ true
      → (sent open_tx messages asked state).0 ≡ ok (map (λ m. (channels.0, m)) messages)
  unfolding sent
  answered_open channels seen passed opened = rw (passed, opened) refl

  sent_out :
      (channels : ℕ × ℕ) (seen : AppState) (a : IsAuthentic claims client_id client_token state)
      → channels ≡ (a.client.command_tx, a.receiver)
      → asked ≡ ok (channels, seen)
      → (length messages == 0 || ltb ui_http_max_batch (length messages)) ≡ false
      → any (λ m. not (is_http_client_message m)) messages ≡ false
      → open_tx channels.0 ≡ true
      → answered.0 ≡ ok out
      → out ≡ map (λ m. (a.client.command_tx, m)) messages
  sent_out channels seen a same passed size clients opened h =
      let there = answered_open channels seen passed opened in
      let through = ap (λ r. r.0) (passed_on size clients) in
      let whole : out ≡ map (λ m. (channels.0, m)) messages = cc (h, through, there) in
      whole ∙ ap (λ c. map (λ (m : UiMessage). (c.0, m)) messages) same

  send_sound : answered.0 ≡ ok out → IsAccepted
  unfolding ui_http_send sent
  send_sound h =
      elim (Bool-cases (length messages == 0 || ltb ui_http_max_batch (length messages))) [
        | inl wrong ↦ ground arith
        | inr size ↦ elim (Bool-cases (any (λ m. not (is_http_client_message m)) messages)) [
          | inl foreign ↦ ground arith
          | inr clients ↦ elim (Result-cases asked) [
            | inr (e, failed) ↦ ground arith
            | inl ((channels, seen), passed) ↦
                let (a, same, left) =
                  authenticate_sound claims client_id client_token now state channels seen passed in
                let opened : open_tx channels.0 ≡ true = ground arith in
                record {
                  some_messages = ground arith;
                  few_messages = ground arith;
                  from_client = (client_messages_iff messages).0 clients;
                  session = a;
                  takes = ap (λ c. open_tx c.0) (sym same) ∙ opened;
                  delivered = sent_out channels seen a same passed size clients opened h;
                }
          ]
        ]
      ]

  send_complete : IsAccepted → answered.0 ≡ ok out
  send_complete a =
      let size : (length messages == 0 || ltb ui_http_max_batch (length messages)) ≡ false =
        size_fits a.some_messages a.few_messages in
      let clients = (client_messages_iff messages).1 a.from_client in
      ap (λ r. r.0) (passed_on size clients)
      ∙ answered_open (a.session.client.command_tx, a.session.receiver)
          (touch client_id now a.session.client state)
          (authenticate_complete claims client_id client_token now state a.session) a.takes
      ∙ ap ok (sym a.delivered)

-- A batch of messages is taken exactly if it is not empty and has at most 128 messages, all of them
-- such as a client may send, the request is authenticated and the session's channel is open; all
-- of its messages then go to that session's own channel, in order.
ui_http_send_iff :
    (open_tx : ℕ → Bool) (claims : Result HttpError String) (client_id : ℕ) (client_token : String)
    (messages : List UiMessage) (now : ℕ) (state : AppState) (out : List (ℕ × UiMessage))
    → ((ui_http_send open_tx claims client_id client_token messages now state).0 ≡ ok out)
      ↔ IsAccepted open_tx claims client_id client_token messages now state out
ui_http_send_iff open_tx claims client_id client_token messages now state out = (
  send_sound open_tx claims client_id client_token messages now state out,
  send_complete open_tx claims client_id client_token messages now state out,
)
