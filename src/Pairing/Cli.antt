-- ===== src/Pairing/Cli.antt =====
-- server/src/cli_auth.rs: a command line asks for a code, a user approves it, and the command line
-- polls for its session token.
use Prim.Native.String.{◌++◌ as append}
use shellfleet.Common.{
  ℕ, ◌+◌, ◌*◌, Bool, true, false, not, String, Option, none, some, ◌==◌, string_eq, nat_eq,
  if◌then◌else◌, ltb,
}
use shellfleet.Common.Result.{Result, ok, err, ok_or, ◌>>=◌}
use shellfleet.Accounts.{Role, parse, UserAnswer}
use shellfleet.Pairing.Rows.{PendingDeviceRow, Db, Answer, record_audit}
use shellfleet.Pairing.Pending.{
  insert_pending_device_for_purpose, pending_device, delete_pending_device,
  consume_pending_cli_device,
}
use shellfleet.Pairing.Handlers.{PairingState, with_db, Reply, reply, user_code_of, ui_url}

abbrev pub request_ttl_secs : ℕ
request_ttl_secs = 5 * 60

abbrev pub cli_token_ttl_secs : ℕ
cli_token_ttl_secs = 8 * 60 * 60

pub record CliAuthRequestResponse : Type 0 where
  pub device_code : String
  pub user_code : String
  pub verification_uri : String
  pub ws_url : String
  pub expires_in : ℕ
  pub interval : ℕ

pub data CliAuthTokenResponse : Type 0 where
  token : (access_token token_type : String) → (expires_in : ℕ) → CliAuthTokenResponse
  error : (error : String) → CliAuthTokenResponse

-- What the crate `url` offers on its parsed URLs.
pub record UrlCrate : Type 1 where
  pub Url : Type 0
  pub parse_url : String → Result String Url
  pub scheme : Url → String
  pub set_scheme : String → Url → Option Url
  pub set_path : String → Url → Url
  pub clear_query : Url → Url
  pub clear_fragment : Url → Url
  pub to_string : Url → String

-- The scheme of the socket that belongs to a scheme of the dashboard.
unfoldable pub ws_scheme : String → Result String String
ws_scheme scheme =
    if scheme == "https"
    then ok "wss"
    else (if scheme == "http"
        then ok "ws"
        else (if scheme == "wss"
            then ok scheme
            else (if scheme == "ws" then ok scheme else err "UI_URL must use http or https")))

unfoldable pub cli_ws_url : UrlCrate → String → Result String String
unfolding ws_scheme
cli_ws_url crate base = do
  url ← crate.parse_url base
  scheme ← ws_scheme (crate.scheme url)
  url ← ok_or (crate.set_scheme scheme url) "invalid UI_URL scheme"
  ok (crate.to_string (crate.clear_fragment (crate.clear_query (crate.set_path "/ui/ws" url))))

-- `trim_end_matches` is an argument.
unfoldable pub request_cli_auth :
    (ℕ → Bool)
    → (String → String)
    → (String → String)
    → UrlCrate
    → Option String
    → String
    → String
    → ℕ
    → PairingState
    → Result Reply CliAuthRequestResponse × PairingState
request_cli_auth down to_uppercase trim_slashes crate url device_code raw_user_code now state =
    let user_code : String = user_code_of to_uppercase raw_user_code in
    let (inserted, db) =
      insert_pending_device_for_purpose (down 0) device_code user_code (now + request_ttl_secs)
        "cli" state.db in
    elim inserted [
      | err e ↦ (err (reply 500 "db error"), with_db db state)
      | ok done ↦ elim (cli_ws_url crate (ui_url url)) [
        | err e ↦ (
          err (reply 500 "invalid UI_URL"),
          with_db (delete_pending_device (down 1) device_code db).1 state,
        )
        | ok ws_url ↦ (
          ok (record {
            device_code = device_code;
            user_code = user_code;
            verification_uri = append (trim_slashes (ui_url url)) "/device?cli=1";
            ws_url = ws_url;
            expires_in = request_ttl_secs;
            interval = 5;
          }),
          with_db db state,
        )
      ]
    ]

-- What the consumption of the request answers. The session token comes from `auth::issue_cli_jwt`.
unfoldable pub consumed :
    (ℕ → Bool)
    → (String → Role → ℕ → Result String String)
    → String
    → Role
    → ℕ
    → Answer Bool
    → CliAuthTokenResponse × Db
consumed down issue_cli_jwt actor role now (err e, db) = (error "server_error", db)
consumed down issue_cli_jwt actor role now (ok false, db) = (error "invalid_grant", db)
consumed down issue_cli_jwt actor role now (ok true, db) =
    elim (issue_cli_jwt actor role cli_token_ttl_secs) [
      | err e ↦ (error "server_error", db)
      | ok access ↦ (
        token access "cli_session" cli_token_ttl_secs,
        record_audit (down 2) now (some actor) none "cli.device.token.issued" true none db,
      )
    ]

-- An approved request of a user, for the row that the user has now.
unfoldable pub authorized :
    (ℕ → Bool)
    → (String → Role → ℕ → Result String String)
    → String
    → String
    → ℕ
    → UserAnswer
    → Db
    → CliAuthTokenResponse × Db
unfolding consumed
authorized down issue_cli_jwt device_code actor now (err e) db = (error "server_error", db)
authorized down issue_cli_jwt device_code actor now (ok none) db = (error "invalid_grant", db)
authorized down issue_cli_jwt device_code actor now (ok (some user)) db =
    consumed down issue_cli_jwt actor (parse user.role) now
      (consume_pending_cli_device (down 1) device_code actor now db)

unfoldable pub authorized_by :
    (ℕ → Bool)
    → (String → UserAnswer)
    → (String → Role → ℕ → Result String String)
    → String
    → ℕ
    → Option String
    → Db
    → CliAuthTokenResponse × Db
unfolding authorized
authorized_by down get_user issue_cli_jwt device_code now none db = (error "server_error", db)
authorized_by down get_user issue_cli_jwt device_code now (some actor) db =
    authorized down issue_cli_jwt device_code actor now (get_user actor) db

unfoldable pub polled :
    (ℕ → Bool)
    → (String → UserAnswer)
    → (String → Role → ℕ → Result String String)
    → ℕ
    → Option PendingDeviceRow
    → Db
    → CliAuthTokenResponse × Db
unfolding authorized_by
polled down get_user issue_cli_jwt now none db = (error "invalid_grant", db)
polled down get_user issue_cli_jwt now (some row) db =
    if not (row.purpose == "cli")
    then (error "invalid_grant", db)
    else (if ltb row.expires_at now
        then (error "expired_token", (delete_pending_device (down 1) row.device_code db).1)
        else (if row.approved == 0
            then (error "authorization_pending", db)
            else authorized_by down get_user issue_cli_jwt row.device_code now row.approved_by db))

unfoldable pub poll_cli_token :
    (ℕ → Bool)
    → (String → UserAnswer)
    → (String → Role → ℕ → Result String String)
    → String
    → ℕ
    → PairingState
    → CliAuthTokenResponse × PairingState
unfolding polled
poll_cli_token down get_user issue_cli_jwt device_code now state =
    let (row, db) = pending_device (down 0) device_code state.db in
    elim row [
      | err e ↦ (error "server_error", with_db db state)
      | ok found ↦ (
        (polled down get_user issue_cli_jwt now found db).0,
        with_db (polled down get_user issue_cli_jwt now found db).1 state,
      )
    ]
