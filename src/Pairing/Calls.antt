-- ===== src/Pairing/Calls.antt =====
-- The calls that reach the pairing tables, each with what it finds of its surroundings, and the
-- server that answers one after another: the routes of server/src/device_auth.rs, cli_auth.rs and
-- tokens.rs, and what server/src/main.rs calls when an agent registers and every minute.
use shellfleet.Common.{ℕ, Bool, String, Option, List, [], ◌∷◌}
use shellfleet.Common.Result.{Result}
use shellfleet.Accounts.{Role, UserAnswer}
use shellfleet.Pairing.Tokens.{upsert_token_seen}
use shellfleet.Pairing.Pending.{purge_expired_devices}
use shellfleet.Pairing.Handlers.{PairingState, with_db, Reply}
use shellfleet.Pairing.Device.{
  DeviceAuthResponse, DeviceTokenResponse, request_device_auth, poll_device_token,
  refresh_device_token, approve_device,
}
use shellfleet.Pairing.Cli.{
  CliAuthRequestResponse, CliAuthTokenResponse, UrlCrate, request_cli_auth, poll_cli_token,
}
use shellfleet.Pairing.Revoke.{revoke_token}

-- What stays the same from call to call.
pub record Env : Type 1 where
  pub to_uppercase : String → String
  pub trim_slashes : String → String
  pub crate : UrlCrate
  pub url : Option String

pub data Call : Type 0 where
  request_device : (down : ℕ → Bool) (device_code raw_user_code : String) (now : ℕ) → Call
  request_cli : (down : ℕ → Bool) (device_code raw_user_code : String) (now : ℕ) → Call
  approve : (down : ℕ → Bool) (user : Result Reply String) (user_code : String) (now : ℕ) → Call
  poll_device : (down : ℕ → Bool) (access refresh device_code : String) (now : ℕ) → Call
  poll_cli :
      (down : ℕ → Bool) (get_user : String → UserAnswer)
      (issue_cli_jwt : String → Role → ℕ → Result String String) (device_code : String) (now : ℕ)
      → Call
  rotate : (down : ℕ → Bool) (access refresh presented : String) (now : ℕ) → Call
  register : (down : ℕ → Bool) (token hostname : String) (now : ℕ) → Call
  revoke : (down : ℕ → Bool) (actor token hostname : Option String) (now : ℕ) → Call
  purge : (down : ℕ → Bool) (now : ℕ) → Call

pub data CallAnswer : Type 0 where
  device_requested : (answer : Result Reply DeviceAuthResponse) → CallAnswer
  cli_requested : (answer : Result Reply CliAuthRequestResponse) → CallAnswer
  approval : (answer : Reply) → CallAnswer
  device_polled : (answer : DeviceTokenResponse) → CallAnswer
  cli_polled : (answer : CliAuthTokenResponse) → CallAnswer
  rotated : (answer : DeviceTokenResponse) → CallAnswer
  registered : CallAnswer
  revoked : (answer : Reply) → CallAnswer
  purged : CallAnswer

module _ (env : Env) where
  unfoldable pub serve : Call → PairingState → CallAnswer × PairingState
  serve (request_device down device_code raw now) state =
      let (answer, after) =
        request_device_auth down env.to_uppercase env.url device_code raw now state in
      (device_requested answer, after)
  serve (request_cli down device_code raw now) state =
      let (answer, after) =
        request_cli_auth down env.to_uppercase env.trim_slashes env.crate env.url device_code raw
          now state in
      (cli_requested answer, after)
  serve (approve down user user_code now) state =
      let (answer, after) = approve_device down env.to_uppercase user user_code now state in
      (approval answer, after)
  serve (poll_device down access refresh device_code now) state =
      let (answer, after) = poll_device_token down access refresh device_code now state in
      (device_polled answer, after)
  serve (poll_cli down get_user issue_cli_jwt device_code now) state =
      let (answer, after) = poll_cli_token down get_user issue_cli_jwt device_code now state in
      (cli_polled answer, after)
  serve (rotate down access refresh presented now) state =
      let (answer, after) = refresh_device_token down access refresh presented now state in
      (rotated answer, after)
  serve (register down token hostname now) state =
      (registered, with_db (upsert_token_seen (down 0) token hostname now state.db).1 state)
  serve (revoke down actor t h now) state =
      let (answer, after) = revoke_token down actor t h now state in (revoked answer, after)
  serve (purge down now) state =
      (purged, with_db (purge_expired_devices (down 0) now state.db).1 state)

  -- The calls with their answers, and the state that is left.
  unfoldable pub run : List Call → PairingState → List (Call × CallAnswer) × PairingState
  unfolding serve
  run [] state = ([], state)
  run (call ∷ calls) state =
      let (answer, after) = serve call state in
      let (answers, final) = run calls after in ((call, answer) ∷ answers, final)
