-- ===== src/Pairing/Completes.antt =====
-- server/src/device_auth.rs: the pairing of an agent from its request to the use of its token, while
-- the server answers other calls.
use shellfleet.Common.{
  ℕ, ◌+◌, ◌≤◌, ◌<◌, ◌≡◌, refl, ap, ◌∙◌, Bool, true, false, String, Option, List, arith, ◌==◌,
  string_eq, nat_eq, eq_refl, any, all,
}
use shellfleet.Common.Result.{ok}
use shellfleet.Common.Table.{first-update, first-any, any_weaker}
use shellfleet.Throttle.Lockout.{clear, check}
use shellfleet.Pairing.Rows.{PendingDeviceRow, record_audit}
use shellfleet.Pairing.Tokens.{accepts, token_exists}
use shellfleet.Pairing.Pending.{
  clashes, insert_pending_device, insert_pending_device_for_purpose, approvable, approved_row,
  approve_user_code, is_ready, pending_device, consume_pending_agent_and_insert_token,
}
use shellfleet.Pairing.Handlers.{PairingState, Reply, user_code_of}
use shellfleet.Pairing.Device.{
  DeviceTokenResponse, request_device_auth, judged, approve_device, exchanged, polled,
  poll_device_token, access_token_ttl_secs, refresh_token_ttl_secs, token,
}
use shellfleet.Pairing.Calls.{Env, Call, run}
use shellfleet.Pairing.Counts.{new_request}
use shellfleet.Pairing.Waiting.{has_device, IsPending, leaves_pending}
use shellfleet.Pairing.Bystanders.{run-IsWaiting}
use shellfleet.Pairing.Holding.{IsHeld, is_pair, leaves_token, run-IsHeld}

abbrev pub up : ℕ → Bool
up n = false

asked-IsPending :
    (state : PairingState) (to_uppercase : String → String) (url : Option String)
    (code raw : String) (now : ℕ)
    → any (clashes code (user_code_of to_uppercase raw)) state.db.pending_devices ≡ false
    → IsPending code
        (new_request code (user_code_of to_uppercase raw) (now + 300) "agent")
        (request_device_auth up to_uppercase url code raw now state).1.db
unfolding request_device_auth insert_pending_device insert_pending_device_for_purpose
asked-IsPending state to_uppercase url code raw now free = ground (arith, eq_refl code)

-- A waiting request is approved where its user code is typed in time.
granted-IsPending :
    (state : PairingState) (to_uppercase : String → String) (actor typed code : String) (now : ℕ)
    (row : PendingDeviceRow)
    → IsPending code row state.db
    → (check state.device_approve_throttle actor now).1 ≡ clear
    → approvable (to_uppercase typed) now row ≡ true
    → let done = approve_device up to_uppercase (ok actor) typed now state in
      (done.0.status ≡ 200) × IsPending code (approved_row actor row) done.1.db
unfolding approve_device approve_user_code judged record_audit
granted-IsPending state to_uppercase actor typed code now row waits open_now fits =
    let (there, (first, found)) =
      first-any (has_device code) (approvable (to_uppercase typed) now) state.db.pending_devices row
        waits fits in
    let marked =
      first-update (has_device code) (approvable (to_uppercase typed) now) (approved_row actor)
        state.db.pending_devices row (λ r. refl) waits in
    (ground arith, ground arith)

-- A request that waits, approved and in time, is exchanged for a new token.
got-IsHeld :
    (state : PairingState) (access refresh code : String) (now later : ℕ) (row : PendingDeviceRow)
    → IsPending code row state.db
    → row.device_code ≡ code
    → is_ready code "agent" now row ≡ true
    → any (λ r. r.token == access) state.db.tokens ≡ false
    → later < now + access_token_ttl_secs
    → let got = poll_device_token up access refresh code now state in
      (got.0 ≡ token access refresh "bearer" access_token_ttl_secs refresh_token_ttl_secs)
      × IsHeld access refresh later got.1.db
unfolding poll_device_token pending_device polled consume_pending_agent_and_insert_token exchanged
    record_audit
got-IsHeld state access refresh code now later row waits same ready fresh soon =
    let ready_too : is_ready row.device_code "agent" now row ≡ true =
      ap (λ c. is_ready c "agent" now row) same ∙ ready in
    let (there, (first, found)) =
      first-any (has_device code) (is_ready row.device_code "agent" now) state.db.pending_devices
        row waits ready_too in
    let one = eq_refl access in let two = eq_refl refresh in (ground arith, ground arith)

module _ (env : Env) (state : PairingState) (code raw actor typed access refresh : String)
    (before between after : List Call) (asked_at approved_at polled_at : ℕ) where
  -- The request, which is asked for when nothing stands in its way.
  abbrev pub new_pairing : PendingDeviceRow
  new_pairing = new_request code (user_code_of env.to_uppercase raw) (asked_at + 300) "agent"

  -- The agent's request and the calls before its approval.
  abbrev pub asked : PairingState
  asked =
      (run env before (request_device_auth up env.to_uppercase env.url code raw asked_at state).1).1

  abbrev pub approval : Reply × PairingState
  approval = approve_device up env.to_uppercase (ok actor) typed approved_at asked

  -- The calls between the approval and the poll.
  abbrev pub granted : PairingState
  granted = (run env between approval.1).1

  abbrev pub poll : DeviceTokenResponse × PairingState
  poll = poll_device_token up access refresh code polled_at granted

  -- An agent asks for a pairing under a new device code and a new user code; a user who is not locked
  -- out types that code, and the agent polls under its device code, both within five minutes and
  -- each while the database works, with an access token that is new. Calls before the approval and
  -- between it and the poll are any that are not under this device code, do not ask to approve this
  -- user code and do not purge after the five minutes; calls after the poll are any that do not rotate by
  -- the refresh token and revoke, if anything, another token by its name. Then the approval is
  -- answered with 200, the poll with the tokens, and until an hour after the poll the access token is
  -- good.
  pub pairing_completes :
      any (clashes code (user_code_of env.to_uppercase raw)) state.db.pending_devices ≡ false
      → env.to_uppercase typed ≡ user_code_of env.to_uppercase raw
      → all (leaves_pending env new_pairing) before ≡ true
      → all (leaves_pending env new_pairing) between ≡ true
      → all (leaves_token access refresh) after ≡ true
      → (check asked.device_approve_throttle actor approved_at).1 ≡ clear
      → any (λ r. r.token == access) granted.db.tokens ≡ false
      → approved_at ≤ asked_at + 300
      → polled_at ≤ asked_at + 300
      → (later : ℕ) → later < polled_at + access_token_ttl_secs
      → (approval.0.status ≡ 200)
        × (poll.0 ≡ token access refresh "bearer" access_token_ttl_secs refresh_token_ttl_secs)
        × (token_exists false access later (run env after poll.1).1.db ≡ true)
  unfolding token_exists
  pairing_completes new_codes same_code quiet_before quiet_between quiet_after open_now new_token
        approved_soon polled_soon later soon =
      let user_code : String = user_code_of env.to_uppercase raw in
      let asked_first : PairingState =
        (request_device_auth up env.to_uppercase env.url code raw asked_at state).1 in
      let waits =
        run-IsWaiting code new_pairing refl env before asked_first quiet_before
          (asked-IsPending state env.to_uppercase env.url code raw asked_at new_codes) in
      let (answered, marked) =
        granted-IsPending asked env.to_uppercase actor typed code approved_at new_pairing waits
          open_now (rw same_code (ground (arith, eq_refl user_code))) in
      let still =
        run-IsWaiting code (approved_row actor new_pairing) refl env between approval.1
          quiet_between marked in
      let (issued, held) =
        got-IsHeld granted access refresh code polled_at later (approved_row actor new_pairing)
          still refl (ground (arith, eq_refl code)) new_token soon in
      let good = run-IsHeld access refresh later env after poll.1 quiet_after held in
      (
        answered,
        issued,
        any_weaker (is_pair access refresh later) (accepts access later)
            (run env after poll.1).1.db.tokens (λ r h. ground arith) good,
      )
