-- ===== src/Pairing/Budget.antt =====
-- The calls of server/src/device_auth.rs, cli_auth.rs and tokens.rs, one after another: what they
-- take from a count, what they add to it, and the count that the state keeps.
use shellfleet.Common.{
  bit, ℕ, ◌+◌, ◌≤◌, ◌≡◌, refl, Bool, true, false, ◌&&◌, String, List, [], ◌∷◌, arith, ◌==◌,
  string_eq, nat_eq, eq_iff, count_where, ap,
}
use shellfleet.Pairing.Rows.{PendingDeviceRow}
use shellfleet.Pairing.Handlers.{PairingState}
use shellfleet.Pairing.Calls.{Env, Call, CallAnswer, serve, run}
use shellfleet.Pairing.Counts.{marked_in, purge-marked}
use shellfleet.Pairing.Polls.{is_token, is_session, poll_device-marked, poll_cli-marked}
use shellfleet.Pairing.Approvals.{
  is_approved, approve-same, approve-one, request_device-marked, request_cli-marked,
}
use shellfleet.Pairing.Untouched.{rotate-pending, register-pending, revoke-pending}
use shellfleet.Pairing.Unique.{IsUnique, serve-IsUnique}

-- A call with its answer.
abbrev pub Exchange : Type 0
Exchange = Call × CallAnswer

-- A request for a pairing, under this device code.
abbrev pub requests : String → Exchange → Bool
requests code (Call.request_device down c raw now, answer) = c == code
requests code (Call.request_cli down c raw now, answer) = c == code
requests code (call, answer) = false

-- A poll that is answered with an agent's tokens or with a session's.
abbrev pub hands_out : Exchange → Bool
hands_out (call, CallAnswer.device_polled answer) = is_token answer
hands_out (call, CallAnswer.cli_polled answer) = is_session answer
hands_out (call, answer) = false

-- A poll of this device code.
abbrev pub polls : String → Call → Bool
polls code (Call.poll_device down access refresh c now) = c == code
polls code (Call.poll_cli down get_user issue c now) = c == code
polls code call = false

abbrev pub redeems : String → Exchange → Bool
redeems code (call, answer) = polls code call && hands_out (call, answer)

-- An approval by a user that is answered with 200.
abbrev pub approves : Exchange → Bool
approves (call, CallAnswer.approval answer) = is_approved answer
approves (call, answer) = false

module _ (env : Env) (Inv : PairingState → Type 0)
    (keeps : (call : Call) (state : PairingState) → Inv state → Inv (serve env call state).1)
    (kept : PairingState → ℕ) (spends earns : Exchange → Bool) where
  -- If each call spends, with what is kept after it, no more than it earns and was kept before, so
  -- do all the calls together.
  pub run_budget :
      ((call : Call) (state : PairingState)
        → Inv state
        → let done = serve env call state in
          kept done.1 + bit (spends (call, done.0)) ≤ kept state + bit (earns (call, done.0)))
      → (calls : List Call) (state : PairingState) → Inv state
      → kept (run env calls state).1 + count_where spends (run env calls state).0
        ≤ kept state + count_where earns (run env calls state).0
  unfolding run
  run_budget step [] state sound = ground arith
  run_budget step (call ∷ calls) state sound =
      let one = step call state sound in
      let rest = run_budget step calls (serve env call state).1 (keeps call state sound) in
      ground arith

abbrev has_device_code : String → PendingDeviceRow → Bool
has_device_code code r = r.device_code == code

abbrev is_granted : PendingDeviceRow → Bool
is_granted r = r.approved == 1

serve-codes :
    (env : Env) (code : String) (call : Call) (state : PairingState)
    → let done = serve env call state in
      marked_in (has_device_code code) done.1.db + bit (redeems code (call, done.0))
      ≤ marked_in (has_device_code code) state.db + bit (requests code (call, done.0))
unfolding serve
serve-codes env code (Call.request_device down c raw now) state =
    let added =
      request_device-marked (has_device_code code) down env.to_uppercase env.url c raw now state in
    ground arith
serve-codes env code (Call.request_cli down c raw now) state =
    let added =
      request_cli-marked (has_device_code code) down env.to_uppercase env.trim_slashes env.crate
        env.url c raw now state in
    ground arith
serve-codes env code (Call.approve down user u now) state =
    let same =
      approve-same (has_device_code code) down env.to_uppercase user u now state (λ a r. refl) in
    ground arith
serve-codes env code (Call.poll_device down access refresh c now) state =
    let fewer =
      poll_device-marked (has_device_code code) (c == code) down access refresh c now state
        (λ h r ready. ground (arith, eq_iff c code)) in
    ground arith
serve-codes env code (Call.poll_cli down get_user issue c now) state =
    let fewer =
      poll_cli-marked (has_device_code code) (c == code) down get_user issue c now state
        (λ h r ready. ground (arith, eq_iff c code)) in
    ground arith
serve-codes env code (Call.rotate down access refresh presented now) state =
    let same =
      ap (count_where (has_device_code code))
        (rotate-pending down access refresh presented now state) in
    ground arith
serve-codes env code (Call.register down token hostname now) state =
    let same =
      ap (count_where (has_device_code code))
        (register-pending (down 0) token hostname now state.db) in
    ground arith
serve-codes env code (Call.revoke down actor t h now) state =
    let same = ap (count_where (has_device_code code)) (revoke-pending down actor t h now state) in
    ground arith
serve-codes env code (Call.purge down now) state =
    let fewer = purge-marked (has_device_code code) (down 0) now state.db in ground arith

serve-granted :
    (env : Env) (call : Call) (state : PairingState)
    → IsUnique state.db
    → let done = serve env call state in
      marked_in is_granted done.1.db + bit (hands_out (call, done.0))
      ≤ marked_in is_granted state.db + bit (approves (call, done.0))
unfolding serve
serve-granted env (Call.request_device down c raw now) state unique =
    let added = request_device-marked is_granted down env.to_uppercase env.url c raw now state in
    ground arith
serve-granted env (Call.request_cli down c raw now) state unique =
    let added =
      request_cli-marked is_granted down env.to_uppercase env.trim_slashes env.crate env.url c raw
        now state in
    ground arith
serve-granted env (Call.approve down user u now) state unique =
    let more = approve-one is_granted down env.to_uppercase user u now state unique in ground arith
serve-granted env (Call.poll_device down access refresh c now) state unique =
    let fewer =
      poll_device-marked is_granted true down access refresh c now state
        (λ h r ready. ground arith) in
    ground arith
serve-granted env (Call.poll_cli down get_user issue c now) state unique =
    let fewer =
      poll_cli-marked is_granted true down get_user issue c now state (λ h r ready. ground arith) in
    ground arith
serve-granted env (Call.rotate down access refresh presented now) state unique =
    let same =
      ap (count_where is_granted) (rotate-pending down access refresh presented now state) in
    ground arith
serve-granted env (Call.register down token hostname now) state unique =
    let same =
      ap (count_where is_granted) (register-pending (down 0) token hostname now state.db) in
    ground arith
serve-granted env (Call.revoke down actor t h now) state unique =
    let same = ap (count_where is_granted) (revoke-pending down actor t h now state) in ground arith
serve-granted env (Call.purge down now) state unique =
    let fewer = purge-marked is_granted (down 0) now state.db in ground arith

-- From a server with no pending request, however calls follow one another and whichever of their
-- statements fail, a device code is redeemed for an agent's tokens or a session no more often than
-- a pairing was requested under it: once, if no request draws the code again.
pub redeemed_once :
    (env : Env) (code : String) (calls : List Call) (state : PairingState)
    → state.db.pending_devices ≡ []
    → count_where (redeems code) (run env calls state).0
      ≤ count_where (requests code) (run env calls state).0
redeemed_once env code calls state empty =
    let bound =
      run_budget env (λ s. Unit {0}) (λ c s h. tt) (λ s. marked_in (has_device_code code) s.db)
        (redeems code) (requests code) (λ c s h. serve-codes env code c s) calls state tt in
    let nothing = ap (count_where (has_device_code code)) empty in omega arith

-- From a server with no pending request, however calls follow one another and whichever of their
-- statements fail, tokens and sessions are handed out no more often than approvals are answered
-- with 200.
pub approval_needed :
    (env : Env) (calls : List Call) (state : PairingState)
    → state.db.pending_devices ≡ []
    → count_where hands_out (run env calls state).0 ≤ count_where approves (run env calls state).0
approval_needed env calls state empty =
    let bound =
      run_budget env (λ s. IsUnique s.db) (λ c s h. serve-IsUnique env c s h)
        (λ s. marked_in is_granted s.db) hands_out approves (serve-granted env) calls state
        (λ u. ground arith) in
    let nothing = ap (count_where is_granted) empty in omega arith
