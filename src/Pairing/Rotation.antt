-- ===== src/Pairing/Rotation.antt =====
-- server/src/device_auth.rs and tokens.rs: the tokens of agents through any sequence of calls.
use shellfleet.Common.{
  bit, ℕ, ◌+◌, ◌≤◌, ◌≡◌, refl, ap, Bool, true, false, ◌&&◌, ◌||◌, String, Option, none, some, List,
  [], ◌∷◌, arith, ◌==◌, string_eq, nat_eq, eq_iff, ltb, count_where,
}
use shellfleet.Common.Table.{count_le}
use shellfleet.Pairing.Rows.{TokenRow}
use shellfleet.Pairing.Tokens.{refreshes, is_some_text}
use shellfleet.Pairing.Handlers.{PairingState}
use shellfleet.Pairing.Calls.{Env, Call, CallAnswer, serve, run}
use shellfleet.Pairing.Polls.{is_token}
use shellfleet.Pairing.Budget.{hands_out, approves, approval_needed, Exchange, run_budget}
use shellfleet.Pairing.TokenCounts.{
  IsMark, tokens_in, register-tokens, revoke-tokens, poll-tokens, rotate-tokens,
}
use shellfleet.Pairing.TokensKept.{
  request_device-kept, request_cli-kept, approve-kept, poll_cli-kept, purge-kept,
}

-- A new pair of tokens with this mark is answered.
abbrev pub issues : (String → String → Bool) → Exchange → Bool
issues q (Call.poll_device down a f c now, CallAnswer.device_polled answer) =
    is_token answer && q a f
issues q (Call.rotate down a f presented now, CallAnswer.rotated answer) = is_token answer && q a f
issues q (call, answer) = false

-- The refresh token that a call presents has this mark.
abbrev pub presents : (String → Bool) → Call → Bool
presents c (Call.rotate down a f presented now) = c presented
presents c call = false

-- A rotation of such a token is answered with a new pair.
abbrev pub rotates : (String → Bool) → Exchange → Bool
rotates c (call, CallAnswer.rotated answer) = presents c call && is_token answer
rotates c (call, answer) = false

module _ (p : TokenRow → Bool) (q : String → String → Bool) (mark : IsMark p q) (c : String → Bool)
    (taken : (presented : String) (now : ℕ) (r : TokenRow)
      → c presented ≡ true
      → refreshes presented now r ≡ true
      → p r ≡ true) where
  serve-tokens :
      (env : Env) (call : Call) (state : PairingState)
      → let done = serve env call state in
        tokens_in p done.1.db + bit (rotates c (call, done.0))
        ≤ tokens_in p state.db + bit (issues q (call, done.0))
  unfolding serve
  serve-tokens env (Call.request_device down code raw now) state =
      let same =
        ap (count_where p) (request_device-kept down env.to_uppercase env.url code raw now state) in
      ground arith
  serve-tokens env (Call.request_cli down code raw now) state =
      let same = ap (count_where p) (
        request_cli-kept down env.to_uppercase env.trim_slashes env.crate env.url code raw now
          state) in
      ground arith
  serve-tokens env (Call.approve down user code now) state =
      let same = ap (count_where p) (approve-kept down env.to_uppercase user code now state) in
      ground arith
  serve-tokens env (Call.poll_device down a f code now) state =
      let more = poll-tokens p q mark down a f code now state in ground arith
  serve-tokens env (Call.poll_cli down get_user issue code now) state =
      let same = ap (count_where p) (poll_cli-kept down get_user issue code now state) in
      ground arith
  serve-tokens env (Call.rotate down a f presented now) state =
      let turned =
        rotate-tokens p q mark (c presented) down a f presented now state
          (λ h r old. taken presented now r h old) in
      ground arith
  serve-tokens env (Call.register down token hostname now) state =
      let same = register-tokens p q mark (down 0) token hostname now state.db in ground arith
  serve-tokens env (Call.revoke down actor t h now) state =
      let fewer = revoke-tokens p q mark down actor t h now state in ground arith
  serve-tokens env (Call.purge down now) state =
      let same = ap (count_where p) (purge-kept (down 0) now state.db) in ground arith

  pub run-tokens :
      (env : Env) (calls : List Call) (state : PairingState)
      → tokens_in p (run env calls state).1.db + count_where (rotates c) (run env calls state).0
        ≤ tokens_in p state.db + count_where (issues q) (run env calls state).0
  run-tokens env calls state =
      run_budget env (λ s. Unit {0}) (λ k s h. tt) (λ s. tokens_in p s.db) (rotates c) (issues q)
        (λ k s h. serve-tokens env k s) calls state tt

-- From a server with no tokens, however calls follow one another and whichever of their statements
-- fail, a refresh token is rotated no more often than it was issued: a token that is stolen and
-- used, or used and replayed, is good once.
pub rotated_once :
    (env : Env) (refresh : String) (calls : List Call) (state : PairingState)
    → state.db.tokens ≡ []
    → count_where (rotates (λ presented. presented == refresh)) (run env calls state).0
      ≤ count_where (issues (λ access issued. issued == refresh)) (run env calls state).0
rotated_once env refresh calls state empty =
    let p : TokenRow → Bool = λ r. is_some_text refresh r.refresh_token in
    let bound =
      run-tokens p (λ access issued. issued == refresh)
        (record { of_seen = λ h n r. refl; of_first = λ t h n. refl; of_issued = λ h a f n. refl })
        (λ presented. presented == refresh)
        (λ presented now r h old. ground (arith, eq_iff presented refresh)) env calls state in
    let nothing = ap (count_where p) empty in omega arith

abbrev has_refresh : Option String → Bool
has_refresh none = false
has_refresh (some f) = true

issues_split :
    (e : Exchange)
    → bit (issues (λ a f. true) e) ≤ bit (hands_out e) + bit (rotates (λ presented. true) e)
issues_split (call, answer) = ground arith

issues_all :
    (es : List Exchange)
    → count_where (issues (λ a f. true)) es
      ≤ count_where hands_out es + count_where (rotates (λ presented. true)) es
issues_all [] = ground arith
issues_all (e ∷ es) = ground (arith, issues_split e, issues_all es)

abbrev is_current : TokenRow → Bool
is_current r = has_refresh r.refresh_token || ltb 0 r.expires_at

current-IsMark : IsMark is_current (λ a f. true)
current-IsMark = record {
  of_seen = λ h n r. refl;
  of_first = λ t h n. refl;
  of_issued = λ h a f n. refl;
}

-- From a server with no tokens and no pending request, however calls follow one another and
-- whichever of their statements fail, the rows of tokens that are good at any time are no more than
-- the approvals that were answered with 200: neither a rotation nor a registration adds one.
pub tokens_approved :
    (env : Env) (calls : List Call) (state : PairingState) (now : ℕ)
    → state.db.tokens ≡ []
    → state.db.pending_devices ≡ []
    → count_where (λ r. r.revoked == 0 && ltb now r.expires_at) (run env calls state).1.db.tokens
      ≤ count_where approves (run env calls state).0
tokens_approved env calls state now empty nobody =
    let bound =
      run-tokens is_current (λ a f. true) current-IsMark (λ presented. true)
        (λ presented now r h old. ground arith) env calls state in
    let nothing = ap (count_where is_current) empty in
    let split = issues_all (run env calls state).0 in
    let costs = approval_needed env calls state nobody in
    let good =
      count_le (λ r. r.revoked == 0 && ltb now r.expires_at) is_current
        (run env calls state).1.db.tokens (λ r h. ground arith) in
    omega arith
