-- ===== src/Pairing/Revocation.antt =====
-- server/src/tokens.rs and db.rs: which tokens an agent may connect with after a registration, a
-- revocation, and a poll.
use shellfleet.Common.{
  ℕ, ◌≡◌, refl, ap, ◌∙◌, Bool, true, false, ◌&&◌, String, Option, some, List, arith, ◌==◌,
  string_eq, nat_eq, ltb, count_where,
}
use shellfleet.Common.Result.{ok, err}
use shellfleet.Common.Table.{
  count_le, any-count, count-update_same, count-delete_none, update_where,
}
use shellfleet.Pairing.Rows.{TokenRow, Db, Answer}
use shellfleet.Pairing.Tokens.{
  seen, accepts, token_exists, upsert_token_seen, revoke_token as delete_token,
}
use shellfleet.Pairing.Handlers.{PairingState}
use shellfleet.Pairing.Revoke.{removed_any, answered, requested, revoke_token}
use shellfleet.Pairing.Calls.{Env, Call, run}
use shellfleet.Pairing.Polls.{audit-tokens}
use shellfleet.Pairing.TokenCounts.{IsMark, tokens_in}
use shellfleet.Pairing.Rotation.{issues, run-tokens}

-- The registration of an agent makes no token good and spoils none, at any time, even if the
-- token's row was deleted while the agent was connecting.
register_keeps :
    (down : Bool) (token hostname : String) (seen_at : ℕ) (other : String) (now : ℕ) (db : Db)
    → token_exists false other now (upsert_token_seen down token hostname seen_at db).1
      ≡ token_exists false other now db
unfolding token_exists upsert_token_seen
register_keeps down token hostname seen_at other now db =
    let same =
      count-update_same (accepts other now) (λ r. r.token == token) (seen hostname seen_at)
        db.tokens (λ r. refl) in
    let before = any-count (accepts other now) db.tokens in
    let after =
      any-count (accepts other now)
        (update_where (λ r. r.token == token) (seen hostname seen_at) db.tokens) in
    ground arith

abbrev is_held : String → TokenRow → Bool
is_held token r = r.token == token && ltb 0 r.expires_at

held-IsMark : (token : String) → IsMark (is_held token) (λ a f. a == token)
held-IsMark token = record {
  of_seen = λ h n r. refl;
  of_first = λ t h n. ground arith;
  of_issued = λ h a f n. ground arith;
}

answered-held :
    (down : ℕ → Bool) (actor : String) (t h : Option String) (p : TokenRow → Bool) (now : ℕ)
    (answer : Answer Bool)
    → (answered down actor t h now answer).0.status ≡ 200
    → (answer.0 ≡ ok true)
      × (tokens_in p (answered down actor t h now answer).1 ≡ tokens_in p answer.1)
unfolding answered
answered-held down actor t h p now (err e, db) done = ground arith
answered-held down actor t h p now (ok false, db) done = ground arith
answered-held down actor t h p now (ok true, db) done =
    (refl, ap (count_where p) (audit-tokens _ _ _ _ _ _ _ db))

deleted-held :
    (down : Bool) (token : String) (db : Db)
    → (delete_token down token db).0 ≡ ok true
    → tokens_in (is_held token) (delete_token down token db).1 ≡ 0
unfolding delete_token
deleted-held down token db done =
    let gone =
      count-delete_none (is_held token) (λ r. r.token == token) db.tokens (λ r k. ground arith) in
    ground arith

revoked-held :
    (down : ℕ → Bool) (actor token : String) (h : Option String) (now : ℕ) (state : PairingState)
    → (revoke_token down (some actor) (some token) h now state).0.status ≡ 200
    → tokens_in (is_held token) (revoke_token down (some actor) (some token) h now state).1.db ≡ 0
unfolding revoke_token requested removed_any
revoked-held down actor token h now state done =
    let (removed, kept) =
      answered-held down actor (some token) h (is_held token) now
        (delete_token (down 0) token state.db) done in
    kept ∙ deleted-held (down 0) token state.db removed

-- An agent's token that a user has revoked, with the answer 200, is good at no later time: not
-- after any further calls, registrations under that token included, none of which issues it anew.
pub revocation_lasts :
    (env : Env) (down : ℕ → Bool) (actor token : String) (h : Option String) (now : ℕ)
    (state : PairingState) (calls : List Call) (later : ℕ)
    → (revoke_token down (some actor) (some token) h now state).0.status ≡ 200
    → count_where
        (issues (λ a f. a == token))
        (run env calls (revoke_token down (some actor) (some token) h now state).1).0
      ≡ 0
    → token_exists false token later
        (run env calls (revoke_token down (some actor) (some token) h now state).1).1.db
      ≡ false
unfolding token_exists
revocation_lasts env down actor token h now state calls later done never =
    let start : PairingState = (revoke_token down (some actor) (some token) h now state).1 in
    let gone = revoked-held down actor token h now state done in
    let bound =
      run-tokens (is_held token) (λ a f. a == token) (held-IsMark token) (λ presented. false)
        (λ presented n r no old. cc) env calls start in
    let final : List TokenRow = (run env calls start).1.db.tokens in
    let few = count_le (accepts token later) (is_held token) final (λ r k. ground arith) in
    let nothing : count_where (accepts token later) final ≡ 0 = omega arith in
    any-count (accepts token later) final ∙ ap (ltb 0) nothing
