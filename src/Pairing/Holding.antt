-- ===== src/Pairing/Holding.antt =====
-- server/src/db.rs, device_auth.rs and tokens.rs: a token in `tokens` while the server answers calls
-- that neither rotate nor revoke it.
use shellfleet.Common.{
  ℕ, ◌+◌, ◌≡◌, refl, ap, ◌∙◌, Bool, true, false, not, ◌&&◌, String, Option, none, some, List, [],
  ◌∷◌, arith, ◌==◌, string_eq, nat_eq, eq_iff, any, all, Option-cases, inl, inr,
}
use shellfleet.Common.Result.{ok, err}
use shellfleet.Common.Table.{first_where, update_where, any_kept, any-count, count-update_same}
use shellfleet.Pairing.Rows.{TokenRow, PendingDeviceRow, Db, Answer, record_audit}
use shellfleet.Pairing.Tokens.{
  accepts, seen, is_some_text, refreshes, upsert_token_seen, replace_token_on_refresh,
  revoke_token as delete_token,
}
use shellfleet.Pairing.Pending.{is_ready, pending_device, consume_pending_agent_and_insert_token}
use shellfleet.Pairing.Handlers.{PairingState}
use shellfleet.Pairing.Device.{
  exchanged, polled, poll_device_token, rotated, refresh_device_token, access_token_ttl_secs,
  refresh_token_ttl_secs,
}
use shellfleet.Pairing.Revoke.{removed_any, answered, requested, revoke_token}
use shellfleet.Pairing.Calls.{Env, Call, serve, run}
use shellfleet.Pairing.Polls.{audit-tokens}
use shellfleet.Pairing.TokensKept.{
  delete-kept, request_device-kept, request_cli-kept, approve-kept, poll_cli-kept, purge-kept,
}

-- Whether a revocation names another token.
abbrev names_other : String → Option String → Bool
names_other access none = false
names_other access (some t) = not (access == t)

-- A call that does not rotate by this refresh token, and that, where it revokes, names another
-- access token.
abbrev pub leaves_token : String → String → Call → Bool
leaves_token access refresh (Call.rotate down a f presented now) = not (refresh == presented)
leaves_token access refresh (Call.revoke down actor t h now) = names_other access t
leaves_token access refresh call = true

module _ (access refresh : String) (later : ℕ) where
  -- The token with its refresh token, good at a later time.
  abbrev pub is_pair : TokenRow → Bool
  is_pair r = accepts access later r && is_some_text refresh r.refresh_token

  abbrev pub IsHeld : Db → Type 0
  IsHeld db = any is_pair db.tokens ≡ true

  register-IsHeld :
      (down : Bool) (token hostname : String) (now : ℕ) (db : Db)
      → IsHeld db
      → IsHeld (upsert_token_seen down token hostname now db).1
  unfolding upsert_token_seen
  register-IsHeld down token hostname now db h =
      let same =
        count-update_same is_pair (λ r. r.token == token) (seen hostname now) db.tokens
          (λ r. refl) in
      let before = any-count is_pair db.tokens in
      let after =
        any-count is_pair (update_where (λ r. r.token == token) (seen hostname now) db.tokens) in
      ground arith

  not_refreshed :
      (presented : String) (now : ℕ) (r : TokenRow)
      → (refresh == presented) ≡ false
      → is_pair r ≡ true
      → refreshes presented now r ≡ false
  not_refreshed presented now r apart h = elim (Option-cases r.refresh_token) [
    | inl without ↦ ground arith
    | inr (f, has) ↦
        let one = eq_iff f refresh in
        let two = eq_iff f presented in let three = eq_iff refresh presented in ground arith
  ]

  replace-IsHeld :
      (down : Bool) (presented a f : String) (e re now : ℕ) (db : Db)
      → (refresh == presented) ≡ false
      → IsHeld db
      → IsHeld (replace_token_on_refresh down presented a f e re now db).1
  unfolding replace_token_on_refresh
  replace-IsHeld down presented a f e re now db apart h =
      let left =
        any_kept is_pair (refreshes presented now) db.tokens
          (λ r good. not_refreshed presented now r apart good) h in
      elim (Option-cases (first_where (refreshes presented now) db.tokens)) [
        | inl nothing ↦ ground arith
        | inr (old, found) ↦ ground arith
      ]

  delete-IsHeld :
      (down : Bool) (token : String) (db : Db)
      → (access == token) ≡ false
      → IsHeld db
      → IsHeld (delete_token down token db).1
  unfolding delete_token
  delete-IsHeld down token db apart h =
      let left =
        any_kept is_pair (λ r. r.token == token) db.tokens
          (λ r good.
            let one = eq_iff r.token access in
            let two = eq_iff r.token token in let three = eq_iff access token in ground arith)
          h in
      ground arith

  consume-IsHeld :
      (down : Bool) (c a f : String) (e re now : ℕ) (db : Db)
      → IsHeld db
      → IsHeld (consume_pending_agent_and_insert_token down c a e f re now db).1
  unfolding consume_pending_agent_and_insert_token
  consume-IsHeld down c a f e re now db h =
      elim (Option-cases (first_where (is_ready c "agent" now) db.pending_devices)) [
        | inl nothing ↦ ground arith
        | inr (taken, found) ↦ ground arith
      ]

  -- An entry of the audit log does not count.
  audited :
      (down : Bool) (ts : ℕ) (actor agent_id : Option String) (kind : String) (succeeded : Bool)
      (detail : Option String) (db : Db)
      → IsHeld db
      → IsHeld (record_audit down ts actor agent_id kind succeeded detail db)
  audited down ts actor agent_id kind succeeded detail db h =
      ap (any is_pair) (audit-tokens down ts actor agent_id kind succeeded detail db) ∙ h

  exchanged-IsHeld :
      (down : ℕ → Bool) (a f : String) (now : ℕ) (answer : Answer (Option PendingDeviceRow))
      → IsHeld answer.1
      → IsHeld (exchanged down a f now answer).1
  unfolding exchanged
  exchanged-IsHeld down a f now (err e, db) h = h
  exchanged-IsHeld down a f now (ok none, db) h = h
  exchanged-IsHeld down a f now (ok (some r), db) h = audited _ _ _ _ _ _ _ db h

  polled-IsHeld :
      (down : ℕ → Bool) (a f : String) (now : ℕ) (found : Option PendingDeviceRow) (db : Db)
      → IsHeld db
      → IsHeld (polled down a f now found db).1
  unfolding polled
  polled-IsHeld down a f now none db h = h
  polled-IsHeld down a f now (some row) db h =
      let gone = ap (any is_pair) (delete-kept (down 1) row.device_code db) in
      let taken =
        exchanged-IsHeld down a f now
          (consume_pending_agent_and_insert_token (down 1) row.device_code a
            (now + access_token_ttl_secs) f (now + refresh_token_ttl_secs) now db)
          (consume-IsHeld (down 1) row.device_code a f (now + access_token_ttl_secs)
            (now + refresh_token_ttl_secs) now db h) in
      ground arith

  poll-IsHeld :
      (down : ℕ → Bool) (a f c : String) (now : ℕ) (state : PairingState)
      → IsHeld state.db
      → IsHeld (poll_device_token down a f c now state).1.db
  unfolding poll_device_token pending_device
  poll-IsHeld down a f c now state h =
      let left =
        polled-IsHeld down a f now (first_where (λ r. r.device_code == c) state.db.pending_devices)
          state.db h in
      ground arith

  rotated-IsHeld :
      (down : ℕ → Bool) (a f : String) (now : ℕ) (answer : Answer (Option String))
      → IsHeld answer.1
      → IsHeld (rotated down a f now answer).1
  unfolding rotated
  rotated-IsHeld down a f now (err e, db) h = h
  rotated-IsHeld down a f now (ok none, db) h = h
  rotated-IsHeld down a f now (ok (some hostname), db) h = audited _ _ _ _ _ _ _ db h

  rotate-IsHeld :
      (down : ℕ → Bool) (a f presented : String) (now : ℕ) (state : PairingState)
      → (refresh == presented) ≡ false
      → IsHeld state.db
      → IsHeld (refresh_device_token down a f presented now state).1.db
  unfolding refresh_device_token
  rotate-IsHeld down a f presented now state apart h =
      rotated-IsHeld down a f now
        (replace_token_on_refresh (down 0) presented a f (now + access_token_ttl_secs)
          (now + refresh_token_ttl_secs) now state.db)
        (replace-IsHeld (down 0) presented a f (now + access_token_ttl_secs)
          (now + refresh_token_ttl_secs) now state.db apart h)

  answered-IsHeld :
      (down : ℕ → Bool) (actor : String) (t h : Option String) (now : ℕ) (answer : Answer Bool)
      → IsHeld answer.1
      → IsHeld (answered down actor t h now answer).1
  unfolding answered
  answered-IsHeld down actor t h now (err e, db) held = held
  answered-IsHeld down actor t h now (ok false, db) held = held
  answered-IsHeld down actor t h now (ok true, db) held = audited _ _ _ _ _ _ _ db held

  revoke-IsHeld :
      (down : ℕ → Bool) (actor : Option String) (t : String) (h : Option String) (now : ℕ)
      (state : PairingState)
      → (access == t) ≡ false
      → IsHeld state.db
      → IsHeld (revoke_token down actor (some t) h now state).1.db
  unfolding revoke_token requested removed_any
  revoke-IsHeld down none t h now state apart held = held
  revoke-IsHeld down (some actor) t h now state apart held =
      answered-IsHeld down actor (some t) h now (delete_token (down 0) t state.db)
        (delete-IsHeld (down 0) t state.db apart held)

  serve-IsHeld :
      (env : Env) (call : Call) (state : PairingState)
      → leaves_token access refresh call ≡ true
      → IsHeld state.db
      → IsHeld (serve env call state).1.db
  unfolding serve
  serve-IsHeld env (Call.request_device down c raw now) state quiet h =
      ap (any is_pair) (request_device-kept down env.to_uppercase env.url c raw now state) ∙ h
  serve-IsHeld env (Call.request_cli down c raw now) state quiet h =
      ap (any is_pair)
        (request_cli-kept down env.to_uppercase env.trim_slashes env.crate env.url c raw now state)
      ∙ h
  serve-IsHeld env (Call.approve down user typed now) state quiet h =
      ap (any is_pair) (approve-kept down env.to_uppercase user typed now state) ∙ h
  serve-IsHeld env (Call.poll_device down a f c now) state quiet h =
      poll-IsHeld down a f c now state h
  serve-IsHeld env (Call.poll_cli down get_user issue c now) state quiet h =
      ap (any is_pair) (poll_cli-kept down get_user issue c now state) ∙ h
  serve-IsHeld env (Call.rotate down a f presented now) state quiet h =
      rotate-IsHeld down a f presented now state (ground arith) h
  serve-IsHeld env (Call.register down token hostname now) state quiet h =
      register-IsHeld (down 0) token hostname now state.db h
  serve-IsHeld env (Call.revoke down actor none h now) state quiet held = cc
  serve-IsHeld env (Call.revoke down actor (some t) h now) state quiet held =
      revoke-IsHeld down actor t h now state (ground arith) held
  serve-IsHeld env (Call.purge down now) state quiet h =
      ap (any is_pair) (purge-kept (down 0) now state.db) ∙ h

  -- A token is good on through any calls that neither rotate nor revoke it.
  pub run-IsHeld :
      (env : Env) (calls : List Call) (state : PairingState)
      → all (leaves_token access refresh) calls ≡ true
      → IsHeld state.db
      → IsHeld (run env calls state).1.db
  unfolding run
  run-IsHeld env [] state quiet h = h
  run-IsHeld env (call ∷ calls) state quiet h =
      run-IsHeld env calls (serve env call state).1 (ground arith)
        (serve-IsHeld env call state (ground arith) h)
