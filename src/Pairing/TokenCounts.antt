-- ===== src/Pairing/TokenCounts.antt =====
-- server/src/db.rs and device_auth.rs: how many rows of `tokens` with a given mark each handler
-- leaves, and what it has answered.
use shellfleet.Common.{
  bit, ℕ, ◌+◌, ◌≤◌, ◌≡◌, refl, ap, Bool, true, false, ◌&&◌, String, Option, none, some, List, arith,
  ◌==◌, string_eq, nat_eq, count_where, Bool-cases, Option-cases, inl, inr,
}
use shellfleet.Common.Result.{ok, err}
use shellfleet.Common.Table.{
  count-delete, count-first, count-update_same, first_where, delete_where,
}
use shellfleet.Pairing.Rows.{TokenRow, PendingDeviceRow, Db, Answer}
use shellfleet.Pairing.Tokens.{
  upsert_token_seen, replace_token_on_refresh, refreshes, revoke_token as delete_token,
  revoke_by_hostname, issued_row, first_seen, seen, is_some_text,
}
use shellfleet.Pairing.Pending.{
  consume_pending_agent_and_insert_token, is_ready, delete_pending_device, pending_device,
}
use shellfleet.Pairing.Handlers.{PairingState}
use shellfleet.Pairing.Device.{
  exchanged, polled, poll_device_token, rotated, refresh_device_token, access_token_ttl_secs,
  refresh_token_ttl_secs,
}
use shellfleet.Pairing.Revoke.{removed_any, answered, requested, revoke_token}
use shellfleet.Pairing.Counts.{is_consumed, delete_marked}
use shellfleet.Pairing.Polls.{is_token, audit-tokens}

abbrev pub tokens_in : (TokenRow → Bool) → Db → ℕ
tokens_in p db = count_where p db.tokens

-- A mark of a row that registration neither gives nor takes, and of a new pair by its two tokens.
pub record IsMark (p : TokenRow → Bool) (q : String → String → Bool) : Type 0 where
  pub of_seen : (h : String) (n : ℕ) (r : TokenRow) → p (seen h n r) ≡ p r
  pub of_first : (t h : String) (n : ℕ) → p (first_seen t h n) ≡ false
  pub of_issued :
      (h : Option String) (a f : String) (n : ℕ)
      → p (issued_row h a f (n + access_token_ttl_secs) (n + refresh_token_ttl_secs) n) ≡ q a f

delete_le :
    (p q : TokenRow → Bool) (rows : List TokenRow)
    → count_where p (delete_where q rows) ≤ count_where p rows
delete_le p q rows = omega (arith, count-delete p q rows)

module _ (p : TokenRow → Bool) (q : String → String → Bool) (mark : IsMark p q) where
  pub register-tokens :
      (down : Bool) (token hostname : String) (now : ℕ) (db : Db)
      → tokens_in p (upsert_token_seen down token hostname now db).1 ≡ tokens_in p db
  unfolding upsert_token_seen
  register-tokens down token hostname now db =
      let same =
        count-update_same p (λ r. r.token == token) (seen hostname now) db.tokens
          (mark.of_seen hostname now) in
      let fresh = mark.of_first token hostname now in ground arith

  removed-tokens :
      (down : Bool) (t h : Option String) (db : Db)
      → tokens_in p (removed_any down t h db).1 ≤ tokens_in p db
  unfolding removed_any delete_token revoke_by_hostname
  removed-tokens down (some t) h db =
      let fewer = delete_le p (λ r. r.token == t) db.tokens in ground arith
  removed-tokens down none (some h) db =
      let fewer = delete_le p (λ r. is_some_text h r.hostname) db.tokens in ground arith
  removed-tokens down none none db = ground arith

  answered-tokens :
      (down : ℕ → Bool) (actor : String) (t h : Option String) (now : ℕ) (answer : Answer Bool)
      → tokens_in p (answered down actor t h now answer).1 ≡ tokens_in p answer.1
  unfolding answered
  answered-tokens down actor t h now (err e, db) = refl
  answered-tokens down actor t h now (ok false, db) = refl
  answered-tokens down actor t h now (ok true, db) =
      ap (count_where p) (audit-tokens _ _ _ _ _ _ _ db)

  pub revoke-tokens :
      (down : ℕ → Bool) (actor t h : Option String) (now : ℕ) (state : PairingState)
      → tokens_in p (revoke_token down actor t h now state).1.db ≤ tokens_in p state.db
  unfolding revoke_token requested
  revoke-tokens down none t h now state = ground arith
  revoke-tokens down (some actor) none none now state = ground arith
  revoke-tokens down (some actor) (some t) h now state = omega (
    arith,
    answered-tokens down actor (some t) h now (removed_any (down 0) (some t) h state.db),
    removed-tokens (down 0) (some t) h state.db,
  )
  revoke-tokens down (some actor) none (some h) now state = omega (
    arith,
    answered-tokens down actor none (some h) now (removed_any (down 0) none (some h) state.db),
    removed-tokens (down 0) none (some h) state.db,
  )

  -- The exchange of an approved pairing.
  consume-tokens :
      (down : Bool) (code access refresh : String) (now : ℕ) (db : Db)
      → let done =
          consume_pending_agent_and_insert_token down code access
            (now + access_token_ttl_secs)
            refresh
            (now + refresh_token_ttl_secs)
            now
            db in
        tokens_in p done.1 ≤ tokens_in p db + bit (is_consumed done.0 && q access refresh)
  unfolding consume_pending_agent_and_insert_token
  consume-tokens down code access refresh now db =
      let new = mark.of_issued none access refresh now in
      elim (Option-cases (first_where (is_ready code "agent" now) db.pending_devices)) [
        | inl nothing ↦ ground arith
        | inr (row, found) ↦ ground arith
      ]

  exchanged-tokens :
      (down : ℕ → Bool) (access refresh : String) (now : ℕ)
      (answer : Answer (Option PendingDeviceRow))
      → let done = exchanged down access refresh now answer in
        (is_token done.0 ≡ is_consumed answer.0) × (tokens_in p done.1 ≡ tokens_in p answer.1)
  unfolding exchanged
  exchanged-tokens down access refresh now (err e, db) = (refl, refl)
  exchanged-tokens down access refresh now (ok none, db) = (refl, refl)
  exchanged-tokens down access refresh now (ok (some row), db) =
      (refl, ap (count_where p) (audit-tokens _ _ _ _ _ _ _ db))

  delete-tokens :
      (down : Bool) (code : String) (db : Db)
      → tokens_in p (delete_pending_device down code db).1 ≡ tokens_in p db
  unfolding delete_pending_device
  delete-tokens down code db = ground arith

  polled-tokens :
      (down : ℕ → Bool) (access refresh : String) (now : ℕ) (found : Option PendingDeviceRow)
      (db : Db)
      → let done = polled down access refresh now found db in
        tokens_in p done.1 ≤ tokens_in p db + bit (is_token done.0 && q access refresh)
  unfolding polled
  polled-tokens down access refresh now none db = ground arith
  polled-tokens down access refresh now (some row) db =
      let taken : Answer (Option PendingDeviceRow) =
        consume_pending_agent_and_insert_token (down 1) row.device_code access
          (now + access_token_ttl_secs) refresh (now + refresh_token_ttl_secs) now db in
      let same = exchanged-tokens down access refresh now taken in
      let more = consume-tokens (down 1) row.device_code access refresh now db in
      let still = delete-tokens (down 1) row.device_code db in ground arith

  pub poll-tokens :
      (down : ℕ → Bool) (access refresh code : String) (now : ℕ) (state : PairingState)
      → let done = poll_device_token down access refresh code now state in
        tokens_in p done.1.db ≤ tokens_in p state.db + bit (is_token done.0 && q access refresh)
  unfolding poll_device_token pending_device
  poll-tokens down access refresh code now state =
      let inner =
        polled-tokens down access refresh now
          (first_where (λ r. r.device_code == code) state.db.pending_devices) state.db in
      ground arith

  module _ (counted : Bool) where
    -- A rotation that is answered takes a row with the mark, if it is counted.
    replace-tokens :
        (down : Bool) (access refresh presented : String) (now : ℕ) (db : Db)
        → (counted ≡ true → (r : TokenRow) → refreshes presented now r ≡ true → p r ≡ true)
        → let done =
            replace_token_on_refresh down presented access refresh
              (now + access_token_ttl_secs)
              (now + refresh_token_ttl_secs)
              now
              db in
          tokens_in p done.1 + bit (counted && is_consumed done.0)
          ≤ tokens_in p db + bit (is_consumed done.0 && q access refresh)
    unfolding replace_token_on_refresh
    replace-tokens down access refresh presented now db marked =
        let old : TokenRow → Bool = refreshes presented now in
        let no_more = delete_le p old db.tokens in
        elim (Option-cases (first_where old db.tokens)) [
          | inl nothing ↦ ground arith
          | inr (row, found) ↦
              let new = mark.of_issued row.hostname access refresh now in
              let here = (count-first old db.tokens row found).0 in
              elim (Bool-cases counted) [
                | inl counts ↦
                    let fewer = delete_marked p old db.tokens (marked counts) here in ground arith
                | inr free ↦ ground arith
              ]
        ]

    rotated-tokens :
        (down : ℕ → Bool) (access refresh : String) (now : ℕ) (answer : Answer (Option String))
        → let done = rotated down access refresh now answer in
          (is_token done.0 ≡ is_consumed answer.0) × (tokens_in p done.1 ≡ tokens_in p answer.1)
    unfolding rotated
    rotated-tokens down access refresh now (err e, db) = (refl, refl)
    rotated-tokens down access refresh now (ok none, db) = (refl, refl)
    rotated-tokens down access refresh now (ok (some h), db) =
        (refl, ap (count_where p) (audit-tokens _ _ _ _ _ _ _ db))

    pub rotate-tokens :
        (down : ℕ → Bool) (access refresh presented : String) (now : ℕ) (state : PairingState)
        → (counted ≡ true → (r : TokenRow) → refreshes presented now r ≡ true → p r ≡ true)
        → let done = refresh_device_token down access refresh presented now state in
          tokens_in p done.1.db + bit (counted && is_token done.0)
          ≤ tokens_in p state.db + bit (is_token done.0 && q access refresh)
    unfolding refresh_device_token
    rotate-tokens down access refresh presented now state marked =
        let answer : Answer (Option String) =
          replace_token_on_refresh (down 0) presented access refresh (now + access_token_ttl_secs)
            (now + refresh_token_ttl_secs) now state.db in
        let same = rotated-tokens down access refresh now answer in
        let fewer = replace-tokens (down 0) access refresh presented now state.db marked in
        ground arith
