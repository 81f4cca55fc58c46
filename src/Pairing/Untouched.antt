-- ===== src/Pairing/Untouched.antt =====
-- server/src/db.rs: which of the two tables a statement does not touch.
use shellfleet.Common.{
  ℕ, ◌+◌, ◌≡◌, refl, ◌∙◌, Bool, true, false, String, Option, none, some, arith, string_eq, nat_eq,
  Option-cases, inl, inr,
}
use shellfleet.Common.Result.{ok, err}
use shellfleet.Common.Table.{first_where}
use shellfleet.Pairing.Rows.{Db, Answer}
use shellfleet.Pairing.Tokens.{
  upsert_token_seen, replace_token_on_refresh, refreshes, revoke_token as delete_token,
  revoke_by_hostname,
}
use shellfleet.Pairing.Handlers.{PairingState}
use shellfleet.Pairing.Device.{
  rotated, refresh_device_token, access_token_ttl_secs, refresh_token_ttl_secs,
}
use shellfleet.Pairing.Revoke.{removed_any, answered, requested, revoke_token}
use shellfleet.Pairing.Polls.{audit-pending}

replace-pending :
    (down : Bool) (presented access refresh : String) (e re now : ℕ) (db : Db)
    → (replace_token_on_refresh down presented access refresh e re now db).1.pending_devices
      ≡ db.pending_devices
unfolding replace_token_on_refresh
replace-pending down presented access refresh e re now db =
    elim (Option-cases (first_where (refreshes presented now) db.tokens)) [
      | inl nothing ↦ ground arith
      | inr (row, found) ↦ ground arith
    ]

rotated-pending :
    (down : ℕ → Bool) (access refresh : String) (now : ℕ) (answer : Answer (Option String))
    → (rotated down access refresh now answer).1.pending_devices ≡ answer.1.pending_devices
unfolding rotated
rotated-pending down access refresh now (err e, db) = refl
rotated-pending down access refresh now (ok none, db) = refl
rotated-pending down access refresh now (ok (some h), db) = audit-pending _ _ _ _ _ _ _ db

pub rotate-pending :
    (down : ℕ → Bool) (access refresh presented : String) (now : ℕ) (state : PairingState)
    → (refresh_device_token down access refresh presented now state).1.db.pending_devices
      ≡ state.db.pending_devices
unfolding refresh_device_token
rotate-pending down access refresh presented now state =
    rotated-pending down access refresh now _
    ∙ replace-pending (down 0) presented access refresh (now + access_token_ttl_secs)
        (now + refresh_token_ttl_secs) now state.db

pub register-pending :
    (down : Bool) (token hostname : String) (now : ℕ) (db : Db)
    → (upsert_token_seen down token hostname now db).1.pending_devices ≡ db.pending_devices
unfolding upsert_token_seen
register-pending down token hostname now db = ground arith

answered-pending :
    (down : ℕ → Bool) (actor : String) (t h : Option String) (now : ℕ) (answer : Answer Bool)
    → (answered down actor t h now answer).1.pending_devices ≡ answer.1.pending_devices
unfolding answered
answered-pending down actor t h now (err e, db) = refl
answered-pending down actor t h now (ok false, db) = refl
answered-pending down actor t h now (ok true, db) = audit-pending _ _ _ _ _ _ _ db

removed-pending :
    (down : Bool) (t h : Option String) (db : Db)
    → (removed_any down t h db).1.pending_devices ≡ db.pending_devices
unfolding removed_any delete_token revoke_by_hostname
removed-pending down (some t) h db = ground arith
removed-pending down none (some h) db = ground arith
removed-pending down none none db = refl

pub revoke-pending :
    (down : ℕ → Bool) (actor t h : Option String) (now : ℕ) (state : PairingState)
    → (revoke_token down actor t h now state).1.db.pending_devices ≡ state.db.pending_devices
unfolding revoke_token requested
revoke-pending down none t h now state = refl
revoke-pending down (some actor) none none now state = refl
revoke-pending down (some actor) (some t) h now state =
    answered-pending down actor (some t) h now _ ∙ removed-pending (down 0) (some t) h state.db
revoke-pending down (some actor) none (some h) now state =
    answered-pending down actor none (some h) now _
    ∙ removed-pending (down 0) none (some h) state.db
