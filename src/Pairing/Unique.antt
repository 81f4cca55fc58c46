-- ===== src/Pairing/Unique.antt =====
-- server/src/db.rs: the user code of a pending request is its own, whatever call is answered.
use shellfleet.Common.{
  ℕ, ◌+◌, ◌≤◌, ◌≡◌, refl, ap, Bool, false, String, Option, arith, ◌==◌, string_eq, nat_eq, eq_iff,
  any, Bool-cases, inl, inr,
}
use shellfleet.Common.Table.{count-any, count_le}
use shellfleet.Pairing.Rows.{PendingDeviceRow, Db, Answer}
use shellfleet.Pairing.Pending.{clashes, insert_pending_device, insert_pending_device_for_purpose}
use shellfleet.Pairing.Handlers.{PairingState, user_code_of}
use shellfleet.Pairing.Device.{request_device_auth}
use shellfleet.Pairing.Cli.{UrlCrate, request_cli_auth, request_ttl_secs}
use shellfleet.Pairing.Calls.{Env, Call, serve}
use shellfleet.Pairing.Untouched.{rotate-pending, register-pending, revoke-pending}
use shellfleet.Pairing.Counts.{marked_in, delete-marked, purge-marked}
use shellfleet.Pairing.Polls.{poll_device-marked, poll_cli-marked}
use shellfleet.Pairing.Approvals.{approve-same}

abbrev pub has_code : String → PendingDeviceRow → Bool
has_code user_code r = r.user_code == user_code

-- No two pending requests have the same user code.
abbrev pub IsUnique : Db → Type 0
IsUnique db = (user_code : String) → marked_in (has_code user_code) db ≤ 1

insert-IsUnique :
    (down : Bool) (device_code user_code purpose : String) (expires_at : ℕ) (db : Db)
    → IsUnique db
    → IsUnique
        (insert_pending_device_for_purpose down device_code user_code expires_at purpose db).1
unfolding insert_pending_device_for_purpose
insert-IsUnique down device_code user_code purpose expires_at db unique u =
    let alone = unique u in
    let seen =
      count_le (has_code u) (λ r. clashes device_code u r) db.pending_devices
        (λ r h. ground arith) in
    let nothing = (count-any (clashes device_code u) db.pending_devices).0 in
    elim (Bool-cases (user_code == u)) [
      | inl same ↦
          let h : user_code ≡ u = (eq_iff user_code u).0 same in
          let none_there = ap (λ c. any (clashes device_code c) db.pending_devices) h in
          ground arith
      | inr other ↦ ground arith
    ]

request_device-IsUnique :
    (down : ℕ → Bool) (to_uppercase : String → String) (url : Option String)
    (device_code raw : String) (now : ℕ) (state : PairingState)
    → IsUnique state.db
    → IsUnique (request_device_auth down to_uppercase url device_code raw now state).1.db
unfolding request_device_auth insert_pending_device
request_device-IsUnique down to_uppercase url device_code raw now state unique u =
    let after =
      insert-IsUnique (down 0) device_code (user_code_of to_uppercase raw) "agent" (now + 300)
        state.db unique u in
    ground arith

request_cli-IsUnique :
    (down : ℕ → Bool) (to_uppercase trim_slashes : String → String) (crate : UrlCrate)
    (url : Option String) (device_code raw : String) (now : ℕ) (state : PairingState)
    → IsUnique state.db
    → IsUnique
        (request_cli_auth down to_uppercase trim_slashes crate url device_code raw now state).1.db
unfolding request_cli_auth
request_cli-IsUnique down to_uppercase trim_slashes crate url device_code raw now state unique u =
    let asked : Answer (Unit {0}) =
      insert_pending_device_for_purpose (down 0) device_code (user_code_of to_uppercase raw)
        (now + request_ttl_secs) "cli" state.db in
    let after =
      insert-IsUnique (down 0) device_code (user_code_of to_uppercase raw) "cli"
        (now + request_ttl_secs) state.db unique u in
    let fewer = delete-marked (has_code u) (down 1) device_code asked.1 in ground arith

-- Whatever call is answered, no two pending requests come to have the same user code.
pub serve-IsUnique :
    (env : Env) (call : Call) (state : PairingState)
    → IsUnique state.db
    → IsUnique (serve env call state).1.db
unfolding serve
serve-IsUnique env (Call.request_device down c raw now) state unique u =
    request_device-IsUnique down env.to_uppercase env.url c raw now state unique u
serve-IsUnique env (Call.request_cli down c raw now) state unique u =
    request_cli-IsUnique down env.to_uppercase env.trim_slashes env.crate env.url c raw now state
      unique u
serve-IsUnique env (Call.approve down user code now) state unique u =
    let same = approve-same (has_code u) down env.to_uppercase user code now state (λ a r. refl) in
    let before = unique u in omega arith
serve-IsUnique env (Call.poll_device down access refresh c now) state unique u =
    let fewer = poll_device-marked (has_code u) false down access refresh c now state (λ h. cc) in
    let before = unique u in ground arith
serve-IsUnique env (Call.poll_cli down get_user issue c now) state unique u =
    let fewer = poll_cli-marked (has_code u) false down get_user issue c now state (λ h. cc) in
    let before = unique u in ground arith
serve-IsUnique env (Call.rotate down access refresh presented now) state unique u =
    rw (rotate-pending down access refresh presented now state) (unique u)
serve-IsUnique env (Call.register down token hostname now) state unique u =
    rw (register-pending (down 0) token hostname now state.db) (unique u)
serve-IsUnique env (Call.revoke down actor t h now) state unique u =
    rw (revoke-pending down actor t h now state) (unique u)
serve-IsUnique env (Call.purge down now) state unique u =
    let fewer = purge-marked (has_code u) (down 0) now state.db in
    let before = unique u in omega arith
