-- ===== src/Pairing/Bystanders.antt =====
-- server/src/device_auth.rs and cli_auth.rs: a request that waits while the server answers calls
-- about others.
use shellfleet.Common.{
  ℕ, ◌+◌, ◌≡◌, ap, ◌∙◌, Bool, true, false, String, Option, none, some, List, [], ◌∷◌, arith, ◌==◌,
  string_eq, nat_eq, all, Option-cases, inl, inr,
}
use shellfleet.Common.Result.{Result, ok, err}
use shellfleet.Common.Table.{first_where}
use shellfleet.Throttle.Lockout.{check}
use shellfleet.Accounts.{Role, UserAnswer, parse}
use shellfleet.Pairing.Rows.{PendingDeviceRow, Db, Answer}
use shellfleet.Pairing.Pending.{
  insert_pending_device, insert_pending_device_for_purpose, approve_user_code, pending_device,
  consume_pending_agent_and_insert_token, consume_pending_cli_device,
}
use shellfleet.Pairing.Handlers.{PairingState, with_throttle, Reply, user_code_of}
use shellfleet.Pairing.Device.{
  request_device_auth, judged, approve_device, exchanged, polled, poll_device_token,
  access_token_ttl_secs, refresh_token_ttl_secs,
}
use shellfleet.Pairing.Cli.{
  UrlCrate, request_cli_auth, request_ttl_secs, consumed, authorized, authorized_by,
  polled as cli_polled, poll_cli_token,
}
use shellfleet.Pairing.Calls.{Env, Call, serve, run}
use shellfleet.Pairing.Polls.{found_code}
use shellfleet.Pairing.Untouched.{rotate-pending, register-pending, revoke-pending}
use shellfleet.Pairing.Waiting.{
  has_device, leaves_pending, IsPending, audited, insert-IsWaiting, delete-IsWaiting,
  consume-IsWaiting, consume_cli-IsWaiting, purge-IsWaiting, approve_code-IsWaiting,
}

module _ (code : String) (row : PendingDeviceRow) (same : row.device_code ≡ code) where
  abbrev IsWaiting : Db → Type 0
  IsWaiting db = IsPending code row db

  request_device-IsWaiting :
      (down : ℕ → Bool) (to_uppercase : String → String) (url : Option String) (c raw : String)
      (now : ℕ) (state : PairingState)
      → (row.device_code == c) ≡ false
      → IsWaiting state.db
      → IsWaiting (request_device_auth down to_uppercase url c raw now state).1.db
  unfolding request_device_auth insert_pending_device
  request_device-IsWaiting down to_uppercase url c raw now state apart h =
      let left =
        insert-IsWaiting code row same (down 0) c (user_code_of to_uppercase raw) "agent"
          (now + 300) state.db apart h in
      ground arith

  request_cli-IsWaiting :
      (down : ℕ → Bool) (to_uppercase trim_slashes : String → String) (crate : UrlCrate)
      (url : Option String) (c raw : String) (now : ℕ) (state : PairingState)
      → (row.device_code == c) ≡ false
      → IsWaiting state.db
      → IsWaiting (request_cli_auth down to_uppercase trim_slashes crate url c raw now state).1.db
  unfolding request_cli_auth
  request_cli-IsWaiting down to_uppercase trim_slashes crate url c raw now state apart h =
      let asked : Answer (Unit {0}) =
        insert_pending_device_for_purpose (down 0) c (user_code_of to_uppercase raw)
          (now + request_ttl_secs) "cli" state.db in
      let left =
        insert-IsWaiting code row same (down 0) c (user_code_of to_uppercase raw) "cli"
          (now + request_ttl_secs) state.db apart h in
      let still = delete-IsWaiting code row same (down 1) c asked.1 apart left in ground arith

  judged-IsWaiting :
      (down : ℕ → Bool) (actor user_code : String) (now : ℕ) (answer : Answer Bool)
      (state : PairingState)
      → IsWaiting answer.1
      → IsWaiting (judged down actor user_code now answer state).1.db
  unfolding judged
  judged-IsWaiting down actor user_code now (err e, db) state h = h
  judged-IsWaiting down actor user_code now (ok true, db) state h =
      audited code row same _ _ _ _ _ _ _ db h
  judged-IsWaiting down actor user_code now (ok false, db) state h =
      audited code row same _ _ _ _ _ _ _ db h

  approve-IsWaiting :
      (down : ℕ → Bool) (to_uppercase : String → String) (user : Result Reply String)
      (typed : String) (now : ℕ) (state : PairingState)
      → (row.user_code == to_uppercase typed) ≡ false
      → IsWaiting state.db
      → IsWaiting (approve_device down to_uppercase user typed now state).1.db
  unfolding approve_device
  approve-IsWaiting down to_uppercase (err refusal) typed now state apart h = h
  approve-IsWaiting down to_uppercase (ok actor) typed now state apart h =
      let left =
        judged-IsWaiting down actor (to_uppercase typed) now
          (approve_user_code (down 0) (to_uppercase typed) actor now state.db)
          (with_throttle (check state.device_approve_throttle actor now).0 state)
          (approve_code-IsWaiting code row same (down 0) (to_uppercase typed) actor now state.db
            apart h) in
      ground arith

  exchanged-IsWaiting :
      (down : ℕ → Bool) (access refresh : String) (now : ℕ)
      (answer : Answer (Option PendingDeviceRow))
      → IsWaiting answer.1
      → IsWaiting (exchanged down access refresh now answer).1
  unfolding exchanged
  exchanged-IsWaiting down access refresh now (err e, db) h = h
  exchanged-IsWaiting down access refresh now (ok none, db) h = h
  exchanged-IsWaiting down access refresh now (ok (some r), db) h =
      audited code row same _ _ _ _ _ _ _ db h

  polled-IsWaiting :
      (down : ℕ → Bool) (access refresh : String) (now : ℕ) (found : PendingDeviceRow) (db : Db)
      → (row.device_code == found.device_code) ≡ false
      → IsWaiting db
      → IsWaiting (polled down access refresh now (some found) db).1
  unfolding polled
  polled-IsWaiting down access refresh now found db apart h =
      let gone = delete-IsWaiting code row same (down 1) found.device_code db apart h in
      let taken =
        exchanged-IsWaiting down access refresh now
          (consume_pending_agent_and_insert_token (down 1) found.device_code access
            (now + access_token_ttl_secs) refresh (now + refresh_token_ttl_secs) now db)
          (consume-IsWaiting code row same (down 1) found.device_code access refresh
            (now + access_token_ttl_secs) (now + refresh_token_ttl_secs) now db apart h) in
      ground arith

  poll_device-IsWaiting :
      (down : ℕ → Bool) (access refresh c : String) (now : ℕ) (state : PairingState)
      → (row.device_code == c) ≡ false
      → IsWaiting state.db
      → IsWaiting (poll_device_token down access refresh c now state).1.db
  unfolding poll_device_token pending_device
  poll_device-IsWaiting down access refresh c now state apart h =
      elim (Option-cases (first_where (has_device c) state.db.pending_devices)) [
        | inl nothing ↦ unfold polled in ground arith
        | inr (found, there) ↦
            let its_code = found_code c state.db.pending_devices found there in
            let left =
              polled-IsWaiting down access refresh now found state.db
                (ap (λ x. row.device_code == x) its_code ∙ apart) h in
            ground arith
      ]

  consumed-IsWaiting :
      (down : ℕ → Bool) (issue : String → Role → ℕ → Result String String) (actor : String)
      (role : Role) (now : ℕ) (answer : Answer Bool)
      → IsWaiting answer.1
      → IsWaiting (consumed down issue actor role now answer).1
  unfolding consumed
  consumed-IsWaiting down issue actor role now (err e, db) h = h
  consumed-IsWaiting down issue actor role now (ok false, db) h = h
  consumed-IsWaiting down issue actor role now (ok true, db) h =
      let left =
        audited code row same (down 2) now (some actor) none "cli.device.token.issued" true none db
          h in
      ground arith

  authorized-IsWaiting :
      (down : ℕ → Bool) (issue : String → Role → ℕ → Result String String) (c actor : String)
      (now : ℕ) (user : UserAnswer) (db : Db)
      → (row.device_code == c) ≡ false
      → IsWaiting db
      → IsWaiting (authorized down issue c actor now user db).1
  unfolding authorized
  authorized-IsWaiting down issue c actor now (err e) db apart h = h
  authorized-IsWaiting down issue c actor now (ok none) db apart h = h
  authorized-IsWaiting down issue c actor now (ok (some user)) db apart h =
      consumed-IsWaiting down issue actor (parse user.role) now
        (consume_pending_cli_device (down 1) c actor now db)
        (consume_cli-IsWaiting code row same (down 1) c actor now db apart h)

  cli_polled-IsWaiting :
      (down : ℕ → Bool) (get_user : String → UserAnswer)
      (issue : String → Role → ℕ → Result String String) (now : ℕ) (found : PendingDeviceRow)
      (db : Db)
      → (row.device_code == found.device_code) ≡ false
      → IsWaiting db
      → IsWaiting (cli_polled down get_user issue now (some found) db).1
  unfolding cli_polled authorized_by
  cli_polled-IsWaiting down get_user issue now found db apart h =
      let gone = delete-IsWaiting code row same (down 1) found.device_code db apart h in
      elim (Option-cases found.approved_by) [
        | inl nobody ↦ ground arith
        | inr (actor, by) ↦
            let left =
              authorized-IsWaiting down issue found.device_code actor now (get_user actor) db apart
                h in
            ground arith
      ]

  poll_cli-IsWaiting :
      (down : ℕ → Bool) (get_user : String → UserAnswer)
      (issue : String → Role → ℕ → Result String String) (c : String) (now : ℕ)
      (state : PairingState)
      → (row.device_code == c) ≡ false
      → IsWaiting state.db
      → IsWaiting (poll_cli_token down get_user issue c now state).1.db
  unfolding poll_cli_token pending_device
  poll_cli-IsWaiting down get_user issue c now state apart h =
      elim (Option-cases (first_where (has_device c) state.db.pending_devices)) [
        | inl nothing ↦ unfold cli_polled in ground arith
        | inr (found, there) ↦
            let its_code = found_code c state.db.pending_devices found there in
            let left =
              cli_polled-IsWaiting down get_user issue now found state.db
                (ap (λ x. row.device_code == x) its_code ∙ apart) h in
            ground arith
      ]

  serve-IsWaiting :
      (env : Env) (call : Call) (state : PairingState)
      → leaves_pending env row call ≡ true
      → IsWaiting state.db
      → IsWaiting (serve env call state).1.db
  unfolding serve
  serve-IsWaiting env (Call.request_device down c raw now) state apart h =
      request_device-IsWaiting down env.to_uppercase env.url c raw now state (ground arith) h
  serve-IsWaiting env (Call.request_cli down c raw now) state apart h =
      request_cli-IsWaiting down env.to_uppercase env.trim_slashes env.crate env.url c raw now state
        (ground arith) h
  serve-IsWaiting env (Call.approve down user typed now) state apart h =
      approve-IsWaiting down env.to_uppercase user typed now state (ground arith) h
  serve-IsWaiting env (Call.poll_device down access refresh c now) state apart h =
      poll_device-IsWaiting down access refresh c now state (ground arith) h
  serve-IsWaiting env (Call.poll_cli down get_user issue c now) state apart h =
      poll_cli-IsWaiting down get_user issue c now state (ground arith) h
  serve-IsWaiting env (Call.rotate down access refresh presented now) state apart h =
      ap (first_where (has_device code)) (rotate-pending down access refresh presented now state)
      ∙ h
  serve-IsWaiting env (Call.register down token hostname now) state apart h =
      ap (first_where (has_device code)) (register-pending (down 0) token hostname now state.db) ∙ h
  serve-IsWaiting env (Call.revoke down actor t h now) state apart waits =
      ap (first_where (has_device code)) (revoke-pending down actor t h now state) ∙ waits
  serve-IsWaiting env (Call.purge down now) state in_time h =
      purge-IsWaiting code row same (down 0) now state.db in_time h

  -- A request waits on through any calls that are about no such request.
  pub run-IsWaiting :
      (env : Env) (calls : List Call) (state : PairingState)
      → all (leaves_pending env row) calls ≡ true
      → IsWaiting state.db
      → IsWaiting (run env calls state).1.db
  unfolding run
  run-IsWaiting env [] state quiet h = h
  run-IsWaiting env (call ∷ calls) state quiet h =
      run-IsWaiting env calls (serve env call state).1 (ground arith)
        (serve-IsWaiting env call state (ground arith) h)
