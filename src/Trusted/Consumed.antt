-- ===== src/Trusted/Consumed.antt =====
-- agent/src/privileged/approval.rs: the table of requests through sequences of challenges and
-- approvals.
use shellfleet.Common.{
  otherwise, when, ℕ, ◌+◌, ◌≤◌, ◌≡◌, refl, sym, ◌∙◌, ap, subst, inl, inr, ◌≢◌, Bool, true, false,
  not, String, Option, none, some, List, [], ◌∷◌, arith, ◌==◌, nat_eq, string_eq, eq_iff, eq_refl,
  if◌then◌else◌, Option-cases, Bool-cases,
}
use shellfleet.Common.Dict.{lookup, insert, lookup-insert}
use shellfleet.Common.Result.{Result, ok, err, guard, >>=-eq-ok, Result-cases}
use shellfleet.Trusted.Wire
use shellfleet.Trusted.Wire.{TrustedManifest, SignedTrustedManifest, TrustedClientFrame}
use shellfleet.Trusted.Policy.{classify}
use shellfleet.Trusted.Approval.{
  Env, Row, Requests, Fault, validate_request_id, manifest_for, insert_request, challenge, is_stale,
  consume, approve, works,
}
use shellfleet.Trusted.Once.{consumed_row, consume_eq, approve_iff}

-- One call of the gate, with what the environment gives it.
pub data Step : Type 0 where
  challenges : (nonce : List ℕ) (now : ℕ) → Fault → TrustedClientFrame → Step
  approves :
      (keyring : Result String (List (String × List ℕ))) (now : ℕ)
      → Fault
      → SignedTrustedManifest
      → (approver_public approver_signature : List ℕ) → Step

-- A call that fails changes nothing.
module _ (db : Requests) where
  abbrev challenged :
      Result String (SignedTrustedManifest × Requests) → Requests × Option TrustedManifest
  challenged (ok (signed, after)) = (after, none)
  challenged (err e) = (db, none)

  abbrev approved : Result String (TrustedManifest × Requests) → Requests × Option TrustedManifest
  approved (ok (manifest, after)) = (after, some manifest)
  approved (err e) = (db, none)

-- The table after a call, and the manifest that it approves.
unfoldable pub step : Env → Requests → Step → Requests × Option TrustedManifest
step env db (challenges nonce now fault frame) =
    challenged db (challenge env nonce now fault frame db)
step env db (approves keyring now fault signed key signature) =
    approved db (approve env keyring now fault signed key signature db)

abbrev is_for : String → Option TrustedManifest → Bool
is_for id none = false
is_for id (some manifest) = manifest.request_id == id

-- How many calls approve the request.
unfoldable pub approvals : Env → String → Requests → List Step → ℕ
unfolding step
approvals env id db [] = 0
approvals env id db (s ∷ steps) =
    let (after, manifest) = step env db s in
    (if is_for id manifest then 1 else 0) + approvals env id after steps

abbrev IsConsumed : String → Requests → Type 0
IsConsumed id db = (row : Row) × (lookup id db ≡ some row) × (row.status ≡ "consumed")

insert_request-lookup :
    (id : String) (row : Row) (db after : Requests) (other : String)
    → insert_request id row db ≡ ok after
    → (lookup id db ≡ none)
      × (lookup other after ≡ (if id == other then some row else lookup other db))
unfolding insert_request
insert_request-lookup id row db after other h = elim (Option-cases (lookup id db)) [
  | inr (old, found) ↦ ground arith
  | inl free ↦
      let same : insert id row db ≡ after = ground arith in
      (
        free,
        subst (λ t. lookup other t ≡ (if id == other then some row else lookup other db)) same
            (lookup-insert id other row db),
      )
]

insert_keeps :
    (id : String) (row : Row) (db after : Requests) (other : String) (old : Row)
    → insert_request id row db ≡ ok after
    → lookup other db ≡ some old
    → lookup other after ≡ some old
insert_keeps id row db after other old h found =
    let (free, seen) = insert_request-lookup id row db after other h in
    elim (Bool-cases (id == other)) [
      | inr apart ↦ ground arith
      | inl same ↦
          let none_there : lookup other db ≡ none =
            subst (λ k. lookup k db ≡ none) ((eq_iff id other).0 same) free in
          cc (none_there, found)
    ]

challenge_keeps :
    (env : Env) (nonce : List ℕ) (now : ℕ) (fault : Fault) (frame : TrustedClientFrame)
    (db after : Requests) (signed : SignedTrustedManifest) (id : String) (row : Row)
    → challenge env nonce now fault frame db ≡ ok (signed, after)
    → lookup id db ≡ some row
    → lookup id after ≡ some row
unfolding challenge
challenge_keeps env nonce now fault (Wire.start request operation key) db after signed id row h
      found =
    let (_, _, h) = >>=-eq-ok (validate_request_id request) _ h in
    let (_, _, h) = >>=-eq-ok (classify operation) _ h in
    let (_, _, h) =
      >>=-eq-ok (env.canonical_bytes (manifest_for env nonce now request operation key)) _ h in
    let (_, _, h) = >>=-eq-ok (works fault) _ h in
    let (inserted, e, h) = >>=-eq-ok (insert_request request _ db) _ h in
    let same : inserted ≡ after = cc in
    ap (lookup id) (sym same) ∙ insert_keeps request _ db inserted id row e found
challenge_keeps env nonce now fault _ db after signed id row h found = cc

-- A row of another request stays, and the approved one is consumed.
lookup-consume :
    (id : String) (now : ℕ) (db : Requests) (row : Row) (other : String)
    → lookup id db ≡ some row
    → row.status ≡ "pending"
    → lookup other (consume id now db).0
      ≡ (if id == other then some (consumed_row now row) else lookup other db)
lookup-consume id now db row other found pending =
    ap (lookup other) (consume_eq id now db row found pending) ∙ lookup-insert id other _ db

not_both : (s : String) → s ≡ "pending" → s ≢ "consumed"
not_both s p q = cc ((eq_iff "pending" "consumed").1 (sym p ∙ q))

approve_keyring :
    (env : Env) (e : String) (now : ℕ) (fault : Fault) (signed : SignedTrustedManifest)
    (key signature : List ℕ) (db : Requests) (manifest : TrustedManifest) (after : Requests)
    → approve env (err e) now fault signed key signature db ≢ ok (manifest, after)
unfolding approve
approve_keyring env e now fault signed key signature db manifest after h =
    let (_, _, h) = >>=-eq-ok (guard (not (is_stale env now signed)) _) _ h in
    let (_, _, h) = >>=-eq-ok (classify signed.manifest.operation) _ h in
    let (canonical, _, h) = >>=-eq-ok (env.canonical_bytes signed.manifest) _ h in
    let (_, _, h) =
      >>=-eq-ok (guard (env.verify env.host_public canonical signed.signature) _) _ h in
    cc

-- What a call of `approve` that succeeds does to the table.
approve_lem :
    (env : Env) (keyring : Result String (List (String × List ℕ))) (now : ℕ) (fault : Fault)
    (signed : SignedTrustedManifest) (key signature : List ℕ) (db : Requests)
    (manifest : TrustedManifest) (after : Requests)
    → approve env keyring now fault signed key signature db ≡ ok (manifest, after)
    → (row : Row) × (lookup manifest.request_id db ≡ some row)
      × (row.status ≡ "pending")
      × (after ≡ (consume manifest.request_id now db).0)
approve_lem env (err e) now fault signed key signature db manifest after h =
    elim (approve_keyring env e now fault signed key signature db manifest after h) [ ]
approve_lem env (ok approvers) now fault signed key signature db manifest after h =
    let (a, worked, same, left) =
      (approve_iff env approvers now signed key signature db fault manifest after).0 h in
    (
      a.row,
      ap (λ x. lookup x.request_id db) same ∙ a.stored,
      a.pending,
      left
          ∙ sym (consume_eq signed.manifest.request_id now db a.row a.stored a.pending)
          ∙ ap (λ x. (consume x.request_id now db).0) (sym same),
    )

module _ (env : Env) (id : String) (db : Requests) where
  approved-IsConsumed :
      (keyring : Result String (List (String × List ℕ))) (now : ℕ) (fault : Fault)
      (signed : SignedTrustedManifest) (key signature : List ℕ) (manifest : TrustedManifest)
      (after : Requests) (row : Row)
      → lookup id db ≡ some row
      → row.status ≡ "consumed"
      → approve env keyring now fault signed key signature db ≡ ok (manifest, after)
      → IsConsumed id after × ((manifest.request_id == id) ≡ false)
  approved-IsConsumed keyring now fault signed key signature manifest after row found done h =
      let (used, there, pending, left) =
        approve_lem env keyring now fault signed key signature db manifest after h in
      let apart : (manifest.request_id == id) ≡ false =
        elim (Bool-cases (manifest.request_id == id)) [
          | inr differs ↦ differs
          | inl same ↦
              let one : lookup manifest.request_id db ≡ lookup id db =
                ap (λ k. lookup k db) ((eq_iff manifest.request_id id).0 same) in
              let row_same : used ≡ row = cc in
              elim (not_both used.status pending (ap (λ r. r.status) row_same ∙ done)) [ ]
        ] in
      (
        (
          row,
          ap (lookup id) left
              ∙ lookup-consume manifest.request_id now db used id there pending
              ∙ otherwise _ _ apart
              ∙ found,
          done,
        ),
        apart,
      )

  first_approval :
      (keyring : Result String (List (String × List ℕ))) (now : ℕ) (fault : Fault)
      (signed : SignedTrustedManifest) (key signature : List ℕ) (manifest : TrustedManifest)
      (after : Requests)
      → manifest.request_id ≡ id
      → approve env keyring now fault signed key signature db ≡ ok (manifest, after)
      → IsConsumed id after
  first_approval keyring now fault signed key signature manifest after same h =
      let (used, there, pending, left) =
        approve_lem env keyring now fault signed key signature db manifest after h in
      (
        consumed_row now used,
        ap (λ k. lookup k after) (sym same)
            ∙ ap (lookup manifest.request_id) left
            ∙ lookup-consume manifest.request_id now db used manifest.request_id there pending
            ∙ when _ _ (eq_refl manifest.request_id),
        refl,
      )

  step-IsConsumed :
      (s : Step)
      → IsConsumed id db
      → IsConsumed id (step env db s).0 × (is_for id (step env db s).1 ≡ false)
  unfolding step
  step-IsConsumed (challenges nonce now fault frame) (row, found, done) =
      elim (Result-cases (challenge env nonce now fault frame db)) [
        | inr (e, failed) ↦ rw failed ((row, found, done), refl)
        | inl ((signed, after), passed) ↦ rw passed (
          (
            row,
            challenge_keeps env nonce now fault frame db after signed id row passed found,
            done,
          ),
          refl,
        )
      ]
  step-IsConsumed (approves keyring now fault signed key signature) (row, found, done) =
      elim (Result-cases (approve env keyring now fault signed key signature db)) [
        | inr (e, failed) ↦ rw failed ((row, found, done), refl)
        | inl ((manifest, after), passed) ↦ rw passed (
            approved-IsConsumed keyring now fault signed key signature manifest after row found done
              passed)
      ]

  -- The first approval of the request consumes it.
  step_approves : (s : Step) → is_for id (step env db s).1 ≡ true → IsConsumed id (step env db s).0
  unfolding step
  step_approves (challenges nonce now fault frame) h =
      elim (Result-cases (challenge env nonce now fault frame db)) [
        | inr (e, failed) ↦ cc (ap (λ r. is_for id (challenged db r).1) failed, h)
        | inl ((signed, after), passed) ↦ cc (ap (λ r. is_for id (challenged db r).1) passed, h)
      ]
  step_approves (approves keyring now fault signed key signature) h =
      elim (Result-cases (approve env keyring now fault signed key signature db)) [
        | inr (e, failed) ↦ cc (ap (λ r. is_for id (approved db r).1) failed, h)
        | inl ((manifest, after), passed) ↦ rw passed (
            first_approval keyring now fault signed key signature manifest after
              ((eq_iff manifest.request_id id).0
                (sym (ap (λ r. is_for id (approved db r).1) passed) ∙ h))
              passed)
      ]

consumed_forever :
    (env : Env) (id : String) (db : Requests) (steps : List Step)
    → IsConsumed id db
    → approvals env id db steps ≡ 0
unfolding approvals
consumed_forever env id db [] h = refl
consumed_forever env id db (s ∷ steps) h =
    let (still, other) = step-IsConsumed env id db s h in
    let rest = consumed_forever env id (step env db s).0 steps still in ground arith

-- Through any sequence of challenges and approvals, whoever asks and whatever fails, from any table
-- of requests, each request is approved at most once.
pub approved_once :
    (env : Env) (id : String) (db : Requests) (steps : List Step) → approvals env id db steps ≤ 1
unfolding approvals
approved_once env id db [] = ground arith
approved_once env id db (s ∷ steps) = elim (Bool-cases (is_for id (step env db s).1)) [
  | inl first ↦
      let none_left =
        consumed_forever env id (step env db s).0 steps (step_approves env id db s first) in
      ground arith
  | inr other ↦ let rest = approved_once env id (step env db s).0 steps in ground arith
]
