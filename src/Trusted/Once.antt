-- ===== src/Trusted/Once.antt =====
-- agent/src/privileged/approval.rs: what an approval that succeeds has checked.
use shellfleet.Common.{
  ℕ, ◌≤◌, eq_iff, bytes_beq_iff, ◌≡◌, refl, ◌∙◌, ap, ◌↔◌, Bool, true, false, not, String, none,
  some, List, arith, ◌==◌, nat_eq, bytes_eq, string_eq, any,
}
use shellfleet.Common.Dict.{lookup, insert}
use shellfleet.Common.Result.{guard_ok, Result, ok, guard, >>=-eq-ok}
use shellfleet.Trusted.Wire.{trusted_protocol_version, TrustedManifest, SignedTrustedManifest}
use shellfleet.Trusted.Policy.{IsBounded, classify_iff, Tier, two, classify}
use shellfleet.Trusted.Approval.{
  Env, Row, Requests, Fault, is_altered, consume, approve, stored_request, works, is_stale,
}

-- What an approval that succeeds has checked.
pub record IsApproved (env : Env) (approvers : List (String × List ℕ)) (now : ℕ)
    (signed : SignedTrustedManifest) (approver_public approver_signature : List ℕ) (db : Requests)
    : Type 0 where
  pub canonical : List ℕ
  pub row : Row
  pub version : signed.manifest.version ≡ trusted_protocol_version
  pub host : signed.manifest.host_id ≡ env.host_id
  pub host_key : signed.host_identity_public ≡ env.host_public
  pub in_time : now ≤ signed.manifest.expires_at
  pub policy : signed.manifest.policy_version ≡ env.policy_version
  pub bounded : IsBounded signed.manifest.operation
  pub encoded : env.canonical_bytes signed.manifest ≡ ok canonical
  pub host_signed : env.verify env.host_public canonical signed.signature ≡ true
  pub enrolled : any (λ entry. entry.1 == approver_public) approvers ≡ true
  pub key : env.is_key approver_public ≡ true
  pub approver_signed : env.verify approver_public canonical approver_signature ≡ true
  pub stored : lookup signed.manifest.request_id db ≡ some row
  pub same_bytes : row.manifest ≡ canonical
  pub pending : row.status ≡ "pending"
  pub row_in_time : now ≤ row.expires_at

-- The row of a request that has been used.
abbrev pub consumed_row : ℕ → Row → Row
consumed_row now row = record row { status = "consumed"; consumed_at = some now }

pub consume_eq :
    (id : String) (now : ℕ) (db : Requests) (row : Row)
    → lookup id db ≡ some row
    → row.status ≡ "pending"
    → (consume id now db).0 ≡ insert id (consumed_row now row) db
unfolding consume
consume_eq id now db row found pending =
    let test : (row.status == "pending") ≡ true = (eq_iff row.status "pending").1 pending in
    ground arith

stale_iff :
    (env : Env) (now : ℕ) (signed : SignedTrustedManifest)
    → (is_stale env now signed ≡ false) ↔ (
        (signed.manifest.version ≡ trusted_protocol_version)
        × (signed.manifest.host_id ≡ env.host_id)
        × (signed.host_identity_public ≡ env.host_public)
        × (now ≤ signed.manifest.expires_at)
        × (signed.manifest.policy_version ≡ env.policy_version))
unfolding is_stale
stale_iff env now signed =
    let host = eq_iff signed.manifest.host_id env.host_id in
    let host_key = bytes_beq_iff signed.host_identity_public env.host_public in
    let policy = eq_iff signed.manifest.policy_version env.policy_version in
    (λ h. ground arith, λ (a, b, c, d, e). ground arith)

altered_iff :
    (canonical : List ℕ) (now : ℕ) (row : Row)
    → (is_altered canonical now row ≡ false)
      ↔ ((row.manifest ≡ canonical) × (row.status ≡ "pending") × (now ≤ row.expires_at))
unfolding is_altered
altered_iff canonical now row =
    let bytes = bytes_beq_iff row.manifest canonical in
    let status = eq_iff row.status "pending" in (λ h. ground arith, λ (a, b, c). ground arith)

only_tier : (t : Tier) → t ≡ two
only_tier two = refl

not-true : (b : Bool) → not b ≡ true → b ≡ false
not-true b h = ground arith

stored_request_ok :
    (id : String) (db : Requests) (row : Row)
    → stored_request id db ≡ ok row
    → lookup id db ≡ some row
unfolding stored_request
stored_request_ok id db row h = ground arith

stored_request_at :
    (id : String) (db : Requests) (row : Row)
    → lookup id db ≡ some row
    → stored_request id db ≡ ok row
unfolding stored_request
stored_request_at id db row h = ground arith

works_ok : (fault : Fault) {x : Unit {0}} → works fault ≡ ok x → fault ≡ none
unfolding works
works_ok none h = refl
works_ok (some e) h = cc

module _ (env : Env) (approvers : List (String × List ℕ)) (now : ℕ) (signed : SignedTrustedManifest)
    (approver_public approver_signature : List ℕ) (db : Requests) where
  abbrev approved_at : Fault → Result String (TrustedManifest × Requests)
  approved_at fault =
      approve env (ok approvers) now fault signed approver_public approver_signature db

  approve_sound :
      (fault : Fault) (manifest : TrustedManifest) (after : Requests)
      → approved_at fault ≡ ok (manifest, after)
      → (a : IsApproved env approvers now signed approver_public approver_signature db) × (fault
          ≡ none)
        × (manifest ≡ signed.manifest)
        × (after ≡ insert signed.manifest.request_id (consumed_row now a.row) db)
  unfolding approve
  approve_sound fault manifest after h =
      let (_, fresh, h) = >>=-eq-ok (guard (not (is_stale env now signed)) _) _ h in
      let (tier, bounded, h) = >>=-eq-ok (classify signed.manifest.operation) _ h in
      let (canonical, encoded, h) = >>=-eq-ok (env.canonical_bytes signed.manifest) _ h in
      let (_, host_signed, h) =
        >>=-eq-ok (guard (env.verify env.host_public canonical signed.signature) _) _ h in
      let (_, enrolled, h) =
        >>=-eq-ok (guard (any (λ entry. entry.1 == approver_public) approvers) _) _ h in
      let (_, key, h) = >>=-eq-ok (guard (env.is_key approver_public) _) _ h in
      let (_, approver_signed, h) =
        >>=-eq-ok (guard (env.verify approver_public canonical approver_signature) _) _ h in
      let (_, worked, h) = >>=-eq-ok (works fault) _ h in
      let (row, stored, h) = >>=-eq-ok (stored_request signed.manifest.request_id db) _ h in
      let (_, unaltered, h) = >>=-eq-ok (guard (not (is_altered canonical now row)) _) _ h in
      let (_, changed, h) =
        >>=-eq-ok (guard ((consume signed.manifest.request_id now db).1 == 1) _) _ h in
      let (version, host, host_key, in_time, policy) =
        (stale_iff env now signed).0 (not-true _ (guard_ok _ _ fresh)) in
      let (same_bytes, pending, row_in_time) =
        (altered_iff canonical now row).0 (not-true _ (guard_ok _ _ unaltered)) in
      let found = stored_request_ok signed.manifest.request_id db row stored in
      let done : after ≡ (consume signed.manifest.request_id now db).0 = cc in
      (
        record {
          canonical = canonical;
          row = row;
          version = version;
          host = host;
          host_key = host_key;
          in_time = in_time;
          policy = policy;
          bounded = (classify_iff signed.manifest.operation).0 (bounded ∙ ap ok (only_tier tier));
          encoded = encoded;
          host_signed = guard_ok _ _ host_signed;
          enrolled = guard_ok _ _ enrolled;
          key = guard_ok _ _ key;
          approver_signed = guard_ok _ _ approver_signed;
          stored = found;
          same_bytes = same_bytes;
          pending = pending;
          row_in_time = row_in_time;
        },
        works_ok fault worked,
        cc,
        done ∙ consume_eq signed.manifest.request_id now db row found pending,
      )

  consume_changed :
      (canonical : List ℕ) (row : Row)
      → lookup signed.manifest.request_id db ≡ some row
      → is_altered canonical now row ≡ false
      → (consume signed.manifest.request_id now db).1 ≡ 1
  unfolding consume is_altered
  consume_changed canonical row stored unaltered = ground arith

  approve_complete :
      (a : IsApproved env approvers now signed approver_public approver_signature db)
      → approved_at none
        ≡ ok (signed.manifest, insert signed.manifest.request_id (consumed_row now a.row) db)
  unfolding approve works
  approve_complete a =
      let fresh =
        (stale_iff env now signed).1 (a.version, a.host, a.host_key, a.in_time, a.policy) in
      let unaltered =
        (altered_iff a.canonical now a.row).1 (a.same_bytes, a.pending, a.row_in_time) in
      rw
        (
          fresh,
          (classify_iff signed.manifest.operation).1 a.bounded,
          a.encoded,
          a.host_signed,
          a.enrolled,
          a.key,
          a.approver_signed,
          stored_request_at signed.manifest.request_id db a.row a.stored,
          unaltered,
          consume_changed a.canonical a.row a.stored unaltered,
          consume_eq signed.manifest.request_id now db a.row a.stored a.pending,
        )
        refl

-- With a keyring that can be read, an approval succeeds exactly if the manifest is of this protocol's
-- version, names this host, carries the host's public key and the policy's version and has not
-- expired; its operation is within the local limits; the host has signed its canonical bytes; the
-- approver's key is enrolled, is a key and has signed the same bytes; the database works; and the
-- row of the request holds these bytes, is pending and has not expired. The manifest is then
-- returned, and the row becomes consumed, at this time; the other rows stay.
pub approve_iff :
    (env : Env) (approvers : List (String × List ℕ)) (now : ℕ) (signed : SignedTrustedManifest)
    (approver_public approver_signature : List ℕ) (db : Requests) (fault : Fault)
    (manifest : TrustedManifest) (after : Requests)
    → (approve env (ok approvers) now fault signed approver_public approver_signature db
        ≡ ok (manifest, after))
      ↔ ((a : IsApproved env approvers now signed approver_public approver_signature db) × (fault
            ≡ none)
          × (manifest ≡ signed.manifest)
          × (after ≡ insert signed.manifest.request_id (consumed_row now a.row) db))
approve_iff env approvers now signed approver_public approver_signature db fault manifest after = (
  approve_sound env approvers now signed approver_public approver_signature db fault manifest after,
  λ (a, worked, same, left).
      let done =
        approve_complete env approvers now signed approver_public approver_signature db a in
      rw (worked, same, left) done,
)
