-- ===== src/Trusted/Approval.antt =====
-- agent/src/privileged/approval.rs: the requests that a host has signed and what becomes of them.
-- The signatures, the canonical bytes of a manifest and the keyring are the environment's; the
-- database is the table of requests, and a call of it that fails changes nothing. Times are whole
-- seconds since 1970.
use shellfleet.Common.{
  ℕ, ◌+◌, min, max, Bool, not, ◌&&◌, ◌||◌, String, Option, none, some, List, ◌==◌, nat_eq, bytes_eq,
  string_eq, if◌then◌else◌, ltb, leb, any,
}
use shellfleet.Common.Dict.{lookup, insert}
use shellfleet.Common.Result.{Result, ok, err, ◌>>=◌, ◌>>◌, guard}
use shellfleet.Trusted.Wire
use shellfleet.Trusted.Wire.{
  TrustedOperation, root_command, root_pty, TrustedManifest, SignedTrustedManifest,
  TrustedClientFrame, trusted_protocol_version,
}
use shellfleet.Trusted.Text.{len, is_id_char, all_chars}
use shellfleet.Trusted.Policy.{classify}

-- What the gate is given: the keys, `policy_version`, serde and the signature scheme: which
-- bytes are a public key, and what it verifies (an ill-formed signature is none). The keyring is
-- read at each approval.
pub record Env : Type 0 where
  pub host_id : String
  pub host_public : List ℕ
  pub transport_public : List ℕ
  pub policy_version : String
  pub canonical_bytes : TrustedManifest → Result String (List ℕ)
  pub sign : List ℕ → List ℕ
  pub is_key : (key : List ℕ) → Bool
  pub verify : (key message signature : List ℕ) → Bool

-- A row of `trusted_requests`.
pub record Row : Type 0 where
  pub manifest : List ℕ
  pub status : String
  pub expires_at : ℕ
  pub consumed_at : Option ℕ

abbrev pub Requests : Type 0
Requests = List (String × Row)

unfoldable pub validate_request_id : String → Result String (Unit {0})
validate_request_id id =
    if (leb 8 (len id) && leb (len id) 128) && all_chars is_id_char id
    then ok tt
    else err "invalid trusted request id"

requested_ttl : TrustedOperation → ℕ
requested_ttl (root_command program args timeout_secs) = timeout_secs + 60
requested_ttl (root_pty shell ttl_secs cols rows) = ttl_secs

abbrev clamp : ℕ → ℕ → ℕ → ℕ
clamp low high n = max low (min high n)

-- The manifest that answers a start, for a nonce and a time.
unfoldable pub manifest_for :
    Env → List ℕ → ℕ → String → TrustedOperation → List ℕ → TrustedManifest
unfolding requested_ttl
manifest_for env nonce now request_id operation client_ephemeral_public = record {
  version = trusted_protocol_version;
  request_id = request_id;
  host_id = env.host_id;
  operation = operation;
  client_ephemeral_public = client_ephemeral_public;
  broker_transport_public = env.transport_public;
  nonce = nonce;
  created_at = now;
  expires_at = now + clamp 60 3600 (requested_ttl operation);
  policy_version = env.policy_version;
}

-- The call of the database works, or fails with a message.
abbrev pub Fault : Type 0
Fault = Option String

unfoldable pub works : Fault → Result String (Unit {0})
works none = ok tt
works (some e) = err e

-- `INSERT INTO trusted_requests`: the request id is the primary key.
unfoldable pub insert_request : String → Row → Requests → Result String Requests
insert_request request_id row db = elim (lookup request_id db) [
  | none ↦ ok (insert request_id row db)
  | some old ↦ err "request id already exists or approval database failed"
]

unfoldable pub challenge :
    Env
    → List ℕ
    → ℕ
    → Fault
    → TrustedClientFrame
    → Requests
    → Result String (SignedTrustedManifest × Requests)
unfolding works
challenge env nonce now fault (Wire.start request_id operation client_ephemeral_public) db = do
  validate_request_id request_id
  tier ← classify operation
  let manifest : TrustedManifest =
      manifest_for env nonce now request_id operation client_ephemeral_public
  canonical ← env.canonical_bytes manifest
  works fault
  after ←
      insert_request request_id
        (record {
          manifest = canonical;
          status = "pending";
          expires_at = manifest.expires_at;
          consumed_at = none;
        })
        db
  ok (
    record {
      manifest = manifest;
      host_identity_public = env.host_public;
      signature = env.sign canonical;
    },
    after,
  )
challenge env nonce now fault _ db = err "first trusted frame must be Start"

unfoldable pub is_stale : Env → ℕ → SignedTrustedManifest → Bool
is_stale env now signed =
    not (signed.manifest.version == trusted_protocol_version)
    || not (signed.manifest.host_id == env.host_id)
    || not (signed.host_identity_public == env.host_public)
    || ltb signed.manifest.expires_at now
    || not (signed.manifest.policy_version == env.policy_version)

-- `SELECT manifest, status, expires_at`
unfoldable pub stored_request : String → Requests → Result String Row
stored_request request_id db = elim (lookup request_id db) [
  | none ↦ err "trusted request is unknown"
  | some row ↦ ok row
]

unfoldable pub is_altered : List ℕ → ℕ → Row → Bool
is_altered canonical now row =
    not (row.manifest == canonical) || not (row.status == "pending") || ltb row.expires_at now

-- `UPDATE trusted_requests SET status='consumed' ... WHERE ... AND status='pending'`, with the
-- number of rows that it changes.
unfoldable pub consume : String → ℕ → Requests → Requests × ℕ
consume request_id now db = elim (lookup request_id db) [
  | none ↦ (db, 0)
  | some row ↦
      if row.status == "pending"
      then (insert request_id (record row { status = "consumed"; consumed_at = some now }) db, 1)
      else (db, 0)
]

unfoldable pub approve :
    Env
    → Result String (List (String × List ℕ))
    → ℕ
    → Fault
    → SignedTrustedManifest
    → (approver_public approver_signature : List ℕ) → Requests
    → Result String (TrustedManifest × Requests)
unfolding is_stale works stored_request is_altered consume
approve env keyring now fault signed approver_public approver_signature db = do
  guard (not (is_stale env now signed))
      "trusted manifest is stale or belongs to another host/policy"
  tier ← classify signed.manifest.operation
  canonical ← env.canonical_bytes signed.manifest
  guard (env.verify env.host_public canonical signed.signature) "invalid host manifest signature"
  approvers ← keyring
  guard (any (λ entry. entry.1 == approver_public) approvers)
      "approver key is not enrolled on this host"
  guard (env.is_key approver_public) "invalid approver public key"
  guard (env.verify approver_public canonical approver_signature) "invalid approver signature"
  works fault
  row ← stored_request signed.manifest.request_id db
  guard (not (is_altered canonical now row))
      "trusted approval was altered, expired, or already consumed"
  let changed : Requests × ℕ = consume signed.manifest.request_id now db
  guard (changed.1 == 1) "trusted approval was already consumed"
  ok (signed.manifest, changed.0)
