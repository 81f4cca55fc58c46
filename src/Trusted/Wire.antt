-- ===== src/Trusted/Wire.antt =====
-- shared/src/trusted.rs: the frames of the trusted channel. Bytes are numbers below 256.
use shellfleet.Common.{ℕ, ◌*◌, String, List}

abbrev pub trusted_protocol_version : ℕ
trusted_protocol_version = 1

abbrev pub max_trusted_frame_bytes : ℕ
max_trusted_frame_bytes = 1024 * 1024

pub data TrustedOperation : Type 0 where
  root_command : (program : String) (args : List String) (timeout_secs : ℕ) → TrustedOperation
  root_pty : (shell : String) (ttl_secs cols rows : ℕ) → TrustedOperation

pub record TrustedManifest : Type 0 where
  pub version : ℕ
  pub request_id : String
  pub host_id : String
  pub operation : TrustedOperation
  pub client_ephemeral_public : List ℕ
  pub broker_transport_public : List ℕ
  pub nonce : List ℕ
  pub created_at : ℕ
  pub expires_at : ℕ
  pub policy_version : String

pub record SignedTrustedManifest : Type 0 where
  pub manifest : TrustedManifest
  pub host_identity_public : List ℕ
  pub signature : List ℕ

pub data TrustedClientFrame : Type 0 where
  start :
      (request_id : String) (operation : TrustedOperation) (client_ephemeral_public : List ℕ)
      → TrustedClientFrame
  approve :
      SignedTrustedManifest → (approver_public approver_signature : List ℕ) → TrustedClientFrame
  ciphertext : (counter : ℕ) (bytes : List ℕ) → TrustedClientFrame
  resize : (cols rows : ℕ) → TrustedClientFrame
  close : TrustedClientFrame
