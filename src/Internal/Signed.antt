-- ===== src/Internal/Signed.antt =====
-- shared/src/internal_auth.rs: the signature of a request and of its response.
use shellfleet.Common.{
  ℕ, ◌+◌, ◌-◌, Bool, true, false, String, List, ◌==◌, string_eq, nat_eq, bytes_eq, leb, length, suc,
}
use shellfleet.Common.Int.{ℤ, pos, negsuc}
use shellfleet.Common.Result.{Result, ok, ◌>>=◌, ◌>>◌, guard, ok_or}
use shellfleet.Common.Table.{first_where}
use shellfleet.Internal.Canonical.{
  Direction, ce_to_ee, ee_to_ce, AuthError, unknown_key, invalid_nonce, stale_timestamp,
  wrong_direction, invalid_signature, Primitives, Content, canonical_request, canonical_response,
}

abbrev pub max_timestamp_skew_secs : ℕ
max_timestamp_skew_secs = 120

pub record InternalKey : Type 0 where
  pub id : String
  pub secret : List ℕ

pub record SignedRequest : Type 0 where
  pub key_id : String
  pub timestamp : ℤ
  pub nonce : String
  pub signature : String
  pub direction : Direction

pub record SignedResponse : Type 0 where
  pub key_id : String
  pub request_nonce : String
  pub signature : String
  pub direction : Direction

abbrev pub same_direction : Direction → Direction → Bool
same_direction ce_to_ee ce_to_ee = true
same_direction ce_to_ee ee_to_ce = false
same_direction ee_to_ce ce_to_ee = false
same_direction ee_to_ce ee_to_ce = true

-- `now.abs_diff(timestamp)`, at a clock that is not negative.
abbrev pub abs_diff : ℕ → ℤ → ℕ
abs_diff now (pos t) = (now - t) + (t - now)
abs_diff now (negsuc t) = now + suc t

-- A key of any length makes an HMAC, so that part of the code does not fail.
unfoldable pub signature : Primitives → InternalKey → List ℕ → String
signature prims key canonical = prims.encode (prims.hmac key.secret canonical)

-- `verify_slice` compares in constant time.
unfoldable pub verify_signature :
    Primitives → InternalKey → List ℕ → String → Result AuthError (Unit {0})
verify_signature prims key canonical encoded = do
  sent ← ok_or (prims.decode encoded) invalid_signature
  guard (prims.hmac key.secret canonical == sent) invalid_signature

unfoldable pub find_key : List InternalKey → String → Result AuthError InternalKey
find_key keys id = ok_or (first_where (λ key. key.id == id) keys) unknown_key

unfoldable pub validate_nonce : Primitives → String → Result AuthError (Unit {0})
validate_nonce prims encoded = do
  nonce ← ok_or (prims.decode encoded) invalid_nonce
  guard (length nonce == 32) invalid_nonce

unfoldable pub sign_request :
    Primitives → InternalKey → Direction → ℤ → List ℕ → Content → Result AuthError SignedRequest
sign_request prims key direction timestamp nonce content = do
  canonical ← canonical_request prims direction key.id timestamp (prims.encode nonce) content
  ok (record {
    key_id = key.id;
    timestamp = timestamp;
    nonce = prims.encode nonce;
    signature = signature prims key canonical;
    direction = direction;
  })

unfoldable pub verify_request :
    Primitives
    → List InternalKey
    → Direction
    → SignedRequest
    → ℕ
    → Content
    → Result AuthError (Unit {0})
verify_request prims keys direction signed now content = do
  guard (same_direction signed.direction direction) wrong_direction
  guard (leb (abs_diff now signed.timestamp) max_timestamp_skew_secs) stale_timestamp
  validate_nonce prims signed.nonce
  key ← find_key keys signed.key_id
  canonical ← canonical_request prims direction signed.key_id signed.timestamp signed.nonce content
  verify_signature prims key canonical signed.signature

unfoldable pub sign_response :
    Primitives → InternalKey → Direction → String → ℕ → List ℕ → Result AuthError SignedResponse
sign_response prims key direction request_nonce status body = do
  validate_nonce prims request_nonce
  canonical ← canonical_response prims direction key.id request_nonce status body
  ok (record {
    key_id = key.id;
    request_nonce = request_nonce;
    signature = signature prims key canonical;
    direction = direction;
  })

unfoldable pub verify_response :
    Primitives
    → List InternalKey
    → Direction
    → SignedResponse
    → ℕ
    → List ℕ
    → Result AuthError (Unit {0})
verify_response prims keys direction signed status body = do
  guard (same_direction signed.direction direction) wrong_direction
  validate_nonce prims signed.request_nonce
  key ← find_key keys signed.key_id
  canonical ← canonical_response prims direction signed.key_id signed.request_nonce status body
  verify_signature prims key canonical signed.signature
