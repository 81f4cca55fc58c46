-- ===== src/Internal/Canonical.antt =====
-- shared/src/internal_auth.rs: the bytes that a signature is over.
use shellfleet.Common.{Option, ℕ, ◌^◌, String, List, [], ◌∷◌, ◌++◌, ltb, length}
use shellfleet.Common.Int.{ℤ}
use shellfleet.Common.Result.{Result, ok, ◌>>=◌, ◌>>◌, guard}
use shellfleet.Trusted.Framing.{write_u32}

pub data Direction : Type 0 where
  ce_to_ee ee_to_ce : Direction

abbrev pub label : Direction → String
label ce_to_ee = "ce-to-ee"
label ee_to_ce = "ee-to-ce"

pub data AuthError : Type 0 where
  invalid_key_id short_key invalid_keyring unknown_key invalid_nonce stale_timestamp wrong_direction
        invalid_signature invalid_field :
      AuthError

-- `as_bytes` of texts, `to_string` of numbers, HMAC-SHA256 and the base64 of the crates.
pub record Primitives : Type 0 where
  pub as_bytes : String → List ℕ
  pub signed_text : ℤ → String
  pub number_text : ℕ → String
  pub hmac : List ℕ → List ℕ → List ℕ
  pub encode : List ℕ → String
  pub decode : String → Option (List ℕ)

-- What the caller says of a request apart from the signature's own fields.
pub record Content : Type 0 where
  pub method : String
  pub path_and_query : String
  pub body : List ℕ
  pub content_type : String
  pub login : String
  pub role : String

unfoldable pub append_field : List ℕ → List ℕ → Result AuthError (List ℕ)
append_field output field = do
  guard (ltb (length field) (2 ^ 32)) invalid_field
  ok (output ++ (write_u32 (length field) ++ field))

-- The loop over the fields.
unfoldable pub append_fields : List ℕ → List (List ℕ) → Result AuthError (List ℕ)
append_fields output [] = ok output
append_fields output (field ∷ fields) = do
  next ← append_field output field
  append_fields next fields

abbrev pub request_fields : Primitives → Direction → String → ℤ → String → Content → List (List ℕ)
request_fields prims direction key_id timestamp nonce content =
    prims.as_bytes "shellfleet-internal-request-v1"
    ∷ prims.as_bytes (label direction)
    ∷ prims.as_bytes key_id
    ∷ prims.as_bytes (prims.signed_text timestamp)
    ∷ prims.as_bytes nonce
    ∷ prims.as_bytes content.method
    ∷ prims.as_bytes content.path_and_query
    ∷ content.body
    ∷ prims.as_bytes content.content_type
    ∷ prims.as_bytes content.login
    ∷ prims.as_bytes content.role
    ∷ []

unfoldable pub canonical_request :
    Primitives → Direction → String → ℤ → String → Content → Result AuthError (List ℕ)
canonical_request prims direction key_id timestamp nonce content =
    append_fields [] (request_fields prims direction key_id timestamp nonce content)

unfoldable pub canonical_response :
    Primitives → Direction → String → String → ℕ → List ℕ → Result AuthError (List ℕ)
canonical_response prims direction key_id request_nonce status body = append_fields [] (
    prims.as_bytes "shellfleet-internal-response-v1"
    ∷ prims.as_bytes (label direction)
    ∷ prims.as_bytes key_id
    ∷ prims.as_bytes request_nonce
    ∷ prims.as_bytes (prims.number_text status)
    ∷ body
    ∷ [])
