-- ===== src/Internal/Gate.antt =====
-- server/src/internal_auth.rs: what a request of the sidecar passes before its handler runs.
use shellfleet.Common.{
  ℕ, Bool, true, false, not, String, Option, none, some, List, ◌==◌, string_eq, if◌then◌else◌,
}
use shellfleet.Common.Int.{ℤ}
use shellfleet.Common.Dict.{lookup, erase}
use shellfleet.Common.Result.{Result, ok, err, ◌>>=◌, ok_or}
use shellfleet.Internal.Canonical.{ce_to_ee, ee_to_ce, Primitives, Content}
use shellfleet.Internal.Signed.{
  InternalKey, SignedRequest, SignedResponse, find_key, verify_request, sign_response,
}
use shellfleet.Internal.Nonces.{NonceRow, consume_nonce}

-- The keyrings that the environment's variables hold.
pub record Config : Type 0 where
  pub ce_to_ee_keys : List InternalKey
  pub ce_to_ee_active : String
  pub ee_to_ce_keys : List InternalKey

-- A header's value is `none` where `to_str` fails on it. The body is `none` where it cannot be
-- read within the bound.
pub record EeRequest : Type 0 where
  pub method : String
  pub path_and_query : String
  pub headers : List (String × Option String)
  pub body : Option (List ℕ)

pub record Response : Type 0 where
  pub status : ℕ
  pub body : List ℕ
  pub signed : Option SignedResponse

-- The libraries' part: besides the primitives of signatures, `parse::<i64>`, which texts can be a
-- header's value, and which bodies fit the bound.
pub record Server : Type 0 where
  pub prims : Primitives
  pub parse_i64 : String → Option ℤ
  pub is_value : String → Bool
  pub fits : List ℕ → Bool

abbrev and_then {ℓ κ} : {A : Type ℓ} {B : Type κ} → Option A → (A → Option B) → Option B
and_then none f = none
and_then (some a) f = f a

abbrev filled : String → Option String
filled value = if value == "" then none else some value

unfoldable pub header : String → EeRequest → Option String
header name req = and_then (and_then (lookup name req.headers) (λ value. value)) filled

unfoldable pub optional_header : String → EeRequest → String
optional_header name req = elim (and_then (lookup name req.headers) (λ value. value)) [
  | none ↦ ""
  | some value ↦ value
]

abbrev pub signed_error : Server → ℕ → String → Response
signed_error server status message = record {
  status = status;
  body = server.prims.as_bytes message;
  signed = none;
}

-- What the four headers of a request say.
unfoldable pub read_signed : Server → EeRequest → Option SignedRequest
unfolding header
read_signed server req = and_then (header "x-shellfleet-key-id" req) (λ key_id.
    and_then (and_then (header "x-shellfleet-timestamp" req) server.parse_i64) (λ timestamp.
      and_then (header "x-shellfleet-nonce" req) (λ nonce.
        and_then (header "x-shellfleet-signature" req) (λ signature. some (record {
          key_id = key_id;
          timestamp = timestamp;
          nonce = nonce;
          signature = signature;
          direction = ee_to_ce;
        })))))

abbrev pub content_of : EeRequest → List ℕ → Content
content_of req body = record {
  method = req.method;
  path_and_query = req.path_and_query;
  body = body;
  content_type = optional_header "content-type" req;
  login = optional_header "x-shellfleet-login" req;
  role = optional_header "x-shellfleet-role" req;
}

-- Whether a request passes as far as its nonce: its signed part, or the refusal.
unfoldable pub vetted :
    Server → Option Config → ℕ → EeRequest → Result Response (Config × SignedRequest)
unfolding read_signed
vetted server config now req = do
  config ← ok_or config (signed_error server 503 "internal auth unavailable")
  signed ← ok_or (read_signed server req) (signed_error server 401 "unauthorized")
  body ← ok_or req.body (signed_error server 413 "body too large")
  elim (verify_request server.prims config.ee_to_ce_keys ee_to_ce signed now
      (content_of req body)) [
        | err e ↦ err (signed_error server 401 "unauthorized")
        | ok done ↦ ok (config, signed)
      ]

-- The request without the headers of the signature.
abbrev pub stripped : EeRequest → EeRequest
stripped req = record {
  method = req.method;
  path_and_query = req.path_and_query;
  headers = erase "x-shellfleet-key-id" (
      erase "x-shellfleet-timestamp"
        (erase "x-shellfleet-nonce" (erase "x-shellfleet-signature" req.headers)));
  body = req.body;
}

-- `none` where the response cannot be signed.
unfoldable pub sign_axum_response : Server → Config → String → Response → Option Response
sign_axum_response server config nonce response =
    if not (server.fits response.body)
    then none
    else elim (do
      key ← find_key config.ce_to_ee_keys config.ce_to_ee_active
      sign_response server.prims key ce_to_ee nonce response.status response.body) [
        | err e ↦ none
        | ok signed ↦
            if server.is_value signed.key_id
            then (if server.is_value signed.signature
                then some (record {
                  status = response.status;
                  body = response.body;
                  signed = some signed;
                })
                else none)
            else none
      ]

unfoldable pub signed_or : Server → Config → String → Response → Response
unfolding sign_axum_response
signed_or server config nonce response = elim (sign_axum_response server config nonce response) [
  | none ↦ signed_error server 500 "auth failure"
  | some signed ↦ signed
]

-- Whether the handler ran, and the response. The clock is read twice: as the request is verified, and as its nonce is consumed.
unfoldable pub require_ee_signature :
    Server
    → Option Config
    → (EeRequest → Response)
    → ℕ
    → ℕ
    → Bool
    → EeRequest
    → List NonceRow
    → (Bool × Response) × List NonceRow
unfolding vetted signed_or
require_ee_signature server config next verified_at consumed_at down req rows =
    elim (vetted server config verified_at req) [
      | err response ↦ ((false, response), rows)
      | ok (config, signed) ↦
          let (consumed, left) =
            consume_nonce down ee_to_ce signed.key_id signed.nonce consumed_at rows in
          elim consumed [
            | err e ↦ (
              (
                false,
                signed_or server config signed.nonce (signed_error server 409 "replayed request"),
              ),
              left,
            )
            | ok done ↦ ((true, signed_or server config signed.nonce (next (stripped req))), left)
          ]
    ]
