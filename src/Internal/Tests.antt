-- ===== src/Internal/Tests.antt =====
-- Signed requests between the server and the sidecar at concrete values.
use shellfleet.Common.{
  none, ℕ, zero, suc, ◌≤◌, ◌≡◌, ◌⊎◌, refl, arith, false, true, ltb, length, Bool-cases, inl, inr,
  some, List, [], ◌∷◌, ◌==◌, string_eq, nat_eq, bytes_eq, if◌then◌else◌,
}
use shellfleet.Common.Int.{pos}
use shellfleet.Trusted.Framing.{write_u32}
use shellfleet.Internal.Canonical.{
  ee_to_ce, Primitives, Content, append_field, append_fields, canonical_request,
}
use shellfleet.Internal.Signed.{
  InternalKey, SignedRequest, signature, find_key, validate_nonce, verify_signature, sign_request,
  verify_request,
}
use shellfleet.Internal.Gate.{Config, EeRequest, Response, Server}
use shellfleet.Internal.Tampering.{IsSame, IsCollision, signed_exact}
use shellfleet.Internal.Replay.{Arrival, IsTimely, accepted, accepted_once}

abbrev nonce_bytes : ℕ → List ℕ
nonce_bytes zero = []
nonce_bytes (suc n) = n ∷ nonce_bytes n

-- Short texts have one HMAC, which is the key, and long ones another.
abbrev prims : Primitives
prims = record {
  as_bytes = λ s. if s == "POST" then 1 ∷ 2 ∷ [] else 3 ∷ [];
  signed_text = λ t. "1000";
  number_text = λ n. "200";
  hmac = λ secret text. if ltb (length text) 200 then secret else [];
  encode = λ bytes. if bytes == 7 ∷ [] then "s1" else (if bytes == [] then "s0" else "n1");
  decode = λ s.
      if s == "s1" then some (7 ∷ []) else (if s == "s0" then some [] else some (nonce_bytes 32));
}

abbrev key : InternalKey
key = record { id = "k1"; secret = 7 ∷ [] }

decodes :
    (text : List ℕ) → prims.decode (signature prims key text) ≡ some (prims.hmac key.secret text)
unfolding signature
decodes text = elim (Bool-cases (ltb (length text) 200)) [
  | inl short ↦ rw short refl
  | inr long ↦ rw long refl
]

abbrev server : Server
server = record {
  prims = prims;
  parse_i64 = λ s. some (pos 1000);
  is_value = λ s. true;
  fits = λ body. true;
}

abbrev audit_request : EeRequest
audit_request = record {
  method = "POST";
  path_and_query = "/api/ee/audit";
  headers =
      ("x-shellfleet-key-id", some "k1")
      ∷ ("x-shellfleet-timestamp", some "1000")
      ∷ ("x-shellfleet-nonce", some "n1")
      ∷ ("x-shellfleet-signature", some "s1")
      ∷ [];
  body = some [];
}

abbrev config : Config
config = record { ce_to_ee_keys = []; ce_to_ee_active = "k0"; ee_to_ce_keys = key ∷ [] }

abbrev arrival : ℕ → ℕ → Arrival
arrival verified_at consumed_at = record {
  req = audit_request;
  config = some config;
  verified_at = verified_at;
  consumed_at = consumed_at;
  down = false;
}

abbrev done : EeRequest → Response
done req = record { status = 200; body = []; signed = none }

accepted_once_example :
    accepted server done "k1" "n1" (pos 1000) (arrival 990 990 ∷ arrival 1100 1101 ∷ []) [] ≤ 1
unfolding IsTimely
accepted_once_example =
    accepted_once server done "k1" "n1" (pos 1000) 0 (arrival 990 990 ∷ arrival 1100 1101 ∷ []) []
      (ground arith)

abbrev content : Content
content = record {
  method = "POST";
  path_and_query = "/api/ee/audit";
  body = 5 ∷ [];
  content_type = "";
  login = "";
  role = "";
}

abbrev signed : SignedRequest
signed = record {
  key_id = "k1";
  timestamp = pos 1000;
  nonce = "n1";
  signature = "s1";
  direction = ee_to_ce;
}

signed_exact_example :
    IsSame prims content content
    ⊎ IsCollision prims key.secret
        (canonical_request prims ee_to_ce "k1" (pos 1000) (prims.encode (nonce_bytes 32)) content)
        (canonical_request prims ee_to_ce "k1" (pos 1000) "n1" content)
unfolding signature sign_request find_key verify_request canonical_request append_fields
    append_field validate_nonce verify_signature write_u32
signed_exact_example =
    signed_exact prims (key ∷ []) key ee_to_ce ee_to_ce (pos 1000) (nonce_bytes 32) content content
      signed 1001 decodes refl refl refl
