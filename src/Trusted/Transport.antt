-- ===== src/Trusted/Transport.antt =====
-- agent/src/privileged/crypto.rs: the encrypted channel of an approved operation. The cipher, the
-- key derivation and the key agreement are the environment's.
use shellfleet.Common.{
  ℕ, ◌+◌, ◌/◌, ◌%◌, ◌^◌, Bool, true, false, String, Option, List, [], ◌∷◌, ◌==◌, nat_eq, string_eq,
  if◌then◌else◌, ltb,
}
use shellfleet.Common.Result.{Result, ok, err, ◌>>=◌, ◌>>◌, guard, ok_or}

-- ChaCha20-Poly1305 with associated data, HKDF from a shared secret, a salt and a label, SHA-256,
-- and X25519. A message can be too long to encrypt, and a label too long to derive from.
pub record Crypto : Type 0 where
  pub seal : (key nonce aad plaintext : List ℕ) → Option (List ℕ)
  pub unseal : (key nonce aad ciphertext : List ℕ) → Option (List ℕ)
  pub hkdf_expand : (secret salt : List ℕ) (info : String) → Option (List ℕ)
  pub sha256 : List ℕ → List ℕ
  pub diffie_hellman : (secret public : List ℕ) → List ℕ
  pub as_bytes : String → List ℕ

pub record Transport : Type 0 where
  pub send : List ℕ
  pub receive : List ℕ
  pub send_counter : ℕ
  pub receive_counter : ℕ
  pub request_id : String

-- `u64::to_be_bytes`
abbrev be_bytes : ℕ → List ℕ
be_bytes n =
    (n / 2 ^ 56) % 256
    ∷ (n / 2 ^ 48) % 256
    ∷ (n / 2 ^ 40) % 256
    ∷ (n / 2 ^ 32) % 256
    ∷ (n / 2 ^ 24) % 256
    ∷ (n / 2 ^ 16) % 256
    ∷ (n / 2 ^ 8) % 256
    ∷ n % 256
    ∷ []

unfoldable pub nonce : ℕ → List ℕ
nonce counter = 0 ∷ 0 ∷ 0 ∷ 0 ∷ be_bytes counter

-- `checked_add(1)` on 64 bits
unfoldable pub next_counter : ℕ → Result String ℕ
next_counter n = if ltb (n + 1) (2 ^ 64) then ok (n + 1) else err "root transport counter exhausted"

module _ (crypto : Crypto) where
  unfoldable pub expand : List ℕ → List ℕ → String → Result String (List ℕ)
  expand shared manifest info =
      ok_or (crypto.hkdf_expand shared (crypto.sha256 manifest) info)
        "transport key derivation failed"

  unfoldable pub derive : List ℕ → List ℕ → String → Bool → Result String Transport
  unfolding expand
  derive shared manifest request_id client = do
    client_to_host ← expand shared manifest "shellfleet-root-client-to-host-v1"
    host_to_client ← expand shared manifest "shellfleet-root-host-to-client-v1"
    ok (record {
      send = if client then client_to_host else host_to_client;
      receive = if client then host_to_client else client_to_host;
      send_counter = 0;
      receive_counter = 0;
      request_id = request_id;
    })

  unfoldable pub broker : List ℕ → List ℕ → List ℕ → String → Result String Transport
  unfolding derive
  broker secret client_public manifest request_id =
      derive (crypto.diffie_hellman secret client_public) manifest request_id false

  unfoldable pub client : List ℕ → List ℕ → List ℕ → String → Result String Transport
  unfolding derive
  client secret broker_public manifest request_id =
      derive (crypto.diffie_hellman secret broker_public) manifest request_id true

  -- The frame, and the channel after it.
  unfoldable pub encrypt : Transport → List ℕ → Result String ((ℕ × List ℕ) × Transport)
  encrypt t plaintext = do
    bytes ←
        ok_or (crypto.seal t.send (nonce t.send_counter) (crypto.as_bytes t.request_id) plaintext)
          "root transport encryption failed"
    next ← next_counter t.send_counter
    ok ((t.send_counter, bytes), record t { send_counter = next })

  unfoldable pub decrypt : Transport → ℕ → List ℕ → Result String (List ℕ × Transport)
  decrypt t counter ciphertext = do
    guard (counter == t.receive_counter) "root transport frame replay or reordering detected"
    plaintext ←
        ok_or (crypto.unseal t.receive (nonce counter) (crypto.as_bytes t.request_id) ciphertext)
          "root transport authentication failed"
    next ← next_counter t.receive_counter
    ok (plaintext, record t { receive_counter = next })
