-- ===== src/Trusted/Tests.antt =====
-- The trusted channel at concrete values.
use shellfleet.Common.{
  true, ℕ, ◌≤◌, ◌≡◌, refl, sym, ◌↔◌, none, some, List, [], ◌∷◌, ◌++◌, nat_eq, string_eq, leb,
  length,
}
use shellfleet.Common.Result.{ok}
use shellfleet.Common.Dict.{insert}
use shellfleet.Trusted.Wire.{TrustedOperation, root_command, TrustedManifest, SignedTrustedManifest}
use shellfleet.Trusted.Framing.{write_u32, is_frame_length, write_frame, read_frame}
use shellfleet.Trusted.Frames.{read_frame-write_frame}
use shellfleet.Trusted.Approval.{Env, Fault, Requests, approve}
use shellfleet.Trusted.Once.{IsApproved, consumed_row, approve_iff}
use shellfleet.Trusted.Consumed.{Step, approves, approvals, approved_once}
use shellfleet.Trusted.Transport.{Crypto, Transport, nonce, next_counter, encrypt}
use shellfleet.Trusted.Ordered.{Unseals, InStep, decrypt_all, decrypt_all-encrypt_all}

abbrev id_command : TrustedOperation
id_command = root_command "/usr/bin/id" ("-u" ∷ []) 10

abbrev hello : List ℕ
hello = 104 ∷ 105 ∷ []

abbrev hello_frame : List ℕ
hello_frame = 0 ∷ 0 ∷ 0 ∷ 2 ∷ 104 ∷ 105 ∷ []

read_frame-write_frame_example : read_frame (hello_frame ++ 1 ∷ []) ≡ ok (hello, 1 ∷ [])
unfolding write_frame is_frame_length write_u32
read_frame-write_frame_example = read_frame-write_frame hello hello_frame (1 ∷ []) refl

-- A signature scheme that only compares, and one encoding for every manifest.
abbrev env : Env
env = record {
  host_id = "host";
  host_public = 1 ∷ [];
  transport_public = 2 ∷ [];
  policy_version = "builtin-v1";
  canonical_bytes = λ m. ok (m.created_at ∷ []);
  sign = λ bytes. bytes;
  is_key = λ key. true;
  verify = λ key message signature. leb (length message) (length signature);
}

abbrev manifest : TrustedManifest
manifest = record {
  version = 1;
  request_id = "request-1";
  host_id = "host";
  operation = id_command;
  client_ephemeral_public = 3 ∷ [];
  broker_transport_public = 2 ∷ [];
  nonce = 4 ∷ [];
  created_at = 100;
  expires_at = 170;
  policy_version = "builtin-v1";
}

abbrev signed : SignedTrustedManifest
signed = record { manifest = manifest; host_identity_public = 1 ∷ []; signature = 100 ∷ [] }

abbrev table : Requests
table =
    (
      "request-1",
      record { manifest = 100 ∷ []; status = "pending"; expires_at = 170; consumed_at = none },
    )
    ∷ []

abbrev no_fault : Fault
no_fault = none

abbrev table_after : Requests
table_after =
    insert "request-1"
      (record {
        manifest = 100 ∷ [];
        status = "consumed";
        expires_at = 170;
        consumed_at = some 120;
      })
      table

approve_iff_example :
    (approve env (ok (("bob", 9 ∷ []) ∷ [])) 120 no_fault signed (9 ∷ []) (5 ∷ []) table
      ≡ ok (manifest, table_after))
    ↔ ((a : IsApproved env (("bob", 9 ∷ []) ∷ []) 120 signed (9 ∷ []) (5 ∷ []) table) × (no_fault
          ≡ none)
        × (manifest ≡ manifest)
        × (table_after ≡ insert "request-1" (consumed_row 120 a.row) table))
approve_iff_example =
    approve_iff env (("bob", 9 ∷ []) ∷ []) 120 signed (9 ∷ []) (5 ∷ []) table no_fault manifest
      table_after

abbrev twice : List Step
twice =
    approves (ok (("bob", 9 ∷ []) ∷ [])) 120 none signed (9 ∷ []) (5 ∷ [])
    ∷ approves (ok (("bob", 9 ∷ []) ∷ [])) 121 none signed (9 ∷ []) (5 ∷ [])
    ∷ []

approved_once_example : approvals env "request-1" table twice ≤ 1
approved_once_example = approved_once env "request-1" table twice

-- A cipher that does nothing.
abbrev crypto : Crypto
crypto = record {
  seal = λ key nonce aad plaintext. some plaintext;
  unseal = λ key nonce aad ciphertext. some ciphertext;
  hkdf_expand = λ secret salt info. some secret;
  sha256 = λ bytes. bytes;
  diffie_hellman = λ secret public. 6 ∷ [];
  as_bytes = λ s. [];
}

abbrev end_of_host : Transport
end_of_host = record {
  send = 6 ∷ [];
  receive = 6 ∷ [];
  send_counter = 0;
  receive_counter = 0;
  request_id = "request-1";
}

abbrev two_sent : Transport
two_sent = record end_of_host { send_counter = 2 }

abbrev frames : List (ℕ × List ℕ)
frames = (0, hello) ∷ (1, 7 ∷ []) ∷ []

plain-Unseals : Unseals crypto
plain-Unseals key nonce aad plaintext ciphertext h = sym h

decrypt_all-encrypt_all_example :
    (end : Transport) × (decrypt_all crypto end_of_host frames ≡ ok (hello ∷ (7 ∷ []) ∷ [], end))
    × InStep two_sent end
unfolding encrypt next_counter
decrypt_all-encrypt_all_example =
    decrypt_all-encrypt_all crypto end_of_host end_of_host two_sent (hello ∷ (7 ∷ []) ∷ []) frames
      plain-Unseals (record { key = refl; counter = refl; request = refl }) refl
