-- ===== src/Internal/Tampering.antt =====
-- shared/src/internal_auth.rs: what the bytes of a signature tie together.
use shellfleet.Common.{
  some, ℕ, ◌^◌, ◌<◌, ◌≡◌, ◌≢◌, ◌⊎◌, inl, inr, refl, sym, ap, ◌∙◌, String, List, [], ◌∷◌, ◌++◌,
  arith, ltb, Bool-cases, length, take-append, drop-append, bytes_eq, bytes_beq_iff, ◌==◌,
}
use mathlib.Core.List.{append_assoc, append-nil}
use shellfleet.Common.Int.{ℤ}
use shellfleet.Common.Result.{Result, Result-cases, ok}
use shellfleet.Internal.Signed.{
  InternalKey, SignedRequest, find_key, signature, sign_request, verify_request, verify_signature,
}
use shellfleet.Trusted.Framing.{write_u32, read_u32}
use shellfleet.Trusted.Frames.{read_u32-write_u32}
use shellfleet.Internal.Canonical.{
  Direction, AuthError, Primitives, Content, append_field, append_fields, request_fields,
  canonical_request,
}

-- The bytes that the loop adds.
abbrev joined : List (List ℕ) → List ℕ
joined [] = []
joined (field ∷ fields) = write_u32 (length field) ++ (field ++ joined fields)

abbrev AreShort : List (List ℕ) → Type 0
AreShort [] = Unit {0}
AreShort (field ∷ fields) = (length field < 2 ^ 32) × AreShort fields

append_fields_ok :
    (output bytes : List ℕ) (fields : List (List ℕ))
    → append_fields output fields ≡ ok bytes
    → (bytes ≡ output ++ joined fields) × AreShort fields
unfolding append_fields append_field
append_fields_ok output bytes [] h = (cc (h, append-nil output), tt)
append_fields_ok output bytes (field ∷ fields) h = elim (Bool-cases (ltb (length field) (2 ^ 32))) [
  | inr long ↦ ground arith
  | inl short ↦
      let head : List ℕ = write_u32 (length field) ++ field in
      let (same, rest_short) = append_fields_ok (output ++ head) bytes fields (ground arith) in
      (
        same
            ∙ append_assoc output head (joined fields)
            ∙ ap (λ tail. output ++ tail)
                (append_assoc (write_u32 (length field)) field (joined fields)),
        (ground arith, rest_short),
      )
]

-- Fields that are joined to the same bytes are the same.
joined_injective :
    (fs gs : List (List ℕ)) → AreShort fs → AreShort gs → joined fs ≡ joined gs → fs ≡ gs
unfolding write_u32
joined_injective [] [] short short' h = refl
joined_injective [] (g ∷ gs) short short' h = cc h
joined_injective (f ∷ fs) [] short short' h = cc h
joined_injective (f ∷ fs) (g ∷ gs) (f_short, fs_short) (g_short, gs_short) h =
    let read =
      sym (read_u32-write_u32 (length f) (f ++ joined fs) f_short)
      ∙ ap read_u32 h
      ∙ read_u32-write_u32 (length g) (g ++ joined gs) g_short in
    let same_length : length f ≡ length g = cc read in
    let same_rest : f ++ joined fs ≡ g ++ joined gs = cc in
    let first : f ≡ g =
      cc (take-append f (joined fs), take-append g (joined gs), same_length, same_rest) in
    let others : joined fs ≡ joined gs =
      cc (drop-append f (joined fs), drop-append g (joined gs), same_length, same_rest) in
    cc (first, joined_injective fs gs fs_short gs_short others)

-- Two different texts, the signed bytes of two requests, with the same HMAC under a key.
pub record IsCollision (prims : Primitives) (secret : List ℕ)
    (of_first of_second : Result AuthError (List ℕ)) : Type 0 where
  pub first : List ℕ
  pub second : List ℕ
  pub signs_first : of_first ≡ ok first
  pub signs_second : of_second ≡ ok second
  pub differ : first ≢ second
  pub collide : prims.hmac secret first ≡ prims.hmac secret second

-- Two requests whose parts are of the same bytes.
pub record IsSame (prims : Primitives) (c d : Content) : Type 0 where
  pub same_method : prims.as_bytes c.method ≡ prims.as_bytes d.method
  pub same_path : prims.as_bytes c.path_and_query ≡ prims.as_bytes d.path_and_query
  pub same_body : c.body ≡ d.body
  pub same_type : prims.as_bytes c.content_type ≡ prims.as_bytes d.content_type
  pub same_login : prims.as_bytes c.login ≡ prims.as_bytes d.login
  pub same_role : prims.as_bytes c.role ≡ prims.as_bytes d.role

module _ (prims : Primitives) where
  canonical_injective :
      (d e : Direction) (k l : String) (t u : ℤ) (n m : String) (c c2 : Content) (bytes : List ℕ)
      → canonical_request prims d k t n c ≡ ok bytes
      → canonical_request prims e l u m c2 ≡ ok bytes
      → IsSame prims c c2
  unfolding canonical_request
  canonical_injective d e k l t u n m c c2 bytes h h2 =
      let (same, short) = append_fields_ok [] bytes (request_fields prims d k t n c) h in
      let (same2, short2) = append_fields_ok [] bytes (request_fields prims e l u m c2) h2 in
      let fields =
        joined_injective (request_fields prims d k t n c) (request_fields prims e l u m c2) short
          short2 (sym same ∙ same2) in
      record {
        same_method = cc fields;
        same_path = cc fields;
        same_body = cc fields;
        same_type = cc fields;
        same_login = cc fields;
        same_role = cc fields;
      }

  sign_ok :
      (key : InternalKey) (sent : Direction) (stamp : ℤ) (nonce : List ℕ) (content : Content)
      (signed : SignedRequest)
      → sign_request prims key sent stamp nonce content ≡ ok signed
      → (bytes : List ℕ) × (canonical_request prims sent key.id stamp (prims.encode nonce) content
          ≡ ok bytes)
        × (signed.key_id ≡ key.id)
        × (signed.signature ≡ signature prims key bytes)
  unfolding sign_request
  sign_ok key sent stamp nonce content signed h =
      elim (Result-cases (canonical_request prims sent key.id stamp (prims.encode nonce) content)) [
        | inl (bytes, made) ↦ (bytes, made, ground arith, ground arith)
        | inr (e, failed) ↦ ground arith
      ]

  verify_ok :
      (keys : List InternalKey) (key : InternalKey) (asked : Direction) (signed : SignedRequest)
      (now : ℕ) (claimed : Content)
      → find_key keys signed.key_id ≡ ok key
      → verify_request prims keys asked signed now claimed ≡ ok tt
      → (bytes : List ℕ) × (canonical_request prims asked signed.key_id signed.timestamp
            signed.nonce claimed
          ≡ ok bytes)
        × (verify_signature prims key bytes signed.signature ≡ ok tt)
  unfolding verify_request
  verify_ok keys key asked signed now claimed known h =
      elim (Result-cases
        (canonical_request prims asked signed.key_id signed.timestamp signed.nonce claimed)) [
          | inl (bytes, made) ↦ (bytes, made, ground arith)
          | inr (e, failed) ↦ ground arith
        ]

  same_mac :
      (key : InternalKey) (bytes asked : List ℕ)
      → prims.decode (signature prims key bytes) ≡ some (prims.hmac key.secret bytes)
      → verify_signature prims key asked (signature prims key bytes) ≡ ok tt
      → prims.hmac key.secret asked ≡ prims.hmac key.secret bytes
  unfolding verify_signature signature
  same_mac key bytes asked base64 h =
      (bytes_beq_iff (prims.hmac key.secret asked) (prims.hmac key.secret bytes)).0 (ground arith)

  -- A signed request passes a verification only with a method, path and query, body, content type,
  -- login and role of the same bytes as it was signed for, unless the bytes that are signed and those
  -- that are verified are two texts with one HMAC under the key; where base64 decodes the key's
  -- signatures to what they encode, and the keyring has the key.
  pub signed_exact :
      (keys : List InternalKey) (key : InternalKey) (sent asked : Direction) (stamp : ℤ)
      (nonce : List ℕ) (content claimed : Content) (signed : SignedRequest) (now : ℕ)
      → ((text : List ℕ)
          → prims.decode (signature prims key text) ≡ some (prims.hmac key.secret text))
      → sign_request prims key sent stamp nonce content ≡ ok signed
      → find_key keys key.id ≡ ok key
      → verify_request prims keys asked signed now claimed ≡ ok tt
      → IsSame prims content claimed
        ⊎ IsCollision prims key.secret
            (canonical_request prims sent key.id stamp (prims.encode nonce) content)
            (canonical_request prims asked signed.key_id signed.timestamp signed.nonce claimed)
  signed_exact keys key sent asked stamp nonce content claimed signed now base64 made known passed =
      let (bytes, signs, same_key, signature_made) =
        sign_ok key sent stamp nonce content signed made in
      let (asked_bytes, asks, verified) =
        verify_ok keys key asked signed now claimed (ap (find_key keys) same_key ∙ known) passed in
      let collide =
        same_mac key bytes asked_bytes (base64 bytes)
          (ap (verify_signature prims key asked_bytes) (sym signature_made) ∙ verified) in
      elim (Bool-cases (bytes == asked_bytes)) [
        | inl same ↦
            let one = (bytes_beq_iff bytes asked_bytes).0 same in
            inl (
              canonical_injective sent asked key.id signed.key_id stamp signed.timestamp
                (prims.encode nonce) signed.nonce content claimed bytes signs
                (asks ∙ ap ok (sym one)))
        | inr other ↦ inr (record {
          first = bytes;
          second = asked_bytes;
          signs_first = signs;
          signs_second = asks;
          differ = λ one. cc (other, (bytes_beq_iff bytes asked_bytes).1 one);
          collide = sym collide;
        })
      ]
