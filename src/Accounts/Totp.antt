-- ===== src/Accounts/Totp.antt =====
-- server/src/mfa.rs: the codes of an authenticator and the recovery codes, on bytes. The base-32
-- alphabet, HMAC-SHA1 and SHA-256 are libraries and are arguments.
use Prim.Native.Char.{code}
use shellfleet.Common.{
  ℕ, zero, suc, ◌+◌, ◌-◌, ◌*◌, ◌/◌, ◌%◌, ◌^◌, Bool, true, false, not, ◌&&◌, ◌||◌, String, Option,
  none, some, List, [], ◌∷◌, ◌++◌, ◌==◌, nat_eq, if◌then◌else◌, leb, nat_beq, length, all, map,
}
use shellfleet.Common.Texts.{trim}

abbrev pub totp_period : ℕ
totp_period = 30

abbrev pub totp_digits : ℕ
totp_digits = 6

pub record Primitives : Type 0 where
  pub base32_decode : List ℕ → Option (List ℕ)
  pub hmac_sha1 : List ℕ → List ℕ → List ℕ
  pub sha256_hex : List ℕ → String

-- The characters of a text by their codes: its bytes, where it is ASCII.
unfoldable pub codes : String → List ℕ
codes String.[] = []
codes (String.◌∷◌ c s) = code c ∷ codes s

abbrev between : ℕ → ℕ → ℕ → Bool
between low high c = leb low c && leb c high

abbrev pub is_digit : ℕ → Bool
is_digit c = between 48 57 c

abbrev pub upper : ℕ → ℕ
upper c = if between 97 122 c then c - 32 else c

abbrev is_alphanumeric : ℕ → Bool
is_alphanumeric c = is_digit c || between 65 90 c || between 97 122 c

-- The low bytes of a number, the highest first.
unfoldable pub to_be_bytes : ℕ → ℕ → List ℕ
to_be_bytes zero n = []
to_be_bytes (suc k) n = to_be_bytes k (n / 256) ++ (n % 256 ∷ [])

abbrev byte_at : ℕ → List ℕ → ℕ
byte_at i [] = 0
byte_at zero (b ∷ bytes) = b
byte_at (suc i) (b ∷ bytes) = byte_at i bytes

-- HMAC-SHA1 gives 20 bytes, so that the offset is within them.
unfoldable pub truncated : List ℕ → ℕ
truncated hash =
    let offset : ℕ = byte_at (length hash - 1) hash % 16 in
    ((byte_at offset hash % 128) * 2 ^ 24
      + byte_at (offset + 1) hash * 2 ^ 16
      + byte_at (offset + 2) hash * 2 ^ 8
      + byte_at (offset + 3) hash)
    % 10 ^ totp_digits

unfoldable pub hotp : Primitives → List ℕ → ℕ → ℕ
unfolding to_be_bytes truncated
hotp prims secret counter = truncated (prims.hmac_sha1 secret (to_be_bytes 8 counter))

-- `format!("{:0width$}", n)` for a number of so many digits at most
unfoldable pub padded : ℕ → ℕ → List ℕ
padded zero n = []
padded (suc k) n = padded k (n / 10) ++ ((48 + n % 10) ∷ [])

unfoldable pub current_step : ℕ → ℕ
current_step now = now / totp_period

unfoldable pub bytes_match : List ℕ → List ℕ → Bool
bytes_match [] [] = true
bytes_match (a ∷ rest) (b ∷ bs) = nat_beq a b && bytes_match rest bs
bytes_match [] (b ∷ bs) = false
bytes_match (a ∷ rest) [] = false

abbrev pub is_code_of : Primitives → List ℕ → List ℕ → ℕ → Bool
is_code_of prims secret entered step =
    bytes_match (padded totp_digits (hotp prims secret step)) entered

-- The step before, the current one and the next. At step 0 the one before is 0 again.
unfoldable pub in_window : Primitives → List ℕ → List ℕ → ℕ → Bool
in_window prims secret entered step =
    is_code_of prims secret entered (step - 1)
    || is_code_of prims secret entered step
    || is_code_of prims secret entered (step + 1)

unfoldable pub verify_totp : Primitives → String → String → ℕ → Bool
unfolding codes in_window current_step
verify_totp prims secret_b32 entered now =
    elim (prims.base32_decode (map upper (codes secret_b32))) [
      | none ↦ false
      | some secret ↦
          let typed : List ℕ = codes (trim entered) in
          (if not (length typed == totp_digits) || not (all is_digit typed)
            then false
            else in_window prims secret typed (current_step now))
    ]

-- The letters and digits, in upper case.
unfoldable pub normalize_recovery : List ℕ → List ℕ
normalize_recovery [] = []
normalize_recovery (c ∷ cs) =
    if is_alphanumeric c then upper c ∷ normalize_recovery cs else normalize_recovery cs

unfoldable pub hash_recovery : Primitives → String → String
unfolding codes normalize_recovery
hash_recovery prims entered = prims.sha256_hex (normalize_recovery (codes entered))
