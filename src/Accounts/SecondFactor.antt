-- ===== src/Accounts/SecondFactor.antt =====
-- server/src/mfa.rs: which codes are taken, what becomes of a recovery code, and what an enrollment
-- replaces.
use shellfleet.Common.{
  ℕ, ◌+◌, ◌-◌, ◌≤◌, ◌≡◌, ◌↔◌, refl, ap, ◌∙◌, sym, true, String, some, List, [], ◌∷◌, arith, ◌==◌,
  string_eq, nat_eq, nat_beq_iff, zero, suc, ◌/◌, ◌%◌, length, length-append, all, map, Bool-cases,
  Option-cases, inl, inr,
}
use shellfleet.Common.Texts.{trim}
use shellfleet.Accounts.Totp.{
  Primitives, codes, is_digit, upper, bytes_match, padded, hotp, totp_digits, current_step,
  is_code_of, in_window, verify_totp,
}

bytes_match_iff : (xs ys : List ℕ) → (bytes_match xs ys ≡ true) ↔ (xs ≡ ys)
unfolding bytes_match
bytes_match_iff [] [] = (λ h. refl, λ h. refl)
bytes_match_iff [] (y ∷ ys) = (λ h. cc, λ h. cc)
bytes_match_iff (x ∷ xs) [] = (λ h. cc, λ h. cc)
bytes_match_iff (x ∷ xs) (y ∷ ys) =
    (λ h. ground (arith, bytes_match_iff xs ys), λ h. ground (arith, bytes_match_iff xs ys))

-- A code that is taken: six digits that the secret gives for a step near the current one.
pub record IsCode (prims : Primitives) (secret_b32 entered : String) (now : ℕ) : Type 0 where
  pub secret : List ℕ
  pub step : ℕ
  pub decoded : prims.base32_decode (map upper (codes secret_b32)) ≡ some secret
  pub digits : all is_digit (codes (trim entered)) ≡ true
  pub near : (step ≤ current_step now + 1) × (current_step now ≤ step + 1)
  pub same : codes (trim entered) ≡ padded totp_digits (hotp prims secret step)

module _ (prims : Primitives) (secret entered : List ℕ) where
  code_is :
      (step : ℕ)
      → is_code_of prims secret entered step ≡ true
      → entered ≡ padded totp_digits (hotp prims secret step)
  code_is step h = sym ((bytes_match_iff (padded totp_digits (hotp prims secret step)) entered).0 h)

  is_code :
      (step : ℕ)
      → entered ≡ padded totp_digits (hotp prims secret step)
      → is_code_of prims secret entered step ≡ true
  is_code step same =
      (bytes_match_iff (padded totp_digits (hotp prims secret step)) entered).1 (sym same)

  in_window_iff :
      (now : ℕ)
      → (in_window prims secret entered now ≡ true) ↔ (
          (step : ℕ) × ((step ≤ now + 1) × (now ≤ step + 1))
          × (entered ≡ padded totp_digits (hotp prims secret step)))
  unfolding in_window
  in_window_iff now = (
    λ h. elim (Bool-cases (is_code_of prims secret entered (now - 1))) [
      | inl before ↦ (now - 1, (ground arith, ground arith), code_is (now - 1) before)
      | inr earlier ↦ elim (Bool-cases (is_code_of prims secret entered now)) [
        | inl on ↦ (now, (ground arith, ground arith), code_is now on)
        | inr off ↦ (now + 1, (ground arith, ground arith), code_is (now + 1) (ground arith))
      ]
    ],
    λ (step, (low, high), same).
        let taken = is_code step same in
        elim (Bool-cases (step == now)) [
          | inl here ↦
              let h : step ≡ now = (nat_beq_iff step now).0 here in
              let t : is_code_of prims secret entered now ≡ true = rw⁻¹ h taken in ground arith
          | inr other ↦ elim (Bool-cases (step == now + 1)) [
            | inl after ↦
                let h : step ≡ now + 1 = (nat_beq_iff step (now + 1)).0 after in
                let t : is_code_of prims secret entered (now + 1) ≡ true = rw⁻¹ h taken in
                ground arith
            | inr before ↦
                let h : step ≡ now - 1 =
                  ground (arith, nat_beq_iff step now, nat_beq_iff step (now + 1)) in
                let t : is_code_of prims secret entered (now - 1) ≡ true = rw⁻¹ h taken in
                ground arith
          ]
        ],
  )

padded-length : (k n : ℕ) → length (padded k n) ≡ k
unfolding padded
padded-length zero n = refl
padded-length (suc k) n =
    length-append (padded k (n / 10)) ((48 + n % 10) ∷ [])
    ∙ ground (arith, padded-length k (n / 10))

-- A code is taken exactly if the secret decodes, the code is of six digits, and these are what the
-- secret gives for the current step of thirty seconds, the one before or the one after.
pub verify_totp_iff :
    (prims : Primitives) (secret_b32 entered : String) (now : ℕ)
    → (verify_totp prims secret_b32 entered now ≡ true) ↔ IsCode prims secret_b32 entered now
unfolding verify_totp
verify_totp_iff prims secret_b32 entered now = (
  λ h. elim (Option-cases (prims.base32_decode (map upper (codes secret_b32)))) [
    | inl nothing ↦ ground arith
    | inr (secret, decoded) ↦
        let window : in_window prims secret (codes (trim entered)) (current_step now) ≡ true =
          ground arith in
        let (step, near, same) =
          (in_window_iff prims secret (codes (trim entered)) (current_step now)).0 window in
        record {
          secret = secret;
          step = step;
          decoded = decoded;
          digits = ground arith;
          near = near;
          same = same;
        }
  ],
  λ c.
      let window =
        (in_window_iff prims c.secret (codes (trim entered)) (current_step now)).1
          (c.step, c.near, c.same) in
      let size : length (codes (trim entered)) ≡ totp_digits =
        ap length c.same ∙ padded-length totp_digits (hotp prims c.secret c.step) in
      let digits = c.digits in let decoded = c.decoded in ground arith,
)
