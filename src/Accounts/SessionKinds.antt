-- ===== src/Accounts/SessionKinds.antt =====
-- server/src/auth.rs: whom `current_user` lets through, and the three kinds of token.
use shellfleet.Common.{
  bit, otherwise, ℕ, ◌+◌, ◌≤◌, ◌≡◌, refl, ap, sym, ◌∙◌, ◌↔◌, Bool, true, false, not, String, Option,
  none, some, arith, string_eq, nat_eq, leb, otherwise, Bool-cases, Option-cases, inl, inr,
}
use shellfleet.Common.Result.{Result, ok, err, ok_or, guard, >>=-eq-ok, guard_ok, ok_or_ok}
use shellfleet.Accounts.{UserRow, UserAnswer}
use shellfleet.Accounts.Session.{
  AuthEnv, Claims, dev_mode, is_user_allowed, claims_from_token, with_role, resolve, live_user,
  current_user, current_cli_user, pending_mfa_user,
}

-- What the claims of a request stand for.
pub record IsCurrent (env : AuthEnv) (cookie : Option String) (users : String → UserAnswer)
    (claims : Claims) : Type 0 where
  pub value : String
  pub token : Claims
  pub row : UserRow
  pub sent : cookie ≡ some value
  pub decoded : env.decode value ≡ some token
  pub allowed : is_user_allowed env token.sub ≡ true
  pub verified : token.mfa ≡ true
  pub browser : token.cli ≡ false
  pub known : users token.sub ≡ ok (some row)
  pub current : row.session_epoch ≤ token.iat
  pub resolved : claims ≡ with_role row.role token

claims_from_token-some :
    (env : AuthEnv) (value : String) (c : Claims)
    → claims_from_token env value ≡ some c
    → (env.decode value ≡ some c) × (is_user_allowed env c.sub ≡ true)
unfolding claims_from_token
claims_from_token-some env value c found = elim (Option-cases (env.decode value)) [
  | inl nothing ↦ ground arith
  | inr (d, is) ↦
      let allowed : is_user_allowed env d.sub ≡ true = ground arith in
      let same : d ≡ c = ground arith in (is ∙ ap some same, rw⁻¹ same allowed)
]

pub resolve_ok :
    (c : Claims) (answer : UserAnswer) (claims : Claims)
    → resolve c answer ≡ ok claims
    → (row : UserRow) × (answer ≡ ok (some row))
      × (row.session_epoch ≤ c.iat)
      × (claims ≡ with_role row.role c)
unfolding resolve
resolve_ok c (err e) claims h = cc
resolve_ok c (ok none) claims h = cc
resolve_ok c (ok (some row)) claims h = elim (Bool-cases (leb row.session_epoch c.iat)) [
  | inl young ↦ (row, refl, ground arith, ground arith)
  | inr old ↦ ground arith
]

not-true : (b : Bool) → not b ≡ true → b ≡ false
not-true b h = ground arith

live_sound :
    (env : AuthEnv) (cookie : Option String) (users : String → UserAnswer) (claims : Claims)
    → live_user env cookie users ≡ ok claims
    → IsCurrent env cookie users claims
unfolding live_user
live_sound env cookie users claims h =
    let (value, sent, h) = >>=-eq-ok (ok_or cookie _) _ h in
    let (c, found, h) = >>=-eq-ok (ok_or (claims_from_token env value) _) _ h in
    let (_, verified, h) = >>=-eq-ok (guard c.mfa _) _ h in
    let (_, browser, h) = >>=-eq-ok (guard (not c.cli) _) _ h in
    let (row, known, young, same) = resolve_ok c (users c.sub) claims h in
    let (decoded, allowed) = claims_from_token-some env value c (ok_or_ok _ _ found) in
    record {
      value = value;
      token = c;
      row = row;
      sent = ok_or_ok _ _ sent;
      decoded = decoded;
      allowed = allowed;
      verified = guard_ok _ _ verified;
      browser = not-true _ (guard_ok _ _ browser);
      known = known;
      current = young;
      resolved = same;
    }

live_complete :
    (env : AuthEnv) (cookie : Option String) (users : String → UserAnswer) (claims : Claims)
    → IsCurrent env cookie users claims
    → live_user env cookie users ≡ ok claims
unfolding live_user claims_from_token resolve
live_complete env cookie users claims s =
    rw (s.sent, s.decoded, s.allowed, s.verified, s.browser, s.known, s.resolved)
      (let young = s.current in ground arith)

pub live_current :
    (env : AuthEnv) (cookie : Option String) (users : String → UserAnswer)
    → dev_mode env ≡ false
    → current_user env cookie users ≡ live_user env cookie users
unfolding current_user
live_current env cookie users live = otherwise _ _ live

-- Outside of development, a request is made for a user exactly if its session cookie decodes to a
-- token of a user on the allowlist, verified by the second factor and not a command line's, and the
-- user has a row whose session epoch is not after the token's issue; its role is then that row's,
-- whatever the token says.
pub current_user_iff :
    (env : AuthEnv) (cookie : Option String) (users : String → UserAnswer) (claims : Claims)
    → dev_mode env ≡ false
    → (current_user env cookie users ≡ ok claims) ↔ IsCurrent env cookie users claims
current_user_iff env cookie users claims live = (
  λ h. live_sound env cookie users claims (sym (live_current env cookie users live) ∙ h),
  λ s. live_current env cookie users live ∙ live_complete env cookie users claims s,
)

abbrev pub is_ok {ℓ κ} : {E : Type ℓ} {A : Type κ} → Result E A → Bool
is_ok (err e) = false
is_ok (ok a) = true

-- The number of kinds of session that a token is good for: a browser's, a command line's, and one
-- that waits for the second factor.
abbrev pub kinds : AuthEnv → String → (first second third : String → UserAnswer) → ℕ
kinds env token first second third =
    bit (is_ok (current_user env (some token) first))
    + bit (is_ok (current_cli_user env token second))
    + bit (is_ok (pending_mfa_user env (some token) third))

-- Outside of development, a token is good for one kind of session at most, whatever the database
-- answers each time.
pub one_kind :
    (env : AuthEnv) (token : String) (first second third : String → UserAnswer)
    → dev_mode env ≡ false
    → kinds env token first second third ≤ 1
unfolding current_cli_user pending_mfa_user live_user
one_kind env token first second third live =
    let browser = live_current env (some token) first live in
    elim (Option-cases (claims_from_token env token)) [
      | inl nothing ↦ ground arith
      | inr (c, found) ↦ ground arith
    ]
