-- ===== src/Common/Result.antt =====
-- `Result<A, E>` and the `?` operator.
use mathlib.Core.Path.{◌≡◌, refl}
use mathlib.Core.Bool.{Bool, true, false}
use mathlib.Core.Logic.{◌⊎◌, inl, inr}
use mathlib.Core.Option.{Option, none, some}

pub data Result {ℓ κ} (E : Type ℓ) (A : Type κ) : Type (ℓ ⊔ κ) where
  err : (error : E) → Result E A
  ok : (value : A) → Result E A

module _ {ℓ} {E : Type ℓ} where
  infixl 5 ◌>>=◌
  -- `r?`, and what is done with the value
  abbrev pub ◌>>=◌ {κ μ} : {A : Type κ} {C : Type μ} → Result E A → (A → Result E C) → Result E C
  err error >>= rest = err error
  ok value >>= rest = rest value

  infixl 5 ◌>>◌
  abbrev pub ◌>>◌ {μ} : {C : Type μ} → Result E (Unit {0}) → Result E C → Result E C
  first >> rest = first >>= (λ nothing. rest)

  -- `if !test { return Err(e) }`
  abbrev pub guard : Bool → E → Result E (Unit {0})
  guard false refusal = err refusal
  guard true refusal = ok tt

  -- `ok_or`
  abbrev pub ok_or {κ} : {A : Type κ} → Option A → E → Result E A
  ok_or none e = err e
  ok_or (some a) e = ok a

  -- Inversion of a chain that succeeds: its first part does, and the rest does with its value.
  pub >>=-eq-ok {κ μ} :
      {A : Type κ} {C : Type μ} (first : Result E A) (rest : A → Result E C) {value : C}
      → (first >>= rest) ≡ ok value
      → (got : A) × (first ≡ ok got) × (rest got ≡ ok value)
  >>=-eq-ok (err error) rest chain = cc
  >>=-eq-ok (ok got) rest chain = (got, refl, chain)

  pub Result-cases {κ} :
      {A : Type κ} (r : Result E A) → ((a : A) × (r ≡ ok a)) ⊎ ((e : E) × (r ≡ err e))
  Result-cases (ok a) = inl (a, refl)
  Result-cases (err e) = inr (e, refl)

  -- Inversion of a chain that fails: its first part does, or the rest does with its value.
  pub >>=-eq-err {κ μ} :
      {A : Type κ} {C : Type μ} (first : Result E A) (rest : A → Result E C) {error : E}
      → (first >>= rest) ≡ err error
      → (first ≡ err error) ⊎ ((got : A) × (first ≡ ok got) × (rest got ≡ err error))
  >>=-eq-err (err failure) rest chain = inl cc
  >>=-eq-err (ok got) rest chain = inr (got, refl, chain)

  pub guard_ok :
      (test : Bool) (refusal : E) {done : Unit {0}} → guard test refusal ≡ ok done → test ≡ true
  guard_ok true refusal h = refl
  guard_ok false refusal h = cc

  pub ok_or_ok {κ} :
      {A : Type κ} (o : Option A) (refusal : E) {a : A} → ok_or o refusal ≡ ok a → o ≡ some a
  ok_or_ok none refusal h = cc
  ok_or_ok (some b) refusal h = cc
