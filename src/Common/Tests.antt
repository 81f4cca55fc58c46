-- ===== src/Common/Tests.antt =====
-- Boolean tests, the conditional, equality as an interface, and the lemmas that split on a
-- computed value and keep the equation.
use Prim.Native.Nat.{ℕ, compare, Ordering}
use Prim.Native.String.{String}
use mathlib.Core.Path.{◌≡◌, refl}
use mathlib.Core.Logic.{◌↔◌, ◌⊎◌, inl, inr}
use mathlib.Core.Bool.{Bool, true, false}
use mathlib.Core.Option.{Option, none, some}
use native.Mathlib.Omega.{arith}
use text.Mathlib.Text.{◌==◌ as str_eq}
use text.Mathlib.TextEquality.{eq_iff}

abbrev pub ltb : ℕ → ℕ → Bool
ltb a b = elim (compare a b) [ Ordering.lt ↦ true | _ ↦ false ]

abbrev pub leb : ℕ → ℕ → Bool
leb a b = elim (compare a b) [ Ordering.gt ↦ false | _ ↦ true ]

abbrev pub nat_beq : ℕ → ℕ → Bool
nat_beq a b = elim (compare a b) [ Ordering.eq ↦ true | _ ↦ false ]

infix 1 if◌then◌else◌
abbrev pub if◌then◌else◌ {ℓ} : {A : Type ℓ} → Bool → A → A → A
if true then x else y = x
if false then x else y = y

pub nat_beq_iff : (a b : ℕ) → (nat_beq a b ≡ true) ↔ (a ≡ b)
nat_beq_iff a b = ground arith

-- `PartialEq`, where it is decidable equality.
pub record PartialEq {κ} (T : Type κ) : Type κ where
  pub eq : T → T → Bool
  pub eq_exact : (x y : T) → (eq x y ≡ true) ↔ (x ≡ y)

module _ {κ} {T : Type κ} ⦃dict : PartialEq T⦄ where
  infix 50 ◌==◌
  abbrev pub ◌==◌ : T → T → Bool
  x == y = dict.eq x y

instance abbrev pub string_eq : PartialEq String
string_eq = record { eq = str_eq; eq_exact = eq_iff }

instance abbrev pub nat_eq : PartialEq ℕ
nat_eq = record { eq = nat_beq; eq_exact = nat_beq_iff }

pub Bool-cases : (b : Bool) → (b ≡ true) ⊎ (b ≡ false)
Bool-cases true = inl refl
Bool-cases false = inr refl

pub Option-cases {ℓ} : {A : Type ℓ} (o : Option A) → (o ≡ none) ⊎ ((a : A) × (o ≡ some a))
Option-cases none = inl refl
Option-cases (some a) = inr (a, refl)

-- A conditional whose test is known.
pub when {ℓ} : {A : Type ℓ} (a b : A) {t : Bool} → t ≡ true → (if t then a else b) ≡ a
when a b h = ground arith

pub otherwise {ℓ} : {A : Type ℓ} (a b : A) {t : Bool} → t ≡ false → (if t then a else b) ≡ b
otherwise a b h = ground arith

-- A Boolean as a count.
abbrev pub bit : Bool → ℕ
bit b = if b then 1 else 0
