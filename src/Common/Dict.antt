-- ===== src/Common/Dict.antt =====
-- `HashMap<K, V>` as an association list. `IsDict` says that it has one entry for each key.
use mathlib.Core.Path.{◌≡◌, refl}
use mathlib.Core.Bool.{Bool, true}
use mathlib.Core.Option.{Option, none, some}
use mathlib.Core.List.{List, [], ◌∷◌}
use native.Mathlib.Omega.{arith}
use shellfleet.Common.Tests.{PartialEq, ◌==◌, if◌then◌else◌}

module _ {ℓ κ} {K : Type ℓ} {V : Type κ} ⦃e : PartialEq K⦄ where
  -- `HashMap::get`
  unfoldable pub lookup : K → List (K × V) → Option V
  lookup key [] = none
  lookup key ((found, value) ∷ rest) = if found == key then some value else lookup key rest

  -- `HashMap::remove`
  unfoldable pub erase : K → List (K × V) → List (K × V)
  erase key [] = []
  erase key ((found, value) ∷ rest) =
      if found == key then erase key rest else (found, value) ∷ erase key rest

  -- `HashMap::insert`
  unfoldable pub insert : K → V → List (K × V) → List (K × V)
  unfolding erase
  insert k v m = (k, v) ∷ erase k m

  -- `HashMap::retain`
  unfoldable pub retain : (K → V → Bool) → List (K × V) → List (K × V)
  retain p [] = []
  retain p ((j, v) ∷ m) = if p j v then (j, v) ∷ retain p m else retain p m

  abbrev pub IsDict : List (K × V) → Type κ
  IsDict [] = Unit
  IsDict ((j, v) ∷ m) = (lookup j m ≡ none) × IsDict m

  -- What `retain` leaves of one entry.
  abbrev pub kept : (K → V → Bool) → K → Option V → Option V
  kept p k none = none
  kept p k (some v) = if p k v then some v else none

  pub lookup-erase :
      (k j : K) (m : List (K × V)) → lookup j (erase k m) ≡ (if k == j then none else lookup j m)
  unfolding lookup erase
  lookup-erase k j [] = ground arith
  lookup-erase k j ((i, v) ∷ m) =
      ground (arith, lookup-erase k j m, e.eq_exact k j, e.eq_exact i j, e.eq_exact i k)

  pub lookup-insert :
      (k j : K) (v : V) (m : List (K × V))
      → lookup j (insert k v m) ≡ (if k == j then some v else lookup j m)
  unfolding lookup insert
  lookup-insert k j v m = ground (arith, lookup-erase k j m)

  pub erase-IsDict : (k : K) (m : List (K × V)) → IsDict m → IsDict (erase k m)
  unfolding erase
  erase-IsDict k [] h = tt
  erase-IsDict k ((i, v) ∷ m) (fresh, h) = ground (arith, erase-IsDict k m h, lookup-erase k i m)

  pub insert-IsDict : (k : K) (v : V) (m : List (K × V)) → IsDict m → IsDict (insert k v m)
  unfolding insert
  insert-IsDict k v m h = (ground (arith, lookup-erase k k m, e.eq_exact k k), erase-IsDict k m h)

  lookup-retain-none :
      (p : K → V → Bool) (k : K) (m : List (K × V))
      → lookup k m ≡ none
      → lookup k (retain p m) ≡ none
  unfolding lookup retain
  lookup-retain-none p k [] h = refl
  lookup-retain-none p k ((i, v) ∷ m) h = ground (arith, lookup-retain-none p k m)

  pub retain-IsDict : (p : K → V → Bool) (m : List (K × V)) → IsDict m → IsDict (retain p m)
  unfolding retain
  retain-IsDict p [] h = tt
  retain-IsDict p ((i, v) ∷ m) (fresh, h) =
      ground (arith, retain-IsDict p m h, lookup-retain-none p i m)

  pub lookup-retain :
      (p : K → V → Bool) (k : K) (m : List (K × V))
      → IsDict m
      → lookup k (retain p m) ≡ kept p k (lookup k m)
  unfolding lookup retain
  lookup-retain p k [] h = refl
  lookup-retain p k ((i, v) ∷ m) (fresh, h) =
      ground (arith, lookup-retain p k m h, lookup-retain-none p k m, e.eq_exact i k)

  -- What is found after `retain` passes its test, with no need of `IsDict`.
  pub lookup-retain_only :
      (p : K → V → Bool) (k : K) (v : V) (m : List (K × V))
      → lookup k (retain p m) ≡ some v
      → p k v ≡ true
  unfolding lookup retain
  lookup-retain_only p k v [] h = cc
  lookup-retain_only p k v ((i, u) ∷ m) h =
      ground (arith, lookup-retain_only p k v m, e.eq_exact i k)
