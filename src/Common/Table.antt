-- ===== src/Common/Table.antt =====
-- A table of the database as the list of its rows, and the statements the server runs on one:
-- `DELETE ... WHERE`, `UPDATE ... WHERE`, and the first row of a `SELECT` or of `RETURNING`.
use Prim.Native.Nat.{◌+◌, ◌≤◌}
use mathlib.Core.Path.{◌≡◌, refl}
use mathlib.Core.Logic.{inl, inr}
use mathlib.Core.Bool.{Bool, true, false, ◌&&◌, not}
use mathlib.Core.Option.{Option, none, some}
use mathlib.Core.List.{List, [], ◌∷◌, map}
use native.Mathlib.Omega.{arith}
use shellfleet.Common.Tests.{bit, ltb, if◌then◌else◌, Bool-cases}
use shellfleet.Common.Lists.{length, any, keep, count_where}

module _ {ℓ} {A : Type ℓ} where
  abbrev pub delete_where : (A → Bool) → List A → List A
  delete_where p rows = keep (λ r. not (p r)) rows

  abbrev pub update_where : (A → Bool) → (A → A) → List A → List A
  update_where p change rows = map (λ r. if p r then change r else r) rows

  abbrev pub first_where : (A → Bool) → List A → Option A
  first_where p [] = none
  first_where p (r ∷ rows) = if p r then some r else first_where p rows

  -- Every row is either deleted or left.
  pub count-delete :
      (p q : A → Bool) (rows : List A)
      → count_where p (delete_where q rows) + count_where (λ r. p r && q r) rows
        ≡ count_where p rows
  count-delete p q [] = refl
  count-delete p q (r ∷ rows) = ground (arith, count-delete p q rows)

  pub count_le :
      (p q : A → Bool) (rows : List A)
      → ((r : A) → p r ≡ true → q r ≡ true)
      → count_where p rows ≤ count_where q rows
  count_le p q [] imp = ground arith
  count_le p q (r ∷ rows) imp = ground (arith, count_le p q rows imp, imp r)

  pub count-first :
      (p : A → Bool) (rows : List A) (row : A)
      → first_where p rows ≡ some row
      → (1 ≤ count_where p rows) × (p row ≡ true)
  count-first p [] row found = cc
  count-first p (r ∷ rows) row found = ground (arith, count-first p rows row)

  pub count-any :
      (p : A → Bool) (rows : List A)
      → (any p rows ≡ false → count_where p rows ≡ 0) × (any p rows ≡ true → 1 ≤ count_where p rows)
  count-any p [] = (λ h. refl, λ h. cc)
  count-any p (r ∷ rows) = ground (arith, count-any p rows)

  -- A change adds to a count no more than the rows it touches, and nothing to one that its rows
  -- keep their place in.
  pub count-update :
      (p q : A → Bool) (change : A → A) (rows : List A)
      → count_where p (update_where q change rows) ≤ count_where p rows + count_where q rows
  count-update p q change [] = ground arith
  count-update p q change (r ∷ rows) = ground (arith, count-update p q change rows)

  pub count-update_same :
      (p q : A → Bool) (change : A → A) (rows : List A)
      → ((r : A) → p (change r) ≡ p r)
      → count_where p (update_where q change rows) ≡ count_where p rows
  count-update_same p q change [] same = refl
  count-update_same p q change (r ∷ rows) same =
      ground (arith, count-update_same p q change rows same, same r)

  pub any-count : (p : A → Bool) (rows : List A) → any p rows ≡ ltb 0 (count_where p rows)
  any-count p [] = refl
  any-count p (r ∷ rows) = ground (arith, any-count p rows)

  pub count-delete_none :
      (p q : A → Bool) (rows : List A)
      → ((r : A) → p r ≡ true → q r ≡ true)
      → count_where p (delete_where q rows) ≡ 0
  count-delete_none p q rows imp = omega (
    arith,
    count-delete p q rows,
    count_le p (λ r. p r && q r) rows (λ r h. ground (arith, imp r h)),
  )

  -- A change that takes the mark away leaves the marked rows that it does not touch.
  pub count-update_unmark :
      (p q : A → Bool) (change : A → A) (rows : List A)
      → ((r : A) → p (change r) ≡ false)
      → count_where p (update_where q change rows) + count_where (λ r. p r && q r) rows
        ≡ count_where p rows
  count-update_unmark p q change [] gone = refl
  count-update_unmark p q change (r ∷ rows) gone =
      ground (arith, count-update_unmark p q change rows gone, gone r)

  pub count-update_mark :
      (p q : A → Bool) (change : A → A) (rows : List A)
      → ((r : A) → p r ≡ true → p (change r) ≡ true)
      → count_where p rows ≤ count_where p (update_where q change rows)
  count-update_mark p q change [] keeps = ground arith
  count-update_mark p q change (r ∷ rows) keeps =
      ground (arith, count-update_mark p q change rows keeps, keeps r)

  pub count_none :
      (p q : A → Bool) (rows : List A)
      → first_where q rows ≡ none
      → count_where (λ r. p r && q r) rows ≡ 0
  count_none p q [] h = refl
  count_none p q (r ∷ rows) h = ground (arith, count_none p q rows)

  -- Where the test picks one row at most, the marked rows that it picks are told by the first.
  pub count_only :
      (p q : A → Bool) (rows : List A) (row : A)
      → count_where q rows ≤ 1
      → first_where q rows ≡ some row
      → count_where (λ r. p r && q r) rows ≡ bit (p row)
  count_only p q [] row one found = cc
  count_only p q (r ∷ rows) row one found = elim (Bool-cases (q r)) [
    | inl here ↦
        let less = count_le (λ s. p s && q s) q rows (λ s h. ground arith) in
        let same : r ≡ row = ground arith in rw⁻¹ same (ground arith)
    | inr away ↦ ground (arith, count_only p q rows row)
  ]

  pub count-update_none :
      (p q : A → Bool) (change : A → A) (rows : List A)
      → ((r : A) → q r ≡ true → p (change r) ≡ false)
      → ((r : A) → q r ≡ false → p r ≡ false)
      → count_where p (update_where q change rows) ≡ 0
  count-update_none p q change [] gone other = refl
  count-update_none p q change (r ∷ rows) gone other = elim (Bool-cases (q r)) [
    | inl here ↦
        let none_now = gone r here in ground (arith, count-update_none p q change rows gone other)
    | inr away ↦
        let none_now = other r away in ground (arith, count-update_none p q change rows gone other)
  ]

  pub length-update :
      (q : A → Bool) (change : A → A) (rows : List A)
      → length (update_where q change rows) ≡ length rows
  length-update q change [] = refl
  length-update q change (r ∷ rows) = ground (arith, length-update q change rows)

  -- A deletion of rows without the mark leaves one with it.
  pub any_kept :
      (p q : A → Bool) (rows : List A)
      → ((r : A) → p r ≡ true → q r ≡ false)
      → any p rows ≡ true
      → any p (delete_where q rows) ≡ true
  any_kept p q [] stays h = h
  any_kept p q (r ∷ rows) stays h = ground (arith, any_kept p q rows stays, stays r)

  -- The first row of a kind stays the first where it is not deleted, and where it is not changed.
  pub first-delete :
      (p q : A → Bool) (rows : List A) (row : A)
      → first_where p rows ≡ some row
      → q row ≡ false
      → first_where p (delete_where q rows) ≡ some row
  first-delete p q [] row found kept = cc
  first-delete p q (r ∷ rows) row found kept = ground (arith, first-delete p q rows row)

  pub first-update :
      (p q : A → Bool) (change : A → A) (rows : List A) (row : A)
      → ((r : A) → p (change r) ≡ p r)
      → first_where p rows ≡ some row
      → first_where p (update_where q change rows) ≡ some (if q row then change row else row)
  first-update p q change [] row same found = cc
  first-update p q change (r ∷ rows) row same found =
      ground (arith, first-update p q change rows row same, same r)

  pub any_weaker :
      (p q : A → Bool) (rows : List A)
      → ((r : A) → p r ≡ true → q r ≡ true)
      → any p rows ≡ true
      → any q rows ≡ true
  any_weaker p q [] imp h = h
  any_weaker p q (r ∷ rows) imp h = ground (arith, any_weaker p q rows imp, imp r)

  -- Where a row that is found has the mark, some first row has it.
  pub first-any :
      (p q : A → Bool) (rows : List A) (row : A)
      → first_where p rows ≡ some row
      → q row ≡ true
      → (any q rows ≡ true) × ((first : A) × (first_where q rows ≡ some first))
  first-any p q [] row found good = cc
  first-any p q (r ∷ rows) row found good = elim (Bool-cases (q r)) [
    | inl here ↦ (ground arith, (r, ground arith))
    | inr away ↦
        let (somewhere, (first, there)) = first-any p q rows row (ground arith) good in
        (ground arith, (first, ground arith))
  ]
