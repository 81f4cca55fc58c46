-- ===== src/Throttle/Guesses.antt =====
-- server/src/throttle.rs, `Throttle`: sequences of uses of the guarded action.
use shellfleet.Common.{
  ℕ, ◌+◌, ◌-◌, ◌*◌, ◌≤◌, ◌<◌, ◌≡◌, refl, sym, ◌∙◌, ap, inl, inr, Bool, true, false, not, ◌&&◌,
  String, Option, none, some, List, [], ◌∷◌, arith, ◌==◌, nat_eq, string_eq, eq_iff, eq_refl,
  if◌then◌else◌, Bool-cases, All,
}
use shellfleet.Common.Dict.{lookup, lookup-insert, lookup-erase}
use shellfleet.Throttle.Lockout.{
  max_fails, lock_secs, Record, Throttle, locked, clear, verdict, check, or_default, failed,
  record_failure, record_success,
}
use shellfleet.Throttle.Attempts.{
  IsValid, Use, fails_at, succeeds_at, key_of, time_of, outcome, checked, attempt, attempt-IsValid,
  fresh_only, credit_of, credit_failed, credit_fresh, credit_later, Verdict-cases, lookup-check,
  check-verdict, check_exact, record_failure-IsValid,
}

-- A use that has not succeeded under the key.
abbrev pub spares : String → Use → Bool
spares key (fails_at k now) = true
spares key (succeeds_at k now) = not (k == key)

-- A use that has failed under the key: a wrong guess.
abbrev pub is_guess : String → Use → Bool
is_guess key (fails_at k now) = k == key
is_guess key (succeeds_at k now) = false

module _ (t : Throttle) (valid : IsValid t) (key : String) where
  abbrev record_of : Option Record
  record_of = lookup key t.records

  attempt_locked :
      (u : Use) (secs : ℕ)
      → verdict (time_of u) (fresh_only (time_of u) (lookup (key_of u) t.records)) ≡ locked secs
      → attempt t u ≡ ((check t (key_of u) (time_of u)).0, false)
  unfolding attempt checked
  attempt_locked u secs e =
      ap (λ v. checked u ((check t (key_of u) (time_of u)).0, v))
        (check-verdict t valid (key_of u) (time_of u) ∙ e)

  attempt_clear :
      (u : Use)
      → verdict (time_of u) (fresh_only (time_of u) (lookup (key_of u) t.records)) ≡ clear
      → attempt t u ≡ (outcome (check t (key_of u) (time_of u)).0 u, true)
  unfolding attempt checked
  attempt_clear u e =
      ap (λ v. checked u ((check t (key_of u) (time_of u)).0, v))
        (check-verdict t valid (key_of u) (time_of u) ∙ e)

  -- What the credit of the key is after a use, with a lock's length for a guess that was let
  -- through.
  abbrev spent : Use → Throttle × Bool → ℕ
  spent u (after, let_through) =
      credit_of (lookup key after.records) (time_of u)
      + (if let_through && is_guess key u then lock_secs else 0)

  after_failure :
      (k : String) (now : ℕ)
      → lookup key (record_failure (check t k now).0 k now).records ≡ (
          if k == key
          then some (failed now (or_default (fresh_only now (lookup k t.records))))
          else fresh_only now record_of)
  unfolding record_failure
  after_failure k now =
      lookup-insert k key _ (check t k now).0.records
      ∙ rw (lookup-check t valid k now k, lookup-check t valid k now key) refl

  after_success :
      (k : String) (now : ℕ)
      → lookup key (record_success (check t k now).0 k).records
        ≡ (if k == key then none else fresh_only now record_of)
  unfolding record_success
  after_success k now =
      lookup-erase k key (check t k now).0.records ∙ rw (lookup-check t valid k now key) refl

  outcome_credit :
      (u : Use)
      → spares key u ≡ true
      → verdict (time_of u) (fresh_only (time_of u) (lookup (key_of u) t.records)) ≡ clear
      → spent u (outcome (check t (key_of u) (time_of u)).0 u, true)
        ≤ credit_of record_of (time_of u)
  unfolding outcome
  outcome_credit (fails_at k now) h e = elim (Bool-cases (k == key)) [
    | inl same ↦
        let of_key : lookup k t.records ≡ record_of =
          ap (λ j. lookup j t.records) ((eq_iff k key).0 same) in
        rw (after_failure k now) (
          rw (same, of_key)
            (credit_failed now record_of (valid.sound key)
              (sym (ap (λ o. verdict now (fresh_only now o)) of_key) ∙ e)))
    | inr other ↦ rw (after_failure k now) (rw other (ground (arith, credit_fresh now record_of)))
  ]
  outcome_credit (succeeds_at k now) h e = elim (Bool-cases (k == key)) [
    | inl same ↦ ground arith
    | inr other ↦ rw (after_success k now) (rw other (ground (arith, credit_fresh now record_of)))
  ]

  attempt_credit :
      (u : Use) → spares key u ≡ true → spent u (attempt t u) ≤ credit_of record_of (time_of u)
  attempt_credit u h =
      elim (Verdict-cases
        (verdict (time_of u) (fresh_only (time_of u) (lookup (key_of u) t.records)))) [
          | inl e ↦ rw (attempt_clear u e) (outcome_credit u h e)
          | inr (secs, e) ↦ rw (attempt_locked u secs e) (
              rw (lookup-check t valid (key_of u) (time_of u) key)
                (ground (arith, credit_fresh (time_of u) record_of)))
        ]

-- The uses come one after another, at times that do not go back.
abbrev pub IsOrdered : ℕ → List Use → Type 0
IsOrdered start [] = Unit
IsOrdered start (u ∷ us) = (start ≤ time_of u) × IsOrdered (time_of u) us

abbrev pub finish : ℕ → List Use → ℕ
finish start [] = start
finish start (u ∷ us) = finish (time_of u) us

-- How many wrong guesses under the key are let through.
unfoldable pub guesses : String → Throttle → List Use → ℕ
unfolding attempt
guesses key t [] = 0
guesses key t (u ∷ us) =
    let (after, let_through) = attempt t u in
    (if let_through && is_guess key u then 1 else 0) + guesses key after us

guesses_credit :
    (key : String) (t : Throttle) (start : ℕ) (us : List Use)
    → IsValid t
    → IsOrdered start us
    → All (λ u. spares key u ≡ true) us
    → (guesses key t us * lock_secs
        ≤ credit_of (lookup key t.records) start + (finish start us - start))
      × (start ≤ finish start us)
unfolding guesses
guesses_credit key t start [] valid ordered spared = (ground arith, ground arith)
guesses_credit key t start (u ∷ us) valid (later, ordered) (spare, spared) =
    let step = attempt_credit t valid key u spare in
    let (rest, on) =
      guesses_credit key (attempt t u).0 (time_of u) us (attempt-IsValid t u valid) ordered
        spared in
    let grown = credit_later (lookup key t.records) start (time_of u) later in
    (
      elim (Bool-cases ((attempt t u).1 && is_guess key u)) [
        | inl counts ↦ ground arith
        | inr free ↦ ground arith
      ],
      ground arith,
    )

credit_bound : (o : Option Record) (now : ℕ) → credit_of o now ≤ max_fails * lock_secs
credit_bound none now = ground arith
credit_bound (some r) now = ground arith

-- While a key has no success, the wrong guesses that are let through under it, from any sound
-- state of the throttle, among any uses of other keys and at times that do not go back, are at
-- most ten and one more for each quarter of an hour that passes.
pub guesses_bounded :
    (key : String) (t : Throttle) (start : ℕ) (us : List Use)
    → IsValid t
    → IsOrdered start us
    → All (λ u. spares key u ≡ true) us
    → guesses key t us * lock_secs ≤ max_fails * lock_secs + (finish start us - start)
guesses_bounded key t start us valid ordered spared =
    let (bound, on) = guesses_credit key t start us valid ordered spared in
    let top = credit_bound (lookup key t.records) start in omega arith

after_record :
    (t : Throttle) (key : String) (now : ℕ) (r : Record)
    → lookup key t.records ≡ some r
    → lookup key (record_failure t key now).records ≡ some (failed now r)
unfolding record_failure or_default
after_record t key now r found = lookup-insert key key _ t.records ∙ rw (eq_refl key, found) refl

-- In a sound state, the failure that reaches the limit locks its key for a quarter of an hour: a
-- check before its end tells how much of it is left, however many old records it collects.
lock_holds :
    (t : Throttle) (key : String) (r : Record) (now later : ℕ)
    → IsValid t
    → lookup key t.records ≡ some r
    → max_fails ≤ r.fails + 1
    → later < now + lock_secs
    → (check (record_failure t key now) key later).1 ≡ locked (now + lock_secs - later)
unfolding verdict failed or_default
lock_holds t key r now later valid found full soon =
    check_exact (record_failure t key now) key later (record_failure-IsValid t key now valid)
    ∙ ap (verdict later) (after_record t key now r found)
    ∙ ground (arith, (valid.sound key))
