-- ===== src/Throttle/Attempts.antt =====
-- server/src/throttle.rs, `Throttle`: the guarded action as its handlers use it, one use after
-- another, and what the collection of old records does to it.
use shellfleet.Common.{
  ℕ, ◌+◌, ◌-◌, ◌*◌, ◌^◌, ◌≤◌, ◌<◌, min, ◌≡◌, refl, sym, ◌∙◌, ap, subst, ◌⊎◌, inl, inr, Bool, true,
  false, String, Option, none, some, arith, ◌==◌, nat_eq, string_eq, if◌then◌else◌, Bool-cases,
}
use shellfleet.Common.Dict.{
  lookup, kept, IsDict, insert-IsDict, erase-IsDict, retain-IsDict, lookup-insert, lookup-erase,
  lookup-retain,
}
use shellfleet.Throttle.Lockout.{
  max_fails, lock_secs, Record, Throttle, CheckResult, locked, clear, is_fresh, verdict, check,
  or_default, failed, record_failure, record_success,
}

-- What holds of each record: it is locked exactly if its failures reach the limit, for as long as
-- the last of them says.
abbrev IsSound : Record → Type 0
IsSound r =
    (r.fails < 2 ^ 32)
    × (((r.fails < max_fails) × (r.locked_until ≡ 0))
        ⊎ ((max_fails ≤ r.fails) × (r.locked_until ≡ r.last_touched + lock_secs)))

abbrev pub IsSoundEntry : Option Record → Type 0
IsSoundEntry none = Unit
IsSoundEntry (some r) = IsSound r

pub record IsValid (t : Throttle) : Type 0 where
  pub dict : IsDict t.records
  pub sound : (key : String) → IsSoundEntry (lookup key t.records)

-- The guarded action, as the handlers use it: the check, then the failure or the success, if the
-- check lets it through.
pub data Use : Type 0 where
  fails_at : (key : String) (now : ℕ) → Use
  succeeds_at : (key : String) (now : ℕ) → Use

unfoldable pub outcome : Throttle → Use → Throttle
outcome t (fails_at key now) = record_failure t key now
outcome t (succeeds_at key now) = record_success t key

abbrev pub key_of : Use → String
key_of (fails_at key now) = key
key_of (succeeds_at key now) = key

abbrev pub time_of : Use → ℕ
time_of (fails_at key now) = now
time_of (succeeds_at key now) = now

unfoldable pub checked : Use → Throttle × CheckResult → Throttle × Bool
unfolding outcome
checked u (t, locked retry_after_secs) = (t, false)
checked u (t, clear) = (outcome t u, true)

-- The answer is whether the action was let through.
unfoldable pub attempt : Throttle → Use → Throttle × Bool
unfolding checked
attempt t u = checked u (check t (key_of u) (time_of u))

failed-IsSound :
    (now : ℕ) (o : Option Record) → IsSoundEntry o → IsSound (failed now (or_default o))
unfolding failed or_default
failed-IsSound now none h = ground arith
failed-IsSound now (some r) h = ground arith

-- What the collection of old records leaves of one.
abbrev pub fresh_only : ℕ → Option Record → Option Record
fresh_only now none = none
fresh_only now (some r) = if is_fresh now r then some r else none

kept-fresh_only :
    (now : ℕ) (key : String) (o : Option Record)
    → kept (λ k r. is_fresh now r) key o ≡ fresh_only now o
kept-fresh_only now key none = refl
kept-fresh_only now key (some r) = refl

fresh_only-IsSoundEntry :
    (now : ℕ) (o : Option Record) → IsSoundEntry o → IsSoundEntry (fresh_only now o)
fresh_only-IsSoundEntry now none h = tt
fresh_only-IsSoundEntry now (some r) h = ground arith

-- How many seconds' worth of attempts a key has left: a lock's length for each failure short of
-- the limit, and the time since the last one.
abbrev pub credit_of : Option Record → ℕ → ℕ
credit_of none now = max_fails * lock_secs
credit_of (some r) now =
    min (max_fails * lock_secs) ((max_fails - r.fails) * lock_secs + (now - r.last_touched))

pub credit_failed :
    (now : ℕ) (o : Option Record)
    → IsSoundEntry o
    → verdict now (fresh_only now o) ≡ clear
    → credit_of (some (failed now (or_default (fresh_only now o)))) now + lock_secs
      ≤ credit_of o now
unfolding verdict is_fresh failed or_default
credit_failed now none h e = ground arith
credit_failed now (some r) h e = ground arith

pub credit_fresh :
    (now : ℕ) (o : Option Record) → credit_of (fresh_only now o) now ≤ credit_of o now
unfolding is_fresh
credit_fresh now none = ground arith
credit_fresh now (some r) = ground arith

pub credit_later :
    (o : Option Record) (start now : ℕ)
    → start ≤ now
    → credit_of o now ≤ credit_of o start + (now - start)
credit_later none start now h = ground arith
credit_later (some r) start now h = ground arith

pub Verdict-cases : (v : CheckResult) → (v ≡ clear) ⊎ ((secs : ℕ) × (v ≡ locked secs))
Verdict-cases clear = inl refl
Verdict-cases (locked secs) = inr (secs, refl)

module _ (t : Throttle) (valid : IsValid t) where
  pub lookup-check :
      (key : String) (now : ℕ) (k : String)
      → lookup k (check t key now).0.records ≡ fresh_only now (lookup k t.records)
  unfolding check
  lookup-check key now k =
      lookup-retain _ k t.records valid.dict ∙ kept-fresh_only now k (lookup k t.records)

  pub check-verdict :
      (key : String) (now : ℕ)
      → (check t key now).1 ≡ verdict now (fresh_only now (lookup key t.records))
  unfolding check
  check-verdict key now = ap (verdict now) (lookup-check key now key)

  check-IsDict : (key : String) (now : ℕ) → IsDict (check t key now).0.records
  unfolding check
  check-IsDict key now = retain-IsDict _ t.records valid.dict

  pub check-IsValid : (key : String) (now : ℕ) → IsValid (check t key now).0
  check-IsValid key now = record {
    dict = check-IsDict key now;
    sound = λ k.
        subst IsSoundEntry (sym (lookup-check key now k))
          (fresh_only-IsSoundEntry now (lookup k t.records) (valid.sound k));
  }

verdict_fresh :
    (now : ℕ) (o : Option Record) → IsSoundEntry o → verdict now (fresh_only now o) ≡ verdict now o
unfolding verdict is_fresh
verdict_fresh now none h = refl
verdict_fresh now (some r) h = ground arith

-- In a sound state the collection of old records is not seen: a check answers from the key's own
-- record alone, as if nothing were ever collected.
pub check_exact :
    (t : Throttle) (key : String) (now : ℕ)
    → IsValid t
    → (check t key now).1 ≡ verdict now (lookup key t.records)
check_exact t key now valid =
    check-verdict t valid key now ∙ verdict_fresh now (lookup key t.records) (valid.sound key)

pub record_failure-IsValid :
    (t : Throttle) (key : String) (now : ℕ) → IsValid t → IsValid (record_failure t key now)
unfolding record_failure
record_failure-IsValid t key now valid = record {
  dict = insert-IsDict key _ t.records valid.dict;
  sound = λ k.
      subst IsSoundEntry (sym (lookup-insert key k _ t.records)) (elim (Bool-cases (key == k)) [
        | inl same ↦ rw same (failed-IsSound now (lookup key t.records) (valid.sound key))
        | inr other ↦ rw other (valid.sound k)
      ]);
}

record_success-IsValid : (t : Throttle) (key : String) → IsValid t → IsValid (record_success t key)
unfolding record_success
record_success-IsValid t key valid = record {
  dict = erase-IsDict key t.records valid.dict;
  sound = λ k.
      subst IsSoundEntry (sym (lookup-erase key k t.records)) (elim (Bool-cases (key == k)) [
        | inl same ↦ rw same tt
        | inr other ↦ rw other (valid.sound k)
      ]);
}

checked-IsValid : (u : Use) (c : Throttle × CheckResult) → IsValid c.0 → IsValid (checked u c).0
unfolding checked outcome
checked-IsValid u (t, locked secs) valid = valid
checked-IsValid (fails_at key now) (t, clear) valid = record_failure-IsValid t key now valid
checked-IsValid (succeeds_at key now) (t, clear) valid = record_success-IsValid t key valid

-- The throttle's records stay sound through every use of the guarded action.
pub attempt-IsValid : (t : Throttle) (u : Use) → IsValid t → IsValid (attempt t u).0
unfolding attempt
attempt-IsValid t u valid =
    checked-IsValid u (check t (key_of u) (time_of u))
      (check-IsValid t valid (key_of u) (time_of u))
