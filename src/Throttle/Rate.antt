-- ===== src/Throttle/Rate.antt =====
-- server/src/throttle.rs, `IpBucketLimiter`: single requests and sequences of them.
use shellfleet.Common.{
  ℕ, ◌+◌, ◌-◌, ◌*◌, ◌≤◌, min, ◌≡◌, refl, sym, ◌∙◌, ap, inl, inr, ◌≢◌, Bool, ◌&&◌, String, Option,
  none, some, List, [], ◌∷◌, arith, ◌==◌, nat_eq, string_eq, eq_iff, eq_refl, if◌then◌else◌,
  Bool-cases, leb,
}
use shellfleet.Common.Dict.{
  lookup, retain, kept, IsDict, insert-IsDict, retain-IsDict, lookup-insert, lookup-retain,
}
use shellfleet.Throttle.Bucket.{
  Bucket, IpBucketLimiter, one, full, is_recent, or_full, refill, spend, allow,
}

-- One more unit of cost `o` is paid from what is left at `now`.
one_more :
    (n o after before at_start start now end : ℕ)
    → n * o ≤ after + (end - now)
    → before ≡ after + o
    → before ≤ at_start + (now - start)
    → start ≤ now
    → now ≤ end
    → (1 + n) * o ≤ at_start + (end - start)
one_more n o after before at_start start now end paid cost grown h k = omega arith

module _ (per_sec : ℕ) where
  -- What an address can spend at a time: a bucket that is missing is a full one.
  unfoldable pub available : ℕ → Option Bucket → ℕ
  available now none = full per_sec
  available now (some b) = min (b.tokens + (now - b.last_touched)) (full per_sec)

  abbrev recent_only : ℕ → Option Bucket → Option Bucket
  recent_only now none = none
  recent_only now (some b) = if is_recent per_sec now b then some b else none

  kept-recent_only :
      (now : ℕ) (ip : String) (o : Option Bucket)
      → kept (λ k b. is_recent per_sec now b) ip o ≡ recent_only now o
  kept-recent_only now ip none = refl
  kept-recent_only now ip (some b) = refl

  -- A bucket that is dropped for its age would be full again.
  available_recent :
      (now : ℕ) (o : Option Bucket) → available now (recent_only now o) ≡ available now o
  unfolding available is_recent
  available_recent now none = refl
  available_recent now (some b) = ground arith

  available_recent_later :
      (now later : ℕ) (o : Option Bucket)
      → now ≤ later
      → available later (recent_only now o) ≡ available later o
  unfolding available is_recent
  available_recent_later now later none h = refl
  available_recent_later now later (some b) h = ground arith

  available_later :
      (start now : ℕ) (o : Option Bucket)
      → start ≤ now
      → available now o ≤ available start o + (now - start)
  unfolding available
  available_later start now none h = ground arith
  available_later start now (some b) h = ground arith

  spend_lem :
      (now : ℕ) (o : Option Bucket)
      → let r : Bucket × Bool = spend per_sec (refill per_sec now (or_full per_sec now o)) in
        (r.1 ≡ leb (one per_sec) (available now o))
        × (available now (some r.0) + (if r.1 then one per_sec else 0) ≡ available now o)
  unfolding available spend refill or_full
  spend_lem now none = (ground arith, ground arith)
  spend_lem now (some b) = (ground arith, ground arith)

  module _ (limiter : IpBucketLimiter) (valid : IsDict limiter.buckets) (ip : String)
      (now : ℕ) where
    recent_lookup :
        (other : String)
        → lookup other (retain (λ k b. is_recent per_sec now b) limiter.buckets)
          ≡ recent_only now (lookup other limiter.buckets)
    recent_lookup other =
        lookup-retain _ other limiter.buckets valid
        ∙ kept-recent_only now other (lookup other limiter.buckets)

    abbrev spent : Bucket × Bool
    spent =
        spend per_sec
          (refill per_sec now (or_full per_sec now (recent_only now (lookup ip limiter.buckets))))

    allow_lem :
        (other : String)
        → (lookup other (allow per_sec limiter ip now).0.buckets ≡ (
            if ip == other then some spent.0 else recent_only now (lookup other limiter.buckets)))
          × ((allow per_sec limiter ip now).1 ≡ spent.1)
    unfolding allow
    allow_lem other = (
      lookup-insert ip other _ (retain (λ k b. is_recent per_sec now b) limiter.buckets)
          ∙ rw (recent_lookup ip, recent_lookup other) refl,
      rw (recent_lookup ip) refl,
    )

    pub allow-IsDict : IsDict (allow per_sec limiter ip now).0.buckets
    unfolding allow
    allow-IsDict = insert-IsDict ip _ _ (retain-IsDict _ limiter.buckets valid)

    -- With one bucket for each address, a request is allowed exactly if its address has a whole
    -- token available, which it then spends.
    allow_exact :
        ((allow per_sec limiter ip now).1
          ≡ leb (one per_sec) (available now (lookup ip limiter.buckets)))
        × (available now (lookup ip (allow per_sec limiter ip now).0.buckets)
              + (if (allow per_sec limiter ip now).1 then one per_sec else 0)
            ≡ available now (lookup ip limiter.buckets))
    allow_exact =
        let (allowed, left) = spend_lem now (recent_only now (lookup ip limiter.buckets)) in
        let same = available_recent now (lookup ip limiter.buckets) in
        let (mine, answer) = allow_lem ip in
        (
          answer ∙ allowed ∙ ap (leb (one per_sec)) same,
          rw (mine, eq_refl ip, answer) (left ∙ same),
        )

    -- A request takes nothing from another address: what that has available at any later time is
    -- as it was before.
    allow_others :
        (other : String) (later : ℕ)
        → ip ≢ other
        → now ≤ later
        → available later (lookup other (allow per_sec limiter ip now).0.buckets)
          ≡ available later (lookup other limiter.buckets)
    allow_others other later differs le = elim (Bool-cases (ip == other)) [
      | inl same ↦ elim (differs ((eq_iff ip other).0 same)) [ ]
      | inr apart ↦
          rw ((allow_lem other).0)
            (rw apart (available_recent_later now later (lookup other limiter.buckets) le))
    ]

    allow_credit :
        (watched : String)
        → available now (lookup watched (allow per_sec limiter ip now).0.buckets)
            + (if (allow per_sec limiter ip now).1 && (ip == watched) then one per_sec else 0)
          ≡ available now (lookup watched limiter.buckets)
    allow_credit watched = elim (Bool-cases (ip == watched)) [
      | inl same ↦
          let of_ip : lookup watched (allow per_sec limiter ip now).0.buckets
              ≡ lookup ip (allow per_sec limiter ip now).0.buckets =
            ap (λ x. lookup x (allow per_sec limiter ip now).0.buckets)
              (sym ((eq_iff ip watched).0 same)) in
          let of_ip_before : lookup watched limiter.buckets ≡ lookup ip limiter.buckets =
            ap (λ x. lookup x limiter.buckets) (sym ((eq_iff ip watched).0 same)) in
          rw (same, of_ip, of_ip_before) (ground (arith, allow_exact.1))
      | inr apart ↦
          let rest =
            allow_others watched now (λ h. ground (arith, eq_iff ip watched)) (ground arith) in
          rw apart (ground (arith, rest))
    ]

  -- Requests, one after another, at times that do not go back.
  abbrev pub IsOrdered : ℕ → List (String × ℕ) → Type 0
  IsOrdered start [] = Unit
  IsOrdered start ((ip, now) ∷ log) = (start ≤ now) × IsOrdered now log

  abbrev pub finish : ℕ → List (String × ℕ) → ℕ
  finish start [] = start
  finish start ((ip, now) ∷ log) = finish now log

  -- How many requests of the address are allowed.
  unfoldable pub allowed : String → IpBucketLimiter → List (String × ℕ) → ℕ
  allowed watched limiter [] = 0
  allowed watched limiter ((ip, now) ∷ log) =
      let (after, passed) = allow per_sec limiter ip now in
      (if passed && (ip == watched) then 1 else 0) + allowed watched after log

  allowed_credit :
      (watched : String) (limiter : IpBucketLimiter) (start : ℕ) (log : List (String × ℕ))
      → IsDict limiter.buckets
      → IsOrdered start log
      → (allowed watched limiter log * one per_sec
          ≤ available start (lookup watched limiter.buckets) + (finish start log - start))
        × (start ≤ finish start log)
  unfolding allowed
  allowed_credit watched limiter start [] valid ordered = (ground arith, ground arith)
  allowed_credit watched limiter start ((ip, now) ∷ log) valid (later, ordered) =
      let step = allow_credit limiter valid ip now watched in
      let (rest, on) =
        allowed_credit watched (allow per_sec limiter ip now).0 now log
          (allow-IsDict limiter valid ip now) ordered in
      let grown = available_later start now (lookup watched limiter.buckets) later in
      (
        elim (Bool-cases ((allow per_sec limiter ip now).1 && (ip == watched))) [
          | inl counts ↦
              rw counts
                (one_more _ (one per_sec) _ _ _ _ _ _ rest (sym (rw counts at step)) grown later on)
          | inr free ↦ rw free (omega (arith, rest, grown, later, on, rw free at step))
        ],
        ground arith,
      )

  available_bound : (now : ℕ) (o : Option Bucket) → available now o ≤ full per_sec
  unfolding available
  available_bound now none = ground arith
  available_bound now (some b) = ground arith

  -- From any limiter that has one bucket for each address, among any requests of other addresses
  -- and at times that do not go back, the requests of one address that are allowed are at most a
  -- full bucket, thirty, and what is refilled in the time that passes, one for every two seconds.
  pub allowed_bounded :
      (watched : String) (limiter : IpBucketLimiter) (start : ℕ) (log : List (String × ℕ))
      → IsDict limiter.buckets
      → IsOrdered start log
      → allowed watched limiter log * (2 * per_sec)
        ≤ 30 * (2 * per_sec) + (finish start log - start)
  allowed_bounded watched limiter start log valid ordered =
      let (bound, on) = allowed_credit watched limiter start log valid ordered in
      let top = available_bound start (lookup watched limiter.buckets) in omega arith
