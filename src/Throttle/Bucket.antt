-- ===== src/Throttle/Bucket.antt =====
-- server/src/throttle.rs, `IpBucketLimiter`: the token bucket of each address. The clock counts
-- ticks, `per_sec` of them in a second, and tokens are counted in parts that refill one for each
-- tick: with half a token in a second, a token is `2 * per_sec` parts. That is exact, where the
-- code rounds to 64-bit floating point.
use shellfleet.Common.{
  ℕ, ◌+◌, ◌-◌, ◌*◌, min, Bool, true, false, String, Option, none, some, List, [], nat_eq, string_eq,
  if◌then◌else◌, ltb, leb,
}
use shellfleet.Common.Dict.{lookup, insert, retain}
use shellfleet.Throttle.Lockout.{record_ttl_secs}

abbrev pub anon_bucket_capacity : ℕ
anon_bucket_capacity = 30

pub record Bucket : Type 0 where
  pub tokens : ℕ
  pub last_touched : ℕ

pub record IpBucketLimiter : Type 0 where
  pub buckets : List (String × Bucket)

abbrev pub no_buckets : IpBucketLimiter
no_buckets = record { buckets = [] }

module _ (per_sec : ℕ) where
  -- One token, and a full bucket, in parts.
  abbrev pub one : ℕ
  one = 2 * per_sec

  abbrev pub full : ℕ
  full = anon_bucket_capacity * one

  -- `now - b.last_touched < RECORD_TTL_SECS`, on signed numbers
  unfoldable pub is_recent : ℕ → Bucket → Bool
  is_recent now b = ltb now (b.last_touched + record_ttl_secs * per_sec)

  -- `entry(..).or_insert_with(..)`
  unfoldable pub or_full : ℕ → Option Bucket → Bucket
  or_full now none = record { tokens = full; last_touched = now }
  or_full now (some b) = b

  -- `(now - b.last_touched).max(0.0)` is the difference that stops at 0.
  unfoldable pub refill : ℕ → Bucket → Bucket
  refill now b = record {
    tokens = min (b.tokens + (now - b.last_touched)) full;
    last_touched = now;
  }

  unfoldable pub spend : Bucket → Bucket × Bool
  spend b = if leb one b.tokens then (record b { tokens = b.tokens - one }, true) else (b, false)

  unfoldable pub allow : IpBucketLimiter → String → ℕ → IpBucketLimiter × Bool
  allow limiter ip now =
      let map : List (String × Bucket) = retain (λ k b. is_recent now b) limiter.buckets in
      let b : Bucket × Bool = spend (refill now (or_full now (lookup ip map))) in
      (record { buckets = insert ip b.0 map }, b.1)
