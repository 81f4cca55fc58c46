-- ===== src/Throttle/Lockout.antt =====
-- server/src/throttle.rs, `Throttle`: a key is locked after too many failures. Times are whole
-- seconds since 1970, so they are not negative.
use shellfleet.Common.{
  ℕ, ◌+◌, ◌-◌, ◌*◌, ◌^◌, min, Bool, String, Option, none, some, List, [], nat_eq, string_eq,
  if◌then◌else◌, ltb, leb,
}
use shellfleet.Common.Dict.{lookup, insert, erase, retain}

abbrev pub max_fails : ℕ
max_fails = 10

abbrev pub lock_secs : ℕ
lock_secs = 15 * 60

abbrev pub record_ttl_secs : ℕ
record_ttl_secs = 24 * 3600

pub record Record : Type 0 where
  pub fails : ℕ
  pub locked_until : ℕ
  pub last_touched : ℕ

abbrev default_record : Record
default_record = record { fails = 0; locked_until = 0; last_touched = 0 }

pub record Throttle : Type 0 where
  pub records : List (String × Record)

abbrev pub new : Throttle
new = record { records = [] }

pub data CheckResult : Type 0 where
  locked : (retry_after_secs : ℕ) → CheckResult
  clear : CheckResult

-- `now - r.last_touched < RECORD_TTL_SECS`, on signed numbers
unfoldable pub is_fresh : ℕ → Record → Bool
is_fresh now r = ltb now (r.last_touched + record_ttl_secs)

unfoldable pub verdict : ℕ → Option Record → CheckResult
verdict now none = clear
verdict now (some r) = if ltb now r.locked_until then locked (r.locked_until - now) else clear

unfoldable pub check : Throttle → String → ℕ → Throttle × CheckResult
check t key now =
    let map : List (String × Record) = retain (λ k r. is_fresh now r) t.records in
    (record { records = map }, verdict now (lookup key map))

-- `entry(..).or_default()`
unfoldable pub or_default : Option Record → Record
or_default none = default_record
or_default (some r) = r

-- `saturating_add` on 32 bits
abbrev saturating_suc : ℕ → ℕ
saturating_suc n = min (n + 1) (2 ^ 32 - 1)

unfoldable pub failed : ℕ → Record → Record
failed now r = record {
  fails = saturating_suc r.fails;
  locked_until = if leb max_fails (saturating_suc r.fails) then now + lock_secs else r.locked_until;
  last_touched = now;
}

unfoldable pub record_failure : Throttle → String → ℕ → Throttle
record_failure t key now = record {
  records = insert key (failed now (or_default (lookup key t.records))) t.records;
}

unfoldable pub record_success : Throttle → String → Throttle
record_success t key = record { records = erase key t.records }
