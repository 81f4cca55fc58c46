-- ===== src/Throttle/Tests.antt =====
-- The limits on repeated attempts at concrete values.
use shellfleet.Common.{◌+◌, ◌*◌, ◌≤◌, refl, String, List, [], ◌∷◌, arith, nat_eq, string_eq}
use shellfleet.Common.Dict.{lookup}
use shellfleet.Throttle.Lockout.{max_fails, lock_secs, Record, Throttle}
use shellfleet.Throttle.Attempts.{IsValid, IsSoundEntry, Use, fails_at, succeeds_at}
use shellfleet.Throttle.Guesses.{guesses, guesses_bounded}

abbrev tired : Record
tired = record { fails = 9; locked_until = 0; last_touched = 100 }

abbrev nearly : Throttle
nearly = record { records = ("ana", tired) ∷ [] }

nearly_sound : (key : String) → IsSoundEntry (lookup key nearly.records)
unfolding lookup
nearly_sound key = ground arith

nearly-IsValid : IsValid nearly
unfolding lookup
nearly-IsValid = record { dict = (refl, tt); sound = nearly_sound }

abbrev uses : List Use
uses = fails_at "ana" 200 ∷ succeeds_at "bob" 250 ∷ fails_at "ana" 300 ∷ []

guesses_bounded_example : guesses "ana" nearly uses * lock_secs ≤ max_fails * lock_secs + 200
guesses_bounded_example =
    guesses_bounded "ana" nearly 100 uses nearly-IsValid
      (omega arith, (omega arith, (omega arith, tt))) (refl, (refl, (refl, tt)))
