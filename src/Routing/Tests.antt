-- ===== src/Routing/Tests.antt =====
-- The ownership of operations at concrete values.
use shellfleet.Common.{◌≡◌, none, List, [], ◌∷◌, nat_eq, string_eq}
use shellfleet.Routing.Key.{docker_exec}
use shellfleet.Routing.Owners.{empty}
use shellfleet.Routing.Ownership.{Call, claims, ends, IsValid, view, run, spec_run, run-empty}

abbrev calls : List Call
calls = claims "a1" docker_exec 1 ∷ claims "a1" docker_exec 2 ∷ ends "a1" docker_exec ∷ []

run-empty_example :
    IsValid (run empty calls) × (view (run empty calls) ≡ spec_run (λ x. none) calls)
run-empty_example = run-empty calls
