-- ===== src/Routing/Ownership.antt =====
-- server/src/operation_routing.rs: the owner map against a specification in which ownership is a
-- function from operations to clients.
use mathlib.Core.Path.{fun_ext}
use shellfleet.Common.{
  ℕ, ◌≡◌, refl, ◌∙◌, ap, ◌⊎◌, inl, inr, Bool, true, false, not, String, Option, none, some, List,
  [], ◌∷◌, arith, ◌==◌, nat_eq, string_eq, nat_beq_iff, if◌then◌else◌, Option-cases, Bool-cases,
}
use shellfleet.Common.Dict
use shellfleet.Common.Dict.{
  lookup-retain, lookup-erase, IsDict, lookup, lookup-insert, insert-IsDict, erase-IsDict,
  retain-IsDict,
}
use shellfleet.Routing.Key.{map_key_beq_iff, OperationKey, MapKey, map_key_eq}
use shellfleet.Routing.Owners.{
  empty, OperationOwners, owner, claim, owned_by, release, release_agent_operation, release_client,
  release_agent,
}

pub data Call : Type 0 where
  claims releases : String → OperationKey → ℕ → Call
  ends : String → OperationKey → Call
  client_gone : ℕ → Call
  agent_gone : String → Call

-- One call of the program's map, with the answer that it gives (`true` where it gives none).
unfoldable pub call : OperationOwners → Call → OperationOwners × Bool
call o (claims a k c) = claim o a k c
call o (releases a k c) = release o a k c
call o (ends a k) = (release_agent_operation o a k, true)
call o (client_gone c) = (release_client o c, true)
call o (agent_gone a) = (release_agent o a, true)

-- The specification: who owns each operation.
abbrev pub Ownership : Type 0
Ownership = MapKey → Option ℕ

abbrev put : Ownership → MapKey → Option ℕ → Ownership
put w x v y = if x == y then v else w y

abbrev drop_client : ℕ → Option ℕ → Option ℕ
drop_client c none = none
drop_client c (some d) = if not (d == c) then some d else none

spec_claim : Ownership → MapKey → ℕ → Option ℕ → Ownership × Bool
spec_claim w x c none = (put w x (some c), true)
spec_claim w x c (some d) = (w, d == c)

spec_release : Ownership → MapKey → Bool → Ownership × Bool
spec_release w x true = (put w x none, true)
spec_release w x false = (w, false)

unfoldable pub spec_call : Ownership → Call → Ownership × Bool
unfolding spec_claim spec_release
spec_call w (claims a k c) = spec_claim w (a, k) c (w (a, k))
spec_call w (releases a k c) = spec_release w (a, k) (owned_by (w (a, k)) c)
spec_call w (ends a k) = (put w (a, k) none, true)
spec_call w (client_gone c) = (λ x. drop_client c (w x), true)
spec_call w (agent_gone a) = (λ x. if not (x.0 == a) then w x else none, true)

abbrev pub IsValid : OperationOwners → Type 0
IsValid o = IsDict o.owners

abbrev pub view : OperationOwners → Ownership
view o x = owner o x.0 x.1

pub call-IsValid : (o : OperationOwners) (c : Call) → IsValid o → IsValid (call o c).0
unfolding call claim release release_agent_operation release_client release_agent
call-IsValid o (claims a k c) h = ground (arith, insert-IsDict (a, k) c o.owners h)
call-IsValid o (releases a k c) h = ground (arith, erase-IsDict (a, k) o.owners h)
call-IsValid o (ends a k) h = erase-IsDict (a, k) o.owners h
call-IsValid o (client_gone c) h = retain-IsDict _ o.owners h
call-IsValid o (agent_gone a) h = retain-IsDict _ o.owners h

view-call_claims :
    (o : OperationOwners) (a : String) (k : OperationKey) (c : ℕ)
    → (view (claim o a k c).0 ≡ (spec_claim (view o) (a, k) c (owner o a k)).0)
      × ((claim o a k c).1 ≡ (spec_claim (view o) (a, k) c (owner o a k)).1)
unfolding claim spec_claim owner
view-call_claims o a k c = elim (Option-cases (lookup (a, k) o.owners)) [
  | inl free ↦ rw (free, claim, spec_claim) (fun_ext (λ x. lookup-insert (a, k) x c o.owners), refl)
  | inr (d, held) ↦ rw (held, claim, spec_claim) (refl, refl)
]

view-call_releases :
    (o : OperationOwners) (a : String) (k : OperationKey) (c : ℕ)
    → (view (release o a k c).0 ≡ (spec_release (view o) (a, k) (owned_by (owner o a k) c)).0)
      × ((release o a k c).1 ≡ (spec_release (view o) (a, k) (owned_by (owner o a k) c)).1)
unfolding release spec_release owner
view-call_releases o a k c = elim (Bool-cases (owned_by (lookup (a, k) o.owners) c)) [
  | inl mine ↦ rw mine (fun_ext (λ x. lookup-erase (a, k) x o.owners), refl)
  | inr other ↦ rw other (refl, refl)
]

dropped :
    (p : MapKey → ℕ → Bool) (w : MapKey → Option ℕ → Option ℕ)
    → ((x : MapKey) (d : ℕ) → (if p x d then some d else none) ≡ w x (some d))
    → ((x : MapKey) → none ≡ w x none)
    → (x : MapKey) (v : Option ℕ) → Dict.kept p x v ≡ w x v
dropped p w some_case none_case x none = none_case x
dropped p w some_case none_case x (some d) = some_case x d

-- On a valid map, each call leaves the owners that the specification says and answers the same.
pub view-call :
    (o : OperationOwners) (c : Call)
    → IsValid o
    → (view (call o c).0 ≡ (spec_call (view o) c).0) × ((call o c).1 ≡ (spec_call (view o) c).1)
unfolding call spec_call release_agent_operation release_client release_agent owner
view-call o (claims a k c) h = view-call_claims o a k c
view-call o (releases a k c) h = view-call_releases o a k c
view-call o (ends a k) h = (fun_ext (λ x. lookup-erase (a, k) x o.owners), refl)
view-call o (client_gone c) h = (
  fun_ext (λ x.
      lookup-retain _ x o.owners h ∙ dropped _ (λ y. drop_client c) (λ y d. refl) (λ y. refl) x _),
  refl,
)
view-call o (agent_gone a) h = (
  fun_ext (λ x.
      lookup-retain _ x o.owners h
      ∙ dropped _ (λ y v. if not (y.0 == a) then v else none) (λ y d. refl) (λ y. ground arith) x
          _),
  refl,
)

pub run : OperationOwners → List Call → OperationOwners
run o [] = o
run o (c ∷ cs) = run (call o c).0 cs

pub spec_run : Ownership → List Call → Ownership
spec_run w [] = w
spec_run w (c ∷ cs) = spec_run (spec_call w c).0 cs

view-run :
    (o : OperationOwners) (cs : List Call) → IsValid o → view (run o cs) ≡ spec_run (view o) cs
unfolding run spec_run
view-run o [] h = refl
view-run o (c ∷ cs) h =
    view-run (call o c).0 cs (call-IsValid o c h) ∙ ap (λ w. spec_run w cs) (view-call o c h).0

run-IsValid : (o : OperationOwners) (cs : List Call) → IsValid o → IsValid (run o cs)
unfolding run
run-IsValid o [] h = h
run-IsValid o (c ∷ cs) h = run-IsValid (call o c).0 cs (call-IsValid o c h)

-- After any calls on a new map, the map is valid and its owners are those that the specification
-- computes from nobody owning anything.
pub run-empty :
    (cs : List Call) → IsValid (run empty cs) × (view (run empty cs) ≡ spec_run (λ x. none) cs)
unfolding empty owner Dict.lookup
run-empty cs = (run-IsValid empty cs tt, view-run empty cs tt)

-- A claim succeeds exactly when the client owns the operation afterwards. It leaves every
-- operation with the owner that it had, but for the claimed one if nobody owned it, which the
-- client owns afterwards.
claim_exclusive :
    (o : OperationOwners) (a b : String) (k l : OperationKey) (c : ℕ)
    → ((claim o a k c).1 ≡ owned_by (owner (claim o a k c).0 a k) c)
      × ((owner (claim o a k c).0 b l ≡ owner o b l)
          ⊎ ((b ≡ a) × (l ≡ k) × (owner o a k ≡ none) × (owner (claim o a k c).0 a k ≡ some c)))
unfolding claim owner
claim_exclusive o a b k l c = (
  ground (
    arith,
    lookup-insert (a, k) (a, k) c o.owners,
    map_key_beq_iff (a, k) (a, k),
    nat_beq_iff c c,
  ),
  ground (
    arith,
    lookup-insert (a, k) (a, k) c o.owners,
    lookup-insert (a, k) (b, l) c o.owners,
    map_key_beq_iff (a, k) (b, l),
    map_key_beq_iff (a, k) (a, k),
  ),
)

-- A release is granted to the owner of the operation and to nobody else. A refused release changes
-- nothing; every operation keeps its owner, but for the released one, which has none afterwards.
pub release_only_owner :
    (o : OperationOwners) (a b : String) (k l : OperationKey) (c : ℕ)
    → ((release o a k c).1 ≡ owned_by (owner o a k) c)
      × (((release o a k c).1 ≡ true) ⊎ ((release o a k c).0 ≡ o))
      × ((owner (release o a k c).0 b l ≡ owner o b l)
          ⊎ ((b ≡ a) × (l ≡ k) × (owner o a k ≡ some c) × (owner (release o a k c).0 a k ≡ none)))
unfolding release owner
release_only_owner o a b k l c = (
  ground arith,
  ground arith,
  ground (
    arith,
    lookup-erase (a, k) (a, k) o.owners,
    lookup-erase (a, k) (b, l) o.owners,
    map_key_beq_iff (a, k) (b, l),
    map_key_beq_iff (a, k) (a, k),
  ),
)
