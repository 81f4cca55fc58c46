-- ===== src/Hub/Rights.antt =====
-- server/src/main.rs and server/src/operation_routing.rs: whose an operation has to be for a message
-- of a dashboard, and whose it is afterwards, said without the code's own test.
use shellfleet.Common.{
  ℕ, ◌≡◌, refl, ◌↔◌, ◌⊎◌, inl, inr, Bool, true, String, Option, none, some, arith, ◌==◌, nat_eq,
  if◌then◌else◌, Option-cases, Bool-cases, ap, sym, ◌∙◌,
}
use shellfleet.Common.Dict.{lookup, lookup-insert, lookup-erase}
use shellfleet.Routing.Key.{OperationKey, MapKey, map_key_eq, map_key_beq_iff}
use shellfleet.Routing.Owners.{OperationOwners, owner, claim, release, owned_by}
use shellfleet.Routing.Classify.{UiOperation, start, use_existing, stop}
use shellfleet.Hub.Dispatch.{own}

-- An operation can be started if it is nobody's or the client's already, and used or stopped if it
-- is the client's. A message about no operation needs none.
abbrev pub MayUse : OperationOwners → String → ℕ → Option UiOperation → Type 0
MayUse o agent_id client_id none = Unit {0}
MayUse o agent_id client_id (some (start key)) =
    (owner o agent_id key ≡ none) ⊎ (owner o agent_id key ≡ some client_id)
MayUse o agent_id client_id (some (use_existing key)) = owner o agent_id key ≡ some client_id
MayUse o agent_id client_id (some (stop key)) = owner o agent_id key ≡ some client_id

abbrev same_key : MapKey → MapKey → Bool
same_key x y = x == y

-- Whose any operation is, after such a message.
abbrev pub owner_after :
    OperationOwners → String → ℕ → Option UiOperation → String → OperationKey → Option ℕ
owner_after o agent_id client_id none other k = owner o other k
owner_after o agent_id client_id (some (start key)) other k =
    if same_key (agent_id, key) (other, k) then some client_id else owner o other k
owner_after o agent_id client_id (some (use_existing key)) other k = owner o other k
owner_after o agent_id client_id (some (stop key)) other k =
    if same_key (agent_id, key) (other, k) then none else owner o other k

owned_by_iff : (found : Option ℕ) (c : ℕ) → (owned_by found c ≡ true) ↔ (found ≡ some c)
owned_by_iff none c = (λ h. cc, λ h. cc)
owned_by_iff (some d) c = (λ h. ground arith, λ h. ground arith)

module _ (o : OperationOwners) (agent_id : String) (client_id : ℕ) where
  pub own_iff :
      (op : Option UiOperation)
      → ((own o agent_id client_id op).1 ≡ true) ↔ MayUse o agent_id client_id op
  unfolding own claim release
  own_iff none = (λ h. tt, λ h. refl)
  own_iff (some (start key)) = elim (Option-cases (owner o agent_id key)) [
    | inl free ↦ (λ h. inl free, λ h. ground arith)
    | inr (current, held) ↦ (λ h. inr (ground arith), λ h. ground arith)
  ]
  own_iff (some (use_existing key)) = owned_by_iff (owner o agent_id key) client_id
  own_iff (some (stop key)) =
      let held = owned_by_iff (owner o agent_id key) client_id in
      (λ h. held.0 (ground arith), λ h. ground arith)

  pub own_after :
      (op : Option UiOperation) (other : String) (k : OperationKey)
      → MayUse o agent_id client_id op
      → owner (own o agent_id client_id op).0 other k ≡ owner_after o agent_id client_id op other k
  unfolding own claim release owner
  own_after none other k h = refl
  own_after (some (start key)) other k h = elim h [
    | inl free ↦
        let now = lookup-insert (agent_id, key) (other, k) client_id o.owners in ground arith
    | inr held ↦ elim (Bool-cases (same_key (agent_id, key) (other, k))) [
      | inr apart ↦ ground arith
      | inl same ↦
          let one = (map_key_beq_iff (agent_id, key) (other, k)).0 same in
          let there : lookup (other, k) o.owners ≡ some client_id =
            ap (λ x. lookup x o.owners) (sym one) ∙ held in
          ground arith
    ]
  ]
  own_after (some (use_existing key)) other k h = refl
  own_after (some (stop key)) other k h =
      let now = lookup-erase (agent_id, key) (other, k) o.owners in
      let mine = owned_by_iff (owner o agent_id key) client_id in ground arith
