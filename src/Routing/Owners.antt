-- ===== src/Routing/Owners.antt =====
-- server/src/operation_routing.rs: `OperationOwners`. The field `owners` is its map.
use shellfleet.Common.{
  ℕ, Bool, true, false, not, String, Option, none, some, List, [], ◌==◌, nat_eq, string_eq,
  if◌then◌else◌,
}
use shellfleet.Common.Dict.{lookup, insert, erase, retain}
use shellfleet.Routing.Key.{OperationKey, MapKey, map_key_eq}

pub record OperationOwners : Type 0 where
  pub owners : List (MapKey × ℕ)

unfoldable pub empty : OperationOwners
empty = record { owners = [] }

-- `self.owners.get(&(agent_id, key))`
unfoldable pub owner : OperationOwners → String → OperationKey → Option ℕ
owner o agent_id key = lookup (agent_id, key) o.owners

-- A claim returns whether the client owns the operation now.
unfoldable pub claim : OperationOwners → String → OperationKey → ℕ → OperationOwners × Bool
unfolding owner
claim o agent_id key client_id = elim (owner o agent_id key) [
  | some current ↦ (o, current == client_id)
  | none ↦ (record o { owners = insert (agent_id, key) client_id o.owners }, true)
]

abbrev pub owned_by : Option ℕ → ℕ → Bool
owned_by none client_id = false
owned_by (some current) client_id = current == client_id

unfoldable pub release : OperationOwners → String → OperationKey → ℕ → OperationOwners × Bool
unfolding owner
release o agent_id key client_id =
    if owned_by (owner o agent_id key) client_id
    then (record o { owners = erase (agent_id, key) o.owners }, true)
    else (o, false)

unfoldable pub release_agent_operation : OperationOwners → String → OperationKey → OperationOwners
release_agent_operation o agent_id key = record o { owners = erase (agent_id, key) o.owners }

unfoldable pub release_client : OperationOwners → ℕ → OperationOwners
release_client o client_id = record o {
  owners = retain (λ key current. not (current == client_id)) o.owners;
}

unfoldable pub release_agent : OperationOwners → String → OperationOwners
release_agent o agent_id = record o {
  owners = retain (λ key current. not (key.0 == agent_id)) o.owners;
}
