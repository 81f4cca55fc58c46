-- ===== src/Routing/Key.antt =====
-- server/src/operation_routing.rs: `OperationKey` and its equality, and the keys of the owner map.
use shellfleet.Common.{
  ◌≡◌, ◌↔◌, Bool, true, false, ◌&&◌, String, arith, PartialEq, ◌==◌, string_eq, eq_iff,
}

pub data OperationKey : Type 0 where
  terminal : String → OperationKey
  docker_exec : OperationKey
  k8s_logs : String → OperationKey
  docker_logs : String → OperationKey
  journal_logs : String → OperationKey
  journal_stream : String → OperationKey
  trusted : String → OperationKey

abbrev key_beq : OperationKey → OperationKey → Bool
key_beq (terminal a) (terminal b) = a == b
key_beq docker_exec docker_exec = true
key_beq (k8s_logs a) (k8s_logs b) = a == b
key_beq (docker_logs a) (docker_logs b) = a == b
key_beq (journal_logs a) (journal_logs b) = a == b
key_beq (journal_stream a) (journal_stream b) = a == b
key_beq (trusted a) (trusted b) = a == b
key_beq _ _ = false

key_beq_iff : (a b : OperationKey) → (key_beq a b ≡ true) ↔ (a ≡ b)
key_beq_iff (terminal a) (terminal b) = ground (arith, eq_iff a b)
key_beq_iff (k8s_logs a) (k8s_logs b) = ground (arith, eq_iff a b)
key_beq_iff (docker_logs a) (docker_logs b) = ground (arith, eq_iff a b)
key_beq_iff (journal_logs a) (journal_logs b) = ground (arith, eq_iff a b)
key_beq_iff (journal_stream a) (journal_stream b) = ground (arith, eq_iff a b)
key_beq_iff (trusted a) (trusted b) = ground (arith, eq_iff a b)
key_beq_iff a b = ground arith

-- The key of the owner map: an agent and one of its operations.
abbrev pub MapKey : Type 0
MapKey = String × OperationKey

unfoldable pub map_key_beq : MapKey → MapKey → Bool
map_key_beq (a, k) (b, l) = a == b && key_beq k l

pub map_key_beq_iff : (x y : MapKey) → (map_key_beq x y ≡ true) ↔ (x ≡ y)
unfolding map_key_beq
map_key_beq_iff (a, k) (b, l) = ground (arith, eq_iff a b, key_beq_iff k l)

instance abbrev pub map_key_eq : PartialEq MapKey
map_key_eq = record { eq = map_key_beq; eq_exact = map_key_beq_iff }
