-- ===== src/Cluster/Search.antt =====
-- hircluster.c: `node_get_by_slot`, the binary search for the region of a slot.
use hiredis_vip.Base.{
  ℕ, zero, suc, ◌+◌, ◌-◌, ◌/◌, ◌^◌, List, Option, none, some, length, get_elem?, ltb, leb,
  if◌then◌else◌, Bool, true, false,
}
use hiredis_vip.Array.{u32}
use hiredis_vip.Cluster.{ClusterSlot, redis_cluster_slots}
pub mod Laws
mod Tests

-- What a search comes to: `missing` is NULL, `fault` a read outside of the array, and `out_of_fuel`
-- is the model's alone.
pub data Lookup {ℓ} (A : Type ℓ) : Type ℓ where
  found : A → Lookup A
  missing fault out_of_fuel : Lookup A

module _ {ℓ} {A : Type ℓ} where
  -- The loop, from the bounds `start` and `end`, which wrap.
  unfoldable pub search_loop : ℕ → List (ClusterSlot A) → ℕ → ℕ → ℕ → Lookup A
  search_loop zero slots slot_num first last = out_of_fuel
  search_loop (suc fuel) slots slot_num first last =
      let stop = leb last first in
      let middle = if stop then last else first + (last - first) / 2 in
      elim (get_elem? slots middle) [
        | none ↦ fault
        | some slot ↦ elim (ltb slot_num slot.start) [
          | true ↦ elim stop [
            | true ↦ missing
            | false ↦ search_loop fuel slots slot_num first (u32 (middle + 2 ^ 32 - 1))
          ]
          | false ↦ elim (ltb slot.end slot_num) [
            | true ↦ elim stop [
              | true ↦ missing
              | false ↦ search_loop fuel slots slot_num (u32 (middle + 1)) last
            ]
            | false ↦ found slot.node
          ]
        ]
      ]

  -- `node_get_by_slot`; each round but the last makes the range of the search smaller.
  unfoldable pub node_get_by_slot : Option (List (ClusterSlot A)) → ℕ → Lookup A
  unfolding search_loop
  node_get_by_slot none slot_num = missing
  node_get_by_slot (some slots) slot_num =
      if leb redis_cluster_slots slot_num
      then missing
      else search_loop (length slots + 2) slots slot_num 0 (u32 (length slots + 2 ^ 32 - 1))
