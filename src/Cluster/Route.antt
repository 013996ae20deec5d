-- ===== src/Cluster/Route.antt =====
-- hircluster.c: the route, from the nodes that a server reports to the table of slots. `qsort` is the
-- library's, which `hiarray_sort` calls.
use hiredis_vip.Base.{
  ℕ, zero, suc, ◌+◌, ◌-◌, ◌%◌, ◌^◌, List, [], ◌∷◌, ◌++◌, Option, none, some, ltb, leb, ◌==◌, ◌||◌,
  if◌then◌else◌, Bool, true, false, Bytes, ◌≡◌, refl,
}
use hiredis_vip.Base.Int.{ℤ, pos, negsuc}
use hiredis_vip.Command.Keywords.{codes}
use hiredis_vip.Cluster.{ClusterSlot, redis_cluster_slots}
use hiredis_vip.Cluster.Context.{
  ClusterNode, Role, role_master, RedisClusterContext, err_other, err_oom, set_error,
}
pub mod Holders
pub mod Fill
pub mod Sorted
pub mod Collect
pub mod Update
mod Tests

-- A jump to `error`, with what it reports, or the value that the code goes on with.
pub data Routed {ℓ} (B : Type ℓ) : Type ℓ where
  refused : ℕ → Bytes → Routed B
  routed : B → Routed B

-- `cluster_slot_start_cmp`
unfoldable pub cluster_slot_start_cmp {ℓ} : {A : Type ℓ} → ClusterSlot A → ClusterSlot A → ℤ
cluster_slot_start_cmp s1 s2 = if ltb s2.start s1.start then pos 1 else negsuc 0

-- `role == REDIS_ROLE_MASTER`
abbrev pub is_master : Role → Bool
is_master role_master = true
is_master _ = false

module _ {ℓ} {A : Type ℓ} where
  -- The loop on the slots of a master.
  unfoldable pub push_regions :
      List (ClusterSlot A) → List (ClusterSlot A) → Routed (List (ClusterSlot A))
  push_regions [] slots = routed slots
  push_regions (slot ∷ rest) slots =
      elim (ltb slot.end slot.start || leb redis_cluster_slots slot.end) [
        | true ↦ refused err_other (codes "Slot region for node is error")
        | false ↦ push_regions rest (slots ++ (slot ∷ []))
      ]

  -- The loop on the nodes.
  unfoldable pub collect_slots :
      List (ClusterNode A) → List (ClusterSlot A) → Routed (List (ClusterSlot A))
  unfolding push_regions
  collect_slots [] slots = routed slots
  collect_slots (master ∷ rest) slots = elim (is_master master.role) [
    | true ↦ elim master.slots [
      | none ↦ collect_slots rest slots
      | some regions ↦ elim (push_regions regions slots) [
        | refused type str ↦ refused type str
        | routed slots' ↦ collect_slots rest slots'
      ]
    ]
    | false ↦ refused err_oom (codes "Node role must be master")
  ]

  -- `table[k] = node`
  abbrev pub assign : (ℕ → Option A) → ℕ → A → ℕ → Option A
  assign table k node n = if n == k then some node else table n

  -- The loop on k, which has `count` slots left; `none` is a slot that is held already.
  unfoldable pub fill_region : ℕ → ℕ → A → (ℕ → Option A) → Option (ℕ → Option A)
  fill_region zero k node table = some table
  fill_region (suc count) k node table = elim (table k) [
    | some other ↦ none
    | none ↦ fill_region count (suc k) node (assign table k node)
  ]

  -- The loop on j.
  unfoldable pub fill_table : List (ClusterSlot A) → (ℕ → Option A) → Option (ℕ → Option A)
  unfolding fill_region
  fill_table [] table = some table
  fill_table (slot ∷ rest) table =
      elim (fill_region (slot.end + 1 - slot.start) slot.start slot.node table) [
        | none ↦ none
        | some table' ↦ fill_table rest table'
      ]

  -- Whether a failure in the loop on the nodes finds `lit` as it was left by a node before, whose iterator
  -- is released already.
  unfoldable pub stale_lit : List (ClusterNode A) → Bool → Bool
  unfolding push_regions
  stale_lit [] lit = false
  stale_lit (master ∷ rest) lit = elim (is_master master.role) [
    | true ↦ elim master.slots [
      | none ↦ stale_lit rest lit
      | some regions ↦ elim (push_regions regions []) [
        | refused type str ↦ false
        | routed slots' ↦ stale_lit rest true
      ]
    ]
    | false ↦ lit
  ]

  -- Whether the code behind `error` releases an iterator that is released already: `dit` is, behind the
  -- loop on the nodes.
  unfoldable pub releases_twice :
      ((ClusterSlot A → ClusterSlot A → ℤ) → List (ClusterSlot A) → List (ClusterSlot A))
      → List (ClusterNode A)
      → Bool
  unfolding collect_slots fill_table stale_lit cluster_slot_start_cmp
  releases_twice qsort nodes = elim (collect_slots nodes []) [
    | refused type str ↦ stale_lit nodes false
    | routed collected ↦ elim (fill_table (qsort cluster_slot_start_cmp collected) (λ k. none)) [
      | none ↦ true
      | some table ↦ false
    ]
  ]

  -- `cluster_update_route_by_addr`, from the nodes that the reply was parsed into. What it leaves where it
  -- fails is left only if the clean up does not release an iterator twice, which `releases_twice` tells.
  unfoldable pub update_route :
      ((ClusterSlot A → ClusterSlot A → ℤ) → List (ClusterSlot A) → List (ClusterSlot A))
      → RedisClusterContext A
      → List (ClusterNode A)
      → Bool × RedisClusterContext A
  unfolding collect_slots fill_table cluster_slot_start_cmp
  update_route qsort cc nodes = elim (collect_slots nodes []) [
    | refused type str ↦ (false, set_error cc type str)
    | routed collected ↦
        let slots = qsort cluster_slot_start_cmp collected in
        elim (fill_table slots (λ k. none)) [
          | none ↦ (false, set_error cc err_other (codes "Diffent node hold a same slot"))
          | some table ↦ (
            true,
            record cc {
              nodes = some nodes;
              slots = some slots;
              table = table;
              route_version = (cc.route_version + 1) % 2 ^ 64;
            },
          )
        ]
  ]
