-- ===== src/Cluster/Route/Update.antt =====
-- The update of the route: when it succeeds, what it installs, and what a failure leaves.
use mathlib.Core.List.{Perm}
use mathlib.Core.List.Perm
use hiredis_vip.Base.{
  ℕ, ◌+◌, ◌%◌, ◌^◌, ◌<◌, List, [], Option, none, some, length, true, false, Bytes, ◌≡◌, refl, sym,
  ap, ◌⊎◌, inl, inr, ◌↔◌, arith, lt→ltb, ltb, ltb→lt, Bool-cases, All,
}
use hiredis_vip.Base.Int.{ℤ}
use hiredis_vip.Cluster.{ClusterSlot, redis_cluster_slots}
use hiredis_vip.Cluster.Context.{
  ClusterNode, RedisClusterContext, set_error, node_get_by_table, err_other,
}
use hiredis_vip.Command.Keywords.{codes}
use hiredis_vip.Cluster.Search.{found, node_get_by_slot}
use hiredis_vip.Cluster.Search.Laws.{IsOrdered, node_get_by_slot-found}
use hiredis_vip.Cluster.Route.{update_route, releases_twice, cluster_slot_start_cmp}
use hiredis_vip.Cluster.Route.Holders.{holders, length-holders, holders-Perm, held_by, length-Perm}
use hiredis_vip.Cluster.Route.Fill.{to_list, one_at_most, fill_table-Fills}
use hiredis_vip.Cluster.Route.Sorted.{Sorts, IsRegion, start_cmp-Ranks, ascending-IsOrdered}
use hiredis_vip.Cluster.Route.Collect.{
  IsRoute, Masters, InRange, regions_of, collect_slots-Takes, reordered-regions, All-get,
}

module _ {ℓ} {A : Type ℓ}
    (qsort : (ClusterSlot A → ClusterSlot A → ℤ) → List (ClusterSlot A) → List (ClusterSlot A))
    (ctx : RedisClusterContext A) (nodes : List (ClusterNode A)) where
  abbrev sorted : List (ClusterSlot A)
  sorted = qsort cluster_slot_start_cmp (regions_of nodes)

  abbrev after : RedisClusterContext A
  after = (update_route qsort ctx nodes).1

  abbrev Succeeds : Type 0
  Succeeds = (update_route qsort ctx nodes).0 ≡ true

  abbrev installed : (ℕ → Option A) → RedisClusterContext A
  installed table = record ctx {
    nodes = some nodes;
    slots = some sorted;
    table = table;
    route_version = (ctx.route_version + 1) % 2 ^ 64;
  }

  -- The two ways that the update can end.
  update_route-cases :
      Sorts qsort cluster_slot_start_cmp (regions_of nodes)
      → ((table : ℕ → Option A) × (update_route qsort ctx nodes ≡ (true, installed table))
          × IsRoute nodes
          × ((k : ℕ) → to_list (table k) ≡ holders sorted k))
        ⊎ ((type : ℕ) × (str : Bytes) × (update_route qsort ctx nodes
              ≡ (false, set_error ctx type str))
            × ¬ IsRoute nodes)
  unfolding update_route
  update_route-cases sorts = elim (collect_slots-Takes nodes []) [
    | inr ((type, str, e), no_good) ↦
        inr (type, str, rw (e, update_route) refl, λ route. no_good (route.masters, route.in_range))
    | inl (e, (masters, good)) ↦
        let length-same : (k : ℕ)
            → length (holders sorted k) ≡ length (holders (regions_of nodes) k) =
          λ k. length-holders k sorts.permutes in
        elim (fill_table-Fills sorted (λ k. none)
          (reordered-regions (regions_of nodes) sorted sorts.permutes good)) [
            | inl (table, e', held) ↦ inl (
              table,
              rw (e, e', update_route) refl,
              record {
                masters = masters;
                in_range = good;
                apart = λ k.
                    let bound = one_at_most (table k) in
                    omega (arith, bound, ap length (held k), length-same k);
              },
              held,
            )
            | inr (e', k, two) ↦ inr (
              err_other,
              codes "Diffent node hold a same slot",
              rw (e, e', update_route) refl,
              λ route. absurd (omega (arith, two, length-same k, route.apart k)),
            )
          ]
  ]

  sorted-IsOrdered :
      Sorts qsort cluster_slot_start_cmp (regions_of nodes) → IsRoute nodes → IsOrdered sorted
  sorted-IsOrdered sorts route =
      let before =
        All-get IsRegion (regions_of nodes)
          (reordered-regions (regions_of nodes) (regions_of nodes) Perm.rfl route.in_range) in
      ascending-IsOrdered sorted
        (All-get IsRegion sorted
          (reordered-regions (regions_of nodes) sorted sorts.permutes route.in_range))
        (λ k. let bound = route.apart k in omega (arith, length-holders k sorts.permutes))
        (sorts.ascends (λ s. s.start) (start_cmp-Ranks (regions_of nodes) before route.apart))

  -- The update succeeds exactly for nodes that are masters whose regions lie in the range of slots
  -- and hold no slot twice, given that `qsort` sorts the regions.
  pub update_route-IsRoute :
      Sorts qsort cluster_slot_start_cmp (regions_of nodes)
      → ((update_route qsort ctx nodes).0 ≡ true) ↔ IsRoute nodes
  update_route-IsRoute sorts = elim (update_route-cases sorts) [
    | inl (table, e, route, held) ↦ (λ h. route, λ h. ap (λ r. r.0) e)
    | inr (type, str, e, no_route) ↦
        (λ h. absurd (cc (ap (λ r. r.0) e, h)), λ h. absurd (no_route h))
  ]

  -- After an update that succeeds, the table gives each slot the node that the reply assigns to it, and
  -- no node where the reply assigns none; the nodes are those of the reply, and the version of the
  -- route is the next. `qsort` is to sort the regions.
  pub update_route-holders :
      Sorts qsort cluster_slot_start_cmp (regions_of nodes)
      → (update_route qsort ctx nodes).0 ≡ true
      → ((k : ℕ)
          → k < redis_cluster_slots
          → Perm
              (to_list (node_get_by_table (update_route qsort ctx nodes).1 k))
              (holders (regions_of nodes) k))
        × (((update_route qsort ctx nodes).1.nodes ≡ some nodes)
            × ((update_route qsort ctx nodes).1.route_version ≡ (ctx.route_version + 1) % 2 ^ 64))
  unfolding node_get_by_table
  update_route-holders sorts h = elim (update_route-cases sorts) [
    | inr (type, str, e, no_route) ↦ absurd (cc (ap (λ r. r.0) e, h))
    | inl (table, e, route, held) ↦ rw (e) (
      λ k lt. rw (lt→ltb k redis_cluster_slots lt, held k) (holders-Perm k sorts.permutes),
      (refl, refl),
    )
  ]

  clean-refused :
      Sorts qsort cluster_slot_start_cmp (regions_of nodes)
      → releases_twice qsort nodes ≡ false
      → (update_route qsort ctx nodes).0 ≡ false
      → ¬ (Masters nodes × All InRange (regions_of nodes))
  unfolding update_route releases_twice
  clean-refused sorts once h = elim (collect_slots-Takes nodes []) [
    | inr (_, no_good) ↦ no_good
    | inl (e, (masters, good)) ↦
        elim (fill_table-Fills sorted (λ k. none)
          (reordered-regions (regions_of nodes) sorted sorts.permutes good)) [
            | inl (table, e', held) ↦ absurd (cc (rw (e, e', update_route) at h))
            | inr (e', k, two) ↦ absurd (cc (rw (e, e', releases_twice) at once))
          ]
  ]

  -- An update that fails, and whose clean up does not release an iterator twice, leaves the old route in
  -- force: the table, the slots, the nodes and the version of the route are as before. Such a failure
  -- is due to a node that is no master or to a region that is out of range, never to a slot that two
  -- nodes hold: there the iterator on the nodes is always released twice. `qsort` is to sort the
  -- regions.
  pub update_route-kept :
      Sorts qsort cluster_slot_start_cmp (regions_of nodes)
      → releases_twice qsort nodes ≡ false
      → (update_route qsort ctx nodes).0 ≡ false
      → (¬ (Masters nodes × All InRange (regions_of nodes)))
        × (((update_route qsort ctx nodes).1.table ≡ ctx.table)
            × (((update_route qsort ctx nodes).1.slots ≡ ctx.slots)
                × (((update_route qsort ctx nodes).1.nodes ≡ ctx.nodes)
                    × ((update_route qsort ctx nodes).1.route_version ≡ ctx.route_version))))
  unfolding set_error
  update_route-kept sorts once h = elim (update_route-cases sorts) [
    | inl (table, e, route, held) ↦ absurd (cc (ap (λ r. r.0) e, h))
    | inr (type, str, e, no_route) ↦
        (clean-refused sorts once h, rw (e) (refl, (refl, (refl, refl))))
  ]

  -- After an update that succeeds, the binary search on the slots finds the node that the table has
  -- for a slot, for fewer than 2^32 regions. `qsort` is to sort the regions.
  pub update_route-node_get_by_slot :
      Sorts qsort cluster_slot_start_cmp (regions_of nodes)
      → (update_route qsort ctx nodes).0 ≡ true
      → length (regions_of nodes) < 2 ^ 32
      → (k : ℕ) (node : A) → node_get_by_table (update_route qsort ctx nodes).1 k ≡ some node
      → node_get_by_slot (update_route qsort ctx nodes).1.slots k ≡ found node
  unfolding node_get_by_table
  update_route-node_get_by_slot sorts h small k node e = elim (update_route-cases sorts) [
    | inr (type, str, e', no_route) ↦ absurd (cc (ap (λ r. r.0) e', h))
    | inl (table, e', route, held) ↦ elim (Bool-cases (ltb k redis_cluster_slots)) [
      | inr high ↦ absurd (cc (rw (e', high) at e))
      | inl low ↦
          let at : table k ≡ some node = rw (e', low) at e in
          let (i, s, got, covers, same) = held_by sorted k node (rw (at) at (held k)) in
          let count = length-Perm sorts.permutes in
          rw (e', sym same)
            (node_get_by_slot-found sorted k i s (sorted-IsOrdered sorts route) (omega arith)
              (ltb→lt k redis_cluster_slots low) got covers)
    ]
  ]
