-- ===== src/Cluster/Topology/Install.antt =====
-- A printed report on the slots becomes the route: the parse and the update together.
use mathlib.Core.List.{Perm}
use mathlib.Core.List.Perm
use hiredis_vip.Base.{ℕ, ◌<◌, List, ◌∷◌, map, some, Bool, true, Bytes, All, ◌≡◌, subst, arith}
use hiredis_vip.Base.Int.{ℤ}
use hiredis_vip.Cluster.{ClusterSlot, redis_cluster_slots}
use hiredis_vip.Cluster.Context.{RedisClusterContext, node_get_by_table}
use hiredis_vip.Cluster.Reply.{reply_array}
use hiredis_vip.Cluster.Route.{update_route, cluster_slot_start_cmp}
use hiredis_vip.Cluster.Route.Holders.{holders, length-holders, holders-Perm}
use hiredis_vip.Cluster.Route.Fill.{to_list}
use hiredis_vip.Cluster.Route.Sorted.{Sorts, Apart}
use hiredis_vip.Cluster.Route.Collect.{IsRoute, InRange, reordered-InRange}
use hiredis_vip.Cluster.Route.Update.{update_route-IsRoute, update_route-holders}
use hiredis_vip.Cluster.Topology.{Master, parse_cluster_slots, cluster_nodes}
use hiredis_vip.Cluster.Topology.Joins.{regions_in, AllMasters, owners-Masters}
use hiredis_vip.Cluster.Topology.Laws.{
  SlotReport, IsSlotReport, print_reports, region_of, parse_cluster_slots-print,
}

reported-IsRoute :
    (nodes : List Master) (reported : List (ClusterSlot Bytes))
    → AllMasters nodes
    → Perm (regions_in nodes) reported
    → All InRange reported
    → Apart reported
    → IsRoute (cluster_nodes nodes)
reported-IsRoute nodes reported masters perm in_range apart = record {
  masters = owners-Masters (cluster_nodes nodes) masters;
  in_range = reordered-InRange reported (regions_in nodes) perm in_range;
  apart = λ k. omega (arith, length-holders k perm, apart k);
}

-- The nodes that `parse_cluster_slots` makes of a printed report, as in the theorem on the parse, are
-- taken by the update of the route if the regions of the report lie in the range of slots and no slot
-- is in two of them; and then the table gives each slot the address of the master that the report
-- names for it, and no node where it names none. `qsort` is to sort the regions.
pub parse_cluster_slots-route :
    (qsort : (ClusterSlot Bytes → ClusterSlot Bytes → ℤ)
      → List (ClusterSlot Bytes)
      → List (ClusterSlot Bytes))
    (ctx : RedisClusterContext Bytes) (add_slave : Bool) (r : SlotReport) (rs : List SlotReport)
    (nodes : List Master)
    → All IsSlotReport (r ∷ rs)
    → All InRange (map region_of (r ∷ rs))
    → Apart (map region_of (r ∷ rs))
    → parse_cluster_slots ctx (reply_array (print_reports (r ∷ rs))) add_slave
      ≡ some (some nodes, ctx)
    → Sorts qsort cluster_slot_start_cmp (regions_in nodes)
    → ((update_route qsort ctx (cluster_nodes nodes)).0 ≡ true)
      × ((k : ℕ)
          → k < redis_cluster_slots
          → Perm
              (to_list (node_get_by_table (update_route qsort ctx (cluster_nodes nodes)).1 k))
              (holders (map region_of (r ∷ rs)) k))
parse_cluster_slots-route qsort ctx add_slave r rs nodes good in_range apart e sorts =
    let (nodes', e', masters', perm') = parse_cluster_slots-print ctx add_slave r rs good in
    let same : nodes' ≡ nodes = cc (e, e') in
    let masters = subst AllMasters same masters' in
    let perm = subst (λ ns. Perm (regions_in ns) (map region_of (r ∷ rs))) same perm' in
    let route = reported-IsRoute nodes (map region_of (r ∷ rs)) masters perm in_range apart in
    let taken = (update_route-IsRoute qsort ctx (cluster_nodes nodes) sorts).1 route in
    let (held, _) = update_route-holders qsort ctx (cluster_nodes nodes) sorts taken in
    (taken, λ k low. Perm.trans (held k low) (holders-Perm k perm))
