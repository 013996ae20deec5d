-- ===== src/Cluster/Topology/Tests.antt =====
-- A report of one region, with a replica, and reports that are refused.
use mathlib.Core.List.{Perm}
use mathlib.Core.List.Perm
use hiredis_vip.Base.{
  ℕ, zero, suc, ◌<◌, ◌≤◌, List, [], ◌∷◌, none, some, true, false, Bytes, ◌≡◌, refl, arith,
  get_elem?,
}
use hiredis_vip.Base.Int.{ℤ, pos}
use hiredis_vip.Command.Keywords.{codes}
use hiredis_vip.Decimal.{sdsll2str, write_digits, reverse_loop}
use hiredis_vip.Cluster.{ClusterSlot, redis_cluster_slots}
use hiredis_vip.Cluster.Context.{RedisClusterContext, role_master, role_slave, node_get_by_table}
use hiredis_vip.Cluster.Reply.{reply_array}
use hiredis_vip.Cluster.Route.{update_route, cluster_slot_start_cmp}
use hiredis_vip.Cluster.Route.Holders.{holders}
use hiredis_vip.Cluster.Route.Fill.{to_list}
use hiredis_vip.Cluster.Route.Sorted.{Sorts, Apart}
use hiredis_vip.Cluster.Topology.{Master, parse_cluster_slots, cluster_nodes}
use hiredis_vip.Cluster.Topology.Joins.{regions_in, AllMasters}
use hiredis_vip.Cluster.Topology.Laws.{
  Endpoint, SlotReport, IsEndpoint, IsSlotReport, print_reports, region_of,
  parse_cluster_slots-print,
}
use hiredis_vip.Cluster.Topology.Install.{parse_cluster_slots-route}

abbrev host : Bytes
host = codes "10.0.0.1"

abbrev at_port : ℕ → Endpoint
at_port port = record { ip = host; port = port; id = codes "id" }

abbrev one_region : SlotReport
one_region = record { start = 0; end = 9; master = at_port 6379; replicas = at_port 6380 ∷ [] }

abbrev unrouted : RedisClusterContext Bytes
unrouted = record {
  err = 0;
  errstr = [];
  ip = none;
  port = pos 0;
  slots = none;
  nodes = none;
  table = λ k. none;
  route_version = 0;
  max_redirect_count = 5;
  retry_count = 0;
  need_update_route = false;
}

abbrev the_region : ClusterSlot Bytes
the_region = record { start = 0; end = 9; node = codes "10.0.0.1:6379" }

abbrev the_master : Master
the_master = record {
  node = record {
    addr = codes "10.0.0.1:6379";
    host = host;
    port = pos 6379;
    role = role_master;
    slots = some (the_region ∷ []);
  };
  slaves = some (
      record {
        addr = codes "10.0.0.1:6380";
        host = host;
        port = pos 6380;
        role = role_slave;
        slots = none;
      }
      ∷ []);
}

parses :
    parse_cluster_slots unrouted (reply_array (print_reports (one_region ∷ []))) true
    ≡ some (some (the_master ∷ []), unrouted)
unfolding parse_cluster_slots sdsll2str write_digits reverse_loop
parses = refl

abbrev refused : Bytes
refused = codes "Command(cluster slots) reply error: slot begin is bigger than slot end."

-- A region that ends before it starts.
refuses :
    parse_cluster_slots unrouted
      (reply_array (print_reports (record one_region { start = 10 } ∷ [])))
      true
    ≡ some (none, record unrouted { err = 2; errstr = refused })
unfolding parse_cluster_slots
refuses = refl

at_port-IsEndpoint : (port : ℕ) → 1 ≤ port → port ≤ 65535 → IsEndpoint (at_port port)
at_port-IsEndpoint port low high = record { some_ip = λ e. absurd (cc e); low = low; high = high }

one_region-IsSlotReport : IsSlotReport one_region
one_region-IsSlotReport = record {
  ordered = omega arith;
  word = omega arith;
  master_good = at_port-IsEndpoint 6379 (omega arith) (omega arith);
  replicas_good = (at_port-IsEndpoint 6380 (omega arith) (omega arith), tt);
}

parse_cluster_slots-print_example :
    (nodes : List Master) × (parse_cluster_slots unrouted
        (reply_array (print_reports (one_region ∷ [])))
        true
      ≡ some (some nodes, unrouted))
    × AllMasters nodes
    × Perm (regions_in nodes) (region_of one_region ∷ [])
parse_cluster_slots-print_example =
    parse_cluster_slots-print unrouted true one_region [] (one_region-IsSlotReport, tt)

abbrev unsorted :
    (ClusterSlot Bytes → ClusterSlot Bytes → ℤ)
    → List (ClusterSlot Bytes)
    → List (ClusterSlot Bytes)
unsorted cmp slots = slots

no_second : (i j : ℕ) (t : ClusterSlot Bytes) → i < j → ¬ (get_elem? (the_region ∷ []) j ≡ some t)
no_second i zero t h e = absurd (omega arith)
no_second i (suc j) t h e = absurd (cc e)

one-Sorts : Sorts unsorted cluster_slot_start_cmp (regions_in (the_master ∷ []))
one-Sorts = record {
  permutes = Perm.rfl;
  ascends = λ rank ranks i j s t got got' h. absurd (no_second i j t h got');
}

one-Apart : Apart (region_of one_region ∷ [])
unfolding holders
one-Apart k = ground arith

parse_cluster_slots-route_example :
    ((update_route unsorted unrouted (cluster_nodes (the_master ∷ []))).0 ≡ true)
    × ((k : ℕ)
        → k < redis_cluster_slots
        → Perm
            (to_list (
              node_get_by_table
                (update_route unsorted unrouted (cluster_nodes (the_master ∷ []))).1
                k))
            (holders (region_of one_region ∷ []) k))
parse_cluster_slots-route_example =
    parse_cluster_slots-route unsorted unrouted true one_region [] (the_master ∷ [])
      (one_region-IsSlotReport, tt) ((omega arith, omega arith), tt) one-Apart parses one-Sorts
