-- ===== src/Cluster/Topology/Laws.antt =====
-- The report on the slots that a server prints is parsed to the masters and the regions that it names.
use mathlib.Core.List.Perm
use mathlib.Core.List.{Perm, perm_middle}
use hiredis_vip.Base.{
  ℕ, zero, suc, ◌%◌, ◌^◌, ◌≤◌, ◌<◌, List, [], ◌∷◌, ◌++◌, append-nil, map, Option, none, some, Bool,
  true, false, Bytes, All, ◌≡◌, ◌≢◌, refl, sym, subst, ◌⊎◌, inl, inr, arith, Bool-cases, ltb_of_le,
  lt→ltb, le→leb,
}
use hiredis_vip.Base.Int.{pos}
use hiredis_vip.Cluster.{ClusterSlot}
use hiredis_vip.Cluster.Context.{Role, role_master, role_slave, RedisClusterContext}
use hiredis_vip.Cluster.Reply.{
  Reply, Replies, reply_string, reply_array, reply_integer, no_more, reply_then,
}
use hiredis_vip.Cluster.Gather.{elements}
use hiredis_vip.Cluster.Net.{not_positive, list_of}
use hiredis_vip.Cluster.Route.Collect.{regions_of}
use hiredis_vip.Cluster.Topology.{
  Node, Master, Parsed, parsed, as_int, hi_valid_port, node_address, no_slots, node_get_with_slots,
  has_node, parse_slaves, parse_master, parse_regions, parse_region, parse_cluster_slots,
  with_slaves, on_parsed, ref_slot,
}
use hiredis_vip.Cluster.Topology.Joins.{
  regions_in, IsOwner, AllMasters, ref_slot-joins, with_slaves-kept, added-found, added-regions,
}

-- A node as a server reports it, and a region with its master and its replicas.
pub record Endpoint : Type 0 where
  pub ip : Bytes
  pub port : ℕ
  pub id : Bytes

pub record SlotReport : Type 0 where
  pub start : ℕ
  pub end : ℕ
  pub master : Endpoint
  pub replicas : List Endpoint

abbrev pub print_endpoint : Endpoint → Reply
print_endpoint e = reply_array (
    reply_then (reply_string e.ip)
      (reply_then (reply_integer (pos e.port)) (reply_then (reply_string e.id) no_more)))

abbrev pub print_endpoints : List Endpoint → Replies
print_endpoints [] = no_more
print_endpoints (e ∷ es) = reply_then (print_endpoint e) (print_endpoints es)

abbrev pub print_report : SlotReport → Reply
print_report r = reply_array (
    reply_then (reply_integer (pos r.start))
      (reply_then (reply_integer (pos r.end)) (print_endpoints (r.master ∷ r.replicas))))

abbrev pub print_reports : List SlotReport → Replies
print_reports [] = no_more
print_reports (r ∷ rs) = reply_then (print_report r) (print_reports rs)

-- An address that is not empty, a port from 1 to 65535, and a region of 32-bit numbers in order.
pub record IsEndpoint (e : Endpoint) : Type 0 where
  pub some_ip : e.ip ≢ []
  pub low : 1 ≤ e.port
  pub high : e.port ≤ 65535

pub record IsSlotReport (r : SlotReport) : Type 0 where
  pub ordered : r.start ≤ r.end
  pub word : r.end < 2 ^ 32
  pub master_good : IsEndpoint r.master
  pub replicas_good : All IsEndpoint r.replicas

-- The region that a report gives to the address of its master.
abbrev pub region_of : SlotReport → ClusterSlot Bytes
region_of r = record {
  start = r.start;
  end = r.end;
  node = node_address r.master.ip (pos r.master.port);
}

-- The region before it has a node.
abbrev unowned : SlotReport → ClusterSlot (Option Bytes)
unowned r = record { start = r.start; end = r.end; node = none }

abbrev node_at : Endpoint → Role → Node
node_at e role = record {
  addr = node_address e.ip (pos e.port);
  host = e.ip;
  port = as_int (pos e.port);
  role = role;
  slots = no_slots role;
}

Bytes-cases : (xs : Bytes) → (xs ≡ []) ⊎ ((b : ℕ) × (bs : Bytes) × (xs ≡ b ∷ bs))
Bytes-cases [] = inl refl
Bytes-cases (b ∷ bs) = inr (b, bs, refl)

not_zero : (n : ℕ) → 1 ≤ n → not_positive (pos n) ≡ false
not_zero zero h = absurd (omega arith)
not_zero (suc n) h = refl

as_int-small : (n : ℕ) → n < 2 ^ 31 → as_int (pos n) ≡ pos n
as_int-small n h = let same : n % 2 ^ 32 ≡ n = omega arith in rw (same, lt→ltb n (2 ^ 31) h) refl

node_get-endpoint :
    (e : Endpoint) (role : Role)
    → IsEndpoint e
    → node_get_with_slots (reply_string e.ip) (reply_integer (pos e.port)) role
      ≡ parsed (node_at e role)
unfolding node_get_with_slots hi_valid_port
node_get-endpoint e role good = elim (Bytes-cases e.ip) [
  | inl empty ↦ absurd (good.some_ip empty)
  | inr (b, ip, some_ip) ↦
      let low = good.low in
      let high = good.high in
      let positive : not_positive (pos e.port) ≡ false = not_zero e.port low in
      let small : as_int (pos e.port) ≡ pos e.port = as_int-small e.port (omega arith) in
      rw
        (
          some_ip,
          positive,
          small,
          le→leb 1 e.port low,
          le→leb e.port 65535 high,
          node_get_with_slots,
        )
        refl
]

parse_slaves-endpoints :
    (add_slave : Bool) (es : List Endpoint) (slaves : Option (List Node))
    → All IsEndpoint es
    → (slaves' : Option (List Node)) × (parse_slaves add_slave
          (elements (print_endpoints es))
          slaves
        ≡ parsed slaves')
unfolding parse_slaves
parse_slaves-endpoints add_slave [] slaves good = (slaves, refl)
parse_slaves-endpoints false (e ∷ es) slaves (first, good) =
    parse_slaves-endpoints false es slaves good
parse_slaves-endpoints true (e ∷ es) slaves (first, good) =
    let more = some (list_of slaves ++ (node_at e role_slave ∷ [])) in
    let (slaves', same) = parse_slaves-endpoints true es more good in
    (slaves', rw (node_get-endpoint e role_slave first) same)

-- What the parse of a region leaves: masters, and the region with those before.
abbrev Gains : List Master → ClusterSlot Bytes → Parsed (List Master) → Type 0
Gains nodes slot result =
    (nodes' : List Master) × (result ≡ parsed nodes')
    × AllMasters nodes'
    × Perm (regions_in nodes') (slot ∷ regions_in nodes)

abbrev extended : List Master → Endpoint → List Master
extended nodes e = nodes ++ (record { node = node_at e role_master; slaves = none } ∷ [])

-- A master that is new.
added-Gains :
    (add_slave : Bool) (nodes : List Master) (r : SlotReport)
    → IsSlotReport r
    → AllMasters nodes
    → Gains nodes (region_of r) (
        on_parsed (ref_slot (region_of r).node (unowned r) (extended nodes r.master)) (λ nodes'.
          on_parsed
            (parse_slaves add_slave (elements (print_endpoints r.replicas)) none)
            (λ slaves. parsed (with_slaves (region_of r).node slaves nodes'))))
added-Gains add_slave nodes r good masters =
    let new = node_at r.master role_master in
    let (same, masters1) = added-regions new nodes refl refl masters in
    let (nodes2, e2, masters2, perm) =
      ref_slot-joins new.addr (unowned r) (extended nodes r.master) (added-found new nodes)
        masters1 in
    let (slaves, e3) = parse_slaves-endpoints add_slave r.replicas none good.replicas_good in
    let kept = with_slaves-kept new.addr slaves nodes2 in
    (
      with_slaves new.addr slaves nodes2,
      rw (e2, e3) refl,
      subst (All IsOwner) (sym kept) masters2,
      subst (λ ns. Perm (regions_of ns) (region_of r ∷ regions_in nodes)) (sym kept)
          (subst (λ rs. Perm (regions_in nodes2) (region_of r ∷ rs)) same perm),
    )

parse_master-Gains :
    (add_slave : Bool) (nodes : List Master) (r : SlotReport)
    → IsSlotReport r
    → AllMasters nodes
    → Gains nodes (region_of r) (
        parse_master add_slave nodes r.start r.end
          (some (print_endpoint r.master))
          (elements (print_endpoints r.replicas)))
unfolding parse_master
parse_master-Gains add_slave nodes r good masters =
    let addr = (region_of r).node in
    elim (Bool-cases (has_node addr nodes)) [
      | inl found ↦
          let (nodes', e, masters', perm) = ref_slot-joins addr (unowned r) nodes found masters in
          (nodes', rw (found) e, masters', perm)
      | inr absent ↦
          let (nodes', e, masters', perm) = added-Gains add_slave nodes r good masters in
          (
            nodes',
            rw (absent, node_get-endpoint r.master role_master good.master_good, absent) e,
            masters',
            perm,
          )
    ]

parse_region-Gains :
    (add_slave : Bool) (nodes : List Master) (r : SlotReport)
    → IsSlotReport r
    → AllMasters nodes
    → Gains nodes (region_of r) (parse_region add_slave nodes (some (print_report r)))
parse_region-Gains add_slave nodes r good masters =
    let word = good.word in
    let ordered = good.ordered in
    let first : r.start % 2 ^ 32 ≡ r.start = omega arith in
    let last : r.end % 2 ^ 32 ≡ r.end = omega arith in
    let (nodes', e, masters', perm) = parse_master-Gains add_slave nodes r good masters in
    (nodes', rw (first, last, ltb_of_le r.end r.start ordered) e, masters', perm)

parse_regions-reports :
    (add_slave : Bool) (nodes : List Master) (rs : List SlotReport)
    → All IsSlotReport rs
    → AllMasters nodes
    → (nodes' : List Master) × (parse_regions add_slave nodes (elements (print_reports rs))
        ≡ parsed nodes')
      × AllMasters nodes'
      × Perm (regions_in nodes') (map region_of rs ++ regions_in nodes)
unfolding parse_regions
parse_regions-reports add_slave nodes [] good masters = (nodes, refl, masters, Perm.rfl)
parse_regions-reports add_slave nodes (r ∷ rs) (first, good) masters =
    let (nodes1, e1, masters1, perm1) = parse_region-Gains add_slave nodes r first masters in
    let (nodes2, e2, masters2, perm2) = parse_regions-reports add_slave nodes1 rs good masters1 in
    (
      nodes2,
      rw (e1) e2,
      masters2,
      Perm.trans perm2 (
          Perm.trans (Perm.append_left (map region_of rs) perm1)
            (perm_middle (map region_of rs) (regions_in nodes))),
    )

-- `parse_cluster_slots` of a printed report that is not empty, with an address, a port from 1 to 65535 and
-- a region of 32-bit numbers in order in each entry, gives masters, each of whose regions has that master
-- as its node, whose regions are together those of the report up to their order, each with the address of
-- its master, and leaves the context as it is; so whether the replicas are added or not.
pub parse_cluster_slots-print {ℓ} :
    {A : Type ℓ} (ctx : RedisClusterContext A) (add_slave : Bool) (r : SlotReport)
    (rs : List SlotReport)
    → All IsSlotReport (r ∷ rs)
    → (nodes : List Master) × (parse_cluster_slots ctx
          (reply_array (print_reports (r ∷ rs)))
          add_slave
        ≡ some (some nodes, ctx))
      × AllMasters nodes
      × Perm (regions_in nodes) (map region_of (r ∷ rs))
unfolding parse_cluster_slots
parse_cluster_slots-print ctx add_slave r rs good =
    let (nodes, e, masters, perm) = parse_regions-reports add_slave [] (r ∷ rs) good tt in
    (
      nodes,
      rw (e, parse_cluster_slots) refl,
      masters,
      subst (Perm (regions_in nodes)) (append-nil (map region_of (r ∷ rs))) perm,
    )
