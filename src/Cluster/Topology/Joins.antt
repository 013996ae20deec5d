-- ===== src/Cluster/Topology/Joins.antt =====
-- A region that joins the node of its address.
use mathlib.Core.List.Perm
use mathlib.Core.List.{Perm, perm_middle, perm_append_singleton}
use hiredis_vip.Base.{
  List, [], ◌∷◌, ◌++◌, Option, none, some, true, Bytes, ◌≡◌, refl, ap, ap₂, subst, inl, inr,
  Bool-cases, ==_refl, ==_iff, ◌==◌, ℕ, All,
}
use hiredis_vip.Cluster.{ClusterSlot}
use hiredis_vip.Cluster.Context.{ClusterNode, Role, role_master, role_null, role_slave}
use hiredis_vip.Cluster.Net.{same_text, list_of}
use hiredis_vip.Cluster.Route.{is_master}
use hiredis_vip.Cluster.Route.Collect.{Masters, regions_of}
use hiredis_vip.Cluster.Topology.{
  Node, Master, parsed, owned_by, has_node, cluster_slot_ref_node, ref_slot, with_slaves,
  cluster_node_of, cluster_nodes,
}

-- The regions of the nodes that are parsed, and that all of them are masters.
abbrev pub regions_in : List Master → List (ClusterSlot Bytes)
regions_in nodes = regions_of (cluster_nodes nodes)

-- A master, each of whose regions has it as its node.
abbrev pub IsOwner : ClusterNode Bytes → Type 0
IsOwner c = (is_master c.role ≡ true) × All (λ s. s.node ≡ c.self) (list_of c.slots)

abbrev pub AllMasters : List Master → Type 0
AllMasters nodes = All IsOwner (cluster_nodes nodes)

pub owners-Masters : (cs : List (ClusterNode Bytes)) → All IsOwner cs → Masters cs
owners-Masters [] owners = tt
owners-Masters (c ∷ cs) ((master, own), owners) = (master, owners-Masters cs owners)

All-snoc :
    (addr : Bytes) (slots : List (ClusterSlot Bytes)) (slot : ClusterSlot Bytes)
    → All (λ s. s.node ≡ addr) slots
    → slot.node ≡ addr
    → All (λ s. s.node ≡ addr) (slots ++ (slot ∷ []))
All-snoc addr [] slot all e = (e, tt)
All-snoc addr (s ∷ slots) slot (h, all) e = (h, All-snoc addr slots slot all e)

pub same_text-≡ : (xs ys : Bytes) → same_text xs ys ≡ true → xs ≡ ys
unfolding same_text
same_text-≡ [] [] h = refl
same_text-≡ [] (y ∷ ys) h = absurd (cc h)
same_text-≡ (x ∷ xs) [] h = absurd (cc h)
same_text-≡ (x ∷ xs) (y ∷ ys) h = elim (Bool-cases (x == y)) [
  | inl e ↦ ap₂ (λ (z : ℕ) zs. z ∷ zs) ((==_iff x y).0 e) (same_text-≡ xs ys (rw (e) at h))
  | inr e ↦ absurd (cc (rw (e) at h))
]

pub same_text_refl : (xs : Bytes) → same_text xs xs ≡ true
unfolding same_text
same_text_refl [] = refl
same_text_refl (x ∷ xs) = rw (==_refl x) (same_text_refl xs)

master_role : (r : Role) → is_master r ≡ true → r ≡ role_master
master_role role_master h = refl
master_role role_null h = absurd (cc h)
master_role role_slave h = absurd (cc h)

ref_node-master :
    (slot : ClusterSlot (Option Bytes)) (node : Node)
    → is_master node.role ≡ true
    → cluster_slot_ref_node slot node
      ≡ some (record node { slots = some (list_of node.slots ++ (owned_by node slot ∷ [])) })
unfolding cluster_slot_ref_node
ref_node-master slot node h = simp (cluster_slot_ref_node, master_role node.role h) refl

last-first :
    (slots rest : List (ClusterSlot Bytes)) (slot : ClusterSlot Bytes)
    → Perm ((slots ++ (slot ∷ [])) ++ rest) (slot ∷ (slots ++ rest))
last-first slots rest slot = Perm.append_right rest (perm_append_singleton slot slots)

pub ref_slot-joins :
    (addr : Bytes) (slot : ClusterSlot (Option Bytes)) (nodes : List Master)
    → has_node addr nodes ≡ true
    → AllMasters nodes
    → (nodes' : List Master) × (ref_slot addr slot nodes ≡ parsed nodes')
      × AllMasters nodes'
      × Perm
          (regions_in nodes')
          (record { start = slot.start; end = slot.end; node = addr } ∷ regions_in nodes)
unfolding has_node ref_slot
ref_slot-joins addr slot [] found masters = absurd (cc found)
ref_slot-joins addr slot (m ∷ nodes) found ((master, own), masters) =
    let named : ClusterSlot Bytes = record { start = slot.start; end = slot.end; node = addr } in
    elim (Bool-cases (same_text m.node.addr addr)) [
      | inl h ↦
          let joined = owned_by m.node slot in
          let node' = record m.node { slots = some (list_of m.node.slots ++ (joined ∷ [])) } in
          let same : joined ≡ named =
            ap (λ (a : Bytes). owned_by (record m.node { addr = a }) slot)
              (same_text-≡ m.node.addr addr h) in
          (
            record m { node = node' } ∷ nodes,
            rw (h, ref_node-master slot m.node master) refl,
            ((master, All-snoc m.node.addr (list_of m.node.slots) joined own refl), masters),
            subst
                (λ l.
                  Perm (regions_in (record m { node = node' } ∷ nodes))
                    (l ∷ regions_in (m ∷ nodes)))
                same (last-first (list_of m.node.slots) (regions_in nodes) joined),
          )
      | inr h ↦
          let (nodes', e, masters', perm) =
            ref_slot-joins addr slot nodes (rw (h) at found) masters in
          (
            m ∷ nodes',
            rw (h, e) refl,
            ((master, own), masters'),
            Perm.trans (Perm.append_left (list_of m.node.slots) perm)
                (perm_middle (list_of m.node.slots) (regions_in nodes)),
          )
    ]

pub with_slaves-kept :
    (addr : Bytes) (slaves : Option (List Node)) (nodes : List Master)
    → cluster_nodes (with_slaves addr slaves nodes) ≡ cluster_nodes nodes
unfolding with_slaves
with_slaves-kept addr slaves [] = refl
with_slaves-kept addr slaves (m ∷ nodes) = elim (Bool-cases (same_text m.node.addr addr)) [
  | inl h ↦ rw (h) refl
  | inr h ↦ rw (h) (ap (λ l. cluster_node_of m ∷ l) (with_slaves-kept addr slaves nodes))
]

-- A new node is found, and brings no regions.
pub added-found :
    (node : Node) (nodes : List Master)
    → has_node node.addr (nodes ++ (record { node = node; slaves = none } ∷ [])) ≡ true
unfolding has_node
added-found node [] = rw (same_text_refl node.addr) refl
added-found node (m ∷ nodes) = elim (Bool-cases (same_text m.node.addr node.addr)) [
  | inl h ↦ rw (h) refl
  | inr h ↦ rw (h) (added-found node nodes)
]

pub added-regions :
    (node : Node) (nodes : List Master)
    → is_master node.role ≡ true
    → node.slots ≡ some []
    → AllMasters nodes
    → (regions_in (nodes ++ (record { node = node; slaves = none } ∷ [])) ≡ regions_in nodes)
      × AllMasters (nodes ++ (record { node = node; slaves = none } ∷ []))
added-regions node [] master empty masters = (rw (empty) refl, ((master, rw (empty) tt), tt))
added-regions node (m ∷ nodes) master empty (first, masters) =
    let (same, masters') = added-regions node nodes master empty masters in
    (ap (λ l. list_of m.node.slots ++ l) same, (first, masters'))
