-- ===== src/Cluster/Topology.antt =====
-- hircluster.c: `parse_cluster_slots`, which makes nodes of a server's report on the slots. A node is
-- named by its address, the memory asked for is taken to be there, and the dictionary is the list of its
-- entries in the order in which they were added.
use hiredis_vip.Base.{
  ℕ, zero, suc, ◌-◌, ◌%◌, ◌^◌, List, [], ◌∷◌, ◌++◌, map, Option, none, some, Bool, true, false,
  ◌&&◌, leb, ltb, if◌then◌else◌, Bytes,
}
use hiredis_vip.Base.Int.{ℤ, pos, negsuc}
use hiredis_vip.Decimal.{sdsll2str}
use hiredis_vip.Format.Encode.{text_or_nil}
use hiredis_vip.Command.Keywords.{codes}
use hiredis_vip.Cluster.{ClusterSlot}
use hiredis_vip.Cluster.Context.{
  Role, role_master, role_slave, ClusterNode, RedisClusterContext, set_error, err_other, err_oom,
}
use hiredis_vip.Cluster.Reply.{
  Reply, Replies, reply_string, reply_array, reply_integer, reply_nil, reply_status, reply_error,
  no_more,
}
use hiredis_vip.Cluster.Net.{same_text, not_positive, list_of}
use hiredis_vip.Cluster.Gather.{elements}
pub mod Joins
pub mod Laws
pub mod Install
mod Tests

-- `cluster_node`
pub record Node : Type 0 where
  pub addr : Bytes
  pub host : Bytes
  pub port : ℤ
  pub role : Role
  pub slots : Option (List (ClusterSlot Bytes))

-- An entry of the dictionary: a master, with the list `slaves`.
pub record Master : Type 0 where
  pub node : Node
  pub slaves : Option (List Node)

-- What a step of the parse comes to: a value, an error, or a read through NULL.
pub data Parsed {ℓ} (B : Type ℓ) : Type ℓ where
  parsed : B → Parsed B
  refusal : ℕ → Bytes → Parsed B
  null_read : Parsed B

abbrev pub on_parsed {ℓ κ} : {B : Type ℓ} {C : Type κ} → Parsed B → (B → Parsed C) → Parsed C
on_parsed (parsed b) f = f b
on_parsed (refusal type str) f = refusal type str
on_parsed null_read f = null_read

-- The conversions of a `long long` to `int`, and on to `uint32_t`.
abbrev pub as_int : ℤ → ℤ
as_int (pos n) = let m = n % 2 ^ 32 in if ltb m (2 ^ 31) then pos m else negsuc (2 ^ 32 - 1 - m)
as_int (negsuc n) = let m = n % 2 ^ 32 in if ltb m (2 ^ 31) then negsuc m else pos (2 ^ 32 - 1 - m)

abbrev pub as_u32 : ℤ → ℕ
as_u32 (pos n) = n % 2 ^ 32
as_u32 (negsuc n) = 2 ^ 32 - 1 - n % 2 ^ 32

-- `hi_valid_port`
unfoldable pub hi_valid_port : ℤ → Bool
hi_valid_port (pos n) = leb 1 n && leb n 65535
hi_valid_port (negsuc n) = false

-- The text `ip:port`.
unfoldable pub node_address : Bytes → ℤ → Bytes
unfolding sdsll2str
node_address host port = host ++ (b':' ∷ text_or_nil (sdsll2str (as_int port)))

abbrev pub slots_error {ℓ} : {B : Type ℓ} → Bytes → Parsed B
slots_error str = refusal err_other (codes "Command(cluster slots) reply error: " ++ str)

abbrev pub no_slots : Role → Option (List (ClusterSlot Bytes))
no_slots role_master = some []
no_slots _ = none

-- `node_get_with_slots`
unfoldable pub node_get_with_slots : Reply → Reply → Role → Parsed Node
unfolding hi_valid_port node_address
node_get_with_slots (reply_string []) port role = slots_error (codes "node ip is not string.")
node_get_with_slots (reply_string (b ∷ ip)) (reply_integer port) role =
    if not_positive port
    then slots_error (codes "node port is not integer.")
    else if hi_valid_port (as_int port)
    then parsed (record {
      addr = node_address (b ∷ ip) port;
      host = b ∷ ip;
      port = as_int port;
      role = role;
      slots = no_slots role;
    })
    else slots_error (codes "node port is not valid.")
node_get_with_slots (reply_string (b ∷ ip)) port role =
    slots_error (codes "node port is not integer.")
node_get_with_slots ip port role = slots_error (codes "node ip is not string.")

abbrev pub wrong_node : Parsed (Reply × Reply)
wrong_node = slots_error (codes "nodes sub_reply is not an correct array.")

abbrev pub wrong_endpoint : Parsed (Reply × Reply)
wrong_endpoint = slots_error (codes "master ip or port is not correct.")

-- The checks of an element for a node, which give its ip and its port.
abbrev pub endpoint_of : Option Reply → Option Reply → Parsed (Reply × Reply)
endpoint_of (some (reply_string ip)) (some (reply_integer port)) =
    parsed (reply_string ip, reply_integer port)
endpoint_of _ _ = wrong_endpoint

abbrev pub checked_node : List (Option Reply) → Parsed (Reply × Reply)
checked_node (ip ∷ port ∷ id ∷ []) = endpoint_of ip port
checked_node _ = wrong_node

abbrev pub node_element : Option Reply → Parsed (Reply × Reply)
node_element none = null_read
node_element (some (reply_array rs)) = checked_node (elements rs)
node_element (some _) = wrong_node

-- `sdsnewlen(elem_ip->str, elem_ip->len)` and `sdscatfmt(address, ":%i", elem_port->integer)`
abbrev pub address_of : Reply → Reply → Bytes
address_of (reply_string ip) (reply_integer port) = node_address ip port
address_of _ _ = []

-- `dictFind(nodes, address) != NULL`
unfoldable pub has_node : Bytes → List Master → Bool
unfolding same_text
has_node addr [] = false
has_node addr (m ∷ nodes) =
    let rest = has_node addr nodes in if same_text m.node.addr addr then true else rest

-- `slot->node = node`, in a region that `cluster_slot_create` has made, whose node may be NULL.
abbrev pub owned_by : Node → ClusterSlot (Option Bytes) → ClusterSlot Bytes
owned_by node slot = record { start = slot.start; end = slot.end; node = node.addr }

-- `cluster_slot_ref_node`; `none` is REDIS_ERR. The region joins the slots of the node, and the node is
-- made the region's.
unfoldable pub cluster_slot_ref_node : ClusterSlot (Option Bytes) → Node → Option Node
cluster_slot_ref_node slot node = elim node.role [
  | role_master ↦
      some (record node { slots = some (list_of node.slots ++ (owned_by node slot ∷ [])) })
  | _ ↦ none
]

-- The slot joins the node of the address.
unfoldable pub ref_slot : Bytes → ClusterSlot (Option Bytes) → List Master → Parsed (List Master)
unfolding same_text cluster_slot_ref_node
ref_slot addr slot [] = parsed []
ref_slot addr slot (m ∷ nodes) =
    let rest = ref_slot addr slot nodes in
    if same_text m.node.addr addr
    then elim (cluster_slot_ref_node slot m.node) [
      | none ↦ refusal err_oom (codes "Slot ref node failed: out of memory.")
      | some node ↦ parsed (record m { node = node } ∷ nodes)
    ]
    else on_parsed rest (λ nodes'. parsed (m ∷ nodes'))

-- The elements behind the master; `add_slave` is the flag HIRCLUSTER_FLAG_ADD_SLAVE.
unfoldable pub parse_slaves :
    Bool → List (Option Reply) → Option (List Node) → Parsed (Option (List Node))
unfolding node_get_with_slots
parse_slaves add_slave [] slaves = parsed slaves
parse_slaves add_slave (elem ∷ more) slaves = on_parsed (node_element elem) (λ e.
    if add_slave
    then on_parsed (node_get_with_slots e.0 e.1 role_slave)
        (λ slave. parse_slaves add_slave more (some (list_of slaves ++ (slave ∷ []))))
    else parse_slaves add_slave more slaves)

-- The list `slaves` of the node of the address.
unfoldable pub with_slaves : Bytes → Option (List Node) → List Master → List Master
unfolding same_text
with_slaves addr slaves [] = []
with_slaves addr slaves (m ∷ nodes) =
    let rest = with_slaves addr slaves nodes in
    if same_text m.node.addr addr then record m { slaves = slaves } ∷ nodes else m ∷ rest

-- A region whose master is at hand, or is made.
unfoldable pub parse_master :
    Bool → List Master → ℕ → ℕ → Option Reply → List (Option Reply) → Parsed (List Master)
unfolding node_address node_get_with_slots has_node ref_slot parse_slaves with_slaves
parse_master add_slave nodes start end elem more = on_parsed (node_element elem) (λ e.
    let addr = address_of e.0 e.1 in
    let slot : ClusterSlot (Option Bytes) = record { start = start; end = end; node = none } in
    if has_node addr nodes
    then ref_slot addr slot nodes
    else on_parsed (node_get_with_slots e.0 e.1 role_master) (λ node.
      if has_node node.addr nodes
      then refusal err_other (codes "The address already exists in the nodes")
      else on_parsed (ref_slot addr slot (nodes ++ (record { node = node; slaves = none } ∷ [])))
          (λ nodes'.
            on_parsed (parse_slaves add_slave more none)
              (λ slaves. parsed (with_slaves addr slaves nodes')))))

abbrev pub integer_of : Option Reply → Bytes → Parsed ℤ
integer_of none str = null_read
integer_of (some (reply_integer n)) str = parsed n
integer_of (some _) str = slots_error str

abbrev pub parse_elements : Bool → List Master → List (Option Reply) → Parsed (List Master)
parse_elements add_slave nodes (first ∷ last ∷ elem ∷ more) =
    on_parsed (integer_of first (codes "slot begin is not an integer.")) (λ b.
      on_parsed (integer_of last (codes "slot end is not an integer.")) (λ e.
        if ltb (as_u32 e) (as_u32 b)
        then slots_error (codes "slot begin is bigger than slot end.")
        else parse_master add_slave nodes (as_u32 b) (as_u32 e) elem more))
parse_elements add_slave nodes _ = slots_error (codes "first sub_reply is not an array.")

-- One region of slots.
abbrev pub parse_region : Bool → List Master → Option Reply → Parsed (List Master)
parse_region add_slave nodes none = null_read
parse_region add_slave nodes (some (reply_array rs)) = parse_elements add_slave nodes (elements rs)
parse_region add_slave nodes (some _) = slots_error (codes "first sub_reply is not an array.")

unfoldable pub parse_regions : Bool → List Master → List (Option Reply) → Parsed (List Master)
unfolding parse_master
parse_regions add_slave nodes [] = parsed nodes
parse_regions add_slave nodes (elem ∷ more) =
    on_parsed (parse_region add_slave nodes elem) (λ nodes'. parse_regions add_slave nodes' more)

abbrev pub parse_reply : Bool → Reply → Parsed (List Master)
parse_reply add_slave (reply_array no_more) = slots_error (codes "reply is not an array.")
parse_reply add_slave (reply_array rs) = parse_regions add_slave [] (elements rs)
parse_reply add_slave _ = slots_error (codes "reply is not an array.")

-- `parse_cluster_slots` of a reply that is not NULL: the nodes, or NULL, with the context; `none` is a
-- read through NULL.
unfoldable pub parse_cluster_slots {ℓ} :
    {A : Type ℓ}
    → RedisClusterContext A
    → Reply
    → Bool
    → Option (Option (List Master) × RedisClusterContext A)
unfolding parse_regions set_error
parse_cluster_slots cc reply add_slave = elim (parse_reply add_slave reply) [
  | parsed nodes ↦ some (some nodes, cc)
  | refusal type str ↦ some (none, set_error cc type str)
  | null_read ↦ none
]

-- The nodes as the update of the route reads them.
abbrev pub cluster_node_of : Master → ClusterNode Bytes
cluster_node_of m = record {
  key = m.node.addr;
  self = m.node.addr;
  role = m.node.role;
  slots = m.node.slots;
}

abbrev pub cluster_nodes : List Master → List (ClusterNode Bytes)
cluster_nodes [] = []
cluster_nodes (m ∷ nodes) = cluster_node_of m ∷ cluster_nodes nodes
