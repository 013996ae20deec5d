-- ===== src/Cluster/Pipeline.antt =====
-- hircluster.c: commands that are appended and whose replies are taken later: `cc->requests`
-- and `redisClusterAppendFormattedCommand`.
use hiredis_vip.Base.{
  ℕ, zero, suc, ◌+◌, List, [], ◌∷◌, ◌++◌, Option, none, some, Bool, true, false, ◌==◌, leb, ltb,
  if◌then◌else◌, Bytes, length,
}
use hiredis_vip.Base.Int.{ℤ, pos, negsuc}
use hiredis_vip.Array.{u32}
use hiredis_vip.Command.Types.{CmdType, ParseFault, Cmd}
use hiredis_vip.Command.Keywords.{codes}
use hiredis_vip.Cluster.{redis_cluster_slots}
use hiredis_vip.Cluster.Context.{
  ClusterNode, RedisClusterContext, set_error, node_get_by_table, err_other, err_oom,
}
use hiredis_vip.Cluster.Reply.{Reply, ErrorType, err_moved, cluster_reply_error_type}
use hiredis_vip.Cluster.Net.{
  Net, Conn, Answer, replied, broken, ctx_get_by_node, cluster_update_route,
}
use hiredis_vip.Cluster.Fragment.{SubCommand, Fragments}
use hiredis_vip.Cluster.Plan.{command_format_by_slot}
use hiredis_vip.Cluster.Gather.{Part, command_post_fragment}
use hiredis_vip.Cluster.Execute.{Request}
use hiredis_vip.Cluster.Client.{request_of, parsed_type, sequence}
pub mod Replies
pub mod Reset
pub mod Fifo
pub mod Order
pub mod Asks
pub mod Laws
mod Tests

-- What an entry of `cc->requests` keeps for its reply; `slot_num` is -1 for a command in parts.
pub record Pending : Type 0 where
  pub type : CmdType
  pub slot_num : ℤ
  pub sub_commands : Option (List SubCommand)
  pub frag_seq : Option (List ℕ)

-- The calls of hiredis on the connection of a node: `redisGetReply`, `redisBufferWrite` until all is
-- written or it fails, and `redisFree`. The connections block, so that a reply is not NULL.
pub record Lines {ℓ} (A W : Type ℓ) : Type ℓ where
  pub get_reply : A → W → Answer × W
  pub write_all : A → W → Bool × W
  pub free : A → W → W

-- A context, the list of requests, and the world.
pub record Session {ℓ} (A W : Type ℓ) : Type ℓ where
  pub cc : RedisClusterContext A
  pub requests : Option (List Pending)
  pub world : W

-- What `command_format_by_slot` leaves in the command.
abbrev pub pending : CmdType → Fragments → Pending
pending type f = elim f.commands [
  | [] ↦ record { type = type; slot_num = f.slot; sub_commands = none; frag_seq = f.frag_seq }
  | sub ∷ commands ↦ record {
    type = type;
    slot_num = negsuc 0;
    sub_commands = some (sub ∷ commands);
    frag_seq = f.frag_seq;
  }
]

abbrev pub requests_of : Option (List Pending) → List Pending
requests_of none = []
requests_of (some requests) = requests

module _ {ℓ} {A W : Type ℓ} (net : Net A W) where
  -- `__redisClusterAppendCommand`
  unfoldable pub append_command_to_node :
      Request → RedisClusterContext A → W → Bool × RedisClusterContext A × W
  unfolding set_error node_get_by_table ctx_get_by_node
  append_command_to_node command cc w = elim (node_get_by_table cc (u32 command.slot_num)) [
    | none ↦ (false, set_error cc err_other (codes "node get by slot error"), w)
    | some node ↦
        let r = ctx_get_by_node net node w in
        elim r.0 [
          | none ↦ (false, set_error cc err_other (codes "ctx get by node is null"), r.1)
          | some c ↦ elim (c.conn_err == 0) [
            | false ↦ (false, set_error cc c.conn_err c.conn_errstr, r.1)
            | true ↦
                let sent = net.append_command node command.text r.1 in
                elim sent.0 [
                  | some c' ↦ (false, set_error cc c'.conn_err c'.conn_errstr, sent.1)
                  | none ↦ (true, cc, sent.1)
                ]
          ]
        ]
  ]

  -- The loop on the sub commands; where it fails, those before stay appended.
  unfoldable pub append_parts :
      List SubCommand → RedisClusterContext A → W → Bool × RedisClusterContext A × W
  unfolding append_command_to_node
  append_parts [] cc w = (true, cc, w)
  append_parts (sub ∷ commands) cc w =
      let r = append_command_to_node (request_of sub) cc w in
      elim r.0 [ true ↦ append_parts commands r.1 r.2 | false ↦ r ]

  abbrev pub append_planned :
      Bytes → Fragments → RedisClusterContext A → W → Bool × RedisClusterContext A × W
  append_planned text f cc w = elim f.slot [
    | negsuc n ↦ (false, cc, w)
    | pos slot ↦ elim (leb redis_cluster_slots slot) [
      | true ↦ (false, set_error cc err_other (codes "slot_num is out of range"), w)
      | false ↦ elim f.commands [
        | [] ↦ append_command_to_node (record { text = text; slot_num = slot }) cc w
        | sub ∷ commands ↦ append_parts (sub ∷ commands) cc w
      ]
    ]
  ]

  -- `redisClusterAppendFormattedCommand`; `none` is a read past the end of an MSET.
  unfoldable pub redis_cluster_append_formatted_command :
      (ℕ → Bool)
      → (Option ParseFault → Bytes)
      → Bytes
      → Cmd
      → Bytes
      → Session A W
      → Option (Bool × Session A W)
  unfolding command_format_by_slot set_error append_command_to_node append_parts
  redis_cluster_append_formatted_command grant report text command num_str s =
      elim (command_format_by_slot grant report s.cc text command num_str) [
        | none ↦ none
        | some planned ↦
            let requests = requests_of s.requests in
            let r = append_planned text planned.0 planned.1 s.world in
            let entry = pending (parsed_type grant text command) planned.0 in
            some (
              r.0,
              record {
                cc = r.1;
                requests = some (if r.0 then requests ++ (entry ∷ []) else requests);
                world = r.2;
              },
            )
      ]
