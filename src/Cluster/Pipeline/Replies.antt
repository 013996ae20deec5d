-- ===== src/Cluster/Pipeline/Replies.antt =====
-- hircluster.c: `redisClusterGetReply`, which takes the reply to the first request.
use hiredis_vip.Base.{
  ℕ, ◌+◌, List, [], ◌∷◌, Option, none, some, Bool, true, false, ◌==◌, ltb, if◌then◌else◌,
}
use hiredis_vip.Base.Int.{pos, negsuc}
use hiredis_vip.Array.{u32}
use hiredis_vip.Command.Keywords.{codes}
use hiredis_vip.Cluster.Context.{
  RedisClusterContext, set_error, node_get_by_table, err_other, err_oom,
}
use hiredis_vip.Cluster.Reply.{Reply, reply_error, ErrorType, err_moved, cluster_reply_error_type}
use hiredis_vip.Cluster.Net.{Net, replied, broken, ctx_get_by_node}
use hiredis_vip.Cluster.Fragment.{SubCommand}
use hiredis_vip.Cluster.Gather.{command_post_fragment}
use hiredis_vip.Cluster.Client.{
  PartReplies, collected, stopped, parts_out_of_fuel, with_part, sequence,
}
use hiredis_vip.Cluster.Pipeline.{Pending, Lines, Session}

abbrev pub is_moved : ErrorType → Bool
is_moved err_moved = true
is_moved _ = false

-- A connection that fails counts as a retry, until the route is to be updated.
abbrev pub count_failure {ℓ} : {A : Type ℓ} → RedisClusterContext A → RedisClusterContext A
count_failure cc =
    if cc.need_update_route
    then cc
    else if ltb cc.max_redirect_count (cc.retry_count + 1)
    then record cc { retry_count = 0; need_update_route = true }
    else record cc { retry_count = cc.retry_count + 1 }

abbrev pub noted {ℓ} : {A : Type ℓ} → Reply → RedisClusterContext A → RedisClusterContext A
noted reply cc =
    if is_moved (cluster_reply_error_type (some reply))
    then record cc { need_update_route = true }
    else cc

-- What `*reply` points to: a reply that is the caller's, or one that is freed already.
pub data Handed : Type 0 where
  handed : Reply → Handed
  freed : Reply → Handed

abbrev pub handed_whole : Option Reply → Option Handed
handed_whole none = none
handed_whole (some reply) = some (handed reply)

-- `command_post_fragment` makes a new reply, or returns the one of a sub command, where that is an error;
-- `listDelNode` on the request frees its sub commands, each with its reply.
abbrev pub handed_joined : Option Reply → Option Handed
handed_joined none = none
handed_joined (some (reply_error str)) = some (freed (reply_error str))
handed_joined (some reply) = some (handed reply)

module _ {ℓ} {A W : Type ℓ} (net : Net A W) (lines : Lines A W) where
  -- `__redisClusterGetReply`; `none` is REDIS_ERR.
  unfoldable pub get_reply_from_node :
      ℕ → RedisClusterContext A → W → Option Reply × RedisClusterContext A × W
  unfolding set_error node_get_by_table ctx_get_by_node cluster_reply_error_type
  get_reply_from_node slot_num cc w = elim (node_get_by_table cc (u32 slot_num)) [
    | none ↦ (none, set_error cc err_other (codes "node get by table is null"), w)
    | some node ↦
        let r = ctx_get_by_node net node w in
        elim r.0 [
          | none ↦ (none, set_error cc err_oom (codes "Out of memory"), r.1)
          | some c ↦ elim (c.conn_err == 0) [
            | false ↦ (none, set_error (count_failure cc) c.conn_err c.conn_errstr, r.1)
            | true ↦
                let got = lines.get_reply node r.1 in
                elim got.0 [
                  | broken c' ↦ (none, set_error cc c'.conn_err c'.conn_errstr, got.1)
                  | replied reply ↦ (some reply, noted reply cc, got.1)
                ]
          ]
        ]
  ]

  -- The loop on the sub commands.
  unfoldable pub get_parts : List SubCommand → RedisClusterContext A → W → PartReplies A W
  unfolding get_reply_from_node
  get_parts [] cc w = collected [] cc w
  get_parts (sub ∷ commands) cc w =
      let r = get_reply_from_node sub.slot_num cc w in
      elim r.0 [
        | none ↦ stopped none r.1 r.2
        | some reply ↦ with_part (sub.slot_num, some reply) (get_parts commands r.1 r.2)
      ]

  -- The reply to the first request.
  unfoldable pub get_first :
      Pending → RedisClusterContext A → W → Option Handed × RedisClusterContext A × W
  unfolding set_error get_reply_from_node get_parts command_post_fragment
  get_first request cc w = elim request.slot_num [
    | pos slot ↦ let r = get_reply_from_node slot cc w in (handed_whole r.0, r.1, r.2)
    | negsuc n ↦ elim request.sub_commands [
      | none ↦ (none, set_error cc err_other (codes "sub_commands in command is null"), w)
      | some commands ↦ elim (get_parts commands cc w) [
        | collected parts cc' w' ↦
            let r = command_post_fragment cc' request.type parts (sequence request.frag_seq) in
            (handed_joined r.0, r.1, w')
        | stopped reply cc' w' ↦ (none, cc', w')
        | parts_out_of_fuel ↦ (none, cc, w)
      ]
    ]
  ]

  -- `redisClusterGetReply`: whether it is REDIS_OK, and `*reply`.
  unfoldable pub redis_cluster_get_reply : Session A W → Bool × Option Handed × Session A W
  unfolding get_first
  redis_cluster_get_reply s =
      let cc = record s.cc { err = 0; errstr = [] } in
      elim s.requests [
        | none ↦ (false, none, record s { cc = cc })
        | some requests ↦ elim requests [
          | [] ↦ (true, none, record s { cc = cc })
          | request ∷ rest ↦
              let r = get_first request cc s.world in
              let left : Session A W = record { cc = r.1; requests = some rest; world = r.2 } in
              elim r.0 [ none ↦ (false, none, left) | some reply ↦ (true, some reply, left) ]
        ]
      ]
