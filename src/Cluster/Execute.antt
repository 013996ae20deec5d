-- ===== src/Cluster/Execute.antt =====
-- hircluster.c: `redis_cluster_command_execute`, which sends a command to the node of its slot and
-- follows the redirections of the servers.
use hiredis_vip.Base.{
  ℕ, zero, suc, ◌+◌, ◌%◌, ◌^◌, Option, none, some, Bool, true, false, ◌==◌, ltb, Bytes,
}
use hiredis_vip.Array.{u32}
use hiredis_vip.Command.Keywords.{codes}
use hiredis_vip.Cluster.Context.{
  RedisClusterContext, set_error, node_get_by_table, err_other, err_cluster_too_many_redirect,
}
use hiredis_vip.Cluster.Reply.{
  Reply, ErrorType, redis_err, not_err, err_moved, err_ask, err_tryagain, err_crossslot,
  err_clusterdown, err_sentinel, cluster_reply_error_type,
}
use hiredis_vip.Cluster.Net.{
  Net, replied, broken, list_of, ctx_get_by_node, node_get_witch_connected, cluster_update_route,
  node_get_by_ask_error_reply,
}
pub mod Counts
pub mod Ends
pub mod Laws
mod Tests

-- The text of a command, and the slot that it goes to.
pub record Request : Type 0 where
  pub text : Bytes
  pub slot_num : ℕ

-- What a run returns, NULL by `none`, with the context and the rest of the world after it;
-- `out_of_fuel` is the model's alone.
pub data Run {ℓ} (A W : Type ℓ) : Type ℓ where
  returned : Option Reply → RedisClusterContext A → W → Run A W
  out_of_fuel : Run A W

-- `error_type > CLUSTER_NOT_ERR && error_type < CLUSTER_ERR_SENTINEL`
abbrev pub redirected : ErrorType → Bool
redirected redis_err = false
redirected not_err = false
redirected err_sentinel = false
redirected _ = true

module _ {ℓ} {A W : Type ℓ} where
  abbrev pub fail : RedisClusterContext A → ℕ → Bytes → W → Run A W
  fail cc type str w = returned none (set_error cc type str) w

abbrev pub retried {ℓ} : {A : Type ℓ} → RedisClusterContext A → RedisClusterContext A
retried cc = record cc { retry_count = cc.retry_count + 1 }

module _ {ℓ} {A W : Type ℓ} (net : Net A W) (command : Request) where
  -- The branch for a connection that is broken: any node that answers.
  unfoldable pub elsewhere :
      (A → RedisClusterContext A → W → Run A W) → RedisClusterContext A → W → Run A W
  unfolding set_error ctx_get_by_node node_get_witch_connected
  elsewhere again cc w =
      let m = node_get_witch_connected net (list_of cc.nodes) w in
      elim m.0 [
        | none ↦ fail cc err_other (codes "no reachable node in cluster") m.1
        | some other ↦ elim (ltb cc.max_redirect_count (cc.retry_count + 1)) [
          | true ↦
              fail (retried cc) err_cluster_too_many_redirect (codes "too many cluster redirect")
                m.1
          | false ↦
              let r' = ctx_get_by_node net other m.1 in
              elim r'.0 [
                | none ↦ fail (retried cc) err_other (codes "ctx get by node error") r'.1
                | some c' ↦ elim (c'.conn_err == 0) [
                  | true ↦ again other (retried cc) r'.1
                  | false ↦ fail (retried cc) c'.conn_err c'.conn_errstr r'.1
                ]
              ]
        ]
      ]

  -- From the label `retry` on; `again` is what stands behind the label `ask_retry`.
  unfoldable pub retry :
      (A → RedisClusterContext A → W → Run A W) → RedisClusterContext A → W → Run A W
  unfolding set_error node_get_by_table ctx_get_by_node elsewhere
  retry again cc w = elim (node_get_by_table cc (u32 command.slot_num)) [
    | none ↦ fail cc err_other (codes "node get by table error") w
    | some node ↦
        let r = ctx_get_by_node net node w in
        elim r.0 [
          | none ↦ fail cc err_other (codes "ctx get by node is null") r.1
          | some c ↦ elim (c.conn_err == 0) [
            | true ↦ again node cc r.1
            | false ↦ elsewhere again cc r.1
          ]
        ]
  ]

  -- The cases of the switch.
  unfoldable pub follow :
      ErrorType
      → Reply
      → (A → RedisClusterContext A → W → Run A W)
      → RedisClusterContext A
      → W
      → Run A W
  unfolding set_error retry cluster_update_route node_get_by_ask_error_reply ctx_get_by_node
  follow err_moved reply again cc w =
      let r = cluster_update_route net cc w in
      elim r.0 [
        | true ↦ retry again r.1 r.2
        | false ↦
            fail r.1 err_other (codes "route update error, please recreate redisClusterContext!")
              r.2
      ]
  follow err_ask reply again cc w =
      let n = node_get_by_ask_error_reply net cc reply w in
      elim n.0 [
        | none ↦ returned none n.1 n.2
        | some node ↦
            let r = ctx_get_by_node net node n.2 in
            elim r.0 [
              | none ↦ fail n.1 err_other (codes "ctx get by node error") r.1
              | some c ↦ elim (c.conn_err == 0) [
                | false ↦ fail n.1 c.conn_err c.conn_errstr r.1
                | true ↦
                    let p = net.redis_command node (codes "ASKING") r.1 in
                    elim p.0 [
                      | broken c' ↦ fail n.1 c'.conn_err c'.conn_errstr p.1
                      | replied reply' ↦ again node n.1 p.1
                    ]
              ]
            ]
      ]
  follow err_tryagain reply again cc w = retry again cc w
  follow err_crossslot reply again cc w = retry again cc w
  follow err_clusterdown reply again cc w = retry again cc w
  follow redis_err reply again cc w = returned (some reply) cc w
  follow not_err reply again cc w = returned (some reply) cc w
  follow err_sentinel reply again cc w = returned (some reply) cc w

  -- From the label `ask_retry` on, with the connection of `node`.
  unfoldable pub ask_retry : ℕ → A → RedisClusterContext A → W → Run A W
  unfolding set_error follow
  ask_retry zero node cc w = out_of_fuel
  ask_retry (suc fuel) node cc w =
      let sent = net.append_command node command.text w in
      elim sent.0 [
        | some c ↦ fail cc c.conn_err c.conn_errstr sent.1
        | none ↦
            let got = net.block_for_reply node sent.1 in
            elim got.0 [
              | broken c ↦ fail cc c.conn_err c.conn_errstr got.1
              | replied reply ↦
                  let type = cluster_reply_error_type (some reply) in
                  elim (redirected type) [
                    | false ↦ returned (some reply) cc got.1
                    | true ↦ elim (ltb cc.max_redirect_count (cc.retry_count + 1)) [
                      | true ↦
                          fail (retried cc) err_cluster_too_many_redirect
                            (codes "too many cluster redirect") got.1
                      | false ↦ follow type reply (ask_retry fuel) (retried cc) got.1
                    ]
                  ]
            ]
      ]

  -- `redis_cluster_command_execute`: a pass through `ask_retry` that does not return counts one retry.
  unfoldable pub redis_cluster_command_execute : RedisClusterContext A → W → Run A W
  unfolding retry ask_retry
  redis_cluster_command_execute cc w = retry (ask_retry (cc.max_redirect_count + 1)) cc w
