-- ===== src/Cluster/Pipeline/Reset.antt =====
-- hircluster.c: `redisClusterReset`, which takes the replies that are left and drops the requests.
use hiredis_vip.Base.{
  ℕ, zero, suc, ◌+◌, List, [], ◌∷◌, none, some, true, false, ◌==◌, if◌then◌else◌, length,
}
use hiredis_vip.Command.Keywords.{codes}
use hiredis_vip.Cluster.Context.{ClusterNode, set_error, err_other}
use hiredis_vip.Cluster.Net.{Net, ctx_get_by_node, cluster_update_route}
use hiredis_vip.Cluster.Pipeline.{Lines, Session, requests_of}
use hiredis_vip.Cluster.Pipeline.Replies.{handed, freed, redis_cluster_get_reply}

-- How the loop, and the reset, end; `freed_twice` is `freeReplyObject` of a reply that is freed.
pub data Drained {ℓ} (A W : Type ℓ) : Type ℓ where
  drained : Session A W → Drained A W
  freed_twice out_of_fuel : Drained A W

module _ {ℓ} {A W : Type ℓ} (net : Net A W) (lines : Lines A W) where
  -- `redisCLusterSendAll`, whose result is not looked at, over the nodes that the iterator gives.
  unfoldable pub send_all : List (ClusterNode A) → W → W
  unfolding ctx_get_by_node
  send_all [] w = w
  send_all (n ∷ nodes) w =
      let r = ctx_get_by_node net n.self w in
      elim r.0 [
        | none ↦ send_all nodes r.1
        | some c ↦
            let wrote = lines.write_all n.self r.1 in
            elim wrote.0 [ true ↦ send_all nodes wrote.1 | false ↦ wrote.1 ]
      ]

  abbrev pub free_all : List (ClusterNode A) → W → W
  free_all [] w = w
  free_all (n ∷ nodes) w =
      free_all nodes (elim (net.con n.self w) [ none ↦ w | some c ↦ lines.free n.self w ])

  -- `redisCLusterClearAll`
  unfoldable pub clear_all : List (ClusterNode A) → Session A W → Session A W
  clear_all nodes s = record s {
    cc = if s.cc.err == 0 then s.cc else record s.cc { err = 0; errstr = [] };
    world = free_all nodes s.world;
  }

  -- The loop of `redisClusterReset`.
  unfoldable pub drain : ℕ → List (ClusterNode A) → Session A W → Drained A W
  unfolding redis_cluster_get_reply clear_all
  drain zero nodes s = out_of_fuel
  drain (suc fuel) nodes s =
      let r = redis_cluster_get_reply net lines s in
      let rest = drain fuel nodes r.2 in
      elim r.0 [
        | false ↦ drained (clear_all nodes r.2)
        | true ↦ elim r.1 [
          | none ↦ drained r.2
          | some given ↦ elim given [ handed reply ↦ rest | freed reply ↦ freed_twice ]
        ]
      ]

  -- The rest of `redisClusterReset`, behind the loop.
  unfoldable pub renew_route : Session A W → Session A W
  unfolding set_error cluster_update_route
  renew_route s =
      let r = cluster_update_route net s.cc s.world in
      if s.cc.need_update_route
      then if r.0
        then record s { cc = record r.1 { need_update_route = false }; world = r.2 }
        else record s {
          cc =
              set_error r.1 err_other
                (codes "route update error, please recreate redisClusterContext!");
          world = r.2;
        }
      else s

  -- The first half of `redisClusterReset`; a round of its loop takes one request.
  unfoldable pub drop_replies : List (ClusterNode A) → Session A W → Drained A W
  unfolding send_all clear_all drain
  drop_replies nodes s =
      if s.cc.err == 0
      then drain (length (requests_of s.requests) + 1) nodes
          (record s { world = send_all nodes s.world })
      else drained (clear_all nodes s)

  unfoldable pub redis_cluster_reset : Session A W → Drained A W
  unfolding drop_replies renew_route
  redis_cluster_reset s = elim s.cc.nodes [
    | none ↦ drained s
    | some nodes ↦ elim (drop_replies nodes s) [
      | drained s' ↦ drained (renew_route (record s' { requests = none }))
      | freed_twice ↦ freed_twice
      | out_of_fuel ↦ out_of_fuel
    ]
  ]
