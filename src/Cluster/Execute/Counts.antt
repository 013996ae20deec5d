-- ===== src/Cluster/Execute/Counts.antt =====
-- The limit and the count of the redirections, which an update of the route leaves alone.
use hiredis_vip.Base.{
  ℕ, List, [], ◌∷◌, Option, none, some, Bool, true, false, Bytes, ◌≡◌, refl, ◌⊎◌, inl, inr, arith,
  Bool-cases, Option-cases,
}
use hiredis_vip.Base.Int.{ℤ}
use hiredis_vip.Cluster.{ClusterSlot}
use hiredis_vip.Cluster.Context.{ClusterNode, RedisClusterContext, set_error}
use hiredis_vip.Cluster.Route.{update_route}
use hiredis_vip.Cluster.Net.{
  Net, Report, unreachable, reported, update_route_by_addr, update_route_loop, cluster_update_route,
  no_address, node_get_by_ask_error_reply,
}
use hiredis_vip.Cluster.Reply.{Reply}

module _ {ℓ} {A : Type ℓ} where
  -- The limit and the count of the redirections are the same.
  abbrev pub SameCounts : RedisClusterContext A → RedisClusterContext A → Type 0
  SameCounts cc cc' =
      (cc'.max_redirect_count ≡ cc.max_redirect_count) × (cc'.retry_count ≡ cc.retry_count)

  update_route-SameCounts :
      (qsort : (ClusterSlot A → ClusterSlot A → ℤ) → List (ClusterSlot A) → List (ClusterSlot A))
      (cc : RedisClusterContext A) (nodes : List (ClusterNode A))
      → SameCounts cc (update_route qsort cc nodes).1
  unfolding update_route set_error
  update_route-SameCounts qsort cc nodes = (ground arith, ground arith)

Report-cases {ℓ} :
    {A : Type ℓ} (r : Report A)
    → ((type : ℕ) × (str : Bytes) × (r ≡ unreachable type str))
      ⊎ ((nodes : List (ClusterNode A)) × (r ≡ reported nodes))
Report-cases (unreachable type str) = inl (type, str, refl)
Report-cases (reported nodes) = inr (nodes, refl)

module _ {ℓ} {A W : Type ℓ} (net : Net A W) where
  by_addr-SameCounts :
      (cc : RedisClusterContext A) (ip : Option Bytes) (port : ℤ) (w : W)
      → SameCounts cc (update_route_by_addr net cc ip port w).1
  unfolding update_route_by_addr set_error
  by_addr-SameCounts cc none port w = (refl, refl)
  by_addr-SameCounts cc (some ip) port w = elim (Report-cases (net.ask_route ip port w).0) [
    | inl (type, str, e) ↦ (ground arith, ground arith)
    | inr (nodes, e) ↦
        let same = update_route-SameCounts net.qsort cc nodes in (ground arith, ground arith)
  ]

  loop-SameCounts :
      (nodes : List (ClusterNode A)) (tried : Bool) (cc : RedisClusterContext A) (w : W)
      → SameCounts cc (update_route_loop net nodes tried cc w).1
  unfolding update_route_loop set_error
  loop-SameCounts [] tried cc w = (ground arith, ground arith)
  loop-SameCounts (n ∷ nodes) tried cc w =
      let skip = loop-SameCounts nodes tried cc w in
      elim (Option-cases (net.host n.self w)) [
        | inl e ↦ rw (e, update_route_loop) skip
        | inr (host, e) ↦
            let r = update_route_by_addr net cc (some host) (net.port n.self w) w in
            let once = by_addr-SameCounts cc (some host) (net.port n.self w) w in
            let again = loop-SameCounts nodes true r.1 r.2 in (ground arith, ground arith)
      ]

  pub update-SameCounts :
      (cc : RedisClusterContext A) (w : W) → SameCounts cc (cluster_update_route net cc w).1
  unfolding cluster_update_route set_error
  update-SameCounts cc w =
      let r = update_route_by_addr net cc cc.ip cc.port w in
      let once = by_addr-SameCounts cc cc.ip cc.port w in
      elim (Bool-cases (no_address cc)) [
        | inl none_set ↦ elim (Option-cases cc.nodes) [
          | inl e ↦ (ground arith, ground arith)
          | inr (nodes, e) ↦
              let rest = loop-SameCounts nodes false cc w in (ground arith, ground arith)
        ]
        | inr set ↦ elim (Option-cases r.1.nodes) [
          | inl e ↦ (ground arith, ground arith)
          | inr (nodes, e) ↦
              let rest = loop-SameCounts nodes true r.1 r.2 in (ground arith, ground arith)
        ]
      ]

  pub ask-SameCounts :
      (cc : RedisClusterContext A) (reply : Reply) (w : W)
      → SameCounts cc (node_get_by_ask_error_reply net cc reply w).1
  unfolding node_get_by_ask_error_reply set_error
  ask-SameCounts cc reply w = (ground arith, ground arith)
