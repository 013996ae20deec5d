-- ===== src/Cluster/Context.antt =====
-- hircluster.h: the context of a cluster client, and hircluster.c: how it records an error.
use hiredis_vip.Base.{ℕ, List, Option, none, Bool, Bytes, take, ltb, if◌then◌else◌, length}
use hiredis_vip.Base.Int.{ℤ}
use hiredis_vip.Cluster.{ClusterSlot, redis_cluster_slots}

-- `REDIS_ROLE_NULL`, `REDIS_ROLE_MASTER`, `REDIS_ROLE_SLAVE`
pub data Role : Type 0 where
  role_null role_master role_slave : Role

-- `cluster_node`, as far as routes go: the key of its dictionary entry, the pointer to the node, its
-- role and the list of its slots, which may be absent.
pub record ClusterNode {ℓ} (A : Type ℓ) : Type ℓ where
  pub key : Bytes
  pub self : A
  pub role : Role
  pub slots : Option (List (ClusterSlot A))

-- `redisClusterContext`; `nodes` lists the values of the dictionary in the order of its iterator,
-- and `table` says NULL by `none`.
pub record RedisClusterContext {ℓ} (A : Type ℓ) : Type ℓ where
  pub err : ℕ
  pub errstr : Bytes
  pub ip : Option Bytes
  pub port : ℤ
  pub slots : Option (List (ClusterSlot A))
  pub nodes : Option (List (ClusterNode A))
  pub table : ℕ → Option A
  pub route_version : ℕ
  pub max_redirect_count : ℕ
  pub retry_count : ℕ
  pub need_update_route : Bool

abbrev pub err_io : ℕ
err_io = 1

abbrev pub err_other : ℕ
err_other = 2

abbrev pub err_protocol : ℕ
err_protocol = 4

abbrev pub err_oom : ℕ
err_oom = 5

abbrev pub err_cluster_too_many_redirect : ℕ
err_cluster_too_many_redirect = 6

module _ {ℓ} {A : Type ℓ} where
  -- `__redisClusterSetError` with a text: the buffer has room for 127 of its bytes.
  unfoldable pub set_error : RedisClusterContext A → ℕ → Bytes → RedisClusterContext A
  set_error cc type str =
      let len = length str in
      let len = if ltb len 127 then len else 127 in record cc { err = type; errstr = take len str }

  -- `node_get_by_table`
  unfoldable pub node_get_by_table : RedisClusterContext A → ℕ → Option A
  node_get_by_table cc slot_num =
      if ltb slot_num redis_cluster_slots then cc.table slot_num else none
