-- ===== src/Cluster/Calls/Tests.antt =====
-- The slot of an MGET of two keys.
use hiredis_vip.Base.{ℕ, some, ◌≡◌}
use hiredis_vip.Base.Int.{pos}
use hiredis_vip.Cluster.Context.{RedisClusterContext}
use hiredis_vip.Cluster.Client.Samples.{
  served, silent, fresh, buffer, fragments, idle, mget_a_b, planned,
}
use hiredis_vip.Cluster.Calls.{slot_get_by_command}
use hiredis_vip.Cluster.Calls.Laws.{slot_get_by_command-format}

slot_get_by_command-format_example :
    (ctx' : RedisClusterContext ℕ) × (slot_get_by_command served idle mget_a_b fresh
      ≡ some (pos 3300, ctx'))
slot_get_by_command-format_example =
    slot_get_by_command-format served silent idle idle mget_a_b fresh buffer fragments planned
