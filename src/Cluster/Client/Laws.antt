-- ===== src/Cluster/Client/Laws.antt =====
-- What `redisClusterFormattedCommand` returns, and when it says what went wrong.
use hiredis_vip.Base.{ℕ, ◌∷◌, Option, none, some, Bool, Bytes, ◌≡◌, ◌≢◌, inl, inr, Option-cases}
use hiredis_vip.Command.Types.{ParseFault, Cmd}
use hiredis_vip.Cluster.Context.{RedisClusterContext}
use hiredis_vip.Cluster.Reply.{Reply}
use hiredis_vip.Cluster.Net.{Net}
use hiredis_vip.Cluster.Execute.{returned}
use hiredis_vip.Cluster.Execute.Laws.{Reports, blames_some}
use hiredis_vip.Cluster.Plan.{command_format_by_slot}
use hiredis_vip.Cluster.Client.{parsed_type, without_error, redis_cluster_formatted_command}
use hiredis_vip.Cluster.Client.Closes.{execute_plan-Closes, blamed_none}
use hiredis_vip.Cluster.Client.Told.{format-Told}

module _ {ℓ} {A W : Type ℓ} (net : Net A W) (grant : ℕ → Bool)
    (report : Option ParseFault → Bytes) where
  -- When a command that is not empty comes back with NULL, the context says what went wrong, given that
  -- a connection that fails has an error other than 0.
  pub redis_cluster_formatted_command-err :
      Reports net
      → (ctx : RedisClusterContext A) (b : ℕ) (text : Bytes) (command : Cmd) (num_str : Bytes)
        (w : W) (ctx' : RedisClusterContext A) (w' : W)
      → redis_cluster_formatted_command net grant report ctx (b ∷ text) command num_str w
        ≡ some (returned none ctx' w')
      → ctx'.err ≢ 0
  unfolding redis_cluster_formatted_command
  redis_cluster_formatted_command-err reports ctx b text command num_str w ctx' w' e =
      elim (Option-cases
        (command_format_by_slot grant report (without_error ctx) (b ∷ text) command num_str)) [
          | inl h ↦ absurd (cc (rw (h, redis_cluster_formatted_command) at e))
          | inr (p, h) ↦
              let told = format-Told grant report (without_error ctx) b text command num_str in
              blamed_none _ ctx' w'
                (execute_plan-Closes net (λ n. n ≢ 0) (blames_some net reports)
                  (parsed_type grant (b ∷ text) command) (b ∷ text) p.0 p.1 w (rw (h) at told))
                (cc (rw (h, redis_cluster_formatted_command) at e))
        ]
