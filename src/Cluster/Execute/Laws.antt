-- ===== src/Cluster/Execute/Laws.antt =====
-- A command that is sent comes back with an answer.
use hiredis_vip.Base.{Option, none, some, false, Bytes, ◌≡◌, ◌≢◌, refl, subst, arith}
use hiredis_vip.Cluster.Context.{RedisClusterContext}
use hiredis_vip.Cluster.Reply.{Reply, cluster_reply_error_type}
use hiredis_vip.Cluster.Net.{Net, Conn, broken}
use hiredis_vip.Cluster.Execute.{
  Request, Run, returned, out_of_fuel, redirected, redis_cluster_command_execute,
}
use hiredis_vip.Cluster.Execute.Ends.{Blames, Ends, execute-Ends}

module _ {ℓ} {A W : Type ℓ} where
  -- A connection that fails says so: its error is not 0.
  pub record Reports (net : Net A W) : Type ℓ where
    pub unsent :
        (node : A) (text : Bytes) (w : W) (c : Conn)
        → (net.append_command node text w).0 ≡ some c
        → c.conn_err ≢ 0
    pub unanswered :
        (node : A) (w : W) (c : Conn) → (net.block_for_reply node w).0 ≡ broken c → c.conn_err ≢ 0
    pub refused :
        (node : A) (text : Bytes) (w : W) (c : Conn)
        → (net.redis_command node text w).0 ≡ broken c
        → c.conn_err ≢ 0

  -- Any error will do; and an error that is not 0.
  pub blames_any : (net : Net A W) → Blames net (λ n. Unit)
  blames_any net = record {
    other = tt;
    oom = tt;
    many = tt;
    down = λ n h. tt;
    unsent = λ node text w c e. tt;
    unanswered = λ node w c e. tt;
    refused = λ node text w c e. tt;
  }

  pub blames_some : (net : Net A W) → Reports net → Blames net (λ n. n ≢ 0)
  blames_some net reports = record {
    other = λ h. absurd (omega arith);
    oom = λ h. absurd (omega arith);
    many = λ h. absurd (omega arith);
    down = λ n h. h;
    unsent = reports.unsent;
    unanswered = reports.unanswered;
    refused = reports.refused;
  }

  pub comes_back :
      (run : Run A W)
      → Ends (λ n. Unit) run
      → (r : Option Reply) × (ctx : RedisClusterContext A) × (w : W) × (run ≡ returned r ctx w)
        × ((reply : Reply) → r ≡ some reply → redirected (cluster_reply_error_type r) ≡ false)
  comes_back out_of_fuel e = absurd e
  comes_back (returned none ctx w) e = (none, ctx, w, refl, λ reply h. absurd (cc h))
  comes_back (returned (some reply) ctx w) e = (some reply, ctx, w, refl, λ reply' h. e)

  blamed :
      (run : Run A W) (ctx : RedisClusterContext A) (w : W)
      → Ends (λ n. n ≢ 0) run
      → run ≡ returned none ctx w
      → ctx.err ≢ 0
  blamed run ctx w ends e = subst (Ends (λ n. n ≢ 0)) e ends

  -- When a command that is executed returns NULL, the context says what went wrong, given that a
  -- connection that fails has an error other than 0.
  pub redis_cluster_command_execute-err :
      (net : Net A W) (command : Request) (ctx : RedisClusterContext A) (w : W)
      → Reports net
      → (ctx' : RedisClusterContext A) (w' : W)
      → redis_cluster_command_execute net command ctx w ≡ returned none ctx' w'
      → ctx'.err ≢ 0
  redis_cluster_command_execute-err net command ctx w reports ctx' w' e =
      blamed _ ctx' w'
        (execute-Ends net command (λ n. n ≢ 0) (blames_some net reports) ctx.max_redirect_count ctx
          w refl)
        e
