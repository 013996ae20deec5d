-- ===== src/Cluster/Execute/Tests.antt =====
-- Two masters, and servers that answer by a script.
use hiredis_vip.Base.{ℕ, List, [], ◌∷◌, Option, none, some, false, ◌≡◌, ◌≢◌, refl, subst, arith}
use hiredis_vip.Base.Int.{pos}
use hiredis_vip.Command.Keywords.{codes}
use hiredis_vip.Cluster.{ClusterSlot}
use hiredis_vip.Cluster.Context.{ClusterNode, RedisClusterContext, role_master}
use hiredis_vip.Cluster.Reply.{
  Reply, reply_status, reply_error, reply_string, cluster_reply_error_type,
}
use hiredis_vip.Cluster.Net.{Net, Conn, Answer, replied, broken, reported}
use hiredis_vip.Cluster.Execute.{Request, Run, returned, out_of_fuel, redis_cluster_command_execute}
use hiredis_vip.Cluster.Execute.Laws.{Reports, redis_cluster_command_execute-err}

abbrev ready : Conn
ready = record { conn_err = 0; conn_errstr = [] }

abbrev closed : Conn
closed = record { conn_err = 3; conn_errstr = codes "Server closed the connection" }

abbrev region : ℕ → ℕ → ℕ → ClusterSlot ℕ
region first last master = record { start = first; end = last; node = master }

abbrev master : ℕ → ClusterSlot ℕ → ClusterNode ℕ
master self slot = record { key = []; self = self; role = role_master; slots = some (slot ∷ []) }

-- The replies that are still to come.
abbrev next : List Reply → Answer × List Reply
next [] = (broken closed, [])
next (reply ∷ script) = (replied reply, script)

abbrev net : Net ℕ (List Reply)
net = record {
  con = λ node w. some ready;
  host = λ node w. some (codes "127.0.0.1");
  port = λ node w. pos 6379;
  connect = λ node host port w. w;
  reconnect = λ node w. w;
  append_command = λ node text w. (none, w);
  block_for_reply = λ node w. next w;
  redis_command = λ node text w. (replied (reply_status (codes "OK")), w);
  ask_route = λ ip port w. (reported (master 2 (region 0 9 2) ∷ []), w);
  swap_ctx = λ old new w. w;
  split = λ str sep. none;
  new_node = λ slot host port w. (none, w);
  dict_find = λ nodes key. none;
  dict_add = λ n nodes. n ∷ nodes;
  qsort = λ cmp slots. slots;
}

abbrev start : RedisClusterContext ℕ
start = record {
  err = 0;
  errstr = [];
  ip = some (codes "127.0.0.1");
  port = pos 6379;
  slots = none;
  nodes = none;
  table = λ k. some 1;
  route_version = 1;
  max_redirect_count = 5;
  retry_count = 0;
  need_update_route = false;
}

abbrev get_request : Request
get_request = record { text = codes "GET"; slot_num = 7 }

abbrev moved_then_value : List Reply
moved_then_value = reply_error (codes "MOVED 7 127.0.0.1:6380") ∷ reply_string (codes "v") ∷ []

-- What a run returned, and how often it was redirected.
abbrev summary : Run ℕ (List Reply) → Option Reply × ℕ
summary (returned r ctx w) = (r, ctx.retry_count)
summary out_of_fuel = (none, 0)

follows_moved :
    summary (redis_cluster_command_execute net get_request start moved_then_value)
    ≡ (some (reply_string (codes "v")), 1)
unfolding redis_cluster_command_execute cluster_reply_error_type
follows_moved = refl

closed_only : (w : List Reply) (c : Conn) → (next w).0 ≡ broken c → c.conn_err ≢ 0
closed_only [] c e =
    let same : closed ≡ c = cc e in subst (λ x. x.conn_err ≢ 0) same (λ h. absurd (omega arith))
closed_only (reply ∷ script) c e = absurd (cc e)

net-Reports : Reports net
net-Reports = record {
  unsent = λ node text w c e. absurd (cc e);
  unanswered = λ node w c e. closed_only w c e;
  refused = λ node text w c e. absurd (cc e);
}

abbrev after : RedisClusterContext ℕ
after = record start { err = 3; errstr = codes "Server closed the connection" }

no_answer : redis_cluster_command_execute net get_request start [] ≡ returned none after []
unfolding redis_cluster_command_execute cluster_reply_error_type
no_answer = refl

redis_cluster_command_execute-err_example : after.err ≢ 0
redis_cluster_command_execute-err_example =
    redis_cluster_command_execute-err net get_request start [] net-Reports after [] no_answer
