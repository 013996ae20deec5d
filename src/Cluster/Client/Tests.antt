-- ===== src/Cluster/Client/Tests.antt =====
-- The MGET of two keys over servers that answer by their slot, and a text that is no command.
use hiredis_vip.Base.{
  ℕ, zero, suc, List, [], ◌∷◌, Bytes, Option, none, some, ◌==◌, if◌then◌else◌, ◌≡◌, ◌≢◌, refl, sym,
  subst, arith,
}
use hiredis_vip.Base.Int.{pos}
use hiredis_vip.Format.Encode.{encode, digits_of, encode_item, encode_items}
use hiredis_vip.Command.Keywords.{codes}
use hiredis_vip.Command.Parse.{redis_parse_cmd, parse_loop, conclude, dispatch}
use hiredis_vip.Command.Fsa.{scan_narg}
use hiredis_vip.Cluster.Context.{RedisClusterContext}
use hiredis_vip.Cluster.Reply.{Reply, cluster_reply_error_type, reply_string, reply_array}
use hiredis_vip.Cluster.Fragment.{SubCommand}
use hiredis_vip.Cluster.Net.{Net, Conn, replied, unreachable}
use hiredis_vip.Cluster.Execute.{returned, redis_cluster_command_execute}
use hiredis_vip.Cluster.Execute.Laws.{Reports}
use hiredis_vip.Cluster.Gather.{vector}
use hiredis_vip.Cluster.Gather.Compose.{values}
use hiredis_vip.Cluster.Fragment.Partition.{places}
use hiredis_vip.Decimal.{sdsull2str, write_digits, reverse_loop}
use hiredis_vip.Cluster.Client.{request_of, redis_cluster_formatted_command}
use hiredis_vip.Cluster.Client.Laws.{redis_cluster_formatted_command-err}
use hiredis_vip.Cluster.Client.Mget.{Serves, redis_cluster_formatted_command-mget}
use hiredis_vip.Cluster.Plan.{command_format_by_slot}
use hiredis_vip.Cluster.Client.Samples.{
  served, silent, fresh, key_a, key_b, buffer, part, fragments, idle, mget_a_b, planned, mget_known,
  none-Records,
}

abbrev up : Conn
up = record { conn_err = 0; conn_errstr = [] }

abbrev one : Bytes → Reply
one name = reply_array (vector (some (reply_string name) ∷ []))

abbrev net : Net ℕ (Unit {0})
net = record {
  con = λ node w. some up;
  host = λ node w. some (codes "127.0.0.1");
  port = λ node w. pos 6379;
  connect = λ node host port w. w;
  reconnect = λ node w. w;
  append_command = λ node text w. (none, w);
  block_for_reply = λ node w. (replied (one (if node == 0 then codes "b" else codes "a")), w);
  redis_command = λ node text w. (replied (reply_string []), w);
  ask_route = λ ip port w. (unreachable 2 [], w);
  swap_ctx = λ old new w. w;
  split = λ str sep. none;
  new_node = λ slot host port w. (none, w);
  dict_find = λ nodes key. none;
  dict_add = λ n nodes. n ∷ nodes;
  qsort = λ cmp slots. slots;
}

abbrev value_of : Bytes → Option Reply
value_of key = some (reply_string key)

-- The context is as it was.
abbrev Idle : RedisClusterContext ℕ → Unit {0} → Type 0
Idle ctx w = ctx ≡ idle

abbrev ServedAt : SubCommand → RedisClusterContext ℕ → Type 0
ServedAt sub ctx =
    (w : Unit {0})
    → (ctx' : RedisClusterContext ℕ) × (w' : Unit {0}) × Idle ctx' w'
      × (redis_cluster_command_execute net (request_of sub) ctx w
          ≡ returned (some (reply_array (vector (values mget_a_b value_of (places sub.keys))))) ctx'
              w')

serves_b : ServedAt (part key_b 3300 (codes "b")) idle
unfolding redis_cluster_command_execute cluster_reply_error_type
serves_b w = (idle, w, refl, refl)

serves_a : ServedAt (part key_a 15495 (codes "a")) idle
unfolding redis_cluster_command_execute cluster_reply_error_type
serves_a w = (idle, w, refl, refl)

serves : Serves net mget_a_b value_of Idle fragments.commands
serves zero sub e ctx w good =
    let same : part key_b 3300 (codes "b") ≡ sub = cc e in
    subst (λ c. ServedAt sub c) (sym good) (subst (λ s. ServedAt s idle) same serves_b) w
serves (suc zero) sub e ctx w good =
    let same : part key_a 15495 (codes "a") ≡ sub = cc e in
    subst (λ c. ServedAt sub c) (sym good) (subst (λ s. ServedAt s idle) same serves_a) w
serves (suc (suc i)) sub e ctx w good = absurd (cc e)

abbrev a_and_b : List (Option Reply)
a_and_b = some (reply_string (codes "a")) ∷ some (reply_string (codes "b")) ∷ []

redis_cluster_formatted_command-mget_example :
    (ctx' : RedisClusterContext ℕ) × (w' : Unit {0}) × (redis_cluster_formatted_command net served
        silent idle
        (encode (codes "mget" ∷ codes "a" ∷ codes "b" ∷ []))
        fresh
        buffer
        tt
      ≡ some (returned (some (reply_array (vector a_and_b))) ctx' w'))
    × (ctx'.retry_count ≡ 0)
unfolding encode encode_items encode_item digits_of sdsull2str write_digits reverse_loop
redis_cluster_formatted_command-mget_example =
    redis_cluster_formatted_command-mget served silent (codes "mget") (codes "a") (codes "b") []
      fresh buffer (λ n. refl) mget_known (omega arith) (omega arith) none-Records net value_of Idle
      idle idle fragments tt planned (λ e. absurd (cc e)) serves refl

net-Reports : Reports net
net-Reports = record {
  unsent = λ node text w c e. absurd (cc e);
  unanswered = λ node w c e. absurd (cc e);
  refused = λ node text w c e. absurd (cc e);
}

abbrev refused : RedisClusterContext ℕ
refused = record idle { err = 4 }

-- A text that is no command.
no_command :
    redis_cluster_formatted_command net served silent idle (codes "x") fresh buffer tt
    ≡ some (returned none refused tt)
unfolding redis_cluster_formatted_command command_format_by_slot redis_parse_cmd parse_loop conclude
    dispatch scan_narg
no_command = refl

redis_cluster_formatted_command-err_example : refused.err ≢ 0
redis_cluster_formatted_command-err_example =
    redis_cluster_formatted_command-err net served silent net-Reports idle b'x' [] fresh buffer tt
      refused tt no_command
