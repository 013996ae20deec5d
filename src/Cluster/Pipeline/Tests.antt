-- ===== src/Cluster/Pipeline/Tests.antt =====
-- Two nodes that answer each command with its text, in the order of the commands.
use hiredis_vip.Base.{
  ℕ, List, [], ◌∷◌, ◌++◌, Bytes, Option, none, some, true, ◌==◌, if◌then◌else◌, ◌≡◌, refl, ==_refl,
}
use hiredis_vip.Base.Int.{pos, negsuc}
use hiredis_vip.Command.Types.{req_redis_get, req_redis_del}
use hiredis_vip.Command.Keywords.{codes}
use hiredis_vip.Cluster.Reply.{Reply, reply_string, reply_integer, reply_error}
use hiredis_vip.Cluster.Net.{Net, Conn, Answer, replied, broken, unreachable}
use hiredis_vip.Cluster.Client.{request_of}
use hiredis_vip.Cluster.Client.Samples.{
  served, silent, fresh, key_a, key_b, buffer, part, fragments, idle, mget_a_b, planned,
}
use hiredis_vip.Cluster.Pipeline.{Pending, Lines, Session, redis_cluster_append_formatted_command}
use hiredis_vip.Cluster.Pipeline.Replies.{freed, redis_cluster_get_reply}
use hiredis_vip.Cluster.Pipeline.Reset.{freed_twice, redis_cluster_reset}
use hiredis_vip.Cluster.Pipeline.Fifo.{Fifo, tail, replies_of}
use hiredis_vip.Cluster.Pipeline.Order.{
  joined, InStep, owed_whole, owed_end, owed_next, redis_cluster_get_reply-order,
}
use hiredis_vip.Cluster.Pipeline.Asks.{
  Asks, asks_parts, asked_next, asked_end, redis_cluster_append_formatted_command-order,
}

-- The replies that can be read from each node.
abbrev Unread : Type 0
Unread = ℕ → List Reply

abbrev up : Conn
up = record { conn_err = 0; conn_errstr = [] }

abbrev closed : Conn
closed = record { conn_err = 3; conn_errstr = codes "closed" }

abbrev head : List Reply → Answer
head [] = broken closed
head (r ∷ rs) = replied r

abbrev sent : ℕ → Bytes → Unread → Unread
sent x text w y = if y == x then w y ++ (reply_string text ∷ []) else w y

abbrev net : Net ℕ Unread
net = record {
  con = λ node w. some up;
  host = λ node w. some (codes "127.0.0.1");
  port = λ node w. pos 6379;
  connect = λ node host port w. w;
  reconnect = λ node w. w;
  append_command = λ node text w. (none, sent node text w);
  block_for_reply = λ node w. (broken closed, w);
  redis_command = λ node text w. (replied (reply_string []), w);
  ask_route = λ ip port w. (unreachable 2 [], w);
  swap_ctx = λ old new w. w;
  split = λ str sep. none;
  new_node = λ slot host port w. (none, w);
  dict_find = λ nodes key. none;
  dict_add = λ n nodes. n ∷ nodes;
  qsort = λ cmp slots. slots;
}

abbrev taken_from : ℕ → Unread → Unread
taken_from x w y = if y == x then tail (w y) else w y

abbrev lines : Lines ℕ Unread
lines = record {
  get_reply = λ node w. (head (w node), taken_from node w);
  write_all = λ node w. (true, w);
  free = λ node w y. if y == node then [] else w y;
}

head-first :
    (x : ℕ) (w : Unread) (r : Reply) (rs : List Reply) → w x ≡ r ∷ rs → head (w x) ≡ replied r
head-first x w r rs e = rw (e) refl

abbrev fifo : Fifo net lines
fifo = record {
  same = λ x y. x == y;
  same_refl = λ x. ==_refl x;
  queue = λ y w. w y;
  answer = λ x text. reply_string text;
  up = λ x w. (up, refl, refl);
  sends = λ x text w. refl;
  after_send = λ x text w y. refl;
  gets = head-first;
  after_get = λ x w r rs e y. refl;
}

abbrev table : ℕ → Option ℕ
table = idle.table

abbrev nothing_asked : Session ℕ Unread
nothing_asked = record { cc = idle; requests = none; world = λ y. [] }

nothing-InStep : InStep net lines fifo table nothing_asked []
unfolding replies_of
nothing-InStep = record {
  requests = [];
  listed = refl;
  owed = owed_end;
  same_table = refl;
  awaits = λ y. refl;
}

abbrev two_answers : List (ℕ × Reply)
two_answers =
    (0, reply_string (request_of (part key_b 3300 (codes "b"))).text)
    ∷ (1, reply_string (request_of (part key_a 15495 (codes "a"))).text)
    ∷ []

mget-Asks : Asks table fifo.answer mget_a_b fragments two_answers
mget-Asks = asks_parts 3300 _ _ _ refl refl refl (
    asked_next (part key_b 3300 (codes "b")) 0 _ _ refl
      (asked_next (part key_a 15495 (codes "a")) 1 _ _ refl asked_end))

redis_cluster_append_formatted_command-order_example :
    (s' : Session ℕ Unread) × (redis_cluster_append_formatted_command net served silent mget_a_b
        fresh buffer nothing_asked
      ≡ some (true, s'))
    × InStep net lines fifo table s' (two_answers ∷ [])
redis_cluster_append_formatted_command-order_example =
    redis_cluster_append_formatted_command-order net lines fifo table served silent mget_a_b fresh
      buffer nothing_asked fragments two_answers [] nothing-InStep planned mget-Asks

-- A GET of slot 7 has been asked, and its reply can be read from node 0.
abbrev get_pending : Pending
get_pending = record {
  type = req_redis_get;
  slot_num = pos 7;
  sub_commands = none;
  frag_seq = none;
}

abbrev value_v : Reply
value_v = reply_string (codes "v")

abbrev get_asked : Session ℕ Unread
get_asked = record {
  cc = idle;
  requests = some (get_pending ∷ []);
  world = λ y. if y == 0 then value_v ∷ [] else [];
}

get-InStep : InStep net lines fifo table get_asked (((0, value_v) ∷ []) ∷ [])
unfolding replies_of
get-InStep = record {
  requests = get_pending ∷ [];
  listed = refl;
  owed =
      owed_next get_pending ((0, value_v) ∷ []) [] []
        (owed_whole req_redis_get 7 none none 0 value_v refl) owed_end;
  same_table = refl;
  awaits = λ y. refl;
}

redis_cluster_get_reply-order_example :
    (p : Pending) × (rest : List Pending) × (get_asked.requests ≡ some (p ∷ rest))
    × ((redis_cluster_get_reply net lines get_asked).1 ≡ joined idle p ((0, value_v) ∷ []))
    × InStep net lines fifo table (redis_cluster_get_reply net lines get_asked).2 []
redis_cluster_get_reply-order_example =
    redis_cluster_get_reply-order net lines fifo table get_asked ((0, value_v) ∷ []) [] get-InStep

-- The nodes are known, and no connection is asked.
abbrev to_reset : Session ℕ Unread
to_reset = record get_asked { cc = record idle { nodes = some [] } }

-- A DEL in two parts, whose second comes back with an error.
abbrev del_asked : Session ℕ Unread
del_asked = record {
  cc = record idle { nodes = some [] };
  requests = some (
      record {
        type = req_redis_del;
        slot_num = negsuc 0;
        sub_commands = some (part key_b 3300 (codes "b") ∷ part key_a 15495 (codes "a") ∷ []);
        frag_seq = some (15495 ∷ 3300 ∷ []);
      }
      ∷ []);
  world = λ y. if y == 0 then reply_integer (pos 1) ∷ [] else reply_error (codes "ERR") ∷ [];
}

-- The error is given to the caller, but is freed with its sub command.
del_freed :
    (redis_cluster_get_reply net lines del_asked).1 ≡ some (freed (reply_error (codes "ERR")))
unfolding redis_cluster_get_reply
del_freed = refl

reset_frees_twice : redis_cluster_reset net lines del_asked ≡ freed_twice
unfolding redis_cluster_reset
reset_frees_twice = refl
