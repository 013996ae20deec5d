-- ===== src/Cluster/Gather/Tests.antt =====
-- The replies to the parts of an MGET and of a DEL.
use hiredis_vip.Base.{ℕ, [], ◌∷◌, ◌++◌, Bytes, Option, none, some, Bool, false, ◌≡◌, refl, arith}
use hiredis_vip.Base.Int.{pos}
use hiredis_vip.Command.Types.{KeyPos, req_redis_mget, req_redis_del}
use hiredis_vip.Command.Keywords.{codes}
use hiredis_vip.Cluster.Context.{RedisClusterContext}
use hiredis_vip.Cluster.Reply.{Reply, reply_string, reply_array, reply_integer, reply_error}
use hiredis_vip.Cluster.Fragment.{Fragments, SubCommand, command_pre_fragment}
use hiredis_vip.Slot.{key_hash_slot, scan_for, crc16}
use hiredis_vip.Util.{uint_len, hi_itoa}
use hiredis_vip.Cluster.Gather.{vector, command_post_fragment}
use hiredis_vip.Cluster.Gather.Compose.{served, command_post_fragment-mget}
use hiredis_vip.Cluster.Gather.Counts.{count_held, deleted, command_post_fragment-del}
use hiredis_vip.Cluster.Net.{same_text}

abbrev crlf : Bytes
crlf = 13 ∷ 10 ∷ []

-- A command of two keys, and the text of a part of it.
abbrev of_a_b : Bytes → Bytes
of_a_b name =
    codes "*3"
    ++ crlf
    ++ name
    ++ crlf
    ++ codes "$1"
    ++ crlf
    ++ codes "a"
    ++ crlf
    ++ codes "$1"
    ++ crlf
    ++ codes "b"
    ++ crlf

abbrev mget_a_b : Bytes
mget_a_b = of_a_b (codes "$4" ++ crlf ++ codes "mget")

abbrev del_a_b : Bytes
del_a_b = of_a_b (codes "$3" ++ crlf ++ codes "del")

abbrev key_a : KeyPos
key_a = record { key_start = 18; key_end = 19 }

abbrev key_b : KeyPos
key_b = record { key_start = 25; key_end = 26 }

abbrev stack : Bytes
stack = 0 ∷ 0 ∷ 0 ∷ 0 ∷ 0 ∷ 0 ∷ 0 ∷ 0 ∷ 0 ∷ 0 ∷ 0 ∷ 0 ∷ []

abbrev part : KeyPos → ℕ → Bytes → SubCommand
part key slot name = record {
  keys = record { at = key; remain_len = 0 } ∷ [];
  narg = 2;
  clen = 21;
  slot_num = slot;
  cmd =
      codes "*2"
      ++ crlf
      ++ codes "$4"
      ++ crlf
      ++ codes "mget"
      ++ crlf
      ++ codes "$1"
      ++ crlf
      ++ name
      ++ crlf;
  type = req_redis_mget;
}

abbrev fragments : Fragments
fragments = record {
  slot = pos 3300;
  commands = part key_b 3300 (codes "b") ∷ part key_a 15495 (codes "a") ∷ [];
  frag_seq = some (15495 ∷ 3300 ∷ []);
}

splits : command_pre_fragment req_redis_mget mget_a_b (key_a ∷ key_b ∷ []) stack ≡ some fragments
unfolding command_pre_fragment key_hash_slot scan_for crc16 uint_len hi_itoa
splits = refl

abbrev blank : RedisClusterContext ℕ
blank = record {
  err = 0;
  errstr = [];
  ip = none;
  port = pos 0;
  slots = none;
  nodes = none;
  table = λ k. none;
  route_version = 0;
  max_redirect_count = 5;
  retry_count = 0;
  need_update_route = false;
}

-- Each key has its own name as its value.
abbrev value : Bytes → Option Reply
value key = some (reply_string key)

command_post_fragment-mget_example :
    command_post_fragment blank req_redis_mget
      (served mget_a_b value fragments.commands)
      (15495 ∷ 3300 ∷ [])
    ≡ (
      some (
          reply_array
            (vector (some (reply_string (codes "a")) ∷ some (reply_string (codes "b")) ∷ []))),
      blank,
    )
command_post_fragment-mget_example =
    command_post_fragment-mget blank mget_a_b value (key_a ∷ key_b ∷ []) stack fragments
      (15495 ∷ 3300 ∷ []) splits refl

abbrev del_key_a : KeyPos
del_key_a = record { key_start = 17; key_end = 18 }

abbrev del_key_b : KeyPos
del_key_b = record { key_start = 24; key_end = 25 }

abbrev del_part : KeyPos → ℕ → Bytes → SubCommand
del_part key slot name = record {
  keys = record { at = key; remain_len = 0 } ∷ [];
  narg = 2;
  clen = 20;
  slot_num = slot;
  cmd =
      codes "*2"
      ++ crlf
      ++ codes "$3"
      ++ crlf
      ++ codes "del"
      ++ crlf
      ++ codes "$1"
      ++ crlf
      ++ name
      ++ crlf;
  type = req_redis_del;
}

abbrev del_fragments : Fragments
del_fragments = record {
  slot = pos 3300;
  commands = del_part del_key_b 3300 (codes "b") ∷ del_part del_key_a 15495 (codes "a") ∷ [];
  frag_seq = some (15495 ∷ 3300 ∷ []);
}

del_splits :
    command_pre_fragment req_redis_del del_a_b (del_key_a ∷ del_key_b ∷ []) stack
    ≡ some del_fragments
unfolding command_pre_fragment key_hash_slot scan_for crc16 uint_len hi_itoa
del_splits = refl

-- The servers hold b, and not a.
abbrev held : Bytes → Bool
held key = same_text key (codes "b")

command_post_fragment-del_example :
    command_post_fragment blank req_redis_del
      (deleted del_a_b held del_fragments.commands)
      (15495 ∷ 3300 ∷ [])
    ≡ (some (reply_integer (pos (count_held del_a_b held (del_key_a ∷ del_key_b ∷ [])))), blank)
command_post_fragment-del_example =
    command_post_fragment-del blank del_a_b held (del_key_a ∷ del_key_b ∷ []) stack del_fragments
      (15495 ∷ 3300 ∷ []) del_splits refl (omega arith)

one_held : count_held del_a_b held (del_key_a ∷ del_key_b ∷ []) ≡ 1
unfolding same_text
one_held = refl

-- A part that comes back with an error.
error_first :
    command_post_fragment blank req_redis_del
      ((7, some (reply_integer (pos 1))) ∷ (9, some (reply_error (codes "ERR"))) ∷ [])
      (7 ∷ 9 ∷ [])
    ≡ (some (reply_error (codes "ERR")), blank)
unfolding command_post_fragment
error_first = refl
