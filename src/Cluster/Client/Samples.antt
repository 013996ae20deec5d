-- ===== src/Cluster/Client/Samples.antt =====
-- An MGET of two keys in two slots, its parse and its plan.
use hiredis_vip.Base.{
  ℕ, [], ◌∷◌, ◌++◌, Bytes, Option, none, some, Bool, true, false, if◌then◌else◌, ◌≡◌, ltb, refl,
  arith,
}
use hiredis_vip.Base.Int.{pos}
use hiredis_vip.Slot.{key_hash_slot, scan_for, crc16}
use hiredis_vip.Util.{uint_len, hi_itoa}
use hiredis_vip.Format.Encode.{encode, digits_of, encode_item, encode_items}
use hiredis_vip.Command.Types.{unknown, parse_ok, ParseFault, Cmd, KeyPos, req_redis_mget}
use hiredis_vip.Command.Keywords.{codes, command_type, keywords, keywords_4, find_keyword, str_icmp}
use hiredis_vip.Command.Parse.{redis_parse_cmd, parse_loop, conclude, dispatch}
use hiredis_vip.Command.Fsa.{scan_narg, scan_len, expect_lf}
use hiredis_vip.Command.Items.{
  read_type, set_type, set_flags, sets_noforward, sets_quit, is_unknown, after_type, read_key,
}
use hiredis_vip.Command.Choices.{after_key, at_lf}
use hiredis_vip.Array.{push_value, push, store, make_room}
use hiredis_vip.Command.Kinds.{
  redis_argz, redis_argeval, redis_arg0, redis_arg1, redis_arg2, redis_arg3, redis_argn, redis_argx,
  redis_argkvx,
}
use hiredis_vip.Command.Run.Keys.{Records}
use hiredis_vip.Cluster.Context.{RedisClusterContext}
use hiredis_vip.Cluster.Fragment.{SubCommand, Fragments, command_pre_fragment}
use hiredis_vip.Decimal.{sdsull2str, write_digits, reverse_loop}
use hiredis_vip.Cluster.Plan.{place_keys, command_format_by_slot}

abbrev pub served : ℕ → Bool
served n = true

abbrev pub silent : Option ParseFault → Bytes
silent fault = []

abbrev pub fresh : Cmd
fresh = record {
  result = parse_ok;
  errstr = none;
  type = unknown;
  keys = record { nelem = 0; elem = none ∷ none ∷ []; size = 24; nalloc = 2 };
  narg_start = none;
  narg_end = none;
  narg_count = 0;
  quit = false;
  noforward = false;
}

abbrev pub crlf : Bytes
crlf = 13 ∷ 10 ∷ []

abbrev pub key_a : KeyPos
key_a = record { key_start = 18; key_end = 19 }

abbrev pub key_b : KeyPos
key_b = record { key_start = 25; key_end = 26 }

abbrev pub buffer : Bytes
buffer = 0 ∷ 0 ∷ 0 ∷ 0 ∷ 0 ∷ 0 ∷ 0 ∷ 0 ∷ 0 ∷ 0 ∷ 0 ∷ 0 ∷ []

abbrev pub mget_of : Bytes → Bytes
mget_of name =
    codes "*2"
    ++ crlf
    ++ codes "$4"
    ++ crlf
    ++ codes "mget"
    ++ crlf
    ++ codes "$1"
    ++ crlf
    ++ name
    ++ crlf

abbrev pub part : KeyPos → ℕ → Bytes → SubCommand
part key slot name = record {
  keys = record { at = key; remain_len = 0 } ∷ [];
  narg = 2;
  clen = 21;
  slot_num = slot;
  cmd = mget_of name;
  type = req_redis_mget;
}

abbrev pub fragments : Fragments
fragments = record {
  slot = pos 3300;
  commands = part key_b 3300 (codes "b") ∷ part key_a 15495 (codes "a") ∷ [];
  frag_seq = some (15495 ∷ 3300 ∷ []);
}

-- Node 1 serves the slots from 8192 on, node 0 those before.
abbrev pub idle : RedisClusterContext ℕ
idle = record {
  err = 0;
  errstr = [];
  ip = none;
  port = pos 0;
  slots = none;
  nodes = none;
  table = λ k. some (if ltb k 8192 then 0 else 1);
  route_version = 0;
  max_redirect_count = 5;
  retry_count = 0;
  need_update_route = false;
}

abbrev pub mget_a_b : Bytes
mget_a_b =
    codes "*3"
    ++ crlf
    ++ codes "$4"
    ++ crlf
    ++ codes "mget"
    ++ crlf
    ++ codes "$1"
    ++ crlf
    ++ codes "a"
    ++ crlf
    ++ codes "$1"
    ++ crlf
    ++ codes "b"
    ++ crlf

-- The command behind the parse.
abbrev pub parsed_mget : Cmd
parsed_mget = record {
  result = parse_ok;
  errstr = none;
  type = req_redis_mget;
  keys = record { nelem = 2; elem = some key_a ∷ some key_b ∷ []; size = 24; nalloc = 2 };
  narg_start = some 0;
  narg_end = some 2;
  narg_count = 3;
  quit = false;
  noforward = false;
}

parses : redis_parse_cmd served mget_a_b fresh ≡ some parsed_mget
unfolding redis_parse_cmd parse_loop conclude dispatch scan_narg scan_len expect_lf read_type
    set_type set_flags sets_noforward sets_quit command_type keywords keywords_4 find_keyword
    str_icmp is_unknown after_type redis_argz redis_argeval read_key after_key redis_arg0 redis_arg1
    redis_arg2 redis_arg3 redis_argn redis_argx redis_argkvx push_value push store make_room at_lf
parses = refl

pub planned :
    command_format_by_slot served silent idle mget_a_b fresh buffer ≡ some (fragments, idle)
unfolding command_format_by_slot place_keys command_pre_fragment key_hash_slot scan_for crc16
    uint_len hi_itoa
planned = rw (parses, command_format_by_slot) refl

pub mget_known : command_type (codes "mget") ≡ req_redis_mget
unfolding command_type keywords keywords_4 find_keyword str_icmp
mget_known = refl

encoded : encode (codes "mget" ∷ codes "a" ∷ codes "b" ∷ []) ≡ mget_a_b
unfolding encode encode_items encode_item digits_of sdsull2str write_digits reverse_loop
encoded = refl

pub none-Records : Records (encode (codes "mget" ∷ codes "a" ∷ codes "b" ∷ [])) fresh.keys []
none-Records = record {
  places = [];
  holds = record {
    valid = record {
      width = refl;
      room = omega arith;
      some_room = omega arith;
      word = omega arith;
      some_size = omega arith;
      small_size = omega arith;
    };
    count = refl;
    filled = refl;
  };
  found = refl;
}
