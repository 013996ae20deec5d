-- ===== src/Cluster/Plan/Tests.antt =====
-- The plan of a GET.
use hiredis_vip.Base.{ℕ, [], ◌∷◌, Bytes, Option, none, some, Bool, true, false, ◌≡◌, refl, arith}
use hiredis_vip.Base.Int.{pos}
use hiredis_vip.Slot.{key_hash_slot}
use hiredis_vip.Format.Encode.{encode}
use hiredis_vip.Command.Types.{unknown, parse_ok, ParseFault, Cmd}
use hiredis_vip.Command.Keywords.{codes, command_type, keywords, keywords_3, find_keyword, str_icmp}
use hiredis_vip.Command.Kinds.{redis_arg0}
use hiredis_vip.Command.Items.{is_unknown}
use hiredis_vip.Command.Run.Keys.{Records}
use hiredis_vip.Command.Run.Shapes.{Shape, only_key}
use hiredis_vip.Cluster.Context.{RedisClusterContext}
use hiredis_vip.Cluster.Plan.{command_format_by_slot}
use hiredis_vip.Cluster.Plan.Laws.{command_format_by_slot-encode}

abbrev served : ℕ → Bool
served n = true

abbrev silent : Option ParseFault → Bytes
silent fault = []

abbrev fresh_command : Cmd
fresh_command = record {
  result = parse_ok;
  errstr = none;
  type = unknown;
  keys = record { nelem = 0; elem = none ∷ []; size = 24; nalloc = 1 };
  narg_start = none;
  narg_end = none;
  narg_count = 0;
  quit = false;
  noforward = false;
}

abbrev unconnected : RedisClusterContext ℕ
unconnected = record {
  err = 0;
  errstr = [];
  ip = none;
  port = pos 0;
  slots = none;
  nodes = none;
  table = λ k. none;
  route_version = 0;
  max_redirect_count = 5;
  retry_count = 0;
  need_update_route = false;
}

none-Records : Records (encode (codes "GET" ∷ codes "user" ∷ [])) fresh_command.keys []
none-Records = record {
  places = [];
  holds = record {
    valid = record {
      width = refl;
      room = omega arith;
      some_room = omega arith;
      word = omega arith;
      some_size = omega arith;
      small_size = omega arith;
    };
    count = refl;
    filled = refl;
  };
  found = refl;
}

get_known : is_unknown (command_type (codes "GET")) ≡ false
unfolding is_unknown command_type keywords keywords_3 find_keyword str_icmp
get_known = refl

get-Shape : Shape (command_type (codes "GET")) (codes "user" ∷ []) (codes "user" ∷ [])
unfolding redis_arg0 command_type keywords keywords_3 find_keyword str_icmp
get-Shape = only_key refl (codes "user")

command_format_by_slot-encode_example :
    command_format_by_slot served silent unconnected
      (encode (codes "GET" ∷ codes "user" ∷ []))
      fresh_command
      []
    ≡ some (
      record { slot = pos (key_hash_slot (codes "user")); commands = []; frag_seq = none },
      unconnected,
    )
command_format_by_slot-encode_example =
    command_format_by_slot-encode served silent unconnected (codes "GET") (codes "user" ∷ [])
      (codes "user") fresh_command [] (λ n. refl) get_known get-Shape (omega arith) (omega arith)
      none-Records
