-- ===== src/Command/Tests.antt =====
-- Commands in the protocol, and names of commands.
use hiredis_vip.Base.{
  ℕ, [], ◌∷◌, ◌++◌, Bytes, Option, none, some, get_elem?, Bool, true, false, ◌≡◌, refl, ◌⊎◌,
}
use hiredis_vip.Array.{create}
use hiredis_vip.Command.Types.{unknown, req_redis_get, Cmd, parse_ok, parse_error, CmdParseResult}
use hiredis_vip.Command.Keywords.{keywords_3, command_type}
use hiredis_vip.Command.Keywords.Laws.{
  all_keywords, kinds, command_type-to_lower, command_type-keyword, command_type-kinds,
}
use hiredis_vip.Command.Parse.{redis_parse_cmd, command_get}
use hiredis_vip.Command.Halts.{redis_parse_cmd-halts}
use hiredis_vip.Command.Keywords.{keywords, find_keyword, str_icmp}
use hiredis_vip.Command.Items.{is_unknown}
use hiredis_vip.Command.Parse.{parse_loop, conclude, dispatch}
use hiredis_vip.Command.Fsa.{scan_narg, scan_len, expect_lf}
use hiredis_vip.Command.Items.{
  read_type, set_type, set_flags, sets_noforward, sets_quit, after_type,
}
use hiredis_vip.Command.Kinds.{redis_argz, redis_argeval}

abbrev always : ℕ → Bool
always n = true

-- What `command_get` returns.
abbrev blank : Cmd
blank = record {
  result = parse_ok;
  errstr = none;
  type = unknown;
  keys = record { nelem = 0; elem = none ∷ []; size = 16; nalloc = 1 };
  narg_start = none;
  narg_end = none;
  narg_count = 0;
  quit = false;
  noforward = false;
}

-- "GeT"
abbrev mixed : Bytes
mixed = b'G' ∷ b'e' ∷ b'T' ∷ []

-- "*2\r\n$3\r\nGeT\r\n$2\r\nab\r\n"
abbrev get_ab : Bytes
get_ab =
    (b'*' ∷ b'2' ∷ 13 ∷ 10 ∷ b'$' ∷ b'3' ∷ 13 ∷ 10 ∷ [])
    ++ mixed
    ++ (13 ∷ 10 ∷ b'$' ∷ b'2' ∷ 13 ∷ 10 ∷ b'a' ∷ b'b' ∷ 13 ∷ 10 ∷ [])

abbrev parsed : Option Cmd → CmdParseResult
parsed none = parse_error
parsed (some r) = r.result

blank-command_get : command_get always 80 24 16 ≡ some blank
unfolding command_get create
blank-command_get = refl

redis_parse_cmd-halts_example : (r' : Cmd) × (redis_parse_cmd always get_ab blank ≡ some r')
redis_parse_cmd-halts_example = redis_parse_cmd-halts always get_ab blank

command_type-to_lower_example : command_type mixed ≡ command_type (b'g' ∷ b'e' ∷ b't' ∷ [])
command_type-to_lower_example = command_type-to_lower mixed

row_of_get : get_elem? all_keywords 0 ≡ some (b'g' ∷ b'e' ∷ b't' ∷ [], req_redis_get)
unfolding all_keywords keywords_3
row_of_get = refl

command_type-keyword_example : command_type mixed ≡ req_redis_get
command_type-keyword_example =
    command_type-keyword 0 (b'g' ∷ b'e' ∷ b't' ∷ [], req_redis_get) mixed row_of_get refl

command_type-kinds_example : (command_type mixed ≡ unknown) ⊎ (kinds (command_type mixed) ≡ 1)
command_type-kinds_example = command_type-kinds mixed

-- "ab"
abbrev ab : Bytes
ab = b'a' ∷ b'b' ∷ []

-- "*2\r\n$3\r\nGeT\r\n": the key is missing.
abbrev stops_short : Bytes
stops_short = (b'*' ∷ b'2' ∷ 13 ∷ 10 ∷ b'$' ∷ b'3' ∷ 13 ∷ 10 ∷ []) ++ mixed ++ (13 ∷ 10 ∷ [])

-- It is accepted all the same.
parsed-stops_short : parsed (redis_parse_cmd always stops_short blank) ≡ parse_ok
unfolding redis_parse_cmd parse_loop conclude dispatch scan_narg scan_len expect_lf read_type
    set_type set_flags sets_noforward sets_quit command_type keywords keywords_3 find_keyword
    str_icmp is_unknown after_type redis_argz redis_argeval
parsed-stops_short = refl
