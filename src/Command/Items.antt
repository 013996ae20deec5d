-- ===== src/Command/Items.antt =====
-- command.c: the states of `redis_parse_cmd` that read the items: the command's name, the keys
-- and the arguments. `grant` answers the memory requests of `hiarray_push`.
use hiredis_vip.Base.{
  ℕ, ◌+◌, [], ◌∷◌, Bytes, Option, none, some, get_elem?, slice, ◌==◌, if◌then◌else◌, Bool, true,
  false,
}
use hiredis_vip.Array.{push_value}
use hiredis_vip.Command.Kinds.{redis_argz, redis_argeval}
use hiredis_vip.Command.Keywords.{command_type}
use hiredis_vip.Command.Types.{
  CmdType, unknown, req_redis_ping, req_redis_quit, req_redis_auth, State, req_type_lf, key_len,
  key_lf, arg1_len, arg2_lf, Cmd,
}
use hiredis_vip.Command.Fsa.{
  lf, is_digit, Fsa, Next, go_on, goto_done, goto_enomem, goto_error, add_digit, not_cr, token_or,
}

-- `r->type = …`, with the flags that some commands set.
unfoldable pub sets_noforward : CmdType → Bool
sets_noforward req_redis_ping = true
sets_noforward req_redis_auth = true
sets_noforward _ = false

unfoldable pub sets_quit : CmdType → Bool
sets_quit req_redis_quit = true
sets_quit _ = false

unfoldable pub set_flags : CmdType → Cmd → Cmd
set_flags t r = record r {
  noforward = if sets_noforward t then true else r.noforward;
  quit = if sets_quit t then true else r.quit;
}

unfoldable pub set_type : Bytes → Cmd → Cmd
unfolding set_flags
set_type word r = let t = command_type word in set_flags t (record r { type = t })

-- `r->type == CMD_UNKNOWN`
unfoldable pub is_unknown : CmdType → Bool
is_unknown unknown = true
is_unknown _ = false

-- SW_REQ_TYPE
unfoldable pub read_type : Bytes → Fsa → ℕ → Next
read_type text f p =
    let t = token_or f.token p in
    let m = t + f.rlen in
    if not_cr (get_elem? text m)
    then goto_error (record f { token = some t }) p
    else let r = set_type (slice t m text) f.cmd in
      let f' : Fsa = record f { rlen = 0; token = none; cmd = r } in
      if is_unknown r.type then goto_error f' m else go_on (record f' { state = req_type_lf }) m

-- SW_REQ_TYPE_LF
unfoldable pub after_type : Fsa → ℕ → ℕ → Next
after_type f p ch =
    if ch == lf
    then if redis_argz f.cmd.type
      then goto_done f
      else if redis_argeval f.cmd.type
      then go_on (record f { state = arg1_len }) p
      else go_on (record f { state = key_len }) p
    else goto_error f p

-- SW_KEY
unfoldable pub read_key : (ℕ → Bool) → Bytes → Fsa → ℕ → Next
read_key grant text f p =
    let t = token_or f.token p in
    let m = t + f.rlen in
    if not_cr (get_elem? text m)
    then goto_error (record f { token = some t }) p
    else let f' : Fsa = record f { rlen = 0; token = none } in
      elim (push_value grant f.cmd.keys (record { key_start = t; key_end = m })) [
        | none ↦ goto_enomem f'
        | some ks ↦ go_on (record f' { state = key_lf; cmd = record (f.cmd) { keys = ks } }) m
      ]

-- SW_ARG1, SW_ARG3 and SW_ARGN
unfoldable pub skip_arg : State → Bytes → Fsa → ℕ → Next
skip_arg next text f p =
    let m = p + f.rlen in
    if not_cr (get_elem? text m)
    then goto_error f p
    else go_on (record f { rlen = 0; state = next }) m

-- The loop over the number of keys of EVAL: `none` where a byte is no digit.
unfoldable pub read_nkey : ℕ → Bytes → Option ℕ
read_nkey nkey [] = some nkey
read_nkey nkey (ch ∷ rest) = if is_digit ch then read_nkey (add_digit nkey ch) rest else none

-- The tests of EVAL on the text of its second argument.
unfoldable pub bad_nkey : Bytes → Bool
unfolding read_nkey
bad_nkey [] = true
bad_nkey (ch ∷ rest) = elim (read_nkey 0 (ch ∷ rest)) [ none ↦ true | some nkey ↦ nkey == 0 ]

-- SW_ARG2
unfoldable pub read_arg2 : Bytes → Fsa → ℕ → Next
read_arg2 text f p =
    let eval = redis_argeval f.cmd.type in
    let f' : Fsa = if eval then record f { token = some (token_or f.token p) } else f in
    let m = p + f.rlen in
    if not_cr (get_elem? text m)
    then goto_error f' p
    else if eval
    then if bad_nkey (slice (token_or f.token p) m text)
      then goto_error (record f' { rlen = 0 }) m
      else go_on (record f { rlen = 0; token = none; state = arg2_lf }) m
    else go_on (record f { rlen = 0; state = arg2_lf }) m
