-- ===== src/Command/Choices.antt =====
-- command.c: what `redis_parse_cmd` does at the line feed behind an item, by the kind of the
-- command and the number of items left.
use hiredis_vip.Base.{ℕ, ◌%◌, ltb, ◌==◌, if◌then◌else◌, Bool, ◌||◌}
use hiredis_vip.Command.Kinds.{
  redis_arg0, redis_arg1, redis_arg2, redis_arg3, redis_argn, redis_argx, redis_argkvx,
  redis_argeval,
}
use hiredis_vip.Command.Types.{CmdType, State, key_len, arg1_len, arg2_len, arg3_len, argn_len}
use hiredis_vip.Command.Fsa.{lf, Fsa, Next, go_on, goto_done, goto_error}

-- What the states that end an item do at the line feed.
pub data Choice : Type 0 where
  finish refuse : Choice
  enter : State → Choice

abbrev pub choose : Choice → Fsa → ℕ → Next
choose finish f p = goto_done f
choose refuse f p = goto_error f p
choose (enter s) f p = go_on (record f { state = s }) p

unfoldable pub at_lf : Choice → Fsa → ℕ → ℕ → Next
at_lf c f p ch = if ch == lf then choose c f p else goto_error f p

abbrev pub only_if : Bool → Choice → Choice
only_if b c = if b then c else refuse

-- `if (rnarg == 0) goto done; state = s`
abbrev pub done_or : ℕ → State → Choice
done_or n s = if n == 0 then finish else enter s

-- SW_KEY_LF
unfoldable pub after_key : CmdType → ℕ → ℕ → Choice
after_key t n count =
    if redis_arg0 t
    then only_if (n == 0) finish
    else if redis_arg1 t
    then only_if (n == 1) (enter arg1_len)
    else if redis_arg2 t
    then only_if (n == 2) (enter arg1_len)
    else if redis_arg3 t
    then only_if (n == 3) (enter arg1_len)
    else if redis_argn t
    then done_or n arg1_len
    else if redis_argx t
    then done_or n key_len
    else if redis_argkvx t
    then if n == 0 then finish else if count % 2 == 0 then refuse else enter arg1_len
    else if redis_argeval t
    then done_or n argn_len
    else refuse

-- SW_ARG1_LF
unfoldable pub after_arg1 : CmdType → ℕ → Choice
after_arg1 t n =
    if redis_arg1 t
    then only_if (n == 0) finish
    else if redis_arg2 t
    then only_if (n == 1) (enter arg2_len)
    else if redis_arg3 t
    then only_if (n == 2) (enter arg2_len)
    else if redis_argn t
    then done_or n argn_len
    else if redis_argeval t
    then if ltb n 2 then refuse else enter arg2_len
    else if redis_argkvx t
    then done_or n key_len
    else refuse

-- SW_ARG2_LF
unfoldable pub after_arg2 : CmdType → ℕ → Choice
after_arg2 t n =
    if redis_arg2 t
    then only_if (n == 0) finish
    else if redis_arg3 t
    then only_if (n == 1) (enter arg3_len)
    else if redis_argn t
    then done_or n argn_len
    else if redis_argeval t
    then if ltb n 1 then refuse else enter key_len
    else refuse

-- SW_ARG3_LF
unfoldable pub after_arg3 : CmdType → ℕ → Choice
after_arg3 t n =
    if redis_arg3 t
    then only_if (n == 0) finish
    else if redis_argn t
    then done_or n argn_len
    else refuse

-- SW_ARGN_LF
unfoldable pub after_argn : CmdType → ℕ → Choice
after_argn t n = if redis_argn t || redis_argeval t then done_or n argn_len else refuse
