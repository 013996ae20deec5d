-- ===== src/Command/Parse.antt =====
-- command.c: `redis_parse_cmd`, one step for each round of its loop, and `command_get`.
use hiredis_vip.Base.{
  ℕ, zero, suc, ◌+◌, ◌-◌, Bytes, Option, none, some, length, get_elem?, leb, ◌==◌, if◌then◌else◌,
  Bool, false, ◌||◌,
}
use hiredis_vip.Array.{create}
use hiredis_vip.Command.Types.{
  KeyPos, unknown, parse_ok, parse_enomem, parse_error, State, start, narg, narg_lf, req_type_len,
  req_type_len_lf, req_type, req_type_lf, key_len, key_len_lf, key, key_lf, arg1_len, arg1_len_lf,
  arg1, arg1_lf, arg2_len, arg2_len_lf, arg2, arg2_lf, arg3_len, arg3_len_lf, arg3, arg3_lf,
  argn_len, argn_len_lf, argn, argn_lf, state_sentinel, Cmd,
}
use hiredis_vip.Command.Fsa.{Fsa, Next, go_on, goto_done, goto_enomem, goto_error}
use hiredis_vip.Command.Fsa.{scan_narg, expect_lf, scan_len}
use hiredis_vip.Command.Items.{read_type, after_type, read_key, skip_arg, read_arg2}
use hiredis_vip.Command.Choices.{at_lf, after_key, after_arg1, after_arg2, after_arg3, after_argn}

-- The tests at the carriage return behind a length.
abbrev pub refuses_type_len : ℕ → Fsa → ℕ → Bool
refuses_type_len p f t = (f.rlen == 0) || (f.rnarg == 0)

abbrev pub refuses_key_len : ℕ → Fsa → ℕ → Bool
refuses_key_len p f t = f.rnarg == 0

-- `(p - token) <= 1 || rnarg == 0`
abbrev pub refuses_arg_len : ℕ → Fsa → ℕ → Bool
refuses_arg_len p f t = leb (p - t) 1 || (f.rnarg == 0)

-- The body of the loop: `switch (state)` at the byte `ch` at p.
unfoldable pub dispatch : (ℕ → Bool) → Bytes → State → Fsa → ℕ → ℕ → Next
dispatch grant text start f p ch = scan_narg f p ch
dispatch grant text narg f p ch = scan_narg f p ch
dispatch grant text narg_lf f p ch = expect_lf req_type_len f p ch
dispatch grant text req_type_len f p ch = scan_len (refuses_type_len p) req_type_len_lf f p ch
dispatch grant text req_type_len_lf f p ch = expect_lf req_type f p ch
dispatch grant text req_type f p ch = read_type text f p
dispatch grant text req_type_lf f p ch = after_type f p ch
dispatch grant text key_len f p ch = scan_len (refuses_key_len p) key_len_lf f p ch
dispatch grant text key_len_lf f p ch = expect_lf key f p ch
dispatch grant text key f p ch = read_key grant text f p
dispatch grant text key_lf f p ch = at_lf (after_key f.cmd.type f.rnarg f.cmd.narg_count) f p ch
dispatch grant text arg1_len f p ch = scan_len (refuses_arg_len p) arg1_len_lf f p ch
dispatch grant text arg1_len_lf f p ch = expect_lf arg1 f p ch
dispatch grant text arg1 f p ch = skip_arg arg1_lf text f p
dispatch grant text arg1_lf f p ch = at_lf (after_arg1 f.cmd.type f.rnarg) f p ch
dispatch grant text arg2_len f p ch = scan_len (refuses_arg_len p) arg2_len_lf f p ch
dispatch grant text arg2_len_lf f p ch = expect_lf arg2 f p ch
dispatch grant text arg2 f p ch = read_arg2 text f p
dispatch grant text arg2_lf f p ch = at_lf (after_arg2 f.cmd.type f.rnarg) f p ch
dispatch grant text arg3_len f p ch = scan_len (refuses_arg_len p) arg3_len_lf f p ch
dispatch grant text arg3_len_lf f p ch = expect_lf arg3 f p ch
dispatch grant text arg3 f p ch = skip_arg arg3_lf text f p
dispatch grant text arg3_lf f p ch = at_lf (after_arg3 f.cmd.type f.rnarg) f p ch
dispatch grant text argn_len f p ch = scan_len (refuses_arg_len p) argn_len_lf f p ch
dispatch grant text argn_len_lf f p ch = expect_lf argn f p ch
dispatch grant text argn f p ch = skip_arg argn_lf text f p
dispatch grant text argn_lf f p ch = at_lf (after_argn f.cmd.type f.rnarg) f p ch
dispatch grant text state_sentinel f p ch = go_on f p

-- How the loop is left; `at_end` is its test failing, and `out_of_fuel` is the model's alone.
pub data Exit : Type 0 where
  exit_done exit_enomem at_end : Cmd → Exit
  exit_error : Cmd → State → ℕ → Exit
  out_of_fuel : Exit

unfoldable pub parse_loop : ℕ → (ℕ → Bool) → Bytes → Fsa → ℕ → Exit
parse_loop zero grant text f p = out_of_fuel
parse_loop (suc fuel) grant text f p = elim (get_elem? text p) [
  | none ↦ at_end f.cmd
  | some ch ↦ elim (dispatch grant text f.state f p ch) [
    | go_on f' p' ↦ parse_loop fuel grant text f' (p' + 1)
    | goto_done f' ↦ exit_done f'.cmd
    | goto_enomem f' ↦ exit_enomem f'.cmd
    | goto_error f' p' ↦ exit_error f'.cmd f'.state p'
  ]
]

-- The labels `done`, `enomem` and `error`; where the loop ends by its test nothing is recorded.
unfoldable pub conclude : Exit → Option Cmd
conclude (exit_done r) = some (record r { result = parse_ok })
conclude (exit_enomem r) = some (record r { result = parse_enomem })
conclude (exit_error r s p) = some (record r {
  result = parse_error;
  errstr = some (record { fault_type = r.type; fault_state = s; position = p });
})
conclude (at_end r) = some r
conclude out_of_fuel = none

abbrev pub start_fsa : Cmd → Fsa
start_fsa r = record { state = start; token = none; rlen = 0; rnarg = 0; cmd = r }

-- Each round moves p forward, so one round for each byte, and one to leave, are enough.
unfoldable pub redis_parse_cmd : (ℕ → Bool) → Bytes → Cmd → Option Cmd
redis_parse_cmd grant text r = conclude (parse_loop (length text + 1) grant text (start_fsa r) 0)

-- `command_get`; `header` and `array_header` are the sizes of `struct cmd` and `struct hiarray`, and
-- `keypos_size` is that of `struct keypos`.
unfoldable pub command_get : (ℕ → Bool) → ℕ → ℕ → ℕ → Option Cmd
command_get grant header array_header keypos_size =
    if grant header
    then elim (create {A = KeyPos} grant array_header 1 keypos_size) [
      | none ↦ none
      | some ks ↦ some (record {
        result = parse_ok;
        errstr = none;
        type = unknown;
        keys = ks;
        narg_start = none;
        narg_end = none;
        narg_count = 0;
        quit = false;
        noforward = false;
      })
    ]
    else none
