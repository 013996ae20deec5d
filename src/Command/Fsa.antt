-- ===== src/Command/Fsa.antt =====
-- command.c: the state of `redis_parse_cmd`, the jumps of a round, and the states that read the
-- lengths. Pointers into the command are positions in it.
use hiredis_vip.Base.{
  ℕ, ◌+◌, ◌-◌, ◌*◌, Option, none, some, leb, ◌==◌, if◌then◌else◌, Bool, true, false, ◌&&◌,
}
use hiredis_vip.Array.{u32}
use hiredis_vip.Command.Types.{State, narg, narg_lf, Cmd}

abbrev pub cr : ℕ
cr = 13

abbrev pub lf : ℕ
lf = 10

-- `isdigit` in the C locale
abbrev pub is_digit : ℕ → Bool
is_digit ch = leb b'0' ch && leb ch b'9'

-- The local variables of the parser, and `*r`.
pub record Fsa : Type 0 where
  pub state : State
  pub token : Option ℕ
  pub rlen : ℕ
  pub rnarg : ℕ
  pub cmd : Cmd

-- What a round does: it goes on, with p where the round has left it; or it jumps to a label.
pub data Next : Type 0 where
  go_on : Fsa → ℕ → Next
  goto_done : Fsa → Next
  goto_enomem : Fsa → Next
  goto_error : Fsa → ℕ → Next

-- `x = x * 10 + (uint32_t)(ch - '0')`
abbrev pub add_digit : ℕ → ℕ → ℕ
add_digit x ch = u32 (x * 10 + (ch - b'0'))

-- SW_START and SW_NARG
unfoldable pub scan_narg : Fsa → ℕ → ℕ → Next
scan_narg f p ch = elim f.token [
  | none ↦
      if ch == b'*'
      then go_on
          (record f {
            token = some p;
            rnarg = 0;
            state = narg;
            cmd = record (f.cmd) { narg_start = some p };
          })
          p
      else goto_error f p
  | some t ↦
      if is_digit ch
      then go_on (record f { rnarg = add_digit f.rnarg ch }) p
      else if ch == cr
      then if f.rnarg == 0
        then goto_error f p
        else go_on
            (record f {
              token = none;
              state = narg_lf;
              cmd = record (f.cmd) { narg_count = f.rnarg; narg_end = some p };
            })
            p
      else goto_error f p
]

-- The states that only accept a line feed.
unfoldable pub expect_lf : State → Fsa → ℕ → ℕ → Next
expect_lf next f p ch = if ch == lf then go_on (record f { state = next }) p else goto_error f p

-- The states that read `$<length> CR`; `refused`, from the start of the token, is the test at CR.
unfoldable pub scan_len : (Fsa → ℕ → Bool) → State → Fsa → ℕ → ℕ → Next
scan_len refused next f p ch = elim f.token [
  | none ↦ if ch == b'$' then go_on (record f { token = some p; rlen = 0 }) p else goto_error f p
  | some t ↦
      if is_digit ch
      then go_on (record f { rlen = add_digit f.rlen ch }) p
      else if ch == cr
      then if refused f t
        then goto_error f p
        else go_on (record f { rnarg = f.rnarg - 1; token = none; state = next }) p
      else goto_error f p
]

-- `m >= cmd_end || *m != CR`
abbrev pub not_cr : Option ℕ → Bool
not_cr none = true
not_cr (some b) = if b == cr then false else true

-- `token`, set to p where it is NULL.
abbrev pub token_or : Option ℕ → ℕ → ℕ
token_or none p = p
token_or (some t) p = t
