-- ===== src/Command/Forward/Dispatch.antt =====
-- How far a round of `redis_parse_cmd` goes: the items, and all the states.
use hiredis_vip.Base.{
  ℕ, ◌+◌, Bytes, Option, none, some, get_elem?, slice, ◌≡◌, refl, sym, subst, arith, Bool, ◌==◌,
}
use hiredis_vip.Array.{HiArray, push_value}
use native.Mathlib.Nat.{le_refl}
use hiredis_vip.Command.Kinds.{redis_argz, redis_argeval}
use hiredis_vip.Command.Types.{
  State, start, narg, narg_lf, req_type_len, req_type_len_lf, req_type, req_type_lf, key_len,
  key_len_lf, key, key_lf, arg1_len, arg1_len_lf, arg1, arg1_lf, arg2_len, arg2_len_lf, arg2,
  arg2_lf, arg3_len, arg3_len_lf, arg3, arg3_lf, argn_len, argn_len_lf, argn, argn_lf,
  state_sentinel, Cmd, KeyPos,
}
use hiredis_vip.Command.Fsa.{lf, Fsa, go_on, goto_enomem, not_cr, token_or}
use hiredis_vip.Command.Items.{
  is_unknown, set_type, bad_nkey, read_type, after_type, read_key, skip_arg, read_arg2,
}
use hiredis_vip.Command.Parse.{dispatch}
use hiredis_vip.Command.Forward.{
  Idle, Forward, if-Forward, scan_narg-Forward, scan_len-Forward, expect_lf-Forward, at_lf-Forward,
  after_key-Enters, after_arg1-Enters, after_arg2-Enters, after_arg3-Enters, after_argn-Enters,
}

read_type-Forward :
    (text : Bytes) (f : Fsa) (p : ℕ) → f.token ≡ none → Forward p (read_type text f p)
unfolding read_type
read_type-Forward text f p e = rw e (
    if-Forward p (not_cr (get_elem? text (p + f.rlen))) _ _ tt (
      if-Forward p (is_unknown (set_type (slice p (p + f.rlen) text) f.cmd).type) _ _ tt
        (omega arith, tt)))

after_type-Forward : (f : Fsa) (p ch : ℕ) → Forward p (after_type f p ch)
unfolding after_type
after_type-Forward f p ch =
    if-Forward p (ch == lf) _ _
      (if-Forward p (redis_argz f.cmd.type) _ _ tt
        (if-Forward p (redis_argeval f.cmd.type) _ _ (le_refl p, tt) (le_refl p, tt)))
      tt

read_key-Forward :
    (grant : ℕ → Bool) (text : Bytes) (f : Fsa) (p : ℕ)
    → Forward p (read_key grant text (record f { token = none }) p)
unfolding read_key
read_key-Forward grant text f p =
    if-Forward p (not_cr (get_elem? text (p + f.rlen))) _ _ tt
      (go (push_value grant f.cmd.keys (record { key_start = p; key_end = p + f.rlen })))
  where
    go :
        (o : Option (HiArray KeyPos))
        → Forward p (elim o [
          | none ↦ goto_enomem (record f { rlen = 0; token = none })
          | some ks ↦
              go_on
                (record f {
                  rlen = 0;
                  token = none;
                  state = key_lf;
                  cmd = record (f.cmd) { keys = ks };
                })
                (p + f.rlen)
        ])
    go none = tt
    go (some ks) = (omega arith, tt)

skip_arg-Forward :
    (next : State) (text : Bytes) (f : Fsa) (p : ℕ)
    → Idle next f.token
    → Forward p (skip_arg next text f p)
unfolding skip_arg
skip_arg-Forward next text f p i =
    if-Forward p (not_cr (get_elem? text (p + f.rlen))) _ _ tt (omega arith, i)

read_arg2-Forward : (text : Bytes) (f : Fsa) (p : ℕ) → Forward p (read_arg2 text f p)
unfolding read_arg2
read_arg2-Forward text f p = if-Forward p (not_cr (get_elem? text (p + f.rlen))) _ _ tt (
    if-Forward p (redis_argeval f.cmd.type) _ _
      (if-Forward p (bad_nkey (slice (token_or f.token p) (p + f.rlen) text)) _ _ tt
        (omega arith, tt))
      (omega arith, tt))

pub dispatch-Forward :
    (grant : ℕ → Bool) (text : Bytes) (s : State) (t : Option ℕ) (rlen rnarg : ℕ) (r : Cmd)
    (p ch : ℕ)
    → Idle s t
    → let f : Fsa = record { state = s; token = t; rlen = rlen; rnarg = rnarg; cmd = r } in
      Forward p (dispatch grant text s f p ch)
unfolding dispatch
dispatch-Forward grant text start t rlen rnarg r p ch i = scan_narg-Forward _ p ch (λ _. tt)
dispatch-Forward grant text narg t rlen rnarg r p ch i = scan_narg-Forward _ p ch (λ _. tt)
dispatch-Forward grant text narg_lf t rlen rnarg r p ch i = expect_lf-Forward req_type_len _ p ch tt
dispatch-Forward grant text req_type_len t rlen rnarg r p ch i =
    scan_len-Forward _ req_type_len_lf _ p ch (λ _. tt) refl
dispatch-Forward grant text req_type_len_lf t rlen rnarg r p ch i =
    expect_lf-Forward req_type _ p ch i
dispatch-Forward grant text req_type t rlen rnarg r p ch i = read_type-Forward text _ p i
dispatch-Forward grant text req_type_lf t rlen rnarg r p ch i = after_type-Forward _ p ch
dispatch-Forward grant text key_len t rlen rnarg r p ch i =
    scan_len-Forward _ key_len_lf _ p ch (λ _. tt) refl
dispatch-Forward grant text key_len_lf t rlen rnarg r p ch i = expect_lf-Forward key _ p ch i
dispatch-Forward grant text key t rlen rnarg r p ch i =
    subst
      (λ u. Forward p (
        read_key grant text (record { state = key; token = u; rlen = rlen; rnarg = rnarg; cmd = r })
          p))
      (sym i)
      (read_key-Forward grant text
        (record { state = key; token = none; rlen = rlen; rnarg = rnarg; cmd = r }) p)
dispatch-Forward grant text key_lf t rlen rnarg r p ch i =
    at_lf-Forward _ _ p ch (after_key-Enters r.type rnarg r.narg_count)
dispatch-Forward grant text arg1_len t rlen rnarg r p ch i =
    scan_len-Forward _ arg1_len_lf _ p ch (λ _. tt) tt
dispatch-Forward grant text arg1_len_lf t rlen rnarg r p ch i = expect_lf-Forward arg1 _ p ch tt
dispatch-Forward grant text arg1 t rlen rnarg r p ch i = skip_arg-Forward arg1_lf text _ p tt
dispatch-Forward grant text arg1_lf t rlen rnarg r p ch i =
    at_lf-Forward _ _ p ch (after_arg1-Enters r.type rnarg)
dispatch-Forward grant text arg2_len t rlen rnarg r p ch i =
    scan_len-Forward _ arg2_len_lf _ p ch (λ _. tt) refl
dispatch-Forward grant text arg2_len_lf t rlen rnarg r p ch i = expect_lf-Forward arg2 _ p ch i
dispatch-Forward grant text arg2 t rlen rnarg r p ch i = read_arg2-Forward text _ p
dispatch-Forward grant text arg2_lf t rlen rnarg r p ch i =
    at_lf-Forward _ _ p ch (after_arg2-Enters r.type rnarg)
dispatch-Forward grant text arg3_len t rlen rnarg r p ch i =
    scan_len-Forward _ arg3_len_lf _ p ch (λ _. tt) tt
dispatch-Forward grant text arg3_len_lf t rlen rnarg r p ch i = expect_lf-Forward arg3 _ p ch tt
dispatch-Forward grant text arg3 t rlen rnarg r p ch i = skip_arg-Forward arg3_lf text _ p tt
dispatch-Forward grant text arg3_lf t rlen rnarg r p ch i =
    at_lf-Forward _ _ p ch (after_arg3-Enters r.type rnarg)
dispatch-Forward grant text argn_len t rlen rnarg r p ch i =
    scan_len-Forward _ argn_len_lf _ p ch (λ _. tt) tt
dispatch-Forward grant text argn_len_lf t rlen rnarg r p ch i = expect_lf-Forward argn _ p ch tt
dispatch-Forward grant text argn t rlen rnarg r p ch i = skip_arg-Forward argn_lf text _ p tt
dispatch-Forward grant text argn_lf t rlen rnarg r p ch i =
    at_lf-Forward _ _ p ch (after_argn-Enters r.type rnarg)
dispatch-Forward grant text state_sentinel t rlen rnarg r p ch i = (le_refl p, i)
