-- ===== src/Command/Forward.antt =====
-- How far a round of `redis_parse_cmd` goes: the lengths and the line feeds.
use hiredis_vip.Base.{
  ℕ, zero, suc, ◌+◌, ◌-◌, ◌<◌, ◌≤◌, Bytes, Option, none, some, length, get_elem?, get_elem?-eq-none,
  slice, ◌≡◌, ◌≢◌, refl, sym, subst, [], ◌∷◌, arith, ◌⊎◌, inl, inr, Option-cases, Bool, true, false,
  if◌then◌else◌, ◌==◌, ltb, ◌%◌, ◌||◌,
}
use hiredis_vip.Array.{HiArray, push_value}
use native.Mathlib.Nat.{le_refl}
use hiredis_vip.Command.Kinds.{
  redis_argz, redis_arg0, redis_arg1, redis_arg2, redis_arg3, redis_argn, redis_argx, redis_argkvx,
  redis_argeval,
}
use hiredis_vip.Command.Types.{
  CmdType, State, start, narg, narg_lf, req_type_len, req_type_len_lf, req_type, req_type_lf,
  key_len, key_len_lf, key, key_lf, arg1_len, arg1_len_lf, arg1, arg1_lf, arg2_len, arg2_len_lf,
  arg2, arg2_lf, arg3_len, arg3_len_lf, arg3, arg3_lf, argn_len, argn_len_lf, argn, argn_lf,
  state_sentinel, Cmd, KeyPos,
}
use hiredis_vip.Command.Fsa.{
  cr, lf, is_digit, Fsa, Next, go_on, goto_done, goto_enomem, goto_error, not_cr, token_or,
  scan_narg, expect_lf, scan_len,
}
use hiredis_vip.Command.Items.{
  is_unknown, set_type, bad_nkey, read_type, after_type, read_key, skip_arg, read_arg2,
}
use hiredis_vip.Command.Choices.{
  Choice, finish, refuse, enter, at_lf, choose, after_key, after_arg1, after_arg2, after_arg3,
  after_argn,
}
use hiredis_vip.Command.Parse.{
  dispatch, Exit, exit_done, exit_enomem, exit_error, at_end, out_of_fuel, parse_loop, start_fsa,
  redis_parse_cmd, conclude,
}
pub mod Dispatch

-- Where a state reads an item, and where it is about to, no token is open.
abbrev pub Idle : State → Option ℕ → Type 0
Idle req_type_len_lf t = t ≡ none
Idle req_type t = t ≡ none
Idle key_len_lf t = t ≡ none
Idle key t = t ≡ none
Idle arg2_len_lf t = t ≡ none
Idle arg2 t = t ≡ none
Idle _ t = Unit

-- Where a round goes on, it does so from p or behind, with no token open where none may be.
abbrev pub Forward : ℕ → Next → Type 0
Forward p (go_on f p') = (p ≤ p') × Idle f.state f.token
Forward p _ = Unit

pub if-Forward :
    (p : ℕ) (b : Bool) (x y : Next) → Forward p x → Forward p y → Forward p (if b then x else y)
if-Forward p true x y hx hy = hx
if-Forward p false x y hx hy = hy

-- A state in which any token may be open.
abbrev Open : State → Type 0
Open s = (t : Option ℕ) → Idle s t

pub scan_narg-Forward : (f : Fsa) (p ch : ℕ) → Open f.state → Forward p (scan_narg f p ch)
unfolding scan_narg
scan_narg-Forward f p ch o = go f.token
  where
    go : (t : Option ℕ) → Forward p (scan_narg (record f { token = t }) p ch)
    go none = if-Forward p (ch == b'*') _ _ (le_refl p, tt) tt
    go (some t) =
        if-Forward p (is_digit ch) _ _ (le_refl p, o (some t))
          (if-Forward p (ch == cr) _ _ (if-Forward p (f.rnarg == 0) _ _ tt (le_refl p, tt)) tt)

pub scan_len-Forward :
    (refused : Fsa → ℕ → Bool) (next : State) (f : Fsa) (p ch : ℕ)
    → Open f.state
    → Idle next none
    → Forward p (scan_len refused next f p ch)
unfolding scan_len
scan_len-Forward refused next f p ch o n = go f.token
  where
    go : (t : Option ℕ) → Forward p (scan_len refused next (record f { token = t }) p ch)
    go none = if-Forward p (ch == b'$') _ _ (le_refl p, o (some p)) tt
    go (some t) =
        if-Forward p (is_digit ch) _ _ (le_refl p, o (some t))
          (if-Forward p (ch == cr) _ _
            (if-Forward p (refused (record f { token = some t }) t) _ _ tt (le_refl p, n)) tt)

pub expect_lf-Forward :
    (next : State) (f : Fsa) (p ch : ℕ) → Idle next f.token → Forward p (expect_lf next f p ch)
unfolding expect_lf
expect_lf-Forward next f p ch i = if-Forward p (ch == lf) _ _ (le_refl p, i) tt

-- The choices at a line feed enter states in which any token may be open.
abbrev Enters : Choice → Type 0
Enters (enter s) = Open s
Enters _ = Unit

if-Enters : (b : Bool) (x y : Choice) → Enters x → Enters y → Enters (if b then x else y)
if-Enters true x y hx hy = hx
if-Enters false x y hx hy = hy

pub at_lf-Forward : (c : Choice) (f : Fsa) (p ch : ℕ) → Enters c → Forward p (at_lf c f p ch)
unfolding at_lf
at_lf-Forward c f p ch e = if-Forward p (ch == lf) _ _ (go c e) tt
  where
    go : (c : Choice) → Enters c → Forward p (choose c f p)
    go finish e = tt
    go refuse e = tt
    go (enter s) e = (le_refl p, e f.token)

to_any : (s : State) → Open s → (b : Bool) → Enters (if b then enter s else refuse)
to_any s o true = o
to_any s o false = tt

ends : (b : Bool) → Enters (if b then finish else refuse)
ends true = tt
ends false = tt

ends_or : (s : State) → Open s → (b : Bool) → Enters (if b then finish else enter s)
ends_or s o true = tt
ends_or s o false = o

module _ (t : CmdType) (n : ℕ) where
  pub after_key-Enters : (count : ℕ) → Enters (after_key t n count)
  unfolding after_key
  after_key-Enters count = if-Enters (redis_arg0 t) _ _ (ends (n == 0)) (
      if-Enters (redis_arg1 t) _ _ (to_any arg1_len (λ _. tt) (n == 1)) (
        if-Enters (redis_arg2 t) _ _ (to_any arg1_len (λ _. tt) (n == 2)) (
          if-Enters (redis_arg3 t) _ _ (to_any arg1_len (λ _. tt) (n == 3)) (
            if-Enters (redis_argn t) _ _ (ends_or arg1_len (λ _. tt) (n == 0)) (
              if-Enters (redis_argx t) _ _ (ends_or key_len (λ _. tt) (n == 0)) (
                if-Enters (redis_argkvx t) _ _
                  (if-Enters (n == 0) _ _ tt (if-Enters (count % 2 == 0) _ _ tt (λ _. tt)))
                  (if-Enters (redis_argeval t) _ _ (ends_or argn_len (λ _. tt) (n == 0)) tt)))))))

  pub after_arg1-Enters : Enters (after_arg1 t n)
  unfolding after_arg1
  after_arg1-Enters = if-Enters (redis_arg1 t) _ _ (ends (n == 0)) (
      if-Enters (redis_arg2 t) _ _ (to_any arg2_len (λ _. tt) (n == 1)) (
        if-Enters (redis_arg3 t) _ _ (to_any arg2_len (λ _. tt) (n == 2)) (
          if-Enters (redis_argn t) _ _ (ends_or argn_len (λ _. tt) (n == 0)) (
            if-Enters (redis_argeval t) _ _ (if-Enters (ltb n 2) _ _ tt (λ _. tt))
              (if-Enters (redis_argkvx t) _ _ (ends_or key_len (λ _. tt) (n == 0)) tt)))))

  pub after_arg2-Enters : Enters (after_arg2 t n)
  unfolding after_arg2
  after_arg2-Enters = if-Enters (redis_arg2 t) _ _ (ends (n == 0)) (
      if-Enters (redis_arg3 t) _ _ (to_any arg3_len (λ _. tt) (n == 1)) (
        if-Enters (redis_argn t) _ _ (ends_or argn_len (λ _. tt) (n == 0))
          (if-Enters (redis_argeval t) _ _ (if-Enters (ltb n 1) _ _ tt (λ _. tt)) tt)))

  pub after_arg3-Enters : Enters (after_arg3 t n)
  unfolding after_arg3
  after_arg3-Enters =
      if-Enters (redis_arg3 t) _ _ (ends (n == 0))
        (if-Enters (redis_argn t) _ _ (ends_or argn_len (λ _. tt) (n == 0)) tt)

  pub after_argn-Enters : Enters (after_argn t n)
  unfolding after_argn
  after_argn-Enters =
      if-Enters (redis_argn t || redis_argeval t) _ _ (ends_or argn_len (λ _. tt) (n == 0)) tt
