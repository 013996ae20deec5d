-- ===== src/Command/Halts.antt =====
-- `redis_parse_cmd` ends: each round moves the position forward, or leaves the loop.
use hiredis_vip.Base.{
  ℕ, zero, suc, ◌+◌, ◌<◌, Bytes, some, length, get_elem?, ◌≡◌, ◌≢◌, refl, arith, inl, inr,
  Option-cases, Bool,
}
use hiredis_vip.Command.Types.{Cmd}
use hiredis_vip.Command.Fsa.{Fsa, Next, go_on, goto_done, goto_enomem, goto_error}
use hiredis_vip.Command.Parse.{
  dispatch, Exit, exit_done, exit_enomem, exit_error, at_end, out_of_fuel, parse_loop, start_fsa,
  redis_parse_cmd, conclude,
}
use hiredis_vip.Command.Forward.{Idle, Forward}
use hiredis_vip.Command.Forward.Dispatch.{dispatch-Forward}
use hiredis_vip.Command.Rounds.{after_round, parse_loop-suc, parse_loop-end, get_elem?-lt}

-- With a round for each byte that is left, and one more, the loop is left.
pub parse_loop-halts :
    (fuel : ℕ) (grant : ℕ → Bool) (text : Bytes) (f : Fsa) (p : ℕ)
    → Idle f.state f.token
    → length text < fuel + p
    → 0 < fuel
    → parse_loop fuel grant text f p ≢ out_of_fuel
parse_loop-halts zero grant text f p i h nz = absurd (omega arith)
parse_loop-halts (suc fuel) grant text f p i h nz = elim (Option-cases (get_elem? text p)) [
  | inl e ↦ rw (parse_loop-end fuel grant text f p e) (λ h. cc)
  | inr (ch, e) ↦ rw (parse_loop-suc fuel grant text f p ch e) (
      go (parse_loop-halts fuel grant text) (dispatch grant text f.state f p ch)
        (dispatch-Forward grant text f.state f.token f.rlen f.rnarg f.cmd p ch i)
        (get_elem?-lt text p e))
]
  where
    go :
        ((f : Fsa) (p : ℕ)
          → Idle f.state f.token
          → length text < fuel + p
          → 0 < fuel
          → parse_loop fuel grant text f p ≢ out_of_fuel)
        → (n : Next) → Forward p n
        → p < length text
        → after_round fuel grant text n ≢ out_of_fuel
    go ih (go_on f' p') (le, i') lt =
        unfold after_round in ih f' (p' + 1) i' (omega arith) (omega arith)
    go ih (goto_done f') h lt = unfold after_round in λ e. cc
    go ih (goto_enomem f') h lt = unfold after_round in λ e. cc
    go ih (goto_error f' p') h lt = unfold after_round in λ e. cc

conclude-some : (e : Exit) → e ≢ out_of_fuel → (r : Cmd) × (conclude e ≡ some r)
unfolding conclude
conclude-some (exit_done r) h = (_, refl)
conclude-some (exit_enomem r) h = (_, refl)
conclude-some (at_end r) h = (_, refl)
conclude-some (exit_error r s p) h = (_, refl)
conclude-some out_of_fuel h = absurd (h refl)

-- `redis_parse_cmd` ends on every text: the rounds that the model allows are enough.
pub redis_parse_cmd-halts :
    (grant : ℕ → Bool) (text : Bytes) (r : Cmd)
    → (r' : Cmd) × (redis_parse_cmd grant text r ≡ some r')
unfolding redis_parse_cmd
redis_parse_cmd-halts grant text r =
    conclude-some (parse_loop (length text + 1) grant text (start_fsa r) 0)
      (parse_loop-halts (length text + 1) grant text (start_fsa r) 0 tt (omega arith) (omega arith))
