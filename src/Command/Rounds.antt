-- ===== src/Command/Rounds.antt =====
-- One round of the loop of `redis_parse_cmd`.
use hiredis_vip.Base.{
  ℕ, zero, suc, ◌+◌, ◌<◌, Bytes, none, some, length, get_elem?, ◌≡◌, refl, [], ◌∷◌, arith, Bool,
}
use hiredis_vip.Command.Fsa.{Fsa, Next, go_on, goto_done, goto_enomem, goto_error}
use hiredis_vip.Command.Parse.{
  dispatch, Exit, exit_done, exit_enomem, exit_error, at_end, parse_loop,
}

unfoldable pub after_round : (fuel : ℕ) (grant : ℕ → Bool) (text : Bytes) → Next → Exit
after_round fuel grant text (go_on f p) = parse_loop fuel grant text f (p + 1)
after_round fuel grant text (goto_done f) = exit_done f.cmd
after_round fuel grant text (goto_enomem f) = exit_enomem f.cmd
after_round fuel grant text (goto_error f p) = exit_error f.cmd f.state p

-- One round of the loop.
pub parse_loop-suc :
    (fuel : ℕ) (grant : ℕ → Bool) (text : Bytes) (f : Fsa) (p ch : ℕ)
    → get_elem? text p ≡ some ch
    → parse_loop (suc fuel) grant text f p
      ≡ after_round fuel grant text (dispatch grant text f.state f p ch)
unfolding parse_loop after_round
parse_loop-suc fuel grant text f p ch e =
    rw (e, parse_loop) (go (dispatch grant text f.state f p ch))
  where
    go :
        (n : Next)
        → elim n [
          | go_on f' p' ↦ parse_loop fuel grant text f' (p' + 1)
          | goto_done f' ↦ exit_done f'.cmd
          | goto_enomem f' ↦ exit_enomem f'.cmd
          | goto_error f' p' ↦ exit_error f'.cmd f'.state p'
        ]
          ≡ after_round fuel grant text n
    go (go_on f' p') = refl
    go (goto_done f') = refl
    go (goto_enomem f') = refl
    go (goto_error f' p') = refl

pub parse_loop-end :
    (fuel : ℕ) (grant : ℕ → Bool) (text : Bytes) (f : Fsa) (p : ℕ)
    → get_elem? text p ≡ none
    → parse_loop (suc fuel) grant text f p ≡ at_end f.cmd
unfolding parse_loop
parse_loop-end fuel grant text f p e = rw (e, parse_loop)

pub get_elem?-lt : (xs : Bytes) (i : ℕ) {x : ℕ} → get_elem? xs i ≡ some x → i < length xs
get_elem?-lt [] i e = absurd (cc e)
get_elem?-lt (y ∷ xs) zero e = omega arith
get_elem?-lt (y ∷ xs) (suc i) e = omega (arith, get_elem?-lt xs i e)
