-- ===== src/Command/Run.antt =====
-- Runs of `redis_parse_cmd` as chains of rounds, and positions in the command.
use hiredis_vip.Base.{
  ℕ, zero, suc, ◌+◌, ◌-◌, ◌<◌, ◌++◌, [], ◌∷◌, Bytes, some, none, length, get_elem?, drop, take,
  slice, ◌≡◌, ◌≢◌, refl, sym, ap, subst, ◌∙◌, arith, Bool, take-append_length, drop-append_length,
}
use hiredis_vip.Command.Types.{Cmd}
use hiredis_vip.Command.Fsa.{Fsa, Next, go_on, goto_done, goto_enomem, goto_error}
use hiredis_vip.Command.Parse.{
  dispatch, Exit, exit_done, exit_enomem, exit_error, out_of_fuel, parse_loop,
}
use hiredis_vip.Command.Rounds.{after_round, parse_loop-suc}
pub mod Lengths
pub mod Skips
pub mod Keys
pub mod Starts
pub mod Kinds
pub mod Tails
pub mod Lists
pub mod Shapes

-- What stands at position p of a text.
pub drop-head :
    (text : Bytes) (p : ℕ) {x : ℕ} {rest : Bytes}
    → drop p text ≡ x ∷ rest
    → get_elem? text p ≡ some x
drop-head [] zero e = absurd (cc e)
drop-head [] (suc p) e = absurd (cc e)
drop-head (y ∷ text) zero e = ap (λ l. get_elem? l 0) e
drop-head (y ∷ text) (suc p) e = drop-head text p e

drop-nil : (n : ℕ) → drop {A = ℕ} n [] ≡ []
drop-nil zero = refl
drop-nil (suc n) = refl

drop-add : (text : Bytes) (n p : ℕ) → drop (n + p) text ≡ drop n (drop p text)
drop-add text n zero = ap (λ k. drop k text) (omega arith)
drop-add [] n (suc p) = drop-nil (n + suc p) ∙ sym (drop-nil n)
drop-add (x ∷ text) n (suc p) =
    let e : n + suc p ≡ suc (n + p) = omega arith in
    ap (λ k. drop k (x ∷ text)) e ∙ drop-add text n p

pub drop-after :
    (text a rest : Bytes) (p : ℕ) → drop p text ≡ a ++ rest → drop (p + length a) text ≡ rest
drop-after text a rest p e =
    let c : p + length a ≡ length a + p = omega arith in
    ap (λ k. drop k text) c
    ∙ drop-add text (length a) p
    ∙ ap (drop (length a)) e
    ∙ drop-append_length a rest

pub drop-next :
    (text a rest : Bytes) (p q : ℕ)
    → drop p text ≡ a ++ rest
    → q + 1 ≡ p + length a
    → drop (q + 1) text ≡ rest
drop-next text a rest p q e same = ap (λ k. drop k text) same ∙ drop-after text a rest p e

pub slice-at :
    (text a rest : Bytes) (p : ℕ) → drop p text ≡ a ++ rest → slice p (p + length a) text ≡ a
slice-at text a rest p e =
    let c : p + length a - p ≡ length a = omega arith in
    ap (λ k. take k (drop p text)) c ∙ ap (take (length a)) e ∙ take-append_length a rest

module _ (grant : ℕ → Bool) (text : Bytes) where
  -- With fuel enough, the loop from here is left in a way that satisfies e.
  abbrev pub Leads : Fsa → ℕ → (Exit → Type 0) → Type 0
  Leads f p e =
      (fuel : ℕ) → parse_loop fuel grant text f p ≢ out_of_fuel → e (parse_loop fuel grant text f p)

  abbrev pub After : Next → (Exit → Type 0) → Type 0
  After (go_on f p) e = Leads f (p + 1) e
  After (goto_done f) e = e (exit_done f.cmd)
  After (goto_enomem f) e = e (exit_enomem f.cmd)
  After (goto_error f p) e = e (exit_error f.cmd f.state p)

  pub round :
      (f : Fsa) (p ch : ℕ) (e : Exit → Type 0)
      → get_elem? text p ≡ some ch
      → After (dispatch grant text f.state f p ch) e
      → Leads f p e
  unfolding parse_loop
  round f p ch e found after zero h = absurd (h refl)
  round f p ch e found after (suc fuel) h =
      let same = parse_loop-suc fuel grant text f p ch found in
      subst e (sym same) (go (dispatch grant text f.state f p ch) after (λ o. h (same ∙ o)))
    where
      go :
          (n : Next)
          → After n e
          → after_round fuel grant text n ≢ out_of_fuel
          → e (after_round fuel grant text n)
      go (go_on f' p') a h = unfold after_round in a fuel h
      go (goto_done f') a h = unfold after_round in a
      go (goto_enomem f') a h = unfold after_round in a
      go (goto_error f' p') a h = unfold after_round in a
