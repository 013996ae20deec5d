-- ===== src/Command/Run/Skips.antt =====
-- Runs of `redis_parse_cmd` over an argument.
use hiredis_vip.Base.{
  ℕ, suc, ◌+◌, ◌-◌, ◌^◌, ◌<◌, ◌++◌, [], ◌∷◌, Bytes, none, length, get_elem?, drop, slice, ◌≡◌, refl,
  sym, ap, ◌∙◌, arith, Bool, false, append_assoc, length-append, subst, ◌==◌, leb, ◌||◌,
}
use hiredis_vip.Decimal.Count.{length-decimal}
use hiredis_vip.Format.Encode.{digits_of, digits_of-IsDecimal, encode_item, item_size}
use hiredis_vip.Command.Types.{Cmd, State, CmdType}
use hiredis_vip.Command.Fsa.{go_on, not_cr}
use hiredis_vip.Command.Choices.{Choice, choose, at_lf}
use hiredis_vip.Command.Parse.{dispatch, Exit, refuses_arg_len}
use hiredis_vip.Command.Run.{drop-head, drop-after, slice-at, Leads, After, round}
use hiredis_vip.Command.Run.Lengths.{at_state, ReadsLength, length_run}

pub length-digits_of : (v : ℕ) → v < 2 ^ 32 → 0 < length (digits_of v)
length-digits_of v h =
    let d = (digits_of-IsDecimal v (omega arith)).1 in
    omega (arith, ap length d.text, length-decimal (suc d.rest) v)

-- An item of a command, from its length on.
pub item_line :
    (text a rest : Bytes) (p : ℕ)
    → drop p text ≡ encode_item a ++ rest
    → drop p text ≡ b'$' ∷ (digits_of (length a) ++ (13 ∷ 10 ∷ (a ++ (13 ∷ 10 ∷ rest))))
unfolding encode_item
item_line text a rest p e = e ∙ simp append_assoc

-- What stands behind the line of a length.
pub drop-line :
    (text digits rest : Bytes) (p : ℕ)
    → drop p text ≡ b'$' ∷ (digits ++ (13 ∷ 10 ∷ rest))
    → drop (p + (3 + length digits)) text ≡ rest
drop-line text digits rest p e =
    let q : p + length (b'$' ∷ (digits ++ (13 ∷ 10 ∷ []))) ≡ p + (3 + length digits) =
      omega (arith, length-append digits (13 ∷ 10 ∷ [])) in
    ap (λ k. drop k text) (sym q)
    ∙ drop-after text (b'$' ∷ (digits ++ (13 ∷ 10 ∷ []))) rest p (e ∙ simp append_assoc)

-- The test on the length of an argument, at digits.
pub accepts_digits : (p k n : ℕ) → 0 < k → 0 < n → leb (p + 1 + k - p) 1 || (n == 0) ≡ false
accepts_digits p k n hk hn = ground arith

-- Some byte stands at its start, and a carriage return at its end.
pub first_byte :
    (a : Bytes) (x : ℕ) (rest : Bytes) → (y : ℕ) × (more : Bytes) × (a ++ (x ∷ rest) ≡ y ∷ more)
first_byte [] x rest = (x, rest, refl)
first_byte (y ∷ a) x rest = (y, a ++ (x ∷ rest), refl)

-- The states of an argument, with what is chosen behind it.
pub record SkipsItem (grant : ℕ → Bool) (text : Bytes) (Fits : CmdType → Bytes → Type 0)
    (choice : CmdType → ℕ → Choice) (s s' item item' : State) : Type 0 where
  pub lengths : ReadsLength grant text refuses_arg_len s s' item
  pub skips :
      (l n : ℕ) (r : Cmd) (p ch : ℕ)
      → Fits r.type (slice p (p + l) text)
      → not_cr (get_elem? text (p + l)) ≡ false
      → dispatch grant text item (at_state item none l n r) p ch
        ≡ go_on (at_state item' none 0 n r) (p + l)
  pub chooses :
      (l n : ℕ) (r : Cmd) (p ch : ℕ)
      → dispatch grant text item' (at_state item' none l n r) p ch
        ≡ at_lf (choice r.type n) (at_state item' none l n r) p ch

module _ {grant : ℕ → Bool} {text : Bytes} {Fits : CmdType → Bytes → Type 0}
    {choice : CmdType → ℕ → Choice} {s s' item item' : State}
    (skips : SkipsItem grant text Fits choice s s' item item') where
  body_run :
      (a rest : Bytes) (n q : ℕ) (r : Cmd) (e : Exit → Type 0)
      → Fits r.type a
      → drop q text ≡ a ++ (13 ∷ 10 ∷ rest)
      → After grant text (choose (choice r.type n) (at_state item' none 0 n r) (q + length a + 1)) e
      → Leads grant text (at_state item none (length a) n r) q e
  unfolding at_lf
  body_run a rest n q r e fits here next =
      let (y, more, start) = first_byte a 13 (10 ∷ rest) in
      let end : drop (q + length a) text ≡ 13 ∷ 10 ∷ rest =
        drop-after text a (13 ∷ 10 ∷ rest) q here in
      let last : drop (q + length a + 1) text ≡ 10 ∷ rest =
        drop-after text (13 ∷ []) (10 ∷ rest) (q + length a) end in
      round grant text (at_state item none (length a) n r) q y e (drop-head text q (here ∙ start)) (
        rw
          (skips.skips (length a) n r q y
            (subst (Fits r.type) (sym (slice-at text a (13 ∷ 10 ∷ rest) q here)) fits)
            (rw (drop-head text (q + length a) end)))
          (round grant text (at_state item' none 0 n r) (q + length a + 1) 10 e
            (drop-head text (q + length a + 1) last) (rw (skips.chooses, at_lf) next)))

  -- An argument leads to what is chosen behind it.
  pub argument_run :
      (a rest : Bytes) (l n p : ℕ) (r : Cmd) (e : Exit → Type 0)
      → length a < 2 ^ 32
      → 0 < n
      → Fits r.type a
      → drop p text ≡ encode_item a ++ rest
      → ((q : ℕ)
          → q + 1 ≡ p + length (encode_item a)
          → After grant text (choose (choice r.type (n - 1)) (at_state item' none 0 (n - 1) r) q) e)
      → Leads grant text (at_state s none l n r) p e
  argument_run a rest l n p r e small more fits here next =
      let digits = digits_of (length a) in
      let line = item_line text a rest p here in
      length_run skips.lengths (length a) l n p digits (a ++ (13 ∷ 10 ∷ rest)) r e
        (digits_of-IsDecimal (length a) (omega arith)).1 small line
        (accepts_digits p (length digits) n (length-digits_of (length a) small) more)
        (body_run a rest (n - 1) (p + (3 + length digits)) r e fits
          (drop-line text digits (a ++ (13 ∷ 10 ∷ rest)) p line)
          (next (p + (3 + length digits) + length a + 1) (omega (arith, item_size a))))
