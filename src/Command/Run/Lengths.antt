-- ===== src/Command/Run/Lengths.antt =====
-- Runs of `redis_parse_cmd` over the length of an item.
use hiredis_vip.Base.{
  ℕ, zero, suc, ◌+◌, ◌-◌, ◌/◌, ◌%◌, ◌^◌, ◌<◌, ◌++◌, [], ◌∷◌, Bytes, Option, some, none, length,
  drop, ◌≡◌, sym, ap, ◌∙◌, arith, Bool, true, false, append_assoc, subst,
}
use hiredis_vip.Decimal.Text.{decimal, ten_to, IsDecimal}
use hiredis_vip.Decimal.Count.{length-decimal}
use hiredis_vip.Command.Types.{Cmd, State}
use hiredis_vip.Command.Fsa.{Fsa, add_digit, is_digit, scan_len, expect_lf}
use hiredis_vip.Command.Parse.{dispatch, Exit}
use hiredis_vip.Command.Run.{drop-head, drop-after, Leads, round}

-- The parser in a state.
abbrev pub at_state : State → Option ℕ → ℕ → ℕ → Cmd → Fsa
at_state s t l n r = record { state = s; token = t; rlen = l; rnarg = n; cmd = r }

-- A state that reads a length, the one that expects the line feed behind it, and the one behind that.
pub record ReadsLength (grant : ℕ → Bool) (text : Bytes) (refused : ℕ → Fsa → ℕ → Bool)
    (s s' item : State) : Type 0 where
  pub scans :
      (t : Option ℕ) (l n : ℕ) (r : Cmd) (p ch : ℕ)
      → dispatch grant text s (at_state s t l n r) p ch
        ≡ scan_len (refused p) s' (at_state s t l n r) p ch
  pub ends :
      (t : Option ℕ) (l n : ℕ) (r : Cmd) (p ch : ℕ)
      → dispatch grant text s' (at_state s' t l n r) p ch
        ≡ expect_lf item (at_state s' t l n r) p ch

pub is_digit-digit : (d : ℕ) → d < 10 → is_digit (b'0' + d) ≡ true
is_digit-digit d h = ground arith

pub add_digit-digit : (v : ℕ) → v < 2 ^ 32 → add_digit (v / 10) (b'0' + v % 10) ≡ v
add_digit-digit v h = omega arith

module _ {grant : ℕ → Bool} {text : Bytes} {refused : ℕ → Fsa → ℕ → Bool} {s s' item : State}
    (reads : ReadsLength grant text refused s s' item) where
  digit_round :
      (t v n p : ℕ) (rest : Bytes) (r : Cmd) (e : Exit → Type 0)
      → drop p text ≡ (b'0' + v % 10) ∷ rest
      → v < 2 ^ 32
      → Leads grant text (at_state s (some t) v n r) (p + 1) e
      → Leads grant text (at_state s (some t) (v / 10) n r) p e
  unfolding scan_len
  digit_round t v n p rest r e here small next =
      round grant text (at_state s (some t) (v / 10) n r) p (b'0' + v % 10) e
        (drop-head text p here)
        (rw (reads.scans, is_digit-digit (v % 10) (omega arith), add_digit-digit v small, scan_len)
          next)

  digits_run :
      (k t v n p : ℕ) (rest : Bytes) (r : Cmd) (e : Exit → Type 0)
      → drop p text ≡ decimal k v ++ rest
      → v < ten_to k
      → v < 2 ^ 32
      → Leads grant text (at_state s (some t) v n r) (p + k) e
      → Leads grant text (at_state s (some t) 0 n r) p e
  digits_run zero t v n p rest r e here enough small next =
      let zero_v : v ≡ 0 = omega arith in
      let same_p : p + 0 ≡ p = omega arith in
      subst (λ w. Leads grant text (at_state s (some t) w n r) p e) zero_v
        (subst (λ q. Leads grant text (at_state s (some t) v n r) q e) same_p next)
  digits_run (suc k) t v n p rest r e here enough small next =
      let tail = b'0' + v % 10 in
      let here' : drop p text ≡ decimal k (v / 10) ++ ((tail ∷ []) ++ rest) =
        here ∙ append_assoc (decimal k (v / 10)) (tail ∷ []) rest in
      let there : drop (p + k) text ≡ tail ∷ rest =
        ap (λ m. drop (p + m) text) (sym (length-decimal k (v / 10)))
        ∙ drop-after text (decimal k (v / 10)) ((tail ∷ []) ++ rest) p here' in
      let q : p + suc k ≡ p + k + 1 = omega arith in
      digits_run k t (v / 10) n p ((tail ∷ []) ++ rest) r e here' (omega arith) (omega arith) (
        digit_round t v n (p + k) rest r e there small
          (subst (λ m. Leads grant text (at_state s (some t) v n r) m e) q next))

  -- The line of a length leads to the item behind it.
  pub length_run :
      (v l n p : ℕ) (digits rest : Bytes) (r : Cmd) (e : Exit → Type 0)
      → IsDecimal v digits
      → v < 2 ^ 32
      → drop p text ≡ b'$' ∷ (digits ++ (13 ∷ 10 ∷ rest))
      → refused (p + 1 + length digits) (at_state s (some p) v n r) p ≡ false
      → Leads grant text (at_state item none v (n - 1) r) (p + (3 + length digits)) e
      → Leads grant text (at_state s none l n r) p e
  unfolding scan_len expect_lf
  length_run v l n p digits rest r e d small here accepted next =
      let k = length digits in
      let width : k ≡ suc d.rest = ap length d.text ∙ length-decimal (suc d.rest) v in
      let inside : drop (p + 1) text ≡ digits ++ (13 ∷ 10 ∷ rest) =
        drop-after text (b'$' ∷ []) (digits ++ (13 ∷ 10 ∷ rest)) p here in
      let behind : drop (p + 1 + k) text ≡ 13 ∷ 10 ∷ rest =
        drop-after text digits (13 ∷ 10 ∷ rest) (p + 1) inside in
      let last : drop (p + 1 + k + 1) text ≡ 10 ∷ rest =
        drop-after text (13 ∷ []) (10 ∷ rest) (p + 1 + k) behind in
      let q : p + (3 + k) ≡ p + 1 + k + 1 + 1 = omega arith in
      round grant text (at_state s none l n r) p b'$' e (drop-head text p here) (
        rw (reads.scans, scan_len)
          (digits_run (suc d.rest) p v n (p + 1) (13 ∷ 10 ∷ rest) r e
            (inside ∙ ap (λ b. b ++ (13 ∷ 10 ∷ rest)) d.text) d.enough small
            (subst (λ m. Leads grant text (at_state s (some p) v n r) (p + 1 + m) e) width
              (round grant text (at_state s (some p) v n r) (p + 1 + k) 13 e
                (drop-head text (p + 1 + k) behind)
                (rw (reads.scans, accepted, scan_len)
                  (round grant text (at_state s' none v (n - 1) r) (p + 1 + k + 1) 10 e
                    (drop-head text (p + 1 + k + 1) last)
                    (rw (reads.ends, expect_lf)
                      (subst (λ m. Leads grant text (at_state item none v (n - 1) r) m e) q
                        next))))))))
