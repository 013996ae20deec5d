-- ===== src/Command/Run/Starts.antt =====
-- Runs of `redis_parse_cmd` over the number of items and the name of the command.
use hiredis_vip.Base.{
  ℕ, zero, suc, ◌+◌, ◌-◌, ◌/◌, ◌%◌, ◌^◌, ◌<◌, ◌++◌, [], ◌∷◌, Bytes, some, none, length, drop, ◌≡◌,
  refl, sym, ap, ◌∙◌, arith, Bool, false, append_assoc, subst, ==_of_ne,
}
use hiredis_vip.Decimal.Text.{decimal, ten_to, IsDecimal}
use hiredis_vip.Decimal.Count.{length-decimal}
use hiredis_vip.Format.Encode.{digits_of, digits_of-IsDecimal, encode_item, item_size}
use hiredis_vip.Command.Types.{
  Cmd, start, narg, narg_lf, req_type_len, req_type_len_lf, req_type, req_type_lf,
}
use hiredis_vip.Command.Keywords.{command_type}
use hiredis_vip.Command.Fsa.{scan_narg, expect_lf}
use hiredis_vip.Command.Items.{set_flags, set_type, is_unknown, read_type, after_type}
use hiredis_vip.Command.Parse.{dispatch, Exit, refuses_type_len}
use hiredis_vip.Command.Run.{drop-head, drop-after, slice-at, Leads, After, round}
use hiredis_vip.Command.Run.Lengths.{
  at_state, ReadsLength, length_run, is_digit-digit, add_digit-digit,
}
use hiredis_vip.Command.Run.Skips.{item_line, drop-line, first_byte}

module _ (grant : ℕ → Bool) (text : Bytes) where
  count_run :
      (k t v p : ℕ) (rest : Bytes) (r : Cmd) (e : Exit → Type 0)
      → drop p text ≡ decimal k v ++ rest
      → v < ten_to k
      → v < 2 ^ 32
      → Leads grant text (at_state narg (some t) 0 v r) (p + k) e
      → Leads grant text (at_state narg (some t) 0 0 r) p e
  unfolding dispatch scan_narg
  count_run zero t v p rest r e here enough small next =
      let zero_v : v ≡ 0 = omega arith in
      let same_p : p + 0 ≡ p = omega arith in
      subst (λ w. Leads grant text (at_state narg (some t) 0 w r) p e) zero_v
        (subst (λ q. Leads grant text (at_state narg (some t) 0 v r) q e) same_p next)
  count_run (suc k) t v p rest r e here enough small next =
      let tail = b'0' + v % 10 in
      let here' : drop p text ≡ decimal k (v / 10) ++ ((tail ∷ []) ++ rest) =
        here ∙ append_assoc (decimal k (v / 10)) (tail ∷ []) rest in
      let there : drop (p + k) text ≡ tail ∷ rest =
        ap (λ m. drop (p + m) text) (sym (length-decimal k (v / 10)))
        ∙ drop-after text (decimal k (v / 10)) ((tail ∷ []) ++ rest) p here' in
      let q : p + suc k ≡ p + k + 1 = omega arith in
      count_run k t (v / 10) p ((tail ∷ []) ++ rest) r e here' (omega arith) (omega arith) (
        round grant text (at_state narg (some t) 0 (v / 10) r) (p + k) tail e
          (drop-head text (p + k) there)
          (rw (is_digit-digit (v % 10) (omega arith), add_digit-digit v small, dispatch, scan_narg)
            (subst (λ m. Leads grant text (at_state narg (some t) 0 v r) m e) q next)))

  -- The line with the number of items leads to the first item.
  pub start_run :
      (v : ℕ) (digits rest : Bytes) (r : Cmd) (e : Exit → Type 0)
      → IsDecimal v digits
      → 0 < v
      → v < 2 ^ 32
      → text ≡ b'*' ∷ (digits ++ (13 ∷ 10 ∷ rest))
      → ((r' : Cmd)
          → r'.keys ≡ r.keys
          → r'.narg_count ≡ v
          → Leads grant text (at_state req_type_len none 0 v r') (3 + length digits) e)
      → Leads grant text (at_state start none 0 0 r) 0 e
  unfolding dispatch scan_narg expect_lf
  start_run v digits rest r e d some_items small whole next =
      let k = length digits in
      let width : k ≡ suc d.rest = ap length d.text ∙ length-decimal (suc d.rest) v in
      let inside : drop 1 text ≡ digits ++ (13 ∷ 10 ∷ rest) = ap (drop 1) whole in
      let behind : drop (1 + k) text ≡ 13 ∷ 10 ∷ rest =
        drop-after text digits (13 ∷ 10 ∷ rest) 1 inside in
      let last : drop (1 + k + 1) text ≡ 10 ∷ rest =
        drop-after text (13 ∷ []) (10 ∷ rest) (1 + k) behind in
      let q : 3 + k ≡ 1 + k + 1 + 1 = omega arith in
      let r₁ : Cmd = record r { narg_start = some 0 } in
      let r₂ : Cmd = record r₁ { narg_count = v; narg_end = some (1 + k) } in
      round grant text (at_state start none 0 0 r) 0 b'*' e (drop-head text 0 whole) (
        count_run (suc d.rest) 0 v 1 (13 ∷ 10 ∷ rest) r₁ e
          (inside ∙ ap (λ b. b ++ (13 ∷ 10 ∷ rest)) d.text) d.enough small
          (subst (λ m. Leads grant text (at_state narg (some 0) 0 v r₁) (1 + m) e) width
            (round grant text (at_state narg (some 0) 0 v r₁) (1 + k) 13 e
              (drop-head text (1 + k) behind)
              (rw (==_of_ne v 0 (omega arith), dispatch, scan_narg)
                (round grant text (at_state narg_lf none 0 v r₂) (1 + k + 1) 10 e
                  (drop-head text (1 + k + 1) last)
                  (subst (λ m. Leads grant text (at_state req_type_len none 0 v r₂) m e) q
                    (next r₂ refl refl)))))))

  type_lengths : ReadsLength grant text refuses_type_len req_type_len req_type_len_lf req_type
  unfolding dispatch
  type_lengths = record { scans = λ t l n r p ch. refl; ends = λ t l n r p ch. refl }

  -- The name leads to the choice behind it, with its type known.
  pub type_run :
      (name rest : Bytes) (n p : ℕ) (r : Cmd) (e : Exit → Type 0)
      → 0 < length name
      → length name < 2 ^ 32
      → 0 < n
      → drop p text ≡ encode_item name ++ rest
      → is_unknown (command_type name) ≡ false
      → ((r' : Cmd) (q : ℕ)
          → q + 1 ≡ p + length (encode_item name)
          → r'.type ≡ command_type name
          → r'.keys ≡ r.keys
          → r'.narg_count ≡ r.narg_count
          → After grant text (after_type (at_state req_type_lf none 0 (n - 1) r') q 10) e)
      → Leads grant text (at_state req_type_len none 0 n r) p e
  unfolding dispatch read_type set_type set_flags
  type_run name rest n p r e named small room here known next =
      let digits = digits_of (length name) in
      let line = item_line text name rest p here in
      let item = p + (3 + length digits) in
      let there : drop item text ≡ name ++ (13 ∷ 10 ∷ rest) =
        drop-line text digits (name ++ (13 ∷ 10 ∷ rest)) p line in
      let (y, begun, eq) = first_byte name 13 (10 ∷ rest) in
      let end : drop (item + length name) text ≡ 13 ∷ 10 ∷ rest =
        drop-after text name (13 ∷ 10 ∷ rest) item there in
      let last : drop (item + length name + 1) text ≡ 10 ∷ rest =
        drop-after text (13 ∷ []) (10 ∷ rest) (item + length name) end in
      let r' = set_type name r in
      length_run type_lengths (length name) 0 n p digits (name ++ (13 ∷ 10 ∷ rest)) r e
        (digits_of-IsDecimal (length name) (omega arith)).1 small line
        (rw (==_of_ne (length name) 0 (omega arith), ==_of_ne n 0 (omega arith)))
        (round grant text (at_state req_type none (length name) (n - 1) r) item y e
          (drop-head text item (there ∙ eq))
          (rw
            (
              drop-head text (item + length name) end,
              slice-at text name (13 ∷ 10 ∷ rest) item there,
              known,
              dispatch,
              read_type,
              set_type,
              set_flags,
            )
            (round grant text (at_state req_type_lf none 0 (n - 1) r') (item + length name + 1) 10 e
              (drop-head text (item + length name + 1) last)
              (next r' (item + length name + 1) (omega (arith, item_size name)) refl refl refl))))
