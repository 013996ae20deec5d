-- ===== src/Command/Roundtrip.antt =====
-- A command in the protocol, parsed again: `redis_parse_cmd` finds its type and its keys.
use hiredis_vip.Base.{
  ℕ, suc, ◌+◌, ◌-◌, ◌^◌, ◌<◌, ◌++◌, List, [], ◌∷◌, Bytes, some, none, length, drop, ◌≡◌, refl, sym,
  ap, ◌∙◌, arith, Bool, true, false, subst, length-append, append_assoc, inl, inr,
}
use hiredis_vip.Format.Encode.{digits_of, digits_of-IsDecimal, encode, encode_item, encode_items}
use hiredis_vip.Command.Types.{Cmd, parse_ok, req_type_lf}
use hiredis_vip.Command.Keywords.{command_type, find_keyword, keywords}
use hiredis_vip.Command.Keywords.Laws.{kinds, command_type-kinds}
use hiredis_vip.Command.Items.{is_unknown, after_type}
use hiredis_vip.Command.Parse.{conclude, start_fsa, redis_parse_cmd}
use hiredis_vip.Command.Halts.{parse_loop-halts}
use hiredis_vip.Command.Run.{Leads, After, drop-after, drop-next}
use hiredis_vip.Command.Run.Lengths.{at_state}
use hiredis_vip.Command.Run.Keys.{Records}
use hiredis_vip.Command.Run.Starts.{start_run, type_run}
use hiredis_vip.Command.Run.Tails.{Finds, Short}
use hiredis_vip.Command.Run.Shapes.{Shape, items_run}

one_kind : (name : Bytes) → is_unknown (command_type name) ≡ false → kinds (command_type name) ≡ 1
unfolding is_unknown
one_kind name known = elim (command_type-kinds name) [
  | inl none_of_them ↦ absurd (false-ne-true (sym known ∙ ap is_unknown none_of_them))
  | inr one ↦ one
]
  where
    false-ne-true : false ≡ true → ⊥
    false-ne-true h = cc

has_name : (name : Bytes) → is_unknown (command_type name) ≡ false → 0 < length name
unfolding is_unknown command_type find_keyword keywords
has_name [] known = absurd (cc known)
has_name (c ∷ name) known = omega arith

behind_count :
    (text digits rest : Bytes)
    → text ≡ b'*' ∷ (digits ++ (13 ∷ 10 ∷ rest))
    → drop (3 + length digits) text ≡ rest
behind_count text digits rest e =
    let line : Bytes = b'*' ∷ (digits ++ (13 ∷ 10 ∷ [])) in
    let size : 3 + length digits ≡ 0 + length line =
      omega (arith, length-append digits (13 ∷ 10 ∷ [])) in
    ap (λ k. drop k text) size ∙ drop-after text line rest 0 (e ∙ simp append_assoc)

whole_run :
    (grant : ℕ → Bool) (name : Bytes) (items keys : List Bytes) (r : Cmd)
    → ((n : ℕ) → grant n ≡ true)
    → is_unknown (command_type name) ≡ false
    → Shape (command_type name) items keys
    → Short (name ∷ items)
    → length items < 2 ^ 31
    → Records (encode (name ∷ items)) r.keys []
    → Leads grant
        (encode (name ∷ items))
        (start_fsa r)
        0
        (Finds (encode (name ∷ items)) (command_type name) keys)
unfolding encode encode_items
whole_run grant name items keys r served known shape short few old =
    let text = encode (name ∷ items) in
    let v = suc (length items) in
    let digits = digits_of v in
    let e = Finds text (command_type name) keys in
    let body = encode_items (name ∷ items) in
    let here : drop (3 + length digits) text ≡ body = behind_count text digits body refl in
    start_run grant text v digits body r e (digits_of-IsDecimal v (omega arith)).1 (omega arith)
      (omega arith) refl
      (λ r₁ kept counted.
        type_run grant text name (encode_items items) v (3 + length digits) r₁ e
          (has_name name known) short.0 (omega arith) here known
          (λ r₂ q same typed kept' counted'.
            let stay : v - 1 ≡ length items = omega arith in
            subst (λ n. After grant text (after_type (at_state req_type_lf none 0 n r₂) q 10) e)
              (sym stay)
              (subst
                (λ t.
                  After grant text (after_type (at_state req_type_lf none 0 (length items) r₂) q 10)
                    (Finds text t keys))
                typed
                (items_run grant text served q r₂ (ap kinds typed ∙ one_kind name known)
                  (subst (λ t. Shape t items keys) (sym typed) shape) (counted' ∙ counted) few
                  (
                    drop-next text (encode_item name) (encode_items items) (3 + length digits) q
                        here same,
                    refl,
                    short.1,
                  )
                  (subst (λ ks. Records text ks []) (sym (kept' ∙ kept)) old)))))

pub redis_parse_cmd-encode :
    (grant : ℕ → Bool) (name : Bytes) (items keys : List Bytes) (r : Cmd)
    → ((n : ℕ) → grant n ≡ true)
    → is_unknown (command_type name) ≡ false
    → Shape (command_type name) items keys
    → Short (name ∷ items)
    → length items < 2 ^ 31
    → Records (encode (name ∷ items)) r.keys []
    → (r' : Cmd) × (redis_parse_cmd grant (encode (name ∷ items)) r ≡ some r')
      × (r'.result ≡ parse_ok)
      × (r'.type ≡ command_type name)
      × Records (encode (name ∷ items)) r'.keys keys
unfolding redis_parse_cmd conclude
redis_parse_cmd-encode grant name items keys r served known shape short few old =
    let text = encode (name ∷ items) in
    let (r', left, typed, found) =
      whole_run grant name items keys r served known shape short few old (length text + 1) (
        parse_loop-halts (length text + 1) grant text (start_fsa r) 0 tt (omega arith)
          (omega arith)) in
    (record r' { result = parse_ok }, ap conclude left, refl, typed, found)
