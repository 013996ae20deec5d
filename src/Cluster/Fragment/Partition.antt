-- ===== src/Cluster/Fragment/Partition.antt =====
-- Each key goes to the sub command of its slot, in the order of the keys.
use hiredis_vip.Base.{
  ℕ, ◌≤◌, List, [], ◌∷◌, ◌++◌, append_assoc, append-nil, map, Option, none, some, true, ◌==◌,
  if◌then◌else◌, Bytes, length, ◌≡◌, refl, sym, ap, ◌∙◌, ◌⊎◌, inl, inr, arith, Bool-cases,
  Option-cases, ==_iff, ==_refl, leb_of_lt,
}
use hiredis_vip.Slot.{key_hash_slot}
use hiredis_vip.Slot.Tag.{key_hash_slot-HashTag}
use hiredis_vip.Command.Types.{CmdType, KeyPos}
use hiredis_vip.Cluster.{redis_cluster_slots}
use hiredis_vip.Cluster.Fragment.{
  SubKey, SubCommand, SubCommands, Split, split, overrun, key_text, sub_or_blank, is_mset,
  remain_of, add_key, split_keys,
}

-- The slot of a key of the text, and the keys of a slot.
abbrev pub slot_of : Bytes → KeyPos → ℕ
slot_of text kp = key_hash_slot (key_text text kp)

unfoldable pub in_slot : Bytes → ℕ → List KeyPos → List KeyPos
in_slot text s [] = []
in_slot text s (kp ∷ keys) =
    let rest = in_slot text s keys in if s == slot_of text kp then kp ∷ rest else rest

abbrev pub places : List SubKey → List KeyPos
places [] = []
places (key ∷ keys) = key.at ∷ places keys

abbrev pub places_of : Option SubCommand → List KeyPos
places_of none = []
places_of (some sub) = places sub.keys

places-append : (xs ys : List SubKey) → places (xs ++ ys) ≡ places xs ++ places ys
places-append [] ys = refl
places-append (x ∷ xs) ys = ap (λ l. x.at ∷ l) (places-append xs ys)

-- A sub command that is there has a key, and the number of its slot.
abbrev pub Filed : ℕ → Option SubCommand → Type 0
Filed s none = Unit
Filed s (some sub) = (1 ≤ length sub.keys) × (sub.slot_num ≡ s)

places-blank :
    (type : CmdType) (o : Option SubCommand) → places (sub_or_blank type o).keys ≡ places_of o
places-blank type none = refl
places-blank type (some sub) = refl

add_key-places :
    (type : CmdType) (subs : SubCommands) (kp : KeyPos) (slot remain n : ℕ)
    → places_of (add_key type subs kp slot remain n)
      ≡ places_of (subs n) ++ (if n == slot then kp ∷ [] else [])
unfolding add_key
add_key-places type subs kp slot remain n = elim (Bool-cases (n == slot)) [
  | inl h ↦
      let same : n ≡ slot = (==_iff n slot).0 h in
      rw
        (
          same,
          ==_refl slot,
          places-append (sub_or_blank type (subs slot)).keys
              (record { at = kp; remain_len = remain } ∷ []),
          places-blank type (subs slot),
        )
        refl
  | inr h ↦ rw (h) (sym (append-nil _))
]

some_key : (xs : List SubKey) (x : SubKey) → 1 ≤ length (xs ++ (x ∷ []))
some_key [] x = omega arith
some_key (y ∷ xs) x = omega arith

add_key-Filed :
    (type : CmdType) (subs : SubCommands) (kp : KeyPos) (slot remain : ℕ)
    → ((n : ℕ) → Filed n (subs n))
    → (n : ℕ) → Filed n (add_key type subs kp slot remain n)
unfolding add_key
add_key-Filed type subs kp slot remain filed n = elim (Bool-cases (n == slot)) [
  | inl h ↦ rw (h) (some_key _ _, sym ((==_iff n slot).0 h))
  | inr h ↦ rw (h) (filed n)
]

must_be_mset :
    (type : CmdType) (o : Option ℕ)
    → (if is_mset type then o else some 0) ≡ none
    → is_mset type ≡ true
must_be_mset type o e = elim (Bool-cases (is_mset type)) [
  | inl h ↦ h
  | inr h ↦ absurd (cc (rw (h) at e))
]

placed :
    (type : CmdType) (text : Bytes) (kp : KeyPos) (keys : List KeyPos) (subs : SubCommands)
    (remain n : ℕ)
    → places_of (add_key type subs kp (slot_of text kp) remain n) ++ in_slot text n keys
      ≡ places_of (subs n) ++ in_slot text n (kp ∷ keys)
unfolding in_slot
placed type text kp keys subs remain n =
    let slot = slot_of text kp in
    elim (Bool-cases (n == slot)) [
      | inl h ↦
          rw
            (
              add_key-places type subs kp slot remain n,
              h,
              append_assoc (places_of (subs n)) (kp ∷ []) (in_slot text n keys),
            )
            refl
      | inr h ↦
          rw (add_key-places type subs kp slot remain n, h, append-nil (places_of (subs n))) refl
    ]

-- The keys that are still to be split, on top of the sub commands and the sequence so far.
abbrev Splits : CmdType → Bytes → List KeyPos → SubCommands → List ℕ → Split → Type 0
Splits type text keys subs seq r =
    ((subs' : SubCommands) × (r ≡ split subs' (seq ++ map (slot_of text) keys))
      × ((n : ℕ) → places_of (subs' n) ≡ places_of (subs n) ++ in_slot text n keys)
      × ((n : ℕ) → Filed n (subs' n)))
    ⊎ ((r ≡ overrun) × (is_mset type ≡ true))

pub split_keys-Splits :
    (type : CmdType) (text : Bytes) (keys : List KeyPos) (subs : SubCommands) (seq : List ℕ)
    → ((n : ℕ) → Filed n (subs n))
    → Splits type text keys subs seq (split_keys type text keys subs seq)
unfolding split_keys in_slot
split_keys-Splits type text [] subs seq filed =
    inl (subs, rw (append-nil seq) refl, λ n. sym (append-nil _), filed)
split_keys-Splits type text (kp ∷ keys) subs seq filed =
    let slot = slot_of text kp in
    let (lem, tag, small) = key_hash_slot-HashTag (key_text text kp) in
    let low = leb_of_lt redis_cluster_slots slot small in
    elim (Option-cases (if is_mset type then remain_of text kp else some 0)) [
      | inl e ↦ inr (rw (low, e, split_keys) refl, must_be_mset type (remain_of text kp) e)
      | inr (remain, e) ↦
          let subs' = add_key type subs kp slot remain in
          elim (split_keys-Splits type text keys subs' (seq ++ (slot ∷ []))
            (add_key-Filed type subs kp slot remain filed)) [
              | inr (e', mset) ↦ inr (rw (low, e, split_keys) e', mset)
              | inl (subs'', e', held, filed') ↦ inl (
                subs'',
                rw (low, e, split_keys)
                    (e'
                      ∙ ap (split subs'') (append_assoc seq (slot ∷ []) (map (slot_of text) keys))),
                λ n. held n ∙ placed type text kp keys subs remain n,
                filed',
              )
            ]
    ]
