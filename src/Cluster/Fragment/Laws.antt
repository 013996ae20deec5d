-- ===== src/Cluster/Fragment/Laws.antt =====
-- The split of a command: one command for each slot, or the command as it is.
use hiredis_vip.Base.{
  ℕ, zero, suc, ◌≤◌, List, [], ◌∷◌, map, none, some, true, ◌==◌, Bytes, length, get_elem?, ◌≡◌,
  refl, sym, ap, ◌∙◌, ◌≢◌, ◌⊎◌, inl, inr, arith, Bool-cases, Option-cases, ==_iff, ==_refl,
}
use hiredis_vip.Base.Int.{pos}
use hiredis_vip.Slot.Tag.{key_hash_slot-HashTag}
use hiredis_vip.Command.Types.{CmdType, KeyPos}
use hiredis_vip.Cluster.{redis_cluster_slots}
use hiredis_vip.Cluster.Fragment.{
  SubCommand, SubCommands, key_text, is_mset, write_commands, last_slot, Fragments,
  command_pre_fragment,
}
use hiredis_vip.Cluster.Fragment.Partition.{
  slot_of, in_slot, places, places_of, Filed, split_keys-Splits,
}
use hiredis_vip.Cluster.Fragment.Commands.{Files, written, ascends, reached}

in_slot-some :
    (text : Bytes) (keys : List KeyPos) (i : ℕ) (kp : KeyPos)
    → get_elem? keys i ≡ some kp
    → 1 ≤ length (in_slot text (slot_of text kp) keys)
unfolding in_slot
in_slot-some text [] i kp e = absurd (cc e)
in_slot-some text (k ∷ keys) zero kp e =
    let same : k ≡ kp = cc e in rw (same, ==_refl (slot_of text kp)) (omega arith)
in_slot-some text (k ∷ keys) (suc i) kp e = elim (Bool-cases (slot_of text kp == slot_of text k)) [
  | inl h ↦ rw (h) (omega arith)
  | inr h ↦ rw (h) (in_slot-some text keys i kp e)
]

only_one :
    (xs : List SubCommand) (i j : ℕ) (c d : SubCommand)
    → length xs ≡ 1
    → get_elem? xs i ≡ some c
    → get_elem? xs j ≡ some d
    → c ≡ d
only_one [] i j c d one e e' = absurd (cc e)
only_one (x ∷ []) zero zero c d one e e' = cc (e, e')
only_one (x ∷ []) (suc i) j c d one e e' = absurd (cc e)
only_one (x ∷ []) zero (suc j) c d one e e' = absurd (cc e')
only_one (x ∷ y ∷ xs) i j c d one e e' = absurd (omega arith)

last_slot-same :
    (text : Bytes) (keys : List KeyPos) (s i : ℕ) (kp : KeyPos)
    → ((j : ℕ) (k : KeyPos) → get_elem? keys j ≡ some k → slot_of text k ≡ s)
    → get_elem? keys i ≡ some kp
    → last_slot (map (slot_of text) keys) ≡ pos s
last_slot-same text [] s i kp all e = absurd (cc e)
last_slot-same text (k ∷ []) s i kp all e = ap pos (all 0 k refl)
last_slot-same text (k ∷ k' ∷ keys) s i kp all e =
    last_slot-same text (k' ∷ keys) s 0 k' (λ j x g. all (suc j) x g) refl

module _ (type : CmdType) (text : Bytes) (keys : List KeyPos) (num_str : Bytes) where
  -- The command goes whole, to the slot of all its keys.
  abbrev pub Whole : Fragments → Type 0
  Whole f =
      (f.frag_seq ≡ none)
      × ((f.commands ≡ [])
          × ((i : ℕ) (kp : KeyPos) → get_elem? keys i ≡ some kp → f.slot ≡ pos (slot_of text kp)))

  -- It goes in parts, of which there is never one alone, and the sequence names the part of each key.
  abbrev pub Parts : Fragments → Type 0
  Parts f =
      (f.frag_seq ≡ some (map (slot_of text) keys))
      × (Files text keys f.commands × (length f.commands ≢ 1))

  commands-Files :
      (subs : SubCommands)
      → ((n : ℕ) → places_of (subs n) ≡ in_slot text n keys)
      → ((n : ℕ) → Filed n (subs n))
      → Files text keys (write_commands redis_cluster_slots 0 type text subs num_str)
  commands-Files subs held filed = record {
    own = λ j c e.
        let (sub, at, same, _) = written type text subs filed redis_cluster_slots 0 num_str j c e in
        let (some_key, _) = rw (at) at (filed c.slot_num) in
        (ap places same ∙ rw (at) at (held c.slot_num), rw (same) some_key);
    ascending = ascends type text subs filed redis_cluster_slots 0 num_str;
    all = λ i kp e.
        let n = slot_of text kp in
        let (_, _, small) = key_hash_slot-HashTag (key_text text kp) in
        let some_key = in_slot-some text keys i kp e in
        elim (Option-cases (subs n)) [
          | inl h ↦
              let no_key : [] ≡ in_slot text n keys = rw (h) at (held n) in
              absurd (omega (arith, ap length no_key))
          | inr (sub, h) ↦
              reached type text subs filed redis_cluster_slots 0 num_str n sub h (omega arith) small
        ];
  }

  -- A command is split by the slots of its keys: it goes whole, to the one slot that they all have, or
  -- there is one command for each slot of a key, but never one command alone, with exactly the keys of
  -- the slot in their order, and the sequence of fragments names the slot of each key. The split of an MSET may read past the end of
  -- its text instead.
  pub command_pre_fragment-slots :
      ((f : Fragments) × (command_pre_fragment type text keys num_str ≡ some f)
        × (Whole f ⊎ Parts f))
      ⊎ ((command_pre_fragment type text keys num_str ≡ none) × (is_mset type ≡ true))
  unfolding command_pre_fragment
  command_pre_fragment-slots = elim (split_keys-Splits type text keys (λ s. none) [] (λ n. tt)) [
    | inr (e, mset) ↦ inr (rw (e, command_pre_fragment) refl, mset)
    | inl (subs, e, held, filed) ↦
        let commands = write_commands redis_cluster_slots 0 type text subs num_str in
        let files = commands-Files subs held filed in
        let seq = map (slot_of text) keys in
        let whole : Fragments = record { slot = last_slot seq; commands = []; frag_seq = none } in
        let parts : Fragments = record {
          slot = last_slot seq;
          commands = commands;
          frag_seq = some seq;
        } in
        elim (Bool-cases (length commands == 1)) [
          | inr h ↦ inl (
            parts,
            rw (e, h, command_pre_fragment) refl,
            inr (refl, (files, λ one. cc (h, (==_iff (length commands) 1).1 one))),
          )
          | inl h ↦ inl (
            whole,
            rw (e, h, command_pre_fragment) refl,
            inl (
              refl,
              (
                refl,
                λ i kp g.
                    let (j, c, at, number) = files.all i kp g in
                    let same : (i' : ℕ) (kp' : KeyPos)
                        → get_elem? keys i' ≡ some kp'
                        → slot_of text kp' ≡ slot_of text kp =
                      λ i' kp' g'.
                        let (j', c', at', number') = files.all i' kp' g' in
                        sym number'
                        ∙ ap (λ (x : SubCommand). x.slot_num)
                            (only_one commands j' j c' c ((==_iff (length commands) 1).0 h) at' at)
                        ∙ number in
                    last_slot-same text keys (slot_of text kp) i kp same g,
              ),
            ),
          )
        ]
  ]
