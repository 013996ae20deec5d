-- ===== src/Cluster/Fragment/Encodes.antt =====
-- The commands of a split, as the protocol texts of their keys.
use hiredis_vip.Base.{
  ℕ, zero, suc, ◌+◌, ◌*◌, ◌%◌, ◌^◌, ◌<◌, List, [], ◌∷◌, ◌++◌, map, Option, none, some, Bool, true,
  false, ◌==◌, if◌then◌else◌, leb, Bytes, length, All, get_elem?, ◌≡◌, refl, sym, ap, subst, ◌∙◌,
  ◌⊎◌, inl, inr, arith, Bool-cases, Option-cases,
}
use hiredis_vip.Array.{u32}
use hiredis_vip.Slot.{key_hash_slot}
use hiredis_vip.Util.{uint_len}
use hiredis_vip.Format.Encode.{encode}
use hiredis_vip.Command.Types.{CmdType, KeyPos, req_redis_mget, req_redis_del}
use hiredis_vip.Cluster.{redis_cluster_slots}
use hiredis_vip.Cluster.Fragment.{
  SubKey, SubCommand, SubCommands, Split, split, Fragments, key_text, is_mset, sub_or_blank,
  add_key, split_keys, write_command, write_commands, command_pre_fragment,
}
use hiredis_vip.Cluster.Fragment.Partition.{slot_of, in_slot, places, split_keys-Splits}
use hiredis_vip.Cluster.Fragment.Commands.{Files, at_cons, write_command-keys}
use hiredis_vip.Cluster.Fragment.Laws.{command_pre_fragment-slots}
use hiredis_vip.Cluster.Fragment.Texts.{IsKey, tally, IsCounted, name_of, write_command-encode}
mod Tests

abbrev Counted : Option SubCommand → Type 0
Counted none = Unit
Counted (some sub) = IsCounted sub

tally-snoc :
    (keys : List SubKey) (key : SubKey) → tally (keys ++ (key ∷ [])) ≡ tally keys + tally (key ∷ [])
tally-snoc [] key = omega arith
tally-snoc (k ∷ keys) key = omega (arith, tally-snoc keys key)

count-snoc : (keys : List SubKey) (key : SubKey) → length (keys ++ (key ∷ [])) ≡ length keys + 1
count-snoc [] key = refl
count-snoc (k ∷ keys) key = omega (arith, count-snoc keys key)

blank-IsCounted :
    (type : CmdType) (o : Option SubCommand) → Counted o → IsCounted (sub_or_blank type o)
blank-IsCounted type none h = record { narg_counts = refl; clen_counts = refl }
blank-IsCounted type (some sub) h = h

add_key-Counted :
    (type : CmdType) (subs : SubCommands) (kp : KeyPos) (slot : ℕ)
    → ((n : ℕ) → Counted (subs n))
    → (n : ℕ) → Counted (add_key type subs kp slot 0 n)
unfolding add_key
add_key-Counted type subs kp slot counted n = elim (Bool-cases (n == slot)) [
  | inr h ↦ rw (h) (counted n)
  | inl h ↦
      let sub = sub_or_blank type (subs slot) in
      let key : SubKey = record { at = kp; remain_len = 0 } in
      let before = blank-IsCounted type (subs slot) (counted slot) in
      rw (h) (record {
        narg_counts = omega (arith, before.narg_counts, count-snoc sub.keys key);
        clen_counts = omega (arith, before.clen_counts, tally-snoc sub.keys key);
      })
]

split_keys-Counted :
    (type : CmdType) (text : Bytes) (keys : List KeyPos) (subs subs' : SubCommands)
    (seq seq' : List ℕ)
    → is_mset type ≡ false
    → ((n : ℕ) → Counted (subs n))
    → split_keys type text keys subs seq ≡ split subs' seq'
    → (n : ℕ) → Counted (subs' n)
unfolding split_keys
split_keys-Counted type text [] subs subs' seq seq' plain counted e n =
    let same : subs ≡ subs' = cc e in subst (λ (s : SubCommands). Counted (s n)) same (counted n)
split_keys-Counted type text (kp ∷ keys) subs subs' seq seq' plain counted e n =
    elim (Bool-cases (leb redis_cluster_slots (slot_of text kp))) [
      | inl h ↦ absurd (cc (rw (h, split_keys) at e))
      | inr h ↦
          split_keys-Counted type text keys (add_key type subs kp (slot_of text kp) 0) subs'
            (seq ++ (slot_of text kp ∷ [])) seq' plain
            (add_key-Counted type subs kp (slot_of text kp) counted)
            (rw (h, plain, split_keys) at e) n
    ]

-- Each command of the list is written from a sub command.
write_commands-writes :
    (count i : ℕ) (type : CmdType) (text : Bytes) (subs : SubCommands) (num_str : Bytes) (j : ℕ)
    (c : SubCommand)
    → get_elem? (write_commands count i type text subs num_str) j ≡ some c
    → (n : ℕ) × (sub : SubCommand) × (buffer : Bytes) × (subs n ≡ some sub)
      × ((write_command type text sub buffer).0 ≡ c)
unfolding write_commands
write_commands-writes zero i type text subs num_str j c e = absurd (cc e)
write_commands-writes (suc count) i type text subs num_str j c e = elim (Option-cases (subs i)) [
  | inl h ↦
      write_commands-writes count (suc i) type text subs num_str j c (rw (h, write_commands) at e)
  | inr (sub, h) ↦
      let w = write_command type text sub num_str in
      elim (at_cons w.0 (write_commands count (suc i) type text subs w.1) j c
        (rw (h, write_commands) at e)) [
          | inl (_, same) ↦ (i, sub, num_str, h, same)
          | inr (j', _, e') ↦ write_commands-writes count (suc i) type text subs w.1 j' c e'
        ]
]

All-in_slot :
    (text : Bytes) (s : ℕ) (keys : List KeyPos)
    → All (IsKey text) keys
    → All (IsKey text) (in_slot text s keys)
unfolding in_slot
All-in_slot text s [] good = tt
All-in_slot text s (kp ∷ keys) (first, good) = elim (Bool-cases (s == slot_of text kp)) [
  | inl h ↦ rw (h) (first, All-in_slot text s keys good)
  | inr h ↦ rw (h) (All-in_slot text s keys good)
]

commands_in : Option Fragments → List SubCommand
commands_in none = []
commands_in (some f) = f.commands

split-plain :
    (type : CmdType) → (type ≡ req_redis_mget) ⊎ (type ≡ req_redis_del) → is_mset type ≡ false
split-plain type (inl e) = rw (e) refl
split-plain type (inr e) = rw (e) refl

module _ (type : CmdType) (text : Bytes) (keys : List KeyPos) (num_str : Bytes) (f : Fragments)
    (planned : command_pre_fragment type text keys num_str ≡ some f) (plain : is_mset type ≡ false)
    (j : ℕ) (c : SubCommand) (at : get_elem? f.commands j ≡ some c) where
  owned : places c.keys ≡ in_slot text c.slot_num keys
  owned = elim (command_pre_fragment-slots type text keys num_str) [
    | inr (_, mset) ↦ absurd (cc (mset, plain))
    | inl (f', e, outcome) ↦
        let same : f' ≡ f = cc (e, planned) in
        elim outcome [
          | inl (_, (empty, _)) ↦
              let none_left : f.commands ≡ [] =
                sym (ap (λ (x : Fragments). x.commands) same) ∙ empty in
              absurd (cc (rw (none_left) at at))
          | inr (_, (files, _)) ↦
              let files' =
                subst (Files text keys) (ap (λ (x : Fragments). x.commands) same) files in
              (files'.own j c at).0
        ]
  ]

  written_from :
      (sub : SubCommand) × (buffer : Bytes) × IsCounted sub
      × ((write_command type text sub buffer).0 ≡ c)
  unfolding command_pre_fragment commands_in
  written_from = elim (split_keys-Splits type text keys (λ s. none) [] (λ n. tt)) [
    | inr (_, mset) ↦ absurd (cc (mset, plain))
    | inl (subs, e, _, _) ↦
        let commands = write_commands redis_cluster_slots 0 type text subs num_str in
        let counted = split_keys-Counted type text keys (λ s. none) subs [] _ plain (λ n. tt) e in
        elim (Bool-cases (length commands == 1)) [
          | inl h ↦
              let none_left : [] ≡ f.commands =
                ap commands_in (rw (e, h, command_pre_fragment) at planned) in
              absurd (cc (rw (sym none_left) at at))
          | inr h ↦
              let all : commands ≡ f.commands =
                ap commands_in (rw (e, h, command_pre_fragment) at planned) in
              let (n, sub, buffer, found, same) =
                write_commands-writes redis_cluster_slots 0 type text subs num_str j c
                  (rw (sym all) at at) in
              (sub, buffer, rw (found) at (counted n), same)
        ]
  ]

-- Each command that the split of an MGET or a DEL comes to has the protocol text of the command's name and
-- the keys of its slot, in their order, and its `clen` is the length of that text; for keys that lie in
-- the text with a byte at least, in its first 2^31 bytes, and a part that is shorter than 2^30 bytes.
pub command_pre_fragment-encode :
    (type : CmdType) (text : Bytes) (keys : List KeyPos) (num_str : Bytes) (f : Fragments) (j : ℕ)
    (c : SubCommand)
    → (type ≡ req_redis_mget) ⊎ (type ≡ req_redis_del)
    → All (IsKey text) keys
    → command_pre_fragment type text keys num_str ≡ some f
    → get_elem? f.commands j ≡ some c
    → tally c.keys + 5 * length c.keys < 2 ^ 30
    → (c.cmd ≡ encode (name_of type ∷ map (key_text text) (in_slot text c.slot_num keys)))
      × (c.clen ≡ length c.cmd)
command_pre_fragment-encode type text keys num_str f j c kind good planned at few =
    let plain = split-plain type kind in
    let own = owned type text keys num_str f planned plain j c at in
    let (sub, buffer, counted, same) = written_from type text keys num_str f planned plain j c at in
    let (kept, _) = write_command-keys type text sub buffer in
    let keys_same : sub.keys ≡ c.keys = sym kept ∙ ap (λ (x : SubCommand). x.keys) same in
    let own' : places sub.keys ≡ in_slot text c.slot_num keys = ap places keys_same ∙ own in
    let lie : All (IsKey text) (places sub.keys) =
      subst (All (IsKey text)) (sym own') (All-in_slot text c.slot_num keys good) in
    let small = subst (λ ks. tally ks + 5 * length ks < 2 ^ 30) (sym keys_same) few in
    let (cmd, len) = write_command-encode text sub buffer lie counted small type kind in
    let cmd' = sym (ap (λ (x : SubCommand). x.cmd) same) ∙ cmd in
    (
      cmd' ∙ ap (λ ks. encode (name_of type ∷ map (key_text text) ks)) own',
      sym (ap (λ (x : SubCommand). x.clen) same) ∙ len ∙ sym (ap length cmd'),
    )
