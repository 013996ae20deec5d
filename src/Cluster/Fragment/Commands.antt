-- ===== src/Cluster/Fragment/Commands.antt =====
-- The commands that a split comes to.
use hiredis_vip.Base.{
  ℕ, zero, suc, ◌+◌, ◌≤◌, ◌<◌, List, ◌∷◌, some, Bytes, length, get_elem?, ◌≡◌, refl, sym, ap, subst,
  ◌∙◌, ◌⊎◌, inl, inr, arith, Option-cases,
}
use native.Mathlib.Decide.{dec_lt}
use hiredis_vip.Command.Types.{CmdType, KeyPos}
use hiredis_vip.Cluster.Fragment.{SubCommand, SubCommands, write_command, write_commands}
use hiredis_vip.Cluster.Fragment.Partition.{slot_of, in_slot, places, Filed}

-- The commands of a list of keys, in the order of their slots: each has the keys of its slot, in
-- their order and one at least, and each key's slot has a command.
pub record Files (text : Bytes) (keys : List KeyPos) (commands : List SubCommand) : Type 0 where
  pub own :
      (j : ℕ) (c : SubCommand)
      → get_elem? commands j ≡ some c
      → (places c.keys ≡ in_slot text c.slot_num keys) × (1 ≤ length c.keys)
  pub ascending :
      (i j : ℕ) (c d : SubCommand)
      → get_elem? commands i ≡ some c
      → get_elem? commands j ≡ some d
      → i < j
      → c.slot_num < d.slot_num
  pub all :
      (i : ℕ) (kp : KeyPos)
      → get_elem? keys i ≡ some kp
      → (j : ℕ) × (c : SubCommand) × (get_elem? commands j ≡ some c)
        × (c.slot_num ≡ slot_of text kp)

pub write_command-keys :
    (type : CmdType) (text : Bytes) (sub : SubCommand) (num_str : Bytes)
    → ((write_command type text sub num_str).0.keys ≡ sub.keys)
      × ((write_command type text sub num_str).0.slot_num ≡ sub.slot_num)
unfolding write_command
write_command-keys type text sub num_str = (ground arith, ground arith)

pub at_cons :
    (x : SubCommand) (xs : List SubCommand) (j : ℕ) (c : SubCommand)
    → get_elem? (x ∷ xs) j ≡ some c
    → ((j ≡ 0) × (x ≡ c)) ⊎ ((j' : ℕ) × (j ≡ suc j') × (get_elem? xs j' ≡ some c))
at_cons x xs zero c e = inl (refl, cc e)
at_cons x xs (suc j) c e = inr (j, refl, e)

module _ (type : CmdType) (text : Bytes) (subs : SubCommands)
    (filed : (n : ℕ) → Filed n (subs n)) where
  headed :
      (i : ℕ) (sub : SubCommand) (num_str : Bytes)
      → subs i ≡ some sub
      → ((write_command type text sub num_str).0.keys ≡ sub.keys)
        × ((write_command type text sub num_str).0.slot_num ≡ i)
  headed i sub num_str h =
      let (same, slot) = write_command-keys type text sub num_str in
      let (some_key, number) = rw (h) at (filed i) in (same, slot ∙ number)

  pub written :
      (count i : ℕ) (num_str : Bytes) (j : ℕ) (c : SubCommand)
      → get_elem? (write_commands count i type text subs num_str) j ≡ some c
      → (sub : SubCommand) × (subs c.slot_num ≡ some sub) × (c.keys ≡ sub.keys) × (i ≤ c.slot_num)
  unfolding write_commands
  written zero i num_str j c e = absurd (cc e)
  written (suc count) i num_str j c e = elim (Option-cases (subs i)) [
    | inl h ↦
        let (sub, e1, e2, le) = written count (suc i) num_str j c (rw (h, write_commands) at e) in
        (sub, e1, e2, omega arith)
    | inr (sub, h) ↦
        let w = write_command type text sub num_str in
        let (same, slot) = headed i sub num_str h in
        elim (at_cons w.0 (write_commands count (suc i) type text subs w.1) j c
          (rw (h, write_commands) at e)) [
            | inl (_, e1) ↦
                subst
                  (λ d.
                    (x : SubCommand) × (subs d.slot_num ≡ some x)
                    × (d.keys ≡ x.keys)
                    × (i ≤ d.slot_num))
                  e1 (sub, rw (slot) h, same, omega arith)
            | inr (j', _, e1) ↦
                let (sub', e2, e3, le) = written count (suc i) w.1 j' c e1 in
                (sub', e2, e3, omega arith)
          ]
  ]

  pub ascends :
      (count i : ℕ) (num_str : Bytes) (j j' : ℕ) (c d : SubCommand)
      → get_elem? (write_commands count i type text subs num_str) j ≡ some c
      → get_elem? (write_commands count i type text subs num_str) j' ≡ some d
      → j < j'
      → c.slot_num < d.slot_num
  unfolding write_commands
  ascends zero i num_str j j' c d e e' lt = absurd (cc e)
  ascends (suc count) i num_str j j' c d e e' lt = elim (Option-cases (subs i)) [
    | inl h ↦
        ascends count (suc i) num_str j j' c d (rw (h, write_commands) at e)
          (rw (h, write_commands) at e') lt
    | inr (sub, h) ↦
        let w = write_command type text sub num_str in
        let rest = write_commands count (suc i) type text subs w.1 in
        let (same, slot) = headed i sub num_str h in
        elim (at_cons w.0 rest j' d (rw (h, write_commands) at e')) [
          | inl (z, _) ↦ absurd (omega arith)
          | inr (k', z', g') ↦
              let (sub', _, _, le) = written count (suc i) w.1 k' d g' in
              elim (at_cons w.0 rest j c (rw (h, write_commands) at e)) [
                | inl (z, g) ↦ subst (λ x. x.slot_num < d.slot_num) g (omega arith)
                | inr (k, z, g) ↦ ascends count (suc i) w.1 k k' c d g g' (omega arith)
              ]
        ]
  ]

  pub reached :
      (count i : ℕ) (num_str : Bytes) (n : ℕ) (sub : SubCommand)
      → subs n ≡ some sub
      → i ≤ n
      → n < i + count
      → (j : ℕ) × (c : SubCommand) × (get_elem? (write_commands count i type text subs num_str) j
          ≡ some c)
        × (c.slot_num ≡ n)
  unfolding write_commands
  reached zero i num_str n sub e low high = absurd (omega arith)
  reached (suc count) i num_str n sub e low high = elim (Option-cases (subs i)) [
    | inl h ↦ elim (dec_lt i n) [
      | no ge ↦ let same : i ≡ n = omega arith in absurd (cc (sym h ∙ ap subs same ∙ e))
      | yes lt ↦
          let (j, c, g, s) = reached count (suc i) num_str n sub e (omega arith) (omega arith) in
          (j, c, rw (h, write_commands) g, s)
    ]
    | inr (sub', h) ↦
        let w = write_command type text sub' num_str in
        let (same, slot) = headed i sub' num_str h in
        elim (dec_lt i n) [
          | no ge ↦ (0, w.0, rw (h, write_commands) refl, omega arith)
          | yes lt ↦
              let (j, c, g, s) = reached count (suc i) w.1 n sub e (omega arith) (omega arith) in
              (suc j, c, rw (h, write_commands) g, s)
        ]
  ]
