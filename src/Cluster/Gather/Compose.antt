-- ===== src/Cluster/Gather/Compose.antt =====
-- A split MGET: the replies to its parts come back together as the reply to the whole.

use hiredis_vip.Base.{
  ℕ, suc, List, [], ◌∷◌, map, Option, none, some, ◌==◌, Bytes, get_elem?, ◌≡◌, refl, sym, ap, subst,
  ◌∙◌, ◌⊎◌, inl, inr, Bool-cases, ==_iff, ==_refl,
}
use hiredis_vip.Base.Int.{ℤ, pos}
use hiredis_vip.Command.Types.{KeyPos, req_redis_mget}
use hiredis_vip.Cluster.Context.{RedisClusterContext}
use hiredis_vip.Cluster.Reply.{Reply, Replies, reply_array}
use hiredis_vip.Cluster.Gather.{
  Part, passed, elements, vector, reply_of, check_parts, command_post_fragment,
}
use hiredis_vip.Cluster.Gather.Laws.{answers, gather-vector}
use hiredis_vip.Cluster.Fragment.{SubCommand, Fragments, key_text, command_pre_fragment}
use hiredis_vip.Cluster.Fragment.Partition.{slot_of, in_slot, places}
use hiredis_vip.Cluster.Fragment.Commands.{Files, at_cons}
use hiredis_vip.Cluster.Fragment.Laws.{command_pre_fragment-slots}

elements-vector : (rs : List (Option Reply)) → elements (vector rs) ≡ rs
elements-vector [] = refl
elements-vector (none ∷ rs) = ap (λ l. none ∷ l) (elements-vector rs)
elements-vector (some r ∷ rs) = ap (λ l. some r ∷ l) (elements-vector rs)

list_cases :
    (xs : List KeyPos) → (xs ≡ []) ⊎ ((x : KeyPos) × (rest : List KeyPos) × (xs ≡ x ∷ rest))
list_cases [] = inl refl
list_cases (x ∷ xs) = inr (x, xs, refl)

-- `value` is what the servers hold under a key.
module _ (text : Bytes) (value : Bytes → Option Reply) where
  abbrev pub values : List KeyPos → List (Option Reply)
  values [] = []
  values (kp ∷ keys) = value (key_text text kp) ∷ values keys

  -- The parts, each with the array of the values of its keys as its reply.
  abbrev pub served : List SubCommand → List Part
  served [] = []
  served (c ∷ commands) =
      (c.slot_num, some (reply_array (vector (values (places c.keys))))) ∷ served commands

  abbrev items : List KeyPos → List Part
  items [] = []
  items (kp ∷ keys) = (slot_of text kp, value (key_text text kp)) ∷ items keys

  items-slots : (keys : List KeyPos) → map (λ x. x.0) (items keys) ≡ map (slot_of text) keys
  items-slots [] = refl
  items-slots (kp ∷ keys) = ap (λ l. slot_of text kp ∷ l) (items-slots keys)

  items-values : (keys : List KeyPos) → map (λ x. x.1) (items keys) ≡ values keys
  items-values [] = refl
  items-values (kp ∷ keys) = ap (λ l. value (key_text text kp) ∷ l) (items-values keys)

  items-answers :
      (s : ℕ) (keys : List KeyPos) → answers s (items keys) ≡ values (in_slot text s keys)
  unfolding answers in_slot
  items-answers s [] = refl
  items-answers s (kp ∷ keys) = elim (Bool-cases (s == slot_of text kp)) [
    | inl h ↦ rw (h) (ap (λ l. value (key_text text kp) ∷ l) (items-answers s keys))
    | inr h ↦ rw (h) (items-answers s keys)
  ]

  -- The loop on the parts lets arrays through.
  served-passed :
      (commands : List SubCommand) (count : ℤ)
      → check_parts req_redis_mget (served commands) count ≡ passed count
  unfolding check_parts
  served-passed [] count = refl
  served-passed (c ∷ commands) count = served-passed commands count

  -- The reply of the part of a slot.
  reply_of-served :
      (commands : List SubCommand) (keys : List KeyPos) (s j : ℕ) (c : SubCommand)
      → ((i : ℕ) (d : SubCommand)
          → get_elem? commands i ≡ some d
          → places d.keys ≡ in_slot text d.slot_num keys)
      → get_elem? commands j ≡ some c
      → c.slot_num ≡ s
      → reply_of (served commands) s ≡ some (reply_array (vector (values (in_slot text s keys))))
  unfolding reply_of
  reply_of-served [] keys s j c own e number = absurd (cc e)
  reply_of-served (d ∷ commands) keys s j c own e number = elim (Bool-cases (d.slot_num == s)) [
    | inl h ↦
        let same : d.slot_num ≡ s = (==_iff d.slot_num s).0 h in
        rw (h) (
          ap (λ l. some (reply_array (vector (values l))))
            (own 0 d refl ∙ ap (λ (n : ℕ). in_slot text n keys) same))
    | inr h ↦ elim (at_cons d commands j c e) [
      | inl (_, same) ↦
          let number' : d.slot_num ≡ s = ap (λ (x : SubCommand). x.slot_num) same ∙ number in
          absurd (cc (h, ap (λ (n : ℕ). n == s) number', ==_refl s))
      | inr (j', _, e') ↦
          rw (h) (reply_of-served commands keys s j' c (λ i x. own (suc i) x) e' number)
    ]
  ]

  in_slot-key :
      (keys : List KeyPos) (s : ℕ) (k : KeyPos) (rest : List KeyPos)
      → in_slot text s keys ≡ k ∷ rest
      → (i : ℕ) × (kp : KeyPos) × (get_elem? keys i ≡ some kp) × (slot_of text kp ≡ s)
  unfolding in_slot
  in_slot-key [] s k rest e = absurd (cc e)
  in_slot-key (kp ∷ keys) s k rest e = elim (Bool-cases (s == slot_of text kp)) [
    | inl h ↦ (0, kp, refl, sym ((==_iff s (slot_of text kp)).0 h))
    | inr h ↦
        let (i, kp', at, number) = in_slot-key keys s k rest (rw (h) at e) in
        (suc i, kp', at, number)
  ]

  parts-answers :
      (keys : List KeyPos) (commands : List SubCommand)
      → Files text keys commands
      → (s : ℕ)
      → (answers s (items keys) ≡ [])
        ⊎ ((rs : Replies) × (reply_of (served commands) s ≡ some (reply_array rs))
            × (elements rs ≡ answers s (items keys)))
  parts-answers keys commands files s = elim (list_cases (in_slot text s keys)) [
    | inl e ↦ inl (items-answers s keys ∙ ap values e)
    | inr (k, rest, e) ↦
        let (i, kp, at, number) = in_slot-key keys s k rest e in
        let (j, c, at', number') = files.all i kp at in
        inr (
          vector (values (in_slot text s keys)),
          reply_of-served commands keys s j c (λ n d g. (files.own n d g).0) at' (number' ∙ number),
          elements-vector _ ∙ sym (items-answers s keys),
        )
  ]

-- An MGET that is split, and whose parts each come back with the values of their keys, gives the
-- values of all its keys in their order.
pub command_post_fragment-mget {ℓ} :
    {A : Type ℓ} (cc : RedisClusterContext A) (text : Bytes) (value : Bytes → Option Reply)
    (keys : List KeyPos) (num_str : Bytes) (f : Fragments) (frag_seq : List ℕ)
    → command_pre_fragment req_redis_mget text keys num_str ≡ some f
    → f.frag_seq ≡ some frag_seq
    → command_post_fragment cc req_redis_mget (served text value f.commands) frag_seq
      ≡ (some (reply_array (vector (values text value keys))), cc)
unfolding command_post_fragment
command_post_fragment-mget ctx text value keys num_str f frag_seq e e' =
    elim (command_pre_fragment-slots req_redis_mget text keys num_str) [
      | inr (_, mset) ↦ absurd (cc mset)
      | inl (f', at, outcome) ↦
          let same : f' ≡ f = cc (at, e) in
          elim outcome [
            | inl (no_seq, _) ↦ absurd (cc (ap (λ (x : Fragments). x.frag_seq) same, no_seq, e'))
            | inr (seq, (files, several)) ↦
                let commands_same : f'.commands ≡ f.commands =
                  ap (λ (x : Fragments). x.commands) same in
                let files' = subst (Files text keys) commands_same files in
                let seq' : frag_seq ≡ map (λ x. x.0) (items text value keys) = cc (
                  sym e' ∙ sym (ap (λ (x : Fragments). x.frag_seq) same) ∙ seq,
                  items-slots text value keys,
                ) in
                let all =
                  gather-vector (reply_of (served text value f.commands)) (items text value keys)
                    (parts-answers text value keys f.commands files') in
                rw
                  (
                    served-passed text value f.commands (pos 0),
                    seq',
                    all,
                    items-values text value keys,
                    command_post_fragment,
                  )
                  refl
          ]
    ]
