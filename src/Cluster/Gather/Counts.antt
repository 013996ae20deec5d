-- ===== src/Cluster/Gather/Counts.antt =====
-- A split DEL: the counts of its parts add up to the count of the whole.
use hiredis_vip.Base.{
  ℕ, zero, suc, ◌+◌, ◌%◌, ◌^◌, ◌≤◌, ◌<◌, List, [], ◌∷◌, some, Bool, ◌==◌, lt→ltb, if◌then◌else◌,
  Bytes, length, get_elem?, ◌≡◌, refl, ap, ap₂, subst, ◌∙◌, inl, inr, arith, Bool-cases, ==_iff,
  ==_of_ne,
}
use hiredis_vip.Base.Int.{pos, ◌+ℤ◌}
use hiredis_vip.Command.Types.{KeyPos, req_redis_del}
use hiredis_vip.Cluster.Context.{RedisClusterContext}
use hiredis_vip.Cluster.Reply.{reply_integer}
use hiredis_vip.Cluster.Gather.{Part, passed, as_long_long, check_parts, command_post_fragment}
use hiredis_vip.Cluster.Fragment.{SubCommand, Fragments, key_text, command_pre_fragment}
use hiredis_vip.Cluster.Fragment.Partition.{slot_of, in_slot, places}
use hiredis_vip.Cluster.Fragment.Commands.{Files, at_cons}
use hiredis_vip.Cluster.Fragment.Laws.{command_pre_fragment-slots}

-- In how many of the commands a slot is.
unfoldable times_in : ℕ → List SubCommand → ℕ
times_in s [] = 0
times_in s (c ∷ commands) =
    let rest = times_in s commands in if c.slot_num == s then suc rest else rest

-- m times n
times : ℕ → ℕ → ℕ
times zero n = 0
times (suc m) n = n + times m n

times_in-above :
    (s : ℕ) (commands : List SubCommand)
    → ((i : ℕ) (d : SubCommand) → get_elem? commands i ≡ some d → s < d.slot_num)
    → times_in s commands ≡ 0
unfolding times_in
times_in-above s [] above = refl
times_in-above s (c ∷ commands) above =
    let higher = above 0 c refl in
    rw (==_of_ne c.slot_num s (omega arith))
      (times_in-above s commands (λ i d e. above (suc i) d e))

times_in-one :
    (s : ℕ) (commands : List SubCommand) (j : ℕ) (c : SubCommand)
    → ((i k : ℕ) (d e : SubCommand)
        → get_elem? commands i ≡ some d
        → get_elem? commands k ≡ some e
        → i < k
        → d.slot_num < e.slot_num)
    → get_elem? commands j ≡ some c
    → c.slot_num ≡ s
    → times_in s commands ≡ 1
unfolding times_in
times_in-one s [] j c ascending at number = absurd (cc at)
times_in-one s (d ∷ commands) j c ascending at number = elim (at_cons d commands j c at) [
  | inl (_, same) ↦
      let here : d.slot_num ≡ s = ap (λ (x : SubCommand). x.slot_num) same ∙ number in
      let above : (i : ℕ) (e : SubCommand) → get_elem? commands i ≡ some e → s < e.slot_num =
        λ i e at'.
          subst (λ (n : ℕ). n < e.slot_num) here (ascending 0 (suc i) d e refl at' (omega arith)) in
      rw ((==_iff d.slot_num s).1 here) (ap suc (times_in-above s commands above))
  | inr (j', _, at') ↦
      let lower = ascending 0 (suc j') d c refl at' (omega arith) in
      rw (==_of_ne d.slot_num s (omega (arith, number))) (
        times_in-one s commands j' c
          (λ i k x y e e' lt. ascending (suc i) (suc k) x y e e' (omega arith)) at' number)
]

-- `held` says which keys the servers hold.
module _ (text : Bytes) (held : Bytes → Bool) where
  abbrev weight : KeyPos → ℕ
  weight kp = if held (key_text text kp) then 1 else 0

  -- How many of the keys are held.
  abbrev pub count_held : List KeyPos → ℕ
  count_held [] = 0
  count_held (kp ∷ keys) = (if held (key_text text kp) then 1 else 0) + count_held keys

  -- The parts, each with the number of its keys that are held as its reply.
  abbrev pub deleted : List SubCommand → List Part
  deleted [] = []
  deleted (c ∷ commands) =
      (c.slot_num, some (reply_integer (pos (count_held (places c.keys))))) ∷ deleted commands

  abbrev total : List SubCommand → ℕ
  total [] = 0
  total (c ∷ commands) = count_held (places c.keys) + total commands

  -- The same, over the keys of the slot of each command.
  abbrev total_in : List SubCommand → List KeyPos → ℕ
  total_in [] keys = 0
  total_in (c ∷ commands) keys = count_held (in_slot text c.slot_num keys) + total_in commands keys

  count_held-length : (keys : List KeyPos) → count_held keys ≤ length keys
  count_held-length [] = omega arith
  count_held-length (kp ∷ keys) = ground (arith, count_held-length keys)

  total-total_in :
      (commands : List SubCommand) (keys : List KeyPos)
      → ((i : ℕ) (d : SubCommand)
          → get_elem? commands i ≡ some d
          → places d.keys ≡ in_slot text d.slot_num keys)
      → total commands ≡ total_in commands keys
  total-total_in [] keys own = refl
  total-total_in (c ∷ commands) keys own =
      ap₂ (λ (m n : ℕ). m + n) (ap count_held (own 0 c refl))
        (total-total_in commands keys (λ i d e. own (suc i) d e))

  total_in-nil : (commands : List SubCommand) → total_in commands [] ≡ 0
  unfolding in_slot
  total_in-nil [] = refl
  total_in-nil (c ∷ commands) = omega (arith, total_in-nil commands)

  total_in-cons :
      (commands : List SubCommand) (kp : KeyPos) (keys : List KeyPos)
      → total_in commands (kp ∷ keys)
        ≡ times (times_in (slot_of text kp) commands) (weight kp) + total_in commands keys
  unfolding in_slot times_in times
  total_in-cons [] kp keys = refl
  total_in-cons (c ∷ commands) kp keys = elim (Bool-cases (c.slot_num == slot_of text kp)) [
    | inl h ↦ rw (h) (omega (arith, total_in-cons commands kp keys))
    | inr h ↦ rw (h) (omega (arith, total_in-cons commands kp keys))
  ]

  total_in-count :
      (commands : List SubCommand) (keys : List KeyPos)
      → ((i : ℕ) (kp : KeyPos)
          → get_elem? keys i ≡ some kp
          → times_in (slot_of text kp) commands ≡ 1)
      → total_in commands keys ≡ count_held keys
  unfolding times
  total_in-count commands [] once = total_in-nil commands
  total_in-count commands (kp ∷ keys) once =
      let rest = total_in-count commands keys (λ i k e. once (suc i) k e) in
      let one : times (times_in (slot_of text kp) commands) (weight kp) ≡ weight kp =
        ap (λ (m : ℕ). times m (weight kp)) (once 0 kp refl) ∙ omega arith in
      total_in-cons commands kp keys ∙ ap₂ (λ (m n : ℕ). m + n) one rest

  total-count :
      (keys : List KeyPos) (commands : List SubCommand)
      → Files text keys commands
      → total commands ≡ count_held keys
  total-count keys commands files =
      total-total_in commands keys (λ i d e. (files.own i d e).0)
      ∙ total_in-count commands keys (λ i kp e.
        let (j, c, at, number) = files.all i kp e in
        times_in-one (slot_of text kp) commands j c files.ascending at number)

  long_sum : (m n : ℕ) → m + n < 2 ^ 63 → as_long_long (pos m +ℤ pos n) ≡ pos (m + n)
  long_sum m n small =
      let word : (m + n) % 2 ^ 64 ≡ m + n = omega arith in
      rw (word, lt→ltb (m + n) (2 ^ 63) small) refl

  deleted-passed :
      (commands : List SubCommand) (count : ℕ)
      → count + total commands < 2 ^ 63
      → check_parts req_redis_del (deleted commands) (pos count)
        ≡ passed (pos (count + total commands))
  unfolding check_parts
  deleted-passed [] count small = ap (λ (n : ℕ). passed (pos n)) (omega arith)
  deleted-passed (c ∷ commands) count small =
      let n = count_held (places c.keys) in
      ap (λ z. check_parts req_redis_del (deleted commands) z) (long_sum count n (omega arith))
      ∙ deleted-passed commands (count + n) (omega arith)
      ∙ ap (λ (k : ℕ). passed (pos k)) (omega arith)

-- A DEL that is split, and whose parts each come back with the number of their keys that are held,
-- gives the number of all its keys that are held, for fewer than 2^63 keys.
pub command_post_fragment-del {ℓ} :
    {A : Type ℓ} (cc : RedisClusterContext A) (text : Bytes) (held : Bytes → Bool)
    (keys : List KeyPos) (num_str : Bytes) (f : Fragments) (frag_seq : List ℕ)
    → command_pre_fragment req_redis_del text keys num_str ≡ some f
    → f.frag_seq ≡ some frag_seq
    → length keys < 2 ^ 63
    → command_post_fragment cc req_redis_del (deleted text held f.commands) frag_seq
      ≡ (some (reply_integer (pos (count_held text held keys))), cc)
unfolding command_post_fragment
command_post_fragment-del ctx text held keys num_str f frag_seq e e' small =
    elim (command_pre_fragment-slots req_redis_del text keys num_str) [
      | inr (_, mset) ↦ absurd (cc mset)
      | inl (f', at, outcome) ↦
          let same : f' ≡ f = cc (at, e) in
          elim outcome [
            | inl (no_seq, _) ↦ absurd (cc (ap (λ (x : Fragments). x.frag_seq) same, no_seq, e'))
            | inr (seq, (files, several)) ↦
                let files' =
                  subst (Files text keys) (ap (λ (x : Fragments). x.commands) same) files in
                let sum = total-count text held keys f.commands files' in
                let few = count_held-length text held keys in
                rw
                  (
                    deleted-passed text held f.commands 0 (omega (arith, sum)),
                    sum,
                    command_post_fragment,
                  )
                  (ap (λ (n : ℕ). (some (reply_integer (pos n)), ctx)) (omega arith))
          ]
    ]
