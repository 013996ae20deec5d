-- ===== src/Cluster/Client/Mget.antt =====
-- An MGET from its text to its reply: the plan, the commands to the nodes, and the reply to the whole.
use hiredis_vip.Base.{
  ℕ, suc, List, [], ◌∷◌, Option, some, Bool, true, Bytes, leb, false, ◌≢◌, ◌≡◌, refl, sym, ap, ◌∙◌,
  get_elem?, map, ap₂, slice, length, ◌^◌, ◌<◌, Option-cases, inl, inr,
}
use hiredis_vip.Format.Encode.{encode}
use hiredis_vip.Command.Keywords.{command_type}
use hiredis_vip.Command.Kinds.{redis_argx}
use hiredis_vip.Command.Items.{is_unknown}
use hiredis_vip.Command.Run.Keys.{Records}
use hiredis_vip.Command.Run.Tails.{Short}
use hiredis_vip.Command.Run.Shapes.{Shape, all_keys}
use hiredis_vip.Command.Roundtrip.{redis_parse_cmd-encode}
use hiredis_vip.Cluster.Plan.Laws.{keys_of-Records}
use hiredis_vip.Command.Types.{Cmd, KeyPos, ParseFault, req_redis_mget}
use hiredis_vip.Cluster.Context.{RedisClusterContext}
use hiredis_vip.Cluster.Reply.{Reply, reply_array}
use hiredis_vip.Cluster.Net.{Net}
use hiredis_vip.Cluster.Execute.{returned, redis_cluster_command_execute}
use hiredis_vip.Cluster.Fragment.{SubCommand, Fragments, key_text, command_pre_fragment}
use hiredis_vip.Cluster.Fragment.Partition.{slot_of, places}
use hiredis_vip.Cluster.Plan.{keys_of, place_keys, command_format_by_slot}
use hiredis_vip.Cluster.Gather.{vector}
use hiredis_vip.Cluster.Gather.Compose.{values, served, command_post_fragment-mget}
use hiredis_vip.Cluster.Client.Closes.{commands_cases}
use hiredis_vip.Cluster.Client.Told.{pre_fragment-slot}
use hiredis_vip.Cluster.Fragment.Laws.{command_pre_fragment-slots}
use hiredis_vip.Base.Int.{pos}
use hiredis_vip.Cluster.{redis_cluster_slots}
use hiredis_vip.Cluster.Client.{
  collected, request_of, parsed_type, sequence, finished, without_error, execute_parts,
  joined_parts, execute_plan, redis_cluster_formatted_command,
}

module _ {ℓ} {A W : Type ℓ} (net : Net A W) (text : Bytes) (value : Bytes → Option Reply)
    (Good : RedisClusterContext A → W → Type ℓ) where
  -- From a state that is good, the command of each part comes back with the values of its keys, in a
  -- state that is good.
  abbrev pub Serves : List SubCommand → Type ℓ
  Serves commands =
      (i : ℕ) (sub : SubCommand)
      → get_elem? commands i ≡ some sub
      → (ctx : RedisClusterContext A) (w : W) → Good ctx w
      → (ctx' : RedisClusterContext A) × (w' : W) × Good ctx' w'
        × (redis_cluster_command_execute net (request_of sub) ctx w
            ≡ returned (some (reply_array (vector (values text value (places sub.keys))))) ctx' w')

  execute_parts-served :
      (commands : List SubCommand) (ctx : RedisClusterContext A) (w : W)
      → Serves commands
      → Good ctx w
      → (ctx' : RedisClusterContext A) × (w' : W) × (execute_parts net commands ctx w
          ≡ collected (served text value commands) ctx' w')
  unfolding execute_parts
  execute_parts-served [] ctx w serves good = (ctx, w, refl)
  execute_parts-served (sub ∷ commands) ctx w serves good =
      let (ctx1, w1, good1, e1) = serves 0 sub refl ctx w good in
      let (ctx2, w2, e2) =
        execute_parts-served commands ctx1 w1 (λ i c e. serves (suc i) c e) good1 in
      (ctx2, w2, rw (e1, e2, execute_parts) refl)

values-slices :
    (text : Bytes) (value : Bytes → Option Reply) (places : List KeyPos) (keys : List Bytes)
    → map (λ k. slice k.key_start k.key_end text) places ≡ keys
    → values text value places ≡ map value keys
values-slices text value [] [] e = refl
values-slices text value [] (k ∷ keys) e = absurd (cc e)
values-slices text value (kp ∷ places) [] e = absurd (cc e)
values-slices text value (kp ∷ places) (k ∷ keys) e =
    let head : key_text text kp ≡ k = cc e in
    let tail : map (λ p. slice p.key_start p.key_end text) places ≡ keys = cc e in
    ap₂ (λ x xs. value x ∷ xs) head (values-slices text value places keys tail)

two_places :
    (text k k' : Bytes) (keys : List Bytes) (places : List KeyPos)
    → map (λ p. slice p.key_start p.key_end text) places ≡ k ∷ k' ∷ keys
    → (kp : KeyPos) × (kp' : KeyPos) × (rest : List KeyPos) × (places ≡ kp ∷ kp' ∷ rest)
two_places text k k' keys [] e = absurd (cc e)
two_places text k k' keys (kp ∷ []) e = absurd (cc e)
two_places text k k' keys (kp ∷ kp' ∷ rest) e = (kp, kp', rest, refl)

-- What is known of the plan of an MGET: the split of its keys, and their values.
record Planned (text : Bytes) (keys : List Bytes) (num_str : Bytes) (f : Fragments) : Type 0 where
  kp : KeyPos
  more : List KeyPos
  split : command_pre_fragment req_redis_mget text (kp ∷ more) num_str ≡ some f
  found : map (λ p. slice p.key_start p.key_end text) (kp ∷ more) ≡ keys

placed {ℓ} :
    {A : Type ℓ} (ctx planned : RedisClusterContext A) (text num_str : Bytes) (kp kp' : KeyPos)
    (rest : List KeyPos) (f : Fragments)
    → place_keys ctx req_redis_mget text num_str (kp ∷ kp' ∷ rest) ≡ some (f, planned)
    → (command_pre_fragment req_redis_mget text (kp ∷ kp' ∷ rest) num_str ≡ some f)
      × (planned ≡ ctx)
unfolding place_keys
placed ctx planned text num_str kp kp' rest f e =
    elim (Option-cases (command_pre_fragment req_redis_mget text (kp ∷ kp' ∷ rest) num_str)) [
      | inl h ↦ absurd (cc (rw (h, place_keys) at e))
      | inr (f', h) ↦
          let same : f' ≡ f = cc (rw (h, place_keys) at e) in
          (h ∙ ap some same, cc (rw (h, place_keys) at e))
    ]

-- A split of two keys or more has a slot, and where it has parts it has a sequence.
split-parts :
    (text : Bytes) (kp : KeyPos) (more : List KeyPos) (num_str : Bytes) (f : Fragments)
    → command_pre_fragment req_redis_mget text (kp ∷ more) num_str ≡ some f
    → f.commands ≢ []
    → (f.frag_seq ≡ some (map (slot_of text) (kp ∷ more)))
      × ((s : ℕ) × (f.slot ≡ pos s) × (leb redis_cluster_slots s ≡ false))
split-parts text kp more num_str f e some_part =
    let slot = pre_fragment-slot req_redis_mget text kp more num_str f e in
    elim (command_pre_fragment-slots req_redis_mget text (kp ∷ more) num_str) [
      | inr (_, mset) ↦ absurd (cc mset)
      | inl (f', at, outcome) ↦
          let same : f' ≡ f = cc (at, e) in
          elim outcome [
            | inl (_, empty_all) ↦
                absurd (some_part (sym (ap (λ (x : Fragments). x.commands) same) ∙ empty_all.0))
            | inr (seq, _) ↦ (sym (ap (λ (x : Fragments). x.frag_seq) same) ∙ seq, slot)
          ]
    ]

execute_plan-parts {ℓ} :
    {A W : Type ℓ} (net : Net A W) (text : Bytes) (f : Fragments) (ctx : RedisClusterContext A)
    (w : W) (s : ℕ)
    → f.slot ≡ pos s
    → leb redis_cluster_slots s ≡ false
    → f.commands ≢ []
    → execute_plan net req_redis_mget text f ctx w
      ≡ joined_parts req_redis_mget (sequence f.frag_seq) (execute_parts net f.commands ctx w)
unfolding execute_plan
execute_plan-parts net text f ctx w s slot small some_part = elim (commands_cases f.commands) [
  | inl empty ↦ absurd (some_part empty)
  | inr (sub, commands, at) ↦ rw (slot, small, at, execute_plan) refl
]

-- From the plan of an MGET with parts on.
execute_plan-mget {ℓ} :
    {A W : Type ℓ} (net : Net A W) (value : Bytes → Option Reply)
    (Good : RedisClusterContext A → W → Type ℓ) (text num_str : Bytes) (keys : List Bytes)
    (f : Fragments) (ctx : RedisClusterContext A) (w : W)
    → Planned text keys num_str f
    → f.commands ≢ []
    → Serves net text value Good f.commands
    → Good ctx w
    → (ctx' : RedisClusterContext A) × (w' : W) × (execute_plan net req_redis_mget text f ctx w
        ≡ returned (some (reply_array (vector (map value keys)))) ctx' w')
      × (ctx'.retry_count ≡ 0)
unfolding execute_plan joined_parts
execute_plan-mget net value Good text num_str keys f ctx w plan some_part serves good =
    let (seq, (s, slot, small)) =
      split-parts text plan.kp plan.more num_str f plan.split some_part in
    let (ctx', w', run) = execute_parts-served net text value Good f.commands ctx w serves good in
    let joined =
      command_post_fragment-mget ctx' text value (plan.kp ∷ plan.more) num_str f _ plan.split seq in
    let found = values-slices text value (plan.kp ∷ plan.more) keys plan.found in
    (
      record ctx' { retry_count = 0 },
      w',
      execute_plan-parts net text f ctx w s slot small some_part
          ∙ ap₂ (λ q p. joined_parts req_redis_mget (sequence q) p) seq run
          ∙ ap (λ r. finished r.0 r.1 w') joined
          ∙ ap (λ vs. finished (some (reply_array (vector vs))) ctx' w') found,
      refl,
    )

module _ {ℓ} {A : Type ℓ} (grant : ℕ → Bool) (report : Option ParseFault → Bytes)
    (name k k' : Bytes) (keys : List Bytes) (command : Cmd) (num_str : Bytes)
    (served : (n : ℕ) → grant n ≡ true) (mget : command_type name ≡ req_redis_mget)
    (short : Short (name ∷ k ∷ k' ∷ keys)) (few : length (k ∷ k' ∷ keys) < 2 ^ 31)
    (old : Records (encode (name ∷ k ∷ k' ∷ keys)) command.keys []) where
  mget-Planned :
      (ctx planned : RedisClusterContext A) (f : Fragments)
      → command_format_by_slot grant report ctx (encode (name ∷ k ∷ k' ∷ keys)) command num_str
        ≡ some (f, planned)
      → Planned (encode (name ∷ k ∷ k' ∷ keys)) (k ∷ k' ∷ keys) num_str f
        × (planned ≡ ctx)
        × (parsed_type grant (encode (name ∷ k ∷ k' ∷ keys)) command ≡ req_redis_mget)
  unfolding command_format_by_slot encode is_unknown redis_argx
  mget-Planned ctx planned f e =
      let text = encode (name ∷ k ∷ k' ∷ keys) in
      let known : is_unknown (command_type name) ≡ false = rw (mget) refl in
      let shape : Shape (command_type name) (k ∷ k' ∷ keys) (k ∷ k' ∷ keys) =
        all_keys (rw (mget) refl) k (k' ∷ keys) in
      let (r', run, ok, typed, recorded) =
        redis_parse_cmd-encode grant name (k ∷ k' ∷ keys) (k ∷ k' ∷ keys) command served known shape
          short few old in
      let (kp, kp', rest, two) = two_places text k k' keys recorded.places recorded.found in
      let at : keys_of r'.keys ≡ kp ∷ kp' ∷ rest = keys_of-Records r' recorded ∙ two in
      let type : r'.type ≡ req_redis_mget = typed ∙ mget in
      let found = rw (two) at recorded.found in
      let plan = rw (run, ok, at, type, command_format_by_slot) at e in
      let (split, same) = placed ctx planned text num_str kp kp' rest f plan in
      (
        record { kp = kp; more = kp' ∷ rest; split = split; found = found },
        same,
        rw (run, parsed_type) type,
      )

  -- An MGET of two keys or more, in the protocol text that the library writes, is answered with the
  -- values of its keys in their order, and no retry is counted in the context, if its keys stand in more
  -- than one slot, and from a state that is good, as the first is, the command of each part comes back
  -- with the values of the keys of the part in a state that is good again. The
  -- conditions of the parse of that text hold: fewer than 2^31 keys, each item shorter than 2^32 bytes,
  -- memory that is served, and no key recorded yet.
  pub redis_cluster_formatted_command-mget :
      {W : Type ℓ} (net : Net A W) (value : Bytes → Option Reply)
      (Good : RedisClusterContext A → W → Type ℓ) (ctx planned : RedisClusterContext A)
      (f : Fragments) (w : W)
      → command_format_by_slot grant report
          (without_error ctx)
          (encode (name ∷ k ∷ k' ∷ keys))
          command
          num_str
        ≡ some (f, planned)
      → f.commands ≢ []
      → Serves net (encode (name ∷ k ∷ k' ∷ keys)) value Good f.commands
      → Good planned w
      → (ctx' : RedisClusterContext A) × (w' : W) × (redis_cluster_formatted_command net grant
            report ctx
            (encode (name ∷ k ∷ k' ∷ keys))
            command
            num_str
            w
          ≡ some (returned (some (reply_array (vector (map value (k ∷ k' ∷ keys))))) ctx' w'))
        × (ctx'.retry_count ≡ 0)
  unfolding redis_cluster_formatted_command
  redis_cluster_formatted_command-mget net value Good ctx planned f w e some_part serves good =
      let text = encode (name ∷ k ∷ k' ∷ keys) in
      let (plan, same, type) = mget-Planned (without_error ctx) planned f e in
      let (ctx', w', run, count) =
        execute_plan-mget net value Good text num_str (k ∷ k' ∷ keys) f planned w plan some_part
          serves good in
      (ctx', w', rw (e, type, run, redis_cluster_formatted_command) refl, count)
