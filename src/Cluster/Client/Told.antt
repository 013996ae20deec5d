-- ===== src/Cluster/Client/Told.antt =====
-- A plan without a slot comes with an error.
use hiredis_vip.Base.{
  ℕ, length, ◌==◌, List, [], ◌∷◌, map, Option, none, some, Bool, false, Bytes, ◌≡◌, ◌≢◌, refl, sym,
  ap, ◌∙◌, ◌⊎◌, inl, inr, arith, leb, Bool-cases, Option-cases,
}
use hiredis_vip.Base.Int.{ℤ, pos, negsuc}
use hiredis_vip.Command.Types.{
  CmdType, CmdParseResult, parse_ok, parse_enomem, parse_error, parse_repair, parse_again, KeyPos,
  ParseFault, Cmd,
}
use hiredis_vip.Slot.Tag.{key_hash_slot-HashTag}
use hiredis_vip.Cluster.{redis_cluster_slots}
use hiredis_vip.Cluster.Context.{RedisClusterContext, set_error, err_protocol}
use hiredis_vip.Cluster.Fragment.{
  Fragments, key_text, last_slot, write_commands, command_pre_fragment,
}
use hiredis_vip.Cluster.Fragment.Partition.{slot_of, split_keys-Splits}
use hiredis_vip.Cluster.Plan.{keys_of, place_keys, command_format_by_slot}
use hiredis_vip.Command.Parse.{redis_parse_cmd}
use hiredis_vip.Cluster.Client.Closes.{Blamed}

last_slot-some :
    (text : Bytes) (kp : KeyPos) (keys : List KeyPos)
    → (s : ℕ) × (last_slot (map (slot_of text) (kp ∷ keys)) ≡ pos s)
      × (leb redis_cluster_slots s ≡ false)
last_slot-some text kp [] =
    let (_, _, small) = key_hash_slot-HashTag (key_text text kp) in
    (slot_of text kp, refl, ground arith)
last_slot-some text kp (kp' ∷ keys) = last_slot-some text kp' keys

planned_slot : Option Fragments → ℤ
planned_slot none = pos 0
planned_slot (some f) = f.slot

pub pre_fragment-last :
    (type : CmdType) (text : Bytes) (kp : KeyPos) (keys : List KeyPos) (num_str : Bytes)
    (f : Fragments)
    → command_pre_fragment type text (kp ∷ keys) num_str ≡ some f
    → f.slot ≡ last_slot (map (slot_of text) (kp ∷ keys))
unfolding command_pre_fragment planned_slot
pre_fragment-last type text kp keys num_str f e =
    elim (split_keys-Splits type text (kp ∷ keys) (λ s. none) [] (λ n. tt)) [
      | inr (split, mset) ↦ absurd (cc (rw (split, command_pre_fragment) at e))
      | inl (subs, split, held, filed) ↦
          elim (Bool-cases
            (length (write_commands redis_cluster_slots 0 type text subs num_str) == 1)) [
              | inl h ↦ sym (ap planned_slot (rw (split, h, command_pre_fragment) at e))
              | inr h ↦ sym (ap planned_slot (rw (split, h, command_pre_fragment) at e))
            ]
    ]

pub pre_fragment-slot :
    (type : CmdType) (text : Bytes) (kp : KeyPos) (keys : List KeyPos) (num_str : Bytes)
    (f : Fragments)
    → command_pre_fragment type text (kp ∷ keys) num_str ≡ some f
    → (s : ℕ) × (f.slot ≡ pos s) × (leb redis_cluster_slots s ≡ false)
pre_fragment-slot type text kp keys num_str f e =
    let (s, last, small) = last_slot-some text kp keys in
    (s, pre_fragment-last type text kp keys num_str f e ∙ last, small)

-- What `command_format_by_slot` gives has a slot, or a context with an error.
abbrev pub Told {ℓ} : {A : Type ℓ} → Option (Fragments × RedisClusterContext A) → Type 0
Told none = Unit
Told (some (f, cc)) = Blamed (λ n. n ≢ 0) f cc

place_keys-Told {ℓ} :
    {A : Type ℓ} (ctx : RedisClusterContext A) (type : CmdType) (text num_str : Bytes)
    (keys : List KeyPos)
    → Told (place_keys ctx type text num_str keys)
unfolding place_keys set_error
place_keys-Told ctx type text num_str [] = λ n e h. absurd (omega arith)
place_keys-Told ctx type text num_str (kp ∷ []) = λ n e. absurd (cc e)
place_keys-Told ctx type text num_str (kp ∷ kp' ∷ keys) =
    elim (Option-cases (command_pre_fragment type text (kp ∷ kp' ∷ keys) num_str)) [
      | inl e ↦ rw (e, place_keys) tt
      | inr (f, e) ↦
          let (s, slot, _) = pre_fragment-slot type text kp (kp' ∷ keys) num_str f e in
          rw (e, place_keys) (λ n e'. absurd (cc (slot, e')))
    ]

some_error : (k : ℕ) → negsuc 0 ≡ negsuc k → err_protocol ≢ 0
some_error k e h = absurd (omega arith)

pub result_cases :
    (x : CmdParseResult)
    → (x ≡ parse_ok)
      ⊎ ((x ≡ parse_enomem) ⊎ ((x ≡ parse_error) ⊎ ((x ≡ parse_repair) ⊎ (x ≡ parse_again))))
result_cases parse_ok = inl refl
result_cases parse_enomem = inr (inl refl)
result_cases parse_error = inr (inr (inl refl))
result_cases parse_repair = inr (inr (inr (inl refl)))
result_cases parse_again = inr (inr (inr (inr refl)))

pub format-Told {ℓ} :
    {A : Type ℓ} (grant : ℕ → Bool) (report : Option ParseFault → Bytes)
    (ctx : RedisClusterContext A) (b : ℕ) (text : Bytes) (r : Cmd) (num_str : Bytes)
    → Told (command_format_by_slot grant report ctx (b ∷ text) r num_str)
unfolding command_format_by_slot set_error
format-Told grant report ctx b text r num_str =
    elim (Option-cases (redis_parse_cmd grant (b ∷ text) r)) [
      | inl e ↦ rw (e, command_format_by_slot) tt
      | inr (r', e) ↦ elim (result_cases r'.result) [
        | inl h ↦
            rw (e, h, command_format_by_slot)
              (place_keys-Told ctx r'.type (b ∷ text) num_str (keys_of r'.keys))
        | inr (inl h) ↦ rw (e, h, command_format_by_slot) some_error
        | inr (inr (inl h)) ↦ rw (e, h, command_format_by_slot) some_error
        | inr (inr (inr (inl h))) ↦ rw (e, h, command_format_by_slot) some_error
        | inr (inr (inr (inr h))) ↦ rw (e, h, command_format_by_slot) some_error
      ]
    ]
