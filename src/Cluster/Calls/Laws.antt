-- ===== src/Cluster/Calls/Laws.antt =====
-- The slot of a command, by itself and in its plan.
use hiredis_vip.Base.{
  ℕ, List, [], ◌∷◌, map, Option, none, some, Bool, Bytes, ◌≡◌, refl, sym, ap, ◌∙◌, inl, inr,
  Option-cases,
}
use hiredis_vip.Base.Int.{ℤ, pos, negsuc}
use hiredis_vip.Command.Types.{CmdType, KeyPos, ParseFault, Cmd}
use hiredis_vip.Command.Parse.{redis_parse_cmd}
use hiredis_vip.Cluster.Context.{RedisClusterContext, set_error, err_protocol}
use hiredis_vip.Command.Keywords.{codes}
use hiredis_vip.Cluster.Fragment.{Fragments, last_slot, command_pre_fragment}
use hiredis_vip.Cluster.Fragment.Partition.{slot_of}
use hiredis_vip.Cluster.Plan.{keys_of, place_keys, command_format_by_slot}
use hiredis_vip.Cluster.Client.Told.{pre_fragment-last, result_cases}
use hiredis_vip.Cluster.Calls.{last_key_slot, slot_of_keys, slot_get_by_command}

last_key-last :
    (text : Bytes) (kp : KeyPos) (keys : List KeyPos) (slot_num : ℤ)
    → last_key_slot text (kp ∷ keys) slot_num ≡ last_slot (map (slot_of text) (kp ∷ keys))
unfolding last_key_slot
last_key-last text kp [] slot_num = refl
last_key-last text kp (kp' ∷ keys) slot_num = last_key-last text kp' keys (pos (slot_of text kp))

slot_in {ℓ} : {A : Type ℓ} → Option (Fragments × RedisClusterContext A) → ℤ
slot_in none = negsuc 0
slot_in (some (f, ctx)) = f.slot

slot_of_keys-place {ℓ} :
    {A : Type ℓ} (ctx planned : RedisClusterContext A) (type : CmdType) (text num_str : Bytes)
    (keys : List KeyPos) (f : Fragments)
    → place_keys ctx type text num_str keys ≡ some (f, planned)
    → (slot_of_keys ctx text keys).0 ≡ f.slot
unfolding place_keys slot_in
slot_of_keys-place ctx planned type text num_str [] f e = cc (ap slot_in e)
slot_of_keys-place ctx planned type text num_str (kp ∷ []) f e = cc (ap slot_in e)
slot_of_keys-place ctx planned type text num_str (kp ∷ kp' ∷ keys) f e =
    elim (Option-cases (command_pre_fragment type text (kp ∷ kp' ∷ keys) num_str)) [
      | inl h ↦ absurd (cc (rw (h, place_keys) at e))
      | inr (f', h) ↦
          let same : f' ≡ f = cc (rw (h, place_keys) at e) in
          last_key-last text kp (kp' ∷ keys) (negsuc 0)
          ∙ sym (pre_fragment-last type text kp (kp' ∷ keys) num_str f' h)
          ∙ ap (λ (x : Fragments). x.slot) same
    ]

-- `slot_get_by_command` gives the slot that `command_format_by_slot` plans for the same command, -1
-- included, whatever errors either records.
pub slot_get_by_command-format {ℓ} :
    {A : Type ℓ} (grant : ℕ → Bool) (report : Option ParseFault → Bytes)
    (ctx planned : RedisClusterContext A) (text : Bytes) (command : Cmd) (num_str : Bytes)
    (f : Fragments)
    → command_format_by_slot grant report ctx text command num_str ≡ some (f, planned)
    → (ctx' : RedisClusterContext A) × (slot_get_by_command grant ctx text command
        ≡ some (f.slot, ctx'))
unfolding command_format_by_slot slot_get_by_command slot_in
slot_get_by_command-format grant report ctx planned [] command num_str f e =
    (ctx, ap (λ s. some (s, ctx)) (ap slot_in e))
slot_get_by_command-format grant report ctx planned (b ∷ text) command num_str f e =
    let failed = set_error ctx err_protocol (codes "parse command error") in
    elim (Option-cases (redis_parse_cmd grant (b ∷ text) command)) [
      | inl h ↦ absurd (cc (rw (h, command_format_by_slot) at e))
      | inr (r, h) ↦ elim (result_cases r.result) [
        | inl h' ↦
            let keys = keys_of r.keys in
            let found =
              slot_of_keys-place ctx planned r.type (b ∷ text) num_str keys f
                (rw (h, h', command_format_by_slot) at e) in
            (
              (slot_of_keys ctx (b ∷ text) keys).1,
              rw (h, h', slot_get_by_command)
                  (ap (λ s. some (s, (slot_of_keys ctx (b ∷ text) keys).1)) found),
            )
        | inr (inl h') ↦ (
          failed,
          rw (h, h', slot_get_by_command)
              (ap (λ s. some (s, failed)) (ap slot_in (rw (h, h', command_format_by_slot) at e))),
        )
        | inr (inr (inl h')) ↦ (
          failed,
          rw (h, h', slot_get_by_command)
              (ap (λ s. some (s, failed)) (ap slot_in (rw (h, h', command_format_by_slot) at e))),
        )
        | inr (inr (inr (inl h'))) ↦ (
          failed,
          rw (h, h', slot_get_by_command)
              (ap (λ s. some (s, failed)) (ap slot_in (rw (h, h', command_format_by_slot) at e))),
        )
        | inr (inr (inr (inr h'))) ↦ (
          failed,
          rw (h, h', slot_get_by_command)
              (ap (λ s. some (s, failed)) (ap slot_in (rw (h, h', command_format_by_slot) at e))),
        )
      ]
    ]
