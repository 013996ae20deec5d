-- ===== src/Cluster/Plan/Laws.antt =====
-- A command with one key goes to the slot of the key.
use hiredis_vip.Base.{
  ℕ, ◌^◌, ◌<◌, List, [], ◌∷◌, map, Option, some, none, Bool, true, false, Bytes, length, slice, ◌≡◌,
  refl, ap, ◌∙◌,
}
use hiredis_vip.Base.Int.{pos}
use hiredis_vip.Slot.{key_hash_slot}
use hiredis_vip.Format.Encode.{encode}
use hiredis_vip.Command.Types.{KeyPos, ParseFault, Cmd}
use hiredis_vip.Command.Keywords.{command_type}
use hiredis_vip.Command.Items.{is_unknown}
use hiredis_vip.Command.Run.Keys.{Records}
use hiredis_vip.Command.Run.Tails.{Short}
use hiredis_vip.Command.Run.Shapes.{Shape}
use hiredis_vip.Command.Roundtrip.{redis_parse_cmd-encode}
use hiredis_vip.Cluster.Context.{RedisClusterContext}
use hiredis_vip.Cluster.Plan.{written, keys_of, place_keys, command_format_by_slot}

written-some : (xs : List KeyPos) → written (map some xs) ≡ xs
written-some [] = refl
written-some (x ∷ xs) = ap (λ l. x ∷ l) (written-some xs)

-- The keys of a parsed command are the places recorded.
pub keys_of-Records :
    {text : Bytes} {keys : List Bytes} (r : Cmd) (found : Records text r.keys keys)
    → keys_of r.keys ≡ found.places
keys_of-Records r found = ap written found.holds.filled ∙ written-some found.places

one_place :
    (text key : Bytes) (places : List KeyPos)
    → map (λ k. slice k.key_start k.key_end text) places ≡ key ∷ []
    → (kp : KeyPos) × (places ≡ kp ∷ []) × (slice kp.key_start kp.key_end text ≡ key)
one_place text key [] e = absurd (cc e)
one_place text key (kp ∷ []) e = (kp, refl, cc e)
one_place text key (kp ∷ kp' ∷ places) e = absurd (cc e)

-- A known command with one key, in the protocol text that the library writes, is planned for the slot
-- of its key and goes whole, on the conditions of the parse of that text: items of the shape of its
-- kind, fewer than 2^31 of them behind the name and each shorter than 2^32 bytes, memory that is
-- served, and no key recorded yet.
pub command_format_by_slot-encode {ℓ} :
    {A : Type ℓ} (grant : ℕ → Bool) (report : Option ParseFault → Bytes)
    (ctx : RedisClusterContext A) (name : Bytes) (items : List Bytes) (key : Bytes) (r : Cmd)
    (num_str : Bytes)
    → ((n : ℕ) → grant n ≡ true)
    → is_unknown (command_type name) ≡ false
    → Shape (command_type name) items (key ∷ [])
    → Short (name ∷ items)
    → length items < 2 ^ 31
    → Records (encode (name ∷ items)) r.keys []
    → command_format_by_slot grant report ctx (encode (name ∷ items)) r num_str
      ≡ some (record { slot = pos (key_hash_slot key); commands = []; frag_seq = none }, ctx)
unfolding command_format_by_slot place_keys encode
command_format_by_slot-encode grant report ctx name items key r num_str served known shape short few
      old =
    let text = encode (name ∷ items) in
    let (r', e, ok, typed, found) =
      redis_parse_cmd-encode grant name items (key ∷ []) r served known shape short few old in
    let (kp, one, at) = one_place text key found.places found.found in
    let keys : keys_of r'.keys ≡ kp ∷ [] = keys_of-Records r' found ∙ one in
    rw (e, ok, keys, at, command_format_by_slot) refl
