-- ===== src/Cluster/Plan.antt =====
-- hircluster.c: `command_format_by_slot`, which parses a command and finds where its keys go.
use hiredis_vip.Base.{ℕ, List, [], ◌∷◌, Option, none, some, Bool, Bytes, take}
use hiredis_vip.Base.Int.{ℤ, pos, negsuc}
use hiredis_vip.Array.{HiArray}
use hiredis_vip.Slot.{key_hash_slot}
use hiredis_vip.Command.Types.{
  CmdType, CmdParseResult, KeyPos, ParseFault, Cmd, parse_ok, parse_enomem,
}
use hiredis_vip.Command.Keywords.{codes}
use hiredis_vip.Command.Parse.{redis_parse_cmd}
use hiredis_vip.Cluster.Context.{RedisClusterContext, set_error, err_other, err_protocol}
use hiredis_vip.Cluster.Fragment.{Fragments, key_text, command_pre_fragment}
pub mod Laws
mod Tests

-- `hiarray_get` at each index, for elements that have been written.
abbrev pub written : List (Option KeyPos) → List KeyPos
written [] = []
written (none ∷ slots) = written slots
written (some kp ∷ slots) = kp ∷ written slots

abbrev pub keys_of : HiArray KeyPos → List KeyPos
keys_of a = written (take a.nelem a.elem)

abbrev pub nowhere : Fragments
nowhere = record { slot = negsuc 0; commands = []; frag_seq = none }

-- A command that has been parsed, by the number of its keys.
unfoldable pub place_keys {ℓ} :
    {A : Type ℓ}
    → RedisClusterContext A
    → CmdType
    → Bytes
    → Bytes
    → List KeyPos
    → Option (Fragments × RedisClusterContext A)
unfolding command_pre_fragment set_error
place_keys cc type text num_str [] = some (
  nowhere,
  set_error cc err_other (codes "No keys in command(must have keys for redis cluster mode)"),
)
place_keys cc type text num_str (kp ∷ []) =
    some
      (record { slot = pos (key_hash_slot (key_text text kp)); commands = []; frag_seq = none }, cc)
place_keys cc type text num_str (kp ∷ kp' ∷ keys) =
    elim (command_pre_fragment type text (kp ∷ kp' ∷ keys) num_str) [
      | none ↦ none
      | some f ↦ some (f, cc)
    ]

-- `command_format_by_slot` of a command that is not empty; `report` prints the error of the parser, and
-- `none` is a read past the end of an MSET.
unfoldable pub command_format_by_slot {ℓ} :
    {A : Type ℓ}
    → (ℕ → Bool)
    → (Option ParseFault → Bytes)
    → RedisClusterContext A
    → Bytes
    → Cmd
    → Bytes
    → Option (Fragments × RedisClusterContext A)
unfolding place_keys redis_parse_cmd set_error
command_format_by_slot grant report cc [] r num_str = some (nowhere, cc)
command_format_by_slot grant report cc (b ∷ text) r num_str =
    elim (redis_parse_cmd grant (b ∷ text) r) [
      | none ↦ none
      | some r' ↦ elim r'.result [
        | parse_ok ↦ place_keys cc r'.type (b ∷ text) num_str (keys_of r'.keys)
        | parse_enomem ↦
            some (nowhere, set_error cc err_protocol (codes "Parse command error: out of memory"))
        | _ ↦ some (nowhere, set_error cc err_protocol (report r'.errstr))
      ]
    ]
