-- ===== src/Cluster/Calls.antt =====
-- hircluster.c: the calls of a client that stand on those of Client and Pipeline, and
-- `slot_get_by_command`. How a command is formatted is hiredis.c's.
use hiredis_vip.Base.{ℕ, zero, suc, List, [], ◌∷◌, Option, none, some, Bool, true, false, Bytes}
use hiredis_vip.Base.Int.{ℤ, pos, negsuc}
use hiredis_vip.Slot.{key_hash_slot}
use hiredis_vip.Command.Types.{KeyPos, ParseFault, Cmd, parse_ok}
use hiredis_vip.Command.Keywords.{codes}
use hiredis_vip.Command.Parse.{redis_parse_cmd}
use hiredis_vip.Cluster.Context.{RedisClusterContext, set_error, err_other, err_protocol, err_oom}
use hiredis_vip.Cluster.Net.{Net}
use hiredis_vip.Cluster.Execute.{Run, returned}
use hiredis_vip.Cluster.Fragment.{key_text}
use hiredis_vip.Cluster.Plan.{keys_of}
use hiredis_vip.Cluster.Client.{redis_cluster_formatted_command}
use hiredis_vip.Cluster.Pipeline.{Session, redis_cluster_append_formatted_command}
pub mod Laws
mod Tests

-- What `redisvFormatCommand` returns: -1, -2, or a command. `redisFormatCommandArgv` does not give -2.
pub data Formatted : Type 0 where
  format_oom format_invalid : Formatted
  formatted : Bytes → Formatted

-- `redisClusterSetMaxRedirect`
unfoldable pub set_max_redirect {ℓ} :
    {A : Type ℓ} → RedisClusterContext A → ℤ → RedisClusterContext A
set_max_redirect cc (pos zero) = cc
set_max_redirect cc (pos (suc n)) = record cc { max_redirect_count = suc n }
set_max_redirect cc (negsuc n) = cc

-- The loop on the keys.
unfoldable pub last_key_slot : Bytes → List KeyPos → ℤ → ℤ
unfolding key_hash_slot
last_key_slot text [] slot_num = slot_num
last_key_slot text (kp ∷ keys) slot_num =
    last_key_slot text keys (pos (key_hash_slot (key_text text kp)))

abbrev pub slot_of_keys {ℓ} :
    {A : Type ℓ} → RedisClusterContext A → Bytes → List KeyPos → ℤ × RedisClusterContext A
slot_of_keys cc text [] = (
  negsuc 0,
  set_error cc err_other (codes "no keys in command(must have keys for redis cluster mode)"),
)
slot_of_keys cc text (kp ∷ []) = (pos (key_hash_slot (key_text text kp)), cc)
slot_of_keys cc text (kp ∷ kp' ∷ keys) = (last_key_slot text (kp ∷ kp' ∷ keys) (negsuc 0), cc)

-- `slot_get_by_command`; `none` is the parser's alone.
unfoldable pub slot_get_by_command {ℓ} :
    {A : Type ℓ}
    → (ℕ → Bool)
    → RedisClusterContext A
    → Bytes
    → Cmd
    → Option (ℤ × RedisClusterContext A)
unfolding redis_parse_cmd last_key_slot set_error
slot_get_by_command grant cc [] command = some (negsuc 0, cc)
slot_get_by_command grant cc (b ∷ text) command = elim (redis_parse_cmd grant (b ∷ text) command) [
  | none ↦ none
  | some r ↦ elim r.result [
    | parse_ok ↦ some (slot_of_keys cc (b ∷ text) (keys_of r.keys))
    | _ ↦ some (negsuc 0, set_error cc err_protocol (codes "parse command error"))
  ]
]

module _ {ℓ} {A W : Type ℓ} (net : Net A W) (grant : ℕ → Bool)
    (report : Option ParseFault → Bytes) where
  -- `redisClustervCommand`, and `redisClusterCommandArgv` for what it formats.
  unfoldable pub redis_clusterv_command :
      RedisClusterContext A → Formatted → Cmd → Bytes → W → Option (Run A W)
  unfolding set_error redis_cluster_formatted_command
  redis_clusterv_command cc format_oom command num_str w =
      some (returned none (set_error cc err_oom (codes "Out of memory")) w)
  redis_clusterv_command cc format_invalid command num_str w =
      some (returned none (set_error cc err_other (codes "Invalid format string")) w)
  redis_clusterv_command cc (formatted text) command num_str w =
      redis_cluster_formatted_command net grant report cc text command num_str w

  -- `redisClustervAppendCommand`, and `redisClusterAppendCommandArgv`.
  unfoldable pub redis_clusterv_append_command :
      Formatted → Cmd → Bytes → Session A W → Option (Bool × Session A W)
  unfolding set_error redis_cluster_append_formatted_command
  redis_clusterv_append_command format_oom command num_str s =
      some (false, record s { cc = set_error s.cc err_oom (codes "Out of memory") })
  redis_clusterv_append_command format_invalid command num_str s =
      some (false, record s { cc = set_error s.cc err_other (codes "Invalid format string") })
  redis_clusterv_append_command (formatted text) command num_str s =
      redis_cluster_append_formatted_command net grant report text command num_str s
