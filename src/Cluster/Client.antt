-- ===== src/Cluster/Client.antt =====
-- hircluster.c: `redisClusterFormattedCommand`, which plans a command by its slots, executes it or its
-- parts, and joins the replies.
use hiredis_vip.Base.{
  ℕ, List, [], ◌∷◌, Option, none, some, Bool, true, false, ◌==◌, leb, if◌then◌else◌, Bytes, take,
}
use hiredis_vip.Base.Int.{ℤ, pos, negsuc}
use hiredis_vip.Command.Types.{CmdType, unknown, ParseFault, Cmd}
use hiredis_vip.Command.Keywords.{codes}
use hiredis_vip.Command.Parse.{redis_parse_cmd}
use hiredis_vip.Cluster.{redis_cluster_slots}
use hiredis_vip.Cluster.Context.{RedisClusterContext, set_error, err_other}
use hiredis_vip.Cluster.Reply.{Reply, reply_error}
use hiredis_vip.Cluster.Net.{Net}
use hiredis_vip.Cluster.Execute.{Request, Run, returned, out_of_fuel, redis_cluster_command_execute}
use hiredis_vip.Cluster.Fragment.{SubCommand, Fragments}
use hiredis_vip.Cluster.Plan.{command_format_by_slot}
use hiredis_vip.Cluster.Gather.{Part, command_post_fragment}
pub mod Ends
pub mod Closes
pub mod Told
pub mod Laws
pub mod Mget
pub mod Samples
mod Tests

-- `reply->type == REDIS_REPLY_ERROR`
abbrev pub is_error : Reply → Bool
is_error (reply_error str) = true
is_error _ = false

-- What the parts come to: a reply to each of them, or what the function returns at once.
pub data PartReplies {ℓ} (A W : Type ℓ) : Type ℓ where
  collected : List Part → RedisClusterContext A → W → PartReplies A W
  stopped : Option Reply → RedisClusterContext A → W → PartReplies A W
  parts_out_of_fuel : PartReplies A W

-- The bytes of a sub command that are sent: `clen` of its text.
abbrev pub request_of : SubCommand → Request
request_of sub = record { text = take sub.clen sub.cmd; slot_num = sub.slot_num }

-- `command->type` behind the parse.
abbrev pub parsed_type : (ℕ → Bool) → Bytes → Cmd → CmdType
parsed_type grant text r = elim (redis_parse_cmd grant text r) [
  | none ↦ unknown
  | some r' ↦ r'.type
]

abbrev pub sequence : Option (List ℕ) → List ℕ
sequence none = []
sequence (some frag_seq) = frag_seq

-- The error that stands from before is taken back.
abbrev pub without_error {ℓ} : {A : Type ℓ} → RedisClusterContext A → RedisClusterContext A
without_error cc = if cc.err == 0 then cc else record cc { err = 0; errstr = [] }

module _ {ℓ} {A W : Type ℓ} where
  -- Both labels at the end: `cc->retry_count = 0`.
  abbrev pub finished : Option Reply → RedisClusterContext A → W → Run A W
  finished reply cc w = returned reply (record cc { retry_count = 0 }) w

  abbrev pub finished_run : Run A W → Run A W
  finished_run (returned reply cc w) = finished reply cc w
  finished_run out_of_fuel = out_of_fuel

  -- A reply to the first of the parts.
  abbrev pub with_part : Part → PartReplies A W → PartReplies A W
  with_part part (collected parts cc w) = collected (part ∷ parts) cc w
  with_part part (stopped reply cc w) = stopped reply cc w
  with_part part parts_out_of_fuel = parts_out_of_fuel

  -- What stands behind the loop.
  unfoldable pub joined_parts : CmdType → List ℕ → PartReplies A W → Run A W
  unfolding command_post_fragment
  joined_parts type frag_seq parts_out_of_fuel = out_of_fuel
  joined_parts type frag_seq (stopped reply cc w) = finished reply cc w
  joined_parts type frag_seq (collected parts cc w) =
      let r = command_post_fragment cc type parts frag_seq in finished r.0 r.1 w

module _ {ℓ} {A W : Type ℓ} (net : Net A W) where
  -- The loop on the sub commands.
  unfoldable pub execute_parts : List SubCommand → RedisClusterContext A → W → PartReplies A W
  unfolding redis_cluster_command_execute
  execute_parts [] cc w = collected [] cc w
  execute_parts (sub ∷ commands) cc w =
      elim (redis_cluster_command_execute net (request_of sub) cc w) [
        | out_of_fuel ↦ parts_out_of_fuel
        | returned r cc' w' ↦ elim r [
          | none ↦ stopped none cc' w'
          | some reply ↦ elim (is_error reply) [
            | true ↦ stopped (some reply) cc' w'
            | false ↦ with_part (sub.slot_num, some reply) (execute_parts commands cc' w')
          ]
        ]
      ]

  -- From the plan on.
  unfoldable pub execute_plan : CmdType → Bytes → Fragments → RedisClusterContext A → W → Run A W
  unfolding set_error redis_cluster_command_execute execute_parts joined_parts
  execute_plan type text f cc w = elim f.slot [
    | negsuc n ↦ finished none cc w
    | pos slot ↦ elim (leb redis_cluster_slots slot) [
      | true ↦ finished none (set_error cc err_other (codes "slot_num is out of range")) w
      | false ↦ elim f.commands [
        | [] ↦
            finished_run
              (redis_cluster_command_execute net (record { text = text; slot_num = slot }) cc w)
        | sub ∷ commands ↦
            joined_parts type (sequence f.frag_seq) (execute_parts (sub ∷ commands) cc w)
      ]
    ]
  ]

  -- `redisClusterFormattedCommand` of a context, for the command that `command_get` gives; `none` is a
  -- read past the end of an MSET.
  unfoldable pub redis_cluster_formatted_command :
      (ℕ → Bool)
      → (Option ParseFault → Bytes)
      → RedisClusterContext A
      → Bytes
      → Cmd
      → Bytes
      → W
      → Option (Run A W)
  unfolding command_format_by_slot execute_plan
  redis_cluster_formatted_command grant report cc text command num_str w =
      elim (command_format_by_slot grant report (without_error cc) text command num_str) [
        | none ↦ none
        | some planned ↦
            some (execute_plan (parsed_type grant text command) text planned.0 planned.1 w)
      ]
