-- ===== src/Cluster/Gather.antt =====
-- hircluster.c: `command_post_fragment`, which makes one reply of those to the parts of a command. The
-- memory that it asks for is taken to be there. A part is named by its slot.
use mathlib.Core.List.{reverse}
use hiredis_vip.Base.{
  ℕ, zero, suc, ◌-◌, ◌%◌, ◌^◌, ltb, List, [], ◌∷◌, Option, none, some, Bool, true, false, ◌==◌,
  if◌then◌else◌, Bytes, length, get_elem?,
}
use hiredis_vip.Base.Int.{ℤ, pos, negsuc, ◌+ℤ◌}
use hiredis_vip.Command.Types.{CmdType}
use hiredis_vip.Command.Keywords.{codes}
use hiredis_vip.Cluster.Context.{RedisClusterContext, set_error, err_other}
use hiredis_vip.Cluster.Reply.{
  Reply, Replies, reply_string, reply_array, reply_integer, reply_nil, reply_status, reply_error,
  no_more, null_then, reply_then,
}
use hiredis_vip.Cluster.Net.{same_text}
use hiredis_vip.Cluster.Fragment.{is_mget, is_del, is_mset}
pub mod Laws
pub mod Compose
pub mod Counts
mod Tests

-- A sub command's slot and `sub_command->reply`.
abbrev pub Part : Type 0
Part = ℕ × Option Reply

-- A vector of elements as a list, where NULL is `none`, and back.
abbrev pub elements : Replies → List (Option Reply)
elements no_more = []
elements (null_then rs) = none ∷ elements rs
elements (reply_then r rs) = some r ∷ elements rs

abbrev pub prepend : Option Reply → Replies → Replies
prepend none rs = null_then rs
prepend (some r) rs = reply_then r rs

abbrev pub vector : List (Option Reply) → Replies
vector [] = no_more
vector (r ∷ rs) = prepend r (vector rs)

-- How the loop on the parts ends: it goes on with the sum of the integers, or returns.
pub data Checked : Type 0 where
  passed : ℤ → Checked
  returns : Option Reply → Checked
  wrong_type : Bytes → Checked

abbrev is_array : Reply → Bool
is_array (reply_array rs) = true
is_array _ = false

abbrev is_ok : Reply → Bool
is_ok (reply_status str) = same_text str (codes "OK")
is_ok _ = false

-- The sum as a `long long`: where it does not fit 64 bits, which C leaves open, it wraps.
abbrev pub as_long_long : ℤ → ℤ
as_long_long (pos n) =
    let m = n % 2 ^ 64 in if ltb m (2 ^ 63) then pos m else negsuc (2 ^ 64 - 1 - m)
as_long_long (negsuc n) =
    let m = n % 2 ^ 64 in if ltb m (2 ^ 63) then negsuc m else pos (2 ^ 64 - 1 - m)

-- One round, for a reply that is not an error.
abbrev checked : CmdType → Reply → ℤ → Checked
checked type reply count =
    if is_mget type
    then if is_array reply
      then passed count
      else wrong_type (codes "reply type is error(here only can be array)")
    else if is_del type
    then elim reply [
      | reply_integer n ↦ passed (as_long_long (count +ℤ n))
      | _ ↦ wrong_type (codes "reply type is error(here only can be integer)")
    ]
    else if is_mset type
    then if is_ok reply
      then passed count
      else wrong_type (codes "reply type is error(here only can be status and ok)")
    else passed count

abbrev pub check : CmdType → Reply → ℤ → Checked
check type (reply_error str) count = returns (some (reply_error str))
check type reply count = checked type reply count

unfoldable pub check_parts : CmdType → List Part → ℤ → Checked
unfolding same_text
check_parts type [] count = passed count
check_parts type ((slot, none) ∷ parts) count = returns none
check_parts type ((slot, some reply) ∷ parts) count = elim (check type reply count) [
  | passed count' ↦ check_parts type parts count'
  | returns r ↦ returns r
  | wrong_type str ↦ wrong_type str
]

-- `command->frag_seq[i]->reply`, for the part of slot s.
unfoldable pub reply_of : List Part → ℕ → Option Reply
reply_of [] s = none
reply_of ((slot, reply) ∷ parts) s =
    let rest = reply_of parts s in if slot == s then reply else rest

-- `sub_reply->elements` at the start.
abbrev pub elements_of : Option Reply → ℕ
elements_of (some (reply_array rs)) = length (elements rs)
elements_of _ = 0

abbrev pub flat : Option (Option Reply) → Option Reply
flat none = none
flat (some r) = r

-- `sub_reply->element[i]`
abbrev pub element_at : Replies → ℕ → Option Reply
element_at rs i = flat (get_elem? (elements rs) i)

pub data Gathered : Type 0 where
  gathered : Replies → Gathered
  short : Bytes → Gathered

-- The loop for MGET, over the slots of the keys from the last key down. `left` counts the elements that
-- each part still has, and the last argument is the vector from key i + 1 on.
unfoldable pub gather : List ℕ → (ℕ → Option Reply) → (ℕ → ℕ) → Replies → Gathered
gather [] replies left rs = gathered rs
gather (s ∷ frag_seq) replies left rs = elim (replies s) [
  | none ↦ short (codes "sub reply is null")
  | some sub_reply ↦ elim sub_reply [
    | reply_string str ↦ gather frag_seq replies left (reply_then (reply_string str) rs)
    | reply_array element ↦ elim (left s) [
      | zero ↦ short (codes "sub reply elements error")
      | suc n ↦
          gather frag_seq replies (λ k. if k == s then n else left k)
            (prepend (element_at element n) rs)
    ]
    | _ ↦ gather frag_seq replies left (null_then rs)
  ]
]

-- `command_post_fragment`
unfoldable pub command_post_fragment {ℓ} :
    {A : Type ℓ}
    → RedisClusterContext A
    → CmdType
    → List Part
    → List ℕ
    → Option Reply × RedisClusterContext A
unfolding set_error check_parts reply_of gather
command_post_fragment cc type parts frag_seq = elim (check_parts type parts (pos 0)) [
  | returns reply ↦ (reply, cc)
  | wrong_type str ↦ (none, set_error cc err_other str)
  | passed count ↦
      if is_mget type
      then elim (gather (reverse frag_seq) (reply_of parts) (λ s. elements_of (reply_of parts s))
          no_more) [
            | gathered rs ↦ (some (reply_array rs), cc)
            | short str ↦ (none, set_error cc err_other str)
          ]
      else if is_del type
      then (some (reply_integer count), cc)
      else (some (reply_status (codes "OK")), cc)
]
