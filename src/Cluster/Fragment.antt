-- ===== src/Cluster/Fragment.antt =====
-- hircluster.c: `command_pre_fragment`, which splits a command with many keys into one for each slot.
-- Positions are counted from `command->cmd`, a sub command is named by its slot, and the memory that
-- the split asks for is taken to be there.
use hiredis_vip.Base.{
  ℕ, zero, suc, ◌+◌, ◌-◌, ◌*◌, List, [], ◌∷◌, ◌++◌, Option, none, some, Bool, true, false, ◌==◌,
  ◌&&◌, ◌||◌, leb, if◌then◌else◌, Bytes, length, drop, slice,
}
use hiredis_vip.Base.Int.{ℤ, pos, negsuc}
use hiredis_vip.Array.{u32}
use hiredis_vip.Format.{to_int}
use hiredis_vip.Slot.{key_hash_slot}
use hiredis_vip.Util.{hi_itoa, uint_len, c_string}
use hiredis_vip.Command.Types.{CmdType, req_redis_mget, req_redis_mset, req_redis_del, KeyPos}
use hiredis_vip.Command.Keywords.{codes}
use hiredis_vip.Cluster.{redis_cluster_slots}
pub mod Partition
pub mod Commands
pub mod Texts
pub mod Encodes
pub mod Laws
mod Tests

-- `struct keypos` of a sub command: `remain_len` is what MSET copies behind the key.
pub record SubKey : Type 0 where
  pub at : KeyPos
  pub remain_len : ℕ

-- What the split sets in the `struct cmd` of a sub command.
pub record SubCommand : Type 0 where
  pub keys : List SubKey
  pub narg : ℕ
  pub clen : ℕ
  pub slot_num : ℕ
  pub cmd : Bytes
  pub type : CmdType

abbrev pub is_mget : CmdType → Bool
is_mget req_redis_mget = true
is_mget _ = false

abbrev pub is_del : CmdType → Bool
is_del req_redis_del = true
is_del _ = false

abbrev pub is_mset : CmdType → Bool
is_mset req_redis_mset = true
is_mset _ = false

abbrev pub is_digit : ℕ → Bool
is_digit b = leb b'0' b && leb b b'9'

abbrev pub key_text : Bytes → KeyPos → Bytes
key_text text kp = slice kp.key_start kp.key_end text

-- The way to the first digit: how many bytes stand before it, and the text from it on. A text
-- without a digit is read past its end, `none`.
unfoldable pub skip_to_digit : Bytes → Option (ℕ × Bytes)
skip_to_digit [] = none
skip_to_digit (b ∷ bs) =
    let rest = skip_to_digit bs in
    if is_digit b
    then some (0, b ∷ bs)
    else elim rest [ none ↦ none | some (n, r) ↦ some (n + 1, r) ]

-- The number, and how many digits it has.
unfoldable pub read_number : Bytes → ℕ → ℕ × ℕ
read_number [] len = (len, 0)
read_number (b ∷ bs) len =
    let rest = read_number bs (u32 (len * 10 + (b - b'0'))) in
    if is_digit b then (rest.0, rest.1 + 1) else (len, 0)

-- The branch for MSET in the loop on the keys.
unfoldable pub remain_of : Bytes → KeyPos → Option ℕ
unfolding skip_to_digit read_number
remain_of text kp = elim (skip_to_digit (drop (kp.key_end + 1) text)) [
  | none ↦ none
  | some (n, r) ↦ let number = read_number r 0 in some (u32 (number.0 + 4 + (1 + n + number.1)))
]

-- What `command_get` returns, as far as the split reads it.
abbrev pub blank_sub : CmdType → SubCommand
blank_sub type = record { keys = []; narg = 0; clen = 0; slot_num = 0; cmd = []; type = type }

abbrev pub sub_or_blank : CmdType → Option SubCommand → SubCommand
sub_or_blank type none = blank_sub type
sub_or_blank type (some sub) = sub

abbrev pub SubCommands : Type 0
SubCommands = ℕ → Option SubCommand

-- A key joins the sub command of its slot.
unfoldable pub add_key : CmdType → SubCommands → KeyPos → ℕ → ℕ → SubCommands
add_key type subs kp slot remain n =
    let sub = sub_or_blank type (subs slot) in
    let key_len = u32 (kp.key_end - kp.key_start) in
    if n == slot
    then some (record sub {
      keys = sub.keys ++ (record { at = kp; remain_len = remain } ∷ []);
      narg = u32 (sub.narg + 1);
      clen = u32 (u32 (sub.clen + (key_len + uint_len key_len)) + remain);
      slot_num = slot;
    })
    else subs n

-- How the loop on the keys ends: the sub commands and `frag_seq`, a slot out of range, or a read past
-- the end of the command.
pub data Split : Type 0 where
  split : SubCommands → List ℕ → Split
  bad_slot : ℕ → Split
  overrun : Split

unfoldable pub split_keys : CmdType → Bytes → List KeyPos → SubCommands → List ℕ → Split
unfolding remain_of add_key
split_keys type text [] subs frag_seq = split subs frag_seq
split_keys type text (kp ∷ keys) subs frag_seq =
    let slot = key_hash_slot (key_text text kp) in
    elim (leb redis_cluster_slots slot) [
      | true ↦ bad_slot slot
      | false ↦ elim (if is_mset type then remain_of text kp else some 0) [
        | none ↦ overrun
        | some remain ↦
            split_keys type text keys (add_key type subs kp slot remain) (frag_seq ++ (slot ∷ []))
      ]
    ]

-- One key of the text, over the buffer `num_str`; the last argument says whether a value follows.
unfoldable pub write_keys : Bytes → Bool → List SubKey → Bytes → Bytes × Bytes
write_keys text value [] num_str = ([], num_str)
write_keys text value (key ∷ keys) num_str =
    let key_len = u32 (key.at.key_end - key.at.key_start) in
    let num_str' = hi_itoa num_str (to_int key_len) in
    let rest = write_keys text value keys num_str' in
    let stop = key.at.key_start + key_len + (if value then key.remain_len else 0) in
    (
      b'$'
          ∷ (c_string num_str'
              ++ (13
                  ∷ 10
                  ∷ (slice key.at.key_start stop text
                      ++ ((if value then [] else 13 ∷ 10 ∷ []) ++ rest.0)))),
      rest.1,
    )

-- What stands behind the number of items, and how many bytes it adds with the fixed parts.
abbrev pub header : CmdType → Bytes
header type =
    if is_mget type
    then 13 ∷ 10 ∷ codes "$4" ++ (13 ∷ 10 ∷ codes "mget" ++ (13 ∷ 10 ∷ []))
    else if is_del type
    then 13 ∷ 10 ∷ codes "$3" ++ (13 ∷ 10 ∷ codes "del" ++ (13 ∷ 10 ∷ []))
    else 13 ∷ 10 ∷ codes "$4" ++ (13 ∷ 10 ∷ codes "mset" ++ (13 ∷ 10 ∷ []))

-- The body of the second loop: the number of items, the length and the text of a sub command. A
-- command of another type gets no text.
unfoldable pub write_command : CmdType → Bytes → SubCommand → Bytes → SubCommand × Bytes
unfolding write_keys hi_itoa
write_command type text sub num_str =
    let value = is_mset type in
    let clen = u32 (sub.clen + (if value then 3 else 5) * sub.narg) in
    let narg = u32 ((if value then 2 * sub.narg else sub.narg) + 1) in
    let num_str' = hi_itoa num_str (to_int narg) in
    let num = c_string num_str' in
    let body = write_keys text value sub.keys num_str' in
    if is_mget type || (is_del type || is_mset type)
    then (
      record sub {
        narg = narg;
        clen = u32 (clen + ((if is_del type then 12 else 13) + length num));
        cmd = b'*' ∷ (num ++ (header type ++ body.0));
        type = type;
      },
      body.1,
    )
    else (record sub { type = type }, num_str)

-- The second loop, from slot i on.
unfoldable pub write_commands : ℕ → ℕ → CmdType → Bytes → SubCommands → Bytes → List SubCommand
unfolding write_command
write_commands zero i type text subs num_str = []
write_commands (suc count) i type text subs num_str = elim (subs i) [
  | none ↦ write_commands count (suc i) type text subs num_str
  | some sub ↦
      let w = write_command type text sub num_str in
      w.0 ∷ write_commands count (suc i) type text subs w.1
]

-- What the split comes to: the slot number, the list of commands and `frag_seq`.
pub record Fragments : Type 0 where
  pub slot : ℤ
  pub commands : List SubCommand
  pub frag_seq : Option (List ℕ)

abbrev pub last_slot : List ℕ → ℤ
last_slot [] = negsuc 0
last_slot (s ∷ []) = pos s
last_slot (s ∷ t ∷ rest) = last_slot (t ∷ rest)

-- `command_pre_fragment`; one command alone is not kept. `num_str` is the buffer before its first use.
unfoldable pub command_pre_fragment : CmdType → Bytes → List KeyPos → Bytes → Option Fragments
unfolding split_keys write_commands
command_pre_fragment type text keys num_str = elim (split_keys type text keys (λ s. none) []) [
  | bad_slot slot ↦ some (record { slot = pos slot; commands = []; frag_seq = none })
  | overrun ↦ none
  | split subs frag_seq ↦
      let commands = write_commands redis_cluster_slots 0 type text subs num_str in
      if length commands == 1
      then some (record { slot = last_slot frag_seq; commands = []; frag_seq = none })
      else some
          (record { slot = last_slot frag_seq; commands = commands; frag_seq = some frag_seq })
]
