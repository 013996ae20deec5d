-- ===== src/Format.antt =====
-- hiredis.c: `redisFormatSdsCommandArgv`, which writes a command in the redis protocol.
use hiredis_vip.Base.{
  ℕ, zero, suc, ◌+◌, ◌-◌, List, [], ◌∷◌, ◌++◌, Bytes, Option, none, some, length, ◌%◌, ◌^◌, ltb,
  if◌then◌else◌, Bool,
}
use hiredis_vip.Base.Int.{ℤ, pos, negsuc}
use hiredis_vip.Decimal.{count_digits, bulklen}
use hiredis_vip.Sds.{Sds, FmtArg, signed_arg, unsigned_arg, empty, make_room_for, cat_len, cat_fmt}
pub mod Encode
mod Tests

-- What a call comes to: the length that it returns with the command, the result -1, or a fault (a
-- null pointer that is not looked at).
pub data Formatted : Type 0 where
  formatted : ℤ → Bytes → Formatted
  minus_one fault : Formatted

-- `return totlen` as an `int`
abbrev pub to_int : ℕ → ℤ
to_int n = let w = n % 2 ^ 32 in if ltb w (2 ^ 31) then pos w else negsuc (2 ^ 32 - 1 - w)

-- The sum of the lengths of the items, each by `bulklen`.
unfoldable pub items_len : List Bytes → Option ℕ
items_len [] = some 0
items_len (a ∷ argv) = elim (bulklen (length a)) [
  | none ↦ none
  | some n ↦ elim (items_len argv) [ none ↦ none | some rest ↦ some (n + rest) ]
]

-- `totlen`
unfoldable pub total_len : List Bytes → Option ℕ
total_len argv = elim (count_digits (length argv)) [
  | none ↦ none
  | some digits ↦ elim (items_len argv) [ none ↦ none | some n ↦ some (1 + digits + 2 + n) ]
]

-- "*%i\r\n" and "$%T\r\n"
abbrev pub count_format : Bytes
count_format = b'*' ∷ b'%' ∷ b'i' ∷ 13 ∷ 10 ∷ []

abbrev pub length_format : Bytes
length_format = b'$' ∷ b'%' ∷ b'T' ∷ 13 ∷ 10 ∷ []

module _ (grant : ℕ → Bool) where
  -- The loop that constructs the command; the lengths are those of `argvlen`.
  unfoldable pub append_items : Sds → List Bytes → Option Sds
  append_items s [] = some s
  append_items s (a ∷ argv) = elim (cat_fmt grant s length_format (unsigned_arg (length a) ∷ [])) [
    | none ↦ none
    | some s₁ ↦ elim (cat_len grant s₁ a) [
      | none ↦ none
      | some s₂ ↦ elim (cat_len grant s₂ (13 ∷ 10 ∷ [])) [
        | none ↦ none
        | some s₃ ↦ append_items s₃ argv
      ]
    ]
  ]

  unfoldable pub construct : Sds → List Bytes → ℕ → Formatted
  construct s argv totlen =
      elim (cat_fmt grant s count_format (signed_arg (pos (length argv)) ∷ [])) [
        | none ↦ fault
        | some s' ↦ elim (append_items s' argv) [
          | none ↦ fault
          | some cmd ↦ formatted (to_int totlen) cmd.buf
        ]
      ]

  unfoldable pub format_sds_command_argv : List Bytes → Formatted
  format_sds_command_argv argv = elim (total_len argv) [
    | none ↦ fault
    | some totlen ↦ elim (empty grant) [
      | none ↦ minus_one
      | some s ↦ elim (make_room_for grant s totlen) [
        | none ↦ minus_one
        | some s' ↦ construct s' argv totlen
      ]
    ]
  ]
