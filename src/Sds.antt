-- ===== src/Sds.antt =====
-- sds.c: strings that know their length and their free room. `buf` is the len bytes in use; the
-- null byte behind them is left out. `malloc` and `realloc` are not of the program: `grant` says
-- whether they serve a request of so many bytes. `none` is NULL. The fields `len` and `free` are `int`s
-- and the lengths are `size_t`s of 64 bits.
use hiredis_vip.Base.{
  ℕ, zero, suc, ◌+◌, ◌-◌, ◌*◌, ◌^◌, ◌%◌, List, [], ◌∷◌, ◌++◌, Bytes, Option, none, some, length,
  ltb, leb, ◌==◌, if◌then◌else◌, Bool, true, false, replicate,
}
use hiredis_vip.Base.Int.{ℤ, pos, negsuc}
use hiredis_vip.Decimal.{sdsull2str, sdsll2str}
pub mod Laws
mod Tests

-- A `size_t` that is stored in an `int` field and read again as a `size_t`.
unfoldable pub int_field : ℕ → ℕ
int_field v = let m = v % 2 ^ 32 in if ltb m (2 ^ 31) then m else m + (2 ^ 64 - 2 ^ 32)

-- The difference of two `size_t`s.
abbrev pub sub64 : ℕ → ℕ → ℕ
sub64 m n = (m + 2 ^ 64 - n % 2 ^ 64) % 2 ^ 64

-- `struct sdshdr`; `free` is what `sdsavail` gives, and `len` follows from the bytes.
pub record Sds : Type 0 where
  pub buf : Bytes
  pub free : ℕ

-- `sdslen`
abbrev pub len_of : Sds → ℕ
len_of s = int_field (length s.buf)

-- `sizeof(struct sdshdr)`, two `int`s, and the null byte.
abbrev pub with_header : ℕ → ℕ
with_header n = (8 + n + 1) % 2 ^ 64

abbrev pub sds_max_prealloc : ℕ
sds_max_prealloc = 1024 * 1024

-- How much room `sdsMakeRoomFor` makes for a string of so many bytes.
abbrev pub prealloc : ℕ → ℕ
prealloc newlen =
    if ltb newlen sds_max_prealloc then newlen * 2 else (newlen + sds_max_prealloc) % 2 ^ 64

module _ (grant : ℕ → Bool) where
  -- `sdsnewlen` on the bytes of a buffer
  unfoldable pub new_len : Bytes → Option Sds
  new_len init =
      if grant (with_header (length init)) then some (record { buf = init; free = 0 }) else none

  unfoldable pub empty : Option Sds
  unfolding new_len
  empty = new_len []

  unfoldable pub dup : Sds → Option Sds
  unfolding new_len
  dup s = new_len s.buf

  unfoldable pub make_room_for : Sds → ℕ → Option Sds
  unfolding int_field
  make_room_for s addlen =
      if leb addlen s.free
      then some s
      else let newlen = prealloc ((len_of s + addlen) % 2 ^ 64) in
        if grant (with_header newlen)
        then some (record s { free = int_field (sub64 newlen (len_of s)) })
        else none

  -- `sdsRemoveFreeSpace`, which does not look at the result of `realloc`: `none` is a fault.
  unfoldable pub remove_free_space : Sds → Option Sds
  unfolding int_field
  remove_free_space s =
      if grant (with_header (len_of s)) then some (record s { free = 0 }) else none

  -- `sdsgrowzero`
  unfoldable pub grow_zero : Sds → ℕ → Option Sds
  unfolding make_room_for int_field
  grow_zero s len = if leb len (len_of s) then some s else elim (make_room_for s (len - len_of s)) [
    | none ↦ none
    | some r ↦
        let totlen = int_field (len_of r + r.free) in
        some (record {
          buf = r.buf ++ replicate (len - length r.buf) 0;
          free = int_field (sub64 totlen len);
        })
  ]

  -- `sdscatlen`
  unfoldable pub cat_len : Sds → Bytes → Option Sds
  unfolding make_room_for int_field
  cat_len s t = elim (make_room_for s (length t)) [
    | none ↦ none
    | some r ↦ some (record { buf = r.buf ++ t; free = int_field (sub64 r.free (length t)) })
  ]

  unfoldable pub cat_sds : Sds → Sds → Option Sds
  unfolding cat_len
  cat_sds s t = cat_len s t.buf

  -- `sdscpylen`; the subtraction is in `size_t`.
  unfoldable pub cpy_len : Sds → Bytes → Option Sds
  unfolding make_room_for int_field
  cpy_len s t =
      let totlen = int_field (s.free + len_of s) in
      if ltb totlen (length t)
      then elim (make_room_for s (sub64 (length t) (len_of s))) [
        | none ↦ none
        | some r ↦
            some (record { buf = t; free = int_field (sub64 (r.free + len_of r) (length t)) })
      ]
      else some (record { buf = t; free = int_field (sub64 totlen (length t)) })

-- `sdsclear`
unfoldable pub clear : Sds → Sds
unfolding int_field
clear s = record { buf = []; free = int_field (s.free + len_of s) }

-- `sdsAllocSize`
unfoldable pub alloc_size : Sds → ℕ
unfolding int_field
alloc_size s = with_header (len_of s + s.free)

-- An argument of `sdscatfmt`.
pub data FmtArg : Type 0 where
  text_arg : Bytes → FmtArg
  signed_arg : ℤ → FmtArg
  unsigned_arg : ℕ → FmtArg

-- `sdscatfmt` makes room before it writes; it does not look at a refusal, which is a fault.
unfoldable pub write_text : (ℕ → Bool) → Sds → Option Bytes → Option Sds
unfolding cat_len
write_text grant s none = none
write_text grant s (some t) = cat_len grant s t

-- The conversion behind `%`: `none` is an argument of another type than the letter says.
unfoldable pub conversion : (ℕ → Bool) → Sds → ℕ → FmtArg → Option Sds
unfolding write_text
conversion grant s next (text_arg t) =
    if next == b's'
    then write_text grant s (some t)
    else if next == b'S'
    then write_text grant s (some t)
    else none
conversion grant s next (signed_arg v) =
    if next == b'i'
    then write_text grant s (sdsll2str v)
    else if next == b'I'
    then write_text grant s (sdsll2str v)
    else none
conversion grant s next (unsigned_arg v) =
    if next == b'u'
    then write_text grant s (sdsull2str v)
    else if next == b'U'
    then write_text grant s (sdsull2str v)
    else if next == b'T'
    then write_text grant s (sdsull2str v)
    else none

-- The letters that take an argument.
unfoldable pub is_conversion : ℕ → Bool
is_conversion c =
    if c == b's'
    then true
    else if c == b'S'
    then true
    else if c == b'i'
    then true
    else if c == b'I'
    then true
    else if c == b'u'
    then true
    else if c == b'U'
    then true
    else c == b'T'

-- The loop of `sdscatfmt`. `none` is a fault: memory that is refused, an argument that is missing
-- or of another type, or a format that ends in a lone `%`, behind which the loop reads on.
unfoldable pub cat_fmt : (ℕ → Bool) → Sds → Bytes → List FmtArg → Option Sds
cat_fmt grant s [] args = some s
cat_fmt grant s (c ∷ []) args = elim (make_room_for grant s 1) [
  | none ↦ none
  | some r ↦ if c == b'%' then none else write_text grant r (some (c ∷ []))
]
cat_fmt grant s (c ∷ next ∷ fmt) [] = elim (make_room_for grant s 1) [
  | none ↦ none
  | some r ↦ elim (c == b'%') [
    | false ↦ elim (write_text grant r (some (c ∷ []))) [
      | none ↦ none
      | some r' ↦ cat_fmt grant r' (next ∷ fmt) []
    ]
    | true ↦ elim (is_conversion next) [
      | true ↦ none
      | false ↦ elim (write_text grant r (some (next ∷ []))) [
        | none ↦ none
        | some r' ↦ cat_fmt grant r' fmt []
      ]
    ]
  ]
]
cat_fmt grant s (c ∷ next ∷ fmt) (a ∷ args) = elim (make_room_for grant s 1) [
  | none ↦ none
  | some r ↦ elim (c == b'%') [
    | false ↦ elim (write_text grant r (some (c ∷ []))) [
      | none ↦ none
      | some r' ↦ cat_fmt grant r' (next ∷ fmt) (a ∷ args)
    ]
    | true ↦ elim (is_conversion next) [
      | true ↦ elim (conversion grant r next a) [
        | none ↦ none
        | some r' ↦ cat_fmt grant r' fmt args
      ]
      | false ↦ elim (write_text grant r (some (next ∷ []))) [
        | none ↦ none
        | some r' ↦ cat_fmt grant r' fmt (a ∷ args)
      ]
    ]
  ]
]
