-- ===== src/Decimal.antt =====
-- Numbers in decimal: `sdsull2str` of sds.c, which writes them, and `countDigits` of hiredis.c,
-- which measures them.
use hiredis_vip.Base.{
  ℕ, zero, suc, ◌+◌, ◌-◌, ◌*◌, ◌/◌, ◌%◌, ◌^◌, List, [], ◌∷◌, ◌++◌, Bytes, Option, none, some,
  length, get_or, set, ltb, ◌==◌, if◌then◌else◌, Bool, true, false,
}
use hiredis_vip.Base.Int.{ℤ, pos, negsuc}
pub mod Text
pub mod Count
mod Tests

-- The first loop of `sdsull2str`, which writes the lowest digit first; `out` is s[0] to p[-1].
unfoldable pub write_digits : ℕ → ℕ → Bytes → Option Bytes
write_digits zero v out = none
write_digits (suc fuel) v out =
    let out' = out ++ ((b'0' + v % 10) ∷ []) in
    let rest = write_digits fuel (v / 10) out' in if v / 10 == 0 then some out' else rest

-- The loop that reverses the text in place, with s at position i and p at position j.
unfoldable pub reverse_loop : ℕ → ℕ → ℕ → Bytes → Option Bytes
reverse_loop zero i j s = none
reverse_loop (suc fuel) i j s =
    let aux = get_or s i 0 in
    let swapped = set (set s i (get_or s j 0)) j aux in
    let rest = reverse_loop fuel (i + 1) (j - 1) swapped in if ltb i j then rest else some s

-- `sdsull2str`: the bytes before the terminating null; their number is the length returned.
-- An `unsigned long long` has at most 20 digits, and a text of n bytes takes n / 2 swaps.
unfoldable pub sdsull2str : ℕ → Option Bytes
sdsull2str v = elim (write_digits 20 v []) [
  | none ↦ none
  | some s ↦ reverse_loop (length s + 1) 0 (length s - 1) s
]

-- `sdsll2str`: the digits of the absolute value, then the sign, then the reversal.
unfoldable pub sdsll2str : ℤ → Option Bytes
sdsll2str (pos v) = elim (write_digits 20 v []) [
  | none ↦ none
  | some s ↦ reverse_loop (length s + 1) 0 (length s - 1) s
]
sdsll2str (negsuc n) = elim (write_digits 20 (n + 1) []) [
  | none ↦ none
  | some s ↦ let s' = s ++ (b'-' ∷ []) in reverse_loop (length s' + 1) 0 (length s' - 1) s'
]

-- `countDigits`, whose loop ends within 5 rounds on a `uint64_t`.
unfoldable pub count_digits_loop : ℕ → ℕ → ℕ → Option ℕ
count_digits_loop zero v result = none
count_digits_loop (suc fuel) v result =
    let rest = count_digits_loop fuel (v / 10000) ((result + 4) % 2 ^ 32) in
    if ltb v 10
    then some result
    else if ltb v 100
    then some (result + 1)
    else if ltb v 1000
    then some (result + 2)
    else if ltb v 10000
    then some (result + 3)
    else rest

unfoldable pub count_digits : ℕ → Option ℕ
unfolding count_digits_loop
count_digits v = count_digits_loop 6 v 1

-- `bulklen`
unfoldable pub bulklen : ℕ → Option ℕ
bulklen len = elim (count_digits len) [
  | none ↦ none
  | some digits ↦ some (1 + digits + 2 + len + 2)
]
