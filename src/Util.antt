-- ===== src/Util.antt =====
-- hiutil.c: the numbers of the commands that the cluster client writes.
use hiredis_vip.Base.{
  ℕ, zero, suc, ◌+◌, ◌-◌, ◌/◌, ◌%◌, [], ◌∷◌, ◌++◌, Bytes, length, drop, get_or, set, ltb, ◌==◌,
  if◌then◌else◌, ◌&&◌,
}
use hiredis_vip.Base.Int.{ℤ, pos, negsuc}
pub mod Laws
mod Tests

-- The loop of `_hi_itoa` for a positive number, which writes the lowest digit first; an `int` has at
-- most ten digits.
unfoldable pub itoa_loop : ℕ → ℕ → Bytes → Bytes
itoa_loop zero num s = s
itoa_loop (suc fuel) num s =
    let rest = itoa_loop fuel (num / 10) (s ++ ((num % 10 + b'0') ∷ [])) in
    if num % 10 == 0 && num / 10 == 0 then s else rest

-- The loop that reverses the first `len` bytes in place, from i on; it has len / 2 rounds.
unfoldable pub itoa_reverse : ℕ → ℕ → ℕ → Bytes → Bytes
itoa_reverse zero i len s = s
itoa_reverse (suc fuel) i len s =
    let c = get_or s i 0 in
    let swapped = set (set s i (get_or s (len - i - 1) 0)) (len - i - 1) c in
    let rest = itoa_reverse fuel (i + 1) len swapped in if ltb i (len / 2) then rest else s

-- What `_hi_itoa` does behind its first loop: the digits, with the sign, stand in the buffer.
unfoldable pub itoa_end : Bytes → Bytes → Bytes
unfolding itoa_reverse
itoa_end s digits =
    let len = length digits in itoa_reverse (len + 1) 0 len (digits ++ (0 ∷ drop (len + 1) s))

-- `_hi_itoa` over the buffer `s`, which is to be long enough for the text and its null: a write past its
-- end would make it longer. Zero has no terminating null. The least `int` has no absolute value.
unfoldable pub hi_itoa : Bytes → ℤ → Bytes
unfolding itoa_loop itoa_end
hi_itoa s (pos zero) = b'0' ∷ drop 1 s
hi_itoa s (pos (suc n)) = itoa_end s (itoa_loop 10 (suc n) [])
hi_itoa s (negsuc n) = itoa_end s (itoa_loop 10 (n + 1) [] ++ (b'-' ∷ []))

-- The loop of `_uint_len`; a `uint32_t` has at most ten digits.
unfoldable pub uint_len_loop : ℕ → ℕ → ℕ → ℕ
uint_len_loop zero num n = n
uint_len_loop (suc fuel) num n =
    let rest = uint_len_loop fuel (num / 10) (n + 1) in if num == 0 then n else rest

unfoldable pub uint_len : ℕ → ℕ
unfolding uint_len_loop
uint_len num = if num == 0 then 1 else uint_len_loop 10 num 0

-- The text that a buffer holds.
abbrev pub c_string : Bytes → Bytes
c_string [] = []
c_string (b ∷ s) = let rest = c_string s in if b == 0 then [] else b ∷ rest
