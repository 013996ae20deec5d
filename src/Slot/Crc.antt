-- ===== src/Slot/Crc.antt =====
-- `crc16` against the division of polynomials that it tabulates.
use Prim.Native.Nat.{bit_and, bit_xor}
use hiredis_vip.Base.{
  ℕ, zero, suc, ◌+◌, ◌*◌, ◌/◌, ◌%◌, ◌^◌, ◌<◌, List, [], ◌∷◌, Bytes, length, get_or, ◌==◌, ==_iff,
  if◌then◌else◌, Bool, true, ◌&&◌, ◌≡◌, refl, sym, ap, ◌∙◌, arith, ltb, ltb→lt, All, and-true,
}
use hiredis_vip.Slot.{crc16tab, crc16_step, crc16_from, crc16}
use hiredis_vip.Base.Bits.{bit_xor-byte, bit_xor-lt, bit_xor-word, bit_and-byte}
use hiredis_vip.Base.Table.{each_below, each_below_lem}
use native.Mathlib.Nat.{add-zero}

-- One bit of the division by x^16 + x^12 + x^5 + 1, the highest bit first.
unfoldable pub shift_bit : ℕ → ℕ
shift_bit r = if ltb r 0x8000 then r * 2 else bit_xor (r * 2 % 2 ^ 16) 0x1021

abbrev shift_bits : ℕ → ℕ → ℕ
shift_bits zero r = r
shift_bits (suc n) r = shift_bits n (shift_bit r)

-- The XMODEM CRC, bit by bit: the byte is added at the top, and eight bits are divided out.
unfoldable pub divide : ℕ → Bytes → ℕ
divide r [] = r
divide r (c ∷ buf) = divide (shift_bits 8 (bit_xor r (c * 256))) buf

row_agrees : ℕ → ℕ → Bool
row_agrees hi t = each_below (λ lo. shift_bits 8 (hi * 256 + lo) == bit_xor (lo * 256) t) 256

table_agrees : ℕ → List ℕ → Bool
table_agrees hi [] = true
table_agrees hi (t ∷ ts) = row_agrees hi t && table_agrees (hi + 1) ts

table_agrees_sound :
    (hi : ℕ) (ts : List ℕ) (i lo : ℕ)
    → table_agrees hi ts ≡ true
    → i < length ts
    → lo < 256
    → shift_bits 8 ((hi + i) * 256 + lo) ≡ bit_xor (lo * 256) (get_or ts i 0)
unfolding table_agrees row_agrees
table_agrees_sound hi [] i lo h hi' hlo = absurd (omega arith)
table_agrees_sound hi (t ∷ ts) zero lo h hi' hlo =
    let (row, rest) = and-true (row_agrees hi t) (table_agrees (hi + 1) ts) h in
    let here = (==_iff _ _).0 (
      each_below_lem (λ (lo : ℕ). shift_bits 8 (hi * 256 + lo) == bit_xor (lo * 256) t) lo 256 hlo
        row) in
    rw (add-zero) here
table_agrees_sound hi (t ∷ ts) (suc i) lo h hi' hlo =
    let (row, rest) = and-true (row_agrees hi t) (table_agrees (hi + 1) ts) h in
    let e : hi + suc i ≡ hi + 1 + i = omega arith in
    ap (λ (n : ℕ). shift_bits 8 (n * 256 + lo)) e
    ∙ table_agrees_sound (hi + 1) ts i lo rest (omega arith) hlo

table_agrees_run : table_agrees 0 crc16tab ≡ true
unfolding table_agrees row_agrees each_below shift_bit crc16tab
table_agrees_run = refl

-- The tests that bound the entries of the table.
table_words : each_below (λ i. ltb (get_or crc16tab i 0) 65536) 256 ≡ true
unfolding each_below crc16tab
table_words = refl

length-crc16tab : length crc16tab ≡ 256
unfolding crc16tab
length-crc16tab = refl

crc16_step-divide :
    (r c : ℕ) → r < 65536 → c < 256 → crc16_step r c ≡ shift_bits 8 (bit_xor r (c * 256))
unfolding crc16_step
crc16_step-divide r c hr hc =
    let top = bit_xor r (c * 256) / 256 in
    let small : bit_xor (r / 256) c < 256 = bit_xor-lt 8 (r / 256) c (omega arith) hc in
    let i : bit_and (bit_xor (r / 256) c) 255 ≡ top =
      omega (arith, bit_and-byte (bit_xor (r / 256) c), bit_xor-byte r c) in
    let lt : top < 256 = omega (arith, bit_xor-byte r c) in
    let word : get_or crc16tab top 0 < 65536 =
      ltb→lt _ _ (each_below_lem (λ i. ltb (get_or crc16tab i 0) 65536) top 256 lt table_words) in
    let row =
      table_agrees_sound 0 crc16tab top (r % 256) table_agrees_run (omega (arith, length-crc16tab))
        (omega arith) in
    let e : bit_xor r (c * 256) ≡ (0 + top) * 256 + r % 256 = omega (arith, bit_xor-byte r c) in
    rw (i, bit_xor-word r (get_or crc16tab top 0) word) (sym row ∙ ap (λ n. shift_bits 8 n) (sym e))

crc16_step-lt : (r c : ℕ) → crc16_step r c < 65536
unfolding crc16_step
crc16_step-lt r c = omega arith

pub crc16_from-divide :
    (r : ℕ) (buf : Bytes) → r < 65536 → All (λ c. c < 256) buf → crc16_from r buf ≡ divide r buf
unfolding crc16_from divide
crc16_from-divide r [] h all = refl
crc16_from-divide r (c ∷ buf) h all =
    crc16_from-divide (crc16_step r c) buf (crc16_step-lt r c) all.1
    ∙ ap (λ n. divide n buf) (crc16_step-divide r c h all.0)

pub crc16-lt : (buf : Bytes) → crc16 buf < 65536
unfolding crc16
crc16-lt buf = loop 0 buf (omega arith)
  where
    loop : (r : ℕ) (buf : Bytes) → r < 65536 → crc16_from r buf < 65536
    loop r [] h = h
    loop r (c ∷ buf) h = loop (crc16_step r c) buf (crc16_step-lt r c)

-- The table driven `crc16` computes the XMODEM CRC: for every buffer of bytes it is the remainder
-- that the bit by bit division leaves.
pub crc16-divide : (buf : Bytes) → All (λ c. c < 256) buf → crc16 buf ≡ divide 0 buf
unfolding crc16
crc16-divide buf all = crc16_from-divide 0 buf (omega arith) all
