-- ===== src/Decimal/Tests.antt =====
-- The text and the number of digits of 1205, and of the largest `unsigned long long`.
use hiredis_vip.Base.{ℕ, ◌-◌, ◌^◌, [], ◌∷◌, Bytes, some, length, ◌≡◌, refl, arith, inr}
use hiredis_vip.Base.Int.{negsuc}
use hiredis_vip.Decimal.{write_digits, reverse_loop, sdsull2str, sdsll2str, count_digits}
use hiredis_vip.Decimal.Text.{IsDecimal, sdsull2str-IsDecimal}
use hiredis_vip.Decimal.Count.{count_digits-IsDecimal}

abbrev number : ℕ
number = 1205

-- "1205"
abbrev number_text : Bytes
number_text = b'1' ∷ b'2' ∷ b'0' ∷ b'5' ∷ []

written : sdsull2str number ≡ some number_text
unfolding sdsull2str write_digits reverse_loop
written = refl

negative : sdsll2str (negsuc 1204) ≡ some (b'-' ∷ number_text)
unfolding sdsll2str write_digits reverse_loop
negative = refl

count_digits-largest : count_digits (2 ^ 64 - 1) ≡ some 20
unfolding count_digits
count_digits-largest = refl

number-IsDecimal : IsDecimal number number_text
number-IsDecimal = record {
  rest = 3;
  text = refl;
  enough = omega arith;
  shortest = inr (omega arith);
}

sdsull2str-IsDecimal_example : (s : Bytes) × (sdsull2str number ≡ some s) × IsDecimal number s
sdsull2str-IsDecimal_example = sdsull2str-IsDecimal number (omega arith)

count_digits-IsDecimal_example : count_digits number ≡ some (length number_text)
count_digits-IsDecimal_example = count_digits-IsDecimal number-IsDecimal (omega arith)
