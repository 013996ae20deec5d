-- ===== src/Util/Tests.antt =====
-- A number over a buffer that held another.
use hiredis_vip.Base.{[], ◌∷◌, ◌++◌, Bytes, length, ◌≡◌, refl, arith}
use hiredis_vip.Base.Int.{pos, negsuc}
use hiredis_vip.Decimal.Text.{IsDecimal}
use hiredis_vip.Command.Keywords.{codes}
use hiredis_vip.Util.{hi_itoa, uint_len, c_string}
use hiredis_vip.Util.Laws.{hi_itoa-uint_len}

abbrev held_123 : Bytes
held_123 = codes "123" ++ (0 ∷ 0 ∷ 0 ∷ 0 ∷ 0 ∷ 0 ∷ 0 ∷ 0 ∷ 0 ∷ [])

hi_itoa-uint_len_example :
    IsDecimal 42 (c_string (hi_itoa held_123 (pos 42)))
    × ((length (hi_itoa held_123 (pos 42)) ≡ 12)
        × (uint_len 42 ≡ length (c_string (hi_itoa held_123 (pos 42)))))
hi_itoa-uint_len_example = hi_itoa-uint_len held_123 42 (omega arith) (omega arith) (omega arith)

-- A number that is negative.
minus_42 : c_string (hi_itoa held_123 (negsuc 41)) ≡ codes "-42"
unfolding hi_itoa
minus_42 = refl

-- Zero leaves the digits of the number before.
zero_after_123 : c_string (hi_itoa held_123 (pos 0)) ≡ codes "023"
unfolding hi_itoa
zero_after_123 = refl

length_of_zero : uint_len 0 ≡ 1
unfolding uint_len
length_of_zero = refl
