-- ===== src/Sds/Tests.antt =====
-- A short string without free room.
use hiredis_vip.Base.{
  ℕ, ◌-◌, ◌^◌, ◌≤◌, ◌<◌, [], ◌∷◌, none, some, Bool, true, false, ◌≡◌, refl, ◌⊎◌, arith,
}
use hiredis_vip.Sds.{Sds, int_field, make_room_for, cat_len, grow_zero}
use hiredis_vip.Sds.Laws.{room_request, make_room_for-room, cat_len-append}

-- "ab"
abbrev ab : Sds
ab = record { buf = b'a' ∷ b'b' ∷ []; free = 0 }

abbrev always : ℕ → Bool
always n = true

cat_len-doubles :
    cat_len always ab (b'c' ∷ []) ≡ some (record { buf = b'a' ∷ b'b' ∷ b'c' ∷ []; free = 3 })
unfolding cat_len
cat_len-doubles = refl

grow_zero-pads : grow_zero always ab 4 ≡ some (record { buf = b'a' ∷ b'b' ∷ 0 ∷ 0 ∷ []; free = 4 })
unfolding grow_zero
grow_zero-pads = refl

-- Room of 2^31 bytes does not fit the field: `free` is negative.
int_field-negative : int_field (2 ^ 31) ≡ 2 ^ 64 - 2 ^ 31
unfolding int_field
int_field-negative = refl

make_room_for-room_example :
    ((make_room_for always ab 3 ≡ none) × (0 < 3) × (always (room_request ab 3) ≡ false))
    ⊎ ((r : Sds) × (make_room_for always ab 3 ≡ some r)
        × (r.buf ≡ ab.buf)
        × (3 ≤ r.free)
        × (r.free < 2 ^ 31))
make_room_for-room_example = make_room_for-room always ab 3 (omega arith) (omega arith)

cat_len-append_example :
    ((cat_len always ab (b'c' ∷ []) ≡ none) × (0 < 1) × (always (room_request ab 1) ≡ false))
    ⊎ ((r : Sds) × (cat_len always ab (b'c' ∷ []) ≡ some r)
        × (r.buf ≡ b'a' ∷ b'b' ∷ b'c' ∷ [])
        × (r.free < 2 ^ 31))
cat_len-append_example = cat_len-append always ab (b'c' ∷ []) (omega arith) (omega arith)
