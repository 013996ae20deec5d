-- ===== src/Slot/Tests.antt =====
-- Slots of some keys, and the check value of the CRC.
use hiredis_vip.Base.{◌%◌, ◌<◌, [], ◌∷◌, Bytes, ◌≡◌, refl, arith}
use hiredis_vip.Slot.{crc16, scan_for, key_hash_slot}
use hiredis_vip.Slot.Crc.{divide, crc16-divide}
use hiredis_vip.Slot.Tag.{HashTag, key_hash_slot-HashTag}

-- "123456789"
abbrev digits : Bytes
digits = 0x31 ∷ 0x32 ∷ 0x33 ∷ 0x34 ∷ 0x35 ∷ 0x36 ∷ 0x37 ∷ 0x38 ∷ 0x39 ∷ []

-- "a{b}c"
abbrev tagged : Bytes
tagged = b'a' ∷ b'{' ∷ b'b' ∷ b'}' ∷ b'c' ∷ []

-- "b"
abbrev tag : Bytes
tag = b'b' ∷ []

crc16-digits : crc16 digits ≡ 0x31C3
unfolding crc16
crc16-digits = refl

tagged_with_tag : key_hash_slot tagged ≡ key_hash_slot tag
unfolding key_hash_slot crc16 scan_for
tagged_with_tag = refl

crc16-divide_example : crc16 digits ≡ divide 0 digits
crc16-divide_example = crc16-divide digits (omega arith)

key_hash_slot-HashTag_example :
    ((t : Bytes) → HashTag tagged t → key_hash_slot tagged ≡ crc16 t % 16384)
    × ((t : Bytes) × HashTag tagged t)
    × (key_hash_slot tagged < 16384)
key_hash_slot-HashTag_example = key_hash_slot-HashTag tagged
