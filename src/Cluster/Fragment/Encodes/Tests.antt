-- ===== src/Cluster/Fragment/Encodes/Tests.antt =====
-- The part of an MGET of two keys for the second of them.
use hiredis_vip.Base.{◌+◌, ◌*◌, ◌^◌, ◌<◌, [], ◌∷◌, map, length, some, ◌≡◌, refl, inl, arith}
use hiredis_vip.Slot.{key_hash_slot, scan_for, crc16}
use hiredis_vip.Util.{uint_len, hi_itoa}
use hiredis_vip.Format.Encode.{encode}
use hiredis_vip.Command.Types.{req_redis_mget}
use hiredis_vip.Command.Keywords.{codes}
use hiredis_vip.Cluster.Client.Samples.{key_a, key_b, buffer, mget_of, part, fragments, mget_a_b}
use hiredis_vip.Cluster.Fragment.{key_text, command_pre_fragment}
use hiredis_vip.Cluster.Fragment.Partition.{in_slot}
use hiredis_vip.Cluster.Fragment.Texts.{IsKey, tally}
use hiredis_vip.Cluster.Fragment.Encodes.{command_pre_fragment-encode}

splits : command_pre_fragment req_redis_mget mget_a_b (key_a ∷ key_b ∷ []) buffer ≡ some fragments
unfolding command_pre_fragment key_hash_slot scan_for crc16 uint_len hi_itoa
splits = refl

key_a-IsKey : IsKey mget_a_b key_a
key_a-IsKey = record { some_byte = omega arith; inside = omega arith; small = omega arith }

key_b-IsKey : IsKey mget_a_b key_b
key_b-IsKey = record { some_byte = omega arith; inside = omega arith; small = omega arith }

few_bytes : tally (part key_b 3300 (codes "b")).keys + 5 * 1 < 2 ^ 30
unfolding uint_len
few_bytes = omega arith

command_pre_fragment-encode_example :
    (mget_of (codes "b")
      ≡ encode
          (codes "mget" ∷ map (key_text mget_a_b) (in_slot mget_a_b 3300 (key_a ∷ key_b ∷ []))))
    × (21 ≡ length (mget_of (codes "b")))
command_pre_fragment-encode_example =
    command_pre_fragment-encode req_redis_mget mget_a_b (key_a ∷ key_b ∷ []) buffer fragments 0
      (part key_b 3300 (codes "b")) (inl refl) (key_a-IsKey, (key_b-IsKey, tt)) splits refl
      few_bytes
