-- ===== src/Cluster/Fragment/Texts.antt =====
-- The text of a sub command is the protocol text of its keys.
use hiredis_vip.Base.{
  ℕ, suc, ◌+◌, ◌-◌, ◌*◌, ◌^◌, ◌≤◌, ◌<◌, List, [], ◌∷◌, ◌++◌, append_assoc, map, false,
  if◌then◌else◌, Bytes, length, length-append, length-take, length-drop, drop, All, ◌≡◌, refl, sym,
  ap, ◌∙◌, ◌⊎◌, inl, inr, arith,
}
use native.Mathlib.Decide.{dec_lt}
use hiredis_vip.Array.{u32}
use hiredis_vip.Decimal.{sdsull2str, write_digits, reverse_loop}
use hiredis_vip.Decimal.Text.{decimal, ten_to, IsDecimal}
use hiredis_vip.Decimal.Count.{ten_to_mono, length-decimal}
use hiredis_vip.Util.{hi_itoa, c_string, uint_len}
use hiredis_vip.Util.Laws.{hi_itoa-held}
use hiredis_vip.Base.Int.{pos}
use hiredis_vip.Format.{to_int}
use hiredis_vip.Format.Encode.{
  to_int-pos, digits_of, digits_of-IsDecimal, encode_item, encode_items, encode, item_size,
}
use hiredis_vip.Command.Types.{CmdType, KeyPos, req_redis_mget, req_redis_del}
use hiredis_vip.Command.Keywords.{codes}
use hiredis_vip.Cluster.Fragment.{SubKey, SubCommand, is_mget, key_text, write_keys, write_command}
use hiredis_vip.Cluster.Fragment.Partition.{places}

-- A key that lies in the text, has a byte at least, and a length that is an `int`.
pub record IsKey (text : Bytes) (kp : KeyPos) : Type 0 where
  pub some_byte : kp.key_start < kp.key_end
  pub inside : kp.key_end ≤ length text
  pub small : kp.key_end < 2 ^ 31

IsDecimal-same : (v : ℕ) (s t : Bytes) → IsDecimal v s → IsDecimal v t → s ≡ t
IsDecimal-same v s t d d' =
    d.text
    ∙ ap (λ (k : ℕ). decimal (suc k) v)
        (rests d.rest d'.rest d.enough d'.enough d.shortest d'.shortest)
    ∙ sym d'.text
  where
    below : (r r' : ℕ) → v < ten_to (suc r) → (r' ≡ 0) ⊎ (ten_to r' ≤ v) → r' ≤ r
    below r r' enough (inl e) = omega arith
    below r r' enough (inr le) = elim (dec_lt r r') [
      | yes lt ↦ absurd (omega (arith, ten_to_mono (suc r) r' (omega arith)))
      | no ge ↦ omega arith
    ]

    rests :
        (r r' : ℕ)
        → v < ten_to (suc r)
        → v < ten_to (suc r')
        → (r ≡ 0) ⊎ (ten_to r ≤ v)
        → (r' ≡ 0) ⊎ (ten_to r' ≤ v)
        → r ≡ r'
    rests r r' e e' s s' = omega (arith, below r r' e s', below r' r e' s)

-- The number that `_hi_itoa` leaves in the buffer.
pub itoa-digits_of :
    (buffer : Bytes) (n : ℕ) → 0 < n → n < 2 ^ 31 → c_string (hi_itoa buffer (pos n)) ≡ digits_of n
itoa-digits_of buffer n low small =
    let (_, _, _, text, _) = hi_itoa-held buffer n low small in
    IsDecimal-same n (c_string (hi_itoa buffer (pos n))) (digits_of n) text
      (digits_of-IsDecimal n (omega arith)).1

pub length-key_text :
    (text : Bytes) (kp : KeyPos)
    → IsKey text kp
    → length (key_text text kp) ≡ kp.key_end - kp.key_start
length-key_text text kp key = omega (
  arith,
  key.some_byte,
  key.inside,
  length-take (kp.key_end - kp.key_start) (drop kp.key_start text),
  length-drop kp.key_start text,
)

pub write_keys-encode_items :
    (text : Bytes) (keys : List SubKey) (num_str : Bytes)
    → All (IsKey text) (places keys)
    → (write_keys text false keys num_str).0 ≡ encode_items (map (key_text text) (places keys))
unfolding write_keys encode_items encode_item
write_keys-encode_items text [] num_str good = refl
write_keys-encode_items text (key ∷ keys) num_str (first, good) =
    let kp = key.at in
    let n = kp.key_end - kp.key_start in
    let short : u32 n ≡ n = omega (arith, first.small) in
    let stop : kp.key_start + n + 0 ≡ kp.key_end = omega (arith, first.some_byte) in
    let digits =
      itoa-digits_of num_str n (omega (arith, first.some_byte)) (omega (arith, first.small)) in
    let size : length (key_text text kp) ≡ n = length-key_text text kp first in
    rw
      (
        short,
        to_int-pos n (omega (arith, first.small)),
        stop,
        digits,
        size,
        write_keys-encode_items text keys (hi_itoa num_str (pos n)) good,
      )
      (simp append_assoc)

-- What the loop on the keys has counted for a sub command: its keys, and the bytes of their texts and of
-- the numbers before them.
abbrev pub tally : List SubKey → ℕ
tally [] = 0
tally (key ∷ keys) =
    let n = u32 (key.at.key_end - key.at.key_start) in (n + uint_len n) + tally keys

pub record IsCounted (sub : SubCommand) : Type 0 where
  pub narg_counts : sub.narg ≡ u32 (length sub.keys)
  pub clen_counts : sub.clen ≡ u32 (tally sub.keys)

encode_items-length :
    (text : Bytes) (keys : List SubKey)
    → All (IsKey text) (places keys)
    → length (encode_items (map (key_text text) (places keys))) ≡ tally keys + 5 * length keys
unfolding encode_items
encode_items-length text [] good = refl
encode_items-length text (key ∷ keys) (first, good) =
    let kp = key.at in
    let n = kp.key_end - kp.key_start in
    let short : u32 n ≡ n = omega (arith, first.small) in
    let size : length (key_text text kp) ≡ n = length-key_text text kp first in
    let digits =
      itoa-digits_of [] n (omega (arith, first.some_byte)) (omega (arith, first.small)) in
    let (_, _, _, _, measured) =
      hi_itoa-held [] n (omega (arith, first.some_byte)) (omega (arith, first.small)) in
    let len : uint_len n ≡ length (digits_of n) = measured ∙ ap length digits in
    let item = item_size (key_text text kp) in
    let item' : length (encode_item (key_text text kp)) ≡ 5 + length (digits_of n) + n =
      rw (size) at item in
    rw (short) (
      omega (
        arith,
        len,
        item',
        length-append (encode_item (key_text text kp))
            (encode_items (map (key_text text) (places keys))),
        encode_items-length text keys good,
      ))

places-length :
    (text : Bytes) (keys : List SubKey) → length (map (key_text text) (places keys)) ≡ length keys
places-length text [] = refl
places-length text (key ∷ keys) = ap suc (places-length text keys)

digits_of-few : (v : ℕ) → v < 2 ^ 31 → length (digits_of v) ≤ 10
digits_of-few v h =
    let d = (digits_of-IsDecimal v (omega arith)).1 in
    let size : length (digits_of v) ≡ suc d.rest =
      ap length d.text ∙ length-decimal (suc d.rest) v in
    elim d.shortest [
      | inl e ↦ omega (arith, e, size)
      | inr le ↦ elim (dec_lt d.rest 10) [
        | yes lt ↦ omega (arith, size)
        | no ge ↦ absurd (omega (arith, ten_to_mono 10 d.rest (omega arith)))
      ]
    ]

-- The name of the command, as an item.
abbrev pub name_of : CmdType → Bytes
name_of type = if is_mget type then codes "mget" else codes "del"

mget_item : encode_item (codes "mget") ≡ codes "$4" ++ (13 ∷ 10 ∷ codes "mget" ++ (13 ∷ 10 ∷ []))
unfolding encode_item digits_of sdsull2str write_digits reverse_loop
mget_item = refl

del_item : encode_item (codes "del") ≡ codes "$3" ++ (13 ∷ 10 ∷ codes "del" ++ (13 ∷ 10 ∷ []))
unfolding encode_item digits_of sdsull2str write_digits reverse_loop
del_item = refl

module _ (text : Bytes) (sub : SubCommand) (num_str : Bytes)
    (good : All (IsKey text) (places sub.keys)) (counted : IsCounted sub)
    (few : tally sub.keys + 5 * length sub.keys < 2 ^ 30) where
  items : u32 (sub.narg + 1) ≡ suc (length sub.keys)
  items = rw (counted.narg_counts) (omega (arith, few))

  as_int : to_int (suc (length sub.keys)) ≡ pos (suc (length sub.keys))
  as_int = to_int-pos (suc (length sub.keys)) (omega (arith, few))

  number :
      c_string (hi_itoa num_str (pos (suc (length sub.keys)))) ≡ digits_of (suc (length sub.keys))
  number = itoa-digits_of num_str (suc (length sub.keys)) (omega arith) (omega (arith, few))

  body :
      (write_keys text false sub.keys (hi_itoa num_str (pos (suc (length sub.keys))))).0
      ≡ encode_items (map (key_text text) (places sub.keys))
  body = write_keys-encode_items text sub.keys (hi_itoa num_str (pos (suc (length sub.keys)))) good

  mget_text :
      (write_command req_redis_mget text sub num_str).0.cmd
      ≡ encode (codes "mget" ∷ map (key_text text) (places sub.keys))
  unfolding write_command encode encode_items
  mget_text = rw (items, as_int, number, body, places-length text sub.keys, mget_item) refl

  del_text :
      (write_command req_redis_del text sub num_str).0.cmd
      ≡ encode (codes "del" ∷ map (key_text text) (places sub.keys))
  unfolding write_command encode encode_items
  del_text = rw (items, as_int, number, body, places-length text sub.keys, del_item) refl

  encode-length :
      (name : Bytes)
      → length (encode (name ∷ map (key_text text) (places sub.keys)))
        ≡ 3
          + length (digits_of (suc (length sub.keys)))
          + length (encode_item name)
          + (tally sub.keys + 5 * length sub.keys)
  unfolding encode encode_items
  encode-length name =
      let all = encode_items (map (key_text text) (places sub.keys)) in
      rw (places-length text sub.keys) (
        omega (
          arith,
          length-append (digits_of (suc (length sub.keys))) (13 ∷ 10 ∷ (encode_item name ++ all)),
          length-append (encode_item name) all,
          encode_items-length text sub.keys good,
        ))

  mget_length :
      (write_command req_redis_mget text sub num_str).0.clen
      ≡ length (encode (codes "mget" ∷ map (key_text text) (places sub.keys)))
  unfolding write_command
  mget_length =
      let size : length (encode_item (codes "mget")) ≡ 10 = rw (mget_item) refl in
      let whole = encode-length (codes "mget") in
      let short = digits_of-few (suc (length sub.keys)) (omega (arith, few)) in
      rw (items, as_int, number, counted.clen_counts, counted.narg_counts)
        (omega (arith, few, size, whole, short))

  del_length :
      (write_command req_redis_del text sub num_str).0.clen
      ≡ length (encode (codes "del" ∷ map (key_text text) (places sub.keys)))
  unfolding write_command
  del_length =
      let size : length (encode_item (codes "del")) ≡ 9 = rw (del_item) refl in
      let whole = encode-length (codes "del") in
      let short = digits_of-few (suc (length sub.keys)) (omega (arith, few)) in
      rw (items, as_int, number, counted.clen_counts, counted.narg_counts)
        (omega (arith, few, size, whole, short))

  -- The text of a sub command of an MGET or a DEL, and its length.
  pub write_command-encode :
      (type : CmdType)
      → (type ≡ req_redis_mget) ⊎ (type ≡ req_redis_del)
      → ((write_command type text sub num_str).0.cmd
          ≡ encode (name_of type ∷ map (key_text text) (places sub.keys)))
        × ((write_command type text sub num_str).0.clen
            ≡ length (encode (name_of type ∷ map (key_text text) (places sub.keys))))
  write_command-encode type (inl e) = rw (e) (mget_text, mget_length)
  write_command-encode type (inr e) = rw (e) (del_text, del_length)
