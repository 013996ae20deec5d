-- ===== src/Slot/Tag.antt =====
-- `keyHashSlot`: which part of a key is hashed.

use hiredis_vip.Base.{
  ℕ, suc, ◌+◌, ◌%◌, ◌<◌, [], ◌∷◌, ◌++◌, Bytes, length, drop, ◌≡◌, ◌≢◌, refl, ap, ◌∙◌, ◌⊎◌, inl, inr,
  arith, All, length-append, take-append_length,
}
use hiredis_vip.Slot.{crc16, scan_for, key_hash_slot}
use native.Mathlib.Decide.{ℕ_discrete}
use hiredis_vip.Base.Bits.{bit_and-slot}

-- The byte c does not occur.
abbrev pub Without : ℕ → Bytes → Type 0
Without c = All (λ b. b ≢ c)

-- The redis cluster rule: the part between the first opening brace and the next closing one, if
-- there are both and something stands between them, else the whole key.
pub data HashTag : Bytes → Bytes → Type 0 where
  no_open : {key : Bytes} → Without b'{' key → HashTag key key
  no_close :
      {key : Bytes} (pre post : Bytes)
      → Without b'{' pre
      → Without b'}' post
      → key ≡ pre ++ (b'{' ∷ post)
      → HashTag key key
  empty_tag :
      {key : Bytes} (pre post : Bytes)
      → Without b'{' pre
      → key ≡ pre ++ (b'{' ∷ b'}' ∷ post)
      → HashTag key key
  between :
      {key tag : Bytes} (pre post : Bytes)
      → Without b'{' pre
      → tag ≢ []
      → Without b'}' tag
      → key ≡ pre ++ (b'{' ∷ (tag ++ (b'}' ∷ post)))
      → HashTag key tag

scan_for-Without : (c s : ℕ) (xs : Bytes) → Without c xs → scan_for c s xs ≡ s + length xs
unfolding scan_for
scan_for-Without c s [] w = omega arith
scan_for-Without c s (x ∷ xs) w = ground (arith, scan_for-Without c (s + 1) xs)

scan_for-found :
    (c s : ℕ) (xs ys : Bytes) → Without c xs → scan_for c s (xs ++ (c ∷ ys)) ≡ s + length xs
unfolding scan_for
scan_for-found c s [] ys w = ground arith
scan_for-found c s (x ∷ xs) ys w = ground (arith, scan_for-found c (s + 1) xs ys)

drop-suc-length :
    (pre : Bytes) (c : ℕ) (post : Bytes) → drop (suc (length pre)) (pre ++ (c ∷ post)) ≡ post
drop-suc-length [] c post = refl
drop-suc-length (x ∷ pre) c post = drop-suc-length pre c post

drop-after : (pre : Bytes) (c : ℕ) (post : Bytes) → drop (length pre + 1) (pre ++ (c ∷ post)) ≡ post
drop-after pre c post =
    let e : length pre + 1 ≡ suc (length pre) = omega arith in
    ap (λ n. drop n (pre ++ (c ∷ post))) e ∙ drop-suc-length pre c post

-- Where the first loop of `keyHashSlot` stops, and what the second one reads.
open_at :
    (key pre rest : Bytes)
    → Without b'{' pre
    → key ≡ pre ++ (b'{' ∷ rest)
    → (scan_for b'{' 0 key ≡ length pre)
      × (drop (length pre + 1) key ≡ rest)
      × (length key ≡ length pre + 1 + length rest)
open_at key pre rest w e = rw e (
  omega (arith, scan_for-found b'{' 0 pre rest w),
  drop-after pre b'{' rest,
  omega (arith, length-append pre (b'{' ∷ rest)),
)

length-pos : (xs : Bytes) → xs ≢ [] → 0 < length xs
length-pos [] h = absurd (h refl)
length-pos (x ∷ xs) h = omega arith

-- The slot of a key is the CRC of its hash tag, modulo the 16384 slots.
pub key_hash_slot_lem : {key tag : Bytes} → HashTag key tag → key_hash_slot key ≡ crc16 tag % 16384
unfolding key_hash_slot
key_hash_slot_lem {key} (no_open w) =
    ground (arith, scan_for-Without b'{' 0 key w, bit_and-slot (crc16 key))
key_hash_slot_lem {key} (no_close pre post w w' e) = ground (
  arith,
  open_at key pre post w e,
  scan_for-Without b'}' (length pre + 1) post w',
  bit_and-slot (crc16 key),
)
key_hash_slot_lem {key} (empty_tag pre post w e) = ground (
  arith,
  open_at key pre (b'}' ∷ post) w e,
  scan_for-found b'}' (length pre + 1) [] post tt,
  bit_and-slot (crc16 key),
)
key_hash_slot_lem {key} {tag} (between pre post w ne w' e) = ground (
  arith,
  open_at key pre (tag ++ (b'}' ∷ post)) w e,
  scan_for-found b'}' (length pre + 1) tag post w',
  length-append tag (b'}' ∷ post),
  length-pos tag ne,
  take-append_length tag (b'}' ∷ post),
  bit_and-slot (crc16 tag),
)

-- A text has no c, or a first one.
split_at :
    (c : ℕ) (xs : Bytes)
    → Without c xs ⊎ ((pre : Bytes) × (post : Bytes) × Without c pre × (xs ≡ pre ++ (c ∷ post)))
split_at c [] = inl tt
split_at c (x ∷ xs) = elim (ℕ_discrete x c) [
  | yes e ↦ inr ([], xs, tt, ap (λ y. y ∷ xs) e)
  | no ne ↦ elim (split_at c xs) [
    | inl w ↦ inl (ne, w)
    | inr (pre, post, w, e) ↦ inr (x ∷ pre, post, (ne, w), ap (λ l. x ∷ l) e)
  ]
]

tag_after :
    (key pre rest : Bytes)
    → Without b'{' pre
    → key ≡ pre ++ (b'{' ∷ rest)
    → (tag : Bytes) × HashTag key tag
tag_after key pre rest w e = elim (split_at b'}' rest) [
  | inl none_left ↦ (key, no_close pre rest w none_left e)
  | inr ([], post, w', e') ↦ (key, empty_tag pre post w (e ∙ ap (λ l. pre ++ (b'{' ∷ l)) e'))
  | inr (x ∷ tag, post, w', e') ↦
      (x ∷ tag, between pre post w (λ h. cc h) w' (e ∙ ap (λ l. pre ++ (b'{' ∷ l)) e'))
]

-- Every key has a hash tag.
HashTag-total : (key : Bytes) → (tag : Bytes) × HashTag key tag
HashTag-total key = elim (split_at b'{' key) [
  | inl w ↦ (key, no_open w)
  | inr (pre, rest, w, e) ↦ tag_after key pre rest w e
]

-- `keyHashSlot` gives every key the slot that the cluster rule gives it, the CRC of its hash tag
-- modulo 16384, so the slot of every key is below 16384.
pub key_hash_slot-HashTag :
    (key : Bytes)
    → ((tag : Bytes) → HashTag key tag → key_hash_slot key ≡ crc16 tag % 16384)
      × ((tag : Bytes) × HashTag key tag)
      × (key_hash_slot key < 16384)
key_hash_slot-HashTag key =
    let (tag, h) = HashTag-total key in
    (λ t d. key_hash_slot_lem d, (tag, h), omega (arith, key_hash_slot_lem h))
