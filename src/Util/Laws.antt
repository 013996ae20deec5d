-- ===== src/Util/Laws.antt =====
-- The numbers that are written, and how long they are.
use mathlib.Core.List.{reverse, reverse-append, reverse-cons}
use hiredis_vip.Base.{
  ℕ, zero, suc, ◌+◌, ◌/◌, ◌%◌, ◌^◌, ◌≤◌, ◌<◌, [], ◌∷◌, ◌++◌, append_assoc, append-nil, Bytes,
  length, drop, ◌==◌, ◌&&◌, true, false, some, ltb, ◌-◌, ◌≡◌, refl, sym, ap, ap₂, ◌∙◌, Bool-cases,
  length-append, length-drop, ◌⊎◌, inl, inr, arith, ==_of_ne,
}
use native.Mathlib.Decide.{dec_lt}
use hiredis_vip.Decimal.Text.{
  decimal, ten_to, IsDecimal, sdsull2str-IsDecimal, reverse_loop-reverse,
}
use hiredis_vip.Decimal.Count.{length-decimal, ten_to_mono}
use hiredis_vip.Util.{itoa_loop, itoa_reverse, itoa_end, hi_itoa, uint_len_loop, uint_len, c_string}
use hiredis_vip.Base.Int.{pos}
use hiredis_vip.Decimal.{reverse_loop}

-- The number v has k digits, and none when it is 0.
abbrev HasDigits : ℕ → ℕ → Type 0
HasDigits zero v = v ≡ 0
HasDigits (suc k) v = (ten_to k ≤ v) × (v < ten_to (suc k))

shorter : (k v : ℕ) → HasDigits (suc k) v → HasDigits k (v / 10)
shorter zero v (low, high) = omega arith
shorter (suc k) v (low, high) = (omega arith, omega arith)

some_digit : (k v : ℕ) → HasDigits (suc k) v → 0 < v
some_digit k v (low, high) = omega (arith, ten_to_mono 0 k (omega arith))

digits-few : (k v : ℕ) → HasDigits k v → v < 2 ^ 32 → k ≤ 10
digits-few zero v d h = omega arith
digits-few (suc k) v (low, high) h = elim (dec_lt k 10) [
  | yes lt ↦ omega arith
  | no ge ↦ absurd (omega (arith, ten_to_mono 10 k (omega arith)))
]

itoa_loop-decimal :
    (k fuel v : ℕ) (s : Bytes)
    → HasDigits k v
    → k ≤ fuel
    → reverse (itoa_loop fuel v s) ≡ decimal k v ++ reverse s
unfolding itoa_loop
itoa_loop-decimal zero zero v s d h = refl
itoa_loop-decimal zero (suc fuel) v s d h = rw (d) refl
itoa_loop-decimal (suc k) zero v s d h = absurd (omega arith)
itoa_loop-decimal (suc k) (suc fuel) v s d h =
    let digit = v % 10 + b'0' in
    let more : (v % 10 == 0 && v / 10 == 0) ≡ false = ground (arith, some_digit k v d) in
    let place : digit ≡ b'0' + v % 10 = omega arith in
    rw (more, itoa_loop)
      (itoa_loop-decimal k fuel (v / 10) (s ++ (digit ∷ [])) (shorter k v d) (omega arith)
        ∙ ap (λ l. decimal k (v / 10) ++ l)
            (reverse-append s (digit ∷ []) ∙ ap (λ (c : ℕ). c ∷ reverse s) place)
        ∙ sym (append_assoc (decimal k (v / 10)) ((b'0' + v % 10) ∷ []) (reverse s)))

uint_len_loop-digits : (k fuel v n : ℕ) → HasDigits k v → k ≤ fuel → uint_len_loop fuel v n ≡ n + k
unfolding uint_len_loop
uint_len_loop-digits zero zero v n d h = omega arith
uint_len_loop-digits zero (suc fuel) v n d h = rw (d) (omega arith)
uint_len_loop-digits (suc k) zero v n d h = absurd (omega arith)
uint_len_loop-digits (suc k) (suc fuel) v n d h =
    let positive = some_digit k v d in
    rw (==_of_ne v 0 (omega arith), uint_len_loop)
      (uint_len_loop-digits k fuel (v / 10) (n + 1) (shorter k v d) (omega arith) ∙ omega arith)

uint_len-loop : (v : ℕ) → 0 < v → uint_len v ≡ uint_len_loop 10 v 0
unfolding uint_len uint_len_loop
uint_len-loop v h = rw (==_of_ne v 0 (omega arith)) refl

c_string-decimal :
    (k v : ℕ) (xs : Bytes) → c_string (decimal k v ++ xs) ≡ decimal k v ++ c_string xs
c_string-decimal zero v xs = refl
c_string-decimal (suc k) v xs =
    let d = b'0' + v % 10 in
    ap c_string (append_assoc (decimal k (v / 10)) (d ∷ []) xs)
    ∙ (c_string-decimal k (v / 10) (d ∷ xs)
        ∙ (rw (==_of_ne d 0 (omega arith)) refl
            ∙ sym (append_assoc (decimal k (v / 10)) (d ∷ []) (c_string xs))))

-- The loop of `_hi_itoa` on the ends of a text goes as that of `sdsull2str`.
itoa_reverse-reverse_loop :
    (fuel i j len : ℕ) (s r : Bytes)
    → i + j + 1 ≡ len
    → reverse_loop fuel i j s ≡ some r
    → itoa_reverse fuel i len s ≡ r
unfolding itoa_reverse reverse_loop
itoa_reverse-reverse_loop zero i j len s r at e = absurd (cc e)
itoa_reverse-reverse_loop (suc fuel) i j len s r at e =
    let other : len - i - 1 ≡ j = omega arith in
    elim (Bool-cases (ltb i j)) [
      | inl h ↦
          let inside : ltb i (len / 2) ≡ true = ground arith in
          rw (inside, other, itoa_reverse)
            (itoa_reverse-reverse_loop fuel (i + 1) (j - 1) len _ r (ground arith) (rw (h) at e))
      | inr h ↦
          let outside : ltb i (len / 2) ≡ false = ground arith in
          rw (outside, itoa_reverse) (cc (rw (h) at e))
    ]

length-reverse : (s : Bytes) → length (reverse s) ≡ length s
length-reverse [] = refl
length-reverse (x ∷ s) =
    ap length (reverse-cons x s)
    ∙ omega (arith, length-append (reverse s) (x ∷ []), length-reverse s)

itoa_end-reverse :
    (s digits : Bytes)
    → 0 < length digits
    → itoa_end s digits ≡ reverse digits ++ (0 ∷ drop (length digits + 1) s)
unfolding itoa_end
itoa_end-reverse s digits some_digits =
    let n = length digits in
    itoa_reverse-reverse_loop (n + 1) 0 (n - 1) n (digits ++ (0 ∷ drop (n + 1) s)) _ (omega arith) (
      reverse_loop-reverse (n + 1) [] digits (0 ∷ drop (n + 1) s) 0 (n - 1) refl (omega arith)
        (omega arith))

-- What the buffer holds behind `_hi_itoa` of a positive `int`.
pub hi_itoa-held :
    (s : Bytes) (n : ℕ)
    → 0 < n
    → n < 2 ^ 31
    → (k : ℕ) × (hi_itoa s (pos n) ≡ decimal k n ++ (0 ∷ drop (k + 1) s))
      × (k ≤ 10)
      × IsDecimal n (c_string (hi_itoa s (pos n)))
      × (uint_len n ≡ length (c_string (hi_itoa s (pos n))))
unfolding hi_itoa
hi_itoa-held s zero h small = absurd (omega arith)
hi_itoa-held s (suc n) h small =
    let (text, _, d) = sdsull2str-IsDecimal (suc n) (omega arith) in
    let k = suc d.rest in
    let digits : HasDigits k (suc n) = (lowest d.rest (suc n) h d.shortest, d.enough) in
    let few = digits-few k (suc n) digits (omega arith) in
    let loop = itoa_loop 10 (suc n) [] in
    let written : reverse loop ≡ decimal k (suc n) =
      itoa_loop-decimal k 10 (suc n) [] digits few ∙ append-nil _ in
    let size : length loop ≡ k =
      sym (length-reverse loop) ∙ ap length written ∙ length-decimal k (suc n) in
    let buffer : itoa_end s loop ≡ decimal k (suc n) ++ (0 ∷ drop (k + 1) s) =
      itoa_end-reverse s loop (omega (arith, size))
      ∙ ap₂ (λ (l : Bytes) (m : ℕ). l ++ (0 ∷ drop (m + 1) s)) written size in
    let held : c_string (itoa_end s loop) ≡ decimal k (suc n) =
      ap c_string buffer ∙ c_string-decimal k (suc n) (0 ∷ drop (k + 1) s) ∙ append-nil _ in
    (
      k,
      buffer,
      few,
      record { rest = d.rest; text = held; enough = d.enough; shortest = d.shortest },
      uint_len-loop (suc n) h
          ∙ uint_len_loop-digits k 10 (suc n) 0 digits few
          ∙ omega (arith, ap length held, length-decimal k (suc n)),
    )
  where
    lowest : (r v : ℕ) → 0 < v → (r ≡ 0) ⊎ (ten_to r ≤ v) → ten_to r ≤ v
    lowest r v h (inl e) = rw (e) (omega arith)
    lowest r v h (inr le) = le

-- `_hi_itoa` leaves the decimal text of a positive `int` in a buffer of at least 11 bytes, whatever was
-- there, and does not write past its end; `_uint_len` of the number is the length of the text.
pub hi_itoa-uint_len :
    (s : Bytes) (n : ℕ)
    → 11 ≤ length s
    → 0 < n
    → n < 2 ^ 31
    → IsDecimal n (c_string (hi_itoa s (pos n)))
      × ((length (hi_itoa s (pos n)) ≡ length s)
          × (uint_len n ≡ length (c_string (hi_itoa s (pos n)))))
hi_itoa-uint_len s n room h small =
    let (k, buffer, few, text, size) = hi_itoa-held s n h small in
    (
      text,
      (
        ap length buffer
            ∙ omega (
              arith,
              length-append (decimal k n) (0 ∷ drop (k + 1) s),
              length-decimal k n,
              length-drop (k + 1) s,
            ),
        size,
      ),
    )
