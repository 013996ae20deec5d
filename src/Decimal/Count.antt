-- ===== src/Decimal/Count.antt =====
-- `countDigits` and `bulklen` against the text that is written.
use hiredis_vip.Base.{
  ℕ, zero, suc, ◌+◌, ◌*◌, ◌/◌, ◌%◌, ◌^◌, ◌<◌, ◌≤◌, [], ◌∷◌, Bytes, some, length, ◌≡◌, refl, ap, ◌∙◌,
  ◌⊎◌, inl, inr, arith, length-append,
}
use native.Mathlib.Decide.{dec_lt}
use hiredis_vip.Decimal.{count_digits_loop, count_digits}
use hiredis_vip.Decimal.Text.{decimal, ten_to, IsDecimal}

pub length-decimal : (k v : ℕ) → length (decimal k v) ≡ k
length-decimal zero v = refl
length-decimal (suc k) v =
    omega
      (arith, length-append (decimal k (v / 10)) ((b'0' + v % 10) ∷ []), length-decimal k (v / 10))

-- One round of the loop, on a number of at least five digits.
count_digits_loop-suc :
    (fuel v result : ℕ)
    → 10000 ≤ v
    → count_digits_loop (suc fuel) v result
      ≡ count_digits_loop fuel (v / 10000) ((result + 4) % 2 ^ 32)
unfolding count_digits_loop
count_digits_loop-suc fuel v result h = ground arith

ten_to-pos : (k : ℕ) → 0 < ten_to k
ten_to-pos zero = omega arith
ten_to-pos (suc k) = omega (arith, ten_to-pos k)

pub ten_to_mono : (n k : ℕ) → n ≤ k → ten_to n ≤ ten_to k
ten_to_mono zero k h = ten_to-pos k
ten_to_mono (suc n) zero h = absurd (omega arith)
ten_to_mono (suc n) (suc k) h = omega (arith, ten_to_mono n k (omega arith))

few_digits : (k v : ℕ) → (k ≡ 0) ⊎ (ten_to k ≤ v) → v < 2 ^ 64 → k < 20
few_digits k v (inl e) h = omega arith
few_digits k v (inr le) h = elim (dec_lt k 20) [
  | yes lt ↦ lt
  | no ge ↦ absurd (omega (arith, ten_to_mono 20 k (omega arith)))
]

-- The digits that are left are counted by fours.
count_digits_loop-digits :
    (fuel k v result : ℕ)
    → v < ten_to (suc k)
    → (k ≡ 0) ⊎ (ten_to k ≤ v)
    → k < 4 * fuel
    → result + k < 2 ^ 32
    → count_digits_loop fuel v result ≡ some (result + k)
unfolding count_digits_loop
count_digits_loop-digits zero k v result hi lo fits small = absurd (omega arith)
count_digits_loop-digits (suc fuel) zero v result hi lo fits small = ground arith
count_digits_loop-digits (suc fuel) (suc zero) v result hi lo fits small = ground arith
count_digits_loop-digits (suc fuel) (suc (suc zero)) v result hi lo fits small = ground arith
count_digits_loop-digits (suc fuel) (suc (suc (suc zero))) v result hi lo fits small = ground arith
count_digits_loop-digits (suc fuel) (suc (suc (suc (suc k)))) v result hi lo fits small =
    let lo' : ten_to (suc (suc (suc (suc k)))) ≤ v = omega arith in
    let r : (result + 4) % 2 ^ 32 ≡ result + 4 = omega arith in
    count_digits_loop-suc fuel v result (omega (arith, ten_to-pos k))
    ∙ ap (λ n. count_digits_loop fuel (v / 10000) n) r
    ∙ count_digits_loop-digits fuel k (v / 10000) (result + 4) (omega arith) (inr (omega arith))
        (omega arith) (omega arith)
    ∙ ap some (omega arith)

-- `countDigits` is the length of the decimal text, for every `uint64_t`.
pub count_digits-IsDecimal :
    {v : ℕ} {s : Bytes} → IsDecimal v s → v < 2 ^ 64 → count_digits v ≡ some (length s)
unfolding count_digits
count_digits-IsDecimal {v} {s} d h =
    let few = few_digits d.rest v d.shortest h in
    count_digits_loop-digits 6 d.rest v 1 d.enough d.shortest (omega arith) (omega arith)
    ∙ ap some (omega (arith, ap length d.text, length-decimal (suc d.rest) v))
