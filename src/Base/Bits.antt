-- ===== src/Base/Bits.antt =====
-- Laws of `^` and `&` at variables: the lowest digit, the high and the low byte, and a mask of
-- fourteen ones.
use Prim.Native.Nat.{
  ℕ, zero, suc, ◌+◌, ◌*◌, ◌/◌, ◌%◌, ◌≤◌, ◌<◌, min, bit_and, bit_xor, digits, differ,
  bit_and-bitwise, bit_xor-bitwise,
}
use mathlib.Core.Path.{◌≡◌, refl, ap, ap₂}
use native.Mathlib.Omega.{arith}
use native.Mathlib.Nat.{le_refl}

-- The fuel of the digit recursion does not matter once it covers the first operand.
module _ (z : ℕ → ℕ) (f : ℕ → ℕ → ℕ) where
  digits_enough : (n m a b : ℕ) → a ≤ n → a ≤ m → digits z f n a b ≡ digits z f m a b
  digits_enough zero zero a b hn hm = refl
  digits_enough zero (suc m) zero b hn hm = refl
  digits_enough zero (suc m) (suc a) b hn hm = absurd (omega arith)
  digits_enough (suc n) zero zero b hn hm = refl
  digits_enough (suc n) zero (suc a) b hn hm = absurd (omega arith)
  digits_enough (suc n) (suc m) zero b hn hm = refl
  digits_enough (suc n) (suc m) (suc a) b hn hm =
      omega (arith, digits_enough n m (suc a / 2) (b / 2) (omega arith) (omega arith))

pub zero-bit_xor : (b : ℕ) → bit_xor 0 b ≡ b
zero-bit_xor b = bit_xor-bitwise 0 b

differ-lt : (x y : ℕ) → x < 2 → y < 2 → differ x y < 2
differ-lt zero y hx hy = hy
differ-lt (suc zero) zero hx hy = omega arith
differ-lt (suc zero) (suc y) hx hy = omega arith
differ-lt (suc (suc x)) y hx hy = absurd (omega arith)

pub bit_xor_step : (a b : ℕ) → bit_xor a b ≡ bit_xor (a / 2) (b / 2) * 2 + differ (a % 2) (b % 2)
bit_xor_step zero b = omega (arith, zero-bit_xor b, zero-bit_xor (b / 2))
bit_xor_step (suc a) b = omega (
  arith,
  bit_xor-bitwise (suc a) b,
  bit_xor-bitwise (suc a / 2) (b / 2),
  digits_enough (λ y. y) differ a (suc a / 2) (suc a / 2) (b / 2) (omega arith) (omega arith),
)

-- The two halves of the step: the digits above the lowest, and the lowest.
pub bit_xor-half :
    (a b : ℕ)
    → (bit_xor a b / 2 ≡ bit_xor (a / 2) (b / 2)) × (bit_xor a b % 2 ≡ differ (a % 2) (b % 2))
bit_xor-half a b =
    omega (arith, bit_xor_step a b, differ-lt (a % 2) (b % 2) (omega arith) (omega arith))

differ-zero : (x : ℕ) → differ x 0 ≡ x
differ-zero zero = refl
differ-zero (suc x) = refl

bit_xor-zero_bounded : (n a : ℕ) → a ≤ n → bit_xor a 0 ≡ a
bit_xor-zero_bounded n zero h = refl
bit_xor-zero_bounded zero (suc a) h = absurd (omega arith)
bit_xor-zero_bounded (suc n) (suc a) h = omega (
  arith,
  bit_xor_step (suc a) 0,
  differ-zero (suc a % 2),
  bit_xor-zero_bounded n (suc a / 2) (omega arith),
)

-- 2 ^ k and 2 ^ k - 1, by recursion on k.
abbrev two_to : ℕ → ℕ
two_to zero = 1
two_to (suc k) = 2 * two_to k

abbrev ones : ℕ → ℕ
ones zero = 0
ones (suc k) = 2 * ones k + 1

doubled : (q k : ℕ) → q * two_to (suc k) ≡ 2 * (q * two_to k)
doubled q k = omega arith

-- An operand that is shifted left by k digits leaves the k low digits of the other alone.
bit_xor-fields :
    (k q r b : ℕ)
    → r < two_to k
    → bit_xor (q * two_to k + r) (b * two_to k) ≡ bit_xor q b * two_to k + r
bit_xor-fields zero q r b h =
    let e : q * 1 + r ≡ q = omega arith in
    let e' : b * 1 ≡ b = omega arith in
    let e'' : r ≡ 0 = omega arith in omega (arith, ap₂ bit_xor e e')
bit_xor-fields (suc k) q r b h = ground (
  arith,
  bit_xor_step (q * two_to (suc k) + r) (b * two_to (suc k)),
  doubled q k,
  doubled b k,
  differ-zero (r % 2),
  bit_xor-fields k q (r / 2) b (omega arith),
)

bit_and_low :
    (mask a : ℕ) → 2 * bit_and (a / 2) (mask / 2) + min (a % 2) (mask % 2) ≡ bit_and a mask
bit_and_low mask zero = omega (arith, bit_and-bitwise 0 (mask / 2), bit_and-bitwise 0 mask)
bit_and_low mask (suc a) =
    let half = suc a / 2 in
    let rest = digits_enough (λ y. 0) min a half half (mask / 2) (omega arith) (omega arith) in
    omega (arith, bit_and-bitwise half (mask / 2), bit_and-bitwise (suc a) mask)

no_mask : (a n : ℕ) → a ≤ n → bit_and a 0 ≡ 0
no_mask a zero h = ground (arith, bit_and-bitwise 0 0)
no_mask a (suc n) h = let above = no_mask (a / 2) n (omega arith) in omega (arith, bit_and_low 0 a)

bit_and-ones : (k q r : ℕ) → r < two_to k → bit_and (q * two_to k + r) (ones k) ≡ r
bit_and-ones zero q r h = omega (arith, no_mask (q * 1 + r) _ (le_refl _))
bit_and-ones (suc k) q r h = ground (
  arith,
  bit_and_low (ones (suc k)) (q * two_to (suc k) + r),
  doubled q k,
  bit_and-ones k q (r / 2) (omega arith),
)

pub bit_xor-byte :
    (a b : ℕ)
    → (bit_xor a (b * 256) / 256 ≡ bit_xor (a / 256) b) × (bit_xor a (b * 256) % 256 ≡ a % 256)
bit_xor-byte a b =
    let e : a / 256 * 256 + a % 256 ≡ a = omega arith in
    let split = bit_xor-fields 8 (a / 256) (a % 256) b (omega arith) in
    omega (arith, ap (λ (n : ℕ). bit_xor n (b * 256)) e)

pub bit_and-byte : (a : ℕ) → bit_and a 255 ≡ a % 256
bit_and-byte a =
    let e : a / 256 * 256 + a % 256 ≡ a = omega arith in
    let low = bit_and-ones 8 (a / 256) (a % 256) (omega arith) in
    omega (arith, ap (λ (n : ℕ). bit_and n 255) e)

pub bit_and-slot : (a : ℕ) → bit_and a 0x3FFF ≡ a % 16384
bit_and-slot a =
    let e : a / 16384 * 16384 + a % 16384 ≡ a = omega arith in
    let low = bit_and-ones 14 (a / 16384) (a % 16384) (omega arith) in
    omega (arith, ap (λ (n : ℕ). bit_and n 0x3FFF) e)

-- Operands of k digits have a result of k digits.
pub bit_xor-lt : (k a b : ℕ) → a < two_to k → b < two_to k → bit_xor a b < two_to k
bit_xor-lt zero a b ha hb =
    let e : a ≡ 0 = omega arith in let e' : b ≡ 0 = omega arith in omega (arith, ap₂ bit_xor e e')
bit_xor-lt (suc k) a b ha hb =
    omega (arith, bit_xor-half a b, bit_xor-lt k (a / 2) (b / 2) (omega arith) (omega arith))

bit_xor-above :
    (k q r t : ℕ)
    → r < two_to k
    → t < two_to k
    → bit_xor (q * two_to k + r) t ≡ q * two_to k + bit_xor r t
bit_xor-above zero q r t hr ht =
    let e : q * 1 + r ≡ q = omega arith in
    let e' : t ≡ 0 = omega arith in
    let e'' : r ≡ 0 = omega arith in
    omega (arith, ap₂ bit_xor e e', ap₂ bit_xor e'' e', bit_xor-zero_bounded q q (omega arith))
bit_xor-above (suc k) q r t hr ht = ground (
  arith,
  bit_xor_step (q * two_to (suc k) + r) t,
  bit_xor_step r t,
  doubled q k,
  bit_xor-above k q (r / 2) (t / 2),
)

-- `(uint16_t)((r << 8) ^ t)` keeps the low byte of r, shifted up.
pub bit_xor-word : (r t : ℕ) → t < 65536 → bit_xor (r * 256) t % 65536 ≡ bit_xor (r % 256 * 256) t
bit_xor-word r t h =
    let e : r / 256 * 65536 + r % 256 * 256 ≡ r * 256 = omega arith in
    let split = bit_xor-above 16 (r / 256) (r % 256 * 256) t (omega arith) h in
    omega (arith, ap (λ (n : ℕ). bit_xor n t) e, bit_xor-lt 16 (r % 256 * 256) t (omega arith) h)
