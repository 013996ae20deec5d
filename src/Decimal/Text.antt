-- ===== src/Decimal/Text.antt =====
-- `sdsull2str` against a recursive description of decimal text.
use mathlib.Core.List.{reverse, reverse-append, reverse-cons}
use hiredis_vip.Base.{
  ℕ, zero, suc, ◌+◌, ◌-◌, ◌*◌, ◌/◌, ◌%◌, ◌<◌, ◌≤◌, [], ◌∷◌, ◌++◌, Bytes, some, length, get_or, set,
  ltb, ltb_of_le, lt→ltb, ◌==◌, true, ◌≡◌, ◌≢◌, refl, sym, ap, ap₂, ◌∙◌, ◌⊎◌, inl, inr, arith,
  length-append, append_assoc, append-nil, Bool-cases, ==_iff,
}
use hiredis_vip.Decimal.{write_digits, reverse_loop, sdsull2str, sdsll2str}
use hiredis_vip.Base.Int.{pos}

-- The k lowest digits of v, the highest first.
abbrev pub decimal : ℕ → ℕ → Bytes
decimal zero v = []
decimal (suc k) v = decimal k (v / 10) ++ ((b'0' + v % 10) ∷ [])

-- 10 ^ k
abbrev pub ten_to : ℕ → ℕ
ten_to zero = 1
ten_to (suc k) = 10 * ten_to k

-- The text of v: its digits, as many as it has.
pub record IsDecimal (v : ℕ) (s : Bytes) : Type 0 where
  pub rest : ℕ
  pub text : s ≡ decimal (suc rest) v
  pub enough : v < ten_to (suc rest)
  pub shortest : (rest ≡ 0) ⊎ (ten_to rest ≤ v)

lowest_first : ℕ → ℕ → Bytes
lowest_first zero v = []
lowest_first (suc k) v = (b'0' + v % 10) ∷ lowest_first k (v / 10)

-- The number of rounds after the first that the first loop takes.
write_digits-lowest_first :
    (fuel v : ℕ) (out : Bytes)
    → v < ten_to fuel
    → 0 < fuel
    → (k : ℕ) × (write_digits fuel v out ≡ some (out ++ lowest_first (suc k) v))
      × (v < ten_to (suc k))
      × ((k ≡ 0) ⊎ (ten_to k ≤ v))
      × (k < fuel)
unfolding write_digits lowest_first
write_digits-lowest_first zero v out h nz = absurd (omega arith)
write_digits-lowest_first (suc fuel) v out h nz = elim (Bool-cases (v / 10 == 0)) [
  | inl done ↦
      let e : v / 10 ≡ 0 = (==_iff _ _).0 done in (0, rw done, omega arith, inl refl, omega arith)
  | inr more ↦
      let ne : v / 10 ≢ 0 = ground arith in
      let (k, run, small, short, lt) =
        write_digits-lowest_first fuel (v / 10) (out ++ ((b'0' + v % 10) ∷ [])) (omega arith)
          (some_fuel fuel v ne h) in
      (
        suc k,
        rw (more, run) (ap some (append_assoc out ((b'0' + v % 10) ∷ []) _)),
        omega arith,
        inr (longer k v ne short),
        omega arith,
      )
]
  where
    some_fuel : (fuel v : ℕ) → v / 10 ≢ 0 → v < ten_to (suc fuel) → 0 < fuel
    some_fuel zero v ne h = absurd (omega arith)
    some_fuel (suc fuel) v ne h = omega arith

    longer : (k v : ℕ) → v / 10 ≢ 0 → (k ≡ 0) ⊎ (ten_to k ≤ v / 10) → ten_to (suc k) ≤ v
    longer k v ne (inl e) = rw e (omega arith)
    longer k v ne (inr le) = omega arith

set-append :
    (pre rest : Bytes) (x v : ℕ) (i : ℕ)
    → i ≡ length pre
    → set (pre ++ (x ∷ rest)) i v ≡ pre ++ (v ∷ rest)
set-append [] rest x v i e = rw e
set-append (y ∷ pre) rest x v i e =
    rw e (ap (λ l. y ∷ l) (set-append pre rest x v (length pre) refl))

get_or-append :
    (pre rest : Bytes) (x : ℕ) (i : ℕ) → i ≡ length pre → get_or (pre ++ (x ∷ rest)) i 0 ≡ x
get_or-append [] rest x i e = rw e
get_or-append (y ∷ pre) rest x i e = rw e (get_or-append pre rest x (length pre) refl)

-- A list is empty or ends in some element.
snoc_view : (xs : Bytes) → (xs ≡ []) ⊎ ((m : Bytes) × (y : ℕ) × (xs ≡ m ++ (y ∷ [])))
snoc_view [] = inl refl
snoc_view (x ∷ xs) = elim (snoc_view xs) [
  | inl e ↦ inr ([], x, ap (λ l. x ∷ l) e)
  | inr (m, y, e) ↦ inr (x ∷ m, y, ap (λ l. x ∷ l) e)
]

reverse-ends :
    (x : ℕ) (m : Bytes) (y : ℕ) → reverse (x ∷ (m ++ (y ∷ []))) ≡ y ∷ (reverse m ++ (x ∷ []))
reverse-ends x m y =
    reverse-cons x (m ++ (y ∷ [])) ∙ ap (λ l. l ++ (x ∷ [])) (reverse-append m (y ∷ []))

-- One round of the loop: the bytes at i and j change places.
swap_ends :
    (pre m post : Bytes) (x y i j : ℕ)
    → i ≡ length pre
    → j ≡ i + length m + 1
    → let s = pre ++ (x ∷ (m ++ (y ∷ post))) in
      set (set s i (get_or s j 0)) j (get_or s i 0) ≡ (pre ++ (y ∷ [])) ++ (m ++ (x ∷ post))
swap_ends pre m post x y i j hi hj =
    let at_j : (c : ℕ) → pre ++ (c ∷ (m ++ (y ∷ post))) ≡ (pre ++ (c ∷ m)) ++ (y ∷ post) =
      λ c. sym (append_assoc pre (c ∷ m) (y ∷ post)) in
    let len : (c : ℕ) → j ≡ length (pre ++ (c ∷ m)) =
      λ c. omega (arith, length-append pre (c ∷ m)) in
    let s = pre ++ (x ∷ (m ++ (y ∷ post))) in
    let read_j : get_or s j 0 ≡ y =
      ap (λ l. get_or l j 0) (at_j x) ∙ get_or-append (pre ++ (x ∷ m)) post y j (len x) in
    let read_i : get_or s i 0 ≡ x = get_or-append pre (m ++ (y ∷ post)) x i hi in
    ap₂ (λ a b. set (set s i a) j b) read_j read_i
    ∙ ap (λ l. set l j x) (set-append pre (m ++ (y ∷ post)) x y i hi)
    ∙ ap (λ l. set l j x) (at_j y)
    ∙ set-append (pre ++ (y ∷ m)) post y x j (len y)
    ∙ append_assoc pre (y ∷ m) (x ∷ post)
    ∙ sym (append_assoc pre (y ∷ []) (m ++ (x ∷ post)))

ends_outside :
    (pre mid m post : Bytes) (x y : ℕ)
    → mid ≡ m ++ (y ∷ [])
    → (pre ++ (y ∷ [])) ++ (reverse m ++ (x ∷ post)) ≡ pre ++ (reverse (x ∷ mid) ++ post)
ends_outside pre mid m post x y e =
    append_assoc pre (y ∷ []) (reverse m ++ (x ∷ post))
    ∙ ap (λ l. pre ++ (y ∷ l)) (sym (append_assoc (reverse m) (x ∷ []) post))
    ∙ ap (λ l. pre ++ (l ++ post)) (sym (reverse-ends x m y))
    ∙ ap (λ l. pre ++ (reverse (x ∷ l) ++ post)) (sym e)

-- The loop swaps the ends of the middle part `mid` and goes on inside it.
pub reverse_loop-reverse :
    (fuel : ℕ) (pre mid post : Bytes) (i j : ℕ)
    → i ≡ length pre
    → j + 1 ≡ i + length mid
    → length mid < fuel + fuel
    → reverse_loop fuel i j (pre ++ (mid ++ post)) ≡ some (pre ++ (reverse mid ++ post))
unfolding reverse_loop
reverse_loop-reverse zero pre mid post i j hi hj h = absurd (omega arith)
reverse_loop-reverse (suc fuel) pre [] post i j hi hj h = rw (ltb_of_le i j (omega arith))
reverse_loop-reverse (suc fuel) pre (x ∷ mid) post i j hi hj h = elim (snoc_view mid) [
  | inl e ↦ rw (e, ltb_of_le i j (omega (arith, ap length e)))
  | inr (m, y, e) ↦
      let n : length mid ≡ length m + 1 = omega (arith, ap length e, length-append m (y ∷ [])) in
      let lt : ltb i j ≡ true = lt→ltb i j (omega arith) in
      let body : (pre ++ (x ∷ (mid ++ post))) ≡ pre ++ (x ∷ (m ++ (y ∷ post))) =
        ap (λ l. pre ++ (x ∷ l)) (ap (λ l. l ++ post) e ∙ append_assoc m (y ∷ []) post) in
      rw (lt, body, swap_ends pre m post x y i j hi (omega arith))
        (reverse_loop-reverse fuel (pre ++ (y ∷ [])) m (x ∷ post) (i + 1) (j - 1)
            (omega (arith, length-append pre (y ∷ []))) (omega arith) (omega arith)
          ∙ ap some (ends_outside pre mid m post x y e))
]

lowest_first-decimal : (k v : ℕ) → reverse (lowest_first k v) ≡ decimal k v
unfolding lowest_first
lowest_first-decimal zero v = refl
lowest_first-decimal (suc k) v =
    reverse-cons (b'0' + v % 10) (lowest_first k (v / 10))
    ∙ ap (λ l. l ++ ((b'0' + v % 10) ∷ [])) (lowest_first-decimal k (v / 10))

reverse_loop-whole :
    (s : Bytes) → 0 < length s → reverse_loop (length s + 1) 0 (length s - 1) s ≡ some (reverse s)
reverse_loop-whole s nz =
    ap (λ l. reverse_loop (length s + 1) 0 (length s - 1) l) (sym (append-nil s))
    ∙ reverse_loop-reverse (length s + 1) [] s [] 0 (length s - 1) refl (omega arith) (omega arith)
    ∙ ap some (append-nil (reverse s))

-- `sdsull2str` ends, and writes the decimal text of any number of up to 20 digits, so of any
-- `unsigned long long`.
pub sdsull2str-IsDecimal :
    (v : ℕ) → v < ten_to 20 → (s : Bytes) × (sdsull2str v ≡ some s) × IsDecimal v s
unfolding sdsull2str
sdsull2str-IsDecimal v h =
    let (k, run, small, short, lt) = write_digits-lowest_first 20 v [] h (omega arith) in
    let s : Bytes = lowest_first (suc k) v in
    let nz : 0 < length s = unfold lowest_first in omega arith in
    (
      decimal (suc k) v,
      rw (run, sdsull2str) (reverse_loop-whole s nz ∙ ap some (lowest_first-decimal (suc k) v)),
      record { rest = k; text = refl; enough = small; shortest = short },
    )

-- `sdsll2str` writes what `sdsull2str` writes, where the number is not negative.
pub sdsll2str-pos : (v : ℕ) → sdsll2str (pos v) ≡ sdsull2str v
unfolding sdsll2str sdsull2str
sdsll2str-pos v = refl
