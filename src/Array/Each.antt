-- ===== src/Array/Each.antt =====
-- `hiarray_each`: the walk over the elements, with its early exit.
use hiredis_vip.Base.{
  ℕ, zero, suc, ◌+◌, ◌<◌, List, [], ◌∷◌, Option, some, length, get_elem?, drop, ◌==◌, true, false,
  ◌≡◌, refl, ap, ◌∙◌, arith, Bool-cases, inl, inr,
}
use hiredis_vip.Array.{HiArray, load, get, each_from, each}
use hiredis_vip.Array.Valid.{Holds}
use hiredis_vip.Array.Laws.{load-get}

module _ {ℓ} {A : Type ℓ} where
  drop-get_elem? :
      (xs : List A) (i : ℕ)
      → i < length xs
      → (x : A) × (get_elem? xs i ≡ some x) × (drop i xs ≡ x ∷ drop (i + 1) xs)
  drop-get_elem? [] i h = absurd (omega arith)
  drop-get_elem? (x ∷ xs) zero h = (x, refl, refl)
  drop-get_elem? (x ∷ xs) (suc i) h =
      let (y, found, rest) = drop-get_elem? xs i (omega arith) in
      let e : suc (i + 1) ≡ suc i + 1 = omega arith in
      (y, found, rest ∙ ap (λ n. y ∷ drop n (x ∷ xs)) e)

  drop-all : (xs : List A) (i : ℕ) → i ≡ length xs → drop i xs ≡ []
  drop-all [] zero h = refl
  drop-all [] (suc i) h = refl
  drop-all (x ∷ xs) zero h = absurd (omega arith)
  drop-all (x ∷ xs) (suc i) h = drop-all xs i (omega arith)

module _ {ℓ κ} {A : Type ℓ} {S : Type κ} (func : Option A → S → ℕ × S) where
  -- What `hiarray_each` promises: the elements in order, up to the first failure.
  unfoldable pub visit : List A → S → ℕ × S
  visit [] s = (0, s)
  visit (x ∷ xs) s = let r = func (some x) s in elim (r.0 == 0) [ true ↦ visit xs r.1 | false ↦ r ]

  each_from-visit :
      (a : HiArray A) (xs : List A)
      → Holds a xs
      → (left i : ℕ) (s : S) → left + i ≡ length xs
      → each_from left i a func s ≡ visit (drop i xs) s
  unfolding each_from visit
  each_from-visit a xs h zero i s e = rw (drop-all xs i (omega arith))
  each_from-visit a xs h (suc left) i s e =
      let (x, found, rest) = drop-get_elem? xs i (omega arith) in
      let loaded : load a (get a i) ≡ some x = load-get i h (omega arith) ∙ found in
      rw (rest, loaded)
        (elim (Bool-cases ((func (some x) s).0 == 0)) [
          | inl ok ↦
              rw (ok, visit) (each_from-visit a xs h left (i + 1) (func (some x) s).1 (omega arith))
          | inr stop ↦ rw (stop, visit)
        ])

  -- On an array that holds the elements xs, `hiarray_each` calls the function once for each of them
  -- in order, as long as it returns HI_OK, and returns the first other status, or HI_OK.
  pub each-visit : (a : HiArray A) (xs : List A) (s : S) → Holds a xs → each a func s ≡ visit xs s
  unfolding each
  each-visit a xs s h = each_from-visit a xs h a.nelem 0 s (omega (arith, h.count))
