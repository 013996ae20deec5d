-- ===== src/Array/Valid.antt =====
-- hiarray.c: the storage invariant, and what an array holds.
use hiredis_vip.Base.{
  ℕ, zero, suc, ◌*◌, ◌/◌, ◌^◌, ◌<◌, ◌≤◌, List, [], ◌∷◌, ◌++◌, map, some, length, get_elem?, take,
  ◌≡◌, refl, ap, ◌∙◌, arith,
}
use native.Mathlib.Nat.{mul-div_cancel_left}
use hiredis_vip.Array.{HiArray, address, size_t, slot_value}

product-lt : (a b : ℕ) → a < 2 ^ 32 → b < 2 ^ 32 → a * b < 2 ^ 64
product-lt a b ha hb = grind arith

module _ {ℓ} {A : Type ℓ} where
  pub record IsValid (a : HiArray A) : Type 0 where
    pub width : length a.elem ≡ a.nalloc
    pub room : a.nelem ≤ a.nalloc
    pub some_room : 0 < a.nalloc
    pub word : a.nalloc < 2 ^ 32
    pub some_size : 0 < a.size
    pub small_size : a.size < 2 ^ 32

  -- The elements in use are xs, all of them written.
  pub record Holds (a : HiArray A) (xs : List A) : Type ℓ where
    pub valid : IsValid a
    pub count : length xs ≡ a.nelem
    pub filled : take a.nelem a.elem ≡ map some xs

  -- An address does not wrap, and leads back to its slot.
  pub address-div :
      (a : HiArray A) (i : ℕ) → 0 < a.size → a.size < 2 ^ 32 → i < 2 ^ 32 → address a i / a.size ≡ i
  address-div a i pos hs hi =
      let e : size_t (a.size * i) ≡ a.size * i = omega (arith, product-lt a.size i hs hi) in
      ap (λ (n : ℕ). n / a.size) e ∙ mul-div_cancel_left i pos

  pub get_elem?-take : (xs : List A) (n i : ℕ) → i < n → get_elem? (take n xs) i ≡ get_elem? xs i
  get_elem?-take xs zero i h = absurd (omega arith)
  get_elem?-take [] (suc n) i h = refl
  get_elem?-take (x ∷ xs) (suc n) zero h = refl
  get_elem?-take (x ∷ xs) (suc n) (suc i) h = get_elem?-take xs n i (omega arith)

  pub slot_value-map :
      (xs : List A) (i : ℕ) → slot_value (get_elem? (map some xs) i) ≡ get_elem? xs i
  slot_value-map [] i = refl
  slot_value-map (x ∷ xs) zero = refl
  slot_value-map (x ∷ xs) (suc i) = slot_value-map xs i

  pub map-snoc : (xs : List A) (v : A) → map some xs ++ (some v ∷ []) ≡ map some (xs ++ (v ∷ []))
  map-snoc [] v = refl
  map-snoc (x ∷ xs) v = ap (λ l. some x ∷ l) (map-snoc xs v)
