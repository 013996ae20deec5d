-- ===== src/Array.antt =====
-- hiarray.c: the growing array. `elem` is the allocated storage, slot by slot (`none` is memory
-- that nothing has written), and a pointer into it is its distance from `a->elem` in bytes.
-- `malloc` and `realloc` are not of the program: `grant` says whether they serve a request of so
-- many bytes. The assertions are compiled out, as in the default build.
use hiredis_vip.Base.{
  ℕ, zero, suc, ◌+◌, ◌-◌, ◌*◌, ◌/◌, ◌%◌, ◌^◌, List, [], ◌∷◌, ◌++◌, Option, none, some, length,
  get_elem?, take, drop, set, replicate, ◌==◌, if◌then◌else◌, Bool, true, false,
}
pub mod Valid
pub mod Laws
pub mod Each
mod Tests

pub record HiArray {ℓ} (A : Type ℓ) : Type ℓ where
  pub nelem : ℕ
  pub elem : List (Option A)
  pub size : ℕ
  pub nalloc : ℕ

-- `uint32_t` and `size_t`
abbrev pub u32 : ℕ → ℕ
u32 n = n % 2 ^ 32

abbrev pub size_t : ℕ → ℕ
size_t n = n % 2 ^ 64

module _ {ℓ} {A : Type ℓ} where
  -- `hiarray_create` asks for the struct first, whose size `header` is the compiler's.
  unfoldable pub create : (ℕ → Bool) → ℕ → ℕ → ℕ → Option (HiArray A)
  create grant header n size =
      if grant header
      then if grant (size_t (n * size))
        then some (record { nelem = 0; elem = replicate n none; size = size; nalloc = n })
        else none
      else none

  -- `hiarray_init`: `none` is HI_ENOMEM.
  unfoldable pub init : (ℕ → Bool) → ℕ → ℕ → Option (HiArray A)
  init grant n size =
      if grant (size_t (n * size))
      then some (record { nelem = 0; elem = replicate n none; size = size; nalloc = n })
      else none

  -- `(uint8_t *)a->elem + a->size * i`
  abbrev pub address : HiArray A → ℕ → ℕ
  address a i = size_t (a.size * i)

  -- `hiarray_idx` at a pointer `off` bytes into the storage
  unfoldable pub idx : HiArray A → ℕ → ℕ
  idx a off = u32 off / u32 a.size

  abbrev pub slot_value : Option (Option A) → Option A
  slot_value none = none
  slot_value (some slot) = slot

  -- The element that a pointer leads to, and a write through it.
  unfoldable pub load : HiArray A → ℕ → Option A
  load a p = slot_value (get_elem? a.elem (p / a.size))

  unfoldable pub store : HiArray A → ℕ → A → HiArray A
  store a p v = record a { elem = set a.elem (p / a.size) (some v) }

  -- The block at the head of `hiarray_push`: the storage is doubled when it is full.
  unfoldable pub make_room : (ℕ → Bool) → HiArray A → Option (HiArray A)
  make_room grant a =
      if a.nelem == a.nalloc
      then if grant (size_t (2 * size_t (a.size * a.nalloc)))
        then some
            (record a { elem = a.elem ++ replicate a.nalloc none; nalloc = u32 (a.nalloc * 2) })
        else none
      else some a

  -- `hiarray_push`: the pointer to the new element; `none` is NULL, and the array is unchanged.
  unfoldable pub push : (ℕ → Bool) → HiArray A → Option (ℕ × HiArray A)
  push grant a = elim (make_room grant a) [
    | none ↦ none
    | some b ↦ some (address b b.nelem, record b { nelem = u32 (b.nelem + 1) })
  ]

  -- `hiarray_pop`; `nelem--` wraps below zero.
  unfoldable pub pop : HiArray A → ℕ × HiArray A
  pop a = let n = u32 (a.nelem + 2 ^ 32 - 1) in (address a n, record a { nelem = n })

  unfoldable pub get : HiArray A → ℕ → ℕ
  get a i = address a i

  unfoldable pub top : HiArray A → ℕ
  top a = get a (u32 (a.nelem + 2 ^ 32 - 1))

  unfoldable pub swap : HiArray A → HiArray A → HiArray A × HiArray A
  swap a b = let tmp = a in let a' = b in let b' = tmp in (a', b')

  -- `hiarray_sort`; `qsort` is the C library's, on the elements in use.
  unfoldable pub sort : (List (Option A) → List (Option A)) → HiArray A → HiArray A
  sort qsort a = record a { elem = qsort (take a.nelem a.elem) ++ drop a.nelem a.elem }

  -- `hiarray_push` and the writes of a caller through the pointer, as `kpos->start = m` and so on.
  unfoldable pub push_value : (ℕ → Bool) → HiArray A → A → Option (HiArray A)
  unfolding push make_room store
  push_value grant a v = elim (push grant a) [ none ↦ none | some (p, b) ↦ some (store b p v) ]

-- `hiarray_each`: HI_OK is 0; `func` may change what `data` leads to.
module _ {ℓ κ} {A : Type ℓ} {S : Type κ} where
  unfoldable pub each_from : ℕ → ℕ → HiArray A → (Option A → S → ℕ × S) → S → ℕ × S
  each_from zero i a func s = (0, s)
  each_from (suc left) i a func s =
      let (status, s') = func (load a (get a i)) s in
      let rest = each_from left (i + 1) a func s' in if status == 0 then rest else (status, s')

  unfoldable pub each : HiArray A → (Option A → S → ℕ × S) → S → ℕ × S
  unfolding each_from
  each a func s = each_from a.nelem 0 a func s
