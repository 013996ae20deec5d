-- ===== src/Array/Laws.antt =====
-- hiarray.c: the operations against a plain list of the elements.
use hiredis_vip.Base.{
  ℕ, zero, suc, ◌+◌, ◌-◌, ◌*◌, ◌/◌, ◌^◌, ◌<◌, ◌≤◌, List, [], ◌∷◌, ◌++◌, map, Option, none, some,
  length, get_elem?, set, replicate, take, drop, ◌==◌, Bool, true, false, ◌≡◌, refl, sym, ap, ap₂,
  ◌∙◌, arith, length-append, length-set, length-replicate, take-set-suc, take-append_le, ◌⊎◌, inl,
  inr, Bool-cases,
}
use native.Mathlib.Nat.{mul-div_cancel_left}
use hiredis_vip.Array.{
  HiArray, create, address, idx, load, store, make_room, push, push_value, pop, get, top, size_t,
  u32, slot_value,
}
use hiredis_vip.Array.Valid.{IsValid, Holds, address-div, get_elem?-take, slot_value-map, map-snoc}

module _ {ℓ} {A : Type ℓ} where
  -- In an array that holds the elements xs, `hiarray_get` at an index below their number is a
  -- pointer to the element at that index.
  pub load-get :
      {a : HiArray A} {xs : List A} (i : ℕ)
      → Holds a xs
      → i < length xs
      → load a (get a i) ≡ get_elem? xs i
  unfolding load get
  load-get {a} {xs} i h lt =
      let v = h.valid in
      ap (λ n. slot_value (get_elem? a.elem n))
        (address-div a i v.some_size v.small_size (omega arith))
      ∙ ap slot_value (sym (get_elem?-take a.elem a.nelem i (omega arith)))
      ∙ ap (λ l. slot_value (get_elem? l i)) h.filled
      ∙ slot_value-map xs i

  -- The bytes that growing asks for.
  abbrev pub request : HiArray A → ℕ
  request a = size_t (2 * size_t (a.size * a.nalloc))

  grown-Holds :
      {a : HiArray A} {xs : List A}
      → Holds a xs
      → a.nalloc < 2 ^ 31
      → Holds
          (record a { elem = a.elem ++ replicate a.nalloc none; nalloc = u32 (a.nalloc * 2) })
          xs
  grown-Holds {a} {xs} h lt =
      let v = h.valid in
      record {
        valid = record {
          width = omega (
            arith,
            length-append a.elem (replicate a.nalloc none),
            length-replicate {A = Option A} a.nalloc none,
          );
          room = omega arith;
          some_room = omega arith;
          word = omega arith;
          some_size = v.some_size;
          small_size = v.small_size;
        };
        count = h.count;
        filled = take-append_le a.elem (replicate a.nalloc none) a.nelem (omega arith) ∙ h.filled;
      }

  written-Holds :
      {a : HiArray A} {xs : List A} (v : A)
      → Holds a xs
      → a.nelem < a.nalloc
      → Holds
          (store (record a { nelem = u32 (a.nelem + 1) }) (address a a.nelem) v)
          (xs ++ (v ∷ []))
  unfolding store
  written-Holds {a} {xs} v h lt =
      let ok = h.valid in
      let e : address a a.nelem / a.size ≡ a.nelem =
        address-div a a.nelem ok.some_size ok.small_size (omega arith) in
      let e' : u32 (a.nelem + 1) ≡ suc a.nelem = omega arith in
      record {
        valid = record {
          width = length-set a.elem _ (some v) ∙ ok.width;
          room = omega arith;
          some_room = ok.some_room;
          word = ok.word;
          some_size = ok.some_size;
          small_size = ok.small_size;
        };
        count = omega (arith, length-append xs (v ∷ []));
        filled =
            ap₂ (λ n i. take n (set a.elem i (some v))) e' e
            ∙ take-set-suc a.elem a.nelem (some v) (omega arith)
            ∙ ap (λ l. l ++ (some v ∷ [])) h.filled
            ∙ map-snoc xs v;
      }

  -- On an array that holds fewer than 2^31 elements, `hiarray_push`, with the write of the new
  -- element, fails exactly where the array is full and `realloc` refuses the bytes asked for; else
  -- the array holds the elements that it held and, behind them, the new one, within its storage.
  pub push_value-Holds :
      (grant : ℕ → Bool) {a : HiArray A} {xs : List A} (v : A)
      → Holds a xs
      → length xs < 2 ^ 31
      → ((push_value grant a v ≡ none) × (a.nelem ≡ a.nalloc) × (grant (request a) ≡ false))
        ⊎ ((b : HiArray A) × (push_value grant a v ≡ some b) × Holds b (xs ++ (v ∷ [])))
  unfolding push_value
  push_value-Holds grant {a} v h small = elim (Bool-cases (a.nelem == a.nalloc)) [
    | inr more ↦ inr (_, rw (more, push_value, push, make_room), written-Holds v h (ground arith))
    | inl full ↦ elim (Bool-cases (grant (request a))) [
      | inl granted ↦ inr (
        _,
        rw (full, granted, push_value, push, make_room),
        written-Holds v (grown-Holds h (ground arith)) (ground arith),
      )
      | inr refused ↦ inl (rw (full, refused, push_value, push, make_room), ground arith, refused)
    ]
  ]

  take-snoc :
      (ys : List (Option A)) (n : ℕ) (xs : List A) (v : A)
      → take (suc n) ys ≡ map some (xs ++ (v ∷ []))
      → length xs ≡ n
      → (take n ys ≡ map some xs) × (slot_value (get_elem? ys n) ≡ some v)
  take-snoc [] n [] v e l = cc
  take-snoc [] n (x ∷ xs) v e l = cc
  take-snoc (y ∷ ys) zero [] v e l = (refl, ap (λ k. slot_value (get_elem? k 0)) e)
  take-snoc (y ∷ ys) zero (x ∷ xs) v e l = absurd (omega arith)
  take-snoc (y ∷ ys) (suc n) [] v e l = absurd (omega arith)
  take-snoc (y ∷ ys) (suc n) (x ∷ xs) v e l =
      let (rest, last) = take-snoc ys n xs v (ap (drop 1) e) (omega arith) in
      (ap₂ ◌∷◌ (cc e) rest, last)

  -- `hiarray_pop` takes the last element of an array that holds one off: the pointer that it returns,
  -- which is that of `hiarray_top` too, still leads to the element, and the array holds the others.
  pub pop-Holds :
      {a : HiArray A} (xs : List A) (v : A)
      → Holds a (xs ++ (v ∷ []))
      → Holds (pop a).1 xs × (load (pop a).1 (pop a).0 ≡ some v) × (top a ≡ (pop a).0)
  unfolding pop top load get
  pop-Holds {a} xs v h =
      let ok = h.valid in
      let n : u32 (a.nelem + 2 ^ 32 - 1) ≡ length xs = omega (arith, length-append xs (v ∷ [])) in
      let m : a.nelem ≡ suc (length xs) = omega (arith, length-append xs (v ∷ [])) in
      let (rest, last) =
        take-snoc a.elem (length xs) xs v (ap (λ k. take k a.elem) (sym m) ∙ h.filled) refl in
      (
        record {
          valid = record {
            width = ok.width;
            room = omega (arith, length-append xs (v ∷ []));
            some_room = ok.some_room;
            word = ok.word;
            some_size = ok.some_size;
            small_size = ok.small_size;
          };
          count = sym n;
          filled = ap (λ k. take k a.elem) n ∙ rest;
        },
        ap (λ k. slot_value (get_elem? a.elem (address a k / a.size))) n
            ∙ ap (λ k. slot_value (get_elem? a.elem k))
                (address-div a (length xs) ok.some_size ok.small_size (omega arith))
            ∙ last,
        refl,
      )

  -- `hiarray_idx` undoes `hiarray_get` at the index of an element in use, in a valid array whose
  -- storage is less than 4 GiB.
  pub idx-get :
      {a : HiArray A} (i : ℕ)
      → IsValid a
      → i < a.nelem
      → a.size * a.nalloc < 2 ^ 32
      → idx a (get a i) ≡ i
  unfolding idx get
  idx-get {a} i v lt small =
      let le : a.size * i ≤ a.size * a.nalloc = grind arith in
      let e : u32 (address a i) ≡ a.size * i = omega arith in
      let e' : u32 a.size ≡ a.size = omega arith in ap₂ ◌/◌ e e' ∙ mul-div_cancel_left i v.some_size

  -- What an array starts as.
  abbrev pub fresh : ℕ → ℕ → HiArray A
  fresh n size = record { nelem = 0; elem = replicate n none; size = size; nalloc = n }

  -- `hiarray_create` returns NULL exactly where one of its two requests for memory is refused; else
  -- the array is valid and empty, for a capacity and a size of the elements from 1 to 2^32 - 1.
  pub create-Holds :
      (grant : ℕ → Bool) (header n size : ℕ)
      → 0 < n
      → n < 2 ^ 32
      → 0 < size
      → size < 2 ^ 32
      → ((create {A = A} grant header n size ≡ none)
          × ((grant header ≡ false) ⊎ (grant (size_t (n * size)) ≡ false)))
        ⊎ ((create grant header n size ≡ some (fresh n size)) × Holds (fresh n size) [])
  unfolding create
  create-Holds grant header n size hn hn' hs hs' = elim (Bool-cases (grant header)) [
    | inr refused ↦ inl (rw refused, inl refused)
    | inl first ↦ elim (Bool-cases (grant (size_t (n * size)))) [
      | inr refused ↦ inl (rw (first, refused), inr refused)
      | inl second ↦ inr (
        rw (first, second),
        record {
          valid = record {
            width = length-replicate n none;
            room = omega arith;
            some_room = hn;
            word = hn';
            some_size = hs;
            small_size = hs';
          };
          count = refl;
          filled = refl;
        },
      )
    ]
  ]

  -- On an array that is full at 2^31 elements, where `realloc` serves the request, `hiarray_push`
  -- succeeds and leaves a capacity of 0 below a count of 2^31 + 1: `nalloc *= 2` wraps.
  pub push-wraps :
      (grant : ℕ → Bool) (a : HiArray A)
      → a.nelem ≡ 2 ^ 31
      → a.nalloc ≡ 2 ^ 31
      → grant (request a) ≡ true
      → (p : ℕ) × (b : HiArray A) × (push grant a ≡ some (p, b))
        × (b.nalloc ≡ 0)
        × (b.nelem ≡ 2 ^ 31 + 1)
  unfolding push make_room
  push-wraps grant a hn ha g =
      let e : (a.nelem == a.nalloc) ≡ true = ground arith in
      let b : HiArray A = record a {
        elem = a.elem ++ replicate a.nalloc none;
        nalloc = u32 (a.nalloc * 2);
      } in
      (
        address b b.nelem,
        record b { nelem = u32 (b.nelem + 1) },
        rw (e, g, push, make_room),
        omega arith,
        omega arith,
      )
