-- ===== src/Cluster/Search/Laws.antt =====
-- The search against a plain description of who holds a slot.
use hiredis_vip.Base.{
  ℕ, zero, suc, ◌+◌, ◌-◌, ◌/◌, ◌^◌, ◌<◌, ◌≤◌, List, [], ◌∷◌, some, length, get_elem?, ltb, leb,
  true, false, ◌≡◌, refl, inl, inr, arith, Bool-cases, leb→le, leb_of_lt, lt→ltb, ltb_of_le,
}
use native.Mathlib.Decide.{dec_lt}
use hiredis_vip.Array.{u32}
use hiredis_vip.Cluster.{ClusterSlot, redis_cluster_slots}
use hiredis_vip.Cluster.Search.{found, fault, search_loop, node_get_by_slot}

module _ {ℓ} {A : Type ℓ} where
  abbrev pub Covers : ClusterSlot A → ℕ → Type 0
  Covers s n = (s.start ≤ n) × (n ≤ s.end)

  -- The regions follow one another, and none is empty.
  pub record IsOrdered (slots : List (ClusterSlot A)) : Type ℓ where
    pub regions : (i : ℕ) (s : ClusterSlot A) → get_elem? slots i ≡ some s → s.start ≤ s.end
    pub apart :
        (i j : ℕ) (s t : ClusterSlot A)
        → get_elem? slots i ≡ some s
        → get_elem? slots j ≡ some t
        → i < j
        → s.end < t.start

  get_elem?-some :
      (xs : List (ClusterSlot A)) (i : ℕ)
      → i < length xs
      → (x : ClusterSlot A) × (get_elem? xs i ≡ some x)
  get_elem?-some [] i h = absurd (omega arith)
  get_elem?-some (x ∷ xs) zero h = (x, refl)
  get_elem?-some (x ∷ xs) (suc i) h = get_elem?-some xs i (omega arith)

  pub get_elem?-lt :
      (xs : List (ClusterSlot A)) (i : ℕ) {x : ClusterSlot A}
      → get_elem? xs i ≡ some x
      → i < length xs
  get_elem?-lt [] i e = absurd (cc e)
  get_elem?-lt (y ∷ xs) zero e = omega arith
  get_elem?-lt (y ∷ xs) (suc i) e = omega (arith, get_elem?-lt xs i e)

  -- The three outcomes of a comparison with the region in the middle.
  before :
      {slots : List (ClusterSlot A)} (n i m : ℕ) (s t : ClusterSlot A)
      → IsOrdered slots
      → get_elem? slots i ≡ some s
      → get_elem? slots m ≡ some t
      → Covers s n
      → i < m
      → ltb n t.start ≡ true
  before n i m s t ord e e' c h = lt→ltb n t.start (omega (arith, ord.apart i m s t e e' h))

  behind :
      {slots : List (ClusterSlot A)} (n i m : ℕ) (s t : ClusterSlot A)
      → IsOrdered slots
      → get_elem? slots i ≡ some s
      → get_elem? slots m ≡ some t
      → Covers s n
      → m < i
      → (ltb n t.start ≡ false) × (ltb t.end n ≡ true)
  behind n i m s t ord e e' c h =
      let gap = ord.apart m i t s e' e h in
      let region = ord.regions m t e' in
      (ltb_of_le n t.start (omega arith), lt→ltb t.end n (omega arith))

  here : (n : ℕ) (s : ClusterSlot A) → Covers s n → (ltb n s.start ≡ false) × (ltb s.end n ≡ false)
  here n s c = (ltb_of_le n s.start (omega arith), ltb_of_le s.end n (omega arith))

  search_loop-found :
      (fuel : ℕ) (slots : List (ClusterSlot A)) (n first last i : ℕ) (s : ClusterSlot A)
      → IsOrdered slots
      → length slots < 2 ^ 32
      → get_elem? slots i ≡ some s
      → Covers s n
      → first ≤ i
      → i ≤ last
      → last < length slots
      → last < fuel + first
      → search_loop fuel slots n first last ≡ found s.node
  unfolding search_loop
  search_loop-found zero slots n first last i s ord small e c h h' top enough = absurd (omega arith)
  search_loop-found (suc fuel) slots n first last i s ord small e c h h' top enough =
      elim (Bool-cases (leb last first)) [
        | inl stop ↦
            let at : last ≡ i = omega (arith, leb→le last first stop) in
            let (low, high) = here n s c in rw (stop, at, e, low, high, search_loop)
        | inr more ↦
            let m = first + (last - first) / 2 in
            let (t, e') = get_elem?-some slots m (ground arith) in
            elim (dec_lt i m) [
              | yes lt ↦
                  let down : u32 (m + 2 ^ 32 - 1) ≡ m - 1 = omega arith in
                  rw (more, e', before n i m s t ord e e' c lt, more, more, down, search_loop)
                    (search_loop-found fuel slots n first (m - 1) i s ord small e c h (omega arith)
                      (omega arith) (omega arith))
              | no ge ↦ elim (dec_lt m i) [
                | yes gt ↦
                    let up : u32 (m + 1) ≡ m + 1 = omega arith in
                    let (low, high) = behind n i m s t ord e e' c gt in
                    rw (more, e', low, high, more, more, up, search_loop)
                      (search_loop-found fuel slots n (m + 1) last i s ord small e c (omega arith)
                        h' top (omega arith))
                | no le ↦
                    let at : m ≡ i = omega arith in
                    let (low, high) = here n s c in rw (more, at, e, low, high, search_loop)
              ]
            ]
      ]

  -- `node_get_by_slot` finds the holder of a slot that a region of the array covers, for fewer than
  -- 2^32 regions that are ordered and not empty.
  pub node_get_by_slot-found :
      (slots : List (ClusterSlot A)) (n i : ℕ) (s : ClusterSlot A)
      → IsOrdered slots
      → length slots < 2 ^ 32
      → n < redis_cluster_slots
      → get_elem? slots i ≡ some s
      → Covers s n
      → node_get_by_slot (some slots) n ≡ found s.node
  unfolding node_get_by_slot
  node_get_by_slot-found slots n i s ord small range e c =
      let inside : i < length slots = get_elem?-lt slots i e in
      let last : u32 (length slots + 2 ^ 32 - 1) ≡ length slots - 1 = omega arith in
      rw (leb_of_lt redis_cluster_slots n range, last)
        (search_loop-found (length slots + 2) slots n 0 (length slots - 1) i s ord small e c
          (omega arith) (omega arith) (omega arith) (omega arith))

  -- A slot before the first of two regions makes the search read outside of the array: the upper
  -- bound wraps below zero.
  pub node_get_by_slot-wraps :
      (s t : ClusterSlot A) (n : ℕ)
      → n < s.start
      → n < redis_cluster_slots
      → node_get_by_slot (some (s ∷ t ∷ [])) n ≡ fault
  unfolding node_get_by_slot search_loop
  node_get_by_slot-wraps s t n h range =
      rw (leb_of_lt redis_cluster_slots n range, lt→ltb n s.start h, search_loop)
