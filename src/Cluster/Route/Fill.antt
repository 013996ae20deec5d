-- ===== src/Cluster/Route/Fill.antt =====
-- The table that the loops of the route fill, against the holders of each slot.
use hiredis_vip.Base.{
  ℕ, zero, suc, ◌+◌, ◌-◌, ◌≤◌, ◌<◌, List, [], ◌∷◌, ◌++◌, append_assoc, append-nil, Option, none,
  some, length, length-append, All, ◌==◌, if◌then◌else◌, ◌≡◌, refl, sym, ap, ◌∙◌, ◌⊎◌, inl, inr,
  arith, Bool-cases, Option-cases, le→leb, leb_of_lt, ==_refl, ==_of_ne, ==_iff,
}
use native.Mathlib.Decide.{dec_lt}
use hiredis_vip.Cluster.{ClusterSlot}
use hiredis_vip.Cluster.Route.{assign, fill_region, fill_table}
use hiredis_vip.Cluster.Route.Holders.{holders}

module _ {ℓ} {A : Type ℓ} where
  abbrev pub to_list : Option A → List A
  to_list none = []
  to_list (some a) = a ∷ []

  pub one_at_most : (o : Option A) → length (to_list o) ≤ 1
  one_at_most none = omega arith
  one_at_most (some a) = omega arith

  -- A table that has at each slot what is wanted there, or none and two nodes that want one slot.
  abbrev pub Fills : Option (ℕ → Option A) → (ℕ → List A) → Type ℓ
  Fills o want =
      ((table : ℕ → Option A) × (o ≡ some table) × ((k : ℕ) → to_list (table k) ≡ want k))
      ⊎ ((o ≡ none) × (k : ℕ) × (2 ≤ length (want k)))

  -- What a region of `count` slots from k on wants.
  abbrev span : ℕ → ℕ → A → ℕ → List A
  span k zero node n = []
  span k (suc count) node n =
      let rest = span (suc k) count node n in if n == k then node ∷ [] else rest

  span-below : (count k n : ℕ) (node : A) → n < k → span k count node n ≡ []
  span-below zero k n node h = refl
  span-below (suc count) k n node h =
      rw (==_of_ne n k (omega arith)) (span-below count (suc k) n node (omega arith))

  span-inside : (count k n : ℕ) (node : A) → k ≤ n → n < k + count → span k count node n ≡ node ∷ []
  span-inside zero k n node h h' = absurd (omega arith)
  span-inside (suc count) k n node h h' = elim (dec_lt k n) [
    | yes lt ↦
        rw (==_of_ne n k (omega arith))
          (span-inside count (suc k) n node (omega arith) (omega arith))
    | no ge ↦ let e : n ≡ k = omega arith in rw (e, ==_refl k) refl
  ]

  span-above : (count k n : ℕ) (node : A) → k + count ≤ n → span k count node n ≡ []
  span-above zero k n node h = refl
  span-above (suc count) k n node h =
      rw (==_of_ne n k (omega arith)) (span-above count (suc k) n node (omega arith))

  span-holders :
      (s : ClusterSlot A) (rest : List (ClusterSlot A)) (n : ℕ)
      → s.start ≤ s.end
      → span s.start (s.end + 1 - s.start) s.node n ++ holders rest n ≡ holders (s ∷ rest) n
  unfolding holders
  span-holders s rest n h = elim (dec_lt n s.start) [
    | yes lt ↦
        rw (span-below (s.end + 1 - s.start) s.start n s.node lt, leb_of_lt s.start n lt) refl
    | no ge ↦ elim (dec_lt s.end n) [
      | yes gt ↦
          rw
            (
              span-above (s.end + 1 - s.start) s.start n s.node (omega arith),
              leb_of_lt n s.end gt,
              le→leb s.start n (omega arith),
            )
            refl
      | no le ↦
          rw
            (
              span-inside (s.end + 1 - s.start) s.start n s.node (omega arith) (omega arith),
              le→leb s.start n (omega arith),
              le→leb n s.end (omega arith),
            )
            refl
    ]
  ]

  assign-want :
      (count k : ℕ) (node : A) (t : ℕ → Option A)
      → t k ≡ none
      → (n : ℕ)
      → to_list (assign t k node n) ++ span (suc k) count node n
        ≡ to_list (t n) ++ span k (suc count) node n
  assign-want count k node t e n = elim (Bool-cases (n == k)) [
    | inl h ↦
        let same : n ≡ k = (==_iff n k).0 h in
        rw (same, ==_refl k, e, span-below count (suc k) k node (omega arith)) refl
    | inr h ↦ rw (h) refl
  ]

  more : (xs ys : List A) → 2 ≤ length xs → 2 ≤ length (xs ++ ys)
  more xs ys h = omega (arith, length-append xs ys)

  fill_region-Fills :
      (count k : ℕ) (node : A) (t : ℕ → Option A)
      → Fills (fill_region count k node t) (λ n. to_list (t n) ++ span k count node n)
  unfolding fill_region
  fill_region-Fills zero k node t = inl (t, refl, λ n. sym (append-nil _))
  fill_region-Fills (suc count) k node t = elim (Option-cases (t k)) [
    | inr (other, e) ↦ inr (rw (e, fill_region) refl, k, rw (e, ==_refl k) (omega arith))
    | inl e ↦
        let same = assign-want count k node t e in
        elim (fill_region-Fills count (suc k) node (assign t k node)) [
          | inl (t', e', w) ↦ inl (t', rw (e, fill_region) e', λ n. w n ∙ same n)
          | inr (e', n, two) ↦ inr (rw (e, fill_region) e', n, rw (same n) at two)
        ]
  ]

  -- The table that is built has at each slot what was there and the holders of the slot.
  pub fill_table-Fills :
      (slots : List (ClusterSlot A)) (t : ℕ → Option A)
      → All (λ s. s.start ≤ s.end) slots
      → Fills (fill_table slots t) (λ n. to_list (t n) ++ holders slots n)
  unfolding fill_table holders
  fill_table-Fills [] t v = inl (t, refl, λ n. sym (append-nil _))
  fill_table-Fills (s ∷ rest) t (v, vs) =
      let region : ℕ → List A = λ n. span s.start (s.end + 1 - s.start) s.node n in
      let together : (n : ℕ)
          → (to_list (t n) ++ region n) ++ holders rest n ≡ to_list (t n) ++ holders (s ∷ rest) n =
        λ n.
          append_assoc (to_list (t n)) (region n) (holders rest n)
          ∙ ap (λ l. to_list (t n) ++ l) (span-holders s rest n v) in
      elim (fill_region-Fills (s.end + 1 - s.start) s.start s.node t) [
        | inr (e, n, two) ↦ inr (
          rw (e, fill_table) refl,
          n,
          rw (together n) at (more (to_list (t n) ++ region n) (holders rest n) two),
        )
        | inl (t', e, w) ↦ elim (fill_table-Fills rest t' vs) [
          | inl (t'', e', w') ↦ inl (
            t'',
            rw (e, fill_table) e',
            λ n. w' n ∙ ap (λ l. l ++ holders rest n) (w n) ∙ together n,
          )
          | inr (e', n, two) ↦ inr (rw (e, fill_table) e', n, rw (w n, together n) at two)
        ]
      ]
