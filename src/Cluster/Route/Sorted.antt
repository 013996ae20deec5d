-- ===== src/Cluster/Route/Sorted.antt =====
-- What `qsort` promises of one call, and what it comes to for the regions of a route.
use mathlib.Core.List.{Perm}
use hiredis_vip.Base.{
  ℕ, suc, ◌≤◌, ◌<◌, List, some, length, get_elem?, ◌≡◌, ◌≢◌, refl, ◌⊎◌, inl, inr, arith, ltb_of_le,
  lt→ltb,
}
use native.Mathlib.Decide.{dec_lt}
use hiredis_vip.Base.Int.{ℤ, pos, negsuc}
use hiredis_vip.Cluster.{ClusterSlot}
use hiredis_vip.Cluster.Search.Laws.{IsOrdered}
use hiredis_vip.Cluster.Route.{cluster_slot_start_cmp}
use hiredis_vip.Cluster.Route.Holders.{holders, holders-two}

module _ {ℓ} {S : Type ℓ} where
  -- The comparison orders the elements at different places of the list by their rank.
  abbrev pub Ranks : (S → S → ℤ) → (S → ℕ) → List S → Type ℓ
  Ranks cmp rank xs =
      (i j : ℕ) (s t : S)
      → get_elem? xs i ≡ some s
      → get_elem? xs j ≡ some t
      → i ≢ j
      → ((rank s < rank t) × (n : ℕ) × (cmp s t ≡ negsuc n))
        ⊎ (((rank t < rank s) × (n : ℕ) × (cmp s t ≡ pos (suc n)))
            ⊎ ((rank s ≡ rank t) × (cmp s t ≡ pos 0)))

  -- `qsort` permutes the list, and where the comparison is that of a rank, the ranks ascend.
  pub record Sorts (qsort : (S → S → ℤ) → List S → List S) (cmp : S → S → ℤ) (xs : List S)
      : Type ℓ where
    pub permutes : Perm (qsort cmp xs) xs
    pub ascends :
        (rank : S → ℕ)
        → Ranks cmp rank xs
        → (i j : ℕ) (s t : S) → get_elem? (qsort cmp xs) i ≡ some s
        → get_elem? (qsort cmp xs) j ≡ some t
        → i < j
        → rank s ≤ rank t

module _ {ℓ} {A : Type ℓ} where
  -- No slot is held twice.
  abbrev pub Apart : List (ClusterSlot A) → Type 0
  Apart slots = (k : ℕ) → length (holders slots k) ≤ 1

  abbrev pub IsRegion : ClusterSlot A → Type 0
  IsRegion s = s.start ≤ s.end

  distinct :
      (slots : List (ClusterSlot A)) (i j : ℕ) (s t : ClusterSlot A)
      → ((i : ℕ) (s : ClusterSlot A) → get_elem? slots i ≡ some s → IsRegion s)
      → Apart slots
      → get_elem? slots i ≡ some s
      → get_elem? slots j ≡ some t
      → i ≢ j
      → s.start ≢ t.start
  distinct slots i j s t regions apart e e' ne same =
      let v = regions i s e in
      let v' = regions j t e' in
      let one = apart s.start in
      elim (dec_lt i j) [
        | yes lt ↦ absurd (
            omega (
              arith,
              holders-two slots i j s.start s t e e' lt (omega arith, v) (omega arith, omega arith),
            ))
        | no ge ↦ absurd (
            omega (
              arith,
              holders-two slots j i s.start t s e' e (omega arith) (omega arith, omega arith)
                  (omega arith, v),
            ))
      ]

  pub start_cmp-Ranks :
      (slots : List (ClusterSlot A))
      → ((i : ℕ) (s : ClusterSlot A) → get_elem? slots i ≡ some s → IsRegion s)
      → Apart slots
      → Ranks cluster_slot_start_cmp (λ s. s.start) slots
  unfolding cluster_slot_start_cmp
  start_cmp-Ranks slots regions apart i j s t e e' ne =
      let differ = distinct slots i j s t regions apart e e' ne in
      elim (dec_lt s.start t.start) [
        | yes lt ↦ inl (lt, 0, rw (ltb_of_le t.start s.start (omega arith)) refl)
        | no ge ↦
            let gt : t.start < s.start = omega (arith, differ) in
            inr (inl (gt, 0, rw (lt→ltb t.start s.start gt) refl))
      ]

  -- Sorted by their starts, regions that are apart are ordered.
  pub ascending-IsOrdered :
      (slots : List (ClusterSlot A))
      → ((i : ℕ) (s : ClusterSlot A) → get_elem? slots i ≡ some s → IsRegion s)
      → Apart slots
      → ((i j : ℕ) (s t : ClusterSlot A)
          → get_elem? slots i ≡ some s
          → get_elem? slots j ≡ some t
          → i < j
          → s.start ≤ t.start)
      → IsOrdered slots
  ascending-IsOrdered slots regions apart ascends = record {
    regions = regions;
    apart = λ i j s t e e' lt.
        let v = regions j t e' in
        let up = ascends i j s t e e' lt in
        let one = apart t.start in
        elim (dec_lt s.end t.start) [
          | yes h ↦ h
          | no h ↦ absurd (
              omega (
                arith,
                holders-two slots i j t.start s t e e' lt (up, omega arith) (omega arith, v),
              ))
        ];
  }
