-- ===== src/Cluster/Route/Collect.antt =====
-- What the loops on the nodes collect, and the routes that they accept.
use native.Mathlib.Bridge.{le_prop}
use mathlib.Core.Logic.{∥∥₁_elim}
use mathlib.Core.List.{Perm, Permᴰ}
use mathlib.Core.List.Permᴰ
use hiredis_vip.Base.{
  ℕ, zero, suc, ◌≤◌, ◌<◌, List, [], ◌∷◌, ◌++◌, append_assoc, append-nil, Option, none, some,
  get_elem?, All, ltb, leb, ◌||◌, true, false, Bytes, ◌≡◌, refl, ap, subst, ◌∙◌, ◌⊎◌, inl, inr, ◌↔◌,
  arith, Bool-cases, Option-cases, leb_of_lt, ltb_of_le,
}
use hiredis_vip.Cluster.{ClusterSlot, redis_cluster_slots}
use hiredis_vip.Cluster.Context.{ClusterNode, err_other, err_oom}
use hiredis_vip.Command.Keywords.{codes}
use hiredis_vip.Cluster.Route.{Routed, refused, routed, is_master, push_regions, collect_slots}
use hiredis_vip.Cluster.Route.Sorted.{Apart, IsRegion}

-- A loop that takes all, or stops at an element that is not good.
abbrev Takes {κ} : {B : Type κ} → Routed B → B → Type 0 → Type κ
Takes r b Good =
    ((r ≡ routed b) × Good) ⊎ (((type : ℕ) × (str : Bytes) × (r ≡ refused type str)) × ¬ Good)

module _ {ℓ} {A : Type ℓ} where
  abbrev regions : Option (List (ClusterSlot A)) → List (ClusterSlot A)
  regions none = []
  regions (some slots) = slots

  -- The regions of the nodes, in their order.
  abbrev pub regions_of : List (ClusterNode A) → List (ClusterSlot A)
  regions_of [] = []
  regions_of (m ∷ rest) = regions m.slots ++ regions_of rest

  abbrev pub InRange : ClusterSlot A → Type 0
  InRange s = (s.start ≤ s.end) × (s.end < redis_cluster_slots)

  abbrev pub Masters : List (ClusterNode A) → Type 0
  Masters nodes = All (λ m. is_master m.role ≡ true) nodes

  -- What the nodes of a route must be: masters, with regions in range that hold no slot twice.
  pub record IsRoute (nodes : List (ClusterNode A)) : Type ℓ where
    pub masters : Masters nodes
    pub in_range : All InRange (regions_of nodes)
    pub apart : Apart (regions_of nodes)

  All-append :
      (P : ClusterSlot A → Type 0) (xs ys : List (ClusterSlot A))
      → All P (xs ++ ys) ↔ (All P xs × All P ys)
  All-append P [] ys = (λ h. (tt, h), λ h. h.1)
  All-append P (x ∷ xs) ys = (
    λ (p, ps). let (l, r) = (All-append P xs ys).0 ps in ((p, l), r),
    λ ((p, l), r). (p, (All-append P xs ys).1 (l, r)),
  )

  out_of_range :
      (s : ClusterSlot A)
      → (ltb s.end s.start || leb redis_cluster_slots s.end) ≡ true
      → ¬ InRange s
  out_of_range s bad (low, high) =
      absurd (cc (ltb_of_le s.end s.start low, leb_of_lt redis_cluster_slots s.end high, bad))

  range_of :
      (s : ClusterSlot A) → (ltb s.end s.start || leb redis_cluster_slots s.end) ≡ false → InRange s
  range_of s good = (ground arith, ground arith)

  push_regions-Takes :
      (rs slots : List (ClusterSlot A))
      → Takes (push_regions rs slots) (slots ++ rs) (All InRange rs)
  unfolding push_regions
  push_regions-Takes [] slots = inl (rw (append-nil slots) refl, tt)
  push_regions-Takes (s ∷ rs) slots =
      elim (Bool-cases (ltb s.end s.start || leb redis_cluster_slots s.end)) [
        | inl bad ↦ inr (
          (err_other, codes "Slot region for node is error", rw (bad, push_regions) refl),
          λ g. out_of_range s bad g.0,
        )
        | inr good ↦ elim (push_regions-Takes rs (slots ++ (s ∷ []))) [
          | inl (e, all) ↦ inl (
            rw (good, push_regions) (e ∙ ap routed (append_assoc slots (s ∷ []) rs)),
            (range_of s good, all),
          )
          | inr ((type, str, e), no_good) ↦
              inr ((type, str, rw (good, push_regions) e), λ g. no_good g.1)
        ]
      ]

  pub collect_slots-Takes :
      (nodes : List (ClusterNode A)) (slots : List (ClusterSlot A))
      → Takes
          (collect_slots nodes slots)
          (slots ++ regions_of nodes)
          (Masters nodes × All InRange (regions_of nodes))
  unfolding collect_slots
  collect_slots-Takes [] slots = inl (rw (append-nil slots) refl, (tt, tt))
  collect_slots-Takes (m ∷ nodes) slots = elim (Bool-cases (is_master m.role)) [
    | inr other ↦ inr (
      (err_oom, codes "Node role must be master", rw (other, collect_slots) refl),
      λ ((h, hs), g). absurd (cc (h, other)),
    )
    | inl master ↦ elim (Option-cases m.slots) [
      | inl empty ↦ elim (collect_slots-Takes nodes slots) [
        | inl (e, (all, all')) ↦
            inl (rw (master, empty, collect_slots) e, ((master, all), rw (empty) all'))
        | inr ((type, str, e), no_good) ↦ inr (
          (type, str, rw (master, empty, collect_slots) e),
          λ ((h, hs), g). no_good (hs, rw (empty) at g),
        )
      ]
      | inr (rs, some_rs) ↦ elim (push_regions-Takes rs slots) [
        | inr ((type, str, e), no_good) ↦ inr (
          (type, str, rw (master, some_rs, e, collect_slots) refl),
          λ (h, g). no_good ((All-append InRange rs (regions_of nodes)).0 (rw (some_rs) at g)).0,
        )
        | inl (e, good) ↦ elim (collect_slots-Takes nodes (slots ++ rs)) [
          | inl (e', (all, all')) ↦ inl (
            rw (master, some_rs, e, collect_slots)
                (e' ∙ ap routed (append_assoc slots rs (regions_of nodes))),
            (
              (master, all),
              rw (some_rs) ((All-append InRange rs (regions_of nodes)).1 (good, all')),
            ),
          )
          | inr ((type, str, e'), no_good) ↦ inr (
            (type, str, rw (master, some_rs, e, collect_slots) e'),
            λ ((h, hs), g).
                no_good (hs, ((All-append InRange rs (regions_of nodes)).0 (rw (some_rs) at g)).1),
          )
        ]
      ]
    ]
  ]

  pub All-get :
      (P : ClusterSlot A → Type 0) (xs : List (ClusterSlot A))
      → All P xs
      → (i : ℕ) (s : ClusterSlot A) → get_elem? xs i ≡ some s
      → P s
  All-get P [] all i s e = absurd (cc e)
  All-get P (x ∷ xs) (p, ps) zero s e = let same : x ≡ s = cc e in subst P same p
  All-get P (x ∷ xs) (p, ps) (suc i) s e = All-get P xs ps i s e

  All-Perm :
      (P : ClusterSlot A → Type 0) {xs ys : List (ClusterSlot A)}
      → Permᴰ xs ys
      → All P xs
      → All P ys
  All-Perm P Permᴰ.nil h = tt
  All-Perm P (Permᴰ.cons e p) (h, hs) = (subst P e h, All-Perm P p hs)
  All-Perm P (Permᴰ.swap e e') (h, (h', hs)) = (subst P e' h', (subst P e h, hs))
  All-Perm P (Permᴰ.trans p q) h = All-Perm P q (All-Perm P p h)

  regions-prop : (xs : List (ClusterSlot A)) → IsProp (All IsRegion xs)
  regions-prop [] = hlevel
  regions-prop (x ∷ xs) = let tail = regions-prop xs in hlevel (le_prop {n = x.start} {m = x.end})

  InRange-regions : (xs : List (ClusterSlot A)) → All InRange xs → All IsRegion xs
  InRange-regions [] h = tt
  InRange-regions (x ∷ xs) (h, hs) = (h.0, InRange-regions xs hs)

  -- Regions stay regions in another order.
  pub reordered-regions :
      (xs ys : List (ClusterSlot A)) → Perm ys xs → All InRange xs → All IsRegion ys
  reordered-regions xs ys p h =
      ∥∥₁_elim p (regions-prop ys) (λ d. All-Perm IsRegion (Permᴰ.symm d) (InRange-regions xs h))

  InRange-prop : (xs : List (ClusterSlot A)) → IsProp (All InRange xs)
  InRange-prop [] = hlevel
  InRange-prop (x ∷ xs) =
      let tail = InRange-prop xs in
      let ordered : IsProp (x.start ≤ x.end) = le_prop {n = x.start} {m = x.end} in
      let below : IsProp (x.end < redis_cluster_slots) = le_prop in hlevel (ordered, below)

  -- Regions in range stay in range in another order.
  pub reordered-InRange :
      (xs ys : List (ClusterSlot A)) → Perm ys xs → All InRange xs → All InRange ys
  reordered-InRange xs ys p h =
      ∥∥₁_elim p (InRange-prop ys) (λ d. All-Perm InRange (Permᴰ.symm d) h)
