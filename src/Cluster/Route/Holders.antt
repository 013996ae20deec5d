-- ===== src/Cluster/Route/Holders.antt =====
-- Who holds a slot, read off a list of regions.
use mathlib.Core.Logic.{∥∥₁_elim, ∥∥₁_map}
use native.Mathlib.Nat.{ℕ_set}
use mathlib.Core.List.{Permᴰ}
use mathlib.Core.List.Permᴰ
use mathlib.Core.List.{Perm}
use hiredis_vip.Base.{
  ℕ, zero, suc, ◌≤◌, ◌<◌, List, [], ◌∷◌, ◌++◌, some, length, get_elem?, leb, ◌&&◌, if◌then◌else◌,
  Bool, true, ◌≡◌, refl, ap, ◌∙◌, arith, Bool-cases, inl, inr, le→leb, leb→le, and-true,
}
use hiredis_vip.Cluster.{ClusterSlot}
use hiredis_vip.Cluster.Search.Laws.{Covers}

Permᴰ-length {ℓ} : {B : Type ℓ} {xs ys : List B} → Permᴰ xs ys → length xs ≡ length ys
Permᴰ-length Permᴰ.nil = refl
Permᴰ-length (Permᴰ.cons e p) = ap suc (Permᴰ-length p)
Permᴰ-length (Permᴰ.swap e e') = refl
Permᴰ-length (Permᴰ.trans p q) = Permᴰ-length p ∙ Permᴰ-length q

module _ {ℓ} {A : Type ℓ} where
  abbrev pub covers : ClusterSlot A → ℕ → Bool
  covers s k = leb s.start k && leb k s.end

  -- The nodes of the regions that cover a slot.
  unfoldable pub holders : List (ClusterSlot A) → ℕ → List A
  holders [] k = []
  holders (s ∷ rest) k =
      let others = holders rest k in if covers s k then s.node ∷ others else others

  pub covers-true : (s : ClusterSlot A) (k : ℕ) → Covers s k → covers s k ≡ true
  covers-true s k c = rw (le→leb s.start k c.0, le→leb k s.end c.1) refl

  pub holders-one :
      (slots : List (ClusterSlot A)) (i k : ℕ) (s : ClusterSlot A)
      → get_elem? slots i ≡ some s
      → Covers s k
      → 1 ≤ length (holders slots k)
  unfolding holders
  holders-one [] i k s e c = absurd (cc e)
  holders-one (x ∷ slots) zero k s e c =
      let same : x ≡ s = cc e in rw (same, covers-true s k c) (omega arith)
  holders-one (x ∷ slots) (suc i) k s e c = elim (Bool-cases (covers x k)) [
    | inl h ↦ rw (h) (omega arith)
    | inr h ↦ rw (h) (holders-one slots i k s e c)
  ]

  -- Two regions that cover a slot make two holders.
  pub holders-two :
      (slots : List (ClusterSlot A)) (i j k : ℕ) (s t : ClusterSlot A)
      → get_elem? slots i ≡ some s
      → get_elem? slots j ≡ some t
      → i < j
      → Covers s k
      → Covers t k
      → 2 ≤ length (holders slots k)
  unfolding holders
  holders-two [] i j k s t e e' h c c' = absurd (cc e)
  holders-two (x ∷ slots) i zero k s t e e' h c c' = absurd (omega arith)
  holders-two (x ∷ slots) zero (suc j) k s t e e' h c c' =
      let same : x ≡ s = cc e in
      rw (same, covers-true s k c) (omega (arith, holders-one slots j k t e' c'))
  holders-two (x ∷ slots) (suc i) (suc j) k s t e e' h c c' =
      let rest = holders-two slots i j k s t e e' (omega arith) c c' in
      elim (Bool-cases (covers x k)) [ inl g ↦ rw (g) (omega arith) | inr g ↦ rw (g) rest ]

  hold :
      (s : ClusterSlot A) (k : ℕ) {xs ys : List A}
      → Permᴰ xs ys
      → Permᴰ (if covers s k then s.node ∷ xs else xs) (if covers s k then s.node ∷ ys else ys)
  hold s k p = elim (Bool-cases (covers s k)) [
    | inl h ↦ rw (h) (Permᴰ.cons refl p)
    | inr h ↦ rw (h) p
  ]

  hold-swap :
      (s t : ClusterSlot A) (k : ℕ) (xs : List A)
      → Permᴰ (holders (s ∷ t ∷ []) k ++ xs) (holders (t ∷ s ∷ []) k ++ xs)
  unfolding holders
  hold-swap s t k xs = elim (Bool-cases (covers s k)) [
    | inl h ↦ elim (Bool-cases (covers t k)) [
      | inl g ↦ rw (h, g) (Permᴰ.swap refl refl)
      | inr g ↦ rw (h, g) (Permᴰ.refl _)
    ]
    | inr h ↦ rw (h) (Permᴰ.refl _)
  ]

  holders-append :
      (xs ys : List (ClusterSlot A)) (k : ℕ) → holders (xs ++ ys) k ≡ holders xs k ++ holders ys k
  unfolding holders
  holders-append [] ys k = refl
  holders-append (x ∷ xs) ys k = elim (Bool-cases (covers x k)) [
    | inl h ↦ rw (h, holders-append xs ys k) refl
    | inr h ↦ rw (h, holders-append xs ys k) refl
  ]

  reorder :
      {slots slots' : List (ClusterSlot A)} (k : ℕ)
      → Permᴰ slots slots'
      → Permᴰ (holders slots k) (holders slots' k)
  unfolding holders
  reorder k Permᴰ.nil = Permᴰ.nil
  reorder k (Permᴰ.cons {a} {b} e p) = rw (e) (hold b k (reorder k p))
  reorder k (Permᴰ.swap {a} {b} {a'} {b'} {l} e e') =
      rw (e, e', holders-append (b' ∷ a' ∷ []) l k, holders-append (a' ∷ b' ∷ []) l k)
        (hold-swap b' a' k (holders l k))
  reorder k (Permᴰ.trans p q) = Permᴰ.trans (reorder k p) (reorder k q)

  -- The holders of a slot depend on the order of the regions in their own order only.
  pub holders-Perm :
      {slots slots' : List (ClusterSlot A)} (k : ℕ)
      → Perm slots slots'
      → Perm (holders slots k) (holders slots' k)
  holders-Perm k p = ∥∥₁_map p (reorder k)

  pub length-holders :
      {slots slots' : List (ClusterSlot A)} (k : ℕ)
      → Perm slots slots'
      → length (holders slots k) ≡ length (holders slots' k)
  length-holders k p = ∥∥₁_elim p (ℕ_set _ _) (λ d. Permᴰ-length (reorder k d))

  pub length-Perm :
      {slots slots' : List (ClusterSlot A)} → Perm slots slots' → length slots ≡ length slots'
  length-Perm p = ∥∥₁_elim p (ℕ_set _ _) Permᴰ-length

  -- The region of the one holder of a slot.
  pub held_by :
      (slots : List (ClusterSlot A)) (k : ℕ) (node : A)
      → node ∷ [] ≡ holders slots k
      → (i : ℕ) × (s : ClusterSlot A) × (get_elem? slots i ≡ some s) × Covers s k × (s.node ≡ node)
  unfolding holders
  held_by [] k node e = absurd (cc e)
  held_by (x ∷ slots) k node e = elim (Bool-cases (covers x k)) [
    | inl h ↦
        let (low, high) = and-true (leb x.start k) (leb k x.end) h in
        let e' : node ∷ [] ≡ x.node ∷ holders slots k = rw (h) at e in
        (0, x, refl, (leb→le x.start k low, leb→le k x.end high), cc e')
    | inr h ↦
        let (i, s, got, c, same) = held_by slots k node (rw (h) at e) in (suc i, s, got, c, same)
  ]
