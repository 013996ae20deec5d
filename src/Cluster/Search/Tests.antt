-- ===== src/Cluster/Search/Tests.antt =====
-- A search among the regions of two masters, which are named by numbers.
use hiredis_vip.Base.{
  ℕ, ◌≤◌, ◌<◌, [], ◌∷◌, some, get_elem?-pair, get_elem?-either, ◌≡◌, refl, subst, inl, inr, arith,
}
use hiredis_vip.Cluster.{ClusterSlot}
use hiredis_vip.Cluster.Search.{found, missing, fault, node_get_by_slot}
use hiredis_vip.Cluster.Search.Laws.{IsOrdered, node_get_by_slot-found, node_get_by_slot-wraps}

abbrev low : ClusterSlot ℕ
low = record { start = 0; end = 5460; node = 1 }

abbrev high : ClusterSlot ℕ
high = record { start = 5461; end = 16383; node = 2 }

regions-IsOrdered : IsOrdered (low ∷ high ∷ [])
regions-IsOrdered = record {
  regions = λ i s e. elim (get_elem?-either low high i e) [
    | inl same ↦ subst (λ r. r.start ≤ r.end) same (omega arith)
    | inr same ↦ subst (λ r. r.start ≤ r.end) same (omega arith)
  ];
  apart = λ i j s t e e' h.
      let (first, second) = get_elem?-pair low high i j e e' h in
      subst (λ r. s.end < r.start) second (subst (λ r. r.end < 5461) first (omega arith));
}

node_get_by_slot-found_example : node_get_by_slot (some (low ∷ high ∷ [])) 9189 ≡ found 2
node_get_by_slot-found_example =
    node_get_by_slot-found (low ∷ high ∷ []) 9189 1 high regions-IsOrdered (omega arith)
      (omega arith) refl (omega arith, omega arith)

-- A cluster that does not cover the slots below 100.
abbrev late : ClusterSlot ℕ
late = record { start = 100; end = 5460; node = 1 }

node_get_by_slot-wraps_example : node_get_by_slot (some (late ∷ high ∷ [])) 7 ≡ fault
node_get_by_slot-wraps_example = node_get_by_slot-wraps late high 7 (omega arith) (omega arith)

one_region : node_get_by_slot (some (late ∷ [])) 7 ≡ missing
unfolding node_get_by_slot
one_region = refl
