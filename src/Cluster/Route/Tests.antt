-- ===== src/Cluster/Route/Tests.antt =====
-- An update of the route for two masters, which the reply lists from the higher slots on.
use mathlib.Core.List.{Perm}
use mathlib.Core.List.Perm
use hiredis_vip.Base.{
  ℕ, zero, suc, ◌≤◌, ◌<◌, List, [], ◌∷◌, none, some, get_elem?-pair, ◌≡◌, refl, subst, inl, inr,
  arith, true, false, ◌↔◌, All, get_elem?,
}
use hiredis_vip.Base.Int.{ℤ, pos, negsuc}
use hiredis_vip.Cluster.{ClusterSlot, redis_cluster_slots}
use hiredis_vip.Cluster.Context.{
  ClusterNode, RedisClusterContext, role_master, role_slave, node_get_by_table,
}
use hiredis_vip.Cluster.Search.{found, node_get_by_slot}
use hiredis_vip.Cluster.Route.{update_route, releases_twice, cluster_slot_start_cmp}
use hiredis_vip.Cluster.Route.Holders.{holders}
use hiredis_vip.Cluster.Route.Fill.{to_list}
use hiredis_vip.Cluster.Route.Sorted.{Sorts}
use hiredis_vip.Cluster.Route.Collect.{IsRoute, Masters, InRange, regions_of}
use hiredis_vip.Cluster.Route.Update.{
  update_route-IsRoute, update_route-holders, update_route-kept, update_route-node_get_by_slot,
}

abbrev low : ClusterSlot ℕ
low = record { start = 0; end = 3; node = 1 }

abbrev high : ClusterSlot ℕ
high = record { start = 4; end = 9; node = 2 }

-- It wants slots of both.
abbrev clash : ClusterSlot ℕ
clash = record { start = 3; end = 4; node = 3 }

abbrev master : ℕ → ClusterSlot ℕ → ClusterNode ℕ
master self slot = record { key = []; self = self; role = role_master; slots = some (slot ∷ []) }

abbrev two : List (ClusterNode ℕ)
two = master 2 high ∷ master 1 low ∷ []

abbrev clashing : List (ClusterNode ℕ)
clashing = master 2 high ∷ master 3 clash ∷ []

abbrev fresh : RedisClusterContext ℕ
fresh = record {
  err = 0;
  errstr = [];
  ip = none;
  port = pos 0;
  slots = none;
  nodes = none;
  table = λ k. none;
  route_version = 0;
  max_redirect_count = 5;
  retry_count = 0;
  need_update_route = false;
}

-- A sort by insertion.
unfoldable insert {ℓ} : {S : Type ℓ} → (S → S → ℤ) → S → List S → List S
insert cmp x [] = x ∷ []
insert cmp x (y ∷ ys) =
    let rest = insert cmp x ys in elim (cmp x y) [ pos n ↦ y ∷ rest | negsuc n ↦ x ∷ y ∷ ys ]

unfoldable insertion_sort {ℓ} : {S : Type ℓ} → (S → S → ℤ) → List S → List S
unfolding insert
insertion_sort cmp [] = []
insertion_sort cmp (x ∷ xs) = insert cmp x (insertion_sort cmp xs)

swapped :
    (a b : ClusterSlot ℕ) (n : ℕ)
    → cluster_slot_start_cmp a b ≡ pos (suc n)
    → insertion_sort cluster_slot_start_cmp (a ∷ b ∷ []) ≡ b ∷ a ∷ []
unfolding insertion_sort insert
swapped a b n e = rw (e, insert) refl

insertion_sort-Sorts :
    (a b : ClusterSlot ℕ) (n : ℕ)
    → cluster_slot_start_cmp a b ≡ pos (suc n)
    → Sorts insertion_sort cluster_slot_start_cmp (a ∷ b ∷ [])
insertion_sort-Sorts a b n e = record {
  permutes = rw (swapped a b n e) (Perm.swap a b []);
  ascends = λ rank ranks i j s t got got' h.
      let (first, second) =
        get_elem?-pair b a i j (rw (swapped a b n e) at got) (rw (swapped a b n e) at got') h in
      elim (ranks 0 1 a b refl refl (omega arith)) [
        | inl (lt, m, e') ↦ absurd (cc (e, e'))
        | inr rest ↦ elim rest [
          | inl (gt, m, e') ↦
              subst (λ r. rank s ≤ rank r) second (subst (λ r. rank r ≤ rank a) first (omega arith))
          | inr (same, e') ↦ absurd (cc (e, e'))
        ]
      ];
}

two-Sorts : Sorts insertion_sort cluster_slot_start_cmp (regions_of two)
unfolding cluster_slot_start_cmp
two-Sorts = insertion_sort-Sorts high low 0 refl

abbrev wide : ClusterSlot ℕ
wide = record { start = 4; end = 20000; node = 2 }

-- A region that is out of range.
abbrev far : List (ClusterNode ℕ)
far = master 2 wide ∷ []

no_second : (i j : ℕ) (t : ClusterSlot ℕ) → i < j → ¬ (get_elem? (wide ∷ []) j ≡ some t)
no_second i zero t h e = absurd (omega arith)
no_second i (suc j) t h e = absurd (cc e)

far-Sorts : Sorts insertion_sort cluster_slot_start_cmp (regions_of far)
unfolding insertion_sort
far-Sorts = record {
  permutes = Perm.rfl;
  ascends = λ rank ranks i j s t got got' h. absurd (no_second i j t h got');
}

two_succeed : (update_route insertion_sort fresh two).0 ≡ true
unfolding update_route insertion_sort
two_succeed = refl

clashing_fail : (update_route insertion_sort fresh clashing).0 ≡ false
unfolding update_route insertion_sort
clashing_fail = refl

update_route-IsRoute_example : ((update_route insertion_sort fresh two).0 ≡ true) ↔ IsRoute two
update_route-IsRoute_example = update_route-IsRoute insertion_sort fresh two two-Sorts

update_route-holders_example :
    ((k : ℕ)
      → k < redis_cluster_slots
      → Perm
          (to_list (node_get_by_table (update_route insertion_sort fresh two).1 k))
          (holders (high ∷ low ∷ []) k))
    × (((update_route insertion_sort fresh two).1.nodes ≡ some two)
        × ((update_route insertion_sort fresh two).1.route_version ≡ 1))
update_route-holders_example = update_route-holders insertion_sort fresh two two-Sorts two_succeed

far_fail : (update_route insertion_sort fresh far).0 ≡ false
unfolding update_route insertion_sort
far_fail = refl

far_once : releases_twice insertion_sort far ≡ false
unfolding releases_twice
far_once = refl

-- A slot of two nodes is reported, and the iterator on the nodes is released twice.
clashing_twice : releases_twice insertion_sort clashing ≡ true
unfolding releases_twice insertion_sort
clashing_twice = refl

-- A node that is no master, behind one with slots.
mixed_twice :
    releases_twice insertion_sort (master 2 high ∷ record (master 1 low) { role = role_slave } ∷ [])
    ≡ true
unfolding releases_twice
mixed_twice = refl

update_route-kept_example :
    (¬ (Masters far × All InRange (regions_of far)))
    × (((update_route insertion_sort fresh far).1.table ≡ fresh.table)
        × (((update_route insertion_sort fresh far).1.slots ≡ none)
            × (((update_route insertion_sort fresh far).1.nodes ≡ none)
                × ((update_route insertion_sort fresh far).1.route_version ≡ 0))))
update_route-kept_example = update_route-kept insertion_sort fresh far far-Sorts far_once far_fail

held : node_get_by_table (update_route insertion_sort fresh two).1 7 ≡ some 2
unfolding update_route insertion_sort node_get_by_table
held = refl

update_route-node_get_by_slot_example :
    node_get_by_slot (update_route insertion_sort fresh two).1.slots 7 ≡ found 2
update_route-node_get_by_slot_example =
    update_route-node_get_by_slot insertion_sort fresh two two-Sorts two_succeed (omega arith) 7 2
      held
