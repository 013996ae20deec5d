-- ===== src/Cluster/Gather/Laws.antt =====
-- The loop for MGET gives each key the element that its part has for it.
use mathlib.Core.List.{reverse, reverse_aux}
use hiredis_vip.Base.{
  ℕ, suc, List, [], ◌∷◌, ◌++◌, append_assoc, append-nil, map, Option, some, ◌==◌, if◌then◌else◌,
  length, length-append, get_elem?, get_elem?-append_length, ◌≡◌, refl, sym, ap, ◌∙◌, ◌⊎◌, inl, inr,
  arith, Bool-cases, ==_iff, ==_refl,
}
use hiredis_vip.Cluster.Reply.{Reply, Replies, reply_array, no_more}
use hiredis_vip.Cluster.Gather.{
  Part, elements, prepend, vector, elements_of, element_at, flat, gathered, gather,
}

-- The answers of slot s, among keys with their slots and answers; and the same with the last key first.
unfoldable pub answers : ℕ → List Part → List (Option Reply)
answers s [] = []
answers s ((slot, a) ∷ items) = let rest = answers s items in if s == slot then a ∷ rest else rest

abbrev only_at : ℕ → Part → List (Option Reply)
only_at s item = if s == item.0 then item.1 ∷ [] else []

abbrev backwards : ℕ → List Part → List (Option Reply)
backwards s [] = []
backwards s (item ∷ items) = backwards s items ++ only_at s item

-- The vector with the answers put in front, the last key first, or in order.
abbrev onto : List Part → Replies → Replies
onto [] rs = rs
onto (item ∷ items) rs = onto items (prepend item.1 rs)

abbrev in_front : List Part → Replies → Replies
in_front [] rs = rs
in_front (item ∷ items) rs = prepend item.1 (in_front items rs)

onto-reverse :
    (xs ys : List Part) (rs : Replies) → onto (reverse_aux xs ys) rs ≡ onto ys (in_front xs rs)
onto-reverse [] ys rs = refl
onto-reverse (x ∷ xs) ys rs = onto-reverse xs (x ∷ ys) rs

in_front-vector : (xs : List Part) → in_front xs no_more ≡ vector (map (λ x. x.1) xs)
in_front-vector [] = refl
in_front-vector (x ∷ xs) = ap (prepend x.1) (in_front-vector xs)

slots-reverse :
    (xs ys : List Part)
    → map (λ x. x.0) (reverse_aux xs ys) ≡ reverse_aux (map (λ x. x.0) xs) (map (λ x. x.0) ys)
slots-reverse [] ys = refl
slots-reverse (x ∷ xs) ys = slots-reverse xs (x ∷ ys)

joined :
    (s slot : ℕ) (a : Option Reply) (xs : List Part)
    → only_at s (slot, a) ++ answers s xs ≡ answers s ((slot, a) ∷ xs)
unfolding answers
joined s slot a xs = elim (Bool-cases (s == slot)) [ inl h ↦ rw (h) refl | inr h ↦ rw (h) refl ]

backwards-reverse :
    (s : ℕ) (xs ys : List Part) → backwards s (reverse_aux xs ys) ≡ backwards s ys ++ answers s xs
unfolding answers
backwards-reverse s [] ys = sym (append-nil _)
backwards-reverse s ((slot, a) ∷ xs) ys =
    backwards-reverse s xs ((slot, a) ∷ ys)
    ∙ (append_assoc (backwards s ys) (only_at s (slot, a)) (answers s xs)
        ∙ ap (λ l. backwards s ys ++ l) (joined s slot a xs))

module _ (replies : ℕ → Option Reply) where
  -- A part has the answers of its keys that are left, before those that are taken.
  abbrev Ready : List Part → (ℕ → ℕ) → ℕ → Type 0
  Ready items left s =
      (backwards s items ≡ [])
      ⊎ ((rs : Replies) × (taken : List (Option Reply)) × (replies s ≡ some (reply_array rs))
          × (elements rs ≡ backwards s items ++ taken)
          × (left s ≡ length (backwards s items)))

  still-Ready :
      (items : List Part) (left : ℕ → ℕ) (s : ℕ) (a : Option Reply) (k n : ℕ)
      → Ready ((s, a) ∷ items) left k
      → (es : Replies) (taken : List (Option Reply)) → replies s ≡ some (reply_array es)
      → elements es ≡ backwards s items ++ (a ∷ taken)
      → n ≡ length (backwards s items)
      → Ready items (λ j. if j == s then n else left j) k
  still-Ready items left s a k n ready es taken part e count = elim (Bool-cases (k == s)) [
    | inl h ↦
        let same : k ≡ s = (==_iff k s).0 h in
        inr (es, a ∷ taken, rw (same) part, rw (same) e, rw (h, same) count)
    | inr h ↦ elim ready [
      | inl none_left ↦ inl (sym (append-nil _) ∙ rw (h) at none_left)
      | inr (es', taken', part', e', count') ↦ inr (
        es',
        taken',
        part',
        rw (h, append-nil (backwards k items)) at e',
        rw (h) (rw (h, append-nil (backwards k items)) at count'),
      )
    ]
  ]

  gather-onto :
      (items : List Part) (left : ℕ → ℕ) (rs : Replies)
      → ((s : ℕ) → Ready items left s)
      → gather (map (λ x. x.0) items) replies left rs ≡ gathered (onto items rs)
  unfolding gather
  gather-onto [] left rs ready = refl
  gather-onto ((s, a) ∷ items) left rs ready =
      let back = backwards s items in
      let own : backwards s ((s, a) ∷ items) ≡ back ++ (a ∷ []) = rw (==_refl s) refl in
      elim (ready s) [
        | inl e ↦ absurd (omega (arith, ap length (sym own ∙ e), length-append back (a ∷ [])))
        | inr (es, taken, part, e, count) ↦
            let n = length back in
            let last : left s ≡ suc n = omega (arith, ap length own, length-append back (a ∷ [])) in
            let e' : elements es ≡ back ++ (a ∷ taken) =
              e ∙ ap (λ l. l ++ taken) own ∙ append_assoc back (a ∷ []) taken in
            let element : element_at es n ≡ a =
              ap (λ l. flat (get_elem? l n)) e' ∙ ap flat (get_elem?-append_length back a taken) in
            rw (part, last, element, gather)
              (gather-onto items (λ k. if k == s then n else left k) (prepend a rs)
                (λ k. still-Ready items left s a k n (ready k) es taken part e' refl))
      ]

-- When each part holds the answers of its keys in their order, the loop finds the answers of all the
-- keys in their order.
pub gather-vector :
    (replies : ℕ → Option Reply) (items : List Part)
    → ((s : ℕ)
        → (answers s items ≡ [])
          ⊎ ((rs : Replies) × (replies s ≡ some (reply_array rs))
              × (elements rs ≡ answers s items)))
    → gather (reverse (map (λ x. x.0) items)) replies (λ s. elements_of (replies s)) no_more
      ≡ gathered (vector (map (λ x. x.1) items))
gather-vector replies items parts =
    let back = λ (s : ℕ). backwards-reverse s items [] in
    let ready : (s : ℕ) → Ready replies (reverse items) (λ s. elements_of (replies s)) s = λ s.
      elim (parts s) [
        | inl h ↦ inl (back s ∙ h)
        | inr (rs, part, e) ↦ inr (
          rs,
          [],
          part,
          e ∙ sym (back s) ∙ sym (append-nil _),
          rw (part) (ap length (e ∙ sym (back s))),
        )
      ] in
    rw (slots-reverse items []) at
      (gather-onto replies (reverse items) (λ s. elements_of (replies s)) no_more ready)
    ∙ ap gathered (onto-reverse items [] no_more ∙ in_front-vector items)
