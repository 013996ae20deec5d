-- ===== src/Array/Tests.antt =====
-- An array of four byte numbers.
use hiredis_vip.Base.{
  ℕ, ◌+◌, ◌^◌, [], ◌∷◌, Option, none, some, ◌==◌, if◌then◌else◌, Bool, true, false, ◌≡◌, refl, ◌⊎◌,
  arith,
}
use hiredis_vip.Array.{HiArray, load, push_value, pop, get, top, each}
use hiredis_vip.Array.Valid.{IsValid, Holds}
use hiredis_vip.Array.Laws.{request, push_value-Holds, pop-Holds}
use hiredis_vip.Array.Each.{visit, each-visit}

-- Two elements, which fill the storage.
abbrev sample : HiArray ℕ
sample = record { nelem = 2; elem = some 7 ∷ some 8 ∷ []; size = 4; nalloc = 2 }

abbrev always : ℕ → Bool
always n = true

abbrev never : ℕ → Bool
never n = false

sample-IsValid : IsValid sample
sample-IsValid = record {
  width = refl;
  room = omega arith;
  some_room = omega arith;
  word = omega arith;
  some_size = omega arith;
  small_size = omega arith;
}

sample-Holds : Holds sample (7 ∷ 8 ∷ [])
sample-Holds = record { valid = sample-IsValid; count = refl; filled = refl }

push_grows :
    push_value always sample 9
    ≡ some (record { nelem = 3; elem = some 7 ∷ some 8 ∷ some 9 ∷ none ∷ []; size = 4; nalloc = 4 })
unfolding push_value
push_grows = refl

push_refused : push_value never sample 9 ≡ none
unfolding push_value
push_refused = refl

push_value-Holds_example :
    ((push_value always sample 9 ≡ none)
      × (sample.nelem ≡ sample.nalloc)
      × (always (request sample) ≡ false))
    ⊎ ((b : HiArray ℕ) × (push_value always sample 9 ≡ some b) × Holds b (7 ∷ 8 ∷ 9 ∷ []))
push_value-Holds_example = push_value-Holds always 9 sample-Holds (omega arith)

pop-Holds_example :
    Holds (pop sample).1 (7 ∷ [])
    × (load (pop sample).1 (pop sample).0 ≡ some 8)
    × (top sample ≡ (pop sample).0)
pop-Holds_example = pop-Holds (7 ∷ []) 8 sample-Holds

-- The bookkeeping of an array that is full at 2^31 elements.
abbrev huge : HiArray ℕ
huge = record { nelem = 2 ^ 31; elem = []; size = 1; nalloc = 2 ^ 31 }

-- It sums up, and stops behind 7 with the status 5.
abbrev add_up : Option ℕ → ℕ → ℕ × ℕ
add_up none s = (1, s)
add_up (some x) s = (if x == 7 then 5 else 0, s + x)

each_stops : each sample add_up 1 ≡ (5, 8)
unfolding each load get
each_stops = refl

each-visit_example : each sample add_up 1 ≡ visit add_up (7 ∷ 8 ∷ []) 1
each-visit_example = each-visit add_up sample (7 ∷ 8 ∷ []) 1 sample-Holds
