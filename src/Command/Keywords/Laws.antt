-- ===== src/Command/Keywords/Laws.antt =====
-- The table of commands: every row is found, in any letter case, and every command that is found
-- has exactly one kind of argument list.
use Prim.Native.Nat.{bit_xor}
use hiredis_vip.Base.{
  ℕ, zero, suc, ◌+◌, ◌-◌, List, [], ◌∷◌, ◌++◌, map, Bytes, length, ◌==◌, ==_iff, if◌then◌else◌,
  Bool, true, false, ◌||◌, ◌&&◌, leb, ◌≡◌, refl, sym, ap, ap₂, ◌∙◌, ◌⊎◌, inl, inr, arith,
  Bool-cases, not, and-true, get_elem?, Option, none, some, subst, drop,
}
use mathlib.Core.Option.{some-injective}
use hiredis_vip.Base.Table.{each_below, each_below_lem}
use hiredis_vip.Command.Types.{CmdType, unknown}
use hiredis_vip.Command.Kinds.{
  redis_argz, redis_arg0, redis_arg1, redis_arg2, redis_arg3, redis_argn, redis_argx, redis_argkvx,
  redis_argeval,
}
use hiredis_vip.Command.Keywords.{
  Keyword, keywords_3, keywords_4, keywords_5, keywords_6, keywords_7, keywords_8, keywords_9,
  keywords_10, keywords_11, keywords_12, keywords_13, keywords_14, keywords_15, keywords_16,
  str_icmp, find_keyword, keywords, command_type,
}

abbrev pub is_lower : ℕ → Bool
is_lower c = leb b'a' c && leb c b'z'

abbrev pub to_lower : ℕ → ℕ
to_lower b = if leb b'A' b && leb b b'Z' then b + 32 else b

-- All the rows.
unfoldable pub all_keywords : List Keyword
all_keywords =
    keywords_3 ++ keywords_4 ++ keywords_5 ++ keywords_6 ++ keywords_7 ++ keywords_8 ++ keywords_9
    ++ keywords_10 ++ keywords_11 ++ keywords_12 ++ keywords_13 ++ keywords_14 ++ keywords_15
    ++ keywords_16

-- For the `unfold` lines below: the tables and the tests on them.
program : Unit {0}
unfolding keywords_3 keywords_4 keywords_5 keywords_6 keywords_7 keywords_8 keywords_9 keywords_10
    keywords_11 keywords_12 keywords_13 keywords_14 keywords_15 keywords_16 all_keywords str_icmp
    find_keyword keywords command_type redis_argz redis_arg0 redis_arg1 redis_arg2 redis_arg3
    redis_argn redis_argx redis_argkvx redis_argeval
program = tt

abbrev pub to_nat : Bool → ℕ
to_nat true = 1
to_nat false = 0

-- In how many of the nine kinds a command is.
unfoldable pub kinds : CmdType → ℕ
kinds t =
    to_nat (redis_argz t)
    + to_nat (redis_arg0 t)
    + to_nat (redis_arg1 t)
    + to_nat (redis_arg2 t)
    + to_nat (redis_arg3 t)
    + to_nat (redis_argn t)
    + to_nat (redis_argx t)
    + to_nat (redis_argkvx t)
    + to_nat (redis_argeval t)

all_lower : Bytes → Bool
all_lower [] = true
all_lower (c ∷ cs) = is_lower c && all_lower cs

rows_lower : List Keyword → Bool
rows_lower [] = true
rows_lower ((w, t) ∷ rest) = all_lower w && rows_lower rest

rows_one_kind : List Keyword → Bool
rows_one_kind [] = true
rows_one_kind ((w, t) ∷ rest) = (kinds t == 1) && rows_one_kind rest

if_keeps :
    (Q : List Keyword → Bool) (b : Bool) (x y : List Keyword)
    → Q x ≡ true
    → Q y ≡ true
    → Q (if b then x else y) ≡ true
if_keeps Q true x y hx hy = hx
if_keeps Q false x y hx hy = hy

-- A test that every table passes is passed by the one for n.
abbrev Passes : (List Keyword → Bool) → Type 0
Passes Q =
    (Q [] ≡ true)
    × (Q keywords_3 ≡ true)
    × (Q keywords_4 ≡ true)
    × (Q keywords_5 ≡ true)
    × (Q keywords_6 ≡ true)
    × (Q keywords_7 ≡ true)
    × (Q keywords_8 ≡ true)
    × (Q keywords_9 ≡ true)
    × (Q keywords_10 ≡ true)
    × (Q keywords_11 ≡ true)
    × (Q keywords_12 ≡ true)
    × (Q keywords_13 ≡ true)
    × (Q keywords_14 ≡ true)
    × (Q keywords_15 ≡ true)
    × (Q keywords_16 ≡ true)

keywords-Passes : (Q : List Keyword → Bool) → Passes Q → (n : ℕ) → Q (keywords n) ≡ true
unfolding keywords
keywords-Passes Q (nil, h3, h4, h5, h6, h7, h8, h9, h10, h11, h12, h13, h14, h15, h16) n =
    if_keeps Q (n == 3) keywords_3 _ (h3) (
      if_keeps Q (n == 4) keywords_4 _ (h4) (
        if_keeps Q (n == 5) keywords_5 _ (h5) (
          if_keeps Q (n == 6) keywords_6 _ (h6) (
            if_keeps Q (n == 7) keywords_7 _ (h7) (
              if_keeps Q (n == 8) keywords_8 _ (h8) (
                if_keeps Q (n == 9) keywords_9 _ (h9) (
                  if_keeps Q (n == 10) keywords_10 _ (h10) (
                    if_keeps Q (n == 11) keywords_11 _ (h11) (
                      if_keeps Q (n == 12) keywords_12 _ (h12) (
                        if_keeps Q (n == 13) keywords_13 _ (h13) (
                          if_keeps Q (n == 14) keywords_14 _ (h14) (
                            if_keeps Q (n == 15) keywords_15 _ (h15)
                              (if_keeps Q (n == 16) keywords_16 _ (h16) (nil))))))))))))))

tables_lower : (n : ℕ) → rows_lower (keywords n) ≡ true
tables_lower = keywords-Passes rows_lower (
    unfold program rows_lower all_lower in
    (refl, refl, refl, refl, refl, refl, refl, refl, refl, refl, refl, refl, refl, refl, refl))

tables_one_kind : (n : ℕ) → rows_one_kind (keywords n) ≡ true
tables_one_kind = keywords-Passes rows_one_kind (
    unfold program rows_one_kind kinds in
    (refl, refl, refl, refl, refl, refl, refl, refl, refl, refl, refl, refl, refl, refl, refl))

-- Every row of the tables is the one that its own word finds.
command_type-rows : map (λ row. command_type row.0) all_keywords ≡ map (λ row. row.1) all_keywords
unfolding program
command_type-rows = refl

byte_folds :
    (b c : ℕ)
    → is_lower c ≡ true
    → bit_xor c 0x20 ≡ c - 32
    → (b == c) || (b == bit_xor c 0x20) ≡ (to_lower b == c) || (to_lower b == bit_xor c 0x20)
byte_folds b c h e = rw e (ground arith)

flip_table : each_below (λ c. not (is_lower c) || (bit_xor c 0x20 == c - 32)) 123 ≡ true
unfolding each_below
flip_table = refl

flip : (c : ℕ) → is_lower c ≡ true → bit_xor c 0x20 ≡ c - 32
flip c h =
    let hit =
      each_below_lem (λ c. not (is_lower c) || (bit_xor c 0x20 == c - 32)) c 123 (ground arith)
        flip_table in
    (==_iff _ _).0 (rw h at hit)

str_icmp-fold : (m w : Bytes) → all_lower w ≡ true → str_icmp m w ≡ str_icmp (map to_lower m) w
unfolding str_icmp all_lower
str_icmp-fold m [] h = refl
str_icmp-fold [] (c ∷ w) h = refl
str_icmp-fold (b ∷ m) (c ∷ w) h =
    let (here, rest) = and-true (is_lower c) (all_lower w) h in
    ap₂ ◌&&◌ (byte_folds b c here (flip c here)) (str_icmp-fold m w rest)

find_keyword-fold :
    (m : Bytes) (rows : List Keyword)
    → rows_lower rows ≡ true
    → find_keyword m rows ≡ find_keyword (map to_lower m) rows
unfolding find_keyword rows_lower
find_keyword-fold m [] h = refl
find_keyword-fold m ((w, t) ∷ rows) h =
    let (here, rest) = and-true (all_lower w) (rows_lower rows) h in
    ap₂ (λ b u. if b then t else u) (str_icmp-fold m w here) (find_keyword-fold m rows rest)

length-map : (f : ℕ → ℕ) (xs : Bytes) → length (map f xs) ≡ length xs
length-map f [] = refl
length-map f (x ∷ xs) = ap suc (length-map f xs)

-- The type of a command does not depend on the case of its letters.
pub command_type-to_lower : (m : Bytes) → command_type m ≡ command_type (map to_lower m)
unfolding command_type
command_type-to_lower m =
    find_keyword-fold m (keywords (length m)) (tables_lower (length m))
    ∙ ap (λ n. find_keyword (map to_lower m) (keywords n)) (sym (length-map to_lower m))

row_of_map :
    (f g : Keyword → CmdType) (rows : List Keyword) (i : ℕ) (row : Keyword)
    → map f rows ≡ map g rows
    → get_elem? rows i ≡ some row
    → f row ≡ g row
row_of_map f g [] i row e found = absurd (none-ne-some found)
  where
    none-ne-some : ◌≡◌ {A = Option Keyword} none (some row) → ⊥
    none-ne-some h = cc
row_of_map f g (x ∷ rows) zero row e found =
    subst (λ r. f r ≡ g r) (some-injective x row found) (cc e)
row_of_map f g (x ∷ rows) (suc i) row e found = row_of_map f g rows i row (ap (drop 1) e) found

-- Each of the 104 rows of the table decides the type of every spelling of its word, in whatever
-- letter case.
pub command_type-keyword :
    (i : ℕ) (row : Keyword) (m : Bytes)
    → get_elem? all_keywords i ≡ some row
    → map to_lower m ≡ row.0
    → command_type m ≡ row.1
command_type-keyword i row m e same =
    command_type-to_lower m
    ∙ ap command_type same
    ∙ row_of_map (λ r. command_type r.0) (λ r. r.1) all_keywords i row command_type-rows e

find_keyword-one_kind :
    (m : Bytes) (rows : List Keyword)
    → rows_one_kind rows ≡ true
    → (find_keyword m rows ≡ unknown) ⊎ (kinds (find_keyword m rows) ≡ 1)
unfolding find_keyword rows_one_kind
find_keyword-one_kind m [] h = inl refl
find_keyword-one_kind m ((w, t) ∷ rows) h =
    let (here, rest) = and-true (kinds t == 1) (rows_one_kind rows) h in
    elim (Bool-cases (str_icmp m w)) [
      | inl yes_it ↦ inr (rw yes_it ((==_iff _ _).0 here))
      | inr not_it ↦ rw not_it (find_keyword-one_kind m rows rest)
    ]

-- A word that names no command has the type CMD_UNKNOWN; every other has a type that exactly one
-- of the nine functions on argument lists accepts.
pub command_type-kinds : (m : Bytes) → (command_type m ≡ unknown) ⊎ (kinds (command_type m) ≡ 1)
unfolding command_type
command_type-kinds m = find_keyword-one_kind m (keywords (length m)) (tables_one_kind (length m))
