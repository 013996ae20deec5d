-- ===== src/Command/Run/Kinds.antt =====
-- What `redis_parse_cmd` chooses behind an item, for a command of a known kind.
use hiredis_vip.Base.{ℕ, ◌+◌, ◌≤◌, ◌≡◌, refl, arith, Bool, true, false, ◌%◌, ltb_of_le}
use hiredis_vip.Command.Types.{CmdType, key_len, arg1_len, arg2_len, arg3_len, argn_len}
use hiredis_vip.Command.Kinds.{
  redis_argz, redis_arg0, redis_arg1, redis_arg2, redis_arg3, redis_argn, redis_argx, redis_argkvx,
  redis_argeval,
}
use hiredis_vip.Command.Keywords.Laws.{to_nat, kinds}
use hiredis_vip.Command.Choices.{
  finish, enter, done_or, after_key, after_arg1, after_arg2, after_arg3, after_argn,
}

pub excludes : (x y : Bool) → x ≡ true → to_nat x + to_nat y ≤ 1 → y ≡ false
excludes x true h few = absurd (one_is_two x h few)
  where
    one_is_two : (x : Bool) → x ≡ true → to_nat x + 1 ≤ 1 → ⊥
    one_is_two true h few = omega arith
    one_is_two false h few = absurd (cc h)
excludes x false h few = refl

module _ (t : CmdType) (one : kinds t ≡ 1) where
  -- Behind a key.
  pub after_key-redis_arg0 : redis_arg0 t ≡ true → (count : ℕ) → after_key t 0 count ≡ finish
  unfolding after_key
  after_key-redis_arg0 h count = rw (h)

  pub after_key-redis_arg1 :
      redis_arg1 t ≡ true → (count : ℕ) → after_key t 1 count ≡ enter arg1_len
  unfolding after_key kinds
  after_key-redis_arg1 h count = rw (excludes (redis_arg1 t) (redis_arg0 t) h (omega arith), h)

  pub after_key-redis_arg2 :
      redis_arg2 t ≡ true → (count : ℕ) → after_key t 2 count ≡ enter arg1_len
  unfolding after_key kinds
  after_key-redis_arg2 h count = rw (
    excludes (redis_arg2 t) (redis_arg0 t) h (omega arith),
    excludes (redis_arg2 t) (redis_arg1 t) h (omega arith),
    h,
  )

  pub after_key-redis_arg3 :
      redis_arg3 t ≡ true → (count : ℕ) → after_key t 3 count ≡ enter arg1_len
  unfolding after_key kinds
  after_key-redis_arg3 h count = rw (
    excludes (redis_arg3 t) (redis_arg0 t) h (omega arith),
    excludes (redis_arg3 t) (redis_arg1 t) h (omega arith),
    excludes (redis_arg3 t) (redis_arg2 t) h (omega arith),
    h,
  )

  pub after_key-redis_argn :
      redis_argn t ≡ true → (n count : ℕ) → after_key t n count ≡ done_or n arg1_len
  unfolding after_key kinds
  after_key-redis_argn h n count = rw (
    excludes (redis_argn t) (redis_arg0 t) h (omega arith),
    excludes (redis_argn t) (redis_arg1 t) h (omega arith),
    excludes (redis_argn t) (redis_arg2 t) h (omega arith),
    excludes (redis_argn t) (redis_arg3 t) h (omega arith),
    h,
  )

  pub after_key-redis_argx :
      redis_argx t ≡ true → (n count : ℕ) → after_key t n count ≡ done_or n key_len
  unfolding after_key kinds
  after_key-redis_argx h n count = rw (
    excludes (redis_argx t) (redis_arg0 t) h (omega arith),
    excludes (redis_argx t) (redis_arg1 t) h (omega arith),
    excludes (redis_argx t) (redis_arg2 t) h (omega arith),
    excludes (redis_argx t) (redis_arg3 t) h (omega arith),
    excludes (redis_argx t) (redis_argn t) h (omega arith),
    h,
  )

  pub after_key-redis_argkvx :
      redis_argkvx t ≡ true
      → (n count : ℕ) → count % 2 ≡ 1
      → after_key t n count ≡ done_or n arg1_len
  unfolding after_key kinds
  after_key-redis_argkvx h n count odd = rw (
    excludes (redis_argkvx t) (redis_arg0 t) h (omega arith),
    excludes (redis_argkvx t) (redis_arg1 t) h (omega arith),
    excludes (redis_argkvx t) (redis_arg2 t) h (omega arith),
    excludes (redis_argkvx t) (redis_arg3 t) h (omega arith),
    excludes (redis_argkvx t) (redis_argn t) h (omega arith),
    excludes (redis_argkvx t) (redis_argx t) h (omega arith),
    h,
    odd,
  )

  -- Behind an argument.
  pub after_arg1-redis_arg1 : redis_arg1 t ≡ true → after_arg1 t 0 ≡ finish
  unfolding after_arg1
  after_arg1-redis_arg1 h = rw (h)

  pub after_arg1-redis_arg2 : redis_arg2 t ≡ true → after_arg1 t 1 ≡ enter arg2_len
  unfolding after_arg1 kinds
  after_arg1-redis_arg2 h = rw (excludes (redis_arg2 t) (redis_arg1 t) h (omega arith), h)

  pub after_arg1-redis_arg3 : redis_arg3 t ≡ true → after_arg1 t 2 ≡ enter arg2_len
  unfolding after_arg1 kinds
  after_arg1-redis_arg3 h = rw (
    excludes (redis_arg3 t) (redis_arg1 t) h (omega arith),
    excludes (redis_arg3 t) (redis_arg2 t) h (omega arith),
    h,
  )

  pub after_arg1-redis_argn : redis_argn t ≡ true → (n : ℕ) → after_arg1 t n ≡ done_or n argn_len
  unfolding after_arg1 kinds
  after_arg1-redis_argn h n = rw (
    excludes (redis_argn t) (redis_arg1 t) h (omega arith),
    excludes (redis_argn t) (redis_arg2 t) h (omega arith),
    excludes (redis_argn t) (redis_arg3 t) h (omega arith),
    h,
  )

  pub after_arg1-redis_argkvx : redis_argkvx t ≡ true → (n : ℕ) → after_arg1 t n ≡ done_or n key_len
  unfolding after_arg1 kinds
  after_arg1-redis_argkvx h n = rw (
    excludes (redis_argkvx t) (redis_arg1 t) h (omega arith),
    excludes (redis_argkvx t) (redis_arg2 t) h (omega arith),
    excludes (redis_argkvx t) (redis_arg3 t) h (omega arith),
    excludes (redis_argkvx t) (redis_argn t) h (omega arith),
    excludes (redis_argkvx t) (redis_argeval t) h (omega arith),
    h,
  )

  pub after_arg2-redis_arg2 : redis_arg2 t ≡ true → after_arg2 t 0 ≡ finish
  unfolding after_arg2
  after_arg2-redis_arg2 h = rw (h)

  pub after_arg2-redis_arg3 : redis_arg3 t ≡ true → after_arg2 t 1 ≡ enter arg3_len
  unfolding after_arg2 kinds
  after_arg2-redis_arg3 h = rw (excludes (redis_arg3 t) (redis_arg2 t) h (omega arith), h)

  pub after_arg3-redis_arg3 : redis_arg3 t ≡ true → after_arg3 t 0 ≡ finish
  unfolding after_arg3
  after_arg3-redis_arg3 h = rw (h)

  pub after_argn-redis_argn : redis_argn t ≡ true → (n : ℕ) → after_argn t n ≡ done_or n argn_len
  unfolding after_argn
  after_argn-redis_argn h n = rw (h)

  -- In EVAL.
  pub after_key-redis_argeval :
      redis_argeval t ≡ true → (n count : ℕ) → after_key t n count ≡ done_or n argn_len
  unfolding after_key kinds
  after_key-redis_argeval h n count = rw (
    excludes (redis_argeval t) (redis_arg0 t) h (omega arith),
    excludes (redis_argeval t) (redis_arg1 t) h (omega arith),
    excludes (redis_argeval t) (redis_arg2 t) h (omega arith),
    excludes (redis_argeval t) (redis_arg3 t) h (omega arith),
    excludes (redis_argeval t) (redis_argn t) h (omega arith),
    excludes (redis_argeval t) (redis_argx t) h (omega arith),
    excludes (redis_argeval t) (redis_argkvx t) h (omega arith),
    h,
  )

  pub after_arg1-redis_argeval :
      redis_argeval t ≡ true → (n : ℕ) → 2 ≤ n → after_arg1 t n ≡ enter arg2_len
  unfolding after_arg1 kinds
  after_arg1-redis_argeval h n few = rw (
    excludes (redis_argeval t) (redis_arg1 t) h (omega arith),
    excludes (redis_argeval t) (redis_arg2 t) h (omega arith),
    excludes (redis_argeval t) (redis_arg3 t) h (omega arith),
    excludes (redis_argeval t) (redis_argn t) h (omega arith),
    h,
    ltb_of_le n 2 few,
  )

  pub after_arg2-redis_argeval :
      redis_argeval t ≡ true → (n : ℕ) → 1 ≤ n → after_arg2 t n ≡ enter key_len
  unfolding after_arg2 kinds
  after_arg2-redis_argeval h n few = rw (
    excludes (redis_argeval t) (redis_arg2 t) h (omega arith),
    excludes (redis_argeval t) (redis_arg3 t) h (omega arith),
    excludes (redis_argeval t) (redis_argn t) h (omega arith),
    h,
    ltb_of_le n 1 few,
  )

  pub after_argn-redis_argeval :
      redis_argeval t ≡ true → (n : ℕ) → after_argn t n ≡ done_or n argn_len
  unfolding after_argn kinds
  after_argn-redis_argeval h n = rw (excludes (redis_argeval t) (redis_argn t) h (omega arith), h)

  -- The commands that have an argument list go on behind their name.
  pub has_items :
      (x : Bool) → x ≡ true → to_nat x + to_nat (redis_argz t) ≤ kinds t → redis_argz t ≡ false
  has_items x h few = excludes x (redis_argz t) h (omega arith)
