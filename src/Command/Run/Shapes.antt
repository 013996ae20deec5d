-- ===== src/Command/Run/Shapes.antt =====
-- The shapes of commands, and the runs of `redis_parse_cmd` over their items.
use hiredis_vip.Base.{
  ℕ, suc, ◌+◌, ◌%◌, ◌^◌, ◌<◌, ◌≤◌, List, [], ◌∷◌, Bytes, none, length, ◌≡◌, refl, ◌∙◌, arith, Bool,
  true, false,
}
use hiredis_vip.Command.Types.{CmdType, Cmd, key_len, arg1_len, arg2_len, req_type_lf}
use hiredis_vip.Command.Kinds.{
  redis_argz, redis_arg0, redis_arg1, redis_arg2, redis_arg3, redis_argn, redis_argx, redis_argkvx,
  redis_argeval,
}
use hiredis_vip.Command.Keywords.Laws.{to_nat, kinds}
use hiredis_vip.Command.Items.{bad_nkey, after_type}
use hiredis_vip.Command.Parse.{Exit}
use hiredis_vip.Command.Run.{Leads, After}
use hiredis_vip.Command.Run.Lengths.{at_state}
use hiredis_vip.Command.Run.Keys.{Records}
use hiredis_vip.Command.Run.Kinds.{
  excludes, after_key-redis_arg0, after_key-redis_arg1, after_key-redis_arg2, after_key-redis_arg3,
  after_key-redis_argn, after_arg1-redis_arg1, after_arg1-redis_argeval, after_arg2-redis_argeval,
}
use hiredis_vip.Command.Run.Tails.{
  Finds, Left, Pairs, no_pair, pair, goes_on, arg1_item, nkey_item, argument_then, last_argument,
  key_then, last_key,
}
use hiredis_vip.Command.Run.Lists.{
  argx_run, argkvx_run, any_args_run, script_run, two_args_run, three_args_run,
}

-- The items behind the name of a command of each kind, with the keys that the parser records. Of a script
-- with several keys it records the first alone, and takes the others for arguments.
pub data Shape (t : CmdType) : List Bytes → List Bytes → Type 0 where
  no_keys : redis_argz t ≡ true → (items : List Bytes) → Shape t items []
  only_key : redis_arg0 t ≡ true → (k : Bytes) → Shape t (k ∷ []) (k ∷ [])
  one_arg : redis_arg1 t ≡ true → (k a : Bytes) → Shape t (k ∷ a ∷ []) (k ∷ [])
  two_args : redis_arg2 t ≡ true → (k a b : Bytes) → Shape t (k ∷ a ∷ b ∷ []) (k ∷ [])
  three_args : redis_arg3 t ≡ true → (k a b c : Bytes) → Shape t (k ∷ a ∷ b ∷ c ∷ []) (k ∷ [])
  any_args : redis_argn t ≡ true → (k : Bytes) (args : List Bytes) → Shape t (k ∷ args) (k ∷ [])
  all_keys : redis_argx t ≡ true → (k : Bytes) (ks : List Bytes) → Shape t (k ∷ ks) (k ∷ ks)
  values :
      {items ks : List Bytes}
      → redis_argkvx t ≡ true
      → (k v : Bytes) → Pairs items ks
      → Shape t (k ∷ v ∷ items) (k ∷ ks)
  script :
      redis_argeval t ≡ true
      → (text number k : Bytes) (args : List Bytes) → bad_nkey number ≡ false
      → Shape t (text ∷ number ∷ k ∷ args) (k ∷ [])

Pairs-even : {items ks : List Bytes} → Pairs items ks → length items % 2 ≡ 0
Pairs-even no_pair = refl
Pairs-even (pair k v pairs) = omega (arith, Pairs-even pairs)

module _ (grant : ℕ → Bool) (text : Bytes) where
  -- The name of a command with keys leads to the first of them.
  to_keys :
      (x : Bool) (n q : ℕ) (r : Cmd) (e : Exit → Type 0)
      → x ≡ true
      → to_nat x + to_nat (redis_argz r.type) ≤ 1
      → to_nat x + to_nat (redis_argeval r.type) ≤ 1
      → Leads grant text (at_state key_len none 0 n r) (q + 1) e
      → After grant text (after_type (at_state req_type_lf none 0 n r) q 10) e
  unfolding after_type
  to_keys x n q r e h z v next =
      rw (excludes x (redis_argz r.type) h z, excludes x (redis_argeval r.type) h v, after_type)
        next

  module _ (served : (n : ℕ) → grant n ≡ true) where
    pub items_run :
        {items keys : List Bytes} (q : ℕ) (r : Cmd)
        → kinds r.type ≡ 1
        → Shape r.type items keys
        → r.narg_count ≡ suc (length items)
        → length items < 2 ^ 31
        → Left grant text (q + 1) (length items) items
        → Records text r.keys []
        → After grant text
            (after_type (at_state req_type_lf none 0 (length items) r) q 10)
            (Finds text r.type keys)
    unfolding after_type kinds
    items_run q r one (no_keys h items) count few left old = rw (h, after_type) (r, refl, refl, old)
    items_run q r one (only_key h k) count few left old =
        to_keys (redis_arg0 r.type) 1 q r (Finds text r.type (k ∷ [])) h (omega arith) (omega arith)
          (last_key grant text served k [] 0 (q + 1) r left (omega arith) old
            (after_key-redis_arg0 r.type one h r.narg_count))
    items_run q r one (one_arg h k a) count few left old =
        to_keys (redis_arg1 r.type) 2 q r (Finds text r.type (k ∷ [])) h (omega arith) (omega arith)
          (key_then grant text served k (a ∷ []) [] arg1_len 0 2 1 (q + 1) r
            (Finds text r.type (k ∷ [])) left refl (omega arith) old
            (after_key-redis_arg1 r.type one h r.narg_count)
            (λ p more left' new.
              last_argument grant text (arg1_item grant text) a (k ∷ []) 0 p
                (record r { keys = more }) left' tt (after_arg1-redis_arg1 r.type one h) new))
    items_run q r one (two_args h k a b) count few left old =
        let e = Finds text r.type (k ∷ []) in
        to_keys (redis_arg2 r.type) 3 q r e h (omega arith) (omega arith) (
          key_then grant text served k (a ∷ b ∷ []) [] arg1_len 0 3 2 (q + 1) r e left refl
            (omega arith) old (after_key-redis_arg2 r.type one h r.narg_count)
            (λ p more left' new.
              two_args_run grant text served a b p (record r { keys = more }) (k ∷ []) one h left'
                new))
    items_run q r one (three_args h k a b c) count few left old =
        let e = Finds text r.type (k ∷ []) in
        to_keys (redis_arg3 r.type) 4 q r e h (omega arith) (omega arith) (
          key_then grant text served k (a ∷ b ∷ c ∷ []) [] arg1_len 0 4 3 (q + 1) r e left refl
            (omega arith) old (after_key-redis_arg3 r.type one h r.narg_count)
            (λ p more left' new.
              three_args_run grant text served a b c p (record r { keys = more }) (k ∷ []) one h
                left' new))
    items_run q r one (any_args h k []) count few left old =
        to_keys (redis_argn r.type) 1 q r (Finds text r.type (k ∷ [])) h (omega arith) (omega arith)
          (last_key grant text served k [] 0 (q + 1) r left (omega arith) old
            (after_key-redis_argn r.type one h 0 r.narg_count))
    items_run q r one (any_args h k (a ∷ args)) count few left old =
        let m = suc (length args) in
        let e = Finds text r.type (k ∷ []) in
        to_keys (redis_argn r.type) (suc m) q r e h (omega arith) (omega arith) (
          key_then grant text served k (a ∷ args) [] arg1_len 0 (suc m) m (q + 1) r e left
            (omega arith) (omega arith) old
            (after_key-redis_argn r.type one h m r.narg_count ∙ goes_on (length args) arg1_len)
            (λ p more left' new.
              any_args_run grant text served (a ∷ args) p (record r { keys = more }) (k ∷ []) one h
                (omega arith) left' new))
    items_run q r one (all_keys h k ks) count few left old =
        to_keys (redis_argx r.type) (suc (length ks)) q r (Finds text r.type (k ∷ ks)) h
          (omega arith) (omega arith)
          (argx_run grant text served k ks [] (q + 1) r one h left (omega arith) old)
    items_run q r one (values {items} {ks} h k v pairs) count few left old =
        to_keys (redis_argkvx r.type) (suc (suc (length items))) q r (Finds text r.type (k ∷ ks)) h
          (omega arith) (omega arith)
          (argkvx_run grant text served k v items ks [] (q + 1) r pairs one h
            (omega (arith, Pairs-even pairs)) left (omega arith) old)
    items_run q r one (script h s number k args ok) count few left old =
        let m = suc (length args) in
        let e = Finds text r.type (k ∷ []) in
        rw (excludes (redis_argeval r.type) (redis_argz r.type) h (omega arith), h, after_type)
          (argument_then grant text (arg1_item grant text) s (number ∷ k ∷ args) arg2_len 0
            (suc (suc m)) (suc m) (q + 1) r e left (omega arith) tt
            (after_arg1-redis_argeval r.type one h (suc m) (omega arith))
            (λ p left'.
              argument_then grant text (nkey_item grant text) number (k ∷ args) key_len 0 (suc m) m
                p r e left' (omega arith) (h, ok)
                (after_arg2-redis_argeval r.type one h m (omega arith))
                (λ p' left''. script_run grant text served k args p' r one h left'' old)))
