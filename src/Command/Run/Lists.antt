-- ===== src/Command/Run/Lists.antt =====
-- Runs of `redis_parse_cmd` over lists of arguments and of keys.
use hiredis_vip.Base.{
  ℕ, suc, ◌+◌, ◌^◌, ◌%◌, ◌<◌, ◌++◌, List, [], ◌∷◌, Bytes, none, length, ◌≡◌, refl, ◌∙◌, arith, Bool,
  true, subst, append_assoc, length-append,
}
use hiredis_vip.Command.Types.{Cmd, key_len, arg1_len, arg2_len, arg3_len, argn_len}
use hiredis_vip.Command.Kinds.{redis_argx, redis_argkvx, redis_argeval}
use hiredis_vip.Command.Keywords.Laws.{kinds}
use hiredis_vip.Command.Choices.{done_or, after_argn}
use hiredis_vip.Command.Run.{Leads}
use hiredis_vip.Command.Run.Lengths.{at_state}
use hiredis_vip.Command.Run.Keys.{Records}
use hiredis_vip.Command.Run.Kinds.{
  after_key-redis_argx, after_key-redis_argkvx, after_arg1-redis_argkvx,
}
use hiredis_vip.Base.{
  ℕ, suc, ◌+◌, ◌%◌, ◌^◌, ◌<◌, ◌++◌, List, [], ◌∷◌, Bytes, none, length, ◌≡◌, refl, ◌∙◌, arith, Bool,
  true, subst, length-append, append_assoc,
}
use hiredis_vip.Command.Types.{Cmd, key_len, arg1_len, arg2_len, arg3_len, argn_len}
use hiredis_vip.Command.Kinds.{
  redis_arg2, redis_arg3, redis_argn, redis_argx, redis_argkvx, redis_argeval,
}
use hiredis_vip.Command.Keywords.Laws.{kinds}
use hiredis_vip.Command.Run.{Leads}
use hiredis_vip.Command.Run.Lengths.{at_state}
use hiredis_vip.Command.Run.Keys.{Records}
use hiredis_vip.Command.Run.Kinds.{
  excludes, after_key-redis_argeval, after_arg1-redis_arg2, after_arg1-redis_arg3,
  after_arg1-redis_argn, after_arg2-redis_arg2, after_arg2-redis_arg3, after_arg3-redis_arg3,
  after_argn-redis_argn, after_argn-redis_argeval,
}
use hiredis_vip.Command.Run.Tails.{
  Finds, Left, Pairs, no_pair, pair, goes_on, arg1_item, arg2_item, arg3_item, argument_then,
  last_argument, key_then, last_key,
}
use hiredis_vip.Command.Run.Tails.{
  Finds, goes_on, Pairs, no_pair, pair, arg1_item, arg2_item, arg3_item, argn_item, Left,
  argument_then, last_argument, key_then, last_key,
}

module _ (grant : ℕ → Bool) (text : Bytes) (served : (n : ℕ) → grant n ≡ true) where
  -- The arguments of a command with any number of them.
  pub argn_run :
      (a : Bytes) (items keys : List Bytes) (p : ℕ) (r : Cmd)
      → ((m : ℕ) → after_argn r.type m ≡ done_or m argn_len)
      → Left grant text p (suc (length items)) (a ∷ items)
      → Records text r.keys keys
      → Leads grant text
          (at_state argn_len none 0 (suc (length items)) r)
          p
          (Finds text r.type keys)
  argn_run a [] keys p r chosen left found =
      last_argument grant text (argn_item grant text) a keys 0 p r left tt (chosen 0) found
  argn_run a (b ∷ items) keys p r chosen left found =
      let m = suc (length items) in
      argument_then grant text (argn_item grant text) a (b ∷ items) argn_len 0 (suc m) m p r
        (Finds text r.type keys) left (omega arith) tt (chosen m ∙ goes_on (length items) argn_len)
        (λ q left'. argn_run b items keys q r chosen left' found)

  -- The keys of a command that has only keys.
  pub argx_run :
      (k : Bytes) (items keys : List Bytes) (p : ℕ) (r : Cmd)
      → kinds r.type ≡ 1
      → redis_argx r.type ≡ true
      → Left grant text p (suc (length items)) (k ∷ items)
      → length keys + length items < 2 ^ 31
      → Records text r.keys keys
      → Leads grant text
          (at_state key_len none 0 (suc (length items)) r)
          p
          (Finds text r.type (keys ++ (k ∷ items)))
  argx_run k [] keys p r one h left few old =
      last_key grant text served k keys 0 p r left (omega arith) old
        (after_key-redis_argx r.type one h 0 r.narg_count)
  argx_run k (b ∷ items) keys p r one h left few old =
      let m = suc (length items) in
      key_then grant text served k (b ∷ items) keys key_len 0 (suc m) m p r
        (Finds text r.type (keys ++ (k ∷ b ∷ items))) left (omega arith) (omega arith) old
        (after_key-redis_argx r.type one h m r.narg_count ∙ goes_on (length items) key_len)
        (λ q more left' new.
          subst
            (λ ks.
              Leads grant text (at_state key_len none 0 m (record r { keys = more })) q
                (Finds text r.type ks))
            (append_assoc keys (k ∷ []) (b ∷ items))
            (argx_run b items (keys ++ (k ∷ [])) q (record r { keys = more }) one h left'
              (omega (arith, length-append keys (k ∷ []))) new))

  -- The keys and values of a command that takes pairs of them.
  pub argkvx_run :
      (k v : Bytes) (items later keys : List Bytes) (p : ℕ) (r : Cmd)
      → Pairs items later
      → kinds r.type ≡ 1
      → redis_argkvx r.type ≡ true
      → r.narg_count % 2 ≡ 1
      → Left grant text p (suc (suc (length items))) (k ∷ v ∷ items)
      → length keys + length items < 2 ^ 31
      → Records text r.keys keys
      → Leads grant text
          (at_state key_len none 0 (suc (suc (length items))) r)
          p
          (Finds text r.type (keys ++ (k ∷ later)))
  argkvx_run k v [] _ keys p r no_pair one h odd left few old =
      key_then grant text served k (v ∷ []) keys arg1_len 0 2 1 p r
        (Finds text r.type (keys ++ (k ∷ []))) left (omega arith) (omega arith) old
        (after_key-redis_argkvx r.type one h 1 r.narg_count odd ∙ goes_on 0 arg1_len)
        (λ q more left' new.
          last_argument grant text (arg1_item grant text) v (keys ++ (k ∷ [])) 0 q
            (record r { keys = more }) left' tt (after_arg1-redis_argkvx r.type one h 0) new)
  argkvx_run k v _ _ keys p r (pair k' v' {items} {later} pairs) one h odd left few old =
      let m = suc (suc (length items)) in
      let ks = keys ++ (k ∷ []) in
      key_then grant text served k (v ∷ k' ∷ v' ∷ items) keys arg1_len 0 (suc (suc m)) (suc m) p r
        (Finds text r.type (keys ++ (k ∷ k' ∷ later))) left (omega arith) (omega arith) old
        (after_key-redis_argkvx r.type one h (suc m) r.narg_count odd ∙ goes_on m arg1_len)
        (λ q more left' new.
          argument_then grant text (arg1_item grant text) v (k' ∷ v' ∷ items) key_len 0 (suc m) m q
            (record r { keys = more }) (Finds text r.type (keys ++ (k ∷ k' ∷ later))) left'
            (omega arith) tt
            (after_arg1-redis_argkvx r.type one h m ∙ goes_on (suc (length items)) key_len)
            (λ q' left''.
              subst
                (λ l.
                  Leads grant text (at_state key_len none 0 m (record r { keys = more })) q'
                    (Finds text r.type l))
                (append_assoc keys (k ∷ []) (k' ∷ later))
                (argkvx_run k' v' items later ks q' (record r { keys = more }) pairs one h odd
                  left'' (omega (arith, length-append keys (k ∷ []))) new)))

  -- Behind the key of a command with any number of arguments.
  pub any_args_run :
      (args : List Bytes) (q : ℕ) (r : Cmd) (keys : List Bytes)
      → kinds r.type ≡ 1
      → redis_argn r.type ≡ true
      → 0 < length args
      → Left grant text q (length args) args
      → Records text r.keys keys
      → Leads grant text (at_state arg1_len none 0 (length args) r) q (Finds text r.type keys)
  any_args_run [] q r keys one h some_args left found = absurd (omega arith)
  any_args_run (a ∷ []) q r keys one h some_args left found =
      last_argument grant text (arg1_item grant text) a keys 0 q r left tt
        (after_arg1-redis_argn r.type one h 0) found
  any_args_run (a ∷ b ∷ args) q r keys one h some_args left found =
      let m = suc (length args) in
      argument_then grant text (arg1_item grant text) a (b ∷ args) argn_len 0 (suc m) m q r
        (Finds text r.type keys) left (omega arith) tt
        (after_arg1-redis_argn r.type one h m ∙ goes_on (length args) argn_len)
        (λ p left'. argn_run b args keys p r (after_argn-redis_argn r.type one h) left' found)

  -- The key of EVAL and what is behind it.
  pub script_run :
      (k : Bytes) (args : List Bytes) (q : ℕ) (r : Cmd)
      → kinds r.type ≡ 1
      → redis_argeval r.type ≡ true
      → Left grant text q (suc (length args)) (k ∷ args)
      → Records text r.keys []
      → Leads grant text
          (at_state key_len none 0 (suc (length args)) r)
          q
          (Finds text r.type (k ∷ []))
  script_run k [] q r one h left old =
      last_key grant text served k [] 0 q r left (omega arith) old
        (after_key-redis_argeval r.type one h 0 r.narg_count)
  script_run k (a ∷ args) q r one h left old =
      let m = suc (length args) in
      key_then grant text served k (a ∷ args) [] argn_len 0 (suc m) m q r
        (Finds text r.type (k ∷ [])) left (omega arith) (omega arith) old
        (after_key-redis_argeval r.type one h m r.narg_count ∙ goes_on (length args) argn_len)
        (λ p more left' new.
          argn_run a args (k ∷ []) p (record r { keys = more })
            (after_argn-redis_argeval r.type one h) left' new)

  -- Behind the key of a command with two arguments.
  pub two_args_run :
      (a b : Bytes) (q : ℕ) (r : Cmd) (keys : List Bytes)
      → kinds r.type ≡ 1
      → redis_arg2 r.type ≡ true
      → Left grant text q 2 (a ∷ b ∷ [])
      → Records text r.keys keys
      → Leads grant text (at_state arg1_len none 0 2 r) q (Finds text r.type keys)
  unfolding kinds
  two_args_run a b q r keys one h left found =
      let no_eval = excludes (redis_arg2 r.type) (redis_argeval r.type) h (omega arith) in
      argument_then grant text (arg1_item grant text) a (b ∷ []) arg2_len 0 2 1 q r
        (Finds text r.type keys) left refl tt (after_arg1-redis_arg2 r.type one h)
        (λ p left'.
          last_argument grant text (arg2_item grant text) b keys 0 p r left' no_eval
            (after_arg2-redis_arg2 r.type one h) found)

  -- Behind the key of a command with three arguments.
  pub three_args_run :
      (a b c : Bytes) (q : ℕ) (r : Cmd) (keys : List Bytes)
      → kinds r.type ≡ 1
      → redis_arg3 r.type ≡ true
      → Left grant text q 3 (a ∷ b ∷ c ∷ [])
      → Records text r.keys keys
      → Leads grant text (at_state arg1_len none 0 3 r) q (Finds text r.type keys)
  unfolding kinds
  three_args_run a b c q r keys one h left found =
      let e = Finds text r.type keys in
      let no_eval = excludes (redis_arg3 r.type) (redis_argeval r.type) h (omega arith) in
      argument_then grant text (arg1_item grant text) a (b ∷ c ∷ []) arg2_len 0 3 2 q r e left refl
        tt (after_arg1-redis_arg3 r.type one h)
        (λ p left'.
          argument_then grant text (arg2_item grant text) b (c ∷ []) arg3_len 0 2 1 p r e left' refl
            no_eval (after_arg2-redis_arg3 r.type one h)
            (λ p' left''.
              last_argument grant text (arg3_item grant text) c keys 0 p' r left'' tt
                (after_arg3-redis_arg3 r.type one h) found))
