-- ===== src/Command/Run/Tails.antt =====
-- Runs of `redis_parse_cmd` from the items behind the name to the end, kind by kind.
use hiredis_vip.Base.{
  ℕ, suc, ◌+◌, ◌-◌, ◌^◌, ◌<◌, ◌++◌, List, [], ◌∷◌, Bytes, none, length, drop, ◌≡◌, refl, arith,
  Bool, true, false, All, ==_of_ne,
}
use hiredis_vip.Array.{HiArray}
use hiredis_vip.Format.Encode.{encode_item, encode_items}
use hiredis_vip.Command.Types.{
  CmdType, Cmd, State, KeyPos, key_len, arg1_len, arg1_len_lf, arg1, arg1_lf, arg2_len, arg2_len_lf,
  arg2, arg2_lf, arg3_len, arg3_len_lf, arg3, arg3_lf, argn_len, argn_len_lf, argn, argn_lf,
}
use hiredis_vip.Command.Kinds.{redis_argeval}
use hiredis_vip.Command.Items.{bad_nkey, read_arg2, skip_arg}
use hiredis_vip.Command.Choices.{
  Choice, finish, enter, done_or, after_key, after_arg1, after_arg2, after_arg3, after_argn,
}
use hiredis_vip.Command.Parse.{dispatch, Exit, exit_done}
use hiredis_vip.Command.Run.{Leads, drop-next}
use hiredis_vip.Command.Run.Lengths.{at_state}
use hiredis_vip.Command.Run.Skips.{SkipsItem, argument_run}
use hiredis_vip.Command.Run.Keys.{Records, key_run}

-- The loop is left at `done`, with this type and these keys.
abbrev pub Finds : Bytes → CmdType → List Bytes → Exit → Type 0
Finds text t keys x = (r : Cmd) × (x ≡ exit_done r) × (r.type ≡ t) × Records text r.keys keys

-- Not the text of EVAL's number of keys.
abbrev pub NoEval : CmdType → Bytes → Type 0
NoEval t a = redis_argeval t ≡ false

abbrev pub Any : CmdType → Bytes → Type 0
Any t a = Unit

-- The number of keys of EVAL.
abbrev pub Number : CmdType → Bytes → Type 0
Number t a = (redis_argeval t ≡ true) × (bad_nkey a ≡ false)

abbrev pub Short : List Bytes → Type 0
Short = All (λ a. length a < 2 ^ 32)

pub goes_on : (k : ℕ) (s : State) → done_or (suc k) s ≡ enter s
goes_on k s = rw (==_of_ne (suc k) 0 (omega arith))

-- Keys, each with its value, and the keys alone.
pub data Pairs : List Bytes → List Bytes → Type 0 where
  no_pair : Pairs [] []
  pair :
      (k v : Bytes) {items later : List Bytes}
      → Pairs items later
      → Pairs (k ∷ v ∷ items) (k ∷ later)

module _ (grant : ℕ → Bool) (text : Bytes) where
  pub arg1_item : SkipsItem grant text Any after_arg1 arg1_len arg1_len_lf arg1 arg1_lf
  unfolding dispatch skip_arg
  arg1_item = record {
    lengths = record { scans = λ t l n r p ch. refl; ends = λ t l n r p ch. refl };
    skips = λ l n r p ch u c. rw (c, skip_arg);
    chooses = λ l n r p ch. refl;
  }

  pub arg2_item : SkipsItem grant text NoEval after_arg2 arg2_len arg2_len_lf arg2 arg2_lf
  unfolding dispatch read_arg2 skip_arg
  arg2_item = record {
    lengths = record { scans = λ t l n r p ch. refl; ends = λ t l n r p ch. refl };
    skips = λ l n r p ch no c. rw (no, c, read_arg2);
    chooses = λ l n r p ch. refl;
  }

  pub nkey_item : SkipsItem grant text Number after_arg2 arg2_len arg2_len_lf arg2 arg2_lf
  unfolding dispatch read_arg2 skip_arg
  nkey_item = record {
    lengths = record { scans = λ t l n r p ch. refl; ends = λ t l n r p ch. refl };
    skips = λ l n r p ch yes c. rw (yes.0, yes.1, c, read_arg2);
    chooses = λ l n r p ch. refl;
  }

  pub arg3_item : SkipsItem grant text Any after_arg3 arg3_len arg3_len_lf arg3 arg3_lf
  unfolding dispatch skip_arg
  arg3_item = record {
    lengths = record { scans = λ t l n r p ch. refl; ends = λ t l n r p ch. refl };
    skips = λ l n r p ch u c. rw (c, skip_arg);
    chooses = λ l n r p ch. refl;
  }

  pub argn_item : SkipsItem grant text Any after_argn argn_len argn_len_lf argn argn_lf
  unfolding dispatch skip_arg
  argn_item = record {
    lengths = record { scans = λ t l n r p ch. refl; ends = λ t l n r p ch. refl };
    skips = λ l n r p ch u c. rw (c, skip_arg);
    chooses = λ l n r p ch. refl;
  }

  -- What is left of a command, at a position: n items, none too long.
  abbrev pub Left : ℕ → ℕ → List Bytes → Type 0
  Left p n items = (drop p text ≡ encode_items items) × (length items ≡ n) × Short items

  module _ {Fits : CmdType → Bytes → Type 0} {choice : CmdType → ℕ → Choice}
      {s s' item item' : State} (skips : SkipsItem grant text Fits choice s s' item item') where
    pub argument_then :
        (a : Bytes) (items : List Bytes) (next : State) (l n m p : ℕ) (r : Cmd) (e : Exit → Type 0)
        → Left p n (a ∷ items)
        → m + 1 ≡ n
        → Fits r.type a
        → choice r.type m ≡ enter next
        → ((q : ℕ) → Left q m items → Leads grant text (at_state next none 0 m r) q e)
        → Leads grant text (at_state s none l n r) p e
    unfolding encode_items
    argument_then a items next l n m p r e (here, count, short) step fits chosen go =
        let less : n - 1 ≡ m = omega arith in
        argument_run skips a (encode_items items) l n p r e short.0 (omega arith) fits here
          (λ q same.
            rw (less, chosen)
              (go (q + 1) (
                drop-next text (encode_item a) (encode_items items) p q here same,
                omega arith,
                short.1,
              )))

    pub last_argument :
        (a : Bytes) (keys : List Bytes) (l p : ℕ) (r : Cmd)
        → Left p 1 (a ∷ [])
        → Fits r.type a
        → choice r.type 0 ≡ finish
        → Records text r.keys keys
        → Leads grant text (at_state s none l 1 r) p (Finds text r.type keys)
    unfolding encode_items
    last_argument a keys l p r (here, count, short) fits chosen found =
        argument_run skips a [] l 1 p r (Finds text r.type keys) short.0 (omega arith) fits here
          (λ q same. rw chosen (r, refl, refl, found))

  module _ (served : (n : ℕ) → grant n ≡ true) where
    pub key_then :
        (k : Bytes) (items keys : List Bytes) (next : State) (l n m p : ℕ) (r : Cmd)
        (e : Exit → Type 0)
        → Left p n (k ∷ items)
        → m + 1 ≡ n
        → length keys < 2 ^ 31
        → Records text r.keys keys
        → after_key r.type m r.narg_count ≡ enter next
        → ((q : ℕ) (more : HiArray KeyPos)
            → Left q m items
            → Records text more (keys ++ (k ∷ []))
            → Leads grant text (at_state next none 0 m (record r { keys = more })) q e)
        → Leads grant text (at_state key_len none l n r) p e
    unfolding encode_items
    key_then k items keys next l n m p r e (here, count, short) step few old chosen go =
        let less : n - 1 ≡ m = omega arith in
        key_run served k (encode_items items) keys l n p r e short.0 (omega arith) here old few
          (λ more q same new.
            rw (less, chosen)
              (go (q + 1) more
                (
                  drop-next text (encode_item k) (encode_items items) p q here same,
                  omega arith,
                  short.1,
                )
                new))

    pub last_key :
        (k : Bytes) (keys : List Bytes) (l p : ℕ) (r : Cmd)
        → Left p 1 (k ∷ [])
        → length keys < 2 ^ 31
        → Records text r.keys keys
        → after_key r.type 0 r.narg_count ≡ finish
        → Leads grant text (at_state key_len none l 1 r) p (Finds text r.type (keys ++ (k ∷ [])))
    unfolding encode_items
    last_key k keys l p r (here, count, short) few old chosen =
        key_run served k [] keys l 1 p r (Finds text r.type (keys ++ (k ∷ []))) short.0
          (omega arith) here old few
          (λ more q same new. rw chosen (record r { keys = more }, refl, refl, new))
