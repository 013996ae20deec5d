-- ===== src/Command/Run/Keys.antt =====
-- Runs of `redis_parse_cmd` over a key.
use hiredis_vip.Base.{
  ℕ, suc, ◌+◌, ◌-◌, ◌^◌, ◌<◌, ◌++◌, List, map, [], ◌∷◌, Bytes, some, none, length, drop, slice, ◌≡◌,
  refl, ap, ap₂, ◌∙◌, arith, Bool, true, false, ==_of_ne, inl, inr,
}
use hiredis_vip.Array.{HiArray, push_value}
use hiredis_vip.Array.Valid.{Holds}
use hiredis_vip.Array.Laws.{request, push_value-Holds}
use hiredis_vip.Format.Encode.{digits_of, digits_of-IsDecimal, encode_item, item_size}
use hiredis_vip.Command.Types.{Cmd, KeyPos, key_len, key_len_lf, key, key_lf}
use hiredis_vip.Command.Items.{read_key}
use hiredis_vip.Command.Choices.{choose, at_lf, after_key}
use hiredis_vip.Command.Parse.{dispatch, Exit, refuses_key_len}
use hiredis_vip.Command.Run.{drop-head, drop-after, slice-at, Leads, After, round}
use hiredis_vip.Command.Run.Lengths.{at_state, ReadsLength, length_run}
use hiredis_vip.Command.Run.Skips.{item_line, drop-line, first_byte}

-- The recorded keys are these, read where they stand in the command.
pub record Records (text : Bytes) (recorded : HiArray KeyPos) (keys : List Bytes) : Type 0 where
  pub places : List KeyPos
  pub holds : Holds recorded places
  pub found : map (λ k. slice k.key_start k.key_end text) places ≡ keys

map-snoc :
    {A B : Type 0} (f : A → B) (xs : List A) (x : A)
    → map f (xs ++ (x ∷ [])) ≡ map f xs ++ (f x ∷ [])
map-snoc f [] x = refl
map-snoc f (y ∷ xs) x = ap (λ l. f y ∷ l) (map-snoc f xs x)

length-snoc : {A : Type 0} (xs : List A) (x : A) → length (xs ++ (x ∷ [])) ≡ suc (length xs)
length-snoc [] x = refl
length-snoc (y ∷ xs) x = ap suc (length-snoc xs x)

length-map : {A B : Type 0} (f : A → B) (xs : List A) → length (map f xs) ≡ length xs
length-map f [] = refl
length-map f (x ∷ xs) = ap suc (length-map f xs)

pub served-not : (grant : ℕ → Bool) → ((n : ℕ) → grant n ≡ true) → (n : ℕ) → grant n ≡ false → ⊥
served-not grant served n e = absurd (cc (served n, e))

module _ {grant : ℕ → Bool} {text : Bytes} (served : (n : ℕ) → grant n ≡ true) where
  push_value-Records :
      (recorded : HiArray KeyPos) (keys : List Bytes) (k rest : Bytes) (q : ℕ)
      → Records text recorded keys
      → length keys < 2 ^ 31
      → drop q text ≡ k ++ rest
      → (more : HiArray KeyPos) × (push_value grant recorded
            (record { key_start = q; key_end = q + length k })
          ≡ some more)
        × Records text more (keys ++ (k ∷ []))
  push_value-Records recorded keys k rest q old few here =
      elim (push_value-Holds grant (record { key_start = q; key_end = q + length k }) old.holds
        (omega (
          arith,
          length-map (λ (k : KeyPos). slice k.key_start k.key_end text) old.places,
          ap length old.found,
        ))) [
          | inl (e, full, refused) ↦ absurd (served-not grant served (request recorded) refused)
          | inr (more, e, holds) ↦ (
            more,
            e,
            record {
              places = old.places ++ (_ ∷ []);
              holds = holds;
              found =
                  map-snoc _ old.places _
                  ∙ ap₂ (λ a b. a ++ (b ∷ [])) old.found (slice-at text k rest q here);
            },
          )
        ]

  key_lengths : ReadsLength grant text refuses_key_len key_len key_len_lf key
  unfolding dispatch
  key_lengths = record { scans = λ t l n r p ch. refl; ends = λ t l n r p ch. refl }

  key_body_run :
      (k rest : Bytes) (keys : List Bytes) (n q : ℕ) (r : Cmd) (e : Exit → Type 0)
      → drop q text ≡ k ++ (13 ∷ 10 ∷ rest)
      → Records text r.keys keys
      → length keys < 2 ^ 31
      → ((more : HiArray KeyPos)
          → Records text more (keys ++ (k ∷ []))
          → After grant text
              (choose
                (after_key r.type n r.narg_count)
                (at_state key_lf none 0 n (record r { keys = more }))
                (q + length k + 1))
              e)
      → Leads grant text (at_state key none (length k) n r) q e
  unfolding dispatch read_key at_lf
  key_body_run k rest keys n q r e here old few next =
      let (y, begun, start) = first_byte k 13 (10 ∷ rest) in
      let end : drop (q + length k) text ≡ 13 ∷ 10 ∷ rest =
        drop-after text k (13 ∷ 10 ∷ rest) q here in
      let last : drop (q + length k + 1) text ≡ 10 ∷ rest =
        drop-after text (13 ∷ []) (10 ∷ rest) (q + length k) end in
      let (more, pushed, new) = push_value-Records r.keys keys k (13 ∷ 10 ∷ rest) q old few here in
      round grant text (at_state key none (length k) n r) q y e (drop-head text q (here ∙ start)) (
        rw (drop-head text (q + length k) end, pushed, dispatch, read_key)
          (round grant text (at_state key_lf none 0 n (record r { keys = more })) (q + length k + 1)
            10 e (drop-head text (q + length k + 1) last) (next more new)))

  -- A key leads to what is chosen behind it, with the key recorded.
  pub key_run :
      (k rest : Bytes) (keys : List Bytes) (l n p : ℕ) (r : Cmd) (e : Exit → Type 0)
      → length k < 2 ^ 32
      → 0 < n
      → drop p text ≡ encode_item k ++ rest
      → Records text r.keys keys
      → length keys < 2 ^ 31
      → ((more : HiArray KeyPos) (q : ℕ)
          → q + 1 ≡ p + length (encode_item k)
          → Records text more (keys ++ (k ∷ []))
          → After grant text
              (choose
                (after_key r.type (n - 1) r.narg_count)
                (at_state key_lf none 0 (n - 1) (record r { keys = more }))
                q)
              e)
      → Leads grant text (at_state key_len none l n r) p e
  key_run k rest keys l n p r e small room here old few next =
      let digits = digits_of (length k) in
      let line = item_line text k rest p here in
      let item = p + (3 + length digits) in
      length_run key_lengths (length k) l n p digits (k ++ (13 ∷ 10 ∷ rest)) r e
        (digits_of-IsDecimal (length k) (omega arith)).1 small line (==_of_ne n 0 (omega arith))
        (key_body_run k rest keys (n - 1) item r e
          (drop-line text digits (k ++ (13 ∷ 10 ∷ rest)) p line) old few
          (λ more new. next more (item + length k + 1) (omega (arith, item_size k)) new))
