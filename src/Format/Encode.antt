-- ===== src/Format/Encode.antt =====
-- `redisFormatSdsCommandArgv` against the protocol.
use hiredis_vip.Base.{
  ℕ, ◌+◌, ◌-◌, ◌%◌, ◌^◌, ltb, if◌then◌else◌, lt→ltb, ◌<◌, ◌≤◌, List, [], ◌∷◌, ◌++◌, Bytes, Option,
  none, some, length, ◌≡◌, ◌≢◌, refl, sym, ap, ap₂, ◌∙◌, ◌⊎◌, inl, inr, arith, All, length-append,
  append_assoc, append-nil, Bool, true, false, Bool-cases,
}
use hiredis_vip.Base.Int.{pos, negsuc}
use hiredis_vip.Decimal.{sdsull2str, bulklen}
use hiredis_vip.Decimal.Text.{IsDecimal, sdsull2str-IsDecimal, sdsll2str-pos}
use hiredis_vip.Decimal.Count.{count_digits-IsDecimal}
use hiredis_vip.Sds.{
  Sds, FmtArg, signed_arg, unsigned_arg, empty, new_len, cat_len, cat_fmt, conversion, write_text,
  is_conversion, with_header, prealloc,
}
use hiredis_vip.Sds.Laws.{
  cat_fmt-char, cat_fmt-last, cat_fmt-number, cat_len-fits, make_room_for-cases, with_room,
}
use hiredis_vip.Format.{
  to_int, formatted, minus_one, items_len, total_len, append_items, construct, count_format,
  length_format, format_sds_command_argv,
}

-- What `sdsull2str` writes.
abbrev pub text_or_nil : Option Bytes → Bytes
text_or_nil none = []
text_or_nil (some s) = s

unfoldable pub digits_of : ℕ → Bytes
digits_of v = text_or_nil (sdsull2str v)

pub digits_of-IsDecimal :
    (v : ℕ) → v < 2 ^ 64 → (sdsull2str v ≡ some (digits_of v)) × IsDecimal v (digits_of v)
unfolding digits_of
digits_of-IsDecimal v h = let (s, e, d) = sdsull2str-IsDecimal v (omega arith) in (rw e, rw e d)

-- The protocol: an item with its length, and the items with their number.
unfoldable pub encode_item : Bytes → Bytes
encode_item a = b'$' ∷ (digits_of (length a) ++ (13 ∷ 10 ∷ (a ++ (13 ∷ 10 ∷ []))))

unfoldable pub encode_items : List Bytes → Bytes
encode_items [] = []
encode_items (a ∷ argv) = encode_item a ++ encode_items argv

unfoldable pub encode : List Bytes → Bytes
encode argv = b'*' ∷ (digits_of (length argv) ++ (13 ∷ 10 ∷ encode_items argv))

pub item_size : (a : Bytes) → length (encode_item a) ≡ 5 + length (digits_of (length a)) + length a
unfolding encode_item
item_size a = omega (
  arith,
  length-append (digits_of (length a)) (13 ∷ 10 ∷ (a ++ (13 ∷ 10 ∷ []))),
  length-append a (13 ∷ 10 ∷ []),
)

join_item :
    (b a rest : Bytes)
    → b ++ (b'$' ∷ (digits_of (length a) ++ (13 ∷ 10 ∷ []))) ++ a ++ (13 ∷ 10 ∷ []) ++ rest
      ≡ b ++ (encode_item a ++ rest)
unfolding encode_item
join_item b a rest = simp append_assoc

items_len-encode :
    (argv : List Bytes)
    → All (λ a. length a < 2 ^ 32) argv
    → items_len argv ≡ some (length (encode_items argv))
unfolding items_len encode_items bulklen
items_len-encode [] all = refl
items_len-encode (a ∷ argv) all =
    let (e, d) = digits_of-IsDecimal (length a) (omega arith) in
    let split = length-append (encode_item a) (encode_items argv) in
    rw (count_digits-IsDecimal d (omega arith), items_len-encode argv all.1, items_len, bulklen)
      (ap some (omega (arith, item_size a)))

total_len-encode :
    (argv : List Bytes)
    → All (λ a. length a < 2 ^ 32) argv
    → length argv < 2 ^ 31
    → total_len argv ≡ some (length (encode argv))
unfolding total_len encode
total_len-encode argv all few =
    let (e, d) = digits_of-IsDecimal (length argv) (omega arith) in
    rw (count_digits-IsDecimal d (omega arith), items_len-encode argv all, total_len)
      (ap some
        (omega (arith, length-append (digits_of (length argv)) (13 ∷ 10 ∷ encode_items argv))))

pub to_int-pos : (n : ℕ) → n < 2 ^ 31 → to_int n ≡ pos n
to_int-pos n h =
    let e : n % 2 ^ 32 ≡ n = omega arith in
    ap (λ w. if ltb w (2 ^ 31) then pos w else negsuc (2 ^ 32 - 1 - w)) e ∙ rw (lt→ltb n (2 ^ 31) h)

module _ (grant : ℕ → Bool) where
  -- A format of one number between a letter and the end of the line.
  cat_fmt-line :
      (b : Bytes) (f c next : ℕ) (a : FmtArg) (t : Bytes)
      → c ≢ b'%'
      → is_conversion next ≡ true
      → ((r : Sds) → conversion grant r next a ≡ cat_len grant r t)
      → f < 2 ^ 32
      → 3 + length t ≤ f
      → cat_fmt grant (with_room b f) (c ∷ b'%' ∷ next ∷ 13 ∷ 10 ∷ []) (a ∷ [])
        ≡ some (with_room (b ++ (c ∷ (t ++ (13 ∷ 10 ∷ [])))) (f - (3 + length t)))
  cat_fmt-line b f c next a t ne conv e h room =
      let b₁ = b ++ (c ∷ []) in
      let b₂ = b₁ ++ t in
      let b₃ = b₂ ++ (13 ∷ []) in
      let f₂ = f - 1 - length t in
      cat_fmt-char grant b f c b'%' (next ∷ 13 ∷ 10 ∷ []) (a ∷ []) ne h (omega arith)
      ∙ cat_fmt-number grant b₁ (f - 1) next (13 ∷ 10 ∷ []) a [] t conv (omega arith) (omega arith)
          (e (with_room b₁ (f - 1))) (omega arith)
      ∙ cat_fmt-char grant b₂ f₂ 13 10 [] [] (omega arith) (omega arith) (omega arith)
      ∙ cat_fmt-last grant b₃ (f₂ - 1) 10 [] (omega arith) (omega arith) (omega arith)
      ∙ ap₂ (λ l (n : ℕ). some (with_room l n)) (simp append_assoc) (omega arith)

  conversion-count :
      (n : ℕ) (r : Sds)
      → n < 2 ^ 64
      → conversion grant r b'i' (signed_arg (pos n)) ≡ cat_len grant r (digits_of n)
  unfolding conversion write_text
  conversion-count n r h = rw (sdsll2str-pos n, (digits_of-IsDecimal n h).0)

  conversion-length :
      (n : ℕ) (r : Sds)
      → n < 2 ^ 64
      → conversion grant r b'T' (unsigned_arg n) ≡ cat_len grant r (digits_of n)
  unfolding conversion write_text
  conversion-length n r h = rw ((digits_of-IsDecimal n h).0)

  append_items-encode :
      (argv : List Bytes) (b : Bytes) (f : ℕ)
      → All (λ a. length a < 2 ^ 32) argv
      → f < 2 ^ 32
      → length (encode_items argv) ≤ f
      → append_items grant (with_room b f) argv
        ≡ some (with_room (b ++ encode_items argv) (f - length (encode_items argv)))
  unfolding append_items encode_items
  append_items-encode [] b f all h room =
      ap₂ (λ l (n : ℕ). some (with_room l n)) (sym (append-nil b)) (omega arith)
  append_items-encode (a ∷ argv) b f all h room =
      let t = digits_of (length a) in
      let size = item_size a in
      let split = length-append (encode_item a) (encode_items argv) in
      let b₁ = b ++ (b'$' ∷ (t ++ (13 ∷ 10 ∷ []))) in
      let f₁ = f - (3 + length t) in
      let header : cat_fmt grant (with_room b f) length_format (unsigned_arg (length a) ∷ [])
          ≡ some (with_room b₁ f₁) =
        cat_fmt-line b f b'$' b'T' (unsigned_arg (length a)) t (omega arith)
          (unfold is_conversion in refl) (λ r. conversion-length (length a) r (omega arith)) h
          (omega arith) in
      rw
        (
          header,
          cat_len-fits grant b₁ f₁ a (omega arith) (omega arith),
          cat_len-fits grant (b₁ ++ a) (f₁ - length a) (13 ∷ 10 ∷ []) (omega arith) (omega arith),
          append_items,
        )
        (append_items-encode argv (b₁ ++ a ++ (13 ∷ 10 ∷ [])) (f₁ - length a - 2) all.1
            (omega arith) (omega arith)
          ∙ ap₂ (λ l (n : ℕ). some (with_room l n)) (join_item b a (encode_items argv))
              (omega arith))

  construct-encode :
      (argv : List Bytes) (f totlen : ℕ)
      → All (λ a. length a < 2 ^ 32) argv
      → length argv < 2 ^ 31
      → f < 2 ^ 32
      → length (encode argv) ≤ f
      → construct grant (with_room [] f) argv totlen ≡ formatted (to_int totlen) (encode argv)
  unfolding construct encode
  construct-encode argv f totlen all few h room =
      let t = digits_of (length argv) in
      let size = length-append t (13 ∷ 10 ∷ encode_items argv) in
      let b₁ = b'*' ∷ (t ++ (13 ∷ 10 ∷ [])) in
      let f₁ = f - (3 + length t) in
      let header : cat_fmt grant (with_room [] f) count_format (signed_arg (pos (length argv)) ∷ [])
          ≡ some (with_room b₁ f₁) =
        cat_fmt-line [] f b'*' b'i' (signed_arg (pos (length argv))) t (omega arith)
          (unfold is_conversion in refl) (λ r. conversion-count (length argv) r (omega arith)) h
          (omega arith) in
      rw (header, append_items-encode argv b₁ f₁ all (omega arith) (omega arith), construct)
        (ap (λ b. formatted (to_int totlen) b) (simp append_assoc))

  -- `redisFormatSdsCommandArgv`, on fewer than 2^31 items of less than 2^32 bytes each whose command
  -- is shorter than 2^31 bytes, returns -1 only where memory is refused; else it writes exactly the
  -- command of the protocol and returns its length.
  pub format-encode :
      (argv : List Bytes)
      → All (λ a. length a < 2 ^ 32) argv
      → length argv < 2 ^ 31
      → length (encode argv) < 2 ^ 31
      → ((format_sds_command_argv grant argv ≡ minus_one) × ((n : ℕ) × (grant n ≡ false)))
        ⊎ (format_sds_command_argv grant argv
            ≡ formatted (pos (length (encode argv))) (encode argv))
  unfolding format_sds_command_argv empty
  format-encode argv all few short = elim (Bool-cases (grant (with_header 0))) [
    | inr refused ↦ inl (
      rw (total_len-encode argv all few, refused, format_sds_command_argv, empty, new_len),
      (with_header 0, refused),
    )
    | inl granted ↦
        let s : Sds = record { buf = []; free = 0 } in
        let size : 1 ≤ length (encode argv) = unfold encode in omega arith in
        elim (make_room_for-cases grant s (length (encode argv)) (omega arith)) [
          | inl (e, small, refused) ↦ inl (
            rw (total_len-encode argv all few, granted, e, format_sds_command_argv, empty, new_len),
            (_, refused),
          )
          | inr done ↦ elim done [
            | inl (fits, _) ↦ absurd (omega arith)
            | inr (e, full) ↦ inr (
                rw
                  (
                    total_len-encode argv all few,
                    granted,
                    e,
                    format_sds_command_argv,
                    empty,
                    new_len,
                  )
                  (construct-encode argv (prealloc (0 + length (encode argv)) - 0)
                      (length (encode argv)) all few (ground arith) (ground arith)
                    ∙ ap (λ n. formatted n (encode argv))
                        (to_int-pos (length (encode argv)) short)))
          ]
        ]
  ]
