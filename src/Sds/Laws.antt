-- ===== src/Sds/Laws.antt =====
-- The string operations against plain lists of bytes.
use hiredis_vip.Base.{
  ℕ, ◌+◌, ◌-◌, ◌%◌, ◌^◌, ltb, if◌then◌else◌, ◌<◌, ◌≤◌, List, [], ◌∷◌, ◌++◌, Bytes, none, some,
  length, leb, Bool, true, false, ◌≡◌, refl, ap, ◌∙◌, ◌⊎◌, inl, inr, arith, Bool-cases, leb→le, ◌≢◌,
  ==_of_ne,
}
use hiredis_vip.Sds.{
  Sds, int_field, sub64, with_header, prealloc, make_room_for, cat_len, FmtArg, cat_fmt, write_text,
  conversion, is_conversion,
}

int_field-small : (n : ℕ) → n < 2 ^ 31 → int_field n ≡ n
unfolding int_field
int_field-small n h = ground arith

-- What is stored of a number of 32 bits reads as at least that number.
int_field-reads : (f n : ℕ) → f < 2 ^ 32 → n ≤ f → leb n (int_field f) ≡ true
unfolding int_field
int_field-reads f n h le = ground arith

int_field-mod : (v w : ℕ) → v % 2 ^ 32 ≡ w % 2 ^ 32 → int_field v ≡ int_field w
unfolding int_field
int_field-mod v w e = ap (λ (m : ℕ). if ltb m (2 ^ 31) then m else m + (2 ^ 64 - 2 ^ 32)) e

int_field-sub :
    (f n : ℕ) → f < 2 ^ 32 → n ≤ f → int_field (sub64 (int_field f) n) ≡ int_field (f - n)
int_field-sub f n h le =
    int_field-mod (sub64 (int_field f) n) (f - n) (unfold int_field in ground arith)

-- The bytes that `sdsMakeRoomFor` asks for.
abbrev pub room_request : Sds → ℕ → ℕ
room_request s n = with_header (prealloc (length s.buf + n))

-- A string whose header has so much room.
abbrev pub with_room : Bytes → ℕ → Sds
with_room b f = record { buf = b; free = int_field f }

module _ (grant : ℕ → Bool) where
  -- What `sdsMakeRoomFor` comes to for lengths of up to 31 bits: the new room may not fit an `int`.
  pub make_room_for-cases :
      (s : Sds) (n : ℕ)
      → length s.buf + n < 2 ^ 31
      → ((make_room_for grant s n ≡ none) × (s.free < n) × (grant (room_request s n) ≡ false))
        ⊎ (((n ≤ s.free) × (make_room_for grant s n ≡ some s))
            ⊎ ((make_room_for grant s n
                  ≡ some (with_room s.buf (prealloc (length s.buf + n) - length s.buf)))
                × (s.free < n)))
  unfolding make_room_for
  make_room_for-cases s n small =
      let len : int_field (length s.buf) ≡ length s.buf =
        int_field-small (length s.buf) (omega arith) in
      let whole : (length s.buf + n) % 2 ^ 64 ≡ length s.buf + n = omega arith in
      let new = prealloc (length s.buf + n) in
      let left : sub64 new (length s.buf) ≡ new - length s.buf = ground arith in
      elim (Bool-cases (leb n s.free)) [
        | inl fits ↦ inr (inl (leb→le n s.free fits, rw (fits, make_room_for) refl))
        | inr full ↦ elim (Bool-cases (grant (room_request s n))) [
          | inl granted ↦
              inr (inr (rw (full, len, whole, granted, left, make_room_for) refl, ground arith))
          | inr refused ↦
              inl (rw (full, len, whole, refused, make_room_for) refl, ground arith, refused)
        ]
      ]

  -- `sdsMakeRoomFor`, where `free` is not negative and the bytes in use and those asked for are together
  -- less than 2^31 - 2^20, fails exactly where there is too little room and `realloc` refuses; else the
  -- text is kept, there is room for what was asked, and `free` is again not negative.
  pub make_room_for-room :
      (s : Sds) (n : ℕ)
      → s.free < 2 ^ 31
      → length s.buf + n < 2 ^ 31 - 2 ^ 20
      → ((make_room_for grant s n ≡ none) × (s.free < n) × (grant (room_request s n) ≡ false))
        ⊎ ((r : Sds) × (make_room_for grant s n ≡ some r)
            × (r.buf ≡ s.buf)
            × (n ≤ r.free)
            × (r.free < 2 ^ 31))
  make_room_for-room s n sound small = elim (make_room_for-cases s n (omega arith)) [
    | inl failed ↦ inl failed
    | inr done ↦ elim done [
      | inl (fits, e) ↦ inr (s, e, refl, fits, sound)
      | inr (e, full) ↦
          let room = prealloc (length s.buf + n) - length s.buf in
          let same : int_field room ≡ room = int_field-small room (ground arith) in
          inr (with_room s.buf room, e, refl, rw (same) (ground arith), rw (same) (ground arith))
    ]
  ]

  -- `sdscatlen`, where `free` is not negative and the old text and the new are together less than
  -- 2^31 - 2^20 bytes, fails exactly where there is too little room and `realloc` refuses; else the
  -- string is the old text and the new behind it, and `free` is again not negative.
  pub cat_len-append :
      (s : Sds) (t : Bytes)
      → s.free < 2 ^ 31
      → length s.buf + length t < 2 ^ 31 - 2 ^ 20
      → ((cat_len grant s t ≡ none)
          × (s.free < length t)
          × (grant (room_request s (length t)) ≡ false))
        ⊎ ((r : Sds) × (cat_len grant s t ≡ some r) × (r.buf ≡ s.buf ++ t) × (r.free < 2 ^ 31))
  unfolding cat_len
  cat_len-append s t sound small = elim (make_room_for-room s (length t) sound small) [
    | inl (e, less, refused) ↦ inl (rw (e, cat_len), less, refused)
    | inr (r, e, same, room, sound') ↦
        let left : sub64 r.free (length t) ≡ r.free - length t = omega arith in
        let kept : int_field (sub64 r.free (length t)) ≡ r.free - length t =
          ap int_field left ∙ int_field-small (r.free - length t) (omega arith) in
        inr (
          record { buf = r.buf ++ t; free = int_field (sub64 r.free (length t)) },
          rw (e, cat_len),
          ap (λ b. b ++ t) same,
          rw (kept) (omega arith),
        )
  ]

module _ (grant : ℕ → Bool) where
  make_room_for-fits :
      (b : Bytes) (f n : ℕ)
      → f < 2 ^ 32
      → n ≤ f
      → make_room_for grant (with_room b f) n ≡ some (with_room b f)
  unfolding make_room_for
  make_room_for-fits b f n h le = rw (int_field-reads f n h le, make_room_for) refl

  -- Where the text fits the free room, no memory is asked for.
  pub cat_len-fits :
      (b : Bytes) (f : ℕ) (t : Bytes)
      → f < 2 ^ 32
      → length t ≤ f
      → cat_len grant (with_room b f) t ≡ some (with_room (b ++ t) (f - length t))
  unfolding cat_len
  cat_len-fits b f t h le =
      rw (make_room_for-fits b f (length t) h le, int_field-sub f (length t) h le, cat_len) refl

  -- `sdscatfmt` at a byte that stands for itself.
  pub cat_fmt-char :
      (b : Bytes) (f c next : ℕ) (fmt : Bytes) (args : List FmtArg)
      → c ≢ b'%'
      → f < 2 ^ 32
      → 1 ≤ f
      → cat_fmt grant (with_room b f) (c ∷ next ∷ fmt) args
        ≡ cat_fmt grant (with_room (b ++ (c ∷ [])) (f - 1)) (next ∷ fmt) args
  unfolding cat_fmt write_text
  cat_fmt-char b f c next fmt [] ne h le =
      rw
        (
          make_room_for-fits b f 1 h le,
          ==_of_ne c b'%' ne,
          cat_len-fits b f (c ∷ []) h le,
          cat_fmt,
          write_text,
        )
        refl
  cat_fmt-char b f c next fmt (a ∷ args) ne h le =
      rw
        (
          make_room_for-fits b f 1 h le,
          ==_of_ne c b'%' ne,
          cat_len-fits b f (c ∷ []) h le,
          cat_fmt,
          write_text,
        )
        refl

  pub cat_fmt-last :
      (b : Bytes) (f c : ℕ) (args : List FmtArg)
      → c ≢ b'%'
      → f < 2 ^ 32
      → 1 ≤ f
      → cat_fmt grant (with_room b f) (c ∷ []) args ≡ some (with_room (b ++ (c ∷ [])) (f - 1))
  unfolding cat_fmt write_text
  cat_fmt-last b f c args ne h le =
      rw
        (
          make_room_for-fits b f 1 h le,
          ==_of_ne c b'%' ne,
          cat_len-fits b f (c ∷ []) h le,
          cat_fmt,
          write_text,
        )
        refl

  -- `sdscatfmt` at a conversion of a number.
  pub cat_fmt-number :
      (b : Bytes) (f next : ℕ) (fmt : Bytes) (a : FmtArg) (args : List FmtArg) (t : Bytes)
      → is_conversion next ≡ true
      → f < 2 ^ 32
      → 1 ≤ f
      → conversion grant (with_room b f) next a ≡ cat_len grant (with_room b f) t
      → length t ≤ f
      → cat_fmt grant (with_room b f) (b'%' ∷ next ∷ fmt) (a ∷ args)
        ≡ cat_fmt grant (with_room (b ++ t) (f - length t)) fmt args
  unfolding cat_fmt
  cat_fmt-number b f next fmt a args t conv h le e fits =
      rw (make_room_for-fits b f 1 h le, conv, e, cat_len-fits b f t h fits, cat_fmt) refl
