-- ===== src/Format/Tests.antt =====
-- "GET k" in the protocol.
use hiredis_vip.Base.{
  ℕ, [], ◌∷◌, List, Bytes, length, ◌<◌, ◌^◌, Bool, true, false, ◌≡◌, refl, ◌⊎◌, arith,
}
use hiredis_vip.Format.{
  formatted, minus_one, format_sds_command_argv, total_len, items_len, construct, append_items,
}
use hiredis_vip.Decimal.{sdsull2str, sdsll2str, write_digits, reverse_loop, bulklen, count_digits}
use hiredis_vip.Sds.{empty, new_len, cat_fmt, conversion, write_text, is_conversion}
use hiredis_vip.Base.Int.{pos}
use hiredis_vip.Format.Encode.{encode, encode_item, encode_items, digits_of, format-encode}

abbrev get_k : List Bytes
get_k = (b'G' ∷ b'E' ∷ b'T' ∷ []) ∷ (b'k' ∷ []) ∷ []

abbrev always : ℕ → Bool
always n = true

-- "*2\r\n$3\r\nGET\r\n$1\r\nk\r\n"
abbrev get_k_text : Bytes
get_k_text =
    b'*' ∷ b'2' ∷ 13 ∷ 10 ∷ b'$' ∷ b'3' ∷ 13 ∷ 10 ∷ b'G' ∷ b'E' ∷ b'T' ∷ 13 ∷ 10 ∷ b'$' ∷ b'1' ∷ 13
    ∷ 10 ∷ b'k' ∷ 13 ∷ 10 ∷ []

encode-get_k : encode get_k ≡ get_k_text
unfolding encode encode_item encode_items digits_of sdsull2str write_digits reverse_loop
encode-get_k = refl

format-get_k : format_sds_command_argv always get_k ≡ formatted (pos 20) get_k_text
unfolding format_sds_command_argv total_len items_len bulklen count_digits empty new_len construct
    append_items cat_fmt conversion write_text is_conversion sdsll2str sdsull2str write_digits
    reverse_loop
format-get_k = refl

short : length (encode get_k) < 2 ^ 31
short = rw encode-get_k (omega arith)

format-encode_example :
    ((format_sds_command_argv always get_k ≡ minus_one) × ((n : ℕ) × (always n ≡ false)))
    ⊎ (format_sds_command_argv always get_k
        ≡ formatted (pos (length (encode get_k))) (encode get_k))
format-encode_example = format-encode always get_k (omega arith) (omega arith) short
