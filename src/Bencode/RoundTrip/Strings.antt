-- ===== src/Bencode/RoundTrip/Strings.antt =====
-- Reading back a string and an integer.
use charo_torrent.Prelude.{
  ℕ, suc, ◌^◌, ◌<◌, ◌≡◌, refl, ◌∙◌, true, false, [], ◌∷◌, ◌++◌, none, some, ◌==◌, length, All, ok,
  arith, take-append, drop-append, ==→eq, ==_refl,
}
use mathlib.Core.List.{append_assoc}
use charo_torrent.Prelude.Bytes.{Bytes}
use charo_torrent.Bencode.Number.{
  ℤ, pos, negsuc, is_digit, format_uint, format_int, IsInt64, parse_int,
}
use charo_torrent.Bencode.Number.RoundTrip.{
  AreDigits, length-format_uint, format_uint-AreDigits, parse_int-format_uint, parse_int-format_int,
  read_until-append, digits_before,
}
use charo_torrent.Bencode.Encode.{encode_string}
use charo_torrent.Bencode.Decode.{
  string_elem, assert_ben_elem, read_string, number_of, read_ben_int, read_ben_string, next_bytes,
  check_end, first_type, type_of_byte, string_type,
}

-- The first byte of digits is one.
first_digit :
    (s x : Bytes)
    → 0 < length s
    → AreDigits s
    → (c : ℕ) × (t : Bytes) × (s ++ x ≡ c ∷ t) × (is_digit c ≡ true)
first_digit [] x h d = absurd (omega arith)
first_digit (c ∷ s) x h d = (c, s ++ x, refl, d.0)

encode_string-append :
    (s rest : Bytes) → encode_string s ++ rest ≡ format_uint (length s) ++ (b':' ∷ (s ++ rest))
unfolding encode_string
encode_string-append s rest = append_assoc (format_uint (length s)) (b':' ∷ s) rest

-- The first byte of an encoded string.
pub encode_string_first :
    (s rest : Bytes)
    → (c : ℕ) × (t : Bytes) × (encode_string s ++ rest ≡ c ∷ t) × (is_digit c ≡ true)
encode_string_first s rest =
    let (c, t, e, d) =
      first_digit (format_uint (length s)) (b':' ∷ (s ++ rest)) (length-format_uint (length s))
        (format_uint-AreDigits (length s)) in
    (c, t, encode_string-append s rest ∙ e, d)

assert_ben_elem-digit :
    (c : ℕ) (t : Bytes) → is_digit c ≡ true → assert_ben_elem string_elem (c ∷ t) ≡ ok t
unfolding assert_ben_elem
assert_ben_elem-digit c t d = rw d refl

read_string-append :
    (d : ℕ) (s rest : Bytes)
    → All (λ c. (c == d) ≡ false) s
    → read_string d (s ++ (d ∷ rest)) ≡ ok (s, rest)
unfolding read_string
read_string-append d s rest h = rw (read_string, read_until-append d s rest h) refl

number_of-ok : (s : Bytes) (z : ℤ) → parse_int s ≡ ok z → number_of (parse_int s) ≡ ok z
unfolding number_of
number_of-ok s z e = rw e refl

next_bytes-append : (s rest : Bytes) → next_bytes (pos (length s)) (s ++ rest) ≡ ok (s, rest)
next_bytes-append s rest =
    rw (take-append (length s) s rest refl, drop-append (length s) s rest refl, ==_refl (length s))
      refl

pub read_ben_string-encode_string :
    (s rest : Bytes) → length s < 2 ^ 63 → read_ben_string (encode_string s ++ rest) ≡ ok (s, rest)
unfolding read_ben_string
read_ben_string-encode_string s rest small =
    let (c, t, e, d) = encode_string_first s rest in
    let first : assert_ben_elem string_elem (encode_string s ++ rest) ≡ ok t =
      rw e (assert_ben_elem-digit c t d) in
    let until : read_string b':' (encode_string s ++ rest)
        ≡ ok (format_uint (length s), s ++ rest) =
      rw (encode_string-append s rest) (
        read_string-append b':' (format_uint (length s)) (s ++ rest)
          (digits_before b':' (format_uint (length s)) refl (format_uint-AreDigits (length s)))) in
    rw
      (
        first,
        until,
        number_of-ok (format_uint (length s)) (pos (length s))
            (parse_int-format_uint (length s) small),
      )
      (next_bytes-append s rest)

pub minus_before : (z : ℤ) → All (λ c. (c == b'e') ≡ false) (format_int z)
unfolding format_int
minus_before (pos n) = digits_before b'e' (format_uint n) refl (format_uint-AreDigits n)
minus_before (negsuc n) =
    (refl, digits_before b'e' (format_uint (suc n)) refl (format_uint-AreDigits (suc n)))

pub read_ben_int-encode :
    (z : ℤ) (rest : Bytes)
    → IsInt64 z
    → read_ben_int (b'i' ∷ ((format_int z ++ (b'e' ∷ [])) ++ rest)) ≡ ok (z, rest)
unfolding read_ben_int assert_ben_elem
read_ben_int-encode z rest small =
    rw
      (
        append_assoc (format_int z) (b'e' ∷ []) rest,
        read_string-append b'e' (format_int z) rest (minus_before z),
        number_of-ok (format_int z) z (parse_int-format_int z small),
      )
      refl

-- Where a string begins, no end mark stands, and an interface takes a string.
pub check_end-encode_string : (s rest : Bytes) → check_end (encode_string s ++ rest) ≡ ok none
unfolding check_end
check_end-encode_string s rest =
    let (c, t, e, d) = encode_string_first s rest in rw e (ground arith)

type_of_byte-digit : (c : ℕ) → is_digit c ≡ true → type_of_byte c ≡ some string_type
unfolding type_of_byte
type_of_byte-digit c d = ground (arith, ==→eq c b'i')

pub first_type-encode_string :
    (s rest : Bytes) → first_type (encode_string s ++ rest) ≡ ok string_type
first_type-encode_string s rest =
    let (c, t, e, d) = encode_string_first s rest in rw (e, first_type, type_of_byte-digit c d) refl
