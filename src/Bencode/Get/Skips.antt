-- ===== src/Bencode/Get/Skips.antt =====
-- Skipping the text of a value.
use charo_torrent.Prelude.{
  ℕ, suc, ◌+◌, ◌^◌, ◌<◌, ◌≡◌, refl, sym, ap, ◌∙◌, Bool, true, false, [], ◌∷◌, ◌++◌, some, ◌==◌,
  length, drop, All, Outcome, ok, arith, length-append, drop-append,
}
use mathlib.Core.List.{append_assoc}
use charo_torrent.Prelude.Bytes.{Bytes}
use charo_torrent.Bencode.Number.{ℤ, pos, is_digit, format_uint, format_int, parse_int}
use charo_torrent.Bencode.Number.RoundTrip.{
  AreDigits, length-format_uint, format_uint-AreDigits, parse_int-format_uint, read_until-append,
  digits_before,
}
use charo_torrent.Bencode.Value.{Values, Entries, int, list, dict}
use charo_torrent.Bencode.Encode.{encode_string, encode, encode_values, encode_entries}
use charo_torrent.Bencode.RoundTrip.Strings.{minus_before}
use charo_torrent.Bencode.Get.{
  Consumer, GetError, read_byte, consume_until, next, read_ben_elem, skip_elems,
}

abbrev pub consumer : Bytes → ℕ → Consumer
consumer bs n = record { buf = bs; off = n }

abbrev pub skipped : Bytes → ℕ → Outcome GetError (Bool × Consumer)
skipped rest n = ok (true, consumer rest n)

consume_until-append :
    (d : ℕ) (s rest : Bytes) (n : ℕ)
    → All (λ c. (c == d) ≡ false) s
    → consume_until d (consumer (s ++ (d ∷ rest)) n) ≡ (some s, consumer rest (n + (length s + 1)))
unfolding consume_until
consume_until-append d s rest n h = rw (consume_until, read_until-append d s rest h) refl

pub skip-int :
    (f n : ℕ) (z : ℤ) (rest : Bytes)
    → read_ben_elem (suc f) (consumer (encode (int z) ++ rest) n)
      ≡ skipped rest (n + length (encode (int z)))
unfolding read_ben_elem encode read_byte
skip-int f n z rest =
    rw
      (
        append_assoc (format_int z) (b'e' ∷ []) rest,
        consume_until-append b'e' (format_int z) rest (n + 1) (minus_before z),
      )
      (ap (skipped rest) (rw (length-append (format_int z) (b'e' ∷ [])) (omega arith)))

-- The length of a string is a digit and more digits.
format_uint-digit :
    (n : ℕ) → (c : ℕ) × (s : Bytes) × (format_uint n ≡ c ∷ s) × (is_digit c ≡ true) × AreDigits s
format_uint-digit n = given (format_uint n) (length-format_uint n) (format_uint-AreDigits n)
  where
    given :
        (s : Bytes)
        → 0 < length s
        → AreDigits s
        → (c : ℕ) × (t : Bytes) × (s ≡ c ∷ t) × (is_digit c ≡ true) × AreDigits t
    given [] h d = absurd (omega arith)
    given (c ∷ s) h d = (c, s, refl, d.0, d.1)

drop_all : (s rest : Bytes) → drop (length s) (s ++ rest) ≡ rest
drop_all s rest = drop-append (length s) s rest refl

read_ben_elem-digit :
    (f n c : ℕ) (ds rest : Bytes) (len : ℕ)
    → is_digit c ≡ true
    → AreDigits ds
    → parse_int (c ∷ ds) ≡ ok (pos len)
    → read_ben_elem (suc f) (consumer (c ∷ (ds ++ (b':' ∷ rest))) n)
      ≡ ok (true, next len (consumer rest (n + 1 + (length ds + 1))))
unfolding read_ben_elem read_byte
read_ben_elem-digit f n c ds rest len d ds_digits e =
    let end : (c == b'e') ≡ false = ground arith in
    let l : (c == b'l') ≡ false = ground arith in
    let dict_mark : (c == b'd') ≡ false = ground arith in
    let i : (c == b'i') ≡ false = ground arith in
    rw
      (
        end,
        l,
        dict_mark,
        i,
        d,
        consume_until-append b':' ds rest (n + 1) (digits_before b':' ds refl ds_digits),
        e,
      )
      refl

next-append :
    (s rest : Bytes) (n m : ℕ)
    → n + length s ≡ m
    → ok (true, next (length s) (consumer (s ++ rest) n)) ≡ skipped rest m
unfolding next
next-append s rest n m e = rw (drop-append (length s) s rest refl, e) refl

length-digits :
    (n c : ℕ) (ds s : Bytes)
    → n + 1 + (length ds + 1) + length s ≡ n + length ((c ∷ ds) ++ (b':' ∷ s))
length-digits n c ds s = rw (length-append (c ∷ ds) (b':' ∷ s)) (omega arith)

pub skip-string :
    (f n : ℕ) (s rest : Bytes)
    → length s < 2 ^ 63
    → read_ben_elem (suc f) (consumer (encode_string s ++ rest) n)
      ≡ skipped rest (n + length (encode_string s))
unfolding encode_string
skip-string f n s rest small =
    let (c, ds, e, d, h) = format_uint-digit (length s) in
    let num : parse_int (c ∷ ds) ≡ ok (pos (length s)) =
      ap parse_int (sym e) ∙ parse_int-format_uint (length s) small in
    rw (append_assoc (format_uint (length s)) (b':' ∷ s) rest, e)
      (read_ben_elem-digit f n c ds (s ++ rest) (length s) d h num
        ∙ next-append s rest (n + 1 + (length ds + 1)) _ (length-digits n c ds s))

pub skip-list :
    (f n : ℕ) (vs : Values) (rest : Bytes)
    → skip_elems f (consumer (encode_values vs ++ (b'e' ∷ rest)) (n + 1))
      ≡ ok (consumer rest (n + 1 + (length (encode_values vs) + 1)))
    → read_ben_elem (suc f) (consumer (encode (list vs) ++ rest) n)
      ≡ skipped rest (n + length (encode (list vs)))
unfolding read_ben_elem encode read_byte
skip-list f n vs rest e =
    rw (append_assoc (encode_values vs) (b'e' ∷ []) rest, e)
      (ap (skipped rest) (rw (length-append (encode_values vs) (b'e' ∷ [])) (omega arith)))

pub skip-dict :
    (f n : ℕ) (es : Entries) (rest : Bytes)
    → skip_elems f (consumer (encode_entries es ++ (b'e' ∷ rest)) (n + 1))
      ≡ ok (consumer rest (n + 1 + (length (encode_entries es) + 1)))
    → read_ben_elem (suc f) (consumer (encode (dict es) ++ rest) n)
      ≡ skipped rest (n + length (encode (dict es)))
unfolding read_ben_elem encode read_byte
skip-dict f n es rest e =
    rw (append_assoc (encode_entries es) (b'e' ∷ []) rest, e)
      (ap (skipped rest) (rw (length-append (encode_entries es) (b'e' ∷ [])) (omega arith)))

pub skip-end :
    (f n : ℕ) (rest : Bytes)
    → skip_elems (suc (suc f)) (consumer (b'e' ∷ rest) n) ≡ ok (consumer rest (n + 1))
unfolding read_ben_elem read_byte
skip-end f n rest = refl

-- One element of many is skipped before the others.
pub skip-step :
    (f n len : ℕ) (bs rest : Bytes) (r : Outcome GetError Consumer)
    → read_ben_elem f (consumer bs n) ≡ skipped rest (n + len)
    → skip_elems f (consumer rest (n + len)) ≡ r
    → skip_elems (suc f) (consumer bs n) ≡ r
unfolding read_ben_elem
skip-step f n len bs rest r e more = rw e more
