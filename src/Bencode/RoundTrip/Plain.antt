-- ===== src/Bencode/RoundTrip/Plain.antt =====
-- The values that an interface{} is decoded to come back from their text.
use charo_torrent.Prelude.{
  ℕ, suc, ◌^◌, ◌<◌, ◌≡◌, refl, [], ◌∷◌, ◌++◌, none, length, Outcome, ok, arith, length-append,
}
use mathlib.Core.List.{append_assoc}
use charo_torrent.Prelude.Bytes.{Bytes}
use charo_torrent.Bencode.Number.{ℤ, format_uint, format_int, IsInt64}
use charo_torrent.Bencode.Number.RoundTrip.{length-format_uint}
use charo_torrent.Bencode.Value.{
  Value, Values, Entries, int, uint, bool, str, nil_list, nil_dict, list, dict, no_values,
  no_entries, set_entry, append_value,
}
use charo_torrent.Bencode.Encode.{encode_string, encode, encode_values, encode_entries}
use charo_torrent.Bencode.Decode.{
  any_type, BencError, assert_ben_elem, check_end, type_of_byte, decode, decode_list, decode_dict,
}
use charo_torrent.Bencode.RoundTrip.Strings.{
  read_ben_string-encode_string, read_ben_int-encode, check_end-encode_string,
  first_type-encode_string,
}
use charo_torrent.Bencode.RoundTrip.Collect.{IsPlain}

pub any-int :
    (f : ℕ) (cur : Value) (z : ℤ) (rest : Bytes)
    → IsInt64 z
    → decode (suc (suc f)) any_type cur (encode (int z) ++ rest) ≡ ok (int z, rest)
unfolding decode encode type_of_byte
any-int f cur z rest small = rw (read_ben_int-encode z rest small) refl

pub any-str :
    (f : ℕ) (cur : Value) (s rest : Bytes)
    → length s < 2 ^ 63
    → decode (suc (suc f)) any_type cur (encode (str s) ++ rest) ≡ ok (str s, rest)
unfolding decode encode
any-str f cur s rest small =
    rw (first_type-encode_string s rest, read_ben_string-encode_string s rest small) refl

pub any-list :
    (f : ℕ) (cur : Value) (vs ws : Values) (rest : Bytes)
    → decode_list f any_type no_values (encode_values vs ++ (b'e' ∷ rest)) ≡ ok (ws, rest)
    → decode (suc (suc f)) any_type cur (encode (list vs) ++ rest) ≡ ok (list ws, rest)
unfolding decode encode type_of_byte assert_ben_elem
any-list f cur vs ws rest e = rw (append_assoc (encode_values vs) (b'e' ∷ []) rest, e) refl

pub any-dict :
    (f : ℕ) (cur : Value) (es fs : Entries) (rest : Bytes)
    → decode_dict f any_type nil_list no_entries (encode_entries es ++ (b'e' ∷ rest))
      ≡ ok (fs, rest)
    → decode (suc (suc f)) any_type cur (encode (dict es) ++ rest) ≡ ok (dict fs, rest)
unfolding decode encode type_of_byte assert_ben_elem
any-dict f cur es fs rest e = rw (append_assoc (encode_entries es) (b'e' ∷ []) rest, e) refl

pub list-end :
    (f : ℕ) (acc : Values) (rest : Bytes)
    → decode_list (suc f) any_type acc (b'e' ∷ rest) ≡ ok (acc, rest)
unfolding decode check_end
list-end f acc rest = refl

pub dict-end :
    (f : ℕ) (cur : Value) (acc : Entries) (rest : Bytes)
    → decode_dict (suc f) any_type cur acc (b'e' ∷ rest) ≡ ok (acc, rest)
unfolding decode check_end
dict-end f cur acc rest = refl

-- No text of a value begins with the end mark.
pub check_end-encode :
    (v : Value) (rest : Bytes) → IsPlain v → check_end (encode v ++ rest) ≡ ok none
unfolding encode check_end
check_end-encode (int z) rest p = refl
check_end-encode (uint n) rest p = refl
check_end-encode (bool b) rest p = absurd p
check_end-encode (str s) rest p = check_end-encode_string s rest
check_end-encode nil_list rest p = refl
check_end-encode nil_dict rest p = refl
check_end-encode (list vs) rest p = refl
check_end-encode (dict es) rest p = refl

pub length-encode_string : (s : Bytes) → 1 < length (encode_string s)
unfolding encode_string
length-encode_string s =
    rw (length-append (format_uint (length s)) (b':' ∷ s))
      (omega (arith, length-format_uint (length s)))

pub length-encode : (v : Value) → IsPlain v → 1 < length (encode v)
unfolding encode
length-encode (int z) p = rw (length-append (format_int z) (b'e' ∷ [])) (omega arith)
length-encode (uint n) p = absurd p
length-encode (bool b) p = absurd p
length-encode (str s) p = length-encode_string s
length-encode nil_list p = absurd p
length-encode nil_dict p = absurd p
length-encode (list vs) p = rw (length-append (encode_values vs) (b'e' ∷ [])) (omega arith)
length-encode (dict es) p = rw (length-append (encode_entries es) (b'e' ∷ [])) (omega arith)

pub list-step :
    (f : ℕ) (acc : Values) (v : Value) (rest : Bytes) (r : Outcome BencError (Values × Bytes))
    → IsPlain v
    → decode f any_type nil_list (encode v ++ rest) ≡ ok (v, rest)
    → decode_list f any_type (append_value acc v) rest ≡ r
    → decode_list (suc f) any_type acc (encode v ++ rest) ≡ r
unfolding decode
list-step f acc v rest r p e more = rw (check_end-encode v rest p, e) more

pub dict-step :
    (f : ℕ) (cur : Value) (acc : Entries) (k : Bytes) (v : Value) (rest : Bytes)
    (r : Outcome BencError (Entries × Bytes))
    → length k < 2 ^ 63
    → decode f any_type cur (encode v ++ rest) ≡ ok (v, rest)
    → decode_dict f any_type v (set_entry k v acc) rest ≡ r
    → decode_dict (suc f) any_type cur acc (encode_string k ++ (encode v ++ rest)) ≡ r
unfolding decode
dict-step f cur acc k v rest r small e more =
    rw
      (
        check_end-encode_string k (encode v ++ rest),
        read_ben_string-encode_string k (encode v ++ rest) small,
        e,
      )
      more
