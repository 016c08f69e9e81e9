-- ===== src/Bencode/Decode.antt =====
-- bencode/decode.go, except for structs, pointers and maps of maps. A benReader is the bytes that
-- are left. Decoding fills a Go value of a known type, which may hold something already: lists
-- are appended to it. What a call leaves of the bytes is not a structural part of them, so each
-- call costs a unit of fuel.
use charo_torrent.Prelude.{
  ℕ, zero, suc, ◌+◌, ◌*◌, Bool, true, false, not, ◌||◌, [], ◌∷◌, ◌++◌, Option, none, some, ◌==◌,
  if◌then◌else◌, length, take, drop, Outcome, ok, err, panic, ◌>>=◌,
}
use charo_torrent.Prelude.Bytes.{Bytes}
use charo_torrent.Bencode.Number.{
  ℤ, pos, negsuc, is_digit, NumError, parse_int, parse_uint, read_until,
}
use charo_torrent.Bencode.Value.{
  Value, Values, Entries, int, uint, bool, str, nil_list, nil_dict, list, dict, no_values,
  no_entries, set_entry, append_value,
}

-- `any_type` is interface{}, `map_slices t` is map[string][]T.
pub data Ty : Type 0 where
  int_type uint_type bool_type string_type any_type map_any : Ty
  slice_type map_slices : Ty → Ty

pub data Elem : Type 0 where
  integer_elem list_elem dict_elem string_elem : Elem

-- `out_of_fuel` has no counterpart in the program.
pub data BencError : Type 0 where
  eof unknown_value incompatible bad_number bad_bool short_string out_of_fuel : BencError
  large_buffer : ℕ → BencError

-- benElemBasedOnFirstByte
unfoldable pub elem_of_byte : ℕ → Option Elem
elem_of_byte b =
    if b == b'i'
    then some integer_elem
    else if b == b'l'
    then some list_elem
    else if b == b'd'
    then some dict_elem
    else if is_digit b
    then some string_elem
    else none

abbrev pub starts : Elem → ℕ → Bool
starts integer_elem b = b == b'i'
starts list_elem b = b == b'l'
starts dict_elem b = b == b'd'
starts string_elem b = is_digit b

abbrev pub mismatch : Option Elem → BencError
mismatch none = unknown_value
mismatch (some e) = incompatible

unfoldable pub assert_ben_elem : Elem → Bytes → Outcome BencError Bytes
unfolding elem_of_byte
assert_ben_elem what [] = err eof
assert_ben_elem what (b ∷ bs) = if starts what b then ok bs else err (mismatch (elem_of_byte b))

-- r.b.ReadString(d), without the delimiter
unfoldable pub read_string : ℕ → Bytes → Outcome BencError (Bytes × Bytes)
read_string d bs = elim (read_until d bs) [ none ↦ err eof | some r ↦ ok r ]

unfoldable pub number_of : Outcome NumError ℤ → Outcome BencError ℤ
number_of (ok z) = ok z
number_of (err e) = err bad_number
number_of panic = panic

abbrev pub next_bytes : ℤ → Bytes → Outcome BencError (Bytes × Bytes)
next_bytes (pos n) rest =
    if length (take n rest) == n then ok (take n rest, drop n rest) else err short_string
next_bytes (negsuc n) rest = panic

unfoldable pub read_ben_string : Bytes → Outcome BencError (Bytes × Bytes)
unfolding assert_ben_elem read_string number_of
read_ben_string bs = do
  _ ← assert_ben_elem string_elem bs
  (txt, rest) ← read_string b':' bs
  n ← number_of (parse_int txt)
  next_bytes n rest

unfoldable pub read_ben_int : Bytes → Outcome BencError (ℤ × Bytes)
unfolding assert_ben_elem read_string number_of
read_ben_int bs = do
  r ← assert_ben_elem integer_elem bs
  (txt, rest) ← read_string b'e' r
  z ← number_of (parse_int txt)
  ok (z, rest)

unfoldable pub read_ben_uint : Bytes → Outcome BencError (ℤ × Bytes)
unfolding assert_ben_elem read_string number_of
read_ben_uint bs = do
  r ← assert_ben_elem integer_elem bs
  (txt, rest) ← read_string b'e' r
  z ← number_of (parse_uint txt)
  ok (z, rest)

-- strconv.ParseBool on a text of one byte
abbrev pub bool_of_byte : ℕ → Outcome BencError Bool
bool_of_byte b =
    if b == b'1' || (b == b't' || b == b'T')
    then ok true
    else if b == b'0' || (b == b'f' || b == b'F')
    then ok false
    else err bad_bool

-- The text that is tested and read still has the delimiter at its end.
abbrev pub bool_of_text : Bytes → Outcome BencError Bool
bool_of_text [] = panic
bool_of_text (b ∷ txt) = if not (length (b ∷ txt) == 1) then err bad_bool else bool_of_byte b

unfoldable pub read_ben_bool : Bytes → Outcome BencError (Bool × Bytes)
unfolding assert_ben_elem read_string
read_ben_bool bs = do
  r ← assert_ben_elem integer_elem bs
  (txt, rest) ← read_string b'e' r
  b ← bool_of_text (txt ++ (b'e' ∷ []))
  ok (b, rest)

abbrev pub values_in : Value → Values
values_in (list vs) = vs
values_in _ = no_values

-- checkEnd, with the bytes behind the end mark, or none where the next element begins.
unfoldable pub check_end : Bytes → Outcome BencError (Option Bytes)
check_end [] = err eof
check_end (b ∷ bs) = if b == b'e' then ok (some bs) else ok none

-- handleNilInterface: the type that the first byte of an element asks for.
unfoldable pub type_of_byte : ℕ → Option Ty
type_of_byte b =
    if b == b'i'
    then some int_type
    else if is_digit b
    then some string_type
    else if b == b'l'
    then some (slice_type any_type)
    else if b == b'd'
    then some map_any
    else none

abbrev pub first_type : Bytes → Outcome BencError Ty
first_type [] = err eof
first_type (b ∷ bs) = elim (type_of_byte b) [ none ↦ err unknown_value | some t ↦ ok t ]

-- Empty maps and slices that the decoder makes for an interface are not nil.
abbrev pub made : Ty → Value
made (slice_type t) = list no_values
made map_any = dict no_entries
made _ = nil_list

abbrev pub filled : Value → Entries → Value
filled nil_dict no_entries = nil_dict
filled _ es = dict es

abbrev pub entries_in : Value → Entries
entries_in (dict es) = es
entries_in _ = no_entries

abbrev pub filled_list : Value → Values → Value
filled_list nil_list no_values = nil_list
filled_list _ vs = list vs

-- Nothing reads the zero value of another type.
abbrev pub zero_value : Ty → Value
zero_value map_any = nil_dict
zero_value (map_slices t) = nil_dict
zero_value _ = nil_list

abbrev pub unsigned_value : ℤ → Value
unsigned_value (pos n) = uint n
unsigned_value (negsuc n) = uint 0

-- `cur` is what the value holds before. A map's element value is made once for all its keys:
-- what one key leaves in it is there when the next is decoded.
unfoldable mutual
  unfolding read_ben_int read_ben_uint read_ben_bool read_ben_string check_end type_of_byte

  pub decode : ℕ → Ty → Value → Bytes → Outcome BencError (Value × Bytes)
  decode zero t cur bs = err out_of_fuel
  decode (suc f) int_type cur bs = do (z, rest) ← read_ben_int bs; ok (int z, rest)
  decode (suc f) uint_type cur bs = do (z, rest) ← read_ben_uint bs; ok (unsigned_value z, rest)
  decode (suc f) bool_type cur bs = do (b, rest) ← read_ben_bool bs; ok (bool b, rest)
  decode (suc f) string_type cur bs = do (s, rest) ← read_ben_string bs; ok (str s, rest)
  decode (suc f) any_type cur bs = do t ← first_type bs; decode f t (made t) bs
  decode (suc f) (slice_type t) cur bs = do
    r ← assert_ben_elem list_elem bs
    (vs, rest) ← decode_list f t (values_in cur) r
    ok (filled_list cur vs, rest)
  decode (suc f) map_any cur bs = do
    r ← assert_ben_elem dict_elem bs
    (es, rest) ← decode_dict f any_type nil_list (entries_in cur) r
    ok (filled cur es, rest)
  decode (suc f) (map_slices t) cur bs = do
    r ← assert_ben_elem dict_elem bs
    (es, rest) ← decode_dict f (slice_type t) nil_list (entries_in cur) r
    ok (filled cur es, rest)

  pub decode_list : ℕ → Ty → Values → Bytes → Outcome BencError (Values × Bytes)
  decode_list zero t acc bs = err out_of_fuel
  decode_list (suc f) t acc bs = do
    end ← check_end bs
    elim end [
      | some rest ↦ ok (acc, rest)
      | none ↦ do (v, r) ← decode f t (zero_value t) bs; decode_list f t (append_value acc v) r
    ]

  pub decode_dict : ℕ → Ty → Value → Entries → Bytes → Outcome BencError (Entries × Bytes)
  decode_dict zero t cur acc bs = err out_of_fuel
  decode_dict (suc f) t cur acc bs = do
    end ← check_end bs
    elim end [
      | some rest ↦ ok (acc, rest)
      | none ↦ do
        (k, r) ← read_ben_string bs
        (v, r') ← decode f t cur r
        decode_dict f t v (set_entry k v acc) r'
    ]

-- Decode into a variable of type `t`; the bytes left over make an error.
unfoldable pub decode_all : Ty → Bytes → Outcome BencError Value
unfolding decode
decode_all t bs = do
  (v, rest) ← decode (3 * length bs + 3) t (zero_value t) bs
  if length rest == 0 then ok v else err (large_buffer (length rest))
