-- ===== src/Bencode/Termination.antt =====
-- Decoding ends, and without a panic, on every text.
pub mod Readers
use charo_torrent.Prelude.{
  ℕ, zero, suc, ◌+◌, ◌-◌, ◌*◌, ◌/◌, ◌%◌, ◌^◌, ◌<◌, ◌≤◌, ◌≡◌, ◌≢◌, ◌↔◌, ◌⊎◌, inl, inr, refl, sym, ap,
  ◌∙◌, Bool, true, false, not, ◌&&◌, ◌||◌, List, [], ◌∷◌, ◌++◌, map, Option, none, some, ltb, leb,
  ◌==◌, if◌then◌else◌, length, get_elem?, set, take, drop, replicate, All, Outcome, ok, err, panic,
  ◌>>=◌, arith, length-append, length-set, length-replicate, length-take, length-drop, take_all,
  take-append, drop-append, get_elem?-lt, get_elem?-ge, get_elem?-set, All-take, All-append,
  All-imp, length-map, get_elem?-set_self, get_elem?-set_ne, ltb→lt, leb→le, ==→eq, ==_refl,
  Bool-cases, Option-cases,
}
use charo_torrent.Prelude.Bytes.{Bytes}
use charo_torrent.Bencode.Value.{
  Value, Values, Entries, int, bool, str, nil_list, append_value, set_entry,
}
use charo_torrent.Bencode.Decode.{
  Ty, int_type, uint_type, bool_type, string_type, any_type, map_any, slice_type, map_slices,
  list_elem, dict_elem, BencError, eof, unknown_value, out_of_fuel, large_buffer, assert_ben_elem,
  read_ben_string, read_ben_int, read_ben_uint, read_ben_bool, unsigned_value, values_in,
  entries_in, filled, filled_list, zero_value, made, check_end, first_type, type_of_byte, decode,
  decode_list, decode_dict, decode_all,
}
use charo_torrent.Bencode.Termination.Readers.{
  IsReal, Settles, Shrinks, Settles-bind, Settles-if, assert_ben_elem-Settles, read_ben_int-Settles,
  read_ben_uint-Settles, read_ben_bool-Settles, read_ben_string-Settles,
}

-- A type other than interface{}.
abbrev IsConcrete : Ty → Type 0
IsConcrete any_type = ⊥
IsConcrete _ = Unit {0}

abbrev IsConcreteOr : Option Ty → Type 0
IsConcreteOr none = Unit {0}
IsConcreteOr (some t) = IsConcrete t

type_of_byte-IsConcrete : (b : ℕ) → IsConcreteOr (type_of_byte b)
unfolding type_of_byte
type_of_byte-IsConcrete b = ground arith

first_type-Settles : (bs : Bytes) → Settles IsConcrete (first_type bs)
first_type-Settles [] = tt
first_type-Settles (b ∷ bs) = given (type_of_byte b) (type_of_byte-IsConcrete b)
  where
    given :
        (o : Option Ty)
        → IsConcreteOr o
        → Settles IsConcrete
            (elim o as (λ x. Outcome BencError Ty) [ none ↦ err unknown_value | some t ↦ ok t ])
    given none h = tt
    given (some t) h = h

-- What stands behind an end mark is shorter.
abbrev IsBehind : ℕ → Option Bytes → Type 0
IsBehind n none = Unit {0}
IsBehind n (some r) = length r < n

check_end-Settles : (bs : Bytes) → Settles (IsBehind (length bs)) (check_end bs)
unfolding check_end
check_end-Settles [] = tt
check_end-Settles (b ∷ bs) = elim (Bool-cases (b == b'e')) [
  | inl e ↦ rw e (omega arith)
  | inr e ↦ rw e tt
]

-- The fuel that each function needs: three units for each byte, and a few.
abbrev EachSettles : ℕ → Type 0
EachSettles f =
    ((t : Ty) (cur : Value) (bs : Bytes)
      → IsConcrete t
      → 3 * length bs + 1 < f
      → Shrinks bs (decode f t cur bs))
    × ((t : Ty) (cur : Value) (bs : Bytes) → 3 * length bs + 2 < f → Shrinks bs (decode f t cur bs))
    × ((t : Ty) (acc : Values) (bs : Bytes)
        → 3 * length bs + 3 < f
        → Shrinks bs (decode_list f t acc bs))
    × ((t : Ty) (cur : Value) (acc : Entries) (bs : Bytes)
        → 3 * length bs + 3 < f
        → Shrinks bs (decode_dict f t cur acc bs))

Shrinks-ok {ℓ κ} :
    {A : Type ℓ} {B : Type κ} (bs : Bytes) (r : Outcome BencError (A × Bytes)) (g : A → B)
    → Shrinks bs r
    → Shrinks bs (r >>= λ p. ok (g p.0, p.1))
Shrinks-ok bs (ok p) g h = h
Shrinks-ok bs (err e) g h = h
Shrinks-ok bs panic g h = h

concrete-step :
    (f : ℕ) (t : Ty) (cur : Value) (bs : Bytes)
    → EachSettles f
    → IsConcrete t
    → 3 * length bs + 1 < suc f
    → Shrinks bs (decode (suc f) t cur bs)
unfolding decode
concrete-step f int_type cur bs ih c h =
    Shrinks-ok bs (read_ben_int bs) int (read_ben_int-Settles bs)
concrete-step f uint_type cur bs ih c h =
    Shrinks-ok bs (read_ben_uint bs) unsigned_value (read_ben_uint-Settles bs)
concrete-step f bool_type cur bs ih c h =
    Shrinks-ok bs (read_ben_bool bs) bool (read_ben_bool-Settles bs)
concrete-step f string_type cur bs ih c h =
    Shrinks-ok bs (read_ben_string bs) str (read_ben_string-Settles bs)
concrete-step f any_type cur bs ih c h = absurd c
concrete-step f (slice_type t) cur bs ih c h =
    Settles-bind _ (assert_ben_elem list_elem bs) _ (assert_ben_elem-Settles list_elem bs) λ r less.
      Settles-bind _ (decode_list f t (values_in cur) r) _ (ih.2 t (values_in cur) r (omega arith))
        λ p less'. omega arith
concrete-step f map_any cur bs ih c h =
    Settles-bind _ (assert_ben_elem dict_elem bs) _ (assert_ben_elem-Settles dict_elem bs) λ r less.
      Settles-bind _ (decode_dict f any_type nil_list (entries_in cur) r) _
        (ih.3 any_type nil_list (entries_in cur) r (omega arith)) λ p less'. omega arith
concrete-step f (map_slices t) cur bs ih c h =
    Settles-bind _ (assert_ben_elem dict_elem bs) _ (assert_ben_elem-Settles dict_elem bs) λ r less.
      Settles-bind _ (decode_dict f (slice_type t) nil_list (entries_in cur) r) _
        (ih.3 (slice_type t) nil_list (entries_in cur) r (omega arith)) λ p less'. omega arith

decode-step :
    (f : ℕ) (t : Ty) (cur : Value) (bs : Bytes)
    → EachSettles f
    → 3 * length bs + 2 < suc f
    → Shrinks bs (decode (suc f) t cur bs)
unfolding decode
decode-step f any_type cur bs ih h =
    Settles-bind _ (first_type bs) _ (first_type-Settles bs)
      λ t c. ih.0 t (made t) bs c (omega arith)
decode-step f t cur bs ih h = concrete-step f t cur bs ih tt (omega arith)

Settles-end {ℓ} :
    {A : Type ℓ} (bs : Bytes) (end : Option Bytes) (acc : A) (x : Outcome BencError (A × Bytes))
    → IsBehind (length bs) end
    → Shrinks bs x
    → Shrinks bs
        (elim end as (λ e. Outcome BencError (A × Bytes)) [ some rest ↦ ok (acc, rest) | none ↦ x ])
Settles-end bs none acc x less h = h
Settles-end bs (some rest) acc x less h = less

Shrinks-trans {ℓ} :
    {A : Type ℓ} (bs r : Bytes) (x : Outcome BencError (A × Bytes))
    → length r < length bs
    → Shrinks r x
    → Shrinks bs x
Shrinks-trans bs r (ok p) less h = omega arith
Shrinks-trans bs r (err e) less h = h
Shrinks-trans bs r panic less h = h

list-step :
    (f : ℕ) (t : Ty) (acc : Values) (bs : Bytes)
    → EachSettles f
    → 3 * length bs + 3 < suc f
    → Shrinks bs (decode_list (suc f) t acc bs)
unfolding decode
list-step f t acc bs ih h = Settles-bind _ (check_end bs) _ (check_end-Settles bs) λ end less.
    Settles-end bs end acc _ less (
      Settles-bind _ (decode f t (zero_value t) bs) _ (ih.1 t (zero_value t) bs (omega arith))
        λ p shorter.
          Shrinks-trans bs p.1 _ shorter (ih.2 t (append_value acc p.0) p.1 (omega arith)))

dict-step :
    (f : ℕ) (t : Ty) (cur : Value) (acc : Entries) (bs : Bytes)
    → EachSettles f
    → 3 * length bs + 3 < suc f
    → Shrinks bs (decode_dict (suc f) t cur acc bs)
unfolding decode
dict-step f t cur acc bs ih h = Settles-bind _ (check_end bs) _ (check_end-Settles bs) λ end less.
    Settles-end bs end acc _ less (
      Settles-bind _ (read_ben_string bs) _ (read_ben_string-Settles bs) λ k shorter.
        Settles-bind _ (decode f t cur k.1) _ (ih.1 t cur k.1 (omega arith)) λ p less.
          Shrinks-trans bs p.1 _ (omega arith)
            (ih.3 t p.0 (set_entry k.0 p.0 acc) p.1 (omega arith)))

all-Settles : (f : ℕ) → EachSettles f
all-Settles zero = (
  λ t cur bs c h. absurd (omega arith),
  λ t cur bs h. absurd (omega arith),
  λ t acc bs h. absurd (omega arith),
  λ t cur acc bs h. absurd (omega arith),
)
all-Settles (suc f) =
    let ih = all-Settles f in
    (
      λ t cur bs c h. concrete-step f t cur bs ih c h,
      λ t cur bs h. decode-step f t cur bs ih h,
      λ t acc bs h. list-step f t acc bs ih h,
      λ t cur acc bs h. dict-step f t cur acc bs ih h,
    )

-- Decoding any bytes into a variable of any of the types of the model ends in a value or in one
-- of the program's errors: the fuel never runs out, and nothing panics.
pub decode_all-Settles : (t : Ty) (bs : Bytes) → Settles (λ v. Unit {0}) (decode_all t bs)
unfolding decode_all
decode_all-Settles t bs =
    Settles-bind _ (decode (3 * length bs + 3) t (zero_value t) bs) _
      ((all-Settles (3 * length bs + 3)).1 t (zero_value t) bs (omega arith))
      λ p less.
        Settles-if (λ v. Unit {0}) (length p.1 == 0) p.0 (large_buffer (length p.1)) (λ e. tt) tt
