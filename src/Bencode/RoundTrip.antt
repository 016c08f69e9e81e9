-- ===== src/Bencode/RoundTrip.antt =====
-- What was encoded decodes to the value that it was.
pub mod Strings
pub mod Collect
pub mod Plain
use charo_torrent.Prelude.{
  ℕ, zero, suc, ◌+◌, ◌-◌, ◌*◌, ◌/◌, ◌%◌, ◌^◌, ◌<◌, ◌≤◌, ◌≡◌, ◌≢◌, ◌↔◌, ◌⊎◌, inl, inr, refl, sym, ap,
  ◌∙◌, Bool, true, false, not, ◌&&◌, ◌||◌, List, [], ◌∷◌, ◌++◌, map, Option, none, some, ltb, leb,
  ◌==◌, if◌then◌else◌, length, get_elem?, set, take, drop, replicate, All, Outcome, ok, err, panic,
  ◌>>=◌, arith, length-append, length-set, length-replicate, length-take, length-drop, take_all,
  take-append, drop-append, get_elem?-lt, get_elem?-ge, get_elem?-set, All-take, All-append,
  All-imp, length-map, get_elem?-set_self, get_elem?-set_ne, ltb→lt, leb→le, ==→eq, ==_refl,
  Bool-cases, Option-cases,
}
use mathlib.Core.List.{append-nil, append_assoc}
use charo_torrent.Prelude.Bytes.{Bytes}
use charo_torrent.Bencode.Number.{format_int}
use charo_torrent.Bencode.Value.{
  Value, Values, Entries, int, uint, bool, str, nil_list, nil_dict, list, dict, no_values, value,
  no_entries, entry, append_value, set_entry,
}
use charo_torrent.Bencode.Encode.{encode_string, encode, encode_values, encode_entries}
use charo_torrent.Bencode.Decode.{any_type, BencError, decode, decode_list, decode_dict, decode_all}
use charo_torrent.Bencode.RoundTrip.Collect.{
  IsPlain, ArePlain, IsPlainMap, append_values, append_values-append_value, append_values-nil,
  append_entries, append_entries-nil, append_entries_assoc, AreBelowAll, AreBelowAll-nil,
  set_entry-AreBelow, AreBelowAll-append,
}
use charo_torrent.Bencode.RoundTrip.Plain.{
  any-int, any-str, any-list, any-dict, list-end, dict-end, length-encode_string, length-encode,
  list-step, dict-step,
}

-- With fuel above three times the length, the decoder reads a value off the front of any text.
abbrev ReadsValue : Value → Type 0
ReadsValue v =
    IsPlain v
    → (cur : Value) (rest : Bytes) (f : ℕ) → 3 * length (encode v) < f
    → decode f any_type cur (encode v ++ rest) ≡ ok (v, rest)

abbrev ReadsValues : Values → Type 0
ReadsValues vs =
    ArePlain vs
    → (acc : Values) (rest : Bytes) (f : ℕ) → 3 * length (encode_values vs) + 1 < f
    → decode_list f any_type acc (encode_values vs ++ (b'e' ∷ rest))
      ≡ ok (append_values acc vs, rest)

abbrev ReadsEntries : Entries → Type 0
ReadsEntries es =
    IsPlainMap es
    → (cur : Value) (acc : Entries) (rest : Bytes) (f : ℕ) → AreBelowAll acc es
    → 3 * length (encode_entries es) + 1 < f
    → decode_dict f any_type cur acc (encode_entries es ++ (b'e' ∷ rest))
      ≡ ok (append_entries acc es, rest)

-- Where the fuel is above a bound, the call itself takes one unit, and two units are there if the
-- bound is not zero.
pub spend :
    {bound : ℕ} (Q : ℕ → Type 0) (step : (left : ℕ) → bound < suc left → Q (suc left)) (fuel : ℕ)
    (enough : bound < fuel)
    → Q fuel
spend Q step (suc left) enough = step left enough
spend Q step zero enough = absurd (omega arith)

spend_two :
    {bound : ℕ} (Q : ℕ → Type 0) (some_bound : 0 < bound)
    (step : (left : ℕ) → bound < suc (suc left) → Q (suc (suc left))) (fuel : ℕ)
    (enough : bound < fuel)
    → Q fuel
spend_two Q some_bound step (suc (suc left)) enough = step left enough
spend_two Q some_bound step (suc zero) enough = absurd (omega arith)
spend_two Q some_bound step zero enough = absurd (omega arith)

pub length-encode_values :
    (v : Value) (vs : Values)
    → length (encode_values (value v vs)) ≡ length (encode v) + length (encode_values vs)
unfolding encode
length-encode_values v vs = length-append (encode v) (encode_values vs)

pub length-encode_entries :
    (k : Bytes) (v : Value) (es : Entries)
    → length (encode_entries (entry k v es))
      ≡ length (encode_string k) + (length (encode v) + length (encode_entries es))
unfolding encode
length-encode_entries k v es =
    length-append (encode_string k) (encode v ++ encode_entries es)
    ∙ ap (λ n. length (encode_string k) + n) (length-append (encode v) (encode_entries es))

pub length-list : (vs : Values) → length (encode (list vs)) ≡ length (encode_values vs) + 2
unfolding encode
length-list vs = rw (length-append (encode_values vs) (b'e' ∷ [])) (omega arith)

pub length-dict : (es : Entries) → length (encode (dict es)) ≡ length (encode_entries es) + 2
unfolding encode
length-dict es = rw (length-append (encode_entries es) (b'e' ∷ [])) (omega arith)

reads-value : (v : Value) (vs : Values) → ReadsValue v → ReadsValues vs → ReadsValues (value v vs)
unfolding encode
reads-value v vs one more p acc rest = spend _ λ f h.
    rw (append_assoc (encode v) (encode_values vs) (b'e' ∷ rest)) (
      list-step f acc v (encode_values vs ++ (b'e' ∷ rest))
        (ok (append_values acc (value v vs), rest)) p.0
        (one p.0 nil_list (encode_values vs ++ (b'e' ∷ rest)) f
          (omega (arith, length-encode_values v vs)))
        (more p.1 (append_value acc v) rest f
            (omega (arith, length-encode_values v vs, length-encode v p.0))
          ∙ ap (λ ws. ok (ws, rest)) (append_values-append_value acc v vs)))

reads-entry :
    (k : Bytes) (v : Value) (es : Entries)
    → ReadsValue v
    → ReadsEntries es
    → ReadsEntries (entry k v es)
unfolding encode
reads-entry k v es one more p cur acc rest f below =
    spend
      (λ f.
        decode_dict f any_type cur acc (encode_entries (entry k v es) ++ (b'e' ∷ rest))
        ≡ ok (append_entries acc (entry k v es), rest))
      (λ f h.
        rw
          (
            append_assoc (encode_string k) (encode v ++ encode_entries es) (b'e' ∷ rest),
            append_assoc (encode v) (encode_entries es) (b'e' ∷ rest),
          )
          (dict-step f cur acc k v (encode_entries es ++ (b'e' ∷ rest))
            (ok (append_entries acc (entry k v es), rest)) p.0
            (one p.1 cur (encode_entries es ++ (b'e' ∷ rest)) f
              (omega (arith, length-encode_entries k v es, length-encode_string k)))
            (next f (omega (arith, length-encode_entries k v es, length-encode_string k)))))
      f
  where
    next :
        (f : ℕ)
        → 3 * length (encode_entries es) + 1 < f
        → decode_dict f any_type v (set_entry k v acc) (encode_entries es ++ (b'e' ∷ rest))
          ≡ ok (append_entries acc (entry k v es), rest)
    next f h = rw (set_entry-AreBelow acc k v below.0) (
        more p.3 v (append_entries acc (entry k v no_entries)) rest f
          (AreBelowAll-append acc k v es below.1 p.2) h
        ∙ ap (λ fs. ok (fs, rest)) (append_entries_assoc acc k v es))

reads-list : (vs : Values) → ReadsValues vs → ReadsValue (list vs)
reads-list vs ih p cur rest =
    spend_two (λ f. decode f any_type cur (encode (list vs) ++ rest) ≡ ok (list vs, rest))
      (omega (arith, length-list vs))
      λ f h. any-list f cur vs vs rest (ih p no_values rest f (omega (arith, length-list vs)))

reads-dict : (es : Entries) → ReadsEntries es → ReadsValue (dict es)
reads-dict es ih p cur rest =
    spend_two (λ f. decode f any_type cur (encode (dict es) ++ rest) ≡ ok (dict es, rest))
      (omega (arith, length-dict es))
      λ f h.
        any-dict f cur es es rest
          (ih p nil_list no_entries rest f (AreBelowAll-nil es) (omega (arith, length-dict es)))

decode-Reads : (v : Value) → ReadsValue v
unfolding encode
decode-Reads v = elim v as ReadsValue ReadsValues ReadsEntries [
  | int z ↦ λ p cur rest.
      spend_two (λ f. decode f any_type cur (encode (int z) ++ rest) ≡ ok (int z, rest))
        (omega (arith, length-encode (int z) p)) λ f h. any-int f cur z rest p
  | uint n ↦ λ p. absurd p
  | bool b ↦ λ p. absurd p
  | str s ↦ λ p cur rest.
      spend_two (λ f. decode f any_type cur (encode (str s) ++ rest) ≡ ok (str s, rest))
        (omega (arith, length-encode (str s) p)) λ f h. any-str f cur s rest p
  | nil_list ↦ λ p. absurd p
  | nil_dict ↦ λ p. absurd p
  | list (vs → ih) ↦ reads-list vs ih
  | dict (es → ih) ↦ reads-dict es ih
  | no_values ↦ λ p acc rest.
      spend _ λ f h. list-end f acc rest ∙ ap (λ ws. ok (ws, rest)) (sym (append_values-nil acc))
  | value (w → ih) (vs → ihs) ↦ reads-value w vs ih ihs
  | no_entries ↦ λ p cur acc rest f b.
      spend
        (λ f.
          decode_dict f any_type cur acc (b'e' ∷ rest) ≡ ok (append_entries acc no_entries, rest))
        (λ f h. dict-end f cur acc rest ∙ ap (λ fs. ok (fs, rest)) (sym (append_entries-nil acc))) f
  | entry k (w → ih) (es → ihs) ↦ reads-entry k w es ih ihs
]

pub decode-encode :
    (v : Value) (cur : Value) (rest : Bytes) (f : ℕ)
    → IsPlain v
    → 3 * length (encode v) < f
    → decode f any_type cur (encode v ++ rest) ≡ ok (v, rest)
decode-encode v cur rest f p = decode-Reads v p cur rest f

-- A value of the kinds that an interface{} is decoded to (numbers in the range of int64, strings
-- shorter than 2 ^ 63 bytes, lists and maps that are not nil, the keys of each map in order and
-- each once) is what decoding its own encoding into an interface{} gives, with no bytes left.
pub decode_all-encode : (v : Value) → IsPlain v → decode_all any_type (encode v) ≡ ok v
unfolding decode_all
decode_all-encode v p =
    let whole = decode-encode v nil_list [] (3 * length (encode v) + 3) p (omega arith) in
    rw (rw append-nil at whole) refl
