-- ===== src/Bencode/Number.antt =====
-- strconv.FormatInt, FormatUint, ParseInt and ParseUint in base 10 with 64 bits, as the package
-- bencode calls them.
pub mod RoundTrip
use charo_torrent.Prelude.{
  ℕ, zero, suc, ◌+◌, ◌-◌, ◌*◌, ◌/◌, ◌%◌, ◌^◌, ◌<◌, ◌≤◌, ◌≡◌, ◌≢◌, ◌↔◌, ◌⊎◌, inl, inr, refl, sym, ap,
  ◌∙◌, Bool, true, false, not, ◌&&◌, ◌||◌, List, [], ◌∷◌, ◌++◌, map, Option, none, some, ltb, leb,
  ◌==◌, if◌then◌else◌, length, get_elem?, set, take, drop, replicate, All, Outcome, ok, err, panic,
  ◌>>=◌, arith, length-append, length-set, length-replicate, length-take, length-drop, take_all,
  take-append, drop-append, get_elem?-lt, get_elem?-ge, get_elem?-set, All-take, All-append,
  All-imp, length-map, get_elem?-set_self, get_elem?-set_ne, ltb→lt, leb→le, ==→eq, ==_refl,
  Bool-cases, Option-cases,
}
use charo_torrent.Prelude.Bytes.{Bytes}

pub data ℤ : Type 0 where
  pos negsuc : ℕ → ℤ

-- The digits of `n` before `out`; with fuel above `n` every digit is there.
unfoldable pub digits : ℕ → ℕ → Bytes → Bytes
digits zero n out = out
digits (suc f) n out =
    let rest = digits f (n / 10) ((b'0' + n % 10) ∷ out) in if n == 0 then out else rest

unfoldable pub format_uint : ℕ → Bytes
unfolding digits
format_uint n = if n == 0 then b'0' ∷ [] else digits (suc n) n []

unfoldable pub format_int : ℤ → Bytes
unfolding format_uint
format_int (pos n) = format_uint n
format_int (negsuc n) = b'-' ∷ format_uint (suc n)

abbrev pub is_digit : ℕ → Bool
is_digit c = leb b'0' c && leb c b'9'

-- The number that digits spell behind `n`; none if there is another byte.
unfoldable pub scan : Bytes → ℕ → Option ℕ
scan [] n = some n
scan (c ∷ s) n = let rest = scan s (n * 10 + (c - b'0')) in if is_digit c then rest else none

unfoldable pub unsigned : Bytes → Option ℕ
unfolding scan
unsigned [] = none
unsigned (c ∷ s) = scan (c ∷ s) 0

pub data NumError : Type 0 where
  bad_syntax out_of_range : NumError

abbrev pub in_range : ℕ → (ℕ → ℤ) → Option ℕ → Outcome NumError ℤ
in_range limit sign none = err bad_syntax
in_range limit sign (some n) = if leb limit n then err out_of_range else ok (sign n)

abbrev pub negate : ℕ → ℤ
negate zero = pos 0
negate (suc n) = negsuc n

unfoldable pub parse_int : Bytes → Outcome NumError ℤ
unfolding unsigned
parse_int [] = err bad_syntax
parse_int (c ∷ s) =
    if c == b'-'
    then in_range (2 ^ 63 + 1) negate (unsigned s)
    else if c == b'+'
    then in_range (2 ^ 63) pos (unsigned s)
    else in_range (2 ^ 63) pos (unsigned (c ∷ s))

unfoldable pub parse_uint : Bytes → Outcome NumError ℤ
unfolding unsigned
parse_uint s = in_range (2 ^ 64) pos (unsigned s)

-- The numbers of an int64.
abbrev pub IsInt64 : ℤ → Type 0
IsInt64 (pos n) = n < 2 ^ 63
IsInt64 (negsuc n) = n < 2 ^ 63

-- Within a number there is neither the end mark of an integer nor that of a string's length.
unfoldable pub read_until : ℕ → Bytes → Option (Bytes × Bytes)
read_until d [] = none
read_until d (b ∷ bs) =
    if b == d
    then some ([], bs)
    else elim (read_until d bs) [ none ↦ none | some (txt, rest) ↦ some (b ∷ txt, rest) ]
