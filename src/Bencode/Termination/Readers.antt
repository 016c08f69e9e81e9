-- ===== src/Bencode/Termination/Readers.antt =====
-- Reading one number, string or mark ends without a panic on every text.
use charo_torrent.Prelude.{
  ℕ, suc, ◌+◌, ◌^◌, ◌<◌, ◌≡◌, inl, inr, refl, Bool, true, false, [], ◌∷◌, ◌++◌, Option, none, some,
  ◌==◌, if◌then◌else◌, length, Outcome, ok, err, panic, ◌>>=◌, arith, length-append, length-drop,
  Bool-cases,
}
use charo_torrent.Prelude.Bytes.{Bytes}
use charo_torrent.Bencode.Number.{
  ℤ, pos, negsuc, is_digit, in_range, negate, unsigned, parse_int, parse_uint, read_until,
}
use charo_torrent.Bencode.Decode.{
  Elem, integer_elem, string_elem, BencError, eof, out_of_fuel, elem_of_byte, mismatch, starts,
  assert_ben_elem, read_string, number_of, read_ben_string, read_ben_int, read_ben_uint,
  read_ben_bool, next_bytes, bool_of_text,
}

abbrev pub IsReal : BencError → Type 0
IsReal out_of_fuel = ⊥
IsReal _ = Unit {0}

-- A value with `P`, or an error of the program's.
abbrev pub Settles {ℓ} : {A : Type ℓ} → (A → Type 0) → Outcome BencError A → Type 0
Settles P (ok a) = P a
Settles P (err e) = IsReal e
Settles P panic = ⊥

pub Settles-bind {ℓ κ} :
    {A : Type ℓ} {B : Type κ} {P : A → Type 0} (Q : B → Type 0) (r : Outcome BencError A)
    (k : A → Outcome BencError B)
    → Settles P r
    → ((a : A) → P a → Settles Q (k a))
    → Settles Q (r >>= k)
Settles-bind Q (ok a) k h next = next a h
Settles-bind Q (err e) k h next = h
Settles-bind Q panic k h next = absurd h

pub Settles-if {ℓ} :
    {A : Type ℓ} (P : A → Type 0) (b : Bool) (a : A) (e : BencError)
    → (b ≡ true → P a)
    → IsReal e
    → Settles P (if b then ok a else err e)
Settles-if P true a e h real = h refl
Settles-if P false a e h real = real

mismatch-IsReal : (e : Option Elem) → IsReal (mismatch e)
mismatch-IsReal none = tt
mismatch-IsReal (some e) = tt

pub assert_ben_elem-Settles :
    (what : Elem) (bs : Bytes) → Settles (λ r. length r < length bs) (assert_ben_elem what bs)
unfolding assert_ben_elem elem_of_byte
assert_ben_elem-Settles what [] = tt
assert_ben_elem-Settles what (b ∷ bs) =
    Settles-if (λ r. length r < length (b ∷ bs)) (starts what b) bs _ (λ e. omega arith)
      (mismatch-IsReal (elem_of_byte b))

abbrev IsShorter : ℕ → Option (Bytes × Bytes) → Type 0
IsShorter n none = Unit {0}
IsShorter n (some (txt, rest)) = length rest < n

read_until-IsShorter : (d : ℕ) (bs : Bytes) → IsShorter (length bs) (read_until d bs)
unfolding read_until
read_until-IsShorter d [] = tt
read_until-IsShorter d (b ∷ bs) = elim (Bool-cases (b == d)) [
  | inl e ↦ rw e (omega arith)
  | inr e ↦ rw e (longer (read_until d bs) (read_until-IsShorter d bs))
]
  where
    longer :
        (o : Option (Bytes × Bytes))
        → IsShorter (length bs) o
        → IsShorter
            (suc (length bs))
            (elim o [ none ↦ none | some (txt, rest) ↦ some (b ∷ txt, rest) ])
    longer none h = tt
    longer (some (txt, rest)) h = omega arith

read_string-Settles :
    (d : ℕ) (bs : Bytes) → Settles (λ p. length p.1 < length bs) (read_string d bs)
unfolding read_string
read_string-Settles d bs = given (read_until d bs) (read_until-IsShorter d bs)
  where
    given :
        (o : Option (Bytes × Bytes))
        → IsShorter (length bs) o
        → Settles (λ p. length p.1 < length bs) (elim o [ none ↦ err eof | some r ↦ ok r ])
    given none h = tt
    given (some (txt, rest)) h = h

in_range-Settles :
    (limit : ℕ) (sign : ℕ → ℤ) (o : Option ℕ)
    → Settles (λ z. Unit {0}) (number_of (in_range limit sign o))
unfolding number_of
in_range-Settles limit sign none = tt
in_range-Settles limit sign (some n) = ground arith

parse_int-Settles : (s : Bytes) → Settles (λ z. Unit {0}) (number_of (parse_int s))
unfolding parse_int number_of
parse_int-Settles [] = tt
parse_int-Settles (c ∷ s) = elim (Bool-cases (c == b'-')) [
  | inl e ↦ rw e (in_range-Settles (2 ^ 63 + 1) negate (unsigned s))
  | inr e ↦ elim (Bool-cases (c == b'+')) [
    | inl e' ↦ rw (e, e') (in_range-Settles (2 ^ 63) pos (unsigned s))
    | inr e' ↦ rw (e, e') (in_range-Settles (2 ^ 63) pos (unsigned (c ∷ s)))
  ]
]

parse_uint-Settles : (s : Bytes) → Settles (λ z. Unit {0}) (number_of (parse_uint s))
unfolding parse_uint
parse_uint-Settles s = in_range-Settles (2 ^ 64) pos (unsigned s)

-- Reading up to an end mark behind a number.
abbrev pub Shrinks {ℓ} : {A : Type ℓ} → Bytes → Outcome BencError (A × Bytes) → Type 0
Shrinks bs r = Settles (λ p. length p.1 < length bs) r

pub read_ben_int-Settles : (bs : Bytes) → Shrinks bs (read_ben_int bs)
unfolding read_ben_int
read_ben_int-Settles bs =
    Settles-bind _ (assert_ben_elem integer_elem bs) _ (assert_ben_elem-Settles integer_elem bs)
      λ r h. Settles-bind _ (read_string b'e' r) _ (read_string-Settles b'e' r) λ p h'.
        Settles-bind _ (number_of (parse_int p.0)) _ (parse_int-Settles p.0) λ z u. omega arith

pub read_ben_uint-Settles : (bs : Bytes) → Shrinks bs (read_ben_uint bs)
unfolding read_ben_uint
read_ben_uint-Settles bs =
    Settles-bind _ (assert_ben_elem integer_elem bs) _ (assert_ben_elem-Settles integer_elem bs)
      λ r h. Settles-bind _ (read_string b'e' r) _ (read_string-Settles b'e' r) λ p h'.
        Settles-bind _ (number_of (parse_uint p.0)) _ (parse_uint-Settles p.0) λ z u. omega arith

bool_of_text-Settles : (s : Bytes) → Settles (λ b. ⊥) (bool_of_text (s ++ (b'e' ∷ [])))
bool_of_text-Settles [] = tt
bool_of_text-Settles (b ∷ s) =
    let long : (length (b ∷ (s ++ (b'e' ∷ []))) == 1) ≡ false =
      ground (arith, length-append s (b'e' ∷ [])) in
    rw long tt

-- No text is decoded to a bool: the end mark counts as a part of it, and alone it is no bool. The
-- outcome is an error, and not a panic.
pub read_ben_bool_fails : (bs : Bytes) → Settles (λ p. ⊥) (read_ben_bool bs)
unfolding read_ben_bool
read_ben_bool_fails bs =
    Settles-bind _ (assert_ben_elem integer_elem bs) _ (assert_ben_elem-Settles integer_elem bs)
      λ r h. Settles-bind _ (read_string b'e' r) _ (read_string-Settles b'e' r) λ p h'.
        Settles-bind _ (bool_of_text (p.0 ++ (b'e' ∷ []))) _ (bool_of_text-Settles p.0)
          λ z u. absurd u

pub read_ben_bool-Settles : (bs : Bytes) → Shrinks bs (read_ben_bool bs)
read_ben_bool-Settles bs = weaken (read_ben_bool bs) (read_ben_bool_fails bs)
  where
    weaken : (r : Outcome BencError (Bool × Bytes)) → Settles (λ p. ⊥) r → Shrinks bs r
    weaken (ok a) h = absurd h
    weaken (err e) h = h
    weaken panic h = h

-- The length of a string begins with a digit: it has no sign.
abbrev IsPos : ℤ → Type 0
IsPos (pos n) = Unit {0}
IsPos (negsuc n) = ⊥

abbrev BeginsWith : ℕ → Bytes → Type 0
BeginsWith c s = (t : Bytes) × (s ≡ c ∷ t)

in_range-IsPos : (limit : ℕ) (o : Option ℕ) → Settles IsPos (number_of (in_range limit pos o))
unfolding number_of
in_range-IsPos limit none = tt
in_range-IsPos limit (some n) = ground arith

parse_int-IsPos :
    (c : ℕ) (s : Bytes)
    → is_digit c ≡ true
    → BeginsWith c s
    → Settles IsPos (number_of (parse_int s))
unfolding parse_int
parse_int-IsPos c s d (t, e) =
    let minus : (c == b'-') ≡ false = ground arith in
    let plus : (c == b'+') ≡ false = ground arith in
    rw (e, parse_int, minus, plus) (in_range-IsPos (2 ^ 63) (unsigned (c ∷ t)))

read_string-BeginsWith :
    (d c : ℕ) (bs : Bytes)
    → (c == d) ≡ false
    → Settles (λ p. BeginsWith c p.0) (read_string d (c ∷ bs))
unfolding read_string read_until
read_string-BeginsWith d c bs e = rw (read_string, read_until, e) (given (read_until d bs))
  where
    given :
        (o : Option (Bytes × Bytes))
        → Settles
            (λ p. BeginsWith c p.0)
            (elim (elim o as (λ x. Option (Bytes × Bytes)) [
              | none ↦ none
              | some (txt, rest) ↦ some (c ∷ txt, rest)
            ])
              as (λ x. Outcome BencError (Bytes × Bytes)) [ none ↦ err eof | some r ↦ ok r ])
    given none = tt
    given (some (txt, rest)) = (txt, refl)

Settles-both {ℓ} :
    {A : Type ℓ} (P : A → Type 0) (Q : A → Type 0) (r : Outcome BencError A)
    → Settles P r
    → Settles Q r
    → Settles (λ a. P a × Q a) r
Settles-both P Q (ok a) h h' = (h, h')
Settles-both P Q (err e) h h' = h
Settles-both P Q panic h h' = h

next_bytes-Settles :
    (z : ℤ) (bs : Bytes) (n : ℕ)
    → IsPos z
    → length bs < n
    → Settles (λ p. length p.1 < n) (next_bytes z bs)
next_bytes-Settles (pos k) bs n h less = ground (arith, length-drop k bs)
next_bytes-Settles (negsuc k) bs n h less = h

assert_ben_elem-digit :
    (c : ℕ) (bs : Bytes) → Settles (λ r. is_digit c ≡ true) (assert_ben_elem string_elem (c ∷ bs))
unfolding assert_ben_elem
assert_ben_elem-digit c bs =
    Settles-if (λ r. is_digit c ≡ true) (is_digit c) bs _ (λ e. e)
      (mismatch-IsReal (elem_of_byte c))

pub read_ben_string-Settles : (bs : Bytes) → Shrinks bs (read_ben_string bs)
unfolding read_ben_string assert_ben_elem
read_ben_string-Settles [] = tt
read_ben_string-Settles (c ∷ bs) =
    Settles-bind _ (assert_ben_elem string_elem (c ∷ bs)) _ (assert_ben_elem-digit c bs) λ r e.
      Settles-bind _ (read_string b':' (c ∷ bs)) _
        (Settles-both _ _ (read_string b':' (c ∷ bs)) (read_string-Settles b':' (c ∷ bs))
          (read_string-BeginsWith b':' c bs (ground arith)))
        λ p h.
          Settles-bind _ (number_of (parse_int p.0)) _ (parse_int-IsPos c p.0 e h.1)
            λ z h'. next_bytes-Settles z p.1 (suc (length bs)) h' h.0
