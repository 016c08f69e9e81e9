-- ===== src/Bencode/Number/RoundTrip.antt =====
-- A number is read back from its decimal print, behind which the end mark stands.
use charo_torrent.Prelude.{
  ℕ, zero, suc, ◌+◌, ◌/◌, ◌%◌, ◌^◌, ◌<◌, ◌≤◌, ◌≡◌, inl, inr, refl, ◌∙◌, true, false, [], ◌∷◌, ◌++◌,
  some, ◌==◌, length, All, ok, arith, All-imp, ==→eq, ==_refl, Bool-cases,
}
use charo_torrent.Prelude.Bytes.{Bytes}
use charo_torrent.Bencode.Number.{
  ℤ, pos, negsuc, digits, format_uint, format_int, is_digit, scan, unsigned, in_range, parse_int,
  parse_uint, IsInt64, read_until,
}

scan_last : (n : ℕ) (out : Bytes) → scan ((b'0' + n % 10) ∷ out) (n / 10) ≡ scan out n
unfolding scan
scan_last n out = ground arith

scan-digits : (f n : ℕ) (out : Bytes) → n < f → scan (digits f n out) 0 ≡ scan out n
unfolding digits
scan-digits zero n out h = absurd (omega arith)
scan-digits (suc f) n out h = elim (Bool-cases (n == 0)) [
  | inl done ↦ rw (done, ==→eq n 0 done) refl
  | inr more ↦
      let small : n / 10 < f = ground arith in
      rw more (scan-digits f (n / 10) ((b'0' + n % 10) ∷ out) small ∙ scan_last n out)
]

-- Every byte of a list is a digit.
abbrev pub AreDigits : Bytes → Type 0
AreDigits s = All (λ c. is_digit c ≡ true) s

digits-AreDigits : (f n : ℕ) (out : Bytes) → AreDigits out → AreDigits (digits f n out)
unfolding digits
digits-AreDigits zero n out h = h
digits-AreDigits (suc f) n out h = elim (Bool-cases (n == 0)) [
  | inl done ↦ rw done h
  | inr more ↦
      let c : is_digit (b'0' + n % 10) ≡ true = ground arith in
      rw more (digits-AreDigits f (n / 10) ((b'0' + n % 10) ∷ out) (c, h))
]

length-digits : (f n : ℕ) (out : Bytes) → length out ≤ length (digits f n out)
unfolding digits
length-digits zero n out = omega arith
length-digits (suc f) n out = ground (arith, length-digits f (n / 10) ((b'0' + n % 10) ∷ out))

pub length-format_uint : (n : ℕ) → 0 < length (format_uint n)
unfolding format_uint digits
length-format_uint n = ground (arith, length-digits n (n / 10) ((b'0' + n % 10) ∷ []))

format_uint-zero : (n : ℕ) → (n == 0) ≡ true → format_uint n ≡ b'0' ∷ []
unfolding format_uint
format_uint-zero n e = rw e refl

format_uint-pos : (n : ℕ) → (n == 0) ≡ false → format_uint n ≡ digits (suc n) n []
unfolding format_uint digits
format_uint-pos n e = rw e refl

pub format_uint-AreDigits : (n : ℕ) → AreDigits (format_uint n)
format_uint-AreDigits n = elim (Bool-cases (n == 0)) [
  | inl none_ ↦ rw (format_uint-zero n none_) (refl, tt)
  | inr some_ ↦ rw (format_uint-pos n some_) (digits-AreDigits (suc n) n [] tt)
]

unsigned-scan : (s : Bytes) → 0 < length s → unsigned s ≡ scan s 0
unfolding unsigned
unsigned-scan [] h = absurd (omega arith)
unsigned-scan (c ∷ s) h = refl

pub unsigned-format_uint : (n : ℕ) → unsigned (format_uint n) ≡ some n
unsigned-format_uint n = unsigned-scan (format_uint n) (length-format_uint n) ∙ scanned
  where
    scanned : scan (format_uint n) 0 ≡ some n
    scanned = elim (Bool-cases (n == 0)) [
      | inl none_ ↦ rw (format_uint-zero n none_) (unfold scan in ground arith)
      | inr some_ ↦
          rw (format_uint-pos n some_)
            (scan-digits (suc n) n [] (omega arith) ∙ unfold scan in refl)
    ]

-- A list of digits is read as a number without a sign.
parse_int-digits :
    (s : Bytes) → 0 < length s → AreDigits s → parse_int s ≡ in_range (2 ^ 63) pos (unsigned s)
unfolding parse_int
parse_int-digits [] h d = absurd (omega arith)
parse_int-digits (c ∷ s) h (d, _) = ground arith

pub parse_int-format_uint : (n : ℕ) → n < 2 ^ 63 → parse_int (format_uint n) ≡ ok (pos n)
parse_int-format_uint n h =
    parse_int-digits (format_uint n) (length-format_uint n) (format_uint-AreDigits n)
    ∙ rw (unsigned-format_uint n) (ground arith)

pub parse_int-format_int : (z : ℤ) → IsInt64 z → parse_int (format_int z) ≡ ok z
unfolding format_int
parse_int-format_int (pos n) h = parse_int-format_uint n h
parse_int-format_int (negsuc n) h = negative (unsigned-format_uint (suc n))
  where
    negative :
        unsigned (format_uint (suc n)) ≡ some (suc n)
        → parse_int (b'-' ∷ format_uint (suc n)) ≡ ok (negsuc n)
    negative e = unfold parse_int in rw e (ground arith)

pub parse_uint-format_uint : (n : ℕ) → n < 2 ^ 64 → parse_uint (format_uint n) ≡ ok (pos n)
unfolding parse_uint
parse_uint-format_uint n h = rw (unsigned-format_uint n) (ground arith)

-- What stands before the end mark is read up to it.
pub read_until-append :
    (d : ℕ) (s rest : Bytes)
    → All (λ c. (c == d) ≡ false) s
    → read_until d (s ++ (d ∷ rest)) ≡ some (s, rest)
unfolding read_until
read_until-append d [] rest h = ground (arith, ==_refl d)
read_until-append d (c ∷ s) rest h = rw (h.0, read_until-append d s rest h.1) refl

pub digits_before :
    (d : ℕ) (s : Bytes) → is_digit d ≡ false → AreDigits s → All (λ c. (c == d) ≡ false) s
digits_before d s no_digit = All-imp _ _ s λ c h. ground (arith, ==→eq c d)
