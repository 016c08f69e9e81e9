-- ===== src/Wire/BitField/Laws.antt =====
-- What the operations of a BitField promise.
use Prim.Native.Nat.{bit_or}
use charo_torrent.Prelude.{
  ℕ, zero, suc, ◌+◌, ◌*◌, ◌/◌, ◌%◌, ◌≤◌, ◌<◌, ◌≡◌, ◌≢◌, refl, true, false, [], ◌∷◌, none, some, ltb,
  ◌==◌, if◌then◌else◌, length, get_elem?, set, All, arith, get_elem?-lt, get_elem?-ge, leb, ◌&&◌,
  get_elem?-set_self, get_elem?-set_ne, length-set, ==→eq, Bool-cases, inl, inr,
}
use charo_torrent.Misc.{contains, bool_to_int}
use charo_torrent.Wire.BitField.{
  BitField, mask, has_piece, set_piece, is_set, filter_loop, filter_not_set, bits_set,
}
use charo_torrent.Wire.BitField.Table.{bit, bit-bit_or, bit_or-lt, bit_total, bit_total-ones_count}

abbrev pub IsByte : ℕ → Type 0
IsByte b = b < 256

pub get-IsByte : (bf : BitField) (k b : ℕ) → All IsByte bf → get_elem? bf k ≡ some b → IsByte b
get-IsByte [] k b h e = cc
get-IsByte (x ∷ bf) zero b h e = ground arith
get-IsByte (x ∷ bf) (suc k) b h e = get-IsByte bf k b h.1 e

set-IsByte : (bf : BitField) (k b : ℕ) → All IsByte bf → IsByte b → All IsByte (set bf k b)
set-IsByte [] k b h e = tt
set-IsByte (x ∷ bf) zero b h e = (e, h.1)
set-IsByte (x ∷ bf) (suc k) b h e = (h.0, set-IsByte bf k b h.1 e)

-- What `set_piece` at `i` leaves behind.
pub record IsSetAt (i : ℕ) (bf bf' : BitField) : Type 0 where
  pub bytes : All IsByte bf'
  pub same_length : length bf' ≡ length bf
  pub reads : (j : ℕ) → has_piece bf' j ≡ (if i == j then some true else has_piece bf j)

reads_back :
    (bf : BitField) (i j b : ℕ)
    → IsByte b
    → get_elem? bf (i / 8) ≡ some b
    → get_elem? (set bf (i / 8) (bit_or b (mask i))) (i / 8) ≡ some (bit_or b (mask i))
    → has_piece (set bf (i / 8) (bit_or b (mask i))) j
      ≡ (if i == j then some true else has_piece bf j)
unfolding has_piece
reads_back bf i j b hb e e' = elim (Bool-cases (i / 8 == j / 8)) [
  | inl same ↦
      let s : j / 8 ≡ i / 8 = ground arith in
      rw (s, e, e', bit-bit_or b (i % 8) (j % 8) hb (omega arith) (omega arith)) (ground arith)
  | inr other ↦
      let s : i / 8 ≢ j / 8 = ground arith in
      let d : (i == j) ≡ false = ground arith in
      rw (get_elem?-set_ne bf (i / 8) (j / 8) (bit_or b (mask i)) s, d) refl
]

-- Inside the slice SetPiece does not panic; afterwards exactly the bit `i` has been added.
pub set_piece-IsSetAt :
    (bf : BitField) (i : ℕ)
    → All IsByte bf
    → i / 8 < length bf
    → (bf' : BitField) × (set_piece bf i ≡ some bf') × IsSetAt i bf bf'
unfolding set_piece
set_piece-IsSetAt bf i hb hi =
    let (b, e) = get_elem?-lt bf (i / 8) hi in
    let byte = get-IsByte bf (i / 8) b hb e in
    let e' = get_elem?-set_self bf (i / 8) (bit_or b (mask i)) hi in
    (
      set bf (i / 8) (bit_or b (mask i)),
      rw e refl,
      record {
        bytes = set-IsByte bf (i / 8) _ hb (bit_or-lt b (i % 8) byte (omega arith));
        same_length = length-set bf (i / 8) _;
        reads = λ j. reads_back bf i j b byte e e';
      },
    )

is_set-cons : (b i : ℕ) (bf : BitField) → has_piece (b ∷ bf) (i + 8) ≡ has_piece bf i
unfolding has_piece
is_set-cons b i bf =
    let e : (i + 8) / 8 ≡ suc (i / 8) = omega arith in
    let m : (i + 8) % 8 ≡ i % 8 = omega arith in rw (e, m) refl

filter_loop-length-cons :
    (n i b : ℕ) (bf : BitField)
    → length (filter_loop n (i + 8) (b ∷ bf)) ≡ length (filter_loop n i bf)
unfolding filter_loop
filter_loop-length-cons zero i b bf = refl
filter_loop-length-cons (suc n) i b bf =
    let e : i + 8 + 1 ≡ i + 1 + 8 = omega arith in
    let ih = filter_loop-length-cons n (i + 1) b bf in
    rw (e, is_set-cons b i bf) (ground (arith, ih))

filter_loop_step :
    (n i : ℕ) (bf : BitField)
    → length (filter_loop (suc n) i bf)
      ≡ bool_to_int (is_set (has_piece bf i)) + length (filter_loop n (i + 1) bf)
unfolding filter_loop bool_to_int
filter_loop_step n i bf = ground arith

is_set-head : (b i : ℕ) (bf : BitField) → i < 8 → is_set (has_piece (b ∷ bf) i) ≡ bit b i
unfolding has_piece
is_set-head b i bf h =
    let e : i / 8 ≡ 0 = omega arith in let m : i % 8 ≡ i = omega arith in rw (e, m) refl

head_step :
    (n i b : ℕ) (bf : BitField)
    → i < 8
    → length (filter_loop (suc n) i (b ∷ bf))
      ≡ bool_to_int (bit b i) + length (filter_loop n (i + 1) (b ∷ bf))
head_step n i b bf h = rw (filter_loop_step n i (b ∷ bf), is_set-head b i bf h) refl

-- The first byte of a slice takes the first eight rounds.
filter_loop-first :
    (n b : ℕ) (bf : BitField)
    → length (filter_loop (8 + n) 0 (b ∷ bf)) ≡ bit_total b + length (filter_loop n 8 (b ∷ bf))
filter_loop-first n b bf =
    let e : 8 + n ≡ suc (suc (suc (suc (suc (suc (suc (suc n))))))) = omega arith in
    rw e (
      omega (
        arith,
        head_step n 7 b bf (omega arith),
        head_step (suc n) 6 b bf (omega arith),
        head_step (suc (suc n)) 5 b bf (omega arith),
        head_step (suc (suc (suc n))) 4 b bf (omega arith),
        head_step (suc (suc (suc (suc n)))) 3 b bf (omega arith),
        head_step (suc (suc (suc (suc (suc n))))) 2 b bf (omega arith),
        head_step (suc (suc (suc (suc (suc (suc n)))))) 1 b bf (omega arith),
        head_step (suc (suc (suc (suc (suc (suc (suc n))))))) 0 b bf (omega arith),
      ))

-- BitsSet counts exactly the indices that FilterNotSet lists.
pub bits_set-eq-length : (bf : BitField) → All IsByte bf → bits_set bf ≡ length (filter_not_set bf)
unfolding bits_set filter_not_set
bits_set-eq-length [] h = refl
bits_set-eq-length (b ∷ bf) h =
    let e : suc (length bf) * 8 ≡ 8 + length bf * 8 = omega arith in
    rw (e, filter_loop-first (length bf * 8) b bf)
      (omega (
        arith,
        filter_loop-length-cons (length bf * 8) 0 b bf,
        bits_set-eq-length bf h.1,
        bit_total-ones_count b h.0,
      ))

contains-filter_loop :
    (n i j : ℕ) (bf : BitField)
    → contains (filter_loop n i bf) j ≡ (leb i j && (ltb j (i + n) && is_set (has_piece bf j)))
unfolding filter_loop contains
contains-filter_loop zero i j bf = ground arith
contains-filter_loop (suc n) i j bf = elim (Bool-cases (i == j)) [
  | inl here ↦
      let e : i ≡ j = ==→eq i j here in rw e (ground (arith, contains-filter_loop n (j + 1) j bf))
  | inr there ↦ ground (arith, contains-filter_loop n (i + 1) j bf)
]

has_piece-past : (bf : BitField) (i : ℕ) → length bf * 8 ≤ i → has_piece bf i ≡ none
unfolding has_piece
has_piece-past bf i h = rw (get_elem?-ge bf (i / 8) (omega arith)) refl

-- FilterNotSet lists an index exactly when HasPiece reports its bit.
pub filter_not_set-contains :
    (bf : BitField) (i : ℕ) → contains (filter_not_set bf) i ≡ is_set (has_piece bf i)
unfolding filter_not_set
filter_not_set-contains bf i = elim (Bool-cases (ltb i (length bf * 8))) [
  | inl inside ↦ ground (arith, contains-filter_loop (length bf * 8) 0 i bf)
  | inr past ↦
      ground
        (arith, contains-filter_loop (length bf * 8) 0 i bf, has_piece-past bf i (ground arith))
]
