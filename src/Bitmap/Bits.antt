-- ===== src/Bitmap/Bits.antt =====
-- A bitmap that can be computed with: the list of its bits. It shows that the laws can be met.
use charo_torrent.Prelude.{
  ℕ, zero, suc, ◌+◌, ◌<◌, ◌≤◌, ◌≡◌, refl, Bool, false, List, [], ◌∷◌, ◌==◌, if◌then◌else◌, length,
  arith,
}
use charo_torrent.Misc.{contains, bool_to_int}
use charo_torrent.Bitmap.{Bitmap, IsIncreasing}

abbrev pub Bits : Type 0
Bits = List Bool

abbrev pub get_bit : Bits → ℕ → Bool
get_bit [] i = false
get_bit (b ∷ bs) zero = b
get_bit (b ∷ bs) (suc i) = get_bit bs i

abbrev pub put_bit : Bits → ℕ → Bool → Bits
put_bit [] zero v = v ∷ []
put_bit [] (suc i) v = false ∷ put_bit [] i v
put_bit (b ∷ bs) zero v = v ∷ bs
put_bit (b ∷ bs) (suc i) v = b ∷ put_bit bs i v

abbrev pub count_bits : Bits → ℕ
count_bits [] = 0
count_bits (b ∷ bs) = (if b then 1 else 0) + count_bits bs

abbrev pub indices : ℕ → Bits → List ℕ
indices i [] = []
indices i (b ∷ bs) = let rest = indices (i + 1) bs in if b then i ∷ rest else rest

pub get-put_bit :
    (b : Bits) (i : ℕ) (v : Bool) (j : ℕ)
    → get_bit (put_bit b i v) j ≡ (if i == j then v else get_bit b j)
get-put_bit [] zero v zero = ground arith
get-put_bit [] zero v (suc j) = ground arith
get-put_bit [] (suc i) v zero = ground arith
get-put_bit [] (suc i) v (suc j) = ground (arith, get-put_bit [] i v j)
get-put_bit (b ∷ bs) zero v zero = ground arith
get-put_bit (b ∷ bs) zero v (suc j) = ground arith
get-put_bit (b ∷ bs) (suc i) v zero = ground arith
get-put_bit (b ∷ bs) (suc i) v (suc j) = ground (arith, get-put_bit bs i v j)

pub count-put_bit :
    (b : Bits) (i : ℕ) (v : Bool)
    → count_bits (put_bit b i v) + bool_to_int (get_bit b i) ≡ count_bits b + bool_to_int v
unfolding bool_to_int
count-put_bit [] zero v = ground arith
count-put_bit [] (suc i) v = ground (arith, count-put_bit [] i v)
count-put_bit (b ∷ bs) zero v = ground arith
count-put_bit (b ∷ bs) (suc i) v = ground (arith, count-put_bit bs i v)

pub length-indices : (i : ℕ) (b : Bits) → length (indices i b) ≡ count_bits b
length-indices i [] = refl
length-indices i (b ∷ bs) = ground (arith, length-indices (i + 1) bs)

contains-indices_lt : (i : ℕ) (b : Bits) (k : ℕ) → k < i → contains (indices i b) k ≡ false
unfolding contains
contains-indices_lt i [] k h = refl
contains-indices_lt i (b ∷ bs) k h = ground (arith, contains-indices_lt (i + 1) bs k)

pub contains-indices :
    (i : ℕ) (b : Bits) (j k : ℕ) → i + j ≡ k → contains (indices i b) k ≡ get_bit b j
unfolding contains
contains-indices i [] j k h = refl
contains-indices i (b ∷ bs) zero k h = ground (arith, contains-indices_lt (i + 1) bs k)
contains-indices i (b ∷ bs) (suc j) k h = ground (arith, contains-indices (i + 1) bs j k)

pub indices-IsIncreasing : (lo i : ℕ) (b : Bits) → lo ≤ i → IsIncreasing lo (indices i b)
indices-IsIncreasing lo i [] h = tt
indices-IsIncreasing lo i (b ∷ bs) h =
    ground (arith, indices-IsIncreasing (i + 1) (i + 1) bs, indices-IsIncreasing lo (i + 1) bs)

pub contains-indices_all : (b : Bits) (i : ℕ) → contains (indices 0 b) i ≡ get_bit b i
contains-indices_all b i = contains-indices 0 b i i (omega arith)

pub indices-IsIncreasing_all : (b : Bits) → IsIncreasing 0 (indices 0 b)
indices-IsIncreasing_all b = indices-IsIncreasing 0 0 b (omega arith)

instance abbrev pub bits_bitmap : Bitmap Bits
bits_bitmap = record {
  empty = [];
  get = get_bit;
  put = put_bit;
  len = count_bits;
  iter = indices 0;
  get-empty = λ i. refl;
  get-put = get-put_bit;
  len-empty = refl;
  len-put = count-put_bit;
  length-iter = length-indices 0;
  contains-iter = λ b i. contains-indices_all b i;
  iter-IsIncreasing = indices-IsIncreasing_all;
}
