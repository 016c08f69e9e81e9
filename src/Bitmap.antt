-- ===== src/Bitmap.antt =====
-- github.com/anacrolix/missinggo/bitmap, which is not part of the repository: a set of indices
-- behind the operations that this program calls. The fields after `iter` state what that package
-- documents: Set changes one index, IterTyped visits the indices in ascending order, Len counts
-- them. A bitmap changes in place; here an operation returns the new value.
pub mod Bits
use charo_torrent.Prelude.{
  ℕ, zero, suc, ◌+◌, ◌-◌, ◌*◌, ◌/◌, ◌%◌, ◌^◌, ◌<◌, ◌≤◌, ◌≡◌, ◌≢◌, ◌↔◌, ◌⊎◌, inl, inr, refl, sym, ap,
  ◌∙◌, Bool, true, false, not, ◌&&◌, ◌||◌, List, [], ◌∷◌, ◌++◌, map, Option, none, some, ltb, leb,
  ◌==◌, if◌then◌else◌, length, get_elem?, set, take, drop, replicate, All, Outcome, ok, err, panic,
  ◌>>=◌, arith, length-append, length-set, length-replicate, length-take, length-drop, take-append,
  drop-append, get_elem?-lt, get_elem?-ge, get_elem?-set_self, get_elem?-set_ne, ltb→lt, leb→le,
  ==→eq, ==_refl, Bool-cases, Option-cases,
}
use charo_torrent.Misc.{contains, bool_to_int}

-- Every index is below the next, and above `lo`.
abbrev pub IsIncreasing : ℕ → List ℕ → Type 0
IsIncreasing lo [] = Unit {0}
IsIncreasing lo (x ∷ xs) = (lo ≤ x) × IsIncreasing (x + 1) xs

pub record Bitmap (B : Type 0) : Type 0 where
  pub empty : B
  pub get : B → ℕ → Bool
  pub put : B → ℕ → Bool → B
  pub len : B → ℕ
  pub iter : B → List ℕ
  pub get-empty : (i : ℕ) → get empty i ≡ false
  pub get-put :
      (b : B) (i : ℕ) (v : Bool) (j : ℕ) → get (put b i v) j ≡ (if i == j then v else get b j)
  pub len-empty : len empty ≡ 0
  pub len-put :
      (b : B) (i : ℕ) (v : Bool) → len (put b i v) + bool_to_int (get b i) ≡ len b + bool_to_int v
  pub length-iter : (b : B) → length (iter b) ≡ len b
  pub contains-iter : (b : B) (i : ℕ) → contains (iter b) i ≡ get b i
  pub iter-IsIncreasing : (b : B) → IsIncreasing 0 (iter b)
