-- ===== src/Misc.antt =====
-- torrent/misc.go and torrent/conv.go: the small helpers of the package torrent.
use charo_torrent.Prelude.{
  ℕ, ◌≡◌, refl, Bool, true, false, List, [], ◌∷◌, ◌++◌, ◌||◌, leb, ◌==◌, if◌then◌else◌, arith,
}

unfoldable pub min_int : ℕ → ℕ → ℕ
min_int a b = if leb a b then a else b

unfoldable pub contains : List ℕ → ℕ → Bool
contains [] v = false
contains (num ∷ s) v = let rest = contains s v in if num == v then true else rest

unfoldable pub bool_to_int : Bool → ℕ
bool_to_int b = if b then 1 else 0

pub contains-append : (s r : List ℕ) (v : ℕ) → contains (s ++ r) v ≡ (contains s v || contains r v)
unfolding contains
contains-append [] r v = refl
contains-append (x ∷ s) r v = ground (arith, contains-append s r v)
