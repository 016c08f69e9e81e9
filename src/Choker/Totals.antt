-- ===== src/Choker/Totals.antt =====
-- Sums over lists of numbers, and how often a number is in a list.
use charo_torrent.Prelude.{
  ℕ, zero, suc, ◌+◌, ◌≤◌, ◌≡◌, refl, ap, ◌∙◌, List, [], ◌∷◌, ◌++◌, ◌==◌, take, drop, arith,
}
use mathlib.Core.List.{Permᴰ}
use charo_torrent.Misc.{bool_to_int}

abbrev pub total : (ℕ → ℕ) → List ℕ → ℕ
total w [] = 0
total w (i ∷ is) = w i + total w is

pub total-append : (w : ℕ → ℕ) (s r : List ℕ) → total w (s ++ r) ≡ total w s + total w r
total-append w [] r = omega arith
total-append w (i ∷ s) r = omega (arith, total-append w s r)

pub total-take-drop :
    (w : ℕ → ℕ) (n : ℕ) (s : List ℕ) → total w s ≡ total w (take n s) + total w (drop n s)
total-take-drop w zero s = omega arith
total-take-drop w (suc n) [] = omega arith
total-take-drop w (suc n) (i ∷ s) = omega (arith, total-take-drop w n s)

pub total-Permᴰ : (w : ℕ → ℕ) {s r : List ℕ} → Permᴰ s r → total w s ≡ total w r
total-Permᴰ w Permᴰ.nil = refl
total-Permᴰ w (Permᴰ.cons e p) = omega (arith, ap w e, total-Permᴰ w p)
total-Permᴰ w (Permᴰ.swap {l} e e') = omega (arith, ap w e, ap w e')
total-Permᴰ w (Permᴰ.trans p q) = total-Permᴰ w p ∙ total-Permᴰ w q

-- 1 at `j` only: its total is how often `j` is in a list.
abbrev pub is_at : ℕ → ℕ → ℕ
is_at j i = bool_to_int (j == i)

abbrev pub AreListedOnce : List ℕ → Type 0
AreListedOnce s = (j : ℕ) → total (is_at j) s ≤ 1
