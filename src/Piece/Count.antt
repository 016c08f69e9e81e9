-- ===== src/Piece/Count.antt =====
-- Counting the blocks of a piece that pass a test.
use charo_torrent.Prelude.{
  ℕ, zero, suc, ◌+◌, ◌*◌, ◌<◌, ◌≤◌, ◌≡◌, ◌≢◌, inl, inr, refl, Bool, true, false, not, ◌||◌, ltb,
  ◌==◌, if◌then◌else◌, arith, ltb→lt, ==→eq, ==_refl, Bool-cases,
}
use charo_torrent.Misc.{bool_to_int}

-- How many of the first `n` blocks have an offset that passes `f`.
unfoldable pub count_blocks : (ℕ → Bool) → ℕ → ℕ → ℕ
count_blocks f s zero = 0
count_blocks f s (suc n) = count_blocks f s n + bool_to_int (f (n * s))

pub offset_ne : (s k n : ℕ) → 0 < s → k ≢ n → (k * s == n * s) ≡ false
offset_ne s k n pos ne = elim (Bool-cases (ltb k n)) [
  | inl l ↦ let h : k < n = ltb→lt k n l in let m : k * s < n * s = grind arith in ground arith
  | inr l ↦ let h : n < k = ground arith in let m : n * s < k * s = grind arith in ground arith
]

module _ (f g : ℕ → Bool) (s k : ℕ) (v : Bool) (pos : 0 < s)
    (at : (j : ℕ) → g j ≡ (if k * s == j then v else f j)) where
  count_blocks_before : (n : ℕ) → n ≤ k → count_blocks g s n ≡ count_blocks f s n
  unfolding count_blocks
  count_blocks_before zero h = refl
  count_blocks_before (suc n) h =
      rw (at (n * s), offset_ne s k n pos (omega arith), count_blocks_before n (omega arith)) refl

  -- Setting the bit of one block changes the count by that block.
  pub count_blocks-update :
      (n : ℕ)
      → k < n
      → count_blocks g s n + bool_to_int (f (k * s)) ≡ count_blocks f s n + bool_to_int v
  unfolding count_blocks
  count_blocks-update zero h = absurd (omega arith)
  count_blocks-update (suc n) h = elim (Bool-cases (k == n)) [
    | inl e ↦
        let q : k ≡ n = ==→eq k n e in
        rw (at (n * s), ← q, ==_refl (k * s), count_blocks_before k (omega arith)) (omega arith)
    | inr e ↦
        let ne : k ≢ n = ground arith in
        rw (at (n * s), offset_ne s k n pos ne) (omega (arith, count_blocks-update n (omega arith)))
  ]

pub count_blocks-le : (f : ℕ → Bool) (s n : ℕ) → count_blocks f s n ≤ n
unfolding count_blocks bool_to_int
count_blocks-le f s zero = omega arith
count_blocks-le f s (suc n) = ground (arith, count_blocks-le f s n)

pub all-count_blocks :
    (f : ℕ → Bool) (s n k : ℕ) → count_blocks f s n ≡ n → k < n → f (k * s) ≡ true
unfolding count_blocks bool_to_int
all-count_blocks f s zero k e h = absurd (omega arith)
all-count_blocks f s (suc n) k e h = elim (Bool-cases (k == n)) [
  | inl q ↦ rw (==→eq k n q) (ground (arith, count_blocks-le f s n))
  | inr q ↦ all-count_blocks f s n k (ground (arith, count_blocks-le f s n)) (ground arith)
]

pub count_blocks-all :
    (f : ℕ → Bool) (s n : ℕ) → ((k : ℕ) → k < n → f (k * s) ≡ true) → count_blocks f s n ≡ n
unfolding count_blocks bool_to_int
count_blocks-all f s zero h = refl
count_blocks-all f s (suc n) h =
    ground (arith, h n (omega arith), count_blocks-all f s n (λ k l. h k (omega arith)))

pub count_blocks-none :
    (f : ℕ → Bool) (s n : ℕ) → ((k : ℕ) → k < n → f (k * s) ≡ false) → count_blocks f s n ≡ 0
unfolding count_blocks bool_to_int
count_blocks-none f s zero h = refl
count_blocks-none f s (suc n) h =
    ground (arith, h n (omega arith), count_blocks-none f s n (λ k l. h k (omega arith)))

pub none-count_blocks :
    (f : ℕ → Bool) (s n k : ℕ) → count_blocks f s n ≡ 0 → k < n → f (k * s) ≡ false
unfolding count_blocks bool_to_int
none-count_blocks f s zero k e h = absurd (omega arith)
none-count_blocks f s (suc n) k e h = elim (Bool-cases (k == n)) [
  | inl q ↦ rw (==→eq k n q) (ground arith)
  | inr q ↦ none-count_blocks f s n k (ground arith) (ground arith)
]

-- Two tests that never pass together, and the blocks that pass neither.
pub count_blocks_split :
    (f g : ℕ → Bool) (s n : ℕ)
    → ((j : ℕ) → f j ≡ true → g j ≡ false)
    → count_blocks f s n + count_blocks g s n + count_blocks (λ j. not (f j || g j)) s n ≡ n
unfolding count_blocks bool_to_int
count_blocks_split f g s zero d = refl
count_blocks_split f g s (suc n) d = ground (arith, count_blocks_split f g s n d, d (n * s))
