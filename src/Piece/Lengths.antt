-- ===== src/Piece/Lengths.antt =====
-- The lengths of a piece and of its blocks.
use charo_torrent.Prelude.{
  ℕ, zero, suc, ◌+◌, ◌*◌, ◌/◌, ◌%◌, ◌<◌, ◌≤◌, ◌≡◌, ◌≢◌, ◌⊎◌, inl, inr, refl, true, false, ltb, ◌==◌,
  if◌then◌else◌, ok, err, arith, ltb→lt, ==→eq, Bool-cases,
}
use native.Mathlib.Nat.{div-add-mod}
use charo_torrent.Bitmap.{Bitmap}
use charo_torrent.Piece.{
  Piece, new_piece, length_of, block_len, block_len_safe, large_offset, div_offset,
}

mul_div : (k s : ℕ) → 0 < s → k * s / s ≡ k
mul_div k s h = grind (arith)

mul_mod : (k s : ℕ) → 0 < s → k * s % s ≡ 0
mul_mod k s h = grind (arith)

module _ (B : Type 0) ⦃bm : Bitmap B⦄ where
  -- The blocks of a new piece make up its length.
  pub length_of-new_piece : (s l i : ℕ) → 0 < s → length_of s (new_piece {B = B} s l i) ≡ l
  unfolding length_of new_piece
  length_of-new_piece s l i h = elim (Bool-cases (l % s == 0)) [
    | inl e ↦ rw e (omega (arith, div-add-mod l s, ==→eq (l % s) 0 e))
    | inr e ↦ rw e (omega (arith, div-add-mod l s))
  ]

module _ {B : Type 0} ⦃bm : Bitmap B⦄ where
  -- The lengths of the first `n` blocks, added up.
  unfoldable pub sum_block_len : ℕ → Piece B → ℕ → ℕ
  sum_block_len s p zero = 0
  sum_block_len s p (suc n) = sum_block_len s p n + block_len s p (n * s)

  block_len-mul :
      (s : ℕ) (p : Piece B) (k : ℕ)
      → 0 < s
      → block_len s p (k * s) ≡ (if k + 1 == p.blocks then p.last_block_len else s)
  unfolding block_len
  block_len-mul s p k h = rw (mul_div k s h) refl

  sum_block_len-lt :
      (s : ℕ) (p : Piece B) (n : ℕ) → 0 < s → n < p.blocks → sum_block_len s p n ≡ n * s
  unfolding sum_block_len
  sum_block_len-lt s p zero h l = omega arith
  sum_block_len-lt s p (suc n) h l =
      let inner : (n + 1 == p.blocks) ≡ false = ground arith in
      rw (block_len-mul s p n h, inner, sum_block_len-lt s p n h (omega arith)) (omega arith)

  sum_block_len-blocks :
      (s : ℕ) (p : Piece B) (n : ℕ)
      → 0 < s
      → n ≡ p.blocks
      → 0 < n
      → sum_block_len s p n ≡ length_of s p
  unfolding sum_block_len length_of
  sum_block_len-blocks s p zero h e pos = absurd (omega arith)
  sum_block_len-blocks s p (suc n) h e pos =
      let last : (n + 1 == p.blocks) ≡ true = ground arith in
      rw (block_len-mul s p n h, last, sum_block_len-lt s p n h (omega arith), ← e) (omega arith)

  -- The lengths by which the blocks of a piece are requested add up to the length of the piece.
  pub sum_block_len-eq-length_of :
      (s : ℕ) (p : Piece B) → 0 < s → 0 < p.blocks → sum_block_len s p p.blocks ≡ length_of s p
  sum_block_len-eq-length_of s p h pos = sum_block_len-blocks s p p.blocks h refl pos

  -- Of an offset that a peer names, blockLenSafe says whether it is that of a block, and if so
  -- how long the block is.
  pub block_len_safe_cases :
      (s : ℕ) (p : Piece B) (off : ℕ)
      → 0 < s
      → ((k : ℕ) × (k < p.blocks)
          × (off ≡ k * s)
          × (block_len_safe s p off ≡ ok (block_len s p off)))
        ⊎ ((off % s ≢ 0) × (block_len_safe s p off ≡ err div_offset))
        ⊎ ((off % s ≡ 0) × (p.blocks ≤ off / s) × (block_len_safe s p off ≡ err large_offset))
  unfolding block_len_safe block_len
  block_len_safe_cases s p off h = elim (Bool-cases (off % s == 0)) [
    | inr e ↦ inr (inl (ground arith, rw e refl))
    | inl e ↦
        let aligned : off ≡ off / s * s = omega (arith, div-add-mod off s, ==→eq _ _ e) in
        elim (Bool-cases (ltb (off / s) p.blocks)) [
          | inl l ↦ inl (off / s, ltb→lt _ _ l, aligned, ground arith)
          | inr l ↦ inr (inr (==→eq _ _ e, ground arith, ground arith))
        ]
  ]
