-- ===== src/Pieces/Marking.antt =====
-- The blocks of one piece that fillRequests offers, and what marking them pending does.
use charo_torrent.Prelude.{
  ℕ, ◌*◌, ◌<◌, ◌≤◌, ◌≡◌, inl, inr, refl, sym, ◌∙◌, Bool, true, false, List, [], ◌∷◌, map, none,
  some, length, get_elem?, take, All, arith, length-take, All-take, length-map, Bool-cases,
}
use mathlib.Core.Path.{subst}
use charo_torrent.Misc.{contains}
use charo_torrent.Bitmap.{Bitmap}
use charo_torrent.Piece.{
  Piece, Block, to_block, unrequested_blocks_slc, set_block_pending, block_len,
}
use charo_torrent.Piece.Invariant.{IsValid, complete_not_unrequested, set_block_pending-IsValid}
use charo_torrent.Pieces.{mark_pending}

-- `off` is the offset of one of `n` blocks.
abbrev pub IsBlockOf : ℕ → ℕ → ℕ → Type 0
IsBlockOf s n off = (k : ℕ) × (k < n) × (off ≡ k * s)

pub All-of_contains :
    (P : ℕ → Type 0) (xs : List ℕ) → ((i : ℕ) → contains xs i ≡ true → P i) → All P xs
unfolding contains
All-of_contains P [] h = tt
All-of_contains P (x ∷ xs) h = (h x (ground arith), All-of_contains P xs λ i e. h i (ground arith))

-- What was false before a step that only clears is false after it.
pub not_before : {a b : Bool} → (b ≡ true → a ≡ true) → a ≡ false → b ≡ false
not_before {a} {b} f h = ground (arith, f)

module _ {B : Type 0} ⦃bm : Bitmap B⦄ where
  -- Whether the block at `off` of piece `i` is unrequested.
  unfoldable pub is_unrequested : List (Piece B) → ℕ → ℕ → Bool
  is_unrequested pcs i off = elim (get_elem? pcs i) [
    | none ↦ false
    | some p ↦ bm.get p.unrequested_blocks off
  ]

  -- The pieces are valid, and each stands at its index.
  pub record AreValid (s : ℕ) (pcs : List (Piece B)) : Type 0 where
    pub valid : (i : ℕ) (p : Piece B) → get_elem? pcs i ≡ some p → IsValid s p
    pub indexed : (i : ℕ) (p : Piece B) → get_elem? pcs i ≡ some p → p.index ≡ i

  -- Marking only takes blocks out of the unrequested ones.
  pub mark_pending-unrequested :
      (p : Piece B) (bs : List Block) (off : ℕ)
      → bm.get (mark_pending p bs).unrequested_blocks off ≡ true
      → bm.get p.unrequested_blocks off ≡ true
  unfolding mark_pending set_block_pending
  mark_pending-unrequested p [] off h = h
  mark_pending-unrequested p (b ∷ bs) off h =
      let ih = mark_pending-unrequested (set_block_pending p b.off) bs off h in
      ground (arith, bm.get-put p.unrequested_blocks b.off false off)

  pub mark_pending-index : (p : Piece B) (bs : List Block) → (mark_pending p bs).index ≡ p.index
  unfolding mark_pending set_block_pending
  mark_pending-index p [] = refl
  mark_pending-index p (b ∷ bs) = mark_pending-index (set_block_pending p b.off) bs ∙ ground arith

  pending-IsValid :
      (s : ℕ) (p : Piece B) (off : ℕ)
      → 0 < s
      → IsValid s p
      → bm.get p.unrequested_blocks off ≡ true
      → IsValid s (set_block_pending p off)
  pending-IsValid s p off pos v h =
      let (k, l, e) = v.unrequested_aligned off h in
      subst (λ o. IsValid s (set_block_pending p o)) (sym e)
        (set_block_pending-IsValid s p k pos v l)

  step-IsValid :
      (s n : ℕ) (p : Piece B) (off : ℕ)
      → 0 < s
      → p.blocks ≡ n
      → IsBlockOf s n off
      → IsValid s p
      → IsValid s (set_block_pending p off)
  step-IsValid s n p off pos e (k, l, q) v =
      subst (λ o. IsValid s (set_block_pending p o)) (sym q)
        (set_block_pending-IsValid s p k pos v (omega arith))

  blocks-step : (p : Piece B) (off : ℕ) → (set_block_pending p off).blocks ≡ p.blocks
  unfolding set_block_pending
  blocks-step p off = ground arith

  pub mark_pending-IsValid :
      (s n : ℕ) (p : Piece B) (bs : List Block)
      → 0 < s
      → p.blocks ≡ n
      → All (λ b. IsBlockOf s n b.off) bs
      → IsValid s p
      → IsValid s (mark_pending p bs)
  unfolding mark_pending
  mark_pending-IsValid s n p [] pos e h v = v
  mark_pending-IsValid s n p (b ∷ bs) pos e h v =
      mark_pending-IsValid s n (set_block_pending p b.off) bs pos (blocks-step p b.off ∙ e) h.1
        (step-IsValid s n p b.off pos e h.0 v)

  step-clears :
      (s : ℕ) (p : Piece B) (off : ℕ)
      → IsValid s p
      → bm.get (set_block_pending p off).unrequested_blocks off ≡ false
  unfolding set_block_pending
  step-clears s p off v = elim (Bool-cases (bm.get p.complete_blocks off)) [
    | inl done ↦ rw done (complete_not_unrequested off v done)
    | inr open_block ↦ rw (open_block, bm.get-put p.unrequested_blocks off false off) (ground arith)
  ]

  -- A marked block is unrequested no more.
  pub mark_pending-clears :
      (s n : ℕ) (p : Piece B) (bs : List Block)
      → 0 < s
      → p.blocks ≡ n
      → All (λ b. IsBlockOf s n b.off) bs
      → IsValid s p
      → All (λ b. bm.get (mark_pending p bs).unrequested_blocks b.off ≡ false) bs
  unfolding mark_pending
  mark_pending-clears s n p [] pos e h v = tt
  mark_pending-clears s n p (b ∷ bs) pos e h v =
      let p1 = set_block_pending p b.off in
      let first : bm.get (mark_pending p1 bs).unrequested_blocks b.off ≡ false =
        ground (arith, mark_pending-unrequested p1 bs b.off, step-clears s p b.off v) in
      (
        first,
        mark_pending-clears s n p1 bs pos (blocks-step p b.off ∙ e) h.1
            (step-IsValid s n p b.off pos e h.0 v),
      )

  -- A block of piece `p`, with its length, that is still unrequested.
  abbrev pub IsOffered : ℕ → Piece B → Block → Type 0
  IsOffered s p b =
      (b.pc ≡ p.index) × (bm.get p.unrequested_blocks b.off ≡ true) × (b.len ≡ block_len s p b.off)

  offered :
      (s : ℕ) (p : Piece B) (xs : List ℕ)
      → All (λ off. bm.get p.unrequested_blocks off ≡ true) xs
      → All (IsOffered s p) (map (to_block s p) xs)
  unfolding to_block
  offered s p [] h = tt
  offered s p (x ∷ xs) h = ((refl, h.0, refl), offered s p xs h.1)

  pub slc-IsOffered :
      (s : ℕ) (p : Piece B) (room : ℕ) → All (IsOffered s p) (unrequested_blocks_slc s p room)
  unfolding unrequested_blocks_slc
  slc-IsOffered s p room = offered s p (take room (bm.iter p.unrequested_blocks)) (
      All-take _ room _ (
        All-of_contains _ (bm.iter p.unrequested_blocks)
          λ i e. sym (bm.contains-iter p.unrequested_blocks i) ∙ e))

  pub length-slc :
      (s : ℕ) (p : Piece B) (room : ℕ) → length (unrequested_blocks_slc s p room) ≤ room
  unfolding unrequested_blocks_slc
  length-slc s p room =
      let xs = take room (bm.iter p.unrequested_blocks) in
      omega (arith, length-map xs (to_block s p), length-take room (bm.iter p.unrequested_blocks))
