-- ===== src/Pieces/Fresh.antt =====
-- The pieces of a torrent as newPieces makes them.
use charo_torrent.Prelude.{
  ℕ, zero, suc, ◌+◌, ◌<◌, ◌≡◌, refl, sym, ap, ◌∙◌, List, [], ◌∷◌, some, get_elem?, arith,
}
use mathlib.Core.Path.{subst}
use charo_torrent.Bitmap.{Bitmap}
use charo_torrent.Piece.{Piece, new_piece}
use charo_torrent.Piece.Invariant.{IsValid, new_piece-IsValid}
use charo_torrent.Pieces.{make_pieces, new_pieces}
use charo_torrent.Pieces.Marking.{AreValid}

index-new_piece : (B : Type 0) ⦃bm : Bitmap B⦄ (s l i : ℕ) → (new_piece {B = B} s l i).index ≡ i
unfolding new_piece
index-new_piece B s l i = refl

module _ {B : Type 0} ⦃bm : Bitmap B⦄ where
  make_pieces-found :
      (s : ℕ) (ls : List ℕ) (i j : ℕ) (p : Piece B)
      → get_elem? (make_pieces s ls i) j ≡ some p
      → (l : ℕ) × (p ≡ new_piece s l (i + j))
  unfolding make_pieces
  make_pieces-found s [] i j p h = absurd (ground arith)
  make_pieces-found s (l ∷ ls) i zero p h =
      let same : new_piece s l i ≡ p = ground arith in
      (l, sym same ∙ ap (new_piece s l) (omega arith))
  make_pieces-found s (l ∷ ls) i (suc j) p h =
      let (k, e) = make_pieces-found s ls (i + 1) j p h in (k, e ∙ ap (new_piece s k) (omega arith))

  -- The pieces of a new torrent are valid, and each stands at its index.
  pub new_pieces-AreValid :
      (s : ℕ) (lengths : List ℕ) → 0 < s → AreValid s (new_pieces {B = B} s lengths).pcs
  unfolding new_pieces
  new_pieces-AreValid s lengths pos = record {
    valid = λ i p e.
        let (l, k) = make_pieces-found s lengths 0 i p e in
        subst (IsValid s) (sym k) (new_piece-IsValid B s l (0 + i) pos).0;
    indexed = λ i p e.
        let (l, k) = make_pieces-found s lengths 0 i p e in
        ap (λ q. q.index) k ∙ index-new_piece B s l (0 + i) ∙ omega arith;
  }
