-- ===== src/Tests/Pieces.antt =====
-- The theorems about all pieces of a torrent at concrete inputs.
use charo_torrent.Prelude.{
  ℕ, ◌*◌, ◌<◌, ◌≡◌, ◌⊎◌, refl, Bool, true, false, [], ◌∷◌, some, length, get_elem?, All, arith,
}
use charo_torrent.Bitmap.Bits.{Bits, bits_bitmap, get_bit}
use charo_torrent.Piece.{Piece, new_piece, mark_blocks, count_unrequested, pending_get}
use charo_torrent.Pieces.{
  Pieces, candidates, fill_requests, make_pieces, new_pieces, maybe_start_endgame,
}
use charo_torrent.Pieces.Marking.{AreValid}
use charo_torrent.Pieces.Requests.{Fills}
use charo_torrent.Pieces.Offers.{fill_requests-Fills, fill_requests_progress}
use charo_torrent.Pieces.EndGame.{AreRequested, maybe_start_endgame_cases}
use charo_torrent.Pieces.Fresh.{new_pieces-AreValid}

-- Two pieces, of ten bytes and of three, in blocks of four.
abbrev two_pieces : Pieces Bits
two_pieces = record (new_pieces 4 (10 ∷ 3 ∷ [])) { download_enabled = true; block_size = 4 }

two_pieces-AreValid : AreValid 4 two_pieces.pcs
two_pieces-AreValid = new_pieces-AreValid 4 (10 ∷ 3 ∷ []) (omega arith)

abbrev peer_has_first : Bits
peer_has_first = true ∷ []

fill_requests-Fills_example :
    Fills 4 two_pieces.end_game
      (candidates two_pieces peer_has_first)
      two_pieces.pcs
      5
      (fill_requests (λ xs. xs) two_pieces peer_has_first 5).0.pcs
      (fill_requests (λ xs. xs) two_pieces peer_has_first 5).1
    × All
        (λ b. get_bit peer_has_first b.pc ≡ true)
        (fill_requests (λ xs. xs) two_pieces peer_has_first 5).1
    × ((◌≡◌ {A = Bool} true true) ⊎ ((fill_requests (λ xs. xs) two_pieces peer_has_first 5).1 ≡ []))
fill_requests-Fills_example =
    fill_requests-Fills (λ xs. xs) two_pieces peer_has_first 5 (λ xs i h. h) (omega arith)
      two_pieces-AreValid

abbrev first_piece : Piece Bits
first_piece = new_piece 4 10 0

first_piece_there : get_elem? two_pieces.pcs 0 ≡ some first_piece
unfolding new_pieces make_pieces
first_piece_there = refl

first_piece_unrequested : 0 < count_unrequested first_piece
unfolding count_unrequested new_piece mark_blocks
first_piece_unrequested = omega arith

fill_requests_progress_example : 0 < length (fill_requests (λ xs. xs) two_pieces peer_has_first 5).1
fill_requests_progress_example =
    fill_requests_progress (λ xs. xs) two_pieces peer_has_first 5 0 first_piece (λ xs i. refl)
      two_pieces-AreValid refl (omega arith) first_piece_there refl first_piece_unrequested

maybe_start_endgame_cases_example :
    AreValid 4 (maybe_start_endgame two_pieces).0.pcs
    × ((((maybe_start_endgame two_pieces).1 ≡ true)
          × (two_pieces.end_game ≡ false)
          × AreRequested two_pieces.pcs
          × ((maybe_start_endgame two_pieces).0.end_game ≡ true)
          × ((i k : ℕ) (q : Piece Bits)
              → get_elem? (maybe_start_endgame two_pieces).0.pcs i ≡ some q
              → get_bit two_pieces.owned_pieces i ≡ false
              → k < q.blocks
              → pending_get q (k * 4) ≡ false))
        ⊎ (((maybe_start_endgame two_pieces).1 ≡ false)
            × ((maybe_start_endgame two_pieces).0 ≡ two_pieces)
            × ((two_pieces.end_game ≡ true) ⊎ (¬ AreRequested two_pieces.pcs))))
maybe_start_endgame_cases_example =
    maybe_start_endgame_cases two_pieces (omega arith) two_pieces-AreValid
