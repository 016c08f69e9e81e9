-- ===== src/Tests/Piece.antt =====
-- Histories of a piece and info dictionaries, and the theorems about them at concrete inputs.
use charo_torrent.Prelude.{
  ◌+◌, ◌-◌, ◌*◌, ◌%◌, ◌≡◌, ◌≢◌, ◌⊎◌, refl, true, [], none, some, replicate, arith,
}
use charo_torrent.Bitmap.Bits.{Bits, bits_bitmap, get_bit}
use charo_torrent.Piece.{
  Piece, pending_blocks, count_unrequested, count_completed, mark_blocks, new_piece, pending_get,
  set_block_complete, set_block_pending, complete,
}
use charo_torrent.Piece.Count.{count_blocks}
use charo_torrent.Piece.Invariant.{IsValid, new_piece-IsValid}
use charo_torrent.Piece.Counters.{
  Reach, here, next, requested, received, pending_blocks-eq-count, Reach-IsValid,
}
use charo_torrent.MetaInfo.{InfoDict, total_length, num_pieces, piece_length}
use charo_torrent.MetaInfo.Lengths.{IsCovered, sum_piece_length, sum_piece_length_cases}

-- Ten bytes in blocks of four.
abbrev fresh : Piece Bits
fresh = new_piece 4 10 0

fresh-IsValid : IsValid 4 fresh
fresh-IsValid = (new_piece-IsValid Bits 4 10 0 (omega arith)).0

pending_blocks-eq-count_example :
    (pending_blocks fresh ≡ count_blocks (pending_get fresh) 4 3)
    × (count_unrequested fresh + pending_blocks fresh + count_completed fresh ≡ 3)
unfolding new_piece
pending_blocks-eq-count_example = pending_blocks-eq-count fresh-IsValid

abbrev history : Piece Bits
history =
    set_block_complete
      (set_block_complete (set_block_complete (set_block_pending fresh (0 * 4)) 1 (0 * 4)) 2
        (2 * 4))
      1 (1 * 4)

history-Reach : Reach 4 fresh history
unfolding new_piece set_block_complete set_block_pending
history-Reach =
    next
      (next (next (next here (requested 0 (omega arith) refl)) (received 0 1 (omega arith) refl))
        (received 2 2 (omega arith) refl))
      (received 1 1 (omega arith) refl)

history-IsValid : IsValid 4 history
history-IsValid = Reach-IsValid (omega arith) fresh-IsValid history-Reach

Reach-IsValid_example : IsValid 4 history
Reach-IsValid_example = Reach-IsValid (omega arith) fresh-IsValid history-Reach

history_complete : complete history ≡ true
unfolding new_piece set_block_complete set_block_pending complete mark_blocks
history_complete = refl

abbrev first_block : Piece Bits
first_block = set_block_complete fresh 1 (0 * 4)

first_block_complete : get_bit first_block.complete_blocks 0 ≡ true
unfolding new_piece set_block_complete
first_block_complete = refl

-- Two hashes, a piece length of 16 and 32 bytes of data: a whole number of pieces.
abbrev info : InfoDict
info = record {
  files = none;
  len = 32;
  md5 = [];
  name = [];
  piece_len = 16;
  pieces = replicate 40 0;
  private = 0;
  hash = [];
}

info-IsCovered : IsCovered info
unfolding num_pieces total_length
info-IsCovered = omega arith

-- The last piece of 32 bytes in pieces of 16 is given the length 0.
last_is_empty : (piece_length info 0 ≡ some 16) × (piece_length info 1 ≡ some 0)
unfolding piece_length num_pieces total_length
last_is_empty = (refl, refl)

sum_piece_length_cases_example :
    ((total_length info % 16 ≢ 0) × (sum_piece_length info (num_pieces info) ≡ total_length info))
    ⊎ ((total_length info % 16 ≡ 0)
        × (piece_length info (num_pieces info - 1) ≡ some 0)
        × (sum_piece_length info (num_pieces info) + 16 ≡ total_length info))
sum_piece_length_cases_example = sum_piece_length_cases info info-IsCovered
