-- ===== src/Conn/Messages.antt =====
-- torrent/conn.go: blocks as messages, and owned pieces as a bit field.
use charo_torrent.Prelude.{
  ℕ, ◌%◌, ◌^◌, ◌<◌, ◌≡◌, refl, Bool, false, not, ◌&&◌, List, [], ◌∷◌, Option, none, some, ◌==◌,
  if◌then◌else◌, arith,
}
use charo_torrent.Bitmap.{Bitmap}
use charo_torrent.Piece.{Piece, Block, block_len}
use charo_torrent.Wire.Message.{Msg, request, cancel, empty_msg}
use charo_torrent.Wire.BitField.{BitField, new_bit_field, set_piece}
use charo_torrent.Conn.{Conn, am_seeding}

unfoldable pub req_msg : {E : Type 0} → Block → Msg E
req_msg b = record (empty_msg request) {
  index = b.pc % 2 ^ 32;
  begin = b.off % 2 ^ 32;
  len = b.len % 2 ^ 32;
}

unfoldable pub cancel_msg : {E : Type 0} → Block → Msg E
cancel_msg b = record (empty_msg cancel) {
  index = b.pc % 2 ^ 32;
  begin = b.off % 2 ^ 32;
  len = b.len % 2 ^ 32;
}

unfoldable pub req_msg_to_block : {E : Type 0} → Msg E → Block
req_msg_to_block msg = record { pc = msg.index; off = msg.begin; len = msg.len }

-- A block whose numbers fit into 32 bits is read back from its request and from its cancel.
pub req_msg_to_block_lem :
    (E : Type 0) (b : Block)
    → b.pc < 2 ^ 32
    → b.off < 2 ^ 32
    → b.len < 2 ^ 32
    → (req_msg_to_block (req_msg {E = E} b) ≡ b) × (req_msg_to_block (cancel_msg {E = E} b) ≡ b)
unfolding req_msg cancel_msg req_msg_to_block
req_msg_to_block_lem E b p o l =
    let i : b.pc % 2 ^ 32 ≡ b.pc = omega arith in
    let s : b.off % 2 ^ 32 ≡ b.off = omega arith in
    let n : b.len % 2 ^ 32 ≡ b.len = omega arith in (rw (i, s, n) refl, rw (i, s, n) refl)

-- The loop of `bitfield`; `none` is a panic of SetPiece.
unfoldable pub set_pieces : List ℕ → BitField → Option BitField
set_pieces [] bf = some bf
set_pieces (i ∷ is) bf = elim (set_piece bf i) [ none ↦ none | some bf' ↦ set_pieces is bf' ]

module _ {B : Type 0} ⦃bm : Bitmap B⦄ where
  -- conn.bitfield
  unfoldable pub bitfield_of : ℕ → B → Option BitField
  unfolding set_pieces
  bitfield_of num_pieces b = set_pieces (bm.iter b) (new_bit_field num_pieces)

  -- conn.peerSeeding; without the info dictionary it panics.
  unfoldable pub conn_peer_seeding : ℕ → Conn B → Option Bool
  conn_peer_seeding num_pieces c =
      if not c.have_info then none else some (bm.len c.peer_bf == num_pieces)

  -- conn.notUseful, whose calls are made once the info dictionary is there.
  unfoldable pub not_useful : ℕ → Conn B → Bool
  unfolding am_seeding
  not_useful num_pieces c =
      if not c.have_info then false else bm.len c.peer_bf == num_pieces && am_seeding num_pieces c

  -- Piece.msgRequest
  unfoldable pub msg_request : {E : Type 0} → ℕ → Piece B → ℕ → Msg E
  unfolding block_len
  msg_request s p off = record (empty_msg request) {
    index = p.index % 2 ^ 32;
    begin = off % 2 ^ 32;
    len = block_len s p off % 2 ^ 32;
  }
