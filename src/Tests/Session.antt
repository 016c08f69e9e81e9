-- ===== src/Tests/Session.antt =====
-- The messages of a peer at inputs of their own.
use charo_torrent.Prelude.{refl, true, false, [], ◌∷◌}
use charo_torrent.Bitmap.Bits.{Bits, bits_bitmap}
use charo_torrent.Piece.{Block}
use charo_torrent.Pieces.{new_pieces}
use charo_torrent.Wire.Message.{empty_msg, unchoke}
use charo_torrent.Conn.{delete_block}
use charo_torrent.Conn.Messages.{req_msg}
use charo_torrent.Conn.Reader.{read_peer_msg, new, read, taken, IsSmall, PeerReqs-IsSmall}
use charo_torrent.Conn.Session.{Session, written, on_peer_msg}
use charo_torrent.Conn.Told.{IsToldAfter}
use charo_torrent.Conn.Reports.{on_peer_msg-IsTold}

abbrev first : Block
first = record { pc = 0; off = 0; len = 4 }

PeerReqs-IsSmall_example :
    IsSmall 1 (delete_block (read_peer_msg 1 (req_msg {E = ⊥} first) []).0 first)
PeerReqs-IsSmall_example = PeerReqs-IsSmall ⊥ 1 _ (taken (read new (req_msg first)) first)

abbrev session : Session Bits
session = record {
  conn = record {
    have_info = true;
    can_upload = true;
    can_download = true;
    my_bf = true ∷ [];
    peer_bf = true ∷ true ∷ [];
    on_flight_reqs = [];
    ban = false;
    requested = [];
    cancelled = [];
  };
  state = record {
    am_interested = true;
    am_choking = true;
    is_interested = false;
    is_choking = true;
  };
  pieces = record (new_pieces 4 (10 ∷ 3 ∷ [])) { download_enabled = true; block_size = 4 };
  peer_reqs = [];
  to_torrent = [];
}

on_peer_msg-IsTold_example : IsToldAfter (
    on_peer_msg
      (λ xs. xs)
      (λ b. true)
      (λ b. true)
      (λ b. written)
      (λ i. 4)
      2
      (λ msg s. s)
      (empty_msg {E = ⊥} unchoke)
      session)
on_peer_msg-IsTold_example =
    on_peer_msg-IsTold (λ xs. xs) (λ b. true) (λ b. true) (λ b. written) (λ i. 4) 2 ⊥ (λ msg s. s)
      (λ msg s h. h) (empty_msg unchoke) session (refl, refl)
