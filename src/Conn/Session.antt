-- ===== src/Conn/Session.antt =====
-- torrent/conn.go, onPeerMsg: what a connection does with each message of its peer. The channel to
-- the torrent has room; `to_torrent` is what was sent on it, the latest first. `piece_len` is
-- t.pieceLen, `reads` whether t.readBlock has no error, `write` what t.writeBlock says, `extended`
-- is onExtended, which concerns the info dictionary only.
use charo_torrent.Prelude.{
  ℕ, Bool, true, false, not, ◌&&◌, List, [], ◌∷◌, Option, none, some, ltb, ◌==◌, if◌then◌else◌,
  length, Outcome, ok, err, panic, ◌>>=◌,
}
use mathlib.Core.List.{foldr}
use charo_torrent.Bitmap.{Bitmap}
use charo_torrent.Piece.{Block}
use charo_torrent.Pieces.{Pieces, on_have, on_bitfield}
use charo_torrent.Wire.Message.{
  Msg, MessageKind, request_of, choke, unchoke, interested, not_interested, have, bitfield, request,
  piece, port, keep_alive, extended,
}
use charo_torrent.Wire.BitField.{BitField, valid, filter_not_set}
use charo_torrent.ConnInfo.{ConnState, can_upload, can_download}
use charo_torrent.Conn.{
  Conn, stored, ignored, refused, maybe_send_requests, on_piece_msg, upload, discard_blocks,
}
use charo_torrent.Conn.Messages.{req_msg_to_block, not_useful}

-- What the connection tells the torrent.
pub data Report (B : Type 0) : Type 0 where
  passed_on : MessageKind → Report B
  peer_has : ℕ → Report B
  peer_bitfield : B → Report B
  discarded_requests : Report B
  uploaded_block downloaded_block : Block → Report B

-- How a connection ends: `peer_error` has the flag `ban`.
pub data Ended : Type 0 where
  end_of_file : Ended
  peer_error : Bool → Ended

pub data WriteResult : Type 0 where
  written already_written failed : WriteResult

pub record Session (B : Type 0) : Type 0 where
  pub conn : Conn B
  pub state : ConnState
  pub pieces : Pieces B
  pub peer_reqs : List Block
  pub to_torrent : List (Report B)

abbrev pub same_bool : Bool → Bool → Bool
same_bool a b = if a then b else not b

abbrev pub uploads : {B : Type 0} → (Block → Bool) → List Block → List (Report B) → List (Report B)
uploads reads [] sent = sent
uploads reads (b ∷ bs) sent = uploads reads bs (if reads b then uploaded_block b ∷ sent else sent)

abbrev pub tell : {B : Type 0} → Report B → Session B → Session B
tell e s = record s { to_torrent = e ∷ s.to_torrent }

-- changeState for isInterested and for isChoking
unfoldable pub change_interested : {B : Type 0} → MessageKind → Bool → Session B → Session B
change_interested kind v s =
    if same_bool s.state.is_interested v
    then s
    else tell (passed_on kind) (record s { state = record s.state { is_interested = v } })

unfoldable pub change_choking : {B : Type 0} → MessageKind → Bool → Session B → Session B
change_choking kind v s =
    if same_bool s.state.is_choking v
    then s
    else tell (passed_on kind) (record s { state = record s.state { is_choking = v } })

-- The connection with its state in it.
unfoldable pub current : {B : Type 0} → Session B → Conn B
unfolding can_upload can_download
current s = record s.conn { can_upload = can_upload s.state; can_download = can_download s.state }

abbrev pub discarded :
    {B : Type 0} → Option (Conn B × Pieces B) → Session B → Outcome Ended (Session B)
discarded none s = panic
discarded (some r) s = ok (tell discarded_requests (record s { conn = r.0; pieces = r.1 }))

module _ {B : Type 0} ⦃bm : Bitmap B⦄ (order : List ℕ → List ℕ) (sends : Block → Bool)
    (reads : Block → Bool) (write : Block → WriteResult) (piece_len : ℕ → ℕ) (num_pieces : ℕ) where
  -- maybeSendRequests; an error of the connection ends it.
  unfoldable pub send_requests : Session B → Outcome Ended (Session B)
  unfolding maybe_send_requests current
  send_requests s =
      let r = maybe_send_requests order sends num_pieces (current s) s.pieces in
      if r.2 then ok (record s { conn = r.0; pieces = r.1 }) else err (peer_error r.0.ban)

  -- discardBlocks(true, false); a block of a piece that does not exist is a panic.
  unfoldable pub discard : Session B → Outcome Ended (Session B)
  unfolding discard_blocks
  discard s =
      if ltb 0 (length s.conn.on_flight_reqs)
      then discarded (discard_blocks false s.conn s.pieces) s
      else ok s

  -- What onPieceMsg does with the block once its checks are passed; a failed write ends the
  -- program.
  unfoldable pub store : Block → Session B → Outcome Ended (Session B)
  store b s = elim (write b) [
    | written ↦ ok (tell (downloaded_block b) s)
    | already_written ↦ ok s
    | failed ↦ panic
  ]

  unfoldable pub on_piece : Block → Session B → Outcome Ended (Session B)
  unfolding on_piece_msg store current
  on_piece b s =
      let r = on_piece_msg order sends num_pieces (current s) s.pieces b in
      let s' = record s { conn = r.0; pieces = r.1 } in
      elim r.2 [ stored ↦ store b s' | ignored ↦ ok s' | refused ↦ err (peer_error r.0.ban) ]

  -- upload, over the requests in the order that the map gives them.
  unfoldable pub on_request : Session B → Outcome Ended (Session B)
  unfolding upload current
  on_request s =
      let r = upload piece_len (current s) s.peer_reqs in
      if r.2
      then ok (record s { conn = r.0; peer_reqs = []; to_torrent = uploads reads r.1 s.to_torrent })
      else err (peer_error r.0.ban)

  -- The pieces are told only once the info dictionary is there.
  unfoldable pub tell_pieces : Option (Pieces B) → Session B → Outcome Ended (Session B)
  tell_pieces told s =
      let after = elim told as (λ o. Outcome Ended (Session B)) [
        | none ↦ panic
        | some ps ↦ ok (record s { pieces = ps })
      ] in
      if s.conn.have_info then after else ok s

  unfoldable pub on_peer_have : ℕ → Session B → Outcome Ended (Session B)
  unfolding not_useful on_have tell_pieces
  on_peer_have i s =
      let c = record s.conn { peer_bf = bm.put s.conn.peer_bf i true } in
      if bm.get s.conn.peer_bf i
      then err (peer_error s.conn.ban)
      else if not_useful num_pieces c
      then err end_of_file
      else (do
        s' ← tell_pieces (on_have s.pieces i) (record s { conn = c })
        ok (tell (peer_has i) s'))

  -- conn.bitmap; without the info dictionary every length is taken.
  unfoldable pub bitmap_of : Conn B → BitField → Option B
  unfolding valid filter_not_set
  bitmap_of c bf =
      if c.have_info && not (valid bf num_pieces)
      then none
      else some (foldr (λ i b. bm.put b i true) bm.empty (filter_not_set bf))

  unfoldable pub on_peer_bitfield : BitField → Session B → Outcome Ended (Session B)
  unfolding not_useful on_bitfield tell_pieces bitmap_of
  on_peer_bitfield bf s =
      if not (bm.len s.conn.peer_bf == 0)
      then err (peer_error s.conn.ban)
      else elim (bitmap_of s.conn bf) as (λ o. Outcome Ended (Session B)) [
        | none ↦ err (peer_error true)
        | some b ↦
            let c = record s.conn { peer_bf = b } in
            if not_useful num_pieces c then err end_of_file else (do
              s' ← tell_pieces (on_bitfield s.pieces b) (record s { conn = c })
              ok (tell (peer_bitfield b) s'))
      ]

  unfoldable pub on_peer_msg :
      {E : Type 0} → (Msg E → Session B → Session B) → Msg E → Session B → Outcome Ended (Session B)
  unfolding change_interested change_choking send_requests discard on_piece on_request on_peer_have
      on_peer_bitfield
  on_peer_msg on_extended msg s = elim msg.kind [
    | keep_alive ↦ ok s
    | interested ↦ ok (change_interested interested true s)
    | not_interested ↦ ok (change_interested not_interested false s)
    | choke ↦ do s' ← discard s; ok (change_choking choke true s')
    | unchoke ↦ send_requests (change_choking unchoke false s)
    | piece ↦ elim (request_of msg) as (λ o. Outcome Ended (Session B)) [
      | none ↦ panic
      | some req ↦ on_piece (req_msg_to_block req) s
    ]
    | request ↦ on_request s
    | have ↦ on_peer_have msg.index s
    | bitfield ↦ on_peer_bitfield msg.bf s
    | extended ↦ ok (on_extended msg s)
    | port ↦ ok s
    | _ ↦ err (peer_error s.conn.ban)
  ]
