-- ===== src/Conn/Reports.antt =====
-- What the torrent knows of the peer's state from the reports of its connection.
use charo_torrent.Prelude.{
  ℕ, ◌≡◌, inl, inr, refl, Bool, true, false, not, List, Option, none, some, ltb, ◌==◌,
  if◌then◌else◌, length, Outcome, ok, err, panic, ◌>>=◌, Bool-cases,
}
use charo_torrent.Bitmap.{Bitmap}
use charo_torrent.Piece.{Block}
use charo_torrent.Pieces.{Pieces, on_have, on_bitfield}
use charo_torrent.Wire.Message.{
  Msg, MessageKind, request_of, choke, unchoke, interested, not_interested, have, bitfield, request,
  piece, cancel, port, keep_alive, extended, unknown,
}
use charo_torrent.Wire.BitField.{BitField}
use charo_torrent.Conn.{
  Conn, PieceResult, stored, ignored, refused, maybe_send_requests, on_piece_msg, upload,
  discard_blocks,
}
use charo_torrent.Conn.Messages.{req_msg_to_block, not_useful}
use charo_torrent.Conn.Session.{
  peer_bitfield, downloaded_block, Ended, end_of_file, peer_error, WriteResult, written,
  already_written, failed, Session, tell, change_choking, current, send_requests, discarded,
  discard, store, on_piece, on_request, tell_pieces, on_peer_have, bitmap_of, on_peer_bitfield,
  on_peer_msg,
}
use charo_torrent.Conn.Told.{
  IsTold, IsToldAfter, change_interested-IsTold, change_choking-IsTold, uploads-IsTold,
  IsToldAfter-bind, choice, discarded-IsTold,
}

module _ {B : Type 0} ⦃bm : Bitmap B⦄ (order : List ℕ → List ℕ) (sends : Block → Bool)
    (reads : Block → Bool) (write : Block → WriteResult) (piece_len : ℕ → ℕ) (num_pieces : ℕ) where
  send_requests-IsTold :
      (s : Session B)
      → IsTold s.state s.to_torrent
      → IsToldAfter (send_requests order sends reads write piece_len num_pieces s)
  unfolding send_requests
  send_requests-IsTold s h =
      elim (Bool-cases (maybe_send_requests order sends num_pieces (current s) s.pieces).2) [
        | inl e ↦ rw e h
        | inr e ↦ rw e tt
      ]

  discard-IsTold :
      (s : Session B)
      → IsTold s.state s.to_torrent
      → IsToldAfter (discard order sends reads write piece_len num_pieces s)
  unfolding discard
  discard-IsTold s h =
      choice (ltb 0 (length s.conn.on_flight_reqs))
        (discarded (discard_blocks false s.conn s.pieces) s) (ok s)
        (discarded-IsTold (discard_blocks false s.conn s.pieces) s h) h

  store-IsTold :
      (b : Block) (s : Session B)
      → IsTold s.state s.to_torrent
      → IsToldAfter (store order sends reads write piece_len num_pieces b s)
  unfolding store
  store-IsTold b s h = given (write b)
    where
      given :
          (w : WriteResult)
          → IsToldAfter (elim w as (λ w. Outcome Ended (Session B)) [
            | written ↦ ok (tell (downloaded_block b) s)
            | already_written ↦ ok s
            | failed ↦ panic
          ])
      given written = h
      given already_written = h
      given failed = tt

  on_piece-IsTold :
      (b : Block) (s : Session B)
      → IsTold s.state s.to_torrent
      → IsToldAfter (on_piece order sends reads write piece_len num_pieces b s)
  unfolding on_piece
  on_piece-IsTold b s h = given (on_piece_msg order sends num_pieces (current s) s.pieces b)
    where
      given :
          (r : Conn B × Pieces B × PieceResult)
          → IsToldAfter (elim r.2 as (λ w. Outcome Ended (Session B)) [
            | stored ↦
                store order sends reads write piece_len num_pieces b
                  (record s { conn = r.0; pieces = r.1 })
            | ignored ↦ ok (record s { conn = r.0; pieces = r.1 })
            | refused ↦ err (peer_error r.0.ban)
          ])
      given (c, ps, stored) = store-IsTold b (record s { conn = c; pieces = ps }) h
      given (c, ps, ignored) = h
      given (c, ps, refused) = tt

  on_request-IsTold :
      (s : Session B)
      → IsTold s.state s.to_torrent
      → IsToldAfter (on_request order sends reads write piece_len num_pieces s)
  unfolding on_request
  on_request-IsTold s h =
      let r = upload piece_len (current s) s.peer_reqs in
      elim (Bool-cases r.2) [
        | inl e ↦ rw e (uploads-IsTold reads r.1 s.state s.to_torrent h)
        | inr e ↦ rw e tt
      ]

  tell_pieces-IsTold :
      (told : Option (Pieces B)) (s : Session B)
      → IsTold s.state s.to_torrent
      → IsToldAfter (tell_pieces order sends reads write piece_len num_pieces told s)
  unfolding tell_pieces
  tell_pieces-IsTold none s h = elim (Bool-cases s.conn.have_info) [
    | inl e ↦ rw e tt
    | inr e ↦ rw e h
  ]
  tell_pieces-IsTold (some ps) s h = elim (Bool-cases s.conn.have_info) [
    | inl e ↦ rw e h
    | inr e ↦ rw e h
  ]

  on_peer_have-IsTold :
      (i : ℕ) (s : Session B)
      → IsTold s.state s.to_torrent
      → IsToldAfter (on_peer_have order sends reads write piece_len num_pieces i s)
  unfolding on_peer_have
  on_peer_have-IsTold i s h =
      let c = record s.conn { peer_bf = bm.put s.conn.peer_bf i true } in
      let told =
        tell_pieces order sends reads write piece_len num_pieces (on_have s.pieces i)
          (record s { conn = c }) in
      elim (Bool-cases (bm.get s.conn.peer_bf i)) [
        | inl e ↦ rw e tt
        | inr e ↦ elim (Bool-cases (not_useful num_pieces c)) [
          | inl e' ↦ rw (e, e') tt
          | inr e' ↦
              rw (e, e')
                (IsToldAfter-bind told _
                  (tell_pieces-IsTold (on_have s.pieces i) (record s { conn = c }) h) (λ s' h'. h'))
        ]
      ]

  on_peer_bitfield-IsTold :
      (bf : BitField) (s : Session B)
      → IsTold s.state s.to_torrent
      → IsToldAfter (on_peer_bitfield order sends reads write piece_len num_pieces bf s)
  unfolding on_peer_bitfield
  on_peer_bitfield-IsTold bf s h = elim (Bool-cases (not (bm.len s.conn.peer_bf == 0))) [
    | inl e ↦ rw e tt
    | inr e ↦ rw e (given (bitmap_of order sends reads write piece_len num_pieces s.conn bf))
  ]
    where
      given :
          (o : Option B)
          → IsToldAfter (elim o as (λ o. Outcome Ended (Session B)) [
            | none ↦ err (peer_error true)
            | some b ↦
                let c = record s.conn { peer_bf = b } in
                if not_useful num_pieces c then err end_of_file else (do
                  s' ←
                      tell_pieces order sends reads write piece_len num_pieces
                        (on_bitfield s.pieces b)
                        (record s { conn = c })
                  ok (tell (peer_bitfield b) s'))
          ])
      given none = tt
      given (some b) =
          let c = record s.conn { peer_bf = b } in
          let told =
            tell_pieces order sends reads write piece_len num_pieces (on_bitfield s.pieces b)
              (record s { conn = c }) in
          elim (Bool-cases (not_useful num_pieces c)) [
            | inl e ↦ rw e tt
            | inr e ↦ rw e (
                IsToldAfter-bind told _
                  (tell_pieces-IsTold (on_bitfield s.pieces b) (record s { conn = c }) h)
                  (λ s' h'. h'))
          ]

  -- Whatever message a peer sends, if the connection goes on, then the last that the torrent was told
  -- of the peer's interest and of its choking is what the connection has in its state, provided that
  -- this was so before and that the messages of extensions keep it so.
  pub on_peer_msg-IsTold :
      (E : Type 0) (on_extended : Msg E → Session B → Session B)
      → ((msg : Msg E) (s : Session B)
          → IsTold s.state s.to_torrent
          → IsTold (on_extended msg s).state (on_extended msg s).to_torrent)
      → (msg : Msg E) (s : Session B) → IsTold s.state s.to_torrent
      → IsToldAfter (on_peer_msg order sends reads write piece_len num_pieces on_extended msg s)
  unfolding on_peer_msg
  on_peer_msg-IsTold E on_extended keeps msg s h = by_kind msg.kind refl
    where
      on_request_of :
          (o : Option (Msg E))
          → IsToldAfter (elim o as (λ o. Outcome Ended (Session B)) [
            | none ↦ panic
            | some req ↦
                on_piece order sends reads write piece_len num_pieces (req_msg_to_block req) s
          ])
      on_request_of none = tt
      on_request_of (some req) = on_piece-IsTold (req_msg_to_block req) s h

      by_kind :
          (k : MessageKind)
          → msg.kind ≡ k
          → IsToldAfter (on_peer_msg order sends reads write piece_len num_pieces on_extended msg s)
      by_kind keep_alive e = rw e h
      by_kind interested e = rw e (change_interested-IsTold true s h)
      by_kind not_interested e = rw e (change_interested-IsTold false s h)
      by_kind choke e = rw e (
          IsToldAfter-bind (discard order sends reads write piece_len num_pieces s) _
            (discard-IsTold s h) (change_choking-IsTold true))
      by_kind unchoke e =
          rw e (
            send_requests-IsTold (change_choking unchoke false s) (change_choking-IsTold false s h))
      by_kind piece e = rw e (on_request_of (request_of (record msg { kind = piece })))
      by_kind request e = rw e (on_request-IsTold s h)
      by_kind have e = rw e (on_peer_have-IsTold msg.index s h)
      by_kind bitfield e = rw e (on_peer_bitfield-IsTold msg.bf s h)
      by_kind extended e = rw e (keeps (record msg { kind = extended }) s h)
      by_kind port e = rw e h
      by_kind cancel e = rw e tt
      by_kind (unknown n) e = rw e tt
