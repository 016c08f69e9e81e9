-- ===== src/Conn.antt =====
-- torrent/conn.go: a connection's requests to its peer, the blocks it gets and the blocks it sends.
-- One case of the connection's loop is one step. The sets onFlightReqs and peerReqs are lists;
-- `sends b` is whether sendMsgToPeer has no error for the message about block `b`.
pub mod Downloads
pub mod Uploads
pub mod Messages
pub mod Reader
pub mod Session
pub mod Told
pub mod Reports
use charo_torrent.Prelude.{
  ℕ, zero, suc, ◌+◌, ◌-◌, ◌*◌, ◌/◌, ◌%◌, ◌^◌, ◌<◌, ◌≤◌, ◌≡◌, ◌≢◌, ◌↔◌, ◌⊎◌, inl, inr, refl, sym, ap,
  ◌∙◌, Bool, true, false, not, ◌&&◌, ◌||◌, List, [], ◌∷◌, ◌++◌, map, Option, none, some, ltb, leb,
  ◌==◌, if◌then◌else◌, length, get_elem?, set, take, drop, replicate, All, Outcome, ok, err, panic,
  ◌>>=◌, arith, length-append, length-set, length-replicate, length-take, length-drop, take_all,
  take-append, drop-append, get_elem?-lt, get_elem?-ge, get_elem?-set, All-take, All-append,
  All-imp, length-map, get_elem?-set_self, get_elem?-set_ne, ltb→lt, leb→le, ==→eq, ==_refl,
  Bool-cases, Option-cases,
}
use mathlib.Core.Option
use charo_torrent.Bitmap.{Bitmap}
use charo_torrent.Piece.{Piece, Block, block_len_safe, OffsetError, div_offset, large_offset}
use charo_torrent.Pieces.{Pieces, fill_requests, is_valid_index, discard_requests}

abbrev pub max_on_flight : ℕ
max_on_flight = 20

abbrev pub max_request_block_sz : ℕ
max_request_block_sz = 16384

-- `requested` and `cancelled` are the messages that went to the peer, the latest first.
pub record Conn (B : Type 0) : Type 0 where
  pub have_info : Bool
  pub can_upload : Bool
  pub can_download : Bool
  pub my_bf : B
  pub peer_bf : B
  pub on_flight_reqs : List Block
  pub ban : Bool
  pub requested : List Block
  pub cancelled : List Block

abbrev pub same_block : Block → Block → Bool
same_block a b = a.pc == b.pc && (a.off == b.off && a.len == b.len)

-- Whether a set of blocks has `b`.
unfoldable pub has_block : List Block → Block → Bool
has_block [] b = false
has_block (a ∷ bs) b = let rest = has_block bs b in if same_block a b then true else rest

-- delete(set, b)
unfoldable pub delete_block : List Block → Block → List Block
delete_block [] b = []
delete_block (a ∷ bs) b = let rest = delete_block bs b in if same_block a b then rest else a ∷ rest

-- The outcome of onPieceMsg: the block goes to the storage, is dropped, or ends the connection.
pub data PieceResult : Type 0 where
  stored ignored refused : PieceResult

pub data UploadResult : Type 0 where
  served skipped refused_request : UploadResult

-- What blockLenSafe says of the offset and the length of a block.
unfoldable pub check_block_len : Block → Outcome OffsetError ℕ → PieceResult
check_block_len bl (ok len) = if not (len == bl.len) then ignored else stored
check_block_len bl (err div_offset) = ignored
check_block_len bl (err large_offset) = refused
check_block_len bl panic = refused

module _ {B : Type 0} ⦃bm : Bitmap B⦄ where
  unfoldable pub am_seeding : ℕ → Conn B → Bool
  am_seeding num_pieces c = if not c.have_info then false else bm.len c.my_bf == num_pieces

  unfoldable pub want_blocks : ℕ → Conn B → Bool
  unfolding am_seeding
  want_blocks num_pieces c =
      not (am_seeding num_pieces c)
      && (c.have_info
          && (c.can_download
              && (ltb 0 (bm.len c.peer_bf) && ltb (length c.on_flight_reqs) (max_on_flight / 2))))

  -- The loop over the filled requests.
  unfoldable pub add_requests : (Block → Bool) → List Block → Conn B → Conn B × Bool
  unfolding has_block
  add_requests sends [] c = (c, true)
  add_requests sends (req ∷ reqs) c =
      let skip = add_requests sends reqs c in
      let c1 = record c { on_flight_reqs = req ∷ c.on_flight_reqs } in
      let rest = add_requests sends reqs (record c1 { requested = req ∷ c.requested }) in
      if has_block c.on_flight_reqs req then skip else if sends req then rest else (c1, false)

  abbrev beside : Pieces B → Conn B × Bool → Conn B × Pieces B × Bool
  beside ps r = (r.0, ps, r.1)

  unfoldable pub maybe_send_requests :
      (List ℕ → List ℕ) → (Block → Bool) → ℕ → Conn B → Pieces B → Conn B × Pieces B × Bool
  unfolding want_blocks add_requests
  maybe_send_requests order sends num_pieces c ps =
      if not (want_blocks num_pieces c)
      then (c, ps, true)
      else (let r = fill_requests order ps c.peer_bf (max_on_flight - length c.on_flight_reqs) in
          beside r.0 (add_requests sends r.1 c))

  -- The checks of onPieceMsg on a block that was not requested: whether it goes on to the storage.
  unfoldable pub check_unrequested : Conn B → Pieces B → Block → Conn B × PieceResult
  unfolding check_block_len
  check_unrequested c ps bl =
      if not c.have_info
      then (record c { ban = true }, refused)
      else if not (is_valid_index ps bl.pc)
      then (record c { ban = true }, refused)
      else if bm.get c.my_bf bl.pc
      then (c, ignored)
      else elim (get_elem? ps.pcs bl.pc) [
        | none ↦ (c, refused)
        | some p ↦ (c, check_block_len bl (block_len_safe ps.block_size p bl.off))
      ]

  abbrev went_on : Conn B × Pieces B × Bool → Conn B × Pieces B × PieceResult
  went_on (c, ps, true) = (c, ps, stored)
  went_on (c, ps, false) = (c, ps, refused)

  abbrev with_pieces : Pieces B → Conn B × PieceResult → Conn B × Pieces B × PieceResult
  with_pieces ps r = (r.0, ps, r.1)

  -- onPieceMsg up to the write; `stored` is where it calls writeBlock.
  unfoldable pub on_piece_msg :
      (List ℕ → List ℕ)
      → (Block → Bool)
      → ℕ
      → Conn B
      → Pieces B
      → Block
      → Conn B × Pieces B × PieceResult
  unfolding check_unrequested maybe_send_requests delete_block has_block
  on_piece_msg order sends num_pieces c ps bl =
      if has_block c.on_flight_reqs bl
      then went_on (
          maybe_send_requests order sends num_pieces
            (record c { on_flight_reqs = delete_block c.on_flight_reqs bl }) ps)
      else with_pieces ps (check_unrequested c ps bl)

  -- The checks of upload on one request, with t.pieceLen as `piece_len`.
  unfoldable pub upload_one : (ℕ → ℕ) → Conn B → Block → Conn B × UploadResult
  upload_one piece_len c req =
      if not c.have_info
      then (record c { ban = true }, refused_request)
      else if not c.can_upload
      then (c, skipped)
      else if ltb max_request_block_sz req.len
      then (record c { ban = true }, refused_request)
      else if not (bm.get c.my_bf req.pc)
      then (c, refused_request)
      else if ltb (piece_len req.pc) (req.off + req.len)
      then (record c { ban = true }, refused_request)
      else (c, served)

  -- The loop of upload over the peer's requests, with those that are served, and whether it went
  -- through without an error.
  unfoldable pub upload : (ℕ → ℕ) → Conn B → List Block → Conn B × List Block × Bool
  unfolding upload_one
  upload piece_len c [] = (c, [], true)
  upload piece_len c (req ∷ reqs) =
      let r = upload_one piece_len c req in
      let rest = upload piece_len r.0 reqs in
      elim r.1 [
        | served ↦ (rest.0, req ∷ rest.1, rest.2)
        | skipped ↦ rest
        | refused_request ↦ (r.0, [], false)
      ]

  -- discardBlocks, when no message fails.
  unfoldable pub discard_blocks : Bool → Conn B → Pieces B → Option (Conn B × Pieces B)
  unfolding discard_requests
  discard_blocks send_cancels c ps =
      if ltb 0 (length c.on_flight_reqs)
      then Option.map
          (λ ps'. (
            record c {
              on_flight_reqs = [];
              cancelled = if send_cancels then c.on_flight_reqs ++ c.cancelled else c.cancelled;
            },
            ps',
          ))
          (discard_requests ps c.on_flight_reqs)
      else some (c, ps)
