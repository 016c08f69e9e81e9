-- ===== src/Swarm/Dispatch.antt =====
-- torrent/torrent.go: what a torrent does with the messages of its connections and of the piece
-- hasher, and torrent_stats.go. The loops over the connections are taken as they are when no
-- connection's goroutine has ended (Swarm/Broadcast treats the other case).
pub mod Wants
pub mod Counted
pub mod Steady
pub mod Choking
pub mod Runs
pub mod Reachable
use charo_torrent.Prelude.{
  ℕ, zero, suc, ◌+◌, ◌-◌, ◌*◌, ◌/◌, ◌%◌, ◌^◌, ◌<◌, ◌≤◌, ◌≡◌, ◌≢◌, ◌↔◌, ◌⊎◌, inl, inr, refl, sym, ap,
  ◌∙◌, Bool, true, false, not, ◌&&◌, ◌||◌, List, [], ◌∷◌, ◌++◌, map, Option, none, some, ltb, leb,
  ◌==◌, if◌then◌else◌, length, get_elem?, set, take, drop, replicate, All, Outcome, ok, err, panic,
  ◌>>=◌, arith, length-append, length-set, length-replicate, length-take, length-drop, take_all,
  take-append, drop-append, get_elem?-lt, get_elem?-ge, get_elem?-set, All-take, All-append,
  All-imp, length-map, get_elem?-set_self, get_elem?-set_ne, ltb→lt, leb→le, ==→eq, ==_refl,
  Bool-cases, Option-cases,
}
use charo_torrent.Bitmap.{Bitmap}
use charo_torrent.Piece.{Piece, Block}
use charo_torrent.Pieces.{
  Pieces, Signals, piece_hashed, block_completed, owns_all, set_download_enabled,
}
use charo_torrent.ConnInfo.{
  ConnState, ConnStats, ConnInfo, View, conn_have, conn_interested, conn_not_interested,
  peer_choke_changed, with_state, started_uploading, stopped_uploading,
  review_interests_on_bitfield, review_interests_on_have,
}
use charo_torrent.Choker.{on_conn}
use charo_torrent.Swarm.{
  HashQueue, queue_piece_for_hashing, delete_key, piece_len_at, conn_index, remove_conn,
}

pub record Stats : Type 0 where
  pub blocks_downloaded : ℕ
  pub blocks_uploaded : ℕ
  pub bytes_left : ℕ
  pub bytes_downloaded : ℕ
  pub bytes_uploaded : ℕ

abbrev pub stats_block_downloaded : Stats → Stats
stats_block_downloaded s = record s { blocks_downloaded = s.blocks_downloaded + 1 }

abbrev pub stats_block_uploaded : ℕ → Stats → Stats
stats_block_uploaded bytes s = record s {
  bytes_uploaded = s.bytes_uploaded + bytes;
  blocks_uploaded = s.blocks_uploaded + 1;
}

-- Go's int may fall below zero here; it does not while the lengths of the pieces add up to no more than the total.
abbrev pub stats_on_piece_download : ℕ → Stats → Stats
stats_on_piece_download bytes s = record s {
  bytes_downloaded = s.bytes_downloaded + bytes;
  bytes_left = s.bytes_left - bytes;
}

-- The commands to a connection that are no message of the protocol.
pub data Command : Type 0 where
  requests_available : Command
  cancel : Block → Command

-- A torrent that has its info. `info` is the connInfo of each connection, `commands` lists what was broadcast to
-- all connections, the latest first.
pub record Torrent (B : Type 0) : Type 0 where
  pub conns : List ℕ
  pub info : ℕ → ConnInfo B
  pub pieces : Pieces B
  pub queue : HashQueue
  pub upload_enabled : Bool
  pub download_enabled : Bool
  pub stats : Stats
  pub num_pieces : ℕ
  pub piece_len : ℕ
  pub total : ℕ
  pub commands : List Command
  pub downloaded_data : Bool

-- What a connection tells the torrent.
pub data Event (B : Type 0) : Type 0 where
  interest_changed : Event B
  choke_changed : Event B
  peer_has : ℕ → Event B
  peer_bitfield : B → Event B
  downloaded_block : Block → Event B
  uploaded_block : Block → Event B
  discarded_requests : Event B

module _ {B : Type 0} ⦃bm : Bitmap B⦄ where
  abbrev pub have_all : Torrent B → Bool
  unfolding owns_all
  have_all t = owns_all t.pieces t.num_pieces

  abbrev pub seeding : Torrent B → Bool
  unfolding owns_all
  seeding t = have_all t && t.upload_enabled

  -- What the methods of a connInfo read of the torrent at the time `now`.
  abbrev pub view : Torrent B → ℕ → View B
  unfolding owns_all
  view t now = record {
    upload_enabled = t.upload_enabled;
    download_enabled = t.download_enabled;
    have_info = true;
    have_all = have_all t;
    num_pieces = t.num_pieces;
    owned_pieces = t.pieces.owned_pieces;
    now = now;
    delivered = true;
  }

  abbrev pub at_conn : Torrent B → ℕ → (ConnInfo B → ConnInfo B) → Torrent B
  at_conn t c f = record t { info = on_conn t.info c f }

  -- A loop over t.conns, on the connInfos.
  unfoldable pub for_conns : List ℕ → (ConnInfo B → ConnInfo B) → (ℕ → ConnInfo B) → ℕ → ConnInfo B
  for_conns [] f info = info
  for_conns (c ∷ cs) f info = for_conns cs f (on_conn info c f)

  abbrev pub broadcast : Command → Torrent B → Torrent B
  broadcast cmd t = record t { commands = cmd ∷ t.commands }

  unfoldable pub blocks_left : View B → ℕ → ConnInfo B → ConnInfo B
  blocks_left v i c =
      let c1 = record c { num_want = c.num_want - 1 } in
      if bm.get c.peer_bf i then (if c1.num_want == 0 then conn_not_interested v c1 else c1) else c

  unfoldable pub review_interests_on_piece_download : ℕ → ℕ → Torrent B → Torrent B
  unfolding owns_all for_conns
  review_interests_on_piece_download now i t =
      if have_all t
      then t
      else record t { info = for_conns t.conns (blocks_left (view t now) i) t.info }

  unfoldable pub send_haves : ℕ → Torrent B → Torrent B
  unfolding owns_all for_conns
  send_haves now t = record t { info = for_conns t.conns (conn_have (view t now)) t.info }

  -- onPieceDownload; `none` is a division by zero in pieceLen.
  unfoldable pub on_piece_download : ℕ → ℕ → Torrent B → Option (Torrent B)
  unfolding review_interests_on_piece_download send_haves
  on_piece_download now i t = elim (piece_len_at t.num_pieces t.total t.piece_len i) [
    | none ↦ none
    | some len ↦ some (
        send_haves now (
          review_interests_on_piece_download now i
            (record t { stats = stats_on_piece_download len t.stats })))
  ]

  -- pieceHashed, with the connections whose good or bad contributions go up. After a wrong hash
  -- it calls banPeer, which is in Swarm/Ban and leaves these fields alone.
  unfoldable pub torrent_piece_hashed : ℕ → ℕ → Bool → Torrent B → Option (Torrent B × List ℕ)
  unfolding on_piece_download delete_key
  torrent_piece_hashed now i correct t = elim (piece_hashed t.pieces i correct) [
    | none ↦ none
    | some (ps, contributors) ↦
        let t1 = record t {
          queue = record t.queue { queued = delete_key t.queue.queued i };
          pieces = ps;
        } in
        if correct
        then elim (on_piece_download now i t1) [ none ↦ none | some t2 ↦ some (t2, contributors) ]
        else some (t1, contributors)
  ]

  unfoldable pub downloaded_all : ℕ → Torrent B → Torrent B
  unfolding owns_all for_conns
  downloaded_all now t = record t {
    downloaded_data = true;
    info = for_conns t.conns (conn_not_interested (view t now)) t.info;
  }

  -- What setBlockComplete sets off; a full channel to the hasher is a panic.
  unfoldable pub after_block : ℕ → Signals → Torrent B → Option (Torrent B)
  after_block i s t =
      let t1 = if s.requests_available then broadcast requests_available t else t in
      let t2 : Torrent B = elim s.send_cancels [ none ↦ t1 | some b ↦ broadcast (cancel b) t1 ] in
      let verified : ℕ → Bool =
        λ j. elim (get_elem? t.pieces.pcs j) [ none ↦ false | some p ↦ p.verified ] in
      if s.queue_for_hashing
      then elim (queue_piece_for_hashing t.queue verified i) [
        | none ↦ none
        | some q ↦ some (record t2 { queue = q })
      ]
      else some t2

  unfoldable pub block_downloaded : ℕ → ℕ → Block → Torrent B → Option (Torrent B)
  unfolding after_block
  block_downloaded now c b t =
      let t1 =
        at_conn t c
          (λ cn. record cn { stats = record cn.stats { last_received_piece_msg = now } }) in
      elim (block_completed t.pieces b.pc b.off c) [
        | none ↦ none
        | some (ps, s) ↦
            after_block b.pc s (record t1 { stats = stats_block_downloaded t.stats; pieces = ps })
      ]

  abbrev pub block_uploaded : Block → Torrent B → Torrent B
  block_uploaded b t = record t { stats = stats_block_uploaded b.len t.stats }

  abbrev pub flip_interest : ConnInfo B → ConnInfo B
  flip_interest cn = with_state (record cn.state { is_interested = not cn.state.is_interested }) cn

  -- peerInterestChanged of connection `c`, where `review` is what reviewUnchokedPeers of
  -- the choker makes of the connections.
  unfoldable pub conn_interest_changed :
      (Torrent B → ℕ → ConnInfo B) → ℕ → ℕ → Torrent B → Torrent B
  unfolding owns_all
  conn_interest_changed review now c t =
      let t1 = at_conn t c flip_interest in
      let cn = t1.info c in
      let reviewed = if not cn.state.am_choking then record t1 { info = review t1 } else t1 in
      if cn.state.is_interested
      then at_conn reviewed c (started_uploading (view reviewed now))
      else if not cn.state.am_choking
      then at_conn reviewed c (stopped_uploading (view reviewed now))
      else reviewed

  -- onConnMsg, but for the end of a connection (Swarm/Dropped) and the metadata.
  unfoldable pub on_conn_msg :
      (Torrent B → ℕ → ConnInfo B) → ℕ → ℕ → Event B → Torrent B → Option (Torrent B)
  unfolding conn_interest_changed block_downloaded owns_all
  on_conn_msg review now c interest_changed t = some (conn_interest_changed review now c t)
  on_conn_msg review now c choke_changed t = some (at_conn t c (peer_choke_changed (view t now)))
  on_conn_msg review now c (peer_has i) t = some (
      at_conn t c (λ cn.
        review_interests_on_have (view t now) i (record cn { peer_bf = bm.put cn.peer_bf i true })))
  on_conn_msg review now c (peer_bitfield b) t =
      some
        (at_conn t c (λ cn. review_interests_on_bitfield (view t now) (record cn { peer_bf = b })))
  on_conn_msg review now c (downloaded_block b) t = block_downloaded now c b t
  on_conn_msg review now c (uploaded_block b) t = some (block_uploaded b t)
  on_conn_msg review now c discarded_requests t = some (broadcast requests_available t)

  -- The case of the main loop for an answer of the piece hasher.
  unfoldable pub on_piece_hashed : ℕ → ℕ → Bool → Torrent B → Option (Torrent B)
  unfolding torrent_piece_hashed downloaded_all owns_all
  on_piece_hashed now i correct t = elim (torrent_piece_hashed now i correct t) [
    | none ↦ none
    | some (t1, contributors) ↦ some (if have_all t1 then downloaded_all now t1 else t1)
  ]

  -- The part of StartDataTransfer behind its checks that concerns the connections, for a torrent that lacks pieces.
  unfoldable pub start_downloading : ℕ → Torrent B → Torrent B
  unfolding set_download_enabled for_conns owns_all
  start_downloading now t =
      let t1 = record t { upload_enabled = true; download_enabled = true } in
      if have_all t
      then t1
      else broadcast requests_available (record t1 {
        pieces = set_download_enabled t.pieces true;
        info = for_conns t.conns (review_interests_on_bitfield (view t1 now)) t.info;
      })
