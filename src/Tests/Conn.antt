-- ===== src/Tests/Conn.antt =====
-- The theorems about connections at concrete inputs.
use charo_torrent.Prelude.{
  ℕ, ◌≤◌, ◌≡◌, ◌↔◌, inr, refl, true, false, not, ◌&&◌, [], ◌∷◌, ◌==◌, length, replicate, All, arith,
}
use charo_torrent.Misc.{contains}
use charo_torrent.Bitmap.Bits.{Bits, bits_bitmap, get_bit}
use charo_torrent.Piece.{Piece, pending_blocks, count_unrequested, count_completed}
use charo_torrent.Pieces.{Pieces, new_pieces}
use charo_torrent.Selector.{less, next_by_rarity, more_complete, next_less}
use charo_torrent.ConnInfo.{ConnInfo, View, new_conn_state, conn_unchoke, peer_interest_changed}
use charo_torrent.ConnInfo.Mirror.{
  Mirrors, IsMirrored, here, next, unchoked_by, peer_interest, choked, reviewed, Reach-Mirrors,
}
use charo_torrent.ConnInfo.Interest.{on_haves, on_haves_keep}
use charo_torrent.Conn.{Conn, stored, max_on_flight, maybe_send_requests, check_unrequested, upload}
use charo_torrent.Conn.Downloads.{
  maybe_send_requests_bound, IsBlockOfPiece, check_unrequested-stored_iff,
}
use charo_torrent.Conn.Uploads.{IsServable, upload-IsServable}
use charo_torrent.Swarm.{Swarm, dropped_conn}
use charo_torrent.Swarm.Dropped.{AreDistinct, dropped_conn_once}

abbrev new_conn_info : ConnInfo Bits
new_conn_info = record {
  peer_bf = true ∷ true ∷ [];
  num_want = 0;
  state = new_conn_state;
  stats = record {
    last_received_piece_msg = 0;
    last_started_downloading = 0;
    last_started_uploading = 0;
    sum_downloading = 0;
    sum_uploading = 0;
    snubbed = false;
  };
  sent = [];
  dropped = false;
}

-- Two pieces, of which the first is owned.
abbrev view : View Bits
view = record {
  upload_enabled = true;
  download_enabled = true;
  have_info = true;
  have_all = false;
  num_pieces = 2;
  owned_pieces = true ∷ [];
  now = 100;
  delivered = true;
}

new_conn_info-IsMirrored : IsMirrored new_conn_info
unfolding new_conn_state
new_conn_info-IsMirrored = record { choking = refl; interest = refl; news = tt }

Reach-Mirrors_example :
    Mirrors (peer_interest_changed view (reviewed view choked) (conn_unchoke view new_conn_info))
Reach-Mirrors_example =
    Reach-Mirrors (next (next here (unchoked_by view)) (peer_interest view choked))
      (inr new_conn_info-IsMirrored)

on_haves_keep_example :
    ((on_haves view (1 ∷ 0 ∷ []) new_conn_info).state.am_interested
      ≡ new_conn_info.state.am_interested)
    × ((on_haves view (1 ∷ 0 ∷ []) new_conn_info).sent ≡ [])
on_haves_keep_example = on_haves_keep view (1 ∷ 0 ∷ []) new_conn_info

abbrev connection : Conn Bits
connection = record {
  have_info = true;
  can_upload = true;
  can_download = true;
  my_bf = true ∷ [];
  peer_bf = true ∷ true ∷ [];
  on_flight_reqs = record { pc = 1; off = 0; len = 3 } ∷ [];
  ban = false;
  requested = [];
  cancelled = [];
}

abbrev pieces : Pieces Bits
pieces = record (new_pieces 4 (10 ∷ 3 ∷ [])) { download_enabled = true; block_size = 4 }

maybe_send_requests_bound_example :
    length (maybe_send_requests (λ xs. xs) (λ b. true) 2 connection pieces).0.on_flight_reqs
    ≤ max_on_flight
maybe_send_requests_bound_example =
    maybe_send_requests_bound (λ xs. xs) (λ b. true) 2 connection pieces (omega arith)

check_unrequested-stored_iff_example :
    ((check_unrequested connection pieces (record { pc = 1; off = 0; len = 3 })).1 ≡ stored) ↔ (
      (connection.have_info ≡ true)
      × (get_bit (true ∷ []) 1 ≡ false)
      × IsBlockOfPiece pieces (record { pc = 1; off = 0; len = 3 }))
check_unrequested-stored_iff_example =
    check_unrequested-stored_iff connection pieces (record { pc = 1; off = 0; len = 3 })
      (omega arith)

upload-IsServable_example :
    All
      (IsServable (λ i. 10) connection)
      (upload
        (λ i. 10)
        connection
        (record { pc = 0; off = 4; len = 4 } ∷ record { pc = 0; off = 8; len = 4 } ∷ [])).1
upload-IsServable_example =
    upload-IsServable (λ i. 10) connection
      (record { pc = 0; off = 4; len = 4 } ∷ record { pc = 0; off = 8; len = 4 } ∷ [])

abbrev swarm : Swarm
swarm = record {
  conns = 4 ∷ 7 ∷ [];
  peers = [];
  max_established_connections = 5;
  have_info = true;
  info_was_downloaded = true;
  upload_enabled = false;
  download_enabled = false;
}

swarm-AreDistinct : AreDistinct swarm.conns
unfolding contains
swarm-AreDistinct = (refl, (refl, tt))

dropped_conn_once_example :
    AreDistinct (dropped_conn swarm 7 1).0.conns
    × ((dropped_conn swarm 7 1).1 ≡ contains (4 ∷ 7 ∷ []) 7)
    × ((cj : ℕ)
        → contains (dropped_conn swarm 7 1).0.conns cj
          ≡ (contains (4 ∷ 7 ∷ []) cj && not (cj == 7)))
    × ((dropped_conn (dropped_conn swarm 7 1).0 7 2).1 ≡ false)
dropped_conn_once_example = dropped_conn_once swarm 7 1 2 swarm-AreDistinct

abbrev rarer : Piece Bits
rarer = record {
  index = 0;
  verified = false;
  blocks = 2;
  last_block_len = 4;
  rarity = 1;
  unrequested_blocks = true ∷ false ∷ false ∷ false ∷ true ∷ [];
  complete_blocks = [];
  contributors = [];
}

-- With a shorter last piece, a begun piece comes before a rare whole one, that before the short one,
-- and the short one before the begun one.
less_cycle :
    (less false next_by_rarity
        (record rarer { blocks = 5; unrequested_blocks = replicate 4 true })
        (record rarer { blocks = 5; unrequested_blocks = replicate 5 true })
      ≡ true)
    × (less false next_by_rarity
          (record rarer { blocks = 5; unrequested_blocks = replicate 5 true })
          (record rarer { rarity = 3 })
        ≡ true)
    × (less false next_by_rarity
          (record rarer { rarity = 3 })
          (record rarer { blocks = 5; unrequested_blocks = replicate 4 true })
        ≡ true)
unfolding less more_complete next_less count_unrequested count_completed pending_blocks
less_cycle = (refl, refl, refl)
