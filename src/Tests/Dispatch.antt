-- ===== src/Tests/Dispatch.antt =====
-- The theorems about a torrent and its connections at concrete inputs.
use charo_torrent.Prelude.{
  ℕ, ◌≡◌, refl, Bool, true, false, List, [], ◌∷◌, ◌==◌, if◌then◌else◌, take,
}
use charo_torrent.Bitmap.Bits.{Bits, bits_bitmap}
use charo_torrent.ConnInfo.{ConnInfo}
use charo_torrent.Swarm.Broadcast.{broadcast_to_conns, slice, broadcast_everyone, broadcast_skips}
use charo_torrent.Swarm.Dispatch.{Torrent}
use charo_torrent.Choker.{new_choker}
use charo_torrent.Swarm.Dispatch.Choking.{choker_review}

abbrev one_gone : ℕ → Bool
one_gone c = c == 7

message_to_two : broadcast_to_conns one_gone (slice (3 ∷ 4 ∷ [])) ≡ (slice (3 ∷ 4 ∷ []), 3 ∷ 4 ∷ [])
message_to_two = broadcast_everyone one_gone (3 ∷ 4 ∷ []) (refl, (refl, tt))

broadcast_skips_example :
    ((broadcast_to_conns one_gone (slice (3 ∷ 7 ∷ 4 ∷ 5 ∷ []))).1 ≡ 3 ∷ 5 ∷ 5 ∷ [])
    × (take
          (broadcast_to_conns one_gone (slice (3 ∷ 7 ∷ 4 ∷ 5 ∷ []))).0.len
          (broadcast_to_conns one_gone (slice (3 ∷ 7 ∷ 4 ∷ 5 ∷ []))).0.array
        ≡ 3 ∷ 4 ∷ 5 ∷ [])
broadcast_skips_example =
    broadcast_skips one_gone (3 ∷ []) 7 4 (5 ∷ []) (refl, tt) refl (refl, (refl, tt))

abbrev new_info : ConnInfo Bits
new_info = record {
  peer_bf = [];
  num_want = 0;
  state = record {
    am_interested = false;
    am_choking = true;
    is_interested = false;
    is_choking = true;
  };
  stats = record {
    last_received_piece_msg = 0;
    last_started_downloading = 0;
    last_started_uploading = 0;
    sum_downloading = 0;
    sum_uploading = 0;
    snubbed = false;
  };
  sent = [];
  dropped = false;
}

abbrev with_conns : List ℕ → (ℕ → ConnInfo Bits) → Torrent Bits
with_conns cs info = record {
  conns = cs;
  info = info;
  pieces = record {
    block_size = 4;
    owned_pieces = [];
    pcs = [];
    end_game = false;
    download_enabled = true;
  };
  queue = record { queued = []; channel = []; room = 2 };
  upload_enabled = true;
  download_enabled = true;
  stats = record {
    blocks_downloaded = 0;
    blocks_uploaded = 0;
    bytes_left = 8;
    bytes_downloaded = 0;
    bytes_uploaded = 0;
  };
  num_pieces = 2;
  piece_len = 4;
  total = 8;
  commands = [];
  downloaded_data = false;
}

abbrev alone : Torrent Bits
alone = with_conns [] (λ c. new_info)

abbrev one_conn : Torrent Bits
one_conn = with_conns (9 ∷ []) (λ c. new_info)

abbrev one_review : Torrent Bits → ℕ → ConnInfo Bits
one_review = choker_review 60 (λ n. 0) (λ cns xs. xs) (λ xs. xs) new_choker 5

abbrev announced : Torrent Bits
announced =
    with_conns (9 ∷ [])
      (λ j. if 9 == j then record new_info { peer_bf = true ∷ []; num_want = 1 } else new_info)
