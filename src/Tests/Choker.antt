-- ===== src/Tests/Choker.antt =====
-- The choker at inputs of its own.
use charo_torrent.Prelude.{ℕ, ◌≤◌, ◌≡◌, refl, true, false, List, [], ◌∷◌, arith}
use mathlib.Core.List.Permᴰ
use charo_torrent.Misc.{bool_to_int}
use charo_torrent.Bitmap.Bits.{Bits, bits_bitmap}
use charo_torrent.ConnInfo.{ConnInfo, View}
use charo_torrent.Choker.{new_choker, review_unchoked_peers}
use charo_torrent.Choker.Totals.{total, AreListedOnce}
use charo_torrent.Choker.Slots.{open_at}
use charo_torrent.Choker.Bound.{review_unchoked_peers_slots}

abbrev interested_peer : ConnInfo Bits
interested_peer = record {
  peer_bf = true ∷ [];
  num_want = 0;
  state = record {
    am_interested = false;
    am_choking = true;
    is_interested = true;
    is_choking = true;
  };
  stats = record {
    last_received_piece_msg = 0;
    last_started_downloading = 0;
    last_started_uploading = 0;
    sum_downloading = 0;
    sum_uploading = 0;
    snubbed = false;
  };
  sent = [];
  dropped = false;
}

abbrev view : View Bits
view = record {
  upload_enabled = true;
  download_enabled = true;
  have_info = true;
  have_all = false;
  num_pieces = 2;
  owned_pieces = true ∷ [];
  now = 100;
  delivered = true;
}

abbrev ids : List ℕ
ids = 4 ∷ 7 ∷ 2 ∷ []

ids-AreListedOnce : AreListedOnce ids
unfolding bool_to_int
ids-AreListedOnce j = ground arith

review_unchoked_peers_slots_example :
    total
      (open_at
        (review_unchoked_peers 60 view
          (λ n. 0)
          (λ cns s. s)
          (λ s. s)
          ids
          (record new_choker { max_upload_slots = 1 }, λ i. interested_peer)).1)
      ids
    ≤ 2
review_unchoked_peers_slots_example =
    review_unchoked_peers_slots 60 view (λ cns s. s) (λ s. s) (λ cns s. Permᴰ.refl s)
      (λ s. Permᴰ.refl s) (λ n. 0) ids (record new_choker { max_upload_slots = 1 })
      (λ i. interested_peer) refl ids-AreListedOnce

-- With one slot, the best peer and the optimistic one are unchoked, and the third is not.
three_peers :
    total
      (open_at
        (review_unchoked_peers 60 view
          (λ n. 0)
          (λ cns s. s)
          (λ s. s)
          ids
          (record new_choker { max_upload_slots = 1 }, λ i. interested_peer)).1)
      ids
    ≡ 2
unfolding review_unchoked_peers bool_to_int new_choker
three_peers = refl
