-- ===== src/Tests/Sizes.antt =====
-- The theorems about the sizes of the info dictionary at concrete inputs.
use charo_torrent.Prelude.{ℕ, ◌≡◌, refl, true, false, List, [], ◌∷◌, none, some, ok, panic, arith}
use charo_torrent.Metadata.{UtMetadata, new_ut_metadata}
use charo_torrent.Metadata.Sizes.{
  UtMetadatas, find_size, add_size, MetadataConn, on_ext_handshake, on_metadata_data,
}
use charo_torrent.Prelude.Bytes.{Bytes}
use charo_torrent.Metadata.Sizes.Crashes.{refused_size_panics}

abbrev shaken_conn : MetadataConn
shaken_conn = record {
  supports_metadata = true;
  handshaken = true;
  have_info = true;
  metadata_size = 3;
  pending = [];
  rejected = [];
  num_resp_sent = 0;
  ban = false;
}

abbrev three_bytes : UtMetadata
three_bytes = record {
  info_bytes = 0 ∷ 0 ∷ 0 ∷ [];
  owned_info_blocks = false ∷ [];
  contributors = [];
  num_pieces = 1;
  last_piece_len = 3;
}

abbrev two_sizes : UtMetadatas
two_sizes = record { m = (2, new_ut_metadata 2) ∷ (3, three_bytes) ∷ []; correct_size = 3 }

two_peers : (add_size 2 (add_size 3 (record { m = []; correct_size = 3 })).0).0 ≡ two_sizes
unfolding add_size find_size new_ut_metadata
two_peers = refl

not_there : find_size two_sizes.m 10000001 ≡ none
unfolding find_size
not_there = refl

refused_size_panics_example :
    (c' : MetadataConn) × (on_ext_handshake (λ xs. xs) true (some 10000001) (shaken_conn, two_sizes)
      ≡ ok ((c', two_sizes), []))
    × (c'.ban ≡ true)
    × ((i : ℕ) (b : List ℕ) (ip : ℕ)
        → on_metadata_data (λ xs. xs) i 10000001 b ip (c', two_sizes) ≡ panic)
refused_size_panics_example =
    refused_size_panics (λ xs. xs) shaken_conn two_sizes 10000001 (omega arith) not_there

abbrev contributed : UtMetadata
contributed = record three_bytes { contributors = 9 ∷ [] }

abbrev one_size : UtMetadatas
one_size = record { m = (3, contributed) ∷ []; correct_size = 0 }

abbrev no_digest : Bytes → Bytes
no_digest b = b
