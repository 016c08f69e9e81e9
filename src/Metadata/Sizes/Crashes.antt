-- ===== src/Metadata/Sizes/Crashes.antt =====
-- Messages about the info dictionary that end the program.
use charo_torrent.Prelude.{
  ℕ, ◌<◌, ◌≡◌, refl, true, List, [], none, some, ltb, ok, panic, arith, ==_refl,
}
use charo_torrent.Metadata.Sizes.{
  UtMetadatas, find_size, add_size, write_size, MetadataConn, on_ext_handshake, on_metadata_data,
}

-- A size above ten million that is not in the map of sizes, as it is where the torrent has such an info itself, is refused, but
-- the connection keeps it and goes on: a block that names it is then a panic, whatever it holds.
pub refused_size_panics :
    (shuffle : List ℕ → List ℕ) (c : MetadataConn) (uts : UtMetadatas) (n : ℕ)
    → 10000000 < n
    → find_size uts.m n ≡ none
    → (c' : MetadataConn) × (on_ext_handshake shuffle true (some n) (c, uts) ≡ ok ((c', uts), []))
      × (c'.ban ≡ true)
      × ((i : ℕ) (b : List ℕ) (ip : ℕ) → on_metadata_data shuffle i n b ip (c', uts) ≡ panic)
unfolding on_ext_handshake on_metadata_data add_size write_size
refused_size_panics shuffle c uts n large gone =
    let too_large : ltb 10000000 n ≡ true = ground arith in
    (
      record c { handshaken = true; supports_metadata = true; metadata_size = n; ban = true },
      rw too_large refl,
      refl,
      λ i b ip. rw (==_refl n, gone) refl,
    )
