-- ===== src/Tests/Storage.antt =====
-- The theorems about storage, metadata, trackers and piece selection at concrete inputs.
use charo_torrent.Prelude.{
  ℕ, ◌+◌, ◌-◌, ◌≡◌, ◌⊎◌, refl, Bool, true, false, ◌&&◌, List, [], ◌∷◌, Option, some, ltb, leb, ◌==◌,
  if◌then◌else◌, length, get_elem?, ok, arith,
}
use charo_torrent.Bitmap.Bits.{bits_bitmap}
use charo_torrent.Storage.Blocks.{DirtyPiece}
use charo_torrent.Storage.Spread.{FileSystem, AreDistinctFiles, write_at}
use charo_torrent.Storage.Spread.Contents.{below_length, IsSpliced, write_at-IsSpliced}
use charo_torrent.Metadata.{UtMetadata, new_ut_metadata, write_block}
use charo_torrent.Metadata.Writes.{IsPartOf, dict_block, write_block-IsPartOf}
use charo_torrent.Metadata.Requests.{new_ut_metadata-IsPartOf}
use charo_torrent.UdpTracker.{RespHeader}

abbrev three_blocks : DirtyPiece
three_blocks = record { blocks = 3; dirty_blocks = 0 ∷ []; verified = false }

abbrev one_block : DirtyPiece
one_block = record { blocks = 1; dirty_blocks = 0 ∷ []; verified = false }

-- A file system that is the function from files and offsets to bytes.
abbrev pub Disk : Type 0
Disk = ℕ → ℕ → Option ℕ

instance abbrev pub disk_file_system : FileSystem Disk
disk_file_system = record {
  byte = λ d i o. d i o;
  same_file = λ i j. i == j;
  write_file = λ d i bs off. (
    λ j o.
        if i == j && (leb off o && ltb o (off + length bs)) then get_elem? bs (o - off) else d j o,
    true,
  );
  byte-write_file = λ d i bs off j k b done same at.
      let inside : (i == j && (leb off (off + k) && ltb (off + k) (off + length bs))) ≡ true =
        ground (arith, below_length bs k b at) in
      let to : off + k - off ≡ k = omega arith in rw (inside, to) at;
  byte-kept = λ d i bs off j o b out at. rw out at;
}

pub all_distinct : AreDistinctFiles Disk disk_file_system
all_distinct i j = refl

abbrev pub blank : Disk
blank i o = some 0

pub write_at_succeeds : (write_at (3 ∷ 2 ∷ []) 0 blank (7 ∷ 8 ∷ 9 ∷ []) 1).success ≡ true
unfolding write_at
write_at_succeeds = refl

write_at-IsSpliced_example :
    IsSpliced
      (3 ∷ 2 ∷ [])
      0
      blank
      (7 ∷ 8 ∷ 9 ∷ [])
      1
      (write_at (3 ∷ 2 ∷ []) 0 blank (7 ∷ 8 ∷ 9 ∷ []) 1)
write_at-IsSpliced_example =
    write_at-IsSpliced (3 ∷ 2 ∷ []) 0 blank (7 ∷ 8 ∷ 9 ∷ []) 1 all_distinct (omega arith)
      write_at_succeeds

-- An info dictionary of two bytes.
abbrev dict : List ℕ
dict = 5 ∷ 6 ∷ []

abbrev with_dict : UtMetadata
with_dict = record {
  info_bytes = 5 ∷ 6 ∷ [];
  owned_info_blocks = true ∷ [];
  contributors = 9 ∷ [];
  num_pieces = 1;
  last_piece_len = 2;
}

dict_arrives :
    write_block (new_ut_metadata (length dict)) (dict_block dict 0) 0 (length dict) 9
    ≡ ok (with_dict, true)
unfolding write_block new_ut_metadata
dict_arrives = refl

write_block-IsPartOf_example :
    IsPartOf dict with_dict × ((◌≡◌ {A = Bool} true false) ⊎ (with_dict.info_bytes ≡ dict))
write_block-IsPartOf_example =
    write_block-IsPartOf dict (new_ut_metadata (length dict)) with_dict 0 9 true
      (new_ut_metadata-IsPartOf dict) dict_arrives

abbrev announce_header : RespHeader
announce_header = record { action = 1; tx_id = 77 }
