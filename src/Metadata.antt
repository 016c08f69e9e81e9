-- ===== src/Metadata.antt =====
-- torrent/metadata.go: the info dictionary, downloaded block by block from the peers (BEP 9). One
-- call of a method holds its mutex throughout and is one step.
pub mod Writes
pub mod Requests
pub mod Sizes
pub mod Completion
use charo_torrent.Prelude.{
  ℕ, zero, suc, ◌+◌, ◌-◌, ◌*◌, ◌/◌, ◌%◌, ◌^◌, ◌<◌, ◌≤◌, ◌≡◌, ◌≢◌, ◌↔◌, ◌⊎◌, inl, inr, refl, sym, ap,
  ◌∙◌, Bool, true, false, not, ◌&&◌, ◌||◌, List, [], ◌∷◌, ◌++◌, map, Option, none, some, ltb, leb,
  ◌==◌, if◌then◌else◌, length, get_elem?, set, take, drop, replicate, All, Outcome, ok, err, panic,
  ◌>>=◌, arith, length-append, length-set, length-replicate, length-take, length-drop, take_all,
  take-append, drop-append, get_elem?-lt, get_elem?-ge, get_elem?-set, All-take, All-append,
  All-imp, length-map, get_elem?-set_self, get_elem?-set_ne, ltb→lt, leb→le, ==→eq, ==_refl,
  Bool-cases, Option-cases,
}
use charo_torrent.Misc.{contains, min_int}

abbrev pub metadata_piece_sz : ℕ
metadata_piece_sz = 16384

pub record UtMetadata : Type 0 where
  pub info_bytes : List ℕ
  pub owned_info_blocks : List Bool
  pub contributors : List ℕ
  pub num_pieces : ℕ
  pub last_piece_len : ℕ

pub data MetadataError : Type 0 where
  out_of_range wrong_piece_length : MetadataError

unfoldable pub new_ut_metadata : ℕ → UtMetadata
new_ut_metadata info_size =
    let last = info_size % metadata_piece_sz in
    let whole = info_size / metadata_piece_sz in
    let pieces = if not (last == 0) then whole + 1 else whole in
    record {
      info_bytes = replicate info_size 0;
      owned_info_blocks = replicate pieces false;
      contributors = [];
      num_pieces = pieces;
      last_piece_len = if not (last == 0) then last else metadata_piece_sz;
    }

unfoldable pub reset : UtMetadata → UtMetadata
reset ut = record ut { contributors = []; owned_info_blocks = replicate ut.num_pieces false }

-- The loop of fillRequest over the blocks from index `i` on.
unfoldable pub incomplete_indices : ℕ → List Bool → List ℕ → List ℕ
incomplete_indices i [] exclude = []
incomplete_indices i (v ∷ vs) exclude =
    let rest = incomplete_indices (i + 1) vs exclude in
    if not v && not (contains exclude i) then i ∷ rest else rest

-- `shuffle` is rand.Shuffle.
unfoldable pub fill_request : (List ℕ → List ℕ) → UtMetadata → ℕ → List ℕ → List ℕ
unfolding incomplete_indices
fill_request shuffle ut n exclude =
    let is = shuffle (incomplete_indices 0 ut.owned_info_blocks exclude) in
    if ltb n (length is) then take n is else is

unfoldable pub all_owned : List Bool → Bool
all_owned [] = true
all_owned (v ∷ vs) = let rest = all_owned vs in if not v then false else rest

-- utMetadata.complete
unfoldable pub metadata_complete : UtMetadata → Bool
unfolding all_owned
metadata_complete ut = all_owned ut.owned_info_blocks

unfoldable pub metadata_piece_length : UtMetadata → ℕ → ℕ
metadata_piece_length ut i = if i + 1 == ut.num_pieces then ut.last_piece_len else metadata_piece_sz

-- copy(dst[at:], b): as many bytes of `b` as `dst` has room for.
unfoldable pub copy_at : List ℕ → ℕ → List ℕ → List ℕ
copy_at [] at b = []
copy_at (x ∷ dst) (suc at) b = x ∷ copy_at dst at b
copy_at (x ∷ dst) zero [] = x ∷ dst
copy_at (x ∷ dst) zero (y ∷ b) = y ∷ copy_at dst zero b

abbrev block_written : UtMetadata → List ℕ → ℕ → ℕ → UtMetadata
block_written ut b i peer_ip = record ut {
  info_bytes = copy_at ut.info_bytes (i * metadata_piece_sz) b;
  owned_info_blocks = set ut.owned_info_blocks i true;
  contributors = ut.contributors ++ (peer_ip ∷ []);
}

-- utMetadata.writeBlock; the first test reads `ownedInfoBlocks[i]`, a panic out of range.
unfoldable pub write_block :
    UtMetadata → List ℕ → ℕ → ℕ → ℕ → Outcome MetadataError (UtMetadata × Bool)
unfolding metadata_complete metadata_piece_length copy_at
write_block ut b i total_size peer_ip = elim (get_elem? ut.owned_info_blocks i) [
  | none ↦ panic
  | some true ↦ ok (ut, false)
  | some false ↦
      let ut' = block_written ut b i peer_ip in
      if not (total_size == length ut.info_bytes)
      then panic
      else if leb (length ut.owned_info_blocks) i
      then err out_of_range
      else if not (length b == metadata_piece_length ut i)
      then err wrong_piece_length
      else ok (ut', metadata_complete ut')
]

-- utMetadata.readBlock, with the bytes that are copied to a buffer that is large enough.
unfoldable pub read_block : UtMetadata → ℕ → Outcome MetadataError (List ℕ)
read_block ut i =
    if leb ut.num_pieces i
    then err out_of_range
    else (let start = i * metadata_piece_sz in
        let end =
          if ltb i (ut.num_pieces - 1) then (i + 1) * metadata_piece_sz else length ut.info_bytes in
        ok (take (end - start) (drop start ut.info_bytes)))
