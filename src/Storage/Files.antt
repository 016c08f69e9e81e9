-- ===== src/Storage/Files.antt =====
-- torrent/storage/filestorage.go: the storage of a torrent, its files and what it knows of each piece.
pub mod Verified
pub mod Writes
pub mod Reach
pub mod Opening
pub mod Served
use charo_torrent.Prelude.{
  ℕ, zero, suc, ◌+◌, ◌-◌, ◌*◌, ◌/◌, ◌%◌, ◌^◌, ◌<◌, ◌≤◌, ◌≡◌, ◌≢◌, ◌↔◌, ◌⊎◌, inl, inr, refl, sym, ap,
  ◌∙◌, Bool, true, false, not, ◌&&◌, ◌||◌, List, [], ◌∷◌, ◌++◌, map, Option, none, some, ltb, leb,
  ◌==◌, if◌then◌else◌, length, get_elem?, set, take, drop, replicate, All, Outcome, ok, err, panic,
  ◌>>=◌, arith, length-append, length-set, length-replicate, length-take, length-drop, take_all,
  take-append, drop-append, get_elem?-lt, get_elem?-ge, get_elem?-set, All-take, All-append,
  All-imp, length-map, get_elem?-set_self, get_elem?-set_ne, ltb→lt, leb→le, ==→eq, ==_refl,
  Bool-cases, Option-cases,
}
use charo_torrent.Prelude.Bytes.{Bytes, bytes_eq}
use charo_torrent.MetaInfo.{File, InfoDict, files_info, piece_hash, piece_length, num_pieces}
use charo_torrent.Storage.Spread.{FileSystem, Written, write_at}
use charo_torrent.Storage.ReadAt.{FileReader, Read, read_at}
use charo_torrent.Storage.Blocks.{
  DirtyPiece, reserve_offset, ready_for_verification, mark_complete, mark_not_complete,
}

-- The SHA-1 of the bytes that io.Copy takes from an io.SectionReader, which are not part of the
-- repository. `copy read off n` is what is copied of the `n` bytes of the section at `off`, where
-- `read len off` is the ReadAt below it. The laws are what io documents: the section gives no
-- more than `n` bytes, and those that `read` gives.
pub record Hashing : Type 0 where
  pub sha1 : Bytes → Bytes
  pub copy : (ℕ → ℕ → Read) → ℕ → ℕ → Bytes
  pub length-copy : (read : ℕ → ℕ → Read) (off n : ℕ) → length (copy read off n) ≤ n
  pub copy_from :
      (read : ℕ → ℕ → Read) (at : ℕ → Option ℕ) (off n : ℕ)
      → ((len o k : ℕ)
          → 0 < len
          → k < length (read len o).bytes
          → get_elem? (read len o).bytes k ≡ at (o + k))
      → (k : ℕ) → k < length (copy read off n)
      → get_elem? (copy read off n) k ≡ at (off + k)

-- FileStorage, with the disk that it works on.
pub record FileStorage (D : Type 0) : Type 0 where
  pub disk : D
  pub mi : InfoDict
  pub pieces : List DirtyPiece

-- The errors of the storage's own.
pub data StorageError : Type 0 where
  read_non_verified : StorageError
  already_written : StorageError

abbrev pub file_lens : InfoDict → List ℕ
file_lens mi = map (λ (f : File). f.len) (files_info mi)

-- A division by zero is a panic, `none`.
unfoldable pub piece_index : InfoDict → ℕ → Option ℕ
piece_index mi off = if mi.piece_len == 0 then none else some (off / mi.piece_len)

unfoldable pub piece_off : InfoDict → ℕ → ℕ
piece_off mi i = i * mi.piece_len

-- The loop of compareHashes over two slices of one length.
unfoldable pub compare_loop : Bytes → Bytes → Bool
compare_loop [] ys = true
compare_loop (x ∷ xs) [] = true
compare_loop (x ∷ xs) (y ∷ ys) = let rest = compare_loop xs ys in if x == y then rest else false

unfoldable pub compare_hashes : Bytes → Bytes → Bool
compare_hashes a b = if length a == length b then compare_loop a b else false

-- The piece at a byte of the torrent: an index that is out of range is a panic.
unfoldable pub piece_at : {D : Type 0} → FileStorage D → ℕ → Option (ℕ × DirtyPiece)
unfolding piece_index
piece_at s off = elim (piece_index s.mi off) [
  | none ↦ none
  | some i ↦ elim (get_elem? s.pieces i) [ none ↦ none | some p ↦ some (i, p) ]
]

module _ {D : Type 0} ⦃fs : FileSystem D⦄ where
  unfoldable pub write_block :
      FileStorage D → Bytes → ℕ → Outcome StorageError (FileStorage D × Written D)
  write_block s p off = elim (piece_at s off) [
    | none ↦ panic
    | some (i, piece) ↦
        let reserved = reserve_offset piece off in
        let w = write_at (file_lens s.mi) 0 s.disk p off in
        if reserved.1
        then ok (record s { disk = w.disk; pieces = set s.pieces i reserved.0 }, w)
        else err already_written
  ]

module _ {D : Type 0} ⦃fs : FileSystem D⦄ ⦃reader : FileReader D⦄ where
  unfoldable pub read_block : FileStorage D → ℕ → ℕ → Outcome StorageError Read
  read_block s len off = elim (piece_at s off) [
    | none ↦ panic
    | some (i, piece) ↦
        if piece.verified
        then ok (read_at (file_lens s.mi) 0 s.disk len off)
        else err read_non_verified
  ]

  -- Whether the piece's `n` bytes are read and their hash is the one in the info dictionary,
  -- where a hash that is not there is a panic.
  unfoldable pub hash_matches : Hashing → FileStorage D → ℕ → ℕ → Option Bool
  hash_matches h s i n =
      let got = h.copy (read_at (file_lens s.mi) 0 s.disk) (piece_off s.mi i) n in
      if length got == n
      then elim (piece_hash s.mi i) [
        | none ↦ none
        | some actual ↦ some (compare_hashes (h.sha1 got) actual)
      ]
      else some false

  -- Marking the piece in the deferred function of hashPiece; marking a verified piece is a panic.
  unfoldable pub mark_hashed : FileStorage D → ℕ → DirtyPiece → Bool → Option (FileStorage D)
  mark_hashed s i p correct =
      if correct
      then elim (mark_complete p) [
        | none ↦ none
        | some p' ↦ some (record s { pieces = set s.pieces i p' })
      ]
      else some (record s { pieces = set s.pieces i (mark_not_complete p) })

  -- hashPiece, for a piece of `n` bytes; `none` is a panic.
  unfoldable pub hash_piece_bytes : Hashing → FileStorage D → ℕ → ℕ → Option (FileStorage D × Bool)
  unfolding mark_hashed
  hash_piece_bytes h s i n = elim (get_elem? s.pieces i) [
    | none ↦ none
    | some p ↦ elim (hash_matches h s i n) [
      | none ↦ none
      | some correct ↦ elim (mark_hashed s i p correct) [
        | none ↦ none
        | some s' ↦ some (s', correct)
      ]
    ]
  ]

  -- HashPiece; `none` is a panic or the end of the program.
  unfoldable pub hash_piece_checked :
      Hashing → FileStorage D → ℕ → ℕ → Option (FileStorage D × Bool)
  hash_piece_checked h s i n = elim (get_elem? s.pieces i) [
    | none ↦ none
    | some p ↦
        if p.verified
        then none
        else if not (ready_for_verification p)
        then none
        else hash_piece_bytes h s i n
  ]

  -- dataVerified from piece `i` on, of the `n` pieces that are left.
  unfoldable pub data_verified : Hashing → FileStorage D → ℕ → ℕ → Option (FileStorage D × Bool)
  unfolding piece_length
  data_verified h s zero i = some (s, true)
  data_verified h s (suc n) i = elim (piece_length s.mi i) [
    | none ↦ none
    | some len ↦ elim (hash_piece_bytes h s i len) [
      | none ↦ none
      | some (s', true) ↦ data_verified h s' n (i + 1)
      | some (s', false) ↦ some (s', false)
    ]
  ]

-- dataComplete, where `sizes` gives what os.Stat says of each file: its size, or an error.
unfoldable pub data_complete : (ℕ → Option ℕ) → List ℕ → ℕ → Bool
data_complete sizes [] i = true
data_complete sizes (len ∷ lens) i =
    let rest = data_complete sizes lens (i + 1) in
    elim (sizes i) [ none ↦ false | some size ↦ if ltb size len then false else rest ]

-- The pieces of a new storage, where `blocks` says how many blocks each has. Fewer entries than pieces are a panic.
unfoldable pub new_pieces : ℕ → List ℕ → Option (List DirtyPiece)
new_pieces zero blocks = some []
new_pieces (suc n) [] = none
new_pieces (suc n) (b ∷ bs) = elim (new_pieces n bs) [
  | none ↦ none
  | some rest ↦ some (record { blocks = b; dirty_blocks = []; verified = false } ∷ rest)
]

module _ {D : Type 0} ⦃fs : FileSystem D⦄ ⦃reader : FileReader D⦄ where
  -- OpenFileStorage: the storage, and whether it is ready for seeding.
  unfoldable pub open_file_storage :
      Hashing → (ℕ → Option ℕ) → InfoDict → D → List ℕ → Option (FileStorage D × Bool)
  open_file_storage h sizes mi d blocks = elim (new_pieces (num_pieces mi) blocks) [
    | none ↦ none
    | some pieces ↦
        let s : FileStorage D = record { disk = d; mi = mi; pieces = pieces } in
        if data_complete sizes (file_lens mi) 0
        then data_verified h s (length pieces) 0
        else some (s, false)
  ]
