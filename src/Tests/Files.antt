-- ===== src/Tests/Files.antt =====
-- The theorems about the storage of a torrent at concrete inputs.
use charo_torrent.Prelude.{
  ℕ, zero, suc, ◌+◌, ◌<◌, ◌≤◌, ◌≡◌, ◌⊎◌, inl, inr, refl, sym, ap, ◌∙◌, Bool, true, false, [], ◌∷◌,
  ◌++◌, Option, none, some, ◌==◌, if◌then◌else◌, length, get_elem?, take, replicate, ok, err, arith,
  length-take, Bool-cases, Option-cases,
}
use charo_torrent.Prelude.Bytes.{Bytes}
use charo_torrent.MetaInfo.{
  InfoDict, files_info, piece_hash, piece_length, num_pieces, total_length, sum_lengths,
}
use charo_torrent.Storage.Blocks.{
  DirtyPiece, reserve_offset, ready_for_verification, mark_complete, mark_not_complete,
}
use charo_torrent.Misc.{contains}
use charo_torrent.Storage.Spread.{Written, get_elem?-take, write_at}
use charo_torrent.Storage.ReadAt.{
  FileReader, FileRead, fine, at_end, opened, missing, Read, no_error, limit, read_loop,
  read_opened, read_file_at, read_in_file, read_at, lies,
}
use charo_torrent.Storage.ReadAt.Bytes.{IsRead}
use charo_torrent.Storage.ReadAt.Whole.{read_at-IsRead}
use charo_torrent.Storage.ReadAt.RoundTrip.{ReadsBack, read_at-write_at}
use charo_torrent.Storage.Files.{
  Hashing, FileStorage, already_written, file_lens, piece_index, piece_off, compare_loop,
  compare_hashes, piece_at, write_block, read_block, hash_matches, mark_hashed, hash_piece_bytes,
  hash_piece_checked, data_verified, data_complete, new_pieces, open_file_storage,
}
use charo_torrent.Storage.Files.Opening.{HaveSizes, open_file_storage_cases}
use charo_torrent.Storage.Files.Reach.{Steps, none_yet, and_then, wrote, hashed}
use charo_torrent.Storage.Files.Served.{
  IsVerifiedData, read_block-IsVerifiedData, write_block_verified,
}
use charo_torrent.Tests.Storage.{Disk, disk_file_system, all_distinct, blank, write_at_succeeds}

abbrev pushed : Option ℕ → FileRead → FileRead
pushed none r = record { bytes = []; error = at_end }
pushed (some b) r = record r { bytes = b ∷ r.bytes }

-- The bytes of a file up to the first that is missing, `n` at most.
abbrev read_bytes : (ℕ → Option ℕ) → ℕ → ℕ → FileRead
read_bytes f zero off = record { bytes = []; error = fine }
read_bytes f (suc n) off = pushed (f off) (read_bytes f n (off + 1))

length-read_bytes : (f : ℕ → Option ℕ) (n off : ℕ) → length (read_bytes f n off).bytes ≤ n
length-read_bytes f zero off = omega arith
length-read_bytes f (suc n) off =
    let rest = read_bytes f n (off + 1) in
    elim (f off) as (λ o. length (pushed o rest).bytes ≤ suc n) [
      | none ↦ omega arith
      | some b ↦ omega (arith, length-read_bytes f n (off + 1))
    ]

read_bytes_from :
    (f : ℕ → Option ℕ) (n off k : ℕ)
    → k < length (read_bytes f n off).bytes
    → get_elem? (read_bytes f n off).bytes k ≡ f (off + k)
read_bytes_from f zero off k l = absurd (omega arith)
read_bytes_from f (suc n) off zero l = elim (Option-cases (f off)) [
  | inl e ↦ let bad : 0 < 0 = rw e at l in absurd (omega (arith, bad))
  | inr (b, e) ↦ rw e (sym e ∙ ap f (omega arith))
]
read_bytes_from f (suc n) off (suc k) l = elim (Option-cases (f off)) [
  | inl e ↦ let bad : suc k < 0 = rw e at l in absurd (omega (arith, bad))
  | inr (b, e) ↦
      let rest : suc k < suc (length (read_bytes f n (off + 1)).bytes) = rw e at l in
      rw e (read_bytes_from f n (off + 1) k (omega (arith, rest)) ∙ ap f (omega arith))
]

read_bytes_fine :
    (f : ℕ → Option ℕ) (n off : ℕ)
    → (read_bytes f n off).error ≡ fine
    → length (read_bytes f n off).bytes ≡ n
read_bytes_fine f zero off h = refl
read_bytes_fine f (suc n) off h = elim (Option-cases (f off)) [
  | inl e ↦ let bad : at_end ≡ fine = rw e at h in absurd (cc)
  | inr (b, e) ↦
      let rest : (read_bytes f n (off + 1)).error ≡ fine = rw e at h in
      rw e (ap suc (read_bytes_fine f n (off + 1) rest))
]

read_bytes-at_end :
    (f : ℕ → Option ℕ) (n off : ℕ)
    → (read_bytes f n off).error ≡ at_end
    → f (off + length (read_bytes f n off).bytes) ≡ none
read_bytes-at_end f zero off h = absurd (cc)
read_bytes-at_end f (suc n) off h = elim (Option-cases (f off)) [
  | inl e ↦ rw e (ap f (omega arith) ∙ e)
  | inr (b, e) ↦
      let rest : (read_bytes f n (off + 1)).error ≡ at_end = rw e at h in
      rw e (ap f (omega arith) ∙ read_bytes-at_end f n (off + 1) rest)
]

never_missing : (d : Disk) (i o : ℕ) → opened ≡ missing → d i o ≡ none
never_missing d i o h = absurd (cc)

instance abbrev disk_reader : FileReader Disk
disk_reader = record {
  open_file = λ d i. opened;
  read_file = λ d i n off. read_bytes (d i) n off;
  open_file-missing = never_missing;
  length-read_file = λ d i n off. length-read_bytes (d i) n off;
  read_file-byte = λ d i n off k l. read_bytes_from (d i) n off k l;
  read_file-fine = λ d i n off h. read_bytes_fine (d i) n off h;
  read_file-at_end = λ d i n off h. read_bytes-at_end (d i) n off h;
}

read_at-IsRead_example : IsRead (3 ∷ 2 ∷ []) 0 blank 3 1 (read_at (3 ∷ 2 ∷ []) 0 blank 3 1)
read_at-IsRead_example = read_at-IsRead (3 ∷ 2 ∷ []) 0 blank 3 1 (omega arith)

read_at-write_at_example :
    ReadsBack
      (7 ∷ 8 ∷ 9 ∷ [])
      (read_at (3 ∷ 2 ∷ []) 0 (write_at (3 ∷ 2 ∷ []) 0 blank (7 ∷ 8 ∷ 9 ∷ []) 1).disk 3 1)
read_at-write_at_example =
    read_at-write_at (3 ∷ 2 ∷ []) 0 blank (7 ∷ 8 ∷ 9 ∷ []) 1 all_distinct (omega arith)
      (omega arith) write_at_succeeds

reads_across :
    read_at (3 ∷ 2 ∷ []) 0 (write_at (3 ∷ 2 ∷ []) 0 blank (7 ∷ 8 ∷ 9 ∷ []) 1).disk 4 0
    ≡ record { bytes = 0 ∷ 7 ∷ 8 ∷ 9 ∷ []; error = no_error }
unfolding write_at read_at read_in_file read_file_at read_opened read_loop limit lies
reads_across = refl

-- A copy of a section by one read, and a digest that is the first twenty bytes.
abbrev copy_once : (ℕ → ℕ → Read) → ℕ → ℕ → Bytes
copy_once read off n = if n == 0 then [] else take n (read n off).bytes

length-copy_once : (read : ℕ → ℕ → Read) (off n : ℕ) → length (copy_once read off n) ≤ n
length-copy_once read off n = elim (Bool-cases (n == 0)) [
  | inl z ↦ rw z (omega arith)
  | inr s ↦ rw s (ground (arith, length-take n (read n off).bytes))
]

abbrev digest : Bytes → Bytes
digest b = take 20 (b ++ replicate 20 0)

copy_once_from :
    (read : ℕ → ℕ → Read) (at : ℕ → Option ℕ) (off n : ℕ)
    → ((len o k : ℕ)
        → 0 < len
        → k < length (read len o).bytes
        → get_elem? (read len o).bytes k ≡ at (o + k))
    → (k : ℕ) → k < length (copy_once read off n)
    → get_elem? (copy_once read off n) k ≡ at (off + k)
copy_once_from read at off n h k l = elim (Bool-cases (n == 0)) [
  | inl z ↦ let bad : k < 0 = rw z at l in absurd (omega (arith, bad))
  | inr s ↦
      let taken : k < length (take n (read n off).bytes) = rw s at l in
      let size = length-take n (read n off).bytes in
      rw s (
        get_elem?-take n (read n off).bytes k (ground (arith, taken, size))
        ∙ h n off k (ground arith) (ground (arith, taken, size)))
]

abbrev hashing : Hashing
hashing = record {
  sha1 = digest;
  copy = copy_once;
  length-copy = length-copy_once;
  copy_from = copy_once_from;
}

-- Six bytes in two files of three, in pieces of four and two.
abbrev info : InfoDict
info = record {
  files =
      some (record { len = 3; md5 = []; path = [] } ∷ record { len = 3; md5 = []; path = [] } ∷ []);
  len = 0;
  md5 = [];
  name = [];
  piece_len = 4;
  pieces = digest (7 ∷ 8 ∷ 9 ∷ 1 ∷ []) ++ digest (0 ∷ 0 ∷ []);
  private = 0;
  hash = [];
}

abbrev sizes : ℕ → Option ℕ
sizes i = some 3

abbrev fresh : FileStorage Disk
fresh = record {
  disk = blank;
  mi = info;
  pieces =
      record { blocks = 1; dirty_blocks = []; verified = false }
      ∷ record { blocks = 1; dirty_blocks = []; verified = false }
      ∷ [];
}

opens : open_file_storage hashing sizes info blank (1 ∷ 1 ∷ []) ≡ some (fresh, false)
unfolding open_file_storage data_complete new_pieces data_verified hash_piece_bytes hash_matches
    mark_hashed mark_not_complete mark_complete compare_hashes compare_loop piece_hash piece_length
    piece_off num_pieces files_info total_length sum_lengths read_at read_in_file read_file_at
    read_opened read_loop limit lies
opens = refl

abbrev block : Bytes
block = 7 ∷ 8 ∷ 9 ∷ 1 ∷ []

abbrev written : Written Disk
written = write_at (3 ∷ 3 ∷ []) 0 blank block 0

abbrev stored : FileStorage Disk
stored = record {
  disk = written.disk;
  mi = info;
  pieces =
      record { blocks = 1; dirty_blocks = 0 ∷ []; verified = false }
      ∷ record { blocks = 1; dirty_blocks = []; verified = false }
      ∷ [];
}

abbrev checked : FileStorage Disk
checked = record {
  disk = written.disk;
  mi = info;
  pieces =
      record { blocks = 1; dirty_blocks = []; verified = true }
      ∷ record { blocks = 1; dirty_blocks = []; verified = false }
      ∷ [];
}

writes_it : write_block fresh block 0 ≡ ok (stored, written)
unfolding write_block piece_at piece_index reserve_offset contains files_info
writes_it = refl

hashes_it : hash_piece_checked hashing stored 0 4 ≡ some (checked, true)
unfolding hash_piece_checked ready_for_verification hash_piece_bytes hash_matches mark_hashed
    mark_complete compare_hashes compare_loop piece_hash piece_off files_info write_at read_at
    read_in_file read_file_at read_opened read_loop limit lies
hashes_it = refl

abbrev two_bytes : Read
two_bytes = record { bytes = 8 ∷ 9 ∷ []; error = no_error }

serves_it : read_block checked 2 1 ≡ ok two_bytes
unfolding read_block piece_at piece_index files_info write_at read_at read_in_file read_file_at
    read_opened read_loop limit lies
serves_it = refl

first_len : piece_length info 0 ≡ some 4
unfolding piece_length num_pieces
first_len = refl

abbrev run : Steps hashing fresh checked
run =
    and_then stored checked
      (and_then fresh stored none_yet (wrote block 0 written (omega arith) writes_it))
      (hashed 0 4 true first_len hashes_it)

read_block-IsVerifiedData_example : IsVerifiedData hashing info 1 two_bytes
read_block-IsVerifiedData_example =
    read_block-IsVerifiedData hashing sizes info blank (1 ∷ 1 ∷ []) fresh checked false 2 1
      two_bytes all_distinct opens run (omega arith) serves_it

write_block_verified_example : write_block checked block 2 ≡ err already_written
write_block_verified_example =
    write_block_verified hashing checked checked
      (record { blocks = 1; dirty_blocks = []; verified = true }) block 2 none_yet (omega arith)
      refl refl

open_file_storage_cases_example :
    ((◌≡◌ {A = Bool} false true)
      × HaveSizes sizes (file_lens info)
      × ((i : ℕ) (p : DirtyPiece) → get_elem? fresh.pieces i ≡ some p → p.verified ≡ true))
    ⊎ ((◌≡◌ {A = Bool} false false)
        × ((¬ HaveSizes sizes (file_lens info))
            ⊎ ((i : ℕ) × (p : DirtyPiece) × (get_elem? fresh.pieces i ≡ some p)
                × (p.verified ≡ false))))
open_file_storage_cases_example =
    open_file_storage_cases hashing sizes info blank (1 ∷ 1 ∷ []) fresh false opens
