-- ===== src/Storage/Files/Served.antt =====
-- What ReadBlock serves to the peers, and what becomes of a verified piece.
use charo_torrent.Prelude.{
  ℕ, ◌+◌, ◌/◌, ◌%◌, ◌<◌, ◌≡◌, inl, inr, refl, sym, ap, ◌∙◌, Bool, true, List, Option, some, ◌==◌,
  length, get_elem?, ok, err, arith, get_elem?-set, ==→eq, Bool-cases, Option-cases,
}
use mathlib.Core.Path.{subst}
use native.Mathlib.Nat.{div-add-mod}
use charo_torrent.Prelude.Bytes.{Bytes}
use charo_torrent.MetaInfo.{InfoDict, piece_hash, piece_length}
use charo_torrent.Storage.Spread.{FileSystem, AreDistinctFiles, byte_at}
use charo_torrent.Storage.ReadAt.{FileReader, Read, read_at}
use charo_torrent.Storage.ReadAt.Whole.{read_at-IsRead}
use charo_torrent.Storage.Blocks.{DirtyPiece, reserve_offset}
use charo_torrent.Storage.Files.{
  Hashing, FileStorage, already_written, file_lens, piece_index, piece_off, piece_at, write_block,
  read_block, open_file_storage,
}
use charo_torrent.Storage.Files.Verified.{AreOnDisk}
use charo_torrent.Storage.Files.Writes.{write_block-Wrote}
use charo_torrent.Storage.Files.Reach.{
  Step, wrote, hashed, Steps, none_yet, and_then, Steps-IsSound, open_file_storage-IsSound,
  hash_piece_checked-Hashed,
}

-- The bytes `r` are read at `off`, and are those of data that has the hash of its piece.
abbrev pub IsVerifiedData : Hashing → InfoDict → ℕ → Read → Type 0
IsVerifiedData h mi off r =
    (bs : Bytes) × (piece_hash mi (off / mi.piece_len) ≡ some (h.sha1 bs))
    × (piece_length mi (off / mi.piece_len) ≡ some (length bs))
    × ((k : ℕ)
        → k < length r.bytes
        → off % mi.piece_len + k < length bs
        → get_elem? r.bytes k ≡ get_elem? bs (off % mi.piece_len + k))

module _ {D : Type 0} ⦃fs : FileSystem D⦄ ⦃reader : FileReader D⦄ where
  read_block-piece :
      (s : FileStorage D) (len off : ℕ) (r : Read)
      → read_block s len off ≡ ok r
      → (p : DirtyPiece) × (get_elem? s.pieces (off / s.mi.piece_len) ≡ some p)
        × (p.verified ≡ true)
        × (0 < s.mi.piece_len)
        × (r ≡ read_at (file_lens s.mi) 0 s.disk len off)
  unfolding read_block piece_at piece_index
  read_block-piece s len off r e = elim (Bool-cases (s.mi.piece_len == 0)) [
    | inl zero_len ↦ absurd (ground arith)
    | inr some_len ↦ elim (Option-cases (get_elem? s.pieces (off / s.mi.piece_len))) [
      | inl gone ↦ absurd (ground arith)
      | inr (p, there) ↦ (p, there, ground arith, ground arith, ground arith)
    ]
  ]

  sound_read :
      (h : Hashing) (s : FileStorage D) (len off : ℕ) (r : Read)
      → AreOnDisk h s
      → 0 < len
      → read_block s len off ≡ ok r
      → IsVerifiedData h s.mi off r
  unfolding piece_off
  sound_read h s len off r ih some_room e =
      let (p, there, done, some_len, eq) = read_block-piece s len off r e in
      let (n, bs, l, size, hash, from) = ih (off / s.mi.piece_len) p there done in
      let got = (read_at-IsRead (file_lens s.mi) 0 s.disk len off some_room).1 in
      subst (IsVerifiedData h s.mi off) (sym eq) (
        bs,
        hash,
        l ∙ ap some (sym size),
        λ k m inside.
            got k m
            ∙ ap (byte_at (file_lens s.mi) 0 s.disk) (omega (arith, div-add-mod off s.mi.piece_len))
            ∙ sym (from (off % s.mi.piece_len + k) inside),
      )

  -- Whatever blocks were written and whatever pieces were hashed since the storage was opened, a block that
  -- ReadBlock gives is, as far as it lies in its piece, a part of data that has the piece's length and its SHA-1 in the
  -- info dictionary. The torrent's entries name different files, blocks are written inside their pieces, and the buffer is not empty.
  pub read_block-IsVerifiedData :
      (h : Hashing) (sizes : ℕ → Option ℕ) (mi : InfoDict) (d : D) (blocks : List ℕ)
      (s s' : FileStorage D) (seed : Bool) (len off : ℕ) (r : Read)
      → AreDistinctFiles D fs
      → open_file_storage h sizes mi d blocks ≡ some (s, seed)
      → Steps h s s'
      → 0 < len
      → read_block s' len off ≡ ok r
      → IsVerifiedData h mi off r
  read_block-IsVerifiedData h sizes mi d blocks s s' seed len off r distinct opens steps some_room
        e =
      let (same, sound) =
        Steps-IsSound h mi s s' distinct steps
          (open_file_storage-IsSound h sizes mi d blocks s seed opens) in
      subst (λ m. IsVerifiedData h m off r) same (sound_read h s' len off r sound some_room e)

  Step-keeps :
      (h : Hashing) (s s' : FileStorage D) (i : ℕ) (p : DirtyPiece)
      → Step h s s'
      → get_elem? s.pieces i ≡ some p
      → p.verified ≡ true
      → (s'.mi ≡ s.mi) × (get_elem? s'.pieces i ≡ some p)
  Step-keeps h s s' i p (wrote bs off w fits e) at done =
      let (q, q', l, there, before, after, eq) = write_block-Wrote s s' bs off w e in
      let j = off / s.mi.piece_len in
      (
        ap (λ r. r.mi) eq,
        ap (λ r. get_elem? r.pieces i) eq
            ∙ ground (arith, get_elem?-set s.pieces j i q' q there, ==→eq j i),
      )
  Step-keeps h s s' i p (hashed j n c len e) at done =
      let ((q, q', there, m, eq, v), fresh) = hash_piece_checked-Hashed h s s' j n c e in
      (
        ap (λ r. r.mi) eq,
        ap (λ r. get_elem? r.pieces i) eq
            ∙ ground (arith, get_elem?-set s.pieces j i q' q there, ==→eq j i, fresh q there),
      )

  Steps-keeps :
      (h : Hashing) (s s' : FileStorage D) (i : ℕ) (p : DirtyPiece)
      → Steps h s s'
      → get_elem? s.pieces i ≡ some p
      → p.verified ≡ true
      → (s'.mi ≡ s.mi) × (get_elem? s'.pieces i ≡ some p)
  Steps-keeps h s s' i p none_yet at done = (refl, at)
  Steps-keeps h s s' i p (and_then s1 s2 before step) at done =
      let (same, at1) = Steps-keeps h s s1 i p before at done in
      let (same2, at2) = Step-keeps h s1 s2 i p step at1 done in (same2 ∙ same, at2)

  -- A piece that the storage holds for verified, as one that was found right when it was opened, stays so: every
  -- later write into it, at any offset, is refused with ErrAlreadyWritten.
  pub write_block_verified :
      (h : Hashing) (s s' : FileStorage D) (p : DirtyPiece) (bs : Bytes) (off : ℕ)
      → Steps h s s'
      → 0 < s.mi.piece_len
      → get_elem? s.pieces (off / s.mi.piece_len) ≡ some p
      → p.verified ≡ true
      → write_block s' bs off ≡ err already_written
  unfolding write_block piece_at piece_index reserve_offset
  write_block_verified h s s' p bs off steps some_len at done =
      let (same, at') = Steps-keeps h s s' (off / s.mi.piece_len) p steps at done in
      ground (arith, ap (λ (m : InfoDict). m.piece_len) same, at', done)
