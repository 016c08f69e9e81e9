-- ===== src/Storage/Files/Reach.antt =====
-- The life of a storage: it is opened, then blocks are written and pieces are hashed.
use charo_torrent.Prelude.{
  ℕ, zero, suc, ◌+◌, ◌-◌, ◌%◌, ◌≤◌, ◌≡◌, inl, inr, refl, ap, ◌∙◌, Bool, false, List, [], ◌∷◌,
  Option, some, length, get_elem?, ok, arith, Bool-cases, Option-cases,
}
use mathlib.Core.Path.{subst}
use charo_torrent.Prelude.Bytes.{Bytes}
use charo_torrent.MetaInfo.{InfoDict, piece_length, num_pieces}
use charo_torrent.Storage.Spread.{FileSystem, AreDistinctFiles, Written}
use charo_torrent.Storage.ReadAt.{FileReader}
use charo_torrent.Storage.Blocks.{DirtyPiece}
use charo_torrent.Storage.Files.{
  Hashing, FileStorage, file_lens, write_block, hash_piece_bytes, hash_piece_checked, data_verified,
  data_complete, new_pieces, open_file_storage,
}
use charo_torrent.Storage.Files.Verified.{
  AreOnDisk, Hashed, Hashed-AreOnDisk, hash_piece_bytes-Hashed,
}
use charo_torrent.Storage.Files.Writes.{write_block-AreOnDisk}

-- No piece of a new storage is verified.
new_pieces_fresh :
    (n : ℕ) (blocks : List ℕ) (ps : List DirtyPiece) (i : ℕ) (p : DirtyPiece)
    → new_pieces n blocks ≡ some ps
    → get_elem? ps i ≡ some p
    → p.verified ≡ false
unfolding new_pieces
new_pieces_fresh zero blocks [] i p e at = absurd (cc)
new_pieces_fresh zero blocks (q ∷ qs) i p e at = absurd (cc)
new_pieces_fresh (suc n) [] ps i p e at = absurd (cc)
new_pieces_fresh (suc n) (b ∷ bs) [] i p e at = absurd (cc)
new_pieces_fresh (suc n) (b ∷ bs) (q ∷ qs) i p e at = elim (Option-cases (new_pieces n bs)) [
  | inl gone ↦ absurd (ground arith)
  | inr (rest, r) ↦
      let same : rest ≡ qs = ground arith in
      let first : q.verified ≡ false = ground arith in
      later q qs i p first at (new_pieces_fresh n bs qs (i - 1) p (r ∙ ap some same))
]
  where
    later :
        (q : DirtyPiece) (qs : List DirtyPiece) (i : ℕ) (p : DirtyPiece)
        → q.verified ≡ false
        → get_elem? (q ∷ qs) i ≡ some p
        → (get_elem? qs (i - 1) ≡ some p → p.verified ≡ false)
        → p.verified ≡ false
    later q qs zero p first at ih = ground arith
    later q qs (suc i) p first at ih = ih (ap (get_elem? qs) (omega arith) ∙ at)

module _ {D : Type 0} ⦃fs : FileSystem D⦄ ⦃reader : FileReader D⦄ where
  -- A block is written inside its piece, as the connections do, or a piece is hashed with its
  -- length.
  pub data Step (h : Hashing) (s s' : FileStorage D) : Type 0 where
    wrote :
        (p : Bytes) (off : ℕ) (w : Written D)
        → off % s.mi.piece_len + length p ≤ s.mi.piece_len
        → write_block s p off ≡ ok (s', w)
        → Step h s s'
    hashed :
        (i n : ℕ) (correct : Bool)
        → piece_length s.mi i ≡ some n
        → hash_piece_checked h s i n ≡ some (s', correct)
        → Step h s s'

  pub data Steps (h : Hashing) (s : FileStorage D) : FileStorage D → Type 0 where
    none_yet : Steps h s s
    and_then : (s1 s2 : FileStorage D) → Steps h s s1 → Step h s1 s2 → Steps h s s2

  pub hash_piece_checked-Hashed :
      (h : Hashing) (s s' : FileStorage D) (i n : ℕ) (correct : Bool)
      → hash_piece_checked h s i n ≡ some (s', correct)
      → Hashed h s i n s' correct
        × ((p : DirtyPiece) → get_elem? s.pieces i ≡ some p → p.verified ≡ false)
  unfolding hash_piece_checked
  hash_piece_checked-Hashed h s s' i n correct e = elim (Option-cases (get_elem? s.pieces i)) [
    | inl gone ↦ absurd (ground arith)
    | inr (p, there) ↦
        let run : hash_piece_bytes h s i n ≡ some (s', correct) = ground arith in
        (hash_piece_bytes-Hashed h s s' i n correct run, λ q at. ground arith)
  ]

  -- The storage is of the torrent `mi`, and what it holds for verified is on the disk.
  abbrev pub IsSound : Hashing → InfoDict → FileStorage D → Type 0
  IsSound h mi s = (s.mi ≡ mi) × AreOnDisk h s

  Step-IsSound :
      (h : Hashing) (mi : InfoDict) (s s' : FileStorage D)
      → AreDistinctFiles D fs
      → Step h s s'
      → IsSound h mi s
      → IsSound h mi s'
  Step-IsSound h mi s s' distinct (wrote p off w fits e) (same, ih) =
      let r = write_block-AreOnDisk h s s' p off w distinct e fits ih in (r.0 ∙ same, r.1)
  Step-IsSound h mi s s' distinct (hashed i n c len e) (same, ih) =
      let r = Hashed-AreOnDisk h s s' i n c len (hash_piece_checked-Hashed h s s' i n c e).0 ih in
      (r.0 ∙ same, r.1)

  pub Steps-IsSound :
      (h : Hashing) (mi : InfoDict) (s s' : FileStorage D)
      → AreDistinctFiles D fs
      → Steps h s s'
      → IsSound h mi s
      → IsSound h mi s'
  Steps-IsSound h mi s s' distinct none_yet ih = ih
  Steps-IsSound h mi s s' distinct (and_then s1 s2 before step) ih =
      Step-IsSound h mi s1 s2 distinct step (Steps-IsSound h mi s s1 distinct before ih)

  data_verified-IsSound :
      (h : Hashing) (mi : InfoDict) (n i : ℕ) (s s' : FileStorage D) (seed : Bool)
      → data_verified h s n i ≡ some (s', seed)
      → IsSound h mi s
      → IsSound h mi s'
  unfolding data_verified
  data_verified-IsSound h mi zero i s s' seed e ih =
      let same : s ≡ s' = ground arith in subst (IsSound h mi) same ih
  data_verified-IsSound h mi (suc n) i s s' seed e (same, ih) =
      elim (Option-cases (piece_length s.mi i)) [
        | inl gone ↦ absurd (ground arith)
        | inr (len, l) ↦ elim (Option-cases (hash_piece_bytes h s i len)) [
          | inl gone ↦ absurd (ground arith)
          | inr ((s1, c), m) ↦
              let r =
                Hashed-AreOnDisk h s s1 i len c l (hash_piece_bytes-Hashed h s s1 i len c m) ih in
              elim (Bool-cases c) [
                | inl right ↦
                    data_verified-IsSound h mi n (i + 1) s1 s' seed (ground arith) (r.0 ∙ same, r.1)
                | inr wrong ↦
                    let stays : s1 ≡ s' = ground arith in
                    subst (IsSound h mi) stays (r.0 ∙ same, r.1)
              ]
        ]
      ]

  pub open_file_storage-IsSound :
      (h : Hashing) (sizes : ℕ → Option ℕ) (mi : InfoDict) (d : D) (blocks : List ℕ)
      (s : FileStorage D) (seed : Bool)
      → open_file_storage h sizes mi d blocks ≡ some (s, seed)
      → IsSound h mi s
  unfolding open_file_storage
  open_file_storage-IsSound h sizes mi d blocks s seed e =
      elim (Option-cases (new_pieces (num_pieces mi) blocks)) [
        | inl gone ↦ absurd (ground arith)
        | inr (ps, fresh) ↦
            let s0 : FileStorage D = record { disk = d; mi = mi; pieces = ps } in
            let ok0 : IsSound h mi s0 = (
              refl,
              λ i p at done.
                  absurd (ground (arith, new_pieces_fresh (num_pieces mi) blocks ps i p fresh at)),
            ) in
            elim (Bool-cases (data_complete sizes (file_lens mi) 0)) [
              | inl full ↦ data_verified-IsSound h mi (length ps) 0 s0 s seed (ground arith) ok0
              | inr short ↦ let stays : s0 ≡ s = ground arith in subst (IsSound h mi) stays ok0
            ]
      ]
