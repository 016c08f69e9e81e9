-- ===== src/Storage/Files/Verified.antt =====
-- The pieces that the storage holds for verified are on the disk, with the hashes of the info dictionary.
use charo_torrent.Prelude.{
  ℕ, ◌≡◌, inl, inr, refl, sym, ap, ◌∙◌, Bool, true, false, [], ◌∷◌, some, ◌==◌, length, get_elem?,
  set, arith, get_elem?-set, ==→eq, Bool-cases, Option-cases,
}
use mathlib.Core.Path.{subst}
use charo_torrent.Prelude.Bytes.{Bytes}
use charo_torrent.MetaInfo.{InfoDict, piece_hash, piece_length}
use charo_torrent.Storage.Spread.{FileSystem, byte_at}
use charo_torrent.Storage.ReadAt.{FileReader, read_at}
use charo_torrent.Storage.ReadAt.Bytes.{AreFrom}
use charo_torrent.Storage.ReadAt.Whole.{read_at-IsRead}
use charo_torrent.Storage.Blocks.{DirtyPiece, mark_complete, mark_not_complete}
use charo_torrent.Storage.Files.{
  Hashing, FileStorage, file_lens, piece_off, compare_loop, compare_hashes, hash_matches,
  mark_hashed, hash_piece_bytes,
}

compare_loop-eq : (a b : Bytes) → length a ≡ length b → compare_loop a b ≡ true → a ≡ b
unfolding compare_loop
compare_loop-eq [] [] l h = refl
compare_loop-eq [] (y ∷ ys) l h = absurd (omega (arith, l))
compare_loop-eq (x ∷ xs) [] l h = absurd (omega (arith, l))
compare_loop-eq (x ∷ xs) (y ∷ ys) l h = elim (Bool-cases (x == y)) [
  | inl same ↦
      let first = ==→eq x y same in
      let rest = compare_loop-eq xs ys (omega (arith, l)) (rw same at h) in cc
  | inr other ↦ absurd (ground arith)
]

pub compare_hashes-eq : (a b : Bytes) → compare_hashes a b ≡ true → a ≡ b
unfolding compare_hashes
compare_hashes-eq a b h = elim (Bool-cases (length a == length b)) [
  | inl same ↦ compare_loop-eq a b (==→eq _ _ same) (rw same at h)
  | inr other ↦ absurd (ground arith)
]

module _ {D : Type 0} ⦃fs : FileSystem D⦄ ⦃reader : FileReader D⦄ where
  -- The bytes of piece `i` are on the disk, as many as the piece has, with the hash of the piece.
  abbrev pub OnDisk : Hashing → InfoDict → D → ℕ → Type 0
  OnDisk h mi d i =
      (n : ℕ) × (bs : Bytes) × (piece_length mi i ≡ some n)
      × (length bs ≡ n)
      × (piece_hash mi i ≡ some (h.sha1 bs))
      × AreFrom (byte_at (file_lens mi) 0 d) (piece_off mi i) bs

  abbrev pub AreOnDisk : Hashing → FileStorage D → Type 0
  AreOnDisk h s =
      (i : ℕ) (p : DirtyPiece)
      → get_elem? s.pieces i ≡ some p
      → p.verified ≡ true
      → OnDisk h s.mi s.disk i

  hash_matches-OnDisk :
      (h : Hashing) (s : FileStorage D) (i n : ℕ)
      → piece_length s.mi i ≡ some n
      → hash_matches h s i n ≡ some true
      → OnDisk h s.mi s.disk i
  unfolding hash_matches
  hash_matches-OnDisk h s i n e m =
      let read = read_at (file_lens s.mi) 0 s.disk in
      let got = h.copy read (piece_off s.mi i) n in
      elim (Bool-cases (length got == n)) [
        | inr short ↦ absurd (ground arith)
        | inl full ↦ elim (Option-cases (piece_hash s.mi i)) [
          | inl gone ↦ absurd (ground arith)
          | inr (actual, there) ↦
              let same : compare_hashes (h.sha1 got) actual ≡ true = ground arith in
              (
                n,
                got,
                e,
                ==→eq _ _ full,
                there ∙ ap some (sym (compare_hashes-eq (h.sha1 got) actual same)),
                h.copy_from read (byte_at (file_lens s.mi) 0 s.disk) (piece_off s.mi i) n
                    (λ len o k room l. (read_at-IsRead (file_lens s.mi) 0 s.disk len o room).1 k l),
              )
        ]
      ]

  -- What hashing a piece does: the piece is marked, and the rest of the storage stays.
  abbrev pub Hashed : Hashing → FileStorage D → ℕ → ℕ → FileStorage D → Bool → Type 0
  Hashed h s i n s' correct =
      (p : DirtyPiece) × (p' : DirtyPiece) × (get_elem? s.pieces i ≡ some p)
      × (hash_matches h s i n ≡ some correct)
      × (s' ≡ record s { pieces = set s.pieces i p' })
      × (p'.verified ≡ correct)

  mark_hashed_lem :
      (s s' : FileStorage D) (i : ℕ) (p : DirtyPiece) (correct : Bool)
      → mark_hashed s i p correct ≡ some s'
      → (p' : DirtyPiece) × (s' ≡ record s { pieces = set s.pieces i p' }) × (p'.verified ≡ correct)
  unfolding mark_hashed mark_complete mark_not_complete
  mark_hashed_lem s s' i p false e = (mark_not_complete p, cc, refl)
  mark_hashed_lem s s' i p true e = elim (Bool-cases p.verified) [
    | inl done ↦ absurd (ground arith)
    | inr fresh ↦ (record p { verified = true; dirty_blocks = [] }, ground arith, refl)
  ]

  pub hash_piece_bytes-Hashed :
      (h : Hashing) (s s' : FileStorage D) (i n : ℕ) (correct : Bool)
      → hash_piece_bytes h s i n ≡ some (s', correct)
      → Hashed h s i n s' correct
  unfolding hash_piece_bytes
  hash_piece_bytes-Hashed h s s' i n correct e = elim (Option-cases (get_elem? s.pieces i)) [
    | inl gone ↦ absurd (ground arith)
    | inr (p, there) ↦ elim (Option-cases (hash_matches h s i n)) [
      | inl gone ↦ absurd (ground arith)
      | inr (c, m) ↦ elim (Option-cases (mark_hashed s i p c)) [
        | inl gone ↦ absurd (ground arith)
        | inr (s2, marked) ↦
            let same : correct ≡ c = ground arith in
            let to : s2 ≡ s' = ground arith in
            let (p', eq, v) = mark_hashed_lem s s2 i p c marked in
            (p, p', there, m ∙ ap some (sym same), sym to ∙ eq, v ∙ sym same)
      ]
    ]
  ]

  pub Hashed-AreOnDisk :
      (h : Hashing) (s s' : FileStorage D) (i n : ℕ) (correct : Bool)
      → piece_length s.mi i ≡ some n
      → Hashed h s i n s' correct
      → AreOnDisk h s
      → (s'.mi ≡ s.mi) × AreOnDisk h s'
  Hashed-AreOnDisk h s s' i n correct len (p, p', there, m, eq, v) ih =
      subst (λ r. (r.mi ≡ s.mi) × AreOnDisk h r) (sym eq)
        (
          refl,
          λ j q at done. elim (Bool-cases (i == j)) [
            | inl same ↦
                let now : correct ≡ true = ground (arith, get_elem?-set s.pieces i j p' p there) in
                subst (OnDisk h s.mi s.disk) (==→eq i j same)
                  (hash_matches-OnDisk h s i n len (m ∙ ap some now))
            | inr other ↦ ih j q (ground (arith, get_elem?-set s.pieces i j p' p there)) done
          ],
        )
