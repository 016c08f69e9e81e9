-- ===== src/Storage/Files/Writes.antt =====
-- A block is written only into a piece that is not verified: the verified pieces stay on the disk.
use charo_torrent.Prelude.{
  ℕ, suc, ◌+◌, ◌*◌, ◌/◌, ◌%◌, ◌<◌, ◌≤◌, ◌≡◌, ◌≢◌, inl, inr, refl, sym, ◌∙◌, false, ◌||◌, ◌∷◌, some,
  ltb, ◌==◌, length, get_elem?, set, ok, arith, get_elem?-lt, get_elem?-set, Bool-cases,
  Option-cases,
}
use mathlib.Core.Path.{subst}
use native.Mathlib.Nat.{div-add-mod, mod-lt, mul-le-mul_right}
use charo_torrent.Prelude.Bytes.{Bytes}
use charo_torrent.MetaInfo.{InfoDict, piece_length, num_pieces, total_length}
use charo_torrent.Storage.Spread.{FileSystem, AreDistinctFiles, Written, write_at, byte_at}
use charo_torrent.Storage.Spread.Outside.{IsOutside, write_at_outside}
use charo_torrent.Storage.ReadAt.{FileReader}
use charo_torrent.Storage.Blocks.{DirtyPiece, reserve_offset}
use charo_torrent.Storage.Files.{
  Hashing, FileStorage, file_lens, piece_index, piece_off, piece_at, write_block,
}
use charo_torrent.Misc.{contains}
use charo_torrent.Storage.Files.Verified.{OnDisk, AreOnDisk}

piece_length-le :
    (mi : InfoDict) (i n : ℕ) → 0 < mi.piece_len → piece_length mi i ≡ some n → n ≤ mi.piece_len
unfolding piece_length
piece_length-le mi i n some_len e = elim (Bool-cases (i + 1 == num_pieces mi)) [
  | inl last ↦ let small = mod-lt (total_length mi) some_len in ground (arith, small)
  | inr inner ↦ ground arith
]

-- Pieces do not overlap: a write into piece `off / len` is outside every other piece.
other_piece :
    (len off n j k : ℕ)
    → 0 < len
    → off % len + n ≤ len
    → k < len
    → off / len ≢ j
    → IsOutside off n (j * len + k)
other_piece len off n j k some_len fits l ne = elim (Bool-cases (ltb j (off / len))) [
  | inl before ↦
      let below = mul-le-mul_right {m = suc j} {n = off / len} len (ground arith) in
      inl (omega (arith, below, div-add-mod off len, l))
  | inr past ↦
      let above = mul-le-mul_right {m = suc (off / len)} {n = j} len (ground arith) in
      inr (omega (arith, above, div-add-mod off len, fits))
]

module _ {D : Type 0} ⦃fs : FileSystem D⦄ ⦃reader : FileReader D⦄ where
  -- What a write does: the piece at the offset was not verified, and is not afterwards.
  abbrev pub Wrote : FileStorage D → Bytes → ℕ → FileStorage D → Type 0
  Wrote s p off s' =
      (q : DirtyPiece) × (q' : DirtyPiece) × (0 < s.mi.piece_len)
      × (get_elem? s.pieces (off / s.mi.piece_len) ≡ some q)
      × (q.verified ≡ false)
      × (q'.verified ≡ false)
      × (s' ≡ record s {
        disk = (write_at (file_lens s.mi) 0 s.disk p off).disk;
        pieces = set s.pieces (off / s.mi.piece_len) q';
      })

  pub write_block-Wrote :
      (s s' : FileStorage D) (p : Bytes) (off : ℕ) (w : Written D)
      → write_block s p off ≡ ok (s', w)
      → Wrote s p off s'
  unfolding write_block piece_at piece_index reserve_offset
  write_block-Wrote s s' p off w e = elim (Bool-cases (s.mi.piece_len == 0)) [
    | inl zero_len ↦ absurd (ground arith)
    | inr some_len ↦ elim (Option-cases (get_elem? s.pieces (off / s.mi.piece_len))) [
      | inl gone ↦ absurd (ground arith)
      | inr (q, there) ↦ elim (Bool-cases (contains q.dirty_blocks off || q.verified)) [
        | inl refused ↦ absurd (ground arith)
        | inr let_in ↦ (
          q,
          record q { dirty_blocks = off ∷ q.dirty_blocks },
          ground arith,
          there,
          ground arith,
          ground arith,
          ground arith,
        )
      ]
    ]
  ]

  same_bytes_kept :
      (h : Hashing) (mi : InfoDict) (d d' : D) (i : ℕ)
      → 0 < mi.piece_len
      → ((k b : ℕ)
          → k < mi.piece_len
          → byte_at (file_lens mi) 0 d (piece_off mi i + k) ≡ some b
          → byte_at (file_lens mi) 0 d' (piece_off mi i + k) ≡ some b)
      → OnDisk h mi d i
      → OnDisk h mi d' i
  same_bytes_kept h mi d d' i some_len same (n, bs, len, l, hash, from) = (
    n,
    bs,
    len,
    l,
    hash,
    λ k m.
        let (b, at) = get_elem?-lt bs k m in
        at
        ∙ sym (
            same k b (omega (arith, m, l, piece_length-le mi i n some_len len))
              (sym (from k m) ∙ at)),
  )

  -- A write inside one piece keeps the verified pieces on the disk.
  pub write_block-AreOnDisk :
      (h : Hashing) (s s' : FileStorage D) (p : Bytes) (off : ℕ) (w : Written D)
      → AreDistinctFiles D fs
      → write_block s p off ≡ ok (s', w)
      → off % s.mi.piece_len + length p ≤ s.mi.piece_len
      → AreOnDisk h s
      → (s'.mi ≡ s.mi) × AreOnDisk h s'
  unfolding piece_off
  write_block-AreOnDisk h s s' p off w distinct e fits ih =
      let (q, q', some_len, there, before, after, eq) = write_block-Wrote s s' p off w e in
      let i = off / s.mi.piece_len in
      let d' = (write_at (file_lens s.mi) 0 s.disk p off).disk in
      subst (λ r. (r.mi ≡ s.mi) × AreOnDisk h r) (sym eq)
        (
          refl,
          λ j r at done. elim (Bool-cases (i == j)) [
            | inl same ↦ absurd (ground (arith, get_elem?-set s.pieces i j q' q there))
            | inr other ↦
                same_bytes_kept h s.mi s.disk d' j some_len
                  (λ k b l.
                    write_at_outside (file_lens s.mi) 0 s.disk p off (j * s.mi.piece_len + k) b
                      distinct
                      (other_piece s.mi.piece_len off (length p) j k some_len fits l
                        (ground arith)))
                  (ih j r (ground (arith, get_elem?-set s.pieces i j q' q there)) done)
          ],
        )
