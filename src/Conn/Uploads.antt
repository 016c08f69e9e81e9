-- ===== src/Conn/Uploads.antt =====
-- Which requests of a peer are served.
use charo_torrent.Prelude.{
  ℕ, ◌+◌, ◌≤◌, ◌≡◌, ◌⊎◌, inl, inr, refl, true, not, ◌||◌, List, [], ◌∷◌, ltb, All, arith,
  Bool-cases,
}
use mathlib.Core.Path.{subst}
use charo_torrent.Bitmap.{Bitmap}
use charo_torrent.Piece.{Block}
use charo_torrent.Conn.{
  Conn, max_request_block_sz, UploadResult, served, skipped, refused_request, upload_one, upload,
}

module _ {B : Type 0} ⦃bm : Bitmap B⦄ where
  -- A request within a piece that is owned, of a size that is allowed, while the peer may download.
  pub record IsServable (piece_len : ℕ → ℕ) (c : Conn B) (req : Block) : Type 0 where
    pub info : c.have_info ≡ true
    pub open_to_peer : c.can_upload ≡ true
    pub small : req.len ≤ max_request_block_sz
    pub owned : bm.get c.my_bf req.pc ≡ true
    pub in_piece : req.off + req.len ≤ piece_len req.pc

  upload_one-served :
      (piece_len : ℕ → ℕ) (c : Conn B) (req : Block)
      → (upload_one piece_len c req).1 ≡ served
      → IsServable piece_len c req
  unfolding upload_one
  upload_one-served piece_len c req h = record {
    info = ground arith;
    open_to_peer = ground arith;
    small = ground arith;
    owned = ground arith;
    in_piece = ground arith;
  }

  upload_one-keeps :
      (piece_len : ℕ → ℕ) (c : Conn B) (req : Block)
      → ((upload_one piece_len c req).1 ≡ refused_request) ⊎ ((upload_one piece_len c req).0 ≡ c)
  unfolding upload_one
  upload_one-keeps piece_len c req = elim (Bool-cases c.have_info) [
    | inr no_info ↦ inl (ground arith)
    | inl info ↦ elim (Bool-cases c.can_upload) [
      | inr closed ↦ inr (ground arith)
      | inl opened ↦
          elim (Bool-cases (
            ltb max_request_block_sz req.len
            || (not (bm.get c.my_bf req.pc) || ltb (piece_len req.pc) (req.off + req.len)))) [
              | inl bad ↦ inl (ground arith)
              | inr good ↦ inr (ground arith)
            ]
    ]
  ]

  -- Whatever the peer asks for, each request that is served is for at most 16 KiB that lie within
  -- a piece that is owned, when the metadata is known and the peer is unchoked and interested.
  pub upload-IsServable :
      (piece_len : ℕ → ℕ) (c : Conn B) (reqs : List Block)
      → All (IsServable piece_len c) (upload piece_len c reqs).1
  unfolding upload
  upload-IsServable piece_len c [] = tt
  upload-IsServable piece_len c (req ∷ reqs) =
      let ih = upload-IsServable piece_len (upload_one piece_len c req).0 reqs in
      elim (upload_one-keeps piece_len c req) [
        | inl refuse ↦ rw (upload, refuse) tt
        | inr same ↦
            by_result same
              (subst
                (λ c'.
                  All (IsServable piece_len c')
                    (upload piece_len (upload_one piece_len c req).0 reqs).1)
                same ih)
              (upload_one piece_len c req).1 refl
      ]
    where
      by_result :
          (upload_one piece_len c req).0 ≡ c
          → All (IsServable piece_len c) (upload piece_len (upload_one piece_len c req).0 reqs).1
          → (r : UploadResult) → (upload_one piece_len c req).1 ≡ r
          → All (IsServable piece_len c) (upload piece_len c (req ∷ reqs)).1
      by_result same ih refused_request e = rw (upload, e) tt
      by_result same ih served e = rw (upload, e) (upload_one-served piece_len c req e, ih)
      by_result same ih skipped e = rw (upload, e) ih
