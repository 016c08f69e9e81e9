-- ===== src/Conn/Downloads.antt =====
-- The requests in flight, and which blocks are stored.
use charo_torrent.Prelude.{
  ℕ, ◌+◌, ◌-◌, ◌*◌, ◌/◌, ◌%◌, ◌<◌, ◌≤◌, ◌≡◌, ◌↔◌, inl, inr, refl, sym, ap, ◌∙◌, Bool, true, false,
  not, List, [], ◌∷◌, some, ltb, ◌==◌, if◌then◌else◌, length, get_elem?, set, take, Outcome, ok,
  err, panic, arith, length-append, length-take, get_elem?-ge, ==→eq, Bool-cases, Option-cases,
}
use native.Mathlib.Nat.{div-add-mod, mul-div_cancel, mul-mod_left}
use charo_torrent.Bitmap.{Bitmap}
use charo_torrent.Piece.{
  Piece, Block, block_len_safe, unrequested_blocks_slc, OffsetError, div_offset, large_offset,
}
use charo_torrent.Pieces.{
  Pieces, mark_pending, fill_loop, candidates, fill_requests, is_valid_index,
}
use charo_torrent.Conn.{
  Conn, max_on_flight, stored, check_block_len, want_blocks, add_requests, maybe_send_requests,
  check_unrequested,
}

check_block_len-stored :
    (bl : Block) (o : Outcome OffsetError ℕ) → (check_block_len bl o ≡ stored) ↔ (o ≡ ok bl.len)
unfolding check_block_len
check_block_len-stored bl (ok len) = (λ h. ground arith, λ h. ground arith)
check_block_len-stored bl (err div_offset) =
    (λ h. absurd (ground arith), λ h. absurd (ground arith))
check_block_len-stored bl (err large_offset) =
    (λ h. absurd (ground arith), λ h. absurd (ground arith))
check_block_len-stored bl panic = (λ h. absurd (ground arith), λ h. absurd (ground arith))

module _ {B : Type 0} ⦃bm : Bitmap B⦄ where
  length-fill_loop :
      (s : ℕ) (end_game : Bool) (is : List ℕ) (room : ℕ) (pcs : List (Piece B))
      → length (fill_loop s end_game is room pcs).1 ≤ room
  unfolding fill_loop
  length-fill_loop s end_game [] room pcs = omega arith
  length-fill_loop s end_game (i ∷ is) room pcs = elim (Option-cases (get_elem? pcs i)) [
    | inl e ↦ rw (fill_loop, e) (omega arith)
    | inr (p, e) ↦
        let filled = take room (unrequested_blocks_slc s p room) in
        let short : length filled ≤ room =
          omega (arith, length-take room (unrequested_blocks_slc s p room)) in
        elim (Bool-cases (length filled == room)) [
          | inl full ↦ rw (fill_loop, e, full) short
          | inr more ↦
              let pcs' =
                if not end_game
                then set pcs i (mark_pending p (unrequested_blocks_slc s p room))
                else pcs in
              let rest = (fill_loop s end_game is (room - length filled) pcs').1 in
              rw (fill_loop, e, more)
                (omega (
                  arith,
                  short,
                  length-append filled rest,
                  length-fill_loop s end_game is (room - length filled) pcs',
                ))
        ]
  ]

  length-fill_requests :
      (order : List ℕ → List ℕ) (ps : Pieces B) (peer_pieces : B) (total : ℕ)
      → length (fill_requests order ps peer_pieces total).1 ≤ total
  unfolding fill_requests
  length-fill_requests order ps peer_pieces total = ground (
    arith,
    length-fill_loop ps.block_size ps.end_game (order (candidates ps peer_pieces)) total ps.pcs,
  )

  length-add_requests :
      (sends : Block → Bool) (reqs : List Block) (c : Conn B)
      → length (add_requests sends reqs c).0.on_flight_reqs ≤ length c.on_flight_reqs + length reqs
  unfolding add_requests
  length-add_requests sends [] c = omega arith
  length-add_requests sends (req ∷ reqs) c =
      let ih = length-add_requests sends reqs in
      ground (
        arith,
        ih c,
        ih (record c { on_flight_reqs = req ∷ c.on_flight_reqs; requested = req ∷ c.requested }),
      )

  -- However many blocks are handed out, at most max_on_flight requests are in flight afterwards if
  -- no more were before.
  pub maybe_send_requests_bound :
      (order : List ℕ → List ℕ) (sends : Block → Bool) (num_pieces : ℕ) (c : Conn B) (ps : Pieces B)
      → length c.on_flight_reqs ≤ max_on_flight
      → length (maybe_send_requests order sends num_pieces c ps).0.on_flight_reqs ≤ max_on_flight
  unfolding maybe_send_requests
  maybe_send_requests_bound order sends num_pieces c ps h =
      let r = fill_requests order ps c.peer_bf (max_on_flight - length c.on_flight_reqs) in
      elim (Bool-cases (not (want_blocks num_pieces c))) [
        | inl enough ↦ rw (maybe_send_requests, enough) h
        | inr more ↦
            rw (maybe_send_requests, more)
              (omega (
                arith,
                h,
                length-add_requests sends r.1 c,
                length-fill_requests order ps c.peer_bf (max_on_flight - length c.on_flight_reqs),
              ))
      ]

  -- The offset and the length are those of a block of the piece: its blocks lie one after another
  -- and have the block size, but for the last one.
  abbrev pub IsBlockOf : ℕ → Piece B → Block → Type 0
  IsBlockOf s p bl =
      (k : ℕ) × (k < p.blocks)
      × (bl.off ≡ k * s)
      × (bl.len ≡ (if k + 1 == p.blocks then p.last_block_len else s))

  -- A block with the offset and the length of a block of a piece of the torrent.
  abbrev pub IsBlockOfPiece : Pieces B → Block → Type 0
  IsBlockOfPiece ps bl =
      (p : Piece B) × (get_elem? ps.pcs bl.pc ≡ some p) × IsBlockOf ps.block_size p bl

  block_len_safe-ok :
      (s : ℕ) (p : Piece B) (bl : Block)
      → 0 < s
      → block_len_safe s p bl.off ≡ ok bl.len
      → IsBlockOf s p bl
  unfolding block_len_safe
  block_len_safe-ok s p bl pos h = elim (Bool-cases (bl.off % s == 0)) [
    | inr between ↦ absurd (ground arith)
    | inl at_start ↦
        let whole : bl.off ≡ bl.off / s * s =
          omega (arith, div-add-mod bl.off s, ==→eq (bl.off % s) 0 at_start) in
        elim (Bool-cases (bl.off / s + 1 == p.blocks)) [
          | inl final ↦ (bl.off / s, ground arith, whole, rw final (ground arith))
          | inr inner ↦ elim (Bool-cases (ltb (bl.off / s + 1) p.blocks)) [
            | inl inside ↦ (bl.off / s, ground arith, whole, rw inner (ground arith))
            | inr past ↦ absurd (ground arith)
          ]
        ]
  ]

  block_len_safe-at :
      (s : ℕ) (p : Piece B) (k : ℕ)
      → 0 < s
      → k < p.blocks
      → block_len_safe s p (k * s) ≡ ok (if k + 1 == p.blocks then p.last_block_len else s)
  unfolding block_len_safe
  block_len_safe-at s p k pos inside =
      let rest : (k * s % s == 0) ≡ true = rw (mul-mod_left k s) refl in
      let quot : k * s / s ≡ k = mul-div_cancel k pos in
      elim (Bool-cases (k + 1 == p.blocks)) [
        | inl final ↦ rw (rest, quot, final) refl
        | inr inner ↦
            let more : ltb (k + 1) p.blocks ≡ true = ground arith in
            rw (rest, quot, inner, more) refl
      ]

  block_len_safe_iff :
      (s : ℕ) (p : Piece B) (bl : Block)
      → 0 < s
      → (block_len_safe s p bl.off ≡ ok bl.len) ↔ IsBlockOf s p bl
  block_len_safe_iff s p bl pos = (
    block_len_safe-ok s p bl pos,
    λ (k, inside, at, len).
        ap (block_len_safe s p) at ∙ block_len_safe-at s p k pos inside ∙ ap ok (sym len),
  )

  in_range :
      (ps : Pieces B) (i : ℕ) (p : Piece B)
      → get_elem? ps.pcs i ≡ some p
      → is_valid_index ps i ≡ true
  unfolding is_valid_index
  in_range ps i p e = elim (Bool-cases (ltb i (length ps.pcs))) [
    | inl inside ↦ inside
    | inr out ↦ absurd (ground (arith, get_elem?-ge ps.pcs i (ground arith)))
  ]

  -- What check_unrequested comes to once the piece is found.
  check_found :
      (c : Conn B) (ps : Pieces B) (bl : Block) (p : Piece B)
      → get_elem? ps.pcs bl.pc ≡ some p
      → c.have_info ≡ true
      → bm.get c.my_bf bl.pc ≡ false
      → 0 < ps.block_size
      → ((check_unrequested c ps bl).1 ≡ stored) ↔ IsBlockOf ps.block_size p bl
  unfolding check_unrequested
  check_found c ps bl p e info missing pos =
      let valid = in_range ps bl.pc p e in
      let len = block_len_safe_iff ps.block_size p bl pos in
      let goes_on : ((check_unrequested c ps bl).1 ≡ stored)
          ↔ (block_len_safe ps.block_size p bl.off ≡ ok bl.len) =
        rw (check_unrequested, info, valid, missing, e)
          (check_block_len-stored bl (block_len_safe ps.block_size p bl.off)) in
      (λ h. len.0 (goes_on.0 h), λ h. goes_on.1 (len.1 h))

  -- For blocks of a positive size, a block that was not requested goes on to the storage exactly when the metadata is known, its
  -- piece exists and is not owned, its offset is a multiple `k` of the block size with `k` below the piece's number of blocks, and
  -- its length is the block size, or the last block's length where it is the last one.
  pub check_unrequested-stored_iff :
      (c : Conn B) (ps : Pieces B) (bl : Block)
      → 0 < ps.block_size
      → ((check_unrequested c ps bl).1 ≡ stored)
        ↔ ((c.have_info ≡ true) × (bm.get c.my_bf bl.pc ≡ false) × IsBlockOfPiece ps bl)
  unfolding check_unrequested
  check_unrequested-stored_iff c ps bl pos = (
    λ h.
        let info : c.have_info ≡ true = ground arith in
        let missing : bm.get c.my_bf bl.pc ≡ false = ground arith in
        elim (Option-cases (get_elem? ps.pcs bl.pc)) [
          | inl e ↦ absurd (ground arith)
          | inr (p, e) ↦ (info, missing, (p, e, (check_found c ps bl p e info missing pos).0 h))
        ],
    λ (info, missing, (p, e, l)). (check_found c ps bl p e info missing pos).1 l,
  )
