-- ===== src/Pieces/Offers.antt =====
-- What fillRequests promises the connection that calls it.
use charo_torrent.Prelude.{
  ℕ, zero, suc, ◌<◌, ◌≡◌, ◌⊎◌, inl, inr, refl, sym, ap, ◌∙◌, Bool, true, ◌&&◌, List, [], ◌∷◌, map,
  some, ltb, ◌==◌, length, get_elem?, take, All, arith, length-append, length-take, take_all,
  All-imp, length-map, ==→eq, ==_refl, Bool-cases,
}
use charo_torrent.Misc.{contains}
use charo_torrent.Bitmap.{Bitmap}
use charo_torrent.Piece.{Piece, to_block, unrequested_blocks_slc, count_unrequested}
use charo_torrent.Pieces.{Pieces, fill_loop, candidates, fill_requests, filter_pieces}
use charo_torrent.Pieces.Marking.{AreValid, length-slc}
use charo_torrent.Pieces.Requests.{Fills, fill_loop-Fills, Fills-none}

module _ {B : Type 0} ⦃bm : Bitmap B⦄ where
  -- A piece of the list with index `i` that passes `f`.
  abbrev Found : List (Piece B) → (Piece B → Bool) → ℕ → Type 0
  Found pcs f i =
      (j : ℕ) × (p : Piece B) × (get_elem? pcs j ≡ some p) × (p.index ≡ i) × (f p ≡ true)

  later :
      (pcs : List (Piece B)) (f : Piece B → Bool) (i : ℕ) (q : Piece B)
      → Found pcs f i
      → Found (q ∷ pcs) f i
  later pcs f i q (j, p, e, x, h) = (suc j, p, e, x, h)

  -- Every piece of a filtered list is a piece of the list that passes.
  filter-Found :
      (pcs : List (Piece B)) (f : Piece B → Bool) (i : ℕ)
      → contains (map (λ p. p.index) (filter_pieces pcs f)) i ≡ true
      → Found pcs f i
  unfolding contains filter_pieces
  filter-Found [] f i h = absurd (ground arith)
  filter-Found (p ∷ pcs) f i h =
      let tail = later pcs f i p in
      elim (Bool-cases (f p)) [
        | inr out ↦ tail (filter-Found pcs f i (ground arith))
        | inl pass ↦ elim (Bool-cases (p.index == i)) [
          | inl e ↦ (0, p, refl, ==→eq _ _ e, pass)
          | inr e ↦ tail (filter-Found pcs f i (ground arith))
        ]
      ]

  Found-filter :
      (pcs : List (Piece B)) (f : Piece B → Bool) (j : ℕ) (p : Piece B)
      → get_elem? pcs j ≡ some p
      → f p ≡ true
      → contains (map (λ q. q.index) (filter_pieces pcs f)) p.index ≡ true
  unfolding contains filter_pieces
  Found-filter [] f j p e h = cc
  Found-filter (q ∷ pcs) f zero p e h = ground (arith, ==_refl p.index)
  Found-filter (q ∷ pcs) f (suc j) p e h = ground (arith, Found-filter pcs f j p e h)

  candidate-owned :
      (ps : Pieces B) (peer_pieces : B) (i : ℕ)
      → contains (candidates ps peer_pieces) i ≡ true
      → bm.get peer_pieces i ≡ true
  unfolding candidates
  candidate-owned ps peer_pieces i h =
      owned
        (filter-Found ps.pcs (λ p. ltb 0 (count_unrequested p) && bm.get peer_pieces p.index) i h)
    where
      owned :
          Found ps.pcs (λ p. ltb 0 (count_unrequested p) && bm.get peer_pieces p.index) i
          → bm.get peer_pieces i ≡ true
      owned (j, p, e, x, pass) = rw (sym x) (ground arith)

  -- fillRequests hands out at most `total` blocks, each an unrequested block of a piece that the
  -- peer has; outside the end game it marks every one of them, so that no later call hands it
  -- out. The pieces stay valid, no block becomes unrequested, and nothing is handed out while
  -- the download is disabled. `order` is any reordering that makes up no index, blocks
  -- have a positive size and the pieces are valid.
  pub fill_requests-Fills :
      (order : List ℕ → List ℕ) (ps : Pieces B) (peer_pieces : B) (total : ℕ)
      → ((xs : List ℕ) (i : ℕ) → contains (order xs) i ≡ true → contains xs i ≡ true)
      → 0 < ps.block_size
      → AreValid ps.block_size ps.pcs
      → (let r = fill_requests order ps peer_pieces total in
          Fills ps.block_size ps.end_game
            (order (candidates ps peer_pieces))
            ps.pcs
            total
            r.0.pcs
            r.1
          × All (λ b. bm.get peer_pieces b.pc ≡ true) r.1
          × ((ps.download_enabled ≡ true) ⊎ (r.1 ≡ [])))
  unfolding fill_requests candidates fill_loop
  fill_requests-Fills order ps peer_pieces total keeps pos v =
      let is = order (candidates ps peer_pieces) in
      let fills = fill_loop-Fills ps.block_size ps.end_game is total ps.pcs pos v in
      elim (Bool-cases ps.download_enabled) [
        | inl on ↦
            rw (fill_requests, on)
              (
                fills,
                All-imp _ _ (fill_loop ps.block_size ps.end_game is total ps.pcs).1
                    (λ b h. candidate-owned ps peer_pieces b.pc (keeps _ b.pc h)) fills.known,
                inl refl,
              )
        | inr off ↦
            rw (fill_requests, off)
              (Fills-none ps.block_size ps.end_game is ps.pcs total v, tt, inr refl)
      ]

  slc_some :
      (s : ℕ) (p : Piece B) (room : ℕ)
      → 0 < room
      → 0 < count_unrequested p
      → 0 < length (unrequested_blocks_slc s p room)
  unfolding unrequested_blocks_slc count_unrequested
  slc_some s p room space has =
      let xs = take room (bm.iter p.unrequested_blocks) in
      omega (
        arith,
        has,
        length-map xs (to_block s p),
        length-take room (bm.iter p.unrequested_blocks),
        bm.length-iter p.unrequested_blocks,
      )

  fill_loop-some :
      (s : ℕ) (end_game : Bool) (i : ℕ) (is : List ℕ) (room : ℕ) (pcs : List (Piece B))
      (p : Piece B)
      → get_elem? pcs i ≡ some p
      → 0 < room
      → 0 < count_unrequested p
      → 0 < length (fill_loop s end_game (i ∷ is) room pcs).1
  unfolding fill_loop
  fill_loop-some s end_game i is room pcs p e space has =
      let unreq = unrequested_blocks_slc s p room in
      let all = take_all room unreq (length-slc s p room) in
      let some_block = slc_some s p room space has in
      rw (fill_loop, e, all)
        (elim (Bool-cases (length unreq == room)) [
          | inl full ↦ rw full some_block
          | inr more ↦ rw more (omega (arith, some_block, length-append unreq _))
        ])

  first_some :
      (s : ℕ) (end_game : Bool) (is : List ℕ) (j room : ℕ) (pcs : List (Piece B))
      → contains is j ≡ true
      → ((i : ℕ)
          → contains is i ≡ true
          → (p : Piece B) × (get_elem? pcs i ≡ some p) × (0 < count_unrequested p))
      → 0 < room
      → 0 < length (fill_loop s end_game is room pcs).1
  unfolding contains
  first_some s end_game [] j room pcs h f space = absurd (ground arith)
  first_some s end_game (i ∷ is) j room pcs h f space =
      let (p, e, has) = f i (ground (arith, ==_refl i)) in
      fill_loop-some s end_game i is room pcs p e space has

  candidate-piece :
      (ps : Pieces B) (peer_pieces : B) (i : ℕ)
      → AreValid ps.block_size ps.pcs
      → contains (candidates ps peer_pieces) i ≡ true
      → (p : Piece B) × (get_elem? ps.pcs i ≡ some p) × (0 < count_unrequested p)
  unfolding candidates
  candidate-piece ps peer_pieces i v h =
      let (j, p, e, x, pass) =
        filter-Found ps.pcs (λ p. ltb 0 (count_unrequested p) && bm.get peer_pieces p.index) i h in
      let same = sym (v.indexed j p e) ∙ x in
      (p, sym (ap (get_elem? ps.pcs) same) ∙ e, ground arith)

  piece-candidate :
      (ps : Pieces B) (peer_pieces : B) (j : ℕ) (p : Piece B)
      → get_elem? ps.pcs j ≡ some p
      → p.index ≡ j
      → bm.get peer_pieces j ≡ true
      → 0 < count_unrequested p
      → contains (candidates ps peer_pieces) j ≡ true
  unfolding candidates
  piece-candidate ps peer_pieces j p e x has unreq =
      ap (contains _) (sym x)
      ∙ Found-filter ps.pcs (λ q. ltb 0 (count_unrequested q) && bm.get peer_pieces q.index) j p e
          (rw x (ground arith))

  -- While the download is enabled and there is room, a connection whose peer has a piece with an
  -- unrequested block is handed out at least one block, when the pieces are valid and `order` keeps
  -- the indices.
  pub fill_requests_progress :
      (order : List ℕ → List ℕ) (ps : Pieces B) (peer_pieces : B) (total j : ℕ) (p : Piece B)
      → ((xs : List ℕ) (i : ℕ) → contains (order xs) i ≡ contains xs i)
      → AreValid ps.block_size ps.pcs
      → ps.download_enabled ≡ true
      → 0 < total
      → get_elem? ps.pcs j ≡ some p
      → bm.get peer_pieces j ≡ true
      → 0 < count_unrequested p
      → 0 < length (fill_requests order ps peer_pieces total).1
  unfolding fill_requests
  fill_requests_progress order ps peer_pieces total j p keeps v on room e has unreq =
      let cand = piece-candidate ps peer_pieces j p e (v.indexed j p e) has unreq in
      rw (fill_requests, on)
        (first_some ps.block_size ps.end_game (order (candidates ps peer_pieces)) j total ps.pcs
          (keeps _ j ∙ cand) (λ i h. candidate-piece ps peer_pieces i v (sym (keeps _ i) ∙ h)) room)
