-- ===== src/Pieces.antt =====
-- torrent/piece.go, the type pieces: all pieces of a torrent, and how requests are handed out.
-- Every method holds the mutex from its first to its last access of these fields, so one call is
-- one step here. A pointer to a piece is its index in `pcs`. sort.Slice with the selector's Less
-- is `order`, an argument: what it promises is that it permutes (Pieces/Requests.antt).
use charo_torrent.Prelude.{
  ℕ, zero, suc, ◌+◌, ◌-◌, ◌*◌, ◌/◌, ◌%◌, ◌^◌, ◌<◌, ◌≤◌, ◌≡◌, ◌≢◌, ◌↔◌, ◌⊎◌, inl, inr, refl, sym, ap,
  ◌∙◌, Bool, true, false, not, ◌&&◌, ◌||◌, List, [], ◌∷◌, ◌++◌, map, Option, none, some, ltb, leb,
  ◌==◌, if◌then◌else◌, length, get_elem?, set, take, drop, replicate, All, Outcome, ok, err, panic,
  ◌>>=◌, arith, length-append, length-set, length-replicate, length-take, length-drop, take-append,
  drop-append, get_elem?-lt, get_elem?-ge, get_elem?-set_self, get_elem?-set_ne, ltb→lt, leb→le,
  ==→eq, ==_refl, Bool-cases, Option-cases,
}
pub mod Marking
pub mod Requests
pub mod Offers
pub mod EndGame
pub mod Fresh
use mathlib.Core.Option
use charo_torrent.Bitmap.{Bitmap}
use charo_torrent.Piece.{
  new_piece, Piece, Block, to_block, unrequested_blocks_slc, has_unrequested_blocks,
  count_unrequested, set_block_pending, set_block_unrequested, set_block_complete,
  set_all_unrequested, complete, block_len, verification_failed, verification_success,
}

pub record Pieces (B : Type 0) : Type 0 where
  pub block_size : ℕ
  pub owned_pieces : B
  pub pcs : List (Piece B)
  pub end_game : Bool
  pub download_enabled : Bool

-- What setBlockComplete tells the rest of the torrent, once it has released the lock.
pub record Signals : Type 0 where
  pub queue_for_hashing : Bool
  pub requests_available : Bool
  pub send_cancels : Option Block

module _ {B : Type 0} ⦃bm : Bitmap B⦄ where
  -- Applies `f` to the piece with index `i`; an index out of range is a panic.
  unfoldable pub modify : List (Piece B) → ℕ → (Piece B → Piece B) → Option (List (Piece B))
  modify pcs i f = Option.map (λ p. set pcs i (f p)) (get_elem? pcs i)

  abbrev with_pcs : Pieces B → List (Piece B) → Pieces B
  with_pcs ps pcs = record ps { pcs = pcs }

  unfoldable pub on_have : Pieces B → ℕ → Option (Pieces B)
  unfolding modify
  on_have ps i =
      Option.map (λ pcs. record ps { pcs = pcs })
        (modify ps.pcs i (λ p. record p { rarity = p.rarity + 1 }))

  unfoldable pub raise_all : List ℕ → List (Piece B) → Option (List (Piece B))
  unfolding modify
  raise_all [] pcs = some pcs
  raise_all (i ∷ is) pcs = elim (modify pcs i (λ p. record p { rarity = p.rarity + 1 })) [
    | none ↦ none
    | some pcs' ↦ raise_all is pcs'
  ]

  unfoldable pub on_bitfield : Pieces B → B → Option (Pieces B)
  unfolding raise_all
  on_bitfield ps b = Option.map (λ pcs. record ps { pcs = pcs }) (raise_all (bm.iter b) ps.pcs)

  unfoldable pub set_download_enabled : Pieces B → Bool → Pieces B
  set_download_enabled ps v = record ps { download_enabled = v }

  unfoldable pub filter_pieces : List (Piece B) → (Piece B → Bool) → List (Piece B)
  filter_pieces [] f = []
  filter_pieces (p ∷ pcs) f = let rest = filter_pieces pcs f in if f p then p ∷ rest else rest

  -- `piece.setBlockPending(b.off)` for each block of the slice
  unfoldable pub mark_pending : Piece B → List Block → Piece B
  mark_pending p [] = p
  mark_pending p (b ∷ bs) = mark_pending (set_block_pending p b.off) bs

  abbrev prepend : List Block → List (Piece B) × List Block → List (Piece B) × List Block
  prepend bs r = (r.0, bs ++ r.1)

  -- The loop over the sorted pieces, by their indices, with `room` slots of `requests` left. What
  -- `copy` does not find room for is dropped.
  unfoldable pub fill_loop : ℕ → Bool → List ℕ → ℕ → List (Piece B) → List (Piece B) × List Block
  unfolding mark_pending
  fill_loop s end_game [] room pcs = (pcs, [])
  fill_loop s end_game (i ∷ is) room pcs = elim (get_elem? pcs i) [
    | none ↦ (pcs, [])
    | some p ↦
        let unreq = unrequested_blocks_slc s p room in
        let pcs' = if not end_game then set pcs i (mark_pending p unreq) else pcs in
        let filled = take room unreq in
        let rest = fill_loop s end_game is (room - length filled) pcs' in
        if length filled == room then (pcs', filled) else prepend filled rest
  ]

  unfoldable pub candidates : Pieces B → B → List ℕ
  unfolding filter_pieces
  candidates ps peer_pieces =
      map (λ p. p.index)
        (filter_pieces ps.pcs (λ p. ltb 0 (count_unrequested p) && bm.get peer_pieces p.index))

  -- The new state and the blocks that were filled in, at most `total` of them.
  unfoldable pub fill_requests : (List ℕ → List ℕ) → Pieces B → B → ℕ → Pieces B × List Block
  unfolding candidates fill_loop
  fill_requests order ps peer_pieces total =
      if not ps.download_enabled
      then (ps, [])
      else (let r =
            fill_loop ps.block_size ps.end_game (order (candidates ps peer_pieces)) total ps.pcs in
          (record ps { pcs = r.0 }, r.1))

  unfoldable pub discard_loop : List Block → List (Piece B) → Option (List (Piece B))
  unfolding modify
  discard_loop [] pcs = some pcs
  discard_loop (b ∷ bs) pcs = elim (modify pcs b.pc (λ p. set_block_unrequested p b.off)) [
    | none ↦ none
    | some pcs' ↦ discard_loop bs pcs'
  ]

  unfoldable pub discard_requests : Pieces B → List Block → Option (Pieces B)
  unfolding discard_loop
  discard_requests ps bs = Option.map (λ pcs. record ps { pcs = pcs }) (discard_loop bs ps.pcs)

  unfoldable pub all_requested : List (Piece B) → Bool
  all_requested [] = true
  all_requested (p ∷ pcs) =
      let rest = all_requested pcs in if has_unrequested_blocks p then false else rest

  -- setAllUnrequested on the pieces that are not owned, from index `i` on.
  unfoldable pub unrequest_unowned : ℕ → B → ℕ → List (Piece B) → List (Piece B)
  unrequest_unowned s owned i [] = []
  unrequest_unowned s owned i (p ∷ pcs) =
      (if not (bm.get owned i) then set_all_unrequested s p else p)
      ∷ unrequest_unowned s owned (i + 1) pcs

  unfoldable pub maybe_start_endgame : Pieces B → Pieces B × Bool
  unfolding all_requested unrequest_unowned
  maybe_start_endgame ps = if ps.end_game || not (all_requested ps.pcs) then (ps, false) else (
    record ps { end_game = true; pcs = unrequest_unowned ps.block_size ps.owned_pieces 0 ps.pcs },
    true,
  )

  -- The deferred part of setBlockComplete, on the piece as the call leaves it.
  abbrev pub signals : Pieces B → Bool → ℕ → ℕ → Piece B → Signals
  signals ps started i off p = record {
    queue_for_hashing = complete p;
    requests_available = started;
    send_cancels =
        if started
        then none
        else if ps.end_game
        then some (record { pc = i; off = off; len = block_len ps.block_size p off })
        else none;
  }

  unfoldable pub complete_at : Pieces B → ℕ → ℕ → ℕ → Piece B → Pieces B × Signals
  unfolding maybe_start_endgame
  complete_at ps i off ci p =
      let p' = set_block_complete p ci off in
      let r = maybe_start_endgame (record ps { pcs = set ps.pcs i p' }) in
      (r.0, signals r.0 r.1 i off p')

  -- pieces.setBlockComplete
  unfoldable pub block_completed : Pieces B → ℕ → ℕ → ℕ → Option (Pieces B × Signals)
  unfolding complete_at
  block_completed ps i off ci = Option.map (complete_at ps i off ci) (get_elem? ps.pcs i)

  abbrev pub settle : Pieces B → ℕ → Option (Piece B) → Option (Pieces B × List ℕ)
  settle ps i none = none
  settle ps i (some p) =
      some (record ps { pcs = set ps.pcs i (record p { contributors = [] }) }, p.contributors)

  -- pieces.pieceHashed, with the connections whose good or bad contributions go up by one
  unfoldable pub piece_hashed : Pieces B → ℕ → Bool → Option (Pieces B × List ℕ)
  piece_hashed ps i correct = elim (get_elem? ps.pcs i) [
    | none ↦ none
    | some p ↦
        if correct
        then settle (record ps { owned_pieces = bm.put ps.owned_pieces i true }) i
            (verification_success p)
        else settle ps i (verification_failed p)
  ]

  unfoldable pub is_valid_index : Pieces B → ℕ → Bool
  is_valid_index ps i = ltb i (length ps.pcs)

  unfoldable pub is_last : Pieces B → ℕ → Bool
  is_last ps i = i + 1 == length ps.pcs

  -- `num_pieces` is t.numPieces().
  unfoldable pub owns_all : Pieces B → ℕ → Bool
  owns_all ps num_pieces = bm.len ps.owned_pieces == num_pieces

  -- newPieces, with the lengths of the pieces in order
  unfoldable pub make_pieces : ℕ → List ℕ → ℕ → List (Piece B)
  make_pieces s [] i = []
  make_pieces s (l ∷ ls) i = new_piece s l i ∷ make_pieces s ls (i + 1)

  unfoldable pub new_pieces : ℕ → List ℕ → Pieces B
  unfolding make_pieces
  new_pieces s lengths = record {
    block_size = s;
    owned_pieces = bm.empty;
    pcs = make_pieces s lengths 0;
    end_game = false;
    download_enabled = false;
  }
