-- ===== src/Selector.antt =====
-- torrent/piece_selector.go: the order in which DefaultPieceSelector prefers the pieces.
use charo_torrent.Prelude.{◌+◌, ◌≤◌, ◌≡◌, Bool, true, false, ◌&&◌, ltb, ◌==◌, if◌then◌else◌, arith}
use charo_torrent.Bitmap.{Bitmap}
use charo_torrent.Piece.{Piece, pending_blocks, count_unrequested, count_completed}

-- The field `next`: at random, until a piece has been downloaded, then by rarity.
pub data NextF : Type 0 where
  next_rand next_by_rarity : NextF

unfoldable pub on_piece_download : NextF → NextF
on_piece_download next = next_by_rarity

module _ {B : Type 0} ⦃bm : Bitmap B⦄ where
  -- completeness(p1) > completeness(p2): the difference of two sums, which may be negative.
  unfoldable pub more_complete : Piece B → Piece B → Bool
  more_complete p1 p2 =
      ltb (count_completed p2 + pending_blocks p2 + count_unrequested p1)
        (count_completed p1 + pending_blocks p1 + count_unrequested p2)

  -- `coin` is rand.Intn(2) == 1.
  unfoldable pub next_less : Bool → NextF → Piece B → Piece B → Bool
  next_less coin next_rand p1 p2 = coin
  next_less coin next_by_rarity p1 p2 = ltb p1.rarity p2.rarity

  unfoldable pub less : Bool → NextF → Piece B → Piece B → Bool
  unfolding more_complete next_less
  less coin next p1 p2 =
      if count_unrequested p1 == p1.blocks && count_unrequested p2 == p2.blocks
      then next_less coin next p1 p2
      else more_complete p1 p2

  -- The counters of a piece fit into its blocks.
  abbrev pub IsCounted : Piece B → Type 0
  IsCounted p = count_unrequested p + count_completed p ≤ p.blocks

  completed_and_pending :
      (p : Piece B)
      → IsCounted p
      → count_completed p + pending_blocks p + count_unrequested p ≡ p.blocks
  unfolding pending_blocks count_unrequested count_completed
  completed_and_pending p h = omega arith

  -- By rarity, no two pieces come before each other.
  pub less_asym :
      (coin : Bool) (p q : Piece B)
      → less coin next_by_rarity p q ≡ true
      → less coin next_by_rarity q p ≡ false
  unfolding less more_complete next_less
  less_asym coin p q h = ground arith

  -- By rarity, Less is transitive on pieces of the same number of blocks whose counters fit into it.
  pub less_trans :
      (coin : Bool) (p q r : Piece B)
      → IsCounted p
      → IsCounted q
      → IsCounted r
      → p.blocks ≡ q.blocks
      → q.blocks ≡ r.blocks
      → less coin next_by_rarity p q ≡ true
      → less coin next_by_rarity q r ≡ true
      → less coin next_by_rarity p r ≡ true
  unfolding less more_complete next_less
  less_trans coin p q r cp cq cr pq qr h k =
      ground
        (arith, completed_and_pending p cp, completed_and_pending q cq, completed_and_pending r cr)
