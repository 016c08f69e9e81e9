-- ===== src/Piece.antt =====
-- torrent/piece.go, the type Piece: which blocks of a piece are unrequested, pending or complete.
-- A block is named by its offset, a multiple of the torrent's blockRequestSize, `s` below.
-- `-` on ℕ stops at 0: PendingBlocks is exact under the invariant of Piece/Invariant.antt.
pub mod Count
pub mod Invariant
pub mod Lengths
pub mod Counters
use charo_torrent.Prelude.{
  ℕ, zero, suc, ◌+◌, ◌-◌, ◌*◌, ◌/◌, ◌%◌, ◌^◌, ◌<◌, ◌≤◌, ◌≡◌, ◌≢◌, ◌↔◌, ◌⊎◌, inl, inr, refl, sym, ap,
  ◌∙◌, Bool, true, false, not, ◌&&◌, ◌||◌, List, [], ◌∷◌, ◌++◌, map, Option, none, some, ltb, leb,
  ◌==◌, if◌then◌else◌, length, get_elem?, set, take, drop, replicate, All, Outcome, ok, err, panic,
  ◌>>=◌, arith, length-append, length-set, length-replicate, length-take, length-drop, take-append,
  drop-append, get_elem?-lt, get_elem?-ge, get_elem?-set_self, get_elem?-set_ne, ltb→lt, leb→le,
  ==→eq, ==_refl, Bool-cases, Option-cases,
}
use charo_torrent.Bitmap.{Bitmap}

-- type block of torrent/conn.go
pub record Block : Type 0 where
  pub pc : ℕ
  pub off : ℕ
  pub len : ℕ

-- `contributors` names connections.
pub record Piece (B : Type 0) : Type 0 where
  pub index : ℕ
  pub verified : Bool
  pub blocks : ℕ
  pub last_block_len : ℕ
  pub rarity : ℕ
  pub unrequested_blocks : B
  pub complete_blocks : B
  pub contributors : List ℕ

pub data OffsetError : Type 0 where
  large_offset div_offset : OffsetError

module _ {B : Type 0} ⦃bm : Bitmap B⦄ where
  unfoldable pub pending_blocks : Piece B → ℕ
  pending_blocks p = p.blocks - (bm.len p.unrequested_blocks + bm.len p.complete_blocks)

  unfoldable pub count_unrequested : Piece B → ℕ
  count_unrequested p = bm.len p.unrequested_blocks

  unfoldable pub count_completed : Piece B → ℕ
  count_completed p = bm.len p.complete_blocks

  -- The loop that marks the offsets of `n` blocks unrequested.
  unfoldable pub mark_blocks : ℕ → ℕ → B
  mark_blocks s zero = bm.empty
  mark_blocks s (suc n) = bm.put (mark_blocks s n) (n * s) true

  -- `piece_len` is t.pieceLen(i).
  unfoldable pub new_piece : ℕ → ℕ → ℕ → Piece B
  unfolding mark_blocks
  new_piece s piece_len i =
      let last_bytes = piece_len % s in
      let blocks = if not (last_bytes == 0) then piece_len / s + 1 else piece_len / s in
      record {
        index = i;
        verified = false;
        blocks = blocks;
        last_block_len = if not (last_bytes == 0) then last_bytes else s;
        rarity = 0;
        unrequested_blocks = mark_blocks s blocks;
        complete_blocks = bm.empty;
        contributors = [];
      }

  -- `s * (blocks - 1) + lastBlockLen`, whose first factor is negative for a piece of no block
  unfoldable pub length_of : ℕ → Piece B → ℕ
  length_of s p = s * p.blocks + p.last_block_len - s

  unfoldable pub block_len : ℕ → Piece B → ℕ → ℕ
  block_len s p off = if off / s + 1 == p.blocks then p.last_block_len else s

  unfoldable pub block_len_safe : ℕ → Piece B → ℕ → Outcome OffsetError ℕ
  block_len_safe s p off =
      if not (off % s == 0)
      then err div_offset
      else if off / s + 1 == p.blocks
      then ok p.last_block_len
      else if ltb (off / s + 1) p.blocks
      then ok s
      else err large_offset

  unfoldable pub to_block : ℕ → Piece B → ℕ → Block
  unfolding block_len
  to_block s p off = record { pc = p.index; off = off; len = block_len s p off }

  -- IterTyped stops at the first `false` of its callback: the first `limit` offsets are taken.
  unfoldable pub unrequested_blocks_slc : ℕ → Piece B → ℕ → List Block
  unrequested_blocks_slc s p limit = map (to_block s p) (take limit (bm.iter p.unrequested_blocks))

  unfoldable pub has_unrequested_blocks : Piece B → Bool
  has_unrequested_blocks p = ltb 0 (bm.len p.unrequested_blocks)

  unfoldable pub pending_get : Piece B → ℕ → Bool
  pending_get p off = not (bm.get p.unrequested_blocks off || bm.get p.complete_blocks off)

  unfoldable pub set_block_unrequested : Piece B → ℕ → Piece B
  set_block_unrequested p off =
      if not (bm.get p.complete_blocks off)
      then record p { unrequested_blocks = bm.put p.unrequested_blocks off true }
      else p

  unfoldable pub set_block_pending : Piece B → ℕ → Piece B
  set_block_pending p off =
      if not (bm.get p.complete_blocks off)
      then record p { unrequested_blocks = bm.put p.unrequested_blocks off false }
      else p

  unfoldable pub set_block_complete : Piece B → ℕ → ℕ → Piece B
  set_block_complete p ci off = record p {
    complete_blocks = bm.put p.complete_blocks off true;
    unrequested_blocks = bm.put p.unrequested_blocks off false;
    contributors = p.contributors ++ (ci ∷ []);
  }

  -- The loop of setAllUnrequested, with `n` rounds left from block `i` on.
  unfoldable pub unrequest_from : ℕ → ℕ → ℕ → Piece B → Piece B
  unrequest_from s zero i p = p
  unrequest_from s (suc n) i p = unrequest_from s n (i + 1) (set_block_unrequested p (i * s))

  unfoldable pub set_all_unrequested : ℕ → Piece B → Piece B
  set_all_unrequested s p = unrequest_from s p.blocks 0 p

  unfoldable pub complete : Piece B → Bool
  complete p = bm.len p.complete_blocks == p.blocks

  -- The contributors' counters are the caller's; a piece that is not complete is a panic.
  unfoldable pub verification_failed : Piece B → Option (Piece B)
  verification_failed p =
      if not (complete p)
      then none
      else some (record p {
        unrequested_blocks = p.complete_blocks;
        complete_blocks = p.unrequested_blocks;
      })

  unfoldable pub verification_success : Piece B → Option (Piece B)
  verification_success p = if p.verified then none else some (record p { verified = true })
