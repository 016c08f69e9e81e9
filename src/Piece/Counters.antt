-- ===== src/Piece/Counters.antt =====
-- What the counters of a piece say about its blocks, and the histories of a piece.
use charo_torrent.Prelude.{
  ℕ, zero, suc, ◌+◌, ◌*◌, ◌<◌, ◌≡◌, ◌↔◌, ◌⊎◌, inl, inr, refl, sym, ◌∙◌, true, false, some, arith,
  ==→eq, ==_refl,
}
use mathlib.Core.Path.{subst}
use charo_torrent.Bitmap.{Bitmap}
use charo_torrent.Piece.{
  Piece, pending_blocks, count_unrequested, count_completed, pending_get, set_block_unrequested,
  set_block_pending, set_block_complete, unrequest_from, set_all_unrequested, complete,
  verification_failed, verification_success,
}
use charo_torrent.Piece.Count.{count_blocks, count_blocks_split, all-count_blocks, count_blocks-all}
use charo_torrent.Piece.Invariant.{
  IsValid, complete_not_unrequested, set_block_unrequested-IsValid, set_block_pending-IsValid,
  set_block_complete-IsValid, set_all_unrequested-IsValid, verification_failed-IsValid,
  verification_success-IsValid,
}

module _ {B : Type 0} ⦃bm : Bitmap B⦄ where
  -- PendingBlocks is the number of blocks that are neither unrequested nor complete, and the
  -- three counters add up to all blocks.
  pub pending_blocks-eq-count :
      {s : ℕ} {p : Piece B}
      → IsValid s p
      → (pending_blocks p ≡ count_blocks (pending_get p) s p.blocks)
        × (count_unrequested p + pending_blocks p + count_completed p ≡ p.blocks)
  unfolding pending_blocks pending_get count_unrequested count_completed
  pending_blocks-eq-count {s} {p} v =
      let split =
        count_blocks_split (bm.get p.unrequested_blocks) (bm.get p.complete_blocks) s p.blocks
          v.disjoint in
      (
        omega (arith, v.unrequested, v.complete, split),
        omega (arith, v.unrequested, v.complete, split),
      )

  -- A valid piece is complete exactly when each of its blocks is.
  pub complete_iff :
      {s : ℕ} {p : Piece B}
      → IsValid s p
      → (complete p ≡ true) ↔ ((k : ℕ) → k < p.blocks → bm.get p.complete_blocks (k * s) ≡ true)
  unfolding complete
  complete_iff {s} {p} v = (
    λ e k h.
        all-count_blocks (bm.get p.complete_blocks) s p.blocks k (sym v.complete ∙ ==→eq _ _ e) h,
    λ all.
        rw (v.complete, count_blocks-all (bm.get p.complete_blocks) s p.blocks all)
          (==_refl p.blocks),
  )

  -- A piece that fails its hash check does not panic, and starts again: every block is
  -- unrequested and none is complete.
  pub verification_failed_resets :
      {s : ℕ} {p : Piece B}
      → IsValid s p
      → complete p ≡ true
      → (p' : Piece B) × (verification_failed p ≡ some p')
        × IsValid s p'
        × ((k : ℕ)
            → k < p.blocks
            → (bm.get p'.unrequested_blocks (k * s) ≡ true)
              × (bm.get p'.complete_blocks (k * s) ≡ false))
  unfolding verification_failed
  verification_failed_resets {s} {p} v c =
      let e : verification_failed p
          ≡ some (record p {
            unrequested_blocks = p.complete_blocks;
            complete_blocks = p.unrequested_blocks;
          }) =
        rw c refl in
      (
        _,
        e,
        verification_failed-IsValid v e,
        λ k h. (
          (complete_iff v).0 c k h,
          complete_not_unrequested (k * s) v ((complete_iff v).0 c k h),
        ),
      )

  -- What may happen to a piece whose blocks have size `s`.
  pub data Step (s : ℕ) (p q : Piece B) : Type 0 where
    requested : (k : ℕ) → k < p.blocks → q ≡ set_block_pending p (k * s) → Step s p q
    discarded : (k : ℕ) → k < p.blocks → q ≡ set_block_unrequested p (k * s) → Step s p q
    received : (k ci : ℕ) → k < p.blocks → q ≡ set_block_complete p ci (k * s) → Step s p q
    end_game : q ≡ set_all_unrequested s p → Step s p q
    hash_failed : verification_failed p ≡ some q → Step s p q
    hash_succeeded : verification_success p ≡ some q → Step s p q

  pub data Reach (s : ℕ) (p : Piece B) : Piece B → Type 0 where
    here : Reach s p p
    next : {q r : Piece B} → Reach s p q → Step s q r → Reach s p r

  Step-IsValid : {s : ℕ} {p q : Piece B} → 0 < s → IsValid s p → Step s p q → IsValid s q
  Step-IsValid {s} {p} pos v (requested k h e) =
      subst (IsValid s) (sym e) (set_block_pending-IsValid s p k pos v h)
  Step-IsValid {s} {p} pos v (discarded k h e) =
      subst (IsValid s) (sym e) (set_block_unrequested-IsValid s p k pos v h)
  Step-IsValid {s} {p} pos v (received k ci h e) =
      subst (IsValid s) (sym e) (set_block_complete-IsValid s p k pos v h ci)
  Step-IsValid {s} {p} pos v (end_game e) =
      subst (IsValid s) (sym e) (set_all_unrequested-IsValid s p pos v)
  Step-IsValid pos v (hash_failed e) = verification_failed-IsValid v e
  Step-IsValid pos v (hash_succeeded e) = verification_success-IsValid v e

  -- Whatever requests, discards, received blocks, end games and hash results a valid piece with
  -- blocks of a positive size goes through, it stays valid.
  pub Reach-IsValid : {s : ℕ} {p q : Piece B} → 0 < s → IsValid s p → Reach s p q → IsValid s q
  Reach-IsValid pos v here = v
  Reach-IsValid pos v (next r st) = Step-IsValid pos (Reach-IsValid pos v r) st

  complete_blocks-unrequest_from :
      (s n i : ℕ) (p : Piece B) → (unrequest_from s n i p).complete_blocks ≡ p.complete_blocks
  unfolding unrequest_from set_block_unrequested
  complete_blocks-unrequest_from s zero i p = refl
  complete_blocks-unrequest_from s (suc n) i p =
      complete_blocks-unrequest_from s n (i + 1) (set_block_unrequested p (i * s)) ∙ ground arith

  -- A complete block stays complete, unless the whole piece fails its hash check.
  pub Step-complete :
      {s : ℕ} {p q : Piece B} (off : ℕ)
      → Step s p q
      → bm.get p.complete_blocks off ≡ true
      → (bm.get q.complete_blocks off ≡ true)
        ⊎ ((complete p ≡ true) × (verification_failed p ≡ some q))
  unfolding set_block_pending set_block_unrequested set_block_complete set_all_unrequested
      verification_failed verification_success
  Step-complete off (requested k h e) c = inl (ground arith)
  Step-complete off (discarded k h e) c = inl (ground arith)
  Step-complete {s} {p} off (received k ci h e) c =
      inl (ground (arith, bm.get-put p.complete_blocks (k * s) true off))
  Step-complete {s} {p} off (end_game e) c =
      inl (ground (arith, complete_blocks-unrequest_from s p.blocks 0 p))
  Step-complete off (hash_failed e) c = inr (ground arith, e)
  Step-complete off (hash_succeeded e) c = inl (ground arith)
