-- ===== src/Piece/Invariant.antt =====
-- The invariant of a piece, and that every operation keeps it.
use charo_torrent.Prelude.{
  ℕ, zero, suc, ◌+◌, ◌*◌, ◌<◌, ◌≤◌, ◌≡◌, ◌≢◌, inl, inr, sym, ◌∙◌, Bool, true, false, some, ltb,
  ◌==◌, arith, ==→eq, ==_refl, Bool-cases,
}
use mathlib.Core.Path.{subst}
use charo_torrent.Misc.{bool_to_int}
use charo_torrent.Bitmap.{Bitmap}
use charo_torrent.Piece.{
  Piece, mark_blocks, new_piece, set_block_unrequested, set_block_pending, set_block_complete,
  unrequest_from, set_all_unrequested, verification_failed, verification_success,
}
use charo_torrent.Piece.Count.{
  count_blocks, offset_ne, count_blocks-update, count_blocks-all, count_blocks-none,
}

module _ {B : Type 0} ⦃bm : Bitmap B⦄ where
  -- Every index in the bitmap is the offset of one of `n` blocks of size `s`.
  abbrev pub IsAligned : ℕ → ℕ → B → Type 0
  IsAligned s n b = (off : ℕ) → bm.get b off ≡ true → (k : ℕ) × (k < n) × (off ≡ k * s)

  -- The bitmaps hold offsets of blocks only, and no block is in both.
  pub record IsValid (s : ℕ) (p : Piece B) : Type 0 where
    pub unrequested :
        bm.len p.unrequested_blocks ≡ count_blocks (bm.get p.unrequested_blocks) s p.blocks
    pub complete : bm.len p.complete_blocks ≡ count_blocks (bm.get p.complete_blocks) s p.blocks
    pub unrequested_aligned : IsAligned s p.blocks p.unrequested_blocks
    pub complete_aligned : IsAligned s p.blocks p.complete_blocks
    pub disjoint :
        (off : ℕ) → bm.get p.unrequested_blocks off ≡ true → bm.get p.complete_blocks off ≡ false

  IsAligned-put :
      (b : B) (s n k : ℕ) (v : Bool) → k < n → IsAligned s n b → IsAligned s n (bm.put b (k * s) v)
  IsAligned-put b s n k v h a off e = elim (Bool-cases (k * s == off)) [
    | inl same ↦ (k, h, sym (==→eq (k * s) off same))
    | inr other ↦ a off (ground (arith, bm.get-put b (k * s) v off))
  ]

  -- A write at a block keeps the count of a bitmap that holds blocks only.
  counted-put :
      (b : B) (s n k : ℕ) (v : Bool)
      → 0 < s
      → k < n
      → bm.len b ≡ count_blocks (bm.get b) s n
      → bm.len (bm.put b (k * s) v) ≡ count_blocks (bm.get (bm.put b (k * s) v)) s n
  counted-put b s n k v pos h e = omega (
    arith,
    bm.len-put b (k * s) v,
    count_blocks-update (bm.get b) (bm.get (bm.put b (k * s) v)) s k v pos (bm.get-put b (k * s) v)
        n h,
  )

module _ (B : Type 0) ⦃bm : Bitmap B⦄ where
  get-mark_blocks : (s n k : ℕ) → 0 < s → bm.get (mark_blocks {B = B} s n) (k * s) ≡ ltb k n
  unfolding mark_blocks
  get-mark_blocks s zero k pos = rw (bm.get-empty (k * s)) (ground arith)
  get-mark_blocks s (suc n) k pos = elim (Bool-cases (n == k)) [
    | inl e ↦
        let q : n ≡ k = ==→eq n k e in
        rw (bm.get-put (mark_blocks s n) (n * s) true (k * s), q, ==_refl (k * s)) (ground arith)
    | inr e ↦
        let ne : n ≢ k = ground arith in
        rw
          (
            bm.get-put (mark_blocks s n) (n * s) true (k * s),
            offset_ne s n k pos ne,
            get-mark_blocks s n k pos,
          )
          (ground arith)
  ]

  len-mark_blocks : (s n : ℕ) → 0 < s → bm.len (mark_blocks {B = B} s n) ≡ n
  unfolding mark_blocks bool_to_int
  len-mark_blocks s zero pos = bm.len-empty
  len-mark_blocks s (suc n) pos = ground (
    arith,
    bm.len-put (mark_blocks s n) (n * s) true,
    get-mark_blocks s n n pos,
    len-mark_blocks s n pos,
  )

  mark_blocks-IsAligned : (s n : ℕ) → IsAligned s n (mark_blocks {B = B} s n)
  unfolding mark_blocks
  mark_blocks-IsAligned s zero off e = cc (bm.get-empty off)
  mark_blocks-IsAligned s (suc n) off e = elim (Bool-cases (n * s == off)) [
    | inl same ↦ (n, omega arith, sym (==→eq (n * s) off same))
    | inr other ↦
        let (k, h, q) =
          mark_blocks-IsAligned s n off
            (ground (arith, bm.get-put (mark_blocks s n) (n * s) true off)) in
        (k, omega arith, q)
  ]

  mark_blocks-counted :
      (s n : ℕ)
      → 0 < s
      → bm.len (mark_blocks {B = B} s n) ≡ count_blocks (bm.get (mark_blocks {B = B} s n)) s n
  mark_blocks-counted s n pos =
      len-mark_blocks s n pos
      ∙ sym (count_blocks-all _ s n λ k h. get-mark_blocks s n k pos ∙ ground arith)

  -- A new piece is valid, and all of its blocks are unrequested.
  pub new_piece-IsValid :
      (s piece_len i : ℕ)
      → 0 < s
      → IsValid s (new_piece {B = B} s piece_len i)
        × (bm.len (new_piece {B = B} s piece_len i).complete_blocks ≡ 0)
        × (bm.len (new_piece {B = B} s piece_len i).unrequested_blocks
            ≡ (new_piece {B = B} s piece_len i).blocks)
  unfolding new_piece
  new_piece-IsValid s piece_len i pos = (
    record {
      unrequested = mark_blocks-counted s _ pos;
      unrequested_aligned = mark_blocks-IsAligned s _;
      complete_aligned = λ off e. cc (bm.get-empty off);
      complete = bm.len-empty ∙ sym (count_blocks-none _ s _ λ k h. bm.get-empty (k * s));
      disjoint = λ off e. bm.get-empty off;
    },
    bm.len-empty,
    len-mark_blocks s _ pos,
  )

module _ {B : Type 0} ⦃bm : Bitmap B⦄ where
  module _ (s : ℕ) (p : Piece B) (k : ℕ) (pos : 0 < s) (v : IsValid s p) (h : k < p.blocks) where
    pub set_block_unrequested-IsValid : IsValid s (set_block_unrequested p (k * s))
    unfolding set_block_unrequested
    set_block_unrequested-IsValid = elim (Bool-cases (bm.get p.complete_blocks (k * s))) [
      | inl done ↦ rw done v
      | inr open_block ↦ rw open_block (record {
        unrequested = counted-put p.unrequested_blocks s p.blocks k true pos h v.unrequested;
        complete = v.complete;
        unrequested_aligned =
            IsAligned-put p.unrequested_blocks s p.blocks k true h v.unrequested_aligned;
        complete_aligned = v.complete_aligned;
        disjoint = λ off e.
            ground
              (arith, v.disjoint off, bm.get-put p.unrequested_blocks (k * s) true off, open_block);
      })
    ]

    pub set_block_pending-IsValid : IsValid s (set_block_pending p (k * s))
    unfolding set_block_pending
    set_block_pending-IsValid = elim (Bool-cases (bm.get p.complete_blocks (k * s))) [
      | inl done ↦ rw done v
      | inr open_block ↦ rw open_block (record {
        unrequested = counted-put p.unrequested_blocks s p.blocks k false pos h v.unrequested;
        complete = v.complete;
        unrequested_aligned =
            IsAligned-put p.unrequested_blocks s p.blocks k false h v.unrequested_aligned;
        complete_aligned = v.complete_aligned;
        disjoint = λ off e.
            ground (arith, v.disjoint off, bm.get-put p.unrequested_blocks (k * s) false off);
      })
    ]

    pub set_block_complete-IsValid : (ci : ℕ) → IsValid s (set_block_complete p ci (k * s))
    unfolding set_block_complete
    set_block_complete-IsValid ci = record {
      unrequested = counted-put p.unrequested_blocks s p.blocks k false pos h v.unrequested;
      complete = counted-put p.complete_blocks s p.blocks k true pos h v.complete;
      unrequested_aligned =
          IsAligned-put p.unrequested_blocks s p.blocks k false h v.unrequested_aligned;
      complete_aligned = IsAligned-put p.complete_blocks s p.blocks k true h v.complete_aligned;
      disjoint = λ off e. ground (
        arith,
        v.disjoint off,
        bm.get-put p.unrequested_blocks (k * s) false off,
        bm.get-put p.complete_blocks (k * s) true off,
      );
    }

module _ {B : Type 0} ⦃bm : Bitmap B⦄ where
  blocks-set_block_unrequested :
      (p : Piece B) (off : ℕ) → (set_block_unrequested p off).blocks ≡ p.blocks
  unfolding set_block_unrequested
  blocks-set_block_unrequested p off = ground arith

  unrequest_from-IsValid :
      (s n i : ℕ) (p : Piece B)
      → 0 < s
      → IsValid s p
      → i + n ≤ p.blocks
      → IsValid s (unrequest_from s n i p)
  unfolding unrequest_from
  unrequest_from-IsValid s zero i p pos v h = v
  unrequest_from-IsValid s (suc n) i p pos v h =
      unrequest_from-IsValid s n (i + 1) (set_block_unrequested p (i * s)) pos
        (set_block_unrequested-IsValid s p i pos v (omega arith))
        (omega (arith, blocks-set_block_unrequested p (i * s)))

  pub set_all_unrequested-IsValid :
      (s : ℕ) (p : Piece B) → 0 < s → IsValid s p → IsValid s (set_all_unrequested s p)
  unfolding set_all_unrequested
  set_all_unrequested-IsValid s p pos v = unrequest_from-IsValid s p.blocks 0 p pos v (omega arith)

  -- The other reading of `disjoint`.
  pub complete_not_unrequested :
      {s : ℕ} {p : Piece B} (off : ℕ)
      → IsValid s p
      → bm.get p.complete_blocks off ≡ true
      → bm.get p.unrequested_blocks off ≡ false
  complete_not_unrequested {s} {p} off v h = elim (Bool-cases (bm.get p.unrequested_blocks off)) [
    | inl u ↦ cc (v.disjoint off u)
    | inr u ↦ u
  ]

  pub verification_failed-IsValid :
      {s : ℕ} {p p' : Piece B} → IsValid s p → verification_failed p ≡ some p' → IsValid s p'
  unfolding verification_failed
  verification_failed-IsValid {s} {p} {p'} v e =
      let q : record p {
        unrequested_blocks = p.complete_blocks;
        complete_blocks = p.unrequested_blocks;
      }
          ≡ p' =
        ground arith in
      subst (IsValid s) q (record {
        unrequested = v.complete;
        complete = v.unrequested;
        unrequested_aligned = v.complete_aligned;
        complete_aligned = v.unrequested_aligned;
        disjoint = λ off h. complete_not_unrequested off v h;
      })

  pub verification_success-IsValid :
      {s : ℕ} {p p' : Piece B} → IsValid s p → verification_success p ≡ some p' → IsValid s p'
  unfolding verification_success
  verification_success-IsValid {s} {p} {p'} v e =
      let q : record p { verified = true } ≡ p' = ground arith in
      subst (IsValid s) q (record {
        unrequested = v.unrequested;
        complete = v.complete;
        unrequested_aligned = v.unrequested_aligned;
        complete_aligned = v.complete_aligned;
        disjoint = v.disjoint;
      })
