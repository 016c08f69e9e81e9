-- ===== src/Pieces/Requests.antt =====
-- Which blocks fillRequests hands out.
use charo_torrent.Prelude.{
  ℕ, ◌-◌, ◌<◌, ◌≤◌, ◌≡◌, inl, inr, refl, sym, ap, ◌∙◌, Bool, true, false, not, List, [], ◌∷◌, ◌++◌,
  none, some, ◌==◌, if◌then◌else◌, length, get_elem?, set, All, arith, length-append, take_all,
  get_elem?-set, All-append, All-imp, ==→eq, ==_refl, Bool-cases, Option-cases,
}
use mathlib.Core.Path.{subst}
use charo_torrent.Misc.{contains}
use charo_torrent.Bitmap.{Bitmap}
use charo_torrent.Piece.{Piece, Block, unrequested_blocks_slc}
use charo_torrent.Piece.Invariant.{IsValid}
use charo_torrent.Pieces.{mark_pending, fill_loop}
use charo_torrent.Pieces.Marking.{
  is_unrequested, AreValid, IsBlockOf, IsOffered, mark_pending-clears, mark_pending-IsValid,
  mark_pending-index, mark_pending-unrequested, slc-IsOffered, length-slc, not_before,
}

module _ {B : Type 0} ⦃bm : Bitmap B⦄ where
  -- What filling `room` slots from the pieces `is` comes to.
  pub record Fills (s : ℕ) (end_game : Bool) (is : List ℕ) (pcs : List (Piece B)) (room : ℕ)
      (pcs' : List (Piece B)) (filled : List Block) : Type 0 where
    pub fits : length filled ≤ room
    pub known : All (λ b. contains is b.pc ≡ true) filled
    pub free : All (λ b. is_unrequested pcs b.pc b.off ≡ true) filled
    pub taken : end_game ≡ false → All (λ b. is_unrequested pcs' b.pc b.off ≡ false) filled
    pub shrink : (i off : ℕ) → is_unrequested pcs' i off ≡ true → is_unrequested pcs i off ≡ true
    pub after : AreValid s pcs'

  pub Fills-none :
      (s : ℕ) (end_game : Bool) (is : List ℕ) (pcs : List (Piece B)) (room : ℕ)
      → AreValid s pcs
      → Fills s end_game is pcs room pcs []
  Fills-none s end_game is pcs room v = record {
    fits = omega arith;
    known = tt;
    free = tt;
    taken = λ e. tt;
    shrink = λ i off h. h;
    after = v;
  }

  Fills-append :
      (s : ℕ) (end_game : Bool) (i : ℕ) (is : List ℕ) (pcs pcs1 pcs2 : List (Piece B)) (room : ℕ)
      (f1 f2 : List Block)
      → Fills s end_game (i ∷ []) pcs room pcs1 f1
      → Fills s end_game is pcs1 (room - length f1) pcs2 f2
      → Fills s end_game (i ∷ is) pcs room pcs2 (f1 ++ f2)
  unfolding contains
  Fills-append s end_game i is pcs pcs1 pcs2 room f1 f2 l r = record {
    fits = omega (arith, l.fits, r.fits, length-append f1 f2);
    known =
        All-append _ f1 f2 (All-imp _ _ f1 (λ b h. ground (arith, h)) l.known)
          (All-imp _ _ f2 (λ b h. ground (arith, h)) r.known);
    free = All-append _ f1 f2 l.free (All-imp _ _ f2 (λ b h. l.shrink b.pc b.off h) r.free);
    taken = λ e.
        All-append _ f1 f2 (All-imp _ _ f1 (λ b h. not_before (r.shrink b.pc b.off) h) (l.taken e))
          (r.taken e);
    shrink = λ j off h. l.shrink j off (r.shrink j off h);
    after = r.after;
  }

  IsOffered-IsBlockOf :
      (s : ℕ) (p : Piece B) (bs : List Block)
      → IsValid s p
      → All (IsOffered s p) bs
      → All (λ b. IsBlockOf s p.blocks b.off) bs
  IsOffered-IsBlockOf s p bs v =
      All-imp (IsOffered s p) (λ b. IsBlockOf s p.blocks b.off) bs
        (λ b h. v.unrequested_aligned b.off h.1)

  is_unrequested_at :
      (pcs : List (Piece B)) (i : ℕ) (p : Piece B) (off : ℕ)
      → get_elem? pcs i ≡ some p
      → is_unrequested pcs i off ≡ bm.get p.unrequested_blocks off
  unfolding is_unrequested
  is_unrequested_at pcs i p off e = rw (is_unrequested, e) refl

  is_unrequested-set :
      (pcs : List (Piece B)) (i : ℕ) (p q : Piece B) (j off : ℕ)
      → get_elem? pcs i ≡ some p
      → is_unrequested (set pcs i q) j off
        ≡ (if i == j then bm.get q.unrequested_blocks off else is_unrequested pcs j off)
  unfolding is_unrequested
  is_unrequested-set pcs i p q j off e =
      rw (is_unrequested, get_elem?-set pcs i j q p e) (at_index j)
    where
      at_index :
          (j : ℕ)
          → (elim (if i == j then some q else get_elem? pcs j) [
            | none ↦ false
            | some p ↦ bm.get p.unrequested_blocks off
          ])
            ≡ (if i == j then bm.get q.unrequested_blocks off else is_unrequested pcs j off)
      at_index j = ground arith

  AreValid-set :
      (s : ℕ) (pcs : List (Piece B)) (i : ℕ) (p q : Piece B)
      → get_elem? pcs i ≡ some p
      → IsValid s q
      → q.index ≡ p.index
      → AreValid s pcs
      → AreValid s (set pcs i q)
  AreValid-set s pcs i p q e vq ix v = record {
    valid = λ j r h. elim (Bool-cases (i == j)) [
      | inl same ↦
          subst (λ o. IsValid s o) (the_piece j same (sym (get_elem?-set pcs i j q p e) ∙ h)) vq
      | inr other ↦ v.valid j r (the_other j other (sym (get_elem?-set pcs i j q p e) ∙ h))
    ];
    indexed = λ j r h. elim (Bool-cases (i == j)) [
      | inl same ↦ the_index j same h
      | inr other ↦ v.indexed j r (the_other j other (sym (get_elem?-set pcs i j q p e) ∙ h))
    ];
  }
    where
      the_piece :
          (j : ℕ) {r : Piece B}
          → (i == j) ≡ true
          → (if i == j then some q else get_elem? pcs j) ≡ some r
          → q ≡ r
      the_piece j h k = ground arith

      the_other :
          (j : ℕ) {r : Piece B}
          → (i == j) ≡ false
          → (if i == j then some q else get_elem? pcs j) ≡ some r
          → get_elem? pcs j ≡ some r
      the_other j h k = ground arith

      the_index :
          (j : ℕ) {r : Piece B} → (i == j) ≡ true → get_elem? (set pcs i q) j ≡ some r → r.index ≡ j
      the_index j {r} h k =
          ap (λ o. o.index) (sym (the_piece j h (sym (get_elem?-set pcs i j q p e) ∙ k)))
          ∙ ix
          ∙ v.indexed i p e
          ∙ ==→eq i j h

  -- The blocks that one piece offers are blocks of piece `i`, and unrequested.
  offers_known :
      (i : ℕ) (s : ℕ) (p : Piece B) (bs : List Block)
      → p.index ≡ i
      → All (IsOffered s p) bs
      → All (λ b. contains (i ∷ []) b.pc ≡ true) bs
  unfolding contains
  offers_known i s p bs e =
      All-imp (IsOffered s p) (λ b. contains (i ∷ []) b.pc ≡ true) bs
        (λ b h. rw (h.0 ∙ e) (ground arith))

  offers_free :
      (s : ℕ) (pcs : List (Piece B)) (i : ℕ) (p : Piece B) (bs : List Block)
      → get_elem? pcs i ≡ some p
      → p.index ≡ i
      → All (IsOffered s p) bs
      → All (λ b. is_unrequested pcs b.pc b.off ≡ true) bs
  offers_free s pcs i p bs e ix =
      All-imp (IsOffered s p) (λ b. is_unrequested pcs b.pc b.off ≡ true) bs
        (λ b h. rw (h.0 ∙ ix, is_unrequested_at pcs i p b.off e) h.1)

  at_own_index :
      (s : ℕ) (pcs : List (Piece B)) (i : ℕ) (p q : Piece B) (bs : List Block)
      → get_elem? pcs i ≡ some p
      → p.index ≡ i
      → All (IsOffered s p) bs
      → All (λ b. bm.get q.unrequested_blocks b.off ≡ false) bs
      → All (λ b. is_unrequested (set pcs i q) b.pc b.off ≡ false) bs
  at_own_index s pcs i p q [] e ix os cl = tt
  at_own_index s pcs i p q (b ∷ bs) e ix os cl = (
    rw (os.0.0 ∙ ix, is_unrequested-set pcs i p q i b.off e) (ground (arith, ==_refl i, cl.0)),
    at_own_index s pcs i p q bs e ix os.1 cl.1,
  )

  shrink-set :
      (pcs : List (Piece B)) (i : ℕ) (p : Piece B) (bs : List Block) (j off : ℕ)
      → get_elem? pcs i ≡ some p
      → is_unrequested (set pcs i (mark_pending p bs)) j off ≡ true
      → is_unrequested pcs j off ≡ true
  shrink-set pcs i p bs j off e h =
      let k = is_unrequested-set pcs i p (mark_pending p bs) j off e in
      let at_i = is_unrequested_at pcs i p off e in
      let marked = mark_pending-unrequested p bs off in
      elim (Bool-cases (i == j)) [
        | inl same ↦ rw (sym (==→eq i j same), at_i) (marked (sym (k ∙ rw same refl) ∙ h))
        | inr other ↦ sym (k ∙ rw other refl) ∙ h
      ]

  Fills-one :
      (s : ℕ) (end_game : Bool) (i : ℕ) (pcs : List (Piece B)) (room : ℕ) (p : Piece B)
      → 0 < s
      → get_elem? pcs i ≡ some p
      → AreValid s pcs
      → (let unreq = unrequested_blocks_slc s p room in
          Fills s end_game
            (i ∷ [])
            pcs
            room
            (if not end_game then set pcs i (mark_pending p unreq) else pcs)
            unreq)
  Fills-one s true i pcs room p pos e v =
      let unreq = unrequested_blocks_slc s p room in
      let os = slc-IsOffered s p room in
      record {
        fits = length-slc s p room;
        known = offers_known i s p unreq (v.indexed i p e) os;
        free = offers_free s pcs i p unreq e (v.indexed i p e) os;
        taken = λ h. absurd (ground arith);
        shrink = λ j off h. h;
        after = v;
      }
  Fills-one s false i pcs room p pos e v =
      let unreq = unrequested_blocks_slc s p room in
      let os = slc-IsOffered s p room in
      let p' = mark_pending p unreq in
      let vp = v.valid i p e in
      let aligned = IsOffered-IsBlockOf s p unreq vp os in
      record {
        fits = length-slc s p room;
        known = offers_known i s p unreq (v.indexed i p e) os;
        free = offers_free s pcs i p unreq e (v.indexed i p e) os;
        taken = λ h.
            at_own_index s pcs i p p' unreq e (v.indexed i p e) os
              (mark_pending-clears s p.blocks p unreq pos refl aligned vp);
        shrink = λ j off h. shrink-set pcs i p unreq j off e h;
        after =
            AreValid-set s pcs i p p' e
              (mark_pending-IsValid s p.blocks p unreq pos refl aligned vp)
              (mark_pending-index p unreq) v;
      }

  Fills-wider :
      (s : ℕ) (end_game : Bool) (i : ℕ) (is : List ℕ) (pcs : List (Piece B)) (room : ℕ)
      (pcs' : List (Piece B)) (filled : List Block)
      → Fills s end_game (i ∷ []) pcs room pcs' filled
      → Fills s end_game (i ∷ is) pcs room pcs' filled
  unfolding contains
  Fills-wider s end_game i is pcs room pcs' filled h = record {
    fits = h.fits;
    known = All-imp _ _ filled (λ b k. ground (arith, k)) h.known;
    free = h.free;
    taken = h.taken;
    shrink = h.shrink;
    after = h.after;
  }

  pub fill_loop-Fills :
      (s : ℕ) (end_game : Bool) (is : List ℕ) (room : ℕ) (pcs : List (Piece B))
      → 0 < s
      → AreValid s pcs
      → (let r = fill_loop s end_game is room pcs in Fills s end_game is pcs room r.0 r.1)
  unfolding fill_loop
  fill_loop-Fills s end_game [] room pcs pos v = Fills-none s end_game [] pcs room v
  fill_loop-Fills s end_game (i ∷ is) room pcs pos v = elim (Option-cases (get_elem? pcs i)) [
    | inl e ↦ rw (fill_loop, e) (Fills-none s end_game (i ∷ is) pcs room v)
    | inr (p, e) ↦
        let unreq = unrequested_blocks_slc s p room in
        let one = Fills-one s end_game i pcs room p pos e v in
        let all = take_all room unreq (length-slc s p room) in
        rw (fill_loop, e, all)
          (elim (Bool-cases (length unreq == room)) [
            | inl full ↦ rw full (Fills-wider s end_game i is pcs room _ unreq one)
            | inr space ↦ rw space (
                Fills-append s end_game i is pcs _ _ room unreq _ one
                  (fill_loop-Fills s end_game is (room - length unreq) _ pos one.after))
          ])
  ]
