-- ===== src/Pieces/EndGame.antt =====
-- The end game: when it starts, and that every missing block may then be requested again.
use charo_torrent.Prelude.{
  ℕ, zero, suc, ◌+◌, ◌*◌, ◌<◌, ◌≤◌, ◌≡◌, ◌↔◌, ◌⊎◌, inl, inr, refl, sym, ap, ◌∙◌, true, false, not,
  ◌||◌, List, [], ◌∷◌, some, ltb, ◌==◌, if◌then◌else◌, get_elem?, arith, ==→eq, ==_refl, Bool-cases,
}
use mathlib.Core.Path.{subst}
use charo_torrent.Bitmap.{Bitmap}
use charo_torrent.Piece.{
  Piece, has_unrequested_blocks, pending_get, set_block_unrequested, unrequest_from,
  set_all_unrequested,
}
use charo_torrent.Piece.Invariant.{IsValid, set_all_unrequested-IsValid}
use charo_torrent.Pieces.{Pieces, all_requested, unrequest_unowned, maybe_start_endgame}
use charo_torrent.Pieces.Marking.{AreValid}

module _ {B : Type 0} ⦃bm : Bitmap B⦄ where
  -- No piece has an unrequested block.
  abbrev pub AreRequested : List (Piece B) → Type 0
  AreRequested pcs =
      (i : ℕ) (p : Piece B) → get_elem? pcs i ≡ some p → bm.len p.unrequested_blocks ≡ 0

  all_requested-AreRequested :
      (pcs : List (Piece B)) → (all_requested pcs ≡ true) ↔ AreRequested pcs
  unfolding all_requested has_unrequested_blocks
  all_requested-AreRequested [] = (λ h i p e. absurd (cc), λ h. refl)
  all_requested-AreRequested (q ∷ pcs) =
      let ih = all_requested-AreRequested pcs in
      elim (Bool-cases (ltb 0 (bm.len q.unrequested_blocks))) [
        | inl some_left ↦ (
          λ h. let bad : false ≡ true = rw some_left at h in absurd (cc),
          λ h. let gone = h 0 q refl in absurd (ground (arith, gone)),
        )
        | inr none_left ↦ (
          λ h i p e. first_or_later q pcs (ground arith) (ih.0 (rw none_left at h)) i p e,
          λ h.
              let rest : all_requested pcs ≡ true = ih.1 (λ i p e. h (suc i) p e) in
              rw none_left rest,
        )
      ]
    where
      first_or_later :
          (q : Piece B) (pcs : List (Piece B))
          → bm.len q.unrequested_blocks ≡ 0
          → AreRequested pcs
          → AreRequested (q ∷ pcs)
      first_or_later q pcs first rest zero p e =
          let same : q ≡ p = ground arith in
          ap (λ x. bm.len x.unrequested_blocks) (sym same) ∙ first
      first_or_later q pcs first rest (suc i) p e = rest i p e

  pending_get-set_block_unrequested :
      (p : Piece B) (o x : ℕ)
      → pending_get p x ≡ false
      → pending_get (set_block_unrequested p o) x ≡ false
  unfolding pending_get set_block_unrequested
  pending_get-set_block_unrequested p o x h =
      ground (arith, bm.get-put p.unrequested_blocks o true x)

  unrequested_not_pending :
      (p : Piece B) (o : ℕ) → pending_get (set_block_unrequested p o) o ≡ false
  unfolding pending_get set_block_unrequested
  unrequested_not_pending p o = ground (arith, bm.get-put p.unrequested_blocks o true o, ==_refl o)

  pending_get-unrequest_from :
      (s n i : ℕ) (p : Piece B) (x : ℕ)
      → pending_get p x ≡ false
      → pending_get (unrequest_from s n i p) x ≡ false
  unfolding unrequest_from
  pending_get-unrequest_from s zero i p x h = h
  pending_get-unrequest_from s (suc n) i p x h =
      pending_get-unrequest_from s n (i + 1) (set_block_unrequested p (i * s)) x
        (pending_get-set_block_unrequested p (i * s) x h)

  unrequest_from-clears :
      (s n i : ℕ) (p : Piece B) (k : ℕ)
      → i ≤ k
      → k < i + n
      → pending_get (unrequest_from s n i p) (k * s) ≡ false
  unfolding unrequest_from
  unrequest_from-clears s zero i p k l h = absurd (omega arith)
  unrequest_from-clears s (suc n) i p k l h = elim (Bool-cases (i == k)) [
    | inl same ↦ pending_get-unrequest_from s n (i + 1) (set_block_unrequested p (i * s)) (k * s) (
        subst (λ j. pending_get (set_block_unrequested p (j * s)) (k * s) ≡ false)
          (sym (==→eq i k same)) (unrequested_not_pending p (k * s)))
    | inr other ↦
        unrequest_from-clears s n (i + 1) (set_block_unrequested p (i * s)) k (ground arith)
          (omega arith)
  ]

  -- After setAllUnrequested no block of the piece is pending.
  set_all_unrequested-clears :
      (s : ℕ) (p : Piece B) (k : ℕ)
      → k < p.blocks
      → pending_get (set_all_unrequested s p) (k * s) ≡ false
  unfolding set_all_unrequested
  set_all_unrequested-clears s p k h =
      unrequest_from-clears s p.blocks 0 p k (omega arith) (omega arith)

  -- The piece at an index after unrequest_unowned.
  abbrev renewed : ℕ → B → ℕ → Piece B → Piece B
  renewed s owned i p = if not (bm.get owned i) then set_all_unrequested s p else p

  get_elem?-unrequest_unowned :
      (s : ℕ) (owned : B) (i : ℕ) (pcs : List (Piece B)) (j : ℕ) (q : Piece B)
      → get_elem? (unrequest_unowned s owned i pcs) j ≡ some q
      → (p : Piece B) × (get_elem? pcs j ≡ some p) × (q ≡ renewed s owned (i + j) p)
  unfolding unrequest_unowned
  get_elem?-unrequest_unowned s owned i [] j q h = cc
  get_elem?-unrequest_unowned s owned i (p ∷ pcs) zero q h = (p, refl, ground arith)
  get_elem?-unrequest_unowned s owned i (p ∷ pcs) (suc j) q h =
      let (r, e, k) = get_elem?-unrequest_unowned s owned (i + 1) pcs j q h in
      (r, e, k ∙ ap (λ n. renewed s owned n r) (omega arith))

  index-unrequest_from :
      (s n i : ℕ) (p : Piece B)
      → ((unrequest_from s n i p).index ≡ p.index) × ((unrequest_from s n i p).blocks ≡ p.blocks)
  unfolding unrequest_from set_block_unrequested
  index-unrequest_from s zero i p = (refl, refl)
  index-unrequest_from s (suc n) i p =
      let ih = index-unrequest_from s n (i + 1) (set_block_unrequested p (i * s)) in
      (ih.0 ∙ ground arith, ih.1 ∙ ground arith)

  renewed_lem :
      (s : ℕ) (owned : B) (i : ℕ) (p q : Piece B)
      → 0 < s
      → IsValid s p
      → q ≡ renewed s owned i p
      → IsValid s q
        × (q.index ≡ p.index)
        × (bm.get owned i ≡ false → (k : ℕ) → k < q.blocks → pending_get q (k * s) ≡ false)
  unfolding set_all_unrequested
  renewed_lem s owned i p q pos v e = elim (Bool-cases (bm.get owned i)) [
    | inl mine ↦
        let same : q ≡ p = e ∙ rw mine refl in
        (subst (IsValid s) (sym same) v, ap (λ o. o.index) same, λ h. absurd (ground arith))
    | inr missing ↦
        let same : q ≡ set_all_unrequested s p = e ∙ rw missing refl in
        (
          subst (IsValid s) (sym same) (set_all_unrequested-IsValid s p pos v),
          ap (λ o. o.index) same ∙ (index-unrequest_from s p.blocks 0 p).0,
          λ h k l.
              subst (λ o. pending_get o (k * s) ≡ false) (sym same)
                (set_all_unrequested-clears s p k (
                  omega
                    (arith, l, ap (λ o. o.blocks) same, (index-unrequest_from s p.blocks 0 p).1))),
        )
  ]

  unrequest_unowned-AreValid :
      (s : ℕ) (owned : B) (pcs : List (Piece B))
      → 0 < s
      → AreValid s pcs
      → AreValid s (unrequest_unowned s owned 0 pcs)
  unrequest_unowned-AreValid s owned pcs pos v = record {
    valid = λ j q h.
        let (p, e, k) = get_elem?-unrequest_unowned s owned 0 pcs j q h in
        (renewed_lem s owned (0 + j) p q pos (v.valid j p e) k).0;
    indexed = λ j q h.
        let (p, e, k) = get_elem?-unrequest_unowned s owned 0 pcs j q h in
        (renewed_lem s owned (0 + j) p q pos (v.valid j p e) k).1 ∙ v.indexed j p e;
  }

  -- For blocks of a positive size, maybeStartEndgame keeps the pieces valid. It starts the end game exactly when the end game is
  -- not on and no piece has an unrequested block. When it does, no block of a piece that is not
  -- owned is pending: every block that is missing may be requested again. Else nothing changes.
  pub maybe_start_endgame_cases :
      (ps : Pieces B)
      → 0 < ps.block_size
      → AreValid ps.block_size ps.pcs
      → (let r = maybe_start_endgame ps in
          AreValid ps.block_size r.0.pcs
          × (((r.1 ≡ true)
                × (ps.end_game ≡ false)
                × AreRequested ps.pcs
                × (r.0.end_game ≡ true)
                × ((i k : ℕ) (q : Piece B)
                    → get_elem? r.0.pcs i ≡ some q
                    → bm.get ps.owned_pieces i ≡ false
                    → k < q.blocks
                    → pending_get q (k * ps.block_size) ≡ false))
              ⊎ ((r.1 ≡ false) × (r.0 ≡ ps) × ((ps.end_game ≡ true) ⊎ (¬ AreRequested ps.pcs)))))
  unfolding maybe_start_endgame
  maybe_start_endgame_cases ps pos v =
      elim (Bool-cases (ps.end_game || not (all_requested ps.pcs))) [
        | inl stay ↦
            rw (maybe_start_endgame, stay)
              (
                v,
                inr (
                  refl,
                  refl,
                  elim (Bool-cases ps.end_game) [
                    | inl on ↦ inl on
                    | inr off ↦ inr (λ h.
                        let all_of = (all_requested-AreRequested ps.pcs).1 h in
                        absurd (ground arith))
                  ],
                ),
              )
        | inr start ↦
            rw (maybe_start_endgame, start)
              (
                unrequest_unowned-AreValid ps.block_size ps.owned_pieces ps.pcs pos v,
                inl (
                  refl,
                  ground arith,
                  (all_requested-AreRequested ps.pcs).0 (ground arith),
                  refl,
                  λ i k q h missing l.
                      let (p, e, r) =
                        get_elem?-unrequest_unowned ps.block_size ps.owned_pieces 0 ps.pcs i q h in
                      (renewed_lem ps.block_size ps.owned_pieces (0 + i) p q pos (v.valid i p e)
                          r).2
                        (ap (bm.get ps.owned_pieces) (omega arith) ∙ missing) k l,
                ),
              )
      ]
