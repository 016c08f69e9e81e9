-- ===== src/Choker/Bound.antt =====
-- A review leaves at most maxUploadSlots peers unchoked beside the optimistic one.
use charo_torrent.Prelude.{
  ℕ, ◌+◌, ◌%◌, ◌≤◌, ◌≡◌, refl, sym, ◌∙◌, true, false, ◌&&◌, List, [], ◌∷◌, ◌++◌, Option, ◌==◌,
  if◌then◌else◌, length, take, drop, arith,
}
use mathlib.Core.List.{Permᴰ}
use mathlib.Core.Path.{subst}
use charo_torrent.Bitmap.{Bitmap}
use charo_torrent.ConnInfo.{View}
use charo_torrent.Choker.{
  Choker, Conns, rank_conns, unchoke_bests, review_candidates, unchoke_optimistic, review_with,
  review_unchoked_peers, pick_optimistic_unchoke,
}
use charo_torrent.Choker.Totals.{
  total, total-append, total-take-drop, total-Permᴰ, is_at, AreListedOnce,
}
use charo_torrent.Choker.Slots.{
  opt_at, opt_once, open_at, open_at-eq, review_candidates_slots, review_candidates-others,
  unchoke_bests_slots, unchoke_bests-others,
}
use charo_torrent.Choker.Ranking.{total-eq, closed, covers, rank_conns-ranked_at}

module _ {B : Type 0} ⦃bm : Bitmap B⦄ (minute : ℕ) (t : View B)
    (by_rate : Conns B → List ℕ → List ℕ) (perm : List ℕ → List ℕ)
    (sorted : (cns : Conns B) (s : List ℕ) → Permᴰ (by_rate cns s) s)
    (permuted : (s : List ℕ) → Permᴰ (perm s) s) where
  -- The best peers that get a slot and the others are the ranked ones.
  split_ranks :
      (cns : Conns B) (best_ids others : List ℕ) (slots : ℕ) (w : ℕ → ℕ)
      → total w (take slots (by_rate cns best_ids))
          + total w (perm (others ++ drop slots (by_rate cns best_ids)))
        ≡ total w best_ids + total w others
  split_ranks cns best_ids others slots w =
      let bests = by_rate cns best_ids in
      omega (
        arith,
        total-Permᴰ w (sorted cns best_ids),
        total-take-drop w slots bests,
        total-Permᴰ w (permuted (others ++ drop slots bests)),
        total-append w others (drop slots bests),
      )

  review_with_slots :
      (opt : Option ℕ) (slots : ℕ) (ids : List ℕ) (cns : Conns B)
      → AreListedOnce ids
      → total (open_at (review_with minute t by_rate perm opt slots ids cns)) ids ≤ slots + 1
  unfolding review_with
  review_with_slots opt slots ids cns d =
      let start = unchoke_optimistic t opt cns in
      let ranked = rank_conns minute t ids start in
      let bests = by_rate ranked.0 ranked.1.0 in
      let r = unchoke_bests t opt slots bests slots ranked.0 in
      let others = perm (ranked.1.1 ++ drop slots bests) in
      let after = review_candidates t opt others r.1 r.0 in
      let split = split_ranks ranked.0 ranked.1.0 ranked.1.1 slots in
      let in_bests = λ (j : ℕ). total-Permᴰ (is_at j) (sorted ranked.0 ranked.1.0) in
      let once = λ (j : ℕ). rank_conns-ranked_at minute t ids start j in
      let distinct : AreListedOnce (ranked.1.0 ++ ranked.1.1) =
        λ j. omega (arith, total-append (is_at j) ranked.1.0 ranked.1.1, once j, d j) in
      let kept = total-eq (open_at after) (open_at r.0) (take slots bests) λ j h.
        open_at-eq after r.0 j (
          review_candidates-others t opt others r.1 j r.0
            (omega (arith, h, split (is_at j), once j, d j))) in
      let covered = covers minute t ids start (open_at after) d λ j h e.
        open_at-eq after ranked.0 j (
          review_candidates-others t opt others r.1 j r.0 (omega (arith, e, split (is_at j)))
          ∙ unchoke_bests-others t opt slots bests slots j ranked.0 (omega (arith, e, in_bests j)))
        ∙ closed minute t ids start j d h e in
      omega (
        arith,
        kept,
        covered,
        split (open_at after),
        split (opt_at opt),
        unchoke_bests_slots t opt slots bests slots ranked.0
            (λ j. omega (arith, in_bests j, once j, d j)) (omega arith),
        review_candidates_slots t opt others r.1 r.0
            (λ j. omega (arith, split (is_at j), once j, d j)),
        opt_once opt (ranked.1.0 ++ ranked.1.1) distinct,
        total-append (opt_at opt) ranked.1.0 ranked.1.1,
      )

  reviewed :
      (intn : ℕ → ℕ) (ids : List ℕ) (c : Choker) (cns : Conns B)
      → (length ids == 0) ≡ false
      → (review_unchoked_peers minute t intn by_rate perm ids (c, cns)).1
        ≡ review_with minute t by_rate perm
            (if c.enable_optimistic && c.curr_round % 5 == 0
              then pick_optimistic_unchoke intn cns ids
              else c.optimistic)
            c.max_upload_slots
            ids
            cns
  unfolding review_unchoked_peers
  reviewed intn ids c cns e = rw e refl

  -- After a review of connections that are listed once each, while no connection's goroutine has ended and so every message is
  -- delivered, and where sort.Sort and rand.Perm only change the order of a list, at most maxUploadSlots + 1 of the connections
  -- can be uploaded to: those are not choked and interested.
  pub review_unchoked_peers_slots :
      (intn : ℕ → ℕ) (ids : List ℕ) (c : Choker) (cns : Conns B)
      → t.delivered ≡ true
      → AreListedOnce ids
      → total (open_at (review_unchoked_peers minute t intn by_rate perm ids (c, cns)).1) ids
        ≤ c.max_upload_slots + 1
  unfolding review_unchoked_peers
  review_unchoked_peers_slots intn [] c cns reached d = omega arith
  review_unchoked_peers_slots intn (i ∷ ids) c cns reached d =
      subst (λ after. total (open_at after) (i ∷ ids) ≤ c.max_upload_slots + 1)
        (sym (reviewed intn (i ∷ ids) c cns (ground arith)))
        (review_with_slots _ c.max_upload_slots (i ∷ ids) cns d)
