-- ===== src/Choker/Ranking.antt =====
-- The loop that ranks the connections covers them all.
use charo_torrent.Prelude.{
  ℕ, ◌+◌, ◌<◌, ◌≤◌, ◌≡◌, inl, inr, refl, sym, ap, ◌∙◌, Bool, true, false, List, [], ◌∷◌, ◌==◌,
  if◌then◌else◌, arith, ==→eq, Bool-cases,
}
use mathlib.Core.Path.{subst}
use charo_torrent.Bitmap.{Bitmap}
use charo_torrent.Misc.{bool_to_int}
use charo_torrent.ConnInfo.{ConnInfo, View, can_upload, peer_seeding}
use charo_torrent.Choker.{
  Conns, Rank, Ranks, seeding, candidate, best, add_rank, on_conn, rank_conn, rank_conns,
}
use charo_torrent.Choker.Totals.{total, is_at, AreListedOnce}
use charo_torrent.Choker.Slots.{
  open_at, can_upload-conn_choke, on_conn-other, on_conn-same, is_at_self, AreListedOnce-tail,
}

-- How often `j` is among the ranked.
abbrev pub ranked_at : ℕ → Ranks → ℕ
ranked_at j r = total (is_at j) r.0 + total (is_at j) r.1

add_rank-ranked_at :
    (k : Rank) (i j : ℕ) (r : Ranks) → ranked_at j (add_rank k i r) ≤ is_at j i + ranked_at j r
add_rank-ranked_at seeding i j r = omega arith
add_rank-ranked_at candidate i j r = omega arith
add_rank-ranked_at best i j r = omega arith

add_rank_le : (k : Rank) (i j : ℕ) (r : Ranks) → ranked_at j r ≤ ranked_at j (add_rank k i r)
add_rank_le seeding i j r = omega arith
add_rank_le candidate i j r = omega arith
add_rank_le best i j r = omega arith

-- Who is not ranked now is seeding.
unranked : (k : Rank) (i : ℕ) (r : Ranks) → ranked_at i (add_rank k i r) ≡ 0 → k ≡ seeding
unranked seeding i r e = refl
unranked candidate i r e = absurd (omega (arith, e, is_at_self i))
unranked best i r e = absurd (omega (arith, e, is_at_self i))

is_seeding : Rank → Bool
is_seeding seeding = true
is_seeding _ = false

not_seeding : (b : Bool) → (if b then candidate else best) ≡ seeding → ⊥
unfolding is_seeding
not_seeding true e = ground (arith, ap is_seeding e)
not_seeding false e = ground (arith, ap is_seeding e)

-- Equal where a list has members.
pub total-eq :
    (w v : ℕ → ℕ) (s : List ℕ)
    → ((j : ℕ) → 0 < total (is_at j) s → w j ≡ v j)
    → total w s ≡ total v s
total-eq w v [] h = refl
total-eq w v (i ∷ s) h = omega (
  arith,
  h i (omega (arith, is_at_self i)),
  total-eq w v s (λ j some_. h j (omega (arith, some_))),
)

total_rank :
    (w : ℕ → ℕ) (k : Rank) (i : ℕ) (r : Ranks)
    → (k ≡ seeding → w i ≡ 0)
    → w i + (total w r.0 + total w r.1) ≤ total w (add_rank k i r).0 + total w (add_rank k i r).1
total_rank w seeding i r e = omega (arith, e refl)
total_rank w candidate i r e = omega arith
total_rank w best i r e = omega arith

module _ {B : Type 0} ⦃bm : Bitmap B⦄ where
  pub rank_conns-ranked_at :
      (minute : ℕ) (t : View B) (is : List ℕ) (cns : Conns B) (j : ℕ)
      → ranked_at j (rank_conns minute t is cns).1 ≤ total (is_at j) is
  unfolding rank_conns
  rank_conns-ranked_at minute t [] cns j = omega arith
  rank_conns-ranked_at minute t (i ∷ is) cns j =
      let r = rank_conn minute t (cns i) in
      let later = on_conn cns i (λ cn. r.0) in
      omega (
        arith,
        rank_conns-ranked_at minute t is later j,
        add_rank-ranked_at r.1 i j (rank_conns minute t is later).1,
      )

  rank_conns-others :
      (minute : ℕ) (t : View B) (is : List ℕ) (cns : Conns B) (j : ℕ)
      → total (is_at j) is ≡ 0
      → (rank_conns minute t is cns).0 j ≡ cns j
  unfolding rank_conns
  rank_conns-others minute t [] cns j e = refl
  rank_conns-others minute t (i ∷ is) cns j e =
      let r = rank_conn minute t (cns i) in
      rank_conns-others minute t is (on_conn cns i (λ cn. r.0)) j (omega (arith, e))
      ∙ on_conn-other cns i j (λ cn. r.0) (omega (arith, e))

  rank_conn-seeding :
      (minute : ℕ) (t : View B) (cn : ConnInfo B)
      → (rank_conn minute t cn).1 ≡ seeding
      → can_upload (rank_conn minute t cn).0.state ≡ false
  unfolding rank_conn
  rank_conn-seeding minute t cn e = elim (Bool-cases (peer_seeding t cn)) [
    | inl h ↦ rw h (can_upload-conn_choke t cn)
    | inr h ↦ absurd (not_seeding _ (rw h at e))
  ]

  -- Every connection that is not ranked is choked.
  pub closed :
      (minute : ℕ) (t : View B) (is : List ℕ) (cns : Conns B) (j : ℕ)
      → AreListedOnce is
      → 0 < total (is_at j) is
      → let r = rank_conns minute t is cns in ranked_at j r.1 ≡ 0 → open_at r.0 j ≡ 0
  unfolding rank_conns bool_to_int
  closed minute t [] cns j d h e = absurd (omega (arith, h))
  closed minute t (i ∷ is) cns j d h e =
      let r = rank_conn minute t (cns i) in
      let later = on_conn cns i (λ cn. r.0) in
      let rest = rank_conns minute t is later in
      elim (Bool-cases (j == i)) [
        | inl same ↦
            let j_i = ==→eq j i same in
            let seeds =
              unranked r.1 i rest.1 (subst (λ k. ranked_at k (add_rank r.1 i rest.1) ≡ 0) j_i e) in
            let kept =
              rank_conns-others minute t is later i (omega (arith, d i, is_at_self i))
              ∙ on_conn-same cns i (λ cn. r.0) in
            subst (λ k. open_at rest.0 k ≡ 0) (sym j_i)
              (ap (λ cn. bool_to_int (can_upload cn.state)) kept
                ∙ ap bool_to_int (rank_conn-seeding minute t (cns i) seeds))
        | inr other ↦
            let away : is_at j i ≡ 0 = ap bool_to_int other in
            closed minute t is later j (AreListedOnce-tail i is d) (omega (arith, h, away))
              (omega (arith, e, add_rank_le r.1 i j rest.1))
      ]

  pub covers :
      (minute : ℕ) (t : View B) (is : List ℕ) (cns : Conns B) (w : ℕ → ℕ)
      → AreListedOnce is
      → let r = rank_conns minute t is cns in
        ((j : ℕ) → 0 < total (is_at j) is → ranked_at j r.1 ≡ 0 → w j ≡ 0)
        → total w is ≤ total w r.1.0 + total w r.1.1
  unfolding rank_conns
  covers minute t [] cns w d h = omega arith
  covers minute t (i ∷ is) cns w d h =
      let r = rank_conn minute t (cns i) in
      let later = on_conn cns i (λ cn. r.0) in
      let rest = rank_conns minute t is later in
      let bound = rank_conns-ranked_at minute t is later in
      let head = total_rank w r.1 i rest.1 (λ e. h i (omega (arith, is_at_self i)) (
        subst (λ k. ranked_at i (add_rank k i rest.1) ≡ 0) (sym e)
          (omega (arith, bound i, d i, is_at_self i)))) in
      let tail = covers minute t is later w (AreListedOnce-tail i is d) (λ j some_ e.
        h j (omega (arith, some_))
          (omega (arith, e, some_, d j, add_rank-ranked_at r.1 i j rest.1))) in
      omega (arith, head, tail)
