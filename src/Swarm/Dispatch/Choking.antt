-- ===== src/Swarm/Dispatch/Choking.antt =====
-- A review of the choker changes no connection's bitmap, no numWant and no interest of ours.
use charo_torrent.Prelude.{
  ℕ, zero, suc, ◌%◌, inl, inr, refl, sym, ◌&&◌, List, [], ◌∷◌, ◌++◌, Option, none, some, ◌==◌,
  if◌then◌else◌, length, drop, arith, Bool-cases,
}
use mathlib.Core.Path.{subst}
use charo_torrent.Bitmap.{Bitmap}
use charo_torrent.ConnInfo.{
  ConnInfo, View, send_msg_to_conn, conn_choke, conn_unchoke, started_uploading, stop_uploading,
  peer_seeding,
}
use charo_torrent.Choker.{
  Choker, on_conn, conn_is_snubbed, rank_conn, rank_conns, unchoke_best, unchoke_bests,
  review_candidate, review_candidates, unchoke_optimistic, is_optimistic, review_with,
  review_unchoked_peers, pick_optimistic_unchoke,
}
use charo_torrent.Swarm.Dispatch.{Torrent, view}
use charo_torrent.Swarm.Dispatch.Wants.{SameWants}
use charo_torrent.Swarm.Dispatch.Counted.{on_conn_at}
use charo_torrent.Swarm.Dispatch.Steady.{IsReview, unmoved_refl, unmoved_trans}

module _ {B : Type 0} ⦃bm : Bitmap B⦄ where
  abbrev AllSame : (ℕ → ConnInfo B) → (ℕ → ConnInfo B) → Type 0
  AllSame after before = (c : ℕ) → SameWants (after c) (before c)

  chain : (a b c : ℕ → ConnInfo B) → AllSame a b → AllSame b c → AllSame a c
  chain a b c x y i = unmoved_trans (a i) (b i) (c i) (x i) (y i)

  one_changed :
      (cns : ℕ → ConnInfo B) (i : ℕ) (f : ConnInfo B → ConnInfo B)
      → SameWants (f (cns i)) (cns i)
      → AllSame (on_conn cns i f) cns
  one_changed cns i f h j =
      on_conn_at cns i j f (λ x. SameWants x (cns j))
        (λ e. subst (λ k. SameWants (f (cns i)) (cns k)) (sym e) h) (unmoved_refl (cns j))

  choked : (v : View B) (cn : ConnInfo B) → SameWants (conn_choke v cn) cn
  unfolding conn_choke send_msg_to_conn stop_uploading
  choked v cn = (ground arith, ground arith, ground arith)

  unchoked : (v : View B) (cn : ConnInfo B) → SameWants (conn_unchoke v cn) cn
  unfolding conn_unchoke send_msg_to_conn started_uploading
  unchoked v cn = (ground arith, ground arith, ground arith)

  ranked_one : (minute : ℕ) (v : View B) (cn : ConnInfo B) → SameWants (rank_conn minute v cn).0 cn
  unfolding rank_conn conn_is_snubbed
  ranked_one minute v cn = elim (Bool-cases (peer_seeding v cn)) [
    | inl seeds ↦ rw seeds (choked v cn)
    | inr leeches ↦ elim (Bool-cases v.have_all) [
      | inl all ↦ rw (leeches, all) (unmoved_refl cn)
      | inr lacks ↦ rw (leeches, lacks) (refl, refl, refl)
    ]
  ]

  ranked_all :
      (minute : ℕ) (v : View B) (is : List ℕ) (cns : ℕ → ConnInfo B)
      → AllSame (rank_conns minute v is cns).0 cns
  unfolding rank_conns
  ranked_all minute v [] cns = λ c. unmoved_refl (cns c)
  ranked_all minute v (i ∷ is) cns =
      let f : ConnInfo B → ConnInfo B = λ cn. (rank_conn minute v (cns i)).0 in
      chain (rank_conns minute v (i ∷ is) cns).0 (on_conn cns i f) cns
        (ranked_all minute v is (on_conn cns i f))
        (one_changed cns i f (ranked_one minute v (cns i)))

  best_one :
      (v : View B) (opt : Option ℕ) (i left : ℕ) (cns : ℕ → ConnInfo B)
      → AllSame (unchoke_best v opt i left cns).0 cns
  unfolding unchoke_best
  best_one v opt i left cns = elim (Bool-cases (is_optimistic opt i)) [
    | inl skip ↦ rw skip (λ c. unmoved_refl (cns c))
    | inr go ↦ rw go (one_changed cns i (conn_unchoke v) (unchoked v (cns i)))
  ]

  best_all :
      (v : View B) (opt : Option ℕ) (slots : ℕ) (is : List ℕ) (left : ℕ) (cns : ℕ → ConnInfo B)
      → AllSame (unchoke_bests v opt slots is left cns).0 cns
  unfolding unchoke_bests
  best_all v opt zero is left cns = λ c. unmoved_refl (cns c)
  best_all v opt (suc slots) [] left cns = λ c. unmoved_refl (cns c)
  best_all v opt (suc slots) (i ∷ is) left cns =
      let r = unchoke_best v opt i left cns in
      chain (unchoke_bests v opt slots is r.1 r.0).0 r.0 cns (best_all v opt slots is r.1 r.0)
        (best_one v opt i left cns)

  candidate_one :
      (v : View B) (opt : Option ℕ) (i left : ℕ) (cns : ℕ → ConnInfo B)
      → AllSame (review_candidate v opt i left cns).0 cns
  unfolding review_candidate
  candidate_one v opt i left cns = elim (Bool-cases (is_optimistic opt i)) [
    | inl skip ↦ rw skip (λ c. unmoved_refl (cns c))
    | inr go ↦ elim (Bool-cases (left == 0)) [
      | inl full ↦ rw (go, full) (one_changed cns i (conn_choke v) (choked v (cns i)))
      | inr room ↦ rw (go, room) (one_changed cns i (conn_unchoke v) (unchoked v (cns i)))
    ]
  ]

  candidate_all :
      (v : View B) (opt : Option ℕ) (is : List ℕ) (left : ℕ) (cns : ℕ → ConnInfo B)
      → AllSame (review_candidates v opt is left cns) cns
  unfolding review_candidates
  candidate_all v opt [] left cns = λ c. unmoved_refl (cns c)
  candidate_all v opt (i ∷ is) left cns =
      let r = review_candidate v opt i left cns in
      chain (review_candidates v opt is r.1 r.0) r.0 cns (candidate_all v opt is r.1 r.0)
        (candidate_one v opt i left cns)

  first_unchoked :
      (v : View B) (opt : Option ℕ) (cns : ℕ → ConnInfo B)
      → AllSame (unchoke_optimistic v opt cns) cns
  first_unchoked v none cns = λ c. unmoved_refl (cns c)
  first_unchoked v (some o) cns = one_changed cns o (conn_unchoke v) (unchoked v (cns o))

  reviewed_with :
      (minute : ℕ) (v : View B) (by_rate : (ℕ → ConnInfo B) → List ℕ → List ℕ)
      (perm : List ℕ → List ℕ) (opt : Option ℕ) (slots : ℕ) (ids : List ℕ) (cns : ℕ → ConnInfo B)
      → AllSame (review_with minute v by_rate perm opt slots ids cns) cns
  unfolding review_with
  reviewed_with minute v by_rate perm opt slots ids cns =
      let first = unchoke_optimistic v opt cns in
      let ranked = rank_conns minute v ids first in
      let bests = by_rate ranked.0 ranked.1.0 in
      let r = unchoke_bests v opt slots bests slots ranked.0 in
      let last = review_candidates v opt (perm (ranked.1.1 ++ drop slots bests)) r.1 r.0 in
      chain last r.0 cns (candidate_all v opt (perm (ranked.1.1 ++ drop slots bests)) r.1 r.0) (
        chain r.0 ranked.0 cns (best_all v opt slots bests slots ranked.0)
          (chain ranked.0 first cns (ranked_all minute v ids first) (first_unchoked v opt cns)))

  -- The choker's review of the connections of a torrent, at the time `now`.
  abbrev pub choker_review :
      ℕ
      → (ℕ → ℕ)
      → ((ℕ → ConnInfo B) → List ℕ → List ℕ)
      → (List ℕ → List ℕ)
      → Choker
      → ℕ
      → Torrent B
      → ℕ
      → ConnInfo B
  choker_review minute intn by_rate perm ch now t c =
      (review_unchoked_peers minute (view t now) intn by_rate perm t.conns (ch, t.info)).1 c

  pub choker_review-IsReview :
      (minute : ℕ) (intn : ℕ → ℕ) (by_rate : (ℕ → ConnInfo B) → List ℕ → List ℕ)
      (perm : List ℕ → List ℕ) (ch : Choker) (now : ℕ)
      → IsReview (choker_review minute intn by_rate perm ch now)
  unfolding review_unchoked_peers
  choker_review-IsReview minute intn by_rate perm ch now t c =
      elim (Bool-cases (length t.conns == 0)) [
        | inl nobody ↦ rw (choker_review, review_unchoked_peers, nobody) (unmoved_refl (t.info c))
        | inr some_conn ↦
            let opt : Option ℕ =
              if ch.enable_optimistic && ch.curr_round % 5 == 0
              then pick_optimistic_unchoke intn t.info t.conns
              else ch.optimistic in
            rw (choker_review, review_unchoked_peers, some_conn)
              (reviewed_with minute (view t now) by_rate perm opt ch.max_upload_slots t.conns t.info
                c)
      ]
