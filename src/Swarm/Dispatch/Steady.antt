-- ===== src/Swarm/Dispatch/Steady.antt =====
-- The messages of the connections and the answers of the hasher, one after another.
use charo_torrent.Prelude.{
  ℕ, ◌<◌, ◌≡◌, inl, inr, refl, sym, ◌∙◌, true, false, some, arith, Bool-cases, Option-cases,
}
use mathlib.Core.Path.{subst}
use charo_torrent.Misc.{contains}
use charo_torrent.Bitmap.{Bitmap}
use charo_torrent.Piece.{Block}
use charo_torrent.Pieces.{block_completed}
use charo_torrent.ConnInfo.{
  ConnInfo, peer_choke_changed, review_interests_on_bitfield, review_interests_on_have,
  started_uploading, stopped_uploading,
}
use charo_torrent.Swarm.Dispatch.{
  Torrent, Event, interest_changed, choke_changed, peer_has, peer_bitfield, downloaded_block,
  uploaded_block, discarded_requests, flip_interest, stats_block_downloaded, requests_available,
  broadcast, have_all, view, at_conn, after_block, block_downloaded, block_uploaded,
  conn_interest_changed, on_conn_msg,
}
use charo_torrent.Swarm.Dispatch.Wants.{
  IsTuned, has_lem, bitfield_lem, SameWants, choke_same, started_same,
}
use charo_torrent.Swarm.Dispatch.Counted.{
  on_conn_at, AreTuned, KeepsWants, kept_tuned, block_completed_owned, after_block-KeepsWants,
}

module _ {B : Type 0} ⦃bm : Bitmap B⦄ where
  pub unmoved_refl : (a : ConnInfo B) → SameWants a a
  unmoved_refl a = (refl, refl, refl)

  pub unmoved_trans : (a b c : ConnInfo B) → SameWants a b → SameWants b c → SameWants a c
  unmoved_trans a b c (x, y, z) (p, q, r) = (x ∙ p, y ∙ q, z ∙ r)

  torrent_trans : (t u v : Torrent B) → KeepsWants t u → KeepsWants u v → KeepsWants t v
  torrent_trans t u v (a, b, c, d) (p, q, r, s) =
      (p ∙ a, q ∙ b, r ∙ c, λ i. unmoved_trans (v.info i) (u.info i) (t.info i) (s i) (d i))

  at_conn-KeepsWants :
      (t : Torrent B) (c : ℕ) (f : ConnInfo B → ConnInfo B)
      → ((cn : ConnInfo B) → SameWants (f cn) cn)
      → KeepsWants t (at_conn t c f)
  at_conn-KeepsWants t c f h = (
    refl,
    refl,
    refl,
    λ j.
        on_conn_at t.info c j f (λ x. SameWants x (t.info j))
          (λ e. subst (λ k. SameWants (f (t.info c)) (t.info k)) (sym e) (h (t.info c)))
          (unmoved_refl (t.info j)),
  )

  -- The choker changes no connection's bitmap, count or interest of ours.
  abbrev pub IsReview : (Torrent B → ℕ → ConnInfo B) → Type 0
  IsReview review = (t : Torrent B) (c : ℕ) → SameWants (review t c) (t.info c)

  conn_interest_changed-KeepsWants :
      (review : Torrent B → ℕ → ConnInfo B) (now c : ℕ) (t : Torrent B)
      → IsReview review
      → KeepsWants t (conn_interest_changed review now c t)
  unfolding conn_interest_changed
  conn_interest_changed-KeepsWants review now c t h =
      let t1 = at_conn t c flip_interest in
      let k1 = at_conn-KeepsWants t c flip_interest (λ cn. (refl, refl, refl)) in
      let t2 : Torrent B = record t1 { info = review t1 } in
      let k2 : KeepsWants t t2 = torrent_trans t t1 t2 k1 (refl, refl, refl, λ j. h t1 j) in
      let cn = t1.info c in
      let started = λ (u : Torrent B).
        at_conn-KeepsWants u c (started_uploading (view u now)) (started_same (view u now)) in
      elim (Bool-cases cn.state.am_choking) [
        | inl choked ↦ elim (Bool-cases cn.state.is_interested) [
          | inl wants ↦
              rw (choked, wants)
                (torrent_trans t t1 (at_conn t1 c (started_uploading (view t1 now))) k1
                  (started t1))
          | inr lost ↦ rw (choked, lost) k1
        ]
        | inr unchoked ↦ elim (Bool-cases cn.state.is_interested) [
          | inl wants ↦
              rw (unchoked, wants)
                (torrent_trans t t2 (at_conn t2 c (started_uploading (view t2 now))) k2
                  (started t2))
          | inr lost ↦
              rw (unchoked, lost)
                (torrent_trans t t2 (at_conn t2 c (stopped_uploading (view t2 now))) k2 (
                  at_conn-KeepsWants t2 c (stopped_uploading (view t2 now))
                    (λ x. (refl, refl, refl))))
        ]
      ]

  block_downloaded-KeepsWants :
      (now c : ℕ) (b : Block) (t t' : Torrent B)
      → block_downloaded now c b t ≡ some t'
      → KeepsWants t t'
  unfolding block_downloaded
  block_downloaded-KeepsWants now c b t t' e =
      let mark : ConnInfo B → ConnInfo B =
        λ cn. record cn { stats = record cn.stats { last_received_piece_msg = now } } in
      let t1 = at_conn t c mark in
      let k1 = at_conn-KeepsWants t c mark (λ cn. (refl, refl, refl)) in
      elim (Option-cases (block_completed t.pieces b.pc b.off c)) [
        | inl gone ↦ absurd (ground arith)
        | inr ((ps, s), done) ↦
            let t2 : Torrent B = record t1 {
              stats = stats_block_downloaded t.stats;
              pieces = ps;
            } in
            let run : after_block b.pc s t2 ≡ some t' = ground arith in
            torrent_trans t t2 t'
              (refl, refl, block_completed_owned t.pieces ps b.pc b.off c s done, k1.3)
              (after_block-KeepsWants b.pc s t2 t' run)
      ]

  -- A Have is for a piece that the peer did not announce before, and a bitfield is the peer's first
  -- announcement; a connection ends on others (torrent/conn.go, onPeerMsg).
  abbrev pub IsNews : Torrent B → ℕ → Event B → Type 0
  IsNews t c (peer_has i) = (i < t.num_pieces) × (bm.get (t.info c).peer_bf i ≡ false)
  IsNews t c (peer_bitfield b) = (i : ℕ) → bm.get (t.info c).peer_bf i ≡ false
  IsNews t c _ = Unit {0}

  abbrev pub StaysTuned : Torrent B → Torrent B → Type 0
  StaysTuned t u = (u.conns ≡ t.conns) × AreTuned u

  kept : (t u : Torrent B) → KeepsWants t u → AreTuned t → StaysTuned t u
  kept t u k ih = (k.0, kept_tuned t u k ih)

  pub on_conn_msg-AreTuned :
      (review : Torrent B → ℕ → ConnInfo B) (now c : ℕ) (e : Event B) (t t' : Torrent B)
      → IsReview review
      → have_all t ≡ false
      → contains t.conns c ≡ true
      → IsNews t c e
      → on_conn_msg review now c e t ≡ some t'
      → AreTuned t
      → StaysTuned t t'
  unfolding on_conn_msg
  on_conn_msg-AreTuned review now c interest_changed t t' h lacks here news e ih =
      let u = conn_interest_changed review now c t in
      let same : u ≡ t' = cc in
      subst (StaysTuned t) same (kept t u (conn_interest_changed-KeepsWants review now c t h) ih)
  on_conn_msg-AreTuned review now c choke_changed t t' h lacks here news e ih =
      let v = view t now in
      let u = at_conn t c (peer_choke_changed v) in
      let same : u ≡ t' = cc in
      subst (StaysTuned t) same
        (kept t u (at_conn-KeepsWants t c (peer_choke_changed v) (choke_same v)) ih)
  on_conn_msg-AreTuned review now c (peer_has i) t t' h lacks here (inside, new) e ih =
      let v = view t now in
      let f : ConnInfo B → ConnInfo B =
        λ cn. review_interests_on_have v i (record cn { peer_bf = bm.put cn.peer_bf i true }) in
      let same : at_conn t c f ≡ t' = cc in
      subst (StaysTuned t) same (
        refl,
        λ j l.
            on_conn_at t.info c j f (IsTuned t.pieces.owned_pieces t.num_pieces)
              (λ x. has_lem v i (t.info c) refl lacks inside new (ih c here)) (ih j l),
      )
  on_conn_msg-AreTuned review now c (peer_bitfield b) t t' h lacks here new e ih =
      let v = view t now in
      let f : ConnInfo B → ConnInfo B =
        λ cn. review_interests_on_bitfield v (record cn { peer_bf = b }) in
      let same : at_conn t c f ≡ t' = cc in
      subst (StaysTuned t) same (
        refl,
        λ j l.
            on_conn_at t.info c j f (IsTuned t.pieces.owned_pieces t.num_pieces)
              (λ x. bitfield_lem v b (t.info c) refl lacks new (ih c here)) (ih j l),
      )
  on_conn_msg-AreTuned review now c (downloaded_block b) t t' h lacks here news e ih =
      kept t t' (block_downloaded-KeepsWants now c b t t' e) ih
  on_conn_msg-AreTuned review now c (uploaded_block b) t t' h lacks here news e ih =
      let same : block_uploaded b t ≡ t' = cc in subst (StaysTuned t) same (refl, ih)
  on_conn_msg-AreTuned review now c discarded_requests t t' h lacks here news e ih =
      let same : broadcast requests_available t ≡ t' = cc in subst (StaysTuned t) same (refl, ih)
