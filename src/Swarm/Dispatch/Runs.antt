-- ===== src/Swarm/Dispatch/Runs.antt =====
-- numWant when the hasher answers for a piece.
use charo_torrent.Prelude.{
  ℕ, ◌<◌, ◌≡◌, inl, inr, refl, sym, ap, ◌∙◌, Bool, true, false, List, some, ◌==◌, if◌then◌else◌,
  arith, Bool-cases, Option-cases,
}
use mathlib.Core.Path.{subst}
use charo_torrent.Misc.{contains}
use charo_torrent.Bitmap.{Bitmap}
use charo_torrent.Pieces.{Pieces, piece_hashed, owns_all}
use charo_torrent.Storage.Blocks.{IsNodup}
use charo_torrent.ConnInfo.{conn_have}
use charo_torrent.Swarm.{delete_key, piece_len_at}
use charo_torrent.Swarm.Dispatch.{
  Torrent, stats_on_piece_download, have_all, view, for_conns, blocks_left,
  review_interests_on_piece_download, send_haves, on_piece_download, torrent_piece_hashed,
  downloaded_all, on_piece_hashed,
}
use charo_torrent.Swarm.Dispatch.Wants.{IsTuned, blocks_left_lem, unmoved, have_same}
use charo_torrent.Swarm.Dispatch.Counted.{for_conns_at, AreTuned, kept_tuned, piece_hashed_owned}

module _ {B : Type 0} ⦃bm : Bitmap B⦄ where
  -- The torrent after onPieceDownload, without the counters: its conns and pieces stay.
  abbrev after_download : ℕ → ℕ → Torrent B → Torrent B
  after_download now i t = send_haves now (review_interests_on_piece_download now i t)

  after_download_fields :
      (now i : ℕ) (t : Torrent B)
      → ((after_download now i t).conns ≡ t.conns)
        × ((after_download now i t).pieces ≡ t.pieces)
        × ((after_download now i t).num_pieces ≡ t.num_pieces)
  unfolding send_haves review_interests_on_piece_download
  after_download_fields now i t = elim (Bool-cases (have_all t)) [
    | inl all ↦ (rw all refl, rw all refl, rw all refl)
    | inr lacks ↦ (rw lacks refl, rw lacks refl, rw lacks refl)
  ]

  after_download_same :
      (now i : ℕ) (t : Torrent B)
      → ((after_download now i t).conns ≡ t.conns)
        × (have_all (after_download now i t) ≡ have_all t)
  unfolding owns_all
  after_download_same now i t =
      let (conns, pieces, n) = after_download_fields now i t in
      let u = after_download now i t in
      (
        conns,
        ap (λ (ps : Pieces B). bm.len ps.owned_pieces == u.num_pieces) pieces
            ∙ ap (λ (m : ℕ). bm.len t.pieces.owned_pieces == m) n,
      )

  downloaded_haves :
      (now i : ℕ) (owned : B) (t : Torrent B)
      → IsNodup t.conns
      → i < t.num_pieces
      → bm.get owned i ≡ false
      → t.pieces.owned_pieces ≡ bm.put owned i true
      → have_all t ≡ false
      → ((c : ℕ) → contains t.conns c ≡ true → IsTuned owned t.num_pieces (t.info c))
      → AreTuned (after_download now i t)
  unfolding send_haves review_interests_on_piece_download blocks_left conn_have
  downloaded_haves now i owned t nodup inside new grown lacks ih =
      let v = view t now in
      let info1 = for_conns t.conns (blocks_left v i) t.info in
      let w = view (record t { info = info1 }) now in
      let u : Torrent B = record t { info = for_conns t.conns (conn_have w) info1 } in
      let same : u ≡ after_download now i t = rw lacks refl in
      let at_u : (c : ℕ)
          → contains t.conns c ≡ true
          → IsTuned t.pieces.owned_pieces t.num_pieces (u.info c) =
        λ c here.
          let e1 : info1 c ≡ blocks_left v i (t.info c) =
            for_conns_at t.conns (blocks_left v i) t.info c nodup ∙ rw here refl in
          let tuned : IsTuned t.pieces.owned_pieces t.num_pieces (info1 c) =
            subst (λ x. IsTuned t.pieces.owned_pieces t.num_pieces x) (sym e1)
              (subst (λ o. IsTuned o t.num_pieces (blocks_left v i (t.info c))) (sym grown)
                (blocks_left_lem v owned i (t.info c) inside new (ih c here))) in
          let e2 : u.info c ≡ conn_have w (info1 c) =
            for_conns_at t.conns (conn_have w) info1 c nodup ∙ rw here refl in
          subst (λ x. IsTuned t.pieces.owned_pieces t.num_pieces x) (sym e2)
            (unmoved t.pieces.owned_pieces t.num_pieces (conn_have w (info1 c)) (info1 c)
              (have_same w (info1 c)) tuned) in
      subst AreTuned same at_u

  finish :
      (now : ℕ) (cs : List ℕ) (t1 t' : Torrent B)
      → (if have_all t1 then downloaded_all now t1 else t1) ≡ t'
      → t1.conns ≡ cs
      → (have_all t1 ≡ false → AreTuned t1)
      → (t'.conns ≡ cs) × (have_all t' ≡ false → AreTuned t')
  unfolding downloaded_all
  finish now cs t1 t' e same ih = elim (Bool-cases (have_all t1)) [
    | inl all ↦
        let to : downloaded_all now t1 ≡ t' =
          sym (ap (λ b. if b then downloaded_all now t1 else t1) all) ∙ e in
        subst (λ u. (u.conns ≡ cs) × (have_all u ≡ false → AreTuned u)) to (same, λ f. absurd (cc))
    | inr lacks ↦
        let to : t1 ≡ t' = sym (ap (λ b. if b then downloaded_all now t1 else t1) lacks) ∙ e in
        subst (λ u. (u.conns ≡ cs) × (have_all u ≡ false → AreTuned u)) to (same, ih)
  ]

  -- The hasher's answer for a piece that was lacked, when more pieces are lacked after it.
  pub on_piece_hashed-AreTuned :
      (now i : ℕ) (correct : Bool) (t t' : Torrent B)
      → IsNodup t.conns
      → i < t.num_pieces
      → bm.get t.pieces.owned_pieces i ≡ false
      → on_piece_hashed now i correct t ≡ some t'
      → AreTuned t
      → (t'.conns ≡ t.conns) × (have_all t' ≡ false → AreTuned t')
  unfolding on_piece_hashed torrent_piece_hashed on_piece_download
  on_piece_hashed-AreTuned now i false t t' nodup inside new e ih =
      elim (Option-cases (piece_hashed t.pieces i false)) [
        | inl gone ↦ absurd (ground arith)
        | inr ((ps, cs), done) ↦
            let t1 : Torrent B = record t {
              queue = record t.queue { queued = delete_key t.queue.queued i };
              pieces = ps;
            } in
            let run : (if have_all t1 then downloaded_all now t1 else t1) ≡ t' = ground arith in
            finish now t.conns t1 t' run refl (λ f.
              kept_tuned t t1
                (
                  refl,
                  refl,
                  piece_hashed_owned t.pieces ps i false cs done,
                  λ c. (refl, refl, refl),
                )
                ih)
      ]
  on_piece_hashed-AreTuned now i true t t' nodup inside new e ih =
      elim (Option-cases (piece_hashed t.pieces i true)) [
        | inl gone ↦ absurd (ground arith)
        | inr ((ps, cs), done) ↦
            elim (Option-cases (piece_len_at t.num_pieces t.total t.piece_len i)) [
              | inl gone ↦ absurd (ground arith)
              | inr (len, l) ↦
                  let t1 : Torrent B = record t {
                    queue = record t.queue { queued = delete_key t.queue.queued i };
                    pieces = ps;
                    stats = stats_on_piece_download len t.stats;
                  } in
                  let t2 = after_download now i t1 in
                  let stays = after_download_same now i t1 in
                  let run : (if have_all t2 then downloaded_all now t2 else t2) ≡ t' =
                    ground arith in
                  finish now t.conns t2 t' run stays.0 (λ f.
                    downloaded_haves now i t.pieces.owned_pieces t1 nodup inside new
                      (piece_hashed_owned t.pieces ps i true cs done) (sym stays.1 ∙ f) ih)
            ]
      ]
