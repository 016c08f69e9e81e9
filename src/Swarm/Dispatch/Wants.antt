-- ===== src/Swarm/Dispatch/Wants.antt =====
-- numWant of a connection counts the pieces that its peer has and the torrent lacks.
use charo_torrent.Prelude.{
  ℕ, zero, suc, ◌+◌, ◌-◌, ◌<◌, ◌≡◌, inl, inr, refl, sym, ap, ◌∙◌, true, false, not, ◌&&◌, ltb, ◌==◌,
  if◌then◌else◌, arith, ltb→lt, ==→eq, Bool-cases,
}
use charo_torrent.Bitmap.{Bitmap}
use charo_torrent.ConnInfo.{
  ConnInfo, View, send_msg_to_conn, conn_have, conn_interested, conn_not_interested,
  peer_choke_changed, review_interests_on_bitfield, count_wanted, started_downloading,
  stop_downloading, review_interests_on_have, started_uploading,
}
use charo_torrent.Swarm.Dispatch.{blocks_left}

module _ {B : Type 0} ⦃bm : Bitmap B⦄ where
  -- How many of the pieces 0 to n - 1 the peer has and the torrent lacks.
  abbrev pub wanted : B → B → ℕ → ℕ
  wanted owned peer zero = 0
  wanted owned peer (suc i) =
      wanted owned peer i + (if not (bm.get owned i) && bm.get peer i then 1 else 0)

  count_wanted_lem :
      (v : View B) (peer : B) (n : ℕ) → count_wanted v peer n ≡ wanted v.owned_pieces peer n
  unfolding count_wanted
  count_wanted_lem v peer zero = refl
  count_wanted_lem v peer (suc n) = rw (count_wanted_lem v peer n) refl

  pub wanted-empty :
      (owned peer : B) (n : ℕ) → ((i : ℕ) → bm.get peer i ≡ false) → wanted owned peer n ≡ 0
  wanted-empty owned peer zero h = refl
  wanted-empty owned peer (suc n) h = ground (arith, h n, wanted-empty owned peer n h)

  wanted-put :
      (owned peer : B) (n i : ℕ)
      → bm.get peer i ≡ false
      → wanted owned (bm.put peer i true) n
        ≡ wanted owned peer n + (if ltb i n && not (bm.get owned i) then 1 else 0)
  wanted-put owned peer zero i h = ground arith
  wanted-put owned peer (suc n) i h = elim (Bool-cases (i == n)) [
    | inl e ↦
        let same = ==→eq i n e in
        ground (
          arith,
          wanted-put owned peer n i h,
          bm.get-put peer i true n,
          ap (bm.get owned) same,
          ap (bm.get peer) same,
        )
    | inr e ↦ ground (arith, wanted-put owned peer n i h, bm.get-put peer i true n)
  ]

  wanted-own :
      (owned peer : B) (n i : ℕ)
      → bm.get owned i ≡ false
      → wanted (bm.put owned i true) peer n + (if ltb i n && bm.get peer i then 1 else 0)
        ≡ wanted owned peer n
  wanted-own owned peer zero i h = ground arith
  wanted-own owned peer (suc n) i h = elim (Bool-cases (i == n)) [
    | inl e ↦
        let same = ==→eq i n e in
        ground (
          arith,
          wanted-own owned peer n i h,
          bm.get-put owned i true n,
          ap (bm.get owned) same,
          ap (bm.get peer) same,
        )
    | inr e ↦ ground (arith, wanted-own owned peer n i h, bm.get-put owned i true n)
  ]

  -- numWant is exact, and a peer that has nothing for us is not told Interested.
  abbrev pub IsTuned : B → ℕ → ConnInfo B → Type 0
  IsTuned owned n cn =
      (cn.num_want ≡ wanted owned cn.peer_bf n) × (cn.state.am_interested ≡ true → 0 < cn.num_want)

  pub has_lem :
      (v : View B) (i : ℕ) (cn : ConnInfo B)
      → v.have_info ≡ true
      → v.have_all ≡ false
      → i < v.num_pieces
      → bm.get cn.peer_bf i ≡ false
      → IsTuned v.owned_pieces v.num_pieces cn
      → IsTuned v.owned_pieces v.num_pieces
          (review_interests_on_have v i (record cn { peer_bf = bm.put cn.peer_bf i true }))
  unfolding review_interests_on_have conn_interested send_msg_to_conn started_downloading
  has_lem v i cn info lacks inside new (exact, keen) =
      let p = wanted-put v.owned_pieces cn.peer_bf v.num_pieces i new in
      elim (Bool-cases (bm.get v.owned_pieces i)) [
        | inl ours ↦ rw (info, lacks, ours) (ground (arith, p), keen)
        | inr theirs ↦ elim (Bool-cases (cn.num_want == 0)) [
          | inl none_yet ↦ rw (info, lacks, theirs, none_yet) (ground (arith, p), λ a. omega arith)
          | inr some_more ↦
              rw (info, lacks, theirs, some_more) (ground (arith, p), λ a. omega arith)
        ]
      ]

  interested_lem :
      (v : View B) (cn : ConnInfo B)
      → ((conn_interested v cn).num_want ≡ cn.num_want)
        × ((conn_interested v cn).peer_bf ≡ cn.peer_bf)
  unfolding conn_interested send_msg_to_conn started_downloading
  interested_lem v cn = (ground arith, ground arith)

  pub not_interested_lem :
      (v : View B) (cn : ConnInfo B)
      → ((conn_not_interested v cn).num_want ≡ cn.num_want)
        × ((conn_not_interested v cn).peer_bf ≡ cn.peer_bf)
        × ((conn_not_interested v cn).state.am_interested ≡ false)
  unfolding conn_not_interested send_msg_to_conn
  not_interested_lem v cn = (ground arith, ground arith, ground arith)

  pub bitfield_lem :
      (v : View B) (b : B) (cn : ConnInfo B)
      → v.have_info ≡ true
      → v.have_all ≡ false
      → ((i : ℕ) → bm.get cn.peer_bf i ≡ false)
      → IsTuned v.owned_pieces v.num_pieces cn
      → IsTuned v.owned_pieces v.num_pieces
          (review_interests_on_bitfield v (record cn { peer_bf = b }))
  unfolding review_interests_on_bitfield
  bitfield_lem v b cn info lacks new (exact, keen) =
      let z = wanted-empty v.owned_pieces cn.peer_bf v.num_pieces new in
      let c = count_wanted_lem v b v.num_pieces in
      let n = cn.num_want + count_wanted v b v.num_pieces in
      let cn1 : ConnInfo B = record cn { peer_bf = b; num_want = n } in
      let same = interested_lem v cn1 in
      elim (Bool-cases (ltb 0 n)) [
        | inl some_more ↦
            rw (info, lacks, some_more)
              (
                same.0
                    ∙ omega (arith, exact, z, c)
                    ∙ ap (λ q. wanted v.owned_pieces q v.num_pieces) (sym (same.1)),
                λ a. omega (arith, same.0, ltb→lt 0 n some_more),
              )
        | inr nothing ↦
            rw (info, lacks, nothing) (omega (arith, exact, z, c), λ a. omega (arith, keen a))
      ]

  pub blocks_left_lem :
      (v : View B) (owned : B) (i : ℕ) (cn : ConnInfo B)
      → i < v.num_pieces
      → bm.get owned i ≡ false
      → IsTuned owned v.num_pieces cn
      → IsTuned (bm.put owned i true) v.num_pieces (blocks_left v i cn)
  unfolding blocks_left
  blocks_left_lem v owned i cn inside new (exact, keen) =
      let p = wanted-own owned cn.peer_bf v.num_pieces i new in
      let cn1 : ConnInfo B = record cn { num_want = cn.num_want - 1 } in
      let (same, same_bf, off) = not_interested_lem v cn1 in
      elim (Bool-cases (bm.get cn.peer_bf i)) [
        | inr lacks ↦ rw lacks (ground (arith, p), keen)
        | inl has ↦ elim (Bool-cases (cn.num_want - 1 == 0)) [
          | inl over ↦
              rw (has, over)
                (
                  same
                      ∙ ground (arith, p)
                      ∙ ap (λ q. wanted (bm.put owned i true) q v.num_pieces) (sym same_bf),
                  λ a. absurd (cc),
                )
          | inr more ↦ rw (has, more) (ground (arith, p), λ a. ground arith)
        ]
      ]

  -- What the count depends on is the same.
  abbrev pub SameWants : ConnInfo B → ConnInfo B → Type 0
  SameWants a b =
      (a.num_want ≡ b.num_want)
      × (a.peer_bf ≡ b.peer_bf)
      × (a.state.am_interested ≡ b.state.am_interested)

  pub unmoved :
      (owned : B) (n : ℕ) (a b : ConnInfo B) → SameWants a b → IsTuned owned n b → IsTuned owned n a
  unmoved owned n a b (e1, e2, e3) (exact, keen) =
      (e1 ∙ exact ∙ ap (λ q. wanted owned q n) (sym e2), λ x. omega (arith, e1, keen (sym e3 ∙ x)))

  pub choke_same : (v : View B) (cn : ConnInfo B) → SameWants (peer_choke_changed v cn) cn
  unfolding peer_choke_changed started_downloading stop_downloading
  choke_same v cn = (ground arith, ground arith, ground arith)

  pub have_same : (v : View B) (cn : ConnInfo B) → SameWants (conn_have v cn) cn
  unfolding conn_have send_msg_to_conn
  have_same v cn = (ground arith, ground arith, ground arith)

  pub started_same : (v : View B) (cn : ConnInfo B) → SameWants (started_uploading v cn) cn
  unfolding started_uploading
  started_same v cn = (ground arith, ground arith, ground arith)
