-- ===== src/ConnInfo/Interest.antt =====
-- When the messages of a peer make this side interested in it.
use charo_torrent.Prelude.{
  ℕ, zero, suc, ◌+◌, ◌<◌, ◌≡◌, ◌↔◌, ◌⊎◌, inl, inr, refl, ◌∙◌, true, false, not, ◌&&◌, ◌||◌, List,
  [], ◌∷◌, ltb, ◌==◌, arith, ltb→lt, ==→eq, Bool-cases,
}
use charo_torrent.Bitmap.{Bitmap}
use charo_torrent.ConnInfo.{
  ConnInfo, View, send_msg_to_conn, started_downloading, can_download, conn_interested,
  count_wanted, review_interests_on_bitfield, review_interests_on_have,
}

module _ {B : Type 0} ⦃bm : Bitmap B⦄ where
  -- The calls that the Have messages of a peer lead to.
  unfoldable pub on_haves : View B → List ℕ → ConnInfo B → ConnInfo B
  on_haves t [] cn = cn
  on_haves t (i ∷ is) cn = on_haves t is (review_interests_on_have t i cn)

  have_keeps :
      (t : View B) (i : ℕ) (cn : ConnInfo B)
      → ((review_interests_on_have t i cn).state.am_interested ≡ cn.state.am_interested)
        × ((review_interests_on_have t i cn).sent ≡ cn.sent)
  unfolding review_interests_on_have conn_interested
  have_keeps t i cn = (ground arith, ground arith)

  -- However many pieces a peer announces by Have messages, they neither make this side interested
  -- in it nor send it a message: the call for the first of them comes before the count of wanted
  -- pieces goes up from 0, and the later ones do not call.
  pub on_haves_keep :
      (t : View B) (is : List ℕ) (cn : ConnInfo B)
      → ((on_haves t is cn).state.am_interested ≡ cn.state.am_interested)
        × ((on_haves t is cn).sent ≡ cn.sent)
  unfolding on_haves
  on_haves_keep t [] cn = (refl, refl)
  on_haves_keep t (i ∷ is) cn =
      let step = have_keeps t i cn in
      let rest = on_haves_keep t is (review_interests_on_have t i cn) in
      (rest.0 ∙ step.0, rest.1 ∙ step.1)

  count_wanted-none :
      (t : View B) (peer_bf : B) (n : ℕ)
      → count_wanted t peer_bf n ≡ 0
      → (i : ℕ) → i < n
      → (not (bm.get t.owned_pieces i) && bm.get peer_bf i) ≡ false
  unfolding count_wanted
  count_wanted-none t peer_bf zero e i h = absurd (omega arith)
  count_wanted-none t peer_bf (suc n) e i h = elim (Bool-cases (i == n)) [
    | inl same ↦ rw (==→eq i n same) (ground arith)
    | inr other ↦ count_wanted-none t peer_bf n (ground arith) i (ground arith)
  ]

  count_wanted-some :
      (t : View B) (peer_bf : B) (n : ℕ)
      → 0 < count_wanted t peer_bf n
      → (i : ℕ) × (i < n) × (bm.get t.owned_pieces i ≡ false) × (bm.get peer_bf i ≡ true)
  unfolding count_wanted
  count_wanted-some t peer_bf zero h = absurd (omega arith)
  count_wanted-some t peer_bf (suc n) h =
      elim (Bool-cases (not (bm.get t.owned_pieces n) && bm.get peer_bf n)) [
        | inl want ↦ (n, omega arith, ground arith, ground arith)
        | inr other ↦
            let (i, l, o, p) = count_wanted-some t peer_bf n (ground arith) in
            (i, omega arith, o, p)
      ]

  interest_on_bitfield :
      (t : View B) (cn : ConnInfo B)
      → t.have_info ≡ true
      → t.have_all ≡ false
      → t.download_enabled ≡ true
      → (review_interests_on_bitfield t cn).state.am_interested
        ≡ (cn.state.am_interested || ltb 0 (cn.num_want + count_wanted t cn.peer_bf t.num_pieces))
  unfolding review_interests_on_bitfield conn_interested send_msg_to_conn started_downloading
      can_download
  interest_on_bitfield t cn info all on = ground arith

  -- Once the metadata is known, pieces are missing and the download is enabled, the bitfield of a
  -- peer makes this side interested in it exactly if it was, or wanted a piece of it before, or
  -- the peer has a piece that is not owned.
  pub review_interests_on_bitfield_iff :
      (t : View B) (cn : ConnInfo B)
      → t.have_info ≡ true
      → t.have_all ≡ false
      → t.download_enabled ≡ true
      → ((review_interests_on_bitfield t cn).state.am_interested ≡ true) ↔ (
          (cn.state.am_interested ≡ true)
          ⊎ (0 < cn.num_want)
          ⊎ ((i : ℕ) × (i < t.num_pieces)
              × (bm.get t.owned_pieces i ≡ false)
              × (bm.get cn.peer_bf i ≡ true)))
  review_interests_on_bitfield_iff t cn info all on =
      let e = interest_on_bitfield t cn info all on in
      let n = count_wanted t cn.peer_bf t.num_pieces in
      (
        λ h. elim (Bool-cases cn.state.am_interested) [
          | inl was ↦ inl was
          | inr was_not ↦ elim (Bool-cases (ltb 0 cn.num_want)) [
            | inl wants ↦ inr (inl (ltb→lt 0 cn.num_want wants))
            | inr new ↦ inr (inr (count_wanted-some t cn.peer_bf t.num_pieces (ground arith)))
          ]
        ],
        λ h. elim h [
          | inl was ↦ ground arith
          | inr (inl wants) ↦ ground arith
          | inr (inr (i, l, o, p)) ↦ e ∙ some_wanted (Bool-cases (n == 0)) i l (ground arith)
        ],
      )
    where
      some_wanted :
          ((count_wanted t cn.peer_bf t.num_pieces == 0) ≡ true)
            ⊎ ((count_wanted t cn.peer_bf t.num_pieces == 0) ≡ false)
          → (i : ℕ) → i < t.num_pieces
          → (not (bm.get t.owned_pieces i) && bm.get cn.peer_bf i) ≡ true
          → (cn.state.am_interested || ltb 0 (cn.num_want + count_wanted t cn.peer_bf t.num_pieces))
            ≡ true
      some_wanted (inl none_) i l h =
          absurd (ground (arith, count_wanted-none t cn.peer_bf t.num_pieces (ground arith) i l))
      some_wanted (inr positive) i l h = ground arith
