-- ===== src/ConnInfo/Mirror.antt =====
-- The messages that a connection was given agree with the state that the torrent keeps of it.
use charo_torrent.Prelude.{
  ℕ, ◌+◌, ◌≡◌, ◌⊎◌, inl, inr, refl, sym, ap, ◌∙◌, Bool, true, false, not, ◌&&◌, ◌||◌, List, [], ◌∷◌,
  ltb, ◌==◌, if◌then◌else◌, arith, Bool-cases,
}
use charo_torrent.Bitmap.{Bitmap}
use charo_torrent.Wire.Message.{MessageKind, choke, unchoke, interested, not_interested, have}
use charo_torrent.ConnInfo.{
  ConnInfo, View, send_msg_to_conn, started_downloading, started_uploading, can_upload,
  can_download, stop_uploading, stop_downloading, conn_choke, conn_unchoke, conn_interested,
  conn_not_interested, conn_have, peer_interest_changed, peer_choke_changed,
  review_interests_on_bitfield, count_wanted, review_interests_on_have,
}

-- What the peer was last told, and was told at first by the protocol.
abbrev pub told_choking : List MessageKind → Bool
told_choking [] = true
told_choking (choke ∷ sent) = true
told_choking (unchoke ∷ sent) = false
told_choking (_ ∷ sent) = told_choking sent

abbrev pub told_interested : List MessageKind → Bool
told_interested [] = false
told_interested (interested ∷ sent) = true
told_interested (not_interested ∷ sent) = false
told_interested (_ ∷ sent) = told_interested sent

-- No message tells the peer what it was last told.
abbrev pub IsNews : MessageKind → List MessageKind → Type 0
IsNews choke sent = told_choking sent ≡ false
IsNews unchoke sent = told_choking sent ≡ true
IsNews interested sent = told_interested sent ≡ false
IsNews not_interested sent = told_interested sent ≡ true
IsNews _ sent = Unit {0}

abbrev pub AreNews : List MessageKind → Type 0
AreNews [] = Unit {0}
AreNews (msg ∷ sent) = IsNews msg sent × AreNews sent

pub data Review : Type 0 where
  left_alone choked unchoked : Review

module _ {B : Type 0} ⦃bm : Bitmap B⦄ where
  -- The state that the messages depend on is what the peer was told, in messages that were news.
  pub record IsMirrored (cn : ConnInfo B) : Type 0 where
    pub choking : told_choking cn.sent ≡ cn.state.am_choking
    pub interest : told_interested cn.sent ≡ cn.state.am_interested
    pub news : AreNews cn.sent

  abbrev pub Mirrors : ConnInfo B → Type 0
  Mirrors cn = (cn.dropped ≡ true) ⊎ IsMirrored cn

  -- Two connections of which the messages and the told state are the same.
  same-Mirrors :
      (cn cn' : ConnInfo B)
      → cn'.dropped ≡ cn.dropped
      → cn'.sent ≡ cn.sent
      → cn'.state.am_choking ≡ cn.state.am_choking
      → cn'.state.am_interested ≡ cn.state.am_interested
      → Mirrors cn
      → Mirrors cn'
  same-Mirrors cn cn' d s c i (inl gone) = inl (d ∙ gone)
  same-Mirrors cn cn' d s c i (inr m) = inr (record {
    choking = ap told_choking s ∙ m.choking ∙ sym c;
    interest = ap told_interested s ∙ m.interest ∙ sym i;
    news = rw s m.news;
  })

  -- A message that is news, and the state that goes with it.
  send_msg_to_conn-Mirrors :
      (t : View B) (msg : MessageKind) (cn cn' : ConnInfo B)
      → cn'.dropped ≡ (send_msg_to_conn t msg cn).dropped
      → cn'.sent ≡ (send_msg_to_conn t msg cn).sent
      → (IsMirrored cn
          → IsNews msg cn.sent
            × (told_choking (msg ∷ cn.sent) ≡ cn'.state.am_choking)
            × (told_interested (msg ∷ cn.sent) ≡ cn'.state.am_interested))
      → Mirrors cn
      → Mirrors cn'
  unfolding send_msg_to_conn
  send_msg_to_conn-Mirrors t msg cn cn' d s new (inl gone) = inl (d ∙ ground arith)
  send_msg_to_conn-Mirrors t msg cn cn' d s new (inr m) = elim (Bool-cases t.delivered) [
    | inr lost ↦ inl (d ∙ rw lost refl)
    | inl put ↦
        let told : cn'.sent ≡ msg ∷ cn.sent = s ∙ ground arith in
        inr (record {
          choking = ap told_choking told ∙ (new m).1;
          interest = ap told_interested told ∙ (new m).2;
          news = rw told ((new m).0, m.news);
        })
  ]

  conn_choke-Mirrors : (t : View B) (cn : ConnInfo B) → Mirrors cn → Mirrors (conn_choke t cn)
  unfolding conn_choke stop_uploading
  conn_choke-Mirrors t cn m = elim (Bool-cases cn.state.am_choking) [
    | inl done ↦
        same-Mirrors cn (conn_choke t cn) (ground arith) (ground arith) (ground arith)
          (ground arith) m
    | inr open_ ↦
        send_msg_to_conn-Mirrors t choke cn (conn_choke t cn) (ground arith) (ground arith)
          (λ k. (k.choking ∙ open_, ground arith, k.interest ∙ ground arith)) m
  ]

  conn_unchoke-Mirrors : (t : View B) (cn : ConnInfo B) → Mirrors cn → Mirrors (conn_unchoke t cn)
  unfolding conn_unchoke started_uploading can_upload
  conn_unchoke-Mirrors t cn m = elim (Bool-cases (cn.state.am_choking && t.upload_enabled)) [
    | inr done ↦
        same-Mirrors cn (conn_unchoke t cn) (ground arith) (ground arith) (ground arith)
          (ground arith) m
    | inl closed ↦
        send_msg_to_conn-Mirrors t unchoke cn (conn_unchoke t cn) (ground arith) (ground arith)
          (λ k. (k.choking ∙ ground arith, ground arith, k.interest ∙ ground arith)) m
  ]

  conn_interested-Mirrors :
      (t : View B) (cn : ConnInfo B) → Mirrors cn → Mirrors (conn_interested t cn)
  unfolding conn_interested started_downloading can_download
  conn_interested-Mirrors t cn m =
      elim (Bool-cases (cn.num_want == 0 || (cn.state.am_interested || not t.download_enabled))) [
        | inl done ↦
            same-Mirrors cn (conn_interested t cn) (ground arith) (ground arith) (ground arith)
              (ground arith) m
        | inr new ↦
            send_msg_to_conn-Mirrors t interested cn (conn_interested t cn) (ground arith)
              (ground arith)
              (λ k. (k.interest ∙ ground arith, k.choking ∙ ground arith, ground arith)) m
      ]

  conn_not_interested-Mirrors :
      (t : View B) (cn : ConnInfo B) → Mirrors cn → Mirrors (conn_not_interested t cn)
  unfolding conn_not_interested stop_downloading
  conn_not_interested-Mirrors t cn m = elim (Bool-cases cn.state.am_interested) [
    | inr done ↦
        same-Mirrors cn (conn_not_interested t cn) (ground arith) (ground arith) (ground arith)
          (ground arith) m
    | inl on ↦
        send_msg_to_conn-Mirrors t not_interested cn (conn_not_interested t cn) (ground arith)
          (ground arith) (λ k. (k.interest ∙ on, k.choking ∙ ground arith, ground arith)) m
  ]

  conn_have-Mirrors : (t : View B) (cn : ConnInfo B) → Mirrors cn → Mirrors (conn_have t cn)
  unfolding conn_have
  conn_have-Mirrors t cn m =
      send_msg_to_conn-Mirrors t have cn (conn_have t cn) refl refl
        (λ k. (tt, k.choking ∙ stays.0, k.interest ∙ stays.1)) m
    where
      stays :
          (cn.state.am_choking ≡ (send_msg_to_conn t have cn).state.am_choking)
          × (cn.state.am_interested ≡ (send_msg_to_conn t have cn).state.am_interested)
      stays = unfold send_msg_to_conn in (ground arith, ground arith)

  -- What the choker's review comes to for one connection.
  abbrev pub reviewed : View B → Review → ConnInfo B → ConnInfo B
  reviewed t left_alone cn = cn
  reviewed t choked cn = conn_choke t cn
  reviewed t unchoked cn = conn_unchoke t cn

  reviewed-Mirrors :
      (t : View B) (r : Review) (cn : ConnInfo B) → Mirrors cn → Mirrors (reviewed t r cn)
  reviewed-Mirrors t left_alone cn m = m
  reviewed-Mirrors t choked cn m = conn_choke-Mirrors t cn m
  reviewed-Mirrors t unchoked cn m = conn_unchoke-Mirrors t cn m

  -- Only the flags that the peer sets and the clocks change.
  started_uploading-Mirrors :
      (t : View B) (cn : ConnInfo B) → Mirrors cn → Mirrors (started_uploading t cn)
  unfolding started_uploading can_upload
  started_uploading-Mirrors t cn m =
      same-Mirrors cn (started_uploading t cn) (ground arith) (ground arith) (ground arith)
        (ground arith) m

  either-Mirrors :
      (c : Bool) (cn cn' : ConnInfo B) → Mirrors cn → Mirrors cn' → Mirrors (if c then cn else cn')
  either-Mirrors true cn cn' m m' = m
  either-Mirrors false cn cn' m m' = m'

  peer_interest_changed-Mirrors :
      (t : View B) (r : Review) (cn : ConnInfo B)
      → Mirrors cn
      → Mirrors (peer_interest_changed t (reviewed t r) cn)
  unfolding peer_interest_changed stop_uploading
  peer_interest_changed-Mirrors t r cn m =
      let cn1 : ConnInfo B = record cn {
        state = record cn.state { is_interested = not cn.state.is_interested };
      } in
      let m1 = same-Mirrors cn cn1 refl refl refl refl m in
      let m2 = reviewed-Mirrors t r cn1 m1 in
      let free = not cn.state.am_choking in
      let stopped : ConnInfo B = record (reviewed t r cn1) {
        stats = stop_uploading t.now (reviewed t r cn1).stats;
      } in
      either-Mirrors (not cn.state.is_interested)
        (started_uploading t (if free then reviewed t r cn1 else cn1))
        (if free then stopped else cn1)
        (started_uploading-Mirrors t (if free then reviewed t r cn1 else cn1)
          (either-Mirrors free (reviewed t r cn1) cn1 m2 m1))
        (either-Mirrors free stopped cn1
          (same-Mirrors (reviewed t r cn1) stopped refl refl refl refl m2) m1)

  peer_choke_changed-Mirrors :
      (t : View B) (cn : ConnInfo B) → Mirrors cn → Mirrors (peer_choke_changed t cn)
  unfolding peer_choke_changed started_downloading can_download stop_downloading
  peer_choke_changed-Mirrors t cn m =
      same-Mirrors cn (peer_choke_changed t cn) (ground arith) (ground arith) (ground arith)
        (ground arith) m

  review_interests_on_bitfield-Mirrors :
      (t : View B) (cn : ConnInfo B) → Mirrors cn → Mirrors (review_interests_on_bitfield t cn)
  unfolding review_interests_on_bitfield
  review_interests_on_bitfield-Mirrors t cn m =
      let cn1 : ConnInfo B = record cn {
        num_want = cn.num_want + count_wanted t cn.peer_bf t.num_pieces;
      } in
      let m1 = same-Mirrors cn cn1 refl refl refl refl m in
      elim (Bool-cases (not t.have_info || t.have_all)) [
        | inl stay ↦ rw (review_interests_on_bitfield, stay) m
        | inr go ↦
            elim (Bool-cases (ltb 0 (cn.num_want + count_wanted t cn.peer_bf t.num_pieces))) [
              | inl want ↦
                  rw (review_interests_on_bitfield, go, want) (conn_interested-Mirrors t cn1 m1)
              | inr nothing ↦ rw (review_interests_on_bitfield, go, nothing) m1
            ]
      ]

  review_interests_on_have-Mirrors :
      (t : View B) (i : ℕ) (cn : ConnInfo B)
      → Mirrors cn
      → Mirrors (review_interests_on_have t i cn)
  unfolding review_interests_on_have conn_interested
  review_interests_on_have-Mirrors t i cn m =
      same-Mirrors cn (review_interests_on_have t i cn) (ground arith) (ground arith) (ground arith)
        (ground arith) m

  -- The calls that may change a connection, each with the torrent as it is at that moment.
  pub data Step (cn : ConnInfo B) : ConnInfo B → Type 0 where
    choked_by : (t : View B) → Step cn (conn_choke t cn)
    unchoked_by : (t : View B) → Step cn (conn_unchoke t cn)
    interested_in : (t : View B) → Step cn (conn_interested t cn)
    not_interested_in : (t : View B) → Step cn (conn_not_interested t cn)
    told_have : (t : View B) → Step cn (conn_have t cn)
    peer_interest : (t : View B) (r : Review) → Step cn (peer_interest_changed t (reviewed t r) cn)
    peer_choke : (t : View B) → Step cn (peer_choke_changed t cn)
    got_bitfield : (t : View B) → Step cn (review_interests_on_bitfield t cn)
    got_have : (t : View B) (i : ℕ) → Step cn (review_interests_on_have t i cn)

  pub data Reach (cn : ConnInfo B) : ConnInfo B → Type 0 where
    here : Reach cn cn
    next : {cn1 cn2 : ConnInfo B} → Reach cn cn1 → Step cn1 cn2 → Reach cn cn2

  Step-Mirrors : {cn cn' : ConnInfo B} → Step cn cn' → Mirrors cn → Mirrors cn'
  Step-Mirrors {cn} (choked_by t) m = conn_choke-Mirrors t cn m
  Step-Mirrors {cn} (unchoked_by t) m = conn_unchoke-Mirrors t cn m
  Step-Mirrors {cn} (interested_in t) m = conn_interested-Mirrors t cn m
  Step-Mirrors {cn} (not_interested_in t) m = conn_not_interested-Mirrors t cn m
  Step-Mirrors {cn} (told_have t) m = conn_have-Mirrors t cn m
  Step-Mirrors {cn} (peer_interest t r) m = peer_interest_changed-Mirrors t r cn m
  Step-Mirrors {cn} (peer_choke t) m = peer_choke_changed-Mirrors t cn m
  Step-Mirrors {cn} (got_bitfield t) m = review_interests_on_bitfield-Mirrors t cn m
  Step-Mirrors {cn} (got_have t i) m = review_interests_on_have-Mirrors t i cn m

  -- As long as the connection is not found gone, whatever calls have changed it, the choking and
  -- interest kept for it are what the peer was last told, and no message told it again what it
  -- knew.
  pub Reach-Mirrors : {cn cn' : ConnInfo B} → Reach cn cn' → Mirrors cn → Mirrors cn'
  Reach-Mirrors here m = m
  Reach-Mirrors (next r st) m = Step-Mirrors st (Reach-Mirrors r m)
