-- ===== src/ConnInfo.antt =====
-- torrent/conn_info.go, conn_state.go and conn_stats.go: what a torrent keeps of a connection, and
-- the choke and interest messages it sends over it.
-- A message goes to the connection's goroutine over a channel unless that goroutine has ended; a
-- select takes one of the two, which is `delivered` of the view below. Times are numbers: the
-- clock is `now`, the zero time.Time is 0.
pub mod Mirror
pub mod Interest
use charo_torrent.Prelude.{
  ℕ, zero, suc, ◌+◌, ◌-◌, ◌*◌, ◌/◌, ◌%◌, ◌^◌, ◌<◌, ◌≤◌, ◌≡◌, ◌≢◌, ◌↔◌, ◌⊎◌, inl, inr, refl, sym, ap,
  ◌∙◌, Bool, true, false, not, ◌&&◌, ◌||◌, List, [], ◌∷◌, ◌++◌, map, Option, none, some, ltb, leb,
  ◌==◌, if◌then◌else◌, length, get_elem?, set, take, drop, replicate, All, Outcome, ok, err, panic,
  ◌>>=◌, arith, length-append, length-set, length-replicate, length-take, length-drop, take_all,
  take-append, drop-append, get_elem?-lt, get_elem?-ge, get_elem?-set, All-take, All-append,
  All-imp, length-map, get_elem?-set_self, get_elem?-set_ne, ltb→lt, leb→le, ==→eq, ==_refl,
  Bool-cases, Option-cases,
}
use charo_torrent.Bitmap.{Bitmap}
use charo_torrent.Wire.Message.{MessageKind, choke, unchoke, interested, not_interested, have, port}

pub record ConnState : Type 0 where
  pub am_interested : Bool
  pub am_choking : Bool
  pub is_interested : Bool
  pub is_choking : Bool

pub record ConnStats : Type 0 where
  pub last_received_piece_msg : ℕ
  pub last_started_downloading : ℕ
  pub last_started_uploading : ℕ
  pub sum_downloading : ℕ
  pub sum_uploading : ℕ
  pub snubbed : Bool

-- `sent` lists the messages for the connection, the latest first, `dropped` whether the torrent
-- has found the connection gone.
pub record ConnInfo (B : Type 0) : Type 0 where
  pub peer_bf : B
  pub num_want : ℕ
  pub state : ConnState
  pub stats : ConnStats
  pub sent : List MessageKind
  pub dropped : Bool

-- What the methods read of the torrent, and the two choices of their surroundings.
pub record View (B : Type 0) : Type 0 where
  pub upload_enabled : Bool
  pub download_enabled : Bool
  pub have_info : Bool
  pub have_all : Bool
  pub num_pieces : ℕ
  pub owned_pieces : B
  pub now : ℕ
  pub delivered : Bool

unfoldable pub new_conn_state : ConnState
new_conn_state = record {
  am_interested = false;
  am_choking = true;
  is_interested = false;
  is_choking = true;
}

unfoldable pub can_upload : ConnState → Bool
can_upload cs = not cs.am_choking && cs.is_interested

unfoldable pub can_download : ConnState → Bool
can_download cs = not cs.is_choking && cs.am_interested

unfoldable pub stop_downloading : ℕ → ConnStats → ConnStats
stop_downloading now cs = record cs {
  sum_downloading = cs.sum_downloading + (now - cs.last_started_downloading);
}

unfoldable pub stop_uploading : ℕ → ConnStats → ConnStats
stop_uploading now cs = record cs {
  sum_uploading = cs.sum_uploading + (now - cs.last_started_uploading);
}

-- `minute` is time.Minute.
unfoldable pub is_snubbed : ℕ → ℕ → ConnStats → ConnStats
is_snubbed minute now cs = if cs.snubbed then cs else record cs {
  snubbed = not (cs.last_received_piece_msg == 0) && leb minute (now - cs.last_received_piece_msg);
}

module _ {B : Type 0} ⦃bm : Bitmap B⦄ where
  -- When the goroutine has ended, droppedConn is called, of which only the fact is kept here: what it does to the
  -- connections is in Swarm/Dropped and Swarm/Broadcast.
  unfoldable pub send_msg_to_conn : View B → MessageKind → ConnInfo B → ConnInfo B
  send_msg_to_conn t msg cn =
      if t.delivered then record cn { sent = msg ∷ cn.sent } else record cn { dropped = true }

  unfoldable pub started_downloading : View B → ConnInfo B → ConnInfo B
  unfolding can_download
  started_downloading t cn =
      if can_download cn.state
      then record cn {
        stats = record cn.stats {
          last_started_downloading = t.now;
          last_received_piece_msg =
              if cn.stats.last_received_piece_msg == 0
              then t.now
              else cn.stats.last_received_piece_msg;
        };
      }
      else cn

  unfoldable pub started_uploading : View B → ConnInfo B → ConnInfo B
  unfolding can_upload
  started_uploading t cn =
      if can_upload cn.state
      then record cn { stats = record cn.stats { last_started_uploading = t.now } }
      else cn

  abbrev stopped_downloading : View B → ConnInfo B → ConnInfo B
  stopped_downloading t cn = record cn { stats = stop_downloading t.now cn.stats }

  abbrev pub stopped_uploading : View B → ConnInfo B → ConnInfo B
  stopped_uploading t cn = record cn { stats = stop_uploading t.now cn.stats }

  abbrev pub with_state : ConnState → ConnInfo B → ConnInfo B
  with_state cs cn = record cn { state = cs }

  unfoldable pub conn_choke : View B → ConnInfo B → ConnInfo B
  unfolding send_msg_to_conn stop_uploading
  conn_choke t cn =
      if not cn.state.am_choking
      then (let cn1 =
            with_state (record cn.state { am_choking = true }) (send_msg_to_conn t choke cn) in
          if cn.state.is_interested then stopped_uploading t cn1 else cn1)
      else cn

  unfoldable pub conn_unchoke : View B → ConnInfo B → ConnInfo B
  unfolding send_msg_to_conn started_uploading
  conn_unchoke t cn =
      if cn.state.am_choking && t.upload_enabled
      then started_uploading t
          (with_state (record cn.state { am_choking = false }) (send_msg_to_conn t unchoke cn))
      else cn

  unfoldable pub conn_interested : View B → ConnInfo B → ConnInfo B
  unfolding send_msg_to_conn started_downloading
  conn_interested t cn =
      if cn.num_want == 0
      then cn
      else if not cn.state.am_interested && t.download_enabled
      then started_downloading t
          (with_state (record cn.state { am_interested = true }) (send_msg_to_conn t interested cn))
      else cn

  unfoldable pub conn_not_interested : View B → ConnInfo B → ConnInfo B
  unfolding send_msg_to_conn stop_downloading
  conn_not_interested t cn =
      if cn.state.am_interested
      then (let cn1 =
            with_state (record cn.state { am_interested = false })
              (send_msg_to_conn t not_interested cn) in
          if not cn.state.is_choking then stopped_downloading t cn1 else cn1)
      else cn

  unfoldable pub conn_have : View B → ConnInfo B → ConnInfo B
  unfolding send_msg_to_conn
  conn_have t cn = send_msg_to_conn t have cn

  -- `review` is what reviewUnchokedPeers of the choker does to this connection.
  unfoldable pub peer_interest_changed :
      View B → (ConnInfo B → ConnInfo B) → ConnInfo B → ConnInfo B
  unfolding started_uploading stop_uploading
  peer_interest_changed t review cn =
      let cn1 = with_state (record cn.state { is_interested = not cn.state.is_interested }) cn in
      if cn1.state.is_interested
      then started_uploading t (if not cn1.state.am_choking then review cn1 else cn1)
      else if not cn1.state.am_choking
      then stopped_uploading t (review cn1)
      else cn1

  unfoldable pub peer_choke_changed : View B → ConnInfo B → ConnInfo B
  unfolding started_downloading stop_downloading
  peer_choke_changed t cn =
      let cn1 = with_state (record cn.state { is_choking = not cn.state.is_choking }) cn in
      if cn1.state.is_choking
      then (if cn1.state.am_interested then stopped_downloading t cn1 else cn1)
      else started_downloading t cn1

  -- The loop of reviewInterestsOnBitfield: how many of the pieces 0 to n - 1 are wanted.
  unfoldable pub count_wanted : View B → B → ℕ → ℕ
  count_wanted t peer_bf zero = 0
  count_wanted t peer_bf (suc i) =
      count_wanted t peer_bf i
      + (if not (bm.get t.owned_pieces i) && bm.get peer_bf i then 1 else 0)

  unfoldable pub review_interests_on_bitfield : View B → ConnInfo B → ConnInfo B
  unfolding count_wanted conn_interested
  review_interests_on_bitfield t cn =
      if not t.have_info || t.have_all
      then cn
      else (let cn1 = record cn {
        num_want = cn.num_want + count_wanted t cn.peer_bf t.num_pieces;
      } in
          if ltb 0 cn1.num_want then conn_interested t cn1 else cn1)

  abbrev want_more : ConnInfo B → ConnInfo B
  want_more cn = record cn { num_want = cn.num_want + 1 }

  unfoldable pub review_interests_on_have : View B → ℕ → ConnInfo B → ConnInfo B
  unfolding conn_interested
  review_interests_on_have t i cn =
      if not t.have_info || t.have_all
      then cn
      else if not (bm.get t.owned_pieces i)
      then want_more (if cn.num_want == 0 then conn_interested t cn else cn)
      else cn

  unfoldable pub peer_seeding : View B → ConnInfo B → Bool
  peer_seeding t cn = if not t.have_info then false else bm.len cn.peer_bf == t.num_pieces
