-- ===== src/Swarm.antt =====
-- torrent/torrent.go: the connections of a torrent, the pieces waiting to be hashed and the
-- conditions under which it wants peers. A connection is a number, the pointer to its connInfo.
pub mod Ban
pub mod Broadcast
pub mod Dial
pub mod Dispatch
pub mod Dropped
use charo_torrent.Prelude.{
  ℕ, zero, suc, ◌+◌, ◌-◌, ◌*◌, ◌/◌, ◌%◌, ◌^◌, ◌<◌, ◌≤◌, ◌≡◌, ◌≢◌, ◌↔◌, ◌⊎◌, inl, inr, refl, sym, ap,
  ◌∙◌, Bool, true, false, not, ◌&&◌, ◌||◌, List, [], ◌∷◌, ◌++◌, map, Option, none, some, ltb, leb,
  ◌==◌, if◌then◌else◌, length, get_elem?, set, take, drop, replicate, All, Outcome, ok, err, panic,
  ◌>>=◌, arith, length-append, length-set, length-replicate, length-take, length-drop, take_all,
  take-append, drop-append, get_elem?-lt, get_elem?-ge, get_elem?-set, All-take, All-append,
  All-imp, length-map, get_elem?-set_self, get_elem?-set_ne, ltb→lt, leb→le, ==→eq, ==_refl,
  Bool-cases, Option-cases,
}
use charo_torrent.Misc.{contains}

-- What a torrent keeps about its connections; `peers` are the peers it may still connect to.
pub record Swarm : Type 0 where
  pub conns : List ℕ
  pub peers : List ℕ
  pub max_established_connections : ℕ
  pub have_info : Bool
  pub info_was_downloaded : Bool
  pub upload_enabled : Bool
  pub download_enabled : Bool

unfoldable pub data_transfer_allowed : Swarm → Bool
data_transfer_allowed t = not t.have_info || (t.upload_enabled || t.download_enabled)

unfoldable pub want_conns : Swarm → Bool
unfolding data_transfer_allowed
want_conns t = ltb (length t.conns) t.max_established_connections && data_transfer_allowed t

-- establishedConnection, which tells whether the connection is kept. `banned` is whether the
-- client's black list has its address.
unfoldable pub established_connection : Swarm → ℕ → Bool → Swarm × Bool
unfolding want_conns
established_connection t ci banned =
    if not (want_conns t) || banned
    then (t, false)
    else (record t { conns = t.conns ++ (ci ∷ []) }, true)

abbrev next_index : Option ℕ → Option ℕ
next_index none = none
next_index (some i) = some (suc i)

unfoldable pub conn_index : List ℕ → ℕ → Option ℕ
conn_index [] ci = none
conn_index (cn ∷ conns) ci =
    let rest = next_index (conn_index conns ci) in if cn == ci then some 0 else rest

unfoldable pub remove_conn : List ℕ → ℕ → List ℕ
remove_conn conns index = take index conns ++ drop (index + 1) conns

-- droppedConn, with the peer of the connection; false if it has been dropped before. When it returns, its deferred
-- calls follow: dialConns, in Swarm/Dial, and then reviewUnchokedPeers, in Choker.
unfoldable pub dropped_conn : Swarm → ℕ → ℕ → Swarm × Bool
unfolding conn_index remove_conn data_transfer_allowed
dropped_conn t ci peer = elim (conn_index t.conns ci) [
  | none ↦ (t, false)
  | some i ↦
      let t1 = record t { conns = remove_conn t.conns i } in
      if t.info_was_downloaded && not (data_transfer_allowed t)
      then (record t1 { peers = t.peers ++ (peer ∷ []) }, true)
      else (t1, true)
]

-- The pieces that wait for a hasher: the map queuedForVerification and the channel, whose buffer
-- has `room` places.
pub record HashQueue : Type 0 where
  pub queued : List ℕ
  pub channel : List ℕ
  pub room : ℕ

-- A channel that is full is a panic.
unfoldable pub queue_piece_for_hashing : HashQueue → (ℕ → Bool) → ℕ → Option HashQueue
unfolding contains
queue_piece_for_hashing q verified i =
    if contains q.queued i || verified i
    then some q
    else if ltb (length q.channel) q.room
    then some (record q { queued = i ∷ q.queued; channel = q.channel ++ (i ∷ []) })
    else none

unfoldable pub delete_key : List ℕ → ℕ → List ℕ
delete_key [] i = []
delete_key (k ∷ ks) i = let rest = delete_key ks i in if k == i then rest else k ∷ rest

-- t.pieceLen, for a torrent of `length_` bytes; `none` is a division by zero.
unfoldable pub piece_len_at : ℕ → ℕ → ℕ → ℕ → Option ℕ
piece_len_at num_pieces length_ piece_len i =
    if i + 1 == num_pieces
    then (if piece_len == 0 then none else some (length_ % piece_len))
    else some piece_len

unfoldable pub block_size : ℕ → ℕ → ℕ
block_size max_request_block_sz piece_len =
    if ltb piece_len max_request_block_sz then piece_len else max_request_block_sz
