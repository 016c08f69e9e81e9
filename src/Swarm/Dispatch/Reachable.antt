-- ===== src/Swarm/Dispatch/Reachable.antt =====
-- numWant through a whole run: messages of the connections, answers of the hasher, new connections.
use charo_torrent.Prelude.{ℕ, ◌<◌, ◌≡◌, Bool, true, false, List, [], ◌∷◌, ◌++◌, some}
use charo_torrent.Misc.{contains}
use charo_torrent.Bitmap.{Bitmap}
use charo_torrent.Choker.{Choker}
use charo_torrent.Storage.Blocks.{IsNodup}
use charo_torrent.ConnInfo.{ConnInfo}
use charo_torrent.Swarm.{conn_index, remove_conn}
use charo_torrent.Swarm.Dispatch.{Torrent, Event, have_all, on_conn_msg, on_piece_hashed}
use charo_torrent.Swarm.Dispatch.Counted.{AreTuned}
use charo_torrent.Swarm.Dispatch.Steady.{IsNews}
use charo_torrent.Swarm.Dispatch.Choking.{choker_review}

module _ {B : Type 0} ⦃bm : Bitmap B⦄ where
  -- The connection at index `i` of the list is dropped, and the choker reviews the others.
  abbrev without_conn : (Torrent B → ℕ → ConnInfo B) → ℕ → Torrent B → Torrent B
  without_conn review i t =
      let u = record t { conns = remove_conn t.conns i } in record u { info = review u }

  -- What happens to a torrent while it lacks pieces: a connection is added, with nothing known of
  -- its peer, a connection reports something new or that it has ended, or the hasher answers for a piece that is lacked.
  -- A report or an answer on which the code panics is no step: the program is gone then.
  pub data Step (t t' : Torrent B) : Type 0 where
    joined :
        (c : ℕ)
        → contains t.conns c ≡ false
        → ((i : ℕ) → bm.get (t.info c).peer_bf i ≡ false)
        → (t.info c).num_want ≡ 0
        → (t.info c).state.am_interested ≡ false
        → t' ≡ record t { conns = t.conns ++ (c ∷ []) }
        → Step t t'
    told :
        (minute : ℕ) (intn : ℕ → ℕ) (by_rate : (ℕ → ConnInfo B) → List ℕ → List ℕ)
        (perm : List ℕ → List ℕ) (ch : Choker) (now c : ℕ) (e : Event B)
        → have_all t ≡ false
        → contains t.conns c ≡ true
        → IsNews t c e
        → on_conn_msg (choker_review minute intn by_rate perm ch now) now c e t ≡ some t'
        → Step t t'
    ended :
        (minute : ℕ) (intn : ℕ → ℕ) (by_rate : (ℕ → ConnInfo B) → List ℕ → List ℕ)
        (perm : List ℕ → List ℕ) (ch : Choker) (now c i : ℕ)
        → conn_index t.conns c ≡ some i
        → t' ≡ without_conn (choker_review minute intn by_rate perm ch now) i t
        → Step t t'
    checked :
        (now i : ℕ) (correct : Bool)
        → have_all t ≡ false
        → i < t.num_pieces
        → bm.get t.pieces.owned_pieces i ≡ false
        → on_piece_hashed now i correct t ≡ some t'
        → Step t t'

  pub data Run (t : Torrent B) : Torrent B → Type 0 where
    started : (t' : Torrent B) → t ≡ t' → Run t t'
    and_then : (t1 t2 : Torrent B) → Run t t1 → Step t1 t2 → Run t t2

  abbrev IsSteady : Torrent B → Type 0
  IsSteady t = IsNodup t.conns × (have_all t ≡ false → AreTuned t)
