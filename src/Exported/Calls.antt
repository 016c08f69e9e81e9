-- ===== src/Exported/Calls.antt =====
-- Which of a user's calls return, and in what state they leave the torrent.
use charo_torrent.Prelude.{◌≡◌, refl, sym, Bool, true, false, not, ◌||◌, arith}
use mathlib.Core.Path.{subst}
use charo_torrent.Exported.{
  Shared, Ending, returned, blocked, panicked, Exported, Answer, done, enter, leave, lock_pieces,
  unlock_pieces, add_peers, read_shared, have_all_pieces, start_data_transfer, is_seeding,
  list_pieces, pieces_set_download_enabled, set_data_download_enable, close_torrent, has_closed,
}

pub data Request : Type 0 where
  adds_peers : Request
  reads : (Shared → Bool) → Request
  asks_all : Request
  starts : Request
  asks_seeding : Request
  lists_pieces : Request
  sets_download : Bool → Request
  closes : Bool → Request
  asks_closed : Request

unfoldable pub run_request : Request → Exported Answer
unfolding add_peers read_shared have_all_pieces start_data_transfer is_seeding list_pieces
    set_data_download_enable close_torrent has_closed
run_request adds_peers = add_peers
run_request (reads f) = read_shared f
run_request asks_all = have_all_pieces
run_request starts = start_data_transfer
run_request asks_seeding = is_seeding
run_request lists_pieces = list_pieces
run_request (sets_download v) = set_data_download_enable v
run_request (closes fires) = close_torrent fires
run_request asks_closed = has_closed

-- A call is let in at once: the torrent is closed, or its main loop does not wait.
abbrev pub IsFree : Shared → Type 0
IsFree t = ((t.is_closed || not t.held) ≡ true) × (t.pieces_locked ≡ false)

-- A torrent with its info from the start connects to nobody before the transfer is started.
abbrev pub IsQuiet : Shared → Type 0
IsQuiet t =
    t.info_was_downloaded ≡ false → (t.upload_enabled || t.download_enabled) ≡ false → t.conns ≡ 0

abbrev pub EndsFree : Ending Answer → Type 0
EndsFree (returned a t) = IsFree t × IsQuiet t
EndsFree blocked = ⊥
EndsFree panicked = ⊥

-- EnableDataDownload and DisableDataDownload are called only where they do not get to the pieces, HaveAllPieces
-- only where a torrent with its info has its pieces, which it has until it is closed.
abbrev pub IsAllowed : Request → Shared → Type 0
IsAllowed (sets_download v) t = t.pieces ≡ false
IsAllowed asks_all t = (not t.info || t.pieces) ≡ true
IsAllowed _ t = Unit {0}

ends_free :
    (e : Ending Answer) (a : Answer) (t : Shared)
    → e ≡ returned a t
    → IsFree t
    → IsQuiet t
    → EndsFree e
ends_free e a t eq free quiet = subst EndsFree (sym eq) (free, quiet)

-- HaveAllPieces on a torrent that was closed and has its info is a panic.
pub have_all_pieces-panicked :
    (t : Shared)
    → t.is_closed ≡ true
    → t.info ≡ true
    → t.pieces ≡ false
    → have_all_pieces t ≡ panicked
unfolding have_all_pieces enter leave
have_all_pieces-panicked t shut have gone = rw (shut, have, gone) refl

-- On a free torrent that has its pieces, EnableDataDownload and DisableDataDownload never return: setDataDownloadEnable
-- holds the mutex of the pieces when setDownloadEnabled takes it once more.
pub set_data_download_enable_blocks :
    (v : Bool) (t : Shared)
    → IsFree t
    → t.is_closed ≡ false
    → t.pieces ≡ true
    → set_data_download_enable v t ≡ blocked
unfolding set_data_download_enable enter leave lock_pieces unlock_pieces pieces_set_download_enabled
set_data_download_enable_blocks v t (free, open_pcs) live some_pcs =
    let f : t.held ≡ false = ground arith in rw (live, f, some_pcs, open_pcs) refl

-- Close on a torrent that is free and not closed returns with the torrent closed, but when the select in unlock takes the case of ClosedC,
-- the main loop is left waiting.
pub close_torrent_held :
    (fires : Bool) (t : Shared)
    → IsFree t
    → t.is_closed ≡ false
    → (t' : Shared) × (close_torrent fires t ≡ returned done t')
      × (t'.is_closed ≡ true)
      × (t'.held ≡ fires)
unfolding close_torrent enter leave
close_torrent_held true t (free, open_pcs) live =
    let f : t.held ≡ false = ground arith in
    (
      record t { is_closed = true; held = true; pieces = false; conns = 0 },
      rw (live, f) refl,
      refl,
      refl,
    )
close_torrent_held false t (free, open_pcs) live =
    let f : t.held ≡ false = ground arith in
    (
      record t { is_closed = true; held = false; pieces = false; conns = 0 },
      rw (live, f) refl,
      refl,
      refl,
    )
