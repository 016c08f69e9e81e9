-- ===== src/Exported.antt =====
-- torrent/torrent_xported.go and tlocker.go: the calls of a user on a torrent. A call waits until the
-- main loop lets it in, which waits in turn until the call ends.
pub mod Calls
use charo_torrent.Prelude.{
  ℕ, zero, suc, ◌+◌, ◌-◌, ◌*◌, ◌/◌, ◌%◌, ◌^◌, ◌<◌, ◌≤◌, ◌≡◌, ◌≢◌, ◌↔◌, ◌⊎◌, inl, inr, refl, sym, ap,
  ◌∙◌, Bool, true, false, not, ◌&&◌, ◌||◌, List, [], ◌∷◌, ◌++◌, map, Option, none, some, ltb, leb,
  ◌==◌, if◌then◌else◌, length, get_elem?, set, take, drop, replicate, All, Outcome, ok, err, panic,
  arith, length-append, length-set, length-replicate, length-take, length-drop, take_all,
  take-append, drop-append, get_elem?-lt, get_elem?-ge, get_elem?-set, All-take, All-append,
  All-imp, length-map, get_elem?-set_self, get_elem?-set_ne, ltb→lt, leb→le, ==→eq, ==_refl,
  Bool-cases, Option-cases,
}

-- `held` is whether the main loop waits for a call to end, `pieces` whether t.pieces is not nil, which it is for a
-- torrent with its info until the torrent is closed,
-- `pieces_locked` its mutex, `pieces_download` its downloadEnabled.
pub record Shared : Type 0 where
  pub is_closed : Bool
  pub held : Bool
  pub info : Bool
  pub info_was_downloaded : Bool
  pub upload_enabled : Bool
  pub download_enabled : Bool
  pub all_pieces : Bool
  pub pieces : Bool
  pub pieces_locked : Bool
  pub pieces_download : Bool
  pub conns : ℕ

pub data Ending {ℓ} (A : Type ℓ) : Type ℓ where
  returned : A → Shared → Ending A
  blocked : Ending A
  panicked : Ending A

abbrev pub Exported : Type 0 → Type 0
Exported A = Shared → Ending A

abbrev pub resume : {A : Type 0} {B : Type 0} → Ending A → (A → Exported B) → Ending B
resume (returned a t) f = f a t
resume blocked f = blocked
resume panicked f = panicked

infixl 5 ◌>>=◌
abbrev pub ◌>>=◌ : {A : Type 0} {B : Type 0} → Exported A → (A → Exported B) → Exported B
m >>= f = λ t. resume (m t) f

infixl 5 ◌>>◌
abbrev pub ◌>>◌ : {A : Type 0} {B : Type 0} → Exported A → Exported B → Exported B
m >> k = λ t. resume (m t) (λ a. k)

abbrev pub give : {A : Type 0} → A → Exported A
give a = λ t. returned a t

abbrev pub get_shared : Exported Shared
get_shared = λ t. returned t t

abbrev pub put_shared : Shared → Exported Bool
put_shared t' = λ t. returned true t'

-- What a call answers.
pub data Answer : Type 0 where
  done : Answer
  torrent_closed : Answer
  info_missing : Answer
  already_started : Answer
  info_required : Answer
  flag : Bool → Answer

-- torrentLocker.lock, which gives l.closed.
unfoldable pub enter : Exported Bool
enter = λ t.
    if t.is_closed
    then returned true t
    else if t.held
    then blocked
    else returned false (record t { held = true })

-- torrentLocker.unlock. When the torrent was closed meanwhile, either case of its select may be
-- taken: `fires` is that of ClosedC, which leaves the main loop waiting.
unfoldable pub leave : Bool → Bool → Exported Bool
leave closed fires = λ t.
    if closed
    then returned true t
    else if t.is_closed && fires
    then returned true t
    else returned true (record t { held = false })

unfoldable pub lock_pieces : Exported Bool
lock_pieces =
    λ t. if t.pieces_locked then blocked else returned true (record t { pieces_locked = true })

unfoldable pub unlock_pieces : Exported Bool
unlock_pieces = λ t. returned true (record t { pieces_locked = false })

-- AddPeers; what gotPeers does is in Swarm/Dial.
unfoldable pub add_peers : Exported Answer
unfolding enter leave
add_peers = do
  closed ← enter
  if closed then give torrent_closed else (do leave closed false; give done)

-- Swarm, WriteStatus, Metainfo, Info and Stats read the torrent between the two.
unfoldable pub read_shared : (Shared → Bool) → Exported Answer
unfolding enter leave
read_shared f = do closed ← enter; t ← get_shared; leave closed false; give (flag (f t))

-- HaveAllPieces. A torrent that was closed has no pieces any more, and haveAll of nil pieces is a panic.
unfoldable pub have_all_pieces : Exported Answer
unfolding enter leave
have_all_pieces = do
  closed ← enter
  t ← get_shared
  if not t.info
      then (do leave closed false; give (flag false))
      else if not t.pieces
      then (λ s. panicked)
      else (do leave closed false; give (flag t.all_pieces))

unfoldable pub start_data_transfer : Exported Answer
unfolding enter leave
start_data_transfer = do
  closed ← enter
  t ← get_shared
  if closed
      then (do leave closed false; give torrent_closed)
      else if not t.info
      then (do leave closed false; give info_missing)
      else if t.upload_enabled || t.download_enabled
      then (do leave closed false; give already_started)
      else if not t.info_was_downloaded && ltb 0 t.conns
      then (λ s. panicked)
      else (do
        put_shared (record t {
          upload_enabled = true;
          download_enabled = true;
          pieces_download = if not t.all_pieces then true else t.pieces_download;
        })
        leave closed false
        give done)

unfoldable pub is_seeding : Exported Answer
unfolding enter leave
is_seeding = do
  closed ← enter
  t ← get_shared
  if closed
      then give (flag false)
      else (do leave closed false; give (flag (t.info && t.all_pieces && t.upload_enabled)))

unfoldable pub list_pieces : Exported Answer
unfolding enter leave lock_pieces unlock_pieces
list_pieces = do
  closed ← enter
  t ← get_shared
  if not t.pieces
      then (do leave closed false; give (flag false))
      else (do lock_pieces; unlock_pieces; leave closed false; give (flag true))

-- pieces.setDownloadEnabled
unfoldable pub pieces_set_download_enabled : Bool → Exported Bool
unfolding lock_pieces unlock_pieces
pieces_set_download_enabled v = do
  lock_pieces
  t ← get_shared
  put_shared (record t { pieces_download = v })
  unlock_pieces

-- setDataDownloadEnable, which EnableDataDownload and DisableDataDownload call. When
-- setDownloadEnabled returns, downloadEnabled is v and the call ends there.
unfoldable pub set_data_download_enable : Bool → Exported Answer
unfolding enter leave lock_pieces unlock_pieces pieces_set_download_enabled
set_data_download_enable v = do
  closed ← enter
  t ← get_shared
  if not t.pieces then (do leave closed false; give info_required) else (do
    lock_pieces
    pieces_set_download_enabled v
    unlock_pieces
    leave closed false
    give done)

-- Close; the connections that it ends are in Swarm.
unfoldable pub close_torrent : Bool → Exported Answer
unfolding enter leave
close_torrent fires = do
  closed ← enter
  t ← get_shared
  if closed then give torrent_closed else (do
    put_shared (record t { is_closed = true; pieces = false; conns = 0 })
    leave closed fires
    give done)

unfoldable pub has_closed : Exported Answer
has_closed = λ t. returned (flag t.is_closed) t
