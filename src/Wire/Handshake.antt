-- ===== src/Wire/Handshake.antt =====
-- peer_wire/handshake.go: the handshake, as the one who dials and as the one who is dialled.
pub mod Agreement
pub mod Acceptance
use charo_torrent.Prelude.{
  ℕ, zero, suc, ◌+◌, ◌-◌, ◌*◌, ◌/◌, ◌%◌, ◌^◌, ◌<◌, ◌≤◌, ◌≡◌, ◌≢◌, ◌↔◌, ◌⊎◌, inl, inr, refl, sym, ap,
  ◌∙◌, Bool, true, false, not, ◌&&◌, ◌||◌, List, [], ◌∷◌, ◌++◌, map, Option, none, some, ltb, leb,
  ◌==◌, if◌then◌else◌, length, get_elem?, set, take, drop, replicate, All, Outcome, ok, err, panic,
  ◌>>=◌, arith, length-append, length-set, length-replicate, length-take, length-drop, take-append,
  drop-append, get_elem?-lt, get_elem?-ge, get_elem?-set_self, get_elem?-set_ne, ltb→lt, leb→le,
  ==→eq, ==_refl, Bool-cases, Option-cases,
}
use charo_torrent.Prelude.Bytes.{Bytes, bytes_eq}

pub record HandShake : Type 0 where
  pub reserved : Bytes
  pub info_hash : Bytes
  pub peer_id : Bytes

-- An `io.ReadWriter`: the bytes that will still arrive, those sent so far, and whether the
-- connection takes writes.
pub record Stream : Type 0 where
  pub incoming : Bytes
  pub outgoing : Bytes
  pub writable : Bool

pub data Error : Type 0 where
  short_read write_failed bad_proto other_info_hash : Error

abbrev pub Result : Type 0 → Type 0
Result A = Outcome Error (A × Stream)

abbrev pub proto_len : ℕ
proto_len = 19

-- "BitTorrent protocol"
abbrev pub proto : Bytes
proto =
    b'B' ∷ b'i' ∷ b't' ∷ b'T' ∷ b'o' ∷ b'r' ∷ b'r' ∷ b'e' ∷ b'n' ∷ b't' ∷ b' ' ∷ b'p' ∷ b'r' ∷ b'o'
    ∷ b't' ∷ b'o' ∷ b'c' ∷ b'o' ∷ b'l' ∷ []

abbrev pub zero_hash : Bytes
zero_hash = replicate 20 0

-- io.ReadFull into a buffer of `n` bytes
unfoldable pub read_bytes : ℕ → Stream → Result Bytes
read_bytes n s =
    if leb n (length s.incoming)
    then ok (take n s.incoming, record s { incoming = drop n s.incoming })
    else err short_read

-- What `write` serialises.
unfoldable pub bytes_of : HandShake → Bytes
bytes_of h = proto_len ∷ (proto ++ (h.reserved ++ (h.info_hash ++ h.peer_id)))

unfoldable pub write : HandShake → Stream → Result (Unit {0})
write h s =
    if s.writable
    then ok (tt, record s { outgoing = s.outgoing ++ bytes_of h })
    else err write_failed

-- The guard of readHsWithoutPeerID, on the first twenty bytes.
unfoldable pub refuses : Bytes → Bool
refuses [] = false
refuses (n ∷ name) = not (n == 19) && bytes_eq name proto

unfoldable pub read_hs_without_peer_id : Stream → Result HandShake
read_hs_without_peer_id s = do
  (pstr, s1) ← read_bytes 20 s
  if refuses pstr then err bad_proto else do
    (buf, s2) ← read_bytes 28 s1
    ok (record { reserved = take 8 buf; info_hash = take 20 (drop 8 buf); peer_id = zero_hash }, s2)

unfoldable pub read_peer_id : HandShake → Stream → Result HandShake
read_peer_id h s = do (id, s1) ← read_bytes 20 s; ok (record h { peer_id = id }, s1)

unfoldable pub read_hs : Stream → Result HandShake
read_hs s = do (h, s1) ← read_hs_without_peer_id s; read_peer_id h s1

unfoldable pub initiate : HandShake → Stream → Result HandShake
initiate h s = do
  (_, s1) ← write h s
  (theirs, s2) ← read_hs s1
  if not (bytes_eq h.info_hash theirs.info_hash) then err other_info_hash else ok (theirs, s2)

unfoldable pub receipt : HandShake → Stream → Result HandShake
receipt h s = do
  (theirs, s1) ← read_hs_without_peer_id s
  (_, s2) ← write (record h { info_hash = theirs.info_hash }) s1
  read_peer_id theirs s2

-- HandShake.Do: a zero info hash marks the side that is dialled.
unfoldable pub do_handshake : HandShake → Stream → Result HandShake
do_handshake h s = if not (bytes_eq h.info_hash zero_hash) then initiate h s else receipt h s
