-- ===== src/Wire/Handshake/Agreement.antt =====
-- Two sides of this code that shake hands.
use charo_torrent.Prelude.{
  ℕ, ◌≡◌, refl, sym, Bool, true, false, [], ◌∷◌, ◌++◌, leb, if◌then◌else◌, length, ok, err, arith,
  length-append, take_all, take-append, drop-append,
}
use mathlib.Core.List.{append_assoc}
use charo_torrent.Prelude.Bytes.{Bytes, bytes_eq, bytes_eq_refl}
use charo_torrent.Wire.Handshake.{
  HandShake, Stream, other_info_hash, proto_len, proto, zero_hash, read_bytes, bytes_of, write,
  refuses, read_hs_without_peer_id, read_peer_id, read_hs, initiate, receipt, do_handshake,
}

-- The arrays have their lengths.
pub record IsSized (h : HandShake) : Type 0 where
  pub reserved : length h.reserved ≡ 8
  pub info_hash : length h.info_hash ≡ 20
  pub peer_id : length h.peer_id ≡ 20

pub read_bytes-append :
    (a r out : Bytes) (w : Bool) (n : ℕ)
    → n ≡ length a
    → read_bytes n (record { incoming = a ++ r; outgoing = out; writable = w })
      ≡ ok (a, record { incoming = r; outgoing = out; writable = w })
unfolding read_bytes
read_bytes-append a r out w n h =
    let e : leb n (length (a ++ r)) ≡ true = ground (arith, length-append a r) in
    rw (e, take-append n a r h, drop-append n a r h) refl

-- A stream that has `a` to read, then what follows.
abbrev pub stream : Bytes → Bytes → Bool → Stream
stream a out w = record { incoming = a; outgoing = out; writable = w }

module _ (h : HandShake) (rest out : Bytes) (w : Bool) (v : IsSized h) where
  head_length : 28 ≡ length (h.reserved ++ h.info_hash)
  head_length = omega (arith, length-append h.reserved h.info_hash, v.reserved, v.info_hash)

  regroup :
      (h.reserved ++ (h.info_hash ++ h.peer_id)) ++ rest
      ≡ (h.reserved ++ h.info_hash) ++ (h.peer_id ++ rest)
  regroup = simp append_assoc

  -- What was written is read back, whatever follows it.
  reads_head :
      read_hs_without_peer_id (stream (bytes_of h ++ rest) out w)
      ≡ ok (record h { peer_id = zero_hash }, stream (h.peer_id ++ rest) out w)
  unfolding read_hs_without_peer_id bytes_of refuses
  reads_head =
      rw
        (
          read_bytes-append (proto_len ∷ proto) ((h.reserved ++ (h.info_hash ++ h.peer_id)) ++ rest)
              out w 20 refl,
          regroup,
          read_bytes-append (h.reserved ++ h.info_hash) (h.peer_id ++ rest) out w 28 head_length,
          take-append 8 h.reserved h.info_hash (sym v.reserved),
          drop-append 8 h.reserved h.info_hash (sym v.reserved),
          take_all 20 h.info_hash (omega (arith, v.info_hash)),
        )
        refl

  reads_id :
      read_peer_id (record h { peer_id = zero_hash }) (stream (h.peer_id ++ rest) out w)
      ≡ ok (h, stream rest out w)
  unfolding read_peer_id
  reads_id = rw (read_bytes-append h.peer_id rest out w 20 (sym v.peer_id)) refl

  reads_all : read_hs (stream (bytes_of h ++ rest) out w) ≡ ok (h, stream rest out w)
  unfolding read_hs
  reads_all = rw (reads_head, reads_id) refl

-- What the side that is dialled answers.
abbrev pub reply : HandShake → HandShake → HandShake
reply theirs ours = record ours { info_hash = theirs.info_hash }

-- The dialled side reads what the other wrote, and answers with the info hash that it read.
pub receipt_lem :
    (ours theirs : HandShake) (rest out : Bytes)
    → IsSized theirs
    → receipt ours (stream (bytes_of theirs ++ rest) out true)
      ≡ ok (theirs, stream rest (out ++ bytes_of (reply theirs ours)) true)
unfolding receipt write
receipt_lem ours theirs rest out v =
    rw
      (
        reads_head theirs rest out true v,
        reads_id theirs rest (out ++ bytes_of (reply theirs ours)) true v,
      )
      refl

-- The dialling side accepts an answer exactly when it names its own info hash.
pub initiate_lem :
    (ours theirs : HandShake) (rest out : Bytes)
    → IsSized theirs
    → initiate ours (stream (bytes_of theirs ++ rest) out true) ≡ (
        if bytes_eq ours.info_hash theirs.info_hash
        then ok (theirs, stream rest (out ++ bytes_of ours) true)
        else err other_info_hash)
unfolding initiate write
initiate_lem ours theirs rest out v =
    rw (reads_all theirs rest (out ++ bytes_of ours) true v) (ground arith)

-- Two sides of this code that are connected end with each other's handshake, over one info hash.
pub do_handshake_agree :
    (a b : HandShake) (rest_a rest_b : Bytes)
    → IsSized a
    → IsSized b
    → bytes_eq a.info_hash zero_hash ≡ false
    → b.info_hash ≡ zero_hash
    → (do_handshake b (stream (bytes_of a ++ rest_a) [] true)
        ≡ ok (a, stream rest_a (bytes_of (reply a b)) true))
      × (do_handshake a (stream (bytes_of (reply a b) ++ rest_b) [] true)
          ≡ ok (reply a b, stream rest_b (bytes_of a) true))
unfolding do_handshake
do_handshake_agree a b rest_a rest_b va vb ha hb =
    let zero : bytes_eq b.info_hash zero_hash ≡ true = rw hb (bytes_eq_refl zero_hash) in
    let v : IsSized (reply a b) = record {
      reserved = vb.reserved;
      info_hash = va.info_hash;
      peer_id = vb.peer_id;
    } in
    (
      rw zero (receipt_lem b a rest_a [] va),
      rw (ha, initiate_lem a (reply a b) rest_b [] v, bytes_eq_refl a.info_hash) refl,
    )
