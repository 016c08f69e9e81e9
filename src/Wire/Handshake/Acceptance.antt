-- ===== src/Wire/Handshake/Acceptance.antt =====
-- Which first bytes of a peer are refused.
use charo_torrent.Prelude.{
  ℕ, ◌≡◌, ◌≢◌, ◌↔◌, sym, Bool, true, false, ◌∷◌, ◌++◌, length, take, drop, ok, arith,
}
use charo_torrent.Prelude.Bytes.{Bytes, bytes_eq, bytes_eq_refl, bytes_eq→eq}
use charo_torrent.Wire.Handshake.{proto, zero_hash, refuses, read_hs_without_peer_id}
use charo_torrent.Wire.Handshake.Agreement.{stream, read_bytes-append}

-- The guard joins its two tests by `&&`, so a peer with another protocol name passes it: the
-- handshake goes on with whatever the next bytes hold.
pub accepts_other_proto :
    (n : ℕ) (name body rest out : Bytes) (w : Bool)
    → length name ≡ 19
    → length body ≡ 28
    → name ≢ proto
    → read_hs_without_peer_id (stream (n ∷ (name ++ (body ++ rest))) out w)
      ≡ ok (
        record { reserved = take 8 body; info_hash = take 20 (drop 8 body); peer_id = zero_hash },
        stream rest out w,
      )
unfolding read_hs_without_peer_id refuses
accepts_other_proto n name body rest out w hn hb ne =
    let other : bytes_eq name proto ≡ false = ground (arith, bytes_eq→eq name proto) in
    rw
      (
        read_bytes-append (n ∷ name) (body ++ rest) out w 20 (omega arith),
        other,
        read_bytes-append body rest out w 28 (sym hb),
      )
      (ground arith)

-- Of two peers that differ only in the length byte before the right name, the one with 19 is
-- accepted and the other refused.
pub refuses_iff : (n : ℕ) (name : Bytes) → (refuses (n ∷ name) ≡ true) ↔ ((n ≢ 19) × (name ≡ proto))
unfolding refuses
refuses_iff n name = (
  λ h. (ground arith, ground (arith, bytes_eq→eq name proto)),
  λ h. rw (h.1, bytes_eq_refl proto) (ground (arith, h.0)),
)
