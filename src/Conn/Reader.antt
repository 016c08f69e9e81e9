-- ===== src/Conn/Reader.antt =====
-- torrent/conn.go, readPeerMsgs: the goroutine that reads the peer's messages and keeps the set of
-- the peer's requests, which the goroutine of the connection empties.
use charo_torrent.Prelude.{
  ℕ, ◌≤◌, ◌≡◌, inl, inr, refl, Bool, true, false, List, [], ◌∷◌, leb, if◌then◌else◌, length, arith,
  Bool-cases,
}
use charo_torrent.Piece.{Block}
use charo_torrent.Wire.Message.{Msg, MessageKind, request, cancel}
use charo_torrent.Conn.{same_block, has_block, delete_block}
use charo_torrent.Conn.Messages.{req_msg_to_block}

unfoldable pub take_request : ℕ → Block → List Block → List Block × Bool
unfolding has_block
take_request reqq b reqs =
    if has_block reqs b
    then (reqs, false)
    else if leb reqq (length reqs)
    then (reqs, false)
    else (b ∷ reqs, true)

-- The requests after a message, and whether the message goes on to the connection. `reqq` is
-- t.reqq.
unfoldable pub read_peer_msg : {E : Type 0} → ℕ → Msg E → List Block → List Block × Bool
unfolding take_request delete_block req_msg_to_block
read_peer_msg reqq msg reqs = elim msg.kind [
  | request ↦ take_request reqq (req_msg_to_block msg) reqs
  | cancel ↦ (delete_block reqs (req_msg_to_block msg), false)
  | _ ↦ (reqs, true)
]

-- The set through both goroutines: a message is read, upload takes a request out, a choke drops
-- them all.
pub data PeerReqs (E : Type 0) (reqq : ℕ) : List Block → Type 0 where
  new : PeerReqs E reqq []
  read :
      {reqs : List Block}
      → PeerReqs E reqq reqs
      → (msg : Msg E) → PeerReqs E reqq (read_peer_msg reqq msg reqs).0
  taken :
      {reqs : List Block}
      → PeerReqs E reqq reqs
      → (b : Block) → PeerReqs E reqq (delete_block reqs b)
  dropped : {reqs : List Block} → PeerReqs E reqq reqs → PeerReqs E reqq []

-- No request is in the set twice.
abbrev pub AreOnce : List Block → Type 0
AreOnce [] = Unit {0}
AreOnce (b ∷ bs) = (has_block bs b ≡ false) × AreOnce bs

length-delete_block : (bs : List Block) (b : Block) → length (delete_block bs b) ≤ length bs
unfolding delete_block
length-delete_block [] b = omega arith
length-delete_block (a ∷ bs) b = ground (arith, length-delete_block bs b)

has_block-head :
    (a : Block) (bs : List Block) (c : Block)
    → has_block (a ∷ bs) c ≡ false
    → same_block a c ≡ false
unfolding has_block
has_block-head a bs c h = elim (Bool-cases (same_block a c)) [
  | inl e ↦ absurd (ground (arith, rw e at h))
  | inr e ↦ e
]

has_block-tail :
    (a : Block) (bs : List Block) (c : Block)
    → has_block (a ∷ bs) c ≡ false
    → has_block bs c ≡ false
unfolding has_block
has_block-tail a bs c h = rw (has_block-head a bs c h) at h

has_block-delete_block :
    (bs : List Block) (b c : Block)
    → has_block bs c ≡ false
    → has_block (delete_block bs b) c ≡ false
unfolding delete_block has_block
has_block-delete_block [] b c h = refl
has_block-delete_block (a ∷ bs) b c h = elim (Bool-cases (same_block a b)) [
  | inl e ↦ rw e (has_block-delete_block bs b c (has_block-tail a bs c h))
  | inr e ↦
      let other = has_block-head a bs c h in
      rw (e, has_block, other) (has_block-delete_block bs b c (has_block-tail a bs c h))
]

delete_block-AreOnce : (bs : List Block) (b : Block) → AreOnce bs → AreOnce (delete_block bs b)
unfolding delete_block
delete_block-AreOnce [] b h = tt
delete_block-AreOnce (a ∷ bs) b h = elim (Bool-cases (same_block a b)) [
  | inl e ↦ rw e (delete_block-AreOnce bs b h.1)
  | inr e ↦ rw e (has_block-delete_block bs b a h.0, delete_block-AreOnce bs b h.1)
]

abbrev pub IsSmall : ℕ → List Block → Type 0
IsSmall reqq reqs = (length reqs ≤ reqq) × AreOnce reqs

take_request-IsSmall :
    (reqq : ℕ) (b : Block) (reqs : List Block)
    → IsSmall reqq reqs
    → IsSmall reqq (take_request reqq b reqs).0
unfolding take_request
take_request-IsSmall reqq b reqs h = elim (Bool-cases (has_block reqs b)) [
  | inl e ↦ rw e h
  | inr e ↦ elim (Bool-cases (leb reqq (length reqs))) [
    | inl e' ↦ rw (e, e') h
    | inr e' ↦ rw (e, e') (ground (arith, e'), (e, h.1))
  ]
]

read_peer_msg-IsSmall :
    {E : Type 0} (reqq : ℕ) (msg : Msg E) (reqs : List Block)
    → IsSmall reqq reqs
    → IsSmall reqq (read_peer_msg reqq msg reqs).0
unfolding read_peer_msg
read_peer_msg-IsSmall reqq msg reqs h = given msg.kind
  where
    given :
        (k : MessageKind)
        → IsSmall reqq
            (elim k as (λ x. List Block × Bool) [
              | request ↦ take_request reqq (req_msg_to_block msg) reqs
              | cancel ↦ (delete_block reqs (req_msg_to_block msg), false)
              | _ ↦ (reqs, true)
            ]).0
    given request = take_request-IsSmall reqq (req_msg_to_block msg) reqs h
    given cancel =
        let shorter = length-delete_block reqs (req_msg_to_block msg) in
        (omega (arith, h.0), delete_block-AreOnce reqs (req_msg_to_block msg) h.1)
    given _ = h

-- In every order in which messages of the peer are read, requests are taken out for upload and the
-- set is dropped, the set never has more than reqq requests, and none of them twice.
pub PeerReqs-IsSmall :
    (E : Type 0) (reqq : ℕ) (reqs : List Block) → PeerReqs E reqq reqs → IsSmall reqq reqs
PeerReqs-IsSmall E reqq _ new = (omega arith, tt)
PeerReqs-IsSmall E reqq _ (read {reqs} p msg) =
    read_peer_msg-IsSmall reqq msg reqs (PeerReqs-IsSmall E reqq reqs p)
PeerReqs-IsSmall E reqq _ (taken {reqs} p b) =
    let h = PeerReqs-IsSmall E reqq reqs p in
    let shorter = length-delete_block reqs b in
    (omega (arith, h.0), delete_block-AreOnce reqs b h.1)
PeerReqs-IsSmall E reqq _ (dropped p) = (omega arith, tt)
