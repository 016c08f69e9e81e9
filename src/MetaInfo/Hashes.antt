-- ===== src/MetaInfo/Hashes.antt =====
-- The hashes of the pieces, as PiecesHash and PieceHash cut them out.
use charo_torrent.Prelude.{
  ℕ, zero, suc, ◌+◌, ◌*◌, ◌/◌, ◌%◌, ◌<◌, ◌≤◌, ◌≡◌, refl, sym, ap, true, false, List, [], ◌∷◌, ◌++◌,
  some, ltb, leb, ◌==◌, length, get_elem?, take, drop, All, arith, length-take, length-drop,
  take-append, ==→eq,
}
use charo_torrent.Prelude.Bytes.{Bytes}
use charo_torrent.MetaInfo.{
  InfoDict, piece_size, parse, num_pieces, hashes_from, pieces_hash, piece_hash,
}

abbrev flatten : List Bytes → Bytes
flatten [] = []
flatten (b ∷ bs) = b ++ flatten bs

-- Every hash is twenty bytes long, and joined they are the bytes they were cut from.
pub record AreHashes (b : Bytes) (hs : List Bytes) : Type 0 where
  pub joined : flatten hs ≡ b
  pub sized : All (λ h. length h ≡ 20) hs
  pub counted : length hs * 20 ≡ length b

take-append-drop : (n : ℕ) (b : Bytes) → take n b ++ drop n b ≡ b
take-append-drop zero b = refl
take-append-drop (suc n) [] = refl
take-append-drop (suc n) (x ∷ b) = ap (◌∷◌ x) (take-append-drop n b)

hashes_from-AreHashes :
    (f m : ℕ) (b : Bytes)
    → length b ≡ m * 20
    → m ≤ f
    → (hs : List Bytes) × (hashes_from f b ≡ some hs) × AreHashes b hs
unfolding hashes_from
hashes_from-AreHashes zero zero [] h l =
    ([], refl, record { joined = refl; sized = tt; counted = refl })
hashes_from-AreHashes zero zero (x ∷ b) h l = absurd (omega arith)
hashes_from-AreHashes zero (suc m) b h l = absurd (omega arith)
hashes_from-AreHashes (suc f) zero [] h l =
    ([], refl, record { joined = refl; sized = tt; counted = refl })
hashes_from-AreHashes (suc f) zero (x ∷ b) h l = absurd (omega arith)
hashes_from-AreHashes (suc f) (suc m) b h l =
    let rest_length = length-drop 20 b in
    let (hs, e, v) = hashes_from-AreHashes f m (drop 20 b) (omega arith) (omega arith) in
    let more : (length b == 0) ≡ false = ground arith in
    let enough : ltb (length b) piece_size ≡ false = ground arith in
    (
      take 20 b ∷ hs,
      rw (more, enough, e) refl,
      record {
        joined = rw v.joined (take-append-drop 20 b);
        sized = (omega (arith, length-take 20 b), v.sized);
        counted = omega (arith, v.counted);
      },
    )

drop-append_more : (a b : Bytes) (n k : ℕ) → length a ≡ n → drop (n + k) (a ++ b) ≡ drop k b
drop-append_more [] b n k h = let e : n + k ≡ k = omega arith in rw e refl
drop-append_more (x ∷ a) b zero k h = absurd (omega arith)
drop-append_more (x ∷ a) b (suc n) k h =
    let e : suc n + k ≡ suc (n + k) = omega arith in rw e (drop-append_more a b n k (omega arith))

take-append_left : (a b : Bytes) → length a ≡ 20 → take 20 (a ++ b) ≡ a
take-append_left a b h = take-append 20 a b (sym h)

nth_hash :
    (hs : List Bytes) (i : ℕ)
    → All (λ h. length h ≡ 20) hs
    → i < length hs
    → get_elem? hs i ≡ some (take 20 (drop (i * 20) (flatten hs)))
nth_hash [] i v h = absurd (omega arith)
nth_hash (x ∷ hs) zero v h = rw (take-append_left x (flatten hs) v.0) refl
nth_hash (x ∷ hs) (suc i) v h =
    let e : suc i * 20 ≡ 20 + i * 20 = omega arith in
    rw (e, drop-append_more x (flatten hs) 20 (i * 20) v.0) (nth_hash hs i v.1 (omega arith))

-- Where Parse accepts the dictionary, PiecesHash does not panic: it cuts the bytes into as many
-- hashes as NumPieces says, each twenty bytes long, and PieceHash returns the hash of its index.
pub pieces_hash-AreHashes :
    (info : InfoDict)
    → parse info ≡ true
    → (hs : List Bytes) × (pieces_hash info ≡ some hs)
      × AreHashes info.pieces hs
      × (length hs ≡ num_pieces info)
      × ((i : ℕ) → i < num_pieces info → get_elem? hs i ≡ piece_hash info i)
unfolding parse pieces_hash num_pieces piece_hash
pieces_hash-AreHashes info h =
    let whole : length info.pieces ≡ length info.pieces / 20 * 20 =
      omega (arith, ==→eq (length info.pieces % 20) 0 h) in
    let (hs, e, v) =
      hashes_from-AreHashes (length info.pieces) (length info.pieces / 20) info.pieces whole
        (omega arith) in
    let many : length hs ≡ length info.pieces / 20 = omega (arith, v.counted) in
    (
      hs,
      e,
      v,
      many,
      λ i l.
          let inside : leb (i * 20 + 20) (length info.pieces) ≡ true = ground (arith, v.counted) in
          rw (inside, ← v.joined) (nth_hash hs i v.sized (omega arith)),
    )
