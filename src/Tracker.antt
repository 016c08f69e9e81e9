-- ===== src/Tracker.antt =====
-- tracker/tracker.go: the compact list of peers of a tracker's answer (BEP 23), and the address for
-- scraping.
use charo_torrent.Prelude.{
  ℕ, zero, suc, ◌+◌, ◌-◌, ◌*◌, ◌/◌, ◌%◌, ◌<◌, ◌≡◌, refl, sym, ap, ◌∙◌, Bool, true, false, not, List,
  [], ◌∷◌, ◌++◌, Option, none, some, ltb, ◌==◌, if◌then◌else◌, length, take, drop, All, arith,
  length-append, take-append, drop-append, ==_refl,
}
use mathlib.Core.List.{append_assoc}
use charo_torrent.Prelude.Bytes.{Bytes, IsU16, put_u16, read_u16, read_u16_all, length-put_u16}

-- A peer without an ID; net.IP of four bytes is those bytes, and To4 gives them back.
pub record TrackerPeer : Type 0 where
  pub ip : Bytes
  pub port : ℕ

unfoldable pub port_of : Option (ℕ × Bytes) → ℕ
port_of none = 0
port_of (some (n, rest)) = n

-- The loop over the first `count` groups of six bytes.
unfoldable pub peers_from : ℕ → Bytes → List TrackerPeer
unfolding port_of read_u16
peers_from zero cheap = []
peers_from (suc count) cheap =
    record { ip = take 4 cheap; port = port_of (read_u16 (take 2 (drop 4 cheap))) }
    ∷ peers_from count (drop 6 cheap)

-- cheapPeers.peers; the bytes behind the last whole group are dropped.
unfoldable pub cheap_peers : Bytes → List TrackerPeer
unfolding peers_from
cheap_peers cheap =
    let whole = take (length cheap - length cheap % 6) cheap in peers_from (length whole / 6) whole

-- The compact form that BEP 23 describes: the address and the port of each peer, in six bytes.
unfoldable pub compact : List TrackerPeer → Bytes
compact [] = []
compact (p ∷ ps) = p.ip ++ (put_u16 p.port ++ compact ps)

abbrev pub IsCompactPeer : TrackerPeer → Type 0
IsCompactPeer p = (length p.ip ≡ 4) × IsU16 p.port

length-compact :
    (ps : List TrackerPeer) → All IsCompactPeer ps → length (compact ps) ≡ 6 * length ps
unfolding compact put_u16
length-compact [] h = omega arith
length-compact (p ∷ ps) h =
    omega (arith, length-append p.ip (put_u16 p.port ++ compact ps), length-compact ps h.1, h.0.0)

peers_from-compact :
    (ps : List TrackerPeer) → All IsCompactPeer ps → peers_from (length ps) (compact ps) ≡ ps
unfolding peers_from compact
peers_from-compact [] h = refl
peers_from-compact (p ∷ ps) h =
    let more = put_u16 p.port ++ compact ps in
    let ip = take-append 4 p.ip more (sym h.0.0) in
    let port = drop-append 4 p.ip more (sym h.0.0) in
    let two = take-append 2 (put_u16 p.port) (compact ps) (sym (length-put_u16 p.port)) in
    let next =
      ap (drop 6) (sym (append_assoc p.ip (put_u16 p.port) (compact ps)))
      ∙ drop-append 6 (p.ip ++ put_u16 p.port) (compact ps)
          (omega (arith, length-append p.ip (put_u16 p.port), h.0.0, length-put_u16 p.port)) in
    rw (ip, port, two, next, read_u16_all p.port h.0.1, peers_from-compact ps h.1) refl

-- The compact form of peers with addresses of four bytes and ports of 16 bits is read back, in order,
-- also if up to five more bytes follow.
pub cheap_peers-compact :
    (ps : List TrackerPeer) (rest : Bytes)
    → All IsCompactPeer ps
    → length rest < 6
    → cheap_peers (compact ps ++ rest) ≡ ps
unfolding cheap_peers
cheap_peers-compact ps rest h short =
    let size : length (compact ps ++ rest) - length (compact ps ++ rest) % 6 ≡ length (compact ps) =
      omega (arith, length-append (compact ps) rest, length-compact ps h) in
    let count : length (compact ps) / 6 ≡ length ps = omega (arith, length-compact ps h) in
    rw (size, take-append (length (compact ps)) (compact ps) rest refl, count)
      (peers_from-compact ps h)

-- strings.LastIndexByte
unfoldable pub last_index : ℕ → Bytes → Option ℕ
last_index b [] = none
last_index b (c ∷ s) = elim (last_index b s) as (λ o. Option ℕ) [
  | none ↦ if c == b then some 0 else none
  | some i ↦ some (suc i)
]

abbrev pub announce : Bytes
announce = b'a' ∷ b'n' ∷ b'n' ∷ b'o' ∷ b'u' ∷ b'n' ∷ b'c' ∷ b'e' ∷ []

abbrev pub scrape : Bytes
scrape = b's' ∷ b'c' ∷ b'r' ∷ b'a' ∷ b'p' ∷ b'e' ∷ []

abbrev pub same_bytes : Bytes → Bytes → Bool
same_bytes [] [] = true
same_bytes [] (b ∷ bs) = false
same_bytes (a ∷ as_) [] = false
same_bytes (a ∷ as_) (b ∷ bs) = let rest = same_bytes as_ bs in if a == b then rest else false

-- ScrapeURL
unfoldable pub scrape_url : Bytes → Bytes
unfolding last_index
scrape_url u = elim (last_index b'/' u) as (λ o. Bytes) [
  | none ↦ []
  | some i ↦
      if ltb (length u) (i + 1 + length announce)
      then []
      else if not (same_bytes (take (length announce) (drop (i + 1) u)) announce)
      then []
      else take (i + 1) u ++ (scrape ++ drop (i + length announce + 1) u)
]

last_index-none : (b : ℕ) (s : Bytes) → All (λ c. (c == b) ≡ false) s → last_index b s ≡ none
unfolding last_index
last_index-none b [] h = refl
last_index-none b (c ∷ s) h = rw (last_index-none b s h.1, h.0) refl

last_index-append :
    (b : ℕ) (pre s : Bytes)
    → All (λ c. (c == b) ≡ false) s
    → last_index b (pre ++ (b ∷ s)) ≡ some (length pre)
unfolding last_index
last_index-append b [] s h = rw (last_index-none b s h, ==_refl b) refl
last_index-append b (c ∷ pre) s h = rw (last_index-append b pre s h) refl

scrape_url-front :
    (front post : Bytes) (n : ℕ)
    → last_index b'/' (front ++ (announce ++ post)) ≡ some n
    → n + 1 ≡ length front
    → scrape_url (front ++ (announce ++ post)) ≡ front ++ (scrape ++ post)
unfolding scrape_url
scrape_url-front front post n at_ size =
    let long : ltb (length (front ++ (announce ++ post))) (n + 1 + 8) ≡ false =
      ground (arith, length-append front (announce ++ post), size) in
    let begins = take-append (n + 1) front (announce ++ post) size in
    let behind = drop-append (n + 1) front (announce ++ post) size in
    let ends =
      ap (drop (n + 8 + 1)) (sym (append_assoc front announce post))
      ∙ drop-append (n + 8 + 1) (front ++ announce) post
          (omega (arith, length-append front announce, size)) in
    rw (scrape_url, at_, long, begins, behind, ends) refl

-- In an address whose last part begins with "announce", ScrapeURL puts "scrape" in its place and
-- keeps what is before it and behind it.
pub scrape_url-append :
    (pre post : Bytes)
    → All (λ c. (c == b'/') ≡ false) post
    → scrape_url (pre ++ (b'/' ∷ (announce ++ post))) ≡ (pre ++ (b'/' ∷ [])) ++ (scrape ++ post)
scrape_url-append pre post h =
    let whole = append_assoc pre (b'/' ∷ []) (announce ++ post) in
    let at_ =
      last_index-append b'/' pre (announce ++ post)
        (refl, (refl, (refl, (refl, (refl, (refl, (refl, (refl, h)))))))) in
    ap scrape_url (sym whole)
    ∙ scrape_url-front (pre ++ (b'/' ∷ [])) post (length pre) (ap (last_index b'/') whole ∙ at_)
        (omega (arith, length-append pre (b'/' ∷ [])))
