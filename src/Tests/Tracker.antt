-- ===== src/Tests/Tracker.antt =====
-- The answers of a tracker at inputs of their own.
use charo_torrent.Prelude.{◌≡◌, refl, List, [], ◌∷◌, ◌++◌, arith}
use charo_torrent.Tracker.{TrackerPeer, cheap_peers, compact, cheap_peers-compact, scrape_url}

abbrev two_peers : List TrackerPeer
two_peers =
    record { ip = 10 ∷ 0 ∷ 0 ∷ 1 ∷ []; port = 6881 }
    ∷ record { ip = 10 ∷ 0 ∷ 0 ∷ 2 ∷ []; port = 51413 }
    ∷ []

cheap_peers-compact_example : cheap_peers (compact two_peers ++ (1 ∷ 2 ∷ [])) ≡ two_peers
cheap_peers-compact_example =
    cheap_peers-compact two_peers (1 ∷ 2 ∷ []) ((refl, omega arith), ((refl, omega arith), tt))
      (omega arith)

-- The last part has to begin with "announce".
no_announce : scrape_url (b'u' ∷ b'/' ∷ b'x' ∷ []) ≡ []
unfolding scrape_url
no_announce = refl
