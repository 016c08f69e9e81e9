-- ===== src/Tests/Ban.antt =====
-- A ban at inputs of its own.
use charo_torrent.Prelude.{ℕ, ◌≡◌, refl, false, List, [], ◌∷◌, none, some, All}
use charo_torrent.Swarm.Ban.{
  Suspect, malliciousness, min_int32, find_worst, ban_peer, IsAtMost, IsDropped, ban_peer_lem,
}

abbrev suspect : ℕ → ℕ → ℕ → Suspect
suspect ip bad good = record { ip = ip; bad = bad; good = good; gone = false; told_to_drop = false }

abbrev suspects : List Suspect
suspects = suspect 10 2 1 ∷ suspect 11 5 1 ∷ suspect 10 1 0 ∷ []

worst_of_three : find_worst suspects min_int32 none ≡ some (suspect 11 5 1)
unfolding find_worst
worst_of_three = refl

ban_peer_lem_example :
    All (λ c. IsAtMost (malliciousness c) (5, 1)) suspects
    × ((ban_peer (λ ip. false) (suspects, 3 ∷ [])).1 ≡ 3 ∷ 11 ∷ [])
    × All (IsDropped 11) (ban_peer (λ ip. false) (suspects, 3 ∷ [])).0
ban_peer_lem_example =
    ban_peer_lem (λ ip. false) suspects (3 ∷ []) (suspect 11 5 1) worst_of_three refl
      (refl, (refl, (refl, tt)))
