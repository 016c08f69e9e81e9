-- ===== src/Tests/Client.antt =====
-- The theorems about the client at concrete inputs.
use charo_torrent.Prelude.{ℕ, ◌≡◌, refl, true, false, [], ◌∷◌, none, some}
use charo_torrent.Misc.{contains}
use charo_torrent.Client.{Client, returns, lookup, already_exists, add_from_parser}
use charo_torrent.Client.Registry.{add, drop_it, list_all, ban, is_banned, run_op, duplicate_blocks}

abbrev new_client : Client
new_client = record { locked = false; black_list = []; torrents = []; loops = [] }

abbrev holds_one : Client
holds_one = record { locked = false; black_list = []; torrents = (5, 1) ∷ []; loops = 1 ∷ [] }

duplicate_blocks_example :
    (cl' : Client) × (add_from_parser (some 5) 2 holds_one ≡ returns already_exists cl')
    × (cl'.torrents ≡ (5, 1) ∷ [])
    × (contains cl'.loops 2 ≡ true)
    × ((k s : ℕ) → run_op (add (some k) s) cl' ≡ none)
    × ((k : ℕ) → run_op (drop_it k) cl' ≡ none)
    × (run_op list_all cl' ≡ none)
    × ((ip : ℕ) → run_op (ban ip) cl' ≡ none)
    × ((ip : ℕ) → run_op (is_banned ip) cl' ≡ none)
unfolding lookup
duplicate_blocks_example = duplicate_blocks holds_one 5 2 1 refl refl
