-- ===== src/Client/Registry.antt =====
-- The registry of a client as a map, and what becomes of its mutex.
use charo_torrent.Prelude.{
  ℕ, ◌≡◌, refl, true, false, List, [], ◌∷◌, Option, none, some, ◌==◌, if◌then◌else◌, arith, ==_refl,
}
use charo_torrent.Misc.{contains}
use charo_torrent.Client.{
  Client, Ends, returns, waits, lock, unlock, lookup, is_known, already_exists, add_from_parser,
  drop_torrent, torrents, ban_ip, contains_in_black_list,
}

-- The calls on a client.
pub data Op : Type 0 where
  add : Option ℕ → ℕ → Op
  drop_it : ℕ → Op
  list_all : Op
  ban : ℕ → Op
  is_banned : ℕ → Op

abbrev pub state_after : {A : Type 0} → Ends A → Option Client
state_after (returns a cl) = some cl
state_after waits = none

-- The client after the call, `none` when the call never returns.
abbrev pub run_op : Op → Client → Option Client
run_op (add parsed t) cl = state_after (add_from_parser parsed t cl)
run_op (drop_it h) cl = state_after (drop_torrent h cl)
run_op list_all cl = state_after (torrents cl)
run_op (ban ip) cl = state_after (ban_ip ip cl)
run_op (is_banned ip) cl = state_after (contains_in_black_list ip cl)

abbrev pub run_ops : List Op → Client → Option Client
run_ops [] cl = some cl
run_ops (op ∷ ops) cl = elim (run_op op cl) [ none ↦ none | some cl' ↦ run_ops ops cl' ]

-- The registry as a map from info hashes. Adding a hash twice is outside the contract.
abbrev pub spec_op : Op → (ℕ → Option ℕ) → Option (ℕ → Option ℕ)
spec_op (add none t) m = some m
spec_op (add (some h) t) m = elim (m h) [
  | none ↦ some (λ k. if h == k then some t else m k)
  | some u ↦ none
]
spec_op (drop_it h) m = some (λ k. if h == k then none else m k)
spec_op list_all m = some m
spec_op (ban ip) m = some m
spec_op (is_banned ip) m = some m

abbrev pub spec_ops : List Op → (ℕ → Option ℕ) → Option (ℕ → Option ℕ)
spec_ops [] m = some m
spec_ops (op ∷ ops) m = elim (spec_op op m) [ none ↦ none | some m' ↦ spec_ops ops m' ]

-- The client is unlocked and holds the map `m`.
abbrev pub Holds : Client → (ℕ → Option ℕ) → Type 0
Holds cl m = (cl.locked ≡ false) × ((k : ℕ) → lookup cl.torrents k ≡ m k)

is_known-some : (ts : List (ℕ × ℕ)) (h u : ℕ) → lookup ts h ≡ some u → is_known ts h ≡ true
unfolding is_known
is_known-some ts h u e = rw (is_known, e) refl

-- Adding an info hash that the client has leaves its torrents as they are and returns an error, but the mutex
-- stays locked: no later call ever returns, but for an add whose parser fails. The main loop of the torrent that is not kept runs on.
pub duplicate_blocks :
    (cl : Client) (h t u : ℕ)
    → cl.locked ≡ false
    → lookup cl.torrents h ≡ some u
    → (cl' : Client) × (add_from_parser (some h) t cl ≡ returns already_exists cl')
      × (cl'.torrents ≡ cl.torrents)
      × (contains cl'.loops t ≡ true)
      × ((k s : ℕ) → run_op (add (some k) s) cl' ≡ none)
      × ((k : ℕ) → run_op (drop_it k) cl' ≡ none)
      × (run_op list_all cl' ≡ none)
      × ((ip : ℕ) → run_op (ban ip) cl' ≡ none)
      × ((ip : ℕ) → run_op (is_banned ip) cl' ≡ none)
unfolding add_from_parser drop_torrent torrents ban_ip contains_in_black_list lock unlock contains
duplicate_blocks cl h t u free there =
    let known = is_known-some cl.torrents h u there in
    (
      record cl { locked = true; loops = t ∷ cl.loops },
      rw (free, known) refl,
      refl,
      ground (arith, ==_refl t),
      λ k s. refl,
      λ k. refl,
      refl,
      λ ip. refl,
      λ ip. refl,
    )
