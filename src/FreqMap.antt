-- ===== src/FreqMap.antt =====
-- torrent/freqmap.go: how often each key has been added. The Go map is an association list whose
-- keys are distinct. Without initKey, which is not modelled, every count is positive.
use charo_torrent.Prelude.{
  ℕ, ◌+◌, ◌-◌, ◌≡◌, List, [], ◌∷◌, Option, none, some, ◌==◌, if◌then◌else◌, arith, ==→eq,
}

pub record Entry : Type 0 where
  pub key : ℕ
  pub count : ℕ

abbrev pub FreqMap : Type 0
FreqMap = List Entry

unfoldable pub new_freq_map : FreqMap
new_freq_map = []

unfoldable pub lookup : FreqMap → ℕ → Option ℕ
lookup [] n = none
lookup (e ∷ f) n = let rest = lookup f n in if e.key == n then some e.count else rest

unfoldable pub add : FreqMap → ℕ → FreqMap
add [] n = record { key = n; count = 1 } ∷ []
add (e ∷ f) n =
    let rest = add f n in if e.key == n then record e { count = e.count + 1 } ∷ f else e ∷ rest

-- A count that reaches 0 is deleted.
unfoldable pub remove : FreqMap → ℕ → FreqMap
remove [] n = []
remove (e ∷ f) n =
    let rest = remove f n in
    if e.key == n
    then (if e.count == 1 then f else record e { count = e.count - 1 } ∷ f)
    else e ∷ rest

-- An added key is counted once more, and no other key changes.
pub lookup-add :
    (f : FreqMap) (n k : ℕ)
    → lookup (add f n) k ≡ (
        if n == k
        then (elim (lookup f k) [ none ↦ some 1 | some count ↦ some (count + 1) ])
        else lookup f k)
unfolding lookup add
lookup-add [] n k = ground arith
lookup-add (e ∷ f) n k = ground (arith, lookup-add f n k, ==→eq e.key n, ==→eq e.key k, ==→eq n k)
