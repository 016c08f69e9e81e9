-- ===== src/Bencode/Value.antt =====
-- The Go values that bencode/encode.go and decode.go handle, except structs and pointers.
use charo_torrent.Prelude.{
  ℕ, Bool, true, false, [], ◌∷◌, Option, none, some, ltb, ◌==◌, if◌then◌else◌,
}
use charo_torrent.Prelude.Bytes.{Bytes}
use charo_torrent.Bencode.Number.{ℤ}

-- `str` is a string or a slice of bytes; a map has its entries in the order of their keys.
mutual
  pub data Value : Type 0 where
    int : ℤ → Value
    uint : ℕ → Value
    bool : Bool → Value
    str : Bytes → Value
    nil_list nil_dict : Value
    list : Values → Value
    dict : Entries → Value

  pub data Values : Type 0 where
    no_values : Values
    value : Value → Values → Values

  pub data Entries : Type 0 where
    no_entries : Entries
    entry : Bytes → Value → Entries → Entries

-- The comparison of Go strings.
unfoldable pub bytes_lt : Bytes → Bytes → Bool
bytes_lt [] [] = false
bytes_lt [] (b ∷ bs) = true
bytes_lt (a ∷ as_) [] = false
bytes_lt (a ∷ as_) (b ∷ bs) = let rest = bytes_lt as_ bs in if a == b then rest else ltb a b

abbrev pub is_same : Bytes → Bytes → Bool
is_same [] [] = true
is_same [] (b ∷ bs) = false
is_same (a ∷ as_) [] = false
is_same (a ∷ as_) (b ∷ bs) = let rest = is_same as_ bs in if a == b then rest else false

-- SetMapIndex: the entry of a key is made or replaced.
unfoldable pub set_entry : Bytes → Value → Entries → Entries
set_entry k v no_entries = entry k v no_entries
set_entry k v (entry j w es) =
    let rest = set_entry k v es in
    if bytes_lt j k
    then entry j w rest
    else if is_same j k
    then entry k v es
    else entry k v (entry j w es)

unfoldable pub append_value : Values → Value → Values
append_value no_values v = value v no_values
append_value (value w vs) v = value w (append_value vs v)

unfoldable pub lookup_entry : Bytes → Entries → Option Value
lookup_entry k no_entries = none
lookup_entry k (entry j w es) = let rest = lookup_entry k es in if is_same j k then some w else rest
