-- ===== src/Bencode/RoundTrip/Collect.antt =====
-- What the decoder collects: the values of a list and the entries of a map.
use charo_torrent.Prelude.{◌^◌, ◌<◌, ◌≡◌, refl, true, length}
use charo_torrent.Prelude.Bytes.{Bytes}
use charo_torrent.Bencode.Number.{IsInt64}
use charo_torrent.Bencode.Value.{
  Value, Values, Entries, int, uint, bool, str, nil_list, nil_dict, list, dict, no_values, value,
  no_entries, entry, set_entry, append_value, bytes_lt,
}

-- The key `k` comes before every key of `es`.
abbrev pub IsBefore : Bytes → Entries → Type 0
IsBefore k no_entries = Unit {0}
IsBefore k (entry j w es) = (bytes_lt k j ≡ true) × IsBefore k es

-- What an interface{} is decoded to: int64 numbers, strings that fit into memory, lists that are
-- not nil and maps, with each key once and in order.
abbrev mutual
  pub IsPlain : Value → Type 0
  IsPlain (int z) = IsInt64 z
  IsPlain (uint n) = ⊥
  IsPlain (bool b) = ⊥
  IsPlain (str s) = length s < 2 ^ 63
  IsPlain nil_list = ⊥
  IsPlain nil_dict = ⊥
  IsPlain (list vs) = ArePlain vs
  IsPlain (dict es) = IsPlainMap es

  pub ArePlain : Values → Type 0
  ArePlain no_values = Unit {0}
  ArePlain (value v vs) = IsPlain v × ArePlain vs

  pub IsPlainMap : Entries → Type 0
  IsPlainMap no_entries = Unit {0}
  IsPlainMap (entry k v es) = (length k < 2 ^ 63) × IsPlain v × IsBefore k es × IsPlainMap es

-- Lists and maps put together.
abbrev pub append_values : Values → Values → Values
append_values no_values ws = ws
append_values (value v vs) ws = value v (append_values vs ws)

pub append_values-append_value :
    (acc : Values) (v : Value) (vs : Values)
    → append_values (append_value acc v) vs ≡ append_values acc (value v vs)
unfolding append_value
append_values-append_value no_values v vs = refl
append_values-append_value (value w acc) v vs = rw (append_values-append_value acc v vs) refl

pub append_values-nil : (acc : Values) → append_values acc no_values ≡ acc
append_values-nil no_values = refl
append_values-nil (value w acc) = rw (append_values-nil acc) refl

abbrev pub append_entries : Entries → Entries → Entries
append_entries no_entries fs = fs
append_entries (entry k v es) fs = entry k v (append_entries es fs)

pub append_entries-nil : (acc : Entries) → append_entries acc no_entries ≡ acc
append_entries-nil no_entries = refl
append_entries-nil (entry k v acc) = rw (append_entries-nil acc) refl

pub append_entries_assoc :
    (acc : Entries) (k : Bytes) (v : Value) (es : Entries)
    → append_entries (append_entries acc (entry k v no_entries)) es
      ≡ append_entries acc (entry k v es)
append_entries_assoc no_entries k v es = refl
append_entries_assoc (entry j w acc) k v es = rw (append_entries_assoc acc k v es) refl

-- Every key of `acc` comes before `k`, and before every key of a map.
abbrev AreBelow : Entries → Bytes → Type 0
AreBelow no_entries k = Unit {0}
AreBelow (entry j w acc) k = (bytes_lt j k ≡ true) × AreBelow acc k

abbrev pub AreBelowAll : Entries → Entries → Type 0
AreBelowAll acc no_entries = Unit {0}
AreBelowAll acc (entry k v es) = AreBelow acc k × AreBelowAll acc es

pub AreBelowAll-nil : (es : Entries) → AreBelowAll no_entries es
AreBelowAll-nil no_entries = tt
AreBelowAll-nil (entry k v es) = (tt, AreBelowAll-nil es)

-- A key above all the others is put at the end.
pub set_entry-AreBelow :
    (acc : Entries) (k : Bytes) (v : Value)
    → AreBelow acc k
    → set_entry k v acc ≡ append_entries acc (entry k v no_entries)
unfolding set_entry
set_entry-AreBelow no_entries k v h = refl
set_entry-AreBelow (entry j w acc) k v h = rw (h.0, set_entry-AreBelow acc k v h.1) refl

AreBelow-append :
    (acc : Entries) (k : Bytes) (v : Value) (j : Bytes)
    → AreBelow acc j
    → bytes_lt k j ≡ true
    → AreBelow (append_entries acc (entry k v no_entries)) j
AreBelow-append no_entries k v j h less = (less, tt)
AreBelow-append (entry i w acc) k v j h less = (h.0, AreBelow-append acc k v j h.1 less)

pub AreBelowAll-append :
    (acc : Entries) (k : Bytes) (v : Value) (es : Entries)
    → AreBelowAll acc es
    → IsBefore k es
    → AreBelowAll (append_entries acc (entry k v no_entries)) es
AreBelowAll-append acc k v no_entries h b = tt
AreBelowAll-append acc k v (entry j w es) h b =
    (AreBelow-append acc k v j h.0 b.0, AreBelowAll-append acc k v es h.1 b.1)
