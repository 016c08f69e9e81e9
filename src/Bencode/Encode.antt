-- ===== src/Bencode/Encode.antt =====
-- bencode/encode.go: `encode` on the values of Bencode/Value.
use charo_torrent.Prelude.{true, false, [], ◌∷◌, ◌++◌, length}
use charo_torrent.Prelude.Bytes.{Bytes}
use charo_torrent.Bencode.Number.{format_uint, format_int}
use charo_torrent.Bencode.Value.{
  Value, Values, Entries, int, uint, bool, str, nil_list, nil_dict, list, dict, no_values, value,
  no_entries, entry,
}

unfoldable pub encode_string : Bytes → Bytes
encode_string s = format_uint (length s) ++ (b':' ∷ s)

-- A map that is nil gets both the text of an empty map and that of its no entries. `mapped` is
-- the text behind "d": sort.Sort puts the keys in the order that the entries have here.
unfoldable mutual
  pub encode : Value → Bytes
  encode (int z) = b'i' ∷ (format_int z ++ (b'e' ∷ []))
  encode (uint n) = b'i' ∷ (format_uint n ++ (b'e' ∷ []))
  encode (bool true) = b'i' ∷ b'1' ∷ b'e' ∷ []
  encode (bool false) = b'i' ∷ b'0' ∷ b'e' ∷ []
  encode (str s) = encode_string s
  encode nil_list = b'l' ∷ b'e' ∷ []
  encode (list vs) = b'l' ∷ (encode_values vs ++ (b'e' ∷ []))
  encode nil_dict = b'd' ∷ b'e' ∷ b'd' ∷ b'e' ∷ []
  encode (dict es) = b'd' ∷ (encode_entries es ++ (b'e' ∷ []))

  pub encode_values : Values → Bytes
  encode_values no_values = []
  encode_values (value v vs) = encode v ++ encode_values vs

  pub encode_entries : Entries → Bytes
  encode_entries no_entries = []
  encode_entries (entry k v es) = encode_string k ++ (encode v ++ encode_entries es)
