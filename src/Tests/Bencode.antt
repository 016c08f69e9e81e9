-- ===== src/Tests/Bencode.antt =====
-- The package bencode at inputs of its own.
use charo_torrent.Prelude.{◌≡◌, refl, [], ◌∷◌, ok, arith}
use mathlib.Core.Option
use charo_torrent.Bencode.Number.{pos, negsuc, read_until, parse_int, format_int}
use charo_torrent.Bencode.Value.{
  Entries, int, str, list, dict, no_values, value, no_entries, entry, lookup_entry, bytes_lt,
  set_entry, append_value,
}
use charo_torrent.Bencode.Encode.{encode, encode_string}
use charo_torrent.Bencode.Decode.{any_type, map_slices, int_type, decode, decode_all}
use charo_torrent.Bencode.RoundTrip.{decode_all-encode}
use charo_torrent.Bencode.RoundTrip.Collect.{IsPlain}
use charo_torrent.Bencode.Termination.{decode_all-Settles}
use charo_torrent.Bencode.Termination.Readers.{Settles}
use charo_torrent.Bencode.Get.{get}
use charo_torrent.Bencode.Get.Laws.{get-encode}

-- {"a": -7, "info": {"b": ["xy", 10]}}
abbrev entries : Entries
entries = entry (b'a' ∷ []) (int (negsuc 6)) (
    entry (b'i' ∷ b'n' ∷ b'f' ∷ b'o' ∷ [])
      (dict (
        entry (b'b' ∷ []) (list (value (str (b'x' ∷ b'y' ∷ [])) (value (int (pos 10)) no_values)))
          no_entries))
      no_entries)

abbrev plain : IsPlain (dict entries)
unfolding bytes_lt
plain = (
  omega arith,
  omega arith,
  (refl, tt),
  (omega arith, (omega arith, (omega arith, (omega arith, tt)), tt, tt), tt, tt),
)

decode_all-encode_example : decode_all any_type (encode (dict entries)) ≡ ok (dict entries)
decode_all-encode_example = decode_all-encode (dict entries) plain

get-encode_example :
    get (encode (dict entries)) (b'a' ∷ [])
    ≡ ok (Option.map encode (lookup_entry (b'a' ∷ []) entries))
get-encode_example = get-encode entries (b'a' ∷ []) plain

decode_all-Settles_example :
    Settles
      (λ v. Unit {0})
      (decode_all any_type (b'd' ∷ b'1' ∷ b':' ∷ b'a' ∷ b'i' ∷ b'7' ∷ b'e' ∷ []))
decode_all-Settles_example =
    decode_all-Settles any_type (b'd' ∷ b'1' ∷ b':' ∷ b'a' ∷ b'i' ∷ b'7' ∷ b'e' ∷ [])

-- {"a": [1], "b": [2]} into a map[string][]int64: the second list has the first one's element.
leftover :
    decode_all (map_slices int_type) (
      encode (
        dict (
          entry
            (b'a' ∷ [])
            (list (value (int (pos 1)) no_values))
            (entry (b'b' ∷ []) (list (value (int (pos 2)) no_values)) no_entries))))
    ≡ ok (
        dict (
          entry (b'a' ∷ []) (list (value (int (pos 1)) no_values)) (
            entry
              (b'b' ∷ [])
              (list (value (int (pos 1)) (value (int (pos 2)) no_values)))
              no_entries)))
unfolding decode_all decode encode read_until parse_int format_int encode_string set_entry
    append_value bytes_lt
leftover = refl
