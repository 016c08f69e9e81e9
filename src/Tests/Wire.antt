-- ===== src/Tests/Wire.antt =====
-- Runs of the wire protocol, and its theorems at concrete inputs.
use charo_torrent.Prelude.{
  ℕ, ◌<◌, ◌≡◌, ◌↔◌, refl, true, [], ◌∷◌, ◌++◌, none, some, replicate, ok, panic, arith,
}
use charo_torrent.Prelude.Bytes.{Bytes, bytes_eq, put_u32}
use charo_torrent.Wire.Message.{
  request, Msg, Extension, kind_of_byte, empty_msg, body, encode, decode,
}
use charo_torrent.Wire.Message.RoundTrip.{wire_view, decode-encode}
use charo_torrent.Wire.Message.Faults.{fields_length, decode-panic_iff}
use charo_torrent.Wire.Handshake.{HandShake, bytes_of, do_handshake}
use charo_torrent.Wire.Handshake.Agreement.{IsSized, stream, reply, do_handshake_agree}

-- A payload of one byte, sent as it is.
abbrev one_byte : Extension ℕ
one_byte = record {
  write = λ id o. elim o [ none ↦ none | some e ↦ some (e ∷ []) ];
  read = λ id b. elim b [ [] ↦ none | e ∷ r ↦ some e ];
}

abbrev request_msg : Msg ℕ
request_msg = record (empty_msg request) { index = 3; begin = 16384; len = 16384 }

abbrev request_bytes : Bytes
request_bytes = 0 ∷ 0 ∷ 0 ∷ 13 ∷ 6 ∷ 0 ∷ 0 ∷ 0 ∷ 3 ∷ 0 ∷ 0 ∷ 64 ∷ 0 ∷ 0 ∷ 0 ∷ 64 ∷ 0 ∷ []

encode_request : encode one_byte request_msg ≡ some request_bytes
unfolding encode body put_u32
encode_request = refl

abbrev reserved_zero : Bytes
reserved_zero = replicate 8 0

decode-encode_example : decode one_byte (request_bytes ++ (7 ∷ [])) ≡ ok (request_msg, 7 ∷ [])
unfolding wire_view encode body put_u32
decode-encode_example =
    decode-encode one_byte request_msg request_bytes (7 ∷ []) (omega arith) (λ e. cc) (omega arith)
      refl

-- A `have` whose body has two bytes instead of four.
decode-panic_iff_example :
    (decode one_byte (put_u32 3 ++ (4 ∷ 0 ∷ 0 ∷ [])) ≡ panic) ↔ (2 < fields_length (kind_of_byte 4))
decode-panic_iff_example = decode-panic_iff one_byte 4 (0 ∷ 0 ∷ []) [] (omega arith)

abbrev dialler : HandShake
dialler = record { reserved = replicate 8 0; info_hash = replicate 20 7; peer_id = replicate 20 1 }

abbrev dialled : HandShake
dialled = record { reserved = replicate 8 0; info_hash = replicate 20 0; peer_id = replicate 20 2 }

dialler-IsSized : IsSized dialler
dialler-IsSized = omega arith

dialled-IsSized : IsSized dialled
dialled-IsSized = omega arith

do_handshake_agree_example :
    (do_handshake dialled (stream (bytes_of dialler ++ []) [] true)
      ≡ ok (dialler, stream [] (bytes_of (reply dialler dialled)) true))
    × (do_handshake dialler (stream (bytes_of (reply dialler dialled) ++ (9 ∷ [])) [] true)
        ≡ ok (reply dialler dialled, stream (9 ∷ []) (bytes_of dialler) true))
unfolding bytes_eq
do_handshake_agree_example =
    do_handshake_agree dialler dialled [] (9 ∷ []) dialler-IsSized dialled-IsSized refl refl
