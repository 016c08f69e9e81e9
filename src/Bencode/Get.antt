-- ===== src/Bencode/Get.antt =====
-- bencode/get_dict.go: `Get` finds the bytes of a value in a dictionary, without decoding it.
pub mod Skipping
pub mod Laws
pub mod Skips
use charo_torrent.Prelude.{
  ℕ, zero, suc, ◌+◌, ◌-◌, ◌*◌, ◌/◌, ◌%◌, ◌^◌, ◌<◌, ◌≤◌, ◌≡◌, ◌≢◌, ◌↔◌, ◌⊎◌, inl, inr, refl, sym, ap,
  ◌∙◌, Bool, true, false, not, ◌&&◌, ◌||◌, List, [], ◌∷◌, ◌++◌, map, Option, none, some, ltb, leb,
  ◌==◌, if◌then◌else◌, length, get_elem?, set, take, drop, replicate, All, Outcome, ok, err, panic,
  ◌>>=◌, arith, length-append, length-set, length-replicate, length-take, length-drop, take_all,
  take-append, drop-append, get_elem?-lt, get_elem?-ge, get_elem?-set, All-take, All-append,
  All-imp, length-map, get_elem?-set_self, get_elem?-set_ne, ltb→lt, leb→le, ==→eq, ==_refl,
  Bool-cases, Option-cases,
}
use charo_torrent.Prelude.Bytes.{Bytes}
use charo_torrent.Bencode.Number.{
  ℤ, pos, negsuc, is_digit, NumError, bad_syntax, out_of_range, parse_int, read_until,
}
use charo_torrent.Bencode.Value.{is_same}
use charo_torrent.Bencode.Decode.{BencError, read_ben_string}

-- `runtime_error` is a panic of the Go runtime: Get recovers from it as from the other two.
-- `exhausted` has no counterpart in the program.
pub data GetError : Type 0 where
  no_dict unknown_byte runtime_error exhausted : GetError

-- benConsumer. After a string that is longer than the buffer `off` is beyond the text's end, where
-- no slice ends, so the wrap-around of the sum makes no difference.
pub record Consumer : Type 0 where
  pub buf : Bytes
  pub off : ℕ

-- readByte: the zero byte where nothing is left.
unfoldable pub read_byte : Consumer → ℕ × Consumer
read_byte c = elim c.buf as (λ s. ℕ × Consumer) [
  | [] ↦ (0, c)
  | b ∷ bs ↦ (b, record { buf = bs; off = c.off + 1 })
]

-- consumer.readString: the text without the delimiter. A text without a delimiter is read whole
-- and given up, and `off` stays.
unfoldable pub consume_until : ℕ → Consumer → Option Bytes × Consumer
consume_until d c = elim (read_until d c.buf) as (λ o. Option Bytes × Consumer) [
  | none ↦ (none, record { buf = []; off = c.off })
  | some r ↦ (some r.0, record { buf = r.1; off = c.off + (length r.0 + 1) })
]

unfoldable pub next : ℕ → Consumer → Consumer
next n c = record { buf = drop n c.buf; off = c.off + n }

-- What strconv.ParseInt gives beside the error that is not looked at.
abbrev pub int_or_limit : Outcome NumError ℤ → ℤ
int_or_limit (ok z) = z
int_or_limit (err bad_syntax) = pos 0
int_or_limit (err out_of_range) = pos (2 ^ 63 - 1)
int_or_limit panic = pos 0

abbrev pub skip_bytes : ℤ → Consumer → Outcome GetError (Bool × Consumer)
skip_bytes (pos n) c = ok (true, next n c)
skip_bytes (negsuc n) c = err runtime_error

abbrev pub skip_string : ℕ → Option Bytes × Consumer → Outcome GetError (Bool × Consumer)
skip_string b (none, c) = err runtime_error
skip_string b (some s, c) = skip_bytes (int_or_limit (parse_int (b ∷ s))) c

-- readBenElem, and the loop over the elements of a list or dictionary up to its end mark.
unfoldable mutual
  unfolding read_byte consume_until next

  pub read_ben_elem : ℕ → Consumer → Outcome GetError (Bool × Consumer)
  read_ben_elem zero c = err exhausted
  read_ben_elem (suc f) c =
      let (b, c') = read_byte c in
      let inner = skip_elems f c' in
      if b == b'e'
      then ok (false, c')
      else if b == b'l' || b == b'd'
      then (do c'' ← inner; ok (true, c''))
      else if b == b'i'
      then ok (true, (consume_until b'e' c').1)
      else if is_digit b
      then skip_string b (consume_until b':' c')
      else err unknown_byte

  pub skip_elems : ℕ → Consumer → Outcome GetError Consumer
  skip_elems zero c = err exhausted
  skip_elems (suc f) c = do
    (more, c') ← read_ben_elem f c
    let rest = skip_elems f c'
    if more then rest else ok c'

-- consumer.read: where the element begins and ends.
unfoldable pub read : Consumer → Outcome GetError (ℕ × ℕ × Consumer)
unfolding read_ben_elem
read c = do (_, c') ← read_ben_elem (2 * length c.buf + 1) c; ok (c.off, c'.off, c')

-- data[start:end]
unfoldable pub slice : Bytes → ℕ → ℕ → Outcome GetError Bytes
slice bs start end =
    if leb start end && leb end (length bs)
    then ok (take (end - start) (drop start bs))
    else err runtime_error

-- Decode(key, &s), where a text that is not a string leaves s empty.
abbrev pub key_text : Outcome BencError (Bytes × Bytes) → Bytes
key_text (ok (s, rest)) = s
key_text (err e) = []
key_text panic = []

abbrev pub turn :
    Bool
    → Outcome GetError Bytes
    → Outcome GetError (Option Bytes)
    → Outcome GetError (Option Bytes)
turn true val rest = do v ← val; ok (some v)
turn false val rest = rest

-- The loop of `get` over keys and values; each turn makes the buffer shorter.
unfoldable pub find_key : ℕ → Bytes → Consumer → Bytes → Outcome GetError (Option Bytes)
unfolding read slice read_ben_string
find_key zero copy c k = err exhausted
find_key (suc f) copy c k = if length c.buf == 0 then ok none else do
  (start, end, c') ← read c
  key ← slice copy start end
  (start', end', c'') ← read c'
  turn (is_same (key_text (read_ben_string key)) k) (slice copy start' end') (find_key f copy c'' k)

abbrev pub ends_with : ℕ → Bytes → Bool
ends_with b [] = false
ends_with b (c ∷ []) = c == b
ends_with b (c ∷ d ∷ bs) = ends_with b (d ∷ bs)

-- Get
unfoldable pub get : Bytes → Bytes → Outcome GetError (Option Bytes)
unfolding find_key
get [] k = err runtime_error
get (b ∷ bs) k =
    let inner = take (length bs - 1) bs in
    if b == b'd' && ends_with b'e' (b ∷ bs)
    then find_key (length inner + 1) inner (record { buf = inner; off = 0 }) k
    else err no_dict
