-- ===== src/Bencode/Get/Laws.antt =====
-- What `Get` finds in the text of a map.
use charo_torrent.Prelude.{
  ℕ, zero, suc, ◌+◌, ◌-◌, ◌*◌, ◌^◌, ◌<◌, ◌≡◌, refl, sym, ap, ◌∙◌, Bool, true, false, [], ◌∷◌, ◌++◌,
  Option, some, leb, ◌==◌, if◌then◌else◌, length, Outcome, ok, arith, length-append, take-append,
  drop-append, ==_refl,
}
use mathlib.Core.List.{append-nil, append_assoc}
use mathlib.Core.Option
use charo_torrent.Prelude.Bytes.{Bytes}
use charo_torrent.Bencode.Value.{
  Value, Entries, str, dict, no_entries, entry, is_same, lookup_entry,
}
use charo_torrent.Bencode.Encode.{encode_string, encode, encode_entries}
use charo_torrent.Bencode.Decode.{read_ben_string}
use charo_torrent.Bencode.RoundTrip.{length-encode_entries}
use charo_torrent.Bencode.RoundTrip.Strings.{read_ben_string-encode_string}
use charo_torrent.Bencode.RoundTrip.Collect.{IsPlain, IsPlainMap}
use charo_torrent.Bencode.RoundTrip.Plain.{length-encode_string}
use charo_torrent.Bencode.Get.{
  Consumer, GetError, read, slice, key_text, turn, find_key, ends_with, get,
}
use charo_torrent.Bencode.Get.Skips.{consumer}
use charo_torrent.Bencode.Get.Skipping.{all-skipped}

read-encode :
    (v : Value) (rest : Bytes) (n : ℕ)
    → IsPlain v
    → read (consumer (encode v ++ rest) n)
      ≡ ok (n, n + length (encode v), consumer rest (n + length (encode v)))
unfolding read
read-encode v rest n p =
    rw
      (all-skipped v p n rest (2 * length (encode v ++ rest) + 1)
        (omega (arith, length-append (encode v) rest)))
      refl

read-encode_string :
    (s rest : Bytes) (n : ℕ)
    → length s < 2 ^ 63
    → read (consumer (encode_string s ++ rest) n)
      ≡ ok (n, n + length (encode_string s), consumer rest (n + length (encode_string s)))
unfolding encode
read-encode_string s rest n small = read-encode (str s) rest n small

-- A slice between two places of a text.
slice-append :
    (pre s post : Bytes) (start end : ℕ)
    → start ≡ length pre
    → end ≡ start + length s
    → slice (pre ++ (s ++ post)) start end ≡ ok s
unfolding slice
slice-append pre s post start end e e' =
    let len = length-append pre (s ++ post) in
    let len' = length-append s post in
    let first : leb start end ≡ true = ground arith in
    let last : leb end (length (pre ++ (s ++ post))) ≡ true = ground (arith, len, len') in
    let size : end - start ≡ length s = omega arith in
    rw (first, last, size, drop-append start pre (s ++ post) e, take-append (length s) s post refl)
      refl

key_text-encode_string :
    (j : Bytes) → length j < 2 ^ 63 → key_text (read_ben_string (encode_string j)) ≡ j
key_text-encode_string j small =
    let whole = read_ben_string-encode_string j [] small in ap key_text (rw append-nil at whole)

-- One turn of the loop, its reads and slices known.
find_key-turn :
    (f : ℕ) (copy k key v : Bytes) (c c' c'' : Consumer) (a b d : ℕ)
    → (length c.buf == 0) ≡ false
    → read c ≡ ok (a, b, c')
    → slice copy a b ≡ ok key
    → read c' ≡ ok (b, d, c'')
    → slice copy b d ≡ ok v
    → find_key (suc f) copy c k
      ≡ (if is_same (key_text (read_ben_string key)) k then ok (some v) else find_key f copy c'' k)
unfolding find_key
find_key-turn f copy k key v c c' c'' a b d some_left e1 e2 e3 e4 =
    rw (some_left, e1, e2, e3, e4)
      (given (is_same (key_text (read_ben_string key)) k) (find_key f copy c'' k))
  where
    given :
        (found : Bool) (rest : Outcome GetError (Option Bytes))
        → turn found (ok v) rest ≡ (if found then ok (some v) else rest)
    given true rest = refl
    given false rest = refl

found-or-rest :
    (found : Bool) (w : Value) (o : Option Value) (r : Outcome GetError (Option Bytes))
    → r ≡ ok (Option.map encode o)
    → (if found then ok (some (encode w)) else r)
      ≡ ok (Option.map encode (if found then some w else o))
found-or-rest true w o r e = refl
found-or-rest false w o r e = e

regroup :
    (pre keys vals post : Bytes) → pre ++ (keys ++ (vals ++ post)) ≡ (pre ++ keys) ++ (vals ++ post)
regroup pre keys vals post = sym (append_assoc pre keys (vals ++ post))

-- The turn of the loop at the entry of `j`.
find_key-entry :
    (j : Bytes) (w : Value) (es : Entries) (f n : ℕ) (pre copy k : Bytes)
    → length j < 2 ^ 63
    → IsPlain w
    → n ≡ length pre
    → copy ≡ pre ++ encode_entries (entry j w es)
    → find_key (suc f) copy (consumer (encode_entries (entry j w es)) n) k ≡ (
        if is_same j k
        then ok (some (encode w))
        else find_key f copy
            (consumer (encode_entries es) (n + length (encode_string j) + length (encode w)))
            k)
unfolding encode
find_key-entry j w es f n pre copy k small p at_ e =
    let keys = encode_string j in
    let vals = encode w in
    let post = encode_entries es in
    let b = n + length keys in
    let there : (length (encode_entries (entry j w es)) == 0) ≡ false =
      ground (arith, length-encode_entries j w es, length-encode_string j) in
    find_key-turn f copy k keys vals _ (consumer (vals ++ post) b) (consumer post (b + length vals))
      n b (b + length vals) there (read-encode_string j (vals ++ post) n small)
      (rw e (slice-append pre keys (vals ++ post) n b at_ refl)) (read-encode w post b p)
      (rw (e ∙ regroup pre keys vals post) (
        slice-append (pre ++ keys) vals post b (b + length vals)
          (omega (arith, at_, length-append pre keys)) refl))
    ∙ rw (key_text-encode_string j small) refl

find_key-encode_entries :
    (es : Entries) (f n : ℕ) (pre copy k : Bytes)
    → IsPlainMap es
    → n ≡ length pre
    → copy ≡ pre ++ encode_entries es
    → length (encode_entries es) < f
    → find_key f copy (consumer (encode_entries es) n) k
      ≡ ok (Option.map encode (lookup_entry k es))
unfolding find_key lookup_entry encode
find_key-encode_entries es zero n pre copy k p at_ e h = absurd (omega arith)
find_key-encode_entries no_entries (suc f) n pre copy k p at_ e h = refl
find_key-encode_entries (entry j w es) (suc f) n pre copy k p at_ e h =
    let keys = encode_string j in
    let vals = encode w in
    let place : n + length keys + length vals ≡ length ((pre ++ keys) ++ vals) =
      omega (arith, at_, length-append (pre ++ keys) vals, length-append pre keys) in
    let rest =
      find_key-encode_entries es f (n + length keys + length vals) ((pre ++ keys) ++ vals) copy k
        p.3 place
        (e
          ∙ regroup pre keys vals (encode_entries es)
          ∙ sym (append_assoc (pre ++ keys) vals (encode_entries es)))
        (omega (arith, h, length-encode_entries j w es, length-encode_string j)) in
    find_key-entry j w es f n pre copy k p.0 p.1 at_ e
    ∙ found-or-rest (is_same j k) w (lookup_entry k es) _ rest

ends_with-append : (d : ℕ) (c : ℕ) (s : Bytes) → ends_with d ((c ∷ s) ++ (d ∷ [])) ≡ true
ends_with-append d c [] = ==_refl d
ends_with-append d c (b ∷ s) = ends_with-append d b s

-- On the text of a map whose values are of the kinds that an interface{} is decoded to, with its
-- keys in order, Get gives the encoding of the value that the map has at the key, and nothing if
-- it has none.
pub get-encode :
    (es : Entries) (k : Bytes)
    → IsPlain (dict es)
    → get (encode (dict es)) k ≡ ok (Option.map encode (lookup_entry k es))
unfolding get encode
get-encode es k p =
    let text = encode_entries es in
    let size : length (text ++ (b'e' ∷ [])) - 1 ≡ length text =
      omega (arith, length-append text (b'e' ∷ [])) in
    rw (size, take-append (length text) text (b'e' ∷ []) refl, ends_with-append b'e' b'd' text)
      (find_key-encode_entries es (length text + 1) 0 [] text k p refl refl (omega arith))
