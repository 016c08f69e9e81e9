-- ===== src/Bencode/Get/Skipping.antt =====
-- Skipping whole values, whatever they hold.
use charo_torrent.Prelude.{ℕ, zero, suc, ◌+◌, ◌*◌, ◌<◌, ◌≡◌, ap, ◌∙◌, ◌∷◌, ◌++◌, length, ok, arith}
use mathlib.Core.List.{append_assoc}
use charo_torrent.Prelude.Bytes.{Bytes}
use charo_torrent.Bencode.Value.{
  Value, Values, Entries, int, uint, bool, str, nil_list, nil_dict, list, dict, no_values, value,
  no_entries, entry,
}
use charo_torrent.Bencode.Encode.{encode_string, encode, encode_values, encode_entries}
use charo_torrent.Bencode.RoundTrip.{
  spend, length-encode_values, length-encode_entries, length-list, length-dict,
}
use charo_torrent.Bencode.RoundTrip.Collect.{IsPlain, ArePlain, IsPlainMap}
use charo_torrent.Bencode.RoundTrip.Plain.{length-encode_string, length-encode}
use charo_torrent.Bencode.Get.{read_ben_elem, skip_elems}
use charo_torrent.Bencode.Get.Skips.{
  consumer, skipped, skip-int, skip-string, skip-list, skip-dict, skip-end, skip-step,
}

abbrev pub SkipsValue : Value → Type 0
SkipsValue v =
    IsPlain v
    → (n : ℕ) (rest : Bytes) (f : ℕ) → 2 * length (encode v) < f
    → read_ben_elem f (consumer (encode v ++ rest) n) ≡ skipped rest (n + length (encode v))

abbrev SkipsValues : Values → Type 0
SkipsValues vs =
    ArePlain vs
    → (n : ℕ) (rest : Bytes) (f : ℕ) → 2 * length (encode_values vs) + 1 < f
    → skip_elems f (consumer (encode_values vs ++ (b'e' ∷ rest)) n)
      ≡ ok (consumer rest (n + (length (encode_values vs) + 1)))

abbrev SkipsEntries : Entries → Type 0
SkipsEntries es =
    IsPlainMap es
    → (n : ℕ) (rest : Bytes) (f : ℕ) → 2 * length (encode_entries es) + 1 < f
    → skip_elems f (consumer (encode_entries es ++ (b'e' ∷ rest)) n)
      ≡ ok (consumer rest (n + (length (encode_entries es) + 1)))

skips_end :
    (n : ℕ) (rest : Bytes) (f : ℕ)
    → 1 < f
    → skip_elems f (consumer (b'e' ∷ rest) n) ≡ ok (consumer rest (n + 1))
skips_end n rest zero h = absurd (omega arith)
skips_end n rest (suc zero) h = absurd (omega arith)
skips_end n rest (suc (suc f)) h = skip-end f n rest

skips_value : (v : Value) (vs : Values) → SkipsValue v → SkipsValues vs → SkipsValues (value v vs)
unfolding encode
skips_value v vs one more p n rest zero h = absurd (omega arith)
skips_value v vs one more p n rest (suc f) h =
    let len = length-encode_values v vs in
    let big = length-encode v p.0 in
    rw (append_assoc (encode v) (encode_values vs) (b'e' ∷ rest)) (
      skip-step f n (length (encode v)) _ (encode_values vs ++ (b'e' ∷ rest)) _
        (one p.0 n (encode_values vs ++ (b'e' ∷ rest)) f (omega (arith, len)))
        (more p.1 (n + length (encode v)) rest f (omega (arith, len, big))
          ∙ ap (λ k. ok (consumer rest k)) (omega (arith, len))))

skips_entry :
    (k : Bytes) (v : Value) (es : Entries)
    → SkipsValue v
    → SkipsEntries es
    → SkipsEntries (entry k v es)
unfolding encode
skips_entry k v es one more p n rest zero h = absurd (omega arith)
skips_entry k v es one more p n rest (suc zero) h = absurd (omega arith)
skips_entry k v es one more p n rest (suc (suc f)) h =
    let len = length-encode_entries k v es in
    let big = length-encode v p.1 in
    let big' = length-encode_string k in
    let from = n + length (encode_string k) in
    rw
      (
        append_assoc (encode_string k) (encode v ++ encode_entries es) (b'e' ∷ rest),
        append_assoc (encode v) (encode_entries es) (b'e' ∷ rest),
      )
      (skip-step (suc f) n (length (encode_string k)) _
        (encode v ++ (encode_entries es ++ (b'e' ∷ rest))) _
        (skip-string f n k (encode v ++ (encode_entries es ++ (b'e' ∷ rest))) p.0)
        (skip-step f from (length (encode v)) _ (encode_entries es ++ (b'e' ∷ rest)) _
          (one p.1 from (encode_entries es ++ (b'e' ∷ rest)) f (omega (arith, len, big')))
          (more p.3 (from + length (encode v)) rest f (omega (arith, len, big, big'))
            ∙ ap (λ m. ok (consumer rest m)) (omega (arith, len)))))

skips_list : (vs : Values) → SkipsValues vs → SkipsValue (list vs)
skips_list vs ih p n rest =
    spend
      (λ f.
        read_ben_elem f (consumer (encode (list vs) ++ rest) n)
        ≡ skipped rest (n + length (encode (list vs))))
      λ f h. skip-list f n vs rest (ih p (n + 1) rest f (omega (arith, length-list vs)))

skips_dict : (es : Entries) → SkipsEntries es → SkipsValue (dict es)
skips_dict es ih p n rest =
    spend
      (λ f.
        read_ben_elem f (consumer (encode (dict es) ++ rest) n)
        ≡ skipped rest (n + length (encode (dict es))))
      λ f h. skip-dict f n es rest (ih p (n + 1) rest f (omega (arith, length-dict es)))

pub all-skipped : (v : Value) → SkipsValue v
unfolding encode
all-skipped v = elim v as SkipsValue SkipsValues SkipsEntries [
  | int z ↦ λ p n rest.
      spend
        (λ f.
          read_ben_elem f (consumer (encode (int z) ++ rest) n)
          ≡ skipped rest (n + length (encode (int z))))
        λ f h. skip-int f n z rest
  | uint n ↦ λ p. absurd p
  | bool b ↦ λ p. absurd p
  | str s ↦ λ p n rest.
      spend
        (λ f.
          read_ben_elem f (consumer (encode (str s) ++ rest) n)
          ≡ skipped rest (n + length (encode (str s))))
        λ f h. skip-string f n s rest p
  | nil_list ↦ λ p. absurd p
  | nil_dict ↦ λ p. absurd p
  | list (vs → ih) ↦ skips_list vs ih
  | dict (es → ih) ↦ skips_dict es ih
  | no_values ↦ λ p n rest f h. skips_end n rest f h
  | value (w → ih) (vs → ihs) ↦ skips_value w vs ih ihs
  | no_entries ↦ λ p n rest f h. skips_end n rest f h
  | entry k (w → ih) (es → ihs) ↦ skips_entry k w es ih ihs
]
