-- ===== src/Wire/Message/Faults.antt =====
-- The messages at which Decode fails: checkRead panics where the body is too short for its kind.
use charo_torrent.Prelude.{
  ℕ, suc, ◌+◌, ◌^◌, ◌<◌, ◌≤◌, ◌≡◌, ◌≢◌, ◌↔◌, refl, true, false, [], ◌∷◌, ◌++◌, ltb, ◌==◌, length,
  Outcome, ok, err, panic, ◌>>=◌, arith,
}
use charo_torrent.Prelude.Bytes.{
  Bytes, put_u32, read_u8, read_u32, read_u16_short, read_u16_long, read_u32_short, read_u32_long,
}
use charo_torrent.Wire.Message.{
  MessageKind, have, request, piece, cancel, port, extended, Msg, Error, Extension, max_msg_length,
  kind_of_byte, check_read, fields, payload, frame, decode, too_long,
}
use charo_torrent.Wire.Message.RoundTrip.{decode-prefix, read_full-append}
use native.Mathlib.Decide.{dec_lt}

-- The length of the fields that Decode reads behind the kind.
unfoldable pub fields_length : MessageKind → ℕ
fields_length have = 4
fields_length request = 12
fields_length cancel = 12
fields_length piece = 8
fields_length port = 2
fields_length extended = 1
fields_length _ = 0

module _ {A : Type 0} (n : ℕ) (f : ℕ × Bytes → Outcome Error A) (b : Bytes) where
  -- One word is read, and the rest too is too short.
  word_short :
      length b < 4 + n
      → ((p : ℕ × Bytes) → length p.1 < n → f p ≡ panic)
      → (check_read (read_u32 b) >>= f) ≡ panic
  word_short h next = elim (dec_lt (length b) 4) [
    | yes p ↦ rw (read_u32_short b p) refl
    | no p ↦ let (i, r, e, m) = read_u32_long b (omega arith) in rw e (next (i, r) (omega arith))
  ]

  word_long :
      4 + n ≤ length b
      → ((p : ℕ × Bytes) → n ≤ length p.1 → f p ≢ panic)
      → (check_read (read_u32 b) >>= f) ≢ panic
  word_long h next =
      let (i, r, e, m) = read_u32_long b (omega arith) in rw e (next (i, r) (omega arith))

abbrev leaving : {E : Type 0} → Bytes → Msg E → Outcome Error (Msg E × Bytes)
leaving rest m = ok (m, rest)

module _ {E : Type 0} (ext : Extension E) where
  fields_short : (k : MessageKind) (b : Bytes) → length b < fields_length k → fields ext k b ≡ panic
  unfolding fields fields_length read_u8
  fields_short have b h = rw (read_u32_short b h) refl
  fields_short request b h =
      word_short 8 _ b h λ p l. word_short 4 _ p.1 l λ q m. rw (read_u32_short q.1 m) refl
  fields_short cancel b h =
      word_short 8 _ b h λ p l. word_short 4 _ p.1 l λ q m. rw (read_u32_short q.1 m) refl
  fields_short piece b h = word_short 4 _ b h λ p l. rw (read_u32_short p.1 l) refl
  fields_short port b h = rw (read_u16_short b h) refl
  fields_short extended [] h = refl
  fields_short extended (x ∷ b) h = absurd (omega arith)
  fields_short _ b h = absurd (omega arith)

  fields_long : (k : MessageKind) (b : Bytes) → fields_length k ≤ length b → fields ext k b ≢ panic
  unfolding fields fields_length read_u8
  fields_long have b h = word_long 0 _ b h λ p l e. cc
  fields_long request b h =
      word_long 8 _ b h λ p l. word_long 4 _ p.1 l λ q m. word_long 0 _ q.1 m λ r n e. cc
  fields_long cancel b h =
      word_long 8 _ b h λ p l. word_long 4 _ p.1 l λ q m. word_long 0 _ q.1 m λ r n e. cc
  fields_long piece b h = word_long 4 _ b h λ p l. word_long 0 _ p.1 l λ q m e. cc
  fields_long port b h = let (i, r, e, m) = read_u16_long b h in rw e (λ x. cc)
  fields_long extended [] h = absurd (omega arith)
  fields_long extended (x ∷ b) h = λ e. ground arith
  fields_long _ b h = λ e. cc

  -- One frame whose length prefix is honest, with any bytes behind it.
  one_frame :
      (k : ℕ) (b rest : Bytes)
      → suc (length b) ≤ max_msg_length
      → decode ext (put_u32 (suc (length b)) ++ (k ∷ (b ++ rest)))
        ≡ (fields ext (kind_of_byte k) b >>= leaving rest)
  unfolding frame payload
  one_frame k b rest h =
      let small : ltb max_msg_length (suc (length b)) ≡ false = ground arith in
      let some_bytes : (suc (length b) == 0) ≡ false = ground arith in
      rw
        (
          decode-prefix ext (suc (length b)) (k ∷ (b ++ rest)) (omega arith),
          frame,
          small,
          some_bytes,
          read_full-append ext (k ∷ b) rest (suc (length b)) refl,
        )
        refl

  bind-eq-panic :
      (o : Outcome Error (Msg E)) (rest : Bytes) → (o >>= leaving rest) ≡ panic → o ≡ panic
  bind-eq-panic o rest e = ground arith

  -- Decode panics on a frame of admissible length exactly when its body is shorter than the
  -- fields of its kind.
  pub decode-panic_iff :
      (k : ℕ) (b rest : Bytes)
      → suc (length b) ≤ max_msg_length
      → (decode ext (put_u32 (suc (length b)) ++ (k ∷ (b ++ rest))) ≡ panic)
        ↔ (length b < fields_length (kind_of_byte k))
  decode-panic_iff k b rest h = rw (one_frame k b rest h) (to, from)
    where
      to :
          (fields ext (kind_of_byte k) b >>= leaving rest) ≡ panic
          → length b < fields_length (kind_of_byte k)
      to e = elim (dec_lt (length b) (fields_length (kind_of_byte k))) [
        | yes p ↦ p
        | no p ↦ absurd (fields_long (kind_of_byte k) b (omega arith) (bind-eq-panic _ rest e))
      ]

      from :
          length b < fields_length (kind_of_byte k)
          → (fields ext (kind_of_byte k) b >>= leaving rest) ≡ panic
      from l = rw (fields_short (kind_of_byte k) b l) refl

  -- A length prefix above maxMsgLength is refused before anything else is read.
  pub decode-too_long :
      (n : ℕ) (r : Bytes)
      → n < 2 ^ 32
      → max_msg_length < n
      → decode ext (put_u32 n ++ r) ≡ err too_long
  unfolding frame
  decode-too_long n r h l =
      let big : ltb max_msg_length n ≡ true = ground arith in
      rw (decode-prefix ext n r h, frame, big) refl
