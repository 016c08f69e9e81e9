-- ===== src/Wire/Message/RoundTrip.antt =====
-- Decode reads back what Encode wrote, and stops where it ends.
use charo_torrent.Prelude.{
  ℕ, ◌+◌, ◌%◌, ◌^◌, ◌<◌, ◌≤◌, ◌≡◌, ◌≢◌, refl, sym, ap, ◌∙◌, true, false, [], ◌++◌, some, ltb, leb,
  ◌==◌, length, Outcome, ok, ◌>>=◌, arith, Option-cases, inl, inr, length-append, take-append,
  drop-append,
}
use charo_torrent.Prelude.Bytes.{
  Bytes, IsU16, IsU32, put_u32, read_u32, read_u32-put_u32, length-put_u32, read_u32_all,
  read_u16_all,
}
use charo_torrent.Wire.Message.{
  MessageKind, choke, unchoke, interested, not_interested, have, bitfield, request, piece, cancel,
  port, keep_alive, extended, unknown, Msg, Error, Extension, max_msg_length, empty_msg, body,
  framed, encode, check_read, fields, payload, read_full, frame, decode,
}
use mathlib.Core.List.{append_assoc}
use mathlib.Core.Path.{subst}

-- The fields that a message of its kind carries over the wire.
unfoldable pub wire_view : {E : Type 0} → MessageKind → Msg E → Msg E
wire_view have m = record (empty_msg have) { index = m.index }
wire_view bitfield m = record (empty_msg bitfield) { bf = m.bf }
wire_view request m = record (empty_msg request) { index = m.index; begin = m.begin; len = m.len }
wire_view cancel m = record (empty_msg cancel) { index = m.index; begin = m.begin; len = m.len }
wire_view piece m = record (empty_msg piece) { index = m.index; begin = m.begin; block = m.block }
wire_view port m = record (empty_msg port) { port = m.port }
wire_view extended m = record (empty_msg extended) {
  extended_id = m.extended_id;
  extended_msg = m.extended_msg;
}
wire_view k m = empty_msg k

-- Every number fits the width of its Go type.
pub record Fits {E : Type 0} (m : Msg E) : Type 0 where
  pub index : IsU32 m.index
  pub begin : IsU32 m.begin
  pub len : IsU32 m.len
  pub port : IsU16 m.port

three_words :
    {A : Type 0} (a b c : ℕ) (f : ℕ → ℕ → ℕ → Outcome Error A)
    → IsU32 a
    → IsU32 b
    → IsU32 c
    → (do
      (i, r) ← check_read (read_u32 (put_u32 a ++ (put_u32 b ++ put_u32 c)))
      (o, s) ← check_read (read_u32 r)
      (n, t) ← check_read (read_u32 s)
      f i o n)
      ≡ f a b c
three_words a b c f ha hb hc =
    rw (read_u32-put_u32 a _ ha, read_u32-put_u32 b _ hb, read_u32_all c hc) refl

two_words :
    {A : Type 0} (a b : ℕ) (r : Bytes) (f : ℕ → ℕ → Bytes → Outcome Error A)
    → IsU32 a
    → IsU32 b
    → (do
      (i, s) ← check_read (read_u32 (put_u32 a ++ (put_u32 b ++ r)))
      (o, t) ← check_read (read_u32 s)
      f i o t)
      ≡ f a b r
two_words a b r f ha hb = rw (read_u32-put_u32 a _ ha, read_u32-put_u32 b _ hb) refl

module _ {E : Type 0} (ext : Extension E) where
  -- A statement about what was sent, from the same about what was built.
  sent :
      {x b : Bytes} {r : Outcome Error (Msg E)}
      → some x ≡ some b
      → payload ext x ≡ r
      → payload ext b ≡ r
  sent {x} {b} {r} e h = let q : x ≡ b = cc in subst (λ y. payload ext y ≡ r) q h

  payload-body :
      (k : MessageKind) (m : Msg E) (b : Bytes)
      → Fits m
      → k ≢ extended
      → k ≢ keep_alive
      → body ext k m ≡ some b
      → payload ext b ≡ ok (wire_view k m)
  unfolding payload body wire_view fields
  payload-body choke m b f plain h e = sent e refl
  payload-body unchoke m b f plain h e = sent e refl
  payload-body interested m b f plain h e = sent e refl
  payload-body not_interested m b f plain h e = sent e refl
  payload-body have m b f plain h e = sent e (rw (read_u32_all m.index f.index) refl)
  payload-body bitfield m b f plain h e = sent e refl
  payload-body request m b f plain h e =
      sent e (three_words m.index m.begin m.len _ f.index f.begin f.len)
  payload-body cancel m b f plain h e =
      sent e (three_words m.index m.begin m.len _ f.index f.begin f.len)
  payload-body piece m b f plain h e = sent e (two_words m.index m.begin m.block _ f.index f.begin)
  payload-body port m b f plain h e = sent e (rw (read_u16_all m.port f.port) refl)
  payload-body extended m b f plain h e = absurd (plain refl)
  payload-body keep_alive m b f plain h e = absurd (h refl)
  payload-body (unknown n) m b f plain h e = cc

  body-pos :
      (k : MessageKind) (m : Msg E) (b : Bytes)
      → k ≢ keep_alive
      → body ext k m ≡ some b
      → 0 < length b
  unfolding body
  body-pos keep_alive m b h e = absurd (h refl)
  body-pos extended m b h e = ground arith
  body-pos (unknown n) m b h e = cc
  body-pos _ m b h e = ground arith

  pub read_full-append : (a r : Bytes) (n : ℕ) → n ≡ length a → read_full n (a ++ r) ≡ ok (a, r)
  unfolding read_full
  read_full-append a r n h =
      let e : leb n (length (a ++ r)) ≡ true = ground (arith, length-append a r) in
      rw (e, take-append n a r h, drop-append n a r h) refl

  frame-payload :
      (b rest : Bytes) (v : Msg E)
      → 0 < length b
      → length b ≤ max_msg_length
      → payload ext b ≡ ok v
      → frame ext (length b) (b ++ rest) ≡ ok (v, rest)
  unfolding frame
  frame-payload b rest v pos fits e =
      let small : ltb max_msg_length (length b) ≡ false = ground arith in
      let some_bytes : (length b == 0) ≡ false = ground arith in
      rw (small, some_bytes, read_full-append b rest (length b) refl, e) refl

  pub decode-prefix : (n : ℕ) (r : Bytes) → IsU32 n → decode ext (put_u32 n ++ r) ≡ frame ext n r
  unfolding decode
  decode-prefix n r h =
      rw (read_full-append (put_u32 n) r 4 (sym (length-put_u32 n)), read_u32_all n h) refl

  frame-wire :
      (k : MessageKind) (m : Msg E) (b rest : Bytes)
      → Fits m
      → k ≢ extended
      → length b ≤ max_msg_length
      → body ext k m ≡ some b
      → frame ext (length b) (b ++ rest) ≡ ok (wire_view k m, rest)
  unfolding frame body wire_view
  frame-wire keep_alive m b rest f plain fits e =
      let q : [] ≡ b = cc in
      subst (λ y. frame ext (length y) (y ++ rest) ≡ ok (empty_msg keep_alive, rest)) q refl
  frame-wire k m b rest f plain fits e =
      let ne : k ≢ keep_alive = λ p. cc in
      frame-payload b rest _ (body-pos k m b ne e) fits (payload-body k m b f plain ne e)

  decode-framed :
      (m : Msg E) (b rest : Bytes)
      → Fits m
      → m.kind ≢ extended
      → length b ≤ max_msg_length
      → body ext m.kind m ≡ some b
      → decode ext (put_u32 (length b % 2 ^ 32) ++ (b ++ rest)) ≡ ok (wire_view m.kind m, rest)
  decode-framed m b rest f plain fits e =
      let w : length b % 2 ^ 32 ≡ length b = omega arith in
      rw (w, decode-prefix (length b) (b ++ rest) (omega arith))
        (frame-wire m.kind m b rest f plain fits e)

  -- Decode returns what Encode was given, as far as its kind carries it over the wire, and stops at the bytes that follow, for
  -- a message of any kind but Extended whose numbers fit their Go types and whose body is at most maxMsgLength bytes long.
  pub decode-encode :
      (m : Msg E) (w rest : Bytes)
      → Fits m
      → m.kind ≢ extended
      → length w ≤ max_msg_length + 4
      → encode ext m ≡ some w
      → decode ext (w ++ rest) ≡ ok (wire_view m.kind m, rest)
  unfolding encode
  decode-encode m w rest f plain fits e = elim (Option-cases (body ext m.kind m)) [
    | inl bad ↦ let e' = rw (bad, framed) at e in cc e'
    | inr (b, made) ↦
        let e' : some (put_u32 (length b % 2 ^ 32) ++ b) ≡ some w = rw (made, framed) at e in
        let q : put_u32 (length b % 2 ^ 32) ++ b ≡ w = cc in
        let n : length w ≡ 4 + length b =
          ap length (sym q)
          ∙ length-append (put_u32 (length b % 2 ^ 32)) b
          ∙ ap (λ x. x + length b) (length-put_u32 (length b % 2 ^ 32)) in
        subst (λ y. decode ext (y ++ rest) ≡ ok (wire_view m.kind m, rest)) q
          (rw append_assoc (decode-framed m b rest f plain (omega arith) made))
  ]
