-- ===== src/Wire/Message.antt =====
-- peer_wire/message.go: the messages of the wire protocol, `Msg.Encode`, `Decode` and `Msg.Request`.
-- An `io.Reader` is the list of bytes that are still to come; it ends at the end of that list.
-- The payload of an extended message has a type `E` of its own: `Extension` holds the functions
-- writeExtension and readExtension over it.
pub mod RoundTrip
pub mod Faults
use charo_torrent.Prelude.{
  ℕ, zero, suc, ◌+◌, ◌-◌, ◌*◌, ◌/◌, ◌%◌, ◌^◌, ◌<◌, Bool, true, false, List, [], ◌∷◌, ◌++◌, Option,
  none, some, ltb, leb, ◌==◌, if◌then◌else◌, length, take, drop, Outcome, ok, err, panic, ◌>>=◌,
}
use charo_torrent.Prelude.Bytes.{Bytes, put_u16, put_u32, read_u8, read_u16, read_u32}

-- The named kinds; `unknown n` is an int8, as a byte, that no constant names.
pub data MessageKind : Type 0 where
  choke unchoke interested not_interested have bitfield request piece : MessageKind
  cancel port keep_alive extended : MessageKind
  unknown : ℕ → MessageKind

pub record Msg (E : Type 0) : Type 0 where
  pub kind : MessageKind
  pub index : ℕ
  pub begin : ℕ
  pub len : ℕ
  pub bf : Bytes
  pub block : Bytes
  pub port : ℕ
  pub extended_id : ℕ
  pub extended_msg : Option E

pub data Error : Type 0 where
  eof unexpected_eof too_long unknown_kind bad_extension : Error

-- writeExtension and readExtension; `write` is `none` where writeExtension panics.
pub record Extension (E : Type 0) : Type 0 where
  pub write : ℕ → Option E → Option Bytes
  pub read : ℕ → Bytes → Option E

abbrev pub max_msg_length : ℕ
max_msg_length = 2 ^ 10 * 256

abbrev pub kind_byte : MessageKind → ℕ
kind_byte choke = 0
kind_byte unchoke = 1
kind_byte interested = 2
kind_byte not_interested = 3
kind_byte have = 4
kind_byte bitfield = 5
kind_byte request = 6
kind_byte piece = 7
kind_byte cancel = 8
kind_byte port = 9
kind_byte keep_alive = 10
kind_byte extended = 20
kind_byte (unknown n) = n

unfoldable pub kind_of_byte : ℕ → MessageKind
kind_of_byte b =
    if b == 0
    then choke
    else if b == 1
    then unchoke
    else if b == 2
    then interested
    else if b == 3
    then not_interested
    else if b == 4
    then have
    else if b == 5
    then bitfield
    else if b == 6
    then request
    else if b == 7
    then piece
    else if b == 8
    then cancel
    else if b == 9
    then port
    else if b == 10
    then keep_alive
    else if b == 20
    then extended
    else unknown b

-- `new(Msg)` with a kind
abbrev pub empty_msg : {E : Type 0} → MessageKind → Msg E
empty_msg k = record {
  kind = k;
  index = 0;
  begin = 0;
  len = 0;
  bf = [];
  block = [];
  port = 0;
  extended_id = 0;
  extended_msg = none;
}

abbrev pub framed : Option Bytes → Option Bytes
framed none = none
framed (some b) = some (put_u32 (length b % 2 ^ 32) ++ b)

-- checkRead: a payload that is too short is a panic, not an error.
abbrev pub check_read : {A : Type 0} → Option A → Outcome Error A
check_read none = panic
check_read (some a) = ok a

-- io.ReadFull: EOF where nothing is left, ErrUnexpectedEOF where the reader ends inside.
unfoldable pub read_full : ℕ → Bytes → Outcome Error (Bytes × Bytes)
read_full n r =
    if leb n (length r)
    then ok (take n r, drop n r)
    else if length r == 0
    then err eof
    else err unexpected_eof

-- The request that `m` answers; it panics on any other kind.
unfoldable pub request_of : {E : Type 0} → Msg E → Option (Msg E)
request_of m = elim m.kind [
  | piece ↦ some (record (empty_msg request) {
    index = m.index;
    begin = m.begin;
    len = length m.block % 2 ^ 32;
  })
  | _ ↦ none
]

module _ {E : Type 0} (ext : Extension E) where
  -- What follows the length prefix, on the kind of the message; `none` is a panic.
  unfoldable pub body : MessageKind → Msg E → Option Bytes
  body keep_alive m = some []
  body choke m = some (kind_byte choke ∷ [])
  body unchoke m = some (kind_byte unchoke ∷ [])
  body interested m = some (kind_byte interested ∷ [])
  body not_interested m = some (kind_byte not_interested ∷ [])
  body have m = some (kind_byte have ∷ put_u32 m.index)
  body bitfield m = some (kind_byte bitfield ∷ m.bf)
  body request m =
      some (kind_byte request ∷ (put_u32 m.index ++ (put_u32 m.begin ++ put_u32 m.len)))
  body cancel m = some (kind_byte cancel ∷ (put_u32 m.index ++ (put_u32 m.begin ++ put_u32 m.len)))
  body piece m = some (kind_byte piece ∷ (put_u32 m.index ++ (put_u32 m.begin ++ m.block)))
  body extended m = elim (ext.write m.extended_id m.extended_msg) [
    | none ↦ none
    | some payload ↦ some (kind_byte extended ∷ m.extended_id ∷ payload)
  ]
  body port m = some (kind_byte port ∷ put_u16 m.port)
  body (unknown n) m = none

  unfoldable pub encode : Msg E → Option Bytes
  unfolding body
  encode m = framed (body m.kind m)

  -- The switch of Decode, over the bytes behind the kind.
  unfoldable pub fields : MessageKind → Bytes → Outcome Error (Msg E)
  fields choke b = ok (empty_msg choke)
  fields unchoke b = ok (empty_msg unchoke)
  fields interested b = ok (empty_msg interested)
  fields not_interested b = ok (empty_msg not_interested)
  fields have b = do (i, r) ← check_read (read_u32 b); ok (record (empty_msg have) { index = i })
  fields bitfield b = ok (record (empty_msg bitfield) { bf = b })
  fields request b = do
    (i, r) ← check_read (read_u32 b)
    (o, s) ← check_read (read_u32 r)
    (n, t) ← check_read (read_u32 s)
    ok (record (empty_msg request) { index = i; begin = o; len = n })
  fields cancel b = do
    (i, r) ← check_read (read_u32 b)
    (o, s) ← check_read (read_u32 r)
    (n, t) ← check_read (read_u32 s)
    ok (record (empty_msg cancel) { index = i; begin = o; len = n })
  fields piece b = do
    (i, r) ← check_read (read_u32 b)
    (o, s) ← check_read (read_u32 r)
    ok (record (empty_msg piece) { index = i; begin = o; block = s })
  fields port b = do (p, r) ← check_read (read_u16 b); ok (record (empty_msg port) { port = p })
  fields extended b = do
    (id, payload) ← check_read (read_u8 b)
    elim (ext.read id payload) [
      | none ↦ err bad_extension
      | some e ↦ ok (record (empty_msg extended) { extended_id = id; extended_msg = some e })
    ]
  fields keep_alive b = err unknown_kind
  fields (unknown n) b = err unknown_kind

  unfoldable pub payload : Bytes → Outcome Error (Msg E)
  unfolding fields kind_of_byte
  payload [] = panic
  payload (k ∷ b) = fields (kind_of_byte k) b

  abbrev pub frame : ℕ → Bytes → Outcome Error (Msg E × Bytes)
  unfolding payload read_full
  frame n r =
      if ltb max_msg_length n
      then err too_long
      else if n == 0
      then ok (empty_msg keep_alive, r)
      else do (buf, rest) ← read_full n r; m ← payload buf; ok (m, rest)

  -- Decode returns the message and leaves the reader at `rest`.
  unfoldable pub decode : Bytes → Outcome Error (Msg E × Bytes)
  unfolding read_full read_u32
  decode r = do (prefix, rest) ← read_full 4 r; (n, _) ← check_read (read_u32 prefix); frame n rest
