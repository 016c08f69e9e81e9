-- ===== src/Storage/ReadAt.antt =====
-- torrent/storage/filestorage.go, ReadAt and readFileAt: a read is spread over the files.
pub mod Bytes
pub mod Whole
pub mod RoundTrip
use charo_torrent.Prelude.{
  ℕ, zero, suc, ◌+◌, ◌-◌, ◌*◌, ◌/◌, ◌%◌, ◌^◌, ◌<◌, ◌≤◌, ◌≡◌, ◌≢◌, ◌↔◌, ◌⊎◌, inl, inr, refl, sym, ap,
  ◌∙◌, Bool, true, false, not, ◌&&◌, ◌||◌, List, [], ◌∷◌, ◌++◌, map, Option, none, some, ltb, leb,
  ◌==◌, if◌then◌else◌, length, get_elem?, set, take, drop, replicate, All, Outcome, ok, err, panic,
  ◌>>=◌, arith, length-append, length-set, length-replicate, length-take, length-drop, take_all,
  take-append, drop-append, get_elem?-lt, get_elem?-ge, get_elem?-set, All-take, All-append,
  All-imp, length-map, get_elem?-set_self, get_elem?-set_ne, ltb→lt, leb→le, ==→eq, ==_refl,
  Bool-cases, Option-cases,
}
use charo_torrent.Storage.Spread.{FileSystem, total, byte_at}

-- What os.Open reports.
pub data Opened : Type 0 where
  opened : Opened
  missing : Opened
  refused : Opened

-- What os.File.ReadAt reports beside the bytes: nothing, io.EOF or another error.
pub data FileError : Type 0 where
  fine : FileError
  at_end : FileError
  broken : FileError

pub record FileRead : Type 0 where
  pub bytes : List ℕ
  pub error : FileError

-- Reading the operating system's files: `open_file d i` is os.Open of file `i`, and
-- `read_file d i n off` is File.ReadAt of `n` bytes. The laws are what File.ReadAt documents: it
-- reads no more than `n` bytes of the file, reports an error when it reads fewer, and io.EOF only
-- at the end of the file.
pub record FileReader (D : Type 0) ⦃fs : FileSystem D⦄ : Type 0 where
  pub open_file : D → ℕ → Opened
  pub read_file : D → ℕ → ℕ → ℕ → FileRead
  pub open_file-missing : (d : D) (i o : ℕ) → open_file d i ≡ missing → fs.byte d i o ≡ none
  pub length-read_file : (d : D) (i n off : ℕ) → length (read_file d i n off).bytes ≤ n
  pub read_file-byte :
      (d : D) (i n off k : ℕ)
      → k < length (read_file d i n off).bytes
      → get_elem? (read_file d i n off).bytes k ≡ fs.byte d i (off + k)
  pub read_file-fine :
      (d : D) (i n off : ℕ)
      → (read_file d i n off).error ≡ fine
      → length (read_file d i n off).bytes ≡ n
  pub read_file-at_end :
      (d : D) (i n off : ℕ)
      → (read_file d i n off).error ≡ at_end
      → fs.byte d i (off + length (read_file d i n off).bytes) ≡ none

-- The errors of ReadAt: io.EOF is the end of the torrent, and `failed` an error of a file.
pub data ReadError : Type 0 where
  no_error : ReadError
  eof : ReadError
  unexpected_eof : ReadError
  failed : ReadError

-- The bytes put into the buffer, whose number is `n`, and the error.
pub record Read : Type 0 where
  pub bytes : List ℕ
  pub error : ReadError

-- The inner loop of ReadAt in one file: the bytes read, how many are left to read, the offset, and
-- the error when ReadAt returns there.
pub record Progress : Type 0 where
  pub bytes : List ℕ
  pub left : ℕ
  pub at : ℕ
  pub stopped : Option ReadError

unfoldable pub lies : FileError → ReadError
lies fine = no_error
lies at_end = unexpected_eof
lies broken = failed

unfoldable pub limit : ℕ → ℕ → ℕ → ℕ
limit flen len off = if ltb (flen - off) len then flen - off else len

module _ {D : Type 0} ⦃fs : FileSystem D⦄ ⦃reader : FileReader D⦄ where
  -- The loop of readFileAt over the rest of the buffer, of `len` bytes. Each round but the last
  -- reads a byte, so `len` rounds are enough.
  unfoldable pub read_loop : ℕ → D → ℕ → ℕ → ℕ → ℕ → FileRead
  read_loop zero d i flen len off = record { bytes = []; error = fine }
  read_loop (suc rounds) d i flen len off =
      let r = reader.read_file d i len off in
      let n1 = length r.bytes in
      let rest = read_loop rounds d i flen (len - n1) (off + n1) in
      if ltb off flen && not (len == 0)
      then if n1 == 0 then r else record rest { bytes = r.bytes ++ rest.bytes }
      else record { bytes = []; error = fine }

  unfoldable pub read_opened : Opened → D → ℕ → ℕ → ℕ → ℕ → FileRead
  read_opened opened d i flen len off =
      read_loop (limit flen len off) d i flen (limit flen len off) off
  read_opened missing d i flen len off = record { bytes = []; error = at_end }
  read_opened refused d i flen len off = record { bytes = []; error = broken }

  unfoldable pub read_file_at : D → ℕ → ℕ → ℕ → ℕ → FileRead
  read_file_at d i flen len off = read_opened (reader.open_file d i) d i flen len off

  -- The loop `for off < flen` of ReadAt. Each round that goes on reads a byte.
  unfoldable pub read_in_file : ℕ → D → ℕ → ℕ → ℕ → ℕ → Progress
  read_in_file zero d i flen len off = record { bytes = []; left = len; at = off; stopped = none }
  read_in_file (suc rounds) d i flen len off =
      let r = read_file_at d i flen len off in
      let n1 = length r.bytes in
      let rest = read_in_file rounds d i flen (len - n1) (off + n1) in
      if ltb off flen
      then if (len - n1) == 0
        then record { bytes = r.bytes; left = 0; at = off + n1; stopped = some no_error }
        else if n1 == 0
        then record { bytes = []; left = len; at = off; stopped = some (lies r.error) }
        else record rest { bytes = r.bytes ++ rest.bytes }
      else record { bytes = []; left = len; at = off; stopped = none }

  unfoldable pub read_at : List ℕ → ℕ → D → ℕ → ℕ → Read
  read_at [] i d len off = record { bytes = []; error = eof }
  read_at (flen ∷ flens) i d len off =
      let s = read_in_file (suc len) d i flen len off in
      let rest = read_at flens (i + 1) d s.left (s.at - flen) in
      elim s.stopped [
        | some e ↦ record { bytes = s.bytes; error = e }
        | none ↦ record rest { bytes = s.bytes ++ rest.bytes }
      ]
