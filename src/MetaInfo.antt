-- ===== src/MetaInfo.antt =====
-- metainfo/info.go: the info dictionary, and the lengths of the pieces that it describes.
-- `-` on ℕ stops at 0; the code subtracts 1 from the number of pieces, which it compares with an
-- index: here 1 is added to the index instead.
pub mod Lengths
pub mod Hashes
use charo_torrent.Prelude.{
  ℕ, zero, suc, ◌+◌, ◌-◌, ◌*◌, ◌/◌, ◌%◌, ◌^◌, ◌<◌, ◌≤◌, ◌≡◌, ◌≢◌, ◌↔◌, ◌⊎◌, inl, inr, refl, sym, ap,
  ◌∙◌, Bool, true, false, not, ◌&&◌, ◌||◌, List, [], ◌∷◌, ◌++◌, map, Option, none, some, ltb, leb,
  ◌==◌, if◌then◌else◌, length, get_elem?, set, take, drop, replicate, All, Outcome, ok, err, panic,
  ◌>>=◌, arith, length-append, length-set, length-replicate, length-take, length-drop, take-append,
  drop-append, get_elem?-lt, get_elem?-ge, get_elem?-set_self, get_elem?-set_ne, ltb→lt, leb→le,
  ==→eq, ==_refl, Bool-cases, Option-cases,
}
use mathlib.Core.Option
use charo_torrent.Prelude.Bytes.{Bytes}

abbrev pub piece_size : ℕ
piece_size = 20

pub record File : Type 0 where
  pub len : ℕ
  pub md5 : Bytes
  pub path : List Bytes

-- `files` is `none` for a nil slice.
pub record InfoDict : Type 0 where
  pub files : Option (List File)
  pub len : ℕ
  pub md5 : Bytes
  pub name : Bytes
  pub piece_len : ℕ
  pub pieces : Bytes
  pub private : ℕ
  pub hash : Bytes

-- `true` where Parse returns no error.
unfoldable pub parse : InfoDict → Bool
parse info = length info.pieces % piece_size == 0

unfoldable pub sum_lengths : List File → ℕ
sum_lengths [] = 0
sum_lengths (f ∷ fs) = f.len + sum_lengths fs

abbrev pub total_of : Option (List File) → ℕ → ℕ
unfolding sum_lengths
total_of none len = len
total_of (some fs) len = sum_lengths fs

unfoldable pub total_length : InfoDict → ℕ
unfolding total_of
total_length info = total_of info.files info.len

unfoldable pub num_pieces : InfoDict → ℕ
num_pieces info = length info.pieces / piece_size

-- The loop of PiecesHash over the bytes left, on fuel; each round takes twenty of them. A slice
-- beyond the end is a panic, `none`. (The fuel, the number of bytes, is never used up.)
unfoldable pub hashes_from : ℕ → Bytes → Option (List Bytes)
hashes_from zero b = some []
hashes_from (suc f) b =
    let rest = Option.map (◌∷◌ (take piece_size b)) (hashes_from f (drop piece_size b)) in
    if length b == 0 then some [] else if ltb (length b) piece_size then none else rest

unfoldable pub pieces_hash : InfoDict → Option (List Bytes)
unfolding hashes_from
pieces_hash info = hashes_from (length info.pieces) info.pieces

unfoldable pub piece_hash : InfoDict → ℕ → Option Bytes
piece_hash info i =
    if leb (i * piece_size + piece_size) (length info.pieces)
    then some (take piece_size (drop (i * piece_size) info.pieces))
    else none

unfoldable pub files_info : InfoDict → List File
files_info info = elim info.files [
  | none ↦ record { len = info.len; md5 = []; path = [] } ∷ []
  | some fs ↦ if length fs == 0 then record { len = info.len; md5 = []; path = [] } ∷ [] else fs
]

-- The remainder by a piece length of zero is a panic, `none`.
abbrev pub remainder : ℕ → ℕ → Option ℕ
remainder total n = if n == 0 then none else some (total % n)

unfoldable pub piece_length : InfoDict → ℕ → Option ℕ
piece_length info i =
    if i + 1 == num_pieces info
    then remainder (total_length info) info.piece_len
    else some info.piece_len

unfoldable pub piece_offset : InfoDict → ℕ → ℕ
piece_offset info i = info.piece_len * i
