-- ===== src/Metadata/Sizes.antt =====
-- torrent/metadata.go, utMetadatas: one info dictionary for each size that a peer announces; and
-- what a connection does with the messages about it (torrent/conn.go, onExtended).
pub mod Crashes
use charo_torrent.Prelude.{
  ℕ, zero, suc, ◌+◌, ◌-◌, ◌*◌, ◌/◌, ◌%◌, ◌^◌, ◌<◌, ◌≤◌, ◌≡◌, ◌≢◌, ◌↔◌, ◌⊎◌, inl, inr, refl, sym, ap,
  ◌∙◌, Bool, true, false, not, ◌&&◌, ◌||◌, List, [], ◌∷◌, ◌++◌, map, Option, none, some, ltb, leb,
  ◌==◌, if◌then◌else◌, length, get_elem?, set, take, drop, replicate, All, Outcome, ok, err, panic,
  ◌>>=◌, arith, length-append, length-set, length-replicate, length-take, length-drop, take_all,
  take-append, drop-append, get_elem?-lt, get_elem?-ge, get_elem?-set, All-take, All-append,
  All-imp, length-map, get_elem?-set_self, get_elem?-set_ne, ltb→lt, leb→le, ==→eq, ==_refl,
  Bool-cases, Option-cases,
}
use charo_torrent.Misc.{contains}
use charo_torrent.Metadata.{
  UtMetadata, MetadataError, new_ut_metadata, reset, fill_request, write_block, read_block,
  metadata_piece_length,
}

-- `m` is the map from sizes; the size that was verified is 0 as long as there is none.
pub record UtMetadatas : Type 0 where
  pub m : List (ℕ × UtMetadata)
  pub correct_size : ℕ

unfoldable pub find_size : List (ℕ × UtMetadata) → ℕ → Option UtMetadata
find_size [] n = none
find_size ((k, ut) ∷ m) n = let rest = find_size m n in if k == n then some ut else rest

unfoldable pub put_size : List (ℕ × UtMetadata) → ℕ → UtMetadata → List (ℕ × UtMetadata)
put_size [] n ut = (n, ut) ∷ []
put_size ((k, old) ∷ m) n ut =
    let rest = put_size m n ut in if k == n then (n, ut) ∷ m else (k, old) ∷ rest

-- The methods below that find no entry are a panic, `none` or `panic`.
unfoldable pub reset_size : UtMetadatas → ℕ → Option UtMetadatas
unfolding find_size put_size
reset_size uts n = elim (find_size uts.m n) [
  | none ↦ none
  | some ut ↦ some (record uts { m = put_size uts.m n (reset ut) })
]

unfoldable pub correct_one : UtMetadatas → Option UtMetadata
unfolding find_size
correct_one uts = if uts.correct_size == 0 then none else find_size uts.m uts.correct_size

abbrev pub set_correct : ℕ → UtMetadatas → UtMetadatas
set_correct n uts = record uts { correct_size = n }

-- add, for a size that is not negative, which tells whether it is taken. Ten million bytes are the most.
unfoldable pub add_size : ℕ → UtMetadatas → UtMetadatas × Bool
unfolding find_size put_size
add_size n uts = if ltb 10000000 n then (uts, false) else elim (find_size uts.m n) [
  | some ut ↦ (uts, true)
  | none ↦ (record uts { m = (n, new_ut_metadata n) ∷ uts.m }, true)
]

abbrev stored_size :
    UtMetadatas
    → ℕ
    → Outcome MetadataError (UtMetadata × Bool)
    → Outcome MetadataError (UtMetadatas × Bool)
unfolding put_size
stored_size uts n (ok (ut, complete)) = ok (record uts { m = put_size uts.m n ut }, complete)
stored_size uts n (err e) = err e
stored_size uts n panic = panic

unfoldable pub write_size :
    UtMetadatas → List ℕ → ℕ → ℕ → ℕ → Outcome MetadataError (UtMetadatas × Bool)
unfolding find_size stored_size
write_size uts b i n ip = elim (find_size uts.m n) [
  | none ↦ panic
  | some ut ↦ stored_size uts n (write_block ut b i n ip)
]

unfoldable pub read_size : UtMetadatas → ℕ → Outcome MetadataError (List ℕ)
read_size uts i = elim uts.m [
  | [] ↦ panic
  | (n, ut) ∷ rest ↦ if length rest == 0 then read_block ut i else panic
]

unfoldable pub fill_size : (List ℕ → List ℕ) → UtMetadatas → ℕ → ℕ → List ℕ → Option (List ℕ)
unfolding find_size
fill_size shuffle uts n k exclude = elim (find_size uts.m n) [
  | none ↦ none
  | some ut ↦ some (fill_request shuffle ut k exclude)
]

-- A connection's part in it: whether the peer sent its extension handshake with ut_metadata, the
-- size it announced, the blocks asked of it, the blocks it refused, the answers given to it.
pub record MetadataConn : Type 0 where
  pub supports_metadata : Bool
  pub handshaken : Bool
  pub have_info : Bool
  pub metadata_size : ℕ
  pub pending : List ℕ
  pub rejected : List ℕ
  pub num_resp_sent : ℕ
  pub ban : Bool

-- What goes to the peer, or to the torrent (`completed_size`).
pub data MetadataMsg : Type 0 where
  ask_block : ℕ → MetadataMsg
  reject_block : ℕ → MetadataMsg
  data_block : ℕ → ℕ → List ℕ → MetadataMsg
  completed_size : ℕ → MetadataMsg

pub data MetadataEnd : Type 0 where
  not_shaken : MetadataEnd
  other_size : MetadataEnd
  of_metadata : MetadataError → MetadataEnd

abbrev pub MetadataState : Type 0
MetadataState = MetadataConn × UtMetadatas

abbrev pub Handled : Type 0
Handled = Outcome MetadataEnd (MetadataState × List MetadataMsg)

unfoldable pub ask_loop : List ℕ → MetadataConn → MetadataConn × List MetadataMsg
unfolding contains
ask_loop [] c = (c, [])
ask_loop (p ∷ ps) c =
    let new = not (contains c.pending p) in
    let rest = ask_loop ps (if new then record c { pending = p ∷ c.pending } else c) in
    (rest.0, if new then ask_block p ∷ rest.1 else rest.1)

unfoldable pub request_metadata : (List ℕ → List ℕ) → MetadataState → Handled
unfolding correct_one fill_size ask_loop
request_metadata shuffle (c, uts) = elim (correct_one uts) [
  | some ut ↦ ok ((c, uts), [])
  | none ↦
      if c.have_info
        || (c.metadata_size == 0
            || (not c.handshaken || (not c.supports_metadata || leb 5 (length c.pending))))
      then ok ((c, uts), [])
      else elim (fill_size shuffle uts c.metadata_size (5 - length c.pending) c.rejected) [
        | none ↦ panic
        | some blocks ↦ let r = ask_loop blocks c in ok ((r.0, uts), r.1)
      ]
]

-- onExtended, at an extension handshake: whether it names ut_metadata, and its metadata_size. A
-- size that is refused gives io.EOF, which onPeerMsg drops like every error of onExtended.
unfoldable pub on_ext_handshake : (List ℕ → List ℕ) → Bool → Option ℕ → MetadataState → Handled
unfolding request_metadata add_size
on_ext_handshake shuffle named size (c, uts) =
    let c1 = record c { handshaken = true; supports_metadata = named } in
    elim size [
      | none ↦ ok ((c1, uts), [])
      | some n ↦
          if not named
          then ok ((c1, uts), [])
          else let c2 = record c1 { metadata_size = n } in
            let r = add_size n uts in
            if r.1
            then request_metadata shuffle (c2, r.0)
            else ok ((record c2 { ban = true }, r.0), [])
    ]

unfoldable pub without : List ℕ → ℕ → List ℕ
without [] p = []
without (q ∷ qs) p = let rest = without qs p in if q == p then rest else q ∷ rest

-- onExtended, at a block of the info dictionary.
unfoldable pub on_metadata_data : (List ℕ → List ℕ) → ℕ → ℕ → List ℕ → ℕ → MetadataState → Handled
unfolding request_metadata write_size without
on_metadata_data shuffle i total_sz b ip (c, uts) =
    if not c.handshaken
    then err not_shaken
    else if not (total_sz == c.metadata_size)
    then err other_size
    else elim (write_size uts b i total_sz ip) [
      | panic ↦ panic
      | err e ↦ err (of_metadata e)
      | ok (uts', completed) ↦
          let c1 = record c { pending = without c.pending i } in
          if completed
          then ok ((c1, uts'), completed_size c.metadata_size ∷ [])
          else request_metadata shuffle (c1, uts')
    ]

-- onExtended, at a refusal.
unfoldable pub on_metadata_reject : ℕ → MetadataState → Handled
unfolding without
on_metadata_reject i (c, uts) =
    if not c.handshaken
    then err not_shaken
    else ok
        ((record c { rejected = c.rejected ++ (i ∷ []); pending = without c.pending i }, uts), [])

-- onExtended, at a peer's request for a block, whose index is not negative here: a negative one from the wire
-- is not modelled. The error of readBlock is not looked at; a missing
-- utMetadata is a panic where the connection has the info.
unfoldable pub on_metadata_request : ℕ → MetadataState → Handled
unfolding correct_one read_size
on_metadata_request i (c, uts) =
    if not c.handshaken
    then err not_shaken
    else if not c.have_info
    then ok ((c, uts), reject_block i ∷ [])
    else elim (correct_one uts) [
      | none ↦ panic
      | some ut ↦
          let served = record c { num_resp_sent = c.num_resp_sent + 1 } in
          if ltb (3 * ut.num_pieces) c.num_resp_sent || leb ut.num_pieces i
          then ok ((c, uts), reject_block i ∷ [])
          else elim (read_size uts i) [
            | panic ↦ panic
            | err e ↦ ok (
              (served, uts),
              data_block i (length ut.info_bytes) (replicate (metadata_piece_length ut i) 0) ∷ [],
            )
            | ok b ↦ ok ((served, uts), data_block i (length ut.info_bytes) b ∷ [])
          ]
    ]
