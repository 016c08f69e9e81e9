-- ===== src/Metadata/Completion.antt =====
-- torrent/torrent.go, metadataCompleted: what a torrent does once all blocks of an info dictionary are there.
use charo_torrent.Prelude.{ℕ, Bool, not, List, none, some, if◌then◌else◌, length, get_elem?}
use charo_torrent.Prelude.Bytes.{Bytes, bytes_eq}
use charo_torrent.Swarm.Ban.{Suspect, ban_ip}
use charo_torrent.Metadata.Sizes.{UtMetadatas, find_size, reset_size, set_correct}

-- What follows: after a wrong hash, the connections and the black list as banIP leaves them and the
-- sizes, where the connections are told to ask again; the torrent is closed; or the info is there.
pub data Completed : Type 0 where
  wrong_hash : List Suspect × List ℕ → UtMetadatas → Completed
  bad_info : Completed
  got_info : UtMetadatas → Completed
  broken_off : Completed

-- The first arguments are those of banIP: `exempt` is whether an address is the own one or 127.0.0.1,
-- then come the connections and the black list. `sha1` is the digest, `decodes` whether bencode.Decode has no error, `pick` is rand.Intn, which panics at 0; a panic is
-- `broken_off`.
unfoldable pub metadata_completed :
    (ℕ → Bool)
    → List Suspect × List ℕ
    → (Bytes → Bytes)
    → (Bytes → Bool)
    → (ℕ → ℕ)
    → Bytes
    → ℕ
    → UtMetadatas
    → Completed
unfolding find_size reset_size ban_ip
metadata_completed exempt swarm sha1 decodes pick hash n uts = elim (find_size uts.m n) [
  | none ↦ broken_off
  | some ut ↦
      if not (bytes_eq (sha1 ut.info_bytes) hash)
      then elim (get_elem? ut.contributors (pick (length ut.contributors))) [
        | none ↦ broken_off
        | some ip ↦ elim (reset_size uts n) [
          | none ↦ broken_off
          | some uts' ↦ wrong_hash (ban_ip exempt ip swarm) uts'
        ]
      ]
      else if not (decodes ut.info_bytes)
      then bad_info
      else got_info (set_correct n uts)
]
