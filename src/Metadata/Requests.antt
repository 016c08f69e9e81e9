-- ===== src/Metadata/Requests.antt =====
-- Which blocks of the info dictionary are asked for, and what a new metadata is.
use charo_torrent.Prelude.{
  ℕ, zero, suc, ◌+◌, ◌*◌, ◌/◌, ◌%◌, ◌≤◌, ◌≡◌, inl, inr, sym, ap, ◌∙◌, Bool, true, false, not, ◌&&◌,
  List, [], ◌∷◌, some, ltb, ◌==◌, if◌then◌else◌, length, get_elem?, replicate, All, arith,
  length-replicate, length-take, All-take, ==→eq, Bool-cases,
}
use charo_torrent.Misc.{contains}
use charo_torrent.Pieces.Marking.{All-of_contains}
use charo_torrent.Metadata.{
  UtMetadata, metadata_piece_sz, new_ut_metadata, incomplete_indices, fill_request,
}
use charo_torrent.Metadata.Writes.{IsPartOf}

incomplete_indices-found :
    (i : ℕ) (vs : List Bool) (exclude : List ℕ) (k : ℕ)
    → contains (incomplete_indices i vs exclude) k ≡ true
    → (j : ℕ) × (k ≡ i + j) × (get_elem? vs j ≡ some false) × (contains exclude k ≡ false)
unfolding incomplete_indices contains
incomplete_indices-found i [] exclude k h = absurd (ground arith)
incomplete_indices-found i (v ∷ vs) exclude k h =
    elim (Bool-cases (not v && not (contains exclude i))) [
      | inl open_ ↦ elim (Bool-cases (i == k)) [
        | inl same ↦
            let e = ==→eq i k same in
            (0, omega arith, ground arith, ap (contains exclude) (sym e) ∙ ground arith)
        | inr other ↦ shift (incomplete_indices-found (i + 1) vs exclude k (ground arith))
      ]
      | inr closed ↦ shift (incomplete_indices-found (i + 1) vs exclude k (ground arith))
    ]
  where
    shift :
        ((j : ℕ) × (k ≡ i + 1 + j) × (get_elem? vs j ≡ some false) × (contains exclude k ≡ false))
        → (j : ℕ) × (k ≡ i + j) × (get_elem? (v ∷ vs) j ≡ some false) × (contains exclude k ≡ false)
    shift (j, e, m, x) = (suc j, omega arith, m, x)

-- A block that may be asked for.
abbrev pub IsMissing : UtMetadata → List ℕ → ℕ → Type 0
IsMissing ut exclude i =
    (get_elem? ut.owned_info_blocks i ≡ some false) × (contains exclude i ≡ false)

indices-IsMissing :
    (ut : UtMetadata) (exclude : List ℕ) (k : ℕ)
    → contains (incomplete_indices 0 ut.owned_info_blocks exclude) k ≡ true
    → IsMissing ut exclude k
indices-IsMissing ut exclude k h =
    let (j, e, m, x) = incomplete_indices-found 0 ut.owned_info_blocks exclude k h in
    (ap (get_elem? ut.owned_info_blocks) (omega arith) ∙ m, x)

-- fillRequest asks for at most `n` blocks, each a block that is not owned and not excluded.
-- `shuffle` is any reordering that makes up no index.
pub fill_request-IsMissing :
    (shuffle : List ℕ → List ℕ) (ut : UtMetadata) (n : ℕ) (exclude : List ℕ)
    → ((xs : List ℕ) (i : ℕ) → contains (shuffle xs) i ≡ true → contains xs i ≡ true)
    → (length (fill_request shuffle ut n exclude) ≤ n)
      × All (IsMissing ut exclude) (fill_request shuffle ut n exclude)
unfolding fill_request
fill_request-IsMissing shuffle ut n exclude keeps =
    let is = shuffle (incomplete_indices 0 ut.owned_info_blocks exclude) in
    let missing : All (IsMissing ut exclude) is =
      All-of_contains (IsMissing ut exclude) is
        (λ i h. indices-IsMissing ut exclude i (keeps _ i h)) in
    elim (Bool-cases (ltb n (length is))) [
      | inl more ↦
          rw (fill_request, more)
            (omega (arith, length-take n is), All-take (IsMissing ut exclude) n is missing)
      | inr fits ↦ rw (fill_request, fits) (ground arith, missing)
    ]

-- A new metadata is a part of every info dictionary of its size.
pub new_ut_metadata-IsPartOf : (dict : List ℕ) → IsPartOf dict (new_ut_metadata (length dict))
unfolding new_ut_metadata
new_ut_metadata-IsPartOf dict =
    let n = length dict / metadata_piece_sz in
    let pieces = if not (length dict % metadata_piece_sz == 0) then n + 1 else n in
    record {
      same_length = length-replicate (length dict) 0;
      covered = omega (arith, length-replicate pieces false, enough (length dict));
      bytes = λ pos h own. absurd (none_owned pieces (pos / metadata_piece_sz) own);
    }
  where
    none_owned : (m k : ℕ) → get_elem? (replicate m false) k ≡ some true → ⊥
    none_owned zero k h = ground arith
    none_owned (suc m) zero h = ground arith
    none_owned (suc m) (suc k) h = none_owned m k h

    enough :
        (size : ℕ)
        → size
          ≤ (if not (size % metadata_piece_sz == 0)
              then size / metadata_piece_sz + 1
              else size / metadata_piece_sz)
            * metadata_piece_sz
    enough size = elim (Bool-cases (size % metadata_piece_sz == 0)) [
      | inl whole ↦ rw whole (by_whole (==→eq _ _ whole))
      | inr part ↦ rw part (omega arith)
    ]
      where
        by_whole :
            size % metadata_piece_sz ≡ 0 → size ≤ size / metadata_piece_sz * metadata_piece_sz
        by_whole e = omega arith
