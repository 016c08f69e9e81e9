-- ===== src/Storage/Files/Opening.antt =====
-- When OpenFileStorage reports that the torrent can be seeded.
use charo_torrent.Prelude.{
  ℕ, zero, suc, ◌+◌, ◌<◌, ◌≤◌, ◌≡◌, ◌↔◌, ◌⊎◌, inl, inr, refl, sym, ap, ◌∙◌, Bool, true, false, List,
  [], ◌∷◌, Option, none, some, ltb, ◌==◌, if◌then◌else◌, length, get_elem?, arith, length-set,
  get_elem?-ge, get_elem?-set, ==_refl, Bool-cases, Option-cases,
}
use mathlib.Core.Path.{subst}
use charo_torrent.MetaInfo.{InfoDict, piece_length, num_pieces}
use charo_torrent.Storage.Spread.{FileSystem}
use charo_torrent.Storage.ReadAt.{FileReader}
use charo_torrent.Storage.Blocks.{DirtyPiece}
use charo_torrent.Storage.Files.{
  Hashing, FileStorage, file_lens, hash_piece_bytes, data_verified, data_complete, new_pieces,
  open_file_storage,
}
use charo_torrent.Storage.Files.Verified.{Hashed, hash_piece_bytes-Hashed}

-- Every file is there, with at least the length that the info dictionary gives.
abbrev pub HaveSizes : (ℕ → Option ℕ) → List ℕ → Type 0
HaveSizes sizes flens =
    (i flen : ℕ)
    → get_elem? flens i ≡ some flen
    → (size : ℕ) × (sizes i ≡ some size) × (flen ≤ size)

-- The same from file `i` on.
abbrev HaveSizesFrom : (ℕ → Option ℕ) → List ℕ → ℕ → Type 0
HaveSizesFrom sizes flens i =
    (j flen : ℕ)
    → get_elem? flens j ≡ some flen
    → (size : ℕ) × (sizes (i + j) ≡ some size) × (flen ≤ size)

one_more :
    (sizes : ℕ → Option ℕ) (flen size : ℕ) (flens : List ℕ) (i : ℕ)
    → sizes i ≡ some size
    → flen ≤ size
    → HaveSizesFrom sizes flens (i + 1)
    → HaveSizesFrom sizes (flen ∷ flens) i
one_more sizes flen size flens i at large rest zero l e =
    (size, ap sizes (omega arith) ∙ at, ground (arith, e))
one_more sizes flen size flens i at large rest (suc j) l e =
    let (s, there, fits) = rest j l e in (s, ap sizes (omega arith) ∙ there, fits)

data_complete-HaveSizesFrom :
    (sizes : ℕ → Option ℕ) (flens : List ℕ) (i : ℕ)
    → (data_complete sizes flens i ≡ true) ↔ HaveSizesFrom sizes flens i
unfolding data_complete
data_complete-HaveSizesFrom sizes [] i = (λ h j l e. absurd (cc), λ h. refl)
data_complete-HaveSizesFrom sizes (flen ∷ flens) i =
    let ih = data_complete-HaveSizesFrom sizes flens (i + 1) in
    elim (Option-cases (sizes i)) [
      | inl gone ↦ (
        λ h. let bad : false ≡ true = rw (data_complete, gone) at h in absurd (cc),
        λ h.
            let (s, there, fits) = h 0 flen refl in
            let bad : none ≡ some s = sym gone ∙ ap sizes (omega arith) ∙ there in absurd (cc),
      )
      | inr (size, at) ↦ elim (Bool-cases (ltb size flen)) [
        | inl short ↦ (
          λ h. let bad : false ≡ true = rw (data_complete, at, short) at h in absurd (cc),
          λ h.
              let (s, there, fits) = h 0 flen refl in
              let same : some size ≡ some s = sym at ∙ ap sizes (omega arith) ∙ there in
              absurd (ground arith),
        )
        | inr large ↦ (
          λ h.
              one_more sizes flen size flens i at (ground arith)
                (ih.0 (rw (data_complete, at, large) at h)),
          λ h.
              let rest : data_complete sizes flens (i + 1) ≡ true = ih.1 λ j l e.
                let (s, there, fits) = h (suc j) l e in (s, ap sizes (omega arith) ∙ there, fits) in
              rw (data_complete, at, large) rest,
        )
      ]
    ]

data_complete_iff :
    (sizes : ℕ → Option ℕ) (flens : List ℕ)
    → (data_complete sizes flens 0 ≡ true) ↔ HaveSizes sizes flens
data_complete_iff sizes flens =
    let from_first = data_complete-HaveSizesFrom sizes flens 0 in
    (
      λ h i flen e.
          let (s, there, fits) = from_first.0 h i flen e in
          (s, ap sizes (omega arith) ∙ there, fits),
      λ h. from_first.1 λ i flen e.
          let (s, there, fits) = h i flen e in (s, ap sizes (omega arith) ∙ there, fits),
    )

module _ {D : Type 0} ⦃fs : FileSystem D⦄ ⦃reader : FileReader D⦄ where
  -- The pieces before `i` stay as they are; the `n` from there on are verified exactly if all of
  -- them are right.
  abbrev Checked : FileStorage D → ℕ → ℕ → FileStorage D → Bool → Type 0
  Checked s n i s' seed =
      ((j : ℕ) → j < i → get_elem? s'.pieces j ≡ get_elem? s.pieces j)
      × (seed ≡ true
          → (j : ℕ) (p : DirtyPiece) → i ≤ j
          → j < i + n
          → get_elem? s'.pieces j ≡ some p
          → p.verified ≡ true)
      × (seed ≡ false
          → (j : ℕ) × (p : DirtyPiece) × (get_elem? s'.pieces j ≡ some p) × (p.verified ≡ false))

  marked_position :
      (h : Hashing) (s s1 : FileStorage D) (i n : ℕ) (c : Bool)
      → Hashed h s i n s1 c
      → (p' : DirtyPiece) × (p'.verified ≡ c)
        × ((j : ℕ) → get_elem? s1.pieces j ≡ (if i == j then some p' else get_elem? s.pieces j))
  marked_position h s s1 i n c (p, p', there, m, eq, v) =
      (p', v, λ j. ap (λ r. get_elem? r.pieces j) eq ∙ get_elem?-set s.pieces i j p' p there)

  data_verified-Checked :
      (h : Hashing) (n i : ℕ) (s s' : FileStorage D) (seed : Bool)
      → data_verified h s n i ≡ some (s', seed)
      → Checked s n i s' seed
  unfolding data_verified
  data_verified-Checked h zero i s s' seed e =
      let same : s ≡ s' = ground arith in
      let won : seed ≡ true = ground arith in
      (
        λ j l. ap (λ r. get_elem? r.pieces j) (sym same),
        λ t j p l m at. absurd (omega arith),
        λ f. absurd (cc),
      )
  data_verified-Checked h (suc n) i s s' seed e = elim (Option-cases (piece_length s.mi i)) [
    | inl gone ↦ absurd (ground arith)
    | inr (len, l) ↦ elim (Option-cases (hash_piece_bytes h s i len)) [
      | inl gone ↦ absurd (ground arith)
      | inr ((s1, c), m) ↦
          let (p', v, at1) =
            marked_position h s s1 i len c (hash_piece_bytes-Hashed h s s1 i len c m) in
          elim (Bool-cases c) [
            | inl right ↦
                let ih = data_verified-Checked h n (i + 1) s1 s' seed (ground arith) in
                (
                  λ j k. ground (arith, ih.0 j (omega arith), at1 j),
                  λ t j p k b at. elim (Bool-cases (i == j)) [
                    | inl here ↦ ground (arith, ih.0 j (ground arith), at1 j)
                    | inr later ↦ ih.1 t j p (ground arith) (omega arith) at
                  ],
                  ih.2,
                )
            | inr wrong ↦
                let stays : s1 ≡ s' = ground arith in
                let lost : seed ≡ false = ground arith in
                subst (λ r. Checked s (suc n) i r seed) stays
                  (
                    λ j k. ground (arith, at1 j),
                    λ t. absurd (cc),
                    λ f. (i, p', ground (arith, at1 i, ==_refl i), v ∙ wrong),
                  )
          ]
    ]
  ]

  length-data_verified :
      (h : Hashing) (n i : ℕ) (s s' : FileStorage D) (seed : Bool)
      → data_verified h s n i ≡ some (s', seed)
      → length s'.pieces ≡ length s.pieces
  unfolding data_verified
  length-data_verified h zero i s s' seed e =
      let same : s' ≡ s = ground arith in ap (λ r. length r.pieces) same
  length-data_verified h (suc n) i s s' seed e = elim (Option-cases (piece_length s.mi i)) [
    | inl gone ↦ absurd (ground arith)
    | inr (len, l) ↦ elim (Option-cases (hash_piece_bytes h s i len)) [
      | inl gone ↦ absurd (ground arith)
      | inr ((s1, c), m) ↦
          let (p, p', there, x, eq, v) = hash_piece_bytes-Hashed h s s1 i len c m in
          let same : length s1.pieces ≡ length s.pieces =
            ap (λ r. length r.pieces) eq ∙ length-set s.pieces i p' in
          elim (Bool-cases c) [
            | inl right ↦ length-data_verified h n (i + 1) s1 s' seed (ground arith) ∙ same
            | inr wrong ↦
                let stays : s' ≡ s1 = ground arith in ap (λ r. length r.pieces) stays ∙ same
          ]
    ]
  ]

  -- Where OpenFileStorage returns, it reports that the torrent can be seeded exactly when every file is there with at least the
  -- length that the info dictionary gives, and every piece is verified.
  pub open_file_storage_cases :
      (h : Hashing) (sizes : ℕ → Option ℕ) (mi : InfoDict) (d : D) (blocks : List ℕ)
      (s : FileStorage D) (seed : Bool)
      → open_file_storage h sizes mi d blocks ≡ some (s, seed)
      → ((seed ≡ true)
          × HaveSizes sizes (file_lens mi)
          × ((i : ℕ) (p : DirtyPiece) → get_elem? s.pieces i ≡ some p → p.verified ≡ true))
        ⊎ ((seed ≡ false)
            × ((¬ HaveSizes sizes (file_lens mi))
                ⊎ ((i : ℕ) × (p : DirtyPiece) × (get_elem? s.pieces i ≡ some p)
                    × (p.verified ≡ false))))
  unfolding open_file_storage
  open_file_storage_cases h sizes mi d blocks s seed e =
      elim (Option-cases (new_pieces (num_pieces mi) blocks)) [
        | inl gone ↦ absurd (ground arith)
        | inr (ps, fresh) ↦
            let s0 : FileStorage D = record { disk = d; mi = mi; pieces = ps } in
            elim (Bool-cases (data_complete sizes (file_lens mi) 0)) [
              | inr short ↦ inr (
                ground arith,
                inl (λ all.
                    let full = (data_complete_iff sizes (file_lens mi)).1 all in absurd (cc)),
              )
              | inl full ↦
                  let run : data_verified h s0 (length ps) 0 ≡ some (s, seed) = ground arith in
                  let c = data_verified-Checked h (length ps) 0 s0 s seed run in
                  let l = length-data_verified h (length ps) 0 s0 s seed run in
                  elim (Bool-cases seed) [
                    | inl won ↦ inl (
                      won,
                      (data_complete_iff sizes (file_lens mi)).0 full,
                      λ i p at. c.1 won i p (omega arith) (below s.pieces i p at l) at,
                    )
                    | inr lost ↦ inr (lost, inr (c.2 lost))
                  ]
            ]
      ]
    where
      below :
          (xs : List DirtyPiece) (i : ℕ) (p : DirtyPiece) {n : ℕ}
          → get_elem? xs i ≡ some p
          → length xs ≡ n
          → i < 0 + n
      below xs i p at l = elim (Bool-cases (ltb i (length xs))) [
        | inl inside ↦ ground arith
        | inr past ↦ absurd (ground (arith, get_elem?-ge xs i (ground arith)))
      ]
