-- ===== src/Storage/Spread/Contents.antt =====
-- What WriteAt leaves in the files: the bytes of the torrent with `p` put at `off`.
use charo_torrent.Prelude.{
  ℕ, ◌+◌, ◌-◌, ◌<◌, ◌≤◌, ◌≡◌, inl, inr, refl, sym, ap, ◌∙◌, true, false, List, [], ◌∷◌, some, ltb,
  length, get_elem?, take, drop, arith, get_elem?-ge, length-drop, ==_refl, Bool-cases,
}
use mathlib.Core.Path.{subst}
use charo_torrent.Storage.Spread.{
  FileSystem, Written, AreDistinctFiles, total, get_elem?-take, get_elem?-drop, write_at, byte_at,
  first_write, room_for, skipped, failed, last, filled_up, round, more,
}
use charo_torrent.Storage.Spread.Outside.{IsOutside, write_at-earlier, write_at_outside}

pub below_length : (xs : List ℕ) (k b : ℕ) → get_elem? xs k ≡ some b → k < length xs
below_length xs k b h = elim (Bool-cases (ltb k (length xs))) [
  | inl inside ↦ ground arith
  | inr past ↦ absurd (ground (arith, get_elem?-ge xs k (ground arith)))
]

module _ {D : Type 0} ⦃fs : FileSystem D⦄ where
  -- The bytes `p` are there from `off` on.
  abbrev pub IsThere : List ℕ → ℕ → D → List ℕ → ℕ → Type 0
  IsThere flens i d p off =
      (k b : ℕ) → get_elem? p k ≡ some b → byte_at flens i d (off + k) ≡ some b

  -- All of `p` was written: it is there, and the bytes outside of it are still there.
  abbrev pub IsSpliced : List ℕ → ℕ → D → List ℕ → ℕ → Written D → Type 0
  IsSpliced flens i d p off r =
      (r.count ≡ length p)
      × IsThere flens i r.disk p off
      × ((pos b : ℕ)
          → IsOutside off (length p) pos
          → byte_at flens i d pos ≡ some b
          → byte_at flens i r.disk pos ≡ some b)

  -- The bytes that the first write has put into its file.
  first_there :
      (flen i : ℕ) (d : D) (p : List ℕ) (off k b : ℕ)
      → AreDistinctFiles D fs
      → (first_write flen i d p off).1 ≡ true
      → off + k < flen
      → get_elem? p k ≡ some b
      → fs.byte (first_write flen i d p off).0 i (off + k) ≡ some b
  first_there flen i d p off k b distinct done inside at =
      let inner : k < room_for flen p off = ground (arith, below_length p k b at) in
      fs.byte-write_file d i (take (room_for flen p off) p) off i k b done
        (distinct i i ∙ ==_refl i) (get_elem?-take (room_for flen p off) p k inner ∙ at)

  abbrev IsPut : List ℕ → ℕ → List ℕ → ℕ → Written D → Type 0
  IsPut flens i p off r = (r.count ≡ length p) × IsThere flens i r.disk p off

  after_filled :
      (flen : ℕ) (flens : List ℕ) (i : ℕ) (d : D) (p : List ℕ) (off : ℕ)
      → AreDistinctFiles D fs
      → off < flen
      → flen < off + length p
      → (first_write flen i d p off).1 ≡ true
      → (let r = write_at flens (i + 1) (first_write flen i d p off).0 (drop (flen - off) p) 0 in
          IsPut flens (i + 1) (drop (flen - off) p) 0 r
          → IsPut (flen ∷ flens) i p off (more (flen - off) r))
  after_filled flen flens i d p off distinct l m done (count, there) =
      let d1 = (first_write flen i d p off).0 in
      (
        omega (arith, count, length-drop (flen - off) p),
        λ k b at. elim (Bool-cases (ltb (off + k) flen)) [
          | inl before ↦ rw before (
              write_at-earlier flens (i + 1) d1 (drop (flen - off) p) 0 i (off + k) distinct
                (omega arith) b (first_there flen i d p off k b distinct done (ground arith) at))
          | inr past ↦
              let to : off + k - flen ≡ 0 + (k - (flen - off)) = ground arith in
              rw past (
                ap (byte_at flens (i + 1) (write_at flens (i + 1) d1 (drop (flen - off) p) 0).disk)
                  to
                ∙ there (k - (flen - off)) b
                    (get_elem?-drop (flen - off) p (k - (flen - off)) k (ground arith) ∙ at))
        ],
      )

  write_at-IsPut :
      (flens : List ℕ) (i : ℕ) (d : D) (p : List ℕ) (off : ℕ)
      → AreDistinctFiles D fs
      → off + length p ≤ total flens
      → (write_at flens i d p off).success ≡ true
      → IsPut flens i p off (write_at flens i d p off)
  unfolding write_at
  write_at-IsPut [] i d p off distinct fits s =
      (omega arith, λ k b at. absurd (omega (arith, below_length p k b at)))
  write_at-IsPut (flen ∷ flens) i d p off distinct fits s =
      let put_by = IsPut (flen ∷ flens) i p off in
      elim (round flen flens i d p off) [
        | skipped l e ↦
            let ih =
              write_at-IsPut flens (i + 1) d p (off - flen) distinct (omega arith)
                (ap (λ q. q.success) (sym e) ∙ s) in
            subst put_by (sym e) (
              ih.0,
              λ k b at.
                  let past : ltb (off + k) flen ≡ false = ground arith in
                  let to : off + k - flen ≡ off - flen + k = omega arith in
                  rw past (
                    ap (byte_at flens (i + 1) (write_at flens (i + 1) d p (off - flen)).disk) to
                    ∙ ih.1 k b at),
            )
        | failed l e k ↦ absurd (ground arith)
        | last l e eq ↦ subst put_by (sym eq) (
          refl,
          λ k b at.
              let inside : off + k < flen = omega (arith, l, below_length p k b at) in
              let before : ltb (off + k) flen ≡ true = ground arith in
              rw before (first_there flen i d p off k b distinct e inside at),
        )
        | filled_up l m e eq ↦
            let d1 = (first_write flen i d p off).0 in
            subst put_by (sym eq) (
              after_filled flen flens i d p off distinct l m e (
                write_at-IsPut flens (i + 1) d1 (drop (flen - off) p) 0 distinct
                  (omega (arith, length-drop (flen - off) p, fits, m, l))
                  (ap (λ q. q.success) (sym eq) ∙ s)))
      ]

  -- For a torrent whose entries name different files, a write that fits into the torrent and meets no error of the file system
  -- writes all of `p`, however many files it is spread over: afterwards `p` is in the torrent's bytes at `off`, and every byte
  -- before or behind it that was there is still there.
  pub write_at-IsSpliced :
      (flens : List ℕ) (i : ℕ) (d : D) (p : List ℕ) (off : ℕ)
      → AreDistinctFiles D fs
      → off + length p ≤ total flens
      → (write_at flens i d p off).success ≡ true
      → IsSpliced flens i d p off (write_at flens i d p off)
  write_at-IsSpliced flens i d p off distinct fits s =
      let put = write_at-IsPut flens i d p off distinct fits s in
      (put.0, put.1, λ pos b. write_at_outside flens i d p off pos b distinct)
