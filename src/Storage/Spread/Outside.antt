-- ===== src/Storage/Spread/Outside.antt =====
-- A write loses no byte outside its range, whether it succeeds or not.
use charo_torrent.Prelude.{
  ℕ, ◌+◌, ◌-◌, ◌<◌, ◌≤◌, ◌≡◌, ◌≢◌, ◌⊎◌, inl, inr, ap, ◌∙◌, false, ◌&&◌, List, [], ◌∷◌, some, ltb,
  leb, length, take, drop, arith, length-take, length-drop, Bool-cases,
}
use charo_torrent.Storage.Spread.{
  FileSystem, AreDistinctFiles, write_at, byte_at, first_write, room_for, skipped, failed, last,
  filled_up, round,
}

-- The position is before the `n` positions from `off` on, or behind them.
abbrev pub IsOutside : ℕ → ℕ → ℕ → Type 0
IsOutside off n pos = (pos < off) ⊎ (off + n ≤ pos)

module _ {D : Type 0} ⦃fs : FileSystem D⦄ where
  -- The byte is there before and after.
  abbrev pub Keeps : D → D → ℕ → ℕ → Type 0
  Keeps d d' j o = (b : ℕ) → fs.byte d j o ≡ some b → fs.byte d' j o ≡ some b

  pub other_file :
      (d : D) (i : ℕ) (bs : List ℕ) (off j o : ℕ)
      → AreDistinctFiles D fs
      → i ≢ j
      → Keeps d (fs.write_file d i bs off).0 j o
  other_file d i bs off j o distinct ne b h =
      fs.byte-kept d i bs off j o b (ground (arith, distinct i j)) h

  -- The write loses nothing of the files before file `i`.
  pub write_at-earlier :
      (flens : List ℕ) (i : ℕ) (d : D) (p : List ℕ) (off j o : ℕ)
      → AreDistinctFiles D fs
      → j < i
      → Keeps d (write_at flens i d p off).disk j o
  unfolding write_at
  write_at-earlier [] i d p off j o distinct h b at = at
  write_at-earlier (flen ∷ flens) i d p off j o distinct h b at =
      let d1 = (first_write flen i d p off).0 in
      let at1 = other_file d i (take (room_for flen p off) p) off j o distinct (omega arith) b at in
      elim (round flen flens i d p off) [
        | skipped l e ↦
            ap (λ r. fs.byte r.disk j o) e
            ∙ write_at-earlier flens (i + 1) d p (off - flen) j o distinct (omega arith) b at
        | failed l e k ↦ ap (λ q. fs.byte q j o) e ∙ at1
        | last l e k ↦ ap (λ r. fs.byte r.disk j o) k ∙ at1
        | filled_up l m e k ↦
            ap (λ r. fs.byte r.disk j o) k
            ∙ write_at-earlier flens (i + 1) d1 (drop (flen - off) p) 0 j o distinct (omega arith) b
                at1
      ]

  pub byte_at-later :
      (flens : List ℕ) (i : ℕ) (d d' : D) (pos b : ℕ)
      → ((j o : ℕ) → i ≤ j → Keeps d d' j o)
      → byte_at flens i d pos ≡ some b
      → byte_at flens i d' pos ≡ some b
  byte_at-later [] i d d' pos b h at = at
  byte_at-later (flen ∷ flens) i d d' pos b h at = elim (Bool-cases (ltb pos flen)) [
    | inl before ↦ rw before (h i pos (omega arith) b (rw before at at))
    | inr past ↦ rw past (
        byte_at-later flens (i + 1) d d' (pos - flen) b (λ j o l. h j o (omega arith))
          (rw past at at))
  ]

  -- In the file of the first write.
  first_outside :
      (flen : ℕ) (i : ℕ) (d : D) (p : List ℕ) (off pos : ℕ)
      → IsOutside off (length p) pos
      → Keeps d (first_write flen i d p off).0 i pos
  first_outside flen i d p off pos out b h =
      let bs = take (room_for flen p off) p in
      let miss : (leb off pos && ltb pos (off + length bs)) ≡ false =
        ground (arith, length-take (room_for flen p off) p) in
      fs.byte-kept d i bs off i pos b (ground (arith, miss)) h

  in_this :
      (flen : ℕ) (flens : List ℕ) (i : ℕ) (d : D) (p : List ℕ) (off pos : ℕ)
      → AreDistinctFiles D fs
      → IsOutside off (length p) pos
      → Keeps d (write_at (flen ∷ flens) i d p off).disk i pos
  in_this flen flens i d p off pos distinct out b at =
      let d1 = (first_write flen i d p off).0 in
      let at1 = first_outside flen i d p off pos out b at in
      elim (round flen flens i d p off) [
        | skipped l e ↦
            ap (λ r. fs.byte r.disk i pos) e
            ∙ write_at-earlier flens (i + 1) d p (off - flen) i pos distinct (omega arith) b at
        | failed l e k ↦ ap (λ q. fs.byte q i pos) e ∙ at1
        | last l e k ↦ ap (λ r. fs.byte r.disk i pos) k ∙ at1
        | filled_up l m e k ↦
            ap (λ r. fs.byte r.disk i pos) k
            ∙ write_at-earlier flens (i + 1) d1 (drop (flen - off) p) 0 i pos distinct (omega arith)
                b at1
      ]

  pub write_at_outside :
      (flens : List ℕ) (i : ℕ) (d : D) (p : List ℕ) (off pos b : ℕ)
      → AreDistinctFiles D fs
      → IsOutside off (length p) pos
      → byte_at flens i d pos ≡ some b
      → byte_at flens i (write_at flens i d p off).disk pos ≡ some b
  unfolding write_at
  write_at_outside [] i d p off pos b distinct out at = at
  write_at_outside (flen ∷ flens) i d p off pos b distinct out at =
      elim (Bool-cases (ltb pos flen)) [
        | inl before ↦ rw before (in_this flen flens i d p off pos distinct out b (rw before at at))
        | inr past ↦
            let at' : byte_at flens (i + 1) d (pos - flen) ≡ some b = rw past at at in
            let d1 = (first_write flen i d p off).0 in
            let at1 : byte_at flens (i + 1) d1 (pos - flen) ≡ some b =
              byte_at-later flens (i + 1) d d1 (pos - flen) b
                (λ j o m.
                  other_file d i (take (room_for flen p off) p) off j o distinct (omega arith))
                at' in
            rw past (elim (round flen flens i d p off) [
              | skipped l e ↦
                  ap (λ r. byte_at flens (i + 1) r.disk (pos - flen)) e
                  ∙ write_at_outside flens (i + 1) d p (off - flen) (pos - flen) b distinct
                      (ground arith) at'
              | failed l e k ↦ ap (λ q. byte_at flens (i + 1) q (pos - flen)) e ∙ at1
              | last l e k ↦ ap (λ r. byte_at flens (i + 1) r.disk (pos - flen)) k ∙ at1
              | filled_up l m e k ↦
                  ap (λ r. byte_at flens (i + 1) r.disk (pos - flen)) k
                  ∙ write_at_outside flens (i + 1) d1 (drop (flen - off) p) 0 (pos - flen) b
                      distinct (inr (ground (arith, length-drop (flen - off) p))) at1
            ])
      ]
