-- ===== src/Storage/Spread.antt =====
-- torrent/storage/filestorage.go, WriteAt: the bytes of a torrent are the files one after another.
pub mod Contents
pub mod Outside
use charo_torrent.Prelude.{
  ℕ, zero, suc, ◌+◌, ◌-◌, ◌*◌, ◌/◌, ◌%◌, ◌^◌, ◌<◌, ◌≤◌, ◌≡◌, ◌≢◌, ◌↔◌, ◌⊎◌, inl, inr, refl, sym, ap,
  ◌∙◌, Bool, true, false, not, ◌&&◌, ◌||◌, List, [], ◌∷◌, ◌++◌, map, Option, none, some, ltb, leb,
  ◌==◌, if◌then◌else◌, length, get_elem?, set, take, drop, replicate, All, Outcome, ok, err, panic,
  ◌>>=◌, arith, length-append, length-set, length-replicate, length-take, length-drop, take_all,
  take-append, drop-append, get_elem?-lt, get_elem?-ge, get_elem?-set, All-take, All-append,
  All-imp, length-map, get_elem?-set_self, get_elem?-set_ne, ltb→lt, leb→le, ==→eq, ==_refl,
  Bool-cases, Option-cases,
}

-- The operating system's files, which are not part of the repository. A file is given by its index
-- in FilesInfo, and `byte d i o` is the byte at offset `o` of file `i`. `same_file i j` is whether
-- fileInfoName gives names of one and the same file for the entries `i` and `j`: nothing in an info
-- dictionary forbids that. `write_file` stands for MkdirAll, OpenFile, File.WriteAt and Close, and
-- gives the disk afterwards and whether there was no error; an error may come after a part of the
-- bytes was written. The laws are what File.WriteAt documents: without an error the bytes are
-- there, and in either case no other byte of a file is changed or lost.
pub record FileSystem (D : Type 0) : Type 0 where
  pub byte : D → ℕ → ℕ → Option ℕ
  pub same_file : ℕ → ℕ → Bool
  pub write_file : D → ℕ → List ℕ → ℕ → D × Bool
  pub byte-write_file :
      (d : D) (i : ℕ) (bs : List ℕ) (off j k b : ℕ)
      → (write_file d i bs off).1 ≡ true
      → same_file i j ≡ true
      → get_elem? bs k ≡ some b
      → byte (write_file d i bs off).0 j (off + k) ≡ some b
  pub byte-kept :
      (d : D) (i : ℕ) (bs : List ℕ) (off j o b : ℕ)
      → (same_file i j && (leb off o && ltb o (off + length bs))) ≡ false
      → byte d j o ≡ some b
      → byte (write_file d i bs off).0 j o ≡ some b

-- The entries of the info dictionary are different files.
abbrev pub AreDistinctFiles : (D : Type 0) → FileSystem D → Type 0
AreDistinctFiles D fs = (i j : ℕ) → fs.same_file i j ≡ (i == j)

-- The disk after the call, how many bytes were written, and whether there was no error.
pub record Written (D : Type 0) : Type 0 where
  pub disk : D
  pub count : ℕ
  pub success : Bool

abbrev pub total : List ℕ → ℕ
total [] = 0
total (flen ∷ flens) = flen + total flens

-- How much of `p` goes into a file of length `flen` from `off` on.
abbrev room_for : ℕ → List ℕ → ℕ → ℕ
room_for flen p off = if ltb (flen - off) (length p) then flen - off else length p

pub get_elem?-take :
    (n : ℕ) (xs : List ℕ) (i : ℕ) → i < n → get_elem? (take n xs) i ≡ get_elem? xs i
get_elem?-take zero xs i h = absurd (omega arith)
get_elem?-take (suc n) [] i h = refl
get_elem?-take (suc n) (x ∷ xs) zero h = refl
get_elem?-take (suc n) (x ∷ xs) (suc i) h = get_elem?-take n xs i (omega arith)

pub get_elem?-drop :
    (n : ℕ) (xs : List ℕ) (i k : ℕ) → n + i ≡ k → get_elem? (drop n xs) i ≡ get_elem? xs k
get_elem?-drop zero xs i k h = ap (get_elem? xs) (omega arith)
get_elem?-drop (suc n) [] i k h = refl
get_elem?-drop (suc n) (x ∷ xs) i zero h = absurd (omega arith)
get_elem?-drop (suc n) (x ∷ xs) i (suc k) h = get_elem?-drop n xs i k (omega arith)

module _ {D : Type 0} ⦃fs : FileSystem D⦄ where
  abbrev more : ℕ → Written D → Written D
  more n r = record r { count = n + r.count }

  -- The loop of WriteAt from file `i` on, where `flens` are the lengths of the files that are left.
  unfoldable pub write_at : List ℕ → ℕ → D → List ℕ → ℕ → Written D
  write_at [] i d p off = record { disk = d; count = 0; success = true }
  write_at (flen ∷ flens) i d p off =
      let skip = write_at flens (i + 1) d p (off - flen) in
      let n1 = room_for flen p off in
      let w = fs.write_file d i (take n1 p) off in
      let rest = write_at flens (i + 1) w.0 (drop n1 p) 0 in
      if leb flen off
      then skip
      else if not w.1
      then record { disk = w.0; count = 0; success = false }
      else if length (drop n1 p) == 0
      then record { disk = w.0; count = n1; success = true }
      else more n1 rest

  -- The byte at `pos` of the torrent's data.
  abbrev pub byte_at : List ℕ → ℕ → D → ℕ → Option ℕ
  byte_at [] i d pos = none
  byte_at (flen ∷ flens) i d pos =
      let rest = byte_at flens (i + 1) d (pos - flen) in
      if ltb pos flen then fs.byte d i pos else rest

  -- The disk after the first of the writes, of the bytes of `p` that fit into the file.
  abbrev pub first_write : ℕ → ℕ → D → List ℕ → ℕ → D × Bool
  first_write flen i d p off = fs.write_file d i (take (room_for flen p off) p) off

  -- One round of the loop: the file is skipped, fails, takes all of the bytes or is filled up.
  pub data Round (flen : ℕ) (flens : List ℕ) (i : ℕ) (d : D) (p : List ℕ) (off : ℕ) (r : Written D)
      : Type 0 where
    skipped :
        flen ≤ off → r ≡ write_at flens (i + 1) d p (off - flen) → Round flen flens i d p off r
    failed :
        off < flen
        → r.disk ≡ (first_write flen i d p off).0
        → r.success ≡ false
        → Round flen flens i d p off r
    last :
        off + length p ≤ flen
        → (first_write flen i d p off).1 ≡ true
        → r ≡ record { disk = (first_write flen i d p off).0; count = length p; success = true }
        → Round flen flens i d p off r
    filled_up :
        off < flen
        → flen < off + length p
        → (first_write flen i d p off).1 ≡ true
        → r
          ≡ more
              (flen - off)
              (write_at flens (i + 1) (first_write flen i d p off).0 (drop (flen - off) p) 0)
        → Round flen flens i d p off r

  pub round :
      (flen : ℕ) (flens : List ℕ) (i : ℕ) (d : D) (p : List ℕ) (off : ℕ)
      → Round flen flens i d p off (write_at (flen ∷ flens) i d p off)
  unfolding write_at
  round flen flens i d p off = elim (Bool-cases (leb flen off)) [
    | inl skip ↦ skipped (ground arith) (rw (write_at, skip) refl)
    | inr here ↦ elim (Bool-cases (first_write flen i d p off).1) [
      | inr e ↦ failed (ground arith) (rw (write_at, here, e) refl) (rw (write_at, here, e) refl)
      | inl e ↦ elim (Bool-cases (ltb (flen - off) (length p))) [
        | inl big ↦
            let n = room_for flen p off in
            let room : n ≡ flen - off = ground arith in
            let left : (length (drop n p) == 0) ≡ false = ground (arith, length-drop n p) in
            let rest = write_at flens (i + 1) (first_write flen i d p off).0 in
            filled_up (ground arith) (ground arith) e
              (rw (write_at, here, e, left) refl ∙ ap (λ m. more m (rest (drop m p) 0)) room)
        | inr small ↦
            let n = room_for flen p off in
            let room : n ≡ length p = ground arith in
            let none_left : (length (drop n p) == 0) ≡ true = ground (arith, length-drop n p) in
            let d1 = (first_write flen i d p off).0 in
            let all_written : ℕ → Written D =
              λ m. record { disk = d1; count = m; success = true } in
            last (ground arith) e (rw (write_at, here, e, none_left) refl ∙ ap all_written room)
      ]
    ]
  ]
