-- ===== src/Storage/ReadAt/Bytes.antt =====
-- What ReadAt puts into the buffer: the bytes of the torrent from the offset on.
use charo_torrent.Prelude.{
  ℕ, zero, suc, ◌+◌, ◌-◌, ◌<◌, ◌≤◌, ◌≡◌, ◌⊎◌, inl, inr, refl, ap, ◌∙◌, not, ◌&&◌, List, [], ◌∷◌,
  ◌++◌, Option, none, some, ltb, ◌==◌, length, get_elem?, arith, length-append, ==→eq, Bool-cases,
}
use charo_torrent.Storage.Spread.{FileSystem, total, byte_at}
use charo_torrent.Storage.ReadAt.{
  Opened, opened, missing, refused, FileError, fine, at_end, broken, FileRead, FileReader,
  ReadError, no_error, eof, unexpected_eof, failed, Read, Progress, lies, limit, read_loop,
  read_opened, read_file_at, read_in_file,
}

pub get_elem?-append_lt :
    (xs ys : List ℕ) (k : ℕ) → k < length xs → get_elem? (xs ++ ys) k ≡ get_elem? xs k
get_elem?-append_lt [] ys k h = absurd (omega arith)
get_elem?-append_lt (x ∷ xs) ys zero h = refl
get_elem?-append_lt (x ∷ xs) ys (suc k) h = get_elem?-append_lt xs ys k (omega arith)

pub get_elem?-append_ge :
    (xs ys : List ℕ) (k : ℕ) → length xs ≤ k → get_elem? (xs ++ ys) k ≡ get_elem? ys (k - length xs)
get_elem?-append_ge [] ys k h = ap (get_elem? ys) (omega arith)
get_elem?-append_ge (x ∷ xs) ys zero h = absurd (omega arith)
get_elem?-append_ge (x ∷ xs) ys (suc k) h =
    get_elem?-append_ge xs ys k (omega arith) ∙ ap (get_elem? ys) (omega arith)

-- The list holds what `at` gives from position `off` on.
abbrev pub AreFrom : (ℕ → Option ℕ) → ℕ → List ℕ → Type 0
AreFrom at off bs = (k : ℕ) → k < length bs → get_elem? bs k ≡ at (off + k)

pub AreFrom-append :
    (at : ℕ → Option ℕ) (off : ℕ) (xs ys : List ℕ)
    → AreFrom at off xs
    → AreFrom at (off + length xs) ys
    → AreFrom at off (xs ++ ys)
AreFrom-append at off xs ys hx hy k h = elim (Bool-cases (ltb k (length xs))) [
  | inl first ↦ get_elem?-append_lt xs ys k (ground arith) ∙ hx k (ground arith)
  | inr second ↦
      let l : length xs ≤ k = ground arith in
      get_elem?-append_ge xs ys k l
      ∙ hy (k - length xs) (omega (arith, length-append xs ys, h))
      ∙ ap at (omega (arith, l))
]

module _ {D : Type 0} ⦃fs : FileSystem D⦄ where
  -- What an error says when no byte was read at `off`.
  abbrev IsBlocked : FileError → D → ℕ → ℕ → Type 0
  IsBlocked fine d i off = ⊥
  IsBlocked at_end d i off = fs.byte d i off ≡ none
  IsBlocked broken d i off = Unit {0}

  abbrev IsFileRead : D → ℕ → ℕ → ℕ → FileRead → Type 0
  IsFileRead d i len off r =
      (length r.bytes ≤ len)
      × AreFrom (fs.byte d i) off r.bytes
      × (0 < len → length r.bytes ≡ 0 → IsBlocked r.error d i off)

  -- Why the loop over a file ends, with `left` bytes to read at the offset `at`.
  abbrev pub EndsFile : Option ReadError → D → ℕ → ℕ → ℕ → ℕ → Type 0
  EndsFile none d i flen left at = (0 < left) × (flen ≤ at)
  EndsFile (some no_error) d i flen left at = left ≡ 0
  EndsFile (some eof) d i flen left at = ⊥
  EndsFile (some unexpected_eof) d i flen left at =
      (0 < left) × (at < flen) × (fs.byte d i at ≡ none)
  EndsFile (some failed) d i flen left at = 0 < left

  abbrev pub IsProgress : D → ℕ → ℕ → ℕ → ℕ → Progress → Type 0
  IsProgress d i flen len off s =
      (s.left + length s.bytes ≡ len)
      × (s.at ≡ off + length s.bytes)
      × ((length s.bytes ≡ 0) ⊎ (s.at ≤ flen))
      × AreFrom (fs.byte d i) off s.bytes
      × EndsFile s.stopped d i flen s.left s.at

  -- Why ReadAt ends: the buffer is full, the torrent has no more bytes, or a byte of the
  -- torrent is not in its file.
  abbrev pub Ends : ReadError → List ℕ → ℕ → D → ℕ → ℕ → Type 0
  Ends no_error flens i d left at = left ≡ 0
  Ends eof flens i d left at = (0 < left) × (total flens ≤ at)
  Ends unexpected_eof flens i d left at =
      (0 < left) × (at < total flens) × (byte_at flens i d at ≡ none)
  Ends failed flens i d left at = 0 < left

  abbrev pub IsRead : List ℕ → ℕ → D → ℕ → ℕ → Read → Type 0
  IsRead flens i d len off r =
      (length r.bytes ≤ len)
      × AreFrom (byte_at flens i d) off r.bytes
      × Ends r.error flens i d (len - length r.bytes) (off + length r.bytes)

limit_bounds :
    (flen len off : ℕ)
    → off < flen
    → (limit flen len off ≤ len)
      × (off + limit flen len off ≤ flen)
      × (0 < len → 0 < limit flen len off)
unfolding limit
limit_bounds flen len off h = (ground arith, ground arith, λ l. ground arith)

module _ {D : Type 0} ⦃fs : FileSystem D⦄ ⦃reader : FileReader D⦄ where
  blocked :
      (d : D) (i len off : ℕ) (e : FileError)
      → (reader.read_file d i len off).error ≡ e
      → 0 < len
      → length (reader.read_file d i len off).bytes ≡ 0
      → IsBlocked e d i off
  blocked d i len off fine h some_room nothing =
      absurd (omega (arith, reader.read_file-fine d i len off h))
  blocked d i len off at_end h some_room nothing =
      ap (fs.byte d i) (omega (arith, nothing)) ∙ reader.read_file-at_end d i len off h
  blocked d i len off broken h some_room nothing = tt

  read_loop_lem :
      (rounds : ℕ) (d : D) (i flen len off : ℕ)
      → len ≤ rounds
      → off + len ≤ flen
      → IsFileRead d i len off (read_loop rounds d i flen len off)
  unfolding read_loop
  read_loop_lem zero d i flen len off enough fits =
      (omega arith, λ k h. absurd (omega arith), λ h e. absurd (omega arith))
  read_loop_lem (suc rounds) d i flen len off enough fits =
      let r = reader.read_file d i len off in
      let n1 = length r.bytes in
      let short = reader.length-read_file d i len off in
      elim (Bool-cases (ltb off flen && not (len == 0))) [
        | inr over ↦
            rw over (omega arith, λ k h. absurd (omega arith), λ h e. absurd (ground arith))
        | inl more ↦ elim (Bool-cases (n1 == 0)) [
          | inl nothing ↦
              rw (more, nothing)
                (short, reader.read_file-byte d i len off, blocked d i len off r.error refl)
          | inr progress ↦
              let ih =
                read_loop_lem rounds d i flen (len - n1) (off + n1) (ground arith) (ground arith) in
              let rest = (read_loop rounds d i flen (len - n1) (off + n1)).bytes in
              rw (more, progress)
                (
                  omega (arith, ih.0, short, length-append r.bytes rest),
                  AreFrom-append (fs.byte d i) off r.bytes rest (reader.read_file-byte d i len off)
                      ih.1,
                  λ h e. absurd (ground (arith, length-append r.bytes rest)),
                )
        ]
      ]

  read_opened_lem :
      (o : Opened) (d : D) (i flen len off : ℕ)
      → reader.open_file d i ≡ o
      → off < flen
      → IsFileRead d i (limit flen len off) off (read_opened o d i flen len off)
  unfolding read_opened limit
  read_opened_lem opened d i flen len off e inside =
      read_loop_lem (limit flen len off) d i flen (limit flen len off) off (omega arith)
        (ground arith)
  read_opened_lem missing d i flen len off e inside =
      (omega arith, λ k h. absurd (omega arith), λ h z. reader.open_file-missing d i off e)
  read_opened_lem refused d i flen len off e inside =
      (omega arith, λ k h. absurd (omega arith), λ h z. tt)

  stops :
      (e : FileError) (d : D) (i flen left at : ℕ)
      → 0 < left
      → at < flen
      → IsBlocked e d i at
      → EndsFile (some (lies e)) d i flen left at
  unfolding lies
  stops fine d i flen left at l h b = elim b [ ]
  stops at_end d i flen left at l h b = (l, h, b)
  stops broken d i flen left at l h b = l

  pub read_in_file_lem :
      (rounds : ℕ) (d : D) (i flen len off : ℕ)
      → len < rounds
      → 0 < len
      → IsProgress d i flen len off (read_in_file rounds d i flen len off)
  unfolding read_in_file read_file_at
  read_in_file_lem zero d i flen len off enough room = absurd (omega arith)
  read_in_file_lem (suc rounds) d i flen len off enough some_room =
      let r = read_file_at d i flen len off in
      let n1 = length r.bytes in
      elim (Bool-cases (ltb off flen)) [
        | inr over ↦ rw over (
          omega arith,
          omega arith,
          inl refl,
          λ k h. absurd (omega arith),
          (some_room, ground arith),
        )
        | inl inside ↦
            let l : off < flen = ground arith in
            let file = read_opened_lem (reader.open_file d i) d i flen len off refl l in
            let room = limit_bounds flen len off l in
            elim (Bool-cases ((len - n1) == 0)) [
              | inl full ↦
                  rw (inside, full)
                    (
                      ground (arith, file.0, room.0),
                      refl,
                      inr (ground (arith, file.0, room.1)),
                      file.1,
                      refl,
                    )
              | inr more ↦ elim (Bool-cases (n1 == 0)) [
                | inl nothing ↦
                    rw (inside, more, nothing)
                      (
                        omega arith,
                        omega arith,
                        inl refl,
                        λ k h. absurd (omega arith),
                        stops r.error d i flen len off (ground arith) l
                            (file.2 (room.2 (ground arith)) (==→eq _ _ nothing)),
                      )
                | inr progress ↦
                    let ih =
                      read_in_file_lem rounds d i flen (len - n1) (off + n1) (ground arith)
                        (ground arith) in
                    let rest = (read_in_file rounds d i flen (len - n1) (off + n1)) in
                    rw (inside, more, progress)
                      (
                        omega (arith, ih.0, length-append r.bytes rest.bytes, file.0, room.0),
                        omega (arith, ih.1, length-append r.bytes rest.bytes),
                        inr (ground (arith, ih.1, ih.2, file.0, room.1)),
                        AreFrom-append (fs.byte d i) off r.bytes rest.bytes file.1 ih.3,
                        ih.4,
                      )
              ]
            ]
      ]
