-- ===== src/Storage/ReadAt/Whole.antt =====
-- A read over all the files of the torrent.
use charo_torrent.Prelude.{
  ℕ, suc, ◌+◌, ◌-◌, ◌<◌, ◌≤◌, ◌≡◌, ◌⊎◌, inl, inr, sym, ap, ◌∙◌, true, false, List, [], ◌∷◌, ◌++◌,
  some, ltb, length, arith, length-append, Option-cases,
}
use mathlib.Core.Path.{subst}
use charo_torrent.Storage.Spread.{FileSystem, byte_at}
use charo_torrent.Storage.ReadAt.{
  FileReader, ReadError, no_error, eof, unexpected_eof, failed, Read, Progress, read_in_file,
  read_at,
}
use charo_torrent.Storage.ReadAt.Bytes.{
  AreFrom, AreFrom-append, EndsFile, IsProgress, Ends, IsRead, read_in_file_lem,
}

module _ {D : Type 0} ⦃fs : FileSystem D⦄ where
  in_first :
      (flen : ℕ) (flens : List ℕ) (i : ℕ) (d : D) (off : ℕ) (bs : List ℕ)
      → (length bs ≡ 0) ⊎ (off + length bs ≤ flen)
      → AreFrom (fs.byte d i) off bs
      → AreFrom (byte_at (flen ∷ flens) i d) off bs
  in_first flen flens i d off bs (inl z) h k l = absurd (omega arith)
  in_first flen flens i d off bs (inr m) h k l =
      let here : ltb (off + k) flen ≡ true = ground arith in rw here (h k l)

  in_later :
      (flen : ℕ) (flens : List ℕ) (i : ℕ) (d : D) (off : ℕ) (bs : List ℕ)
      → flen ≤ off
      → AreFrom (byte_at flens (i + 1) d) (off - flen) bs
      → AreFrom (byte_at (flen ∷ flens) i d) off bs
  in_later flen flens i d off bs m h k l =
      let past : ltb (off + k) flen ≡ false = ground arith in
      rw past (h k l ∙ ap (byte_at flens (i + 1) d) (omega arith))

  stopped_here :
      (e : ReadError) (flen : ℕ) (flens : List ℕ) (i : ℕ) (d : D) (left at : ℕ)
      → EndsFile (some e) d i flen left at
      → Ends e (flen ∷ flens) i d left at
  stopped_here no_error flen flens i d left at h = h
  stopped_here eof flen flens i d left at h = elim h [ ]
  stopped_here unexpected_eof flen flens i d left at (l, m, e) =
      let here : ltb at flen ≡ true = ground arith in (l, omega arith, rw here e)
  stopped_here failed flen flens i d left at h = h

  passed_later :
      (e : ReadError) (flen : ℕ) (flens : List ℕ) (i : ℕ) (d : D) (left at : ℕ)
      → flen ≤ at
      → Ends e flens (i + 1) d left (at - flen)
      → Ends e (flen ∷ flens) i d left at
  passed_later no_error flen flens i d left at m h = h
  passed_later eof flen flens i d left at m (l, n) = (l, omega arith)
  passed_later unexpected_eof flen flens i d left at m (l, n, e) =
      let past : ltb at flen ≡ false = ground arith in (l, omega arith, rw past e)
  passed_later failed flen flens i d left at m h = h

  -- The first file's part and the rest of the read, one after the other.
  joined :
      (flen : ℕ) (flens : List ℕ) (i : ℕ) (d : D) (len off : ℕ) (s : Progress) (r : Read)
      → IsProgress d i flen len off s
      → flen ≤ s.at
      → IsRead flens (i + 1) d s.left (s.at - flen) r
      → IsRead (flen ∷ flens) i d len off (record r { bytes = s.bytes ++ r.bytes })
  joined flen flens i d len off s r p past rest =
      let both = length-append s.bytes r.bytes in
      let at : off + length s.bytes - flen ≡ s.at - flen = ap (λ (n : ℕ). n - flen) (sym (p.1)) in
      (
        omega (arith, both, p.0, rest.0),
        AreFrom-append (byte_at (flen ∷ flens) i d) off s.bytes r.bytes
            (in_first flen flens i d off s.bytes (ground (arith, p.1, p.2)) p.3)
            (in_later flen flens i d (off + length s.bytes) r.bytes (omega (arith, p.1, past))
              (rw at rest.1)),
        let left : len - length (s.bytes ++ r.bytes) ≡ s.left - length r.bytes =
              omega (arith, both, p.0) in
            let to : off + length (s.bytes ++ r.bytes) ≡ s.at + length r.bytes =
              omega (arith, both, p.1) in
            let from : s.at + length r.bytes - flen ≡ s.at - flen + length r.bytes = omega arith in
            rw (left, to)
              (passed_later r.error flen flens i d (s.left - length r.bytes) (s.at + length r.bytes)
                (omega arith) (rw from rest.2)),
      )

  -- The first file's part, when the read ends there.
  stopped_lem :
      (e : ReadError) (flen : ℕ) (flens : List ℕ) (i : ℕ) (d : D) (len off : ℕ) (s : Progress)
      → IsProgress d i flen len off s
      → EndsFile (some e) d i flen s.left s.at
      → IsRead (flen ∷ flens) i d len off (record { bytes = s.bytes; error = e })
  stopped_lem e flen flens i d len off s p end = (
    omega (arith, p.0),
    in_first flen flens i d off s.bytes (ground (arith, p.1, p.2)) p.3,
    let left : len - length s.bytes ≡ s.left = omega (arith, p.0) in
        let to : off + length s.bytes ≡ s.at = omega (arith, p.1) in
        rw (left, to) (stopped_here e flen flens i d s.left s.at end),
  )

module _ {D : Type 0} ⦃fs : FileSystem D⦄ ⦃reader : FileReader D⦄ where
  -- ReadAt puts the bytes of the torrent from `off` on into a buffer that is not empty, no more than fit. Without
  -- an error the buffer is full. With one it is not full: io.EOF says that the torrent ends at or before the next position, and
  -- io.ErrUnexpectedEOF that the next byte of the torrent is not in its file.
  pub read_at-IsRead :
      (flens : List ℕ) (i : ℕ) (d : D) (len off : ℕ)
      → 0 < len
      → IsRead flens i d len off (read_at flens i d len off)
  unfolding read_at
  read_at-IsRead [] i d len off room =
      (omega arith, λ k h. absurd (omega arith), (omega arith, omega arith))
  read_at-IsRead (flen ∷ flens) i d len off room =
      let s = read_in_file (suc len) d i flen len off in
      let p = read_in_file_lem (suc len) d i flen len off (omega arith) room in
      elim (Option-cases s.stopped) [
        | inl e ↦
            let past : (0 < s.left) × (flen ≤ s.at) =
              subst (λ o. EndsFile o d i flen s.left s.at) e p.4 in
            rw (read_at, e)
              (joined flen flens i d len off s (read_at flens (i + 1) d s.left (s.at - flen)) p
                (past.1) (read_at-IsRead flens (i + 1) d s.left (s.at - flen) past.0))
        | inr (x, e) ↦
            let end = subst (λ o. EndsFile o d i flen s.left s.at) e p.4 in
            rw (read_at, e) (stopped_lem x flen flens i d len off s p end)
      ]
