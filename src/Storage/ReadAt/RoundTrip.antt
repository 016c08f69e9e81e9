-- ===== src/Storage/ReadAt/RoundTrip.antt =====
-- What was written by WriteAt is read back by ReadAt.
use charo_torrent.Prelude.{
  ℕ, suc, ◌+◌, ◌-◌, ◌<◌, ◌≤◌, ◌≡◌, ◌⊎◌, inl, inr, refl, sym, ◌∙◌, true, List, [], ◌∷◌, none, some,
  length, get_elem?, arith, get_elem?-lt,
}
use charo_torrent.Storage.Spread.{FileSystem, AreDistinctFiles, total, byte_at, write_at}
use charo_torrent.Storage.Spread.Contents.{IsThere, write_at-IsSpliced}
use charo_torrent.Storage.ReadAt.{
  FileReader, ReadError, no_error, eof, unexpected_eof, failed, Read, read_at,
}
use charo_torrent.Storage.ReadAt.Bytes.{AreFrom, Ends}
use charo_torrent.Storage.ReadAt.Whole.{read_at-IsRead}

-- Lists with the same elements at every position are equal.
pub same_elements :
    (xs ys : List ℕ)
    → length xs ≡ length ys
    → ((k : ℕ) → k < length xs → get_elem? xs k ≡ get_elem? ys k)
    → xs ≡ ys
same_elements [] [] l h = refl
same_elements [] (y ∷ ys) l h = absurd (omega (arith, l))
same_elements (x ∷ xs) [] l h = absurd (omega (arith, l))
same_elements (x ∷ xs) (y ∷ ys) l h =
    let first : some x ≡ some y = h 0 (omega arith) in
    let rest = same_elements xs ys (omega (arith, l)) (λ k m. h (suc k) (omega arith)) in cc

-- The outcomes of reading back `p`.
abbrev pub ReadsBack : List ℕ → Read → Type 0
ReadsBack p r = ((r.error ≡ no_error) × (r.bytes ≡ p)) ⊎ (r.error ≡ failed)

module _ {D : Type 0} ⦃fs : FileSystem D⦄ where
  within_write :
      (flens : List ℕ) (i : ℕ) (d : D) (p : List ℕ) (off k : ℕ)
      → IsThere flens i d p off
      → k < length p
      → byte_at flens i d (off + k) ≡ get_elem? p k
  within_write flens i d p off k there l = let (x, at) = get_elem?-lt p k l in there k x at ∙ sym at

  reads_back :
      (flens : List ℕ) (i : ℕ) (d : D) (p : List ℕ) (off : ℕ) (r : Read) (e : ReadError)
      → off + length p ≤ total flens
      → IsThere flens i d p off
      → length r.bytes ≤ length p
      → AreFrom (byte_at flens i d) off r.bytes
      → Ends e flens i d (length p - length r.bytes) (off + length r.bytes)
      → r.error ≡ e
      → ReadsBack p r
  reads_back flens i d p off r no_error fits h short from end e = inl (
    e,
    same_elements r.bytes p (omega (arith, short, end))
        (λ k l. from k l ∙ within_write flens i d p off k h (omega (arith, short))),
  )
  reads_back flens i d p off r eof fits h short from end e = absurd (omega (arith, end, fits))
  reads_back flens i d p off r unexpected_eof fits h short from (l, m, gone) e =
      let (x, there) = get_elem?-lt p (length r.bytes) (omega (arith, l)) in
      let same = within_write flens i d p off (length r.bytes) h (omega (arith, l)) in
      let bad : none ≡ some x = sym gone ∙ same ∙ there in absurd (cc)
  reads_back flens i d p off r failed fits h short from end e = inr e

module _ {D : Type 0} ⦃fs : FileSystem D⦄ ⦃reader : FileReader D⦄ where
  -- For a torrent whose entries name different files, after a write of `p`, which is not empty, inside the torrent that met no
  -- error of the file system, ReadAt of as many bytes at the same offset gives `p` and no error, however many files they are
  -- spread over, unless a file cannot be opened or read.
  pub read_at-write_at :
      (flens : List ℕ) (i : ℕ) (d : D) (p : List ℕ) (off : ℕ)
      → AreDistinctFiles D fs
      → 0 < length p
      → off + length p ≤ total flens
      → (write_at flens i d p off).success ≡ true
      → ReadsBack p (read_at flens i (write_at flens i d p off).disk (length p) off)
  read_at-write_at flens i d p off distinct some_byte fits done =
      let d' = (write_at flens i d p off).disk in
      let r = read_at flens i d' (length p) off in
      let (count, there, others) = write_at-IsSpliced flens i d p off distinct fits done in
      let got = read_at-IsRead flens i d' (length p) off some_byte in
      reads_back flens i d' p off r r.error fits there got.0 got.1 got.2 refl
