-- ===== src/Storage/Blocks.antt =====
-- torrent/storage/piece.go: each block is written once, until the piece is hashed.
use charo_torrent.Prelude.{
  ℕ, ◌<◌, ◌≡◌, ◌≢◌, ◌⊎◌, inl, inr, refl, Bool, true, false, not, ◌||◌, List, [], ◌∷◌, Option, none,
  some, ◌==◌, if◌then◌else◌, length, arith, ==→eq, ==_refl, Bool-cases,
}
use charo_torrent.Misc.{contains}

-- `dirty_blocks` lists the keys of the map, without repetition.
pub record DirtyPiece : Type 0 where
  pub blocks : ℕ
  pub dirty_blocks : List ℕ
  pub verified : Bool

unfoldable pub reserve_offset : DirtyPiece → ℕ → DirtyPiece × Bool
reserve_offset p off =
    if contains p.dirty_blocks off || p.verified
    then (p, false)
    else (record p { dirty_blocks = off ∷ p.dirty_blocks }, true)

unfoldable pub ready_for_verification : DirtyPiece → Bool
ready_for_verification p = length p.dirty_blocks == p.blocks

-- Marking a piece that is verified is a panic.
unfoldable pub mark_complete : DirtyPiece → Option DirtyPiece
mark_complete p =
    if p.verified then none else some (record p { verified = true; dirty_blocks = [] })

unfoldable pub mark_not_complete : DirtyPiece → DirtyPiece
mark_not_complete p = record p { verified = false; dirty_blocks = [] }

-- The outcomes of HashPiece: `fatal` ends the program.
pub data HashResult : Type 0 where
  fatal : HashResult
  hashed : DirtyPiece → Bool → HashResult

abbrev marked : Option DirtyPiece → HashResult
marked none = fatal
marked (some p) = hashed p true

-- HashPiece, when hashing the bytes of the piece gives `correct`.
unfoldable pub hash_piece : DirtyPiece → Bool → HashResult
unfolding mark_complete mark_not_complete ready_for_verification
hash_piece p correct =
    if p.verified
    then fatal
    else if not (ready_for_verification p)
    then fatal
    else if correct
    then marked (mark_complete p)
    else hashed (mark_not_complete p) false

-- The writes of a history that were let through, in order, and the piece after it.
abbrev pub writes : DirtyPiece → List ℕ → DirtyPiece × List ℕ
writes p [] = (p, [])
writes p (off ∷ offs) =
    let r = reserve_offset p off in
    let rest = writes r.0 offs in (rest.0, if r.1 then off ∷ rest.1 else rest.1)

-- No offset is listed twice.
abbrev pub IsNodup : List ℕ → Type 0
IsNodup [] = Unit {0}
IsNodup (x ∷ xs) = (contains xs x ≡ false) × IsNodup xs

-- The blocks that a history lets through were not written before it, each is let through once,
-- and a verified piece lets none through.
pub writes-IsNodup :
    (p : DirtyPiece) (offs : List ℕ)
    → IsNodup (writes p offs).1
      × ((off : ℕ) → contains p.dirty_blocks off ≡ true → contains (writes p offs).1 off ≡ false)
      × (p.verified ≡ true → (writes p offs).1 ≡ [])
unfolding reserve_offset contains
writes-IsNodup p [] = (tt, λ off h. refl, λ h. refl)
writes-IsNodup p (off ∷ offs) = elim (Bool-cases (contains p.dirty_blocks off || p.verified)) [
  | inl refused ↦ let ih = writes-IsNodup p offs in rw refused (ih.0, λ o h. ih.1 o h, λ h. ih.2 h)
  | inr let_in ↦
      let p' = record p { dirty_blocks = off ∷ p.dirty_blocks } in
      let ih = writes-IsNodup p' offs in
      rw let_in (
        (ih.1 off (ground (arith, ==_refl off)), ih.0),
        λ o h. ground (arith, ih.1 o, ==→eq off o),
        λ h. absurd (ground arith),
      )
]

-- For a piece with a block, HashPiece ends the program when the piece is verified or not fully written. Else the piece is
-- verified exactly if the hash was right: it may not be hashed again before new writes, and
-- every block may be written again exactly if the hash was wrong.
pub hash_piece_cases :
    (p : DirtyPiece) (correct : Bool)
    → 0 < p.blocks
    → ((p.verified ≡ true) × (hash_piece p correct ≡ fatal))
      ⊎ ((length p.dirty_blocks ≢ p.blocks) × (hash_piece p correct ≡ fatal))
      ⊎ ((p' : DirtyPiece) × (hash_piece p correct ≡ hashed p' correct)
          × (length p.dirty_blocks ≡ p.blocks)
          × (p'.verified ≡ correct)
          × ((again : Bool) → hash_piece p' again ≡ fatal)
          × ((off : ℕ) → (reserve_offset p' off).1 ≡ not correct))
unfolding hash_piece mark_complete mark_not_complete ready_for_verification reserve_offset contains
hash_piece_cases p correct some_block = elim (Bool-cases p.verified) [
  | inl done ↦ inl (done, ground arith)
  | inr fresh ↦ elim (Bool-cases (length p.dirty_blocks == p.blocks)) [
    | inr missing ↦ inr (inl (ground arith, ground arith))
    | inl full ↦ inr (inr (after fresh full correct))
  ]
]
  where
    after :
        p.verified ≡ false
        → (length p.dirty_blocks == p.blocks) ≡ true
        → (right : Bool)
        → (p' : DirtyPiece) × (hash_piece p right ≡ hashed p' right)
          × (length p.dirty_blocks ≡ p.blocks)
          × (p'.verified ≡ right)
          × ((again : Bool) → hash_piece p' again ≡ fatal)
          × ((off : ℕ) → (reserve_offset p' off).1 ≡ not right)
    after fresh full true = (
      record p { verified = true; dirty_blocks = [] },
      ground arith,
      ==→eq _ _ full,
      refl,
      λ again. refl,
      λ off. refl,
    )
    after fresh full false = (
      record p { verified = false; dirty_blocks = [] },
      ground arith,
      ==→eq _ _ full,
      refl,
      λ again. ground arith,
      λ off. refl,
    )
