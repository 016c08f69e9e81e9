-- ===== src/Metadata/Writes.antt =====
-- What the blocks that are written add up to.
use charo_torrent.Prelude.{
  ℕ, zero, suc, ◌+◌, ◌-◌, ◌*◌, ◌/◌, ◌<◌, ◌≤◌, ◌≡◌, ◌↔◌, ◌⊎◌, inl, inr, refl, sym, ap, ◌∙◌, Bool,
  true, false, ◌&&◌, List, [], ◌∷◌, some, ltb, leb, ◌==◌, if◌then◌else◌, length, get_elem?, set,
  take, drop, ok, panic, arith, length-set, length-take, length-drop, get_elem?-lt, get_elem?-ge,
  get_elem?-set_ne, ltb→lt, leb→le, ==→eq, ==_refl, Bool-cases, Option-cases,
}
use Prim.Native.Nat.{min}
use mathlib.Core.Path.{subst}
use charo_torrent.Storage.Spread.{get_elem?-take, get_elem?-drop}
use charo_torrent.Metadata.{
  UtMetadata, metadata_piece_sz, all_owned, metadata_complete, copy_at, write_block,
}

-- A write with the right size panics exactly when its index, which a peer sends, is out of range:
-- the error for such an index comes after the read of that block's flag.
pub write_block-panic_iff :
    (ut : UtMetadata) (b : List ℕ) (i peer_ip : ℕ)
    → (write_block ut b i (length ut.info_bytes) peer_ip ≡ panic)
      ↔ (length ut.owned_info_blocks ≤ i)
unfolding write_block
write_block-panic_iff ut b i peer_ip = elim (Option-cases (get_elem? ut.owned_info_blocks i)) [
  | inl e ↦ (
    λ h. elim (Bool-cases (leb (length ut.owned_info_blocks) i)) [
      | inl out ↦ leb→le _ _ out
      | inr inside ↦
          let (v, k) = get_elem?-lt ut.owned_info_blocks i (ground arith) in absurd (ground arith)
    ],
    λ h. rw (write_block, e) refl,
  )
  | inr (v, e) ↦
      (λ h. no_panic v e h, λ h. absurd (ground (arith, get_elem?-ge ut.owned_info_blocks i h)))
]
  where
    no_panic :
        (v : Bool)
        → get_elem? ut.owned_info_blocks i ≡ some v
        → write_block ut b i (length ut.info_bytes) peer_ip ≡ panic
        → length ut.owned_info_blocks ≤ i
    no_panic true e h = absurd (ground arith)
    no_panic false e h = ground (arith, ==_refl (length ut.info_bytes))

get_elem?-copy_at :
    (dst : List ℕ) (at : ℕ) (b : List ℕ) (pos : ℕ)
    → pos < length dst
    → get_elem? (copy_at dst at b) pos ≡ (
        if leb at pos && ltb pos (at + length b) then get_elem? b (pos - at) else get_elem? dst pos)
unfolding copy_at
get_elem?-copy_at [] at b pos h = absurd (omega arith)
get_elem?-copy_at (x ∷ dst) (suc at) b zero h = ground arith
get_elem?-copy_at (x ∷ dst) (suc at) b (suc pos) h = ground (arith, get_elem?-copy_at dst at b pos)
get_elem?-copy_at (x ∷ dst) zero [] pos h = ground arith
get_elem?-copy_at (x ∷ dst) zero (y ∷ b) zero h = ground arith
get_elem?-copy_at (x ∷ dst) zero (y ∷ b) (suc pos) h =
    ground (arith, get_elem?-copy_at dst zero b pos)

length-copy_at : (dst : List ℕ) (at : ℕ) (b : List ℕ) → length (copy_at dst at b) ≡ length dst
unfolding copy_at
length-copy_at [] at b = refl
length-copy_at (x ∷ dst) (suc at) b = ap suc (length-copy_at dst at b)
length-copy_at (x ∷ dst) zero [] = refl
length-copy_at (x ∷ dst) zero (y ∷ b) = ap suc (length-copy_at dst zero b)

-- Two lists of one length with the same elements are equal.
same_elements :
    (xs ys : List ℕ)
    → length xs ≡ length ys
    → ((i : ℕ) → i < length ys → get_elem? xs i ≡ get_elem? ys i)
    → xs ≡ ys
same_elements [] [] l h = refl
same_elements [] (y ∷ ys) l h = absurd (omega arith)
same_elements (x ∷ xs) [] l h = absurd (omega arith)
same_elements (x ∷ xs) (y ∷ ys) l h =
    let first : x ≡ y = ground (arith, h 0 (omega arith)) in
    let others = same_elements xs ys (omega arith) (λ i k. h (suc i) (omega arith)) in
    rw (first, others) refl

-- The block `i` of an info dictionary.
abbrev pub dict_block : List ℕ → ℕ → List ℕ
dict_block dict i = take metadata_piece_sz (drop (i * metadata_piece_sz) dict)

-- The blocks that are owned hold the bytes of `dict`, and there are enough blocks for it.
pub record IsPartOf (dict : List ℕ) (ut : UtMetadata) : Type 0 where
  pub same_length : length ut.info_bytes ≡ length dict
  pub covered : length dict ≤ length ut.owned_info_blocks * metadata_piece_sz
  pub bytes :
      (pos : ℕ)
      → pos < length dict
      → get_elem? ut.owned_info_blocks (pos / metadata_piece_sz) ≡ some true
      → get_elem? ut.info_bytes pos ≡ get_elem? dict pos

get_elem?-dict_block :
    (dict : List ℕ) (i pos : ℕ)
    → i * metadata_piece_sz ≤ pos
    → pos < i * metadata_piece_sz + metadata_piece_sz
    → get_elem? (dict_block dict i) (pos - i * metadata_piece_sz) ≡ get_elem? dict pos
get_elem?-dict_block dict i pos l h =
    get_elem?-take metadata_piece_sz (drop (i * metadata_piece_sz) dict)
      (pos - i * metadata_piece_sz) (omega arith)
    ∙ get_elem?-drop (i * metadata_piece_sz) dict (pos - i * metadata_piece_sz) pos (omega arith)

all_owned-lt :
    (vs : List Bool) (i : ℕ) → all_owned vs ≡ true → i < length vs → get_elem? vs i ≡ some true
unfolding all_owned
all_owned-lt [] i h l = absurd (omega arith)
all_owned-lt (v ∷ vs) zero h l = ground arith
all_owned-lt (v ∷ vs) (suc i) h l = all_owned-lt vs i (ground arith) (omega arith)

pub metadata_complete-dict :
    (dict : List ℕ) (ut : UtMetadata)
    → IsPartOf dict ut
    → metadata_complete ut ≡ true
    → ut.info_bytes ≡ dict
unfolding metadata_complete
metadata_complete-dict dict ut part done =
    same_elements ut.info_bytes dict part.same_length λ pos h. part.bytes pos h (
      all_owned-lt ut.owned_info_blocks (pos / metadata_piece_sz) done
        (omega (arith, part.covered)))

inside_test : (a c pos : ℕ) → a ≤ pos → pos < c → (leb a pos && ltb pos c) ≡ true
inside_test a c pos l h = ground arith

block_start : (i pos : ℕ) → i ≡ pos / metadata_piece_sz → i * metadata_piece_sz ≤ pos
block_start i pos e = omega arith

block_end :
    (i pos : ℕ) → i ≡ pos / metadata_piece_sz → pos < i * metadata_piece_sz + metadata_piece_sz
block_end i pos e = omega arith

block_of :
    (i pos : ℕ)
    → i * metadata_piece_sz ≤ pos
    → pos < i * metadata_piece_sz + metadata_piece_sz
    → i ≡ pos / metadata_piece_sz
block_of i pos l h = omega arith

outside_test :
    (i pos len : ℕ)
    → (i == pos / metadata_piece_sz) ≡ false
    → len ≤ metadata_piece_sz
    → (leb (i * metadata_piece_sz) pos && ltb pos (i * metadata_piece_sz + len)) ≡ false
outside_test i pos len ne small =
    elim (Bool-cases (leb (i * metadata_piece_sz) pos && ltb pos (i * metadata_piece_sz + len))) [
      | inr out ↦ out
      | inl inside ↦
          let both = tests _ _ inside in
          let same = block_of i pos (leb→le _ _ both.0) (omega (arith, ltb→lt _ _ both.1, small)) in
          absurd (ground (arith, same_test same))
    ]
  where
    same_test : {j : ℕ} → i ≡ j → (i == j) ≡ true
    same_test e = ground arith

    tests : (a b : Bool) → (a && b) ≡ true → (a ≡ true) × (b ≡ true)
    tests a b h = (ground arith, ground arith)

-- A write of a block of `dict`, as it leaves the metadata.
written-IsPartOf :
    (dict : List ℕ) (ut ut' : UtMetadata) (i : ℕ)
    → IsPartOf dict ut
    → get_elem? ut.owned_info_blocks i ≡ some false
    → ut'.info_bytes ≡ copy_at ut.info_bytes (i * metadata_piece_sz) (dict_block dict i)
    → ut'.owned_info_blocks ≡ set ut.owned_info_blocks i true
    → IsPartOf dict ut'
written-IsPartOf dict ut ut' i part e bs os =
    let at = i * metadata_piece_sz in
    let b = dict_block dict i in
    let size : length b ≡ min metadata_piece_sz (length dict - at) =
      length-take metadata_piece_sz (drop at dict)
      ∙ ap (min metadata_piece_sz) (length-drop at dict) in
    record {
      same_length = ap length bs ∙ length-copy_at ut.info_bytes at b ∙ part.same_length;
      covered = omega (arith, part.covered, ap length os, length-set ut.owned_info_blocks i true);
      bytes = λ pos h own.
          let written =
            get_elem?-copy_at ut.info_bytes at b pos (omega (arith, part.same_length)) in
          let copied = ap (λ q. get_elem? q pos) bs ∙ written in
          elim (Bool-cases (i == pos / metadata_piece_sz)) [
            | inl same ↦
                let start = block_start i pos (==→eq _ _ same) in
                let stop = block_end i pos (==→eq _ _ same) in
                let within : (leb at pos && ltb pos (at + length b)) ≡ true =
                  inside_test at (at + length b) pos start (omega (arith, size, start, stop, h)) in
                copied ∙ rw within (get_elem?-dict_block dict i pos start stop)
            | inr other ↦
                let outside : (leb at pos && ltb pos (at + length b)) ≡ false =
                  outside_test i pos (length b) other (omega (arith, size)) in
                copied
                ∙ rw outside (
                    part.bytes pos h (
                      sym (
                        get_elem?-set_ne ut.owned_info_blocks i (pos / metadata_piece_sz) true
                          (λ q. absurd (ground (arith, q))))
                      ∙ ap (λ q. get_elem? q (pos / metadata_piece_sz)) (sym os)
                      ∙ own))
          ];
    }

write_block-ok :
    (ut ut' : UtMetadata) (b : List ℕ) (i size peer_ip : ℕ) (done : Bool)
    → write_block ut b i size peer_ip ≡ ok (ut', done)
    → ((ut' ≡ ut) × (done ≡ false))
      ⊎ ((get_elem? ut.owned_info_blocks i ≡ some false)
          × (ut'.info_bytes ≡ copy_at ut.info_bytes (i * metadata_piece_sz) b)
          × (ut'.owned_info_blocks ≡ set ut.owned_info_blocks i true)
          × (done ≡ metadata_complete ut'))
unfolding write_block
write_block-ok ut ut' b i size peer_ip done e =
    elim (Option-cases (get_elem? ut.owned_info_blocks i)) [
      | inl out ↦ absurd (ground arith)
      | inr (v, at) ↦ by_flag v at
    ]
  where
    by_flag :
        (v : Bool)
        → get_elem? ut.owned_info_blocks i ≡ some v
        → ((ut' ≡ ut) × (done ≡ false))
          ⊎ ((get_elem? ut.owned_info_blocks i ≡ some false)
              × (ut'.info_bytes ≡ copy_at ut.info_bytes (i * metadata_piece_sz) b)
              × (ut'.owned_info_blocks ≡ set ut.owned_info_blocks i true)
              × (done ≡ metadata_complete ut'))
    by_flag true at = inl (ground arith)
    by_flag false at = inr (at, ground arith, ground arith, ground arith)

-- Writing a block of `dict` keeps the metadata a part of `dict`. When the call reports that the
-- metadata is complete, its bytes are `dict`, whatever the order in which the blocks came.
pub write_block-IsPartOf :
    (dict : List ℕ) (ut ut' : UtMetadata) (i peer_ip : ℕ) (done : Bool)
    → IsPartOf dict ut
    → write_block ut (dict_block dict i) i (length dict) peer_ip ≡ ok (ut', done)
    → IsPartOf dict ut' × ((done ≡ false) ⊎ (ut'.info_bytes ≡ dict))
write_block-IsPartOf dict ut ut' i peer_ip done part e =
    elim (write_block-ok ut ut' (dict_block dict i) i (length dict) peer_ip done e) [
      | inl (same, none_) ↦ (subst (IsPartOf dict) (sym same) part, inl none_)
      | inr (at, bs, os, d) ↦
          let part' = written-IsPartOf dict ut ut' i part at bs os in
          (
            part',
            elim (Bool-cases done) [
              | inr more ↦ inl more
              | inl all ↦ inr (metadata_complete-dict dict ut' part' (sym d ∙ all))
            ],
          )
    ]
