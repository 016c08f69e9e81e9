-- ===== src/MetaInfo/Lengths.antt =====
-- The lengths of the pieces against the length of the data.
use charo_torrent.Prelude.{
  ℕ, zero, suc, ◌+◌, ◌-◌, ◌*◌, ◌/◌, ◌%◌, ◌<◌, ◌≤◌, ◌≡◌, ◌≢◌, ◌⊎◌, inl, inr, refl, ap, ◌∙◌, false,
  Option, none, some, ltb, ◌==◌, arith, ltb→lt, ==→eq, Bool-cases,
}
use native.Mathlib.Nat.{div-add-mod, mod-lt}
use charo_torrent.MetaInfo.{InfoDict, total_length, num_pieces, piece_length}

-- The hashes are as many as the data fill pieces, the last one perhaps in part.
pub record IsCovered (info : InfoDict) : Type 0 where
  pub positive : 0 < info.piece_len
  pub some_piece : 0 < num_pieces info
  pub last_begins : num_pieces info * info.piece_len < total_length info + info.piece_len
  pub last_ends : total_length info ≤ num_pieces info * info.piece_len

abbrev or_zero : Option ℕ → ℕ
or_zero none = 0
or_zero (some n) = n

-- The lengths of the first `n` pieces, added up.
unfoldable pub sum_piece_length : InfoDict → ℕ → ℕ
sum_piece_length info zero = 0
sum_piece_length info (suc n) = sum_piece_length info n + or_zero (piece_length info n)

sum_piece_length-lt :
    (info : InfoDict) (n : ℕ) → n < num_pieces info → sum_piece_length info n ≡ n * info.piece_len
unfolding sum_piece_length piece_length
sum_piece_length-lt info zero h = omega arith
sum_piece_length-lt info (suc n) h =
    let inner : (n + 1 == num_pieces info) ≡ false = ground arith in
    rw (inner, sum_piece_length-lt info n (omega arith)) (omega arith)

last_piece_length :
    (info : InfoDict) (n : ℕ)
    → 0 < info.piece_len
    → n + 1 ≡ num_pieces info
    → piece_length info n ≡ some (total_length info % info.piece_len)
unfolding piece_length
last_piece_length info n pos e = ground arith

sum_piece_length-last :
    (info : InfoDict) (m n : ℕ)
    → IsCovered info
    → m ≡ num_pieces info
    → m ≡ suc n
    → sum_piece_length info m ≡ n * info.piece_len + total_length info % info.piece_len
unfolding sum_piece_length
sum_piece_length-last info zero n c e e' = absurd (omega arith)
sum_piece_length-last info (suc m) n c e e' =
    rw (last_piece_length info m c.positive (omega arith), sum_piece_length-lt info m (omega arith))
      (ground arith)

mul_lt_cancel : (a b p : ℕ) → a * p < b * p → a < b
mul_lt_cancel a b p h = elim (Bool-cases (ltb a b)) [
  | inl l ↦ ltb→lt a b l
  | inr l ↦
      let g : b ≤ a = ground arith in let m : b * p ≤ a * p = grind arith in absurd (omega arith)
]

-- Where `t` lies in the piece after `n` full ones, and is no multiple of `p`.
inside : (t p n : ℕ) → 0 < p → n * p < t → t ≤ n * p + p → t % p ≢ 0 → n * p + t % p ≡ t
inside t p n pos lo hi ne =
    let d = div-add-mod t p in
    let m = mod-lt t pos in
    let a : n < t / p + 1 = mul_lt_cancel n (t / p + 1) p (omega arith) in
    let b : t / p < n + 1 = mul_lt_cancel (t / p) (n + 1) p (omega arith) in
    let q : t / p ≡ n = omega arith in omega (arith, ap (λ (x : ℕ). p * x) q)

-- And where it is one.
at_end : (t p n : ℕ) → 0 < p → n * p < t → t ≤ n * p + p → t % p ≡ 0 → n * p + p ≡ t
at_end t p n pos lo hi e =
    let d = div-add-mod t p in
    let a : n < t / p = mul_lt_cancel n (t / p) p (omega arith) in
    let b : t / p < n + 2 = mul_lt_cancel (t / p) (n + 2) p (omega arith) in
    let q : t / p ≡ n + 1 = omega arith in omega (arith, ap (λ (x : ℕ). p * x) q)

-- For an info dictionary with a positive piece length and with as many hashes, at least one, as its data fills pieces, which Parse
-- does not check: the
-- piece lengths add up to the length of the data exactly when the last piece is not a full
-- one. Otherwise the last piece is given the length 0, and one piece length is missing.
pub sum_piece_length_cases :
    (info : InfoDict)
    → IsCovered info
    → ((total_length info % info.piece_len ≢ 0)
        × (sum_piece_length info (num_pieces info) ≡ total_length info))
      ⊎ ((total_length info % info.piece_len ≡ 0)
          × (piece_length info (num_pieces info - 1) ≡ some 0)
          × (sum_piece_length info (num_pieces info) + info.piece_len ≡ total_length info))
sum_piece_length_cases info c =
    let n : ℕ = num_pieces info - 1 in
    let e : num_pieces info ≡ suc n = let q = c.some_piece in omega arith in
    let last = sum_piece_length-last info (num_pieces info) n c refl e in
    let ends = c.last_ends in
    let begins = c.last_begins in
    let times : num_pieces info * info.piece_len ≡ n * info.piece_len + info.piece_len =
      ap (λ (x : ℕ). x * info.piece_len) e ∙ omega arith in
    elim (Bool-cases (total_length info % info.piece_len == 0)) [
      | inr ne ↦ inl (
        ground arith,
        last
            ∙ inside (total_length info) info.piece_len n c.positive (omega arith) (omega arith)
                (ground arith),
      )
      | inl z ↦
          let z' = ==→eq _ _ z in
          inr (
            z',
            last_piece_length info n c.positive (omega arith) ∙ ap some z',
            omega (
              arith,
              last,
              at_end (total_length info) info.piece_len n c.positive (omega arith) (omega arith) z',
            ),
          )
    ]
