-- ===== src/Wire/BitField/Table.antt =====
-- The bits of one byte, by tables over all bytes and positions.
use Prim.Native.Nat.{bit_and, bit_or}
use charo_torrent.Prelude.{
  ℕ, ◌+◌, ◌-◌, ◌*◌, ◌/◌, ◌%◌, ◌^◌, ◌<◌, ◌≡◌, refl, Bool, true, not, ◌&&◌, ltb, ◌==◌, ==→eq, ltb→lt,
  if◌then◌else◌, arith,
}
use charo_torrent.Prelude.Bits.{table, table_entry}
use charo_torrent.Wire.BitField.{ones_count}
use charo_torrent.Misc.{bool_to_int}

-- Bit `i` of a byte, counted from the high end.
abbrev pub bit : ℕ → ℕ → Bool
bit b i = ltb 0 (bit_and b (2 ^ (7 - i)))

abbrev bool_eq : Bool → Bool → Bool
bool_eq true b = b
bool_eq Bool.false b = not b

bool_eq→eq : (a b : Bool) → bool_eq a b ≡ true → a ≡ b
bool_eq→eq a b h = ground arith

abbrev or_entry : ℕ → ℕ → ℕ → Bool
or_entry b i j =
    bool_eq (bit (bit_or b (2 ^ (7 - i))) j) (if i == j then true else bit b j)
    && ltb (bit_or b (2 ^ (7 - i))) 256

or_table : table (λ x. or_entry (x / 64) (x / 8 % 8) (x % 8)) 16384 ≡ true
unfolding table
or_table = refl

split_and : (a b : Bool) → (a && b) ≡ true → (a ≡ true) × (b ≡ true)
split_and a b h = ground arith

or_entry_holds : (b i j : ℕ) → b < 256 → i < 8 → j < 8 → or_entry b i j ≡ true
or_entry_holds b i j hb hi hj =
    let x : ℕ = b * 64 + i * 8 + j in
    let e1 : x / 64 ≡ b = omega arith in
    let e2 : x / 8 % 8 ≡ i = omega arith in
    let e3 : x % 8 ≡ j = omega arith in
    let h =
      table_entry (λ x. or_entry (x / 64) (x / 8 % 8) (x % 8)) 16384 x (omega arith) or_table in
    rw (e1, e2, e3) at h

pub bit-bit_or :
    (b i j : ℕ)
    → b < 256
    → i < 8
    → j < 8
    → bit (bit_or b (2 ^ (7 - i))) j ≡ (if i == j then true else bit b j)
bit-bit_or b i j hb hi hj = bool_eq→eq _ _ (split_and _ _ (or_entry_holds b i j hb hi hj)).0

pub bit_or-lt : (b i : ℕ) → b < 256 → i < 8 → bit_or b (2 ^ (7 - i)) < 256
bit_or-lt b i hb hi = ltb→lt _ _ (split_and _ _ (or_entry_holds b i 0 hb hi (omega arith))).1

abbrev pub bit_total : ℕ → ℕ
bit_total b =
    bool_to_int (bit b 0)
    + bool_to_int (bit b 1)
    + bool_to_int (bit b 2)
    + bool_to_int (bit b 3)
    + bool_to_int (bit b 4)
    + bool_to_int (bit b 5)
    + bool_to_int (bit b 6)
    + bool_to_int (bit b 7)

count_table : table (λ b. bit_total b == ones_count b) 256 ≡ true
unfolding table bool_to_int
count_table = refl

pub bit_total-ones_count : (b : ℕ) → b < 256 → bit_total b ≡ ones_count b
bit_total-ones_count b h =
    ==→eq _ _ (table_entry (λ b. bit_total b == ones_count b) 256 b h count_table)
