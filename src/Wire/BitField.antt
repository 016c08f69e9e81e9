-- ===== src/Wire/BitField.antt =====
-- peer_wire/bitfield.go: one bit for each piece, the high bit of a byte first.
-- A read or write outside the slice is a Go panic, `none` here.
mod Table
pub mod Laws
use Prim.Native.Nat.{bit_and, bit_or}
use charo_torrent.Prelude.{
  ℕ, zero, suc, ◌+◌, ◌-◌, ◌*◌, ◌/◌, ◌%◌, ◌^◌, Bool, List, [], ◌∷◌, ◌++◌, Option, none, some, ltb,
  ◌==◌, if◌then◌else◌, length, get_elem?, set, replicate,
}
use charo_torrent.Prelude.Bytes.{Bytes}
use mathlib.Core.Option

abbrev pub BitField : Type 0
BitField = Bytes

-- `math.Ceil(float64(numPieces) / 8)`, exact below 2 ^ 53
unfoldable pub bf_len : ℕ → ℕ
bf_len num_pieces = (num_pieces + 7) / 8

unfoldable pub new_bit_field : ℕ → BitField
unfolding bf_len
new_bit_field num_pieces = replicate (bf_len num_pieces) 0

unfoldable pub valid : BitField → ℕ → Bool
unfolding bf_len
valid bf expected_len = length bf == bf_len expected_len

-- `uint8(1 << uint(7-i%8))`
abbrev pub mask : ℕ → ℕ
mask i = 2 ^ (7 - i % 8)

unfoldable pub has_piece : BitField → ℕ → Option Bool
has_piece bf i = Option.map (λ b. ltb 0 (bit_and b (mask i))) (get_elem? bf (i / 8))

unfoldable pub set_piece : BitField → ℕ → Option BitField
set_piece bf i = Option.map (λ b. set bf (i / 8) (bit_or b (mask i))) (get_elem? bf (i / 8))

abbrev pub is_set : Option Bool → Bool
is_set (some b) = b
is_set none = Bool.false

-- The loop of FilterNotSet, with `n` rounds left from index `i` on.
filter_loop : ℕ → ℕ → BitField → List ℕ
filter_loop zero i bf = []
filter_loop (suc n) i bf =
    let rest = filter_loop n (i + 1) bf in if is_set (has_piece bf i) then i ∷ rest else rest

-- Despite its name it returns the indices that are set.
unfoldable pub filter_not_set : BitField → List ℕ
unfolding filter_loop
filter_not_set bf = filter_loop (length bf * 8) 0 bf

-- `bits.OnesCount` of one byte
abbrev pub ones_count : ℕ → ℕ
ones_count b =
    b % 2 + b / 2 % 2 + b / 4 % 2 + b / 8 % 2 + b / 16 % 2 + b / 32 % 2 + b / 64 % 2 + b / 128 % 2

unfoldable pub bits_set : BitField → ℕ
bits_set [] = 0
bits_set (b ∷ bf) = ones_count b + bits_set bf
