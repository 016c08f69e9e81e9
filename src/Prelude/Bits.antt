-- ===== src/Prelude/Bits.antt =====
-- Facts over a range of numbers as tables, checked by evaluation.
use Prim.Native.Nat.{ℕ, zero, suc, ◌<◌}
use mathlib.Core.Path.{◌≡◌}
use mathlib.Core.Bool.{Bool, true, ◌&&◌}
use native.Mathlib.Omega.{arith}

-- Whether the entries 0 to n - 1 of a table pass.
unfoldable pub table : (ℕ → Bool) → ℕ → Bool
table entry zero = true
table entry (suc n) = table entry n && entry n

pub table_entry : (entry : ℕ → Bool) (n i : ℕ) → i < n → table entry n ≡ true → entry i ≡ true
unfolding table
table_entry entry zero i below t = elim below [ ]
table_entry entry (suc n) i below t = ground (arith, table_entry entry n i)
