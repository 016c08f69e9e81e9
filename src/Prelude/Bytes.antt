-- ===== src/Prelude/Bytes.antt =====
-- Byte strings as lists of numbers, and encoding/binary in big-endian order.
use charo_torrent.Prelude.Lists.{length}
use Prim.Native.Nat.{ℕ, ◌+◌, ◌*◌, ◌/◌, ◌%◌, ◌^◌, ◌<◌, ◌≤◌}
use mathlib.Core.Path.{◌≡◌, refl}
use mathlib.Core.List.{List, [], ◌∷◌, ◌++◌}
use mathlib.Core.Option.{Option, none, some}
use mathlib.Core.Bool.{Bool, true, false}
use charo_torrent.Prelude.Tests.{◌==◌, if◌then◌else◌}
use native.Mathlib.Omega.{arith}

abbrev pub Bytes : Type 0
Bytes = List ℕ

abbrev pub IsU16 : ℕ → Type 0
IsU16 n = n < 2 ^ 16

abbrev pub IsU32 : ℕ → Type 0
IsU32 n = n < 2 ^ 32

unfoldable pub put_u16 : ℕ → Bytes
put_u16 n = (n / 256 % 256) ∷ (n % 256) ∷ []

unfoldable pub put_u32 : ℕ → Bytes
put_u32 n = (n / 2 ^ 24 % 256) ∷ (n / 2 ^ 16 % 256) ∷ (n / 256 % 256) ∷ (n % 256) ∷ []

-- `none` where the buffer ends inside the number.
unfoldable pub read_u8 : Bytes → Option (ℕ × Bytes)
read_u8 [] = none
read_u8 (a ∷ r) = some (a, r)

unfoldable pub read_u16 : Bytes → Option (ℕ × Bytes)
read_u16 (a ∷ b ∷ r) = some (a * 256 + b, r)
read_u16 _ = none

unfoldable pub read_u32 : Bytes → Option (ℕ × Bytes)
read_u32 (a ∷ b ∷ c ∷ d ∷ r) = some (a * 2 ^ 24 + b * 2 ^ 16 + c * 256 + d, r)
read_u32 _ = none

pub read_u16-put_u16 : (n : ℕ) (r : Bytes) → IsU16 n → read_u16 (put_u16 n ++ r) ≡ some (n, r)
unfolding read_u16 put_u16
read_u16-put_u16 n r h = ground arith

pub read_u32-put_u32 : (n : ℕ) (r : Bytes) → IsU32 n → read_u32 (put_u32 n ++ r) ≡ some (n, r)
unfolding read_u32 put_u32
read_u32-put_u32 n r h = ground arith

pub length-put_u32 : (n : ℕ) → length (put_u32 n) ≡ 4
unfolding put_u32
length-put_u32 n = refl

pub length-put_u16 : (n : ℕ) → length (put_u16 n) ≡ 2
unfolding put_u16
length-put_u16 n = refl

pub read_u16_all : (n : ℕ) → IsU16 n → read_u16 (put_u16 n) ≡ some (n, [])
unfolding read_u16 put_u16
read_u16_all n h = ground arith

pub read_u32_all : (n : ℕ) → IsU32 n → read_u32 (put_u32 n) ≡ some (n, [])
unfolding read_u32 put_u32
read_u32_all n h = ground arith

pub read_u32_short : (b : Bytes) → length b < 4 → read_u32 b ≡ none
unfolding read_u32
read_u32_short [] h = refl
read_u32_short (x ∷ []) h = refl
read_u32_short (x ∷ y ∷ []) h = refl
read_u32_short (x ∷ y ∷ z ∷ []) h = refl
read_u32_short (x ∷ y ∷ z ∷ w ∷ b) h = absurd (omega arith)

pub read_u32_long :
    (b : Bytes)
    → 4 ≤ length b
    → (n : ℕ) × (r : Bytes) × (read_u32 b ≡ some (n, r)) × (length b ≡ length r + 4)
unfolding read_u32
read_u32_long [] h = absurd (omega arith)
read_u32_long (x ∷ []) h = absurd (omega arith)
read_u32_long (x ∷ y ∷ []) h = absurd (omega arith)
read_u32_long (x ∷ y ∷ z ∷ []) h = absurd (omega arith)
read_u32_long (x ∷ y ∷ z ∷ w ∷ b) h = (x * 2 ^ 24 + y * 2 ^ 16 + z * 256 + w, b, refl, omega arith)

pub read_u16_short : (b : Bytes) → length b < 2 → read_u16 b ≡ none
unfolding read_u16
read_u16_short [] h = refl
read_u16_short (x ∷ []) h = refl
read_u16_short (x ∷ y ∷ b) h = absurd (omega arith)

pub read_u16_long :
    (b : Bytes)
    → 2 ≤ length b
    → (n : ℕ) × (r : Bytes) × (read_u16 b ≡ some (n, r)) × (length b ≡ length r + 2)
unfolding read_u16
read_u16_long [] h = absurd (omega arith)
read_u16_long (x ∷ []) h = absurd (omega arith)
read_u16_long (x ∷ y ∷ b) h = (x * 256 + y, b, refl, omega arith)

-- `bytes.Equal`, and `==` on arrays and strings
unfoldable pub bytes_eq : Bytes → Bytes → Bool
bytes_eq [] [] = true
bytes_eq (a ∷ x) (b ∷ y) = let rest = bytes_eq x y in if a == b then rest else false
bytes_eq _ _ = false

pub bytes_eq_refl : (x : Bytes) → bytes_eq x x ≡ true
unfolding bytes_eq
bytes_eq_refl [] = refl
bytes_eq_refl (a ∷ x) = ground (arith, bytes_eq_refl x)

pub bytes_eq→eq : (x y : Bytes) → bytes_eq x y ≡ true → x ≡ y
unfolding bytes_eq
bytes_eq→eq [] [] h = refl
bytes_eq→eq [] (b ∷ y) h = cc
bytes_eq→eq (a ∷ x) [] h = cc
bytes_eq→eq (a ∷ x) (b ∷ y) h = ground (arith, bytes_eq→eq x y)
