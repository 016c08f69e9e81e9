-- ===== src/Wire/Reserved.antt =====
-- peer_wire/reserved.go: the extension bits of a handshake, in an array of eight bytes.
use Prim.Native.Nat.{bit_and, bit_or}
use charo_torrent.Prelude.{
  ℕ, ◌≡◌, refl, Bool, true, not, Option, none, some, ◌==◌, length, get_elem?, set, All, arith,
  get_elem?-lt, get_elem?-set_self, get_elem?-set_ne,
}
use charo_torrent.Prelude.Bytes.{Bytes}
use charo_torrent.Prelude.Bits.{table, table_entry}
use charo_torrent.Wire.BitField.Laws.{IsByte, get-IsByte}

abbrev pub Reserved : Type 0
Reserved = Bytes

-- A byte of the array; an index below 8 never fails.
abbrev or_zero : Option ℕ → ℕ
or_zero none = 0
or_zero (some b) = b

abbrev byte_at : Reserved → ℕ → ℕ
byte_at r i = or_zero (get_elem? r i)

unfoldable pub support_dht : Reserved → Bool
support_dht r = not (bit_and (byte_at r 7) 0x01 == 0)

unfoldable pub set_dht : Reserved → Reserved
set_dht r = set r 7 (bit_or (byte_at r 7) 0x01)

unfoldable pub set_extended : Reserved → Reserved
set_extended r = set r 5 (bit_or (byte_at r 5) 0x10)

unfoldable pub support_extended : Reserved → Bool
support_extended r = not (bit_and (byte_at r 5) 0x10 == 0)

abbrev low_entry : ℕ → Bool
low_entry b = not (bit_and (bit_or b 1) 1 == 0)

low_table : table low_entry 256 ≡ true
unfolding table
low_table = refl

abbrev high_entry : ℕ → Bool
high_entry b = not (bit_and (bit_or b 16) 16 == 0)

high_table : table high_entry 256 ≡ true
unfolding table
high_table = refl

-- SetDHT turns DHT support on and leaves the extension bit alone.
pub support_dht-set_dht :
    (r : Reserved)
    → length r ≡ 8
    → All IsByte r
    → (support_dht (set_dht r) ≡ true) × (support_extended (set_dht r) ≡ support_extended r)
unfolding support_dht set_dht support_extended
support_dht-set_dht r n h =
    let (b, e) = get_elem?-lt r 7 (omega (arith, n)) in
    let t = table_entry low_entry 256 b (get-IsByte r 7 b h e) low_table in
    (
      rw (get_elem?-set_self r 7 (bit_or (byte_at r 7) 1) (omega (arith, n)), e) t,
      rw (get_elem?-set_ne r 7 5 (bit_or (byte_at r 7) 1) (omega arith)) refl,
    )

-- SetExtended turns the extension protocol on and leaves the DHT bit alone.
pub support_extended-set_extended :
    (r : Reserved)
    → length r ≡ 8
    → All IsByte r
    → (support_extended (set_extended r) ≡ true) × (support_dht (set_extended r) ≡ support_dht r)
unfolding support_dht set_extended support_extended
support_extended-set_extended r n h =
    let (b, e) = get_elem?-lt r 5 (omega (arith, n)) in
    let t = table_entry high_entry 256 b (get-IsByte r 5 b h e) high_table in
    (
      rw (get_elem?-set_self r 5 (bit_or (byte_at r 5) 16) (omega (arith, n)), e) t,
      rw (get_elem?-set_ne r 5 7 (bit_or (byte_at r 5) 16) (omega arith)) refl,
    )
