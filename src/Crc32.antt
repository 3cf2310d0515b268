-- ===== src/Crc32.antt =====
-- src/crc32.rs: CRC-32C, by tables of which one step takes eight bytes. The table that the source
-- builds at compile time is a function of its two indices here; `t[k][i]` is `table k i`. The two
-- hardware versions, of which the source promises the same results, are not modelled.
use Prim.Native.Nat.{bit_and, bit_xor}
use trunkdb.Base.{ℕ, zero, suc, ◌-◌, ◌/◌, ◌%◌, ◌^◌, ◌≡◌, refl, [], ◌∷◌, Bytes}
use trunkdb.Base.ByteString.{from_le}

abbrev pub polynomial : ℕ
polynomial = 0x82F6_3B78

abbrev wrapping_neg : ℕ → ℕ
wrapping_neg x = (2 ^ 32 - x) % 2 ^ 32

-- One bit of the inner loop of `tables`.
unfoldable pub bit_step : ℕ → ℕ
bit_step crc = bit_xor (crc / 2) (bit_and polynomial (wrapping_neg (bit_and crc 1)))

unfoldable pub bit_steps : ℕ → ℕ → ℕ
unfolding bit_step
bit_steps zero crc = crc
bit_steps (suc bits) crc = bit_steps bits (bit_step crc)

-- `TABLES[k][byte]`
unfoldable pub table : ℕ → ℕ → ℕ
unfolding bit_steps
table zero byte = bit_steps 8 byte
table (suc k) byte =
    let previous = table k byte in bit_xor (previous / 256) (table_row (previous % 256))
  where
    table_row : ℕ → ℕ
    table_row b = bit_steps 8 b

-- The loop over the bytes behind the last chunk.
unfoldable pub update_bytes : ℕ → Bytes → ℕ
unfolding table
update_bytes crc [] = crc
update_bytes crc (byte ∷ rest) =
    update_bytes (bit_xor (crc / 256) (table 0 (bit_xor crc byte % 256))) rest

abbrev pub chunk_step : ℕ → ℕ → ℕ → ℕ
chunk_step low high crc =
    let l = bit_xor low crc in
    bit_xor
      (bit_xor
        (bit_xor (bit_xor (table 7 (l % 256)) (table 6 (l / 256 % 256)))
          (bit_xor (table 5 (l / 65536 % 256)) (table 4 (l / 2 ^ 24))))
        (bit_xor (table 3 (high % 256)) (table 2 (high / 256 % 256))))
      (bit_xor (table 1 (high / 65536 % 256)) (table 0 (high / 2 ^ 24)))

-- The loop over chunks of eight, then over what is left.
unfoldable pub update_table : ℕ → Bytes → ℕ
unfolding table update_bytes
update_table crc (a ∷ b ∷ c ∷ d ∷ e ∷ f ∷ g ∷ h ∷ rest) =
    update_table (chunk_step (from_le (a ∷ b ∷ c ∷ d ∷ [])) (from_le (e ∷ f ∷ g ∷ h ∷ [])) crc) rest
update_table crc rest = update_bytes crc rest

-- `Crc32`: started with `!0`, finished with `!`.
unfoldable pub crc32 : Bytes → ℕ
unfolding update_table
crc32 bytes = 2 ^ 32 - 1 - update_table (2 ^ 32 - 1) bytes

-- The check value of CRC-32C.
crc32_check :
    crc32 (0x31 ∷ 0x32 ∷ 0x33 ∷ 0x34 ∷ 0x35 ∷ 0x36 ∷ 0x37 ∷ 0x38 ∷ 0x39 ∷ []) ≡ 0xE306_9283
unfolding crc32 from_le
crc32_check = refl
