-- ===== src/Protocol/Crc.antt =====
-- The standard library's crc32.ChecksumIEEE, bit by bit: the reflected polynomial 0xEDB88320.
use Prim.Native.Nat.{bit_xor}
use adb_remote.Prelude.{
  ℕ, zero, suc, ◌/◌, ◌%◌, ◌<◌, ◌≡◌, refl, List, [], ◌∷◌, arith, ◌==◌, if◌then◌else◌, u32,
}

shift_bits : ℕ → ℕ → ℕ
shift_bits zero c = c
shift_bits (suc k) c = shift_bits k (if c % 2 == 1 then bit_xor (c / 2) 0xEDB88320 else c / 2)

update_crc : ℕ → List ℕ → ℕ
unfolding shift_bits
update_crc c [] = c
update_crc c (b ∷ bs) = update_crc (shift_bits 8 (bit_xor c b)) bs

unfoldable pub checksum_ieee : List ℕ → ℕ
unfolding update_crc
checksum_ieee bs = u32 (bit_xor (update_crc 0xFFFFFFFF bs) 0xFFFFFFFF)

pub checksum_ieee-lt : (bs : List ℕ) → checksum_ieee bs < 4294967296
unfolding checksum_ieee
checksum_ieee-lt bs = omega arith

-- The check value of CRC-32: the digits from 1 to 9.
check_value :
    checksum_ieee (0x31 ∷ 0x32 ∷ 0x33 ∷ 0x34 ∷ 0x35 ∷ 0x36 ∷ 0x37 ∷ 0x38 ∷ 0x39 ∷ []) ≡ 0xCBF43926
unfolding checksum_ieee
check_value = refl
