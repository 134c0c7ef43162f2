-- ===== src/Wire/Crc.antt =====
-- `zlib.crc32` of Python's standard library: the reflected CRC-32 with polynomial 0xEDB88320, bit by
-- bit. The laws of the frames use only that it is a function of the bytes.
use Prim.Native.Nat.{bit_xor}
use esp_iris.Common.{ℕ, ◌/◌, ◌%◌, ◌==◌, if◌then◌else◌, List, [], ◌∷◌, ◌≡◌, refl}

crc_bit : ℕ → ℕ
crc_bit c = if c % 2 == 1 then bit_xor (c / 2) 0xedb88320 else c / 2

crc_byte : ℕ → ℕ → ℕ
unfolding crc_bit
crc_byte c b =
    crc_bit (crc_bit (crc_bit (crc_bit (crc_bit (crc_bit (crc_bit (crc_bit (bit_xor c b))))))))

crc_loop : ℕ → List ℕ → ℕ
unfolding crc_byte
crc_loop c [] = bit_xor c 0xffff_ffff
crc_loop c (b ∷ bytes) = crc_loop (crc_byte c b) bytes

unfoldable pub crc32 : List ℕ → ℕ
unfolding crc_loop
crc32 bytes = crc_loop 0xffff_ffff bytes

-- The check value of this CRC.
crc32_check : crc32 (0x31 ∷ 0x32 ∷ 0x33 ∷ 0x34 ∷ 0x35 ∷ 0x36 ∷ 0x37 ∷ 0x38 ∷ 0x39 ∷ []) ≡ 0xcbf43926
unfolding crc32
crc32_check = refl
