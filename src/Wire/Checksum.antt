-- ===== src/Wire/Checksum.antt =====
-- `crc16Modbus` of codec.go, and the CRC-32 (IEEE) of hash/crc32, which the codec calls.
use goster_io_t.Common.{ℕ, zero, suc, ◌/◌, ◌^◌, ◌<◌, ◌≡◌, refl, arith, [], ◌∷◌}
use goster_io_t.Common.{bit_and, bit_xor, ◌==◌, if◌then◌else◌}
use goster_io_t.Common.Word.{Bytes, u16, u32}
use goster_io_t.Common.Text.{text}

-- `for i := 0; i < 8; i++` over a reflected polynomial.
shift_bits : ℕ → ℕ → ℕ → ℕ
shift_bits poly zero crc = crc
shift_bits poly (suc n) crc =
    shift_bits poly n (if bit_and crc 1 == 0 then crc / 2 else bit_xor (crc / 2) poly)

crc16_loop : ℕ → Bytes → ℕ
unfolding shift_bits
crc16_loop crc [] = crc
crc16_loop crc (b ∷ data_) = crc16_loop (u16 (shift_bits 0xa001 8 (bit_xor crc b))) data_

unfoldable pub crc16_modbus : Bytes → ℕ
unfolding crc16_loop
crc16_modbus = crc16_loop 0xffff

crc32_loop : ℕ → Bytes → ℕ
unfolding shift_bits
crc32_loop crc [] = crc
crc32_loop crc (b ∷ data_) = crc32_loop (u32 (shift_bits 0xedb88320 8 (bit_xor crc b))) data_

unfoldable pub crc32_ieee : Bytes → ℕ
unfolding crc32_loop
crc32_ieee data_ = u32 (bit_xor (crc32_loop 0xffff_ffff data_) 0xffff_ffff)

crc16_loop-lt : (crc : ℕ) (data_ : Bytes) → crc < 2 ^ 16 → crc16_loop crc data_ < 2 ^ 16
unfolding crc16_loop
crc16_loop-lt crc [] h = h
crc16_loop-lt crc (b ∷ data_) h =
    crc16_loop-lt (u16 (shift_bits 0xa001 8 (bit_xor crc b))) data_ (omega arith)

-- The checksum fits the two bytes that hold it.
pub crc16_modbus-lt : (data_ : Bytes) → crc16_modbus data_ < 2 ^ 16
unfolding crc16_modbus
crc16_modbus-lt data_ = crc16_loop-lt 0xffff data_ (omega arith)

-- The checksum fits the four bytes that hold it.
pub crc32_ieee-lt : (data_ : Bytes) → crc32_ieee data_ < 2 ^ 32
unfolding crc32_ieee
crc32_ieee-lt data_ = omega arith

-- The check values of both checksums in their catalogue.
crc16_check : crc16_modbus (text "123456789") ≡ 0x4b37
unfolding crc16_modbus text
crc16_check = refl

crc32_check : crc32_ieee (text "123456789") ≡ 0xcbf43926
unfolding crc32_ieee text
crc32_check = refl
