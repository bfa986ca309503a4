-- ===== src/Crc/Tests.antt =====
-- Checksums of known messages, and the theorems at messages of bytes.
use lpf.Common.{ℕ, ◌≡◌, ◌≢◌, refl, List, [], ◌∷◌, ◌++◌, none, some, arith}
use lpf.Crc.{
  ccitt_round, ccitt_loop, crc16_ccitt, crc16_ccitt_update, modbus_bits, modbus_loop, crc16_modbus,
  crc32_round, crc32_loop, crc32, crc32_bits, calculate_loop, calculate_crc32,
}
use lpf.Crc.Tables.{crc16_ccitt_table, crc32_table}
use lpf.Crc.Ccitt.{remainder, crc16_ccitt-remainder}
use lpf.Crc.Detect.{crc32-calculate_crc32, crc32_detects}

-- "123456789", the message whose checksums catalogues list.
abbrev digits : List ℕ
digits = b'1' ∷ b'2' ∷ b'3' ∷ b'4' ∷ b'5' ∷ b'6' ∷ b'7' ∷ b'8' ∷ b'9' ∷ []

check_values :
    (crc16_ccitt (some digits) ≡ 0x29b1)
    × (crc16_modbus (some digits) ≡ 0x4b37)
    × (crc32 (some digits) ≡ 0xcbf4_3926)
    × (calculate_crc32 digits ≡ 0xcbf4_3926)
unfolding crc16_ccitt ccitt_loop ccitt_round crc16_ccitt_table crc16_modbus modbus_loop modbus_bits
    crc32 crc32_loop crc32_round crc32_table calculate_crc32 calculate_loop crc32_bits
check_values = (refl, refl, refl, refl)

null_values : (crc16_ccitt none ≡ 0xffff) × (crc16_modbus none ≡ 0xffff) × (crc32 none ≡ 0)
unfolding crc16_ccitt crc16_modbus crc32
null_values = (refl, refl, refl)

crc32-calculate_crc32_example : crc32 (some digits) ≡ calculate_crc32 digits
crc32-calculate_crc32_example = crc32-calculate_crc32 digits (omega arith)

crc16_ccitt-remainder_example :
    (crc16_ccitt_update 0x1d0f (some digits) ≡ remainder 0x1d0f digits)
    × (crc16_ccitt (some digits) ≡ remainder 0xffff digits)
crc16_ccitt-remainder_example = crc16_ccitt-remainder 0x1d0f digits (omega arith) (omega arith)

crc32_detects_example :
    crc32 (some (digits ++ (7 ∷ digits))) ≢ crc32 (some (digits ++ (8 ∷ digits)))
crc32_detects_example =
    crc32_detects digits digits 7 8 (omega arith) (omega arith) (omega arith) (omega arith)
      (omega arith)
