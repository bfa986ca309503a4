-- ===== src/Crc.antt =====
-- user/osal/src/osal_crc.c, and the bitwise CRC-32 that user/osal/src/ipc/osal_shm_cache.c has
-- of its own. A buffer is the list of its bytes (numbers below 256), `none` for a null pointer.
-- The registers are `uint16_t` and `uint32_t`: what leaves them is cut off where the code does.
pub mod Tables
pub mod Shift
pub mod Agree
pub mod Ccitt
pub mod Detect
pub mod Residue
mod Tests
use lpf.Common.{
  ℕ, zero, suc, ◌+◌, ◌-◌, ◌*◌, ◌/◌, ◌%◌, ◌^◌, bit_xor, bit_and, ◌==◌, if◌then◌else◌, List, [], ◌∷◌,
  Option, none, some, get_or,
}
use Tables.{crc16_ccitt_table, crc32_table}

-- One round of the loops of `osal_crc16_ccitt` and `osal_crc16_ccitt_update`.
unfoldable pub ccitt_round : ℕ → ℕ → ℕ
ccitt_round crc byte =
    bit_xor (crc * 2 ^ 8) (get_or crc16_ccitt_table (bit_xor (crc / 2 ^ 8) byte) 0) % 2 ^ 16

unfoldable pub ccitt_loop : ℕ → List ℕ → ℕ
ccitt_loop crc [] = crc
ccitt_loop crc (byte ∷ bytes) = ccitt_loop (ccitt_round crc byte) bytes

unfoldable pub crc16_ccitt : Option (List ℕ) → ℕ
crc16_ccitt none = 0xffff
crc16_ccitt (some bytes) = ccitt_loop 0xffff bytes

unfoldable pub crc16_ccitt_update : ℕ → Option (List ℕ) → ℕ
crc16_ccitt_update crc none = crc
crc16_ccitt_update crc (some bytes) = ccitt_loop crc bytes

-- The inner loop of `osal_crc16_modbus`, `n` rounds of it.
unfoldable pub modbus_bits : ℕ → ℕ → ℕ
modbus_bits zero crc = crc
modbus_bits (suc n) crc = modbus_bits n (if crc % 2 == 1 then bit_xor (crc / 2) 0xa001 else crc / 2)

unfoldable pub modbus_loop : ℕ → List ℕ → ℕ
modbus_loop crc [] = crc
modbus_loop crc (byte ∷ bytes) = modbus_loop (modbus_bits 8 (bit_xor crc byte)) bytes

unfoldable pub crc16_modbus : Option (List ℕ) → ℕ
crc16_modbus none = 0xffff
crc16_modbus (some bytes) = modbus_loop 0xffff bytes

-- One round of the loop of `osal_crc32`; `& 0xFF` is the remainder.
unfoldable pub crc32_round : ℕ → ℕ → ℕ
crc32_round crc byte = bit_xor (crc / 2 ^ 8) (get_or crc32_table (bit_xor crc byte % 2 ^ 8) 0)

unfoldable pub crc32_loop : ℕ → List ℕ → ℕ
crc32_loop crc [] = crc
crc32_loop crc (byte ∷ bytes) = crc32_loop (crc32_round crc byte) bytes

unfoldable pub crc32 : Option (List ℕ) → ℕ
crc32 none = 0
crc32 (some bytes) = bit_xor (crc32_loop 0xffff_ffff bytes) 0xffff_ffff

-- The inner loop of `_calculate_crc32`: `-(crc & 1)` is a `uint32_t`, all ones or zero.
unfoldable pub crc32_bits : ℕ → ℕ → ℕ
crc32_bits zero crc = crc
crc32_bits (suc n) crc =
    crc32_bits n (bit_xor (crc / 2) (bit_and 0xedb8_8320 ((2 ^ 32 - crc % 2) % 2 ^ 32)))

unfoldable pub calculate_loop : ℕ → List ℕ → ℕ
calculate_loop crc [] = crc
calculate_loop crc (byte ∷ bytes) = calculate_loop (crc32_bits 8 (bit_xor crc byte)) bytes

-- `_calculate_crc32`; `~crc` of a `uint32_t`.
unfoldable pub calculate_crc32 : List ℕ → ℕ
calculate_crc32 bytes = 2 ^ 32 - 1 - calculate_loop 0xffff_ffff bytes
