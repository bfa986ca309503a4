-- ===== src/Crc/Detect.antt =====
-- Whole checksums: the two CRC-32 routines, their widths, and a changed byte.
use lpf.Common.{ℕ, ◌-◌, ◌<◌, bit_xor, ◌≡◌, ◌≢◌, refl, sym, ap, ◌∙◌, List, ◌∷◌, ◌++◌, some, arith}
use lpf.Common.Bits.{bit_xor_ones, bit_xor_cancel}
use lpf.Crc.{crc32, calculate_crc32, crc16_modbus}
use lpf.Crc.Shift.{Bytes, Bytes-append, run, run-lt, run_distinguishes}
use lpf.Crc.Agree.{poly32, poly16, crc32_loop-run, calculate_loop-run, modbus_loop-run}

abbrev ones : ℕ
ones = 0xffff_ffff

-- Over bytes, the table-driven `osal_crc32` and the bitwise `_calculate_crc32` of the shared
-- memory cache return the same checksum.
pub crc32-calculate_crc32 :
    (bytes : List ℕ) → Bytes bytes → crc32 (some bytes) ≡ calculate_crc32 bytes
unfolding crc32 calculate_crc32
crc32-calculate_crc32 bytes h =
    ap (λ (t : ℕ). bit_xor t ones) (crc32_loop-run bytes ones h)
    ∙ bit_xor_ones 32 (run poly32 ones bytes)
        (run-lt 32 poly32 (omega arith) bytes ones (omega arith) (omega arith) h)
    ∙ ap (λ (t : ℕ). ones - t) (sym (calculate_loop-run bytes ones))

-- Two messages of bytes that differ in exactly one byte have different CRC-32 checksums.
pub crc32_detects :
    (xs ys : List ℕ) (x y : ℕ)
    → Bytes xs
    → x < 256
    → y < 256
    → Bytes ys
    → x ≢ y
    → crc32 (some (xs ++ (x ∷ ys))) ≢ crc32 (some (xs ++ (y ∷ ys)))
unfolding crc32
crc32_detects xs ys x y hxs hx hy hys ne e = ne (
    run_distinguishes 31 poly32 refl (omega arith) xs ys ones x y (omega arith) (omega arith) hxs hx
      hy hys
      (sym (crc32_loop-run (xs ++ (x ∷ ys)) ones (Bytes-append xs (x ∷ ys) hxs (hx, hys)))
        ∙ bit_xor_cancel _ _ ones e
        ∙ crc32_loop-run (xs ++ (y ∷ ys)) ones (Bytes-append xs (y ∷ ys) hxs (hy, hys))))

-- Two messages of bytes that differ in exactly one byte have different CRC-16/MODBUS checksums.
pub crc16_modbus_detects :
    (xs ys : List ℕ) (x y : ℕ)
    → Bytes xs
    → x < 256
    → y < 256
    → Bytes ys
    → x ≢ y
    → crc16_modbus (some (xs ++ (x ∷ ys))) ≢ crc16_modbus (some (xs ++ (y ∷ ys)))
unfolding crc16_modbus
crc16_modbus_detects xs ys x y hxs hx hy hys ne e = ne (
    run_distinguishes 15 poly16 refl (omega arith) xs ys 0xffff x y (omega arith) (omega arith) hxs
      hx hy hys
      (sym (modbus_loop-run (xs ++ (x ∷ ys)) 0xffff) ∙ e ∙ modbus_loop-run (xs ++ (y ∷ ys)) 0xffff))
