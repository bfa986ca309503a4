-- ===== src/Crc/Agree.antt =====
-- The table-driven CRC-32 of osal_crc.c beside the bitwise one of osal_shm_cache.c.
use lpf.Common.{
  ℕ, zero, suc, ◌-◌, ◌*◌, ◌/◌, ◌%◌, ◌^◌, ◌<◌, bit_xor, bit_and, ◌==◌, ==_iff, if◌then◌else◌, ◌≡◌,
  refl, sym, ap, ap₂, ◌∙◌, inl, inr, true, List, [], ◌∷◌, get_or, arith,
}
use lpf.Common.Bits.{bit_xor-zero, div-bit_xor_power, bit_xor_fields}
use lpf.Common.Table.{all_from, all_from_sound}
use lpf.Crc.{crc32_round, crc32_loop, crc32_bits, calculate_loop, modbus_bits, modbus_loop}
use lpf.Crc.Tables.{crc32_table}
use lpf.Crc.Shift.{Bytes, gate, digit_cases, shift, shifts, run, shifts-bit_xor, shifts-mul_power}

abbrev pub poly32 : ℕ
poly32 = 0xedb8_8320

-- Every entry of the table is its index shifted out.
table_is_shifted : all_from (λ i. get_or crc32_table i 0 == shifts poly32 8 i) 0 256 ≡ true
unfolding all_from crc32_table shifts shift
table_is_shifted = refl

table32_lem : (i : ℕ) → i < 256 → get_or crc32_table i 0 ≡ shifts poly32 8 i
table32_lem i h = (==_iff _ _).0 (all_from_sound _ 256 i table_is_shifted h)

mask_is_gate : (c : ℕ) → bit_and poly32 ((2 ^ 32 - c % 2) % 2 ^ 32) ≡ gate (c % 2) poly32
mask_is_gate c = elim (digit_cases c) [ inl e ↦ rw e refl | inr e ↦ rw e refl ]

pub crc32_bits-shifts : (n c : ℕ) → crc32_bits n c ≡ shifts poly32 n c
unfolding crc32_bits shifts shift
crc32_bits-shifts zero c = refl
crc32_bits-shifts (suc n) c =
    ap (crc32_bits n) (ap (bit_xor (c / 2)) (mask_is_gate c)) ∙ crc32_bits-shifts n (shift poly32 c)

pub shifts-eight : (p c : ℕ) → shifts p 8 c ≡ bit_xor (c / 2 ^ 8) (shifts p 8 (c % 2 ^ 8))
shifts-eight p c =
    ap (shifts p 8) split
    ∙ shifts-bit_xor p 8 (c / 2 ^ 8 * 2 ^ 8) (c % 2 ^ 8)
    ∙ ap (λ (t : ℕ). bit_xor t (shifts p 8 (c % 2 ^ 8))) (shifts-mul_power p 8 (c / 2 ^ 8))
  where
    split : c ≡ bit_xor (c / 2 ^ 8 * 2 ^ 8) (c % 2 ^ 8)
    split = omega (arith, bit_xor_fields 8 (c / 2 ^ 8) (c % 2 ^ 8) (omega arith))

byte-shifted_out : (crc byte : ℕ) → byte < 256 → bit_xor crc byte / 2 ^ 8 ≡ crc / 2 ^ 8
byte-shifted_out crc byte h =
    div-bit_xor_power 8 crc byte
    ∙ ap (bit_xor (crc / 2 ^ 8)) (omega arith)
    ∙ bit_xor-zero (crc / 2 ^ 8)

pub crc32_round-shifts :
    (crc byte : ℕ) → byte < 256 → crc32_round crc byte ≡ shifts poly32 8 (bit_xor crc byte)
unfolding crc32_round
crc32_round-shifts crc byte h =
    ap₂ bit_xor (sym (byte-shifted_out crc byte h))
      (table32_lem (bit_xor crc byte % 2 ^ 8) (omega arith))
    ∙ sym (shifts-eight poly32 (bit_xor crc byte))

pub crc32_loop-run :
    (bytes : List ℕ) (crc : ℕ) → Bytes bytes → crc32_loop crc bytes ≡ run poly32 crc bytes
unfolding crc32_loop run
crc32_loop-run [] crc h = refl
crc32_loop-run (byte ∷ bytes) crc h =
    ap (λ (t : ℕ). crc32_loop t bytes) (crc32_round-shifts crc byte h.0)
    ∙ crc32_loop-run bytes (shifts poly32 8 (bit_xor crc byte)) h.1

pub calculate_loop-run :
    (bytes : List ℕ) (crc : ℕ) → calculate_loop crc bytes ≡ run poly32 crc bytes
unfolding calculate_loop run
calculate_loop-run [] crc = refl
calculate_loop-run (byte ∷ bytes) crc =
    ap (λ (t : ℕ). calculate_loop t bytes) (crc32_bits-shifts 8 (bit_xor crc byte))
    ∙ calculate_loop-run bytes (shifts poly32 8 (bit_xor crc byte))

abbrev pub poly16 : ℕ
poly16 = 0xa001

modbus_bit : (c : ℕ) → (if c % 2 == 1 then bit_xor (c / 2) poly16 else c / 2) ≡ shift poly16 c
unfolding shift
modbus_bit c = elim (digit_cases c) [
  | inl e ↦ rw e (sym (bit_xor-zero (c / 2)))
  | inr e ↦ rw e refl
]

modbus_bits-shifts : (n c : ℕ) → modbus_bits n c ≡ shifts poly16 n c
unfolding modbus_bits shifts
modbus_bits-shifts zero c = refl
modbus_bits-shifts (suc n) c =
    ap (modbus_bits n) (modbus_bit c) ∙ modbus_bits-shifts n (shift poly16 c)

pub modbus_loop-run : (bytes : List ℕ) (crc : ℕ) → modbus_loop crc bytes ≡ run poly16 crc bytes
unfolding modbus_loop run
modbus_loop-run [] crc = refl
modbus_loop-run (byte ∷ bytes) crc =
    ap (λ (t : ℕ). modbus_loop t bytes) (modbus_bits-shifts 8 (bit_xor crc byte))
    ∙ modbus_loop-run bytes (shifts poly16 8 (bit_xor crc byte))
