-- ===== src/Crc/Residue.antt =====
-- Messages that carry their checksum, lowest byte first.
use lpf.Common.{
  ℕ, zero, suc, ◌*◌, ◌/◌, ◌%◌, ◌^◌, ◌<◌, bit_xor, ◌≡◌, refl, sym, ap, ◌∙◌, List, [], ◌∷◌, ◌++◌,
  some, arith,
}
use native.Mathlib.Nat.{pow-suc}
use lpf.Common.Bits.{
  bit_xor-zero, bit_xor-zero_left, bit_xor-lt, bit_xor_self, bit_xor_assoc, bit_xor_comm,
  bit_xor_fields,
}
use lpf.Crc.{crc32_loop, crc32, modbus_loop, crc16_modbus}
use lpf.Crc.Shift.{
  Bytes, Bytes-append, shift, shifts, shifts-bit_xor, shifts-mul_power, run, run-append, run-lt,
}
use lpf.Crc.Agree.{poly32, poly16, crc32_loop-run, modbus_loop-run}

abbrev ones : ℕ
ones = 0xffff_ffff

-- The `n` lowest bytes of a number, as it is stored on a little-endian machine.
unfoldable pub le_bytes : ℕ → ℕ → List ℕ
le_bytes zero x = []
le_bytes (suc n) x = x % 256 ∷ le_bytes n (x / 256)

le_bytes-Bytes : (n x : ℕ) → Bytes (le_bytes n x)
unfolding le_bytes
le_bytes-Bytes zero x = tt
le_bytes-Bytes (suc n) x = (omega arith, le_bytes-Bytes n (x / 256))

-- `n` bytes shifted out.
rounds : ℕ → ℕ → ℕ → ℕ
rounds p zero c = c
rounds p (suc n) c = rounds p n (shifts p 8 c)

absorb :
    (p r x : ℕ) → shifts p 8 (bit_xor r x) ≡ bit_xor (shifts p 8 (bit_xor r (x % 256))) (x / 256)
absorb p r x =
    ap (λ (t : ℕ). shifts p 8 (bit_xor r t)) split
    ∙ ap (shifts p 8) (sym (bit_xor_assoc r (x % 256) (x / 256 * 2 ^ 8)))
    ∙ shifts-bit_xor p 8 (bit_xor r (x % 256)) (x / 256 * 2 ^ 8)
    ∙ ap (bit_xor (shifts p 8 (bit_xor r (x % 256)))) (shifts-mul_power p 8 (x / 256))
  where
    split : x ≡ bit_xor (x % 256) (x / 256 * 2 ^ 8)
    split = omega (
      arith,
      bit_xor_fields 8 (x / 256) (x % 256) (omega arith),
      bit_xor_comm (x % 256) (x / 256 * 2 ^ 8),
    )

-- Feeding the bytes of a number is mixing it in at once.
run-le_bytes : (p n r x : ℕ) → x < 256 ^ n → run p r (le_bytes n x) ≡ rounds p n (bit_xor r x)
unfolding run le_bytes rounds
run-le_bytes p zero r x h = sym (bit_xor-zero r) ∙ ap (bit_xor r) (omega arith)
run-le_bytes p (suc n) r x h =
    run-le_bytes p n (shifts p 8 (bit_xor r (x % 256))) (x / 256) (omega (arith, pow-suc 256 n))
    ∙ ap (rounds p n) (sym (absorb p r x))

modbus_zero : rounds poly16 2 0 ≡ 0
unfolding rounds shifts shift
modbus_zero = refl

crc32_constant : bit_xor (rounds poly32 4 ones) ones ≡ 0x2144_df1c
unfolding rounds shifts shift
crc32_constant = refl

-- Bytes followed by their CRC-16/MODBUS checksum, low byte first, have the checksum 0.
pub crc16_modbus_residue :
    (bytes : List ℕ)
    → Bytes bytes
    → crc16_modbus (some (bytes ++ le_bytes 2 (crc16_modbus (some bytes)))) ≡ 0
unfolding crc16_modbus
crc16_modbus_residue bytes h =
    modbus_loop-run (bytes ++ le_bytes 2 (modbus_loop 0xffff bytes)) 0xffff
    ∙ run-append poly16 0xffff bytes (le_bytes 2 (modbus_loop 0xffff bytes))
    ∙ ap (λ (t : ℕ). run poly16 r (le_bytes 2 t)) (modbus_loop-run bytes 0xffff)
    ∙ run-le_bytes poly16 2 r r
        (run-lt 16 poly16 (omega arith) bytes 0xffff (omega arith) (omega arith) h)
    ∙ ap (rounds poly16 2) (bit_xor_self r)
    ∙ modbus_zero
  where
    r : ℕ
    r = run poly16 0xffff bytes

-- Bytes followed by their CRC-32 checksum, low byte first, have the checksum 0x2144DF1C.
pub crc32_residue :
    (bytes : List ℕ)
    → Bytes bytes
    → crc32 (some (bytes ++ le_bytes 4 (crc32 (some bytes)))) ≡ 0x2144_df1c
unfolding crc32
crc32_residue bytes h =
    ap (λ (t : ℕ). bit_xor t ones)
      (crc32_loop-run (bytes ++ le_bytes 4 check) ones
          (Bytes-append bytes (le_bytes 4 check) h (le_bytes-Bytes 4 check))
        ∙ run-append poly32 ones bytes (le_bytes 4 check)
        ∙ run-le_bytes poly32 4 r check (
            bit_xor-lt 32 (crc32_loop ones bytes) ones
              (omega (arith, crc32_loop-run bytes ones h, wide)) (omega arith))
        ∙ ap (rounds poly32 4) mixes)
    ∙ crc32_constant
  where
    check : ℕ
    check = bit_xor (crc32_loop ones bytes) ones

    r : ℕ
    r = run poly32 ones bytes

    wide : r < 2 ^ 32
    wide = run-lt 32 poly32 (omega arith) bytes ones (omega arith) (omega arith) h

    mixes : bit_xor r check ≡ ones
    mixes =
        ap (λ (t : ℕ). bit_xor r (bit_xor t ones)) (crc32_loop-run bytes ones h)
        ∙ sym (bit_xor_assoc r r ones)
        ∙ ap (λ (t : ℕ). bit_xor t ones) (bit_xor_self r)
        ∙ bit_xor-zero_left ones
