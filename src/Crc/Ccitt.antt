-- ===== src/Crc/Ccitt.antt =====
-- The table-driven CRC-16/CCITT of osal_crc.c against the polynomial division that defines it.
use lpf.Common.{
  ℕ, zero, suc, ◌*◌, ◌/◌, ◌%◌, ◌^◌, ◌<◌, bit_xor, leb, ◌==◌, ==_iff, if◌then◌else◌, ◌≡◌, refl, sym,
  ap, ap₂, ◌∙◌, ◌⊎◌, inl, inr, List, [], ◌∷◌, ◌++◌, some, get_or, true, arith,
}
use lpf.Common.Bits.{
  bit_xor-zero, bit_xor_self, bit_xor-lt, bit_xor-double, bit_xor_swap, bit_xor_comm,
  bit_xor_fields, div-bit_xor_power, mod-bit_xor_power,
}
use lpf.Common.Table.{all_from, all_from_sound}
use lpf.Crc.{ccitt_round, ccitt_loop, crc16_ccitt, crc16_ccitt_update}
use lpf.Crc.Tables.{crc16_ccitt_table}
use lpf.Crc.Shift.{Bytes, gate}

abbrev poly : ℕ
poly = 0x1021

-- One step of the division by x^16 + x^12 + x^5 + 1, highest digit first.
divide_bit : ℕ → ℕ
divide_bit c = if leb (2 ^ 15) c then bit_xor (c * 2) poly % 2 ^ 16 else c * 2

divide_bits : ℕ → ℕ → ℕ
divide_bits zero c = c
divide_bits (suc n) c = divide_bits n (divide_bit c)

-- The remainder after a message, eight steps for each byte.
pub remainder : ℕ → List ℕ → ℕ
remainder c [] = c
remainder c (byte ∷ bytes) = remainder (divide_bits 8 (bit_xor c (byte * 2 ^ 8))) bytes

-- The step as a linear function.
step : ℕ → ℕ
step c = bit_xor (c * 2 % 2 ^ 16) (gate (c / 2 ^ 15) poly)

steps : ℕ → ℕ → ℕ
steps zero c = c
steps (suc n) c = steps n (step c)

top_cases : (c : ℕ) → c < 2 ^ 16 → (c / 2 ^ 15 ≡ 0) ⊎ (c / 2 ^ 15 ≡ 1)
top_cases c h = grind arith

divide_bit-step : (c : ℕ) → c < 2 ^ 16 → divide_bit c ≡ step c
unfolding divide_bit step
divide_bit-step c h = elim (top_cases c h) [
  | inl e ↦ rw e (ground (arith, bit_xor-zero (c * 2 % 2 ^ 16)))
  | inr e ↦ rw e (ground (arith, mod-bit_xor_power 16 (c * 2) poly))
]

step-lt : (c : ℕ) → c < 2 ^ 16 → step c < 2 ^ 16
unfolding step
step-lt c h = elim (top_cases c h) [
  | inl e ↦ rw e (bit_xor-lt 16 (c * 2 % 2 ^ 16) 0 (omega arith) (omega arith))
  | inr e ↦ rw e (bit_xor-lt 16 (c * 2 % 2 ^ 16) poly (omega arith) (omega arith))
]

gate-bit_xor :
    (x y : ℕ) → x < 2 → y < 2 → gate (bit_xor x y) poly ≡ bit_xor (gate x poly) (gate y poly)
gate-bit_xor zero zero h k = refl
gate-bit_xor zero (suc zero) h k = refl
gate-bit_xor (suc zero) zero h k = refl
gate-bit_xor (suc zero) (suc zero) h k = refl
gate-bit_xor zero (suc (suc y)) h k = absurd (omega arith)
gate-bit_xor (suc zero) (suc (suc y)) h k = absurd (omega arith)
gate-bit_xor (suc (suc x)) y h k = absurd (omega arith)

step-bit_xor : (a b : ℕ) → a < 2 ^ 16 → b < 2 ^ 16 → step (bit_xor a b) ≡ bit_xor (step a) (step b)
unfolding step
step-bit_xor a b ha hb =
    ap₂ bit_xor
      (ap (λ (t : ℕ). t % 2 ^ 16) (sym (bit_xor-double a b)) ∙ mod-bit_xor_power 16 (a * 2) (b * 2))
      (ap (λ (t : ℕ). gate t poly) (div-bit_xor_power 15 a b)
        ∙ gate-bit_xor (a / 2 ^ 15) (b / 2 ^ 15) (omega arith) (omega arith))
    ∙ bit_xor_swap (a * 2 % 2 ^ 16) (b * 2 % 2 ^ 16) (gate (a / 2 ^ 15) poly)
        (gate (b / 2 ^ 15) poly)

steps-bit_xor :
    (n a b : ℕ) → a < 2 ^ 16 → b < 2 ^ 16 → steps n (bit_xor a b) ≡ bit_xor (steps n a) (steps n b)
unfolding steps
steps-bit_xor zero a b ha hb = refl
steps-bit_xor (suc n) a b ha hb =
    ap (steps n) (step-bit_xor a b ha hb)
    ∙ steps-bit_xor n (step a) (step b) (step-lt a ha) (step-lt b hb)

steps-lt : (n c : ℕ) → c < 2 ^ 16 → steps n c < 2 ^ 16
unfolding steps
steps-lt zero c h = h
steps-lt (suc n) c h = steps-lt n (step c) (step-lt c h)

divide_bits-steps : (n c : ℕ) → c < 2 ^ 16 → divide_bits n c ≡ steps n c
unfolding divide_bits steps
divide_bits-steps zero c h = refl
divide_bits-steps (suc n) c h =
    ap (divide_bits n) (divide_bit-step c h) ∙ divide_bits-steps n (step c) (step-lt c h)

-- The table holds the remainders of the high bytes, and a low byte only moves up.
high_bytes : all_from (λ i. get_or crc16_ccitt_table i 0 == steps 8 (i * 2 ^ 8)) 0 256 ≡ true
unfolding all_from crc16_ccitt_table steps step
high_bytes = refl

low_bytes : all_from (λ i. steps 8 i == i * 2 ^ 8) 0 256 ≡ true
unfolding all_from steps step
low_bytes = refl

steps-eight :
    (c : ℕ)
    → c < 2 ^ 16
    → steps 8 c ≡ bit_xor (c % 2 ^ 8 * 2 ^ 8) (get_or crc16_ccitt_table (c / 2 ^ 8) 0)
steps-eight c h =
    ap (steps 8) split
    ∙ steps-bit_xor 8 (c % 2 ^ 8) (c / 2 ^ 8 * 2 ^ 8) (omega arith) (omega arith)
    ∙ ap₂ bit_xor ((==_iff _ _).0 (all_from_sound _ 256 (c % 2 ^ 8) low_bytes (omega arith)))
        (sym ((==_iff _ _).0 (all_from_sound _ 256 (c / 2 ^ 8) high_bytes (omega arith))))
  where
    split : c ≡ bit_xor (c % 2 ^ 8) (c / 2 ^ 8 * 2 ^ 8)
    split = omega (
      arith,
      bit_xor_fields 8 (c / 2 ^ 8) (c % 2 ^ 8) (omega arith),
      bit_xor_comm (c % 2 ^ 8) (c / 2 ^ 8 * 2 ^ 8),
    )

module _ (c byte : ℕ) (hc : c < 2 ^ 16) (hb : byte < 256) where
  abbrev mixed : ℕ
  mixed = bit_xor c (byte * 2 ^ 8)

  mixed-lt : mixed < 2 ^ 16
  mixed-lt = bit_xor-lt 16 c (byte * 2 ^ 8) hc (omega arith)

  mixed-high : mixed / 2 ^ 8 ≡ bit_xor (c / 2 ^ 8) byte
  mixed-high = div-bit_xor_power 8 c (byte * 2 ^ 8) ∙ ap (bit_xor (c / 2 ^ 8)) (omega arith)

  mixed-low : mixed % 2 ^ 8 ≡ c % 2 ^ 8
  mixed-low =
      mod-bit_xor_power 8 c (byte * 2 ^ 8)
      ∙ ap (bit_xor (c % 2 ^ 8)) (omega arith)
      ∙ bit_xor-zero (c % 2 ^ 8)

  entry-lt : get_or crc16_ccitt_table (mixed / 2 ^ 8) 0 < 2 ^ 16
  entry-lt = omega (
    arith,
    (==_iff _ _).0 (all_from_sound _ 256 (mixed / 2 ^ 8) high_bytes (omega (arith, mixed-lt))),
    steps-lt 8 (mixed / 2 ^ 8 * 2 ^ 8) (omega (arith, mixed-lt)),
  )

  ccitt_round-divide_bits : ccitt_round c byte ≡ divide_bits 8 mixed
  unfolding ccitt_round
  ccitt_round-divide_bits =
      mod-bit_xor_power 16 (c * 2 ^ 8) (get_or crc16_ccitt_table (bit_xor (c / 2 ^ 8) byte) 0)
      ∙ ap₂ bit_xor low
          (ap (λ (t : ℕ). get_or crc16_ccitt_table t 0 % 2 ^ 16) (sym mixed-high) ∙ whole)
      ∙ sym (divide_bits-steps 8 mixed mixed-lt ∙ steps-eight mixed mixed-lt)
    where
      low : c * 2 ^ 8 % 2 ^ 16 ≡ mixed % 2 ^ 8 * 2 ^ 8
      low = omega (arith, mixed-low)

      whole :
          get_or crc16_ccitt_table (mixed / 2 ^ 8) 0 % 2 ^ 16
          ≡ get_or crc16_ccitt_table (mixed / 2 ^ 8) 0
      whole = omega (arith, entry-lt)

ccitt_round-lt : (c byte : ℕ) → ccitt_round c byte < 2 ^ 16
unfolding ccitt_round
ccitt_round-lt c byte = omega arith

-- The register after any bytes is the remainder of the division by the polynomial: the table
-- holds no wrong entry, and the cast to 16 bits loses nothing that counts.
pub ccitt_loop-remainder :
    (bytes : List ℕ) (c : ℕ) → c < 2 ^ 16 → Bytes bytes → ccitt_loop c bytes ≡ remainder c bytes
unfolding ccitt_loop remainder
ccitt_loop-remainder [] c h b = refl
ccitt_loop-remainder (byte ∷ bytes) c h b =
    ccitt_loop-remainder bytes (ccitt_round c byte) (ccitt_round-lt c byte) b.1
    ∙ ap (λ (t : ℕ). remainder t bytes) (ccitt_round-divide_bits c byte h b.0)

-- Over bytes, `osal_crc16_ccitt_update` from a 16-bit register, and `osal_crc16_ccitt` from
-- 0xFFFF, compute the remainder of the bitwise division by the polynomial 0x1021.
pub crc16_ccitt-remainder :
    (c : ℕ) (bytes : List ℕ)
    → c < 2 ^ 16
    → Bytes bytes
    → (crc16_ccitt_update c (some bytes) ≡ remainder c bytes)
      × (crc16_ccitt (some bytes) ≡ remainder 0xffff bytes)
unfolding crc16_ccitt crc16_ccitt_update
crc16_ccitt-remainder c bytes h b =
    (ccitt_loop-remainder bytes c h b, ccitt_loop-remainder bytes 0xffff (omega arith) b)

pub ccitt_loop-append :
    (xs ys : List ℕ) (c : ℕ) → ccitt_loop c (xs ++ ys) ≡ ccitt_loop (ccitt_loop c xs) ys
unfolding ccitt_loop
ccitt_loop-append [] ys c = refl
ccitt_loop-append (x ∷ xs) ys c = ccitt_loop-append xs ys (ccitt_round c x)

-- Checking a message in two parts, the second by `osal_crc16_ccitt_update` from the result of
-- the first, gives the checksum of the whole.
pub crc16_ccitt_update-crc16_ccitt :
    (xs ys : List ℕ)
    → crc16_ccitt_update (crc16_ccitt (some xs)) (some ys) ≡ crc16_ccitt (some (xs ++ ys))
unfolding crc16_ccitt crc16_ccitt_update
crc16_ccitt_update-crc16_ccitt xs ys = sym (ccitt_loop-append xs ys 0xffff)

first_entry : get_or crc16_ccitt_table 0 0 ≡ 0
unfolding crc16_ccitt_table
first_entry = refl

ccitt_round_zero : (c byte : ℕ) → c / 2 ^ 8 ≡ byte → ccitt_round c byte ≡ c * 2 ^ 8 % 2 ^ 16
unfolding ccitt_round
ccitt_round_zero c byte e =
    ap (λ (t : ℕ). bit_xor (c * 2 ^ 8) (get_or crc16_ccitt_table t 0) % 2 ^ 16)
      (ap (λ (t : ℕ). bit_xor t byte) e ∙ bit_xor_self byte)
    ∙ ap (λ (t : ℕ). bit_xor (c * 2 ^ 8) t % 2 ^ 16) first_entry
    ∙ ap (λ (t : ℕ). t % 2 ^ 16) (bit_xor-zero (c * 2 ^ 8))

-- A message followed by its checksum, high byte first, has the checksum 0, from any register of
-- 16 bits at the start of the message.
pub crc16_ccitt_update_residue :
    (c : ℕ) (bytes : List ℕ)
    → c < 2 ^ 16
    → let r = crc16_ccitt_update c (some bytes) in
      crc16_ccitt_update c (some (bytes ++ (r / 2 ^ 8 ∷ r % 2 ^ 8 ∷ []))) ≡ 0
unfolding crc16_ccitt_update ccitt_loop
crc16_ccitt_update_residue c bytes h =
    ccitt_loop-append bytes (r / 2 ^ 8 ∷ r % 2 ^ 8 ∷ []) c
    ∙ ccitt_round_zero (ccitt_round r (r / 2 ^ 8)) (r % 2 ^ 8) (omega (arith, first))
    ∙ omega (arith, first)
  where
    r : ℕ
    r = ccitt_loop c bytes

    first : ccitt_round r (r / 2 ^ 8) ≡ r * 2 ^ 8 % 2 ^ 16
    first = ccitt_round_zero r (r / 2 ^ 8) refl
