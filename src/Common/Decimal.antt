-- ===== src/Common/Decimal.antt =====
-- `%u` and `%d` of C's `printf`.
use lpf.Common.{
  ℕ, zero, suc, ◌+◌, ◌-◌, ◌*◌, ◌/◌, ◌%◌, ◌^◌, ◌≤◌, ◌<◌, ◌≡◌, ap, ◌∙◌, ◌==◌, if◌then◌else◌, if_elim,
  [], ◌∷◌, length, ℤ, pos, negsuc, arith,
}
use lpf.Common.Text.{Text}

-- The digits of a number of at most so many digits, before the text.
unfoldable pub digits : ℕ → ℕ → Text → Text
digits zero n s = s
digits (suc fuel) n s =
    let here = (48 + n % 10) ∷ s in if n / 10 == 0 then here else digits fuel (n / 10) here

-- `%d` of an `int32_t`
unfoldable pub decimal_int : ℤ → Text
decimal_int (pos n) = digits 10 n []
decimal_int (negsuc n) = 45 ∷ digits 10 (n + 1) []

pub length-digits : (fuel n : ℕ) (s : Text) → length (digits fuel n s) ≤ fuel + length s
unfolding digits
length-digits zero n s = omega arith
length-digits (suc fuel) n s =
    if_elim (λ (t : Text). length t ≤ suc fuel + length s) (n / 10 == 0) _ _ (λ _. omega arith)
      (λ _. omega (arith, length-digits fuel (n / 10) ((48 + n % 10) ∷ s)))

-- What the digits spell.
unfoldable pub value : ℕ → Text → ℕ
value n [] = n
value n (c ∷ s) = value (n * 10 + (c - 48)) s

pub value-digits : (fuel n : ℕ) (s : Text) → n < 10 ^ fuel → value 0 (digits fuel n s) ≡ value n s
unfolding value digits
value-digits zero n s few = ap (λ (m : ℕ). value m s) (omega (arith, few))
value-digits (suc fuel) n s few =
    if_elim (λ (t : Text). value 0 t ≡ value n s) (n / 10 == 0) _ _
      (λ z. ap (λ (m : ℕ). value m s) (ground (arith, z)))
      (λ _.
        value-digits fuel (n / 10) ((48 + n % 10) ∷ s)
          (tenth (10 ^ fuel) (10 ^ suc fuel) (omega arith) few)
        ∙ ap (λ (m : ℕ). value m s) (omega arith))
  where
    tenth : (p q : ℕ) → q ≡ 10 * p → n < q → n / 10 < p
    tenth p q e lt = omega (arith, e, lt)
