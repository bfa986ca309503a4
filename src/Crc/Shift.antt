-- ===== src/Crc/Shift.antt =====
-- The shift register that all four checksums step: linear, and reversible where the polynomial
-- has its highest bit.
use lpf.Common.{
  ℕ, zero, suc, ◌+◌, ◌*◌, ◌/◌, ◌%◌, ◌^◌, ◌≤◌, ◌<◌, bit_xor, ◌≡◌, refl, sym, ap, ap₂, ◌∙◌, ◌⊎◌,
  arith, List, [], ◌∷◌, ◌++◌,
}
use native.Mathlib.Nat.{pow-suc, zero-div, div-eq_of_lt}
use lpf.Common.Bits.{
  bit_xor-zero, bit_xor-zero_left, half-bit_xor, parity-bit_xor, bit_xor_swap, bit_xor_self,
  bit_xor_cancel, bit_xor_comm, bit_xor-lt, div-bit_xor_power,
}

-- `p` where the digit is set.
abbrev pub gate : ℕ → ℕ → ℕ
gate zero p = 0
gate (suc n) p = p

-- Every byte of the list is one.
abbrev pub Bytes : List ℕ → Type 0
Bytes [] = Unit {0}
Bytes (b ∷ bs) = (b < 256) × Bytes bs

pub Bytes-append : (xs ys : List ℕ) → Bytes xs → Bytes ys → Bytes (xs ++ ys)
Bytes-append [] ys h k = k
Bytes-append (x ∷ xs) ys h k = (h.0, Bytes-append xs ys h.1 k)

pub digit_cases : (n : ℕ) → (n % 2 ≡ 0) ⊎ (n % 2 ≡ 1)
digit_cases n = grind arith

-- A register shifted to the right, with the polynomial where a 1 leaves it.
unfoldable pub shift : ℕ → ℕ → ℕ
shift p c = bit_xor (c / 2) (gate (c % 2) p)

unfoldable pub shifts : ℕ → ℕ → ℕ → ℕ
shifts p zero c = c
shifts p (suc n) c = shifts p n (shift p c)

gate-add : (p x y : ℕ) → x < 2 → y < 2 → gate ((x + y) % 2) p ≡ bit_xor (gate x p) (gate y p)
gate-add p zero zero h k = refl
gate-add p zero (suc zero) h k = sym (bit_xor-zero_left p)
gate-add p (suc zero) zero h k = sym (bit_xor-zero p)
gate-add p (suc zero) (suc zero) h k = sym (bit_xor_self p)
gate-add p zero (suc (suc y)) h k = absurd (omega arith)
gate-add p (suc zero) (suc (suc y)) h k = absurd (omega arith)
gate-add p (suc (suc x)) y h k = absurd (omega arith)

pub shift-bit_xor : (p a b : ℕ) → shift p (bit_xor a b) ≡ bit_xor (shift p a) (shift p b)
unfolding shift
shift-bit_xor p a b =
    ap₂ bit_xor (half-bit_xor a b) (
      ap (λ (t : ℕ). gate t p) (parity-bit_xor a b)
      ∙ gate-add p (a % 2) (b % 2) (omega arith) (omega arith))
    ∙ bit_xor_swap (a / 2) (b / 2) (gate (a % 2) p) (gate (b % 2) p)

pub shifts-bit_xor :
    (p n a b : ℕ) → shifts p n (bit_xor a b) ≡ bit_xor (shifts p n a) (shifts p n b)
unfolding shifts shift
shifts-bit_xor p zero a b = refl
shifts-bit_xor p (suc n) a b =
    ap (shifts p n) (shift-bit_xor p a b) ∙ shifts-bit_xor p n (shift p a) (shift p b)

-- What stands above the digits that leave only moves down.
pub shifts-mul_power : (p n x : ℕ) → shifts p n (x * 2 ^ n) ≡ x
unfolding shifts shift
shifts-mul_power p zero x = omega arith
shifts-mul_power p (suc n) x = ap (shifts p n) step ∙ shifts-mul_power p n x
  where
    half : x * 2 ^ suc n / 2 ≡ x * 2 ^ n
    half = omega (arith, ap (λ (t : ℕ). x * t) (pow-suc 2 n))

    even : x * 2 ^ suc n % 2 ≡ 0
    even = omega (arith, ap (λ (t : ℕ). x * t) (pow-suc 2 n))

    step : shift p (x * 2 ^ suc n) ≡ x * 2 ^ n
    step = ap₂ bit_xor half (ap (λ (t : ℕ). gate t p) even) ∙ bit_xor-zero (x * 2 ^ n)

-- The register over a list of bytes.
unfoldable pub run : ℕ → ℕ → List ℕ → ℕ
run p c [] = c
run p c (byte ∷ bytes) = run p (shifts p 8 (bit_xor c byte)) bytes

pub run-append : (p c : ℕ) (xs ys : List ℕ) → run p c (xs ++ ys) ≡ run p (run p c xs) ys
unfolding run
run-append p c [] ys = refl
run-append p c (x ∷ xs) ys = run-append p (shifts p 8 (bit_xor c x)) xs ys

gate-lt : (k n p : ℕ) → p < 2 ^ k → gate n p < 2 ^ k
gate-lt k zero p h = omega arith
gate-lt k (suc n) p h = h

module _ (k p : ℕ) (small : p < 2 ^ k) where
  shift-lt : (c : ℕ) → c < 2 ^ k → shift p c < 2 ^ k
  unfolding shift
  shift-lt c h = bit_xor-lt k (c / 2) (gate (c % 2) p) (omega arith) (gate-lt k (c % 2) p small)

  shifts-lt : (n c : ℕ) → c < 2 ^ k → shifts p n c < 2 ^ k
  unfolding shifts
  shifts-lt zero c h = h
  shifts-lt (suc n) c h = shifts-lt n (shift p c) (shift-lt c h)

  -- The register keeps its width.
  pub run-lt :
      (bytes : List ℕ) (c : ℕ) → 256 ≤ 2 ^ k → c < 2 ^ k → Bytes bytes → run p c bytes < 2 ^ k
  unfolding run
  run-lt [] c w h b = h
  run-lt (x ∷ xs) c w h b =
      run-lt xs (shifts p 8 (bit_xor c x)) w
        (shifts-lt 8 (bit_xor c x) (bit_xor-lt k c x h (omega arith))) b.1

-- A register of `k + 1` digits whose polynomial has the highest one can be stepped back.
module _ (k p : ℕ) (top : p / 2 ^ k ≡ 1) where
  gate-top : (n : ℕ) → n < 2 → gate n p / 2 ^ k ≡ n
  gate-top zero h = zero-div (2 ^ k)
  gate-top (suc zero) h = top
  gate-top (suc (suc n)) h = absurd (omega arith)

  shift-top : (c : ℕ) → c < 2 ^ suc k → shift p c / 2 ^ k ≡ c % 2
  unfolding shift
  shift-top c h =
      div-bit_xor_power k (c / 2) (gate (c % 2) p)
      ∙ ap₂ bit_xor (div-eq_of_lt (omega (arith, pow-suc 2 k))) (gate-top (c % 2) (omega arith))
      ∙ bit_xor-zero_left (c % 2)

  shift_injective : (a b : ℕ) → a < 2 ^ suc k → b < 2 ^ suc k → shift p a ≡ shift p b → a ≡ b
  unfolding shift
  shift_injective a b ha hb e = omega (arith, same_digit, same_half)
    where
      same_digit : a % 2 ≡ b % 2
      same_digit = sym (shift-top a ha) ∙ ap (λ (t : ℕ). t / 2 ^ k) e ∙ shift-top b hb

      same_half : a / 2 ≡ b / 2
      same_half =
          bit_xor_cancel (a / 2) (b / 2) (gate (b % 2) p)
            (ap (λ (t : ℕ). bit_xor (a / 2) (gate t p)) (sym same_digit) ∙ e)

  module _ (small : p < 2 ^ suc k) where
    shifts_injective :
        (n a b : ℕ) → a < 2 ^ suc k → b < 2 ^ suc k → shifts p n a ≡ shifts p n b → a ≡ b
    unfolding shifts
    shifts_injective zero a b ha hb e = e
    shifts_injective (suc n) a b ha hb e = shift_injective a b ha hb (
        shifts_injective n (shift p a) (shift p b) (shift-lt (suc k) p small a ha)
          (shift-lt (suc k) p small b hb) e)

    -- Different registers stay different over the same bytes.
    pub run_injective :
        (bytes : List ℕ) (a b : ℕ)
        → 256 ≤ 2 ^ suc k
        → a < 2 ^ suc k
        → b < 2 ^ suc k
        → Bytes bytes
        → run p a bytes ≡ run p b bytes
        → a ≡ b
    unfolding run
    run_injective [] a b w ha hb h e = e
    run_injective (x ∷ xs) a b w ha hb h e = bit_xor_cancel a b x (
        shifts_injective 8 (bit_xor a x) (bit_xor b x) (wide a ha) (wide b hb) (
          run_injective xs (shifts p 8 (bit_xor a x)) (shifts p 8 (bit_xor b x)) w
            (shifts-lt (suc k) p small 8 (bit_xor a x) (wide a ha))
            (shifts-lt (suc k) p small 8 (bit_xor b x) (wide b hb)) h.1 e))
      where
        wide : (c : ℕ) → c < 2 ^ suc k → bit_xor c x < 2 ^ suc k
        wide c hc = bit_xor-lt (suc k) c x hc (omega arith)

    -- One byte that differs is seen: the register after it is another one.
    pub run_distinguishes :
        (xs ys : List ℕ) (c x y : ℕ)
        → 256 ≤ 2 ^ suc k
        → c < 2 ^ suc k
        → Bytes xs
        → x < 256
        → y < 256
        → Bytes ys
        → run p c (xs ++ (x ∷ ys)) ≡ run p c (xs ++ (y ∷ ys))
        → x ≡ y
    unfolding run
    run_distinguishes xs ys c x y w hc hxs hx hy hys e = bit_xor_cancel x y r (
        bit_xor_comm x r
        ∙ shifts_injective 8 (bit_xor r x) (bit_xor r y) (wide x hx) (wide y hy) (
            run_injective ys (shifts p 8 (bit_xor r x)) (shifts p 8 (bit_xor r y)) w
              (shifts-lt (suc k) p small 8 (bit_xor r x) (wide x hx))
              (shifts-lt (suc k) p small 8 (bit_xor r y) (wide y hy)) hys
              (sym (run-append p c xs (x ∷ ys)) ∙ e ∙ run-append p c xs (y ∷ ys)))
        ∙ bit_xor_comm r y)
      where
        r : ℕ
        r = run p c xs

        wide : (b : ℕ) → b < 256 → bit_xor r b < 2 ^ suc k
        wide b hb = bit_xor-lt (suc k) r b (run-lt (suc k) p small xs c w hc hxs) (omega arith)
