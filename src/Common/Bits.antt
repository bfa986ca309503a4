-- ===== src/Common/Bits.antt =====
-- Laws of `bit_xor` at every width, from the recursion on binary digits that the native
-- operation stands for.
use Prim.Native.Nat.{digits, differ, bit_xor-bitwise}
use native.Mathlib.Nat.{
  pow-suc, mul_comm, mul-one, div-div-eq-div-mul, div-add-mod, mod-lt, one-le-pow,
}
use lpf.Common.{
  ℕ, zero, suc, ◌+◌, ◌-◌, ◌*◌, ◌/◌, ◌%◌, ◌^◌, ◌≤◌, ◌<◌, bit_xor, ◌≡◌, refl, sym, ap, ap₂, ◌∙◌,
  arith,
}

differ_lem : (x y : ℕ) → x < 2 → y < 2 → differ x y ≡ (x + y) % 2
differ_lem zero y p q = omega arith
differ_lem (suc zero) zero p q = omega arith
differ_lem (suc zero) (suc zero) p q = refl
differ_lem (suc zero) (suc (suc y)) p q = absurd (omega arith)
differ_lem (suc (suc x)) y p q = absurd (omega arith)

-- The digits of an exclusive or, `count` of them looked at.
abbrev xor_digits : ℕ → ℕ → ℕ → ℕ
xor_digits count x y = digits (λ rest. rest) differ count x y

-- Once the count reaches the first number, one more digit changes nothing.
one_more_digit : (count x y : ℕ) → x ≤ count → xor_digits (suc count) x y ≡ xor_digits count x y
one_more_digit count zero y enough = none_left count
  where
    none_left : (k : ℕ) → y ≡ xor_digits k zero y
    none_left zero = refl
    none_left (suc k) = refl
one_more_digit zero (suc x) y enough = elim enough [ ]
one_more_digit (suc count) (suc x) y enough =
    let higher = one_more_digit count (suc x / 2) (y / 2) (omega arith) in
    ap (λ (higher_digits : ℕ). higher_digits * 2 + differ (suc x % 2) (y % 2)) higher

more_digits :
    (extra count x y : ℕ) → x ≤ count → xor_digits (extra + count) x y ≡ xor_digits count x y
more_digits zero count x y enough = ap (λ (k : ℕ). xor_digits k x y) (omega arith)
more_digits (suc extra) count x y enough =
    ap (λ (k : ℕ). xor_digits k x y) {x = suc extra + count} {y = suc (extra + count)} (omega arith)
    ∙ one_more_digit (extra + count) x y (omega arith)
    ∙ more_digits extra count x y enough

pub bit_xor-zero_left : (b : ℕ) → bit_xor 0 b ≡ b
bit_xor-zero_left b = bit_xor-bitwise 0 b

-- The digits of an exclusive or, the lowest one apart.
pub bit_xor_step : (a b : ℕ) → bit_xor a b ≡ bit_xor (a / 2) (b / 2) * 2 + (a % 2 + b % 2) % 2
bit_xor_step zero b = omega (arith, bit_xor-zero_left b, bit_xor-zero_left (b / 2))
bit_xor_step (suc a) b = omega (
  arith,
  bit_xor-bitwise (suc a) b,
  bit_xor-bitwise (suc a / 2) (b / 2),
  ap (λ (k : ℕ). xor_digits k (suc a / 2) (b / 2)) {x = a - suc a / 2 + suc a / 2} {y = a}
      (omega arith),
  more_digits (a - suc a / 2) (suc a / 2) (suc a / 2) (b / 2) (omega arith),
  differ_lem (suc a % 2) (b % 2) (omega arith) (omega arith),
)

pub half-bit_xor : (a b : ℕ) → bit_xor a b / 2 ≡ bit_xor (a / 2) (b / 2)
half-bit_xor a b = omega (arith, bit_xor_step a b)

pub parity-bit_xor : (a b : ℕ) → bit_xor a b % 2 ≡ (a % 2 + b % 2) % 2
parity-bit_xor a b = omega (arith, bit_xor_step a b)

comm_fuel : (n a b : ℕ) → a + b ≤ n → bit_xor a b ≡ bit_xor b a
comm_fuel zero zero zero h = refl
comm_fuel zero zero (suc b) h = absurd (omega arith)
comm_fuel zero (suc a) b h = absurd (omega arith)
comm_fuel (suc n) zero zero h = refl
comm_fuel (suc n) (suc a) b h = omega (
  arith,
  bit_xor_step (suc a) b,
  bit_xor_step b (suc a),
  comm_fuel n (suc a / 2) (b / 2) (omega arith),
)
comm_fuel (suc n) zero (suc b) h = omega (
  arith,
  bit_xor_step zero (suc b),
  bit_xor_step (suc b) zero,
  comm_fuel n zero (suc b / 2) (omega arith),
)

pub bit_xor_comm : (a b : ℕ) → bit_xor a b ≡ bit_xor b a
bit_xor_comm a b = comm_fuel (a + b) a b (omega arith)

pub bit_xor-zero : (a : ℕ) → bit_xor a 0 ≡ a
bit_xor-zero a = bit_xor_comm a 0 ∙ bit_xor-zero_left a

-- Both sides have the same halves, by induction, and the same lowest digit.
assoc_from_half :
    (a b c : ℕ)
    → bit_xor (bit_xor (a / 2) (b / 2)) (c / 2) ≡ bit_xor (a / 2) (bit_xor (b / 2) (c / 2))
    → bit_xor (bit_xor a b) c ≡ bit_xor a (bit_xor b c)
assoc_from_half a b c ih = omega (
  arith,
  bit_xor_step (bit_xor a b) c,
  bit_xor_step a (bit_xor b c),
  ap (λ (t : ℕ). bit_xor t (c / 2)) (half-bit_xor a b),
  ap (λ (t : ℕ). bit_xor (a / 2) t) (half-bit_xor b c),
  parity-bit_xor a b,
  parity-bit_xor b c,
  ih,
)

assoc_fuel : (n a b c : ℕ) → a ≤ n → bit_xor (bit_xor a b) c ≡ bit_xor a (bit_xor b c)
assoc_fuel n zero b c h =
    ap (λ (t : ℕ). bit_xor t c) (bit_xor-zero_left b) ∙ sym (bit_xor-zero_left (bit_xor b c))
assoc_fuel zero (suc a) b c h = absurd (omega arith)
assoc_fuel (suc n) (suc a) b c h =
    assoc_from_half (suc a) b c (assoc_fuel n (suc a / 2) (b / 2) (c / 2) (omega arith))

pub bit_xor_assoc : (a b c : ℕ) → bit_xor (bit_xor a b) c ≡ bit_xor a (bit_xor b c)
bit_xor_assoc a b c = assoc_fuel a a b c (omega arith)

self_fuel : (n a : ℕ) → a ≤ n → bit_xor a a ≡ 0
self_fuel n zero h = refl
self_fuel zero (suc a) h = absurd (omega arith)
self_fuel (suc n) (suc a) h =
    omega (arith, bit_xor_step (suc a) (suc a), self_fuel n (suc a / 2) (omega arith))

pub bit_xor_self : (a : ℕ) → bit_xor a a ≡ 0
bit_xor_self a = self_fuel a a (omega arith)

pub bit_xor_cancel : (a b c : ℕ) → bit_xor a c ≡ bit_xor b c → a ≡ b
bit_xor_cancel a b c h = undo a ∙ ap (λ (t : ℕ). bit_xor t c) h ∙ sym (undo b)
  where
    undo : (x : ℕ) → x ≡ bit_xor (bit_xor x c) c
    undo x =
        sym (bit_xor-zero x) ∙ ap (bit_xor x) (sym (bit_xor_self c)) ∙ sym (bit_xor_assoc x c c)

-- (a ^ b) ^ (c ^ d) with the middle terms exchanged.
pub bit_xor_swap :
    (a b c d : ℕ) → bit_xor (bit_xor a b) (bit_xor c d) ≡ bit_xor (bit_xor a c) (bit_xor b d)
bit_xor_swap a b c d =
    bit_xor_assoc a b (bit_xor c d)
    ∙ ap (bit_xor a) (
        sym (bit_xor_assoc b c d)
        ∙ ap (λ (t : ℕ). bit_xor t d) (bit_xor_comm b c)
        ∙ bit_xor_assoc c b d)
    ∙ sym (bit_xor_assoc a c (bit_xor b d))

-- No digit is made: numbers of `k` digits have an exclusive or of `k` digits.
pub bit_xor-lt : (k a b : ℕ) → a < 2 ^ k → b < 2 ^ k → bit_xor a b < 2 ^ k
bit_xor-lt zero zero b p q = omega (arith, bit_xor-zero_left b)
bit_xor-lt zero (suc a) b p q = absurd (omega arith)
bit_xor-lt (suc k) a b p q = omega (
  arith,
  bit_xor_step a b,
  pow-suc 2 k,
  bit_xor-lt k (a / 2) (b / 2) (omega (arith, pow-suc 2 k)) (omega (arith, pow-suc 2 k)),
)

-- Two fields that do not overlap: the sum is the exclusive or.
pub bit_xor_fields : (k q r : ℕ) → r < 2 ^ k → bit_xor (q * 2 ^ k) r ≡ q * 2 ^ k + r
bit_xor_fields zero q r h = ground (arith, bit_xor-zero q)
bit_xor_fields (suc k) q r h = omega (
  arith,
  bit_xor_step (q * 2 ^ suc k) r,
  ap (λ (t : ℕ). q * t) (pow-suc 2 k),
  bit_xor_fields k q (r / 2) (omega (arith, pow-suc 2 k)),
  ap (λ (t : ℕ). bit_xor t (r / 2)) halved,
)
  where
    halved : q * 2 ^ suc k / 2 ≡ q * 2 ^ k
    halved = omega (arith, ap (λ (t : ℕ). q * t) (pow-suc 2 k))

-- A shift to the right goes under an exclusive or.
pub div-bit_xor_power : (k a b : ℕ) → bit_xor a b / 2 ^ k ≡ bit_xor (a / 2 ^ k) (b / 2 ^ k)
div-bit_xor_power zero a b =
    omega (arith, ap (λ (t : ℕ). bit_xor t (b / 1)) one_a, ap (λ (t : ℕ). bit_xor a t) one_b)
  where
    one_a : a / 1 ≡ a
    one_a = omega arith

    one_b : b / 1 ≡ b
    one_b = omega arith
div-bit_xor_power (suc k) a b =
    halves (bit_xor a b)
    ∙ ap (λ (t : ℕ). t / 2 ^ k) (half-bit_xor a b)
    ∙ div-bit_xor_power k (a / 2) (b / 2)
    ∙ ap (λ (t : ℕ). bit_xor t (b / 2 / 2 ^ k)) (sym (halves a))
    ∙ ap (bit_xor (a / 2 ^ suc k)) (sym (halves b))
  where
    halves : (x : ℕ) → x / 2 ^ suc k ≡ x / 2 / 2 ^ k
    halves x =
        ap (λ (t : ℕ). x / t) (pow-suc 2 k ∙ mul_comm (2 ^ k) 2)
        ∙ sym (div-div-eq-div-mul x 2 (2 ^ k))

pub bit_xor-double : (a b : ℕ) → bit_xor (a * 2) (b * 2) ≡ bit_xor a b * 2
bit_xor-double a b =
    omega (arith, bit_xor_step (a * 2) (b * 2), ap₂ bit_xor (half_double a) (half_double b))
  where
    half_double : (x : ℕ) → x * 2 / 2 ≡ x
    half_double x = omega arith

-- So does a shift to the left.
pub bit_xor-mul_power : (k a b : ℕ) → bit_xor (a * 2 ^ k) (b * 2 ^ k) ≡ bit_xor a b * 2 ^ k
bit_xor-mul_power zero a b =
    ap₂ bit_xor {x = a * 2 ^ 0} (omega arith) (omega arith) ∙ sym (mul-one (bit_xor a b))
bit_xor-mul_power (suc k) a b =
    ap₂ bit_xor (twice a) (twice b)
    ∙ bit_xor-double (a * 2 ^ k) (b * 2 ^ k)
    ∙ ap (λ (t : ℕ). t * 2) (bit_xor-mul_power k a b)
    ∙ sym (twice (bit_xor a b))
  where
    twice : (x : ℕ) → x * 2 ^ suc k ≡ x * 2 ^ k * 2
    twice x = omega (arith, ap (λ (t : ℕ). x * t) (pow-suc 2 k))

split_at : (k a : ℕ) → a ≡ bit_xor (a / 2 ^ k * 2 ^ k) (a % 2 ^ k)
split_at k a = omega (
  arith,
  bit_xor_fields k (a / 2 ^ k) (a % 2 ^ k) (mod-lt a (one-le-pow k 2 (omega arith))),
  div-add-mod a (2 ^ k),
)

-- And the lowest `k` digits.
pub mod-bit_xor_power : (k a b : ℕ) → bit_xor a b % 2 ^ k ≡ bit_xor (a % 2 ^ k) (b % 2 ^ k)
mod-bit_xor_power k a b = omega (arith, whole, div-add-mod (bit_xor a b) (2 ^ k))
  where
    low : bit_xor (a % 2 ^ k) (b % 2 ^ k) < 2 ^ k
    low =
        bit_xor-lt k (a % 2 ^ k) (b % 2 ^ k) (mod-lt a (one-le-pow k 2 (omega arith)))
          (mod-lt b (one-le-pow k 2 (omega arith)))

    whole : bit_xor a b ≡ bit_xor a b / 2 ^ k * 2 ^ k + bit_xor (a % 2 ^ k) (b % 2 ^ k)
    whole =
        ap₂ bit_xor (split_at k a) (split_at k b)
        ∙ bit_xor_swap (a / 2 ^ k * 2 ^ k) (a % 2 ^ k) (b / 2 ^ k * 2 ^ k) (b % 2 ^ k)
        ∙ ap (λ (t : ℕ). bit_xor t (bit_xor (a % 2 ^ k) (b % 2 ^ k)))
            (bit_xor-mul_power k (a / 2 ^ k) (b / 2 ^ k)
              ∙ ap (λ (t : ℕ). t * 2 ^ k) (sym (div-bit_xor_power k a b)))
        ∙ bit_xor_fields k (bit_xor a b / 2 ^ k) (bit_xor (a % 2 ^ k) (b % 2 ^ k)) low

-- `~a` on `k` digits is their exclusive or with ones.
pub bit_xor_ones : (k a : ℕ) → a < 2 ^ k → bit_xor a (2 ^ k - 1) ≡ 2 ^ k - 1 - a
bit_xor_ones zero a h = omega (arith, bit_xor-zero a)
bit_xor_ones (suc k) a h = omega (
  arith,
  bit_xor_step a (2 ^ suc k - 1),
  pow-suc 2 k,
  one-le-pow k 2 (omega arith),
  ap (bit_xor (a / 2)) half_ones,
  bit_xor_ones k (a / 2) (omega (arith, pow-suc 2 k)),
)
  where
    half_ones : (2 ^ suc k - 1) / 2 ≡ 2 ^ k - 1
    half_ones = omega (arith, pow-suc 2 k, one-le-pow k 2 (omega arith))
