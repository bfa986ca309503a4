-- ===== src/Common/Codes.antt =====
-- The test of equality on `int` codes and descriptors.
use Prim.Native.Nat.{ℕ}
use mathlib.Core.Path.{◌≡◌, refl, ap}
use mathlib.Core.Bool.{true}
use native.Mathlib.Omega.{arith}
use lpf.Common.Ret.{ℤ, pos, negsuc, eqz}

pub eqz_comm : (s t : ℤ) → eqz s t ≡ eqz t s
eqz_comm (pos a) (pos b) = ground arith
eqz_comm (pos a) (negsuc b) = refl
eqz_comm (negsuc a) (pos b) = refl
eqz_comm (negsuc a) (negsuc b) = ground arith

pub eqz_refl : (s : ℤ) → eqz s s ≡ true
eqz_refl (pos a) = ground arith
eqz_refl (negsuc a) = ground arith

pub eqz_iff : (s t : ℤ) → eqz s t ≡ true → s ≡ t
eqz_iff (pos a) (pos b) e = ap (λ (n : ℕ). pos n) (ground (arith, e))
eqz_iff (pos a) (negsuc b) e = cc e
eqz_iff (negsuc a) (pos b) e = cc e
eqz_iff (negsuc a) (negsuc b) e = ap (λ (n : ℕ). negsuc n) (ground (arith, e))
