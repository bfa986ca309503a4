-- ===== src/Common/Ret.antt =====
-- C's `int` return codes: integers over the native numbers, the tests that the code makes of
-- them, and the error numbers of <linux/errno.h> that the kernel part returns.
use Prim.Native.Nat.{ℕ, zero, suc, compare, Ordering}
use mathlib.Core.Bool.{Bool, true, false}

-- `negsuc n` is -(n + 1).
pub data ℤ : Type 0 where
  pos : ℕ → ℤ
  negsuc : ℕ → ℤ

abbrev pub ret_ok : ℤ
ret_ok = pos 0

-- `!ret`
abbrev pub is_zero : ℤ → Bool
is_zero (pos zero) = true
is_zero (pos (suc n)) = false
is_zero (negsuc n) = false

-- `ret < 0`
abbrev pub is_neg : ℤ → Bool
is_neg (pos n) = false
is_neg (negsuc n) = true

abbrev same_nat : ℕ → ℕ → Bool
same_nat a b = elim (compare a b) [ Ordering.eq ↦ true | _ ↦ false ]

-- `a == b` on `int`
abbrev pub eqz : ℤ → ℤ → Bool
eqz (pos a) (pos b) = same_nat a b
eqz (pos a) (negsuc b) = false
eqz (negsuc a) (pos b) = false
eqz (negsuc a) (negsuc b) = same_nat a b

abbrev pub eio : ℤ
eio = negsuc 4

abbrev pub enomem : ℤ
enomem = negsuc 11

abbrev pub efault : ℤ
efault = negsuc 13

abbrev pub ebusy : ℤ
ebusy = negsuc 15

abbrev pub enodev : ℤ
enodev = negsuc 18

abbrev pub einval : ℤ
einval = negsuc 21

abbrev pub enotty : ℤ
enotty = negsuc 24

abbrev pub enospc : ℤ
enospc = negsuc 27

abbrev pub erange : ℤ
erange = negsuc 33

abbrev pub emsgsize : ℤ
emsgsize = negsuc 89

abbrev pub eopnotsupp : ℤ
eopnotsupp = negsuc 94
