-- ===== src/Pdm/User.antt =====
-- The copies between the kernel and user space that the device files make.
use lpf.Common.{ℤ, Bool, true, false, Option, none, some, ret_ok, efault}

-- A pointer of user space: what `copy_from_user` reads there, if it can, and whether
-- `copy_to_user` can write there.
pub record UserPtr (A : Type 0) : Type 0 where
  pub readable : Option A
  pub writable : Bool

-- The return code, and what is written to user space.
abbrev pub Reply : Type 0 → Type 0
Reply A = ℤ × Option A

unfoldable pub copy_to_user : {A : Type 0} → Bool → A → Reply A
copy_to_user true v = (ret_ok, some v)
copy_to_user false v = (efault, none)
