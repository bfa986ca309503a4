-- ===== src/Pdm/Ids/Interface.antt =====
-- The part of the kernel's IDA (lib/idr.c of Linux) that the device ids use: sets of ids, from
-- which `ida_alloc_range` takes one and to which `ida_free` gives it back. `ida_alloc` is
-- `ida_alloc_range` from 0 to INT_MAX.
use lpf.Common.{ℕ, ◌≤◌, ◌≡◌, ◌==◌, if◌then◌else◌, Bool, true, false, ℤ, pos, negsuc}

pub record Ida : Type 1 where
  pub Pool : Type 0
  pub taken : Pool → ℕ → Bool
  pub alloc_range : ℕ → ℕ → Pool → ℤ × Pool
  pub free : ℕ → Pool → Pool
  -- An id that is handed out lies in the range, was free, and is the only one that changes.
  pub alloc_fresh :
      (lo hi id : ℕ) (p q : Pool)
      → alloc_range lo hi p ≡ (pos id, q)
      → (taken p id ≡ false)
        × (lo ≤ id)
        × (id ≤ hi)
        × ((j : ℕ) → taken q j ≡ (if j == id then true else taken p j))
  -- A failure changes no id.
  pub alloc_failed :
      (lo hi e : ℕ) (p q : Pool)
      → alloc_range lo hi p ≡ (negsuc e, q)
      → (j : ℕ) → taken q j ≡ taken p j
  -- `ida_free` frees the id and no other.
  pub free_one :
      (id : ℕ) (p : Pool) (j : ℕ) → taken (free id p) j ≡ (if j == id then false else taken p j)
