-- ===== src/Pdi.antt =====
-- The user library of the peripheral devices, user/pdi/src: its error helpers (pdi_error.h) and its
-- system calls (pdi_syscall.c).
pub mod Ctl
pub mod Led
pub mod Mcu
mod Listing
mod Lookup
mod Contexts
mod Paths
mod Tests
use lpf.Common.{
  ℕ, ◌+◌, ◌*◌, ◌/◌, ◌%◌, zero, suc, Bool, true, false, if◌then◌else◌, Option, none, some, ℤ, pos,
  negsuc, is_neg, ◌==◌, ◌++◌, List, [], ◌∷◌, length, ltb,
}
use lpf.Common.Decimal.{digits}
use lpf.Common.Text.{Text, text}
use lpf.Pdm.Manager
use lpf.Pdm.Led as LedDriver
use lpf.Pdm.Mcu.Driver as McuDriver

-- What a function of the library returns: PDI_SUCCESS with what it stored, or PDI_FAILURE with errno.
pub data Result (A : Type 0) : Type 0 where
  success : A → Result A
  failure : ℕ → Result A

abbrev pub ebadf : ℕ
ebadf = 9

abbrev pub no_device : ℕ
no_device = 19

abbrev pub invalid_arg : ℕ
invalid_arg = 22

-- `pdi_ctl_context_t`, `pdi_led_context_t` and `pdi_mcu_context_t`
pub record Context : Type 0 where
  pub fd : ℤ

-- The commands of an MCU device, with the one that its driver answers apart.
pub data McuRequest : Type 0 where
  ask_info : Bool → McuRequest
  ask : McuDriver.Command → McuRequest

-- `pdi_syscall_ops_t` over the state of the system: the calls of `open` and `close`, and of `ioctl`
-- on each kind of device. A negative result `-e` is the -1 of the C library with `e` in errno.
pub record Syscalls : Type 1 where
  pub State : Type 0
  pub sys_open : Text → State → ℤ × State
  pub sys_close : ℤ → State → ℤ × State
  pub manager_ioctl : ℤ → Manager.Command → State → ℤ × Manager.Written × State
  pub led_ioctl : ℤ → LedDriver.Command → State → ℤ × LedDriver.Written × State
  pub mcu_ioctl : ℤ → McuRequest → State → ℤ × Option McuDriver.Written × State

-- `pdi_check_fd`, before a call
abbrev pub with_fd : {A B : Type 0} → Context → B → (ℤ → Result A × B) → Result A × B
with_fd ctx h call = if is_neg ctx.fd then (Result.failure ebadf, h) else call ctx.fd

-- `pdi_check_ptr`, before a call
abbrev pub with_ptr : {A B C : Type 0} → Option A → C → (A → Result B × C) → Result B × C
with_ptr none h call = (Result.failure invalid_arg, h)
with_ptr (some p) h call = call p

-- `pdi_result_from_syscall`
unfoldable pub result_from_syscall : {A B : Type 0} → ℤ × A × B → Result A × B
result_from_syscall (pos n, a, h) = (Result.success a, h)
result_from_syscall (negsuc n, a, h) = (Result.failure (suc n), h)

-- The three `pdi_*_ioctl_checked`
unfoldable pub ioctl_checked :
    {C W S : Type 0} → (ℤ → C → S → ℤ × W × S) → Option Context → C → S → Result W × S
ioctl_checked ioctl ctx request h =
    with_ptr ctx h (λ c. with_fd c h (λ fd. result_from_syscall (ioctl fd request h)))

module _ (os : Syscalls) where
  open os use {State, sys_open, sys_close}

  -- What a change of a context leaves: the result, the context and the system.
  abbrev pub Changed : Type 0
  Changed = Result ℕ × Context × State

  unfoldable pub opened : ℤ × State → Changed
  opened (pos fd, h) = (Result.success 0, record { fd = pos fd }, h)
  opened (negsuc e, h) = (Result.failure (suc e), record { fd = negsuc 0 }, h)

  -- `pdi_ctl_open`, `pdi_led_open` and `pdi_mcu_open` on a context that is not NULL, with the path
  -- of the default device
  unfoldable pub open_device : Text → Option Text → State → Changed
  open_device default none h = opened (sys_open default h)
  open_device default (some path) h = opened (sys_open path h)

  unfoldable pub closed : ℤ × State → Changed
  closed (pos n, h) = (Result.success 0, record { fd = negsuc 0 }, h)
  closed (negsuc e, h) = (Result.failure (suc e), record { fd = negsuc 0 }, h)

  -- `pdi_ctl_close`, `pdi_led_close` and `pdi_mcu_close`, likewise
  unfoldable pub close_device : Context → State → Changed
  close_device ctx h =
      if is_neg ctx.fd then (Result.failure ebadf, ctx, h) else closed (sys_close ctx.fd h)

-- `snprintf(path, 64, "...%u", index)` into a buffer that must hold it all
unfoldable pub device_path : Text → ℕ → Option Text
device_path prefix index =
    let path = prefix ++ digits 10 index [] in if ltb (length path) 64 then some path else none
