-- ===== src/Pdi/Mcu.antt =====
-- MCU devices for user programs: user/pdi/src/pdi_mcu.c.
use lpf.Common.{ℕ, ◌==◌, not, if◌then◌else◌, Bool, true, false, Option, none, some}
use lpf.Common.Text.{Text, text}
use lpf.Pdm.Device.{type_mcu}
use lpf.Pdm.Manager.{DeviceInfo}
use lpf.Pdm.Mcu.{McuCommand}
use lpf.Pdm.Mcu.Driver as McuDriver
use lpf.Pdi.{
  Result, Context, McuRequest, Syscalls, no_device, invalid_arg, ioctl_checked, Changed,
  open_device, close_device, device_path,
}
use lpf.Pdi.Ctl.{local, ctl_open, ctl_close, get_device_by_name}
use lpf.Pdi.Led.{unopened}

module _ (os : Syscalls) where
  open os use {State, mcu_ioctl}

  unfoldable pub mcu_open : Option Text → State → Changed os
  mcu_open path h = open_device os (text "/dev/pdm/mcu0") path h

  unfoldable pub mcu_close : Context → State → Changed os
  mcu_close ctx h = close_device os ctx h

  -- `pdi_mcu_open_by_name`: opening the path
  unfoldable pub mcu_open_path : Option Text → State → Changed os
  mcu_open_path none h = unopened os invalid_arg h
  mcu_open_path (some path) h = mcu_open (some path) h

  -- what follows the search, with the discovery context
  unfoldable pub mcu_open_found : Result DeviceInfo → State → Changed os
  mcu_open_found (Result.failure e) h = unopened os e h
  mcu_open_found (Result.success info) h =
      if not (info.device_type == type_mcu)
      then unopened os no_device h
      else mcu_open_path (device_path (text "/dev/pdm/mcu") info.index) h

  unfoldable pub mcu_open_searched : Context → Result DeviceInfo × State → Changed os
  mcu_open_searched ctl (ret, h) = mcu_open_found ret (ctl_close os ctl h).2

  -- what follows the opening of the discovery device
  unfoldable pub mcu_open_with : Option Text → Changed os → Changed os
  mcu_open_with name (Result.failure e, ctl, h) = unopened os e h
  mcu_open_with name (Result.success n, ctl, h) =
      mcu_open_searched ctl (get_device_by_name os (some ctl) name true h)

  -- `pdi_mcu_open_by_name` on a context that is not NULL
  unfoldable pub mcu_open_by_name : Option Text → State → Changed os
  mcu_open_by_name none h = unopened os invalid_arg h
  mcu_open_by_name (some name) h = mcu_open_with (some name) (ctl_open os none h)

  -- What the driver writes to the memory of the caller, or nothing.
  abbrev pub Answered : Type 0
  Answered = Result (Option McuDriver.Written) × State

  -- `pdi_mcu_ioctl_checked`
  unfoldable pub mcu_checked : Option Context → McuRequest → State → Answered
  mcu_checked ctx request h = ioctl_checked mcu_ioctl ctx request h

  -- `pdi_mcu_get_info`, `pdi_mcu_get_version`, `pdi_mcu_get_status`, `pdi_mcu_reset` and
  -- `pdi_mcu_command`; the version and the status come with the index that the caller has set.
  unfoldable pub mcu_get_info : Option Context → Bool → State → Answered
  mcu_get_info ctx false h = (Result.failure invalid_arg, h)
  mcu_get_info ctx true h = mcu_checked ctx (McuRequest.ask_info true) h

  unfoldable pub mcu_get_version : Option Context → Option ℕ → State → Answered
  mcu_get_version ctx none h = (Result.failure invalid_arg, h)
  mcu_get_version ctx (some index) h =
      mcu_checked ctx (McuRequest.ask (McuDriver.Command.ask_version (local index))) h

  unfoldable pub mcu_get_status : Option Context → Option ℕ → State → Answered
  mcu_get_status ctx none h = (Result.failure invalid_arg, h)
  mcu_get_status ctx (some index) h =
      mcu_checked ctx (McuRequest.ask (McuDriver.Command.ask_status (local index))) h

  unfoldable pub mcu_reset : Option Context → ℕ → State → Answered
  mcu_reset ctx index h =
      mcu_checked ctx (McuRequest.ask (McuDriver.Command.ask_reset (some index))) h

  unfoldable pub mcu_command : Option Context → Option McuCommand → State → Answered
  mcu_command ctx none h = (Result.failure invalid_arg, h)
  mcu_command ctx (some command) h =
      mcu_checked ctx (McuRequest.ask (McuDriver.Command.ask_command (local command))) h
