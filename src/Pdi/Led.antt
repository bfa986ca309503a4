-- ===== src/Pdi/Led.antt =====
-- LED devices for user programs: user/pdi/src/pdi_led.c.
use lpf.Common.{ℕ, ◌==◌, not, if◌then◌else◌, Bool, true, false, Option, none, some, negsuc}
use lpf.Common.Text.{Text, text}
use lpf.Pdm.Device.{type_led}
use lpf.Pdm.Manager.{DeviceInfo}
use lpf.Pdm.Led as LedDriver
use lpf.Pdi.{
  Result, Context, Syscalls, no_device, invalid_arg, ioctl_checked, Changed, open_device,
  close_device, device_path,
}
use lpf.Pdi.Ctl.{local, ctl_open, ctl_close, get_device_by_name}

-- A `struct pdm_led_state` of the caller for the LED of this index
abbrev pub state_of : ℕ → LedDriver.LedState
state_of index = record { index = index; brightness = 0; max_brightness = 0; enabled = 0 }

module _ (os : Syscalls) where
  open os use {State, led_ioctl}

  unfoldable pub led_open : Option Text → State → Changed os
  led_open path h = open_device os (text "/dev/pdm/led0") path h

  unfoldable pub led_close : Context → State → Changed os
  led_close ctx h = close_device os ctx h

  -- The context after `ctx->fd = -1` and a failure
  abbrev pub unopened : ℕ → State → Changed os
  unopened e h = (Result.failure e, record { fd = negsuc 0 }, h)

  -- `pdi_led_open_by_name`: opening the path
  unfoldable pub led_open_path : Option Text → State → Changed os
  led_open_path none h = unopened invalid_arg h
  led_open_path (some path) h = led_open (some path) h

  -- what follows the search, with the discovery context
  unfoldable pub led_open_found : Result DeviceInfo → State → Changed os
  led_open_found (Result.failure e) h = unopened e h
  led_open_found (Result.success info) h =
      if not (info.device_type == type_led)
      then unopened no_device h
      else led_open_path (device_path (text "/dev/pdm/led") info.index) h

  unfoldable pub led_open_searched : Context → Result DeviceInfo × State → Changed os
  led_open_searched ctl (ret, h) = led_open_found ret (ctl_close os ctl h).2

  -- what follows the opening of the discovery device
  unfoldable pub led_open_with : Option Text → Changed os → Changed os
  led_open_with name (Result.failure e, ctl, h) = unopened e h
  led_open_with name (Result.success n, ctl, h) =
      led_open_searched ctl (get_device_by_name os (some ctl) name true h)

  -- `pdi_led_open_by_name` on a context that is not NULL
  unfoldable pub led_open_by_name : Option Text → State → Changed os
  led_open_by_name none h = unopened invalid_arg h
  led_open_by_name (some name) h = led_open_with (some name) (ctl_open os none h)

  -- `pdi_led_ioctl_checked`
  unfoldable pub led_checked :
      Option Context → LedDriver.Command → State → Result LedDriver.Written × State
  led_checked ctx request h = ioctl_checked led_ioctl ctx request h

  -- `pdi_led_get_info`, `pdi_led_get_state`, `pdi_led_set_brightness`, `pdi_led_enable` and
  -- `pdi_led_disable`
  unfoldable pub led_get_info : Option Context → Bool → State → Result LedDriver.Written × State
  led_get_info ctx false h = (Result.failure invalid_arg, h)
  led_get_info ctx true h = led_checked ctx (LedDriver.Command.ask_info true) h

  unfoldable pub led_get_state :
      Option Context → Option LedDriver.LedState → State → Result LedDriver.Written × State
  led_get_state ctx none h = (Result.failure invalid_arg, h)
  led_get_state ctx (some state) h = led_checked ctx (LedDriver.Command.ask_state (local state)) h

  unfoldable pub led_set_brightness :
      Option Context → ℕ → ℕ → State → Result LedDriver.Written × State
  led_set_brightness ctx index brightness h =
      led_checked ctx
        (LedDriver.Command.set_level (some (record { index = index; brightness = brightness }))) h

  unfoldable pub led_enable : Option Context → ℕ → State → Result LedDriver.Written × State
  led_enable ctx index h = led_checked ctx (LedDriver.Command.enable (some index)) h

  unfoldable pub led_disable : Option Context → ℕ → State → Result LedDriver.Written × State
  led_disable ctx index h = led_checked ctx (LedDriver.Command.disable (some index)) h
