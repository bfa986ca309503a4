-- ===== src/Pdm/Led.antt =====
-- kernel/pdm/drivers/led/pdm_led.c: the LED driver. The backend is a parameter; the device tree
-- node is what the driver reads of it; the mutex of the instance is how often it is held.
pub mod Backend
pub mod Config
pub mod Ioctl
pub mod Lifecycle
pub mod Probe
pub mod Gpio
pub mod Pwm
mod Tests
use Backend.{Hardware, Setting}
use lpf.Common.{
  ℕ, ◌+◌, ◌-◌, ◌<◌, ltb, ◌==◌, ◌&&◌, ◌||◌, if◌then◌else◌, Bool, true, false, not, List, Option,
  none, some, is_some, ℤ, is_zero, ret_ok, einval, erange, efault, enodev, enomem, enotty,
  eopnotsupp, bit_or,
}
use lpf.Common.Text.{Text, text, same_string}
use lpf.Pdm.Device.{PdmDevice, type_led}
use lpf.Pdm.Registry.{BackendEntry, backend_find}
use lpf.Pdm.User.{UserPtr, Reply, copy_to_user}

-- PDM_LED_DEFAULT_MAX_BRIGHTNESS
abbrev pub default_max_brightness : ℕ
default_max_brightness = 255

-- PDM_BACKEND_CLASS_CONTROL
abbrev pub class_control : ℕ
class_control = 1

-- `struct pdm_led_instance`, with `online` and `lock` of its base; `can_apply` says that there are
-- operations with an `apply`.
pub record LedInstance : Type 0 where
  pub online : Bool
  pub lock : ℕ
  pub can_apply : Bool
  pub brightness : ℕ
  pub max_brightness : ℕ
  pub enabled : ℕ

-- The properties of the node that the driver reads.
pub record LedNode : Type 0 where
  pub max_brightness : Option ℕ
  pub default_brightness : Option ℕ
  pub default_state : Option Text

-- `struct pdm_led_info` and `struct pdm_led_state`
pub record LedInfo : Type 0 where
  pub abi_version : ℕ
  pub module_version_major : ℕ
  pub module_version_minor : ℕ
  pub module_version_patch : ℕ
  pub open_count : ℕ
  pub max_devices : ℕ

pub record LedState : Type 0 where
  pub index : ℕ
  pub brightness : ℕ
  pub max_brightness : ℕ
  pub enabled : ℕ

pub record LedBrightness : Type 0 where
  pub index : ℕ
  pub brightness : ℕ

-- `pdm_led_is_generic_compatible`
unfoldable pub is_generic_compatible : Option Text → Bool
is_generic_compatible none = true
is_generic_compatible (some c) =
    same_string c (text "pdm,led") || same_string c (text "vendor,pdm-led")

-- `pdm_led_match` of a device that is no null pointer
unfoldable pub led_match : List BackendEntry → PdmDevice → Bool
led_match entries d =
    if is_generic_compatible d.compatible
    then true
    else is_some (backend_find type_led class_control d.compatible entries)

-- `pdm_led_read_dt_config`, in the order of its three properties.
unfoldable pub read_max : Option ℕ → LedInstance → ℤ × LedInstance
read_max none inst = (ret_ok, inst)
read_max (some value) inst =
    if value == 0 then (einval, inst) else (ret_ok, record inst { max_brightness = value })

unfoldable pub read_brightness : Option ℕ → LedInstance → ℤ × LedInstance
read_brightness none inst = (ret_ok, inst)
read_brightness (some value) inst =
    if ltb inst.max_brightness value
    then (erange, inst)
    else (ret_ok, record inst { brightness = value })

unfoldable pub read_state : Option Text → LedInstance → ℤ × LedInstance
read_state none inst =
    (ret_ok, if not (inst.brightness == 0) then record inst { enabled = 1 } else inst)
read_state (some s) inst =
    if same_string s (text "on")
    then (
      ret_ok,
      record inst {
        enabled = 1;
        brightness = if inst.brightness == 0 then inst.max_brightness else inst.brightness;
      },
    )
    else if same_string s (text "off")
    then (ret_ok, record inst { enabled = 0 })
    else if same_string s (text "keep")
    then (ret_ok, record inst { enabled = if inst.brightness == 0 then 0 else 1 })
    else (einval, inst)

-- The next part, if the one before returned 0.
unfoldable pub and_then : ℤ × LedInstance → (LedInstance → ℤ × LedInstance) → ℤ × LedInstance
and_then (ret, inst) next = if is_zero ret then next inst else (ret, inst)

unfoldable pub read_node : Option LedNode → LedInstance → ℤ × LedInstance
read_node none inst = (ret_ok, inst)
read_node (some np) inst =
    and_then (and_then (read_max np.max_brightness inst) (read_brightness np.default_brightness))
      (read_state np.default_state)

unfoldable pub read_dt_config : Option LedNode → LedInstance → ℤ × LedInstance
read_dt_config np inst =
    read_node np
      (record inst { max_brightness = default_max_brightness; brightness = 0; enabled = 0 })

-- `pdm_driver_claim` and `pdm_driver_release` of kernel/include/pdm/registry/pdm_driver.h
unfoldable pub driver_claim : LedInstance → ℤ × LedInstance
driver_claim inst =
    if not inst.online then (enodev, inst) else (ret_ok, record inst { lock = inst.lock + 1 })

unfoldable pub driver_release : LedInstance → LedInstance
driver_release inst = record inst { lock = inst.lock - 1 }

abbrev pub setting_of : LedInstance → Setting
setting_of inst = record {
  brightness = inst.brightness;
  max_brightness = inst.max_brightness;
  enabled = inst.enabled;
}

-- The commands of the device with their arguments; `other` is any other command.
pub data Command : Type 0 where
  ask_info : Bool → Command
  ask_state : UserPtr LedState → Command
  set_level : Option LedBrightness → Command
  enable : Option ℕ → Command
  disable : Option ℕ → Command
  other : Command

pub data Written : Type 0 where
  nothing : Written
  info : LedInfo → Written
  state : LedState → Written

unfoldable pub written : {A : Type 0} → (A → Written) → Reply A → ℤ × Written
written f (ret, none) = (ret, Written.nothing)
written f (ret, some a) = (ret, f a)

-- `pdm_led_get_info`, from the counts of open files and of devices
unfoldable pub get_info : ℕ → ℕ → Bool → Reply LedInfo
get_info opens devices writable = copy_to_user writable (record {
  abi_version = 0x1_0000;
  module_version_major = 1;
  module_version_minor = 0;
  module_version_patch = 0;
  open_count = opens;
  max_devices = devices;
})

-- `pdm_led_get_state`
unfoldable pub state_locked : LedState → Bool → ℤ × LedInstance → Reply LedState × LedInstance
state_locked s writable (ret, inst) =
    if is_zero ret
    then (
      copy_to_user writable (record s {
        brightness = inst.brightness;
        max_brightness = inst.max_brightness;
        enabled = inst.enabled;
      }),
      driver_release inst,
    )
    else ((ret, none), inst)

unfoldable pub get_state : Option LedState → Bool → LedInstance → Reply LedState × LedInstance
get_state none writable inst = ((efault, none), inst)
get_state (some s) writable inst = state_locked s writable (driver_claim inst)

module _ (hw : Hardware) where
  open hw use {State, setup, cleanup, apply}

  -- `pdm_led_apply_locked`
  unfoldable pub apply_locked : LedInstance → State → ℤ × State
  apply_locked inst h = if not inst.can_apply then (eopnotsupp, h) else apply (setting_of inst) h

  -- What the two setters do after `apply`: the old values come back if it failed.
  unfoldable pub keep_or_restore : LedInstance → LedInstance → ℤ × State → ℤ × LedInstance × State
  keep_or_restore old new (ret, h) = (
    ret,
    driver_release (
        if is_zero ret
        then new
        else record new { brightness = old.brightness; enabled = old.enabled }),
    h,
  )

  -- `pdm_led_set_brightness`: the part that holds the lock, the checks, and the whole.
  unfoldable pub brightness_locked : ℕ → ℤ × LedInstance → State → ℤ × LedInstance × State
  brightness_locked value (ret, inst) h =
      let lit = record inst {
        brightness = value;
        enabled = if value == 0 then inst.enabled else 1;
      } in
      if is_zero ret then keep_or_restore inst lit (apply_locked lit h) else (ret, inst, h)

  unfoldable pub brightness_checked : LedBrightness → LedInstance → State → ℤ × LedInstance × State
  brightness_checked b inst h =
      if ltb inst.max_brightness b.brightness
      then (erange, inst, h)
      else brightness_locked b.brightness (driver_claim inst) h

  unfoldable pub set_brightness :
      Option LedBrightness → LedInstance → State → ℤ × LedInstance × State
  set_brightness none inst h = (efault, inst, h)
  set_brightness (some b) inst h = brightness_checked b inst h

  -- `pdm_led_set_enabled`; the argument is the index that the code reads and does not use.
  unfoldable pub enabled_locked : Bool → ℤ × LedInstance → State → ℤ × LedInstance × State
  enabled_locked enabled (ret, inst) h =
      let switched = record inst { enabled = if enabled then 1 else 0 } in
      if is_zero ret
      then keep_or_restore inst switched (apply_locked switched h)
      else (ret, inst, h)

  unfoldable pub set_enabled : Option ℕ → Bool → LedInstance → State → ℤ × LedInstance × State
  set_enabled none enabled inst h = (efault, inst, h)
  set_enabled (some index) enabled inst h = enabled_locked enabled (driver_claim inst) h

  -- `pdm_led_ioctl` of a file that has a client: the code, what is written, and the new state.
  unfoldable pub ioctl : ℕ → ℕ → Command → LedInstance → State → ℤ × Written × LedInstance × State
  ioctl opens devices (Command.ask_info w) inst h =
      let r = written Written.info (get_info opens devices w) in (r.0, r.1, inst, h)
  ioctl opens devices (Command.ask_state p) inst h =
      let s = get_state p.readable p.writable inst in
      let r = written Written.state s.0 in (r.0, r.1, s.1, h)
  ioctl opens devices (Command.set_level b) inst h =
      let r = set_brightness b inst h in (r.0, Written.nothing, r.1, r.2)
  ioctl opens devices (Command.enable i) inst h =
      let r = set_enabled i true inst h in (r.0, Written.nothing, r.1, r.2)
  ioctl opens devices (Command.disable i) inst h =
      let r = set_enabled i false inst h in (r.0, Written.nothing, r.1, r.2)
  ioctl opens devices Command.other inst h = (enotty, Written.nothing, inst, h)
