-- ===== src/Pdm/Mcu/Driver.antt =====
-- kernel/pdm/drivers/mcu/pdm_mcu.c: the MCU driver, with the lock of
-- kernel/include/pdm/registry/pdm_driver.h as how often it is held.
use lpf.Common.{
  ℕ, ◌+◌, ◌-◌, ◌%◌, ◌^◌, ltb, ◌||◌, if◌then◌else◌, Bool, false, not, List, Option, none, some, ℤ,
  pos, negsuc, is_neg, is_zero, ret_ok, efault, enodev, enotty, eopnotsupp,
}
use lpf.Common.Text.{Text, text, starts_with}
use lpf.Pdm.Device.{PdmDevice, state_error, state_bound}
use lpf.Pdm.User.{UserPtr, Reply, copy_to_user}
use lpf.Pdm.Mcu.Transport.{Transport, Answer}
use lpf.Pdm.Mcu.{
  McuCommand, protocol_get_version, protocol_get_status, protocol_reset, protocol_command,
}

-- `enum pdm_mcu_state`
abbrev pub mcu_ready : ℕ
mcu_ready = 2

abbrev pub mcu_error : ℕ
mcu_error = 4

abbrev pub mcu_offline : ℕ
mcu_offline = 5

-- `struct pdm_mcu_instance`, with its base; `has_ops` says that `ops` is no null pointer.
pub record McuInstance : Type 0 where
  pub online : Bool
  pub lock : ℕ
  pub has_ops : Bool
  pub state : ℕ
  pub last_error : ℤ
  pub pdm_dev : PdmDevice

-- `struct pdm_mcu_info`
pub record McuInfo : Type 0 where
  pub abi_version : ℕ
  pub module_version_major : ℕ
  pub module_version_minor : ℕ
  pub module_version_patch : ℕ
  pub open_count : ℕ
  pub max_devices : ℕ

-- `enum pdm_mcu_backend_type` and `pdm_mcu_default_compatible`
pub data BackendType : Type 0 where
  uart : BackendType
  can : BackendType
  i2c : BackendType
  spi : BackendType

unfoldable pub default_compatible : BackendType → Text
default_compatible BackendType.uart = text "pdm,mcu-uart"
default_compatible BackendType.can = text "pdm,mcu-can"
default_compatible BackendType.i2c = text "pdm,mcu-i2c"
default_compatible BackendType.spi = text "pdm,mcu-spi"

-- The conversion of a `u32` to `int`.
unfoldable pub to_int : ℕ → ℤ
to_int v = if ltb v (2 ^ 31) then pos v else negsuc (2 ^ 32 - 1 - v)

-- `pdm_mcu_bus_device_id`, from the properties `pdm,id` and `pdm,index` of a node
unfoldable pub bus_device_id : Option (Option ℕ × Option ℕ) → ℤ
bus_device_id none = negsuc 0
bus_device_id (some (some id, index)) = to_int id
bus_device_id (some (none, some index)) = to_int index
bus_device_id (some (none, none)) = negsuc 0

-- `pdm_mcu_has_transport_compatible`
unfoldable pub has_transport_compatible : Option Text → Bool
has_transport_compatible none = false
has_transport_compatible (some c) =
    starts_with c (text "pdm,mcu-") || starts_with c (text "vendor,pdm-mcu-")

-- `pdm_mcu_match` of a device that is no null pointer
unfoldable pub mcu_match : PdmDevice → Bool
mcu_match d = has_transport_compatible d.compatible

-- `pdm_mcu_update_state_locked`
unfoldable pub update_state : McuInstance → ℤ → McuInstance
update_state inst ret =
    if is_neg ret
    then record inst {
      last_error = ret;
      state = if inst.online then mcu_error else mcu_offline;
      pdm_dev = record inst.pdm_dev {
        last_error = ret;
        error_count = (inst.pdm_dev.error_count + 1) % 2 ^ 32;
        state = if inst.online then state_error else inst.pdm_dev.state;
      };
    }
    else record inst {
      last_error = ret_ok;
      state = if inst.online then mcu_ready else mcu_offline;
      pdm_dev = record inst.pdm_dev {
        last_error = ret_ok;
        state = if inst.online then state_bound else inst.pdm_dev.state;
      };
    }

-- `pdm_mcu_claim_device`, with the `pdm_driver_claim` that it calls
unfoldable pub claim_device : McuInstance → ℤ × McuInstance
claim_device inst =
    if not inst.online
    then (enodev, inst)
    else if not inst.has_ops
    then (eopnotsupp, inst)
    else (ret_ok, record inst { lock = inst.lock + 1 })

-- `pdm_mcu_release_device`
unfoldable pub release_device : McuInstance → ℤ → McuInstance
release_device inst ret = let done = update_state inst ret in record done { lock = done.lock - 1 }

-- What a command leaves: its code, what it writes to user space, the instance and the link.
pub record Result (A State : Type 0) : Type 0 where
  pub ret : ℤ
  pub written : Option A
  pub inst : McuInstance
  pub link : State

-- The commands of the device, with what `copy_from_user` reads, or nothing.
pub data Command : Type 0 where
  ask_version : UserPtr ℕ → Command
  ask_status : UserPtr ℕ → Command
  ask_reset : Option ℕ → Command
  ask_command : UserPtr McuCommand → Command
  other : Command

-- What is written to user space.
pub data Written : Type 0 where
  bytes : List ℕ → Written
  struct : McuCommand → Written

-- `pdm_mcu_get_info`
unfoldable pub get_info : ℕ → ℕ → Bool → Reply McuInfo
get_info opens devices writable = copy_to_user writable (record {
  abi_version = 0x1_0000;
  module_version_major = 1;
  module_version_minor = 0;
  module_version_patch = 0;
  open_count = opens;
  max_devices = devices;
})

module _ (link : Transport) where
  open link use {State, setup, cleanup}

  -- The end of a command: the state is updated, the lock is released, and the answer is copied
  -- out if the code is 0.
  unfoldable pub finish : Bool → McuInstance → ℤ → Written → State → Result Written State
  finish writable inst ret out h =
      let r = if is_zero ret then copy_to_user writable out else (ret, none) in
      record { ret = r.0; written = r.1; inst = release_device inst ret; link = h }

  abbrev pub stop : ℤ → McuInstance → State → Result Written State
  stop ret inst h = record { ret = ret; written = none; inst = inst; link = h }

  -- `pdm_mcu_get_version` and `pdm_mcu_get_status`, with the call of the protocol as an argument
  unfoldable pub read_locked :
      Bool → (State → Answer State) → ℤ × McuInstance → State → Result Written State
  read_locked writable ask (ret, inst) h =
      if is_zero ret
      then (let a = ask h in finish writable inst a.ret (Written.bytes a.rx) a.link)
      else stop ret inst h

  unfoldable pub get_version : Option ℕ → Bool → McuInstance → State → Result Written State
  get_version none writable inst h = stop efault inst h
  get_version (some index) writable inst h =
      read_locked writable (protocol_get_version link index) (claim_device inst) h

  unfoldable pub get_status : Option ℕ → Bool → McuInstance → State → Result Written State
  get_status none writable inst h = stop efault inst h
  get_status (some index) writable inst h =
      read_locked writable (protocol_get_status link index) (claim_device inst) h

  -- `pdm_mcu_reset`
  unfoldable pub reset_locked : ℕ → ℤ × McuInstance → State → Result Written State
  reset_locked index (ret, inst) h =
      if is_zero ret
      then (let a = protocol_reset link index h in stop a.ret (release_device inst a.ret) a.link)
      else stop ret inst h

  unfoldable pub reset : Option ℕ → McuInstance → State → Result Written State
  reset none inst h = stop efault inst h
  reset (some index) inst h = reset_locked index (claim_device inst) h

  -- `pdm_mcu_command_ioctl`
  unfoldable pub command_locked : Bool → McuCommand → ℤ × McuInstance → State → Result Written State
  command_locked writable c (ret, inst) h =
      if is_zero ret
      then (let a = protocol_command link c h in finish writable inst a.0 (Written.struct a.1) a.2)
      else stop ret inst h

  unfoldable pub command_ioctl :
      Option McuCommand → Bool → McuInstance → State → Result Written State
  command_ioctl none writable inst h = stop efault inst h
  command_ioctl (some c) writable inst h = command_locked writable c (claim_device inst) h

  -- `pdm_mcu_ioctl` of a file that has a client, less GET_INFO, which touches no instance
  unfoldable pub ioctl : Command → McuInstance → State → Result Written State
  ioctl (Command.ask_version p) inst h = get_version p.readable p.writable inst h
  ioctl (Command.ask_status p) inst h = get_status p.readable p.writable inst h
  ioctl (Command.ask_reset p) inst h = reset p inst h
  ioctl (Command.ask_command p) inst h = command_ioctl p.readable p.writable inst h
  ioctl Command.other inst h = stop enotty inst h
