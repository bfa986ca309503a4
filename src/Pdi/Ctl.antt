-- ===== src/Pdi/Ctl.antt =====
-- Discovery by user programs: user/pdi/src/pdi_discovery.c.
use lpf.Common.{
  ℕ, zero, suc, ◌+◌, ◌-◌, ◌==◌, ◌++◌, if◌then◌else◌, Bool, true, false, List, [], set, take,
  replicate, length, Option, none, some, pos,
}
use lpf.Common.Text.{Text, text}
use lpf.Pdm.User.{UserPtr}
use lpf.Pdm.Manager.{DeviceInfo, DeviceQuery, NameQuery, ManagerInfo}
use lpf.Pdm.Manager
use lpf.Pdi.{
  Result, Context, Syscalls, invalid_arg, ioctl_checked, Changed, open_device, close_device,
}

abbrev pub default_device : Text
default_device = text "/dev/pdm_manager"

-- A `struct pdm_manager_device_info` after `memset`
abbrev pub zero_info : DeviceInfo
zero_info = record {
  device_type = 0;
  index = 0;
  state = 0;
  last_error = pos 0;
  error_count = 0;
  capabilities = 0;
  name = [];
  driver_name = [];
}

-- What the query holds after the call, if the kernel wrote it.
unfoldable pub found_info : Manager.Written → DeviceInfo
found_info Manager.Written.nothing = zero_info
found_info (Manager.Written.info i) = zero_info
found_info (Manager.Written.device q) = q.info
found_info (Manager.Written.named q) = q.info

-- The pointer to a local variable
abbrev pub local : {A : Type 0} → A → UserPtr A
local a = record { readable = some a; writable = true }

abbrev pub query_at : ℕ → ℕ → DeviceQuery
query_at index caps = record { match_index = index; required_capabilities = caps; info = zero_info }

-- `devices[i] = query.info` unless the array is NULL
unfoldable pub store_info : Option (List DeviceInfo) → ℕ → DeviceInfo → Option (List DeviceInfo)
store_info none i info = none
store_info (some devices) i info = some (set devices i info)

-- `strncpy(query.name, name, 63)` into 64 bytes of zeros
unfoldable pub copy_name : Text → List ℕ
copy_name name = take 63 name ++ replicate (64 - length (take 63 name)) 0

-- `*info = query.info`
unfoldable pub take_info : {S : Type 0} → Result Manager.Written × S → Result DeviceInfo × S
take_info (Result.failure e, h) = (Result.failure e, h)
take_info (Result.success w, h) = (Result.success (found_info w), h)

module _ (os : Syscalls) where
  open os use {State, manager_ioctl}

  unfoldable pub ctl_open : Option Text → State → Changed os
  ctl_open path h = open_device os default_device path h

  unfoldable pub ctl_close : Context → State → Changed os
  ctl_close ctx h = close_device os ctx h

  -- `pdi_ctl_ioctl_checked`
  unfoldable pub ctl_ioctl :
      Option Context → Manager.Command → State → Result Manager.Written × State
  ctl_ioctl ctx request h = ioctl_checked manager_ioctl ctx request h

  -- `pdi_ctl_get_info`
  unfoldable pub ctl_get_info : Option Context → Bool → State → Result Manager.Written × State
  ctl_get_info ctx false h = (Result.failure invalid_arg, h)
  ctl_get_info ctx true h = ctl_ioctl ctx (Manager.Command.get_info true) h

  -- What `pdi_list_devices` stores: the count and the array.
  abbrev pub Listed : Type 0
  Listed = ℕ × Option (List DeviceInfo)

  -- The rest of a round of the loop, with the next round.
  unfoldable pub list_answer :
      (Option (List DeviceInfo) → State → Result Listed × State)
      → ℕ
      → Option (List DeviceInfo)
      → Result Manager.Written × State
      → Result Listed × State
  list_answer next i devices (Result.failure e, h) =
      if i == 0 then (Result.failure e, h) else (Result.success (i, devices), h)
  list_answer next i devices (Result.success w, h) = next (store_info devices i (found_info w)) h

  -- The loop of `pdi_list_devices` from `i` on, for the rounds that are left
  unfoldable pub list_from :
      ℕ → ℕ → Option Context → Option (List DeviceInfo) → State → Result Listed × State
  list_from zero i ctx devices h = (Result.success (i, devices), h)
  list_from (suc n) i ctx devices h =
      list_answer (λ d s. list_from n (i + 1) ctx d s) i devices
        (ctl_ioctl ctx (Manager.Command.get_device (local (query_at i 0))) h)

  unfoldable pub list_devices :
      Option Context → Option (List DeviceInfo) → Option ℕ → State → Result Listed × State
  list_devices ctx devices none h = (Result.failure invalid_arg, h)
  list_devices ctx devices (some requested) h = list_from requested 0 ctx devices h

  unfoldable pub get_device_by_name :
      Option Context → Option Text → Bool → State → Result DeviceInfo × State
  get_device_by_name ctx none info h = (Result.failure invalid_arg, h)
  get_device_by_name ctx (some name) false h = (Result.failure invalid_arg, h)
  get_device_by_name ctx (some name) true h =
      let query : NameQuery = record { name = copy_name name; info = zero_info } in
      take_info (ctl_ioctl ctx (Manager.Command.get_device_by_name (local query)) h)

  unfoldable pub get_device_by_capability :
      Option Context → ℕ → ℕ → Bool → State → Result DeviceInfo × State
  get_device_by_capability ctx caps index false h = (Result.failure invalid_arg, h)
  get_device_by_capability ctx caps index true h =
      if caps == 0
      then (Result.failure invalid_arg, h)
      else take_info
          (ctl_ioctl ctx (Manager.Command.get_device_by_capability (local (query_at index caps))) h)
