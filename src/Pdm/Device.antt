-- ===== src/Pdm/Device.antt =====
-- kernel/include/pdm/bus/pdm_device.h: the device of the PDM bus and its error history.
-- Unsigned fields are numbers with their wrap written out; `int` and `s32` are integers.
use lpf.Common.{
  ℕ, ◌+◌, ◌%◌, ◌^◌, ◌==◌, ◌&&◌, if◌then◌else◌, Bool, false, List, Option, none, get_or, set,
  replicate, ℤ, pos, negsuc, is_zero, eqz,
}
use lpf.Common.Text.{Text}

-- `struct pdm_error_record`
pub record ErrorRecord : Type 0 where
  pub error_code : ℤ
  pub error_type : ℕ
  pub timestamp_ns : ℕ
  pub count : ℕ

-- `struct pdm_device`, with what its embedded `struct device` holds for this code: the name and
-- the name of the driver that it is bound to.
pub record PdmDevice : Type 0 where
  pub dev_name : Text
  pub driver_name : Option Text
  pub compatible : Option Text
  pub device_type : ℕ
  pub capabilities : ℕ
  pub state : ℕ
  pub last_error : ℤ
  pub error_count : ℕ
  pub errors : List ErrorRecord
  pub error_write_index : ℕ
  pub total_error_count : ℕ
  pub id : ℤ
  pub requested_id : ℤ
  pub id_allocated : Bool

-- PDM_ERROR_HISTORY_SIZE
abbrev pub error_history_size : ℕ
error_history_size = 8

-- `enum pdm_error_type`
abbrev pub error_type_probe : ℕ
error_type_probe = 0

abbrev pub error_type_runtime : ℕ
error_type_runtime = 1

abbrev pub error_type_pm : ℕ
error_type_pm = 2

-- `enum pdm_manager_device_type`
abbrev pub type_invalid : ℕ
type_invalid = 0

abbrev pub type_mcu : ℕ
type_mcu = 1

abbrev pub type_led : ℕ
type_led = 2

-- `enum pdm_manager_device_state`
abbrev pub state_registered : ℕ
state_registered = 0

abbrev pub state_bound : ℕ
state_bound = 1

abbrev pub state_error : ℕ
state_error = 2

-- PDM_MANAGER_DEVICE_CAP_NONE
abbrev pub cap_none : ℕ
cap_none = 0

abbrev pub zero_record : ErrorRecord
zero_record = record { error_code = pos 0; error_type = 0; timestamp_ns = 0; count = 0 }

abbrev pub minus_one : ℤ
minus_one = negsuc 0

-- `pdm_device_alloc`, where the memory is there; the name comes with the registration.
unfoldable pub alloc : PdmDevice
alloc = record {
  dev_name = List.[];
  driver_name = none;
  compatible = none;
  device_type = type_invalid;
  capabilities = 0;
  state = state_registered;
  last_error = pos 0;
  error_count = 0;
  errors = replicate error_history_size zero_record;
  error_write_index = 0;
  total_error_count = 0;
  id = minus_one;
  requested_id = minus_one;
  id_allocated = false;
}

-- `pdm_device_set_state`
abbrev pub set_state : ℕ → PdmDevice → PdmDevice
set_state s d = record d { state = s }

-- `pdm_device_set_requested_id`
unfoldable pub set_requested_id : ℤ → PdmDevice → PdmDevice
set_requested_id id d =
    if d.id_allocated
    then record d { requested_id = id }
    else record d { requested_id = id; id = id }

-- The slot that holds the last error, and the one for a new error.
unfoldable pub same_error : ℤ → ℕ → ErrorRecord → Bool
same_error error error_type r = eqz r.error_code error && r.error_type == error_type

unfoldable pub count_again : ℕ → ErrorRecord → ErrorRecord
count_again now r = record r { count = (r.count + 1) % 2 ^ 32; timestamp_ns = now }

unfoldable pub first_record : ℤ → ℕ → ℕ → ErrorRecord
first_record error error_type now = record {
  error_code = error;
  error_type = error_type;
  timestamp_ns = now;
  count = 1;
}

abbrev pub next_slot : ℕ → ℕ
next_slot idx = (idx + 1) % error_history_size

-- The write of the error into the history.
unfoldable pub write_history : ℤ → ℕ → ℕ → PdmDevice → PdmDevice
write_history error error_type now d =
    let last = get_or d.errors d.error_write_index zero_record in
    if same_error error error_type last
    then record d { errors = set d.errors d.error_write_index (count_again now last) }
    else record d {
      errors = set d.errors (next_slot d.error_write_index) (first_record error error_type now);
      error_write_index = next_slot d.error_write_index;
    }

-- `pdm_device_record_error_type`; `now` is `ktime_get_ns()`.
unfoldable pub record_error_type : ℤ → ℕ → ℕ → PdmDevice → PdmDevice
record_error_type error error_type now d =
    if is_zero error
    then d
    else (let w = write_history error error_type now d in
        record w {
          last_error = error;
          error_count = (w.error_count + 1) % 2 ^ 32;
          total_error_count = (w.total_error_count + 1) % 2 ^ 32;
          state = state_error;
        })

-- `pdm_device_record_error`
unfoldable pub record_error : ℤ → ℕ → PdmDevice → PdmDevice
record_error error now d = record_error_type error error_type_runtime now d
