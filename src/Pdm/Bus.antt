-- ===== src/Pdm/Bus.antt =====
-- kernel/pdm/bus/pdm_bus.c: matching, probing and removing the devices of the PDM bus.
-- The callbacks of a driver are functions on the device; a null callback is `none`.
pub mod Matching
pub mod Probe
pub mod Outcome
mod Tests
use lpf.Common.{
  ℕ, ◌==◌, ◌&&◌, if◌then◌else◌, Bool, true, false, not, List, [], ◌∷◌, Option, none, some, ℤ, pos,
  is_zero, einval, enodev, ret_ok,
}
use lpf.Common.Text.{Text, same_string}
use lpf.Pdm.Device.{PdmDevice, set_state, state_bound, record_error}
use lpf.Pdm.Ids.{Allocators, bind, unbind}
use lpf.Pdm.Ids.Interface.{Ida}

-- `struct pdm_driver`; `driver_of_match_table` is the table of its embedded `struct device_driver`.
pub record Driver : Type 0 where
  pub name : Text
  pub device_type : ℕ
  pub capabilities : ℕ
  pub match_test : Option (PdmDevice → Bool)
  pub of_match_table : Option (List Text)
  pub driver_of_match_table : Option (List Text)
  pub probe : Option (PdmDevice → ℤ × PdmDevice)
  pub remove : Option (PdmDevice → PdmDevice)
  pub suspend : Option (PdmDevice → ℤ × PdmDevice)
  pub resume : Option (PdmDevice → ℤ × PdmDevice)

-- The loop over a match table, which ends at an entry whose string is empty.
unfoldable pub table_has : Text → List Text → Bool
table_has compatible [] = false
table_has compatible ([] ∷ table) = false
table_has compatible ((c ∷ cs) ∷ table) =
    if same_string (c ∷ cs) compatible then true else table_has compatible table

unfoldable pub compatible_in : Option Text → Option (List Text) → Bool
compatible_in none table = false
compatible_in (some compatible) none = false
compatible_in (some compatible) (some table) = table_has compatible table

-- `pdm_bus_match_compatible`
unfoldable pub match_compatible : PdmDevice → Driver → Bool
match_compatible d drv = compatible_in d.compatible drv.driver_of_match_table

-- `pdm_bus_register_driver` of a driver with a name: the table that it fills in, and the call of
-- `driver_register`, which is a parameter.
unfoldable pub fill_table : Option (List Text) → Option (List Text) → Option (List Text)
fill_table none own = own
fill_table (some table) own = some table

unfoldable pub register_driver : (Driver → ℤ) → Driver → ℤ × Driver
register_driver driver_register drv =
    let filled = record drv {
      driver_of_match_table = fill_table drv.driver_of_match_table drv.of_match_table;
    } in
    (driver_register filled, filled)

-- `pdm_bus_device_match_impl`; `of_matches` says that the device has a node of the device tree
-- and `of_driver_match_device` accepts it.
unfoldable pub match_with : Option (PdmDevice → Bool) → Bool → PdmDevice → Driver → Bool
match_with (some f) of_matches d drv = f d
match_with none of_matches d drv = if of_matches then true else match_compatible d drv

unfoldable pub device_match : Bool → PdmDevice → Driver → Bool
device_match of_matches d drv = match_with drv.match_test of_matches d drv

abbrev pub run_remove : Option (PdmDevice → PdmDevice) → PdmDevice → PdmDevice
run_remove none d = d
run_remove (some f) d = f d

module _ (ida : Ida) where
  -- The part of the probe that follows the driver's own.
  unfoldable pub finish_probe : ℕ → ℤ × PdmDevice → Allocators ida → ℤ × PdmDevice × Allocators ida
  finish_probe now (ret, d) a =
      if is_zero ret
      then (ret_ok, record (set_state state_bound d) { last_error = ret_ok }, a)
      else (let u = unbind ida (record_error ret now d) a in (ret, u.0, u.1))

  -- The part that follows the bind.
  unfoldable pub probe_bound :
      ℕ
      → (PdmDevice → ℤ × PdmDevice)
      → ℤ × PdmDevice × Allocators ida
      → ℤ × PdmDevice × Allocators ida
  probe_bound now probe (ret, d, a) =
      if is_zero ret then finish_probe now (probe d) a else (ret, record_error ret now d, a)

  unfoldable pub probe_with :
      ℕ
      → Option (PdmDevice → ℤ × PdmDevice)
      → Driver
      → PdmDevice
      → Allocators ida
      → ℤ × PdmDevice × Allocators ida
  probe_with now none drv d a = (enodev, d, a)
  probe_with now (some f) drv d a =
      probe_bound now f (bind ida drv.device_type drv.capabilities d a)

  -- `pdm_bus_device_probe`: the driver is `dev->driver`.
  unfoldable pub device_probe :
      ℕ → Option Driver → PdmDevice → Allocators ida → ℤ × PdmDevice × Allocators ida
  device_probe now none d a = (einval, d, a)
  device_probe now (some drv) d a = probe_with now drv.probe drv d a

  -- `pdm_bus_device_remove`
  unfoldable pub device_remove :
      Option Driver → PdmDevice → Allocators ida → PdmDevice × Allocators ida
  device_remove none d a = (d, a)
  device_remove (some drv) d a = unbind ida (run_remove drv.remove d) a

abbrev pub run_callback : Option (PdmDevice → ℤ × PdmDevice) → PdmDevice → ℤ × PdmDevice
run_callback none d = (ret_ok, d)
run_callback (some f) d = f d

-- `pdm_bus_device_suspend`
unfoldable pub device_suspend : Option Driver → PdmDevice → ℤ × PdmDevice
device_suspend none d = (ret_ok, d)
device_suspend (some drv) d = run_callback drv.suspend d

-- `pdm_bus_device_resume`
unfoldable pub device_resume : Option Driver → PdmDevice → ℤ × PdmDevice
device_resume none d = (ret_ok, d)
device_resume (some drv) d = run_callback drv.resume d
