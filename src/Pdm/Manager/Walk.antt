-- ===== src/Pdm/Manager/Walk.antt =====
-- `bus_for_each_dev` of Linux: it calls the function on the devices of the bus, in their order,
-- and stops at the first call that does not return 0.
use lpf.Common.{◌≡◌, refl, Bool, true, false, List, [], ◌∷◌}
use lpf.Pdm.Device.{PdmDevice}

abbrev pub stop_or : {S : Type 0} → Bool × S → (S → S) → S
stop_or (true, s) go = s
stop_or (false, s) go = go s

abbrev pub walk : {S : Type 0} → List PdmDevice → (PdmDevice → S → Bool × S) → S → S
walk [] fn s = s
walk (d ∷ ds) fn s = stop_or (fn d s) (walk ds fn)

pub record DeviceList : Type 1 where
  pub devices : List PdmDevice
  pub for_each_dev : {S : Type 0} → (PdmDevice → S → Bool × S) → S → S
  pub for_each_dev_walk :
      {S : Type 0} (fn : PdmDevice → S → Bool × S) (s : S) → for_each_dev fn s ≡ walk devices fn s

-- The walk itself meets the interface.
abbrev pub listed : List PdmDevice → DeviceList
listed ds = record { devices = ds; for_each_dev = walk ds; for_each_dev_walk = λ fn s. refl }
