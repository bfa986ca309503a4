-- ===== src/Pdm/Mcu/Lifecycle.antt =====
-- Probing and removing an MCU device: pdm_mcu_probe and pdm_mcu_remove of
-- kernel/pdm/drivers/mcu/pdm_mcu.c.
use lpf.Common.{
  ℕ, ◌+◌, ◌-◌, if◌then◌else◌, Bool, true, false, not, List, Option, none, some, ℤ, is_zero, ret_ok,
  enodev, enomem, bit_or,
}
use lpf.Pdm.Device.{PdmDevice, type_mcu}
use lpf.Pdm.Registry.{BackendEntry, backend_find}
use lpf.Pdm.Mcu.Transport.{Transport}
use lpf.Pdm.Mcu.Driver.{McuInstance, mcu_ready, mcu_offline}

module _ (link : Transport) where
  open link use {State, setup, cleanup}

  -- What `pdm_mcu_probe` returns and leaves: the instance if it is kept, the capabilities of the
  -- device, the count of MCU devices, and the link.
  pub record Probed : Type 0 where
    pub ret : ℤ
    pub instance : Option McuInstance
    pub capabilities : ℕ
    pub device_count : ℕ
    pub hardware : State

  abbrev pub give_up : ℤ → PdmDevice → ℕ → State → Probed
  give_up ret d count h = record {
    ret = ret;
    instance = none;
    capabilities = d.capabilities;
    device_count = count;
    hardware = h;
  }

  -- The part after `setup`; `cdev_register` is what the registration returns.
  unfoldable pub probe_set_up : ℤ → PdmDevice → ℕ → ℤ × State → Probed
  probe_set_up cdev_register d count (ret, h) =
      if not (is_zero ret)
      then give_up ret d count h
      else if not (is_zero cdev_register)
      then give_up cdev_register d count (cleanup h)
      else record {
        ret = ret_ok;
        instance = some (record {
          online = true;
          lock = 0;
          has_ops = true;
          state = mcu_ready;
          last_error = ret_ok;
          pdm_dev = record d { capabilities = bit_or d.capabilities link.capability };
        });
        capabilities = bit_or d.capabilities link.capability;
        device_count = count + 1;
        hardware = h;
      }

  -- The part after the lookup of the backend, whose operations are the transport.
  unfoldable pub probe_found : Option BackendEntry → ℤ → PdmDevice → ℕ → State → Probed
  probe_found none cdev_register d count h = give_up enodev d count h
  probe_found (some entry) cdev_register d count h = probe_set_up cdev_register d count (setup h)

  -- `pdm_mcu_probe`; `allocated` says that `kzalloc` succeeds.
  unfoldable pub mcu_probe : Bool → List BackendEntry → ℤ → PdmDevice → ℕ → State → Probed
  mcu_probe allocated entries cdev_register d count h =
      if not allocated
      then give_up enomem d count h
      else probe_found (backend_find type_mcu 0 d.compatible entries) cdev_register d count h

  -- `pdm_mcu_remove` of a bound instance, with the count of devices; its mutex is free again.
  unfoldable pub mcu_remove : McuInstance → ℕ → State → McuInstance × ℕ × State
  mcu_remove inst count h =
      (record inst { online = false; state = mcu_offline }, count - 1, cleanup h)
