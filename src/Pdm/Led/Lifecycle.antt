-- ===== src/Pdm/Led/Lifecycle.antt =====
-- Probing and removing an LED device: pdm_led_probe and pdm_led_remove of
-- kernel/pdm/drivers/led/pdm_led.c.
use lpf.Common.{
  ℕ, ◌+◌, ◌-◌, if◌then◌else◌, Bool, true, false, not, Option, none, some, ℤ, is_zero, ret_ok,
  enomem, bit_or,
}
use lpf.Pdm.Led.Backend.{Hardware}
use lpf.Pdm.Led.{LedInstance, LedNode, read_dt_config, apply_locked}

-- The results of `kzalloc` and `pdm_cdev_register` and the capability of the backend.
pub record ProbeArgs : Type 0 where
  pub allocated : Bool
  pub node : Option LedNode
  pub cdev_register : ℤ
  pub capability : ℕ

module _ (hw : Hardware) where
  open hw use {State, setup, cleanup}

  -- What `pdm_led_probe` returns and leaves: the instance if it is kept, the capabilities of the
  -- device, the count of LED devices, and the hardware.
  pub record Probed : Type 0 where
    pub ret : ℤ
    pub instance : Option LedInstance
    pub capabilities : ℕ
    pub device_count : ℕ
    pub hardware : State

  abbrev pub give_up : ℤ → ℕ → ℕ → State → Probed
  give_up ret caps count h = record {
    ret = ret;
    instance = none;
    capabilities = caps;
    device_count = count;
    hardware = h;
  }

  -- The part after `apply`, and after a successful registration.
  unfoldable pub probe_applied : ProbeArgs → LedInstance → ℕ → ℕ → ℤ × State → Probed
  probe_applied args inst caps count (ret, h) =
      if not (is_zero ret)
      then give_up ret caps count (cleanup h)
      else if not (is_zero args.cdev_register)
      then give_up args.cdev_register caps count (cleanup h)
      else record {
        ret = ret_ok;
        instance = some inst;
        capabilities = bit_or caps args.capability;
        device_count = count + 1;
        hardware = h;
      }

  -- The part after `setup`, and after the device tree was read.
  unfoldable pub probe_set_up : ProbeArgs → LedInstance → ℕ → ℕ → ℤ × State → Probed
  probe_set_up args inst caps count (ret, h) =
      if not (is_zero ret)
      then give_up ret caps count h
      else probe_applied args inst caps count (apply_locked hw inst h)

  unfoldable pub probe_configured : ProbeArgs → ℕ → ℕ → State → ℤ × LedInstance → Probed
  probe_configured args caps count h (ret, inst) =
      if not (is_zero ret)
      then give_up ret caps count h
      else probe_set_up args inst caps count (setup h)

  -- `pdm_led_probe`, with the backend that it has selected
  unfoldable pub led_probe : ProbeArgs → ℕ → ℕ → State → Probed
  led_probe args caps count h =
      if not args.allocated
      then give_up enomem caps count h
      else probe_configured args caps count h (
          read_dt_config args.node (record {
            online = true;
            lock = 0;
            can_apply = true;
            brightness = 0;
            max_brightness = 0;
            enabled = 0;
          }))

  -- `pdm_led_remove` of a bound instance, with the count of devices; its mutex is free again.
  unfoldable pub led_remove : LedInstance → ℕ → State → LedInstance × ℕ × State
  led_remove inst count h = (record inst { online = false }, count - 1, cleanup h)
