-- ===== src/Pdi/Paths.antt =====
-- The device file that opening by name opens: user/pdi/src/pdi_led.c and pdi_mcu.c.
use lpf.Common.{
  ℕ, ◌^◌, ◌≤◌, ◌<◌, ◌≡◌, refl, ap, ◌∙◌, ◌==◌, ◌++◌, not, if◌then◌else◌, if_true, ltb, lt→ltb, true,
  [], take, length, length-append, Option, none, some, ℤ, pos, negsuc, arith,
}
use lpf.Common.Text.{Text, text}
use lpf.Common.Decimal.{digits, length-digits, value, value-digits}
use lpf.Pdm.Device.{PdmDevice, type_led, type_mcu}
use lpf.Pdm.Manager.{DeviceInfo, c_string, fill_device_info}
use lpf.Pdm.Manager.Walk.{DeviceList}
use lpf.Pdm.Manager.Names.{first, named}
use lpf.Pdi.{
  Result, Context, Syscalls, no_device, Changed, opened, open_device, close_device, closed,
  device_path,
}
use lpf.Pdi.Ctl.{default_device, ctl_open, ctl_close, get_device_by_name}
use lpf.Pdi.Led.{
  unopened, led_open, led_open_path, led_open_found, led_open_searched, led_open_with,
  led_open_by_name,
}
use lpf.Pdi.Mcu.{
  mcu_open, mcu_open_path, mcu_open_found, mcu_open_searched, mcu_open_with, mcu_open_by_name,
}
use lpf.Pdi.Listing.{Serves}
use lpf.Pdi.Lookup.{described, get_device_by_name-first}

-- The path fits, whatever the index.
device_path-fits :
    (prefix : Text) (index : ℕ)
    → length prefix ≤ 53
    → device_path prefix index ≡ some (prefix ++ digits 10 index [])
unfolding device_path
device_path-fits prefix index short = if_true (ltb (length (prefix ++ digits 10 index [])) 64) _ _ (
    lt→ltb (length (prefix ++ digits 10 index [])) 64
      (omega (arith, short, length-append prefix (digits 10 index []), length-digits 10 index [])))

module _ (os : Syscalls) (bus : DeviceList) (opens : ℕ) (fd : ℕ) (h1 : os.State) where
  abbrev ctl : Context
  ctl = record { fd = pos fd }

  -- The system after the discovery device was closed.
  abbrev pub after : os.State
  after = (os.sys_close (pos fd) h1).1

  -- What opening by name comes to for the device that was found.
  abbrev pub opens_node : ℕ → Text → Option PdmDevice → Changed os
  opens_node kind prefix none = unopened os no_device after
  opens_node kind prefix (some d) =
      if not (d.device_type == kind)
      then unopened os no_device after
      else opened os (os.sys_open (prefix ++ digits 10 (fill_device_info d).index []) after)

  found :
      (name : Text)
      → Serves os bus opens ctl h1
      → c_string (take 63 name) ≡ take 63 name
      → get_device_by_name os (some ctl) (some name) true h1
        ≡ described h1 (first (named (take 63 name)) bus.devices)
  found name serves whole = get_device_by_name-first os bus opens ctl h1 name serves whole

  closed_state : (r : ℤ × os.State) → (closed os r).2 ≡ r.1
  unfolding closed
  closed_state (pos m, s) = refl
  closed_state (negsuc e, s) = refl

  after_close : (ctl_close os ctl h1).2 ≡ after
  unfolding ctl_close close_device
  after_close = closed_state (os.sys_close (pos fd) h1)

  led_end :
      (o : Option PdmDevice)
      → led_open_searched os ctl (described h1 o) ≡ opens_node type_led (text "/dev/pdm/led") o
  unfolding led_open_searched led_open_found led_open_path led_open open_device fill_device_info
  led_end none = ap (unopened os no_device) after_close
  led_end (some d) =
      ap
        (λ (s : os.State).
          if not (d.device_type == type_led)
          then unopened os no_device s
          else led_open_path os (device_path (text "/dev/pdm/led") (fill_device_info d).index) s)
        after_close
      ∙ ap
          (λ (o : Option Text).
            if not (d.device_type == type_led)
            then unopened os no_device after
            else led_open_path os o after)
          (device_path-fits (text "/dev/pdm/led") (fill_device_info d).index (omega arith))

  mcu_end :
      (o : Option PdmDevice)
      → mcu_open_searched os ctl (described h1 o) ≡ opens_node type_mcu (text "/dev/pdm/mcu") o
  unfolding mcu_open_searched mcu_open_found mcu_open_path mcu_open open_device fill_device_info
  mcu_end none = ap (unopened os no_device) after_close
  mcu_end (some d) =
      ap
        (λ (s : os.State).
          if not (d.device_type == type_mcu)
          then unopened os no_device s
          else mcu_open_path os (device_path (text "/dev/pdm/mcu") (fill_device_info d).index) s)
        after_close
      ∙ ap
          (λ (o : Option Text).
            if not (d.device_type == type_mcu)
            then unopened os no_device after
            else mcu_open_path os o after)
          (device_path-fits (text "/dev/pdm/mcu") (fill_device_info d).index (omega arith))

  -- If the discovery device can be opened and is the kernel's, then opening an LED or an MCU by its
  -- name, a C string that is cut to 63 bytes, closes the discovery device and opens the file
  -- /dev/pdm/led<n> or mcu<n> of the first visible device of that name, where the decimal digits <n>
  -- spell its index; it fails with ENODEV, and opens nothing, if there is none or it is of another type.
  pub open_by_name-opens_node :
      (name : Text) (h : os.State)
      → os.sys_open default_device h ≡ (pos fd, h1)
      → Serves os bus opens (record { fd = pos fd }) h1
      → c_string (take 63 name) ≡ take 63 name
      → (led_open_by_name os (some name) h
          ≡ opens_node type_led (text "/dev/pdm/led") (first (named (take 63 name)) bus.devices))
        × (mcu_open_by_name os (some name) h
            ≡ opens_node type_mcu (text "/dev/pdm/mcu") (first (named (take 63 name)) bus.devices))
        × ((index : ℕ) → index < 2 ^ 32 → value 0 (digits 10 index []) ≡ index)
  unfolding led_open_by_name led_open_with mcu_open_by_name mcu_open_with ctl_open open_device value
      opened
  open_by_name-opens_node name h first_open serves whole = (
    ap (λ (r : ℤ × os.State). led_open_with os (some name) (opened os r)) first_open
        ∙ ap (λ (r : Result DeviceInfo × os.State). led_open_searched os ctl r)
            (found name serves whole)
        ∙ led_end (first (named (take 63 name)) bus.devices),
    ap (λ (r : ℤ × os.State). mcu_open_with os (some name) (opened os r)) first_open
        ∙ ap (λ (r : Result DeviceInfo × os.State). mcu_open_searched os ctl r)
            (found name serves whole)
        ∙ mcu_end (first (named (take 63 name)) bus.devices),
    λ index few. value-digits 10 index [] (omega (arith, few)),
  )
