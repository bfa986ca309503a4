-- ===== src/Pdi/Tests.antt =====
-- Runs of the user library over a system with one visible LED.
use lpf.Common.{
  Bool, negsuc, eqz, ltb, ℤ, not, ◌&&◌, ◌||◌, ℕ, ◌+◌, ◌-◌, ◌^◌, ◌<◌, ◌≡◌, refl, ◌++◌, true, false,
  [], ◌∷◌, take, drop, length, get_elem?, none, some, min, pos, arith,
}
use lpf.Common.Decimal.{digits, value}
use lpf.Common.Text.{text}
use lpf.Pdm.Device.{PdmDevice, alloc, state_bound, type_led, type_mcu}
use lpf.Pdm.Manager.{device_visible, ioctl, c_string}
use lpf.Pdm.Led as LedDriver
use lpf.Pdm.Manager.Walk.{listed, DeviceList}
use lpf.Pdm.Manager.Find.{select, offers}
use lpf.Pdm.Manager.Names.{first, named}
use lpf.Pdi.{Result, Context, Syscalls}
use lpf.Pdi.Ctl.{zero_info, list_devices, get_device_by_name, get_device_by_capability}
use lpf.Pdi.Led.{led_open_by_name}
use lpf.Pdi.Mcu.{mcu_open_by_name}
use lpf.Pdi.Listing.{Serves, shown, list_devices-select}
use lpf.Pdi.Lookup.{described, get_device_by_name-first, get_device_by_capability-offers}
use lpf.Pdi.Contexts.{FileLaws, Balanced, open_by_name-Balanced}
use lpf.Pdi.Paths.{opens_node, open_by_name-opens_node}

unfoldable led : PdmDevice
unfolding alloc
led = record alloc {
  dev_name = text "led-1";
  state = state_bound;
  device_type = type_led;
  capabilities = 0x1_0100;
  id = pos 3;
  id_allocated = true;
}

unfoldable idle : PdmDevice
unfolding alloc
idle = record alloc { dev_name = text "idle" }

abbrev bus : DeviceList
bus = listed (idle ∷ led ∷ [])

-- A system that counts its open descriptors, and numbers them by this.
abbrev system : Syscalls
system = record {
  State = ℕ;
  sys_open = λ p h. (pos (h + 3), h + 1);
  sys_close = λ fd h. (pos 0, h - 1);
  manager_ioctl = λ fd c h. ((ioctl bus 1 c).0, (ioctl bus 1 c).1, h);
  led_ioctl = λ fd c h. (pos 0, LedDriver.Written.nothing, h);
  mcu_ioctl = λ fd c h. (pos 0, none, h);
}

-- The same with its open descriptors, which are numbered below `next`.
record Files : Type 0 where
  next : ℕ
  has : ℤ → Bool

abbrev below : ℕ → ℤ → Bool
below n (pos k) = ltb k n
below n (negsuc e) = false

abbrev open_in : Files → ℤ → Bool
open_in f d = f.has d && below f.next d

abbrev opening : Files → Files
opening f = record { next = f.next + 1; has = λ d. eqz d (pos f.next) || open_in f d }

abbrev closing : ℤ → Files → Files
closing fd f = record f { has = λ d. not (eqz d fd) && f.has d }

abbrev file_system : Syscalls
file_system = record {
  State = Files;
  sys_open = λ p f. (pos f.next, opening f);
  sys_close = λ fd f. (pos 0, closing fd f);
  manager_ioctl = λ fd c f. ((ioctl bus 1 c).0, (ioctl bus 1 c).1, f);
  led_ioctl = λ fd c f. (pos 0, LedDriver.Written.nothing, f);
  mcu_ioctl = λ fd c f. (pos 0, none, f);
}

unopened : (f : Files) → open_in f (pos f.next) ≡ false
unopened f = ground arith

opening_ok : (f : Files) (d : ℤ) → open_in (opening f) d ≡ (eqz d (pos f.next) || open_in f d)
opening_ok f (pos k) = ground arith
opening_ok f (negsuc e) = ground arith

closing_ok :
    (fd : ℤ) (f : Files) (d : ℤ) → open_in (closing fd f) d ≡ (not (eqz d fd) && open_in f d)
closing_ok fd f d = ground arith

positive : {A : Type 0} → false ≡ true → A
positive e = absurd (cc e)

abbrev opened_files : FileLaws file_system
opened_files = record {
  is_open = open_in;
  sys_open_new = λ p f e. unopened f;
  sys_open_ok = λ p f e. opening_ok f;
  sys_open_failed = λ p f e d. positive e;
  sys_close_files = λ fd f held. closing_ok fd f;
  ioctl_files = λ fd c f d. refl;
}

abbrev three_open : Files
three_open = record { next = 3; has = λ d. true }

abbrev ctl : Context
ctl = record { fd = pos 3 }

served : Serves system bus 1 ctl 1
served = record { valid = refl; answers = λ c. refl }

few : length (select device_visible bus.devices) < 2 ^ 32
unfolding select device_visible led idle alloc
few = omega arith

one_shown : length (select device_visible bus.devices) ≡ 1
unfolding select device_visible led idle alloc
one_shown = refl

list_devices-select_example :
    list_devices system (some ctl) (some (zero_info ∷ zero_info ∷ [])) (some 2) 1 ≡ (
      Result.success (
        min 2 (length (select device_visible bus.devices)),
        some (
            take (min 2 (length (select device_visible bus.devices))) (shown bus)
            ++ drop
                (min 2 (length (select device_visible bus.devices)))
                (zero_info ∷ zero_info ∷ [])),
      ),
      1,
    )
list_devices-select_example =
    (list_devices-select system bus 1 ctl 1 (zero_info ∷ zero_info ∷ []) 2 served few (omega arith)
        (omega arith)).0
      (λ _. omega (arith, one_shown))

no_nul : c_string (text "led-1") ≡ text "led-1"
unfolding c_string
no_nul = refl

get_device_by_name-first_example :
    get_device_by_name system (some ctl) (some (text "led-1")) true 1
    ≡ described 1 (first (named (text "led-1")) bus.devices)
get_device_by_name-first_example =
    get_device_by_name-first system bus 1 ctl 1 (text "led-1") served no_nul

get_device_by_capability-offers_example :
    get_device_by_capability system (some ctl) 0x100 0 true 1
    ≡ described 1 (get_elem? (select (offers 0x100) bus.devices) 0)
get_device_by_capability-offers_example =
    get_device_by_capability-offers system bus 1 ctl 1 0x100 0 served few (omega arith)

open_by_name-Balanced_example :
    Balanced file_system opened_files
      (open_in three_open)
      (led_open_by_name file_system (some (text "led-1")) three_open)
    × Balanced file_system opened_files
        (open_in three_open)
        (mcu_open_by_name file_system (some (text "led-1")) three_open)
open_by_name-Balanced_example =
    open_by_name-Balanced file_system opened_files (some (text "led-1")) three_open

open_by_name-opens_node_example :
    (led_open_by_name system (some (text "led-1")) 0
      ≡ opens_node system bus 1 0 1 type_led
          (text "/dev/pdm/led")
          (first (named (text "led-1")) bus.devices))
    × (mcu_open_by_name system (some (text "led-1")) 0
        ≡ opens_node system bus 1 0 1 type_mcu
            (text "/dev/pdm/mcu")
            (first (named (text "led-1")) bus.devices))
    × ((index : ℕ) → index < 2 ^ 32 → value 0 (digits 10 index []) ≡ index)
open_by_name-opens_node_example =
    open_by_name-opens_node system bus 1 3 1 (text "led-1") 0 refl served no_nul
