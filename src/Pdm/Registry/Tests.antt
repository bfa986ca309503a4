-- ===== src/Pdm/Registry/Tests.antt =====
-- Runs of the registries on concrete entries.
use lpf.Common.{◌≡◌, refl, ◌++◌, true, false, List, [], ◌∷◌, none, some, is_zero, eio, ret_ok}
use lpf.Common.Text.{text}
use lpf.Pdm.Device.{type_led, type_mcu}
use lpf.Pdm.Registry.{
  Event, DriverEntry, BackendEntry, driver_has_exit, backend_has_exit, driver_entries_init,
  driver_entries_exit, backend_entries_init, backend_entries_exit, backend_find,
}
use lpf.Pdm.Registry.Balance.{AllLoad, run, running, driver_entries_init-driver_entries_exit}

abbrev drivers : List DriverEntry
drivers =
    record { name = some (text "led"); init = some ret_ok; exit = true }
    ∷ record { name = some (text "mcu"); init = some eio; exit = true }
    ∷ []

abbrev gpio : BackendEntry
gpio = record {
  name = some (text "led_gpio");
  device_type = type_led;
  backend_class = 1;
  matches = some (text "pdm,led-gpio" ∷ [] ∷ []);
  ops = some 1;
  init = none;
  exit = false;
}

abbrev uart : BackendEntry
uart = record {
  name = some (text "mcu_uart");
  device_type = type_mcu;
  backend_class = 0;
  matches = some (text "pdm,mcu-uart" ∷ [] ∷ []);
  ops = some 2;
  init = some ret_ok;
  exit = true;
}

abbrev backends : List BackendEntry
backends = gpio ∷ uart ∷ []

-- The second driver fails, and the first is stopped.
failing_load :
    driver_entries_init drivers
    ≡ (eio, 0, Event.started 0 ∷ Event.failed 1 eio ∷ Event.stopped 0 ∷ [])
unfolding driver_entries_init lpf.Pdm.Registry.init_loop lpf.Pdm.Registry.init_one
    lpf.Pdm.Registry.finish_init lpf.Pdm.Registry.exit_count driver_has_exit
    lpf.Pdm.Registry.valid_driver
failing_load = refl

driver_entries_init-driver_entries_exit_example :
    let (ret, n, events) = driver_entries_init drivers in
    (is_zero ret ≡ true → AllLoad drivers)
    × (AllLoad drivers → is_zero ret ≡ true)
    × (is_zero ret ≡ true
        → (n ≡ 2)
          × (run [] events ≡ some (running (driver_has_exit drivers) 2))
          × (run [] (events ++ (driver_entries_exit drivers n).1) ≡ some []))
    × (is_zero ret ≡ false → (n ≡ 0) × (run [] events ≡ some []))
driver_entries_init-driver_entries_exit_example = driver_entries_init-driver_entries_exit drivers
