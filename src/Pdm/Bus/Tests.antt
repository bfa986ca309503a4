-- ===== src/Pdm/Bus/Tests.antt =====
-- Runs of the PDM bus and its devices on concrete drivers and ids.
use lpf.Common.{ℕ, ◌≡◌, refl, ap, subst, ◌+◌, true, false, [], ◌∷◌, Option, none, some, ℤ, ret_ok}
use lpf.Common.Text.{text}
use lpf.Pdm.Device.{PdmDevice, alloc, type_led}
use lpf.Pdm.Ids.{Allocators, bind, unbind}
use lpf.Pdm.Ids.Listed.{listed_ida}
use lpf.Pdm.Ids.Unique.{Holder, put}
use lpf.Pdm.Bus.{Driver, device_match, register_driver, device_probe, device_remove}
use lpf.Pdm.Bus.Probe.{SameId, LeavesIds, Reachable, Reachable-unique}
use lpf.Pdm.Bus.Outcome.{Settled, device_probe-Settled}

abbrev example_probe : PdmDevice → ℤ × PdmDevice
example_probe d = (ret_ok, record d { capabilities = d.capabilities + 8 })

abbrev led_driver : Driver
led_driver = record {
  name = text "pdm-led";
  device_type = type_led;
  capabilities = 1;
  match_test = none;
  of_match_table = some (text "pdm,led" ∷ text "pdm,led-gpio" ∷ [] ∷ []);
  driver_of_match_table = none;
  probe = some example_probe;
  remove = none;
  suspend = none;
  resume = none;
}

unfoldable spare : PdmDevice
unfolding alloc
spare = record alloc { dev_name = text "led"; compatible = some (text "pdm,led") }

abbrev spares : ℕ → PdmDevice
spares i = spare

unfoldable empty_ids : Allocators listed_ida
empty_ids = record { pools = λ t. []; counts = λ t. 0 }

spare-free : spare.id_allocated ≡ false
unfolding spare
spare-free = refl

abbrev the_probe : Option (PdmDevice → ℤ × PdmDevice) → PdmDevice → ℤ × PdmDevice
the_probe none = example_probe
the_probe (some f) = f

led_driver-LeavesIds : LeavesIds led_driver
unfolding SameId
led_driver-LeavesIds = record {
  on_probe = λ f e d.
      subst (λ (g : PdmDevice → ℤ × PdmDevice). SameId d (g d).1) (ap the_probe e)
        (refl, refl, refl);
  on_remove = λ d. (refl, refl, refl);
}

device_probe-Settled_example :
    let (ret, d, a) = device_probe listed_ida 7 (some led_driver) spare empty_ids in
    Settled type_led ret d
    × ((e : PdmDevice) (b : Allocators listed_ida)
        → (device_remove listed_ida (some led_driver) e b).0.id_allocated ≡ false)
device_probe-Settled_example =
    device_probe-Settled listed_ida 7 led_driver spare empty_ids led_driver-LeavesIds spare-free

abbrev first_probe : ℤ × PdmDevice × Allocators listed_ida
first_probe = device_probe listed_ida 7 (some led_driver) spare empty_ids

abbrev second_probe : ℤ × PdmDevice × Allocators listed_ida
second_probe = device_probe listed_ida 8 (some led_driver) spare first_probe.2

abbrev two_bound : ℕ → PdmDevice
two_bound = put listed_ida (put listed_ida spares 3 first_probe.1) 4 second_probe.1

two_bound-Reachable : Reachable listed_ida two_bound second_probe.2
two_bound-Reachable =
    Reachable.probed (put listed_ida spares 3 first_probe.1) first_probe.2 4 8 led_driver
      (Reachable.probed spares empty_ids 3 7 led_driver
        (Reachable.start spares empty_ids (λ i. spare-free)) led_driver-LeavesIds)
      led_driver-LeavesIds

-- The second device gets the next id.
two_bound-Holder : Holder (two_bound 4) type_led 1
unfolding device_probe bind spare alloc empty_ids lpf.Pdm.Bus.probe_with lpf.Pdm.Bus.probe_bound
    lpf.Pdm.Ids.bind_allocated lpf.Pdm.Ids.id_alloc lpf.Pdm.Ids.get_allocator lpf.Pdm.Ids.count_id
    lpf.Pdm.Ids.ida_call lpf.Pdm.Bus.finish_probe
two_bound-Holder = (refl, refl, refl)

Reachable-unique_example :
    let i : ℕ = 4 in (i ≡ i) × (listed_ida.taken (second_probe.2.pools type_led) 1 ≡ true)
Reachable-unique_example =
    Reachable-unique listed_ida two_bound second_probe.2 two_bound-Reachable 4 4 type_led 1
      two_bound-Holder two_bound-Holder
