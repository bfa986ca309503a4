-- ===== src/Pdm/Module.antt =====
-- kernel/pdm/pdm.c: the start and the stop of the PDM module, as a trace of its six parts: ids,
-- bus, device files, backends, drivers and mock devices, numbered from 0 in the order of the start.
pub mod Order
mod Tests
use lpf.Common.{ℕ, if◌then◌else◌, Bool, not, List, [], ◌∷◌, ℤ, is_zero, ret_ok}
use lpf.Pdm.Registry.{Event}

-- What the init functions of the parts return.
pub record Codes : Type 0 where
  pub ids : ℤ
  pub bus : ℤ
  pub cdev : ℤ
  pub backends : ℤ
  pub drivers : ℤ
  pub mocks : ℤ

-- The labels of the error path, each with those below it.
abbrev pub err_id : List Event
err_id = Event.stopped 0 ∷ []

abbrev pub err_bus : List Event
err_bus = Event.stopped 1 ∷ err_id

abbrev pub err_cdev : List Event
err_cdev = Event.stopped 2 ∷ err_bus

abbrev pub err_backends : List Event
err_backends = Event.stopped 3 ∷ err_cdev

abbrev pub err_drivers : List Event
err_drivers = Event.stopped 4 ∷ err_backends

-- The init of part `i`: an error goes to a label, and else the next follows.
unfoldable pub start_part : ℕ → ℤ → List Event → ℤ × List Event → ℤ × List Event
start_part i ret label (next_ret, events) =
    if not (is_zero ret)
    then (ret, Event.failed i ret ∷ label)
    else (next_ret, Event.started i ∷ events)

-- `pdm_module_init`
unfoldable pub module_init : Codes → ℤ × List Event
module_init c = start_part 0 c.ids [] (
    start_part 1 c.bus err_id (
      start_part 2 c.cdev err_bus (
        start_part 3 c.backends err_cdev
          (start_part 4 c.drivers err_backends (start_part 5 c.mocks err_drivers (ret_ok, []))))))

-- `pdm_module_exit`
unfoldable pub module_exit : List Event
module_exit =
    Event.stopped 5
    ∷ Event.stopped 3
    ∷ Event.stopped 4
    ∷ Event.stopped 2
    ∷ Event.stopped 1
    ∷ Event.stopped 0
    ∷ []
