-- ===== src/Pdm/Registry.antt =====
-- kernel/pdm/registry: the entries of drivers and of backends, which the linker collects, as lists
-- in the order of the section. What the calls of `init` and `exit` do is a trace of events.
pub mod Balance
pub mod Backends
mod Tests
use lpf.Common.{
  ℕ, zero, suc, ◌+◌, ◌==◌, ◌&&◌, ◌||◌, if◌then◌else◌, Bool, true, false, not, List, [], ◌∷◌, ◌++◌,
  get_elem?, Option, none, some, is_some, ℤ, is_zero, ret_ok, einval,
}
use lpf.Common.Text.{Text, same_string}
use lpf.Pdm.Bus.{table_has}

-- Entry `i` was started, failed to start, or was stopped.
pub data Event : Type 0 where
  started : ℕ → Event
  failed : ℕ → ℤ → Event
  stopped : ℕ → Event

-- `struct pdm_driver_entry`; `init` is what the call would return, `exit` that there is one.
pub record DriverEntry : Type 0 where
  pub name : Option Text
  pub init : Option ℤ
  pub exit : Bool

-- `struct pdm_backend_entry`; the table of operations is named by a number.
pub record BackendEntry : Type 0 where
  pub name : Option Text
  pub device_type : ℕ
  pub backend_class : ℕ
  pub matches : Option (List Text)
  pub ops : Option ℕ
  pub init : Option ℤ
  pub exit : Bool

-- The loop of `pdm_driver_entries_exit_count` and `pdm_backend_entries_exit_count`: from the entry
-- below `count` down to the first, where there is an `exit`.
unfoldable pub exit_count : (ℕ → Bool) → ℕ → List Event
exit_count has_exit zero = []
exit_count has_exit (suc n) =
    if has_exit n then Event.stopped n ∷ exit_count has_exit n else exit_count has_exit n

-- The call of `init`, where there is one, and what follows it; `rest` is the loop's remainder.
unfoldable pub init_one : Option ℤ → ℕ → ℤ × ℕ × List Event → ℤ × ℕ × List Event
init_one none count rest = rest
init_one (some ret) count (r, n, events) =
    if is_zero ret
    then (r, n, Event.started count ∷ events)
    else (ret, count, Event.failed count ret ∷ [])

-- The loop of `pdm_driver_entries_init` and `pdm_backend_entries_init`, from entry `count` on: its
-- check and its call of `init` are arguments. It gives the return code, the count, and the events.
unfoldable pub init_loop :
    {E : Type 0} → (E → Bool) → (E → Option ℤ) → List E → ℕ → ℤ × ℕ × List Event
init_loop valid init [] count = (ret_ok, count, [])
init_loop valid init (e ∷ es) count =
    let rest = init_loop valid init es (count + 1) in
    if not (valid e) then (einval, count, []) else init_one (init e) count rest

-- What is kept after the loop: the code, the number of initialized entries, and the events.
unfoldable pub finish_init : (ℕ → Bool) → ℤ × ℕ × List Event → ℤ × ℕ × List Event
finish_init has_exit (ret, count, events) =
    if is_zero ret then (ret_ok, count, events) else (ret, 0, events ++ exit_count has_exit count)

unfoldable pub valid_driver : DriverEntry → Bool
valid_driver e = is_some e.name && is_some e.init && e.exit

-- Whether entry `i` has an `exit`.
unfoldable pub driver_has_exit : List DriverEntry → ℕ → Bool
driver_has_exit [] i = false
driver_has_exit (e ∷ es) zero = e.exit
driver_has_exit (e ∷ es) (suc i) = driver_has_exit es i

-- `pdm_driver_entries_init`
unfoldable pub driver_entries_init : List DriverEntry → ℤ × ℕ × List Event
driver_entries_init es =
    finish_init (driver_has_exit es) (init_loop valid_driver (λ (e : DriverEntry). e.init) es 0)

-- `pdm_driver_entries_exit`
unfoldable pub driver_entries_exit : List DriverEntry → ℕ → ℕ × List Event
driver_entries_exit es initialized = (0, exit_count (driver_has_exit es) initialized)

unfoldable pub valid_backend : BackendEntry → Bool
valid_backend e =
    is_some e.name
    && is_some e.matches
    && is_some e.ops
    && (if is_some e.init then e.exit else not e.exit)

unfoldable pub backend_has_exit : List BackendEntry → ℕ → Bool
backend_has_exit [] i = false
backend_has_exit (e ∷ es) zero = e.exit
backend_has_exit (e ∷ es) (suc i) = backend_has_exit es i

-- `pdm_backend_entries_init`
unfoldable pub backend_entries_init : List BackendEntry → ℤ × ℕ × List Event
backend_entries_init es =
    finish_init (backend_has_exit es) (init_loop valid_backend (λ (e : BackendEntry). e.init) es 0)

-- `pdm_backend_entries_exit`
unfoldable pub backend_entries_exit : List BackendEntry → ℕ → ℕ × List Event
backend_entries_exit es initialized = (0, exit_count (backend_has_exit es) initialized)

-- `pdm_backend_entry_matches`
unfoldable pub entry_matches : Option (List Text) → Option Text → Bool
entry_matches none compatible = false
entry_matches (some table) none = false
entry_matches (some table) (some compatible) = table_has compatible table

-- `pdm_backend_find`
unfoldable pub backend_find : ℕ → ℕ → Option Text → List BackendEntry → Option BackendEntry
backend_find device_type backend_class compatible [] = none
backend_find device_type backend_class compatible (e ∷ es) =
    let rest = backend_find device_type backend_class compatible es in
    if not (e.device_type == device_type) || not (e.backend_class == backend_class)
    then rest
    else if entry_matches e.matches compatible
    then some e
    else rest
