-- ===== src/Pdm/Manager/Tests.antt =====
-- Runs of the discovery device on concrete devices.
use lpf.Common.{
  ℕ, ◌+◌, ◌≤◌, ◌<◌, ◌≡◌, refl, ◌^◌, Bool, true, false, List, [], ◌∷◌, length, get_elem?, set,
  Option, none, some, ret_ok, pos, arith,
}
use lpf.Common.Text.{Text, text}
use lpf.Pdm.User.{UserPtr}
use lpf.Pdm.Device.{PdmDevice, alloc, state_bound, type_led}
use lpf.Pdm.Manager.Walk.{listed, DeviceList}
use lpf.Pdm.Manager.{
  DeviceInfo, DeviceQuery, NameQuery, ManagerInfo, device_visible, c_string, do_get_info,
  do_get_device, do_get_device_by_name, do_get_device_by_capability,
}
use lpf.Pdm.Manager.Find.{select, offers, answer, get_device_lem}
use lpf.Pdm.Manager.Names.{
  first, named, closed, padded, get_device_by_name_lem, get_device_by_name-fill_device_info,
}
use lpf.Pdm.Manager.Names

unfoldable led : PdmDevice
unfolding alloc
led = record alloc {
  dev_name = text "led-1";
  state = state_bound;
  device_type = type_led;
  capabilities = 0x1_0100;
  id = pos 3;
  id_allocated = true;
}

unfoldable idle : PdmDevice
unfolding alloc
idle = record alloc { dev_name = text "idle" }

abbrev bus : DeviceList
bus = listed (idle ∷ led ∷ [])

abbrev no_info : DeviceInfo
no_info = record {
  device_type = 0;
  index = 0;
  state = 0;
  last_error = pos 0;
  error_count = 0;
  capabilities = 0;
  name = [];
  driver_name = [];
}

abbrev query : DeviceQuery
query = record { match_index = 0; required_capabilities = 0x100; info = no_info }

abbrev name_query : NameQuery
name_query = record { name = padded (text "led-1"); info = no_info }

only_led : select device_visible bus.devices ≡ led ∷ []
unfolding select device_visible led idle alloc
only_led = refl

led_found : first (named led.dev_name) bus.devices ≡ some led
unfolding first device_visible led idle alloc lpf.Common.Text.same_string
led_found = refl

few : length (select device_visible bus.devices) < 2 ^ 32
unfolding select device_visible led idle alloc
few = omega arith

no_nul : c_string led.dev_name ≡ led.dev_name
unfolding c_string led
no_nul = refl

short : length led.dev_name ≤ 63
unfolding led
short = omega arith

full : length name_query.name ≡ 64
full = refl

get_device_lem_example :
    let p : UserPtr DeviceQuery = record { readable = some query; writable = true } in
    ((info : ManagerInfo)
      → do_get_info bus 5 true ≡ (ret_ok, some info)
      → info.device_count ≡ length (select device_visible bus.devices))
    × (do_get_device bus p ≡ answer query true (get_elem? (select device_visible bus.devices) 0))
    × (do_get_device_by_capability bus p
        ≡ answer query true (get_elem? (select (offers 0x100) bus.devices) 0))
get_device_lem_example = get_device_lem bus 5 query true few (omega arith)

get_device_by_name_lem_example :
    let p : UserPtr NameQuery = record { readable = some name_query; writable = true } in
    let wanted : Text = c_string (set name_query.name 63 0) in
    (do_get_device_by_name bus p
      ≡ Names.answer (closed name_query) true (first (named wanted) bus.devices))
    × ((d : PdmDevice)
        → first (named wanted) bus.devices ≡ some d
        → (d.dev_name ≡ wanted) × (length d.dev_name ≤ 63))
get_device_by_name_lem_example = get_device_by_name_lem bus name_query true full
