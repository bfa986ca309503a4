-- ===== src/Pdm/Module/Tests.antt =====
-- A run of the start of the PDM module.
use lpf.Common.{take, ◌∷◌, ◌≡◌, true, false, [], ◌++◌, some, is_zero, ret_ok, eio}
use lpf.Pdm.Registry.Balance.{run}
use lpf.Pdm.Module.{Codes, module_init, module_exit}
use lpf.Pdm.Module.Order.{all_parts, left, module_init-module_exit}

abbrev codes : Codes
codes = record {
  ids = ret_ok;
  bus = ret_ok;
  cdev = ret_ok;
  backends = ret_ok;
  drivers = eio;
  mocks = ret_ok;
}

module_init-module_exit_example :
    let (ret, events) = module_init codes in
    (is_zero ret ≡ false → run [] events ≡ some [])
    × (is_zero ret ≡ true
        → (run [] events ≡ some all_parts)
          × (left (some []) (events ++ module_exit) ≡ some [])
          × (left (some []) (events ++ take 2 module_exit) ≡ some (4 ∷ 2 ∷ 1 ∷ 0 ∷ [])))
module_init-module_exit_example = module_init-module_exit codes
