-- ===== src/Pdm/Led/Tests.antt =====
-- Runs of the LED driver on an LED that is on or off.
use lpf.Common.{
  Bool, ◌<◌, ◌%◌, ◌^◌, ◌*◌, ◌/◌, ret_ok, negsuc, ℕ, suc, ◌+◌, ◌≤◌, ◌≡◌, refl, ◌==◌, ◌||◌,
  if◌then◌else◌, Bool, true, false, List, [], ◌∷◌, Option, none, some, ℤ, is_zero, ret_ok, eio,
}
use lpf.Common.Text.{text}
use lpf.Pdm.Led.Backend.{Hardware, Setting}
use lpf.Pdm.Led.{
  LedInstance, LedNode, LedBrightness, Command, setting_of, read_dt_config, set_brightness,
  set_enabled,
}
use lpf.Pdm.Led.Lifecycle.{ProbeArgs, led_probe, led_remove}
use lpf.Pdm.Led.Pwm.{
  Wave, PwmDevices, nearest, no_wave, pwm_ops, pwm_wave, shown_wave, pwm_wave-ioctls,
}
use lpf.Pdm.Led.Gpio.{Got, GpioLines, gpio_ops, gpio_value, level, gpio_value-ioctls}
use lpf.Pdm.Led.Probe.{ioctls, led_probe-ioctls, led_probe-led_remove}

abbrev light : Setting → ℕ
light s = if s.enabled == 0 || s.brightness == 0 then 0 else 1

abbrev lamp : Hardware
lamp = record {
  State = ℕ × Bool;
  Light = ℕ;
  shows = λ h. h.0;
  asked = light;
  setup = λ h. (ret_ok, (0, true));
  cleanup = λ h. (0, false);
  holds = λ h. h.1;
  setup_ok = λ h z. refl;
  setup_failed = λ h down n. cc n;
  cleanup_holds = λ h. refl;
  apply_holds = λ s h. refl;
  apply = λ s h. (ret_ok, (light s, h.1));
  apply_ok = λ s h z. refl;
  apply_failed = λ s h n. cc;
}

abbrev node : LedNode
node = record {
  max_brightness = some 100;
  default_brightness = none;
  default_state = some (text "on");
}

abbrev bare : LedInstance
bare = record {
  online = true;
  lock = 0;
  can_apply = true;
  brightness = 0;
  max_brightness = 0;
  enabled = 0;
}

abbrev args : ProbeArgs
args = record { allocated = true; node = some node; cdev_register = ret_ok; capability = 0x100 }

abbrev full : LedInstance
full = record bare { brightness = 100; max_brightness = 100; enabled = 1 }

config_ok : is_zero (read_dt_config (some node) bare).0 ≡ true
unfolding read_dt_config lpf.Pdm.Led.read_node lpf.Pdm.Led.and_then lpf.Pdm.Led.read_max
    lpf.Pdm.Led.read_brightness lpf.Pdm.Led.read_state lpf.Common.Text.same_string
config_ok = refl

probe_ok : (led_probe lamp args 0x1_0000 0 (0, false)).instance ≡ some full
unfolding led_probe read_dt_config lpf.Pdm.Led.Lifecycle.probe_configured
    lpf.Pdm.Led.Lifecycle.probe_set_up lpf.Pdm.Led.Lifecycle.probe_applied lpf.Pdm.Led.apply_locked
    lpf.Pdm.Led.read_node lpf.Pdm.Led.and_then lpf.Pdm.Led.read_max lpf.Pdm.Led.read_brightness
    lpf.Pdm.Led.read_state lpf.Common.Text.same_string
probe_ok = refl

abbrev commands : List Command
commands =
    Command.set_level (some (record { index = 0; brightness = 7 }))
    ∷ Command.disable (some 0)
    ∷ Command.set_level (some (record { index = 0; brightness = 101 }))
    ∷ []

led_probe-ioctls_example :
    let (last, state) =
      ioctls lamp commands full (led_probe lamp args 0x1_0000 0 (0, false)).hardware in
    (last.lock ≡ 0)
    × (last.brightness ≤ last.max_brightness)
    × (last.enabled ≤ 1)
    × (state.0 ≡ light (setting_of last))
led_probe-ioctls_example = led_probe-ioctls lamp args 0x1_0000 0 (0, false) full probe_ok commands

led_probe-led_remove_example :
    let p = led_probe lamp args 0x1_0000 3 (0, false) in
    (is_zero p.ret ≡ true
      → ((p.instance ≡ none) → ⊥)
        × (p.hardware.1 ≡ true)
        × ((inst : LedInstance)
            → let removed = led_remove lamp inst p.device_count p.hardware in
              (removed.1 ≡ 3) × (removed.2.1 ≡ false)))
    × (is_zero p.ret ≡ false
        → (p.instance ≡ none)
          × (p.hardware.1 ≡ false)
          × (p.device_count ≡ 3)
          × (p.capabilities ≡ 0x1_0000))
led_probe-led_remove_example = led_probe-led_remove lamp args 0x1_0000 3 (0, false) refl

abbrev wires : GpioLines
wires = record {
  Line = ℕ;
  gpiod_get = λ named. if named then Got.error 1 else Got.line 0;
  set_value = λ v l. v;
  value = λ l. l;
  value-set_value = λ v l. refl;
}

gpio_probe_ok : (led_probe (gpio_ops wires) args 0x1_0000 0 none).instance ≡ some full
unfolding led_probe read_dt_config lpf.Pdm.Led.Lifecycle.probe_configured
    lpf.Pdm.Led.Lifecycle.probe_set_up lpf.Pdm.Led.Lifecycle.probe_applied lpf.Pdm.Led.apply_locked
    lpf.Pdm.Led.read_node lpf.Pdm.Led.and_then lpf.Pdm.Led.read_max lpf.Pdm.Led.read_brightness
    lpf.Pdm.Led.read_state lpf.Common.Text.same_string lpf.Pdm.Led.Gpio.gpio_setup
    lpf.Pdm.Led.Gpio.gpio_apply lpf.Pdm.Led.Gpio.get_again lpf.Pdm.Led.Gpio.keep_line
    lpf.Pdm.Led.Gpio.gpio_value
gpio_probe_ok = refl

gpio_value-ioctls_example :
    let (last, after) =
      ioctls
        (gpio_ops wires)
        commands
        full
        (led_probe (gpio_ops wires) args 0x1_0000 0 none).hardware in
    (last.enabled ≡ 0 → level wires after ≡ 0)
    × (last.brightness ≡ 0 → level wires after ≡ 0)
    × (last.enabled ≡ 1 → 0 < last.brightness → level wires after ≡ 1)
    × (last.enabled ≤ 1)
gpio_value-ioctls_example = gpio_value-ioctls wires args 0x1_0000 0 none full gpio_probe_ok commands

-- A PWM device with a period of 1000 ns.
no_failure : (w d : Wave) → true ≡ false → w ≡ d
no_failure w d e = cc e

abbrev waves : PwmDevices
waves = record {
  Device = Wave;
  pwm_get = Got.line no_wave;
  period = 1000;
  relative_duty_cycle = λ b m. (ret_ok, nearest (b * 1000 % 2 ^ 64) m);
  relative_duty_cycle_ok = λ b m lit fits. refl;
  pwm_apply = λ w d. (ret_ok, w);
  wave = λ d. d;
  pwm_apply_ok = λ w d z. refl;
  pwm_apply_failed = λ w d n. no_failure w d n;
}

pwm_probe_ok : (led_probe (pwm_ops waves) args 0x1_0000 0 none).instance ≡ some full
unfolding led_probe read_dt_config lpf.Pdm.Led.Lifecycle.probe_configured
    lpf.Pdm.Led.Lifecycle.probe_set_up lpf.Pdm.Led.Lifecycle.probe_applied lpf.Pdm.Led.apply_locked
    lpf.Pdm.Led.read_node lpf.Pdm.Led.and_then lpf.Pdm.Led.read_max lpf.Pdm.Led.read_brightness
    lpf.Pdm.Led.read_state lpf.Common.Text.same_string lpf.Pdm.Led.Pwm.pwm_setup
    lpf.Pdm.Led.Pwm.pwm_apply_setting lpf.Pdm.Led.Pwm.put_wave lpf.Pdm.Led.Pwm.apply_duty
    lpf.Pdm.Led.Pwm.is_dark lpf.Pdm.Led.Pwm.keep_device lpf.Pdm.Led.Pwm.pwm_wave
pwm_probe_ok = refl

pwm_wave-ioctls_example :
    let (last, after) =
      ioctls
        (pwm_ops waves)
        commands
        full
        (led_probe (pwm_ops waves) args 0x1_0000 0 none).hardware in
    (last.enabled ≡ 0 → shown_wave waves after ≡ no_wave)
    × (last.brightness ≡ 0 → shown_wave waves after ≡ no_wave)
    × (last.enabled ≡ 1
        → 0 < last.brightness
        → ((shown_wave waves after).enabled ≡ true)
          × ((shown_wave waves after).duty_cycle
              ≡ nearest (last.brightness * 1000 % 2 ^ 64) last.max_brightness))
    × (last.enabled ≤ 1)
pwm_wave-ioctls_example = pwm_wave-ioctls waves args 0x1_0000 0 none full pwm_probe_ok commands
