-- ===== src/Pdm/Led/Pwm.antt =====
-- kernel/pdm/drivers/led/pdm_led_pwm.c: the PWM backend of an LED, over the PWM devices of the
-- kernel, which are a parameter.
use lpf.Common.{
  is_some, negsuc, ap, ◌∙◌, if_true, if_false, ◌<◌, ◌≤◌, ◌+◌, ◌*◌, ◌/◌, ◌%◌, ◌^◌, arith, ℕ, ◌≡◌,
  refl, ◌==◌, ◌||◌, if◌then◌else◌, if_elim, unnegate_false, Bool, true, false, not, List, Option,
  none, some, ℤ, is_zero, ret_ok, enodev, einval,
}
use lpf.Pdm.Led.Backend.{Hardware, Setting}
use lpf.Pdm.Led.{LedInstance, Command, setting_of}
use lpf.Pdm.Led.Lifecycle.{ProbeArgs, led_probe}
use lpf.Pdm.Led.Probe.{ioctls, led_probe-ioctls}
use lpf.Pdm.Led.Gpio.{Got}

-- What a PWM device puts out: the two fields of `struct pwm_state` that the backend sets.
pub record Wave : Type 0 where
  pub enabled : Bool
  pub duty_cycle : ℕ

-- `DIV_ROUND_CLOSEST_ULL`
abbrev pub nearest : ℕ → ℕ → ℕ
nearest n d = (n + d / 2) % 2 ^ 64 / d

-- `pwm_get`, the period that `pwm_init_state` sets, `pwm_set_relative_duty_cycle` with its code and
-- duty cycle, and `pwm_apply_might_sleep`, which leaves the wave alone if it fails.
pub record PwmDevices : Type 1 where
  pub Device : Type 0
  pub pwm_get : Got Device
  pub period : ℕ
  pub relative_duty_cycle : ℕ → ℕ → ℤ × ℕ
  pub pwm_apply : Wave → Device → ℤ × Device
  pub wave : Device → Wave
  pub relative_duty_cycle_ok :
      (b scale : ℕ)
      → 0 < scale
      → b ≤ scale
      → (relative_duty_cycle b scale).1 ≡ nearest (b * period % 2 ^ 64) scale
  pub pwm_apply_ok :
      (w : Wave) (d : Device) → is_zero (pwm_apply w d).0 ≡ true → wave (pwm_apply w d).1 ≡ w
  pub pwm_apply_failed :
      (w : Wave) (d : Device) → is_zero (pwm_apply w d).0 ≡ false → wave (pwm_apply w d).1 ≡ wave d

abbrev pub no_wave : Wave
no_wave = record { enabled = false; duty_cycle = 0 }

module _ (pwm : PwmDevices) where
  open pwm use {
    Device, pwm_get, period, relative_duty_cycle, relative_duty_cycle_ok, pwm_apply, wave,
    pwm_apply_ok, pwm_apply_failed,
  }

  -- `pdm_led_pwm_setup`; the state is `inst->hw.pwmdev`.
  unfoldable pub keep_device : Got Device → Option Device → ℤ × Option Device
  keep_device (Got.error e) old = (negsuc e, old)
  keep_device (Got.line d) old = (ret_ok, some d)

  unfoldable pub pwm_setup : Option Device → ℤ × Option Device
  pwm_setup old = keep_device pwm_get old

  -- `pdm_led_pwm_cleanup`: the wave is switched off and the device given back, and no more seen.
  unfoldable pub pwm_cleanup : Option Device → Option Device
  pwm_cleanup h = none

  -- Whether the setting asks for darkness.
  unfoldable pub is_dark : Setting → Bool
  is_dark s = s.enabled == 0 || s.brightness == 0

  -- The wave that a setting asks for
  unfoldable pub pwm_wave : Setting → Wave
  pwm_wave s = if is_dark s then no_wave else record {
    enabled = true;
    duty_cycle = (relative_duty_cycle s.brightness s.max_brightness).1;
  }

  unfoldable pub put_wave : ℤ × Device → ℤ × Option Device
  put_wave (ret, d) = (ret, some d)

  -- The end of `pdm_led_pwm_apply`, from the duty cycle on
  unfoldable pub apply_duty : ℤ × ℕ → Device → ℤ × Option Device
  apply_duty (ret, duty) d =
      if not (is_zero ret)
      then (ret, some d)
      else put_wave (pwm_apply (record { enabled = true; duty_cycle = duty }) d)

  -- `pdm_led_pwm_apply`
  unfoldable pub pwm_apply_setting : Setting → Option Device → ℤ × Option Device
  pwm_apply_setting s none = (enodev, none)
  pwm_apply_setting s (some d) =
      if period == 0
      then (einval, some d)
      else if is_dark s
      then put_wave (pwm_apply no_wave d)
      else apply_duty (relative_duty_cycle s.brightness s.max_brightness) d

  -- What the device puts out, which is nothing without one.
  unfoldable pub shown_wave : Option Device → Wave
  shown_wave none = no_wave
  shown_wave (some d) = wave d

  -- An apply of a wave: done as asked, or without an effect.
  Applied : Wave → Device → ℤ × Option Device → Type 0
  Applied w d r =
      (is_zero r.0 ≡ true → shown_wave r.1 ≡ w) × (is_zero r.0 ≡ false → shown_wave r.1 ≡ wave d)

  put_wave-Applied : (w : Wave) (d : Device) → Applied w d (put_wave (pwm_apply w d))
  unfolding Applied put_wave shown_wave
  put_wave-Applied w d = (pwm_apply_ok w d, pwm_apply_failed w d)

  pwm_apply_setting-Applied :
      (s : Setting) (d : Device) → Applied (pwm_wave s) d (pwm_apply_setting s (some d))
  unfolding Applied pwm_apply_setting pwm_wave apply_duty shown_wave
  pwm_apply_setting-Applied s d =
      if_elim (Applied (pwm_wave s) d) (period == 0) _ _ (λ _. refused einval (λ z. cc z))
        (λ _. by_light (is_dark s))
    where
      refused : {w : Wave} (e : ℤ) → (is_zero e ≡ true → wave d ≡ w) → Applied w d (e, some d)
      refused e never = (never, λ _. refl)

      lit :
          Applied
            (record {
              enabled = true;
              duty_cycle = (relative_duty_cycle s.brightness s.max_brightness).1;
            })
            d
            (apply_duty (relative_duty_cycle s.brightness s.max_brightness) d)
      lit =
          if_elim
            (Applied
              (record {
                enabled = true;
                duty_cycle = (relative_duty_cycle s.brightness s.max_brightness).1;
              })
              d)
            (not (is_zero (relative_duty_cycle s.brightness s.max_brightness).0)) _ _
            (λ t. refused _ (λ z. cc (z, unnegate_false (is_zero _) t))) (λ _. put_wave-Applied _ d)

      by_light :
          (b : Bool)
          → Applied
              (if b then no_wave else record {
                enabled = true;
                duty_cycle = (relative_duty_cycle s.brightness s.max_brightness).1;
              })
              d
              (if b
                then put_wave (pwm_apply no_wave d)
                else apply_duty (relative_duty_cycle s.brightness s.max_brightness) d)
      by_light true = put_wave-Applied no_wave d
      by_light false = lit

  pub pwm_apply_setting_ok :
      (s : Setting) (h : Option Device)
      → is_zero (pwm_apply_setting s h).0 ≡ true
      → shown_wave (pwm_apply_setting s h).1 ≡ pwm_wave s
  unfolding pwm_apply_setting shown_wave Applied
  pwm_apply_setting_ok s none z = cc
  pwm_apply_setting_ok s (some d) z = (pwm_apply_setting-Applied s d).0 z

  pub pwm_apply_setting_failed :
      (s : Setting) (h : Option Device)
      → is_zero (pwm_apply_setting s h).0 ≡ false
      → shown_wave (pwm_apply_setting s h).1 ≡ shown_wave h
  unfolding pwm_apply_setting shown_wave Applied
  pwm_apply_setting_failed s none n = refl
  pwm_apply_setting_failed s (some d) n = (pwm_apply_setting-Applied s d).1 n

  pub pwm_setup_ok :
      (h : Option Device) → is_zero (pwm_setup h).0 ≡ true → is_some (pwm_setup h).1 ≡ true
  unfolding pwm_setup keep_device
  pwm_setup_ok h = kept pwm_get
    where
      kept :
          (g : Got Device) → is_zero (keep_device g h).0 ≡ true → is_some (keep_device g h).1 ≡ true
      kept (Got.error e) z = cc z
      kept (Got.line l) z = refl

  pub pwm_setup_failed :
      (h : Option Device)
      → is_some h ≡ false
      → is_zero (pwm_setup h).0 ≡ false
      → is_some (pwm_setup h).1 ≡ false
  unfolding pwm_setup keep_device
  pwm_setup_failed h down = kept pwm_get
    where
      kept :
          (g : Got Device)
          → is_zero (keep_device g h).0 ≡ false
          → is_some (keep_device g h).1 ≡ false
      kept (Got.error e) n = down
      kept (Got.line l) n = cc n

  pub pwm_cleanup_holds : (h : Option Device) → is_some (pwm_cleanup h) ≡ false
  unfolding pwm_cleanup
  pwm_cleanup_holds h = refl

  pub pwm_apply_holds :
      (s : Setting) (h : Option Device) → is_some (pwm_apply_setting s h).1 ≡ is_some h
  unfolding pwm_apply_setting apply_duty put_wave
  pwm_apply_holds s none = refl
  pwm_apply_holds s (some d) =
      if_elim (λ (r : ℤ × Option Device). is_some r.1 ≡ true) (period == 0) _ _ (λ _. refl)
        (λ _.
          if_elim (λ (r : ℤ × Option Device). is_some r.1 ≡ true) (is_dark s) _ _ (λ _. refl)
            (λ _.
              if_elim (λ (r : ℤ × Option Device). is_some r.1 ≡ true)
                (not (is_zero (relative_duty_cycle s.brightness s.max_brightness).0)) _ _
                (λ _. refl) (λ _. refl)))

  -- `pdm_led_pwm_ops`
  abbrev pub pwm_ops : Hardware
  pwm_ops = record {
    State = Option Device;
    Light = Wave;
    holds = λ h. is_some h;
    setup_ok = pwm_setup_ok;
    setup_failed = pwm_setup_failed;
    cleanup_holds = pwm_cleanup_holds;
    apply_holds = pwm_apply_holds;
    shows = shown_wave;
    asked = pwm_wave;
    setup = pwm_setup;
    cleanup = pwm_cleanup;
    apply = pwm_apply_setting;
    apply_ok = pwm_apply_setting_ok;
    apply_failed = pwm_apply_setting_failed;
  }

  -- Once an LED on a PWM device is probed, and after any commands, failing ones included, the device
  -- puts out nothing if the LED is switched off or has brightness 0; and if it is switched on with a
  -- brightness that is not 0, the output is on for the part of the period that is the brightness
  -- relative to its maximum, rounded to the nearest (in 64 bits). The switch is 0 or 1.
  pub pwm_wave-ioctls :
      (args : ProbeArgs) (caps count : ℕ) (h : Option Device) (inst : LedInstance)
      → (led_probe pwm_ops args caps count h).instance ≡ some inst
      → (cs : List Command)
      → let (last, after) = ioctls pwm_ops cs inst (led_probe pwm_ops args caps count h).hardware in
        (last.enabled ≡ 0 → shown_wave after ≡ no_wave)
        × (last.brightness ≡ 0 → shown_wave after ≡ no_wave)
        × (last.enabled ≡ 1
            → 0 < last.brightness
            → ((shown_wave after).enabled ≡ true)
              × ((shown_wave after).duty_cycle
                  ≡ nearest (last.brightness * period % 2 ^ 64) last.max_brightness))
        × (last.enabled ≤ 1)
  unfolding pwm_wave is_dark
  pwm_wave-ioctls args caps count h inst e cs =
      let r = led_probe-ioctls pwm_ops args caps count h inst e cs in
      let last = (ioctls pwm_ops cs inst (led_probe pwm_ops args caps count h).hardware).0 in
      (
        λ off. r.3 ∙ if_true (is_dark (setting_of last)) no_wave _ (ground (arith, off)),
        λ dark. r.3 ∙ if_true (is_dark (setting_of last)) no_wave _ (ground (arith, dark)),
        λ on lit.
            let shines =
              r.3 ∙ if_false (is_dark (setting_of last)) no_wave _ (ground (arith, on, lit)) in
            let in_range = r.1 in
            (
              ap (λ (w : Wave). w.enabled) shines,
              ap (λ (w : Wave). w.duty_cycle) shines
                  ∙ relative_duty_cycle_ok last.brightness last.max_brightness
                      (omega (arith, lit, in_range)) in_range,
            ),
        r.2,
      )
