-- ===== src/Pdm/Led/Gpio.antt =====
-- kernel/pdm/drivers/led/pdm_led_gpio.c: the GPIO backend of an LED, over the GPIO lines of the
-- kernel, which are a parameter.
use lpf.Common.{
  ◌∙◌, is_some, if_true, if_false, ◌<◌, ◌≤◌, arith, ℕ, ◌≡◌, refl, ◌==◌, ◌&&◌, if◌then◌else◌, Bool,
  true, false, not, List, Option, none, some, ℤ, negsuc, eqz, is_zero, ret_ok, enodev,
}
use lpf.Pdm.Led.Backend.{Hardware, Setting}
use lpf.Pdm.Led.{LedInstance, Command}
use lpf.Pdm.Led.Lifecycle.{ProbeArgs, led_probe}
use lpf.Pdm.Led.Probe.{ioctls, led_probe-ioctls}

-- What `gpiod_get` returns: the error -(e + 1), or a line.
pub data Got (Line : Type 0) : Type 0 where
  error : ℕ → Got Line
  line : Line → Got Line

-- The line called "led" or the one without a name, and `gpiod_set_value_cansleep`.
pub record GpioLines : Type 1 where
  pub Line : Type 0
  pub gpiod_get : Bool → Got Line
  pub set_value : ℕ → Line → Line
  pub value : Line → ℕ
  pub value-set_value : (v : ℕ) (l : Line) → value (set_value v l) ≡ v

abbrev pub enoent : ℤ
enoent = negsuc 1

module _ (gpio : GpioLines) where
  open gpio use {Line, gpiod_get, set_value, value, value-set_value}

  -- The end of `pdm_led_gpio_setup`; the state is `inst->hw.gpiod`.
  unfoldable pub keep_line : Got Line → Option Line → ℤ × Option Line
  keep_line (Got.error e) old = (negsuc e, old)
  keep_line (Got.line l) old = (ret_ok, some l)

  -- The second attempt, if there is no line called "led".
  unfoldable pub get_again : Got Line → Got Line
  get_again (Got.error e) = if eqz (negsuc e) enoent then gpiod_get false else Got.error e
  get_again (Got.line l) = Got.line l

  -- `pdm_led_gpio_setup`
  unfoldable pub gpio_setup : Option Line → ℤ × Option Line
  gpio_setup old = keep_line (get_again (gpiod_get true)) old

  -- `pdm_led_gpio_cleanup`: the line is switched off and given back, and no more seen.
  unfoldable pub gpio_cleanup : Option Line → Option Line
  gpio_cleanup h = none

  unfoldable pub gpio_value : Setting → ℕ
  gpio_value s = if not (s.enabled == 0) && not (s.brightness == 0) then 1 else 0

  -- `pdm_led_gpio_apply`
  unfoldable pub gpio_apply : Setting → Option Line → ℤ × Option Line
  gpio_apply s none = (enodev, none)
  gpio_apply s (some l) = (ret_ok, some (set_value (gpio_value s) l))

  -- What the line says, which is dark without one.
  unfoldable pub level : Option Line → ℕ
  level none = 0
  level (some l) = value l

  pub gpio_apply_ok :
      (s : Setting) (h : Option Line)
      → is_zero (gpio_apply s h).0 ≡ true
      → level (gpio_apply s h).1 ≡ gpio_value s
  unfolding gpio_apply level
  gpio_apply_ok s none z = cc
  gpio_apply_ok s (some l) z = value-set_value (gpio_value s) l

  pub gpio_apply_failed :
      (s : Setting) (h : Option Line)
      → is_zero (gpio_apply s h).0 ≡ false
      → level (gpio_apply s h).1 ≡ level h
  unfolding gpio_apply level
  gpio_apply_failed s none n = refl
  gpio_apply_failed s (some l) n = cc

  pub gpio_setup_ok :
      (h : Option Line) → is_zero (gpio_setup h).0 ≡ true → is_some (gpio_setup h).1 ≡ true
  unfolding gpio_setup keep_line
  gpio_setup_ok h = kept (get_again (gpiod_get true))
    where
      kept : (g : Got Line) → is_zero (keep_line g h).0 ≡ true → is_some (keep_line g h).1 ≡ true
      kept (Got.error e) z = cc z
      kept (Got.line l) z = refl

  pub gpio_setup_failed :
      (h : Option Line)
      → is_some h ≡ false
      → is_zero (gpio_setup h).0 ≡ false
      → is_some (gpio_setup h).1 ≡ false
  unfolding gpio_setup keep_line
  gpio_setup_failed h down = kept (get_again (gpiod_get true))
    where
      kept : (g : Got Line) → is_zero (keep_line g h).0 ≡ false → is_some (keep_line g h).1 ≡ false
      kept (Got.error e) n = down
      kept (Got.line l) n = cc n

  pub gpio_cleanup_holds : (h : Option Line) → is_some (gpio_cleanup h) ≡ false
  unfolding gpio_cleanup
  gpio_cleanup_holds h = refl

  pub gpio_apply_holds : (s : Setting) (h : Option Line) → is_some (gpio_apply s h).1 ≡ is_some h
  unfolding gpio_apply
  gpio_apply_holds s none = refl
  gpio_apply_holds s (some l) = refl

  abbrev lit_by : LedInstance → Bool
  lit_by inst = not (inst.enabled == 0) && not (inst.brightness == 0)

  -- `pdm_led_gpio_ops`
  abbrev pub gpio_ops : Hardware
  gpio_ops = record {
    State = Option Line;
    Light = ℕ;
    holds = λ h. is_some h;
    setup_ok = gpio_setup_ok;
    setup_failed = gpio_setup_failed;
    cleanup_holds = gpio_cleanup_holds;
    apply_holds = gpio_apply_holds;
    shows = level;
    asked = gpio_value;
    setup = gpio_setup;
    cleanup = gpio_cleanup;
    apply = gpio_apply;
    apply_ok = gpio_apply_ok;
    apply_failed = gpio_apply_failed;
  }

  -- Once an LED on a GPIO line is probed, and after any commands, failing ones included, the line is
  -- 0 if the LED is switched off, 0 if its brightness is 0, and 1 if it is switched on with a
  -- brightness that is not 0; and the switch is 0 or 1.
  pub gpio_value-ioctls :
      (args : ProbeArgs) (caps count : ℕ) (h : Option Line) (inst : LedInstance)
      → (led_probe gpio_ops args caps count h).instance ≡ some inst
      → (cs : List Command)
      → let (last, after) =
          ioctls gpio_ops cs inst (led_probe gpio_ops args caps count h).hardware in
        (last.enabled ≡ 0 → level after ≡ 0)
        × (last.brightness ≡ 0 → level after ≡ 0)
        × (last.enabled ≡ 1 → 0 < last.brightness → level after ≡ 1)
        × (last.enabled ≤ 1)
  unfolding gpio_value
  gpio_value-ioctls args caps count h inst e cs =
      let r = led_probe-ioctls gpio_ops args caps count h inst e cs in
      let last = (ioctls gpio_ops cs inst (led_probe gpio_ops args caps count h).hardware).0 in
      (
        λ off. r.3 ∙ if_false (lit_by last) 1 0 (ground (arith, off)),
        λ dark. r.3 ∙ if_false (lit_by last) 1 0 (ground (arith, dark)),
        λ on lit. r.3 ∙ if_true (lit_by last) 1 0 (ground (arith, on, lit)),
        r.2,
      )
