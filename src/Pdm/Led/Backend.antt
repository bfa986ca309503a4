-- ===== src/Pdm/Led/Backend.antt =====
-- The operations of an LED backend (`struct pdm_led_backend_ops` of
-- kernel/pdm/drivers/led/pdm_led_internal.h), over the state of its hardware.
use lpf.Common.{ℕ, ◌≡◌, Bool, true, false, ℤ, is_zero}

-- The fields of the instance that a backend reads.
pub record Setting : Type 0 where
  pub brightness : ℕ
  pub max_brightness : ℕ
  pub enabled : ℕ

pub record Hardware : Type 1 where
  pub State : Type 0
  -- What can be seen of the LED, and what a setting asks for.
  pub Light : Type 0
  pub shows : State → Light
  pub asked : Setting → Light
  pub setup : State → ℤ × State
  pub cleanup : State → State
  pub apply : Setting → State → ℤ × State
  -- Whether the line or device is held: after a `setup` that returned 0, until the `cleanup`.
  pub holds : State → Bool
  pub setup_ok : (h : State) → is_zero (setup h).0 ≡ true → holds (setup h).1 ≡ true
  pub setup_failed :
      (h : State) → holds h ≡ false → is_zero (setup h).0 ≡ false → holds (setup h).1 ≡ false
  pub cleanup_holds : (h : State) → holds (cleanup h) ≡ false
  pub apply_holds : (s : Setting) (h : State) → holds (apply s h).1 ≡ holds h
  -- An `apply` that returns 0 has made the LED show the setting, and one that fails left it alone.
  pub apply_ok :
      (s : Setting) (h : State) → is_zero (apply s h).0 ≡ true → shows (apply s h).1 ≡ asked s
  pub apply_failed :
      (s : Setting) (h : State) → is_zero (apply s h).0 ≡ false → shows (apply s h).1 ≡ shows h
