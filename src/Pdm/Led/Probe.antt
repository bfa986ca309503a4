-- ===== src/Pdm/Led/Probe.antt =====
-- Probing an LED device and then using it: kernel/pdm/drivers/led/pdm_led.c.
use lpf.Common.{
  Bool, unnegate_true, unnegate_false, ◌∙◌, ℕ, ◌+◌, ◌≤◌, ◌≡◌, refl, subst, if_elim, true, false,
  not, List, [], ◌∷◌, none, some, ℤ, is_zero, arith,
}
use lpf.Pdm.Led.Backend.{Hardware}
use lpf.Pdm.Led.{LedInstance, Command, setting_of, apply_locked, ioctl}
use lpf.Pdm.Led.Lifecycle.{
  ProbeArgs, Probed, probe_applied, probe_set_up, probe_configured, give_up, led_probe, led_remove,
}
use lpf.Pdm.Led.Config.{Configured, read_dt_config-Configured}
use lpf.Pdm.Led.Ioctl.{Consistent, ioctl-Consistent}

module _ (hw : Hardware) where
  open hw use {
    State, Light, shows, asked, setup, cleanup, apply, apply_ok, holds, setup_ok, setup_failed,
    cleanup_holds, apply_holds,
  }

  -- What a probe leaves: with 0 a consistent instance, that counts and holds its line or device, and
  -- else none, that does not.
  pub record Fair (start : Bool) (caps count : ℕ) (p : Probed hw) : Type 0 where
    pub kept : (inst : LedInstance) → p.instance ≡ some inst → Consistent hw 0 inst p.hardware
    pub counted :
        is_zero p.ret ≡ true
        → (p.device_count ≡ count + 1) × ((p.instance ≡ none) → ⊥) × (holds p.hardware ≡ true)
    pub given_up :
        is_zero p.ret ≡ false
        → (p.device_count ≡ count)
          × (p.instance ≡ none)
          × (start ≡ false → holds p.hardware ≡ false)
          × (p.capabilities ≡ caps)

  give_up-Fair :
      (start : Bool) (ret : ℤ) (caps count : ℕ) (h : State)
      → (start ≡ false → holds h ≡ false)
      → not (is_zero ret) ≡ true
      → Fair start caps count (give_up hw ret caps count h)
  give_up-Fair start ret caps count h down bad = record {
    kept = λ i e. cc;
    counted = λ z. cc (z, bad);
    given_up = λ _. (refl, refl, down, refl);
  }

  module _ (args : ProbeArgs) (inst : LedInstance) (caps count : ℕ) (start : Bool)
      (ok : Configured inst) (free : inst.lock ≡ 0) where
    probe_applied-Fair :
        (r : ℤ × State)
        → holds r.1 ≡ true
        → (is_zero r.0 ≡ true → shows r.1 ≡ asked (setting_of inst))
        → Fair start caps count (probe_applied hw args inst caps count r)
    unfolding probe_applied
    probe_applied-Fair (ret, h) up applied =
        if_elim (Fair start caps count) (not (is_zero ret)) _ _
          (give_up-Fair start ret caps count (cleanup h) (λ _. cleanup_holds h))
          (λ good.
            if_elim (Fair start caps count) (not (is_zero args.cdev_register)) _ _
              (give_up-Fair start args.cdev_register caps count (cleanup h) (λ _. cleanup_holds h))
              (λ _. record {
                kept = λ i e.
                    subst (λ (j : LedInstance). Consistent hw 0 j h) (some_inj e)
                      (record {
                        held = free;
                        in_range = ok.in_range;
                        switch = ok.switch;
                        shown = applied (unnegate_true _ good);
                      });
                counted = λ _. (refl, (λ e. cc), up);
                given_up = λ n. cc;
              }))
      where
        some_inj : {x y : LedInstance} → some x ≡ some y → x ≡ y
        some_inj e = cc

    probe_set_up-Fair :
        (r : ℤ × State)
        → (is_zero r.0 ≡ true → holds r.1 ≡ true)
        → (start ≡ false → is_zero r.0 ≡ false → holds r.1 ≡ false)
        → Fair start caps count (probe_set_up hw args inst caps count r)
    unfolding probe_set_up apply_locked
    probe_set_up-Fair (ret, h) up down =
        if_elim (Fair start caps count) (not (is_zero ret)) _ _
          (λ bad.
            give_up-Fair start ret caps count h (λ s. down s (unnegate_false (is_zero ret) bad))
              bad)
          (λ good.
            if_elim
              (λ (r : ℤ × State). Fair start caps count (probe_applied hw args inst caps count r))
              (not inst.can_apply) _ _
              (λ _. probe_applied-Fair _ (up (unnegate_true (is_zero ret) good)) (λ z. cc))
              (λ _.
                probe_applied-Fair _
                  (apply_holds (setting_of inst) h ∙ up (unnegate_true (is_zero ret) good))
                  (apply_ok (setting_of inst) h)))

  -- A probe that is given a fresh instance by the device tree part.
  probe_configured-Fair :
      (args : ProbeArgs) (caps count : ℕ) (h : State) (r : ℤ × LedInstance)
      → (is_zero r.0 ≡ true → Configured r.1 × (r.1.lock ≡ 0))
      → Fair (holds h) caps count (probe_configured hw args caps count h r)
  unfolding probe_configured
  probe_configured-Fair args caps count h (ret, inst) ok =
      if_elim (Fair (holds h) caps count) (not (is_zero ret)) _ _
        (give_up-Fair (holds h) ret caps count h (λ s. s))
        (λ good.
          let fine = ok (unnegate_true _ good) in
          probe_set_up-Fair args inst caps count (holds h) fine.0 fine.1 (setup h) (setup_ok h)
            (setup_failed h))

  led_probe-Fair :
      (args : ProbeArgs) (caps count : ℕ) (h : State)
      → Fair (holds h) caps count (led_probe hw args caps count h)
  unfolding led_probe
  led_probe-Fair args caps count h =
      if_elim (Fair (holds h) caps count) (not args.allocated) _ _
        (λ _. give_up-Fair (holds h) _ caps count h (λ s. s) refl)
        (λ _.
          probe_configured-Fair args caps count h _
            (λ z. let c = read_dt_config-Configured args.node _ z in (c.0, c.1.1)))

  -- Commands in turn, on one device.
  unfoldable pub ioctls : List Command → LedInstance → State → LedInstance × State
  ioctls [] inst h = (inst, h)
  ioctls (c ∷ cs) inst h = let r = ioctl hw 0 0 c inst h in ioctls cs r.2 r.3

  ioctls-Consistent :
      (cs : List Command) (inst : LedInstance) (h : State)
      → Consistent hw 0 inst h
      → let r = ioctls cs inst h in Consistent hw 0 r.0 r.1
  unfolding ioctls
  ioctls-Consistent [] inst h ok = ok
  ioctls-Consistent (c ∷ cs) inst h ok =
      ioctls-Consistent cs _ _ (ioctl-Consistent hw 0 0 c inst h ok)

  -- Once an LED device is probed, and after any commands, failing ones included, the lock is free,
  -- the brightness is at most the maximum, the switch is 0 or 1, and the LED shows just what these
  -- values ask for.
  pub led_probe-ioctls :
      (args : ProbeArgs) (caps count : ℕ) (h : State) (inst : LedInstance)
      → (led_probe hw args caps count h).instance ≡ some inst
      → (cs : List Command)
      → let (last, state) = ioctls cs inst (led_probe hw args caps count h).hardware in
        (last.lock ≡ 0)
        × (last.brightness ≤ last.max_brightness)
        × (last.enabled ≤ 1)
        × (shows state ≡ asked (setting_of last))
  led_probe-ioctls args caps count h inst e cs =
      let ok = ioctls-Consistent cs inst _ ((led_probe-Fair args caps count h).kept inst e) in
      (ok.held, ok.in_range, ok.switch, ok.shown)

  -- From hardware that holds no line or device, a probe of an LED device returns 0, keeps an
  -- instance, which it counts, and holds what it has set up; or it returns an error, keeps no instance
  -- and no line or device, whichever step failed, and leaves the count and the capabilities of the
  -- device as they were. To remove a kept instance takes the count back and lets go of the line or
  -- device.
  pub led_probe-led_remove :
      (args : ProbeArgs) (caps count : ℕ) (h : State)
      → holds h ≡ false
      → let p = led_probe hw args caps count h in
        (is_zero p.ret ≡ true
          → ((p.instance ≡ none) → ⊥)
            × (holds p.hardware ≡ true)
            × ((inst : LedInstance)
                → let removed = led_remove hw inst p.device_count p.hardware in
                  (removed.1 ≡ count) × (holds removed.2 ≡ false)))
        × (is_zero p.ret ≡ false
            → (p.instance ≡ none)
              × (holds p.hardware ≡ false)
              × (p.device_count ≡ count)
              × (p.capabilities ≡ caps))
  unfolding led_remove
  led_probe-led_remove args caps count h down =
      let fair = led_probe-Fair args caps count h in
      (
        λ z.
            let c = fair.counted z in
            (c.1, c.2, λ inst. ((let n = c.0 in omega (arith, n)), cleanup_holds _)),
        λ n. let g = fair.given_up n in (g.1, g.2 down, g.0, g.3),
      )
