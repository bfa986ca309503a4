-- ===== src/Pdm/Led/Ioctl.antt =====
-- The commands of an LED device: kernel/pdm/drivers/led/pdm_led.c.
use lpf.Common.{
  ℕ, ◌+◌, ◌-◌, ◌≤◌, ◌≡◌, refl, ap, ◌∙◌, ◌==◌, ltb, if◌then◌else◌, if_elim, Bool, true, false, not,
  Option, none, some, ℤ, is_zero, ret_ok, erange, enodev, eopnotsupp, arith,
}
use lpf.Pdm.User.{Reply}
use lpf.Pdm.Led.Backend.{Hardware}
use lpf.Pdm.Led.{
  LedInstance, LedBrightness, LedState, Command, driver_claim, driver_release, setting_of,
  apply_locked, keep_or_restore, brightness_locked, brightness_checked, set_brightness,
  enabled_locked, set_enabled, state_locked, get_state, ioctl,
}

module _ (hw : Hardware) where
  open hw use {State, Light, shows, asked, apply, apply_ok, apply_failed}

  -- The lock is held `n` times, the values are in their ranges, and the LED shows them.
  pub record Consistent (n : ℕ) (inst : LedInstance) (h : State) : Type 0 where
    pub held : inst.lock ≡ n
    pub in_range : inst.brightness ≤ inst.max_brightness
    pub switch : inst.enabled ≤ 1
    pub shown : shows h ≡ asked (setting_of inst)

  abbrev Leaves : ℤ × LedInstance × State → Type 0
  Leaves (ret, inst, h) = Consistent 0 inst h

  abbrev changed : LedInstance → ℕ → ℕ → LedInstance
  changed old b e = record old { brightness = b; enabled = e }

  keep_or_restore-Consistent :
      (old : LedInstance) (b e : ℕ) (h : State) (r : ℤ × State)
      → Consistent 1 old h
      → b ≤ old.max_brightness
      → e ≤ 1
      → (is_zero r.0 ≡ true → shows r.1 ≡ asked (setting_of (changed old b e)))
      → (is_zero r.0 ≡ false → shows r.1 ≡ shows h)
      → Leaves (keep_or_restore hw old (changed old b e) r)
  unfolding keep_or_restore driver_release
  keep_or_restore-Consistent old b e h (ret, h') ok low switch done undone =
      if_elim (λ (i : LedInstance). Consistent 0 (record i { lock = i.lock - 1 }) h') (is_zero ret)
        _ _
        (λ z. record {
          held = (let l = ok.held in omega (arith, l));
          in_range = low;
          switch = switch;
          shown = done z;
        })
        (λ n. record {
          held = (let l = ok.held in omega (arith, l));
          in_range = ok.in_range;
          switch = ok.switch;
          shown = undone n ∙ ok.shown;
        })

  locked-Consistent :
      (old : LedInstance) (b e : ℕ) (h : State)
      → Consistent 1 old h
      → b ≤ old.max_brightness
      → e ≤ 1
      → Leaves (keep_or_restore hw old (changed old b e) (apply_locked hw (changed old b e) h))
  unfolding apply_locked
  locked-Consistent old b e h ok low switch =
      if_elim (λ (r : ℤ × State). Leaves (keep_or_restore hw old (changed old b e) r))
        (not old.can_apply) (eopnotsupp, h) _
        (λ _.
          keep_or_restore-Consistent old b e h (eopnotsupp, h) ok low switch (λ z. cc) (λ _. refl))
        (λ _.
          keep_or_restore-Consistent old b e h _ ok low switch (apply_ok _ h) (apply_failed _ h))

  -- A claim that returns 0 holds the lock once, and one that fails changes nothing.
  claimed-Consistent :
      {A : Type 0} (P : A → Type 0) (inst : LedInstance) (h : State) (f : ℤ × LedInstance → A)
      → Consistent 0 inst h
      → ((ret : ℤ) → is_zero ret ≡ false → P (f (ret, inst)))
      → ((i : LedInstance)
          → i.max_brightness ≡ inst.max_brightness
          → Consistent 1 i h
          → P (f (ret_ok, i)))
      → P (f (driver_claim inst))
  unfolding driver_claim
  claimed-Consistent P inst h f ok failed held =
      if_elim (λ (r : ℤ × LedInstance). P (f r)) (not inst.online) _ _ (λ _. failed _ refl)
        (λ _. held _ refl (record {
          held = (let l = ok.held in omega (arith, l));
          in_range = ok.in_range;
          switch = ok.switch;
          shown = ok.shown;
        }))

  set_brightness-Consistent :
      (b : Option LedBrightness) (inst : LedInstance) (h : State)
      → Consistent 0 inst h
      → Leaves (set_brightness hw b inst h)
  unfolding set_brightness brightness_checked brightness_locked
  set_brightness-Consistent none inst h ok = ok
  set_brightness-Consistent (some b) inst h ok =
      if_elim Leaves (ltb inst.max_brightness b.brightness) _ _ (λ _. ok)
        (λ low.
          claimed-Consistent Leaves inst h (λ r. brightness_locked hw b.brightness r h) ok
            (λ ret bad. if_elim Leaves (is_zero ret) _ _ (λ z. cc (z, bad)) (λ _. ok))
            (λ i same held.
              locked-Consistent i b.brightness _ h held (ground (arith, same, low))
                (let s = held.switch in ground (arith, s))))

  set_enabled-Consistent :
      (index : Option ℕ) (enabled : Bool) (inst : LedInstance) (h : State)
      → Consistent 0 inst h
      → Leaves (set_enabled hw index enabled inst h)
  unfolding set_enabled enabled_locked
  set_enabled-Consistent none enabled inst h ok = ok
  set_enabled-Consistent (some index) enabled inst h ok =
      claimed-Consistent Leaves inst h (λ r. enabled_locked hw enabled r h) ok
        (λ ret bad. if_elim Leaves (is_zero ret) _ _ (λ z. cc (z, bad)) (λ _. ok))
        (λ i same held. locked-Consistent i i.brightness _ h held held.in_range (bit enabled))
    where
      bit : (b : Bool) → (if b then 1 else 0) ≤ 1
      bit true = omega arith
      bit false = omega arith

  get_state-Consistent :
      (s : Option LedState) (writable : Bool) (inst : LedInstance) (h : State)
      → Consistent 0 inst h
      → Consistent 0 (get_state s writable inst).1 h
  unfolding get_state state_locked driver_release
  get_state-Consistent none writable inst h ok = ok
  get_state-Consistent (some s) writable inst h ok =
      claimed-Consistent (λ (i : LedInstance). Consistent 0 i h) inst h
        (λ r. (state_locked s writable r).1) ok
        (λ ret bad.
          if_elim (λ (r : Reply LedState × LedInstance). Consistent 0 r.1 h) (is_zero ret) _ _
            (λ z. cc (z, bad)) (λ _. ok))
        (λ i same held. record {
          held = (let l = held.held in omega (arith, l));
          in_range = held.in_range;
          switch = held.switch;
          shown = held.shown;
        })

  pub ioctl-Consistent :
      (opens devices : ℕ) (c : Command) (inst : LedInstance) (h : State)
      → Consistent 0 inst h
      → let (ret, w, new, h') = ioctl hw opens devices c inst h in Consistent 0 new h'
  unfolding ioctl
  ioctl-Consistent opens devices (Command.ask_info w) inst h ok = ok
  ioctl-Consistent opens devices (Command.ask_state p) inst h ok =
      get_state-Consistent p.readable p.writable inst h ok
  ioctl-Consistent opens devices (Command.set_level b) inst h ok =
      set_brightness-Consistent b inst h ok
  ioctl-Consistent opens devices (Command.enable i) inst h ok =
      set_enabled-Consistent i true inst h ok
  ioctl-Consistent opens devices (Command.disable i) inst h ok =
      set_enabled-Consistent i false inst h ok
  ioctl-Consistent opens devices Command.other inst h ok = ok

  -- What a setter leaves: the new values if it returned 0, and else the old ones.
  abbrev Atomic : LedInstance → LedInstance → ℤ × LedInstance × State → Type 0
  Atomic old new (ret, inst, h) =
      (is_zero ret ≡ true → inst ≡ new) × (is_zero ret ≡ false → inst ≡ old)

  unlocked : (i : LedInstance) → record i { lock = i.lock + 1 - 1 } ≡ i
  unlocked i = ap (λ (n : ℕ). record i { lock = n }) (omega arith)

  kept-Atomic :
      (old : LedInstance) (b e : ℕ) (r : ℤ × State)
      → let held = record old { lock = old.lock + 1 } in
        Atomic old (changed old b e) (keep_or_restore hw held (changed held b e) r)
  unfolding keep_or_restore driver_release
  kept-Atomic old b e (ret, h) =
      if_elim
        (λ (i : LedInstance).
          (is_zero ret ≡ true → record i { lock = i.lock - 1 } ≡ changed old b e)
          × (is_zero ret ≡ false → record i { lock = i.lock - 1 } ≡ old))
        (is_zero ret) _ _ (λ z. ((λ _. unlocked (changed old b e)), λ n. cc (z, n)))
        (λ n. ((λ z. cc (z, n)), λ _. unlocked old))

  failed-Atomic :
      (old new : LedInstance) (ret : ℤ) (h : State)
      → is_zero ret ≡ false
      → Atomic old new (ret, old, h)
  failed-Atomic old new ret h n = ((λ z. cc (z, n)), λ _. refl)

  claimed-Atomic :
      (inst new : LedInstance) (h : State) (f : ℤ × LedInstance → ℤ × LedInstance × State)
      → Atomic inst new (f (enodev, inst))
      → Atomic inst new (f (ret_ok, record inst { lock = inst.lock + 1 }))
      → Atomic inst new (f (driver_claim inst))
  unfolding driver_claim
  claimed-Atomic inst new h f offline online =
      if_elim (λ (r : ℤ × LedInstance). Atomic inst new (f r)) (not inst.online) _ _ (λ _. offline)
        (λ _. online)

  -- SET_BRIGHTNESS, ENABLE and DISABLE are atomic: if one returns 0 then the values are those asked
  -- for, where a brightness that is not 0 also switches the LED on, and if it returns an error, for
  -- whatever reason, the instance is as before, its lock included.
  pub setters-Atomic :
      (b : LedBrightness) (index : ℕ) (inst : LedInstance) (h : State)
      → Atomic inst
          (changed inst b.brightness (if b.brightness == 0 then inst.enabled else 1))
          (set_brightness hw (some b) inst h)
        × Atomic inst (changed inst inst.brightness 1) (set_enabled hw (some index) true inst h)
        × Atomic inst (changed inst inst.brightness 0) (set_enabled hw (some index) false inst h)
  unfolding set_brightness brightness_checked brightness_locked set_enabled enabled_locked
  setters-Atomic b index inst h = (
    if_elim (Atomic inst _) (ltb inst.max_brightness b.brightness) _ _
        (λ _. failed-Atomic inst _ erange h refl)
        (λ _.
          claimed-Atomic inst _ h (λ r. brightness_locked hw b.brightness r h)
            (failed-Atomic inst _ enodev h refl) (kept-Atomic inst b.brightness _ _)),
    switched true,
    switched false,
  )
    where
      switched :
          (e : Bool)
          → Atomic inst
              (changed inst inst.brightness (if e then 1 else 0))
              (enabled_locked hw e (driver_claim inst) h)
      switched e =
          claimed-Atomic inst _ h (λ r. enabled_locked hw e r h)
            (failed-Atomic inst _ enodev h refl)
            (kept-Atomic inst inst.brightness (if e then 1 else 0) _)
