-- ===== src/Pdm/Mcu/Probe.antt =====
-- Probing an MCU device, using it and removing it: kernel/pdm/drivers/mcu/pdm_mcu.c.
use lpf.Common.{
  unnegate_true, unnegate_false, ℕ, ◌+◌, ◌≡◌, refl, sym, subst, inl, if_elim, Bool, true, false,
  not, List, [], ◌∷◌, Option, none, some, ℤ, is_zero, ret_ok, arith,
}
use lpf.Pdm.Device.{PdmDevice, set_state, state_bound, type_mcu}
use lpf.Pdm.Registry.{BackendEntry, backend_find}
use lpf.Pdm.Mcu.Transport.{Transport}
use lpf.Pdm.Mcu.Driver.{McuInstance, Command, mcu_ready, ioctl}
use lpf.Pdm.Mcu.Lifecycle.{Probed, give_up, probe_set_up, probe_found, mcu_probe, mcu_remove}
use lpf.Pdm.Mcu.States.{Agree, ioctl-Agree}

module _ (link : Transport) where
  open link use {State, setup, cleanup, is_up, setup_ok, setup_failed, cleanup_down}

  -- What a probe leaves of a link that was down.
  pub record Fair (count : ℕ) (p : Probed link) : Type 0 where
    pub ready :
        (inst : McuInstance)
        → p.instance ≡ some inst
        → (inst.lock ≡ 0) × (inst.state ≡ mcu_ready) × (inst.last_error ≡ ret_ok)
    pub kept :
        is_zero p.ret ≡ true
        → ((p.instance ≡ none) → ⊥) × (p.device_count ≡ count + 1) × (is_up p.hardware ≡ true)
    pub given_up :
        is_zero p.ret ≡ false
        → (p.instance ≡ none) × (p.device_count ≡ count) × (is_up p.hardware ≡ false)

  give_up-Fair :
      (ret : ℤ) (d : PdmDevice) (count : ℕ) (h : State)
      → not (is_zero ret) ≡ true
      → is_up h ≡ false
      → Fair count (give_up link ret d count h)
  give_up-Fair ret d count h bad down = record {
    ready = λ i e. cc;
    kept = λ z. cc (z, bad);
    given_up = λ _. (refl, refl, down);
  }

  some_inj : {x y : McuInstance} → some x ≡ some y → y ≡ x
  some_inj e = cc

  probe_set_up-Fair :
      (cdev_register : ℤ) (d : PdmDevice) (count : ℕ) (r : ℤ × State)
      → (is_zero r.0 ≡ true → is_up r.1 ≡ true)
      → (is_zero r.0 ≡ false → is_up r.1 ≡ false)
      → Fair count (probe_set_up link cdev_register d count r)
  unfolding probe_set_up
  probe_set_up-Fair cdev_register d count (ret, h) ok failed =
      if_elim (Fair count) (not (is_zero ret)) _ _
        (λ bad. give_up-Fair ret d count h bad (failed (unnegate_false _ bad)))
        (λ good.
          if_elim (Fair count) (not (is_zero cdev_register)) _ _
            (λ bad. give_up-Fair cdev_register d count (cleanup h) bad (cleanup_down h))
            (λ _. record {
              ready = λ i e.
                  subst
                    (λ (j : McuInstance).
                      (j.lock ≡ 0) × (j.state ≡ mcu_ready) × (j.last_error ≡ ret_ok))
                    (sym (some_inj e)) (refl, refl, refl);
              kept = λ _. ((λ e. cc), refl, ok (unnegate_true _ good));
              given_up = λ n. cc;
            }))

  probe_found-Fair :
      (o : Option BackendEntry) (cdev_register : ℤ) (d : PdmDevice) (count : ℕ) (h : State)
      → is_up h ≡ false
      → Fair count (probe_found link o cdev_register d count h)
  unfolding probe_found
  probe_found-Fair none cdev_register d count h down = give_up-Fair _ d count h refl down
  probe_found-Fair (some entry) cdev_register d count h down =
      probe_set_up-Fair cdev_register d count (setup h) (setup_ok h) (λ n. setup_failed h down n)

  mcu_probe-Fair :
      (allocated : Bool) (entries : List BackendEntry) (cdev_register : ℤ) (d : PdmDevice)
      (count : ℕ) (h : State)
      → is_up h ≡ false
      → Fair count (mcu_probe link allocated entries cdev_register d count h)
  unfolding mcu_probe
  mcu_probe-Fair allocated entries cdev_register d count h down =
      if_elim (Fair count) (not allocated) _ _ (λ _. give_up-Fair _ d count h refl down)
        (λ _.
          probe_found-Fair (backend_find type_mcu 0 d.compatible entries) cdev_register d count h
            down)

  -- A probe of an MCU device over a link that is down returns 0, keeps an instance, counts it, and
  -- leaves the link up, or it returns an error, keeps none, leaves the count as it was, and leaves
  -- the link down, whichever step failed. To remove the instance takes the link down and the count
  -- back.
  pub mcu_probe-mcu_remove :
      (allocated : Bool) (entries : List BackendEntry) (cdev_register : ℤ) (d : PdmDevice)
      (count : ℕ) (h : State)
      → is_up h ≡ false
      → let p = mcu_probe link allocated entries cdev_register d count h in
        (is_zero p.ret ≡ true
          → ((p.instance ≡ none) → ⊥)
            × (is_up p.hardware ≡ true)
            × ((inst : McuInstance)
                → let (left, n, h') = mcu_remove link inst p.device_count p.hardware in
                  (left.online ≡ false) × (n ≡ count) × (is_up h' ≡ false)))
        × (is_zero p.ret ≡ false
            → (p.instance ≡ none) × (p.device_count ≡ count) × (is_up p.hardware ≡ false))
  unfolding mcu_remove
  mcu_probe-mcu_remove allocated entries cdev_register d count h down =
      let fair = mcu_probe-Fair allocated entries cdev_register d count h down in
      (
        λ z.
            let k = fair.kept z in
            (k.0, k.2, λ inst. (refl, (let n = k.1 in omega (arith, n)), cleanup_down _)),
        fair.given_up,
      )

  -- The instance once the bus has ended the probe, which marks the device as bound.
  abbrev pub bound : McuInstance → McuInstance
  bound inst = record inst {
    pdm_dev = record (set_state state_bound inst.pdm_dev) { last_error = ret_ok };
  }

  -- Commands in turn, on one device.
  unfoldable pub ioctls : List Command → McuInstance → State → McuInstance
  ioctls [] inst h = inst
  ioctls (c ∷ cs) inst h = let r = ioctl link c inst h in ioctls cs r.inst r.link

  ioctls-Agree :
      (cs : List Command) (inst : McuInstance) (h : State) → Agree inst → Agree (ioctls cs inst h)
  unfolding ioctls
  ioctls-Agree [] inst h ok = ok
  ioctls-Agree (c ∷ cs) inst h ok = ioctls-Agree cs _ _ (ioctl-Agree link c inst h ok)

  -- From a probe that the bus has ended on, after any commands, failing ones included, the lock of
  -- the MCU is free, and while it is online the MCU is READY and its PDM device BOUND, both without
  -- an error, or the MCU and its PDM device are both in ERROR with the same code.
  pub mcu_probe-ioctls :
      (allocated : Bool) (entries : List BackendEntry) (cdev_register : ℤ) (d : PdmDevice)
      (count : ℕ) (h : State)
      → is_up h ≡ false
      → (inst : McuInstance)
      → (mcu_probe link allocated entries cdev_register d count h).instance ≡ some inst
      → (cs : List Command)
      → let p = mcu_probe link allocated entries cdev_register d count h in
        Agree (ioctls cs (bound inst) p.hardware)
  mcu_probe-ioctls allocated entries cdev_register d count h down inst e cs =
      let r = (mcu_probe-Fair allocated entries cdev_register d count h down).ready inst e in
      ioctls-Agree cs (bound inst) _
        (record { free = r.0; reason = sym r.2; states = λ _. inl (r.1, refl, r.2) })
