-- ===== src/Pdm/Bus/Outcome.antt =====
-- What a probe and a removal leave of the device: kernel/pdm/bus/pdm_bus.c.
use lpf.Common.{
  ℕ, ◌≡◌, refl, sym, ◌∙◌, if_elim, true, false, not, Option, none, some, ℤ, pos, negsuc, is_zero,
  ret_ok, arith,
}
use lpf.Pdm.Device.{PdmDevice, state_bound, record_error}
use lpf.Pdm.Ids.{Allocators, bind, bind_allocated, unbind, id_alloc}
use lpf.Pdm.Ids.Interface.{Ida}
use lpf.Pdm.Bus.{
  Driver, finish_probe, probe_bound, probe_with, device_probe, run_remove, device_remove,
}
use lpf.Pdm.Bus.Probe.{SameId, LeavesIds, record_error-SameId}

-- The device after a call that returned `ret`: bound to a driver of type `t`, or without an id.
pub record Settled (t : ℕ) (ret : ℤ) (d : PdmDevice) : Type 0 where
  pub bound :
      is_zero ret ≡ true
      → (d.state ≡ state_bound)
        × (d.last_error ≡ ret_ok)
        × (d.id_allocated ≡ true)
        × (d.device_type ≡ t)
  pub unbound : is_zero ret ≡ false → d.id_allocated ≡ false

module _ (ida : Ida) where
  -- After a bind: an id of the type, or none.
  abbrev Bound : ℕ → ℤ × PdmDevice × Allocators ida → Type 0
  Bound t (ret, d, a) =
      (is_zero ret ≡ true → (d.id_allocated ≡ true) × (d.device_type ≡ t))
      × (is_zero ret ≡ false → d.id_allocated ≡ false)

  bind_allocated-Bound :
      (t c : ℕ) (d : PdmDevice) (r : ℤ × Allocators ida)
      → d.id_allocated ≡ false
      → Bound t (bind_allocated ida t c d r)
  unfolding bind_allocated
  bind_allocated-Bound t c d (negsuc e, a) free = ((λ h. cc), λ h. free)
  bind_allocated-Bound t c d (pos id, a) free = ((λ h. (refl, refl)), λ h. cc)

  bind-Bound :
      (t c : ℕ) (d : PdmDevice) (a : Allocators ida)
      → d.id_allocated ≡ false
      → Bound t (bind ida t c d a)
  unfolding bind
  bind-Bound t c d a free =
      if_elim (Bound t) d.id_allocated _ _ (λ e. cc (e, free))
        (λ _. bind_allocated-Bound t c d (id_alloc ida t d.requested_id a) free)

  unbind-free : (d : PdmDevice) (a : Allocators ida) → (unbind ida d a).0.id_allocated ≡ false
  unfolding unbind
  unbind-free d a =
      if_elim (λ (r : PdmDevice × Allocators ida). r.0.id_allocated ≡ false) (not d.id_allocated) _
        _ (λ e. ground arith) (λ _. refl)

  abbrev After : ℕ → ℤ × PdmDevice × Allocators ida → Type 0
  After t (ret, d, a) = Settled t ret d

  finish_probe-Settled :
      (t now : ℕ) (r : ℤ × PdmDevice) (a : Allocators ida)
      → r.1.id_allocated ≡ true
      → r.1.device_type ≡ t
      → After t (finish_probe ida now r a)
  unfolding finish_probe
  finish_probe-Settled t now (ret, d) a held its_type =
      if_elim (After t) (is_zero ret) _ _
        (λ _. record { bound = λ _. (refl, refl, held, its_type); unbound = λ h. cc })
        (λ e. record {
          bound = λ h. cc (h, e);
          unbound = λ _. unbind-free (record_error ret now d) a;
        })

  probe_bound-Settled :
      (t now : ℕ) (f : PdmDevice → ℤ × PdmDevice)
      → ((d : PdmDevice) → SameId d (f d).1)
      → (out : ℤ × PdmDevice × Allocators ida) → Bound t out
      → After t (probe_bound ida now f out)
  unfolding probe_bound SameId
  probe_bound-Settled t now f leaves (ret, d, a) (ok, failed) =
      if_elim (After t) (is_zero ret) _ _
        (λ e.
          finish_probe-Settled t now (f d) a (sym (leaves d).0 ∙ (ok e).0)
            (sym (leaves d).1 ∙ (ok e).1))
        (λ e. record {
          bound = λ h. cc (h, e);
          unbound = λ _. sym (record_error-SameId ret now d).0 ∙ failed e;
        })

  probe_with-Settled :
      (now : ℕ) (p : Option (PdmDevice → ℤ × PdmDevice)) (drv : Driver) (d : PdmDevice)
      (a : Allocators ida)
      → drv.probe ≡ p
      → LeavesIds drv
      → d.id_allocated ≡ false
      → After drv.device_type (probe_with ida now p drv d a)
  unfolding probe_with
  probe_with-Settled now none drv d a e leaves free = record {
    bound = λ h. cc;
    unbound = λ _. free;
  }
  probe_with-Settled now (some f) drv d a e leaves free =
      probe_bound-Settled drv.device_type now f (leaves.on_probe f e) _
        (bind-Bound drv.device_type drv.capabilities d a free)

  -- Probing an unbound device with a driver whose callbacks leave the ids alone either returns 0
  -- and leaves the device in state BOUND, with no error, with an id and with the type of the
  -- driver, or it returns an error and leaves the device without an id, whichever step failed; and
  -- a removal always leaves the device without an id.
  pub device_probe-Settled :
      (now : ℕ) (drv : Driver) (d : PdmDevice) (a : Allocators ida)
      → LeavesIds drv
      → d.id_allocated ≡ false
      → After drv.device_type (device_probe ida now (some drv) d a)
        × ((e : PdmDevice) (b : Allocators ida)
            → (device_remove ida (some drv) e b).0.id_allocated ≡ false)
  unfolding device_probe device_remove
  device_probe-Settled now drv d a leaves free = (
    probe_with-Settled now drv.probe drv d a refl leaves free,
    λ e b. unbind-free (run_remove drv.remove e) b,
  )
