-- ===== src/Pdm/Bus/Probe.antt =====
-- Probes and removals of devices as steps, and the ids under them: kernel/pdm/bus/pdm_bus.c over
-- kernel/pdm/bus/pdm_device.c.
use lpf.Common.{
  ℕ, ◌≡◌, refl, sym, ap, subst, ◌∙◌, ◌==◌, if◌then◌else◌, if_elim, if_true, Bool, true, false,
  Option, none, some, ℤ, is_zero, is_neg, get_or, ==_refl, ==_iff,
}
use lpf.Pdm.Device.{
  PdmDevice, record_error, record_error_type, write_history, same_error, error_type_runtime,
  zero_record,
}
use lpf.Pdm.Ids.{Allocators, unbind, get_allocator}
use lpf.Pdm.Ids.Interface.{Ida}
use lpf.Pdm.Ids.Unique.{Holder, IdsOk, put}
use lpf.Pdm.Ids.Binding.{bind-IdsOk, unbind-IdsOk}
use lpf.Pdm.Bus.{
  Driver, finish_probe, probe_bound, probe_with, device_probe, run_remove, device_remove,
}

-- The two have the same id, type and binding.
unfoldable pub SameId : PdmDevice → PdmDevice → Type 0
SameId d e = (d.id_allocated ≡ e.id_allocated) × (d.device_type ≡ e.device_type) × (d.id ≡ e.id)

-- The callbacks of a driver leave the id and its type to the bus.
pub record LeavesIds (drv : Driver) : Type 0 where
  pub on_probe :
      (f : PdmDevice → ℤ × PdmDevice) → drv.probe ≡ some f → (d : PdmDevice) → SameId d (f d).1
  pub on_remove : (d : PdmDevice) → SameId d (run_remove drv.remove d)

pub record_error-SameId : (ret : ℤ) (now : ℕ) (d : PdmDevice) → SameId d (record_error ret now d)
unfolding SameId record_error record_error_type write_history
record_error-SameId ret now d =
    if_elim (SameId d) (is_zero ret) d _ (λ _. (refl, refl, refl))
      (λ _.
        if_elim (λ (w : PdmDevice). SameId d (record w { error_count = 0 }))
          (same_error ret error_type_runtime (get_or d.errors d.error_write_index zero_record)) _ _
          (λ _. (refl, refl, refl)) (λ _. (refl, refl, refl)))

choice :
    (b : Bool) (d e x : PdmDevice) → SameId d e → SameId (if b then d else x) (if b then e else x)
unfolding SameId
choice true d e x same = same
choice false d e x same = (refl, refl, refl)

twice :
    (b : Bool) (d e x : PdmDevice)
    → SameId (if b then e else (if b then d else x)) (if b then e else x)
unfolding SameId
twice true d e x = (refl, refl, refl)
twice false d e x = (refl, refl, refl)

module _ (ida : Ida) where
  congruent :
      (devs others : ℕ → PdmDevice) (a : Allocators ida)
      → ((j : ℕ) → SameId (devs j) (others j))
      → IdsOk ida devs a
      → IdsOk ida others a
  unfolding SameId
  congruent devs others a same ok = record {
    known = λ j h. ap get_allocator (sym (same j).1) ∙ ok.known j ((same j).0 ∙ h);
    numbered = λ j h. ap is_neg (sym (same j).2) ∙ ok.numbered j ((same j).0 ∙ h);
    held = λ j t n h. ok.held j t n (before j t n h);
    apart = λ j k t n hj hk. ok.apart j k t n (before j t n hj) (before k t n hk);
  }
    where
      before : (j t n : ℕ) → Holder (others j) t n → Holder (devs j) t n
      before j t n h = ((same j).0 ∙ h.0, (same j).1 ∙ h.1, (same j).2 ∙ h.2)

  -- A device in the place of one with the same id.
  replaced :
      (devs : ℕ → PdmDevice) (i : ℕ) (d e : PdmDevice) (a : Allocators ida)
      → SameId d e
      → IdsOk ida (put ida devs i d) a
      → IdsOk ida (put ida devs i e) a
  replaced devs i d e a same = congruent _ _ a (λ j. choice (j == i) d e (devs j) same)

  unbind-put :
      (devs : ℕ → PdmDevice) (i : ℕ) (d : PdmDevice) (a : Allocators ida)
      → IdsOk ida (put ida devs i d) a
      → let (e, b) = unbind ida d a in IdsOk ida (put ida devs i e) b
  unbind-put devs i d a ok =
      subst (λ (x : PdmDevice). let (e, b) = unbind ida x a in IdsOk ida (put ida devs i e) b)
        (if_true (i == i) d (devs i) (==_refl i))
        (congruent _ _ _ (λ j. twice (j == i) d _ (devs j))
          (unbind-IdsOk ida (put ida devs i d) i a ok))

  -- What a probe or a bind of device `i` leaves.
  abbrev Left : (ℕ → PdmDevice) → ℕ → ℤ × PdmDevice × Allocators ida → Type 0
  Left devs i out = IdsOk ida (put ida devs i out.1) out.2

  finish_probe-IdsOk :
      (devs : ℕ → PdmDevice) (i now : ℕ) (r : ℤ × PdmDevice) (a : Allocators ida)
      → IdsOk ida (put ida devs i r.1) a
      → Left devs i (finish_probe ida now r a)
  unfolding finish_probe SameId
  finish_probe-IdsOk devs i now (ret, d) a ok =
      if_elim (Left devs i) (is_zero ret) _ _ (λ _. replaced devs i d _ a (refl, refl, refl) ok)
        (λ _. unbind-put devs i _ a (replaced devs i d _ a (record_error-SameId ret now d) ok))

  probe_bound-IdsOk :
      (devs : ℕ → PdmDevice) (i now : ℕ) (f : PdmDevice → ℤ × PdmDevice)
      → ((d : PdmDevice) → SameId d (f d).1)
      → (out : ℤ × PdmDevice × Allocators ida) → Left devs i out
      → Left devs i (probe_bound ida now f out)
  unfolding probe_bound
  probe_bound-IdsOk devs i now f leaves (ret, d, a) ok =
      if_elim (Left devs i) (is_zero ret) _ _
        (λ _. finish_probe-IdsOk devs i now (f d) a (replaced devs i d _ a (leaves d) ok))
        (λ _. replaced devs i d _ a (record_error-SameId ret now d) ok)

  same_device :
      (devs : ℕ → PdmDevice) (i : ℕ) (a : Allocators ida)
      → IdsOk ida devs a
      → IdsOk ida (put ida devs i (devs i)) a
  unfolding SameId
  same_device devs i a = congruent _ _ a (λ j. itself (j == i) j refl)
    where
      itself : (b : Bool) (j : ℕ) → (j == i) ≡ b → SameId (devs j) (if b then devs i else devs j)
      itself true j e =
          subst (λ (k : ℕ). SameId (devs j) (devs k)) ((==_iff j i).0 e) (refl, refl, refl)
      itself false j e = (refl, refl, refl)

  probe_with-IdsOk :
      (devs : ℕ → PdmDevice) (i now : ℕ) (drv : Driver) (p : Option (PdmDevice → ℤ × PdmDevice))
      → drv.probe ≡ p
      → LeavesIds drv
      → (a : Allocators ida) → IdsOk ida devs a
      → Left devs i (probe_with ida now p drv (devs i) a)
  unfolding probe_with
  probe_with-IdsOk devs i now drv none e leaves a ok = same_device devs i a ok
  probe_with-IdsOk devs i now drv (some f) e leaves a ok =
      probe_bound-IdsOk devs i now f (leaves.on_probe f e) _
        (bind-IdsOk ida devs i drv.device_type drv.capabilities a ok)

  device_probe-IdsOk :
      (devs : ℕ → PdmDevice) (i now : ℕ) (drv : Driver)
      → LeavesIds drv
      → (a : Allocators ida) → IdsOk ida devs a
      → Left devs i (device_probe ida now (some drv) (devs i) a)
  unfolding device_probe
  device_probe-IdsOk devs i now drv leaves a ok =
      probe_with-IdsOk devs i now drv drv.probe refl leaves a ok

  device_remove-IdsOk :
      (devs : ℕ → PdmDevice) (i : ℕ) (drv : Driver)
      → LeavesIds drv
      → (a : Allocators ida) → IdsOk ida devs a
      → let (d, b) = device_remove ida (some drv) (devs i) a in IdsOk ida (put ida devs i d) b
  unfolding device_remove
  device_remove-IdsOk devs i drv leaves a ok =
      unbind-put devs i (run_remove drv.remove (devs i)) a
        (replaced devs i (devs i) _ a (leaves.on_remove (devs i)) (same_device devs i a ok))

  -- The states that the bus reaches from devices without an id, by probes and removals.
  pub data Reachable : (ℕ → PdmDevice) → Allocators ida → Type 0 where
    start :
        (devs : ℕ → PdmDevice) (a : Allocators ida)
        → ((i : ℕ) → (devs i).id_allocated ≡ false)
        → Reachable devs a
    probed :
        (devs : ℕ → PdmDevice) (a : Allocators ida) (i now : ℕ) (drv : Driver)
        → Reachable devs a
        → LeavesIds drv
        → Reachable
            (put ida devs i (device_probe ida now (some drv) (devs i) a).1)
            (device_probe ida now (some drv) (devs i) a).2
    removed :
        (devs : ℕ → PdmDevice) (a : Allocators ida) (i : ℕ) (drv : Driver)
        → Reachable devs a
        → LeavesIds drv
        → Reachable
            (put ida devs i (device_remove ida (some drv) (devs i) a).0)
            (device_remove ida (some drv) (devs i) a).1

  reached : (devs : ℕ → PdmDevice) (a : Allocators ida) → Reachable devs a → IdsOk ida devs a
  reached devs a (Reachable.start _ _ none_bound) = record {
    known = λ i h. cc (h, none_bound i);
    numbered = λ i h. cc (h, none_bound i);
    held = λ i t n h. cc (h.0, none_bound i);
    apart = λ i j t n h _. cc (h.0, none_bound i);
  }
  reached devs a (Reachable.probed before b i now drv r leaves) =
      device_probe-IdsOk before i now drv leaves b (reached before b r)
  reached devs a (Reachable.removed before b i drv r leaves) =
      device_remove-IdsOk before i drv leaves b (reached before b r)

  -- After any sequence of probes and removals that starts with unbound devices, with drivers whose
  -- callbacks leave the ids alone and whatever succeeds or fails on the way, two bound devices of
  -- one type that have the same id are the same device, and that id is one that the allocator of
  -- the type has handed out.
  pub Reachable-unique :
      (devs : ℕ → PdmDevice) (a : Allocators ida)
      → Reachable devs a
      → (i j t n : ℕ) → Holder (devs i) t n
      → Holder (devs j) t n
      → (i ≡ j) × (ida.taken (a.pools t) n ≡ true)
  Reachable-unique devs a r i j t n hi hj =
      let ok = reached devs a r in (ok.apart i j t n hi hj, ok.held i t n hi)
