-- ===== src/Pdm/Mcu/States.antt =====
-- The states of an MCU device and of its PDM device: kernel/pdm/drivers/mcu/pdm_mcu.c.
use lpf.Common.{
  ℕ, ◌-◌, ◌≡◌, refl, ◌⊎◌, inl, inr, if_elim, if_true, Bool, true, false, not, Option, none, some, ℤ,
  is_neg, is_zero, ret_ok, arith,
}
use lpf.Pdm.Device.{state_bound, state_error}
use lpf.Pdm.Mcu.Transport.{Transport, Answer}
use lpf.Pdm.Mcu.{McuCommand, protocol_get_version, protocol_get_status}
use lpf.Pdm.Mcu.Driver.{
  McuInstance, Command, Written, Result, mcu_ready, mcu_error, update_state, claim_device,
  release_device, finish, read_locked, get_version, get_status, reset_locked, reset, command_locked,
  command_ioctl, ioctl,
}

-- The lock is free, and the MCU, if it is online, and its PDM device are both well or both in error,
-- and for the same reason.
pub record Agree (inst : McuInstance) : Type 0 where
  pub free : inst.lock ≡ 0
  pub reason : inst.pdm_dev.last_error ≡ inst.last_error
  pub states :
      inst.online ≡ true
      → ((inst.state ≡ mcu_ready) × (inst.pdm_dev.state ≡ state_bound) × (inst.last_error ≡ ret_ok))
        ⊎ ((inst.state ≡ mcu_error)
            × (inst.pdm_dev.state ≡ state_error)
            × (is_neg inst.last_error ≡ true))

-- A release makes them agree, whatever was before.
release_device-Agree :
    (inst : McuInstance) (ret : ℤ) → inst.lock ≡ 1 → Agree (release_device inst ret)
unfolding release_device update_state
release_device-Agree inst ret once =
    if_elim (λ (i : McuInstance). Agree (record i { lock = i.lock - 1 })) (is_neg ret) _ _
      (λ bad. record {
        free = omega (arith, once);
        reason = refl;
        states = λ on. inr (if_true inst.online _ _ on, if_true inst.online _ _ on, bad);
      })
      (λ _. record {
        free = omega (arith, once);
        reason = refl;
        states = λ on. inl (if_true inst.online _ _ on, if_true inst.online _ _ on, refl);
      })

claim_device-Agree :
    {A : Type 0} (P : A → Type 0) (inst : McuInstance) (f : ℤ × McuInstance → A)
    → inst.lock ≡ 0
    → ((ret : ℤ) → is_zero ret ≡ false → P (f (ret, inst)))
    → ((i : McuInstance) → i.lock ≡ 1 → P (f (ret_ok, i)))
    → P (f (claim_device inst))
unfolding claim_device
claim_device-Agree P inst f free failed held =
    if_elim (λ (r : ℤ × McuInstance). P (f r)) (not inst.online) _ _ (λ _. failed _ refl)
      (λ _.
        if_elim (λ (r : ℤ × McuInstance). P (f r)) (not inst.has_ops) _ _ (λ _. failed _ refl)
          (λ _. held _ (omega (arith, free))))

module _ (link : Transport) where
  open link use {State}

  abbrev Leaves : Result Written State → Type 0
  Leaves r = Agree r.inst

  read_locked-Agree :
      (writable : Bool) (ask : State → Answer State) (inst : McuInstance) (h : State)
      → Agree inst
      → Leaves (read_locked link writable ask (claim_device inst) h)
  unfolding read_locked finish
  read_locked-Agree writable ask inst h ok =
      claim_device-Agree Leaves inst (λ r. read_locked link writable ask r h) ok.free
        (λ ret bad. if_elim Leaves (is_zero ret) _ _ (λ z. cc (z, bad)) (λ _. ok))
        (λ i once. release_device-Agree i _ once)

  pub ioctl-Agree :
      (c : Command) (inst : McuInstance) (h : State) → Agree inst → Leaves (ioctl link c inst h)
  unfolding ioctl get_version get_status reset reset_locked command_ioctl command_locked finish
  ioctl-Agree (Command.ask_version p) inst h ok = given p.readable
    where
      given : (o : Option ℕ) → Leaves (get_version link o p.writable inst h)
      given none = ok
      given (some index) = read_locked-Agree p.writable (protocol_get_version link index) inst h ok
  ioctl-Agree (Command.ask_status p) inst h ok = given p.readable
    where
      given : (o : Option ℕ) → Leaves (get_status link o p.writable inst h)
      given none = ok
      given (some index) = read_locked-Agree p.writable (protocol_get_status link index) inst h ok
  ioctl-Agree (Command.ask_reset none) inst h ok = ok
  ioctl-Agree (Command.ask_reset (some index)) inst h ok =
      claim_device-Agree Leaves inst (λ r. reset_locked link index r h) ok.free
        (λ ret bad. if_elim Leaves (is_zero ret) _ _ (λ z. cc (z, bad)) (λ _. ok))
        (λ i once. release_device-Agree i _ once)
  ioctl-Agree (Command.ask_command p) inst h ok = given p.readable
    where
      given : (o : Option McuCommand) → Leaves (command_ioctl link o p.writable inst h)
      given none = ok
      given (some c) =
          claim_device-Agree Leaves inst (λ r. command_locked link p.writable c r h) ok.free
            (λ ret bad. if_elim Leaves (is_zero ret) _ _ (λ z. cc (z, bad)) (λ _. ok))
            (λ i once. release_device-Agree i _ once)
  ioctl-Agree Command.other inst h ok = ok
