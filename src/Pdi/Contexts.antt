-- ===== src/Pdi/Contexts.antt =====
-- The descriptors that opening a device by its name takes: user/pdi/src/pdi_led.c and pdi_mcu.c.
use lpf.Common.{
  Bool, eqz, eqz_refl, eqz_iff, sym, ◌||◌, ◌&&◌, ◌≡◌, refl, ap, ◌∙◌, ◌==◌, not, if_elim, true,
  false, Option, none, some, ℤ, pos, negsuc, is_neg,
}
use lpf.Common.Text.{Text}
use lpf.Pdm.Manager.{DeviceInfo}
use lpf.Pdm.Manager
use lpf.Pdm.Device.{type_led, type_mcu}
use lpf.Pdi.{
  Result, Context, Syscalls, result_from_syscall, ioctl_checked, Changed, opened, open_device,
  closed, close_device,
}
use lpf.Pdi.Ctl.{take_info, ctl_open, ctl_close, ctl_ioctl, get_device_by_name}
use lpf.Pdi.Led.{
  led_open, led_open_path, led_open_found, led_open_searched, led_open_with, led_open_by_name,
}
use lpf.Pdi.Mcu.{
  mcu_open, mcu_open_path, mcu_open_found, mcu_open_searched, mcu_open_with, mcu_open_by_name,
}

-- What open(2), close(2) and ioctl(2) say of the open descriptors: `open` gives one that was not open,
-- and `close` of an open one takes it away, on Linux also when it reports an error. What `close` does
-- to a descriptor that is not open is left out.
pub record FileLaws (os : Syscalls) : Type 0 where
  pub is_open : os.State → ℤ → Bool
  pub sys_open_new :
      (p : Text) (h : os.State)
      → is_neg (os.sys_open p h).0 ≡ false
      → is_open h (os.sys_open p h).0 ≡ false
  pub sys_open_ok :
      (p : Text) (h : os.State)
      → is_neg (os.sys_open p h).0 ≡ false
      → (d : ℤ) → is_open (os.sys_open p h).1 d ≡ (eqz d (os.sys_open p h).0 || is_open h d)
  pub sys_open_failed :
      (p : Text) (h : os.State)
      → is_neg (os.sys_open p h).0 ≡ true
      → (d : ℤ) → is_open (os.sys_open p h).1 d ≡ is_open h d
  pub sys_close_files :
      (fd : ℤ) (h : os.State)
      → is_open h fd ≡ true
      → (d : ℤ) → is_open (os.sys_close fd h).1 d ≡ (not (eqz d fd) && is_open h d)
  pub ioctl_files :
      (fd : ℤ) (c : Manager.Command) (h : os.State) (d : ℤ)
      → is_open (os.manager_ioctl fd c h).2 d ≡ is_open h d

module _ (os : Syscalls) (files : FileLaws os) where
  open files use {is_open, sys_open_new, sys_open_ok, sys_open_failed, sys_close_files, ioctl_files}

  abbrev Same : (ℤ → Bool) → os.State → Type 0
  Same before h = (d : ℤ) → is_open h d ≡ before d

  -- A success has one more open descriptor than before, which is the one of the context, and a failure
  -- has those that were open before, and a context without one.
  pub Balanced : (ℤ → Bool) → Changed os → Type 0
  Balanced before (Result.success a, ctx, h) =
      (is_neg ctx.fd ≡ false)
      × (before ctx.fd ≡ false)
      × ((d : ℤ) → is_open h d ≡ (eqz d ctx.fd || before d))
  Balanced before (Result.failure e, ctx, h) = (is_neg ctx.fd ≡ true) × Same before h

  opened-Balanced :
      (before : ℤ → Bool) (r : ℤ × os.State)
      → (is_neg r.0 ≡ false → before r.0 ≡ false)
      → (is_neg r.0 ≡ false → (d : ℤ) → is_open r.1 d ≡ (eqz d r.0 || before d))
      → (is_neg r.0 ≡ true → Same before r.1)
      → Balanced before (opened os r)
  unfolding opened Balanced
  opened-Balanced before (pos fd, h) new ends fails = (refl, new refl, ends refl)
  opened-Balanced before (negsuc e, h) new ends fails = (refl, fails refl)

  opened_path-Balanced :
      (before : ℤ → Bool) (path : Text) (h : os.State)
      → Same before h
      → Balanced before (opened os (os.sys_open path h))
  opened_path-Balanced before path h same =
      opened-Balanced before (os.sys_open path h) (λ e. sym (same _) ∙ sys_open_new path h e)
        (λ e d.
          sys_open_ok path h e d ∙ ap (λ (b : Bool). eqz d (os.sys_open path h).0 || b) (same d))
        (λ e d. sys_open_failed path h e d ∙ same d)

  open_device-Balanced :
      (before : ℤ → Bool) (default : Text) (path : Option Text) (h : os.State)
      → Same before h
      → Balanced before (open_device os default path h)
  unfolding open_device
  open_device-Balanced before default none h same = opened_path-Balanced before default h same
  open_device-Balanced before default (some path) h same = opened_path-Balanced before path h same

  closed-files : (r : ℤ × os.State) → (closed os r).2 ≡ r.1
  unfolding closed
  closed-files (pos m, h) = refl
  closed-files (negsuc e, h) = refl

  close_device-files :
      (ctx : Context) (h : os.State)
      → is_neg ctx.fd ≡ false
      → is_open h ctx.fd ≡ true
      → (d : ℤ) → is_open ((close_device os ctx h).2) d ≡ (not (eqz d ctx.fd) && is_open h d)
  unfolding close_device
  close_device-files ctx h valid held d =
      if_elim (λ (r : Changed os). is_open r.2 d ≡ (not (eqz d ctx.fd) && is_open h d))
        (is_neg ctx.fd) _ _ (λ t. cc (t, valid))
        (λ _.
          ap (λ (s : os.State). is_open s d) (closed-files (os.sys_close ctx.fd h))
          ∙ sys_close_files ctx.fd h held d)

  result-files : {A : Type 0} (r : ℤ × A × os.State) → (result_from_syscall r).1 ≡ r.2
  unfolding result_from_syscall
  result-files (pos m, a, h) = refl
  result-files (negsuc e, a, h) = refl

  take_info-files : (r : Result Manager.Written × os.State) → (take_info r).1 ≡ r.1
  unfolding take_info
  take_info-files (Result.success w, h) = refl
  take_info-files (Result.failure e, h) = refl

  search-files :
      (ctx : Context) (name : Option Text) (h : os.State)
      → is_neg ctx.fd ≡ false
      → (d : ℤ) → is_open (get_device_by_name os (some ctx) name true h).1 d ≡ is_open h d
  unfolding get_device_by_name ctl_ioctl ioctl_checked
  search-files ctx none h valid d = refl
  search-files ctx (some name) h valid d =
      ap (λ (s : os.State). is_open s d) (take_info-files _)
      ∙ if_elim (λ (r : Result Manager.Written × os.State). is_open r.1 d ≡ is_open h d)
          (is_neg ctx.fd) _ _ (λ _. refl)
          (λ _. ap (λ (s : os.State). is_open s d) (result-files _) ∙ ioctl_files _ _ h d)

  led_path-Balanced :
      (before : ℤ → Bool) (path : Option Text) (h : os.State)
      → Same before h
      → Balanced before (led_open_path os path h)
  unfolding led_open_path led_open Balanced
  led_path-Balanced before none h same = (refl, same)
  led_path-Balanced before (some path) h same = open_device-Balanced before _ (some path) h same

  led_found-Balanced :
      (before : ℤ → Bool) (ret : Result DeviceInfo) (h : os.State)
      → Same before h
      → Balanced before (led_open_found os ret h)
  unfolding led_open_found Balanced
  led_found-Balanced before (Result.failure e) h same = (refl, same)
  led_found-Balanced before (Result.success info) h same =
      if_elim (Balanced before) (not (info.device_type == type_led)) _ _ (λ _. (refl, same))
        (λ _. led_path-Balanced before _ h same)

  mcu_path-Balanced :
      (before : ℤ → Bool) (path : Option Text) (h : os.State)
      → Same before h
      → Balanced before (mcu_open_path os path h)
  unfolding mcu_open_path mcu_open Balanced
  mcu_path-Balanced before none h same = (refl, same)
  mcu_path-Balanced before (some path) h same = open_device-Balanced before _ (some path) h same

  mcu_found-Balanced :
      (before : ℤ → Bool) (ret : Result DeviceInfo) (h : os.State)
      → Same before h
      → Balanced before (mcu_open_found os ret h)
  unfolding mcu_open_found Balanced
  mcu_found-Balanced before (Result.failure e) h same = (refl, same)
  mcu_found-Balanced before (Result.success info) h same =
      if_elim (Balanced before) (not (info.device_type == type_mcu)) _ _ (λ _. (refl, same))
        (λ _. mcu_path-Balanced before _ h same)

  -- The search and the closing of the discovery device, before what follows them.
  searched_files :
      (before : ℤ → Bool) (ctl : Context) (name : Option Text) (h : os.State)
      → is_neg ctl.fd ≡ false
      → before ctl.fd ≡ false
      → ((d : ℤ) → is_open h d ≡ (eqz d ctl.fd || before d))
      → Same before ((ctl_close os ctl (get_device_by_name os (some ctl) name true h).1).2)
  unfolding ctl_close
  searched_files before ctl name h valid new more d =
      close_device-files ctl (get_device_by_name os (some ctl) name true h).1 valid
        (search-files ctl name h valid ctl.fd
          ∙ more ctl.fd
          ∙ ap (λ (b : Bool). b || before ctl.fd) (eqz_refl ctl.fd))
        d
      ∙ ap (λ (b : Bool). not (eqz d ctl.fd) && b) (search-files ctl name h valid d ∙ more d)
      ∙ undone (eqz d ctl.fd) (before d) (λ e. ap before (eqz_iff d ctl.fd e) ∙ new)
    where
      undone : (a b : Bool) → (a ≡ true → b ≡ false) → (not a && (a || b)) ≡ b
      undone true b never = sym (never refl)
      undone false b never = refl

  led_with-Balanced :
      (before : ℤ → Bool) (name : Option Text) (r : Changed os)
      → Balanced before r
      → Balanced before (led_open_with os name r)
  unfolding led_open_with led_open_searched Balanced
  led_with-Balanced before name (Result.failure e, ctl, h) ok = (refl, ok.1)
  led_with-Balanced before name (Result.success m, ctl, h) ok =
      led_found-Balanced before _ _ (searched_files before ctl name h ok.0 ok.1 ok.2)

  mcu_with-Balanced :
      (before : ℤ → Bool) (name : Option Text) (r : Changed os)
      → Balanced before r
      → Balanced before (mcu_open_with os name r)
  unfolding mcu_open_with mcu_open_searched Balanced
  mcu_with-Balanced before name (Result.failure e, ctl, h) ok = (refl, ok.1)
  mcu_with-Balanced before name (Result.success m, ctl, h) ok =
      mcu_found-Balanced before _ _ (searched_files before ctl name h ok.0 ok.1 ok.2)

  -- Opening an LED or an MCU device by its name leaks no descriptor on any branch: after a
  -- success, the descriptors that were open before are open, and one more, which the context holds;
  -- after a failure those that were open before are, and the context holds none. So the descriptor of
  -- the discovery device is closed again, and no other.
  pub open_by_name-Balanced :
      (name : Option Text) (h : os.State)
      → Balanced (is_open h) (led_open_by_name os name h)
        × Balanced (is_open h) (mcu_open_by_name os name h)
  unfolding led_open_by_name mcu_open_by_name ctl_open Balanced
  open_by_name-Balanced none h = ((refl, λ d. refl), (refl, λ d. refl))
  open_by_name-Balanced (some name) h = (
    led_with-Balanced (is_open h) (some name) (ctl_open os none h)
        (open_device-Balanced (is_open h) _ none h (λ d. refl)),
    mcu_with-Balanced (is_open h) (some name) (ctl_open os none h)
        (open_device-Balanced (is_open h) _ none h (λ d. refl)),
  )
