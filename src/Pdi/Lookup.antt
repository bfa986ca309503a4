-- ===== src/Pdi/Lookup.antt =====
-- The devices that a user program finds by name and by capability: user/pdi/src/pdi_discovery.c over
-- kernel/pdm/bus/pdm_cdev.c.
use lpf.Common.{
  ℕ, ◌-◌, ◌^◌, ◌≤◌, ◌<◌, ◌≡◌, refl, ap, ◌∙◌, ◌==◌, if◌then◌else◌, true, set, take, length,
  length-append, length-take, length-replicate, get_elem?, Option, none, some, ℤ, arith,
}
use lpf.Common.Text.{Text}
use lpf.Pdm.Device.{PdmDevice}
use lpf.Pdm.User.{Reply, copy_to_user}
use lpf.Pdm.Manager.{
  DeviceInfo, DeviceQuery, NameQuery, c_string, device_visible, fill_device_info, written, ioctl,
}
use lpf.Pdm.Manager
use lpf.Pdm.Manager.Walk.{DeviceList}
use lpf.Pdm.Manager.Find.{select, offers, answer, get_device_lem}
use lpf.Pdm.Manager.Names.{first, named, closed, padded, c_string-padded, get_device_by_name_lem}
use lpf.Pdm.Manager.Names as Names
use lpf.Pdi.{Result, Context, Syscalls, no_device, invalid_arg, result_from_syscall}
use lpf.Pdi.Ctl.{
  zero_info, found_info, local, query_at, copy_name, take_info, get_device_by_name,
  get_device_by_capability,
}
use lpf.Pdi.Listing.{Serves, ctl_ioctl_lem}

-- What the program gets for a device, or for none.
abbrev pub described : {S : Type 0} → S → Option PdmDevice → Result DeviceInfo × S
described h none = (Result.failure no_device, h)
described h (some d) = (Result.success (fill_device_info d), h)

unfoldable taken : {S : Type 0} → S → ℤ × Manager.Written → Result DeviceInfo × S
taken h r = take_info (result_from_syscall (r.0, r.1, h))

taken-device :
    {S : Type 0} (h : S) (q : DeviceQuery) (o : Option PdmDevice)
    → taken h (written Manager.Written.device (answer q true o)) ≡ described h o
unfolding taken written answer copy_to_user result_from_syscall take_info found_info
taken-device h q none = refl
taken-device h q (some d) = refl

taken-named :
    {S : Type 0} (h : S) (q : NameQuery) (o : Option PdmDevice)
    → taken h (written Manager.Written.named (Names.answer q true o)) ≡ described h o
unfolding taken written Names.answer copy_to_user result_from_syscall take_info found_info
taken-named h q none = refl
taken-named h q (some d) = refl

-- A search by name on an open discovery device finds the first visible device whose name is the given
-- one, cut to 63 bytes, and describes it; without one it fails with ENODEV. The name is a C string.
pub get_device_by_name-first :
    (os : Syscalls) (bus : DeviceList) (opens : ℕ) (ctx : Context) (h : os.State) (name : Text)
    → Serves os bus opens ctx h
    → c_string (take 63 name) ≡ take 63 name
    → get_device_by_name os (some ctx) (some name) true h
      ≡ described h (first (named (take 63 name)) bus.devices)
unfolding get_device_by_name ioctl taken copy_name
get_device_by_name-first os bus opens ctx h name serves whole =
    ap take_info
      (ctl_ioctl_lem os bus opens ctx h (Manager.Command.get_device_by_name (local query)) serves)
    ∙ ap (λ (r : Reply NameQuery). taken h (written Manager.Written.named r))
        ((get_device_by_name_lem bus query true (padded_length (take 63 name) short)).0)
    ∙ taken-named h (closed query) (first (named (c_string (set query.name 63 0))) bus.devices)
    ∙ ap (λ (s : Text). described h (first (named s) bus.devices))
        (c_string-padded (take 63 name) (64 - length (take 63 name)) 63 whole short)
  where
    query : NameQuery
    query = record { name = copy_name name; info = zero_info }

    short : length (take 63 name) ≤ 63
    short = omega (arith, length-take 63 name)

    padded_length : (s : Text) → length s ≤ 63 → length (padded s) ≡ 64
    padded_length s le =
        length-append s _ ∙ omega (arith, length-replicate {A = ℕ} (64 - length s) 0, le)

-- A search by capability on an open discovery device of fewer than 2^32 visible devices describes the
-- visible device with all these capabilities that has the given number among them, and fails with
-- ENODEV without one; asking for no capability at all fails with EINVAL.
pub get_device_by_capability-offers :
    (os : Syscalls) (bus : DeviceList) (opens : ℕ) (ctx : Context) (h : os.State) (caps index : ℕ)
    → Serves os bus opens ctx h
    → length (select device_visible bus.devices) < 2 ^ 32
    → index < 2 ^ 32
    → get_device_by_capability os (some ctx) caps index true h ≡ (
        if caps == 0
        then (Result.failure invalid_arg, h)
        else described h (get_elem? (select (offers caps) bus.devices) index))
unfolding get_device_by_capability ioctl taken
get_device_by_capability-offers os bus opens ctx h caps index serves few bound =
    ap
      (λ (r : Result DeviceInfo × os.State).
        if caps == 0 then (Result.failure invalid_arg, h) else r)
      (ap take_info (
          ctl_ioctl_lem os bus opens ctx h
            (Manager.Command.get_device_by_capability (local (query_at index caps))) serves)
        ∙ ap (λ (r : Reply DeviceQuery). taken h (written Manager.Written.device r))
            ((get_device_lem bus opens (query_at index caps) true few bound).2)
        ∙ taken-device h (query_at index caps) (get_elem? (select (offers caps) bus.devices) index))
