-- ===== src/Pdi/Listing.antt =====
-- The list of devices that a user program gets: user/pdi/src/pdi_discovery.c over
-- kernel/pdm/bus/pdm_cdev.c.
use lpf.Common.{
  ℕ, zero, suc, ◌+◌, ◌^◌, ◌≤◌, ◌<◌, ◌≡◌, refl, sym, ap, ◌∙◌, ◌==◌, ◌++◌, min, if_false, true, false,
  List, [], ◌∷◌, map, set, take, drop, length, get_elem?, Option, none, some, ℤ, is_neg, arith,
}
use lpf.Pdm.Device.{PdmDevice}
use lpf.Pdm.User.{Reply, copy_to_user}
use lpf.Pdm.Manager.{
  DeviceInfo, DeviceQuery, device_visible, fill_device_info, written, do_get_device, ioctl,
}
use lpf.Pdm.Manager
use lpf.Pdm.Manager.Walk.{DeviceList}
use lpf.Pdm.Manager.Find.{select, answer, get_device_lem}
use lpf.Pdi.{Result, Context, Syscalls, no_device, result_from_syscall, ioctl_checked}
use lpf.Pdi.Ctl.{
  found_info, local, query_at, store_info, ctl_ioctl, list_answer, list_from, list_devices,
}

-- The descriptions of the devices that the discovery device shows, in the order of the bus.
abbrev pub shown : DeviceList → List DeviceInfo
shown bus = map fill_device_info (select device_visible bus.devices)

get_elem?-map :
    (ds : List PdmDevice) (i : ℕ) (d : PdmDevice)
    → get_elem? ds i ≡ some d
    → get_elem? (map fill_device_info ds) i ≡ some (fill_device_info d)
get_elem?-map [] i d e = cc e
get_elem?-map (x ∷ ds) zero d e = ap to_info e
  where
    to_info : Option PdmDevice → Option DeviceInfo
    to_info none = none
    to_info (some y) = some (fill_device_info y)
get_elem?-map (x ∷ ds) (suc i) d e = get_elem?-map ds i d e

length-map : (ds : List PdmDevice) → length (map fill_device_info ds) ≡ length ds
length-map [] = refl
length-map (x ∷ ds) = ap suc (length-map ds)

get_elem?-none : {A : Type 0} (xs : List A) (i : ℕ) → get_elem? xs i ≡ none → length xs ≤ i
get_elem?-none [] i e = omega arith
get_elem?-none (x ∷ xs) zero e = cc e
get_elem?-none (x ∷ xs) (suc i) e = omega (arith, get_elem?-none xs i e)

get_elem?-some :
    {A : Type 0} (xs : List A) (i : ℕ) (a : A) → get_elem? xs i ≡ some a → i < length xs
get_elem?-some [] i a e = cc e
get_elem?-some (x ∷ xs) zero a e = omega arith
get_elem?-some (x ∷ xs) (suc i) a e = omega (arith, get_elem?-some xs i a e)

-- An array whose first `n` entries are those of the list.
abbrev pub filled : {A : Type 0} → ℕ → List A → List A → List A
filled n xs old = take n xs ++ drop n old

set-filled :
    {A : Type 0} (xs old : List A) (i : ℕ) (a : A)
    → get_elem? xs i ≡ some a
    → i < length old
    → set (filled i xs old) i a ≡ filled (suc i) xs old
set-filled [] old i a e room = cc e
set-filled (x ∷ xs) [] i a e room = elim room [ ]
set-filled (x ∷ xs) (y ∷ old) zero a e room = ap (head_onto old) (sym e)
  where
    head_onto : {A : Type 0} → List A → Option A → List A
    head_onto r none = r
    head_onto r (some b) = b ∷ r
set-filled (x ∷ xs) (y ∷ old) (suc i) a e room =
    ap (◌∷◌ x) (set-filled xs old i a e (omega (arith, room)))

-- The open discovery device of the system: the kernel of Pdm.Manager answers on the descriptor, and
-- the system stays as it is.
pub record Serves (os : Syscalls) (bus : DeviceList) (opens : ℕ) (ctx : Context) (h : os.State)
    : Type 0 where
  pub valid : is_neg ctx.fd ≡ false
  pub answers :
      (c : Manager.Command)
      → os.manager_ioctl ctx.fd c h ≡ ((ioctl bus opens c).0, (ioctl bus opens c).1, h)

pub ctl_ioctl_lem :
    (os : Syscalls) (bus : DeviceList) (opens : ℕ) (ctx : Context) (h : os.State)
    (c : Manager.Command)
    → Serves os bus opens ctx h
    → ctl_ioctl os (some ctx) c h
      ≡ result_from_syscall ((ioctl bus opens c).0, (ioctl bus opens c).1, h)
unfolding ctl_ioctl ioctl_checked
ctl_ioctl_lem os bus opens ctx h c serves =
    if_false (is_neg ctx.fd) _ _ serves.valid ∙ ap result_from_syscall (serves.answers c)

-- What a query by index returns to the library.
asked : {S : Type 0} → S → DeviceQuery → Option PdmDevice → Result Manager.Written × S
asked h q none = (Result.failure no_device, h)
asked h q (some d) =
    (Result.success (Manager.Written.device (record q { info = fill_device_info d })), h)

-- What a reply of the driver becomes.
unfoldable reported : {S : Type 0} → S → ℤ × Manager.Written → Result Manager.Written × S
reported s r = result_from_syscall (r.0, r.1, s)

reported-answer :
    {S : Type 0} (h : S) (q : DeviceQuery) (o : Option PdmDevice)
    → reported h (written Manager.Written.device (answer q true o)) ≡ asked h q o
unfolding reported written answer copy_to_user result_from_syscall asked
reported-answer h q none = refl
reported-answer h q (some d) = refl

get_device-asked :
    (os : Syscalls) (bus : DeviceList) (opens : ℕ) (ctx : Context) (h : os.State) (i : ℕ)
    → Serves os bus opens ctx h
    → length (select device_visible bus.devices) < 2 ^ 32
    → i < 2 ^ 32
    → ctl_ioctl os (some ctx) (Manager.Command.get_device (local (query_at i 0))) h
      ≡ asked h (query_at i 0) (get_elem? (select device_visible bus.devices) i)
unfolding ioctl reported
get_device-asked os bus opens ctx h i serves few bound =
    ctl_ioctl_lem os bus opens ctx h (Manager.Command.get_device (local (query_at i 0))) serves
    ∙ ap (λ (r : Reply DeviceQuery). reported h (written Manager.Written.device r))
        ((get_device_lem bus opens (query_at i 0) true few bound).1)
    ∙ reported-answer h (query_at i 0) (get_elem? (select device_visible bus.devices) i)

module _ (os : Syscalls) (bus : DeviceList) (opens : ℕ) (ctx : Context) (h : os.State)
    (serves : Serves os bus opens ctx h)
    (few : length (select device_visible bus.devices) < 2 ^ 32) where
  abbrev count : ℕ
  count = length (select device_visible bus.devices)

  -- The end of the list is met, or the next device is stored.
  round-filled :
      (next : Option (List DeviceInfo)
        → os.State
        → Result (ℕ × Option (List DeviceInfo)) × os.State)
      → (n i : ℕ) (devices : List DeviceInfo) (o : Option PdmDevice)
      → get_elem? (select device_visible bus.devices) i ≡ o
      → i ≤ count
      → (i ≡ 0 → 0 < count)
      → i + suc n ≤ length devices
      → (suc i ≤ count
          → next (some (filled (suc i) (shown bus) devices)) h ≡ (
            Result.success
                (min (suc i + n) count, some (filled (min (suc i + n) count) (shown bus) devices)),
            h,
          ))
      → list_answer os next i (some (filled i (shown bus) devices)) (asked h (query_at i 0) o) ≡ (
        Result.success
            (min (i + suc n) count, some (filled (min (i + suc n) count) (shown bus) devices)),
        h,
      )
  unfolding list_answer asked store_info found_info
  round-filled next n i devices none e le first room go =
      if_false (i == 0) _ _ (nonzero i (λ z. omega (arith, z, first z, stop)))
      ∙ ap (λ (k : ℕ). (Result.success (k, some (filled k (shown bus) devices)), h)) (at_end)
    where
      stop : count ≤ i
      stop = get_elem?-none (select device_visible bus.devices) i e

      at_end : i ≡ min (i + suc n) count
      at_end = omega (arith, stop, le)

      nonzero : (k : ℕ) → (k ≡ 0 → ⊥) → (k == 0) ≡ false
      nonzero zero bad = absurd (bad refl)
      nonzero (suc k) bad = ground arith
  round-filled next n i devices (some d) e le first room go =
      ap (λ (a : List DeviceInfo). next (some a) h)
        (set-filled (shown bus) devices i (fill_device_info d)
          (get_elem?-map (select device_visible bus.devices) i d e) (omega (arith, room)))
      ∙ go (get_elem?-some (select device_visible bus.devices) i d e)
      ∙ ap
          (λ (m : ℕ).
            (Result.success (min m count, some (filled (min m count) (shown bus) devices)), h))
          (omega arith)

  list_from-filled :
      (n i : ℕ) (devices : List DeviceInfo)
      → i ≤ count
      → (i ≡ 0 → 0 < count)
      → i + n ≤ length devices
      → i + n < 2 ^ 32
      → list_from os n i (some ctx) (some (filled i (shown bus) devices)) h ≡ (
        Result.success (min (i + n) count, some (filled (min (i + n) count) (shown bus) devices)),
        h,
      )
  unfolding list_from
  list_from-filled zero i devices le first room bound =
      ap (λ (m : ℕ). (Result.success (m, some (filled m (shown bus) devices)), h))
        (omega (arith, le))
  list_from-filled (suc n) i devices le first room bound =
      ap
        (list_answer os (λ d s. list_from os n (i + 1) (some ctx) d s) i
          (some (filled i (shown bus) devices)))
        (get_device-asked os bus opens ctx h i serves few (omega (arith, bound)))
      ∙ round-filled (λ d s. list_from os n (i + 1) (some ctx) d s) n i devices
          (get_elem? (select device_visible bus.devices) i) refl le first room
          (λ more.
            ap
              (λ (m : ℕ). list_from os n m (some ctx) (some (filled (suc i) (shown bus) devices)) h)
              (omega arith)
            ∙ list_from-filled n (suc i) devices more (λ z. absurd (omega (arith, z)))
                (omega (arith, room)) (omega (arith, bound)))

  list_from-empty :
      (n : ℕ) (devices : List DeviceInfo)
      → count ≡ 0
      → list_from os (suc n) 0 (some ctx) (some devices) h ≡ (Result.failure no_device, h)
  unfolding list_from list_answer asked
  list_from-empty n devices empty =
      ap (list_answer os (λ d s. list_from os n 1 (some ctx) d s) 0 (some devices)) (
        get_device-asked os bus opens ctx h 0 serves few (omega arith)
        ∙ ap (asked h (query_at 0 0)) (nothing_at (select device_visible bus.devices) empty))
    where
      nothing_at : (ds : List PdmDevice) → length ds ≡ 0 → get_elem? ds 0 ≡ none
      nothing_at [] e = refl
      nothing_at (d ∷ ds) e = absurd (omega (arith, e))

-- A user program that asks an open discovery device for the list, with an array for as many entries
-- as it asks for, gets the descriptions of the visible devices, fewer than 2^32, in the order of the
-- bus: as many as it asks for or, if there are fewer, all; it gets their number, and the rest of the
-- array stays. If it asks for at least one and there is none, it gets ENODEV. The system stays.
pub list_devices-select :
    (os : Syscalls) (bus : DeviceList) (opens : ℕ) (ctx : Context) (h : os.State)
    → (devices : List DeviceInfo) (requested : ℕ) → Serves os bus opens ctx h
    → length (select device_visible bus.devices) < 2 ^ 32
    → requested ≤ length devices
    → requested < 2 ^ 32
    → let count : ℕ = length (select device_visible bus.devices) in
      let r : Result (ℕ × Option (List DeviceInfo)) × os.State =
        list_devices os (some ctx) (some devices) (some requested) h in
      let n : ℕ = min requested count in
      ((0 < requested → 0 < count)
        → r ≡ (Result.success (n, some (take n (shown bus) ++ drop n devices)), h))
      × (0 < requested → count ≡ 0 → r ≡ (Result.failure no_device, h))
unfolding list_devices list_from
list_devices-select os bus opens ctx h devices zero serves few room bound = (
  λ some_.
      ap (λ (m : ℕ). (Result.success (m, some (filled m (shown bus) devices)), h)) (omega arith),
  λ more. absurd (omega (arith, more)),
)
list_devices-select os bus opens ctx h devices (suc n) serves few room bound = (
  λ some_.
      list_from-filled os bus opens ctx h serves few (suc n) 0 devices (omega arith)
        (λ z. some_ (omega arith)) (omega (arith, room)) (omega (arith, bound))
      ∙ ap
          (λ (m : ℕ). (
            Result.success (
              min m (length (select device_visible bus.devices)),
              some
                  (filled (min m (length (select device_visible bus.devices))) (shown bus) devices),
            ),
            h,
          ))
          (omega arith),
  λ more empty. list_from-empty os bus opens ctx h serves few n devices empty,
)
