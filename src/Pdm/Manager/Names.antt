-- ===== src/Pdm/Manager/Names.antt =====
-- Discovery by name: kernel/pdm/bus/pdm_cdev.c.
use lpf.Common.{
  ℕ, zero, suc, ◌+◌, ◌-◌, ◌≤◌, ◌≡◌, refl, sym, ap, subst, ◌∙◌, ◌&&◌, ◌++◌, if◌then◌else◌, if_true,
  if_false, Bool, true, false, not, List, [], ◌∷◌, length, take-all, set, replicate, Option, none,
  some, ret_ok, enodev, arith,
}
use lpf.Common.Text.{Text, same_string, same_string-eq, strscpy}
use lpf.Pdm.User.{UserPtr, Reply, copy_to_user}
use lpf.Pdm.Device.{PdmDevice}
use lpf.Pdm.Manager.Walk.{DeviceList, walk, stop_or}
use lpf.Pdm.Manager.{
  name_len, DeviceInfo, NameQuery, MatchCtx, device_visible, fill_device_info, take_device,
  match_by_name, zero_ctx, c_string, answer_name, get_by_name_for, do_get_device_by_name,
}
use lpf.Pdm.Manager.Find.{Taken}

-- The first device that passes the test.
unfoldable pub first : (PdmDevice → Bool) → List PdmDevice → Option PdmDevice
first p [] = none
first p (d ∷ ds) = if p d then some d else first p ds

-- A visible device of this name.
abbrev pub named : Text → PdmDevice → Bool
named s d = device_visible d && same_string d.dev_name s

walk-match_by_name :
    (ds : List PdmDevice) (ctx : MatchCtx)
    → ctx.found ≡ false
    → Taken (walk ds match_by_name ctx) (first (named ctx.name) ds)
unfolding first match_by_name take_device
walk-match_by_name [] ctx fresh = fresh
walk-match_by_name (d ∷ ds) ctx fresh =
    tests (device_visible d) (same_string d.dev_name ctx.name) (walk-match_by_name ds ctx fresh)
  where
    tests :
        (v s : Bool)
        → Taken (walk ds match_by_name ctx) (first (named ctx.name) ds)
        → Taken
            (stop_or
              (if not v then (false, ctx) else if s then take_device d ctx else (false, ctx))
              (walk ds match_by_name))
            (if v && s then some d else first (named ctx.name) ds)
    tests true true below = (refl, refl)
    tests true false below = below
    tests false s below = below

unfoldable pub answer : NameQuery → Bool → Option PdmDevice → Reply NameQuery
answer q writable none = (enodev, none)
answer q writable (some d) = copy_to_user writable (record q { info = fill_device_info d })

answer_name-Taken :
    (bus : DeviceList) (q : NameQuery) (writable : Bool) (ctx : MatchCtx) (o : Option PdmDevice)
    → Taken ctx o
    → answer_name bus q writable ctx ≡ answer q writable o
unfolding answer_name answer
answer_name-Taken bus q writable ctx none h = if_true (not ctx.found) _ _ (ap not h)
answer_name-Taken bus q writable ctx (some d) h =
    if_false (not ctx.found) _ _ (ap not h.0)
    ∙ ap (λ (i : DeviceInfo). copy_to_user writable (record q { info = i })) h.1

-- The query with its last byte cleared, as the code does it.
abbrev pub closed : NameQuery → NameQuery
closed q = record q { name = set q.name (name_len - 1) 0 }

get_by_name_for_lem :
    (bus : DeviceList) (q : NameQuery) (writable : Bool)
    → get_by_name_for bus (some q) writable
      ≡ answer (closed q) writable (first (named (c_string (closed q).name)) bus.devices)
unfolding get_by_name_for
get_by_name_for_lem bus q writable = answer_name-Taken bus (closed q) writable _ _ (
    subst (λ (c : MatchCtx). Taken c (first (named (c_string (closed q).name)) bus.devices))
      (sym (bus.for_each_dev_walk match_by_name start)) (walk-match_by_name bus.devices start refl))
  where
    start : MatchCtx
    start = record (zero_ctx q.info) { name = c_string (closed q).name }

-- A closed name has at most 63 bytes.
c_string-closed : (n : ℕ) (s : List ℕ) → length s ≤ n + 1 → length (c_string (set s n 0)) ≤ n
unfolding c_string
c_string-closed n [] h = omega arith
c_string-closed zero (c ∷ s) h = omega arith
c_string-closed (suc n) (zero ∷ s) h = omega arith
c_string-closed (suc n) (suc c ∷ s) h =
    let r = c_string-closed n s (omega (arith, h)) in omega (arith, r)

and_right : (a b : Bool) → (a && b) ≡ true → b ≡ true
and_right true b h = h
and_right false b h = cc

some_inj : {x y : PdmDevice} → some x ≡ some y → x ≡ y
some_inj e = cc

first-named :
    (s : Text) (ds : List PdmDevice) (d : PdmDevice) → first (named s) ds ≡ some d → d.dev_name ≡ s
unfolding first
first-named s [] d h = cc
first-named s (e ∷ ds) d h = tested (named s e) refl (first-named s ds d) h
  where
    tested :
        (b : Bool)
        → named s e ≡ b
        → (first (named s) ds ≡ some d → d.dev_name ≡ s)
        → (if b then some e else first (named s) ds) ≡ some d
        → d.dev_name ≡ s
    tested true hit below same =
        ap (λ (x : PdmDevice). x.dev_name) (sym (some_inj same))
        ∙ same_string-eq e.dev_name s (and_right (device_visible e) _ hit)
    tested false miss below same = below same

-- GET_DEVICE_BY_NAME describes the first device that is bound or in error and whose name is the
-- query's up to its first NUL byte, the last of the 64 bytes counting as one; no device whose name
-- has more than 63 bytes is ever found. Without such a device the answer is -ENODEV, and -EFAULT if
-- the memory of the caller cannot be written.
pub get_device_by_name_lem :
    (bus : DeviceList) (q : NameQuery) (writable : Bool)
    → length q.name ≡ 64
    → let p : UserPtr NameQuery = record { readable = some q; writable = writable } in
      let wanted : Text = c_string (set q.name 63 0) in
      (do_get_device_by_name bus p ≡ answer (closed q) writable (first (named wanted) bus.devices))
      × ((d : PdmDevice)
          → first (named wanted) bus.devices ≡ some d
          → (d.dev_name ≡ wanted) × (length d.dev_name ≤ 63))
unfolding do_get_device_by_name
get_device_by_name_lem bus q writable full = (
  get_by_name_for_lem bus q writable,
  λ d h.
      let its_name = first-named _ bus.devices d h in
      (
        its_name,
        subst (λ (s : Text). length s ≤ 63) (sym its_name)
            (c_string-closed 63 q.name (omega (arith, full))),
      ),
)

-- The name in an array of 64 bytes.
abbrev pub padded : Text → List ℕ
padded s = s ++ replicate (64 - length s) 0

c_string_zeros : (k n : ℕ) → c_string (set (replicate k 0) n 0) ≡ []
unfolding c_string
c_string_zeros zero n = refl
c_string_zeros (suc k) zero = refl
c_string_zeros (suc k) (suc n) = refl

tail_of : List ℕ → List ℕ
tail_of [] = []
tail_of (x ∷ xs) = xs

pub c_string-padded :
    (s : Text) (k n : ℕ)
    → c_string s ≡ s
    → length s ≤ n
    → c_string (set (s ++ replicate k 0) n 0) ≡ s
unfolding c_string tail_of
c_string-padded [] k n whole fits = c_string_zeros k n
c_string-padded (zero ∷ s) k n whole fits = cc
c_string-padded (suc c ∷ s) k zero whole fits = absurd (omega (arith, fits))
c_string-padded (suc c ∷ s) k (suc n) whole fits =
    ap (λ (r : Text). suc c ∷ r) (c_string-padded s k n (ap tail_of whole) (omega (arith, fits)))

-- The name that discovery reports leads back to the device: for a bound device whose name has at
-- most 63 bytes and no NUL, and that is the first with this name, a query by the reported name, in
-- an array filled up with zeros, returns the same description.
pub get_device_by_name-fill_device_info :
    (bus : DeviceList) (d : PdmDevice) (old : DeviceInfo)
    → first (named d.dev_name) bus.devices ≡ some d
    → length d.dev_name ≤ 63
    → c_string d.dev_name ≡ d.dev_name
    → let q : NameQuery = record { name = padded (fill_device_info d).name; info = old } in
      let p : UserPtr NameQuery = record { readable = some q; writable = true } in
      do_get_device_by_name bus p ≡ (ret_ok, some (record (closed q) { info = fill_device_info d }))
unfolding do_get_device_by_name fill_device_info answer copy_to_user
get_device_by_name-fill_device_info bus d old found fits whole =
    get_by_name_for_lem bus query true
    ∙ ap (answer (closed query) true)
        (subst (λ (s : Text). first (named s) bus.devices ≡ some d) (sym its_name) found)
  where
    query : NameQuery
    query = record { name = padded (strscpy name_len d.dev_name); info = old }

    its_name : c_string (set (padded (strscpy name_len d.dev_name)) 63 0) ≡ d.dev_name
    its_name =
        ap (λ (s : Text). c_string (set (padded s) 63 0)) (take-all 63 d.dev_name fits)
        ∙ c_string-padded d.dev_name (64 - length d.dev_name) 63 whole fits
