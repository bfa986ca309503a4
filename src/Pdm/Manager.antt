-- ===== src/Pdm/Manager.antt =====
-- kernel/pdm/bus/pdm_cdev.c: the discovery device /dev/pdm_manager, which tells user space the
-- bound devices of the PDM bus. The walk over the bus is the kernel's, and a parameter.
pub mod Walk
pub mod Find
pub mod Names
mod Tests
use Walk.{DeviceList}
use lpf.Common.{
  ℕ, zero, suc, ◌+◌, ◌-◌, ◌%◌, ◌^◌, ◌==◌, ◌&&◌, ◌||◌, if◌then◌else◌, Bool, true, false, not, List,
  [], ◌∷◌, set, Option, none, some, ℤ, pos, negsuc, bit_and, ret_ok, efault, enodev, enotty,
}
use lpf.Pdm.User.{UserPtr, Reply, copy_to_user}
use lpf.Common.Text.{Text, same_string, strscpy}
use lpf.Pdm.Device.{PdmDevice, type_invalid, state_bound, state_error}

-- PDM_MANAGER_NAME_LEN
abbrev pub name_len : ℕ
name_len = 64

-- PDM_MANAGER_ABI_VERSION
abbrev pub abi_version : ℕ
abi_version = 0x1_0000

-- `struct pdm_manager_info`
pub record ManagerInfo : Type 0 where
  pub info_abi_version : ℕ
  pub module_version_major : ℕ
  pub module_version_minor : ℕ
  pub module_version_patch : ℕ
  pub open_count : ℕ
  pub device_count : ℕ

-- `struct pdm_manager_device_info`; the two names are what their arrays hold up to the NUL.
pub record DeviceInfo : Type 0 where
  pub device_type : ℕ
  pub index : ℕ
  pub state : ℕ
  pub last_error : ℤ
  pub error_count : ℕ
  pub capabilities : ℕ
  pub name : Text
  pub driver_name : Text

-- `struct pdm_manager_device_query`
pub record DeviceQuery : Type 0 where
  pub match_index : ℕ
  pub required_capabilities : ℕ
  pub info : DeviceInfo

-- `struct pdm_manager_device_name_query`; here `name` is all bytes of the array.
pub record NameQuery : Type 0 where
  pub name : List ℕ
  pub info : DeviceInfo

-- `struct pdm_manager_match_ctx`
pub record MatchCtx : Type 0 where
  pub info : DeviceInfo
  pub name : Text
  pub required_capabilities : ℕ
  pub match_index : ℕ
  pub seen : ℕ
  pub found : Bool

-- The conversion of an `int` to `__u32`.
unfoldable pub to_u32 : ℤ → ℕ
to_u32 (pos n) = n % 2 ^ 32
to_u32 (negsuc n) = 2 ^ 32 - 1 - n % 2 ^ 32

-- `pdm_manager_device_visible` of a device that is no null pointer
unfoldable pub device_visible : PdmDevice → Bool
device_visible d =
    if not d.id_allocated || d.device_type == type_invalid
    then false
    else d.state == state_bound || d.state == state_error

-- The copy of the name of the bound driver, into an array that is all zeros.
unfoldable pub copy_driver_name : Option Text → Text
copy_driver_name none = []
copy_driver_name (some s) = strscpy name_len s

-- `pdm_manager_fill_device_info`
unfoldable pub fill_device_info : PdmDevice → DeviceInfo
fill_device_info d = record {
  device_type = d.device_type;
  index = to_u32 d.id;
  state = d.state;
  last_error = d.last_error;
  error_count = d.error_count;
  capabilities = d.capabilities;
  name = strscpy name_len d.dev_name;
  driver_name = copy_driver_name d.driver_name;
}

-- The device is put into the query and the walk ends, which a callback says by `true`.
unfoldable pub take_device : PdmDevice → MatchCtx → Bool × MatchCtx
take_device d ctx = (true, record ctx { info = fill_device_info d; found = true })

-- `if (ctx->seen++ == ctx->match_index)`, with what follows.
unfoldable pub take_at_index : PdmDevice → MatchCtx → Bool × MatchCtx
take_at_index d ctx =
    let counted = record ctx { seen = (ctx.seen + 1) % 2 ^ 32 } in
    if ctx.seen == ctx.match_index then take_device d counted else (false, counted)

-- `pdm_manager_match_device`
unfoldable pub match_device : PdmDevice → MatchCtx → Bool × MatchCtx
match_device d ctx = if not (device_visible d) then (false, ctx) else take_at_index d ctx

-- `pdm_manager_match_by_name`
unfoldable pub match_by_name : PdmDevice → MatchCtx → Bool × MatchCtx
match_by_name d ctx =
    if not (device_visible d)
    then (false, ctx)
    else if same_string d.dev_name ctx.name
    then take_device d ctx
    else (false, ctx)

-- `pdm_manager_match_by_capability`
unfoldable pub match_by_capability : PdmDevice → MatchCtx → Bool × MatchCtx
match_by_capability d ctx =
    if not (device_visible d)
    then (false, ctx)
    else if bit_and d.capabilities ctx.required_capabilities == ctx.required_capabilities
    then take_at_index d ctx
    else (false, ctx)

-- `pdm_manager_count_visible`
unfoldable pub count_visible : PdmDevice → ℕ → Bool × ℕ
count_visible d count = (false, if device_visible d then (count + 1) % 2 ^ 32 else count)

-- A context after its `memset`.
abbrev pub zero_ctx : DeviceInfo → MatchCtx
zero_ctx info = record {
  info = info;
  name = [];
  required_capabilities = 0;
  match_index = 0;
  seen = 0;
  found = false;
}

-- The bytes of an array before its first NUL.
unfoldable pub c_string : List ℕ → Text
c_string [] = []
c_string (zero ∷ s) = []
c_string (suc n ∷ s) = suc n ∷ c_string s

-- The commands of the device, with the pointer that comes with each.
pub data Command : Type 0 where
  get_info : Bool → Command
  get_device : UserPtr DeviceQuery → Command
  get_device_by_name : UserPtr NameQuery → Command
  get_device_by_capability : UserPtr DeviceQuery → Command
  unknown : Command

pub data Written : Type 0 where
  nothing : Written
  info : ManagerInfo → Written
  device : DeviceQuery → Written
  named : NameQuery → Written

unfoldable pub written : {A : Type 0} → (A → Written) → Reply A → ℤ × Written
written f (ret, none) = (ret, Written.nothing)
written f (ret, some a) = (ret, f a)

module _ (bus : DeviceList) where
  open bus use {for_each_dev}

  -- `pdm_manager_do_get_info`
  unfoldable pub do_get_info : ℕ → Bool → Reply ManagerInfo
  do_get_info opens writable = copy_to_user writable (record {
    info_abi_version = abi_version;
    module_version_major = 1;
    module_version_minor = 0;
    module_version_patch = 0;
    open_count = opens;
    device_count = for_each_dev count_visible 0;
  })

  -- `pdm_manager_do_get_device`
  unfoldable pub answer_device : DeviceQuery → Bool → MatchCtx → Reply DeviceQuery
  answer_device q writable ctx =
      if not ctx.found then (enodev, none) else copy_to_user writable (record q { info = ctx.info })

  unfoldable pub get_device_for : Option DeviceQuery → Bool → Reply DeviceQuery
  get_device_for none writable = (efault, none)
  get_device_for (some q) writable =
      answer_device q writable
        (for_each_dev match_device (record (zero_ctx q.info) { match_index = q.match_index }))

  unfoldable pub do_get_device : UserPtr DeviceQuery → Reply DeviceQuery
  do_get_device p = get_device_for p.readable p.writable

  -- `pdm_manager_do_get_device_by_name`
  unfoldable pub answer_name : NameQuery → Bool → MatchCtx → Reply NameQuery
  answer_name q writable ctx =
      if not ctx.found then (enodev, none) else copy_to_user writable (record q { info = ctx.info })

  unfoldable pub get_by_name_for : Option NameQuery → Bool → Reply NameQuery
  get_by_name_for none writable = (efault, none)
  get_by_name_for (some q) writable =
      let q' = record q { name = set q.name (name_len - 1) 0 } in
      answer_name q' writable
        (for_each_dev match_by_name (record (zero_ctx q'.info) { name = c_string q'.name }))

  unfoldable pub do_get_device_by_name : UserPtr NameQuery → Reply NameQuery
  do_get_device_by_name p = get_by_name_for p.readable p.writable

  -- `pdm_manager_do_get_device_by_capability`
  unfoldable pub get_by_capability_for : Option DeviceQuery → Bool → Reply DeviceQuery
  get_by_capability_for none writable = (efault, none)
  get_by_capability_for (some q) writable = answer_device q writable (
      for_each_dev match_by_capability (record (zero_ctx q.info) {
        match_index = q.match_index;
        required_capabilities = q.required_capabilities;
      }))

  unfoldable pub do_get_device_by_capability : UserPtr DeviceQuery → Reply DeviceQuery
  do_get_device_by_capability p = get_by_capability_for p.readable p.writable

  -- `pdm_manager_ioctl`
  unfoldable pub ioctl : ℕ → Command → ℤ × Written
  ioctl opens (Command.get_info w) = written Written.info (do_get_info opens w)
  ioctl opens (Command.get_device p) = written Written.device (do_get_device p)
  ioctl opens (Command.get_device_by_name p) = written Written.named (do_get_device_by_name p)
  ioctl opens (Command.get_device_by_capability p) =
      written Written.device (do_get_device_by_capability p)
  ioctl opens Command.unknown = (enotty, Written.nothing)

-- `pdm_manager_open` and `pdm_manager_release`, on the count of open files
unfoldable pub manager_open : ℕ → ℕ
manager_open opens = opens + 1

unfoldable pub manager_release : ℕ → ℕ
manager_release opens = opens - 1
