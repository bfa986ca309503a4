-- ===== src/Pdm/Ids.antt =====
-- kernel/pdm/bus/pdm_device.c: instance ids, and the binding of a device to one.
-- The id sets are the kernel's IDA, which is a parameter.
pub mod Interface
pub mod Unique
pub mod Binding
pub mod Listed
use Interface.{Ida}
use lpf.Common.{
  ℕ, ◌+◌, ◌-◌, ◌<◌, ◌≤◌, ltb, leb, ◌==◌, ◌&&◌, if◌then◌else◌, Bool, true, false, not, Option, none,
  some, ℤ, pos, negsuc, is_neg, eqz, einval, ebusy, ret_ok, bit_or,
}
use lpf.Pdm.Device.{PdmDevice, set_state, state_registered, type_invalid, cap_none}

-- INT_MAX, the highest id that `ida_alloc` may return.
abbrev pub int_max : ℕ
int_max = 0x7fff_ffff

-- PDM_ID_ALLOCATORS_SIZE; slot 0 has no name, 1 is "mcu" and 2 is "led".
abbrev pub allocators_size : ℕ
allocators_size = 3

-- `pdm_id_get_allocator`: whether the type has an allocator.
unfoldable pub get_allocator : ℕ → Bool
get_allocator device_type =
    if leb allocators_size device_type then false else not (device_type == type_invalid)

module _ (ida : Ida) where
  open ida use {Pool, alloc_range, free}

  -- `pdm_id_allocators`: for each type its ids and how many there are.
  pub record Allocators : Type 0 where
    pub pools : ℕ → Pool
    pub counts : ℕ → ℕ

  -- The call of the IDA that `pdm_id_alloc` makes.
  unfoldable pub ida_call : ℤ → Pool → ℤ × Pool
  ida_call (pos requested) p = alloc_range requested requested p
  ida_call (negsuc n) p = alloc_range 0 int_max p

  -- What `pdm_id_alloc` does with the answer.
  unfoldable pub count_id : ℕ → Allocators → ℤ × Pool → ℤ × Allocators
  count_id device_type a (id, p) = (
    id,
    record {
      pools = λ t. if t == device_type then p else a.pools t;
      counts = λ t. if t == device_type && not (is_neg id) then a.counts t + 1 else a.counts t;
    },
  )

  -- `pdm_id_alloc`
  unfoldable pub id_alloc : ℕ → ℤ → Allocators → ℤ × Allocators
  id_alloc device_type requested a =
      if not (get_allocator device_type)
      then (einval, a)
      else count_id device_type a (ida_call requested (a.pools device_type))

  -- `ida_free` and `atomic_dec_if_positive`.
  unfoldable pub give_back : ℕ → ℕ → Allocators → Allocators
  give_back device_type id a = record {
    pools = λ t. if t == device_type then free id (a.pools t) else a.pools t;
    counts = λ t. if t == device_type then a.counts t - 1 else a.counts t;
  }

  -- `pdm_id_free`
  unfoldable pub id_free : ℕ → ℤ → Allocators → Allocators
  id_free device_type (negsuc n) a = a
  id_free device_type (pos id) a =
      if not (get_allocator device_type) then a else give_back device_type id a

  -- The rest of `pdm_device_bind` once `pdm_id_alloc` has returned.
  unfoldable pub bind_allocated : ℕ → ℕ → PdmDevice → ℤ × Allocators → ℤ × PdmDevice × Allocators
  bind_allocated device_type capabilities d (negsuc e, a) = (negsuc e, d, a)
  bind_allocated device_type capabilities d (pos id, a) = (
    ret_ok,
    set_state state_registered (record d {
      id = pos id;
      id_allocated = true;
      device_type = device_type;
      capabilities = bit_or d.capabilities capabilities;
    }),
    a,
  )

  -- `pdm_device_bind` of a device that is no null pointer.
  unfoldable pub bind : ℕ → ℕ → PdmDevice → Allocators → ℤ × PdmDevice × Allocators
  bind device_type capabilities d a =
      if d.id_allocated
      then (if not (d.device_type == device_type)
          then (ebusy, d, a)
          else (ret_ok, record d { capabilities = bit_or d.capabilities capabilities }, a))
      else bind_allocated device_type capabilities d (id_alloc device_type d.requested_id a)

  -- `pdm_device_unbind`
  unfoldable pub unbind : PdmDevice → Allocators → PdmDevice × Allocators
  unbind d a = if not d.id_allocated then (d, a) else (
    set_state state_registered (record d {
      id_allocated = false;
      id = d.requested_id;
      device_type = type_invalid;
      capabilities = cap_none;
    }),
    id_free d.device_type d.id a,
  )
