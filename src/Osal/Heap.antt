-- ===== src/Osal/Heap.antt =====
-- Memory with a header per block, and the watch over its use: user/osal/src/lib/osal_heap.c.
pub mod Accounts
pub mod Blocks
pub mod Alerts
use lpf.Common.{
  ℕ, zero, suc, ◌+◌, ◌-◌, ◌*◌, ◌/◌, ◌%◌, ◌^◌, ◌==◌, ◌&&◌, ltb, leb, min, if◌then◌else◌, Bool, true,
  false, not, List, [], ◌∷◌, ◌++◌, take, drop, Option, none, some,
}
use lpf.Osal.{osal_success, err_invalid_pointer, err_invalid_size}

-- MEM_BLOCK_MAGIC
abbrev pub block_magic : ℕ
block_magic = 0xdead_beef

-- `heap_monitor_t`, without its lock
pub record Monitor : Type 0 where
  pub threshold_percent : ℕ
  pub peak_usage : ℕ
  pub current_usage : ℕ
  pub alert_triggered : Bool

-- A block of memory: the address of its user data, its `mem_block_header_t` and the data.
pub record Block : Type 0 where
  pub address : ℕ
  pub size : ℕ
  pub magic : ℕ
  pub bytes : List ℕ

-- The blocks that are allocated, the newest first.
pub record Heap : Type 0 where
  pub monitor : Monitor
  pub blocks : List Block

-- What a call comes to: it returns, it ends the program with `abort`, or it reads a header where
-- there is no block, which is undefined.
pub data Outcome (A : Type 0) : Type 0 where
  returned : A → Outcome A
  aborted : Outcome A
  undefined : Outcome A

unfoldable pub block_at : ℕ → List Block → Option Block
block_at a [] = none
block_at a (b ∷ bs) = if b.address == a then some b else block_at a bs

-- To change the block at an address.
unfoldable pub change : ℕ → (Block → Block) → List Block → List Block
change a f [] = []
change a f (b ∷ bs) = if b.address == a then f b ∷ bs else b ∷ change a f bs

-- `OS_HeapInit`
abbrev pub heap_init : Monitor
heap_init = record {
  threshold_percent = 80;
  peak_usage = 0;
  current_usage = 0;
  alert_triggered = false;
}

-- The statistics after an allocation, and after a release.
unfoldable pub grow : ℕ → Monitor → Monitor
grow size m =
    let current = (m.current_usage + size) % 2 ^ 32 in
    record m {
      current_usage = current;
      peak_usage = (if ltb m.peak_usage current then current else m.peak_usage);
    }

unfoldable pub shrink : ℕ → Monitor → Monitor
shrink size m = record m {
  current_usage = (if ltb m.current_usage size then 0 else m.current_usage - size);
}

-- What `malloc` gives: nothing, or an address with what is in the memory there.
abbrev pub Raw : Type 0
Raw = Option (ℕ × List ℕ)

unfoldable pub malloc_raw : ℕ → Raw → Heap → Option ℕ × Heap
malloc_raw size none h = (none, h)
malloc_raw size (some (a, old)) h = (
  some a,
  record {
    monitor = grow size h.monitor;
    blocks = (record { address = a; size = size; magic = block_magic; bytes = old }) ∷ h.blocks;
  },
)

-- `osal_malloc`; the header has 8 bytes.
unfoldable pub osal_malloc : ℕ → Raw → Heap → Option ℕ × Heap
osal_malloc size raw h = if ltb (2 ^ 32 - 1 - 8) size then (none, h) else malloc_raw size raw h

-- What `free` leaves; the magic number that was cleared before is in memory that is no block any more.
unfoldable pub remove : ℕ → List Block → List Block
remove a [] = []
remove a (b ∷ bs) = if b.address == a then bs else b ∷ remove a bs

unfoldable pub free_block : ℕ → Heap → Option Block → Outcome Heap
free_block a h none = Outcome.undefined
free_block a h (some b) =
    if not (b.magic == block_magic)
    then Outcome.aborted
    else Outcome.returned (record { monitor = shrink b.size h.monitor; blocks = remove a h.blocks })

-- `osal_free`
unfoldable pub osal_free : Option ℕ → Heap → Outcome Heap
osal_free none h = Outcome.returned h
osal_free (some a) h = free_block a h (block_at a h.blocks)

-- `osal_memcpy` of the first bytes of one block to another
abbrev pub copy_bytes : ℕ → List ℕ → Block → Block
copy_bytes n from b = record b { bytes = take n from ++ drop n b.bytes }

-- A pointer to return, with the heap of an outcome.
unfoldable pub with_pointer : Option ℕ → Outcome Heap → Outcome (Option ℕ × Heap)
with_pointer p (Outcome.returned h) = Outcome.returned (p, h)
with_pointer p Outcome.aborted = Outcome.aborted
with_pointer p Outcome.undefined = Outcome.undefined

-- `osal_realloc`: after the allocation, with the old block
unfoldable pub realloc_to : ℕ → Block → ℕ → Option ℕ × Heap → Outcome (Option ℕ × Heap)
realloc_to a old new_size (none, h) = Outcome.returned (none, h)
realloc_to a old new_size (some b, h) = with_pointer (some b) (
    osal_free (some a) (record h {
      blocks =
          change b (copy_bytes (if ltb old.size new_size then old.size else new_size) old.bytes)
            h.blocks;
    }))

unfoldable pub realloc_block : ℕ → ℕ → Raw → Heap → Option Block → Outcome (Option ℕ × Heap)
realloc_block a new_size raw h none = Outcome.undefined
realloc_block a new_size raw h (some b) =
    if not (b.magic == block_magic)
    then Outcome.returned (none, h)
    else realloc_to a b new_size (osal_malloc new_size raw h)

unfoldable pub osal_realloc : Option ℕ → ℕ → Raw → Heap → Outcome (Option ℕ × Heap)
osal_realloc none new_size raw h = Outcome.returned (osal_malloc new_size raw h)
osal_realloc (some a) new_size raw h =
    if new_size == 0
    then with_pointer none (osal_free (some a) h)
    else realloc_block a new_size raw h (block_at a h.blocks)

-- `_read_memory_from_proc`, from the number that stands in the file, or 0
unfoldable pub from_proc : ℕ → ℕ
from_proc kb = kb * 1024 % 2 ^ 32

-- What `osal_heap_get_info` stores.
pub record HeapInfo : Type 0 where
  pub free_bytes : ℕ
  pub total_bytes : ℕ

abbrev pub info_of : ℕ → ℕ → HeapInfo
info_of vm_rss vm_peak = record {
  free_bytes = (if ltb vm_rss vm_peak then vm_peak - vm_rss else 0);
  total_bytes = vm_peak;
}

-- `osal_heap_get_info` with both pointers, from VmRSS and VmPeak
unfoldable pub heap_get_info : ℕ → ℕ → Monitor → HeapInfo × Monitor
heap_get_info vm_rss vm_peak m =
    if vm_rss == 0 && vm_peak == 0 then (info_of m.current_usage m.peak_usage, m) else (
      info_of vm_rss vm_peak,
      record m {
        current_usage = vm_rss;
        peak_usage = (if ltb m.peak_usage vm_rss then vm_rss else m.peak_usage);
      },
    )

-- `osal_heap_set_threshold`
unfoldable pub heap_set_threshold : ℕ → Monitor → ℕ × Monitor
heap_set_threshold percent m =
    if ltb 100 percent
    then (err_invalid_size, m)
    else (osal_success, record m { threshold_percent = percent })

-- `usage_percent`
unfoldable pub usage_percent : HeapInfo → ℕ
usage_percent i = (i.total_bytes - i.free_bytes) * 100 % 2 ^ 32 / i.total_bytes

-- What `osal_heap_check_threshold` leaves: `*exceeded`, whether it prints, and the monitor.
abbrev pub Checked : Type 0
Checked = Bool × Bool × Monitor

unfoldable pub note_exceeded : Bool → Monitor → Checked
note_exceeded exceeded m =
    if exceeded && not m.alert_triggered
    then (exceeded, true, record m { alert_triggered = true })
    else if not exceeded
    then (exceeded, false, record m { alert_triggered = false })
    else (exceeded, false, m)

unfoldable pub check_info : HeapInfo × Monitor → Checked
check_info (i, m) =
    if i.total_bytes == 0
    then (false, false, m)
    else note_exceeded (leb m.threshold_percent (usage_percent i)) m

-- `osal_heap_check_threshold` with a pointer
unfoldable pub heap_check_threshold : ℕ → ℕ → Monitor → Checked
heap_check_threshold vm_rss vm_peak m = check_info (heap_get_info vm_rss vm_peak m)

-- `osal_heap_get_stats`, of two pointers that may be NULL
unfoldable pub heap_get_stats : Bool → Bool → Monitor → ℕ × Option (ℕ × ℕ)
heap_get_stats current peak m =
    if current && peak
    then (osal_success, some (m.current_usage, m.peak_usage))
    else (err_invalid_pointer, none)
