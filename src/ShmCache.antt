-- ===== src/ShmCache.antt =====
-- user/osal/src/ipc/osal_shm_cache.c: caches of timed entries in POSIX shared memory.
--
-- The state is one process's table of caches, the memory of the shared segments, and the names
-- under which the system keeps segments. A mapping of a segment is its number, so that two
-- descriptors may map one segment, and one that is unlinked stays mapped. The two mutexes make
-- each body one step; a step takes the reading of the monotonic clock as an argument. A step
-- that touches memory which its mapping does not have ends the process, with the lock of the segment
-- held; its code is then `fault`, and its world is as before.
pub mod Table
pub mod Entries
pub mod Inv
pub mod RoundTrip
pub mod Freshness
pub mod Names
pub mod Lifecycle
pub mod Reopen
pub mod Steps
mod Tests
use lpf.Common.{ℕ, ◌==◌, ◌^◌, if◌then◌else◌, Bool, List, take, drop, ◌++◌, replicate}

-- The return codes, as osal_errno.h numbers them: OSAL_SUCCESS, OSAL_ERR_GENERIC,
-- OSAL_ERR_INVALID_PARAM and OSAL_ERR_INVALID_ID (both are EINVAL), OSAL_ERR_NO_FREE_IDS.
abbrev pub success : ℕ
success = 0

abbrev pub err_generic : ℕ
err_generic = 5

abbrev pub err_invalid_param : ℕ
err_invalid_param = 22

abbrev pub err_invalid_id : ℕ
err_invalid_id = 22

abbrev pub err_no_free_ids : ℕ
err_no_free_ids = 0xcc

-- No code of the source: the process was ended by SIGSEGV or SIGBUS.
abbrev pub fault : ℕ
fault = 2 ^ 32

-- `osal_cache_status_t`
pub data Status : Type 0 where
  invalid fresh stale : Status

-- `osal_cache_entry_t`
pub record Entry : Type 0 where
  pub entry_id : ℕ
  pub bytes : List ℕ
  pub data_len : ℕ
  pub timestamp_us : ℕ
  pub data_validity_ms : ℕ
  pub status : Status
  pub valid : Bool
  pub update_count : ℕ
  pub read_count : ℕ
  pub checksum : ℕ

-- `osal_cache_result_t`
pub record CacheResult : Type 0 where
  pub entry_id : ℕ
  pub bytes : List ℕ
  pub data_len : ℕ
  pub timestamp_us : ℕ
  pub age_ms : ℕ
  pub status : Status
  pub checksum : ℕ

-- `shm_cache_header_t` with its flexible array, without the mutex.
pub record Header : Type 0 where
  pub magic : ℕ
  pub version : ℕ
  pub max_entries : ℕ
  pub entry_size : ℕ
  pub entries : List Entry

-- `cache_descriptor_t`: `shm_ptr` and `header` are both the number of the mapped segment.
pub record Descriptor : Type 0 where
  pub in_use : Bool
  pub name : List ℕ
  pub shm_fd : ℕ
  pub segment : ℕ
  pub shm_size : ℕ

-- `caches` is `g_cache_table`; `sizes` has the bytes of each segment, `linked` has the names of the shared memory file system.
pub record World : Type 0 where
  pub caches : ℕ → Descriptor
  pub memory : ℕ → Header
  pub sizes : ℕ → ℕ
  pub linked : List (List ℕ × ℕ)
  pub next_segment : ℕ

abbrev pub max_caches : ℕ
max_caches = 16

-- OSAL_SHM_CACHE_MAX_DATA_SIZE
abbrev pub max_data_size : ℕ
max_data_size = 0x100

-- SHM_CACHE_MAGIC
abbrev pub cache_magic : ℕ
cache_magic = 0x4341_4348

-- SHM_CACHE_VERSION
abbrev pub cache_version : ℕ
cache_version = 1

-- An array, or the heap, with one cell written.
abbrev pub update {ℓ} : {Cell : Type ℓ} → (ℕ → Cell) → ℕ → Cell → ℕ → Cell
update cells at new = λ i. if i == at then new else cells i

-- `osal_memcpy(dest, src, n)` into a buffer.
unfoldable pub memcpy : List ℕ → List ℕ → ℕ → List ℕ
memcpy dest src n = take n src ++ drop n dest

-- `memset(header, 0, …)` on one entry.
abbrev pub zero_entry : Entry
zero_entry = record {
  entry_id = 0;
  bytes = replicate 256 0;
  data_len = 0;
  timestamp_us = 0;
  data_validity_ms = 0;
  status = Status.invalid;
  valid = Bool.false;
  update_count = 0;
  read_count = 0;
  checksum = 0;
}
