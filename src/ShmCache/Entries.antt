-- ===== src/ShmCache/Entries.antt =====
-- The operations on the entries of a cache: write, read, invalidate and the statistics.
use lpf.Common.{
  ◌*◌, ◌&&◌, Bool, ℕ, zero, suc, ◌+◌, ◌-◌, ◌/◌, ◌%◌, ◌^◌, ltb, leb, ◌==◌, if◌then◌else◌, true, not,
  ◌||◌, List, [], ◌∷◌, Option, none, some, take, get_or, set,
}
use lpf.Crc.{calculate_crc32}
use lpf.ShmCache.Table.{header_size, entry_size}
use lpf.ShmCache.{
  success, fault, err_generic, err_invalid_param, err_invalid_id, Status, invalid, fresh, stale,
  Entry, CacheResult, Header, World, max_caches, max_data_size, update, memcpy, zero_entry,
}

-- `cache->header` of a descriptor, and that header written back.
abbrev pub mapped : ℕ → World → Header
mapped id w = w.memory (w.caches id).segment

abbrev pub entry_at : ℕ → ℕ → World → Entry
entry_at id entry w = get_or (mapped id w).entries entry zero_entry

-- Up to the end of a page of 4096 bytes.
abbrev pub page_end : ℕ → ℕ
page_end n = (n + 4095) / 4096 * 4096

-- Whether an entry lies in the pages that the descriptor maps and the segment has.
unfoldable pub reached : ℕ → ℕ → World → Bool
reached id entry w =
    leb (header_size + (entry + 1) * entry_size) (page_end (w.caches id).shm_size)
    && leb (header_size + (entry + 1) * entry_size) (page_end (w.sizes (w.caches id).segment))

unfoldable pub put_entry : ℕ → ℕ → Entry → World → World
put_entry id entry e w = record w {
  memory =
      update w.memory (w.caches id).segment
        (record (mapped id w) { entries = set (mapped id w).entries entry e });
}

-- The new contents of an entry, under the lock of the cache.
unfoldable pub store : List ℕ → ℕ → ℕ → ℕ → Entry → Entry
store data' len validity now e = record e {
  bytes = memcpy e.bytes data' len;
  data_len = len;
  timestamp_us = now;
  data_validity_ms = validity;
  status = fresh;
  valid = true;
  update_count = (e.update_count + 1) % 2 ^ 32;
  checksum = calculate_crc32 (take len data');
}

unfoldable pub write_open : ℕ → ℕ → List ℕ → ℕ → ℕ → ℕ → World → ℕ × World
write_open id entry data' len validity now w =
    if not (w.caches id).in_use
    then (err_invalid_id, w)
    else (if leb (mapped id w).max_entries entry
        then (err_invalid_param, w)
        else if not (reached id entry w)
        then (fault, w)
        else (success, put_entry id entry (store data' len validity now (entry_at id entry w)) w))

-- `osal_cache_write`
unfoldable pub write : ℕ → ℕ → Option (List ℕ) → ℕ → ℕ → ℕ → World → ℕ × World
write id entry none len validity now w = (err_invalid_param, w)
write id entry (some data') len validity now w =
    if leb max_caches id || len == 0 || ltb max_data_size len
    then (err_invalid_param, w)
    else write_open id entry data' len validity now w

-- `(uint32_t)((now - entry->timestamp_us) / 1000)` of 64-bit times.
unfoldable pub age_ms : ℕ → Entry → ℕ
age_ms now e = (now + 2 ^ 64 - e.timestamp_us) % 2 ^ 64 / 1000 % 2 ^ 32

unfoldable pub freshness : ℕ → Entry → Status → Status
freshness now e invalid = invalid
freshness now e fresh = if ltb (age_ms now e) e.data_validity_ms then fresh else stale
freshness now e stale = if ltb (age_ms now e) e.data_validity_ms then fresh else stale

-- What `osal_cache_read` puts into the caller's result.
unfoldable pub fill_result : ℕ → ℕ → Entry → CacheResult → CacheResult
fill_result entry now e r = record {
  entry_id = entry;
  bytes = memcpy r.bytes e.bytes e.data_len;
  data_len = e.data_len;
  timestamp_us = e.timestamp_us;
  age_ms = age_ms now e;
  status = freshness now e e.status;
  checksum = e.checksum;
}

unfoldable pub read_entry : ℕ → ℕ → CacheResult → ℕ → World → ℕ × Option CacheResult × World
read_entry id entry r now w =
    if not (entry_at id entry w).valid then (err_generic, some r, w) else (
      success,
      some (fill_result entry now (entry_at id entry w) r),
      put_entry id entry
          (record (entry_at id entry w) {
            read_count = ((entry_at id entry w).read_count + 1) % 2 ^ 32;
          })
          w,
    )

-- `osal_cache_read`: `none` is a null `result`; otherwise the result buffer before and after.
unfoldable pub read : ℕ → ℕ → Option CacheResult → ℕ → World → ℕ × Option CacheResult × World
read id entry none now w = (err_invalid_param, none, w)
read id entry (some r) now w =
    if leb max_caches id
    then (err_invalid_param, some r, w)
    else (if not (w.caches id).in_use
        then (err_invalid_id, some r, w)
        else (if leb (mapped id w).max_entries entry
            then (err_invalid_param, some r, w)
            else if not (reached id entry w)
            then (fault, some r, w)
            else read_entry id entry r now w))

unfoldable pub mark_stale : Entry → Entry
mark_stale e = if e.valid then record e { status = stale } else e

-- `osal_cache_invalidate`
unfoldable pub invalidate : ℕ → ℕ → World → ℕ × World
invalidate id entry w =
    if leb max_caches id
    then (err_invalid_param, w)
    else (if not (w.caches id).in_use
        then (err_invalid_id, w)
        else (if leb (mapped id w).max_entries entry
            then (err_invalid_param, w)
            else if not (reached id entry w)
            then (fault, w)
            else (success, put_entry id entry (mark_stale (entry_at id entry w)) w)))

unfoldable pub invalidate_each : ℕ → List ℕ → World → ℕ × World
invalidate_each id [] w = (success, w)
invalidate_each id (entry ∷ entries) w =
    let (code, w') = invalidate id entry w in
    let rest = invalidate_each id entries w' in if code == fault then (fault, w') else rest

-- `osal_cache_invalidate_batch`: the codes of the single calls are dropped, but for a fault.
unfoldable pub invalidate_batch : ℕ → Option (List ℕ) → World → ℕ × World
invalidate_batch id none w = (err_invalid_param, w)
invalidate_batch id (some []) w = (err_invalid_param, w)
invalidate_batch id (some (e ∷ es)) w = invalidate_each id (e ∷ es) w

-- The four counters of `osal_cache_get_stats`. None passes `max_entries`, so none wraps.
pub record Counts : Type 0 where
  pub total : ℕ
  pub valid : ℕ
  pub fresh : ℕ
  pub stale : ℕ

unfoldable pub count_status : Status → Counts → Counts
count_status invalid c = c
count_status fresh c = record c { fresh = c.fresh + 1 }
count_status stale c = record c { stale = c.stale + 1 }

unfoldable pub count_entry : ℕ → Entry → Counts → Counts
count_entry now e c =
    if not e.valid
    then c
    else count_status (freshness now e e.status) (record c { valid = c.valid + 1 })

-- The loop, from entry `i` with `n` entries to go.
unfoldable pub count_from : ℕ → List Entry → ℕ → ℕ → Counts → Counts
count_from now entries i zero c = c
count_from now entries i (suc n) c =
    count_from now entries (suc i) n (count_entry now (get_or entries i zero_entry) c)

-- `osal_cache_get_stats`; the counters are out parameters, `none` where they are not written.
unfoldable pub get_stats : ℕ → ℕ → World → ℕ × Option Counts
get_stats id now w =
    if leb max_caches id
    then (err_invalid_param, none)
    else (if not (w.caches id).in_use
        then (err_invalid_id, none)
        else if not (reached id ((mapped id w).max_entries - 1) w)
        then (fault, none)
        else (
          success,
          some (
              count_from now (mapped id w).entries 0 (mapped id w).max_entries
                (record { total = (mapped id w).max_entries; valid = 0; fresh = 0; stale = 0 })),
        ))
