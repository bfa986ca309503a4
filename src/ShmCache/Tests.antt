-- ===== src/ShmCache/Tests.antt =====
-- Runs of the cache, and the theorems at two caches of one segment.
use lpf.Common.{
  ℕ, ◌<◌, ◌≡◌, ◌≢◌, refl, sym, subst, true, false, List, [], ◌∷◌, none, some, length, replicate,
  ltb, leb, if◌then◌else◌, arith,
}
use mathlib.Core.Option
use lpf.Common.Text.{same_string}
use lpf.ShmCache.{
  success, fault, invalid, fresh, CacheResult, Header, Descriptor, World, update, memcpy,
}
use lpf.ShmCache.Table.{
  Calls, find_name, find_free_from, find_free_cache_slot, init_header, init_entries, open_or_create,
  fill_slot, create_mapped, create_opened, create_in_slot, create, open_cache, delete,
  empty_descriptor,
}
use lpf.ShmCache.Entries.{
  reached, put_entry, store, write_open, write, age_ms, freshness, fill_result, read_entry, read,
  mark_stale, invalidate,
}
use lpf.ShmCache.Inv.{Ok, update-Ok, init_header-Ok, write-Ok}
use lpf.ShmCache.RoundTrip.{Opened, Reads, read-write, write-Opened, Opened-put_entry}
use lpf.ShmCache.Freshness.{read-write_wrapped, read-invalidate}
use lpf.ShmCache.Reopen.{delete-create, open_cache-create}
use lpf.ShmCache.Steps.{Call, creates, writes, reads}

abbrev blank : Header
blank = record { magic = 0; version = 0; max_entries = 0; entry_size = 0; entries = [] }

abbrev empty_world : World
empty_world = record {
  caches = λ _. empty_descriptor;
  memory = λ _. blank;
  sizes = λ _. 0;
  linked = [];
  next_segment = 0;
}

abbrev all_well : Calls
all_well = record { shm_open = some 5; ftruncate = true; fstat = true; mmap = true }

abbrev name : List ℕ
name = b'/' ∷ b'a' ∷ []

abbrev no_result : CacheResult
no_result = record {
  entry_id = 0;
  bytes = replicate 256 0;
  data_len = 0;
  timestamp_us = 0;
  age_ms = 0;
  status = invalid;
  checksum = 0;
}

-- Caches 0 and 1 map segment 0, which has two entries.
abbrev mapping : Descriptor
mapping = record { in_use = true; name = name; shm_fd = 5; segment = 0; shm_size = 648 }

abbrev shared : World
shared = record {
  caches = λ i. if ltb i 2 then mapping else empty_descriptor;
  memory = update (λ _. blank) 0 (init_header 2);
  sizes = update (λ _. 0) 0 648;
  linked = (name, 0) ∷ [];
  next_segment = 1;
}

empty_world-Ok : Ok empty_world
empty_world-Ok s = record { counted = refl; entries_ok = tt }

shared-Ok : Ok shared
shared-Ok = update-Ok (λ _. blank) 0 (init_header 2) (init_header-Ok 2) empty_world-Ok

shared-Opened : (id : ℕ) → id < 2 → Opened id 1 shared
unfolding init_header reached
shared-Opened id h = record {
  in_table = omega arith;
  used = ground arith;
  present = ground arith;
  reaches = ground arith;
}

-- Data marked by `osal_cache_invalidate` is still read as FRESH.
invalidated_is_fresh :
    let w = (write 0 1 (some (7 ∷ 8 ∷ [])) 2 10 1000 shared).1 in
    let (code, marked) = invalidate 0 1 w in
    Option.map (λ (r : CacheResult). r.status) (read 1 1 (some no_result) 2000 marked).1
    ≡ some fresh
unfolding write write_open reached put_entry store memcpy init_header init_entries invalidate
    mark_stale read read_entry fill_result freshness age_ms
invalidated_is_fresh = refl

read-write_example :
    let (wrote, w') = write 0 1 (some (7 ∷ 8 ∷ [])) 2 10 1000 shared in
    let (code, out, w'') = read 1 1 (some no_result) 2000 w' in
    (res : CacheResult) × (wrote ≡ success)
    × (code ≡ success)
    × (out ≡ some res)
    × Reads (7 ∷ 8 ∷ []) 2 10 1000 2000 res
read-write_example =
    read-write 0 1 1 (7 ∷ 8 ∷ []) 2 10 1000 2000 no_result shared shared-Ok
      (shared-Opened 0 (omega arith)) (shared-Opened 1 (omega arith)) refl (omega arith)
      (omega arith) (omega arith)

-- After a write of two bytes, with a validity of 10 ms.
written : World
written = (write 0 1 (some (7 ∷ 8 ∷ [])) 2 10 1000 shared).1

written-Ok : Ok written
unfolding written
written-Ok = write-Ok 0 1 (some (7 ∷ 8 ∷ [])) 2 10 1000 shared (omega arith) shared-Ok

written-Opened : (id : ℕ) → id < 2 → Opened id 1 written
unfolding written
written-Opened id h =
    subst (λ (p : ℕ × World). Opened id 1 p.1)
      (sym (
        write-Opened 0 1 (7 ∷ 8 ∷ []) 2 10 1000 shared (shared-Opened 0 (omega arith)) (omega arith)
          (omega arith)))
      (Opened-put_entry 0 id 1 _ shared (shared-Opened id h))

one_segment : (written.caches 1).segment ≡ (written.caches 0).segment
unfolding written write write_open put_entry init_header reached
one_segment = refl

read-invalidate_example :
    let (code, w') = invalidate 0 1 written in
    let before = read 1 1 (some no_result) 2000 written in
    let after = read 1 1 (some no_result) 2000 w' in
    (code ≡ success) × (after.0 ≡ before.0) × (after.1 ≡ before.1)
read-invalidate_example =
    read-invalidate 0 1 1 no_result 2000 written written-Ok (written-Opened 0 (omega arith))
      (written-Opened 1 (omega arith)) one_segment

-- 2^32 ms and 4 ms after the write, some 49 days.
read-write_wrapped_example :
    let w' = (write 0 1 (some (7 ∷ 8 ∷ [])) 2 10 1000 shared).1 in
    (res : CacheResult) × ((read 1 1 (some no_result) 4294967301000 w').1 ≡ some res)
    × (res.status ≡ fresh)
read-write_wrapped_example =
    read-write_wrapped 0 1 1 (7 ∷ 8 ∷ []) 2 10 1000 4294967301000 no_result shared shared-Ok
      (shared-Opened 0 (omega arith)) (shared-Opened 1 (omega arith)) refl (omega arith)
      (omega arith) (omega arith) 1 4000 refl (omega arith) (omega arith) (omega arith)

-- A segment that is created again with more entries: the old mapping, of one page, does not reach the
-- last of 20 entries, and the write of it through the old id ends the process.
recreated : World
recreated =
    (create all_well (some name) 20 true (create all_well (some name) 1 true empty_world).2).2

old_mapping : (write 0 19 (some (7 ∷ [])) 1 10 1000 recreated).0 ≡ fault
unfolding recreated write write_open reached create create_in_slot create_opened create_mapped
    find_free_cache_slot find_free_from open_or_create find_name fill_slot init_header init_entries
    same_string
old_mapping = refl

full_world : World
full_world = record empty_world { caches = λ _. mapping }

delete-create_example :
    let w' = (create all_well (some name) 2 true empty_world).2 in
    let (deleted, w'') = delete 0 w' in
    (deleted ≡ success)
    × ((w''.caches 0).in_use ≡ false)
    × (find_name name w''.linked
        ≡ (if leb (length name) 63 then none else some (w'.caches 0).segment))
unfolding create create_in_slot create_opened create_mapped find_free_cache_slot find_free_from
    open_or_create find_name
delete-create_example = delete-create all_well name 2 0 empty_world refl refl

open_cache-create_example :
    let w' = (create all_well (some name) 2 true empty_world).2 in
    let (opened, out', w'') = open_cache all_well (some name) true w' in
    (opened ≡ success)
    × (out' ≡ some 1)
    × (◌≢◌ {A = ℕ} 1 0)
    × ((w''.caches 1).segment ≡ (w''.caches 0).segment)
unfolding create create_in_slot create_opened create_mapped find_free_cache_slot find_free_from
    open_or_create find_name fill_slot
open_cache-create_example =
    open_cache-create all_well all_well name 2 0 1 5 empty_world refl refl refl refl refl refl

abbrev some_calls : List Call
some_calls =
    creates all_well (some name) 2 true
    ∷ writes 0 1 (some (7 ∷ [])) 1 10 1000
    ∷ reads 0 1 (some no_result) 2000
    ∷ []
