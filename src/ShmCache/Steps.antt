-- ===== src/ShmCache/Steps.antt =====
-- Any sequence of calls, of any processes that share the segments of one table.
use lpf.Common.{ℕ, Bool, List, [], ◌∷◌, Option}
use lpf.ShmCache.{CacheResult, World}
use lpf.ShmCache.Table.{Calls, create, open_cache, delete}
use lpf.ShmCache.Entries.{write, read, invalidate, invalidate_batch}
use lpf.ShmCache.Inv.{Holds}

-- The calls of osal_shm_cache.h that change the state, with the clock and the system's answers.
pub data Call : Type 0 where
  creates : Calls → Option (List ℕ) → ℕ → Bool → Call
  opens : Calls → Option (List ℕ) → Bool → Call
  deletes : ℕ → Call
  writes : ℕ → ℕ → Option (List ℕ) → ℕ → ℕ → ℕ → Call
  reads : ℕ → ℕ → Option CacheResult → ℕ → Call
  invalidates : ℕ → ℕ → Call
  invalidates_all : ℕ → Option (List ℕ) → Call

pub step : World → Call → World
step w (creates os name max_entries has_id) = (create os name max_entries has_id w).2
step w (opens os name has_id) = (open_cache os name has_id w).2
step w (deletes id) = (delete id w).1
step w (writes id entry bytes len validity now) = (write id entry bytes len validity now w).1
step w (reads id entry r now) = (read id entry r now w).2
step w (invalidates id entry) = (invalidate id entry w).1
step w (invalidates_all id entries) = (invalidate_batch id entries w).1

pub run_calls : World → List Call → World
run_calls w [] = w
run_calls w (c ∷ cs) = run_calls (step w c) cs

-- A write's buffer holds the bytes that its length promises.
abbrev pub Fair : Call → Type 0
Fair (writes id entry bytes len validity now) = Holds len bytes
Fair (creates os name max_entries has_id) = Unit {0}
Fair (opens os name has_id) = Unit {0}
Fair (deletes id) = Unit {0}
Fair (reads id entry r now) = Unit {0}
Fair (invalidates id entry) = Unit {0}
Fair (invalidates_all id entries) = Unit {0}

abbrev pub AllFair : List Call → Type 0
AllFair [] = Unit {0}
AllFair (c ∷ cs) = Fair c × AllFair cs
