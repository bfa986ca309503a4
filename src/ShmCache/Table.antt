-- ===== src/ShmCache/Table.antt =====
-- The table of caches: create, open and delete.
use lpf.Common.{
  ℕ, zero, suc, ◌+◌, ◌*◌, ◌%◌, ◌^◌, leb, ◌==◌, if◌then◌else◌, Bool, true, false, not, ◌&&◌, ◌||◌,
  List, [], ◌∷◌, Option, none, some, take,
}
use lpf.Common.Text.{same_string}
use lpf.ShmCache.{
  success, err_generic, err_invalid_param, err_invalid_id, err_no_free_ids, Entry, Header,
  Descriptor, World, max_caches, cache_magic, cache_version, update, zero_entry, Status,
}

-- What the system calls of one step return: whether each succeeds, and the descriptor of
-- `shm_open`.
pub record Calls : Type 0 where
  pub shm_open : Option ℕ
  pub ftruncate : Bool
  pub fstat : Bool
  pub mmap : Bool

-- OSAL_sizeof of the header and of an entry, on x86-64.
abbrev pub header_size : ℕ
header_size = 56

abbrev pub entry_size : ℕ
entry_size = 296

-- The shared memory file system: the segment under a name, and a name taken away (`shm_unlink`).
unfoldable pub find_name : List ℕ → List (List ℕ × ℕ) → Option ℕ
find_name n [] = none
find_name n ((m, s) ∷ l) = if same_string m n then some s else find_name n l

unfoldable pub unlink : List ℕ → List (List ℕ × ℕ) → List (List ℕ × ℕ)
unlink n [] = []
unlink n ((m, s) ∷ l) = if same_string m n then unlink n l else (m, s) ∷ unlink n l

-- `_find_free_cache_slot`, from slot `i` with `n` slots to go.
unfoldable pub find_free_from : (ℕ → Descriptor) → ℕ → ℕ → Option ℕ
find_free_from caches i zero = none
find_free_from caches i (suc n) =
    let rest = find_free_from caches (suc i) n in if not (caches i).in_use then some i else rest

unfoldable pub find_free_cache_slot : (ℕ → Descriptor) → Option ℕ
find_free_cache_slot caches = find_free_from caches 0 max_caches

-- The loop that numbers the entries, `n` to go.
unfoldable pub init_entries : ℕ → ℕ → List Entry
init_entries i zero = []
init_entries i (suc n) =
    record zero_entry { entry_id = i; status = Status.invalid; valid = false }
    ∷ init_entries (suc i) n

unfoldable pub init_header : ℕ → Header
init_header max_entries = record {
  magic = cache_magic;
  version = cache_version;
  max_entries = max_entries;
  entry_size = entry_size;
  entries = init_entries 0 max_entries;
}

-- `shm_open(name, O_CREAT | O_RDWR, …)`: the segment that has the name, or a new one.
unfoldable pub open_or_create : List ℕ → World → ℕ × World
open_or_create name w = elim (find_name name w.linked) [
  | some s ↦ (s, w)
  | none ↦ (
    w.next_segment,
    record w { linked = (name, w.next_segment) ∷ w.linked; next_segment = w.next_segment + 1 },
  )
]

-- The part of create and open that fills the slot. `strncpy` keeps 63 bytes of the name.
unfoldable pub fill_slot : ℕ → List ℕ → ℕ → ℕ → ℕ → World → World
fill_slot slot name fd segment size w = record w {
  caches = update w.caches slot (record {
    in_use = true;
    name = take 63 name;
    shm_fd = fd;
    segment = segment;
    shm_size = size;
  });
}

-- `ftruncate` to the size of so many entries: what lies beyond reads as zeros from then on.
unfoldable pub cut_entries : ℕ → List Entry → List Entry
cut_entries n [] = []
cut_entries zero (e ∷ es) = zero_entry ∷ cut_entries zero es
cut_entries (suc n) (e ∷ es) = e ∷ cut_entries n es

abbrev pub size_of : ℕ → ℕ
size_of n = (header_size + n * entry_size) % 2 ^ 64

unfoldable pub truncated : ℕ → ℕ → World → World
truncated segment n w = record w {
  memory =
      update w.memory segment
        (record (w.memory segment) { entries = cut_entries n (w.memory segment).entries });
  sizes = update w.sizes segment (size_of n);
}

-- `osal_cache_create` after `shm_open`. If `mmap` fails, the segment was resized before.
unfoldable pub create_mapped : Calls → List ℕ → ℕ → ℕ → ℕ → ℕ × World → ℕ × Option ℕ × World
create_mapped os name max_entries slot fd (segment, w) =
    if os.ftruncate && os.mmap
    then (
      success,
      some slot,
      fill_slot slot name fd segment (size_of max_entries) (record w {
        memory = update w.memory segment (init_header max_entries);
        sizes = update w.sizes segment (size_of max_entries);
      }),
    )
    else (
      err_generic,
      none,
      record (if os.ftruncate then truncated segment max_entries w else w) {
        linked = unlink name w.linked;
      },
    )

-- The last argument is what `shm_open` returned.
unfoldable pub create_opened : Calls → List ℕ → ℕ → ℕ → World → Option ℕ → ℕ × Option ℕ × World
create_opened os name max_entries slot w none = (err_generic, none, w)
create_opened os name max_entries slot w (some fd) =
    create_mapped os name max_entries slot fd (open_or_create name w)

unfoldable pub create_in_slot : Calls → List ℕ → ℕ → World → Option ℕ → ℕ × Option ℕ × World
create_in_slot os name max_entries w none = (err_no_free_ids, none, w)
create_in_slot os name max_entries w (some slot) =
    create_opened os name max_entries slot w os.shm_open

-- `osal_cache_create`: the code, what goes out through `cache_id`, and the new state. `has_id`
-- says that `cache_id` is no null pointer.
unfoldable pub create : Calls → Option (List ℕ) → ℕ → Bool → World → ℕ × Option ℕ × World
create os none max_entries has_id w = (err_invalid_param, none, w)
create os (some name) max_entries has_id w =
    if max_entries == 0 || not has_id
    then (err_invalid_param, none, w)
    else create_in_slot os name max_entries w (find_free_cache_slot w.caches)

-- `osal_cache_open` once the segment is known: `fstat`, `mmap` and the magic number.
unfoldable pub open_mapped : Calls → List ℕ → ℕ → ℕ → ℕ → World → ℕ × Option ℕ × World
open_mapped os name slot fd segment w =
    if os.fstat && os.mmap && ((w.memory segment).magic == cache_magic)
    then (success, some slot, fill_slot slot name fd segment (w.sizes segment) w)
    else (err_generic, none, w)

-- `shm_open` without O_CREAT fails on a name that is not there.
unfoldable pub open_found : Calls → List ℕ → ℕ → World → Option ℕ → Option ℕ → ℕ × Option ℕ × World
open_found os name slot w none segment = (err_generic, none, w)
open_found os name slot w (some fd) none = (err_generic, none, w)
open_found os name slot w (some fd) (some segment) = open_mapped os name slot fd segment w

unfoldable pub open_in_slot : Calls → List ℕ → World → Option ℕ → ℕ × Option ℕ × World
open_in_slot os name w none = (err_no_free_ids, none, w)
open_in_slot os name w (some slot) = open_found os name slot w os.shm_open (find_name name w.linked)

-- `osal_cache_open`
unfoldable pub open_cache : Calls → Option (List ℕ) → Bool → World → ℕ × Option ℕ × World
open_cache os none has_id w = (err_invalid_param, none, w)
open_cache os (some name) has_id w =
    if not has_id
    then (err_invalid_param, none, w)
    else open_in_slot os name w (find_free_cache_slot w.caches)

-- `memset(cache, 0, …)`
abbrev pub empty_descriptor : Descriptor
empty_descriptor = record { in_use = false; name = []; shm_fd = 0; segment = 0; shm_size = 0 }

-- `osal_cache_delete`
unfoldable pub delete : ℕ → World → ℕ × World
delete id w = if leb max_caches id || not (w.caches id).in_use then (err_invalid_id, w) else (
  success,
  record w {
    linked = unlink (w.caches id).name w.linked;
    caches = update w.caches id empty_descriptor;
  },
)
