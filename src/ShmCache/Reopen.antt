-- ===== src/ShmCache/Reopen.antt =====
-- Delete and open after a create: what they leave, and what they share.
use lpf.Common.{
  ℕ, ◌<◌, ◌≡◌, ◌≢◌, inl, inr, refl, sym, ap, ◌∙◌, true, false, not, ◌&&◌, ◌||◌, List, Option, none,
  some, length, take, take-all, length-take, leb, leb→le, leb→lt, ◌==◌, if◌then◌else◌, if_true,
  if_false, Bool-cases, arith,
}
use lpf.Common.Text.{same_string-length}
use lpf.ShmCache.{success, Header, Descriptor, World, max_caches, cache_magic, update}
use lpf.ShmCache.Table.{
  Calls, find_name, unlink, find_free_cache_slot, init_header, fill_slot, create, open_mapped,
  open_found, open_in_slot, open_cache, empty_descriptor, delete,
}
use lpf.ShmCache.Inv.{update_self}
use lpf.ShmCache.Names.{find_name-unlink_self, find_name-unlink_ne, find_free_cache_slot-some}
use lpf.ShmCache.Lifecycle.{Created, update_ne, create-Created}

length-take_ne : (n : ℕ) (xs : List ℕ) → n < length xs → length (take n xs) ≢ length xs
length-take_ne n xs h = omega (arith, length-take n xs)

unlink_truncated :
    (n : ℕ) (name : List ℕ) (l : List (List ℕ × ℕ))
    → find_name name (unlink (take n name) l)
      ≡ (if leb (length name) n then none else find_name name l)
unlink_truncated n name l = elim (Bool-cases (leb (length name) n)) [
  | inl short ↦
      ap (λ (t : List ℕ). find_name name (unlink t l)) (take-all n name (leb→le _ _ short))
      ∙ find_name-unlink_self name l
      ∙ sym (if_true _ _ _ short)
  | inr long ↦
      find_name-unlink_ne (take n name) name l
        (same_string-length (take n name) name (length-take_ne n name (leb→lt _ _ long)))
      ∙ sym (if_false _ _ _ long)
]

after_delete : ℕ → World → World
after_delete id w = record w {
  linked = unlink (w.caches id).name w.linked;
  caches = update w.caches id empty_descriptor;
}

delete_used :
    (id : ℕ) (w : World)
    → id < max_caches
    → (w.caches id).in_use ≡ true
    → delete id w ≡ (success, after_delete id w)
unfolding delete after_delete
delete_used id w lt used =
    if_false (leb max_caches id || not (w.caches id).in_use) _ _ (ground arith)

-- What a name leads to once the cache that was created under it is deleted.
name_after_delete :
    (name : List ℕ) (max_entries id : ℕ) (w w' : World)
    → Created name max_entries id w w'
    → find_name name (after_delete id w').linked
      ≡ (if leb (length name) 63 then none else some (w'.caches id).segment)
unfolding after_delete
name_after_delete name max_entries id w w' c =
    ap (λ (t : List ℕ). find_name name (unlink t w'.linked)) c.named
    ∙ unlink_truncated 63 name w'.linked
    ∙ ap (λ (t : Option ℕ). if leb (length name) 63 then none else t) c.reachable

free_after_delete : (id : ℕ) (w : World) → ((after_delete id w).caches id).in_use ≡ false
unfolding after_delete
free_after_delete id w =
    ap (λ (t : Descriptor). t.in_use) (update_self w.caches id empty_descriptor)

-- After a successful `osal_cache_create`, `osal_cache_delete` of the id succeeds and frees the
-- slot. Its `shm_unlink` takes the name of the segment away if the name has at most 63 bytes; a
-- longer name still leads to the segment, since the descriptor kept only its first 63 bytes.
pub delete-create :
    (os : Calls) (name : List ℕ) (max_entries id : ℕ) (w : World)
    → let (code, out, w') = create os (some name) max_entries true w in
      code ≡ success
      → out ≡ some id
      → let (deleted, w'') = delete id w' in
        (deleted ≡ success)
        × ((w''.caches id).in_use ≡ false)
        × (find_name name w''.linked
            ≡ (if leb (length name) 63 then none else some (w'.caches id).segment))
delete-create os name max_entries id w ok e =
    let w' : World = (create os (some name) max_entries true w).2 in
    let c = create-Created os name max_entries id w ok e in
    let gone = delete_used id w' c.in_table c.used in
    (
      ap (λ (p : ℕ × World). p.0) gone,
      ap (λ (p : ℕ × World). (p.1.caches id).in_use) gone ∙ free_after_delete id w',
      ap (λ (p : ℕ × World). find_name name p.1.linked) gone
          ∙ name_after_delete name max_entries id w w' c,
    )

open_found_lem :
    (os : Calls) (name : List ℕ) (slot fd s : ℕ) (w : World) (o : Option ℕ)
    → o ≡ some s
    → os.fstat ≡ true
    → os.mmap ≡ true
    → (w.memory s).magic ≡ cache_magic
    → open_found os name slot w (some fd) o
      ≡ (success, some slot, fill_slot slot name fd s (w.sizes s) w)
unfolding open_found open_mapped
open_found_lem os name slot fd s w o found fstat mmap magic =
    ap (open_found os name slot w (some fd)) found
    ∙ if_true (os.fstat && os.mmap && ((w.memory s).magic == cache_magic)) _ _ (ground arith)

magic-init_header : (n : ℕ) → (init_header n).magic ≡ cache_magic
unfolding init_header
magic-init_header n = refl

slot_ne :
    (w : World) (slot id : ℕ)
    → (w.caches slot).in_use ≡ false
    → (w.caches id).in_use ≡ true
    → slot ≢ id
slot_ne w slot id free used e = cc (ap (λ (k : ℕ). (w.caches k).in_use) e)

shared_segment :
    (slot id : ℕ) (name : List ℕ) (fd s size : ℕ) (w : World)
    → slot ≢ id
    → (w.caches id).segment ≡ s
    → ((fill_slot slot name fd s size w).caches slot).segment
      ≡ ((fill_slot slot name fd s size w).caches id).segment
unfolding fill_slot
shared_segment slot id name fd s size w ne at =
    ap (λ (t : Descriptor). t.segment) (update_self w.caches slot d)
    ∙ sym (ap (λ (t : Descriptor). t.segment) (update_ne w.caches slot id d (λ e. ne (sym e))) ∙ at)
  where
    d : Descriptor
    d = record { in_use = true; name = take 63 name; shm_fd = fd; segment = s; shm_size = size }

-- `osal_cache_open` of a name that was created, in a process or state where no slot, segment or
-- name has changed since and a slot is free, succeeds if the system calls do, and maps the segment
-- that the creator uses, through another slot.
pub open_cache-create :
    (os later : Calls) (name : List ℕ) (max_entries id slot fd : ℕ) (w : World)
    → let (code, out, w') = create os (some name) max_entries true w in
      code ≡ success
      → out ≡ some id
      → find_free_cache_slot w'.caches ≡ some slot
      → later.shm_open ≡ some fd
      → later.fstat ≡ true
      → later.mmap ≡ true
      → let (opened, out', w'') = open_cache later (some name) true w' in
        (opened ≡ success)
        × (out' ≡ some slot)
        × (slot ≢ id)
        × ((w''.caches slot).segment ≡ (w''.caches id).segment)
unfolding open_cache open_in_slot
open_cache-create os later name max_entries id slot fd w ok e free opens fstat mmap =
    let w' : World = (create os (some name) max_entries true w).2 in
    let c = create-Created os name max_entries id w ok e in
    let s : ℕ = (w'.caches id).segment in
    let low = find_free_cache_slot-some w'.caches slot free in
    let ne = slot_ne w' slot id low.0.free c.used in
    let done =
      ap (open_in_slot later name w') free
      ∙ ap (λ (o : Option ℕ). open_found later name slot w' o (find_name name w'.linked)) opens
      ∙ open_found_lem later name slot fd s w' (find_name name w'.linked) c.reachable fstat mmap
          (ap (λ (h : Header). h.magic) c.header ∙ magic-init_header max_entries) in
    (
      ap (λ (p : ℕ × Option ℕ × World). p.0) done,
      ap (λ (p : ℕ × Option ℕ × World). p.1) done,
      ne,
      ap (λ (p : ℕ × Option ℕ × World). (p.2.caches slot).segment) done
          ∙ shared_segment slot id name fd s (w'.sizes s) w' ne refl
          ∙ sym (ap (λ (p : ℕ × Option ℕ × World). (p.2.caches id).segment) done),
    )
