-- ===== src/ShmCache/Lifecycle.antt =====
-- `osal_cache_create`: which slot and segment it takes.
use lpf.Common.{
  ℕ, ◌<◌, ◌≡◌, ◌≢◌, inl, inr, refl, sym, ap, subst, ◌∙◌, true, not, ◌&&◌, ◌||◌, List, Option, none,
  some, take, ◌==◌, if_false, if_elim, Option-cases, arith,
}
use lpf.ShmCache.{success, err_no_free_ids, Descriptor, World, max_caches, update}
use lpf.ShmCache.Table.{
  Calls, find_name, find_free_cache_slot, init_header, open_or_create, fill_slot, create_mapped,
  create_opened, create_in_slot, create, size_of,
}
use lpf.ShmCache.Inv.{update_self}
use lpf.ShmCache.Names.{
  Lowest, find_free_cache_slot-some, find_name-open_or_create, caches-open_or_create,
}

-- What a successful `osal_cache_create` has done.
pub record Created (name : List ℕ) (max_entries id : ℕ) (w w' : World) : Type 0 where
  pub in_table : id < max_caches
  pub lowest : Lowest w.caches 0 id
  pub used : (w'.caches id).in_use ≡ true
  pub named : (w'.caches id).name ≡ take 63 name
  pub others : (j : ℕ) → j ≢ id → w'.caches j ≡ w.caches j
  pub header : w'.memory (w'.caches id).segment ≡ init_header max_entries
  pub reachable : find_name name w'.linked ≡ some (w'.caches id).segment

pub update_ne {ℓ} : {A : Type ℓ} (f : ℕ → A) (i j : ℕ) (a : A) → j ≢ i → update f i a j ≡ f j
update_ne f i j a ne = if_false (j == i) a (f j) (ground arith)

-- If the result is a success, `P` holds of the state.
abbrev pub OnSuccess : (ℕ → World → Type 0) → ℕ × Option ℕ × World → Type 0
OnSuccess P out = (id : ℕ) → out.0 ≡ success → out.1 ≡ some id → P id out.2

Created-id :
    {name : List ℕ} {max_entries i j : ℕ} {w w' : World}
    → i ≡ j
    → Created name max_entries i w w'
    → Created name max_entries j w w'
Created-id {name} {max_entries} {w = w} {w' = w'} e c =
    subst (λ (k : ℕ). Created name max_entries k w w') e c

module _ (os : Calls) (name : List ℕ) (max_entries : ℕ) (w : World) where
  filled-Created :
      (slot fd size : ℕ)
      → Lowest w.caches 0 slot
      → slot < max_caches
      → let (s, w') = open_or_create name w in
        Created name max_entries slot w (
          fill_slot slot name fd s size (record w' {
            memory = update w'.memory s (init_header max_entries);
            sizes = update w'.sizes s (size_of max_entries);
          }))
  unfolding fill_slot
  filled-Created slot fd size low lt = record {
    in_table = lt;
    lowest = low;
    used = ap (λ (t : Descriptor). t.in_use) written;
    named = ap (λ (t : Descriptor). t.name) written;
    others = λ j ne.
        update_ne w'.caches slot j d ne
        ∙ ap (λ (c : ℕ → Descriptor). c j) (caches-open_or_create name w);
    header =
        ap (λ (t : Descriptor). update w'.memory s (init_header max_entries) t.segment) written
        ∙ update_self w'.memory s (init_header max_entries);
    reachable =
        find_name-open_or_create name w ∙ ap (λ (t : Descriptor). some t.segment) (sym written);
  }
    where
      s : ℕ
      s = (open_or_create name w).0

      w' : World
      w' = (open_or_create name w).1

      d : Descriptor
      d = record { in_use = true; name = take 63 name; shm_fd = fd; segment = s; shm_size = size }

      written : update w'.caches slot d slot ≡ d
      written = update_self w'.caches slot d

  create_mapped-Created :
      (slot fd : ℕ)
      → Lowest w.caches 0 slot
      → slot < max_caches
      → OnSuccess
          (λ id. Created name max_entries id w)
          (create_mapped os name max_entries slot fd (open_or_create name w))
  unfolding create_mapped
  create_mapped-Created slot fd low lt =
      if_elim (OnSuccess (λ id. Created name max_entries id w)) (os.ftruncate && os.mmap) _ _
        (λ _ id ok e.
          Created-id (ground arith) (filled-Created slot fd (size_of max_entries) low lt))
        (λ _ id ok e. cc)

  create_in_slot-Created :
      (o : Option ℕ)
      → find_free_cache_slot w.caches ≡ o
      → OnSuccess (λ id. Created name max_entries id w) (create_in_slot os name max_entries w o)
  unfolding create_in_slot create_opened
  create_in_slot-Created none found = λ id ok e. cc
  create_in_slot-Created (some slot) found = go os.shm_open
    where
      go :
          (fd : Option ℕ)
          → OnSuccess
              (λ id. Created name max_entries id w)
              (create_opened os name max_entries slot w fd)
      go none = λ id ok e. cc
      go (some fd) =
          let r = find_free_cache_slot-some w.caches slot found in
          create_mapped-Created slot fd r.0 r.1

-- If `osal_cache_create` returns success and an id, the id is that of the lowest free slot; this
-- slot, and no other, has changed, and holds the first 63 bytes of the name; its segment is the
-- one that the whole name leads to, and holds `max_entries` fresh entries.
pub create-Created :
    (os : Calls) (name : List ℕ) (max_entries id : ℕ) (w : World)
    → let (code, out, w') = create os (some name) max_entries true w in
      code ≡ success → out ≡ some id → Created name max_entries id w w'
unfolding create
create-Created os name max_entries id w ok e =
    if_elim (OnSuccess (λ id. Created name max_entries id w)) (max_entries == 0 || not true) _ _
      (λ _ id ok e. cc)
      (λ _. create_in_slot-Created os name max_entries w (find_free_cache_slot w.caches) refl) id ok
      e

create_in_slot_full :
    (os : Calls) (name : List ℕ) (max_entries : ℕ) (w : World)
    → find_free_cache_slot w.caches ≡ none
    → create_in_slot os name max_entries w (find_free_cache_slot w.caches)
      ≡ (err_no_free_ids, none, w)
unfolding create_in_slot
create_in_slot_full os name max_entries w h = ap (create_in_slot os name max_entries w) h

-- A table of 16 used slots is full: `osal_cache_create` of a name and a positive number of
-- entries returns OSAL_ERR_NO_FREE_IDS, hands out no id and changes nothing.
pub create_full :
    (os : Calls) (name : List ℕ) (max_entries : ℕ) (w : World)
    → 0 < max_entries
    → ((j : ℕ) → j < max_caches → (w.caches j).in_use ≡ true)
    → create os (some name) max_entries true w ≡ (err_no_free_ids, none, w)
unfolding create
create_full os name max_entries w pos full =
    if_false (max_entries == 0 || not true) _ _ (ground arith) ∙ none_free
  where
    none_free :
        create_in_slot os name max_entries w (find_free_cache_slot w.caches)
        ≡ (err_no_free_ids, none, w)
    none_free = elim (Option-cases (find_free_cache_slot w.caches)) [
      | inl e ↦ create_in_slot_full os name max_entries w e
      | inr (slot, e) ↦
          let r = find_free_cache_slot-some w.caches slot e in cc (r.0.free, full slot r.1)
    ]
