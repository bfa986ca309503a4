-- ===== src/ShmCache/RoundTrip.antt =====
-- What a write leaves for a read, through the same cache or another that maps its segment.
use lpf.Common.{
  ℕ, ◌+◌, ◌-◌, ◌/◌, ◌%◌, ◌^◌, ◌≤◌, ◌<◌, ◌≡◌, ◌≢◌, ◌⊎◌, inl, inr, refl, sym, ap, ◌∙◌, true, not,
  ◌||◌, List, Option, some, length, take, get_or, set, ltb, leb, ◌==◌, if◌then◌else◌, if_true,
  if_false, Bool-cases, ==_iff, get_or-set_self, get_or-set_ne, arith,
}
use lpf.Crc.{calculate_crc32}
use lpf.ShmCache.{
  success, err_generic, fresh, stale, Entry, CacheResult, Header, World, max_caches, max_data_size,
  update, memcpy, zero_entry,
}
use lpf.ShmCache.Entries.{
  mapped, entry_at, reached, put_entry, store, write_open, write, age_ms, freshness, fill_result,
  read_entry, read, invalidate, mark_stale,
}
use lpf.ShmCache.Inv.{Ok, entry_at-Ok, take-memcpy, length-memcpy, update_self}

-- The cache is open and has the entry, and its mapping reaches it.
pub record Opened (id entry : ℕ) (w : World) : Type 0 where
  pub in_table : id < max_caches
  pub used : (w.caches id).in_use ≡ true
  pub present : entry < (mapped id w).max_entries
  pub reaches : reached id entry w ≡ true

pub write-Opened :
    (id entry : ℕ) (bytes : List ℕ) (len validity now : ℕ) (w : World)
    → Opened id entry w
    → 0 < len
    → len ≤ max_data_size
    → write id entry (some bytes) len validity now w
      ≡ (success, put_entry id entry (store bytes len validity now (entry_at id entry w)) w)
unfolding write write_open
write-Opened id entry bytes len validity now w o pos small =
    if_false (leb max_caches id || len == 0 || ltb max_data_size len) _ _ (ground arith)
    ∙ if_false (not (w.caches id).in_use) _ _ (ap not o.used)
    ∙ if_false (leb (mapped id w).max_entries entry) _ _ (ground arith)
    ∙ if_false (not (reached id entry w)) _ _ (ap not o.reaches)

pub read-Opened :
    (id entry : ℕ) (r : CacheResult) (now : ℕ) (w : World)
    → Opened id entry w
    → read id entry (some r) now w ≡ read_entry id entry r now w
unfolding read
read-Opened id entry r now w o =
    if_false (leb max_caches id) _ _ (ground arith)
    ∙ if_false (not (w.caches id).in_use) _ _ (ap not o.used)
    ∙ if_false (leb (mapped id w).max_entries entry) _ _ (ground arith)
    ∙ if_false (not (reached id entry w)) _ _ (ap not o.reaches)

pub invalidate-Opened :
    (id entry : ℕ) (w : World)
    → Opened id entry w
    → invalidate id entry w ≡ (success, put_entry id entry (mark_stale (entry_at id entry w)) w)
unfolding invalidate
invalidate-Opened id entry w o =
    if_false (leb max_caches id) _ _ (ground arith)
    ∙ if_false (not (w.caches id).in_use) _ _ (ap not o.used)
    ∙ if_false (leb (mapped id w).max_entries entry) _ _ (ground arith)
    ∙ if_false (not (reached id entry w)) _ _ (ap not o.reaches)

module _ (a b entry : ℕ) (e : Entry) (w : World) where
  -- A segment is one for all that map it.
  pub mapped-put_entry :
      (w.caches b).segment ≡ (w.caches a).segment
      → mapped b (put_entry a entry e w)
        ≡ record (mapped a w) { entries = set (mapped a w).entries entry e }
  unfolding put_entry
  mapped-put_entry same =
      ap (update w.memory (w.caches a).segment written) same
      ∙ update_self w.memory (w.caches a).segment written
    where
      written : Header
      written = record (mapped a w) { entries = set (mapped a w).entries entry e }

  pub entry_at-put_entry :
      (w.caches b).segment ≡ (w.caches a).segment
      → entry < length (mapped a w).entries
      → entry_at b entry (put_entry a entry e w) ≡ e
  entry_at-put_entry same h =
      ap (λ (t : Header). get_or t.entries entry zero_entry) (mapped-put_entry same)
      ∙ get_or-set_self (mapped a w).entries entry e zero_entry h

  pub Opened-put_entry : {i : ℕ} → Opened b i w → Opened b i (put_entry a entry e w)
  unfolding put_entry reached
  Opened-put_entry {i} o = record {
    in_table = o.in_table;
    used = o.used;
    present = ground arith;
    reaches = o.reaches;
  }

  -- What another entry, or one of another segment, holds is left alone.
  pub entry_at-put_entry_ne :
      (i : ℕ)
      → ((w.caches b).segment ≢ (w.caches a).segment) ⊎ (entry ≢ i)
      → entry_at b i (put_entry a entry e w) ≡ entry_at b i w
  unfolding put_entry
  entry_at-put_entry_ne i (inl other) =
      ap (λ (t : Header). get_or t.entries i zero_entry)
        (if_false ((w.caches b).segment == (w.caches a).segment) _ _ (ground arith))
  entry_at-put_entry_ne i (inr ne) =
      elim (Bool-cases ((w.caches b).segment == (w.caches a).segment)) [
        | inl e' ↦
            ap (λ (t : Header). get_or t.entries i zero_entry) (if_true _ _ _ e')
            ∙ get_or-set_ne (mapped a w).entries entry i e zero_entry ne
            ∙ ap (λ (t : ℕ). get_or (w.memory t).entries i zero_entry) (sym ((==_iff _ _).0 e'))
        | inr e' ↦ ap (λ (t : Header). get_or t.entries i zero_entry) (if_false _ _ _ e')
      ]

-- What a read returns of an entry that `osal_cache_write` filled at time `t`.
pub record Reads (bytes : List ℕ) (len validity t now : ℕ) (r : CacheResult) : Type 0 where
  pub contents : take len r.bytes ≡ take len bytes
  pub data_len : r.data_len ≡ len
  pub stamp : r.timestamp_us ≡ t
  pub age : r.age_ms ≡ (now + 2 ^ 64 - t) % 2 ^ 64 / 1000 % 2 ^ 32
  pub sum : r.checksum ≡ calculate_crc32 (take len bytes)
  pub is_fresh : r.status ≡ (if ltb r.age_ms validity then fresh else stale)

fill_result-Reads :
    (entry : ℕ) (bytes : List ℕ) (len validity t now : ℕ) (e : Entry) (r : CacheResult)
    → len ≤ length bytes
    → length e.bytes ≡ 256
    → len ≤ 256
    → Reads bytes len validity t now (fill_result entry now (store bytes len validity t e) r)
unfolding fill_result store freshness age_ms
fill_result-Reads entry bytes len validity t now e r h room small = record {
  contents =
      take-memcpy len r.bytes (memcpy e.bytes bytes len)
        (omega (arith, length-memcpy len e.bytes bytes h (omega arith), room))
      ∙ take-memcpy len e.bytes bytes h;
  data_len = refl;
  stamp = refl;
  age = refl;
  sum = refl;
  is_fresh = refl;
}

read_entry_valid :
    (id entry : ℕ) (r : CacheResult) (now : ℕ) (w : World) (e : Entry)
    → entry_at id entry w ≡ e
    → e.valid ≡ true
    → ((read_entry id entry r now w).0 ≡ success)
      × ((read_entry id entry r now w).1 ≡ some (fill_result entry now e r))
unfolding read_entry
read_entry_valid id entry r now w e at v =
    let passed =
      if_false (not (entry_at id entry w).valid) (err_generic, some r, w)
        (
          success,
          some (fill_result entry now (entry_at id entry w) r),
          put_entry id entry
              (record (entry_at id entry w) {
                read_count = ((entry_at id entry w).read_count + 1) % 2 ^ 32;
              })
              w,
        )
        (ap (λ (t : Entry). not t.valid) at ∙ ap not v) in
    (
      ap (λ (p : ℕ × Option CacheResult × World). p.0) passed,
      ap (λ (p : ℕ × Option CacheResult × World). p.1) passed
          ∙ ap (λ (t : Entry). some (fill_result entry now t r)) at,
    )

valid-store :
    (bytes : List ℕ) (len validity t : ℕ) (e : Entry) → (store bytes len validity t e).valid ≡ true
unfolding store
valid-store bytes len validity t e = refl

-- In a well-formed world, after a write of `len` bytes (1 to 256) to an entry of an open cache, a
-- read of that entry through any open cache that maps the same segment, where both mappings reach
-- the entry, succeeds and returns those bytes, their length, their CRC-32 and the time of the write; it reports FRESH exactly if the
-- age in milliseconds, as 32 bits hold it, is below the validity of the data, and else STALE.
pub read-write :
    (a b entry : ℕ) (bytes : List ℕ) (len validity t now : ℕ) (r : CacheResult) (w : World)
    → Ok w
    → Opened a entry w
    → Opened b entry w
    → (w.caches b).segment ≡ (w.caches a).segment
    → 0 < len
    → len ≤ max_data_size
    → len ≤ length bytes
    → let (wrote, w') = write a entry (some bytes) len validity t w in
      let (code, out, w'') = read b entry (some r) now w' in
      (res : CacheResult) × (wrote ≡ success)
      × (code ≡ success)
      × (out ≡ some res)
      × Reads bytes len validity t now res
read-write a b entry bytes len validity t now r w ok oa ob same pos small h = (
  fill_result entry now stored r,
  ap (λ (p : ℕ × World). p.0) wrote,
  ap (λ (p : ℕ × Option CacheResult × World). p.0) got ∙ done.0,
  ap (λ (p : ℕ × Option CacheResult × World). p.1) got ∙ done.1,
  fill_result-Reads entry bytes len validity t now (entry_at a entry w) r h
      (entry_at-Ok a entry w oa.present ok).room small,
)
  where
    stored : Entry
    stored = store bytes len validity t (entry_at a entry w)

    wrote : write a entry (some bytes) len validity t w ≡ (success, put_entry a entry stored w)
    wrote = write-Opened a entry bytes len validity t w oa pos small

    there : entry_at b entry (put_entry a entry stored w) ≡ stored
    there =
        entry_at-put_entry a b entry stored w same
          (omega (arith, oa.present, (ok (w.caches a).segment).counted))

    got :
        read b entry (some r) now (write a entry (some bytes) len validity t w).1
        ≡ read_entry b entry r now (put_entry a entry stored w)
    got =
        ap (λ (p : ℕ × World). read b entry (some r) now p.1) wrote
        ∙ read-Opened b entry r now (put_entry a entry stored w)
            (Opened-put_entry a b entry stored w ob)

    done :
        ((read_entry b entry r now (put_entry a entry stored w)).0 ≡ success)
        × ((read_entry b entry r now (put_entry a entry stored w)).1
            ≡ some (fill_result entry now stored r))
    done =
        read_entry_valid b entry r now (put_entry a entry stored w) stored there
          (valid-store bytes len validity t (entry_at a entry w))
