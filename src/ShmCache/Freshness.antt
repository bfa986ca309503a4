-- ===== src/ShmCache/Freshness.antt =====
-- How old an entry may be: the freshness that a read reports, and what a mark does to it.
use lpf.Common.{
  ℕ, ◌+◌, ◌*◌, ◌/◌, ◌^◌, ◌≤◌, ◌<◌, ◌≡◌, ◌≢◌, inl, inr, refl, sym, ap, ◌∙◌, not, List, Option, some,
  get_or, length, ltb, if◌then◌else◌, if_true, if_false, Bool-cases, arith,
}
use lpf.ShmCache.{
  success, err_generic, Status, invalid, fresh, stale, Entry, CacheResult, World, zero_entry,
  max_data_size,
}
use lpf.ShmCache.Entries.{
  entry_at, put_entry, freshness, fill_result, age_ms, read_entry, read, write, invalidate,
  mark_stale,
}
use lpf.ShmCache.Inv.{Ok, EntryOk, entry_at-Ok}
use lpf.ShmCache.RoundTrip.{
  Opened, read-Opened, invalidate-Opened, Opened-put_entry, entry_at-put_entry, Reads, read-write,
}

wrapped_age :
    {bytes : List ℕ} {len validity t now : ℕ} {r : CacheResult} (k d : ℕ)
    → Reads bytes len validity t now r
    → now ≡ t + k * 4294967296000 + d
    → now < 2 ^ 64
    → d < 4294967296000
    → r.age_ms ≡ d / 1000
wrapped_age k d v at wide small = let a = v.age in omega (arith, a, at, wide, small)

module _ (a b entry : ℕ) (bytes : List ℕ) (len validity t now : ℕ) (r : CacheResult) (w : World)
    (ok : Ok w) (oa : Opened a entry w) (ob : Opened b entry w)
    (same : (w.caches b).segment ≡ (w.caches a).segment) (some_bytes : 0 < len)
    (small : len ≤ max_data_size) (room : len ≤ length bytes) where
  -- In a well-formed world, a write at time `t` through an open cache, and then a read of the entry
  -- through an open cache of the same segment, both mappings reaching the entry: the age has 32
  -- bits, so that a read which is any number `k` of periods of 2^32 ms and `d` µs later, with `d` less
  -- than such a period and within the validity, reports FRESH, however old the data is.
  pub read-write_wrapped :
      (k d : ℕ)
      → now ≡ t + k * 4294967296000 + d
      → now < 2 ^ 64
      → d < 4294967296000
      → d / 1000 < validity
      → let w' = (write a entry (some bytes) len validity t w).1 in
        (res : CacheResult) × ((read b entry (some r) now w').1 ≡ some res) × (res.status ≡ fresh)
  read-write_wrapped k d at wide less young =
      let got =
        read-write a b entry bytes len validity t now r w ok oa ob same some_bytes small room in
      let wrapped = wrapped_age k d got.4 at wide less in
      (
        got.0,
        got.3,
        (got.4).is_fresh
            ∙ ap (λ (n : ℕ). if ltb n validity then fresh else stale) wrapped
            ∙ if_true (ltb (d / 1000) validity) fresh stale (ground (arith, young)),
      )

-- What a read answers of an entry.
answer : ℕ → ℕ → CacheResult → Entry → ℕ × Option CacheResult
answer entry now r e =
    if not e.valid then (err_generic, some r) else (success, some (fill_result entry now e r))

-- The part of an answer that the caller sees.
abbrev front : ℕ × Option CacheResult × World → ℕ × Option CacheResult
front out = (out.0, out.1)

read_entry-answer :
    (id entry : ℕ) (r : CacheResult) (now : ℕ) (w : World)
    → front (read_entry id entry r now w) ≡ answer entry now r (entry_at id entry w)
unfolding read_entry answer
read_entry-answer id entry r now w = elim (Bool-cases (entry_at id entry w).valid) [
  | inl v ↦ ground arith
  | inr v ↦ ground arith
]

freshness-mark_stale :
    (now : ℕ) (e : Entry) (s : Status)
    → s ≢ invalid
    → freshness now (record e { status = stale }) stale ≡ freshness now e s
unfolding freshness age_ms
freshness-mark_stale now e invalid set = absurd (set refl)
freshness-mark_stale now e fresh set = refl
freshness-mark_stale now e stale set = refl

fill_result-stale :
    (entry now : ℕ) (r : CacheResult) (e : Entry)
    → e.status ≢ invalid
    → fill_result entry now (record e { status = stale }) r ≡ fill_result entry now e r
unfolding fill_result age_ms
fill_result-stale entry now r e set =
    ap (λ (s : Status). record (fill_result entry now e r) { status = s })
      (freshness-mark_stale now e e.status set)

answer-mark_stale :
    (entry now : ℕ) (r : CacheResult) (e : Entry)
    → EntryOk e
    → answer entry now r (mark_stale e) ≡ answer entry now r e
unfolding answer mark_stale
answer-mark_stale entry now r e ok = elim (Bool-cases e.valid) [
  | inl v ↦
      ap (answer entry now r) (if_true e.valid _ _ v)
      ∙ ap (λ (c : CacheResult). if not e.valid then (err_generic, some r) else (success, some c))
          (fill_result-stale entry now r e (ok.has_status v))
  | inr v ↦ ap (answer entry now r) (if_false e.valid _ _ v)
]

-- `osal_cache_invalidate` succeeds on a written or unwritten entry of an open cache whose mapping
-- reaches it, and cannot be seen: in a well-formed world, a read of the entry, through any open cache
-- that maps the same segment and reaches the entry, answers the same code and the same result, its status included, as with no mark.
pub read-invalidate :
    (a b entry : ℕ) (r : CacheResult) (now : ℕ) (w : World)
    → Ok w
    → Opened a entry w
    → Opened b entry w
    → (w.caches b).segment ≡ (w.caches a).segment
    → let (code, w') = invalidate a entry w in
      let before = read b entry (some r) now w in
      let after = read b entry (some r) now w' in
      (code ≡ success) × (after.0 ≡ before.0) × (after.1 ≡ before.1)
read-invalidate a b entry r now w ok oa ob same = (
  ap (λ (p : ℕ × World). p.0) marked,
  ap (λ (p : ℕ × Option CacheResult). p.0) equal,
  ap (λ (p : ℕ × Option CacheResult). p.1) equal,
)
  where
    e : Entry
    e = entry_at a entry w

    marked : invalidate a entry w ≡ (success, put_entry a entry (mark_stale e) w)
    marked = invalidate-Opened a entry w oa

    read-answer :
        (w' : World)
        → Opened b entry w'
        → (front (read b entry (some r) now w')) ≡ answer entry now r (entry_at b entry w')
    read-answer w' o =
        ap front (read-Opened b entry r now w' o) ∙ read_entry-answer b entry r now w'

    same_entry : entry_at b entry w ≡ e
    same_entry = ap (λ (s : ℕ). get_or (w.memory s).entries entry zero_entry) same

    equal :
        front (read b entry (some r) now (invalidate a entry w).1)
        ≡ front (read b entry (some r) now w)
    equal =
        ap (λ (p : ℕ × World). front (read b entry (some r) now p.1)) marked
        ∙ read-answer (put_entry a entry (mark_stale e) w)
            (Opened-put_entry a b entry (mark_stale e) w ob)
        ∙ ap (answer entry now r) (
            entry_at-put_entry a b entry (mark_stale e) w same
              (omega (arith, oa.present, (ok (w.caches a).segment).counted)))
        ∙ answer-mark_stale entry now r e (entry_at-Ok a entry w oa.present ok)
        ∙ ap (answer entry now r) (sym same_entry)
        ∙ sym (read-answer w ob)
