-- ===== src/ShmCache/Inv.antt =====
-- The invariant of the segments: a header has as many entries as it says, and an entry that was written
-- has a status, fits its buffer and carries the checksum of its data.
use lpf.Common.{
  ℕ, zero, suc, ◌≤◌, ◌<◌, ◌≡◌, ◌≢◌, refl, sym, ap, ◌∙◌, true, List, [], ◌∷◌, ◌++◌, Option, none,
  some, length, take, drop, get_or, set, length-set, length-append, length-take, length-drop, ◌==◌,
  leb, ltb, not, ◌||◌, if_elim, Bool-cases, inl, inr, arith,
}
use lpf.Crc.{calculate_crc32}
use lpf.ShmCache.{
  invalid, fault, Entry, CacheResult, Header, max_caches, max_data_size, World, update, memcpy,
  zero_entry,
}
use lpf.ShmCache.Table.{init_entries, init_header, cut_entries}
use lpf.ShmCache.Entries.{
  mapped, entry_at, reached, put_entry, store, write_open, write, read_entry, read, mark_stale,
  invalidate, invalidate_each, invalidate_batch,
}

pub record EntryOk (e : Entry) : Type 0 where
  pub has_status : e.valid ≡ true → e.status ≢ invalid
  pub sum : e.valid ≡ true → e.checksum ≡ calculate_crc32 (take e.data_len e.bytes)
  pub fits : e.data_len ≤ 256
  pub room : length e.bytes ≡ 256

abbrev pub AllOk : List Entry → Type 0
AllOk [] = Unit {0}
AllOk (e ∷ es) = EntryOk e × AllOk es

pub record HeaderOk (h : Header) : Type 0 where
  pub counted : length h.entries ≡ h.max_entries
  pub entries_ok : AllOk h.entries

-- Every segment is well formed.
abbrev pub Ok : World → Type 0
Ok w = (s : ℕ) → HeaderOk (w.memory s)

pub AllOk-get_or :
    (es : List Entry) (i : ℕ) → i < length es → AllOk es → EntryOk (get_or es i zero_entry)
AllOk-get_or [] i h a = elim h [ ]
AllOk-get_or (e ∷ es) zero h a = a.0
AllOk-get_or (e ∷ es) (suc i) h a = AllOk-get_or es i (omega arith) a.1

abbrev OkAfter : ℕ × World → Type 0
OkAfter r = Ok r.1

abbrev pub OkCreate : ℕ × Option ℕ × World → Type 0
OkCreate r = Ok r.2

abbrev OkRead : ℕ × Option CacheResult × World → Type 0
OkRead r = Ok r.2

-- A buffer that is given holds as many bytes as its length says.
abbrev pub Holds : ℕ → Option (List ℕ) → Type 0
Holds len none = Unit {0}
Holds len (some bytes) = len ≤ length bytes

AllOk-set : (es : List Entry) (i : ℕ) (e : Entry) → EntryOk e → AllOk es → AllOk (set es i e)
AllOk-set [] i e h a = tt
AllOk-set (x ∷ es) zero e h a = (h, a.1)
AllOk-set (x ∷ es) (suc i) e h a = (a.0, AllOk-set es i e h a.1)

pub update_self {ℓ} : {A : Type ℓ} (f : ℕ → A) (i : ℕ) (a : A) → update f i a i ≡ a
update_self f i a = ground arith

pub update-Ok :
    (m : ℕ → Header) (i : ℕ) (h : Header)
    → HeaderOk h
    → ((s : ℕ) → HeaderOk (m s))
    → (s : ℕ) → HeaderOk (update m i h s)
update-Ok m i h new old s = elim (Bool-cases (s == i)) [ inl e ↦ rw e new | inr e ↦ rw e (old s) ]

pub put_entry-Ok :
    (id entry : ℕ) (e : Entry) (w : World) → EntryOk e → Ok w → Ok (put_entry id entry e w)
unfolding put_entry
put_entry-Ok id entry e w he h =
    update-Ok w.memory (w.caches id).segment _
      (record {
        counted = length-set (mapped id w).entries entry e ∙ (h (w.caches id).segment).counted;
        entries_ok =
            AllOk-set (mapped id w).entries entry e he (h (w.caches id).segment).entries_ok;
      })
      h

pub entry_at-Ok :
    (id entry : ℕ) (w : World)
    → entry < (mapped id w).max_entries
    → Ok w
    → EntryOk (entry_at id entry w)
entry_at-Ok id entry w lt h =
    let ok = h (w.caches id).segment in
    AllOk-get_or (mapped id w).entries entry (omega (arith, ok.counted)) ok.entries_ok

-- Copying `n` bytes makes them the first `n` of the buffer, and keeps its length.
pub take-memcpy :
    (n : ℕ) (dest src : List ℕ) → n ≤ length src → take n (memcpy dest src n) ≡ take n src
unfolding memcpy
take-memcpy zero dest src h = refl
take-memcpy (suc n) dest [] h = absurd (omega arith)
take-memcpy (suc n) [] (y ∷ src) h = ap (◌∷◌ y) (take_again n src)
  where
    take_again : (k : ℕ) (xs : List ℕ) → take k (take k xs ++ []) ≡ take k xs
    take_again zero xs = refl
    take_again (suc k) [] = refl
    take_again (suc k) (x ∷ xs) = ap (◌∷◌ x) (take_again k xs)
take-memcpy (suc n) (x ∷ dest) (y ∷ src) h = ap (◌∷◌ y) (take-memcpy n dest src (omega arith))

pub length-memcpy :
    (n : ℕ) (dest src : List ℕ)
    → n ≤ length src
    → n ≤ length dest
    → length (memcpy dest src n) ≡ length dest
unfolding memcpy
length-memcpy n dest src h k =
    omega (arith, length-append (take n src) (drop n dest), length-take n src, length-drop n dest)

store-EntryOk :
    (bytes : List ℕ) (len validity now : ℕ) (e : Entry)
    → len ≤ length bytes
    → len ≤ 256
    → EntryOk e
    → EntryOk (store bytes len validity now e)
unfolding store
store-EntryOk bytes len validity now e h k ok = record {
  has_status = λ _ e. cc;
  sum = λ _. ap calculate_crc32 (sym (take-memcpy len e.bytes bytes h));
  fits = k;
  room = length-memcpy len e.bytes bytes h (omega (arith, ok.room)) ∙ ok.room;
}

mark_stale-EntryOk : (e : Entry) → EntryOk e → EntryOk (mark_stale e)
unfolding mark_stale
mark_stale-EntryOk e ok =
    if_elim EntryOk e.valid _ _
      (λ v. record { has_status = λ _ e. cc; sum = ok.sum; fits = ok.fits; room = ok.room })
      (λ v. ok)

init_entries-AllOk : (i n : ℕ) → AllOk (init_entries i n)
unfolding init_entries
init_entries-AllOk i zero = tt
init_entries-AllOk i (suc n) = (
  record { has_status = λ e. cc; sum = λ e. cc; fits = omega arith; room = refl },
  init_entries-AllOk (suc i) n,
)

length-init_entries : (i n : ℕ) → length (init_entries i n) ≡ n
unfolding init_entries
length-init_entries i zero = refl
length-init_entries i (suc n) = ap suc (length-init_entries (suc i) n)

pub init_header-Ok : (n : ℕ) → HeaderOk (init_header n)
unfolding init_header
init_header-Ok n = record { counted = length-init_entries 0 n; entries_ok = init_entries-AllOk 0 n }

counted_read : (e : Entry) (n : ℕ) → EntryOk e → EntryOk (record e { read_count = n })
counted_read e n ok = record {
  has_status = ok.has_status;
  sum = ok.sum;
  fits = ok.fits;
  room = ok.room;
}

cut_entries-AllOk : (n : ℕ) (es : List Entry) → AllOk es → AllOk (cut_entries n es)
unfolding cut_entries
cut_entries-AllOk n [] a = tt
cut_entries-AllOk zero (e ∷ es) a = (
  record { has_status = λ e. cc; sum = λ e. cc; fits = omega arith; room = refl },
  cut_entries-AllOk zero es a.1,
)
cut_entries-AllOk (suc n) (e ∷ es) a = (a.0, cut_entries-AllOk n es a.1)

length-cut_entries : (n : ℕ) (es : List Entry) → length (cut_entries n es) ≡ length es
unfolding cut_entries
length-cut_entries n [] = refl
length-cut_entries zero (e ∷ es) = ap suc (length-cut_entries zero es)
length-cut_entries (suc n) (e ∷ es) = ap suc (length-cut_entries n es)

pub cut_entries-Ok :
    (n : ℕ) (h : Header) → HeaderOk h → HeaderOk (record h { entries = cut_entries n h.entries })
cut_entries-Ok n h ok = record {
  counted = length-cut_entries n h.entries ∙ ok.counted;
  entries_ok = cut_entries-AllOk n h.entries ok.entries_ok;
}

-- The steps on entries keep every segment well formed.
write_open-Ok :
    (id entry : ℕ) (bytes : List ℕ) (len validity now : ℕ) (w : World)
    → len ≤ length bytes
    → len ≤ 256
    → Ok w
    → Ok (write_open id entry bytes len validity now w).1
unfolding write_open
write_open-Ok id entry bytes len validity now w fits small ok =
    if_elim OkAfter (not (w.caches id).in_use) _ _ (λ _. ok)
      (λ _.
        if_elim OkAfter (leb (mapped id w).max_entries entry) _ _ (λ _. ok)
          (λ lt.
            if_elim OkAfter (not (reached id entry w)) _ _ (λ _. ok)
              (λ _.
                put_entry-Ok id entry _ w
                  (store-EntryOk bytes len validity now (entry_at id entry w) fits small
                    (entry_at-Ok id entry w (ground arith) ok))
                  ok)))

-- `osal_cache_write` of a buffer that holds `len` bytes keeps every segment well formed.
pub write-Ok :
    (id entry : ℕ) (bytes : Option (List ℕ)) (len validity now : ℕ) (w : World)
    → Holds len bytes
    → Ok w
    → Ok (write id entry bytes len validity now w).1
unfolding write
write-Ok id entry none len validity now w fits ok = ok
write-Ok id entry (some bytes) len validity now w fits ok =
    if_elim OkAfter (leb max_caches id || len == 0 || ltb max_data_size len) _ _ (λ _. ok)
      (λ small. write_open-Ok id entry bytes len validity now w fits (ground arith) ok)

pub read-Ok :
    (id entry : ℕ) (r : Option CacheResult) (now : ℕ) (w : World)
    → Ok w
    → Ok (read id entry r now w).2
unfolding read read_entry
read-Ok id entry none now w ok = ok
read-Ok id entry (some r) now w ok =
    if_elim OkRead (leb max_caches id) _ _ (λ _. ok)
      (λ _.
        if_elim OkRead (not (w.caches id).in_use) _ _ (λ _. ok)
          (λ _.
            if_elim OkRead (leb (mapped id w).max_entries entry) _ _ (λ _. ok)
              (λ lt.
                if_elim OkRead (not (reached id entry w)) _ _ (λ _. ok)
                  (λ _.
                    if_elim OkRead (not (entry_at id entry w).valid) _ _ (λ _. ok)
                      (λ _.
                        put_entry-Ok id entry _ w
                          (counted_read (entry_at id entry w) _
                            (entry_at-Ok id entry w (ground arith) ok))
                          ok)))))

pub invalidate-Ok : (id entry : ℕ) (w : World) → Ok w → Ok (invalidate id entry w).1
unfolding invalidate
invalidate-Ok id entry w ok =
    if_elim OkAfter (leb max_caches id) _ _ (λ _. ok)
      (λ _.
        if_elim OkAfter (not (w.caches id).in_use) _ _ (λ _. ok)
          (λ _.
            if_elim OkAfter (leb (mapped id w).max_entries entry) _ _ (λ _. ok)
              (λ lt.
                if_elim OkAfter (not (reached id entry w)) _ _ (λ _. ok)
                  (λ _.
                    put_entry-Ok id entry _ w
                      (mark_stale-EntryOk (entry_at id entry w)
                        (entry_at-Ok id entry w (ground arith) ok))
                      ok))))

invalidate_each-Ok : (id : ℕ) (es : List ℕ) (w : World) → Ok w → Ok (invalidate_each id es w).1
unfolding invalidate_each
invalidate_each-Ok id [] w ok = ok
invalidate_each-Ok id (e ∷ es) w ok =
    if_elim OkAfter ((invalidate id e w).0 == fault) _ _ (λ _. invalidate-Ok id e w ok)
      (λ _. invalidate_each-Ok id es (invalidate id e w).1 (invalidate-Ok id e w ok))

pub invalidate_batch-Ok :
    (id : ℕ) (es : Option (List ℕ)) (w : World) → Ok w → Ok (invalidate_batch id es w).1
unfolding invalidate_batch
invalidate_batch-Ok id none w ok = ok
invalidate_batch-Ok id (some []) w ok = ok
invalidate_batch-Ok id (some (e ∷ es)) w ok = invalidate_each-Ok id (e ∷ es) w ok
