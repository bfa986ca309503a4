-- ===== src/Osal/Heap/Accounts.antt =====
-- The bytes that the heap counts and the bytes of its blocks: user/osal/src/lib/osal_heap.c.
use lpf.Common.{
  ℕ, ◌+◌, ◌-◌, ◌^◌, ◌≤◌, ◌<◌, ◌≡◌, refl, sym, subst, ap, ◌∙◌, ◌==◌, ltb, if◌then◌else◌, if_elim,
  if_true, if_false, Option-cases, inl, inr, Bool, true, false, not, unnegate_true, List, [], ◌∷◌,
  Option, none, some, arith,
}
use lpf.Osal.Heap.{
  Block, Heap, Outcome, block_magic, block_at, change, grow, shrink, Raw, malloc_raw, osal_malloc,
  remove, free_block, osal_free, copy_bytes, with_pointer, realloc_to, realloc_block, osal_realloc,
}

-- The bytes of the blocks that are in use.
abbrev in_use : Block → ℕ
in_use b = if b.magic == block_magic then b.size else 0

unfoldable pub live_total : List Block → ℕ
live_total [] = 0
live_total (b ∷ bs) = in_use b + live_total bs

-- What a call leaves, if it returns.
pub data After {A : Type 0} (P : A → Type 0) : Outcome A → Type 0 where
  returns : {a : A} → P a → After P (Outcome.returned a)
  aborts : After P Outcome.aborted
  strays : After P Outcome.undefined

-- The calls of the heap, with what `malloc` gives, and the bytes that each asks for.
pub data Call : Type 0 where
  malloc : ℕ → Raw → Call
  free : Option ℕ → Call
  realloc : Option ℕ → ℕ → Raw → Call

abbrev pub asks : Call → ℕ
asks (Call.malloc size raw) = size
asks (Call.free p) = 0
asks (Call.realloc p size raw) = size

unfoldable pub heap_of : Outcome (Option ℕ × Heap) → Outcome Heap
heap_of (Outcome.returned r) = Outcome.returned r.1
heap_of Outcome.aborted = Outcome.aborted
heap_of Outcome.undefined = Outcome.undefined

unfoldable pub step : Call → Heap → Outcome Heap
step (Call.malloc size raw) h = Outcome.returned (osal_malloc size raw h).1
step (Call.free p) h = osal_free p h
step (Call.realloc p size raw) h = heap_of (osal_realloc p size raw h)

unfoldable pub then_run : (Heap → Outcome Heap) → Outcome Heap → Outcome Heap
then_run next (Outcome.returned h) = next h
then_run next Outcome.aborted = Outcome.aborted
then_run next Outcome.undefined = Outcome.undefined

unfoldable pub run : List Call → Heap → Outcome Heap
run [] h = Outcome.returned h
run (c ∷ cs) h = then_run (run cs) (step c h)

unfoldable pub asks_all : List Call → ℕ
asks_all [] = 0
asks_all (c ∷ cs) = asks c + asks_all cs

-- The count is that of the blocks in use, and the peak is at least that; there are at most so many.
pub record Accounted (bound : ℕ) (h : Heap) : Type 0 where
  pub current : h.monitor.current_usage ≡ live_total h.blocks
  pub peak : h.monitor.current_usage ≤ h.monitor.peak_usage
  pub bounded : live_total h.blocks ≤ bound

abbrev or_old : Block → Option Block → Block
or_old x none = x
or_old x (some y) = y

live_total-remove :
    (a : ℕ) (bs : List Block) (b : Block)
    → block_at a bs ≡ some b
    → (b.magic == block_magic) ≡ true
    → live_total (remove a bs) + b.size ≡ live_total bs
unfolding live_total remove block_at
live_total-remove a [] b e live = cc e
live_total-remove a (x ∷ bs) b e live =
    here (x.address == a) e (λ f. live_total-remove a bs b f live)
  where
    here :
        (t : Bool)
        → (if t then some x else block_at a bs) ≡ some b
        → (block_at a bs ≡ some b → live_total (remove a bs) + b.size ≡ live_total bs)
        → live_total (if t then bs else x ∷ remove a bs) + b.size ≡ in_use x + live_total bs
    here true f below = omega (
      arith,
      ap (λ (o : Option Block). in_use (or_old x o)) f,
      if_true (b.magic == block_magic) b.size 0 live,
    )
    here false f below = omega (arith, below f)

live_total-copy :
    (a n : ℕ) (from : List ℕ) (bs : List Block)
    → live_total (change a (copy_bytes n from) bs) ≡ live_total bs
unfolding live_total change
live_total-copy a n from [] = refl
live_total-copy a n from (x ∷ bs) =
    if_elim (λ (r : List Block). live_total r ≡ in_use x + live_total bs) (x.address == a) _ _
      (λ _. refl) (λ _. ap (λ (m : ℕ). in_use x + m) (live_total-copy a n from bs))

wider : (bound size : ℕ) (h : Heap) → Accounted bound h → Accounted (bound + size) h
wider bound size h ok = record {
  current = ok.current;
  peak = ok.peak;
  bounded = (let b = ok.bounded in omega (arith, b));
}

After-map :
    {A : Type 0} (P Q : A → Type 0) (o : Outcome A) → ((a : A) → P a → Q a) → After P o → After Q o
After-map P Q (Outcome.returned a) f (After.returns ok) = After.returns (f a ok)
After-map P Q Outcome.aborted f ok = After.aborts
After-map P Q Outcome.undefined f ok = After.strays

malloc-Accounted :
    (size bound : ℕ) (raw : Raw) (h : Heap)
    → Accounted bound h
    → bound + size < 2 ^ 32
    → Accounted (bound + size) (osal_malloc size raw h).1
unfolding osal_malloc malloc_raw grow live_total
malloc-Accounted size bound raw h ok room =
    if_elim (λ (r : Option ℕ × Heap). Accounted (bound + size) r.1) (ltb (2 ^ 32 - 1 - 8) size) _ _
      (λ _. wider bound size h ok) (λ _. given raw)
  where
    at_least : (m n : ℕ) → n ≤ (if ltb m n then n else m)
    at_least m n = ground arith

    given : (r : Raw) → Accounted (bound + size) (malloc_raw size r h).1
    given none = wider bound size h ok
    given (some (a, old)) = record {
      current = (let b = ok.bounded in let c = ok.current in omega (arith, b, c, room));
      peak = at_least h.monitor.peak_usage _;
      bounded = (let b = ok.bounded in omega (arith, b));
    }

free-Accounted :
    (p : Option ℕ) (bound : ℕ) (h : Heap)
    → Accounted bound h
    → After (Accounted bound) (osal_free p h)
unfolding osal_free free_block shrink
free-Accounted none bound h ok = After.returns ok
free-Accounted (some a) bound h ok = elim (Option-cases (block_at a h.blocks)) [
  | inl e ↦
      subst (λ (o : Option Block). After (Accounted bound) (free_block a h o)) (sym e) After.strays
  | inr (b, e) ↦
      subst (λ (o : Option Block). After (Accounted bound) (free_block a h o)) (sym e)
        (if_elim (After (Accounted bound)) (not (b.magic == block_magic)) _ _ (λ _. After.aborts)
          (λ f. After.returns (freed b e (unnegate_true (b.magic == block_magic) f))))
]
  where
    lower : (c s p : ℕ) → c ≤ p → (if ltb c s then 0 else c - s) ≤ p
    lower c s p h = ground (arith, h)

    freed :
        (b : Block)
        → block_at a h.blocks ≡ some b
        → (b.magic == block_magic) ≡ true
        → Accounted bound (record { monitor = shrink b.size h.monitor; blocks = remove a h.blocks })
    freed b e live = record {
      current =
          (let t = live_total-remove a h.blocks b e live in
            let c = ok.current in
            if_false (ltb h.monitor.current_usage b.size) _ _ (ground (arith, t, c))
            ∙ omega (arith, t, c));
      peak = (let q = ok.peak in lower h.monitor.current_usage b.size h.monitor.peak_usage q);
      bounded =
          (let t = live_total-remove a h.blocks b e live in
            let q = ok.bounded in omega (arith, t, q));
    }

heap_of-with_pointer :
    (P : Heap → Type 0) (p : Option ℕ) (o : Outcome Heap)
    → After P o
    → After P (heap_of (with_pointer p o))
unfolding heap_of with_pointer
heap_of-with_pointer P p (Outcome.returned h) (After.returns ok) = After.returns ok
heap_of-with_pointer P p Outcome.aborted ok = After.aborts
heap_of-with_pointer P p Outcome.undefined ok = After.strays

-- The allocation, the copy and the release of a `realloc`.
moved-Accounted :
    (a bound new_size : ℕ) (old : Block) (r : Option ℕ × Heap)
    → Accounted bound r.1
    → After (Accounted bound) (heap_of (realloc_to a old new_size r))
unfolding realloc_to heap_of
moved-Accounted a bound new_size old (none, h) ok = After.returns ok
moved-Accounted a bound new_size old (some b, h) ok =
    heap_of-with_pointer (Accounted bound) (some b) _ (
      free-Accounted (some a) bound _ (record {
        current = ok.current ∙ sym (live_total-copy b _ old.bytes h.blocks);
        peak = ok.peak;
        bounded =
            (let q = ok.bounded in
              omega (
                arith,
                q,
                live_total-copy b (if ltb old.size new_size then old.size else new_size) old.bytes
                    h.blocks,
              ));
      }))

realloc-Accounted :
    (p : Option ℕ) (size bound : ℕ) (raw : Raw) (h : Heap)
    → Accounted bound h
    → bound + size < 2 ^ 32
    → After (Accounted (bound + size)) (heap_of (osal_realloc p size raw h))
unfolding osal_realloc realloc_block heap_of
realloc-Accounted none size bound raw h ok room =
    After.returns (malloc-Accounted size bound raw h ok room)
realloc-Accounted (some a) size bound raw h ok room =
    if_elim (λ (o : Outcome (Option ℕ × Heap)). After (Accounted (bound + size)) (heap_of o))
      (size == 0) _ _
      (λ _.
        After-map (Accounted bound) (Accounted (bound + size)) _ (wider bound size)
          (heap_of-with_pointer (Accounted bound) none _ (free-Accounted (some a) bound h ok)))
      (λ _. given (block_at a h.blocks))
  where
    given :
        (o : Option Block)
        → After (Accounted (bound + size)) (heap_of (realloc_block a size raw h o))
    given none = After.strays
    given (some b) =
        if_elim (λ (o : Outcome (Option ℕ × Heap)). After (Accounted (bound + size)) (heap_of o))
          (not (b.magic == block_magic)) _ _ (λ _. After.returns (wider bound size h ok))
          (λ _.
            moved-Accounted a (bound + size) size b (osal_malloc size raw h)
              (malloc-Accounted size bound raw h ok room))

step-Accounted :
    (c : Call) (bound : ℕ) (h : Heap)
    → Accounted bound h
    → bound + asks c < 2 ^ 32
    → After (Accounted (bound + asks c)) (step c h)
unfolding step
step-Accounted (Call.malloc size raw) bound h ok room =
    After.returns (malloc-Accounted size bound raw h ok room)
step-Accounted (Call.free p) bound h ok room =
    After-map (Accounted bound) (Accounted (bound + 0)) _ (wider bound 0)
      (free-Accounted p bound h ok)
step-Accounted (Call.realloc p size raw) bound h ok room =
    realloc-Accounted p size bound raw h ok room

-- From a heap whose count is that of its blocks in use, at most `bound` bytes, and not above the peak,
-- any sequence of allocations, releases and reallocations that together ask for less than 2^32
-- bytes with `bound` leaves such a heap, or ends the program, or passes a pointer to no block; what `malloc` gives does not matter.
pub run-Accounted :
    (cs : List Call) (bound : ℕ) (h : Heap)
    → Accounted bound h
    → bound + asks_all cs < 2 ^ 32
    → After (Accounted (bound + asks_all cs)) (run cs h)
unfolding run asks_all then_run
run-Accounted [] bound h ok room = After.returns (wider bound 0 h ok)
run-Accounted (c ∷ cs) bound h ok room =
    then-After (step c h) (step-Accounted c bound h ok (omega (arith, room)))
      (λ h' ok'. run-Accounted cs (bound + asks c) h' ok' (omega (arith, room)))
  where
    then-After :
        (o : Outcome Heap)
        → After (Accounted (bound + asks c)) o
        → ((h' : Heap)
            → Accounted (bound + asks c) h'
            → After (Accounted (bound + asks c + asks_all cs)) (run cs h'))
        → After (Accounted (bound + (asks c + asks_all cs))) (then_run (run cs) o)
    then-After (Outcome.returned h') (After.returns ok') go =
        subst (λ (n : ℕ). After (Accounted n) (run cs h')) (omega arith) (go h' ok')
    then-After Outcome.aborted ok' go = After.aborts
    then-After Outcome.undefined ok' go = After.strays
