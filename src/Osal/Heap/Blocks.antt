-- ===== src/Osal/Heap/Blocks.antt =====
-- The blocks that releases and reallocations leave: user/osal/src/lib/osal_heap.c.
use lpf.Common.{
  ℕ, suc, ◌+◌, length, if_elim, ◌-◌, ◌^◌, ◌≤◌, ◌<◌, ◌≡◌, ◌≢◌, refl, sym, ap, ◌∙◌, ◌==◌, ==_refl,
  ==_iff, ltb, if◌then◌else◌, if_true, if_false, Bool-cases, inl, inr, true, false, not, List, [],
  ◌∷◌, ◌++◌, take, drop, Option, none, some, arith,
}
use lpf.Osal.Heap.{
  Block, Heap, Outcome, block_magic, block_at, change, grow, shrink, Raw, malloc_raw, osal_malloc,
  remove, free_block, osal_free, copy_bytes, with_pointer, realloc_to, realloc_block, osal_realloc,
}

unequal : (m n : ℕ) → m ≢ n → (m == n) ≡ false
unequal m n ne = elim (Bool-cases (m == n)) [ inl e ↦ absurd (ne ((==_iff m n).0 e)) | inr f ↦ f ]

-- The block at an address after a change there, and after one elsewhere.
block_at-change :
    (a : ℕ) (f : Block → Block) (bs : List Block) (b : Block)
    → ((x : Block) → (f x).address ≡ x.address)
    → block_at a bs ≡ some b
    → block_at a (change a f bs) ≡ some (f b)
unfolding block_at change
block_at-change a f [] b keeps e = cc e
block_at-change a f (x ∷ bs) b keeps e = elim (Bool-cases (x.address == a)) [
  | inl t ↦
      ap (block_at a) (if_true (x.address == a) _ _ t)
      ∙ if_true ((f x).address == a) _ _ (ap (λ (n : ℕ). n == a) (keeps x) ∙ t)
      ∙ ap changed (sym (if_true (x.address == a) _ _ t) ∙ e)
  | inr n ↦
      ap (block_at a) (if_false (x.address == a) _ _ n)
      ∙ if_false (x.address == a) _ _ n
      ∙ block_at-change a f bs b keeps (sym (if_false (x.address == a) _ _ n) ∙ e)
]
  where
    changed : Option Block → Option Block
    changed none = none
    changed (some y) = some (f y)

block_at-change_ne :
    (a c : ℕ) (f : Block → Block) (bs : List Block)
    → ((x : Block) → (f x).address ≡ x.address)
    → a ≢ c
    → block_at a (change c f bs) ≡ block_at a bs
unfolding block_at change
block_at-change_ne a c f [] keeps ne = refl
block_at-change_ne a c f (x ∷ bs) keeps ne = elim (Bool-cases (x.address == c)) [
  | inl t ↦
      ap (block_at a) (if_true (x.address == c) _ _ t)
      ∙ if_false ((f x).address == a) _ _ (ap (λ (n : ℕ). n == a) (keeps x) ∙ apart t)
      ∙ sym (if_false (x.address == a) _ _ (apart t))
  | inr n ↦
      ap (block_at a) (if_false (x.address == c) _ _ n)
      ∙ ap (λ (o : Option Block). if x.address == a then some x else o)
          (block_at-change_ne a c f bs keeps ne)
]
  where
    apart : (x.address == c) ≡ true → (x.address == a) ≡ false
    apart t = unequal x.address a (λ e. ne (sym e ∙ (==_iff x.address c).0 t))

block_at-remove_ne : (a c : ℕ) (bs : List Block) → a ≢ c → block_at a (remove c bs) ≡ block_at a bs
unfolding block_at remove
block_at-remove_ne a c [] ne = refl
block_at-remove_ne a c (x ∷ bs) ne = elim (Bool-cases (x.address == c)) [
  | inl t ↦
      ap (block_at a) (if_true (x.address == c) _ _ t)
      ∙ sym (
          if_false (x.address == a) _ _
            (unequal x.address a (λ e. ne (sym e ∙ (==_iff x.address c).0 t))))
  | inr n ↦
      ap (block_at a) (if_false (x.address == c) _ _ n)
      ∙ ap (λ (o : Option Block). if x.address == a then some x else o)
          (block_at-remove_ne a c bs ne)
]

length-remove :
    (a : ℕ) (bs : List Block) (b : Block)
    → block_at a bs ≡ some b
    → length (remove a bs) + 1 ≡ length bs
unfolding block_at remove
length-remove a [] b e = cc e
length-remove a (x ∷ bs) b e = elim (Bool-cases (x.address == a)) [
  | inl t ↦ ap (λ (l : List Block). length l + 1) (if_true (x.address == a) _ _ t) ∙ omega arith
  | inr n ↦
      ap (λ (l : List Block). length l + 1) (if_false (x.address == a) _ _ n)
      ∙ (let below = length-remove a bs b (sym (if_false (x.address == a) _ _ n) ∙ e) in
          omega (arith, below))
]

length-change : (a : ℕ) (f : Block → Block) (bs : List Block) → length (change a f bs) ≡ length bs
unfolding change
length-change a f [] = refl
length-change a f (x ∷ bs) =
    if_elim (λ (l : List Block). length l ≡ suc (length bs)) (x.address == a) _ _ (λ _. refl)
      (λ _. ap suc (length-change a f bs))

-- Releasing the block at an address, if it is in use, takes that block away and leaves the others.
pub osal_free-released :
    (a : ℕ) (h : Heap) (b : Block)
    → block_at a h.blocks ≡ some b
    → b.magic ≡ block_magic
    → (h' : Heap) × (osal_free (some a) h ≡ Outcome.returned h')
      × (length h'.blocks + 1 ≡ length h.blocks)
      × ((d : ℕ) → d ≢ a → block_at d h'.blocks ≡ block_at d h.blocks)
unfolding osal_free free_block
osal_free-released a h b found live = (
  record { monitor = shrink b.size h.monitor; blocks = remove a h.blocks },
  ap (free_block a h) found ∙ if_false (not (b.magic == block_magic)) _ _ (ground (arith, live)),
  length-remove a h.blocks b found,
  λ d ne. block_at-remove_ne d a h.blocks ne,
)

-- The block that a reallocation makes.
abbrev pub moved : Block → ℕ → ℕ → List ℕ → Block
moved b c new_size old =
    let n : ℕ = (if ltb b.size new_size then b.size else new_size) in
    record {
      address = c;
      size = new_size;
      magic = block_magic;
      bytes = take n b.bytes ++ drop n old;
    }

-- Reallocating a block in use to a size from 1 to 2^32 - 9, when `malloc` gives another address, moves
-- it: the new block has the new size and its bytes begin with those of the old block, as many as the
-- smaller of the two sizes; one block is given back, so that there are as many as before, and the
-- blocks at the addresses other than these two are as before. When `malloc` fails, the result is NULL and nothing changes.
pub osal_realloc-moved :
    (a c new_size : ℕ) (old : List ℕ) (h : Heap) (b : Block)
    → block_at a h.blocks ≡ some b
    → b.magic ≡ block_magic
    → 0 < new_size
    → new_size ≤ 2 ^ 32 - 9
    → a ≢ c
    → ((h' : Heap) × (osal_realloc (some a) new_size (some (c, old)) h
          ≡ Outcome.returned (some c, h'))
        × (block_at c h'.blocks ≡ some (moved b c new_size old))
        × (length h'.blocks ≡ length h.blocks)
        × ((d : ℕ) → d ≢ a → d ≢ c → block_at d h'.blocks ≡ block_at d h.blocks))
      × (osal_realloc (some a) new_size none h ≡ Outcome.returned (none, h))
unfolding osal_realloc realloc_block realloc_to osal_malloc malloc_raw with_pointer block_at
osal_realloc-moved a c new_size old h b found live more fits ne = (
  (
    freed.0,
    start (some (c, old))
        ∙ ap (realloc_to a b new_size)
            (if_false (ltb (2 ^ 32 - 1 - 8) new_size) _ _ (ground (arith, fits)))
        ∙ ap (with_pointer (some c)) freed.1,
    freed.3 c (λ e. ne (sym e))
        ∙ block_at-change c copy (fresh ∷ h.blocks) fresh (λ x. refl)
            (if_true (c == c) _ _ (==_refl c)),
    (let one = freed.2 in omega (arith, one, as_many)),
    λ d na nc. freed.3 d na ∙ past d nc,
  ),
  start none
      ∙ ap (realloc_to a b new_size)
          (if_false (ltb (2 ^ 32 - 1 - 8) new_size) _ _ (ground (arith, fits))),
)
  where
    fresh : Block
    fresh = record { address = c; size = new_size; magic = block_magic; bytes = old }

    copy : Block → Block
    copy = copy_bytes (if ltb b.size new_size then b.size else new_size) b.bytes

    filled : Heap
    filled = record { monitor = grow new_size h.monitor; blocks = change c copy (fresh ∷ h.blocks) }

    past : (d : ℕ) → d ≢ c → block_at d filled.blocks ≡ block_at d h.blocks
    past d nc =
        block_at-change_ne d c copy (fresh ∷ h.blocks) (λ x. refl) nc
        ∙ if_false (c == d) _ _ (unequal c d (λ e. nc (sym e)))

    as_many : length filled.blocks ≡ length h.blocks + 1
    as_many = length-change c copy (fresh ∷ h.blocks) ∙ omega arith

    freed :
        (h' : Heap) × (osal_free (some a) filled ≡ Outcome.returned h')
        × (length h'.blocks + 1 ≡ length filled.blocks)
        × ((d : ℕ) → d ≢ a → block_at d h'.blocks ≡ block_at d filled.blocks)
    freed = osal_free-released a filled b (past a ne ∙ found) live

    start :
        (raw : Raw)
        → osal_realloc (some a) new_size raw h
          ≡ realloc_to a b new_size (osal_malloc new_size raw h)
    start raw =
        if_false (new_size == 0) _ _ (ground (arith, more))
        ∙ ap (realloc_block a new_size raw h) found
        ∙ if_false (not (b.magic == block_magic)) _ _ (ground (arith, live))
