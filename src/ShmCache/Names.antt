-- ===== src/ShmCache/Names.antt =====
-- The table and the names: which slots and segments create, open and delete use.
use lpf.Common.{
  ℕ, zero, suc, ◌+◌, ◌≤◌, ◌<◌, ◌≡◌, inl, inr, refl, sym, ap, ◌∙◌, true, false, not, List, [], ◌∷◌,
  none, some, ◌==◌, ==_iff, if_true, Bool-cases, Option-cases, arith,
}
use lpf.Common.Text.{same_string, same_string_refl, same_string-eq}
use lpf.ShmCache.{Descriptor, World, max_caches}
use lpf.ShmCache.Table.{find_name, unlink, find_free_from, find_free_cache_slot, open_or_create}

pub find_name-unlink_self : (n : List ℕ) (l : List (List ℕ × ℕ)) → find_name n (unlink n l) ≡ none
unfolding find_name unlink
find_name-unlink_self n [] = refl
find_name-unlink_self n ((m, s) ∷ l) = elim (Bool-cases (same_string m n)) [
  | inl e ↦ ground (arith, find_name-unlink_self n l)
  | inr e ↦ ground (arith, find_name-unlink_self n l)
]

pub find_name-unlink_ne :
    (n m : List ℕ) (l : List (List ℕ × ℕ))
    → same_string n m ≡ false
    → find_name m (unlink n l) ≡ find_name m l
unfolding find_name unlink
find_name-unlink_ne n m [] ne = refl
find_name-unlink_ne n m ((k, s) ∷ l) ne = elim (Bool-cases (same_string k n)) [
  | inl e ↦ ground (
    arith,
    find_name-unlink_ne n m l ne,
    ap (λ (t : List ℕ). same_string t m) (same_string-eq k n e),
  )
  | inr e ↦ ground (arith, find_name-unlink_ne n m l ne)
]

-- Slot `slot` is free, and every slot from `i` on below it is taken.
pub record Lowest (caches : ℕ → Descriptor) (i slot : ℕ) : Type 0 where
  pub free : (caches slot).in_use ≡ false
  pub from : i ≤ slot
  pub below : (j : ℕ) → i ≤ j → j < slot → (caches j).in_use ≡ true

Lowest-step :
    (caches : ℕ → Descriptor) (i slot : ℕ)
    → (caches i).in_use ≡ true
    → Lowest caches (suc i) slot
    → Lowest caches i slot
Lowest-step caches i slot used r = record {
  free = r.free;
  from = omega (arith, r.from);
  below = λ j lo hi. elim (Bool-cases (j == i)) [
    | inl e ↦ ap (λ (k : ℕ). (caches k).in_use) ((==_iff _ _).0 e) ∙ used
    | inr e ↦ r.below j (ground arith) hi
  ];
}

pub find_free_from-some :
    (caches : ℕ → Descriptor) (n i slot : ℕ)
    → find_free_from caches i n ≡ some slot
    → Lowest caches i slot × (slot < i + n)
unfolding find_free_from
find_free_from-some caches zero i slot h = cc
find_free_from-some caches (suc n) i slot h = elim (Bool-cases (caches i).in_use) [
  | inl used ↦
      let r = find_free_from-some caches n (suc i) slot (ground arith) in
      (Lowest-step caches i slot used r.0, omega (arith, r.1))
  | inr free ↦
      let here : i ≡ slot = ground arith in
      (
        record {
          free = ap (λ (k : ℕ). (caches k).in_use) (sym here) ∙ free;
          from = omega arith;
          below = λ j lo hi. absurd (omega arith);
        },
        omega arith,
      )
]

pub find_free_from-none :
    (caches : ℕ → Descriptor) (n i : ℕ)
    → find_free_from caches i n ≡ none
    → (j : ℕ) → i ≤ j
    → j < i + n
    → (caches j).in_use ≡ true
unfolding find_free_from
find_free_from-none caches zero i h j lo hi = absurd (omega arith)
find_free_from-none caches (suc n) i h j lo hi = elim (Bool-cases (caches i).in_use) [
  | inl used ↦ elim (Bool-cases (j == i)) [
    | inl e ↦ ap (λ (k : ℕ). (caches k).in_use) ((==_iff _ _).0 e) ∙ used
    | inr e ↦ find_free_from-none caches n (suc i) (ground arith) j (ground arith) (omega arith)
  ]
  | inr free ↦
      cc (if_true (not (caches i).in_use) (some i) (find_free_from caches (suc i) n) (ap not free))
]

find_name_here : (n : List ℕ) (s : ℕ) (l : List (List ℕ × ℕ)) → find_name n ((n, s) ∷ l) ≡ some s
unfolding find_name
find_name_here n s l = if_true _ _ _ (same_string_refl n)

-- Whatever `shm_open` with O_CREAT found or made, the name now leads to it.
pub find_name-open_or_create :
    (name : List ℕ) (w : World)
    → let (s, w') = open_or_create name w in find_name name w'.linked ≡ some s
unfolding open_or_create
find_name-open_or_create name w = elim (Option-cases (find_name name w.linked)) [
  | inl e ↦ rw (e, open_or_create) (find_name_here name w.next_segment w.linked)
  | inr (s, e) ↦ rw (e, open_or_create) e
]

pub caches-open_or_create :
    (name : List ℕ) (w : World) → (open_or_create name w).1.caches ≡ w.caches
unfolding open_or_create
caches-open_or_create name w = elim (Option-cases (find_name name w.linked)) [
  | inl e ↦ rw (e, open_or_create) refl
  | inr (s, e) ↦ rw (e, open_or_create) refl
]

pub find_free_cache_slot-some :
    (caches : ℕ → Descriptor) (slot : ℕ)
    → find_free_cache_slot caches ≡ some slot
    → Lowest caches 0 slot × (slot < max_caches)
unfolding find_free_cache_slot
find_free_cache_slot-some caches slot h =
    let r = find_free_from-some caches max_caches 0 slot h in (r.0, omega (arith, r.1))
