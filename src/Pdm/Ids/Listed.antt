-- ===== src/Pdm/Ids/Listed.antt =====
-- An id allocator that meets the interface, for runs of the code that is built on it: the ids
-- that are taken stand in a list, and the lowest free one is handed out.
use lpf.Common.{
  ℕ, suc, ◌+◌, ◌≤◌, ◌≡◌, refl, sym, ap, ◌∙◌, ◌==◌, if◌then◌else◌, if_elim, if_false, leb, leb→le,
  Bool, true, false, Bool-cases, inl, inr, zero, List, [], ◌∷◌, length, ℤ, pos, negsuc, enospc,
  arith,
}
use lpf.Pdm.Ids.Interface.{Ida}

abbrev in_list : List ℕ → ℕ → Bool
in_list [] j = false
in_list (x ∷ xs) j = if j == x then true else in_list xs j

abbrev first_free : List ℕ → ℕ → ℕ → ℕ
first_free p c zero = c
first_free p c (suc n) = if in_list p c then first_free p (c + 1) n else c

abbrev remove : ℕ → List ℕ → List ℕ
remove id [] = []
remove id (x ∷ xs) = if x == id then remove id xs else x ∷ remove id xs

abbrev hand_out : ℕ → ℕ → List ℕ → ℤ × List ℕ
hand_out c hi p =
    if in_list p c then (enospc, p) else if leb c hi then (pos c, c ∷ p) else (enospc, p)

pub first_free-above : (p : List ℕ) (c n : ℕ) → c ≤ first_free p c n
first_free-above p c zero = omega arith
first_free-above p c (suc n) =
    if_elim (λ (r : ℕ). c ≤ r) (in_list p c) _ _
      (λ _. (let h = first_free-above p (c + 1) n in omega (arith, h))) (λ _. omega arith)

pub remove-in_list :
    (id : ℕ) (p : List ℕ) (j : ℕ)
    → in_list (remove id p) j ≡ (if j == id then false else in_list p j)
remove-in_list id [] j = ground arith
remove-in_list id (x ∷ xs) j =
    let h = remove-in_list id xs j in
    if_elim (λ (l : List ℕ). in_list l j ≡ (if j == id then false else in_list (x ∷ xs) j))
      (x == id) _ _
      (λ e. elim (Bool-cases (j == x)) [
        | inl e' ↦ ground (arith, h)
        | inr e' ↦
            h ∙ ap (λ (b : Bool). if j == id then false else b) (sym (if_false (j == x) true _ e'))
      ])
      (λ e. elim (Bool-cases (j == x)) [
        | inl e' ↦ ground arith
        | inr e' ↦
            if_false (j == x) true _ e'
            ∙ h
            ∙ ap (λ (b : Bool). if j == id then false else b) (sym (if_false (j == x) true _ e'))
      ])

-- What a call that answers with an id says of it.
pub record Fresh (c hi : ℕ) (p : List ℕ) (r : ℤ × List ℕ) : Type 0 where
  pub of_id :
      (id : ℕ)
      → r.0 ≡ pos id
      → (in_list p id ≡ false)
        × (c ≤ id)
        × (id ≤ hi)
        × ((j : ℕ) → in_list r.1 j ≡ (if j == id then true else in_list p j))
  pub of_error : (e : ℕ) → r.0 ≡ negsuc e → (j : ℕ) → in_list r.1 j ≡ in_list p j

refused : (c hi : ℕ) (p : List ℕ) → Fresh c hi p (enospc, p)
refused c hi p = record { of_id = λ id h. cc; of_error = λ e h j. refl }

pub hand_out-Fresh : (c hi : ℕ) (p : List ℕ) → Fresh c hi p (hand_out c hi p)
hand_out-Fresh c hi p =
    if_elim (Fresh c hi p) (in_list p c) _ _ (λ _. refused c hi p)
      (λ free.
        if_elim (Fresh c hi p) (leb c hi) _ _
          (λ low. record {
            of_id = λ id h.
                let same : c ≡ id = cc in
                (
                  ap (in_list p) (sym same) ∙ free,
                  omega (arith, same),
                  (let l = leb→le c hi low in omega (arith, l, same)),
                  λ j. ap (λ (k : ℕ). if j == k then true else in_list p j) same,
                );
            of_error = λ e h j. cc;
          })
          (λ _. refused c hi p))

abbrev pub listed_ida : Ida
listed_ida = record {
  Pool = List ℕ;
  taken = in_list;
  alloc_range = λ lo hi p. hand_out (first_free p lo (length p + 1)) hi p;
  free = remove;
  alloc_fresh = λ lo hi id p q e.
      let c = first_free p lo (length p + 1) in
      let f = (hand_out-Fresh c hi p).of_id id (ap (λ (r : ℤ × List ℕ). r.0) e) in
      let above = first_free-above p lo (length p + 1) in
      (
        f.0,
        omega (arith, above, f.1),
        f.2,
        λ j. ap (λ (r : ℤ × List ℕ). in_list r.1 j) (sym e) ∙ f.3 j,
      );
  alloc_failed = λ lo hi e p q h j.
      ap (λ (r : ℤ × List ℕ). in_list r.1 j) (sym h)
      ∙ (hand_out-Fresh (first_free p lo (length p + 1)) hi p).of_error e
          (ap (λ (r : ℤ × List ℕ). r.0) h) j;
  free_one = remove-in_list;
}
