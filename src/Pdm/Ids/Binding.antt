-- ===== src/Pdm/Ids/Binding.antt =====
-- The ids of the devices under pdm_device_bind and pdm_device_unbind of
-- kernel/pdm/bus/pdm_device.c.
use lpf.Common.{
  ℕ, ◌≡◌, ◌≢◌, refl, sym, ap, subst, ◌∙◌, inl, inr, ◌==◌, ==_iff, ==_refl, if◌then◌else◌, if_true,
  if_false, if_elim, Bool-cases, Bool, true, false, not, ℤ, pos, negsuc, is_neg, einval, ebusy,
  arith,
}
use lpf.Pdm.Device.{PdmDevice}
use lpf.Pdm.Ids.Interface.{Ida}
use lpf.Pdm.Ids.{
  int_max, get_allocator, Allocators, ida_call, count_id, id_alloc, give_back, id_free,
  bind_allocated, bind, unbind,
}
use lpf.Pdm.Ids.Unique.{Holder, IdsOk, put, kept, takes-IdsOk}

not_equal : (a b : ℕ) → a ≢ b → (a == b) ≡ false
not_equal a b ne = ground arith

module _ (ida : Ida) where
  open ida use {Pool, taken, alloc_range, free, alloc_fresh, alloc_failed, free_one}

  call_fresh :
      (requested : ℤ) (p q : Pool) (id : ℕ)
      → ida_call ida requested p ≡ (pos id, q)
      → (taken p id ≡ false) × ((j : ℕ) → taken q j ≡ (if j == id then true else taken p j))
  unfolding ida_call
  call_fresh (pos r) p q id e = let f = alloc_fresh r r id p q e in (f.0, f.3)
  call_fresh (negsuc n) p q id e = let f = alloc_fresh 0 int_max id p q e in (f.0, f.3)

  call_failed :
      (requested : ℤ) (p q : Pool) (e : ℕ)
      → ida_call ida requested p ≡ (negsuc e, q)
      → (j : ℕ) → taken q j ≡ taken p j
  unfolding ida_call
  call_failed (pos r) p q e h = alloc_failed r r e p q h
  call_failed (negsuc n) p q e h = alloc_failed 0 int_max e p q h

  -- What a bind or unbind of device `i` leaves.
  abbrev After : (ℕ → PdmDevice) → ℕ → ℤ × PdmDevice × Allocators ida → Type 0
  After devs i out = IdsOk ida (put ida devs i out.1) out.2

  at_type :
      (a : Allocators ida) (t t₀ n : ℕ)
      → (t == t₀) ≡ true
      → taken (a.pools t) n ≡ true
      → taken (a.pools t₀) n ≡ true
  at_type a t t₀ n e tk = ap (λ (u : ℕ). taken (a.pools u) n) (sym ((==_iff t t₀).0 e)) ∙ tk

  allocated-IdsOk :
      (devs : ℕ → PdmDevice) (i t c : ℕ) (a : Allocators ida) (r : ℤ × Pool)
      → IdsOk ida devs a
      → (devs i).id_allocated ≡ false
      → get_allocator t ≡ true
      → ida_call ida (devs i).requested_id (a.pools t) ≡ r
      → After devs i (bind_allocated ida t c (devs i) (count_id ida t a r))
  unfolding bind_allocated count_id
  allocated-IdsOk devs i t c a (negsuc e, q) ok free type_ok call =
      kept ida devs i (devs i) a _ ok (λ _ _ h. h) (ok.known i) (ok.numbered i)
        (λ j u n _ tk.
          if_elim (λ (p : Pool). taken p n ≡ true) (u == t) q (a.pools u)
            (λ same.
              call_failed (devs i).requested_id (a.pools t) q e call n ∙ at_type a u t n same tk)
            (λ _. tk))
  allocated-IdsOk devs i t c a (pos id, q) ok free type_ok call =
      let f = call_fresh (devs i).requested_id (a.pools t) q id call in
      takes-IdsOk ida devs i t id _ a _ ok (record {
        type_ok = type_ok;
        its_type = refl;
        its_id = refl;
        was_free = f.0;
        now_taken =
            ap (λ (p : Pool). taken p id) (if_true (t == t) q (a.pools t) (==_refl t))
            ∙ f.1 id
            ∙ if_true (id == id) true (taken (a.pools t) id) (==_refl id);
        grows = λ u n tk.
            if_elim (λ (p : Pool). taken p n ≡ true) (u == t) q (a.pools u)
              (λ same.
                f.1 n
                ∙ if_elim (λ (b : Bool). b ≡ true) (n == id) true (taken (a.pools t) n) (λ _. refl)
                    (λ _. at_type a u t n same tk))
              (λ _. tk);
      })

  -- `pdm_device_bind` of one device, on every outcome.
  pub bind-IdsOk :
      (devs : ℕ → PdmDevice) (i t c : ℕ) (a : Allocators ida)
      → IdsOk ida devs a
      → After devs i (bind ida t c (devs i) a)
  unfolding bind id_alloc bind_allocated
  bind-IdsOk devs i t c a ok =
      if_elim (After devs i) (devs i).id_allocated _ _
        (λ _.
          if_elim (After devs i) (not ((devs i).device_type == t)) (ebusy, devs i, a) _
            (λ _. still (devs i) (λ _ _ h. h) (ok.known i) (ok.numbered i))
            (λ _. still _ (λ _ _ h. h) (ok.known i) (ok.numbered i)))
        (λ free.
          if_elim (λ (r : ℤ × Allocators ida). After devs i (bind_allocated ida t c (devs i) r))
            (not (get_allocator t)) (einval, a) _ (λ _. refused)
            (λ known. allocated-IdsOk devs i t c a _ ok free (ground arith) refl))
    where
      still :
          (d : PdmDevice)
          → ((u n : ℕ) → Holder d u n → Holder (devs i) u n)
          → (d.id_allocated ≡ true → get_allocator d.device_type ≡ true)
          → (d.id_allocated ≡ true → is_neg d.id ≡ false)
          → IdsOk ida (put ida devs i d) a
      still d same type_ok id_ok = kept ida devs i d a a ok same type_ok id_ok (λ _ _ _ _ tk. tk)

      refused : After devs i (bind_allocated ida t c (devs i) (einval, a))
      refused = still (devs i) (λ _ _ h. h) (ok.known i) (ok.numbered i)

  -- A device without an id takes the place of device `i`, whose id goes back.
  freed-IdsOk :
      (devs : ℕ → PdmDevice) (i : ℕ) (d : PdmDevice) (a : Allocators ida) (z : ℤ)
      → IdsOk ida devs a
      → (devs i).id_allocated ≡ true
      → d.id_allocated ≡ false
      → (devs i).id ≡ z
      → IdsOk ida (put ida devs i d) (id_free ida (devs i).device_type z a)
  unfolding id_free give_back
  freed-IdsOk devs i d a (negsuc n) ok bound unbound at =
      absurd (is_neg_pos (sym (ok.numbered i bound) ∙ ap is_neg at))
    where
      is_neg_pos : false ≡ true → ⊥
      is_neg_pos e = cc
  freed-IdsOk devs i d a (pos id) ok bound unbound at =
      if_elim (λ (b : Allocators ida). IdsOk ida (put ida devs i d) b)
        (not (get_allocator (devs i).device_type)) a _ (λ _. without a (λ _ _ _ _ tk. tk))
        (λ _. without _ left_taken)
    where
      no_holder : (t n : ℕ) → Holder d t n → ⊥
      no_holder t n h = cc (h.0, unbound)

      without :
          (b : Allocators ida)
          → ((j t n : ℕ)
              → Holder (put ida devs i d j) t n
              → taken (a.pools t) n ≡ true
              → taken (b.pools t) n ≡ true)
          → IdsOk ida (put ida devs i d) b
      without b keeps =
          kept ida devs i d a b ok (λ t n h. absurd (no_holder t n h)) (λ e. cc (e, unbound))
            (λ e. cc (e, unbound)) keeps

      another : (j t n : ℕ) → Holder (put ida devs i d j) t n → t ≡ (devs i).device_type → n ≢ id
      another j t n = elim (Bool-cases (j == i)) [
        | inl e ↦ λ h _ _.
            no_holder t n
              (subst (λ (x : PdmDevice). Holder x t n) (if_true (j == i) d (devs j) e) h)
        | inr e ↦ λ h same n_id.
            let mine : Holder (devs i) t n = (bound, sym same, at ∙ ap pos (sym n_id)) in
            let j_i =
              ok.apart j i t n
                (subst (λ (x : PdmDevice). Holder x t n) (if_false (j == i) d (devs j) e) h) mine in
            cc (e, (==_iff j i).1 j_i)
      ]

      left_taken :
          (j t n : ℕ)
          → Holder (put ida devs i d j) t n
          → taken (a.pools t) n ≡ true
          → taken (if t == (devs i).device_type then free id (a.pools t) else a.pools t) n ≡ true
      left_taken j t n h tk =
          if_elim (λ (p : Pool). taken p n ≡ true) (t == (devs i).device_type) (free id (a.pools t))
            (a.pools t)
            (λ e.
              free_one id (a.pools t) n
              ∙ if_false (n == id) false (taken (a.pools t) n)
                  (not_equal n id (another j t n h ((==_iff _ _).0 e)))
              ∙ tk)
            (λ _. tk)

  -- `pdm_device_unbind` of one device.
  pub unbind-IdsOk :
      (devs : ℕ → PdmDevice) (i : ℕ) (a : Allocators ida)
      → IdsOk ida devs a
      → let (d, b) = unbind ida (devs i) a in IdsOk ida (put ida devs i d) b
  unfolding unbind
  unbind-IdsOk devs i a ok =
      if_elim (λ (r : PdmDevice × Allocators ida). IdsOk ida (put ida devs i r.0) r.1)
        (not (devs i).id_allocated) (devs i, a) _
        (λ _.
          kept ida devs i (devs i) a a ok (λ _ _ h. h) (ok.known i) (ok.numbered i)
            (λ _ _ _ _ tk. tk))
        (λ e. freed-IdsOk devs i _ a (devs i).id ok (ground arith) refl refl)
