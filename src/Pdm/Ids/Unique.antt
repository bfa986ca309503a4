-- ===== src/Pdm/Ids/Unique.antt =====
-- Who holds which id of kernel/pdm/bus/pdm_device.c: the invariant, and changes of one device.
use lpf.Common.{
  ℕ, ◌≡◌, sym, ap, subst, ◌∙◌, inl, inr, ◌==◌, ==_iff, if◌then◌else◌, if_true, if_false, if_elim,
  Bool-cases, true, false, pos, is_neg, arith,
}
use lpf.Pdm.Device.{PdmDevice}
use lpf.Pdm.Ids.Interface.{Ida}
use lpf.Pdm.Ids.{get_allocator, Allocators}

-- The device holds id `n` of the type.
abbrev pub Holder : PdmDevice → ℕ → ℕ → Type 0
Holder d t n = (d.id_allocated ≡ true) × (d.device_type ≡ t) × (d.id ≡ pos n)

module _ (ida : Ida) where
  open ida use {Pool, taken, alloc_range, free, alloc_fresh, alloc_failed, free_one}

  -- Who holds an id has it taken, and is the only one of its type that does.
  pub record IdsOk (devs : ℕ → PdmDevice) (a : Allocators ida) : Type 0 where
    pub known : (i : ℕ) → (devs i).id_allocated ≡ true → get_allocator (devs i).device_type ≡ true
    pub numbered : (i : ℕ) → (devs i).id_allocated ≡ true → is_neg (devs i).id ≡ false
    pub held : (i t n : ℕ) → Holder (devs i) t n → taken (a.pools t) n ≡ true
    pub apart : (i j t n : ℕ) → Holder (devs i) t n → Holder (devs j) t n → i ≡ j

  -- The devices with device `i` replaced.
  abbrev pub put : (ℕ → PdmDevice) → ℕ → PdmDevice → ℕ → PdmDevice
  put devs i d = λ j. if j == i then d else devs j

  -- A device that takes no new id, and an id set that keeps what is taken, keep all well.
  pub kept :
      (devs : ℕ → PdmDevice) (i : ℕ) (d : PdmDevice) (a b : Allocators ida)
      → IdsOk devs a
      → ((t n : ℕ) → Holder d t n → Holder (devs i) t n)
      → (d.id_allocated ≡ true → get_allocator d.device_type ≡ true)
      → (d.id_allocated ≡ true → is_neg d.id ≡ false)
      → ((j t n : ℕ)
          → Holder (put devs i d j) t n
          → taken (a.pools t) n ≡ true
          → taken (b.pools t) n ≡ true)
      → IdsOk (put devs i d) b
  kept devs i d a b ok same type_ok id_ok kept_taken = record {
    known = λ j.
        if_elim (λ (x : PdmDevice). x.id_allocated ≡ true → get_allocator x.device_type ≡ true)
          (j == i) d (devs j) (λ _. type_ok) (λ _. ok.known j);
    numbered = λ j.
        if_elim (λ (x : PdmDevice). x.id_allocated ≡ true → is_neg x.id ≡ false) (j == i) d (devs j)
          (λ _. id_ok) (λ _. ok.numbered j);
    held = λ j t n h. kept_taken j t n h (ok.held j t n (before j t n h));
    apart = λ j k t n hj hk. ok.apart j k t n (before j t n hj) (before k t n hk);
  }
    where
      before : (j t n : ℕ) → Holder (put devs i d j) t n → Holder (devs j) t n
      before j t n = elim (Bool-cases (j == i)) [
        | inl e ↦ λ h.
            subst (λ (k : ℕ). Holder (devs k) t n) (sym ((==_iff j i).0 e))
              (same t n (subst (λ (x : PdmDevice). Holder x t n) (if_true (j == i) d (devs j) e) h))
        | inr e ↦ λ h. subst (λ (x : PdmDevice). Holder x t n) (if_false (j == i) d (devs j) e) h
      ]

  -- Device `i` takes id `n₀` of type `t₀`, which was free.
  module _ (devs : ℕ → PdmDevice) (i t₀ n₀ : ℕ) (d : PdmDevice) (a b : Allocators ida) where
    pub record Takes : Type 0 where
      pub type_ok : get_allocator t₀ ≡ true
      pub its_type : d.device_type ≡ t₀
      pub its_id : d.id ≡ pos n₀
      pub was_free : taken (a.pools t₀) n₀ ≡ false
      pub now_taken : taken (b.pools t₀) n₀ ≡ true
      pub grows : (t n : ℕ) → taken (a.pools t) n ≡ true → taken (b.pools t) n ≡ true

    module _ (ok : IdsOk devs a) (k : Takes) where
      number : (t n : ℕ) → Holder d t n → (t ≡ t₀) × (n ≡ n₀)
      number t n h = (sym h.1 ∙ k.its_type, ground arith)

      new_held : (j t n : ℕ) → Holder (put devs i d j) t n → taken (b.pools t) n ≡ true
      new_held j t n =
          if_elim (λ (x : PdmDevice). Holder x t n → taken (b.pools t) n ≡ true) (j == i) d (devs j)
            (λ _ h.
              let at = number t n h in
              ap (λ (u : ℕ). taken (b.pools u) n) at.0 ∙ ap (taken (b.pools t₀)) at.1 ∙ k.now_taken)
            (λ _ h. k.grows t n (ok.held j t n h))

      stranger : (j t n : ℕ) → Holder d t n → Holder (devs j) t n → ⊥
      stranger j t n h other =
          let at = number t n h in
          cc (
            ok.held j t n other,
            ap (λ (u : ℕ). taken (a.pools u) n) at.0 ∙ ap (taken (a.pools t₀)) at.1,
            k.was_free,
          )

      new_apart : (j l t n : ℕ) → Holder (put devs i d j) t n → Holder (put devs i d l) t n → j ≡ l
      new_apart j l t n = elim (Bool-cases (j == i)) [
        | inl e ↦ elim (Bool-cases (l == i)) [
          | inl e' ↦ λ _ _. (==_iff j i).0 e ∙ sym ((==_iff l i).0 e')
          | inr e' ↦ λ hj hl. absurd (
              stranger l t n (subst (λ (x : PdmDevice). Holder x t n) (if_true _ _ _ e) hj)
                (subst (λ (x : PdmDevice). Holder x t n) (if_false _ _ _ e') hl))
        ]
        | inr e ↦ elim (Bool-cases (l == i)) [
          | inl e' ↦ λ hj hl. absurd (
              stranger j t n (subst (λ (x : PdmDevice). Holder x t n) (if_true _ _ _ e') hl)
                (subst (λ (x : PdmDevice). Holder x t n) (if_false _ _ _ e) hj))
          | inr e' ↦ λ hj hl.
              ok.apart j l t n (subst (λ (x : PdmDevice). Holder x t n) (if_false _ _ _ e) hj)
                (subst (λ (x : PdmDevice). Holder x t n) (if_false _ _ _ e') hl)
        ]
      ]

      pub takes-IdsOk : IdsOk (put devs i d) b
      takes-IdsOk = record {
        known = λ j.
            if_elim (λ (x : PdmDevice). x.id_allocated ≡ true → get_allocator x.device_type ≡ true)
              (j == i) d (devs j) (λ _ _. ap get_allocator k.its_type ∙ k.type_ok)
              (λ _. ok.known j);
        numbered = λ j.
            if_elim (λ (x : PdmDevice). x.id_allocated ≡ true → is_neg x.id ≡ false) (j == i) d
              (devs j) (λ _ _. ap is_neg k.its_id) (λ _. ok.numbered j);
        held = new_held;
        apart = new_apart;
      }
