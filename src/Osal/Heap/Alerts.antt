-- ===== src/Osal/Heap/Alerts.antt =====
-- The threshold on the use of the heap: user/osal/src/lib/osal_heap.c.
use native.Mathlib.Nat.{le-div_iff_mul-le}
use lpf.Common.{
  ℕ, ◌-◌, ◌*◌, ◌/◌, ◌%◌, ◌^◌, ◌≤◌, ◌<◌, ◌≡◌, refl, sym, subst, ap, ap₂, ◌∙◌, ◌==◌, ltb, leb,
  if◌then◌else◌, if_elim, if_false, leb→le, Bool, true, false, not, ◌&&◌, ◌↔◌, List, [], ◌∷◌, map,
  arith,
}
use lpf.Osal.Heap.{
  Monitor, HeapInfo, info_of, heap_get_info, usage_percent, Checked, note_exceeded, check_info,
  heap_check_threshold,
}

le→leb : (a b : ℕ) → a ≤ b → leb a b ≡ true
le→leb a b h = ground arith

-- The percentage is exact for less than 2^32 / 100 bytes.
pub usage_percent_lem :
    (i : HeapInfo) (threshold : ℕ)
    → 0 < i.total_bytes
    → (i.total_bytes - i.free_bytes) * 100 < 2 ^ 32
    → (leb threshold (usage_percent i) ≡ true)
      ↔ (threshold * i.total_bytes ≤ (i.total_bytes - i.free_bytes) * 100)
unfolding usage_percent
usage_percent_lem i threshold some_ small =
    (λ t. quotient.0 (leb→le threshold _ t), λ h. le→leb threshold _ (quotient.1 h))
  where
    exact : (i.total_bytes - i.free_bytes) * 100 % 2 ^ 32 ≡ (i.total_bytes - i.free_bytes) * 100
    exact = omega (arith, small)

    quotient :
        (threshold ≤ (i.total_bytes - i.free_bytes) * 100 % 2 ^ 32 / i.total_bytes)
        ↔ (threshold * i.total_bytes ≤ (i.total_bytes - i.free_bytes) * 100)
    quotient =
        subst
          (λ (n : ℕ).
            (threshold ≤ n / i.total_bytes)
            ↔ (threshold * i.total_bytes ≤ (i.total_bytes - i.free_bytes) * 100))
          (sym exact) (le-div_iff_mul-le {k = i.total_bytes} {x = threshold} some_)

-- Where the alert rises in a row of tests, from the one before them.
unfoldable pub rises : Bool → List Bool → List Bool
rises last [] = []
rises last (b ∷ bs) = (b && not last) ∷ rises b bs

-- A row of checks, with VmRSS and VmPeak for each: what each leaves in `*exceeded` and whether it
-- prints a message.
unfoldable pub checks : List (ℕ × ℕ) → Monitor → List (Bool × Bool)
checks [] m = []
checks ((vm_rss, vm_peak) ∷ rest) m =
    let r : Checked = heap_check_threshold vm_rss vm_peak m in (r.0, r.1) ∷ checks rest r.2

note_exceeded_lem :
    (e : Bool) (m : Monitor)
    → note_exceeded e m ≡ (e, e && not m.alert_triggered, record m { alert_triggered = e })
unfolding note_exceeded
note_exceeded_lem true m = given m.alert_triggered refl
  where
    alerted : Bool → Checked
    alerted b = (true, false, record m { alert_triggered = b })

    given :
        (a : Bool)
        → m.alert_triggered ≡ a
        → ◌≡◌ {A = Checked}
            (if not a then (true, true, record m { alert_triggered = true }) else (true, false, m))
            (true, not a, record m { alert_triggered = true })
    given true e = ap (λ (b : Bool). alerted b) e
    given false e = refl
note_exceeded_lem false m = refl

-- The monitor after a measurement of the process.
abbrev pub measured : ℕ → Monitor → Monitor
measured vm_rss m = record m {
  current_usage = vm_rss;
  peak_usage = (if ltb m.peak_usage vm_rss then vm_rss else m.peak_usage);
}

check_measured :
    (vm_rss vm_peak : ℕ) (m : Monitor)
    → 0 < vm_peak
    → heap_check_threshold vm_rss vm_peak m
      ≡ note_exceeded
          (leb m.threshold_percent (usage_percent (info_of vm_rss vm_peak)))
          (measured vm_rss m)
unfolding heap_check_threshold check_info heap_get_info
check_measured vm_rss vm_peak m more =
    ap check_info (
      if_false (vm_rss == 0 && vm_peak == 0) _ _
        (neither (vm_rss == 0) (vm_peak == 0) (ground (arith, more))))
    ∙ if_false (vm_peak == 0) _ _ (ground (arith, more))
  where
    neither : (a b : Bool) → b ≡ false → (a && b) ≡ false
    neither true b e = e
    neither false b e = refl

-- A check with VmPeak from /proc, if the process uses less than 2^32 / 100 bytes and no more than its
-- peak: it says that the threshold is exceeded exactly when the bytes in use are at least that
-- percentage of the peak; it prints exactly when it says so and no alert is on, leaves the alert as
-- what it says and the threshold alone, and puts VmRSS in place of the count of the allocations.
pub heap_check_threshold_lem :
    (vm_rss vm_peak : ℕ) (m : Monitor)
    → 0 < vm_peak
    → vm_rss ≤ vm_peak
    → vm_rss * 100 < 2 ^ 32
    → let r : Checked = heap_check_threshold vm_rss vm_peak m in
      ((r.0 ≡ true) ↔ (m.threshold_percent * vm_peak ≤ vm_rss * 100))
      × (r.1 ≡ (r.0 && not m.alert_triggered))
      × (r.2.alert_triggered ≡ r.0)
      × (r.2.threshold_percent ≡ m.threshold_percent)
      × (r.2.current_usage ≡ vm_rss)
heap_check_threshold_lem vm_rss vm_peak m more le small =
    subst (λ (r : Checked). Right r)
      (sym (check_measured vm_rss vm_peak m more ∙ note_exceeded_lem _ _))
      (exceeds, refl, refl, refl, refl)
  where
    Right : Checked → Type 0
    Right r =
        ((r.0 ≡ true) ↔ (m.threshold_percent * vm_peak ≤ vm_rss * 100))
        × (r.1 ≡ (r.0 && not m.alert_triggered))
        × (r.2.alert_triggered ≡ r.0)
        × (r.2.threshold_percent ≡ m.threshold_percent)
        × (r.2.current_usage ≡ vm_rss)

    in_use : vm_peak - (info_of vm_rss vm_peak).free_bytes ≡ vm_rss
    in_use =
        if_elim (λ (n : ℕ). vm_peak - n ≡ vm_rss) (ltb vm_rss vm_peak) _ _ (λ _. omega (arith, le))
          (λ f. ground (arith, f, le))

    exceeds :
        (leb m.threshold_percent (usage_percent (info_of vm_rss vm_peak)) ≡ true)
        ↔ (m.threshold_percent * vm_peak ≤ vm_rss * 100)
    exceeds =
        subst
          (λ (n : ℕ).
            (leb m.threshold_percent (usage_percent (info_of vm_rss vm_peak)) ≡ true)
            ↔ (m.threshold_percent * vm_peak ≤ n * 100))
          in_use
          (usage_percent_lem (info_of vm_rss vm_peak) m.threshold_percent more
            (subst (λ (n : ℕ). n * 100 < 2 ^ 32) (sym in_use) small))

check_noted :
    (vm_rss vm_peak : ℕ) (m : Monitor)
    → 0 < vm_peak
    → let r : Checked = heap_check_threshold vm_rss vm_peak m in
      (r.1 ≡ (r.0 && not m.alert_triggered)) × (r.2.alert_triggered ≡ r.0)
check_noted vm_rss vm_peak m more =
    subst (λ (r : Checked). (r.1 ≡ (r.0 && not m.alert_triggered)) × (r.2.alert_triggered ≡ r.0))
      (sym (check_measured vm_rss vm_peak m more ∙ note_exceeded_lem _ _)) (refl, refl)

abbrev pub Peaks : List (ℕ × ℕ) → Type 0
Peaks [] = ◌≡◌ {A = Bool} true true
Peaks (p ∷ ps) = (0 < p.1) × Peaks ps

-- In a row of checks that all read a VmPeak from /proc, messages are printed exactly at the checks
-- that say that the threshold is exceeded where the one before, or at first the alert, did not.
pub checks-rises :
    (ms : List (ℕ × ℕ)) (m : Monitor)
    → Peaks ms
    → let said : List (Bool × Bool) = checks ms m in
      map (λ (r : Bool × Bool). r.1) said
      ≡ rises m.alert_triggered (map (λ (r : Bool × Bool). r.0) said)
unfolding checks rises
checks-rises [] m peaks = refl
checks-rises ((vm_rss, vm_peak) ∷ ms) m peaks =
    let said : Checked = heap_check_threshold vm_rss vm_peak m in
    let noted = check_noted vm_rss vm_peak m peaks.0 in
    ap₂ (◌∷◌) noted.0 (
      checks-rises ms said.2 peaks.1
      ∙ ap (λ (b : Bool). rises b (map (λ (r : Bool × Bool). r.0) (checks ms said.2))) noted.1)
