-- ===== src/Osal/Flock/Clock.antt =====
-- The milliseconds that `osal_flock_timed_lock` counts: user/osal/src/lib/osal_flock.c.
use lpf.Common.{
  ℕ, ◌+◌, ◌-◌, ◌*◌, ◌/◌, ◌%◌, ◌^◌, ◌≤◌, ◌<◌, ◌≡◌, refl, leb, if_elim, leb→le, leb→lt, arith,
}
use lpf.Osal.Flock.{timespec_of, elapsed_ms}

-- Seconds that do not run backwards, and the part of a second as the wrapped sum has it.
wrapped :
    (qs qn k m : ℕ)
    → qs ≤ qn
    → qn < 2 ^ 34
    → m ≡ ((qn + 2 ^ 64 - qs) * 1000 + k) % 2 ^ 64
    → k < 1000
    → m ≡ (qn - qs) * 1000 + k
wrapped qs qn k m le bound e small = omega (arith, e)

unwrapped :
    (qs qn k m : ℕ)
    → qs < qn
    → qn < 2 ^ 34
    → m ≡ ((qn + 2 ^ 64 - qs) * 1000 + (2 ^ 64 - k)) % 2 ^ 64
    → k < 1000
    → m ≡ (qn - qs) * 1000 - k
unwrapped qs qn k m le bound e small = omega (arith, e)

-- A count of milliseconds that is right to a millisecond.
abbrev pub Near : ℕ → ℕ → ℕ → Type 0
Near start now m = (m * 1000000 < now - start + 1000000) × (now - start < (m + 1) * 1000000)

fore-Near :
    (start now m : ℕ)
    → start ≤ now
    → start % 1000000000 ≤ now % 1000000000
    → m
      ≡ (now / 1000000000 - start / 1000000000) * 1000
        + (now % 1000000000 - start % 1000000000) / 1000000
    → Near start now m
fore-Near start now m le fore e = (omega (arith, e), omega (arith, e))

back-Near :
    (start now m : ℕ)
    → start ≤ now
    → now % 1000000000 < start % 1000000000
    → m
      ≡ (now / 1000000000 - start / 1000000000) * 1000
        - (start % 1000000000 - now % 1000000000) / 1000000
    → Near start now m
back-Near start now m le back e = (omega (arith, e), omega (arith, e))

-- The difference of two readings of the clock, in milliseconds, is right to a millisecond.
pub elapsed_ms_lem :
    (start now : ℕ)
    → start ≤ now
    → now < 2 ^ 63
    → Near start now (elapsed_ms (timespec_of start) (timespec_of now))
unfolding elapsed_ms
elapsed_ms_lem start now le bound =
    if_elim
      (λ (k : ℕ).
        Near start now (((now / 1000000000 + 2 ^ 64 - start / 1000000000) * 1000 + k) % 2 ^ 64))
      (leb (start % 1000000000) (now % 1000000000)) _ _
      (λ t. forth (leb→le (start % 1000000000) (now % 1000000000) t))
      (λ f. back (leb→lt (start % 1000000000) (now % 1000000000) f))
  where
    forth :
        start % 1000000000 ≤ now % 1000000000
        → Near start now (
            ((now / 1000000000 + 2 ^ 64 - start / 1000000000) * 1000
              + (now % 1000000000 - start % 1000000000) / 1000000)
            % 2 ^ 64)
    forth h = fore-Near start now _ le h (
        wrapped (start / 1000000000) (now / 1000000000) _ _ (omega arith) (omega arith) refl
          (omega arith))

    back :
        now % 1000000000 < start % 1000000000
        → Near start now (
            ((now / 1000000000 + 2 ^ 64 - start / 1000000000) * 1000
              + (2 ^ 64 - (start % 1000000000 - now % 1000000000) / 1000000))
            % 2 ^ 64)
    back h = back-Near start now _ le h (
        unwrapped (start / 1000000000) (now / 1000000000) _ _ (omega arith) (omega arith) refl
          (omega arith))
