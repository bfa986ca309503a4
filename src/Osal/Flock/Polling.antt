-- ===== src/Osal/Flock/Polling.antt =====
-- The polling loop of `osal_flock_timed_lock`: user/osal/src/lib/osal_flock.c.
use lpf.Common.{
  ℕ, zero, suc, ◌+◌, ◌-◌, ◌*◌, ◌/◌, ◌^◌, ◌≤◌, ◌<◌, ◌≡◌, refl, sym, subst, ◌∙◌, ◌==◌, ◌||◌, leb,
  leb→le, leb→lt, if◌then◌else◌, if_elim, if_true, if_false, Bool-cases, true, false, not, ◌⊎◌, inl,
  inr, Option, some, arith,
}
use lpf.Osal.{osal_success, err_generic, err_busy, err_timeout}
use lpf.Osal.Flock.{
  LockType, Fcntl, LockOs, FileLock, elapsed_ms, timespec_of, flock_do_lock, Called, note_lock,
  flock_try_lock, after_attempt, poll, flock_timed_lock,
}
use lpf.Osal.Flock.Clock.{Near, elapsed_ms_lem}
use lpf.Osal.Flock.Held.{FcntlLaws, noted, Honest, flock_try_lock-Honest}

module _ (os : LockOs) where
  open os use {State, setlk, monotonic, nanosleep}

  -- A clock of nanoseconds that does not run backwards and is below 2^63. A sleep moves it on by its
  -- length, as long as neither is 2^62 ns (146 years), unless a signal to the process ends it early;
  -- `signals` is how many of these are still to come.
  pub record ClockLaws : Type 0 where
    pub below : (h : State) → monotonic h < 2 ^ 63
    pub setlk_later : (t : LockType) (h : State) → monotonic h ≤ monotonic (setlk t h).1
    pub signals : State → ℕ
    pub setlk_signals : (t : LockType) (h : State) → signals (setlk t h).1 ≤ signals h
    pub nanosleep_on : (n : ℕ) (h : State) → monotonic h ≤ monotonic (nanosleep n h)
    pub nanosleep_signals : (n : ℕ) (h : State) → signals (nanosleep n h) ≤ signals h
    pub nanosleep_later :
        (n : ℕ) (h : State)
        → n < 2 ^ 62
        → monotonic h < 2 ^ 62
        → (monotonic h + n ≤ monotonic (nanosleep n h)) ⊎ (signals (nanosleep n h) + 1 ≤ signals h)

  module _ (laws : FcntlLaws os) (clock : ClockLaws) where
    open laws use {held, nanosleep_held}
    open clock use {
      below, setlk_later, signals, setlk_signals, nanosleep_on, nanosleep_signals, nanosleep_later,
    }

    -- What a call with a timeout leaves: it agrees with the kernel; it has the lock, or the time is
    -- up to a millisecond and the lock is as before, or `fcntl` failed for another reason.
    pub record Settled (start timeout_ms : ℕ) (before : FileLock) (t : LockType) (r : Called os)
        : Type 0 where
      pub agree : held r.2 ≡ noted r.1
      pub outcome :
          ((r.0 ≡ osal_success) × (held r.2 ≡ some t))
          ⊎ ((noted r.1 ≡ noted before)
              × ((r.0 ≡ err_generic)
                  ⊎ ((r.0 ≡ err_timeout)
                      × (timeout_ms * 1000000 < monotonic r.2 - start + 1000000))))

    -- How an attempt ends, and that it does not turn the clock back.
    pub attempt-ret :
        (flock : FileLock) (t : LockType) (h' : State) (answer : Fcntl)
        → (((note_lock os flock t (answer, h')).0 ≡ osal_success)
            ⊎ (((note_lock os flock t (answer, h')).0 ≡ err_busy)
                ⊎ ((note_lock os flock t (answer, h')).0 ≡ err_generic)))
          × ((note_lock os flock t (answer, h')).2 ≡ h')
    unfolding note_lock flock_do_lock
    attempt-ret flock t h' Fcntl.done = (inl refl, refl)
    attempt-ret flock t h' (Fcntl.failed errno) =
        if_elim
          (λ (r : ℕ).
            let c : Called os =
              (if r == osal_success
                then (osal_success, record flock { is_locked = true; current_type = t }, h')
                else (r, flock, h')) in
            ((c.0 ≡ osal_success) ⊎ ((c.0 ≡ err_busy) ⊎ (c.0 ≡ err_generic))) × (c.2 ≡ h'))
          (errno == 13 || errno == 11) _ _ (λ _. (inr (inl refl), refl))
          (λ _. (inr (inr refl), refl))

    -- A round that does not sleep settles, and one that sleeps leaves the time for the next.
    round-Settled :
        (next : FileLock → State → Option (Called os)) (start timeout_ms : ℕ) (t : LockType)
        → (before flock : FileLock) (r : Called os) → Honest os laws flock (some t) r
        → noted flock ≡ noted before
        → ((r.0 ≡ osal_success) ⊎ ((r.0 ≡ err_busy) ⊎ (r.0 ≡ err_generic)))
        → start ≤ monotonic r.2
        → (monotonic r.2 - start < timeout_ms * 1000000
            → held r.2 ≡ noted r.1
            → noted r.1 ≡ noted before
            → (s : Called os) × (next r.1 (nanosleep 10000000 r.2) ≡ some s)
              × Settled start timeout_ms before t s)
        → (s : Called os) × (after_attempt os next start timeout_ms r ≡ some s)
          × Settled start timeout_ms before t s
    unfolding after_attempt
    round-Settled next start timeout_ms t before flock (ret, l, h) honest same (inl e) le go = (
      (osal_success, l, h),
      if_true (ret == osal_success) _ _ (ground (arith, e)),
      record { agree = honest.agree; outcome = inl (refl, honest.success e) },
    )
    round-Settled next start timeout_ms t before flock (ret, l, h) honest same (inr (inr e)) le go =
        (
          (ret, l, h),
          if_false (ret == osal_success) _ _ (ground (arith, e))
              ∙ if_true (not (ret == err_busy)) _ _ (ground (arith, e)),
          record {
            agree = honest.agree;
            outcome = inr (honest.failure (ground (arith, e)) ∙ same, inl e);
          },
        )
    round-Settled next start timeout_ms t before flock (ret, l, h) honest same (inr (inl e)) le go =
        elim (Bool-cases
          (leb timeout_ms (elapsed_ms (timespec_of start) (timespec_of (monotonic h))))) [
            | inl late ↦ (
              (err_timeout, l, h),
              busy ∙ if_true (leb timeout_ms _) _ _ late,
              record {
                agree = honest.agree;
                outcome = inr (kept, inr (refl, up (leb→le timeout_ms _ late)));
              },
            )
            | inr soon ↦
                let s = go (left (leb→lt timeout_ms _ soon)) honest.agree kept in
                (s.0, busy ∙ if_false (leb timeout_ms _) _ _ soon ∙ s.1, s.2)
          ]
      where
        kept : noted l ≡ noted before
        kept = honest.failure (ground (arith, e)) ∙ same

        ms : ℕ
        ms = elapsed_ms (timespec_of start) (timespec_of (monotonic h))

        near : Near start (monotonic h) (elapsed_ms (timespec_of start) (timespec_of (monotonic h)))
        near = elapsed_ms_lem start (monotonic h) le (below h)

        up :
            timeout_ms ≤ elapsed_ms (timespec_of start) (timespec_of (monotonic h))
            → timeout_ms * 1000000 < monotonic h - start + 1000000
        up k = (let n = near.0 in omega (arith, k, n))

        left :
            elapsed_ms (timespec_of start) (timespec_of (monotonic h)) < timeout_ms
            → monotonic h - start < timeout_ms * 1000000
        left k = (let n = near.1 in omega (arith, k, n))

        busy : after_attempt os next start timeout_ms (ret, l, h) ≡ (
            if leb timeout_ms (elapsed_ms (timespec_of start) (timespec_of (monotonic h)))
            then some (err_timeout, l, h)
            else next l (nanosleep 10000000 h))
        busy =
            if_false (ret == osal_success) _ _ (ground (arith, e))
            ∙ if_false (not (ret == err_busy)) _ _ (ground (arith, e))

    pub attempt-later :
        (flock : FileLock) (t : LockType) (h : State)
        → monotonic h ≤ monotonic ((flock_try_lock os flock t h).2)
    unfolding flock_try_lock
    attempt-later flock t h =
        subst (λ (s : State). monotonic h ≤ monotonic s)
          (sym ((attempt-ret flock t (setlk t h).1 (setlk t h).0).1)) (setlk_later t h)

    attempt-signals :
        (flock : FileLock) (t : LockType) (h : State)
        → signals ((flock_try_lock os flock t h).2) ≤ signals h
    unfolding flock_try_lock
    attempt-signals flock t h =
        subst (λ (s : State). signals s ≤ signals h)
          (sym ((attempt-ret flock t (setlk t h).1 (setlk t h).0).1)) (setlk_signals t h)

    -- A sleep between two attempts uses up the time of a round, or a signal.
    slept :
        (before after_ sig sig' fuel bound : ℕ)
        → (before + 10000000 ≤ after_) ⊎ (sig' + 1 ≤ sig)
        → before ≤ after_
        → sig' ≤ sig
        → bound + sig * 10000000 ≤ before + fuel * 10000000 + 10000000
        → bound + sig' * 10000000 ≤ after_ + fuel * 10000000
    slept before after_ sig sig' fuel bound (inl late) on less le = omega (arith, late, less, le)
    slept before after_ sig sig' fuel bound (inr fewer) on less le = omega (arith, fewer, on, le)

    -- The loop ends, with fuel for the rounds that the time leaves.
    poll-Settled :
        (n start timeout_ms : ℕ) (t : LockType) (before flock : FileLock) (h : State)
        → held h ≡ noted flock
        → noted flock ≡ noted before
        → start ≤ monotonic h
        → start < 2 ^ 61
        → timeout_ms < 2 ^ 32
        → start + timeout_ms * 1000000 + signals h * 10000000 ≤ monotonic h + n * 10000000
        → (r : Called os) × (poll os (suc n) start timeout_ms t flock h ≡ some r)
          × Settled start timeout_ms before t r
    unfolding poll flock_try_lock
    poll-Settled zero start timeout_ms t before flock h ok same le early short fuel =
        let on = attempt-later flock t h in
        round-Settled (λ l s. poll os zero start timeout_ms t l s) start timeout_ms t before flock
          (flock_try_lock os flock t h) (flock_try_lock-Honest os laws flock t h ok) same
          ((attempt-ret flock t (setlk t h).1 (setlk t h).0).0) (omega (arith, on))
          (λ soon a b. absurd (omega (arith, on, soon, fuel)))
    poll-Settled (suc m) start timeout_ms t before flock h ok same le early short fuel =
        let on = attempt-later flock t h in
        round-Settled (λ l s. poll os (suc m) start timeout_ms t l s) start timeout_ms t before
          flock (flock_try_lock os flock t h) (flock_try_lock-Honest os laws flock t h ok) same
          ((attempt-ret flock t (setlk t h).1 (setlk t h).0).0) (omega (arith, on))
          (λ soon a b.
            let s = (flock_try_lock os flock t h).2 in
            let then_ = nanosleep_on 10000000 s in
            let some_sig = attempt-signals flock t h in
            let spent =
              slept (monotonic s) (monotonic (nanosleep 10000000 s)) (signals s)
                (signals (nanosleep 10000000 s)) m (start + timeout_ms * 1000000)
                (nanosleep_later 10000000 s (omega arith) (omega (arith, on, soon))) then_
                (nanosleep_signals 10000000 s) (omega (arith, fuel, on, some_sig)) in
            poll-Settled m start timeout_ms t before ((flock_try_lock os flock t h).1)
              (nanosleep 10000000 ((flock_try_lock os flock t h).2)) (nanosleep_held _ _ ∙ a) b
              (omega (arith, on, then_)) early short spent)

    -- With a steady clock, a machine that has been up for less than 2^61 ns, and a timeout of 32 bits,
    -- a call on a lock that agrees with the kernel ends within timeout / 10 + 2 attempts and one more for
    -- each signal to the process. Then the structure and the kernel agree again, and either the call says success and the process has the
    -- lock, or the lock is as before and the call says that `fcntl` failed or that the time is up,
    -- and it was up to less than a millisecond.
    pub flock_timed_lock-Settled :
        (flock : FileLock) (t : LockType) (timeout_ms : ℕ) (h : State)
        → held h ≡ noted flock
        → monotonic h < 2 ^ 61
        → (timeout_ms == 0) ≡ false
        → timeout_ms < 2 ^ 32
        → (r : Called os) × (flock_timed_lock os
              (suc (timeout_ms / 10 + 1 + signals h))
              flock
              t
              timeout_ms
              h
            ≡ some r)
          × Settled (monotonic h) timeout_ms flock t r
    unfolding flock_timed_lock
    flock_timed_lock-Settled flock t timeout_ms h ok early timed short =
        subst
          (λ (o : Option (Called os)).
            (r : Called os) × (o ≡ some r) × Settled (monotonic h) timeout_ms flock t r)
          (sym (if_false (timeout_ms == 0) _ _ timed))
          (poll-Settled (timeout_ms / 10 + 1 + signals h) (monotonic h) timeout_ms t flock flock h
            ok refl (omega arith) early short (omega arith))
