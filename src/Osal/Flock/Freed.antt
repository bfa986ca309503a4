-- ===== src/Osal/Flock/Freed.antt =====
-- A lock that is freed while `osal_flock_timed_lock` waits for it: user/osal/src/lib/osal_flock.c.
use lpf.Common.{
  ℕ, zero, suc, ◌+◌, ◌-◌, ◌*◌, ◌/◌, ◌^◌, ◌≤◌, ◌<◌, ◌≡◌, refl, sym, subst, ap, ◌∙◌, ◌==◌, leb,
  leb→le, leb→lt, if_true, if_false, Bool-cases, false, not, ◌⊎◌, inl, inr, Option, none, some,
  arith,
}
use lpf.Osal.{osal_success, err_generic, err_busy, err_timeout}
use lpf.Osal.Flock.{
  LockType, Fcntl, LockOs, FileLock, elapsed_ms, timespec_of, flock_do_lock, Called, note_lock,
  flock_try_lock, after_attempt, poll, flock_timed_lock,
}
use lpf.Osal.Flock.Clock.{elapsed_ms_lem}
use lpf.Osal.Flock.Held.{FcntlLaws, noted}
use lpf.Osal.Flock.Polling.{ClockLaws, attempt-ret, attempt-later, flock_timed_lock-Settled}

module _ (os : LockOs) where
  open os use {State, setlk, monotonic, nanosleep}

  -- From a time on the lock can be had. Before it, `fcntl` may say EAGAIN, and a call that starts
  -- before it takes at most `wait` beyond it.
  pub record Frees (t : LockType) (free_at wait : ℕ) : Type 0 where
    pub free : (h : State) → free_at ≤ monotonic h → (setlk t h).0 ≡ Fcntl.done
    pub denied : (h : State) → ((setlk t h).0 ≡ Fcntl.done) ⊎ ((setlk t h).0 ≡ Fcntl.failed 11)
    pub prompt : (h : State) → monotonic h < free_at → monotonic (setlk t h).1 ≤ free_at + wait

  note_lock-done :
      (flock : FileLock) (t : LockType) (answer : Fcntl) (h' : State)
      → answer ≡ Fcntl.done
      → (note_lock os flock t (answer, h')).0 ≡ osal_success
  unfolding note_lock flock_do_lock
  note_lock-done flock t answer h' e =
      subst (λ (a : Fcntl). (note_lock os flock t (a, h')).0 ≡ osal_success) (sym e) refl

  note_lock-denied :
      (flock : FileLock) (t : LockType) (answer : Fcntl) (h' : State)
      → answer ≡ Fcntl.failed 11
      → (note_lock os flock t (answer, h')).0 ≡ err_busy
  unfolding note_lock flock_do_lock
  note_lock-denied flock t answer h' e =
      subst (λ (a : Fcntl). (note_lock os flock t (a, h')).0 ≡ err_busy) (sym e) refl

  module _ (laws : FcntlLaws os) (clock : ClockLaws os) where
    open clock use {below, signals, nanosleep_on}

    -- An attempt succeeds, or is denied before that time and ends soon after it.
    attempt :
        (t : LockType) (free_at wait : ℕ) (flock : FileLock) (h : State)
        → Frees t free_at wait
        → ((flock_try_lock os flock t h).0 ≡ osal_success)
          ⊎ (((flock_try_lock os flock t h).0 ≡ err_busy)
              × (monotonic ((flock_try_lock os flock t h).2) ≤ free_at + wait))
    unfolding flock_try_lock
    attempt t free_at wait flock h frees = elim (Bool-cases (leb free_at (monotonic h))) [
      | inl free ↦ inl (
          note_lock-done flock t (setlk t h).0 (setlk t h).1
            (frees.free h (leb→le free_at (monotonic h) free)))
      | inr early ↦ elim (frees.denied h) [
        | inl d ↦ inl (note_lock-done flock t (setlk t h).0 (setlk t h).1 d)
        | inr d ↦ inr (
          note_lock-denied flock t (setlk t h).0 (setlk t h).1 d,
          subst (λ (s : State). monotonic s ≤ free_at + wait)
              (sym ((attempt-ret os laws clock flock t (setlk t h).1 (setlk t h).0).1))
              (frees.prompt h (leb→lt free_at (monotonic h) early)),
        )
      ]
    ]

    -- A round that succeeds or is denied in time, before rounds that succeed.
    round-success :
        (next : FileLock → State → Option (Called os)) (start timeout_ms bound : ℕ)
        (c r : Called os)
        → bound + 1000000 ≤ start + timeout_ms * 1000000
        → start ≤ monotonic c.2
        → (c.0 ≡ osal_success) ⊎ ((c.0 ≡ err_busy) × (monotonic c.2 ≤ bound))
        → (monotonic c.2 ≤ bound → next c.1 (nanosleep 10000000 c.2) ≡ some r → r.0 ≡ osal_success)
        → after_attempt os next start timeout_ms c ≡ some r
        → r.0 ≡ osal_success
    unfolding after_attempt
    round-success next start timeout_ms bound (ret, l, h) r enough le (inl e) go returned =
        ap (λ (o : Option (Called os)). ret_of o)
          (sym returned ∙ if_true (ret == osal_success) _ _ (ground (arith, e)))
      where
        ret_of : Option (Called os) → ℕ
        ret_of none = 0
        ret_of (some x) = x.0
    round-success next start timeout_ms bound (ret, l, h) r enough le (inr (e, soon)) go returned =
        go soon (
          sym (
            if_false (ret == osal_success) _ _ (ground (arith, e))
            ∙ if_false (not (ret == err_busy)) _ _ (ground (arith, e))
            ∙ if_false (leb timeout_ms (elapsed_ms (timespec_of start) (timespec_of (monotonic h))))
                _ _
                (let n = (elapsed_ms_lem start (monotonic h) le (below h)).0 in
                  in_time _ _ (omega (arith, n, soon, enough, le))))
          ∙ returned)
      where
        in_time : (a b : ℕ) → b < a → leb a b ≡ false
        in_time a b lt = ground arith

    poll-success :
        (n start timeout_ms free_at wait : ℕ) (t : LockType) (flock : FileLock) (h : State)
        → (r : Called os) → Frees t free_at wait
        → free_at + wait + 1000000 ≤ start + timeout_ms * 1000000
        → start ≤ monotonic h
        → start < 2 ^ 61
        → timeout_ms < 2 ^ 32
        → poll os n start timeout_ms t flock h ≡ some r
        → r.0 ≡ osal_success
    unfolding poll
    poll-success zero start timeout_ms free_at wait t flock h r frees enough le early short e = cc e
    poll-success (suc n) start timeout_ms free_at wait t flock h r frees enough le early short e =
        let on = attempt-later os laws clock flock t h in
        round-success (λ l s. poll os n start timeout_ms t l s) start timeout_ms (free_at + wait)
          (flock_try_lock os flock t h) r enough (omega (arith, le, on))
          (attempt t free_at wait flock h frees)
          (λ soon.
            let then_ = nanosleep_on 10000000 ((flock_try_lock os flock t h).2) in
            poll-success n start timeout_ms free_at wait t ((flock_try_lock os flock t h).1)
              (nanosleep 10000000 ((flock_try_lock os flock t h).2)) r frees enough
              (omega (arith, le, on, then_)) early short)
          e

    -- With a steady clock, a lock that agrees with the kernel, a machine that has been up for less
    -- than 2^61 ns and a timeout of 32 bits: if another process keeps the lock until the time `free_at`, `fcntl`
    -- fails for no other reason, and a denied attempt takes at most `wait` ns beyond that time, then
    -- a call whose timeout ends at least a millisecond after both succeeds: it ends within
    -- timeout / 10 + 2 attempts, and one more for each signal to the process, with the code for success, and the process has the lock.
    pub flock_timed_lock-success :
        (flock : FileLock) (t : LockType) (timeout_ms free_at wait : ℕ) (h : State)
        → laws.held h ≡ noted flock
        → monotonic h < 2 ^ 61
        → (timeout_ms == 0) ≡ false
        → timeout_ms < 2 ^ 32
        → Frees t free_at wait
        → free_at + wait + 1000000 ≤ monotonic h + timeout_ms * 1000000
        → (r : Called os) × (flock_timed_lock os
              (suc (timeout_ms / 10 + 1 + signals h))
              flock
              t
              timeout_ms
              h
            ≡ some r)
          × (r.0 ≡ osal_success)
          × (laws.held r.2 ≡ some t)
    unfolding flock_timed_lock
    flock_timed_lock-success flock t timeout_ms free_at wait h ok early timed short frees enough =
        let s = flock_timed_lock-Settled os laws clock flock t timeout_ms h ok early timed short in
        let won =
          poll-success (suc (timeout_ms / 10 + 1 + signals h)) (monotonic h) timeout_ms free_at wait
            t flock h s.0 frees enough (omega arith) early short
            (sym (if_false (timeout_ms == 0) _ _ timed) ∙ s.1) in
        (s.0, s.1, won, has_lock s.0 won s.2.outcome)
      where
        has_lock :
            (r : Called os)
            → r.0 ≡ osal_success
            → ((r.0 ≡ osal_success) × (laws.held r.2 ≡ some t))
              ⊎ ((noted r.1 ≡ noted flock)
                  × ((r.0 ≡ err_generic)
                      ⊎ ((r.0 ≡ err_timeout)
                          × (timeout_ms * 1000000 < monotonic r.2 - monotonic h + 1000000))))
            → laws.held r.2 ≡ some t
        has_lock r won (inl (e, k)) = k
        has_lock r won (inr (k, inl e)) = absurd (omega (arith, won, e))
        has_lock r won (inr (k, inr (e, late))) = absurd (omega (arith, won, e))
