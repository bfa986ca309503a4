-- ===== src/Osal/Flock/Held.antt =====
-- The lock that the structure notes and the lock that the kernel has: user/osal/src/lib/osal_flock.c.
use lpf.Common.{
  ℕ, ◌≡◌, refl, sym, subst, unnegate_false, unnegate_true, ap, ◌∙◌, ◌==◌, ◌||◌, if◌then◌else◌,
  if_elim, if_false, true, false, not, Option, none, some, is_neg, arith,
}
use lpf.Osal.{osal_success, err_generic, err_busy}
use lpf.Osal.Flock.{
  LockType, Fcntl, is_done, LockOs, FileLock, flock_do_lock, flock_do_unlock, Called, note_lock,
  flock_lock, flock_try_lock, note_unlock, flock_unlock, destroy_unlocked, flock_destroy,
}

-- The lock that the structure notes.
abbrev pub noted : FileLock → Option LockType
noted flock = if flock.is_locked then some flock.current_type else none

-- The calls that take no timeout.
pub data Call : Type 0 where
  lock : LockType → Call
  try_lock : LockType → Call
  unlock : Call

module _ (os : LockOs) where
  open os use {State, setlk, setlkw, unlck, close, nanosleep}

  -- What fcntl(2) and close(2) say of the lock that the process has on the file: a call that fails
  -- leaves it as it was, and closing the file gives it up.
  pub record FcntlLaws : Type 0 where
    pub held : State → Option LockType
    pub setlk_done :
        (t : LockType) (h : State) → is_done (setlk t h).0 ≡ true → held (setlk t h).1 ≡ some t
    pub setlk_failed :
        (t : LockType) (h : State) → is_done (setlk t h).0 ≡ false → held (setlk t h).1 ≡ held h
    pub setlkw_done :
        (t : LockType) (h : State) → is_done (setlkw t h).0 ≡ true → held (setlkw t h).1 ≡ some t
    pub setlkw_failed :
        (t : LockType) (h : State) → is_done (setlkw t h).0 ≡ false → held (setlkw t h).1 ≡ held h
    pub unlck_done : (h : State) → is_done (unlck h).0 ≡ true → held (unlck h).1 ≡ none
    pub unlck_failed : (h : State) → is_done (unlck h).0 ≡ false → held (unlck h).1 ≡ held h
    pub nanosleep_held : (n : ℕ) (h : State) → held (nanosleep n h) ≡ held h
    pub close_held : (h : State) → held (close h) ≡ none

  unfoldable pub call : Call → FileLock → State → Called os
  call (Call.lock t) flock h = flock_lock os flock t h
  call (Call.try_lock t) flock h = flock_try_lock os flock t h
  call Call.unlock flock h = flock_unlock os flock h

  module _ (laws : FcntlLaws) where
    open laws use {
      held, setlk_done, setlk_failed, setlkw_done, setlkw_failed, unlck_done, unlck_failed,
      close_held,
    }

    -- What a call left agrees with the kernel; success says that the lock is as asked, and anything
    -- else that it is as before.
    pub record Honest (before : FileLock) (asked : Option LockType) (r : Called os) : Type 0 where
      pub agree : held r.2 ≡ noted r.1
      pub open_still : r.1.fd ≡ before.fd
      pub success : r.0 ≡ osal_success → held r.2 ≡ asked
      pub failure : (r.0 == osal_success) ≡ false → noted r.1 ≡ noted before

    note_lock-Honest :
        (flock : FileLock) (t : LockType) (h h' : State) (answer : Fcntl)
        → held h ≡ noted flock
        → (is_done answer ≡ true → held h' ≡ some t)
        → (is_done answer ≡ false → held h' ≡ held h)
        → Honest flock (some t) (note_lock os flock t (answer, h'))
    unfolding note_lock flock_do_lock
    note_lock-Honest flock t h h' Fcntl.done ok ends fails = record {
      agree = ends refl;
      open_still = refl;
      success = λ _. ends refl;
      failure = λ e. cc e;
    }
    note_lock-Honest flock t h h' (Fcntl.failed errno) ok ends fails =
        if_elim
          (λ (r : ℕ). Honest flock (some t) (
            if r == osal_success
            then (osal_success, record flock { is_locked = true; current_type = t }, h')
            else (r, flock, h')))
          (errno == 13 || errno == 11) _ _ (λ _. kept err_busy refl) (λ _. kept err_generic refl)
      where
        kept :
            (n : ℕ)
            → (n == osal_success) ≡ false
            → Honest flock (some t) (
                if n == osal_success
                then (osal_success, record flock { is_locked = true; current_type = t }, h')
                else (n, flock, h'))
        kept n bad =
            subst (Honest flock (some t)) (sym (if_false (n == osal_success) _ _ bad)) (record {
              agree = fails refl ∙ ok;
              open_still = refl;
              success = λ e. absurd (ground (arith, bad, e));
              failure = λ _. refl;
            })

    pub flock_try_lock-Honest :
        (flock : FileLock) (t : LockType) (h : State)
        → held h ≡ noted flock
        → Honest flock (some t) (flock_try_lock os flock t h)
    unfolding flock_try_lock
    flock_try_lock-Honest flock t h ok =
        note_lock-Honest flock t h (setlk t h).1 (setlk t h).0 ok (setlk_done t h)
          (setlk_failed t h)

    note_unlock-Honest :
        (flock : FileLock) (h h' : State) (answer : Fcntl)
        → held h ≡ noted flock
        → (is_done answer ≡ true → held h' ≡ none)
        → (is_done answer ≡ false → held h' ≡ held h)
        → Honest flock none (note_unlock os flock (answer, h'))
    unfolding note_unlock flock_do_unlock
    note_unlock-Honest flock h h' Fcntl.done ok ends fails = record {
      agree = ends refl;
      open_still = refl;
      success = λ _. ends refl;
      failure = λ e. cc e;
    }
    note_unlock-Honest flock h h' (Fcntl.failed errno) ok ends fails = record {
      agree = fails refl ∙ ok;
      open_still = refl;
      success = λ e. cc e;
      failure = λ _. refl;
    }

    flock_unlock-Honest :
        (flock : FileLock) (h : State)
        → held h ≡ noted flock
        → Honest flock none (flock_unlock os flock h)
    unfolding flock_unlock
    flock_unlock-Honest flock h ok =
        if_elim (Honest flock none) (not flock.is_locked) _ _
          (λ f. record {
            agree = ok;
            open_still = refl;
            success = λ _. ok ∙ if_false flock.is_locked _ _ (unnegate_false flock.is_locked f);
            failure = λ _. refl;
          })
          (λ _.
            note_unlock-Honest flock h (unlck h).1 (unlck h).0 ok (unlck_done h) (unlck_failed h))

    -- The lock that a call asks for.
    abbrev asked : Call → Option LockType
    asked (Call.lock t) = some t
    asked (Call.try_lock t) = some t
    asked Call.unlock = none

    -- If the structure notes the lock that the kernel holds, then a call without a timeout leaves it
    -- so on every branch: success means that the kernel holds what was asked for, and any other result
    -- that the noted lock is as it was.
    pub call-Honest :
        (c : Call) (flock : FileLock) (h : State)
        → held h ≡ noted flock
        → Honest flock (asked c) (call c flock h)
    unfolding call flock_lock
    call-Honest (Call.lock t) flock h ok =
        note_lock-Honest flock t h (setlkw t h).1 (setlkw t h).0 ok (setlkw_done t h)
          (setlkw_failed t h)
    call-Honest (Call.try_lock t) flock h ok = flock_try_lock-Honest flock t h ok
    call-Honest Call.unlock flock h ok = flock_unlock-Honest flock h ok

    destroy_unlocked-held :
        (r : Called os) → is_neg r.1.fd ≡ false → held (destroy_unlocked os r) ≡ none
    unfolding destroy_unlocked
    destroy_unlocked-held (ret, flock, h) opened =
        if_elim (λ (s : State). held s ≡ none) (not (is_neg flock.fd)) _ _ (λ _. close_held h)
          (λ f. cc (opened, unnegate_true (is_neg flock.fd) f))

    -- Destroying an open file lock succeeds and leaves the process without a lock on the file, also
    -- if the unlocking fails.
    pub flock_destroy-held :
        (flock : FileLock) (h : State)
        → is_neg flock.fd ≡ false
        → held h ≡ noted flock
        → ((flock_destroy os (some flock) h).0 ≡ osal_success)
          × (held (flock_destroy os (some flock) h).1 ≡ none)
    unfolding flock_destroy
    flock_destroy-held flock h opened ok = (
      refl,
      if_elim (λ (r : Called os). held (destroy_unlocked os r) ≡ none) flock.is_locked _ _
          (λ _.
            destroy_unlocked-held _
              (ap is_neg ((flock_unlock-Honest flock h ok).open_still) ∙ opened))
          (λ _. destroy_unlocked-held _ opened),
    )
