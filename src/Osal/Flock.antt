-- ===== src/Osal/Flock.antt =====
-- File locks over `fcntl`: user/osal/src/lib/osal_flock.c.
pub mod Clock
pub mod Held
pub mod Freed
pub mod Polling
use lpf.Common.{
  ℕ, zero, suc, ◌+◌, ◌-◌, ◌*◌, ◌/◌, ◌%◌, ◌^◌, ◌==◌, ◌≡◌, ◌||◌, leb, if◌then◌else◌, Bool, true,
  false, not, Option, none, some, take, ℤ, is_neg, pos,
}
use lpf.Common.Text.{Text}
use lpf.Osal.{osal_success, err_generic, err_no_memory, err_invalid_pointer, err_busy, err_timeout}

pub data LockType : Type 0 where
  shared : LockType
  exclusive : LockType

-- What `fcntl` answers: success, or the `errno`.
pub data Fcntl : Type 0 where
  done : Fcntl
  failed : ℕ → Fcntl

abbrev pub is_done : Fcntl → Bool
is_done Fcntl.done = true
is_done (Fcntl.failed e) = false

-- The kernel calls of the file, for one open lock file: locking without and with waiting,
-- unlocking, closing, the monotonic clock in nanoseconds and `nanosleep`.
pub record LockOs : Type 1 where
  pub State : Type 0
  pub setlk : LockType → State → Fcntl × State
  pub setlkw : LockType → State → Fcntl × State
  pub unlck : State → Fcntl × State
  pub close : State → State
  pub monotonic : State → ℕ
  pub nanosleep : ℕ → State → State

-- `struct osal_flock_s`
pub record FileLock : Type 0 where
  pub fd : ℤ
  pub lock_file : Text
  pub current_type : LockType
  pub is_locked : Bool

pub record Timespec : Type 0 where
  pub tv_sec : ℕ
  pub tv_nsec : ℕ

-- `clock_gettime(CLOCK_MONOTONIC, ...)` of a time in nanoseconds
abbrev pub timespec_of : ℕ → Timespec
timespec_of t = record { tv_sec = t / 1000000000; tv_nsec = t % 1000000000 }

-- `(now.tv_nsec - start.tv_nsec) / 1000000` on `long`, which rounds towards zero, modulo 2^64
abbrev pub nsec_part : ℕ → ℕ → ℕ
nsec_part start now =
    if leb start now then (now - start) / 1000000 else 2 ^ 64 - (start - now) / 1000000

-- `elapsed_ms`, a `uint64_t`
unfoldable pub elapsed_ms : Timespec → Timespec → ℕ
elapsed_ms start now =
    ((now.tv_sec + 2 ^ 64 - start.tv_sec) * 1000 + nsec_part start.tv_nsec now.tv_nsec) % 2 ^ 64

-- `_flock_do_lock` and `_flock_do_unlock`, on what `fcntl` answered
unfoldable pub flock_do_lock : Fcntl → ℕ
flock_do_lock Fcntl.done = osal_success
flock_do_lock (Fcntl.failed errno) = if errno == 13 || errno == 11 then err_busy else err_generic

unfoldable pub flock_do_unlock : Fcntl → ℕ
flock_do_unlock Fcntl.done = osal_success
flock_do_unlock (Fcntl.failed errno) = err_generic

-- `osal_flock_create`: `opened` is the result of `open`.
unfoldable pub flock_create : Option Text → Bool → Bool → ℤ → ℕ × Option FileLock
flock_create none out allocated opened = (err_invalid_pointer, none)
flock_create (some lock_file) out allocated opened =
    if not out
    then (err_invalid_pointer, none)
    else if not allocated
    then (err_no_memory, none)
    else if is_neg opened
    then (err_generic, none)
    else (
      osal_success,
      some (record {
        fd = opened;
        lock_file = take 255 lock_file;
        current_type = LockType.shared;
        is_locked = false;
      }),
    )

module _ (os : LockOs) where
  open os use {State, setlk, setlkw, unlck, close, monotonic, nanosleep}

  -- What a call returns, and leaves.
  abbrev pub Called : Type 0
  Called = ℕ × FileLock × State

  unfoldable pub note_lock : FileLock → LockType → Fcntl × State → Called
  note_lock flock type (answer, h) =
      if flock_do_lock answer == osal_success
      then (osal_success, record flock { is_locked = true; current_type = type }, h)
      else (flock_do_lock answer, flock, h)

  -- `osal_flock_lock`, `osal_flock_try_lock` and `osal_flock_unlock` of a lock that is not NULL
  unfoldable pub flock_lock : FileLock → LockType → State → Called
  flock_lock flock type h = note_lock flock type (setlkw type h)

  unfoldable pub flock_try_lock : FileLock → LockType → State → Called
  flock_try_lock flock type h = note_lock flock type (setlk type h)

  unfoldable pub note_unlock : FileLock → Fcntl × State → Called
  note_unlock flock (answer, h) =
      if flock_do_unlock answer == osal_success
      then (osal_success, record flock { is_locked = false }, h)
      else (flock_do_unlock answer, flock, h)

  unfoldable pub flock_unlock : FileLock → State → Called
  flock_unlock flock h =
      if not flock.is_locked then (osal_success, flock, h) else note_unlock flock (unlck h)

  -- The rest of a round of the loop after the attempt, with the next round.
  unfoldable pub after_attempt : (FileLock → State → Option Called) → ℕ → ℕ → Called → Option Called
  after_attempt next start timeout_ms (ret, flock, h) =
      if ret == osal_success
      then some (osal_success, flock, h)
      else if not (ret == err_busy)
      then some (ret, flock, h)
      else if leb timeout_ms (elapsed_ms (timespec_of start) (timespec_of (monotonic h)))
      then some (err_timeout, flock, h)
      else next flock (nanosleep 10000000 h)

  -- The loop of `osal_flock_timed_lock`, on fuel
  unfoldable pub poll : ℕ → ℕ → ℕ → LockType → FileLock → State → Option Called
  poll zero start timeout_ms type flock h = none
  poll (suc n) start timeout_ms type flock h =
      after_attempt (λ l s. poll n start timeout_ms type l s) start timeout_ms
        (flock_try_lock flock type h)

  -- `osal_flock_timed_lock`
  unfoldable pub flock_timed_lock : ℕ → FileLock → LockType → ℕ → State → Option Called
  flock_timed_lock fuel flock type timeout_ms h =
      if timeout_ms == 0
      then some (flock_try_lock flock type h)
      else poll fuel (monotonic h) timeout_ms type flock h

  -- `osal_flock_destroy`
  unfoldable pub destroy_unlocked : Called → State
  destroy_unlocked (ret, flock, h) = if not (is_neg flock.fd) then close h else h

  unfoldable pub flock_destroy : Option FileLock → State → ℕ × State
  flock_destroy none h = (err_invalid_pointer, h)
  flock_destroy (some flock) h = (
    osal_success,
    destroy_unlocked (if flock.is_locked then flock_unlock flock h else (osal_success, flock, h)),
  )
