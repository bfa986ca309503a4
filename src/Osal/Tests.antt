-- ===== src/Osal/Tests.antt =====
-- Runs of the user space OS abstraction layer.
use lpf.Common.{
  ◌==◌, ◌<◌, length, ℕ, ◌+◌, ◌-◌, ◌*◌, ◌^◌, ◌≤◌, ◌≡◌, refl, leb, if◌then◌else◌, if_elim, true,
  false, not, ◌&&◌, ◌≢◌, ◌↔◌, List, [], ◌∷◌, ◌⊎◌, inl, inr, Option, none, some, min, pos, arith,
}
use lpf.Common.Text.{text}
use lpf.Osal.{osal_success}
use lpf.Osal.Flock.{
  LockType, Fcntl, is_done, LockOs, FileLock, flock_timed_lock, Called, flock_destroy,
}
use lpf.Osal.Flock.Held.{FcntlLaws, call, noted, Honest, call-Honest, flock_destroy-held}
use lpf.Osal.Flock.Held
use lpf.Osal.Flock.Polling.{ClockLaws, Settled, flock_timed_lock-Settled}
use lpf.Osal.Flock.Freed.{Frees, flock_timed_lock-success}
use lpf.Osal.Heap.{
  Block, Heap, Outcome, block_magic, block_at, osal_realloc, info_of, usage_percent, Checked,
  heap_check_threshold,
}
use lpf.Osal.Heap.Accounts.{Accounted, After, Call, live_total, asks_all, run, run-Accounted}
use lpf.Osal.Heap.Blocks.{moved, osal_realloc-moved}
use lpf.Osal.Heap.Alerts.{heap_check_threshold_lem}

-- A machine on which another process has the lock until 25 ms after the clock's start, and on which
-- each of so many interrupts cuts a sleep short to 1 ms.
record Machine : Type 0 where
  time : ℕ
  mine : Option LockType
  interrupts : ℕ

abbrev ask : LockType → Machine → Fcntl × Machine
ask t h =
    if leb 25000000 h.time then (Fcntl.done, record h { mine = some t }) else (Fcntl.failed 11, h)

abbrev capped : ℕ → ℕ
capped n = min n (2 ^ 63 - 1)

abbrev doze : ℕ → Machine → Machine
doze n h =
    if h.interrupts == 0
    then record h { time = h.time + n }
    else record h { time = h.time + min n 1000000; interrupts = h.interrupts - 1 }

abbrev machine : LockOs
machine = record {
  State = Machine;
  setlk = ask;
  setlkw = λ t h. (Fcntl.done, record h { mine = some t });
  unlck = λ h. (Fcntl.done, record h { mine = none });
  close = λ h. record h { mine = none };
  monotonic = λ h. capped h.time;
  nanosleep = doze;
}

ask_done : (t : LockType) (h : Machine) → is_done (ask t h).0 ≡ true → (ask t h).1.mine ≡ some t
ask_done t h =
    if_elim (λ (r : Fcntl × Machine). is_done r.0 ≡ true → r.1.mine ≡ some t) (leb 25000000 h.time)
      _ _ (λ _ _. refl) (λ _ e. cc e)

ask_failed : (t : LockType) (h : Machine) → is_done (ask t h).0 ≡ false → (ask t h).1.mine ≡ h.mine
ask_failed t h =
    if_elim (λ (r : Fcntl × Machine). is_done r.0 ≡ false → r.1.mine ≡ h.mine) (leb 25000000 h.time)
      _ _ (λ _ e. cc e) (λ _ _. refl)

ask_time : (t : LockType) (h : Machine) → (ask t h).1.time ≡ h.time
ask_time t h =
    if_elim (λ (r : Fcntl × Machine). r.1.time ≡ h.time) (leb 25000000 h.time) _ _ (λ _. refl)
      (λ _. refl)

ask_interrupts : (t : LockType) (h : Machine) → (ask t h).1.interrupts ≡ h.interrupts
ask_interrupts t h =
    if_elim (λ (r : Fcntl × Machine). r.1.interrupts ≡ h.interrupts) (leb 25000000 h.time) _ _
      (λ _. refl) (λ _. refl)

doze_mine : (n : ℕ) (h : Machine) → (doze n h).mine ≡ h.mine
doze_mine n h =
    if_elim (λ (r : Machine). r.mine ≡ h.mine) (h.interrupts == 0) _ _ (λ _. refl) (λ _. refl)

-- A sleep moves the clock on, or uses up an interrupt.
record Dozed (n : ℕ) (h after_ : Machine) : Type 0 where
  on : h.time ≤ after_.time
  fewer : after_.interrupts ≤ h.interrupts
  later : (h.time + n ≤ after_.time) ⊎ (after_.interrupts + 1 ≤ h.interrupts)

doze-Dozed : (n : ℕ) (h : Machine) → Dozed n h (doze n h)
doze-Dozed n h =
    if_elim (Dozed n h) (h.interrupts == 0) _ _
      (λ _. record { on = omega arith; fewer = omega arith; later = inl (omega arith) })
      (λ f. record { on = omega arith; fewer = omega arith; later = inr (ground (arith, f)) })

dozed_later :
    (n : ℕ) (h : Machine)
    → n < 2 ^ 62
    → capped h.time < 2 ^ 62
    → (capped h.time + n ≤ capped ((doze n h).time)) ⊎ ((doze n h).interrupts + 1 ≤ h.interrupts)
dozed_later n h few soon = elim ((doze-Dozed n h).later) [
  | inl l ↦ inl (omega (arith, l, few, soon))
  | inr l ↦ inr l
]

never : (a b : Option LockType) → true ≡ false → a ≡ b
never a b e = cc e

abbrev machine_fcntl : FcntlLaws machine
machine_fcntl = record {
  held = λ h. h.mine;
  setlk_done = ask_done;
  setlk_failed = ask_failed;
  setlkw_done = λ t h e. refl;
  setlkw_failed = λ t h e. never (some t) h.mine e;
  unlck_done = λ h e. refl;
  unlck_failed = λ h e. never none h.mine e;
  nanosleep_held = doze_mine;
  close_held = λ h. refl;
}

abbrev machine_clock : ClockLaws machine
machine_clock = record {
  below = λ h. omega arith;
  setlk_later = λ t h. omega (arith, ask_time t h);
  signals = λ h. h.interrupts;
  setlk_signals = λ t h. omega (arith, ask_interrupts t h);
  nanosleep_on = λ n h. (let o = (doze-Dozed n h).on in omega (arith, o));
  nanosleep_signals = λ n h. (doze-Dozed n h).fewer;
  nanosleep_later = dozed_later;
}

machine-Frees : Frees machine LockType.exclusive 25000000 0
machine-Frees = record {
  free = λ h late.
      if_elim (λ (r : Fcntl × Machine). r.0 ≡ Fcntl.done) (leb 25000000 h.time) _ _ (λ _. refl)
        (λ f. absurd (ground (arith, f, late)));
  denied = λ h.
      if_elim (λ (r : Fcntl × Machine). (r.0 ≡ Fcntl.done) ⊎ (r.0 ≡ Fcntl.failed 11))
        (leb 25000000 h.time) _ _ (λ _. inl refl) (λ _. inr refl);
  prompt = λ h early. omega (arith, ask_time LockType.exclusive h, early);
}

abbrev closed_lock : FileLock
closed_lock = record {
  fd = pos 3;
  lock_file = text "/var/lock/lpf";
  current_type = LockType.shared;
  is_locked = false;
}

abbrev boot : Machine
boot = record { time = 1; mine = none; interrupts = 1 }

call-Honest_example :
    Honest machine machine_fcntl closed_lock
      (some LockType.shared)
      (call machine (Held.Call.try_lock LockType.shared) closed_lock boot)
call-Honest_example =
    call-Honest machine machine_fcntl (Held.Call.try_lock LockType.shared) closed_lock boot refl

flock_destroy-held_example :
    ((flock_destroy machine (some closed_lock) boot).0 ≡ osal_success)
    × ((flock_destroy machine (some closed_lock) boot).1.mine ≡ none)
flock_destroy-held_example = flock_destroy-held machine machine_fcntl closed_lock boot refl refl

flock_timed_lock-Settled_example :
    (r : Called machine) × (flock_timed_lock machine 5 closed_lock LockType.exclusive 20 boot
      ≡ some r)
    × Settled machine machine_fcntl machine_clock 1 20 closed_lock LockType.exclusive r
flock_timed_lock-Settled_example =
    flock_timed_lock-Settled machine machine_fcntl machine_clock closed_lock LockType.exclusive 20
      boot refl (omega arith) refl (omega arith)

flock_timed_lock-success_example :
    (r : Called machine) × (flock_timed_lock machine 6 closed_lock LockType.exclusive 30 boot
      ≡ some r)
    × (r.0 ≡ osal_success)
    × (r.2.mine ≡ some LockType.exclusive)
flock_timed_lock-success_example =
    flock_timed_lock-success machine machine_fcntl machine_clock closed_lock LockType.exclusive 30
      25000000 0 boot refl (omega arith) refl (omega arith) machine-Frees (omega arith)

-- A heap with a block of 4 bytes at 100.
abbrev one_block : Heap
one_block = record {
  monitor = record {
    threshold_percent = 80;
    peak_usage = 4;
    current_usage = 4;
    alert_triggered = false;
  };
  blocks =
      (record { address = 100; size = 4; magic = block_magic; bytes = 1 ∷ 2 ∷ 3 ∷ 4 ∷ [] }) ∷ [];
}

one_block-Accounted : Accounted 4 one_block
unfolding live_total
one_block-Accounted = record { current = refl; peak = omega arith; bounded = omega arith }

abbrev calls : List Call
calls =
    Call.malloc 8 (some (200, []))
    ∷ Call.realloc (some 100) 16 (some (300, []))
    ∷ Call.free (some 200)
    ∷ []

run-Accounted_example : After (Accounted (4 + asks_all calls)) (run calls one_block)
unfolding asks_all
run-Accounted_example = run-Accounted calls 4 one_block one_block-Accounted (omega arith)

abbrev its_block : Block
its_block = record { address = 100; size = 4; magic = block_magic; bytes = 1 ∷ 2 ∷ 3 ∷ 4 ∷ [] }

its_block_there : block_at 100 one_block.blocks ≡ some its_block
unfolding block_at
its_block_there = refl

osal_realloc-moved_example :
    ((h' : Heap) × (osal_realloc (some 100) 2 (some (200, 9 ∷ 9 ∷ [])) one_block
        ≡ Outcome.returned (some 200, h'))
      × (block_at 200 h'.blocks ≡ some (moved its_block 200 2 (9 ∷ 9 ∷ [])))
      × (length h'.blocks ≡ length one_block.blocks)
      × ((d : ℕ) → d ≢ 100 → d ≢ 200 → block_at d h'.blocks ≡ block_at d one_block.blocks))
    × (osal_realloc (some 100) 2 none one_block ≡ Outcome.returned (none, one_block))
osal_realloc-moved_example =
    osal_realloc-moved 100 200 2 (9 ∷ 9 ∷ []) one_block its_block its_block_there refl (omega arith)
      (omega arith) (λ e. absurd (omega (arith, e)))

heap_check_threshold_lem_example :
    let r : Checked = heap_check_threshold 900_000 1_000_000 one_block.monitor in
    ((r.0 ≡ true) ↔ (80 * 1_000_000 ≤ 900_000 * 100))
    × (r.1 ≡ (r.0 && not false))
    × (r.2.alert_triggered ≡ r.0)
    × (r.2.threshold_percent ≡ 80)
    × (r.2.current_usage ≡ 900_000)
heap_check_threshold_lem_example =
    heap_check_threshold_lem 900_000 1_000_000 one_block.monitor (omega arith) (omega arith)
      (omega arith)

-- At 90 percent of 50 MiB the 32-bit product wraps, and the percentage comes out as 8.
big_process : usage_percent (info_of 47_185_920 52_428_800) ≡ 8
unfolding usage_percent
big_process = refl
