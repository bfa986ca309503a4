-- ===== src/Pdm/Mcu/UartWrite.antt =====
-- The loop that writes to a serial port: kernel/pdm/drivers/mcu/pdm_mcu_uart_serdev.c.
use lpf.Common.{
  ℕ, zero, suc, ◌+◌, ◌-◌, ◌%◌, ◌^◌, ltb, ◌≤◌, ◌<◌, ◌≡◌, refl, sym, ap, ◌∙◌, ◌==◌, ◌&&◌, ◌++◌,
  if◌then◌else◌, if_elim, if_true, if_false, Bool-cases, ◌⊎◌, inl, inr, Bool, true, false, not,
  List, [], ◌∷◌, take, drop, length, length-drop, Option, some, ℤ, pos, negsuc, is_neg, is_zero,
  eqz, arith,
}
use lpf.Pdm.Mcu.Uart.{
  SerialPort, eagain, time_after, deadline_of, done_or_timeout, write_stuck, write_took, write_loop,
  UartLink, put_port, write_bus,
}

take-nil : (m : ℕ) → take {A = ℕ} m [] ≡ []
take-nil zero = refl
take-nil (suc m) = refl

take-add : (n k : ℕ) (s : List ℕ) → take n s ++ take k (drop n s) ≡ take (n + k) s
take-add zero k s = ap (λ (m : ℕ). take m s) (omega arith)
take-add (suc n) k [] = take-nil k ∙ sym (take-nil (suc n + k))
take-add (suc n) k (x ∷ s) = ap (◌∷◌ x) (take-add n k s) ∙ ap (λ (m : ℕ). take m (x ∷ s)) shifted
  where
    shifted : suc (n + k) ≡ suc n + k
    shifted = omega arith

append_nil : (a : List ℕ) → a ++ [] ≡ a
append_nil [] = refl
append_nil (x ∷ a) = ap (◌∷◌ x) (append_nil a)

append_assoc : (a b c : List ℕ) → (a ++ b) ++ c ≡ a ++ (b ++ c)
append_assoc [] b c = refl
append_assoc (x ∷ a) b c = ap (◌∷◌ x) (append_assoc a b c)

module _ (serial : SerialPort) where
  open serial use {Port, write_buf, wait_until_sent, msleep, jiffies, msecs_to_jiffies}

  -- What the serial core says: the bytes that were taken go out in order, an error takes none, and the
  -- jiffies, far from their wrap, never go back and move on in a sleep.
  pub record SerialLaws : Type 0 where
    pub sent : Port → List ℕ
    pub took_some :
        (buf : List ℕ) (n : ℕ) (p : Port)
        → (write_buf buf p).0 ≡ pos n
        → (n ≤ length buf) × (sent (write_buf buf p).1 ≡ sent p ++ take n buf)
    pub took_none :
        (buf : List ℕ) (p : Port)
        → is_neg (write_buf buf p).0 ≡ true
        → sent (write_buf buf p).1 ≡ sent p
    pub wait_sent : (p : Port) → sent (wait_until_sent p) ≡ sent p
    pub msleep_sent : (p : Port) → sent (msleep p) ≡ sent p
    pub below : (p : Port) → jiffies p < 2 ^ 63
    pub write_later : (buf : List ℕ) (p : Port) → jiffies p ≤ jiffies (write_buf buf p).1
    pub wait_later : (p : Port) → jiffies p ≤ jiffies (wait_until_sent p)
    pub msleep_later : (p : Port) → jiffies p < 2 ^ 62 → jiffies p + 1 ≤ jiffies (msleep p)

  module _ (laws : SerialLaws) where
    open laws use {
      sent, took_some, took_none, wait_sent, msleep_sent, below, write_later, wait_later,
      msleep_later,
    }

    -- What a write leaves: the first bytes of the buffer went out after `before`, and it says how many
    -- and, unless these are all, the time is up; or it says an error.
    pub record Written (before buf : List ℕ) (deadline : ℕ) (r : ℤ × Port) : Type 0 where
      pub count : ℕ
      pub in_buf : count ≤ length buf
      pub sent_part : sent r.1 ≡ before ++ take count buf
      pub outcome :
          ((r.0 ≡ pos count) × ((count ≡ length buf) ⊎ (deadline < jiffies r.1)))
          ⊎ (is_neg r.0 ≡ true)

    time_after_lem : (a b : ℕ) → a < 2 ^ 63 → b < 2 ^ 63 → time_after a b ≡ ltb b a
    time_after_lem a b ha hb = ground (arith, ha, hb)

    abbrev Ends : List ℕ → List ℕ → ℕ → Option (ℤ × Port) → Type 0
    Ends before buf deadline o = (r : ℤ × Port) × (o ≡ some r) × Written before buf deadline r

    -- A round in which nothing was taken.
    stuck-Ends :
        (again : Port → Option (ℤ × Port)) (before buf : List ℕ) (deadline done : ℕ) (ret : ℤ)
        (p : Port)
        → deadline < 2 ^ 63
        → done ≤ length buf
        → sent p ≡ before ++ take done buf
        → (is_zero ret ≡ false → is_neg ret ≡ true)
        → (jiffies p ≤ deadline → Ends before buf deadline (again (msleep p)))
        → Ends before buf deadline (write_stuck serial again deadline done ret p)
    unfolding write_stuck done_or_timeout
    stuck-Ends again before buf deadline done ret p soon le here bad go =
        if_elim (Ends before buf deadline) (not (is_zero ret) && not (eqz ret eagain)) _ _
          (λ t. (
            (ret, p),
            refl,
            record {
              count = done;
              in_buf = le;
              sent_part = here;
              outcome = inr (bad (failed (is_zero ret) (not (eqz ret eagain)) t));
            },
          ))
          (λ _.
            if_elim (Ends before buf deadline) (time_after (jiffies p) deadline) _ _
              (λ t. (
                (done_or_timeout serial done, p),
                refl,
                record {
                  count = done;
                  in_buf = le;
                  sent_part = here;
                  outcome = late (sym (time_after_lem (jiffies p) deadline (below p) soon) ∙ t);
                },
              ))
              (λ f. go (early (sym (time_after_lem (jiffies p) deadline (below p) soon) ∙ f))))
      where
        failed : (a b : Bool) → (not a && b) ≡ true → a ≡ false
        failed true b e = cc e
        failed false b e = refl

        early : ltb deadline (jiffies p) ≡ false → jiffies p ≤ deadline
        early f = ground (arith, f)

        after : ltb deadline (jiffies p) ≡ true → deadline < jiffies p
        after t = ground (arith, t)

        late :
            ltb deadline (jiffies p) ≡ true
            → ((done_or_timeout serial done ≡ pos done)
                × ((done ≡ length buf) ⊎ (deadline < jiffies p)))
              ⊎ (is_neg (done_or_timeout serial done) ≡ true)
        late t = elim (Bool-cases (done == 0)) [
          | inl z ↦ inr (ap is_neg (if_true (done == 0) _ _ z))
          | inr n ↦ inl (if_false (done == 0) _ _ n, inr (after t))
        ]

    -- A round after what `serdev_device_write_buf` took.
    took-Ends :
        (next : ℕ → Port → Option (ℤ × Port)) (before buf : List ℕ) (deadline done : ℕ) (p : Port)
        → (r : ℤ × Port) → deadline < 2 ^ 63
        → done ≤ length buf
        → sent p ≡ before ++ take done buf
        → ((n : ℕ)
            → r.0 ≡ pos n
            → (n ≤ length buf - done) × (sent r.1 ≡ sent p ++ take n (drop done buf)))
        → (is_neg r.0 ≡ true → sent r.1 ≡ sent p)
        → ((n : ℕ) (q : Port)
            → jiffies r.1 ≤ jiffies q
            → 1 ≤ n
            → done + n ≤ length buf
            → sent q ≡ before ++ take (done + n) buf
            → Ends before buf deadline (next (done + n) q))
        → (jiffies r.1 ≤ deadline
            → sent (msleep r.1) ≡ before ++ take done buf
            → Ends before buf deadline (next done (msleep r.1)))
        → Ends before buf deadline (write_took serial next deadline done r)
    unfolding write_took
    took-Ends next before buf deadline done p (pos zero, q) soon le here some_ none_ go again =
        stuck-Ends (next done) before buf deadline done (pos zero) q soon le same (λ e. cc e)
          (λ early. again early (msleep_sent q ∙ same))
      where
        same : sent q ≡ before ++ take done buf
        same = (some_ 0 refl).1 ∙ append_nil (sent p) ∙ here
    took-Ends next before buf deadline done p (pos (suc n), q) soon le here some_ none_ go again =
        go (suc n) (wait_until_sent q) (wait_later q) (omega arith)
          (let k = (some_ (suc n) refl).0 in omega (arith, k, le))
          (wait_sent q
            ∙ (some_ (suc n) refl).1
            ∙ ap (λ (a : List ℕ). a ++ take (suc n) (drop done buf)) here
            ∙ append_assoc before (take done buf) (take (suc n) (drop done buf))
            ∙ ap (λ (a : List ℕ). before ++ a) (take-add done (suc n) buf))
    took-Ends next before buf deadline done p (negsuc e, q) soon le here some_ none_ go again =
        stuck-Ends (next done) before buf deadline done (negsuc e) q soon le same (λ z. refl)
          (λ early. again early (msleep_sent q ∙ same))
      where
        same : sent q ≡ before ++ take done buf
        same = none_ refl ∙ here

    write_loop-Ends :
        (fuel : ℕ) (before buf : List ℕ) (deadline done : ℕ) (p : Port)
        → deadline < 2 ^ 62
        → done ≤ length buf
        → sent p ≡ before ++ take done buf
        → (length buf - done) + (deadline + 1 - jiffies p) < fuel
        → Ends before buf deadline (write_loop serial fuel buf deadline done p)
    unfolding write_loop
    write_loop-Ends zero before buf deadline done p soon le here few = absurd (omega (arith, few))
    write_loop-Ends (suc fuel) before buf deadline done p soon le here few =
        if_elim (Ends before buf deadline) (not (ltb done (length buf))) _ _
          (λ t. (
            (pos done, p),
            refl,
            record {
              count = done;
              in_buf = le;
              sent_part = here;
              outcome = inl (refl, inl (ground (arith, t, le)));
            },
          ))
          (λ f.
            let on = write_later (drop done buf) p in
            took-Ends (λ d q. write_loop serial fuel buf deadline d q) before buf deadline done p
              (write_buf (drop done buf) p) (omega (arith, soon)) le here
              (λ n e.
                let k = took_some (drop done buf) n p e in
                ((let b = k.0 in omega (arith, b, length-drop done buf)), k.1))
              (took_none (drop done buf) p)
              (λ n q later one fits now.
                write_loop-Ends fuel before buf deadline (done + n) q soon fits now
                  (omega (arith, few, on, later, one, fits)))
              (λ early now.
                let then_ =
                  msleep_later (write_buf (drop done buf) p).1 (omega (arith, early, soon)) in
                write_loop-Ends fuel before buf deadline done
                  (msleep (write_buf (drop done buf) p).1) soon le now
                  (omega (arith, few, on, then_, early))))

    -- On an open serial port whose clock is far from its wrap, a write of a buffer ends, within its
    -- length and the jiffies of the timeout, and two, rounds. Then a first part of the buffer went
    -- out, in order and once; and the result is the number of these bytes, which is the length of the
    -- buffer or the deadline has passed, or an error.
    pub write_bus-Written :
        (buf : List ℕ) (h : UartLink serial) (wait : ℕ)
        → h.serdev ≡ true
        → wait ≡ msecs_to_jiffies (if h.rx_timeout_ms == 0 then 1 else h.rx_timeout_ms)
        → jiffies h.port + wait < 2 ^ 62
        → (r : ℤ × UartLink serial) × (write_bus serial (suc (length buf + wait + 1)) buf h
            ≡ some r)
          × Written (sent h.port) buf (jiffies h.port + wait) (r.0, (r.1).port)
    unfolding write_bus put_port deadline_of
    write_bus-Written buf h wait opened its room =
        let w =
          write_loop-Ends (suc (length buf + wait + 1)) (sent h.port) buf (jiffies h.port + wait) 0
            h.port room (omega arith) (sym (append_nil (sent h.port))) (omega arith) in
        (
          (w.0.0, record h { port = w.0.1 }),
          if_false (not h.serdev) _ _ (ap not opened)
              ∙ ap
                  (λ (d : ℕ).
                    put_port serial h
                      (write_loop serial (suc (length buf + wait + 1)) buf d 0 h.port))
                  (ap (λ (k : ℕ). (jiffies h.port + k) % 2 ^ 64) (sym its) ∙ omega (arith, room))
              ∙ ap (put_port serial h) w.1,
          w.2,
        )
