-- ===== src/Osal/Log/Runs.antt =====
-- Sequences of calls of the log: user/osal/src/util/osal_log.c.
use lpf.Common.{
  ℕ, ◌<◌, ◌≡◌, refl, ap, ◌∙◌, ltb, if◌then◌else◌, if_elim, unnegate_true, Bool, true, false, not,
  List, [], ◌∷◌, ◌++◌, Option, none, some, ℤ, arith,
}
use lpf.Common.Text.{Text, text}
use lpf.Common.Decimal.{decimal_int}
use lpf.Osal.Log.{
  is_ready, is_open, World, LogOs, Log, level_of, log_start, log_init, log_shutdown, log_set_level,
  put_filter, log_set_filter, log_set_sampling, log_set_remote, log_disable_remote,
  log_set_max_file_size, log_set_max_files, should_log,
}
use lpf.Osal.Log.Emit.{
  KvPair, check_and_rotate_log, output, message_size, printed, kv_text, extract_filename,
  emit_judged, log_internal_ex, emit_level, log_emit, log_internal, log_level, osal_log,
  structured_judged, structured_level, log_structured,
}
use lpf.Osal.Log.Life.{
  with_level-Sane, log_init-Sane, log_shutdown-Sane, log_set_remote-Sane, log_disable_remote-Sane,
}
use lpf.Osal.Log.Counts.{
  Sane, Left, log_start-Sane, should_log-Sane, should_log-status, check_and_rotate_log-Sane,
  output-Sane,
}

-- The calls of the log, with what the system answers; a message comes as it is formatted.
pub data Call : Type 0 where
  init : Option Text → ℤ → Call
  shutdown : Call
  set_level : ℤ → Call
  set_filter : Option Text → Call
  set_sampling : ℕ → Call
  set_remote : Bool → ℕ → ℤ → Option ℕ → Call
  disable_remote : Call
  set_max_file_size : ℕ → Call
  set_max_files : ℕ → Call
  emit : ℤ → Option Text → ℤ → Option Text → Call
  log : ℤ → Option Text → Call
  structured : ℤ → Option Text → List KvPair → Call

module _ (os : LogOs) where
  unfoldable pub call : Call → Log os → World → Log os × World
  call (Call.init path level) g w = let r = log_init os path level g w in (r.1, r.2)
  call Call.shutdown g w = log_shutdown os g w
  call (Call.set_level level) g w = (log_set_level os level g, w)
  call (Call.set_filter p) g w = ((log_set_filter os p g).1, w)
  call (Call.set_sampling rate) g w = (log_set_sampling os rate g, w)
  call (Call.set_remote host port sock address) g w =
      let r = log_set_remote os host port sock address g w in (r.1, r.2)
  call Call.disable_remote g w = log_disable_remote os g w
  call (Call.set_max_file_size n) g w = (log_set_max_file_size os n g, w)
  call (Call.set_max_files n) g w = (log_set_max_files os n g, w)
  call (Call.emit level file at_line message) g w = log_emit os level file at_line message g w
  call (Call.log level message) g w = osal_log os level message g w
  call (Call.structured level message pairs) g w = log_structured os level message pairs g w

  unfoldable pub run : List Call → Log os → World → Log os × World
  run [] g w = (g, w)
  run (c ∷ cs) g w = let r = call c g w in run cs r.0 r.1

  -- What `socket` answers is no open socket.
  abbrev pub Fresh : Call → World → Type 0
  Fresh (Call.set_remote host port sock address) w = is_open sock w.open_sockets ≡ false
  Fresh (Call.init path level) w = Unit {0}
  Fresh Call.shutdown w = Unit {0}
  Fresh (Call.set_level level) w = Unit {0}
  Fresh (Call.set_filter p) w = Unit {0}
  Fresh (Call.set_sampling rate) w = Unit {0}
  Fresh Call.disable_remote w = Unit {0}
  Fresh (Call.set_max_file_size n) w = Unit {0}
  Fresh (Call.set_max_files n) w = Unit {0}
  Fresh (Call.emit level file at_line message) w = Unit {0}
  Fresh (Call.log level message) w = Unit {0}
  Fresh (Call.structured level message pairs) w = Unit {0}

  unfoldable pub AllFresh : List Call → Log os → World → Type 0
  AllFresh [] g w = Unit {0}
  AllFresh (c ∷ cs) g w = Fresh c w × AllFresh cs (call c g w).0 (call c g w).1

  -- A message that is judged and then put out.
  judged-Sane :
      (message : Text) (g : Log os) (w : World) (out : Bool × Log os → Log os × World)
      → is_ready g.status ≡ true
      → Sane os g w
      → ((g' : Log os) → is_ready g'.status ≡ true → Sane os g' w → Left os (out (true, g')))
      → ((g' : Log os) → Sane os g' w → Left os (out (false, g')))
      → Left os (out (should_log os message g))
  judged-Sane message g w out on ok passes stays = told (should_log os message g).0 refl
    where
      g' : Log os
      g' = (should_log os message g).1

      told : (b : Bool) → b ≡ b → Left os (out (b, (should_log os message g).1))
      told true e =
          passes (should_log os message g).1 (ap is_ready (should_log-status os message g) ∙ on)
            (should_log-Sane os message g w ok)
      told false e = stays (should_log os message g).1 (should_log-Sane os message g w ok)

  output_rotated :
      (size : ℕ) (a b : Text) (remote : Option Text) (g : Log os) (w : World)
      → is_ready g.status ≡ true
      → Sane os g w
      → Left os (output os size a b remote (check_and_rotate_log os g w))
  output_rotated size a b remote g w on ok =
      output-Sane os size a b remote _ (check_and_rotate_log-Sane os g w on ok)

  -- The gate of every message: a log in use, and a level that is not below that of the log.
  gate :
      (level : ℕ) (g : Log os) (w : World) (r : Log os × World)
      → Sane os g w
      → (is_ready g.status ≡ true → Left os r)
      → Left os
          (if not (is_ready g.status) then (g, w) else if ltb level g.level then (g, w) else r)
  gate level g w r ok out =
      if_elim (Left os) (not (is_ready g.status)) _ _ (λ _. ok)
        (λ f.
          if_elim (Left os) (ltb level g.level) _ _ (λ _. ok)
            (λ _. out (unnegate_true (is_ready g.status) f)))

  log_emit-Sane :
      (level : Option ℕ) (file : Option Text) (at_line : ℤ) (message : Text) (g : Log os)
      (w : World)
      → Sane os g w
      → Left os (emit_level os level file at_line message g w)
  unfolding emit_level log_internal_ex emit_judged
  log_emit-Sane none file at_line message g w ok = ok
  log_emit-Sane (some level) file at_line message g w ok = gate level g w _ ok (λ on.
      judged-Sane (printed message_size message) g w
        (λ r.
          emit_judged os level
            (text " " ++ extract_filename file ++ text ":" ++ decimal_int at_line)
            (printed message_size message) r w)
        on ok (λ g' on' ok'. output_rotated _ _ _ _ g' w on' ok') (λ g' ok'. ok'))

  osal_log-Sane :
      (level : Option ℕ) (message : Text) (g : Log os) (w : World)
      → Sane os g w
      → Left os (log_level os level message g w)
  unfolding log_level log_internal
  osal_log-Sane none message g w ok = ok
  osal_log-Sane (some level) message g w ok =
      gate level g w _ ok (λ on. output_rotated _ _ _ _ g w on ok)

  log_structured-Sane :
      (level : Option ℕ) (message : Text) (pairs : List KvPair) (g : Log os) (w : World)
      → Sane os g w
      → Left os (structured_level os level message pairs g w)
  unfolding structured_level structured_judged
  log_structured-Sane none message pairs g w ok = ok
  log_structured-Sane (some level) message pairs g w ok = gate level g w _ ok (λ on.
      judged-Sane (printed message_size (message ++ kv_text pairs)) g w
        (λ r. structured_judged os level (printed message_size (message ++ kv_text pairs)) r w) on
        ok (λ g' on' ok'. output_rotated _ _ _ _ g' w on' ok') (λ g' ok'. ok'))

  positive : (n : ℕ) → ltb 0 n ≡ true → 0 < n
  positive n t = ground (arith, t)

  call-Sane : (c : Call) (g : Log os) (w : World) → Fresh c w → Sane os g w → Left os (call c g w)
  unfolding call log_set_level log_set_filter put_filter log_set_sampling log_set_max_file_size
      log_set_max_files log_emit osal_log log_structured
  call-Sane (Call.init path level) g w new ok = log_init-Sane os path level g w ok
  call-Sane Call.shutdown g w new ok = log_shutdown-Sane os g w ok
  call-Sane (Call.set_level level) g w new ok = with_level-Sane os level g w ok
  call-Sane (Call.set_filter p) g w new ok = filtered p
    where
      refilter : (f : Option os.Regex) → Sane os (record g { filter = f }) w
      refilter f = record {
        counts = ok.counts;
        shut = ok.shut;
        remote = ok.remote;
        rate = ok.rate;
        size = ok.size;
        files = ok.files;
        level = ok.level;
      }

      put : (o : Option os.Regex) → Sane os (put_filter os o g).1 w
      put none = ok
      put (some r) = refilter (some r)

      filtered : (o : Option Text) → Sane os (log_set_filter os o g).1 w
      filtered none = refilter none
      filtered (some t) = put (os.regcomp t)
  call-Sane (Call.set_sampling rate) g w new ok =
      if_elim (λ (g' : Log os). Sane os g' w) (ltb 0 rate) _ _
        (λ t. record {
          counts = ok.counts;
          shut = ok.shut;
          remote = ok.remote;
          rate = positive rate t;
          size = ok.size;
          files = ok.files;
          level = ok.level;
        })
        (λ _. ok)
  call-Sane (Call.set_remote host port sock address) g w new ok =
      log_set_remote-Sane os host port sock address g w new ok
  call-Sane Call.disable_remote g w new ok = log_disable_remote-Sane os g w ok
  call-Sane (Call.set_max_file_size n) g w new ok =
      if_elim (λ (g' : Log os). Sane os g' w) (ltb 0 n) _ _
        (λ t. record {
          counts = ok.counts;
          shut = ok.shut;
          remote = ok.remote;
          rate = ok.rate;
          size = positive n t;
          files = ok.files;
          level = ok.level;
        })
        (λ _. ok)
  call-Sane (Call.set_max_files n) g w new ok =
      if_elim (λ (g' : Log os). Sane os g' w) (ltb 0 n) _ _
        (λ t. record {
          counts = ok.counts;
          shut = ok.shut;
          remote = ok.remote;
          rate = ok.rate;
          size = ok.size;
          files = positive n t;
          level = ok.level;
        })
        (λ _. ok)
  call-Sane (Call.emit level file at_line none) g w new ok = ok
  call-Sane (Call.emit level file at_line (some m)) g w new ok =
      log_emit-Sane (level_of level) file at_line m g w ok
  call-Sane (Call.log level none) g w new ok = ok
  call-Sane (Call.log level (some m)) g w new ok = osal_log-Sane (level_of level) m g w ok
  call-Sane (Call.structured level none pairs) g w new ok = ok
  call-Sane (Call.structured level (some m) pairs) g w new ok =
      log_structured-Sane (level_of level) m pairs g w ok

  -- Whatever calls a program makes, in any order and with any answers of the system, from a log that
  -- is as it should be, where `socket` answers with descriptors that are not open sockets of the log: the counts of the messages that were let through and that were dropped add up
  -- to the counter modulo 2^64, a log that is not in use has no open file, an enabled remote log has a
  -- socket that is open, the sampling rate and the limits of the files are not 0, and the level is one of the
  -- five. The log is so when the program starts.
  pub run-Sane :
      (cs : List Call) (g : Log os) (w : World)
      → AllFresh cs g w
      → Sane os g w
      → Sane os (run cs g w).0 (run cs g w).1 × Sane os (log_start os) w
  unfolding run AllFresh
  run-Sane [] g w new ok = (ok, log_start-Sane os w)
  run-Sane (c ∷ cs) g w new ok = (
    (run-Sane cs (call c g w).0 (call c g w).1 new.1 (call-Sane c g w new.0 ok)).0,
    log_start-Sane os w,
  )
