-- ===== src/Osal/Log/Counts.antt =====
-- The variables of the log over any sequence of calls: user/osal/src/util/osal_log.c.
use lpf.Common.{
  ap, ℕ, ◌+◌, ◌%◌, ◌^◌, ◌≤◌, ◌<◌, ◌≡◌, refl, ◌∙◌, ◌==◌, ◌&&◌, ◌||◌, ltb, if_elim, Bool, true, false,
  not, [], ◌∷◌, ◌++◌, length, Option, none, some, is_neg, arith,
}
use lpf.Common.Text.{Text}
use lpf.Osal.Log.{
  Status, is_open, is_ready, is_uninitialized, World, LogOs, Log, log_start, should_log,
  send_remote, passes_filter,
}
use lpf.Osal.Log.Files.{content}
use lpf.Osal.Log.Emit.{
  write_console, write_file, reopen, rotate_log_file, check_size, check_and_rotate_log, output,
}

module _ (os : LogOs) where
  -- The counters add up, modulo their 64 bits; a log that was not started or was shut down has no
  -- open file; an enabled remote log has an open socket; the sizes and the rate are not 0.
  pub record Sane (g : Log os) (w : World) : Type 0 where
    pub counts : g.counter ≡ (g.total_count + g.dropped_count) % 2 ^ 64
    pub shut : is_uninitialized g.status ≡ true → g.file ≡ none
    pub remote :
        g.remote_enabled ≡ true
        → (is_neg g.socket ≡ false) × (is_open g.socket w.open_sockets ≡ true)
    pub rate : 0 < g.sampling_rate
    pub size : 0 < g.max_log_size
    pub files : 0 < g.max_log_files
    pub level : g.level ≤ 4

  abbrev pub Left : Log os × World → Type 0
  Left r = Sane r.0 r.1

  abbrev pub Left3 : ℕ × Log os × World → Type 0
  Left3 r = Sane r.1 r.2

  pub log_start-Sane : (w : World) → Sane (log_start os) w
  log_start-Sane w = record {
    counts = refl;
    shut = λ _. refl;
    remote = λ e. cc e;
    rate = omega arith;
    size = omega arith;
    files = omega arith;
    level = omega arith;
  }

  -- Other counts that add up, another file of a log in use, and a world with the same sockets.
  pub recounted :
      (g : Log os) (w : World) (c t d : ℕ)
      → Sane g w
      → c ≡ (t + d) % 2 ^ 64
      → Sane (record g { counter = c; total_count = t; dropped_count = d }) w
  recounted g w c t d ok e = record {
    counts = e;
    shut = ok.shut;
    remote = ok.remote;
    rate = ok.rate;
    size = ok.size;
    files = ok.files;
    level = ok.level;
  }

  pub refiled :
      (g : Log os) (w : World) (f : Option Text)
      → Sane g w
      → is_ready g.status ≡ true
      → Sane (record g { file = f }) w
  refiled g w f ok on = record {
    counts = ok.counts;
    shut = λ off. clash g.status on off;
    remote = ok.remote;
    rate = ok.rate;
    size = ok.size;
    files = ok.files;
    level = ok.level;
  }
    where
      clash : (s : Status) → is_ready s ≡ true → is_uninitialized s ≡ true → f ≡ none
      clash Status.uninitialized a b = cc a
      clash Status.initializing a b = cc a
      clash Status.ready a b = cc b

  pub elsewhere :
      (g : Log os) (w w' : World) → Sane g w → w'.open_sockets ≡ w.open_sockets → Sane g w'
  elsewhere g w w' ok e = record {
    counts = ok.counts;
    shut = ok.shut;
    remote = λ on. ((ok.remote on).0, ap (is_open g.socket) e ∙ (ok.remote on).1);
    rate = ok.rate;
    size = ok.size;
    files = ok.files;
    level = ok.level;
  }

  pub should_log-Sane :
      (message : Text) (g : Log os) (w : World) → Sane g w → Sane (should_log os message g).1 w
  unfolding should_log
  should_log-Sane message g w ok =
      if_elim (λ (r : Bool × Log os). Sane r.1 w)
        (ltb 1 g.sampling_rate && not ((g.counter + 1) % 2 ^ 64 % g.sampling_rate == 0)) _ _
        (λ _. recounted g w _ _ _ ok (let c = ok.counts in omega (arith, c)))
        (λ _.
          if_elim (λ (r : Bool × Log os). Sane r.1 w) (not (passes_filter os g.filter message)) _ _
            (λ _. recounted g w _ _ _ ok (let c = ok.counts in omega (arith, c)))
            (λ _. recounted g w _ _ _ ok (let c = ok.counts in omega (arith, c))))

  pub should_log-status :
      (message : Text) (g : Log os) → (should_log os message g).1.status ≡ g.status
  unfolding should_log
  should_log-status message g =
      if_elim (λ (r : Bool × Log os). r.1.status ≡ g.status)
        (ltb 1 g.sampling_rate && not ((g.counter + 1) % 2 ^ 64 % g.sampling_rate == 0)) _ _
        (λ _. refl)
        (λ _.
          if_elim (λ (r : Bool × Log os). r.1.status ≡ g.status)
            (not (passes_filter os g.filter message)) _ _ (λ _. refl) (λ _. refl))

  pub check_and_rotate_log-Sane :
      (g : Log os) (w : World)
      → is_ready g.status ≡ true
      → Sane g w
      → Left (check_and_rotate_log os g w)
  unfolding check_and_rotate_log check_size rotate_log_file reopen
  check_and_rotate_log-Sane g w on ok = opened g.file
    where
      again : (d : World) → d.open_sockets ≡ w.open_sockets → Left (reopen os g d)
      again d same =
          if_elim Left (os.can_open g.path) _ _
            (λ _. refiled g _ (some g.path) (elsewhere g w _ ok same) on)
            (λ _. refiled g _ none (elsewhere g w _ ok same) on)

      opened : (f : Option Text) → Left (check_size os f g w)
      opened none = ok
      opened (some f) =
          if_elim Left (length g.path == 0) _ _ (λ _. ok)
            (λ _.
              if_elim Left (ltb g.max_log_size (length (content (w.disk f)))) _ _
                (λ _. if_elim Left (length g.path == 0) _ _ (λ _. ok) (λ _. again _ refl))
                (λ _. ok))

  write_file-sockets :
      (f : Option Text) (s : Text) (w : World) → (write_file f s w).open_sockets ≡ w.open_sockets
  unfolding write_file
  write_file-sockets none s w = refl
  write_file-sockets (some p) s w = refl

  send_remote-sockets :
      (s : Text) (g : Log os) (w : World) → (send_remote os s g w).open_sockets ≡ w.open_sockets
  unfolding send_remote
  send_remote-sockets s g w =
      if_elim (λ (v : World). v.open_sockets ≡ w.open_sockets)
        (not g.remote_enabled || is_neg g.socket) _ _ (λ _. refl) (λ _. refl)

  pub output-Sane :
      (size : ℕ) (a b : Text) (remote : Option Text) (r : Log os × World)
      → Left r
      → Left (output os size a b remote r)
  unfolding output write_console
  output-Sane size a b none (g, w) ok =
      elsewhere g w _ ok (write_file-sockets g.file (b ++ 10 ∷ []) (write_console size a w))
  output-Sane size a b (some s) (g, w) ok = elsewhere g w _ ok (
      send_remote-sockets s g _ ∙ write_file-sockets g.file (b ++ 10 ∷ []) (write_console size a w))
