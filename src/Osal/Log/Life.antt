-- ===== src/Osal/Log/Life.antt =====
-- The start, the end and the remote part of the log: user/osal/src/util/osal_log.c.
use lpf.Common.{
  ℕ, sym, eqz, eqz_refl, eqz_iff, eqz_comm, if_true, if_false, Bool-cases, inl, inr, List, ◌∷◌, ◌∙◌,
  ◌≤◌, ◌≡◌, refl, subst, ap, ◌==◌, ◌&&◌, ◌||◌, leb, leb→le, if_elim, Bool, true, false, not, [],
  take, Option, none, some, ℤ, pos, negsuc, is_neg, arith,
}
use lpf.Common.Text.{Text}
use lpf.Osal.Log.{
  Status, is_open, close_fd, is_uninitialized, World, LogOs, Log, level_of, reset_config,
  with_level, init_file, log_init, close_socket, log_shutdown, put_remote, log_set_remote,
  log_disable_remote,
}
use lpf.Osal.Log.Counts.{Sane, Left, Left3, elsewhere}

is_open_here : (s : ℤ) (ts : List ℤ) → is_open s (s ∷ ts) ≡ true
unfolding is_open
is_open_here s ts = ap (λ (b : Bool). b || is_open s ts) (eqz_refl s)

is_open_later : (s t : ℤ) (ts : List ℤ) → is_open s ts ≡ true → is_open s (t ∷ ts) ≡ true
unfolding is_open
is_open_later s t ts e = or_true (eqz t s) (is_open s ts) e
  where
    or_true : (a b : Bool) → b ≡ true → (a || b) ≡ true
    or_true true b e = refl
    or_true false b e = e

-- A socket that is open is not one that is closed.
apart : (s t : ℤ) (ts : List ℤ) → is_open s ts ≡ false → is_open t ts ≡ true → eqz s t ≡ false
apart s t ts new old = elim (Bool-cases (eqz s t)) [
  | inl e ↦ cc (ap (λ (x : ℤ). is_open x ts) (eqz_iff s t e), new, old)
  | inr e ↦ e
]

-- Closing another socket leaves this one as it is.
is_open-close_fd_ne :
    (s t : ℤ) (ts : List ℤ) → eqz s t ≡ false → is_open s (close_fd t ts) ≡ is_open s ts
unfolding is_open close_fd
is_open-close_fd_ne s t [] ne = refl
is_open-close_fd_ne s t (x ∷ ts) ne = elim (Bool-cases (eqz x t)) [
  | inl e ↦
      ap (is_open s) (if_true (eqz x t) _ _ e)
      ∙ is_open-close_fd_ne s t ts ne
      ∙ sym (
          ap (λ (b : Bool). b || is_open s ts)
            (ap (λ (y : ℤ). eqz y s) (eqz_iff x t e) ∙ eqz_comm t s ∙ ne))
  | inr e ↦
      ap (is_open s) (if_false (eqz x t) _ _ e)
      ∙ ap (λ (b : Bool). eqz x s || b) (is_open-close_fd_ne s t ts ne)
]

module _ (os : LogOs) where
  level_of-le : (level : ℤ) (n : ℕ) → level_of level ≡ some n → n ≤ 4
  level_of-le (pos m) n =
      if_elim (λ (o : Option ℕ). o ≡ some n → n ≤ 4) (leb m 4) _ _
        (λ t e. subst (λ (k : ℕ). k ≤ 4) (ap (or_zero) e) (leb→le m 4 t)) (λ _ e. cc e)
    where
      or_zero : Option ℕ → ℕ
      or_zero none = 0
      or_zero (some k) = k
  level_of-le (negsuc m) n = λ e. cc e

  pub with_level-Sane :
      (level : ℤ) (g : Log os) (w : World)
      → Sane os g w
      → Sane os (with_level os (level_of level) g) w
  unfolding with_level
  with_level-Sane level g w ok = given (level_of level) refl
    where
      given : (o : Option ℕ) → level_of level ≡ o → Sane os (with_level os o g) w
      given none e = ok
      given (some n) e = record {
        counts = ok.counts;
        shut = ok.shut;
        remote = ok.remote;
        rate = ok.rate;
        size = ok.size;
        files = ok.files;
        level = level_of-le level n e;
      }

  -- A log that was set back.
  fresh :
      (g : Log os) (w : World) (status : Status) (path : Text) (file : Option Text) (level : ℕ)
      → (is_uninitialized status ≡ true → file ≡ none)
      → level ≤ 4
      → Sane os
          (record (reset_config os g) { status = status; path = path; file = file; level = level })
          w
  unfolding reset_config
  fresh g w status path file level shut low = record {
    counts = refl;
    shut = shut;
    remote = λ e. cc e;
    rate = omega arith;
    size = omega arith;
    files = omega arith;
    level = low;
  }

  starting :
      (g : Log os) (w : World) → Sane os g w → Sane os (record g { status = Status.initializing }) w
  starting g w ok = record {
    counts = ok.counts;
    shut = λ e. cc e;
    remote = ok.remote;
    rate = ok.rate;
    size = ok.size;
    files = ok.files;
    level = ok.level;
  }

  pub log_init-Sane :
      (path : Option Text) (level : ℤ) (g : Log os) (w : World)
      → Sane os g w
      → Left3 os (log_init os path level g w)
  unfolding log_init init_file reset_config
  log_init-Sane path level g w ok =
      if_elim (Left3 os) (not (is_uninitialized g.status)) _ _ (λ _. ok) (λ _. opened path)
    where
      g1 : Log os
      g1 = with_level os (level_of level) (record g { status = Status.initializing })

      low : g1.level ≤ 4
      low =
          (with_level-Sane level (record g { status = Status.initializing }) w
            (starting g w ok)).level

      opened : (p : Option Text) → Left3 os (init_file os p (reset_config os g1) w)
      opened none = fresh g1 w Status.ready [] g1.file g1.level (λ e. cc e) low
      opened (some p) =
          if_elim (Left3 os) (os.can_open p) _ _
            (λ _.
              elsewhere os _ w _
                (fresh g1 w Status.ready (take 255 p) (some p) g1.level (λ e. cc e) low) refl)
            (λ _. fresh g1 w Status.uninitialized [] none g1.level (λ _. refl) low)

  pub log_shutdown-Sane : (g : Log os) (w : World) → Sane os g w → Left os (log_shutdown os g w)
  unfolding log_shutdown reset_config close_socket
  log_shutdown-Sane g w ok =
      if_elim (Left os) (is_uninitialized g.status) _ _ (λ _. ok)
        (λ _. fresh g _ Status.uninitialized [] none 1 (λ _. refl) (omega arith))

  pub log_set_remote-Sane :
      (host : Bool) (port : ℕ) (sock : ℤ) (address : Option ℕ) (g : Log os) (w : World)
      → is_open sock w.open_sockets ≡ false
      → Sane os g w
      → Left3 os (log_set_remote os host port sock address g w)
  unfolding log_set_remote put_remote close_socket
  log_set_remote-Sane host port sock address g w new ok =
      if_elim (Left3 os) (not host || port == 0) _ _ (λ _. ok)
        (λ _. if_elim (Left3 os) (is_neg sock) _ _ (λ _. ok) (λ f. put address f))
    where
      both : (a b : Bool) → (a && b) ≡ true → a ≡ true
      both true b e = refl
      both false b e = cc e

      at_end : is_open sock (sock ∷ w.open_sockets) ≡ true
      at_end = is_open_here sock w.open_sockets

      left_open :
          is_open sock
            (close_socket os g (record w { open_sockets = sock ∷ w.open_sockets })).open_sockets
          ≡ true
      left_open =
          if_elim (λ (v : World). is_open sock v.open_sockets ≡ true)
            (g.remote_enabled && not (is_neg g.socket)) _ _
            (λ t.
              is_open-close_fd_ne sock g.socket (sock ∷ w.open_sockets) (
                apart sock g.socket w.open_sockets new
                  (ok.remote (both g.remote_enabled (not (is_neg g.socket)) t)).1)
              ∙ at_end)
            (λ _. at_end)

      still : Sane os g (record w { open_sockets = close_fd sock (sock ∷ w.open_sockets) })
      still = record {
        counts = ok.counts;
        shut = ok.shut;
        remote = λ e. (
          (ok.remote e).0,
          is_open-close_fd_ne g.socket sock (sock ∷ w.open_sockets)
                (eqz_comm g.socket sock ∙ apart sock g.socket w.open_sockets new (ok.remote e).1)
              ∙ is_open_later g.socket sock w.open_sockets (ok.remote e).1,
        );
        rate = ok.rate;
        size = ok.size;
        files = ok.files;
        level = ok.level;
      }

      put : (a : Option ℕ) → is_neg sock ≡ false → Left3 os (put_remote os sock a g w)
      put none f = still
      put (some a) f = record {
        counts = ok.counts;
        shut = ok.shut;
        remote = λ _. (f, left_open);
        rate = ok.rate;
        size = ok.size;
        files = ok.files;
        level = ok.level;
      }

  pub log_disable_remote-Sane :
      (g : Log os) (w : World) → Sane os g w → Left os (log_disable_remote os g w)
  unfolding log_disable_remote close_socket
  log_disable_remote-Sane g w ok = record {
    counts = ok.counts;
    shut = ok.shut;
    remote = λ e. cc e;
    rate = ok.rate;
    size = ok.size;
    files = ok.files;
    level = ok.level;
  }
