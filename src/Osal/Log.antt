-- ===== src/Osal/Log.antt =====
-- The log of user programs, user/osal/src/util/osal_log.c: its configuration, life and output.
pub mod Files
pub mod Emit
mod Counts
mod Life
mod Runs
mod Rotation
mod Pairs
mod Sampling
mod Tests
use lpf.Common.{
  ℕ, zero, suc, ◌+◌, ◌-◌, ◌*◌, ◌%◌, ◌^◌, ◌==◌, ◌&&◌, ◌||◌, ltb, leb, if◌then◌else◌, Bool, true,
  false, not, List, [], ◌∷◌, ◌++◌, take, Option, none, some, is_some, ℤ, pos, negsuc, is_neg, eqz,
}
use lpf.Common.Text.{Text}
use lpf.Osal.{osal_success, err_generic, err_invalid_size, err_invalid_state}
use Files.{Disk, append}

-- `log_state_t`
pub data Status : Type 0 where
  uninitialized : Status
  initializing : Status
  ready : Status

abbrev pub is_ready : Status → Bool
is_ready Status.uninitialized = false
is_ready Status.initializing = false
is_ready Status.ready = true

abbrev pub is_uninitialized : Status → Bool
is_uninitialized Status.uninitialized = true
is_uninitialized Status.initializing = false
is_uninitialized Status.ready = false

-- What reaches the terminal: a text, or the bytes of a buffer and as many beyond its end.
pub data Console : Type 0 where
  exact : Text → Console
  beyond : Text → ℕ → Console

-- A datagram: the socket, the address and the text.
pub record Datagram : Type 0 where
  pub socket : ℤ
  pub address : ℕ
  pub payload : Text

-- What the log changes outside: the files, the terminal, the network, and the descriptors of its open
-- sockets.
pub record World : Type 0 where
  pub disk : Disk
  pub console : List Console
  pub sent : List Datagram
  pub open_sockets : List ℤ

-- Whether a socket is open, and what closing it leaves.
unfoldable pub is_open : ℤ → List ℤ → Bool
is_open s [] = false
is_open s (t ∷ ts) = eqz t s || is_open s ts

unfoldable pub close_fd : ℤ → List ℤ → List ℤ
close_fd s [] = []
close_fd s (t ∷ ts) = if eqz t s then close_fd s ts else t ∷ close_fd s ts

-- The regular expressions of the C library, and which files can be opened for writing.
pub record LogOs : Type 1 where
  pub Regex : Type 0
  pub regcomp : Text → Option Regex
  pub regexec : Regex → Text → Bool
  pub can_open : Text → Bool

-- The variables of the file. `file` is the path of the open log file, `filter` the filter if it is
-- enabled.
pub record Log (os : LogOs) : Type 0 where
  pub status : Status
  pub level : ℕ
  pub file : Option Text
  pub path : Text
  pub max_log_size : ℕ
  pub max_log_files : ℕ
  pub filter : Option os.Regex
  pub sampling_rate : ℕ
  pub counter : ℕ
  pub socket : ℤ
  pub address : ℕ
  pub remote_enabled : Bool
  pub total_count : ℕ
  pub dropped_count : ℕ

-- `level >= LOG_LEVEL_DEBUG && level <= LOG_LEVEL_FATAL`, and then the level
abbrev pub level_of : ℤ → Option ℕ
level_of (pos n) = if leb n 4 then some n else none
level_of (negsuc n) = none

module _ (os : LogOs) where
  -- The log when the program starts.
  abbrev pub log_start : Log os
  log_start = record {
    status = Status.uninitialized;
    level = 1;
    file = none;
    path = [];
    max_log_size = 10 * 1024 * 1024;
    max_log_files = 5;
    filter = none;
    sampling_rate = 1;
    counter = 0;
    socket = negsuc 0;
    address = 0;
    remote_enabled = false;
    total_count = 0;
    dropped_count = 0;
  }

  -- `_reset_log_config_unlocked`
  unfoldable pub reset_config : Log os → Log os
  reset_config g = record g {
    filter = none;
    sampling_rate = 1;
    counter = 0;
    total_count = 0;
    dropped_count = 0;
    max_log_size = 10 * 1024 * 1024;
    max_log_files = 5;
    socket = negsuc 0;
    remote_enabled = false;
    address = 0;
  }

  unfoldable pub with_level : Option ℕ → Log os → Log os
  with_level none g = g
  with_level (some n) g = record g { level = n }

  -- The opening of the file in `osal_log_init`
  unfoldable pub init_file : Option Text → Log os → World → ℕ × Log os × World
  init_file none g w = (osal_success, record g { path = []; status = Status.ready }, w)
  init_file (some p) g w =
      if os.can_open p
      then (
        osal_success,
        record g { path = take 255 p; file = some p; status = Status.ready },
        record w { disk = append p [] w.disk },
      )
      else (err_generic, record g { path = []; file = none; status = Status.uninitialized }, w)

  -- `osal_log_init`
  unfoldable pub log_init : Option Text → ℤ → Log os → World → ℕ × Log os × World
  log_init path level g w =
      if not (is_uninitialized g.status)
      then (err_invalid_state, g, w)
      else init_file path
          (reset_config (with_level (level_of level) (record g { status = Status.initializing }))) w

  -- To close the socket, if there is one.
  unfoldable pub close_socket : Log os → World → World
  close_socket g w =
      if g.remote_enabled && not (is_neg g.socket)
      then record w { open_sockets = close_fd g.socket w.open_sockets }
      else w

  -- `osal_log_shutdown`
  unfoldable pub log_shutdown : Log os → World → Log os × World
  log_shutdown g w = if is_uninitialized g.status then (g, w) else (
    record (reset_config g) { status = Status.uninitialized; file = none; path = []; level = 1 },
    close_socket g w,
  )

  -- `osal_log_set_level`
  unfoldable pub log_set_level : ℤ → Log os → Log os
  log_set_level level g = with_level (level_of level) g

  unfoldable pub put_filter : Option os.Regex → Log os → ℕ × Log os
  put_filter none g = (err_generic, g)
  put_filter (some r) g = (osal_success, record g { filter = some r })

  -- `osal_log_set_filter`
  unfoldable pub log_set_filter : Option Text → Log os → ℕ × Log os
  log_set_filter none g = (osal_success, record g { filter = none })
  log_set_filter (some pattern) g = put_filter (os.regcomp pattern) g

  -- `osal_log_set_sampling`
  unfoldable pub log_set_sampling : ℕ → Log os → Log os
  log_set_sampling rate g = if ltb 0 rate then record g { sampling_rate = rate } else g

  -- `osal_log_set_remote`, with the result of `socket` and the address of `inet_pton`, if it has one
  unfoldable pub put_remote : ℤ → Option ℕ → Log os → World → ℕ × Log os × World
  put_remote sock none g w =
      (err_generic, g, record w { open_sockets = close_fd sock (sock ∷ w.open_sockets) })
  put_remote sock (some address) g w = (
    osal_success,
    record g { socket = sock; address = address; remote_enabled = true },
    close_socket g (record w { open_sockets = sock ∷ w.open_sockets }),
  )

  unfoldable pub log_set_remote : Bool → ℕ → ℤ → Option ℕ → Log os → World → ℕ × Log os × World
  log_set_remote host port sock address g w =
      if not host || port == 0
      then (err_invalid_size, g, w)
      else if is_neg sock
      then (err_generic, g, w)
      else put_remote sock address g w

  -- `osal_log_disable_remote`
  unfoldable pub log_disable_remote : Log os → World → Log os × World
  log_disable_remote g w = (
    record g {
      socket = (if g.remote_enabled && not (is_neg g.socket) then negsuc 0 else g.socket);
      remote_enabled = false;
    },
    close_socket g w,
  )

  -- `osal_log_get_stats`
  unfoldable pub log_get_stats : Log os → ℕ × ℕ
  log_get_stats g = (g.total_count, g.dropped_count)

  -- `osal_log_set_max_file_size` and `osal_log_set_max_files`
  unfoldable pub log_set_max_file_size : ℕ → Log os → Log os
  log_set_max_file_size size g = if ltb 0 size then record g { max_log_size = size } else g

  unfoldable pub log_set_max_files : ℕ → Log os → Log os
  log_set_max_files n g = if ltb 0 n then record g { max_log_files = n } else g

  -- `regexec` of the filter, if there is one and a message
  unfoldable pub passes_filter : Option os.Regex → Text → Bool
  passes_filter none message = true
  passes_filter (some r) message = os.regexec r message

  -- `_should_log_message` of a message that is not NULL
  unfoldable pub should_log : Text → Log os → Bool × Log os
  should_log message g =
      let c = (g.counter + 1) % 2 ^ 64 in
      let counted = record g { counter = c } in
      let dropped = record counted { dropped_count = (g.dropped_count + 1) % 2 ^ 64 } in
      if ltb 1 g.sampling_rate && not (c % g.sampling_rate == 0)
      then (false, dropped)
      else if not (passes_filter g.filter message)
      then (false, dropped)
      else (true, record counted { total_count = (g.total_count + 1) % 2 ^ 64 })

  -- `_send_remote_log`
  unfoldable pub send_remote : Text → Log os → World → World
  send_remote message g w = if not g.remote_enabled || is_neg g.socket then w else record w {
    sent = w.sent ++ ((record { socket = g.socket; address = g.address; payload = message }) ∷ []);
  }
