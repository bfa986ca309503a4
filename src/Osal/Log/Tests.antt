-- ===== src/Osal/Log/Tests.antt =====
-- Runs of the log over a system with one file.
use lpf.Common.{
  ℕ, ◌+◌, ◌≤◌, ◌<◌, ◌≡◌, refl, if◌then◌else◌, true, List, [], ◌∷◌, length, take, replicate, none,
  some, pos, arith,
}
use lpf.Common.Text.{Text, text, same_string}
use lpf.Osal.Log.{
  is_open, close_fd, log_set_remote, put_remote, close_socket, log_init, init_file, reset_config,
  with_level, Status, Console, World, LogOs, Log, log_start, should_log,
}
use lpf.Osal.Log.Files.{Disk, backup_name, rotation_line}
use lpf.Osal.Log.Emit.{KvPair, kv_text, rotate_log_file, osal_printf, message_size, write_console}
use lpf.Osal.Log.Counts.{Sane}
use lpf.Osal.Log.Counts
use lpf.Osal.Log.Runs.{Call, AllFresh, call, run, run-Sane}
use lpf.Osal.Log.Rotation.{rotate_log_file_lem}
use lpf.Osal.Log.Sampling.{judge, multiples, judge-multiples}
use lpf.Osal.Log.Pairs.{all_pairs, kv_text-all_pairs}

-- A system where a pattern matches the text that it is.
abbrev system : LogOs
system = record { Regex = Text; regcomp = λ p. some p; regexec = λ r s. true; can_open = λ p. true }

abbrev path : Text
path = text "a.log"

abbrev world : World
world = record {
  disk = λ q. if same_string q path then some (text "old") else none;
  console = [];
  sent = [];
  open_sockets = [];
}

abbrev in_use : Log system
in_use = record (log_start system) { status = Status.ready; file = some path; path = path }

log_start_ok : Sane system (log_start system) world
log_start_ok = Counts.log_start-Sane system world

abbrev calls : List Call
calls =
    Call.init (some path) (pos 0)
    ∷ Call.set_remote true 514 (pos 5) (some 1)
    ∷ Call.set_remote true 514 (pos 6) (some 2)
    ∷ Call.emit (pos 2) (some path) (pos 7) (some (text "hello"))
    ∷ Call.shutdown
    ∷ []

calls_fresh : AllFresh system calls (log_start system) world
unfolding AllFresh call is_open close_fd log_init init_file reset_config with_level log_set_remote
    put_remote close_socket
calls_fresh = (tt, (refl, (refl, (tt, (tt, tt)))))

run-Sane_example :
    Sane system
      (run system calls (log_start system) world).0
      (run system calls (log_start system) world).1
    × Sane system (log_start system) world
run-Sane_example = run-Sane system calls (log_start system) world calls_fresh log_start_ok

judge-multiples_example :
    (judge system (text "a" ∷ text "b" ∷ text "c" ∷ []) (record in_use { sampling_rate = 2 })).0
    ≡ multiples 2 0 (text "a" ∷ text "b" ∷ text "c" ∷ [])
judge-multiples_example =
    judge-multiples system (text "a" ∷ text "b" ∷ text "c" ∷ [])
      (record in_use { sampling_rate = 2 }) refl (omega arith) (omega arith)

there : world.disk path ≡ some (text "old")
unfolding same_string
there = refl

rotate_log_file_lem_example :
    let disk' : Disk = (rotate_log_file system in_use world).1.disk in
    (disk' path ≡ some rotation_line)
    × (disk' (backup_name path 1) ≡ some (text "old"))
    × ((k : ℕ) (t : Text)
        → 1 ≤ k
        → k + 1 < 5
        → world.disk (backup_name path k) ≡ some t
        → disk' (backup_name path (k + 1)) ≡ some t)
    × (disk' (backup_name path 5) ≡ none)
rotate_log_file_lem_example =
    rotate_log_file_lem system in_use world (text "old") (omega arith) (omega arith) (omega arith)
      there refl refl

abbrev pairs : List KvPair
pairs =
    (record { key = some (text "a"); value = some (text "1") })
    ∷ (record { key = none; value = some (text "2") })
    ∷ (record { key = some (text "b"); value = some (text "3") })
    ∷ []

kv_text-all_pairs_example :
    (length (kv_text pairs) < 512)
    × (length (all_pairs (take 8 pairs)) < 512 → kv_text pairs ≡ all_pairs (take 8 pairs))
kv_text-all_pairs_example = kv_text-all_pairs pairs

pairs-text : kv_text pairs ≡ text " a=1 b=3"
unfolding kv_text lpf.Osal.Log.Emit.put_pairs lpf.Osal.Log.Emit.put_pair lpf.Osal.Log.Emit.pair_text
    lpf.Osal.Log.Emit.put_text
pairs-text = refl

-- A message of 1030 bytes is cut to the buffer, but as many bytes are written: 7 come from beyond it.
long_message :
    (osal_printf (some (replicate 1030 97)) world).console
    ≡ Console.beyond (replicate 1023 97) 7 ∷ []
unfolding osal_printf write_console
long_message = refl
