-- ===== src/Osal/Log/Files.antt =====
-- The files of the log and their rotation: _rotate_log_file of user/osal/src/util/osal_log.c.
use lpf.Common.{
  ℕ, zero, suc, ◌+◌, ◌-◌, ◌%◌, ◌^◌, if◌then◌else◌, [], ◌∷◌, ◌++◌, take, Option, none, some,
}
use lpf.Common.Text.{Text, text, same_string}
use lpf.Common.Decimal.{digits}

-- The files by their paths, with their bytes.
abbrev pub Disk : Type 0
Disk = Text → Option Text

abbrev pub content : Option Text → Text
content none = []
content (some s) = s

-- To append to a file, which is made if it is not there: `fopen(path, "a")` and `fprintf`.
unfoldable pub append : Text → Text → Disk → Disk
append path s disk q = if same_string q path then some (content (disk path) ++ s) else disk q

-- `remove`
unfoldable pub remove : Text → Disk → Disk
remove path disk q = if same_string q path then none else disk q

-- `rename`, which fails if there is no such file
unfoldable pub renamed : Option Text → Text → Text → Disk → Disk
renamed none from to disk q = disk q
renamed (some s) from to disk q =
    if same_string q to then some s else if same_string q from then none else disk q

unfoldable pub rename : Text → Text → Disk → Disk
rename from to disk = renamed (disk from) from to disk

-- `snprintf(old_file, OSAL_LOG_FILENAME_SIZE, "%s.%u", path, i)`
unfoldable pub backup_name : Text → ℕ → Text
backup_name path i = take 511 (path ++ 46 ∷ digits 10 i [])

-- The loop that renames the backups, from the given number down to 1
unfoldable pub shift_backups : Text → ℕ → Disk → Disk
shift_backups path zero disk = disk
shift_backups path (suc i) disk =
    shift_backups path i (rename (backup_name path i) (backup_name path (suc i)) disk)

-- The files after `_rotate_log_file` has moved the log file away
unfoldable pub move_away : Text → ℕ → Disk → Disk
move_away path max_files disk = rename path (backup_name path 1) (
    shift_backups path ((max_files + 2 ^ 32 - 1) % 2 ^ 32)
      (remove (backup_name path max_files) disk))

abbrev pub rotation_line : Text
rotation_line = text "[LOG ROTATION] Log file rotated" ++ 10 ∷ []
