-- ===== src/Osal/Log/Emit.antt =====
-- The messages of the log: the output half of user/osal/src/util/osal_log.c.
use lpf.Common.{
  ℕ, ◌+◌, ◌-◌, ◌==◌, ltb, if◌then◌else◌, Bool, true, false, not, List, [], ◌∷◌, ◌++◌, take, length,
  get_or, Option, none, some, ℤ,
}
use lpf.Common.Text.{Text, text}
use lpf.Common.Decimal.{decimal_int}
use lpf.Osal.Log.{LogOs, Log, World, Console, is_ready, level_of, should_log, send_remote}
use lpf.Osal.Log.Files.{content, append, move_away, rotation_line}

-- OSAL_LOG_MESSAGE_SIZE
abbrev pub message_size : ℕ
message_size = 1024

-- `log_level_names` and `log_level_colors`, from DEBUG to FATAL
abbrev pub level_names : List Text
level_names = text "DEBUG" ∷ text "INFO" ∷ text "WARN" ∷ text "ERROR" ∷ text "FATAL" ∷ []

abbrev pub level_colors : List Text
level_colors = text "[36m" ∷ text "[32m" ∷ text "[33m" ∷ text "[31m" ∷ text "[35m" ∷ []

unfoldable pub level_name : ℕ → Text
level_name level = text "[" ++ get_or level_names level [] ++ text "]"

unfoldable pub colored_name : ℕ → Text
colored_name level = 27 ∷ get_or level_colors level [] ++ level_name level

abbrev pub color_reset : Text
color_reset = 27 ∷ text "[0m"

abbrev pub newline : Text
newline = 10 ∷ []

-- `snprintf` into a buffer of this size, and what the buffer then holds
abbrev pub printed : ℕ → Text → Text
printed size s = take (size - 1) s

-- `write(STDOUT_FILENO, buffer, len)` of the length that `snprintf` returned for the whole text
unfoldable pub write_console : ℕ → Text → World → World
write_console size s w = record w {
  console =
      w.console
      ++ ((if ltb (length s) size
            then Console.exact s
            else Console.beyond (printed size s) (length s - (size - 1)))
          ∷ []);
}

-- The part of a path after its last slash
unfoldable pub after_slash : Text → Text → Text
after_slash [] s = s
after_slash (c ∷ p) s = if c == 47 then after_slash p p else after_slash p s

-- `_extract_filename`
unfoldable pub extract_filename : Option Text → Text
extract_filename none = text "unknown"
extract_filename (some path) = after_slash path path

-- A line of the log file, if it is open
unfoldable pub write_file : Option Text → Text → World → World
write_file none line_ w = w
write_file (some path) line_ w = record w { disk = append path line_ w.disk }

-- `log_kv_pair_t`
pub record KvPair : Type 0 where
  pub key : Option Text
  pub value : Option Text

-- The buffer of 512 bytes for the pairs: what stands before `offset`, and the text after it.
pub record KvBuffer : Type 0 where
  pub kept : Text
  pub rest : Text

-- One round of the loop, for the text of the pair.
unfoldable pub put_text : Text → KvBuffer → KvBuffer
put_text s b =
    if ltb (length b.kept + length s) 512
    then record { kept = b.kept ++ s; rest = [] }
    else record { kept = b.kept; rest = printed (512 - length b.kept) s }

-- " key=value", if neither is NULL
unfoldable pub pair_text : Option Text → Option Text → Option Text
pair_text none value = none
pair_text (some key) none = none
pair_text (some key) (some value) = some (text " " ++ key ++ text "=" ++ value)

unfoldable pub put_pair : Option Text → KvBuffer → KvBuffer
put_pair none b = b
put_pair (some s) b = put_text s b

-- The loop over the pairs, of which at most OSAL_LOG_MAX_KV_PAIRS are read
unfoldable pub put_pairs : List KvPair → KvBuffer → KvBuffer
put_pairs [] b = b
put_pairs (p ∷ ps) b = put_pairs ps (put_pair (pair_text p.key p.value) b)

unfoldable pub kv_text : List KvPair → Text
kv_text pairs =
    let b = put_pairs (take 8 pairs) (record { kept = []; rest = [] }) in b.kept ++ b.rest

module _ (os : LogOs) where
  -- The new file after a rotation
  unfoldable pub reopen : Log os → World → Log os × World
  reopen g w =
      if os.can_open g.path
      then (record g { file = some g.path }, record w { disk = append g.path rotation_line w.disk })
      else (record g { file = none }, w)

  -- `_rotate_log_file`
  unfoldable pub rotate_log_file : Log os → World → Log os × World
  rotate_log_file g w =
      if length g.path == 0
      then (g, w)
      else reopen g (record w { disk = move_away g.path g.max_log_files w.disk })

  unfoldable pub check_size : Option Text → Log os → World → Log os × World
  check_size none g w = (g, w)
  check_size (some opened) g w =
      if length g.path == 0
      then (g, w)
      else if ltb g.max_log_size (length (content (w.disk opened)))
      then rotate_log_file g w
      else (g, w)

  -- `_check_and_rotate_log`
  unfoldable pub check_and_rotate_log : Log os → World → Log os × World
  check_and_rotate_log g w = check_size g.file g w

  -- The output of a message: to the terminal, the file and, if it is for it, the network
  unfoldable pub output : ℕ → Text → Text → Option Text → Log os × World → Log os × World
  output size on_console in_file none (g, w) =
      (g, write_file g.file (in_file ++ 10 ∷ []) (write_console size on_console w))
  output size on_console in_file (some remote) (g, w) = (
    g,
    send_remote os remote g
        (write_file g.file (in_file ++ 10 ∷ []) (write_console size on_console w)),
  )

  -- What `_log_internal_ex` does with a message that `_should_log_message` has judged
  unfoldable pub emit_judged : ℕ → Text → Text → Bool × Log os → World → Log os × World
  emit_judged level place message (false, g) w = (g, w)
  emit_judged level place message (true, g) w =
      let full_log =
        printed (message_size + 256) (level_name level ++ place ++ text " - " ++ message) in
      output (message_size + 512)
        (colored_name level ++ place ++ color_reset ++ text " - " ++ message ++ newline) full_log
        (some full_log) (check_and_rotate_log g w)

  -- `_log_internal_ex`, of a format that is not NULL and that prints as the text
  unfoldable pub log_internal_ex : ℕ → Option Text → ℤ → Text → Log os → World → Log os × World
  log_internal_ex level file line_number formatted g w =
      if not (is_ready g.status)
      then (g, w)
      else if ltb level g.level
      then (g, w)
      else let message = printed message_size formatted in
        emit_judged level (text " " ++ extract_filename file ++ text ":" ++ decimal_int line_number)
          message (should_log os message g) w

  unfoldable pub emit_level : Option ℕ → Option Text → ℤ → Text → Log os → World → Log os × World
  emit_level none file line_number formatted g w = (g, w)
  emit_level (some level) file line_number formatted g w =
      log_internal_ex level file line_number formatted g w

  -- `osal_log_emit`
  unfoldable pub log_emit : ℤ → Option Text → ℤ → Option Text → Log os → World → Log os × World
  log_emit level file line_number none g w = (g, w)
  log_emit level file line_number (some formatted) g w =
      emit_level (level_of level) file line_number formatted g w

  -- `_log_internal`, without a place, sampling, filter and network
  unfoldable pub log_internal : ℕ → Text → Log os → World → Log os × World
  log_internal level formatted g w =
      if not (is_ready g.status)
      then (g, w)
      else if ltb level g.level
      then (g, w)
      else let message = printed message_size formatted in
        output (message_size + 256)
          (colored_name level ++ color_reset ++ text " - " ++ message ++ newline)
          (level_name level ++ text " - " ++ message) none (check_and_rotate_log g w)

  unfoldable pub log_level : Option ℕ → Text → Log os → World → Log os × World
  log_level none formatted g w = (g, w)
  log_level (some level) formatted g w = log_internal level formatted g w

  -- `osal_log`
  unfoldable pub osal_log : ℤ → Option Text → Log os → World → Log os × World
  osal_log level none g w = (g, w)
  osal_log level (some formatted) g w = log_level (level_of level) formatted g w

  -- What `osal_log_structured` does with the judged message
  unfoldable pub structured_judged : ℕ → Text → Bool × Log os → World → Log os × World
  structured_judged level message (false, g) w = (g, w)
  structured_judged level message (true, g) w =
      output (message_size + 256)
        (colored_name level ++ color_reset ++ text " - " ++ message ++ newline)
        (level_name level ++ text " - " ++ message)
        (some (printed (message_size + 256) (level_name level ++ text " - " ++ message)))
        (check_and_rotate_log g w)

  unfoldable pub structured_level : Option ℕ → Text → List KvPair → Log os → World → Log os × World
  structured_level none message pairs g w = (g, w)
  structured_level (some level) message pairs g w =
      if not (is_ready g.status)
      then (g, w)
      else if ltb level g.level
      then (g, w)
      else let full_message = printed message_size (message ++ kv_text pairs) in
        structured_judged level full_message (should_log os full_message g) w

  -- `osal_log_structured`; a NULL array is an empty one.
  unfoldable pub log_structured : ℤ → Option Text → List KvPair → Log os → World → Log os × World
  log_structured level none pairs g w = (g, w)
  log_structured level (some message) pairs g w =
      structured_level (level_of level) message pairs g w

-- `osal_printf` of a text that it formats
unfoldable pub osal_printf : Option Text → World → World
osal_printf none w = w
osal_printf (some formatted) w =
    if ltb 0 (length formatted) then write_console message_size formatted w else w
