-- ===== src/Osal/Log/Rotation.antt =====
-- The backups of the log file after a rotation: user/osal/src/util/osal_log.c.
use lpf.Common.{
  ℕ, zero, suc, ◌+◌, ◌-◌, ◌%◌, ◌^◌, ◌≤◌, ◌<◌, ◌≡◌, ◌≢◌, ◌==◌, ==_iff, refl, sym, ap, ◌∙◌, if_true,
  if_false, Bool-cases, inl, inr, true, false, [], ◌∷◌, ◌++◌, take-all, length, length-append,
  Option, none, some, arith,
}
use lpf.Common.Text.{Text, same_string, same_string_refl, same_string-eq}
use lpf.Common.Decimal.{digits, length-digits, value, value-digits}
use lpf.Osal.Log.{LogOs, Log, World}
use lpf.Osal.Log.Emit.{reopen, rotate_log_file}
use lpf.Osal.Log.Files.{
  Disk, content, append, rotation_line, remove, renamed, rename, backup_name, shift_backups,
  move_away,
}

differ : (a b : Text) → a ≢ b → same_string a b ≡ false
differ a b ne = elim (Bool-cases (same_string a b)) [
  | inl t ↦ absurd (ne (same_string-eq a b t))
  | inr f ↦ f
]

append_cancel : (a b c : Text) → a ++ b ≡ a ++ c → b ≡ c
append_cancel [] b c e = e
append_cancel (x ∷ a) b c e = append_cancel a b c (ap tail_of e)
  where
    tail_of : Text → Text
    tail_of [] = []
    tail_of (y ∷ s) = s

-- Backups with different numbers have different names, none of which is that of the log file, if the
-- path has at most 500 bytes.
whole_name :
    (path : Text) (i : ℕ) → length path ≤ 500 → backup_name path i ≡ path ++ 46 ∷ digits 10 i []
unfolding backup_name
whole_name path i short =
    take-all 511 _
      (omega (arith, short, length-append path (46 ∷ digits 10 i []), length-digits 10 i []))

backup_name-inj :
    (path : Text) (i j : ℕ)
    → length path ≤ 500
    → i < 2 ^ 32
    → j < 2 ^ 32
    → backup_name path i ≡ backup_name path j
    → i ≡ j
unfolding value
backup_name-inj path i j short low low' e =
    sym (value-digits 10 i [] (omega (arith, low)))
    ∙ ap (value 0) (
        ap tail_of
          (append_cancel path _ _ (sym (whole_name path i short) ∙ e ∙ whole_name path j short)))
    ∙ value-digits 10 j [] (omega (arith, low'))
  where
    tail_of : Text → Text
    tail_of [] = []
    tail_of (y ∷ s) = s

backup_name-path : (path : Text) (i : ℕ) → length path ≤ 500 → path ≢ backup_name path i
backup_name-path path i short e = absurd (
    omega
      (arith, ap length (e ∙ whole_name path i short), length-append path (46 ∷ digits 10 i [])))

-- A renaming does not touch other files, and moves the file.
rename-other : (from to q : Text) (disk : Disk) → q ≢ from → q ≢ to → rename from to disk q ≡ disk q
unfolding rename renamed
rename-other from to q disk nf nt = given (disk from)
  where
    given : (o : Option Text) → renamed o from to disk q ≡ disk q
    given none = refl
    given (some s) =
        if_false (same_string q to) _ _ (differ q to nt)
        ∙ if_false (same_string q from) _ _ (differ q from nf)

rename-to : (from to s : Text) (disk : Disk) → disk from ≡ some s → rename from to disk to ≡ some s
unfolding rename renamed
rename-to from to s disk e =
    ap (λ (o : Option Text). renamed o from to disk to) e
    ∙ if_true (same_string to to) _ _ (same_string_refl to)

rename-from :
    (from to s : Text) (disk : Disk)
    → disk from ≡ some s
    → from ≢ to
    → rename from to disk from ≡ none
unfolding rename renamed
rename-from from to s disk e ne =
    ap (λ (o : Option Text). renamed o from to disk from) e
    ∙ if_false (same_string from to) _ _ (differ from to ne)
    ∙ if_true (same_string from from) _ _ (same_string_refl from)

remove-other : (path q : Text) (disk : Disk) → q ≢ path → remove path disk q ≡ disk q
unfolding remove
remove-other path q disk ne = if_false (same_string q path) _ _ (differ q path ne)

apart :
    (path : Text) (i j : ℕ)
    → length path ≤ 500
    → i < 2 ^ 32
    → j < 2 ^ 32
    → i ≢ j
    → backup_name path i ≢ backup_name path j
apart path i j short low low' ne e = ne (backup_name-inj path i j short low low' e)

-- The loop leaves the files that are no backup of its numbers.
shift_backups-other :
    (path q : Text) (m : ℕ) (disk : Disk)
    → ((i : ℕ) → i ≤ m → q ≢ backup_name path i)
    → shift_backups path m disk q ≡ disk q
unfolding shift_backups
shift_backups-other path q zero disk ne = refl
shift_backups-other path q (suc i) disk ne =
    shift_backups-other path q i _ (λ j le. ne j (omega (arith, le)))
    ∙ rename-other (backup_name path i) (backup_name path (suc i)) q disk (ne i (omega arith))
        (ne (suc i) (omega arith))

-- The loop moves every backup below its first number to the next number.
shift_backups-next :
    (path s : Text) (m k : ℕ) (disk : Disk)
    → length path ≤ 500
    → m < 2 ^ 32
    → k < m
    → disk (backup_name path k) ≡ some s
    → shift_backups path m disk (backup_name path (suc k)) ≡ some s
unfolding shift_backups
shift_backups-next path s zero k disk short low lt e = absurd (omega (arith, lt))
shift_backups-next path s (suc i) k disk short low lt e = elim (Bool-cases (k == i)) [
  | inl t ↦ last ((==_iff k i).0 t)
  | inr f ↦ shift_backups-next path s i k _ short (omega (arith, low)) (ground (arith, f, lt)) (
      rename-other (backup_name path i) (backup_name path (suc i)) (backup_name path k) disk
        (apart path k i short (omega (arith, low, lt)) (omega (arith, low)) (ground (arith, f)))
        (apart path k (suc i) short (omega (arith, low, lt)) low (omega (arith, lt)))
      ∙ e)
]
  where
    last :
        k ≡ i
        → shift_backups path i
            (rename (backup_name path i) (backup_name path (suc i)) disk)
            (backup_name path (suc k))
          ≡ some s
    last same =
        ap
          (λ (j : ℕ).
            shift_backups path i (rename (backup_name path i) (backup_name path (suc i)) disk)
              (backup_name path (suc j)))
          same
        ∙ shift_backups-other path (backup_name path (suc i)) i _ (λ j le.
          apart path (suc i) j short low (omega (arith, le, low)) (λ q. omega (arith, q, le)))
        ∙ rename-to (backup_name path i) (backup_name path (suc i)) s disk
            (ap (λ (j : ℕ). disk (backup_name path j)) (sym same) ∙ e)

module _ (path s : Text) (max_files : ℕ) (disk : Disk) (short : length path ≤ 500)
    (two : 2 ≤ max_files) (low : max_files < 2 ^ 32) (found : disk path ≡ some s) where
  abbrev shifted : Disk
  shifted =
      shift_backups path ((max_files + 2 ^ 32 - 1) % 2 ^ 32)
        (remove (backup_name path max_files) disk)

  rounds : (max_files + 2 ^ 32 - 1) % 2 ^ 32 ≡ max_files - 1
  rounds = omega (arith, low, two)

  shifted-path : shifted path ≡ some s
  shifted-path =
      shift_backups-other path path _ _ (λ i le. backup_name-path path i short)
      ∙ remove-other (backup_name path max_files) path disk (backup_name-path path max_files short)
      ∙ found

  move_away-path : move_away path max_files disk path ≡ none
  unfolding move_away
  move_away-path =
      rename-from path (backup_name path 1) s shifted shifted-path (backup_name-path path 1 short)

  move_away-first : move_away path max_files disk (backup_name path 1) ≡ some s
  unfolding move_away
  move_away-first = rename-to path (backup_name path 1) s shifted shifted-path

  -- A backup but the first
  later :
      (k : ℕ)
      → 1 ≤ k
      → k < max_files
      → move_away path max_files disk (backup_name path (k + 1))
        ≡ shifted (backup_name path (k + 1))
  unfolding move_away
  later k one le =
      rename-other path (backup_name path 1) (backup_name path (k + 1)) shifted
        (λ e. backup_name-path path (k + 1) short (sym e))
        (apart path (k + 1) 1 short (omega (arith, le, low)) (omega arith)
          (λ e. omega (arith, e, one)))

  move_away-next :
      (k : ℕ) (t : Text)
      → 1 ≤ k
      → k + 1 < max_files
      → disk (backup_name path k) ≡ some t
      → move_away path max_files disk (backup_name path (k + 1)) ≡ some t
  move_away-next k t one le e =
      later k one (omega (arith, le))
      ∙ ap (λ (n : ℕ). shifted (backup_name path n)) (omega arith)
      ∙ shift_backups-next path t _ k _ short (omega (arith, low, rounds))
          (omega (arith, le, rounds))
          (remove-other (backup_name path max_files) (backup_name path k) disk (
              apart path k max_files short (omega (arith, le, low)) low (λ q. omega (arith, q, le)))
            ∙ e)

  move_away-last : move_away path max_files disk (backup_name path max_files) ≡ none
  unfolding remove
  move_away-last =
      ap (λ (n : ℕ). move_away path max_files disk (backup_name path n)) (omega (arith, two))
      ∙ later (max_files - 1) (omega (arith, two)) (omega (arith, two))
      ∙ ap (λ (n : ℕ). shifted (backup_name path n)) (omega (arith, two))
      ∙ shift_backups-other path (backup_name path max_files) _ _ (λ i le.
        apart path max_files i short low (omega (arith, le, low, rounds))
          (λ q. omega (arith, q, le, rounds, two)))
      ∙ if_true (same_string (backup_name path max_files) (backup_name path max_files)) _ _
          (same_string_refl (backup_name path max_files))

-- Rotating the log of a path of at most 500 bytes, with at least two files allowed, when the log file
-- exists and a new one can be opened: what was in the log file is in backup 1 and the log file
-- has the line about the rotation; every backup from 1 on whose next number is still below the
-- allowed number of files is the next backup; there is no backup with the allowed number.
pub rotate_log_file_lem :
    (os : LogOs) (g : Log os) (w : World) (s : Text)
    → length g.path ≤ 500
    → 2 ≤ g.max_log_files
    → g.max_log_files < 2 ^ 32
    → w.disk g.path ≡ some s
    → (length g.path == 0) ≡ false
    → os.can_open g.path ≡ true
    → let disk' : Disk = (rotate_log_file os g w).1.disk in
      (disk' g.path ≡ some rotation_line)
      × (disk' (backup_name g.path 1) ≡ some s)
      × ((k : ℕ) (t : Text)
          → 1 ≤ k
          → k + 1 < g.max_log_files
          → w.disk (backup_name g.path k) ≡ some t
          → disk' (backup_name g.path (k + 1)) ≡ some t)
      × (disk' (backup_name g.path g.max_log_files) ≡ none)
unfolding rotate_log_file reopen append
rotate_log_file_lem os g w s short two low found named opens = (
  after g.path
      ∙ if_true (same_string g.path g.path) _ _ (same_string_refl g.path)
      ∙ ap (λ (o : Option Text). some (content o ++ rotation_line))
          (move_away-path g.path s g.max_log_files w.disk short two low found),
  backup 1 ∙ move_away-first g.path s g.max_log_files w.disk short two low found,
  λ k t one le e.
      backup (k + 1)
      ∙ move_away-next g.path s g.max_log_files w.disk short two low found k t one le e,
  backup g.max_log_files ∙ move_away-last g.path s g.max_log_files w.disk short two low found,
)
  where
    moved : Disk
    moved = move_away g.path g.max_log_files w.disk

    after : (q : Text) → (rotate_log_file os g w).1.disk q ≡ append g.path rotation_line moved q
    after q =
        ap (λ (r : Log os × World). r.1.disk q) (if_false (length g.path == 0) _ _ named)
        ∙ ap (λ (r : Log os × World). r.1.disk q) (if_true (os.can_open g.path) _ _ opens)

    backup :
        (i : ℕ)
        → (rotate_log_file os g w).1.disk (backup_name g.path i) ≡ moved (backup_name g.path i)
    backup i =
        after (backup_name g.path i)
        ∙ if_false (same_string (backup_name g.path i) g.path) _ _
            (differ _ _ (λ e. backup_name-path g.path i short (sym e)))
