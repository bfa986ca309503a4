-- ===== src/Pdm/Errors.antt =====
-- The ring of errors of a device (pdm_device_record_error_type) against a list of runs.
use lpf.Common.{
  ℕ, ◌+◌, ◌%◌, ◌^◌, ◌<◌, ◌≡◌, refl, if◌then◌else◌, List, [], ◌∷◌, length, get_or, take, ℤ, arith,
}
use lpf.Pdm.Device.{
  ErrorRecord, PdmDevice, zero_record, state_error, same_error, count_again, first_record, alloc,
}

-- The history, newest run first, as the ring holds it.
abbrev pub view : List ErrorRecord → ℕ → List ErrorRecord
view errors idx =
    get_or errors ((idx + 8) % 8) zero_record
    ∷ get_or errors ((idx + 7) % 8) zero_record
    ∷ get_or errors ((idx + 6) % 8) zero_record
    ∷ get_or errors ((idx + 5) % 8) zero_record
    ∷ get_or errors ((idx + 4) % 8) zero_record
    ∷ get_or errors ((idx + 3) % 8) zero_record
    ∷ get_or errors ((idx + 2) % 8) zero_record
    ∷ get_or errors ((idx + 1) % 8) zero_record
    ∷ []

unfoldable pub history : PdmDevice → List ErrorRecord
history d = view d.errors d.error_write_index

-- An error in a list of runs: one more of the newest run, or a new run in front.
abbrev pub log_error : ℤ → ℕ → ℕ → List ErrorRecord → List ErrorRecord
log_error error error_type now [] = first_record error error_type now ∷ []
log_error error error_type now (r ∷ rs) =
    if same_error error error_type r
    then count_again now r ∷ rs
    else first_record error error_type now ∷ r ∷ rs

-- The ring is an array of eight records with an index into it.
pub record RingOk (d : PdmDevice) : Type 0 where
  pub size : length d.errors ≡ 8
  pub index : d.error_write_index < 8

abbrev pub tail_of : List ErrorRecord → List ErrorRecord
tail_of [] = []
tail_of (x ∷ xs) = xs

-- The new history: the ring's or, where nothing is recorded, the old one.
abbrev logged : ℤ → ℕ → ℕ → PdmDevice → List ErrorRecord
logged error error_type now d = take 8 (log_error error error_type now (history d))

view-eight : (errors : List ErrorRecord) (idx : ℕ) → take 8 (view errors idx) ≡ view errors idx
view-eight errors idx = refl

recorded : ℤ → PdmDevice → PdmDevice
recorded error w = record w {
  last_error = error;
  error_count = (w.error_count + 1) % 2 ^ 32;
  total_error_count = (w.total_error_count + 1) % 2 ^ 32;
  state = state_error;
}

-- The newest record, and those below it.
abbrev pub newest : List ErrorRecord → ErrorRecord
newest [] = zero_record
newest (r ∷ rs) = r

pub alloc-RingOk : RingOk alloc
unfolding alloc
alloc-RingOk = record { size = refl; index = omega arith }
