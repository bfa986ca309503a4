-- ===== src/Osal.antt =====
-- The user space half of the OS abstraction layer, user/osal, and its result codes: user/osal/include.
pub mod Flock
pub mod Heap
pub mod Log
mod Tests
use lpf.Common.{ℕ}

abbrev pub osal_success : ℕ
osal_success = 0

abbrev pub err_generic : ℕ
err_generic = 5

abbrev pub err_no_memory : ℕ
err_no_memory = 12

abbrev pub err_invalid_pointer : ℕ
err_invalid_pointer = 14

abbrev pub err_busy : ℕ
err_busy = 16

abbrev pub err_invalid_size : ℕ
err_invalid_size = 22

abbrev pub err_timeout : ℕ
err_timeout = 110

abbrev pub err_invalid_state : ℕ
err_invalid_state = 0xcb
