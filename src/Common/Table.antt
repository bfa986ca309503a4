-- ===== src/Common/Table.antt =====
-- Checking a statement of every number below a bound by evaluation, from 0 upwards.
use lpf.Common.{ℕ, zero, suc, ◌+◌, ◌<◌, ◌≡◌, ap, ◌∙◌, Bool, true, ◌&&◌, arith}

-- The `count` numbers from `start` on pass the test.
unfoldable pub all_from : (ℕ → Bool) → ℕ → ℕ → Bool
all_from test start zero = true
all_from test start (suc count) = test start && all_from test (start + 1) count

all_from-add :
    (test : ℕ → Bool) (count start i : ℕ)
    → all_from test start count ≡ true
    → i < count
    → test (start + i) ≡ true
unfolding all_from
all_from-add test zero start i passed below = elim below [ ]
all_from-add test (suc count) start zero passed below =
    ap test {x = start + 0} {y = start} (omega arith) ∙ ground arith
all_from-add test (suc count) start (suc i) passed below =
    ap test {x = start + suc i} {y = start + 1 + i} (omega arith)
    ∙ all_from-add test count (start + 1) i (ground arith) (omega arith)

pub all_from_sound :
    (test : ℕ → Bool) (count i : ℕ) → all_from test 0 count ≡ true → i < count → test i ≡ true
all_from_sound test count i passed below =
    ap test {x = i} {y = 0 + i} (omega arith) ∙ all_from-add test count 0 i passed below
