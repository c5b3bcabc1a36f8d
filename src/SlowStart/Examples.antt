-- ===== src/SlowStart/Examples.antt =====
-- SlowStartBatch on seven calls, of which the fourth fails.
use kuperator.Common.{
  ℕ, ◌≡◌, refl, ◌==◌, true, Option, none, some, arith, if◌then◌else◌, Error, conflict,
}
use kuperator.SlowStart.{Run, First, batch_errors, int_min, loop, slow_start_batch}
use kuperator.SlowStart.Calls.{IsFinished}
use kuperator.SlowStart.Count.{IsCounted, slow_start_batch-IsCounted}

abbrev oldest : First
oldest e es = e

abbrev fourth_fails : ℕ → Option Error
fourth_fails i = if i == 3 then some conflict else none

-- Batches of 1, 2 and 4; the last has the failure.
short_run :
    slow_start_batch oldest 7 1 true (λ i _. fourth_fails i)
    ≡ some (record { remaining = 4; successes = 6; index = 7; got_err = some conflict })
unfolding slow_start_batch loop int_min batch_errors
short_run = refl

-- With 9 calls and a failure in the third batch the last two calls are not made.
short_run_skips :
    slow_start_batch oldest 9 1 true (λ i _. fourth_fails i)
    ≡ some (record { remaining = 6; successes = 6; index = 7; got_err = some conflict })
unfolding slow_start_batch loop int_min batch_errors
short_run_skips = refl

slow_start_batch-IsCounted_example :
    (r : Run) × (slow_start_batch oldest 9 1 true (λ i _. fourth_fails i) ≡ some r)
    × IsFinished 9 true r
    × IsCounted (λ i _. fourth_fails i) r
slow_start_batch-IsCounted_example =
    slow_start_batch-IsCounted oldest 9 1 true (λ i _. fourth_fails i) (omega arith)
