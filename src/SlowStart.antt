-- ===== src/SlowStart.antt =====
-- pkg/controllers/utils/slow_start.go: calls in batches of doubling size.
pub mod Calls
pub mod Count
pub mod Examples
use kuperator.Common.{
  ℕ, zero, suc, ◌+◌, ◌-◌, ◌*◌, Bool, true, false, ◌&&◌, Option, none, some, List, [], ◌∷◌, ltb,
  ◌==◌, if◌then◌else◌, length, Error,
}

pub int_min : ℕ → ℕ → ℕ
int_min l r = if ltb l r then l else r

-- The variables of the loop. `index` is the number of calls made so far.
pub record Run : Type 0 where
  pub remaining : ℕ
  pub successes : ℕ
  pub index : ℕ
  pub got_err : Option Error

-- The function that is called with an index and the error kept so far.
abbrev pub Call : Type 0
Call = ℕ → Option Error → Option Error

abbrev pub errors_of : Option Error → List Error → List Error
errors_of none es = es
errors_of (some e) es = e ∷ es

-- What the calls of one batch put on the error channel: `n` calls from `index` on.
pub batch_errors : Call → Option Error → ℕ → ℕ → List Error
batch_errors fn got index zero = []
batch_errors fn got index (suc n) = errors_of (fn index got) (batch_errors fn got (suc index) n)

abbrev pub is_empty : List Error → Bool
is_empty [] = true
is_empty (e ∷ es) = false

-- The calls of a batch run at once, so that any of their errors may come first: `first e es` is
-- the one that does, of a failed batch's errors `e ∷ es`.
abbrev pub First : Type 0
First = Error → List Error → Error

abbrev pub received : First → List Error → Option Error → Option Error
received first [] got = got
received first (e ∷ es) got = some (first e es)

-- One batch: the calls, the count of those that succeeded, and the first error.
pub do_batch : First → Call → ℕ → Run → Run
do_batch first fn batch_size r =
    let errs = batch_errors fn r.got_err r.index batch_size in
    record r {
      index = r.index + batch_size;
      successes = r.successes + (batch_size - length errs);
      got_err = received first errs r.got_err;
    }

failed : Call → ℕ → Run → Bool
failed fn batch_size r =
    if is_empty (batch_errors fn r.got_err r.index batch_size) then false else true

-- The loop on fuel; `none` means that the fuel ran out.
pub loop : First → Bool → Call → ℕ → ℕ → Run → Option Run
unfolding do_batch failed
loop first short_circuit fn zero batch_size r = none
loop first short_circuit fn (suc fuel) batch_size r =
    let r' = do_batch first fn batch_size r in
    let left = r.remaining - batch_size in
    let rest =
      loop first short_circuit fn fuel (int_min (2 * batch_size) left)
        (record r' { remaining = left }) in
    if batch_size == 0
    then some r
    else if failed fn batch_size r && short_circuit
    then some r'
    else rest

abbrev pub start : ℕ → Run
start n = record { remaining = n; successes = 0; index = 0; got_err = none }

-- `suc n` rounds are enough: each batch makes at least one of the `n` calls.
pub slow_start_batch : First → ℕ → ℕ → Bool → Call → Option Run
slow_start_batch first n initial_batch_size short_circuit fn =
    loop first short_circuit fn (suc n) (int_min n initial_batch_size) (start n)
